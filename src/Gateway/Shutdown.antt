-- ===== src/Gateway/Shutdown.antt =====
-- gateway/cmd/server/main.go: what was opened at the start is closed at the end.
use vkr.Prelude.{
  ℕ, zero, suc, ◌≡◌, refl, ap, sym, ◌∙◌, true, Option, none, some, List, [], ◌++◌, arith, inl, inr,
  Bool-cases, append-nil,
}
use vkr.Prelude.Text.{Text}
use vkr.Prelude.Result.{Result, ok, err, Result-cases}
use vkr.Pool.{ProcessorPool, Closing, new_processor_pool}
use vkr.Pool.Lifecycle.{conns, opened, Connected, fresh, new_processor_pool_lem, close_lem}
use vkr.Storage.Connection.{Driver, open_store, close_store}
use vkr.Storage.Connection.Live.{live, live-append, handle, open_store-live, close_store-live}
use vkr.Http.{Env, Handler}
use vkr.Gateway
use vkr.Gateway.{gave_up, Opened, retry, open_store_with_retry}
use vkr.Gateway.Start.{Settings, Parts, serving, start_limiter, start_store, start, shutdown}
use vkr.Gateway.App.{Site, App, run}
use vkr.Gateway.App
use vkr.Gateway.App.Kept.{Moves-IsKept}
use vkr.Gateway.App.Moves.Serve.{run-Moves}

module _ (d : Driver) where
  -- The handles that a wait for the database leaves open.
  abbrev kept_open : Opened (open_store d) → List ℕ
  kept_open (Gateway.opened s) = handle (some s)
  kept_open (gave_up last_err) = []

  retry-live :
      (attempts i : ℕ) (last_err : Option Text)
      → live (retry (open_store d) i attempts last_err).1 []
        ≡ kept_open (retry (open_store d) i attempts last_err).0
  unfolding retry live
  retry-live zero i last_err = refl
  retry-live (suc attempts) i last_err = elim (Result-cases (open_store d i).0) [
    | inl (s, fine) ↦
        rw (retry, fine) (rw fine at (open_store-live d i []) ∙ append-nil (handle (some s)))
    | inr (msg, failed) ↦
        rw (retry, failed)
          (live-append (open_store d i).1 (retry (open_store d) (suc i) attempts (some msg)).1 []
            ∙ ap (live (retry (open_store d) (suc i) attempts (some msg)).1)
                (rw failed at (open_store-live d i []))
            ∙ retry-live attempts (suc i) (some msg))
  ]

module _ (dial : Text → Result ℕ) (close_conn : ℕ → Option Text) (d : Driver) where
  waited-live :
      (s : Settings) (pool : ProcessorPool) (p : Parts) (o : Opened (open_store d))
      → s.has_database ≡ true
      → (retry (open_store d) 0 12 none).0 ≡ o
      → (start_store dial close_conn d s pool).0 ≡ serving p
      → (kept_open d o ≡ handle p.store)
        × ((start_store dial close_conn d s pool).1 ≡ (retry (open_store d) 0 12 none).1)
  unfolding start_store start_limiter open_store_with_retry
  waited-live s pool p (gave_up none) with_db waited e = absurd (ground (arith, with_db, waited))
  waited-live s pool p (gave_up (some msg)) with_db waited e =
      absurd (ground (arith, with_db, waited))
  waited-live s pool p (Gateway.opened store) with_db waited e =
      let has : p.store ≡ some store = ground (arith, with_db, waited) in
      (ap handle (sym has), ground (arith, with_db, waited))

  store-live :
      (s : Settings) (pool : ProcessorPool) (p : Parts)
      → (start_store dial close_conn d s pool).0 ≡ serving p
      → live (start_store dial close_conn d s pool).1 [] ≡ handle p.store
  unfolding start_store start_limiter live
  store-live s pool p e = elim (Bool-cases s.has_database) [
    | inr without ↦
        let nothing : p.store ≡ none = ground (arith, without) in
        let quiet : (start_store dial close_conn d s pool).1 ≡ [] = ground (arith, without) in
        rw quiet (ap handle (sym nothing))
    | inl with_db ↦
        let (kept, same) = waited-live s pool p _ with_db refl e in
        ap (λ es. live es []) same ∙ retry-live d 12 0 none ∙ kept
  ]

  store-pool :
      (s : Settings) (pool : ProcessorPool) (p : Parts)
      → (start_store dial close_conn d s pool).0 ≡ serving p
      → p.pool ≡ pool
  unfolding start_store start_limiter
  store-pool s pool p e = ground arith

  made_conns :
      (addrs : List Text) (r : Result ProcessorPool × Closing) (pool : ProcessorPool)
      → Connected dial close_conn addrs (fresh dial close_conn addrs) r
      → r.0 ≡ ok pool
      → conns pool.clients ≡ opened dial close_conn addrs
  made_conns addrs (ok q, s) pool (names, made, same, closed) e =
      let there : q ≡ pool = cc in rw (← there) made
  made_conns addrs (err msg, s) pool c e = cc

  start-pool :
      (s : Settings) (p : Parts)
      → (start dial close_conn d s).0 ≡ serving p
      → (conns p.pool.clients ≡ opened dial close_conn s.addrs)
        × (live (start dial close_conn d s).1 [] ≡ handle p.store)
  unfolding start
  start-pool s p e = elim (Result-cases (new_processor_pool dial close_conn s.addrs).0) [
    | inr (msg, failed) ↦ absurd (ground (arith, failed))
    | inl (pool, made) ↦
        let stored : (start_store dial close_conn d s pool).0 ≡ serving p = ground (arith, made) in
        (
          ap (λ q. conns q.clients) (store-pool s pool p stored)
              ∙ made_conns s.addrs _ pool (new_processor_pool_lem dial close_conn s.addrs) made,
          rw (start, made) (store-live s pool p stored),
        )
  ]

  module _ {F32 F64 : Type 0} (env : Env F32 F64) (h : Handler) (site : Site F32 F64) where
    -- Whatever the gateway served since a start that made its pool and perhaps a store, the two calls
    -- that `main` has deferred close all that the start opened: each connection to a processor once, in
    -- the order in which they were dialled, and the database, of whose handles none is left open, those of
    -- the attempts that failed included.
    pub shutdown-closes :
        (s : Settings) (p : Parts) (a : App env) (es : List (App.Event F32))
        → (start dial close_conn d s).0 ≡ serving p
        → a.world.pool ≡ p.pool
        → let (events, closing) =
            shutdown dial close_conn d p.store (run env h site es a).world.pool in
          (live ((start dial close_conn d s).1 ++ events) [] ≡ [])
          × (closing.closed ≡ opened dial close_conn s.addrs)
    unfolding shutdown
    shutdown-closes s p a es e same =
        let (made, open_dbs) = start-pool s p e in
        let kept = Moves-IsKept env (run-Moves env h site es a) in
        let events = (close_store d p.store).1 in
        (
          live-append (start dial close_conn d s).1 events []
              ∙ ap (live events) (open_dbs ∙ sym (append-nil (handle p.store)))
              ∙ close_store-live d p.store [],
          (close_lem close_conn (run env h site es a).world.pool).0
              ∙ ap conns (kept.clients ∙ ap (λ q. q.clients) same)
              ∙ made,
        )
