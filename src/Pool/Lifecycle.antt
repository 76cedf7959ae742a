-- ===== src/Pool/Lifecycle.antt =====
-- Making and closing a pool, and what holds of it in between.
use mathlib.Core.List.{map-append}
use vkr.Prelude.{
  ℕ, ◌^◌, ◌<◌, ◌≡◌, refl, ap, sym, ◌∙◌, ◌⊎◌, inl, inr, not, true, Option, none, some, List, [], ◌∷◌,
  ◌++◌, map, Option-cases, append_assoc, append-nil, arith, length, length-map, ◌==◌, Bool-cases,
}
use vkr.Prelude.Int.{ℤ, pos, negsuc, pos_part, neg_part, wrap_of_Fits32, ltb_ℤ}
use vkr.Prelude.Text.{Text}
use vkr.Prelude.Result.{Result, ok, err, Result-cases}
use vkr.Pool.{
  ProcessorClient, ProcessorPool, no_clients, is_sticky, get, get_sticky, set_sticky, Closing,
  close_client, close_all, close, new_processor_client, connect, new_processor_pool,
}
use vkr.Pool.Choice.{after_get, get-choice}

-- The connections of some clients.
abbrev pub conns : List ProcessorClient → List ℕ
conns [] = []
conns (c ∷ cs) = elim c.conn [ none ↦ conns cs | some conn ↦ conn ∷ conns cs ]

conns-append : (cs ds : List ProcessorClient) → conns (cs ++ ds) ≡ conns cs ++ conns ds
conns-append [] ds = refl
conns-append (c ∷ cs) ds = ground (arith, conns-append cs ds)

module _ (close_conn : ℕ → Option Text) where
  close_client-closed :
      (c : ProcessorClient) (s : Closing) (cs : List ProcessorClient)
      → (close_client close_conn c s).closed ++ conns cs ≡ s.closed ++ conns (c ∷ cs)
  close_client-closed c s cs = elim (Option-cases c.conn) [
    | inl nil ↦ rw nil
    | inr (conn, open_conn) ↦ ground (arith, append_assoc s.closed (conn ∷ []) (conns cs))
  ]

  close_all-closed :
      (cs : List ProcessorClient) (s : Closing)
      → (close_all close_conn cs s).closed ≡ s.closed ++ conns cs
  unfolding close_all
  close_all-closed [] s = sym (append-nil s.closed)
  close_all-closed (c ∷ cs) s =
      close_all-closed cs (close_client close_conn c s) ∙ close_client-closed c s cs

  -- `Close` closes the connection of every client, in order and once each; afterwards `Get` fails as
  -- on an empty pool, and a second `Close` closes nothing and reports no error.
  pub close_lem :
      (p : ProcessorPool)
      → ((close close_conn p).1.closed ≡ conns p.clients)
        × (get (close close_conn p).0 ≡ some (err no_clients, (close close_conn p).0))
        × (close close_conn (close close_conn p).0
            ≡ ((close close_conn p).0, record { last_err = none; closed = [] }))
  unfolding close get
  close_lem p = (close_all-closed p.clients _, refl, refl)

module _ (dial : Text → Result ℕ) (close_conn : ℕ → Option Text) where
  -- The connections that dialling in order opens, up to the first failure.
  abbrev pub opened : List Text → List ℕ
  opened [] = []
  opened (addr ∷ addrs) = elim (dial addr) [ ok conn ↦ conn ∷ opened addrs | err e ↦ [] ]

  -- What `connect` promises from the clients made so far.
  abbrev pub Connected : List Text → ProcessorPool → Result ProcessorPool × Closing → Type 0
  Connected addrs p (ok q, s) =
      (map (λ c. c.addr) q.clients ≡ map (λ c. c.addr) p.clients ++ addrs)
      × (conns q.clients ≡ conns p.clients ++ opened addrs)
      × (q ≡ record p { clients = q.clients })
      × (s.closed ≡ [])
  Connected addrs p (err e, s) = s.closed ≡ conns p.clients ++ opened addrs

  Connected-cons :
      (addr : Text) (addrs : List Text) (conn : ℕ) (p : ProcessorPool)
      (r : Result ProcessorPool × Closing)
      → dial addr ≡ ok conn
      → Connected addrs
          (record p { clients = p.clients ++ record { conn = some conn; addr = addr } ∷ [] })
          r
      → Connected (addr ∷ addrs) p r
  Connected-cons addr addrs conn p (ok q, s) e (names, made, same, none_closed) =
      let c : ProcessorClient = record { conn = some conn; addr = addr } in
      (
        names ∙ simp (map-append, append_assoc),
        made
            ∙ rw (e, opened, conns-append p.clients (c ∷ []))
                (append_assoc (conns p.clients) (conn ∷ []) (opened addrs)),
        same,
        none_closed,
      )
  Connected-cons addr addrs conn p (err e, s) dialled h =
      let c : ProcessorClient = record { conn = some conn; addr = addr } in
      h
      ∙ rw (dialled, opened, conns-append p.clients (c ∷ []))
          (append_assoc (conns p.clients) (conn ∷ []) (opened addrs))

  connect-Connected :
      (addrs : List Text) (p : ProcessorPool) → Connected addrs p (connect dial close_conn addrs p)
  unfolding connect new_processor_client
  connect-Connected [] p = (sym (append-nil _), sym (append-nil _), refl, refl)
  connect-Connected (addr ∷ addrs) p = elim (Result-cases (dial addr)) [
    | inl (conn, e) ↦
        rw (e, connect, new_processor_client)
          (Connected-cons addr addrs conn p _ e (connect-Connected addrs _))
    | inr (msg, e) ↦
        rw (e, connect, new_processor_client)
          ((close_lem close_conn p).0 ∙ rw (e, opened) (sym (append-nil (conns p.clients))))
  ]

  pub new_processor_pool_lem :
      (addrs : List Text)
      → Connected addrs
          (record { clients = []; addrs = addrs; current = 0; sticky = negsuc 0 })
          (new_processor_pool dial close_conn addrs)
  unfolding new_processor_pool
  new_processor_pool_lem addrs = connect-Connected addrs _

-- The calls that change a pool.
pub data Call : Type 0 where
  gets closes : Call
  sets : ℤ → Call

unfoldable pub step : (ℕ → Option Text) → ProcessorPool → Call → ProcessorPool
step close_conn p gets = elim (get p) [ none ↦ p | some got ↦ got.1 ]
step close_conn p closes = (close close_conn p).0
step close_conn p (sets idx) = elim (set_sticky p idx) [ ok q ↦ q | err e ↦ p ]

unfoldable pub run : (ℕ → Option Text) → ProcessorPool → List Call → ProcessorPool
run close_conn p [] = p
run close_conn p (c ∷ cs) = run close_conn (step close_conn p c) cs

-- The counter is a uint64, and the sticky index is -1 or one of the pool's unless the pool is closed.
pub record IsValid (p : ProcessorPool) : Type 0 where
  pub few : length p.clients < 2 ^ 31
  pub counted : p.current < 2 ^ 64
  pub in_range :
      (p.sticky ≡ negsuc 0)
      ⊎ ((neg_part p.sticky ≡ 0)
          × ((pos_part p.sticky < length p.clients) ⊎ (length p.clients ≡ 0)))

get_empty : (p : ProcessorPool) → (length p.clients == 0) ≡ true → get p ≡ some (err no_clients, p)
unfolding get
get_empty p h = rw h

pub get-IsValid :
    (p : ProcessorPool) → IsValid p → IsValid (elim (get p) [ none ↦ p | some got ↦ got.1 ])
get-IsValid p v = elim (Bool-cases (length p.clients == 0)) [
  | inl empty ↦ rw (get_empty p empty) v
  | inr some_client ↦ let (c, at, got) = get-choice p (ground arith) in rw got (after_get-IsValid v)
]
  where
    after_get-IsValid : IsValid p → IsValid (after_get p)
    after_get-IsValid v = ground arith

pub step-IsValid :
    (close_conn : ℕ → Option Text) (p : ProcessorPool) (c : Call)
    → IsValid p
    → IsValid (step close_conn p c)
unfolding step
step-IsValid close_conn p gets v = get-IsValid p v
step-IsValid close_conn p closes v = unfold close in ground arith
step-IsValid close_conn p (sets idx) v = unfold set_sticky in ground (arith, wrap_of_Fits32 idx)

run-IsValid :
    (close_conn : ℕ → Option Text) (p : ProcessorPool) (cs : List Call)
    → IsValid p
    → IsValid (run close_conn p cs)
unfolding run
run-IsValid close_conn p [] v = v
run-IsValid close_conn p (c ∷ cs) v =
    run-IsValid close_conn (step close_conn p c) cs (step-IsValid close_conn p c v)

is_sticky_lem :
    (p : ProcessorPool)
    → IsValid p
    → 0 < length p.clients
    → is_sticky p ≡ not (ltb_ℤ (get_sticky p) (pos 0))
unfolding is_sticky get_sticky
is_sticky_lem p v h = ground arith

module _ (dial : Text → Result ℕ) (close_conn : ℕ → Option Text) (addrs : List Text) where
  abbrev pub fresh : ProcessorPool
  fresh = record { clients = []; addrs = addrs; current = 0; sticky = negsuc 0 }

  pub Connected-IsValid :
      (r : Result ProcessorPool × Closing) {p : ProcessorPool}
      → Connected dial close_conn addrs fresh r
      → r.0 ≡ ok p
      → length addrs < 2 ^ 31
      → IsValid p
  Connected-IsValid (ok q, s) {p} (names, made, same, none_closed) e few =
      let len : length q.clients ≡ length addrs =
        sym (length-map q.clients (λ c. c.addr)) ∙ ap length names in
      let made_valid : IsValid (record fresh { clients = q.clients }) = ground arith in
      let there : q ≡ p = cc in rw (← there, same) made_valid
  Connected-IsValid (err msg, s) c e few = cc

  -- In every history of a pool that was made whole, of less than 2 ^ 31 addresses, as long as there
  -- are clients `Get` keeps to one client exactly when `GetSticky` shows an index that is not
  -- negative: the sticky index is never one beyond the pool's.
  pub run-sticky :
      (p : ProcessorPool) (cs : List Call)
      → length addrs < 2 ^ 31
      → (new_processor_pool dial close_conn addrs).0 ≡ ok p
      → 0 < length (run close_conn p cs).clients
      → is_sticky (run close_conn p cs) ≡ not (ltb_ℤ (get_sticky (run close_conn p cs)) (pos 0))
  run-sticky p cs few e open_pool =
      let made = new_processor_pool_lem dial close_conn addrs in
      is_sticky_lem _ (run-IsValid close_conn p cs (Connected-IsValid _ made e few)) open_pool
