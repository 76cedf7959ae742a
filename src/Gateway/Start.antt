-- ===== src/Gateway/Start.antt =====
-- gateway/cmd/server/main.go: how `main` makes the parts of the gateway from its settings. The split
-- of the address list, the flags and the environment are given; the driver of the database and dialling
-- are arguments.
use vkr.Prelude.{
  ℕ, Bool, if◌then◌else◌, ◌<◌, ◌≤◌, ◌≡◌, ◌⊎◌, ◌*◌, ◌/◌, ◌^◌, inl, inr, Option, none, some, List, [],
  map, arith, length,
}
use vkr.Prelude.Int.{ℤ, pos, negsuc}
use vkr.Prelude.Text.{Text}
use vkr.Prelude.Result.{Result, ok, err, Result-cases}
use vkr.Auth.{TokenManager, new_token_manager}
use vkr.Metrics.{Metrics, set_processor_pool_size}
use vkr.Metrics.Limiter.{
  RateLimiter, Ticker, every, crashes, started, panics, new_ticker, new_rate_limiter,
}
use vkr.Metrics.Limiter.Bounds.{new_ticker-every}
use vkr.Pool.{ProcessorPool, Closing, close, new_processor_pool}
use vkr.Pool.Lifecycle.{IsValid, fresh, Connected, new_processor_pool_lem, Connected-IsValid}
use vkr.Storage.Connection.{Driver, Event, Store, open_store, close_store, migrate}
use vkr.Gateway.{opened, gave_up, open_store_with_retry}

-- The processors' addresses, whether there is a URL of a database, the key and the limit.
pub record Settings : Type 0 where
  pub addrs : List Text
  pub has_database : Bool
  pub secret : Text
  pub rate_limit : ℤ

pub record Parts : Type 0 where
  pub pool : ProcessorPool
  pub metrics : Metrics
  pub store : Option Store
  pub tokens : TokenManager
  pub limiter : RateLimiter
  pub ticker : Ticker

-- `log.Fatalf`, a panic, or the parts of a gateway that serves.
pub data Started : Type 0 where
  fatal : Text → Started
  panicked : Started
  serving : Parts → Started

module _ (dial : Text → Result ℕ) (close_conn : ℕ → Option Text) (d : Driver) where
  -- The key, and the limiter; 24 hours are in nanoseconds.
  unfoldable pub start_limiter : Settings → ProcessorPool → Option Store → Started
  start_limiter s pool store = elim (new_rate_limiter s.rate_limit) [
    | panics ↦ panicked
    | started limiter ticker ↦ serving (record {
      pool = pool;
      metrics = set_processor_pool_size (pos (length s.addrs)) [];
      store = store;
      tokens = new_token_manager s.secret (24 * 3600 * 10 ^ 9);
      limiter = limiter;
      ticker = ticker;
    })
  ]

  -- Without a store and an error `Migrate` meets a nil pointer. `log.Fatalf` closes nothing.
  unfoldable pub start_store : Settings → ProcessorPool → Started × List Event
  start_store s pool =
      if s.has_database
      then (let (got, done) = open_store_with_retry (open_store d) 12 in
          elim got [
            | gave_up none ↦ (panicked, done)
            | gave_up (some e) ↦ (fatal e, done)
            | opened store ↦ (migrated s pool store (migrate d store), done)
          ])
      else (start_limiter s pool none, [])
    where
      migrated : Settings → ProcessorPool → Store → Option (Option Text) → Started
      migrated s pool store none = panicked
      migrated s pool store (some (some e)) = fatal e
      migrated s pool store (some none) = start_limiter s pool (some store)

  -- With what it does to the database's handles.
  unfoldable pub start : Settings → Started × List Event
  start s = elim (new_processor_pool dial close_conn s.addrs).0 [
    | err e ↦ (fatal e, [])
    | ok pool ↦ start_store s pool
  ]

  -- What `main` has deferred: the store is closed, and then the pool.
  unfoldable pub shutdown : Option Store → ProcessorPool → List Event × Closing
  shutdown store pool = ((close_store d store).1, (close close_conn pool).1)

  -- A gateway that serves.
  pub record IsReady (s : Settings) (p : Parts) : Type 0 where
    pub addresses : map (λ c. c.addr) p.pool.clients ≡ s.addrs
    pub valid : IsValid p.pool
    pub limit : s.rate_limit ≡ pos p.limiter.capacity
    pub full : p.limiter.tokens ≡ p.limiter.capacity
    pub ticking :
        ((p.ticker ≡ crashes) × ((p.limiter.capacity ≡ 0) ⊎ (10 ^ 9 < p.limiter.capacity)))
        ⊎ ((p.ticker ≡ every (10 ^ 9 / p.limiter.capacity))
            × (1 ≤ p.limiter.capacity)
            × (p.limiter.capacity ≤ 10 ^ 9)
            × (1 ≤ 10 ^ 9 / p.limiter.capacity))

  limiter-started :
      (s : Settings) (pool : ProcessorPool) (store : Option Store) (p : Parts)
      → start_limiter s pool store ≡ serving p
      → (p.pool ≡ pool) × (new_rate_limiter s.rate_limit ≡ started p.limiter p.ticker)
  unfolding start_limiter
  limiter-started s pool store p e = ground arith

  store-started :
      (s : Settings) (pool : ProcessorPool) (p : Parts)
      → (start_store s pool).0 ≡ serving p
      → (p.pool ≡ pool) × (new_rate_limiter s.rate_limit ≡ started p.limiter p.ticker)
  unfolding start_store start_limiter
  store-started s pool p e = ground arith

  rate-started :
      (rate : ℤ) (rl : RateLimiter) (ticker : Ticker)
      → new_rate_limiter rate ≡ started rl ticker
      → (rate ≡ pos rl.capacity) × (rl.tokens ≡ rl.capacity) × (ticker ≡ new_ticker rl.capacity)
  unfolding new_rate_limiter
  rate-started (negsuc n) rl ticker e = cc
  rate-started (pos n) rl ticker e = (ground arith, ground arith, ground arith)

  made_addresses :
      (addrs : List Text) (r : Result ProcessorPool × Closing) (pool : ProcessorPool)
      → Connected dial close_conn addrs (fresh dial close_conn addrs) r
      → r.0 ≡ ok pool
      → map (λ c. c.addr) pool.clients ≡ addrs
  made_addresses addrs (ok q, s) pool (names, made, same, closed) e =
      let there : q ≡ pool = cc in rw (← there) names
  made_addresses addrs (err msg, s) pool c e = cc

  -- What a gateway that gets to serve is made of: its pool has one client for each address, in their
  -- order, and is valid, its rate limit is not negative, the limiter is full, and the goroutine that refills
  -- it either ticks, with a positive period, for a limit from 1 to 10 ^ 9, or is going to end the
  -- process with a panic, for a limit of 0 or above 10 ^ 9. There are less than 2 ^ 31 addresses.
  pub start-IsReady :
      (s : Settings) (p : Parts) → length s.addrs < 2 ^ 31 → (start s).0 ≡ serving p → IsReady s p
  unfolding start
  start-IsReady s p few e = elim (Result-cases (new_processor_pool dial close_conn s.addrs).0) [
    | inr (msg, failed) ↦ absurd (ground (arith, failed))
    | inl (pool, made) ↦
        let promise = new_processor_pool_lem dial close_conn s.addrs in
        let (same, limited) = store-started s pool p (ground (arith, made)) in
        let (limit, full, ticks) = rate-started s.rate_limit p.limiter p.ticker limited in
        record {
          addresses = rw same (made_addresses s.addrs _ pool promise made);
          valid = rw same (Connected-IsValid dial close_conn s.addrs _ promise made few);
          limit = limit;
          full = full;
          ticking = rw ticks (new_ticker-every p.limiter.capacity);
        }
  ]
