-- ===== src/Gateway/App/Moves.antt =====
-- What a request of gateway/internal/http/handlers.go may do to the state that all requests share, as
-- a relation: to the pool, to the metrics, and to the rows of the database.
pub mod Accounts
pub mod Frames
pub mod Streams
pub mod Serve
use vkr.Prelude.{ℕ, ◌≡◌, refl, ◌⊎◌, inl, inr, Bool-cases, some, List, [], ◌∷◌, ◌++◌}
use vkr.Prelude.Int.{ℤ, pos, ltb_ℤ}
use vkr.Prelude.Text.{Text, str}
use vkr.Prelude.Result.{Result, ok}
use vkr.Auth.{hash_password, hash_token}
use vkr.Pool.{ProcessorPool, ProcessorClient, get, set_sticky}
use vkr.Metrics.{Update, add_request_payload_bytes}
use vkr.Metrics.Registry.{new_metrics}
use vkr.Metrics.Registry.Accepted.{IsAccepted, IsGrowing, update-IsAccepted}
use vkr.Storage.{ProcessingRun}
use vkr.Storage.Runs.{IsStorable}
use vkr.Http.{Env, World}
use vkr.Http.Frame.{with_metrics}

module _ {F32 F64 : Type 0} (env : Env F32 F64) where
  -- One change: the pool gives a client, its index is fixed, a metric that the registry accepts is
  -- called, or a row is inserted. Of a password and of a token the database is given the hash alone, and
  -- a run's mode satisfies the table's condition.
  pub data Move (v w : World env) : Type 0 where
    take_client :
        (r : Result ProcessorClient) (pool : ProcessorPool)
        → get v.pool ≡ some (r, pool)
        → w ≡ record v { pool = pool }
        → Move v w
    fix_client :
        (i : ℤ) (pool : ProcessorPool)
        → set_sticky v.pool i ≡ ok pool
        → w ≡ record v { pool = pool }
        → Move v w
    count_call :
        (u : Update)
        → IsAccepted new_metrics u
        → w ≡ record v { metrics = v.metrics ++ u ∷ [] }
        → Move v w
    add_user :
        (salt : Result Text) (name password hash : Text)
        → hash_password env.crypto salt password ≡ ok hash
        → w ≡ record v { store = (env.db.insert_user name hash v.store).1 }
        → Move v w
    add_session :
        (id : ℤ) (token : Text) (time : ℕ)
        → w ≡ record v {
          store = (env.db.insert_session id (hash_token env.crypto token) time v.store).1;
        }
        → Move v w
    add_run :
        (run : ProcessingRun F64)
        → IsStorable run
        → w ≡ record v { store = (env.db.insert_run run v.store).1 }
        → Move v w

  pub data Moves (v : World env) : World env → Type 0 where
    still : Moves v v
    next : {w u : World env} → Moves v w → Move w u → Moves v u

  pub one : {v w : World env} → Move v w → Moves v w
  one m = next still m

  pub after : {v w u : World env} → Moves v w → Moves w u → Moves v u
  after ms still = ms
  after ms (next ns n) = next (after ms ns) n

  pub same : {v w : World env} → w ≡ v → Moves v w
  same {v} e = rw e still

  pub ends : {v w u : World env} → Moves v w → u ≡ w → Moves v u
  ends ms e = rw e ms

  -- A call that makes no counter smaller.
  pub counted :
      {v : World env} (u : Update)
      → IsGrowing u
      → Moves v (record v { metrics = v.metrics ++ u ∷ [] })
  counted u g = one (count_call u (update-IsAccepted u g) refl)

  pub added_payload :
      (v : World env) (endpoint : Text) (n : ℤ)
      → Moves v (with_metrics env v (add_request_payload_bytes endpoint n))
  added_payload v endpoint n = elim (Bool-cases (ltb_ℤ (pos 0) n)) [
    | inl some_bytes ↦ rw some_bytes (counted (Update.request_payload_bytes endpoint n) some_bytes)
    | inr no_bytes ↦ rw no_bytes still
  ]

  pub got :
      {v : World env} {r : Result ProcessorClient} {pool : ProcessorPool}
      → get v.pool ≡ some (r, pool)
      → Moves v (record v { pool = pool })
  got {r = r} {pool = pool} e = one (take_client r pool e refl)
