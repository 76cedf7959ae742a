-- ===== src/Gateway/App/Kept.antt =====
-- What the requests leave as it was: the pool's clients, and the bounds of the pool and the limiter.
use vkr.Prelude.{
  List, [], ◌∷◌, ◌++◌, All, All-append, append_assoc, append-nil, sym, ◌≡◌, refl, ◌∙◌, some, none,
  arith,
}
use vkr.Prelude.Int.{ℤ}
use vkr.Prelude.Result.{Result, ok}
use vkr.Pool.{ProcessorPool, ProcessorClient, get, set_sticky}
use vkr.Pool.Lifecycle.{sets, step, IsValid, get-IsValid, step-IsValid}
use vkr.Http.{Env, World}
use vkr.Metrics.{Update}
use vkr.Metrics.Registry.{new_metrics}
use vkr.Metrics.Registry.Accepted.{IsAccepted}
use vkr.Gateway.App.Moves.{Move, Moves, still, next}

-- The pool has the same clients at the same addresses, and is as valid as it was.
pub record IsKept (p q : ProcessorPool) : Type 0 where
  pub clients : q.clients ≡ p.clients
  pub addrs : q.addrs ≡ p.addrs
  pub valid : IsValid p → IsValid q

pub same-IsKept : {p q : ProcessorPool} → q ≡ p → IsKept p q
same-IsKept e = rw e (record { clients = refl; addrs = refl; valid = λ v. v })

pub trans-IsKept : {p q r : ProcessorPool} → IsKept p q → IsKept q r → IsKept p r
trans-IsKept k l = record {
  clients = l.clients ∙ k.clients;
  addrs = l.addrs ∙ k.addrs;
  valid = λ v. l.valid (k.valid v);
}

pub get-IsKept :
    {p q : ProcessorPool} {r : Result ProcessorClient} → get p ≡ some (r, q) → IsKept p q
unfolding get
get-IsKept {p} {q} e = record {
  clients = ground arith;
  addrs = ground arith;
  valid = λ v. rw e at (get-IsValid p v);
}

set_sticky-IsKept : {p q : ProcessorPool} (i : ℤ) → set_sticky p i ≡ ok q → IsKept p q
unfolding set_sticky step
set_sticky-IsKept {p} {q} i e = record {
  clients = ground arith;
  addrs = ground arith;
  valid = λ v. rw (step, e) at (step-IsValid (λ n. none) p (sets i) v);
}

module _ {F32 F64 : Type 0} (env : Env F32 F64) where
  Move-IsKept : {v w : World env} → Move env v w → IsKept v.pool w.pool
  Move-IsKept (Move.take_client r pool took e) = rw e (get-IsKept took)
  Move-IsKept (Move.fix_client i pool set e) = rw e (set_sticky-IsKept i set)
  Move-IsKept (Move.count_call u accepted e) = same-IsKept (rw e refl)
  Move-IsKept (Move.add_user salt name password hash hashed e) = same-IsKept (rw e refl)
  Move-IsKept (Move.add_session id token time e) = same-IsKept (rw e refl)
  Move-IsKept (Move.add_run run storable e) = same-IsKept (rw e refl)

  pub Moves-IsKept : {v w : World env} → Moves env v w → IsKept v.pool w.pool
  Moves-IsKept still = same-IsKept refl
  Moves-IsKept (next ms m) = trans-IsKept (Moves-IsKept ms) (Move-IsKept m)

  -- The calls of the metrics that the moves make, all of them accepted.
  pub record IsCounted (v w : World env) : Type 0 where
    pub calls : List Update
    pub logged : w.metrics ≡ v.metrics ++ calls
    pub accepted : All (IsAccepted new_metrics) calls

  silent-IsCounted : {v u w : World env} → w.metrics ≡ u.metrics → IsCounted v u → IsCounted v w
  silent-IsCounted e c = record { calls = c.calls; logged = e ∙ c.logged; accepted = c.accepted }

  Move-IsCounted : {v u w : World env} → IsCounted v u → Move env u w → IsCounted v w
  Move-IsCounted c (Move.take_client r pool took e) = silent-IsCounted (rw e refl) c
  Move-IsCounted c (Move.fix_client i pool set e) = silent-IsCounted (rw e refl) c
  Move-IsCounted {v} c (Move.count_call u accepted e) = record {
    calls = c.calls ++ u ∷ [];
    logged = rw (e, c.logged) (append_assoc v.metrics c.calls (u ∷ []));
    accepted = All-append (IsAccepted new_metrics) c.calls (u ∷ []) c.accepted (accepted, tt);
  }
  Move-IsCounted c (Move.add_user salt name password hash hashed e) = silent-IsCounted (rw e refl) c
  Move-IsCounted c (Move.add_session id token time e) = silent-IsCounted (rw e refl) c
  Move-IsCounted c (Move.add_run run storable e) = silent-IsCounted (rw e refl) c

  pub Moves-IsCounted : {v w : World env} → Moves env v w → IsCounted v w
  Moves-IsCounted {v} still = record {
    calls = [];
    logged = sym (append-nil v.metrics);
    accepted = tt;
  }
  Moves-IsCounted (next ms m) = Move-IsCounted (Moves-IsCounted ms) m
