-- ===== src/Pool/Choice.antt =====
-- Which client `ProcessorPool.Get` returns.
use native.Mathlib.Nat.{mod-eq_of_lt, mod-lt, mod-add-mod, add-mod_right}
use vkr.Prelude.{
  leb, ℕ, zero, suc, ◌+◌, ◌-◌, ◌%◌, ◌^◌, ◌<◌, ◌≡◌, ◌≢◌, refl, ap, sym, ◌∙◌, inl, inr, true, false,
  Option, none, some, arith, length, get_elem?, get_elem?-total, Bool-cases, if◌then◌else◌, ◌==◌,
}
use vkr.Prelude.Int.{pos, pos_part, wrap_of_Fits32}
use vkr.Prelude.Result.{Result, ok}
use vkr.Pool.{ProcessorClient, ProcessorPool, next, is_sticky, get, set_sticky}

-- The index that `Get` reads next.
abbrev pub choice : ProcessorPool → ℕ
choice p = if is_sticky p then pos_part p.sticky else (next p).current % length p.clients

-- What `Get` leaves of the pool: a round-robin choice counts, a sticky one does not.
abbrev pub after_get : ProcessorPool → ProcessorPool
after_get p = if is_sticky p then p else next p

choice-lt : (p : ProcessorPool) → 0 < length p.clients → choice p < length p.clients
unfolding is_sticky
choice-lt p h = ground (arith, mod-lt (next p).current h)

get-eq-some :
    (p : ProcessorPool) {c : ProcessorClient}
    → get_elem? p.clients (choice p) ≡ some c
    → 0 < length p.clients
    → get p ≡ some (ok c, after_get p)
unfolding get
get-eq-some p at h = elim (Bool-cases (is_sticky p)) [
  | inl sticky ↦ ground arith
  | inr free ↦ ground arith
]

-- `Get` on a pool with clients never fails: it returns the client at the sticky index, if that is
-- one of the pool's, and else the one at the counter's next value modulo the number of clients. The
-- counter moves in the second case only, and nothing else of the pool changes.
pub get-choice :
    (p : ProcessorPool)
    → 0 < length p.clients
    → (c : ProcessorClient) × (get_elem? p.clients (choice p) ≡ some c)
      × (get p ≡ some (ok c, after_get p))
get-choice p h =
    let (c, at) = get_elem?-total p.clients (choice p) (choice-lt p h) in
    (c, at, get-eq-some p at h)

-- `Get` never panics.
pub get-ne-none : (p : ProcessorPool) → get p ≢ none
get-ne-none p e = elim (Bool-cases (length p.clients == 0)) [
  | inl empty ↦ unfold get in ground arith
  | inr full ↦ let (c, at, got) = get-choice p (ground arith) in cc
]

-- The pool after `n` calls of `Get`.
unfoldable pub after_gets : ℕ → ProcessorPool → ProcessorPool
after_gets zero p = p
after_gets (suc n) p = elim (get p) [ none ↦ p | some got ↦ after_gets n got.1 ]

-- The client that a call of `Get` returns, if it returns one.
abbrev pub got_client : Option (Result ProcessorClient × ProcessorPool) → Option ProcessorClient
got_client (some (ok c, p)) = some c
got_client _ = none

after_gets_lem :
    (n : ℕ) (p : ProcessorPool)
    → is_sticky p ≡ false
    → 0 < length p.clients
    → p.current + n < 2 ^ 64
    → after_gets n p ≡ record p { current = p.current + n }
unfolding after_gets is_sticky
after_gets_lem zero p free h k = ground arith
after_gets_lem (suc n) p free h k =
    let (c, at, got) = get-choice p h in
    let small : (p.current + 1) % 2 ^ 64 ≡ p.current + 1 = omega arith in
    let stepped : after_get p ≡ record p { current = p.current + 1 } = ground arith in
    rw (got, after_gets, stepped)
      (after_gets_lem n (record p { current = p.current + 1 }) free h (omega arith) ∙ ground arith)

-- The number of calls until index `j` has its turn.
turn : ℕ → ℕ → ℕ → ℕ
turn c n j = if leb (c % n) j then j - c % n else j + n - c % n

turn_lem : (c n j : ℕ) → j < n → (turn c n j < n) × ((c + turn c n j) % n ≡ j)
turn_lem c n j h =
    let r = mod-lt c {m = n} (omega arith) in
    let small = mod-eq_of_lt h in
    let wrapped = add-mod_right j n in
    let shift = mod-add-mod c n (turn c n j) in unfold turn in (ground arith, ground arith)

choice_of_free :
    (p : ProcessorPool)
    → is_sticky p ≡ false
    → p.current + 1 < 2 ^ 64
    → choice p ≡ (p.current + 1) % length p.clients
choice_of_free p free small =
    let same : (p.current + 1) % 2 ^ 64 ≡ p.current + 1 = mod-eq_of_lt small in rw (free, same)

got_client-choice :
    (p : ProcessorPool) → 0 < length p.clients → got_client (get p) ≡ get_elem? p.clients (choice p)
got_client-choice p h = let (c, at, got) = get-choice p h in rw got (sym at)

-- Round-robin is fair: on a pool without a sticky client each client has its turn within as many
-- calls of `Get` as there are clients, as long as the counter does not reach 2 ^ 64 on the way.
pub get_fair :
    (p : ProcessorPool) (j : ℕ)
    → is_sticky p ≡ false
    → p.current + length p.clients < 2 ^ 64
    → j < length p.clients
    → (n : ℕ) × (n < length p.clients) × (got_client (get (after_gets n p)) ≡ get_elem? p.clients j)
unfolding is_sticky
get_fair p j free small h =
    let n = turn (p.current + 1) (length p.clients) j in
    let (in_time, exact) = turn_lem (p.current + 1) (length p.clients) j h in
    let q : ProcessorPool = record p { current = p.current + n } in
    let moved : after_gets n p ≡ q = after_gets_lem n p free (omega arith) (omega arith) in
    let regroup : p.current + n + 1 ≡ p.current + 1 + n = omega arith in
    let chosen : choice q ≡ j =
      choice_of_free q free (omega arith) ∙ ap (λ k. k % length p.clients) regroup ∙ exact in
    (n, in_time, rw moved (got_client-choice q (omega arith) ∙ ap (get_elem? p.clients) chosen))

set_sticky-eq-ok :
    (p q : ProcessorPool) (i : ℕ)
    → length p.clients < 2 ^ 31
    → set_sticky p (pos i) ≡ ok q
    → (i < length p.clients) × (q ≡ record p { sticky = pos i })
unfolding set_sticky
set_sticky-eq-ok p q i few e = let small = wrap_of_Fits32 (pos i) in ground (arith, small)

after_gets_sticky :
    (n : ℕ) (p : ProcessorPool) → is_sticky p ≡ true → 0 < length p.clients → after_gets n p ≡ p
unfolding after_gets
after_gets_sticky zero p sticky h = refl
after_gets_sticky (suc n) p sticky h =
    let (c, at, got) = get-choice p h in
    let stays : after_get p ≡ p = rw sticky in
    rw (got, after_gets, stays) (after_gets_sticky n p sticky h)

-- After `SetSticky` has accepted a nonnegative index, that index is one of the pool's, and every
-- `Get`, however many were made since, returns the client at it and leaves the pool as it is. The
-- pool has less than 2 ^ 31 clients.
pub get-set_sticky :
    (p q : ProcessorPool) (i n : ℕ)
    → length p.clients < 2 ^ 31
    → set_sticky p (pos i) ≡ ok q
    → (i < length p.clients)
      × (after_gets n q ≡ record p { sticky = pos i })
      × (got_client (get (after_gets n q)) ≡ get_elem? p.clients i)
unfolding is_sticky
get-set_sticky p q i n few e =
    let (inside, same) = set_sticky-eq-ok p q i few e in
    let r : ProcessorPool = record p { sticky = pos i } in
    let sticky : is_sticky r ≡ true = ground arith in
    let stays : after_gets n q ≡ r =
      ap (after_gets n) same ∙ after_gets_sticky n r sticky (omega arith) in
    let chosen : choice r ≡ i = rw sticky in
    (inside, stays, rw stays (got_client-choice r (omega arith) ∙ ap (get_elem? p.clients) chosen))
