-- ===== src/Gateway/Retry.antt =====
-- What the wait for the database ends with.
use vkr.Prelude.{
  ℕ, zero, suc, ◌+◌, ◌<◌, ◌≤◌, ◌≡◌, refl, ap, ◌∙◌, Option, none, some, List, arith, ◌⊎◌, inl, inr,
}
use vkr.Prelude.Text.{Text}
use vkr.Prelude.Result.{Result, ok, err, Result-cases}
use vkr.Gateway.{opened, gave_up, retry, open_store_with_retry}

module _ {Store Event : Type 0} (open_store : ℕ → Result Store × List Event) where
  -- The attempts `lo`, `lo + 1`, … below `hi` fail.
  abbrev pub AllFail : ℕ → ℕ → Type 0
  AllFail lo hi = (j : ℕ) → lo ≤ j → j < hi → (e : Text) × ((open_store j).0 ≡ err e)

  retry-opened :
      (attempts i k : ℕ) (last_err : Option Text) (store : Store)
      → i ≤ k
      → k < i + attempts
      → AllFail i k
      → (open_store k).0 ≡ ok store
      → (retry open_store i attempts last_err).0 ≡ opened store
  unfolding retry
  retry-opened zero i k last_err store lo hi fail e = absurd (omega arith)
  retry-opened (suc attempts) i k last_err store lo hi fail e = elim (cases i k lo) [
    | inl here ↦
        let found : (open_store i).0 ≡ ok store = ap (λ j. (open_store j).0) here ∙ e in
        rw (found, retry) refl
    | inr below ↦
        let (msg, bad) = fail i (omega arith) below in
        rw (bad, retry)
          (retry-opened attempts (suc i) k (some msg) store (omega arith) (omega arith)
            (λ j j_lo j_hi. fail j (omega arith) j_hi) e)
  ]
    where
      cases : (a b : ℕ) → a ≤ b → (a ≡ b) ⊎ (a < b)
      cases a b h = ground arith

  retry-gave_up :
      (attempts i : ℕ) (last_err : Option Text)
      → AllFail i (i + suc attempts)
      → (e : Text) × ((open_store (i + attempts)).0 ≡ err e)
        × ((retry open_store i (suc attempts) last_err).0 ≡ gave_up (some e))
  unfolding retry
  retry-gave_up zero i last_err fail =
      let (e, bad) = fail i (omega arith) (omega arith) in
      let same : i + 0 ≡ i = omega arith in
      (e, ap (λ j. (open_store j).0) same ∙ bad, rw (bad, retry) refl)
  retry-gave_up (suc attempts) i last_err fail =
      let (msg, bad) = fail i (omega arith) (omega arith) in
      let (e, last, gave) =
        retry-gave_up attempts (suc i) (some msg) (λ j lo hi. fail j (omega arith) (omega arith)) in
      let same : i + suc attempts ≡ suc i + attempts = omega arith in
      (e, ap (λ j. (open_store j).0) same ∙ last, rw (bad, retry) gave)

  -- `openStoreWithRetry` returns the store of the first attempt that succeeds, if it is one of the
  -- allowed attempts.
  pub open_store_with_retry-opened :
      (attempts k : ℕ) (store : Store)
      → k < attempts
      → AllFail 0 k
      → (open_store k).0 ≡ ok store
      → (open_store_with_retry open_store attempts).0 ≡ opened store
  unfolding open_store_with_retry
  open_store_with_retry-opened attempts k store lt fail e =
      retry-opened attempts 0 k none store (omega arith) (omega arith) fail e

  -- `openStoreWithRetry` returns no store and the last attempt's error where all attempts fail, of
  -- which there is at least one.
  pub open_store_with_retry-gave_up :
      (attempts : ℕ)
      → AllFail 0 (suc attempts)
      → (e : Text) × ((open_store attempts).0 ≡ err e)
        × ((open_store_with_retry open_store (suc attempts)).0 ≡ gave_up (some e))
  unfolding open_store_with_retry
  open_store_with_retry-gave_up attempts fail =
      let (e, last, gave) = retry-gave_up attempts 0 none (λ j lo hi. fail j lo (omega arith)) in
      let same : attempts ≡ 0 + attempts = omega arith in
      (e, ap (λ j. (open_store j).0) same ∙ last, gave)

  -- The first attempt that succeeds, or none of `n` does.
  first_opened :
      (n : ℕ)
      → ((k : ℕ) × (store : Store) × (k < n) × AllFail 0 k × ((open_store k).0 ≡ ok store))
        ⊎ AllFail 0 n
  first_opened zero = inr (λ j lo hi. elim hi [ ])
  first_opened (suc n) = elim (first_opened n) [
    | inl (k, store, lt, fail, e) ↦ inl (k, store, omega (arith, lt), fail, e)
    | inr fail ↦ elim (Result-cases (open_store n).0) [
      | inl (store, e) ↦ inl (n, store, omega arith, fail, e)
      | inr (msg, e) ↦ inr (λ j lo hi. elim (last j hi) [
        | inl here ↦ (msg, ap (λ i. (open_store i).0) here ∙ e)
        | inr below ↦ fail j lo below
      ])
    ]
  ]
    where
      last : (j : ℕ) → j < suc n → (j ≡ n) ⊎ (j < n)
      last j h = ground arith

  -- `openStoreWithRetry`, with at least one attempt allowed, ends in one of two ways, whatever the
  -- database does: with the store of the first attempt that succeeds, all before it having failed, or,
  -- where all the allowed attempts fail, without a store and with the error of the last.
  pub open_store_with_retry_lem :
      (attempts : ℕ)
      → ((k : ℕ) × (store : Store) × (k < suc attempts)
          × AllFail 0 k
          × ((open_store k).0 ≡ ok store)
          × ((open_store_with_retry open_store (suc attempts)).0 ≡ opened store))
        ⊎ (AllFail 0 (suc attempts)
            × ((e : Text) × ((open_store attempts).0 ≡ err e)
                × ((open_store_with_retry open_store (suc attempts)).0 ≡ gave_up (some e))))
  open_store_with_retry_lem attempts = elim (first_opened (suc attempts)) [
    | inl (k, store, lt, fail, e) ↦
        inl (k, store, lt, fail, e, open_store_with_retry-opened (suc attempts) k store lt fail e)
    | inr fail ↦ inr (fail, open_store_with_retry-gave_up attempts fail)
  ]
