-- ===== src/Processor/Report/Races.antt =====
-- processor-go/cmd/server/main.go: the two counters of the kernel pool, which calls of `GaussianBlur`
-- in several streams increase while the handler of /runtime loads one and then the other. Each
-- increment and each load is atomic, and they are interleaved in any order.
use vkr.Prelude.{ℕ, zero, suc, ◌+◌, ◌^◌, ◌<◌, ◌≤◌, ◌≡◌, refl, ap, ◌∙◌, arith}
use vkr.Prelude.Int.{ℤ, pos, ◌+ℤ◌, int64, wrap_of_Fits64}
use vkr.Processor.Server.{add_int64}

-- What the handler has loaded.
pub data Loads : Type 0 where
  none_loaded : Loads
  gets_loaded : ℤ → Loads
  both_loaded : (gets puts : ℤ) → Loads

-- `running` calls have counted their kernel as taken and not yet as given back.
pub record PoolCounters : Type 0 where
  pub total_pool_gets : ℤ
  pub total_pool_puts : ℤ
  pub running : ℕ
  pub loads : Loads

abbrev pub idle : PoolCounters
idle = record { total_pool_gets = pos 0; total_pool_puts = pos 0; running = 0; loads = none_loaded }

pub data CounterStep (s t : PoolCounters) : Type 0 where
  take_kernel :
      t ≡ record s {
        total_pool_gets = add_int64 s.total_pool_gets (pos 1);
        running = s.running + 1;
      }
      → CounterStep s t
  give_kernel :
      (n : ℕ)
      → s.running ≡ n + 1
      → t ≡ record s { total_pool_puts = add_int64 s.total_pool_puts (pos 1); running = n }
      → CounterStep s t
  load_gets :
      s.loads ≡ none_loaded
      → t ≡ record s { loads = gets_loaded s.total_pool_gets }
      → CounterStep s t
  load_puts :
      (gets : ℤ)
      → s.loads ≡ gets_loaded gets
      → t ≡ record s { loads = both_loaded gets s.total_pool_puts }
      → CounterStep s t

-- `n` steps, the last one first.
pub data CounterSteps (s : PoolCounters) : ℕ → PoolCounters → Type 0 where
  stay : CounterSteps s 0 s
  step :
      {n : ℕ} {t u : PoolCounters} → CounterSteps s n t → CounterStep t u → CounterSteps s (suc n) u

-- After `n` steps.
record Counted (n : ℕ) (s : PoolCounters) : Type 0 where
  given : ℕ
  puts : s.total_pool_puts ≡ pos given
  gets : s.total_pool_gets ≡ pos (given + s.running)
  bound : given + s.running ≤ n

add_one : (n : ℕ) → n + 1 < 2 ^ 63 → add_int64 (pos n) (pos 1) ≡ pos (n + 1)
unfolding ◌+ℤ◌
add_one n lt =
    let sum : pos n +ℤ pos 1 ≡ pos (n + 1) = ground arith in
    ap int64 sum ∙ wrap_of_Fits64 (pos (n + 1)) (lt, omega arith)

step-Counted :
    (n : ℕ) (s t : PoolCounters)
    → suc n < 2 ^ 63
    → CounterStep s t
    → Counted n s
    → Counted (suc n) t
step-Counted n s t lt (CounterStep.take_kernel e) c = rw e (record {
  given = c.given;
  puts = c.puts;
  gets =
      let b = c.bound in
      ap (λ z. add_int64 z (pos 1)) c.gets
      ∙ add_one (c.given + s.running) (omega (arith, b))
      ∙ ap pos (omega arith);
  bound = let b = c.bound in omega (arith, b);
})
step-Counted n s t lt (CounterStep.give_kernel k some_run e) c = rw e (record {
  given = c.given + 1;
  puts =
      let b = c.bound in
      ap (λ z. add_int64 z (pos 1)) c.puts ∙ add_one c.given (omega (arith, b, some_run));
  gets = c.gets ∙ ap pos (omega (arith, some_run));
  bound = let b = c.bound in omega (arith, b, some_run);
})
step-Counted n s t lt (CounterStep.load_gets nothing e) c = rw e (record {
  given = c.given;
  puts = c.puts;
  gets = c.gets;
  bound = let b = c.bound in omega (arith, b);
})
step-Counted n s t lt (CounterStep.load_puts g loaded e) c = rw e (record {
  given = c.given;
  puts = c.puts;
  gets = c.gets;
  bound = let b = c.bound in omega (arith, b);
})

steps-Counted : (n : ℕ) (t : PoolCounters) → n < 2 ^ 63 → CounterSteps idle n t → Counted n t
steps-Counted zero t lt stay = record { given = 0; puts = refl; gets = refl; bound = omega arith }
steps-Counted (suc n) t lt (step steps st) =
    step-Counted n _ t lt st (steps-Counted n _ (omega arith) steps)

-- However the calls of several streams and the report are interleaved, the pool's counters differ by the
-- calls that hold a kernel, and by nothing else: when no call runs, they agree. There are less than
-- 2 ^ 63 steps.
pub counters_differ :
    (n : ℕ) (t : PoolCounters)
    → n < 2 ^ 63
    → CounterSteps idle n t
    → (given : ℕ) × (t.total_pool_puts ≡ pos given) × (t.total_pool_gets ≡ pos (given + t.running))
counters_differ n t lt steps = let c = steps-Counted n t lt steps in (c.given, c.puts, c.gets)

-- The counters after one call and `k` more, all done, with the number of kernels taken loaded after
-- the first.
abbrev slow_reader : ℕ → PoolCounters
slow_reader k = record {
  total_pool_gets = pos (k + 1);
  total_pool_puts = pos (k + 1);
  running = 0;
  loads = gets_loaded (pos 1);
}

slow_reader-CounterSteps : (k : ℕ) → k + 1 < 2 ^ 63 → (n : ℕ) × CounterSteps idle n (slow_reader k)
slow_reader-CounterSteps zero lt = (
  3,
  step (step (step stay (CounterStep.take_kernel refl)) (CounterStep.load_gets refl refl))
      (CounterStep.give_kernel 0 refl (let first = add_one 0 (omega arith) in rw first refl)),
)
slow_reader-CounterSteps (suc k) lt =
    let (n, steps) = slow_reader-CounterSteps k (omega arith) in
    let next : add_int64 (pos (k + 1)) (pos 1) ≡ pos (suc k + 1) =
      add_one (k + 1) (omega (arith, lt)) ∙ ap pos (omega arith) in
    (
      suc (suc n),
      step {t = record (slow_reader k) { total_pool_gets = pos (suc k + 1); running = 1 }}
          (step steps (CounterStep.take_kernel (rw next refl)))
          (CounterStep.give_kernel 0 refl (rw next refl)),
    )

-- The report reads the number of kernels taken before the number given back: for every `k` there is a
-- run of calls and of the report in which it says that one was taken and `k` + 1 were given back, so that its
-- ratio of reuse, which the counters keep at most 1, is as large as one likes below 2 ^ 63.
pub report-exceeds :
    (k : ℕ)
    → k + 1 < 2 ^ 63
    → (n : ℕ) × (t : PoolCounters) × CounterSteps idle n t
      × (t.loads ≡ both_loaded (pos 1) (pos (k + 1)))
report-exceeds k lt =
    let (n, steps) = slow_reader-CounterSteps k lt in
    (suc n, _, step steps (CounterStep.load_puts (pos 1) refl refl), refl)
