-- ===== src/Processor/Report/Pauses.antt =====
-- The pause that the report shows.
use vkr.Prelude.{ℕ, ◌-◌, ◌%◌, ◌^◌, ◌<◌, ◌≡◌, refl, ap, sym, ◌∙◌, some, arith, length, get_elem?}
use vkr.Prelude.Int.{ℤ}
use vkr.Processor.{Floats}
use vkr.Processor.Loops.{Gives, at-Gives}
use vkr.Processor.Server.{GlobalStats}
use vkr.Processor.Report.{MemStats, Report, last_pause_index, runtime_report}

module _ (f : Floats) where
  open f use {F64}

  last_pause_index_lem :
      (n : ℕ)
      → n < 2 ^ 32
      → (last_pause_index f n < 256) × (0 < n → last_pause_index f n ≡ (n - 1) % 256)
  unfolding last_pause_index
  last_pause_index_lem n small = (omega arith, λ h. omega arith)

  -- The report of the processor does not panic, and once there was a garbage collection the pause in it
  -- is that of the last one, number `num_gc`: the runtime keeps the pauses of the last 256
  -- collections in a circle, that of collection `n` at `(n + 255) % 256`, so at `(n - 1) % 256`.
  -- The number of collections is a uint32 and the circle has 256 places.
  pub runtime_report-last_pause :
      (m : MemStats F64) (goroutines : ℕ) (cgo_calls : ℤ) (elapsed : F64) (g : GlobalStats)
      → m.num_gc < 2 ^ 32
      → length m.pause_ns ≡ 256
      → Gives
          (λ (r : Report F64).
            0 < m.num_gc → get_elem? m.pause_ns ((m.num_gc - 1) % 256) ≡ some r.last_pause_ns)
          (runtime_report f m goroutines cgo_calls elapsed g)
  unfolding runtime_report
  runtime_report-last_pause m goroutines cgo_calls elapsed g small len =
      let (bound, last) = last_pause_index_lem m.num_gc small in
      let (pause, got, u) =
        at-Gives m.pause_ns (last_pause_index f m.num_gc) (omega (arith, len)) in
      rw got (_, refl, λ h. ap (get_elem? m.pause_ns) (sym (last h)) ∙ got)
