-- ===== src/Processor/Report/Balance.antt =====
-- The kernel buffers that the server takes from its pool go back to it.
use vkr.Prelude.{◌∙◌, ◌≡◌, ◌≢◌, refl, ◌⊎◌, inl, inr, none, some, List, [], ◌∷◌, arith, Option-cases}
use vkr.Prelude.Int.{ℤ}
use vkr.Prelude.Text.{Text}
use vkr.Media.{FilterType, MediaChunk, ProcessedChunk}
use vkr.Processor.{Floats}
use vkr.Processor.Server.{
  Server, Round, Turn, Received, Outcome, settings, blur, apply_filter, processed, process_chunk,
  sent_first, process_media_stream,
}

-- As many buffers were counted as given back as were counted as taken.
abbrev pub IsBalanced : Server → Type 0
IsBalanced s = s.global_stats.total_pool_puts ≡ s.global_stats.total_pool_gets

-- The pool has lent as many buffers as before, and its Prometheus counters are what they were.
abbrev pub SameExported : Server → Server → Type 0
SameExported s t =
    (t.lent_kernels ≡ s.lent_kernels) × (t.pool_gets ≡ s.pool_gets) × (t.pool_puts ≡ s.pool_puts)

module _ (f : Floats) where
  open f use {F32}

  apply_filter-IsBalanced :
      (round : Round f) (filter : FilterType) (input : Text) (w h : ℤ) (radius k : F32) (s : Server)
      (out : Text × Server)
      → apply_filter f round filter input w h radius k s ≡ some out
      → IsBalanced s
      → IsBalanced out.1 × SameExported s out.1
  unfolding apply_filter blur
  apply_filter-IsBalanced round filter input w h radius k s out e b = ground arith

  pub process_chunk-IsBalanced :
      (round : Round f) (chunk : MediaChunk F32) (s s' : Server) (r : ProcessedChunk)
      → process_chunk f round chunk s ≡ some (r, s')
      → IsBalanced s
      → IsBalanced s' × SameExported s s'
  unfolding process_chunk processed
  process_chunk-IsBalanced round chunk s s' r e b =
      elim (Option-cases (
        apply_filter f round (settings f chunk.params).0 chunk.bytes chunk.width chunk.height
          (settings f chunk.params).1 (settings f chunk.params).2 s)) [
            | inl stuck ↦ ground (arith, stuck)
            | inr (out, ran) ↦
                let kept =
                  apply_filter-IsBalanced round _ chunk.bytes chunk.width chunk.height _ _ s out ran
                    b in
                ground (arith, ran, kept)
          ]

  received-cases :
      (r : Received f)
      → ((c : MediaChunk F32) × (r ≡ Received.chunk c))
        ⊎ (r ≡ Received.eof)
        ⊎ ((e : Text) × (r ≡ Received.failed e))
  received-cases (Received.chunk c) = inl (c, refl)
  received-cases Received.eof = inr (inl refl)
  received-cases (Received.failed e) = inr (inr (e, refl))

  -- A turn whose result is sent.
  process_media_stream-cons :
      (turn : Turn f) (turns : List (Turn f)) (s s' : Server) (c : MediaChunk F32)
      (r : ProcessedChunk)
      → turn.received ≡ Received.chunk c
      → process_chunk f turn.round c s ≡ some (r, s')
      → turn.send_error ≡ none
      → process_media_stream f (turn ∷ turns) s ≡ sent_first f r (process_media_stream f turns s')
  unfolding process_media_stream
  process_media_stream-cons turn turns s s' c r at ran sent =
      rw (process_media_stream, at, ran, sent) refl

  -- The pool of kernels loses none to a stream: as many buffers are out of it after the stream as before,
  -- whatever the chunks, their sizes and filters, and whatever call of the stream fails, unless a
  -- panic ends the process; and if the counters of the buffers taken and put back were equal before it,
  -- then so they are after it. The Prometheus counters of the pool never count any of it.
  pub process_media_stream-IsBalanced :
      (turns : List (Turn f)) (s : Server)
      → IsBalanced s
      → (process_media_stream f turns s).2 ≢ Outcome.panicked
      → let last = (process_media_stream f turns s).1 in
        IsBalanced last
        × (last.lent_kernels ≡ s.lent_kernels)
        × (last.pool_gets ≡ s.pool_gets)
        × (last.pool_puts ≡ s.pool_puts)
  unfolding process_media_stream
  process_media_stream-IsBalanced [] s b n = (b, refl, refl, refl)
  process_media_stream-IsBalanced (turn ∷ turns) s b n = elim (received-cases turn.received) [
    | inr (inl ends) ↦ rw ends (b, refl, refl, refl)
    | inr (inr (e, fails)) ↦ rw fails (b, refl, refl, refl)
    | inl (c, at) ↦ elim (Option-cases (process_chunk f turn.round c s)) [
      | inl stuck ↦ absurd (n (rw (process_media_stream, at, stuck) refl))
      | inr ((r, s'), ran) ↦
          let (kept, (lent, gets, puts)) = process_chunk-IsBalanced turn.round c s s' r ran b in
          elim (Option-cases turn.send_error) [
            | inr (e, broken) ↦ rw (process_media_stream, at, ran, broken) (kept, lent, gets, puts)
            | inl sent ↦
                let same = process_media_stream-cons turn turns s s' c r at ran sent in
                let (later, lent', gets', puts') =
                  process_media_stream-IsBalanced turns s' kept (rw same at n) in
                rw same (later, lent' ∙ lent, gets' ∙ gets, puts' ∙ puts)
          ]
    ]
  ]
