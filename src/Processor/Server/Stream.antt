-- ===== src/Processor/Server/Stream.antt =====
-- A media stream: one result for each chunk, in the order of the chunks.
use vkr.Prelude.{
  ℕ, ◌+◌, ◌^◌, ◌<◌, ◌≡◌, refl, none, List, [], ◌∷◌, ◌++◌, map, arith, length, if◌then◌else◌, All,
}
use vkr.Prelude.Int.{pos}
use vkr.Media.{MediaChunk, ProcessedChunk}
use vkr.Processor.{Floats}
use vkr.Processor.Server.{
  Server, Round, Turn, Received, Outcome, Served, sent_first, process_media_stream,
}
use vkr.Processor.Server.Laws.{IsAnswer, process_chunk-IsAnswer}

-- The successful results.
abbrev pub successes : List ProcessedChunk → ℕ
successes [] = 0
successes (result ∷ sent) = (if result.success then 1 else 0) + successes sent

module _ (f : Floats) where
  open f use {F32}

  -- A chunk that arrives and whose result is sent.
  abbrev pub delivered : MediaChunk F32 × Round f → Turn f
  delivered (c, round) = record { received = Received.chunk c; round = round; send_error = none }

  -- A chunk in a slice, with an int32 width and height that are not negative, and a buffer from the
  -- pool.
  abbrev pub IsSized : MediaChunk F32 × Round f → Type 0
  IsSized (c, round) =
      (w h : ℕ) × (c.width ≡ pos w)
      × (c.height ≡ pos h)
      × (w < 2 ^ 31)
      × (h < 2 ^ 31)
      × (length c.bytes < 2 ^ 63)
      × (length round.kernel ≡ 31)

  -- What the stream's run on `calls` from `s` is, where the client ends it.
  pub record IsServed (calls : List (MediaChunk F32 × Round f)) (s : Server) (served : Served f)
      : Type 0 where
    pub in_order : map (λ r. r.sequence_id) served.0 ≡ map (λ c. (c.0).sequence_id) calls
    pub counted : served.1.frames_processed ≡ s.frames_processed + successes served.0
    pub returned : served.2 ≡ Outcome.returned none

  served-first :
      (c : MediaChunk F32) (round : Round f) (calls : List (MediaChunk F32 × Round f))
      (s s' : Server) (result : ProcessedChunk) (rest : Served f) (w h : ℕ)
      → IsAnswer f w h c s (result, s')
      → IsServed calls s' rest
      → IsServed ((c, round) ∷ calls) s (sent_first f result rest)
  served-first c round calls s s' result (sent, last, outcome) w h answer served = record {
    in_order = let id = answer.same_id in let ids = served.in_order in rw (id, ids) refl;
    counted = let e = answer.counted in let e' = served.counted in omega (arith, e, e');
    returned = served.returned;
  }

  -- The server sends one result for each chunk, in the order of the chunks, with their sequence
  -- numbers, and counts the successful ones; when the client ends the stream, the handler returns
  -- without an error. Every chunk's width and height are not
  -- negative and below 2 ^ 31, its data are shorter than 2 ^ 63, each kernel from the pool has 31
  -- elements, and every send succeeds.
  pub process_media_stream-IsServed :
      (calls : List (MediaChunk F32 × Round f)) (end : Turn f) (s : Server)
      → All IsSized calls
      → end.received ≡ Received.eof
      → IsServed calls s (process_media_stream f (map delivered calls ++ end ∷ []) s)
  unfolding process_media_stream
  process_media_stream-IsServed [] end s sized e =
      rw e (record { in_order = refl; counted = omega arith; returned = refl })
  process_media_stream-IsServed ((c, round) ∷ calls) end s
        ((w, h, ew, eh, w_lt, h_lt, small, len), sized) e =
      let ((result, s'), ran, answer) =
        process_chunk-IsAnswer f round c s w h ew eh w_lt h_lt small len in
      rw ran (
        served-first c round calls s s' result _ w h answer
          (process_media_stream-IsServed calls end s' sized e))
