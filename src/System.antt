-- ===== src/System.antt =====
-- The gateway and the processors together: what a user gets for a frame when the pool's clients are
-- connected to processor-go/cmd/server/main.go by gRPC calls that complete in time.
pub mod Frames
pub mod Stream
pub mod Socket
pub mod History
pub mod Tests
use vkr.Prelude.{
  ℕ, ◌+◌, ◌*◌, ◌^◌, ◌<◌, ◌≤◌, ◌≡◌, Option, refl, sym, ap, ◌∙◌, true, none, some, List, [], ◌∷◌,
  ◌++◌, map, arith, length, ◌==◌,
}
use vkr.Prelude.Int.{ℤ, pos, negsuc, int32, int64, ◌*ℤ◌, wrap_of_Fits32}
use vkr.Prelude.Text.{Text, str, eq_text_complete}
use vkr.Prelude.Result.{Result, ok, err}
use vkr.Go.Base64.{encode_std, decode_std}
use vkr.Auth.{User}
use vkr.Media.{MediaChunk, ProcessedChunk}
use vkr.Metrics.{Metrics, increment_requests, add_request_payload_bytes}
use vkr.Pool.{ProcessorClient, ProcessorPool, get}
use vkr.Pool.Choice.{get-choice}
use vkr.Pool.Client.{Transport, process_single_chunk}
use vkr.Processor.{Floats}
use vkr.Processor.Server.{
  Server, Round, Turn, Received, settings, process_chunk, process_media_stream,
}
use vkr.Processor.Server
use vkr.Processor.Server.Laws.{has_size-exact}
use vkr.Processor.Server.Stream.{delivered}
use vkr.Processor.Server.Pixels.{IsFiltered, Succeeds, process_chunk-Succeeds}
use vkr.Http.{
  Request, ProcessFrameRequest, ProcessFrameResponse, json, frame_json, Env, Handler, Input, World,
  parse_filter_type, normalize_memory_mode,
}
use vkr.Http.Session.{user_from_request, with_user}
use vkr.Http.Frame.{
  expected_size, has_size, frame_chunk, frame_response, check_frame, run_frame, finish_frame,
  handle_process_frame,
}

-- `MaxCallSendMsgSize`, `MaxCallRecvMsgSize`, `MaxRecvMsgSize` and `MaxSendMsgSize`, in bytes.
abbrev pub message_limit : ℕ
message_limit = 100 * 1024 * 1024

-- A message of these bytes and this text is within the limit; its other fields, with all tags and
-- lengths, are encoded in fewer than 128 bytes.
abbrev pub Fits : Text → Text → Type 0
Fits bytes text = length bytes + length text + 128 ≤ message_limit

-- A call that is over before its timeout.
abbrev pub Completes : ℕ → Option ℕ → Type 0
Completes timeout taken = (ns : ℕ) × (taken ≡ some ns) × (ns < timeout)

module _ (f : Floats) where
  open f use {F32}

  -- The turns of the server's loop for a client that sends `chunks` and closes its side.
  abbrev pub turns : Round f → List (MediaChunk F32) → List (Turn f)
  turns round chunks =
      map (λ c. delivered f (c, round)) chunks
      ++ record { received = Received.eof; round = round; send_error = none } ∷ []

  -- What gRPC promises of a call to a processor whose context has a timeout, in nanoseconds, if it
  -- completes: if no connection breaks and it takes less time than that. The stream opens, a chunk that is
  -- no larger than the message limit is sent, and after `CloseSend` a receive gives the result that the
  -- server's handler sent for it, if it is no larger than the limit. `round` and `server` are what the
  -- handler meets at each client's processor.
  pub record IsConnected {F64 : Type 0} (t : Transport F32 F64) (timeout : ℕ) : Type 1 where
    pub round : ProcessorClient → Round f
    pub server : ProcessorClient → Server
    -- How long a call takes, `none` where its connection breaks.
    pub takes : ProcessorClient → MediaChunk F32 → Option ℕ
    pub IsOpen : ProcessorClient → List (MediaChunk F32) → t.Stream → Type 0
    pub IsClosed : ProcessorClient → List (MediaChunk F32) → t.Stream → Type 0
    pub opens :
        (c : ProcessorClient) (mode : Text) (chunk : MediaChunk F32)
        → Completes timeout (takes c chunk)
        → (s : t.Stream) × (t.process_media_stream c mode ≡ ok s) × IsOpen c [] s
    pub sends :
        (c : ProcessorClient) (chunk : MediaChunk F32) (s : t.Stream)
        → Completes timeout (takes c chunk)
        → Fits chunk.bytes chunk.codec
        → IsOpen c [] s
        → (s' : t.Stream) × (t.send chunk s ≡ ok s') × IsOpen c (chunk ∷ []) s'
    pub closes :
        (c : ProcessorClient) (chunk : MediaChunk F32) (s : t.Stream)
        → Completes timeout (takes c chunk)
        → IsOpen c (chunk ∷ []) s
        → (s' : t.Stream) × (t.close_send s ≡ ok s') × IsClosed c (chunk ∷ []) s'
    pub receives :
        (c : ProcessorClient) (chunk : MediaChunk F32) (s : t.Stream) (r : ProcessedChunk)
        (more : List ProcessedChunk)
        → Completes timeout (takes c chunk)
        → Fits r.bytes r.error_message
        → IsClosed c (chunk ∷ []) s
        → (process_media_stream f (turns (round c) (chunk ∷ [])) (server c)).0 ≡ r ∷ more
        → t.recv s ≡ ok r

  module _ {F64 : Type 0} (t : Transport F32 F64) (timeout : ℕ) (link : IsConnected t timeout) where
    -- The call of the gateway is the call of the processor.
    process_single_chunk-process_chunk :
        (c : ProcessorClient) (chunk : MediaChunk F32) (mode : Text) (r : ProcessedChunk)
        (s' : Server)
        → Completes timeout (link.takes c chunk)
        → Fits chunk.bytes chunk.codec
        → Fits r.bytes r.error_message
        → process_chunk f (link.round c) chunk (link.server c) ≡ some (r, s')
        → process_single_chunk t c chunk mode ≡ ok r
    unfolding process_single_chunk process_media_stream
    process_single_chunk-process_chunk c chunk mode r s' timely fits back done =
        let (s₀, opened, is_open) =
          link.opens c (vkr.Pool.Client.normalize_memory_mode mode) chunk timely in
        let (s₁, sent, is_sent) = link.sends c chunk s₀ timely fits is_open in
        let (s₂, closed, is_closed) = link.closes c chunk s₁ timely is_sent in
        rw (opened, sent, closed)
          (link.receives c chunk s₂ r [] timely back is_closed (rw done refl))

    -- A chunk that the processor serves, whatever handler of the gateway sends it.
    pub chunk_answer :
        (c : ProcessorClient) (chunk : MediaChunk F32) (mode : Text) (wd ht : ℕ)
        → chunk.width ≡ pos wd
        → chunk.height ≡ pos ht
        → wd < 2 ^ 31
        → ht < 2 ^ 31
        → Server.is_supported chunk.type ≡ true
        → length chunk.bytes ≡ wd * ht * 3
        → Completes timeout (link.takes c chunk)
        → Fits chunk.bytes chunk.codec
        → length (link.round c).kernel ≡ 31
        → (r : ProcessedChunk) × (process_single_chunk t c chunk mode ≡ ok r)
          × (r.success ≡ true)
          × (r.error_message ≡ [])
          × IsFiltered f
              (settings f chunk.params).0
              (settings f chunk.params).1
              (settings f chunk.params).2
              chunk.bytes
              wd
              ht
              r.bytes
    chunk_answer c chunk mode wd ht ew eh w_lt h_lt supported exact timely fits len =
        let ((r, s'), done, p) =
          process_chunk-Succeeds f (link.round c) chunk (link.server c) wd ht ew eh w_lt h_lt
            supported exact (omega (arith, fits)) len in
        let same = p.no_error in
        (
          r,
          process_single_chunk-process_chunk c chunk mode r s' timely fits
              (rw same (omega (arith, fits, exact, p.frame.0))) done,
          p.success,
          p.no_error,
          p.frame,
        )
