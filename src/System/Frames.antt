-- ===== src/System/Frames.antt =====
-- One frame over HTTP: `HandleProcessFrame` of gateway/internal/http/handlers.go over processors that
-- are connected to it.
use vkr.Prelude.{ℕ, ◌+◌, ◌*◌, ◌^◌, ◌<◌, ◌≤◌, [], ◌≡◌, refl, ap, ◌∙◌, true, some, arith, length}
use vkr.Prelude.Int.{ℤ, pos, negsuc, int64, ◌*ℤ◌, wrap_of_Fits32}
use vkr.Prelude.Text.{Text, str, eq_text_complete}
use vkr.Prelude.Result.{ok}
use vkr.Go.Base64.{encode_std, decode_std}
use vkr.Auth.{User}
use vkr.Media.{ProcessedChunk}
use vkr.Metrics.{Metrics, increment_requests, add_request_payload_bytes}
use vkr.Pool.{ProcessorClient, ProcessorPool, get}
use vkr.Pool.Choice.{get-choice}
use vkr.Pool.Client.{process_single_chunk}
use vkr.Processor.{Floats}
use vkr.Processor.Server.{
  Server, Round, Turn, Received, settings, process_chunk, process_media_stream,
}
use vkr.Processor.Server
use vkr.Processor.Server.Laws.{has_size-exact}
use vkr.Processor.Server.Pixels.{IsFiltered}
use vkr.Http.{
  Request, ProcessFrameRequest, ProcessFrameResponse, json, frame_json, Env, Handler, Input, World,
  parse_filter_type, normalize_memory_mode,
}
use vkr.Http.Session.{user_from_request, with_user}
use vkr.Http.Frame.{
  expected_size, has_size, frame_chunk, frame_response, check_frame, run_frame, finish_frame,
  handle_process_frame,
}
use vkr.System.{Completes, message_limit, IsConnected, chunk_answer}

-- `30*time.Second`
abbrev pub frame_timeout : ℕ
frame_timeout = 30 * 10 ^ 9

-- The chunk of a frame, whose codec is "raw", is within the message limit.
abbrev pub FrameFits : Text → Type 0
FrameFits bytes = length bytes + 3 + 128 ≤ message_limit

same_size : (bytes : Text) (n : ℤ) → has_size bytes n ≡ Server.has_size bytes n
same_size bytes (pos n) = refl
same_size bytes (negsuc n) = refl

module _ (f : Floats) where
  open f use {F32}

  module _ {F64 : Type 0} (env : Env F32 F64) (h : Handler) (input : Input)
      (link : IsConnected f env.transport frame_timeout) where
    -- A chunk of the gateway is one that the processor serves.
    frame_answer :
        (bytes : Text) (req : ProcessFrameRequest F32) (c : ProcessorClient) (mode : Text)
        (wd ht : ℕ)
        → req.width ≡ pos wd
        → req.height ≡ pos ht
        → wd < 2 ^ 31
        → ht < 2 ^ 31
        → length bytes ≡ wd * ht * 3
        → Completes frame_timeout (link.takes c (frame_chunk env h input bytes req))
        → FrameFits bytes
        → length (link.round c).kernel ≡ 31
        → (r : ProcessedChunk) × (process_single_chunk env.transport c
              (frame_chunk env h input bytes req)
              mode
            ≡ ok r)
          × (r.success ≡ true)
          × (r.error_message ≡ [])
          × IsFiltered f
              (parse_filter_type req.filter)
              (settings f (frame_chunk env h input bytes req).params).1
              (settings f (frame_chunk env h input bytes req).params).2
              bytes
              wd
              ht
              r.bytes
    unfolding frame_chunk settings str
    frame_answer bytes req c mode wd ht ew eh w_lt h_lt exact timely fits len =
        chunk_answer f env.transport frame_timeout link c (frame_chunk env h input bytes req) mode
          wd ht (rw ew (wrap_of_Fits32 (pos wd) (w_lt, omega arith)))
          (rw eh (wrap_of_Fits32 (pos ht) (h_lt, omega arith))) w_lt h_lt refl exact timely fits len

    frame_sized :
        (bytes : Text) (req : ProcessFrameRequest F32) (wd ht : ℕ)
        → req.width ≡ pos wd
        → req.height ≡ pos ht
        → wd < 2 ^ 31
        → ht < 2 ^ 31
        → length bytes ≡ wd * ht * 3
        → length bytes < 2 ^ 63
        → has_size bytes (expected_size req.width req.height) ≡ true
    unfolding expected_size
    frame_sized bytes req wd ht ew eh w_lt h_lt exact small =
        rw (ew, eh)
          (same_size bytes (int64 (int64 (pos wd *ℤ pos ht) *ℤ pos 3))
            ∙ has_size-exact bytes wd ht w_lt h_lt small
            ∙ ground (arith, exact))

    -- The branches that such a request takes.
    frame_taken :
        (r : Request) (w : World env) (user : User) (req : ProcessFrameRequest F32) (bytes : Text)
        (c : ProcessorClient) (pool : ProcessorPool) (result : ProcessedChunk)
        → user_from_request env h input r ≡ ok user
        → r.method ≡ str "POST"
        → env.decode_frame r.body ≡ some req
        → decode_std req.frame ≡ some bytes
        → has_size bytes (expected_size req.width req.height) ≡ true
        → get w.pool ≡ some (ok c, pool)
        → process_single_chunk env.transport c
            (frame_chunk env h input bytes req)
            (normalize_memory_mode req.memory_mode)
          ≡ ok result
        → (metrics : Metrics) × (handle_process_frame env h input r w
            ≡ finish_frame env h input user
                (normalize_memory_mode req.memory_mode)
                req
                result
                (record w { pool = pool; metrics = metrics }))
    unfolding handle_process_frame check_frame run_frame
    frame_taken r w user req bytes c pool result known posted decoded unpacked sized got answered =
        (
          add_request_payload_bytes (str "process_frame") (pos (length bytes))
              (increment_requests (str "process_frame") w.metrics),
          rw
              (
                eq_text_complete r.method (str "POST") posted,
                with_user,
                known,
                decoded,
                check_frame,
                unpacked,
                sized,
                run_frame,
                got,
                answered,
              )
              refl,
        )

    -- The same, for a request that a processor serves.
    pub frame_served :
        (r : Request) (w : World env) (user : User) (req : ProcessFrameRequest F32) (bytes : Text)
        (wd ht : ℕ)
        → user_from_request env h input r ≡ ok user
        → r.method ≡ str "POST"
        → env.decode_frame r.body ≡ some req
        → decode_std req.frame ≡ some bytes
        → req.width ≡ pos wd
        → req.height ≡ pos ht
        → wd < 2 ^ 31
        → ht < 2 ^ 31
        → length bytes ≡ wd * ht * 3
        → FrameFits bytes
        → 0 < length w.pool.clients
        → ((c : ProcessorClient)
            → Completes frame_timeout (link.takes c (frame_chunk env h input bytes req)))
        → ((c : ProcessorClient) → length (link.round c).kernel ≡ 31)
        → (result : ProcessedChunk) × (pool : ProcessorPool) × (metrics : Metrics)
          × (handle_process_frame env h input r w
              ≡ finish_frame env h input user
                  (normalize_memory_mode req.memory_mode)
                  req
                  result
                  (record w { pool = pool; metrics = metrics }))
          × (result.success ≡ true)
          × (result.error_message ≡ [])
          × IsFiltered f
              (parse_filter_type req.filter)
              (settings f (frame_chunk env h input bytes req).params).1
              (settings f (frame_chunk env h input bytes req).params).2
              bytes
              wd
              ht
              result.bytes
    frame_served r w user req bytes wd ht known posted decoded unpacked ew eh w_lt h_lt exact fits
          full timely len =
        let (c, at, got) = get-choice w.pool full in
        let (result, answered, success, no_error, pixels) =
          frame_answer bytes req c (normalize_memory_mode req.memory_mode) wd ht ew eh w_lt h_lt
            exact (timely c) fits (len c) in
        let (metrics, taken) =
          frame_taken r w user req bytes c _ result known posted decoded unpacked
            (frame_sized bytes req wd ht ew eh w_lt h_lt exact (omega (arith, fits))) got
            answered in
        (result, _, metrics, taken, success, no_error, pixels)

    -- What a user gets for a POST of a frame whose data are Base64 of as many bytes as its width and
    -- height say, if the pool has a client, every client is connected to a processor and its call for this
    -- frame completes, within the 30 seconds of the handler and without a failure of the network: the
    -- answer is 200 and a success, and the frame in it is the Base64 text of a picture of the same size,
    -- with the pixels of the filter that the request names. The width and height are below 2 ^ 31,
    -- the data within the 100 MiB that a message of gRPC may have, less 131 bytes for its other fields,
    -- and each processor's pool gives a kernel of 31 elements.
    pub handle_process_frame-IsFiltered :
        (r : Request) (w : World env) (user : User) (req : ProcessFrameRequest F32) (bytes : Text)
        (wd ht : ℕ)
        → user_from_request env h input r ≡ ok user
        → r.method ≡ str "POST"
        → env.decode_frame r.body ≡ some req
        → decode_std req.frame ≡ some bytes
        → req.width ≡ pos wd
        → req.height ≡ pos ht
        → wd < 2 ^ 31
        → ht < 2 ^ 31
        → length bytes ≡ wd * ht * 3
        → FrameFits bytes
        → 0 < length w.pool.clients
        → ((c : ProcessorClient)
            → Completes frame_timeout (link.takes c (frame_chunk env h input bytes req)))
        → ((c : ProcessorClient) → length (link.round c).kernel ≡ 31)
        → (out : ProcessFrameResponse F64) × (picture : Text) × ((handle_process_frame env h input r
              w).0
            ≡ json (frame_json out))
          × (out.success ≡ true)
          × (out.frame ≡ encode_std picture)
          × IsFiltered f
              (parse_filter_type req.filter)
              (settings f (frame_chunk env h input bytes req).params).1
              (settings f (frame_chunk env h input bytes req).params).2
              bytes
              wd
              ht
              picture
    unfolding frame_response finish_frame
    handle_process_frame-IsFiltered r w user req bytes wd ht known posted decoded unpacked ew eh
          w_lt h_lt exact fits full timely len =
        let (result, pool, metrics, taken, success, no_error, pixels) =
          frame_served r w user req bytes wd ht known posted decoded unpacked ew eh w_lt h_lt exact
            fits full timely len in
        (
          frame_response env h input (normalize_memory_mode req.memory_mode) result,
          result.bytes,
          ap (λ done. done.0) taken,
          success,
          refl,
          pixels,
        )
