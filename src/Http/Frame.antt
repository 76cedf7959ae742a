-- ===== src/Http/Frame.antt =====
-- gateway/internal/http/handlers.go: one frame over HTTP.
pub mod Laws
use vkr.Prelude.{
  ℕ, ◌-◌, ◌^◌, Bool, true, false, not, Option, none, some, List, [], ◌∷◌, ◌++◌, ◌&&◌, ◌==◌, length,
  if◌then◌else◌,
}
use vkr.Prelude.Int.{ℤ, pos, negsuc, ◌*ℤ◌, int64, int32}
use vkr.Prelude.Text.{Text, str, eq_text}
use vkr.Prelude.Result.{Result, ok, err}
use vkr.Go.Decimal.{format_int}
use vkr.Go.Base64.{encode_std, decode_std}
use vkr.Auth.{User}
use vkr.Media.{MediaType, MediaChunk, ProcessedChunk, ProcessingParams}
use vkr.Pool.{ProcessorClient, ProcessorPool, get}
use vkr.Pool.Client.{process_single_chunk}
use vkr.Metrics.{
  Metrics, increment_requests, increment_errors, increment_processed_frames,
  add_request_payload_bytes, record_latency,
}
use vkr.Storage.{ProcessingRun, save_processing_run}
use vkr.Http.{
  Request, ProcessFrameRequest, ProcessFrameResponse, Response, response, panic, http_error, json,
  frame_json, Env, Handler, Input, World, not_allowed, parse_filter_type, normalize_memory_mode,
}
use vkr.Http.Session.{with_user}

-- `req.Width * req.Height * 3` in Go's int.
unfoldable pub expected_size : ℤ → ℤ → ℤ
expected_size width height = int64 (int64 (width *ℤ height) *ℤ pos 3)

-- `len(data) != expectedSize`
abbrev pub has_size : Text → ℤ → Bool
has_size bytes (pos n) = length bytes == n
has_size bytes (negsuc n) = false

abbrev pub no_processors : Text
no_processors = str "No available processors"

module _ {F32 F64 : Type 0} (env : Env F32 F64) where
  abbrev pub with_metrics : World env → (Metrics → Metrics) → World env
  with_metrics w f = record w { metrics = f w.metrics }

  abbrev failed : World env → Text → Text → ℕ → Response F64 × World env
  failed w error_type message status =
      (http_error message status, with_metrics w (increment_errors error_type))

  unfoldable pub size_mismatch : ℤ → Text → Text
  size_mismatch expected bytes =
      str "Data size mismatch: expected "
      ++ format_int expected
      ++ str ", got "
      ++ format_int (pos (length bytes))

module _ {F32 F64 : Type 0} (env : Env F32 F64) (h : Handler) (input : Input) where
  open env use {db, transport, decode_frame, milliseconds, no_intensity}

  -- The chunk of `HandleProcessFrame`; `UnixNano` is the time itself.
  unfoldable pub frame_chunk : Text → ProcessFrameRequest F32 → MediaChunk F32
  frame_chunk bytes req = record {
    bytes = bytes;
    type = MediaType.image;
    width = int32 req.width;
    height = int32 req.height;
    codec = str "raw";
    sequence_id = pos 1;
    timestamp_ns = pos input.now;
    params = some (record {
      filter = parse_filter_type req.filter;
      blur_radius = req.blur_radius;
      intensity = no_intensity;
    });
  }

  unfoldable pub frame_response : Text → ProcessedChunk → ProcessFrameResponse F64
  frame_response mode result = record {
    frame = encode_std result.bytes;
    success = result.success;
    processing_time_ms = milliseconds result.processing_time_ns;
    memory_mode = mode;
    error = result.error_message;
  }

  unfoldable pub run_of : User → Text → ProcessFrameRequest F32 → ProcessedChunk → ProcessingRun F64
  run_of user mode req result = record {
    id = pos 0;
    user_id = user.id;
    memory_mode = mode;
    filter_name = req.filter;
    width = req.width;
    height = req.height;
    frames_count = pos 1;
    success = result.success;
    processing_time_ms = milliseconds result.processing_time_ns;
    error_message = result.error_message;
    created_at = 0;
  }

  -- What follows an answer of the processor: the run is saved, its error dropped, and it is counted.
  unfoldable pub finish_frame :
      User → Text → ProcessFrameRequest F32 → ProcessedChunk → World env → Response F64 × World env
  finish_frame user mode req result w =
      let store =
        if h.has_store
        then (save_processing_run db (run_of user mode req result) w.store).1
        else w.store in
      (
        json (frame_json (frame_response mode result)),
        record w {
          metrics =
              increment_processed_frames
                (record_latency (str "process_frame") (input.finished - input.now) w.metrics);
          store = store;
        },
      )

  unfoldable pub run_frame :
      User → Text → ProcessFrameRequest F32 → Text → World env → Response F64 × World env
  run_frame user bytes req mode w = elim (get w.pool) [
    | none ↦ (panic, w)
    | some (err e, pool) ↦
        failed env (record w { pool = pool }) (str "pool_error") no_processors 503
    | some (ok client, pool) ↦
        elim (process_single_chunk transport client (frame_chunk bytes req) mode) [
          | err e ↦
              failed env (record w { pool = pool }) (str "processing_error")
                (str "Processing error: " ++ e) 500
          | ok result ↦ finish_frame user mode req result (record w { pool = pool })
        ]
  ]

  unfoldable pub check_frame : User → ProcessFrameRequest F32 → World env → Response F64 × World env
  check_frame user req w = elim (decode_std req.frame) [
    | none ↦ failed env w (str "decode_error") (str "Invalid base64 data") 400
    | some bytes ↦
        let expected = expected_size req.width req.height in
        if has_size bytes expected
        then run_frame user bytes req (normalize_memory_mode req.memory_mode) (
            with_metrics env w
              (add_request_payload_bytes (str "process_frame") (pos (length bytes))))
        else failed env w (str "size_mismatch") (size_mismatch env expected bytes) 400
  ]

  unfoldable pub handle_process_frame : Request → World env → Response F64 × World env
  handle_process_frame r w =
      if not (eq_text r.method (str "POST"))
      then (http_error not_allowed 405, w)
      else with_user env h input r w λ user.
        let counted = with_metrics env w (increment_requests (str "process_frame")) in
        elim (decode_frame r.body) [
          | none ↦ failed env counted (str "invalid_request") (str "Invalid request body") 400
          | some req ↦ check_frame user req counted
        ]
