-- ===== src/Http/Socket.antt =====
-- gateway/internal/http/handlers.go: `HandleWebSocket`. The upgrade of the connection, its messages
-- and the errors of its writes are given.
use vkr.Prelude.{ℕ, Bool, true, false, ◌&&◌, none, some, List, [], ◌∷◌, length, if◌then◌else◌}
use vkr.Prelude.Int.{pos, int32}
use vkr.Prelude.Text.{Text, str}
use vkr.Prelude.Result.{ok, err}
use vkr.Go.Base64.{encode_std, decode_std}
use vkr.Media.{MediaType, MediaChunk, ProcessedChunk}
use vkr.Pool.{ProcessorClient, get}
use vkr.Pool.Client.{process_single_chunk}
use vkr.Metrics.{
  increment_requests, increment_errors, increment_processed_frames, add_request_payload_bytes,
}
use vkr.Http.{
  Request, ProcessFrameRequest, ProcessFrameResponse, Response, panic, http_error, Env, Handler,
  Input, World, parse_filter_type, normalize_memory_mode,
}
use vkr.Http.Session.{user_from_request}
use vkr.Http.Frame.{with_metrics, no_processors}

-- One turn of the loop: the message, the time at which its chunk is made, and whether writing the
-- answer of a processed frame fails.
pub record Message : Type 0 where
  pub payload : Text
  pub now : ℕ
  pub write_fails : Bool

-- What the connection is sent.
pub data Sent (F64 : Type 0) : Type 0 where
  error_json : Text → Sent F64
  frame_json : ProcessFrameResponse F64 → Sent F64

-- An HTTP answer of the handler, the HTTP error that `Upgrade` itself answered with where it failed, or a
-- WebSocket connection, with all it was sent.
pub data Reply (F64 : Type 0) : Type 0 where
  answered : Response F64 → Reply F64
  refused_upgrade : Reply F64
  upgraded : List (Sent F64) → Reply F64

module _ {F32 F64 : Type 0} (env : Env F32 F64) (h : Handler) (input : Input) where
  open env use {transport, decode_frame, milliseconds, no_intensity}

  unfoldable pub socket_chunk : ℕ → Text → ProcessFrameRequest F32 → MediaChunk F32
  socket_chunk now bytes req = record {
    bytes = bytes;
    type = MediaType.video;
    width = int32 req.width;
    height = int32 req.height;
    codec = str "raw";
    sequence_id = pos 0;
    timestamp_ns = pos now;
    params = some (record {
      filter = parse_filter_type req.filter;
      blur_radius = req.blur_radius;
      intensity = no_intensity;
    });
  }

  -- The field `error` stays empty.
  unfoldable pub socket_response : Text → ProcessedChunk → ProcessFrameResponse F64
  socket_response mode result = record {
    frame = encode_std result.bytes;
    success = result.success;
    processing_time_ms = milliseconds result.processing_time_ns;
    memory_mode = mode;
    error = [];
  }

  -- What a message is answered, and what becomes of the metrics. The second part says whether a
  -- frame was processed.
  unfoldable pub answer_message :
      ProcessorClient → Message → World env → (Sent F64 × Bool) × World env
  answer_message client m w = elim (decode_frame m.payload) [
    | none ↦ ((error_json (str "Invalid JSON"), false), w)
    | some req ↦ elim (decode_std req.frame) [
      | none ↦ ((error_json (str "Invalid base64"), false), w)
      | some bytes ↦
          let mode = normalize_memory_mode req.memory_mode in
          let counted =
            with_metrics env w (add_request_payload_bytes (str "websocket") (pos (length bytes))) in
          elim (process_single_chunk transport client (socket_chunk m.now bytes req) mode) [
            | err e ↦ ((error_json e, false), counted)
            | ok result ↦ (
              (frame_json (socket_response mode result), true),
              with_metrics env counted increment_processed_frames,
            )
          ]
    ]
  ]

  -- The loop: it ends when no message can be read, or when the answer of a frame cannot be written.
  unfoldable pub serve_messages :
      ProcessorClient → List Message → World env → List (Sent F64) × World env
  serve_messages client [] w = ([], w)
  serve_messages client (m ∷ ms) w =
      let ((sent, processed), w') = answer_message client m w in
      let (later, final) = serve_messages client ms w' in
      if processed && m.write_fails then ([], w') else (sent ∷ later, final)

  unfoldable pub handle_web_socket :
      Bool → List Message → Request → World env → Reply F64 × World env
  handle_web_socket upgrades messages r w =
      let counted = with_metrics env w (increment_requests (str "websocket")) in
      elim (user_from_request env h input r) [
        | err e ↦ (answered (http_error e 401), counted)
        | ok user ↦ if upgrades then serve counted else (
          refused_upgrade,
          with_metrics env counted (increment_errors (str "websocket_upgrade_error")),
        )
      ]
    where
      serve : World env → Reply F64 × World env
      serve w = elim (get w.pool) [
        | none ↦ (answered panic, w)
        | some (err e, pool) ↦ (upgraded (error_json no_processors ∷ []), record w { pool = pool })
        | some (ok client, pool) ↦
            let (sent, final) = serve_messages client messages (record w { pool = pool }) in
            (upgraded sent, final)
      ]
