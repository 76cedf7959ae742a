-- ===== src/Gateway/App/Moves/Streams.antt =====
-- The moves of `HandleProcessStream` and `HandleWebSocket` in gateway/internal/http/handlers.go.
use vkr.Prelude.{
  ℕ, ◌≡◌, refl, List, ◌∷◌, [], Bool, ◌&&◌, arith, inl, inr, some, none, Bool-cases, Option-cases,
  length,
}
use vkr.Prelude.Int.{pos}
use vkr.Prelude.Text.{Text, str, eq_text}
use vkr.Prelude.Result.{ok, err, Result-cases}
use vkr.Go.Base64.{decode_std}
use vkr.Media.{MediaChunk}
use vkr.Pool.{ProcessorClient, get}
use vkr.Pool.Choice.{get-ne-none}
use vkr.Pool.Client.{process_single_chunk}
use vkr.Metrics.{Update}
use vkr.Http.{Request, Env, Handler, Input, World, normalize_memory_mode, query_get}
use vkr.Http.Session.{user_from_request}
use vkr.Http.Frame.{expected_size}
use vkr.Http.Stream.{
  Selected, result, results_closed, error, frames, panics, endless, Reading, read_frames,
  stream_width, stream_height, chunks_from, drain, count_payload, run_stream, handle_process_stream,
}
use vkr.Http.Socket.{Message, socket_chunk, answer_message, serve_messages, handle_web_socket}
use vkr.Gateway.App.Moves.{Moves, still, after, same, ends, counted, added_payload, got}

module _ {F32 F64 : Type 0} (env : Env F32 F64) (h : Handler) (input : Input)
    (parse_float : Text → F32) (is_zero : F32 → Bool) (default_radius : F32) where
  payload-Moves :
      (fs : List Text) (w : World env)
      → Moves env w (record w {
        metrics = count_payload env h input parse_float is_zero default_radius fs w.metrics;
      })
  unfolding count_payload
  payload-Moves [] w = still
  payload-Moves (bytes ∷ fs) w =
      after env (added_payload env w (str "process_stream") (pos (length bytes)))
        (payload-Moves fs _)

  drain-Moves :
      (chosen : List Selected) (w : World env)
      → Moves env w (record w {
        metrics = (drain env h input parse_float is_zero default_radius chosen w.metrics).1;
      })
  unfolding drain
  drain-Moves [] w = still
  drain-Moves (result c ∷ more) w =
      after env (counted env {v = w} Update.frames_processed tt) (drain-Moves more _)
  drain-Moves (results_closed ∷ more) w = still
  drain-Moves (error none ∷ more) w = still
  drain-Moves (error (some e) ∷ more) w =
      counted env {v = w} (Update.errors_total (str "stream_error")) tt

  module _ (choose : ProcessorClient → Text → List (MediaChunk F32) → List Selected) (clock : ℕ → ℕ)
      (r : Request) where
    run_stream-Moves :
        (c : ProcessorClient) (w : World env)
        → Moves env w
            (run_stream env h input parse_float is_zero default_radius choose clock r c w).1
    unfolding run_stream
    run_stream-Moves c w =
        read
          (read_frames
            (expected_size (stream_width env h input parse_float is_zero default_radius r)
              (stream_height env h input parse_float is_zero default_radius r))
            r.body)
          refl
      where
        read :
            (reading : Reading)
            → read_frames
                (expected_size
                  (stream_width env h input parse_float is_zero default_radius r)
                  (stream_height env h input parse_float is_zero default_radius r))
                r.body
              ≡ reading
            → Moves env w
                (run_stream env h input parse_float is_zero default_radius choose clock r c w).1
        read panics e = same env (rw (run_stream, e) refl)
        read endless e = same env (rw (run_stream, e) refl)
        read (frames fs) e =
            ends env
              (after env (payload-Moves fs w) (
                drain-Moves
                  (choose c (normalize_memory_mode (query_get (str "memory_mode") r.query))
                    (chunks_from env h input parse_float is_zero default_radius r clock 1 fs))
                  _))
              (rw (run_stream, e) refl)

    pub stream-Moves :
        (w : World env)
        → Moves env w
            (handle_process_stream env h input parse_float is_zero default_radius choose clock r
              w).1
    unfolding handle_process_stream
    stream-Moves w =
        let requested = counted env {v = w} (Update.requests_total (str "process_stream")) tt in
        elim (Bool-cases (eq_text r.method (str "POST"))) [
          | inr other ↦ same env (rw other refl)
          | inl post ↦ elim (Result-cases (user_from_request env h input r)) [
            | inr (msg, unknown) ↦ same env (rw (post, unknown) refl)
            | inl (user, known) ↦ elim (Option-cases (get w.pool)) [
              | inl stuck ↦ absurd (get-ne-none w.pool stuck)
              | inr ((err msg, pool), took) ↦
                  ends env (after env requested (got env took)) (ground (arith, post, known, took))
              | inr ((ok client, pool), took) ↦
                  ends env
                    (after env (after env requested (got env took)) (run_stream-Moves client _))
                    (ground (arith, post, known, took))
            ]
          ]
        ]

module _ {F32 F64 : Type 0} (env : Env F32 F64) (h : Handler) (input : Input) where
  answer_message-Moves :
      (client : ProcessorClient) (m : Message) (w : World env)
      → Moves env w (answer_message env h input client m w).1
  unfolding answer_message
  answer_message-Moves client m w = elim (Option-cases (env.decode_frame m.payload)) [
    | inl bad ↦ same env (rw (answer_message, bad) refl)
    | inr (req, decoded) ↦ elim (Option-cases (decode_std req.frame)) [
      | inl broken ↦ same env (rw (answer_message, decoded, broken) refl)
      | inr (bytes, unpacked) ↦
          let payload = added_payload env w (str "websocket") (pos (length bytes)) in
          elim (Result-cases (
            process_single_chunk env.transport client (socket_chunk env h input m.now bytes req)
              (normalize_memory_mode req.memory_mode))) [
                | inr (msg, failed) ↦
                    ends env payload (rw (answer_message, decoded, unpacked, failed) refl)
                | inl (r, answered) ↦
                    ends env (after env payload (counted env Update.frames_processed tt))
                      (rw (answer_message, decoded, unpacked, answered) refl)
              ]
    ]
  ]

  serve_messages-Moves :
      (client : ProcessorClient) (ms : List Message) (w : World env)
      → Moves env w (serve_messages env h input client ms w).1
  unfolding serve_messages
  serve_messages-Moves client [] w = still
  serve_messages-Moves client (m ∷ ms) w =
      let answer = answer_message env h input client m w in
      let first = answer_message-Moves client m w in
      elim (Bool-cases ((answer.0).1 && m.write_fails)) [
        | inl broken ↦ ends env first (rw broken refl)
        | inr goes_on ↦
            ends env (after env first (serve_messages-Moves client ms answer.1)) (rw goes_on refl)
      ]

  pub socket-Moves :
      (upgrades : Bool) (ms : List Message) (r : Request) (w : World env)
      → Moves env w (handle_web_socket env h input upgrades ms r w).1
  unfolding handle_web_socket
  socket-Moves upgrades ms r w =
      let requested = counted env {v = w} (Update.requests_total (str "websocket")) tt in
      elim (Result-cases (user_from_request env h input r)) [
        | inr (msg, unknown) ↦ ends env requested (rw (handle_web_socket, unknown) refl)
        | inl (user, known) ↦ elim (Bool-cases upgrades) [
          | inr refused ↦
              ends env
                (after env requested
                  (counted env (Update.errors_total (str "websocket_upgrade_error")) tt))
                (rw (handle_web_socket, known, refused) refl)
          | inl upgraded ↦ elim (Option-cases (get w.pool)) [
            | inl stuck ↦ absurd (get-ne-none w.pool stuck)
            | inr ((err msg, pool), took) ↦
                ends env (after env requested (got env took))
                  (ground (arith, known, upgraded, took))
            | inr ((ok client, pool), took) ↦
                ends env
                  (after env (after env requested (got env took))
                    (serve_messages-Moves client ms _))
                  (ground (arith, known, upgraded, took))
          ]
        ]
      ]
