-- ===== src/Gateway/App/Moves/Frames.antt =====
-- The moves of `HandleProcessFrame` in gateway/internal/http/handlers.go.
use vkr.Prelude.{refl, ◌-◌, length, arith, inl, inr, Bool-cases, Option-cases}
use vkr.Prelude.Int.{pos}
use vkr.Prelude.Text.{Text, str, eq_text}
use vkr.Prelude.Result.{ok, err, Result-cases}
use vkr.Auth.{User}
use vkr.Go.Base64.{decode_std}
use vkr.Media.{ProcessedChunk}
use vkr.Pool.{get}
use vkr.Pool.Choice.{get-ne-none}
use vkr.Pool.Client.{process_single_chunk}
use vkr.Metrics.{Update}
use vkr.Storage.{ProcessingRun, save_processing_run}
use vkr.Storage.Runs.{stored-IsStorable}
use vkr.Http.{Request, ProcessFrameRequest, Env, Handler, Input, World, normalize_memory_mode}
use vkr.Http.Session.{user_from_request, with_user}
use vkr.Http.Frame.{
  expected_size, has_size, frame_chunk, run_of, check_frame, run_frame, finish_frame,
  handle_process_frame,
}
use vkr.Gateway.App.Moves.{Moves, one, after, same, ends, counted, added_payload, got, add_run}

module _ {F32 F64 : Type 0} (env : Env F32 F64) (h : Handler) (input : Input) where
  saved_run-Moves :
      (run : ProcessingRun F64) (w : World env)
      → Moves env w (record w { store = (save_processing_run env.db run w.store).1 })
  unfolding save_processing_run
  saved_run-Moves run w = one env (add_run _ (stored-IsStorable run) refl)

  finish_frame-Moves :
      (user : User) (mode : Text) (req : ProcessFrameRequest F32) (result : ProcessedChunk)
      (w : World env)
      → Moves env w (finish_frame env h input user mode req result w).1
  unfolding finish_frame
  finish_frame-Moves user mode req result w =
      let latency = Update.request_latency (str "process_frame") (input.finished - input.now) in
      let calls =
        after env (counted env {v = w} latency tt) (counted env Update.frames_processed tt) in
      elim (Bool-cases h.has_store) [
        | inr none_here ↦ ends env calls (ground (arith, none_here))
        | inl stored ↦
            ends env (after env calls (saved_run-Moves (run_of env h input user mode req result) _))
              (ground (arith, stored))
      ]

  run_frame-Moves :
      (user : User) (bytes : Text) (req : ProcessFrameRequest F32) (mode : Text) (w : World env)
      → Moves env w (run_frame env h input user bytes req mode w).1
  unfolding run_frame
  run_frame-Moves user bytes req mode w = elim (Option-cases (get w.pool)) [
    | inl stuck ↦ absurd (get-ne-none w.pool stuck)
    | inr ((err msg, pool), took) ↦
        ends env
          (after env (got env took) (counted env (Update.errors_total (str "pool_error")) tt))
          (ground (arith, took))
    | inr ((ok client, pool), took) ↦
        elim (Result-cases
          (process_single_chunk env.transport client (frame_chunk env h input bytes req) mode)) [
            | inr (msg, failed) ↦
                ends env
                  (after env (got env took)
                    (counted env (Update.errors_total (str "processing_error")) tt))
                  (ground (arith, took, failed))
            | inl (result, answered) ↦
                ends env
                  (after env (got env took)
                    (finish_frame-Moves user mode req result (record w { pool = pool })))
                  (ground (arith, took, answered))
          ]
  ]

  check_frame-Moves :
      (user : User) (req : ProcessFrameRequest F32) (w : World env)
      → Moves env w (check_frame env h input user req w).1
  unfolding check_frame
  check_frame-Moves user req w = elim (Option-cases (decode_std req.frame)) [
    | inl broken ↦
        ends env (counted env {v = w} (Update.errors_total (str "decode_error")) tt)
          (ground (arith, broken))
    | inr (bytes, unpacked) ↦
        elim (Bool-cases (has_size bytes (expected_size req.width req.height))) [
          | inr wrong ↦
              ends env (counted env {v = w} (Update.errors_total (str "size_mismatch")) tt)
                (ground (arith, unpacked, wrong))
          | inl right ↦
              ends env
                (after env (added_payload env w (str "process_frame") (pos (length bytes)))
                  (run_frame-Moves user bytes req (normalize_memory_mode req.memory_mode) _))
                (rw (check_frame, unpacked, right) refl)
        ]
  ]

  pub frame-Moves :
      (r : Request) (w : World env) → Moves env w (handle_process_frame env h input r w).1
  unfolding handle_process_frame
  frame-Moves r w =
      let requested = counted env {v = w} (Update.requests_total (str "process_frame")) tt in
      elim (Bool-cases (eq_text r.method (str "POST"))) [
        | inr other ↦ same env (rw other refl)
        | inl post ↦ elim (Result-cases (user_from_request env h input r)) [
          | inr (msg, unknown) ↦ same env (rw (post, with_user, unknown) refl)
          | inl (user, known) ↦ elim (Option-cases (env.decode_frame r.body)) [
            | inl bad ↦
                ends env
                  (after env requested
                    (counted env (Update.errors_total (str "invalid_request")) tt))
                  (rw (post, with_user, known, bad) refl)
            | inr (req, decoded) ↦
                ends env (after env requested (check_frame-Moves user req _))
                  (rw (post, with_user, known, decoded) refl)
          ]
        ]
      ]
