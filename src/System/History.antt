-- ===== src/System/History.antt =====
-- From a processed frame to the user's history: `HandleProcessFrame` and `HandleHistory` of
-- gateway/internal/http/handlers.go over the table of gateway/internal/storage/postgres.go.
use vkr.Prelude.{ℕ, ◌*◌, ◌^◌, ◌<◌, ◌≡◌, refl, ap, ◌∙◌, true, some, List, ◌∷◌, arith, length}
use vkr.Prelude.Int.{pos}
use vkr.Prelude.Text.{Text, str}
use vkr.Prelude.Result.{ok}
use vkr.Go.Base64.{decode_std}
use vkr.Auth.{User}
use vkr.Media.{ProcessedChunk}
use vkr.Pool.{ProcessorClient}
use vkr.Processor.{Floats}
use vkr.Storage.{ProcessingRun, save_processing_run, recent_runs}
use vkr.Storage.Runs.{IsAscii, FitsRow, IsRecording, recent_runs-save_processing_run}
use vkr.Http.{
  Request, ProcessFrameRequest, json, runs_json, Env, Handler, Input, World, normalize_memory_mode,
}
use vkr.Http.Session.{user_from_request, handle_history}
use vkr.Http.Frame.{run_of, frame_chunk, finish_frame, handle_process_frame}
use vkr.Http.Frame.Laws.{normalize_memory_mode_stable}
use vkr.System.{Completes, IsConnected}
use vkr.System.Frames.{frame_timeout, FrameFits, frame_served}

module _ (f : Floats) where
  open f use {F32}

  -- The row of a frame that was processed for a user.
  pub record IsRun {F64 : Type 0} (user : User) (req : ProcessFrameRequest F32)
      (row : ProcessingRun F64) : Type 0 where
    pub user_id : row.user_id ≡ user.id
    pub filter_name : row.filter_name ≡ req.filter
    pub width : row.width ≡ req.width
    pub height : row.height ≡ req.height
    pub frames_count : row.frames_count ≡ pos 1
    pub success : row.success ≡ true
    pub memory_mode : row.memory_mode ≡ normalize_memory_mode req.memory_mode

  module _ {F64 : Type 0} (env : Env F32 F64) (h : Handler) (input later : Input)
      (link : IsConnected f env.transport frame_timeout) (laws : IsRecording env.db) where
    history_of :
        (r : Request) (w : World env) (user : User) (runs : List (ProcessingRun F64))
        → user_from_request env h later r ≡ ok user
        → h.has_store ≡ true
        → recent_runs env.db user.id (pos 30) w.store ≡ ok runs
        → (handle_history env h later r w).0 ≡ json (runs_json runs)
    unfolding handle_history
    history_of r w user runs known stored found = ground (arith, known, stored, found)

    finished-store :
        (user : User) (mode : Text) (req : ProcessFrameRequest F32) (result : ProcessedChunk)
        (w : World env)
        → h.has_store ≡ true
        → (finish_frame env h input user mode req result w).1.store
          ≡ (save_processing_run env.db (run_of env h input user mode req result) w.store).1
    unfolding finish_frame
    finished-store user mode req result w stored = ground (arith, stored)

    -- A frame that a user POSTs, as `HandleProcessFrame` answers it with a picture, is the first run of
    -- the user's history: with storage, and the database recording runs, the next GET of the history by
    -- the same user, whose token is still accepted, answers 200 with a list that starts with a successful
    -- run of the user, of one frame, with the filter, the width and the height that the request named and
    -- its memory mode, normalized. The frame's conditions are those of the picture: the size is right and below
    -- the bounds, the pool has a client, every client is connected to a processor, and its call completes
    -- within the 30 seconds of the handler. Those of the row are the table's: the user is in the database, which
    -- answers, with a clock that is past its rows, and the name of the filter is ASCII without NUL.
    pub handle_history-handle_process_frame :
        (r r' : Request) (w : World env) (user : User) (req : ProcessFrameRequest F32)
        (bytes : Text) (wd ht : ℕ)
        → user_from_request env h input r ≡ ok user
        → r.method ≡ str "POST"
        → env.decode_frame r.body ≡ some req
        → decode_std req.frame ≡ some bytes
        → req.width ≡ pos wd
        → req.height ≡ pos ht
        → wd < 2 ^ 31
        → ht < 2 ^ 31
        → length bytes ≡ wd * ht * 3
        → FrameFits bytes
        → 0 < length w.pool.clients
        → ((c : ProcessorClient)
            → Completes frame_timeout (link.takes c (frame_chunk env h input bytes req)))
        → ((c : ProcessorClient) → length (link.round c).kernel ≡ 31)
        → h.has_store ≡ true
        → laws.HasUser user.id w.store
        → laws.Answers w.store
        → IsAscii req.filter
        → user_from_request env h later r' ≡ ok user
        → (row : ProcessingRun F64) × (rest : List (ProcessingRun F64)) × ((handle_history env h
              later r'
              (handle_process_frame env h input r w).1).0
            ≡ json (runs_json (row ∷ rest)))
          × IsRun user req row
    unfolding run_of
    handle_history-handle_process_frame r r' w user req bytes wd ht known posted decoded unpacked ew
          eh w_lt h_lt exact fits full timely len stored there answers ascii known' =
        let (result, pool, metrics, taken, success, no_error, pixels) =
          frame_served f env h input link r w user req bytes wd ht known posted decoded unpacked ew
            eh w_lt h_lt exact fits full timely len in
        let mode = normalize_memory_mode req.memory_mode in
        let run = run_of env h input user mode req result in
        let row_fits : FitsRow run = record {
          filter_name = ascii;
          error_message = rw no_error tt;
          width = rw ew (w_lt, omega arith);
          height = rw eh (h_lt, omega arith);
          frames_count = (omega arith, omega arith);
        } in
        let (row, rest, found, is_row) =
          recent_runs-save_processing_run env.db laws run w.store row_fits there answers in
        let store =
          ap (λ done. done.1.store) taken ∙ finished-store user mode req result _ stored in
        (
          row,
          rest,
          history_of r' _ user (row ∷ rest) known' stored
              (ap (recent_runs env.db user.id (pos 30)) store ∙ found),
          rw is_row (record {
            user_id = refl;
            filter_name = refl;
            width = refl;
            height = refl;
            frames_count = refl;
            success = success;
            memory_mode = (normalize_memory_mode_stable req.memory_mode).2;
          }),
        )
