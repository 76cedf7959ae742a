-- ===== src/Http/Frame/Laws.antt =====
-- What `HandleProcessFrame` guarantees.
use vkr.Prelude.{
  ℕ, ◌≡◌, ◌≢◌, refl, ◌⊎◌, inl, inr, true, Option, some, arith, length, if◌then◌else◌, Option-cases,
}
use vkr.Prelude.Int.{pos}
use vkr.Prelude.Text.{Text, str, eq_text, eq_text_sound}
use vkr.Prelude.Result.{ok, err, Result-cases}
use vkr.Go.Base64.{decode_std}
use vkr.Auth.{User}
use vkr.Media.{ProcessedChunk}
use vkr.Pool.{ProcessorClient, get}
use vkr.Pool.Choice.{get-ne-none}
use vkr.Pool.Client.{process_single_chunk}
use vkr.Pool.Client
use vkr.Metrics.{increment_requests, add_request_payload_bytes}
use vkr.Storage
use vkr.Storage.{save_processing_run}
use vkr.Http.{
  Request, ProcessFrameRequest, ProcessFrameResponse, Cookie, response, panic, plain, frame_json,
  Env, Handler, Input, World, normalize_memory_mode,
}
use vkr.Http.Session.{user_from_request}
use vkr.Http.Frame.{
  expected_size, has_size, frame_chunk, frame_response, run_of, finish_frame, run_frame,
  check_frame, handle_process_frame,
}

normalize_memory_mode-cases :
    (mode : Text)
    → (normalize_memory_mode mode ≡ str "arena") ⊎ (normalize_memory_mode mode ≡ str "no_arena")
unfolding normalize_memory_mode
normalize_memory_mode-cases mode = ground arith

client_modes :
    (Client.normalize_memory_mode (str "arena") ≡ str "arena")
    × (Client.normalize_memory_mode (str "no_arena") ≡ str "no_arena")
unfolding Client.normalize_memory_mode eq_text str
client_modes = (refl, refl)

storage_modes :
    (Storage.normalize_memory_mode (str "arena") ≡ str "arena")
    × (Storage.normalize_memory_mode (str "no_arena") ≡ str "no_arena")
unfolding Storage.normalize_memory_mode eq_text str
storage_modes = (refl, refl)

-- The memory mode that `HandleProcessFrame` makes of a request is "arena" or "no_arena", and neither
-- the client nor the store changes it: the metadata of the call, the row in the database and the
-- answer name the same mode.
pub normalize_memory_mode_stable :
    (mode : Text)
    → ((normalize_memory_mode mode ≡ str "arena") ⊎ (normalize_memory_mode mode ≡ str "no_arena"))
      × (Client.normalize_memory_mode (normalize_memory_mode mode) ≡ normalize_memory_mode mode)
      × (Storage.normalize_memory_mode (normalize_memory_mode mode) ≡ normalize_memory_mode mode)
normalize_memory_mode_stable mode = elim (normalize_memory_mode-cases mode) [
  | inl arena ↦ (inl arena, rw arena client_modes.0, rw arena storage_modes.0)
  | inr heap ↦ (inr heap, rw heap client_modes.1, rw heap storage_modes.1)
]

module _ {F32 F64 : Type 0} (env : Env F32 F64) (h : Handler) (input : Input) where
  -- `HandleProcessFrame` never panics, whatever the request and the pool.
  pub handle_process_frame-ne-panic :
      (r : Request) (w : World env) → (handle_process_frame env h input r w).0 ≢ panic
  unfolding handle_process_frame check_frame run_frame finish_frame
  handle_process_frame-ne-panic r w = ground (arith, get-ne-none w.pool)

  -- What must have happened for an answer with a frame.
  pub record IsProcessed (r : Request) (w w' : World env) (out : ProcessFrameResponse F64)
      : Type 0 where
    pub user : User
    pub req : ProcessFrameRequest F32
    pub bytes : Text
    pub client : ProcessorClient
    pub result : ProcessedChunk
    pub known : user_from_request env h input r ≡ ok user
    pub posted : r.method ≡ str "POST"
    pub decoded : env.decode_frame r.body ≡ some req
    pub unpacked : decode_std req.frame ≡ some bytes
    pub sized : has_size bytes (expected_size req.width req.height) ≡ true
    pub chosen : get w.pool ≡ some (ok client, w'.pool)
    pub processed :
        process_single_chunk env.transport client
          (frame_chunk env h input bytes req)
          (normalize_memory_mode req.memory_mode)
        ≡ ok result
    pub answered : out ≡ frame_response env h input (normalize_memory_mode req.memory_mode) result
    pub stored : w'.store ≡ (
        if h.has_store
        then (save_processing_run env.db
            (run_of env h input user (normalize_memory_mode req.memory_mode) req result)
            w.store).1
        else w.store)

  run_frame-eq-200 :
      (user : User) (bytes : Text) (req : ProcessFrameRequest F32) (mode : Text) (w w' : World env)
      (c : Option Cookie) (out : ProcessFrameResponse F64)
      → run_frame env h input user bytes req mode w ≡ (response 200 c (frame_json out), w')
      → (client : ProcessorClient) × (result : ProcessedChunk) × (get w.pool
          ≡ some (ok client, w'.pool))
        × (process_single_chunk env.transport client (frame_chunk env h input bytes req) mode
            ≡ ok result)
        × (out ≡ frame_response env h input mode result)
        × (w'.store ≡ (
            if h.has_store
            then (save_processing_run env.db (run_of env h input user mode req result) w.store).1
            else w.store))
  unfolding run_frame finish_frame
  run_frame-eq-200 user bytes req mode w w' c out e = elim (Option-cases (get w.pool)) [
    | inl stuck ↦ absurd (get-ne-none w.pool stuck)
    | inr ((ok client, pool), got) ↦
        elim (Result-cases
          (process_single_chunk env.transport client (frame_chunk env h input bytes req) mode)) [
            | inl (result, done) ↦ (client, result, ground arith, done, ground arith, ground arith)
            | inr (msg, broken) ↦ absurd (ground arith)
          ]
    | inr ((err msg, pool), got) ↦ absurd (ground arith)
  ]

  -- A frame in the answer of `HandleProcessFrame` is the processor's result for the request's own
  -- bytes: the caller is a user, the data are Base64 of as many bytes as the sizes say, they went to
  -- the client that the pool chose, under the normalised mode, and the run was written to the store
  -- for that user, if there is one.
  pub handle_process_frame-IsProcessed :
      (r : Request) (w w' : World env) (c : Option Cookie) (out : ProcessFrameResponse F64)
      → handle_process_frame env h input r w ≡ (response 200 c (frame_json out), w')
      → IsProcessed r w w' out
  unfolding handle_process_frame check_frame
  handle_process_frame-IsProcessed r w w' c out e =
      let posted : eq_text r.method (str "POST") ≡ true = ground arith in
      elim (Result-cases (user_from_request env h input r)) [
        | inr (msg, unknown) ↦ absurd (ground arith)
        | inl (user, known) ↦ elim (Option-cases (env.decode_frame r.body)) [
          | inl bad ↦ absurd (ground arith)
          | inr (req, decoded) ↦ elim (Option-cases (decode_std req.frame)) [
            | inl broken ↦ absurd (ground arith)
            | inr (bytes, unpacked) ↦
                let sized : has_size bytes (expected_size req.width req.height) ≡ true =
                  ground arith in
                let (client, result, chosen, processed, answered, stored) =
                  run_frame-eq-200 user bytes req (normalize_memory_mode req.memory_mode)
                    (record w {
                      metrics =
                          add_request_payload_bytes (str "process_frame") (pos (length bytes))
                            (increment_requests (str "process_frame") w.metrics);
                    })
                    w' c out (ground arith) in
                record {
                  user = user;
                  req = req;
                  bytes = bytes;
                  client = client;
                  result = result;
                  known = known;
                  posted = eq_text_sound _ _ posted;
                  decoded = decoded;
                  unpacked = unpacked;
                  sized = sized;
                  chosen = chosen;
                  processed = processed;
                  answered = answered;
                  stored = stored;
                }
          ]
        ]
      ]

  -- An answer that is an error text leaves the store as it was: only processed frames are recorded.
  pub handle_process_frame-plain :
      (r : Request) (w w' : World env) (status : ℕ) (c : Option Cookie) (message : Text)
      → handle_process_frame env h input r w ≡ (response status c (plain message), w')
      → w'.store ≡ w.store
  unfolding handle_process_frame check_frame run_frame finish_frame
  handle_process_frame-plain r w w' status c message e = ground arith
