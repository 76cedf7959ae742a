-- ===== src/Gateway/App/Answered.antt =====
-- What an answer of the gateway is, and the answers to streamed requests.
use vkr.Prelude.{
  zero, suc, ◌≡◌, ◌≢◌, refl, ◌⊎◌, inl, inr, true, false, List, [], ◌∷◌, arith, Bool-cases,
  Option-cases,
}
use vkr.Prelude.Int.{ℤ, pos, negsuc, ltb_ℤ}
use vkr.Prelude.Text.{Text, str, eq_text}
use vkr.Prelude.Result.{ok, err, Result-cases}
use vkr.Media.{MediaChunk}
use vkr.Pool.{ProcessorClient, get}
use vkr.Http.{http_error, Response, panic, Env, Handler, World, query_get, normalize_memory_mode}
use vkr.Http.Session.{user_from_request}
use vkr.Metrics.{increment_requests}
use vkr.Http.Frame.{no_processors, expected_size}
use vkr.Pool.Choice.{get-ne-none}
use vkr.Http.Stream.{
  Selected, StreamReply, Reading, has_ended, buffer_size, read_frames, chunks_from, stream_width,
  stream_height, run_stream, handle_process_stream,
}
use vkr.Http.Socket.{Reply}
use vkr.Http.Runtime.{RuntimeReply}
use vkr.Gateway.{Route}
use vkr.Gateway.App.{Site, Call, Answer, serve_route}

size_of_panics :
    (z : ℤ) (body : Text)
    → read_frames z body ≡ Reading.panics
    → (ltb_ℤ z (pos 0) ≡ true) ⊎ (ltb_ℤ (pos buffer_size) z ≡ true)
unfolding read_frames
size_of_panics (negsuc n) body e = inl (ground arith)
size_of_panics (pos zero) body e = cc
size_of_panics (pos (suc n)) body e = inr (ground arith)

size_of_endless : (z : ℤ) (body : Text) → read_frames z body ≡ Reading.endless → z ≡ pos 0
unfolding read_frames
size_of_endless (negsuc n) body e = cc
size_of_endless (pos zero) body e = refl
size_of_endless (pos (suc n)) body e = ground arith

-- Results and nothing else.
abbrev pub IsSilent : List Selected → Type 0
IsSilent [] = Unit
IsSilent (Selected.result r ∷ more) = IsSilent more
IsSilent (Selected.results_closed ∷ more) = ⊥
IsSilent (Selected.error e ∷ more) = ⊥

-- An end of the results or an error behind some results.
abbrev pub HasEnd : List Selected → Type 0
HasEnd [] = ⊥
HasEnd (Selected.result r ∷ more) = HasEnd more
HasEnd (Selected.results_closed ∷ more) = Unit
HasEnd (Selected.error e ∷ more) = Unit

IsSilent-has_ended : (chosen : List Selected) → has_ended chosen ≡ false → IsSilent chosen
unfolding has_ended
IsSilent-has_ended [] e = tt
IsSilent-has_ended (Selected.result r ∷ more) e = IsSilent-has_ended more e
IsSilent-has_ended (Selected.results_closed ∷ more) e = cc
IsSilent-has_ended (Selected.error x ∷ more) e = cc

HasEnd-has_ended : (chosen : List Selected) → has_ended chosen ≡ true → HasEnd chosen
unfolding has_ended
HasEnd-has_ended [] e = cc
HasEnd-has_ended (Selected.result r ∷ more) e = HasEnd-has_ended more e
HasEnd-has_ended (Selected.results_closed ∷ more) e = tt
HasEnd-has_ended (Selected.error x ∷ more) e = tt

Reading-cases :
    (r : Reading)
    → (r ≡ Reading.panics) ⊎ (r ≡ Reading.endless) ⊎ ((fs : List Text) × (r ≡ Reading.frames fs))
Reading-cases Reading.panics = inl refl
Reading-cases Reading.endless = inr (inl refl)
Reading-cases (Reading.frames fs) = inr (inr (fs, refl))

module _ {F32 F64 : Type 0} (env : Env F32 F64) (h : Handler) (site : Site F32 F64) where
  -- The bytes that a streamed request asks for in each frame.
  abbrev frame_size : Call F32 → ℤ
  frame_size c =
      expected_size
        (stream_width env h c.input site.parse_float site.is_zero site.default_radius c.request)
        (stream_height env h c.input site.parse_float site.is_zero site.default_radius c.request)

  -- No answer is a panic; the process ends, and a reading never ends, for such a size only, and a
  -- streamed answer waits just where the client's channels give no end.
  abbrev pub IsAnswered : Call F32 → Answer F64 → Type 0
  IsAnswered c a =
      (a ≢ Answer.plain panic)
      × (a ≢ Answer.streamed (StreamReply.answered panic))
      × (a ≢ Answer.socket (Reply.answered panic))
      × (a ≢ Answer.runtime (RuntimeReply.answered panic))
      × (a ≡ Answer.streamed StreamReply.crashed
          → (ltb_ℤ (frame_size c) (pos 0) ≡ true) ⊎ (ltb_ℤ (pos buffer_size) (frame_size c) ≡ true))
      × (a ≡ Answer.streamed StreamReply.hangs → frame_size c ≡ pos 0)
      × ((t : Text)
          → a ≡ Answer.streamed (StreamReply.waits t)
          → (client : ProcessorClient) × (mode : Text) × (chunks : List (MediaChunk F32)) × IsSilent
              (c.choose client mode chunks))
      × ((t : Text)
          → a ≡ Answer.streamed (StreamReply.streamed t)
          → (client : ProcessorClient) × (mode : Text) × (chunks : List (MediaChunk F32)) × HasEnd
              (c.choose client mode chunks))

  module _ (c : Call F32) (w : World env) where
    stream_run-ne-panic :
        (client : ProcessorClient)
        → (run_stream env h c.input site.parse_float site.is_zero site.default_radius c.choose
            c.clock c.request client w).0
          ≢ StreamReply.answered panic
    unfolding run_stream
    stream_run-ne-panic client = ground arith

    stream_run-crashed :
        (client : ProcessorClient)
        → (run_stream env h c.input site.parse_float site.is_zero site.default_radius c.choose
            c.clock c.request client w).0
          ≡ StreamReply.crashed
        → read_frames (frame_size c) c.request.body ≡ Reading.panics
    unfolding run_stream
    stream_run-crashed client e = ground arith

    stream_run-hangs :
        (client : ProcessorClient)
        → (run_stream env h c.input site.parse_float site.is_zero site.default_radius c.choose
            c.clock c.request client w).0
          ≡ StreamReply.hangs
        → read_frames (frame_size c) c.request.body ≡ Reading.endless
    unfolding run_stream
    stream_run-hangs client e = ground arith

    stream_run-waits :
        (client : ProcessorClient) (t : Text)
        → (run_stream env h c.input site.parse_float site.is_zero site.default_radius c.choose
            c.clock c.request client w).0
          ≡ StreamReply.waits t
        → (mode : Text) × (chunks : List (MediaChunk F32)) × IsSilent (c.choose client mode chunks)
    unfolding run_stream
    stream_run-waits client t e = elim (Reading-cases (read_frames (frame_size c) c.request.body)) [
      | inl stops ↦ absurd (ground (arith, stops))
      | inr (inl runs) ↦ absurd (ground (arith, runs))
      | inr (inr (fs, cut)) ↦
          let mode = normalize_memory_mode (query_get (str "memory_mode") c.request.query) in
          let chunks =
            chunks_from env h c.input site.parse_float site.is_zero site.default_radius c.request
              c.clock 1 fs in
          (mode, chunks, IsSilent-has_ended (c.choose client mode chunks) (ground (arith, cut)))
    ]

    stream_run-streamed :
        (client : ProcessorClient) (t : Text)
        → (run_stream env h c.input site.parse_float site.is_zero site.default_radius c.choose
            c.clock c.request client w).0
          ≡ StreamReply.streamed t
        → (mode : Text) × (chunks : List (MediaChunk F32)) × HasEnd (c.choose client mode chunks)
    unfolding run_stream
    stream_run-streamed client t e =
        elim (Reading-cases (read_frames (frame_size c) c.request.body)) [
          | inl stops ↦ absurd (ground (arith, stops))
          | inr (inl runs) ↦ absurd (ground (arith, runs))
          | inr (inr (fs, cut)) ↦
              let mode = normalize_memory_mode (query_get (str "memory_mode") c.request.query) in
              let chunks =
                chunks_from env h c.input site.parse_float site.is_zero site.default_radius
                  c.request c.clock 1 fs in
              (mode, chunks, HasEnd-has_ended (c.choose client mode chunks) (ground (arith, cut)))
        ]

  stream_start :
      (c : Call F32) (w : World env)
      → let reply =
          (handle_process_stream env h c.input site.parse_float site.is_zero site.default_radius
            c.choose c.clock c.request w).0 in
        ((resp : Response F64) × (resp ≢ panic) × (reply ≡ StreamReply.answered resp))
        ⊎ ((client : ProcessorClient) × (w' : World env) × (reply
              ≡ (run_stream env h c.input site.parse_float site.is_zero site.default_radius c.choose
                  c.clock c.request client w').0))
  unfolding handle_process_stream
  stream_start c w = elim (Bool-cases (eq_text c.request.method (str "POST"))) [
    | inr other ↦ rw other (inl (_, (λ e. cc), refl))
    | inl post ↦ elim (Result-cases (user_from_request env h c.input c.request)) [
      | inr (msg, unknown) ↦ rw (post, unknown) (inl (_, (λ e. cc), refl))
      | inl (user, known) ↦ elim (Option-cases (get w.pool)) [
        | inl stuck ↦ absurd (get-ne-none w.pool stuck)
        | inr ((err msg, pool), got) ↦
            inl (http_error no_processors 503, (λ e. cc), ground (arith, got))
        | inr ((ok client, pool), got) ↦ inr (
          client,
          record w { pool = pool; metrics = increment_requests (str "process_stream") w.metrics },
          ground (arith, got),
        )
      ]
    ]
  ]

  pub stream-IsAnswered :
      (c : Call F32) (w : World env) → IsAnswered c (serve_route env h site Route.stream c w).0
  unfolding serve_route
  stream-IsAnswered c w = elim (stream_start c w) [
    | inl (resp, fine, reply) ↦
        (λ e. cc, λ e. fine (cc), λ e. cc, λ e. cc, λ e. cc, λ e. cc, λ t e. cc, λ t e. cc)
    | inr (client, w', reply) ↦ (
      λ e. cc,
      λ e. stream_run-ne-panic c w' client cc,
      λ e. cc,
      λ e. cc,
      λ e. size_of_panics (frame_size c) c.request.body (stream_run-crashed c w' client cc),
      λ e. size_of_endless (frame_size c) c.request.body (stream_run-hangs c w' client cc),
      λ t e.
          let (mode, chunks, silent) = stream_run-waits c w' client t cc in
          (client, mode, chunks, silent),
      λ t e.
          let (mode, chunks, ended) = stream_run-streamed c w' client t cc in
          (client, mode, chunks, ended),
    )
  ]
