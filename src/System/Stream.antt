-- ===== src/System/Stream.antt =====
-- A streamed request from its body to what the user gets: the loops of `HandleProcessStream` and
-- `ProcessStream`, interleaved in any order, and the filters of processor-go/cmd/server/main.go.
use vkr.Prelude.{
  ℕ, zero, suc, Bool, ◌+◌, ◌*◌, ◌^◌, ◌≤◌, ◌<◌, ◌≡◌, ◌≢◌, true, refl, ap, ◌∙◌, some, List, [], ◌∷◌,
  ◌++◌, map, arith, length, All,
}
use vkr.Prelude.Int.{pos, int64, ◌*ℤ◌, wrap_of_Fits32, wrap_of_Fits64}
use vkr.Prelude.Text.{Text, str, eq_text_complete}
use vkr.Prelude.Result.{ok}
use vkr.Auth.{User}
use vkr.Media.{MediaChunk, ProcessedChunk}
use vkr.Metrics.{Metrics, increment_requests}
use vkr.Pool.{ProcessorClient, ProcessorPool, get}
use vkr.Pool.Choice.{get-choice}
use vkr.Processor.{Floats}
use vkr.Processor.Server.{Server, Round, settings, process_chunk}
use vkr.Processor.Server.Pixels.{IsFiltered, process_chunk-Succeeds}
use vkr.Http.{
  Request, Env, Handler, Input, World, parse_filter_type, normalize_memory_mode, query_get,
}
use vkr.Http.Session.{user_from_request}
use vkr.Http.Frame.{expected_size, with_metrics}
use vkr.Processor.Filters.Total.{product, pixels_exact}
use vkr.Http.Stream.{
  Selected, streamed, frames, buffer_size, read_frames, stream_width, stream_height, stream_chunk,
  chunks_from, has_ended, drain, count_payload, run_stream, handle_process_stream,
}
use vkr.Http.Stream.Frames.{read_frames-joined}
use vkr.Http.Stream.Frames
use vkr.Stream.{State, draining, by_results, finished, start, Steps}
use vkr.Stream.Order.{written_complete}
use vkr.Stream.Answers.{joined, selections, selections-has_ended, drain-selections}

-- A width and a height of a frame that fits the buffer.
factor_lt : (a b : ℕ) → 1 ≤ a * b * 3 → a * b * 3 ≤ buffer_size → a < 2 ^ 31
factor_lt a zero some_size fits = absurd (omega (arith, some_size))
factor_lt a (suc b) some_size fits = ground (arith, some_size, fits)

joined-map :
    {C : Type 0} (serve : C → ProcessedChunk) (all : List C)
    → joined (map serve all) ≡ Frames.joined (map (λ c. (serve c).bytes) all)
joined-map serve [] = refl
joined-map serve (c ∷ all) = ap (λ t. (serve c).bytes ++ t) (joined-map serve all)

module _ (f : Floats) where
  open f use {F32}

  -- What `serve` gives for a chunk is what the processor's `processChunk` answers; `round` and
  -- `server` are what it meets at that chunk.
  pub record IsServing (serve : MediaChunk F32 → ProcessedChunk) : Type 1 where
    pub round : MediaChunk F32 → Round f
    pub server : MediaChunk F32 → Server
    pub kernel : (chunk : MediaChunk F32) → length (round chunk).kernel ≡ 31
    pub serves :
        (chunk : MediaChunk F32) (r : ProcessedChunk) (s : Server)
        → process_chunk f (round chunk) chunk (server chunk) ≡ some (r, s)
        → serve chunk ≡ r

  -- `chosen` is what the loop that answers takes in a run of the goroutines that ends with `results`
  -- closed, when all the frames were read and no error was left.
  pub record IsEnded (serve : MediaChunk F32 → ProcessedChunk) (chunks : List (MediaChunk F32))
      (chosen : List Selected) : Type 0 where
    pub steps : ℕ
    pub last : State (MediaChunk F32) ProcessedChunk
    pub run : Steps serve steps (start chunks) last
    pub taken : chosen ≡ selections serve run
    pub ends : last.main ≡ by_results
    pub quiet : last.errs ≡ []
    pub read : last.reader ≡ finished

  module _ {F64 : Type 0} (env : Env F32 F64) (h : Handler) (input : Input)
      (parse_float : Text → F32) (is_zero : F32 → Bool) (default_radius : F32) where
    abbrev chunks : Request → (ℕ → ℕ) → ℕ → List Text → List (MediaChunk F32)
    chunks = chunks_from env h input parse_float is_zero default_radius

    -- Each frame of a body, and a picture that the request's filter makes of it.
    abbrev pub AreFiltered : Request → ℕ → ℕ → List Text → List Text → Type 0
    AreFiltered r wd ht [] [] = Unit
    AreFiltered r wd ht [] (picture ∷ pictures) = ⊥
    AreFiltered r wd ht (frame ∷ fs) [] = ⊥
    AreFiltered r wd ht (frame ∷ fs) (picture ∷ pictures) =
        let params =
          (stream_chunk env h input parse_float is_zero default_radius r 0 0 frame).params in
        IsFiltered f (parse_filter_type (query_get (str "filter") r.query)) (settings f params).1
          (settings f params).2 frame wd ht picture
        × AreFiltered r wd ht fs pictures

    module _ (serve : MediaChunk F32 → ProcessedChunk) (served : IsServing serve) where
      chunks-AreFiltered :
          (r : Request) (clock : ℕ → ℕ) (wd ht : ℕ) (id : ℕ) (fs : List Text)
          → stream_width env h input parse_float is_zero default_radius r ≡ pos wd
          → stream_height env h input parse_float is_zero default_radius r ≡ pos ht
          → wd < 2 ^ 31
          → ht < 2 ^ 31
          → wd * ht * 3 < 2 ^ 63
          → All (λ frame. length frame ≡ wd * ht * 3) fs
          → AreFiltered r wd ht fs (map (λ c. (serve c).bytes) (chunks r clock id fs))
      unfolding chunks_from stream_chunk settings
      chunks-AreFiltered r clock wd ht id [] ew eh w_lt h_lt small sized = tt
      chunks-AreFiltered r clock wd ht id (frame ∷ fs) ew eh w_lt h_lt small (exact, sized) =
          let chunk =
            stream_chunk env h input parse_float is_zero default_radius r (clock id) id frame in
          let ((answer, s), done, p) =
            process_chunk-Succeeds f (served.round chunk) chunk (served.server chunk) wd ht
              (rw ew (wrap_of_Fits32 (pos wd) (w_lt, omega arith)))
              (rw eh (wrap_of_Fits32 (pos ht) (h_lt, omega arith))) w_lt h_lt refl exact
              (omega (arith, exact)) (served.kernel chunk) in
          let same = served.serves chunk answer s done in
          (
            rw same p.frame,
            chunks-AreFiltered r clock wd ht (id + 1) fs ew eh w_lt h_lt small sized,
          )

    whole_size :
        (wd ht : ℕ)
        → wd * ht * 3 < 2 ^ 63
        → 1 ≤ wd * ht * 3
        → expected_size (pos wd) (pos ht) ≡ pos (wd * ht * 3)
    unfolding expected_size
    whole_size wd ht small some_size =
        ap (λ z. int64 (z *ℤ pos 3)) (pixels_exact wd ht (omega (arith, small)))
        ∙ ap int64 (product (wd * ht) 3)
        ∙ wrap_of_Fits64 (pos (wd * ht * 3)) (small, omega arith)

    ended_ends :
        (serve : MediaChunk F32 → ProcessedChunk) (all : List (MediaChunk F32))
        (chosen : List Selected)
        → IsEnded serve all chosen
        → has_ended chosen ≡ true
    ended_ends serve all chosen e =
        ap has_ended e.taken
        ∙ selections-has_ended env h input parse_float is_zero default_radius serve all e.steps
            e.last e.run (stopped e.last e.ends)
      where
        stopped :
            (s : State (MediaChunk F32) ProcessedChunk) → s.main ≡ by_results → s.main ≢ draining
        stopped s e d = cc

    -- A run that ends writes the bytes of the results of all chunks.
    ended_bytes :
        (serve : MediaChunk F32 → ProcessedChunk) (all : List (MediaChunk F32))
        (chosen : List Selected)
        → IsEnded serve all chosen
        → (m : Metrics)
        → (drain env h input parse_float is_zero default_radius chosen m).0
          ≡ Frames.joined (map (λ c. (serve c).bytes) all)
    ended_bytes serve all chosen e m =
        ap (λ l. (drain env h input parse_float is_zero default_radius l m).0) e.taken
        ∙ (drain-selections env h input parse_float is_zero default_radius serve all e.steps e.last
            e.run m).0
        ∙ ap joined (written_complete serve all e.steps e.last e.run e.ends e.quiet e.read)
        ∙ joined-map serve all

    -- The branches that such a request takes.
    stream_taken :
        (choose : ProcessorClient → Text → List (MediaChunk F32) → List Selected) (clock : ℕ → ℕ)
        (r : Request) (w : World env) (user : User) (c : ProcessorClient) (pool : ProcessorPool)
        (fs : List Text) (written : Text)
        → r.method ≡ str "POST"
        → user_from_request env h input r ≡ ok user
        → get w.pool ≡ some (ok c, pool)
        → read_frames
            (expected_size
              (stream_width env h input parse_float is_zero default_radius r)
              (stream_height env h input parse_float is_zero default_radius r))
            r.body
          ≡ frames fs
        → ((m : Metrics)
            → (drain env h input parse_float is_zero default_radius
                (choose c
                  (normalize_memory_mode (query_get (str "memory_mode") r.query))
                  (chunks r clock 1 fs))
                m).0
              ≡ written)
        → has_ended (
            choose c
              (normalize_memory_mode (query_get (str "memory_mode") r.query))
              (chunks r clock 1 fs))
          ≡ true
        → (handle_process_stream env h input parse_float is_zero default_radius choose clock r w).0
          ≡ streamed written
    unfolding handle_process_stream run_stream
    stream_taken choose clock r w user c pool fs written posted known got cut wrote whole =
        let counted = with_metrics env w (increment_requests (str "process_stream")) in
        let got' : get counted.pool ≡ some (ok c, pool) = got in
        rw (eq_text_complete r.method (str "POST") posted, known)
          (cc (
            got',
            cut,
            whole,
            wrote (count_payload env h input parse_float is_zero default_radius fs counted.metrics),
          ))

    -- What a user gets for a POST of a body of whole frames, and perhaps a part of one that is dropped,
    -- if the pool has a client: for every interleaving of the goroutines that read, send, receive and
    -- answer which ends with the results closed, when all frames were read and no error was left, the
    -- answer streams one picture for each frame, in the order of the frames, each with the pixels that the
    -- filter of the query makes of its frame. A frame has at least one byte and at most 921600, as many
    -- as the width and the height of the query say, and each chunk that is sent is answered with what
    -- `processChunk` gives for it, with a kernel of 31 elements.
    pub handle_process_stream-AreFiltered :
        (serve : ProcessorClient → MediaChunk F32 → ProcessedChunk)
        (choose : ProcessorClient → Text → List (MediaChunk F32) → List Selected) (clock : ℕ → ℕ)
        (r : Request) (w : World env) (user : User) (wd ht : ℕ) (fs : List Text) (rest : Text)
        → ((c : ProcessorClient) → IsServing (serve c))
        → r.method ≡ str "POST"
        → user_from_request env h input r ≡ ok user
        → 0 < length w.pool.clients
        → stream_width env h input parse_float is_zero default_radius r ≡ pos wd
        → stream_height env h input parse_float is_zero default_radius r ≡ pos ht
        → 1 ≤ wd * ht * 3
        → wd * ht * 3 ≤ buffer_size
        → All (λ frame. length frame ≡ wd * ht * 3) fs
        → length rest < wd * ht * 3
        → r.body ≡ Frames.joined fs ++ rest
        → ((c : ProcessorClient) (mode : Text)
            → IsEnded (serve c) (chunks r clock 1 fs) (choose c mode (chunks r clock 1 fs)))
        → (pictures : List Text) × AreFiltered r wd ht fs pictures
          × ((handle_process_stream env h input parse_float is_zero default_radius choose clock r
                w).0
              ≡ streamed (Frames.joined pictures))
    handle_process_stream-AreFiltered serve choose clock r w user wd ht fs rest served posted known
          full ew eh some_size fits sized short body ended =
        let (c, at, got) = get-choice w.pool full in
        let mode = normalize_memory_mode (query_get (str "memory_mode") r.query) in
        let whole = whole_size wd ht (omega (arith, fits)) some_size in
        let cut : read_frames
              (expected_size (stream_width env h input parse_float is_zero default_radius r)
                (stream_height env h input parse_float is_zero default_radius r))
              r.body
            ≡ frames fs =
          rw (ew, eh, whole, body)
            (read_frames-joined (wd * ht * 3) fs rest some_size fits sized short) in
        (
          map (λ chunk. (serve c chunk).bytes) (chunks r clock 1 fs),
          chunks-AreFiltered (serve c) (served c) r clock wd ht 1 fs ew eh
              (factor_lt wd ht some_size fits)
              (factor_lt ht wd (omega (arith, some_size)) (omega (arith, fits)))
              (omega (arith, fits)) sized,
          stream_taken choose clock r w user c _ fs _ posted known got cut
              (λ m.
                ended_bytes (serve c) (chunks r clock 1 fs) (choose c mode (chunks r clock 1 fs))
                  (ended c mode) m)
              (ended_ends (serve c) (chunks r clock 1 fs) (choose c mode (chunks r clock 1 fs))
                (ended c mode)),
        )
