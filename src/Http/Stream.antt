-- ===== src/Http/Stream.antt =====
-- gateway/internal/http/handlers.go: `HandleProcessStream`. The body is cut into frames in a pooled
-- buffer; what the two channels of the client give is an explicit sequence of choices.
pub mod Frames
use vkr.Prelude.{
  ℕ, zero, suc, ◌+◌, ◌*◌, Bool, true, false, not, Option, none, some, List, [], ◌∷◌, ◌++◌, length,
  take, drop, ltb, ◌==◌, if◌then◌else◌,
}
use vkr.Prelude.Int.{ℤ, pos, negsuc, int32}
use vkr.Prelude.Text.{Text, str, eq_text}
use vkr.Prelude.Result.{Result, ok, err}
use vkr.Go.Decimal.{Parsed, parsed, out_of_range, bad_syntax, parse_int}
use vkr.Media.{MediaType, MediaChunk, ProcessedChunk}
use vkr.Pool.{ProcessorClient, ProcessorPool, get}
use vkr.Metrics.{
  Metrics, increment_requests, increment_errors, increment_processed_frames,
  add_request_payload_bytes,
}
use vkr.Http.{
  Request, Response, panic, http_error, Env, Handler, Input, World, not_allowed, query_get,
  parse_filter_type, normalize_memory_mode,
}
use vkr.Http.Session.{user_from_request}
use vkr.Http.Frame.{expected_size, with_metrics, no_processors}

-- `n, _ := strconv.Atoi(s)`
abbrev pub atoi : Text → ℤ
atoi s = elim (parse_int s) [ parsed z ↦ z | out_of_range z ↦ z | bad_syntax ↦ pos 0 ]

-- `if n == 0 { n = default }`
abbrev pub or_default : ℤ → ℤ → ℤ
or_default (pos zero) default = default
or_default (pos (suc n)) default = pos (suc n)
or_default (negsuc n) default = negsuc n

-- 640 * 480 * 3
abbrev pub buffer_size : ℕ
buffer_size = 921600

-- How the reading goroutine ends: with the frames that it sent, with a panic of `buf[:frameSize]`, or
-- not at all, since a read of zero bytes always succeeds.
pub data Reading : Type 0 where
  frames : List Text → Reading
  panics endless : Reading

-- The rounds of the reading loop; each takes at least one byte, so the length of the body is enough
-- fuel.
unfoldable pub cut : ℕ → ℕ → Text → List Text
cut zero size body = []
cut (suc fuel) size body =
    let rest = cut fuel size (drop size body) in
    if ltb (length body) size then [] else take size body ∷ rest

unfoldable pub read_frames : ℤ → Text → Reading
read_frames (negsuc n) body = panics
read_frames (pos zero) body = endless
read_frames (pos (suc n)) body =
    if ltb buffer_size (suc n) then panics else frames (cut (length body) (suc n) body)

-- What the loop that answers takes from the client's channels, one choice after the other.
pub data Selected : Type 0 where
  result : ProcessedChunk → Selected
  results_closed : Selected
  error : Option Text → Selected

-- Whether the loop that answers gets to its end: it has no timeout, and waits for ever on channels that
-- stay open and silent.
unfoldable pub has_ended : List Selected → Bool
has_ended [] = false
has_ended (result c ∷ more) = has_ended more
has_ended (results_closed ∷ more) = true
has_ended (error e ∷ more) = true

-- The answer: the bytes that were written, with its end or while the loop still waits, or a response
-- without a stream. A panic of the reading goroutine ends the process, and a reading that does not end
-- leaves the request open.
pub data StreamReply (F64 : Type 0) : Type 0 where
  answered : Response F64 → StreamReply F64
  streamed waits : Text → StreamReply F64
  crashed hangs : StreamReply F64

module _ {F32 F64 : Type 0} (env : Env F32 F64) (h : Handler) (input : Input)
    (parse_float : Text → F32) (is_zero : F32 → Bool) (default_radius : F32) where
  open env use {no_intensity}

  unfoldable pub stream_width : Request → ℤ
  stream_width r = or_default (atoi (query_get (str "width") r.query)) (pos 640)

  unfoldable pub stream_height : Request → ℤ
  stream_height r = or_default (atoi (query_get (str "height") r.query)) (pos 480)

  unfoldable pub stream_radius : Request → F32
  stream_radius r =
      let radius = parse_float (query_get (str "blur_radius") r.query) in
      if is_zero radius then default_radius else radius

  unfoldable pub stream_chunk : Request → ℕ → ℕ → Text → MediaChunk F32
  stream_chunk r now id bytes = record {
    bytes = bytes;
    type = MediaType.video;
    width = int32 (stream_width r);
    height = int32 (stream_height r);
    codec = str "raw";
    sequence_id = pos id;
    timestamp_ns = pos now;
    params = some (record {
      filter = parse_filter_type (query_get (str "filter") r.query);
      blur_radius = stream_radius r;
      intensity = no_intensity;
    });
  }

  -- The chunks of the frames, numbered from `id`; `clock` gives the time at which each is made.
  unfoldable pub chunks_from : Request → (ℕ → ℕ) → ℕ → List Text → List (MediaChunk F32)
  chunks_from r clock id [] = []
  chunks_from r clock id (bytes ∷ more) =
      stream_chunk r (clock id) id bytes ∷ chunks_from r clock (id + 1) more

  -- The loop that answers: the bytes that it writes, and the metrics.
  unfoldable pub drain : List Selected → Metrics → Text × Metrics
  drain [] m = ([], m)
  drain (result c ∷ more) m =
      let (later, last) = drain more (increment_processed_frames m) in (c.bytes ++ later, last)
  drain (results_closed ∷ more) m = ([], m)
  drain (error none ∷ more) m = ([], m)
  drain (error (some e) ∷ more) m = ([], increment_errors (str "stream_error") m)

  -- Each frame counts its bytes.
  unfoldable pub count_payload : List Text → Metrics → Metrics
  count_payload [] m = m
  count_payload (bytes ∷ more) m =
      count_payload more (add_request_payload_bytes (str "process_stream") (pos (length bytes)) m)

  -- `choose` gives what the client's channels make of the chunks. The chunks that were cut are all
  -- sent: the request is not cancelled before the body is read.
  unfoldable pub run_stream :
      (ProcessorClient → Text → List (MediaChunk F32) → List Selected)
      → (ℕ → ℕ)
      → Request
      → ProcessorClient
      → World env
      → StreamReply F64 × World env
  run_stream choose clock r client w =
      elim (read_frames (expected_size (stream_width r) (stream_height r)) r.body) [
        | panics ↦ (crashed, w)
        | endless ↦ (hangs, w)
        | frames fs ↦
            let mode = normalize_memory_mode (query_get (str "memory_mode") r.query) in
            let (written, metrics) =
              drain (choose client mode (chunks_from r clock 1 fs)) (count_payload fs w.metrics) in
            (
              (if has_ended (choose client mode (chunks_from r clock 1 fs))
                  then streamed written
                  else waits written),
              record w { metrics = metrics },
            )
      ]

  -- Its errors of the pool are not counted.
  unfoldable pub handle_process_stream :
      (ProcessorClient → Text → List (MediaChunk F32) → List Selected)
      → (ℕ → ℕ)
      → Request
      → World env
      → StreamReply F64 × World env
  handle_process_stream choose clock r w =
      if not (eq_text r.method (str "POST"))
      then (answered (http_error not_allowed 405), w)
      else elim (user_from_request env h input r) [
        | err e ↦ (answered (http_error e 401), w)
        | ok user ↦ start (with_metrics env w (increment_requests (str "process_stream")))
      ]
    where
      start : World env → StreamReply F64 × World env
      start w = elim (get w.pool) [
        | none ↦ (answered panic, w)
        | some (err e, pool) ↦ (answered (http_error no_processors 503), record w { pool = pool })
        | some (ok client, pool) ↦ run_stream choose clock r client (record w { pool = pool })
      ]
