-- ===== src/System/Tests/Sessions.antt =====
-- The same gateway over a streamed body, a WebSocket and the history (gateway/internal/http/handlers.go).
use vkr.Prelude.{ℕ, ◌≡◌, refl, true, List, [], ◌∷◌, arith}
use vkr.Prelude.Int.{pos}
use vkr.Prelude.Text.{Text, str}
use vkr.Prelude.Result.{ok}
use vkr.Go.Base64.{encode_std}
use vkr.Go.Base64.RoundTrip.{decode_std-encode_std}
use vkr.Auth.Tests.{student}
use vkr.Media.{MediaChunk, ProcessedChunk}
use vkr.Processor.Tests.{whole, round, fresh}
use vkr.Http.{
  Request, ProcessFrameRequest, ProcessFrameResponse, parse_filter_type, json, frame_json, Env,
  World,
}
use vkr.Http.Session.{user_from_request, write_token}
use vkr.Http.Frame.{handle_process_frame}
use vkr.Http.Tests.{handler, at_time}
use vkr.Processor.Server.{Server, process_chunk}
use vkr.Pool.{ProcessorClient}
use vkr.Prelude.{Option, none, some}
use vkr.Http.{query_get}
use vkr.Prelude.Text.{eq_text}
use vkr.Http.Tests.{given_back}
use vkr.Http.Stream.{
  Selected, streamed, stream_width, stream_height, stream_chunk, chunks_from, handle_process_stream,
}
use vkr.Http.Stream.Frames
use vkr.Stream.Answers.{selections}
use vkr.Stream.Tests.{answered, run}
use vkr.System.Stream.{IsServing, AreFiltered, handle_process_stream-AreFiltered}
use vkr.Prelude.{Bool, false}
use vkr.Http.Socket.{Message, Sent, upgraded, handle_web_socket}
use vkr.Storage.Runs.{IsAscii}
use vkr.System.Frames.{frame_timeout}
use vkr.System.Socket.{socket_timeout, Framed, ArePictured, handle_web_socket-ArePictured}
use vkr.Storage.{ProcessingRun}
use vkr.Storage.Tests.{memory-IsRecording}
use vkr.Http.{runs_json}
use vkr.Http.Session.{handle_history}
use vkr.System.History.{IsRun, handle_history-handle_process_frame}
use vkr.System.Tests.{link, connected, start, pixel, asked, post, is_student, is_student_later}

-- The same pixel as the body of a streamed request.
abbrev stream_post : Request
stream_post = record post {
  query = (str "width", str "1") ∷ (str "height", str "1") ∷ (str "filter", str "gray") ∷ [];
  body = pixel;
}

abbrev answer_of : Option (ProcessedChunk × Server) → ProcessedChunk
answer_of none = given_back []
answer_of (some (r, s)) = r

abbrev serve : ProcessorClient → MediaChunk ℕ → ProcessedChunk
serve c chunk = answer_of (process_chunk whole round chunk fresh)

abbrev serving : (c : ProcessorClient) → IsServing whole (serve c)
serving c = record {
  round = λ chunk. round;
  server = λ chunk. fresh;
  kernel = λ chunk. refl;
  serves = λ chunk r s e. rw e refl;
}

-- What the loop takes for one chunk.
abbrev choose : ProcessorClient → Text → List (MediaChunk ℕ) → List Selected
choose c mode [] = []
choose c mode (chunk ∷ more) = selections (serve c) (run (serve c) chunk)

abbrev length_radius : Text → ℕ
length_radius s = 0

is_stream_student : user_from_request connected handler (at_time 5) stream_post ≡ ok student
unfolding user_from_request vkr.Http.Session.extract_token query_get eq_text str
is_stream_student = is_student

stream_wide :
    stream_width connected handler (at_time 5) length_radius (λ x. true) 5 stream_post ≡ pos 1
unfolding stream_width query_get str eq_text vkr.Go.Decimal.parse_int
stream_wide = refl

stream_high :
    stream_height connected handler (at_time 5) length_radius (λ x. true) 5 stream_post ≡ pos 1
unfolding stream_height query_get str eq_text vkr.Go.Decimal.parse_int
stream_high = refl

handle_process_stream-AreFiltered_example :
    (pictures : List Text) × AreFiltered whole connected handler
      (at_time 5)
      length_radius
      (λ x. true)
      5
      stream_post
      1
      1
      (pixel ∷ [])
      pictures
    × ((handle_process_stream connected handler
          (at_time 5)
          length_radius
          (λ x. true)
          5
          choose
          (λ n. n)
          stream_post
          start).0
        ≡ streamed (Frames.joined pictures))
unfolding chunks_from
handle_process_stream-AreFiltered_example =
    handle_process_stream-AreFiltered whole connected handler (at_time 5) length_radius (λ x. true)
      5 serve choose (λ n. n) stream_post start student 1 1 (pixel ∷ []) [] serving refl
      is_stream_student (omega arith) stream_wide stream_high (omega arith) (omega arith) (refl, tt)
      (omega arith) refl
      (λ c mode. record {
        steps = 14;
        last = answered (
            serve c (
              stream_chunk connected handler (at_time 5) length_radius (λ x. true) 5 stream_post 1 1
                pixel));
        run = run (serve c) _;
        taken = refl;
        ends = refl;
        quiet = refl;
        read = refl;
      })

-- The same pixel twice in a WebSocket; the second answer is not written.
abbrev message : Bool → Message
message fails = record { payload = encode_std pixel; now = 7; write_fails = fails }

abbrev framed_pixel :
    (fails : Bool)
    → Framed whole connected handler (at_time 5) (link socket_timeout) (message fails)
framed_pixel fails = record {
  req = asked;
  bytes = pixel;
  wd = 1;
  ht = 1;
  decoded = refl;
  unpacked = decode_std-encode_std pixel (omega arith, (omega arith, (omega arith, tt)));
  width = refl;
  height = refl;
  width_lt = omega arith;
  height_lt = omega arith;
  exact = refl;
  fits = omega arith;
  timely = λ c. (1000, refl, omega arith);
}

handle_web_socket-ArePictured_example :
    (sent : List (Sent ℕ)) × ((handle_web_socket connected handler
        (at_time 5)
        true
        (message false ∷ message true ∷ [])
        post
        start).0
      ≡ upgraded sent)
    × ArePictured whole connected handler
        (at_time 5)
        (link socket_timeout)
        (message false ∷ message true ∷ [])
        (framed_pixel false, (framed_pixel true, tt))
        sent
handle_web_socket-ArePictured_example =
    handle_web_socket-ArePictured whole connected handler (at_time 5) (link socket_timeout)
      (message false ∷ message true ∷ []) post start student
      (framed_pixel false, (framed_pixel true, tt)) is_student (omega arith) (λ c. refl)

gray-IsAscii : IsAscii (str "gray")
unfolding str
gray-IsAscii = (
  (omega arith, omega arith),
  ((omega arith, omega arith), ((omega arith, omega arith), ((omega arith, omega arith), tt))),
)

handle_history-handle_process_frame_example :
    (row : ProcessingRun ℕ) × (rest : List (ProcessingRun ℕ)) × ((handle_history connected handler
        (at_time 6)
        post
        (handle_process_frame connected handler (at_time 5) post start).1).0
      ≡ json (runs_json (row ∷ rest)))
    × IsRun whole student asked row
handle_history-handle_process_frame_example =
    handle_history-handle_process_frame whole connected handler (at_time 5) (at_time 6)
      (link frame_timeout) memory-IsRecording post post start student asked pixel 1 1 is_student
      refl refl (decode_std-encode_std pixel (omega arith, (omega arith, (omega arith, tt)))) refl
      refl (omega arith) (omega arith) refl (omega arith) (omega arith)
      (λ c. (1000, refl, omega arith)) (λ c. refl) refl tt tt gray-IsAscii is_student_later
