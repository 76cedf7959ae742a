-- ===== src/System/Tests.antt =====
-- A gateway that is connected to the processor over whole numbers, and what it answers for a frame
-- of one pixel.
pub mod Sessions
use vkr.Prelude.{ℕ, ◌≡◌, refl, ap, true, List, [], ◌∷◌, ◌++◌, arith}
use vkr.Prelude.Int.{pos}
use vkr.Prelude.Text.{Text, str}
use vkr.Prelude.Result.{Result, ok, err}
use vkr.Go.Base64.{encode_std}
use vkr.Go.Base64.RoundTrip.{decode_std-encode_std}
use vkr.Auth.Tests.{toy_hmac-IsByte, manager, student}
use vkr.Media.{MediaChunk, ProcessedChunk}
use vkr.Pool.Client.{Transport}
use vkr.Processor.Server.{settings, process_media_stream}
use vkr.Processor.Server.Pixels.{IsFiltered}
use vkr.Processor.Tests.{whole, round, fresh}
use vkr.Http.{
  Request, ProcessFrameRequest, ProcessFrameResponse, parse_filter_type, json, frame_json, Env,
  World,
}
use vkr.Http.Session.{user_from_request, write_token}
use vkr.Http.Frame.{frame_chunk, handle_process_frame}
use vkr.Http.Session.Accounts.{user_from_request-write_token}
use vkr.Http.Tests.{env, handler, at_time, world, token_of, given, cookie_of, from}
use vkr.Processor.Server.{Server, process_chunk}
use vkr.Pool.{ProcessorClient}
use vkr.Prelude.{Option, none, some}
use vkr.Http.{query_get}
use vkr.Prelude.Text.{eq_text}
use vkr.Http.Tests.{given_back}
use vkr.Http.Stream.{
  Selected, streamed, stream_width, stream_height, stream_chunk, chunks_from, handle_process_stream,
}
use vkr.Http.Stream.Frames
use vkr.Stream.Answers.{selections}
use vkr.Stream.Tests.{answered, run}
use vkr.System.Stream.{IsServing, AreFiltered, handle_process_stream-AreFiltered}
use vkr.Prelude.{Bool, false}
use vkr.Http.Socket.{Message, Sent, upgraded, handle_web_socket}
use vkr.System.Socket.{Framed, ArePictured, handle_web_socket-ArePictured}
use vkr.Storage.{ProcessingRun}
use vkr.Storage.Tests.{memory-IsRecording}
use vkr.Http.{runs_json}
use vkr.Http.Session.{handle_history}
use vkr.System.History.{IsRun, handle_history-handle_process_frame}
use vkr.System.{turns, IsConnected}
use vkr.System.Frames.{frame_timeout, handle_process_frame-IsFiltered}

-- `io.EOF` where the handler sent nothing.
abbrev pub first : List ProcessedChunk → Result ProcessedChunk
first [] = err (str "EOF")
first (r ∷ more) = ok r

abbrev pub connection : Transport ℕ ℕ
connection = record {
  Stream = List (MediaChunk ℕ);
  process_media_stream = λ c mode. ok [];
  send = λ chunk s. ok (s ++ chunk ∷ []);
  close_send = λ s. ok s;
  recv = λ s. first (process_media_stream whole (turns whole round s) fresh).0;
  get_stats = λ c. err (str "unavailable");
}

abbrev pub link : (timeout : ℕ) → IsConnected whole connection timeout
link timeout = record {
  round = λ c. round;
  server = λ c. fresh;
  takes = λ c chunk. some 1000;
  IsOpen = λ c chunks s. s ≡ chunks;
  IsClosed = λ c chunks s. s ≡ chunks;
  opens = λ c mode chunk timely. ([], refl, refl);
  sends = λ c chunk s timely fits e. (s ++ chunk ∷ [], refl, ap (λ l. l ++ chunk ∷ []) e);
  closes = λ c chunk s timely e. (s, refl, e);
  receives = λ c chunk s r more timely fits e sent. rw (e, sent) refl;
}

abbrev pub connected : Env ℕ ℕ
connected = record env { transport = connection }

abbrev pub start : World connected
start = record { pool = world.pool; metrics = []; store = world.store }

abbrev pub pixel : Text
pixel = 1 ∷ 2 ∷ 3 ∷ []

abbrev pub asked : ProcessFrameRequest ℕ
asked = record {
  frame = encode_std pixel;
  width = pos 1;
  height = pos 1;
  filter = str "gray";
  blur_radius = 0;
  memory_mode = str "heap";
}

abbrev pub post : Request
post = from (str "POST") (token_of student) (encode_std pixel)

pub is_student : user_from_request connected handler (at_time 5) post ≡ ok student
unfolding write_token str vkr.Auth.issue vkr.Storage.save_session
is_student =
    user_from_request-write_token connected handler (at_time 0) (at_time 5) toy_hmac-IsByte manager
      student start _ (cookie_of student) (given student) post refl (omega arith) (omega arith)
      (omega arith) (omega arith) refl refl

pub is_student_later : user_from_request connected handler (at_time 6) post ≡ ok student
unfolding write_token str vkr.Auth.issue vkr.Storage.save_session
is_student_later =
    user_from_request-write_token connected handler (at_time 0) (at_time 6) toy_hmac-IsByte manager
      student start _ (cookie_of student) (given student) post refl (omega arith) (omega arith)
      (omega arith) (omega arith) refl refl

handle_process_frame-IsFiltered_example :
    (out : ProcessFrameResponse ℕ) × (picture : Text) × ((handle_process_frame connected handler
        (at_time 5)
        post
        start).0
      ≡ json (frame_json out))
    × (out.success ≡ true)
    × (out.frame ≡ encode_std picture)
    × IsFiltered whole
        (parse_filter_type (str "gray"))
        (settings whole (frame_chunk connected handler (at_time 5) pixel asked).params).1
        (settings whole (frame_chunk connected handler (at_time 5) pixel asked).params).2
        pixel
        1
        1
        picture
handle_process_frame-IsFiltered_example =
    handle_process_frame-IsFiltered whole connected handler (at_time 5) (link frame_timeout) post
      start student asked pixel 1 1 is_student refl refl
      (decode_std-encode_std pixel (omega arith, (omega arith, (omega arith, tt)))) refl refl
      (omega arith) (omega arith) refl (omega arith) (omega arith) (λ c. (1000, refl, omega arith))
      (λ c. refl)
