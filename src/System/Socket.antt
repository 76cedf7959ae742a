-- ===== src/System/Socket.antt =====
-- A WebSocket session from its messages to what the user gets: the loop of `HandleWebSocket` in
-- gateway/internal/http/handlers.go over processors that are connected to it.
use vkr.Prelude.{
  ℕ, ◌*◌, ◌^◌, ◌<◌, ◌≡◌, refl, true, some, ◌&&◌, List, [], ◌∷◌, arith, length, All, Bool-cases, inl,
  inr,
}
use vkr.Prelude.Int.{pos, wrap_of_Fits32}
use vkr.Prelude.Text.{Text, str}
use vkr.Prelude.Result.{ok}
use vkr.Go.Base64.{encode_std, decode_std}
use vkr.Auth.{User}
use vkr.Pool.{ProcessorClient, ProcessorPool, get}
use vkr.Pool.Choice.{get-choice}
use vkr.Processor.{Floats}
use vkr.Processor.Server.{settings}
use vkr.Processor.Server.Pixels.{IsFiltered}
use vkr.Http.{
  Request, ProcessFrameRequest, ProcessFrameResponse, Env, Handler, Input, World, parse_filter_type,
  normalize_memory_mode,
}
use vkr.Metrics.{increment_requests}
use vkr.Http.Frame.{with_metrics}
use vkr.Http.Session.{user_from_request}
use vkr.Http.Socket.{
  Message, Sent, upgraded, frame_json, socket_chunk, socket_response, answer_message,
  serve_messages, handle_web_socket,
}
use vkr.System.{Completes, IsConnected, chunk_answer}
use vkr.System.Frames.{FrameFits}

-- `5*time.Second`
abbrev pub socket_timeout : ℕ
socket_timeout = 5 * 10 ^ 9

module _ (f : Floats) where
  open f use {F32}

  module _ {F64 : Type 0} (env : Env F32 F64) (h : Handler) (input : Input)
      (link : IsConnected f env.transport socket_timeout) where
    -- A message that holds a frame with as many bytes as its width and height say, within the message limit,
    -- and whose call completes.
    pub record Framed (m : Message) : Type 0 where
      pub req : ProcessFrameRequest F32
      pub bytes : Text
      pub wd : ℕ
      pub ht : ℕ
      pub decoded : env.decode_frame m.payload ≡ some req
      pub unpacked : decode_std req.frame ≡ some bytes
      pub width : req.width ≡ pos wd
      pub height : req.height ≡ pos ht
      pub width_lt : wd < 2 ^ 31
      pub height_lt : ht < 2 ^ 31
      pub exact : length bytes ≡ wd * ht * 3
      pub fits : FrameFits bytes
      pub timely :
          (c : ProcessorClient)
          → Completes socket_timeout (link.takes c (socket_chunk env h input m.now bytes req))

    -- The picture that the filter of the message makes of its frame, in Base64.
    pub record IsPictured (m : Message) (p : Framed m) (sent : Sent F64) : Type 0 where
      pub out : ProcessFrameResponse F64
      pub picture : Text
      pub is_frame : sent ≡ frame_json out
      pub success : out.success ≡ true
      pub frame : out.frame ≡ encode_std picture
      pub filtered :
          let params = (socket_chunk env h input m.now p.bytes p.req).params in
          IsFiltered f
            (parse_filter_type p.req.filter)
            (settings f params).1
            (settings f params).2
            p.bytes
            p.wd
            p.ht
            picture

    -- The answers to the messages, in their order; only where writing an answer failed they end before
    -- the messages do.
    abbrev pub ArePictured : (ms : List Message) → All Framed ms → List (Sent F64) → Type 0
    ArePictured [] framed [] = Unit
    ArePictured [] framed (s ∷ sent) = ⊥
    ArePictured (m ∷ ms) framed [] = m.write_fails ≡ true
    ArePictured (m ∷ ms) (p, framed) (s ∷ sent) = IsPictured m p s × ArePictured ms framed sent

    answer_message-IsPictured :
        (c : ProcessorClient) (m : Message) (w : World env) (p : Framed m)
        → length (link.round c).kernel ≡ 31
        → IsPictured m p ((answer_message env h input c m w).0).0
          × (((answer_message env h input c m w).0).1 ≡ true)
    unfolding answer_message socket_chunk socket_response settings str
    answer_message-IsPictured c m w p len =
        let (r, answered, success, no_error, pixels) =
          chunk_answer f env.transport socket_timeout link c
            (socket_chunk env h input m.now p.bytes p.req) (normalize_memory_mode p.req.memory_mode)
            p.wd p.ht (rw p.width (wrap_of_Fits32 (pos p.wd) (p.width_lt, omega arith)))
            (rw p.height (wrap_of_Fits32 (pos p.ht) (p.height_lt, omega arith))) p.width_lt
            p.height_lt refl p.exact (p.timely c) p.fits len in
        let decoded = p.decoded in
        let unpacked = p.unpacked in
        (
          record {
            out = socket_response env h input (normalize_memory_mode p.req.memory_mode) r;
            picture = r.bytes;
            is_frame = rw (answer_message, decoded, unpacked, answered) refl;
            success = success;
            frame = refl;
            filtered = pixels;
          },
          rw (answer_message, decoded, unpacked, answered) refl,
        )

    serve_messages-ArePictured :
        (c : ProcessorClient) (ms : List Message) (w : World env) (framed : All Framed ms)
        → length (link.round c).kernel ≡ 31
        → ArePictured ms framed (serve_messages env h input c ms w).0
    unfolding serve_messages
    serve_messages-ArePictured c [] w framed len = tt
    serve_messages-ArePictured c (m ∷ ms) w (p, framed) len =
        let (pictured, processed) = answer_message-IsPictured c m w p len in
        elim (Bool-cases (((answer_message env h input c m w).0).1 && m.write_fails)) [
          | inl broken ↦ rw broken (ground (arith, processed, broken))
          | inr written ↦ rw written (pictured, serve_messages-ArePictured c ms _ framed len)
        ]

    -- The branches that such a session takes.
    socket_taken :
        (messages : List Message) (r : Request) (w : World env) (user : User) (c : ProcessorClient)
        (pool : ProcessorPool)
        → user_from_request env h input r ≡ ok user
        → get w.pool ≡ some (ok c, pool)
        → (handle_web_socket env h input true messages r w).0
          ≡ upgraded
              (serve_messages env h input c messages
                (record (with_metrics env w (increment_requests (str "websocket"))) {
                  pool = pool;
                })).0
    unfolding handle_web_socket
    socket_taken messages r w user c pool known got = ground (arith, known, got)

    -- What a user gets in a WebSocket session, if the connection is upgraded, the pool has a client and
    -- every client is connected to a processor: each message that holds a frame is answered, in the order
    -- of the messages, with a success and the Base64 text of the picture that the message's filter
    -- makes of its frame, until the answer of a message cannot be written. All messages hold frames with as
    -- many bytes as their width and height say, the width and height below 2 ^ 31, the data within the
    -- 100 MiB that a message of gRPC may have, less 131 bytes for its other fields; the call for each
    -- completes, within the 5 seconds of the handler and without a failure of the network; and each
    -- processor's pool gives a kernel of 31 elements.
    pub handle_web_socket-ArePictured :
        (messages : List Message) (r : Request) (w : World env) (user : User)
        (framed : All Framed messages)
        → user_from_request env h input r ≡ ok user
        → 0 < length w.pool.clients
        → ((c : ProcessorClient) → length (link.round c).kernel ≡ 31)
        → (sent : List (Sent F64)) × ((handle_web_socket env h input true messages r w).0
            ≡ upgraded sent)
          × ArePictured messages framed sent
    handle_web_socket-ArePictured messages r w user framed known full len =
        let (c, at, got) = get-choice w.pool full in
        (
          _,
          socket_taken messages r w user c _ known got,
          serve_messages-ArePictured c messages _ framed (len c),
        )
