-- ===== src/Http/Tests/Frames.antt =====
-- The theorems on frames at concrete inputs.
use vkr.Prelude.{
  ◌≤◌, ◌↔◌, ℕ, ◌+◌, ◌^◌, ◌<◌, ◌≡◌, ◌≢◌, ◌⊎◌, refl, true, false, Option, none, some, List, [], ◌∷◌,
  ◌++◌, arith, length, ltb, if◌then◌else◌,
}
use vkr.Prelude.Int.{ℤ, pos, negsuc, ltb_ℤ, pos_part}
use vkr.Prelude.Text.{str, eq_text}
use vkr.Go.Base64.{encode_url, encode_std}
use vkr.Auth.{User, colon, payload_of, sign, unix, password_digest}
use vkr.Auth.Tests.{student}
use vkr.Pool.{ProcessorPool}
use vkr.Pool.Client.{Transport}
use vkr.Pool.Client
use vkr.Http.{
  Request, Cookie, AuthResponse, ProcessFrameResponse, RoutingRequest, response, redirect, panic,
  plain, html, login_page, http_error, json, auth_json, frame_json, status_json, Env, Handler,
  Input, World, not_allowed, normalize_memory_mode,
}
use vkr.Http.Session.{
  user_from_request, write_token, handle_register, handle_login, handle_me, handle_history,
}
use vkr.Http.Frame.{with_metrics, handle_process_frame}
use vkr.Http.Frame.Laws.{IsProcessed, handle_process_frame-IsProcessed}
use vkr.Http.Tests.{env, handler, at_time, world, token_of, from}

-- A frame of one pixel, and what is left after it.
abbrev post_frame : Request
post_frame = from (str "POST") (token_of student) (encode_std (1 ∷ 2 ∷ 3 ∷ []))

abbrev mirrored : ProcessFrameResponse ℕ
mirrored = record {
  frame = encode_std (1 ∷ 2 ∷ 3 ∷ []);
  success = true;
  processing_time_ms = 1;
  memory_mode = str "no_arena";
  error = [];
}

handle_process_frame-IsProcessed_example :
    IsProcessed env handler
      (at_time 5)
      post_frame
      world
      ((handle_process_frame env handler (at_time 5) post_frame world).1)
      mirrored
unfolding handle_process_frame str eq_text vkr.Http.Session.user_from_request
    vkr.Http.Session.extract_token vkr.Go.Strings.cut_prefix vkr.Auth.verify vkr.Auth.verify_parts
    vkr.Go.Strings.split vkr.Go.Strings.join vkr.Go.Base64.decode_url vkr.Go.Base64.decode_std
    vkr.Go.Base64.encode_url vkr.Go.Base64.encode_std vkr.Go.Decimal.parse_int
    vkr.Go.Decimal.parse_nat vkr.Go.Decimal.format_int vkr.Go.Decimal.format_nat vkr.Auth.sign
    vkr.Go.Hex.encode vkr.Go.Hex.hex_digit vkr.Http.Frame.check_frame vkr.Http.Frame.run_frame
    vkr.Http.Frame.finish_frame vkr.Http.Frame.expected_size vkr.Http.Frame.frame_response
    vkr.Pool.get vkr.Pool.is_sticky vkr.Pool.Client.process_single_chunk
    vkr.Http.normalize_memory_mode vkr.Go.Strings.to_lower vkr.Prelude.Int.wrap vkr.Prelude.Int.◌*ℤ◌
    vkr.Go.Base64.letter vkr.Go.Base64.from_letter vkr.Go.Base64.skip_breaks vkr.Go.Base64.quad
    vkr.Http.Frame.frame_chunk
handle_process_frame-IsProcessed_example =
    handle_process_frame-IsProcessed env handler (at_time 5) post_frame world _ none mirrored refl
