-- ===== src/HttpServer/Runs.antt =====
-- skt/http/http_server.cpp at a concrete request.
use learn_web.Common.{length, ◌≡◌, refl, arith, true, false, some, [], ◌∷◌, ◌++◌}
use learn_web.Common.Outcome.{ok}
use learn_web.Http.Messages.{
  HttpRequest, HttpResponse, dump_response, header_lines, body_part, http_response,
  set_response_header, http_request, set_header,
}
use learn_web.Http.Texts.{c_str, case_less, is_prefix, decimal}
use learn_web.Http.Fields.{set, key_less}
use learn_web.Http.Methods.{chars_to_http_method, first_method}
use learn_web.Receive.Parsers.{on_requests, on_request, request_parser}
use learn_web.Receive.Source.{flat}
use learn_web.Receive.Defs.{recv_request}
use learn_web.Receive.Body.{open_stream}
use learn_web.Receive.Runs.{
  told_events, line_machine, digit, a_line, a_tail, pieces, pieces-Sound, line-IsHead, three,
  enough,
}
use learn_web.Common.Integers.{ℤ, pos}
use learn_web.HttpServer.Defs.{fresh_response, handle_client}
use learn_web.HttpServer.Session.{Session}
use learn_web.HttpServer.Sending.{Sends}
use learn_web.Http.Texts.{Text}
use learn_web.HttpServer.Serve.{answer, handle_client-once}

abbrev as_it_is : HttpRequest → HttpResponse → HttpRequest × HttpResponse
as_it_is req rsp = (req, rsp)

-- Three bytes at most go with each send.
abbrev three_at_once : Text → Text → ℤ
three_at_once sent [] = pos 0
three_at_once sent (a ∷ []) = pos 1
three_at_once sent (a ∷ b ∷ []) = pos 2
three_at_once sent (a ∷ b ∷ c ∷ more) = pos 3

three_at_once-Sends : Sends three_at_once
unfolding Sends
three_at_once-Sends sent [] h = absurd (omega (arith, h))
three_at_once-Sends sent (a ∷ []) h = (1, refl, omega arith, omega arith)
three_at_once-Sends sent (a ∷ b ∷ []) h = (2, refl, omega arith, omega arith)
three_at_once-Sends sent (a ∷ b ∷ c ∷ more) h = (3, refl, omega arith, omega arith)

abbrev an_answer : Text
an_answer =
    answer line_machine 64 0 digit told_events (true, false) as_it_is true []
      (a_tail ++ flat pieces)

answer_length : length an_answer ≡ 48
unfolding dump_response header_lines body_part decimal fresh_response http_response
    set_response_header set key_less c_str case_less on_requests on_request request_parser
    http_request set_header chars_to_http_method first_method is_prefix
answer_length = refl

handle_client-once_example :
    (after : Session) × (handle_client
        (recv_request line_machine digit 0 64 9)
        as_it_is
        three_at_once
        1000
        true
        []
        5
        (record { socket = open_stream (some (a_line ++ a_tail) ∷ pieces); sent = [] })
      ≡ ok after)
    × (after.sent ≡ an_answer)
    × (after.socket.connected ≡ false)
handle_client-once_example =
    handle_client-once line_machine 64 0 digit a_line a_tail pieces told_events (true, false) 9 4
      as_it_is three_at_once 1000 true [] line-IsHead (omega arith) (omega arith) pieces-Sound
      (omega (arith, three, enough)) (omega (arith, three)) (omega (arith, three)) (λ req rsp. refl)
      three_at_once-Sends (omega (arith, answer_length)) (omega (arith, answer_length))
