-- ===== src/Receive/Runs.antt =====
-- skt/http at a concrete connection: a parser that takes a line for a head, a body that comes in
-- pieces, and a chunk that is cut.
use learn_web.Common.{
  ℕ, suc, ◌-◌, ◌≡◌, refl, arith, Bool, true, false, Option, none, some, List, [], ◌∷◌, ◌++◌,
  if◌then◌else◌, length, ◌==◌,
}
use learn_web.Common.Outcome.{ok}
use learn_web.Http.Texts.{Text, codes, c_str, case_less}
use learn_web.Http.Fields.{get_as, find, set, key_less}
use learn_web.Http.Methods.{chars_to_http_method, first_method}
use learn_web.Http.Texts.{is_prefix}
use learn_web.Http.Messages.{http_request, set_header}
use learn_web.Receive.Parsers.{
  take, drop, Callback, method, field, Machine, on_request, on_requests, request_parser,
  request_content_length,
}
use learn_web.Receive.Source.{flat}
use learn_web.Receive.Defs.{recv_request}
use learn_web.Receive.Response.{ClientFields, read_chunk}
use learn_web.Receive.Body.{Sound, open_stream}
use learn_web.Receive.Request.{IsHead, told, recv_request_lem, recv_request_malformed}
use learn_web.Receive.Chunk.{read_chunk_whole, read_chunk_cut}

-- The bytes up to and with the first newline.
abbrev pub line : Text → ℕ
line [] = 0
line (c ∷ cs) = if c == 10 then 1 else suc (line cs)

-- The method's callback has the buffer from the method on, as CharsToHttpMethod reads it.
abbrev pub line_events : Text → List Callback
line_events text = method text ∷ field (codes "Content-Length") (codes "3") ∷ []

-- The state says whether a head was seen, and whether it was a bad one.
abbrev pub line_machine : Machine (Bool × Bool)
line_machine = record {
  init = (false, false);
  execute = λ m text. (line text, line_events text, (true, false));
  has_error = λ m. m.1;
  is_finished = λ m. m.0;
}

abbrev bad_machine : Machine (Bool × Bool)
bad_machine = record line_machine { execute = λ m text. (0, [], (false, true)) }

-- The number that a text of one digit is.
abbrev pub digit : Text → Option ℕ
digit [] = none
digit (d ∷ ds) = some (d - 48)

-- The head of a request, and what stands behind it in the buffer.
abbrev pub a_line : Text
a_line = codes "POST" ++ (10 ∷ [])

abbrev pub a_tail : Text
a_tail = 97 ∷ []

abbrev pub told_events : List Callback
told_events = line_events (a_line ++ a_tail)

abbrev pub pieces : List (Option Text)
pieces = some (98 ∷ []) ∷ some (99 ∷ 100 ∷ []) ∷ []

pub pieces-Sound : Sound pieces
pieces-Sound = (omega arith, (omega arith, tt))

pub line-IsHead : IsHead line_machine 64 0 a_line a_tail told_events (true, false)
line-IsHead = record { goes = refl; good = refl; finished = refl }

pub three : request_content_length digit (told line_machine 64 0 told_events (true, false)) ≡ 3
unfolding request_content_length on_requests on_request request_parser http_request set_header
    get_as find set key_less c_str case_less chars_to_http_method first_method is_prefix
three = refl

pub enough : length ((97 ∷ []) ++ flat pieces) ≡ 4
unfolding flat
enough = refl

recv_request_example :
    (left : List (Option Text)) × (recv_request line_machine digit 0 64 9
        (open_stream (some (a_line ++ a_tail) ∷ pieces))
      ≡ ok (
        some (record (told line_machine 64 0 told_events (true, false)).request {
          body =
              take
                (request_content_length digit (told line_machine 64 0 told_events (true, false)))
                (a_tail ++ flat pieces);
        }),
        open_stream left,
      ))
    × (flat left
        ≡ drop
            (request_content_length digit (told line_machine 64 0 told_events (true, false)) - 1)
            (flat pieces))
recv_request_example =
    recv_request_lem line_machine 64 0 digit a_line a_tail pieces told_events (true, false) 9
      line-IsHead (omega arith) (omega arith) pieces-Sound (omega (arith, three, enough))
      (omega (arith, three)) (omega (arith, three))

nothing_told : request_content_length digit (told bad_machine 64 0 [] (false, true)) ≡ 0
unfolding request_content_length on_requests request_parser http_request get_as find
nothing_told = refl

no_error : (told bad_machine 64 0 [] (false, true)).error ≡ 0
unfolding on_requests request_parser
no_error = refl

recv_request_malformed_example :
    recv_request bad_machine digit 0 64 9 (open_stream (some a_line ∷ []))
    ≡ ok (some (told bad_machine 64 0 [] (false, true)).request, open_stream [])
recv_request_malformed_example =
    recv_request_malformed bad_machine 64 0 digit a_line [] 0 [] (false, true) 8 (omega arith)
      (omega arith) refl refl no_error nothing_told

read_chunk_whole_example :
    read_chunk 64 9 2 [] ((97 ∷ 98 ∷ []) ++ (13 ∷ 10 ∷ [])) (open_stream [])
    ≡ ok (some ([] ++ (97 ∷ 98 ∷ []), []), open_stream [])
read_chunk_whole_example =
    read_chunk_whole 64 (omega arith) 9 [] (97 ∷ 98 ∷ []) (13 ∷ 10 ∷ []) (open_stream []) refl

cut_enough : length (flat (some (99 ∷ 13 ∷ 10 ∷ []) ∷ [])) ≡ 3
unfolding flat
cut_enough = refl

read_chunk_cut_example :
    (later : List (Option Text)) × (read_chunk 64 9 3 []
        (97 ∷ 98 ∷ [])
        (open_stream (some (99 ∷ 13 ∷ 10 ∷ []) ∷ []))
      ≡ ok (
        some (([] ++ take 0 (97 ∷ 98 ∷ [])) ++ take 3 (flat (some (99 ∷ 13 ∷ 10 ∷ []) ∷ [])), []),
        open_stream later,
      ))
read_chunk_cut_example =
    read_chunk_cut 64 (omega arith) 9 [] (97 ∷ 98 ∷ []) (99 ∷ []) (some (99 ∷ 13 ∷ 10 ∷ []) ∷ [])
      (omega arith) (omega arith, tt) (omega (arith, cut_enough)) (omega arith)

abbrev not_chunked : ClientFields (Bool × Bool)
not_chunked = record { chunked = λ m. false; content_len = λ m. 0; chunks_done = λ m. false }

abbrev answer_events : List Callback
answer_events = field (codes "content-length") (codes "3") ∷ []

abbrev answer_machine : Machine (Bool × Bool)
answer_machine = record line_machine {
  execute = λ m text. (line text, answer_events, (true, false));
}
