-- ===== src/Tests/Wire.antt =====
-- An exchange of the client with the server, and a request whose target is mistaken for a header.
use semantic_search_engine.Base.{
  ◌≡◌, ◌≢◌, ◌∙◌, append-nil, length, refl, true, [], ◌∷◌, none, some, Bytes, codes, bytes_discrete,
  ℕ_discrete,
}
use semantic_search_engine.SearchClient.Requests.{path_of, request_for}
use semantic_search_engine.EndToEnd.Wire.{Works, exchange_answered}
use semantic_search_engine.HttpRequest.{Request, parse_request}
use semantic_search_engine.HttpServer.Chunks.{Declares}
use semantic_search_engine.HttpServer.Connection.{ClientSocket, open_socket, handle_client}
use semantic_search_engine.HttpServer.Reading.{declared_length}
use semantic_search_engine.HttpServer.Rounds.{Carries, all_pieces}
use semantic_search_engine.Tests.Connections.{sevens-Takes}
use semantic_search_engine.ThreadPool.{replicate}
use semantic_search_engine.VectorClient.{send_all}
use semantic_search_engine.Exception.{ok}
use semantic_search_engine.HttpResponse.{blank_line, make_response}
use semantic_search_engine.HttpServer.Routes.{respond, handle_get_request}
use semantic_search_engine.Map
use semantic_search_engine.SearchClient.{client_text}
use semantic_search_engine.SearchClient.Transport.{Attempt, send_http_request}
use semantic_search_engine.Socket.{comes, stream}
use semantic_search_engine.StaticFile
use semantic_search_engine.Tests.MemoryFiles.{memory_files}
use semantic_search_engine.Tests.Server.{thousandths, silent, start}
use semantic_search_engine.Text
use semantic_search_engine.Text.Number.{to_string, stoul}

-- One exchange on the wire, for a file that is not there.
abbrev wire_text : Bytes
wire_text =
    codes
      "GET /static/x HTTP/1.1\r\nHost: ::1:5950\r\nUser-Agent: searchclient/1.0\r\nConnection: close\r\n\r\n"

wire_text_is : wire_text ≡ client_text (codes "::1") 5950 (codes "GET") (path_of (codes "x")) []
unfolding client_text to_string
wire_text_is = refl

abbrev wire_request : Request
wire_request = request_for (codes "::1") 5950 (codes "GET") (codes "x") []

wire_parses : parse_request wire_text ≡ ok wire_request
unfolding parse_request stoul to_string bytes_discrete ℕ_discrete Map.find Map.modify Text.find
    Text.find_char Text.substr Text.get_line Text.lines Text.to_lower
wire_parses = refl

wire-Declares : Declares wire_text none
unfolding declared_length stoul Text.find Text.to_lower
wire-Declares b = refl

wire_blank : Text.find blank_line wire_text ≡ some 87
unfolding Text.find
wire_blank = refl

wire-Carries : Carries (comes wire_text ∷ []) wire_request
wire-Carries = record {
  head = wire_text;
  body = [];
  place = 87;
  declared = none;
  live = ((λ e. cc), tt);
  whole = refl;
  blank = wire_blank;
  ends = refl;
  declares = wire-Declares;
  fits = refl;
  parses = wire_parses;
}

abbrev absent : Bytes
absent = make_response 404 (codes "<h1>404 Not Found</h1>") (codes "text/html") []

wire_answer : respond memory_files thousandths silent [] [] start wire_request ≡ ok (start, absent)
unfolding respond handle_get_request bytes_discrete ℕ_discrete Map.find make_response
    Text.starts_with StaticFile.static_get
wire_answer = refl

abbrev wire_attempt : Attempt
wire_attempt = record {
  opens = true;
  connects = true;
  sends = replicate 100 90;
  receives = comes absent ∷ [];
}

wire_sends :
    (send_all wire_attempt.sends
      (client_text (codes "::1") 5950 (codes "GET") (path_of (codes "x")) [])).0
    ≡ true
unfolding client_text to_string send_all
wire_sends = refl

absent_ne_nil : absent ≢ []
unfolding make_response
absent_ne_nil e = cc

wire-Works :
    Works
      (λ a. true)
      wire_attempt
      (codes "::1")
      (client_text (codes "::1") 5950 (codes "GET") (path_of (codes "x")) [])
wire-Works = record {
  opens = refl;
  valid = refl;
  connects = refl;
  sends = wire_sends;
  quiet = (absent_ne_nil, tt);
}

exchange_answered_example :
    (end : ClientSocket) × (handle_client memory_files thousandths silent [] [] start (
        open_socket
          (all_pieces ((comes wire_text ∷ [], wire_request) ∷ []))
          (replicate (length absent) 7))
      ≡ ok (start, end))
    × (end.closed ≡ true)
    × (stream wire_attempt.receives ≡ end.sent
        → (send_http_request
            (λ a. true)
            wire_attempt
            (codes "::1")
            5950
            (codes "GET")
            (path_of (codes "x"))
            []).response
          ≡ some absent)
exchange_answered_example =
    exchange_answered memory_files thousandths silent [] [] (λ a. true) (codes "::1") 5950 start
      start (codes "GET") (codes "x") [] absent (comes wire_text ∷ []) (replicate (length absent) 7)
      wire_attempt wire-Carries (append-nil wire_text ∙ wire_text_is) wire_answer
      (sevens-Takes (length absent)) wire-Works

-- The name of a file can pass for a header: the server then waits for a body that never comes.
mistaken_length :
    declared_length (codes "GET /static/content-length:9 HTTP/1.1\r\n\r\n") 41 ≡ ok (some 9)
unfolding declared_length stoul Text.find Text.to_lower
mistaken_length = refl
