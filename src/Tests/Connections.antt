-- ===== src/Tests/Connections.antt =====
-- A keep-alive connection with two requests, over files in memory.
use semantic_search_engine.Base.{
  ◌≡◌, refl, true, false, List, [], ◌∷◌, ◌++◌, none, some, Bytes, ℕ, codes, arith, bytes_discrete,
  ℕ_discrete, length, zero, suc,
}
use semantic_search_engine.ThreadPool.{replicate}
use semantic_search_engine.Exception.{ok, throws, out_of_range}
use semantic_search_engine.HttpRequest.{Request, parse_request}
use semantic_search_engine.HttpResponse.{make_response, blank_line}
use semantic_search_engine.HttpServer.Chunks.{Declares}
use semantic_search_engine.HttpServer.Connection.{
  ClientSocket, open_socket, client_loop, handle_client,
}
use semantic_search_engine.HttpServer.Conversation.{conversation}
use semantic_search_engine.HttpServer.Rounds.{Carries, all_pieces, serve_all, Takes}
use semantic_search_engine.HttpServer.Reading.{declared_length}
use semantic_search_engine.HttpServer.Routes.{handle_get_request, respond, wants_close}
use semantic_search_engine.HttpServer.Termination.{client_loop_enough}
use semantic_search_engine.Map
use semantic_search_engine.Socket.{Arrival, comes, interrupted}
use semantic_search_engine.Text
use semantic_search_engine.Text.Number.{stoul}
use semantic_search_engine.Tests.MemoryFiles.{memory_files}
use semantic_search_engine.Tests.Server.{thousandths, silent, start}

abbrev first_text : Bytes
first_text = codes "GET / HTTP/1.1\r\n\r\n"

abbrev last_text : Bytes
last_text = codes "GET /x HTTP/1.1\r\nConnection: close\r\n\r\n"

abbrev first : Request
first = record { method = codes "GET"; path = codes "/"; query = []; headers = []; body = [] }

abbrev last : Request
last = record {
  method = codes "GET";
  path = codes "/x";
  query = [];
  headers = (codes "connection", codes "close") ∷ [];
  body = [];
}

abbrev first_pieces : List Arrival
first_pieces = comes (codes "GET / HTTP/1.1\r\n\r") ∷ interrupted false ∷ comes (10 ∷ []) ∷ []

abbrev last_pieces : List Arrival
last_pieces = comes last_text ∷ []

first_parses : parse_request first_text ≡ ok first
unfolding parse_request stoul bytes_discrete ℕ_discrete Map.find Map.modify Text.find Text.find_char
    Text.substr Text.get_line Text.lines Text.to_lower
first_parses = refl

last_parses : parse_request last_text ≡ ok last
unfolding parse_request stoul bytes_discrete ℕ_discrete Map.find Map.modify Text.find Text.find_char
    Text.substr Text.get_line Text.lines Text.to_lower
last_parses = refl

first-Declares : Declares first_text none
unfolding declared_length stoul Text.find Text.to_lower
first-Declares b = refl

last-Declares : Declares last_text none
unfolding declared_length stoul Text.find Text.to_lower
last-Declares b = refl

first_blank : Text.find blank_line first_text ≡ some 14
unfolding Text.find
first_blank = refl

last_blank : Text.find blank_line last_text ≡ some 34
unfolding Text.find
last_blank = refl

first-Carries : Carries first_pieces first
first-Carries = record {
  head = first_text;
  body = [];
  place = 14;
  declared = none;
  live = ((λ e. cc), (refl, ((λ e. cc), tt)));
  whole = refl;
  blank = first_blank;
  ends = refl;
  declares = first-Declares;
  fits = refl;
  parses = first_parses;
}

last-Carries : Carries last_pieces last
last-Carries = record {
  head = last_text;
  body = [];
  place = 34;
  declared = none;
  live = ((λ e. cc), tt);
  whole = refl;
  blank = last_blank;
  ends = refl;
  declares = last-Declares;
  fits = refl;
  parses = last_parses;
}

abbrev requests : List (List Arrival × Request)
requests = (first_pieces, first) ∷ (last_pieces, last) ∷ []

abbrev responses : Bytes
responses =
    make_response 200 (codes "home") (codes "text/html") []
    ++ make_response 404 (codes "<h1>404 Not Found</h1>") (codes "text/html") []

served :
    serve_all memory_files thousandths silent (codes "home") [] start (first ∷ last ∷ [])
    ≡ ok (start, responses)
unfolding serve_all respond wants_close handle_get_request bytes_discrete ℕ_discrete Map.find
    make_response Text.starts_with
served = refl

pub sevens-Takes : (n : ℕ) → Takes n (replicate n 7)
sevens-Takes zero = (tt, omega arith)
sevens-Takes (suc n) =
    let (nonzero, enough) = sevens-Takes n in ((omega arith, nonzero), omega (arith, enough))

conversation_example :
    (end : ClientSocket) × (handle_client memory_files thousandths silent
        (codes "home")
        []
        start
        (open_socket (all_pieces requests) (replicate (length responses) 7))
      ≡ ok (start, end))
    × (end.sent ≡ responses)
    × (end.closed ≡ true)
conversation_example =
    conversation memory_files thousandths silent (codes "home") [] requests start start
      (replicate (length responses) 7) responses (first-Carries, (last-Carries, tt)) served
      (sevens-Takes (length responses))

client_loop_enough_example :
    client_loop memory_files thousandths silent
      (codes "home")
      []
      (throws out_of_range)
      90
      start
      (open_socket first_pieces [])
    ≡ client_loop memory_files thousandths silent
        (codes "home")
        []
        (ok (start, open_socket [] []))
        91
        start
        (open_socket first_pieces [])
client_loop_enough_example =
    client_loop_enough memory_files thousandths silent (codes "home") [] (throws out_of_range)
      (ok (start, open_socket [] [])) 90 91 start (open_socket first_pieces []) (omega arith)
      (omega arith)
