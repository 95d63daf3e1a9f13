-- ===== src/Tests/Client.antt =====
-- A session of the client with a server over files in memory, and its exchanges.
use semantic_search_engine.Base.{
  ℕ, ◌+◌, ap, length, List, ◌≡◌, refl, true, [], ◌∷◌, ◌++◌, none, some, Bytes, codes, arith,
  bytes_discrete, ℕ_discrete,
}
use semantic_search_engine.SearchClient.Requests.{IsName, IsSized, Delivers}
use semantic_search_engine.EndToEnd.Commands.{IsTyped}
use semantic_search_engine.EndToEnd.Session.{remote_server, uploaded, put_then_get}
use semantic_search_engine.Exception.{ok}
use semantic_search_engine.HttpResponse.{make_response, is_success, reason_for}
use semantic_search_engine.HttpServer.Reading.{declared_length}
use semantic_search_engine.HttpServer.Rounds.{Takes}
use semantic_search_engine.HttpServer.Routes.{Server, after_put}
use semantic_search_engine.Tests.Connections.{sevens-Takes}
use semantic_search_engine.ThreadPool.{replicate}
use semantic_search_engine.Map
use semantic_search_engine.SearchClient.{client_text}
use semantic_search_engine.SearchClient.Answer.{parse_status, body_of, reason_of}
use semantic_search_engine.SearchClient.Answered.{answer_read}
use semantic_search_engine.SearchClient.Exchange.{Settles, send_http_request-Settles}
use semantic_search_engine.SearchClient.Shell.{World, run_lines, shell, help_text}
use semantic_search_engine.SearchClient.Transport.{Attempt, send_http_request}
use semantic_search_engine.Socket.{Arrival, comes, stream, IsLive}
use semantic_search_engine.StaticFile
use semantic_search_engine.Tests.MemoryFiles.{memory_files, memory_files-WritesBack}
use semantic_search_engine.Tests.Server.{thousandths, silent, start}
use semantic_search_engine.Text
use semantic_search_engine.Text.Integer.{ℤ, pos, read_int}
use semantic_search_engine.Text.Number.{to_string, stoul}
use semantic_search_engine.Text.Words.{read_word}

abbrev missing : Bytes
missing = make_response 404 (codes "no\n\n") (codes "text/html") (codes "Not Found")

statuses :
    (parse_status (codes "HTTP/1.1  -7 x") ≡ some (ℤ.negsuc 6))
    × (parse_status (codes "HTTP/1.1") ≡ none)
    × (parse_status [] ≡ none)
    × (parse_status (codes "a 2147483648") ≡ none)
    × (body_of (codes "a\n\nb") ≡ codes "b")
    × (reason_of (codes "HTTP/1.1 200") ≡ [])
unfolding parse_status body_of reason_of read_int read_word Text.find Text.get_line
statuses = (refl, refl, refl, refl, refl, refl)

answer_read_example :
    (parse_status missing ≡ some (pos 404))
    × (body_of missing ≡ codes "no\n\n")
    × (reason_of missing ≡ reason_for 404 (codes "Not Found"))
answer_read_example =
    answer_read 404 (codes "no\n\n") (codes "text/html") (codes "Not Found") (omega arith)
      (omega arith) (omega arith, omega arith) (omega arith, omega arith)

abbrev attempt : Attempt
attempt = record {
  opens = true;
  connects = true;
  sends = 20 ∷ 3 ∷ 0 ∷ [];
  receives = comes (codes "HTTP/1.1 2") ∷ [];
}

send_http_request-Settles_example :
    Settles attempt
      (client_text (codes "::1") 5950 (codes "GET") (codes "/") [])
      (send_http_request (λ a. true) attempt (codes "::1") 5950 (codes "GET") (codes "/") [])
send_http_request-Settles_example =
    send_http_request-Settles (λ a. true) attempt (codes "::1") 5950 (codes "GET") (codes "/") []

-- A network that brings one byte at a time.
abbrev bytewise : Bytes → List Arrival
bytewise [] = []
bytewise (c ∷ text) = comes (c ∷ []) ∷ bytewise text

bytewise-IsLive : (text : Bytes) → IsLive (bytewise text)
bytewise-IsLive [] = tt
bytewise-IsLive (c ∷ text) = ((λ e. cc), bytewise-IsLive text)

stream-bytewise : (text : Bytes) → stream (bytewise text) ≡ text
stream-bytewise [] = refl
stream-bytewise (c ∷ text) = ap (◌∷◌ c) (stream-bytewise text)

bytewise-Delivers : Delivers bytewise
bytewise-Delivers text = (bytewise-IsLive text, stream-bytewise text)

abbrev created : Bytes
created =
    (after_put memory_files start (codes "a.txt") (codes "Hi\n")
      (StaticFile.static_put memory_files start.files [] (codes "a.txt") (codes "Hi\n") true)).1

abbrev fetched : Bytes
fetched = make_response 200 (codes "Hi\n") (StaticFile.content_type_for (codes "a.txt")) []

abbrev sevens : List ℕ
sevens = replicate (length created + length fetched) 7

created-Takes : Takes (length created) sevens
created-Takes = let (a, h) = sevens-Takes (length created + length fetched) in (a, omega (arith, h))

fetched-Takes : Takes (length fetched) sevens
fetched-Takes = let (a, h) = sevens-Takes (length created + length fetched) in (a, omega (arith, h))

put-IsSized : IsSized (codes "::1") 5950 (codes "PUT") (codes "a.txt") (codes "Hi\n")
unfolding declared_length stoul Text.find Text.to_lower to_string
put-IsSized = (some 3, (λ b. refl), refl)

get-IsSized : IsSized (codes "::1") 5950 (codes "GET") (codes "a.txt") []
unfolding declared_length stoul Text.find Text.to_lower to_string
get-IsSized = (none, (λ b. refl), refl)

abbrev world : World memory_files {R = Server memory_files} (
    remote_server memory_files memory_files thousandths silent [] []
      (codes "::1")
      5950
      bytewise
      sevens)
world = record { remote = start; local = (codes "me.txt", codes "Hi\n") ∷ []; out = [] }

doc-IsName : IsName (codes "a.txt")
doc-IsName = record {
  ne_nil = λ e. cc;
  blankless = (refl, (refl, (refl, (refl, (refl, tt)))));
  no_query = omega arith;
}

me-IsTyped : IsTyped (codes "me.txt")
me-IsTyped = record {
  ne_nil = λ e. cc;
  blankless = (refl, (refl, (refl, (refl, (refl, (refl, tt))))));
}

put_reads : memory_files.read world.local (codes "me.txt") ≡ some (codes "Hi\n")
unfolding Map.find bytes_discrete ℕ_discrete
put_reads = refl

put_success :
    is_success
      (StaticFile.static_put memory_files start.files [] (codes "a.txt") (codes "Hi\n") true).1
    ≡ true
unfolding is_success bytes_discrete ℕ_discrete Map.find Map.modify StaticFile.static_put to_string
    StaticFile.put_response
put_success = refl

put_within :
    StaticFile.check_within_root memory_files
      (StaticFile.static_put memory_files start.files [] (codes "a.txt") (codes "Hi\n") true).0
      []
      (codes "a.txt")
    ≡ ok []
unfolding bytes_discrete ℕ_discrete Map.find Map.modify StaticFile.static_put
    StaticFile.check_within_root
put_within = refl

put_then_get_example :
    run_lines memory_files
      (remote_server memory_files memory_files thousandths silent [] []
        (codes "::1")
        5950
        bytewise
        sevens)
      (codes "put a.txt me.txt" ∷ codes "get a.txt" ∷ [])
      world
    ≡ record world {
      remote =
          uploaded memory_files memory_files thousandths silent [] []
            (codes "::1")
            5950
            bytewise
            sevens
            start
            (codes "a.txt")
            (codes "Hi\n");
      out = codes ">> OK\n>> Hi\n\n>> ";
    }
put_then_get_example =
    put_then_get memory_files memory_files thousandths silent [] [] (codes "::1") 5950 bytewise
      sevens world (codes "a.txt") (codes "me.txt") (codes "Hi\n") (omega arith, omega arith)
      doc-IsName me-IsTyped (memory_files-WritesBack (codes "a.txt")) put_reads (omega arith)
      bytewise-Delivers put-IsSized get-IsSized created-Takes fetched-Takes put_success put_within

-- Lines that make no request.
local_lines :
    (shell memory_files
      (remote_server memory_files memory_files thousandths silent [] []
        (codes "::1")
        5950
        bytewise
        sevens)
      (codes "\n sing\nget\nput x\nput x y\nquit\nget a\n")
      world).out
    ≡ help_text
      ++ codes
          ">> >> unknown command: sing (type help)\n>> get requires <server_path>\n>> put requires <server_path> <local_path>\n>> failed to open y\n>> "
unfolding shell read_word Text.lines bytes_discrete ℕ_discrete Map.find
local_lines = refl
