-- ===== src/Tests/Network.antt =====
-- Connections that cut requests and responses into pieces.
use semantic_search_engine.Base.{
  ◌≡◌, ◌≢◌, refl, false, List, append-nil, [], ◌∷◌, ◌++◌, some, none, Option, ℕ, Bytes, codes,
  arith,
}
use semantic_search_engine.Exception.{ok, throws}
use semantic_search_engine.HttpRequest.{parse_request, split_target}
use semantic_search_engine.HttpRequest.Written.{IsWord, headers_of}
use semantic_search_engine.HttpResponse.{make_response, blank_line}
use semantic_search_engine.HttpServer.Chunks.{Declares, ReadsAll, read_raw_request_whole}
use semantic_search_engine.HttpServer.Reading.{declared_length, read_raw_request}
use semantic_search_engine.SearchClient.{client_text, client_fields, parse-client_text}
use semantic_search_engine.Socket.{Arrival, comes, interrupted, breaks}
use semantic_search_engine.Text
use semantic_search_engine.Text.Number.{to_string, stoul}
use semantic_search_engine.VectorClient.{
  read_response, post_text, sources_mark, parse_answer, parse_tsv, add_doc_body,
}
use semantic_search_engine.VectorClient.Requests.{post_fields, parse-post_text}
use semantic_search_engine.VectorClient.Rows.{
  sources_text, parse_answer-sources_text, rows_text, scored, parse_tsv-rows_text,
}
use semantic_search_engine.VectorClient.Responses.{read_response-make_response}

abbrev head : Bytes
head = codes "POST / HTTP/1.1\r\nContent-Length:  2\r\n\r\n"

-- The blank line and the body come in several pieces, one of them late.
abbrev pieces : List Arrival
pieces =
    comes (codes "POST / HT")
    ∷ interrupted false
    ∷ comes (codes "TP/1.1\r\nContent-Length:  2\r\n\r")
    ∷ comes (codes "\nh")
    ∷ comes (codes "i")
    ∷ []

head-Declares : Declares head (some 2)
unfolding declared_length stoul Text.find Text.to_lower
head-Declares b = refl

head_ends : Text.find blank_line head ≡ some 35
unfolding Text.find
head_ends = refl

-- The next request of the connection, which is left alone.
abbrev next_pieces : List Arrival
next_pieces = comes (codes "GET / HTTP/1.1") ∷ breaks ∷ []

read_raw_request_whole_example :
    ReadsAll (head ++ codes "hi") next_pieces (read_raw_request (pieces ++ next_pieces))
read_raw_request_whole_example =
    read_raw_request_whole pieces next_pieces head (codes "hi") 35 (some 2)
      ((λ e. cc), (refl, ((λ e. cc), ((λ e. cc), ((λ e. cc), tt))))) refl head_ends refl
      head-Declares refl

response_ne_nil : make_response 200 (codes "a\t0.5\n") (codes "text/plain") (codes "OK") ≢ []
unfolding make_response
response_ne_nil e = cc

read_response-make_response_example :
    read_response
      (comes (make_response 200 (codes "a\t0.5\n") (codes "text/plain") (codes "OK")) ∷ [])
    ≡ codes "a\t0.5\n"
read_response-make_response_example =
    read_response-make_response
      (comes (make_response 200 (codes "a\t0.5\n") (codes "text/plain") (codes "OK")) ∷ []) 200
      (codes "a\t0.5\n") (codes "text/plain") (codes "OK") (response_ne_nil, tt) (append-nil _)
      (omega arith) (omega arith)

path-IsWord : IsWord (codes "/search")
path-IsWord = record { ne_nil = λ e. cc; no_space = omega arith; line = (omega arith, omega arith) }

parse-post_text_example :
    parse_request (post_text (codes "/search") (codes "{}"))
    ≡ ok (record {
      method = codes "POST";
      path = (split_target (codes "/search")).0;
      query = (split_target (codes "/search")).1;
      headers = headers_of (post_fields (codes "{}")) [];
      body = codes "{}";
    })
parse-post_text_example = parse-post_text (codes "/search") (codes "{}") path-IsWord (omega arith)

answer :
    parse_answer (codes "Yes.\n---SOURCES---\na.txt\n\nb.txt\n")
    ≡ (codes "Yes.", codes "a.txt" ∷ codes "b.txt" ∷ [])
unfolding parse_answer Text.find Text.lines
answer = refl

rows :
    parse_tsv some (codes "a.txt\t1\nnone\nb\t2")
    ≡ (codes "a.txt", codes "1") ∷ (codes "b", codes "2") ∷ []
unfolding parse_tsv Text.find_char Text.lines
rows = refl

document : add_doc_body (codes "a") (codes "x\ty") ≡ codes "{\"id\":\"a\",\"text\":\"x\\ty\"}"
unfolding add_doc_body
document = refl

put-IsWord : IsWord (codes "PUT")
put-IsWord = record { ne_nil = λ e. cc; no_space = omega arith; line = (omega arith, omega arith) }

parse-client_text_example :
    parse_request (client_text (codes "::1") 5950 (codes "PUT") (codes "/search") (codes "new"))
    ≡ ok (record {
      method = codes "PUT";
      path = codes "/search";
      query = [];
      headers = headers_of (client_fields (codes "::1") 5950 (codes "new")) [];
      body = codes "new";
    })
parse-client_text_example =
    parse-client_text (codes "::1") 5950 (codes "PUT") (codes "/search") none (codes "new")
      (omega arith, omega arith) put-IsWord (omega arith) path-IsWord (omega arith)

deletion :
    client_text (codes "::1") 5950 (codes "DELETE") (codes "/static/a.txt") []
    ≡ codes
        "DELETE /static/a.txt HTTP/1.1\r\nHost: ::1:5950\r\nUser-Agent: searchclient/1.0\r\nConnection: close\r\n\r\n"
unfolding client_text to_string
deletion = refl

-- A reading of numbers, in place of that of floats.
abbrev stoul_some : Bytes → Option ℕ
stoul_some text = elim (stoul text) [ ok n ↦ some n | throws e ↦ none ]

parse_tsv-rows_text_example :
    parse_tsv stoul_some (rows_text ((codes "a.txt", codes "12") ∷ (codes "b c", codes "x") ∷ []))
    ≡ scored stoul_some ((codes "a.txt", codes "12") ∷ (codes "b c", codes "x") ∷ [])
parse_tsv-rows_text_example =
    parse_tsv-rows_text stoul_some ((codes "a.txt", codes "12") ∷ (codes "b c", codes "x") ∷ []) (
      record { no_tab = omega arith; doc_line = omega arith; score_line = omega arith },
      (record { no_tab = omega arith; doc_line = omega arith; score_line = omega arith }, tt),
    )

mark_first : Text.find sources_mark (codes "Yes." ++ sources_mark) ≡ some 4
unfolding Text.find
mark_first = refl

parse_answer-sources_text_example :
    parse_answer (codes "Yes." ++ (sources_mark ++ sources_text (codes "a.txt" ∷ codes "b" ∷ [])))
    ≡ (codes "Yes.", codes "a.txt" ∷ codes "b" ∷ [])
parse_answer-sources_text_example =
    parse_answer-sources_text (codes "Yes.") (codes "a.txt" ∷ codes "b" ∷ []) mark_first
      (((λ e. cc), omega arith), (((λ e. cc), omega arith), tt))
