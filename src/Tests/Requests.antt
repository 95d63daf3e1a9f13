-- ===== src/Tests/Requests.antt =====
-- Requests and responses, among them those of the repository's tests.
use semantic_search_engine.Base.{
  ◌≡◌, refl, true, [], ◌∷◌, ◌++◌, map, some, Bytes, codes, bytes_discrete, ℕ_discrete, arith,
}
use semantic_search_engine.Exception.{ok, throws, out_of_range, invalid_argument, ◌>>=◌}
use semantic_search_engine.HttpRequest.{parse_request, split_terms}
use semantic_search_engine.HttpRequest.RoundTrip.{parse-request_text, body_for}
use semantic_search_engine.HttpRequest.Written.{
  request_text, first_line, fields_before, headers_of, IsWord, IsField,
}
use semantic_search_engine.HttpRequest.Throws.{parse_colon_throws}
use semantic_search_engine.HttpRequest.Terms.{IsQueryWord, more_words, split_terms-words}
use semantic_search_engine.HttpResponse.{make_response, crlf}
use semantic_search_engine.HttpResponse.Framing.{body_after, body_after-make_response}
use semantic_search_engine.Map
use semantic_search_engine.Text
use semantic_search_engine.Text.{to_lower}
use semantic_search_engine.Text.Number.{to_string, stoul, stoul-to_string}

response :
    make_response 200 (codes "hello") (codes "text/plain") []
    ≡ codes "HTTP/1.1 200 OK\r\nContent-Type: text/plain\r\nContent-Length: 5\r\n\r\nhello"
unfolding make_response to_string
response = refl

request :
    parse_request (
      codes
        "POST /static/foo.txt?x HTTP/1.1\r\nHost: localhost:5950\r\nContent-Length: 5\r\n\r\nhello!")
    ≡ ok (record {
      method = codes "POST";
      path = codes "/static/foo.txt";
      query = codes "x";
      headers = (codes "host", codes "localhost:5950") ∷ (codes "content-length", codes "5") ∷ [];
      body = codes "hello";
    })
unfolding parse_request body_after stoul bytes_discrete ℕ_discrete Map.find Map.modify Text.find
    Text.find_char Text.substr Text.get_line Text.lines to_lower
request = refl

-- A header without a value, as "Host:", is enough.
empty_header : parse_request (codes "GET / HTTP/1.1\r\nHost:\r\n\r\n") ≡ throws out_of_range
unfolding parse_request body_after stoul bytes_discrete ℕ_discrete Map.find Map.modify Text.find
    Text.find_char Text.substr Text.get_line Text.lines to_lower
empty_header = refl

bad_length :
    parse_request (codes "GET / HTTP/1.1\r\nContent-Length: x\r\n\r\n") ≡ throws invalid_argument
unfolding parse_request body_after stoul bytes_discrete ℕ_discrete Map.find Map.modify Text.find
    Text.find_char Text.substr Text.get_line Text.lines to_lower
bad_length = refl

terms : split_terms (codes "terms=HELLO%20World+x") ≡ codes "hello" ∷ codes "world" ∷ codes "x" ∷ []
unfolding split_terms Text.find_char Text.lines to_lower
terms = refl

get-IsWord : IsWord (codes "GET")
get-IsWord = record { ne_nil = λ e. cc; no_space = omega arith; line = (omega arith, omega arith) }

target-IsWord : IsWord (codes "/a?q=x")
target-IsWord = record {
  ne_nil = λ e. cc;
  no_space = omega arith;
  line = (omega arith, omega arith);
}

abbrev length_field : Bytes × Bytes
length_field = (codes "Content-Length", codes "2")

length_field-IsField : IsField length_field
length_field-IsField = record {
  key_ne_nil = λ e. cc;
  key_colon = omega arith;
  key_line = (omega arith, omega arith);
  value_line = (omega arith, omega arith);
}

parse-request_text_example :
    parse_request (request_text (codes "GET") (codes "/a?q=x") (length_field ∷ []) (codes "hey"))
    ≡ (body_for
          (Map.find bytes_discrete (codes "content-length") (headers_of (length_field ∷ []) []))
          (codes "hey")
        >>= λ b. ok (record {
          method = codes "GET";
          path = codes "/a";
          query = codes "q=x";
          headers = headers_of (length_field ∷ []) [];
          body = b;
        }))
parse-request_text_example =
    parse-request_text (codes "GET") (codes "/a") (some (codes "q=x")) (length_field ∷ [])
      (codes "hey") get-IsWord (omega arith) target-IsWord (length_field-IsField, tt)

parse_colon_throws_example :
    parse_request (
      first_line (codes "GET") (codes "/a?q=x")
      ++ (crlf
          ++ fields_before (length_field ∷ []) ((codes "Host" ++ b':' ∷ []) ++ (crlf ++ crlf))))
    ≡ throws out_of_range
parse_colon_throws_example =
    parse_colon_throws (codes "GET") (codes "/a?q=x") (length_field ∷ []) (codes "Host") crlf
      get-IsWord target-IsWord (length_field-IsField, tt) (omega arith) (omega arith)

fox-IsQueryWord : IsQueryWord (codes "Fox")
fox-IsQueryWord = record { ne_nil = λ e. cc; no_plus = omega arith; no_percent = omega arith }

split_terms-words_example :
    split_terms (codes "terms" ++ b'=' ∷ (codes "Fox" ++ more_words ((true, codes "Fox") ∷ [])))
    ≡ map to_lower (codes "Fox") ∷ map to_lower (codes "Fox") ∷ []
split_terms-words_example =
    split_terms-words (codes "terms") (codes "Fox") ((true, codes "Fox") ∷ []) (omega arith)
      fox-IsQueryWord (fox-IsQueryWord, tt)

body_after-make_response_example :
    body_after (make_response 200 (codes "a\r\n\r\nb") (codes "text/html") (codes "Fine"))
    ≡ some (codes "a\r\n\r\nb")
body_after-make_response_example =
    body_after-make_response 200 (codes "a\r\n\r\nb") (codes "text/html") (codes "Fine")
      (omega arith) (omega arith)

stoul-to_string_example : stoul (to_string 1234 ++ codes "\r\n") ≡ ok 1234
stoul-to_string_example = stoul-to_string 1234 (codes "\r\n") (omega arith) refl
