-- ===== src/VectorClient/Requests.antt =====
-- The requests of the client are well formed.
use semantic_search_engine.Base.{
  ◌≡◌, ◌≢◌, refl, ap, ◌∙◌, true, List, [], ◌∷◌, ◌++◌, append_assoc, some, Bytes, codes, arith,
  length, All, bytes_discrete, ℕ_discrete, take-length, sym, append-nil, take, ◌<◌, ◌^◌,
}
use semantic_search_engine.Exception.{ok, ◌>>=◌}
use semantic_search_engine.HttpRequest.{Request, parse_request, split_target}
use semantic_search_engine.HttpRequest.RoundTrip.{parse-request_target, body_for}
use semantic_search_engine.HttpRequest.Written.{request_text, headers_of, IsWord, IsField, IsLine}
use semantic_search_engine.HttpServer.Escapes.{json_str, json_byte}
use semantic_search_engine.HttpResponse.Framing.{to_string-NoCr}
use semantic_search_engine.Map
use semantic_search_engine.Text
use semantic_search_engine.Text.{is_digit}
use semantic_search_engine.Text.Lines.{Lacks}
use semantic_search_engine.Text.Number.{to_string, to_string-All, stoul, stoul-to_string}
use semantic_search_engine.VectorClient.{post_text, json_escape, escape_byte}

-- The client and the server escape strings in the same way.
json_escape-json_str : (s : Bytes) → json_escape s ≡ json_str s
unfolding json_escape json_str escape_byte json_byte
json_escape-json_str [] = refl
json_escape-json_str (c ∷ s) = ap (λ x. json_byte c ++ x) (json_escape-json_str s)

-- The headers of a POST.
abbrev pub post_fields : Bytes → List (Bytes × Bytes)
post_fields json_body =
    (codes "Host", codes "localhost")
    ∷ (codes "Content-Type", codes "application/json")
    ∷ (codes "Content-Length", to_string (length json_body))
    ∷ (codes "Connection", codes "close")
    ∷ []

post_text-request_text :
    (path json_body : Bytes)
    → post_text path json_body ≡ request_text (codes "POST") path (post_fields json_body) json_body
unfolding post_text
post_text-request_text path json_body =
    ap (λ s. codes "POST " ++ s)
      (sym (
        append_assoc path (codes " HTTP/1.1") (
          codes "\r\nHost: localhost\r\nContent-Type: application/json\r\nContent-Length: "
          ++ (to_string (length json_body)
              ++ (codes "\r\nConnection: close\r\n\r\n" ++ json_body)))))

pub digits-Lacks : (s : Bytes) → All (λ c. is_digit c ≡ true) s → Lacks 10 s
digits-Lacks [] h = tt
digits-Lacks (c ∷ s) (hc, h) = (ground arith, digits-Lacks s h)

pub fixed-IsField :
    (key val : Bytes) → key ≢ [] → Lacks b':' key → IsLine key → IsLine val → IsField (key, val)
fixed-IsField key val a b c d = record {
  key_ne_nil = a;
  key_colon = b;
  key_line = c;
  value_line = d;
}

post_fields-IsField : (json_body : Bytes) → All IsField (post_fields json_body)
post_fields-IsField json_body = (host, (content_type, (content_length, (connection, tt))))
  where
    host : IsField (codes "Host", codes "localhost")
    host =
        fixed-IsField (codes "Host") (codes "localhost") (λ e. cc) (omega arith)
          (omega arith, omega arith) (omega arith, omega arith)

    content_type : IsField (codes "Content-Type", codes "application/json")
    content_type =
        fixed-IsField (codes "Content-Type") (codes "application/json") (λ e. cc) (omega arith)
          (omega arith, omega arith) (omega arith, omega arith)

    content_length : IsField (codes "Content-Length", to_string (length json_body))
    content_length =
        fixed-IsField (codes "Content-Length") (to_string (length json_body)) (λ e. cc)
          (omega arith) (omega arith, omega arith)
          (to_string-NoCr (length json_body), digits-Lacks _ (to_string-All (length json_body)))

    connection : IsField (codes "Connection", codes "close")
    connection =
        fixed-IsField (codes "Connection") (codes "close") (λ e. cc) (omega arith)
          (omega arith, omega arith) (omega arith, omega arith)

declared :
    (json_body : Bytes)
    → Map.find bytes_discrete (codes "content-length") (headers_of (post_fields json_body) [])
      ≡ some (to_string (length json_body))
unfolding Map.find Map.modify bytes_discrete ℕ_discrete Text.to_lower
declared json_body = refl

post-IsWord : IsWord (codes "POST")
post-IsWord = record { ne_nil = λ e. cc; no_space = omega arith; line = (omega arith, omega arith) }

-- What a POST of the client says to a server that parses requests as this program does: the method,
-- the target, the headers and the whole JSON body, if the target has no space or line break and
-- the length fits a `size_t`.
pub parse-post_text :
    (path json_body : Bytes)
    → IsWord path
    → length json_body < 2 ^ 64
    → parse_request (post_text path json_body)
      ≡ ok (record {
        method = codes "POST";
        path = (split_target path).0;
        query = (split_target path).1;
        headers = headers_of (post_fields json_body) [];
        body = json_body;
      })
parse-post_text path json_body p small =
    ap parse_request (post_text-request_text path json_body)
    ∙ parse-request_target (codes "POST") path (post_fields json_body) json_body post-IsWord p
        (post_fields-IsField json_body)
    ∙ ap (λ r. r >>= λ b. ok (with_body b))
        (ap (λ o. body_for o json_body) (declared json_body)
          ∙ ap (λ r. r >>= λ n. ok (take n json_body))
              (ap stoul (sym (append-nil (to_string (length json_body))))
                ∙ stoul-to_string (length json_body) [] small tt)
          ∙ ap ok (take-length json_body))
  where
    with_body : Bytes → Request
    with_body b = record {
      method = codes "POST";
      path = (split_target path).0;
      query = (split_target path).1;
      headers = headers_of (post_fields json_body) [];
      body = b;
    }
