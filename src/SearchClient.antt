-- ===== src/SearchClient.antt =====
-- searchserver/searchclient.cpp, and here the request that `SendHttpRequest` writes.
pub mod Transport
pub mod Exchange
pub mod Answer
pub mod Answered
pub mod Shell
pub mod Main
pub mod Requests
use semantic_search_engine.Base.{
  ℕ, ◌≡◌, ◌≢◌, ◌<◌, ◌^◌, refl, ap, sym, ◌∙◌, List, [], ◌∷◌, ◌++◌, append_assoc, append-nil, Option,
  Bytes, codes, arith, length, All, All-append, bytes_discrete, ℕ_discrete, take, take-length,
}
use semantic_search_engine.Exception.{ok, ◌>>=◌}
use semantic_search_engine.HttpRequest.{Request, parse_request, split_target}
use semantic_search_engine.HttpRequest.RoundTrip.{
  parse-request_target, split_target-target_text, body_for,
}
use semantic_search_engine.HttpRequest.Written.{
  request_text, fields_text, headers_of, IsWord, IsField, IsLine, target_text,
}
use semantic_search_engine.HttpResponse.{crlf}
use semantic_search_engine.HttpResponse.Framing.{to_string-NoCr}
use semantic_search_engine.Map
use semantic_search_engine.Map.{get_or}
use semantic_search_engine.Text
use semantic_search_engine.Text.Lines.{Lacks}
use semantic_search_engine.Text.Number.{to_string, to_string-All, stoul, stoul-to_string}
use semantic_search_engine.VectorClient.Requests.{digits-Lacks, fixed-IsField}

-- the two lines that go with a body, in front of the rest
unfoldable pub length_lines : Bytes → Bytes → Bytes
length_lines [] rest = rest
length_lines (c ∷ body) rest =
    codes "Content-Length: "
    ++ (to_string (length (c ∷ body))
        ++ (codes "\r\nContent-Type: application/octet-stream\r\n" ++ rest))

-- The request of `SendHttpRequest`.
unfoldable pub client_text : Bytes → ℕ → Bytes → Bytes → Bytes → Bytes
unfolding length_lines
client_text host port method path body =
    method
    ++ b' '
      ∷ (path
          ++ (codes " HTTP/1.1\r\nHost: "
              ++ (host
                  ++ b':'
                    ∷ (to_string port
                        ++ (codes "\r\nUser-Agent: searchclient/1.0\r\n"
                            ++ length_lines body (codes "Connection: close\r\n\r\n" ++ body))))))

-- The headers that go with a body.
abbrev pub length_fields : Bytes → List (Bytes × Bytes) → List (Bytes × Bytes)
length_fields [] rest = rest
length_fields (c ∷ body) rest =
    (codes "Content-Length", to_string (length (c ∷ body)))
    ∷ (codes "Content-Type", codes "application/octet-stream")
    ∷ rest

abbrev pub client_fields : Bytes → ℕ → Bytes → List (Bytes × Bytes)
client_fields host port body =
    (codes "Host", host ++ b':' ∷ to_string port)
    ∷ (codes "User-Agent", codes "searchclient/1.0")
    ∷ length_fields body ((codes "Connection", codes "close") ∷ [])

host-fields_text :
    (host : Bytes) (port : ℕ) (body : Bytes)
    → codes " HTTP/1.1\r\nHost: "
        ++ (host
            ++ b':'
              ∷ (to_string port
                  ++ (codes "\r\nUser-Agent: searchclient/1.0\r\n"
                      ++ length_lines body (codes "Connection: close\r\n\r\n" ++ body))))
      ≡ codes " HTTP/1.1" ++ (crlf ++ fields_text (client_fields host port body) body)
unfolding length_lines
host-fields_text host port [] =
    ap (λ h. codes " HTTP/1.1\r\nHost: " ++ h) (sym (append_assoc host (b':' ∷ to_string port) _))
host-fields_text host port (c ∷ body) =
    ap (λ h. codes " HTTP/1.1\r\nHost: " ++ h) (sym (append_assoc host (b':' ∷ to_string port) _))

pub client_text-request_text :
    (host : Bytes) (port : ℕ) (method path body : Bytes)
    → client_text host port method path body
      ≡ request_text method path (client_fields host port body) body
unfolding client_text
client_text-request_text host port method path body =
    ap (λ s. method ++ b' ' ∷ (path ++ s)) (host-fields_text host port body)
    ∙ ap (λ s. method ++ b' ' ∷ s) (sym (append_assoc path (codes " HTTP/1.1") _))
    ∙ sym (append_assoc method (b' ' ∷ (path ++ codes " HTTP/1.1")) _)

number-IsLine : (n : ℕ) → IsLine (to_string n)
number-IsLine n = (to_string-NoCr n, digits-Lacks (to_string n) (to_string-All n))

host-IsField :
    (host : Bytes) (port : ℕ) → IsLine host → IsField (codes "Host", host ++ b':' ∷ to_string port)
host-IsField host port (cr, lf) =
    fixed-IsField (codes "Host") (host ++ b':' ∷ to_string port) (λ e. cc) (omega arith)
      (omega arith, omega arith)
      (
        All-append (λ c. c ≢ 13) host (b':' ∷ to_string port) cr
            (omega arith, (number-IsLine port).0),
        All-append (λ c. c ≢ 10) host (b':' ∷ to_string port) lf
            (omega arith, (number-IsLine port).1),
      )

fixed_lines-IsField :
    IsField (codes "User-Agent", codes "searchclient/1.0")
    × IsField (codes "Content-Type", codes "application/octet-stream")
    × IsField (codes "Connection", codes "close")
fixed_lines-IsField = (
  fixed-IsField (codes "User-Agent") (codes "searchclient/1.0") (λ e. cc) (omega arith)
      (omega arith, omega arith) (omega arith, omega arith),
  fixed-IsField (codes "Content-Type") (codes "application/octet-stream") (λ e. cc) (omega arith)
      (omega arith, omega arith) (omega arith, omega arith),
  fixed-IsField (codes "Connection") (codes "close") (λ e. cc) (omega arith)
      (omega arith, omega arith) (omega arith, omega arith),
)

pub client_fields-IsField :
    (host : Bytes) (port : ℕ) (body : Bytes)
    → IsLine host
    → All IsField (client_fields host port body)
client_fields-IsField host port [] h =
    (host-IsField host port h, (fixed_lines-IsField.0, (fixed_lines-IsField.2, tt)))
client_fields-IsField host port (c ∷ body) h = (
  host-IsField host port h,
  (
    fixed_lines-IsField.0,
    (
      fixed-IsField (codes "Content-Length") (to_string (length (c ∷ body))) (λ e. cc) (omega arith)
          (omega arith, omega arith) (number-IsLine (length (c ∷ body))),
      (fixed_lines-IsField.1, (fixed_lines-IsField.2, tt)),
    ),
  ),
)

client_body :
    (host : Bytes) (port : ℕ) (body : Bytes)
    → length body < 2 ^ 64
    → body_for
        (Map.find bytes_discrete
          (codes "content-length")
          (headers_of (client_fields host port body) []))
        body
      ≡ ok body
unfolding Map.find Map.modify bytes_discrete ℕ_discrete Text.to_lower
client_body host port [] small = refl
client_body host port (c ∷ body) small =
    ap (λ r. r >>= λ n. ok (take n (c ∷ body)))
      (ap stoul (sym (append-nil (to_string (length (c ∷ body)))))
        ∙ stoul-to_string (length (c ∷ body)) [] small tt)
    ∙ ap ok (take-length (c ∷ body))

-- The client's request, with its target as `ParseRequest` splits it.
pub parse-client_target :
    (host : Bytes) (port : ℕ) (method path body : Bytes)
    → IsLine host
    → IsWord method
    → IsWord path
    → length body < 2 ^ 64
    → parse_request (client_text host port method path body)
      ≡ ok (record {
        method = method;
        path = (split_target path).0;
        query = (split_target path).1;
        headers = headers_of (client_fields host port body) [];
        body = body;
      })
parse-client_target host port method path body h m p small =
    ap parse_request (client_text-request_text host port method path body)
    ∙ parse-request_target method path (client_fields host port body) body m p
        (client_fields-IsField host port body h)
    ∙ ap (λ r. r >>= λ b. ok (with_body b)) (client_body host port body small)
  where
    with_body : Bytes → Request
    with_body b = record {
      method = method;
      path = (split_target path).0;
      query = (split_target path).1;
      headers = headers_of (client_fields host port body) [];
      body = b;
    }

-- A request that the client writes is read by the server's parser as that method, the path up to
-- the first '?' of the target, the query behind that, and the body, with or without one, if the
-- host has no line break, the method and the target no space or line break, and the body's length
-- fits a `size_t`.
pub parse-client_text :
    (host : Bytes) (port : ℕ) (method path : Bytes) (query : Option Bytes) (body : Bytes)
    → IsLine host
    → IsWord method
    → Lacks b'?' path
    → IsWord (target_text path query)
    → length body < 2 ^ 64
    → parse_request (client_text host port method (target_text path query) body)
      ≡ ok (record {
        method = method;
        path = path;
        query = get_or [] query;
        headers = headers_of (client_fields host port body) [];
        body = body;
      })
parse-client_text host port method path query body h m q p small =
    parse-client_target host port method (target_text path query) body h m p small
    ∙ ap
        (λ t. ok (record {
          method = method;
          path = t.0;
          query = t.1;
          headers = headers_of (client_fields host port body) [];
          body = body;
        }))
        (split_target-target_text path query q)
