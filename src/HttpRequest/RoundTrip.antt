-- ===== src/HttpRequest/RoundTrip.antt =====
-- `ParseRequest` on a request that is written the way HTTP clients write one.
use semantic_search_engine.Base.{
  ℕ, ◌≡◌, ◌≢◌, refl, ap, sym, ◌∙◌, List, [], ◌∷◌, ◌++◌, Option, none, some, Bytes, codes,
  bytes_discrete, arith, ◌<◌, take, drop, suc, length, take-append, append_assoc, All, All-append,
}
use semantic_search_engine.Exception.{Result, ok, ◌>>=◌}
use semantic_search_engine.HttpResponse.{crlf}
use semantic_search_engine.HttpResponse.Framing.{NoCr, body_after, body_after-line, body_after-head}
use semantic_search_engine.Map.{find, get_or}
use semantic_search_engine.Text.{lines}
use semantic_search_engine.Text.Lines.{Lacks, get_line-append}
use semantic_search_engine.Text.Search.{find_char-Lacks, find_char-append}
use semantic_search_engine.Text.Number.{stoul}
use semantic_search_engine.HttpRequest.{
  Request, Headers, header_lines, request_body, sized_body, cut_body, finish_request, with_target,
  parse_request, split_target, read_line,
}
use semantic_search_engine.HttpRequest.Written.{
  fields_before, fields_text, first_line, request_text, headers_of, IsField, IsWord, target_text,
}
use semantic_search_engine.HttpRequest.Headers.{
  set_field, header_line_field, header_lines-append, header_lines_end,
}

field_line-All :
    (b : ℕ) (key val : Bytes)
    → b ≢ b':'
    → b ≢ b' '
    → Lacks b key
    → Lacks b val
    → Lacks b (key ++ b':' ∷ b' ' ∷ val)
field_line-All b key val hc hs hk hv =
    All-append (λ c. c ≢ b) key (b':' ∷ b' ' ∷ val) hk ((λ e. hc (sym e)), ((λ e. hs (sym e)), hv))

pub header_lines-fields :
    (fields : List (Bytes × Bytes)) (rest : Bytes) (headers : Headers)
    → All IsField fields
    → header_lines (lines 10 (fields_before fields rest)) headers
      ≡ header_lines (lines 10 rest) (headers_of fields headers)
header_lines-fields [] rest headers h = refl
header_lines-fields (([], val) ∷ fields) rest headers (f, h) = absurd (f.key_ne_nil refl)
header_lines-fields ((c ∷ key, val) ∷ fields) rest headers (f, h) =
    header_lines-append c (key ++ b':' ∷ b' ' ∷ val) (fields_before fields rest) headers
      (field_line-All 10 (c ∷ key) val (omega arith) (omega arith) f.key_line.1 f.value_line.1)
    ∙ rw (header_line_field (c ∷ key) val b' ' headers f.key_colon)
        (header_lines-fields fields rest (set_field (c ∷ key) val headers) h)

pub body_after-fields :
    (l : Bytes) (fields : List (Bytes × Bytes)) (body : Bytes)
    → NoCr l
    → All IsField fields
    → body_after (l ++ (crlf ++ fields_text fields body)) ≡ some body
body_after-fields l [] body hl h = body_after-head l body hl
body_after-fields l (([], val) ∷ fields) body hl (f, h) = absurd (f.key_ne_nil refl)
body_after-fields l ((c ∷ key, val) ∷ fields) body hl (f, h) =
    body_after-line l c _ hl f.key_line.0.0
    ∙ body_after-fields (c ∷ (key ++ b':' ∷ b' ' ∷ val)) fields body
        (field_line-All 13 (c ∷ key) val (omega arith) (omega arith) f.key_line.0 f.value_line.0) h

read_line-append :
    (sep : ℕ) (l rest : Bytes) → Lacks sep l → read_line sep (l ++ sep ∷ rest) ≡ (l, rest)
read_line-append sep l rest h = ap (λ r. get_or ([], []) r) (get_line-append sep l rest h)

parse-words :
    (raw fl rest m r t r' : Bytes)
    → read_line 10 raw ≡ (fl, rest)
    → read_line b' ' fl ≡ (m, r)
    → read_line b' ' r ≡ (t, r')
    → parse_request raw ≡ with_target raw m t rest
unfolding parse_request
parse-words raw fl rest m r t r' e1 e2 e3 =
    ap (λ x. with_target raw (read_line b' ' x.0).0 (read_line b' ' (read_line b' ' x.0).1).0 x.1)
      e1
    ∙ ap (λ x. with_target raw x.0 (read_line b' ' x.1).0 rest) e2
    ∙ ap (λ x. with_target raw m x.0 rest) e3

-- what `ParseRequest` sees as the version
abbrev version : Bytes
version = codes "HTTP/1.1" ++ 13 ∷ []

first_line-cr :
    (method target : Bytes)
    → first_line method target ++ 13 ∷ [] ≡ method ++ b' ' ∷ (target ++ b' ' ∷ version)
first_line-cr method target =
    append_assoc method (b' ' ∷ (target ++ b' ' ∷ codes "HTTP/1.1")) (13 ∷ [])
    ∙ ap (λ s. method ++ b' ' ∷ s) (append_assoc target (b' ' ∷ codes "HTTP/1.1") (13 ∷ []))

pub first_line-All :
    (b : ℕ) (method target : Bytes)
    → b < 32
    → Lacks b method
    → Lacks b target
    → Lacks b (first_line method target)
first_line-All b method target small hm ht =
    All-append (λ c. c ≢ b) method _ hm
      (omega arith, All-append (λ c. c ≢ b) target _ ht (omega arith))

-- `ParseRequest` up to the headers.
pub parse-first_line :
    (method target rest : Bytes)
    → IsWord method
    → IsWord target
    → parse_request (first_line method target ++ (crlf ++ rest))
      ≡ finish_request (first_line method target ++ (crlf ++ rest)) method target rest
parse-first_line [] target rest m t = absurd (m.ne_nil refl)
parse-first_line (c ∷ method) [] rest m t = absurd (t.ne_nil refl)
parse-first_line (c ∷ method) (d ∷ target) rest m t =
    parse-words _ (first_line (c ∷ method) (d ∷ target) ++ 13 ∷ []) rest (c ∷ method)
      ((d ∷ target) ++ b' ' ∷ version) (d ∷ target) version
      (ap (read_line 10) (sym (append_assoc (first_line (c ∷ method) (d ∷ target)) (13 ∷ []) _))
        ∙ read_line-append 10 _ _ (
            All-append (λ x. x ≢ 10) (first_line (c ∷ method) (d ∷ target)) (13 ∷ [])
              (first_line-All 10 (c ∷ method) (d ∷ target) (omega arith) m.line.1 t.line.1)
              (omega arith)))
      (ap (read_line b' ') (first_line-cr (c ∷ method) (d ∷ target))
        ∙ read_line-append b' ' (c ∷ method) _ m.no_space)
      (read_line-append b' ' (d ∷ target) version t.no_space)
    ∙ unfold with_target in refl

-- What the headers make of the bytes behind the blank line: none of them without a
-- "content-length", else as many as it says.
abbrev pub body_for : Option Bytes → Bytes → Result Bytes
body_for none body = ok []
body_for (some val) body = stoul val >>= λ n. ok (take n body)

sized_body-body_for :
    (o : Option Bytes) (raw body : Bytes)
    → body_after raw ≡ some body
    → sized_body o raw ≡ body_for o body
unfolding sized_body
sized_body-body_for none raw body e = refl
sized_body-body_for (some val) raw body e = ap (λ r. stoul val >>= λ n. ok (cut_body n r)) e

-- The request, with its target as `ParseRequest` splits it.
pub parse-request_target :
    (method target : Bytes) (fields : List (Bytes × Bytes)) (body : Bytes)
    → IsWord method
    → IsWord target
    → All IsField fields
    → parse_request (request_text method target fields body) ≡ (
        body_for (find bytes_discrete (codes "content-length") (headers_of fields [])) body >>= λ b.
        ok (record {
          method = method;
          path = (split_target target).0;
          query = (split_target target).1;
          headers = headers_of fields [];
          body = b;
        }))
unfolding finish_request request_body
parse-request_target method target fields body m t f =
    parse-first_line method target (fields_text fields body) m t
    ∙ rw
        (header_lines-fields fields (crlf ++ body) [] f
          ∙ header_lines_end body (headers_of fields []))
        (ap (λ r. r >>= λ b. ok (request_with b))
          (sized_body-body_for (find bytes_discrete (codes "content-length") (headers_of fields []))
            (request_text method target fields body) body
            (body_after-fields (first_line method target) fields body
              (first_line-All 13 method target (omega arith) m.line.0 t.line.0) f)))
  where
    request_with : Bytes → Request
    request_with b = record {
      method = method;
      path = (split_target target).0;
      query = (split_target target).1;
      headers = headers_of fields [];
      body = b;
    }

drop_behind : (path query : Bytes) → drop (suc (length path)) (path ++ b'?' ∷ query) ≡ query
drop_behind [] query = refl
drop_behind (c ∷ path) query = drop_behind path query

pub split_target-target_text :
    (path : Bytes) (query : Option Bytes)
    → Lacks b'?' path
    → split_target (target_text path query) ≡ (path, get_or [] query)
unfolding split_target
split_target-target_text path none h = rw (split_target, find_char-Lacks b'?' path h) refl
split_target-target_text path (some query) h =
    rw
      (
        split_target,
        find_char-append b'?' path query h,
        take-append path (b'?' ∷ query),
        drop_behind path query,
      )
      refl

-- A request with a proper first line and proper fields is parsed into its method, its path up to
-- the first '?' of the target, the query behind that, its fields by lower-case keys, and the part
-- of the body that "content-length" names (none without that field). It throws only where
-- `std::stoul` does, that is, where that value begins with no number or with one of 2^64 or more.
pub parse-request_text :
    (method path : Bytes) (query : Option Bytes) (fields : List (Bytes × Bytes)) (body : Bytes)
    → IsWord method
    → Lacks b'?' path
    → IsWord (target_text path query)
    → All IsField fields
    → parse_request (request_text method (target_text path query) fields body) ≡ (
        body_for (find bytes_discrete (codes "content-length") (headers_of fields [])) body >>= λ b.
        ok (record {
          method = method;
          path = path;
          query = get_or [] query;
          headers = headers_of fields [];
          body = b;
        }))
parse-request_text method path query fields body m h t f =
    parse-request_target method (target_text path query) fields body m t f
    ∙ ap
        (λ x.
          body_for (find bytes_discrete (codes "content-length") (headers_of fields [])) body
          >>= λ b. ok (record {
            method = method;
            path = x.0;
            query = x.1;
            headers = headers_of fields [];
            body = b;
          }))
        (split_target-target_text path query h)
