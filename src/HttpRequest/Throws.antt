-- ===== src/HttpRequest/Throws.antt =====
-- The requests at which `ParseRequest` throws because of a header line.
use semantic_search_engine.Base.{◌≡◌, ◌≢◌, ◌∙◌, List, [], ◌∷◌, ◌++◌, Bytes, arith, All, All-append}
use semantic_search_engine.Exception.{throws, out_of_range}
use semantic_search_engine.HttpResponse.{crlf}
use semantic_search_engine.Text.{lines}
use semantic_search_engine.Text.Lines.{Lacks}
use semantic_search_engine.HttpRequest.{Headers, header_lines, finish_request, parse_request}
use semantic_search_engine.HttpRequest.Headers.{header_line_throws, header_lines-append}
use semantic_search_engine.HttpRequest.RoundTrip.{header_lines-fields, parse-first_line}
use semantic_search_engine.HttpRequest.Written.{
  IsWord, IsField, first_line, fields_before, headers_of,
}

colon_line :
    (key rest : Bytes) (headers : Headers)
    → Lacks b':' key
    → Lacks 10 key
    → header_lines (lines 10 ((key ++ b':' ∷ []) ++ (crlf ++ rest))) headers ≡ throws out_of_range
colon_line [] rest headers hc hl =
    header_lines-append b':' [] rest headers (omega arith) ∙ rw (header_line_throws [] headers tt)
colon_line (c ∷ key) rest headers hc hl =
    header_lines-append c (key ++ b':' ∷ []) rest headers
      (All-append (λ x. x ≢ 10) (c ∷ key) (b':' ∷ []) hl (omega arith))
    ∙ rw (header_line_throws (c ∷ key) headers hc)

-- A header line that ends with its first colon, behind a proper first line and any proper fields,
-- makes `ParseRequest` throw `std::out_of_range`, whatever follows.
pub parse_colon_throws :
    (method target : Bytes) (fields : List (Bytes × Bytes)) (key rest : Bytes)
    → IsWord method
    → IsWord target
    → All IsField fields
    → Lacks b':' key
    → Lacks 10 key
    → parse_request (
        first_line method target
        ++ (crlf ++ fields_before fields ((key ++ b':' ∷ []) ++ (crlf ++ rest))))
      ≡ throws out_of_range
unfolding finish_request
parse_colon_throws method target fields key rest m t f hc hl =
    parse-first_line method target (fields_before fields ((key ++ b':' ∷ []) ++ (crlf ++ rest))) m t
    ∙ rw (
        header_lines-fields fields ((key ++ b':' ∷ []) ++ (crlf ++ rest)) [] f
        ∙ colon_line key rest (headers_of fields []) hc hl)
