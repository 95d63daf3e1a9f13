-- ===== src/HttpRequest/Headers.antt =====
-- What one header line does: it sets its key, it is skipped, or `substr` throws.
use semantic_search_engine.Base.{
  ℕ, ◌≡◌, ◌≢◌, ap, sym, ◌∙◌, [], ◌∷◌, ◌++◌, map, Bytes, bytes_discrete, arith, take-append,
  append_assoc, All-append,
}
use semantic_search_engine.Exception.{ok, throws, out_of_range, ◌>>=◌}
use semantic_search_engine.Map.{modify}
use semantic_search_engine.Text.{to_lower, lines}
use semantic_search_engine.Text.Lines.{Lacks, lines-append}
use semantic_search_engine.Text.Search.{
  find_char-append, substr-append, substr_behind_end, back-append, pop_back-append,
}
use semantic_search_engine.HttpRequest.{Headers, strip_cr, header_line, header_lines}

-- the effect of a field on the headers
abbrev pub set_field : Bytes → Bytes → Headers → Headers
set_field key val = modify bytes_discrete (map to_lower key) (λ _. val) []

-- A field sets its key, in lower case. The byte behind the colon is dropped, whatever it is.
pub header_line_field :
    (key val : Bytes) (skipped : ℕ) (headers : Headers)
    → Lacks b':' key
    → header_line (key ++ b':' ∷ skipped ∷ val) headers ≡ ok (set_field key val headers)
unfolding header_line
header_line_field key val skipped headers h = rw (
  find_char-append b':' key (skipped ∷ val) h,
  header_line,
  substr-append key val b':' skipped,
  header_line,
  take-append key (b':' ∷ skipped ∷ val),
)

-- A line that ends with its first colon throws.
pub header_line_throws :
    (key : Bytes) (headers : Headers)
    → Lacks b':' key
    → header_line (key ++ b':' ∷ []) headers ≡ throws out_of_range
unfolding header_line
header_line_throws key headers h =
    rw (find_char-append b':' key [] h, header_line, substr_behind_end key b':')

strip_cr-append : (l : Bytes) → strip_cr (l ++ 13 ∷ []) ≡ l
unfolding strip_cr
strip_cr-append l = ground (arith, back-append l 13, pop_back-append l 13)

-- A line with "\r\n" behind it is one round of the loop.
pub header_lines-append :
    (c : ℕ) (l rest : Bytes) (headers : Headers)
    → Lacks 10 (c ∷ l)
    → header_lines (lines 10 ((c ∷ l) ++ 13 ∷ 10 ∷ rest)) headers
      ≡ (header_line (c ∷ l) headers >>= λ h. header_lines (lines 10 rest) h)
unfolding header_lines
header_lines-append c l rest headers h =
    ap (λ ls. header_lines ls headers) (lines_crlf c l rest h)
    ∙ rw (strip_cr-append (c ∷ l), header_lines)
  where
    lines_crlf :
        (d : ℕ) (k r : Bytes)
        → Lacks 10 (d ∷ k)
        → lines 10 ((d ∷ k) ++ 13 ∷ 10 ∷ r) ≡ ((d ∷ k) ++ 13 ∷ []) ∷ lines 10 r
    lines_crlf d k r hk =
        ap (lines 10) (sym (append_assoc (d ∷ k) (13 ∷ []) (10 ∷ r)))
        ∙ lines-append 10 ((d ∷ k) ++ 13 ∷ []) r
            (All-append (λ x. x ≢ 10) (d ∷ k) (13 ∷ []) hk (omega arith))

-- An empty line ends the loop, whatever stands behind it.
pub header_lines_end :
    (rest : Bytes) (headers : Headers)
    → header_lines (lines 10 (13 ∷ 10 ∷ rest)) headers ≡ ok headers
unfolding header_lines
header_lines_end rest headers =
    ap (λ ls. header_lines ls headers) (lines-append 10 (13 ∷ []) rest (omega arith))
    ∙ rw (strip_cr-append [], header_lines)
