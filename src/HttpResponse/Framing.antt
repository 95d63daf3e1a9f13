-- ===== src/HttpResponse/Framing.antt =====
-- Where the body of a message begins: behind the first blank line.
use semantic_search_engine.Base.{
  ℕ, suc, ◌+◌, ◌≡◌, ◌≢◌, refl, ap, ◌∙◌, true, false, [], ◌∷◌, ◌++◌, Option, none, some, Bytes,
  codes, arith, All, All-append, drop, length, if◌then◌else◌,
}
use semantic_search_engine.Text.{find, starts_with, is_digit, next_position}
use semantic_search_engine.Text.Number.{to_string, to_string-All}
use semantic_search_engine.HttpResponse.{
  make_response, default_reason, reason_for, status_line, blank_line, crlf,
}

-- `raw.substr(raw.find("\r\n\r\n") + 4)`, `none` where there is no blank line
abbrev pub behind : Bytes → Option ℕ → Option Bytes
behind raw none = none
behind raw (some i) = some (drop (i + 4) raw)

unfoldable pub body_after : Bytes → Option Bytes
body_after raw = behind raw (find blank_line raw)

-- The text holds no carriage return.
abbrev pub NoCr : Bytes → Type 0
NoCr = All (λ c. c ≢ 13)

behind_next : (c : ℕ) (s : Bytes) (r : Option ℕ) → behind (c ∷ s) (next_position r) ≡ behind s r
behind_next c s none = refl
behind_next c s (some i) = ap some (ap (λ n. drop n (c ∷ s)) (suc_four i))
  where
    suc_four : (n : ℕ) → suc n + 4 ≡ suc (n + 4)
    suc_four n = omega arith

body_after_next :
    (c : ℕ) (s : Bytes) → starts_with (c ∷ s) blank_line ≡ false → body_after (c ∷ s) ≡ body_after s
unfolding body_after find
body_after_next c s h =
    ap (behind (c ∷ s)) (ap (λ b. if b then some 0 else next_position (find blank_line s)) h)
    ∙ behind_next c s (find blank_line s)

-- A line that more text than a blank line follows is skipped.
pub body_after-line :
    (l : Bytes) (c : ℕ) (s : Bytes)
    → NoCr l
    → c ≢ 13
    → body_after (l ++ (crlf ++ c ∷ s)) ≡ body_after (c ∷ s)
unfolding starts_with
body_after-line [] c s h hc =
    body_after_next 13 (10 ∷ c ∷ s) (ground arith) ∙ body_after_next 10 (c ∷ s) (ground arith)
body_after-line (d ∷ l) c s (hd, h) hc =
    body_after_next d (l ++ (crlf ++ c ∷ s)) (ground arith) ∙ body_after-line l c s h hc

-- Behind the last line of the head comes the body.
pub body_after-head : (l s : Bytes) → NoCr l → body_after (l ++ (crlf ++ (crlf ++ s))) ≡ some s
body_after-head [] s h = unfold body_after find starts_with in refl
body_after-head (d ∷ l) s (hd, h) =
    body_after_next d (l ++ (crlf ++ (crlf ++ s))) (unfold starts_with in ground arith)
    ∙ body_after-head l s h

digits-NoCr : (s : Bytes) → All (λ c. is_digit c ≡ true) s → NoCr s
digits-NoCr [] h = tt
digits-NoCr (c ∷ s) (hc, h) = (ground arith, digits-NoCr s h)

pub to_string-NoCr : (n : ℕ) → NoCr (to_string n)
to_string-NoCr n = digits-NoCr (to_string n) (to_string-All n)

default_reason-NoCr : (status : ℕ) → NoCr (default_reason status)
unfolding default_reason
default_reason-NoCr status = ground arith

reason_for-NoCr : (status : ℕ) (text : Bytes) → NoCr text → NoCr (reason_for status text)
unfolding reason_for
reason_for-NoCr status [] h = default_reason-NoCr status
reason_for-NoCr status (c ∷ text) h = h

-- The first blank line of a response stands right before its body, whatever the body holds,
-- if the content type and the reason hold no carriage return.
pub body_after-make_response :
    (status : ℕ) (body content_type status_text : Bytes)
    → NoCr content_type
    → NoCr status_text
    → body_after (make_response status body content_type status_text) ≡ some body
unfolding make_response
body_after-make_response status body content_type status_text ht hr =
    body_after-line (status_line status (reason_for status status_text)) b'C' _
      (All-append (λ c. c ≢ 13) (codes "HTTP/1.1 ") _ (omega arith)
        (All-append (λ c. c ≢ 13) (to_string status) _ (to_string-NoCr status)
          (omega arith, reason_for-NoCr status status_text hr)))
      (omega arith)
    ∙ body_after-line (codes "Content-Type: " ++ content_type) b'C' _
        (All-append (λ c. c ≢ 13) (codes "Content-Type: ") content_type (omega arith) ht)
        (omega arith)
    ∙ body_after-head (codes "Content-Length: " ++ to_string (length body)) body (
        All-append (λ c. c ≢ 13) (codes "Content-Length: ") _ (omega arith)
          (to_string-NoCr (length body)))
