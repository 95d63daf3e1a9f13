-- ===== src/SearchClient/Answered.antt =====
-- The client's reading of a response against `MakeResponse`.
use semantic_search_engine.Base.{
  ℕ, ◌≡◌, ◌≢◌, ◌<◌, ◌^◌, refl, ap, sym, ◌∙◌, true, [], ◌∷◌, ◌++◌, append_assoc, Option, none, some,
  Bytes, codes, arith, length, All, All-append, Option-cases, inl, inr,
}
use semantic_search_engine.HttpRequest.Written.{IsLine}
use semantic_search_engine.HttpResponse.{
  make_response, default_reason, reason_for, blank_line, crlf,
}
use semantic_search_engine.HttpResponse.Framing.{NoCr, behind, body_after, body_after-make_response}
use semantic_search_engine.Text.{find, get_line, is_digit}
use semantic_search_engine.Text.Integer.{pos, read_int, read_int-to_string}
use semantic_search_engine.Text.Lines.{Lacks, get_line-append}
use semantic_search_engine.Text.Number.{to_string, to_string-All, to_string-value}
use semantic_search_engine.Text.Words.{read_word, IsBlankless, read_word-append, read_word-space}
use semantic_search_engine.VectorClient.Requests.{digits-Lacks}
use semantic_search_engine.SearchClient.Answer.{
  parse_status, body_of, trim_front, trim_back, reason_of,
}

-- The phrase does not begin with a blank or a tab.
abbrev pub StartsPlain : Bytes → Type 0
StartsPlain [] = Unit
StartsPlain (c ∷ s) = (c ≢ b' ') × (c ≢ 9)

default_reason-Plain :
    (status : ℕ) → StartsPlain (default_reason status) × IsLine (default_reason status)
unfolding default_reason
default_reason-Plain status = ground arith

reason_for-Plain :
    (status : ℕ) (text : Bytes)
    → StartsPlain text × IsLine text
    → StartsPlain (reason_for status text) × IsLine (reason_for status text)
unfolding reason_for
reason_for-Plain status [] h = default_reason-Plain status
reason_for-Plain status (c ∷ text) h = h

digits-Blankless : (s : Bytes) → All (λ c. is_digit c ≡ true) s → IsBlankless s
digits-Blankless [] h = tt
digits-Blankless (c ∷ s) (hc, h) = (ground arith, digits-Blankless s h)

to_string-ne-nil : (n : ℕ) → to_string n ≢ []
to_string-ne-nil n e = let (c, t, p, h, v) = to_string-value n [] tt in cc (e, p)

trim_front-Plain : (s : Bytes) → StartsPlain s → trim_front (s ++ 13 ∷ []) ≡ s ++ 13 ∷ []
unfolding trim_front
trim_front-Plain [] h = refl
trim_front-Plain (c ∷ s) h = ground arith

trim_back-line : (s : Bytes) → IsLine s → trim_back (s ++ 13 ∷ []) ≡ s
unfolding trim_back
trim_back-line [] h = refl
trim_back-line (c ∷ []) h = ground arith
trim_back-line (c ∷ d ∷ s) ((hc, h), (kc, k)) = rw (trim_back-line (d ∷ s) (h, k)) refl

-- The head of a response, up to the end of its first line.
abbrev first : ℕ → Bytes → Bytes
first status reason = codes "HTTP/1.1" ++ b' ' ∷ (to_string status ++ b' ' ∷ (reason ++ 13 ∷ []))

first-Lacks : (status : ℕ) (reason : Bytes) → Lacks 10 reason → Lacks 10 (first status reason)
first-Lacks status reason h =
    All-append (λ c. c ≢ 10) (codes "HTTP/1.1 ") _ (omega arith)
      (All-append (λ c. c ≢ 10) (to_string status) _
        (digits-Lacks (to_string status) (to_string-All status))
        (omega arith, All-append (λ c. c ≢ 10) reason (13 ∷ []) h (omega arith, tt)))

-- The rest of a response.
abbrev later : Bytes → Bytes → Bytes
later body content_type =
    (codes "Content-Type: " ++ content_type)
    ++ (crlf ++ ((codes "Content-Length: " ++ to_string (length body)) ++ (crlf ++ (crlf ++ body))))

first_line_of :
    (status : ℕ) (body content_type text : Bytes)
    → make_response status body content_type text
      ≡ first status (reason_for status text) ++ 10 ∷ later body content_type
unfolding make_response
first_line_of status body content_type text =
    ap (λ s. codes "HTTP/1.1 " ++ s)
      (append_assoc (to_string status) (b' ' ∷ reason_for status text) _
        ∙ ap (λ s. to_string status ++ b' ' ∷ s)
            (sym (append_assoc (reason_for status text) (13 ∷ []) (10 ∷ later body content_type)))
        ∙ sym (
            append_assoc (to_string status) (b' ' ∷ (reason_for status text ++ 13 ∷ []))
              (10 ∷ later body content_type)))

read_version :
    (rest : Bytes) → read_word (codes "HTTP/1.1" ++ b' ' ∷ rest) ≡ (codes "HTTP/1.1", b' ' ∷ rest)
read_version rest =
    read_word-append (codes "HTTP/1.1") (b' ' ∷ rest) (λ e. cc)
      (refl, (refl, (refl, (refl, (refl, (refl, (refl, (refl, tt)))))))) refl

status_of_line :
    (status : ℕ) (reason : Bytes)
    → status < 2 ^ 31
    → read_int (read_word (first status reason)).1 ≡ some (pos status)
status_of_line status reason h =
    ap (λ x. read_int x.1) (read_version (to_string status ++ b' ' ∷ (reason ++ 13 ∷ [])))
    ∙ read_int-to_string b' ' status (b' ' ∷ (reason ++ 13 ∷ [])) refl h refl

parse_status-make_response :
    (status : ℕ) (body content_type text : Bytes)
    → status < 2 ^ 31
    → Lacks 10 (reason_for status text)
    → parse_status (make_response status body content_type text) ≡ some (pos status)
unfolding parse_status
parse_status-make_response status body content_type text h lacks =
    ap parse_status (first_line_of status body content_type text)
    ∙ rw
        (
          parse_status,
          get_line-append 10 (first status (reason_for status text)) (later body content_type)
              (first-Lacks status (reason_for status text) lacks),
        )
        (status_of_line status (reason_for status text) h)

body_of-body_after : (s body : Bytes) → body_after s ≡ some body → body_of s ≡ body
unfolding body_of body_after
body_of-body_after s body h = elim (Option-cases (find blank_line s)) [
  | inl e ↦ cc (ap (behind s) e, h)
  | inr (i, e) ↦ rw (body_of, e) (drop_some (sym (ap (behind s) e) ∙ h))
]
  where
    drop_some : {a b : Bytes} → some a ≡ some b → a ≡ b
    drop_some e = cc

-- Two words are read, and the rest of the line behind them.
second_word :
    (status : ℕ) (rest : Bytes)
    → (read_word (read_word (codes "HTTP/1.1" ++ b' ' ∷ (to_string status ++ b' ' ∷ rest))).1).1
      ≡ b' ' ∷ rest
second_word status rest =
    ap (λ x. (read_word x.1).1) (read_version (to_string status ++ b' ' ∷ rest))
    ∙ ap (λ x. x.1) (read_word-space b' ' (to_string status ++ b' ' ∷ rest) refl)
    ∙ ap (λ x. x.1)
        (read_word-append (to_string status) (b' ' ∷ rest) (to_string-ne-nil status)
          (digits-Blankless (to_string status) (to_string-All status)) refl)

-- What `reason_of` makes of the line behind two words.
abbrev trimmed : Option (Bytes × Bytes) → Bytes
trimmed line = trim_back (trim_front (elim line [ none ↦ [] | some (reason, rest) ↦ reason ]))

front_blank : (s : Bytes) → trim_front (b' ' ∷ s) ≡ trim_front s
unfolding trim_front
front_blank s = refl

reason_of-words :
    (s rest : Bytes)
    → (read_word (read_word s).1).1 ≡ rest
    → reason_of s ≡ trimmed (get_line 10 rest)
unfolding reason_of
reason_of-words s rest e = ap (λ x. trimmed (get_line 10 x)) e

reason_of-make_response :
    (status : ℕ) (body content_type text : Bytes)
    → StartsPlain (reason_for status text)
    → IsLine (reason_for status text)
    → reason_of (make_response status body content_type text) ≡ reason_for status text
reason_of-make_response status body content_type text plain line =
    let reason = reason_for status text in
    ap reason_of (first_line_of status body content_type text)
    ∙ ap reason_of (
        append_assoc (codes "HTTP/1.1 ") (to_string status ++ b' ' ∷ (reason ++ 13 ∷ [])) _
        ∙ ap (λ s. codes "HTTP/1.1 " ++ s)
            (append_assoc (to_string status) (b' ' ∷ (reason ++ 13 ∷ [])) _))
    ∙ reason_of-words
        (codes "HTTP/1.1"
          ++ b' '
            ∷ (to_string status ++ b' ' ∷ ((reason ++ 13 ∷ []) ++ 10 ∷ later body content_type)))
        (b' ' ∷ ((reason ++ 13 ∷ []) ++ 10 ∷ later body content_type))
        (second_word status ((reason ++ 13 ∷ []) ++ 10 ∷ later body content_type))
    ∙ ap trimmed (
        get_line-append 10 (b' ' ∷ (reason ++ 13 ∷ [])) (later body content_type)
          (omega arith, All-append (λ c. c ≢ 10) reason (13 ∷ []) line.1 (omega arith, tt)))
    ∙ ap trim_back (front_blank (reason ++ 13 ∷ []) ∙ trim_front-Plain reason plain)
    ∙ trim_back-line reason line

-- The client reads the status, the body and the reason phrase of a response of the server as the
-- server wrote them, if the status fits an `int`, the content type holds no carriage return, and
-- the reason that is given is one line that begins with no blank and no tab.
pub answer_read :
    (status : ℕ) (body content_type text : Bytes)
    → status < 2 ^ 31
    → NoCr content_type
    → IsLine text
    → StartsPlain text
    → (parse_status (make_response status body content_type text) ≡ some (pos status))
      × (body_of (make_response status body content_type text) ≡ body)
      × (reason_of (make_response status body content_type text) ≡ reason_for status text)
answer_read status body content_type text h type_line text_line plain =
    let (starts, line) = reason_for-Plain status text (plain, text_line) in
    (
      parse_status-make_response status body content_type text h line.1,
      body_of-body_after _ body
          (body_after-make_response status body content_type text type_line text_line.0),
      reason_of-make_response status body content_type text starts line,
    )
