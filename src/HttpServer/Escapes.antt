-- ===== src/HttpServer/Escapes.antt =====
-- The texts that the server builds: joined terms, and strings in JSON and in HTML.
use semantic_search_engine.Base.{
  ℕ, ◌≡◌, ◌≢◌, ◌≤◌, ◌⊎◌, All, ltb, refl, ap, ◌∙◌, List, [], ◌∷◌, ◌++◌, append_assoc, Option, none,
  some, Bytes, codes, arith, ◌==◌, if◌then◌else◌, Bool-cases, inl, inr, false,
}

-- the rounds of the loop of `JoinTerms` with `i > 0`
unfoldable pub join_more : List Bytes → Bytes
join_more [] = []
join_more (t ∷ ts) = b' ' ∷ (t ++ join_more ts)

-- `JoinTerms`
unfoldable pub join_terms : List Bytes → Bytes
unfolding join_more
join_terms [] = []
join_terms (t ∷ ts) = t ++ join_more ts

-- the `switch` of `JsonStr`
unfoldable pub json_byte : ℕ → Bytes
json_byte c =
    if c == b'"'
    then b'\\' ∷ b'"' ∷ []
    else if c == b'\\'
    then b'\\' ∷ b'\\' ∷ []
    else if c == 10
    then b'\\' ∷ b'n' ∷ []
    else if c == 13
    then b'\\' ∷ b'r' ∷ []
    else if c == 9
    then b'\\' ∷ b't' ∷ []
    else c ∷ []

-- `JsonStr`
unfoldable pub json_str : Bytes → Bytes
unfolding json_byte
json_str [] = []
json_str (c ∷ s) = json_byte c ++ json_str s

-- the `switch` of `HtmlEscape`
unfoldable pub html_byte : ℕ → Bytes
html_byte c =
    if c == b'<'
    then codes "&lt;"
    else if c == b'>'
    then codes "&gt;"
    else if c == b'&'
    then codes "&amp;"
    else if c == b'"'
    then codes "&quot;"
    else c ∷ []

-- `HtmlEscape`
unfoldable pub html_escape : Bytes → Bytes
unfolding html_byte
html_escape [] = []
html_escape (c ∷ s) = html_byte c ++ html_escape s

-- The byte that a two-byte escape of a JSON string stands for.
unfoldable pub unescaped : ℕ → Option ℕ
unescaped c =
    if c == b'"'
    then some b'"'
    else if c == b'\\'
    then some b'\\'
    else if c == b'n'
    then some 10
    else if c == b'r'
    then some 13
    else if c == b't'
    then some 9
    else none

abbrev onto_string : ℕ → Option (Bytes × Bytes) → Option (Bytes × Bytes)
onto_string c none = none
onto_string c (some (s, rest)) = some (c ∷ s, rest)

abbrev onto_escape : Option ℕ → Option (Bytes × Bytes) → Option (Bytes × Bytes)
onto_escape none r = none
onto_escape (some c) r = onto_string c r

-- A reader of a JSON string behind its opening quote: the string, and what follows the quote that
-- ends it. As JSON wants it, a byte below 32 that is not escaped is an error.
unfoldable pub read_string : Bytes → Option (Bytes × Bytes)
unfolding unescaped
read_string [] = none
read_string (c ∷ []) = if c == b'"' then some ([], []) else none
read_string (c ∷ d ∷ s) =
    let escaped = read_string s in
    let next = read_string (d ∷ s) in
    if c == b'"'
    then some ([], d ∷ s)
    else if c == b'\\'
    then onto_escape (unescaped d) escaped
    else if ltb c 32
    then none
    else onto_string c next

read_plain :
    (c : ℕ) (s : Bytes)
    → c ≢ b'"'
    → c ≢ b'\\'
    → 32 ≤ c
    → s ≢ []
    → read_string (c ∷ s) ≡ onto_string c (read_string s)
unfolding read_string
read_plain c [] hq hb hc ne = absurd (ne refl)
read_plain c (d ∷ s) hq hb hc ne = ground arith

-- A two-byte escape is read as the byte that it stands for.
read_escape :
    (d : ℕ) (s : Bytes) → read_string (b'\\' ∷ d ∷ s) ≡ onto_escape (unescaped d) (read_string s)
unfolding read_string
read_escape d s = refl

-- A byte that JSON allows in a string once `JsonStr` has escaped it.
abbrev pub IsWritable : ℕ → Type 0
IsWritable c = (32 ≤ c) ⊎ (c ≡ 9) ⊎ (c ≡ 10) ⊎ (c ≡ 13)

plain-le :
    (c : ℕ) → IsWritable c → (c == 10) ≡ false → (c == 13) ≡ false → (c == 9) ≡ false → 32 ≤ c
plain-le c w h3 h4 h5 = ground arith

read_byte :
    (c : ℕ) (s : Bytes)
    → IsWritable c
    → s ≢ []
    → read_string (json_byte c ++ s) ≡ onto_string c (read_string s)
unfolding json_byte unescaped
read_byte c s w ne = elim (Bool-cases (c == b'"')) [
  | inl h1 ↦ rw h1 (read_escape b'"' s ∙ ap (λ x. onto_string x (read_string s)) (ground arith))
  | inr h1 ↦ elim (Bool-cases (c == b'\\')) [
    | inl h2 ↦
        rw (h1, h2) (read_escape b'\\' s ∙ ap (λ x. onto_string x (read_string s)) (ground arith))
    | inr h2 ↦ elim (Bool-cases (c == 10)) [
      | inl h3 ↦
          rw (h1, h2, h3)
            (read_escape b'n' s ∙ ap (λ x. onto_string x (read_string s)) (ground arith))
      | inr h3 ↦ elim (Bool-cases (c == 13)) [
        | inl h4 ↦
            rw (h1, h2, h3, h4)
              (read_escape b'r' s ∙ ap (λ x. onto_string x (read_string s)) (ground arith))
        | inr h4 ↦ elim (Bool-cases (c == 9)) [
          | inl h5 ↦
              rw (h1, h2, h3, h4, h5)
                (read_escape b't' s ∙ ap (λ x. onto_string x (read_string s)) (ground arith))
          | inr h5 ↦
              rw (h1, h2, h3, h4, h5)
                (read_plain c s (ground arith) (ground arith) (plain-le c w h3 h4 h5) ne)
        ]
      ]
    ]
  ]
]

read_quote : (rest : Bytes) → read_string (b'"' ∷ rest) ≡ some ([], rest)
unfolding read_string
read_quote [] = refl
read_quote (c ∷ rest) = refl

append-ne-nil : (s : Bytes) (b : ℕ) (rest : Bytes) → s ++ b ∷ rest ≢ []
append-ne-nil [] b rest e = cc
append-ne-nil (c ∷ s) b rest e = cc

-- If the only bytes below 32 in a string are tabs, line feeds and carriage returns, a reader of JSON
-- strings gets it back from what `JsonStr` writes, and finds its end at the quote that the server
-- writes behind it: the string cannot break out of its quotes.
pub read-json_str :
    (s rest : Bytes) → All IsWritable s → read_string (json_str s ++ b'"' ∷ rest) ≡ some (s, rest)
unfolding json_str
read-json_str [] rest h = read_quote rest
read-json_str (c ∷ s) rest (w, h) =
    ap read_string (append_assoc (json_byte c) (json_str s) (b'"' ∷ rest))
    ∙ read_byte c (json_str s ++ b'"' ∷ rest) w (append-ne-nil (json_str s) b'"' rest)
    ∙ ap (onto_string c) (read-json_str s rest h)
