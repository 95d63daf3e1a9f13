-- ===== src/SearchClient/Answer.antt =====
-- What searchserver/searchclient.cpp makes of a response: `ParseStatus`, the body and the reason.
use semantic_search_engine.Base.{
  ℕ, ◌+◌, [], ◌∷◌, Option, none, some, Bytes, codes, drop, ◌==◌, ◌||◌, if◌then◌else◌,
}
use semantic_search_engine.HttpResponse.{blank_line}
use semantic_search_engine.Text.{find, get_line}
use semantic_search_engine.Text.Integer.{ℤ, read_int}
use semantic_search_engine.Text.Words.{read_word}

-- `ParseStatus`, where `none` is the result false.
unfoldable pub parse_status : Bytes → Option ℤ
unfolding get_line read_word read_int
parse_status http_response = elim (get_line 10 http_response) [
  | none ↦ none
  | some (line, rest) ↦ read_int (read_word line).1
]

-- The body of a response: what follows its first blank line, or all of it.
unfoldable pub body_of : Bytes → Bytes
unfolding find
body_of http_response = elim (find blank_line http_response) [
  | some pos ↦ drop (pos + 4) http_response
  | none ↦ elim (find (codes "\n\n") http_response) [
    | some pos ↦ drop (pos + 2) http_response
    | none ↦ http_response
  ]
]

-- the loop that erases blanks and tabs at the front
unfoldable pub trim_front : Bytes → Bytes
trim_front [] = []
trim_front (c ∷ s) = let rest = trim_front s in if c == b' ' || c == 9 then rest else c ∷ s

abbrev onto_trimmed : ℕ → Bytes → Bytes
onto_trimmed c [] = if c == 13 || c == 10 then [] else c ∷ []
onto_trimmed c (d ∷ s) = c ∷ d ∷ s

-- the loop that pops line ends at the back
unfoldable pub trim_back : Bytes → Bytes
trim_back [] = []
trim_back (c ∷ s) = onto_trimmed c (trim_back s)

-- The reason phrase: what follows two words, up to the end of the line.
unfoldable pub reason_of : Bytes → Bytes
unfolding read_word get_line trim_front trim_back
reason_of http_response =
    let line = get_line 10 (read_word (read_word http_response).1).1 in
    trim_back (trim_front (elim line [ none ↦ [] | some (reason, rest) ↦ reason ]))
