-- ===== src/Text/Words.antt =====
-- `in >> word` on an `std::istringstream`.
use semantic_search_engine.Base.{
  ℕ, ◌≡◌, refl, ap, true, false, [], ◌∷◌, ◌++◌, Bytes, All, if◌then◌else◌, ◌≢◌,
}
use semantic_search_engine.Text.{is_space}
use semantic_search_engine.Text.Number.{skip_spaces}

-- The bytes up to the next white space, and the rest.
unfoldable pub take_word : Bytes → Bytes × Bytes
take_word [] = ([], [])
take_word (c ∷ s) =
    let rest = take_word s in if is_space c then ([], c ∷ s) else (c ∷ rest.0, rest.1)

-- `in >> word` on the unread bytes: the word, empty where the stream fails, and what is left.
unfoldable pub read_word : Bytes → Bytes × Bytes
unfolding take_word skip_spaces
read_word s = take_word (skip_spaces s)

-- No white space in the text.
abbrev pub IsBlankless : Bytes → Type 0
IsBlankless = All (λ c. is_space c ≡ false)

-- The text ends, or goes on with white space.
abbrev pub Breaks : Bytes → Type 0
Breaks [] = Unit
Breaks (c ∷ s) = is_space c ≡ true

take_word-append :
    (w rest : Bytes) → IsBlankless w → Breaks rest → take_word (w ++ rest) ≡ (w, rest)
unfolding take_word
take_word-append [] [] h b = refl
take_word-append [] (c ∷ rest) h b = rw b refl
take_word-append (c ∷ w) rest (hc, h) b =
    rw hc (ap (λ x. (c ∷ x.0, x.1)) (take_word-append w rest h b))

-- A word is read up to the white space behind it.
pub read_word-append :
    (w rest : Bytes) → w ≢ [] → IsBlankless w → Breaks rest → read_word (w ++ rest) ≡ (w, rest)
unfolding read_word skip_spaces
read_word-append [] rest ne h b = absurd (ne refl)
read_word-append (c ∷ w) rest ne (hc, h) b = rw hc (take_word-append (c ∷ w) rest (hc, h) b)

-- White space in front of a word is skipped.
pub read_word-space : (c : ℕ) (s : Bytes) → is_space c ≡ true → read_word (c ∷ s) ≡ read_word s
unfolding read_word skip_spaces
read_word-space c s h = rw h refl
