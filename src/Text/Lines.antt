-- ===== src/Text/Lines.antt =====
-- The lines of a text are what repeated calls of `getline` give.
use semantic_search_engine.Base.{
  ℕ, ◌≡◌, ◌≢◌, refl, List, [], ◌∷◌, ◌++◌, Option, none, some, Bytes, arith, All, ◌==◌, Bool-cases,
  inl, inr,
}
use semantic_search_engine.Text.{get_line, lines, onto_first}

abbrev Unrolls : ℕ → List Bytes → Option (Bytes × Bytes) → Type 0
Unrolls sep ls none = ls ≡ []
Unrolls sep ls (some (l, r)) = ls ≡ l ∷ lines sep r

pub lines-get_line : (sep : ℕ) (s : Bytes) → Unrolls sep (lines sep s) (get_line sep s)
unfolding lines get_line
lines-get_line sep [] = refl
lines-get_line sep (c ∷ s) = ground (arith, lines-get_line sep s)

pub onto_first-ne-nil : (c : ℕ) (ls : List Bytes) → onto_first c ls ≢ []
unfolding onto_first
onto_first-ne-nil c [] = λ e. cc
onto_first-ne-nil c (l ∷ ls) = λ e. cc

-- The text holds no byte `b`.
abbrev pub Lacks : ℕ → Bytes → Type 0
Lacks b = All (λ c. c ≢ b)

-- A line that ends with a separator.
pub lines-append :
    (sep : ℕ) (l rest : Bytes) → Lacks sep l → lines sep (l ++ sep ∷ rest) ≡ l ∷ lines sep rest
unfolding lines onto_first
lines-append sep [] rest h = ground arith
lines-append sep (c ∷ l) rest (hc, h) = ground (arith, lines-append sep l rest h)

-- A last line with no separator behind it.
pub lines_last : (sep : ℕ) (l : Bytes) → Lacks sep l → l ≢ [] → lines sep l ≡ l ∷ []
unfolding lines onto_first
lines_last sep [] h ne = absurd (ne refl)
lines_last sep (c ∷ []) (hc, h) ne = ground arith
lines_last sep (c ∷ d ∷ l) (hc, h) ne = ground (arith, lines_last sep (d ∷ l) h (λ e. cc))

-- `getline` at a line that ends with a separator.
pub get_line-append :
    (sep : ℕ) (l rest : Bytes) → Lacks sep l → get_line sep (l ++ sep ∷ rest) ≡ some (l, rest)
unfolding get_line
get_line-append sep [] rest h = ground arith
get_line-append sep (c ∷ l) rest (hc, h) = ground (arith, get_line-append sep l rest h)

-- No line holds the separator.
pub lines-Lacks : (sep : ℕ) (s : Bytes) → All (Lacks sep) (lines sep s)
unfolding lines
lines-Lacks sep [] = tt
lines-Lacks sep (c ∷ s) = elim (Bool-cases (c == sep)) [
  | inl e ↦ rw (e, lines) (tt, lines-Lacks sep s)
  | inr e ↦ rw (e, lines) (onto_first-Lacks (lines sep s) (lines-Lacks sep s) (ground arith))
]
  where
    onto_first-Lacks :
        (ls : List Bytes) → All (Lacks sep) ls → c ≢ sep → All (Lacks sep) (onto_first c ls)
    onto_first-Lacks [] h hc = ((hc, tt), tt)
    onto_first-Lacks (l ∷ ls) h hc = ((hc, h.0), h.1)
