-- ===== src/Text/Search.antt =====
-- What `find` and `starts_with` find.
use semantic_search_engine.Base.{
  ℕ, suc, ◌≤◌, false, Bool-cases, inl, inr, Option, ◌+◌, true, ◌≡◌, refl, ap, sym, ◌∙◌, [], ◌∷◌,
  ◌++◌, none, some, Bytes, arith, drop, leb, length, length-append,
}
use semantic_search_engine.Text.{
  find, next_position, starts_with, find_char, substr, back, pop_back,
}
use semantic_search_engine.Text.Lines.{Lacks}

pub starts_with-append : (p s : Bytes) → starts_with (p ++ s) p ≡ true
unfolding starts_with
starts_with-append [] [] = refl
starts_with-append [] (c ∷ s) = refl
starts_with-append (c ∷ p) s = ground (arith, starts_with-append p s)

-- `starts_with` holds exactly of an extension of the prefix.
pub starts_with_sound : (s p : Bytes) → starts_with s p ≡ true → s ≡ p ++ drop (length p) s
unfolding starts_with
starts_with_sound s [] h = refl
starts_with_sound [] (c ∷ p) h = cc
starts_with_sound (d ∷ s) (c ∷ p) h = ground (arith, starts_with_sound s p)

-- The first place of a byte.
pub find_char-append :
    (b : ℕ) (l r : Bytes) → Lacks b l → find_char b (l ++ b ∷ r) ≡ some (length l)
unfolding find_char
find_char-append b [] r h = ground arith
find_char-append b (c ∷ l) r (hc, h) = ground (arith, find_char-append b l r h)

pub find_char-Lacks : (b : ℕ) (l : Bytes) → Lacks b l → find_char b l ≡ none
unfolding find_char
find_char-Lacks b [] h = refl
find_char-Lacks b (c ∷ l) (hc, h) = ground (arith, find_char-Lacks b l h)

-- What stands two bytes behind a place.
pub substr-append : (l r : Bytes) (b c : ℕ) → substr (length l + 2) (l ++ b ∷ c ∷ r) ≡ some r
unfolding substr
substr-append l r b c =
    rw (fits l r b c) (ap some (ap (λ n. drop n (l ++ b ∷ c ∷ r)) (two l) ∙ behind_two l r b c))
  where
    two : (k : Bytes) → length k + 2 ≡ suc (suc (length k))
    two k = omega arith

    fits : (k s : Bytes) (d e : ℕ) → leb (length k + 2) (length (k ++ d ∷ e ∷ s)) ≡ true
    fits k s d e = ground (arith, length-append k (d ∷ e ∷ s))

    behind_two : (k s : Bytes) (d e : ℕ) → drop (suc (suc (length k))) (k ++ d ∷ e ∷ s) ≡ s
    behind_two [] s d e = refl
    behind_two (x ∷ k) s d e = behind_two k s d e

pub substr_behind_end : (l : Bytes) (b : ℕ) → substr (length l + 2) (l ++ b ∷ []) ≡ none
unfolding substr
substr_behind_end l b = ground (arith, length-append l (b ∷ []))

pub back-append : (l : Bytes) (b : ℕ) → back (l ++ b ∷ []) ≡ b
back-append [] b = refl
back-append (c ∷ []) b = refl
back-append (c ∷ d ∷ l) b = back-append (d ∷ l) b

pub pop_back-append : (l : Bytes) (b : ℕ) → pop_back (l ++ b ∷ []) ≡ l
pop_back-append [] b = refl
pop_back-append (c ∷ []) b = refl
pop_back-append (c ∷ d ∷ l) b = ap (◌∷◌ c) (pop_back-append (d ∷ l) b)

starts_with-le : (s p : Bytes) → starts_with s p ≡ true → length p ≤ length s
unfolding starts_with
starts_with-le s [] h = omega arith
starts_with-le [] (c ∷ p) h = cc
starts_with-le (d ∷ s) (c ∷ p) h = ground (arith, starts_with-le s p)

starts_with_grow : (s p r : Bytes) → starts_with s p ≡ true → starts_with (s ++ r) p ≡ true
unfolding starts_with
starts_with_grow [] [] [] h = refl
starts_with_grow [] [] (c ∷ r) h = refl
starts_with_grow (d ∷ s) [] r h = refl
starts_with_grow [] (c ∷ p) r h = cc
starts_with_grow (d ∷ s) (c ∷ p) r h = ground (arith, starts_with_grow s p r)

starts_with_shrink :
    (s p r : Bytes) → length p ≤ length s → starts_with (s ++ r) p ≡ true → starts_with s p ≡ true
unfolding starts_with
starts_with_shrink [] [] r l h = refl
starts_with_shrink (d ∷ s) [] r l h = refl
starts_with_shrink [] (c ∷ p) r l h = absurd (omega (arith, l))
starts_with_shrink (d ∷ s) (c ∷ p) r l h = ground (arith, starts_with_shrink s p r)

next_position-some :
    (o : Option ℕ) (j : ℕ) → next_position o ≡ some j → (i : ℕ) × (o ≡ some i) × (j ≡ suc i)
next_position-some none j h = cc
next_position-some (some i) j h = (i, refl, cc)

pub find-le : (p s : Bytes) (j : ℕ) → find p s ≡ some j → j + length p ≤ length s
unfolding find
find-le p [] j h = elim (Bool-cases (starts_with [] p)) [
  | inl e ↦ ground (arith, starts_with-le [] p e)
  | inr e ↦ ground arith
]
find-le p (c ∷ s) j h = elim (Bool-cases (starts_with (c ∷ s) p)) [
  | inl e ↦ ground (arith, starts_with-le (c ∷ s) p e)
  | inr e ↦
      let (i, q, r) = next_position-some (find p s) j (ground arith) in
      omega (arith, find-le p s i q, r)
]

find_here : (p s : Bytes) → starts_with s p ≡ true → find p s ≡ some 0
unfolding find
find_here p [] h = rw h refl
find_here p (c ∷ s) h = rw h refl

find_later :
    (p : Bytes) (c : ℕ) (s : Bytes)
    → starts_with (c ∷ s) p ≡ false
    → find p (c ∷ s) ≡ next_position (find p s)
unfolding find
find_later p c s h = rw h refl

-- What is found is found as well in a longer text.
pub find_grow : (p s r : Bytes) (j : ℕ) → find p s ≡ some j → find p (s ++ r) ≡ some j
find_grow p [] r j h = elim (Bool-cases (starts_with [] p)) [
  | inl e ↦ find_here p r (starts_with_grow [] p r e) ∙ sym (find_here p [] e) ∙ h
  | inr e ↦ absurd (unfold find in ground arith)
]
find_grow p (c ∷ s) r j h = elim (Bool-cases (starts_with (c ∷ s) p)) [
  | inl e ↦
      find_here p (c ∷ s ++ r) (starts_with_grow (c ∷ s) p r e) ∙ sym (find_here p (c ∷ s) e) ∙ h
  | inr e ↦
      let (i, q, z) = next_position-some (find p s) j (sym (find_later p c s e) ∙ h) in
      find_later p c (s ++ r) (not_earlier (length-le p s i (find-le p s i q)) e)
      ∙ ap next_position (find_grow p s r i q)
      ∙ ap some (sym z)
]
  where
    length-le : (p' s' : Bytes) (i : ℕ) → i + length p' ≤ length s' → length p' ≤ suc (length s')
    length-le p' s' i l = omega (arith, l)

    not_earlier :
        length p ≤ suc (length s)
        → starts_with (c ∷ s) p ≡ false
        → starts_with (c ∷ s ++ r) p ≡ false
    not_earlier l e = elim (Bool-cases (starts_with (c ∷ s ++ r) p)) [
      | inl t ↦ cc (e, starts_with_shrink (c ∷ s) p r l t)
      | inr f ↦ f
    ]
