-- ===== src/StaticFile/WithinRoot.antt =====
-- `CheckWithinRoot`: which targets pass its test.
use semantic_search_engine.Base.{
  ℕ, ◌≡◌, ◌↔◌, ◌⊎◌, inl, inr, refl, ap, sym, subst, ◌∙◌, Bool, true, false, not, [], ◌∷◌, ◌++◌,
  Bytes, codes, arith, ◌==◌, length, drop, length-append, Bool-cases, append-nil, append_assoc,
  if◌then◌else◌,
}
use semantic_search_engine.Text.{starts_with, ends_with}
use semantic_search_engine.Text.Search.{starts_with-append, starts_with_sound}
use semantic_search_engine.StaticFile.{is_outside, differs_at}

-- The target is the root itself, or stands below it: a '/' follows the root's path.
abbrev pub IsWithin : Bytes → Bytes → Type 0
IsWithin root target = (target ≡ root) ⊎ ((rest : Bytes) × (target ≡ root ++ b'/' ∷ rest))

abbrev ends_outside : Bytes → Bool
ends_outside [] = false
ends_outside (c ∷ s) = not (c == b'/')

differs_at-append : (r s : Bytes) (c d : ℕ) → differs_at (length r) c (r ++ d ∷ s) ≡ not (d == c)
unfolding differs_at
differs_at-append [] s c d = refl
differs_at-append (x ∷ r) s c d = differs_at-append r s c d

is_outside-append : (r s : Bytes) → is_outside r (r ++ s) ≡ ends_outside s
unfolding is_outside
is_outside-append r [] = ground (arith, length-append r [], starts_with-append r [])
is_outside-append r (c ∷ s) =
    ground
      (arith, length-append r (c ∷ s), starts_with-append r (c ∷ s), differs_at-append r s b'/' c)

is_outside-starts_with : (r t : Bytes) → is_outside r t ≡ false → starts_with t r ≡ true
unfolding is_outside
is_outside-starts_with r t h = ground arith

IsWithin-of_suffix : (r s : Bytes) → ends_outside s ≡ false → IsWithin r (r ++ s)
IsWithin-of_suffix r [] h = inl (append-nil r)
IsWithin-of_suffix r (c ∷ s) h = inr (s, ap (λ d. r ++ d ∷ s) (ground arith))

pub is_outside-IsWithin : (r t : Bytes) → (is_outside r t ≡ false) ↔ IsWithin r t
is_outside-IsWithin r t = (sound, complete)
  where
    sound : is_outside r t ≡ false → IsWithin r t
    sound h =
        let e : t ≡ r ++ drop (length r) t = starts_with_sound t r (is_outside-starts_with r t h) in
        subst (IsWithin r) (sym e) (
          IsWithin-of_suffix r (drop (length r) t)
            (sym (is_outside-append r (drop (length r) t)) ∙ ap (is_outside r) (sym e) ∙ h))

    complete : IsWithin r t → is_outside r t ≡ false
    complete (inl e) = ap (is_outside r) (e ∙ sym (append-nil r)) ∙ is_outside-append r []
    complete (inr (s, e)) = ap (is_outside r) e ∙ is_outside-append r (b'/' ∷ s)

-- What is not within the root is refused.
pub is_outside_of_not_within : (r t : Bytes) → ¬ IsWithin r t → is_outside r t ≡ true
is_outside_of_not_within r t h = elim (Bool-cases (is_outside r t)) [
  | inl e ↦ e
  | inr e ↦ absurd (h ((is_outside-IsWithin r t).0 e))
]

-- The path with a '/' behind it, which the root "/" already has.
abbrev pub as_directory : Bytes → Bytes
as_directory root = if ends_with root (codes "/") then root else root ++ b'/' ∷ []

-- The target is the root itself, or begins with the root as a directory.
abbrev pub IsBelow : Bytes → Bytes → Type 0
IsBelow root target = (target ≡ root) ⊎ ((rest : Bytes) × (target ≡ as_directory root ++ rest))

as_directory-append :
    (root rest : Bytes)
    → ends_with root (codes "/") ≡ false
    → as_directory root ++ rest ≡ root ++ b'/' ∷ rest
as_directory-append root rest e = rw e (append_assoc root (b'/' ∷ []) rest)

-- Where the root's canonical path does not end in '/', that is, where it is not "/", the test
-- refuses exactly the targets that are neither the root nor below it.
pub is_outside_iff :
    (r t : Bytes) → ends_with r (codes "/") ≡ false → (is_outside r t ≡ false) ↔ IsBelow r t
is_outside_iff r t e = (λ h. below (complete.0 h), λ b. complete.1 (within b))
  where
    complete : (is_outside r t ≡ false) ↔ IsWithin r t
    complete = is_outside-IsWithin r t

    below : IsWithin r t → IsBelow r t
    below (inl same) = inl same
    below (inr (rest, q)) = inr (rest, q ∙ sym (as_directory-append r rest e))

    within : IsBelow r t → IsWithin r t
    within (inl same) = inl same
    within (inr (rest, q)) = inr (rest, q ∙ as_directory-append r rest e)
