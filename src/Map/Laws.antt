-- ===== src/Map/Laws.antt =====
-- Laws of the map operations, in the form of what `find` sees.
use semantic_search_engine.Base.{
  ◌≡◌, refl, List, [], ◌∷◌, none, some, ite, if_pos, if_neg, subst, arith, All,
}
use semantic_search_engine.Map.{find, modify, erase, UniqueKeys, get_or}

module _ {K V : Type 0} (dec : Discrete K) where
  pub find-modify :
      (j k : K) (f : V → V) (d : V) (m : List (K × V))
      → find dec j (modify dec k f d m)
        ≡ ite (dec k j) (some (f (get_or d (find dec k m)))) (find dec j m)
  unfolding find modify
  find-modify j k f d [] = ground arith
  find-modify j k f d ((i, v) ∷ m) = ground (arith, find-modify j k f d m)

  pub find-erase :
      (j k : K) (m : List (K × V)) → find dec j (erase dec k m) ≡ ite (dec k j) none (find dec j m)
  unfolding find erase
  find-erase j k [] = ground arith
  find-erase j k ((i, v) ∷ m) = ground (arith, find-erase j k m)

  pub modify-UniqueKeys :
      (k : K) (f : V → V) (d : V) (m : List (K × V))
      → UniqueKeys dec m
      → UniqueKeys dec (modify dec k f d m)
  unfolding modify find
  modify-UniqueKeys k f d [] u = (refl, tt)
  modify-UniqueKeys k f d ((i, v) ∷ m) u =
      ground (arith, modify-UniqueKeys k f d m u.1, find-modify i k f d m)

  pub erase-UniqueKeys :
      (k : K) (m : List (K × V)) → UniqueKeys dec m → UniqueKeys dec (erase dec k m)
  unfolding erase
  erase-UniqueKeys k [] u = tt
  erase-UniqueKeys k ((i, v) ∷ m) u = ground (arith, erase-UniqueKeys k m u.1, find-erase i k m)

module _ {K V : Type 0} (dec : Discrete K) (Q : V → Type 0) where
  -- A property of the values that `f` keeps, and that a new entry has.
  pub All-modify :
      (k : K) (f : V → V) (d : V) (m : List (K × V))
      → Q (f d)
      → ((v : V) → Q v → Q (f v))
      → All (λ e. Q e.1) m
      → All (λ e. Q e.1) (modify dec k f d m)
  unfolding modify
  All-modify k f d [] new keep h = (new, tt)
  All-modify k f d ((i, v) ∷ m) new keep (hv, h) = elim (dec i k) [
    | yes p ↦ rw (if_pos _ p) (keep v hv, h)
    | no n ↦ rw (if_neg _ n) (hv, All-modify k f d m new keep h)
  ]

  pub All-erase : (k : K) (m : List (K × V)) → All (λ e. Q e.1) m → All (λ e. Q e.1) (erase dec k m)
  unfolding erase
  All-erase k [] h = tt
  All-erase k ((i, v) ∷ m) (hv, h) = elim (dec i k) [
    | yes p ↦ rw (if_pos _ p) (All-erase k m h)
    | no n ↦ rw (if_neg _ n) (hv, All-erase k m h)
  ]

  -- What all values have, a value found has.
  pub All-find :
      (k : K) (m : List (K × V)) {v : V} → All (λ e. Q e.1) m → find dec k m ≡ some v → Q v
  unfolding find
  All-find k [] h e = cc
  All-find k ((i, w) ∷ m) (hw, h) e = elim (dec i k) [
    | yes p ↦ subst Q (ground arith) hw
    | no n ↦ All-find k m h (ground arith)
  ]
