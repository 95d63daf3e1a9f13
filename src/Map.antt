-- ===== src/Map.antt =====
-- `std::unordered_map`: an association list in iteration order, which the standard leaves open.
-- A new key is put at the end. What the other modules prove of a map goes by `find`, the sum of
-- its values, or membership, and so does not depend on that order.
pub mod Laws
use semantic_search_engine.Base.{ℕ, ◌+◌, ◌≡◌, List, [], ◌∷◌, Option, none, some, ite}

-- `at`, or 0 where the key is missing.
abbrev pub or_zero : Option ℕ → ℕ
or_zero none = 0
or_zero (some n) = n

abbrev pub get_or {ℓ} : {V : Type ℓ} → V → Option V → V
get_or d none = d
get_or d (some v) = v

module _ {K V : Type 0} (dec : Discrete K) where
  -- `find`
  unfoldable pub find : K → List (K × V) → Option V
  find k [] = none
  find k ((j, v) ∷ m) = ite (dec j k) (some v) (find k m)

  -- `m[k] = f(m[k])`, where `operator[]` creates a missing entry with the value `d`.
  unfoldable pub modify : K → (V → V) → V → List (K × V) → List (K × V)
  modify k f d [] = (k, f d) ∷ []
  modify k f d ((j, v) ∷ m) = ite (dec j k) ((j, f v) ∷ m) ((j, v) ∷ modify k f d m)

  -- `erase(k)`
  unfoldable pub erase : K → List (K × V) → List (K × V)
  erase k [] = []
  erase k ((j, v) ∷ m) = ite (dec j k) (erase k m) ((j, v) ∷ erase k m)

  -- No key has two entries: the class invariant of the container.
  abbrev pub UniqueKeys : List (K × V) → Type 0
  UniqueKeys [] = Unit
  UniqueKeys ((k, v) ∷ m) = (find k m ≡ none) × UniqueKeys m
