-- ===== src/ThreadPool/Places.antt =====
-- A predicate on the elements of a list, and a change of one of them.
use semantic_search_engine.Base.{
  ℕ, zero, suc, ◌≡◌, sym, subst, List, [], ◌∷◌, some, All, some_injective,
}
use semantic_search_engine.ThreadPool.{get_elem?, set}

module _ {A : Type 0} (P : A → Type 0) where
  pub All-set : (xs : List A) (i : ℕ) (x : A) → All P xs → P x → All P (set xs i x)
  All-set [] i x a p = tt
  All-set (y ∷ xs) zero x (q, a) p = (p, a)
  All-set (y ∷ xs) (suc i) x (q, a) p = (q, All-set xs i x a p)

  pub All-get : (xs : List A) (i : ℕ) (x : A) → All P xs → get_elem? xs i ≡ some x → P x
  All-get [] i x a e = cc
  All-get (y ∷ xs) zero x (q, a) e = subst P (some_injective e) q
  All-get (y ∷ xs) (suc i) x (q, a) e = All-get xs i x a e

  -- The element that was put in.
  pub All-set_here :
      (xs : List A) (i : ℕ) (x y : A) → get_elem? xs i ≡ some y → All P (set xs i x) → P x
  All-set_here [] i x y e a = cc
  All-set_here (z ∷ xs) zero x y e (p, a) = p
  All-set_here (z ∷ xs) (suc i) x y e (p, a) = All-set_here xs i x y e a

  -- The list as it was.
  pub All-set_back :
      (xs : List A) (i : ℕ) (x y : A)
      → get_elem? xs i ≡ some y
      → P y
      → All P (set xs i x)
      → All P xs
  All-set_back [] i x y e q a = tt
  All-set_back (z ∷ xs) zero x y e q (p, a) = (subst P (sym (some_injective e)) q, a)
  All-set_back (z ∷ xs) (suc i) x y e q (p, a) = (p, All-set_back xs i x y e q a)
