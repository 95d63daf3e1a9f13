-- ===== src/Exception.antt =====
-- C++ exceptions as values.
use semantic_search_engine.Base.{◌≡◌, refl, ◌⊎◌, inl, inr}

pub data Exception : Type 0 where
  out_of_range invalid_argument filesystem_error : Exception

pub data Result {ℓ} (A : Type ℓ) : Type ℓ where
  ok : A → Result A
  throws : Exception → Result A

infixl 5 ◌>>=◌
abbrev pub ◌>>=◌ {ℓ κ} : {A : Type ℓ} {B : Type κ} → Result A → (A → Result B) → Result B
ok a >>= f = f a
throws e >>= f = throws e

-- To split on a computed result and keep the equation.
pub Result-cases {ℓ} :
    {A : Type ℓ} (r : Result A) → ((a : A) × (r ≡ ok a)) ⊎ ((e : Exception) × (r ≡ throws e))
Result-cases (ok a) = inl (a, refl)
Result-cases (throws e) = inr (e, refl)

pub ok_injective {ℓ} : {A : Type ℓ} {a b : A} → ok a ≡ ok b → a ≡ b
ok_injective e = cc

pub throws-ne-ok {ℓ} : {A : Type ℓ} {a : A} (e : Exception) → throws e ≡ ok a → ⊥
throws-ne-ok e h = cc
