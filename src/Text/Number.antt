-- ===== src/Text/Number.antt =====
-- `std::to_string` and `std::stoul`.
use semantic_search_engine.Base.{
  ℕ, zero, suc, ◌+◌, ◌-◌, ◌*◌, ◌/◌, ◌%◌, ◌^◌, ◌<◌, ◌≡◌, refl, sym, ◌∙◌, ap, Bool, true, false, [],
  ◌∷◌, ◌++◌, Bytes, arith, ltb, leb, ◌==◌, if◌then◌else◌, All, Bool-cases, inl, inr,
}
use semantic_search_engine.Exception.{Result, ok, throws, out_of_range, invalid_argument}
use semantic_search_engine.Text.{is_digit, is_space}

-- The digits of `n`, in front of `out`. The loop makes a round for each digit, so `n + 1` rounds
-- are enough (`digits_enough`).
unfoldable pub digits : ℕ → ℕ → Bytes → Bytes
digits zero n out = out
digits (suc fuel) n out =
    let rest = digits fuel (n / 10) ((b'0' + n % 10) ∷ out) in
    if ltb n 10 then (b'0' + n) ∷ out else rest

-- `std::to_string` of an unsigned number
unfoldable pub to_string : ℕ → Bytes
unfolding digits
to_string n = digits (suc n) n []

-- The number that the leading digits spell behind `acc`.
unfoldable pub leading_value : ℕ → Bytes → ℕ
leading_value acc [] = acc
leading_value acc (c ∷ s) =
    let rest = leading_value (acc * 10 + (c - b'0')) s in if is_digit c then rest else acc

unfoldable pub skip_spaces : Bytes → Bytes
skip_spaces [] = []
skip_spaces (c ∷ s) = let rest = skip_spaces s in if is_space c then rest else c ∷ s

-- The number behind an optional sign; `strtoul` negates modulo 2^64.
unfoldable pub unsigned_value : Bool → Bytes → Result ℕ
unfolding leading_value
unsigned_value negative [] = throws invalid_argument
unsigned_value negative (c ∷ s) =
    let n = leading_value 0 (c ∷ s) in
    if is_digit c
    then (if leb (2 ^ 64) n
        then throws out_of_range
        else ok (if negative then (2 ^ 64 - n) % 2 ^ 64 else n))
    else throws invalid_argument

unfoldable pub signed_text : Bytes → Result ℕ
unfolding unsigned_value
signed_text [] = throws invalid_argument
signed_text (c ∷ s) =
    if c == b'-'
    then unsigned_value true s
    else if c == b'+'
    then unsigned_value false s
    else unsigned_value false (c ∷ s)

-- `std::stoul(s)` in base 10: white space, a sign, digits, and anything behind them.
unfoldable pub stoul : Bytes → Result ℕ
unfolding skip_spaces signed_text
stoul s = signed_text (skip_spaces s)

-- More rounds than the number has digits change nothing.
pub digits_enough : (f g n : ℕ) (out : Bytes) → n < f → n < g → digits f n out ≡ digits g n out
unfolding digits
digits_enough zero g n out hf hg = absurd (omega arith)
digits_enough (suc f) zero n out hf hg = absurd (omega arith)
digits_enough (suc f) (suc g) n out hf hg =
    ground (arith, digits_enough f g (n / 10) ((b'0' + n % 10) ∷ out))

pub leading_value-digits :
    (f n : ℕ) (out : Bytes) → n < f → leading_value 0 (digits f n out) ≡ leading_value n out
unfolding digits leading_value
leading_value-digits zero n out h = absurd (omega arith)
leading_value-digits (suc f) n out h =
    ground (arith, leading_value-digits f (n / 10) ((b'0' + n % 10) ∷ out))

digits-append : (f n : ℕ) (out rest : Bytes) → digits f n out ++ rest ≡ digits f n (out ++ rest)
unfolding digits
digits-append zero n out rest = refl
digits-append (suc f) n out rest =
    ground (arith, digits-append f (n / 10) ((b'0' + n % 10) ∷ out) rest)

-- Decimal digits only.
pub digits-All :
    (f n : ℕ) (out : Bytes)
    → All (λ c. is_digit c ≡ true) out
    → All (λ c. is_digit c ≡ true) (digits f n out)
unfolding digits
digits-All zero n out h = h
digits-All (suc f) n out h = elim (Bool-cases (ltb n 10)) [
  | inl e ↦ rw (e, digits) (ground arith, h)
  | inr e ↦ rw (e, digits) (digits-All f (n / 10) ((b'0' + n % 10) ∷ out) (ground arith, h))
]

-- The text of a number begins with a digit.
digits-head :
    (f n : ℕ) (out : Bytes)
    → n < f
    → (c : ℕ) × (t : Bytes) × (digits f n out ≡ c ∷ t) × (is_digit c ≡ true)
unfolding digits
digits-head zero n out h = absurd (omega arith)
digits-head (suc f) n out h = elim (Bool-cases (ltb n 10)) [
  | inl e ↦ (b'0' + n, out, rw e, ground arith)
  | inr e ↦ rw (e, digits) (digits-head f (n / 10) ((b'0' + n % 10) ∷ out) (ground arith))
]

-- The text goes on with no digit.
abbrev pub Stops : Bytes → Type 0
Stops [] = Unit
Stops (c ∷ s) = is_digit c ≡ false

leading_value_stop : (n : ℕ) (s : Bytes) → Stops s → leading_value n s ≡ n
unfolding leading_value
leading_value_stop n [] h = refl
leading_value_stop n (c ∷ s) h = rw h

pub to_string-append : (n : ℕ) (rest : Bytes) → to_string n ++ rest ≡ digits (suc n) n rest
unfolding to_string
to_string-append n rest = digits-append (suc n) n [] rest

pub to_string-All : (n : ℕ) → All (λ c. is_digit c ≡ true) (to_string n)
unfolding to_string
to_string-All n = digits-All (suc n) n [] tt

-- `stoul` at a text that begins with a digit.
stoul-digit :
    (c : ℕ) (t : Bytes) (n : ℕ)
    → is_digit c ≡ true
    → leading_value 0 (c ∷ t) ≡ n
    → n < 2 ^ 64
    → stoul (c ∷ t) ≡ ok n
unfolding stoul unsigned_value
stoul-digit c t n h e fits = ground arith

-- The text of a number begins with a digit, and its leading digits spell the number.
pub to_string-value :
    (n : ℕ) (rest : Bytes)
    → Stops rest
    → (c : ℕ) × (t : Bytes) × (to_string n ++ rest ≡ c ∷ t)
      × (is_digit c ≡ true)
      × (leading_value 0 (c ∷ t) ≡ n)
to_string-value n rest stops =
    let (c, t, e, h) = digits-head (suc n) n rest (omega arith) in
    (
      c,
      t,
      to_string-append n rest ∙ e,
      h,
      ap (leading_value 0) (sym e)
          ∙ leading_value-digits (suc n) n rest (omega arith)
          ∙ leading_value_stop n rest stops,
    )

-- `stoul` reads back what `to_string` prints, up to the first byte that is no digit.
pub stoul-to_string :
    (n : ℕ) (rest : Bytes) → n < 2 ^ 64 → Stops rest → stoul (to_string n ++ rest) ≡ ok n
stoul-to_string n rest fits stops =
    let (c, t, e, h, v) = to_string-value n rest stops in rw e (stoul-digit c t n h v fits)
