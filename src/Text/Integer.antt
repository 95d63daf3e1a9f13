-- ===== src/Text/Integer.antt =====
-- `int`: `std::stoi` and `operator>>`.
use semantic_search_engine.Base.{
  ℕ, zero, suc, ◌^◌, ◌-◌, ◌%◌, ◌<◌, ◌≤◌, ◌≡◌, refl, ap, ◌∙◌, Bool, true, false, [], ◌∷◌, ◌++◌,
  Option, none, some, Bytes, arith, leb, ltb, ◌==◌, if◌then◌else◌,
}
use semantic_search_engine.Exception.{Result, ok, throws, out_of_range, invalid_argument}
use semantic_search_engine.Text.{is_digit, is_space}
use semantic_search_engine.Text.Number.{
  leading_value, skip_spaces, to_string, Stops, to_string-value,
}

-- The integers: `negsuc n` is `- (n + 1)`.
pub data ℤ : Type 0 where
  pos negsuc : ℕ → ℤ

-- `i >= k`
unfoldable pub at_least : ℕ → ℤ → Bool
at_least k (pos n) = leb k n
at_least k (negsuc n) = false

-- `static_cast<uint16_t>(i)`
unfoldable pub to_uint16 : ℤ → ℕ
to_uint16 (pos n) = n % 2 ^ 16
to_uint16 (negsuc n) = 65535 - n % 2 ^ 16

-- The number with its sign, which has to fit 32 bits.
unfoldable pub in_int : Bool → ℕ → Result ℤ
in_int false n = if ltb n (2 ^ 31) then ok (pos n) else throws out_of_range
in_int true zero = ok (pos 0)
in_int true (suc n) = if ltb n (2 ^ 31) then ok (negsuc n) else throws out_of_range

-- The number behind an optional sign.
unfoldable pub int_digits : Bool → Bytes → Result ℤ
unfolding in_int leading_value
int_digits negative [] = throws invalid_argument
int_digits negative (c ∷ s) =
    if is_digit c then in_int negative (leading_value 0 (c ∷ s)) else throws invalid_argument

unfoldable pub int_text : Bytes → Result ℤ
unfolding int_digits
int_text [] = throws invalid_argument
int_text (c ∷ s) =
    if c == b'-'
    then int_digits true s
    else if c == b'+'
    then int_digits false s
    else int_digits false (c ∷ s)

-- `std::stoi(s)` in base 10: white space, a sign, digits, and anything behind them.
unfoldable pub stoi : Bytes → Result ℤ
unfolding skip_spaces int_text
stoi s = int_text (skip_spaces s)

abbrev to_option : Result ℤ → Option ℤ
to_option (ok i) = some i
to_option (throws e) = none

-- `in >> i`, where `none` is a failed stream.
unfoldable pub read_int : Bytes → Option ℤ
unfolding stoi
read_int s = to_option (stoi s)

-- `stoi` at a text that begins with a digit.
stoi-digit :
    (c : ℕ) (t : Bytes) (n : ℕ)
    → is_digit c ≡ true
    → leading_value 0 (c ∷ t) ≡ n
    → n < 2 ^ 31
    → stoi (c ∷ t) ≡ ok (pos n)
unfolding stoi int_digits
stoi-digit c t n h e fits = ground arith

-- `stoi` at a number that does not fit.
stoi-digit_large :
    (c : ℕ) (t : Bytes) (n : ℕ)
    → is_digit c ≡ true
    → leading_value 0 (c ∷ t) ≡ n
    → 2 ^ 31 ≤ n
    → stoi (c ∷ t) ≡ throws out_of_range
unfolding stoi int_digits
stoi-digit_large c t n h e fits = ground arith

-- `stoi` reads back what `to_string` prints, up to the first byte that is no digit.
pub stoi-to_string :
    (n : ℕ) (rest : Bytes) → n < 2 ^ 31 → Stops rest → stoi (to_string n ++ rest) ≡ ok (pos n)
stoi-to_string n rest fits stops =
    let (c, t, e, h, v) = to_string-value n rest stops in rw e (stoi-digit c t n h v fits)

-- It throws where the number does not fit an `int`.
pub stoi-large :
    (n : ℕ) (rest : Bytes)
    → 2 ^ 31 ≤ n
    → Stops rest
    → stoi (to_string n ++ rest) ≡ throws out_of_range
stoi-large n rest fits stops =
    let (c, t, e, h, v) = to_string-value n rest stops in rw e (stoi-digit_large c t n h v fits)

stoi-space : (c : ℕ) (s : Bytes) → is_space c ≡ true → stoi (c ∷ s) ≡ stoi s
unfolding stoi skip_spaces
stoi-space c s h = rw h refl

-- White space in front is skipped, and the number is read back.
pub read_int-to_string :
    (c n : ℕ) (rest : Bytes)
    → is_space c ≡ true
    → n < 2 ^ 31
    → Stops rest
    → read_int (c ∷ (to_string n ++ rest)) ≡ some (pos n)
unfolding read_int
read_int-to_string c n rest h fits stops =
    ap to_option (stoi-space c (to_string n ++ rest) h ∙ stoi-to_string n rest fits stops)
