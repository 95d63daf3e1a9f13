-- ===== src/Text.antt =====
-- What the source uses of `std::string`, `<cctype>` (in the C locale) and `std::getline`.
pub mod Search
pub mod Lines
pub mod Number
pub mod Integer
pub mod Words
use semantic_search_engine.Base.{
  ℕ, zero, suc, ◌+◌, ◌-◌, Bool, true, false, ◌&&◌, ◌||◌, List, [], ◌∷◌, Option, none, some, Bytes,
  leb, ltb, ◌==◌, if◌then◌else◌, take, drop, length,
}

abbrev pub is_upper : ℕ → Bool
is_upper c = leb b'A' c && leb c b'Z'

abbrev pub is_lower : ℕ → Bool
is_lower c = leb b'a' c && leb c b'z'

abbrev pub is_digit : ℕ → Bool
is_digit c = leb b'0' c && leb c b'9'

-- `std::isalnum`
unfoldable pub is_alnum : ℕ → Bool
is_alnum c = is_upper c || is_lower c || is_digit c

-- `std::tolower`
unfoldable pub to_lower : ℕ → ℕ
to_lower c = if is_upper c then c + 32 else c

-- the bytes that `strtoul` and `operator>>` skip
abbrev pub is_space : ℕ → Bool
is_space c = c == b' ' || (leb 9 c && leb c 13)

-- `s.starts_with(p)`
unfoldable pub starts_with : Bytes → Bytes → Bool
starts_with s [] = true
starts_with [] (p ∷ ps) = false
starts_with (c ∷ s) (p ∷ ps) = c == p && starts_with s ps

-- `s.ends_with(p)`
unfoldable pub ends_with : Bytes → Bytes → Bool
unfolding starts_with
ends_with s p = leb (length p) (length s) && starts_with (drop (length s - length p) s) p

abbrev pub next_position : Option ℕ → Option ℕ
next_position none = none
next_position (some i) = some (suc i)

-- `s.find(p)`, where `none` is `std::string::npos`
unfoldable pub find : Bytes → Bytes → Option ℕ
unfolding starts_with
find p [] = if starts_with [] p then some 0 else none
find p (c ∷ s) = if starts_with (c ∷ s) p then some 0 else next_position (find p s)

-- `s.find(c)` for one character
unfoldable pub find_char : ℕ → Bytes → Option ℕ
find_char b [] = none
find_char b (c ∷ s) = if c == b then some 0 else next_position (find_char b s)

-- `s.substr(i)`, which throws `std::out_of_range` (here `none`) where `i` is behind the end
unfoldable pub substr : ℕ → Bytes → Option Bytes
substr i s = if leb i (length s) then some (drop i s) else none

-- `s.back()` at a nonempty `s`; 0 stands for the empty string
abbrev pub back : Bytes → ℕ
back [] = 0
back (c ∷ []) = c
back (c ∷ d ∷ s) = back (d ∷ s)

-- `s.pop_back()` at a nonempty `s`
abbrev pub pop_back : Bytes → Bytes
pop_back [] = []
pop_back (c ∷ []) = []
pop_back (c ∷ d ∷ s) = c ∷ pop_back (d ∷ s)

abbrev onto_line : ℕ → Option (Bytes × Bytes) → Option (Bytes × Bytes)
onto_line c none = some (c ∷ [], [])
onto_line c (some (l, r)) = some (c ∷ l, r)

-- `std::getline(in, line, sep)` on the unread bytes: `none` if the stream fails, which it does
-- where nothing is left; else the line and what is left behind its separator.
unfoldable pub get_line : ℕ → Bytes → Option (Bytes × Bytes)
get_line sep [] = none
get_line sep (c ∷ s) = if c == sep then some ([], s) else onto_line c (get_line sep s)

-- puts a byte in front of the first line
unfoldable pub onto_first : ℕ → List Bytes → List Bytes
onto_first c [] = (c ∷ []) ∷ []
onto_first c (l ∷ ls) = (c ∷ l) ∷ ls

-- The lines that `while (std::getline(in, line, sep))` runs through.
unfoldable pub lines : ℕ → Bytes → List Bytes
unfolding onto_first
lines sep [] = []
lines sep (c ∷ s) = let rest = lines sep s in if c == sep then [] ∷ rest else onto_first c rest
