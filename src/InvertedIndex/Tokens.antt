-- ===== src/InvertedIndex/Tokens.antt =====
-- `InvertedIndex::Tokenize`: what its tokens are, and how they follow from the pieces of a text.
use semantic_search_engine.Base.{
  ℕ, true, false, ◌≡◌, ◌≢◌, refl, ap, sym, ◌∙◌, inl, inr, List, [], ◌∷◌, ◌++◌, map, append-nil,
  append_assoc, Bytes, arith, All, All-append, Bool-cases, if◌then◌else◌,
}
use semantic_search_engine.Text.{is_alnum, is_upper, to_lower, lines, onto_first}
use semantic_search_engine.InvertedIndex.{
  Index, flush, tokenize_from, tokenize, add_tokens, add_lines,
}

-- A lower-case letter or a digit.
abbrev pub IsTokenByte : ℕ → Type 0
IsTokenByte c = (is_alnum c ≡ true) × (is_upper c ≡ false)

abbrev pub IsToken : Bytes → Type 0
IsToken t = (t ≢ []) × All IsTokenByte t

tokenize_from-res :
    (s : Bytes) (res : List Bytes) (curr : Bytes)
    → tokenize_from res curr s ≡ res ++ tokenize_from [] curr s
unfolding tokenize_from
tokenize_from-res [] res [] = sym (append-nil res)
tokenize_from-res [] res (d ∷ curr) = refl
tokenize_from-res (c ∷ s) res [] =
    ground (arith, tokenize_from-res s res (to_lower c ∷ []), tokenize_from-res s res [])
tokenize_from-res (c ∷ s) res (d ∷ curr) = ground (
  arith,
  tokenize_from-res s res ((d ∷ curr) ++ to_lower c ∷ []),
  tokenize_from-res s (res ++ (d ∷ curr) ∷ []) [],
  tokenize_from-res s ((d ∷ curr) ∷ []) [],
  append_assoc res ((d ∷ curr) ∷ []) (tokenize_from [] [] s),
)

-- A byte that is neither a letter nor a digit ends the token and stands in none.
tokenize_from_break :
    (b : ℕ) (s r curr : Bytes)
    → is_alnum b ≡ false
    → tokenize_from [] curr (s ++ b ∷ r) ≡ tokenize_from [] curr s ++ tokenize_from [] [] r
unfolding tokenize_from
tokenize_from_break b [] r curr h = ground (arith, tokenize_from-res r (flush curr []) [])
tokenize_from_break b (c ∷ s) r curr h = ground (
  arith,
  tokenize_from_break b s r (curr ++ to_lower c ∷ []) h,
  tokenize_from_break b s r [] h,
  tokenize_from-res (s ++ b ∷ r) (flush curr []) [],
  tokenize_from-res s (flush curr []) [],
  append_assoc (flush curr []) (tokenize_from [] [] s) (tokenize_from [] [] r),
)

-- A separator splits the tokens of a text into those before it and those behind it.
tokenize-append :
    (s : Bytes) (b : ℕ) (r : Bytes)
    → is_alnum b ≡ false
    → tokenize (s ++ b ∷ r) ≡ tokenize s ++ tokenize r
unfolding tokenize
tokenize-append s b r h = tokenize_from_break b s r [] h

tokenize_from-alnum :
    (w curr : Bytes)
    → All (λ c. is_alnum c ≡ true) w
    → tokenize_from [] curr w ≡ flush (curr ++ map to_lower w) []
unfolding tokenize_from
tokenize_from-alnum [] curr h = rw append-nil
tokenize_from-alnum (c ∷ w) curr (hc, h) = ground (
  arith,
  tokenize_from-alnum w (curr ++ to_lower c ∷ []) h,
  append_assoc curr (to_lower c ∷ []) (map to_lower w),
)

-- A word of letters and digits is one token, in lower case.
tokenize_word :
    (w : Bytes) → w ≢ [] → All (λ c. is_alnum c ≡ true) w → tokenize w ≡ map to_lower w ∷ []
unfolding tokenize flush
tokenize_word [] ne h = absurd (ne refl)
tokenize_word (c ∷ w) ne h = tokenize_from-alnum (c ∷ w) [] h

to_lower-IsTokenByte : (c : ℕ) → is_alnum c ≡ true → IsTokenByte (to_lower c)
unfolding to_lower is_alnum
to_lower-IsTokenByte c h = ground arith

flush-IsToken :
    (curr : Bytes) (res : List Bytes)
    → All IsTokenByte curr
    → All IsToken res
    → All IsToken (flush curr res)
unfolding flush
flush-IsToken [] res hc hr = hr
flush-IsToken (c ∷ curr) res hc hr =
    All-append IsToken res ((c ∷ curr) ∷ []) hr (((λ e. cc), hc), tt)

tokenize_from-IsToken :
    (s : Bytes) (res : List Bytes) (curr : Bytes)
    → All IsTokenByte curr
    → All IsToken res
    → All IsToken (tokenize_from res curr s)
unfolding tokenize_from
tokenize_from-IsToken [] res curr hc hr = flush-IsToken curr res hc hr
tokenize_from-IsToken (c ∷ s) res curr hc hr = elim (Bool-cases (is_alnum c)) [
  | inl e ↦
      rw (e, tokenize_from)
        (tokenize_from-IsToken s res (curr ++ to_lower c ∷ [])
          (All-append IsTokenByte curr (to_lower c ∷ []) hc (to_lower-IsTokenByte c e, tt)) hr)
  | inr e ↦
      rw (e, tokenize_from)
        (tokenize_from-IsToken s (flush curr res) [] tt (flush-IsToken curr res hc hr))
]

-- Every token is a nonempty word of lower-case letters and digits.
pub tokenize-IsToken : (s : Bytes) → All IsToken (tokenize s)
unfolding tokenize
tokenize-IsToken s = tokenize_from-IsToken s [] [] tt tt

is_alnum-to_lower : (c : ℕ) → is_alnum (to_lower c) ≡ is_alnum c
unfolding to_lower is_alnum
is_alnum-to_lower c = ground arith

to_lower-to_lower : (c : ℕ) → to_lower (to_lower c) ≡ to_lower c
unfolding to_lower
to_lower-to_lower c = ground arith

tokenize_from-to_lower :
    (s : Bytes) (res : List Bytes) (curr : Bytes)
    → tokenize_from res curr (map to_lower s) ≡ tokenize_from res curr s
unfolding tokenize_from
tokenize_from-to_lower [] res curr = refl
tokenize_from-to_lower (c ∷ s) res curr = ground (
  arith,
  is_alnum-to_lower c,
  to_lower-to_lower c,
  tokenize_from-to_lower s res (curr ++ to_lower c ∷ []),
  tokenize_from-to_lower s (flush curr res) [],
)

-- The case of the letters does not matter.
tokenize-to_lower : (s : Bytes) → tokenize (map to_lower s) ≡ tokenize s
unfolding tokenize
tokenize-to_lower s = tokenize_from-to_lower s [] []

-- The tokens of the lines, one line after the other.
abbrev pub tokenize_lines : List Bytes → List Bytes
tokenize_lines [] = []
tokenize_lines (l ∷ ls) = tokenize l ++ tokenize_lines ls

-- the same, with the token `curr` begun before the first line
abbrev tokens_after : Bytes → List Bytes → List Bytes
tokens_after curr [] = flush curr []
tokens_after curr (l ∷ ls) = tokenize_from [] curr l ++ tokenize_lines ls

tokens_after-nil : (ls : List Bytes) → tokens_after [] ls ≡ tokenize_lines ls
unfolding flush tokenize
tokens_after-nil [] = refl
tokens_after-nil (l ∷ ls) = refl

tokens_after-onto_first :
    (curr : Bytes) (c : ℕ) (ls : List Bytes)
    → tokens_after curr (onto_first c ls) ≡ (
        if is_alnum c
        then tokens_after (curr ++ to_lower c ∷ []) ls
        else flush curr [] ++ tokens_after [] ls)
unfolding tokenize_from onto_first flush
tokens_after-onto_first curr c [] =
    ground (arith, append-nil (flush curr []), append-nil (flush (curr ++ to_lower c ∷ []) []))
tokens_after-onto_first curr c (l ∷ ls) = ground (
  arith,
  tokenize_from-res l (flush curr []) [],
  append_assoc (flush curr []) (tokenize_from [] [] l) (tokenize_lines ls),
)

tokens_after-lines : (s curr : Bytes) → tokens_after curr (lines b'\n' s) ≡ tokenize_from [] curr s
unfolding lines tokenize_from
tokens_after-lines [] curr = refl
tokens_after-lines (c ∷ s) curr = ground (
  arith,
  newline-is_alnum,
  tokens_after-onto_first curr c (lines b'\n' s),
  tokens_after-lines s (curr ++ to_lower c ∷ []),
  tokens_after-lines s [],
  tokens_after-nil (lines b'\n' s),
  tokenize_from-res s (flush curr []) [],
)
  where
    newline-is_alnum : is_alnum b'\n' ≡ false
    newline-is_alnum = unfold is_alnum in refl

-- The lines hold the tokens of the whole text.
pub tokenize_lines-lines : (s : Bytes) → tokenize_lines (lines b'\n' s) ≡ tokenize s
unfolding tokenize
tokenize_lines-lines s = sym (tokens_after-nil (lines b'\n' s)) ∙ tokens_after-lines s []

add_tokens-append :
    (path : Bytes) (ts us : List Bytes) (idx : Index)
    → add_tokens path (ts ++ us) idx ≡ add_tokens path us (add_tokens path ts idx)
unfolding add_tokens
add_tokens-append path [] us idx = refl
add_tokens-append path (t ∷ ts) us idx = add_tokens-append path ts us _

add_lines-tokenize_lines :
    (path : Bytes) (ls : List Bytes) (idx : Index)
    → add_lines path ls idx ≡ add_tokens path (tokenize_lines ls) idx
unfolding add_lines add_tokens
add_lines-tokenize_lines path [] idx = refl
add_lines-tokenize_lines path (l ∷ ls) idx =
    add_lines-tokenize_lines path ls (add_tokens path (tokenize l) idx)
    ∙ sym (add_tokens-append path (tokenize l) (tokenize_lines ls) idx)

-- Reading a text line by line counts the same tokens, in the same order, as cutting the whole text
-- at once: no line is skipped, and none of the tokens is lost or cut at the end of a line.
pub add_lines-tokenize :
    (path s : Bytes) (idx : Index)
    → add_lines path (lines b'\n' s) idx ≡ add_tokens path (tokenize s) idx
add_lines-tokenize path s idx =
    add_lines-tokenize_lines path (lines b'\n' s) idx
    ∙ ap (λ ts. add_tokens path ts idx) (tokenize_lines-lines s)
