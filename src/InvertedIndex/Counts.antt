-- ===== src/InvertedIndex/Counts.antt =====
-- What the counts of the index are after each operation of `InvertedIndex`.
use semantic_search_engine.Base.{
  ℕ, suc, ◌+◌, ◌<◌, ◌≡◌, ◌≢◌, refl, List, [], ◌∷◌, ◌++◌, Option, none, some, Bytes, bytes_discrete,
  ite, arith, All,
}
use semantic_search_engine.Map.{find, modify, UniqueKeys, or_zero, get_or}
use semantic_search_engine.Map.Laws.{find-modify, find-erase}
use semantic_search_engine.Text.{lines}
use semantic_search_engine.InvertedIndex.{
  Index, Postings, tokenize, count_token, add_tokens, add_lines, remove_file, index_contents,
  add_file,
}
use semantic_search_engine.InvertedIndex.Tokens.{tokenize_lines, tokenize_lines-lines}

-- The postings of a word, none if the index has no entry for it.
abbrev pub postings : Bytes → Index → Postings
postings t idx = get_or [] (find bytes_discrete t idx)

-- m_count[t][p], 0 where there is no entry.
abbrev pub freq : Bytes → Bytes → Index → ℕ
freq t p idx = or_zero (find bytes_discrete p (postings t idx))

-- How often a token stands in a list.
abbrev pub occurrences : Bytes → List Bytes → ℕ
occurrences t [] = 0
occurrences t (u ∷ us) = ite (bytes_discrete u t) 1 0 + occurrences t us

-- A map of counts: each key once, no count 0.
abbrev pub IsCounts : Postings → Type 0
IsCounts m = UniqueKeys bytes_discrete m × All (λ e. 0 < e.1) m

-- The invariant of `m_count`: each word once, its postings not empty, each file once, no count 0.
pub record IsValid (idx : Index) : Type 0 where
  pub unique_words : UniqueKeys bytes_discrete idx
  pub nonempty : All (λ e. e.1 ≢ []) idx
  pub counts : All (λ e. IsCounts e.1) idx

pub occurrences-append :
    (t : Bytes) (us vs : List Bytes)
    → occurrences t (us ++ vs) ≡ occurrences t us + occurrences t vs
occurrences-append t [] vs = omega arith
occurrences-append t (u ∷ us) vs = omega (arith, occurrences-append t us vs)

freq-count_token :
    (t p q u : Bytes) (idx : Index)
    → freq t p (count_token q u idx)
      ≡ freq t p idx + ite (bytes_discrete q p) (ite (bytes_discrete u t) 1 0) 0
unfolding count_token find
freq-count_token t p q u idx = ground (
  arith,
  find-modify bytes_discrete t u (modify bytes_discrete q suc 0) [] idx,
  find-modify bytes_discrete p q suc 0 (postings u idx),
)

freq-add_tokens :
    (t p q : Bytes) (ts : List Bytes) (idx : Index)
    → freq t p (add_tokens q ts idx) ≡ freq t p idx + ite (bytes_discrete q p) (occurrences t ts) 0
unfolding add_tokens
freq-add_tokens t p q [] idx = ground arith
freq-add_tokens t p q (u ∷ ts) idx =
    ground (arith, freq-add_tokens t p q ts (count_token q u idx), freq-count_token t p q u idx)

freq-add_lines :
    (t p q : Bytes) (ls : List Bytes) (idx : Index)
    → freq t p (add_lines q ls idx)
      ≡ freq t p idx + ite (bytes_discrete q p) (occurrences t (tokenize_lines ls)) 0
unfolding add_lines
freq-add_lines t p q [] idx = ground arith
freq-add_lines t p q (l ∷ ls) idx = ground (
  arith,
  freq-add_lines t p q ls (add_tokens q (tokenize l) idx),
  freq-add_tokens t p q (tokenize l) idx,
  occurrences-append t (tokenize l) (tokenize_lines ls),
)

-- The tokens that a file brings: none if it does not open.
abbrev pub tokens_of : Option Bytes → List Bytes
tokens_of none = []
tokens_of (some s) = tokenize s

pub freq-index_contents :
    (t p q : Bytes) (contents : Option Bytes) (idx : Index)
    → freq t p (index_contents q contents idx)
      ≡ freq t p idx + ite (bytes_discrete q p) (occurrences t (tokens_of contents)) 0
unfolding index_contents
freq-index_contents t p q none idx = ground arith
freq-index_contents t p q (some s) idx =
    ground (arith, freq-add_lines t p q (lines b'\n' s) idx, tokenize_lines-lines s)

pub find-remove_file-none :
    (t q : Bytes) (idx : Index)
    → find bytes_discrete t idx ≡ none
    → find bytes_discrete t (remove_file q idx) ≡ none
unfolding find remove_file
find-remove_file-none t q [] h = refl
find-remove_file-none t q ((u, m) ∷ idx) h = ground (arith, find-remove_file-none t q idx)

pub freq-remove_file :
    (t p q : Bytes) (idx : Index)
    → UniqueKeys bytes_discrete idx
    → freq t p (remove_file q idx) ≡ ite (bytes_discrete q p) 0 (freq t p idx)
unfolding find remove_file
freq-remove_file t p q [] u = ground arith
freq-remove_file t p q ((v, m) ∷ idx) u = ground (
  arith,
  freq-remove_file t p q idx u.1,
  find-remove_file-none v q idx,
  find-erase bytes_discrete p q m,
)

-- After `AddFile` the counts of the file are those of its present contents, whatever it held
-- before; all other counts are as they were.
pub freq-add_file :
    (t p q : Bytes) (contents : Option Bytes) (idx : Index)
    → IsValid idx
    → freq t p (add_file q contents idx)
      ≡ ite (bytes_discrete q p) (occurrences t (tokens_of contents)) (freq t p idx)
unfolding add_file
freq-add_file t p q contents idx v = ground (
  arith,
  freq-index_contents t p q contents (remove_file q idx),
  freq-remove_file t p q idx v.unique_words,
)
