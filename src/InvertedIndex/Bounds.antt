-- ===== src/InvertedIndex/Bounds.antt =====
-- How large the counts get: an `int` holds a count as long as its file is smaller than 2^31
-- bytes, and a score as long as the file's size times the number of terms is.
use semantic_search_engine.Base.{
  ℕ, ◌+◌, ◌*◌, ◌≤◌, ◌≡◌, [], ◌∷◌, ◌++◌, List, some, Bytes, bytes_discrete, arith, length,
  length-append, ap, sym, ◌∙◌,
}
use semantic_search_engine.Map.{find}
use semantic_search_engine.Text.{to_lower}
use semantic_search_engine.InvertedIndex.{Index, flush, tokenize_from, tokenize, search_and_rank}
use semantic_search_engine.InvertedIndex.Counts.{freq, occurrences}
use semantic_search_engine.InvertedIndex.Search.{Corpus, Represents, answer, score, search-answer}

length-flush-le :
    (curr : Bytes) (res : List Bytes) → length (flush curr res) ≤ length res + length curr
unfolding flush
length-flush-le [] res = omega arith
length-flush-le (c ∷ curr) res = omega (arith, length-append res ((c ∷ curr) ∷ []))

length-tokenize_from-le :
    (s : Bytes) (res : List Bytes) (curr : Bytes)
    → length (tokenize_from res curr s) ≤ length res + length curr + length s
unfolding tokenize_from
length-tokenize_from-le [] res curr = omega (arith, length-flush-le curr res)
length-tokenize_from-le (c ∷ s) res curr = ground (
  arith,
  length-tokenize_from-le s res (curr ++ to_lower c ∷ []),
  length-append curr (to_lower c ∷ []),
  length-tokenize_from-le s (flush curr res) [],
  length-flush-le curr res,
)

length-tokenize-le : (s : Bytes) → length (tokenize s) ≤ length s
unfolding tokenize
length-tokenize-le s = omega (arith, length-tokenize_from-le s [] [])

occurrences-le-length : (t : Bytes) (us : List Bytes) → occurrences t us ≤ length us
occurrences-le-length t [] = omega arith
occurrences-le-length t (u ∷ us) = ground (arith, occurrences-le-length t us)

score-le : (ts us : List Bytes) → score ts us ≤ length ts * length us
score-le [] us = omega arith
score-le (t ∷ ts) us = grind (arith, score-le ts us, occurrences-le-length t us)

-- A count is at most the size of its file.
pub freq-le-length :
    (idx : Index) (files : Corpus) (t p s : Bytes)
    → Represents idx files
    → files p ≡ tokenize s
    → freq t p idx ≤ length s
freq-le-length idx files t p s r e =
    omega
      (arith, r.counted t p, occurrences-le-length t (files p), length-tokenize-le s, ap length e)

answer-le : (ts us : List Bytes) (n : ℕ) → answer ts us ≡ some n → n ≤ length ts * length us
answer-le [] us n h = cc
answer-le (t ∷ ts) us n h = ground (arith, score-le (t ∷ ts) us)

mul_mono_right : (k m n : ℕ) → m ≤ n → k * m ≤ k * n
mul_mono_right k m n h = grind arith

-- A score is at most the number of terms times the size of the file.
pub search-le :
    (idx : Index) (files : Corpus) (ts : List Bytes) (p s : Bytes) (n : ℕ)
    → Represents idx files
    → files p ≡ tokenize s
    → find bytes_discrete p (search_and_rank idx ts) ≡ some n
    → n ≤ length ts * length s
search-le idx files ts p s n r e h = omega (
  arith,
  answer-le ts (files p) n (sym (search-answer p idx files ts r) ∙ h),
  mul_mono_right (length ts) (length (files p)) (length s)
      (omega (arith, length-tokenize-le s, ap length e)),
)
