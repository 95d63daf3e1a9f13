-- ===== src/InvertedIndex/Search.antt =====
-- `SearchAndRank` against the files' tokens: which files it returns, and with which score.
use semantic_search_engine.Base.{
  ℕ, ◌+◌, ◌<◌, ◌≡◌, refl, Bool, true, ◌&&◌, List, [], ◌∷◌, Option, none, some, Bytes,
  bytes_discrete, arith, All, ltb, ◌==◌, if◌then◌else◌, length, Option-cases, inl, inr,
}
use semantic_search_engine.Map.{find, UniqueKeys}
use semantic_search_engine.Map.Laws.{All-find}
use semantic_search_engine.InvertedIndex.{Index, Postings, matching, rank, search_and_rank}
use semantic_search_engine.InvertedIndex.Counts.{freq, postings, occurrences, IsCounts, IsValid}
use semantic_search_engine.InvertedIndex.Ranking.{
  total, hits, has_posting, count_at, Gathers, gather-Gathers, find-matching, matching-UniqueKeys,
  hits-le-length,
}
use semantic_search_engine.InvertedIndex.Sorting.{find-sort_ranked}

rank-find :
    (p : Bytes) (idx : Index) (ts : List Bytes) (r : Option (Postings × Postings))
    → 0 < length ts
    → Gathers p idx ts [] [] r
    → find bytes_discrete p (rank (length ts) r)
      ≡ (if hits p idx ts == length ts then some (total p idx ts) else none)
unfolding rank find
rank-find p idx ts none pos g = ground arith
rank-find p idx ts (some (s, m)) pos g = ground (
  arith,
  g.scored,
  g.matched,
  find-sort_ranked p (matching (length ts) s m) (matching-UniqueKeys (length ts) s m (g.unique tt)),
  find-matching p (length ts) s m pos (g.unique tt),
)

-- A file is in the result exactly if every term has a posting for it.
search-hits :
    (p : Bytes) (idx : Index) (t : Bytes) (ts : List Bytes)
    → All (λ e. UniqueKeys bytes_discrete e.1) idx
    → find bytes_discrete p (search_and_rank idx (t ∷ ts))
      ≡ (if hits p idx (t ∷ ts) == length (t ∷ ts) then some (total p idx (t ∷ ts)) else none)
unfolding search_and_rank
search-hits p idx t ts u =
    rank-find p idx (t ∷ ts) _ (omega arith) (gather-Gathers p idx (t ∷ ts) [] [] u)

-- What the files hold: the tokens of each path.
abbrev pub Corpus : Type 0
Corpus = Bytes → List Bytes

-- The index counts exactly the tokens of the corpus.
pub record Represents (idx : Index) (files : Corpus) : Type 0 where
  pub valid : IsValid idx
  pub counted : (t p : Bytes) → freq t p idx ≡ occurrences t (files p)

-- Every term stands among the tokens.
abbrev pub all_occur : List Bytes → List Bytes → Bool
all_occur [] us = true
all_occur (t ∷ ts) us = ltb 0 (occurrences t us) && all_occur ts us

-- The term frequencies, added up.
abbrev pub score : List Bytes → List Bytes → ℕ
score [] us = 0
score (t ∷ ts) us = occurrences t us + score ts us

-- What a query says of a file with the tokens `us`: nothing, or the file's score.
abbrev pub answer : List Bytes → List Bytes → Option ℕ
answer [] us = none
answer (t ∷ ts) us = if all_occur (t ∷ ts) us then some (score (t ∷ ts) us) else none

find-pos :
    (p : Bytes) (m : Postings)
    → All (λ e. 0 < e.1) m
    → has_posting p m ≡ (if ltb 0 (count_at p m) then 1 else 0)
unfolding find
find-pos p [] h = refl
find-pos p ((f, n) ∷ m) (hn, h) = ground (arith, find-pos p m h)

postings-pos : (t : Bytes) (idx : Index) → IsValid idx → All (λ e. 0 < e.1) (postings t idx)
postings-pos t idx v = elim (Option-cases (find bytes_discrete t idx)) [
  | inl e ↦ rw e tt
  | inr (m, e) ↦ rw e (All-find bytes_discrete IsCounts t idx v.counts e).1
]

hits-all_occur :
    (p : Bytes) (idx : Index) (files : Corpus) (ts : List Bytes)
    → Represents idx files
    → (hits p idx ts == length ts) ≡ all_occur ts (files p)
hits-all_occur p idx files [] r = refl
hits-all_occur p idx files (t ∷ ts) r = ground (
  arith,
  hits-all_occur p idx files ts r,
  find-pos p (postings t idx) (postings-pos t idx r.valid),
  hits-le-length p idx ts,
  r.counted t p,
)

total-score :
    (p : Bytes) (idx : Index) (files : Corpus) (ts : List Bytes)
    → Represents idx files
    → total p idx ts ≡ score ts (files p)
total-score p idx files [] r = refl
total-score p idx files (t ∷ ts) r = omega (arith, total-score p idx files ts r, r.counted t p)

pub counts_unique :
    (idx : Index) → All (λ e. IsCounts e.1) idx → All (λ e. UniqueKeys bytes_discrete e.1) idx
counts_unique [] h = tt
counts_unique (e ∷ idx) (he, h) = (he.0, counts_unique idx h)

-- A search over an index that represents a corpus returns a file exactly if the query has terms
-- and each of them is a token of the file, with the sum of their frequencies as its score.
pub search-answer :
    (p : Bytes) (idx : Index) (files : Corpus) (ts : List Bytes)
    → Represents idx files
    → find bytes_discrete p (search_and_rank idx ts) ≡ answer ts (files p)
search-answer p idx files [] r = unfold search_and_rank find in refl
search-answer p idx files (t ∷ ts) r = rw (
  search-hits p idx t ts (counts_unique idx r.valid.counts),
  hits-all_occur p idx files (t ∷ ts) r,
  total-score p idx files (t ∷ ts) r,
)
