-- ===== src/InvertedIndex/Ranking.antt =====
-- The loops of `SearchAndRank`: what they put into `scores`, `matchCount` and the sorted result.
use semantic_search_engine.Base.{
  ℕ, suc, ◌+◌, ◌≤◌, ◌<◌, ◌≡◌, List, [], ◌∷◌, Option, none, some, Bytes, bytes_discrete, arith, All,
  ◌==◌, if◌then◌else◌, length, Option-cases, inl, inr,
}
use semantic_search_engine.Map.{find, modify, UniqueKeys, or_zero}
use semantic_search_engine.Map.Laws.{find-modify, modify-UniqueKeys, All-find}
use semantic_search_engine.InvertedIndex.{
  Index, Postings, add_scores, add_matches, gather, matching,
}
use semantic_search_engine.InvertedIndex.Counts.{freq, postings}

abbrev pub count_at : Bytes → Postings → ℕ
count_at p m = or_zero (find bytes_discrete p m)

abbrev one_if_some : Option ℕ → ℕ
one_if_some none = 0
one_if_some (some n) = 1

-- 1 if the word has a posting for the file, else 0
abbrev pub has_posting : Bytes → Postings → ℕ
has_posting p m = one_if_some (find bytes_discrete p m)

-- the counts of the terms in a file, added up
abbrev pub total : Bytes → Index → List Bytes → ℕ
total p idx [] = 0
total p idx (t ∷ ts) = freq t p idx + total p idx ts

-- how many of the terms have a posting for the file
abbrev pub hits : Bytes → Index → List Bytes → ℕ
hits p idx [] = 0
hits p idx (t ∷ ts) = has_posting p (postings t idx) + hits p idx ts

count_at-add_scores :
    (p : Bytes) (m s : Postings)
    → UniqueKeys bytes_discrete m
    → count_at p (add_scores m s) ≡ count_at p s + count_at p m
unfolding add_scores find
count_at-add_scores p [] s u = omega arith
count_at-add_scores p ((f, n) ∷ m) s u = ground (
  arith,
  count_at-add_scores p m (modify bytes_discrete f (λ k. k + n) 0 s) u.1,
  find-modify bytes_discrete p f (λ k. k + n) 0 s,
)

count_at-add_matches :
    (p : Bytes) (m s : Postings)
    → UniqueKeys bytes_discrete m
    → count_at p (add_matches m s) ≡ count_at p s + has_posting p m
unfolding add_matches find
count_at-add_matches p [] s u = omega arith
count_at-add_matches p ((f, n) ∷ m) s u = ground (
  arith,
  count_at-add_matches p m (modify bytes_discrete f suc 0 s) u.1,
  find-modify bytes_discrete p f suc 0 s,
)

add_matches-UniqueKeys :
    (m s : Postings) → UniqueKeys bytes_discrete s → UniqueKeys bytes_discrete (add_matches m s)
unfolding add_matches
add_matches-UniqueKeys [] s u = u
add_matches-UniqueKeys ((f, n) ∷ m) s u =
    add_matches-UniqueKeys m (modify bytes_discrete f suc 0 s)
      (modify-UniqueKeys bytes_discrete f suc 0 s u)

pub hits-le-length : (p : Bytes) (idx : Index) (ts : List Bytes) → hits p idx ts ≤ length ts
hits-le-length p idx [] = omega arith
hits-le-length p idx (t ∷ ts) = ground (arith, hits-le-length p idx ts)

-- What the loop over the terms leaves, if no term is missing from the index.
pub record Gathered (p : Bytes) (idx : Index) (ts : List Bytes) (s m s' m' : Postings)
    : Type 0 where
  pub scored : count_at p s' ≡ count_at p s + total p idx ts
  pub matched : count_at p m' ≡ count_at p m + hits p idx ts
  pub unique : UniqueKeys bytes_discrete m → UniqueKeys bytes_discrete m'

-- An early return means that some term has no postings at all.
abbrev pub Gathers :
    Bytes → Index → List Bytes → Postings → Postings → Option (Postings × Postings) → Type 0
Gathers p idx ts s m none = hits p idx ts < length ts
Gathers p idx ts s m (some (s', m')) = Gathered p idx ts s m s' m'

Gathers-step :
    (p : Bytes) (idx : Index) (t : Bytes) (ts : List Bytes) (s m ps : Postings)
    → find bytes_discrete t idx ≡ some ps
    → UniqueKeys bytes_discrete ps
    → (r : Option (Postings × Postings)) → Gathers p idx ts (add_scores ps s) (add_matches ps m) r
    → Gathers p idx (t ∷ ts) s m r
Gathers-step p idx t ts s m ps e u none g = rw e (ground arith)
Gathers-step p idx t ts s m ps e u (some (s', m')) g = record {
  scored = rw e (omega (arith, g.scored, count_at-add_scores p ps s u));
  matched = rw e (omega (arith, g.matched, count_at-add_matches p ps m u));
  unique = λ um. g.unique (add_matches-UniqueKeys ps m um);
}

pub gather-Gathers :
    (p : Bytes) (idx : Index) (ts : List Bytes) (s m : Postings)
    → All (λ e. UniqueKeys bytes_discrete e.1) idx
    → Gathers p idx ts s m (gather idx ts s m)
unfolding gather find
gather-Gathers p idx [] s m v = record {
  scored = omega arith;
  matched = omega arith;
  unique = λ u. u;
}
gather-Gathers p idx (t ∷ ts) s m v = elim (Option-cases (find bytes_discrete t idx)) [
  | inl e ↦ rw (e, gather) (ground (arith, e, hits-le-length p idx ts))
  | inr (ps, e) ↦
      rw (e, gather)
        (Gathers-step p idx t ts s m ps e
          (All-find bytes_discrete (UniqueKeys bytes_discrete) t idx v e)
          (gather idx ts (add_scores ps s) (add_matches ps m))
          (gather-Gathers p idx ts (add_scores ps s) (add_matches ps m) v))
]

-- The files kept are those with the full count, and their score is the one in `scores`.
pub find-matching :
    (p : Bytes) (n : ℕ) (s m : Postings)
    → 0 < n
    → UniqueKeys bytes_discrete m
    → find bytes_discrete p (matching n s m)
      ≡ (if count_at p m == n then some (count_at p s) else none)
unfolding find matching
find-matching p n s [] pos u = ground arith
find-matching p n s ((f, c) ∷ m) pos u = ground (arith, find-matching p n s m pos u.1)

find-matching-none :
    (p : Bytes) (n : ℕ) (s m : Postings)
    → find bytes_discrete p m ≡ none
    → find bytes_discrete p (matching n s m) ≡ none
unfolding matching find
find-matching-none p n s [] h = h
find-matching-none p n s ((f, c) ∷ m) h = ground (arith, find-matching-none p n s m)

pub matching-UniqueKeys :
    (n : ℕ) (s m : Postings)
    → UniqueKeys bytes_discrete m
    → UniqueKeys bytes_discrete (matching n s m)
unfolding matching
matching-UniqueKeys n s [] u = tt
matching-UniqueKeys n s ((f, c) ∷ m) u =
    ground (arith, matching-UniqueKeys n s m u.1, find-matching-none f n s m)
