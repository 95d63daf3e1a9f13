-- ===== src/InvertedIndex/Sorting.antt =====
-- The sort at the end of `SearchAndRank`: it keeps the entries and orders the scores.
use semantic_search_engine.Base.{
  ℕ, ◌≤◌, ◌≡◌, refl, ◌∙◌, [], ◌∷◌, none, Bytes, bytes_discrete, arith,
}
use semantic_search_engine.Map.{find, UniqueKeys}
use semantic_search_engine.InvertedIndex.{Postings, insert_ranked, sort_ranked}

find-insert_ranked :
    (p : Bytes) (e : Bytes × ℕ) (l : Postings)
    → find bytes_discrete e.0 l ≡ none
    → find bytes_discrete p (insert_ranked e l) ≡ find bytes_discrete p (e ∷ l)
unfolding find insert_ranked
find-insert_ranked p e [] u = refl
find-insert_ranked p e ((f, c) ∷ l) u = ground (arith, find-insert_ranked p e l)

pub find-sort_ranked :
    (p : Bytes) (l : Postings)
    → UniqueKeys bytes_discrete l
    → find bytes_discrete p (sort_ranked l) ≡ find bytes_discrete p l
unfolding find sort_ranked
find-sort_ranked p [] u = refl
find-sort_ranked p ((f, c) ∷ l) u = ground (
  arith,
  find-insert_ranked p (f, c) (sort_ranked l),
  find-sort_ranked p l u.1,
  find-sort_ranked f l u.1,
)

insert_ranked-UniqueKeys :
    (e : Bytes × ℕ) (l : Postings)
    → find bytes_discrete e.0 l ≡ none
    → UniqueKeys bytes_discrete l
    → UniqueKeys bytes_discrete (insert_ranked e l)
unfolding insert_ranked find
insert_ranked-UniqueKeys e [] h u = (refl, tt)
insert_ranked-UniqueKeys e ((f, c) ∷ l) h u =
    ground (arith, insert_ranked-UniqueKeys e l, find-insert_ranked f e l)

pub sort_ranked-UniqueKeys :
    (l : Postings) → UniqueKeys bytes_discrete l → UniqueKeys bytes_discrete (sort_ranked l)
unfolding sort_ranked
sort_ranked-UniqueKeys [] u = tt
sort_ranked-UniqueKeys ((f, c) ∷ l) u =
    insert_ranked-UniqueKeys (f, c) (sort_ranked l) (find-sort_ranked f l u.1 ∙ u.0)
      (sort_ranked-UniqueKeys l u.1)

-- Scores fall along the list, and none is above the bound.
abbrev RankedBelow : ℕ → Postings → Type 0
RankedBelow n [] = Unit
RankedBelow n ((f, c) ∷ l) = (c ≤ n) × RankedBelow c l

-- Scores fall along the list.
abbrev pub IsRanked : Postings → Type 0
IsRanked [] = Unit
IsRanked ((f, c) ∷ l) = RankedBelow c l

insert_ranked-RankedBelow :
    (n : ℕ) (e : Bytes × ℕ) (l : Postings)
    → e.1 ≤ n
    → RankedBelow n l
    → RankedBelow n (insert_ranked e l)
unfolding insert_ranked
insert_ranked-RankedBelow n e [] h r = (h, tt)
insert_ranked-RankedBelow n e ((f, c) ∷ l) h r = ground (arith, insert_ranked-RankedBelow c e l)

insert_ranked-IsRanked : (e : Bytes × ℕ) (l : Postings) → IsRanked l → IsRanked (insert_ranked e l)
unfolding insert_ranked
insert_ranked-IsRanked e [] r = tt
insert_ranked-IsRanked e ((f, c) ∷ l) r = ground (arith, insert_ranked-RankedBelow c e l)

pub sort_ranked-IsRanked : (l : Postings) → IsRanked (sort_ranked l)
unfolding sort_ranked
sort_ranked-IsRanked [] = tt
sort_ranked-IsRanked (e ∷ l) = insert_ranked-IsRanked e (sort_ranked l) (sort_ranked-IsRanked l)
