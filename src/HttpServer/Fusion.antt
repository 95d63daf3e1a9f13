-- ===== src/HttpServer/Fusion.antt =====
-- `RrfMerge`: the fusion of two rankings by reciprocal ranks.
use semantic_search_engine.Base.{
  ℕ, suc, ◌+◌, ◌≡◌, refl, ap, ◌∙◌, List, [], ◌∷◌, Option, none, some, Bytes, bytes_discrete, ite,
  if_pos, if_neg, ap₂, subst, arith, if◌then◌else◌,
}
use semantic_search_engine.HttpServer.Float.{Float}
use semantic_search_engine.Map.{find, modify, get_or, UniqueKeys}
use semantic_search_engine.Map.Laws.{find-modify, modify-UniqueKeys}

module _ (float : Float) where
  open float use {Carrier, of_nat, plus, divide, above}

  abbrev pub Scores : Type 0
  Scores = List (Bytes × Carrier)

  -- `1.0f / (k_rrf_k + static_cast<float>(i) + 1.0f)`
  unfoldable pub share : ℕ → Carrier
  share i = divide (of_nat 1) (plus (plus (of_nat 60) (of_nat i)) (of_nat 1))

  -- the loop over one ranking, from the index `i`
  unfoldable pub add_shares : {A : Type 0} → ℕ → List (Bytes × A) → Scores → Scores
  unfolding share
  add_shares i [] scores = scores
  add_shares i ((doc, a) ∷ ranking) scores =
      add_shares (suc i) ranking
        (modify bytes_discrete doc (λ x. plus x (share i)) (of_nat 0) scores)

  -- `std::ranges::sort` with `a.second > b.second`; the order of equal scores is open
  unfoldable pub insert_above : Bytes × Carrier → Scores → Scores
  insert_above e [] = e ∷ []
  insert_above e (x ∷ xs) = if above x.1 e.1 then x ∷ insert_above e xs else e ∷ x ∷ xs

  unfoldable pub sort_above : Scores → Scores
  unfolding insert_above
  sort_above [] = []
  sort_above (e ∷ es) = insert_above e (sort_above es)

  -- `RrfMerge`
  unfoldable pub rrf_merge : List (Bytes × ℕ) → Scores → Scores
  unfolding add_shares sort_above
  rrf_merge bm25 semantic = sort_above (add_shares 0 semantic (add_shares 0 bm25 []))

  -- The place of a document in a ranking.
  abbrev next_place : Option ℕ → Option ℕ
  next_place none = none
  next_place (some i) = some (suc i)

  unfoldable pub place : {A : Type 0} → Bytes → List (Bytes × A) → Option ℕ
  place doc [] = none
  place doc ((d, a) ∷ ranking) =
      ite (bytes_discrete d doc) (some 0) (next_place (place doc ranking))

  -- One over `60 + i + 1`, in the order of the additions of the source.
  abbrev pub reciprocal_rank : ℕ → Carrier
  reciprocal_rank i = divide (of_nat 1) (plus (plus (of_nat 60) (of_nat i)) (of_nat 1))

  -- A score with the reciprocal rank of a place added, where there is one.
  unfoldable pub with_share : Option ℕ → Option Carrier → Option Carrier
  with_share none score = score
  with_share (some i) score = some (plus (get_or (of_nat 0) score) (reciprocal_rank i))

  abbrev from : ℕ → Option ℕ → Option ℕ
  from i none = none
  from i (some j) = some (i + j)

  from_next : (i : ℕ) (o : Option ℕ) → from (suc i) o ≡ from i (next_place o)
  from_next i none = refl
  from_next i (some j) = ap some (omega arith)

  from_zero : (o : Option ℕ) → from 0 o ≡ o
  from_zero none = refl
  from_zero (some j) = ap some (omega arith)

  add_shares-UniqueKeys :
      {A : Type 0} (i : ℕ) (ranking : List (Bytes × A)) (scores : Scores)
      → UniqueKeys bytes_discrete scores
      → UniqueKeys bytes_discrete (add_shares i ranking scores)
  unfolding add_shares
  add_shares-UniqueKeys i [] scores u = u
  add_shares-UniqueKeys i ((doc, a) ∷ ranking) scores u =
      add_shares-UniqueKeys (suc i) ranking _ (modify-UniqueKeys bytes_discrete doc _ _ scores u)

  place_absent :
      {A : Type 0} (doc : Bytes) (ranking : List (Bytes × A))
      → find bytes_discrete doc ranking ≡ none
      → place doc ranking ≡ none
  unfolding place find
  place_absent doc [] h = refl
  place_absent doc ((d, a) ∷ ranking) h = ground (arith, place_absent doc ranking)

  find-add_share :
      (doc d : Bytes) (i : ℕ) (scores : Scores)
      → find bytes_discrete doc (modify bytes_discrete d (λ x. plus x (share i)) (of_nat 0) scores)
        ≡ with_share (ite (bytes_discrete d doc) (some i) none) (find bytes_discrete doc scores)
  unfolding with_share share
  find-add_share doc d i scores =
      find-modify bytes_discrete doc d (λ x. plus x (share i)) (of_nat 0) scores
      ∙ elim (bytes_discrete d doc) [
        | yes p ↦ rw (if_pos _ p, if_pos _ p, p) refl
        | no n ↦ rw (if_neg _ n, if_neg _ n) refl
      ]

  find-add_shares :
      {A : Type 0} (doc : Bytes) (i : ℕ) (ranking : List (Bytes × A)) (scores : Scores)
      → UniqueKeys bytes_discrete ranking
      → find bytes_discrete doc (add_shares i ranking scores)
        ≡ with_share (from i (place doc ranking)) (find bytes_discrete doc scores)
  unfolding add_shares place with_share find
  find-add_shares doc i [] scores u = refl
  find-add_shares doc i ((d, a) ∷ ranking) scores u =
      find-add_shares doc (suc i) ranking _ u.1
      ∙ ap (with_share (from (suc i) (place doc ranking))) (find-add_share doc d i scores)
      ∙ elim (bytes_discrete d doc) [
        | yes p ↦
            rw
              (
                if_pos _ p,
                if_pos _ p,
                place_absent doc ranking (subst (λ x. find bytes_discrete x ranking ≡ none) p u.0),
              )
              (ap (λ n. with_share (some n) (find bytes_discrete doc scores)) (omega arith))
        | no n ↦
            rw (if_neg _ n, if_neg _ n)
              (ap (λ o. with_share o (find bytes_discrete doc scores))
                (from_next i (place doc ranking)))
      ]

  find-insert_above :
      (p : Bytes) (e : Bytes × Carrier) (l : Scores)
      → find bytes_discrete e.0 l ≡ none
      → find bytes_discrete p (insert_above e l) ≡ find bytes_discrete p (e ∷ l)
  unfolding find insert_above
  find-insert_above p e [] u = refl
  find-insert_above p e ((f, c) ∷ l) u = ground (arith, find-insert_above p e l)

  find-sort_above :
      (p : Bytes) (l : Scores)
      → UniqueKeys bytes_discrete l
      → find bytes_discrete p (sort_above l) ≡ find bytes_discrete p l
  unfolding find sort_above
  find-sort_above p [] u = refl
  find-sort_above p ((f, c) ∷ l) u = ground (
    arith,
    find-insert_above p (f, c) (sort_above l),
    find-sort_above p l u.1,
    find-sort_above f l u.1,
  )

  -- If neither ranking names a document twice, the merged list holds the documents of both: one at
  -- place `i` of the first and `j` of the second has the score `0 + 1/(60+i+1) + 1/(60+j+1)`, each step
  -- in the arithmetic of floats, and a ranking that does not name it adds nothing.
  pub find-rrf_merge :
      (doc : Bytes) (bm25 : List (Bytes × ℕ)) (semantic : Scores)
      → UniqueKeys bytes_discrete bm25
      → UniqueKeys bytes_discrete semantic
      → find bytes_discrete doc (rrf_merge bm25 semantic)
        ≡ with_share (place doc semantic) (with_share (place doc bm25) none)
  unfolding rrf_merge
  find-rrf_merge doc bm25 semantic u v =
      find-sort_above doc _
        (add_shares-UniqueKeys 0 semantic _ (add_shares-UniqueKeys 0 bm25 [] tt))
      ∙ find-add_shares doc 0 semantic (add_shares 0 bm25 []) v
      ∙ ap₂ with_share (from_zero (place doc semantic)) (
          find-add_shares doc 0 bm25 [] u
          ∙ ap₂ with_share (from_zero (place doc bm25)) (unfold find in refl))
