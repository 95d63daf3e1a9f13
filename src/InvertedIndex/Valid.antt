-- ===== src/InvertedIndex/Valid.antt =====
-- The invariant of `m_count` through the operations of `InvertedIndex`.
use semantic_search_engine.Base.{
  suc, ◌<◌, ◌≡◌, ◌≢◌, List, [], ◌∷◌, Bool, true, false, Option, none, some, Bytes, bytes_discrete,
  arith, All, if◌then◌else◌,
}
use semantic_search_engine.Map.{find, modify, erase, UniqueKeys}
use semantic_search_engine.Map.Laws.{modify-UniqueKeys, erase-UniqueKeys, All-modify, All-erase}
use semantic_search_engine.Text.{lines}
use semantic_search_engine.InvertedIndex.{
  Index, Postings, tokenize, count_token, add_tokens, add_lines, remove_file, index_contents,
  add_file, build, build_from, DirectoryEntry, keep_nonempty,
}
use semantic_search_engine.InvertedIndex.Counts.{IsCounts, IsValid, find-remove_file-none}

nil-IsValid : IsValid []
nil-IsValid = record { unique_words = tt; nonempty = tt; counts = tt }

bump-ne-nil : (q : Bytes) (m : Postings) → modify bytes_discrete q suc 0 m ≢ []
unfolding modify
bump-ne-nil q [] = λ e. cc
bump-ne-nil q ((p, n) ∷ m) = ground arith

bump-IsCounts : (q : Bytes) (m : Postings) → IsCounts m → IsCounts (modify bytes_discrete q suc 0 m)
bump-IsCounts q m (u, h) = (
  modify-UniqueKeys bytes_discrete q suc 0 m u,
  All-modify bytes_discrete (λ n. 0 < n) q suc 0 m (omega arith) (λ v hv. omega arith) h,
)

count_token-IsValid : (q u : Bytes) (idx : Index) → IsValid idx → IsValid (count_token q u idx)
unfolding count_token
count_token-IsValid q u idx v = record {
  unique_words = modify-UniqueKeys bytes_discrete u bump [] idx v.unique_words;
  nonempty =
      All-modify bytes_discrete (λ m. m ≢ []) u bump [] idx (bump-ne-nil q [])
        (λ m _. bump-ne-nil q m) v.nonempty;
  counts =
      All-modify bytes_discrete IsCounts u bump [] idx (bump-IsCounts q [] (tt, tt))
        (bump-IsCounts q) v.counts;
}
  where
    bump : Postings → Postings
    bump = modify bytes_discrete q suc 0

add_tokens-IsValid :
    (q : Bytes) (ts : List Bytes) (idx : Index) → IsValid idx → IsValid (add_tokens q ts idx)
unfolding add_tokens
add_tokens-IsValid q [] idx v = v
add_tokens-IsValid q (t ∷ ts) idx v =
    add_tokens-IsValid q ts (count_token q t idx) (count_token-IsValid q t idx v)

add_lines-IsValid :
    (q : Bytes) (ls : List Bytes) (idx : Index) → IsValid idx → IsValid (add_lines q ls idx)
unfolding add_lines
add_lines-IsValid q [] idx v = v
add_lines-IsValid q (l ∷ ls) idx v =
    add_lines-IsValid q ls (add_tokens q (tokenize l) idx) (add_tokens-IsValid q (tokenize l) idx v)

index_contents-IsValid :
    (q : Bytes) (contents : Option Bytes) (idx : Index)
    → IsValid idx
    → IsValid (index_contents q contents idx)
unfolding index_contents
index_contents-IsValid q none idx v = v
index_contents-IsValid q (some s) idx v = add_lines-IsValid q (lines b'\n' s) idx v

keep_nonempty-UniqueKeys :
    (t : Bytes) (m : Postings) (idx : Index)
    → find bytes_discrete t idx ≡ none
    → UniqueKeys bytes_discrete idx
    → UniqueKeys bytes_discrete (keep_nonempty t m idx)
keep_nonempty-UniqueKeys t [] idx h u = u
keep_nonempty-UniqueKeys t (e ∷ m) idx h u = (h, u)

keep_nonempty-All :
    (P : Bytes × Postings → Type 0) (t : Bytes) (m : Postings) (idx : Index)
    → (m ≢ [] → P (t, m))
    → All P idx
    → All P (keep_nonempty t m idx)
keep_nonempty-All P t [] idx new h = h
keep_nonempty-All P t (e ∷ m) idx new h = (new (λ x. cc), h)

remove_file-UniqueKeys :
    (q : Bytes) (idx : Index)
    → UniqueKeys bytes_discrete idx
    → UniqueKeys bytes_discrete (remove_file q idx)
unfolding remove_file
remove_file-UniqueKeys q [] u = tt
remove_file-UniqueKeys q ((t, m) ∷ idx) (h, u) =
    keep_nonempty-UniqueKeys t (erase bytes_discrete q m) (remove_file q idx)
      (find-remove_file-none t q idx h) (remove_file-UniqueKeys q idx u)

remove_file-nonempty : (q : Bytes) (idx : Index) → All (λ e. e.1 ≢ []) (remove_file q idx)
unfolding remove_file
remove_file-nonempty q [] = tt
remove_file-nonempty q ((t, m) ∷ idx) =
    keep_nonempty-All (λ e. e.1 ≢ []) t (erase bytes_discrete q m) (remove_file q idx) (λ h. h)
      (remove_file-nonempty q idx)

remove_file-IsCounts :
    (q : Bytes) (idx : Index)
    → All (λ e. IsCounts e.1) idx
    → All (λ e. IsCounts e.1) (remove_file q idx)
unfolding remove_file
remove_file-IsCounts q [] h = tt
remove_file-IsCounts q ((t, m) ∷ idx) ((u, hm), h) =
    keep_nonempty-All (λ e. IsCounts e.1) t (erase bytes_discrete q m) (remove_file q idx)
      (λ _. (erase-UniqueKeys bytes_discrete q m u, All-erase bytes_discrete (λ n. 0 < n) q m hm))
      (remove_file-IsCounts q idx h)

-- `RemoveFile` erases the words that it leaves without a file.
pub remove_file-IsValid : (q : Bytes) (idx : Index) → IsValid idx → IsValid (remove_file q idx)
remove_file-IsValid q idx v = record {
  unique_words = remove_file-UniqueKeys q idx v.unique_words;
  nonempty = remove_file-nonempty q idx;
  counts = remove_file-IsCounts q idx v.counts;
}

pub add_file-IsValid :
    (q : Bytes) (contents : Option Bytes) (idx : Index)
    → IsValid idx
    → IsValid (add_file q contents idx)
unfolding add_file
add_file-IsValid q contents idx v =
    index_contents-IsValid q contents (remove_file q idx) (remove_file-IsValid q idx v)

build_from-IsValid :
    (es : List DirectoryEntry) (idx : Index) → IsValid idx → IsValid (build_from es idx)
unfolding build_from
build_from-IsValid [] idx v = v
build_from-IsValid (e ∷ es) idx v = build_from-IsValid es _ (entry e.regular)
  where
    entry : (r : Bool) → IsValid (if r then index_contents e.path e.contents idx else idx)
    entry true = index_contents-IsValid e.path e.contents idx v
    entry false = v

-- What `Build` makes of a directory is valid, whatever stands in it.
pub build-IsValid : (es : List DirectoryEntry) → IsValid (build es)
unfolding build
build-IsValid es = build_from-IsValid es [] nil-IsValid

-- A change of the index: `AddFile` or `RemoveFile`.
pub data Update : Type 0 where
  adds : Bytes → Option Bytes → Update
  removes : Bytes → Update

unfoldable pub updated : List Update → Index → Index
updated [] idx = idx
updated (adds q contents ∷ us) idx = updated us (add_file q contents idx)
updated (removes q ∷ us) idx = updated us (remove_file q idx)

updated_from-IsValid : (us : List Update) (idx : Index) → IsValid idx → IsValid (updated us idx)
unfolding updated
updated_from-IsValid [] idx v = v
updated_from-IsValid (adds q c ∷ us) idx v =
    updated_from-IsValid us (add_file q c idx) (add_file-IsValid q c idx v)
updated_from-IsValid (removes q ∷ us) idx v =
    updated_from-IsValid us (remove_file q idx) (remove_file-IsValid q idx v)

-- The invariant holds after `Build` and any later `AddFile` and `RemoveFile` calls.
pub updated-IsValid :
    (es : List DirectoryEntry) (us : List Update) → IsValid (updated us (build es))
updated-IsValid es us = updated_from-IsValid us (build es) (build-IsValid es)
