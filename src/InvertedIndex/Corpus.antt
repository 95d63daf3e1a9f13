-- ===== src/InvertedIndex/Corpus.antt =====
-- `InvertedIndex` against a map from paths to the tokens of the files.
use semantic_search_engine.Base.{
  ◌+◌, ◌≡◌, List, [], ◌∷◌, ◌++◌, Option, none, some, Bytes, bytes_discrete, ite, arith,
  if◌then◌else◌, length,
}
use semantic_search_engine.Map.{find, UniqueKeys}
use semantic_search_engine.InvertedIndex.{
  Index, Postings, DirectoryEntry, search_and_rank, rank, gather, matching, add_file, remove_file,
  build, build_from, index_contents,
}
use semantic_search_engine.InvertedIndex.Counts.{
  freq, occurrences, occurrences-append, tokens_of, IsValid, freq-add_file, freq-remove_file,
  freq-index_contents,
}
use semantic_search_engine.InvertedIndex.Search.{
  Corpus, Represents, answer, search-answer, counts_unique,
}
use semantic_search_engine.InvertedIndex.Ranking.{Gathers, gather-Gathers, matching-UniqueKeys}
use semantic_search_engine.InvertedIndex.Sorting.{
  IsRanked, sort_ranked-IsRanked, sort_ranked-UniqueKeys,
}
use semantic_search_engine.InvertedIndex.Valid.{
  Update, adds, removes, updated, updated-IsValid, add_file-IsValid, remove_file-IsValid,
  build-IsValid,
}

-- The files after a change: a file that does not open has no tokens.
abbrev pub change : Update → Corpus → Corpus
change (adds q contents) files p = ite (bytes_discrete q p) (tokens_of contents) (files p)
change (removes q) files p = ite (bytes_discrete q p) [] (files p)

abbrev pub changed : List Update → Corpus → Corpus
changed [] files = files
changed (u ∷ us) files = changed us (change u files)

-- The tokens that a walk over a directory finds under each path.
abbrev pub walked : List DirectoryEntry → Corpus
walked [] p = []
walked (e ∷ es) p =
    (if e.regular then ite (bytes_discrete e.path p) (tokens_of e.contents) [] else [])
    ++ walked es p

pub add_file-Represents :
    (q : Bytes) (contents : Option Bytes) (idx : Index) (files : Corpus)
    → Represents idx files
    → Represents (add_file q contents idx) (change (adds q contents) files)
add_file-Represents q contents idx files r = record {
  valid = add_file-IsValid q contents idx r.valid;
  counted = λ t p. ground (arith, freq-add_file t p q contents idx r.valid, r.counted t p);
}

pub remove_file-Represents :
    (q : Bytes) (idx : Index) (files : Corpus)
    → Represents idx files
    → Represents (remove_file q idx) (change (removes q) files)
remove_file-Represents q idx files r = record {
  valid = remove_file-IsValid q idx r.valid;
  counted = λ t p. ground (arith, freq-remove_file t p q idx r.valid.unique_words, r.counted t p);
}

freq-build_from :
    (t p : Bytes) (es : List DirectoryEntry) (idx : Index)
    → freq t p (build_from es idx) ≡ freq t p idx + occurrences t (walked es p)
unfolding build_from
freq-build_from t p [] idx = omega arith
freq-build_from t p (e ∷ es) idx = ground (
  arith,
  freq-build_from t p es (if e.regular then index_contents e.path e.contents idx else idx),
  freq-index_contents t p e.path e.contents idx,
  occurrences-append t (tokens_of e.contents) (walked es p),
)

-- `Build` represents what the walk found.
pub build-Represents : (es : List DirectoryEntry) → Represents (build es) (walked es)
unfolding build find
build-Represents es = record {
  valid = unfold build in build-IsValid es;
  counted = λ t p. omega (arith, freq-build_from t p es []);
}

pub updated-Represents :
    (us : List Update) (idx : Index) (files : Corpus)
    → Represents idx files
    → Represents (updated us idx) (changed us files)
unfolding updated
updated-Represents [] idx files r = r
updated-Represents (adds q c ∷ us) idx files r =
    updated-Represents us (add_file q c idx) (change (adds q c) files)
      (add_file-Represents q c idx files r)
updated-Represents (removes q ∷ us) idx files r =
    updated-Represents us (remove_file q idx) (change (removes q) files)
      (remove_file-Represents q idx files r)

-- The result of a search falls in score and names no file twice.
pub search-IsRanked : (idx : Index) (ts : List Bytes) → IsRanked (search_and_rank idx ts)
unfolding search_and_rank rank
search-IsRanked idx [] = tt
search-IsRanked idx (t ∷ ts) = ranked (gather idx (t ∷ ts) [] [])
  where
    ranked : (r : Option (Postings × Postings)) → IsRanked (rank (length (t ∷ ts)) r)
    ranked none = tt
    ranked (some (s, m)) = sort_ranked-IsRanked (matching (length (t ∷ ts)) s m)

search-UniqueKeys :
    (idx : Index) (ts : List Bytes)
    → IsValid idx
    → UniqueKeys bytes_discrete (search_and_rank idx ts)
unfolding search_and_rank rank
search-UniqueKeys idx [] v = tt
search-UniqueKeys idx (t ∷ ts) v =
    unique (gather idx (t ∷ ts) [] [])
      (gather-Gathers [] idx (t ∷ ts) [] [] (counts_unique idx v.counts))
  where
    unique :
        (r : Option (Postings × Postings))
        → Gathers [] idx (t ∷ ts) [] [] r
        → UniqueKeys bytes_discrete (rank (length (t ∷ ts)) r)
    unique none g = tt
    unique (some (s, m)) g =
        sort_ranked-UniqueKeys (matching (length (t ∷ ts)) s m)
          (matching-UniqueKeys (length (t ∷ ts)) s m (g.unique tt))

-- After any history of the index the result of a search is ordered by falling score and names no
-- file twice.
pub search-updated_order :
    (es : List DirectoryEntry) (us : List Update) (ts : List Bytes)
    → IsRanked (search_and_rank (updated us (build es)) ts)
      × UniqueKeys bytes_discrete (search_and_rank (updated us (build es)) ts)
search-updated_order es us ts = (
  search-IsRanked (updated us (build es)) ts,
  search-UniqueKeys (updated us (build es)) ts (updated-IsValid es us),
)

-- After `Build` and any `AddFile` and `RemoveFile` calls, `SearchAndRank` returns a file exactly
-- if the query has terms and each is a token of what the file was last indexed with; its score is
-- the sum of the frequencies of the terms there.
pub search-updated :
    (es : List DirectoryEntry) (us : List Update) (ts : List Bytes) (p : Bytes)
    → find bytes_discrete p (search_and_rank (updated us (build es)) ts)
      ≡ answer ts (changed us (walked es) p)
search-updated es us ts p =
    search-answer p (updated us (build es)) (changed us (walked es)) ts
      (updated-Represents us (build es) (walked es) (build-Represents es))
