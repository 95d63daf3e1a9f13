-- ===== src/InvertedIndex.antt =====
-- searchserver/InvertedIndex.cpp and InvertedIndex.hpp: the class `InvertedIndex`.
-- `m_count` is a map from words to maps from file paths to counts. A count is an `int`; it is a
-- plain number here, and InvertedIndex/Bounds says how large it gets. What the file system answers
-- (the walk of a directory, the bytes of a file that opens) is an argument.
pub mod Tokens
pub mod Counts
pub mod Valid
pub mod Bounds
pub mod Interface
pub mod Ranking
pub mod Sorting
pub mod Search
pub mod Corpus
use semantic_search_engine.Base.{
  ℕ, zero, suc, ◌+◌, Bool, true, false, List, [], ◌∷◌, ◌++◌, Option, none, some, Bytes,
  bytes_discrete, leb, ◌==◌, if◌then◌else◌, length,
}
use semantic_search_engine.Map.{find, modify, erase, or_zero, get_or}
use semantic_search_engine.Text.{is_alnum, to_lower, lines}

-- m_count[word]: how often the word stands in each file
abbrev pub Postings : Type 0
Postings = List (Bytes × ℕ)

-- m_count
abbrev pub Index : Type 0
Index = List (Bytes × Postings)

-- `if (!curr.empty()) res.push_back(curr)`
unfoldable pub flush : Bytes → List Bytes → List Bytes
flush [] res = res
flush (c ∷ curr) res = res ++ (c ∷ curr) ∷ []

-- the loop of `Tokenize` over `res` and `curr`
unfoldable pub tokenize_from : List Bytes → Bytes → Bytes → List Bytes
unfolding flush
tokenize_from res curr [] = flush curr res
tokenize_from res curr (c ∷ s) = elim (is_alnum c) [
  | true ↦ tokenize_from res (curr ++ to_lower c ∷ []) s
  | false ↦ tokenize_from (flush curr res) [] s
]

unfoldable pub tokenize : Bytes → List Bytes
unfolding tokenize_from
tokenize s = tokenize_from [] [] s

-- `m_count[token][path]++`
unfoldable pub count_token : Bytes → Bytes → Index → Index
count_token path token = modify bytes_discrete token (modify bytes_discrete path suc 0) []

-- the loop over the tokens of a line
unfoldable pub add_tokens : Bytes → List Bytes → Index → Index
unfolding count_token
add_tokens path [] idx = idx
add_tokens path (t ∷ ts) idx = add_tokens path ts (count_token path t idx)

-- the loop over the lines of an open file
unfoldable pub add_lines : Bytes → List Bytes → Index → Index
unfolding add_tokens
add_lines path [] idx = idx
add_lines path (l ∷ ls) idx = add_lines path ls (add_tokens path (tokenize l) idx)

abbrev keep_nonempty : Bytes → Postings → Index → Index
keep_nonempty t [] idx = idx
keep_nonempty t (e ∷ m) idx = (t, e ∷ m) ∷ idx

unfoldable pub remove_file : Bytes → Index → Index
remove_file path [] = []
remove_file path ((t, m) ∷ idx) =
    keep_nonempty t (erase bytes_discrete path m) (remove_file path idx)

-- What follows the opening of a file: `none` is a file that does not open.
unfoldable pub index_contents : Bytes → Option Bytes → Index → Index
unfolding add_lines
index_contents path none idx = idx
index_contents path (some s) idx = add_lines path (lines b'\n' s) idx

unfoldable pub add_file : Bytes → Option Bytes → Index → Index
unfolding remove_file index_contents
add_file path contents idx = index_contents path contents (remove_file path idx)

-- An entry that `recursive_directory_iterator` yields.
pub record DirectoryEntry : Type 0 where
  pub path : Bytes
  pub regular : Bool
  pub contents : Option Bytes

unfoldable pub build_from : List DirectoryEntry → Index → Index
unfolding index_contents
build_from [] idx = idx
build_from (e ∷ es) idx =
    build_from es (if e.regular then index_contents e.path e.contents idx else idx)

unfoldable pub build : List DirectoryEntry → Index
unfolding build_from
build es = build_from es []

-- the inner loop of `SearchAndRank`: `scores[file] += freq; matchCount[file]++`
unfoldable pub add_scores : Postings → Postings → Postings
add_scores [] scores = scores
add_scores ((file, freq) ∷ m) scores =
    add_scores m (modify bytes_discrete file (λ n. n + freq) 0 scores)

unfoldable pub add_matches : Postings → Postings → Postings
add_matches [] matches = matches
add_matches ((file, freq) ∷ m) matches = add_matches m (modify bytes_discrete file suc 0 matches)

-- the loop over the terms; `none` is the early return of an empty result
unfoldable pub gather : Index → List Bytes → Postings → Postings → Option (Postings × Postings)
unfolding add_scores add_matches
gather idx [] scores matches = some (scores, matches)
gather idx (t ∷ ts) scores matches = elim (find bytes_discrete t idx) [
  | none ↦ none
  | some m ↦ gather idx ts (add_scores m scores) (add_matches m matches)
]

-- the loop that keeps the files with `count == numTerms`
unfoldable pub matching : ℕ → Postings → Postings → Postings
matching num_terms scores [] = []
matching num_terms scores ((file, count) ∷ m) =
    let rest = matching num_terms scores m in
    if count == num_terms then (file, or_zero (find bytes_discrete file scores)) ∷ rest else rest

-- `std::ranges::sort` by descending score. The order of equal scores, which the standard leaves
-- open, is that of an insertion sort.
unfoldable pub insert_ranked : Bytes × ℕ → Postings → Postings
insert_ranked e [] = e ∷ []
insert_ranked e (x ∷ xs) = if leb x.1 e.1 then e ∷ x ∷ xs else x ∷ insert_ranked e xs

unfoldable pub sort_ranked : Postings → Postings
unfolding insert_ranked
sort_ranked [] = []
sort_ranked (e ∷ es) = insert_ranked e (sort_ranked es)

-- The part behind the loop over the terms.
unfoldable pub rank : ℕ → Option (Postings × Postings) → Postings
unfolding matching sort_ranked
rank num_terms none = []
rank num_terms (some (scores, matches)) = sort_ranked (matching num_terms scores matches)

unfoldable pub search_and_rank : Index → List Bytes → Postings
unfolding gather rank
search_and_rank idx [] = []
search_and_rank idx (t ∷ ts) = rank (length (t ∷ ts)) (gather idx (t ∷ ts) [] [])
