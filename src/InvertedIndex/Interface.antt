-- ===== src/InvertedIndex/Interface.antt =====
-- searchserver/InvertedIndex.hpp: the class with what its comments promise, for any implementation,
-- and that the index of searchserver/InvertedIndex.cpp keeps it.
use semantic_search_engine.Base.{ℕ, ◌≡◌, List, Option, Bytes, All, bytes_discrete}
use semantic_search_engine.InvertedIndex.{
  DirectoryEntry, Index, tokenize, build, add_file, remove_file, search_and_rank,
}
use semantic_search_engine.InvertedIndex.Corpus.{
  change, walked, build-Represents, add_file-Represents, remove_file-Represents, search-IsRanked,
}
use semantic_search_engine.InvertedIndex.Search.{Corpus, Represents, answer, search-answer}
use semantic_search_engine.InvertedIndex.Sorting.{IsRanked}
use semantic_search_engine.InvertedIndex.Tokens.{IsToken, tokenize-IsToken}
use semantic_search_engine.InvertedIndex.Valid.{adds, removes}
use semantic_search_engine.Map.{find}

-- `InvertedIndex`. `Holds s files` says that `s` indexes the tokens of `files`.
pub record SearchIndex : Type 1 where
  pub State : Type 0
  pub Holds : State → Corpus → Type 0
  pub build : List DirectoryEntry → State
  pub remove_file : Bytes → State → State
  pub add_file : Bytes → Option Bytes → State → State
  pub search_and_rank : State → List Bytes → List (Bytes × ℕ)
  pub tokenize : Bytes → List Bytes
  -- every word of the files under the root
  pub build_holds : (es : List DirectoryEntry) → Holds (build es) (walked es)
  -- all entries of the file
  pub remove_holds :
      (q : Bytes) (s : State) (files : Corpus)
      → Holds s files
      → Holds (remove_file q s) (change (removes q) files)
  -- the words of the file
  pub add_holds :
      (q : Bytes) (contents : Option Bytes) (s : State) (files : Corpus)
      → Holds s files
      → Holds (add_file q contents s) (change (adds q contents) files)
  -- the sums of the counts of the terms, over the files that hold them all
  pub search_finds :
      (s : State) (files : Corpus) (ts : List Bytes) (p : Bytes)
      → Holds s files
      → find bytes_discrete p (search_and_rank s ts) ≡ answer ts (files p)
  -- in the order of falling scores
  pub search_ranked : (s : State) (ts : List Bytes) → IsRanked (search_and_rank s ts)
  -- lower-case letters and digits
  pub tokenize_words : (text : Bytes) → All IsToken (tokenize text)

abbrev inverted_index : SearchIndex
inverted_index = record {
  State = Index;
  Holds = Represents;
  build = build;
  remove_file = remove_file;
  add_file = add_file;
  search_and_rank = search_and_rank;
  tokenize = tokenize;
  build_holds = build-Represents;
  remove_holds = λ q s files h. remove_file-Represents q s files h;
  add_holds = λ q contents s files h. add_file-Represents q contents s files h;
  search_finds = λ s files ts p h. search-answer p s files ts h;
  search_ranked = search-IsRanked;
  tokenize_words = tokenize-IsToken;
}
