-- ===== src/Tests/Index.antt =====
-- The index on a directory of two files.
use semantic_search_engine.Base.{
  ◌≡◌, refl, true, false, List, [], ◌∷◌, some, none, Bytes, codes, bytes_discrete, ℕ_discrete, All,
  ◌≤◌, ◌*◌, length,
}
use semantic_search_engine.Map.{find, modify, erase, UniqueKeys}
use semantic_search_engine.Text.{is_alnum, to_lower, lines}
use semantic_search_engine.InvertedIndex.{
  DirectoryEntry, tokenize, build, add_file, add_lines, add_tokens, search_and_rank,
}
use semantic_search_engine.InvertedIndex.Bounds.{search-le}
use semantic_search_engine.InvertedIndex.Corpus.{
  search-updated, search-updated_order, changed, walked, build-Represents,
}
use semantic_search_engine.InvertedIndex.Counts.{IsValid}
use semantic_search_engine.InvertedIndex.Search.{answer}
use semantic_search_engine.InvertedIndex.Sorting.{IsRanked}
use semantic_search_engine.InvertedIndex.Tokens.{add_lines-tokenize}
use semantic_search_engine.InvertedIndex.Valid.{Update, adds, removes, updated, updated-IsValid}

abbrev file : Bytes → Bytes → DirectoryEntry
file p s = record { path = p; regular = true; contents = some s }

abbrev walk : List DirectoryEntry
walk =
    file (codes "d/a") (codes "Red fox, red hen!\nfox")
    ∷ file (codes "d/b") (codes "hen-house")
    ∷ record { path = codes "d"; regular = false; contents = none }
    ∷ []

abbrev changes : List Update
changes = adds (codes "d/b") (some (codes "a fox in red")) ∷ removes (codes "d/x") ∷ []

tokens :
    tokenize (codes "Hello, world! foo-bar2")
    ≡ codes "hello" ∷ codes "world" ∷ codes "foo" ∷ codes "bar2" ∷ []
unfolding tokenize is_alnum to_lower
tokens = refl

ranking :
    search_and_rank (updated changes (build walk)) (codes "red" ∷ codes "fox" ∷ [])
    ≡ (codes "d/a", 4) ∷ (codes "d/b", 2) ∷ []
unfolding search_and_rank build updated add_file tokenize is_alnum to_lower bytes_discrete
    ℕ_discrete lines find modify erase
ranking = refl

search-updated_example :
    find bytes_discrete
      (codes "d/b")
      (search_and_rank (updated changes (build walk)) (codes "fox" ∷ []))
    ≡ answer (codes "fox" ∷ []) (changed changes (walked walk) (codes "d/b"))
search-updated_example = search-updated walk changes (codes "fox" ∷ []) (codes "d/b")

search-updated_order_example :
    IsRanked (search_and_rank (updated changes (build walk)) (codes "fox" ∷ []))
    × UniqueKeys bytes_discrete (search_and_rank (updated changes (build walk)) (codes "fox" ∷ []))
search-updated_order_example = search-updated_order walk changes (codes "fox" ∷ [])

updated-IsValid_example : IsValid (updated changes (build walk))
updated-IsValid_example = updated-IsValid walk changes

one_file : List DirectoryEntry
one_file = file (codes "a") (codes "red red") ∷ []

one_file_tokens : walked one_file (codes "a") ≡ tokenize (codes "red red")
unfolding one_file tokenize is_alnum to_lower bytes_discrete ℕ_discrete
one_file_tokens = refl

one_file_found :
    find bytes_discrete (codes "a") (search_and_rank (build one_file) (codes "red" ∷ [])) ≡ some 2
unfolding one_file build search_and_rank tokenize is_alnum to_lower bytes_discrete ℕ_discrete lines
    find modify erase
one_file_found = refl

search-le_example : 2 ≤ length (codes "red" ∷ []) * length (codes "red red")
search-le_example =
    search-le (build one_file) (walked one_file) (codes "red" ∷ []) (codes "a") (codes "red red") 2
      (build-Represents one_file) one_file_tokens one_file_found

comma-is_alnum : is_alnum b',' ≡ false
unfolding is_alnum
comma-is_alnum = refl

word-is_alnum : All (λ c. is_alnum c ≡ true) (codes "Red2")
unfolding is_alnum
word-is_alnum = (refl, (refl, (refl, (refl, tt))))

add_lines-tokenize_example :
    add_lines (codes "a") (lines b'\n' (codes "red\nfox hen\n")) []
    ≡ add_tokens (codes "a") (tokenize (codes "red\nfox hen\n")) []
add_lines-tokenize_example = add_lines-tokenize (codes "a") (codes "red\nfox hen\n") []
