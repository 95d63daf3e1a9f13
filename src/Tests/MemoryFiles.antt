-- ===== src/Tests/MemoryFiles.antt =====
-- A file system in memory, which shows that the interface of FileSystem.antt can be met: a map
-- from paths to contents, in which every path is canonical.
use semantic_search_engine.Base.{
  Bool, true, false, ◌≡◌, refl, ap, List, [], Option, none, some, Bytes, bytes_discrete, arith,
}
use semantic_search_engine.Exception.{ok}
use semantic_search_engine.FileSystem.{FileSystem, WritesBack}
use semantic_search_engine.Map.{find, modify, erase}
use semantic_search_engine.Map.Laws.{find-modify, find-erase}

abbrev pub is_some : Option Bytes → Bool
is_some none = false
is_some (some b) = true

abbrev pub memory_files : FileSystem
memory_files = record {
  State = List (Bytes × Bytes);
  canonical = λ st p. ok p;
  weakly_canonical = λ st p. ok p;
  exists = λ st p. ok (is_some (find bytes_discrete p st));
  is_regular_file = λ st p. ok (is_some (find bytes_discrete p st));
  read = λ st p. find bytes_discrete p st;
  truncate = λ st p. some (modify bytes_discrete p (λ _. []) [] st);
  write = λ st p contents. (modify bytes_discrete p (λ _. contents) [] st, true);
  remove = λ st p. (erase bytes_discrete p st, is_some (find bytes_discrete p st), false);
}

find-written :
    (p b : Bytes) (st : List (Bytes × Bytes))
    → find bytes_discrete p (modify bytes_discrete p (λ _. b) [] st) ≡ some b
find-written p b st = ground (arith, find-modify bytes_discrete p p (λ _. b) [] st)

find-removed :
    (p : Bytes) (st : List (Bytes × Bytes))
    → find bytes_discrete p (erase bytes_discrete p st) ≡ none
find-removed p st = ground (arith, find-erase bytes_discrete p p st)

pub memory_files-WritesBack : (p : Bytes) → WritesBack memory_files p
memory_files-WritesBack p = record {
  stays_good = λ st st' b _. refl;
  read_back = λ st st' b _ _. find-written p b st';
  now_regular = λ st st' b _. ap (λ o. ok (is_some o)) (find-written p b st');
  now_exists = λ st st' b _. ap (λ o. ok (is_some o)) (find-written p b st');
  gone = λ st _. ap (λ o. ok (is_some o)) (find-removed p st);
}
