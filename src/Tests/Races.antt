-- ===== src/Tests/Races.antt =====
-- Several workers that change files at once, over files in memory.
use semantic_search_engine.Base.{
  ℕ, All, ◌≡◌, refl, List, [], ◌∷◌, some, some_injective, Bytes, codes, bytes_discrete, ℕ_discrete,
  arith,
}
use semantic_search_engine.HttpRequest.{Request}
use semantic_search_engine.HttpServer.Interleaved.{NoDelete, Idle, WritesApart, index_follows}
use semantic_search_engine.HttpServer.Mutations.{starts, Site, site_run}
use semantic_search_engine.HttpServer.Routes.{handle_static_mutation}
use semantic_search_engine.HttpResponse.{is_success}
use semantic_search_engine.InvertedIndex.{build, search_and_rank, tokenize, add_file, remove_file}
use semantic_search_engine.InvertedIndex.Corpus.{walked, build-Represents}
use semantic_search_engine.InvertedIndex.Counts.{tokens_of}
use semantic_search_engine.InvertedIndex.Search.{answer}
use semantic_search_engine.Map
use semantic_search_engine.Map.Laws.{find-modify}
use semantic_search_engine.StaticFile
use semantic_search_engine.Tests.MemoryFiles.{memory_files}
use semantic_search_engine.Tests.Server.{start, put_request}
use semantic_search_engine.Text
use semantic_search_engine.Text.Number.{to_string}

memory_files-WritesApart : (p : Bytes) → WritesApart memory_files p
memory_files-WritesApart p = record {
  opening = λ st opened q other e.
      ground (arith, find-modify bytes_discrete p q (λ _. []) [] st, some_injective e);
  writing =
      λ st q contents other. ground (arith, find-modify bytes_discrete p q (λ _. contents) [] st);
}

abbrev other_put : Request
other_put = record {
  method = codes "PUT";
  path = codes "/static/b.txt";
  query = [];
  headers = [];
  body = codes "hen";
}

abbrev same_file : Request
same_file = record put_request { body = codes "A red hen" }

-- Two workers change one file, and a third another one.
abbrev three_puts : Site memory_files
three_puts = record {
  server = start;
  stages = starts put_request ∷ starts same_file ∷ starts other_put ∷ [];
}

abbrev schedule : List ℕ
schedule = 0 ∷ 1 ∷ 1 ∷ 0 ∷ 2 ∷ 0 ∷ 1 ∷ 2 ∷ 1 ∷ 2 ∷ []

no_deletes : All NoDelete three_puts.stages
unfolding bytes_discrete ℕ_discrete
no_deletes = (refl, (refl, (refl, tt)))

starts_alike : walked [] (codes "a.txt") ≡ tokens_of (memory_files.read start.files (codes "a.txt"))
unfolding Map.find
starts_alike = refl

ends-Idle : All (Idle (codes "a.txt")) (site_run memory_files [] schedule three_puts).stages
unfolding site_run bytes_discrete ℕ_discrete Map.find Map.modify StaticFile.static_put
    StaticFile.put_response to_string is_success
ends-Idle = (tt, (tt, (tt, tt)))

index_follows_example :
    Map.find bytes_discrete (codes "a.txt") (
      search_and_rank
        (site_run memory_files [] schedule three_puts).server.index
        (codes "red" ∷ []))
    ≡ answer (codes "red" ∷ []) (
        tokens_of (
          memory_files.read
            (site_run memory_files [] schedule three_puts).server.files
            (codes "a.txt")))
index_follows_example =
    index_follows memory_files [] (codes "a.txt") (memory_files-WritesApart (codes "a.txt"))
      schedule three_puts (walked []) (codes "red" ∷ []) no_deletes (build-Represents [])
      starts_alike ends-Idle

abbrev delete_request : Request
delete_request = record put_request { method = codes "DELETE" }

-- A DELETE and a PUT of the same file.
abbrev raced : Site memory_files
raced = site_run memory_files [] (0 ∷ 1 ∷ 1 ∷ 1 ∷ 0 ∷ []) (record {
  server = (handle_static_mutation memory_files [] start put_request).0;
  stages = starts delete_request ∷ starts put_request ∷ [];
})

-- The file is there, and the index has lost it.
index_lost :
    (memory_files.read raced.server.files (codes "a.txt") ≡ some put_request.body)
    × (search_and_rank raced.server.index (codes "red" ∷ []) ≡ [])
unfolding site_run handle_static_mutation bytes_discrete ℕ_discrete Map.find Map.modify Map.erase
    StaticFile.static_put StaticFile.static_delete StaticFile.put_response StaticFile.no_content
    is_success to_string search_and_rank tokenize build add_file remove_file Text.is_alnum
    Text.to_lower Text.lines
index_lost = (refl, refl)
