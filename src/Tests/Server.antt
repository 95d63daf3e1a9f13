-- ===== src/Tests/Server.antt =====
-- What the server answers and keeps, over files in memory and thousandths for floats.
use semantic_search_engine.Base.{
  ℕ, ◌≡◌, ◌⊎◌, inl, inr, arith, ◌+◌, ◌*◌, ◌/◌, refl, true, false, ltb, List, [], ◌∷◌, ◌++◌, none,
  some, codes, bytes_discrete, ℕ_discrete, drop,
}
use semantic_search_engine.Exception.{ok}
use semantic_search_engine.HttpRequest.{Request, split_terms}
use semantic_search_engine.HttpResponse.{make_response, is_success}
use semantic_search_engine.HttpServer.Escapes.{
  json_str, html_escape, join_terms, read_string, read-json_str,
}
use semantic_search_engine.HttpServer.Float.{Float}
use semantic_search_engine.HttpServer.Fusion.{rrf_merge, place, with_share, find-rrf_merge}
use semantic_search_engine.HttpServer.Routes.{
  Server, VectorCall, VectorSearch, handle_static_mutation, handle_get_request,
}
use semantic_search_engine.HttpServer.Tracking.{
  Stored, Dropped, Kept, mutation_tracks, search_after_put,
}
use semantic_search_engine.InvertedIndex.{build, search_and_rank, tokenize, add_file}
use semantic_search_engine.InvertedIndex.Corpus.{walked, build-Represents}
use semantic_search_engine.InvertedIndex.Counts.{tokens_of}
use semantic_search_engine.InvertedIndex.Search.{answer}
use semantic_search_engine.Map
use semantic_search_engine.StaticFile
use semantic_search_engine.Text
use semantic_search_engine.VectorClient.Client.{Dial}
use semantic_search_engine.Text.Number.{to_string}
use semantic_search_engine.Tests.MemoryFiles.{memory_files, memory_files-WritesBack}

abbrev pub thousandths : Float
thousandths = record {
  Carrier = ℕ;
  of_nat = λ n. n * 1000;
  plus = λ a b. a + b;
  divide = λ a b. (a * 1000) / b;
  above = λ a b. ltb b a;
  show = to_string;
  fixed = λ digits n. to_string n;
}

-- An embedding service that answers nothing.
abbrev pub silent : VectorSearch thousandths
silent = record { search = λ calls query. []; ask = λ calls question. ([], []) }

abbrev pub start : Server memory_files
start = record { files = []; index = build []; calls = [] }

abbrev pub put_request : Request
put_request = record {
  method = codes "PUT";
  path = codes "/static/a.txt";
  query = [];
  headers = [];
  body = codes "Red fox, red";
}

escapes :
    (json_str (codes "a\"b\\\n") ≡ codes "a\\\"b\\\\\\n")
    × (html_escape (codes "<a>&") ≡ codes "&lt;a&gt;&amp;")
    × (join_terms (codes "a" ∷ codes "b" ∷ []) ≡ codes "a b")
unfolding json_str html_escape join_terms
escapes = (refl, refl, refl)

read-json_str_example :
    read_string (json_str (codes "say \"hi\"\n") ++ b'"' ∷ codes ",x")
    ≡ some (codes "say \"hi\"\n", codes ",x")
read-json_str_example = read-json_str (codes "say \"hi\"\n") (codes ",x") (
  inl (omega arith),
  (
    inl (omega arith),
    (
      inl (omega arith),
      (
        inl (omega arith),
        (
          inl (omega arith),
          (inl (omega arith), (inl (omega arith), (inl (omega arith), (inr (inr (inl refl)), tt)))),
        ),
      ),
    ),
  ),
)

two_unique : Map.UniqueKeys {V = ℕ} bytes_discrete ((codes "a", 3) ∷ (codes "b", 1) ∷ [])
unfolding Map.find bytes_discrete ℕ_discrete
two_unique = (refl, (refl, tt))

one_unique : Map.UniqueKeys {V = ℕ} bytes_discrete ((codes "b", 7) ∷ [])
unfolding Map.find
one_unique = (refl, tt)

find-rrf_merge_example :
    Map.find bytes_discrete
      (codes "b")
      (rrf_merge thousandths ((codes "a", 3) ∷ (codes "b", 1) ∷ []) ((codes "b", 7) ∷ []))
    ≡ with_share thousandths (place thousandths {A = ℕ} (codes "b") ((codes "b", 7) ∷ [])) (
        with_share thousandths
          (place thousandths {A = ℕ} (codes "b") ((codes "a", 3) ∷ (codes "b", 1) ∷ []))
          none)
find-rrf_merge_example =
    find-rrf_merge thousandths (codes "b") ((codes "a", 3) ∷ (codes "b", 1) ∷ [])
      ((codes "b", 7) ∷ []) two_unique one_unique

put_succeeds : is_success (handle_static_mutation memory_files [] start put_request).1 ≡ true
unfolding handle_static_mutation is_success bytes_discrete ℕ_discrete Map.find Map.modify
    StaticFile.static_put to_string StaticFile.put_response
put_succeeds = refl

-- The whole of a search: one file stored, found by its tokens, and written as JSON.
found :
    handle_get_request memory_files thousandths silent [] []
      (handle_static_mutation memory_files [] start put_request).0
      (record {
        method = codes "GET";
        path = codes "/api/search";
        query = codes "q=red+fox";
        headers = [];
        body = [];
      })
    ≡ ok (
        make_response 200
          (codes
            "{\"query\":\"red fox\",\"bm25\":[{\"id\":\"a.txt\",\"score\":3}],\"semantic\":[],\"hybrid\":[{\"id\":\"a.txt\",\"score\":16}]}")
          (codes "application/json")
          [])
unfolding handle_get_request handle_static_mutation is_success bytes_discrete ℕ_discrete Map.find
    Map.modify StaticFile.static_put to_string split_terms json_str join_terms build search_and_rank
    make_response StaticFile.put_response rrf_merge Text.find_char Text.lines Text.to_lower
    Text.find Text.starts_with tokenize Text.is_alnum add_file
found = refl

mutation_tracks_example :
    Stored memory_files start
      (drop 8 put_request.path)
      put_request.body
      (walked [])
      (handle_static_mutation memory_files [] start put_request)
    ⊎ Dropped memory_files start
        (drop 8 put_request.path)
        (walked [])
        (handle_static_mutation memory_files [] start put_request)
    ⊎ Kept memory_files start (handle_static_mutation memory_files [] start put_request)
mutation_tracks_example =
    mutation_tracks memory_files [] start put_request (walked [])
      (memory_files-WritesBack (drop 8 put_request.path)) (build-Represents [])

search_after_put_example :
    Map.find bytes_discrete (drop 8 put_request.path) (
      search_and_rank
        (handle_static_mutation memory_files [] start put_request).0.index
        (codes "red" ∷ []))
    ≡ answer (codes "red" ∷ []) (tokens_of (some put_request.body))
search_after_put_example =
    search_after_put memory_files [] start put_request (walked []) (codes "red" ∷ [])
      (memory_files-WritesBack (drop 8 put_request.path)) (build-Represents []) refl put_succeeds

-- An embedding service that is down.
abbrev down : List VectorCall → Dial
down calls = record {
  opens = true;
  connects = λ port. false;
  connection = record { writes = []; reads = [] };
}
