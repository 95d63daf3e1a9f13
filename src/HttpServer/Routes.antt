-- ===== src/HttpServer/Routes.antt =====
-- `HandleGetRequest`, `HandleStaticMutation` and the routing in `HandleClient`. What the server
-- holds is a value: the files, the index, and the calls that have changed the embedding service.
use semantic_search_engine.Base.{
  ℕ, Bool, true, false, ◌||◌, List, [], ◌∷◌, ◌++◌, none, some, Bytes, codes, bytes_discrete, ite,
  if◌then◌else◌, drop,
}
use semantic_search_engine.Exception.{Result, ok, ◌>>=◌}
use semantic_search_engine.FileSystem.{FileSystem}
use semantic_search_engine.HttpRequest.{Request, split_terms}
use semantic_search_engine.HttpResponse.{
  make_response, is_success, k_http_ok, k_http_not_found, k_http_not_implemented,
}
use semantic_search_engine.HttpServer.Escapes.{join_terms, json_str}
use semantic_search_engine.HttpServer.Float.{Float}
use semantic_search_engine.HttpServer.Fusion.{Scores, rrf_merge}
use semantic_search_engine.InvertedIndex.{Index, search_and_rank, add_file, remove_file}
use semantic_search_engine.Map
use semantic_search_engine.StaticFile.{static_get, static_put, static_delete}
use semantic_search_engine.Text.{starts_with}
use semantic_search_engine.Text.Number.{to_string}

-- `a == b` on strings
abbrev pub equals : Bytes → Bytes → Bool
equals a b = ite (bytes_discrete a b) true false

-- one object of `RankedToJson`
abbrev pub ranked_entry : Bytes → Bytes → Bytes
ranked_entry doc score =
    codes "{\"id\":\"" ++ (json_str doc ++ (codes "\",\"score\":" ++ (score ++ codes "}")))

-- the rounds of its loop with `i > 0`
unfoldable pub ranked_more : {A : Type 0} → (A → Bytes) → List (Bytes × A) → Bytes
ranked_more show [] = []
ranked_more show ((doc, score) ∷ v) = b',' ∷ (ranked_entry doc (show score) ++ ranked_more show v)

-- `RankedToJson`, given how a score is written
unfoldable pub ranked_to_json : {A : Type 0} → (A → Bytes) → List (Bytes × A) → Bytes
unfolding ranked_more
ranked_to_json show [] = codes "[]"
ranked_to_json show ((doc, score) ∷ v) =
    b'[' ∷ (ranked_entry doc (show score) ++ (ranked_more show v ++ codes "]"))

-- the loop over the sources of an answer, with `i > 0`
unfoldable pub more_sources : List Bytes → Bytes
more_sources [] = []
more_sources (s ∷ ss) = b',' ∷ b'"' ∷ (json_str s ++ (b'"' ∷ more_sources ss))

unfoldable pub sources_json : List Bytes → Bytes
unfolding more_sources
sources_json [] = []
sources_json (s ∷ ss) = b'"' ∷ (json_str s ++ (b'"' ∷ more_sources ss))

-- The call of the vector client that a mutation makes.
pub data VectorCall : Type 0 where
  add_doc : Bytes → Bytes → VectorCall
  remove_doc : Bytes → VectorCall

-- What the vector client answers; its searches may depend on the changes it was told before.
pub record VectorSearch (float : Float) : Type 0 where
  pub search : List VectorCall → Bytes → Scores float
  pub ask : List VectorCall → Bytes → Bytes × List Bytes

pub record Server (fs : FileSystem) : Type 0 where
  pub files : fs.State
  pub index : Index
  pub calls : List VectorCall

abbrev empty_query : Bytes
empty_query =
    make_response k_http_ok (codes "{\"error\":\"empty query\"}") (codes "application/json") []

abbrev pub not_implemented : Bytes
not_implemented =
    make_response k_http_not_implemented (codes "Not Implemented") (codes "text/plain")
      (codes "Not Implemented")

-- the test that ends the keep-alive loop
unfoldable pub wants_close : Request → Bool
wants_close r = elim (Map.find bytes_discrete (codes "connection") r.headers) [
  | none ↦ false
  | some val ↦ equals val (codes "close")
]

module _ (fs : FileSystem) where
  -- the `if` behind `StaticPut`: on a success, `AddFile` and `AddDoc`
  unfoldable pub after_put : Server fs → Bytes → Bytes → fs.State × Bytes → Server fs × Bytes
  after_put s rel body (files', resp) =
      if is_success resp
      then (
        record {
          files = files';
          index = add_file rel (fs.read files' rel) s.index;
          calls = s.calls ++ add_doc rel body ∷ [];
        },
        resp,
      )
      else (record s { files = files' }, resp)

  -- the `if` behind `StaticDelete`: on a success, `RemoveFile` and `RemoveDoc`
  unfoldable pub after_delete : Server fs → Bytes → fs.State × Bytes → Server fs × Bytes
  after_delete s rel (files', resp) =
      if is_success resp
      then (
        record {
          files = files';
          index = remove_file rel s.index;
          calls = s.calls ++ remove_doc rel ∷ [];
        },
        resp,
      )
      else (record s { files = files' }, resp)

  -- `HandleStaticMutation`
  unfoldable pub handle_static_mutation : Bytes → Server fs → Request → Server fs × Bytes
  unfolding after_put after_delete
  handle_static_mutation files_root s r =
      let rel = drop 8 r.path in
      if equals r.method (codes "PUT")
      then after_put s rel r.body (static_put fs s.files files_root rel r.body true)
      else if equals r.method (codes "POST")
      then after_put s rel r.body (static_put fs s.files files_root rel r.body false)
      else if equals r.method (codes "DELETE")
      then after_delete s rel (static_delete fs s.files files_root rel)
      else (s, not_implemented)

module _ (fs : FileSystem) (float : Float) (vec : VectorSearch float)
    (home_page files_root : Bytes) where
  abbrev home : Bytes
  home = make_response k_http_ok home_page (codes "text/html") []

  -- the answer of "/api/search" to a query with terms
  unfoldable pub search_json : List Bytes → List (Bytes × ℕ) → Scores float → Bytes
  unfolding ranked_to_json rrf_merge
  search_json terms bm25 semantic =
      codes "{\"query\":\""
      ++ (json_str (join_terms terms)
          ++ (codes "\",\"bm25\":"
              ++ (ranked_to_json to_string bm25
                  ++ (codes ",\"semantic\":"
                      ++ (ranked_to_json float.show semantic
                          ++ (codes ",\"hybrid\":"
                              ++ (ranked_to_json float.show (rrf_merge float bm25 semantic)
                                  ++ codes "}")))))))

  unfoldable pub api_search : Server fs → List Bytes → Bytes
  unfolding search_json search_and_rank
  api_search s [] = empty_query
  api_search s (t ∷ ts) =
      make_response k_http_ok
        (search_json (t ∷ ts) (search_and_rank s.index (t ∷ ts))
          (vec.search s.calls (join_terms (t ∷ ts))))
        (codes "application/json") []

  unfoldable pub ask_json : Bytes × List Bytes → Bytes
  unfolding sources_json
  ask_json (answer, sources) =
      codes "{\"answer\":\""
      ++ (json_str answer ++ (codes "\",\"sources\":[" ++ (sources_json sources ++ codes "]}")))

  unfoldable pub api_ask : Server fs → List Bytes → Bytes
  unfolding ask_json
  api_ask s [] = empty_query
  api_ask s (t ∷ ts) =
      make_response k_http_ok (ask_json (vec.ask s.calls (join_terms (t ∷ ts))))
        (codes "application/json") []

  -- `HandleGetRequest`
  unfoldable pub handle_get_request : Server fs → Request → Result Bytes
  unfolding api_search api_ask split_terms
  handle_get_request s r =
      if equals r.path (codes "/") || equals r.path []
      then ok home
      else if equals r.path (codes "/query")
      then ok home
      else if equals r.path (codes "/api/search")
      then ok (api_search s (split_terms r.query))
      else if equals r.path (codes "/api/ask")
      then ok (api_ask s (split_terms r.query))
      else if equals r.path (codes "/ask")
      then ok home
      else if starts_with r.path (codes "/static/")
      then static_get fs s.files files_root (drop 8 r.path)
      else ok
          (make_response k_http_not_found (codes "<h1>404 Not Found</h1>") (codes "text/html") [])

  -- the choice of the handler in `HandleClient`
  unfoldable pub respond : Server fs → Request → Result (Server fs × Bytes)
  unfolding handle_get_request handle_static_mutation
  respond s r =
      if equals r.method (codes "GET")
      then (handle_get_request s r >>= λ resp. ok (s, resp))
      else if starts_with r.path (codes "/static/")
      then ok (handle_static_mutation fs files_root s r)
      else ok (
        s,
        make_response k_http_not_found (codes "<h1>404 Not Found</h1>") (codes "text/html") [],
      )
