-- ===== src/StaticFile/Interface.antt =====
-- searchserver/StaticFile.hpp: the three operations with what they promise, and that those of
-- searchserver/StaticFile.cpp keep it.
use semantic_search_engine.Base.{◌≡◌, ◌≢◌, ◌⊎◌, Bool, true, [], Bytes}
use semantic_search_engine.Exception.{Result, ok}
use semantic_search_engine.FileSystem.{FileSystem, WritesBack}
use semantic_search_engine.HttpResponse.{make_response, is_success, k_http_ok}
use semantic_search_engine.StaticFile.{
  forbidden, content_type_for, check_within_root, static_get, static_put, static_delete,
}
use semantic_search_engine.StaticFile.Deletes.{Deleted, NotDeleted, static_delete_cases}
use semantic_search_engine.StaticFile.Outcomes.{Resolves, outside_refused}
use semantic_search_engine.StaticFile.WithinRoot.{IsWithin}
use semantic_search_engine.StaticFile.Writes.{Wrote, Refused, static_put_cases, get-put}

-- `StaticGet`, `StaticPut` and `StaticDelete` over a file system: the state, the root, the path.
pub record StaticFiles (fs : FileSystem) : Type 0 where
  pub get : fs.State → Bytes → Bytes → Result Bytes
  pub put : fs.State → Bytes → Bytes → Bytes → Bool → fs.State × Bytes
  pub delete : fs.State → Bytes → Bytes → fs.State × Bytes
  -- a GET returns the contents that a PUT or a POST has written
  pub gets_back :
      (st : fs.State) (root path contents : Bytes) (overwrite : Bool)
      → WritesBack fs path
      → is_success (put st root path contents overwrite).1 ≡ true
      → check_within_root fs (put st root path contents overwrite).0 root path ≡ ok []
      → get (put st root path contents overwrite).0 root path
        ≡ ok (make_response k_http_ok contents (content_type_for path) [])
  -- a PUT or a POST creates or replaces the file, or answers with an error
  pub puts :
      (st : fs.State) (root path contents : Bytes) (overwrite : Bool)
      → Wrote fs st root path contents overwrite (put st root path contents overwrite)
        ⊎ Refused fs st (put st root path contents overwrite)
  -- a DELETE deletes the file, or answers with an error
  pub deletes :
      (st : fs.State) (root path : Bytes)
      → (Deleted fs st root path (delete st root path)
          × (is_success (delete st root path).1 ≡ true))
        ⊎ NotDeleted fs st path (delete st root path)
  -- none of them leaves the root
  pub stays_within :
      (st : fs.State) (root target r t contents : Bytes) (overwrite : Bool)
      → root ≢ []
      → Resolves fs st root target r t
      → ¬ IsWithin r t
      → (get st root target ≡ ok forbidden)
        × (put st root target contents overwrite ≡ (st, forbidden))
        × (delete st root target ≡ (st, forbidden))

abbrev static_files : (fs : FileSystem) → StaticFiles fs
static_files fs = record {
  get = static_get fs;
  put = static_put fs;
  delete = static_delete fs;
  gets_back = get-put fs;
  puts = static_put_cases fs;
  deletes = static_delete_cases fs;
  stays_within = outside_refused fs;
}
