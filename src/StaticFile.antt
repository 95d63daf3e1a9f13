-- ===== src/StaticFile.antt =====
-- searchserver/StaticFile.cpp and StaticFile.hpp, over the interface of FileSystem.antt. A call
-- that changes files returns the new state of the file system.
pub mod WithinRoot
pub mod Outcomes
pub mod Writes
pub mod Interface
pub mod Deletes
use semantic_search_engine.Base.{
  ℕ, Bool, true, false, not, ◌&&◌, ◌||◌, List, [], ◌∷◌, Option, none, some, Bytes, codes, ltb, ◌==◌,
  if◌then◌else◌, length, drop,
}
use semantic_search_engine.Exception.{Result, ok, throws, ◌>>=◌}
use semantic_search_engine.FileSystem.{FileSystem}
use semantic_search_engine.HttpResponse.{
  make_response, k_http_ok, k_http_created, k_http_no_content, k_http_forbidden, k_http_not_found,
  k_http_conflict, k_http_internal_error,
}
use semantic_search_engine.Map.{get_or}
use semantic_search_engine.Text.{starts_with, ends_with}

-- `ContentTypeFor`
unfoldable pub content_type_for : Bytes → Bytes
unfolding ends_with
content_type_for p =
    if ends_with p (codes ".txt")
    then codes "text/plain"
    else if ends_with p (codes ".html")
    then codes "text/html"
    else codes "application/octet-stream"

unfoldable pub forbidden : Bytes
unfolding make_response
forbidden =
    make_response k_http_forbidden (codes "<h1>403 Forbidden</h1>") (codes "text/html")
      (codes "Forbidden")

unfoldable pub internal_error : Bytes
unfolding make_response
internal_error =
    make_response k_http_internal_error (codes "<h1>500 Internal Server Error</h1>")
      (codes "text/html") (codes "Internal Server Error")

-- the answer to a write that worked: 200 or 201
unfoldable pub put_response : Bool → Bytes
unfolding make_response
put_response existed =
    if existed
    then make_response k_http_ok [] (codes "text/plain") (codes "OK")
    else make_response k_http_created [] (codes "text/plain") (codes "Created")

unfoldable pub conflict : Bytes
unfolding make_response
conflict =
    make_response k_http_conflict (codes "<h1>409 Conflict</h1>") (codes "text/html")
      (codes "Conflict")

unfoldable pub not_found : Bytes
unfolding make_response
not_found =
    make_response k_http_not_found (codes "<h1>404 Not Found</h1>") (codes "text/html")
      (codes "Not Found")

unfoldable pub no_content : Bytes
unfolding make_response
no_content = make_response k_http_no_content [] (codes "text/plain") (codes "No Content")

-- `s[i] != c`, at an index within the string
unfoldable pub differs_at : ℕ → ℕ → Bytes → Bool
differs_at i c s = elim (drop i s) [ [] ↦ true | d ∷ rest ↦ not (d == c) ]

-- the test of `CheckWithinRoot` on the canonical paths
unfoldable pub is_outside : Bytes → Bytes → Bool
unfolding differs_at starts_with
is_outside can_root can_target =
    ltb (length can_target) (length can_root)
    || not (starts_with can_target can_root)
    || (ltb (length can_root) (length can_target) && differs_at (length can_root) b'/' can_target)

module _ (fs : FileSystem) where
  open fs use {
    State, canonical, weakly_canonical, exists, is_regular_file, read, truncate, write, remove,
  }

  -- `ReadAll`
  unfoldable pub read_all : State → Bytes → Bytes
  read_all st p = get_or [] (read st p)

  -- `CheckWithinRoot`: an error response, or the empty string.
  unfoldable pub check_within_root : State → Bytes → Bytes → Result Bytes
  check_within_root st [] target = ok []
  check_within_root st (c ∷ root) target = canonical st (c ∷ root) >>= λ can_root.
      weakly_canonical st target >>= λ can_target.
      ok (if is_outside can_root can_target then forbidden else [])

  -- `WriteFile`: the new state, and an error response or the empty string. Whether the stream is
  -- still good behind `write` is not looked at.
  unfoldable pub write_file : State → Bytes → Bytes → State × Bytes
  write_file st target contents = elim (truncate st target) [
    | none ↦ (st, internal_error)
    | some st' ↦ ((write st' target contents).0, [])
  ]

  -- `StaticGet`
  unfoldable pub static_get : State → Bytes → Bytes → Result Bytes
  unfolding check_within_root read_all
  static_get st files_root relpath = check_within_root st files_root relpath >>= elim [
    | c ∷ error1 ↦ ok (c ∷ error1)
    | [] ↦ is_regular_file st relpath >>= λ regular. ok (
        if regular
        then make_response k_http_ok (read_all st relpath) (content_type_for relpath) []
        else make_response k_http_not_found (codes "<h1>404 Not Found</h1>") (codes "text/html") [])
  ]

  -- `if (!error2.empty()) return error2;` and the answer to a write that worked
  unfoldable pub after_write : Bool → State × Bytes → State × Bytes
  after_write existed (st', c ∷ error2) = (st', c ∷ error2)
  after_write existed (st', []) = (st', put_response existed)

  -- the part of `StaticPut` behind the conflict test
  unfoldable pub put_file : State → Bytes → Bytes → Bool → State × Bytes
  unfolding write_file after_write
  put_file st relpath contents existed = after_write existed (write_file st relpath contents)

  -- the body of the `try` of `StaticPut`
  unfoldable pub try_put : State → Bytes → Bytes → Bytes → Bool → Result (State × Bytes)
  unfolding check_within_root put_file
  try_put st files_root relpath contents overwrite =
      check_within_root st files_root relpath >>= elim [
        | c ∷ error1 ↦ ok (st, c ∷ error1)
        | [] ↦ exists st relpath >>= λ existed. ok (
            if existed && not overwrite
            then (st, conflict)
            else put_file st relpath contents existed)
      ]

  -- `catch (const std::exception&)`: everything that throws does so before a change of the files
  abbrev or_internal_error : State → Result (State × Bytes) → State × Bytes
  or_internal_error st (ok r) = r
  or_internal_error st (throws e) = (st, internal_error)

  -- `StaticPut`
  unfoldable pub static_put : State → Bytes → Bytes → Bytes → Bool → State × Bytes
  unfolding try_put
  static_put st files_root relpath contents overwrite =
      or_internal_error st (try_put st files_root relpath contents overwrite)

  -- the removal itself, and its response
  unfoldable pub delete_file : State → Bytes → State × Bytes
  delete_file st relpath =
      let (st', success, ec) = remove st relpath in
      if not success || ec then (st', internal_error) else (st', no_content)

  -- `!exists(p) || !is_regular_file(p)`, the second call made only if the first says yes
  unfoldable pub is_missing : State → Bytes → Result Bool
  is_missing st relpath = exists st relpath >>= elim [
    | false ↦ ok true
    | true ↦ is_regular_file st relpath >>= λ regular. ok (not regular)
  ]

  -- the body of the `try` of `StaticDelete`
  unfoldable pub try_delete : State → Bytes → Bytes → Result (State × Bytes)
  unfolding check_within_root delete_file is_missing
  try_delete st files_root relpath = check_within_root st files_root relpath >>= elim [
    | c ∷ error1 ↦ ok (st, c ∷ error1)
    | [] ↦ is_missing st relpath >>= λ missing.
        ok (if missing then (st, not_found) else delete_file st relpath)
  ]

  -- `StaticDelete`
  unfoldable pub static_delete : State → Bytes → Bytes → State × Bytes
  unfolding try_delete
  static_delete st files_root relpath = or_internal_error st (try_delete st files_root relpath)
