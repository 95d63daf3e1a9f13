-- ===== src/HttpServer/Mutations.antt =====
-- `HandleStaticMutation` on several workers at once: the opening of the file and the write to it (or
-- its removal), the change of the index under its lock, and the call of the vector client are steps
-- of their own.
use semantic_search_engine.Base.{
  Bool, ap, ◌∙◌, ℕ, ◌≡◌, refl, true, false, List, [], ◌∷◌, ◌++◌, Option, none, some, Bytes, codes,
  drop, if◌then◌else◌, Bool-cases, inl, inr, ◌⊎◌, ◌&&◌, not, sym,
}
use semantic_search_engine.FileSystem.{FileSystem}
use semantic_search_engine.HttpRequest.{Request}
use semantic_search_engine.HttpResponse.{is_success}
use semantic_search_engine.HttpServer.Routes.{
  equals, Server, VectorCall, add_doc, remove_doc, after_put, after_delete, handle_static_mutation,
}
use semantic_search_engine.InvertedIndex.{add_file, remove_file}
use semantic_search_engine.Exception.{Result, ok, throws, ◌>>=◌, Result-cases}
use semantic_search_engine.StaticFile.{
  check_within_root, forbidden, put_response, put_file, after_write, static_put, static_delete,
}
use semantic_search_engine.StaticFile.Outcomes.{check_cases, put_response_succeeds}
use semantic_search_engine.StaticFile.Writes.{
  Refused, static_put_cases, write_file_lem, put-put_file,
}
use semantic_search_engine.ThreadPool.{get_elem?, set}

-- Where a worker stands: before it opens or deletes the file, before its `write` (with whether the
-- file existed), before it takes the lock of the index, before its call of the vector client, and
-- behind it.
pub data Stage : Type 0 where
  starts : Request → Stage
  writes : Bytes → Bytes → Bool → Stage
  indexes_put : Bytes → Bytes → Stage
  indexes_delete : Bytes → Stage
  tells : VectorCall → Stage
  over : Stage

-- The workers that handle a change, and what they share.
pub record Site (fs : FileSystem) : Type 0 where
  pub server : Server fs
  pub stages : List Stage

module _ (fs : FileSystem) (files_root : Bytes) where
  -- behind the opening of the file, which empties it
  abbrev pub opened : Server fs → Bytes → Bytes → Bool → Option fs.State → Server fs × Stage
  opened s rel body existed none = (s, over)
  opened s rel body existed (some st) = (record s { files = st }, writes rel body existed)

  -- `StaticPut` up to its `write`
  unfoldable pub try_open : Server fs → Bytes → Bytes → Bool → Result (Server fs × Stage)
  unfolding check_within_root
  try_open s rel body overwrite = check_within_root fs s.files files_root rel >>= elim [
    | c ∷ error1 ↦ ok (s, over)
    | [] ↦ fs.exists s.files rel >>= λ existed. ok (
        if existed && not overwrite
        then (s, over)
        else opened s rel body existed (fs.truncate s.files rel))
  ]

  abbrev or_over : Server fs → Result (Server fs × Stage) → Server fs × Stage
  or_over s (ok next) = next
  or_over s (throws e) = (s, over)

  unfoldable pub put_stage : Server fs → Bytes → Bytes → Bool → Server fs × Stage
  unfolding try_open
  put_stage s rel body overwrite = or_over s (try_open s rel body overwrite)

  unfoldable pub delete_stage : Server fs → Bytes → fs.State × Bytes → Server fs × Stage
  delete_stage s rel (files', resp) =
      (record s { files = files' }, if is_success resp then indexes_delete rel else over)

  -- the first step on the files
  unfoldable pub change_files : Server fs → Request → Server fs × Stage
  unfolding put_stage delete_stage
  change_files s r =
      let rel = drop 8 r.path in
      if equals r.method (codes "PUT")
      then put_stage s rel r.body true
      else if equals r.method (codes "POST")
      then put_stage s rel r.body false
      else if equals r.method (codes "DELETE")
      then delete_stage s rel (static_delete fs s.files files_root rel)
      else (s, over)

  -- the next step of a worker
  unfoldable pub stage_step : Stage → Server fs → Server fs × Stage
  unfolding change_files
  stage_step (starts r) s = change_files s r
  stage_step (writes rel body existed) s = (
    record s { files = (fs.write s.files rel body).0 },
    if is_success (put_response existed) then indexes_put rel body else over,
  )
  stage_step (indexes_put rel body) s =
      (record s { index = add_file rel (fs.read s.files rel) s.index }, tells (add_doc rel body))
  stage_step (indexes_delete rel) s =
      (record s { index = remove_file rel s.index }, tells (remove_doc rel))
  stage_step (tells call) s = (record s { calls = s.calls ++ call ∷ [] }, over)
  stage_step over s = (s, over)

  unfoldable pub site_at : Option Stage → ℕ → Site fs → Site fs
  unfolding stage_step
  site_at none i site = site
  site_at (some stage) i site =
      let (s, stage') = stage_step stage site.server in
      record { server = s; stages = set site.stages i stage' }

  -- The steps of the workers in the order that the scheduler gives.
  unfoldable pub site_run : List ℕ → Site fs → Site fs
  unfolding site_at
  site_run [] site = site
  site_run (i ∷ is) site = site_run is (site_at (get_elem? site.stages i) i site)

  -- what a worker does next, and where it then stands
  abbrev advance : Server fs × Stage → Server fs × Stage
  advance (s, stage) = stage_step stage s

  -- The first step of a PUT or a POST against `StaticPut`: the file is open, and the `write` and the
  -- answer are still to come; or nothing has changed, and `StaticPut` reports a failure.
  abbrev pub Begun : Server fs → Bytes → Bytes → Bool → Type 0
  Begun s rel body overwrite =
      (existed : Bool) × (st : fs.State) × (fs.truncate s.files rel ≡ some st)
      × (put_stage s rel body overwrite ≡ (record s { files = st }, writes rel body existed))
      × (static_put fs s.files files_root rel body overwrite
          ≡ ((fs.write st rel body).0, put_response existed))

  abbrev pub Failed : Server fs → Bytes → Bytes → Bool → Type 0
  Failed s rel body overwrite =
      (put_stage s rel body overwrite ≡ (s, over))
      × Refused fs s.files (static_put fs s.files files_root rel body overwrite)

  refused_stays :
      (s : Server fs) (rel body : Bytes) (overwrite : Bool)
      → is_success (static_put fs s.files files_root rel body overwrite).1 ≡ false
      → put_stage s rel body overwrite ≡ (s, over)
  refused_stays s rel body overwrite h = elim (check_cases fs s.files files_root rel) [
    | inr (inr (e, p)) ↦ unfold put_stage in rw p
    | inr (inl p) ↦ unfold put_stage forbidden in rw p
    | inl p ↦ elim (Result-cases (fs.exists s.files rel)) [
      | inr (e, q) ↦ unfold put_stage in rw (p, q)
      | inl (existed, q) ↦ elim (Bool-cases (existed && not overwrite)) [
        | inl c ↦ unfold put_stage in rw (p, q, c)
        | inr c ↦ elim (write_file_lem fs s.files rel body) [
          | inl (t, w) ↦ unfold put_stage in rw (p, q, c, t)
          | inr (st, t, w) ↦
              let wrote : static_put fs s.files files_root rel body overwrite
                  ≡ ((fs.write st rel body).0, put_response existed) =
                put-put_file fs s.files files_root rel body overwrite existed p q
                ∙ rw c (unfold put_file in ap (after_write fs existed) w) in
              cc (h, ap (λ r. is_success r.1) wrote, put_response_succeeds existed)
        ]
      ]
    ]
  ]

  pub put_stage_cases :
      (s : Server fs) (rel body : Bytes) (overwrite : Bool)
      → Begun s rel body overwrite ⊎ Failed s rel body overwrite
  put_stage_cases s rel body overwrite =
      elim (static_put_cases fs s.files files_root rel body overwrite) [
        | inl w ↦ inl (
          w.existed,
          w.opened,
          w.opens,
          unfold put_stage in rw (w.checked, w.exists_is, w.no_conflict, w.opens),
          w.result_is,
        )
        | inr refused ↦ inr (refused_stays s rel body overwrite refused.1, refused)
      ]

  after_put_failed :
      (s : Server fs) (rel body : Bytes) (r : fs.State × Bytes)
      → Refused fs s.files r
      → (after_put fs s rel body r).0 ≡ s
  unfolding after_put
  after_put_failed s rel body (st, resp) (same, e) =
      rw (e, after_put) (ap (λ x. record s { files = x }) same)

  put_alone :
      (s : Server fs) (rel body : Bytes) (overwrite : Bool)
      → advance (advance (advance (put_stage s rel body overwrite)))
        ≡ ((after_put fs s rel body (static_put fs s.files files_root rel body overwrite)).0, over)
  unfolding stage_step after_put
  put_alone s rel body overwrite = elim (put_stage_cases s rel body overwrite) [
    | inl (existed, st, t, e, result) ↦
        ap (λ x. advance (advance (advance x))) e
        ∙ written existed st
        ∙ ap (λ r. ((after_put fs s rel body r).0, over)) (sym result)
    | inr (e, refused) ↦
        ap (λ x. advance (advance (advance x))) e
        ∙ ap (λ x. (x, over)) (sym (after_put_failed s rel body _ refused))
  ]
    where
      written :
          (existed : Bool) (st : fs.State)
          → advance (advance (advance (record s { files = st }, writes rel body existed)))
            ≡ ((after_put fs s rel body ((fs.write st rel body).0, put_response existed)).0, over)
      written existed st = rw (put_response_succeeds existed) refl

  delete_alone :
      (s : Server fs) (rel : Bytes) (r : fs.State × Bytes)
      → advance (advance (advance (delete_stage s rel r))) ≡ ((after_delete fs s rel r).0, over)
  unfolding delete_stage stage_step after_delete
  delete_alone s rel r = elim (Bool-cases (is_success r.1)) [
    | inl e ↦ rw (e, after_delete) refl
    | inr e ↦ rw (e, after_delete) refl
  ]

  -- The four steps of a worker with no other between them are `HandleStaticMutation`.
  mutation_alone :
      (s : Server fs) (r : Request)
      → advance (advance (advance (advance (s, starts r))))
        ≡ ((handle_static_mutation fs files_root s r).0, over)
  unfolding handle_static_mutation stage_step change_files
  mutation_alone s r = elim (Bool-cases (equals r.method (codes "PUT"))) [
    | inl e ↦ rw (e, handle_static_mutation, change_files) (put_alone s (drop 8 r.path) r.body true)
    | inr e ↦ elim (Bool-cases (equals r.method (codes "POST"))) [
      | inl e' ↦
          rw (e, e', handle_static_mutation, change_files)
            (put_alone s (drop 8 r.path) r.body false)
      | inr e' ↦ elim (Bool-cases (equals r.method (codes "DELETE"))) [
        | inl d ↦
            rw (e, e', d, handle_static_mutation, change_files)
              (delete_alone s (drop 8 r.path) (static_delete fs s.files files_root (drop 8 r.path)))
        | inr d ↦ rw (e, e', d, handle_static_mutation, change_files) refl
      ]
    ]
  ]
