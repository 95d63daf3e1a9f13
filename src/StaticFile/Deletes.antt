-- ===== src/StaticFile/Deletes.antt =====
-- When `StaticDelete` answers with a success, and what it has then done.
use semantic_search_engine.Base.{
  ◌≡◌, ◌⊎◌, inl, inr, ap, ◌∙◌, Bool, true, false, [], Bytes, if◌then◌else◌, Bool-cases,
}
use semantic_search_engine.Exception.{Exception, ok, throws, Result-cases}
use semantic_search_engine.FileSystem.{FileSystem}
use semantic_search_engine.HttpResponse.{is_success}
use semantic_search_engine.StaticFile.{
  forbidden, internal_error, check_within_root, static_delete, not_found, no_content, delete_file,
  is_missing,
}
use semantic_search_engine.StaticFile.Outcomes.{answers_success, check_cases}

module _ (fs : FileSystem) where
  open fs use {State, exists, is_regular_file, remove}

  -- `StaticDelete` either removed an existing regular file, and says 204, or reports a failure.
  pub record Deleted (st : State) (root path : Bytes) (result : State × Bytes) : Type 0 where
    pub checked : check_within_root fs st root path ≡ ok []
    pub existed : exists st path ≡ ok true
    pub regular : is_regular_file st path ≡ ok true
    pub removed : (remove st path).1 ≡ true
    pub no_error : (remove st path).2 ≡ false
    pub result_is : result ≡ ((remove st path).0, no_content)

  -- `StaticDelete` left the files alone, or the removal itself failed.
  abbrev pub NotDeleted : State → Bytes → State × Bytes → Type 0
  NotDeleted st path result =
      (is_success result.1 ≡ false)
      × ((result.0 ≡ st)
          ⊎ ((result.0 ≡ (remove st path).0)
              × (((remove st path).1 ≡ false) ⊎ ((remove st path).2 ≡ true))))

  delete_file_cases :
      (st : State) (path : Bytes)
      → (((remove st path).1 ≡ true)
          × ((remove st path).2 ≡ false)
          × (delete_file fs st path ≡ ((remove st path).0, no_content)))
        ⊎ ((delete_file fs st path ≡ ((remove st path).0, internal_error))
            × (((remove st path).1 ≡ false) ⊎ ((remove st path).2 ≡ true)))
  unfolding delete_file
  delete_file_cases st path = elim (Bool-cases (remove st path).1) [
    | inr s ↦ inr (rw s, inl s)
    | inl s ↦ elim (Bool-cases (remove st path).2) [
      | inl e ↦ inr (rw (s, e), inr e)
      | inr e ↦ inl (s, e, rw (s, e))
    ]
  ]

  is_missing_cases :
      (st : State) (path : Bytes)
      → ((e : Exception) × (is_missing fs st path ≡ throws e))
        ⊎ (is_missing fs st path ≡ ok true)
        ⊎ ((is_missing fs st path ≡ ok false)
            × (exists st path ≡ ok true)
            × (is_regular_file st path ≡ ok true))
  unfolding is_missing
  is_missing_cases st path = elim (Result-cases (exists st path)) [
    | inr (e, p) ↦ inl (e, rw p)
    | inl (false, p) ↦ inr (inl (rw p))
    | inl (true, p) ↦ elim (Result-cases (is_regular_file st path)) [
      | inr (e, q) ↦ inl (e, rw (p, q))
      | inl (false, q) ↦ inr (inl (rw (p, q)))
      | inl (true, q) ↦ inr (inr (rw (p, q), p, q))
    ]
  ]

  delete-delete_file :
      (st : State) (root path : Bytes) (missing : Bool)
      → check_within_root fs st root path ≡ ok []
      → is_missing fs st path ≡ ok missing
      → static_delete fs st root path
        ≡ (if missing then (st, not_found) else delete_file fs st path)
  unfolding static_delete
  delete-delete_file st root path missing e1 e2 = rw (e1, e2)

  NotDeleted-of :
      (st : State) (path answer : Bytes) (result : State × Bytes)
      → is_success answer ≡ false
      → result ≡ (st, answer)
      → NotDeleted st path result
  NotDeleted-of st path answer result h e = (ap (λ r. is_success r.1) e ∙ h, inl (ap (λ r. r.0) e))

  -- `StaticDelete` answers with a success exactly if it removed an existing regular file that
  -- passed the check. With no success the files are as before, unless the removal itself failed.
  pub static_delete_cases :
      (st : State) (root path : Bytes)
      → (Deleted st root path (static_delete fs st root path)
          × (is_success (static_delete fs st root path).1 ≡ true))
        ⊎ NotDeleted st path (static_delete fs st root path)
  static_delete_cases st root path = elim (check_cases fs st root path) [
    | inr (inr (e, p)) ↦
        inr
          (NotDeleted-of st path internal_error _ answers_success.1 (unfold static_delete in rw p))
    | inr (inl p) ↦ inr (
        NotDeleted-of st path forbidden _ answers_success.0
          (unfold static_delete forbidden in rw p))
    | inl p ↦ elim (is_missing_cases st path) [
      | inl (e, q) ↦ inr (
          NotDeleted-of st path internal_error _ answers_success.1
            (unfold static_delete in rw (p, q)))
      | inr (inl q) ↦ inr (
          NotDeleted-of st path not_found _ answers_success.3
            (delete-delete_file st root path true p q))
      | inr (inr (q, ex, reg)) ↦ elim (delete_file_cases st path) [
        | inl (s, n, d) ↦
            let e = delete-delete_file st root path false p q ∙ d in
            inl (
              record {
                checked = p;
                existed = ex;
                regular = reg;
                removed = s;
                no_error = n;
                result_is = e;
              },
              ap (λ r. is_success r.1) e ∙ answers_success.4,
            )
        | inr (d, why) ↦
            let e = delete-delete_file st root path false p q ∙ d in
            inr (ap (λ r. is_success r.1) e ∙ answers_success.1, inr (ap (λ r. r.0) e, why))
      ]
    ]
  ]
