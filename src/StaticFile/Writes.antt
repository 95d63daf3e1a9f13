-- ===== src/StaticFile/Writes.antt =====
-- When `StaticPut` answers with a success, and what it has then done.
use semantic_search_engine.Base.{
  ◌≡◌, ◌⊎◌, inl, inr, ap, ◌∙◌, Bool, true, false, not, ◌&&◌, [], none, some, Bytes, if◌then◌else◌,
  Bool-cases, Option-cases,
}
use semantic_search_engine.Exception.{ok, Result-cases}
use semantic_search_engine.FileSystem.{FileSystem, WritesBack}
use semantic_search_engine.HttpResponse.{make_response, is_success, k_http_ok}
use semantic_search_engine.StaticFile.{
  forbidden, internal_error, content_type_for, check_within_root, static_get, static_put, put_file,
  conflict, put_response, write_file, after_write,
}
use semantic_search_engine.StaticFile.Outcomes.{answers_success, check_cases}

module _ (fs : FileSystem) where
  open fs use {State, exists, is_regular_file, read, truncate, write}

  -- `StaticPut` opened the file and called `write` on it: the path passed the check, the file was new
  -- or could be replaced, and the answer says which of the two it was.
  pub record Wrote (st : State) (root path contents : Bytes) (overwrite : Bool)
      (result : State × Bytes) : Type 0 where
    pub checked : check_within_root fs st root path ≡ ok []
    pub existed : Bool
    pub exists_is : exists st path ≡ ok existed
    pub no_conflict : (existed && not overwrite) ≡ false
    pub opened : State
    pub opens : truncate st path ≡ some opened
    pub result_is : result ≡ ((write opened path contents).0, put_response existed)

  -- `StaticPut` left the files alone and answered with no success.
  abbrev pub Refused : State → State × Bytes → Type 0
  Refused st result = (result.0 ≡ st) × (is_success result.1 ≡ false)

  pub write_file_lem :
      (st : State) (path contents : Bytes)
      → ((truncate st path ≡ none) × (write_file fs st path contents ≡ (st, internal_error)))
        ⊎ ((st' : State) × (truncate st path ≡ some st')
            × (write_file fs st path contents ≡ ((write st' path contents).0, [])))
  unfolding write_file
  write_file_lem st path contents = elim (Option-cases (truncate st path)) [
    | inl e ↦ inl (e, rw (e, write_file))
    | inr (st', e) ↦ inr (st', e, rw (e, write_file))
  ]

  put_file_cases :
      (st : State) (path contents : Bytes) (existed : Bool)
      → (put_file fs st path contents existed ≡ (st, internal_error))
        ⊎ ((st' : State) × (truncate st path ≡ some st')
            × (put_file fs st path contents existed
                ≡ ((write st' path contents).0, put_response existed)))
  unfolding put_file internal_error
  put_file_cases st path contents existed = elim (write_file_lem st path contents) [
    | inl (e, w) ↦ inl (ap (after_write fs existed) w)
    | inr (st', e, w) ↦ inr (st', e, ap (after_write fs existed) w)
  ]

  pub put-put_file :
      (st : State) (root path contents : Bytes) (overwrite existed : Bool)
      → check_within_root fs st root path ≡ ok []
      → exists st path ≡ ok existed
      → static_put fs st root path contents overwrite ≡ (
          if existed && not overwrite then (st, conflict) else put_file fs st path contents existed)
  unfolding static_put
  put-put_file st root path contents overwrite existed e1 e2 = rw (e1, e2)

  Refused-of :
      (st : State) (answer : Bytes) (result : State × Bytes)
      → is_success answer ≡ false
      → result ≡ (st, answer)
      → Refused st result
  Refused-of st answer result h e = (ap (λ r. r.0) e, ap (λ r. is_success r.1) e ∙ h)

  pub static_put_cases :
      (st : State) (root path contents : Bytes) (overwrite : Bool)
      → Wrote st root path contents overwrite (static_put fs st root path contents overwrite)
        ⊎ Refused st (static_put fs st root path contents overwrite)
  static_put_cases st root path contents overwrite = elim (check_cases fs st root path) [
    | inr (inr (e, p)) ↦
        inr (Refused-of st internal_error _ answers_success.1 (unfold static_put in rw p))
    | inr (inl p) ↦
        inr (Refused-of st forbidden _ answers_success.0 (unfold static_put forbidden in rw p))
    | inl p ↦ elim (Result-cases (exists st path)) [
      | inr (e, q) ↦
          inr (Refused-of st internal_error _ answers_success.1 (unfold static_put in rw (p, q)))
      | inl (existed, q) ↦ elim (Bool-cases (existed && not overwrite)) [
        | inl c ↦ inr (
            Refused-of st conflict _ answers_success.2
              (put-put_file st root path contents overwrite existed p q ∙ rw c))
        | inr c ↦ elim (put_file_cases st path contents existed) [
          | inl w ↦ inr (
              Refused-of st internal_error _ answers_success.1
                (put-put_file st root path contents overwrite existed p q ∙ rw c w))
          | inr (st', o, w) ↦ inl (record {
            checked = p;
            existed = existed;
            exists_is = q;
            no_conflict = c;
            opened = st';
            opens = o;
            result_is = put-put_file st root path contents overwrite existed p q ∙ rw c w;
          })
        ]
      ]
    ]
  ]

  get_regular :
      (st : State) (root path contents : Bytes)
      → check_within_root fs st root path ≡ ok []
      → is_regular_file st path ≡ ok true
      → read st path ≡ some contents
      → static_get fs st root path
        ≡ ok (make_response k_http_ok contents (content_type_for path) [])
  unfolding static_get
  get_regular st root path contents e1 e2 e3 = rw (e1, e2, e3)

  -- What `StaticPut` wrote, `StaticGet` of the same path returns with 200, whatever the bytes, if
  -- the path passes the check as before and the file system gives back what was written.
  pub get-put :
      (st : State) (root path contents : Bytes) (overwrite : Bool)
      → WritesBack fs path
      → is_success (static_put fs st root path contents overwrite).1 ≡ true
      → check_within_root fs (static_put fs st root path contents overwrite).0 root path ≡ ok []
      → static_get fs (static_put fs st root path contents overwrite).0 root path
        ≡ ok (make_response k_http_ok contents (content_type_for path) [])
  get-put st root path contents overwrite wb h again =
      elim (static_put_cases st root path contents overwrite) [
        | inr refused ↦ cc (refused.1)
        | inl w ↦ get_written w.opened w.opens (ap (λ r. r.0) w.result_is)
      ]
    where
      result : State
      result = (static_put fs st root path contents overwrite).0

      get_written :
          (opened : State)
          → truncate st path ≡ some opened
          → result ≡ (write opened path contents).0
          → static_get fs result root path
            ≡ ok (make_response k_http_ok contents (content_type_for path) [])
      get_written opened o e =
          get_regular result root path contents again
            (ap (λ s. is_regular_file s path) e ∙ wb.now_regular st opened contents o)
            (ap (λ s. read s path) e
              ∙ wb.read_back st opened contents o (wb.stays_good st opened contents o))
