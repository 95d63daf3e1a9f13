-- ===== src/StaticFile/Outcomes.antt =====
-- What the three operations on files answer, and when they change the files.
use semantic_search_engine.Base.{
  ◌≡◌, ◌≢◌, ◌⊎◌, inl, inr, refl, Bool, true, false, [], ◌∷◌, Bytes, Bool-cases,
}
use semantic_search_engine.Exception.{Exception, ok, throws, Result-cases}
use semantic_search_engine.FileSystem.{FileSystem}
use semantic_search_engine.HttpResponse.{is_success}
use semantic_search_engine.Text.Number.{to_string}
use semantic_search_engine.StaticFile.{
  forbidden, internal_error, check_within_root, static_get, static_put, static_delete, conflict,
  not_found, no_content, put_response, is_outside,
}
use semantic_search_engine.StaticFile.WithinRoot.{IsWithin, is_outside_of_not_within}

-- Which of the fixed answers are successes.
pub answers_success :
    (is_success forbidden ≡ false)
    × (is_success internal_error ≡ false)
    × (is_success conflict ≡ false)
    × (is_success not_found ≡ false)
    × (is_success no_content ≡ true)
unfolding is_success forbidden internal_error conflict not_found no_content to_string
answers_success = (refl, refl, refl, refl, refl)

pub put_response_succeeds : (existed : Bool) → is_success (put_response existed) ≡ true
unfolding is_success put_response to_string
put_response_succeeds true = refl
put_response_succeeds false = refl

module _ (fs : FileSystem) where
  open fs use {State, canonical, weakly_canonical, exists, is_regular_file, read, truncate, write}

  -- The root and the target resolve to `r` and `t`.
  abbrev pub Resolves : State → Bytes → Bytes → Bytes → Bytes → Type 0
  Resolves st root target r t = (canonical st root ≡ ok r) × (weakly_canonical st target ≡ ok t)

  check_outside :
      (st : State) (root target r t : Bytes)
      → root ≢ []
      → Resolves st root target r t
      → ¬ IsWithin r t
      → check_within_root fs st root target ≡ ok forbidden
  unfolding check_within_root
  check_outside st [] target r t ne res h = absurd (ne refl)
  check_outside st (c ∷ root) target r t ne (e1, e2) h = rw (e1, e2, is_outside_of_not_within r t h)

  -- A target that resolves to a place outside the root is answered with 403 by all three
  -- operations, and no file changes.
  pub outside_refused :
      (st : State) (root target r t contents : Bytes) (overwrite : Bool)
      → root ≢ []
      → Resolves st root target r t
      → ¬ IsWithin r t
      → (static_get fs st root target ≡ ok forbidden)
        × (static_put fs st root target contents overwrite ≡ (st, forbidden))
        × (static_delete fs st root target ≡ (st, forbidden))
  unfolding static_get static_put static_delete forbidden
  outside_refused st root target r t contents overwrite ne res h =
      rw (check_outside st root target r t ne res h) (refl, refl, refl)

  -- The check passes, refuses with 403, or throws.
  pub check_cases :
      (st : State) (root target : Bytes)
      → (check_within_root fs st root target ≡ ok [])
        ⊎ (check_within_root fs st root target ≡ ok forbidden)
        ⊎ ((e : Exception) × (check_within_root fs st root target ≡ throws e))
  unfolding check_within_root
  check_cases st [] target = inl refl
  check_cases st (c ∷ root) target = elim (Result-cases (canonical st (c ∷ root))) [
    | inr (e, p) ↦ inr (inr (e, rw p))
    | inl (r, p) ↦ elim (Result-cases (weakly_canonical st target)) [
      | inr (e, q) ↦ inr (inr (e, rw (p, q)))
      | inl (t, q) ↦ elim (Bool-cases (is_outside r t)) [
        | inl o ↦ inr (inl (rw (p, q, o)))
        | inr o ↦ inl (rw (p, q, o))
      ]
    ]
  ]
