-- ===== src/HttpRequest/Head.antt =====
-- The head of a request that is written the way HTTP clients write one.
use semantic_search_engine.Base.{
  ℕ, ◌+◌, ◌≡◌, refl, ap, ◌∙◌, List, [], ◌∷◌, ◌++◌, append_assoc, some, Bytes, arith, All, length,
  length-drop, some_injective, Option-cases, inl, inr,
}
use semantic_search_engine.HttpRequest.RoundTrip.{body_after-fields, first_line-All}
use semantic_search_engine.HttpRequest.Written.{
  fields_before, first_line, request_text, IsField, IsWord,
}
use semantic_search_engine.HttpResponse.{blank_line, crlf}
use semantic_search_engine.HttpResponse.Framing.{body_after}
use semantic_search_engine.Text.{find}
use semantic_search_engine.Text.Search.{find-le}

fields_before-append :
    (fields : List (Bytes × Bytes)) (rest body : Bytes)
    → fields_before fields rest ++ body ≡ fields_before fields (rest ++ body)
fields_before-append [] rest body = refl
fields_before-append ((key, val) ∷ fields) rest body =
    append_assoc (key ++ b':' ∷ b' ' ∷ val) (crlf ++ fields_before fields rest) body
    ∙ ap (λ x. (key ++ b':' ∷ b' ' ∷ val) ++ (crlf ++ x)) (fields_before-append fields rest body)

-- The body follows the head.
pub request_text-append :
    (method target : Bytes) (fields : List (Bytes × Bytes)) (body : Bytes)
    → request_text method target fields [] ++ body ≡ request_text method target fields body
request_text-append method target fields body =
    append_assoc (first_line method target) (crlf ++ fields_before fields (crlf ++ [])) body
    ∙ ap (λ x. first_line method target ++ (crlf ++ x))
        (fields_before-append fields (crlf ++ []) body)

blank_of :
    (raw : Bytes)
    → body_after raw ≡ some []
    → (place : ℕ) × (find blank_line raw ≡ some place) × (place + 4 ≡ length raw)
unfolding body_after
blank_of raw h = elim (Option-cases (find blank_line raw)) [
  | inl e ↦ cc (rw (e, body_after) at h)
  | inr (place, e) ↦ (
    place,
    e,
    omega (
      arith,
      find-le blank_line raw place e,
      length-drop (place + 4) raw,
      ap length (some_injective (rw (e, body_after) at h)),
    ),
  )
]

-- The head ends with its first blank line.
pub head_ends :
    (method target : Bytes) (fields : List (Bytes × Bytes))
    → IsWord method
    → IsWord target
    → All IsField fields
    → (place : ℕ) × (find blank_line (request_text method target fields []) ≡ some place)
      × (place + 4 ≡ length (request_text method target fields []))
head_ends method target fields m t f = blank_of (request_text method target fields []) (
    body_after-fields (first_line method target) fields []
      (first_line-All 13 method target (omega arith) m.line.0 t.line.0) f)
