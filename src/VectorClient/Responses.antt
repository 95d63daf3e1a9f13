-- ===== src/VectorClient/Responses.antt =====
-- What the client sends and what it makes of a response, however the network cuts them.
use semantic_search_engine.Base.{
  ℕ, zero, suc, ◌≡◌, ◌≢◌, ◌≤◌, refl, ap, ◌∙◌, true, List, [], ◌∷◌, ◌++◌, append_assoc,
  take-append-drop, Bytes, arith, leb, length, take, drop, Bool-cases, inl, inr, length-drop,
}
use semantic_search_engine.HttpResponse.{make_response}
use semantic_search_engine.HttpResponse.Framing.{NoCr, body_after, body_after-make_response}
use semantic_search_engine.Map.{get_or}
use semantic_search_engine.Socket.{
  Arrival, comes, interrupted, breaks, read_some, left_over, weight, stream, IsLive,
  read_some-Gives,
}
use semantic_search_engine.VectorClient.{send_all, recv_loop, recv_all, read_response}

-- Bytes come in nonempty pieces until the peer closes, with no interruption: no read timed out.
abbrev pub IsQuiet : List Arrival → Type 0
IsQuiet [] = Unit
IsQuiet (comes bs ∷ net) = (bs ≢ []) × IsQuiet net
IsQuiet (interrupted is_done ∷ net) = ⊥
IsQuiet (breaks ∷ net) = ⊥

pub quiet-IsLive : (net : List Arrival) → IsQuiet net → IsLive net
quiet-IsLive [] q = tt
quiet-IsLive (comes bs ∷ net) (ne, q) = (ne, quiet-IsLive net q)
quiet-IsLive (interrupted is_done ∷ net) q = absurd q
quiet-IsLive (breaks ∷ net) q = absurd q

pub left_over-IsQuiet :
    (n : ℕ) (bs : Bytes) (net : List Arrival) → IsQuiet net → IsQuiet (left_over n bs net)
left_over-IsQuiet n bs net q = elim (Bool-cases (leb (length bs) n)) [
  | inl e ↦ rw e q
  | inr e ↦ rw e ((λ x. ground (arith, ap length x, length-drop n bs)), q)
]

recv_loop-stream :
    (fuel : ℕ) (net : List Arrival)
    → weight net ≤ fuel
    → IsQuiet net
    → recv_loop fuel net ≡ stream net
unfolding recv_loop read_some
recv_loop-stream zero [] h q = refl
recv_loop-stream zero (comes bs ∷ net) h q = absurd (omega (arith, h))
recv_loop-stream (suc fuel) [] h q = refl
recv_loop-stream (suc fuel) (comes [] ∷ net) h (ne, q) = absurd (ne refl)
recv_loop-stream (suc fuel) (comes (b ∷ bs) ∷ net) h (ne, q) =
    let (ne', e, less, live) =
      read_some-Gives 4094 (comes (b ∷ bs) ∷ net) (ne, quiet-IsLive net q) in
    ap (λ x. take 4095 (b ∷ bs) ++ x)
      (recv_loop-stream fuel (left_over 4095 (b ∷ bs) net) (omega (arith, less, h))
        (left_over-IsQuiet 4095 (b ∷ bs) net q))
    ∙ e
recv_loop-stream fuel (interrupted is_done ∷ net) h q = absurd q
recv_loop-stream fuel (breaks ∷ net) h q = absurd q

-- However the network cuts a response of `MakeResponse`, `ReadResponse` returns its body, if no
-- read fails or times out, and the content type and the reason hold no carriage return.
pub read_response-make_response :
    (net : List Arrival) (status : ℕ) (body content_type status_text : Bytes)
    → IsQuiet net
    → stream net ≡ make_response status body content_type status_text
    → NoCr content_type
    → NoCr status_text
    → read_response net ≡ body
unfolding read_response recv_all
read_response-make_response net status body content_type status_text q e ht hr =
    ap (λ s. get_or [] (body_after s)) (recv_loop-stream (weight net) net (omega arith) q ∙ e)
    ∙ ap (get_or []) (body_after-make_response status body content_type status_text ht hr)

-- What `SendAll` has sent is a first part of the text, and the whole text if it says so.
pub send_all_lem :
    (writes : List ℕ) (buf : Bytes)
    → (rest : Bytes) × ((send_all writes buf).1 ++ rest ≡ buf)
      × ((send_all writes buf).0 ≡ true → rest ≡ [])
unfolding send_all
send_all_lem [] [] = ([], refl, (λ _. refl))
send_all_lem [] (c ∷ buf) = (c ∷ buf, refl, (λ e. cc))
send_all_lem (w ∷ writes) [] = ([], refl, (λ _. refl))
send_all_lem (zero ∷ writes) (c ∷ buf) = (c ∷ buf, refl, (λ e. cc))
send_all_lem (suc w ∷ writes) (c ∷ buf) =
    let (rest, e, done) = send_all_lem writes (drop w buf) in
    (
      rest,
      ap (◌∷◌ c) (
          append_assoc (take w buf) (send_all writes (drop w buf)).1 rest
          ∙ ap (λ x. take w buf ++ x) e
          ∙ take-append-drop w buf),
      done,
    )
