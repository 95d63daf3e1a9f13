-- ===== src/HttpServer/Chunks.antt =====
-- `ReadRawRequest` on a request that the network cuts into pieces.
use semantic_search_engine.Base.{
  ℕ, ◌+◌, ◌-◌, ◌≡◌, ◌≤◌, inl, inr, refl, ap, sym, subst, ◌∙◌, Bool, true, false, List, [], ◌∷◌,
  ◌++◌, append-nil, Option, none, some, Bytes, arith, ap₂, cons-head, cons-tail, length,
  length-append, Option-cases, some_injective,
}
use semantic_search_engine.Exception.{Result, ok}
use semantic_search_engine.HttpResponse.{blank_line}
use semantic_search_engine.Socket.{Arrival, weight, stream, IsLive}
use semantic_search_engine.Text.{find}
use semantic_search_engine.HttpServer.Reading.{
  has_blank_line, headers_loop, read_headers, declared_length, body_loop, read_body, read_rest,
  read_raw_request,
}
use semantic_search_engine.Map.{get_or}
use semantic_search_engine.Text.Search.{find-le, find_grow}
use semantic_search_engine.HttpServer.Loops.{
  HasHeaders, HasBody, headers_loop-HasHeaders, body_loop-HasBody,
}
use semantic_search_engine.HttpServer.Frames.{weight-append, headers_loop_frame, body_loop_frame}

-- An append is the whole of a text that is not longer than its first part.
whole : (raw t s : Bytes) → raw ++ t ≡ s → length s ≤ length raw → (raw ≡ s) × (t ≡ [])
whole raw [] s e h = (sym (append-nil raw) ∙ e, refl)
whole raw (c ∷ t) s e h = absurd (omega (arith, h, ap length e, length-append raw (c ∷ t)))

-- Of two ways to cut a text, the longer first part extends the shorter.
extends :
    (raw t head body : Bytes)
    → raw ++ t ≡ head ++ body
    → length head ≤ length raw
    → (b : Bytes) × (raw ≡ head ++ b)
extends raw t [] body e h = (raw, refl)
extends [] t (c ∷ head) body e h = absurd (omega (arith, h))
extends (d ∷ raw) t (c ∷ head) body e h =
    let (b, q) = extends raw t head body (cons-tail e) (omega (arith, h)) in
    (b, ap₂ ◌∷◌ (cons-head e) q)

-- What the head of a request says of its body's length, whatever follows it.
abbrev pub Declares : Bytes → Option ℕ → Type 0
Declares head declared = (b : Bytes) → declared_length (head ++ b) (length head) ≡ ok declared

-- The whole request, and what comes behind it, in front of which only interruptions are left.
abbrev pub ReadsAll : Bytes → List Arrival → Result (Bytes × List Arrival) → Type 0
ReadsAll s more r =
    (rest : List Arrival) × (r ≡ ok (s, rest ++ more)) × (stream rest ≡ []) × IsLive rest

read_body-ReadsAll :
    (raw head body : Bytes) (net more : List Arrival) (declared : Option ℕ)
    → raw ++ stream net ≡ head ++ body
    → length head ≤ length raw
    → IsLive net
    → declared_length raw (length head) ≡ ok declared
    → get_or 0 declared ≡ length body
    → ReadsAll (head ++ body) more (read_body raw (length head) (net ++ more))
unfolding read_body
read_body-ReadsAll raw head body net more none e h live d len =
    let (q, t) =
      whole raw (stream net) (head ++ body) e (omega (arith, h, len, length-append head body)) in
    rw d (net, ap (λ x. ok (x, net ++ more)) q, t, live)
read_body-ReadsAll raw head body net more (some n) e h live d len = rw d (
    settled (body_loop (weight net) (n - (length raw - length head)) raw net) refl (
      body_loop-HasBody (weight net) (n - (length raw - length head)) (length (head ++ body)) raw
        net (omega arith) (omega (arith, h, len, length-append head body)) live))
  where
    exact :
        (raw' : Bytes) (net' : List Arrival)
        → body_loop (weight net) (n - (length raw - length head)) raw net ≡ (raw', net')
        → raw' ≡ head ++ body
        → stream net' ≡ []
        → IsLive net'
        → ReadsAll (head ++ body) more (
            ok
              (body_loop (weight (net ++ more)) (n - (length raw - length head)) raw (net ++ more)))
    exact raw' net' eq q t live' = (
      net',
      ap ok (
          body_loop_frame more raw' net' (weight net) (weight (net ++ more))
            (n - (length raw - length head)) raw net (omega (arith, weight-append net more))
            (omega (
              arith,
              h,
              len,
              ap length q,
              ap length e,
              length-append head body,
              length-append raw (stream net),
            ))
            eq
          ∙ ap (λ x. (x, net' ++ more)) q),
      t,
      live',
    )

    settled :
        (r : Bytes × List Arrival)
        → body_loop (weight net) (n - (length raw - length head)) raw net ≡ r
        → HasBody (length (head ++ body)) (raw ++ stream net) r
        → ReadsAll (head ++ body) more (
            ok
              (body_loop (weight (net ++ more)) (n - (length raw - length head)) raw (net ++ more)))
    settled (raw', net') eq (q, inl enough, live') =
        let (q', t) = whole raw' (stream net') (head ++ body) (q ∙ e) enough in
        exact raw' net' eq q' t live'
    settled (raw', net') eq (q, inr t, live') =
        exact raw' net' eq (sym (append-nil raw') ∙ ap (λ x. raw' ++ x) (sym t) ∙ q ∙ e) t live'

pub has_blank_line-some : (s : Bytes) (j : ℕ) → find blank_line s ≡ some j → has_blank_line s ≡ true
unfolding has_blank_line
has_blank_line-some s j e = rw (e, has_blank_line) refl

has_blank_line-none : (s : Bytes) → find blank_line s ≡ none → has_blank_line s ≡ false
unfolding has_blank_line
has_blank_line-none s e = rw (e, has_blank_line) refl

read_rest_found :
    (raw : Bytes) (net : List Arrival) (i : ℕ)
    → find blank_line raw ≡ some i
    → read_rest (true, raw, net) ≡ read_body raw (i + 4) net
unfolding read_rest
read_rest_found raw net i e = rw (e, read_rest) refl

-- What `ReadHeaders` finds of a request, with more behind it.
headers_found :
    (r : Bool × Bytes × List Arrival) (head body : Bytes) (j : ℕ)
    → HasHeaders (head ++ body) r
    → find blank_line head ≡ some j
    → r.0 ≡ true
headers_found (true, raw, net) head body j h fj = refl
headers_found (false, raw, net) head body j (e, live, hb, stop) fj = cc (
  hb,
  has_blank_line-some raw j (
      ap (find blank_line) (sym (append-nil raw) ∙ ap (λ x. raw ++ x) (sym (stop refl)) ∙ e)
      ∙ find_grow blank_line head body j fj),
)

read_rest-ReadsAll :
    (raw : Bytes) (net more : List Arrival) (head body : Bytes) (j : ℕ) (declared : Option ℕ)
    → HasHeaders (head ++ body) (true, raw, net)
    → find blank_line head ≡ some j
    → j + 4 ≡ length head
    → Declares head declared
    → get_or 0 declared ≡ length body
    → ReadsAll (head ++ body) more (read_rest (true, raw, net ++ more))
read_rest-ReadsAll raw net more head body j declared (e, live, hb, stop) fj ends d len =
    elim (Option-cases (find blank_line raw)) [
      | inl none_there ↦ absurd (cc (hb, has_blank_line-none raw none_there))
      | inr (i, q) ↦
          let at = place i q in
          let fits : length head ≤ length raw = omega (arith, find-le blank_line raw i q, at) in
          let (b, r) = extends raw (stream net) head body e fits in
          subst (ReadsAll (head ++ body) more)
            (sym
              (read_rest_found raw (net ++ more) i q ∙ ap (λ k. read_body raw k (net ++ more)) at))
            (read_body-ReadsAll raw head body net more declared e fits live
              (ap (λ x. declared_length x (length head)) r ∙ d b) len)
    ]
  where
    place : (i : ℕ) → find blank_line raw ≡ some i → i + 4 ≡ length head
    place i q =
        ap (λ k. k + 4)
          (some_injective (
            sym (find_grow blank_line raw (stream net) i q)
            ∙ ap (find blank_line) e
            ∙ find_grow blank_line head body j fj))
        ∙ ends

-- However the network cuts a request, and however often a read is interrupted, `ReadRawRequest`
-- returns exactly its bytes, and leaves alone all that comes in later pieces. The head has to end
-- with its first blank line and to declare the length of the body (or nothing where there is no
-- body); the connection has to live while the request comes.
pub read_raw_request_whole :
    (net more : List Arrival) (head body : Bytes) (j : ℕ) (declared : Option ℕ)
    → IsLive net
    → stream net ≡ head ++ body
    → find blank_line head ≡ some j
    → j + 4 ≡ length head
    → Declares head declared
    → get_or 0 declared ≡ length body
    → ReadsAll (head ++ body) more (read_raw_request (net ++ more))
unfolding read_raw_request read_headers
read_raw_request_whole net more head body j declared live e fj ends d len =
    framed (headers_loop (weight net) [] net) refl (
      subst (λ s. HasHeaders s (headers_loop (weight net) [] net)) e
        (headers_loop-HasHeaders (weight net) [] net (omega arith) live))
  where
    found :
        (raw : Bytes) (net' : List Arrival)
        → headers_loop (weight net) [] net ≡ (true, raw, net')
        → HasHeaders (head ++ body) (true, raw, net')
        → ReadsAll
            (head ++ body)
            more
            (read_rest (headers_loop (weight (net ++ more)) [] (net ++ more)))
    found raw net' eq h =
        subst (λ r. ReadsAll (head ++ body) more (read_rest r))
          (sym (
            headers_loop_frame more raw net' (weight net) (weight (net ++ more)) [] net
              (omega (arith, weight-append net more)) eq))
          (read_rest-ReadsAll raw net' more head body j declared h fj ends d len)

    framed :
        (r : Bool × Bytes × List Arrival)
        → headers_loop (weight net) [] net ≡ r
        → HasHeaders (head ++ body) r
        → ReadsAll
            (head ++ body)
            more
            (read_rest (headers_loop (weight (net ++ more)) [] (net ++ more)))
    framed (true, raw, net') eq h = found raw net' eq h
    framed (false, raw, net') eq h = cc (headers_found (false, raw, net') head body j h fj)

pub empty_lacks : has_blank_line [] ≡ false
unfolding has_blank_line find
empty_lacks = refl

-- Where nothing comes any more, nothing is read.
pub read_raw_request_nothing :
    (net : List Arrival)
    → IsLive net
    → stream net ≡ []
    → (rest : List Arrival) × (read_raw_request net ≡ ok ([], rest))
unfolding read_raw_request read_headers
read_raw_request_nothing net live e = nothing (headers_loop (weight net) [] net) (
    subst (λ s. HasHeaders s (headers_loop (weight net) [] net)) e
      (headers_loop-HasHeaders (weight net) [] net (omega arith) live))
  where
    nothing :
        (r : Bool × Bytes × List Arrival)
        → HasHeaders [] r
        → (rest : List Arrival) × (read_rest r ≡ ok ([], rest))
    nothing (false, [], net') h = (net', refl)
    nothing (true, [], net') (q, live', hb, stop) = cc (hb, empty_lacks)
    nothing (found, c ∷ raw, net') (q, live', hb, stop) = cc
