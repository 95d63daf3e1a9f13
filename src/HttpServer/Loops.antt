-- ===== src/HttpServer/Loops.antt =====
-- The loops of `ReadHeaders` and `ReadBody` lose no byte and stop where they should.
use semantic_search_engine.Base.{
  ℕ, zero, suc, ◌+◌, ◌-◌, ◌≡◌, ◌≤◌, ◌<◌, ◌⊎◌, inl, inr, refl, ap, sym, subst, ◌∙◌, Bool, true,
  false, List, [], ◌∷◌, ◌++◌, append_assoc, Bytes, arith, min, length, length-append, Bool-cases,
}
use semantic_search_engine.Socket.{
  Arrival, comes, interrupted, breaks, Outcome, got, again, failed, ended, read_some, weight,
  stream, IsLive, Gives, read_some-Gives,
}
use semantic_search_engine.HttpServer.Reading.{
  has_blank_line, k_read_size, headers_round, headers_loop, body_round, body_loop,
}

-- The stream has ended where the fuel has.
stream-weight : (net : List Arrival) → weight net ≤ 0 → stream net ≡ []
stream-weight [] h = refl
stream-weight (comes bs ∷ net) h = absurd (omega (arith, h))
stream-weight (interrupted is_done ∷ net) h = absurd (omega (arith, h))
stream-weight (breaks ∷ net) h = absurd (omega (arith, h))

-- What `ReadHeaders` does: no byte is lost, and it stops at a blank line or at the end.
abbrev pub HasHeaders : Bytes → Bool × Bytes × List Arrival → Type 0
HasHeaders s (found, raw, net) =
    (raw ++ stream net ≡ s)
    × IsLive net
    × (has_blank_line raw ≡ found)
    × (found ≡ false → stream net ≡ [])

headers_end :
    (raw : Bytes) (net net' : List Arrival)
    → has_blank_line raw ≡ false
    → (stream net ≡ []) × (net' ≡ [])
    → HasHeaders (raw ++ stream net) (false, raw, net')
headers_end raw net [] none_yet (e, q) = (ap (λ x. raw ++ x) (sym e), tt, none_yet, (λ _. refl))
headers_end raw net (a ∷ net') none_yet (e, q) = cc

headers_round-HasHeaders :
    (next : Bytes → List Arrival → Bool × Bytes × List Arrival) (raw : Bytes) (net : List Arrival)
    (r : Outcome × List Arrival)
    → has_blank_line raw ≡ false
    → Gives net r
    → ((raw' : Bytes) (net' : List Arrival)
        → weight net' < weight net
        → IsLive net'
        → HasHeaders (raw' ++ stream net') (next raw' net'))
    → HasHeaders (raw ++ stream net) (headers_round next raw r)
headers_round-HasHeaders next raw net (got bs, net') none_yet (ne, e, less, live') rest =
    subst (λ s. HasHeaders s (next (raw ++ bs) net'))
      (append_assoc raw bs (stream net') ∙ ap (λ x. raw ++ x) e) (rest (raw ++ bs) net' less live')
headers_round-HasHeaders next raw net (again true, net') none_yet (d, e, less, live') rest = cc
headers_round-HasHeaders next raw net (again false, net') none_yet (d, e, less, live') rest =
    subst (λ s. HasHeaders (raw ++ s) (next raw net')) e (rest raw net' less live')
headers_round-HasHeaders next raw net (failed, net') none_yet g rest = absurd g
headers_round-HasHeaders next raw net (ended, net') none_yet g rest =
    headers_end raw net net' none_yet g

pub headers_loop_found :
    (fuel : ℕ) (raw : Bytes) (net : List Arrival)
    → has_blank_line raw ≡ true
    → headers_loop (suc fuel) raw net ≡ (true, raw, net)
unfolding headers_loop
headers_loop_found fuel raw net e = rw (e, headers_loop) refl

pub headers_loop_reads :
    (fuel : ℕ) (raw : Bytes) (net : List Arrival)
    → has_blank_line raw ≡ false
    → headers_loop (suc fuel) raw net
      ≡ headers_round (headers_loop fuel) raw (read_some k_read_size net)
unfolding headers_loop
headers_loop_reads fuel raw net e = rw (e, headers_loop) refl

pub headers_loop-HasHeaders :
    (fuel : ℕ) (raw : Bytes) (net : List Arrival)
    → weight net ≤ fuel
    → IsLive net
    → HasHeaders (raw ++ stream net) (headers_loop fuel raw net)
unfolding headers_loop
headers_loop-HasHeaders zero raw net h live = (refl, live, refl, (λ _. stream-weight net h))
headers_loop-HasHeaders (suc fuel) raw net h live = elim (Bool-cases (has_blank_line raw)) [
  | inl e ↦
      subst (HasHeaders (raw ++ stream net)) (sym (headers_loop_found fuel raw net e))
        (refl, live, e, (λ x. cc))
  | inr e ↦ subst (HasHeaders (raw ++ stream net)) (sym (headers_loop_reads fuel raw net e)) (
      headers_round-HasHeaders (headers_loop fuel) raw net _ e (read_some-Gives 4094 net live)
        (λ raw' net' less live'.
          headers_loop-HasHeaders fuel raw' net' (omega (arith, less, h)) live'))
]

-- What `ReadBody` does with a connection: no byte is lost, and it stops where enough have come or
-- at the end.
abbrev pub HasBody : ℕ → Bytes → Bytes × List Arrival → Type 0
HasBody wanted s (raw, net) =
    (raw ++ stream net ≡ s) × ((wanted ≤ length raw) ⊎ (stream net ≡ [])) × IsLive net

body_end :
    (wanted : ℕ) (raw : Bytes) (net net' : List Arrival)
    → (stream net ≡ []) × (net' ≡ [])
    → HasBody wanted (raw ++ stream net) (raw, net')
body_end wanted raw net [] (e, q) = (ap (λ x. raw ++ x) (sym e), inr refl, tt)
body_end wanted raw net (a ∷ net') (e, q) = cc

body_round-HasBody :
    (next : ℕ → Bytes → List Arrival → Bytes × List Arrival) (missing wanted : ℕ) (raw : Bytes)
    (net : List Arrival) (r : Outcome × List Arrival)
    → wanted ≤ length raw + missing
    → Gives net r
    → ((m : ℕ) (raw' : Bytes) (net' : List Arrival)
        → wanted ≤ length raw' + m
        → weight net' < weight net
        → IsLive net'
        → HasBody wanted (raw' ++ stream net') (next m raw' net'))
    → HasBody wanted (raw ++ stream net) (body_round next missing raw r)
body_round-HasBody next missing wanted raw net (got bs, net') w (ne, e, less, live') rest =
    subst (λ s. HasBody wanted s (next (missing - length bs) (raw ++ bs) net'))
      (append_assoc raw bs (stream net') ∙ ap (λ x. raw ++ x) e)
      (rest (missing - length bs) (raw ++ bs) net' (omega (arith, w, length-append raw bs)) less
        live')
body_round-HasBody next missing wanted raw net (again true, net') w (d, e, less, live') rest = cc
body_round-HasBody next missing wanted raw net (again false, net') w (d, e, less, live') rest =
    subst (λ s. HasBody wanted (raw ++ s) (next missing raw net')) e
      (rest missing raw net' w less live')
body_round-HasBody next missing wanted raw net (failed, net') w g rest = absurd g
body_round-HasBody next missing wanted raw net (ended, net') w g rest =
    body_end wanted raw net net' g

pub body_loop-HasBody :
    (fuel missing wanted : ℕ) (raw : Bytes) (net : List Arrival)
    → weight net ≤ fuel
    → wanted ≤ length raw + missing
    → IsLive net
    → HasBody wanted (raw ++ stream net) (body_loop fuel missing raw net)
unfolding body_loop
body_loop-HasBody zero missing wanted raw net h w live = (refl, inr (stream-weight net h), live)
body_loop-HasBody (suc fuel) zero wanted raw net h w live = (refl, inl (omega (arith, w)), live)
body_loop-HasBody (suc fuel) (suc missing) wanted raw net h w live =
    body_round-HasBody (body_loop fuel) (suc missing) wanted raw net _ w
      (subst (λ k. Gives net (read_some k net)) (buffer missing)
        (read_some-Gives (min missing 4094) net live))
      (λ m raw' net' w' less live'.
        body_loop-HasBody fuel m wanted raw' net' (omega (arith, less, h)) w' live')
  where
    buffer : (n : ℕ) → suc (min n 4094) ≡ min (suc n) k_read_size
    buffer n = omega arith
