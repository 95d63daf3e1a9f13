-- ===== src/HttpServer/Consumed.antt =====
-- What `ReadRawRequest` uses up of a connection.
use semantic_search_engine.Base.{
  ℕ, zero, suc, ◌+◌, ◌-◌, ◌≡◌, ◌≤◌, ◌<◌, refl, ap, sym, subst, ◌∙◌, Bool, true, false, List, [],
  ◌∷◌, ◌++◌, Option, none, some, Bytes, arith, leb, min, length, length-drop, Bool-cases,
  Option-cases, inl, inr,
}
use semantic_search_engine.Exception.{Result, ok, ◌>>=◌, Result-cases, ok_injective, throws-ne-ok}
use semantic_search_engine.HttpResponse.{blank_line}
use semantic_search_engine.HttpServer.Loops.{headers_loop_found, headers_loop_reads}
use semantic_search_engine.HttpServer.Reading.{
  has_blank_line, k_read_size, headers_round, headers_loop, read_headers, declared_length,
  body_round, body_loop, read_body, read_rest, read_raw_request,
}
use semantic_search_engine.Socket.{
  Arrival, comes, interrupted, breaks, Outcome, got, again, failed, ended, read_some, left_over,
  weight,
}
use semantic_search_engine.Text.{find}

-- One call uses up some of the connection, unless it fails or finds the end.
abbrev Shrinks : List Arrival → Outcome × List Arrival → Type 0
Shrinks net (got bs, net') = weight net' < weight net
Shrinks net (again d, net') = weight net' < weight net
Shrinks net (failed, net') = weight net' ≤ weight net
Shrinks net (ended, net') = weight net' ≤ weight net

left_over-lt :
    (n b : ℕ) (bs : Bytes) (net : List Arrival)
    → weight (left_over (suc n) (b ∷ bs) net) < weight (comes (b ∷ bs) ∷ net)
left_over-lt n b bs net = elim (Bool-cases (leb (length (b ∷ bs)) (suc n))) [
  | inl e ↦ rw e (omega arith)
  | inr e ↦ rw e (omega (arith, length-drop n bs))
]

read_some-Shrinks : (n : ℕ) (net : List Arrival) → Shrinks net (read_some (suc n) net)
unfolding read_some
read_some-Shrinks n [] = omega arith
read_some-Shrinks n (comes [] ∷ net) = omega arith
read_some-Shrinks n (comes (b ∷ bs) ∷ net) = left_over-lt n b bs net
read_some-Shrinks n (interrupted d ∷ net) = omega arith
read_some-Shrinks n (breaks ∷ net) = omega arith

-- The result of `ReadHeaders` says whether there is a blank line, and if one came, less is left.
abbrev Settles : List Arrival → Bool × Bytes × List Arrival → Type 0
Settles net (found, raw, net') = (has_blank_line raw ≡ found) × (weight net' ≤ weight net)

abbrev Advances : List Arrival → Bool × Bytes × List Arrival → Type 0
Advances net (found, raw, net') = found ≡ true → weight net' < weight net

headers_round-Settles :
    (next : Bytes → List Arrival → Bool × Bytes × List Arrival) (raw : Bytes) (net : List Arrival)
    (r : Outcome × List Arrival)
    → has_blank_line raw ≡ false
    → Shrinks net r
    → ((x : Bytes) (m : List Arrival) → Settles m (next x m))
    → Settles net (headers_round next raw r) × Advances net (headers_round next raw r)
headers_round-Settles next raw net (got bs, m) none_yet s rest =
    let (a, b) = rest (raw ++ bs) m in ((a, omega (arith, b, s)), (λ _. omega (arith, b, s)))
headers_round-Settles next raw net (again true, m) none_yet s rest =
    ((none_yet, omega (arith, s)), (λ x. cc))
headers_round-Settles next raw net (again false, m) none_yet s rest =
    let (a, b) = rest raw m in ((a, omega (arith, b, s)), (λ _. omega (arith, b, s)))
headers_round-Settles next raw net (failed, m) none_yet s rest = ((none_yet, s), (λ x. cc))
headers_round-Settles next raw net (ended, m) none_yet s rest = ((none_yet, s), (λ x. cc))

headers_loop-Settles :
    (f : ℕ) (raw : Bytes) (net : List Arrival) → Settles net (headers_loop f raw net)
unfolding headers_loop
headers_loop-Settles zero raw net = (refl, omega arith)
headers_loop-Settles (suc f) raw net = elim (Bool-cases (has_blank_line raw)) [
  | inl e ↦ rw (headers_loop_found f raw net e) (e, omega arith)
  | inr e ↦
      rw (headers_loop_reads f raw net e)
        (headers_round-Settles (headers_loop f) raw net (read_some k_read_size net) e
          (read_some-Shrinks 4094 net) (headers_loop-Settles f)).0
]

no_blank_line : has_blank_line [] ≡ false
unfolding has_blank_line find
no_blank_line = refl

headers_loop-Advances :
    (f : ℕ) (net : List Arrival) → weight net ≤ f → Advances net (headers_loop f [] net)
unfolding headers_loop
headers_loop-Advances zero net h = λ x. cc (no_blank_line)
headers_loop-Advances (suc f) net h =
    rw (headers_loop_reads f [] net no_blank_line)
      (headers_round-Settles (headers_loop f) [] net (read_some k_read_size net) no_blank_line
        (read_some-Shrinks 4094 net) (headers_loop-Settles f)).1

body_round-le :
    (next : ℕ → Bytes → List Arrival → Bytes × List Arrival) (missing : ℕ) (raw : Bytes)
    (net : List Arrival) (r : Outcome × List Arrival)
    → Shrinks net r
    → ((m : ℕ) (x : Bytes) (n : List Arrival) → weight (next m x n).1 ≤ weight n)
    → weight (body_round next missing raw r).1 ≤ weight net
body_round-le next missing raw net (got bs, m) s rest =
    omega (arith, s, rest (missing - length bs) (raw ++ bs) m)
body_round-le next missing raw net (again true, m) s rest = omega (arith, s)
body_round-le next missing raw net (again false, m) s rest = omega (arith, s, rest missing raw m)
body_round-le next missing raw net (failed, m) s rest = s
body_round-le next missing raw net (ended, m) s rest = s

body_loop-le :
    (f missing : ℕ) (raw : Bytes) (net : List Arrival)
    → weight (body_loop f missing raw net).1 ≤ weight net
unfolding body_loop
body_loop-le zero missing raw net = omega arith
body_loop-le (suc f) zero raw net = omega arith
body_loop-le (suc f) (suc missing) raw net =
    body_round-le (body_loop f) (suc missing) raw net
      (read_some (min (suc missing) k_read_size) net)
      (subst (λ k. Shrinks net (read_some k net)) (buffer missing)
        (read_some-Shrinks (min missing 4094) net))
      (body_loop-le f)
  where
    buffer : (n : ℕ) → suc (min n 4094) ≡ min (suc n) k_read_size
    buffer n = omega arith

read_body-le :
    (raw : Bytes) (offset : ℕ) (net net' : List Arrival) (raw' : Bytes)
    → read_body raw offset net ≡ ok (raw', net')
    → weight net' ≤ weight net
unfolding read_body
read_body-le raw offset net net' raw' h = elim (Result-cases (declared_length raw offset)) [
  | inr (e, p) ↦ absurd (throws-ne-ok e (sym (ap settle p) ∙ h))
  | inl (none, p) ↦ omega (arith, ap (λ x. weight x.1) (ok_injective (sym (ap settle p) ∙ h)))
  | inl (some n, p) ↦ omega (
    arith,
    ap (λ x. weight x.1) (ok_injective (sym (ap settle p) ∙ h)),
    body_loop-le (weight net) (n - (length raw - offset)) raw net,
  )
]
  where
    settle : Result (Option ℕ) → Result (Bytes × List Arrival)
    settle x = x >>= elim [
      | none ↦ ok (raw, net)
      | some n ↦ ok (body_loop (weight net) (n - (length raw - offset)) raw net)
    ]

read_rest-le :
    (r : Bool × Bytes × List Arrival) (net' : List Arrival) (raw' : Bytes)
    → read_rest r ≡ ok (raw', net')
    → weight net' ≤ weight r.2
unfolding read_rest
read_rest-le (false, raw, net) net' raw' h = omega (arith, ap (λ x. weight x.1) (ok_injective h))
read_rest-le (true, raw, net) net' raw' h = elim (Option-cases (find blank_line raw)) [
  | inl e ↦ omega (arith, ap (λ x. weight x.1) (ok_injective (sym (ap settle e) ∙ h)))
  | inr (i, e) ↦ read_body-le raw (i + 4) net net' raw' (sym (ap settle e) ∙ h)
]
  where
    settle : Option ℕ → Result (Bytes × List Arrival)
    settle x = elim x [ none ↦ ok (raw, net) | some i ↦ read_body raw (i + 4) net ]

read_rest_stopped : (raw : Bytes) (net : List Arrival) → read_rest (false, raw, net) ≡ ok (raw, net)
unfolding read_rest
read_rest_stopped raw net = refl

-- A request that has its blank line has used up some of the connection.
pub read_raw_request-lt :
    (net net' : List Arrival) (raw : Bytes)
    → read_raw_request net ≡ ok (raw, net')
    → has_blank_line raw ≡ true
    → weight net' < weight net
unfolding read_raw_request read_headers
read_raw_request-lt net net' raw h blank =
    found (headers_loop (weight net) [] net) (headers_loop-Settles (weight net) [] net)
      (headers_loop-Advances (weight net) net (omega arith)) h
  where
    found :
        (r : Bool × Bytes × List Arrival)
        → Settles net r
        → Advances net r
        → read_rest r ≡ ok (raw, net')
        → weight net' < weight net
    found (true, x, m) s a q = omega (arith, a refl, read_rest-le (true, x, m) net' raw q)
    found (false, x, m) (s, t) a q =
        cc (s, blank, ap (λ y. y.0) (ok_injective (sym (read_rest_stopped x m) ∙ q)))
