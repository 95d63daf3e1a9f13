-- ===== src/HttpServer/Frames.antt =====
-- The loops of `ReadHeaders` and `ReadBody` leave alone what comes behind the bytes they need.
use semantic_search_engine.Base.{
  ℕ, zero, suc, ◌+◌, ◌-◌, ◌≡◌, ◌≤◌, refl, ap, sym, ◌∙◌, Bool, true, false, List, [], ◌∷◌, ◌++◌,
  Bytes, arith, min, leb, length, length-append, length-take-le, Bool-cases, inl, inr, take,
}
use semantic_search_engine.HttpServer.Loops.{headers_loop_found, headers_loop_reads}
use semantic_search_engine.HttpServer.Reading.{
  has_blank_line, k_read_size, headers_round, headers_loop, body_round, body_loop,
}
use semantic_search_engine.Socket.{
  Arrival, comes, interrupted, breaks, Outcome, got, again, failed, ended, read_some, weight,
  left_over,
}

pub weight-append : (net more : List Arrival) → weight (net ++ more) ≡ weight net + weight more
weight-append [] more = omega arith
weight-append (comes bs ∷ net) more = omega (arith, weight-append net more)
weight-append (interrupted d ∷ net) more = omega (arith, weight-append net more)
weight-append (breaks ∷ net) more = omega (arith, weight-append net more)

-- More that comes behind what a call leaves.
abbrev onward : List Arrival → Outcome × List Arrival → Outcome × List Arrival
onward more (o, net) = (o, net ++ more)

left_over-append :
    (n : ℕ) (bs : Bytes) (net more : List Arrival)
    → left_over n bs (net ++ more) ≡ left_over n bs net ++ more
left_over-append n bs net more = elim (Bool-cases (leb (length bs) n)) [
  | inl e ↦ rw e refl
  | inr e ↦ rw e refl
]

read_some-append :
    (n : ℕ) (a : Arrival) (net more : List Arrival)
    → read_some n (a ∷ net ++ more) ≡ onward more (read_some n (a ∷ net))
unfolding read_some
read_some-append n (comes []) net more = refl
read_some-append n (comes (b ∷ bs)) net more =
    ap (λ x. (got (take n (b ∷ bs)), x)) (left_over-append n (b ∷ bs) net more)
read_some-append n (interrupted d) net more = refl
read_some-append n breaks net more = refl

read_some_end : (n : ℕ) → read_some n [] ≡ (ended, [])
unfolding read_some
read_some_end n = refl

headers_spent :
    (raw : Bytes) (net : List Arrival) → headers_loop zero raw net ≡ (has_blank_line raw, raw, net)
unfolding headers_loop
headers_spent raw net = refl

headers_done :
    (g : ℕ) (raw : Bytes) (net : List Arrival)
    → has_blank_line raw ≡ true
    → headers_loop g raw net ≡ (true, raw, net)
headers_done zero raw net e = headers_spent raw net ∙ ap (λ b. (b, raw, net)) e
headers_done (suc g) raw net e = headers_loop_found g raw net e

module _ (more : List Arrival) (raw' : Bytes) (net' : List Arrival) where
  headers_round_frame :
      (next next' : Bytes → List Arrival → Bool × Bytes × List Arrival) (raw : Bytes)
      (r : Outcome × List Arrival)
      → ((x : Bytes) (net : List Arrival)
          → next x net ≡ (true, raw', net')
          → next' x (net ++ more) ≡ (true, raw', net' ++ more))
      → headers_round next raw r ≡ (true, raw', net')
      → headers_round next' raw (onward more r) ≡ (true, raw', net' ++ more)
  headers_round_frame next next' raw (got bs, net) rest e = rest (raw ++ bs) net e
  headers_round_frame next next' raw (again true, net) rest e = cc
  headers_round_frame next next' raw (again false, net) rest e = rest raw net e
  headers_round_frame next next' raw (failed, net) rest e = cc
  headers_round_frame next next' raw (ended, net) rest e = cc

  headers_found_frame :
      (g : ℕ) (raw : Bytes) (net : List Arrival)
      → has_blank_line raw ≡ true
      → ◌≡◌ {A = Bool × Bytes × List Arrival} (true, raw, net) (true, raw', net')
      → headers_loop g raw (net ++ more) ≡ (true, raw', net' ++ more)
  headers_found_frame g raw net found e =
      headers_done g raw (net ++ more) found ∙ ap (λ r. (true, r.1, r.2 ++ more)) e

  -- What `ReadHeaders` has found it finds as well with more behind it, and leaves that alone.
  pub headers_loop_frame :
      (f g : ℕ) (raw : Bytes) (net : List Arrival)
      → f ≤ g
      → headers_loop f raw net ≡ (true, raw', net')
      → headers_loop g raw (net ++ more) ≡ (true, raw', net' ++ more)
  headers_loop_frame zero g raw net h e =
      let found : has_blank_line raw ≡ true = ap (λ r. r.0) (sym (headers_spent raw net) ∙ e) in
      headers_found_frame g raw net found (sym (headers_done zero raw net found) ∙ e)
  headers_loop_frame (suc f) zero raw net h e = absurd (omega (arith, h))
  headers_loop_frame (suc f) (suc g) raw net h e = elim (Bool-cases (has_blank_line raw)) [
    | inl found ↦
        headers_found_frame (suc g) raw net found (sym (headers_loop_found f raw net found) ∙ e)
    | inr none_yet ↦
        reads net none_yet (λ x m. headers_loop_frame f g x m (omega (arith, h)))
          (sym (headers_loop_reads f raw net none_yet) ∙ e)
  ]
    where
      reads :
          (m : List Arrival)
          → has_blank_line raw ≡ false
          → ((x : Bytes) (n : List Arrival)
              → headers_loop f x n ≡ (true, raw', net')
              → headers_loop g x (n ++ more) ≡ (true, raw', net' ++ more))
          → headers_round (headers_loop f) raw (read_some k_read_size m) ≡ (true, raw', net')
          → headers_loop (suc g) raw (m ++ more) ≡ (true, raw', net' ++ more)
      reads [] none_yet rest q = cc (q, read_some_end k_read_size)
      reads (a ∷ m) none_yet rest q =
          headers_loop_reads g raw (a ∷ m ++ more) none_yet
          ∙ ap (headers_round (headers_loop g) raw) (read_some-append k_read_size a m more)
          ∙ headers_round_frame (headers_loop f) (headers_loop g) raw
              (read_some k_read_size (a ∷ m)) rest q

body_spent : (g : ℕ) (raw : Bytes) (net : List Arrival) → body_loop g zero raw net ≡ (raw, net)
unfolding body_loop
body_spent zero raw net = refl
body_spent (suc g) raw net = refl

body_stops :
    (missing : ℕ) (raw : Bytes) (net : List Arrival)
    → body_loop zero (suc missing) raw net ≡ (raw, net)
unfolding body_loop
body_stops missing raw net = refl

body_reads :
    (g missing : ℕ) (raw : Bytes) (net : List Arrival)
    → body_loop (suc g) (suc missing) raw net
      ≡ body_round (body_loop g) (suc missing) raw (read_some (min (suc missing) k_read_size) net)
unfolding body_loop
body_reads g missing raw net = refl

-- A call gives no more than it was asked for.
abbrev Within : ℕ → Outcome × List Arrival → Type 0
Within n (got bs, net) = length bs ≤ n
Within n (again d, net) = Unit
Within n (failed, net) = Unit
Within n (ended, net) = Unit

read_some-Within : (n m : ℕ) (net : List Arrival) → n ≤ m → Within m (read_some n net)
unfolding read_some
read_some-Within n m [] h = tt
read_some-Within n m (comes [] ∷ net) h = tt
read_some-Within n m (comes (b ∷ bs) ∷ net) h = omega (arith, h, length-take-le n (b ∷ bs))
read_some-Within n m (interrupted d ∷ net) h = tt
read_some-Within n m (breaks ∷ net) h = tt

module _ (more : List Arrival) (raw' : Bytes) (net' : List Arrival) where
  body_round_frame :
      (next next' : ℕ → Bytes → List Arrival → Bytes × List Arrival) (missing : ℕ) (raw : Bytes)
      (r : Outcome × List Arrival)
      → Within (suc missing) r
      → length raw + suc missing ≤ length raw'
      → ((m : ℕ) (x : Bytes) (net : List Arrival)
          → length x + m ≤ length raw'
          → next m x net ≡ (raw', net')
          → next' m x (net ++ more) ≡ (raw', net' ++ more))
      → body_round next (suc missing) raw r ≡ (raw', net')
      → body_round next' (suc missing) raw (onward more r) ≡ (raw', net' ++ more)
  body_round_frame next next' missing raw (got bs, net) w h rest e =
      rest (suc missing - length bs) (raw ++ bs) net (omega (arith, w, h, length-append raw bs)) e
  body_round_frame next next' missing raw (again true, net) w h rest e =
      absurd (omega (arith, h, ap (λ r. length (r.0)) e))
  body_round_frame next next' missing raw (again false, net) w h rest e =
      rest (suc missing) raw net h e
  body_round_frame next next' missing raw (failed, net) w h rest e =
      absurd (omega (arith, h, ap (λ r. length (r.0)) e))
  body_round_frame next next' missing raw (ended, net) w h rest e =
      absurd (omega (arith, h, ap (λ r. length (r.0)) e))

  -- What `ReadBody` has read in full it reads as well with more behind it, and leaves that alone.
  pub body_loop_frame :
      (f g missing : ℕ) (raw : Bytes) (net : List Arrival)
      → f ≤ g
      → length raw + missing ≤ length raw'
      → body_loop f missing raw net ≡ (raw', net')
      → body_loop g missing raw (net ++ more) ≡ (raw', net' ++ more)
  body_loop_frame f g zero raw net h w e =
      body_spent g raw (net ++ more) ∙ ap (λ r. (r.0, r.1 ++ more)) (sym (body_spent f raw net) ∙ e)
  body_loop_frame zero g (suc missing) raw net h w e =
      absurd (omega (arith, w, ap (λ r. length (r.0)) (sym (body_stops missing raw net) ∙ e)))
  body_loop_frame (suc f) zero (suc missing) raw net h w e = absurd (omega (arith, h))
  body_loop_frame (suc f) (suc g) (suc missing) raw [] h w e = absurd (
      omega (
        arith,
        w,
        ap (λ r. length (r.0))
            (sym (
                ap (body_round (body_loop f) (suc missing) raw)
                  (read_some_end (min (suc missing) k_read_size)))
              ∙ sym (body_reads f missing raw [])
              ∙ e),
      ))
  body_loop_frame (suc f) (suc g) (suc missing) raw (a ∷ net) h w e =
      body_reads g missing raw (a ∷ net ++ more)
      ∙ ap (body_round (body_loop g) (suc missing) raw)
          (read_some-append (min (suc missing) k_read_size) a net more)
      ∙ body_round_frame (body_loop f) (body_loop g) missing raw
          (read_some (min (suc missing) k_read_size) (a ∷ net))
          (read_some-Within (min (suc missing) k_read_size) (suc missing) (a ∷ net) (omega arith)) w
          (λ m x n. body_loop_frame f g m x n (omega (arith, h)))
          (sym (body_reads f missing raw (a ∷ net)) ∙ e)
