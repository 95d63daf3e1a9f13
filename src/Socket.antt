-- ===== src/Socket.antt =====
-- Reading from a socket, which the program does not implement: the successive outcomes of the
-- calls of read(2) and recv(2). The peer has closed where no outcome is left.
use semantic_search_engine.Base.{
  ℕ, suc, ◌+◌, ◌≡◌, ◌≢◌, ◌≤◌, ◌<◌, refl, ap, sym, ◌∙◌, Bool, false, List, [], ◌∷◌, ◌++◌,
  append_assoc, Bytes, arith, leb, if◌then◌else◌, take, drop, length, zero, inl, inr, Bool-cases,
  take-append-drop, length-drop, length-append,
}

pub data Arrival : Type 0 where
  -- bytes that the peer has sent, in one piece; no bytes stand for the end of the stream
  comes : Bytes → Arrival
  -- EAGAIN or EINTR, with the value of `g_done` then
  interrupted : Bool → Arrival
  -- any other error
  breaks : Arrival

pub data Outcome : Type 0 where
  got : Bytes → Outcome
  again : Bool → Outcome
  failed ended : Outcome

-- What a call that asks for `size` bytes leaves of a piece.
abbrev pub left_over : ℕ → Bytes → List Arrival → List Arrival
left_over size bs net = if leb (length bs) size then net else comes (drop size bs) ∷ net

-- One call that asks for `size` bytes.
unfoldable pub read_some : ℕ → List Arrival → Outcome × List Arrival
read_some size [] = (ended, [])
read_some size (comes [] ∷ net) = (ended, net)
read_some size (comes (b ∷ bs) ∷ net) = (got (take size (b ∷ bs)), left_over size (b ∷ bs) net)
read_some size (interrupted is_done ∷ net) = (again is_done, net)
read_some size (breaks ∷ net) = (failed, net)

-- More than the number of calls that can give anything.
abbrev pub weight : List Arrival → ℕ
weight [] = 0
weight (comes bs ∷ net) = suc (length bs + weight net)
weight (interrupted is_done ∷ net) = suc (weight net)
weight (breaks ∷ net) = suc (weight net)

-- All the bytes that will come.
abbrev pub stream : List Arrival → Bytes
stream [] = []
stream (comes bs ∷ net) = bs ++ stream net
stream (interrupted is_done ∷ net) = stream net
stream (breaks ∷ net) = stream net

-- The connection works until the peer closes it: bytes come in nonempty pieces, with interruptions
-- only while the server is not shutting down.
abbrev pub IsLive : List Arrival → Type 0
IsLive [] = Unit
IsLive (comes bs ∷ net) = (bs ≢ []) × IsLive net
IsLive (interrupted is_done ∷ net) = (is_done ≡ false) × IsLive net
IsLive (breaks ∷ net) = ⊥

-- What one call does to a live connection.
abbrev pub Gives : List Arrival → Outcome × List Arrival → Type 0
Gives net (got bs, net') =
    (bs ≢ []) × (bs ++ stream net' ≡ stream net) × (weight net' < weight net) × IsLive net'
Gives net (again is_done, net') =
    (is_done ≡ false) × (stream net' ≡ stream net) × (weight net' < weight net) × IsLive net'
Gives net (failed, net') = ⊥
Gives net (ended, net') = (stream net ≡ []) × (net' ≡ [])

take_long : (n : ℕ) (s : Bytes) → length s ≤ n → take n s ≡ s
take_long zero [] h = refl
take_long zero (c ∷ s) h = absurd (omega (arith, h))
take_long (suc n) [] h = refl
take_long (suc n) (c ∷ s) h = ap (◌∷◌ c) (take_long n s (omega (arith, h)))

left_over-Gives :
    (n : ℕ) (b : ℕ) (bs : Bytes) (net : List Arrival)
    → IsLive net
    → Gives (comes (b ∷ bs) ∷ net) (got (take (suc n) (b ∷ bs)), left_over (suc n) (b ∷ bs) net)
left_over-Gives n b bs net live = elim (Bool-cases (leb (length (b ∷ bs)) (suc n))) [
  | inl e ↦ rw e (
    (λ x. cc),
    ap (λ x. b ∷ (x ++ stream net)) (take_long n bs (ground arith)),
    omega arith,
    live,
  )
  | inr e ↦ rw e (
    (λ x. cc),
    ap (◌∷◌ b) (
        sym (append_assoc (take n bs) (drop n bs) (stream net))
        ∙ ap (λ x. x ++ stream net) (take-append-drop n bs)),
    less,
    (drop-ne-nil e, live),
  )
]
  where
    less : suc (length (drop n bs) + weight net) < suc (suc (length bs) + weight net)
    less = omega (arith, length-drop n bs)

    drop-ne-nil : leb (length (b ∷ bs)) (suc n) ≡ false → drop n bs ≢ []
    drop-ne-nil e x = ground (arith, ap length x, length-drop n bs)

pub read_some-Gives : (n : ℕ) (net : List Arrival) → IsLive net → Gives net (read_some (suc n) net)
unfolding read_some
read_some-Gives n [] live = (refl, refl)
read_some-Gives n (comes [] ∷ net) (ne, live) = absurd (ne refl)
read_some-Gives n (comes (b ∷ bs) ∷ net) (ne, live) = left_over-Gives n b bs net live
read_some-Gives n (interrupted is_done ∷ net) (e, live) = (e, refl, omega arith, live)
read_some-Gives n (breaks ∷ net) live = absurd live

pub IsLive-append : (net more : List Arrival) → IsLive net → IsLive more → IsLive (net ++ more)
IsLive-append [] more h k = k
IsLive-append (comes bs ∷ net) more (ne, h) k = (ne, IsLive-append net more h k)
IsLive-append (interrupted is_done ∷ net) more (e, h) k = (e, IsLive-append net more h k)
IsLive-append (breaks ∷ net) more h k = absurd h

pub stream-append : (net more : List Arrival) → stream (net ++ more) ≡ stream net ++ stream more
stream-append [] more = refl
stream-append (comes bs ∷ net) more =
    ap (λ x. bs ++ x) (stream-append net more) ∙ sym (append_assoc bs (stream net) (stream more))
stream-append (interrupted is_done ∷ net) more = stream-append net more
stream-append (breaks ∷ net) more = stream-append net more

pub stream-le-weight : (net : List Arrival) → length (stream net) ≤ weight net
stream-le-weight [] = omega arith
stream-le-weight (comes bs ∷ net) =
    omega (arith, length-append bs (stream net), stream-le-weight net)
stream-le-weight (interrupted is_done ∷ net) = omega (arith, stream-le-weight net)
stream-le-weight (breaks ∷ net) = omega (arith, stream-le-weight net)
