-- ===== src/HttpServer/Claims.antt =====
-- Which runs of `SigintHandler` are going to close the listening socket, and what that means for
-- where `Run` stands.
use semantic_search_engine.Base.{
  ℕ, zero, suc, ◌+◌, ◌≡◌, ◌≤◌, refl, ap, Bool, true, false, List, [], ◌∷◌, ◌++◌, Option, none, some,
  arith, if◌then◌else◌,
}
use semantic_search_engine.HttpServer.Listener.{
  Phase, publishing, testing, accepting, leaving, closing, returned, failing, dispatching, Handler,
  marks, reads, over, clears, closes,
}
use semantic_search_engine.ThreadPool.{get_elem?, set}

-- A run of the handler that is going to close a descriptor.
abbrev pub claim : Handler → ℕ
claim marks = 0
claim reads = 0
claim over = 0
claim (clears fd) = 1
claim (closes fd) = 1

abbrev pub claims : List Handler → ℕ
claims [] = 0
claims (h ∷ hs) = claim h + claims hs

pub claims-set :
    (hs : List Handler) (i : ℕ) (h h' : Handler)
    → get_elem? hs i ≡ some h
    → claims (set hs i h') + claim h ≡ claims hs + claim h'
claims-set [] i h h' e = cc
claims-set (x ∷ hs) zero h h' e = ground arith
claims-set (x ∷ hs) (suc i) h h' e = omega (arith, claims-set hs i h h' e)

pub claims-append : (hs : List Handler) → claims (hs ++ marks ∷ []) ≡ claims hs
claims-append [] = refl
claims-append (h ∷ hs) = ap (λ n. claim h + n) (claims-append hs)

-- While `Run` is on its way, `g_listen_fd` is set or somebody has closed the socket or will.
abbrev pub OnTheWay : Option ℕ → ℕ → Type 0
OnTheWay g n = g ≡ none → 1 ≤ n

-- What `n` closes, done or to come, mean for where `Run` stands.
abbrev pub Owned : Phase → Option ℕ → ℕ → Type 0
Owned publishing g n = g ≡ none
Owned returned g n = 1 ≤ n
Owned testing g n = OnTheWay g n
Owned accepting g n = OnTheWay g n
Owned leaving g n = OnTheWay g n
Owned closing g n = OnTheWay g n
Owned (failing retry) g n = OnTheWay g n
Owned (dispatching c) g n = OnTheWay g n

pub Owned-grows : (p : Phase) (g : Option ℕ) (n m : ℕ) → n ≤ m → Owned p g n → Owned p g m
Owned-grows publishing g n m h o = o
Owned-grows returned g n m h o = omega (arith, h, o)
Owned-grows testing g n m h o = λ e. omega (arith, h, o e)
Owned-grows accepting g n m h o = λ e. omega (arith, h, o e)
Owned-grows leaving g n m h o = λ e. omega (arith, h, o e)
Owned-grows closing g n m h o = λ e. omega (arith, h, o e)
Owned-grows (failing retry) g n m h o = λ e. omega (arith, h, o e)
Owned-grows (dispatching c) g n m h o = λ e. omega (arith, h, o e)

pub Owned-cleared : (p : Phase) (n : ℕ) → 1 ≤ n → Owned p none n
Owned-cleared publishing n h = refl
Owned-cleared returned n h = h
Owned-cleared testing n h = λ e. h
Owned-cleared accepting n h = λ e. h
Owned-cleared leaving n h = λ e. h
Owned-cleared closing n h = λ e. h
Owned-cleared (failing retry) n h = λ e. h
Owned-cleared (dispatching c) n h = λ e. h

pub Owned-if :
    (b : Bool) (p q : Phase) (g : Option ℕ) (n : ℕ)
    → Owned p g n
    → Owned q g n
    → Owned (if b then p else q) g n
Owned-if true p q g n h k = h
Owned-if false p q g n h k = k
