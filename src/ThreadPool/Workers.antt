-- ===== src/ThreadPool/Workers.antt =====
-- Sums over the workers, and how a change of one worker changes them.
use semantic_search_engine.Base.{
  ℕ, zero, suc, ◌+◌, ◌≤◌, ◌≡◌, refl, List, [], ◌∷◌, some, arith, ◌==◌, if◌then◌else◌, length,
}
use semantic_search_engine.ThreadPool.{
  Worker, looking, asleep, exited, running, get_elem?, set, replicate, total, asleep_one,
  notify_all,
}

abbrev pub exited_one : Worker → ℕ
exited_one exited = 1
exited_one _ = 0

-- a worker that looks or runs
abbrev pub awake_one : Worker → ℕ
awake_one looking = 1
awake_one (running t) = 1
awake_one _ = 0

abbrev pub running_one : ℕ → Worker → ℕ
running_one t (running u) = if t == u then 1 else 0
running_one t _ = 0

module _ (g : Worker → ℕ) where
  pub total-set :
      (ws : List Worker) (i : ℕ) (v w : Worker)
      → get_elem? ws i ≡ some w
      → total g (set ws i v) + g w ≡ total g ws + g v
  total-set [] i v w h = cc
  total-set (x ∷ ws) zero v w h = ground arith
  total-set (x ∷ ws) (suc i) v w h = omega (arith, total-set ws i v w h)

  pub total-get :
      (ws : List Worker) (i : ℕ) (w : Worker) → get_elem? ws i ≡ some w → g w ≤ total g ws
  total-get [] i w h = cc
  total-get (x ∷ ws) zero w h = ground arith
  total-get (x ∷ ws) (suc i) w h = omega (arith, total-get ws i w h)

pub length-set : (ws : List Worker) (i : ℕ) (v : Worker) → length (set ws i v) ≡ length ws
length-set [] i v = refl
length-set (w ∷ ws) zero v = refl
length-set (w ∷ ws) (suc i) v = omega (arith, length-set ws i v)

-- Every worker is in one of the three kinds.
pub total_kinds :
    (ws : List Worker) → total asleep_one ws + total exited_one ws + total awake_one ws ≡ length ws
total_kinds [] = omega arith
total_kinds (looking ∷ ws) = omega (arith, total_kinds ws)
total_kinds (asleep ∷ ws) = omega (arith, total_kinds ws)
total_kinds (exited ∷ ws) = omega (arith, total_kinds ws)
total_kinds (running t ∷ ws) = omega (arith, total_kinds ws)

pub total-running-le : (t : ℕ) (ws : List Worker) → total (running_one t) ws ≤ total awake_one ws
total-running-le t [] = omega arith
total-running-le t (looking ∷ ws) = omega (arith, total-running-le t ws)
total-running-le t (asleep ∷ ws) = omega (arith, total-running-le t ws)
total-running-le t (exited ∷ ws) = omega (arith, total-running-le t ws)
total-running-le t (running u ∷ ws) = ground (arith, total-running-le t ws)

-- What `notify_all` does to the sums.
pub record Woken (ws : List Worker) (vs : List Worker) : Type 0 where
  pub none_asleep : total asleep_one vs ≡ 0
  pub same_exited : total exited_one vs ≡ total exited_one ws
  pub more_awake : total awake_one ws ≤ total awake_one vs
  pub same_running : (t : ℕ) → total (running_one t) vs ≡ total (running_one t) ws
  pub same_length : length vs ≡ length ws

pub notify_all-Woken : (ws : List Worker) → Woken ws (notify_all ws)
unfolding notify_all
notify_all-Woken [] = record {
  none_asleep = refl;
  same_exited = refl;
  more_awake = omega arith;
  same_running = λ t. refl;
  same_length = refl;
}
notify_all-Woken (w ∷ ws) =
    let h = notify_all-Woken ws in
    record {
      none_asleep = ground (arith, h.none_asleep);
      same_exited = ground (arith, h.same_exited);
      more_awake = ground (arith, h.more_awake);
      same_running = λ t. ground (arith, h.same_running t);
      same_length = omega (arith, h.same_length);
    }

pub total-replicate_looking :
    (n : ℕ)
    → (total asleep_one (replicate n looking) ≡ 0)
      × (total exited_one (replicate n looking) ≡ 0)
      × ((t : ℕ) → total (running_one t) (replicate n looking) ≡ 0)
      × (length (replicate n looking) ≡ n)
total-replicate_looking zero = (refl, refl, (λ t. refl), refl)
total-replicate_looking (suc n) =
    let (a, e, r, l) = total-replicate_looking n in
    (omega arith, omega arith, (λ t. omega (arith, r t)), omega arith)
