-- ===== src/ThreadPool/Drain.antt =====
-- The destructor: what it leaves, and its joins.
use semantic_search_engine.Base.{
  ℕ, suc, ◌+◌, ◌<◌, ◌≤◌, ◌*◌, ◌≡◌, ◌⊎◌, inl, inr, refl, ap, sym, subst, ◌∙◌, true, List, [], ◌∷◌,
  ◌++◌, Option, none, some, arith, zero, length, some_injective, Option-cases, Bool, if◌then◌else◌,
  append-nil,
}
use semantic_search_engine.ThreadPool.{
  Worker, looking, asleep, exited, running, Pool, Event, works, destroys, destroy, asleep_one,
  get_elem?, set, total, init, work_at, step, run, look,
}
use semantic_search_engine.ThreadPool.Invariant.{Inv, count}
use semantic_search_engine.ThreadPool.Moves.{run-Inv, run-init-Inv}
use semantic_search_engine.ThreadPool.Workers.{exited_one, total_kinds, total-set, total-running-le}

-- All workers have returned, so that the joins of the destructor are over.
abbrev pub IsJoined : Pool → Type 0
IsJoined s = total exited_one s.workers ≡ length s.workers

joined-drained :
    (s : Pool)
    → Inv s
    → 0 < length s.workers
    → IsJoined s
    → (s.work_queue ≡ [])
      × (s.started ≡ s.dispatched)
      × ((t : ℕ) → count t s.finished ≡ count t s.dispatched)
joined-drained s v pos j = (empty, all_started, all_finished)
  where
    empty : s.work_queue ≡ []
    empty = (v.exits_drained (omega arith)).1

    all_started : s.started ≡ s.dispatched
    all_started = sym (append-nil s.started) ∙ ap (λ q. s.started ++ q) (sym empty) ∙ v.fifo

    all_finished : (t : ℕ) → count t s.finished ≡ count t s.dispatched
    all_finished t = omega (
      arith,
      v.accounted t,
      total_kinds s.workers,
      total-running-le t s.workers,
      ap (count t) all_started,
    )

-- Once the destructor of a pool with a worker has joined all of them, the queue is empty, every
-- dispatched task has been started, in order, and has been finished exactly as often as it was
-- dispatched.
pub run-drained :
    (n : ℕ) (es : List Event) (s : Pool)
    → run es (init n) ≡ some s
    → 0 < length s.workers
    → IsJoined s
    → (s.work_queue ≡ [])
      × (s.started ≡ s.dispatched)
      × ((t : ℕ) → count t s.finished ≡ count t s.dispatched)
run-drained n es s h pos j = joined-drained s (run-init-Inv n es s h) pos j

-- The work that is left: two steps for each task in the queue and for each that runs, and one for
-- each worker that has not returned.
abbrev weight : Worker → ℕ
weight exited = 0
weight asleep = 2
weight looking = 1
weight (running t) = 2

abbrev pub work_left : Pool → ℕ
work_left s = 2 * length s.work_queue + total weight s.workers

look-lt :
    (s : Pool) (i : ℕ) (q : List ℕ)
    → s.kill_threads ≡ true
    → s.work_queue ≡ q
    → get_elem? s.workers i ≡ some looking
    → (work_left (look i q s) < work_left s) × ((look i q s).kill_threads ≡ true)
unfolding look
look-lt s i [] k e h = (
  ground (
    arith,
    e,
    total-set weight s.workers i (if s.kill_threads then exited else asleep) looking h,
  ),
  k,
)
look-lt s i (t ∷ rest) k e h =
    (omega (arith, ap length e, total-set weight s.workers i (running t) looking h), k)

-- what a step of a worker in a pool that is being destroyed gives
abbrev Shrinks : Pool → Pool → Type 0
Shrinks s s' = (work_left s' < work_left s) × (s'.kill_threads ≡ true)

work_at-Shrinks :
    (o : Option Worker) (i : ℕ) (s s' : Pool)
    → s.kill_threads ≡ true
    → get_elem? s.workers i ≡ o
    → work_at o i s ≡ some s'
    → Shrinks s s'
unfolding work_at
work_at-Shrinks none i s s' k e h = cc
work_at-Shrinks (some exited) i s s' k e h = cc
work_at-Shrinks (some asleep) i s s' k e h =
    subst (Shrinks s) (some_injective h)
      (omega (arith, total-set weight s.workers i looking asleep e), k)
work_at-Shrinks (some (running t)) i s s' k e h =
    subst (Shrinks s) (some_injective h)
      (omega (arith, total-set weight s.workers i looking (running t) e), k)
work_at-Shrinks (some looking) i s s' k e h =
    subst (Shrinks s) (some_injective h) (look-lt s i s.work_queue k refl e)

-- While the pool is being destroyed, each step of a worker leaves less work, so that under every
-- schedule only finitely many are left.
step-lt :
    (i : ℕ) (s s' : Pool)
    → s.kill_threads ≡ true
    → step (works i) s ≡ some s'
    → (work_left s' < work_left s) × (s'.kill_threads ≡ true)
unfolding step
step-lt i s s' k h = work_at-Shrinks (get_elem? s.workers i) i s s' k refl h

-- either all workers have returned, or one of them has not
abbrev Active : List Worker → Type 0
Active ws = (i : ℕ) × (w : Worker) × (get_elem? ws i ≡ some w) × (exited_one w ≡ 0)

Active-cons : (w : Worker) (ws : List Worker) → Active ws → Active (w ∷ ws)
Active-cons w ws (i, v, e, z) = (suc i, v, e, z)

Active-or_joined : (ws : List Worker) → (total exited_one ws ≡ length ws) ⊎ Active ws
Active-or_joined [] = inl refl
Active-or_joined (looking ∷ ws) = inr (zero, looking, refl, refl)
Active-or_joined (asleep ∷ ws) = inr (zero, asleep, refl, refl)
Active-or_joined (running t ∷ ws) = inr (zero, running t, refl, refl)
Active-or_joined (exited ∷ ws) = elim (Active-or_joined ws) [
  | inl e ↦ inl (omega arith)
  | inr a ↦ inr (Active-cons exited ws a)
]

active_moves :
    (s : Pool) (i : ℕ) (w : Worker)
    → get_elem? s.workers i ≡ some w
    → exited_one w ≡ 0
    → (s' : Pool) × (step (works i) s ≡ some s')
unfolding step
active_moves s i looking e z = (look i s.work_queue s, rw e)
active_moves s i asleep e z = (record s { workers = set s.workers i looking }, rw e)
active_moves s i (running t) e z =
    (record s { workers = set s.workers i looking; finished = s.finished ++ t ∷ [] }, rw e)
active_moves s i exited e z = absurd (omega arith)

-- In every state of the pool some worker can step, unless all have returned.
pub progress : (s : Pool) → IsJoined s ⊎ ((i : ℕ) × (s' : Pool) × (step (works i) s ≡ some s'))
progress s = elim (Active-or_joined s.workers) [
  | inl j ↦ inl j
  | inr (i, w, e, z) ↦ let (s', h) = active_moves s i w e z in inr (i, s', h)
]

-- A schedule of steps of the workers alone.
abbrev pub working : List ℕ → List Event
working [] = []
working (i ∷ is) = works i ∷ working is

Joins : Pool → Type 0
Joins s = (is : List ℕ) × (s' : Pool) × (run (working is) s ≡ some s') × IsJoined s'

step-Joins : (i : ℕ) (s s' : Pool) → step (works i) s ≡ some s' → Joins s' → Joins s
unfolding run Joins
step-Joins i s s' h (is, s2, r, j) = (i ∷ is, s2, rw (h, run) r, j)

Joins-within : (fuel : ℕ) (s : Pool) → s.kill_threads ≡ true → work_left s < fuel → Joins s
unfolding Joins run
Joins-within zero s k h = absurd (omega arith)
Joins-within (suc fuel) s k h = elim (progress s) [
  | inl j ↦ ([], s, refl, j)
  | inr (i, s', e) ↦
      let (less, k') = step-lt i s s' k e in
      step-Joins i s s' e (Joins-within fuel s' k' (omega arith))
]

pub killed-Joins :
    (s : Pool)
    → s.kill_threads ≡ true
    → (is : List ℕ) × (s' : Pool) × (run (working is) s ≡ some s') × IsJoined s'
unfolding Joins
killed-Joins s k = Joins-within (suc (work_left s)) s k (omega arith)

run_working-le :
    (is : List ℕ) (s s' : Pool)
    → s.kill_threads ≡ true
    → run (working is) s ≡ some s'
    → (length is + work_left s' ≤ work_left s) × (s'.kill_threads ≡ true)
unfolding run
run_working-le [] s s' k h = (omega (arith, ap work_left (some_injective h)), kept)
  where
    kept : s'.kill_threads ≡ true
    kept = ap (λ p. p.kill_threads) (sym (some_injective h)) ∙ k
run_working-le (i ∷ is) s s' k h = elim (Option-cases (step (works i) s)) [
  | inl p ↦ cc (rw (p, run) at h)
  | inr (s1, p) ↦
      let (less, k1) = step-lt i s s1 k p in
      let (le, k') = run_working-le is s1 s' k1 (rw (p, run) at h) in (omega (arith, less, le), k')
]

pub destroy-kills : (s s' : Pool) → destroy s ≡ some s' → s'.kill_threads ≡ true
unfolding destroy
destroy-kills s s' e = sym (ap kills e)
  where
    kills : Option Pool → Bool
    kills none = true
    kills (some p) = p.kill_threads

destroy-Inv : (s s' : Pool) → Inv s → destroy s ≡ some s' → Inv s'
unfolding run step
destroy-Inv s s' v e = run-Inv (destroys ∷ []) s s' v (rw e refl)

-- The destructor of a pool does not hang, whatever the pool has done before and in whatever order
-- its workers go on: none of them sleeps any more, so that the join needs no further wake-up; each
-- of their steps leaves less work, so that only as many are possible as there was work at the
-- start; and from every point they reach they can go on until all of them have returned.
pub destroy-Joins :
    (n : ℕ) (es : List Event) (s s1 s2 : Pool) (is : List ℕ)
    → run es (init n) ≡ some s
    → destroy s ≡ some s1
    → run (working is) s1 ≡ some s2
    → (total asleep_one s2.workers ≡ 0)
      × (length is + work_left s2 ≤ work_left s1)
      × ((js : List ℕ) × (s3 : Pool) × (run (working js) s2 ≡ some s3) × IsJoined s3)
destroy-Joins n es s s1 s2 is h d r =
    let (le, k) = run_working-le is s1 s2 (destroy-kills s s1 d) r in
    let v1 : Inv s1 = destroy-Inv s s1 (run-init-Inv n es s h) d in
    ((run-Inv (working is) s1 s2 v1 r).killed_awake k, le, killed-Joins s2 k)
