-- ===== src/ThreadPool/Moves.antt =====
-- The steps of the workers keep the invariant, and so does every schedule.
use semantic_search_engine.Base.{
  ℕ, ◌≡◌, ◌⊎◌, inl, inr, refl, ap, sym, subst, ◌∙◌, Bool, true, false, List, [], ◌∷◌, ◌++◌, Option,
  none, some, arith, if◌then◌else◌, append_assoc, append-nil, Option-cases, some_injective,
}
use semantic_search_engine.ThreadPool.{
  Worker, looking, asleep, exited, running, Pool, Event, dispatches, destroys, works, get_elem?,
  set, asleep_one, init, work_at, step, run, look,
}
use semantic_search_engine.ThreadPool.Invariant.{
  Inv, count-append, init-Inv, dispatch-Inv, destroy-Inv,
}
use semantic_search_engine.ThreadPool.Workers.{
  exited_one, awake_one, running_one, total-set, total-get,
}

-- With an empty queue a worker goes to sleep or returns, by `m_killthreads`.
idle-Inv :
    (s : Pool) (i : ℕ) (w : Worker)
    → Inv s
    → get_elem? s.workers i ≡ some looking
    → s.work_queue ≡ []
    → ((w ≡ exited) × (s.kill_threads ≡ true)) ⊎ ((w ≡ asleep) × (s.kill_threads ≡ false))
    → Inv (record s { workers = set s.workers i w })
idle-Inv s i w v e q choice = record {
  fifo = v.fifo;
  accounted = λ t. ground (arith, v.accounted t, total-set (running_one t) s.workers i w looking e);
  exits_drained =
      λ h. ground (arith, v.exits_drained, total-set exited_one s.workers i w looking e);
  killed_awake =
      λ k. ground (arith, v.killed_awake k, total-set asleep_one s.workers i w looking e);
  served = λ pos ne. absurd (ne q);
}

take-Inv :
    (s : Pool) (i t : ℕ) (rest : List ℕ)
    → Inv s
    → get_elem? s.workers i ≡ some looking
    → s.work_queue ≡ t ∷ rest
    → Inv (record s {
      work_queue = rest;
      workers = set s.workers i (running t);
      started = s.started ++ t ∷ [];
    })
take-Inv s i t rest v e q = record {
  fifo = append_assoc s.started (t ∷ []) rest ∙ ap (λ l. s.started ++ l) (sym q) ∙ v.fifo;
  accounted = λ u. ground (
    arith,
    v.accounted u,
    count-append u s.started (t ∷ []),
    total-set (running_one u) s.workers i (running t) looking e,
  );
  exits_drained =
      λ h. ground (arith, v.exits_drained, total-set exited_one s.workers i (running t) looking e);
  killed_awake =
      λ k. omega (arith, v.killed_awake k, total-set asleep_one s.workers i (running t) looking e);
  served = λ pos ne. omega (
    arith,
    total-set awake_one s.workers i (running t) looking e,
    total-get awake_one s.workers i looking e,
  );
}

-- A worker wakes up, or has run its task: it looks at the queue again.
back-Inv :
    (s : Pool) (i : ℕ) (w : Worker) (done : List ℕ)
    → Inv s
    → get_elem? s.workers i ≡ some w
    → ((w ≡ asleep) × (done ≡ [])) ⊎ ((t : ℕ) × (w ≡ running t) × (done ≡ t ∷ []))
    → Inv (record s { workers = set s.workers i looking; finished = s.finished ++ done })
back-Inv s i w done v e why = record {
  fifo = v.fifo;
  accounted = λ u. ground (
    arith,
    v.accounted u,
    count-append u s.finished done,
    total-set (running_one u) s.workers i looking w e,
  );
  exits_drained =
      λ h. ground (arith, v.exits_drained, total-set exited_one s.workers i looking w e);
  killed_awake =
      λ k. ground (arith, v.killed_awake k, total-set asleep_one s.workers i looking w e);
  served = λ pos ne.
      ground
        (arith, total-set awake_one s.workers i looking w e, total-get awake_one s.workers i w e);
}

work_at-Inv :
    (o : Option Worker) (i : ℕ) (s s' : Pool)
    → Inv s
    → get_elem? s.workers i ≡ o
    → work_at o i s ≡ some s'
    → Inv s'
unfolding work_at
work_at-Inv none i s s' v e h = cc
work_at-Inv (some exited) i s s' v e h = cc
work_at-Inv (some asleep) i s s' v e h =
    subst Inv
      (ap (λ l. record s { workers = set s.workers i looking; finished = l })
          (append-nil s.finished)
        ∙ some_injective h)
      (back-Inv s i asleep [] v e (inl (refl, refl)))
work_at-Inv (some (running t)) i s s' v e h =
    subst Inv (some_injective h) (back-Inv s i (running t) (t ∷ []) v e (inr (t, refl, refl)))
work_at-Inv (some looking) i s s' v e h = subst Inv (some_injective h) (looked s.work_queue refl)
  where
    looked : (q : List ℕ) → s.work_queue ≡ q → Inv (look i q s)
    looked [] q = idle-Inv s i _ v e q (idle s.kill_threads refl)
      where
        idle :
            (b : Bool)
            → s.kill_threads ≡ b
            → (((if b then exited else asleep) ≡ exited) × (s.kill_threads ≡ true))
              ⊎ (((if b then exited else asleep) ≡ asleep) × (s.kill_threads ≡ false))
        idle true k = inl (refl, k)
        idle false k = inr (refl, k)
    looked (t ∷ rest) q = take-Inv s i t rest v e q

step-Inv : (e : Event) (s s' : Pool) → Inv s → step e s ≡ some s' → Inv s'
unfolding step
step-Inv (dispatches t j) s s' v h = dispatch-Inv t j s s' v h
step-Inv destroys s s' v h = destroy-Inv s s' v h
step-Inv (works i) s s' v h = work_at-Inv (get_elem? s.workers i) i s s' v refl h

pub run-Inv : (es : List Event) (s s' : Pool) → Inv s → run es s ≡ some s' → Inv s'
unfolding run
run-Inv [] s s' v h = subst Inv (some_injective h) v
run-Inv (e ∷ es) s s' v h = elim (Option-cases (step e s)) [
  | inl p ↦ cc (rw (p, run) at h)
  | inr (s1, p) ↦ run-Inv es s1 s' (step-Inv e s s1 v p) (rw (p, run) at h)
]

-- After every schedule: tasks start in the order of dispatch and none is lost or run twice, a
-- worker returns only when the pool is being destroyed and the queue is empty, nobody sleeps
-- through the destructor, and while there is work somebody is awake to take it.
pub run-init-Inv : (n : ℕ) (es : List Event) (s : Pool) → run es (init n) ≡ some s → Inv s
run-init-Inv n es s h = run-Inv es (init n) s (init-Inv n) h
