-- ===== src/ThreadPool/Invariant.antt =====
-- What holds of the pool after every schedule.
use semantic_search_engine.Base.{
  ℕ, ◌+◌, ◌<◌, ◌≡◌, ◌≢◌, ◌⊎◌, inl, inr, refl, ap, sym, subst, ◌∙◌, true, false, List, [], ◌∷◌, ◌++◌,
  Option, none, some, arith, ◌==◌, if◌then◌else◌, length, append_assoc, Bool-cases, Option-cases,
  ltb,
}
use semantic_search_engine.ThreadPool.{
  Worker, looking, asleep, exited, running, Pool, get_elem?, total, asleep_one, init, notify_one,
  notify_all, dispatch, destroy, wake_one_at,
}
use semantic_search_engine.ThreadPool.Workers.{
  exited_one, awake_one, running_one, total-set, length-set, total_kinds, Woken, notify_all-Woken,
  total-replicate_looking,
}

-- How often a task stands in a list.
abbrev pub count : ℕ → List ℕ → ℕ
count t [] = 0
count t (u ∷ us) = (if t == u then 1 else 0) + count t us

pub record Inv (s : Pool) : Type 0 where
  -- tasks start in the order in which they were dispatched, and none is lost
  pub fifo : s.started ++ s.work_queue ≡ s.dispatched
  -- what was started is running or finished, each task once
  pub accounted : (t : ℕ) → count t s.started ≡ count t s.finished + total (running_one t) s.workers
  -- a worker returns only from a pool that is being destroyed, with nothing left to do
  pub exits_drained : 0 < total exited_one s.workers → (s.kill_threads ≡ true) × (s.work_queue ≡ [])
  -- nobody sleeps through the destructor
  pub killed_awake : s.kill_threads ≡ true → total asleep_one s.workers ≡ 0
  -- no wake-up is lost: while there is work, somebody is awake
  pub served : 0 < length s.workers → s.work_queue ≢ [] → 0 < total awake_one s.workers

pub count-append : (t : ℕ) (us vs : List ℕ) → count t (us ++ vs) ≡ count t us + count t vs
count-append t [] vs = omega arith
count-append t (u ∷ us) vs = omega (arith, count-append t us vs)

pub init-Inv : (n : ℕ) → Inv (init n)
unfolding init
init-Inv n =
    let (a, e, r, l) = total-replicate_looking n in
    record {
      fifo = refl;
      accounted = λ t. omega (arith, r t);
      exits_drained = λ h. absurd (omega arith);
      killed_awake = λ h. cc;
      served = λ h ne. absurd (ne refl);
    }

-- What `notify_one` does to the sums: it wakes one worker, or nobody sleeps.
record Notified (ws vs : List Worker) : Type 0 where
  same_exited : total exited_one vs ≡ total exited_one ws
  same_running : (t : ℕ) → total (running_one t) vs ≡ total (running_one t) ws
  same_length : length vs ≡ length ws
  woken : (0 < total awake_one vs) ⊎ (total asleep_one vs ≡ 0)

same-Notified : (ws : List Worker) → total asleep_one ws ≡ 0 → Notified ws ws
same-Notified ws h = record {
  same_exited = refl;
  same_running = λ t. refl;
  same_length = refl;
  woken = inr h;
}

notify_one-Notified : (j : ℕ) (ws vs : List Worker) → notify_one j ws ≡ some vs → Notified ws vs
unfolding notify_one
notify_one-Notified j ws vs h = at (get_elem? ws j) refl h
  where
    nobody : (if ltb 0 (total asleep_one ws) then none else some ws) ≡ some vs → Notified ws vs
    nobody e = subst (Notified ws) (ground arith) (same-Notified ws (ground arith))

    at : (o : Option Worker) → get_elem? ws j ≡ o → wake_one_at o j ws ≡ some vs → Notified ws vs
    at none e k = nobody k
    at (some looking) e k = nobody k
    at (some exited) e k = nobody k
    at (some (running t)) e k = nobody k
    at (some asleep) e k = subst (Notified ws) (ground arith) (record {
      same_exited = omega (arith, total-set exited_one ws j looking asleep e);
      same_running = λ t. omega (arith, total-set (running_one t) ws j looking asleep e);
      same_length = length-set ws j looking;
      woken = inl (omega (arith, total-set awake_one ws j looking asleep e));
    })

dispatched-Inv :
    (t : ℕ) (s : Pool) (ws : List Worker)
    → Inv s
    → s.kill_threads ≡ false
    → Notified s.workers ws
    → Inv (record s {
      work_queue = s.work_queue ++ t ∷ [];
      workers = ws;
      dispatched = s.dispatched ++ t ∷ [];
    })
dispatched-Inv t s ws v k n = record {
  fifo = sym (append_assoc s.started s.work_queue (t ∷ [])) ∙ ap (λ l. l ++ t ∷ []) v.fifo;
  accounted = λ u. omega (arith, v.accounted u, n.same_running u);
  exits_drained = λ h. ground (arith, v.exits_drained, n.same_exited);
  killed_awake = λ e. cc;
  served = λ pos ne. alive pos n.woken;
}
  where
    no_exit : total exited_one s.workers ≡ 0
    no_exit = ground (arith, v.exits_drained)

    alive :
        0 < length ws
        → (0 < total awake_one ws) ⊎ (total asleep_one ws ≡ 0)
        → 0 < total awake_one ws
    alive pos (inl a) = a
    alive pos (inr z) = omega (arith, total_kinds ws, n.same_exited, no_exit)

pub dispatch-Inv : (t j : ℕ) (s s' : Pool) → Inv s → dispatch t j s ≡ some s' → Inv s'
unfolding dispatch
dispatch-Inv t j s s' v h = elim (Bool-cases s.kill_threads) [
  | inl k ↦ cc (rw (k, dispatch) at h)
  | inr k ↦ elim (Option-cases (notify_one j s.workers)) [
    | inl e ↦ absurd (ground arith)
    | inr (ws, e) ↦
        subst Inv (ground arith) (dispatched-Inv t s ws v k (notify_one-Notified j s.workers ws e))
  ]
]

pub destroy-Inv : (s s' : Pool) → Inv s → destroy s ≡ some s' → Inv s'
unfolding destroy
destroy-Inv s s' v h = subst Inv (ground arith) (killed (notify_all-Woken s.workers))
  where
    killed :
        Woken s.workers (notify_all s.workers)
        → Inv (record s { kill_threads = true; workers = notify_all s.workers })
    killed w = record {
      fifo = v.fifo;
      accounted = λ u. omega (arith, v.accounted u, w.same_running u);
      exits_drained = λ x. (refl, (v.exits_drained (omega (arith, w.same_exited))).1);
      killed_awake = λ e. w.none_asleep;
      served = λ pos ne. omega (arith, v.served (omega (arith, w.same_length)) ne, w.more_awake);
    }
