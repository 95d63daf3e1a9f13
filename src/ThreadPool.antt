-- ===== src/ThreadPool.antt =====
-- searchserver/ThreadPool.cpp and ThreadPool.hpp: the workers, the queue and the destructor, as a
-- step function over the events that the scheduler chooses. A critical section under `m_mtx` is
-- one event. A task is a number, which stands for its function and argument; the run of a task
-- ends with an event of its own. `dispatched`, `started` and `finished` are the history.
pub mod Places
pub mod Workers
pub mod Invariant
pub mod Moves
pub mod Drain
pub mod Interface
use semantic_search_engine.Base.{
  ℕ, zero, suc, ◌+◌, Bool, true, false, List, [], ◌∷◌, ◌++◌, Option, none, some, ltb, if◌then◌else◌,
}

-- A worker is about to take the lock and look at the queue, asleep in `m_cond.wait`, running a
-- task, or has returned from `ThreadLoop`.
pub data Worker : Type 0 where
  looking asleep exited : Worker
  running : ℕ → Worker

pub record Pool : Type 0 where
  pub work_queue : List ℕ
  pub kill_threads : Bool
  pub workers : List Worker
  pub dispatched : List ℕ
  pub started : List ℕ
  pub finished : List ℕ

module _ {ℓ} {A : Type ℓ} where
  abbrev pub get_elem? : List A → ℕ → Option A
  get_elem? [] i = none
  get_elem? (x ∷ xs) zero = some x
  get_elem? (x ∷ xs) (suc i) = get_elem? xs i

  abbrev pub set : List A → ℕ → A → List A
  set [] i v = []
  set (x ∷ xs) zero v = v ∷ xs
  set (x ∷ xs) (suc i) v = x ∷ set xs i v

  abbrev pub replicate : ℕ → A → List A
  replicate zero a = []
  replicate (suc n) a = a ∷ replicate n a

-- Added up over the workers.
abbrev pub total : (Worker → ℕ) → List Worker → ℕ
total g [] = 0
total g (w ∷ ws) = g w + total g ws

abbrev pub asleep_one : Worker → ℕ
asleep_one asleep = 1
asleep_one _ = 0

-- `ThreadPool(num_threads)`
unfoldable pub init : ℕ → Pool
init num_threads = record {
  work_queue = [];
  kill_threads = false;
  workers = replicate num_threads looking;
  dispatched = [];
  started = [];
  finished = [];
}

-- `m_cond.notify_one()`: it wakes the sleeping worker `j`, which the scheduler chooses, and
-- nobody if nobody sleeps. A choice of a worker that does not sleep is no step.
wake_one_at : Option Worker → ℕ → List Worker → Option (List Worker)
wake_one_at (some asleep) j ws = some (set ws j looking)
wake_one_at _ j ws = if ltb 0 (total asleep_one ws) then none else some ws

unfoldable pub notify_one : ℕ → List Worker → Option (List Worker)
unfolding wake_one_at
notify_one j ws = wake_one_at (get_elem? ws j) j ws

abbrev wake : Worker → Worker
wake asleep = looking
wake w = w

-- `m_cond.notify_all()`
unfoldable pub notify_all : List Worker → List Worker
notify_all [] = []
notify_all (w ∷ ws) = wake w ∷ notify_all ws

-- `Dispatch(t)`. The pool must not be in its destructor, as for every call on an object.
unfoldable pub dispatch : ℕ → ℕ → Pool → Option Pool
unfolding notify_one
dispatch t j s = if s.kill_threads then none else elim (notify_one j s.workers) [
  | none ↦ none
  | some ws ↦ some (record s {
    work_queue = s.work_queue ++ t ∷ [];
    workers = ws;
    dispatched = s.dispatched ++ t ∷ [];
  })
]

-- `~ThreadPool()` up to the joins, which wait until all workers have exited.
unfoldable pub destroy : Pool → Option Pool
unfolding notify_all
destroy s = some (record s { kill_threads = true; workers = notify_all s.workers })

-- The critical section of `ThreadLoop` for the worker `i`, which holds the lock: it goes to sleep
-- in `wait`, returns, or takes the first task.
unfoldable pub look : ℕ → List ℕ → Pool → Pool
look i [] s = record s { workers = set s.workers i (if s.kill_threads then exited else asleep) }
look i (t ∷ rest) s = record s {
  work_queue = rest;
  workers = set s.workers i (running t);
  started = s.started ++ t ∷ [];
}

-- The next step of the worker `i`, by where it stands. A sleeping worker may wake with no
-- notification; it then looks at the queue again.
unfoldable pub work_at : Option Worker → ℕ → Pool → Option Pool
unfolding look
work_at none i s = none
work_at (some exited) i s = none
work_at (some asleep) i s = some (record s { workers = set s.workers i looking })
work_at (some looking) i s = some (look i s.work_queue s)
work_at (some (running t)) i s =
    some (record s { workers = set s.workers i looking; finished = s.finished ++ t ∷ [] })

pub data Event : Type 0 where
  dispatches : ℕ → ℕ → Event
  destroys : Event
  works : ℕ → Event

unfoldable pub step : Event → Pool → Option Pool
unfolding dispatch destroy work_at
step (dispatches t j) s = dispatch t j s
step destroys s = destroy s
step (works i) s = work_at (get_elem? s.workers i) i s

-- A schedule: `none` where one of its events is not possible.
unfoldable pub run : List Event → Pool → Option Pool
unfolding step
run [] s = some s
run (e ∷ es) s = elim (step e s) [ none ↦ none | some s' ↦ run es s' ]
