-- ===== src/ThreadPool/Interface.antt =====
-- searchserver/ThreadPool.hpp: the class with what its comments promise, for any implementation,
-- and that the pool of searchserver/ThreadPool.cpp keeps it.
use semantic_search_engine.Base.{
  ℕ, ◌≡◌, ◌<◌, refl, ap, sym, ◌∙◌, List, [], ◌∷◌, Option, none, some, length,
}
use semantic_search_engine.ThreadPool.{
  Pool, Event, dispatches, destroys, works, init, dispatch, destroy, work_at, get_elem?, step, run,
}
use semantic_search_engine.ThreadPool.Drain.{
  IsJoined, run-drained, killed-Joins, destroy-kills, working,
}
use semantic_search_engine.ThreadPool.Invariant.{count}

-- A schedule of calls and of steps of the workers, on any state.
module _ {S : Type 0} (enqueue : ℕ → ℕ → S → Option S) (stop : S → Option S)
    (work : ℕ → S → Option S) where
  pub scheduled_step : Event → S → Option S
  scheduled_step (dispatches t j) s = enqueue t j s
  scheduled_step destroys s = stop s
  scheduled_step (works i) s = work i s

  unfoldable pub scheduled : List Event → S → Option S
  unfolding scheduled_step
  scheduled [] s = some s
  scheduled (e ∷ es) s = elim (scheduled_step e s) [ none ↦ none | some s' ↦ scheduled es s' ]

-- `ThreadPool`. A task is a number, which stands for its function and argument; `dispatch` is also
-- given the worker that the system wakes, and `thread_loop` the worker that makes a step.
pub record TaskPool : Type 1 where
  pub State : Type 0
  pub construct : ℕ → State
  pub destruct : State → Option State
  pub dispatch : ℕ → ℕ → State → Option State
  pub thread_loop : ℕ → State → Option State
  -- the tasks of the calls of `Dispatch`, and those that have been run
  pub dispatched : State → List ℕ
  pub finished : State → List ℕ
  pub HasWorkers : State → Type 0
  pub Joined : State → Type 0
  -- a task that was dispatched is run, once for each time, before the destructor ends
  pub drains :
      (n : ℕ) (es : List Event) (s : State)
      → scheduled dispatch destruct thread_loop es (construct n) ≡ some s
      → HasWorkers s
      → Joined s
      → (t : ℕ) → count t (finished s) ≡ count t (dispatched s)
  -- the destructor can join all threads
  pub joins :
      (s s' : State)
      → destruct s ≡ some s'
      → (is : List ℕ) × (last : State) × (scheduled dispatch destruct thread_loop (working is) s'
          ≡ some last)
        × Joined last

abbrev pub loop : ℕ → Pool → Option Pool
loop i s = work_at (get_elem? s.workers i) i s

step-scheduled : (e : Event) (s : Pool) → step e s ≡ scheduled_step dispatch destroy loop e s
unfolding step scheduled_step
step-scheduled (dispatches t j) s = refl
step-scheduled destroys s = refl
step-scheduled (works i) s = refl

-- Two ways to go on that agree.
goes_on :
    (f g : Pool → Option Pool) (o : Option Pool)
    → ((s : Pool) → f s ≡ g s)
    → elim o as (λ x. Option Pool) [ none ↦ none | some s ↦ f s ]
      ≡ elim o [ none ↦ none | some s ↦ g s ]
goes_on f g none h = refl
goes_on f g (some s) h = h s

pub run-scheduled : (es : List Event) (s : Pool) → run es s ≡ scheduled dispatch destroy loop es s
unfolding run scheduled
run-scheduled [] s = refl
run-scheduled (e ∷ es) s =
    ap (λ o. elim o [ none ↦ none | some s' ↦ run es s' ]) (step-scheduled e s)
    ∙ goes_on (run es) (scheduled dispatch destroy loop es)
        (scheduled_step dispatch destroy loop e s) (run-scheduled es)

abbrev pub thread_pool : TaskPool
thread_pool = record {
  State = Pool;
  construct = init;
  destruct = destroy;
  dispatch = dispatch;
  thread_loop = loop;
  dispatched = λ s. s.dispatched;
  finished = λ s. s.finished;
  HasWorkers = λ s. 0 < length s.workers;
  Joined = IsJoined;
  drains = λ n es s e pos j. (run-drained n es s (run-scheduled es (init n) ∙ e) pos j).2;
  joins = λ s s' e.
      let (is, last, r, j) = killed-Joins s' (destroy-kills s s' e) in
      (is, last, sym (run-scheduled (working is) s') ∙ r, j);
}
