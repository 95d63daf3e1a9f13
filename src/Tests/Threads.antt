-- ===== src/Tests/Threads.antt =====
-- Schedules of the thread pool.
use semantic_search_engine.Base.{
  ℕ, ◌≡◌, refl, true, List, [], ◌∷◌, some, arith, length, ◌+◌, ◌≤◌, false,
}
use semantic_search_engine.ThreadPool.Drain.{
  IsJoined, run-drained, destroy-Joins, working, work_left,
}
use semantic_search_engine.ThreadPool.Invariant.{Inv, count}
use semantic_search_engine.ThreadPool.Moves.{run-init-Inv}
use semantic_search_engine.ThreadPool.{
  Pool, looking, asleep, running, exited, Event, dispatches, destroys, works, init, destroy, run,
  total, asleep_one,
}

-- Two workers; the second sleeps, is woken for task 8, and the first drains the queue behind it.
abbrev schedule : List Event
schedule =
    works 1
    ∷ dispatches 7 1
    ∷ works 0
    ∷ dispatches 8 0
    ∷ dispatches 9 0
    ∷ works 1
    ∷ destroys
    ∷ works 0
    ∷ works 0
    ∷ works 1
    ∷ works 1
    ∷ works 0
    ∷ works 0
    ∷ []

abbrev joined_pool : Pool
joined_pool = record {
  work_queue = [];
  kill_threads = true;
  workers = exited ∷ exited ∷ [];
  dispatched = 7 ∷ 8 ∷ 9 ∷ [];
  started = 7 ∷ 8 ∷ 9 ∷ [];
  finished = 7 ∷ 8 ∷ 9 ∷ [];
}

run-schedule : run schedule (init 2) ≡ some joined_pool
unfolding run init
run-schedule = refl

run-drained_example :
    (joined_pool.work_queue ≡ [])
    × (joined_pool.started ≡ joined_pool.dispatched)
    × ((t : ℕ) → count t joined_pool.finished ≡ count t joined_pool.dispatched)
run-drained_example = run-drained 2 schedule joined_pool run-schedule (omega arith) refl

run-init-Inv_example : Inv joined_pool
run-init-Inv_example = run-init-Inv 2 schedule joined_pool run-schedule

-- One worker sleeps and the other runs a task when the destructor begins.
abbrev before_destroy : Pool
before_destroy = record {
  work_queue = [];
  kill_threads = false;
  workers = asleep ∷ running 7 ∷ [];
  dispatched = 7 ∷ [];
  started = 7 ∷ [];
  finished = [];
}

abbrev destroyed : Pool
destroyed = record before_destroy { kill_threads = true; workers = looking ∷ running 7 ∷ [] }

abbrev one_left : Pool
one_left = record destroyed { workers = exited ∷ running 7 ∷ [] }

run-before : run (dispatches 7 0 ∷ works 1 ∷ works 0 ∷ []) (init 2) ≡ some before_destroy
unfolding run init
run-before = refl

destroy-wakes : destroy before_destroy ≡ some destroyed
unfolding destroy
destroy-wakes = refl

run-one_left : run (working (0 ∷ [])) destroyed ≡ some one_left
unfolding run
run-one_left = refl

destroy-Joins_example :
    (total asleep_one one_left.workers ≡ 0)
    × (length {A = ℕ} (0 ∷ []) + work_left one_left ≤ work_left destroyed)
    × ((js : List ℕ) × (s3 : Pool) × (run (working js) one_left ≡ some s3) × IsJoined s3)
destroy-Joins_example =
    destroy-Joins 2 (dispatches 7 0 ∷ works 1 ∷ works 0 ∷ []) before_destroy destroyed one_left
      (0 ∷ []) run-before destroy-wakes run-one_left
