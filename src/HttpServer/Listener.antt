-- ===== src/HttpServer/Listener.antt =====
-- The accept loop of `Run` and `SigintHandler`, as steps that a scheduler puts in some order. The
-- handler runs on any thread, a step at a time, or on the thread of `Run`, which waits for it.
use semantic_search_engine.Base.{
  ℕ, Bool, true, false, List, [], ◌∷◌, ◌++◌, Option, none, some, Bytes, ◌==◌, if◌then◌else◌,
}
use semantic_search_engine.ThreadPool.{get_elem?, set}

-- `ClientCtx`; the index, its lock and the vector client are those of the server.
pub record ClientCtx : Type 0 where
  pub client_fd : ℕ
  pub home_page : Bytes
  pub files_root : Bytes

-- Where `Run` stands: before it sets `g_listen_fd`, at the test of the loop, in `accept`, behind an
-- `accept` that failed (with whether `errno` asks to try again), before `Dispatch`, behind the
-- loop, before the last `close`, and at its end.
pub data Phase : Type 0 where
  publishing testing accepting leaving closing returned : Phase
  failing : Bool → Phase
  dispatching : ℕ → Phase

-- What `accept` gives: a client's descriptor, or an error, with whether it is `EINTR`, `EAGAIN` or
-- `EWOULDBLOCK`; or it blocks, and has nothing to give yet.
pub data Accepted : Type 0 where
  client : ℕ → Accepted
  fails : Bool → Accepted
  blocks : Accepted

-- Where a run of `SigintHandler` stands: before `g_done = 1`, before it reads `g_listen_fd`, before
-- it clears that, before `close`, and at its end.
pub data Handler : Type 0 where
  marks reads over : Handler
  clears closes : ℕ → Handler

pub record Listener : Type 0 where
  pub phase : Phase
  -- `g_done`, and `g_listen_fd`, where `none` is -1
  pub g_done : Bool
  pub g_listen_fd : Option ℕ
  pub handlers : List Handler
  -- the history: the clients accepted, the tasks dispatched, the descriptors closed
  pub accepted : List ℕ
  pub dispatched : List ClientCtx
  pub closed : List ℕ

-- One step of a run of `SigintHandler`, and where it then stands.
unfoldable pub handle : Handler → Listener → Handler × Listener
handle marks s = (reads, record s { g_done = true })
handle reads s = (elim s.g_listen_fd [ none ↦ over | some fd ↦ clears fd ], s)
handle (clears fd) s = (closes fd, record s { g_listen_fd = none })
handle (closes fd) s = (over, record s { closed = s.closed ++ fd ∷ [] })
handle over s = (over, s)

-- `SigintHandler` as a whole
unfoldable pub sigint_handler : Listener → Listener
sigint_handler s = elim s.g_listen_fd [
  | none ↦ record s { g_done = true }
  | some fd ↦ record s { g_done = true; g_listen_fd = none; closed = s.closed ++ fd ∷ [] }
]

-- the outcome of `accept`
unfoldable pub accept_gives : Accepted → Listener → Listener
accept_gives (client c) s = record s { phase = dispatching c; accepted = s.accepted ++ c ∷ [] }
accept_gives (fails retry) s = record s { phase = failing retry }
accept_gives blocks s = s

abbrev pub is_closed : ℕ → List ℕ → Bool
is_closed fd [] = false
is_closed fd (x ∷ closed) = if x == fd then true else is_closed fd closed

-- `accept` does not block on a descriptor that has been closed: it fails with `EBADF`.
abbrev pub accept_on : Accepted → Bool → Accepted
accept_on (client c) closed = client c
accept_on (fails retry) closed = fails retry
accept_on blocks closed = if closed then fails false else blocks

-- the step of the run `i` of the handler, if there is one
unfoldable pub handle_at : Option Handler → ℕ → Listener → Listener
unfolding handle
handle_at none i s = s
handle_at (some h) i s = let (h', s') = handle h s in record s' { handlers = set s'.handlers i h' }

-- A step of `Run`; SIGINT on another thread; a step of that handler; SIGINT on the thread of `Run`.
pub data Event : Type 0 where
  runs : Accepted → Event
  signals interrupts : Event
  handles : ℕ → Event

module _ (home_page files_root : Bytes) (listen_fd : ℕ) where
  abbrev pub context : ℕ → ClientCtx
  context c = record { client_fd = c; home_page = home_page; files_root = files_root }

  -- One step of `Run`, which `accept` gives `outcome` if it is there.
  unfoldable pub run_step : Phase → Accepted → Listener → Listener
  unfolding accept_gives
  run_step publishing outcome s = record s { g_listen_fd = some listen_fd; phase = testing }
  run_step testing outcome s = record s { phase = if s.g_done then leaving else accepting }
  run_step accepting outcome s = accept_gives (accept_on outcome (is_closed listen_fd s.closed)) s
  run_step (failing retry) outcome s = record s {
    phase = if s.g_done then leaving else (if retry then testing else leaving);
  }
  run_step (dispatching c) outcome s = record s {
    phase = testing;
    dispatched = s.dispatched ++ context c ∷ [];
  }
  run_step leaving outcome s = record s {
    phase = elim s.g_listen_fd [ none ↦ returned | some fd ↦ closing ];
  }
  run_step closing outcome s = record s { phase = returned; closed = s.closed ++ listen_fd ∷ [] }
  run_step returned outcome s = s

  unfoldable pub step : Event → Listener → Listener
  unfolding run_step handle_at sigint_handler
  step (runs outcome) s = run_step s.phase outcome s
  step signals s = record s { handlers = s.handlers ++ marks ∷ [] }
  step interrupts s = sigint_handler s
  step (handles i) s = handle_at (get_elem? s.handlers i) i s

  unfoldable pub run : List Event → Listener → Listener
  unfolding step
  run [] s = s
  run (e ∷ es) s = run es (step e s)

-- `Run` before it sets `g_listen_fd`
abbrev pub bound : Listener
bound = record {
  phase = publishing;
  g_done = false;
  g_listen_fd = none;
  handlers = [];
  accepted = [];
  dispatched = [];
  closed = [];
}
