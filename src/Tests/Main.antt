-- ===== src/Tests/Main.antt =====
-- Starting and stopping the server.
use semantic_search_engine.Base.{
  ◌≡◌, ◌≤◌, refl, sym, some, true, false, List, [], ◌∷◌, ◌++◌, map, codes, arith, length, All,
}
use semantic_search_engine.Exception.{ok}
use semantic_search_engine.HttpServer.Descriptors.{listener_closed}
use semantic_search_engine.HttpServer.HomePage.{load_home_page-response}
use semantic_search_engine.HttpServer.Listener.{
  Event, ClientCtx, Listener, accepting, blocks, runs, signals, interrupts, handles, client, fails,
  over, returned, run, bound,
}
use semantic_search_engine.HttpServer.Once.{closed_once}
use semantic_search_engine.HttpServer.Shutdown.{returns_after_sigint}
use semantic_search_engine.HttpServer.Startup.{Setup, construct, joined_lines, load_home_page}
use semantic_search_engine.HttpServer.Serving.{failed, run_server, all_served}
use semantic_search_engine.Tests.MemoryFiles.{memory_files}
use semantic_search_engine.ThreadPool
use semantic_search_engine.ThreadPool.Interface.{scheduled, loop, thread_pool}
use semantic_search_engine.ThreadPool.Invariant.{count}
use semantic_search_engine.ServerMain.{launch, serves, no_integer, low_port}
use semantic_search_engine.Text
use semantic_search_engine.Text.Integer.{pos, stoi}

-- One client, then SIGINT on the thread of `Run` while it waits in `accept`.
abbrev calm : List Event
calm =
    runs (fails false)
    ∷ runs (fails false)
    ∷ runs (client 7)
    ∷ runs (fails false)
    ∷ runs (fails false)
    ∷ interrupts
    ∷ runs (fails true)
    ∷ runs (fails true)
    ∷ runs (fails true)
    ∷ []

calm_returns : (run [] [] 3 calm bound).phase ≡ returned
unfolding run
calm_returns = refl

closed_once_example : (run [] [] 3 calm bound).closed ≡ 3 ∷ []
closed_once_example = closed_once [] [] 3 calm (unfold run in (tt, tt)) calm_returns

-- SIGINT on another thread, with a handler that reads `g_listen_fd` before `Run` does, and clears it
-- after: the descriptor is closed twice.
abbrev raced : List Event
raced =
    runs (fails false)
    ∷ runs (fails false)
    ∷ signals
    ∷ handles 0
    ∷ handles 0
    ∷ runs (fails false)
    ∷ runs (fails false)
    ∷ runs (fails false)
    ∷ handles 0
    ∷ handles 0
    ∷ runs (fails false)
    ∷ []

raced_closes : (run [] [] 3 raced bound).closed ≡ 3 ∷ 3 ∷ []
unfolding run
raced_closes = refl

-- A failed `accept` ends `Run`, which leaves `g_listen_fd` set: a later SIGINT closes it again.
late_closes :
    (run [] [] 3
      (runs (fails false)
        ∷ runs (fails false)
        ∷ runs (fails false)
        ∷ runs (fails false)
        ∷ runs (fails false)
        ∷ runs (fails false)
        ∷ interrupts
        ∷ [])
      bound).closed
    ≡ 3 ∷ 3 ∷ []
unfolding run
late_closes = refl

listener_closed_example :
    All (λ fd. fd ≡ 3) (run [] [] 3 raced bound).closed
    × ((run [] [] 3 raced bound).phase ≡ returned
        → All (λ h. h ≡ over) (run [] [] 3 raced bound).handlers
        → 1 ≤ length (run [] [] 3 raced bound).closed)
listener_closed_example = listener_closed [] [] 3 raced

-- `Run` waits in `accept` when SIGINT comes, and no client follows.
abbrev waiting : Listener
waiting = record bound { phase = accepting; g_listen_fd = some 3 }

abbrev no_more : List Event
no_more = runs blocks ∷ handles 0 ∷ runs blocks ∷ runs blocks ∷ runs blocks ∷ runs blocks ∷ []

returns_after_sigint_example : (run [] [] 3 (interrupts ∷ no_more) waiting).phase ≡ returned
returns_after_sigint_example = returns_after_sigint [] [] 3 no_more waiting refl (omega arith)

-- Without SIGINT it would wait on.
waits_on : (run [] [] 3 no_more waiting).phase ≡ accepting
unfolding run
waits_on = refl

load_home_page-response_example :
    load_home_page (
      joined_lines
        ((codes "HTTP/1.1 200 OK" ∷ codes "Content-length: 0" ∷ []) ++ ([] ∷ codes "<p>" ∷ [])))
    ≡ joined_lines (codes "<p>" ∷ [])
load_home_page-response_example =
    load_home_page-response (codes "HTTP/1.1 200 OK") (codes "Content-length: 0" ∷ [])
      (codes "<p>" ∷ []) (omega arith) (((λ e. cc), omega arith), tt) (omega arith, tt)

home_page_text :
    load_home_page (codes "HTTP/1.1 200 OK\nContent-length: 0\n\n<p>\n\n</p>")
    ≡ codes "<p>\n\n</p>\n"
unfolding load_home_page Text.find Text.lines
home_page_text = refl

launches :
    (launch (λ p. ok true) 0 (codes "s" ∷ codes "5950" ∷ codes "d" ∷ [])
      ≡ ok (serves (pos 5950) (codes "d") 4))
    × (launch (λ p. ok true) 0 (codes "s" ∷ codes "-5" ∷ codes "d" ∷ []) ≡ ok low_port)
    × (launch (λ p. ok true) 0 (codes "s" ∷ codes "x5" ∷ codes "d" ∷ []) ≡ ok no_integer)
    × (launch (λ p. ok true) 0 (codes "s" ∷ codes "3000000000" ∷ codes "d" ∷ []) ≡ ok no_integer)
unfolding launch stoi
launches = (refl, refl, refl, refl)

-- The pool of one worker that gets the client of `calm`.
abbrev pool_schedule : List ThreadPool.Event
pool_schedule =
    ThreadPool.dispatches 7 0
    ∷ ThreadPool.destroys
    ∷ ThreadPool.works 0
    ∷ ThreadPool.works 0
    ∷ ThreadPool.works 0
    ∷ []

abbrev served_pool : ThreadPool.Pool
served_pool = record {
  work_queue = [];
  kill_threads = true;
  workers = ThreadPool.exited ∷ [];
  dispatched = 7 ∷ [];
  started = 7 ∷ [];
  finished = 7 ∷ [];
}

pool_runs :
    scheduled ThreadPool.dispatch ThreadPool.destroy loop pool_schedule (ThreadPool.init 1)
    ≡ some served_pool
unfolding scheduled ThreadPool.dispatch ThreadPool.destroy ThreadPool.init ThreadPool.work_at
pool_runs = refl

calm_dispatches : map (λ ctx. ClientCtx.client_fd ctx) (run [] [] 3 calm bound).dispatched ≡ 7 ∷ []
unfolding run
calm_dispatches = refl

all_served_example : count 7 served_pool.finished ≡ count 7 (run [] [] 3 calm bound).accepted
all_served_example =
    all_served thread_pool [] [] 3 calm 1 pool_schedule served_pool pool_runs (sym calm_dispatches)
      calm_returns (omega arith) refl 7

-- A start in which `bind` fails closes the socket, and listens on nothing.
abbrev bind_fails : Setup
bind_fails = record { page_file = some []; socket_fd = some 3; binds = false; listens = true }

refused :
    run_server memory_files
      (construct memory_files [] [] (pos 5950) (codes "d") 2)
      bind_fails
      (interrupts ∷ [])
    ≡ failed (3 ∷ [])
unfolding run_server construct
refused = refl
