-- ===== src/HttpServer/Serving.antt =====
-- `HttpServer::Run` as a whole, and its clients as tasks of a pool.
use semantic_search_engine.Base.{
  ℕ, ◌≡◌, refl, ap, sym, ◌∙◌, List, [], ◌∷◌, ◌++◌, append-nil, map, some, Bytes,
}
use semantic_search_engine.FileSystem.{FileSystem}
use semantic_search_engine.HttpServer.Dispatched.{pending, dispatched_in_order}
use semantic_search_engine.HttpServer.Listener.{
  ClientCtx, returned, Listener, context, Event, run, bound,
}
use semantic_search_engine.HttpServer.Startup.{
  HttpServer, Setup, Start, exit_failure, listening, start_up,
}
use semantic_search_engine.ThreadPool
use semantic_search_engine.ThreadPool.Interface.{TaskPool, scheduled}
use semantic_search_engine.ThreadPool.Invariant.{count}

-- Where `Run` is: it has returned `EXIT_FAILURE`, with the descriptors it closed, or it is in its
-- accept loop or has left that, with `EXIT_SUCCESS`.
pub data Running : Type 0 where
  failed : List ℕ → Running
  serving : Listener → Running

unfoldable pub running_from : Bytes → List Event → Start → Running
unfolding run
running_from files_root es (exit_failure closed) = failed closed
running_from files_root es (listening listen_fd port home_page) =
    serving (run home_page files_root listen_fd es bound)

-- `HttpServer::Run` after a schedule of its steps and of signals
unfoldable pub run_server : (fs : FileSystem) → HttpServer fs → Setup → List Event → Running
unfolding start_up running_from
run_server fs server setup es = running_from server.files_root es (start_up setup server.port)

fd-context :
    (home_page files_root : Bytes) (listen_fd : ℕ) (cs : List ℕ)
    → map (λ ctx. ClientCtx.client_fd ctx) (map (context home_page files_root listen_fd) cs) ≡ cs
fd-context home_page files_root listen_fd [] = refl
fd-context home_page files_root listen_fd (c ∷ cs) =
    ap (◌∷◌ c) (fd-context home_page files_root listen_fd cs)

module _ (tasks : TaskPool) (home_page files_root : Bytes) (listen_fd : ℕ) where
  -- When `Run` has returned and the pool it dispatches to has been joined, each client has been
  -- handled as often as it was accepted, for any pool that keeps the promise of `TaskPool` and has
  -- a worker, whatever the order of the steps, and with SIGINT at any time.
  pub all_served :
      (es : List Event) (n : ℕ) (ps : List ThreadPool.Event) (pool : tasks.State)
      → scheduled tasks.dispatch tasks.destruct tasks.thread_loop ps (tasks.construct n) ≡ some pool
      → tasks.dispatched pool
        ≡ map
            (λ ctx. ClientCtx.client_fd ctx)
            (run home_page files_root listen_fd es bound).dispatched
      → (run home_page files_root listen_fd es bound).phase ≡ returned
      → tasks.HasWorkers pool
      → tasks.Joined pool
      → (c : ℕ)
      → count c (tasks.finished pool)
        ≡ count c (run home_page files_root listen_fd es bound).accepted
  all_served es n ps pool scheduled_to same end workers joined c =
      tasks.drains n ps pool scheduled_to workers joined c
      ∙ ap (count c) (
          same
          ∙ ap (map (λ ctx. ClientCtx.client_fd ctx)) (
              sym (append-nil s.dispatched)
              ∙ ap (λ p. s.dispatched ++ pending home_page files_root listen_fd p) (sym end)
              ∙ dispatched_in_order home_page files_root listen_fd es)
          ∙ fd-context home_page files_root listen_fd s.accepted)
    where
      s : Listener
      s = run home_page files_root listen_fd es bound
