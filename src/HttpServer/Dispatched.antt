-- ===== src/HttpServer/Dispatched.antt =====
-- The clients that `Run` accepts, and the tasks that it dispatches.
use semantic_search_engine.Base.{
  Bool-cases, ℕ, ◌≡◌, refl, ap, sym, ◌∙◌, List, [], ◌∷◌, ◌++◌, append-nil, map, map-append, Bytes,
  Bool, true, false, if◌then◌else◌, Option-cases, inl, inr,
}
use semantic_search_engine.HttpServer.Listener.{
  ClientCtx, Phase, publishing, testing, accepting, leaving, closing, returned, failing,
  dispatching, Accepted, client, fails, blocks, is_closed, Listener, sigint_handler, accept_gives,
  context, run_step, handle_at, Event, runs, signals, interrupts, handles, step, run, bound,
}
use semantic_search_engine.HttpServer.Shutdown.{Apart, handle_at-Apart, sigint_handler-Apart}
use semantic_search_engine.ThreadPool.{get_elem?}

module _ (home_page files_root : Bytes) (listen_fd : ℕ) where
  abbrev ctx : ℕ → ClientCtx
  ctx = context home_page files_root listen_fd

  -- the client that is accepted and not yet dispatched
  abbrev pub pending : Phase → List ClientCtx
  pending (dispatching c) = ctx c ∷ []
  pending publishing = []
  pending testing = []
  pending accepting = []
  pending leaving = []
  pending closing = []
  pending returned = []
  pending (failing retry) = []

  abbrev InOrder : Listener → Type 0
  InOrder s = s.dispatched ++ pending s.phase ≡ map ctx s.accepted

  Apart-InOrder : (s s' : Listener) → Apart s s' → InOrder s → InOrder s'
  Apart-InOrder s s' (p, a, d, x) h =
      ap (λ y. y ++ pending s'.phase) d
      ∙ ap (λ y. s.dispatched ++ pending y) p
      ∙ h
      ∙ ap (map ctx) (sym a)

  pending-if :
      (b : Bool) (p q : Phase) → pending p ≡ [] → pending q ≡ [] → pending (if b then p else q) ≡ []
  pending-if true p q e e' = e
  pending-if false p q e e' = e'

  -- A phase with nothing pending after another.
  no_pending :
      (p : Phase) (s : Listener)
      → pending p ≡ []
      → s.dispatched ++ [] ≡ map ctx s.accepted
      → s.dispatched ++ pending p ≡ map ctx s.accepted
  no_pending p s e h = ap (λ x. s.dispatched ++ x) e ∙ h

  run_step-InOrder :
      (p : Phase) (outcome : Accepted) (s : Listener)
      → s.phase ≡ p
      → s.dispatched ++ pending p ≡ map ctx s.accepted
      → InOrder (run_step home_page files_root listen_fd p outcome s)
  unfolding run_step accept_gives
  run_step-InOrder publishing outcome s e h = h
  run_step-InOrder testing outcome s e h =
      no_pending (if s.g_done then leaving else accepting) s
        (pending-if s.g_done leaving accepting refl refl) h
  run_step-InOrder accepting (client c) s e h =
      ap (λ x. x ++ ctx c ∷ []) (sym (append-nil s.dispatched) ∙ h)
      ∙ sym (map-append ctx s.accepted (c ∷ []))
  run_step-InOrder accepting (fails retry) s e h = h
  run_step-InOrder accepting blocks s e h = elim (Bool-cases (is_closed listen_fd s.closed)) [
    | inl b ↦ rw b h
    | inr b ↦ rw b (ap (λ p. s.dispatched ++ pending p) e ∙ h)
  ]
  run_step-InOrder (failing retry) outcome s e h =
      no_pending (if s.g_done then leaving else (if retry then testing else leaving)) s
        (pending-if s.g_done leaving (if retry then testing else leaving) refl
          (pending-if retry testing leaving refl refl))
        h
  run_step-InOrder (dispatching c) outcome s e h = append-nil (s.dispatched ++ ctx c ∷ []) ∙ h
  run_step-InOrder leaving outcome s e h = elim (Option-cases s.g_listen_fd) [
    | inl n ↦ rw n h
    | inr (fd, n) ↦ rw n h
  ]
  run_step-InOrder closing outcome s e h = h
  run_step-InOrder returned outcome s e h = ap (λ p. s.dispatched ++ pending p) e ∙ h

  run-InOrder :
      (es : List Event) (s : Listener)
      → InOrder s
      → InOrder (run home_page files_root listen_fd es s)
  unfolding run step
  run-InOrder [] s h = h
  run-InOrder (runs outcome ∷ es) s h =
      run-InOrder es (run_step home_page files_root listen_fd s.phase outcome s)
        (run_step-InOrder s.phase outcome s refl h)
  run-InOrder (signals ∷ es) s h = run-InOrder es (step home_page files_root listen_fd signals s) h
  run-InOrder (interrupts ∷ es) s h =
      run-InOrder es (sigint_handler s)
        (Apart-InOrder s (sigint_handler s) (sigint_handler-Apart s) h)
  run-InOrder (handles i ∷ es) s h = run-InOrder es (handle_at (get_elem? s.handlers i) i s) (
      Apart-InOrder s (handle_at (get_elem? s.handlers i) i s)
        (handle_at-Apart (get_elem? s.handlers i) i s) h)

  -- In every order of the steps of `Run` and of the handlers, the tasks dispatched, with the one
  -- that is about to be, are those of the clients accepted, in the order of their connections.
  pub dispatched_in_order :
      (es : List Event)
      → (run home_page files_root listen_fd es bound).dispatched
          ++ pending (run home_page files_root listen_fd es bound).phase
        ≡ map ctx (run home_page files_root listen_fd es bound).accepted
  dispatched_in_order es = run-InOrder es bound refl
