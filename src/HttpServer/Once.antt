-- ===== src/HttpServer/Once.antt =====
-- The accept loop of `Run` with SIGINT on its own thread: how often it closes the socket.
use semantic_search_engine.Base.{
  Bool-cases, ℕ, ◌≡◌, refl, ap, sym, subst, ◌∙◌, Bool, true, false, List, [], ◌∷◌, ◌++◌, Option,
  none, some, Bytes, Option-cases, inl, inr, if◌then◌else◌,
}
use semantic_search_engine.HttpServer.Listener.{
  Phase, publishing, testing, accepting, leaving, closing, returned, failing, dispatching, Accepted,
  client, fails, blocks, is_closed, Listener, sigint_handler, accept_gives, run_step, Event, runs,
  signals, interrupts, handles, step, run, bound,
}

-- `Run` has not yet made its last test of `g_listen_fd`.
abbrev pub BeforeTest : Phase → Type 0
BeforeTest closing = ⊥
BeforeTest returned = ⊥
BeforeTest publishing = Unit
BeforeTest testing = Unit
BeforeTest accepting = Unit
BeforeTest leaving = Unit
BeforeTest (failing retry) = Unit
BeforeTest (dispatching c) = Unit

module _ (home_page files_root : Bytes) (listen_fd : ℕ) where
  -- SIGINT only comes on the thread of `Run`, and not behind its last test of `g_listen_fd`.
  abbrev pub Calm : List Event → Listener → Type 0
  Calm [] s = Unit
  Calm (runs outcome ∷ es) s = Calm es (run_step home_page files_root listen_fd s.phase outcome s)
  Calm (interrupts ∷ es) s = BeforeTest s.phase × Calm es (sigint_handler s)
  Calm (signals ∷ es) s = ⊥
  Calm (handles i ∷ es) s = ⊥

  -- Either `g_listen_fd` is set and nothing closed, or the handler has closed the socket.
  abbrev Either : Option ℕ → List ℕ → Type 0
  Either none closed = closed ≡ listen_fd ∷ []
  Either (some fd) closed = (fd ≡ listen_fd) × (closed ≡ [])

  abbrev Once : Phase → Option ℕ → List ℕ → Type 0
  Once publishing g closed = (g ≡ none) × (closed ≡ [])
  Once closing g closed = closed ≡ []
  Once returned g closed = closed ≡ listen_fd ∷ []
  Once testing g closed = Either g closed
  Once accepting g closed = Either g closed
  Once leaving g closed = Either g closed
  Once (failing retry) g closed = Either g closed
  Once (dispatching c) g closed = Either g closed

  Once-if :
      (b : Bool) (p q : Phase) (g : Option ℕ) (closed : List ℕ)
      → Once p g closed
      → Once q g closed
      → Once (if b then p else q) g closed
  Once-if true p q g closed h k = h
  Once-if false p q g closed h k = k

  -- What the handler makes of `g_listen_fd` and of the closed descriptors.
  abbrev hands_over : Option ℕ → List ℕ → List ℕ
  hands_over none closed = closed
  hands_over (some fd) closed = closed ++ fd ∷ []

  hands_over-Either :
      (g : Option ℕ) (closed : List ℕ) → Either g closed → Either none (hands_over g closed)
  hands_over-Either none closed e = e
  hands_over-Either (some fd) closed (e, n) = ap (λ x. x ++ fd ∷ []) n ∙ ap (λ x. x ∷ []) e

  -- The handler clears `g_listen_fd`.
  interrupted :
      (p : Phase) (g : Option ℕ) (closed : List ℕ)
      → BeforeTest p
      → Once p g closed
      → Once p none (hands_over g closed)
  interrupted publishing g closed b (e, n) = (refl, ap (λ x. hands_over x closed) e ∙ n)
  interrupted testing g closed b h = hands_over-Either g closed h
  interrupted accepting g closed b h = hands_over-Either g closed h
  interrupted leaving g closed b h = hands_over-Either g closed h
  interrupted (failing retry) g closed b h = hands_over-Either g closed h
  interrupted (dispatching c) g closed b h = hands_over-Either g closed h
  interrupted closing g closed b h = absurd b
  interrupted returned g closed b h = absurd b

  sigint_handler-Once :
      (s : Listener)
      → BeforeTest s.phase
      → Once s.phase s.g_listen_fd s.closed
      → Once (sigint_handler s).phase (sigint_handler s).g_listen_fd (sigint_handler s).closed
  unfolding sigint_handler
  sigint_handler-Once s b h = elim (Option-cases s.g_listen_fd) [
    | inl e ↦ rw (sigint_handler, e) h
    | inr (fd, e) ↦
        rw (sigint_handler, e)
          (interrupted s.phase (some fd) s.closed b (subst (λ g. Once s.phase g s.closed) e h))
  ]

  run_step-Once :
      (p : Phase) (outcome : Accepted) (s : Listener)
      → s.phase ≡ p
      → Once p s.g_listen_fd s.closed
      → Once
          (run_step home_page files_root listen_fd p outcome s).phase
          (run_step home_page files_root listen_fd p outcome s).g_listen_fd
          (run_step home_page files_root listen_fd p outcome s).closed
  unfolding run_step accept_gives
  run_step-Once publishing outcome s e (g, h) = (refl, h)
  run_step-Once testing outcome s e h =
      Once-if s.g_done leaving accepting s.g_listen_fd s.closed h h
  run_step-Once accepting (client c) s e h = h
  run_step-Once accepting (fails retry) s e h = h
  run_step-Once accepting blocks s e h = elim (Bool-cases (is_closed listen_fd s.closed)) [
    | inl b ↦ rw b h
    | inr b ↦ rw b (subst (λ p. Once p s.g_listen_fd s.closed) (sym e) h)
  ]
  run_step-Once (failing retry) outcome s e h =
      Once-if s.g_done leaving (if retry then testing else leaving) s.g_listen_fd s.closed h
        (Once-if retry testing leaving s.g_listen_fd s.closed h h)
  run_step-Once (dispatching c) outcome s e h = h
  run_step-Once leaving outcome s e h = elim (Option-cases s.g_listen_fd) [
    | inl n ↦ rw n (subst (λ g. Either g s.closed) n h)
    | inr (fd, n) ↦ rw n (subst (λ g. Either g s.closed) n h).1
  ]
  run_step-Once closing outcome s e h = ap (λ x. x ++ listen_fd ∷ []) h
  run_step-Once returned outcome s e h = subst (λ p. Once p s.g_listen_fd s.closed) (sym e) h

  run-Once :
      (es : List Event) (s : Listener)
      → Calm es s
      → Once s.phase s.g_listen_fd s.closed
      → (run home_page files_root listen_fd es s).phase ≡ returned
      → (run home_page files_root listen_fd es s).closed ≡ listen_fd ∷ []
  unfolding run step
  run-Once [] s calm h e = subst (λ p. Once p s.g_listen_fd s.closed) e h
  run-Once (runs outcome ∷ es) s calm h e =
      run-Once es (run_step home_page files_root listen_fd s.phase outcome s) calm
        (run_step-Once s.phase outcome s refl h) e
  run-Once (interrupts ∷ es) s (b, calm) h e =
      run-Once es (sigint_handler s) calm (sigint_handler-Once s b h) e
  run-Once (signals ∷ es) s calm h e = absurd calm
  run-Once (handles i ∷ es) s calm h e = absurd calm

  -- Where SIGINT comes any number of times, but only on the thread of `Run` and not behind its last
  -- test of `g_listen_fd`, the listening socket has been closed once when `Run` returns, and nothing
  -- else has.
  pub closed_once :
      (es : List Event)
      → Calm es bound
      → (run home_page files_root listen_fd es bound).phase ≡ returned
      → (run home_page files_root listen_fd es bound).closed ≡ listen_fd ∷ []
  closed_once es calm e = run-Once es bound calm (refl, refl) e
