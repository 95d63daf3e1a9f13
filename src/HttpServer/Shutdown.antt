-- ===== src/HttpServer/Shutdown.antt =====
-- The accept loop and `SigintHandler` in every order of their steps, once `g_done` is set.
use semantic_search_engine.Base.{
  ℕ, suc, ◌≡◌, ◌≤◌, ◌⊎◌, inl, inr, refl, ap, sym, subst, true, List, [], ◌∷◌, Option, none, some,
  Bytes, ◌++◌, arith, Option-cases,
}
use semantic_search_engine.HttpServer.Listener.{
  Phase, publishing, testing, accepting, leaving, closing, returned, failing, dispatching, Accepted,
  client, fails, blocks, Handler, marks, reads, over, clears, closes, Listener, handle, is_closed,
  accept_on, sigint_handler, accept_gives, run_step, handle_at, Event, runs, signals, interrupts,
  handles, step, run,
}
use semantic_search_engine.ThreadPool.{get_elem?}

abbrev advance : Handler × Listener → Handler × Listener
advance (h, s) = handle h s

-- The handler run as a whole is its four steps with nothing between them.
pub handler_alone :
    (s : Listener) → advance (advance (advance (advance (marks, s)))) ≡ (over, sigint_handler s)
unfolding handle sigint_handler
handler_alone s = elim (Option-cases s.g_listen_fd) [ inl e ↦ rw e refl | inr (fd, e) ↦ rw e refl ]

-- How many steps `Run` still makes once `g_done` is set.
abbrev to_return : Phase → ℕ
to_return publishing = 4
to_return testing = 3
to_return accepting = 5
to_return (failing retry) = 3
to_return (dispatching c) = 4
to_return leaving = 2
to_return closing = 1
to_return returned = 0

-- The steps of `Run` in a schedule.
abbrev pub run_steps : List Event → ℕ
run_steps [] = 0
run_steps (runs outcome ∷ es) = suc (run_steps es)
run_steps (signals ∷ es) = run_steps es
run_steps (interrupts ∷ es) = run_steps es
run_steps (handles i ∷ es) = run_steps es

-- A step of the handler leaves `Run` where it stands, and what it accepted and dispatched.
abbrev pub Apart : Listener → Listener → Type 0
Apart s s' =
    (s'.phase ≡ s.phase)
    × (s'.accepted ≡ s.accepted)
    × (s'.dispatched ≡ s.dispatched)
    × (s.g_done ≡ true → s'.g_done ≡ true)

handle-Apart : (h : Handler) (s : Listener) → Apart s (handle h s).1
unfolding handle
handle-Apart marks s = (refl, refl, refl, λ _. refl)
handle-Apart reads s = (refl, refl, refl, λ e. e)
handle-Apart over s = (refl, refl, refl, λ e. e)
handle-Apart (clears fd) s = (refl, refl, refl, λ e. e)
handle-Apart (closes fd) s = (refl, refl, refl, λ e. e)

pub handle_at-Apart : (h : Option Handler) (i : ℕ) (s : Listener) → Apart s (handle_at h i s)
unfolding handle_at
handle_at-Apart none i s = (refl, refl, refl, λ e. e)
handle_at-Apart (some h) i s = handle-Apart h s

pub sigint_handler-Apart : (s : Listener) → Apart s (sigint_handler s)
unfolding sigint_handler
sigint_handler-Apart s = elim (Option-cases s.g_listen_fd) [
  | inl e ↦ rw (sigint_handler, e) (refl, refl, refl, λ _. refl)
  | inr (fd, e) ↦ rw (sigint_handler, e) (refl, refl, refl, λ _. refl)
]

module _ (home_page files_root : Bytes) (listen_fd : ℕ) where
  abbrev pub after : Event → Listener → Listener
  after = step home_page files_root listen_fd

  -- The listening socket has been closed.
  abbrev Shut : List ℕ → Type 0
  Shut closed = is_closed listen_fd closed ≡ true

  Shut-append : (closed : List ℕ) (fd : ℕ) → Shut closed → Shut (closed ++ fd ∷ [])
  Shut-append [] fd h = cc
  Shut-append (x ∷ closed) fd h = ground (arith, Shut-append closed fd)

  Shut-closes : (closed : List ℕ) → Shut (closed ++ listen_fd ∷ [])
  Shut-closes [] = ground arith
  Shut-closes (x ∷ closed) = ground (arith, Shut-closes closed)

  handle_at-Shut :
      (h : Option Handler) (i : ℕ) (s : Listener) → Shut s.closed → Shut (handle_at h i s).closed
  unfolding handle_at handle
  handle_at-Shut none i s c = c
  handle_at-Shut (some marks) i s c = c
  handle_at-Shut (some reads) i s c = c
  handle_at-Shut (some over) i s c = c
  handle_at-Shut (some (clears fd)) i s c = c
  handle_at-Shut (some (closes fd)) i s c = Shut-append s.closed fd c

  sigint_handler-Shut : (s : Listener) → Shut s.closed → Shut (sigint_handler s).closed
  unfolding sigint_handler
  sigint_handler-Shut s c = elim (Option-cases s.g_listen_fd) [
    | inl e ↦ rw (sigint_handler, e) c
    | inr (fd, e) ↦ rw (sigint_handler, e) (Shut-append s.closed fd c)
  ]

  -- What SIGINT on the thread of `Run` does once the socket is published.
  sigint_handler-closes :
      (s : Listener)
      → s.g_listen_fd ≡ some listen_fd
      → ((sigint_handler s).g_done ≡ true)
        × Shut (sigint_handler s).closed
        × ((sigint_handler s).phase ≡ s.phase)
  unfolding sigint_handler
  sigint_handler-closes s e = rw (sigint_handler, e) (refl, Shut-closes s.closed, refl)

  -- `g_done` is set, and the listening socket closed.
  abbrev Stopped : Listener → Type 0
  Stopped s = (s.g_done ≡ true) × Shut s.closed

  -- A step of `Run` that is stopped leaves it so, and brings it nearer to its end.
  abbrev Nearer : Phase → Listener → Type 0
  Nearer p s' =
      Stopped s' × (suc (to_return s'.phase) ≤ to_return p ⊎ (p ≡ returned) × (s'.phase ≡ returned))

  run_step-to_return :
      (p : Phase) (outcome : Accepted) (s : Listener)
      → s.phase ≡ p
      → Stopped s
      → Nearer p (run_step home_page files_root listen_fd p outcome s)
  unfolding run_step accept_gives
  run_step-to_return publishing outcome s e d = (d, inl (omega arith))
  run_step-to_return testing outcome s e d = (d, inl (rw d.0 (omega arith)))
  run_step-to_return accepting (client c) s e d = (d, inl (omega arith))
  run_step-to_return accepting (fails retry) s e d = (d, inl (omega arith))
  run_step-to_return accepting blocks s e d =
      subst (λ b. Nearer accepting (accept_gives (accept_on blocks b) s)) (sym d.1)
        (d, inl (omega arith))
  run_step-to_return (failing retry) outcome s e d = (d, inl (rw d.0 (omega arith)))
  run_step-to_return (dispatching c) outcome s e d = (d, inl (omega arith))
  run_step-to_return leaving outcome s e d = (
    d,
    inl (elim (Option-cases s.g_listen_fd) [
      | inl n ↦ rw n (omega arith)
      | inr (fd, n) ↦ rw n (omega arith)
    ]),
  )
  run_step-to_return closing outcome s e (d, c) =
      ((d, Shut-append s.closed listen_fd c), inl (omega arith))
  run_step-to_return returned outcome s e d = (d, inr (refl, e))

  at_end : (p : Phase) → to_return p ≤ 0 → p ≡ returned
  at_end publishing h = absurd (omega (arith, h))
  at_end testing h = absurd (omega (arith, h))
  at_end accepting h = absurd (omega (arith, h))
  at_end (failing retry) h = absurd (omega (arith, h))
  at_end (dispatching c) h = absurd (omega (arith, h))
  at_end leaving h = absurd (omega (arith, h))
  at_end closing h = absurd (omega (arith, h))
  at_end returned h = refl

  returns_within :
      (es : List Event) (s : Listener)
      → Stopped s
      → to_return s.phase ≤ run_steps es
      → (run home_page files_root listen_fd es s).phase ≡ returned
  unfolding run step
  returns_within [] s d h = at_end s.phase h
  returns_within (runs outcome ∷ es) s d h =
      let (d', less) = run_step-to_return s.phase outcome s refl d in
      returns_within es (run_step home_page files_root listen_fd s.phase outcome s) d' (elim less [
        | inl l ↦ omega (arith, l, h)
        | inr (e, e') ↦ subst (λ p. to_return p ≤ run_steps es) (sym e') (omega arith)
      ])
  returns_within (signals ∷ es) s d h = returns_within es (after signals s) d h
  returns_within (interrupts ∷ es) s (d, c) h =
      let (p, a, q, d') = sigint_handler-Apart s in
      returns_within es (sigint_handler s) (d' d, sigint_handler-Shut s c)
        (omega (arith, h, ap to_return p))
  returns_within (handles i ∷ es) s (d, c) h =
      let (p, a, q, d') = handle_at-Apart (get_elem? s.handlers i) i s in
      returns_within es (handle_at (get_elem? s.handlers i) i s)
        (d' d, handle_at-Shut (get_elem? s.handlers i) i s c) (omega (arith, h, ap to_return p))

  to_return-le : (p : Phase) → to_return p ≤ 5
  to_return-le publishing = omega arith
  to_return-le testing = omega arith
  to_return-le accepting = omega arith
  to_return-le (failing retry) = omega arith
  to_return-le (dispatching c) = omega arith
  to_return-le leaving = omega arith
  to_return-le closing = omega arith
  to_return-le returned = omega arith

  -- SIGINT on the thread of `Run`, once that has set `g_listen_fd`, makes it return after at most
  -- five more steps of its own, also where it stood before or in an `accept` that no client ends:
  -- the handler has closed the socket, on which `accept` does not block. It is so whatever further
  -- handlers do between those steps, and whatever `accept` gives.
  pub returns_after_sigint :
      (es : List Event) (s : Listener)
      → s.g_listen_fd ≡ some listen_fd
      → 5 ≤ run_steps es
      → (run home_page files_root listen_fd (interrupts ∷ es) s).phase ≡ returned
  unfolding run step
  returns_after_sigint es s e h =
      let (d, c, p) = sigint_handler-closes s e in
      returns_within es (sigint_handler s) (d, c)
        (omega (arith, h, to_return-le (sigint_handler s).phase))
