-- ===== src/HttpServer/Descriptors.antt =====
-- Which descriptors `Run` and `SigintHandler` close.
use semantic_search_engine.Base.{
  Bool-cases, ℕ, ◌+◌, ◌≡◌, ◌≤◌, refl, ap, sym, subst, List, [], ◌∷◌, ◌++◌, Option, none, some,
  Bytes, arith, All, All-append, length, length-append, Option-cases, inl, inr, if◌then◌else◌,
}
use semantic_search_engine.HttpServer.Listener.{
  Phase, publishing, testing, accepting, leaving, closing, returned, failing, dispatching, Accepted,
  client, fails, blocks, is_closed, Handler, marks, reads, over, clears, closes, Listener, handle,
  sigint_handler, accept_gives, run_step, handle_at, Event, runs, signals, interrupts, handles,
  step, run, bound,
}
use semantic_search_engine.ThreadPool.Places.{All-set, All-get}
use semantic_search_engine.ThreadPool.{get_elem?, set}
use semantic_search_engine.HttpServer.Claims.{
  claim, claims, claims-set, claims-append, Owned, Owned-grows, Owned-cleared, Owned-if,
}

module _ (home_page files_root : Bytes) (listen_fd : ℕ) where
  -- The descriptor that a handler holds is the listening socket's.
  abbrev Holds : Handler → Type 0
  Holds marks = Unit
  Holds reads = Unit
  Holds over = Unit
  Holds (clears fd) = fd ≡ listen_fd
  Holds (closes fd) = fd ≡ listen_fd

  abbrev Published : Option ℕ → Type 0
  Published none = Unit
  Published (some fd) = fd ≡ listen_fd

  abbrev Inv : Listener → Type 0
  Inv s =
      Published s.g_listen_fd
      × All Holds s.handlers
      × All (λ fd. fd ≡ listen_fd) s.closed
      × Owned s.phase s.g_listen_fd (claims s.handlers + length s.closed)

  closed-append :
      (fds : List ℕ) (fd : ℕ)
      → All (λ x. x ≡ listen_fd) fds
      → fd ≡ listen_fd
      → All (λ x. x ≡ listen_fd) (fds ++ fd ∷ [])
  closed-append fds fd h e = All-append (λ x. x ≡ listen_fd) fds (fd ∷ []) h (e, tt)

  sigint_handler-Inv : (s : Listener) → Inv s → Inv (sigint_handler s)
  unfolding sigint_handler
  sigint_handler-Inv s (g, hs, cs, o) = elim (Option-cases s.g_listen_fd) [
    | inl e ↦ rw (sigint_handler, e) (g, hs, cs, o)
    | inr (fd, e) ↦
        rw (sigint_handler, e)
          (
            tt,
            hs,
            closed-append s.closed fd cs (subst Published e g),
            Owned-cleared s.phase (claims s.handlers + length (s.closed ++ fd ∷ []))
                (omega (arith, length-append s.closed (fd ∷ []))),
          )
  ]

  -- Where a handler goes on that has read `g_listen_fd`.
  abbrev seen : Option ℕ → Handler
  seen g = elim g [ none ↦ over | some fd ↦ clears fd ]

  seen-Holds : (g : Option ℕ) → Published g → Holds (seen g)
  seen-Holds none h = tt
  seen-Holds (some fd) h = h

  handle_at-Inv :
      (h : Handler) (i : ℕ) (s : Listener)
      → get_elem? s.handlers i ≡ some h
      → Inv s
      → Inv (handle_at (some h) i s)
  unfolding handle_at handle
  handle_at-Inv marks i s e (g, hs, cs, o) = (
    g,
    All-set Holds s.handlers i reads hs tt,
    cs,
    Owned-grows s.phase s.g_listen_fd (claims s.handlers + length s.closed)
        (claims (set s.handlers i reads) + length s.closed)
        (omega (arith, claims-set s.handlers i marks reads e)) o,
  )
  handle_at-Inv reads i s e (g, hs, cs, o) = (
    g,
    All-set Holds s.handlers i (seen s.g_listen_fd) hs (seen-Holds s.g_listen_fd g),
    cs,
    Owned-grows s.phase s.g_listen_fd (claims s.handlers + length s.closed)
        (claims (set s.handlers i (seen s.g_listen_fd)) + length s.closed)
        (omega (arith, claims-set s.handlers i reads (seen s.g_listen_fd) e)) o,
  )
  handle_at-Inv (clears fd) i s e (g, hs, cs, o) =
      let held = All-get Holds s.handlers i (clears fd) hs e in
      (
        tt,
        All-set Holds s.handlers i (closes fd) hs held,
        cs,
        Owned-cleared s.phase (claims (set s.handlers i (closes fd)) + length s.closed) (
            omega (
              arith,
              claims-set s.handlers i (clears fd) (closes fd) e,
              claims-set s.handlers i (clears fd) over e,
            )),
      )
  handle_at-Inv (closes fd) i s e (g, hs, cs, o) =
      let held = All-get Holds s.handlers i (closes fd) hs e in
      (
        g,
        All-set Holds s.handlers i over hs tt,
        closed-append s.closed fd cs held,
        Owned-grows s.phase s.g_listen_fd (claims s.handlers + length s.closed)
            (claims (set s.handlers i over) + length (s.closed ++ fd ∷ []))
            (omega
              (arith, claims-set s.handlers i (closes fd) over e, length-append s.closed (fd ∷ [])))
            o,
      )
  handle_at-Inv over i s e (g, hs, cs, o) = (
    g,
    All-set Holds s.handlers i over hs tt,
    cs,
    Owned-grows s.phase s.g_listen_fd (claims s.handlers + length s.closed)
        (claims (set s.handlers i over) + length s.closed)
        (omega (arith, claims-set s.handlers i over over e)) o,
  )

  run_step-Inv :
      (p : Phase) (outcome : Accepted) (s : Listener)
      → s.phase ≡ p
      → Published s.g_listen_fd
      → All Holds s.handlers
      → All (λ fd. fd ≡ listen_fd) s.closed
      → Owned p s.g_listen_fd (claims s.handlers + length s.closed)
      → Inv (run_step home_page files_root listen_fd p outcome s)
  unfolding run_step accept_gives
  run_step-Inv publishing outcome s e g hs cs o = (refl, hs, cs, λ x. cc)
  run_step-Inv testing outcome s e g hs cs o = (
    g,
    hs,
    cs,
    Owned-if s.g_done leaving accepting s.g_listen_fd (claims s.handlers + length s.closed) o o,
  )
  run_step-Inv accepting (client c) s e g hs cs o = (g, hs, cs, o)
  run_step-Inv accepting (fails retry) s e g hs cs o = (g, hs, cs, o)
  run_step-Inv accepting blocks s e g hs cs o = elim (Bool-cases (is_closed listen_fd s.closed)) [
    | inl b ↦ rw b (g, hs, cs, o)
    | inr b ↦ rw b (
      g,
      hs,
      cs,
      subst (λ p. Owned p s.g_listen_fd (claims s.handlers + length s.closed)) (sym e) o,
    )
  ]
  run_step-Inv (failing retry) outcome s e g hs cs o =
      let n = claims s.handlers + length s.closed in
      (
        g,
        hs,
        cs,
        Owned-if s.g_done leaving (if retry then testing else leaving) s.g_listen_fd n o
            (Owned-if retry testing leaving s.g_listen_fd n o o),
      )
  run_step-Inv (dispatching c) outcome s e g hs cs o = (g, hs, cs, o)
  run_step-Inv leaving outcome s e g hs cs o = elim (Option-cases s.g_listen_fd) [
    | inl n ↦ rw n (tt, hs, cs, o n)
    | inr (fd, n) ↦ rw n (subst Published n g, hs, cs, λ x. cc)
  ]
  run_step-Inv closing outcome s e g hs cs o = (
    g,
    hs,
    closed-append s.closed listen_fd cs refl,
    omega (arith, length-append s.closed (listen_fd ∷ [])),
  )
  run_step-Inv returned outcome s e g hs cs o = (
    g,
    hs,
    cs,
    subst (λ p. Owned p s.g_listen_fd (claims s.handlers + length s.closed)) (sym e) o,
  )

  handles-Inv : (i : ℕ) (s : Listener) → Inv s → Inv (handle_at (get_elem? s.handlers i) i s)
  handles-Inv i s h = elim (Option-cases (get_elem? s.handlers i)) [
    | inl e ↦ subst (λ x. Inv (handle_at x i s)) (sym e) (unfold handle_at in h)
    | inr (x, e) ↦ subst (λ y. Inv (handle_at y i s)) (sym e) (handle_at-Inv x i s e h)
  ]

  run-Inv : (es : List Event) (s : Listener) → Inv s → Inv (run home_page files_root listen_fd es s)
  unfolding run step
  run-Inv [] s h = h
  run-Inv (runs outcome ∷ es) s (g, hs, cs, o) =
      run-Inv es (run_step home_page files_root listen_fd s.phase outcome s)
        (run_step-Inv s.phase outcome s refl g hs cs o)
  run-Inv (signals ∷ es) s (g, hs, cs, o) =
      run-Inv es (step home_page files_root listen_fd signals s) (
        g,
        All-append Holds s.handlers (marks ∷ []) hs (tt, tt),
        cs,
        subst (λ n. Owned s.phase s.g_listen_fd (n + length s.closed))
            (sym (claims-append s.handlers)) o,
      )
  run-Inv (interrupts ∷ es) s h = run-Inv es (sigint_handler s) (sigint_handler-Inv s h)
  run-Inv (handles i ∷ es) s h =
      run-Inv es (handle_at (get_elem? s.handlers i) i s) (handles-Inv i s h)

  All-over : (hs : List Handler) → All (λ h. h ≡ over) hs → claims hs ≡ 0
  All-over [] a = refl
  All-over (h ∷ hs) (e, a) = omega (arith, ap claim e, All-over hs a)

  -- In every order of the steps of `Run` and of the runs of `SigintHandler`, `close` is called with
  -- no other number than the listening socket's; and when `Run` has returned and the handlers have
  -- ended, it has been called at least once, so that the socket is not leaked. Some orders call it
  -- twice, and nothing is said of what the number stands for at the second call.
  pub listener_closed :
      (es : List Event)
      → All (λ fd. fd ≡ listen_fd) (run home_page files_root listen_fd es bound).closed
        × ((run home_page files_root listen_fd es bound).phase ≡ returned
            → All (λ h. h ≡ over) (run home_page files_root listen_fd es bound).handlers
            → 1 ≤ length (run home_page files_root listen_fd es bound).closed)
  listener_closed es =
      let (g, hs, cs, o) = run-Inv es bound (tt, tt, tt, refl) in
      let s : Listener = run home_page files_root listen_fd es bound in
      (
        cs,
        λ p a. omega (
          arith,
          All-over s.handlers a,
          subst (λ x. Owned x s.g_listen_fd (claims s.handlers + length s.closed)) p o,
        ),
      )
