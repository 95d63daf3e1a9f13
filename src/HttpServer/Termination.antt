-- ===== src/HttpServer/Termination.antt =====
-- The fuel of the loop of `HandleClient`.
use semantic_search_engine.Base.{
  ℕ, zero, suc, ◌≡◌, ◌<◌, refl, true, List, Bytes, arith, Bool-cases, inl, inr,
}
use semantic_search_engine.Exception.{Result, Result-cases}
use semantic_search_engine.FileSystem.{FileSystem}
use semantic_search_engine.HttpRequest.{Request, parse_request}
use semantic_search_engine.HttpServer.Connection.{
  ClientSocket, send_on, answer_request, serve_raw, client_round, client_loop,
}
use semantic_search_engine.HttpServer.Float.{Float}
use semantic_search_engine.HttpServer.Reading.{has_blank_line, read_raw_request}
use semantic_search_engine.HttpServer.Routes.{Server, VectorSearch, respond, wants_close}
use semantic_search_engine.Socket.{Arrival, weight}
use semantic_search_engine.HttpServer.Consumed.{read_raw_request-lt}

module _ (fs : FileSystem) (float : Float) (vec : VectorSearch float)
    (home_page files_root : Bytes) where
  abbrev Next : Type 0
  Next = Server fs → ClientSocket → Result (Server fs × ClientSocket)

  -- Two ways to go on that agree on what is left of a connection.
  abbrev Agree : ℕ → Next → Next → Type 0
  Agree n next next' =
      (s : Server fs) (sock : ClientSocket) → weight sock.reads < n → next s sock ≡ next' s sock

  answer_request-Agree :
      (next next' : Next) (s : Server fs) (sock : ClientSocket) (r : Request) (n : ℕ)
      → weight sock.reads < n
      → Agree n next next'
      → answer_request fs float vec home_page files_root next s sock r
        ≡ answer_request fs float vec home_page files_root next' s sock r
  unfolding answer_request send_on
  answer_request-Agree next next' s sock r n h agree =
      elim (Result-cases (respond fs float vec home_page files_root s r)) [
        | inr (e, p) ↦ rw p refl
        | inl (answered, p) ↦ elim (Bool-cases (wants_close r)) [
          | inl w ↦ rw (p, w) refl
          | inr w ↦ rw (p, w) (agree answered.0 (send_on sock answered.1) h)
        ]
      ]

  serve_raw-Agree :
      (next next' : Next) (s : Server fs) (sock : ClientSocket) (raw : Bytes) (rest : List Arrival)
      (n : ℕ)
      → (has_blank_line raw ≡ true → weight rest < n)
      → Agree n next next'
      → serve_raw fs float vec home_page files_root next s sock (raw, rest)
        ≡ serve_raw fs float vec home_page files_root next' s sock (raw, rest)
  unfolding serve_raw
  serve_raw-Agree next next' s sock raw rest n h agree = elim (Bool-cases (has_blank_line raw)) [
    | inr e ↦ rw (e, serve_raw) refl
    | inl e ↦ elim (Result-cases (parse_request raw)) [
      | inr (x, p) ↦ rw (e, p, serve_raw) refl
      | inl (r, p) ↦
          rw (e, p, serve_raw)
            (answer_request-Agree next next' s (record sock { reads = rest }) r n (h e) agree)
    ]
  ]

  client_round-Agree :
      (next next' : Next) (s : Server fs) (sock : ClientSocket)
      → Agree (weight sock.reads) next next'
      → client_round fs float vec home_page files_root next s sock
        ≡ client_round fs float vec home_page files_root next' s sock
  unfolding client_round
  client_round-Agree next next' s sock agree = elim (Result-cases (read_raw_request sock.reads)) [
    | inr (e, p) ↦ rw p refl
    | inl ((raw, rest), p) ↦ rw p (
        serve_raw-Agree next next' s sock raw rest (weight sock.reads)
          (read_raw_request-lt sock.reads rest raw p) agree)
  ]

  -- The loop of `HandleClient` comes to its end: with fuel above what the connection can still
  -- give, it does not depend on the fuel, nor on what stands for a loop whose fuel is spent, so that
  -- the fuel is never spent.
  pub client_loop_enough :
      (spent spent' : Result (Server fs × ClientSocket)) (f g : ℕ) (s : Server fs)
      (sock : ClientSocket)
      → weight sock.reads < f
      → weight sock.reads < g
      → client_loop fs float vec home_page files_root spent f s sock
        ≡ client_loop fs float vec home_page files_root spent' g s sock
  unfolding client_loop
  client_loop_enough spent spent' zero g s sock h k = absurd (omega (arith, h))
  client_loop_enough spent spent' (suc f) zero s sock h k = absurd (omega (arith, k))
  client_loop_enough spent spent' (suc f) (suc g) s sock h k =
      client_round-Agree (client_loop fs float vec home_page files_root spent f)
        (client_loop fs float vec home_page files_root spent' g) s sock
        (λ t other lt.
          client_loop_enough spent spent' f g t other (omega (arith, lt, h)) (omega (arith, lt, k)))
