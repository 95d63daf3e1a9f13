-- ===== src/HttpServer/Rounds.antt =====
-- What a round of `HandleClient` does, and the answers to a list of requests.
use semantic_search_engine.Base.{
  ℕ, zero, suc, ◌+◌, ◌≡◌, ◌≢◌, ◌≤◌, ◌⊎◌, refl, ap, sym, ◌∙◌, Bool, true, false, List, [], ◌∷◌, ◌++◌,
  Option, some, Bytes, arith, All, length, length-drop, take, drop, take-append-drop, Bool-cases,
  inl, inr,
}
use semantic_search_engine.Exception.{Result, ok, ◌>>=◌, Result-cases, ok_injective, throws-ne-ok}
use semantic_search_engine.FileSystem.{FileSystem}
use semantic_search_engine.HttpRequest.{Request, parse_request}
use semantic_search_engine.HttpResponse.{blank_line}
use semantic_search_engine.HttpServer.Chunks.{Declares}
use semantic_search_engine.HttpServer.Connection.{
  ClientSocket, send_response, send_on, answer_request, serve_raw, client_round,
}
use semantic_search_engine.HttpServer.Float.{Float}
use semantic_search_engine.HttpServer.Reading.{has_blank_line, read_raw_request}
use semantic_search_engine.HttpServer.Routes.{Server, VectorSearch, respond, wants_close}
use semantic_search_engine.Map.{get_or}
use semantic_search_engine.Socket.{Arrival, stream, IsLive}
use semantic_search_engine.Text.{find}

-- These pieces carry one whole request, which is parsed as `r`.
pub record Carries (pieces : List Arrival) (r : Request) : Type 0 where
  pub head : Bytes
  pub body : Bytes
  pub place : ℕ
  pub declared : Option ℕ
  pub live : IsLive pieces
  pub whole : stream pieces ≡ head ++ body
  pub blank : find blank_line head ≡ some place
  pub ends : place + 4 ≡ length head
  pub declares : Declares head declared
  pub fits : get_or 0 declared ≡ length body
  pub parses : parse_request (head ++ body) ≡ ok r

-- The pieces of several requests, one after the other: the client sends a request once it has the
-- answer to the one before, so that no piece holds bytes of two.
abbrev pub all_pieces : List (List Arrival × Request) → List Arrival
all_pieces [] = []
all_pieces ((pieces, r) ∷ rs) = pieces ++ all_pieces rs

abbrev pub AllCarry : List (List Arrival × Request) → Type 0
AllCarry = All (λ p. Carries p.0 p.1)

-- A writing end that takes at least one byte a time, as often as there are bytes.
abbrev pub Takes : ℕ → List ℕ → Type 0
Takes n writes = All (λ w. w ≢ 0) writes × (n ≤ length writes)

send_response-Takes :
    (writes : List ℕ) (response : Bytes) (n : ℕ)
    → Takes (length response + n) writes
    → ((send_response writes response).0 ≡ response) × Takes n (send_response writes response).1
unfolding send_response
send_response-Takes [] [] n (a, h) = (refl, (a, omega (arith, h)))
send_response-Takes [] (c ∷ response) n (a, h) = absurd (omega (arith, h))
send_response-Takes (w ∷ writes) [] n (a, h) = (refl, (a, omega (arith, h)))
send_response-Takes (zero ∷ writes) (c ∷ response) n ((ne, a), h) = absurd (ne refl)
send_response-Takes (suc w ∷ writes) (c ∷ response) n ((ne, a), h) =
    let (e, t) =
      send_response-Takes writes (drop w response) n
        (a, omega (arith, h, length-drop w response)) in
    (ap (◌∷◌ c) (ap (λ x. take w response ++ x) e ∙ take-append-drop w response), t)

pub send_on-Takes :
    (sock : ClientSocket) (response : Bytes) (n : ℕ)
    → Takes (length response + n) sock.writes
    → ((send_on sock response).sent ≡ sock.sent ++ response)
      × Takes n (send_on sock response).writes
      × ((send_on sock response).reads ≡ sock.reads)
unfolding send_on
send_on-Takes sock response n t =
    let (e, t') = send_response-Takes sock.writes response n t in
    (ap (λ x. sock.sent ++ x) e, t', refl)

pub plus_zero : (b : Bytes) → length b ≡ length b + 0
plus_zero b = omega arith

module _ (fs : FileSystem) (float : Float) (vec : VectorSearch float)
    (home_page files_root : Bytes) where
  -- Puts a response in front of what the later requests get.
  abbrev pub before : Bytes → Server fs × Bytes → Result (Server fs × Bytes)
  before response (s, later) = ok (s, response ++ later)

  -- What follows a response: the later requests, unless this one asks to close the connection.
  abbrev pub serve_next :
      (Server fs → Result (Server fs × Bytes))
      → Bool
      → Server fs × Bytes
      → Result (Server fs × Bytes)
  serve_next next true (s, response) = ok (s, response)
  serve_next next false (s, response) = next s >>= before response

  -- What a server answers to a list of requests: the responses in their order, up to the first
  -- request that asks to close the connection.
  unfoldable pub serve_all : Server fs → List Request → Result (Server fs × Bytes)
  serve_all s [] = ok (s, [])
  serve_all s (r ∷ rs) =
      respond fs float vec home_page files_root s r
      >>= serve_next (λ s'. serve_all s' rs) (wants_close r)

  pub client_round_stops :
      (next : Server fs → ClientSocket → Result (Server fs × ClientSocket)) (s : Server fs)
      (sock : ClientSocket) (raw : Bytes) (rest : List Arrival)
      → read_raw_request sock.reads ≡ ok (raw, rest)
      → has_blank_line raw ≡ false
      → client_round fs float vec home_page files_root next s sock
        ≡ ok (s, record sock { reads = rest })
  unfolding client_round
  client_round_stops next s sock raw rest e n =
      ap (λ x. x >>= serve_raw fs float vec home_page files_root next s sock) e ∙ rw (n, serve_raw)

  pub client_round_answers :
      (next : Server fs → ClientSocket → Result (Server fs × ClientSocket)) (s : Server fs)
      (sock : ClientSocket) (raw : Bytes) (rest : List Arrival) (r : Request)
      → read_raw_request sock.reads ≡ ok (raw, rest)
      → has_blank_line raw ≡ true
      → parse_request raw ≡ ok r
      → client_round fs float vec home_page files_root next s sock
        ≡ answer_request fs float vec home_page files_root next s (record sock { reads = rest }) r
  unfolding client_round
  client_round_answers next s sock raw rest r e n p =
      ap (λ x. x >>= serve_raw fs float vec home_page files_root next s sock) e
      ∙ (rw (n, serve_raw) refl)
      ∙ ap
          (λ x.
            x
            >>= answer_request fs float vec home_page files_root next s
                (record sock { reads = rest }))
          p

  pub answer_closes :
      (next : Server fs → ClientSocket → Result (Server fs × ClientSocket)) (s : Server fs)
      (sock : ClientSocket) (r : Request) (answered : Server fs × Bytes)
      → respond fs float vec home_page files_root s r ≡ ok answered
      → wants_close r ≡ true
      → answer_request fs float vec home_page files_root next s sock r
        ≡ ok (answered.0, send_on sock answered.1)
  unfolding answer_request
  answer_closes next s sock r answered e w = rw (e, w)

  pub answer_goes_on :
      (next : Server fs → ClientSocket → Result (Server fs × ClientSocket)) (s : Server fs)
      (sock : ClientSocket) (r : Request) (answered : Server fs × Bytes)
      → respond fs float vec home_page files_root s r ≡ ok answered
      → wants_close r ≡ false
      → answer_request fs float vec home_page files_root next s sock r
        ≡ next answered.0 (send_on sock answered.1)
  unfolding answer_request
  answer_goes_on next s sock r answered e w = rw (e, w)

  -- A first request that gets its response.
  abbrev pub Serves : Server fs → Server fs → Request → List Request → Bytes → Type 0
  Serves s s' r rs out =
      (answered : Server fs × Bytes) × (respond fs float vec home_page files_root s r ≡ ok answered)
      × ((wants_close r ≡ true) × (answered ≡ (s', out))
          ⊎ (wants_close r ≡ false)
            × ((more : Bytes) × (serve_all answered.0 rs ≡ ok (s', more))
                × (out ≡ answered.1 ++ more)))

  serve_more :
      (s1 s' : Server fs) (rs : List Request) (response out : Bytes)
      → (serve_all s1 rs >>= before response) ≡ ok (s', out)
      → (more : Bytes) × (serve_all s1 rs ≡ ok (s', more)) × (out ≡ response ++ more)
  serve_more s1 s' rs response out h = elim (Result-cases (serve_all s1 rs)) [
    | inr (e, q) ↦ absurd (throws-ne-ok e (sym (ap (λ x. x >>= before response) q) ∙ h))
    | inl ((s2, more), q) ↦
        let e = ok_injective (sym (ap (λ x. x >>= before response) q) ∙ h) in
        (more, q ∙ ap (λ x. ok (x.0, more)) e, sym (ap (λ x. x.1) e))
  ]

  pub serve_all_head :
      (s s' : Server fs) (r : Request) (rs : List Request) (out : Bytes)
      → serve_all s (r ∷ rs) ≡ ok (s', out)
      → Serves s s' r rs out
  unfolding serve_all
  serve_all_head s s' r rs out h =
      elim (Result-cases (respond fs float vec home_page files_root s r)) [
        | inr (e, p) ↦ absurd (throws-ne-ok e (sym (ap next p) ∙ h))
        | inl (answered, p) ↦ elim (Bool-cases (wants_close r)) [
          | inl w ↦ (
            answered,
            p,
            inl (
              w,
              ok_injective (
                  sym (ap (λ b. serve_next (λ s1. serve_all s1 rs) b answered) w)
                  ∙ sym (ap next p)
                  ∙ h),
            ),
          )
          | inr w ↦ (
            answered,
            p,
            inr (
              w,
              serve_more answered.0 s' rs answered.1 out (
                  sym (ap (λ b. serve_next (λ s1. serve_all s1 rs) b answered) w)
                  ∙ sym (ap next p)
                  ∙ h),
            ),
          )
        ]
      ]
    where
      next : Result (Server fs × Bytes) → Result (Server fs × Bytes)
      next x = x >>= serve_next (λ s1. serve_all s1 rs) (wants_close r)
