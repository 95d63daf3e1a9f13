-- ===== src/SearchClient/Exchange.antt =====
-- What `SendHttpRequest` has done on each of its ways out.
use semantic_search_engine.Base.{
  ℕ, zero, suc, ◌≡◌, ◌≢◌, ◌≤◌, refl, ap, sym, subst, ◌∙◌, Bool, true, false, List, [], ◌∷◌, ◌++◌,
  none, some, Bytes, arith, take, Bool-cases, inl, inr,
}
use semantic_search_engine.SearchClient.{client_text}
use semantic_search_engine.SearchClient.Transport.{
  Attempt, Exchanged, receive_loop, gives_up, after_send, connect_host, in_front, send_http_request,
}
use semantic_search_engine.Socket.{
  Arrival, comes, interrupted, breaks, read_some, left_over, weight, stream, read_some-Gives,
}
use semantic_search_engine.VectorClient.{send_all}
use semantic_search_engine.VectorClient.Responses.{
  IsQuiet, quiet-IsLive, left_over-IsQuiet, send_all_lem,
}

receive_loop-stream :
    (fuel : ℕ) (net : List Arrival)
    → weight net ≤ fuel
    → IsQuiet net
    → receive_loop fuel net ≡ some (stream net)
unfolding receive_loop read_some
receive_loop-stream zero [] h q = refl
receive_loop-stream zero (comes bs ∷ net) h q = absurd (omega (arith, h))
receive_loop-stream (suc fuel) [] h q = refl
receive_loop-stream (suc fuel) (comes [] ∷ net) h (ne, q) = absurd (ne refl)
receive_loop-stream (suc fuel) (comes (b ∷ bs) ∷ net) h (ne, q) =
    let (ne', e, less, live) =
      read_some-Gives 4095 (comes (b ∷ bs) ∷ net) (ne, quiet-IsLive net q) in
    ap (in_front (take 4096 (b ∷ bs))) (
      receive_loop-stream fuel (left_over 4096 (b ∷ bs) net) (omega (arith, less, h))
        (left_over-IsQuiet 4096 (b ∷ bs) net q))
    ∙ ap some e
receive_loop-stream fuel (interrupted is_done ∷ net) h q = absurd q
receive_loop-stream fuel (breaks ∷ net) h q = absurd q

-- The socket is closed if it was opened; what was sent is a beginning of the request; where there
-- is a response, all of the request was sent, and the response is all that came, if that came in
-- nonempty pieces with no failing call.
abbrev pub Settles : Attempt → Bytes → Exchanged → Type 0
Settles a req x =
    (x.closed ≡ a.opens)
    × ((rest : Bytes) × (x.sent ++ rest ≡ req) × (x.response ≢ none → rest ≡ []))
    × (x.response ≢ none → IsQuiet a.receives → x.response ≡ some (stream a.receives))

gives_up-Settles :
    (a : Attempt) (req sent rest : Bytes)
    → a.opens ≡ true
    → sent ++ rest ≡ req
    → Settles a req (gives_up sent)
gives_up-Settles a req sent rest o e =
    (sym o, (rest, e, λ n. absurd (n refl)), λ n. absurd (n refl))

after_send-Settles :
    (a : Attempt) (req rest : Bytes) (done : Bool × Bytes)
    → a.opens ≡ true
    → done.1 ++ rest ≡ req
    → (done.0 ≡ true → rest ≡ [])
    → Settles a req (after_send a done)
unfolding after_send
after_send-Settles a req rest (false, sent) o e all_sent = gives_up-Settles a req sent rest o e
after_send-Settles a req rest (true, sent) o e all_sent = (
  sym o,
  (rest, e, λ n. all_sent refl),
  λ n q. receive_loop-stream (suc (weight a.receives)) a.receives (omega arith) q,
)

-- However the system answers its calls, `SendHttpRequest` closes the socket that it opened, sends
-- a beginning of the request, and reports a response only where it has sent all of the request;
-- the response is then all that came, if that came in nonempty pieces with no failing call.
pub send_http_request-Settles :
    (is_ipv6 : Bytes → Bool) (a : Attempt) (host : Bytes) (port : ℕ) (method path body : Bytes)
    → Settles a
        (client_text host port method path body)
        (send_http_request is_ipv6 a host port method path body)
unfolding send_http_request
send_http_request-Settles is_ipv6 a host port method path body = elim (Bool-cases a.opens) [
  | inr o ↦
      by (record { sent = []; closed = false; response = none }) (rw (send_http_request, o))
        (sym o, (req, refl, λ n. absurd (n refl)), λ n. absurd (n refl))
  | inl o ↦ elim (Bool-cases (is_ipv6 (connect_host host))) [
    | inr v ↦ by (gives_up []) (rw (send_http_request, o, v)) (gives_up-Settles a req [] req o refl)
    | inl v ↦ elim (Bool-cases a.connects) [
      | inr c ↦
          by (gives_up []) (rw (send_http_request, o, v, c)) (gives_up-Settles a req [] req o refl)
      | inl c ↦
          let (rest, e, done) = send_all_lem a.sends req in
          by (after_send a (send_all a.sends req)) (rw (send_http_request, o, v, c))
            (after_send-Settles a req rest (send_all a.sends req) o e done)
    ]
  ]
]
  where
    req : Bytes
    req = client_text host port method path body

    by :
        (x : Exchanged)
        → send_http_request is_ipv6 a host port method path body ≡ x
        → Settles a req x
        → Settles a req (send_http_request is_ipv6 a host port method path body)
    by x e h = subst (Settles a req) (sym e) h

-- Where the system's calls work, the response is all that came.
pub send_http_request-succeeds :
    (is_ipv6 : Bytes → Bool) (a : Attempt) (host : Bytes) (port : ℕ) (method path body : Bytes)
    → a.opens ≡ true
    → is_ipv6 (connect_host host) ≡ true
    → a.connects ≡ true
    → (send_all a.sends (client_text host port method path body)).0 ≡ true
    → IsQuiet a.receives
    → (send_http_request is_ipv6 a host port method path body).response ≡ some (stream a.receives)
unfolding send_http_request
send_http_request-succeeds is_ipv6 a host port method path body o v c done q =
    rw (send_http_request, o, v, c)
      (received (send_all a.sends (client_text host port method path body)) done)
  where
    received :
        (r : Bool × Bytes) → r.0 ≡ true → (after_send a r).response ≡ some (stream a.receives)
    received (false, sent) e = cc
    received (true, sent) e =
        unfold after_send in
        receive_loop-stream (suc (weight a.receives)) a.receives (omega arith) q
