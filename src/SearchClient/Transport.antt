-- ===== src/SearchClient/Transport.antt =====
-- `SendHttpRequest`: one exchange with the server, over what the system answers to its calls.
use semantic_search_engine.Base.{
  ℕ, zero, suc, Bool, true, false, List, [], ◌++◌, Option, none, some, Bytes, codes, if◌then◌else◌,
  not,
}
use semantic_search_engine.HttpServer.Routes.{equals}
use semantic_search_engine.SearchClient.{client_text}
use semantic_search_engine.VectorClient.{send_all}
use semantic_search_engine.Socket.{Arrival, Outcome, got, again, failed, ended, read_some, weight}

-- What the system answers: whether `socket` and `connect` work, how many bytes each `send` takes
-- (0 stands for an error), and what the calls of `recv` give.
pub record Attempt : Type 0 where
  pub opens : Bool
  pub connects : Bool
  pub sends : List ℕ
  pub receives : List Arrival

-- What the exchange did: the bytes sent, whether it closed the socket, and the response, which is
-- `none` where the function returns false.
pub record Exchanged : Type 0 where
  pub sent : Bytes
  pub closed : Bool
  pub response : Option Bytes

-- `connect_host`
unfoldable pub connect_host : Bytes → Bytes
connect_host host = if equals host (codes "::") then codes "::1" else host

abbrev pub in_front : Bytes → Option Bytes → Option Bytes
in_front bs none = none
in_front bs (some more) = some (bs ++ more)

-- the body of the loop of `recv`
abbrev pub receive_round : (List Arrival → Option Bytes) → Outcome × List Arrival → Option Bytes
receive_round next (got bs, net) = in_front bs (next net)
receive_round next (again is_done, net) = none
receive_round next (failed, net) = none
receive_round next (ended, net) = some []

-- The loop, with fuel for its calls; `none` where one of them fails.
unfoldable pub receive_loop : ℕ → List Arrival → Option Bytes
receive_loop zero net = some []
receive_loop (suc fuel) net = receive_round (receive_loop fuel) (read_some 4096 net)

abbrev pub gives_up : Bytes → Exchanged
gives_up sent = record { sent = sent; closed = true; response = none }

-- `SendHttpRequest` behind the loop that sends
unfoldable pub after_send : Attempt → Bool × Bytes → Exchanged
unfolding receive_loop
after_send a (false, sent) = gives_up sent
after_send a (true, sent) = record {
  sent = sent;
  closed = true;
  response = receive_loop (suc (weight a.receives)) a.receives;
}

-- `SendHttpRequest`, given which addresses `inet_pton` takes.
unfoldable pub send_http_request :
    (Bytes → Bool) → Attempt → Bytes → ℕ → Bytes → Bytes → Bytes → Exchanged
unfolding after_send connect_host client_text send_all
send_http_request is_ipv6 a host port method path body =
    if not a.opens
    then record { sent = []; closed = false; response = none }
    else if not (is_ipv6 (connect_host host))
    then gives_up []
    else if not a.connects
    then gives_up []
    else after_send a (send_all a.sends (client_text host port method path body))
