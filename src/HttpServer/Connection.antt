-- ===== src/HttpServer/Connection.antt =====
-- `SendAll` and `HandleClient`: a worker serves one connection until a request asks to close it.
use semantic_search_engine.Base.{
  ℕ, zero, suc, Bool, true, false, List, [], ◌∷◌, ◌++◌, Bytes, take, drop,
}
use semantic_search_engine.Exception.{Result, ok, throws, filesystem_error, ◌>>=◌}
use semantic_search_engine.FileSystem.{FileSystem}
use semantic_search_engine.HttpRequest.{Request, parse_request}
use semantic_search_engine.HttpServer.Float.{Float}
use semantic_search_engine.HttpServer.Reading.{has_blank_line, read_raw_request}
use semantic_search_engine.HttpServer.Routes.{Server, VectorSearch, respond, wants_close}
use semantic_search_engine.Socket.{Arrival, weight}

-- A connection with a client: what its reads will give, how many bytes each of its writes will
-- take (0 stands for an error, as does the end of the list), the bytes sent, and whether it is
-- closed.
pub record ClientSocket : Type 0 where
  pub reads : List Arrival
  pub writes : List ℕ
  pub sent : Bytes
  pub closed : Bool

-- A connection just accepted.
abbrev pub open_socket : List Arrival → List ℕ → ClientSocket
open_socket reads writes = record { reads = reads; writes = writes; sent = []; closed = false }

-- `SendAll`: the bytes that went out, and the outcomes of the later writes.
unfoldable pub send_response : List ℕ → Bytes → Bytes × List ℕ
send_response [] [] = ([], [])
send_response [] (c ∷ response) = ([], [])
send_response (w ∷ writes) [] = ([], w ∷ writes)
send_response (zero ∷ writes) (c ∷ response) = ([], writes)
send_response (suc w ∷ writes) (c ∷ response) =
    let (sent, rest) = send_response writes (drop w response) in
    (c ∷ (take w response ++ sent), rest)

-- `SendAll` on a connection.
unfoldable pub send_on : ClientSocket → Bytes → ClientSocket
unfolding send_response
send_on sock response =
    let (out, writes) = send_response sock.writes response in
    record sock { writes = writes; sent = sock.sent ++ out }

module _ (fs : FileSystem) (float : Float) (vec : VectorSearch float)
    (home_page files_root : Bytes) where
  -- A round of the loop of `HandleClient` behind `ParseRequest`: the response is sent, and the loop
  -- goes on unless the request asks to close.
  unfoldable pub answer_request :
      (Server fs → ClientSocket → Result (Server fs × ClientSocket))
      → Server fs
      → ClientSocket
      → Request
      → Result (Server fs × ClientSocket)
  unfolding respond wants_close send_on
  answer_request next s sock r = respond fs float vec home_page files_root s r >>= λ answered.
      elim (wants_close r) [
        | true ↦ ok (answered.0, send_on sock answered.1)
        | false ↦ next answered.0 (send_on sock answered.1)
      ]

  -- A round of the loop behind `ReadRawRequest`, which ends the loop where there is no blank line.
  unfoldable pub serve_raw :
      (Server fs → ClientSocket → Result (Server fs × ClientSocket))
      → Server fs
      → ClientSocket
      → Bytes × List Arrival
      → Result (Server fs × ClientSocket)
  unfolding answer_request
  serve_raw next s sock (raw, rest) = elim (has_blank_line raw) [
    | false ↦ ok (s, record sock { reads = rest })
    | true ↦ parse_request raw >>= answer_request next s (record sock { reads = rest })
  ]

  -- A round of the loop; `next` is the next round. An exception leaves it: nothing catches it.
  unfoldable pub client_round :
      (Server fs → ClientSocket → Result (Server fs × ClientSocket))
      → Server fs
      → ClientSocket
      → Result (Server fs × ClientSocket)
  unfolding serve_raw
  client_round next s sock = read_raw_request sock.reads >>= serve_raw next s sock

  -- The loop, with fuel for its rounds, and what stands for it when the fuel is spent.
  unfoldable pub client_loop :
      Result (Server fs × ClientSocket)
      → ℕ
      → Server fs
      → ClientSocket
      → Result (Server fs × ClientSocket)
  unfolding client_round
  client_loop spent zero s sock = spent
  client_loop spent (suc fuel) s sock = client_round (client_loop spent fuel) s sock

  -- `HandleClient`; its fuel is not spent, so that the exception named here is never thrown.
  unfoldable pub handle_client : Server fs → ClientSocket → Result (Server fs × ClientSocket)
  unfolding client_loop
  handle_client s sock =
      client_loop (throws filesystem_error) (suc (weight sock.reads)) s sock >>= λ done.
      ok (done.0, record (done.1) { closed = true })
