-- ===== src/EndToEnd/Wire.antt =====
-- One exchange on the wire: `SendHttpRequest` at one end of a connection, `HandleClient` at the
-- other.
use semantic_search_engine.Base.{ℕ, ◌≡◌, ap, ◌∙◌, Bool, true, [], ◌∷◌, List, some, Bytes, length}
use semantic_search_engine.EndToEnd.{serve_one}
use semantic_search_engine.SearchClient.Requests.{path_of, request_for}
use semantic_search_engine.Exception.{ok}
use semantic_search_engine.FileSystem.{FileSystem}
use semantic_search_engine.HttpServer.Connection.{ClientSocket, open_socket, handle_client}
use semantic_search_engine.HttpServer.Conversation.{conversation}
use semantic_search_engine.HttpServer.Float.{Float}
use semantic_search_engine.HttpServer.Rounds.{Carries, all_pieces, Takes}
use semantic_search_engine.HttpServer.Routes.{Server, VectorSearch, respond}
use semantic_search_engine.SearchClient.{client_text}
use semantic_search_engine.SearchClient.Exchange.{send_http_request-succeeds}
use semantic_search_engine.SearchClient.Transport.{Attempt, connect_host, send_http_request}
use semantic_search_engine.Socket.{Arrival, stream}
use semantic_search_engine.VectorClient.{send_all}
use semantic_search_engine.VectorClient.Responses.{IsQuiet}

-- The system's calls work for the client: it reaches the server, sends all of its request, and
-- gets nonempty pieces until the server closes.
pub record Works (is_ipv6 : Bytes → Bool) (a : Attempt) (host request : Bytes) : Type 0 where
  pub opens : a.opens ≡ true
  pub valid : is_ipv6 (connect_host host) ≡ true
  pub connects : a.connects ≡ true
  pub sends : (send_all a.sends request).0 ≡ true
  pub quiet : IsQuiet a.receives

module _ (fs : FileSystem) (float : Float) (vec : VectorSearch float) (home_page files_root : Bytes)
    (is_ipv6 : Bytes → Bool) (host : Bytes) (port : ℕ) where
  -- If the pieces that reach the server carry the client's request and the server has an answer to
  -- it, `HandleClient` sends that and closes; and if what it sent is what reaches the client,
  -- `SendHttpRequest` reports it as the response. The system's calls have to work at both ends.
  pub exchange_answered :
      (s s' : Server fs) (method doc body response : Bytes) (pieces : List Arrival)
      (writes : List ℕ) (a : Attempt)
      → Carries pieces (request_for host port method doc body)
      → stream pieces ≡ client_text host port method (path_of doc) body
      → respond fs float vec home_page files_root s (request_for host port method doc body)
        ≡ ok (s', response)
      → Takes (length response) writes
      → Works is_ipv6 a host (client_text host port method (path_of doc) body)
      → (end : ClientSocket) × (handle_client fs float vec home_page files_root s
            (open_socket (all_pieces ((pieces, request_for host port method doc body) ∷ [])) writes)
          ≡ ok (s', end))
        × (end.closed ≡ true)
        × (stream a.receives ≡ end.sent
            → (send_http_request is_ipv6 a host port method (path_of doc) body).response
              ≡ some response)
  exchange_answered s s' method doc body response pieces writes a carries text answer takes works =
      let (end, handled, sent, closed) =
        conversation fs float vec home_page files_root
          ((pieces, request_for host port method doc body) ∷ []) s s' writes response (carries, tt)
          (serve_one fs float vec home_page files_root host port s s' method doc body response
            answer)
          takes in
      (
        end,
        handled,
        closed,
        λ e.
            send_http_request-succeeds is_ipv6 a host port method (path_of doc) body works.opens
              works.valid works.connects works.sends works.quiet
            ∙ ap some (e ∙ sent),
      )
