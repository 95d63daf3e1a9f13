-- ===== src/EndToEnd.antt =====
-- The client of searchserver/searchclient.cpp with the server of searchserver/HttpServer.cpp behind
-- its connections: what becomes of one request, and of the documents that the client sends.
pub mod Commands
pub mod Session
pub mod Wire
use semantic_search_engine.Base.{
  ℕ, ◌^◌, ◌<◌, ◌≡◌, ◌≢◌, refl, ap, sym, subst, ◌∙◌, Bool, true, false, List, append-nil, [], ◌∷◌,
  ◌++◌, Option, none, some, Bytes, codes, arith, All, All-append, drop, length, bytes_discrete,
  ℕ_discrete, inl, inr,
}
use semantic_search_engine.Exception.{Result, ok, throws, ◌>>=◌}
use semantic_search_engine.FileSystem.{FileSystem, WritesBack}
use semantic_search_engine.HttpRequest.{Request, parse_request, split_target}
use semantic_search_engine.HttpRequest.Written.{headers_of, request_text, IsWord, IsLine}
use semantic_search_engine.HttpResponse.{make_response, is_success}
use semantic_search_engine.HttpServer.Chunks.{Declares}
use semantic_search_engine.HttpServer.Connection.{ClientSocket, open_socket, handle_client}
use semantic_search_engine.HttpServer.Conversation.{conversation}
use semantic_search_engine.HttpServer.Float.{Float}
use semantic_search_engine.HttpServer.Rounds.{Carries, Takes, serve_next, serve_all}
use semantic_search_engine.HttpRequest.Head.{request_text-append, head_ends}
use semantic_search_engine.Map
use semantic_search_engine.Map.{get_or}
use semantic_search_engine.Socket.{Arrival, stream, IsLive}
use semantic_search_engine.Text
use semantic_search_engine.HttpServer.Routes.{
  Server, VectorSearch, respond, handle_get_request, handle_static_mutation, after_put, wants_close,
}
use semantic_search_engine.SearchClient.{
  client_text, client_fields, parse-client_text, client_text-request_text, client_fields-IsField,
}
use semantic_search_engine.StaticFile.{
  check_within_root, static_get, static_put, put_response, content_type_for,
}
use semantic_search_engine.StaticFile.Writes.{static_put_cases, get-put}
use semantic_search_engine.Text.{starts_with, find_char, is_space}
use semantic_search_engine.Text.Lines.{Lacks}
use semantic_search_engine.Text.Search.{find_char-Lacks}
use semantic_search_engine.Text.Words.{IsBlankless}
use semantic_search_engine.SearchClient.Requests.{
  IsName, path_of, request_for, put-IsWord, get-IsWord, client-closes, IsSized, Delivers,
  client-Carries,
}

module _ (fs : FileSystem) (float : Float) (vec : VectorSearch float) (home_page files_root : Bytes)
    (host : Bytes) (port : ℕ) where
  pub serve_one :
      (s s' : Server fs) (method doc body response : Bytes)
      → respond fs float vec home_page files_root s (request_for host port method doc body)
        ≡ ok (s', response)
      → serve_all fs float vec home_page files_root s (request_for host port method doc body ∷ [])
        ≡ ok (s', response)
  unfolding serve_all
  serve_one s s' method doc body response e =
      ap
        (λ x.
          x
          >>= serve_next fs float vec home_page files_root
              (λ t. serve_all fs float vec home_page files_root t [])
              (wants_close (request_for host port method doc body)))
        e
      ∙ ap
          (λ b.
            serve_next fs float vec home_page files_root
              (λ t. serve_all fs float vec home_page files_root t []) b (s', response))
          (client-closes host port method doc body)

module _ (fs : FileSystem) (float : Float) (vec : VectorSearch float) (home_page files_root : Bytes)
    (host : Bytes) (port : ℕ) (wire : Bytes → List Arrival) (writes : List ℕ) where
  abbrev to_remote : Server fs → Result (Server fs × ClientSocket) → Server fs × Option Bytes
  to_remote s (ok (s', sock)) = (s', some sock.sent)
  to_remote s (throws e) = (s, none)

  -- One request of the client to a server that is idle: the text that the client writes goes over
  -- the wire, a worker handles the connection, and the client gets what that sends before it
  -- closes. An exception ends the server with no response.
  unfoldable pub served_request : Server fs → Bytes → Bytes → Bytes → Server fs × Option Bytes
  unfolding handle_client
  served_request s method path body = to_remote s (
      handle_client fs float vec home_page files_root s
        (open_socket (wire (client_text host port method path body)) writes))

  served_one :
      (s s' : Server fs) (method doc body response : Bytes)
      → Delivers wire
      → IsLine host
      → IsWord method
      → IsName doc
      → length body < 2 ^ 64
      → IsSized host port method doc body
      → respond fs float vec home_page files_root s (request_for host port method doc body)
        ≡ ok (s', response)
      → Takes (length response) writes
      → served_request s method (path_of doc) body ≡ (s', some response)
  unfolding served_request
  served_one s s' method doc body response net h m name small sized answer takes =
      let text = client_text host port method (path_of doc) body in
      let (end, handled, sent, closed) =
        conversation fs float vec home_page files_root
          ((wire text, request_for host port method doc body) ∷ []) s s' writes response
          (
            client-Carries (wire text) host port method doc body (net text).0 (net text).1 h m name
                small sized,
            tt,
          )
          (serve_one fs float vec home_page files_root host port s s' method doc body response
            answer)
          takes in
      ap
        (λ x.
          to_remote s (handle_client fs float vec home_page files_root s (open_socket x writes)))
        (sym (append-nil (wire text)))
      ∙ ap (to_remote s) handled
      ∙ ap (λ x. (s', some x)) sent

  -- The state behind a PUT of a document, if that succeeds.
  abbrev pub after_upload : Server fs → Bytes → Bytes → Server fs × Bytes
  after_upload s doc contents =
      after_put fs s doc contents (static_put fs s.files files_root doc contents true)

  respond-put :
      (s : Server fs) (doc contents : Bytes)
      → respond fs float vec home_page files_root s
          (request_for host port (codes "PUT") doc contents)
        ≡ ok (after_upload s doc contents)
  unfolding respond handle_static_mutation bytes_discrete ℕ_discrete starts_with
  respond-put s doc contents = refl

  pub served_put :
      (s : Server fs) (doc contents : Bytes)
      → Delivers wire
      → IsLine host
      → IsName doc
      → length contents < 2 ^ 64
      → IsSized host port (codes "PUT") doc contents
      → Takes (length (after_upload s doc contents).1) writes
      → served_request s (codes "PUT") (path_of doc) contents
        ≡ ((after_upload s doc contents).0, some (after_upload s doc contents).1)
  served_put s doc contents net h name small sized takes =
      served_one s (after_upload s doc contents).0 (codes "PUT") doc contents
        (after_upload s doc contents).1 net h put-IsWord name small sized
        (respond-put s doc contents) takes

  respond-get :
      (s : Server fs) (doc response : Bytes)
      → static_get fs s.files files_root doc ≡ ok response
      → respond fs float vec home_page files_root s (request_for host port (codes "GET") doc [])
        ≡ ok (s, response)
  unfolding respond handle_get_request bytes_discrete ℕ_discrete starts_with
  respond-get s doc response e = ap (λ x. x >>= λ resp. ok (s, resp)) e

  pub served_get :
      (s : Server fs) (doc response : Bytes)
      → Delivers wire
      → IsLine host
      → IsName doc
      → IsSized host port (codes "GET") doc []
      → static_get fs s.files files_root doc ≡ ok response
      → Takes (length response) writes
      → served_request s (codes "GET") (path_of doc) [] ≡ (s, some response)
  served_get s doc response net h name sized e takes =
      served_one s s (codes "GET") doc [] response net h get-IsWord name (omega arith) sized
        (respond-get s doc response e) takes
