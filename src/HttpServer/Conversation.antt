-- ===== src/HttpServer/Conversation.antt =====
-- The loop of `HandleClient` against a client that sends one request after the other.
use semantic_search_engine.Base.{
  ℕ, zero, suc, ◌≡◌, ◌≤◌, ◌<◌, refl, ap, sym, subst, ◌∙◌, true, List, [], ◌∷◌, ◌++◌, append_assoc,
  append-nil, Bytes, arith, length, length-append, map, inl, inr,
}
use semantic_search_engine.Exception.{Result, ok, throws, filesystem_error, ◌>>=◌, ok_injective}
use semantic_search_engine.FileSystem.{FileSystem}
use semantic_search_engine.HttpRequest.{Request}
use semantic_search_engine.HttpResponse.{blank_line}
use semantic_search_engine.HttpServer.Chunks.{
  read_raw_request_whole, read_raw_request_nothing, empty_lacks, has_blank_line-some,
}
use semantic_search_engine.HttpServer.Connection.{
  open_socket, ClientSocket, send_on, client_round, client_loop, handle_client,
}
use semantic_search_engine.HttpServer.Float.{Float}
use semantic_search_engine.HttpServer.Frames.{weight-append}
use semantic_search_engine.HttpServer.Reading.{read_raw_request}
use semantic_search_engine.HttpServer.Routes.{Server, VectorSearch}
use semantic_search_engine.Socket.{
  Arrival, weight, stream, IsLive, IsLive-append, stream-append, stream-le-weight,
}
use semantic_search_engine.Text.Search.{find_grow}
use semantic_search_engine.HttpServer.Rounds.{
  all_pieces, AllCarry, Takes, serve_all, send_on-Takes, plus_zero, client_round_stops,
  client_round_answers, answer_closes, answer_goes_on, serve_all_head,
}

module _ (fs : FileSystem) (float : Float) (vec : VectorSearch float)
    (home_page files_root : Bytes) where
  -- The state that is wanted, and the bytes sent.
  abbrev Answered : Server fs → Bytes → ClientSocket → Result (Server fs × ClientSocket) → Type 0
  Answered s' out sock result =
      (end : ClientSocket) × (result ≡ ok (s', end)) × (end.sent ≡ sock.sent ++ out)

  Answered-end :
      (spent : Result (Server fs × ClientSocket)) (fuel : ℕ) (s s' : Server fs)
      (sock : ClientSocket) (out : Bytes)
      → 0 < fuel
      → IsLive sock.reads
      → stream sock.reads ≡ []
      → ◌≡◌ {A = Result (Server fs × Bytes)} (ok (s, [])) (ok (s', out))
      → Answered s' out sock (client_loop fs float vec home_page files_root spent fuel s sock)
  unfolding client_loop
  Answered-end spent zero s s' sock out f live e h = absurd (omega (arith, f))
  Answered-end spent (suc fuel) s s' sock out f live e h =
      let (rest, q) = read_raw_request_nothing sock.reads live e in
      (
        record sock { reads = rest },
        client_round_stops fs float vec home_page files_root
              (client_loop fs float vec home_page files_root spent fuel) s sock [] rest q
              empty_lacks
            ∙ ap (λ x. ok (x.0, record sock { reads = rest })) (ok_injective h),
        sym (append-nil sock.sent) ∙ ap (λ x. sock.sent ++ x.1) (ok_injective h),
      )

  loop_round :
      (spent : Result (Server fs × ClientSocket)) (fuel : ℕ) (s : Server fs) (sock : ClientSocket)
      → client_loop fs float vec home_page files_root spent (suc fuel) s sock
        ≡ client_round fs float vec home_page files_root
            (client_loop fs float vec home_page files_root spent fuel)
            s
            sock
  unfolding client_loop
  loop_round spent fuel s sock = refl

  client_loop-Answered :
      (spent : Result (Server fs × ClientSocket)) (rs : List (List Arrival × Request)) (fuel : ℕ)
      (s s' : Server fs) (sock : ClientSocket) (junk : List Arrival) (out : Bytes)
      → length rs < fuel
      → AllCarry rs
      → IsLive junk
      → stream junk ≡ []
      → sock.reads ≡ junk ++ all_pieces rs
      → serve_all fs float vec home_page files_root s (map (λ p. p.1) rs) ≡ ok (s', out)
      → Takes (length out) sock.writes
      → Answered s' out sock (client_loop fs float vec home_page files_root spent fuel s sock)
  client_loop-Answered spent [] fuel s s' sock junk out f c live e q h t =
      Answered-end spent fuel s s' sock out (omega (arith, f))
        (subst IsLive (sym (append-nil junk) ∙ sym q) live) (ap stream (q ∙ append-nil junk) ∙ e)
        (unfold serve_all in h)
  client_loop-Answered spent ((pieces, r) ∷ rs) zero s s' sock junk out f c live e q h t =
      absurd (omega (arith, f))
  client_loop-Answered spent ((pieces, r) ∷ rs) (suc fuel) s s' sock junk out f (c, cs) live e q h
        t =
      let (rest, read, ended, live') =
        read_raw_request_whole (junk ++ pieces) (all_pieces rs) c.head c.body c.place c.declared
          (IsLive-append junk pieces live c.live)
          (stream-append junk pieces ∙ ap (λ x. x ++ stream pieces) e ∙ c.whole) c.blank c.ends
          c.declares c.fits in
      let (answered, p, cases) =
        serve_all_head fs float vec home_page files_root s s' r (map (λ x. x.1) rs) out h in
      let here = record sock { reads = rest ++ all_pieces rs } in
      let round =
        client_round_answers fs float vec home_page files_root
          (client_loop fs float vec home_page files_root spent fuel) s sock (c.head ++ c.body)
          (rest ++ all_pieces rs) r
          (ap read_raw_request (q ∙ sym (append_assoc junk pieces (all_pieces rs))) ∙ read)
          (has_blank_line-some _ c.place (find_grow blank_line c.head c.body c.place c.blank))
          c.parses in
      elim cases [
        | inl (w, a) ↦
            let (sent, takes, same) = send_on-Takes here answered.1 0 (
              subst (λ n. Takes n sock.writes)
                (ap length (sym (ap (λ x. x.1) a)) ∙ plus_zero answered.1) t) in
            (
              send_on here answered.1,
              loop_round spent fuel s sock
                  ∙ round
                  ∙ answer_closes fs float vec home_page files_root
                      (client_loop fs float vec home_page files_root spent fuel) s here r answered p
                      w
                  ∙ ap (λ x. ok (x.0, send_on here answered.1)) a,
              sent ∙ ap (λ x. sock.sent ++ x.1) a,
            )
        | inr (w, (more, later, o)) ↦
            let (sent, takes, same) =
              send_on-Takes here answered.1 (length more) (
                subst (λ n. Takes n sock.writes) (ap length o ∙ length-append answered.1 more) t) in
            let (end, done, all_sent) =
              client_loop-Answered spent rs fuel answered.0 s' (send_on here answered.1) rest more
                (omega (arith, f)) cs live' ended same later takes in
            (
              end,
              loop_round spent fuel s sock
                  ∙ round
                  ∙ answer_goes_on fs float vec home_page files_root
                      (client_loop fs float vec home_page files_root spent fuel) s here r answered p
                      w
                  ∙ done,
              all_sent
                  ∙ ap (λ x. x ++ more) sent
                  ∙ append_assoc sock.sent answered.1 more
                  ∙ ap (λ x. sock.sent ++ x) (sym o),
            )
      ]

  weight-pieces :
      (rs : List (List Arrival × Request)) → AllCarry rs → length rs ≤ weight (all_pieces rs)
  weight-pieces [] c = omega arith
  weight-pieces ((pieces, r) ∷ rs) (c, cs) = omega (
    arith,
    weight-append pieces (all_pieces rs),
    weight-pieces rs cs,
    stream-le-weight pieces,
    ap length c.whole,
    length-append c.head c.body,
    c.ends,
  )

  -- A client that sends its requests one after the other, each cut into pieces in any way and held
  -- up by any interruptions, gets their responses in the same order, up to the first that asks to
  -- close the connection, which is then closed. The server ends in the state that the requests
  -- lead to. It needs that no request makes the server throw, and that each write takes something.
  pub conversation :
      (rs : List (List Arrival × Request)) (s s' : Server fs) (writes : List ℕ) (out : Bytes)
      → AllCarry rs
      → serve_all fs float vec home_page files_root s (map (λ p. p.1) rs) ≡ ok (s', out)
      → Takes (length out) writes
      → (end : ClientSocket) × (handle_client fs float vec home_page files_root s
            (open_socket (all_pieces rs) writes)
          ≡ ok (s', end))
        × (end.sent ≡ out)
        × (end.closed ≡ true)
  unfolding handle_client
  conversation rs s s' writes out c h t =
      let sock = open_socket (all_pieces rs) writes in
      let (end, e, sent) =
        client_loop-Answered (throws filesystem_error) rs (suc (weight (all_pieces rs))) s s' sock
          [] out (omega (arith, weight-pieces rs c)) c tt refl refl h t in
      (
        record end { closed = true },
        ap (λ x. x >>= λ done. ok (done.0, record (done.1) { closed = true })) e,
        sent,
        refl,
      )
