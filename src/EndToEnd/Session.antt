-- ===== src/EndToEnd/Session.antt =====
-- A session of the client: `put` a document, then `get` it.
use semantic_search_engine.Base.{
  ℕ, ◌^◌, ◌<◌, ◌≡◌, refl, ap, ◌∙◌, Bool, true, false, List, [], ◌∷◌, ◌++◌, Option, some, Bytes,
  codes, arith, length, inl, inr,
}
use semantic_search_engine.EndToEnd.{served_request, after_upload, served_put, served_get}
use semantic_search_engine.SearchClient.Requests.{IsName, IsSized, Delivers}
use semantic_search_engine.Exception.{ok}
use semantic_search_engine.FileSystem.{FileSystem, WritesBack}
use semantic_search_engine.HttpRequest.Written.{IsLine}
use semantic_search_engine.HttpResponse.{make_response, is_success}
use semantic_search_engine.HttpServer.Float.{Float}
use semantic_search_engine.HttpServer.Rounds.{Takes}
use semantic_search_engine.Socket.{Arrival}
use semantic_search_engine.HttpServer.Routes.{Server, VectorSearch, after_put}
use semantic_search_engine.Map.{get_or}
use semantic_search_engine.SearchClient.Answer.{parse_status}
use semantic_search_engine.SearchClient.Answered.{answer_read}
use semantic_search_engine.SearchClient.Shell.{
  World, say, got_response, sent_response, run_line, run_lines, is_ok,
}
use semantic_search_engine.StaticFile.{
  check_within_root, static_get, static_put, put_response, content_type_for,
}
use semantic_search_engine.StaticFile.Writes.{static_put_cases, get-put}
use semantic_search_engine.Text.Integer.{pos, at_least}
use semantic_search_engine.EndToEnd.Commands.{
  IsTyped, content_type_for-NoCr, word_behind, last_word, put_response-is_ok, put_line, get_line,
  send_command_lem, get_command_lem, exchange_lem, sent_ok, got_body, run_two,
}

module _ (fs client_fs : FileSystem) (float : Float) (vec : VectorSearch float)
    (home_page files_root host : Bytes) (port : ℕ) (wire : Bytes → List Arrival)
    (writes : List ℕ) where
  -- The client's requests, answered by the server.
  abbrev pub remote_server : Server fs → Bytes → Bytes → Bytes → Server fs × Option Bytes
  remote_server = served_request fs float vec home_page files_root host port wire writes

  abbrev pub uploaded : Server fs → Bytes → Bytes → Server fs
  uploaded s doc contents =
      (after_upload fs float vec home_page files_root host port wire writes s doc contents).0

  abbrev pub uploads : Server fs → Bytes → Bytes → Server fs × Bytes
  uploads s doc contents =
      after_upload fs float vec home_page files_root host port wire writes s doc contents

  after_put-success :
      (s : Server fs) (doc contents : Bytes) (r : fs.State × Bytes)
      → is_success r.1 ≡ true
      → ((after_put fs s doc contents r).0.files ≡ r.0) × ((after_put fs s doc contents r).1 ≡ r.1)
  unfolding after_put
  after_put-success s doc contents r e = (rw (after_put, e) refl, rw (after_put, e) refl)

  put_answer :
      (s : Server fs) (doc contents : Bytes)
      → is_success (static_put fs s.files files_root doc contents true).1 ≡ true
      → (existed : Bool) × ((static_put fs s.files files_root doc contents true).1
          ≡ put_response existed)
  put_answer s doc contents e = elim (static_put_cases fs s.files files_root doc contents true) [
    | inl w ↦ (w.existed, ap (λ r. r.1) w.result_is)
    | inr refused ↦ cc (refused.1)
  ]

  -- The upload prints "OK", and leaves the server behind its PUT.
  put_runs :
      (w : World client_fs {R = Server fs} remote_server) (doc path contents : Bytes)
      → IsLine host
      → IsName doc
      → IsTyped path
      → client_fs.read w.local path ≡ some contents
      → length contents < 2 ^ 64
      → Delivers wire
      → IsSized host port (codes "PUT") doc contents
      → Takes (length (uploads w.remote doc contents).1) writes
      → is_success (static_put fs w.remote.files files_root doc contents true).1 ≡ true
      → run_line client_fs remote_server (codes "put " ++ (doc ++ b' ' ∷ path)) w
        ≡ some (
            say client_fs remote_server
              (codes "OK\n")
              (record w { remote = uploaded w.remote doc contents }))
  put_runs w doc path contents h name typed reads small net sized takes e =
      let (existed, answer) = put_answer w.remote doc contents e in
      let (same_files, same) =
        after_put-success w.remote doc contents
          (static_put fs w.remote.files files_root doc contents true) e in
      put_line client_fs remote_server (doc ++ b' ' ∷ path) w
      ∙ ap some (
          send_command_lem client_fs remote_server (b' ' ∷ (doc ++ b' ' ∷ path)) doc path contents w
            name.ne_nil typed.ne_nil (word_behind doc path name.ne_nil name.blankless)
            (last_word path typed.ne_nil typed.blankless) reads
          ∙ exchange_lem client_fs remote_server (codes "PUT") doc contents _
              (uploaded w.remote doc contents) (sent_response client_fs remote_server) w
              (served_put fs float vec home_page files_root host port wire writes w.remote doc
                contents net h name small sized takes)
          ∙ sent_ok client_fs remote_server _ (record w { remote = uploaded w.remote doc contents })
              (ap (λ r. is_ok (get_or (pos 0) (parse_status r))) (same ∙ answer)
                ∙ put_response-is_ok existed))

  -- The download prints the bytes of the file, and leaves the server alone.
  get_runs :
      (w : World client_fs {R = Server fs} remote_server) (doc contents : Bytes)
      → IsLine host
      → IsName doc
      → Delivers wire
      → IsSized host port (codes "GET") doc []
      → Takes (length (make_response 200 contents (content_type_for doc) [])) writes
      → static_get fs w.remote.files files_root doc
        ≡ ok (make_response 200 contents (content_type_for doc) [])
      → run_line client_fs remote_server (codes "get " ++ doc) w
        ≡ some (say client_fs remote_server (contents ++ codes "\n") w)
  get_runs w doc contents h name net sized takes e =
      let (status, body, reason) =
        answer_read 200 contents (content_type_for doc) [] (omega arith) (content_type_for-NoCr doc)
          (tt, tt) tt in
      get_line client_fs remote_server doc w
      ∙ ap some (
          get_command_lem client_fs remote_server (b' ' ∷ doc) doc w name.ne_nil
            (last_word doc name.ne_nil name.blankless)
          ∙ exchange_lem client_fs remote_server (codes "GET") doc []
              (make_response 200 contents (content_type_for doc) []) w.remote
              (got_response client_fs remote_server []) w
              (served_get fs float vec home_page files_root host port wire writes w.remote doc
                (make_response 200 contents (content_type_for doc) []) net h name sized e takes)
          ∙ got_body client_fs remote_server (make_response 200 contents (content_type_for doc) [])
              contents w (ap (λ c. at_least 400 (get_or (pos 0) c)) status ∙ below) body)
    where
      below : at_least 400 (pos 200) ≡ false
      below = unfold at_least in refl

  -- In a session of the client, `put` of a local file under a name and then `get` of that name
  -- print "OK" and the bytes of the file, whatever they are. Both requests go over the wire, cut and
  -- held up in any way, through the loop of `HandleClient`, which has to find the lengths of their
  -- bodies in their heads: the name and the host hold no "content-length:" of their own. It needs
  -- that the server's write succeeds, that the name still passes the check of its path, that the
  -- server's file system gives back what was written, and that each write on the connection takes
  -- something. The names have no white space, the name on the server no '?', the host no line break.
  pub put_then_get :
      (w : World client_fs {R = Server fs} remote_server) (doc path contents : Bytes)
      → IsLine host
      → IsName doc
      → IsTyped path
      → WritesBack fs doc
      → client_fs.read w.local path ≡ some contents
      → length contents < 2 ^ 64
      → Delivers wire
      → IsSized host port (codes "PUT") doc contents
      → IsSized host port (codes "GET") doc []
      → Takes (length (uploads w.remote doc contents).1) writes
      → Takes (length (make_response 200 contents (content_type_for doc) [])) writes
      → is_success (static_put fs w.remote.files files_root doc contents true).1 ≡ true
      → check_within_root fs
          (static_put fs w.remote.files files_root doc contents true).0
          files_root
          doc
        ≡ ok []
      → run_lines client_fs remote_server
          ((codes "put " ++ (doc ++ b' ' ∷ path)) ∷ (codes "get " ++ doc) ∷ [])
          w
        ≡ record w {
          remote = uploaded w.remote doc contents;
          out =
              (((w.out ++ codes ">> ") ++ codes "OK\n") ++ codes ">> ")
              ++ (contents ++ codes "\n")
              ++ codes ">> ";
        }
  put_then_get w doc path contents h name typed back reads small net sized sized' takes takes' e
        again =
      let (same_files, same) =
        after_put-success w.remote doc contents
          (static_put fs w.remote.files files_root doc contents true) e in
      run_two client_fs remote_server (codes "put " ++ (doc ++ b' ' ∷ path)) (codes "get " ++ doc) w
        _ _
        (put_runs (say client_fs remote_server (codes ">> ") w) doc path contents h name typed reads
          small net sized takes e)
        (get_runs _ doc contents h name net sized' takes' (
          ap (λ st. static_get fs st files_root doc) same_files
          ∙ get-put fs w.remote.files files_root doc contents true back e again))
