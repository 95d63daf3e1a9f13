-- ===== src/EndToEnd/Commands.antt =====
-- What the commands `put` and `get` of the client do at the words of a line.
use semantic_search_engine.Base.{
  ◌≡◌, ◌≢◌, refl, ap, sym, ◌∙◌, Bool, true, false, [], ◌∷◌, ◌++◌, append-nil, Option, some, Bytes,
  codes, arith, bytes_discrete, ℕ_discrete,
}
use semantic_search_engine.SearchClient.Requests.{path_of}
use semantic_search_engine.FileSystem.{FileSystem}
use semantic_search_engine.HttpResponse.Framing.{NoCr}
use semantic_search_engine.Map.{get_or}
use semantic_search_engine.SearchClient.Answer.{parse_status, body_of}
use semantic_search_engine.SearchClient.Answered.{answer_read}
use semantic_search_engine.SearchClient.Shell.{
  World, say, save_body, got_response, exchanged, exchange, get_file, get_command, sent_response,
  send_file, method_of, send_command, run_line, run_lines, is_ok,
}
use semantic_search_engine.StaticFile.{put_response, content_type_for}
use semantic_search_engine.Text.Integer.{pos, at_least}
use semantic_search_engine.Text.Words.{read_word, IsBlankless, read_word-append, read_word-space}

-- A local path that the client can type.
pub record IsTyped (path : Bytes) : Type 0 where
  pub ne_nil : path ≢ []
  pub blankless : IsBlankless path

pub content_type_for-NoCr : (p : Bytes) → NoCr (content_type_for p)
unfolding content_type_for
content_type_for-NoCr p = ground arith

-- The word behind a blank, up to the next blank.
pub word_behind :
    (w rest : Bytes)
    → w ≢ []
    → IsBlankless w
    → read_word (b' ' ∷ (w ++ b' ' ∷ rest)) ≡ (w, b' ' ∷ rest)
word_behind w rest ne h =
    read_word-space b' ' (w ++ b' ' ∷ rest) refl ∙ read_word-append w (b' ' ∷ rest) ne h refl

-- The last word of a line.
pub last_word : (w : Bytes) → w ≢ [] → IsBlankless w → read_word (b' ' ∷ w) ≡ (w, [])
last_word w ne h =
    read_word-space b' ' w refl ∙ ap read_word (sym (append-nil w)) ∙ read_word-append w [] ne h tt

no_word : read_word [] ≡ ([], [])
unfolding read_word
no_word = refl

pub put_response-is_ok :
    (existed : Bool) → is_ok (get_or (pos 0) (parse_status (put_response existed))) ≡ true
unfolding put_response is_ok
put_response-is_ok true =
    ap (λ c. is_ok (get_or (pos 0) c))
      (answer_read 200 [] (codes "text/plain") (codes "OK") (omega arith) (omega arith)
        (omega arith, omega arith) (omega arith)).0
put_response-is_ok false =
    ap (λ c. is_ok (get_or (pos 0) c))
      (answer_read 201 [] (codes "text/plain") (codes "Created") (omega arith) (omega arith)
        (omega arith, omega arith) (omega arith)).0

module _ (client_fs : FileSystem) {R : Type 0}
    (request : R → Bytes → Bytes → Bytes → R × Option Bytes) where
  pub put_line :
      (input : Bytes) (w : World client_fs {R = R} request)
      → run_line client_fs request (codes "put " ++ input) w
        ≡ some (send_command client_fs request (codes "put") (b' ' ∷ input) w)
  unfolding run_line bytes_discrete ℕ_discrete read_word
  put_line input w = refl

  pub get_line :
      (input : Bytes) (w : World client_fs {R = R} request)
      → run_line client_fs request (codes "get " ++ input) w
        ≡ some (get_command client_fs request (b' ' ∷ input) w)
  unfolding run_line bytes_discrete ℕ_discrete read_word
  get_line input w = refl

  send_file_lem :
      (doc path contents : Bytes) (w : World client_fs {R = R} request)
      → doc ≢ []
      → path ≢ []
      → client_fs.read w.local path ≡ some contents
      → send_file client_fs request (codes "put") doc path w
        ≡ exchange client_fs request (codes "PUT") doc contents (sent_response client_fs request) w
  unfolding send_file method_of bytes_discrete ℕ_discrete
  send_file_lem [] path contents w n m r = absurd (n refl)
  send_file_lem (d ∷ doc) [] contents w n m r = absurd (m refl)
  send_file_lem (d ∷ doc) (c ∷ path) contents w n m r = rw r refl

  pub send_command_lem :
      (input doc path contents : Bytes) (w : World client_fs {R = R} request)
      → doc ≢ []
      → path ≢ []
      → read_word input ≡ (doc, b' ' ∷ path)
      → read_word (b' ' ∷ path) ≡ (path, [])
      → client_fs.read w.local path ≡ some contents
      → send_command client_fs request (codes "put") input w
        ≡ exchange client_fs request (codes "PUT") doc contents (sent_response client_fs request) w
  unfolding send_command
  send_command_lem input doc path contents w n m e e' r =
      ap (λ x. send_file client_fs request (codes "put") x.0 (read_word x.1).0 w) e
      ∙ ap (λ x. send_file client_fs request (codes "put") doc x.0 w) e'
      ∙ send_file_lem doc path contents w n m r

  get_file_lem :
      (doc : Bytes) (w : World client_fs {R = R} request)
      → doc ≢ []
      → get_file client_fs request doc [] w
        ≡ exchange client_fs request (codes "GET") doc [] (got_response client_fs request []) w
  unfolding get_file
  get_file_lem [] w n = absurd (n refl)
  get_file_lem (d ∷ doc) w n = refl

  pub get_command_lem :
      (input doc : Bytes) (w : World client_fs {R = R} request)
      → doc ≢ []
      → read_word input ≡ (doc, [])
      → get_command client_fs request input w
        ≡ exchange client_fs request (codes "GET") doc [] (got_response client_fs request []) w
  unfolding get_command
  get_command_lem input doc w n e =
      ap (λ x. get_file client_fs request x.0 (read_word x.1).0 w) e
      ∙ ap (λ x. get_file client_fs request doc x.0 w) no_word
      ∙ get_file_lem doc w n

  -- A request with a response.
  pub exchange_lem :
      (method doc body response : Bytes) (r : R)
      (next : Bytes → World client_fs {R = R} request → World client_fs {R = R} request)
      (w : World client_fs {R = R} request)
      → request w.remote method (path_of doc) body ≡ (r, some response)
      → exchange client_fs request method doc body next w ≡ next response (record w { remote = r })
  unfolding exchange exchanged
  exchange_lem method doc body response r next w e = ap (exchanged client_fs request next w) e

  pub sent_ok :
      (response : Bytes) (w : World client_fs {R = R} request)
      → is_ok (get_or (pos 0) (parse_status response)) ≡ true
      → sent_response client_fs request response w ≡ say client_fs request (codes "OK\n") w
  unfolding sent_response
  sent_ok response w e = rw (sent_response, e) refl

  pub got_body :
      (response body : Bytes) (w : World client_fs {R = R} request)
      → at_least 400 (get_or (pos 0) (parse_status response)) ≡ false
      → body_of response ≡ body
      → got_response client_fs request [] response w ≡ say client_fs request (body ++ codes "\n") w
  unfolding got_response save_body
  got_body response body w e e' = rw (got_response, e, e') refl

  -- Two lines and the end of the input.
  pub run_two :
      (first second : Bytes) (w w1 w2 : World client_fs {R = R} request)
      → run_line client_fs request first (say client_fs request (codes ">> ") w) ≡ some w1
      → run_line client_fs request second (say client_fs request (codes ">> ") w1) ≡ some w2
      → run_lines client_fs request (first ∷ second ∷ []) w ≡ say client_fs request (codes ">> ") w2
  unfolding run_lines
  run_two first second w w1 w2 e e' = rw (run_lines, e, e') refl
