-- ===== src/SearchClient/Shell.antt =====
-- The loop of `main` in searchserver/searchclient.cpp: the commands, over an exchange with the
-- server and the local files. `out` is what goes to the standard output.
use semantic_search_engine.Base.{
  ℕ, Bool, true, false, ◌&&◌, ◌||◌, not, List, [], ◌∷◌, ◌++◌, Option, none, some, Bytes, codes,
  if◌then◌else◌,
}
use semantic_search_engine.FileSystem.{FileSystem}
use semantic_search_engine.HttpServer.Routes.{equals}
use semantic_search_engine.Map.{get_or}
use semantic_search_engine.SearchClient.Answer.{parse_status, body_of, reason_of}
use semantic_search_engine.Text.{lines}
use semantic_search_engine.Text.Integer.{ℤ, pos, at_least}
use semantic_search_engine.Text.Number.{to_string}
use semantic_search_engine.Text.Words.{read_word}

-- `PrintHelp`
abbrev pub help_text : Bytes
help_text =
    codes "These requests modify the state of the underlying file system of the server\n"
    ++ (codes
          "  get <server_path>                -- requests the resource from the server and prints it to stdout/cout.\n"
        ++ (codes "  get <server_path> [local_path]   -- download resource (print or save)\n"
            ++ (codes "  delete <server_path>             -- delete remote resource\n"
                ++ (codes
                      "  post <server_path> <local_path>  -- upload new resource (fail if exists)\n"
                    ++ (codes "  put <server_path> <local_path>   -- upload/replace resource\n"
                        ++ (codes "  help                             -- this message\n"
                            ++ codes "  quit | exit                      -- quit\n"))))))

-- `std::cout << code`
unfoldable pub show_int : ℤ → Bytes
unfolding to_string
show_int (pos n) = to_string n
show_int (ℤ.negsuc n) = b'-' ∷ to_string (ℕ.suc n)

-- a status from 200 to 299
unfoldable pub is_ok : ℤ → Bool
unfolding at_least
is_ok code = at_least 200 code && not (at_least 300 code)

abbrev is_nil : Bytes → Bool
is_nil [] = true
is_nil (c ∷ s) = false

module _ (fs : FileSystem) {R : Type 0}
    (request : R → Bytes → Bytes → Bytes → R × Option Bytes) where
  -- What the client works on: the server behind its connections, the local files, the output.
  pub record World : Type 0 where
    pub remote : R
    pub local : fs.State
    pub out : Bytes

  abbrev pub say : Bytes → World → World
  say text w = record w { out = w.out ++ text }

  -- the end of `get`: the body is printed, or goes to the local file
  unfoldable pub save_body : Bytes → Bytes → World → World
  save_body [] body w = say (body ++ codes "\n") w
  save_body (c ∷ path) body w = elim (fs.truncate w.local (c ∷ path)) [
    | none ↦ say (codes "failed to open " ++ ((c ∷ path) ++ codes "\n")) w
    | some opened ↦
        say (codes "saved to " ++ ((c ∷ path) ++ codes "\n"))
          (record w { local = (fs.write opened (c ∷ path) body).0 })
  ]

  unfoldable pub got_response : Bytes → Bytes → World → World
  unfolding save_body parse_status body_of reason_of at_least
  got_response local_path http_response w =
      if at_least 400 (get_or (pos 0) (parse_status http_response))
      then say (reason_of http_response ++ codes "\n") w
      else save_body local_path (body_of http_response) w

  -- what a command does with the outcome of its request
  unfoldable pub exchanged : (Bytes → World → World) → World → R × Option Bytes → World
  exchanged next w (remote, none) = say (codes "request failed\n") (record w { remote = remote })
  exchanged next w (remote, some http_response) = next http_response (record w { remote = remote })

  -- the request of a command
  unfoldable pub exchange : Bytes → Bytes → Bytes → (Bytes → World → World) → World → World
  unfolding exchanged
  exchange method server_path body next w =
      exchanged next w (request w.remote method (codes "/static/" ++ server_path) body)

  unfoldable pub get_file : Bytes → Bytes → World → World
  unfolding exchange got_response
  get_file server_path local_path w =
      if is_nil server_path
      then say (codes "get requires <server_path>\n") w
      else exchange (codes "GET") server_path [] (got_response local_path) w

  -- "get"; `input` is the line behind the command
  unfoldable pub get_command : Bytes → World → World
  unfolding read_word get_file
  get_command input w = let words = read_word input in get_file words.0 (read_word words.1).0 w

  unfoldable pub deleted_response : Bytes → World → World
  unfolding parse_status is_ok show_int
  deleted_response http_response w = elim (parse_status http_response) [
    | none ↦ say (codes "failed to parse response\n") w
    | some code ↦
        if is_ok code
        then say (codes "OK\n") w
        else say (codes "HTTP " ++ (show_int code ++ codes "\n")) w
  ]

  -- "delete"
  unfoldable pub delete_command : Bytes → World → World
  unfolding read_word exchange deleted_response
  delete_command input w =
      let (server_path, rest) = read_word input in
      if is_nil server_path
      then say (codes "delete requires <server_path>\n") w
      else exchange (codes "DELETE") server_path [] deleted_response w

  unfoldable pub sent_response : Bytes → World → World
  unfolding parse_status is_ok reason_of
  sent_response http_response w =
      if is_ok (get_or (pos 0) (parse_status http_response))
      then say (codes "OK\n") w
      else say (reason_of http_response ++ codes "\n") w

  unfoldable pub method_of : Bytes → Bytes
  method_of command = if equals command (codes "post") then codes "POST" else codes "PUT"

  unfoldable pub send_file : Bytes → Bytes → Bytes → World → World
  unfolding exchange sent_response method_of
  send_file command server_path local_path w =
      if is_nil server_path || is_nil local_path
      then say (command ++ codes " requires <server_path> <local_path>\n") w
      else elim (fs.read w.local local_path) [
        | none ↦ say (codes "failed to open " ++ (local_path ++ codes "\n")) w
        | some contents ↦ exchange (method_of command) server_path contents sent_response w
      ]

  -- "post" and "put"
  unfoldable pub send_command : Bytes → Bytes → World → World
  unfolding read_word send_file
  send_command command input w =
      let words = read_word input in send_file command words.0 (read_word words.1).0 w

  -- A round of the loop at a line, where `none` ends the loop.
  unfoldable pub run_line : Bytes → World → Option World
  unfolding read_word get_command delete_command send_command
  run_line [] w = some w
  run_line (c ∷ line) w =
      let (command, input) = read_word (c ∷ line) in
      if equals command (codes "quit") || equals command (codes "exit")
      then none
      else if equals command (codes "help")
      then some (say help_text w)
      else if equals command (codes "get")
      then some (get_command input w)
      else if equals command (codes "delete")
      then some (delete_command input w)
      else if equals command (codes "post") || equals command (codes "put")
      then some (send_command command input w)
      else some (say (codes "unknown command: " ++ (command ++ codes " (type help)\n")) w)

  -- The loop over the lines of the standard input, with its prompt in front of each.
  unfoldable pub run_lines : List Bytes → World → World
  unfolding run_line
  run_lines [] w = say (codes ">> ") w
  run_lines (line ∷ ls) w = elim (run_line line (say (codes ">> ") w)) [
    | none ↦ say (codes ">> ") w
    | some w' ↦ run_lines ls w'
  ]

  -- The part of `main` behind its arguments.
  unfoldable pub shell : Bytes → World → World
  unfolding run_lines lines
  shell stdin w = run_lines (lines 10 stdin) (say help_text w)
