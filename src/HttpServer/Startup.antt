-- ===== src/HttpServer/Startup.antt =====
-- `HttpServer::HttpServer` and the part of `Run` in front of the accept loop.
use semantic_search_engine.Base.{
  ℕ, ◌+◌, Bool, not, List, [], ◌∷◌, ◌++◌, Option, none, some, Bytes, drop, if◌then◌else◌,
}
use semantic_search_engine.FileSystem.{FileSystem}
use semantic_search_engine.HttpServer.Routes.{Server}
use semantic_search_engine.InvertedIndex.{DirectoryEntry, build}
use semantic_search_engine.Text.{find, lines}
use semantic_search_engine.Text.Integer.{ℤ, to_uint16}
use semantic_search_engine.ThreadPool.{Pool, init}

-- `HttpServer`
pub record HttpServer (fs : FileSystem) : Type 0 where
  pub port : ℤ
  pub files_root : Bytes
  pub server : Server fs
  pub pool : Pool

-- The constructor; `entries` is what walking the directory `files_root` gives.
unfoldable pub construct :
    (fs : FileSystem) → fs.State → List DirectoryEntry → ℤ → Bytes → ℕ → HttpServer fs
unfolding build init
construct fs files entries port files_root num_threads = record {
  port = port;
  files_root = files_root;
  server = record { files = files; index = build entries; calls = [] };
  pool = init num_threads;
}

-- the loop that reads the home page
unfoldable pub joined_lines : List Bytes → Bytes
joined_lines [] = []
joined_lines (line ∷ ls) = line ++ 10 ∷ joined_lines ls

-- the home page: what follows the head of the file, or all of it
unfoldable pub strip_head : Bytes → Bytes
unfolding find
strip_head page = elim (find (10 ∷ 10 ∷ []) page) [ none ↦ page | some sep ↦ drop (sep + 2) page ]

unfoldable pub load_home_page : Bytes → Bytes
unfolding joined_lines strip_head lines
load_home_page contents = strip_head (joined_lines (lines 10 contents))

-- What the system answers while `Run` starts: the bytes of the file with the home page (`none`
-- where it does not open), the descriptor of `socket`, and whether `bind` and `listen` work.
pub record Setup : Type 0 where
  pub page_file : Option Bytes
  pub socket_fd : Option ℕ
  pub binds : Bool
  pub listens : Bool

-- `Run` returns `EXIT_FAILURE`, with the descriptors it closed; or it listens on a descriptor and a
-- port, with a home page.
pub data Start : Type 0 where
  exit_failure : List ℕ → Start
  listening : ℕ → ℕ → Bytes → Start

unfoldable pub start_on : Setup → ℤ → Bytes → Option ℕ → Start
unfolding to_uint16
start_on setup port home_page none = exit_failure []
start_on setup port home_page (some listen_fd) =
    if not setup.binds
    then exit_failure (listen_fd ∷ [])
    else if not setup.listens
    then exit_failure (listen_fd ∷ [])
    else listening listen_fd (to_uint16 port) home_page

-- `Run` up to line 506, for the port `m_port`
unfoldable pub start_up : Setup → ℤ → Start
unfolding start_on load_home_page
start_up setup port = elim setup.page_file [
  | none ↦ exit_failure []
  | some contents ↦ start_on setup port (load_home_page contents) setup.socket_fd
]
