-- ===== src/HttpServer/Interface.antt =====
-- searchserver/HttpServer.hpp: the class with what its comments promise, and that the server of
-- searchserver/HttpServer.cpp keeps it.
use semantic_search_engine.Base.{
  ℕ, ◌≡◌, ◌⊎◌, inl, inr, refl, ap, false, List, [], ◌∷◌, none, some, Bytes, Bool-cases,
  Option-cases,
}
use semantic_search_engine.FileSystem.{FileSystem}
use semantic_search_engine.HttpServer.Listener.{Event}
use semantic_search_engine.HttpServer.Routes.{Server}
use semantic_search_engine.HttpServer.Serving.{Running, failed, running_from, run_server}
use semantic_search_engine.HttpServer.Startup.{
  HttpServer, construct, Setup, exit_failure, load_home_page, start_on, start_up,
}
use semantic_search_engine.InvertedIndex.{DirectoryEntry}
use semantic_search_engine.InvertedIndex.Corpus.{walked, build-Represents}
use semantic_search_engine.InvertedIndex.Search.{Represents}
use semantic_search_engine.Text.Integer.{ℤ}

-- A call of the start of `Run` that does not work: its file, its socket, `bind` or `listen`.
abbrev pub IsBroken : Setup → Type 0
IsBroken setup =
    (setup.page_file ≡ none)
    ⊎ (setup.socket_fd ≡ none)
    ⊎ (setup.binds ≡ false)
    ⊎ (setup.listens ≡ false)

-- The descriptors that were opened by then.
abbrev pub opened : Setup → List ℕ
opened setup = elim setup.page_file [
  | none ↦ []
  | some contents ↦ elim setup.socket_fd [ none ↦ [] | some fd ↦ fd ∷ [] ]
]

-- `HttpServer`, which owns its files and index.
pub record ServerClass (fs : FileSystem) : Type 1 where
  pub Instance : Type 0
  pub server : Instance → Server fs
  -- the port, the root with what walking it gives, and the number of workers
  pub construct : fs.State → List DirectoryEntry → ℤ → Bytes → ℕ → Instance
  pub run : Instance → Setup → List Event → Running
  -- it owns an index built from the root
  pub indexes :
      (files : fs.State) (entries : List DirectoryEntry) (port : ℤ) (files_root : Bytes)
      (num_threads : ℕ)
      → Represents
          (server (construct files entries port files_root num_threads)).index
          (walked entries)
  -- a fatal error ends `Run` with a failure, and what it had opened is closed
  pub fatal :
      (s : Instance) (setup : Setup) (es : List Event)
      → IsBroken setup
      → run s setup es ≡ failed (opened setup)

start_on-fails :
    (setup : Setup) (port : ℤ) (page : Bytes) (fd : ℕ)
    → (setup.binds ≡ false) ⊎ (setup.listens ≡ false)
    → start_on setup port page (some fd) ≡ exit_failure (fd ∷ [])
unfolding start_on
start_on-fails setup port page fd (inl b) = rw (start_on, b) refl
start_on-fails setup port page fd (inr l) = elim (Bool-cases setup.binds) [
  | inl b ↦ rw (start_on, b, l) refl
  | inr b ↦ rw (start_on, b) refl
]

start_up-fails :
    (setup : Setup) (port : ℤ) → IsBroken setup → start_up setup port ≡ exit_failure (opened setup)
unfolding start_up
start_up-fails setup port broken = elim (Option-cases setup.page_file) [
  | inl p ↦ rw (start_up, p) refl
  | inr (contents, p) ↦ elim (Option-cases setup.socket_fd) [
    | inl q ↦ rw (start_up, p, q, start_on) refl
    | inr (fd, q) ↦ elim broken [
      | inl n ↦ cc (n, p)
      | inr (inl n) ↦ cc (n, q)
      | inr (inr h) ↦ rw (start_up, p, q) (start_on-fails setup port (load_home_page contents) fd h)
    ]
  ]
]

abbrev http_server : (fs : FileSystem) → ServerClass fs
http_server fs = record {
  Instance = HttpServer fs;
  server = λ s. s.server;
  construct = construct fs;
  run = run_server fs;
  indexes =
      λ files entries port files_root num_threads. unfold construct in build-Represents entries;
  fatal = λ s setup es h.
      unfold run_server in ap (running_from s.files_root es) (start_up-fails setup s.port h);
}
