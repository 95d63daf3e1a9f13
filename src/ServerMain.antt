-- ===== src/ServerMain.antt =====
-- searchserver/searchserver.cpp: the arguments of `main`, and which of them start a server.
use semantic_search_engine.Base.{
  ℕ, zero, suc, ◌≤◌, ◌≡◌, inl, inr, refl, ap, sym, subst, ◌∙◌, Bool, true, false, List, [], ◌∷◌,
  Bytes, arith, if◌then◌else◌, Bool-cases, some,
}
use semantic_search_engine.Exception.{Result, ok, throws, ◌>>=◌}
use semantic_search_engine.HttpServer.Startup.{Setup, Start, exit_failure, start_up}
use semantic_search_engine.Text.Integer.{ℤ, at_least, stoi}

-- What the arguments lead to: a message and `EXIT_FAILURE`, or an `HttpServer` with a port, a root
-- and a number of threads.
pub data Launch : Type 0 where
  usage no_integer low_port no_directory : Launch
  serves : ℤ → Bytes → ℕ → Launch

-- the number of threads, from `std::thread::hardware_concurrency()`
unfoldable pub num_threads : ℕ → ℕ
num_threads zero = 4
num_threads (suc hw) = suc hw

unfoldable pub with_directory : ℕ → ℤ → Bytes → Bool → Launch
unfolding num_threads
with_directory hw port files_root is_dir =
    if is_dir then serves port files_root (num_threads hw) else no_directory

-- the test of the root
unfoldable pub check_root : ℕ → ℤ → Bytes → Result Bool → Result Launch
unfolding with_directory
check_root hw port files_root (throws e) = throws e
check_root hw port files_root (ok is_dir) = ok (with_directory hw port files_root is_dir)

-- the test of the port, in front of that
unfoldable pub check_port : (Bytes → Result Bool) → ℕ → Bytes → Result ℤ → Result Launch
unfolding check_root at_least
check_port is_directory hw files_root (throws e) = ok no_integer
check_port is_directory hw files_root (ok port) =
    if at_least 1024 port
    then check_root hw port files_root (is_directory files_root)
    else ok low_port

-- The tests of `main`, given `std::filesystem::is_directory`, which may throw, and the number of
-- hardware threads; the first of `argv` is the name of the program.
unfoldable pub launch : (Bytes → Result Bool) → ℕ → List Bytes → Result Launch
unfolding stoi check_port
launch is_directory hw (name ∷ port_text ∷ files_root ∷ rest) =
    check_port is_directory hw files_root (stoi port_text)
launch is_directory hw _ = ok usage

-- The outcome of `Run` where there is a server.
unfoldable pub launched : Setup → Launch → Start
unfolding start_up
launched setup (serves port files_root threads) = start_up setup port
launched setup usage = exit_failure []
launched setup no_integer = exit_failure []
launched setup low_port = exit_failure []
launched setup no_directory = exit_failure []

-- `main` up to the accept loop of `Run`
unfoldable pub serve_main : (Bytes → Result Bool) → ℕ → Setup → List Bytes → Result Start
unfolding launch launched
serve_main is_directory hw setup argv =
    launch is_directory hw argv >>= λ result. ok (launched setup result)

-- The arguments that start a server.
abbrev Starts : (Bytes → Result Bool) → ℕ → List Bytes → ℤ → Bytes → ℕ → Type 0
Starts is_directory hw argv port files_root threads =
    (name : Bytes) × (port_text : Bytes) × (rest : List Bytes) × (argv
      ≡ name ∷ port_text ∷ files_root ∷ rest)
    × (stoi port_text ≡ ok port)
    × (at_least 1024 port ≡ true)
    × (is_directory files_root ≡ ok true)
    × (threads ≡ num_threads hw)
    × (1 ≤ threads)

threads-le : (hw : ℕ) → 1 ≤ num_threads hw
unfolding num_threads
threads-le zero = omega arith
threads-le (suc hw) = omega arith

check_root-serves :
    (hw : ℕ) (i port : ℤ) (dir root : Bytes) (threads : ℕ) (r : Result Bool)
    → check_root hw i dir r ≡ ok (serves port root threads)
    → (i ≡ port) × (dir ≡ root) × (r ≡ ok true) × (threads ≡ num_threads hw)
unfolding check_root
check_root-serves hw i port dir root threads (throws x) e = cc
check_root-serves hw i port dir root threads (ok false) e = cc
check_root-serves hw i port dir root threads (ok true) e = (cc, cc, refl, cc)

check_port-serves :
    (is_directory : Bytes → Result Bool) (hw : ℕ) (port : ℤ) (dir root : Bytes) (threads : ℕ)
    (r : Result ℤ)
    → check_port is_directory hw dir r ≡ ok (serves port root threads)
    → (r ≡ ok port)
      × (at_least 1024 port ≡ true)
      × (dir ≡ root)
      × (is_directory root ≡ ok true)
      × (threads ≡ num_threads hw)
unfolding check_port
check_port-serves is_directory hw port dir root threads (throws x) e = cc
check_port-serves is_directory hw port dir root threads (ok i) e =
    elim (Bool-cases (at_least 1024 i)) [
      | inr q ↦ absurd (low (sym (ap choose q) ∙ e))
      | inl q ↦
          let (same, there, is_dir, t) =
            check_root-serves hw i port dir root threads (is_directory dir)
              (sym (ap choose q) ∙ e) in
          (
            ap ok same,
            sym (ap (at_least 1024) same) ∙ q,
            there,
            sym (ap is_directory there) ∙ is_dir,
            t,
          )
    ]
  where
    choose : Bool → Result Launch
    choose b = if b then check_root hw i dir (is_directory dir) else ok low_port

    low : ◌≡◌ {A = Result Launch} (ok low_port) (ok (serves port root threads)) → ⊥
    low h = cc

-- `main` starts a server only with a port that reads as an `int` of at least 1024 and a root that
-- is a directory; the server has that port and root, and at least one thread.
launch-Starts :
    (is_directory : Bytes → Result Bool) (hw : ℕ) (argv : List Bytes) (port : ℤ)
    (files_root : Bytes) (threads : ℕ)
    → launch is_directory hw argv ≡ ok (serves port files_root threads)
    → Starts is_directory hw argv port files_root threads
unfolding launch with_directory
launch-Starts is_directory hw [] port root threads e = cc
launch-Starts is_directory hw (a ∷ []) port root threads e = cc
launch-Starts is_directory hw (a ∷ b ∷ []) port root threads e = cc
launch-Starts is_directory hw (name ∷ text ∷ dir ∷ rest) port root threads e =
    let (p, large, there, is_dir, t) =
      check_port-serves is_directory hw port dir root threads (stoi text) e in
    (
      name,
      text,
      rest,
      ap (λ d. name ∷ text ∷ d ∷ rest) there,
      p,
      large,
      is_dir,
      t,
      subst (λ k. 1 ≤ k) (sym t) (threads-le hw),
    )

-- What `Run` asks the system for works.
abbrev pub all_work : Bytes → ℕ → Setup
all_work contents listen_fd = record {
  page_file = some contents;
  socket_fd = some listen_fd;
  binds = true;
  listens = true;
}
