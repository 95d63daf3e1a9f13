-- ===== src/SearchClient/Main.antt =====
-- The arguments of `main` in searchserver/searchclient.cpp.
use semantic_search_engine.Base.{ℕ, List, ◌∷◌, Bytes, if◌then◌else◌}
use semantic_search_engine.Exception.{ok, throws}
use semantic_search_engine.Text.Integer.{at_least, to_uint16, stoi}

-- What the arguments lead to: a message and `EXIT_FAILURE`, or a session with a host and a port.
pub data Session : Type 0 where
  usage no_integer port_too_low : Session
  session : Bytes → ℕ → Session

-- The tests of `main`; the first of `argv` is the name of the program.
unfoldable pub client_session : List Bytes → Session
unfolding stoi at_least to_uint16
client_session (name ∷ host ∷ port ∷ rest) = elim (stoi port) [
  | throws e ↦ no_integer
  | ok port_int ↦ if at_least 1024 port_int then session host (to_uint16 port_int) else port_too_low
]
client_session _ = usage
