-- ===== src/HttpRequest/Written.antt =====
-- A request as HTTP clients write one, and what its parts have to be.
use semantic_search_engine.Base.{◌≢◌, List, [], ◌∷◌, ◌++◌, Option, none, some, Bytes, codes}
use semantic_search_engine.HttpRequest.{Headers}
use semantic_search_engine.HttpRequest.Headers.{set_field}
use semantic_search_engine.HttpResponse.{crlf}
use semantic_search_engine.HttpResponse.Framing.{NoCr}
use semantic_search_engine.Text.Lines.{Lacks}

-- "key: value" lines, and what follows them
abbrev pub fields_before : List (Bytes × Bytes) → Bytes → Bytes
fields_before [] rest = rest
fields_before ((key, val) ∷ fields) rest =
    (key ++ b':' ∷ b' ' ∷ val) ++ (crlf ++ fields_before fields rest)

-- "key: value" lines, an empty line and the body
abbrev pub fields_text : List (Bytes × Bytes) → Bytes → Bytes
fields_text fields body = fields_before fields (crlf ++ body)

abbrev pub first_line : Bytes → Bytes → Bytes
first_line method target = method ++ b' ' ∷ (target ++ b' ' ∷ codes "HTTP/1.1")

abbrev pub request_text : Bytes → Bytes → List (Bytes × Bytes) → Bytes → Bytes
request_text method target fields body =
    first_line method target ++ (crlf ++ fields_text fields body)

-- A path, and a query behind a '?' if there is one.
abbrev pub target_text : Bytes → Option Bytes → Bytes
target_text path none = path
target_text path (some query) = path ++ b'?' ∷ query

-- The headers that the fields set, the last of equal keys winning.
abbrev pub headers_of : List (Bytes × Bytes) → Headers → Headers
headers_of [] headers = headers
headers_of ((key, val) ∷ fields) headers = headers_of fields (set_field key val headers)

-- No line break in the text.
abbrev pub IsLine : Bytes → Type 0
IsLine l = NoCr l × Lacks 10 l

pub record IsField (field : Bytes × Bytes) : Type 0 where
  pub key_ne_nil : field.0 ≢ []
  pub key_colon : Lacks b':' field.0
  pub key_line : IsLine field.0
  pub value_line : IsLine field.1

-- a word of the first line
pub record IsWord (word : Bytes) : Type 0 where
  pub ne_nil : word ≢ []
  pub no_space : Lacks b' ' word
  pub line : IsLine word
