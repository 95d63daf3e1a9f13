-- ===== src/SearchClient/Requests.antt =====
-- The requests of the client for documents: what the server parses, and the pieces that carry them.
use semantic_search_engine.Base.{
  ℕ, ◌^◌, ◌<◌, ◌≡◌, ◌≢◌, refl, ap, sym, ◌∙◌, true, false, List, [], ◌∷◌, ◌++◌, Option, none, Bytes,
  codes, arith, All-append, length, bytes_discrete, ℕ_discrete,
}
use semantic_search_engine.Exception.{ok}
use semantic_search_engine.HttpRequest.{Request, parse_request}
use semantic_search_engine.HttpRequest.Written.{headers_of, request_text, IsWord, IsLine}
use semantic_search_engine.HttpServer.Chunks.{Declares}
use semantic_search_engine.HttpServer.Rounds.{Carries}
use semantic_search_engine.HttpRequest.Head.{request_text-append, head_ends}
use semantic_search_engine.Map
use semantic_search_engine.Map.{get_or}
use semantic_search_engine.Socket.{Arrival, stream, IsLive}
use semantic_search_engine.Text
use semantic_search_engine.HttpServer.Routes.{wants_close}
use semantic_search_engine.SearchClient.{
  client_text, client_fields, parse-client_text, client_text-request_text, client_fields-IsField,
}
use semantic_search_engine.Text.{starts_with, find_char, is_space}
use semantic_search_engine.Text.Lines.{Lacks}
use semantic_search_engine.Text.Words.{IsBlankless}

-- A name that the client can type and the server reads whole.
pub record IsName (doc : Bytes) : Type 0 where
  pub ne_nil : doc ≢ []
  pub blankless : IsBlankless doc
  pub no_query : Lacks b'?' doc

abbrev pub path_of : Bytes → Bytes
path_of doc = codes "/static/" ++ doc

not_space : (c : ℕ) → is_space c ≡ false → (c ≢ b' ') × (c ≢ 13) × (c ≢ 10)
not_space c h = ground arith

blankless-Lacks : (s : Bytes) → IsBlankless s → Lacks b' ' s × IsLine s
blankless-Lacks [] h = (tt, (tt, tt))
blankless-Lacks (c ∷ s) (hc, h) =
    let (a, b, d) = not_space c hc in
    let (x, (y, z)) = blankless-Lacks s h in ((a, x), ((b, y), (d, z)))

path_of-IsWord : (doc : Bytes) → IsBlankless doc → IsWord (path_of doc)
path_of-IsWord doc h =
    let (x, (y, z)) = blankless-Lacks doc h in
    record {
      ne_nil = λ e. cc;
      no_space = (
        omega arith,
        (
          omega arith,
          (
            omega arith,
            (omega arith, (omega arith, (omega arith, (omega arith, (omega arith, x))))),
          ),
        ),
      );
      line = (
        (
          omega arith,
          (
            omega arith,
            (
              omega arith,
              (omega arith, (omega arith, (omega arith, (omega arith, (omega arith, y))))),
            ),
          ),
        ),
        (
          omega arith,
          (
            omega arith,
            (
              omega arith,
              (omega arith, (omega arith, (omega arith, (omega arith, (omega arith, z))))),
            ),
          ),
        ),
      );
    }

-- The request that the server reads.
abbrev pub request_for : Bytes → ℕ → Bytes → Bytes → Bytes → Request
request_for host port method doc body = record {
  method = method;
  path = path_of doc;
  query = [];
  headers = headers_of (client_fields host port body) [];
  body = body;
}

parse-request_for :
    (host : Bytes) (port : ℕ) (method doc body : Bytes)
    → IsLine host
    → IsWord method
    → IsName doc
    → length body < 2 ^ 64
    → parse_request (client_text host port method (path_of doc) body)
      ≡ ok (request_for host port method doc body)
parse-request_for host port method doc body h m name small =
    parse-client_text host port method (path_of doc) none body h m
      (All-append (λ c. c ≢ b'?') (codes "/static/") doc (omega arith) name.no_query)
      (path_of-IsWord doc name.blankless) small

pub put-IsWord : IsWord (codes "PUT")
put-IsWord = record { ne_nil = λ e. cc; no_space = omega arith; line = (omega arith, omega arith) }

pub get-IsWord : IsWord (codes "GET")
get-IsWord = record { ne_nil = λ e. cc; no_space = omega arith; line = (omega arith, omega arith) }

-- Every request of the client asks to close the connection.
pub client-closes :
    (host : Bytes) (port : ℕ) (method doc body : Bytes)
    → wants_close (request_for host port method doc body) ≡ true
unfolding wants_close Map.find Map.modify bytes_discrete ℕ_discrete Text.to_lower
client-closes host port method doc [] = refl
client-closes host port method doc (c ∷ body) = refl

-- The head of the client's request, up to the body.
abbrev pub client_head : Bytes → ℕ → Bytes → Bytes → Bytes → Bytes
client_head host port method doc body =
    request_text method (path_of doc) (client_fields host port body) []

-- What `ReadBody` finds in the head of the request as its length is the body's, which fails where
-- the name or the host holds a "content-length:" of its own.
abbrev pub IsSized : Bytes → ℕ → Bytes → Bytes → Bytes → Type 0
IsSized host port method doc body =
    (declared : Option ℕ) × Declares (client_head host port method doc body) declared
    × (get_or 0 declared ≡ length body)

-- The network brings the bytes of the client, cut in any way, with any interruptions.
abbrev pub Delivers : (Bytes → List Arrival) → Type 0
Delivers wire = (text : Bytes) → IsLive (wire text) × (stream (wire text) ≡ text)

pub client-Carries :
    (pieces : List Arrival) (host : Bytes) (port : ℕ) (method doc body : Bytes)
    → IsLive pieces
    → stream pieces ≡ client_text host port method (path_of doc) body
    → IsLine host
    → IsWord method
    → IsName doc
    → length body < 2 ^ 64
    → IsSized host port method doc body
    → Carries pieces (request_for host port method doc body)
client-Carries pieces host port method doc body live text h m name small (declared, says, fits) =
    let split =
      client_text-request_text host port method (path_of doc) body
      ∙ sym (request_text-append method (path_of doc) (client_fields host port body) body) in
    let (place, blank, ends) =
      head_ends method (path_of doc) (client_fields host port body) m
        (path_of-IsWord doc name.blankless) (client_fields-IsField host port body h) in
    record {
      head = client_head host port method doc body;
      body = body;
      place = place;
      declared = declared;
      live = live;
      whole = text ∙ split;
      blank = blank;
      ends = ends;
      declares = says;
      fits = fits;
      parses =
          ap parse_request (sym split) ∙ parse-request_for host port method doc body h m name small;
    }
