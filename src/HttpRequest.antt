-- ===== src/HttpRequest.antt =====
-- searchserver/HttpRequest.cpp and HttpRequest.hpp.
pub mod Headers
pub mod Terms
pub mod Written
pub mod RoundTrip
pub mod Head
pub mod Throws
use semantic_search_engine.Base.{
  ℕ, suc, ◌+◌, Bool, true, false, ◌&&◌, List, [], ◌∷◌, ◌++◌, map, Option, none, some, Bytes, codes,
  bytes_discrete, ◌==◌, if◌then◌else◌, take, drop,
}
use semantic_search_engine.Exception.{Result, ok, throws, out_of_range, ◌>>=◌}
use semantic_search_engine.HttpResponse.Framing.{body_after}
use semantic_search_engine.Map.{find, modify, get_or}
use semantic_search_engine.Text.{find_char, substr, back, pop_back, get_line, lines, to_lower}
use semantic_search_engine.Text.Number.{stoul}

abbrev pub Headers : Type 0
Headers = List (Bytes × Bytes)

pub record Request : Type 0 where
  pub method : Bytes
  pub path : Bytes
  pub query : Bytes
  pub headers : Headers
  pub body : Bytes

-- a default-constructed `Request`
abbrev pub no_request : Request
no_request = record { method = []; path = []; query = []; headers = []; body = [] }

-- One `getline` into an empty string: the line, empty if the stream fails, and the unread rest.
abbrev pub read_line : ℕ → Bytes → Bytes × Bytes
read_line sep s = get_or ([], []) (get_line sep s)

-- the split of the target at its first '?'
unfoldable pub split_target : Bytes → Bytes × Bytes
split_target target = elim (find_char b'?' target) [
  | none ↦ (target, [])
  | some pos ↦ (take pos target, drop (suc pos) target)
]

-- `if (!line.empty() && line.back() == '\r') line.pop_back()`
unfoldable pub strip_cr : Bytes → Bytes
strip_cr line = if back line == 13 then pop_back line else line

-- One header line. The value begins two bytes behind the colon; `substr` throws if the line ends
-- with the colon.
unfoldable pub header_line : Bytes → Headers → Result Headers
header_line line headers = elim (find_char b':' line) [
  | none ↦ ok headers
  | some colon ↦ elim (substr (colon + 2) line) [
    | none ↦ throws out_of_range
    | some val ↦ ok (modify bytes_discrete (map to_lower (take colon line)) (λ _. val) [] headers)
  ]
]

-- the loop over the lines behind the first, up to an empty one
unfoldable pub header_lines : List Bytes → Headers → Result Headers
header_lines [] headers = ok headers
header_lines (l ∷ ls) headers = elim (strip_cr l) [
  | [] ↦ ok headers
  | c ∷ line ↦ header_line (c ∷ line) headers >>= λ h. header_lines ls h
]

-- `raw.substr(sep + 4, body_len)` where there is a blank line
abbrev cut_body : ℕ → Option Bytes → Bytes
cut_body body_len none = []
cut_body body_len (some rest) = take body_len rest

-- The body, given the "content-length" header: as many bytes as it says; `stoul` throws where it
-- says no number.
unfoldable pub sized_body : Option Bytes → Bytes → Result Bytes
sized_body none raw = ok []
sized_body (some val) raw = stoul val >>= λ body_len. ok (cut_body body_len (body_after raw))

unfoldable pub request_body : Bytes → Headers → Result Bytes
unfolding sized_body
request_body raw headers = sized_body (find bytes_discrete (codes "content-length") headers) raw

-- What follows a good first line.
unfoldable pub finish_request : Bytes → Bytes → Bytes → Bytes → Result Request
unfolding split_target strip_cr header_line header_lines request_body
finish_request raw method target rest = header_lines (lines b'\n' rest) [] >>= λ headers.
    request_body raw headers >>= λ body. ok (record {
      method = method;
      path = (split_target target).0;
      query = (split_target target).1;
      headers = headers;
      body = body;
    })

-- The test of the first line: `method.empty() || path.empty()`.
unfoldable pub with_target : Bytes → Bytes → Bytes → Bytes → Result Request
unfolding finish_request
with_target raw [] target rest = ok no_request
with_target raw (m ∷ method) [] rest = ok no_request
with_target raw (m ∷ method) (p ∷ target) rest = finish_request raw (m ∷ method) (p ∷ target) rest

-- `ParseRequest`
unfoldable pub parse_request : Bytes → Result Request
unfolding with_target
parse_request raw =
    let (first_line, rest) = read_line b'\n' raw in
    let (method, behind_method) = read_line b' ' first_line in
    let (target, behind_target) = read_line b' ' behind_method in with_target raw method target rest

-- the loop that replaces each "%20" by "+", from left to right
unfoldable pub replace_spaces : Bytes → Bytes
replace_spaces (a ∷ b ∷ c ∷ q) = elim (a == b'%' && b == b'2' && c == b'0') [
  | true ↦ b'+' ∷ replace_spaces q
  | false ↦ a ∷ replace_spaces (b ∷ c ∷ q)
]
replace_spaces q = q

-- the part behind the first '='
unfoldable pub behind_equals : Bytes → Bytes
behind_equals query = elim (find_char b'=' query) [ none ↦ query | some eq ↦ drop (suc eq) query ]

-- the loop over the tokens: the empty ones are dropped, the others put in lower case
unfoldable pub keep_terms : List Bytes → List Bytes
keep_terms [] = []
keep_terms ([] ∷ tokens) = keep_terms tokens
keep_terms ((c ∷ token) ∷ tokens) = map to_lower (c ∷ token) ∷ keep_terms tokens

-- `SplitTerms`
unfoldable pub split_terms : Bytes → List Bytes
unfolding replace_spaces behind_equals keep_terms
split_terms query = keep_terms (lines b'+' (replace_spaces (behind_equals query)))
