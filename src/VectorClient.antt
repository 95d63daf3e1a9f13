-- ===== src/VectorClient.antt =====
-- searchserver/VectorClient.cpp. A connection is the outcomes of its calls: how many bytes each
-- write takes, and what the reads give.
pub mod Requests
pub mod Responses
pub mod Client
pub mod Rows
use semantic_search_engine.Base.{
  ℕ, zero, suc, ◌+◌, Bool, true, false, List, [], ◌∷◌, ◌++◌, Option, none, some, Bytes, codes, ◌==◌,
  ltb, if◌then◌else◌, take, drop, length,
}
use semantic_search_engine.HttpResponse.{crlf}
use semantic_search_engine.HttpResponse.Framing.{body_after}
use semantic_search_engine.Map.{get_or}
use semantic_search_engine.Socket.{Arrival, Outcome, got, again, failed, ended, read_some, weight}
use semantic_search_engine.Text.{find, find_char, lines}
use semantic_search_engine.Text.Number.{to_string}

abbrev pub k_text_limit : ℕ
k_text_limit = 2048

-- what `connect` gave
pub record Connection : Type 0 where
  -- the results of `write`, as far as it is asked for that much; 0 stands for an error
  pub writes : List ℕ
  pub reads : List Arrival

-- `SendAll`: whether all was sent, and what was.
unfoldable pub send_all : List ℕ → Bytes → Bool × Bytes
send_all [] [] = (true, [])
send_all [] (c ∷ buf) = (false, [])
send_all (w ∷ writes) [] = (true, [])
send_all (zero ∷ writes) (c ∷ buf) = (false, [])
send_all (suc w ∷ writes) (c ∷ buf) =
    let (sent_all, sent) = send_all writes (drop (suc w) (c ∷ buf)) in
    (sent_all, take (suc w) (c ∷ buf) ++ sent)

-- the body of the loop of `RecvAll` behind the call of `read`
abbrev pub recv_round : (List Arrival → Bytes) → Outcome × List Arrival → Bytes
recv_round next (got bs, net) = bs ++ next net
recv_round next (again is_done, net) = []
recv_round next (failed, net) = []
recv_round next (ended, net) = []

-- The loop, with fuel for its calls of `read`.
unfoldable pub recv_loop : ℕ → List Arrival → Bytes
recv_loop zero net = []
recv_loop (suc fuel) net = recv_round (recv_loop fuel) (read_some 4095 net)

-- `RecvAll`
unfoldable pub recv_all : List Arrival → Bytes
unfolding recv_loop
recv_all net = recv_loop (weight net) net

-- `VectorClient::ReadResponse`
unfoldable pub read_response : List Arrival → Bytes
unfolding recv_all
read_response net = get_or [] (body_after (recv_all net))

-- the `switch` of `VectorClient::JsonEscape`
unfoldable pub escape_byte : ℕ → Bytes
escape_byte c =
    if c == b'"'
    then b'\\' ∷ b'"' ∷ []
    else if c == b'\\'
    then b'\\' ∷ b'\\' ∷ []
    else if c == 10
    then b'\\' ∷ b'n' ∷ []
    else if c == 13
    then b'\\' ∷ b'r' ∷ []
    else if c == 9
    then b'\\' ∷ b't' ∷ []
    else c ∷ []

-- `VectorClient::JsonEscape`
unfoldable pub json_escape : Bytes → Bytes
unfolding escape_byte
json_escape [] = []
json_escape (c ∷ s) = escape_byte c ++ json_escape s

-- The request of `VectorClient::Post`.
unfoldable pub post_text : Bytes → Bytes → Bytes
post_text path json_body =
    codes "POST "
    ++ (path
        ++ (codes
              " HTTP/1.1\r\nHost: localhost\r\nContent-Type: application/json\r\nContent-Length: "
            ++ (to_string (length json_body)
                ++ (codes "\r\nConnection: close\r\n\r\n" ++ json_body))))

-- The request of `VectorClient::Delete`.
unfoldable pub delete_text : Bytes → Bytes
delete_text path =
    codes "DELETE " ++ (path ++ codes " HTTP/1.1\r\nHost: localhost\r\nConnection: close\r\n\r\n")

-- Sending a request and reading the body of its response; empty where there is no connection.
unfoldable pub exchange : Bytes → Option Connection → Bytes
unfolding send_all read_response
exchange request none = []
exchange request (some c) = if (send_all c.writes request).0 then read_response c.reads else []

-- `VectorClient::Post`
unfoldable pub post : Option Connection → Bytes → Bytes → Bytes
unfolding exchange post_text
post connection path json_body = exchange (post_text path json_body) connection

-- `VectorClient::Delete`
unfoldable pub delete : Option Connection → Bytes → Bytes
unfolding exchange delete_text
delete connection path = exchange (delete_text path) connection

-- The JSON of `VectorClient::Search`.
unfoldable pub search_body : Bytes → ℕ → Bytes
unfolding json_escape
search_body query k =
    codes "{\"query\":\""
    ++ (json_escape query ++ (codes "\",\"k\":" ++ (to_string k ++ codes "}")))

-- The JSON of `VectorClient::AddDoc`, with the text cut at `k_text_limit`.
unfoldable pub add_doc_body : Bytes → Bytes → Bytes
unfolding json_escape
add_doc_body doc_id text =
    let truncated = if ltb k_text_limit (length text) then take k_text_limit text else text in
    codes "{\"id\":\""
    ++ (json_escape doc_id ++ (codes "\",\"text\":\"" ++ (json_escape truncated ++ codes "\"}")))

-- `VectorClient::AddDoc`; what the service answers is dropped
unfoldable pub add_doc : Option Connection → Bytes → Bytes → Bytes
unfolding post add_doc_body
add_doc connection doc_id text = post connection (codes "/index/add") (add_doc_body doc_id text)

-- `VectorClient::RemoveDoc`
unfoldable pub remove_doc : Option Connection → Bytes → Bytes
unfolding delete
remove_doc connection doc_id = delete connection (codes "/index/" ++ doc_id)

-- The JSON of `VectorClient::Ask`.
unfoldable pub ask_body : Bytes → ℕ → Bytes
unfolding json_escape
ask_body question k =
    codes "{\"question\":\""
    ++ (json_escape question ++ (codes "\",\"k\":" ++ (to_string k ++ codes "}")))

abbrev pub sources_mark : Bytes
sources_mark = codes "\n---SOURCES---\n"

-- the loop over the sources, which drops empty lines
unfoldable pub keep_sources : List Bytes → List Bytes
keep_sources [] = []
keep_sources ([] ∷ ls) = keep_sources ls
keep_sources ((c ∷ line) ∷ ls) = (c ∷ line) ∷ keep_sources ls

-- the part of `VectorClient::Ask` behind the response
unfoldable pub parse_answer : Bytes → Bytes × List Bytes
unfolding keep_sources
parse_answer [] = ([], [])
parse_answer (b ∷ body) = elim (find sources_mark (b ∷ body)) [
  | none ↦ (b ∷ body, [])
  | some sep ↦
      (take sep (b ∷ body), keep_sources (lines 10 (drop (sep + length sources_mark) (b ∷ body))))
]

-- `VectorClient::Ask`
unfoldable pub ask : Option Connection → Bytes → ℕ → Bytes × List Bytes
unfolding post ask_body parse_answer
ask connection question k = parse_answer (post connection (codes "/ask") (ask_body question k))

module _ {F : Type 0} (stof : Bytes → Option F) where
  -- A line of `VectorClient::ParseTsv` put in front of the others: kept if it has a tab and `stof`
  -- takes what follows.
  unfoldable pub tsv_line : Bytes → List (Bytes × F) → List (Bytes × F)
  tsv_line line results = elim (find_char 9 line) [
    | none ↦ results
    | some tab ↦ elim (stof (drop (suc tab) line)) [
      | none ↦ results
      | some score ↦ (take tab line, score) ∷ results
    ]
  ]

  unfoldable pub tsv_lines : List Bytes → List (Bytes × F)
  unfolding tsv_line
  tsv_lines [] = []
  tsv_lines ([] ∷ ls) = tsv_lines ls
  tsv_lines ((c ∷ line) ∷ ls) = tsv_line (c ∷ line) (tsv_lines ls)

  -- `VectorClient::ParseTsv`
  unfoldable pub parse_tsv : Bytes → List (Bytes × F)
  unfolding tsv_lines
  parse_tsv body = tsv_lines (lines 10 body)

  -- `VectorClient::Search`
  unfoldable pub search : Option Connection → Bytes → ℕ → List (Bytes × F)
  unfolding parse_tsv post search_body
  search connection query k = parse_tsv (post connection (codes "/search") (search_body query k))
