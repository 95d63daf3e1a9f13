-- ===== src/VectorClient/Client.antt =====
-- searchserver/VectorClient.hpp: the class, and what its methods return without a service.
use semantic_search_engine.Base.{
  ℕ, ◌≡◌, refl, Bool, not, List, [], Option, none, some, Bytes, if◌then◌else◌,
}
use semantic_search_engine.Socket.{Arrival}
use semantic_search_engine.Text.Integer.{ℤ, to_uint16}
use semantic_search_engine.Text
use semantic_search_engine.VectorClient

-- What the system answers to a method that dials: whether `socket` works, whether `connect` does at
-- a port of the loopback address, and what the connection then gives.
pub record Dial : Type 0 where
  pub opens : Bool
  pub connects : ℕ → Bool
  pub connection : VectorClient.Connection

-- `VectorClient::Connect`, for the port `m_port`; `none` is -1.
unfoldable pub connect : ℤ → Dial → Option VectorClient.Connection
unfolding to_uint16
connect m_port d =
    if not d.opens
    then none
    else if not (d.connects (to_uint16 m_port))
    then none
    else some d.connection

-- `VectorClient`: its port and its methods; a method that dials gets what the system answers.
pub record Client (F : Type 0) : Type 0 where
  pub m_port : ℤ
  pub search : Dial → Bytes → ℕ → List (Bytes × F)
  pub add_doc : Dial → Bytes → Bytes → Bytes
  pub remove_doc : Dial → Bytes → Bytes
  pub ask : Dial → Bytes → ℕ → Bytes × List Bytes
  pub dials : Dial → Option VectorClient.Connection
  pub post : Dial → Bytes → Bytes → Bytes
  pub delete : Dial → Bytes → Bytes
  pub parse_tsv : Bytes → List (Bytes × F)
  pub read_response : List Arrival → Bytes
  pub json_escape : Bytes → Bytes

-- The constructor.
unfoldable pub vector_client : {F : Type 0} → (Bytes → Option F) → ℤ → Client F
unfolding connect VectorClient.search VectorClient.ask VectorClient.add_doc VectorClient.remove_doc
vector_client stof port = record {
  m_port = port;
  search = λ d query k. VectorClient.search stof (connect port d) query k;
  add_doc = λ d doc_id text. VectorClient.add_doc (connect port d) doc_id text;
  remove_doc = λ d doc_id. VectorClient.remove_doc (connect port d) doc_id;
  ask = λ d question k. VectorClient.ask (connect port d) question k;
  dials = connect port;
  post = λ d path json_body. VectorClient.post (connect port d) path json_body;
  delete = λ d path. VectorClient.delete (connect port d) path;
  parse_tsv = VectorClient.parse_tsv stof;
  read_response = VectorClient.read_response;
  json_escape = VectorClient.json_escape;
}

-- Every method returns what is empty where the service cannot be reached.
pub unreachable :
    {F : Type 0} (stof : Bytes → Option F) (port : ℤ) (d : Dial) (text : Bytes) (k : ℕ)
    → connect port d ≡ none
    → ((vector_client stof port).search d text k ≡ [])
      × ((vector_client stof port).ask d text k ≡ ([], []))
unfolding vector_client VectorClient.search VectorClient.ask VectorClient.post VectorClient.exchange
    VectorClient.parse_tsv VectorClient.tsv_lines Text.lines
unreachable stof port d text k e = (rw e refl, rw e refl)
