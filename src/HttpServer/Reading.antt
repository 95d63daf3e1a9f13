-- ===== src/HttpServer/Reading.antt =====
-- `ReadHeaders`, `ReadBody` and `ReadRawRequest`, over what the network gives.
use semantic_search_engine.Base.{
  ℕ, zero, suc, ◌+◌, ◌-◌, Bool, true, false, List, [], ◌∷◌, ◌++◌, map, Option, none, some, Bytes,
  codes, min, length, take, drop, if◌then◌else◌, ◌==◌,
}
use semantic_search_engine.Exception.{Result, ok, ◌>>=◌}
use semantic_search_engine.HttpResponse.{blank_line}
use semantic_search_engine.Socket.{Arrival, Outcome, got, again, failed, ended, read_some, weight}
use semantic_search_engine.Text.{find, is_digit, to_lower}
use semantic_search_engine.Text.Number.{stoul}

-- `raw.find("\r\n\r\n") != std::string::npos`
unfoldable pub has_blank_line : Bytes → Bool
has_blank_line raw = elim (find blank_line raw) [ none ↦ false | some i ↦ true ]

-- The size of the buffer, less one.
abbrev pub k_read_size : ℕ
k_read_size = 4095

-- The body of the loop of `ReadHeaders` behind the call of `read`; `next` is the next round.
abbrev pub headers_round :
    (Bytes → List Arrival → Bool × Bytes × List Arrival)
    → Bytes
    → Outcome × List Arrival
    → Bool × Bytes × List Arrival
headers_round next raw (got bs, net) = next (raw ++ bs) net
headers_round next raw (again true, net) = (false, raw, net)
headers_round next raw (again false, net) = next raw net
headers_round next raw (failed, net) = (false, raw, net)
headers_round next raw (ended, net) = (false, raw, net)

-- The loop of `ReadHeaders` with fuel for its calls of `read`: whether a blank line was found, the
-- bytes, and what the connection still gives.
unfoldable pub headers_loop : ℕ → Bytes → List Arrival → Bool × Bytes × List Arrival
headers_loop zero raw net = (has_blank_line raw, raw, net)
headers_loop (suc fuel) raw net = elim (has_blank_line raw) [
  | true ↦ (true, raw, net)
  | false ↦ headers_round (headers_loop fuel) raw (read_some k_read_size net)
]

-- `ReadHeaders`
unfoldable pub read_headers : Bytes → List Arrival → Bool × Bytes × List Arrival
unfolding headers_loop
read_headers raw net = headers_loop (weight net) raw net

-- `while (val_pos < lower_hdr.size() && lower_hdr[val_pos] == ' ') ++val_pos;`
unfoldable pub drop_blanks : Bytes → Bytes
drop_blanks [] = []
drop_blanks (c ∷ s) = if c == b' ' then drop_blanks s else c ∷ s

-- The number at a place of `raw`, if there is a digit.
unfoldable pub length_at : Bytes → Result (Option ℕ)
length_at [] = ok none
length_at (c ∷ s) = if is_digit c then (stoul (c ∷ s) >>= λ n. ok (some n)) else ok none

-- The part of `ReadBody` up to the value of `content_length`; `none` is the early return.
unfoldable pub declared_length : Bytes → ℕ → Result (Option ℕ)
unfolding drop_blanks length_at
declared_length raw body_offset =
    let lower_hdr = map to_lower (take body_offset raw) in
    elim (find (codes "content-length:") lower_hdr) [
      | none ↦ ok none
      | some cl_pos ↦
          length_at
            (drop (length lower_hdr - length (drop_blanks (drop (cl_pos + 15) lower_hdr))) raw)
    ]

-- The body of the loop of `ReadBody` behind the call of `read`; `next` is the next round.
abbrev pub body_round :
    (ℕ → Bytes → List Arrival → Bytes × List Arrival)
    → ℕ
    → Bytes
    → Outcome × List Arrival
    → Bytes × List Arrival
body_round next missing raw (got bs, net) = next (missing - length bs) (raw ++ bs) net
body_round next missing raw (again true, net) = (raw, net)
body_round next missing raw (again false, net) = next missing raw net
body_round next missing raw (failed, net) = (raw, net)
body_round next missing raw (ended, net) = (raw, net)

-- The loop of `ReadBody`, with fuel for its calls of `read`. `missing` is
-- `content_length - body_read`.
unfoldable pub body_loop : ℕ → ℕ → Bytes → List Arrival → Bytes × List Arrival
body_loop zero missing raw net = (raw, net)
body_loop (suc fuel) zero raw net = (raw, net)
body_loop (suc fuel) (suc missing) raw net =
    body_round (body_loop fuel) (suc missing) raw (read_some (min (suc missing) k_read_size) net)

-- `ReadBody`
unfoldable pub read_body : Bytes → ℕ → List Arrival → Result (Bytes × List Arrival)
unfolding declared_length body_loop
read_body raw body_offset net = declared_length raw body_offset >>= elim [
  | none ↦ ok (raw, net)
  | some content_length ↦
      ok (body_loop (weight net) (content_length - (length raw - body_offset)) raw net)
]

-- The part of `ReadRawRequest` behind `ReadHeaders`.
unfoldable pub read_rest : Bool × Bytes × List Arrival → Result (Bytes × List Arrival)
unfolding read_body
read_rest (false, raw, net) = ok (raw, net)
read_rest (true, raw, net) = elim (find blank_line raw) [
  | none ↦ ok (raw, net)
  | some i ↦ read_body raw (i + 4) net
]

-- `ReadRawRequest`: the bytes, and what the connection still gives.
unfoldable pub read_raw_request : List Arrival → Result (Bytes × List Arrival)
unfolding read_headers read_rest
read_raw_request net = read_rest (read_headers [] net)
