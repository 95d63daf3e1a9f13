-- ===== src/HttpResponse.antt =====
-- searchserver/HttpResponse.cpp and HttpResponse.hpp.
pub mod Framing
use semantic_search_engine.Base.{
  ℕ, Bool, true, false, [], ◌∷◌, ◌++◌, none, some, Bytes, codes, ◌==◌, if◌then◌else◌, length,
}
use semantic_search_engine.Text.{find}
use semantic_search_engine.Text.Number.{to_string}

abbrev pub k_http_ok : ℕ
k_http_ok = 200

abbrev pub k_http_created : ℕ
k_http_created = 201

abbrev pub k_http_no_content : ℕ
k_http_no_content = 204

abbrev pub k_http_forbidden : ℕ
k_http_forbidden = 403

abbrev pub k_http_not_found : ℕ
k_http_not_found = 404

abbrev pub k_http_conflict : ℕ
k_http_conflict = 409

abbrev pub k_http_internal_error : ℕ
k_http_internal_error = 500

abbrev pub k_http_not_implemented : ℕ
k_http_not_implemented = 501

-- "\r\n"
abbrev pub crlf : Bytes
crlf = 13 ∷ 10 ∷ []

-- "\r\n\r\n"
abbrev pub blank_line : Bytes
blank_line = 13 ∷ 10 ∷ 13 ∷ 10 ∷ []

-- the reason phrase where the caller gives none
unfoldable pub default_reason : ℕ → Bytes
default_reason status =
    if status == k_http_ok
    then codes "OK"
    else if status == k_http_created
    then codes "Created"
    else if status == k_http_forbidden
    then codes "Forbidden"
    else if status == k_http_not_found
    then codes "Not Found"
    else if status == k_http_conflict
    then codes "Conflict"
    else if status == k_http_not_implemented
    then codes "Not Implemented"
    else codes "Unknown"

unfoldable pub reason_for : ℕ → Bytes → Bytes
unfolding default_reason
reason_for status [] = default_reason status
reason_for status (c ∷ text) = c ∷ text

abbrev pub status_line : ℕ → Bytes → Bytes
status_line status reason = codes "HTTP/1.1 " ++ (to_string status ++ (b' ' ∷ reason))

-- `MakeResponse`; its parameters in the order of the source
unfoldable pub make_response : ℕ → Bytes → Bytes → Bytes → Bytes
unfolding reason_for
make_response status body content_type status_text =
    status_line status (reason_for status status_text)
    ++ (crlf
        ++ ((codes "Content-Type: " ++ content_type)
            ++ (crlf
                ++ ((codes "Content-Length: " ++ to_string (length body))
                    ++ (crlf ++ (crlf ++ body))))))

-- `resp.find("HTTP/1.1 2") != std::string::npos`: the server's test for a success
unfoldable pub is_success : Bytes → Bool
unfolding find
is_success resp = elim (find (codes "HTTP/1.1 2") resp) [ none ↦ false | some i ↦ true ]
