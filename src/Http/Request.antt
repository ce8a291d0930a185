-- ===== src/Http/Request.antt =====
-- http/http_request.h and http/http_request.cpp (without the debug print `dump`).
use coroutine_http.Prelude.{
  ℕ, Bool, true, false, not, Option, none, some, [], if◌then◌else◌, Bytes, bytes, bytes_eq,
  bytes_beq, is_empty, find,
}
use coroutine_http.Prelude.Dict.{Dict, lookup}
use coroutine_http.Http.Text.{to_lower, stoi}
use coroutine_http.Prelude.{ℤ, negsuc}

pub record HttpRequest : Type 0 where
  pub method : Bytes
  pub path : Bytes
  pub version : Bytes
  pub body : Bytes
  pub headers : Dict Bytes Bytes
  pub query : Dict Bytes Bytes
  pub params : Dict Bytes Bytes

-- `HttpRequest req;`
abbrev pub new_request : HttpRequest
new_request = record {
  method = [];
  path = [];
  version = [];
  body = [];
  headers = [];
  query = [];
  params = [];
}

-- `it != m.end() ? it->second : default_val`
abbrev pub value_or : Bytes → Option Bytes → Bytes
value_or default_val none = default_val
value_or default_val (some v) = v

abbrev pub is_found : Option ℕ → Bool
is_found none = false
is_found (some n) = true

unfoldable pub header : HttpRequest → Bytes → Bytes → Bytes
header req key default_val = value_or default_val (lookup (to_lower key) req.headers)

unfoldable pub query_param : HttpRequest → Bytes → Bytes → Bytes
query_param req key default_val = value_or default_val (lookup key req.query)

unfoldable pub param : HttpRequest → Bytes → Bytes → Bytes
param req key default_val = value_or default_val (lookup key req.params)

unfoldable pub keep_alive : HttpRequest → Bool
unfolding header
keep_alive req =
    let conn_hdr = to_lower (header req (bytes "connection") []) in
    if bytes_beq req.version (bytes "HTTP/1.1")
    then not (bytes_beq conn_hdr (bytes "close"))
    else bytes_beq conn_hdr (bytes "keep-alive")

unfoldable pub is_json : HttpRequest → Bool
unfolding header
is_json req = is_found (find (bytes "application/json") (header req (bytes "content-type") []))

-- The number, or -1 where there is no such header or `stoi` throws.
abbrev pub int_or_minus_one : Option ℤ → ℤ
int_or_minus_one none = negsuc 0
int_or_minus_one (some n) = n

unfoldable pub content_length : HttpRequest → ℤ
unfolding header
content_length req =
    let cl = header req (bytes "content-length") [] in
    if is_empty cl then negsuc 0 else int_or_minus_one (stoi cl)
