-- ===== src/Http/Parser.antt =====
-- http/http_parser.h and http/http_parser.cpp: an HTTP/1.1 request read from a connection.
pub mod Headers
pub mod Paths
pub mod Stages
pub mod Framing
pub mod Truncation
use coroutine_http.Prelude.{
  ℕ, suc, ◌+◌, ◌-◌, ◌*◌, Bool, true, false, ◌&&◌, not, Option, none, some, List, [], ◌∷◌, ◌++◌,
  length, take, drop, ltb, leb, ◌==◌, if◌then◌else◌, Bytes, bytes, bytes_eq, is_empty, find,
  find_char,
}
use coroutine_http.Prelude.Dict.{Dict, insert}
use coroutine_http.Net.Run.{Run, done, ◌>>=◌}
use coroutine_http.Net.Connection.{Connection, read_until, read_exact}
use coroutine_http.Http.Text.{trim, to_lower, to_upper, url_decode, getlines, words}
use coroutine_http.Prelude.{ℤ, pos, negsuc}
use coroutine_http.Http.Request.{HttpRequest, is_found, content_length}

-- One `key=value` of a query string, or a bare key.
unfoldable pub parse_pair : Bytes → Dict Bytes Bytes → Dict Bytes Bytes
parse_pair pair query = if is_empty pair then query else elim (find_char b'=' pair) [
  | none ↦ insert (url_decode pair) [] query
  | some eq ↦ insert (url_decode (take eq pair)) (url_decode (drop (suc eq) pair)) query
]

-- The loop over the lines that `getline(ss, pair, '&')` yields.
unfoldable pub parse_pairs : List Bytes → Dict Bytes Bytes → Dict Bytes Bytes
unfolding parse_pair
parse_pairs [] query = query
parse_pairs (pair ∷ pairs) query = parse_pairs pairs (parse_pair pair query)

unfoldable pub parse_query_string : Bytes → HttpRequest → HttpRequest
parse_query_string query_str req =
    if is_empty query_str
    then req
    else record req { query = parse_pairs (getlines b'&' query_str) req.query }

-- The path before `?`, and the query behind it.
unfoldable pub set_url : Bytes → HttpRequest → HttpRequest
set_url url req = elim (find_char b'?' url) [
  | none ↦ record req { path = url_decode url }
  | some q ↦ parse_query_string (drop (suc q) url) (record req { path = url_decode (take q url) })
]

-- The guard against path traversal; `none` is the result `false`.
unfoldable pub check_path : HttpRequest → Option HttpRequest
check_path req = if is_found (find (bytes "..") req.path) then none else some req

unfoldable pub request_words : List Bytes → HttpRequest → Option HttpRequest
request_words (method ∷ url ∷ version ∷ more) req =
    check_path (set_url url (record req { method = to_upper method; version = version }))
request_words (method ∷ url ∷ []) req = none
request_words (method ∷ []) req = none
request_words [] req = none

unfoldable pub parse_request_line : Bytes → HttpRequest → Option HttpRequest
parse_request_line line req = request_words (words line) req

unfoldable pub parse_header_line : Bytes → HttpRequest → Bool × HttpRequest
parse_header_line line req = elim (find_char b':' line) [
  | none ↦ (false, req)
  | some colon ↦
      let key = to_lower (trim (take colon line)) in
      let val = trim (drop (suc colon) line) in
      if is_empty key
      then (false, req)
      else (true, record req { headers = insert key val req.headers })
]

-- `if (!line.empty() && line.back() == '\r') line.pop_back();`
unfoldable pub chop_cr : Bytes → Bytes
chop_cr [] = []
chop_cr (c ∷ []) = if c == 13 then [] else c ∷ []
chop_cr (c ∷ d ∷ line) = c ∷ chop_cr (d ∷ line)

unfoldable pub chop_lines : List Bytes → List Bytes
unfolding chop_cr
chop_lines [] = []
chop_lines (l ∷ ls) = chop_cr l ∷ chop_lines ls

-- The loop over the header lines: an empty line ends it, and a line that is no header is skipped.
unfoldable pub parse_headers : List Bytes → HttpRequest → HttpRequest
parse_headers [] req = req
parse_headers (l ∷ ls) req =
    let more = parse_headers ls (parse_header_line l req).1 in if is_empty l then req else more

abbrev pub header_end : Bytes
header_end = 13 ∷ 10 ∷ 13 ∷ 10 ∷ []

-- The last four bytes go, whatever they are.
abbrev pub cut_end : Bytes → Bytes
cut_end block = if leb 4 (length block) then take (length block - 4) block else block

-- The request line and the headers.
unfoldable pub parse_lines : List Bytes → HttpRequest → Option HttpRequest
parse_lines [] req = none
parse_lines (line ∷ lines) req = elim (parse_request_line line req) [
  | none ↦ none
  | some req' ↦ some (parse_headers lines req')
]

unfoldable pub parse_head : Bytes → HttpRequest → Option HttpRequest
parse_head block req = parse_lines (chop_lines (getlines 10 (cut_end block))) req

-- 10 MB, the largest body that is read.
abbrev pub max_body : ℕ
max_body = 10 * 1024 * 1024

-- The body of `cl` bytes, for the value of Content-Length.
unfoldable pub read_body : ℤ → HttpRequest → Connection → Run (Option HttpRequest × Connection)
read_body (negsuc n) req conn = done (some req, conn)
read_body (pos cl) req conn =
    if ltb 0 cl
    then (if ltb max_body cl
        then done (none, conn)
        else (read_exact cl conn >>= λ r. done (some (record req { body = r.0 }), r.1)))
    else done (some req, conn)

-- `parse`; `none` is the result `false`.
unfoldable pub parse : Connection → HttpRequest → Run (Option HttpRequest × Connection)
parse conn req = read_until header_end conn >>= λ r.
    if is_empty r.0 then done (none, r.1) else elim (parse_head r.0 req) [
      | none ↦ done (none, r.1)
      | some req' ↦ read_body (content_length req') req' r.1
    ]
