-- ===== src/Http/Response.antt =====
-- http/http_response.h and http/http_response.cpp. A status code is not negative.
pub mod Lengths
pub mod Reply
pub mod Framing
pub mod Client
use coroutine_http.Prelude.{
  ℕ, Option, none, some, List, [], ◌∷◌, ◌++◌, length, ◌==◌, if◌then◌else◌, Bytes, bytes, bytes_eq,
  bytes_less,
}
use coroutine_http.Prelude.Dict.{Dict, lookup, put, erase}
use coroutine_http.Net.Run.{Run, done, ◌>>=◌}
use coroutine_http.Net.Connection.{Connection, write}
use coroutine_http.Http.Text.{to_string}

pub record HttpResponse : Type 0 where
  pub status_code : ℕ
  pub headers : Dict Bytes Bytes

-- `HttpResponse()`
abbrev pub new_response : HttpResponse
new_response = record { status_code = 200; headers = [] }

unfoldable pub status_text : ℕ → Bytes
status_text code =
    if code == 200
    then bytes "OK"
    else (if code == 201
        then bytes "Created"
        else (if code == 204
            then bytes "No Content"
            else (if code == 301
                then bytes "Moved Permanently"
                else (if code == 302
                    then bytes "Found"
                    else (if code == 304
                        then bytes "Not Modified"
                        else (if code == 400
                            then bytes "Bad Request"
                            else (if code == 401
                                then bytes "Unauthorized"
                                else (if code == 403
                                    then bytes "Forbidden"
                                    else (if code == 404
                                        then bytes "Not Found"
                                        else (if code == 405
                                            then bytes "Method Not Allowed"
                                            else (if code == 500
                                                then bytes "Internal Server Error"
                                                else (if code == 502
                                                    then bytes "Bad Gateway"
                                                    else (if code == 503
                                                        then bytes "Service Unavailable"
                                                        else bytes "Unknown")))))))))))))

unfoldable pub status : ℕ → HttpResponse → HttpResponse
status code res = record res { status_code = code }

unfoldable pub header : Bytes → Bytes → HttpResponse → HttpResponse
header key value res = record res { headers = put bytes_less key value res.headers }

-- The key under which the body waits for `flush`. In the literal "\x01body" the hexadecimal escape
-- takes the `b` as its third digit: the string is the byte 0x1b and "ody".
abbrev pub body_key : Bytes
body_key = 0x1b ∷ bytes "ody"

unfoldable pub set_body : Bytes → Bytes → HttpResponse → HttpResponse
unfolding header
set_body content_type body res = header body_key body (
    header (bytes "Content-Length") (to_string (length body))
      (header (bytes "Content-Type") content_type res))

-- The body, and the response without it.
unfoldable pub take_body : HttpResponse → Bytes × HttpResponse
take_body res = elim (lookup body_key res.headers) [
  | none ↦ ([], res)
  | some body ↦ (body, record res { headers = erase body_key res.headers })
]

-- A header that has no value yet gets one.
unfoldable pub default_header : Bytes → Bytes → HttpResponse → HttpResponse
default_header key value res = elim (lookup key res.headers) [
  | none ↦ header key value res
  | some v ↦ res
]

unfoldable pub header_lines : Dict Bytes Bytes → Bytes
header_lines [] = []
header_lines ((k, v) ∷ m) = k ++ (bytes ": " ++ (v ++ (bytes "\r\n" ++ header_lines m)))

unfoldable pub serialize : HttpResponse → Bytes → Bytes
unfolding status_text header_lines
serialize res body =
    bytes "HTTP/1.1 "
    ++ (to_string res.status_code
        ++ (bytes " "
            ++ (status_text res.status_code
                ++ (bytes "\r\n" ++ (header_lines res.headers ++ (bytes "\r\n" ++ body))))))

-- The response as `flush` sends it, with the default headers.
unfoldable pub complete : HttpResponse → HttpResponse
unfolding default_header
complete res =
    default_header (bytes "Connection") (bytes "keep-alive")
      (default_header (bytes "Server") (bytes "coroutine-http/1.0") res)

unfoldable pub flush : HttpResponse → Connection → Run (HttpResponse × Connection)
flush res conn =
    let taken = take_body res in
    let sent = complete taken.1 in write (serialize sent taken.0) conn >>= λ r. done (sent, r.1)

unfoldable pub text : Bytes → HttpResponse → Connection → Run (HttpResponse × Connection)
text body res conn = flush (set_body (bytes "text/plain; charset=utf-8") body res) conn

unfoldable pub json : Bytes → HttpResponse → Connection → Run (HttpResponse × Connection)
json body res conn = flush (set_body (bytes "application/json") body res) conn

unfoldable pub html : Bytes → HttpResponse → Connection → Run (HttpResponse × Connection)
html body res conn = flush (set_body (bytes "text/html; charset=utf-8") body res) conn

unfoldable pub send : HttpResponse → Connection → Run (HttpResponse × Connection)
send res conn = flush res conn
