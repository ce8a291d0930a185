-- ===== src/Tests/Message.antt =====
-- http/: messages as a client sends them.
use coroutine_http.Prelude.{
  ◌+◌, ◌%◌, ◌<◌, true, false, Bytes, take, All, ◌≡◌, refl, some, [], ◌∷◌, ◌++◌, length, bytes,
  bytes_eq, find, starts_with, arith,
}
use coroutine_http.Prelude.Dict.{lookup}
use coroutine_http.Net.Run.{done, Ends}
use coroutine_http.Net.Connection.{Connection, Written, accepted, received, connect}
use coroutine_http.Net.Connection.Writing.{Writes, room}
use coroutine_http.Net.Connection.Live.{Delivered}
use coroutine_http.Http.Text.{to_lower, trim, trim_front, trim_back, to_string}
use coroutine_http.Http.Request.{new_request}
use coroutine_http.Http.Parser.{parse}
use coroutine_http.Http.Parser.Paths.{percent_encode, url_encode}
use coroutine_http.Http.Response.{HttpResponse, set_body, flush}
use coroutine_http.Http.Response.Reply.{Reply, read_reply, read_head}
use coroutine_http.Http.Response.Framing.{IsHeader, status_line}
use coroutine_http.Http.Response.Client.{response_bytes, value_of, flush-read_reply}
use coroutine_http.Http.Message.{Message, head, request_of, Avoids, IsSendable}
use coroutine_http.Ws.WebSocket.{ws_magic, handshake}
use coroutine_http.Ws.WebSocket.Handshake.{upgrade, agreed, response, handshake-upgrade}
use coroutine_http.Http.Message.RoundTrip.{parse-request_of}
use coroutine_http.Http.Message.Conversation.{sent}
use coroutine_http.Tests.Pipeline.{answer}

-- A path with a blank, a query with the bytes that cut one, and fields in mixed case.
abbrev post_message : Message
post_message = record {
  method = bytes "Post";
  path = bytes "/a b";
  query = (bytes "k&", bytes "v=+%") ∷ (bytes "", bytes "") ∷ [];
  fields = (bytes "Host", bytes "example") ∷ (bytes "connecTION", bytes " close ") ∷ [];
  body = bytes "hi";
}

abbrev get_message : Message
get_message = record { method = bytes "GET"; path = bytes "/"; query = []; fields = []; body = [] }

post_message-IsSendable : IsSendable post_message
unfolding find starts_with to_lower trim trim_front trim_back
post_message-IsSendable = record {
  method = ground arith;
  path = ground arith;
  some_path = refl;
  safe = refl;
  query = ground arith;
  fields = ground arith;
  body = omega arith;
}

abbrev posting : Connection
unfolding connect
posting = connect 5 (received (head post_message ++ (post_message.body ++ bytes "GE")) ∷ []) []

parse-request_of_example :
    (d : Connection) × (parse posting new_request ≡ done (some (request_of post_message), d))
    × Delivered (bytes "GE") posting d
unfolding posting connect percent_encode url_encode to_string
parse-request_of_example =
    parse-request_of post_message post_message-IsSendable (bytes "GE") posting refl refl

-- A GET and then a POST that asks for the end, on a socket that takes both answers.
abbrev talking : Connection
unfolding connect
talking =
    connect 5 (received (sent get_message (post_message ∷ []) (bytes "XY")) ∷ [])
      (accepted (length answer) ∷ accepted (length answer) ∷ [])

abbrev created : HttpResponse
created = record {
  status_code = 201;
  headers = (bytes "Connection", bytes "close") ∷ (bytes "X-Id", bytes "7") ∷ [];
}

created-IsHeader : All IsHeader created.headers
unfolding to_lower
created-IsHeader = (
  (ground arith, ground arith, ground arith, ground arith, ground arith, refl, λ e. ground arith),
  (
    (ground arith, ground arith, ground arith, ground arith, ground arith, refl, λ e. ground arith),
    tt,
  ),
)

-- A socket that takes all that it is given.
abbrev writable : Connection
unfolding connect
writable = connect 5 [] (accepted 1000 ∷ [])

flush-read_reply_example :
    (rep : Reply) × (read_reply
        (response_bytes (bytes "text/plain") (bytes "hi") created ++ bytes "HTTP")
      ≡ some (rep, bytes "HTTP"))
    × (rep.status_line ≡ status_line created)
    × (rep.body ≡ bytes "hi")
    × (lookup (bytes "X-Id") rep.fields
        ≡ value_of (bytes "text/plain") (bytes "hi") created (bytes "X-Id"))
    × Ends
        ((writable.closed ≡ false)
          × (room writable.outgoing
              < length (response_bytes (bytes "text/plain") (bytes "hi") created)))
        (λ r.
          (w : Written) × Writes
            (response_bytes (bytes "text/plain") (bytes "hi") created)
            writable
            w
            r.1)
        (flush (set_body (bytes "text/plain") (bytes "hi") created) writable)
flush-read_reply_example =
    flush-read_reply (bytes "text/plain") (bytes "hi") (bytes "HTTP") (bytes "X-Id") created
      writable created-IsHeader (ground arith, ground arith) (omega arith)

-- Functions in the place of SHA1 and Base64: twenty bytes, and letters.
abbrev sha1 : Bytes → Bytes
sha1 s = take 20 s

abbrev base64 : Bytes → Bytes
base64 [] = []
base64 (c ∷ s) = (b'A' + c % 26) ∷ base64 s

base64-Avoids : (s : Bytes) → Avoids 13 (base64 s) × Avoids 10 (base64 s)
base64-Avoids [] = (tt, tt)
base64-Avoids (c ∷ s) = let (p, q) = base64-Avoids s in ((ground arith, p), (ground arith, q))

abbrev client_key : Bytes
client_key = bytes "dGhlIHNhbXBsZSBub25jZQ=="

abbrev joining : Message
joining = upgrade (bytes "/ws") ((bytes "nick", bytes "a b") ∷ []) client_key

joining-IsSendable : IsSendable joining
unfolding find starts_with to_lower trim trim_front trim_back
joining-IsSendable = record {
  method = ground arith;
  path = ground arith;
  some_path = refl;
  safe = refl;
  query = ground arith;
  fields = ground arith;
  body = omega arith;
}

abbrev opening : Connection
unfolding connect
opening = connect 5 (received (head joining ++ bytes "F") ∷ []) (accepted 1000 ∷ [])

handshake-upgrade_example :
    (d : Connection) × (parse opening new_request ≡ done (some (request_of joining), d))
    × Delivered (bytes "F") opening d
    × Ends
        ((d.closed ≡ false) × (room d.outgoing < length (response sha1 base64 client_key)))
        (λ r. (r.0 ≡ true) × ((w : Written) × Writes (response sha1 base64 client_key) d w r.1))
        (handshake sha1 base64 d (request_of joining).headers)
    × (read_head (response sha1 base64 client_key ++ bytes "G")
        ≡ some (
          bytes "HTTP/1.1 101 Switching Protocols",
          agreed (base64 (sha1 (client_key ++ ws_magic))),
          bytes "G",
        ))
unfolding opening connect percent_encode url_encode to_string
handshake-upgrade_example =
    handshake-upgrade sha1 base64 base64-Avoids (bytes "/ws") ((bytes "nick", bytes "a b") ∷ [])
      client_key (bytes "F") (bytes "G") opening joining-IsSendable (ground arith) refl refl refl
