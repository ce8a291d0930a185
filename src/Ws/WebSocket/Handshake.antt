-- ===== src/Ws/WebSocket/Handshake.antt =====
-- The opening handshake of RFC 6455 between a client and `handshake` of ws/websocket.cpp, over what
-- http/http_parser.cpp makes of the client's request.
use mathlib.Core.Path.{subst}
use coroutine_http.Prelude.{
  ◌<◌, ◌≡◌, refl, sym, ap, ◌∙◌, true, false, some, List, [], ◌∷◌, ◌++◌, append_assoc, length, Bytes,
  bytes, bytes_eq, is_empty, All, arith,
}
use coroutine_http.Prelude.Dict.{lookup, insert}
use coroutine_http.Net.Run.{done, ◌>>=◌, Ends, Ends-bind, returns}
use coroutine_http.Net.Connection.{Connection, Written, write}
use coroutine_http.Net.Connection.Stream.{stream, is_live}
use coroutine_http.Net.Connection.Live.{Delivered}
use coroutine_http.Net.Connection.Writing.{Writes, room, write_correct}
use coroutine_http.Http.Text.{to_lower, trim, trim_front, trim_back, to_string, digits_loop}
use coroutine_http.Http.Request.{new_request}
use coroutine_http.Http.Parser.{parse, header_end}
use coroutine_http.Http.Message.{
  Message, head, field_lines, joined, request_of, bare, Avoids, IsSendable,
}
use coroutine_http.Http.Message.Scan.{IsLine}
use coroutine_http.Http.Message.Fields.{HasNoBlank, trim-HasNoBlank}
use coroutine_http.Http.Message.RoundTrip.{parse-request_of}
use coroutine_http.Http.Response.Reply.{read_head}
use coroutine_http.Http.Response.Framing.{IsOneLine, read_head-joined}
use coroutine_http.Ws.WebSocket.{
  strip_front, strip_back, ws_magic, compute_accept, switching_protocols, handshake,
}

-- The client's request: a GET with its key.
abbrev pub upgrade : Bytes → List (Bytes × Bytes) → Bytes → Message
upgrade path query key = record {
  method = bytes "GET";
  path = path;
  query = query;
  fields =
      (bytes "Host", bytes "localhost")
      ∷ (bytes "Upgrade", bytes "websocket")
      ∷ (bytes "Connection", bytes "Upgrade")
      ∷ (bytes "Sec-WebSocket-Key", key)
      ∷ (bytes "Sec-WebSocket-Version", bytes "13")
      ∷ [];
  body = [];
}

-- The header lines by which the client knows that the server agrees.
abbrev pub agreed : Bytes → List (Bytes × Bytes)
agreed accept =
    (bytes "Upgrade", bytes "websocket")
    ∷ (bytes "Connection", bytes "Upgrade")
    ∷ (bytes "Sec-WebSocket-Accept", accept)
    ∷ []

strip_front-HasNoBlank : (s : Bytes) → HasNoBlank s → strip_front s ≡ s
unfolding strip_front
strip_front-HasNoBlank [] h = refl
strip_front-HasNoBlank (c ∷ s) h = ground (arith, h.0)

strip_back-HasNoBlank : (s : Bytes) → HasNoBlank s → strip_back s ≡ s
unfolding strip_back
strip_back-HasNoBlank [] h = refl
strip_back-HasNoBlank (c ∷ s) h = ground (arith, h.0, strip_back-HasNoBlank s h.1)

strip-HasNoBlank : (s : Bytes) → HasNoBlank s → strip_back (strip_front s) ≡ s
strip-HasNoBlank s h = ap strip_back (strip_front-HasNoBlank s h) ∙ strip_back-HasNoBlank s h

lookup-upgrade :
    (path : Bytes) (query : List (Bytes × Bytes)) (key : Bytes)
    → lookup (bytes "sec-websocket-key") (bare (upgrade path query key)).headers ≡ some (trim key)
unfolding lookup insert to_lower trim trim_front trim_back to_string digits_loop
lookup-upgrade path query key = refl

switching-IsLine : IsLine (bytes "HTTP/1.1 101 Switching Protocols")
switching-IsLine = ground arith

module _ (sha1 base64 : Bytes → Bytes) where
  -- The bytes that the server sends.
  abbrev pub response : Bytes → Bytes
  response key = switching_protocols sha1 base64 (base64 (sha1 (key ++ ws_magic)))

module _ (sha1 base64 : Bytes → Bytes)
    (one_line : (s : Bytes) → Avoids 13 (base64 s) × Avoids 10 (base64 s)) where
  response-joined :
      (accept s : Bytes)
      → switching_protocols sha1 base64 accept ++ s
        ≡ joined (bytes "HTTP/1.1 101 Switching Protocols") (field_lines (agreed accept))
          ++ (header_end ++ s)
  response-joined accept s = simp append_assoc

  agreed-IsOneLine : (s : Bytes) → All IsOneLine (agreed (base64 s))
  agreed-IsOneLine s = (
    ground arith,
    (
      ground arith,
      ((ground arith, ground arith, ground arith, (one_line s).0, (one_line s).1), tt),
    ),
  )

  handshake_writes :
      (path : Bytes) (query : List (Bytes × Bytes)) (key : Bytes) (conn : Connection)
      → HasNoBlank key
      → is_empty key ≡ false
      → handshake sha1 base64 conn (bare (upgrade path query key)).headers
        ≡ (write (response sha1 base64 key) conn >>= λ r. done (true, r.1))
  unfolding handshake compute_accept
  handshake_writes path query key conn h some_key =
      rw
        (
          handshake,
          lookup-upgrade path query key,
          trim-HasNoBlank key h,
          strip-HasNoBlank key h,
          some_key,
        )
        refl

  -- Where the stream of an open connection begins with a client's upgrade request, whose path,
  -- query and key can be sent as they are and whose key is not empty and has no blank, `parse`
  -- returns the request and leaves the stream behind it, and `handshake` on its headers returns
  -- true, having put on the wire the response below, or a prefix of it with the connection then
  -- closed; it waits for ever only on an open connection whose socket never takes it all. From that
  -- response, whatever is sent behind it, the client reads status 101, the two header lines of the
  -- agreement, and the Base64 text of the SHA1 of its key with the GUID, and goes on at the first
  -- byte behind the head.
  pub handshake-upgrade :
      (path : Bytes) (query : List (Bytes × Bytes)) (key ys zs : Bytes) (conn : Connection)
      → IsSendable (upgrade path query key)
      → HasNoBlank key
      → is_empty key ≡ false
      → is_live conn ≡ true
      → stream conn ≡ head (upgrade path query key) ++ ys
      → (d : Connection) × (parse conn new_request
          ≡ done (some (request_of (upgrade path query key)), d))
        × Delivered ys conn d
        × Ends
            ((d.closed ≡ false) × (room d.outgoing < length (response sha1 base64 key)))
            (λ r. (r.0 ≡ true) × ((w : Written) × Writes (response sha1 base64 key) d w r.1))
            (handshake sha1 base64 d (request_of (upgrade path query key)).headers)
        × (read_head (response sha1 base64 key ++ zs)
            ≡ some (
              bytes "HTTP/1.1 101 Switching Protocols",
              agreed (base64 (sha1 (key ++ ws_magic))),
              zs,
            ))
  handshake-upgrade path query key ys zs conn sendable h some_key live e =
      let (d, parsed, left) = parse-request_of (upgrade path query key) sendable ys conn live e in
      let answered =
        Ends-bind {f = λ r. done (true, r.1)} (write_correct (response sha1 base64 key) d) (λ w. w)
          (λ r w. returns (refl, (r.0, w))) in
      (
        d,
        parsed,
        left,
        subst (Ends _ _) (sym (handshake_writes path query key d h some_key)) answered,
        ap read_head (response-joined (base64 (sha1 (key ++ ws_magic))) zs)
            ∙ read_head-joined (bytes "HTTP/1.1 101 Switching Protocols")
                (agreed (base64 (sha1 (key ++ ws_magic)))) zs switching-IsLine
                (agreed-IsOneLine (sha1 (key ++ ws_magic))),
      )
