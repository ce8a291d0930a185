-- ===== src/Tests/Ws.antt =====
-- ws/: a masked text frame, an oversized one, and a frame of the server's own.
use coroutine_http.Prelude.{
  ◌≤◌, ◌≡◌, refl, true, false, some, [], ◌∷◌, ◌++◌, length, Bytes, bytes, arith,
}
use coroutine_http.Net.Run.{done, Ends}
use coroutine_http.Net.Connection.{Connection, received, connect}
use coroutine_http.Net.Connection.Stream.{is_live, Used}
use coroutine_http.Net.Connection.Live.{Delivered}
use coroutine_http.Ws.WebSocket.{WsFrame, text, max_payload, recv_frame, encode_frame}
use coroutine_http.Ws.WebSocket.Wire.{rfc_frame}
use coroutine_http.Ws.WebSocket.RoundTrip.{recv_frame-rfc_frame, recv_frame-encode_frame}
use coroutine_http.Ws.WebSocket.Safety.{recv_frame_safe}

abbrev key : Bytes
key = 1 ∷ 2 ∷ 3 ∷ 4 ∷ []

abbrev hello : Bytes
hello = bytes "hello"

-- A client's frame with the first byte of the next.
abbrev from_client : Connection
unfolding connect
from_client = connect 5 (received (rfc_frame true text (some key) hello ++ 9 ∷ []) ∷ []) []

recv_frame-rfc_frame_example :
    (d : Connection) × (recv_frame from_client
      ≡ done (some (record { fin = true; opcode = text; masked = true; payload = hello }), d))
    × Delivered (9 ∷ []) from_client d
unfolding from_client
recv_frame-rfc_frame_example =
    recv_frame-rfc_frame true text (some key) hello (9 ∷ []) from_client tt (refl, ground arith)
      (ground arith) (omega arith) refl refl

abbrev from_server : Connection
unfolding connect encode_frame
from_server = connect 5 (received (encode_frame text hello ++ 9 ∷ []) ∷ []) []

recv_frame-encode_frame_example :
    (d : Connection) × (recv_frame from_server
      ≡ done (some (record { fin = true; opcode = text; masked = false; payload = hello }), d))
    × Delivered (9 ∷ []) from_server d
unfolding from_server
recv_frame-encode_frame_example =
    recv_frame-encode_frame text hello (9 ∷ []) from_server tt (ground arith) (omega arith) refl
      refl

recv_frame_safe_example :
    Ends
      (is_live from_client ≡ true)
      (λ r.
        Used from_client r.1
        × ((f : WsFrame)
            → r.0 ≡ some f
            → (length f.payload ≤ max_payload) × (is_live r.1 ≡ is_live from_client)))
      (recv_frame from_client)
recv_frame_safe_example = recv_frame_safe from_client
