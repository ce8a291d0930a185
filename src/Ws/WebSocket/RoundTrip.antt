-- ===== src/Ws/WebSocket/RoundTrip.antt =====
-- `recv_frame` and `send_frame` of ws/websocket.cpp as a pair.
use coroutine_http.Prelude.{
  ℕ, ◌+◌, ◌^◌, ◌≤◌, ◌<◌, ◌≡◌, ap, ◌∙◌, Bool, true, false, Option, none, some, [], ◌∷◌, ◌++◌,
  append_assoc, length, Bytes, All, arith,
}
use Prim.Native.Nat.{bit_or}
use native.Mathlib.Decide.{dec_lt}
use coroutine_http.Net.Run.{done}
use coroutine_http.Net.Connection.{Connection, read_exact}
use coroutine_http.Net.Connection.Stream.{stream, is_live}
use coroutine_http.Net.Connection.Live.{Delivered, Delivered-trans, read_exact_append}
use coroutine_http.Ws.WebSocket.{
  WsOpcode, to_uint8, max_payload, recv_length, recv_body, recv_frame, be_bytes, encode_frame,
}
use coroutine_http.Ws.WebSocket.Bits.{bit_or-add}
use coroutine_http.Ws.WebSocket.Frames.{
  IsByte, IsKey, to_uint8_lem, opcode_number-IsOpcode, first_byte, second_byte, recv_body_lem,
}
use coroutine_http.Ws.WebSocket.Lengths.{eight_bytes, recv_length_lem}
use coroutine_http.Ws.WebSocket.Wire.{
  bit, length_7, length_ext, is_masked, key_bytes, masked_payload, rfc_frame, IsOpcode,
  opcode_number,
}

-- A frame header that has arrived is decoded, and the rest is left to `recv_body`.
module _ (fin : Bool) (opcode : WsOpcode) (key : Option Bytes) (len : ℕ) (c : Connection) where
  recv_frame_header :
      (d : Connection)
      → is_live c ≡ true
      → IsOpcode opcode
      → read_exact 2 c
        ≡ done ((bit fin + opcode_number opcode) ∷ (bit (is_masked key) + length_7 len) ∷ [], d)
      → recv_frame c ≡ recv_body fin opcode (is_masked key) (length_7 len) d
  unfolding recv_frame
  recv_frame_header d live ho e =
      let f = first_byte fin opcode key [] ho in
      let s = second_byte fin opcode key [] len in ground (arith, e, f.0, f.1, s.0, s.1)

-- Every frame in the RFC's format, of any opcode of four bits, masked under a key of four bytes or
-- not, whose payload is within the limit, is received with its payload unmasked, however the
-- network cuts it into pieces; what follows it stays in the stream, and the connection stays open.
pub recv_frame-rfc_frame :
    (fin : Bool) (opcode : WsOpcode) (key : Option Bytes) (payload ys : Bytes) (c : Connection)
    → IsOpcode opcode
    → IsKey key
    → All IsByte payload
    → length payload ≤ max_payload
    → is_live c ≡ true
    → stream c ≡ rfc_frame fin opcode key payload ++ ys
    → (d : Connection) × (recv_frame c
        ≡ done (
          some (record { fin = fin; opcode = opcode; masked = is_masked key; payload = payload }),
          d,
        ))
      × Delivered ys c d
recv_frame-rfc_frame fin opcode key payload ys c ho hk hp small live h =
    let len = length payload in
    let header : Bytes =
      (bit fin + opcode_number opcode) ∷ (bit (is_masked key) + length_7 len) ∷ [] in
    let two = read_exact_append 2 header _ c live (h ∙ split) (omega arith) in
    let body = recv_body_lem fin opcode key payload ys two.0 hk hp small two.2.live two.2.rest in
    (
      body.0,
      recv_frame_header fin opcode key len c two.0 live ho two.1 ∙ body.1,
      Delivered-trans two.2 body.2,
    )
  where
    split :
        rfc_frame fin opcode key payload ++ ys
        ≡ (bit fin + opcode_number opcode)
          ∷ (bit (is_masked key) + length_7 (length payload))
          ∷ (length_ext (length payload) ++ (key_bytes key ++ (masked_payload key payload ++ ys)))
    split = simp append_assoc

-- A frame that announces more than the limit is refused as soon as its length is known: nothing
-- behind the length is read.
pub recv_frame-oversized :
    (fin : Bool) (opcode : WsOpcode) (key : Option Bytes) (len : ℕ) (ys : Bytes) (c : Connection)
    → IsOpcode opcode
    → max_payload < len
    → len < 2 ^ 64
    → is_live c ≡ true
    → stream c
      ≡ (bit fin + opcode_number opcode)
        ∷ (bit (is_masked key) + length_7 len)
        ∷ (length_ext len ++ ys)
    → (d : Connection) × (recv_frame c ≡ done (none, d)) × Delivered ys c d
unfolding recv_body
recv_frame-oversized fin opcode key len ys c ho big small live h =
    let header : Bytes =
      (bit fin + opcode_number opcode) ∷ (bit (is_masked key) + length_7 len) ∷ [] in
    let two = read_exact_append 2 header _ c live h (omega arith) in
    let l = recv_length_lem len ys two.0 small two.2.live two.2.rest in
    (
      l.0,
      recv_frame_header fin opcode key len c two.0 live ho two.1 ∙ refused two.0 l.0 l.1,
      Delivered-trans two.2 l.2,
    )
  where
    refused :
        (d e : Connection)
        → recv_length (length_7 len) d ≡ done (some len, e)
        → recv_body fin opcode (is_masked key) (length_7 len) d ≡ done (none, e)
    refused d e h = ground (arith, h)

-- The loop that writes a long length writes its eight bytes.
be_bytes_eight : (len : ℕ) → len < 2 ^ 64 → be_bytes 8 len ≡ eight_bytes len
unfolding be_bytes
be_bytes_eight len h = ground arith

-- `send_frame` writes the RFC's format: a final frame of any opcode of four bits, not masked.
pub encode_frame-rfc_frame :
    (opcode : WsOpcode) (payload : Bytes)
    → IsOpcode opcode
    → length payload < 2 ^ 64
    → encode_frame opcode payload ≡ rfc_frame true opcode none payload
unfolding encode_frame
encode_frame-rfc_frame opcode payload o h =
    let number = to_uint8_lem opcode in
    let first : bit_or (2 ^ 7) (to_uint8 opcode) ≡ 2 ^ 7 + opcode_number opcode =
      ap (bit_or (2 ^ 7)) number
      ∙ bit_or-add (opcode_number opcode) (opcode_number-IsOpcode opcode o) in
    elim (dec_lt (length payload) 126) [
      | yes short ↦ ground (arith, first)
      | no long ↦ elim (dec_lt (length payload) (2 ^ 16)) [
        | yes two ↦ ground (arith, first)
        | no eight ↦ ground (arith, first, be_bytes_eight (length payload) h)
      ]
    ]

-- So a peer that reads by the same rules gets back what was sent, byte for byte.
pub recv_frame-encode_frame :
    (opcode : WsOpcode) (payload ys : Bytes) (c : Connection)
    → IsOpcode opcode
    → All IsByte payload
    → length payload ≤ max_payload
    → is_live c ≡ true
    → stream c ≡ encode_frame opcode payload ++ ys
    → (d : Connection) × (recv_frame c
        ≡ done
            (some (record { fin = true; opcode = opcode; masked = false; payload = payload }), d))
      × Delivered ys c d
recv_frame-encode_frame opcode payload ys c ho hp small live h =
    recv_frame-rfc_frame true opcode none payload ys c ho tt hp small live
      (h ∙ ap (λ s. s ++ ys) (encode_frame-rfc_frame opcode payload ho (omega arith)))
