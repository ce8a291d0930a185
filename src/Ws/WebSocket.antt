-- ===== src/Ws/WebSocket.antt =====
-- ws/websocket.h and ws/websocket.cpp. A `char` is its byte value. A shift that makes room for
-- the byte that `|` puts in is a product, and `|` the sum; `&` with a low mask is a remainder.
-- OpenSSL's SHA1 and Base64 are parameters of the handshake.
pub mod Wire
pub mod Bits
pub mod Lengths
pub mod Frames
pub mod RoundTrip
pub mod Safety
pub mod Handshake
use Prim.Native.Nat.{bit_or, bit_xor}
use coroutine_http.Prelude.{
  ℕ, zero, suc, ◌+◌, ◌*◌, ◌/◌, ◌%◌, ◌^◌, Bool, true, false, ◌&&◌, ◌||◌, Option, none, some, List,
  [], ◌∷◌, ◌++◌, length, ltb, ◌==◌, if◌then◌else◌, Bytes, bytes, bytes_eq, is_empty, get_or,
}
use coroutine_http.Prelude.Dict.{Dict, lookup}
use coroutine_http.Net.Run.{Run, done, ◌>>=◌}
use coroutine_http.Net.Connection
use coroutine_http.Net.Connection.{Connection, read_exact, write, Written}

-- The enumeration has an underlying `uint8_t`, so a value may be none of the listed ones.
pub data WsOpcode : Type 0 where
  continuation text binary close ping pong : WsOpcode
  other : ℕ → WsOpcode

-- `static_cast<uint8_t>`
abbrev pub to_uint8 : WsOpcode → ℕ
to_uint8 continuation = 0
to_uint8 text = 1
to_uint8 binary = 2
to_uint8 close = 8
to_uint8 ping = 9
to_uint8 pong = 10
to_uint8 (other n) = n

-- `static_cast<WsOpcode>`
unfoldable pub of_uint8 : ℕ → WsOpcode
of_uint8 n =
    if n == 0
    then continuation
    else (if n == 1
        then text
        else (if n == 2
            then binary
            else (if n == 8
                then close
                else (if n == 9 then ping else (if n == 10 then pong else other n)))))

pub record WsFrame : Type 0 where
  pub fin : Bool
  pub opcode : WsOpcode
  pub masked : Bool
  pub payload : Bytes

-- 10 MB, the largest payload that is read.
abbrev pub max_payload : ℕ
max_payload = 10 * 1024 * 1024

-- The eight-byte length: `payload_len = (payload_len << 8) | ext[i]` in a `uint64_t`.
unfoldable pub be_loop : ℕ → Bytes → ℕ
be_loop payload_len [] = payload_len
be_loop payload_len (b ∷ ext) = be_loop (payload_len * 2 ^ 8 % 2 ^ 64 + b) ext

-- The extended length that the 7-bit length asks for.
unfoldable pub recv_length : ℕ → Connection → Run (Option ℕ × Connection)
recv_length payload_len c =
    if payload_len == 126
    then (read_exact 2 c >>= λ r.
        if ltb (length r.0) 2
        then done (none, r.1)
        else done (some (get_or r.0 0 0 * 2 ^ 8 + get_or r.0 1 0), r.1))
    else (if payload_len == 127
        then (read_exact 8 c >>= λ r.
            if ltb (length r.0) 8 then done (none, r.1) else done (some (be_loop 0 r.0), r.1))
        else done (some payload_len, c))

-- The masking key, all zero where the frame has none.
unfoldable pub recv_mask : Bool → Connection → Run (Option Bytes × Connection)
recv_mask masked c =
    if masked
    then (read_exact 4 c >>= λ r.
        if ltb (length r.0) 4 then done (none, r.1) else done (some r.0, r.1))
    else done (some (0 ∷ 0 ∷ 0 ∷ 0 ∷ []), c)

-- `payload[i] ^= mask[i % 4]`, from index `i` on.
unfoldable pub unmask : Bytes → ℕ → Bytes → Bytes
unmask mask i [] = []
unmask mask i (b ∷ payload) = bit_xor b (get_or mask (i % 4) 0) ∷ unmask mask (suc i) payload

-- The payload, unmasked if the frame is masked.
unfoldable pub recv_payload :
    Bool → WsOpcode → Bool → ℕ → Bytes → Connection → Run (Option WsFrame × Connection)
recv_payload fin opcode masked payload_len mask c = read_exact payload_len c >>= λ r.
    if ltb (length r.0) payload_len
    then done (none, r.1)
    else done (
      some (record {
        fin = fin;
        opcode = opcode;
        masked = masked;
        payload = if masked then unmask mask 0 r.0 else r.0;
      }),
      r.1,
    )

-- All that follows the first two bytes: the 7-bit length is known.
unfoldable pub recv_body :
    Bool → WsOpcode → Bool → ℕ → Connection → Run (Option WsFrame × Connection)
recv_body fin opcode masked len_7 c = recv_length len_7 c >>= λ l. elim l.0 [
  | none ↦ done (none, l.1)
  | some payload_len ↦
      if ltb max_payload payload_len
      then done (none, l.1)
      else (recv_mask masked l.1 >>= λ m. elim m.0 [
        | none ↦ done (none, m.1)
        | some mask ↦ recv_payload fin opcode masked payload_len mask m.1
      ])
]

-- `none` is the result `false`; what the out-parameter then holds is not read by any caller.
unfoldable pub recv_frame : Connection → Run (Option WsFrame × Connection)
recv_frame c =
    if c.closed
    then done (none, c)
    else (read_exact 2 c >>= λ r.
        if ltb (length r.0) 2
        then done (none, r.1)
        else (let b0 = get_or r.0 0 0 in
            let b1 = get_or r.0 1 0 in
            recv_body (b0 / 2 ^ 7 % 2 == 1) (of_uint8 (b0 % 2 ^ 4)) (b1 / 2 ^ 7 % 2 == 1)
              (b1 % 2 ^ 7) r.1))

-- `for (int i = 7; i >= 0; i--) frame += (len >> (8 * i)) & 0xFF`, `n` rounds of it.
unfoldable pub be_bytes : ℕ → ℕ → Bytes
be_bytes zero len = []
be_bytes (suc i) len = (len / 2 ^ (8 * i) % 2 ^ 8) ∷ be_bytes i len

-- The frame that `send_frame` builds.
unfoldable pub encode_frame : WsOpcode → Bytes → Bytes
encode_frame opcode payload =
    let len = length payload in
    (bit_or (2 ^ 7) (to_uint8 opcode))
    ∷ ((if ltb len 126
          then len ∷ []
          else (if ltb len 65536
              then 126 ∷ (len / 2 ^ 8 % 2 ^ 8) ∷ (len % 2 ^ 8) ∷ []
              else 127 ∷ be_bytes 8 len))
        ++ payload)

unfoldable pub send_frame : WsOpcode → Bytes → Connection → Run (Written × Connection)
send_frame opcode payload c = write (encode_frame opcode payload) c

unfoldable pub send_text : Bytes → Connection → Run (Written × Connection)
send_text msg c = send_frame text msg c

unfoldable pub send_close : Connection → Run (Written × Connection)
send_close c = send_frame close [] c >>= λ r. done (r.0, Connection.close r.1)

abbrev pub ws_magic : Bytes
ws_magic = bytes "258EAFA5-E914-47DA-95CA-C5AB0DC85B11"

-- The two loops that clean the key: blanks in front, blanks and `\r` behind.
unfoldable pub strip_front : Bytes → Bytes
strip_front [] = []
strip_front (b ∷ key) = let rest = strip_front key in if b == b' ' then rest else b ∷ key

-- From the end: an end of blanks and `\r` goes.
unfoldable pub strip_back : Bytes → Bytes
strip_back [] = []
strip_back (b ∷ key) =
    let rest = strip_back key in if is_empty rest && (b == b' ' || b == 13) then [] else b ∷ rest

module _ (sha1 base64 : Bytes → Bytes) where
  unfoldable pub compute_accept : Bytes → Bytes
  compute_accept key = base64 (sha1 (key ++ ws_magic))

  abbrev pub switching_protocols : Bytes → Bytes
  switching_protocols accept =
      bytes
        "HTTP/1.1 101 Switching Protocols\r\nUpgrade: websocket\r\nConnection: Upgrade\r\nSec-WebSocket-Accept: "
      ++ accept
      ++ bytes "\r\n\r\n"

  unfoldable pub handshake : Connection → Dict Bytes Bytes → Run (Bool × Connection)
  handshake conn headers = elim (lookup (bytes "sec-websocket-key") headers) [
    | none ↦ done (false, conn)
    | some raw ↦
        let key = strip_back (strip_front raw) in
        if is_empty key
        then done (false, conn)
        else (write (switching_protocols (compute_accept key)) conn >>= λ r. done (true, r.1))
  ]
