-- ===== src/Ws/WebSocket/Wire.antt =====
-- The frame format of RFC 6455, section 5.2, which ws/websocket.cpp draws in a comment, written
-- down apart from the code that reads and writes it; of the code it has only the names of opcodes.
use Prim.Native.Nat.{bit_xor}
use coroutine_http.Prelude.{
  ℕ, ◌+◌, ◌/◌, ◌%◌, ◌^◌, ◌<◌, ◌≡◌, Bool, true, false, ◌&&◌, ◌||◌, Option, none, some, [], ◌∷◌, ◌++◌,
  length, ltb, leb, if◌then◌else◌, Bytes,
}
use coroutine_http.Ws.WebSocket.{WsOpcode, continuation, text, binary, close, ping, pong, other}

-- The table of opcodes.
abbrev pub opcode_number : WsOpcode → ℕ
opcode_number continuation = 0x0
opcode_number text = 0x1
opcode_number binary = 0x2
opcode_number close = 0x8
opcode_number ping = 0x9
opcode_number pong = 0xA
opcode_number (other n) = n

-- The numbers that have a name in it.
abbrev pub is_named : ℕ → Bool
is_named n = leb n 0x2 || (leb 0x8 n && leb n 0xA)

-- An opcode of four bits, written by its name where it has one.
abbrev pub IsOpcode : WsOpcode → Type 0
IsOpcode (other n) = (n < 16) × (is_named n ≡ false)
IsOpcode continuation = Unit {0}
IsOpcode text = Unit {0}
IsOpcode binary = Unit {0}
IsOpcode close = Unit {0}
IsOpcode ping = Unit {0}
IsOpcode pong = Unit {0}

abbrev pub bit : Bool → ℕ
bit b = if b then 128 else 0

-- The seven-bit length, and the extended length behind it.
abbrev pub length_7 : ℕ → ℕ
length_7 len = if ltb len 126 then len else (if ltb len (2 ^ 16) then 126 else 127)

abbrev pub length_ext : ℕ → Bytes
length_ext len =
    if ltb len 126
    then []
    else (if ltb len (2 ^ 16)
        then (len / 2 ^ 8) ∷ (len % 2 ^ 8) ∷ []
        else (len / 2 ^ 56)
          ∷ (len / 2 ^ 48 % 2 ^ 8)
          ∷ (len / 2 ^ 40 % 2 ^ 8)
          ∷ (len / 2 ^ 32 % 2 ^ 8)
          ∷ (len / 2 ^ 24 % 2 ^ 8)
          ∷ (len / 2 ^ 16 % 2 ^ 8)
          ∷ (len / 2 ^ 8 % 2 ^ 8)
          ∷ (len % 2 ^ 8)
          ∷ [])

abbrev pub is_masked : Option Bytes → Bool
is_masked none = false
is_masked (some key) = true

-- Section 5.3: each byte is combined with the next byte of the key, which is gone through round and
-- round.
abbrev pub mask_with : Bytes → Bytes → Bytes
mask_with [] payload = payload
mask_with (k ∷ key) [] = []
mask_with (k ∷ key) (b ∷ payload) = bit_xor b k ∷ mask_with (key ++ k ∷ []) payload

-- The masking key and the payload under it.
abbrev pub key_bytes : Option Bytes → Bytes
key_bytes none = []
key_bytes (some key) = key

abbrev pub masked_payload : Option Bytes → Bytes → Bytes
masked_payload none payload = payload
masked_payload (some key) payload = mask_with key payload

abbrev pub rfc_frame : Bool → WsOpcode → Option Bytes → Bytes → Bytes
rfc_frame fin opcode key payload =
    (bit fin + opcode_number opcode)
    ∷ (bit (is_masked key) + length_7 (length payload))
    ∷ (length_ext (length payload) ++ (key_bytes key ++ masked_payload key payload))
