-- ===== src/Ws/WebSocket/Frames.antt =====
-- Frames of ws/websocket.cpp against the format of the RFC.
use Prim.Native.Nat.{bit_xor}
use coroutine_http.Prelude.{
  ℕ, zero, suc, ◌+◌, ◌/◌, ◌%◌, ◌^◌, ◌≤◌, ◌<◌, ◌≡◌, refl, sym, ap, ◌∙◌, Bool, true, Option, none,
  some, [], ◌∷◌, ◌++◌, length, ◌==◌, if◌then◌else◌, Bytes, All, get_or, arith,
}
use coroutine_http.Net.Run.{done}
use coroutine_http.Net.Connection.{Connection, read_exact}
use coroutine_http.Net.Connection.Stream.{stream, is_live}
use coroutine_http.Net.Connection.Live.{Delivered, Delivered-trans, read_exact_append}
use coroutine_http.Ws.WebSocket.{
  WsOpcode, continuation, text, binary, close, ping, pong, other, to_uint8, of_uint8, WsFrame,
  max_payload, recv_length, recv_mask, unmask, recv_payload, recv_body,
}
use coroutine_http.Ws.WebSocket.Bits.{bit_xor_twice}
use coroutine_http.Ws.WebSocket.Lengths.{recv_length_lem}
use coroutine_http.Ws.WebSocket.Wire.{
  opcode_number, IsOpcode, mask_with, bit, length_7, length_ext, is_masked, key_bytes,
  masked_payload,
}

abbrev pub IsByte : ℕ → Type 0
IsByte b = b < 2 ^ 8

get_or-IsByte : (s : Bytes) (i : ℕ) → All IsByte s → IsByte (get_or s i 0)
get_or-IsByte [] i h = omega arith
get_or-IsByte (x ∷ s) zero h = h.0
get_or-IsByte (x ∷ s) (suc i) h = get_or-IsByte s i h.1

unmask_twice :
    (key : Bytes) (i : ℕ) (payload : Bytes)
    → All IsByte key
    → All IsByte payload
    → unmask key i (unmask key i payload) ≡ payload
unfolding unmask
unmask_twice key i [] hk hp = refl
unmask_twice key i (b ∷ payload) hk hp = cc (
  bit_xor_twice b (get_or key (i % 4) 0) hp.0 (get_or-IsByte key (i % 4) hk),
  unmask_twice key (suc i) payload hk hp.1,
)

pub length-unmask :
    (key : Bytes) (i : ℕ) (payload : Bytes) → length (unmask key i payload) ≡ length payload
unfolding unmask
length-unmask key i [] = refl
length-unmask key i (b ∷ payload) = ap suc (length-unmask key (suc i) payload)

-- The code's numbers of the opcodes are those of the table.
pub to_uint8_lem : (opcode : WsOpcode) → to_uint8 opcode ≡ opcode_number opcode
to_uint8_lem continuation = refl
to_uint8_lem text = refl
to_uint8_lem binary = refl
to_uint8_lem close = refl
to_uint8_lem ping = refl
to_uint8_lem pong = refl
to_uint8_lem (other n) = refl

pub opcode_number-IsOpcode : (opcode : WsOpcode) → IsOpcode opcode → opcode_number opcode < 16
opcode_number-IsOpcode continuation h = omega arith
opcode_number-IsOpcode text h = omega arith
opcode_number-IsOpcode binary h = omega arith
opcode_number-IsOpcode close h = omega arith
opcode_number-IsOpcode ping h = omega arith
opcode_number-IsOpcode pong h = omega arith
opcode_number-IsOpcode (other n) h = h.0

of_uint8-opcode_number :
    (opcode : WsOpcode) → IsOpcode opcode → of_uint8 (opcode_number opcode) ≡ opcode
unfolding of_uint8
of_uint8-opcode_number continuation h = refl
of_uint8-opcode_number text h = refl
of_uint8-opcode_number binary h = refl
of_uint8-opcode_number close h = refl
of_uint8-opcode_number ping h = refl
of_uint8-opcode_number pong h = refl
of_uint8-opcode_number (other n) h = ground (arith, h.1)

-- The masking key, where there is one.
abbrev pub IsKey : Option Bytes → Type 0
IsKey none = Unit {0}
IsKey (some key) = (length key ≡ 4) × All IsByte key

abbrev key_or_zero : Option Bytes → Bytes
key_or_zero none = 0 ∷ 0 ∷ 0 ∷ 0 ∷ []
key_or_zero (some key) = key

recv_mask_lem :
    (key : Option Bytes) (ys : Bytes) (c : Connection)
    → IsKey key
    → is_live c ≡ true
    → stream c ≡ key_bytes key ++ ys
    → (d : Connection) × (recv_mask (is_masked key) c ≡ done (some (key_or_zero key), d))
      × Delivered ys c d
unfolding recv_mask
recv_mask_lem none ys c k live h =
    (c, refl, record { rest = h; live = live; kept = (refl, refl, refl, refl) })
recv_mask_lem (some key) ys c k live h =
    let got = read_exact_append 4 key ys c live h (sym k.0) in (got.0, keyed got.0 got.1, got.2)
  where
    keyed :
        (d : Connection) → read_exact 4 c ≡ done (key, d) → recv_mask true c ≡ done (some key, d)
    keyed d e = ground (arith, k.0)

-- Going round the key is the code's index modulo four, from each of the four places.
module _ (k l m n : ℕ) where
  abbrev four : Bytes
  four = k ∷ l ∷ m ∷ n ∷ []

  mask_with-unmask :
      (i : ℕ) (p : Bytes)
      → (i % 4 ≡ 0 → mask_with (k ∷ l ∷ m ∷ n ∷ []) p ≡ unmask four i p)
        × (i % 4 ≡ 1 → mask_with (l ∷ m ∷ n ∷ k ∷ []) p ≡ unmask four i p)
        × (i % 4 ≡ 2 → mask_with (m ∷ n ∷ k ∷ l ∷ []) p ≡ unmask four i p)
        × (i % 4 ≡ 3 → mask_with (n ∷ k ∷ l ∷ m ∷ []) p ≡ unmask four i p)
  unfolding unmask
  mask_with-unmask i [] = (λ e. refl, λ e. refl, λ e. refl, λ e. refl)
  mask_with-unmask i (b ∷ p) =
      let rest = mask_with-unmask (suc i) p in
      (
        λ e. rw e (ap (◌∷◌ (bit_xor b k)) (rest.1 (omega (arith, e)))),
        λ e. rw e (ap (◌∷◌ (bit_xor b l)) (rest.2 (omega (arith, e)))),
        λ e. rw e (ap (◌∷◌ (bit_xor b m)) (rest.3 (omega (arith, e)))),
        λ e. rw e (ap (◌∷◌ (bit_xor b n)) (rest.0 (omega (arith, e)))),
      )

mask_with-four :
    (key payload : Bytes) → length key ≡ 4 → mask_with key payload ≡ unmask key 0 payload
mask_with-four (k ∷ l ∷ m ∷ n ∷ []) payload h = (mask_with-unmask k l m n 0 payload).0 refl
mask_with-four [] payload h = absurd (omega (arith, h))
mask_with-four (k ∷ []) payload h = absurd (omega (arith, h))
mask_with-four (k ∷ l ∷ []) payload h = absurd (omega (arith, h))
mask_with-four (k ∷ l ∷ m ∷ []) payload h = absurd (omega (arith, h))
mask_with-four (k ∷ l ∷ m ∷ n ∷ o ∷ key) payload h = absurd (omega (arith, h))

length-mask_with : (key payload : Bytes) → length (mask_with key payload) ≡ length payload
length-mask_with [] payload = refl
length-mask_with (k ∷ key) [] = refl
length-mask_with (k ∷ key) (b ∷ payload) = ap suc (length-mask_with (key ++ k ∷ []) payload)

length-masked_payload :
    (key : Option Bytes) (payload : Bytes) → length (masked_payload key payload) ≡ length payload
length-masked_payload none payload = refl
length-masked_payload (some key) payload = length-mask_with key payload

unmasked :
    (key : Option Bytes) (payload : Bytes)
    → IsKey key
    → All IsByte payload
    → (if is_masked key
        then unmask (key_or_zero key) 0 (masked_payload key payload)
        else masked_payload key payload)
      ≡ payload
unmasked none payload k h = refl
unmasked (some key) payload k h =
    ap (unmask key 0) (mask_with-four key payload k.0) ∙ unmask_twice key 0 payload k.1 h

recv_payload_lem :
    (fin : Bool) (opcode : WsOpcode) (key : Option Bytes) (payload ys : Bytes) (c : Connection)
    → IsKey key
    → All IsByte payload
    → is_live c ≡ true
    → stream c ≡ masked_payload key payload ++ ys
    → (d : Connection) × (recv_payload fin opcode
          (is_masked key)
          (length payload)
          (key_or_zero key)
          c
        ≡ done (
          some (record { fin = fin; opcode = opcode; masked = is_masked key; payload = payload }),
          d,
        ))
      × Delivered ys c d
unfolding recv_payload
recv_payload_lem fin opcode key payload ys c k hp live h =
    let got =
      read_exact_append (length payload) (masked_payload key payload) ys c live h
        (sym (length-masked_payload key payload)) in
    (got.0, whole got.0 got.1, got.2)
  where
    whole :
        (d : Connection)
        → read_exact (length payload) c ≡ done (masked_payload key payload, d)
        → recv_payload fin opcode (is_masked key) (length payload) (key_or_zero key) c
          ≡ done (
            some (record { fin = fin; opcode = opcode; masked = is_masked key; payload = payload }),
            d,
          )
    whole d e = ground (arith, length-masked_payload key payload, unmasked key payload k hp)

module _ (fin : Bool) (opcode : WsOpcode) (key : Option Bytes) (payload : Bytes) where
  abbrev pub sent_frame : WsFrame
  sent_frame = record { fin = fin; opcode = opcode; masked = is_masked key; payload = payload }

  -- The tests on the first two bytes read back what the format put there.
  pub first_byte :
      IsOpcode opcode
      → (((bit fin + opcode_number opcode) / 2 ^ 7 % 2 == 1) ≡ fin)
        × (of_uint8 ((bit fin + opcode_number opcode) % 2 ^ 4) ≡ opcode)
  first_byte h =
      let small = opcode_number-IsOpcode opcode h in
      let low : (bit fin + opcode_number opcode) % 2 ^ 4 ≡ opcode_number opcode = ground arith in
      (ground arith, ap of_uint8 low ∙ of_uint8-opcode_number opcode h)

  pub second_byte :
      (len : ℕ)
      → ((bit (is_masked key) + length_7 len) % 2 ^ 7 ≡ length_7 len)
        × (((bit (is_masked key) + length_7 len) / 2 ^ 7 % 2 == 1) ≡ is_masked key)
  second_byte len = (ground arith, ground arith)

  pub recv_body_lem :
      (ys : Bytes) (c : Connection)
      → IsKey key
      → All IsByte payload
      → length payload ≤ max_payload
      → is_live c ≡ true
      → stream c
        ≡ length_ext (length payload) ++ (key_bytes key ++ (masked_payload key payload ++ ys))
      → (d : Connection) × (recv_body fin opcode (is_masked key) (length_7 (length payload)) c
          ≡ done (some sent_frame, d))
        × Delivered ys c d
  unfolding recv_body
  recv_body_lem ys c hk hp small live h =
      let l = recv_length_lem (length payload) _ c (omega arith) live h in
      let m = recv_mask_lem key _ l.0 hk l.2.live l.2.rest in
      let p = recv_payload_lem fin opcode key payload ys m.0 hk hp m.2.live m.2.rest in
      (p.0, whole l.0 m.0 p.0 l.1 m.1 p.1, Delivered-trans (Delivered-trans l.2 m.2) p.2)
    where
      whole :
          (l m p : Connection)
          → recv_length (length_7 (length payload)) c ≡ done (some (length payload), l)
          → recv_mask (is_masked key) l ≡ done (some (key_or_zero key), m)
          → recv_payload fin opcode (is_masked key) (length payload) (key_or_zero key) m
            ≡ done (some sent_frame, p)
          → recv_body fin opcode (is_masked key) (length_7 (length payload)) c
            ≡ done (some sent_frame, p)
      whole l m p el em ep = ground (arith, el, em, ep)
