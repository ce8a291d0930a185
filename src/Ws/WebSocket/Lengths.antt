-- ===== src/Ws/WebSocket/Lengths.antt =====
-- The extended length of a frame: `recv_length` of ws/websocket.cpp against the format of the RFC.
use coroutine_http.Prelude.{
  ℕ, ◌/◌, ◌%◌, ◌^◌, ◌≤◌, ◌<◌, ◌≡◌, refl, ap, ◌∙◌, true, some, [], ◌∷◌, ◌++◌, Bytes, arith,
}
use native.Mathlib.Decide.{dec_lt}
use coroutine_http.Net.Run.{done}
use coroutine_http.Net.Connection.{Connection, read_exact}
use coroutine_http.Net.Connection.Stream.{stream, is_live}
use coroutine_http.Net.Connection.Live.{Delivered, read_exact_append}
use coroutine_http.Ws.WebSocket.{be_loop, recv_length}
use coroutine_http.Ws.WebSocket.Wire.{length_7, length_ext}

module _ (len : ℕ) (c d : Connection) where
  recv_length_two :
      126 ≤ len
      → len < 2 ^ 16
      → read_exact 2 c ≡ done ((len / 2 ^ 8) ∷ (len % 2 ^ 8) ∷ [], d)
      → recv_length (length_7 len) c ≡ done (some len, d)
  unfolding recv_length
  recv_length_two lo hi e = ground arith

  be_loop_eight :
      len < 2 ^ 64
      → be_loop 0 (
          (len / 2 ^ 56)
          ∷ (len / 2 ^ 48 % 2 ^ 8)
          ∷ (len / 2 ^ 40 % 2 ^ 8)
          ∷ (len / 2 ^ 32 % 2 ^ 8)
          ∷ (len / 2 ^ 24 % 2 ^ 8)
          ∷ (len / 2 ^ 16 % 2 ^ 8)
          ∷ (len / 2 ^ 8 % 2 ^ 8)
          ∷ (len % 2 ^ 8)
          ∷ [])
        ≡ len
  unfolding be_loop
  be_loop_eight h = omega arith

  recv_length_eight :
      2 ^ 16 ≤ len
      → len < 2 ^ 64
      → read_exact 8 c
        ≡ done (
          (len / 2 ^ 56)
              ∷ (len / 2 ^ 48 % 2 ^ 8)
              ∷ (len / 2 ^ 40 % 2 ^ 8)
              ∷ (len / 2 ^ 32 % 2 ^ 8)
              ∷ (len / 2 ^ 24 % 2 ^ 8)
              ∷ (len / 2 ^ 16 % 2 ^ 8)
              ∷ (len / 2 ^ 8 % 2 ^ 8)
              ∷ (len % 2 ^ 8)
              ∷ [],
          d,
        )
      → recv_length (length_7 len) c ≡ done (some len, d)
  unfolding recv_length
  recv_length_eight lo hi e = ground (arith, be_loop_eight hi)

module _ (len : ℕ) where
  abbrev pub two_bytes : Bytes
  two_bytes = (len / 2 ^ 8) ∷ (len % 2 ^ 8) ∷ []

  abbrev pub eight_bytes : Bytes
  eight_bytes =
      (len / 2 ^ 56)
      ∷ (len / 2 ^ 48 % 2 ^ 8)
      ∷ (len / 2 ^ 40 % 2 ^ 8)
      ∷ (len / 2 ^ 32 % 2 ^ 8)
      ∷ (len / 2 ^ 24 % 2 ^ 8)
      ∷ (len / 2 ^ 16 % 2 ^ 8)
      ∷ (len / 2 ^ 8 % 2 ^ 8)
      ∷ (len % 2 ^ 8)
      ∷ []

  pub length_ext-short : len < 126 → length_ext len ≡ []
  length_ext-short h = ground arith

  pub length_ext-two : 126 ≤ len → len < 2 ^ 16 → length_ext len ≡ two_bytes
  length_ext-two h k = ground arith

  pub length_ext-eight : 2 ^ 16 ≤ len → length_ext len ≡ eight_bytes
  length_ext-eight h = ground arith

-- The length that the RFC writes is the length that is read.
pub recv_length_lem :
    (len : ℕ) (ys : Bytes) (c : Connection)
    → len < 2 ^ 64
    → is_live c ≡ true
    → stream c ≡ length_ext len ++ ys
    → (d : Connection) × (recv_length (length_7 len) c ≡ done (some len, d)) × Delivered ys c d
unfolding recv_length
recv_length_lem len ys c small live h = elim (dec_lt len 126) [
  | yes short ↦ (
    c,
    ground arith,
    record {
      rest = h ∙ ap (λ s. s ++ ys) (length_ext-short len short);
      live = live;
      kept = (refl, refl, refl, refl);
    },
  )
  | no long ↦ elim (dec_lt len (2 ^ 16)) [
    | yes two ↦
        let got =
          read_exact_append 2 (two_bytes len) ys c live
            (h ∙ ap (λ s. s ++ ys) (length_ext-two len (omega arith) two)) (omega arith) in
        (got.0, recv_length_two len c got.0 (omega arith) two got.1, got.2)
    | no eight ↦
        let got =
          read_exact_append 8 (eight_bytes len) ys c live
            (h ∙ ap (λ s. s ++ ys) (length_ext-eight len (omega arith))) (omega arith) in
        (got.0, recv_length_eight len c got.0 (omega arith) small got.1, got.2)
  ]
]
