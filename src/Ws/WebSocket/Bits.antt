-- ===== src/Ws/WebSocket/Bits.antt =====
-- The bit operations of ws/websocket.cpp on bytes: the mask, and the first byte of a frame.
use Prim.Native.Nat.{bit_or, bit_xor}
use coroutine_http.Prelude.{
  ◌+◌, ◌^◌, ℕ, zero, suc, ◌<◌, ◌≡◌, refl, Bool, true, false, ◌==◌, ==_iff, if◌then◌else◌, arith,
}

-- A test on every number under a bound, run by evaluation.
passes : (ℕ → Bool) → ℕ → Bool
passes test zero = true
passes test (suc n) = let others = passes test n in if test n then others else false

passes-at : (test : ℕ → Bool) (n c : ℕ) → passes test n ≡ true → c < n → test c ≡ true
unfolding passes
passes-at test zero c table small = absurd (omega arith)
passes-at test (suc n) c table small = ground (arith, passes-at test n c)

-- Masking a byte twice gives it back.
abbrev unmasks : ℕ → ℕ → Bool
unmasks key b = bit_xor (bit_xor b key) key == b

byte_table : passes (λ key. passes (unmasks key) 256) 256 ≡ true
unfolding passes
byte_table = refl

pub bit_xor_twice : (x k : ℕ) → x < 256 → k < 256 → bit_xor (bit_xor x k) k ≡ x
bit_xor_twice x k hx hk =
    let row = passes-at (λ key. passes (unmasks key) 256) 256 k byte_table hk in
    (==_iff _ x).0 (passes-at (unmasks k) 256 x row hx)

abbrev is_sum : ℕ → Bool
is_sum n = bit_or (2 ^ 7) n == 2 ^ 7 + n

nibble_table : passes is_sum 16 ≡ true
unfolding passes
nibble_table = refl

pub bit_or-add : (n : ℕ) → n < 16 → bit_or (2 ^ 7) n ≡ 2 ^ 7 + n
bit_or-add n h = (==_iff _ (2 ^ 7 + n)).0 (passes-at is_sum 16 n nibble_table h)
