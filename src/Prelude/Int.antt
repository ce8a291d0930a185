-- ===== src/Prelude/Int.antt =====
-- The signed integers of the source.
use Prim.Native.Nat.{ℕ, ◌-◌, ◌%◌, ◌^◌}
use coroutine_http.Prelude.Tests.{ltb, if◌then◌else◌}

-- A value, or -(n + 1).
pub data ℤ : Type 0 where
  pos : ℕ → ℤ
  negsuc : ℕ → ℤ

-- The 32-bit `int` with the bits of `n`: `static_cast<int>` of a wider value.
unfoldable pub to_int32 : ℕ → ℤ
to_int32 n = let low = n % 2 ^ 32 in if ltb low (2 ^ 31) then pos low else negsuc (2 ^ 32 - 1 - low)
