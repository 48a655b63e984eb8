-- ===== src/Base/Integers.antt =====
-- Signed integers, and the conversion of one to a `uint32`.
use Prim.Native.Nat.{ℕ, ◌-◌, ◌%◌, ◌^◌, ◌<◌}

-- `negsuc n` is one less than minus `n`.
pub data ℤ : Type 0 where
  pos negsuc : ℕ → ℤ

-- The values of an `int32`.
abbrev pub IsInt32 : ℤ → Type 0
IsInt32 (pos n) = n < 2 ^ 31
IsInt32 (negsuc n) = n < 2 ^ 31

-- `uint32(i)`, modulo 2 to the 32.
unfoldable pub to_uint32 : ℤ → ℕ
to_uint32 (pos n) = n % 2 ^ 32
to_uint32 (negsuc n) = 2 ^ 32 - 1 - n % 2 ^ 32
