-- ===== src/Prelude/Int.antt =====
-- Signed integers over the native numbers, and the 32-bit conversions of the source: `int` and
-- `unsigned long` are 32 bits wide on the Windows targets of the wrapper.
use Prim.Native.Nat.{ℕ, ◌-◌, ◌%◌, ◌<◌}
use mathlib.Core.Path.{◌≡◌}
use mathlib.Core.Bool.{Bool, true, false}
use native.Mathlib.Omega.{arith}
use qt_gretio.Prelude.Tests.{ltb, ◌==◌, if◌then◌else◌}

-- `negsuc n` is -(n + 1).
pub data ℤ : Type 0 where
  pos : ℕ → ℤ
  negsuc : ℕ → ℤ

abbrev pub eqb_ℤ : ℤ → ℤ → Bool
eqb_ℤ (pos a) (pos b) = a == b
eqb_ℤ (negsuc a) (negsuc b) = a == b
eqb_ℤ _ _ = false

abbrev pub u32_mod : ℕ
u32_mod = 4294967296

-- `(unsigned long) z`.
unfoldable pub to_u32 : ℤ → ℕ
to_u32 (pos n) = n % u32_mod
to_u32 (negsuc n) = u32_mod - 1 - n % u32_mod

-- `(int) n` of an unsigned long.
unfoldable pub to_i32 : ℕ → ℤ
to_i32 n = let m = n % u32_mod in if ltb m 2147483648 then pos m else negsuc (u32_mod - 1 - m)

-- The cast to `int` and back loses nothing.
pub to_u32-to_i32 : (n : ℕ) → n < u32_mod → to_u32 (to_i32 n) ≡ n
unfolding to_u32 to_i32
to_u32-to_i32 n h = ground arith

pub eqb_ℤ→eq : (a b : ℤ) → eqb_ℤ a b ≡ true → a ≡ b
eqb_ℤ→eq (pos a) (pos b) h = ground arith
eqb_ℤ→eq (pos a) (negsuc b) h = ground arith
eqb_ℤ→eq (negsuc a) (pos b) h = ground arith
eqb_ℤ→eq (negsuc a) (negsuc b) h = ground arith
