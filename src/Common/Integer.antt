-- ===== src/Common/Integer.antt =====
-- i64 over the native numbers: `negsuc n` is -(n + 1).
use mur_model_gateway.Common.Basics.{if◌then◌else◌, ltb, leb}
use Prim.Native.Nat.{ℕ, ◌+◌, ◌-◌, ◌^◌}
use mathlib.Core.Bool.{Bool, true, false}

pub data ℤ : Type 0 where
  pos negsuc : ℕ → ℤ

abbrev pub leb_ℤ : ℤ → ℤ → Bool
leb_ℤ (pos m) (pos n) = leb m n
leb_ℤ (pos m) (negsuc n) = false
leb_ℤ (negsuc m) (pos n) = true
leb_ℤ (negsuc m) (negsuc n) = leb n m

abbrev pub ltb_ℤ : ℤ → ℤ → Bool
ltb_ℤ (pos m) (pos n) = ltb m n
ltb_ℤ (pos m) (negsuc n) = false
ltb_ℤ (negsuc m) (pos n) = true
ltb_ℤ (negsuc m) (negsuc n) = ltb n m

-- i64 addition and subtraction of a constant, which wrap around as a release build does
abbrev pub add_i64 : ℤ → ℕ → ℤ
add_i64 (pos m) k = if ltb (m + k) (2 ^ 63) then pos (m + k) else negsuc (2 ^ 64 - 1 - (m + k))
add_i64 (negsuc m) k = if leb k m then negsuc (m - k) else pos (k - m - 1)

abbrev pub sub_i64 : ℤ → ℕ → ℤ
sub_i64 (pos m) k = if leb k m then pos (m - k) else negsuc (k - m - 1)
sub_i64 (negsuc m) k = if ltb (m + k) (2 ^ 63) then negsuc (m + k) else pos (2 ^ 64 - 1 - (m + k))
