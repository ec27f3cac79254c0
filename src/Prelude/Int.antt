-- ===== src/Prelude/Int.antt =====
-- Signed integers over the native numbers, for Rust's `i32`: the order, and the casts `as u16`,
-- `as u64` and `as usize`, which keep the value modulo the width.
use Prim.Native.Nat.{ℕ, suc, ◌+◌, ◌-◌, ◌%◌, ◌^◌, ◌≤◌, compare, Ordering}
use argon.Prelude.Tests.{leb, if◌then◌else◌}

-- `negsuc n` is -(n + 1).
pub data ℤ : Type 0 where
  pos : ℕ → ℤ
  negsuc : ℕ → ℤ

abbrev pub pos_part : ℤ → ℕ
pos_part (pos n) = n
pos_part (negsuc n) = 0

abbrev pub neg_part : ℤ → ℕ
neg_part (pos n) = 0
neg_part (negsuc n) = suc n

-- `i32::cmp`
abbrev pub cmp_ℤ : ℤ → ℤ → Ordering
cmp_ℤ a b = compare (pos_part a + neg_part b) (pos_part b + neg_part a)

infix 50 ◌≤ℤ◌
abbrev pub ◌≤ℤ◌ : ℤ → ℤ → Type 0
a ≤ℤ b = pos_part a + neg_part b ≤ pos_part b + neg_part a

-- `i32::max`
abbrev pub max_ℤ : ℤ → ℤ → ℤ
max_ℤ a b = if leb (pos_part a + neg_part b) (pos_part b + neg_part a) then b else a

-- `v as uW`: two's complement, so a negative value wraps (for `i32`, `neg_part` is below 2 ^ 32).
unfoldable pub cast_unsigned : ℕ → ℤ → ℕ
cast_unsigned w (pos n) = n % 2 ^ w
cast_unsigned w (negsuc n) = (2 ^ w - 1 - n % 2 ^ w) % 2 ^ w
