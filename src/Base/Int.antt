-- ===== src/Base/Int.antt =====
-- Go's signed `int`, `int64` and `time.Duration` as integers over the native numbers, with the
-- wrap-around of 64 bits as a function of its own.
use Prim.Native.Nat.{ℕ, suc, ◌+◌, ◌-◌, ◌%◌, ◌≤◌, ◌<◌}
use mathlib.Core.Bool.{Bool}
use shoebox.Base.Tests.{ltb, ◌==◌, if◌then◌else◌}

-- `negsuc n` is -(n + 1).
pub data ℤ : Type 0 where
  pos : ℕ → ℤ
  negsuc : ℕ → ℤ

abbrev pub pos_part : ℤ → ℕ
pos_part (pos n) = n
pos_part (negsuc n) = 0

abbrev pub neg_part : ℤ → ℕ
neg_part (pos n) = 0
neg_part (negsuc n) = suc n

infix 50 ◌≤ℤ◌ ◌<ℤ◌
abbrev pub ◌≤ℤ◌ : ℤ → ℤ → Type 0
a ≤ℤ b = pos_part a + neg_part b ≤ pos_part b + neg_part a

abbrev pub ◌<ℤ◌ : ℤ → ℤ → Type 0
a <ℤ b = pos_part a + neg_part b < pos_part b + neg_part a

abbrev pub ltb_ℤ : ℤ → ℤ → Bool
ltb_ℤ a b = ltb (pos_part a + neg_part b) (pos_part b + neg_part a)

abbrev pub eq_ℤ : ℤ → ℤ → Bool
eq_ℤ a b = pos_part a + neg_part b == pos_part b + neg_part a

abbrev pub int64_mod : ℕ
int64_mod = 18446744073709551616

abbrev pub int64_half : ℕ
int64_half = 9223372036854775808

-- The residue of an integer modulo 2^64.
unfoldable pub residue : ℤ → ℕ
residue (pos n) = n % int64_mod
residue (negsuc n) = int64_mod - 1 - n % int64_mod

-- The int64 whose bit pattern a residue is: two's complement.
unfoldable pub of_bits : ℕ → ℤ
of_bits r = if ltb r int64_half then pos r else negsuc (int64_mod - 1 - r)

-- A uint64 counter wraps.
abbrev pub u64 : ℕ → ℕ
u64 n = n % int64_mod
