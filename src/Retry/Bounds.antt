-- ===== src/Retry/Bounds.antt =====
-- internal/retry/backoff.go: the range of the exponential backoff, its formula, and where the
-- shift leaves the 64 bits.
use native.Mathlib.Nat.{mod-eq_of_lt, pow-suc, zero-add, suc-add, le_refl}
use shoebox.Base.{
  ℕ, zero, suc, ◌+◌, ◌-◌, ◌*◌, ◌%◌, ◌^◌, ◌≤◌, ◌<◌, ◌≡◌, min, arith, subst, ◌||◌, if◌then◌else◌,
}
use shoebox.Base.Int.{ℤ, pos, ltb_ℤ, ◌≤ℤ◌, ◌<ℤ◌, int64_mod, int64_half}
use shoebox.Retry.{exponential, shl, shift_of}

-- Whatever the base and the attempt, the delay is positive and at most the maximum, if that is
-- positive.
exponential_bounds :
    (base max attempt : ℤ)
    → pos 0 <ℤ max
    → (pos 0 <ℤ exponential base max attempt) × (exponential base max attempt ≤ℤ max)
unfolding exponential
exponential_bounds base max attempt h = ground arith

pow_grows : (k n : ℕ) → 2 ^ n ≤ 2 ^ (k + n)
pow_grows zero n = rw zero-add (le_refl _)
pow_grows (suc k) n = rw suc-add (rw pow-suc (omega (arith, pow_grows k n)))

pow_le : (n : ℕ) → n ≤ 30 → 2 ^ n ≤ 2 ^ 30
pow_le n h =
    let e : 30 - n + n ≡ 30 = omega arith in subst (λ k. 2 ^ n ≤ 2 ^ k) e (pow_grows (30 - n) n)

scaled_le : (base n : ℕ) → n ≤ 30 → base * 2 ^ n ≤ base * 2 ^ 30
scaled_le base n h = grind (arith, pow_le n h)

-- A base below 2^33 ns does not leave the 64 bits.
shl-pos : (base n : ℕ) → base * 2 ^ 30 < int64_half → n ≤ 30 → shl (pos base) n ≡ pos (base * 2 ^ n)
unfolding shl
shl-pos base n small h =
    let below = scaled_le base n h in
    let kept : base % int64_mod ≡ base = omega arith in
    let fits : base * 2 ^ n % int64_mod ≡ base * 2 ^ n = mod-eq_of_lt (omega arith) in
    rw kept (rw fits (ground arith))

shift_of-suc : (n : ℕ) → n ≤ 30 → shift_of (pos (suc n)) ≡ n
unfolding shift_of
shift_of-suc n h = ground arith

pow_pos : (n : ℕ) → 0 < 2 ^ n
pow_pos zero = omega arith
pow_pos (suc n) = rw pow-suc (omega (arith, pow_pos n))

product_pos : (a b : ℕ) → 0 < a → 0 < b → 0 < a * b
product_pos a b h k = grind arith

capped :
    (d max : ℕ)
    → 0 < d
    → (if ltb_ℤ (pos d) (pos 1) || ltb_ℤ (pos max) (pos d) then pos max else pos d)
      ≡ pos (min d max)
capped d max h = ground arith

-- For a positive base whose thirtieth doubling fits the int64, the delay before attempt n + 1, up to
-- attempt 31, is the lesser of base * 2^n and the maximum.
exponential_formula :
    (base max n : ℕ)
    → 0 < base
    → base * 2 ^ 30 < int64_half
    → n ≤ 30
    → exponential (pos base) (pos max) (pos (suc n)) ≡ pos (min (base * 2 ^ n) max)
unfolding exponential
exponential_formula base max n p small h = rw (shift_of-suc n h) (
    rw (shl-pos base n small h)
      (capped (base * 2 ^ n) max (product_pos base (2 ^ n) p (pow_pos n))))

-- From attempt 31 on the delay no longer changes, whatever the base and the maximum.
exponential_saturates :
    (base max : ℤ) (k : ℕ) → exponential base max (pos (31 + k)) ≡ exponential base max (pos 31)
unfolding exponential
exponential_saturates base max k = rw (late k) (rw (shift_of-suc 30 (omega arith)))
  where
    late : (j : ℕ) → shift_of (pos (31 + j)) ≡ 30
    late j = unfold shift_of in ground arith

shl_wrapped : (c : ℕ) → 0 < c → c < 2 ^ 33 → shl (pos (2 ^ 34 + c)) 30 ≡ pos (c * 2 ^ 30)
unfolding shl
shl_wrapped c p h = ground arith

-- The guard against overflow misses a shift that wraps to a positive number: with a base of
-- 2^34 + c nanoseconds, c below 16, and a maximum of at least c * 2^30, attempt 31 waits
-- c * 2^30 nanoseconds, which is less than the base.
pub exponential_wraps :
    (c max : ℕ)
    → 0 < c
    → c < 16
    → c * 2 ^ 30 ≤ max
    → (exponential (pos (2 ^ 34 + c)) (pos max) (pos 31) ≡ pos (c * 2 ^ 30))
      × (pos (c * 2 ^ 30) <ℤ pos (2 ^ 34 + c))
unfolding exponential
exponential_wraps c max p h k = (
  rw (shift_of-suc 30 (omega arith)) (rw (shl_wrapped c p (omega arith)) (ground arith)),
  omega arith,
)
