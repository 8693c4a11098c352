-- ===== src/Retry.antt =====
-- internal/retry/backoff.go: the delay before an attempt. A `Backoff` is its method `Next`.
pub mod Bounds
use shoebox.Base.{ℕ, zero, suc, ◌-◌, ◌*◌, ◌%◌, ◌^◌, ◌||◌, ltb, if◌then◌else◌}
use shoebox.Base.Int.{ℤ, pos, negsuc, ltb_ℤ, residue, of_bits, int64_mod}

abbrev pub Backoff : Type 0
Backoff = ℤ → ℤ

unfoldable pub constant : ℤ → Backoff
constant d attempt = d

-- `attempt - 1`, which is at least 0 once an attempt below 1 has been read as 1.
unfoldable pub shift_of : ℤ → ℕ
shift_of (negsuc n) = 0
shift_of (pos n) = if ltb 30 (n - 1) then 30 else n - 1

-- `d << shift` on int64.
unfoldable pub shl : ℤ → ℕ → ℤ
unfolding residue of_bits
shl d shift = of_bits (residue d * 2 ^ shift % int64_mod)

unfoldable pub exponential : ℤ → ℤ → Backoff
exponential base max attempt =
    let d = shl base (shift_of attempt) in if ltb_ℤ d (pos 1) || ltb_ℤ max d then max else d
