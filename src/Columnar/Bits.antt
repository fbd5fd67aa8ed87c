-- ===== src/Columnar/Bits.antt =====
-- Python's bit operations on the numbers that the columns of snapdb/columnar.py pack: `n >> k & 1`,
-- `n | 1 << k`, `n & ~(1 << k)`, `n | x << p`, `n & mask` for a mask of ones, and `bit_length`.
pub mod Laws
use snapdb.Prelude.{
  ℕ, zero, suc, ◌+◌, ◌-◌, ◌*◌, ◌/◌, ◌%◌, ◌^◌, Bool, true, false, ◌||◌, if◌then◌else◌,
}
use snapdb.Prelude.Eq.{◌==◌, nat_eq}

-- (n >> k) & 1
unfoldable pub test_bit : ℕ → ℕ → Bool
test_bit n zero = n % 2 == 1
test_bit n (suc k) = test_bit (n / 2) k

-- n | 1 << k
unfoldable pub set_bit : ℕ → ℕ → ℕ
set_bit n zero = 2 * (n / 2) + 1
set_bit n (suc k) = n % 2 + 2 * set_bit (n / 2) k

-- n & ~(1 << k), which is `n & (0xFF ^ (1 << k))` on a byte
unfoldable pub clear_bit : ℕ → ℕ → ℕ
clear_bit n zero = 2 * (n / 2)
clear_bit n (suc k) = n % 2 + 2 * clear_bit (n / 2) k

-- The bits of `n`, in at most `fuel` rounds: each one halves `n`, so `n` rounds are enough.
unfoldable pub bits_from : ℕ → ℕ → ℕ
bits_from zero n = 0
bits_from (suc fuel) n = elim (n == 0) [ true ↦ 0 | false ↦ suc (bits_from fuel (n / 2)) ]

-- n.bit_length()
unfoldable pub bit_length : ℕ → ℕ
unfolding bits_from
bit_length n = bits_from n n

-- a | b, in at most `fuel` rounds: `a + b` rounds are enough.
unfoldable pub or_from : ℕ → ℕ → ℕ → ℕ
or_from zero a b = 0
or_from (suc fuel) a b = elim (a + b == 0) [
  | true ↦ 0
  | false ↦ (if a % 2 + b % 2 == 0 then 0 else 1) + 2 * or_from fuel (a / 2) (b / 2)
]

-- packed | x << pos
unfoldable pub or_at : ℕ → ℕ → ℕ → ℕ
unfolding or_from
or_at packed x zero = or_from (packed + x) packed x
or_at packed x (suc pos) = packed % 2 + 2 * or_at (packed / 2) x pos

-- n & mask, where the mask is all ones
unfoldable pub and_mask : ℕ → ℕ → ℕ
and_mask n mask = n % (mask + 1)

-- (packed >> pos) & mask
unfoldable pub read_at : ℕ → ℕ → ℕ → ℕ
unfolding and_mask
read_at packed pos mask = and_mask (packed / 2 ^ pos) mask
