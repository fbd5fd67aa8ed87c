-- ===== src/Bytes/Numbers.antt =====
-- The little-endian integers: what is packed in range is what is unpacked.
use native.Mathlib.Nat.{pow-suc}
use snapdb.Prelude.{ℕ, zero, suc, ◌-◌, ◌*◌, ◌/◌, ◌^◌, ◌<◌, ◌≡◌, refl, ap, arith, length}
use snapdb.Prelude.Int.{ℤ, pos, negsuc}
use snapdb.Bytes.{to_bytes, from_bytes, to_signed, from_signed}

pub length-to_bytes : (w n : ℕ) → length (to_bytes w n) ≡ w
unfolding to_bytes
length-to_bytes zero n = refl
length-to_bytes (suc w) n = ap suc (length-to_bytes w (n / 256))

pub from_bytes-to_bytes : (w n : ℕ) → n < 256 ^ w → from_bytes (to_bytes w n) ≡ n
unfolding to_bytes from_bytes
from_bytes-to_bytes zero n h = omega arith
from_bytes-to_bytes (suc w) n h =
    let p : 256 ^ suc w ≡ 256 ^ w * 256 = pow-suc 256 w in
    omega (arith, from_bytes-to_bytes w (n / 256) (omega arith))

-- The range of `struct`'s signed formats: w bytes, two's complement.
abbrev pub IsSigned : ℕ → ℤ → Type 0
IsSigned w (pos n) = n < 256 ^ w / 2
IsSigned w (negsuc n) = n < 256 ^ w / 2

pub length-to_signed : (w : ℕ) (z : ℤ) → length (to_signed w z) ≡ w
unfolding to_signed
length-to_signed w (pos n) = length-to_bytes w n
length-to_signed w (negsuc n) = length-to_bytes w (256 ^ w - 1 - n)

pub from_signed-to_signed : (w : ℕ) (z : ℤ) → IsSigned w z → from_signed w (to_signed w z) ≡ z
unfolding from_signed to_signed
from_signed-to_signed w (pos n) h = ground (arith, from_bytes-to_bytes w n (omega arith))
from_signed-to_signed w (negsuc n) h =
    ground (arith, from_bytes-to_bytes w (256 ^ w - 1 - n) (omega arith))
