-- ===== src/Bytes.antt =====
-- Byte strings and the mapped file: slices and slice assignment, padding, stripping, and the
-- little-endian integers of Python's `struct`.
pub mod Laws
pub mod Numbers
pub mod Slices
use snapdb.Prelude.{
  ℕ, zero, suc, ◌+◌, ◌-◌, ◌*◌, ◌/◌, ◌%◌, ◌^◌, List, [], ◌∷◌, ◌++◌, ltb, take, drop, replicate,
  length, if◌then◌else◌,
}
use snapdb.Prelude.Eq.{◌==◌, nat_eq}
use snapdb.Prelude.Int.{ℤ, pos, negsuc}

-- mm[start:start + n]
unfoldable pub slice : ℕ → ℕ → List ℕ → List ℕ
slice start n mm = take n (drop start mm)

-- mm[start:start + len(raw)] = raw; the file keeps its size
unfoldable pub write : List ℕ → ℕ → List ℕ → List ℕ
write [] start raw = []
write (x ∷ mm) start [] = x ∷ mm
write (x ∷ mm) zero (b ∷ raw) = b ∷ write mm zero raw
write (x ∷ mm) (suc start) (b ∷ raw) = x ∷ write mm start (b ∷ raw)

-- raw[:width].ljust(width, b"\x00")
unfoldable pub fit : ℕ → List ℕ → List ℕ
fit width raw = take width raw ++ replicate (width - length raw) 0

trim : ℕ → List ℕ → List ℕ
trim b [] = if b == 0 then [] else b ∷ []
trim b (y ∷ ys) = b ∷ y ∷ ys

-- raw.rstrip(b"\x00")
unfoldable pub rstrip : List ℕ → List ℕ
unfolding trim
rstrip [] = []
rstrip (b ∷ raw) = trim b (rstrip raw)

-- n.to_bytes(w, "little")
unfoldable pub to_bytes : ℕ → ℕ → List ℕ
to_bytes zero n = []
to_bytes (suc w) n = (n % 256) ∷ to_bytes w (n / 256)

-- int.from_bytes(raw, "little")
unfoldable pub from_bytes : List ℕ → ℕ
from_bytes [] = 0
from_bytes (b ∷ raw) = b + 256 * from_bytes raw

-- two's complement on w bytes
unfoldable pub to_signed : ℕ → ℤ → List ℕ
to_signed w (pos n) = to_bytes w n
to_signed w (negsuc n) = to_bytes w (256 ^ w - 1 - n)

unfoldable pub from_signed : ℕ → List ℕ → ℤ
from_signed w raw =
    let n = from_bytes raw in if ltb n (256 ^ w / 2) then pos n else negsuc (256 ^ w - 1 - n)
