-- ===== src/Utf8.antt =====
-- Python's `str.encode("utf-8")` and `bytes.decode("utf-8", errors="replace")`, which the row codec,
-- `_norm_value` and the columns call. A text is its code points, a byte string its bytes.
pub mod Roundtrip
use snapdb.Prelude.{
  ℕ, zero, suc, ◌+◌, ◌-◌, ◌*◌, ◌/◌, ◌%◌, Bool, true, false, ◌&&◌, ◌||◌, List, [], ◌∷◌, ◌++◌, arith,
  ltb, leb, if◌then◌else◌,
}
use snapdb.Prelude.Eq.{◌==◌, nat_eq}

-- `str.encode` raises UnicodeEncodeError for a text with a surrogate; its callers test for one before
-- they take `encode` of a text.
unfoldable pub has_surrogate : List ℕ → Bool
has_surrogate [] = false
has_surrogate (c ∷ s) = leb 0xd800 c && leb c 0xdfff || has_surrogate s

-- One code point that is no surrogate
unfoldable pub encode_char : ℕ → List ℕ
encode_char c =
    if ltb c 0x80
    then c ∷ []
    else if ltb c 0x800
    then (0xc0 + c / 64) ∷ (0x80 + c % 64) ∷ []
    else if ltb c 0x1_0000
    then (0xe0 + c / 4096) ∷ (0x80 + c / 64 % 64) ∷ (0x80 + c % 64) ∷ []
    else (0xf0 + c / 262144) ∷ (0x80 + c / 4096 % 64) ∷ (0x80 + c / 64 % 64) ∷ (0x80 + c % 64) ∷ []

unfoldable pub encode : List ℕ → List ℕ
encode [] = []
encode (c ∷ s) = encode_char c ++ encode s

abbrev pub replacement : ℕ
replacement = 0xfffd

within : ℕ → ℕ → ℕ → Bool
within lo hi b = leb lo b && leb b hi

-- The decoder between two bytes: at a character's start, or inside one with the bits so far, the
-- range that the next byte must lie in, and how many more follow that byte.
pub data Mode : Type 0 where
  start : Mode
  inside : ℕ → ℕ → ℕ → ℕ → Mode

-- A byte at a character's start: the code points that it completes, and the next mode.
unfoldable pub lead : ℕ → List ℕ × Mode
unfolding within
lead b =
    if ltb b 0x80
    then (b ∷ [], start)
    else if within 0xc2 0xdf b
    then ([], inside (b - 0xc0) 0x80 0xbf 0)
    else if b == 0xe0
    then ([], inside 0 0xa0 0xbf 1)
    else if b == 0xed
    then ([], inside 13 0x80 0x9f 1)
    else if within 0xe1 0xef b
    then ([], inside (b - 0xe0) 0x80 0xbf 1)
    else if b == 0xf0
    then ([], inside 0 0x90 0xbf 2)
    else if within 0xf1 0xf3 b
    then ([], inside (b - 0xf0) 0x80 0xbf 2)
    else if b == 0xf4
    then ([], inside 4 0x80 0x8f 2)
    else (replacement ∷ [], start)

-- A byte in either mode. One that does not continue a character ends it with the replacement
-- character and is read again as a start.
unfoldable pub feed : Mode → ℕ → List ℕ × Mode
unfolding lead within
feed start b = lead b
feed (inside acc lo hi zero) b =
    if within lo hi b
    then ((acc * 64 + (b - 0x80)) ∷ [], start)
    else (replacement ∷ (lead b).0, (lead b).1)
feed (inside acc lo hi (suc more)) b =
    if within lo hi b
    then ([], inside (acc * 64 + (b - 0x80)) 0x80 0xbf more)
    else (replacement ∷ (lead b).0, (lead b).1)

unfoldable pub decode_from : Mode → List ℕ → List ℕ
unfolding feed
decode_from start [] = []
decode_from (inside _ _ _ _) [] = replacement ∷ []
decode_from m (b ∷ bs) = (feed m b).0 ++ decode_from (feed m b).1 bs

unfoldable pub decode_replace : List ℕ → List ℕ
unfolding decode_from
decode_replace bs = decode_from start bs
