-- ===== src/Utf8/Roundtrip.antt =====
-- Decoding an encoded text gives the text back.
use snapdb.Prelude.{ℕ, ◌+◌, ◌/◌, ◌%◌, ◌<◌, ◌≡◌, refl, ap, ◌∙◌, ◌⊎◌, List, [], ◌∷◌, ◌++◌, arith}
use snapdb.Utf8.{encode_char, encode, decode_from, decode_replace, start}

-- A Unicode scalar value: a code point that is no surrogate.
abbrev pub IsScalar : ℕ → Type 0
IsScalar c = (c < 0xd800) ⊎ ((0xdfff < c) × (c < 0x11_0000))

abbrev pub IsText : List ℕ → Type 0
IsText [] = Unit
IsText (c ∷ s) = IsScalar c × IsText s

one : (c : ℕ) (rest : List ℕ) → c < 0x80 → decode_from start (c ∷ rest) ≡ c ∷ decode_from start rest
unfolding decode_from
one c rest h = ground arith

two :
    (c : ℕ) (rest : List ℕ)
    → 0x7f < c
    → c < 0x800
    → decode_from start ((0xc0 + c / 64) ∷ (0x80 + c % 64) ∷ rest) ≡ c ∷ decode_from start rest
unfolding decode_from
two c rest h k = ground arith

three :
    (c : ℕ) (rest : List ℕ)
    → 0x7ff < c
    → c < 0x1_0000
    → IsScalar c
    → decode_from start ((0xe0 + c / 4096) ∷ (0x80 + c / 64 % 64) ∷ (0x80 + c % 64) ∷ rest)
      ≡ c ∷ decode_from start rest
unfolding decode_from
three c rest h k s = ground arith

four :
    (c : ℕ) (rest : List ℕ)
    → 0xffff < c
    → c < 0x11_0000
    → decode_from start (
        (0xf0 + c / 262144)
        ∷ (0x80 + c / 4096 % 64)
        ∷ (0x80 + c / 64 % 64)
        ∷ (0x80 + c % 64)
        ∷ rest)
      ≡ c ∷ decode_from start rest
unfolding decode_from
four c rest h k = ground arith

decode_from-encode_char :
    (c : ℕ) (rest : List ℕ)
    → IsScalar c
    → decode_from start (encode_char c ++ rest) ≡ c ∷ decode_from start rest
unfolding encode_char
decode_from-encode_char c rest s = ground (arith, one c rest, two c rest, three c rest, four c rest)

-- Decoding the encoding of a text of Unicode scalar values, with replacement of what is malformed,
-- gives the text.
pub decode_replace-encode : (s : List ℕ) → IsText s → decode_replace (encode s) ≡ s
unfolding decode_replace encode
decode_replace-encode [] h = refl
decode_replace-encode (c ∷ s) h =
    decode_from-encode_char c (encode s) h.0 ∙ ap (◌∷◌ c) (decode_replace-encode s h.1)
