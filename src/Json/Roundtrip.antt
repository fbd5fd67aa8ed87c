-- ===== src/Json/Roundtrip.antt =====
-- Which rows `_decode` of snapdb/wal.py gives back as `_encode` got them.
use package.text.Mathlib.TextEquality.{eq_iff}
use snapdb.Prelude.{inl, inr, ℕ, ◌<◌, ◌≡◌, ◌≢◌, refl, none, List, [], ◌∷◌, arith}
use snapdb.Prelude.Eq.{string_eq}
use snapdb.Result.{ok, Result-cases}
use snapdb.Schema.{Row}
use snapdb.Value.{Value, null, int, text, bytes}
use snapdb.Json.{
  leaf, dict, Fields, hex, digit_of, from_hex, encode_leaf, encode, encode_fields, bytes_field,
  decode, decode_fields, fields_of,
}

abbrev pub AreBytes : List ℕ → Type 0
AreBytes [] = Unit
AreBytes (b ∷ bs) = (b < 256) × AreBytes bs

-- The byte strings of a row hold bytes.
abbrev pub HoldsBytes : Row → Type 0
HoldsBytes [] = Unit
HoldsBytes ((k, bytes b) ∷ row) = AreBytes b × HoldsBytes row
HoldsBytes ((k, _) ∷ row) = HoldsBytes row

from_hex-hex : (bs : List ℕ) → AreBytes bs → from_hex none (hex bs) ≡ ok bs
unfolding from_hex hex digit_of
from_hex-hex [] h = refl
from_hex-hex (b ∷ bs) (lt, h) = ground (arith, from_hex-hex bs h)

-- A single column that carries the mark of bytes
abbrev pub HasBytesColumn : Row → Type 0
HasBytesColumn row = (v : Value) × (row ≡ ("__bytes__", v) ∷ [])

decode-encode_leaf_bytes :
    (b : List ℕ) → AreBytes b → decode (encode_leaf (bytes b)) ≡ ok (leaf (bytes b))
unfolding encode_leaf decode
decode-encode_leaf_bytes b h = rw (from_hex-hex b h) refl

decode_fields-encode_fields :
    (row : Row)
    → HoldsBytes row
    → decode_fields (encode_fields (fields_of row)) ≡ ok (fields_of row)
unfolding fields_of encode decode encode_leaf
decode_fields-encode_fields [] h = refl
decode_fields-encode_fields ((k, bytes b) ∷ row) (hb, h) =
    rw (decode-encode_leaf_bytes b hb, decode_fields-encode_fields row h) refl
decode_fields-encode_fields ((k, null) ∷ row) h = rw (decode_fields-encode_fields row h) refl
decode_fields-encode_fields ((k, int z) ∷ row) h = rw (decode_fields-encode_fields row h) refl
decode_fields-encode_fields ((k, text s) ∷ row) h = rw (decode_fields-encode_fields row h) refl

bytes_field-encode_fields :
    (row : Row) → ¬ HasBytesColumn row → bytes_field (encode_fields (fields_of row)) ≡ none
unfolding bytes_field encode fields_of
bytes_field-encode_fields [] h = refl
bytes_field-encode_fields ((k, v) ∷ []) h =
    ground (arith, eq_iff k "__bytes__", λ (e : k ≡ "__bytes__"). absurd {A = ⊥} (h (v, rw e refl)))
bytes_field-encode_fields ((k, v) ∷ (j, w) ∷ row) h = refl

decode_dict :
    (fs gs : Fields)
    → bytes_field fs ≡ none
    → decode_fields fs ≡ ok gs
    → decode (dict fs) ≡ ok (dict gs)
unfolding decode
decode_dict fs gs e d = ground (arith, e, d)

-- A row whose byte strings hold bytes, and whose only column is not called `__bytes__`, is decoded
-- as it was encoded.
pub decode-encode :
    (row : Row)
    → HoldsBytes row
    → ¬ HasBytesColumn row
    → decode (encode (dict (fields_of row))) ≡ ok (dict (fields_of row))
unfolding encode
decode-encode row h n =
    decode_dict (encode_fields (fields_of row)) (fields_of row) (bytes_field-encode_fields row n)
      (decode_fields-encode_fields row h)

-- What becomes of such a column: an exception, or bytes in place of the row
pub decode-encode_column :
    (v : Value) (row : Row)
    → decode (encode (dict (fields_of (("__bytes__", v) ∷ [])))) ≢ ok (dict (fields_of row))
unfolding encode decode encode_leaf fields_of
decode-encode_column null row e = cc
decode-encode_column (int z) row e = cc
decode-encode_column (bytes b) row e = cc
decode-encode_column (text s) row e = elim (Result-cases (from_hex none s)) [
  | inl (b, p) ↦ ground (arith, p, e)
  | inr (x, p) ↦ ground (arith, p, e)
]
