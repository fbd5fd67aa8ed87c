-- ===== src/Schema/Codec.antt =====
-- `Schema.encode_row` and `Schema.decode_row` of snapdb/core.py: a row as fixed-width bytes, by
-- Python's `struct` with a "<" format. A `struct` error is `struct_error`.
pub mod Roundtrip
pub mod Fields
use snapdb.Prelude.{
  ℕ, zero, suc, ◌+◌, ◌-◌, ◌/◌, ◌%◌, ◌^◌, String, Bool, true, false, ◌&&◌, not, Option, none, some,
  List, [], ◌∷◌, ◌++◌, ltb, take, drop, if◌then◌else◌,
}
use snapdb.Prelude.Eq.{◌==◌, nat_eq, string_eq}
use snapdb.Prelude.Int.{ℤ, pos, negsuc}
use snapdb.Prelude.Dict
use snapdb.Result.{Result, ok, err, key_error, value_error, struct_error, ◌>>=◌, ◌>>◌, raise_if}
use snapdb.Utf8.{has_surrogate, encode, decode_replace}
use snapdb.Bytes.{fit, rstrip, to_bytes, from_bytes, to_signed, from_signed}
use snapdb.Value
use snapdb.Value.{Value, null, int, text, eq_value, value_eq}
use snapdb.Schema.{
  Dtype, bool, bytes, Code, signed, unsigned, flag, chars, code_size, ColumnDef, Columns, Schema,
  Row, is_bytes, is_bool, struct_code,
}

-- `bool(val)`
unfoldable pub truth : Value → Bool
truth null = false
truth (int (pos n)) = not (n == 0)
truth (int (negsuc n)) = true
truth (text []) = false
truth (text (c ∷ s)) = true
truth (Value.bytes []) = false
truth (Value.bytes (b ∷ s)) = true

-- The decimal digits of n, in front of those found so far; n < fuel is enough.
unfoldable pub digits_on : ℕ → ℕ → List ℕ → List ℕ
digits_on zero n acc = acc
digits_on (suc fuel) n acc =
    let more = digits_on fuel (n / 10) ((48 + n % 10) ∷ acc) in
    if ltb n 10 then (48 + n) ∷ acc else more

-- `str(val)`
unfoldable pub str : Value → List ℕ
unfolding digits_on
str null = 78 ∷ 111 ∷ 110 ∷ 101 ∷ []
str (int (pos n)) = digits_on (suc n) n []
str (int (negsuc n)) = 45 ∷ digits_on (suc (suc n)) (suc n) []
str (text s) = s
str (Value.bytes b) = decode_replace b

-- `val if isinstance(val, bytes) else str(val).encode("utf-8")`
unfoldable pub raw_bytes : Value → List ℕ
unfolding str
raw_bytes (Value.bytes b) = b
raw_bytes null = encode (str null)
raw_bytes v = encode (str v)

-- Where that raises UnicodeEncodeError
unfoldable pub encode_raises : Dtype → Value → Bool
encode_raises (bytes n) (text s) = has_surrogate s
encode_raises _ v = false

-- The value that `encode_row` hands to `struct.pack` for a column of a type and a width.
unfoldable pub pack_value : Dtype → ℕ → Value → Value
unfolding raw_bytes truth
pack_value bool width v = int (pos (if truth v then 1 else 0))
pack_value (bytes n) width v = Value.bytes (fit width (raw_bytes v))
pack_value _ width v = v

-- The loop of `encode_row` over the columns.
unfoldable pub pack_values : Columns → Row → Result (List Value)
unfolding encode_raises pack_value
pack_values [] row = ok []
pack_values (c ∷ cs) row = elim (Dict.get row c.name) [
  | none ↦ err key_error
  | some v ↦ do
    raise_if (eq_value v null && c.not_null) value_error
    raise_if (encode_raises c.dtype v) value_error
    rest ← pack_values cs row
    ok (pack_value c.dtype c.width v ∷ rest)
]

-- `struct.pack` of one item: its type and its range are checked.
unfoldable pub pack_item : Code → Value → Result (List ℕ)
unfolding truth
pack_item (signed w) (int (pos n)) =
    if ltb n (256 ^ w / 2) then ok (to_signed w (pos n)) else err struct_error
pack_item (signed w) (int (negsuc n)) =
    if ltb n (256 ^ w / 2) then ok (to_signed w (negsuc n)) else err struct_error
pack_item (unsigned w) (int (pos n)) =
    if ltb n (256 ^ w) then ok (to_bytes w n) else err struct_error
pack_item (unsigned w) (int (negsuc n)) = err struct_error
pack_item flag v = ok ((if truth v then 1 else 0) ∷ [])
pack_item (chars n) (Value.bytes b) = ok (fit n b)
pack_item (signed w) _ = err struct_error
pack_item (unsigned w) _ = err struct_error
pack_item (chars n) _ = err struct_error

-- struct.pack(fmt, *values)
unfoldable pub pack : List Code → List Value → Result (List ℕ)
unfolding pack_item
pack [] [] = ok []
pack [] (v ∷ vs) = err struct_error
pack (c ∷ cs) [] = err struct_error
pack (c ∷ cs) (v ∷ vs) = do item ← pack_item c v; rest ← pack cs vs; ok (item ++ rest)

unfoldable pub encode_row : Schema → Row → Result (List ℕ)
unfolding pack_values pack
encode_row s row = do values ← pack_values s.columns row; pack s.struct_fmt values

-- `struct.unpack` of one item
unfoldable pub unpack_item : Code → List ℕ → Value
unpack_item (signed w) raw = int (from_signed w raw)
unpack_item (unsigned w) raw = int (pos (from_bytes raw))
unpack_item flag raw = int (pos (if from_bytes raw == 0 then 0 else 1))
unpack_item (chars n) raw = Value.bytes raw

-- struct.unpack(fmt, buf), for a buffer of the format's size
unfoldable pub unpack : List Code → List ℕ → List Value
unfolding unpack_item
unpack [] buf = []
unpack (c ∷ cs) buf = unpack_item c (take (code_size c) buf) ∷ unpack cs (drop (code_size c) buf)

strip_text : Value → Value
strip_text (Value.bytes raw) = text (decode_replace (rstrip raw))
strip_text v = v

-- The value that `decode_row` stores for an unpacked one.
unfoldable pub decode_value : Dtype → Value → Value
unfolding strip_text
decode_value (bytes n) v = strip_text v
decode_value bool v = v
decode_value _ v = v

-- The loop of `decode_row` over the columns and the unpacked values.
unfoldable pub decode_values : Columns → List Value → Row → Row
unfolding decode_value
decode_values [] vs row = row
decode_values (c ∷ cs) [] row = row
decode_values (c ∷ cs) (v ∷ vs) row =
    decode_values cs vs (Dict.put row c.name (decode_value c.dtype v))

unfoldable pub decode_row : Schema → List ℕ → Row
unfolding unpack decode_values
decode_row s buf = decode_values s.columns (unpack s.struct_fmt buf) []
