-- ===== src/Schema/Codec/Roundtrip.antt =====
-- What a row is after `encode_row` and `decode_row`: each column holds the stored form of its value.
use snapdb.Prelude.{
  ℕ, ◌≡◌, sym, ◌∙◌, subst, List, [], ◌∷◌, ◌++◌, Option-cases, inl, inr, length, take, length-append,
  arith, if◌then◌else◌,
}
use snapdb.Prelude.Eq.{string_eq}
use snapdb.Prelude.Int.{pos, negsuc}
use snapdb.Prelude.Dict
use snapdb.Result.{ok, >>=-eq-ok, Result-cases}
use snapdb.Utf8.{decode_replace}
use snapdb.Bytes.{fit, rstrip, from_bytes}
use snapdb.Bytes.Laws.{length-fit, rstrip-fit, take_of_length-le, take-append, drop-append}
use snapdb.Bytes.Numbers.{
  length-to_bytes, from_bytes-to_bytes, length-to_signed, from_signed-to_signed,
}
use snapdb.Value.{Value, null, int, text}
use snapdb.Schema.{
  Dtype, i8, i16, i32, i64, u8, u16, u32, u64, bool, bytes, Code, signed, unsigned, code_size,
  ColumnDef, Columns, Schema, Row, struct_code, type_size, sum_widths, get_or_none,
}
use snapdb.Schema.Shape.{HasWidths, codes_of, code_size-struct_code, IsSchema}
use snapdb.Schema.Codec.{
  truth, raw_bytes, pack_value, pack_values, pack_item, pack, encode_row, unpack_item, unpack,
  decode_value, decode_values, decode_row,
}

-- The form of a value that a column keeps: an integer as it is, a bool as 0 or 1, text and bytes
-- as the text of their first `n` bytes without the NULs at the end.
unfoldable pub stored : Dtype → Value → Value
stored bool v = int (pos (if truth v then 1 else 0))
stored (bytes n) v = text (decode_replace (rstrip (take n (raw_bytes v))))
stored _ v = v

-- The row that has, for each column, the stored form of its value.
unfoldable pub stored_from : Columns → Row → Row → Row
unfolding stored get_or_none
stored_from [] row acc = acc
stored_from (c ∷ cs) row acc =
    stored_from cs row (Dict.put acc c.name (stored c.dtype (get_or_none row c.name)))

signed_item :
    (w : ℕ) (v : Value) {item : List ℕ}
    → pack_item (signed w) v ≡ ok item
    → (length item ≡ w) × (unpack_item (signed w) item ≡ v)
unfolding pack_item unpack_item
signed_item w (int (pos n)) h =
    ground (arith, length-to_signed w (pos n), from_signed-to_signed w (pos n))
signed_item w (int (negsuc n)) h =
    ground (arith, length-to_signed w (negsuc n), from_signed-to_signed w (negsuc n))
signed_item w null h = cc
signed_item w (text s) h = cc
signed_item w (Value.bytes b) h = cc

unsigned_item :
    (w : ℕ) (v : Value) {item : List ℕ}
    → pack_item (unsigned w) v ≡ ok item
    → (length item ≡ w) × (unpack_item (unsigned w) item ≡ v)
unfolding pack_item unpack_item
unsigned_item w (int (pos n)) h = ground (arith, length-to_bytes w n, from_bytes-to_bytes w n)
unsigned_item w (int (negsuc n)) h = cc
unsigned_item w null h = cc
unsigned_item w (text s) h = cc
unsigned_item w (Value.bytes b) h = cc

-- One column: what is packed has the column's width, and unpacks to the stored form.
item_stored :
    (d : Dtype) (w : ℕ) (v : Value) {item : List ℕ}
    → w ≡ type_size d
    → pack_item (struct_code d) (pack_value d w v) ≡ ok item
    → (length item ≡ code_size (struct_code d))
      × (decode_value d (unpack_item (struct_code d) item) ≡ stored d v)
unfolding type_size struct_code code_size pack_value stored decode_value
item_stored i8 w v e h = signed_item 1 v h
item_stored i16 w v e h = signed_item 2 v h
item_stored i32 w v e h = signed_item 4 v h
item_stored i64 w v e h = signed_item 8 v h
item_stored u8 w v e h = unsigned_item 1 v h
item_stored u16 w v e h = unsigned_item 2 v h
item_stored u32 w v e h = unsigned_item 4 v h
item_stored u64 w v e h = unsigned_item 8 v h
item_stored bool w v e h = unfold pack_item unpack_item truth from_bytes in ground arith
item_stored (bytes n) w v e h =
    unfold pack_item unpack_item in
    ground (
      arith,
      length-fit n (fit w (raw_bytes v)),
      length-fit w (raw_bytes v),
      rstrip-fit n (fit w (raw_bytes v)),
      rstrip-fit w (raw_bytes v),
      take_of_length-le n (fit w (raw_bytes v)),
    )

-- What a successful step of each loop has found.
pack_values_step :
    (c : ColumnDef) (cs : Columns) (row : Row) {vs : List Value}
    → pack_values (c ∷ cs) row ≡ ok vs
    → (v : Value) × (rest : List Value) × (get_or_none row c.name ≡ v)
      × (pack_values cs row ≡ ok rest)
      × (vs ≡ pack_value c.dtype c.width v ∷ rest)
unfolding pack_values get_or_none
pack_values_step c cs row h = elim (Option-cases (Dict.get row c.name)) [
  | inl e ↦ absurd (ground arith)
  | inr (v, e) ↦ elim (Result-cases (pack_values cs row)) [
    | inl (rest, r) ↦ (v, rest, ground arith, r, ground arith)
    | inr (x, r) ↦ absurd (ground arith)
  ]
]

pack_step :
    (k : Code) (ks : List Code) (v : Value) (vs : List Value) {all : List Value} {raw : List ℕ}
    → all ≡ v ∷ vs
    → pack (k ∷ ks) all ≡ ok raw
    → (item : List ℕ) × (rest : List ℕ) × (pack_item k v ≡ ok item)
      × (pack ks vs ≡ ok rest)
      × (raw ≡ item ++ rest)
unfolding pack
pack_step k ks v vs {raw = raw} e h =
    let h' : pack (k ∷ ks) (v ∷ vs) ≡ ok raw = subst (λ l. pack (k ∷ ks) l ≡ ok raw) e h in
    let (item, hi, more) = >>=-eq-ok (pack_item k v) _ h' in
    let (rest, hr, e) = >>=-eq-ok (pack ks vs) _ more in (item, rest, hi, hr, ground arith)

-- One round of the decoding loop, on a buffer that starts with the column's bytes.
decode_step :
    (c : ColumnDef) (cs : Columns) (k : Code) (ks : List Code) (item tail : List ℕ) (acc : Row)
    → length item ≡ code_size k
    → decode_values (c ∷ cs) (unpack (k ∷ ks) (item ++ tail)) acc
      ≡ decode_values cs
          (unpack ks tail)
          (Dict.put acc c.name (decode_value c.dtype (unpack_item k item)))
unfolding decode_values unpack
decode_step c cs k ks item tail acc e = rw (← e, take-append, drop-append)

-- What is known of the rest of the columns, for an accumulated row.
abbrev Decodes : Columns → Row → Row → List ℕ → Type 0
Decodes cs row acc raw =
    (length raw ≡ sum_widths cs)
    × (decode_values cs (unpack (codes_of cs) raw) acc ≡ stored_from cs row acc)

cons_stored :
    (c : ColumnDef) (cs : Columns) (row acc : Row) (v : Value) (item tail : List ℕ)
    → c.width ≡ type_size c.dtype
    → get_or_none row c.name ≡ v
    → (length item ≡ code_size (struct_code c.dtype))
      × (decode_value c.dtype (unpack_item (struct_code c.dtype) item) ≡ stored c.dtype v)
    → Decodes cs row (Dict.put acc c.name (stored c.dtype v)) tail
    → Decodes (c ∷ cs) row acc (item ++ tail)
unfolding sum_widths stored_from
cons_stored c cs row acc v item tail hw got (size, value) (sizes, rows) = (
  omega (arith, length-append item tail, code_size-struct_code c.dtype),
  decode_step c cs _ _ item tail acc size ∙ rw value (rw got rows),
)

-- The two loops and the two `struct` calls over the columns.
columns_stored :
    (cs : Columns) (row acc : Row) (vs : List Value) {raw : List ℕ}
    → HasWidths cs
    → pack_values cs row ≡ ok vs
    → pack (codes_of cs) vs ≡ ok raw
    → Decodes cs row acc raw
columns_stored [] row acc [] hw hv hp =
    unfold pack sum_widths unpack decode_values stored_from in ground arith
columns_stored [] row acc (v ∷ vs) hw hv hp = unfold pack in cc
columns_stored (c ∷ cs) row acc vs {raw = raw} hw hv hp =
    let (v, rest, got, hrest, e) = pack_values_step c cs row hv in
    let (item, tail, hitem, htail, split) =
      pack_step (struct_code c.dtype) (codes_of cs) _ rest {raw = raw} e hp in
    subst (Decodes (c ∷ cs) row acc) (sym split) (
      cons_stored c cs row acc v item tail hw.0 got (item_stored c.dtype c.width v hw.0 hitem)
        (columns_stored cs row (Dict.put acc c.name (stored c.dtype v)) rest hw.1 hrest htail))

-- Under a well-formed schema, a row that encodes has exactly the row width, and decoding it gives
-- the row with each column in its stored form.
pub decode_row-encode_row :
    (s : Schema) (row : Row) {raw : List ℕ}
    → IsSchema s
    → encode_row s row ≡ ok raw
    → (length raw ≡ s.row_width) × (decode_row s raw ≡ stored_from s.columns row [])
unfolding encode_row decode_row
decode_row-encode_row s row {raw = raw} h e =
    let (vs, hv, hp) = >>=-eq-ok (pack_values s.columns row) _ e in
    let (size, decoded) =
      columns_stored s.columns row [] vs {raw = raw} h.widths hv
        (subst (λ f. pack f vs ≡ ok raw) h.fmt hp) in
    (size ∙ sym h.width, rw h.fmt decoded)
