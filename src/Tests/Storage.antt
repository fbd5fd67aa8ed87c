-- ===== src/Tests/Storage.antt =====
-- The storage of rows at concrete inputs.
use snapdb.Prelude.{
  ℕ, ◌+◌, ◌≡◌, ◌≢◌, refl, ap, ◌∙◌, true, false, none, some, List, [], arith, length, ◌<◌,
}
use snapdb.Prelude.Eq.{nat_eq, string_eq}
use snapdb.Prelude.Dict
use snapdb.Prelude.Int.{pos, negsuc}
use snapdb.Result.{ok, err, struct_error}
use snapdb.Utf8.{encode, decode_replace}
use snapdb.Bytes.{to_signed, from_signed}
use snapdb.Bytes.Numbers.{from_signed-to_signed}
use snapdb.Value.{Value, null, int, text, lt_value}
use snapdb.Value.Order.{lt_value_irrefl}
use snapdb.Schema
use snapdb.Schema.{Schema, Row, bytes}
use snapdb.Schema.Shape.{HasWidths, IsSchema, init-IsSchema}
use snapdb.Schema.Codec.{encode_row, decode_row}
use snapdb.Schema.Codec.Roundtrip.{stored_from, decode_row-encode_row}
use snapdb.Schema.Codec.Fields.{HasDistinctNames}
use snapdb.Slab.Rows.{
  Changes, after_insert, after_write, insert_lem, after_insert-IsSlab, update_lem, delete_lem,
  insert_error,
}
use snapdb.Slab.Scan.{iter_rows_lem, get-iter_rows, found_from}
use snapdb.Slab.Pruning.{Covers, zone_overlaps_of_Covers}
use snapdb.Slab
use snapdb.Slab.{Slab}
use snapdb.Slab.Frame.{IsSlab, init-IsSlab}
use package.snapdb.Tests.Data.{
  columns, table, ann, bob, ann_bytes, bob_bytes, too_large, file, page,
}

columns-HasWidths : HasWidths columns
unfolding Schema.type_size Schema.column_def
columns-HasWidths = (refl, (refl, tt))

table-IsSchema : IsSchema table
table-IsSchema = init-IsSchema columns columns-HasWidths

ann_encodes : encode_row table ann ≡ ok ann_bytes
unfolding encode_row Schema.init Dict.get Schema.column_def snapdb.Value.eq_value
    snapdb.Bytes.to_bytes snapdb.Bytes.fit Schema.type_size encode snapdb.Utf8.encode_char
    snapdb.Utf8.has_surrogate
ann_encodes = refl

bob_encodes : encode_row table bob ≡ ok bob_bytes
unfolding encode_row Schema.init Dict.get Schema.column_def snapdb.Value.eq_value
    snapdb.Bytes.to_bytes snapdb.Bytes.fit Schema.type_size encode snapdb.Utf8.encode_char
    snapdb.Utf8.has_surrogate
bob_encodes = refl

too_large_raises : encode_row table too_large ≡ err struct_error
unfolding encode_row Schema.init Dict.get Schema.column_def snapdb.Value.eq_value
    snapdb.Utf8.has_surrogate
too_large_raises = refl

decode_row-encode_row_example :
    (length ann_bytes ≡ table.row_width)
    × (decode_row table ann_bytes ≡ stored_from table.columns ann [])
decode_row-encode_row_example = decode_row-encode_row table ann table-IsSchema ann_encodes

from_signed-to_signed_example : from_signed 2 (to_signed 2 (negsuc 299)) ≡ negsuc 299
from_signed-to_signed_example = from_signed-to_signed 2 (negsuc 299) (omega arith)

page-IsSlab : IsSlab page (length file)
unfolding Schema.init Slab.zeros Schema.column_def Schema.type_size
page-IsSlab = init-IsSlab table 3 3 none (length file) table-IsSchema tt (omega arith)

page_has_room : page.count < page.capacity
unfolding Slab.init
page_has_room = omega arith

insert_lem_example :
    (Slab.insert page file ann
      ≡ (ok page.count, after_insert page ann, after_write page file page.count ann_bytes))
    × Changes page file
        (after_insert page ann)
        (after_write page file page.count ann_bytes)
        page.count
        (some (stored_from page.schema.columns ann []))
unfolding encode_row Slab.init Schema.init
insert_lem_example = insert_lem page file page-IsSlab ann page_has_room ann_encodes

-- The slab with one row
abbrev one : Slab
one = after_insert page ann

abbrev one_file : List ℕ
one_file = after_write page file 0 ann_bytes

one-IsSlab : IsSlab one (length one_file)
unfolding after_write Slab.zeros snapdb.Bytes.write Slab.apply_crypt Slab.init Slab.row_offset
    Schema.init Schema.column_def Schema.type_size
one-IsSlab = after_insert-IsSlab page file page-IsSlab ann page_has_room

update_lem_example :
    (Slab.update one one_file 0 bob
      ≡ (ok tt, Slab.maintain_zone one bob, after_write one one_file 0 bob_bytes))
    × Changes one one_file
        (Slab.maintain_zone one bob)
        (after_write one one_file 0 bob_bytes)
        0
        (some (stored_from one.schema.columns bob []))
unfolding Slab.is_live after_insert Slab.maintain_zone Slab.init
update_lem_example = update_lem one one_file one-IsSlab bob 0 refl bob_encodes

delete_lem_example : Changes one one_file (Slab.delete one 0) one_file 0 none
delete_lem_example = delete_lem one one_file one-IsSlab bob 0

insert_error_example :
    ((Slab.insert page file too_large).0 ≡ err struct_error)
    × ((Slab.insert page file too_large).1.count ≡ page.count + 1)
    × (Slab.get (Slab.insert page file too_large).1 (Slab.insert page file too_large).2 page.count
        ≡ some (Slab.row_at page file page.count))
unfolding encode_row Slab.init Schema.init
insert_error_example = insert_error page file page-IsSlab too_large page_has_room too_large_raises

table-HasDistinctNames : HasDistinctNames table.columns
unfolding Schema.init Schema.column_def
table-HasDistinctNames = (refl, (refl, tt))

iter_rows_lem_example : Slab.iter_rows one one_file ≡ Slab.rows_from one one_file 0 one.count
unfolding after_insert Schema.init Slab.maintain_zone Slab.init
iter_rows_lem_example = iter_rows_lem one one_file table-IsSchema table-HasDistinctNames

get-iter_rows_example : Slab.iter_rows one one_file ≡ found_from one one_file 0 one.capacity
unfolding after_insert Schema.init Slab.maintain_zone Slab.init
get-iter_rows_example = get-iter_rows one one_file one-IsSlab table-HasDistinctNames

one_min : Schema.get_or_none one.zone_min "id" ≡ int (pos 7)
unfolding Schema.get_or_none Dict.get after_insert Slab.maintain_zone Slab.init Schema.init
    Schema.column_def snapdb.Value.eq_value Dict.put
one_min = refl

one_max : Schema.get_or_none one.zone_max "id" ≡ int (pos 7)
unfolding Schema.get_or_none Dict.get after_insert Slab.maintain_zone Slab.init Schema.init
    Schema.column_def snapdb.Value.eq_value Dict.put
one_max = refl

seven_not_null : (v : Value) → v ≡ int (pos 7) → v ≢ null
seven_not_null v p e = cc

seven_not_lt : lt_value (int (pos 7)) (int (pos 7)) ≡ false
seven_not_lt = lt_value_irrefl (int (pos 7))

one-Covers : Covers one "id" (int (pos 7))
one-Covers = (
  (seven_not_null _ one_min, ap (λ v. lt_value (int (pos 7)) v) one_min ∙ seven_not_lt),
  (seven_not_null _ one_max, ap (λ v. lt_value v (int (pos 7))) one_max ∙ seven_not_lt),
)

zone_overlaps_of_Covers_example :
    Slab.zone_overlaps one "id" (int (pos 5)) (int (pos 8)) true false ≡ true
unfolding snapdb.Index.Range.Laws.in_range snapdb.Value.eq_value snapdb.Value.lt_value
    snapdb.Value.lex snapdb.Value.order_key
zone_overlaps_of_Covers_example =
    zone_overlaps_of_Covers one "id" (int (pos 5)) (int (pos 8)) true false (int (pos 7)) one-Covers
      refl
