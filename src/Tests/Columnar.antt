-- ===== src/Tests/Columnar.antt =====
-- The columnar engine at concrete inputs.
use snapdb.Prelude.{
  length, ℕ, ◌+◌, ◌<◌, ◌≡◌, ◌≢◌, refl, Bool, true, false, none, some, List, [], ◌∷◌, arith, drop,
  contains, if◌then◌else◌,
}
use snapdb.Prelude.Eq.{nat_eq, string_eq}
use snapdb.Prelude.Dict
use snapdb.Prelude.Int.{pos, negsuc}
use snapdb.Result.{ok}
use snapdb.Value.{Value, null, int, text}
use snapdb.Schema.{Dtype, signed, i32, bool, bytes, Row}
use snapdb.Columnar.Nulls.{at_index}
use snapdb.Columnar.Ints
use snapdb.Columnar.Ints.{Ints}
use snapdb.Columnar.Ints.Access
use snapdb.Columnar.Ints.Refine.{Change, appended, written, run, list_run}
use snapdb.Columnar.Ints.Aggregate.{sum, aggregate, reduce}
use snapdb.Columnar.Ints.Aggregate.Laws.{values, aggregate-run}
use snapdb.Columnar.Ints.Refine.Run.{run-refines}
use snapdb.Columnar.Column as Columns
use snapdb.Columnar.Column.{Column, clear}
use snapdb.Columnar.Column.Laws.{kind, shown}
use snapdb.Columnar.Column.Steps.{Holds, Changed, init-Holds, append_step, set_item_step}
use snapdb.Columnar.Table as Tables
use snapdb.Columnar.Table.{batch_insert, Encodings, Table, insert, update, delete, get, merged}
use snapdb.Columnar.Table.Changes.{kept, IsTable, Rewritten}
use snapdb.Columnar.Table.Crud.{
  stored, init-IsTable, insert-Rewritten, update-Rewritten, delete-None,
}
use snapdb.Columnar.Table.Batch.{batch_insert-rows}
use snapdb.Columnar.Table.Scan.{matching_indices, set_each}
use snapdb.Columnar.Table.Scan.Laws.{get_scan, matching_indices-get_scan, set_each-Reads}
use snapdb.Columnar.Table.Select.{select}
use snapdb.Columnar.Table.Select.Laws.{get_rows, cut, select-get_rows}

-- Two samples start differences, a number below the first leaves them, a row that is not there is refused.
abbrev changes : List Change
changes =
    appended (some (pos 5))
    ∷ appended (some (pos 70000))
    ∷ appended none
    ∷ appended (some (negsuc 3))
    ∷ written 1 (some (pos 9))
    ∷ written 7 none
    ∷ []

abbrev column_of_ints : Ints
column_of_ints = Ints.init (signed 4) true 2 true 2

run-refines_example :
    ((run changes column_of_ints).0 ≡ (list_run changes []).0)
    × (Ints.Access.to_list (run changes column_of_ints).1 ≡ ok (list_run changes []).1)
    × ((idx : ℕ)
        → Ints.Access.get_item (run changes column_of_ints).1 idx
          ≡ at_index (list_run changes []).1 idx)
unfolding Ints.fits
run-refines_example =
    run-refines (signed 4) true 2 true 2 changes refl (refl, (refl, (tt, (refl, (refl, (tt, tt))))))

abbrev tags : Column
tags = Columns.init (bytes 4) true 1 false 50 false 50

tags-Holds : Holds tags 0
tags-Holds = init-Holds (bytes 4) true 1 false 50 false 50

abbrev tag : Value
tag = text (97 ∷ [])

abbrev tagged : Column
tagged = (Columns.append tag tags).1

append_step_example :
    ((Columns.append tag tags).0 ≡ ok tt) × Changed tags tagged (0 + 1) 0 (shown (kind tags) tag)
unfolding kind Columns.init Columns.to_bytes snapdb.Utf8.encode snapdb.Utf8.encode_char
    snapdb.Utf8.has_surrogate
append_step_example = append_step tags 0 tag tags-Holds (97 ∷ [], refl)

tagged-Holds : Holds tagged (0 + 1)
unfolding kind Columns.init Columns.to_bytes snapdb.Utf8.encode snapdb.Utf8.encode_char
    snapdb.Utf8.has_surrogate
tagged-Holds = (append_step tags 0 tag tags-Holds (97 ∷ [], refl)).1.holds

abbrev other_tag : Value
other_tag = text (98 ∷ [])

-- A second value is too many for the dictionary.
set_item_step_example :
    ((Columns.set_item 0 other_tag tagged).0 ≡ ok tt)
    × Changed tagged
        (Columns.set_item 0 other_tag tagged).1
        (0 + 1)
        0
        (shown (kind tagged) other_tag)
unfolding kind Columns.append Columns.init snapdb.Utf8.encode snapdb.Utf8.encode_char
    snapdb.Utf8.has_surrogate
set_item_step_example =
    set_item_step tagged (0 + 1) 0 other_tag tagged-Holds (98 ∷ [], refl) (omega arith)

set_each-Reads_example :
    ((set_each (0 ∷ []) other_tag tagged).0 ≡ ok tt)
    × Holds (set_each (0 ∷ []) other_tag tagged).1 (0 + 1)
    × ((j : ℕ)
        → j < 0 + 1
        → Columns.get_item (set_each (0 ∷ []) other_tag tagged).1 j ≡ (
            if contains j (0 ∷ [])
            then ok (shown (kind tagged) other_tag)
            else Columns.get_item tagged j))
unfolding kind Columns.append Columns.init snapdb.Utf8.encode snapdb.Utf8.encode_char
    snapdb.Utf8.has_surrogate
set_each-Reads_example =
    set_each-Reads (0 ∷ []) tagged (0 + 1) other_tag tagged-Holds (98 ∷ [], refl) only
  where
    only : (j : ℕ) → contains j (0 ∷ []) ≡ true → j < 0 + 1
    only j e = ground (arith, e, nat_eq.beq_iff j 0)

abbrev encodings : Encodings
encodings = record {
  dict_columns = "tag" ∷ [];
  dict_threshold = 1;
  delta_columns = "id" ∷ [];
  for_columns = [];
  for_threshold = 50;
}

abbrev empty : Table
empty = Tables.init (("id", i32) ∷ ("tag", bytes 4) ∷ ("on", bool) ∷ []) encodings

empty-IsTable : IsTable empty
empty-IsTable = init-IsTable "id" i32 (("tag", bytes 4) ∷ ("on", bool) ∷ []) encodings

abbrev first_row : Row
first_row = ("id", int (pos 7)) ∷ ("tag", tag) ∷ []

abbrev one : Table
one = (insert first_row empty).1

insert-Rewritten_example :
    ((insert first_row empty).0 ≡ ok empty.row_count)
    × (one.row_count ≡ empty.row_count + 1)
    × Rewritten empty one empty.row_count (stored empty.columns first_row)
unfolding Tables.init snapdb.Schema.get_or_none Dict.get kind Ints.fits Columns.to_bytes
    snapdb.Utf8.encode snapdb.Utf8.encode_char snapdb.Utf8.has_surrogate
insert-Rewritten_example =
    insert-Rewritten empty first_row empty-IsTable (refl, ((97 ∷ [], refl), (tt, tt)))

one-IsTable : IsTable one
unfolding Tables.init snapdb.Schema.get_or_none Dict.get kind Ints.fits Columns.to_bytes
    snapdb.Utf8.encode snapdb.Utf8.encode_char snapdb.Utf8.has_surrogate
one-IsTable =
    (insert-Rewritten empty first_row empty-IsTable (refl, ((97 ∷ [], refl), (tt, tt)))).2.table

one_count : one.row_count ≡ 1
unfolding Tables.init snapdb.Schema.get_or_none Dict.get kind Ints.fits Columns.to_bytes
    snapdb.Utf8.encode snapdb.Utf8.encode_char snapdb.Utf8.has_surrogate
one_count = (insert-Rewritten empty first_row empty-IsTable (refl, ((97 ∷ [], refl), (tt, tt)))).1

one_live : 0 < one.row_count
one_live = omega (arith, one_count)

abbrev current : Row
current = ("id", int (pos 7)) ∷ ("tag", tag) ∷ ("on", null) ∷ []

abbrev new_tag : Row
new_tag = ("tag", other_tag) ∷ []

one_row : get one 0 ≡ ok (some current)
unfolding get insert Tables.init snapdb.Utf8.decode_replace snapdb.Utf8.encode
    snapdb.Utf8.encode_char snapdb.Utf8.has_surrogate
one_row = refl

update-Rewritten_example :
    ((update 0 new_tag one).0 ≡ ok tt)
    × Rewritten one (update 0 new_tag one).1 0 (stored one.columns (merged current new_tag))
unfolding insert Tables.init merged kind snapdb.Utf8.encode snapdb.Utf8.encode_char
    snapdb.Utf8.has_surrogate
update-Rewritten_example =
    update-Rewritten one 0 current new_tag one-IsTable one_live one_row
      (refl, ((98 ∷ [], refl), (tt, tt)))

delete-None_example :
    ((delete 0 one).0 ≡ ok tt)
    × ((delete 0 one).1.row_count ≡ one.row_count)
    × IsTable (delete 0 one).1
    × (get (delete 0 one).1 0 ≡ ok none)
    × ((j : ℕ) → j < one.row_count → j ≢ 0 → get (delete 0 one).1 j ≡ get one j)
delete-None_example = delete-None one 0 one-IsTable one_live

abbrev has_id : Row → Bool
has_id row = elim (Dict.get row "id") [ none ↦ false | some v ↦ true ]

matching_indices-get_scan_example :
    matching_indices (some has_id) one ≡ get_scan has_id one 0 one.row_count
matching_indices-get_scan_example = matching_indices-get_scan has_id one one-IsTable

select-get_rows_example :
    select (some has_id) none (some 2) 0 one
    ≡ ok (cut (some 2) 0 (drop 0 (get_rows has_id one 0 one.row_count)))
select-get_rows_example = select-get_rows has_id (some 2) 0 one one-IsTable

abbrev two_rows : List Row
two_rows = first_row ∷ (("tag", other_tag) ∷ ("on", int (pos 1)) ∷ []) ∷ []

batch_insert-rows_example :
    ((batch_insert two_rows empty).0 ≡ ok empty.row_count)
    × ((batch_insert two_rows empty).1.row_count ≡ empty.row_count + length two_rows)
    × (get (batch_insert two_rows empty).1 (empty.row_count + 1)
        ≡ ok (kept (stored empty.columns (("tag", other_tag) ∷ ("on", int (pos 1)) ∷ []))))
    × ((j : ℕ) → j < empty.row_count → get (batch_insert two_rows empty).1 j ≡ get empty j)
unfolding Tables.init snapdb.Schema.get_or_none Dict.get kind Ints.fits Columns.to_bytes
    snapdb.Utf8.encode snapdb.Utf8.encode_char snapdb.Utf8.has_surrogate
batch_insert-rows_example =
    batch_insert-rows two_rows empty 1 (("tag", other_tag) ∷ ("on", int (pos 1)) ∷ []) empty-IsTable
      ((refl, ((97 ∷ [], refl), (tt, tt))), ((tt, ((98 ∷ [], refl), (tt, tt))), tt)) refl

aggregate-run_example :
    aggregate sum (run changes column_of_ints).1 ≡ ok (reduce sum (values (list_run changes []).1))
unfolding Ints.fits
aggregate-run_example =
    aggregate-run sum (signed 4) true 2 true 2 changes refl
      (refl, (refl, (tt, (refl, (refl, (tt, tt))))))
