-- ===== src/Columnar/Table.antt =====
-- `ColumnarTable` of snapdb/columnar.py: its rows, one value in each column. The names of the columns
-- differ, so that `self.columns` and `_col_list` hold the same columns. Row numbers are not negative.
pub mod Changes
pub mod Crud
pub mod Batch
pub mod Scan
pub mod Select
use snapdb.Prelude.{
  ℕ, zero, suc, ◌+◌, ◌≡◌, String, Bool, true, false, ◌&&◌, ◌||◌, not, Option, none, some, List, [],
  ◌∷◌, ◌++◌, map, ltb, leb, length, get_elem?, if◌then◌else◌,
}
use snapdb.Prelude.Eq.{◌==◌, string_eq, nat_eq, contains}
use snapdb.Prelude.Dict
use snapdb.Prelude.Dict.{Dict}
use snapdb.Result.{Result, ok, err, key_error, value_error, index_error}
use snapdb.Value.{Value, null}
use snapdb.Schema.{Dtype, Row, get_or_none}
use snapdb.Db.Exec.{Exec, ◌>>=◌, ◌>>◌, pure, raise, modify}
use snapdb.Columnar.Nulls.{at_index}
use snapdb.Columnar.Column
use snapdb.Columnar.Column.{Column, append, get_item, set_item, to_list, nullmask, clear}

abbrev pub Columns : Type 0
Columns = List (String × Column)

pub record Table : Type 0 where
  pub columns : Columns
  pub row_count : ℕ

-- The parameters of the encodings
pub record Encodings : Type 0 where
  pub dict_columns : List String
  pub dict_threshold : ℕ
  pub delta_columns : List String
  pub for_columns : List String
  pub for_threshold : ℕ

-- `Column` takes 50 samples before it may use differences.
unfoldable pub init_columns : Encodings → List (String × Dtype) → Columns
unfolding Column.init
init_columns e [] = []
init_columns e ((name, dtype) ∷ schema) =
    (
      name,
      Column.init dtype (contains name e.dict_columns) e.dict_threshold
          (contains name e.delta_columns) 50 (contains name e.for_columns) e.for_threshold,
    )
    ∷ init_columns e schema

-- `ColumnarTable(...)`
unfoldable pub init : List (String × Dtype) → Encodings → Table
unfolding init_columns
init schema e = record { columns = init_columns e schema; row_count = 0 }

-- for col in self._col_list: col.append(row.get(col.name))
unfoldable pub append_all : Row → Exec Columns (Unit {0})
unfolding append get_or_none
append_all row [] = (ok tt, [])
append_all row ((name, c) ∷ cs) = elim (append (get_or_none row name) c).0 [
  | err e ↦ (err e, (name, (append (get_or_none row name) c).1) ∷ cs)
  | ok _ ↦
      ((append_all row cs).0, (name, (append (get_or_none row name) c).1) ∷ (append_all row cs).1)
]

-- `insert`
unfoldable pub insert : Row → Exec Table ℕ
unfolding append_all
insert row t = elim (append_all row t.columns).0 [
  | err e ↦ (err e, record t { columns = (append_all row t.columns).1 })
  | ok _ ↦ (
    ok t.row_count,
    record { columns = (append_all row t.columns).1; row_count = t.row_count + 1 },
  )
]

-- The loop of `batch_insert`
unfoldable pub insert_rows : List Row → Exec Table (Unit {0})
unfolding insert
insert_rows [] t = (ok tt, t)
insert_rows (row ∷ rows) t = ((λ s. insert row s) >>= λ _. insert_rows rows) t

unfoldable pub batch_insert : List Row → Exec Table ℕ
unfolding insert_rows
batch_insert rows t = (insert_rows rows >> pure t.row_count) t

-- Whether any of the columns has a value at the row
unfoldable pub any_value : Columns → ℕ → Result Bool
unfolding nullmask at_index
any_value [] i = ok false
any_value ((name, c) ∷ cs) i = elim (at_index (nullmask c) i) [
  | err e ↦ err e
  | ok no_value ↦ elim no_value [ true ↦ any_value cs i | false ↦ ok true ]
]

-- `_live_mask`, from row `i` on: the first column is read before the others.
unfoldable pub live_from : Columns → ℕ → ℕ → Result (List Bool)
unfolding any_value
live_from cs i zero = ok []
live_from cs i (suc n) = elim (any_value cs i) [
  | err e ↦ err e
  | ok live ↦ elim (live_from cs (suc i) n) [ err e ↦ err e | ok rest ↦ ok (live ∷ rest) ]
]

unfoldable pub live_mask : Table → Result (List Bool)
unfolding live_from
live_mask t = elim t.columns [ [] ↦ err index_error | c ∷ cs ↦ live_from (c ∷ cs) 0 t.row_count ]

-- {col.name: col[idx] for col in self._col_list}
unfoldable pub row_of : Columns → ℕ → Result Row
unfolding get_item
row_of [] idx = ok []
row_of ((name, c) ∷ cs) idx = elim (get_item c idx) [
  | err e ↦ err e
  | ok v ↦ elim (row_of cs idx) [ err e ↦ err e | ok row ↦ ok ((name, v) ∷ row) ]
]

-- `get`: the first column is looked at first, then all of them.
unfoldable pub get : Table → ℕ → Result (Option Row)
unfolding any_value row_of
get t idx = if leb t.row_count idx then ok none else elim t.columns [
  | [] ↦ err index_error
  | c ∷ cs ↦ elim (any_value (c ∷ cs) idx) [
    | err e ↦ err e
    | ok live ↦
        if live
        then elim (row_of (c ∷ cs) idx) [ err e ↦ err e | ok row ↦ ok (some row) ]
        else ok none
  ]
]

-- for col in self._col_list: col[idx] = merged.get(col.name)
unfoldable pub set_all : ℕ → Row → Exec Columns (Unit {0})
unfolding set_item get_or_none
set_all idx row [] = (ok tt, [])
set_all idx row ((name, c) ∷ cs) = elim (set_item idx (get_or_none row name) c).0 [
  | err e ↦ (err e, (name, (set_item idx (get_or_none row name) c).1) ∷ cs)
  | ok _ ↦ (
    (set_all idx row cs).0,
    (name, (set_item idx (get_or_none row name) c).1) ∷ (set_all idx row cs).1,
  )
]

-- {**current, **row}
unfoldable pub merged : Row → Row → Row
unfolding Dict.put
merged current [] = current
merged current ((name, v) ∷ row) = merged (Dict.put current name v) row

-- `update`
unfoldable pub update : ℕ → Row → Exec Table (Unit {0})
unfolding get set_all merged
update idx row t = if leb t.row_count idx then (err index_error, t) else elim (get t idx) [
  | err e ↦ (err e, t)
  | ok none ↦ (err key_error, t)
  | ok (some current) ↦ (
    (set_all idx (merged current row) t.columns).0,
    record t { columns = (set_all idx (merged current row) t.columns).1 },
  )
]

unfoldable pub clear_all : ℕ → Columns → Columns
unfolding clear
clear_all idx [] = []
clear_all idx ((name, c) ∷ cs) = (name, clear idx c) ∷ clear_all idx cs

-- `delete`
unfoldable pub delete : ℕ → Exec Table (Unit {0})
unfolding clear_all
delete idx t =
    if leb t.row_count idx
    then (err index_error, t)
    else (ok tt, record t { columns = clear_all idx t.columns })
