-- ===== src/Db/Ranges.antt =====
-- `range_find`, `group_by` and `join` of `SnapDB` (snapdb/core.py) in row storage.
pub mod Pruned
pub mod Join
use snapdb.Prelude.{
  ℕ, zero, suc, ◌+◌, String, Bool, true, false, ◌&&◌, ◌||◌, not, Option, none, some, List, [], ◌∷◌,
  ◌++◌, map, leb, length, if◌then◌else◌,
}
use snapdb.Prelude.Eq.{◌==◌, string_eq}
use snapdb.Prelude.Dict
use snapdb.Prelude.Dict.{Dict}
use snapdb.Prelude.Int.{ℤ, pos, ◌+ℤ◌}
use snapdb.Result.{Result, ok, err, key_error, value_error}
use snapdb.Value.{Value, null, int, lt_value, value_eq}
use snapdb.Schema.{Row, get_or_none, has_column}
use snapdb.Slab
use snapdb.Slab.{Slab}
use snapdb.Index.Range
use snapdb.Db
use snapdb.Db.{Db, get, iter}
use snapdb.Db.Exec.{Exec}

-- The tests of `range_find` on a row's value
unfoldable pub meets : Value → Value → Bool → Bool → Value → Bool
meets low high include_low include_high value =
    not (value == null)
    && not (
        not (low == null) && (if include_low then lt_value value low else not (lt_value low value)))
    && not (
        not (high == null)
        && (if include_high then lt_value high value else not (lt_value value high)))

-- The rows of a slab that pass
unfoldable pub rows_meeting : (Value → Bool) → String → List (ℕ × Row) → List Row
rows_meeting test column [] = []
rows_meeting test column ((i, row) ∷ rows) =
    let rest = rows_meeting test column rows in
    if test (get_or_none row column) then row ∷ rest else rest

-- `for slab in self._slabs: slab.ensure_zone_map()`, of which the caller reads one at a time
unfoldable pub ensure_all : List ℕ → List Slab → List Slab
ensure_all mm [] = []
ensure_all mm (s ∷ slabs) = Slab.ensure_zone_map s mm ∷ ensure_all mm slabs

-- The scan of `range_find`, which leaves out every slab whose zone map excludes the range.
unfoldable pub scan_slabs : List ℕ → String → Value → Value → Bool → Bool → List Slab → List Row
unfolding meets rows_meeting
scan_slabs mm column low high include_low include_high [] = []
scan_slabs mm column low high include_low include_high (s ∷ slabs) =
    let rest = scan_slabs mm column low high include_low include_high slabs in
    if Slab.zone_overlaps s column low high include_low include_high
    then rows_meeting (meets low high include_low include_high) column (Slab.iter_rows s mm) ++ rest
    else rest

-- [row for row_idx in ... if (row := self.get(row_idx)) is not None]
unfoldable pub rows_of : Db → List ℕ → List Row
rows_of db [] = []
rows_of db (i ∷ is) = elim (get db i) [ none ↦ rows_of db is | some row ↦ row ∷ rows_of db is ]

unfoldable pub range_find : String → Value → Value → Bool → Bool → Exec Db (List Row)
unfolding ensure_all scan_slabs rows_of
range_find column low high include_low include_high db =
    if has_column db.schema column
    then elim (Dict.get db.range_indexes column) [
      | some r ↦ (ok (rows_of db (Range.range_lookup r low high include_low include_high)), db)
      | none ↦
          let slabs = ensure_all db.mm db.slabs in
          (
            ok (scan_slabs db.mm column low high include_low include_high slabs),
            record db { slabs = slabs },
          )
    ]
    else (err key_error, db)

-- groups.setdefault(key, []).append(val)
unfoldable pub append_to {ℓ} : {A : Type ℓ} → Dict Value (List A) → Value → A → Dict Value (List A)
append_to groups key val = elim (Dict.get groups key) [
  | none ↦ Dict.put groups key (val ∷ [])
  | some vals ↦ Dict.put groups key (vals ++ (val ∷ []))
]

-- The values of the rows, by key, without the None ones.
unfoldable pub groups_from :
    String → String → Dict Value (List Value) → List (ℕ × Row) → Dict Value (List Value)
unfolding append_to
groups_from key_column value_column groups [] = groups
groups_from key_column value_column groups ((i, row) ∷ rows) =
    groups_from key_column value_column
      (if get_or_none row value_column == null
        then groups
        else append_to groups (get_or_none row key_column) (get_or_none row value_column))
      rows

-- The rows of the other database by their value in the column
unfoldable pub right_map : String → Dict Value (List Row) → List (ℕ × Row) → Dict Value (List Row)
unfolding append_to
right_map column d [] = d
right_map column d ((i, row) ∷ rows) =
    right_map column (append_to d (get_or_none row column) row) rows

-- right_map.get(key, ())
unfoldable pub rows_for : Dict Value (List Row) → Value → List Row
rows_for d key = elim (Dict.get d key) [ none ↦ [] | some rows ↦ rows ]

unfoldable pub join_rows : String → Dict Value (List Row) → List (ℕ × Row) → List (Row × Row)
unfolding rows_for
join_rows column d [] = []
join_rows column d ((i, left) ∷ rows) =
    map (λ right. (left, right)) (rows_for d (get_or_none left column)) ++ join_rows column d rows

-- `how` is "inner".
unfoldable pub join : Db → Db → String → String → Result (List (Row × Row))
unfolding right_map join_rows
join db other left_column right_column =
    if not (has_column db.schema left_column)
    then err key_error
    else if not (has_column other.schema right_column)
    then err key_error
    else ok (join_rows left_column (right_map right_column [] (iter other)) (iter db))
