-- ===== src/Db/Unique.antt =====
-- The row checks and the unique constraints of `SnapDB` (snapdb/core.py).
pub mod Laws
use snapdb.Prelude.{
  ℕ, String, Bool, true, false, ◌&&◌, not, Option, none, some, List, [], ◌∷◌, if◌then◌else◌,
}
use snapdb.Prelude.Eq.{◌==◌, nat_eq, string_eq}
use snapdb.Prelude.Dict
use snapdb.Prelude.Dict.{Dict}
use snapdb.Result.{Result, ok, err, key_error, value_error, ◌>>=◌, ◌>>◌, raise_if}
use snapdb.Value.{Value, null, norm_value, value_eq}
use snapdb.Schema.{Schema, Columns, Row, get_or_none}
use snapdb.Db.{Db, iter}
use snapdb.Db.Exec
use snapdb.Db.Exec.{Exec}

-- `_check_row_shape`
unfoldable pub check_columns : Columns → Row → Result (Unit {0})
check_columns [] row = ok tt
check_columns (c ∷ cs) row = elim (Dict.get row c.name) [
  | none ↦ err key_error
  | some v ↦ do raise_if (v == null && c.not_null) value_error; check_columns cs row
]

unfoldable pub check_row_shape : Db → Row → Result (Unit {0})
unfolding check_columns
check_row_shape db row = check_columns db.schema.columns row

-- `_unique_key` of the row's value in a column
unfoldable pub unique_key : Row → String → Value
unique_key row col = norm_value (get_or_none row col)

-- self._unique_values[col]
unfoldable pub owners : Dict String (Dict Value ℕ) → String → Dict Value ℕ
owners values col = elim (Dict.get values col) [ none ↦ [] | some d ↦ d ]

-- `owner is not None and owner != existing_idx`
unfoldable pub conflicts : Option ℕ → Option ℕ → Bool
conflicts none existing = false
conflicts (some owner) none = true
conflicts (some owner) (some idx) = not (owner == idx)

-- The loop of `_validate_unique` over the unique columns
unfoldable pub validate_columns :
    List String → Dict String (Dict Value ℕ) → Row → Option ℕ → Result (Unit {0})
unfolding owners unique_key conflicts
validate_columns [] values row existing = ok tt
validate_columns (col ∷ cols) values row existing = do
  raise_if (conflicts (Dict.get (owners values col) (unique_key row col)) existing) value_error
  validate_columns cols values row existing

unfoldable pub validate_unique : Db → Row → Option ℕ → Result (Unit {0})
unfolding validate_columns
validate_unique db row existing = validate_columns db.unique_columns db.unique_values row existing

-- The loop of `_unique_insert`
unfoldable pub claim_columns :
    List String → Dict String (Dict Value ℕ) → ℕ → Row → Dict String (Dict Value ℕ)
unfolding owners unique_key
claim_columns [] values idx row = values
claim_columns (col ∷ cols) values idx row =
    claim_columns cols (Dict.put values col (Dict.put (owners values col) (unique_key row col) idx))
      idx row

unfoldable pub unique_insert : Db → ℕ → Row → Db
unfolding claim_columns
unique_insert db idx row = record db {
  unique_values = claim_columns db.unique_columns db.unique_values idx row;
}

-- `if self._unique_values[col].get(key) == idx: del self._unique_values[col][key]`
unfoldable pub release : Dict Value ℕ → Value → ℕ → Dict Value ℕ
release d key idx = elim (Dict.get d key) [
  | none ↦ d
  | some owner ↦ if owner == idx then Dict.del d key else d
]

-- The loop of `_unique_delete`
unfoldable pub release_columns :
    List String → Dict String (Dict Value ℕ) → ℕ → Row → Dict String (Dict Value ℕ)
unfolding owners unique_key release
release_columns [] values idx row = values
release_columns (col ∷ cols) values idx row =
    release_columns cols
      (Dict.put values col (release (owners values col) (unique_key row col) idx)) idx row

unfoldable pub unique_delete : Db → ℕ → Row → Db
unfolding release_columns
unique_delete db idx row = record db {
  unique_values = release_columns db.unique_columns db.unique_values idx row;
}

-- A new row that does not pass puts the old one back and raises.
unfoldable pub unique_update : ℕ → Row → Row → Exec Db (Unit {0})
unfolding unique_delete unique_insert validate_unique
unique_update idx old_row new_row db =
    let released = unique_delete db idx old_row in
    elim (validate_unique released new_row (some idx)) [
      | ok _ ↦ (ok tt, unique_insert released idx new_row)
      | err e ↦ (err e, unique_insert released idx old_row)
    ]

-- The loop of `_rebuild_unique_constraints` over the rows
unfoldable pub claim_rows : List (ℕ × Row) → Exec Db (Unit {0})
unfolding validate_unique unique_insert
claim_rows [] db = (ok tt, db)
claim_rows ((idx, row) ∷ rows) db =
    let rest = claim_rows rows (unique_insert db idx row) in
    elim (validate_unique db row (some idx)) [ ok _ ↦ rest | err e ↦ (err e, db) ]

unfoldable pub empty_owners : List String → Dict String (Dict Value ℕ)
empty_owners [] = []
empty_owners (col ∷ cols) = (col, []) ∷ empty_owners cols

unfoldable pub rebuild_unique_constraints : Exec Db (Unit {0})
unfolding claim_rows empty_owners
rebuild_unique_constraints db =
    claim_rows (iter db) (record db { unique_values = empty_owners db.unique_columns })
