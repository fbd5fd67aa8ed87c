-- ===== src/Index/Hash.antt =====
-- `HashIndex` of snapdb/index.py: the rows of each value of a column.
pub mod Laws
use snapdb.Prelude.{
  ℕ, String, ◌≡◌, Bool, true, false, Option, none, some, List, [], ◌∷◌, if◌then◌else◌, contains,
}
use snapdb.Prelude.Eq.{◌==◌}
use snapdb.Prelude.Dict
use snapdb.Prelude.Dict.{Dict}
use snapdb.Prelude.Int.{ℤ, pos, ◌+ℤ◌, ◌-ℤ◌}
use snapdb.Value.{Value, value_eq, norm_value}
use snapdb.Schema.{Row, get_or_none}
use snapdb.Index.RowSet.{RowSet, add, discard, sorted, is_empty}

-- `_total` is an integer: `delete` takes one off whether or not the row was there.
pub record HashIndex : Type 0 where
  pub column : String
  pub index : Dict Value RowSet
  pub total : ℤ

unfoldable pub init : String → HashIndex
init column = record { column = column; index = []; total = pos 0 }

-- `_key` of the row's value in the index's column
unfoldable pub key_of : HashIndex → Row → Value
key_of h row = norm_value (get_or_none row h.column)

-- The rows of a key: self._index.get(key, set())
unfoldable pub rows_at : Dict Value RowSet → Value → RowSet
rows_at d key = elim (Dict.get d key) [ none ↦ [] | some s ↦ s ]

add_row : Dict Value RowSet → Value → ℕ → Dict Value RowSet
unfolding rows_at add
add_row d key row_idx = Dict.put d key (add row_idx (rows_at d key))

-- A set that a discard leaves empty is deleted with its key.
remove_row : Dict Value RowSet → Value → ℕ → Dict Value RowSet
unfolding discard
remove_row d key row_idx = elim (Dict.get d key) [
  | none ↦ d
  | some s ↦
      if is_empty (discard row_idx s)
      then Dict.del (Dict.put d key (discard row_idx s)) key
      else Dict.put d key (discard row_idx s)
]

unfoldable pub insert : HashIndex → ℕ → Row → HashIndex
unfolding add_row
insert h row_idx row = record h {
  index = add_row h.index (key_of h row) row_idx;
  total = h.total +ℤ pos 1;
}

unfoldable pub update : HashIndex → ℕ → Row → Row → HashIndex
unfolding add_row remove_row
update h row_idx old_row new_row = if key_of h old_row == key_of h new_row then h else record h {
  index = add_row (remove_row h.index (key_of h old_row) row_idx) (key_of h new_row) row_idx;
}

unfoldable pub delete : HashIndex → ℕ → Row → HashIndex
unfolding remove_row
delete h row_idx row = record h {
  index = remove_row h.index (key_of h row) row_idx;
  total = h.total -ℤ pos 1;
}

unfoldable pub lookup : HashIndex → Value → RowSet
unfolding rows_at
lookup h value = sorted (rows_at h.index (norm_value value))

unfoldable pub has : HashIndex → Value → Bool
has h value = elim (Dict.get h.index (norm_value value)) [ none ↦ false | some s ↦ true ]
