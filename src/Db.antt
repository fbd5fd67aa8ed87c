-- ===== src/Db.antt =====
-- `SnapDB` of snapdb/core.py in row storage: the slabs over the mapped file, the unique constraints,
-- the indexes, the change log, and transactions. A method is an action on the state, which it leaves
-- changed where it raises. Row numbers are natural numbers; Python's negative ones are refused by
-- every method before anything else. Locks, metrics and the columnar engine have no counterpart.
pub mod Exec
pub mod Grow
pub mod Unique
pub mod Crud
pub mod Search
pub mod Ranges
pub mod Tx
pub mod File
pub mod Recover
use snapdb.Prelude.{
  ℕ, zero, suc, ◌+◌, ◌-◌, ◌*◌, ◌/◌, ◌%◌, String, Bool, true, false, ◌&&◌, ◌||◌, not, Option, none,
  some, List, [], ◌∷◌, ◌++◌, map, ltb, length, get_elem?, if◌then◌else◌,
}
use snapdb.Prelude.Eq.{string_eq}
use snapdb.Prelude.Dict
use snapdb.Prelude.Dict.{Dict}
use snapdb.Prelude.Int.{ℤ}
use snapdb.Value.{Value}
use snapdb.Result.{Result, ok, err, ◌>>=◌}
use snapdb.Schema.{Schema, Row, get_or_none}
use snapdb.Schema.Codec.{encode_row}
use snapdb.Index.Hash
use snapdb.Index.Multi.{MultiIndex}
use snapdb.Index.Range
use snapdb.Index.Range.{RangeIndex}
use snapdb.Slab
use snapdb.Slab.{Slab, Crypt}
use snapdb.Wal.{Wal}

-- An event of the change log, without its time.
pub data Event : Type 0 where
  inserted : ℕ → Row → Event
  updated : ℕ → Row → Row → Event
  deleted : ℕ → Row → Event

-- An entry of `_tx_state`
pub data Undo : Type 0 where
  insert : ℕ → Row → Undo
  update : ℕ → Row → Undo
  delete : ℕ → Row → Undo

pub record Db : Type 0 where
  pub schema : Schema
  pub page_size : ℕ
  pub rows_per_slab : ℕ
  pub schema_offset : ℕ
  pub mm : List ℕ
  pub slabs : List Slab
  pub total_rows : ℤ
  pub unique_columns : List String
  pub unique_values : Dict String (Dict Value ℕ)
  pub indexes : MultiIndex
  pub range_indexes : Dict String RangeIndex
  pub auto_index : Bool
  pub auto_index_threshold : ℕ
  pub access_counts : Dict String ℕ
  pub in_tx : Bool
  pub tx_state : List Undo
  pub wal : Wal
  pub recovering : Bool
  pub cdc : Option (List Event)
  pub crypt : Option Crypt

-- `self._slabs[idx // self._rows_per_slab]`, where there is one
unfoldable pub slab_of : Db → ℕ → Option Slab
slab_of db idx = get_elem? db.slabs (idx / db.rows_per_slab)

unfoldable pub get : Db → ℕ → Option Row
unfolding slab_of
get db idx = elim (slab_of db idx) [
  | none ↦ none
  | some slab ↦ Slab.get slab db.mm (idx % db.rows_per_slab)
]

-- On an encrypted database the decoded row is encoded again; `none` stands for None.
unfoldable pub get_raw : Db → ℕ → Result (Option (List ℕ))
unfolding slab_of
get_raw db idx = elim (slab_of db idx) [
  | none ↦ ok none
  | some slab ↦ elim db.crypt [
    | none ↦ ok (Slab.get_raw slab db.mm (idx % db.rows_per_slab))
    | some crypt ↦ elim (Slab.get slab db.mm (idx % db.rows_per_slab)) [
      | none ↦ ok none
      | some row ↦ encode_row db.schema row >>= λ raw. ok (some raw)
    ]
  ]
]

-- [(base + i, row) for i, row in slab rows]
unfoldable pub number_from : ℕ → List (ℕ × Row) → List (ℕ × Row)
number_from base [] = []
number_from base ((i, row) ∷ rows) = (base + i, row) ∷ number_from base rows

-- `__iter__`, from the slab with number `k` on
unfoldable pub iter_from : Db → ℕ → List Slab → List (ℕ × Row)
unfolding number_from
iter_from db k [] = []
iter_from db k (slab ∷ slabs) =
    number_from (k * db.rows_per_slab) (Slab.iter_rows slab db.mm) ++ iter_from db (suc k) slabs

unfoldable pub iter : Db → List (ℕ × Row)
unfolding iter_from
iter db = iter_from db 0 db.slabs

-- `for index in indexes.values(): index.change(...)`
unfoldable pub map_values {ℓ} : {V : Type ℓ} → (V → V) → Dict String V → Dict String V
map_values f [] = []
map_values f ((k, v) ∷ d) = (k, f v) ∷ map_values f d

unfoldable pub index_insert : Db → ℕ → Row → Db
unfolding map_values
index_insert db idx row = record db {
  indexes = map_values (λ h. Hash.insert h idx row) db.indexes;
  range_indexes = map_values (λ r. Range.insert r idx row) db.range_indexes;
}

unfoldable pub index_update : Db → ℕ → Row → Row → Db
unfolding map_values
index_update db idx old_row new_row = record db {
  indexes = map_values (λ h. Hash.update h idx old_row new_row) db.indexes;
  range_indexes = map_values (λ r. Range.update r idx old_row new_row) db.range_indexes;
}

unfoldable pub index_delete : Db → ℕ → Row → Db
unfolding map_values
index_delete db idx row = record db {
  indexes = map_values (λ h. Hash.delete h idx row) db.indexes;
  range_indexes = map_values (λ r. Range.delete r idx row) db.range_indexes;
}

unfoldable pub cdc_log : Db → Event → Db
cdc_log db event = elim db.cdc [
  | none ↦ db
  | some events ↦ record db { cdc = some (events ++ (event ∷ [])) }
]
