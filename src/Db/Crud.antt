-- ===== src/Db/Crud.antt =====
-- `insert`, `update`, `delete` and `batch_update` of `SnapDB` (snapdb/core.py), with the calls that
-- they make, in order.
use snapdb.Prelude.{
  ℕ, ◌+◌, ◌-◌, ◌*◌, ◌/◌, ◌%◌, Bool, true, none, some, List, [], ◌∷◌, ◌++◌, length, get_elem?, set,
  if◌then◌else◌,
}
use snapdb.Prelude.Eq.{string_eq}
use snapdb.Prelude.Dict
use snapdb.Prelude.Int.{pos, ◌+ℤ◌, ◌-ℤ◌}
use snapdb.Result.{ok, err, key_error}
use snapdb.Schema.{Row}
use snapdb.Slab
use snapdb.Slab.{Slab}
use snapdb.Wal
use snapdb.Wal.{Wal}
use snapdb.Db.{
  Db, inserted, updated, deleted, Undo, slab_of, get, iter, index_insert, index_update,
  index_delete, cdc_log,
}
use snapdb.Db.Exec.{Exec, ◌>>=◌, ◌>>◌, pure, gets, modify, lift}
use snapdb.Db.Grow.{expand}
use snapdb.Db.Unique.{check_row_shape, validate_unique, unique_insert, unique_delete, unique_update}

-- `not self._slabs or self._slabs[-1].is_full`
unfoldable pub last_is_full : List Slab → Bool
last_is_full [] = true
last_is_full (s ∷ []) = Slab.is_full s
last_is_full (s ∷ t ∷ slabs) = last_is_full (t ∷ slabs)

-- Put a slab back in its place, with the file that its method wrote.
unfoldable pub put_slab : Db → ℕ → Slab × List ℕ → Db
put_slab db k (slab, mm) = record db { slabs = set db.slabs k slab; mm = mm }

-- `self._slabs[-1].insert(row)`
unfoldable pub insert_last : Row → Exec Db ℕ
unfolding put_slab
insert_last row db = elim (get_elem? db.slabs (length db.slabs - 1)) [
  | none ↦ (err key_error, db)
  | some slab ↦
      let out = Slab.insert slab db.mm row in
      (out.0, put_slab db (length db.slabs - 1) (out.1, out.2))
]

-- The undo entry and the log record of a change, inside a transaction. Recovery logs nothing.
unfoldable pub note_change : Undo → Wal.Record → Db → Db
note_change undo entry db =
    if db.in_tx
    then record db {
      tx_state = db.tx_state ++ (undo ∷ []);
      wal = if db.recovering then db.wal else Wal.append db.wal entry;
    }
    else db

unfoldable pub expand_if_full : Db → Db
unfolding last_is_full expand
expand_if_full db = if last_is_full db.slabs then expand db else db

-- What `_insert_locked` does once the slab has the row at `local_idx`.
unfoldable pub finish_insert : Row → ℕ → Db → ℕ × Db
unfolding index_insert unique_insert cdc_log note_change
finish_insert row local_idx db =
    let global_idx = (length db.slabs - 1) * db.rows_per_slab + local_idx in
    (
      global_idx,
      note_change (Undo.insert global_idx row) (Wal.insert global_idx row) (
          unique_insert
            (index_insert
              (cdc_log (record db { total_rows = db.total_rows +ℤ pos 1 })
                (inserted global_idx row))
              global_idx row)
            global_idx row),
    )

unfoldable pub insert : Row → Exec Db ℕ
unfolding check_row_shape validate_unique expand_if_full insert_last finish_insert
insert row = do
  lift (λ db. check_row_shape db row)
  lift (λ db. validate_unique db row none)
  modify expand_if_full
  local_idx ← insert_last row
  λ db. (ok (finish_insert row local_idx db).0, (finish_insert row local_idx db).1)

-- {**old, **row}
unfoldable pub merge : Row → Row → Row
merge old [] = old
merge old ((k, v) ∷ row) = merge (Dict.put old k v) row

-- `self._slabs[slab_idx].update(local_idx, merged)`
unfoldable pub update_slab : ℕ → Row → Exec Db (Unit {0})
unfolding slab_of put_slab
update_slab idx merged db = elim (slab_of db idx) [
  | none ↦ (err key_error, db)
  | some slab ↦
      let out = Slab.update slab db.mm (idx % db.rows_per_slab) merged in
      (out.0, put_slab db (idx / db.rows_per_slab) (out.1, out.2))
]

unfoldable pub finish_update : ℕ → Row → Row → Db → Db
unfolding index_update cdc_log note_change
finish_update idx old_row merged db =
    note_change (Undo.update idx old_row) (Wal.update idx merged)
      (index_update (cdc_log db (updated idx merged old_row)) idx old_row merged)

-- The old row, or KeyError
unfoldable pub require : ℕ → Exec Db Row
require idx db = elim (get db idx) [ none ↦ (err key_error, db) | some row ↦ (ok row, db) ]

unfoldable pub update : ℕ → Row → Exec Db (Unit {0})
unfolding require merge check_row_shape unique_update update_slab finish_update
update idx row = do
  old_row ← require idx
  let merged = merge old_row row
  lift (λ db. check_row_shape db merged)
  unique_update idx old_row merged
  update_slab idx merged
  modify (finish_update idx old_row merged)

unfoldable pub delete_slab : ℕ → Db → Db
unfolding slab_of put_slab
delete_slab idx db = elim (slab_of db idx) [
  | none ↦ db
  | some slab ↦
      put_slab db (idx / db.rows_per_slab) (Slab.delete slab (idx % db.rows_per_slab), db.mm)
]

unfoldable pub finish_delete : ℕ → Row → Db → Db
unfolding index_delete unique_delete cdc_log note_change
finish_delete idx old_row db = note_change (Undo.delete idx old_row) (Wal.delete idx) (
    unique_delete
      (index_delete
        (cdc_log (record db { total_rows = db.total_rows -ℤ pos 1 }) (deleted idx old_row)) idx
        old_row)
      idx old_row)

unfoldable pub delete : ℕ → Exec Db (Unit {0})
unfolding require delete_slab finish_delete
delete idx = do old_row ← require idx; modify (delete_slab idx); modify (finish_delete idx old_row)

-- The loop of `batch_update` over the rows that matched
unfoldable pub update_all : List (ℕ × Row) → (Row → Row) → Exec Db (Unit {0})
update_all [] updates = pure tt
update_all ((idx, row) ∷ matches) updates = do update idx (updates row); update_all matches updates

unfoldable pub matching : (Row → Bool) → List (ℕ × Row) → List (ℕ × Row)
matching predicate [] = []
matching predicate ((idx, row) ∷ rows) =
    let rest = matching predicate rows in if predicate row then (idx, row) ∷ rest else rest

-- A dict of updates is the constant function.
unfoldable pub batch_update : (Row → Bool) → (Row → Row) → Exec Db ℕ
unfolding matching update_all
batch_update predicate updates = do
  matches ← gets (λ db. matching predicate (iter db))
  update_all matches updates
  pure (length matches)
