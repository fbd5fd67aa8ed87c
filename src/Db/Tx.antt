-- ===== src/Db/Tx.antt =====
-- Transactions of `SnapDB` (snapdb/core.py): `transaction`, whose body is a parameter, `_tx_rollback`
-- and `checkpoint`.
use snapdb.Prelude.{ℕ, ◌/◌, ◌%◌, true, false, none, some, List, [], ◌∷◌, ltb, set, if◌then◌else◌}
use mathlib.Core.List.{reverse}
use snapdb.Prelude.Int.{pos, ◌+ℤ◌, ◌-ℤ◌}
use snapdb.Result.{Result, ok, err, runtime_error}
use snapdb.Bytes.{write}
use snapdb.Schema.{Row}
use snapdb.Schema.Codec.{encode_row}
use snapdb.Slab
use snapdb.Slab.{Slab}
use snapdb.Wal
use snapdb.Db.{Db, Undo, slab_of, index_insert, index_update, index_delete}
use snapdb.Db.Exec.{Exec, ◌>>◌, pure, modify}
use snapdb.Db.Crud.{put_slab, update_slab, delete_slab}
use snapdb.Db.Unique.{unique_insert, unique_delete, unique_update}
use snapdb.Db.File.{persist_bitmaps}

-- Undo an insert: the slot is dead again, and the row leaves the indexes.
unfoldable pub undo_insert : ℕ → Row → Db → Db
unfolding delete_slab index_delete unique_delete
undo_insert idx row db = elim (slab_of db idx) [
  | none ↦ db
  | some slab ↦
      let dead = delete_slab idx db in
      unique_delete (index_delete (record dead { total_rows = dead.total_rows -ℤ pos 1 }) idx row)
        idx row
]

-- Undo an update: `current` is the row before the old one is written back.
unfoldable pub undo_update : ℕ → Row → Exec Db (Unit {0})
unfolding slab_of update_slab unique_update index_update
undo_update idx row db = elim (slab_of db idx) [
  | none ↦ (ok tt, db)
  | some slab ↦ elim (Slab.get slab db.mm (idx % db.rows_per_slab)) [
    | none ↦ update_slab idx row db
    | some current ↦
        (do
          update_slab idx row
          modify (λ d. index_update d idx current row)
          unique_update idx current row)
          db
  ]
]

-- Write the row back at its offset, and mark its slot as live.
unfoldable pub restore_row : ℕ → Slab → List ℕ → Row → Db → Db
unfolding put_slab index_insert unique_insert
restore_row idx slab raw row db =
    let local_idx = idx % db.rows_per_slab in
    let start = Slab.row_offset slab local_idx in
    let live = record slab { live = set slab.live local_idx 1 } in
    let back =
      put_slab db (idx / db.rows_per_slab)
        (live, write (Slab.apply_crypt slab.crypt raw start) start db.mm) in
    unique_insert (index_insert (record back { total_rows = back.total_rows +ℤ pos 1 }) idx row) idx
      row

unfoldable pub undo_delete : ℕ → Row → Exec Db (Unit {0})
unfolding slab_of restore_row
undo_delete idx row db = elim (slab_of db idx) [
  | none ↦ (ok tt, db)
  | some slab ↦
      if ltb (idx % db.rows_per_slab) slab.capacity
      then elim (encode_row db.schema row) [
        | ok raw ↦ (ok tt, restore_row idx slab raw row db)
        | err e ↦ (err e, db)
      ]
      else (ok tt, db)
]

unfoldable pub undo_one : Undo → Exec Db (Unit {0})
unfolding undo_insert undo_update undo_delete
undo_one (Undo.insert idx row) = modify (undo_insert idx row)
undo_one (Undo.update idx row) = undo_update idx row
undo_one (Undo.delete idx row) = undo_delete idx row

unfoldable pub undo_all : List Undo → Exec Db (Unit {0})
unfolding undo_one
undo_all [] = pure tt
undo_all (u ∷ us) = undo_one u >> undo_all us

-- What is left of a transaction after its undo entries: `self._wal._buffer.clear()` is the last call.
unfoldable pub end_rollback : Db → Db
end_rollback db = record db { in_tx = false; tx_state = []; wal = record db.wal { buffer = [] } }

unfoldable pub tx_rollback : Exec Db (Unit {0})
unfolding undo_all end_rollback
tx_rollback db =
    if db.in_tx
    then (undo_all (reverse db.tx_state) >> modify end_rollback) (record db { in_tx = false })
    else (ok tt, db)

unfoldable pub begin_tx : Exec Db (Unit {0})
begin_tx db =
    if db.in_tx
    then (err runtime_error, db)
    else (ok tt, record db { wal = Wal.begin_tx db.wal; in_tx = true; tx_state = [] })

unfoldable pub commit_tx : Db → Db
commit_tx db = record db { wal = Wal.commit_tx db.wal; in_tx = false; tx_state = [] }

-- The exception of the body is raised again, unless the roll back raises one of its own.
unfoldable pub abort {ℓ} : {A : Type ℓ} → Result A → Exec Db A
unfolding tx_rollback
abort e db =
    let undone = tx_rollback (record db { wal = Wal.rollback_tx db.wal }) in
    elim undone.0 [ ok _ ↦ (e, undone.1) | err e' ↦ (err e', undone.1) ]

-- `with db.transaction(): body`
unfoldable pub transaction {ℓ} : {A : Type ℓ} → Exec Db A → Exec Db A
unfolding begin_tx commit_tx abort
transaction body db = elim (begin_tx db).0 [
  | err e ↦ (err e, db)
  | ok _ ↦ elim (body (begin_tx db).1).0 [
    | ok a ↦ (ok a, commit_tx (body (begin_tx db).1).1)
    | err e ↦ abort (err e) (body (begin_tx db).1).1
  ]
]

unfoldable pub checkpoint : Exec Db (Unit {0})
unfolding persist_bitmaps
checkpoint = do persist_bitmaps; modify (λ d. record d { wal = Wal.clear d.wal })
