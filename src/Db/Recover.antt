-- ===== src/Db/Recover.antt =====
-- `SnapDB._recover_wal` of snapdb/core.py: the committed records of the log are netted out per row
-- and applied to the slabs.
pub mod Committed
pub mod Netted
use snapdb.Prelude.{
  ℕ, String, Bool, true, false, not, Option, none, some, List, [], ◌∷◌, ◌++◌, if◌then◌else◌,
}
use snapdb.Prelude.Eq.{◌==◌, nat_eq}
use snapdb.Result.{Result, ok, err}
use snapdb.Schema.{Row}
use snapdb.Wal
use snapdb.Wal.{Record}
use snapdb.Db
use snapdb.Db.{Db, get}
use snapdb.Db.Crud
use snapdb.Db.Exec.{Exec, ◌>>=◌, ◌>>◌, pure, gets, modify}
use snapdb.Db.File.{persist_bitmaps}

-- The first loop: the records of the transactions that were committed, in order.
unfoldable pub committed_from : List Record → List Record → List Record → List Record
committed_from pending committed [] = committed
committed_from pending committed (Record.begin n ∷ rs) = committed_from [] committed rs
committed_from pending committed (Record.commit n ∷ rs) =
    committed_from [] (committed ++ pending) rs
committed_from pending committed (Record.rollback n ∷ rs) = committed_from [] committed rs
committed_from pending committed (Record.insert idx row ∷ rs) =
    committed_from (pending ++ (Record.insert idx row ∷ [])) committed rs
committed_from pending committed (Record.update idx row ∷ rs) =
    committed_from (pending ++ (Record.update idx row ∷ [])) committed rs
committed_from pending committed (Record.delete idx ∷ rs) =
    committed_from (pending ++ (Record.delete idx ∷ [])) committed rs

-- record.get("idx")
unfoldable pub idx_of : Record → Option ℕ
idx_of (Record.insert idx row) = some idx
idx_of (Record.update idx row) = some idx
idx_of (Record.delete idx) = some idx
idx_of (Record.begin n) = none
idx_of (Record.commit n) = none
idx_of (Record.rollback n) = none

unfoldable pub has_idx : ℕ → Record → Bool
unfolding idx_of
has_idx idx r = elim (idx_of r) [ none ↦ false | some i ↦ i == idx ]

-- [r for r in netted if r.get("idx") != idx]
unfoldable pub without : ℕ → List Record → List Record
unfolding has_idx
without idx [] = []
without idx (r ∷ rs) = let rest = without idx rs in if has_idx idx r then rest else r ∷ rest

-- The second loop: a delete takes out the earlier records of its row.
unfoldable pub net_from : List Record → List Record → List Record
unfolding without
net_from netted [] = netted
net_from netted (Record.delete idx ∷ rs) =
    net_from (without idx netted ++ (Record.delete idx ∷ [])) rs
net_from netted (Record.insert idx row ∷ rs) = net_from (netted ++ (Record.insert idx row ∷ [])) rs
net_from netted (Record.update idx row ∷ rs) = net_from (netted ++ (Record.update idx row ∷ [])) rs
net_from netted (Record.begin n ∷ rs) = net_from (netted ++ (Record.begin n ∷ [])) rs
net_from netted (Record.commit n ∷ rs) = net_from (netted ++ (Record.commit n ∷ [])) rs
net_from netted (Record.rollback n ∷ rs) = net_from (netted ++ (Record.rollback n ∷ [])) rs

-- self.get(idx) is not None
unfoldable pub is_present : ℕ → Db → Bool
is_present idx db = elim (get db idx) [ none ↦ false | some row ↦ true ]

-- One round of the third loop
unfoldable pub apply_record : Record → Exec Db (Unit {0})
unfolding is_present
apply_record (Record.insert idx row) db =
    if is_present idx db then (ok tt, db) else (Crud.insert row >>= λ i. pure tt) db
apply_record (Record.update idx row) db =
    if is_present idx db then Crud.update idx row db else (ok tt, db)
apply_record (Record.delete idx) db = if is_present idx db then Crud.delete idx db else (ok tt, db)
apply_record (Record.begin n) db = (ok tt, db)
apply_record (Record.commit n) db = (ok tt, db)
apply_record (Record.rollback n) db = (ok tt, db)

unfoldable pub apply_all : List Record → Exec Db (Unit {0})
unfolding apply_record
apply_all [] = pure tt
apply_all (r ∷ rs) = apply_record r >> apply_all rs

-- `self.flush()`, then `self._wal.clear()`
unfoldable pub flush_and_clear : Exec Db (Unit {0})
unfolding persist_bitmaps
flush_and_clear = do persist_bitmaps; modify (λ d. record d { wal = Wal.clear d.wal })

-- Nothing was committed, or the records are applied and `_recovering` is reset whatever happens.
unfoldable pub recover_committed : List Record → Exec Db (Unit {0})
unfolding net_from apply_all flush_and_clear
recover_committed [] db = (ok tt, db)
recover_committed (r ∷ rs) db =
    let out =
      (apply_all (net_from [] (r ∷ rs)) >> flush_and_clear) (record db { recovering = true }) in
    (out.0, record out.1 { recovering = false })

-- A row that `_decode` has turned into bytes raises TypeError here. The program raises it where it
-- applies the record, which it does with those alone that are committed and not netted out.
unfoldable pub recover_wal : Exec Db (Unit {0})
unfolding committed_from recover_committed
recover_wal db =
    let (wal, replayed) = Wal.replay db.wal in
    elim replayed [
      | err e ↦ (err e, record db { wal = wal })
      | ok entries ↦ elim (Wal.records_of entries) [
        | err e ↦ (err e, record db { wal = wal })
        | ok records ↦ recover_committed (committed_from [] [] records) (record db { wal = wal })
      ]
    ]
