-- ===== src/Db/Grow.antt =====
-- `SnapDB._grow_to` of snapdb/core.py: new slabs at the end of the file, each behind its bitmap.
use snapdb.Prelude.{ℕ, zero, suc, ◌+◌, ◌*◌, List, [], ◌∷◌, ◌++◌, length, Option}
use snapdb.Schema.{Schema}
use snapdb.Slab
use snapdb.Slab.{Slab, Crypt, zeros}
use snapdb.Db.{Db}

-- The loop over the new slabs, at the offsets of their bitmaps.
unfoldable pub new_slabs : Schema → ℕ → ℕ → Option Crypt → ℕ → ℕ → List Slab
new_slabs schema bitmap_size unit crypt unit_off zero = []
new_slabs schema bitmap_size unit crypt unit_off (suc n) =
    Slab.init schema (unit_off + bitmap_size) bitmap_size crypt
    ∷ new_slabs schema bitmap_size unit crypt (unit_off + unit) n

-- The file is extended by zeros, so the new bitmaps are zero.
unfoldable pub grow_to : Db → ℕ → Db
unfolding new_slabs
grow_to db n =
    let unit = db.rows_per_slab + db.page_size in
    record db {
      mm = db.mm ++ zeros (n * unit);
      slabs = db.slabs ++ new_slabs db.schema db.rows_per_slab unit db.crypt (length db.mm) n;
    }

unfoldable pub expand : Db → Db
unfolding grow_to
expand db = grow_to db 1
