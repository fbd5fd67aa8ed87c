-- ===== src/Db/File.antt =====
-- The file of `SnapDB` in row storage (snapdb/core.py): the header, the bitmaps that `flush` writes,
-- the slabs that `_load` reads back, and recovery from the log. The file starts with the header and
-- the JSON text of the schema, which these functions take as bytes that they do not read.
pub mod Header
use snapdb.Prelude.{
  ℕ, zero, suc, ◌+◌, ◌-◌, ◌*◌, ◌/◌, ◌%◌, ◌^◌, String, Bool, true, false, ◌&&◌, ◌||◌, not, Option,
  none, some, List, [], ◌∷◌, ◌++◌, ltb, leb, length, get_elem?, take, drop, if◌then◌else◌,
}
use snapdb.Prelude.Eq.{Eq, ◌==◌, nat_eq}
use snapdb.Prelude.Int.{ℤ, pos, ◌+ℤ◌}
use snapdb.Result.{Result, ok, err, value_error, struct_error}
use snapdb.Bytes.{slice, write, to_bytes, from_bytes}
use snapdb.Value.{codes_eq}
use snapdb.Schema.{Schema}
use snapdb.Slab
use snapdb.Slab.{Slab, Crypt}
use snapdb.Db
use snapdb.Db.{Db}
use snapdb.Db.Exec.{Exec}

-- b"SNAP"
abbrev pub magic : List ℕ
magic = 83 ∷ 78 ∷ 65 ∷ 80 ∷ []

abbrev pub header_size : ℕ
header_size = 20

-- The numbers of the header, after the magic: version, page size, flags and schema offset.
abbrev pub Header : Type 0
Header = ℕ × ℕ × ℕ × ℕ

-- struct.pack("<4sHHIQ", ...)
unfoldable pub pack_header : Header → Result (List ℕ)
pack_header (version, page_size, flags, schema_offset) =
    if ltb version (256 ^ 2)
      && ltb page_size (256 ^ 2)
      && ltb flags (256 ^ 4)
      && ltb schema_offset (256 ^ 8)
    then ok (
        magic
        ++ to_bytes 2 version
        ++ to_bytes 2 page_size
        ++ to_bytes 4 flags
        ++ to_bytes 8 schema_offset)
    else err struct_error

-- The fields of a header, read at their offsets
unfoldable pub header_of : List ℕ → Header
header_of buf = (
  from_bytes (slice 4 2 buf),
  from_bytes (slice 6 2 buf),
  from_bytes (slice 8 4 buf),
  from_bytes (slice 12 8 buf),
)

unfoldable pub unpack_header : List ℕ → Result Header
unfolding header_of
unpack_header buf =
    if not (length buf == header_size)
    then err struct_error
    else if not (slice 0 4 buf == magic)
    then err value_error
    else if not (from_bytes (slice 4 2 buf) == 1)
    then err value_error
    else ok (header_of buf)

-- The size of a bitmap with the page behind it
abbrev pub unit_of : Db → ℕ
unit_of db = db.rows_per_slab + db.page_size

-- The loop of `_persist_bitmaps`, from the bitmap at `off` on
unfoldable pub write_bitmaps : ℕ → ℕ → List Slab → List ℕ → List ℕ
write_bitmaps off unit [] mm = mm
write_bitmaps off unit (s ∷ slabs) mm = write_bitmaps (off + unit) unit slabs (write s.live off mm)

-- self._slabs[-1]._count
unfoldable pub last_count : List Slab → ℕ
last_count [] = 0
last_count (s ∷ []) = s.count
last_count (s ∷ t ∷ slabs) = last_count (t ∷ slabs)

-- The header is packed once the bitmaps are written.
unfoldable pub persist_bitmaps : Exec Db (Unit {0})
unfolding pack_header write_bitmaps last_count
persist_bitmaps db = elim db.slabs [
  | [] ↦ (ok tt, db)
  | s ∷ slabs ↦
      let written = record db { mm = write_bitmaps db.schema_offset (unit_of db) db.slabs db.mm } in
      elim (pack_header (1, db.page_size, last_count db.slabs, db.schema_offset)) [
        | err e ↦ (err e, written)
        | ok header ↦ (ok tt, record written { mm = write header 0 written.mm })
      ]
]

-- One slab of `_load`: its bitmap is read, and its zone map is not built.
unfoldable pub load_slab : Schema → ℕ → Option Crypt → List ℕ → ℕ → ℕ → Slab
load_slab schema rows_per_slab crypt mm bitmap_start count =
    record (Slab.init schema (bitmap_start + rows_per_slab) rows_per_slab crypt) {
      live = slice bitmap_start rows_per_slab mm;
      count = count;
      zone_built = false;
    }

-- The loop of `_load`: every slab is full but the last, which has `flags` rows at most.
unfoldable pub load_slabs : Schema → ℕ → Option Crypt → List ℕ → ℕ → ℕ → ℕ → ℕ → List Slab
unfolding load_slab
load_slabs schema rows_per_slab crypt mm unit flags start zero = []
load_slabs schema rows_per_slab crypt mm unit flags start (suc zero) =
    load_slab schema rows_per_slab crypt mm start
      (if leb flags rows_per_slab then flags else rows_per_slab)
    ∷ []
load_slabs schema rows_per_slab crypt mm unit flags start (suc (suc n)) =
    load_slab schema rows_per_slab crypt mm start rows_per_slab
    ∷ load_slabs schema rows_per_slab crypt mm unit flags (start + unit) (suc n)

-- bytearray.count(1)
unfoldable pub count_live : List ℕ → ℕ
count_live [] = 0
count_live (b ∷ bs) = let rest = count_live bs in if b == 1 then suc rest else rest

-- self._total_rows, after the loop
unfoldable pub total_live : List Slab → ℕ
unfolding count_live
total_live [] = 0
total_live (s ∷ slabs) = count_live s.live + total_live slabs

-- The slabs and the number of rows that `_load` reads from a file whose schema is known
unfoldable pub load : Schema → Option Crypt → List ℕ → Result (List Slab × ℕ)
unfolding unpack_header load_slabs total_live
load schema crypt mm =
    if ltb (length mm) header_size
    then err value_error
    else elim (unpack_header (slice 0 header_size mm)) [
      | err e ↦ err e
      | ok (version, page_size, flags, schema_offset) ↦
          let rows_per_slab = page_size / schema.row_width in
          let unit = rows_per_slab + page_size in
          let slabs =
            load_slabs schema rows_per_slab crypt mm unit flags schema_offset
              ((length mm - schema_offset) / unit) in
          ok (slabs, total_live slabs)
    ]
