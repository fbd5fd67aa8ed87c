-- ===== src/Slab.antt =====
-- `Slab` of snapdb/core.py: rows of fixed width in one page of the mapped file, a liveness bitmap,
-- and a zone map for range queries. The mapped file, which the slabs of a database share, is a list
-- of bytes `mm` that a writing method takes and returns. A method that raises returns the state that
-- it leaves behind beside the exception.
pub mod Frame
pub mod Rows
pub mod Batch
pub mod Scan
pub mod Zones
pub mod Pruning
pub mod Ensured
use snapdb.Prelude.{
  ℕ, zero, suc, ◌+◌, ◌-◌, ◌*◌, String, Bool, true, false, ◌&&◌, ◌||◌, not, Option, none, some, List,
  [], ◌∷◌, ltb, leb, length, get_or, set, take, drop, if◌then◌else◌,
}
use snapdb.Prelude.Eq.{◌==◌, nat_eq, string_eq}
use snapdb.Prelude.Dict
use snapdb.Prelude.Dict.{Dict}
use snapdb.Result.{Result, ok, err, runtime_error, key_error}
use snapdb.Bytes.{slice, write}
use snapdb.Value.{Value, null, lt_value, value_eq}
use snapdb.Schema.{Schema, Columns, Row, get_or_none, is_bytes}
use snapdb.Schema.Codec.{encode_row, decode_row, unpack, decode_value}

-- `crypt(raw, absolute_offset)`, which decrypts what it encrypted
abbrev pub Crypt : Type 0
Crypt = List ℕ → ℕ → List ℕ

pub record Slab : Type 0 where
  pub schema : Schema
  pub offset : ℕ
  pub capacity : ℕ
  pub count : ℕ
  pub live : List ℕ
  pub crypt : Option Crypt
  pub zone_min : Dict String Value
  pub zone_max : Dict String Value
  pub zone_built : Bool

unfoldable pub zeros : ℕ → List ℕ
zeros zero = []
zeros (suc n) = 0 ∷ zeros n

unfoldable pub init : Schema → ℕ → ℕ → Option Crypt → Slab
unfolding zeros
init schema offset capacity crypt = record {
  schema = schema;
  offset = offset;
  capacity = capacity;
  count = 0;
  live = zeros capacity;
  crypt = crypt;
  zone_min = [];
  zone_max = [];
  zone_built = true;
}

unfoldable pub is_full : Slab → Bool
is_full s = leb s.capacity s.count

unfoldable pub row_offset : Slab → ℕ → ℕ
row_offset s idx = s.offset + idx * s.schema.row_width

-- `raw if crypt is None else crypt(raw, start)`
unfoldable pub apply_crypt : Option Crypt → List ℕ → ℕ → List ℕ
apply_crypt none raw start = raw
apply_crypt (some crypt) raw start = crypt raw start

-- `idx < capacity and live[idx]`
unfoldable pub is_live : Slab → ℕ → Bool
is_live s idx = ltb idx s.capacity && not (get_or s.live idx 0 == 0)

-- The row that the bytes of a slot decode to.
unfoldable pub row_at : Slab → List ℕ → ℕ → Row
unfolding row_offset apply_crypt
row_at s mm idx =
    decode_row s.schema
      (apply_crypt s.crypt (slice (row_offset s idx) s.schema.row_width mm) (row_offset s idx))

unfoldable pub get : Slab → List ℕ → ℕ → Option Row
unfolding is_live row_at
get s mm idx = if is_live s idx then some (row_at s mm idx) else none

unfoldable pub get_raw : Slab → List ℕ → ℕ → Option (List ℕ)
unfolding is_live row_offset
get_raw s mm idx =
    if is_live s idx then some (slice (row_offset s idx) s.schema.row_width mm) else none

-- `if cur is None or v < cur: zone[name] = v`, and the same with `>`
unfoldable pub widen_min : Dict String Value → String → Value → Dict String Value
widen_min zmin name v = elim (Dict.get zmin name) [
  | none ↦ Dict.put zmin name v
  | some cur ↦ if cur == null || lt_value v cur then Dict.put zmin name v else zmin
]

unfoldable pub widen_max : Dict String Value → String → Value → Dict String Value
widen_max zmax name v = elim (Dict.get zmax name) [
  | none ↦ Dict.put zmax name v
  | some cur ↦ if cur == null || lt_value cur v then Dict.put zmax name v else zmax
]

-- The loop of `_zone_widen` for one of the two maps; None values are skipped.
unfoldable pub widen_with :
    (Dict String Value → String → Value → Dict String Value)
    → List String
    → Row
    → Dict String Value
    → Dict String Value
widen_with widen [] row zone = zone
widen_with widen (name ∷ names) row zone =
    let v = get_or_none row name in
    widen_with widen names row (if v == null then zone else widen zone name v)

unfoldable pub zone_widen : Slab → Row → Slab
unfolding widen_with widen_min widen_max
zone_widen s row = record s {
  zone_min = widen_with widen_min s.schema.zone_columns row s.zone_min;
  zone_max = widen_with widen_max s.schema.zone_columns row s.zone_max;
}

-- A map that is not built yet is left alone.
unfoldable pub maintain_zone : Slab → Row → Slab
unfolding zone_widen
maintain_zone s row = record s {
  zone_min = if s.zone_built then (zone_widen s row).zone_min else s.zone_min;
  zone_max = if s.zone_built then (zone_widen s row).zone_max else s.zone_max;
}

-- The slot is taken and marked live before the row is encoded: an encoding error leaves it so.
unfoldable pub insert : Slab → List ℕ → Row → Result ℕ × Slab × List ℕ
unfolding is_full row_offset apply_crypt maintain_zone
insert s mm row =
    if is_full s
    then (err runtime_error, s, mm)
    else let taken = record s { count = s.count + 1; live = set s.live s.count 1 } in
      let start = row_offset s s.count in
      elim (encode_row s.schema row) [
        | err e ↦ (err e, taken, mm)
        | ok raw ↦
            (ok s.count, maintain_zone taken row, write mm start (apply_crypt s.crypt raw start))
      ]

unfoldable pub update : Slab → List ℕ → ℕ → Row → Result (Unit {0}) × Slab × List ℕ
unfolding is_live row_offset apply_crypt maintain_zone
update s mm idx row =
    if is_live s idx
    then elim (encode_row s.schema row) [
      | err e ↦ (err e, s, mm)
      | ok raw ↦ (
        ok tt,
        maintain_zone s row,
        write mm (row_offset s idx) (apply_crypt s.crypt raw (row_offset s idx)),
      )
    ]
    else (err key_error, s, mm)

unfoldable pub delete : Slab → ℕ → Slab
delete s idx = if ltb idx s.capacity then record s { live = set s.live idx 0 } else s

-- The loop of `iter_rows` on an encrypted slab: `n` rounds from slot `i`, a row at a time.
unfoldable pub rows_from : Slab → List ℕ → ℕ → ℕ → List (ℕ × Row)
unfolding row_at
rows_from s mm i zero = []
rows_from s mm i (suc n) =
    let rest = rows_from s mm (suc i) n in
    if get_or s.live i 0 == 0 then rest else (i, row_at s mm i) ∷ rest

-- dict(zip(names, unpacked)) of `Schema.iter_unpack_rows`
unfoldable pub zip_row : Columns → List Value → Row → Row
zip_row [] vs row = row
zip_row (c ∷ cs) [] row = row
zip_row (c ∷ cs) (v ∷ vs) row = zip_row cs vs (Dict.put row c.name v)

-- Its loop over the positions of the bytes columns.
unfoldable pub strip_columns : Columns → Row → Row
strip_columns [] row = row
strip_columns (c ∷ cs) row = strip_columns cs (
    if is_bytes c.dtype
    then Dict.put row c.name (decode_value c.dtype (get_or_none row c.name))
    else row)

-- `struct.iter_unpack` over a buffer of `n` rows
unfoldable pub iter_unpack_rows : Schema → ℕ → List ℕ → List Row
unfolding zip_row strip_columns
iter_unpack_rows s zero buf = []
iter_unpack_rows s (suc n) buf =
    strip_columns s.columns (zip_row s.columns (unpack s.struct_fmt (take s.struct_size buf)) [])
    ∷ iter_unpack_rows s n (drop s.struct_size buf)

-- `for i, row in enumerate(rows): if live[i]: yield i, row`
unfoldable pub live_only : List ℕ → ℕ → List Row → List (ℕ × Row)
live_only live i [] = []
live_only live i (row ∷ rows) =
    let rest = live_only live (suc i) rows in if get_or live i 0 == 0 then rest else (i, row) ∷ rest

-- One batch where the slab is plain, row by row where it is encrypted.
unfoldable pub iter_rows : Slab → List ℕ → List (ℕ × Row)
unfolding rows_from iter_unpack_rows live_only
iter_rows s mm = elim s.crypt [
  | none ↦
      live_only s.live 0
        (iter_unpack_rows s.schema s.count (slice s.offset (s.count * s.schema.row_width) mm))
  | some crypt ↦ rows_from s mm 0 s.count
]

unfoldable pub widen_all : Slab → List (ℕ × Row) → Slab
unfolding zone_widen
widen_all s [] = s
widen_all s ((i, row) ∷ rows) = widen_all (zone_widen s row) rows

unfoldable pub ensure_zone_map : Slab → List ℕ → Slab
unfolding iter_rows widen_all
ensure_zone_map s mm =
    if s.zone_built then s else record (widen_all s (iter_rows s mm)) { zone_built = true }

-- The bound tests of `zone_overlaps`, for a zone with both ends.
unfoldable pub zone_meets : Value → Value → Value → Value → Bool → Bool → Bool
zone_meets zmin zmax low high include_low include_high =
    not (
      not (high == null) && (if include_high then lt_value high zmin else not (lt_value zmin high)))
    && not
        (not (low == null) && (if include_low then lt_value zmax low else not (lt_value low zmax)))

unfoldable pub zone_overlaps : Slab → String → Value → Value → Bool → Bool → Bool
unfolding zone_meets
zone_overlaps s column low high include_low include_high =
    let zmin = get_or_none s.zone_min column in
    let zmax = get_or_none s.zone_max column in
    if zmin == null || zmax == null
    then true
    else zone_meets zmin zmax low high include_low include_high
