-- ===== src/Db/Ranges/Pruned.antt =====
-- `range_find` without a range index: a slab that its zone map excludes holds no row in the range.
use snapdb.Prelude.{
  ℕ, suc, ◌*◌, ◌≡◌, ◌≢◌, refl, ◌∙◌, String, Bool, true, false, none, List, [], ◌∷◌, ◌++◌, arith,
  contains, if◌then◌else◌, Bool-cases, inl, inr,
}
use snapdb.Prelude.Eq.{string_eq}
use snapdb.Prelude.Dict
use snapdb.Result.{ok}
use snapdb.Value.{Value, null, value_eq, eq_value_iff}
use snapdb.Index.Range.Laws.{in_range, above_low, below_high}
use snapdb.Schema.{Row, get_or_none, has_column}
use snapdb.Slab
use snapdb.Slab.{Slab}
use snapdb.Slab.Pruning.{zone_overlaps_of_Covers}
use snapdb.Slab.Ensured.{CoversRows, iter_rows-ensure_zone_map, ensure_zone_map-CoversRows}
use snapdb.Db.{Db, number_from, iter_from, iter}
use snapdb.Db.Ranges.{meets, rows_meeting, ensure_all, scan_slabs, range_find}

-- The column is numeric, and a zone map that is built covers its values in the rows of its slab.
abbrev pub AreZoned : List ℕ → String → List Slab → Type 0
AreZoned mm column [] = Unit
AreZoned mm column (s ∷ slabs) =
    (contains column s.schema.zone_columns ≡ true)
    × (s.zone_built ≡ true → CoversRows s column (Slab.iter_rows s mm))
    × AreZoned mm column slabs

module _ (column : String) (low high : Value) (il ih : Bool) where
  meets-in_range :
      (v : Value) → meets low high il ih v ≡ true → (v ≢ null) × (in_range low high il ih v ≡ true)
  unfolding meets in_range above_low below_high
  meets-in_range v h = ground (arith, eq_value_iff v null)

  rows_meeting-pruned :
      (s : Slab) (rows : List (ℕ × Row))
      → CoversRows s column rows
      → Slab.zone_overlaps s column low high il ih ≡ false
      → rows_meeting (meets low high il ih) column rows ≡ []
  unfolding rows_meeting
  rows_meeting-pruned s [] c o = refl
  rows_meeting-pruned s ((i, row) ∷ rows) (c, cs) o = ground (
    arith,
    o,
    meets-in_range (get_or_none row column),
    λ (n : get_or_none row column ≢ null).
        zone_overlaps_of_Covers s column low high il ih (get_or_none row column) (c n),
    rows_meeting-pruned s rows cs o,
  )

  rows_meeting-append :
      (rows rest : List (ℕ × Row))
      → rows_meeting (meets low high il ih) column (rows ++ rest)
        ≡ rows_meeting (meets low high il ih) column rows
          ++ rows_meeting (meets low high il ih) column rest
  unfolding rows_meeting
  rows_meeting-append [] rest = refl
  rows_meeting-append ((i, row) ∷ rows) rest =
      elim (Bool-cases (meets low high il ih (get_or_none row column))) [
        | inl e ↦ rw (e, rows_meeting-append rows rest)
        | inr e ↦ rw (e, rows_meeting-append rows rest)
      ]

  rows_meeting-number_from :
      (base : ℕ) (rows : List (ℕ × Row))
      → rows_meeting (meets low high il ih) column (number_from base rows)
        ≡ rows_meeting (meets low high il ih) column rows
  unfolding rows_meeting number_from
  rows_meeting-number_from base [] = refl
  rows_meeting-number_from base ((i, row) ∷ rows) = rw (rows_meeting-number_from base rows)

  -- One slab of the scan, with its zone map built
  scan_slab :
      (s : Slab) (mm : List ℕ) (rest : List Row)
      → CoversRows s column (Slab.iter_rows s mm)
      → (if Slab.zone_overlaps s column low high il ih
          then rows_meeting (meets low high il ih) column (Slab.iter_rows s mm) ++ rest
          else rest)
        ≡ rows_meeting (meets low high il ih) column (Slab.iter_rows s mm) ++ rest
  scan_slab s mm rest c = elim (Bool-cases (Slab.zone_overlaps s column low high il ih)) [
    | inl o ↦ rw o
    | inr o ↦ rw (o, rows_meeting-pruned s _ c o)
  ]

  scan_slabs-iter_from :
      (db : Db) (k : ℕ) (slabs : List Slab)
      → AreZoned db.mm column slabs
      → scan_slabs db.mm column low high il ih (ensure_all db.mm slabs)
        ≡ rows_meeting (meets low high il ih) column (iter_from db k slabs)
  unfolding scan_slabs ensure_all iter_from rows_meeting
  scan_slabs-iter_from db k [] c = refl
  scan_slabs-iter_from db k (s ∷ slabs) (z, c, cs) =
      scan_slab (Slab.ensure_zone_map s db.mm) db.mm _
        (ensure_zone_map-CoversRows s db.mm column z c)
      ∙ rw (
        iter_rows-ensure_zone_map s db.mm,
        scan_slabs-iter_from db (suc k) slabs cs,
        rows_meeting-append (number_from (k * db.rows_per_slab) (Slab.iter_rows s db.mm))
            (iter_from db (suc k) slabs),
        rows_meeting-number_from (k * db.rows_per_slab) (Slab.iter_rows s db.mm),
      )

  -- On a numeric column of the schema without a range index, where the zone maps that are built
  -- cover the values of their rows, range_find, which builds the other zone maps and leaves out the
  -- slabs that they exclude, returns exactly the rows of the iteration whose value is in the range,
  -- in order.
  pub range_find-iter :
      (db : Db)
      → has_column db.schema column ≡ true
      → Dict.get db.range_indexes column ≡ none
      → AreZoned db.mm column db.slabs
      → (range_find column low high il ih db).0
        ≡ ok (rows_meeting (meets low high il ih) column (iter db))
  unfolding range_find iter
  range_find-iter db h n z = ground (arith, h, n, scan_slabs-iter_from db 0 db.slabs z)
