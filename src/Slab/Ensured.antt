-- ===== src/Slab/Ensured.antt =====
-- The zone map that `ensure_zone_map` builds covers the rows of the slab.
use snapdb.Prelude.{
  ℕ, ◌≡◌, ◌≢◌, refl, sym, ap, ◌∙◌, subst, String, true, false, List, [], ◌∷◌, contains,
  if◌then◌else◌, Bool-cases, inl, inr,
}
use snapdb.Prelude.Eq.{string_eq}
use snapdb.Value.{Value, null}
use snapdb.Schema.{Row, get_or_none}
use snapdb.Slab.{Slab, widen_min, widen_max, zone_widen, widen_all, ensure_zone_map, iter_rows}
use snapdb.Slab.Pruning.{Covers}
use snapdb.Slab.Zones.{
  IsLow, IsHigh, widen_with-keep, widen_with-new, widen_min-new, widen_min-keep, widen_max-new,
  widen_max-keep,
}

zone_widen-keep :
    (s : Slab) (row : Row) (name : String) (v : Value)
    → Covers s name v
    → Covers (zone_widen s row) name v
unfolding zone_widen
zone_widen-keep s row name v (l, h) = (
  widen_with-keep widen_min IsLow widen_min-new widen_min-keep row s.schema.zone_columns s.zone_min
      name v l,
  widen_with-keep widen_max IsHigh widen_max-new widen_max-keep row s.schema.zone_columns s.zone_max
      name v h,
)

zone_widen-new :
    (s : Slab) (row : Row) (name : String)
    → contains name s.schema.zone_columns ≡ true
    → get_or_none row name ≢ null
    → Covers (zone_widen s row) name (get_or_none row name)
unfolding zone_widen
zone_widen-new s row name c n = (
  widen_with-new widen_min IsLow widen_min-new widen_min-keep row s.schema.zone_columns s.zone_min
      name c n,
  widen_with-new widen_max IsHigh widen_max-new widen_max-keep row s.schema.zone_columns s.zone_max
      name c n,
)

widen_all-keep :
    (rows : List (ℕ × Row)) (s : Slab) (name : String) (v : Value)
    → Covers s name v
    → Covers (widen_all s rows) name v
unfolding widen_all
widen_all-keep [] s name v h = h
widen_all-keep ((i, row) ∷ rows) s name v h =
    widen_all-keep rows (zone_widen s row) name v (zone_widen-keep s row name v h)

-- The zone map covers the column's values in the rows.
abbrev pub CoversRows : Slab → String → List (ℕ × Row) → Type 0
CoversRows s name [] = Unit
CoversRows s name ((i, row) ∷ rows) =
    (get_or_none row name ≢ null → Covers s name (get_or_none row name)) × CoversRows s name rows

widen_all-CoversRows :
    (rows : List (ℕ × Row)) (s : Slab) (name : String)
    → contains name s.schema.zone_columns ≡ true
    → CoversRows (widen_all s rows) name rows
unfolding widen_all zone_widen
widen_all-CoversRows [] s name c = tt
widen_all-CoversRows ((i, row) ∷ rows) s name c = (
  (λ n.
      widen_all-keep rows (zone_widen s row) name (get_or_none row name)
        (zone_widen-new s row name c n)),
  widen_all-CoversRows rows (zone_widen s row) name c,
)

iter_rows-widen_all :
    (rows : List (ℕ × Row)) (s : Slab) (mm : List ℕ)
    → iter_rows (widen_all s rows) mm ≡ iter_rows s mm
unfolding widen_all iter_rows zone_widen
iter_rows-widen_all [] s mm = refl
iter_rows-widen_all ((i, row) ∷ rows) s mm = iter_rows-widen_all rows (zone_widen s row) mm

-- The slab whose map was not built, after `ensure_zone_map`
abbrev built : Slab → List ℕ → Slab
built s mm = record (widen_all s (iter_rows s mm)) { zone_built = true }

ensured_old : (s : Slab) (mm : List ℕ) → s.zone_built ≡ true → ensure_zone_map s mm ≡ s
unfolding ensure_zone_map
ensured_old s mm b = ap (λ t. if t then s else built s mm) b

ensured_new : (s : Slab) (mm : List ℕ) → s.zone_built ≡ false → ensure_zone_map s mm ≡ built s mm
unfolding ensure_zone_map
ensured_new s mm b = ap (λ t. if t then s else built s mm) b

iter_rows-built : (s : Slab) (mm : List ℕ) → iter_rows (built s mm) mm ≡ iter_rows s mm
unfolding iter_rows
iter_rows-built s mm = iter_rows-widen_all (iter_rows s mm) s mm

-- `ensure_zone_map` changes no row.
pub iter_rows-ensure_zone_map :
    (s : Slab) (mm : List ℕ) → iter_rows (ensure_zone_map s mm) mm ≡ iter_rows s mm
iter_rows-ensure_zone_map s mm = elim (Bool-cases s.zone_built) [
  | inl b ↦ ap (λ t. iter_rows t mm) (ensured_old s mm b)
  | inr b ↦ ap (λ t. iter_rows t mm) (ensured_new s mm b) ∙ iter_rows-built s mm
]

built-CoversRows :
    (s : Slab) (mm : List ℕ) (name : String)
    → contains name s.schema.zone_columns ≡ true
    → CoversRows (built s mm) name (iter_rows s mm)
built-CoversRows s mm name c =
    same (iter_rows s mm) (widen_all-CoversRows (iter_rows s mm) s name c)
  where
    same :
        (rows : List (ℕ × Row))
        → CoversRows (widen_all s (iter_rows s mm)) name rows
        → CoversRows (built s mm) name rows
    same [] h = tt
    same ((i, row) ∷ rows) (h, hs) = (h, same rows hs)

-- After `ensure_zone_map` the zone map covers the values of a numeric column in all rows of the slab,
-- where a map that was built before covered them.
pub ensure_zone_map-CoversRows :
    (s : Slab) (mm : List ℕ) (name : String)
    → contains name s.schema.zone_columns ≡ true
    → (s.zone_built ≡ true → CoversRows s name (iter_rows s mm))
    → CoversRows (ensure_zone_map s mm) name (iter_rows (ensure_zone_map s mm) mm)
ensure_zone_map-CoversRows s mm name c old =
    subst (CoversRows (ensure_zone_map s mm) name) (sym (iter_rows-ensure_zone_map s mm))
      (elim (Bool-cases s.zone_built) [
        | inl b ↦ subst (λ t. CoversRows t name (iter_rows s mm)) (sym (ensured_old s mm b)) (old b)
        | inr b ↦
            subst (λ t. CoversRows t name (iter_rows s mm)) (sym (ensured_new s mm b))
              (built-CoversRows s mm name c)
      ])
