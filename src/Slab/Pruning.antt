-- ===== src/Slab/Pruning.antt =====
-- The zone map as the slab keeps it, and what `zone_overlaps` may conclude from it.
use snapdb.Prelude.{
  ℕ, ◌≡◌, ◌≢◌, refl, sym, ap, ◌∙◌, subst, inl, inr, Bool, true, some, List, [], arith, contains,
  String, Bool-cases, length, ℕ_discrete,
}
use snapdb.Prelude.Eq.{nat_eq, string_eq}
use snapdb.Result.{ok}
use snapdb.Value.{Value, null, value_eq}
use snapdb.Index.Range.Order.{lt_of_le_of_lt, lt_of_lt_of_le}
use snapdb.Index.Range.Laws.{in_range, above_low, below_high}
use snapdb.Schema.{Row, get_or_none, zone_columns_of, Schema}
use snapdb.Schema.Codec.{encode_row}
use snapdb.Schema.Codec.Roundtrip.{stored_from}
use snapdb.Schema.Codec.Fields.{HasDistinctNames, stored_from-zone_column}
use snapdb.Slab.{
  Slab, get, widen_min, widen_max, zone_widen, maintain_zone, zone_meets, zone_overlaps, is_live,
}
use snapdb.Slab.Frame.{IsSlab}
use snapdb.Slab.Rows.{Changes, after_write, update_lem}
use snapdb.Slab.Zones.{
  IsLow, IsHigh, widen_with-keep, widen_with-new, widen_min-new, widen_min-keep, widen_max-new,
  widen_max-keep,
}

-- The slab's zone map has both ends for the column, and the value lies between them.
abbrev pub Covers : Slab → String → Value → Type 0
Covers s name v = IsLow s.zone_min name v × IsHigh s.zone_max name v

-- Where the zone map covers a value that lies in the range, zone_overlaps does not exclude the
-- slab.
pub zone_overlaps_of_Covers :
    (s : Slab) (name : String) (low high : Value) (il ih : Bool) (v : Value)
    → Covers s name v
    → in_range low high il ih v ≡ true
    → zone_overlaps s name low high il ih ≡ true
unfolding zone_overlaps zone_meets in_range above_low below_high
zone_overlaps_of_Covers s name low high il ih v (l, h) r = ground (
  arith,
  l.0,
  l.1,
  h.0,
  h.1,
  lt_of_lt_of_le high (get_or_none s.zone_min name) v,
  lt_of_le_of_lt (get_or_none s.zone_min name) v high,
  lt_of_le_of_lt v (get_or_none s.zone_max name) low,
  lt_of_lt_of_le low v (get_or_none s.zone_max name),
)

maintain_zone-keep :
    (s : Slab) (row : Row) (name : String) (v : Value)
    → Covers s name v
    → Covers (maintain_zone s row) name v
unfolding maintain_zone zone_widen
maintain_zone-keep s row name v (l, h) = elim (Bool-cases s.zone_built) [
  | inl e ↦ rw e (
    widen_with-keep widen_min IsLow widen_min-new widen_min-keep row s.schema.zone_columns
        s.zone_min name v l,
    widen_with-keep widen_max IsHigh widen_max-new widen_max-keep row s.schema.zone_columns
        s.zone_max name v h,
  )
  | inr e ↦ rw e (l, h)
]

maintain_zone-new :
    (s : Slab) (row : Row) (name : String)
    → s.zone_built ≡ true
    → contains name s.schema.zone_columns ≡ true
    → get_or_none row name ≢ null
    → Covers (maintain_zone s row) name (get_or_none row name)
unfolding maintain_zone zone_widen
maintain_zone-new s row name b c n = rw b (
  widen_with-new widen_min IsLow widen_min-new widen_min-keep row s.schema.zone_columns s.zone_min
      name c n,
  widen_with-new widen_max IsHigh widen_max-new widen_max-keep row s.schema.zone_columns s.zone_max
      name c n,
)

-- Where the map is built, it covers every value other than None that a live row has in a numeric
-- column.
abbrev pub IsZoned : Slab → List ℕ → Type 0
IsZoned s mm =
    (i : ℕ) (row : Row) (name : String)
    → get s mm i ≡ some row
    → contains name s.schema.zone_columns ≡ true
    → get_or_none row name ≢ null
    → Covers s name (get_or_none row name)

-- The schema's own list of numeric columns is the one that its columns give, names are distinct.
pub record HasZoneColumns (s : Schema) : Type 0 where
  pub zones : s.zone_columns ≡ zone_columns_of s.columns
  pub names : HasDistinctNames s.columns

same_row : {r q : Row} → some r ≡ some q → r ≡ q
same_row h = cc

-- A slab where one slot changed to the stored form of a row that was widened in stays zoned.
IsZoned-after :
    (s s' : Slab) (mm mm' : List ℕ) (i : ℕ) (row : Row)
    → HasZoneColumns s.schema
    → s'.schema ≡ s.schema
    → ((name : String) (v : Value) → Covers s name v → Covers s' name v)
    → ((name : String)
        → contains name s.schema.zone_columns ≡ true
        → get_or_none row name ≢ null
        → Covers s' name (get_or_none row name))
    → Changes s mm s' mm' i (some (stored_from s.schema.columns row []))
    → IsZoned s mm
    → IsZoned s' mm'
IsZoned-after s s' mm mm' i row hz es keep new (now, others) z j r name g c n =
    let c' = subst (λ sc. contains name sc.zone_columns ≡ true) es c in
    elim (ℕ_discrete j i) [
      | yes e ↦
          let here : r ≡ stored_from s.schema.columns row [] =
            same_row (sym g ∙ ap (get s' mm') e ∙ now) in
          let value : get_or_none r name ≡ get_or_none row name =
            ap (λ r. get_or_none r name) here
            ∙ stored_from-zone_column s.schema.columns row [] name hz.names
                (subst (λ l. contains name l ≡ true) hz.zones c') in
          subst (Covers s' name) (sym value) (new name c' (λ q. n (value ∙ q)))
      | no ne ↦ keep name (get_or_none r name) (z j r name (sym (others j ne) ∙ g) c' n)
    ]

module _ (s : Slab) (mm : List ℕ) (h : IsSlab s (length mm)) (hz : HasZoneColumns s.schema)
    (row : Row) where
  -- Updating a live slot with a row that encodes, in a well-formed slab whose zone map is built and
  -- covers the values of its live rows, leaves a zone map that covers the values of the live rows.
  pub update-IsZoned :
      {raw : List ℕ} (i : ℕ)
      → s.zone_built ≡ true
      → is_live s i ≡ true
      → encode_row s.schema row ≡ ok raw
      → IsZoned s mm
      → IsZoned (maintain_zone s row) (after_write s mm i raw)
  update-IsZoned {raw} i built live e z =
      IsZoned-after s (maintain_zone s row) mm (after_write s mm i raw) i row hz
        (unfold maintain_zone in refl) (maintain_zone-keep s row)
        (λ name c n. maintain_zone-new s row name built c n) (update_lem s mm h row i live e).1 z
