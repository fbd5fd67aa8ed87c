-- ===== src/Slab/Scan.antt =====
-- `Slab.iter_rows` yields exactly the live rows, whichever way the slab is stored.
use snapdb.Prelude.{
  ℕ, zero, suc, ◌+◌, ◌≡◌, ap, ◌∙◌, ◌≤◌, ◌-◌, refl, [], ◌∷◌, none, some, List, arith, Option-cases,
  inl, inr, length,
}
use snapdb.Prelude.Eq.{nat_eq}
use snapdb.Schema.Shape.{IsSchema}
use snapdb.Schema.Codec.Fields.{HasDistinctNames}
use snapdb.Schema.{Row}
use snapdb.Slab.{Slab, Crypt, get, is_live, rows_from, iter_rows}
use snapdb.Slab.Frame.{IsSlab}
use snapdb.Slab.Batch.{iter_rows-rows_from}

iter_rows_crypt :
    (s : Slab) (mm : List ℕ) (c : Crypt)
    → s.crypt ≡ some c
    → iter_rows s mm ≡ rows_from s mm 0 s.count
unfolding iter_rows
iter_rows_crypt s mm c e = ground arith

-- Under a well-formed schema with distinct column names, the batch decoding of a plain slab yields
-- what decoding row by row yields.
pub iter_rows_lem :
    (s : Slab) (mm : List ℕ)
    → IsSchema s.schema
    → HasDistinctNames s.schema.columns
    → iter_rows s mm ≡ rows_from s mm 0 s.count
iter_rows_lem s mm h d = elim (Option-cases s.crypt) [
  | inl plain ↦ iter_rows-rows_from s mm h d plain
  | inr (c, e) ↦ iter_rows_crypt s mm c e
]

-- What `get` finds in the n slots from i on, in slot order
unfoldable pub found_from : Slab → List ℕ → ℕ → ℕ → List (ℕ × Row)
found_from s mm i zero = []
found_from s mm i (suc n) =
    let rest = found_from s mm (suc i) n in
    elim (get s mm i) [ none ↦ rest | some row ↦ (i, row) ∷ rest ]

found_from-fresh :
    (s : Slab) (mm : List ℕ) (i n : ℕ)
    → IsSlab s (length mm)
    → s.count ≤ i
    → found_from s mm i n ≡ []
unfolding found_from get is_live
found_from-fresh s mm i zero h c = refl
found_from-fresh s mm i (suc n) h c =
    ground (arith, h.fresh i c, found_from-fresh s mm (suc i) n h (omega arith))

suc_add : (n k : ℕ) → suc n + k ≡ suc (n + k)
suc_add n k = omega arith

rows_from-found_from :
    (s : Slab) (mm : List ℕ) (i n k : ℕ)
    → IsSlab s (length mm)
    → s.count ≡ i + n
    → rows_from s mm i n ≡ found_from s mm i (n + k)
unfolding rows_from found_from get is_live
rows_from-found_from s mm i zero k h c = ground (arith, found_from-fresh s mm i k h (omega arith))
rows_from-found_from s mm i (suc n) k h c =
    rw (suc_add n k)
      (ground (arith, h.counted, rows_from-found_from s mm (suc i) n k h (omega arith)))

-- On a well-formed slab whose columns have distinct names, iter_rows yields exactly what get finds
-- in the slots of the slab: every live row with its slot once, in slot order, and nothing else.
pub get-iter_rows :
    (s : Slab) (mm : List ℕ)
    → IsSlab s (length mm)
    → HasDistinctNames s.schema.columns
    → iter_rows s mm ≡ found_from s mm 0 s.capacity
get-iter_rows s mm h d =
    iter_rows_lem s mm h.schema d
    ∙ rows_from-found_from s mm 0 s.count (s.capacity - s.count) h (omega arith)
    ∙ ap (found_from s mm 0)
        (let e : s.count + (s.capacity - s.count) ≡ s.capacity = omega (arith, h.counted) in e)
