-- ===== src/Index/Range/Laws.antt =====
-- `range_lookup` against a filter, and what the updates do to the entries.
use native.Mathlib.Nat.{suc-sub-suc, sub-zero, zero-sub}
use snapdb.Prelude.{
  ℕ, suc, ◌+◌, ◌-◌, ◌≡◌, refl, sym, ap, subst, ◌∙◌, inl, inr, Bool, true, false, ◌&&◌, not, List,
  [], ◌∷◌, arith, take, drop, map, Bool-cases, if◌then◌else◌,
}
use snapdb.Prelude.Eq.{◌==◌, nat_eq}
use snapdb.Value.{Value, null, eq_value_iff, lt_value, value_eq}
use snapdb.Schema.{Row, get_or_none}
use snapdb.Index.Range.{
  Entry, RangeIndex, at, lt_edge, edge_lt, bisect_left, bisect_right, insort, insert, pop_equal,
  delete, start_of, end_of, row_of, range_lookup,
}
use snapdb.Index.Range.Order.{
  lt_entry, IsBelow, IsSorted, lt_of_le_of_lt, lt_of_lt_of_le, insort-cons, insort-nil,
  pop_equal-suc, lt_entry_irrefl, lt_entry_total,
}

-- The test that a scan makes on a value: the bounds that are not None hold.
unfoldable pub above_low : Value → Bool → Value → Bool
above_low low include_low v =
    if low == null then true else if include_low then not (lt_value v low) else lt_value low v

unfoldable pub below_high : Value → Bool → Value → Bool
below_high high include_high v =
    if high == null then true else if include_high then not (lt_value high v) else lt_value v high

unfoldable pub in_range : Value → Value → Bool → Bool → Value → Bool
unfolding above_low below_high
in_range low high include_low include_high v =
    above_low low include_low v && below_high high include_high v

-- [row_idx for value, row_idx in items if in range]
unfoldable pub rows_in : (Value → Bool) → List Entry → List ℕ
rows_in p [] = []
rows_in p (e ∷ items) = let rest = rows_in p items in if p e.0 then e.1 ∷ rest else rest

-- The number of leading entries whose value passes the test.
leading : (Value → Bool) → List Entry → ℕ
leading p [] = 0
leading p (e ∷ items) = if p e.0 then suc (leading p items) else 0

-- No entry passes; once an entry fails, no later one passes.
abbrev NonePass : (Value → Bool) → List Entry → Type 0
NonePass p [] = Unit
NonePass p (e ∷ items) = (p e.0 ≡ false) × NonePass p items

abbrev Falls : (Value → Bool) → List Entry → Type 0
Falls p [] = Unit
Falls p (e ∷ items) = (p e.0 ≡ false → NonePass p items) × Falls p items

leading_none : (p : Value → Bool) (items : List Entry) → NonePass p items → leading p items ≡ 0
unfolding leading
leading_none p [] h = refl
leading_none p (e ∷ items) h = ground arith

rows_in_none :
    (p q : Value → Bool) (items : List Entry)
    → NonePass q items
    → rows_in (λ v. p v && q v) items ≡ []
unfolding rows_in
rows_in_none p q [] h = refl
rows_in_none p q (e ∷ items) h = ground (arith, rows_in_none p q items h.1)

slice_past :
    (n : ℕ) (items : List Entry) {m : ℕ} {rows : List ℕ}
    → m ≡ 0
    → map row_of (take (n - m) (drop m items)) ≡ rows
    → map row_of (take n items) ≡ rows
slice_past n items {rows = rows} e h =
    rw sub-zero at (subst (λ m. map row_of (take (n - m) (drop m items)) ≡ rows) e h)

-- A slice between two fronts is a filter.
slice_rows :
    (p q : Value → Bool) (items : List Entry)
    → Falls p items
    → Falls q items
    → map row_of (take (leading q items - leading p items) (drop (leading p items) items))
      ≡ rows_in (λ v. not (p v) && q v) items
unfolding leading rows_in
slice_rows p q [] hp hq = refl
slice_rows p q (e ∷ items) hp hq = elim (Bool-cases (p e.0)) [
  | inl low ↦ elim (Bool-cases (q e.0)) [
    | inl high ↦ rw (low, high) (rw suc-sub-suc (slice_rows p q items hp.1 hq.1))
    | inr past ↦
        rw (low, past) (rw zero-sub (sym (rows_in_none (λ v. not (p v)) q items (hq.0 past))))
  ]
  | inr past ↦ elim (Bool-cases (q e.0)) [
    | inl high ↦
        rw (past, high)
          (rw sub-zero (
            ap (◌∷◌ e.1) (
              slice_past (leading q items) items (leading_none p items (hp.0 past))
                (slice_rows p q items hp.1 hq.1))))
    | inr out ↦ rw (past, out) (sym (rows_in_none (λ v. not (p v)) q items (hq.0 out)))
  ]
]

rows_in_congr :
    (p q : Value → Bool) (items : List Entry)
    → ((v : Value) → p v ≡ q v)
    → rows_in p items ≡ rows_in q items
unfolding rows_in
rows_in_congr p q [] h = refl
rows_in_congr p q (e ∷ items) h = ground (arith, h e.0, rows_in_congr p q items h)

-- On sorted entries the two bounds fall: past the first value that fails, all fail.
sorted_none :
    (p : Value → Bool) (e : Entry) (items : List Entry)
    → ((v : Value) → lt_value v e.0 ≡ false → p v ≡ false)
    → IsBelow e items
    → NonePass p items
sorted_none p e [] h b = tt
sorted_none p e (f ∷ items) h b = (h f.0 (ground (arith, b.0)), sorted_none p e items h b.1)

sorted-Falls :
    (p : Value → Bool) (items : List Entry)
    → ((v w : Value) → p v ≡ false → lt_value w v ≡ false → p w ≡ false)
    → IsSorted items
    → Falls p items
sorted-Falls p [] h s = tt
sorted-Falls p (e ∷ items) h s =
    (λ past. sorted_none p e items (λ w b. h e.0 w past b) s.0, sorted-Falls p items h s.1)

below_low_falls :
    (low : Value) (il : Bool) (v w : Value)
    → not (above_low low il v) ≡ false
    → lt_value w v ≡ false
    → not (above_low low il w) ≡ false
unfolding above_low
below_low_falls low il v w h b = ground (arith, lt_of_le_of_lt v w low, lt_of_lt_of_le low v w)

below_high_falls :
    (high : Value) (ih : Bool) (v w : Value)
    → below_high high ih v ≡ false
    → lt_value w v ≡ false
    → below_high high ih w ≡ false
unfolding below_high
below_high_falls high ih v w h b = ground (arith, lt_of_le_of_lt v w high, lt_of_lt_of_le high v w)

start_of-leading :
    (items : List Entry) (low : Value) (il : Bool)
    → start_of items low il ≡ leading (λ v. not (above_low low il v)) items
unfolding start_of bisect_left bisect_right lt_edge edge_lt above_low leading
start_of-leading [] low il = ground arith
start_of-leading (e ∷ items) low il = ground (arith, start_of-leading items low il)

end_of-leading :
    (items : List Entry) (high : Value) (ih : Bool)
    → end_of items high ih ≡ leading (below_high high ih) items
unfolding end_of bisect_left bisect_right lt_edge edge_lt below_high leading
end_of-leading [] high ih = ground arith
end_of-leading (e ∷ items) high ih = ground (arith, end_of-leading items high ih)

double_not : (a b : Bool) → (not (not a) && b) ≡ (a && b)
double_not a b = ground arith

-- On sorted entries range_lookup, which bisects for both ends, returns the rows whose value passes
-- the bounds, in the order of the entries, and no other.
pub range_lookup-rows_in :
    (r : RangeIndex) (low high : Value) (il ih : Bool)
    → IsSorted r.items
    → range_lookup r low high il ih ≡ rows_in (in_range low high il ih) r.items
unfolding range_lookup in_range
range_lookup-rows_in r low high il ih s =
    rw (start_of-leading r.items low il, end_of-leading r.items high ih)
      (slice_rows (λ v. not (above_low low il v)) (below_high high ih) r.items
          (sorted-Falls _ r.items (below_low_falls low il) s)
          (sorted-Falls _ r.items (below_high_falls high ih) s)
        ∙ rows_in_congr _ _ r.items (λ v. double_not (above_low low il v) (below_high high ih v)))

-- How often the entry (value, row) stands in the list.
unfoldable pub count : Value → ℕ → List Entry → ℕ
count v i [] = 0
count v i (e ∷ items) =
    let rest = count v i items in if e.0 == v && e.1 == i then suc rest else rest

count-insort :
    (items : List Entry) (v w : Value) (i j : ℕ)
    → count w j (insort items v i) ≡ count w j ((v, i) ∷ items)
unfolding count
count-insort [] v w i j = rw insort-nil
count-insort (e ∷ items) v w i j = rw insort-cons (ground (arith, count-insort items v w i j))

-- Insert adds one entry for the value and number of the row to a range index, and none for None.
pub count-insert :
    (r : RangeIndex) (i : ℕ) (row : Row) (w : Value) (j : ℕ)
    → count w j (insert r i row).items
      ≡ count w j r.items
        + (if not (get_or_none row r.column == null) && (get_or_none row r.column == w && i == j)
            then 1
            else 0)
unfolding insert count
count-insert r i row w j = ground (arith, count-insort r.items (get_or_none row r.column) w i j)

count_above :
    (items : List Entry) (e : Entry) (v : Value) (i : ℕ)
    → lt_entry (v, i) e ≡ true
    → IsBelow e items
    → count v i items ≡ 0
unfolding count
count_above [] e v i h b = refl
count_above (f ∷ items) e v i h b =
    ground (arith, b.0, eq_value_iff f.0 v, count_above items e v i h b.1)

count-pop_equal :
    (items : List Entry) (v w : Value) (i j : ℕ)
    → IsSorted items
    → count w j (pop_equal items (bisect_left items (at v i)) v i)
      ≡ count w j items - (if v == w && i == j then 1 else 0)
unfolding count bisect_left lt_edge
count-pop_equal [] v w i j s = unfold pop_equal in ground arith
count-pop_equal (e ∷ items) v w i j s = elim (Bool-cases (lt_entry e (v, i))) [
  | inl lower ↦
      rw (lower, pop_equal-suc)
        (ground (
          arith,
          count-pop_equal items v w i j s.1,
          eq_value_iff e.0 w,
          eq_value_iff v w,
          lt_entry_irrefl (v, i),
        ))
  | inr here ↦ rw here (
      unfold pop_equal in
      ground (
        arith,
        eq_value_iff e.0 w,
        eq_value_iff e.0 v,
        eq_value_iff v w,
        lt_entry_total v i e here,
        count_above items e v i,
      ))
]

-- On sorted entries delete takes one entry of the value and number of the row off a range index, if
-- there is one, and none for None.
pub count-delete :
    (r : RangeIndex) (i : ℕ) (row : Row) (w : Value) (j : ℕ)
    → IsSorted r.items
    → count w j (delete r i row).items
      ≡ count w j r.items
        - (if not (get_or_none row r.column == null) && (get_or_none row r.column == w && i == j)
            then 1
            else 0)
unfolding delete
count-delete r i row w j s = elim (Bool-cases (get_or_none row r.column == null)) [
  | inl e ↦ rw e (omega arith)
  | inr e ↦ rw e (count-pop_equal r.items (get_or_none row r.column) w i j s)
]
