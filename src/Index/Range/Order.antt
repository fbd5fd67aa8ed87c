-- ===== src/Index/Range/Order.antt =====
-- The order of a range index's entries, and that every operation keeps the entries in order.
use snapdb.Prelude.{
  ℕ, zero, suc, Bool-cases, ◌≡◌, refl, inl, inr, Bool, true, false, ◌&&◌, ◌||◌, List, [], ◌∷◌,
  arith, ltb, if◌then◌else◌,
}
use snapdb.Prelude.Eq.{◌==◌, nat_eq}
use snapdb.Value.{Value, null, eq_value_iff, lt_value, value_eq}
use snapdb.Value.Order.{lt_value_irrefl, lt_value_trans, lt_value_total}
use snapdb.Schema.{Row, get_or_none}
use snapdb.Index.Range.{
  Entry, RangeIndex, at, edge_lt, bisect_left, insort, sort, entries_of, build, insert, pop_equal,
  delete, update,
}

-- Python's order of the tuples (value, row_idx).
abbrev pub lt_entry : Entry → Entry → Bool
lt_entry e f = lt_value e.0 f.0 || (e.0 == f.0 && ltb e.1 f.1)

pub lt_of_le_of_lt :
    (a b c : Value) → lt_value b a ≡ false → lt_value b c ≡ true → lt_value a c ≡ true
lt_of_le_of_lt a b c h k =
    ground (arith, lt_value_total a b, lt_value_trans a b c, lt_value_total b a)

pub lt_of_lt_of_le :
    (a b c : Value) → lt_value a b ≡ true → lt_value c b ≡ false → lt_value a c ≡ true
lt_of_lt_of_le a b c h k = ground (arith, lt_value_total b c, lt_value_trans a b c)

lt_entry_trans :
    (e f g : Entry) → lt_entry f e ≡ false → lt_entry g f ≡ false → lt_entry g e ≡ false
lt_entry_trans (a, i) (b, j) (c, k) h h' = ground (
  arith,
  lt_of_lt_of_le c a b,
  lt_value_total b c,
  eq_value_iff b a,
  eq_value_iff c a,
  eq_value_iff c b,
)

-- No entry of the list is below the given one.
abbrev pub IsBelow : Entry → List Entry → Type 0
IsBelow e [] = Unit
IsBelow e (f ∷ items) = (lt_entry f e ≡ false) × IsBelow e items

-- Ascending, equal entries allowed.
abbrev pub IsSorted : List Entry → Type 0
IsSorted [] = Unit
IsSorted (e ∷ items) = IsBelow e items × IsSorted items

pub IsBelow-trans :
    (e f : Entry) (items : List Entry) → lt_entry f e ≡ false → IsBelow f items → IsBelow e items
IsBelow-trans e f [] h b = tt
IsBelow-trans e f (g ∷ items) h b = (lt_entry_trans e f g h b.0, IsBelow-trans e f items h b.1)

lt_entry_asym : (e f : Entry) → lt_entry e f ≡ true → lt_entry f e ≡ false
lt_entry_asym (a, i) (b, j) h =
    ground (arith, lt_value_trans a b a, lt_value_irrefl a, eq_value_iff a b, eq_value_iff b a)

pub insort-cons :
    (e : Entry) (items : List Entry) (v : Value) (i : ℕ)
    → insort (e ∷ items) v i
      ≡ (if lt_entry (v, i) e then (v, i) ∷ e ∷ items else e ∷ insort items v i)
unfolding insort edge_lt
insort-cons e items v i = ground arith

pub insort-nil : (v : Value) (i : ℕ) → insort [] v i ≡ (v, i) ∷ []
unfolding insort
insort-nil v i = refl

IsBelow-insort :
    (f : Entry) (items : List Entry) (v : Value) (i : ℕ)
    → lt_entry (v, i) f ≡ false
    → IsBelow f items
    → IsBelow f (insort items v i)
IsBelow-insort f [] v i h b = unfold insort in (h, tt)
IsBelow-insort f (e ∷ items) v i h b = rw insort-cons (elim (Bool-cases (lt_entry (v, i) e)) [
  | inl first ↦ rw first (h, b)
  | inr later ↦ rw later (b.0, IsBelow-insort f items v i h b.1)
])

pub insort-IsSorted :
    (items : List Entry) (v : Value) (i : ℕ) → IsSorted items → IsSorted (insort items v i)
insort-IsSorted [] v i s = unfold insort in (tt, tt)
insort-IsSorted (e ∷ items) v i s = rw insort-cons (elim (Bool-cases (lt_entry (v, i) e)) [
  | inl first ↦ rw first (
    (lt_entry_asym (v, i) e first, IsBelow-trans (v, i) e items (lt_entry_asym (v, i) e first) s.0),
    s,
  )
  | inr later ↦ rw later (IsBelow-insort e items v i later s.0, insort-IsSorted items v i s.1)
])

sort-IsSorted : (items : List Entry) → IsSorted (sort items)
unfolding sort
sort-IsSorted [] = tt
sort-IsSorted ((v, i) ∷ items) = insort-IsSorted (sort items) v i (sort-IsSorted items)

pub pop_equal-suc :
    (e : Entry) (items : List Entry) (pos : ℕ) (v : Value) (i : ℕ)
    → pop_equal (e ∷ items) (suc pos) v i ≡ e ∷ pop_equal items pos v i
unfolding pop_equal
pop_equal-suc e items pos v i = ground arith

IsBelow-pop_equal :
    (f : Entry) (items : List Entry) (pos : ℕ) (v : Value) (i : ℕ)
    → IsBelow f items
    → IsBelow f (pop_equal items pos v i)
IsBelow-pop_equal f [] zero v i b = unfold pop_equal in tt
IsBelow-pop_equal f [] (suc pos) v i b = unfold pop_equal in tt
IsBelow-pop_equal f (e ∷ items) zero v i b = unfold pop_equal in ground arith
IsBelow-pop_equal f (e ∷ items) (suc pos) v i b =
    rw pop_equal-suc (b.0, IsBelow-pop_equal f items pos v i b.1)

pop_equal-IsSorted :
    (items : List Entry) (pos : ℕ) (v : Value) (i : ℕ)
    → IsSorted items
    → IsSorted (pop_equal items pos v i)
pop_equal-IsSorted [] zero v i s = unfold pop_equal in tt
pop_equal-IsSorted [] (suc pos) v i s = unfold pop_equal in tt
pop_equal-IsSorted (e ∷ items) zero v i s = unfold pop_equal in ground arith
pop_equal-IsSorted (e ∷ items) (suc pos) v i s =
    rw pop_equal-suc (IsBelow-pop_equal e items pos v i s.0, pop_equal-IsSorted items pos v i s.1)

pub build-IsSorted : (r : RangeIndex) (rows : List (ℕ × Row)) → IsSorted (build r rows).items
unfolding build
build-IsSorted r rows = sort-IsSorted (entries_of r.column rows)

pub insert-IsSorted :
    (r : RangeIndex) (i : ℕ) (row : Row) → IsSorted r.items → IsSorted (insert r i row).items
unfolding insert
insert-IsSorted r i row s = ground (arith, insort-IsSorted r.items (get_or_none row r.column) i s)

pub delete-IsSorted :
    (r : RangeIndex) (i : ℕ) (row : Row) → IsSorted r.items → IsSorted (delete r i row).items
unfolding delete
delete-IsSorted r i row s = elim (Bool-cases (get_or_none row r.column == null)) [
  | inl e ↦ rw e s
  | inr e ↦ rw e (
      pop_equal-IsSorted r.items (bisect_left r.items (at (get_or_none row r.column) i))
        (get_or_none row r.column) i s)
]

-- Update keeps the entries of a range index sorted.
pub update-IsSorted :
    (r : RangeIndex) (i : ℕ) (old_row new_row : Row)
    → IsSorted r.items
    → IsSorted (update r i old_row new_row).items
unfolding update
update-IsSorted r i old_row new_row s =
    ground (arith, insert-IsSorted (delete r i old_row) i new_row (delete-IsSorted r i old_row s))

pub lt_entry_irrefl : (e : Entry) → lt_entry e e ≡ false
lt_entry_irrefl (a, i) = ground (arith, lt_value_irrefl a)

pub lt_entry_total :
    (v : Value) (i : ℕ) (e : Entry)
    → lt_entry e (v, i) ≡ false
    → (e.0 == v) && (e.1 == i) ≡ false
    → lt_entry (v, i) e ≡ true
lt_entry_total v i (a, j) h n =
    ground (arith, lt_value_total a v, eq_value_iff a v, eq_value_iff v a)
