-- ===== src/Query/Admits.antt =====
-- What a plan of the planner asks of a row, and the rows that its execution finds.
use snapdb.Prelude.{
  ℕ, ◌≡◌, refl, sym, ap, ◌∙◌, subst, String, Bool, true, false, ◌&&◌, ◌||◌, none, some, List, [],
  ◌∷◌, arith, contains, Bool-cases, Option-cases, inl, inr,
}
use snapdb.Prelude.Eq.{◌==◌, nat_eq, string_eq}
use snapdb.Prelude.Dict
use snapdb.Value.{Value, null, value_eq, eq_value_iff, norm_value}
use snapdb.Schema.{Row, get_or_none}
use snapdb.Index.Hash.{HashIndex}
use snapdb.Index.Hash.Laws.{lists, IsTidy, lookup_lem}
use snapdb.Index.Multi
use snapdb.Index.Range.{RangeIndex, Entry}
use snapdb.Index.Range.Order.{IsSorted}
use snapdb.Index.Range.Laws.{in_range, above_low, below_high, rows_in, range_lookup-rows_in}
use snapdb.Db.{Db}
use snapdb.Query.{
  Op, eq, ne, gt, gte, lt, lte, exactly, ops, Conditions, compare, test_ops, test, compile_filter,
}
use snapdb.Query.Plan.{
  Plan, hash, low_side, high_side, between, equalities, ranges, plan_equality, Bound, bounds_from,
  first_low, first_high, plan_of_bounds, plan_column, plan_range, split_conditions, plan_query,
  range_rows, execute_plan,
}

-- An entry of the list
unfoldable pub has_entry : Value → ℕ → List Entry → Bool
has_entry v i [] = false
has_entry v i (e ∷ items) = e.0 == v && e.1 == i || has_entry v i items

-- The indexes have the row: a hash index, which is tidy, lists it under its value; a range index,
-- which is sorted, has an entry for its value and number. A row with None in a column that has a range
-- index is not served, since it has no entry.
pub record Serves (db : Db) (idx : ℕ) (row : Row) : Type 0 where
  pub hashed :
      (col : String) (h : HashIndex)
      → Dict.get db.indexes col ≡ some h
      → IsTidy h.index × (lists h.index (norm_value (get_or_none row col)) idx ≡ true)
  pub ranged :
      (col : String) (r : RangeIndex)
      → Dict.get db.range_indexes col ≡ some r
      → IsSorted r.items × (has_entry (get_or_none row col) idx r.items ≡ true)

contains-rows_in :
    (p : Value → Bool) (v : Value) (i : ℕ) (items : List Entry)
    → has_entry v i items ≡ true
    → p v ≡ true
    → contains i (rows_in p items) ≡ true
unfolding has_entry rows_in
contains-rows_in p v i [] h pv = h
contains-rows_in p v i ((w, j) ∷ items) h pv = elim (Bool-cases (w == v && j == i)) [
  | inl e ↦ ground (arith, e, pv, eq_value_iff w v, here w j)
  | inr e ↦ ground (arith, e, contains-rows_in p v i items)
]
  where
    here : (w : Value) (j : ℕ) → w ≡ v → p w ≡ true
    here w j e = ap p e ∙ pv

-- The tests of a bound that a plan may have
abbrev meets_low : Bound → Value → Bool
meets_low none x = true
meets_low (some (v, include)) x = above_low v include x

abbrev meets_high : Bound → Value → Bool
meets_high none x = true
meets_high (some (v, include)) x = below_high v include x

bounds_from-meets :
    (os : List (Op × Value)) (low high : Bound) (x : Value)
    → test_ops os x ≡ true
    → meets_low low x ≡ true
    → meets_high high x ≡ true
    → (meets_low (bounds_from low high os).0 x ≡ true)
      × (meets_high (bounds_from low high os).1 x ≡ true)
unfolding bounds_from test_ops compare above_low below_high
bounds_from-meets [] low high x t l h = (l, h)
bounds_from-meets ((gt, v) ∷ os) low high x t l h =
    bounds_from-meets os (some (v, false)) high x (ground arith) (ground arith) h
bounds_from-meets ((gte, v) ∷ os) low high x t l h =
    bounds_from-meets os (some (v, true)) high x (ground arith) (ground arith) h
bounds_from-meets ((lt, v) ∷ os) low high x t l h =
    bounds_from-meets os low (some (v, false)) x (ground arith) l (ground arith)
bounds_from-meets ((lte, v) ∷ os) low high x t l h =
    bounds_from-meets os low (some (v, true)) x (ground arith) l (ground arith)
bounds_from-meets ((eq, v) ∷ os) low high x t l h =
    bounds_from-meets os low high x (ground arith) l h
bounds_from-meets ((ne, v) ∷ os) low high x t l h =
    bounds_from-meets os low high x (ground arith) l h

has_range : Db → String → Bool
has_range db col = elim (Dict.get db.range_indexes col) [ none ↦ false | some r ↦ true ]

-- What a plan asks of a row, as the test of its bounds, and of the database: that it has the index.
unfoldable pub admits : Db → Plan → Row → Bool
unfolding has_range in_range
admits db (hash col v) row = Multi.contains db.indexes col && get_or_none row col == v
admits db (low_side col op v include) row =
    has_range db col && in_range v null include true (get_or_none row col)
admits db (high_side col op v include) row =
    has_range db col && in_range null v true include (get_or_none row col)
admits db (between col low high inc_low inc_high) row =
    has_range db col && in_range low high inc_low inc_high (get_or_none row col)

same_plan :
    {p plan : Plan} (db : Db) (row : Row)
    → some p ≡ some plan
    → admits db p row ≡ true
    → admits db plan row ≡ true
same_plan {p} {plan} db row e h = subst (λ q. admits db q row ≡ true) (plan_inj e) h
  where
    plan_inj : some p ≡ some plan → p ≡ plan
    plan_inj q = cc

in_range-low :
    (v x : Value) (include : Bool) → in_range v null include true x ≡ above_low v include x
unfolding in_range below_high
in_range-low v x include = ground (arith, eq_value_iff null null)

in_range-high :
    (v x : Value) (include : Bool) → in_range null v true include x ≡ below_high v include x
unfolding in_range above_low
in_range-high v x include = ground (arith, eq_value_iff null null)

first_low-admits :
    (db : Db) (col : String) (g : has_range db col ≡ true) (os : List (Op × Value)) (row : Row)
    (plan : Plan)
    → test_ops os (get_or_none row col) ≡ true
    → first_low col os ≡ some plan
    → admits db plan row ≡ true
unfolding first_low test_ops compare admits above_low
first_low-admits db col g [] row plan t e = cc
first_low-admits db col g ((gt, v) ∷ os) row plan t e =
    same_plan db row e (ground (arith, g, in_range-low v (get_or_none row col) false))
first_low-admits db col g ((gte, v) ∷ os) row plan t e =
    same_plan db row e (ground (arith, g, in_range-low v (get_or_none row col) true))
first_low-admits db col g ((lt, v) ∷ os) row plan t e =
    first_low-admits db col g os row plan (ground arith) e
first_low-admits db col g ((lte, v) ∷ os) row plan t e =
    first_low-admits db col g os row plan (ground arith) e
first_low-admits db col g ((eq, v) ∷ os) row plan t e =
    first_low-admits db col g os row plan (ground arith) e
first_low-admits db col g ((ne, v) ∷ os) row plan t e =
    first_low-admits db col g os row plan (ground arith) e

first_high-admits :
    (db : Db) (col : String) (g : has_range db col ≡ true) (os : List (Op × Value)) (row : Row)
    (plan : Plan)
    → test_ops os (get_or_none row col) ≡ true
    → first_high col os ≡ some plan
    → admits db plan row ≡ true
unfolding first_high test_ops compare admits below_high
first_high-admits db col g [] row plan t e = cc
first_high-admits db col g ((lt, v) ∷ os) row plan t e =
    same_plan db row e (ground (arith, g, in_range-high v (get_or_none row col) false))
first_high-admits db col g ((lte, v) ∷ os) row plan t e =
    same_plan db row e (ground (arith, g, in_range-high v (get_or_none row col) true))
first_high-admits db col g ((gt, v) ∷ os) row plan t e =
    first_high-admits db col g os row plan (ground arith) e
first_high-admits db col g ((gte, v) ∷ os) row plan t e =
    first_high-admits db col g os row plan (ground arith) e
first_high-admits db col g ((eq, v) ∷ os) row plan t e =
    first_high-admits db col g os row plan (ground arith) e
first_high-admits db col g ((ne, v) ∷ os) row plan t e =
    first_high-admits db col g os row plan (ground arith) e

plan_of_bounds-admits :
    (db : Db) (col : String) (g : has_range db col ≡ true) (os : List (Op × Value)) (row : Row)
    (plan : Plan) (low high : Bound)
    → test_ops os (get_or_none row col) ≡ true
    → (meets_low low (get_or_none row col) ≡ true) × (meets_high high (get_or_none row col) ≡ true)
    → plan_of_bounds col os low high ≡ some plan
    → admits db plan row ≡ true
unfolding plan_of_bounds admits in_range
plan_of_bounds-admits db col g os row plan none none t h e = cc
plan_of_bounds-admits db col g os row plan none (some b) t h e =
    first_high-admits db col g os row plan t e
plan_of_bounds-admits db col g os row plan (some b) none t h e =
    first_low-admits db col g os row plan t e
plan_of_bounds-admits db col g os row plan (some (low, il)) (some (high, ih)) t h e =
    same_plan db row e (ground (arith, g, h.0, h.1))

plan_column-admits :
    (db : Db) (col : String) (g : has_range db col ≡ true) (os : List (Op × Value)) (row : Row)
    (plan : Plan)
    → test_ops os (get_or_none row col) ≡ true
    → plan_column col os ≡ some plan
    → admits db plan row ≡ true
unfolding plan_column
plan_column-admits db col g os row plan t e =
    plan_of_bounds-admits db col g os row plan _ _ t
      (bounds_from-meets os none none (get_or_none row col) t refl refl) e

-- A plan of the planner comes from a condition, so a row that passes all conditions is admitted by it.
plan_range-admits :
    (db : Db) (conditions : Conditions) (row : Row) (plan : Plan)
    → compile_filter conditions row ≡ true
    → plan_range db (ranges conditions) ≡ some plan
    → admits db plan row ≡ true
unfolding plan_range ranges compile_filter test has_range
plan_range-admits db [] row plan t e = cc
plan_range-admits db ((col, exactly v) ∷ conditions) row plan t e =
    plan_range-admits db conditions row plan (ground arith) e
plan_range-admits db ((col, ops os) ∷ conditions) row plan t e = ground (
  arith,
  Option-cases (Dict.get db.range_indexes col),
  Option-cases (plan_column col os),
  plan_range-admits db conditions row plan,
  λ (g : has_range db col ≡ true). plan_column-admits db col g os row plan,
)

plan_equality-admits :
    (db : Db) (conditions : Conditions) (row : Row) (plan : Plan)
    → compile_filter conditions row ≡ true
    → plan_equality db (equalities conditions) ≡ some plan
    → admits db plan row ≡ true
unfolding plan_equality equalities compile_filter test
plan_equality-admits db [] row plan t e = cc
plan_equality-admits db ((col, ops os) ∷ conditions) row plan t e =
    plan_equality-admits db conditions row plan (ground arith) e
plan_equality-admits db ((col, exactly v) ∷ conditions) row plan t e =
    elim (Bool-cases (Multi.contains db.indexes col)) [
      | inl c ↦ same_plan {p = hash col v} db row (sym (rw c) ∙ e) (unfold admits in ground arith)
      | inr c ↦ plan_equality-admits db conditions row plan (ground arith) (sym (rw c) ∙ e)
    ]

pub plan_query-admits :
    (db : Db) (conditions : Conditions) (row : Row) (plan : Plan)
    → compile_filter conditions row ≡ true
    → plan_query db conditions ≡ some plan
    → admits db plan row ≡ true
unfolding plan_query split_conditions
plan_query-admits db conditions row plan t e = ground (
  arith,
  Option-cases (plan_range db (ranges conditions)),
  plan_equality-admits db conditions row plan,
  plan_range-admits db conditions row plan,
)

in_rows :
    (db : Db) (idx : ℕ) (row : Row) (col : String) (low high : Value) (il ih : Bool)
    → Serves db idx row
    → (has_range db col && in_range low high il ih (get_or_none row col)) ≡ true
    → contains idx (range_rows db col low high il ih) ≡ true
unfolding has_range
in_rows db idx row col low high il ih s a = elim (Option-cases (Dict.get db.range_indexes col)) [
  | inl n ↦ ground (arith, n)
  | inr (r, n) ↦ ground (
    arith,
    n,
    range_lookup-rows_in r low high il ih (s.ranged col r n).0,
    contains-rows_in (in_range low high il ih) (get_or_none row col) idx r.items
        (s.ranged col r n).1,
  )
]

-- The rows of an index that serves the row have it among them, where the plan admits it.
pub execute_plan-admits :
    (db : Db) (idx : ℕ) (row : Row) (plan : Plan)
    → Serves db idx row
    → admits db plan row ≡ true
    → contains idx (execute_plan db plan) ≡ true
unfolding admits has_range Multi.contains execute_plan
execute_plan-admits db idx row (hash col v) s a = elim (Option-cases (Dict.get db.indexes col)) [
  | inl n ↦ ground (arith, n)
  | inr (h, n) ↦ ground (
    arith,
    n,
    eq_value_iff (get_or_none row col) v,
    (lookup_lem h v (s.hashed col h n).0).0 idx,
    at_value h n,
  )
]
  where
    at_value :
        (h : HashIndex)
        → Dict.get db.indexes col ≡ some h
        → get_or_none row col ≡ v
        → lists h.index (norm_value v) idx ≡ true
    at_value h n e = subst (λ x. lists h.index (norm_value x) idx ≡ true) e (s.hashed col h n).1
execute_plan-admits db idx row (low_side col op v include) s a =
    in_rows db idx row col v null include true s a
execute_plan-admits db idx row (high_side col op v include) s a =
    in_rows db idx row col null v true include s a
execute_plan-admits db idx row (between col low high il ih) s a =
    in_rows db idx row col low high il ih s a
