-- ===== src/Query/Plan.antt =====
-- The planner of snapdb/query.py: `_split_conditions`, `_plan_equality`, `_plan_range`,
-- `_plan_query` and `_execute_plan`.
use snapdb.Prelude.{
  ℕ, String, Bool, true, false, ◌&&◌, Option, none, some, List, [], ◌∷◌, if◌then◌else◌,
}
use snapdb.Prelude.Dict
use snapdb.Prelude.Eq.{string_eq}
use snapdb.Value.{Value, null}
use snapdb.Index.Hash
use snapdb.Index.Multi
use snapdb.Index.Range
use snapdb.Db.{Db}
use snapdb.Query.{Op, eq, ne, gt, gte, lt, lte, exactly, ops, Conditions}

-- `_IndexPlan`, by its mode. A range plan has the operator, the bound and whether it is included.
pub data Plan : Type 0 where
  hash : String → Value → Plan
  low_side : String → Op → Value → Bool → Plan
  high_side : String → Op → Value → Bool → Plan
  between : String → Value → Value → Bool → Bool → Plan

unfoldable pub equalities : Conditions → List (String × Value)
equalities [] = []
equalities ((col, exactly v) ∷ conditions) = (col, v) ∷ equalities conditions
equalities ((col, ops os) ∷ conditions) = equalities conditions

unfoldable pub ranges : Conditions → List (String × List (Op × Value))
ranges [] = []
ranges ((col, exactly v) ∷ conditions) = ranges conditions
ranges ((col, ops os) ∷ conditions) = (col, os) ∷ ranges conditions

-- `_split_conditions`
unfoldable pub split_conditions :
    Conditions → List (String × Value) × List (String × List (Op × Value))
unfolding equalities ranges
split_conditions conditions = (equalities conditions, ranges conditions)

unfoldable pub plan_equality : Db → List (String × Value) → Option Plan
plan_equality db [] = none
plan_equality db ((col, v) ∷ eqs) =
    let rest = plan_equality db eqs in
    if Multi.contains db.indexes col then some (hash col v) else rest

-- `op in _RANGE_OPS`
unfoldable pub is_range_op : Op → Bool
is_range_op eq = false
is_range_op ne = false
is_range_op gt = true
is_range_op gte = true
is_range_op lt = true
is_range_op lte = true

unfoldable pub all_range_ops : List (Op × Value) → Bool
unfolding is_range_op
all_range_ops [] = true
all_range_ops ((op, v) ∷ os) = is_range_op op && all_range_ops os

-- A bound with whether it is included
abbrev pub Bound : Type 0
Bound = Option (Value × Bool)

-- The loop over the operators: a later bound of a side takes the place of an earlier one.
unfoldable pub bounds_from : Bound → Bound → List (Op × Value) → Bound × Bound
bounds_from low high [] = (low, high)
bounds_from low high ((gt, v) ∷ os) = bounds_from (some (v, false)) high os
bounds_from low high ((gte, v) ∷ os) = bounds_from (some (v, true)) high os
bounds_from low high ((lt, v) ∷ os) = bounds_from low (some (v, false)) os
bounds_from low high ((lte, v) ∷ os) = bounds_from low (some (v, true)) os
bounds_from low high ((eq, v) ∷ os) = bounds_from low high os
bounds_from low high ((ne, v) ∷ os) = bounds_from low high os

-- The first operator of the low side
unfoldable pub first_low : String → List (Op × Value) → Option Plan
first_low col [] = none
first_low col ((gt, v) ∷ os) = some (low_side col gt v false)
first_low col ((gte, v) ∷ os) = some (low_side col gte v true)
first_low col ((lt, v) ∷ os) = first_low col os
first_low col ((lte, v) ∷ os) = first_low col os
first_low col ((eq, v) ∷ os) = first_low col os
first_low col ((ne, v) ∷ os) = first_low col os

unfoldable pub first_high : String → List (Op × Value) → Option Plan
first_high col [] = none
first_high col ((lt, v) ∷ os) = some (high_side col lt v false)
first_high col ((lte, v) ∷ os) = some (high_side col lte v true)
first_high col ((gt, v) ∷ os) = first_high col os
first_high col ((gte, v) ∷ os) = first_high col os
first_high col ((eq, v) ∷ os) = first_high col os
first_high col ((ne, v) ∷ os) = first_high col os

-- The plan for the bounds of a column
unfoldable pub plan_of_bounds : String → List (Op × Value) → Bound → Bound → Option Plan
unfolding first_low first_high
plan_of_bounds col os none none = none
plan_of_bounds col os (some low) none = first_low col os
plan_of_bounds col os none (some high) = first_high col os
plan_of_bounds col os (some (low, inc_low)) (some (high, inc_high)) =
    some (between col low high inc_low inc_high)

-- The plan of one column whose operators all have a side; none where it has no operator.
unfoldable pub plan_column : String → List (Op × Value) → Option Plan
unfolding bounds_from plan_of_bounds
plan_column col os = plan_of_bounds col os (bounds_from none none os).0 (bounds_from none none os).1

-- `_plan_range`: the first column with a range index and a plan
unfoldable pub plan_range : Db → List (String × List (Op × Value)) → Option Plan
unfolding all_range_ops plan_column
plan_range db [] = none
plan_range db ((col, os) ∷ rng) =
    let rest = plan_range db rng in
    elim (Dict.get db.range_indexes col) [
      | none ↦ rest
      | some r ↦
          if all_range_ops os
          then elim (plan_column col os) [ none ↦ rest | some plan ↦ some plan ]
          else rest
    ]

-- The plan of `_plan_query`; its predicate is `compile_filter`.
unfoldable pub plan_query : Db → Conditions → Option Plan
unfolding split_conditions plan_equality plan_range
plan_query db conditions = elim (plan_range db (split_conditions conditions).1) [
  | none ↦ plan_equality db (split_conditions conditions).0
  | some plan ↦ some plan
]

-- The rows of a range index; none where there is no index
abbrev pub range_rows : Db → String → Value → Value → Bool → Bool → List ℕ
range_rows db col low high inc_low inc_high = elim (Dict.get db.range_indexes col) [
  | none ↦ []
  | some r ↦ Range.range_lookup r low high inc_low inc_high
]

-- `_execute_plan`, in the order of the index; `execute` has the same cases.
unfoldable pub execute_plan : Db → Plan → List ℕ
execute_plan db (hash col v) = elim (Dict.get db.indexes col) [
  | none ↦ []
  | some h ↦ Hash.lookup h v
]
execute_plan db (low_side col op bound include) = range_rows db col bound null include true
execute_plan db (high_side col op bound include) = range_rows db col null bound true include
execute_plan db (between col low high inc_low inc_high) =
    range_rows db col low high inc_low inc_high
