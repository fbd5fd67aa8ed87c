-- ===== src/Query.antt =====
-- `snapdb/query.py`: conditions on columns, the planner that serves one of them from an index, and
-- the execution of a query. A condition is a value or a dict of operators, which is a list here; the
-- comparisons are those of `lt_value`, between values of one type. `Query.order` is not modelled.
pub mod Plan
pub mod Execute
pub mod Admits
pub mod Laws
use snapdb.Prelude.{ℕ, String, Bool, true, false, ◌&&◌, not, Option, none, some, List, [], ◌∷◌}
use snapdb.Prelude.Eq.{◌==◌}
use snapdb.Value.{Value, lt_value, value_eq}
use snapdb.Schema.{Row, get_or_none}

-- The keys of `_OPS`
pub data Op : Type 0 where
  eq ne gt gte lt lte : Op

-- What a column is compared with: a value, or operators with their values.
pub data Spec : Type 0 where
  exactly : Value → Spec
  ops : List (Op × Value) → Spec

abbrev pub Conditions : Type 0
Conditions = List (String × Spec)

unfoldable pub compare : Op → Value → Value → Bool
compare eq x v = x == v
compare ne x v = not (x == v)
compare gt x v = lt_value v x
compare gte x v = not (lt_value x v)
compare lt x v = lt_value x v
compare lte x v = not (lt_value v x)

-- The expressions of one column, joined by `and`
unfoldable pub test_ops : List (Op × Value) → Value → Bool
unfolding compare
test_ops [] x = true
test_ops ((op, v) ∷ os) x = compare op x v && test_ops os x

unfoldable pub test : Spec → Value → Bool
unfolding test_ops
test (exactly v) x = x == v
test (ops os) x = test_ops os x

-- `_compile_filter`: the predicate that the compiled expression computes
unfoldable pub compile_filter : Conditions → Row → Bool
unfolding test
compile_filter [] row = true
compile_filter ((col, spec) ∷ conditions) row =
    test spec (get_or_none row col) && compile_filter conditions row
