-- ===== src/Query/Laws.antt =====
-- Queries that the planner serves from an index against queries that scan.
use snapdb.Prelude.{
  ℕ, ◌≡◌, refl, ap, ◌∙◌, String, Bool, true, Option, none, some, List, [], ◌∷◌, arith, Option-cases,
  inl, inr, length,
}
use snapdb.Prelude.Eq.{nat_eq, string_eq}
use snapdb.Prelude.Int.{pos}
use snapdb.Value.{Value, value_eq}
use snapdb.Schema.{Row}
use snapdb.Db.{Db, iter}
use snapdb.Db.Crud.{matching}
use snapdb.Query.{Conditions, compile_filter}
use snapdb.Query.Plan.{Plan, plan_query, execute_plan}
use snapdb.Query.Execute.{
  Query, conditions_of, merge_conditions, and_where, filter, passes, scan_candidates, count,
  values_of, plan_of, iter_matching_values,
}
use snapdb.Query.Admits.{Serves, plan_query-admits, execute_plan-admits}

-- The indexes serve every row of the list.
abbrev pub ServesAll : Db → List (ℕ × Row) → Type 0
ServesAll db [] = Unit
ServesAll db ((idx, row) ∷ rows) = Serves db idx row × ServesAll db rows

-- On rows that the indexes serve, leaving out what is no candidate leaves out nothing that passes.
scan_candidates-matching :
    (q : Query) (conditions : Conditions) (plan : Plan) (rows : List (ℕ × Row))
    → plan_query q.db conditions ≡ some plan
    → ((row : Row) → passes q row ≡ true → compile_filter conditions row ≡ true)
    → ServesAll q.db rows
    → scan_candidates q (execute_plan q.db plan) rows ≡ matching (passes q) rows
unfolding scan_candidates matching
scan_candidates-matching q conditions plan [] e w s = refl
scan_candidates-matching q conditions plan ((idx, row) ∷ rows) e w (s, ss) = ground (
  arith,
  scan_candidates-matching q conditions plan rows e w ss,
  w row,
  λ (t : compile_filter conditions row ≡ true).
      execute_plan-admits q.db idx row plan s (plan_query-admits q.db conditions row plan t e),
)

and_where-filter :
    (w : Option (Row → Bool)) (fn : Row → Bool) (row : Row)
    → and_where w fn row ≡ true
    → fn row ≡ true
unfolding and_where
and_where-filter none fn row t = t
and_where-filter (some w) fn row t = ground arith

module _ (q : Query) (conditions : Conditions) (s : ServesAll q.db (iter q.db)) where
  abbrev merged : Conditions
  merged = merge_conditions (conditions_of q) conditions

  planned :
      (plan : Plan)
      → plan_query q.db merged ≡ some plan
      → scan_candidates (filter q conditions) (execute_plan q.db plan) (iter q.db)
        ≡ matching (passes (filter q conditions)) (iter q.db)
  unfolding filter passes
  planned plan e =
      scan_candidates-matching (filter q conditions) merged plan (iter q.db) e
        (and_where-filter q.where_ (compile_filter merged)) s

  -- Where the indexes serve the rows of the database, count after filter is the number of rows that
  -- a full scan with the query's predicate finds, whatever index the planner chooses.
  pub count-matching :
      count (filter q conditions)
      ≡ pos (length (matching (passes (filter q conditions)) (iter q.db)))
  unfolding count filter passes
  count-matching = elim (Option-cases (plan_query q.db merged)) [
    | inl n ↦ rw (n, count)
    | inr (plan, n) ↦ rw (n, count) (ap (λ l. pos (length l)) (planned plan n))
  ]

  -- Where the indexes serve the rows of the database, the values behind the aggregates after filter
  -- are those of a full scan with the query's predicate, in the order of the scan.
  pub iter_matching_values-matching :
      (column : String)
      → iter_matching_values (filter q conditions) column
        ≡ values_of column (matching (passes (filter q conditions)) (iter q.db))
  unfolding iter_matching_values plan_of filter
  iter_matching_values-matching column = go merged refl
    where
      scanned : Conditions → List Value
      scanned m = values_of column (
          matching
            (passes (record q {
              where_ = some (and_where q.where_ (compile_filter m));
              where_conditions = some m;
            }))
            (iter q.db))

      go :
          (m : Conditions)
          → merged ≡ m
          → iter_matching_values (filter q conditions) column
            ≡ values_of column (matching (passes (filter q conditions)) (iter q.db))
      go [] e = rw e
      go (c ∷ cs) e = elim (Option-cases (plan_query q.db (c ∷ cs))) [
        | inl n ↦ rw (e, n, iter_matching_values) (ap scanned e)
        | inr (plan, n) ↦
            rw (e, n, iter_matching_values)
              (ap (values_of column) (planned plan (ap (plan_query q.db) e ∙ n)) ∙ ap scanned e)
      ]
