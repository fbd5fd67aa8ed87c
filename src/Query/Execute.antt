-- ===== src/Query/Execute.antt =====
-- `Query` of snapdb/query.py: `filter`, `where_fn`, `slice`, `execute` without an order, `first`,
-- `count` and the aggregates. A limit or an offset below 0 does not occur.
use snapdb.Prelude.{
  ℕ, zero, suc, ◌+◌, String, Bool, true, false, ◌&&◌, Option, none, some, List, [], ◌∷◌, ◌++◌,
  length, take, drop, contains, if◌then◌else◌,
}
use snapdb.Prelude.Eq.{◌==◌, nat_eq, string_eq}
use snapdb.Prelude.Dict
use snapdb.Prelude.Int.{ℤ, pos, negsuc}
use snapdb.Value.{Value, null, lt_value, value_eq}
use snapdb.Schema.{Row, get_or_none}
use snapdb.Db.{Db, get, iter}
use snapdb.Db.Crud.{matching}
use snapdb.Query.{gt, gte, lt, lte, ops, Conditions, compile_filter}
use snapdb.Index.Hash
use snapdb.Query.Plan.{Plan, hash, low_side, high_side, plan_query, execute_plan}

-- `where` is none where the field is None, and so are `where_conditions`.
pub record Query : Type 0 where
  pub db : Db
  pub where_ : Option (Row → Bool)
  pub where_conditions : Option Conditions
  pub limit : Option ℕ
  pub offset : ℕ

unfoldable pub query : Db → Query
query db = record { db = db; where_ = none; where_conditions = none; limit = none; offset = 0 }

-- merged.update(conditions)
unfoldable pub merge_conditions : Conditions → Conditions → Conditions
merge_conditions merged [] = merged
merge_conditions merged ((col, spec) ∷ conditions) =
    merge_conditions (Dict.put merged col spec) conditions

abbrev pub conditions_of : Query → Conditions
conditions_of q = elim q.where_conditions [ none ↦ [] | some c ↦ c ]

-- `fn if self.where is None else lambda r: self.where(r) and fn(r)`
unfoldable pub and_where : Option (Row → Bool) → (Row → Bool) → Row → Bool
and_where none fn row = fn row
and_where (some w) fn row = w row && fn row

unfoldable pub filter : Query → Conditions → Query
unfolding merge_conditions and_where
filter q conditions =
    let merged = merge_conditions (conditions_of q) conditions in
    record q {
      where_ = some (and_where q.where_ (compile_filter merged));
      where_conditions = some merged;
    }

unfoldable pub where_fn : Query → (Row → Bool) → Query
unfolding and_where
where_fn q fn = record q { where_ = some (and_where q.where_ fn); where_conditions = none }

unfoldable pub slice : Query → ℕ → ℕ → Query
slice q limit offset = record q { limit = some limit; offset = offset }

unfoldable pub between : Query → String → Value → Value → Bool → Bool → Query
unfolding filter
between q column low high include_low include_high = filter q (
    (
      column,
      ops ((if include_low then gte else gt, low) ∷ (if include_high then lte else lt, high) ∷ []),
    )
    ∷ [])

-- `self.where is None or self.where(row)`
unfoldable pub passes : Query → Row → Bool
passes q row = elim q.where_ [ none ↦ true | some w ↦ w row ]

-- `_iter_candidates`
unfoldable pub iter_candidates : Query → List ℕ → List (ℕ × Row)
unfolding passes
iter_candidates q [] = []
iter_candidates q (idx ∷ candidates) =
    let rest = iter_candidates q candidates in
    elim (get q.db idx) [
      | none ↦ rest
      | some row ↦ if passes q row then (idx, row) ∷ rest else rest
    ]

-- The plan of the query, where it has conditions
unfoldable pub plan_of : Query → Option Plan
plan_of q = elim q.where_conditions [
  | none ↦ none
  | some conditions ↦ elim conditions [ [] ↦ none | c ∷ cs ↦ plan_query q.db (c ∷ cs) ]
]

-- len(index) == 0
unfoldable pub is_zero : ℤ → Bool
is_zero (pos zero) = true
is_zero (pos (suc n)) = false
is_zero (negsuc n) = false

-- The candidates of `execute`: those of `_execute_plan`, but none from a hash index that counts no rows.
unfoldable pub candidates : Db → Plan → List ℕ
unfolding is_zero execute_plan
candidates db (hash col v) = elim (Dict.get db.indexes col) [
  | none ↦ []
  | some h ↦ if is_zero h.total then [] else Hash.lookup h v
]
candidates db (low_side col op bound include) = execute_plan db (low_side col op bound include)
candidates db (high_side col op bound include) = execute_plan db (high_side col op bound include)
candidates db (Plan.between col low high il ih) = execute_plan db (Plan.between col low high il ih)

-- All matches: those of the plan, in the order of its index, or those of a scan.
unfoldable pub matches : Query → List (ℕ × Row)
unfolding plan_of iter_candidates candidates passes
matches q = elim (plan_of q) [
  | none ↦ matching (passes q) (iter q.db)
  | some plan ↦ iter_candidates q (candidates q.db plan)
]

-- islice(matches, offset, stop)
unfoldable pub islice {ℓ} : {A : Type ℓ} → List A → ℕ → Option ℕ → List A
islice xs offset none = drop offset xs
islice xs offset (some limit) = drop offset (take (offset + limit) xs)

-- `execute`, without an order. A limit of 0 has no results.
unfoldable pub execute : Query → List (ℕ × Row)
unfolding matches islice
execute q = elim q.limit [
  | some zero ↦ []
  | some (suc n) ↦ islice (matches q) q.offset (some (suc n))
  | none ↦ islice (matches q) q.offset none
]

unfoldable pub first : Query → Option (ℕ × Row)
unfolding slice execute
first q = elim (execute (slice q 1 0)) [ [] ↦ none | r ∷ rs ↦ some r ]

-- The rows of a scan that are candidates and pass
unfoldable pub scan_candidates : Query → List ℕ → List (ℕ × Row) → List (ℕ × Row)
unfolding passes
scan_candidates q candidates [] = []
scan_candidates q candidates ((idx, row) ∷ rows) =
    let rest = scan_candidates q candidates rows in
    if passes q row && contains idx candidates then (idx, row) ∷ rest else rest

-- Without a predicate it is the number of rows that the database counts.
unfoldable pub count : Query → ℤ
unfolding passes scan_candidates
count q = elim q.where_ [
  | none ↦ q.db.total_rows
  | some w ↦ elim (plan_query q.db (conditions_of q)) [
    | none ↦ pos (length (matching w (iter q.db)))
    | some plan ↦ pos (length (scan_candidates q (execute_plan q.db plan) (iter q.db)))
  ]
]

-- The values of a column that are not None
unfoldable pub values_of : String → List (ℕ × Row) → List Value
values_of column [] = []
values_of column ((idx, row) ∷ rows) =
    let rest = values_of column rows in
    if get_or_none row column == null then rest else get_or_none row column ∷ rest

unfoldable pub iter_matching_values : Query → String → List Value
unfolding plan_of passes scan_candidates values_of
iter_matching_values q column = elim (plan_of q) [
  | none ↦ values_of column (matching (passes q) (iter q.db))
  | some plan ↦ values_of column (scan_candidates q (execute_plan q.db plan) (iter q.db))
]

-- seen.setdefault(v, None)
unfoldable pub distinct_from : List Value → List Value → List Value
distinct_from seen [] = seen
distinct_from seen (v ∷ vs) = distinct_from (if contains v seen then seen else seen ++ (v ∷ [])) vs

unfoldable pub count_distinct : Query → String → ℕ
unfolding iter_matching_values distinct_from
count_distinct q column = length (distinct_from [] (iter_matching_values q column))

-- The builtin `min` of a first value and the others
unfoldable pub min_from : Value → List Value → Value
min_from m [] = m
min_from m (v ∷ vs) = min_from (if lt_value v m then v else m) vs

unfoldable pub min_value : Query → String → Value → Value
unfolding iter_matching_values min_from
min_value q column default = elim (iter_matching_values q column) [
  | [] ↦ default
  | v ∷ vs ↦ min_from v vs
]

unfoldable pub max_from : Value → List Value → Value
max_from m [] = m
max_from m (v ∷ vs) = max_from (if lt_value m v then v else m) vs

unfoldable pub max_value : Query → String → Value → Value
unfolding iter_matching_values max_from
max_value q column default = elim (iter_matching_values q column) [
  | [] ↦ default
  | v ∷ vs ↦ max_from v vs
]
