-- ===== src/Columnar/Ints/Aggregate.antt =====
-- `aggregate` of snapdb/columnar.py on an integer column, without a predicate and without NumPy, and
-- `count_valid` and `iter_valid`, which it calls. The average is left out.
pub mod Laws
use snapdb.Prelude.{
  ℕ, zero, suc, ◌+◌, Bool, true, false, ◌&&◌, ◌||◌, not, Option, none, some, List, [], ◌∷◌, ltb,
  length, contains, if◌then◌else◌,
}
use snapdb.Prelude.Int.{ℤ, pos, ltb_ℤ, ◌+ℤ◌}
use snapdb.Result.{Result, ok, err, overflow_error}
use snapdb.Columnar.Ints.{Ints, all_fit}
use snapdb.Columnar.Ints.Delta.{reconstruct_delta}
use snapdb.Columnar.Ints.Packing.{for_values, min_of, max_of}
use snapdb.Columnar.Ints.Access.{get_value}

pub data Agg : Type 0 where
  count sum min max : Agg

-- self._nullmask.count(0)
unfoldable pub count_false : List Bool → ℕ
count_false [] = 0
count_false (n ∷ ns) = if n then count_false ns else suc (count_false ns)

-- `count_valid`
unfoldable pub count_valid : Ints → ℕ
unfolding count_false
count_valid c = count_false c.nullmask

-- `iter_valid`, from row `i` on, without the row numbers
unfoldable pub valid_from : Ints → ℕ → List Bool → Result (List ℤ)
unfolding get_value
valid_from c i [] = ok []
valid_from c i (true ∷ ns) = valid_from c (suc i) ns
valid_from c i (false ∷ ns) = elim (get_value c i) [
  | err e ↦ err e
  | ok v ↦ elim (valid_from c (suc i) ns) [ err e ↦ err e | ok vs ↦ ok (v ∷ vs) ]
]

unfoldable pub iter_valid : Ints → Result (List ℤ)
unfolding valid_from
iter_valid c = valid_from c 0 c.nullmask

unfoldable pub sum_from : ℤ → List ℤ → ℤ
sum_from total [] = total
sum_from total (v ∷ vs) = sum_from (total +ℤ v) vs

-- What the loops over the values compute; min and max of no value are None.
unfoldable pub reduce : Agg → List ℤ → Option ℤ
unfolding sum_from min_of max_of
reduce count vs = some (pos (length vs))
reduce sum vs = some (sum_from (pos 0) vs)
reduce min [] = none
reduce min (v ∷ vs) = some (min_of v vs)
reduce max [] = none
reduce max (v ∷ vs) = some (max_of v vs)

-- col._nullmask.count(1) == 0
unfoldable pub no_null : List Bool → Bool
no_null [] = true
no_null (n ∷ ns) = not n && no_null ns

-- `_ensure_for_cache`
unfoldable pub for_cache : Ints → Result (List ℤ)
unfolding for_values all_fit
for_cache c =
    if all_fit c.code (for_values c 0 c.for_count)
    then ok (for_values c 0 c.for_count)
    else err overflow_error

unfoldable pub is_delta : Ints → Bool
is_delta c = c.delta_mode && not c.delta_fallback

unfoldable pub is_for : Ints → Bool
is_for c = c.for_mode && not c.for_fallback

-- The loop over `iter_valid`
unfoldable pub over_valid : Agg → Ints → Result (Option ℤ)
unfolding iter_valid reduce
over_valid agg c = elim (iter_valid c) [ err e ↦ err e | ok vs ↦ ok (reduce agg vs) ]

-- The reduction of a cache that has values, where no row is null
unfoldable pub over_cache : Agg → Ints → Result (List ℤ) → Result (Option ℤ)
unfolding over_valid no_null reduce
over_cache agg c (err e) = err e
over_cache agg c (ok cache) =
    if ltb 0 (length cache) && no_null c.nullmask then ok (reduce agg cache) else over_valid agg c

-- `aggregate`, behind the count
unfoldable pub by_storage : Agg → Ints → Result (Option ℤ)
unfolding over_cache for_cache reconstruct_delta is_delta is_for
by_storage agg c =
    if not (is_delta c) && ltb 0 (length c.data_) && no_null c.nullmask
    then ok (reduce agg c.data_)
    else if is_delta c
    then over_cache agg c (reconstruct_delta c)
    else if is_for c
    then over_cache agg c (for_cache c)
    else over_valid agg c

-- `aggregate`
unfoldable pub aggregate : Agg → Ints → Result (Option ℤ)
unfolding count_valid by_storage
aggregate count c = ok (some (pos (count_valid c)))
aggregate sum c = by_storage sum c
aggregate min c = by_storage min c
aggregate max c = by_storage max c
