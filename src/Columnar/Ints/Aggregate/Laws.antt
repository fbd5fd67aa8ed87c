-- ===== src/Columnar/Ints/Aggregate/Laws.antt =====
-- `aggregate` computes over the values that are not null, whichever way the column stores them.
use snapdb.Prelude.{
  ℕ, suc, ◌+◌, ◌<◌, ◌≡◌, refl, sym, ap, subst, ◌∙◌, Bool, true, false, ◌&&◌, not, Option, none,
  some, List, [], ◌∷◌, length, ltb, arith, Bool-cases, inl, inr,
}
use snapdb.Prelude.Int.{ℤ, pos}
use snapdb.Result.{ok}
use snapdb.Columnar.Nulls.{at_index, with_nulls}
use snapdb.Columnar.Ints.{Ints, all_fit}
use snapdb.Columnar.Ints.View.{View, plain, differences, packed}
use snapdb.Columnar.Ints.Delta.{reconstruct_delta}
use snapdb.Columnar.Ints.Access.{get_value}
use snapdb.Schema.{Code}
use snapdb.Columnar.Ints.{init, fits}
use snapdb.Columnar.Ints.Refine.{Stores, Change, ChangesFit, run, list_run}
use snapdb.Columnar.Ints.Refine.Run.{run-Stores, init-Stores}
use snapdb.Columnar.Ints.Refine.Reads.{get_value-View}
use snapdb.Columnar.Ints.Aggregate.{
  Agg, count, sum, min, max, count_false, count_valid, valid_from, iter_valid, reduce, no_null,
  for_cache, is_delta, is_for, over_valid, over_cache, by_storage, aggregate,
}

-- The values that are not null
unfoldable pub values : List (Option ℤ) → List ℤ
values [] = []
values (none ∷ os) = values os
values (some v ∷ os) = v ∷ values os

valid_from_lem :
    (c : Ints) (xs : List ℤ) (ns : List Bool) (ys : List ℤ) (i : ℕ)
    → length ns ≡ length ys
    → ((j : ℕ) → j < length ys → get_value c (i + j) ≡ at_index ys j)
    → valid_from c i ns ≡ ok (values (with_nulls ns ys))
unfolding valid_from values with_nulls at_index
valid_from_lem c xs [] ys i l h = refl
valid_from_lem c xs (n ∷ ns) [] i l h = ground (arith, l)
valid_from_lem c xs (n ∷ ns) (y ∷ ys) i l h =
    let z : i + 0 ≡ i = omega arith in
    let here : get_value c i ≡ ok y = ap (get_value c) (sym z) ∙ h 0 (omega arith) in
    let rest : valid_from c (suc i) ns ≡ ok (values (with_nulls ns ys)) =
      valid_from_lem c xs ns ys (suc i) (omega (arith, l))
        (λ j k. ap (get_value c) (shift i j) ∙ h (suc j) (omega (arith, k))) in
    elim (Bool-cases n) [ inl t ↦ ground (arith, t, rest) | inr f ↦ ground (arith, f, here, rest) ]
  where
    shift : (i j : ℕ) → suc i + j ≡ i + suc j
    shift i j = omega arith

all_values :
    (ns : List Bool) (ys : List ℤ)
    → length ns ≡ length ys
    → no_null ns ≡ true
    → values (with_nulls ns ys) ≡ ys
unfolding values with_nulls no_null
all_values [] [] l h = refl
all_values [] (y ∷ ys) l h = ground (arith, l)
all_values (n ∷ ns) [] l h = ground (arith, l)
all_values (true ∷ ns) (y ∷ ys) l h = ground (arith, h)
all_values (false ∷ ns) (y ∷ ys) l h = ap (λ r. y ∷ r) (all_values ns ys (omega (arith, l)) h)

count_values :
    (ns : List Bool) (ys : List ℤ)
    → length ns ≡ length ys
    → count_false ns ≡ length (values (with_nulls ns ys))
unfolding values with_nulls count_false
count_values [] ys l = refl
count_values (n ∷ ns) [] l = ground (arith, l)
count_values (true ∷ ns) (y ∷ ys) l = count_values ns ys (omega (arith, l))
count_values (false ∷ ns) (y ∷ ys) l = ap suc (count_values ns ys (omega (arith, l)))

-- `iter_valid` yields the values that are not null.
pub iter_valid-values :
    (c : Ints) (os : List (Option ℤ)) → Stores c os → iter_valid c ≡ ok (values os)
unfolding iter_valid
iter_valid-values c os h =
    valid_from_lem c h.numbers c.nullmask h.numbers 0 h.aligned
      (λ j l. ap (get_value c) (plus j) ∙ get_value-View c h.numbers j h.view h.fit l)
    ∙ ap (λ r. ok (values r)) h.shown
  where
    plus : (j : ℕ) → 0 + j ≡ j
    plus j = omega arith

over_valid_lem :
    (agg : Agg) (c : Ints) (os : List (Option ℤ))
    → Stores c os
    → over_valid agg c ≡ ok (reduce agg (values os))
unfolding over_valid
over_valid_lem agg c os h = ground (arith, iter_valid-values c os h)

numbers_lem :
    (c : Ints) (os : List (Option ℤ))
    → (h : Stores c os) → no_null c.nullmask ≡ true
    → h.numbers ≡ values os
numbers_lem c os h n = sym (all_values c.nullmask h.numbers h.aligned n) ∙ ap values h.shown

over_cache_lem :
    (agg : Agg) (c : Ints) (os : List (Option ℤ)) (h : Stores c os)
    → over_cache agg c (ok h.numbers) ≡ ok (reduce agg (values os))
unfolding over_cache
over_cache_lem agg c os h = elim (Bool-cases (ltb 0 (length h.numbers) && no_null c.nullmask)) [
  | inl p ↦
      let q : no_null c.nullmask ≡ true = ground (arith, p) in
      ground (arith, p, numbers_lem c os h q)
  | inr p ↦ ground (arith, p, over_valid_lem agg c os h)
]

-- The three ways of `aggregate`, where each list that it reduces is the stored numbers
aggregate_ways :
    (agg : Agg) (c : Ints) (os : List (Option ℤ)) (h : Stores c os)
    → ((not (is_delta c) && ltb 0 (length c.data_) && no_null c.nullmask) ≡ true
        → c.data_ ≡ h.numbers)
    → (is_delta c ≡ true → reconstruct_delta c ≡ ok h.numbers)
    → (is_for c ≡ true → for_cache c ≡ ok h.numbers)
    → by_storage agg c ≡ ok (reduce agg (values os))
unfolding by_storage
aggregate_ways agg c os h d r f =
    elim (Bool-cases (not (is_delta c) && ltb 0 (length c.data_) && no_null c.nullmask)) [
      | inl p ↦
          let q : no_null c.nullmask ≡ true = ground (arith, p) in
          ground (arith, p, d p, numbers_lem c os h q)
      | inr p ↦ elim (Bool-cases (is_delta c)) [
        | inl q ↦ ground (arith, p, q, r q, over_cache_lem agg c os h)
        | inr q ↦ elim (Bool-cases (is_for c)) [
          | inl s ↦ ground (arith, p, q, s, f s, over_cache_lem agg c os h)
          | inr s ↦ ground (arith, p, q, s, over_valid_lem agg c os h)
        ]
      ]
    ]

data_numbers :
    (c : Ints) (xs : List ℤ)
    → View c xs
    → (not (is_delta c) && ltb 0 (length c.data_) && no_null c.nullmask) ≡ true
    → c.data_ ≡ xs
unfolding is_delta
data_numbers c xs (plain m fm e) p = e
data_numbers c xs (differences de m f fm e t) p = absurd (clash p)
  where
    clash :
        (not (c.delta_mode && not c.delta_fallback) && ltb 0 (length c.data_) && no_null c.nullmask)
          ≡ true
        → ⊥
    clash p = ground (arith, p, m, f)
data_numbers c xs (packed m past fe fm ff l de h) p = absurd (clash p)
  where
    clash :
        (not (c.delta_mode && not c.delta_fallback) && ltb 0 (length c.data_) && no_null c.nullmask)
          ≡ true
        → ⊥
    clash p = ground (arith, p, ap length de)

delta_numbers :
    (c : Ints) (xs : List ℤ)
    → View c xs
    → all_fit c.code xs ≡ true
    → is_delta c ≡ true
    → reconstruct_delta c ≡ ok xs
unfolding is_delta reconstruct_delta
delta_numbers c xs (plain m fm e) a p = ground (arith, p, m)
delta_numbers c xs (differences de m f fm e t) a p =
    ground (arith, e, subst (λ l. all_fit c.code l ≡ true) (sym e) a)
delta_numbers c xs (packed m past fe fm ff l de h) a p = ground (arith, p, m)

for_numbers :
    (c : Ints) (xs : List ℤ)
    → View c xs
    → all_fit c.code xs ≡ true
    → is_for c ≡ true
    → for_cache c ≡ ok xs
unfolding is_for for_cache
for_numbers c xs (plain m fm e) a p = ground (arith, p, fm)
for_numbers c xs (differences de m f fm e t) a p = ground (arith, p, fm)
for_numbers c xs (packed m past fe fm ff l de h) a p =
    ground (arith, h.fields, subst (λ r. all_fit c.code r ≡ true) (sym h.fields) a)

by_storage_lem :
    (agg : Agg) (c : Ints) (os : List (Option ℤ))
    → Stores c os
    → by_storage agg c ≡ ok (reduce agg (values os))
by_storage_lem agg c os h =
    aggregate_ways agg c os h (data_numbers c h.numbers h.view)
      (delta_numbers c h.numbers h.view h.fit) (for_numbers c h.numbers h.view h.fit)

-- The aggregate of the values
pub aggregate-values :
    (agg : Agg) (c : Ints) (os : List (Option ℤ))
    → Stores c os
    → aggregate agg c ≡ ok (reduce agg (values os))
unfolding aggregate
aggregate-values count c os h =
    unfold count_valid reduce in
    (ap (λ n. ok (some (pos n)))
      (count_values c.nullmask h.numbers h.aligned ∙ ap (λ r. length (values r)) h.shown))
aggregate-values sum c os h = by_storage_lem sum c os h
aggregate-values min c os h = by_storage_lem min c os h
aggregate-values max c os h = by_storage_lem max c os h

-- On a new integer column whose type holds zero, after any sequence of appends and writes of nulls
-- and of numbers that the type holds, the count, sum, min or max of aggregate is that of the values
-- which are not null in the list that the changes make, whether it reads plain data, a
-- reconstruction of an encoded column, or the values one by one.
pub aggregate-run :
    (agg : Agg) (code : Code) (delta_encode : Bool) (delta_samples : ℕ) (for_encode : Bool)
    (for_threshold : ℕ) (ks : List Change)
    → fits code (pos 0) ≡ true
    → ChangesFit code ks
    → aggregate agg (run ks (init code delta_encode delta_samples for_encode for_threshold)).1
      ≡ ok (reduce agg (values (list_run ks []).1))
unfolding init
aggregate-run agg code de ds fe ft ks z f =
    aggregate-values agg (run ks (init code de ds fe ft)).1 (list_run ks []).1
      (run-Stores ks (init code de ds fe ft) [] (init-Stores code de ds fe ft z) f).1
