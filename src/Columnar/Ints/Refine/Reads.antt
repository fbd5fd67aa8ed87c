-- ===== src/Columnar/Ints/Refine/Reads.antt =====
-- What reading an integer column gives: the values of the list it stands for.
use snapdb.Prelude.{
  ℕ, zero, suc, ◌+◌, ◌<◌, ◌≡◌, refl, sym, ap, subst, ◌∙◌, true, Option, none, some, List, arith,
  Bool-cases, inl, inr, ltb, length, if◌then◌else◌, get_elem?,
}
use snapdb.Prelude.Int.{ℤ}
use snapdb.Result.{ok}
use snapdb.Columnar.Nulls.{at_index, elem_at, length-with_nulls, none_at, with_nulls, with_nulls_at}
use snapdb.Columnar.Ints.{Ints, all_fit}
use snapdb.Columnar.Ints.View.{View, plain, differences, packed}
use snapdb.Columnar.Ints.Delta.{reconstruct_delta}
use snapdb.Columnar.Ints.Packing.{for_values, get_for_value}
use snapdb.Columnar.Ints.Access.{get_value, get_item, to_list}
use snapdb.Columnar.Ints.Refine.{Stores}

length-for_values : (c : Ints) (i n : ℕ) → length (for_values c i n) ≡ n
unfolding for_values
length-for_values c i zero = refl
length-for_values c i (suc n) = ap suc (length-for_values c (suc i) n)

for_values_at :
    (c : Ints) (i n k : ℕ) → k < n → get_elem? (for_values c i n) k ≡ some (get_for_value c (i + k))
unfolding for_values
for_values_at c i zero k h = elim h [ ]
for_values_at c i (suc n) zero h =
    let e : i ≡ i + 0 = omega arith in ap (λ m. some (get_for_value c m)) e
for_values_at c i (suc n) (suc k) h =
    let e : suc i + k ≡ i + suc k = omega arith in
    for_values_at c (suc i) n k (omega arith) ∙ ap (λ m. some (get_for_value c m)) e

-- A stored number, read at a row that is there
pub get_value-View :
    (c : Ints) (xs : List ℤ) (idx : ℕ)
    → View c xs
    → all_fit c.code xs ≡ true
    → idx < length xs
    → get_value c idx ≡ at_index xs idx
get_value-View c xs idx (plain m fm e) a h =
    subst (λ l. get_value c idx ≡ at_index l idx) e (unfold get_value in ground (arith, m, fm))
get_value-View c xs idx (differences de m f fm e t) a h =
    unfold get_value reconstruct_delta in
    ground (arith, m, f, e, subst (λ l. all_fit c.code l ≡ true) (sym e) a)
get_value-View c xs idx (packed m past fe fm ff l de p) a h =
    reads ∙ sym (at (for_values_at c 0 c.for_count idx (subst (λ k. idx < k) size h)))
  where
    size : length xs ≡ c.for_count
    size = ap length (sym p.fields) ∙ length-for_values c 0 c.for_count

    reads : get_value c idx ≡ ok (get_for_value c idx)
    reads = unfold get_value in ground (arith, m, fm, ff)

    at :
        get_elem? (for_values c 0 c.for_count) idx ≡ some (get_for_value c (0 + idx))
        → at_index xs idx ≡ ok (get_for_value c idx)
    at q =
        let e : 0 + idx ≡ idx = omega arith in
        let r : get_elem? xs idx ≡ some (get_for_value c idx) =
          subst (λ l. get_elem? l idx ≡ some (get_for_value c idx)) p.fields
            (q ∙ ap (λ k. some (get_for_value c k)) e) in
        unfold at_index in ground (arith, r)

-- A column reads at each index as the list it stands for, and raises IndexError where the list does.
pub get_item_lem :
    (c : Ints) (os : List (Option ℤ)) (idx : ℕ) → Stores c os → get_item c idx ≡ at_index os idx
unfolding get_item at_index
get_item_lem c os idx h = elim (Bool-cases (ltb idx (length c.nullmask))) [
  | inl in_ ↦
      let (n, p) = elem_at c.nullmask idx (ground (arith, in_)) in
      let below : idx < length h.numbers = ground (arith, in_, h.aligned) in
      let (x, q) = elem_at h.numbers idx below in
      let v : get_value c idx ≡ at_index h.numbers idx =
        get_value-View c h.numbers idx h.view h.fit below in
      let r : get_elem? os idx ≡ some (if n then none else some x) =
        subst (λ l. get_elem? l idx ≡ some (if n then none else some x)) h.shown
          (with_nulls_at c.nullmask h.numbers idx n x p q) in
      ground (arith, p, q, v, r)
  | inr out ↦
      let p : get_elem? c.nullmask idx ≡ none = none_at c.nullmask idx (ground (arith, out)) in
      let size : length os ≡ length h.numbers =
        ap length (sym h.shown) ∙ length-with_nulls c.nullmask h.numbers h.aligned in
      let q : get_elem? os idx ≡ none = none_at os idx (ground (arith, out, size, h.aligned)) in
      ground (arith, p, q)
]

-- `tolist` gives the list.
pub to_list_lem : (c : Ints) (os : List (Option ℤ)) → Stores c os → to_list c ≡ ok os
to_list_lem c os h = go h.view ∙ ap (λ l. ok l) h.shown
  where
    go : View c h.numbers → to_list c ≡ ok (with_nulls c.nullmask h.numbers)
    go (plain m fm e) = unfold to_list in ground (arith, m, fm, e)
    go (differences de m f fm e t) =
        unfold to_list reconstruct_delta in
        ground (arith, m, f, e, subst (λ l. all_fit c.code l ≡ true) (sym e) h.fit)
    go (packed m past fe fm ff l de p) =
        let size : length c.nullmask ≡ c.for_count =
          h.aligned ∙ ap length (sym p.fields) ∙ length-for_values c 0 c.for_count in
        let all : for_values c 0 (length c.nullmask) ≡ h.numbers =
          ap (for_values c 0) size ∙ p.fields in
        unfold to_list in ground (arith, m, fm, ff, all)
