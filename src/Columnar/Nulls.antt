-- ===== src/Columnar/Nulls.antt =====
-- Rows under a null mask, in every column of snapdb/columnar.py.
use snapdb.Prelude.{
  ℕ, zero, suc, ◌<◌, ◌≤◌, ◌≡◌, refl, ap, Bool, true, false, Option, none, some, List, [], ◌∷◌, ◌++◌,
  arith, length, if◌then◌else◌, get_elem?, set,
}
use snapdb.Result.{Result, ok, err, index_error}

-- A read of a list at an index, or IndexError
unfoldable pub at_index {ℓ} : {A : Type ℓ} → List A → ℕ → Result A
at_index xs idx = elim (get_elem? xs idx) [ none ↦ err index_error | some x ↦ ok x ]

-- [None if nullmask[i] else data[i] for i in range(n)]
unfoldable pub with_nulls {ℓ} : {A : Type ℓ} → List Bool → List A → List (Option A)
with_nulls [] xs = []
with_nulls (n ∷ ns) [] = []
with_nulls (n ∷ ns) (x ∷ xs) = (if n then none else some x) ∷ with_nulls ns xs

module _ {ℓ} {A : Type ℓ} where
  pub length-with_nulls :
      (ns : List Bool) (xs : List A) → length ns ≡ length xs → length (with_nulls ns xs) ≡ length xs
  unfolding with_nulls
  length-with_nulls [] [] h = refl
  length-with_nulls [] (x ∷ xs) h = ground (arith, h)
  length-with_nulls (n ∷ ns) [] h = ground (arith, h)
  length-with_nulls (n ∷ ns) (x ∷ xs) h = ap suc (length-with_nulls ns xs (omega arith))

  -- A row of the list
  pub with_nulls_at :
      (ns : List Bool) (xs : List A) (i : ℕ) (n : Bool) (x : A)
      → get_elem? ns i ≡ some n
      → get_elem? xs i ≡ some x
      → get_elem? (with_nulls ns xs) i ≡ some (if n then none else some x)
  unfolding with_nulls
  with_nulls_at [] xs i n x e f = ground (arith, e)
  with_nulls_at (m ∷ ns) [] i n x e f = ground (arith, f)
  with_nulls_at (m ∷ ns) (y ∷ xs) zero n x e f = ground (arith, e, f)
  with_nulls_at (m ∷ ns) (y ∷ xs) (suc i) n x e f = with_nulls_at ns xs i n x e f

  pub elem_at : (xs : List A) (i : ℕ) → i < length xs → (x : A) × (get_elem? xs i ≡ some x)
  elem_at [] i h = elim h [ ]
  elem_at (x ∷ xs) zero h = (x, refl)
  elem_at (x ∷ xs) (suc i) h = elem_at xs i (omega arith)

  pub none_at : (xs : List A) (i : ℕ) → length xs ≤ i → get_elem? xs i ≡ none
  none_at [] i h = refl
  none_at (x ∷ xs) zero h = ground arith
  none_at (x ∷ xs) (suc i) h = none_at xs i (omega arith)

pub with_nulls-append :
    {A : Type 0}
    → (ns : List Bool) (xs : List A) (n : Bool) (x : A) → length ns ≡ length xs
    → with_nulls (ns ++ (n ∷ [])) (xs ++ (x ∷ []))
      ≡ with_nulls ns xs ++ ((if n then none else some x) ∷ [])
unfolding with_nulls
with_nulls-append [] [] n x h = refl
with_nulls-append [] (y ∷ xs) n x h = ground (arith, h)
with_nulls-append (m ∷ ns) [] n x h = ground (arith, h)
with_nulls-append (m ∷ ns) (y ∷ xs) n x h =
    ap (λ l. (if m then none else some y) ∷ l) (with_nulls-append ns xs n x (omega arith))

pub with_nulls-set_null :
    {A : Type 0}
    → (ns : List Bool) (xs : List A) (i : ℕ)
    → with_nulls (set ns i true) xs ≡ set (with_nulls ns xs) i none
unfolding with_nulls
with_nulls-set_null [] xs i = refl
with_nulls-set_null (n ∷ ns) [] zero = refl
with_nulls-set_null (n ∷ ns) [] (suc i) = refl
with_nulls-set_null (n ∷ ns) (x ∷ xs) zero = refl
with_nulls-set_null (n ∷ ns) (x ∷ xs) (suc i) =
    ap (λ l. (if n then none else some x) ∷ l) (with_nulls-set_null ns xs i)

pub with_nulls-set_null_both :
    {A : Type 0}
    → (ns : List Bool) (xs : List A) (i : ℕ) (x : A)
    → with_nulls (set ns i true) (set xs i x) ≡ set (with_nulls ns xs) i none
unfolding with_nulls
with_nulls-set_null_both [] xs i y = refl
with_nulls-set_null_both (n ∷ ns) [] zero y = refl
with_nulls-set_null_both (n ∷ ns) [] (suc i) y = refl
with_nulls-set_null_both (n ∷ ns) (x ∷ xs) zero y = refl
with_nulls-set_null_both (n ∷ ns) (x ∷ xs) (suc i) y =
    ap (λ l. (if n then none else some x) ∷ l) (with_nulls-set_null_both ns xs i y)

pub with_nulls-set :
    {A : Type 0}
    → (ns : List Bool) (xs : List A) (i : ℕ) (x : A)
    → with_nulls (set ns i false) (set xs i x) ≡ set (with_nulls ns xs) i (some x)
unfolding with_nulls
with_nulls-set [] xs i y = refl
with_nulls-set (n ∷ ns) [] zero y = refl
with_nulls-set (n ∷ ns) [] (suc i) y = refl
with_nulls-set (n ∷ ns) (x ∷ xs) zero y = refl
with_nulls-set (n ∷ ns) (x ∷ xs) (suc i) y =
    ap (λ l. (if n then none else some x) ∷ l) (with_nulls-set ns xs i y)
