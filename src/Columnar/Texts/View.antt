-- ===== src/Columnar/Texts/View.antt =====
-- What a bytes column stands for, and that its dictionary keeps it.
use snapdb.Prelude.{
  ℕ, zero, suc, ◌<◌, ◌≤◌, ◌≡◌, refl, ap, ◌∙◌, Bool, true, false, ◌&&◌, ◌||◌, Option, none, some,
  List, [], ◌∷◌, ◌++◌, ltb, length, get_elem?, set, arith,
}
use snapdb.Prelude.Eq.{◌==◌, nat_eq}
use snapdb.Prelude.Dict
use snapdb.Prelude.Dict.{Dict, get-put}
use snapdb.Result.{Result, ok}
use snapdb.Value.{codes_eq}
use snapdb.Columnar.Nulls.{at_index, with_nulls}
use snapdb.Columnar.Texts.{Blob, Texts, values_of}

-- The value of a code
unfoldable pub value_at : List Blob → ℕ → Blob
value_at values k = elim (get_elem? values k) [ none ↦ [] | some b ↦ b ]

unfoldable pub chosen : List Blob → List ℕ → List Blob
unfolding value_at
chosen values [] = []
chosen values (k ∷ ks) = value_at values k ∷ chosen values ks

-- The codes are in the dictionary; a null may also have code 0 while that is empty.
unfoldable pub in_range : List Bool → List ℕ → ℕ → Bool
in_range [] ks n = true
in_range (null ∷ ns) [] n = true
in_range (null ∷ ns) (k ∷ ks) n = (ltb k n || null && k == 0) && in_range ns ks n

abbrev pub Sound : Dict Blob ℕ → List Blob → Type 0
Sound dict values = (b : Blob) (k : ℕ) → Dict.get dict b ≡ some k → get_elem? values k ≡ some b

-- The column stands for the list, plain or by codes.
pub data View (c : Texts) (os : List (Option Blob)) : Type 0 where
  raw :
      c.dict_mode ≡ false
      → length c.nullmask ≡ length c.data_
      → with_nulls c.nullmask c.data_ ≡ os
      → View c os
  coded :
      c.dict_mode ≡ true
      → c.dict_fallback ≡ false
      → Sound c.dict c.dict_values
      → in_range c.nullmask c.dict_codes (length c.dict_values) ≡ true
      → length c.nullmask ≡ length c.dict_codes
      → with_nulls c.nullmask (chosen c.dict_values c.dict_codes) ≡ os
      → View c os

pub length-chosen : (vs : List Blob) (ks : List ℕ) → length (chosen vs ks) ≡ length ks
unfolding chosen
length-chosen vs [] = refl
length-chosen vs (k ∷ ks) = ap suc (length-chosen vs ks)

pub chosen-append :
    (vs : List Blob) (ks : List ℕ) (k : ℕ)
    → chosen vs (ks ++ (k ∷ [])) ≡ chosen vs ks ++ (value_at vs k ∷ [])
unfolding chosen
chosen-append vs [] k = refl
chosen-append vs (j ∷ ks) k = ap (λ l. value_at vs j ∷ l) (chosen-append vs ks k)

pub chosen-set :
    (vs : List Blob) (ks : List ℕ) (i k : ℕ)
    → chosen vs (set ks i k) ≡ set (chosen vs ks) i (value_at vs k)
unfolding chosen
chosen-set vs [] i k = refl
chosen-set vs (j ∷ ks) zero k = refl
chosen-set vs (j ∷ ks) (suc i) k = ap (λ l. value_at vs j ∷ l) (chosen-set vs ks i k)

pub elem_kept :
    {A : Type 0}
    → (vs : List A) (v : A) (k : ℕ) → k < length vs
    → get_elem? (vs ++ (v ∷ [])) k ≡ get_elem? vs k
elem_kept [] v k h = elim h [ ]
elem_kept (w ∷ vs) v zero h = refl
elem_kept (w ∷ vs) v (suc k) h = elem_kept vs v k (omega arith)

pub elem_new :
    {A : Type 0} → (vs : List A) (v : A) → get_elem? (vs ++ (v ∷ [])) (length vs) ≡ some v
elem_new [] v = refl
elem_new (w ∷ vs) v = elem_new vs v

pub elem_in : {A : Type 0} → (vs : List A) (k : ℕ) (v : A) → get_elem? vs k ≡ some v → k < length vs
elem_in [] k v e = ground (arith, e)
elem_in (w ∷ vs) zero v e = omega arith
elem_in (w ∷ vs) (suc k) v e = omega (arith, elem_in vs k v e)

-- A value more in the dictionary shows nowhere.
pub shown_same :
    (ns : List Bool) (ks : List ℕ) (vs : List Blob) (b : Blob)
    → in_range ns ks (length vs) ≡ true
    → with_nulls ns (chosen (vs ++ (b ∷ [])) ks) ≡ with_nulls ns (chosen vs ks)
unfolding with_nulls chosen in_range value_at
shown_same [] ks vs b h = refl
shown_same (n ∷ ns) [] vs b h = refl
shown_same (true ∷ ns) (k ∷ ks) vs b h =
    ap (λ l. none ∷ l) (shown_same ns ks vs b (ground (arith, h)))
shown_same (false ∷ ns) (k ∷ ks) vs b h =
    let below : k < length vs = ground (arith, h) in
    ap (λ o. some (elim o [ none ↦ [] | some x ↦ x ]) ∷ with_nulls ns (chosen (vs ++ (b ∷ [])) ks))
      (elem_kept vs b k below)
    ∙ ap (λ l. some (value_at vs k) ∷ l) (shown_same ns ks vs b (ground (arith, h)))

pub in_range_mono :
    (ns : List Bool) (ks : List ℕ) (m n : ℕ)
    → m ≤ n
    → in_range ns ks m ≡ true
    → in_range ns ks n ≡ true
unfolding in_range
in_range_mono [] ks m n l h = refl
in_range_mono (b ∷ ns) [] m n l h = refl
in_range_mono (b ∷ ns) (k ∷ ks) m n l h = ground (arith, l, h, in_range_mono ns ks m n l)

-- With a value in the dictionary every code reads.
pub values_of_lem :
    (ns : List Bool) (ks : List ℕ) (vs : List Blob)
    → length ns ≡ length ks
    → 0 < length vs
    → in_range ns ks (length vs) ≡ true
    → values_of vs ks ≡ ok (chosen vs ks)
unfolding values_of chosen value_at in_range at_index
values_of_lem ns [] vs l p h = refl
values_of_lem [] (k ∷ ks) vs l p h = ground (arith, l)
values_of_lem (n ∷ ns) (k ∷ ks) vs l p h =
    let below : k < length vs = ground (arith, p, h) in
    let rest : values_of vs ks ≡ ok (chosen vs ks) =
      values_of_lem ns ks vs (omega arith) p (ground (arith, h)) in
    let (b, e) = elem vs k below in ground (arith, e, rest)
  where
    elem : (xs : List Blob) (i : ℕ) → i < length xs → (x : Blob) × (get_elem? xs i ≡ some x)
    elem [] i h = elim h [ ]
    elem (x ∷ xs) zero h = (x, refl)
    elem (x ∷ xs) (suc i) h = elem xs i (omega arith)

-- What adding a value to the dictionary leaves, for rows under any null mask
pub data Added (c : Texts) (ns : List Bool) (b : Blob) (out : Result (Option ℕ) × Texts)
    : Type 0 where
  has_code :
      (code : ℕ) (dict : Dict Blob ℕ) (values : List Blob)
      → out ≡ (ok (some code), record c { dict = dict; dict_values = values })
      → Sound dict values
      → get_elem? values code ≡ some b
      → in_range ns c.dict_codes (length values) ≡ true
      → with_nulls ns (chosen values c.dict_codes)
        ≡ with_nulls ns (chosen c.dict_values c.dict_codes)
      → Added c ns b out
  overflows :
      (raws : List Blob)
      → out ≡ (
        ok none,
        record c {
          dict_fallback = true;
          data_ = raws;
          dict_mode = false;
          dict = [];
          dict_values = [];
          dict_codes = [];
        },
      )
      → length raws ≡ length c.dict_codes
      → with_nulls ns raws ≡ with_nulls ns (chosen c.dict_values c.dict_codes)
      → Added c ns b out
