-- ===== src/Columnar/Texts/Reads.antt =====
-- Reading a bytes column gives the list that it stands for, each value decoded.
use snapdb.Prelude.{
  ℕ, zero, suc, ◌+◌, ◌<◌, ◌≡◌, refl, sym, ap, subst, ◌∙◌, Bool, true, false, Option, none, some,
  Bool-cases, inl, inr, List, [], ◌∷◌, ltb, length, get_elem?, if◌then◌else◌, arith, map,
}
use snapdb.Result.{Result, ok, err}
use snapdb.Columnar.Nulls.{at_index, elem_at, none_at, with_nulls_at}
use snapdb.Columnar.Texts.{Blob, Texts, get_value, get_bytes, get_item, decoded, rows_from, to_list}
use snapdb.Columnar.Texts.View.{value_at, chosen, in_range, View, raw, coded}
use snapdb.Columnar.Texts.Writes.{rows_of}

chosen_at :
    (vs : List Blob) (ks : List ℕ) (i k : ℕ)
    → get_elem? ks i ≡ some k
    → get_elem? (chosen vs ks) i ≡ some (value_at vs k)
unfolding chosen
chosen_at vs [] i k e = ground (arith, e)
chosen_at vs (j ∷ ks) zero k e = ground (arith, e)
chosen_at vs (j ∷ ks) (suc i) k e = chosen_at vs ks i k e

-- A row that is not null has a code of the dictionary.
has_value :
    (ns : List Bool) (ks : List ℕ) (n i k : ℕ)
    → in_range ns ks n ≡ true
    → get_elem? ns i ≡ some false
    → get_elem? ks i ≡ some k
    → k < n
unfolding in_range
has_value [] ks n i k h e f = ground (arith, e)
has_value (b ∷ ns) [] n i k h e f = ground (arith, f)
has_value (b ∷ ns) (j ∷ ks) n zero k h e f = ground (arith, h, e, f)
has_value (b ∷ ns) (j ∷ ks) n (suc i) k h e f = has_value ns ks n i k (ground (arith, h)) e f

-- The value at a row that is not null
get_value-View :
    (c : Texts) (os : List (Option Blob)) (i : ℕ)
    → View c os
    → get_elem? c.nullmask i ≡ some false
    → i < length c.nullmask
    → (b : Blob) × (get_value c i ≡ ok b) × (get_elem? os i ≡ some (some b))
get_value-View c os i (raw m l e) n h =
    let (b, p) = elem_at c.data_ i (omega (arith, l, h)) in
    let shows : get_elem? os i ≡ some (some b) =
      subst (λ r. get_elem? r i ≡ some (some b)) e
        (with_nulls_at c.nullmask c.data_ i false b n p) in
    (b, unfold get_value at_index in ground (arith, m, p), shows)
get_value-View c os i (coded m f s r l e) n h =
    let (k, p) = elem_at c.dict_codes i (omega (arith, l, h)) in
    let (b, q) =
      elem_at c.dict_values k
        (has_value c.nullmask c.dict_codes (length c.dict_values) i k r n p) in
    let same : value_at c.dict_values k ≡ b = unfold value_at in ground (arith, q) in
    let shows : get_elem? os i ≡ some (some b) =
      subst (λ r. get_elem? r i ≡ some (some b)) e
        (with_nulls_at c.nullmask (chosen c.dict_values c.dict_codes) i false
            (value_at c.dict_values k) n (chosen_at c.dict_values c.dict_codes i k p)
          ∙ ap (λ v. some (some v)) same) in
    (b, unfold get_value at_index in ground (arith, m, f, p, q), shows)

null_row :
    (c : Texts) (os : List (Option Blob)) (i : ℕ)
    → View c os
    → get_elem? c.nullmask i ≡ some true
    → i < length c.nullmask
    → get_elem? os i ≡ some none
null_row c os i (raw m l e) n h =
    let (b, p) = elem_at c.data_ i (omega (arith, l, h)) in
    subst (λ r. get_elem? r i ≡ some none) e (with_nulls_at c.nullmask c.data_ i true b n p)
null_row c os i (coded m f s r l e) n h =
    let (k, p) = elem_at c.dict_codes i (omega (arith, l, h)) in
    subst (λ r. get_elem? r i ≡ some none) e
      (with_nulls_at c.nullmask (chosen c.dict_values c.dict_codes) i true
        (value_at c.dict_values k) n (chosen_at c.dict_values c.dict_codes i k p))

-- `__getitem__` up to the decoding reads the list, an IndexError included.
pub get_bytes_lem :
    (c : Texts) (os : List (Option Blob)) (i : ℕ) → View c os → get_bytes c i ≡ at_index os i
get_bytes_lem c os i h = elim (Bool-cases (ltb i (length c.nullmask))) [
  | inl p ↦
      let here : i < length c.nullmask = ground (arith, p) in
      let (n, e) = elem_at c.nullmask i here in
      elim (Bool-cases n) [
        | inl t ↦
            let e' : get_elem? c.nullmask i ≡ some true = e ∙ ap (λ x. some x) t in
            let r : get_elem? os i ≡ some none = null_row c os i h e' here in
            unfold get_bytes at_index in ground (arith, e', r)
        | inr t ↦
            let e' : get_elem? c.nullmask i ≡ some false = e ∙ ap (λ x. some x) t in
            let (b, v, r) = get_value-View c os i h e' here in
            unfold get_bytes at_index in ground (arith, e', v, r)
      ]
  | inr p ↦
      let e : get_elem? c.nullmask i ≡ none = none_at c.nullmask i (ground (arith, p)) in
      let r : get_elem? os i ≡ none = none_at os i (ground (arith, p, rows_of c os h)) in
      unfold get_bytes at_index in ground (arith, e, r)
]

pub decode_all : List (Option Blob) → List (Option (List ℕ))
decode_all os = map decoded os

decode_at :
    (os : List (Option Blob)) (i : ℕ)
    → at_index (map decoded os) i ≡ elim (at_index os i) [ ok o ↦ ok (decoded o) | err e ↦ err e ]
unfolding at_index
decode_at [] i = refl
decode_at (o ∷ os) zero = refl
decode_at (o ∷ os) (suc i) = decode_at os i

-- `__getitem__` reads the list, decoded.
pub get_item_lem :
    (c : Texts) (os : List (Option Blob)) (i : ℕ)
    → View c os
    → get_item c i ≡ at_index (map decoded os) i
unfolding get_item
get_item_lem c os i h =
    ap (λ r. elim r [ ok o ↦ ok (decoded o) | err e ↦ err e ]) (get_bytes_lem c os i h)
    ∙ sym (decode_at os i)

row : Texts → Bool → ℕ → Result (Option Blob)
row c n i = if n then ok none else elim (get_value c i) [ ok b ↦ ok (some b) | err e ↦ err e ]

rows_from_lem :
    (c : Texts) (ns : List Bool) (os : List (Option Blob)) (i : ℕ)
    → length os ≡ length ns
    → ((j : ℕ) (n : Bool) → get_elem? ns j ≡ some n → row c n (i + j) ≡ at_index os j)
    → rows_from c i ns ≡ ok (map decoded os)
unfolding rows_from row at_index
rows_from_lem c [] [] i l h = refl
rows_from_lem c [] (o ∷ os) i l h = ground (arith, l)
rows_from_lem c (n ∷ ns) [] i l h = ground (arith, l)
rows_from_lem c (n ∷ ns) (o ∷ os) i l h =
    let z : i + 0 ≡ i = omega arith in
    let here : row c n i ≡ ok o = ap (row c n) (sym z) ∙ h 0 n refl in
    let rest : rows_from c (suc i) ns ≡ ok (map decoded os) =
      rows_from_lem c ns os (suc i) (omega (arith, l))
        (λ j m e. ap (row c m) (shift i j) ∙ h (suc j) m e) in
    ground (arith, here, rest)
  where
    shift : (i j : ℕ) → suc i + j ≡ i + suc j
    shift i j = omega arith

-- `tolist` gives the list, decoded.
pub to_list_lem :
    (c : Texts) (os : List (Option Blob)) → View c os → to_list c ≡ ok (map decoded os)
unfolding to_list
to_list_lem c os h =
    rows_from_lem c c.nullmask os 0 (rows_of c os h)
      (λ j n e. ap (row c n) (none_more j) ∙ sym (reads j n e) ∙ get_bytes_lem c os j h)
  where
    none_more : (j : ℕ) → 0 + j ≡ j
    none_more j = omega arith

    reads : (j : ℕ) (n : Bool) → get_elem? c.nullmask j ≡ some n → get_bytes c j ≡ row c n j
    reads j n e = unfold get_bytes row at_index in ground (arith, e)
