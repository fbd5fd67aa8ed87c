-- ===== src/Columnar/Texts/Writes.antt =====
-- Writing a bytes column writes the list that it stands for.
use snapdb.Prelude.{
  ℕ, zero, suc, ◌+◌, ◌<◌, ◌≡◌, refl, sym, ap, subst, ◌∙◌, Bool, true, false, Option, none, some,
  Option-cases, Bool-cases, inl, inr, List, [], ◌∷◌, ◌++◌, leb, length, get_elem?, set,
  if◌then◌else◌, arith, length-append,
}
use snapdb.Prelude.Eq.{nat_eq}
use snapdb.Prelude.Dict
use snapdb.Prelude.Dict.{Dict, get-put}
use snapdb.Result.{Result, ok}
use snapdb.Value.{codes_eq, eq_codes, eq_codes_iff}
use snapdb.Columnar.Nulls.{with_nulls, length-with_nulls, with_nulls-append}
use snapdb.Columnar.Texts.{
  Blob, Texts, values_of, convert_to_raw, add_to_dict, append, data_append, codes_append,
}
use snapdb.Columnar.Texts.View.{
  value_at, chosen, in_range, Sound, View, raw, coded, length-chosen, chosen-append, elem_kept,
  elem_new, elem_in, shown_same, in_range_mono, values_of_lem, Added, has_code, overflows,
}

put-Sound :
    (dict : Dict Blob ℕ) (values : List Blob) (b : Blob)
    → Sound dict values
    → Sound (Dict.put dict b (length values)) (values ++ (b ∷ []))
put-Sound dict values b h j k e = elim (Bool-cases (eq_codes b j)) [
  | inl p ↦
      let same : b ≡ j = (eq_codes_iff b j).0 p in
      let code : k ≡ length values = ground (arith, e, get-put dict b j (length values), p) in
      subst (λ v. get_elem? (values ++ (b ∷ [])) k ≡ some v) same
        (subst (λ i. get_elem? (values ++ (b ∷ [])) i ≡ some b) (sym code) (elem_new values b))
  | inr p ↦
      let old : Dict.get dict j ≡ some k = ground (arith, e, get-put dict b j (length values), p) in
      elem_kept values b k (elem_in values k j (h j k old)) ∙ h j k old
]

module _ (c : Texts) (ns : List Bool) (b : Blob) where
  -- `_add_to_dict` gives the value a code or turns the column plain; every row shows as before.
  pub add_to_dict-Added :
      c.dict_mode ≡ true
      → c.dict_fallback ≡ false
      → Sound c.dict c.dict_values
      → in_range ns c.dict_codes (length c.dict_values) ≡ true
      → length ns ≡ length c.dict_codes
      → Added c ns b (add_to_dict b c)
  add_to_dict-Added m f s r l = elim (Option-cases (Dict.get c.dict b)) [
    | inr (k, e) ↦ has_code k c.dict c.dict_values (known k e) s (s b k e) r refl
    | inl e ↦ elim (Bool-cases (leb c.dict_threshold (length c.dict_values))) [
      | inl full ↦
          overflows (chosen values c.dict_codes) (falls e full) (length-chosen values c.dict_codes)
            same
      | inr fair ↦
          has_code (length c.dict_values) (Dict.put c.dict b (length c.dict_values)) values
            (grows e fair) (put-Sound c.dict c.dict_values b s) (elem_new c.dict_values b) wider
            same
    ]
  ]
    where
      values : List Blob
      values = c.dict_values ++ (b ∷ [])

      added : Texts
      added = record c { dict = Dict.put c.dict b (length c.dict_values); dict_values = values }

      more : length values ≡ length c.dict_values + 1
      more = length-append c.dict_values (b ∷ [])

      wider : in_range ns c.dict_codes (length values) ≡ true
      wider =
          in_range_mono ns c.dict_codes (length c.dict_values) (length values) (omega (arith, more))
            r

      same :
          with_nulls ns (chosen values c.dict_codes)
          ≡ with_nulls ns (chosen c.dict_values c.dict_codes)
      same = shown_same ns c.dict_codes c.dict_values b r

      all : values_of values c.dict_codes ≡ ok (chosen values c.dict_codes)
      all = values_of_lem ns c.dict_codes values l (omega (arith, more)) wider

      known : (k : ℕ) → Dict.get c.dict b ≡ some k → add_to_dict b c ≡ (ok (some k), c)
      known k e = unfold add_to_dict in ground (arith, e)

      grows :
          Dict.get c.dict b ≡ none
          → leb c.dict_threshold (length c.dict_values) ≡ false
          → add_to_dict b c ≡ (ok (some (length c.dict_values)), added)
      grows e p = unfold add_to_dict in ground (arith, e, p)

      falls :
          Dict.get c.dict b ≡ none
          → leb c.dict_threshold (length c.dict_values) ≡ true
          → add_to_dict b c ≡ (
            ok none,
            record c {
              dict_fallback = true;
              data_ = chosen values c.dict_codes;
              dict_mode = false;
              dict = [];
              dict_values = [];
              dict_codes = [];
            },
          )
      falls e p = unfold add_to_dict convert_to_raw in ground (arith, e, p, m, f, all)

-- An operation that succeeded, and the list afterwards
abbrev pub Follows : Result (Unit {0}) × Texts → List (Option Blob) → Type 0
Follows out os = (out.0 ≡ ok tt) × View out.1 os

in_range-append :
    (ns : List Bool) (ks : List ℕ) (n : Bool) (k m : ℕ)
    → length ns ≡ length ks
    → in_range ns ks m ≡ true
    → in_range (n ∷ []) (k ∷ []) m ≡ true
    → in_range (ns ++ (n ∷ [])) (ks ++ (k ∷ [])) m ≡ true
unfolding in_range
in_range-append [] [] n k m l h g = ground (arith, g)
in_range-append [] (j ∷ ks) n k m l h g = ground (arith, l)
in_range-append (b ∷ ns) [] n k m l h g = ground (arith, l)
in_range-append (b ∷ ns) (j ∷ ks) n k m l h g = ground (arith, h, g, in_range-append ns ks n k m, l)

pub in_range-set :
    (ns : List Bool) (ks : List ℕ) (i : ℕ) (n : Bool) (k m : ℕ)
    → in_range ns ks m ≡ true
    → in_range (n ∷ []) (k ∷ []) m ≡ true
    → in_range (set ns i n) (set ks i k) m ≡ true
unfolding in_range
in_range-set [] ks i n k m h g = refl
in_range-set (b ∷ ns) [] zero n k m h g = refl
in_range-set (b ∷ ns) [] (suc i) n k m h g = refl
in_range-set (b ∷ ns) (j ∷ ks) zero n k m h g = ground (arith, h, g)
in_range-set (b ∷ ns) (j ∷ ks) (suc i) n k m h g = ground (arith, h, in_range-set ns ks i n k m, g)

pub one_in : (n : Bool) (k m : ℕ) → k < m → in_range (n ∷ []) (k ∷ []) m ≡ true
unfolding in_range
one_in n k m h = ground (arith, h)

pub null_in : (m : ℕ) → in_range (true ∷ []) (0 ∷ []) m ≡ true
unfolding in_range
null_in m = ground arith

pub value_at_lem : (vs : List Blob) (k : ℕ) (b : Blob) → get_elem? vs k ≡ some b → value_at vs k ≡ b
unfolding value_at
value_at_lem vs k b e = ground (arith, e)

one_more :
    {A B : Type 0}
    → (ns : List A) (xs : List B) (n : A) (x : B) → length ns ≡ length xs
    → length (ns ++ (n ∷ [])) ≡ length (xs ++ (x ∷ []))
one_more ns xs n x h = omega (arith, h, length-append ns (n ∷ []), length-append xs (x ∷ []))

-- The last row behind a list
shown-append :
    (ns : List Bool) (xs : List Blob) (n : Bool) (x : Blob) (os : List (Option Blob))
    → length ns ≡ length xs
    → with_nulls ns xs ≡ os
    → with_nulls (ns ++ (n ∷ [])) (xs ++ (x ∷ [])) ≡ os ++ ((if n then none else some x) ∷ [])
shown-append ns xs n x os l e =
    with_nulls-append ns xs n x l ∙ ap (λ r. r ++ ((if n then none else some x) ∷ [])) e

codes_shown-append :
    (ns : List Bool) (vs : List Blob) (ks : List ℕ) (n : Bool) (k : ℕ) (os : List (Option Blob))
    → length ns ≡ length ks
    → with_nulls ns (chosen vs ks) ≡ os
    → with_nulls (ns ++ (n ∷ [])) (chosen vs (ks ++ (k ∷ [])))
      ≡ os ++ ((if n then none else some (value_at vs k)) ∷ [])
codes_shown-append ns vs ks n k os l e =
    ap (with_nulls (ns ++ (n ∷ []))) (chosen-append vs ks k)
    ∙ shown-append ns (chosen vs ks) n (value_at vs k) os (l ∙ sym (length-chosen vs ks)) e

-- Appending puts the bytes or the null behind the others.
pub append-View :
    (c : Texts) (os : List (Option Blob)) (o : Option Blob)
    → View c os
    → Follows (append o c) (os ++ (o ∷ []))
unfolding data_append codes_append
append-View c os none (raw m l e) =
    subst (λ out. Follows out (os ++ (none ∷ []))) (sym into)
      (
        refl,
        raw m (one_more c.nullmask c.data_ true [] l)
            (shown-append c.nullmask c.data_ true [] os l e),
      )
  where
    into :
        append none c ≡ (ok tt, data_append [] (record c { nullmask = c.nullmask ++ (true ∷ []) }))
    into = unfold append in ground (arith, m)
append-View c os (some b) (raw m l e) =
    subst (λ out. Follows out (os ++ (some b ∷ []))) (sym into)
      (
        refl,
        raw m (one_more c.nullmask c.data_ false b l)
            (shown-append c.nullmask c.data_ false b os l e),
      )
  where
    into :
        append (some b) c
        ≡ (ok tt, data_append b (record c { nullmask = c.nullmask ++ (false ∷ []) }))
    into = unfold append in ground (arith, m)
append-View c os none (coded m f s r l e) =
    subst (λ out. Follows out (os ++ (none ∷ []))) (sym into)
      (
        refl,
        coded m f s
            (in_range-append c.nullmask c.dict_codes true 0 (length c.dict_values) l r
              (null_in (length c.dict_values)))
            (one_more c.nullmask c.dict_codes true 0 l)
            (codes_shown-append c.nullmask c.dict_values c.dict_codes true 0 os l e),
      )
  where
    into :
        append none c ≡ (ok tt, codes_append 0 (record c { nullmask = c.nullmask ++ (true ∷ []) }))
    into = unfold append in ground (arith, m, f)
append-View c os (some b) (coded m f s r l e) = go (add_to_dict-Added noted c.nullmask b m f s r l)
  where
    noted : Texts
    noted = record c { nullmask = c.nullmask ++ (false ∷ []) }

    go :
        Added noted c.nullmask b (add_to_dict b noted)
        → Follows (append (some b) c) (os ++ (some b ∷ []))
    go (has_code k dict values p s' g r' same) =
        subst (λ out. Follows out (os ++ (some b ∷ []))) (sym into)
          (
            refl,
            coded m f s'
                (in_range-append c.nullmask c.dict_codes false k (length values) l r'
                  (one_in false k (length values) (elem_in values k b g)))
                (one_more c.nullmask c.dict_codes false k l)
                (codes_shown-append c.nullmask values c.dict_codes false k os l (same ∙ e)
                  ∙ ap (λ v. os ++ (some v ∷ [])) (value_at_lem values k b g)),
          )
      where
        into :
            append (some b) c
            ≡ (ok tt, codes_append k (record noted { dict = dict; dict_values = values }))
        into = unfold append in ground (arith, m, f, p)
    go (overflows raws p lr same) =
        subst (λ out. Follows out (os ++ (some b ∷ []))) (sym into)
          (
            refl,
            raw refl (one_more c.nullmask raws false b (l ∙ sym lr))
                (shown-append c.nullmask raws false b os (l ∙ sym lr) (same ∙ e)),
          )
      where
        into : append (some b) c ≡ (
          ok tt,
          data_append b (record noted {
            dict_fallback = true;
            data_ = raws;
            dict_mode = false;
            dict = [];
            dict_values = [];
            dict_codes = [];
          }),
        )
        into = unfold append in ground (arith, m, f, p)

pub rows_of : (c : Texts) (os : List (Option Blob)) → View c os → length os ≡ length c.nullmask
rows_of c os (raw m l e) = ap length (sym e) ∙ length-with_nulls c.nullmask c.data_ l ∙ sym l
rows_of c os (coded m f s r l e) =
    ap length (sym e)
    ∙ length-with_nulls c.nullmask (chosen c.dict_values c.dict_codes)
        (l ∙ sym (length-chosen c.dict_values c.dict_codes))
    ∙ length-chosen c.dict_values c.dict_codes
    ∙ sym l
