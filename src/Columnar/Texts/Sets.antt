-- ===== src/Columnar/Texts/Sets.antt =====
-- Writing at a row of a bytes column writes the list that it stands for.
use snapdb.Prelude.{
  ℕ, ◌≡◌, refl, sym, ap, subst, ◌∙◌, true, false, Option, none, some, List, [], ltb, length, set,
  arith, length-set,
}
use snapdb.Prelude.Eq.{nat_eq}
use snapdb.Result.{ok}
use snapdb.Value.{codes_eq}
use snapdb.Columnar.Nulls.{with_nulls, with_nulls-set_null_both, with_nulls-set}
use snapdb.Columnar.Texts.{Blob, Texts, add_to_dict, set_item, data_set, codes_set}
use snapdb.Columnar.Texts.View.{
  value_at, chosen, View, raw, coded, chosen-set, elem_in, Added, has_code, overflows,
}
use snapdb.Columnar.Texts.Writes.{
  Follows, in_range-set, one_in, null_in, value_at_lem, add_to_dict-Added,
}

both_set :
    {A B : Type 0}
    → (ns : List A) (xs : List B) (i : ℕ) (n : A) (x : B) → length ns ≡ length xs
    → length (set ns i n) ≡ length (set xs i x)
both_set ns xs i n x l = length-set ns i n ∙ l ∙ sym (length-set xs i x)

-- Writing at a row that is there writes the list.
pub set_item-View :
    (c : Texts) (os : List (Option Blob)) (idx : ℕ) (o : Option Blob)
    → View c os
    → ltb idx (length c.nullmask) ≡ true
    → Follows (set_item idx o c) (set os idx o)
unfolding data_set codes_set
set_item-View c os idx none (raw m l e) h =
    subst (λ out. Follows out (set os idx none)) (sym into)
      (
        refl,
        raw m (both_set c.nullmask c.data_ idx true [] l)
            (with_nulls-set_null_both c.nullmask c.data_ idx [] ∙ ap (λ r. set r idx none) e),
      )
  where
    into :
        set_item idx none c
        ≡ (ok tt, data_set idx [] (record c { nullmask = set c.nullmask idx true }))
    into = unfold set_item in ground (arith, m, h)
set_item-View c os idx (some b) (raw m l e) h =
    subst (λ out. Follows out (set os idx (some b))) (sym into)
      (
        refl,
        raw m (both_set c.nullmask c.data_ idx false b l)
            (with_nulls-set c.nullmask c.data_ idx b ∙ ap (λ r. set r idx (some b)) e),
      )
  where
    into :
        set_item idx (some b) c
        ≡ (ok tt, data_set idx b (record c { nullmask = set c.nullmask idx false }))
    into = unfold set_item in ground (arith, m, h)
set_item-View c os idx none (coded m f s r l e) h =
    subst (λ out. Follows out (set os idx none)) (sym into)
      (
        refl,
        coded m f s
            (in_range-set c.nullmask c.dict_codes idx true 0 (length c.dict_values) r
              (null_in (length c.dict_values)))
            (both_set c.nullmask c.dict_codes idx true 0 l)
            (ap (with_nulls (set c.nullmask idx true)) (chosen-set c.dict_values c.dict_codes idx 0)
              ∙ with_nulls-set_null_both c.nullmask (chosen c.dict_values c.dict_codes) idx
                  (value_at c.dict_values 0)
              ∙ ap (λ q. set q idx none) e),
      )
  where
    into :
        set_item idx none c
        ≡ (ok tt, codes_set idx 0 (record c { nullmask = set c.nullmask idx true }))
    into = unfold set_item in ground (arith, m, f, h)
set_item-View c os idx (some b) (coded m f s r l e) h =
    go (add_to_dict-Added noted c.nullmask b m f s r l)
  where
    noted : Texts
    noted = record c { nullmask = set c.nullmask idx false }

    go :
        Added noted c.nullmask b (add_to_dict b noted)
        → Follows (set_item idx (some b) c) (set os idx (some b))
    go (has_code k dict values p s' g r' same) =
        subst (λ out. Follows out (set os idx (some b))) (sym into)
          (
            refl,
            coded m f s'
                (in_range-set c.nullmask c.dict_codes idx false k (length values) r'
                  (one_in false k (length values) (elem_in values k b g)))
                (both_set c.nullmask c.dict_codes idx false k l)
                (ap (with_nulls (set c.nullmask idx false)) (chosen-set values c.dict_codes idx k)
                  ∙ with_nulls-set c.nullmask (chosen values c.dict_codes) idx (value_at values k)
                  ∙ ap (λ q. set q idx (some (value_at values k))) (same ∙ e)
                  ∙ ap (λ v. set os idx (some v)) (value_at_lem values k b g)),
          )
      where
        into :
            set_item idx (some b) c
            ≡ (ok tt, codes_set idx k (record noted { dict = dict; dict_values = values }))
        into = unfold set_item in ground (arith, m, f, h, p)
    go (overflows raws p lr same) =
        subst (λ out. Follows out (set os idx (some b))) (sym into)
          (
            refl,
            raw refl (both_set c.nullmask raws idx false b (l ∙ sym lr))
                (with_nulls-set c.nullmask raws idx b ∙ ap (λ q. set q idx (some b)) (same ∙ e)),
          )
      where
        into : set_item idx (some b) c ≡ (
          ok tt,
          data_set idx b (record noted {
            dict_fallback = true;
            data_ = raws;
            dict_mode = false;
            dict = [];
            dict_values = [];
            dict_codes = [];
          }),
        )
        into = unfold set_item in ground (arith, m, f, h, p)
