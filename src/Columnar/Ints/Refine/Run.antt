-- ===== src/Columnar/Ints/Refine/Run.antt =====
-- Changes of an integer column in turn, against the same changes of a list.
use snapdb.Prelude.{
  ℕ, ◌≡◌, refl, sym, ap, subst, ◌∙◌, Bool, true, false, Option, none, some, List, [], ◌∷◌, arith,
  Bool-cases, inl, inr, ltb, length, if◌then◌else◌, set, length-set,
}
use snapdb.Prelude.Int.{ℤ, pos}
use snapdb.Result.{Result, ok, err, index_error}
use snapdb.Schema.{Code}
use snapdb.Columnar.Nulls.{
  at_index, length-with_nulls, with_nulls, with_nulls-set, with_nulls-set_null,
  with_nulls-set_null_both,
}
use snapdb.Columnar.Ints.{Ints, init, fits, all_fit}
use snapdb.Columnar.Ints.View.{plain}
use snapdb.Columnar.Ints.Access.{set_value, set_null, set_item, get_item, to_list}
use snapdb.Columnar.Ints.Refine.{
  Fits, Stores, Change, appended, written, change, list_change, run, list_run, ChangeFits,
  ChangesFit,
}
use snapdb.Columnar.Ints.Refine.Reads.{to_list_lem, get_item_lem}
use snapdb.Columnar.Ints.Refine.Writes.{
  Follows, append-Follows, Done-Follows, set_value-Done, set_null-Done, under_mask, masked-View,
  all_fit-set,
}

-- Writing at a row, once its index is checked
row_set : ℕ → Option ℤ → Ints → Result (Unit {0}) × Ints
row_set idx none c = (ok tt, set_null idx (under_mask c (set c.nullmask idx true)))
row_set idx (some v) c = set_value idx v (under_mask c (set c.nullmask idx false))

row_set-Follows :
    (c : Ints) (os : List (Option ℤ)) (idx : ℕ) (o : Option ℤ)
    → Stores c os
    → Fits c.code o
    → Follows c (row_set idx o c) (set os idx o)
unfolding row_set
row_set-Follows c os idx none h f =
    elim (set_null-Done d h.numbers idx (masked-View c ns h.numbers h.view)) [
      | inl same ↦
          Done-Follows d (ok tt, set_null idx d) h.numbers (set os idx none) same h.fit h.zero_fits
            (length-set c.nullmask idx true ∙ h.aligned)
            (with_nulls-set_null c.nullmask h.numbers idx ∙ ap (λ l. set l idx none) h.shown)
      | inr zeroed ↦
          Done-Follows d (ok tt, set_null idx d) (set h.numbers idx (pos 0)) (set os idx none)
            zeroed (all_fit-set c.code h.numbers idx (pos 0) h.fit h.zero_fits) h.zero_fits
            (length-set c.nullmask idx true ∙ h.aligned ∙ sym (length-set h.numbers idx (pos 0)))
            (with_nulls-set_null_both c.nullmask h.numbers idx (pos 0)
              ∙ ap (λ l. set l idx none) h.shown)
    ]
  where
    ns : List Bool
    ns = set c.nullmask idx true

    d : Ints
    d = under_mask c ns
row_set-Follows c os idx (some v) h f =
    Done-Follows d (set_value idx v d) (set h.numbers idx v) (set os idx (some v))
      (set_value-Done d h.numbers idx v (masked-View c ns h.numbers h.view) h.fit f)
      (all_fit-set c.code h.numbers idx v h.fit f) h.zero_fits
      (length-set c.nullmask idx false ∙ h.aligned ∙ sym (length-set h.numbers idx v))
      (with_nulls-set c.nullmask h.numbers idx v ∙ ap (λ l. set l idx (some v)) h.shown)
  where
    ns : List Bool
    ns = set c.nullmask idx false

    d : Ints
    d = under_mask c ns

set_item-rows :
    (c : Ints) (idx : ℕ) (o : Option ℤ)
    → set_item idx o c
      ≡ (if ltb idx (length c.nullmask) then row_set idx o c else (err index_error, c))
unfolding set_item row_set
set_item-rows c idx none = refl
set_item-rows c idx (some v) = refl

rows_of : (c : Ints) (os : List (Option ℤ)) → Stores c os → length c.nullmask ≡ length os
rows_of c os h =
    h.aligned ∙ sym (ap length (sym h.shown) ∙ length-with_nulls c.nullmask h.numbers h.aligned)

-- Writing at a row that is there writes the list.
pub set_item-Follows :
    (c : Ints) (os : List (Option ℤ)) (idx : ℕ) (o : Option ℤ)
    → Stores c os
    → Fits c.code o
    → ltb idx (length os) ≡ true
    → Follows c (set_item idx o c) (set os idx o)
set_item-Follows c os idx o h f in_ =
    let here : set_item idx o c ≡ row_set idx o c =
      ground (arith, set_item-rows c idx o, rows_of c os h, in_) in
    subst (λ out. Follows c out (set os idx o)) (sym here) (row_set-Follows c os idx o h f)

-- One change keeps the column and the list in step, and gives on both sides the same.
pub change-Stores :
    (c : Ints) (os : List (Option ℤ)) (k : Change)
    → Stores c os
    → ChangeFits c.code k
    → ((change k c).0 ≡ (list_change k os).0)
      × Stores (change k c).1 (list_change k os).1
      × ((change k c).1.code ≡ c.code)
unfolding change list_change
change-Stores c os (appended o) h f = append-Follows c os o h f
change-Stores c os (written idx o) h f = elim (Bool-cases (ltb idx (length os))) [
  | inl in_ ↦
      let there : list_change (written idx o) os ≡ (ok tt, set os idx o) = ground (arith, in_) in
      subst
        (λ l.
          ((set_item idx o c).0 ≡ l.0)
          × Stores (set_item idx o c).1 l.1
          × ((set_item idx o c).1.code ≡ c.code))
        (sym there) (set_item-Follows c os idx o h f in_)
  | inr out ↦
      let here : set_item idx o c ≡ (err index_error, c) =
        ground (arith, set_item-rows c idx o, rows_of c os h, out) in
      let there : list_change (written idx o) os ≡ (err index_error, os) = ground (arith, out) in
      subst
        (λ l.
          ((set_item idx o c).0 ≡ l.0)
          × Stores (set_item idx o c).1 l.1
          × ((set_item idx o c).1.code ≡ c.code))
        (sym there)
        (subst (λ p. (p.0 ≡ err index_error) × Stores p.1 os × (p.1.code ≡ c.code)) (sym here)
          (refl, h, refl))
]

pub run-Stores :
    (ks : List Change) (c : Ints) (os : List (Option ℤ))
    → Stores c os
    → ChangesFit c.code ks
    → ((run ks c).0 ≡ (list_run ks os).0) × Stores (run ks c).1 (list_run ks os).1
unfolding run list_run
run-Stores [] c os h f = (refl, h)
run-Stores (k ∷ ks) c os h (f, fs) =
    let (same, stores, code) = change-Stores c os k h f in
    let (sames, all) =
      run-Stores ks (change k c).1 (list_change k os).1 stores
        (subst (λ d. ChangesFit d ks) (sym code) fs) in
    (ap (λ r. r ∷ (run ks (change k c).1).0) same ∙ ap (λ l. (list_change k os).0 ∷ l) sames, all)

module _ (code : Code) (delta_encode : Bool) (delta_samples : ℕ) (for_encode : Bool)
    (for_threshold : ℕ) where
  abbrev fresh : Ints
  fresh = init code delta_encode delta_samples for_encode for_threshold

  pub init-Stores : fits code (pos 0) ≡ true → Stores fresh []
  unfolding init all_fit with_nulls
  init-Stores z = record {
    numbers = [];
    view = plain refl refl refl;
    fit = refl;
    zero_fits = z;
    aligned = refl;
    shown = refl;
  }

  -- On a new integer column, with whatever settings for differences and packing, any sequence of
  -- appends and writes of nulls and of numbers that the type holds, where the type holds zero,
  -- gives at each change what the same change of a plain list gives, an IndexError included;
  -- afterwards tolist is the list, and each index reads as in the list.
  pub run-refines :
      (ks : List Change)
      → fits code (pos 0) ≡ true
      → ChangesFit code ks
      → ((run ks (init code delta_encode delta_samples for_encode for_threshold)).0
          ≡ (list_run ks []).0)
        × (to_list (run ks (init code delta_encode delta_samples for_encode for_threshold)).1
            ≡ ok (list_run ks []).1)
        × ((idx : ℕ)
            → get_item
                (run ks (init code delta_encode delta_samples for_encode for_threshold)).1
                idx
              ≡ at_index (list_run ks []).1 idx)
  unfolding init
  run-refines ks z f =
      let (same, h) = run-Stores ks fresh [] (init-Stores z) f in
      (
        same,
        to_list_lem (run ks fresh).1 (list_run ks []).1 h,
        (λ idx. get_item_lem (run ks fresh).1 (list_run ks []).1 idx h),
      )
