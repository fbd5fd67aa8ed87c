-- ===== src/Columnar/Ints/Access/Laws.antt =====
-- An integer column stores each number that is appended, whichever way it stores them.
use snapdb.Prelude.{
  ◌≡◌, refl, sym, ap, subst, ◌∙◌, true, false, ◌&&◌, not, List, [], ◌∷◌, ◌++◌, arith, Bool-cases,
  inl, inr,
}
use snapdb.Prelude.Int.{ℤ, pos, ◌+ℤ◌, int_laws}
use snapdb.Result.{Result, ok}
use snapdb.Schema.{Code}
use snapdb.Columnar.Ints.{Ints, fits, all_fit, data_append}
use snapdb.Columnar.Ints.View.{View, plain, differences, packed, Done, all_fit-append, total}
use snapdb.Columnar.Ints.Delta.{cumulative, append_delta, end_delta_sampling}
use snapdb.Columnar.Ints.Delta.Laws.{
  data_append-Done, append_delta-Done, cumulative-append, total-append, add_none,
}
use snapdb.Columnar.Ints.Delta.Samples.{end_delta_sampling-Done}
use snapdb.Columnar.Ints.Packing.{append_for, sample_for, append_packed}
use snapdb.Columnar.Ints.Packing.Keep.{append_field-Done}
use snapdb.Columnar.Ints.Packing.Widen.{append_packed-Done}
use snapdb.Columnar.Ints.Packing.Start.{sample_for-Done}
use snapdb.Columnar.Ints.Access.{append_value, append_null}

-- The first of a list that ends in a number
ends : (xs : List ℤ) (v : ℤ) → (x : ℤ) × (ys : List ℤ) × (xs ++ (v ∷ []) ≡ x ∷ ys)
ends [] v = (v, [], refl)
ends (x ∷ xs) v = (x, xs ++ (v ∷ []), refl)

-- What a column that is not packed does with a number after it is appended
plain_append-Done :
    (c : Ints) (xs : List ℤ) (v : ℤ)
    → c.delta_mode ≡ false
    → c.for_mode ≡ false
    → c.data_ ≡ xs
    → all_fit c.code xs ≡ true
    → fits c.code v ≡ true
    → Done c (append_value v c) (xs ++ (v ∷ []))
plain_append-Done c xs v m fm e a fv = elim (Bool-cases (c.delta_encode && not c.delta_fallback)) [
  | inl tries ↦
      subst (λ out. Done c out (xs ++ (v ∷ []))) (sym (samples tries))
        (moved (
          end_delta_sampling-Done grown (xs ++ (v ∷ [])) (encodes tries) m fm (open_ tries) data_eq
            fit))
  | inr past ↦ elim (Bool-cases (c.for_encode && not c.for_fallback)) [
    | inl tries ↦
        let (x, ys, p) = ends xs v in
        subst (λ out. Done c out (xs ++ (v ∷ []))) (sym (for_samples past tries))
          (moved (
            subst (λ l. Done grown (ok tt, sample_for v grown) l) (sym p)
              (sample_for-Done grown v x ys
                (record {
                  flat = m;
                  past = past;
                  encode = for_encodes tries;
                  mode = fm;
                  kept = for_open tries;
                })
                (data_eq ∙ p) (subst (λ l. all_fit c.code l ≡ true) p fit))))
    | inr none_ ↦
        subst (λ out. Done c out (xs ++ (v ∷ []))) (sym (straight past none_))
          (data_append-Done c xs v m fm e fv).1
  ]
]
  where
    grown : Ints
    grown = record c { data_ = c.data_ ++ (v ∷ []) }

    appended : data_append v c ≡ (ok tt, grown)
    appended = (data_append-Done c xs v m fm e fv).0

    data_eq : grown.data_ ≡ xs ++ (v ∷ [])
    data_eq = ap (λ l. l ++ (v ∷ [])) e

    fit : all_fit c.code (xs ++ (v ∷ [])) ≡ true
    fit = all_fit-append c.code xs v a fv

    moved : {out : Result (Unit {0}) × Ints} {ys : List ℤ} → Done grown out ys → Done c out ys
    moved h = record { fine = h.fine; view = h.view; code = h.code; mask = h.mask }

    encodes : (c.delta_encode && not c.delta_fallback) ≡ true → c.delta_encode ≡ true
    encodes p = ground (arith, p)

    open_ : (c.delta_encode && not c.delta_fallback) ≡ true → c.delta_fallback ≡ false
    open_ p = ground (arith, p)

    for_encodes : (c.for_encode && not c.for_fallback) ≡ true → c.for_encode ≡ true
    for_encodes p = ground (arith, p)

    for_open : (c.for_encode && not c.for_fallback) ≡ true → c.for_fallback ≡ false
    for_open p = ground (arith, p)

    samples :
        (c.delta_encode && not c.delta_fallback) ≡ true
        → append_value v c ≡ end_delta_sampling grown
    samples p = unfold append_value in ground (arith, p, m, appended)

    for_samples :
        (c.delta_encode && not c.delta_fallback) ≡ false
        → (c.for_encode && not c.for_fallback) ≡ true
        → append_value v c ≡ (ok tt, sample_for v grown)
    for_samples p q = unfold append_value in ground (arith, p, q, fm, appended)

    straight :
        (c.delta_encode && not c.delta_fallback) ≡ false
        → (c.for_encode && not c.for_fallback) ≡ false
        → append_value v c ≡ data_append v c
    straight p q = unfold append_value in ground (arith, p, q)

-- A number that fits the column's type is appended to the stored ones.
pub append_value-Done :
    (c : Ints) (xs : List ℤ) (v : ℤ)
    → View c xs
    → all_fit c.code xs ≡ true
    → fits c.code v ≡ true
    → Done c (append_value v c) (xs ++ (v ∷ []))
append_value-Done c xs v (plain m fm e) a fv = plain_append-Done c xs v m fm e a fv
append_value-Done c xs v (differences de m f fm e t) a fv =
    subst (λ out. Done c out (xs ++ (v ∷ []))) (sym into)
      (append_delta-Done c xs v de m f fm e t a fv).0
  where
    into : append_value v c ≡ append_delta v c
    into = unfold append_value in ground (arith, de, m, f)
append_value-Done c xs v (packed m past fe fm ff l de h) a fv =
    subst (λ out. Done c out (xs ++ (v ∷ []))) (sym into)
      (append_packed-Done c xs v
        (record { flat = m; past = past; encode = fe; mode = fm; kept = ff; low = l; empty = de }) h
        a fv)
  where
    into : append_value v c ≡ append_packed v c
    into = unfold append_value in ground (arith, past, fe, fm, ff)

-- The last of the sums
total-fits :
    (code : Code) (base : ℤ) (ds : List ℤ)
    → all_fit code (cumulative base ds) ≡ true
    → fits code (total base ds) ≡ true
unfolding cumulative total all_fit
total-fits code base [] h = ground (arith, h)
total-fits code base (d ∷ ds) h = total-fits code (base +ℤ d) ds (ground (arith, h))

-- A null is stored as some number that fits.
pub append_null-Done :
    (c : Ints) (xs : List ℤ)
    → View c xs
    → all_fit c.code xs ≡ true
    → fits c.code (pos 0) ≡ true
    → (v : ℤ) × (fits c.code v ≡ true) × Done c (ok tt, append_null c) (xs ++ (v ∷ []))
append_null-Done c xs (plain m fm e) a z = (
  pos 0,
  z,
  subst (λ d. Done c (ok tt, d) (xs ++ (pos 0 ∷ []))) (sym into)
      (record {
        fine = refl;
        view = plain m fm (ap (λ l. l ++ (pos 0 ∷ [])) e);
        code = refl;
        mask = refl;
      }),
)
  where
    into : append_null c ≡ record c { data_ = c.data_ ++ (pos 0 ∷ []) }
    into = unfold append_null in ground (arith, m, fm)
append_null-Done c xs (differences de m f fm e t) a z = (
  total c.delta_base c.deltas,
  total-fits c.code c.delta_base c.deltas (subst (λ l. all_fit c.code l ≡ true) (sym e) a),
  subst (λ d. Done c (ok tt, d) (xs ++ (total c.delta_base c.deltas ∷ []))) (sym into)
      (record {
        fine = refl;
        view =
            differences de m f fm
              (cumulative-append c.delta_base c.deltas (pos 0)
                ∙ ap (λ l. l ++ ((total c.delta_base c.deltas +ℤ pos 0) ∷ [])) e
                ∙ ap (λ l. xs ++ (l ∷ [])) (add_none (total c.delta_base c.deltas)))
              (total-append c.delta_base c.deltas (pos 0)
                ∙ add_none (total c.delta_base c.deltas)
                ∙ t);
        code = refl;
        mask = refl;
      }),
)
  where
    into : append_null c ≡ record c { deltas = c.deltas ++ (pos 0 ∷ []) }
    into = unfold append_null in ground (arith, m, f)
append_null-Done c xs (packed m past fe fm ff l de h) a z = (
  c.for_min,
  l,
  subst (λ d. Done c (ok tt, d) (xs ++ (c.for_min ∷ []))) (sym into)
      (append_field-Done c xs c.for_min
        (record { flat = m; past = past; encode = fe; mode = fm; kept = ff; low = l; empty = de }) h
        (0, omega int_laws, omega arith)),
)
  where
    into : append_null c ≡ append_for c.for_min c
    into = unfold append_null in ground (arith, m, fm, ff)
