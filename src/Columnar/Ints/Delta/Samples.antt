-- ===== src/Columnar/Ints/Delta/Samples.antt =====
-- The sampling phase in front of delta mode keeps the numbers.
use snapdb.Prelude.{
  ◌≡◌, refl, sym, ap, subst, ◌∙◌, true, false, not, List, [], ◌∷◌, ◌++◌, arith, Bool-cases, inl,
  inr, if◌then◌else◌, ltb, length, ◌⊎◌,
}
use snapdb.Prelude.Int.{ℤ}
use snapdb.Result.{Result, ok}
use snapdb.Schema.{Code}
use snapdb.Columnar.Ints.{Ints, fits, all_fit, data_append}
use snapdb.Columnar.Ints.Delta.{
  cumulative, append_delta, append_samples, start_delta_mode, end_delta_sampling, monotonic,
}
use snapdb.Columnar.Ints.View.{total, View, plain, differences, packed, Done}
use snapdb.Columnar.Ints.Delta.Laws.{data_append-Done, InPath, append_delta-Done}

pub all_fit-parts :
    (code : Code) (xs : List ℤ) (v : ℤ) (vs : List ℤ)
    → all_fit code (xs ++ (v ∷ vs)) ≡ true
    → (all_fit code xs ≡ true) × (fits code v ≡ true)
unfolding all_fit
all_fit-parts code [] v vs h = ground (arith, h)
all_fit-parts code (x ∷ xs) v vs h = ground (arith, h, all_fit-parts code xs v vs)

pub append_one : (v : ℤ) (xs vs : List ℤ) → (xs ++ (v ∷ [])) ++ vs ≡ xs ++ (v ∷ vs)
append_one v [] vs = refl
append_one v (x ∷ xs) vs = ap (λ l. x ∷ l) (append_one v xs vs)

append_nil : (xs : List ℤ) → xs ++ [] ≡ xs
append_nil [] = refl
append_nil (x ∷ xs) = ap (λ l. x ∷ l) (append_nil xs)

sample_step : ℤ → Ints → Result (Unit {0}) × Ints
sample_step v d = if d.delta_fallback then data_append v d else append_delta v d

sample_step-Done :
    (c : Ints) (xs : List ℤ) (v : ℤ)
    → InPath c xs
    → all_fit c.code xs ≡ true
    → fits c.code v ≡ true
    → Done c (sample_step v c) (xs ++ (v ∷ [])) × InPath (sample_step v c).1 (xs ++ (v ∷ []))
sample_step-Done c xs v (plain m fm e, f, _) a fv =
    subst (λ out. Done c out (xs ++ (v ∷ [])) × InPath out.1 (xs ++ (v ∷ []))) (sym fell)
      (
        last.1,
        (
          last.1.view,
          ap (λ o. o.1.delta_fallback) last.0 ∙ f ∙ ap not (sym (ap (λ o. o.1.delta_mode) last.0)),
          ap (λ o. o.1.for_mode) last.0 ∙ fm,
        ),
      )
  where
    last :
        (data_append v c ≡ (ok tt, record c { data_ = c.data_ ++ (v ∷ []) }))
        × Done c (data_append v c) (xs ++ (v ∷ []))
    last = data_append-Done c xs v m fm e fv

    fell : sample_step v c ≡ data_append v c
    fell = unfold sample_step in ground (arith, f, m)
sample_step-Done c xs v (differences de m f fm e t, _, _) a fv =
    subst (λ out. Done c out (xs ++ (v ∷ [])) × InPath out.1 (xs ++ (v ∷ []))) (sym tries)
      (append_delta-Done c xs v de m f fm e t a fv)
  where
    tries : sample_step v c ≡ append_delta v c
    tries = unfold sample_step in ground (arith, f)
sample_step-Done c xs v (packed m d fe fm ff l de h, _, nf) a fv = absurd (both fm nf)
  where
    both : c.for_mode ≡ true → c.for_mode ≡ false → ⊥
    both p q = ground (arith, p, q)

parts :
    (c : Ints) (xs : List ℤ) (v : ℤ) (vs : List ℤ)
    → all_fit c.code (xs ++ (v ∷ vs)) ≡ true
    → (all_fit c.code xs ≡ true) × (fits c.code v ≡ true)
parts c xs v vs a = all_fit-parts c.code xs v vs a

samples-cons :
    (c : Ints) (v : ℤ) (vs : List ℤ)
    → (sample_step v c).0 ≡ ok tt
    → append_samples (v ∷ vs) c ≡ append_samples vs (sample_step v c).1
unfolding append_samples sample_step
samples-cons c v vs fine = ground (arith, fine)

append_samples-Done :
    (vs : List ℤ) (c : Ints) (xs : List ℤ)
    → InPath c xs
    → all_fit c.code (xs ++ vs) ≡ true
    → Done c (append_samples vs c) (xs ++ vs)
append_samples-Done [] c xs p a =
    subst (Done c (append_samples [] c)) (sym (append_nil xs))
      (unfold append_samples in record { fine = refl; view = p.0; code = refl; mask = refl })
append_samples-Done (v ∷ vs) c xs p a =
    let step = sample_step-Done c xs v p (parts c xs v vs a).0 (parts c xs v vs a).1 in
    let rest : Done (sample_step v c).1 (append_samples vs (sample_step v c).1)
        ((xs ++ (v ∷ [])) ++ vs) =
      append_samples-Done vs (sample_step v c).1 (xs ++ (v ∷ [])) step.1 (
        subst (λ l. all_fit (sample_step v c).1.code l ≡ true) (sym (append_one v xs vs))
          (subst (λ k. all_fit k (xs ++ (v ∷ vs)) ≡ true) (sym step.0.code) a)) in
    subst (λ out. Done c out (xs ++ (v ∷ vs))) (sym (samples-cons c v vs step.0.fine))
      (record {
        fine = rest.fine;
        view =
            subst (View (append_samples vs (sample_step v c).1).1) (append_one v xs vs) rest.view;
        code = rest.code ∙ step.0.code;
        mask = rest.mask ∙ step.0.mask;
      })

-- The end of the sampling phase keeps the numbers, whether it starts delta mode or not.
pub end_delta_sampling-Done :
    (c : Ints) (xs : List ℤ)
    → c.delta_encode ≡ true
    → c.delta_mode ≡ false
    → c.for_mode ≡ false
    → c.delta_fallback ≡ false
    → c.data_ ≡ xs
    → all_fit c.code xs ≡ true
    → Done c (end_delta_sampling c) xs
unfolding start_delta_mode cumulative total
end_delta_sampling-Done c xs de m fm f e a =
    go xs e a (Bool-cases (ltb (length c.data_) c.delta_samples)) (Bool-cases (monotonic c.data_))
  where
    same :
        (out : Result (Unit {0}) × Ints)
        → end_delta_sampling c ≡ out
        → Done c out xs
        → Done c (end_delta_sampling c) xs
    same out q d = subst (λ o. Done c o xs) (sym q) d

    go :
        (ys : List ℤ)
        → c.data_ ≡ ys
        → all_fit c.code ys ≡ true
        → (ltb (length c.data_) c.delta_samples ≡ true)
          ⊎ (ltb (length c.data_) c.delta_samples ≡ false)
        → (monotonic c.data_ ≡ true) ⊎ (monotonic c.data_ ≡ false)
        → Done c (end_delta_sampling c) xs
    go ys p b (inl few) _ =
        same (ok tt, c) (unfold end_delta_sampling in ground (arith, few))
          (record { fine = refl; view = plain m fm e; code = refl; mask = refl })
    go ys p b (inr many) (inr falls) =
        same (ok tt, record c { delta_fallback = true })
          (unfold end_delta_sampling in ground (arith, many, falls))
          (record { fine = refl; view = plain m fm e; code = refl; mask = refl })
    go [] p b (inr many) (inl rises) =
        same (ok tt, c) (unfold end_delta_sampling in ground (arith, many, rises, p))
          (record { fine = refl; view = plain m fm e; code = refl; mask = refl })
    go (base ∷ old) p b (inr many) (inl rises) =
        same (append_samples old started)
          (unfold end_delta_sampling in ground (arith, many, rises, p))
          (record {
            fine = samples.fine;
            view = subst (View (append_samples old started).1) (sym p ∙ e) samples.view;
            code = samples.code;
            mask = samples.mask;
          })
      where
        started : Ints
        started = start_delta_mode base c

        samples : Done started (append_samples old started) (base ∷ old)
        samples =
            append_samples-Done old started (base ∷ []) (differences de refl f fm refl refl, f, fm)
              b
