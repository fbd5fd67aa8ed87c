-- ===== src/Columnar/Ints/Delta/Laws.antt =====
-- A column in delta mode stores each number that is appended, and converts back without loss.
use snapdb.Prelude.{
  ◌≡◌, refl, sym, ap, subst, ◌∙◌, true, false, not, List, [], ◌∷◌, ◌++◌, arith, Bool-cases, inl,
  inr,
}
use snapdb.Prelude.Int.{ℤ, pos, ◌+ℤ◌, ◌-ℤ◌, int_laws}
use snapdb.Result.{ok}
use snapdb.Schema.{Code}
use snapdb.Columnar.Ints.{Ints, fits, all_fit, data_append}
use snapdb.Columnar.Ints.Delta.{
  cumulative, reconstruct_delta, convert_delta_to_raw, upgraded, append_delta,
}
use snapdb.Columnar.Ints.View.{total, View, plain, differences, Done}

pub cumulative-append :
    (base : ℤ) (ds : List ℤ) (d : ℤ)
    → cumulative base (ds ++ (d ∷ [])) ≡ cumulative base ds ++ ((total base ds +ℤ d) ∷ [])
unfolding cumulative total
cumulative-append base [] d = refl
cumulative-append base (e ∷ ds) d = ap (λ l. base ∷ l) (cumulative-append (base +ℤ e) ds d)

pub total-append :
    (base : ℤ) (ds : List ℤ) (d : ℤ) → total base (ds ++ (d ∷ [])) ≡ total base ds +ℤ d
unfolding total
total-append base [] d = refl
total-append base (e ∷ ds) d = total-append (base +ℤ e) ds d

pub add_sub : (a b : ℤ) → a +ℤ (b -ℤ a) ≡ b
add_sub a b = omega int_laws

pub add_none : (a : ℤ) → a +ℤ pos 0 ≡ a
add_none a = omega int_laws

-- A column in delta mode whose numbers fit its type converts to plain storage without loss.
pub convert_delta_to_raw-Done :
    (c : Ints) (xs : List ℤ)
    → c.delta_mode ≡ true
    → c.delta_fallback ≡ false
    → c.for_mode ≡ false
    → cumulative c.delta_base c.deltas ≡ xs
    → all_fit c.code xs ≡ true
    → Done c (convert_delta_to_raw c) xs
      × ((convert_delta_to_raw c).1.delta_fallback ≡ true)
      × ((convert_delta_to_raw c).1.delta_mode ≡ false)
      × ((convert_delta_to_raw c).1.for_mode ≡ false)
      × ((convert_delta_to_raw c).1.data_ ≡ xs)
convert_delta_to_raw-Done c xs m f fm e a =
    subst
      (λ out.
        Done c out xs
        × (out.1.delta_fallback ≡ true)
        × (out.1.delta_mode ≡ false)
        × (out.1.for_mode ≡ false)
        × (out.1.data_ ≡ xs))
      (sym converted)
      (record { fine = refl; view = plain refl fm e; code = refl; mask = refl }, refl, refl, fm, e)
  where
    raw : Ints
    raw = record c {
      delta_fallback = true;
      data_ = cumulative c.delta_base c.deltas;
      delta_mode = false;
      deltas = [];
      delta_base = pos 0;
      delta_prev = pos 0;
    }

    fit : all_fit c.code (cumulative c.delta_base c.deltas) ≡ true
    fit = subst (λ l. all_fit c.code l ≡ true) (sym e) a

    converted : convert_delta_to_raw c ≡ (ok tt, raw)
    converted = unfold convert_delta_to_raw reconstruct_delta in ground (arith, m, f, fit)

-- A plain column stores the number behind the others.
pub data_append-Done :
    (c : Ints) (xs : List ℤ) (v : ℤ)
    → c.delta_mode ≡ false
    → c.for_mode ≡ false
    → c.data_ ≡ xs
    → fits c.code v ≡ true
    → (data_append v c ≡ (ok tt, record c { data_ = c.data_ ++ (v ∷ []) }))
      × Done c (data_append v c) (xs ++ (v ∷ []))
data_append-Done c xs v m fm e f = (
  appended,
  subst (λ out. Done c out (xs ++ (v ∷ []))) (sym appended)
      (record {
        fine = refl;
        view = plain m fm (ap (λ l. l ++ (v ∷ [])) e);
        code = refl;
        mask = refl;
      }),
)
  where
    appended : data_append v c ≡ (ok tt, record c { data_ = c.data_ ++ (v ∷ []) })
    appended = unfold data_append in ground (arith, f)

-- In the delta path a column stores differences until it has fallen back.
abbrev pub InPath : Ints → List ℤ → Type 0
InPath c xs = View c xs × (c.delta_fallback ≡ not c.delta_mode) × (c.for_mode ≡ false)

module _ (c : Ints) (xs : List ℤ) (v : ℤ) where
  -- Appending to a column in delta mode stores the number, as a difference or plain.
  pub append_delta-Done :
      c.delta_encode ≡ true
      → c.delta_mode ≡ true
      → c.delta_fallback ≡ false
      → c.for_mode ≡ false
      → cumulative c.delta_base c.deltas ≡ xs
      → total c.delta_base c.deltas ≡ c.delta_prev
      → all_fit c.code xs ≡ true
      → fits c.code v ≡ true
      → Done c (append_delta v c) (xs ++ (v ∷ [])) × InPath (append_delta v c).1 (xs ++ (v ∷ []))
  append_delta-Done de m f fm e t a fv = elim (Bool-cases (fits code delta)) [
    | inl small ↦
        subst (λ out. Done c out (xs ++ (v ∷ [])) × InPath out.1 (xs ++ (v ∷ [])))
          (sym (kept small))
          (
            record { fine = refl; view = stays; code = refl; mask = refl },
            (stays, f ∙ ap not (sym m), fm),
          )
    | inr large ↦
        subst (λ out. Done c out (xs ++ (v ∷ [])) × InPath out.1 (xs ++ (v ∷ [])))
          (sym (left large))
          (
            record {
              fine = last.1.fine;
              view = last.1.view;
              code = last.1.code ∙ conv.0.code;
              mask = last.1.mask ∙ conv.0.mask;
            },
            (
              last.1.view,
              ap (λ o. o.1.delta_fallback) last.0
                  ∙ conv.1
                  ∙ ap not (sym (ap (λ o. o.1.delta_mode) last.0 ∙ conv.2)),
              ap (λ o. o.1.for_mode) last.0 ∙ conv.3,
            ),
          )
  ]
    where
      delta : ℤ
      delta = v -ℤ c.delta_prev

      code : Code
      code = upgraded c.delta_code delta

      noted : Ints
      noted = record c { delta_prev = v; delta_code = code }

      grown : Ints
      grown = record c { delta_prev = v; delta_code = code; deltas = c.deltas ++ (delta ∷ []) }

      back : total c.delta_base c.deltas +ℤ delta ≡ v
      back = ap (λ p. p +ℤ delta) t ∙ add_sub c.delta_prev v

      stays : View grown (xs ++ (v ∷ []))
      stays =
          differences de m f fm
            (cumulative-append c.delta_base c.deltas delta
              ∙ ap (λ l. cumulative c.delta_base c.deltas ++ (l ∷ [])) back
              ∙ ap (λ l. l ++ (v ∷ [])) e)
            (total-append c.delta_base c.deltas delta ∙ back)

      kept : fits code delta ≡ true → append_delta v c ≡ (ok tt, grown)
      kept s = unfold append_delta in ground (arith, s)

      conv :
          Done noted (convert_delta_to_raw noted) xs
          × ((convert_delta_to_raw noted).1.delta_fallback ≡ true)
          × ((convert_delta_to_raw noted).1.delta_mode ≡ false)
          × ((convert_delta_to_raw noted).1.for_mode ≡ false)
          × ((convert_delta_to_raw noted).1.data_ ≡ xs)
      conv = convert_delta_to_raw-Done noted xs m f fm e a

      raw : Ints
      raw = (convert_delta_to_raw noted).1

      last :
          (data_append v raw ≡ (ok tt, record raw { data_ = raw.data_ ++ (v ∷ []) }))
          × Done raw (data_append v raw) (xs ++ (v ∷ []))
      last =
          data_append-Done raw xs v conv.2 conv.3 conv.4
            (subst (λ k. fits k v ≡ true) (sym conv.0.code) fv)

      left : fits code delta ≡ false → append_delta v c ≡ data_append v raw
      left s = unfold append_delta in ground (arith, s, conv.0.fine)
