-- ===== src/Columnar/Ints/Refine/Writes.antt =====
-- What writing an integer column does: the same change of the list it stands for.
use snapdb.Prelude.{
  ◌⊎◌, ℕ, zero, suc, ◌≡◌, refl, sym, ap, subst, ◌∙◌, Bool, true, false, Option, none, some, List,
  [], ◌∷◌, ◌++◌, arith, inl, inr, length, set, length-append,
}
use snapdb.Prelude.Int.{ℤ, pos}
use snapdb.Result.{Result, ok}
use snapdb.Schema.{Code}
use snapdb.Columnar.Nulls.{with_nulls, with_nulls-append}
use snapdb.Columnar.Ints.{Ints, fits, all_fit}
use snapdb.Columnar.Ints.View.{View, plain, differences, packed, Done, all_fit-append}
use snapdb.Columnar.Ints.Delta.{convert_delta_to_raw}
use snapdb.Columnar.Ints.Delta.Laws.{convert_delta_to_raw-Done}
use snapdb.Columnar.Ints.Packing.{convert_for_to_raw, for_values, get_for_value}
use snapdb.Columnar.Ints.Packing.Keep.{convert_for_to_raw-Done}
use snapdb.Columnar.Ints.Access.{append_value, append_null, append, data_set, set_value, set_null}
use snapdb.Columnar.Ints.Access.Laws.{append_value-Done, append_null-Done}
use snapdb.Columnar.Ints.Refine.{Fits, Stores}

pub all_fit-set :
    (code : Code) (xs : List ℤ) (i : ℕ) (v : ℤ)
    → all_fit code xs ≡ true
    → fits code v ≡ true
    → all_fit code (set xs i v) ≡ true
unfolding all_fit
all_fit-set code [] i v h f = h
all_fit-set code (x ∷ xs) zero v h f = ground (arith, h, f)
all_fit-set code (x ∷ xs) (suc i) v h f = ground (arith, h, all_fit-set code xs i v, f)

other_mask :
    (c : Ints) (ns : List Bool) (i n : ℕ)
    → for_values (record c { nullmask = ns }) i n ≡ for_values c i n
unfolding for_values get_for_value
other_mask c ns i zero = refl
other_mask c ns i (suc n) = ap (λ l. get_for_value c i ∷ l) (other_mask c ns (suc i) n)

-- The same stored numbers under another null mask
pub masked-View :
    (c : Ints) (ns : List Bool) (xs : List ℤ) → View c xs → View (record c { nullmask = ns }) xs
masked-View c ns xs (plain m fm e) = plain m fm e
masked-View c ns xs (differences de m f fm e t) = differences de m f fm e t
masked-View c ns xs (packed m past fe fm ff l de p) =
    packed m past fe fm ff l de
      (record { mask = p.mask; bound = p.bound; fields = other_mask c ns 0 c.for_count ∙ p.fields })

-- A change that succeeded, and the list afterwards
abbrev pub Follows : Ints → Result (Unit {0}) × Ints → List (Option ℤ) → Type 0
Follows c out os = (out.0 ≡ ok tt) × Stores out.1 os × (out.1.code ≡ c.code)

pub Done-Follows :
    (c : Ints) (out : Result (Unit {0}) × Ints) (xs : List ℤ) (os : List (Option ℤ))
    → Done c out xs
    → all_fit c.code xs ≡ true
    → fits c.code (pos 0) ≡ true
    → length c.nullmask ≡ length xs
    → with_nulls c.nullmask xs ≡ os
    → Follows c out os
Done-Follows c out xs os d a z l e = (
  d.fine,
  record {
    numbers = xs;
    view = d.view;
    fit = subst (λ k. all_fit k xs ≡ true) (sym d.code) a;
    zero_fits = subst (λ k. fits k (pos 0) ≡ true) (sym d.code) z;
    aligned = ap length d.mask ∙ l;
    shown = ap (λ ns. with_nulls ns xs) d.mask ∙ e;
  },
  d.code,
)

-- The column under the null mask that the change leaves
abbrev pub under_mask : Ints → List Bool → Ints
under_mask c ns = record c { nullmask = ns }

one_more :
    {A B : Type 0}
    → (ns : List A) (xs : List B) (n : A) (x : B) → length ns ≡ length xs
    → length (ns ++ (n ∷ [])) ≡ length (xs ++ (x ∷ []))
one_more ns xs n x h = omega (arith, h, length-append ns (n ∷ []), length-append xs (x ∷ []))

pub append-Follows :
    (c : Ints) (os : List (Option ℤ)) (o : Option ℤ)
    → Stores c os
    → Fits c.code o
    → Follows c (append o c) (os ++ (o ∷ []))
unfolding append
append-Follows c os none h f =
    let ns = c.nullmask ++ (true ∷ []) in
    let (v, fv, d) =
      append_null-Done (under_mask c ns) h.numbers (masked-View c ns h.numbers h.view) h.fit
        h.zero_fits in
    Done-Follows (under_mask c ns) (ok tt, append_null (under_mask c ns)) (h.numbers ++ (v ∷ []))
      (os ++ (none ∷ [])) d (all_fit-append c.code h.numbers v h.fit fv) h.zero_fits
      (one_more c.nullmask h.numbers true v h.aligned)
      (with_nulls-append c.nullmask h.numbers true v h.aligned ∙ ap (λ l. l ++ (none ∷ [])) h.shown)
append-Follows c os (some v) h f =
    let ns = c.nullmask ++ (false ∷ []) in
    Done-Follows (under_mask c ns) (append_value v (under_mask c ns)) (h.numbers ++ (v ∷ []))
      (os ++ (some v ∷ []))
      (append_value-Done (under_mask c ns) h.numbers v (masked-View c ns h.numbers h.view) h.fit f)
      (all_fit-append c.code h.numbers v h.fit f) h.zero_fits
      (one_more c.nullmask h.numbers false v h.aligned)
      (with_nulls-append c.nullmask h.numbers false v h.aligned
        ∙ ap (λ l. l ++ (some v ∷ [])) h.shown)

-- Plain data with a number written at a row
data_set-Done :
    (c : Ints) (xs : List ℤ) (idx : ℕ) (v : ℤ)
    → c.delta_mode ≡ false
    → c.for_mode ≡ false
    → c.data_ ≡ xs
    → fits c.code v ≡ true
    → Done c (data_set idx v c) (set xs idx v)
data_set-Done c xs idx v m fm e f =
    subst (λ out. Done c out (set xs idx v)) (sym into)
      (record {
        fine = refl;
        view = plain m fm (ap (λ l. set l idx v) e);
        code = refl;
        mask = refl;
      })
  where
    into : data_set idx v c ≡ (ok tt, record c { data_ = set c.data_ idx v })
    into = unfold data_set in ground (arith, f)

-- The same, behind a conversion
converted_set-Done :
    (c : Ints) (out : Result (Unit {0}) × Ints) (xs : List ℤ) (idx : ℕ) (v : ℤ)
    → Done c out xs
    → out.1.delta_mode ≡ false
    → out.1.for_mode ≡ false
    → out.1.data_ ≡ xs
    → fits c.code v ≡ true
    → Done c (data_set idx v out.1) (set xs idx v)
converted_set-Done c out xs idx v d m fm e f =
    let last = data_set-Done out.1 xs idx v m fm e (subst (λ k. fits k v ≡ true) (sym d.code) f) in
    record {
      fine = last.fine;
      view = last.view;
      code = last.code ∙ d.code;
      mask = last.mask ∙ d.mask;
    }

pub set_value-Done :
    (c : Ints) (xs : List ℤ) (idx : ℕ) (v : ℤ)
    → View c xs
    → all_fit c.code xs ≡ true
    → fits c.code v ≡ true
    → Done c (set_value idx v c) (set xs idx v)
set_value-Done c xs idx v (plain m fm e) a f =
    subst (λ out. Done c out (set xs idx v)) (sym into) (data_set-Done c xs idx v m fm e f)
  where
    into : set_value idx v c ≡ data_set idx v c
    into = unfold set_value in ground (arith, m, fm)
set_value-Done c xs idx v (differences de m f fm e t) a fv =
    let (d, _, m', fm', e') = convert_delta_to_raw-Done c xs m f fm e a in
    let into : set_value idx v c ≡ data_set idx v (convert_delta_to_raw c).1 =
      unfold set_value in ground (arith, m, f, d.fine) in
    subst (λ out. Done c out (set xs idx v)) (sym into)
      (converted_set-Done c (convert_delta_to_raw c) xs idx v d m' fm' e' fv)
set_value-Done c xs idx v (packed m past fe fm ff l de p) a fv =
    let (d, m', fm', e') =
      convert_for_to_raw-Done c xs
        (record { flat = m; past = past; encode = fe; mode = fm; kept = ff; low = l; empty = de }) p
        a in
    let into : set_value idx v c ≡ data_set idx v (convert_for_to_raw c).1 =
      unfold set_value in ground (arith, m, fm, ff, d.fine) in
    subst (λ out. Done c out (set xs idx v)) (sym into)
      (converted_set-Done c (convert_for_to_raw c) xs idx v d m' fm' e' fv)

-- Under a null the stored number may stay, or become a zero.
pub set_null-Done :
    (c : Ints) (xs : List ℤ) (idx : ℕ)
    → View c xs
    → Done c (ok tt, set_null idx c) xs ⊎ Done c (ok tt, set_null idx c) (set xs idx (pos 0))
set_null-Done c xs idx (plain m fm e) = inr (
    subst (λ d. Done c (ok tt, d) (set xs idx (pos 0))) (sym into)
      (record {
        fine = refl;
        view = plain m fm (ap (λ l. set l idx (pos 0)) e);
        code = refl;
        mask = refl;
      }))
  where
    into : set_null idx c ≡ record c { data_ = set c.data_ idx (pos 0) }
    into = unfold set_null in ground (arith, m, fm)
set_null-Done c xs idx (differences de m f fm e t) = inl (
    subst (λ d. Done c (ok tt, d) xs) (sym into)
      (record { fine = refl; view = differences de m f fm e t; code = refl; mask = refl }))
  where
    into : set_null idx c ≡ c
    into = unfold set_null in ground (arith, m, f)
set_null-Done c xs idx (packed m past fe fm ff l de p) = inl (
    subst (λ d. Done c (ok tt, d) xs) (sym into)
      (record { fine = refl; view = packed m past fe fm ff l de p; code = refl; mask = refl }))
  where
    into : set_null idx c ≡ c
    into = unfold set_null in ground (arith, m, fm, ff)
