-- ===== src/Columnar/Ints/Packing/Keep.antt =====
-- A column in packing mode stores each number that is appended, and converts back without loss.
use snapdb.Prelude.{
  ℕ, zero, suc, ◌+◌, ◌*◌, ◌^◌, ◌<◌, ◌≤◌, ◌≡◌, refl, sym, ap, subst, ◌∙◌, true, false, ◌&&◌, not,
  List, [], ◌∷◌, ◌++◌, arith,
}
use snapdb.Prelude.Int.{ℤ, int_laws}
use snapdb.Result.{ok}
use snapdb.Columnar.Bits.{and_mask, read_at}
use snapdb.Columnar.Bits.Laws.{lt-bit_length}
use snapdb.Columnar.Ints.{Ints, fits, all_fit, data_append}
use snapdb.Columnar.Ints.View.{View, plain, packed, IsPacked, Done}
use snapdb.Columnar.Ints.Packing.{
  append_for, get_for_value, for_values, convert_for_to_raw, bits_for,
}
use snapdb.Columnar.Ints.Packing.Laws.{HasField, HaveFields, repacked, append_for-IsPacked}
use snapdb.Columnar.Ints.Delta.Laws.{data_append-Done}

-- Packing is on, and differences are not tried.
pub record Packs (c : Ints) : Type 0 where
  pub flat : c.delta_mode ≡ false
  pub past : (c.delta_encode && not c.delta_fallback) ≡ false
  pub encode : c.for_encode ≡ true
  pub mode : c.for_mode ≡ true
  pub kept : c.for_fallback ≡ false
  pub low : fits c.code c.for_min ≡ true
  pub empty : c.data_ ≡ []

packed-View : (c : Ints) (xs : List ℤ) → Packs c → IsPacked c xs → View c xs
packed-View c xs f h = packed f.flat f.past f.encode f.mode f.kept f.low f.empty h

pub packed-Done :
    (c d : Ints) (n p : ℕ) (xs : List ℤ)
    → d.code ≡ c.code
    → d.nullmask ≡ c.nullmask
    → Packs (repacked d n p)
    → IsPacked (repacked d n p) xs
    → Done c (ok tt, repacked d n p) xs
packed-Done c d n p xs k m f h = record {
  fine = refl;
  view = packed-View (repacked d n p) xs f h;
  code = k;
  mask = m;
}

-- Fields in more bits
pub wider : (low : ℤ) (m n : ℕ) (vs : List ℤ) → m ≤ n → HaveFields low m vs → HaveFields low n vs
wider low m n [] h _ = tt
wider low m n (v ∷ vs) h ((d, e, l), fs) = ((d, e, omega (arith, h, l)), wider low m n vs h fs)

-- What is read from a field has a field.
pub values_fields : (c : Ints) (i n : ℕ) → HaveFields c.for_min c.for_mask (for_values c i n)
unfolding for_values
values_fields c i zero = tt
values_fields c i (suc n) = (field c i, values_fields c (suc i) n)
  where
    field : (c : Ints) (i : ℕ) → HasField c.for_min c.for_mask (get_for_value c i)
    field c i = (
      read_at c.for_packed (i * c.for_bits) c.for_mask,
      unfold get_for_value in omega int_laws,
      unfold read_at and_mask in omega arith,
    )

pub lt-bits_for : (n : ℕ) → n < 2 ^ bits_for n
unfolding bits_for
lt-bits_for n = ground (arith, lt-bit_length n)

-- A packed column whose numbers fit its type converts to plain storage without loss.
pub convert_for_to_raw-Done :
    (c : Ints) (xs : List ℤ)
    → Packs c
    → IsPacked c xs
    → all_fit c.code xs ≡ true
    → Done c (convert_for_to_raw c) xs
      × ((convert_for_to_raw c).1.delta_mode ≡ false)
      × ((convert_for_to_raw c).1.for_mode ≡ false)
      × ((convert_for_to_raw c).1.data_ ≡ xs)
convert_for_to_raw-Done c xs f h a =
    subst
      (λ out.
        Done c out xs × (out.1.delta_mode ≡ false) × (out.1.for_mode ≡ false) × (out.1.data_ ≡ xs))
      (sym converted)
      (
        record { fine = refl; view = plain f.flat refl h.fields; code = refl; mask = refl },
        f.flat,
        refl,
        h.fields,
      )
  where
    raw : Ints
    raw = record c {
      for_fallback = true;
      data_ = for_values c 0 c.for_count;
      for_mode = false;
      for_packed = 0;
      for_count = 0;
    }

    fit : all_fit c.code (for_values c 0 c.for_count) ≡ true
    fit = subst (λ l. all_fit c.code l ≡ true) (sym h.fields) a

    converted : convert_for_to_raw c ≡ (ok tt, raw)
    converted = unfold convert_for_to_raw in ground (arith, f.mode, f.kept, fit)

-- Converting and appending behind it
pub raw_append-Done :
    (c : Ints) (xs : List ℤ) (v : ℤ)
    → Packs c
    → IsPacked c xs
    → all_fit c.code xs ≡ true
    → fits c.code v ≡ true
    → Done c (data_append v (convert_for_to_raw c).1) (xs ++ (v ∷ []))
raw_append-Done c xs v f h a fv =
    let (conv, m, fm, e) = convert_for_to_raw-Done c xs f h a in
    let (_, last) =
      data_append-Done (convert_for_to_raw c).1 xs v m fm e
        (subst (λ k. fits k v ≡ true) (sym conv.code) fv) in
    record {
      fine = last.fine;
      view = last.view;
      code = last.code ∙ conv.code;
      mask = last.mask ∙ conv.mask;
    }

-- A number that has a field
pub append_field-Done :
    (c : Ints) (xs : List ℤ) (v : ℤ)
    → Packs c
    → IsPacked c xs
    → HasField c.for_min c.for_mask v
    → Done c (ok tt, append_for v c) (xs ++ (v ∷ []))
append_field-Done c xs v f h field =
    let (p, e, one) = append_for-IsPacked c xs v h field in
    subst (λ d. Done c (ok tt, d) (xs ++ (v ∷ []))) (sym e)
      (packed-Done c c p (c.for_count + 1) (xs ++ (v ∷ [])) refl refl
        (record {
          flat = f.flat;
          past = f.past;
          encode = f.encode;
          mode = f.mode;
          kept = f.kept;
          low = f.low;
          empty = f.empty;
        })
        one)

-- An empty packed column
pub none-IsPacked :
    (c : Ints)
    → c.for_mask + 1 ≡ 2 ^ c.for_bits
    → c.for_packed ≡ 0
    → c.for_count ≡ 0
    → IsPacked c []
none-IsPacked c m p n = record {
  mask = m;
  bound =
      subst (λ k. k < 2 ^ (c.for_count * c.for_bits)) (sym p)
        (subst (λ k. 0 < 2 ^ (k * c.for_bits)) (sym n) (none c.for_bits));
  fields = ap (for_values c 0) n ∙ (unfold for_values in refl);
}
  where
    none : (b : ℕ) → 0 < 2 ^ (0 * b)
    none b = let z : 0 * b ≡ 0 = omega arith in subst (λ k. 0 < 2 ^ k) (sym z) (omega arith)
