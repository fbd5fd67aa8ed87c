-- ===== src/Columnar/Ints/Packing/Widen.antt =====
-- Appending to a packed column stores the number: in a field, in wider fields, or plain.
use snapdb.Prelude.{
  ℕ, ◌+◌, ◌-◌, ◌^◌, ◌<◌, ◌≤◌, ◌≡◌, refl, sym, subst, true, false, List, [], ◌∷◌, ◌++◌, arith,
  Bool-cases, inl, inr, ltb,
}
use snapdb.Prelude.Int.{ℤ, pos, pos_part, ltb_ℤ, ◌-ℤ◌}
use snapdb.Result.{ok}
use snapdb.Columnar.Ints.{Ints, fits, all_fit, data_append}
use snapdb.Columnar.Ints.View.{IsPacked, Done}
use snapdb.Columnar.Ints.Packing.{
  append_for, append_for_all, convert_for_to_raw, bits_for, widen_for, append_packed,
}
use snapdb.Columnar.Ints.Packing.Laws.{HasField, HaveFields, append_for_all-IsPacked}
use snapdb.Columnar.Ints.Packing.Keep.{
  packed-Done, wider, values_fields, lt-bits_for, convert_for_to_raw-Done, raw_append-Done,
  append_field-Done, none-IsPacked, Packs,
}

-- Numbers packed afresh, from an empty packed number on
pub packed_afresh :
    (c d : Ints) (vs : List ℤ)
    → d.code ≡ c.code
    → d.nullmask ≡ c.nullmask
    → Packs d
    → d.for_mask + 1 ≡ 2 ^ d.for_bits
    → d.for_packed ≡ 0
    → d.for_count ≡ 0
    → HaveFields d.for_min d.for_mask vs
    → Done c (ok tt, append_for_all vs d) vs
packed_afresh c d vs k m f mask p n fields =
    let (q, r, e, all) = append_for_all-IsPacked vs d [] (none-IsPacked d mask p n) fields in
    subst (λ x. Done c (ok tt, x) vs) (sym e)
      (packed-Done c d q r vs k m
        (record {
          flat = f.flat;
          past = f.past;
          encode = f.encode;
          mode = f.mode;
          kept = f.kept;
          low = f.low;
          empty = f.empty;
        })
        all)

append_for_all-last :
    (v : ℤ) (vs : List ℤ) (c : Ints)
    → append_for v (append_for_all vs c) ≡ append_for_all (vs ++ (v ∷ [])) c
unfolding append_for_all
append_for_all-last v [] c = refl
append_for_all-last v (x ∷ vs) c = append_for_all-last v vs (append_for x c)

fields_last :
    (low : ℤ) (m : ℕ) (vs : List ℤ) (v : ℤ)
    → HaveFields low m vs
    → HasField low m v
    → HaveFields low m (vs ++ (v ∷ []))
fields_last low m [] v _ f = (f, tt)
fields_last low m (x ∷ vs) v (g, fs) f = (g, fields_last low m vs v fs f)

-- At most the minimum itself away
pub offset : (v low : ℤ) → ltb_ℤ (v -ℤ low) (pos 0) ≡ false → v -ℤ low ≡ pos (pos_part (v -ℤ low))
offset v low h = ground (arith, h)

pub mask_up : (b : ℕ) → 0 < 2 ^ b → 2 ^ b - 1 + 1 ≡ 2 ^ b
mask_up b h = omega (arith, h)

-- Appending to a packed column stores the number: in a field, in wider fields, or plain.
pub append_packed-Done :
    (c : Ints) (xs : List ℤ) (v : ℤ)
    → Packs c
    → IsPacked c xs
    → all_fit c.code xs ≡ true
    → fits c.code v ≡ true
    → Done c (append_packed v c) (xs ++ (v ∷ []))
append_packed-Done c xs v f h a fv = elim (Bool-cases (ltb_ℤ (v -ℤ c.for_min) (pos 0))) [
  | inl below ↦
      subst (λ out. Done c out (xs ++ (v ∷ []))) (sym (under below))
        (raw_append-Done c xs v f h a fv)
  | inr above ↦ elim (Bool-cases (ltb c.for_mask d)) [
    | inr fits_in ↦
        subst (λ out. Done c out (xs ++ (v ∷ []))) (sym (inside above fits_in))
          (append_field-Done c xs v f h (d, offset v c.for_min above, at_most fits_in))
    | inl large ↦ elim (Bool-cases (ltb 16 (bits_for d))) [
      | inl huge ↦
          subst (λ out. Done c out (xs ++ (v ∷ []))) (sym (leaves above large huge))
            (raw_append-Done c xs v f h a fv)
      | inr fair ↦
          subst (λ out. Done c out (xs ++ (v ∷ []))) (sym (widens above large fair))
            (packed_afresh c wide (xs ++ (v ∷ [])) refl refl wide_packs
              (mask_up (bits_for d) (omega (arith, lt-bits_for d))) refl refl
              (fields_last c.for_min (2 ^ bits_for d - 1) xs v
                (wider c.for_min c.for_mask (2 ^ bits_for d - 1) xs (room large) old)
                (d, offset v c.for_min above, omega (arith, lt-bits_for d))))
    ]
  ]
]
  where
    d : ℕ
    d = pos_part (v -ℤ c.for_min)

    wide : Ints
    wide = record c {
      for_bits = bits_for d;
      for_mask = 2 ^ bits_for d - 1;
      for_packed = 0;
      for_count = 0;
    }

    wide_packs : Packs wide
    wide_packs = record {
      flat = f.flat;
      past = f.past;
      encode = f.encode;
      mode = f.mode;
      kept = f.kept;
      low = f.low;
      empty = f.empty;
    }

    old : HaveFields c.for_min c.for_mask xs
    old = subst (HaveFields c.for_min c.for_mask) h.fields (values_fields c 0 c.for_count)

    conv : (convert_for_to_raw c).0 ≡ ok tt
    conv = (convert_for_to_raw-Done c xs f h a).0.fine

    at_most : ltb c.for_mask d ≡ false → d ≤ c.for_mask
    at_most p = ground (arith, p)

    room : ltb c.for_mask d ≡ true → c.for_mask ≤ 2 ^ bits_for d - 1
    room p = ground (arith, p, lt-bits_for d)

    under :
        ltb_ℤ (v -ℤ c.for_min) (pos 0) ≡ true
        → append_packed v c ≡ data_append v (convert_for_to_raw c).1
    under p = unfold append_packed in ground (arith, p, conv)

    inside :
        ltb_ℤ (v -ℤ c.for_min) (pos 0) ≡ false
        → ltb c.for_mask d ≡ false
        → append_packed v c ≡ (ok tt, append_for v c)
    inside p q = unfold append_packed in ground (arith, p, q)

    leaves :
        ltb_ℤ (v -ℤ c.for_min) (pos 0) ≡ false
        → ltb c.for_mask d ≡ true
        → ltb 16 (bits_for d) ≡ true
        → append_packed v c ≡ data_append v (convert_for_to_raw c).1
    leaves p q r = unfold append_packed widen_for in ground (arith, p, q, r, conv)

    widens :
        ltb_ℤ (v -ℤ c.for_min) (pos 0) ≡ false
        → ltb c.for_mask d ≡ true
        → ltb 16 (bits_for d) ≡ false
        → append_packed v c ≡ (ok tt, append_for_all (xs ++ (v ∷ [])) wide)
    widens p q r =
        unfold append_packed widen_for in
        ground (arith, p, q, r, h.fields, append_for_all-last v xs wide)
