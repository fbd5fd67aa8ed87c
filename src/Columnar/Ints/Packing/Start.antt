-- ===== src/Columnar/Ints/Packing/Start.antt =====
-- A plain column that starts packing keeps its numbers: `_start_for_mode` and the samples before it.
use snapdb.Prelude.{
  ℕ, ◌-◌, ◌^◌, ◌≡◌, refl, sym, subst, true, false, ◌&&◌, not, none, some, ◌⊎◌, List, [], ◌∷◌, arith,
  Bool-cases, inl, inr, ltb, leb, if◌then◌else◌,
}
use snapdb.Prelude.Int.{ℤ, pos, negsuc, pos_part, neg_part, ltb_ℤ, ◌≤ℤ◌, ◌-ℤ◌, -ℤ_parts}
use snapdb.Result.{Result, ok}
use snapdb.Schema.{Code}
use snapdb.Columnar.Bits.{bit_length}
use snapdb.Columnar.Ints.{Ints, Stats, fits, all_fit}
use snapdb.Columnar.Ints.View.{plain, Done}
use snapdb.Columnar.Ints.Packing.{
  append_for_all, bits_for, min_of, max_of, start_packing, start_for_mode, track, sample_for,
}
use snapdb.Columnar.Ints.Packing.Laws.{HasField, HaveFields}
use snapdb.Columnar.Ints.Packing.Keep.{wider, lt-bits_for}
use snapdb.Columnar.Ints.Packing.Widen.{packed_afresh, offset, mask_up}

-- Packing is possible: it is not tried yet, and differences are not.
pub record MayPack (c : Ints) : Type 0 where
  pub flat : c.delta_mode ≡ false
  pub past : (c.delta_encode && not c.delta_fallback) ≡ false
  pub encode : c.for_encode ≡ true
  pub mode : c.for_mode ≡ false
  pub kept : c.for_fallback ≡ false

signs : (a : ℤ) → (pos_part a ≡ 0) ⊎ (neg_part a ≡ 0)
signs (pos n) = inr refl
signs (negsuc n) = inl refl

within : (low v high : ℤ) → low ≤ℤ v → v ≤ℤ high → HasField low (pos_part (high -ℤ low)) v
within low v high l h =
    let e : ltb_ℤ (v -ℤ low) (pos 0) ≡ false =
      ground (arith, l, -ℤ_parts v low, signs (v -ℤ low)) in
    (
      pos_part (v -ℤ low),
      offset v low e,
      ground
          (arith, l, h, -ℤ_parts v low, -ℤ_parts high low, signs (v -ℤ low), signs (high -ℤ low)),
    )

-- The minimum and the maximum bound the numbers, and the minimum is one of them.
bounds :
    (low high m n : ℤ) (vs : List ℤ)
    → low ≤ℤ min_of m vs
    → max_of n vs ≤ℤ high
    → (low ≤ℤ m) × (n ≤ℤ high) × HaveFields low (pos_part (high -ℤ low)) vs
unfolding min_of max_of
bounds low high m n [] l h = (l, h, tt)
bounds low high m n (v ∷ vs) l h =
    let (lm, nh, fs) =
      bounds low high (if ltb_ℤ v m then v else m) (if ltb_ℤ n v then v else n) vs l h in
    let lv : low ≤ℤ v = ground (arith, lm) in
    let vh : v ≤ℤ high = ground (arith, nh) in
    (ground (arith, lm), ground (arith, nh), (within low v high lv vh, fs))

min_of-fits :
    (k : Code) (m : ℤ) (vs : List ℤ)
    → fits k m ≡ true
    → all_fit k vs ≡ true
    → fits k (min_of m vs) ≡ true
unfolding min_of all_fit
min_of-fits k m [] f a = f
min_of-fits k m (v ∷ vs) f a =
    min_of-fits k (if ltb_ℤ v m then v else m) vs (ground (arith, f, a)) (ground (arith, a))

-- Starting to pack keeps the numbers, whether the range is small enough or not.
pub start_for_mode-Done :
    (c : Ints) (x : ℤ) (vs : List ℤ)
    → MayPack c
    → c.data_ ≡ x ∷ vs
    → all_fit c.code (x ∷ vs) ≡ true
    → Done c (ok tt, start_for_mode c) (x ∷ vs)
unfolding all_fit
start_for_mode-Done c x vs f e a = elim (Bool-cases (ltb 16 (bit_length range_val))) [
  | inl large ↦
      subst (λ d. Done c (ok tt, d) (x ∷ vs)) (sym (stays large))
        (record { fine = refl; view = plain f.flat f.mode e; code = refl; mask = refl })
  | inr small ↦
      subst (λ d. Done c (ok tt, d) (x ∷ vs)) (sym (packs small))
        (packed_afresh c ready (x ∷ vs) refl refl
          (record {
            flat = f.flat;
            past = f.past;
            encode = f.encode;
            mode = refl;
            kept = f.kept;
            low = min_of-fits c.code x vs (ground (arith, a)) (ground (arith, a));
            empty = refl;
          })
          (mask_up (bits_for range_val) (omega (arith, lt-bits_for range_val))) refl refl
          (wider low range_val (2 ^ bits_for range_val - 1) (x ∷ vs)
            (omega (arith, lt-bits_for range_val)) (within low x high all.0 all.1, all.2)))
]
  where
    low : ℤ
    low = min_of x vs

    high : ℤ
    high = max_of x vs

    range_val : ℕ
    range_val = pos_part (high -ℤ low)

    ready : Ints
    ready = record c {
      for_min = low;
      for_mode = true;
      for_bits = bits_for range_val;
      for_mask = 2 ^ bits_for range_val - 1;
      for_packed = 0;
      for_count = 0;
      data_ = [];
    }

    all : (low ≤ℤ x) × (x ≤ℤ high) × HaveFields low range_val vs
    all = bounds low high x x vs (omega arith) (omega arith)

    stays :
        ltb 16 (bit_length range_val) ≡ true
        → start_for_mode c ≡ record c { for_min = low; for_fallback = true; for_stats = none }
    stays p = unfold start_for_mode start_packing in ground (arith, e, p)

    packs : ltb 16 (bit_length range_val) ≡ false → start_for_mode c ≡ append_for_all (x ∷ vs) ready
    packs p = unfold start_for_mode start_packing in ground (arith, e, p)

-- A sample that is appended to plain data may start packing; the numbers stay.
pub sample_for-Done :
    (c : Ints) (v x : ℤ) (vs : List ℤ)
    → MayPack c
    → c.data_ ≡ x ∷ vs
    → all_fit c.code (x ∷ vs) ≡ true
    → Done c (ok tt, sample_for v c) (x ∷ vs)
sample_for-Done c v x vs f e a = elim (Bool-cases (ltb stats.2 c.for_threshold)) [
  | inl few ↦
      subst (λ d. Done c (ok tt, d) (x ∷ vs)) (sym (waits few))
        (record { fine = refl; view = plain f.flat f.mode e; code = refl; mask = refl })
  | inr many ↦ elim (Bool-cases (leb (bit_length (pos_part (stats.1 -ℤ stats.0))) 16)) [
    | inl small ↦
        subst (λ d. Done c (ok tt, d) (x ∷ vs)) (sym (starts many small))
          (with_code (
            start_for_mode-Done tracked x vs
              (record {
                flat = f.flat;
                past = f.past;
                encode = f.encode;
                mode = f.mode;
                kept = f.kept;
              })
              e a))
    | inr large ↦
        subst (λ d. Done c (ok tt, d) (x ∷ vs)) (sym (leaves many large))
          (record { fine = refl; view = plain f.flat f.mode e; code = refl; mask = refl })
  ]
]
  where
    stats : Stats
    stats = track v c.for_stats

    tracked : Ints
    tracked = record c { for_stats = some stats }

    with_code : {out : Result (Unit {0}) × Ints} {ys : List ℤ} → Done tracked out ys → Done c out ys
    with_code h = record { fine = h.fine; view = h.view; code = h.code; mask = h.mask }

    waits : ltb stats.2 c.for_threshold ≡ true → sample_for v c ≡ tracked
    waits p = unfold sample_for in ground (arith, p)

    starts :
        ltb stats.2 c.for_threshold ≡ false
        → leb (bit_length (pos_part (stats.1 -ℤ stats.0))) 16 ≡ true
        → sample_for v c ≡ start_for_mode tracked
    starts p q = unfold sample_for in ground (arith, p, q)

    leaves :
        ltb stats.2 c.for_threshold ≡ false
        → leb (bit_length (pos_part (stats.1 -ℤ stats.0))) 16 ≡ false
        → sample_for v c ≡ record c { for_fallback = true; for_stats = none }
    leaves p q = unfold sample_for in ground (arith, p, q)
