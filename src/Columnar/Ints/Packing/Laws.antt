-- ===== src/Columnar/Ints/Packing/Laws.antt =====
-- A packed column: every field reads as the number that was appended.
use native.Mathlib.Nat.{add-mul, mod-eq_of_lt}
use snapdb.Prelude.{
  ℕ, zero, suc, ◌+◌, ◌-◌, ◌*◌, ◌^◌, ◌<◌, ◌≤◌, ◌≡◌, refl, sym, ap, subst, ◌∙◌, List, [], ◌∷◌, ◌++◌,
  arith,
}
use snapdb.Prelude.Int.{ℤ, pos, ◌+ℤ◌, ◌-ℤ◌, int_laws}
use snapdb.Columnar.Bits.{or_at, and_mask, read_at}
use snapdb.Columnar.Bits.Laws.{or_at_fresh, read_at_below, read_at_self, lt-packed}
use snapdb.Columnar.Ints.{Ints}
use snapdb.Columnar.Ints.View.{IsPacked}
use snapdb.Columnar.Ints.Packing.{masked, append_for, append_for_all, get_for_value, for_values}

-- The number has a field: it lies between the minimum and the minimum plus the mask.
abbrev pub HasField : ℤ → ℕ → ℤ → Type 0
HasField low mask v = (d : ℕ) × (v -ℤ low ≡ pos d) × (d ≤ mask)

abbrev pub HaveFields : ℤ → ℕ → List ℤ → Type 0
HaveFields low mask [] = Unit
HaveFields low mask (v ∷ vs) = HasField low mask v × HaveFields low mask vs

-- The column with another packed number
abbrev pub repacked : Ints → ℕ → ℕ → Ints
repacked c p n = record c { for_packed = p; for_count = n }

masked_field : (d mask : ℕ) → d ≤ mask → masked (pos d) mask ≡ d
unfolding masked and_mask
masked_field d mask h = mod-eq_of_lt (omega arith)

append_for_lem :
    (c : Ints) (v : ℤ) (d : ℕ)
    → c.for_packed < 2 ^ (c.for_count * c.for_bits)
    → v -ℤ c.for_min ≡ pos d
    → d ≤ c.for_mask
    → append_for v c
      ≡ repacked c (c.for_packed + d * 2 ^ (c.for_count * c.for_bits)) (c.for_count + 1)
unfolding append_for
append_for_lem c v d l e h =
    ap (λ p. repacked c p (c.for_count + 1))
      (ap (λ x. or_at c.for_packed x (c.for_count * c.for_bits))
          (ap (λ z. masked z c.for_mask) e ∙ masked_field d c.for_mask h)
        ∙ or_at_fresh c.for_packed d (c.for_count * c.for_bits) l)

split_bits : (i k b : ℕ) → (i + 1 + k) * b ≡ i * b + b + k * b
split_bits i k b = omega (arith, add-mul (i + 1) k b, add-mul i 1 b)

-- A field below the new one reads as before.
field_below :
    (c : Ints) (d i : ℕ)
    → c.for_mask + 1 ≡ 2 ^ c.for_bits
    → i < c.for_count
    → get_for_value
        (repacked c (c.for_packed + d * 2 ^ (c.for_count * c.for_bits)) (c.for_count + 1))
        i
      ≡ get_for_value c i
unfolding get_for_value
field_below c d i m h =
    ap (λ r. c.for_min +ℤ pos r)
      (ap (λ k. read_at (c.for_packed + d * 2 ^ k) (i * c.for_bits) c.for_mask) place
        ∙ read_at_below c.for_packed d (i * c.for_bits) c.for_bits
            ((c.for_count - i - 1) * c.for_bits) c.for_mask m)
  where
    place :
        c.for_count * c.for_bits ≡ i * c.for_bits + c.for_bits + (c.for_count - i - 1) * c.for_bits
    place = ap (λ n. n * c.for_bits) (omega arith) ∙ split_bits i (c.for_count - i - 1) c.for_bits

fields_below :
    (c : Ints) (d i n : ℕ)
    → c.for_mask + 1 ≡ 2 ^ c.for_bits
    → i + n ≤ c.for_count
    → for_values
        (repacked c (c.for_packed + d * 2 ^ (c.for_count * c.for_bits)) (c.for_count + 1))
        i
        n
      ≡ for_values c i n
unfolding for_values
fields_below c d i zero m h = refl
fields_below c d i (suc n) m h =
    ap
      (λ v.
        v
        ∷ for_values
            (repacked c (c.for_packed + d * 2 ^ (c.for_count * c.for_bits)) (c.for_count + 1))
            (suc i) n)
      (field_below c d i m (omega arith))
    ∙ ap (λ l. get_for_value c i ∷ l) (fields_below c d (suc i) n m (omega arith))

for_values-last :
    (c : Ints) (i n : ℕ)
    → for_values c i (n + 1) ≡ for_values c i n ++ (get_for_value c (i + n) ∷ [])
unfolding for_values
for_values-last c i zero =
    let none : i ≡ i + 0 = omega arith in ap (λ k. get_for_value c k ∷ []) none
for_values-last c i (suc n) =
    let more : for_values c i (suc n + 1) ≡ get_for_value c i ∷ for_values c (suc i) (n + 1) =
      let next : suc n + 1 ≡ suc (n + 1) = omega arith in ap (for_values c i) next in
    let past : suc i + n ≡ i + suc n = omega arith in
    more
    ∙ ap (λ l. get_for_value c i ∷ l)
        (for_values-last c (suc i) n
          ∙ ap (λ k. for_values c (suc i) n ++ (get_for_value c k ∷ [])) past)

low_plus : (low v : ℤ) (d : ℕ) → v -ℤ low ≡ pos d → low +ℤ pos d ≡ v
low_plus low v d e = ap (λ z. low +ℤ z) (sym e) ∙ omega int_laws

field_top :
    (c : Ints) (v : ℤ) (d : ℕ)
    → c.for_packed < 2 ^ (c.for_count * c.for_bits)
    → d ≤ c.for_mask
    → v -ℤ c.for_min ≡ pos d
    → get_for_value
        (repacked c (c.for_packed + d * 2 ^ (c.for_count * c.for_bits)) (c.for_count + 1))
        c.for_count
      ≡ v
unfolding get_for_value
field_top c v d l h e =
    ap (λ r. c.for_min +ℤ pos r)
      (read_at_self c.for_packed d (c.for_count * c.for_bits) c.for_mask l h)
    ∙ low_plus c.for_min v d e

-- Appending a number that has a field adds the field.
pub append_for-IsPacked :
    (c : Ints) (xs : List ℤ) (v : ℤ)
    → IsPacked c xs
    → HasField c.for_min c.for_mask v
    → (p : ℕ) × (append_for v c ≡ repacked c p (c.for_count + 1))
      × IsPacked (repacked c p (c.for_count + 1)) (xs ++ (v ∷ []))
append_for-IsPacked c xs v h (d, e, le) = (
  packed,
  append_for_lem c v d h.bound e le,
  record {
    mask = h.mask;
    bound =
        subst (λ k. packed < 2 ^ k) (sym next)
          (lt-packed c.for_packed d (c.for_count * c.for_bits) c.for_bits c.for_mask h.bound le
            h.mask);
    fields =
        for_values-last grown 0 c.for_count
        ∙ ap (λ l. l ++ (get_for_value grown (0 + c.for_count) ∷ []))
            (fields_below c d 0 c.for_count h.mask (omega arith) ∙ h.fields)
        ∙ ap (λ z. xs ++ (z ∷ [])) top;
  },
)
  where
    packed : ℕ
    packed = c.for_packed + d * 2 ^ (c.for_count * c.for_bits)

    grown : Ints
    grown = repacked c packed (c.for_count + 1)

    next : (c.for_count + 1) * c.for_bits ≡ c.for_count * c.for_bits + c.for_bits
    next = omega (arith, add-mul c.for_count 1 c.for_bits)

    top : get_for_value grown (0 + c.for_count) ≡ v
    top =
        let none : 0 + c.for_count ≡ c.for_count = omega arith in
        ap (get_for_value grown) none ∙ field_top c v d h.bound le e

append_one : (v : ℤ) (xs vs : List ℤ) → (xs ++ (v ∷ [])) ++ vs ≡ xs ++ (v ∷ vs)
append_one v [] vs = refl
append_one v (x ∷ xs) vs = ap (λ l. x ∷ l) (append_one v xs vs)

append_nil : (xs : List ℤ) → xs ++ [] ≡ xs
append_nil [] = refl
append_nil (x ∷ xs) = ap (λ l. x ∷ l) (append_nil xs)

-- So does appending a list of such numbers; nothing but the packed number and the count changes.
pub append_for_all-IsPacked :
    (vs : List ℤ) (c : Ints) (xs : List ℤ)
    → IsPacked c xs
    → HaveFields c.for_min c.for_mask vs
    → (p n : ℕ) × (append_for_all vs c ≡ repacked c p n) × IsPacked (repacked c p n) (xs ++ vs)
unfolding append_for_all
append_for_all-IsPacked [] c xs h f =
    (c.for_packed, c.for_count, refl, subst (IsPacked c) (sym (append_nil xs)) h)
append_for_all-IsPacked (v ∷ vs) c xs h (f, fs) =
    let (p, e, one) = append_for-IsPacked c xs v h f in
    let (q, n, r, all) =
      append_for_all-IsPacked vs (repacked c p (c.for_count + 1)) (xs ++ (v ∷ [])) one fs in
    (q, n, ap (append_for_all vs) e ∙ r, subst (IsPacked (repacked c q n)) (append_one v xs vs) all)
