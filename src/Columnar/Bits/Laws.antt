-- ===== src/Columnar/Bits/Laws.antt =====
-- What the bit operations do to each bit, and to numbers packed side by side.
use native.Mathlib.Nat.{
  pow-suc, add-mul-div_right, add-mul-mod_self_right, mul_assoc, div-eq_of_lt, mod-eq_of_lt,
  add-mul, mul-le-mul_right,
}
use snapdb.Prelude.{
  ℕ, zero, suc, ◌+◌, ◌*◌, ◌/◌, ◌%◌, ◌^◌, ◌<◌, ◌≤◌, ◌≡◌, ◌≢◌, refl, sym, ap, ◌∙◌, true, false, arith,
}
use snapdb.Prelude.Eq.{◌==◌, nat_eq}
use snapdb.Columnar.Bits.{
  test_bit, set_bit, clear_bit, bits_from, bit_length, or_from, or_at, and_mask, read_at,
}

pub test_bit-set_bit_self : (n k : ℕ) → test_bit (set_bit n k) k ≡ true
unfolding test_bit set_bit
test_bit-set_bit_self n zero = ground arith
test_bit-set_bit_self n (suc k) = ap (λ m. test_bit m k) half ∙ test_bit-set_bit_self (n / 2) k
  where
    half : (n % 2 + 2 * set_bit (n / 2) k) / 2 ≡ set_bit (n / 2) k
    half = omega arith

pub test_bit-set_bit_ne : (n k j : ℕ) → j ≢ k → test_bit (set_bit n k) j ≡ test_bit n j
unfolding test_bit set_bit
test_bit-set_bit_ne n zero zero ne = absurd (ne refl)
test_bit-set_bit_ne n zero (suc j) ne = ap (λ m. test_bit m j) (omega arith)
test_bit-set_bit_ne n (suc k) zero ne = ap (λ (m : ℕ). m == 1) (omega arith)
test_bit-set_bit_ne n (suc k) (suc j) ne =
    ap (λ m. test_bit m j) (omega arith) ∙ test_bit-set_bit_ne (n / 2) k j (λ e. ne (ap suc e))

pub test_bit-clear_bit_self : (n k : ℕ) → test_bit (clear_bit n k) k ≡ false
unfolding test_bit clear_bit
test_bit-clear_bit_self n zero = ground arith
test_bit-clear_bit_self n (suc k) =
    ap (λ m. test_bit m k) (omega arith) ∙ test_bit-clear_bit_self (n / 2) k

pub test_bit-clear_bit_ne : (n k j : ℕ) → j ≢ k → test_bit (clear_bit n k) j ≡ test_bit n j
unfolding test_bit clear_bit
test_bit-clear_bit_ne n zero zero ne = absurd (ne refl)
test_bit-clear_bit_ne n zero (suc j) ne = ap (λ m. test_bit m j) (omega arith)
test_bit-clear_bit_ne n (suc k) zero ne = ap (λ (m : ℕ). m == 1) (omega arith)
test_bit-clear_bit_ne n (suc k) (suc j) ne =
    ap (λ m. test_bit m j) (omega arith) ∙ test_bit-clear_bit_ne (n / 2) k j (λ e. ne (ap suc e))

pub test_bit-zero : (k : ℕ) → test_bit 0 k ≡ false
unfolding test_bit
test_bit-zero zero = refl
test_bit-zero (suc k) = test_bit-zero k

double : (n : ℕ) → 2 ^ suc n ≡ 2 * 2 ^ n
double n = let p : 2 ^ suc n ≡ 2 ^ n * 2 = pow-suc 2 n in omega arith

lt-bits_from : (fuel n : ℕ) → n ≤ fuel → n < 2 ^ bits_from fuel n
unfolding bits_from
lt-bits_from zero n h = ground arith
lt-bits_from (suc fuel) n h =
    ground (arith, lt-bits_from fuel (n / 2), double (bits_from fuel (n / 2)))

-- A number has no bit beyond its length.
pub lt-bit_length : (n : ℕ) → n < 2 ^ bit_length n
unfolding bit_length
lt-bit_length n = lt-bits_from n n (omega arith)

or_from-zero : (fuel x : ℕ) → x ≤ fuel → or_from fuel 0 x ≡ x
unfolding or_from
or_from-zero zero x h = omega arith
or_from-zero (suc fuel) x h = ground (arith, or_from-zero fuel (x / 2))

times_double : (x p : ℕ) → x * 2 ^ suc p ≡ 2 * (x * 2 ^ p)
times_double x p = ap (λ m. x * m) (double p) ∙ omega arith

-- Above the bits of `a`, the packed number is put beside them.
pub or_at_fresh : (a x p : ℕ) → a < 2 ^ p → or_at a x p ≡ a + x * 2 ^ p
unfolding or_at
or_at_fresh a x zero h =
    let e : a ≡ 0 = omega arith in
    ap (λ b. or_from (b + x) b x) e ∙ or_from-zero (0 + x) x (omega arith) ∙ omega arith
or_at_fresh a x (suc p) h =
    let d : 2 ^ suc p ≡ 2 * 2 ^ p = double p in
    omega (arith, or_at_fresh (a / 2) x p (omega arith), times_double x p)

pow_pos : (p : ℕ) → 0 < 2 ^ p
pow_pos zero = omega arith
pow_pos (suc p) = omega (arith, pow_pos p, double p)

times_pow : (x q r : ℕ) → x * 2 ^ (q + r) ≡ x * 2 ^ r * 2 ^ q
times_pow x q zero = ap (λ k. x * 2 ^ k) add_none ∙ omega arith
  where
    add_none : q + zero ≡ q
    add_none = omega arith
times_pow x q (suc r) =
    ap (λ k. x * 2 ^ k) add_one
    ∙ times_double x (q + r)
    ∙ ap (λ m. 2 * m) (times_pow x q r)
    ∙ sym (mul_assoc 2 (x * 2 ^ r) (2 ^ q))
    ∙ ap (λ m. m * 2 ^ q) (sym (times_double x r))
  where
    add_one : q + suc r ≡ suc (q + r)
    add_one = omega arith

-- A field above `a` does not change what is read inside `a`.
pub read_at_below :
    (a x q bits r mask : ℕ)
    → mask + 1 ≡ 2 ^ bits
    → read_at (a + x * 2 ^ (q + bits + r)) q mask ≡ read_at a q mask
unfolding read_at and_mask
read_at_below a x q bits r mask e =
    ap (λ m. m % (mask + 1))
      (ap (λ m. (a + m) / 2 ^ q) (ap (λ k. x * 2 ^ k) (omega arith) ∙ times_pow x q (bits + r))
        ∙ add-mul-div_right a (x * 2 ^ (bits + r)) (pow_pos q))
    ∙ ap (λ m. (a / 2 ^ q + m) % (mask + 1)) (times_pow x bits r ∙ ap (λ m. x * 2 ^ r * m) (sym e))
    ∙ add-mul-mod_self_right (a / 2 ^ q) (x * 2 ^ r) (mask + 1)

-- The field at the top is what was put there.
pub read_at_self : (a x p mask : ℕ) → a < 2 ^ p → x ≤ mask → read_at (a + x * 2 ^ p) p mask ≡ x
unfolding read_at and_mask
read_at_self a x p mask ha hx =
    ap (λ m. m % (mask + 1)) (add-mul-div_right a x (pow_pos p) ∙ ap (λ m. m + x) (div-eq_of_lt ha))
    ∙ mod-eq_of_lt (omega arith)
    ∙ omega arith

-- With a field of at most `bits` bits the packed number grows by that many bits.
pub lt-packed :
    (a x p bits mask : ℕ)
    → a < 2 ^ p
    → x ≤ mask
    → mask + 1 ≡ 2 ^ bits
    → a + x * 2 ^ p < 2 ^ (p + bits)
lt-packed a x p bits mask ha hx e =
    let q : 1 * 2 ^ (p + bits) ≡ 1 * 2 ^ bits * 2 ^ p = times_pow 1 p bits in
    let m : (x + 1) * 2 ^ p ≤ 2 ^ bits * 2 ^ p = mul-le-mul_right (2 ^ p) (omega arith) in
    let d : (x + 1) * 2 ^ p ≡ x * 2 ^ p + 1 * 2 ^ p = add-mul x 1 (2 ^ p) in
    let u : 1 * 2 ^ bits * 2 ^ p ≡ 2 ^ bits * 2 ^ p = ap (λ k. k * 2 ^ p) (omega arith) in
    omega arith
