-- ===== src/Columnar/Bools/Laws.antt =====
-- A bool column stores and gives back the bits, one for each row.
use snapdb.Prelude.{
  ℕ, zero, suc, ◌-◌, ◌/◌, ◌%◌, ◌<◌, ◌≡◌, ◌≢◌, refl, subst, ◌∙◌, Bool, true, false, Option, none,
  some, Option-cases, Bool-cases, inl, inr, List, [], ◌∷◌, ◌++◌, ltb, length, set, get_elem?,
  replicate, arith, get_elem?-set_self, get_elem?-set_ne, length-append, length-replicate,
}
use snapdb.Prelude.Eq.{◌==◌, nat_eq}
use snapdb.Columnar.Bits.{test_bit, set_bit, clear_bit}
use snapdb.Columnar.Bits.Laws.{
  test_bit-set_bit_self, test_bit-set_bit_ne, test_bit-clear_bit_self, test_bit-clear_bit_ne,
  test_bit-zero,
}
use snapdb.Columnar.Nulls.{none_at, elem_at}
use snapdb.Columnar.Bools.{bool_get, padded, change_byte, bool_set}

-- Zeros behind the bytes
bool_at : Option ℕ → ℕ → Bool
bool_at o k = elim o [ none ↦ false | some b ↦ test_bit b k ]

zeros : (n i k : ℕ) → bool_at (get_elem? (replicate n 0) i) k ≡ false
unfolding bool_at
zeros zero i k = refl
zeros (suc n) zero k = test_bit-zero k
zeros (suc n) (suc i) k = zeros n i k

with_zeros :
    (d : List ℕ) (n i k : ℕ)
    → bool_at (get_elem? (d ++ replicate n 0) i) k ≡ bool_at (get_elem? d i) k
unfolding bool_at
with_zeros [] n i k = zeros n i k
with_zeros (b ∷ d) n zero k = refl
with_zeros (b ∷ d) n (suc i) k = with_zeros d n i k

bool_get-padded : (d : List ℕ) (m idx : ℕ) → bool_get (padded d m) idx ≡ bool_get d idx
unfolding bool_get padded bool_at
bool_get-padded d m idx = with_zeros d (suc m - length d) (idx / 8) (idx % 8)

-- A change of a bit of a byte that is there
bool_get-change_byte_self :
    (d : List ℕ) (idx : ℕ) (f : ℕ → ℕ) (v : Bool)
    → idx / 8 < length d
    → ((b : ℕ) → test_bit (f b) (idx % 8) ≡ v)
    → bool_get (change_byte d (idx / 8) f) idx ≡ v
unfolding bool_get change_byte
bool_get-change_byte_self d idx f v h g =
    let (b, e) = elem_at d (idx / 8) h in
    ground (arith, e, get_elem?-set_self d (idx / 8) (f b) h, g b)

bool_get-change_byte_ne :
    (d : List ℕ) (idx j : ℕ) (f : ℕ → ℕ)
    → idx ≢ j
    → ((b k : ℕ) → k ≢ idx % 8 → test_bit (f b) k ≡ test_bit b k)
    → bool_get (change_byte d (idx / 8) f) j ≡ bool_get d j
unfolding bool_get change_byte
bool_get-change_byte_ne d idx j f ne g = elim (Option-cases (get_elem? d (idx / 8))) [
  | inl e ↦ ground (arith, e)
  | inr (b, e) ↦ elim (Bool-cases (idx / 8 == j / 8)) [
    | inl p ↦
        let same : idx / 8 ≡ j / 8 = (nat_eq.beq_iff (idx / 8) (j / 8)).0 p in
        let apart : j % 8 ≢ idx % 8 = λ q. ne (omega arith) in
        let here : get_elem? d (j / 8) ≡ some b = subst (λ i. get_elem? d i ≡ some b) same e in
        let there : get_elem? (set d (idx / 8) (f b)) (j / 8) ≡ some (f b) =
          subst (λ i. get_elem? (set d (idx / 8) (f b)) i ≡ some (f b)) same
            (get_elem?-set_self d (idx / 8) (f b) (in_ d (idx / 8) b e)) in
        ground (arith, e, here, there, g b (j % 8) apart)
    | inr p ↦
        let apart : idx / 8 ≢ j / 8 = λ q. differ p ((nat_eq.beq_iff (idx / 8) (j / 8)).1 q) in
        ground (arith, e, get_elem?-set_ne d (f b) apart)
  ]
]
  where
    in_ : (xs : List ℕ) (i b : ℕ) → get_elem? xs i ≡ some b → i < length xs
    in_ xs i b e = elim (Bool-cases (ltb i (length xs))) [
      | inl p ↦ ground (arith, p)
      | inr p ↦ absurd (clash (get_elem? xs i) b e (none_at xs i (ground (arith, p))))
    ]
      where
        clash : (o : Option ℕ) (b : ℕ) → o ≡ some b → o ≡ none → ⊥
        clash o b p q = ground (arith, p, q)

    differ : {x : Bool} → x ≡ false → x ≡ true → ⊥
    differ p q = ground (arith, p, q)

padded_long : (d : List ℕ) (m : ℕ) → m < length (padded d m)
unfolding padded
padded_long d m = omega (
  arith,
  length-append d (replicate (suc m - length d) 0),
  length-replicate {A = ℕ} (suc m - length d) 0,
)

pub bool_get-bool_set_self : (d : List ℕ) (idx : ℕ) (v : Bool) → bool_get (bool_set idx v d) idx ≡ v
unfolding bool_set
bool_get-bool_set_self d idx true =
    bool_get-change_byte_self (padded d (idx / 8)) idx (λ b. set_bit b (idx % 8)) true
      (padded_long d (idx / 8)) (λ b. test_bit-set_bit_self b (idx % 8))
bool_get-bool_set_self d idx false = elim (Bool-cases (ltb (idx / 8) (length d))) [
  | inl p ↦
      bool_get-change_byte_self d idx (λ b. clear_bit b (idx % 8)) false (ground (arith, p))
        (λ b. test_bit-clear_bit_self b (idx % 8))
  | inr p ↦
      let e : get_elem? d (idx / 8) ≡ none = none_at d (idx / 8) (ground (arith, p)) in
      unfold bool_get change_byte in ground (arith, e)
]

pub bool_get-bool_set_ne :
    (d : List ℕ) (idx j : ℕ) (v : Bool) → idx ≢ j → bool_get (bool_set idx v d) j ≡ bool_get d j
unfolding bool_set
bool_get-bool_set_ne d idx j true ne =
    bool_get-change_byte_ne (padded d (idx / 8)) idx j (λ b. set_bit b (idx % 8)) ne
      (λ b k h. test_bit-set_bit_ne b (idx % 8) k h)
    ∙ bool_get-padded d (idx / 8) j
bool_get-bool_set_ne d idx j false ne =
    bool_get-change_byte_ne d idx j (λ b. clear_bit b (idx % 8)) ne
      (λ b k h. test_bit-clear_bit_ne b (idx % 8) k h)
