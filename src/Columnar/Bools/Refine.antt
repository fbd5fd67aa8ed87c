-- ===== src/Columnar/Bools/Refine.antt =====
-- A bool column against what it stands for: a list with a bit or a null for each row.
use snapdb.Prelude.{
  ℕ, zero, suc, ◌+◌, ◌<◌, ◌≤◌, ◌≡◌, refl, sym, ap, subst, ◌∙◌, Bool, true, false, Option, none,
  some, Bool-cases, inl, inr, List, [], ◌∷◌, ◌++◌, ltb, length, set, get_elem?, if◌then◌else◌,
  arith, length-set, length-append,
}
use snapdb.Prelude.Eq.{nat_eq}
use snapdb.Result.{ok, err, index_error}
use snapdb.Columnar.Nulls.{at_index}
use snapdb.Columnar.Nulls.{none_at, elem_at}
use snapdb.Columnar.Bools.{
  Bools, bool_get, bool_set, append, get_item, set_item, bits_shown, to_list,
}
use snapdb.Columnar.Bools.Laws.{bool_get-bool_set_self, bool_get-bool_set_ne}

-- The rows are the list, and no bit is set beyond them.
pub record Stores (c : Bools) (os : List (Option Bool)) : Type 0 where
  pub shown : to_list c ≡ os
  pub clear : (j : ℕ) → length c.nullmask ≤ j → bool_get c.data_ j ≡ false

pub length-bits_shown :
    (ns : List Bool) (d : List ℕ) (i : ℕ) → length (bits_shown ns d i) ≡ length ns
unfolding bits_shown
length-bits_shown [] d i = refl
length-bits_shown (n ∷ ns) d i = ap suc (length-bits_shown ns d (suc i))

-- Bits that agree show the same.
bits_shown_agree :
    (ns : List Bool) (d e : List ℕ) (i : ℕ)
    → ((j : ℕ) → i ≤ j → j < i + length ns → bool_get d j ≡ bool_get e j)
    → bits_shown ns d i ≡ bits_shown ns e i
unfolding bits_shown
bits_shown_agree [] d e i h = refl
bits_shown_agree (n ∷ ns) d e i h =
    ap (λ v. (if n then none else some v) ∷ bits_shown ns d (suc i))
      (h i (omega arith) (omega arith))
    ∙ ap (λ l. (if n then none else some (bool_get e i)) ∷ l)
        (bits_shown_agree ns d e (suc i) (λ j p q. h j (omega (arith, p)) (omega (arith, q))))

bits_shown-append :
    (ns : List Bool) (n : Bool) (d : List ℕ) (i : ℕ)
    → bits_shown (ns ++ (n ∷ [])) d i
      ≡ bits_shown ns d i ++ ((if n then none else some (bool_get d (i + length ns))) ∷ [])
unfolding bits_shown
bits_shown-append [] n d i =
    let e : i ≡ i + 0 = omega arith in ap (λ k. (if n then none else some (bool_get d k)) ∷ []) e
bits_shown-append (m ∷ ns) n d i =
    let e : suc i + length ns ≡ i + suc (length ns) = omega arith in
    ap (λ l. (if m then none else some (bool_get d i)) ∷ l)
      (bits_shown-append ns n d (suc i)
        ∙ ap (λ k. bits_shown ns d (suc i) ++ ((if n then none else some (bool_get d k)) ∷ [])) e)

-- A bit written at a row, with its entry of the null mask
bits_shown-set :
    (ns : List Bool) (d : List ℕ) (i k : ℕ) (n v : Bool)
    → bits_shown (set ns k n) (bool_set (i + k) v d) i
      ≡ set (bits_shown ns d i) k (if n then none else some v)
unfolding bits_shown
bits_shown-set [] d i k n v = refl
bits_shown-set (m ∷ ns) d i zero n v =
    let e : i + 0 ≡ i = omega arith in
    ap (λ b. (if n then none else some b) ∷ bits_shown ns (bool_set (i + 0) v d) (suc i))
      (ap (λ j. bool_get (bool_set j v d) i) e ∙ bool_get-bool_set_self d i v)
    ∙ ap (λ l. (if n then none else some v) ∷ l)
        (bits_shown_agree ns (bool_set (i + 0) v d) d (suc i)
          (λ j p q. bool_get-bool_set_ne d (i + 0) j v (λ r. absurd (apart j p r))))
  where
    apart : (j : ℕ) → suc i ≤ j → i + 0 ≡ j → ⊥
    apart j p r = omega arith
bits_shown-set (m ∷ ns) d i (suc k) n v =
    let e : i + suc k ≡ suc i + k = omega arith in
    ap
      (λ b.
        (if m then none else some b) ∷ bits_shown (set ns k n) (bool_set (i + suc k) v d) (suc i))
      (bool_get-bool_set_ne d (i + suc k) i v (λ r. apart r))
    ∙ ap (λ l. (if m then none else some (bool_get d i)) ∷ l)
        (ap (λ j. bits_shown (set ns k n) (bool_set j v d) (suc i)) e
          ∙ bits_shown-set ns d (suc i) k n v)
  where
    apart : i + suc k ≡ i → ⊥
    apart r = omega arith

-- A bit set at the end shows nowhere before.
shown_before :
    (ns : List Bool) (d : List ℕ) (v : Bool)
    → bits_shown ns (bool_set (length ns) v d) 0 ≡ bits_shown ns d 0
shown_before ns d v =
    bits_shown_agree ns (bool_set (length ns) v d) d 0
      (λ j p q. bool_get-bool_set_ne d (length ns) j v (λ r. apart j q r))
  where
    apart : (j : ℕ) → j < 0 + length ns → length ns ≡ j → ⊥
    apart j q r = omega arith

length_one : (ns : List Bool) (n : Bool) → length (ns ++ (n ∷ [])) ≡ length ns + 1
length_one ns n = length-append ns (n ∷ [])

last_row :
    (ns : List Bool) (d : List ℕ) (v : Bool) (os : List (Option Bool))
    → bits_shown ns d 0 ≡ os
    → bool_get d (length ns) ≡ v
    → bits_shown (ns ++ (false ∷ [])) d 0 ≡ os ++ (some v ∷ [])
last_row ns d v os e f =
    bits_shown-append ns false d 0
    ∙ ap (λ l. l ++ (some (bool_get d (0 + length ns)) ∷ [])) e
    ∙ ap (λ b. os ++ (some b ∷ [])) (ap (bool_get d) none_ ∙ f)
  where
    none_ : 0 + length ns ≡ length ns
    none_ = omega arith

-- Appending puts the bit or the null behind the others.
pub append-Stores :
    (c : Bools) (os : List (Option Bool)) (o : Option Bool)
    → Stores c os
    → Stores (append o c) (os ++ (o ∷ []))
unfolding append to_list
append-Stores c os none h = record {
  shown =
      bits_shown-append c.nullmask true c.data_ 0
      ∙ ap (λ l. l ++ (none ∷ [])) (unfold to_list in h.shown);
  clear = λ j l. h.clear j (omega (arith, length_one c.nullmask true, l));
}
append-Stores c os (some true) h = record {
  shown =
      last_row c.nullmask (bool_set (length c.nullmask) true c.data_) true os
        (shown_before c.nullmask c.data_ true ∙ (unfold to_list in h.shown))
        (bool_get-bool_set_self c.data_ (length c.nullmask) true);
  clear = λ j l.
      bool_get-bool_set_ne c.data_ (length c.nullmask) j true (λ r. past j l r)
      ∙ h.clear j (omega (arith, length_one c.nullmask false, l));
}
  where
    past : (j : ℕ) → length (c.nullmask ++ (false ∷ [])) ≤ j → length c.nullmask ≡ j → ⊥
    past j l r = omega (arith, length_one c.nullmask false, l, r)
append-Stores c os (some false) h = record {
  shown =
      last_row c.nullmask c.data_ false os (unfold to_list in h.shown)
        (h.clear (length c.nullmask) (omega arith));
  clear = λ j l. h.clear j (omega (arith, length_one c.nullmask false, l));
}

-- The column with a bit and an entry of the null mask written at a row
row_written :
    (c : Bools) (os : List (Option Bool)) (idx : ℕ) (n v : Bool)
    → Stores c os
    → idx < length c.nullmask
    → Stores
        (record { nullmask = set c.nullmask idx n; data_ = bool_set idx v c.data_ })
        (set os idx (if n then none else some v))
row_written c os idx n v h l = record {
  shown =
      unfold to_list in
      (ap (λ k. bits_shown (set c.nullmask idx n) (bool_set k v c.data_) 0) zero_plus
        ∙ bits_shown-set c.nullmask c.data_ 0 idx n v
        ∙ ap (λ r. set r idx (if n then none else some v)) (unfold to_list in h.shown));
  clear = λ j p.
      bool_get-bool_set_ne c.data_ idx j v (λ r. apart j p r)
      ∙ h.clear j (omega (arith, length-set c.nullmask idx n, p));
}
  where
    zero_plus : idx ≡ 0 + idx
    zero_plus = omega arith

    apart : (j : ℕ) → length (set c.nullmask idx n) ≤ j → idx ≡ j → ⊥
    apart j p r = omega (arith, length-set c.nullmask idx n, p, r, l)

rows_of : (c : Bools) (os : List (Option Bool)) → Stores c os → length os ≡ length c.nullmask
rows_of c os h =
    ap length (sym h.shown) ∙ (unfold to_list in length-bits_shown c.nullmask c.data_ 0)

-- Writing at a row that is there writes the list.
pub set_item-Stores :
    (c : Bools) (os : List (Option Bool)) (idx : ℕ) (o : Option Bool)
    → Stores c os
    → idx < length os
    → ((set_item idx o c).0 ≡ ok tt) × Stores (set_item idx o c).1 (set os idx o)
set_item-Stores c os idx o h l =
    elim o as (λ k. ((set_item idx k c).0 ≡ ok tt) × Stores (set_item idx k c).1 (set os idx k)) [
      | none ↦
          subst (λ out. (out.0 ≡ ok tt) × Stores out.1 (set os idx none)) (sym (nulls in_))
            (refl, row_written c os idx true false h here)
      | some v ↦
          subst (λ out. (out.0 ≡ ok tt) × Stores out.1 (set os idx (some v))) (sym (bits v in_))
            (refl, row_written c os idx false v h here)
    ]
  where
    here : idx < length c.nullmask
    here = omega (arith, rows_of c os h, l)

    in_ : ltb idx (length c.nullmask) ≡ true
    in_ = ground (arith, here)

    nulls :
        ltb idx (length c.nullmask) ≡ true
        → set_item idx none c ≡ (
          ok tt,
          record { nullmask = set c.nullmask idx true; data_ = bool_set idx false c.data_ },
        )
    nulls p = unfold set_item in ground (arith, p)

    bits :
        (v : Bool)
        → ltb idx (length c.nullmask) ≡ true
        → set_item idx (some v) c
          ≡ (ok tt, record { nullmask = set c.nullmask idx false; data_ = bool_set idx v c.data_ })
    bits v p = unfold set_item in ground (arith, p)

-- Elsewhere it raises IndexError and changes nothing.
pub set_item-past :
    (c : Bools) (os : List (Option Bool)) (idx : ℕ) (o : Option Bool)
    → Stores c os
    → length os ≤ idx
    → set_item idx o c ≡ (err index_error, c)
unfolding set_item
set_item-past c os idx none h l = ground (arith, rows_of c os h, l)
set_item-past c os idx (some v) h l = ground (arith, rows_of c os h, l)

bits_shown_at :
    (ns : List Bool) (d : List ℕ) (i k : ℕ) (n : Bool)
    → get_elem? ns k ≡ some n
    → get_elem? (bits_shown ns d i) k ≡ some (if n then none else some (bool_get d (i + k)))
unfolding bits_shown
bits_shown_at [] d i k n e = ground (arith, e)
bits_shown_at (m ∷ ns) d i zero n e =
    let z : i ≡ i + 0 = omega arith in ground (arith, e, ap (bool_get d) z)
bits_shown_at (m ∷ ns) d i (suc k) n e =
    let z : suc i + k ≡ i + suc k = omega arith in
    bits_shown_at ns d (suc i) k n e ∙ ap (λ j. some (if n then none else some (bool_get d j))) z

-- Reading gives at each index what the list gives, an IndexError included.
pub get_item_lem :
    (c : Bools) (os : List (Option Bool)) (idx : ℕ) → Stores c os → get_item c idx ≡ at_index os idx
get_item_lem c os idx h = elim (Bool-cases (ltb idx (length c.nullmask))) [
  | inl p ↦
      let (n, e) = elem_at c.nullmask idx (ground (arith, p)) in
      let z : 0 + idx ≡ idx = omega arith in
      let r : get_elem? os idx ≡ some (if n then none else some (bool_get c.data_ idx)) =
        subst (λ l. get_elem? l idx ≡ some (if n then none else some (bool_get c.data_ idx)))
          h.shown
          (unfold to_list in
            (bits_shown_at c.nullmask c.data_ 0 idx n e
              ∙ ap (λ j. some (if n then none else some (bool_get c.data_ j))) z)) in
      unfold get_item at_index in ground (arith, e, r)
  | inr p ↦
      let e : get_elem? c.nullmask idx ≡ none = none_at c.nullmask idx (ground (arith, p)) in
      let r : get_elem? os idx ≡ none = none_at os idx (ground (arith, p, rows_of c os h)) in
      unfold get_item at_index in ground (arith, e, r)
]
