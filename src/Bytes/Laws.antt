-- ===== src/Bytes/Laws.antt =====
-- What a slice of the mapped file holds after a write.
use snapdb.Prelude.{
  ℕ, zero, suc, ◌+◌, ◌-◌, ◌≤◌, ◌≡◌, refl, ap, subst, ◌⊎◌, inl, inr, List, [], ◌∷◌, ◌++◌, arith,
  take, drop, replicate, length, length-append, length-take, length-drop, length-replicate,
}
use snapdb.Bytes.{slice, write, fit, rstrip}

pub length-write : (mm : List ℕ) (a : ℕ) (raw : List ℕ) → length (write mm a raw) ≡ length mm
unfolding write
length-write [] a raw = refl
length-write (x ∷ mm) a [] = refl
length-write (x ∷ mm) zero (b ∷ raw) = ap suc (length-write mm zero raw)
length-write (x ∷ mm) (suc a) (b ∷ raw) = ap suc (length-write mm a (b ∷ raw))

pub length-slice : (a n : ℕ) (mm : List ℕ) → a + n ≤ length mm → length (slice a n mm) ≡ n
unfolding slice
length-slice a n mm h = omega (arith, length-take n (drop a mm), length-drop a mm)

-- A slice that was just assigned holds what was assigned.
pub slice-write_self :
    (mm : List ℕ) (a : ℕ) (raw : List ℕ)
    → a + length raw ≤ length mm
    → slice a (length raw) (write mm a raw) ≡ raw
unfolding slice write
slice-write_self [] a [] h = refl
slice-write_self [] a (b ∷ raw) h = absurd (omega arith)
slice-write_self (x ∷ mm) a [] h = refl
slice-write_self (x ∷ mm) zero (b ∷ raw) h = ap (◌∷◌ b) (slice-write_self mm zero raw (omega arith))
slice-write_self (x ∷ mm) (suc a) (b ∷ raw) h = slice-write_self mm a (b ∷ raw) (omega arith)

pub slice_written :
    (mm : List ℕ) (a : ℕ) (raw : List ℕ) (n : ℕ)
    → length raw ≡ n
    → a + n ≤ length mm
    → slice a n (write mm a raw) ≡ raw
slice_written mm a raw n e h =
    subst (λ n. slice a n (write mm a raw) ≡ raw) e (slice-write_self mm a raw (omega arith))

-- A slice that ends before the assigned one starts is as it was.
slice-write_before :
    (mm : List ℕ) (a : ℕ) (raw : List ℕ) (c n : ℕ)
    → c + n ≤ a
    → slice c n (write mm a raw) ≡ slice c n mm
unfolding slice write
slice-write_before [] a raw c n h = refl
slice-write_before (x ∷ mm) a [] c n h = refl
slice-write_before (x ∷ mm) zero (b ∷ raw) c zero h = refl
slice-write_before (x ∷ mm) zero (b ∷ raw) c (suc n) h = absurd (omega arith)
slice-write_before (x ∷ mm) (suc a) (b ∷ raw) zero zero h = refl
slice-write_before (x ∷ mm) (suc a) (b ∷ raw) zero (suc n) h =
    ap (◌∷◌ x) (slice-write_before mm a (b ∷ raw) zero n (omega arith))
slice-write_before (x ∷ mm) (suc a) (b ∷ raw) (suc c) n h =
    slice-write_before mm a (b ∷ raw) c n (omega arith)

-- So is a slice that starts after the assigned one ends.
slice-write_after :
    (mm : List ℕ) (a : ℕ) (raw : List ℕ) (c n : ℕ)
    → a + length raw ≤ c
    → slice c n (write mm a raw) ≡ slice c n mm
unfolding slice write
slice-write_after [] a raw c n h = refl
slice-write_after (x ∷ mm) a [] c n h = refl
slice-write_after (x ∷ mm) zero (b ∷ raw) zero n h = absurd (omega arith)
slice-write_after (x ∷ mm) zero (b ∷ raw) (suc c) n h =
    slice-write_after mm zero raw c n (omega arith)
slice-write_after (x ∷ mm) (suc a) (b ∷ raw) zero n h = absurd (omega arith)
slice-write_after (x ∷ mm) (suc a) (b ∷ raw) (suc c) n h =
    slice-write_after mm a (b ∷ raw) c n (omega arith)

pub slice-write_disjoint :
    (mm : List ℕ) (a : ℕ) (raw : List ℕ) (c n : ℕ)
    → (c + n ≤ a) ⊎ (a + length raw ≤ c)
    → slice c n (write mm a raw) ≡ slice c n mm
slice-write_disjoint mm a raw c n (inl h) = slice-write_before mm a raw c n h
slice-write_disjoint mm a raw c n (inr h) = slice-write_after mm a raw c n h

pub length-fit : (w : ℕ) (raw : List ℕ) → length (fit w raw) ≡ w
unfolding fit
length-fit w raw = omega (
  arith,
  length-append (take w raw) (replicate (w - length raw) 0),
  length-take w raw,
  length-replicate {A = ℕ} (w - length raw) 0,
)

rstrip-zeros : (n : ℕ) → rstrip (replicate n 0) ≡ []
unfolding rstrip
rstrip-zeros zero = refl
rstrip-zeros (suc n) = ground (arith, rstrip-zeros n)

-- Padding at the end is stripped again.
pub rstrip-append-zeros : (raw : List ℕ) (n : ℕ) → rstrip (raw ++ replicate n 0) ≡ rstrip raw
unfolding rstrip
rstrip-append-zeros [] n = rstrip-zeros n
rstrip-append-zeros (b ∷ raw) n = ground (arith, rstrip-append-zeros raw n)

pub rstrip-fit : (w : ℕ) (raw : List ℕ) → rstrip (fit w raw) ≡ rstrip (take w raw)
unfolding fit
rstrip-fit w raw = rstrip-append-zeros (take w raw) (w - length raw)

pub take_of_length-le : (w : ℕ) (raw : List ℕ) → length raw ≤ w → take w raw ≡ raw
take_of_length-le (suc w) (b ∷ raw) short = ap (λ l. b ∷ l) (take_of_length-le w raw (omega arith))
take_of_length-le zero (b ∷ raw) short = absurd (omega arith)
take_of_length-le (suc w) [] short = refl
take_of_length-le zero [] short = refl

pub take-append : (xs ys : List ℕ) → take (length xs) (xs ++ ys) ≡ xs
take-append [] ys = refl
take-append (x ∷ xs) ys = ap (◌∷◌ x) (take-append xs ys)

pub drop-append : (xs ys : List ℕ) → drop (length xs) (xs ++ ys) ≡ ys
drop-append [] ys = refl
drop-append (x ∷ xs) ys = drop-append xs ys
