-- ===== src/Bytes/Slices.antt =====
-- Cutting a buffer into rows: slices of slices.
use native.Mathlib.Nat.{zero-add, suc-add}
use snapdb.Prelude.{ℕ, zero, suc, ◌+◌, ◌≤◌, ◌≡◌, refl, ap, ◌∙◌, List, [], ◌∷◌, arith, take, drop}
use snapdb.Bytes.{slice}

module _ {ℓ} {A : Type ℓ} where
  pub take-take_le : (n m : ℕ) (xs : List A) → n ≤ m → take n (take m xs) ≡ take n xs
  take-take_le zero m xs h = refl
  take-take_le (suc n) zero xs h = absurd (omega arith)
  take-take_le (suc n) (suc m) [] h = refl
  take-take_le (suc n) (suc m) (x ∷ xs) h = ap (◌∷◌ x) (take-take_le n m xs (omega arith))

  pub drop-nil : (n : ℕ) → ◌≡◌ {A = List A} (drop n []) []
  drop-nil zero = refl
  drop-nil (suc n) = refl

  pub drop-drop : (n m : ℕ) (xs : List A) → drop n (drop m xs) ≡ drop (m + n) xs
  drop-drop n zero xs = rw zero-add
  drop-drop n (suc m) [] = rw suc-add (drop-nil n)
  drop-drop n (suc m) (x ∷ xs) = rw suc-add (drop-drop n m xs)

  take-nil : (m : ℕ) → ◌≡◌ {A = List A} [] (take m [])
  take-nil zero = refl
  take-nil (suc m) = refl

  pub drop-take : (n m : ℕ) (xs : List A) → drop n (take (n + m) xs) ≡ take m (drop n xs)
  drop-take zero m xs = rw zero-add
  drop-take (suc n) m [] = rw suc-add (take-nil m)
  drop-take (suc n) m (x ∷ xs) = rw suc-add (drop-take n m xs)

-- The first row of a buffer of rows, and the buffer of the rest.
pub slice_first : (w n at : ℕ) (mm : List ℕ) → take w (slice at (w + n) mm) ≡ slice at w mm
unfolding slice
slice_first w n at mm = take-take_le w (w + n) (drop at mm) (omega arith)

pub slice_rest : (w n at : ℕ) (mm : List ℕ) → drop w (slice at (w + n) mm) ≡ slice (at + w) n mm
unfolding slice
slice_rest w n at mm = drop-take w n (drop at mm) ∙ ap (take n) (drop-drop w at mm)
