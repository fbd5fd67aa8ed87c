-- ===== src/Index/RowSet.antt =====
-- Python sets of row numbers, as the indexes use them, and `sorted`.
use snapdb.Prelude.{
  ℕ, ◌<◌, ◌≡◌, refl, Bool, true, false, ◌&&◌, ◌||◌, not, List, [], ◌∷◌, arith, leb, if◌then◌else◌,
  contains, ◌∙◌, ◌≢◌,
}
use snapdb.Prelude.Eq.{◌==◌, nat_eq}

abbrev pub RowSet : Type 0
RowSet = List ℕ

-- s.add(i)
unfoldable pub add : ℕ → RowSet → RowSet
add i s = if contains i s then s else i ∷ s

-- s.discard(i)
unfoldable pub discard : ℕ → RowSet → RowSet
discard i [] = []
discard i (x ∷ s) = let rest = discard i s in if i == x then rest else x ∷ rest

-- s & t
unfoldable pub intersect : RowSet → RowSet → RowSet
intersect [] t = []
intersect (x ∷ s) t = let rest = intersect s t in if contains x t then x ∷ rest else rest

-- `not s`
abbrev pub is_empty {ℓ} : {A : Type ℓ} → List A → Bool
is_empty [] = true
is_empty (x ∷ s) = false

insert_sorted : ℕ → RowSet → RowSet
insert_sorted i [] = i ∷ []
insert_sorted i (x ∷ s) = if leb i x then i ∷ x ∷ s else x ∷ insert_sorted i s

-- sorted(s)
unfoldable pub sorted : RowSet → RowSet
unfolding insert_sorted
sorted [] = []
sorted (x ∷ s) = insert_sorted x (sorted s)

pub contains-add : (j i : ℕ) (s : RowSet) → contains j (add i s) ≡ (j == i || contains j s)
unfolding add
contains-add j i s = grind (arith, contains_lem)
  where
    contains_lem : j ≡ i → contains i s ≡ true → contains j s ≡ true
    contains_lem e h = ground arith

pub contains-discard :
    (j i : ℕ) (s : RowSet) → contains j (discard i s) ≡ (contains j s && not (j == i))
unfolding discard
contains-discard j i [] = refl
contains-discard j i (x ∷ s) = ground (arith, contains-discard j i s)

pub contains-intersect :
    (j : ℕ) (s t : RowSet) → contains j (intersect s t) ≡ (contains j s && contains j t)
unfolding intersect
contains-intersect j [] t = refl
contains-intersect j (x ∷ s) t = ground (arith, contains-intersect j s t)

contains-insert_sorted :
    (j i : ℕ) (s : RowSet) → contains j (insert_sorted i s) ≡ (j == i || contains j s)
unfolding insert_sorted
contains-insert_sorted j i [] = refl
contains-insert_sorted j i (x ∷ s) = ground (arith, contains-insert_sorted j i s)

pub contains-sorted : (j : ℕ) (s : RowSet) → contains j (sorted s) ≡ contains j s
unfolding sorted
contains-sorted j [] = refl
contains-sorted j (x ∷ s) =
    ground (arith, contains-insert_sorted j x (sorted s), contains-sorted j s)

-- No row number stands twice.
abbrev pub IsDistinct : RowSet → Type 0
IsDistinct [] = Unit
IsDistinct (x ∷ s) = (contains x s ≡ false) × IsDistinct s

-- In strictly ascending order.
abbrev pub IsAbove : ℕ → RowSet → Type 0
IsAbove i [] = Unit
IsAbove i (x ∷ s) = (i < x) × IsAbove i s

abbrev pub IsAscending : RowSet → Type 0
IsAscending [] = Unit
IsAscending (x ∷ s) = IsAbove x s × IsAscending s

pub add-IsDistinct : (i : ℕ) (s : RowSet) → IsDistinct s → IsDistinct (add i s)
unfolding add
add-IsDistinct i s h = ground arith

pub discard-IsDistinct : (i : ℕ) (s : RowSet) → IsDistinct s → IsDistinct (discard i s)
unfolding discard
discard-IsDistinct i [] h = h
discard-IsDistinct i (x ∷ s) h = ground (arith, discard-IsDistinct i s h.1, contains-discard x i s)

pub intersect-IsDistinct : (s t : RowSet) → IsDistinct s → IsDistinct (intersect s t)
unfolding intersect
intersect-IsDistinct [] t h = h
intersect-IsDistinct (x ∷ s) t h =
    ground (arith, intersect-IsDistinct s t h.1, contains-intersect x s t)

IsAbove-insert_sorted : (j i : ℕ) (s : RowSet) → j < i → IsAbove j s → IsAbove j (insert_sorted i s)
unfolding insert_sorted
IsAbove-insert_sorted j i [] h a = (h, tt)
IsAbove-insert_sorted j i (x ∷ s) h a = ground (arith, IsAbove-insert_sorted j i s h a.1)

IsAbove-trans : (i j : ℕ) (s : RowSet) → i < j → IsAbove j s → IsAbove i s
IsAbove-trans i j [] h a = tt
IsAbove-trans i j (x ∷ s) h a = (omega arith, IsAbove-trans i j s h a.1)

insert_sorted-IsAscending :
    (i : ℕ) (s : RowSet) → contains i s ≡ false → IsAscending s → IsAscending (insert_sorted i s)
unfolding insert_sorted
insert_sorted-IsAscending i [] n h = (tt, tt)
insert_sorted-IsAscending i (x ∷ s) n h =
    ground (arith, IsAbove-trans i x s, IsAbove-insert_sorted x i s, insert_sorted-IsAscending i s)

-- `sorted` of a set is strictly ascending.
pub sorted-IsAscending : (s : RowSet) → IsDistinct s → IsAscending (sorted s)
unfolding sorted
sorted-IsAscending [] h = h
sorted-IsAscending (x ∷ s) h =
    insert_sorted-IsAscending x (sorted s) (contains-sorted x s ∙ h.0) (sorted-IsAscending s h.1)

pub add-ne-nil : (i : ℕ) (s : RowSet) → add i s ≢ []
unfolding add
add-ne-nil i [] e = cc
add-ne-nil i (x ∷ s) e = ground arith

insert_sorted-ne-nil : (i : ℕ) (s : RowSet) → is_empty (insert_sorted i s) ≡ false
unfolding insert_sorted
insert_sorted-ne-nil i [] = refl
insert_sorted-ne-nil i (x ∷ s) = ground arith

pub is_empty-sorted : (s : RowSet) → is_empty (sorted s) ≡ is_empty s
unfolding sorted
is_empty-sorted [] = refl
is_empty-sorted (x ∷ s) = insert_sorted-ne-nil x (sorted s)
