-- ===== src/Index/Multi/Laws.antt =====
-- What a lookup on several columns returns.
use snapdb.Prelude.{
  ℕ, String, ◌≡◌, refl, Bool, true, false, ◌&&◌, Option, none, some, Bool-cases, inl, inr, List, [],
  ◌∷◌, if◌then◌else◌, arith, contains,
}
use snapdb.Prelude.Eq.{nat_eq, string_eq}
use snapdb.Prelude.Dict
use snapdb.Prelude.Dict.{Dict}
use snapdb.Result.{Result, ok}
use snapdb.Value.{Value, norm_value}
use snapdb.Index.RowSet.{
  RowSet, intersect, sorted, is_empty, contains-intersect, contains-sorted, IsDistinct, IsAbove,
  IsAscending, sorted-IsAscending, intersect-IsDistinct,
}
use snapdb.Index.Hash
use snapdb.Index.Hash.{HashIndex}
use snapdb.Index.Hash.Laws.{lists, IsTidy, lookup_lem}
use snapdb.Index.Multi.{MultiIndex, narrow, lookup_from, lookup}

-- The row is listed under the value in the index of every given column.
unfoldable pub all_list : MultiIndex → List (String × Value) → ℕ → Bool
all_list m [] j = true
all_list m ((col, val) ∷ rest) j = elim (Dict.get m col) [
  | none ↦ false
  | some idx ↦ lists idx.index (norm_value val) j && all_list m rest j
]

-- Every given column has an index, and it is tidy.
abbrev pub AreIndexed : MultiIndex → List (String × Value) → Type 0
AreIndexed m [] = Unit
AreIndexed m ((col, val) ∷ rest) =
    ((idx : HashIndex) × (Dict.get m col ≡ some idx) × IsTidy idx.index) × AreIndexed m rest

-- The rows found so far, when no column has been looked up: all rows.
abbrev so_far : Option RowSet → ℕ → Bool
so_far none j = true
so_far (some results) j = contains j results

abbrev Distinct? : Option RowSet → Type 0
Distinct? none = Unit
Distinct? (some results) = IsDistinct results

-- What a lookup promises: the rows of the result, in ascending order.
abbrev Finds : Result RowSet → (ℕ → Bool) → Type 0
Finds r P = (l : RowSet) × (r ≡ ok l) × ((j : ℕ) → contains j l ≡ P j) × IsAscending l

above-contains : (x : ℕ) (s : RowSet) → IsAbove x s → contains x s ≡ false
above-contains x [] h = refl
above-contains x (y ∷ s) h = ground (arith, above-contains x s h.1)

ascending-IsDistinct : (s : RowSet) → IsAscending s → IsDistinct s
ascending-IsDistinct [] h = tt
ascending-IsDistinct (x ∷ s) h = (above-contains x s h.0, ascending-IsDistinct s h.1)

narrow-IsDistinct :
    (results : Option RowSet) (s : RowSet)
    → Distinct? results
    → IsAscending s
    → IsDistinct (narrow results s)
unfolding narrow
narrow-IsDistinct none s h a = ascending-IsDistinct s a
narrow-IsDistinct (some r) s h a = intersect-IsDistinct r s h

contains-narrow :
    (results : Option RowSet) (s : RowSet) (j : ℕ)
    → contains j (narrow results s) ≡ (so_far results j && contains j s)
unfolding narrow
contains-narrow none s j = refl
contains-narrow (some r) s j = contains-intersect j r s

nothing_left : (found : RowSet) (j : ℕ) → is_empty found ≡ true → contains j found ≡ false
nothing_left [] j h = refl
nothing_left (x ∷ found) j h = cc

lookup_from_round :
    (m : MultiIndex) (results : Option RowSet) (col : String) (val : Value)
    (rest : List (String × Value)) {idx : HashIndex}
    → Dict.get m col ≡ some idx
    → lookup_from m results ((col, val) ∷ rest) ≡ (
        if is_empty (narrow results (Hash.lookup idx val))
        then ok []
        else lookup_from m (some (narrow results (Hash.lookup idx val))) rest)
unfolding lookup_from
lookup_from_round m none col val rest e = rw (e, lookup_from)
lookup_from_round m (some r) col val rest e = rw (e, lookup_from)

all_list_round :
    (m : MultiIndex) (col : String) (val : Value) (rest : List (String × Value)) (j : ℕ)
    {idx : HashIndex}
    → Dict.get m col ≡ some idx
    → all_list m ((col, val) ∷ rest) j ≡ (lists idx.index (norm_value val) j && all_list m rest j)
unfolding all_list
all_list_round m col val rest j e = rw (e, all_list)

-- One round of the loop, when the rest of it finds what it should.
round-Finds :
    (m : MultiIndex) (results : Option RowSet) (col : String) (val : Value)
    (rest : List (String × Value)) (idx : HashIndex)
    → Dict.get m col ≡ some idx
    → IsTidy idx.index
    → Finds
        (lookup_from m (some (narrow results (Hash.lookup idx val))) rest)
        (λ j. contains j (narrow results (Hash.lookup idx val)) && all_list m rest j)
    → Finds
        (lookup_from m results ((col, val) ∷ rest))
        (λ j. so_far results j && all_list m ((col, val) ∷ rest) j)
round-Finds m results col val rest idx e tidy (l, r, member, order) =
    elim (Bool-cases (is_empty (narrow results (Hash.lookup idx val)))) [
      | inl none_left ↦
          ([], ground (arith, step), λ j. ground (arith, joint j, nothing_left _ j none_left), tt)
      | inr some_left ↦ (l, ground (arith, step), λ j. ground (arith, joint j, member j), order)
    ]
  where
    step : lookup_from m results ((col, val) ∷ rest) ≡ (
        if is_empty (narrow results (Hash.lookup idx val))
        then ok []
        else lookup_from m (some (narrow results (Hash.lookup idx val))) rest)
    step = lookup_from_round m results col val rest e

    joint :
        (j : ℕ)
        → (so_far results j && all_list m ((col, val) ∷ rest) j)
          ≡ (contains j (narrow results (Hash.lookup idx val)) && all_list m rest j)
    joint j = ground (
      arith,
      all_list_round m col val rest j e,
      contains-narrow results (Hash.lookup idx val) j,
      (lookup_lem idx val tidy).0 j,
    )

lookup_from_lem :
    (m : MultiIndex) (results : RowSet) (kwargs : List (String × Value))
    → IsDistinct results
    → AreIndexed m kwargs
    → Finds (lookup_from m (some results) kwargs) (λ j. contains j results && all_list m kwargs j)
unfolding narrow
lookup_from_lem m results [] d h = (
  sorted results,
  unfold lookup_from in refl,
  λ j. unfold all_list in ground (arith, contains-sorted j results),
  sorted-IsAscending results d,
)
lookup_from_lem m results ((col, val) ∷ rest) d ((idx, e, tidy), h) =
    round-Finds m (some results) col val rest idx e tidy (
      lookup_from_lem m (intersect results (Hash.lookup idx val)) rest
        (intersect-IsDistinct results (Hash.lookup idx val) d) h)

-- With a tidy index on every given column and at least one column, MultiIndex.lookup returns the
-- rows that all of the indexes list under the given values, in ascending order.
pub lookup-all_list :
    (m : MultiIndex) (col : String) (val : Value) (kwargs : List (String × Value))
    → AreIndexed m ((col, val) ∷ kwargs)
    → (l : RowSet) × (lookup m ((col, val) ∷ kwargs) ≡ ok (some l))
      × ((j : ℕ) → contains j l ≡ all_list m ((col, val) ∷ kwargs) j)
      × IsAscending l
unfolding narrow
lookup-all_list m col val kwargs ((idx, e, tidy), h) =
    let (l, r, member, order) = round-Finds m none col val kwargs idx e tidy (
      lookup_from_lem m (Hash.lookup idx val) kwargs
        (narrow-IsDistinct none (Hash.lookup idx val) tt (lookup_lem idx val tidy).1) h) in
    (l, unfold lookup in rw (r, lookup), member, order)
