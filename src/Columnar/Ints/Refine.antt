-- ===== src/Columnar/Ints/Refine.antt =====
-- An integer column against what it stands for: a list with a number or a null for each row.
pub mod Reads
pub mod Writes
pub mod Run
use snapdb.Prelude.{
  ℕ, ◌<◌, ◌≡◌, Bool, true, Option, none, some, List, [], ◌∷◌, ◌++◌, length, set, ltb, if◌then◌else◌,
}
use snapdb.Prelude.Int.{ℤ, pos}
use snapdb.Result.{Result, ok, err, index_error}
use snapdb.Schema.{Code}
use snapdb.Columnar.Nulls.{with_nulls}
use snapdb.Columnar.Ints.{Ints, fits, all_fit}
use snapdb.Columnar.Ints.View.{View}
use snapdb.Columnar.Ints.Access.{append, set_item}

-- A null, or a number that fits the column's type
abbrev pub Fits : Code → Option ℤ → Type 0
Fits code none = Unit
Fits code (some v) = fits code v ≡ true

-- The column stores a number that fits for each row, and the nulls hide some: the rest is the list.
pub record Stores (c : Ints) (os : List (Option ℤ)) : Type 0 where
  pub numbers : List ℤ
  pub view : View c numbers
  pub fit : all_fit c.code numbers ≡ true
  pub zero_fits : fits c.code (pos 0) ≡ true
  pub aligned : length c.nullmask ≡ length numbers
  pub shown : with_nulls c.nullmask numbers ≡ os

-- A change of a column: a value appended, or a value written at a row
pub data Change : Type 0 where
  appended : Option ℤ → Change
  written : ℕ → Option ℤ → Change

unfoldable pub change : Change → Ints → Result (Unit {0}) × Ints
unfolding append set_item
change (appended o) c = append o c
change (written i o) c = set_item i o c

-- The change on the list, which raises IndexError at a row that is not there
unfoldable pub list_change : Change → List (Option ℤ) → Result (Unit {0}) × List (Option ℤ)
list_change (appended o) os = (ok tt, os ++ (o ∷ []))
list_change (written i o) os =
    if ltb i (length os) then (ok tt, set os i o) else (err index_error, os)

-- The changes in turn, each with what it gave; a caller that goes on after an error is covered.
unfoldable pub run : List Change → Ints → List (Result (Unit {0})) × Ints
unfolding change
run [] c = ([], c)
run (k ∷ ks) c = ((change k c).0 ∷ (run ks (change k c).1).0, (run ks (change k c).1).1)

unfoldable pub list_run : List Change → List (Option ℤ) → List (Result (Unit {0})) × List (Option ℤ)
unfolding list_change
list_run [] os = ([], os)
list_run (k ∷ ks) os = (
  (list_change k os).0 ∷ (list_run ks (list_change k os).1).0,
  (list_run ks (list_change k os).1).1,
)

abbrev pub ChangeFits : Code → Change → Type 0
ChangeFits code (appended o) = Fits code o
ChangeFits code (written i o) = Fits code o

abbrev pub ChangesFit : Code → List Change → Type 0
ChangesFit code [] = Unit
ChangesFit code (k ∷ ks) = ChangeFits code k × ChangesFit code ks
