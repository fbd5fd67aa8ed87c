-- ===== src/Db/Unique/Laws.antt =====
-- The unique constraints of `SnapDB` as a map from a column and a value to the row that has it.
use text.Mathlib.TextEquality.{eq_iff}
use snapdb.Prelude.{
  ℕ, ◌≡◌, ◌↔◌, refl, String, Bool, true, false, ◌&&◌, Option, none, some, List, [], ◌∷◌, arith,
  contains, if◌then◌else◌, Option-cases,
}
use snapdb.Prelude.Eq.{◌==◌, nat_eq, string_eq}
use snapdb.Prelude.Dict
use snapdb.Prelude.Dict.{Dict, get-put, get-del}
use snapdb.Result.{ok, err, Error, Result-cases}
use snapdb.Value.{Value, value_eq, eq_value_iff}
use snapdb.Schema.{Row}
use snapdb.Db.{Db}
use snapdb.Db.Unique.{
  unique_key, owners, conflicts, validate_columns, validate_unique, claim_columns, unique_insert,
  release, release_columns, unique_delete, unique_update,
}

abbrev pub Owners : Type 0
Owners = Dict String (Dict Value ℕ)

-- The row that has the value in the column
unfoldable pub owner : Owners → String → Value → Option ℕ
unfolding owners
owner values col key = Dict.get (owners values col) key

owner-put :
    (values : Owners) (c col : String) (d : Dict Value ℕ) (key : Value)
    → owner (Dict.put values c d) col key
      ≡ (if c == col then Dict.get d key else owner values col key)
unfolding owner owners
owner-put values c col d key = ground (arith, get-put values c col d)

-- After the claims of a row it owns its values in the unique columns, and every other value has the
-- owner that it had.
pub owner-claim_columns :
    (cols : List String) (values : Owners) (idx : ℕ) (row : Row) (col : String) (key : Value)
    → owner (claim_columns cols values idx row) col key
      ≡ (if contains col cols && unique_key row col == key then some idx else owner values col key)
unfolding claim_columns owner
owner-claim_columns [] values idx row col key = refl
owner-claim_columns (c ∷ cols) values idx row col key = ground (
  arith,
  eq_iff c col,
  eq_iff col c,
  owner-claim_columns cols (Dict.put values c (Dict.put (owners values c) (unique_key row c) idx))
      idx row col key,
  owner-put values c col (Dict.put (owners values c) (unique_key row c) idx) key,
  get-put (owners values c) (unique_key row c) key idx,
  eq_value_iff (unique_key row c) key,
)

-- The row owns the value in the column.
unfoldable pub owns : Option ℕ → ℕ → Bool
owns none idx = false
owns (some o) idx = o == idx

get-release :
    (d : Dict Value ℕ) (key k : Value) (idx : ℕ)
    → Dict.get (release d key idx) k
      ≡ (if key == k && owns (Dict.get d key) idx then none else Dict.get d k)
unfolding release owns
get-release d key k idx =
    ground (arith, Option-cases (Dict.get d key), get-del d key k, eq_value_iff key k)

-- After the release of a row nothing that it owned among its values in the unique columns has an
-- owner, and every other value has the owner that it had.
pub owner-release_columns :
    (cols : List String) (values : Owners) (idx : ℕ) (row : Row) (col : String) (key : Value)
    → owner (release_columns cols values idx row) col key ≡ (
        if contains col cols && unique_key row col == key && owns (owner values col key) idx
        then none
        else owner values col key)
unfolding release_columns owner owns
owner-release_columns [] values idx row col key = refl
owner-release_columns (c ∷ cols) values idx row col key = ground (
  arith,
  eq_iff c col,
  eq_iff col c,
  owner-release_columns cols (Dict.put values c (release (owners values c) (unique_key row c) idx))
      idx row col key,
  owner-put values c col (release (owners values c) (unique_key row c) idx) key,
  get-release (owners values c) (unique_key row c) key idx,
  eq_value_iff (unique_key row c) key,
)

-- No row but the one that is being changed owns the value, which the test decides.
conflicts_lem :
    (own existing : Option ℕ)
    → (conflicts own existing ≡ false) ↔ ((o : ℕ) → own ≡ some o → existing ≡ some o)
unfolding conflicts
conflicts_lem none existing = ((λ e o p. ground arith), (λ h. refl))
conflicts_lem (some j) none = ((λ e o p. ground arith), (λ h. ground (arith, h j refl)))
conflicts_lem (some j) (some idx) = ((λ e o p. ground arith), (λ h. ground (arith, h j refl)))

-- The check of the unique constraints accepts a row exactly when in every unique column the row
-- that owns its value, if there is one, is the row that is being changed.
pub validate_columns-owner :
    (cols : List String) (values : Owners) (row : Row) (existing : Option ℕ)
    → (validate_columns cols values row existing ≡ ok tt) ↔ (
        (col : String)
        → contains col cols ≡ true
        → (o : ℕ) → owner values col (unique_key row col) ≡ some o
        → existing ≡ some o)
unfolding validate_columns owner
validate_columns-owner [] values row existing = ((λ e col c. ground arith), (λ h. refl))
validate_columns-owner (c ∷ cols) values row existing = (
  (λ e col m o p. ground (
    arith,
    eq_iff col c,
    λ (t : validate_columns cols values row existing ≡ ok tt).
        (validate_columns-owner cols values row existing).0 t col,
    conflicts_lem (owner values col (unique_key row col)) existing,
    e,
  )),
  (λ h. ground (
    arith,
    (conflicts_lem (owner values c (unique_key row c)) existing).1
        (h c (ground (arith, eq_iff c c))),
    (validate_columns-owner cols values row existing).1 (λ col m. h col (ground arith)),
  )),
)

module _ (db : Db) (idx : ℕ) (old_row new_row : Row) where
  -- An update that the unique constraints reject leaves every value of every column with the owner
  -- that it had, where the row owned its old values.
  pub unique_update-rejected :
      {e : Error}
      → ((col : String)
          → contains col db.unique_columns ≡ true
          → owner db.unique_values col (unique_key old_row col) ≡ some idx)
      → (unique_update idx old_row new_row db).0 ≡ err e
      → (col : String) (key : Value)
      → owner (unique_update idx old_row new_row db).1.unique_values col key
        ≡ owner db.unique_values col key
  unfolding unique_update unique_delete unique_insert
  unique_update-rejected h r col key = ground (
    arith,
    Result-cases (validate_unique (unique_delete db idx old_row) new_row (some idx)),
    owner-claim_columns db.unique_columns
        (release_columns db.unique_columns db.unique_values idx old_row) idx old_row col key,
    owner-release_columns db.unique_columns db.unique_values idx old_row col key,
    h col,
    eq_value_iff (unique_key old_row col) key,
    r,
  )
