-- ===== src/Db/Ranges/Join.antt =====
-- The hash join of `SnapDB.join` against a nested loop.
use snapdb.Prelude.{
  ℕ, ◌≡◌, refl, sym, ap, ◌∙◌, String, true, List, [], ◌∷◌, ◌++◌, map, arith, if◌then◌else◌,
  Bool-cases, Option-cases, inl, inr,
}
use snapdb.Prelude.Eq.{◌==◌}
use snapdb.Prelude.Dict
use snapdb.Prelude.Dict.{Dict, get-put}
use snapdb.Result.{ok}
use snapdb.Value.{Value, value_eq, eq_value_iff}
use snapdb.Schema.{Row, get_or_none, has_column}
use snapdb.Db.{Db, iter}
use snapdb.Db.Ranges.{append_to, right_map, rows_for, join_rows, join}

-- The rows of a scan whose value in the column is the key, in order.
unfoldable pub rows_where : String → Value → List (ℕ × Row) → List Row
rows_where column key [] = []
rows_where column key ((i, row) ∷ rows) =
    let rest = rows_where column key rows in
    if get_or_none row column == key then row ∷ rest else rest

-- Each left row with each right row of the same value, in the order of two nested loops.
unfoldable pub nested_loop : String → String → List (ℕ × Row) → List (ℕ × Row) → List (Row × Row)
unfolding rows_where
nested_loop left_column right_column right [] = []
nested_loop left_column right_column right ((i, left) ∷ rows) =
    map (λ r. (left, r)) (rows_where right_column (get_or_none left left_column) right)
    ++ nested_loop left_column right_column right rows

append_assoc {ℓ} : {A : Type ℓ} (xs ys zs : List A) → (xs ++ ys) ++ zs ≡ xs ++ (ys ++ zs)
append_assoc [] ys zs = refl
append_assoc (x ∷ xs) ys zs = ap (λ l. x ∷ l) (append_assoc xs ys zs)

append_nil {ℓ} : {A : Type ℓ} (xs : List A) → xs ++ [] ≡ xs
append_nil [] = refl
append_nil (x ∷ xs) = ap (λ l. x ∷ l) (append_nil xs)

rows_for-append_to :
    (d : Dict Value (List Row)) (k key : Value) (row : Row)
    → rows_for (append_to d k row) key
      ≡ (if k == key then rows_for d key ++ (row ∷ []) else rows_for d key)
unfolding rows_for append_to
rows_for-append_to d k key row = elim (Option-cases (Dict.get d k)) [
  | inl e ↦ ground (arith, e, eq_value_iff k key, get-put d k key (row ∷ []))
  | inr (rows, e) ↦ ground (arith, e, eq_value_iff k key, get-put d k key (rows ++ (row ∷ [])))
]

rows_for-right_map :
    (column : String) (key : Value) (rows : List (ℕ × Row)) (d : Dict Value (List Row))
    → rows_for (right_map column d rows) key ≡ rows_for d key ++ rows_where column key rows
unfolding right_map rows_where
rows_for-right_map column key [] d = sym (append_nil (rows_for d key))
rows_for-right_map column key ((i, row) ∷ rows) d =
    rows_for-right_map column key rows (append_to d (get_or_none row column) row)
    ∙ elim (Bool-cases (get_or_none row column == key)) [
      | inl e ↦
          rw (rows_for-append_to d (get_or_none row column) key row, e)
            (append_assoc (rows_for d key) (row ∷ []) (rows_where column key rows))
      | inr e ↦ rw (rows_for-append_to d (get_or_none row column) key row, e)
    ]

join_rows-nested :
    (left_column right_column : String) (right left : List (ℕ × Row))
    → join_rows left_column (right_map right_column [] right) left
      ≡ nested_loop left_column right_column right left
unfolding join_rows nested_loop rows_for Dict.get
join_rows-nested lc rc right [] = refl
join_rows-nested lc rc right ((i, row) ∷ rows) =
    rw (rows_for-right_map rc (get_or_none row lc) right [], join_rows-nested lc rc right rows)

-- On columns that the two schemas have, join returns exactly the pairs of rows with equal values,
-- in the order of two nested loops over the two databases.
pub join-nested_loop :
    (db other : Db) (left_column right_column : String)
    → has_column db.schema left_column ≡ true
    → has_column other.schema right_column ≡ true
    → join db other left_column right_column
      ≡ ok (nested_loop left_column right_column (iter other) (iter db))
unfolding join
join-nested_loop db other lc rc hl hr = rw (hl, hr, join_rows-nested lc rc (iter other) (iter db))
