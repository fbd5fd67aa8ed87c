-- ===== src/Index/Hash/Laws.antt =====
-- A hash index as a relation between keys and row numbers: what each operation does to it.
use snapdb.Prelude.{
  ℕ, String, Bool-cases, ◌≡◌, Bool, ◌&&◌, ◌||◌, not, some, [], arith, if◌then◌else◌, contains, inl,
  inr, ◌≢◌,
}
use snapdb.Prelude.Eq.{◌==◌, nat_eq}
use snapdb.Prelude.Dict
use snapdb.Prelude.Dict.{Dict, get-put, get-del}
use snapdb.Value.{Value, value_eq, eq_value_iff, norm_value}
use snapdb.Schema.{Row}
use snapdb.Index.RowSet.{
  RowSet, add, discard, is_empty, add-ne-nil, is_empty-sorted, contains-add, contains-discard,
  contains-sorted, IsDistinct, IsAscending, add-IsDistinct, discard-IsDistinct, sorted-IsAscending,
}
use snapdb.Index.Hash.{
  HashIndex, init, key_of, rows_at, add_row, remove_row, insert, update, delete, lookup, has,
}

-- The index lists the row under the key.
unfoldable pub lists : Dict Value RowSet → Value → ℕ → Bool
lists d key j = contains j (rows_at d key)

rows_at-put :
    (d : Dict Value RowSet) (k key : Value) (s : RowSet)
    → rows_at (Dict.put d k s) key ≡ (if k == key then s else rows_at d key)
unfolding rows_at
rows_at-put d k key s = ground (arith, get-put d k key s)

rows_at-del :
    (d : Dict Value RowSet) (k key : Value)
    → rows_at (Dict.del d k) key ≡ (if k == key then [] else rows_at d key)
unfolding rows_at
rows_at-del d k key = ground (arith, get-del d k key)

rows_at-add_row :
    (d : Dict Value RowSet) (k key : Value) (i : ℕ)
    → rows_at (add_row d k i) key ≡ (if k == key then add i (rows_at d k) else rows_at d key)
unfolding add_row
rows_at-add_row d k key i = rows_at-put d k key (add i (rows_at d k))

rows_at-remove_row :
    (d : Dict Value RowSet) (k key : Value) (i : ℕ)
    → rows_at (remove_row d k i) key ≡ (if k == key then discard i (rows_at d k) else rows_at d key)
unfolding remove_row rows_at
rows_at-remove_row d k key i = ground (
  arith,
  eq_value_iff k key,
  get-put d k key (discard i (rows_at d k)),
  get-del (Dict.put d k (discard i (rows_at d k))) k key,
)

lists-add_row :
    (d : Dict Value RowSet) (k key : Value) (i j : ℕ)
    → lists (add_row d k i) key j ≡ (k == key && j == i || lists d key j)
unfolding lists
lists-add_row d k key i j =
    rw rows_at-add_row (ground (arith, eq_value_iff k key, contains-add j i (rows_at d k)))

lists-remove_row :
    (d : Dict Value RowSet) (k key : Value) (i j : ℕ)
    → lists (remove_row d k i) key j ≡ (lists d key j && not (k == key && j == i))
unfolding lists
lists-remove_row d k key i j =
    rw rows_at-remove_row (ground (arith, eq_value_iff k key, contains-discard j i (rows_at d k)))

-- After an insert the hash index lists the row under its key, and every other row as before.
pub lists-insert :
    (h : HashIndex) (i : ℕ) (row : Row) (key : Value) (j : ℕ)
    → lists (insert h i row).index key j ≡ (key_of h row == key && j == i || lists h.index key j)
unfolding insert
lists-insert h i row key j = lists-add_row h.index (key_of h row) key i j

-- After a delete the hash index no longer lists the row under its key, and lists every other row as
-- before.
pub lists-delete :
    (h : HashIndex) (i : ℕ) (row : Row) (key : Value) (j : ℕ)
    → lists (delete h i row).index key j
      ≡ (lists h.index key j && not (key_of h row == key && j == i))
unfolding delete
lists-delete h i row key j = lists-remove_row h.index (key_of h row) key i j

-- An update with an unchanged key changes nothing that the hash index lists; one with another key
-- moves the row from the old key to the new one.
pub lists-update :
    (h : HashIndex) (i : ℕ) (old_row new_row : Row) (key : Value) (j : ℕ)
    → lists (update h i old_row new_row).index key j ≡ (
        if key_of h old_row == key_of h new_row
        then lists h.index key j
        else (key_of h new_row == key && j == i
            || lists h.index key j && not (key_of h old_row == key && j == i)))
unfolding update
lists-update h i old_row new_row key j = ground (
  arith,
  lists-add_row (remove_row h.index (key_of h old_row) i) (key_of h new_row) key i j,
  lists-remove_row h.index (key_of h old_row) key i j,
)

-- Every set of the index has distinct rows and is not empty.
pub record IsTidy (d : Dict Value RowSet) : Type 0 where
  pub distinct : (key : Value) → IsDistinct (rows_at d key)
  pub inhabited : (key : Value) → Dict.get d key ≢ some []

add_row-inhabited :
    (d : Dict Value RowSet) (k key : Value) (i : ℕ)
    → Dict.get d key ≢ some []
    → Dict.get (add_row d k i) key ≢ some []
unfolding add_row
add_row-inhabited d k key i h e =
    ground (arith, get-put d k key (add i (rows_at d k)), add-ne-nil i (rows_at d k))

remove_row-inhabited :
    (d : Dict Value RowSet) (k key : Value) (i : ℕ)
    → Dict.get d key ≢ some []
    → Dict.get (remove_row d k i) key ≢ some []
unfolding remove_row rows_at
remove_row-inhabited d k key i h e = ground (
  arith,
  get-put d k key (discard i (rows_at d k)),
  get-del (Dict.put d k (discard i (rows_at d k))) k key,
)

add_row-IsTidy : (d : Dict Value RowSet) (k : Value) (i : ℕ) → IsTidy d → IsTidy (add_row d k i)
add_row-IsTidy d k i h = record {
  distinct = λ key.
      rw rows_at-add_row
        (ground (arith, add-IsDistinct i (rows_at d k) (h.distinct k), h.distinct key));
  inhabited = λ key. add_row-inhabited d k key i (h.inhabited key);
}

remove_row-IsTidy :
    (d : Dict Value RowSet) (k : Value) (i : ℕ) → IsTidy d → IsTidy (remove_row d k i)
remove_row-IsTidy d k i h = record {
  distinct = λ key.
      rw rows_at-remove_row
        (ground (arith, discard-IsDistinct i (rows_at d k) (h.distinct k), h.distinct key));
  inhabited = λ key. remove_row-inhabited d k key i (h.inhabited key);
}

-- On a tidy index lookup returns exactly the rows that are listed under the normalised value, in
-- ascending order.
pub lookup_lem :
    (h : HashIndex) (value : Value)
    → IsTidy h.index
    → ((j : ℕ) → contains j (lookup h value) ≡ lists h.index (norm_value value) j)
      × IsAscending (lookup h value)
unfolding lookup lists
lookup_lem h value t =
    (λ j. contains-sorted j _, sorted-IsAscending _ (t.distinct (norm_value value)))

-- On a tidy index has holds exactly when lookup finds a row: no key outlives its last row.
pub has_lem :
    (h : HashIndex) (value : Value) → IsTidy h.index → has h value ≡ not (is_empty (lookup h value))
unfolding has lookup rows_at
has_lem h value t =
    ground
      (arith, is_empty-sorted (rows_at h.index (norm_value value)), t.inhabited (norm_value value))

-- The constructor and the three updates keep an index tidy.
pub init-IsTidy : (column : String) → IsTidy (init column).index
unfolding init rows_at Dict.get
init-IsTidy column = record { distinct = λ key. tt; inhabited = λ key e. cc }

pub insert-IsTidy :
    (h : HashIndex) (i : ℕ) (row : Row) → IsTidy h.index → IsTidy (insert h i row).index
unfolding insert
insert-IsTidy h i row = add_row-IsTidy h.index (key_of h row) i

pub delete-IsTidy :
    (h : HashIndex) (i : ℕ) (row : Row) → IsTidy h.index → IsTidy (delete h i row).index
unfolding delete
delete-IsTidy h i row = remove_row-IsTidy h.index (key_of h row) i

-- Update keeps a hash index tidy: the rows of a key are distinct, and no key has an empty set.
pub update-IsTidy :
    (h : HashIndex) (i : ℕ) (old_row new_row : Row)
    → IsTidy h.index
    → IsTidy (update h i old_row new_row).index
unfolding update
update-IsTidy h i old_row new_row t = elim (Bool-cases (key_of h old_row == key_of h new_row)) [
  | inl same ↦ rw same t
  | inr moved ↦
      rw moved
        (add_row-IsTidy _ (key_of h new_row) i (remove_row-IsTidy h.index (key_of h old_row) i t))
]
