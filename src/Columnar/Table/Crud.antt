-- ===== src/Columnar/Table/Crud.antt =====
-- `insert`, `update` and `delete` of a table, by what `get` reads afterwards.
use snapdb.Prelude.{
  ℕ, ◌+◌, ◌<◌, ◌≡◌, ◌≢◌, refl, sym, subst, ◌∙◌, String, false, none, some, List, [], ◌∷◌, arith,
  contains,
}
use snapdb.Prelude.Eq.{string_eq}
use snapdb.Result.{ok, err, key_error}
use snapdb.Value.{null}
use snapdb.Schema.{Dtype, Row, get_or_none}
use snapdb.Columnar.Column.{append, set_item, clear}
use snapdb.Columnar.Column.Laws.{kind, Accepts, shown}
use snapdb.Columnar.Column.Rows.{is_null}
use snapdb.Columnar.Column.Steps.{init-Holds, append_step, set_item_step, clear_step}
use snapdb.Columnar.Table.{
  Encodings, init, init_columns, Columns, Table, append_all, insert, get, set_all, merged, update,
  clear_all, delete,
}
use snapdb.Columnar.Table.Changes.{
  AllHold, IsTable, kept, has_value, AllChanged, none_changed, changed, Rewritten, rewritten,
}

init_columns-AllHold :
    (e : Encodings) (schema : List (String × Dtype)) → AllHold 0 (init_columns e schema)
unfolding init_columns
init_columns-AllHold e [] = tt
init_columns-AllHold e ((name, dtype) ∷ schema) = (
  init-Holds dtype (contains name e.dict_columns) e.dict_threshold (contains name e.delta_columns)
      50 (contains name e.for_columns) e.for_threshold,
  init_columns-AllHold e schema,
)

-- A new table with a column is well-formed.
pub init-IsTable :
    (name : String) (dtype : Dtype) (schema : List (String × Dtype)) (e : Encodings)
    → IsTable (init ((name, dtype) ∷ schema) e)
unfolding init init_columns
init-IsTable name dtype schema e = record {
  holds = init_columns-AllHold e ((name, dtype) ∷ schema);
  some_column = omega arith;
}

-- Every column accepts its value of the row, or None where the row has none.
abbrev pub Takes : Columns → Row → Type 0
Takes [] row = Unit
Takes ((name, c) ∷ cs) row = Accepts (kind c) (get_or_none row name) × Takes cs row

-- The row as it is read back
unfoldable pub stored : Columns → Row → Row
unfolding shown kind get_or_none
stored [] row = []
stored ((name, c) ∷ cs) row = (name, shown (kind c) (get_or_none row name)) ∷ stored cs row

pub append_all-AllChanged :
    (cs : Columns) (row : Row) (n : ℕ)
    → AllHold n cs
    → Takes cs row
    → ((append_all row cs).0 ≡ ok tt)
      × AllChanged (n + 1) n cs (append_all row cs).1 (stored cs row)
unfolding append_all stored
append_all-AllChanged [] row n h a = (refl, none_changed)
append_all-AllChanged ((name, c) ∷ cs) row n (h, hs) (a, as_) =
    let v = get_or_none row name in
    let (fine, one) = append_step c n v h a in
    let (fines, all) = append_all-AllChanged cs row n hs as_ in
    let into : append_all row ((name, c) ∷ cs)
        ≡ ((append_all row cs).0, (name, (append v c).1) ∷ (append_all row cs).1) =
      unfold append_all in ground (arith, fine) in
    subst
      (λ out.
        (out.0 ≡ ok tt) × AllChanged (n + 1) n ((name, c) ∷ cs) out.1 (stored ((name, c) ∷ cs) row))
      (sym into) (fines, changed name c (append v c).1 (shown (kind c) v) one all)

-- Inserting a row that the columns accept into a well-formed columnar table returns the old number
-- of rows as its row number, and keeps the table well-formed; get reads the row there in its stored
-- form, None where that is all nulls, and every other row as before.
pub insert-Rewritten :
    (t : Table) (row : Row)
    → IsTable t
    → Takes t.columns row
    → ((insert row t).0 ≡ ok t.row_count)
      × ((insert row t).1.row_count ≡ t.row_count + 1)
      × Rewritten t (insert row t).1 t.row_count (stored t.columns row)
insert-Rewritten t row h a =
    let (fine, all) = append_all-AllChanged t.columns row t.row_count h.holds a in
    let into : insert row t ≡ (ok t.row_count, u) = unfold insert in ground (arith, fine) in
    subst
      (λ out.
        (out.0 ≡ ok t.row_count)
        × (out.1.row_count ≡ t.row_count + 1)
        × Rewritten t out.1 t.row_count (stored t.columns row))
      (sym into)
      (
        refl,
        refl,
        rewritten t u t.row_count (stored t.columns row) h all (omega arith) (omega arith),
      )
  where
    u : Table
    u = record { columns = (append_all row t.columns).1; row_count = t.row_count + 1 }

set_all-AllChanged :
    (cs : Columns) (row : Row) (n idx : ℕ)
    → AllHold n cs
    → Takes cs row
    → idx < n
    → ((set_all idx row cs).0 ≡ ok tt) × AllChanged n idx cs (set_all idx row cs).1 (stored cs row)
unfolding set_all stored
set_all-AllChanged [] row n idx h a l = (refl, none_changed)
set_all-AllChanged ((name, c) ∷ cs) row n idx (h, hs) (a, as_) l =
    let v = get_or_none row name in
    let (fine, one) = set_item_step c n idx v h a l in
    let (fines, all) = set_all-AllChanged cs row n idx hs as_ l in
    let into : set_all idx row ((name, c) ∷ cs)
        ≡ ((set_all idx row cs).0, (name, (set_item idx v c).1) ∷ (set_all idx row cs).1) =
      unfold set_all in ground (arith, fine) in
    subst
      (λ out.
        (out.0 ≡ ok tt) × AllChanged n idx ((name, c) ∷ cs) out.1 (stored ((name, c) ∷ cs) row))
      (sym into) (fines, changed name c (set_item idx v c).1 (shown (kind c) v) one all)

-- Updating a row that get reads, with values that the columns accept, keeps a columnar table
-- well-formed; get then reads the merged row in its stored form, None where that is all nulls, and
-- every other row as before.
pub update-Rewritten :
    (t : Table) (idx : ℕ) (current row : Row)
    → IsTable t
    → idx < t.row_count
    → get t idx ≡ ok (some current)
    → Takes t.columns (merged current row)
    → ((update idx row t).0 ≡ ok tt)
      × Rewritten t (update idx row t).1 idx (stored t.columns (merged current row))
update-Rewritten t idx current row h l e a =
    let (fine, all) =
      set_all-AllChanged t.columns (merged current row) t.row_count idx h.holds a l in
    let into : update idx row t ≡ (ok tt, u) = unfold update in ground (arith, l, e, fine) in
    subst (λ out. (out.0 ≡ ok tt) × Rewritten t out.1 idx (stored t.columns (merged current row)))
      (sym into)
      (refl, rewritten t u idx (stored t.columns (merged current row)) h all l (omega arith))
  where
    u : Table
    u = record t { columns = (set_all idx (merged current row) t.columns).1 }

nulls : Columns → Row
nulls [] = []
nulls ((name, c) ∷ cs) = (name, null) ∷ nulls cs

no_value : (cs : Columns) → has_value (nulls cs) ≡ false
unfolding nulls has_value is_null
no_value [] = refl
no_value ((name, c) ∷ cs) = no_value cs

clear_all-AllChanged :
    (cs : Columns) (n idx : ℕ)
    → AllHold n cs
    → idx < n
    → AllChanged n idx cs (clear_all idx cs) (nulls cs)
unfolding clear_all nulls
clear_all-AllChanged [] n idx h l = none_changed
clear_all-AllChanged ((name, c) ∷ cs) n idx (h, hs) l =
    changed name c (clear idx c) null (clear_step c n idx h l) (clear_all-AllChanged cs n idx hs l)

-- Deleting a row of a well-formed columnar table keeps it well-formed and its number of rows; get
-- then reads None at the row, and every other row as before.
pub delete-None :
    (t : Table) (idx : ℕ)
    → IsTable t
    → idx < t.row_count
    → ((delete idx t).0 ≡ ok tt)
      × ((delete idx t).1.row_count ≡ t.row_count)
      × IsTable (delete idx t).1
      × (get (delete idx t).1 idx ≡ ok none)
      × ((j : ℕ) → j < t.row_count → j ≢ idx → get (delete idx t).1 j ≡ get t j)
delete-None t idx h l =
    let r =
      rewritten t u idx (nulls t.columns) h
        (clear_all-AllChanged t.columns t.row_count idx h.holds l) l (omega arith) in
    let gone : get u idx ≡ ok none = r.here ∙ (unfold kept in ground (arith, no_value t.columns)) in
    let into : delete idx t ≡ (ok tt, u) = unfold delete in ground (arith, l) in
    subst
      (λ out.
        (out.0 ≡ ok tt)
        × (out.1.row_count ≡ t.row_count)
        × IsTable out.1
        × (get out.1 idx ≡ ok none)
        × ((j : ℕ) → j < t.row_count → j ≢ idx → get out.1 j ≡ get t j))
      (sym into) (refl, refl, r.table, gone, r.elsewhere)
  where
    u : Table
    u = record t { columns = clear_all idx t.columns }

-- An update of a row that was deleted from a well-formed columnar table raises KeyError and changes
-- nothing.
pub update-delete :
    (t : Table) (idx : ℕ) (row : Row)
    → IsTable t
    → idx < t.row_count
    → update idx row (delete idx t).1 ≡ (err key_error, (delete idx t).1)
update-delete t idx row h l =
    let (_, n, _, gone, _) = delete-None t idx h l in
    let in_ : idx < (delete idx t).1.row_count = omega (arith, l, n) in
    unfold update in ground (arith, in_, gone)
