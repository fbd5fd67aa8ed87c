-- ===== src/Columnar/Table/Batch.antt =====
-- `batch_insert` of a table: every row is stored, in order, behind the others.
use snapdb.Prelude.{
  ℕ, zero, suc, ◌+◌, ◌<◌, ◌≡◌, refl, sym, ap, subst, ◌∙◌, String, none, some, List, [], ◌∷◌, length,
  arith, get_elem?,
}
use snapdb.Result.{ok}
use snapdb.Schema.{Row, get_or_none}
use snapdb.Columnar.Column.{Column}
use snapdb.Columnar.Column.Laws.{kind, Accepts, shown}
use snapdb.Columnar.Table.{Columns, Table, append_all, insert, insert_rows, batch_insert, get}
use snapdb.Columnar.Table.Changes.{IsTable, kept, AllChanged, none_changed, changed, Rewritten}
use snapdb.Columnar.Table.Crud.{Takes, stored, append_all-AllChanged, insert-Rewritten}

-- Columns of the same names and kinds
pub data Alike : Columns → Columns → Type 0 where
  no_columns : Alike [] []
  alike :
      {cs ds : Columns} (name : String) (c d : Column)
      → kind d ≡ kind c
      → Alike cs ds
      → Alike ((name, c) ∷ cs) ((name, d) ∷ ds)

changed-Alike : {n idx : ℕ} {cs ds : Columns} {row : Row} → AllChanged n idx cs ds row → Alike cs ds
changed-Alike none_changed = no_columns
changed-Alike (changed name c d v h hs) = alike name c d h.same_kind (changed-Alike hs)

Takes-Alike : (row : Row) {cs ds : Columns} → Alike cs ds → Takes cs row → Takes ds row
Takes-Alike row no_columns a = tt
Takes-Alike row (alike name c d k s) (a, as_) =
    (subst (λ m. Accepts m (get_or_none row name)) (sym k) a, Takes-Alike row s as_)

stored-Alike : (row : Row) {cs ds : Columns} → Alike cs ds → stored ds row ≡ stored cs row
unfolding stored
stored-Alike row no_columns = refl
stored-Alike row (alike {cs = cs} {ds = ds} name c d k s) =
    ap (λ m. (name, shown m (get_or_none row name)) ∷ stored ds row) k
    ∙ ap (λ r. (name, shown (kind c) (get_or_none row name)) ∷ r) (stored-Alike row s)

-- The columns accept each of the rows.
abbrev pub TakesAll : Columns → List Row → Type 0
TakesAll cs [] = Unit
TakesAll cs (row ∷ rows) = Takes cs row × TakesAll cs rows

TakesAll-Alike :
    (rows : List Row) {cs ds : Columns} → Alike cs ds → TakesAll cs rows → TakesAll ds rows
TakesAll-Alike [] s a = tt
TakesAll-Alike (row ∷ rows) s (a, as_) = (Takes-Alike row s a, TakesAll-Alike rows s as_)

-- The table after the loop
record Inserted (t u : Table) (rows : List Row) : Type 0 where
  pub table : IsTable u
  pub count : u.row_count ≡ t.row_count + length rows
  pub before : (j : ℕ) → j < t.row_count → get u j ≡ get t j
  pub new :
      (k : ℕ) (row : Row)
      → get_elem? rows k ≡ some row
      → get u (t.row_count + k) ≡ ok (kept (stored t.columns row))

insert-Alike :
    (t : Table) (row : Row)
    → IsTable t
    → Takes t.columns row
    → Alike t.columns (insert row t).1.columns
insert-Alike t row h a =
    let (fine, all) = append_all-AllChanged t.columns row t.row_count h.holds a in
    let into : (insert row t).1.columns ≡ (append_all row t.columns).1 =
      unfold insert in ground (arith, fine) in
    subst (Alike t.columns) (sym into) (changed-Alike all)

-- One row more in front of the loop
Inserted-first :
    (t u w : Table) (row : Row) (rows : List Row)
    → Alike t.columns u.columns
    → u.row_count ≡ t.row_count + 1
    → Rewritten t u t.row_count (stored t.columns row)
    → Inserted u w rows
    → Inserted t w (row ∷ rows)
Inserted-first t u w row rows s n one rest = record {
  table = rest.table;
  count = omega (arith, rest.count, n);
  before = λ j l. rest.before j (omega (arith, l, n)) ∙ one.elsewhere j l (λ e. apart j l e);
  new = place;
}
  where
    apart : (j : ℕ) → j < t.row_count → j ≡ t.row_count → ⊥
    apart j l e = omega (arith, l, e)

    place :
        (k : ℕ) (r : Row)
        → get_elem? (row ∷ rows) k ≡ some r
        → get w (t.row_count + k) ≡ ok (kept (stored t.columns r))
    place zero r e =
        let z : t.row_count + 0 ≡ t.row_count = omega arith in
        let q : row ≡ r = ground (arith, e) in
        ap (get w) z
        ∙ rest.before t.row_count (omega (arith, n))
        ∙ one.here
        ∙ ap (λ x. ok (kept (stored t.columns x))) q
    place (suc k) r e =
        let z : t.row_count + suc k ≡ u.row_count + k = omega (arith, n) in
        ap (get w) z ∙ rest.new k r e ∙ ap (λ x. ok (kept x)) (stored-Alike r s)

insert_rows-Inserted :
    (rows : List Row) (t : Table)
    → IsTable t
    → TakesAll t.columns rows
    → ((insert_rows rows t).0 ≡ ok tt) × Inserted t (insert_rows rows t).1 rows
unfolding insert_rows
insert_rows-Inserted [] t h a = (
  refl,
  record {
    table = h;
    count = omega arith;
    before = λ j l. refl;
    new = λ k row e. absurd (clash e);
  },
)
  where
    clash : {row : Row} → none ≡ some row → ⊥
    clash e = ground (arith, e)
insert_rows-Inserted (row ∷ rows) t h (a, as_) =
    let (fine, n, one) = insert-Rewritten t row h a in
    let s = insert-Alike t row h a in
    let (fines, rest) =
      insert_rows-Inserted rows (insert row t).1 one.table (TakesAll-Alike rows s as_) in
    let into : insert_rows (row ∷ rows) t ≡ insert_rows rows (insert row t).1 =
      ground (arith, fine) in
    subst (λ out. (out.0 ≡ ok tt) × Inserted t out.1 (row ∷ rows)) (sym into)
      (
        fines,
        Inserted-first t (insert row t).1 (insert_rows rows (insert row t).1).1 row rows s n one
            rest,
      )

-- Batch_insert, on a well-formed columnar table, of rows that the columns accept returns the old
-- number of rows and adds as many as it was given; get reads each of them, in order, behind the old
-- rows in its stored form, None where that is all nulls, and every old row as before.
pub batch_insert-rows :
    (rows : List Row) (t : Table) (k : ℕ) (row : Row)
    → IsTable t
    → TakesAll t.columns rows
    → get_elem? rows k ≡ some row
    → ((batch_insert rows t).0 ≡ ok t.row_count)
      × ((batch_insert rows t).1.row_count ≡ t.row_count + length rows)
      × (get (batch_insert rows t).1 (t.row_count + k) ≡ ok (kept (stored t.columns row)))
      × ((j : ℕ) → j < t.row_count → get (batch_insert rows t).1 j ≡ get t j)
batch_insert-rows rows t k row h a e =
    let (fine, all) = insert_rows-Inserted rows t h a in
    let into : batch_insert rows t ≡ (ok t.row_count, (insert_rows rows t).1) =
      unfold batch_insert in ground (arith, fine) in
    subst
      (λ out.
        (out.0 ≡ ok t.row_count)
        × (out.1.row_count ≡ t.row_count + length rows)
        × (get out.1 (t.row_count + k) ≡ ok (kept (stored t.columns row)))
        × ((j : ℕ) → j < t.row_count → get out.1 j ≡ get t j))
      (sym into) (refl, all.count, all.new k row e, all.before)
