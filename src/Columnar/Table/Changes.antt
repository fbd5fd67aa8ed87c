-- ===== src/Columnar/Table/Changes.antt =====
-- What `insert`, `update` and `delete` change of what `get` reads.
use snapdb.Prelude.{
  ℕ, suc, ◌<◌, ◌≤◌, ◌≡◌, ◌≢◌, refl, sym, ap, subst, ◌∙◌, String, Bool, false, not, ◌||◌, Option,
  none, some, [], ◌∷◌, length, arith, if◌then◌else◌,
}
use snapdb.Result.{ok}
use snapdb.Value.{Value}
use snapdb.Schema.{Row}
use snapdb.Columnar.Nulls.{at_index}
use snapdb.Columnar.Column.{Column, get_item, nullmask}
use snapdb.Columnar.Column.Rows.{is_null}
use snapdb.Columnar.Column.Steps.{Holds, Changed, read_step}
use snapdb.Columnar.Table.{Columns, Table, any_value, row_of, get}

-- Every column has so many rows.
abbrev pub AllHold : ℕ → Columns → Type 0
AllHold n [] = Unit
AllHold n ((name, c) ∷ cs) = Holds c n × AllHold n cs

pub record IsTable (t : Table) : Type 0 where
  pub holds : AllHold t.row_count t.columns
  pub some_column : 0 < length t.columns

-- The columns read the values of the row.
pub data AllRead (j : ℕ) : Columns → Row → Type 0 where
  no_column : AllRead j [] []
  column :
      {cs : Columns} {row : Row} (name : String) (c : Column) (v : Value)
      → get_item c j ≡ ok v
      → AllRead j cs row
      → AllRead j ((name, c) ∷ cs) ((name, v) ∷ row)

unfoldable pub has_value : Row → Bool
unfolding is_null
has_value [] = false
has_value ((name, v) ∷ row) = not (is_null v) || has_value row

-- A row of nulls counts as deleted.
unfoldable pub kept : Row → Option Row
unfolding has_value
kept row = if has_value row then some row else none

mask_of :
    (c : Column) (n j : ℕ) (v : Value)
    → Holds c n
    → j < n
    → get_item c j ≡ ok v
    → at_index (nullmask c) j ≡ ok (is_null v)
unfolding at_index
mask_of c n j v h l e = let (w, f, m) = read_step c n j h l in ground (arith, e, f, m)

pub any_value_lem :
    (n j : ℕ) {cs : Columns} {row : Row}
    → AllRead j cs row
    → AllHold n cs
    → j < n
    → any_value cs j ≡ ok (has_value row)
unfolding any_value has_value
any_value_lem n j no_column h l = refl
any_value_lem n j (column {cs = cs} {row = row} name c v e r) (h, hs) l =
    let rest : any_value cs j ≡ ok (has_value row) = any_value_lem n j r hs l in
    ground (arith, mask_of c n j v h l e, rest)

row_of_lem : (j : ℕ) {cs : Columns} {row : Row} → AllRead j cs row → row_of cs j ≡ ok row
unfolding row_of
row_of_lem j no_column = refl
row_of_lem j (column {cs = cs} {row = row} name c v e r) =
    let rest : row_of cs j ≡ ok row = row_of_lem j r in ground (arith, e, rest)

-- `get` gives the row that the columns read, or None where it is a row of nulls.
pub get_lem :
    (t : Table) (row : Row) (j : ℕ)
    → IsTable t
    → j < t.row_count
    → AllRead j t.columns row
    → get t j ≡ ok (kept row)
get_lem t row j h l r = go t.columns refl
  where
    some_value : any_value t.columns j ≡ ok (has_value row)
    some_value = any_value_lem t.row_count j r h.holds l

    all : row_of t.columns j ≡ ok row
    all = row_of_lem j r

    go : (cs : Columns) → t.columns ≡ cs → get t j ≡ ok (kept row)
    go [] e = absurd (empty (ap length e) h.some_column)
      where
        empty : length t.columns ≡ 0 → 0 < length t.columns → ⊥
        empty p q = omega arith
    go (c ∷ cs) e =
        let a : any_value (c ∷ cs) j ≡ ok (has_value row) =
          subst (λ x. any_value x j ≡ ok (has_value row)) e some_value in
        let b : row_of (c ∷ cs) j ≡ ok row = subst (λ x. row_of x j ≡ ok row) e all in
        unfold get kept in ground (arith, l, e, a, b)

-- Every row that is there is read.
pub all_read : (cs : Columns) (n j : ℕ) → AllHold n cs → j < n → (row : Row) × AllRead j cs row
all_read [] n j h l = ([], no_column)
all_read ((name, c) ∷ cs) n j (h, hs) l =
    let (v, e, _) = read_step c n j h l in
    let (row, r) = all_read cs n j hs l in ((name, v) ∷ row, column name c v e r)

-- Each column changed at a row, where it now reads the value of the row.
pub data AllChanged (n idx : ℕ) : Columns → Columns → Row → Type 0 where
  none_changed : AllChanged n idx [] [] []
  changed :
      {cs ds : Columns} {row : Row} (name : String) (c d : Column) (v : Value)
      → Changed c d n idx v
      → AllChanged n idx cs ds row
      → AllChanged n idx ((name, c) ∷ cs) ((name, d) ∷ ds) ((name, v) ∷ row)

changed_hold : {n idx : ℕ} {cs ds : Columns} {row : Row} → AllChanged n idx cs ds row → AllHold n ds
changed_hold none_changed = tt
changed_hold (changed name c d v h hs) = (h.holds, changed_hold hs)

changed_read :
    {n idx : ℕ} {cs ds : Columns} {row : Row} → AllChanged n idx cs ds row → AllRead idx ds row
changed_read none_changed = no_column
changed_read (changed name c d v h hs) = column name d v h.here (changed_read hs)

changed_elsewhere :
    {n idx : ℕ} (j : ℕ) {cs ds : Columns} {row old : Row}
    → AllChanged n idx cs ds row
    → j < n
    → j ≢ idx
    → AllRead j cs old
    → AllRead j ds old
changed_elsewhere j none_changed l ne no_column = no_column
changed_elsewhere j (changed name c d v h hs) l ne (column _ _ w e r) =
    column name d w (h.elsewhere j l ne ∙ e) (changed_elsewhere j hs l ne r)

changed_length :
    {n idx : ℕ} {cs ds : Columns} {row : Row} → AllChanged n idx cs ds row → length ds ≡ length cs
changed_length none_changed = refl
changed_length (changed name c d v h hs) = ap suc (changed_length hs)

-- The table afterwards: the changed row, and the others as they were.
pub record Rewritten (t u : Table) (idx : ℕ) (row : Row) : Type 0 where
  pub table : IsTable u
  pub here : get u idx ≡ ok (kept row)
  pub elsewhere : (j : ℕ) → j < t.row_count → j ≢ idx → get u j ≡ get t j

pub rewritten :
    (t u : Table) (idx : ℕ) (row : Row)
    → IsTable t
    → AllChanged u.row_count idx t.columns u.columns row
    → idx < u.row_count
    → t.row_count ≤ u.row_count
    → Rewritten t u idx row
rewritten t u idx row h cs l m = record {
  table = table;
  here = get_lem u row idx table l (changed_read cs);
  elsewhere = λ j k ne.
      let (old, r) = all_read t.columns t.row_count j h.holds k in
      get_lem u old j table (omega (arith, k, m))
        (changed_elsewhere j cs (omega (arith, k, m)) ne r)
      ∙ sym (get_lem t old j h k r);
}
  where
    table : IsTable u
    table = record {
      holds = changed_hold cs;
      some_column = subst (λ k. 0 < k) (sym (changed_length cs)) h.some_column;
    }
