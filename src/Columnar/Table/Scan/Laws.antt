-- ===== src/Columnar/Table/Scan/Laws.antt =====
-- The scans of a table find the rows that `get` reads.
use snapdb.Prelude.{
  ℕ, zero, suc, ◌+◌, ◌<◌, ◌≤◌, ◌≡◌, ◌≢◌, refl, sym, ap, subst, ◌∙◌, String, Bool, true, false, none,
  some, List, [], ◌∷◌, length, arith, if◌then◌else◌, Bool-cases, inl, inr, contains,
}
use snapdb.Prelude.Eq.{◌==◌, nat_eq}
use snapdb.Result.{Result, ok, err}
use snapdb.Value.{Value}
use snapdb.Schema.{Row}
use snapdb.Columnar.Nulls.{at_index}
use snapdb.Columnar.Column.{Column, get_item, set_item}
use snapdb.Columnar.Column.Laws.{kind, Accepts, shown}
use snapdb.Columnar.Column.Steps.{Holds, Changed, set_item_step, to_list_step}
use snapdb.Columnar.Table.{Columns, Table, any_value, live_from, live_mask, get}
use snapdb.Columnar.Table.Changes.{
  AllHold, IsTable, AllRead, no_column, column, has_value, kept, any_value_lem, get_lem, all_read,
}
use snapdb.Columnar.Table.Scan.{Mat, mat_of, row_at, matching_from, matching_indices, set_each}

-- The row numbers from `i` on whose rows `get` reads and the predicate takes
unfoldable pub get_scan : (Row → Bool) → Table → ℕ → ℕ → Result (List ℕ)
unfolding get
get_scan p t i zero = ok []
get_scan p t i (suc n) = elim (get t i) [
  | err e ↦ err e
  | ok none ↦ get_scan p t (suc i) n
  | ok (some row) ↦
      if p row
      then elim (get_scan p t (suc i) n) [ err e ↦ err e | ok is ↦ ok (i ∷ is) ]
      else get_scan p t (suc i) n
]

-- Lists of values that read as the columns do
pub data MatReads : Columns → Mat → Type 0 where
  no_list : MatReads [] []
  list :
      {cs : Columns} {mat : Mat} (name : String) (c : Column) (vs : List Value)
      → ((j : ℕ) → at_index vs j ≡ get_item c j)
      → MatReads cs mat
      → MatReads ((name, c) ∷ cs) ((name, vs) ∷ mat)

pub mat_of_lem :
    (n : ℕ) (cs : Columns) → AllHold n cs → (mat : Mat) × (mat_of cs ≡ ok mat) × MatReads cs mat
unfolding mat_of
mat_of_lem n [] h = ([], refl, no_list)
mat_of_lem n ((name, c) ∷ cs) (h, hs) =
    let (vs, e, reads) = to_list_step c n h in
    let (mat, f, rest) = mat_of_lem n cs hs in
    ((name, vs) ∷ mat, ground (arith, e, f), list name c vs reads rest)

-- A row of the lists is a row of the columns.
pub row_at_lem :
    (j : ℕ) {cs : Columns} {mat : Mat} {row : Row}
    → AllRead j cs row
    → MatReads cs mat
    → row_at mat j ≡ ok row
unfolding row_at
row_at_lem j no_column no_list = refl
row_at_lem j (column {row = row} name c v e r) (list {mat = mat} _ _ vs reads rest) =
    let here : at_index vs j ≡ ok v = reads j ∙ e in
    let others : row_at mat j ≡ ok row = row_at_lem j r rest in ground (arith, here, others)

pub kept_lem : (row : Row) → kept row ≡ (if has_value row then some row else none)
unfolding kept
kept_lem row = refl

-- The live rows, and the scan that takes some of them, against `get`
matching_from_lem :
    (p : Row → Bool) (t : Table) (mat : Mat) (i n : ℕ)
    → IsTable t
    → MatReads t.columns mat
    → i + n ≤ t.row_count
    → (lives : List Bool) × (live_from t.columns i n ≡ ok lives)
      × (matching_from p mat lives i ≡ get_scan p t i n)
unfolding live_from matching_from get_scan
matching_from_lem p t mat i zero h m l = ([], refl, refl)
matching_from_lem p t mat i (suc n) h m l =
    let (row, r) = all_read t.columns t.row_count i h.holds (omega (arith, l)) in
    let live : any_value t.columns i ≡ ok (has_value row) =
      any_value_lem t.row_count i r h.holds (omega (arith, l)) in
    let read : get t i ≡ ok (if has_value row then some row else none) =
      get_lem t row i h (omega (arith, l)) r ∙ ap (λ o. ok o) (kept_lem row) in
    let at : row_at mat i ≡ ok row = row_at_lem i r m in
    let (lives, e, f) = matching_from_lem p t mat (suc i) n h m (omega (arith, l)) in
    (has_value row ∷ lives, ground (arith, live, e), step row lives read at f)
  where
    step :
        (row : Row) (lives : List Bool)
        → get t i ≡ ok (if has_value row then some row else none)
        → row_at mat i ≡ ok row
        → matching_from p mat lives (suc i) ≡ get_scan p t (suc i) n
        → matching_from p mat (has_value row ∷ lives) i ≡ get_scan p t i (suc n)
    step row lives read at f = ground (arith, read, at, f)

-- The live mask of a table that has a column
pub live_mask_lem :
    (t : Table) (lives : List Bool)
    → IsTable t
    → live_from t.columns 0 t.row_count ≡ ok lives
    → live_mask t ≡ ok lives
live_mask_lem t lives h f = go t.columns refl
  where
    go : (cs : Columns) → t.columns ≡ cs → live_mask t ≡ ok lives
    go [] e = absurd (empty (ap length e) h.some_column)
      where
        empty : length t.columns ≡ 0 → 0 < length t.columns → ⊥
        empty p q = omega arith
    go (c ∷ cs) e =
        unfold live_mask in ground (arith, e, subst (λ x. live_from x 0 t.row_count ≡ ok lives) e f)

-- On a well-formed columnar table, _matching_indices with a predicate gives, in order, the numbers
-- of the rows that get reads and the predicate takes.
pub matching_indices-get_scan :
    (p : Row → Bool) (t : Table)
    → IsTable t
    → matching_indices (some p) t ≡ get_scan p t 0 t.row_count
unfolding matching_indices
matching_indices-get_scan p t h =
    let (mat, e, m) = mat_of_lem t.row_count t.columns h.holds in
    let (lives, f, g) = matching_from_lem p t mat 0 t.row_count h m (omega arith) in
    ground (arith, live_mask_lem t lives h f, e, g)

-- The inner loop of batch_update, with a value that the column accepts and rows that are there,
-- succeeds; the column then reads the stored value at those rows, and every other row as before.
pub set_each-Reads :
    (matches : List ℕ) (c : Column) (n : ℕ) (value : Value)
    → Holds c n
    → Accepts (kind c) value
    → ((j : ℕ) → contains j matches ≡ true → j < n)
    → ((set_each matches value c).0 ≡ ok tt)
      × Holds (set_each matches value c).1 n
      × ((j : ℕ)
          → j < n
          → get_item (set_each matches value c).1 j
            ≡ (if contains j matches then ok (shown (kind c) value) else get_item c j))
unfolding set_each
set_each-Reads [] c n value h a b = (refl, h, λ j l. refl)
set_each-Reads (idx ∷ matches) c n value h a b =
    let (fine, one) = set_item_step c n idx value h a (b idx (first idx matches)) in
    let d = (set_item idx value c).1 in
    let (fines, holds, reads) =
      set_each-Reads matches d n value one.holds
        (subst (λ k. Accepts k value) (sym one.same_kind) a) (λ j e. b j (later j idx matches e)) in
    let into : set_each (idx ∷ matches) value c ≡ set_each matches value d = ground (arith, fine) in
    subst
      (λ out.
        (out.0 ≡ ok tt)
        × Holds out.1 n
        × ((j : ℕ)
            → j < n
            → get_item out.1 j
              ≡ (if contains j (idx ∷ matches) then ok (shown (kind c) value) else get_item c j)))
      (sym into) (fines, holds, λ j l. reads j l ∙ cases j l d one)
  where
    first : (idx : ℕ) (ms : List ℕ) → contains idx (idx ∷ ms) ≡ true
    first idx ms = ground (arith, nat_eq.beq_iff idx idx)

    later : (j idx : ℕ) (ms : List ℕ) → contains j ms ≡ true → contains j (idx ∷ ms) ≡ true
    later j idx ms e = ground (arith, e)

    cases :
        (j : ℕ)
        → j < n
        → (d : Column) → Changed c d n idx (shown (kind c) value)
        → (if contains j matches then ok (shown (kind d) value) else get_item d j)
          ≡ (if contains j (idx ∷ matches) then ok (shown (kind c) value) else get_item c j)
    cases j l d one = elim (Bool-cases (j == idx)) [
      | inl p ↦
          let e : j ≡ idx = (nat_eq.beq_iff j idx).0 p in
          ground (
            arith,
            p,
            one.same_kind,
            subst (λ k. get_item d k ≡ ok (shown (kind c) value)) (sym e) one.here,
          )
      | inr p ↦
          let ne : j ≢ idx = λ e. differ p ((nat_eq.beq_iff j idx).1 e) in
          ground (arith, p, one.same_kind, one.elsewhere j l ne)
    ]
      where
        differ : {x : Bool} → x ≡ false → x ≡ true → ⊥
        differ p q = ground (arith, p, q)
