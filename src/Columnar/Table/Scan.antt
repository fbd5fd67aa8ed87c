-- ===== src/Columnar/Table/Scan.antt =====
-- The scans of a table: `_matching_indices`, `batch_update`, `select` and `select_column`.
pub mod Laws
use snapdb.Prelude.{
  ℕ, zero, suc, ◌+◌, ◌≡◌, String, Bool, true, false, ◌&&◌, ◌||◌, not, Option, none, some, List, [],
  ◌∷◌, ◌++◌, map, ltb, leb, length, get_elem?, if◌then◌else◌, contains,
}
use snapdb.Prelude.Eq.{◌==◌, string_eq, nat_eq}
use snapdb.Prelude.Dict
use snapdb.Prelude.Dict.{Dict}
use snapdb.Result.{Result, ok, err, key_error, value_error, index_error}
use snapdb.Value.{Value, null}
use snapdb.Schema.{Row}
use snapdb.Db.Exec.{Exec, ◌>>=◌, ◌>>◌, pure, raise, modify}
use snapdb.Columnar.Nulls.{at_index}
use snapdb.Columnar.Column.{Column, get_item, set_item, to_list}
use snapdb.Columnar.Table.{Columns, Table, live_mask}

-- The materialised columns, in the order of the columns
abbrev pub Mat : Type 0
Mat = List (String × List Value)

-- {col.name: col.tolist() for col in self._col_list}
unfoldable pub mat_of : Columns → Result Mat
unfolding to_list
mat_of [] = ok []
mat_of ((name, c) ∷ cs) = elim (to_list c) [
  | err e ↦ err e
  | ok vs ↦ elim (mat_of cs) [ err e ↦ err e | ok mat ↦ ok ((name, vs) ∷ mat) ]
]

-- {name: mat[name][i] for name in names}
unfoldable pub row_at : Mat → ℕ → Result Row
unfolding at_index
row_at [] i = ok []
row_at ((name, vs) ∷ mat) i = elim (at_index vs i) [
  | err e ↦ err e
  | ok v ↦ elim (row_at mat i) [ err e ↦ err e | ok row ↦ ok ((name, v) ∷ row) ]
]

-- [i for i in range(self._row_count) if live[i]], from `i` on
unfoldable pub live_indices : List Bool → ℕ → List ℕ
live_indices [] i = []
live_indices (live ∷ lives) i =
    let rest = live_indices lives (suc i) in if live then i ∷ rest else rest

-- The loop of `_matching_indices` that has a predicate
unfoldable pub matching_from : (Row → Bool) → Mat → List Bool → ℕ → Result (List ℕ)
unfolding row_at
matching_from predicate mat [] i = ok []
matching_from predicate mat (live ∷ lives) i =
    let rest = matching_from predicate mat lives (suc i) in
    if not live then rest else elim (row_at mat i) [
      | err e ↦ err e
      | ok row ↦ if predicate row then elim rest [ err e ↦ err e | ok is ↦ ok (i ∷ is) ] else rest
    ]

-- `_matching_indices`
unfoldable pub matching_indices : Option (Row → Bool) → Table → Result (List ℕ)
unfolding live_mask live_indices mat_of matching_from
matching_indices predicate t = elim (live_mask t) [
  | err e ↦ err e
  | ok live ↦ elim predicate [
    | none ↦ ok (live_indices live 0)
    | some p ↦ elim (mat_of t.columns) [ err e ↦ err e | ok mat ↦ matching_from p mat live 0 ]
  ]
]

-- for idx in matches: col[idx] = value
unfoldable pub set_each : List ℕ → Value → Exec Column (Unit {0})
unfolding set_item
set_each [] value c = (ok tt, c)
set_each (idx ∷ matches) value c =
    ((λ (d : Column). set_item idx value d) >> set_each matches value) c

-- The column of the name, changed
unfoldable pub in_column : String → Exec Column (Unit {0}) → Exec Columns (Unit {0})
in_column name f [] = (err key_error, [])
in_column name f ((other, c) ∷ cs) =
    let rest = in_column name f cs in
    if name == other then ((f c).0, (other, (f c).1) ∷ cs) else (rest.0, (other, c) ∷ rest.1)

-- The loop over the updates
unfoldable pub set_columns : Row → List ℕ → Exec Columns (Unit {0})
unfolding in_column set_each
set_columns [] matches cs = (ok tt, cs)
set_columns ((name, value) ∷ updates) matches cs =
    ((λ (ds : Columns). in_column name (set_each matches value) ds) >> set_columns updates matches)
      cs

-- for name in updates: if name not in self.columns: raise ValueError
unfoldable pub known_columns : Columns → Row → Bool
known_columns cs [] = true
known_columns cs ((name, value) ∷ updates) =
    contains name (map (λ p. p.0) cs) && known_columns cs updates

-- `batch_update`
unfoldable pub batch_update : Option (Row → Bool) → Row → Exec Table ℕ
unfolding known_columns matching_indices set_columns
batch_update predicate updates t =
    if not (known_columns t.columns updates)
    then (err value_error, t)
    else elim (matching_indices predicate t) [
      | err e ↦ (err e, t)
      | ok matches ↦ elim (set_columns updates matches t.columns).0 [
        | err e ↦ (err e, record t { columns = (set_columns updates matches t.columns).1 })
        | ok _ ↦
            (ok (length matches), record t { columns = (set_columns updates matches t.columns).1 })
      ]
    ]

-- `select_column`
unfoldable pub select_column : Columns → String → Result (List Value)
unfolding to_list
select_column [] name = err value_error
select_column ((other, c) ∷ cs) name =
    let rest = select_column cs name in if name == other then to_list c else rest
