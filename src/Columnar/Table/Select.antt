-- ===== src/Columnar/Table/Select.antt =====
-- `select` of a table: the live rows that a predicate takes, from an offset on, up to a limit.
pub mod Laws
use snapdb.Prelude.{
  ℕ, zero, suc, ◌+◌, ◌≡◌, String, Bool, true, false, ◌&&◌, not, Option, none, some, List, [], ◌∷◌,
  ◌++◌, map, ltb, leb, length, contains, if◌then◌else◌,
}
use snapdb.Prelude.Eq.{◌==◌, string_eq, nat_eq}
use snapdb.Prelude.Dict
use snapdb.Result.{Result, ok, err, key_error, value_error}
use snapdb.Value.{Value}
use snapdb.Schema.{Row}
use snapdb.Columnar.Nulls.{at_index}
use snapdb.Columnar.Table.{Columns, Table, live_mask}
use snapdb.Columnar.Table.Scan.{Mat, mat_of, row_at, select_column}

-- {name: self.columns[name].tolist() for name in col_names}
unfoldable pub mat_named : Columns → List String → Result Mat
unfolding select_column
mat_named cs [] = ok []
mat_named cs (name ∷ names) = elim (select_column cs name) [
  | err e ↦ err e
  | ok vs ↦ elim (mat_named cs names) [ err e ↦ err e | ok mat ↦ ok ((name, vs) ∷ mat) ]
]

-- {name: mat[name][idx] for name in col_names}: a name given twice has one entry.
unfoldable pub project : Mat → ℕ → List String → Row → Result Row
unfolding at_index Dict.get Dict.put
project mat idx [] row = ok row
project mat idx (name ∷ names) row = elim (Dict.get mat name) [
  | none ↦ err key_error
  | some vs ↦ elim (at_index vs idx) [
    | err e ↦ err e
    | ok v ↦ project mat idx names (Dict.put row name v)
  ]
]

-- A row of the result; without a list of columns it has all of them.
unfoldable pub output : Option (List String) → Mat → ℕ → Result Row
unfolding row_at project
output none mat idx = row_at mat idx
output (some names) mat idx = project mat idx names []

unfoldable pub taken : Option (Row → Bool) → Mat → ℕ → Result Bool
unfolding row_at
taken none mat idx = ok true
taken (some where_) mat idx = elim (row_at mat idx) [ err e ↦ err e | ok row ↦ ok (where_ row) ]

-- limit is not None and len(result) >= limit
unfoldable pub full : Option ℕ → List Row → Bool
full none result = false
full (some limit) result = leb limit (length result)

module _ (where_ : Option (Row → Bool)) (columns : Option (List String)) (limit : Option ℕ)
    (offset : ℕ) (mat : Mat) where
  -- The loop over the rows, with `matched` and `result`
  unfoldable pub select_from : List Bool → ℕ → ℕ → List Row → Result (List Row)
  unfolding taken output full
  select_from [] idx matched result = ok result
  select_from (live ∷ lives) idx matched result = elim live [
    | false ↦ select_from lives (suc idx) matched result
    | true ↦ elim (taken where_ mat idx) [
      | err e ↦ err e
      | ok false ↦ select_from lives (suc idx) matched result
      | ok true ↦ elim (ltb matched offset) [
        | true ↦ select_from lives (suc idx) (matched + 1) result
        | false ↦ elim (output columns mat idx) [
          | err e ↦ err e
          | ok row ↦ elim (full limit (result ++ (row ∷ []))) [
            | true ↦ ok (result ++ (row ∷ []))
            | false ↦ select_from lives (suc idx) (matched + 1) (result ++ (row ∷ []))
          ]
        ]
      ]
    ]
  ]

-- for c in columns: if c not in self.columns: raise ValueError
unfoldable pub all_known : Columns → Option (List String) → Bool
all_known cs none = true
all_known cs (some []) = true
all_known cs (some (name ∷ names)) = contains name (map (λ p. p.0) cs) && all_known cs (some names)

-- The columns to materialise: all of them where there is a predicate or no list of columns
unfoldable pub needed : Option (Row → Bool) → Option (List String) → Columns → Result Mat
unfolding mat_of mat_named
needed none (some names) cs = mat_named cs names
needed none none cs = mat_of cs
needed (some where_) columns cs = mat_of cs

-- `select`
unfoldable pub select :
    Option (Row → Bool) → Option (List String) → Option ℕ → ℕ → Table → Result (List Row)
unfolding full live_mask needed all_known select_from
select where_ columns limit offset t = elim (full limit []) [
  | true ↦ ok []
  | false ↦ elim (all_known t.columns columns) [
    | false ↦ err value_error
    | true ↦ elim (live_mask t) [
      | err e ↦ err e
      | ok lives ↦ elim (needed where_ columns t.columns) [
        | err e ↦ err e
        | ok mat ↦ select_from where_ columns limit offset mat lives 0 0 []
      ]
    ]
  ]
]
