-- ===== src/Db/Search.antt =====
-- The searches of `SnapDB` (snapdb/core.py) in row storage: lookup, find, range_find, query, group_by
-- and join, and the calls that create and drop their indexes. The keyword arguments of `find` are a
-- list of columns and values. Comparisons are those of `lt_value`, between values of one type.
use snapdb.Prelude.{
  ℕ, ◌+◌, String, Bool, true, ◌&&◌, ◌||◌, not, Option, none, some, List, [], ◌∷◌, map, leb,
  if◌then◌else◌,
}
use snapdb.Prelude.Eq.{◌==◌, string_eq}
use snapdb.Prelude.Dict
use snapdb.Prelude.Dict.{Dict}
use snapdb.Result.{Result, ok, err, key_error}
use snapdb.Value.{Value, norm_value, value_eq}
use snapdb.Schema.{Row, get_or_none, has_column}
use snapdb.Index.Hash
use snapdb.Index.Hash.{HashIndex}
use snapdb.Index.Multi
use snapdb.Index.Range
use snapdb.Db.{Db, get, iter}
use snapdb.Db.Crud.{matching}
use snapdb.Db.Exec.{Exec, ◌>>◌, pure, gets, modify, lift}

-- `for idx, row in self: hidx.insert(idx, row)`
unfoldable pub fill : HashIndex → List (ℕ × Row) → HashIndex
fill h [] = h
fill h ((idx, row) ∷ rows) = fill (Hash.insert h idx row) rows

-- A column that has an index keeps it.
unfoldable pub create_index : String → Db → Db
unfolding fill
create_index column db =
    if Multi.contains db.indexes column
    then db
    else record db { indexes = Dict.put db.indexes column (fill (Hash.init column) (iter db)) }

unfoldable pub drop_index : String → Db → Db
drop_index column db =
    if Multi.contains db.indexes column
    then record db { indexes = Dict.del db.indexes column }
    else db

unfoldable pub create_range_index : String → Exec Db (Unit {0})
create_range_index column db =
    if has_column db.schema column
    then (
      ok tt,
      elim (Dict.get db.range_indexes column) [
        | some r ↦ db
        | none ↦ record db {
          range_indexes =
              Dict.put db.range_indexes column (Range.build (Range.init column) (iter db));
        }
      ],
    )
    else (err key_error, db)

unfoldable pub drop_range_index : String → Db → Db
drop_range_index column db = record db { range_indexes = Dict.del db.range_indexes column }

-- self._access_counts.get(column, 0)
unfoldable pub accesses : Db → String → ℕ
accesses db column = elim (Dict.get db.access_counts column) [ none ↦ 0 | some n ↦ n ]

unfoldable pub note_access : String → Db → Db
unfolding create_index accesses
note_access column db =
    if not db.auto_index || Multi.contains db.indexes column
    then db
    else let count = accesses db column + 1 in
      let noted = record db { access_counts = Dict.put db.access_counts column count } in
      if leb db.auto_index_threshold count then create_index column noted else noted

-- The first row of a scan with the value in the column
unfoldable pub first_with : String → Value → List (ℕ × Row) → Option Row
first_with column norm [] = none
first_with column norm ((idx, row) ∷ rows) =
    let rest = first_with column norm rows in
    if get_or_none row column == norm then some row else rest

-- What `lookup` returns, after `_note_access`
unfoldable pub lookup_in : Db → String → Value → Option Row
unfolding first_with
lookup_in db column value = elim (Dict.get db.indexes column) [
  | some h ↦ elim (Hash.lookup h value) [ [] ↦ none | i ∷ is ↦ get db i ]
  | none ↦ first_with column (norm_value value) (iter db)
]

unfoldable pub lookup : String → Value → Exec Db (Option Row)
unfolding note_access lookup_in
lookup column value = do modify (note_access column); gets (λ db. lookup_in db column value)

-- all(row.get(k) == v for k, v in wanted.items())
unfoldable pub has_all : List (String × Value) → Row → Bool
has_all [] row = true
has_all ((k, v) ∷ wanted) row = get_or_none row k == norm_value v && has_all wanted row

-- all(column in self._indexes for column in kwargs)
unfoldable pub all_indexed : Db → List (String × Value) → Bool
all_indexed db [] = true
all_indexed db ((column, v) ∷ kwargs) = Multi.contains db.indexes column && all_indexed db kwargs

-- The loop of `find` over the columns
unfoldable pub note_columns : List (String × Value) → Exec Db (Unit {0})
unfolding note_access
note_columns [] db = (ok tt, db)
note_columns ((column, v) ∷ kwargs) db =
    let rest = note_columns kwargs (note_access column db) in
    if has_column db.schema column then rest else (err key_error, db)

-- What `find` returns, after its loop: an entry is None where an index has the number of no row.
unfoldable pub find_in : Db → List (String × Value) → Result (List (Option Row))
unfolding has_all all_indexed
find_in db kwargs =
    if all_indexed db kwargs
    then elim (Multi.lookup db.indexes kwargs) [
      | ok none ↦ ok []
      | ok (some rows) ↦ ok (map (get db) rows)
      | err e ↦ err e
    ]
    else ok (map (λ r. some r.1) (matching (has_all kwargs) (iter db)))

unfoldable pub find : List (String × Value) → Exec Db (List (Option Row))
unfolding note_columns find_in
find [] = pure []
find (c ∷ kwargs) = do note_columns (c ∷ kwargs); lift (λ db. find_in db (c ∷ kwargs))

unfoldable pub query : (Row → Bool) → Db → List (ℕ × Row)
query predicate db = matching predicate (iter db)
