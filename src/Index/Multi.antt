-- ===== src/Index/Multi.antt =====
-- `MultiIndex` of snapdb/index.py: the hash indexes of a table, by column.
pub mod Laws
use snapdb.Prelude.{
  ℕ, String, ◌≡◌, Bool, true, false, Option, none, some, List, [], ◌∷◌, if◌then◌else◌,
}
use snapdb.Prelude.Eq.{string_eq}
use snapdb.Prelude.Dict
use snapdb.Prelude.Dict.{Dict}
use snapdb.Result.{Result, ok, err, key_error, value_error}
use snapdb.Value.{Value}
use snapdb.Index.RowSet.{RowSet, intersect, sorted, is_empty}
use snapdb.Index.Hash
use snapdb.Index.Hash.{HashIndex}

abbrev pub MultiIndex : Type 0
MultiIndex = Dict String HashIndex

-- `column in self`
unfoldable pub contains : MultiIndex → String → Bool
contains m column = elim (Dict.get m column) [ none ↦ false | some h ↦ true ]

unfoldable pub create : MultiIndex → String → Result MultiIndex
unfolding contains
create m column =
    if contains m column then err value_error else ok (Dict.put m column (Hash.init column))

unfoldable pub get : MultiIndex → String → Option HashIndex
get m column = Dict.get m column

unfoldable pub drop : MultiIndex → String → Result MultiIndex
unfolding contains
drop m column = if contains m column then ok (Dict.del m column) else err key_error

-- `matches` where no column was looked up before, else the intersection
narrow : Option RowSet → RowSet → RowSet
narrow none matches = matches
narrow (some results) matches = intersect results matches

-- The loop of `lookup` over the keyword arguments. It stops at the first empty result.
unfoldable pub lookup_from : MultiIndex → Option RowSet → List (String × Value) → Result RowSet
unfolding narrow
lookup_from m none [] = ok []
lookup_from m (some results) [] = ok (sorted results)
lookup_from m results ((col, val) ∷ rest) = elim (Dict.get m col) [
  | none ↦ err key_error
  | some idx ↦
      let found = narrow results (Hash.lookup idx val) in
      let more = lookup_from m (some found) rest in if is_empty found then ok [] else more
]

unfoldable pub lookup : MultiIndex → List (String × Value) → Result (Option RowSet)
unfolding lookup_from
lookup m [] = ok none
lookup m (c ∷ kwargs) = elim (lookup_from m none (c ∷ kwargs)) [
  | ok l ↦ ok (some l)
  | err e ↦ err e
]
