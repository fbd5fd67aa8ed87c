-- ===== src/Index/Range.antt =====
-- `RangeIndex` of snapdb/index.py: the values of a column in order, each with its row.
pub mod Order
pub mod Laws
use snapdb.Prelude.{
  ℕ, suc, ◌-◌, String, Bool, true, false, ◌&&◌, ◌||◌, not, Option, none, some, List, [], ◌∷◌, ◌++◌,
  ltb, length, take, drop, map, if◌then◌else◌,
}
use snapdb.Prelude.Eq.{Eq, ◌==◌, nat_eq}
use snapdb.Value.{Value, null, eq_value, lt_value, value_eq}
use snapdb.Schema.{Row, get_or_none}

-- (value, row_idx)
abbrev pub Entry : Type 0
Entry = Value × ℕ

pub record RangeIndex : Type 0 where
  pub column : String
  pub items : List Entry

-- What the code compares an entry with: (value, -1), an entry, or (value, float("inf")).
pub data Edge : Type 0 where
  before : Value → Edge
  at : Value → ℕ → Edge
  after : Value → Edge

-- entry < edge, as Python orders tuples
unfoldable pub lt_edge : Entry → Edge → Bool
lt_edge (v, i) (before w) = lt_value v w
lt_edge (v, i) (at w j) = lt_value v w || (v == w && ltb i j)
lt_edge (v, i) (after w) = lt_value v w || v == w

-- edge < entry
unfoldable pub edge_lt : Edge → Entry → Bool
edge_lt (before w) (v, i) = lt_value w v || w == v
edge_lt (at w j) (v, i) = lt_value w v || (w == v && ltb j i)
edge_lt (after w) (v, i) = lt_value w v

-- bisect.bisect_left: the first position whose entry is not below the edge
unfoldable pub bisect_left : List Entry → Edge → ℕ
bisect_left [] x = 0
bisect_left (e ∷ items) x = if lt_edge e x then suc (bisect_left items x) else 0

-- bisect.bisect_right: the first position whose entry is above the edge
unfoldable pub bisect_right : List Entry → Edge → ℕ
bisect_right [] x = 0
bisect_right (e ∷ items) x = if edge_lt x e then 0 else suc (bisect_right items x)

-- bisect.insort: after the entries that are not above the new one
unfoldable pub insort : List Entry → Value → ℕ → List Entry
unfolding bisect_right
insort items v i =
    let pos = bisect_right items (at v i) in take pos items ++ ((v, i) ∷ drop pos items)

-- items.sort()
unfoldable pub sort : List Entry → List Entry
unfolding insort
sort [] = []
sort ((v, i) ∷ items) = insort (sort items) v i

unfoldable pub init : String → RangeIndex
init column = record { column = column; items = [] }

entries_of : String → List (ℕ × Row) → List Entry
entries_of column [] = []
entries_of column ((row_idx, row) ∷ rows) =
    let rest = entries_of column rows in
    let value = get_or_none row column in if value == null then rest else (value, row_idx) ∷ rest

unfoldable pub build : RangeIndex → List (ℕ × Row) → RangeIndex
unfolding sort entries_of
build r rows = record r { items = sort (entries_of r.column rows) }

unfoldable pub insert : RangeIndex → ℕ → Row → RangeIndex
unfolding insort
insert r row_idx row =
    let value = get_or_none row r.column in
    if value == null then r else record r { items = insort r.items value row_idx }

-- `pos < len(items) and items[pos] == (value, row_idx)`, then `items.pop(pos)`
unfoldable pub pop_equal : List Entry → ℕ → Value → ℕ → List Entry
pop_equal items pos value row_idx = elim (drop pos items) [
  | [] ↦ items
  | e ∷ tail ↦ if e.0 == value && e.1 == row_idx then take pos items ++ tail else items
]

unfoldable pub delete : RangeIndex → ℕ → Row → RangeIndex
unfolding pop_equal bisect_left
delete r row_idx row =
    let value = get_or_none row r.column in
    if value == null then r else record r {
      items = pop_equal r.items (bisect_left r.items (at value row_idx)) value row_idx;
    }

unfoldable pub update : RangeIndex → ℕ → Row → Row → RangeIndex
unfolding insert delete
update r row_idx old_row new_row =
    if get_or_none old_row r.column == get_or_none new_row r.column
    then r
    else insert (delete r row_idx old_row) row_idx new_row

unfoldable pub start_of : List Entry → Value → Bool → ℕ
unfolding bisect_left bisect_right
start_of items low include_low =
    if low == null
    then 0
    else if include_low
    then bisect_left items (before low)
    else bisect_right items (after low)

unfoldable pub end_of : List Entry → Value → Bool → ℕ
unfolding bisect_left bisect_right
end_of items high include_high =
    if high == null
    then length items
    else if include_high
    then bisect_right items (after high)
    else bisect_left items (before high)

abbrev pub row_of : Entry → ℕ
row_of e = e.1

-- A bound that is None does not bound.
unfoldable pub range_lookup : RangeIndex → Value → Value → Bool → Bool → List ℕ
unfolding start_of end_of
range_lookup r low high include_low include_high =
    let start = start_of r.items low include_low in
    map row_of (take (end_of r.items high include_high - start) (drop start r.items))
