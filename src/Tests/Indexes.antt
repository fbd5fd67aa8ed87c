-- ===== src/Tests/Indexes.antt =====
-- The indexes and the log at concrete inputs.
use snapdb.Prelude.{
  ℕ, ◌<◌, ◌≡◌, ◌≢◌, refl, true, false, ◌&&◌, ◌||◌, not, none, some, [], ◌∷◌, ◌++◌, map, arith,
  contains, length, if◌then◌else◌,
}
use snapdb.Prelude.Eq.{◌==◌, nat_eq, string_eq}
use snapdb.Prelude.Dict
use snapdb.Prelude.Int.{pos}
use snapdb.Result.{ok}
use snapdb.Value.{int, value_eq, norm_value}
use snapdb.Index.RowSet.{RowSet, IsAscending}
use snapdb.Index.Hash
use snapdb.Index.Hash.{HashIndex}
use snapdb.Index.Hash.Laws.{
  lists, lists-insert, lists-delete, lists-update, IsTidy, lookup_lem, init-IsTidy, insert-IsTidy,
}
use snapdb.Index.Multi
use snapdb.Index.Multi.{MultiIndex}
use snapdb.Index.Multi.Laws.{all_list, lookup-all_list}
use snapdb.Index.Range
use snapdb.Index.Range.{RangeIndex}
use snapdb.Index.Range.Order.{IsSorted, build-IsSorted}
use snapdb.Index.Range.Laws.{in_range, rows_in, range_lookup-rows_in}
use snapdb.Wal
use snapdb.Wal.{Wal, Record, entry_of, torn, line_of, read_lines}
use snapdb.Wal.Laws.{Holds, encoded, append-Holds, append-buffer-lt}
use snapdb.Wal.Replay.{IsKept, replay-Holds, read_lines-torn, read_lines-bytes_column}
use package.snapdb.Tests.Data.{an, ann, bob}

abbrev two : ℕ
two = 2

abbrev four : ℕ
four = 4

abbrev by_name : HashIndex
by_name = Hash.insert (Hash.init "name") 4 ann

by_name-IsTidy : IsTidy by_name.index
by_name-IsTidy = insert-IsTidy (Hash.init "name") 4 ann (init-IsTidy "name")

lists-insert_example :
    lists (Hash.insert by_name 2 ann).index an 2
    ≡ (Hash.key_of by_name ann == an && two == two || lists by_name.index an 2)
lists-insert_example = lists-insert by_name 2 ann an 2

lists-delete_example :
    lists (Hash.delete by_name 4 ann).index an 4
    ≡ (lists by_name.index an 4 && not (Hash.key_of by_name ann == an && four == four))
lists-delete_example = lists-delete by_name 4 ann an 4

lists-update_example : lists (Hash.update by_name 4 ann bob).index an 4 ≡ (
    if Hash.key_of by_name ann == Hash.key_of by_name bob
    then lists by_name.index an 4
    else (Hash.key_of by_name bob == an && four == four
        || lists by_name.index an 4 && not (Hash.key_of by_name ann == an && four == four)))
lists-update_example = lists-update by_name 4 ann bob an 4

lookup_lem_example :
    ((j : ℕ) → contains j (Hash.lookup by_name an) ≡ lists by_name.index (norm_value an) j)
    × IsAscending (Hash.lookup by_name an)
lookup_lem_example = lookup_lem by_name an by_name-IsTidy

abbrev indexes : MultiIndex
indexes = ("name", by_name) ∷ []

indexes_found : Dict.get indexes "name" ≡ some by_name
unfolding Dict.get
indexes_found = refl

lookup-all_list_example :
    (l : RowSet) × (Multi.lookup indexes (("name", an) ∷ []) ≡ ok (some l))
    × ((j : ℕ) → contains j l ≡ all_list indexes (("name", an) ∷ []) j)
    × IsAscending l
lookup-all_list_example =
    lookup-all_list indexes "name" an [] ((by_name, indexes_found, by_name-IsTidy), tt)

abbrev by_id : RangeIndex
by_id = Range.build (Range.init "id") ((3, bob) ∷ (4, ann) ∷ [])

by_id-IsSorted : IsSorted by_id.items
by_id-IsSorted = build-IsSorted (Range.init "id") ((3, bob) ∷ (4, ann) ∷ [])

range_lookup-rows_in_example :
    Range.range_lookup by_id (int (pos 7)) (int (pos 9)) true false
    ≡ rows_in (in_range (int (pos 7)) (int (pos 9)) true false) by_id.items
range_lookup-rows_in_example =
    range_lookup-rows_in by_id (int (pos 7)) (int (pos 9)) true false by_id-IsSorted

abbrev empty_log : Wal
empty_log = Wal.init none none

empty_log-Holds : Holds empty_log []
unfolding Wal.init
empty_log-Holds = record { on_file = []; buffered = []; written = refl; waiting = refl; all = refl }

ann-IsKept : IsKept (Record.insert 0 ann)
ann-IsKept = (tt, λ (v, e). ground (arith, e))

abbrev log_one : Wal
log_one = Wal.append empty_log (Record.insert 0 ann)

append-Holds_example : Holds log_one (Record.insert 0 ann ∷ [])
append-Holds_example = append-Holds empty_log [] (Record.insert 0 ann) empty_log-Holds

append-buffer-lt_example : length (Wal.append empty_log (Record.insert 0 ann)).buffer < 100
unfolding Wal.init
append-buffer-lt_example = append-buffer-lt empty_log (Record.insert 0 ann) (omega arith)

replay-Holds_example :
    ((Wal.replay log_one).1 ≡ ok (entry_of (Record.insert 0 ann) ∷ []))
    × (Wal.records_of (entry_of (Record.insert 0 ann) ∷ []) ≡ ok (Record.insert 0 ann ∷ []))
replay-Holds_example =
    replay-Holds log_one (Record.insert 0 ann ∷ [])
      (append-Holds empty_log [] (Record.insert 0 ann) empty_log-Holds) (ann-IsKept, tt)

read_lines-torn_example :
    read_lines none
      (map (line_of none) (map encoded (Record.insert 0 ann ∷ Record.delete 3 ∷ [])) ++ (torn ∷ []))
    ≡ ok (map entry_of (Record.insert 0 ann ∷ Record.delete 3 ∷ []))
read_lines-torn_example =
    read_lines-torn none (Record.insert 0 ann ∷ Record.delete 3 ∷ []) [] (ann-IsKept, (tt, tt))

read_lines-bytes_column_example :
    read_lines none
      (line_of none (encoded (Record.insert 0 (("__bytes__", int (pos 5)) ∷ []))) ∷ [])
    ≢ ok (entry_of (Record.insert 0 ann) ∷ [])
read_lines-bytes_column_example = read_lines-bytes_column none 0 (int (pos 5)) [] ann []
