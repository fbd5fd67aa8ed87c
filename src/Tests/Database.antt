-- ===== src/Tests/Database.antt =====
-- Queries, joins, recovery and the header at concrete inputs.
use text.Mathlib.TextEquality.{eq_iff}
use snapdb.Prelude.{
  ℕ, ◌≡◌, ◌≢◌, ◌↔◌, refl, sym, ap, subst, ◌∙◌, String, true, false, none, some, List, [], ◌∷◌,
  arith, contains, length,
}
use snapdb.Prelude.Eq.{nat_eq, string_eq}
use snapdb.Prelude.Dict
use snapdb.Prelude.Int.{pos}
use snapdb.Result.{ok, err, value_error}
use snapdb.Value.{Value, null, int, value_eq, norm_value, lt_value}
use snapdb.Schema.{has_column, get_or_none, Row}
use snapdb.Index.Hash
use snapdb.Index.Hash.{HashIndex}
use snapdb.Index.Hash.Laws.{lists, init-IsTidy, insert-IsTidy, IsTidy}
use snapdb.Index.Range.{RangeIndex}
use snapdb.Slab
use snapdb.Slab.{Slab}
use snapdb.Slab.Pruning.{Covers}
use snapdb.Value.Order.{lt_value_irrefl}
use snapdb.Wal
use snapdb.Wal.{Record}
use snapdb.Db.{Db, iter}
use snapdb.Db.Crud.{matching}
use snapdb.Db.Unique.{unique_key, validate_columns, unique_update}
use snapdb.Db.Unique.Laws.{owner, validate_columns-owner, unique_update-rejected}
use snapdb.Db.Ranges.{join, meets, rows_meeting, range_find}
use snapdb.Db.Ranges.Join.{nested_loop, join-nested_loop}
use snapdb.Slab.Ensured.{CoversRows}
use snapdb.Db.Ranges.Pruned.{AreZoned, range_find-iter}
use snapdb.Db.File.{pack_header, unpack_header}
use snapdb.Db.File.Header.{unpack_header-pack_header}
use snapdb.Db.Recover.{committed_from, net_from}
use snapdb.Db.Recover.Committed.{
  Change, commits, rolls_back, Tx, log_of, committed_records, committed-log_of,
}
use snapdb.Db.Recover.Netted.{last_of, is_overtaken, net_from-last_of}
use snapdb.Query.{exactly, Conditions}
use snapdb.Query.Execute.{query, filter, count, passes, iter_matching_values, values_of}
use snapdb.Query.Admits.{Serves}
use snapdb.Query.Laws.{ServesAll, count-matching, iter_matching_values-matching}
use package.snapdb.Tests.Data.{table, an, ann, bob, file, page}

-- A database with one slab of one row, and an index of its names.
abbrev db : Db
db = record {
  schema = table;
  page_size = 18;
  rows_per_slab = 3;
  schema_offset = 0;
  mm = (Slab.insert page file ann).2;
  slabs = (Slab.insert page file ann).1 ∷ [];
  total_rows = pos 1;
  unique_columns = "id" ∷ [];
  unique_values = ("id", (int (pos 7), 0) ∷ (int (pos 9), 1) ∷ []) ∷ [];
  indexes = ("name", Hash.insert (Hash.init "name") 0 ann) ∷ [];
  range_indexes = [];
  auto_index = false;
  auto_index_threshold = 10;
  access_counts = [];
  in_tx = false;
  tx_state = [];
  wal = Wal.init none none;
  recovering = false;
  cdc = none;
  crypt = none;
}

has_id : has_column table "id" ≡ true
unfolding has_column Dict.get snapdb.Schema.init Dict.put snapdb.Schema.column_def
has_id = refl

has_name : has_column table "name" ≡ true
unfolding has_column Dict.get snapdb.Schema.init Dict.put snapdb.Schema.column_def
has_name = refl

join-nested_loop_example :
    join db db "name" "name" ≡ ok (nested_loop "name" "name" (iter db) (iter db))
join-nested_loop_example = join-nested_loop db db "name" "name" has_name has_name

ten_packs :
    pack_header (1, 4096, 3, 150)
    ≡ ok (83 ∷ 78 ∷ 65 ∷ 80 ∷ 1 ∷ 0 ∷ 0 ∷ 16 ∷ 3 ∷ 0 ∷ 0 ∷ 0 ∷ 150 ∷ 0 ∷ 0 ∷ 0 ∷ 0 ∷ 0 ∷ 0 ∷ 0 ∷ [])
unfolding pack_header snapdb.Bytes.to_bytes
ten_packs = refl

unpack_header-pack_header_example :
    unpack_header
      (83 ∷ 78 ∷ 65 ∷ 80 ∷ 1 ∷ 0 ∷ 0 ∷ 16 ∷ 3 ∷ 0 ∷ 0 ∷ 0 ∷ 150 ∷ 0 ∷ 0 ∷ 0 ∷ 0 ∷ 0 ∷ 0 ∷ 0 ∷ [])
    ≡ ok (1, 4096, 3, 150)
unpack_header-pack_header_example =
    unpack_header-pack_header 4096 3 150
      (83 ∷ 78 ∷ 65 ∷ 80 ∷ 1 ∷ 0 ∷ 0 ∷ 16 ∷ 3 ∷ 0 ∷ 0 ∷ 0 ∷ 150 ∷ 0 ∷ 0 ∷ 0 ∷ 0 ∷ 0 ∷ 0 ∷ 0 ∷ [])
      ten_packs

-- A transaction that committed, and one that was rolled back.
abbrev two_txs : List Tx
two_txs =
    (1, (Change.insert 0 ann ∷ Change.delete 0 ∷ []), commits)
    ∷ (2, (Change.insert 0 bob ∷ []), rolls_back)
    ∷ []

committed-log_of_example : committed_from [] [] (log_of two_txs) ≡ committed_records two_txs
committed-log_of_example = committed-log_of two_txs

abbrev changes : List Record
changes = Record.insert 0 ann ∷ Record.insert 1 bob ∷ Record.delete 0 ∷ []

net_from-last_of_example :
    ((idx : ℕ) → last_of idx (net_from [] changes) ≡ last_of idx changes)
    × ((idx : ℕ) → is_overtaken idx (net_from [] changes) ≡ false)
net_from-last_of_example = net_from-last_of changes

validate_columns-owner_example :
    (validate_columns ("id" ∷ []) db.unique_values ann (some 0) ≡ ok tt) ↔ (
      (col : String)
      → contains col ("id" ∷ []) ≡ true
      → (o : ℕ) → owner db.unique_values col (unique_key ann col) ≡ some o
      → some 0 ≡ some o)
validate_columns-owner_example = validate_columns-owner ("id" ∷ []) db.unique_values ann (some 0)

ann_owns :
    (col : String)
    → contains col db.unique_columns ≡ true
    → owner db.unique_values col (unique_key ann col) ≡ some 0
unfolding owner Dict.get snapdb.Value.eq_value unique_key norm_value get_or_none
ann_owns col c = ap (λ k. owner db.unique_values k (unique_key ann k)) (is_id col c) ∙ ann_owns_id
  where
    is_id : (col : String) → contains col ("id" ∷ []) ≡ true → col ≡ "id"
    is_id col c = ground (arith, eq_iff col "id")

    ann_owns_id : owner db.unique_values "id" (unique_key ann "id") ≡ some 0
    ann_owns_id = refl

bob_rejected : (unique_update 0 ann bob db).0 ≡ err value_error
unfolding unique_update Dict.get Dict.put snapdb.Value.eq_value norm_value get_or_none Dict.del
bob_rejected = refl

unique_update-rejected_example :
    owner (unique_update 0 ann bob db).1.unique_values "id" (int (pos 9))
    ≡ owner db.unique_values "id" (int (pos 9))
unique_update-rejected_example =
    unique_update-rejected db 0 ann bob ann_owns bob_rejected "id" (int (pos 9))

abbrev by_name : HashIndex
by_name = Hash.insert (Hash.init "name") 0 ann

name_index :
    (col : String) (h : HashIndex)
    → Dict.get db.indexes col ≡ some h
    → ("name" ≡ col) × (by_name ≡ h)
unfolding Dict.get
name_index col h e = (ground (arith, eq_iff "name" col), ground (arith, eq_iff "name" col))

by_name_lists : lists by_name.index (norm_value (get_or_none ann "name")) 0 ≡ true
unfolding lists Hash.rows_at Dict.get Hash.insert Dict.put Hash.init snapdb.Value.eq_value
    Hash.key_of norm_value get_or_none snapdb.Value.eq_codes
by_name_lists = refl

no_range_index : (col : String) → Dict.get db.range_indexes col ≡ none
unfolding Dict.get
no_range_index col = refl

ann-Serves : Serves db 0 ann
ann-Serves = record {
  hashed = λ col h e.
      subst (λ c. IsTidy h.index × (lists h.index (norm_value (get_or_none ann c)) 0 ≡ true))
        (name_index col h e).0
        (subst
          (λ h. IsTidy h.index × (lists h.index (norm_value (get_or_none ann "name")) 0 ≡ true))
          (name_index col h e).1
          (insert-IsTidy (Hash.init "name") 0 ann (init-IsTidy "name"), by_name_lists));
  ranged = λ col r e. elim (none_some col r e) [ ];
}
  where
    none_some : (col : String) (r : RangeIndex) → Dict.get db.range_indexes col ≡ some r → ⊥
    none_some col r e = elim_none (sym (no_range_index col) ∙ e)
      where
        elim_none : {r : RangeIndex} → none ≡ some r → ⊥
        elim_none q = cc

db_rows : iter db ≡ (0, ann) ∷ []
unfolding iter Slab.iter_rows Slab.insert Slab.init snapdb.Schema.Codec.encode_row
    snapdb.Schema.init Dict.get snapdb.Schema.column_def snapdb.Value.eq_value Dict.put
    snapdb.Schema.Codec.unpack snapdb.Bytes.from_bytes snapdb.Schema.Codec.decode_value
    snapdb.Schema.code_size get_or_none snapdb.Bytes.slice snapdb.Utf8.decode_replace
    snapdb.Schema.type_size snapdb.Bytes.rstrip snapdb.Bytes.write snapdb.Bytes.to_bytes
    snapdb.Bytes.fit snapdb.Utf8.encode snapdb.Utf8.encode_char snapdb.Utf8.has_surrogate
    snapdb.Value.lt_value snapdb.Utf8.decode_from snapdb.Utf8.feed
db_rows = refl

db-ServesAll : ServesAll db (iter db)
db-ServesAll = subst (ServesAll db) (sym db_rows) (ann-Serves, tt)

abbrev named_an : Conditions
named_an = ("name", exactly an) ∷ []

count-matching_example :
    count (filter (query db) named_an)
    ≡ pos (length (matching (passes (filter (query db) named_an)) (iter db)))
unfolding query
count-matching_example = count-matching (query db) named_an db-ServesAll

iter_matching_values-matching_example :
    iter_matching_values (filter (query db) named_an) "id"
    ≡ values_of "id" (matching (passes (filter (query db) named_an)) (iter db))
unfolding query
iter_matching_values-matching_example =
    iter_matching_values-matching (query db) named_an db-ServesAll "id"

abbrev one : Slab
one = (Slab.insert page file ann).1

one_rows : Slab.iter_rows one db.mm ≡ (0, ann) ∷ []
unfolding iter Slab.iter_rows Slab.insert Slab.init snapdb.Schema.Codec.encode_row
    snapdb.Schema.init Dict.get snapdb.Schema.column_def snapdb.Value.eq_value Dict.put
    snapdb.Schema.Codec.unpack snapdb.Bytes.from_bytes snapdb.Schema.Codec.decode_value
    snapdb.Schema.code_size get_or_none snapdb.Bytes.slice snapdb.Utf8.decode_replace
    snapdb.Schema.type_size snapdb.Bytes.rstrip snapdb.Bytes.write snapdb.Bytes.to_bytes
    snapdb.Bytes.fit snapdb.Utf8.encode snapdb.Utf8.encode_char snapdb.Utf8.has_surrogate
    snapdb.Value.lt_value snapdb.Utf8.decode_from snapdb.Utf8.feed
one_rows = refl

id_min : get_or_none one.zone_min "id" ≡ get_or_none ann "id"
unfolding iter Slab.iter_rows Slab.insert Slab.init snapdb.Schema.Codec.encode_row
    snapdb.Schema.init Dict.get snapdb.Schema.column_def snapdb.Value.eq_value Dict.put
    snapdb.Schema.Codec.unpack snapdb.Bytes.from_bytes snapdb.Schema.Codec.decode_value
    snapdb.Schema.code_size get_or_none snapdb.Bytes.slice snapdb.Utf8.decode_replace
    snapdb.Schema.type_size snapdb.Bytes.rstrip snapdb.Bytes.write snapdb.Bytes.to_bytes
    snapdb.Bytes.fit snapdb.Utf8.encode snapdb.Utf8.encode_char snapdb.Utf8.has_surrogate
    snapdb.Value.lt_value snapdb.Utf8.decode_from snapdb.Utf8.feed
id_min = refl

id_max : get_or_none one.zone_max "id" ≡ get_or_none ann "id"
unfolding iter Slab.iter_rows Slab.insert Slab.init snapdb.Schema.Codec.encode_row
    snapdb.Schema.init Dict.get snapdb.Schema.column_def snapdb.Value.eq_value Dict.put
    snapdb.Schema.Codec.unpack snapdb.Bytes.from_bytes snapdb.Schema.Codec.decode_value
    snapdb.Schema.code_size get_or_none snapdb.Bytes.slice snapdb.Utf8.decode_replace
    snapdb.Schema.type_size snapdb.Bytes.rstrip snapdb.Bytes.write snapdb.Bytes.to_bytes
    snapdb.Bytes.fit snapdb.Utf8.encode snapdb.Utf8.encode_char snapdb.Utf8.has_surrogate
    snapdb.Value.lt_value snapdb.Utf8.decode_from snapdb.Utf8.feed
id_max = refl

ann_id_not_null : get_or_none ann "id" ≢ null
unfolding get_or_none Dict.get
ann_id_not_null e = ground (arith, e)

one-Covers : Covers one "id" (get_or_none ann "id")
one-Covers = (
  (
    (λ e. ann_id_not_null (sym id_min ∙ e)),
    subst (λ v. lt_value (get_or_none ann "id") v ≡ false) (sym id_min)
        (lt_value_irrefl (get_or_none ann "id")),
  ),
  (
    (λ e. ann_id_not_null (sym id_max ∙ e)),
    subst (λ v. lt_value v (get_or_none ann "id") ≡ false) (sym id_max)
        (lt_value_irrefl (get_or_none ann "id")),
  ),
)

one_zone : contains "id" one.schema.zone_columns ≡ true
unfolding Slab.insert Slab.init snapdb.Schema.Codec.encode_row snapdb.Schema.init Dict.get
    snapdb.Schema.column_def snapdb.Value.eq_value snapdb.Utf8.has_surrogate
one_zone = refl

one-AreZoned : AreZoned db.mm "id" db.slabs
one-AreZoned =
    (one_zone, (λ b. subst (CoversRows one "id") (sym one_rows) ((λ n. one-Covers), tt)), tt)

range_find-iter_example :
    (range_find "id" (int (pos 8)) null true true db).0
    ≡ ok (rows_meeting (meets (int (pos 8)) null true true) "id" (iter db))
range_find-iter_example =
    range_find-iter "id" (int (pos 8)) null true true db has_id (no_range_index "id") one-AreZoned
