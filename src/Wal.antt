-- ===== src/Wal.antt =====
-- `WAL` of snapdb/wal.py: records are encoded and buffered, and flushed to a file of one line per
-- record. A line stands for the JSON text of an encoded record, sealed with a key where the log is
-- encrypted; a torn line is one that does not parse. A sealed line opens with the key that sealed it
-- alone.
pub mod Laws
pub mod Replay
use snapdb.Prelude.{
  ℕ, ◌+◌, Bool, true, false, Option, none, some, List, [], ◌∷◌, ◌++◌, map, leb, length,
  if◌then◌else◌,
}
use snapdb.Prelude.Eq.{◌==◌}
use snapdb.Result.{Result, ok, err, value_error, ◌>>=◌}
use snapdb.Schema.{Row}
use snapdb.Json.{Tree, dict, fields_of, row_of, encode, decode}
use snapdb.Value.{codes_eq}

-- The key is its bytes.
abbrev pub Key : Type 0
Key = List ℕ

pub data Record : Type 0 where
  insert : ℕ → Row → Record
  update : ℕ → Row → Record
  delete : ℕ → Record
  begin : ℕ → Record
  commit : ℕ → Record
  rollback : ℕ → Record

-- The dict of a record, as `append` is given it, as it is encoded, and as `replay` yields it: its
-- "op" is the constructor, its "idx" or "txid" the number, its "row" a value that `_encode` and
-- `_decode` change.
pub data Entry : Type 0 where
  insert : ℕ → Tree → Entry
  update : ℕ → Tree → Entry
  delete : ℕ → Entry
  begin : ℕ → Entry
  commit : ℕ → Entry
  rollback : ℕ → Entry

-- {"op": op, **kwargs}
unfoldable pub entry_of : Record → Entry
unfolding fields_of
entry_of (Record.insert i row) = Entry.insert i (dict (fields_of row))
entry_of (Record.update i row) = Entry.update i (dict (fields_of row))
entry_of (Record.delete i) = Entry.delete i
entry_of (Record.begin n) = Entry.begin n
entry_of (Record.commit n) = Entry.commit n
entry_of (Record.rollback n) = Entry.rollback n

-- `_encode` of the dict
unfoldable pub encode_entry : Entry → Entry
unfolding encode
encode_entry (Entry.insert i t) = Entry.insert i (encode t)
encode_entry (Entry.update i t) = Entry.update i (encode t)
encode_entry (Entry.delete i) = Entry.delete i
encode_entry (Entry.begin n) = Entry.begin n
encode_entry (Entry.commit n) = Entry.commit n
encode_entry (Entry.rollback n) = Entry.rollback n

-- `_decode` of the dict
unfoldable pub decode_entry : Entry → Result Entry
unfolding decode
decode_entry (Entry.insert i t) = do u ← decode t; ok (Entry.insert i u)
decode_entry (Entry.update i t) = do u ← decode t; ok (Entry.update i u)
decode_entry (Entry.delete i) = ok (Entry.delete i)
decode_entry (Entry.begin n) = ok (Entry.begin n)
decode_entry (Entry.commit n) = ok (Entry.commit n)
decode_entry (Entry.rollback n) = ok (Entry.rollback n)

-- The record that a dict stands for
unfoldable pub record_of : Entry → Result Record
unfolding row_of
record_of (Entry.insert i t) = do row ← row_of t; ok (Record.insert i row)
record_of (Entry.update i t) = do row ← row_of t; ok (Record.update i row)
record_of (Entry.delete i) = ok (Record.delete i)
record_of (Entry.begin n) = ok (Record.begin n)
record_of (Entry.commit n) = ok (Record.commit n)
record_of (Entry.rollback n) = ok (Record.rollback n)

unfoldable pub records_of : List Entry → Result (List Record)
unfolding record_of
records_of [] = ok []
records_of (e ∷ es) = do r ← record_of e; rs ← records_of es; ok (r ∷ rs)

pub data Line : Type 0 where
  plain : Entry → Line
  sealed : Key → Entry → Line
  blank : Line
  torn : Line

-- `file` is none where the path does not exist.
pub record Wal : Type 0 where
  pub file : Option (List Line)
  pub buffer : List Entry
  pub buffer_size : ℕ
  pub txid : ℕ
  pub in_tx : Bool
  pub key : Option Key

unfoldable pub init : Option Key → Option (List Line) → Wal
init key file = record {
  file = file;
  buffer = [];
  buffer_size = 100;
  txid = 0;
  in_tx = false;
  key = key;
}

abbrev pub lines_of : Option (List Line) → List Line
lines_of none = []
lines_of (some lines) = lines

-- One round of the loop of `_flush`
unfoldable pub line_of : Option Key → Entry → Line
line_of none r = plain r
line_of (some k) r = sealed k r

unfoldable pub flush : Wal → Wal
unfolding line_of
flush w = elim w.buffer [
  | [] ↦ w
  | r ∷ rs ↦ record w { file = some (lines_of w.file ++ map (line_of w.key) w.buffer); buffer = [] }
]

unfoldable pub append : Wal → Record → Wal
unfolding entry_of encode_entry flush
append w r =
    let longer = record w { buffer = w.buffer ++ (encode_entry (entry_of r) ∷ []) } in
    if leb w.buffer_size (length longer.buffer) then flush longer else longer

-- `begin`: the log with the record, its `_txid` counted up
unfoldable pub begin_tx : Wal → Wal
unfolding append
begin_tx w = append (record w { txid = w.txid + 1; in_tx = true }) (Record.begin (w.txid + 1))

unfoldable pub commit_tx : Wal → Wal
unfolding append flush
commit_tx w =
    if w.in_tx then record (flush (append w (Record.commit w.txid))) { in_tx = false } else w

unfoldable pub rollback_tx : Wal → Wal
unfolding append flush
rollback_tx w =
    if w.in_tx then record (flush (append w (Record.rollback w.txid))) { in_tx = false } else w

-- The loop of `replay`. A torn line ends it; a sealed one raises without a key, and with another key
-- than its own it does not parse. The exception of a record comes after those in front of it.
unfoldable pub read_lines : Option Key → List Line → Result (List Entry)
unfolding decode_entry
read_lines key [] = ok []
read_lines key (blank ∷ lines) = read_lines key lines
read_lines key (torn ∷ lines) = ok []
read_lines key (plain r ∷ lines) =
    let rest = read_lines key lines in do e ← decode_entry r; es ← rest; ok (e ∷ es)
read_lines none (sealed k r ∷ lines) = err value_error
read_lines (some key) (sealed k r ∷ lines) =
    let rest = read_lines (some key) lines in
    if k == key then (do e ← decode_entry r; es ← rest; ok (e ∷ es)) else ok []

unfoldable pub replay : Wal → Wal × Result (List Entry)
unfolding flush read_lines
replay w = (flush w, read_lines w.key (lines_of (flush w).file))

unfoldable pub clear : Wal → Wal
unfolding flush
clear w = record (flush w) { file = none }

unfoldable pub close : Wal → Wal
unfolding flush
close w = flush w
