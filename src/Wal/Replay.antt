-- ===== src/Wal/Replay.antt =====
-- What `replay` reads back of what the log holds (snapdb/wal.py).
use mathlib.Core.List.{append-nil}
use snapdb.Prelude.{
  ℕ, ◌≡◌, ◌≢◌, refl, sym, ap, inl, inr, ◌∙◌, Option, none, some, List, [], ◌∷◌, ◌++◌, map, arith,
}
use snapdb.Result.{ok, Result-cases}
use snapdb.Value.{Value, eq_codes_iff}
use snapdb.Schema.{Row}
use snapdb.Json.{dict, fields_of, row_from, row_of, encode, decode}
use snapdb.Json.Roundtrip.{HoldsBytes, HasBytesColumn, decode-encode, decode-encode_column}
use snapdb.Wal.{
  Key, Record, Entry, entry_of, encode_entry, decode_entry, Line, torn, Wal, line_of, read_lines,
  replay, record_of, records_of,
}
use snapdb.Wal.Laws.{Holds, encoded, flush_lines}

-- A row that the log keeps: its byte strings hold bytes, and it does not consist of a single column
-- called `__bytes__`.
abbrev pub IsKept : Record → Type 0
IsKept (Record.insert i row) = HoldsBytes row × ¬ HasBytesColumn row
IsKept (Record.update i row) = HoldsBytes row × ¬ HasBytesColumn row
IsKept (Record.delete i) = Unit
IsKept (Record.begin n) = Unit
IsKept (Record.commit n) = Unit
IsKept (Record.rollback n) = Unit

abbrev pub AllKept : List Record → Type 0
AllKept [] = Unit
AllKept (r ∷ rs) = IsKept r × AllKept rs

decode_entry-encoded : (r : Record) → IsKept r → decode_entry (encoded r) ≡ ok (entry_of r)
unfolding decode_entry encode_entry entry_of
decode_entry-encoded (Record.insert i row) (b, n) = rw (decode-encode row b n) refl
decode_entry-encoded (Record.update i row) (b, n) = rw (decode-encode row b n) refl
decode_entry-encoded (Record.delete i) h = refl
decode_entry-encoded (Record.begin n) h = refl
decode_entry-encoded (Record.commit n) h = refl
decode_entry-encoded (Record.rollback n) h = refl

-- Lines after the records decide how reading goes on.
read_lines-append :
    (key : Option Key) (rs : List Record) (lines : List Line) {rest : List Entry}
    → AllKept rs
    → read_lines key lines ≡ ok rest
    → read_lines key (map (line_of key) (map encoded rs) ++ lines) ≡ ok (map entry_of rs ++ rest)
unfolding read_lines line_of
read_lines-append key [] lines h e = e
read_lines-append none (r ∷ rs) lines (k, h) e =
    ground (arith, decode_entry-encoded r k, read_lines-append none rs lines h e)
read_lines-append (some key) (r ∷ rs) lines (k, h) e = ground (
  arith,
  eq_codes_iff key key,
  decode_entry-encoded r k,
  read_lines-append (some key) rs lines h e,
)

row_from-fields_of : (row : Row) → row_from (fields_of row) ≡ ok row
unfolding row_from fields_of
row_from-fields_of [] = refl
row_from-fields_of ((k, v) ∷ row) = rw (row_from-fields_of row) refl

record_of-entry_of : (r : Record) → record_of (entry_of r) ≡ ok r
unfolding record_of entry_of row_of
record_of-entry_of (Record.insert i row) = rw (row_from-fields_of row) refl
record_of-entry_of (Record.update i row) = rw (row_from-fields_of row) refl
record_of-entry_of (Record.delete i) = refl
record_of-entry_of (Record.begin n) = refl
record_of-entry_of (Record.commit n) = refl
record_of-entry_of (Record.rollback n) = refl

records_of-entries : (rs : List Record) → records_of (map entry_of rs) ≡ ok rs
unfolding records_of
records_of-entries [] = refl
records_of-entries (r ∷ rs) = rw (record_of-entry_of r, records_of-entries rs) refl

-- Of a log that holds some records in its file and its buffer, where the byte strings of their rows
-- hold bytes and no row has a single column called __bytes__, replay returns the dict of every
-- record in order, as it was given to append, and recovery reads these dicts as the records.
pub replay-Holds :
    (w : Wal) (rs : List Record)
    → Holds w rs
    → AllKept rs
    → ((replay w).1 ≡ ok (map entry_of rs)) × (records_of (map entry_of rs) ≡ ok rs)
unfolding replay read_lines
replay-Holds w rs h kept = (
  ap (read_lines w.key)
        (flush_lines w rs h ∙ sym (append-nil (map (line_of w.key) (map encoded rs))))
      ∙ read_lines-append w.key rs [] kept refl
      ∙ ap ok (append-nil (map entry_of rs)),
  records_of-entries rs,
)

-- In a file where a torn line stands behind some records, where the byte strings of their rows hold
-- bytes and no row has a single column called __bytes__, reading returns the dicts of those
-- records, whatever follows the torn line, and does not raise.
pub read_lines-torn :
    (key : Option Key) (rs : List Record) (lines : List Line)
    → AllKept rs
    → read_lines key (map (line_of key) (map encoded rs) ++ (torn ∷ lines)) ≡ ok (map entry_of rs)
read_lines-torn key rs lines kept =
    read_lines-append key rs (torn ∷ lines) kept (stops key) ∙ ap ok (append-nil (map entry_of rs))
  where
    stops : (key : Option Key) → read_lines key (torn ∷ lines) ≡ ok []
    stops none = unfold read_lines in refl
    stops (some k) = unfold read_lines in refl

-- What decoding makes of such an insertion is no insertion of a row.
decode_entry-column :
    (i : ℕ) (v : Value) (row : Row)
    → decode_entry (encoded (Record.insert i (("__bytes__", v) ∷ [])))
      ≢ ok (entry_of (Record.insert i row))
unfolding decode_entry encode_entry entry_of
decode_entry-column i v row e =
    elim (Result-cases (decode (encode (dict (fields_of (("__bytes__", v) ∷ [])))))) [
      | inl (t, p) ↦ ground (arith, decode-encode_column v row, p, e)
      | inr (x, p) ↦ ground (arith, p, e)
    ]

-- A row whose only column is called __bytes__ is lost: whatever value the column has, reading a log
-- that begins with its insertion does not yield an insertion of any row first.
pub read_lines-bytes_column :
    (key : Option Key) (i : ℕ) (v : Value) (lines : List Line) (row : Row) (rest : List Entry)
    → read_lines key (line_of key (encoded (Record.insert i (("__bytes__", v) ∷ []))) ∷ lines)
      ≢ ok (entry_of (Record.insert i row) ∷ rest)
unfolding read_lines line_of
read_lines-bytes_column none i v lines row rest e = ground (
  arith,
  Result-cases (decode_entry (encoded (Record.insert i (("__bytes__", v) ∷ [])))),
  Result-cases (read_lines none lines),
  decode_entry-column i v row,
  e,
)
read_lines-bytes_column (some k) i v lines row rest e = ground (
  arith,
  eq_codes_iff k k,
  Result-cases (decode_entry (encoded (Record.insert i (("__bytes__", v) ∷ [])))),
  Result-cases (read_lines (some k) lines),
  decode_entry-column i v row,
  e,
)
