-- ===== src/Wal/Laws.antt =====
-- What the log holds: the records on file, then those in the buffer, and nothing is lost.
use mathlib.Core.List.{append_assoc, map-append, append-nil}
use snapdb.Prelude.{
  ◌<◌, ◌≡◌, sym, ap, ◌∙◌, inl, inr, List, [], ◌∷◌, ◌++◌, map, leb, length, arith, Bool-cases,
}
use snapdb.Value.{codes_eq}
use snapdb.Wal.{Record, Entry, entry_of, encode_entry, Wal, lines_of, line_of, flush, append}

-- The dict of a record, encoded
abbrev pub encoded : Record → Entry
encoded r = encode_entry (entry_of r)

-- The log holds the records, on file or not: the file was written with this log's key.
pub record Holds (w : Wal) (records : List Record) : Type 0 where
  pub on_file : List Record
  pub buffered : List Record
  pub written : lines_of w.file ≡ map (line_of w.key) (map encoded on_file)
  pub waiting : w.buffer ≡ map encoded buffered
  pub all : records ≡ on_file ++ buffered

flush_file : (w : Wal) → lines_of (flush w).file ≡ lines_of w.file ++ map (line_of w.key) w.buffer
unfolding flush
flush_file w = ground (arith, append-nil (lines_of w.file))

pub flush_buffer : (w : Wal) → (flush w).buffer ≡ []
unfolding flush
flush_buffer w = ground arith

flush_key : (w : Wal) → (flush w).key ≡ w.key
unfolding flush
flush_key w = ground arith

-- After a flush all of the records are on file.
pub flush_lines :
    (w : Wal) (rs : List Record)
    → Holds w rs
    → lines_of (flush w).file ≡ map (line_of w.key) (map encoded rs)
flush_lines w rs h =
    flush_file w
    ∙ ap (λ l. l ++ map (line_of w.key) w.buffer) h.written
    ∙ ap (λ b. map (line_of w.key) (map encoded h.on_file) ++ map (line_of w.key) b) h.waiting
    ∙ sym (map-append (line_of w.key) (map encoded h.on_file) (map encoded h.buffered))
    ∙ ap (map (line_of w.key)) (sym (map-append encoded h.on_file h.buffered))
    ∙ ap (λ l. map (line_of w.key) (map encoded l)) (sym h.all)

-- Flushing moves the buffer to the file, and the log holds the records that it held.
pub flush-Holds : (w : Wal) (rs : List Record) → Holds w rs → Holds (flush w) rs
flush-Holds w rs h = record {
  on_file = rs;
  buffered = [];
  written = flush_lines w rs h ∙ ap (λ k. map (line_of k) (map encoded rs)) (sym (flush_key w));
  waiting = flush_buffer w;
  all = sym (append-nil rs);
}

-- Appending a record to a log that holds some records, with the flush that a full buffer triggers,
-- gives a log that holds them and the new one at the end.
pub append-Holds :
    (w : Wal) (rs : List Record) (r : Record) → Holds w rs → Holds (append w r) (rs ++ (r ∷ []))
unfolding append
append-Holds w rs r h =
    elim (Bool-cases (leb w.buffer_size (length (w.buffer ++ (encoded r ∷ []))))) [
      | inl full ↦ rw full (flush-Holds _ _ longer)
      | inr room ↦ rw room longer
    ]
  where
    longer : Holds (record w { buffer = w.buffer ++ (encoded r ∷ []) }) (rs ++ (r ∷ []))
    longer = record {
      on_file = h.on_file;
      buffered = h.buffered ++ (r ∷ []);
      written = h.written;
      waiting =
          ap (λ b. b ++ (encoded r ∷ [])) h.waiting ∙ sym (map-append encoded h.buffered (r ∷ []));
      all = ap (λ l. l ++ (r ∷ [])) h.all ∙ append_assoc h.on_file h.buffered (r ∷ []);
    }

-- Where the buffer has a positive limit, after an append it holds fewer records than its limit.
pub append-buffer-lt :
    (w : Wal) (r : Record) → 0 < w.buffer_size → length (append w r).buffer < w.buffer_size
unfolding append
append-buffer-lt w r h =
    ground (arith, flush_buffer (record w { buffer = w.buffer ++ (encoded r ∷ []) }))
