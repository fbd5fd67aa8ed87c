-- ===== src/Slab/Batch.antt =====
-- `Schema.iter_unpack_rows` and the batch of `Slab.iter_rows`, against the loop that decodes a row
-- at a time.
use mathlib.Core.List.{append_assoc, append-nil}
use snapdb.Prelude.{
  ℕ, zero, suc, ◌+◌, ◌*◌, ◌≡◌, refl, sym, ap, ◌∙◌, subst, inl, inr, false, none, some, List, [],
  ◌∷◌, ◌++◌, arith, contains, if◌then◌else◌, String, Bool-cases, get_or, drop,
}
use snapdb.Prelude.Eq.{◌==◌, nat_eq, string_eq}
use snapdb.Prelude.Dict
use package.text.Mathlib.TextEquality.{eq_iff}
use snapdb.Bytes.{slice}
use snapdb.Bytes.Slices.{slice_first, slice_rest}
use snapdb.Value.{Value}
use snapdb.Schema.{
  Dtype, i8, bool, bytes, ColumnDef, Columns, Schema, Row, get_or_none, is_bytes, struct_code,
  code_size,
}
use snapdb.Schema.Shape.{names_of, codes_of, IsSchema}
use snapdb.Schema.Codec.{unpack, decode_value, decode_values, decode_row}
use snapdb.Schema.Codec.Fields.{HasDistinctNames, get_or_none_of_some}
use snapdb.Slab.{
  Slab, row_at, row_offset, apply_crypt, rows_from, zip_row, strip_columns, iter_unpack_rows,
  live_only, iter_rows,
}

-- The keys of a row under construction.
abbrev keys : Row → List String
keys [] = []
keys ((k, v) ∷ r) = k ∷ keys r

-- The key is not among those of the row.
abbrev IsNew : String → Row → Type 0
IsNew k [] = Unit
IsNew k ((j, v) ∷ r) = (j == k ≡ false) × IsNew k r

put-new : (r : Row) (k : String) (v : Value) → IsNew k r → Dict.put r k v ≡ r ++ ((k, v) ∷ [])
unfolding Dict.put
put-new [] k v h = refl
put-new ((j, w) ∷ r) k v h = rw (h.0, put-new r k v h.1)

put-append_new :
    (r : Row) (k : String) (v w : Value) (tail : Row)
    → IsNew k r
    → Dict.put (r ++ ((k, w) ∷ tail)) k v ≡ r ++ ((k, v) ∷ tail)
unfolding Dict.put
put-append_new [] k v w tail h = ground (arith, eq_iff k k)
put-append_new ((j, u) ∷ r) k v w tail h = rw (h.0, put-append_new r k v w tail h.1)

get-append_new :
    (r : Row) (k : String) (w : Value) (tail : Row)
    → IsNew k r
    → Dict.get (r ++ ((k, w) ∷ tail)) k ≡ some w
unfolding Dict.get
get-append_new [] k w tail h = ground (arith, eq_iff k k)
get-append_new ((j, u) ∷ r) k w tail h = rw h.0 (get-append_new r k w tail h.1)

-- None of the columns' names is in the row, and they differ from one another.
abbrev AreNew : Columns → Row → Type 0
AreNew [] r = Unit
AreNew (c ∷ cs) r = IsNew c.name r × AreNew cs r

IsNew-append :
    (k : String) (r : Row) (j : String) (v : Value)
    → IsNew k r
    → j == k ≡ false
    → IsNew k (r ++ ((j, v) ∷ []))
IsNew-append k [] j v h n = (n, tt)
IsNew-append k ((i, u) ∷ r) j v h n = (h.0, IsNew-append k r j v h.1 n)

AreNew-append :
    (cs : Columns) (r : Row) (k : String) (v : Value)
    → AreNew cs r
    → contains k (names_of cs) ≡ false
    → AreNew cs (r ++ ((k, v) ∷ []))
AreNew-append [] r k v h n = tt
AreNew-append (c ∷ cs) r k v h n =
    (IsNew-append c.name r k v h.0 (ground arith), AreNew-append cs r k v h.1 (ground arith))

-- What the two loops append: the raw values, and the decoded ones.
abbrev pairs : Columns → List Value → Row
pairs [] vs = []
pairs (c ∷ cs) [] = []
pairs (c ∷ cs) (v ∷ vs) = (c.name, v) ∷ pairs cs vs

zip_row-pairs :
    (cs : Columns) (vs : List Value) (r : Row)
    → HasDistinctNames cs
    → AreNew cs r
    → zip_row cs vs r ≡ r ++ pairs cs vs
unfolding zip_row
zip_row-pairs [] vs r d h = sym (append-nil r)
zip_row-pairs (c ∷ cs) [] r d h = sym (append-nil r)
zip_row-pairs (c ∷ cs) (v ∷ vs) r d h = rw (put-new r c.name v h.0) (
    zip_row-pairs cs vs (r ++ ((c.name, v) ∷ [])) d.1 (AreNew-append cs r c.name v h.1 d.0)
    ∙ append_assoc r ((c.name, v) ∷ []) (pairs cs vs))

-- As many values as columns.
abbrev Fill : Columns → List Value → Type 0
Fill [] vs = Unit
Fill (c ∷ cs) [] = ⊥
Fill (c ∷ cs) (v ∷ vs) = Fill cs vs

decode_value-plain : (d : Dtype) (v : Value) → is_bytes d ≡ false → decode_value d v ≡ v
unfolding decode_value is_bytes
decode_value-plain (bytes n) v h = cc
decode_value-plain bool v h = refl
decode_value-plain i8 v h = refl
decode_value-plain _ v h = refl

-- One round of the stripping loop decodes the column's value in its place.
strip_first :
    (c : ColumnDef) (v : Value) (r tail : Row)
    → IsNew c.name r
    → (if is_bytes c.dtype
        then Dict.put
            (r ++ ((c.name, v) ∷ tail))
            c.name
            (decode_value c.dtype (get_or_none (r ++ ((c.name, v) ∷ tail)) c.name))
        else r ++ ((c.name, v) ∷ tail))
      ≡ r ++ ((c.name, decode_value c.dtype v) ∷ tail)
strip_first c v r tail h = elim (Bool-cases (is_bytes c.dtype)) [
  | inl e ↦ rw e (
      rw (get_or_none_of_some (r ++ ((c.name, v) ∷ tail)) c.name (get-append_new r c.name v tail h))
        (put-append_new r c.name (decode_value c.dtype v) v tail h))
  | inr e ↦ rw e (rw (decode_value-plain c.dtype v e))
]

strip-pairs :
    (cs : Columns) (vs : List Value) (r : Row)
    → HasDistinctNames cs
    → AreNew cs r
    → Fill cs vs
    → strip_columns cs (r ++ pairs cs vs) ≡ decode_values cs vs r
unfolding strip_columns decode_values
strip-pairs [] vs r d h f = append-nil r
strip-pairs (c ∷ cs) [] r d h f = elim f [ ]
strip-pairs (c ∷ cs) (v ∷ vs) r d h f =
    let dv = decode_value c.dtype v in
    ap (strip_columns cs) (strip_first c v r (pairs cs vs) h.0)
    ∙ ap (strip_columns cs) (sym (append_assoc r ((c.name, dv) ∷ []) (pairs cs vs)))
    ∙ strip-pairs cs vs (r ++ ((c.name, dv) ∷ [])) d.1 (AreNew-append cs r c.name dv h.1 d.0) f
    ∙ ap (decode_values cs vs) (sym (put-new r c.name dv h.0))

AreNew-nil : (cs : Columns) → AreNew cs []
AreNew-nil [] = tt
AreNew-nil (c ∷ cs) = (tt, AreNew-nil cs)

unpack-Fill : (cs : Columns) (buf : List ℕ) → Fill cs (unpack (codes_of cs) buf)
unfolding unpack
unpack-Fill [] buf = tt
unpack-Fill (c ∷ cs) buf = unpack-Fill cs (drop (code_size (struct_code c.dtype)) buf)

-- A row of the batch is the row that `decode_row` gives.
batch_row :
    (cs : Columns) (buf : List ℕ)
    → HasDistinctNames cs
    → strip_columns cs (zip_row cs (unpack (codes_of cs) buf) [])
      ≡ decode_values cs (unpack (codes_of cs) buf) []
batch_row cs buf d =
    ap (strip_columns cs) (zip_row-pairs cs (unpack (codes_of cs) buf) [] d (AreNew-nil cs))
    ∙ strip-pairs cs (unpack (codes_of cs) buf) [] d (AreNew-nil cs) (unpack-Fill cs buf)

-- The first row of a buffer of `suc n` rows, and the rest.
iter_round :
    (sc : Schema) (n m at : ℕ) (mm : List ℕ)
    → IsSchema sc
    → HasDistinctNames sc.columns
    → iter_unpack_rows sc (suc n) (slice at (sc.row_width + m) mm)
      ≡ decode_row sc (slice at sc.row_width mm)
        ∷ iter_unpack_rows sc n (slice (at + sc.row_width) m mm)
unfolding iter_unpack_rows decode_row
iter_round sc n m at mm h d =
    simp (h.size, h.fmt, slice_first, slice_rest, batch_row sc.columns (slice at sc.row_width mm) d)

zero_offset : (o w : ℕ) → o + 0 * w ≡ o
zero_offset o w = omega arith

live_only-cons :
    (live : List ℕ) (i : ℕ) (row : Row) (rows : List Row)
    → live_only live i (row ∷ rows) ≡ (
        if get_or live i 0 == 0
        then live_only live (suc i) rows
        else (i, row) ∷ live_only live (suc i) rows)
unfolding live_only
live_only-cons live i row rows = refl

module _ (s : Slab) (mm : List ℕ) (h : IsSchema s.schema) (d : HasDistinctNames s.schema.columns)
    (plain : s.crypt ≡ none) where
  row_at-plain :
      (i : ℕ)
      → row_at s mm i
        ≡ decode_row s.schema (slice (s.offset + i * s.schema.row_width) s.schema.row_width mm)
  unfolding row_at row_offset apply_crypt
  row_at-plain i = rw (plain, apply_crypt)

  buffer_split :
      (n i : ℕ)
      → slice (s.offset + i * s.schema.row_width) (suc n * s.schema.row_width) mm
        ≡ slice (s.offset + i * s.schema.row_width) (s.schema.row_width + n * s.schema.row_width) mm
  buffer_split n i = ap (λ k. slice (s.offset + i * s.schema.row_width) k mm) (grind arith)

  next_at :
      (i : ℕ)
      → s.offset + i * s.schema.row_width + s.schema.row_width
        ≡ s.offset + suc i * s.schema.row_width
  next_at i = grind arith

  -- The batch from slot `i` on, against the loop.
  batch_from :
      (n i : ℕ)
      → live_only s.live i (
          iter_unpack_rows s.schema n
            (slice (s.offset + i * s.schema.row_width) (n * s.schema.row_width) mm))
        ≡ rows_from s mm i n
  unfolding rows_from
  batch_from zero i = unfold iter_unpack_rows live_only in refl
  batch_from (suc n) i = rw (buffer_split n i) (
      rw (iter_round s.schema n (n * s.schema.row_width) (s.offset + i * s.schema.row_width) mm h d)
        (rw live_only-cons (rw (next_at i) (rw (batch_from n (suc i)) (rw (← row_at-plain i))))))

  -- `iter_rows` of a plain slab: decoding the page in one batch yields the rows, and their slots, that
  -- decoding it a row at a time yields.
  pub iter_rows-rows_from : iter_rows s mm ≡ rows_from s mm 0 s.count
  unfolding iter_rows
  iter_rows-rows_from =
      let from_start =
        subst
          (λ at.
            live_only s.live 0
              (iter_unpack_rows s.schema s.count (slice at (s.count * s.schema.row_width) mm))
            ≡ rows_from s mm 0 s.count)
          (zero_offset s.offset s.schema.row_width) (batch_from s.count 0) in
      ground (arith, from_start)
