-- ===== src/Slab/Frame.antt =====
-- Well-formed slabs, and what the writing methods leave alone: other slots, and other slabs of the
-- mapped file.
use snapdb.Prelude.{
  ℕ, zero, suc, ◌+◌, ◌*◌, ◌≤◌, ◌<◌, ◌≡◌, ◌≢◌, refl, ap, ◌∙◌, ◌⊎◌, inl, inr, Option, none, some,
  List, [], ◌∷◌, arith, length, get_or, set, dec_lt,
}
use snapdb.Prelude.Eq.{nat_eq}
use snapdb.Result.{ok}
use snapdb.Bytes.{write}
use snapdb.Bytes.Laws.{slice_written, slice-write_disjoint}
use snapdb.Schema.{Schema, Row}
use snapdb.Schema.Shape.{IsSchema}
use snapdb.Schema.Codec.{encode_row}
use snapdb.Schema.Codec.Roundtrip.{stored_from, decode_row-encode_row}
use snapdb.Slab.{Slab, Crypt, init, zeros, row_offset, apply_crypt, row_at}

-- The cipher keeps the length, and undoes itself at the same offset.
abbrev pub IsCipher : Option Crypt → Type 0
IsCipher none = Unit
IsCipher (some crypt) =
    (raw : List ℕ) (at : ℕ) → (length (crypt raw at) ≡ length raw) × (crypt (crypt raw at) at ≡ raw)

-- The slab's slots lie inside the file, the bitmap has a byte for each slot, and no slot from the
-- high-water mark on is live.
pub record IsSlab (s : Slab) (size : ℕ) : Type 0 where
  pub schema : IsSchema s.schema
  pub counted : s.count ≤ s.capacity
  pub bitmap : length s.live ≡ s.capacity
  pub fits : s.offset + s.capacity * s.schema.row_width ≤ size
  pub cipher : IsCipher s.crypt
  pub fresh : (i : ℕ) → s.count ≤ i → get_or s.live i 0 ≡ 0

pub length-apply_crypt :
    (c : Option Crypt) (raw : List ℕ) (at : ℕ)
    → IsCipher c
    → length (apply_crypt c raw at) ≡ length raw
unfolding apply_crypt
length-apply_crypt none raw at h = refl
length-apply_crypt (some c) raw at h = (h raw at).0

apply_crypt_twice :
    (c : Option Crypt) (raw : List ℕ) (at : ℕ)
    → IsCipher c
    → apply_crypt c (apply_crypt c raw at) at ≡ raw
unfolding apply_crypt
apply_crypt_twice none raw at h = refl
apply_crypt_twice (some c) raw at h = (h raw at).1

pub get_or-set_self : (xs : List ℕ) (i v d : ℕ) → i < length xs → get_or (set xs i v) i d ≡ v
get_or-set_self [] i v d h = elim h [ ]
get_or-set_self (x ∷ xs) zero v d h = refl
get_or-set_self (x ∷ xs) (suc i) v d h = get_or-set_self xs i v d (omega arith)

pub get_or-set_ne : (xs : List ℕ) (i j v d : ℕ) → i ≢ j → get_or (set xs i v) j d ≡ get_or xs j d
get_or-set_ne [] i j v d h = refl
get_or-set_ne (x ∷ xs) zero zero v d h = absurd (h refl)
get_or-set_ne (x ∷ xs) zero (suc j) v d h = refl
get_or-set_ne (x ∷ xs) (suc i) zero v d h = refl
get_or-set_ne (x ∷ xs) (suc i) (suc j) v d h = get_or-set_ne xs i j v d (λ e. h (ap suc e))

get_or-zeros : (n i : ℕ) → get_or (zeros n) i 0 ≡ 0
unfolding zeros
get_or-zeros zero i = refl
get_or-zeros (suc n) zero = refl
get_or-zeros (suc n) (suc i) = get_or-zeros n i

length-zeros : (n : ℕ) → length (zeros n) ≡ n
unfolding zeros
length-zeros zero = refl
length-zeros (suc n) = ap suc (length-zeros n)

-- Rows `i` and `j` of width `w` do not overlap, and row `i` of `n` ends inside them.
rows_disjoint : (o w i j : ℕ) → i ≢ j → (o + i * w + w ≤ o + j * w) ⊎ (o + j * w + w ≤ o + i * w)
rows_disjoint o w i j h = elim (dec_lt i j) [
  | yes p ↦ inl (grind arith)
  | no p ↦ let q : j < i = omega arith in inr (grind arith)
]

row_inside : (o w i n : ℕ) → i < n → o + i * w + w ≤ o + n * w
row_inside o w i n h = grind arith

-- A new slab over a part of the file is well-formed.
pub init-IsSlab :
    (schema : Schema) (offset capacity : ℕ) (crypt : Option Crypt) (size : ℕ)
    → IsSchema schema
    → IsCipher crypt
    → offset + capacity * schema.row_width ≤ size
    → IsSlab (init schema offset capacity crypt) size
unfolding init
init-IsSlab schema offset capacity crypt size h c f = record {
  schema = h;
  counted = omega arith;
  bitmap = length-zeros capacity;
  fits = f;
  cipher = c;
  fresh = λ i _. get_or-zeros capacity i;
}

module _ (s : Slab) (mm : List ℕ) (h : IsSlab s (length mm)) where
  -- The slot that a row is written to decodes to the row's stored form.
  pub row_at-write_self :
      (i : ℕ) (row : Row) {raw : List ℕ}
      → i < s.capacity
      → encode_row s.schema row ≡ ok raw
      → row_at s (write mm (row_offset s i) (apply_crypt s.crypt raw (row_offset s i))) i
        ≡ stored_from s.schema.columns row []
  unfolding row_at row_offset
  row_at-write_self i row {raw = raw} lt e =
      let at = s.offset + i * s.schema.row_width in
      let (size, decoded) = decode_row-encode_row s.schema row h.schema e in
      let kept : length (apply_crypt s.crypt raw at) ≡ s.schema.row_width =
        length-apply_crypt s.crypt raw at h.cipher ∙ size in
      let found =
        slice_written mm at (apply_crypt s.crypt raw at) s.schema.row_width kept
          (omega (arith, row_inside s.offset s.schema.row_width i s.capacity lt, h.fits)) in
      rw found (rw (apply_crypt_twice s.crypt raw at h.cipher) decoded)

  -- The other slots keep their bytes.
  pub row_at-write_ne :
      (i j : ℕ) (raw : List ℕ)
      → i ≢ j
      → length raw ≡ s.schema.row_width
      → row_at s (write mm (row_offset s i) raw) j ≡ row_at s mm j
  unfolding row_at row_offset
  row_at-write_ne i j raw ne e = rw (
      slice-write_disjoint mm (s.offset + i * s.schema.row_width) raw
        (s.offset + j * s.schema.row_width) s.schema.row_width
        (elim (rows_disjoint s.offset s.schema.row_width i j ne) [
          | inl before ↦ inr (omega arith)
          | inr after ↦ inl after
        ]))

-- A write outside a slab's page leaves its rows alone.
pub row_at-write_outside :
    (t : Slab) (mm : List ℕ) (at : ℕ) (raw : List ℕ) (j : ℕ)
    → (t.offset + t.capacity * t.schema.row_width ≤ at) ⊎ (at + length raw ≤ t.offset)
    → j < t.capacity
    → row_at t (write mm at raw) j ≡ row_at t mm j
unfolding row_at row_offset
row_at-write_outside t mm at raw j out lt = rw (
    slice-write_disjoint mm at raw (t.offset + j * t.schema.row_width) t.schema.row_width
      (elim out [
        | inl below ↦ inl (omega (arith, row_inside t.offset t.schema.row_width j t.capacity lt))
        | inr above ↦ inr (omega arith)
      ]))
