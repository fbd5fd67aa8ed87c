-- ===== src/Slab/Rows.antt =====
-- `Slab.insert`, `Slab.update`, `Slab.delete` against `Slab.get`.
use snapdb.Prelude.{
  ℕ, zero, suc, ◌+◌, ◌<◌, ◌≡◌, ◌≢◌, refl, sym, ◌∙◌, true, Option, none, some, List, [], ◌∷◌, arith,
  ltb, length, get_or, set, length-set, Bool-cases, inl, inr,
}
use snapdb.Prelude.Eq.{nat_eq}
use snapdb.Result.{ok, err, Error}
use snapdb.Bytes.{write}
use snapdb.Schema.{Row}
use snapdb.Schema.Codec.{encode_row}
use snapdb.Schema.Codec.Roundtrip.{stored_from, decode_row-encode_row}
use snapdb.Slab.{
  Slab, is_full, row_offset, apply_crypt, is_live, row_at, get, maintain_zone, insert, update,
  delete,
}
use snapdb.Slab.Frame.{
  IsSlab, length-apply_crypt, get_or-set_self, get_or-set_ne, row_at-write_self, row_at-write_ne,
}

-- What the methods make of slot `i`: the slot reads as `now`, the others as before.
abbrev pub Changes : Slab → List ℕ → Slab → List ℕ → ℕ → Option Row → Type 0
Changes s mm s' mm' i now = (get s' mm' i ≡ now) × ((j : ℕ) → j ≢ i → get s' mm' j ≡ get s mm j)

-- The slab and the file after a successful `insert` or `update`.
unfoldable pub after_insert : Slab → Row → Slab
after_insert s row =
    maintain_zone (record s { count = s.count + 1; live = set s.live s.count 1 }) row

unfoldable pub after_write : Slab → List ℕ → ℕ → List ℕ → List ℕ
after_write s mm i raw = write mm (row_offset s i) (apply_crypt s.crypt raw (row_offset s i))

row_at-after_insert :
    (s : Slab) (row : Row) (mm : List ℕ) (j : ℕ) → row_at (after_insert s row) mm j ≡ row_at s mm j
unfolding after_insert maintain_zone row_at row_offset
row_at-after_insert s row mm j = refl

row_at-maintain_zone :
    (s : Slab) (row : Row) (mm : List ℕ) (j : ℕ) → row_at (maintain_zone s row) mm j ≡ row_at s mm j
unfolding maintain_zone row_at row_offset
row_at-maintain_zone s row mm j = refl

row_at-delete : (s : Slab) (i : ℕ) (mm : List ℕ) (j : ℕ) → row_at (delete s i) mm j ≡ row_at s mm j
unfolding delete row_at row_offset
row_at-delete s i mm j = ground arith

live-lt : (s : Slab) (i : ℕ) → is_live s i ≡ true → i < s.capacity
unfolding is_live
live-lt s i h = ground arith

fresh_after_clear : (live : List ℕ) (i j : ℕ) → get_or live j 0 ≡ 0 → get_or (set live i 0) j 0 ≡ 0
fresh_after_clear [] i j h = h
fresh_after_clear (x ∷ live) zero zero h = refl
fresh_after_clear (x ∷ live) zero (suc j) h = h
fresh_after_clear (x ∷ live) (suc i) zero h = h
fresh_after_clear (x ∷ live) (suc i) (suc j) h = fresh_after_clear live i j h

module _ (s : Slab) (mm : List ℕ) (h : IsSlab s (length mm)) (row : Row) where
  length-stored :
      {raw : List ℕ} (i : ℕ)
      → encode_row s.schema row ≡ ok raw
      → length (apply_crypt s.crypt raw (row_offset s i)) ≡ s.schema.row_width
  length-stored {raw} i e =
      length-apply_crypt s.crypt raw (row_offset s i) h.cipher
      ∙ (decode_row-encode_row s.schema row h.schema e).0

  insert_self :
      {raw : List ℕ}
      → s.count < s.capacity
      → encode_row s.schema row ≡ ok raw
      → get (after_insert s row) (after_write s mm s.count raw) s.count
        ≡ some (stored_from s.schema.columns row [])
  unfolding get is_live after_write after_insert maintain_zone
  insert_self {raw} lt e = ground (
    arith,
    row_at-after_insert s row (after_write s mm s.count raw) s.count,
    row_at-write_self s mm h s.count row lt e,
    get_or-set_self s.live s.count 1 0,
    h.bitmap,
  )

  insert_ne :
      {raw : List ℕ} (j : ℕ)
      → encode_row s.schema row ≡ ok raw
      → j ≢ s.count
      → get (after_insert s row) (after_write s mm s.count raw) j ≡ get s mm j
  unfolding get is_live after_write after_insert maintain_zone
  insert_ne {raw} j e ne = ground (
    arith,
    row_at-after_insert s row (after_write s mm s.count raw) j,
    row_at-write_ne s mm h s.count j (apply_crypt s.crypt raw (row_offset s s.count))
        (λ q. ne (sym q)) (length-stored s.count e),
    get_or-set_ne s.live s.count j 1 0 (λ q. ne (sym q)),
  )

  -- Inserting a row that encodes into a well-formed slab with room returns the high-water mark as
  -- its slot; that slot then reads as the stored form of the row, and every other slot reads as
  -- before.
  pub insert_lem :
      {raw : List ℕ}
      → s.count < s.capacity
      → encode_row s.schema row ≡ ok raw
      → (insert s mm row ≡ (ok s.count, after_insert s row, after_write s mm s.count raw))
        × Changes s mm
            (after_insert s row)
            (after_write s mm s.count raw)
            s.count
            (some (stored_from s.schema.columns row []))
  insert_lem {raw} lt e = (
    unfold insert after_insert after_write is_full in ground arith,
    (insert_self lt e, λ j ne. insert_ne j e ne),
  )

  pub after_insert-IsSlab : s.count < s.capacity → IsSlab (after_insert s row) (length mm)
  unfolding after_insert maintain_zone
  after_insert-IsSlab lt = record {
    schema = h.schema;
    counted = omega arith;
    bitmap = length-set s.live s.count 1 ∙ h.bitmap;
    fits = h.fits;
    cipher = h.cipher;
    fresh = λ i le. get_or-set_ne s.live s.count i 1 0 (λ q. omega arith) ∙ h.fresh i (omega arith);
  }

  update_self :
      {raw : List ℕ} (i : ℕ)
      → is_live s i ≡ true
      → encode_row s.schema row ≡ ok raw
      → get (maintain_zone s row) (after_write s mm i raw) i
        ≡ some (stored_from s.schema.columns row [])
  unfolding get is_live after_write maintain_zone
  update_self {raw} i live e = ground (
    arith,
    row_at-maintain_zone s row (after_write s mm i raw) i,
    row_at-write_self s mm h i row (live-lt s i live) e,
  )

  update_ne :
      {raw : List ℕ} (i j : ℕ)
      → encode_row s.schema row ≡ ok raw
      → j ≢ i
      → get (maintain_zone s row) (after_write s mm i raw) j ≡ get s mm j
  unfolding get is_live after_write maintain_zone
  update_ne {raw} i j e ne = ground (
    arith,
    row_at-maintain_zone s row (after_write s mm i raw) j,
    row_at-write_ne s mm h i j (apply_crypt s.crypt raw (row_offset s i)) (λ q. ne (sym q))
        (length-stored i e),
  )

  -- Updating a live slot of a well-formed slab with a row that encodes succeeds; the slot then
  -- reads as the stored form of the row, and every other slot reads as before.
  pub update_lem :
      {raw : List ℕ} (i : ℕ)
      → is_live s i ≡ true
      → encode_row s.schema row ≡ ok raw
      → (update s mm i row ≡ (ok tt, maintain_zone s row, after_write s mm i raw))
        × Changes s mm
            (maintain_zone s row)
            (after_write s mm i raw)
            i
            (some (stored_from s.schema.columns row []))
  update_lem {raw} i live e = (
    unfold update after_write in ground arith,
    (update_self i live e, λ j ne. update_ne i j e ne),
  )

  pub maintain_zone-IsSlab : IsSlab (maintain_zone s row) (length mm)
  unfolding maintain_zone
  maintain_zone-IsSlab = record {
    schema = h.schema;
    counted = h.counted;
    bitmap = h.bitmap;
    fits = h.fits;
    cipher = h.cipher;
    fresh = h.fresh;
  }

  -- Deleting a slot of a well-formed slab empties the slot and changes no other.
  pub delete_lem : (i : ℕ) → Changes s mm (delete s i) mm i none
  unfolding get is_live delete row_at row_offset
  delete_lem i = (
    ground (arith, get_or-set_self s.live i 0 0, h.bitmap),
    λ j ne. ground (arith, get_or-set_ne s.live i j 0 0 (λ q. ne (sym q))),
  )

  pub delete-IsSlab : (i : ℕ) → IsSlab (delete s i) (length mm)
  unfolding delete
  delete-IsSlab i = elim (Bool-cases (ltb i s.capacity)) [
    | inl inside ↦ rw inside (record {
      schema = h.schema;
      counted = h.counted;
      bitmap = length-set s.live i 0 ∙ h.bitmap;
      fits = h.fits;
      cipher = h.cipher;
      fresh = λ j le. fresh_after_clear s.live i j (h.fresh j le);
    })
    | inr outside ↦ rw outside h
  ]

  -- An insert into a well-formed slab with room whose row does not encode raises that error, and
  -- leaves the slot taken and live: it now reads as whatever row its bytes decode to.
  pub insert_error :
      {x : Error}
      → s.count < s.capacity
      → encode_row s.schema row ≡ err x
      → ((insert s mm row).0 ≡ err x)
        × ((insert s mm row).1.count ≡ s.count + 1)
        × (get (insert s mm row).1 (insert s mm row).2 s.count ≡ some (row_at s mm s.count))
  unfolding insert is_full get is_live row_at row_offset
  insert_error lt e =
      (ground arith, ground arith, ground (arith, get_or-set_self s.live s.count 1 0, h.bitmap))
