-- ===== src/Columnar/Column/Sets.antt =====
-- Writing a value of any type at a row of a column.
use snapdb.Prelude.{
  ℕ, ◌<◌, ◌≡◌, refl, sym, ap, subst, ◌∙◌, Bool, true, Option, none, some, List, map, set, length,
  ltb, arith, length-map,
}
use snapdb.Prelude.Int.{ℤ}
use snapdb.Result.{ok}
use snapdb.Value.{Value, null, int, text, bytes}
use snapdb.Columnar.Ints
use snapdb.Columnar.Ints.{Ints, fits}
use snapdb.Columnar.Ints.Refine.{Fits}
use snapdb.Columnar.Ints.Refine.Run.{set_item-Follows}
use snapdb.Columnar.Ints.Access
use snapdb.Columnar.Bools
use snapdb.Columnar.Bools.{Bools}
use snapdb.Columnar.Bools.Refine as BitRows
use snapdb.Columnar.Texts
use snapdb.Columnar.Texts.{Blob, Texts, decoded}
use snapdb.Columnar.Texts.Writes as TextWrites
use snapdb.Columnar.Texts.Sets.{set_item-View}
use snapdb.Columnar.Column.{
  Column, ints, bools, texts, truthy, to_bytes, int_value, bool_value, text_value, set_item,
}
use snapdb.Columnar.Column.Laws.{
  kind, Accepts, as_text, shown, text_values, Stores, Follows, map-set, int_kind,
}

ints_set :
    (c : Ints) (vs : List Value) (idx : ℕ) (o : Option ℤ)
    → Stores (ints c) vs
    → Fits c.code o
    → idx < length vs
    → Follows
        (ints c)
        ((Ints.Access.set_item idx o c).0, ints (Ints.Access.set_item idx o c).1)
        (set vs idx (int_value o))
unfolding kind
ints_set c vs idx o (os, h, e) f l =
    let in_ : ltb idx (length os) ≡ true =
      ground (arith, l, ap length e, length-map os int_value) in
    let (fine, st, code) = set_item-Follows c os idx o h f in_ in
    (
      fine,
      (set os idx o, st, map-set int_value os idx o ∙ ap (λ r. set r idx (int_value o)) e),
      ap int_kind code,
    )

bools_set :
    (c : Bools) (vs : List Value) (idx : ℕ) (o : Option Bool)
    → Stores (bools c) vs
    → idx < length vs
    → Follows
        (bools c)
        ((Bools.set_item idx o c).0, bools (Bools.set_item idx o c).1)
        (set vs idx (bool_value o))
unfolding kind
bools_set c vs idx o (os, h, e) l =
    let in_ : idx < length os = ground (arith, l, ap length e, length-map os bool_value) in
    let (fine, st) = BitRows.set_item-Stores c os idx o h in_ in
    (
      fine,
      (set os idx o, st, map-set bool_value os idx o ∙ ap (λ r. set r idx (bool_value o)) e),
      refl,
    )

pub length-text_values : (os : List (Option Blob)) → length (text_values os) ≡ length os
length-text_values os = length-map (map decoded os) text_value ∙ length-map os decoded

text_values-set :
    (os : List (Option Blob)) (idx : ℕ) (o : Option Blob)
    → text_values (set os idx o) ≡ set (text_values os) idx (text_value (decoded o))
text_values-set os idx o =
    ap (map text_value) (map-set decoded os idx o)
    ∙ map-set text_value (map decoded os) idx (decoded o)

texts_set :
    (c : Texts) (vs : List Value) (idx : ℕ) (o : Option Blob)
    → Stores (texts c) vs
    → idx < length vs
    → Follows
        (texts c)
        ((Texts.set_item idx o c).0, texts (Texts.set_item idx o c).1)
        (set vs idx (text_value (decoded o)))
unfolding kind
texts_set c vs idx o (os, h, e) l =
    let in_ : ltb idx (length c.nullmask) ≡ true =
      ground (arith, l, ap length e, length-text_values os, TextWrites.rows_of c os h) in
    let (fine, st) = set_item-View c os idx o h in_ in
    (
      fine,
      (set os idx o, st, text_values-set os idx o ∙ ap (λ r. set r idx (text_value (decoded o))) e),
      refl,
    )

texts_set_value :
    (c : Texts) (vs : List Value) (idx : ℕ) (v : Value) (b : Blob)
    → Stores (texts c) vs
    → idx < length vs
    → to_bytes v ≡ ok b
    → set_item idx v (texts c)
      ≡ ((Texts.set_item idx (some b) c).0, texts (Texts.set_item idx (some b) c).1)
    → Follows (texts c) (set_item idx v (texts c)) (set vs idx (as_text (to_bytes v)))
unfolding decoded
texts_set_value c vs idx v b h l e into =
    subst (λ out. Follows (texts c) out (set vs idx (as_text (to_bytes v)))) (sym into)
      (subst
        (λ r.
          Follows (texts c)
            ((Texts.set_item idx (some b) c).0, texts (Texts.set_item idx (some b) c).1)
            (set vs idx (as_text r)))
        (sym e) (texts_set c vs idx (some b) h l))

-- A value that the column accepts is written at a row that is there.
pub set_item-Stores :
    (c : Column) (vs : List Value) (idx : ℕ) (v : Value)
    → Stores c vs
    → Accepts (kind c) v
    → idx < length vs
    → Follows c (set_item idx v c) (set vs idx (shown (kind c) v))
unfolding kind set_item shown decoded
set_item-Stores (ints c) vs idx null h a l = ints_set c vs idx none h tt l
set_item-Stores (ints c) vs idx (int z) h a l = ints_set c vs idx (some z) h a l
set_item-Stores (ints c) vs idx (text s) h a l = elim a [ ]
set_item-Stores (ints c) vs idx (bytes s) h a l = elim a [ ]
set_item-Stores (bools c) vs idx null h a l = bools_set c vs idx none h l
set_item-Stores (bools c) vs idx (int z) h a l = bools_set c vs idx (some (truthy (int z))) h l
set_item-Stores (bools c) vs idx (text s) h a l = bools_set c vs idx (some (truthy (text s))) h l
set_item-Stores (bools c) vs idx (bytes s) h a l = bools_set c vs idx (some (truthy (bytes s))) h l
set_item-Stores (texts c) vs idx null h a l = texts_set c vs idx none h l
set_item-Stores (texts c) vs idx (int z) h (b, e) l =
    texts_set_value c vs idx (int z) b h l e (unfold set_item in ground (arith, e))
set_item-Stores (texts c) vs idx (text s) h (b, e) l =
    texts_set_value c vs idx (text s) b h l e (unfold set_item in ground (arith, e))
set_item-Stores (texts c) vs idx (bytes s) h (b, e) l =
    texts_set_value c vs idx (bytes s) b h l e (unfold set_item in ground (arith, e))
