-- ===== src/Columnar/Column/Rows.antt =====
-- Reading a column, and what appending, writing and clearing change of what is read: the laws that the
-- table uses.
use snapdb.Prelude.{
  ℕ, suc, ◌<◌, ◌≡◌, refl, sym, ap, ◌∙◌, Bool, true, false, Option, none, some, List, [], ◌∷◌, map,
  length, arith,
}
use snapdb.Prelude.Int.{ℤ}
use snapdb.Result.{ok}
use snapdb.Value.{Value, null, int, text, bytes}
use snapdb.Columnar.Nulls.{at_index, with_nulls}
use snapdb.Columnar.Ints
use snapdb.Columnar.Ints.{Ints, fits}
use snapdb.Columnar.Ints.Refine.Reads as IntReads
use snapdb.Columnar.Ints.Access
use snapdb.Columnar.Bools
use snapdb.Columnar.Bools.{Bools, bits_shown}
use snapdb.Columnar.Bools.Refine as BitRows
use snapdb.Columnar.Texts
use snapdb.Columnar.Texts.{Blob, Texts, decoded}
use snapdb.Columnar.Texts.View.{View, raw, coded, chosen, length-chosen}
use snapdb.Columnar.Texts.Reads as TextReads
use snapdb.Columnar.Column.{
  Column, ints, bools, texts, int_value, bool_value, text_value, read_as, get_item, set_item,
  to_list, nullmask, clear,
}
use snapdb.Columnar.Column.Laws.{Stores, text_values, at_index-map}

-- Reading gives the list at each index, an IndexError included.
pub get_item_lem :
    (c : Column) (vs : List Value) (idx : ℕ) → Stores c vs → get_item c idx ≡ at_index vs idx
unfolding get_item
get_item_lem (ints c) vs idx (os, h, e) =
    ap (read_as int_value) (IntReads.get_item_lem c os idx h)
    ∙ sym (at_index-map int_value os idx)
    ∙ ap (λ l. at_index l idx) e
get_item_lem (bools c) vs idx (os, h, e) =
    ap (read_as bool_value) (BitRows.get_item_lem c os idx h)
    ∙ sym (at_index-map bool_value os idx)
    ∙ ap (λ l. at_index l idx) e
get_item_lem (texts c) vs idx (os, h, e) =
    ap (read_as text_value) (TextReads.get_item_lem c os idx h)
    ∙ sym (at_index-map text_value (map decoded os) idx)
    ∙ ap (λ l. at_index l idx) e

-- `tolist` gives the list.
pub to_list_lem : (c : Column) (vs : List Value) → Stores c vs → to_list c ≡ ok vs
unfolding to_list
to_list_lem (ints c) vs (os, h, e) =
    ap (read_as (map int_value)) (IntReads.to_list_lem c os h) ∙ ap (λ l. ok l) e
to_list_lem (bools c) vs (os, h, e) = ap (λ l. ok (map bool_value l)) h.shown ∙ ap (λ l. ok l) e
to_list_lem (texts c) vs (os, h, e) =
    ap (read_as (map text_value)) (TextReads.to_list_lem c os h) ∙ ap (λ l. ok l) e

unfoldable pub is_null : Value → Bool
is_null null = true
is_null (int z) = false
is_null (text s) = false
is_null (bytes b) = false

no_value : {A : Type 0} → Option A → Bool
no_value none = true
no_value (some x) = false

-- The null mask says which rows are null.
masks :
    {A : Type 0}
    → (ns : List Bool) (xs : List A) → length ns ≡ length xs
    → map no_value (with_nulls ns xs) ≡ ns
unfolding with_nulls no_value
masks [] xs l = refl
masks (n ∷ ns) [] l = ground (arith, l)
masks (true ∷ ns) (x ∷ xs) l = ap (λ r. true ∷ r) (masks ns xs (omega arith))
masks (false ∷ ns) (x ∷ xs) l = ap (λ r. false ∷ r) (masks ns xs (omega arith))

bit_masks : (ns : List Bool) (d : List ℕ) (i : ℕ) → map no_value (bits_shown ns d i) ≡ ns
unfolding bits_shown no_value
bit_masks [] d i = refl
bit_masks (true ∷ ns) d i = ap (λ r. true ∷ r) (bit_masks ns d (suc i))
bit_masks (false ∷ ns) d i = ap (λ r. false ∷ r) (bit_masks ns d (suc i))

int_nulls : (os : List (Option ℤ)) → map is_null (map int_value os) ≡ map no_value os
unfolding is_null no_value
int_nulls [] = refl
int_nulls (none ∷ os) = ap (λ r. true ∷ r) (int_nulls os)
int_nulls (some z ∷ os) = ap (λ r. false ∷ r) (int_nulls os)

bool_nulls : (os : List (Option Bool)) → map is_null (map bool_value os) ≡ map no_value os
unfolding is_null no_value
bool_nulls [] = refl
bool_nulls (none ∷ os) = ap (λ r. true ∷ r) (bool_nulls os)
bool_nulls (some true ∷ os) = ap (λ r. false ∷ r) (bool_nulls os)
bool_nulls (some false ∷ os) = ap (λ r. false ∷ r) (bool_nulls os)

text_nulls : (os : List (Option Blob)) → map is_null (text_values os) ≡ map no_value os
unfolding is_null no_value decoded
text_nulls [] = refl
text_nulls (none ∷ os) = ap (λ r. true ∷ r) (text_nulls os)
text_nulls (some b ∷ os) = ap (λ r. false ∷ r) (text_nulls os)

nullmask-View : (c : Texts) (os : List (Option Blob)) → View c os → map no_value os ≡ c.nullmask
nullmask-View c os (raw m l e) = ap (map no_value) (sym e) ∙ masks c.nullmask c.data_ l
nullmask-View c os (coded m f s r l e) =
    ap (map no_value) (sym e)
    ∙ masks c.nullmask (chosen c.dict_values c.dict_codes)
        (l ∙ sym (length-chosen c.dict_values c.dict_codes))

pub nullmask_lem : (c : Column) (vs : List Value) → Stores c vs → nullmask c ≡ map is_null vs
unfolding nullmask
nullmask_lem (ints c) vs (os, h, e) = sym (
    ap (map is_null) (sym e)
    ∙ int_nulls os
    ∙ ap (map no_value) (sym h.shown)
    ∙ masks c.nullmask h.numbers h.aligned)
nullmask_lem (bools c) vs (os, h, e) = sym (
    ap (map is_null) (sym e)
    ∙ bool_nulls os
    ∙ ap (map no_value) (sym h.shown)
    ∙ (unfold Bools.to_list in bit_masks c.nullmask c.data_ 0))
nullmask_lem (texts c) vs (os, h, e) =
    sym (ap (map is_null) (sym e) ∙ text_nulls os ∙ nullmask-View c os h)

-- What `delete` does to a column at a row that is there is what writing None does.
pub clear_lem :
    (c : Column) (idx : ℕ) → idx < length (nullmask c) → clear idx c ≡ (set_item idx null c).1
unfolding clear set_item nullmask
clear_lem (ints c) idx l = unfold Ints.Access.set_item in ground (arith, l)
clear_lem (bools c) idx l = unfold Bools.set_item in ground (arith, l)
clear_lem (texts c) idx l = unfold Texts.set_item in ground (arith, l)
