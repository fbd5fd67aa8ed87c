-- ===== src/Columnar/Column.antt =====
-- `Column` of snapdb/columnar.py on the values of a row: the type decides the storage. Float columns have
-- no counterpart.
pub mod Laws
pub mod Sets
pub mod Rows
pub mod Steps
use snapdb.Prelude.{
  ℕ, zero, suc, ◌<◌, ◌≡◌, Bool, true, false, ◌&&◌, ◌||◌, not, Option, none, some, List, [], ◌∷◌,
  ◌++◌, map, set, length, replicate, ltb, if◌then◌else◌,
}
use snapdb.Prelude.Int.{ℤ, pos, negsuc}
use snapdb.Prelude.Eq.{◌==◌, nat_eq}
use snapdb.Result.{Result, ok, err, value_error, type_error, index_error}
use snapdb.Db.Exec.{Exec, ◌>>◌, ◌>>=◌, raise}
use snapdb.Columnar.Ints.Delta.{convert_delta_to_raw}
use snapdb.Columnar.Ints.Packing.{convert_for_to_raw}
use snapdb.Value.{Value, null, int, text, bytes}
use snapdb.Utf8.{has_surrogate, encode, decode_replace}
use snapdb.Schema.{Code, Dtype, bool, i32, i64, u32, u64, struct_code, bytes as bytes_of}
use snapdb.Columnar.Ints
use snapdb.Columnar.Ints.{Ints, fits}
use snapdb.Columnar.Ints.Access
use snapdb.Columnar.Bools
use snapdb.Columnar.Bools.{Bools, bool_set}
use snapdb.Columnar.Texts
use snapdb.Columnar.Texts.{Blob, Texts, data_set, codes_set}

pub data Column : Type 0 where
  ints : Ints → Column
  bools : Bools → Column
  texts : Texts → Column

-- `_DELTA_ELIGIBLE` and `_FOR_ELIGIBLE`
unfoldable pub eligible : Dtype → Bool
eligible i32 = true
eligible i64 = true
eligible u32 = true
eligible u64 = true
eligible bool = false
eligible _ = false

-- `Column(...)`
unfoldable pub init : Dtype → Bool → ℕ → Bool → ℕ → Bool → ℕ → Column
unfolding eligible Ints.init Bools.init Texts.init struct_code
init bool dict_encode dict_threshold delta_encode delta_samples for_encode for_threshold =
    bools Bools.init
init (bytes_of n) dict_encode dict_threshold delta_encode delta_samples for_encode for_threshold =
    texts (Texts.init dict_encode dict_threshold)
init dtype dict_encode dict_threshold delta_encode delta_samples for_encode for_threshold = ints (
    Ints.init (struct_code dtype) (delta_encode && eligible dtype) delta_samples
      (for_encode && eligible dtype) for_threshold)

-- bool(value)
unfoldable pub truthy : Value → Bool
truthy null = false
truthy (int (pos n)) = not (n == 0)
truthy (int (negsuc n)) = true
truthy (text s) = not (length s == 0)
truthy (bytes b) = not (length b == 0)

-- bytes(value), where text is encoded first: a number gives that many zeros.
unfoldable pub to_bytes : Value → Result Blob
to_bytes null = err type_error
to_bytes (int (pos n)) = ok (replicate n 0)
to_bytes (int (negsuc n)) = err value_error
to_bytes (text s) = if has_surrogate s then err value_error else ok (encode s)
to_bytes (bytes b) = ok b

-- `append`. The null mask has its entry before the value is converted.
unfoldable pub append : Value → Column → Result (Unit {0}) × Column
unfolding truthy to_bytes Ints.Access.append Bools.append Texts.append
append null (ints c) = ((Ints.Access.append none c).0, ints (Ints.Access.append none c).1)
append (int z) (ints c) =
    ((Ints.Access.append (some z) c).0, ints (Ints.Access.append (some z) c).1)
append (text s) (ints c) =
    (err type_error, ints (record c { nullmask = c.nullmask ++ (false ∷ []) }))
append (bytes b) (ints c) =
    (err type_error, ints (record c { nullmask = c.nullmask ++ (false ∷ []) }))
append null (bools c) = (ok tt, bools (Bools.append none c))
append v (bools c) = (ok tt, bools (Bools.append (some (truthy v)) c))
append null (texts c) = ((Texts.append none c).0, texts (Texts.append none c).1)
append v (texts c) = elim (to_bytes v) [
  | err e ↦ (err e, texts (record c { nullmask = c.nullmask ++ (false ∷ []) }))
  | ok b ↦ ((Texts.append (some b) c).0, texts (Texts.append (some b) c).1)
]

-- A value of each kind of column, read
abbrev pub int_value : Option ℤ → Value
int_value none = null
int_value (some z) = int z

abbrev pub bool_value : Option Bool → Value
bool_value none = null
bool_value (some true) = int (pos 1)
bool_value (some false) = int (pos 0)

abbrev pub text_value : Option (List ℕ) → Value
text_value none = null
text_value (some s) = text s

abbrev pub read_as {ℓ κ} : {A : Type ℓ} {B : Type κ} → (A → B) → Result A → Result B
read_as f (ok a) = ok (f a)
read_as f (err e) = err e

-- `__getitem__`
unfoldable pub get_item : Column → ℕ → Result Value
unfolding Ints.Access.get_item Bools.get_item Texts.get_item
get_item (ints c) idx = read_as int_value (Ints.Access.get_item c idx)
get_item (bools c) idx = read_as bool_value (Bools.get_item c idx)
get_item (texts c) idx = read_as text_value (Texts.get_item c idx)

-- `__setitem__` of a text on an integer column: an encoded column becomes plain before the TypeError.
unfoldable pub set_wrong : ℕ → Exec Ints (Unit {0})
unfolding convert_delta_to_raw convert_for_to_raw
set_wrong idx c =
    let noted = record c { nullmask = set c.nullmask idx false } in
    if not (ltb idx (length c.nullmask))
    then (err index_error, c)
    else if c.delta_mode && not c.delta_fallback
    then (convert_delta_to_raw >> raise type_error) noted
    else if c.for_mode && not c.for_fallback
    then (convert_for_to_raw >> raise type_error) noted
    else (err type_error, noted)

-- `__setitem__`
unfoldable pub set_item : ℕ → Value → Column → Result (Unit {0}) × Column
unfolding set_wrong truthy to_bytes Ints.Access.set_item Bools.set_item Texts.set_item
set_item idx null (ints c) =
    ((Ints.Access.set_item idx none c).0, ints (Ints.Access.set_item idx none c).1)
set_item idx (int z) (ints c) =
    ((Ints.Access.set_item idx (some z) c).0, ints (Ints.Access.set_item idx (some z) c).1)
set_item idx (text s) (ints c) = ((set_wrong idx c).0, ints (set_wrong idx c).1)
set_item idx (bytes b) (ints c) = ((set_wrong idx c).0, ints (set_wrong idx c).1)
set_item idx null (bools c) = ((Bools.set_item idx none c).0, bools (Bools.set_item idx none c).1)
set_item idx v (bools c) =
    ((Bools.set_item idx (some (truthy v)) c).0, bools (Bools.set_item idx (some (truthy v)) c).1)
set_item idx null (texts c) = ((Texts.set_item idx none c).0, texts (Texts.set_item idx none c).1)
set_item idx v (texts c) = elim (to_bytes v) [
  | err e ↦
      if ltb idx (length c.nullmask)
      then (err e, texts (record c { nullmask = set c.nullmask idx false }))
      else (err index_error, texts c)
  | ok b ↦ ((Texts.set_item idx (some b) c).0, texts (Texts.set_item idx (some b) c).1)
]

-- `tolist`
unfoldable pub to_list : Column → Result (List Value)
unfolding Ints.Access.to_list Bools.to_list Texts.to_list
to_list (ints c) = read_as (map int_value) (Ints.Access.to_list c)
to_list (bools c) = ok (map bool_value (Bools.to_list c))
to_list (texts c) = read_as (map text_value) (Texts.to_list c)

unfoldable pub nullmask : Column → List Bool
nullmask (ints c) = c.nullmask
nullmask (bools c) = c.nullmask
nullmask (texts c) = c.nullmask

-- What `ColumnarTable.delete` does to a column at a row
unfoldable pub clear : ℕ → Column → Column
unfolding Ints.Access.set_null bool_set data_set codes_set
clear idx (ints c) =
    ints (Ints.Access.set_null idx (record c { nullmask = set c.nullmask idx true }))
clear idx (bools c) =
    bools (record { nullmask = set c.nullmask idx true; data_ = bool_set idx false c.data_ })
clear idx (texts c) =
    let noted = record c { nullmask = set c.nullmask idx true } in
    if c.dict_mode && not c.dict_fallback
    then texts (codes_set idx 0 noted)
    else texts (data_set idx [] noted)
