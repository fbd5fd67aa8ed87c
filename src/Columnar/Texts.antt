-- ===== src/Columnar/Texts.antt =====
-- The bytes columns of snapdb/columnar.py: `Column` on bytes, plain or with a dictionary of its values.
-- The codes' array takes every code below the threshold (of at most 2^32). Offsets are not negative. As in the
-- integer columns, rows that only the null mask has, after an append that raised, are not modelled.
pub mod View
pub mod Reads
pub mod Writes
pub mod Sets
use snapdb.Columnar.Nulls.{at_index}
use snapdb.Prelude.{
  ℕ, zero, suc, Bool, true, false, ◌&&◌, ◌||◌, not, Option, none, some, List, [], ◌∷◌, ◌++◌, ltb,
  leb, length, set, get_elem?, if◌then◌else◌, map,
}
use snapdb.Prelude.Dict
use snapdb.Prelude.Dict.{Dict}
use snapdb.Result.{Result, ok, err, index_error}
use snapdb.Value.{codes_eq}
use snapdb.Utf8.{decode_replace}
use snapdb.Db.Exec.{Exec, ◌>>=◌, ◌>>◌, pure}

abbrev pub Blob : Type 0
Blob = List ℕ

pub record Texts : Type 0 where
  pub dict_threshold : ℕ
  pub dict_mode : Bool
  pub dict_fallback : Bool
  pub dict : Dict Blob ℕ
  pub dict_values : List Blob
  pub dict_codes : List ℕ
  pub data_ : List Blob
  pub nullmask : List Bool

unfoldable pub init : Bool → ℕ → Texts
init dict_encode dict_threshold = record {
  dict_threshold = dict_threshold;
  dict_mode = dict_encode;
  dict_fallback = false;
  dict = [];
  dict_values = [];
  dict_codes = [];
  data_ = [];
  nullmask = [];
}

-- [self._dict_values[code] for code in codes]
unfoldable pub values_of : List Blob → List ℕ → Result (List Blob)
unfolding at_index
values_of values [] = ok []
values_of values (k ∷ ks) = elim (at_index values k) [
  | err e ↦ err e
  | ok b ↦ elim (values_of values ks) [ err e ↦ err e | ok bs ↦ ok (b ∷ bs) ]
]

-- `_convert_to_raw`
unfoldable pub convert_to_raw : Exec Texts (Unit {0})
unfolding values_of
convert_to_raw c =
    if not c.dict_mode || c.dict_fallback
    then (ok tt, c)
    else elim (values_of c.dict_values c.dict_codes) [
      | err e ↦ (err e, record c { dict_fallback = true })
      | ok raw ↦ (
        ok tt,
        record c {
          dict_fallback = true;
          data_ = raw;
          dict_mode = false;
          dict = [];
          dict_values = [];
          dict_codes = [];
        },
      )
    ]

-- `_add_to_dict`
unfoldable pub add_to_dict : Blob → Exec Texts (Option ℕ)
unfolding convert_to_raw Dict.get Dict.put
add_to_dict value c = elim (Dict.get c.dict value) [
  | some code ↦ (ok (some code), c)
  | none ↦
      let code = length c.dict_values in
      let added = record c {
        dict = Dict.put c.dict value code;
        dict_values = c.dict_values ++ (value ∷ []);
      } in
      if leb c.dict_threshold code
      then (convert_to_raw >> pure none) added
      else (ok (some code), added)
]

unfoldable pub data_append : Blob → Texts → Texts
data_append b c = record c { data_ = c.data_ ++ (b ∷ []) }

unfoldable pub codes_append : ℕ → Texts → Texts
codes_append code c = record c { dict_codes = c.dict_codes ++ (code ∷ []) }

-- `append` of a bytes column, where `bval` is what `bytes(value)` is
unfoldable pub append : Option Blob → Exec Texts (Unit {0})
unfolding add_to_dict data_append codes_append
append none c =
    let noted = record c { nullmask = c.nullmask ++ (true ∷ []) } in
    if c.dict_mode && not c.dict_fallback
    then (ok tt, codes_append 0 noted)
    else (ok tt, data_append [] noted)
append (some bval) c =
    let noted = record c { nullmask = c.nullmask ++ (false ∷ []) } in
    if c.dict_mode && not c.dict_fallback
    then (add_to_dict bval >>= λ found d.
          (ok tt, elim found [ some code ↦ codes_append code d | none ↦ data_append bval d ]))
        noted
    else (ok tt, data_append bval noted)

unfoldable pub data_set : ℕ → Blob → Texts → Texts
data_set idx b c = record c { data_ = set c.data_ idx b }

unfoldable pub codes_set : ℕ → ℕ → Texts → Texts
codes_set idx code c = record c { dict_codes = set c.dict_codes idx code }

-- `__setitem__`
unfoldable pub set_item : ℕ → Option Blob → Exec Texts (Unit {0})
unfolding add_to_dict data_set codes_set
set_item idx none c =
    let noted = record c { nullmask = set c.nullmask idx true } in
    if not (ltb idx (length c.nullmask))
    then (err index_error, c)
    else if c.dict_mode && not c.dict_fallback
    then (ok tt, codes_set idx 0 noted)
    else (ok tt, data_set idx [] noted)
set_item idx (some bval) c =
    let noted = record c { nullmask = set c.nullmask idx false } in
    if not (ltb idx (length c.nullmask))
    then (err index_error, c)
    else if c.dict_mode && not c.dict_fallback
    then (add_to_dict bval >>= λ found d.
          (ok tt, elim found [ some code ↦ codes_set idx code d | none ↦ data_set idx bval d ]))
        noted
    else (ok tt, data_set idx bval noted)

-- `__getitem__` of a value that is not null
unfoldable pub get_value : Texts → ℕ → Result Blob
unfolding at_index
get_value c idx =
    if c.dict_mode && not c.dict_fallback
    then elim (at_index c.dict_codes idx) [ err e ↦ err e | ok code ↦ at_index c.dict_values code ]
    else at_index c.data_ idx

-- `__getitem__`, up to the decoding
unfoldable pub get_bytes : Texts → ℕ → Result (Option Blob)
unfolding get_value
get_bytes c idx = elim (at_index c.nullmask idx) [
  | err e ↦ err e
  | ok null ↦
      if null then ok none else elim (get_value c idx) [ ok b ↦ ok (some b) | err e ↦ err e ]
]

-- x.decode("utf-8", errors="replace")
unfoldable pub decoded : Option Blob → Option (List ℕ)
decoded none = none
decoded (some b) = some (decode_replace b)

unfoldable pub get_item : Texts → ℕ → Result (Option (List ℕ))
unfolding get_bytes decoded
get_item c idx = elim (get_bytes c idx) [ ok o ↦ ok (decoded o) | err e ↦ err e ]

-- The values at the rows from `i` on, each read as `tolist` reads it
unfoldable pub rows_from : Texts → ℕ → List Bool → Result (List (Option (List ℕ)))
unfolding get_value decoded
rows_from c i [] = ok []
rows_from c i (n ∷ ns) =
    elim (if n then ok none else elim (get_value c i) [ ok b ↦ ok (some b) | err e ↦ err e ]) [
      | err e ↦ err e
      | ok o ↦ elim (rows_from c (suc i) ns) [ err e ↦ err e | ok rest ↦ ok (decoded o ∷ rest) ]
    ]

-- `tolist`
unfoldable pub to_list : Texts → Result (List (Option (List ℕ)))
unfolding rows_from
to_list c = rows_from c 0 c.nullmask
