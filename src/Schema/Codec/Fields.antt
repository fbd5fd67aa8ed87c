-- ===== src/Schema/Codec/Fields.antt =====
-- The columns of a stored row, where the schema's column names are distinct.
use snapdb.Prelude.{
  ℕ, ◌≡◌, ◌≢◌, refl, sym, subst, ◌∙◌, Bool, true, false, not, ◌||◌, some, List, [], ◌∷◌, ◌++◌, ◌≤◌,
  arith, contains, String, length, Bool-cases, inl, inr,
}
use snapdb.Prelude.Eq.{◌==◌, string_eq}
use snapdb.Prelude.Dict
use snapdb.Prelude.Dict.{get-put}
use package.text.Mathlib.TextEquality.{eq_iff}
use snapdb.Utf8.{encode, encode_char}
use snapdb.Utf8.Roundtrip.{IsText, decode_replace-encode}
use snapdb.Bytes.{rstrip}
use snapdb.Bytes.Laws.{take_of_length-le}
use mathlib.Core.List.{append-nil}
use snapdb.Value.{Value, text}
use snapdb.Schema.{
  Dtype, i8, bool, bytes, ColumnDef, Columns, Row, get_or_none, zone_columns_of, is_bytes, is_bool,
}
use snapdb.Schema.Shape.{names_of}
use snapdb.Schema.Codec.{raw_bytes, str}
use snapdb.Schema.Codec.Roundtrip.{stored, stored_from}

-- No two columns share a name.
abbrev pub HasDistinctNames : Columns → Type 0
HasDistinctNames [] = Unit
HasDistinctNames (c ∷ cs) = (contains c.name (names_of cs) ≡ false) × HasDistinctNames cs

-- A column that is not among the rest keeps what was accumulated.
get-stored_from_other :
    (cs : Columns) (row acc : Row) (name : String)
    → contains name (names_of cs) ≡ false
    → Dict.get (stored_from cs row acc) name ≡ Dict.get acc name
unfolding stored_from
get-stored_from_other [] row acc name h = refl
get-stored_from_other (c ∷ cs) row acc name h = ground (
  arith,
  get-stored_from_other cs row (Dict.put acc c.name (stored c.dtype (get_or_none row c.name))) name,
  get-put acc c.name name (stored c.dtype (get_or_none row c.name)),
  eq_iff c.name name,
  eq_iff name c.name,
)

-- A type that zone maps cover: no bytes and no bool.
abbrev is_numeric : Dtype → Bool
is_numeric d = not (is_bytes d || is_bool d)

stored-numeric : (d : Dtype) (v : Value) → is_numeric d ≡ true → stored d v ≡ v
unfolding stored is_bytes is_bool
stored-numeric bool v h = cc
stored-numeric (bytes n) v h = cc
stored-numeric i8 v h = refl
stored-numeric _ v h = refl

zone_columns-names :
    (cs : Columns) (name : String)
    → contains name (names_of cs) ≡ false
    → contains name (zone_columns_of cs) ≡ false
unfolding zone_columns_of
zone_columns-names [] name h = refl
zone_columns-names (c ∷ cs) name h = ground (arith, zone_columns-names cs name)

zone_columns-head :
    (c : ColumnDef) (cs : Columns)
    → contains c.name (names_of cs) ≡ false
    → contains c.name (zone_columns_of (c ∷ cs)) ≡ true
    → is_numeric c.dtype ≡ true
unfolding zone_columns_of
zone_columns-head c cs n h = ground (arith, zone_columns-names cs c.name n)

zone_columns-tail :
    (c : ColumnDef) (cs : Columns) (name : String)
    → name == c.name ≡ false
    → contains name (zone_columns_of (c ∷ cs)) ≡ true
    → contains name (zone_columns_of cs) ≡ true
unfolding zone_columns_of
zone_columns-tail c cs name n h = ground arith

pub get_or_none_of_some :
    (r : Row) (name : String) {v : Value} → Dict.get r name ≡ some v → get_or_none r name ≡ v
unfolding get_or_none
get_or_none_of_some r name e = rw (e, get_or_none)

stored_from-head :
    (c : ColumnDef) (cs : Columns) (row acc : Row)
    → contains c.name (names_of cs) ≡ false
    → get_or_none (stored_from (c ∷ cs) row acc) c.name ≡ stored c.dtype (get_or_none row c.name)
unfolding stored_from
stored_from-head c cs row acc n =
    let v = stored c.dtype (get_or_none row c.name) in
    let e : Dict.get (stored_from cs row (Dict.put acc c.name v)) c.name ≡ some v =
      get-stored_from_other cs row (Dict.put acc c.name v) c.name n
      ∙ ground (arith, get-put acc c.name c.name v, eq_iff c.name c.name) in
    get_or_none_of_some (stored_from cs row (Dict.put acc c.name v)) c.name e

-- A numeric column of the stored row has the value that the row had.
pub stored_from-zone_column :
    (cs : Columns) (row acc : Row) (name : String)
    → HasDistinctNames cs
    → contains name (zone_columns_of cs) ≡ true
    → get_or_none (stored_from cs row acc) name ≡ get_or_none row name
unfolding stored_from
stored_from-zone_column [] row acc name d h = unfold zone_columns_of in cc
stored_from-zone_column (c ∷ cs) row acc name d h = elim (Bool-cases (name == c.name)) [
  | inl e ↦
      let p : name ≡ c.name = (eq_iff name c.name).0 e in
      subst (λ n. get_or_none (stored_from (c ∷ cs) row acc) n ≡ get_or_none row n) (sym p)
        (stored_from-head c cs row acc d.0
          ∙ stored-numeric c.dtype (get_or_none row c.name) (
              zone_columns-head c cs d.0
                (subst (λ n. contains n (zone_columns_of (c ∷ cs)) ≡ true) p h)))
  | inr n ↦
      stored_from-zone_column cs row (Dict.put acc c.name (stored c.dtype (get_or_none row c.name)))
        name d.1 (zone_columns-tail c cs name n h)
]

-- The last of the numbers, if there is one, is not 0.
abbrev pub EndsNonzero : List ℕ → Type 0
EndsNonzero [] = Unit
EndsNonzero (c ∷ []) = c ≢ 0
EndsNonzero (c ∷ d ∷ s) = EndsNonzero (d ∷ s)

rstrip_same : (s : List ℕ) → EndsNonzero s → rstrip s ≡ s
unfolding rstrip
rstrip_same [] h = refl
rstrip_same (c ∷ []) h = ground arith
rstrip_same (c ∷ d ∷ s) h = ground (arith, rstrip_same (d ∷ s) h)

EndsNonzero-append : (xs ys : List ℕ) → ys ≢ [] → EndsNonzero ys → EndsNonzero (xs ++ ys)
EndsNonzero-append [] ys n h = h
EndsNonzero-append (x ∷ []) [] n h = absurd (n refl)
EndsNonzero-append (x ∷ []) (y ∷ ys) n h = h
EndsNonzero-append (x ∷ x' ∷ xs) ys n h = EndsNonzero-append (x' ∷ xs) ys n h

encode_char-ne-nil : (c : ℕ) → encode_char c ≢ []
unfolding encode_char
encode_char-ne-nil c e = ground arith

encode-ne-nil : (c : ℕ) (s : List ℕ) → encode (c ∷ s) ≢ []
unfolding encode encode_char
encode-ne-nil c s e = ground arith

encode_char-EndsNonzero : (c : ℕ) → c ≢ 0 → EndsNonzero (encode_char c)
unfolding encode_char
encode_char-EndsNonzero c h = ground arith

ends_cons :
    (c : ℕ) (s : List ℕ) → encode s ≢ [] → EndsNonzero (encode s) → EndsNonzero (encode (c ∷ s))
ends_cons c s n h = unfold encode in EndsNonzero-append (encode_char c) (encode s) n h

encode-EndsNonzero : (s : List ℕ) → EndsNonzero s → EndsNonzero (encode s)
encode-EndsNonzero [] h = unfold encode in tt
encode-EndsNonzero (c ∷ []) h =
    unfold encode in
    subst EndsNonzero (sym (append-nil (encode_char c))) (encode_char-EndsNonzero c h)
encode-EndsNonzero (c ∷ d ∷ s) h =
    ends_cons c (d ∷ s) (encode-ne-nil d s) (encode-EndsNonzero (d ∷ s) h)

-- A text of Unicode scalar values whose encoding fits the width of its bytes column, and that does
-- not end with a NUL character, is stored as it is.
pub stored-text :
    (n : ℕ) (s : List ℕ)
    → IsText s
    → EndsNonzero s
    → length (encode s) ≤ n
    → stored (bytes n) (text s) ≡ text s
unfolding stored raw_bytes str
stored-text n s scalar ends fits = rw (
  take_of_length-le n (encode s) fits,
  rstrip_same (encode s) (encode-EndsNonzero s ends),
  decode_replace-encode s scalar,
)
