-- ===== src/Json.antt =====
-- `_encode` and `_decode` of `WAL.append` and `WAL.replay` (snapdb/wal.py), between the dicts that the
-- log is given and the values that JSON carries: bytes travel as {"__bytes__": hex}, also inside a
-- dict. The values that rows hold contain no lists.
pub mod Roundtrip
use snapdb.Prelude.{
  ℕ, ◌+◌, ◌-◌, ◌*◌, ◌/◌, ◌%◌, String, Bool, ◌&&◌, ◌||◌, Option, none, some, List, [], ◌∷◌, ltb, leb,
  if◌then◌else◌,
}
use snapdb.Prelude.Eq.{◌==◌, nat_eq, string_eq}
use snapdb.Result.{Result, ok, err, value_error, type_error, ◌>>=◌}
use snapdb.Schema.{Row}
use snapdb.Value.{Value, text, bytes}

-- A value of a log record: one that is no dict, or a dict, whose keys are distinct as Python's are.
mutual
  pub data Tree : Type 0 where
    leaf : Value → Tree
    dict : Fields → Tree

  pub data Fields : Type 0 where
    end : Fields
    field : String → Tree → Fields → Fields

abbrev hex_digit : ℕ → ℕ
hex_digit d = if ltb d 10 then 48 + d else 87 + d

-- val.hex()
unfoldable pub hex : List ℕ → List ℕ
hex [] = []
hex (b ∷ bs) = hex_digit (b / 16) ∷ hex_digit (b % 16) ∷ hex bs

unfoldable pub digit_of : ℕ → Option ℕ
digit_of c =
    if leb 48 c && leb c 57
    then some (c - 48)
    else if leb 97 c && leb c 102
    then some (c - 87)
    else if leb 65 c && leb c 70
    then some (c - 55)
    else none

abbrev is_space : ℕ → Bool
is_space c = c == 32 || leb 9 c && leb c 13

-- bytes.fromhex: pairs of digits, with white space between the pairs; `some` is a pair's first.
unfoldable pub from_hex : Option ℕ → List ℕ → Result (List ℕ)
unfolding digit_of
from_hex none [] = ok []
from_hex (some high) [] = err value_error
from_hex none (c ∷ cs) =
    let skipped = from_hex none cs in
    elim (digit_of c) [
      | some d ↦ from_hex (some d) cs
      | none ↦ if is_space c then skipped else err value_error
    ]
from_hex (some high) (c ∷ cs) = elim (digit_of c) [
  | some d ↦ do bs ← from_hex none cs; ok ((high * 16 + d) ∷ bs)
  | none ↦ err value_error
]

-- `_encode`
unfoldable pub encode_leaf : Value → Tree
unfolding hex
encode_leaf (bytes b) = dict (field "__bytes__" (leaf (text (hex b))) end)
encode_leaf v = leaf v

unfoldable mutual
  unfolding encode_leaf

  pub encode : Tree → Tree
  encode (leaf v) = encode_leaf v
  encode (dict fs) = dict (encode_fields fs)

  pub encode_fields : Fields → Fields
  encode_fields end = end
  encode_fields (field k t fs) = field k (encode t) (encode_fields fs)

-- `set(val) == {"__bytes__"}`, with the value under the key
unfoldable pub bytes_field : Fields → Option Tree
bytes_field end = none
bytes_field (field k t end) = if k == "__bytes__" then some t else none
bytes_field (field k t (field _ _ _)) = none

-- bytes.fromhex of a text; another value raises TypeError.
unfoldable pub unhex : Tree → Result Tree
unfolding from_hex
unhex (leaf (text s)) = do b ← from_hex none s; ok (leaf (bytes b))
unhex _ = err type_error

-- `_decode`
unfoldable mutual
  unfolding bytes_field unhex

  pub decode : Tree → Result Tree
  decode (leaf v) = ok (leaf v)
  decode (dict fs) = elim (bytes_field fs) [
    | some t ↦ unhex t
    | none ↦ do gs ← decode_fields fs; ok (dict gs)
  ]

  pub decode_fields : Fields → Result Fields
  decode_fields end = ok end
  decode_fields (field k t fs) = do u ← decode t; gs ← decode_fields fs; ok (field k u gs)

-- A row as the dict that it is
unfoldable pub fields_of : Row → Fields
fields_of [] = end
fields_of ((k, v) ∷ row) = field k (leaf v) (fields_of row)

-- The row that a dict of values is. One that holds a dict is no row of these values.
unfoldable pub row_from : Fields → Result Row
row_from end = ok []
row_from (field k (leaf v) fs) = do row ← row_from fs; ok ((k, v) ∷ row)
row_from (field k (dict _) fs) = err type_error

unfoldable pub row_of : Tree → Result Row
unfolding row_from
row_of (leaf v) = err type_error
row_of (dict fs) = row_from fs
