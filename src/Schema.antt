-- ===== src/Schema.antt =====
-- Column types, `ColumnDef` and `Schema` of snapdb/core.py, with the type tables of
-- snapdb/_util.py. The float types f32 and f64 have no counterpart.
pub mod Codec
pub mod Shape
use mathlib.Core.List.{filter_map}
use snapdb.Prelude.{
  ℕ, zero, suc, ◌+◌, String, Bool, true, false, ◌||◌, not, Option, none, some, List, [], ◌∷◌, ◌++◌,
  map, if◌then◌else◌,
}
use snapdb.Prelude.Eq.{string_eq}
use snapdb.Prelude.Dict
use snapdb.Prelude.Dict.{Dict}
use snapdb.Result.{Result, ok, err, Error, key_error}
use snapdb.Value.{Value, null}

pub data Dtype : Type 0 where
  i8 i16 i32 i64 u8 u16 u32 u64 bool : Dtype
  bytes : ℕ → Dtype

-- `_TYPE_SIZES` and `_type_size`
unfoldable pub type_size : Dtype → ℕ
type_size i8 = 1
type_size i16 = 2
type_size i32 = 4
type_size i64 = 8
type_size u8 = 1
type_size u16 = 2
type_size u32 = 4
type_size u64 = 8
type_size bool = 1
type_size (bytes n) = n

-- The format characters of `struct`: b h i q, B H I Q, ? and "<n>s".
pub data Code : Type 0 where
  signed : ℕ → Code
  unsigned : ℕ → Code
  flag : Code
  chars : ℕ → Code

-- `_TYPE_CODES` and `_struct_code`
unfoldable pub struct_code : Dtype → Code
struct_code i8 = signed 1
struct_code i16 = signed 2
struct_code i32 = signed 4
struct_code i64 = signed 8
struct_code u8 = unsigned 1
struct_code u16 = unsigned 2
struct_code u32 = unsigned 4
struct_code u64 = unsigned 8
struct_code bool = flag
struct_code (bytes n) = chars n

-- The size of one item of a "<" format: no padding.
unfoldable pub code_size : Code → ℕ
code_size (signed w) = w
code_size (unsigned w) = w
code_size flag = 1
code_size (chars n) = n

-- `dtype.startswith("bytes")`
unfoldable pub is_bytes : Dtype → Bool
is_bytes (bytes n) = true
is_bytes i8 = false
is_bytes _ = false

unfoldable pub is_bool : Dtype → Bool
is_bool bool = true
is_bool i8 = false
is_bool _ = false

pub record ColumnDef : Type 0 where
  pub name : String
  pub dtype : Dtype
  pub unique : Bool
  pub primary_key : Bool
  pub not_null : Bool
  pub width : ℕ

-- `ColumnDef(...)` with its `__post_init__`: a primary key is unique and not null.
unfoldable pub column_def : String → Dtype → Bool → Bool → Bool → ColumnDef
column_def name dtype unique primary_key not_null = record {
  name = name;
  dtype = dtype;
  unique = primary_key || unique;
  primary_key = primary_key;
  not_null = primary_key || not_null;
  width = type_size dtype;
}

abbrev pub Columns : Type 0
Columns = List ColumnDef

-- sum(c.width for c in columns)
unfoldable pub sum_widths : Columns → ℕ
sum_widths [] = 0
sum_widths (c ∷ cs) = c.width + sum_widths cs

-- The start of each column: the sums of the widths before it.
unfoldable pub offsets_from : ℕ → Columns → List ℕ
offsets_from at [] = []
offsets_from at (c ∷ cs) = at ∷ offsets_from (at + c.width) cs

unfoldable pub index_from : ℕ → Columns → Dict String ℕ → Dict String ℕ
index_from i [] d = d
index_from i (c ∷ cs) d = index_from (suc i) cs (Dict.put d c.name i)

unfoldable pub calcsize : List Code → ℕ
calcsize [] = 0
calcsize (c ∷ cs) = code_size c + calcsize cs

unfoldable pub zone_columns_of : Columns → List String
unfolding is_bytes is_bool
zone_columns_of [] = []
zone_columns_of (c ∷ cs) =
    let rest = zone_columns_of cs in
    if not (is_bytes c.dtype || is_bool c.dtype) then c.name ∷ rest else rest

pub record Schema : Type 0 where
  pub columns : Columns
  pub name_to_idx : Dict String ℕ
  pub row_width : ℕ
  pub offsets : List ℕ
  pub struct_fmt : List Code
  pub struct_size : ℕ
  pub zone_columns : List String

-- `Schema(columns)`; `_offsets` starts with 0 also where there is no column.
unfoldable pub init : Columns → Schema
unfolding sum_widths offsets_from index_from calcsize zone_columns_of struct_code
init columns = record {
  columns = columns;
  name_to_idx = index_from 0 columns [];
  row_width = sum_widths columns;
  offsets = elim columns [ [] ↦ 0 ∷ [] | c ∷ cs ↦ 0 ∷ offsets_from c.width cs ];
  struct_fmt = map (λ c. struct_code c.dtype) columns;
  struct_size = calcsize (map (λ c. struct_code c.dtype) columns);
  zone_columns = zone_columns_of columns;
}

abbrev pub Row : Type 0
Row = Dict String Value

-- row.get(column): None where the key is missing
unfoldable pub get_or_none : Row → String → Value
get_or_none row column = elim (Dict.get row column) [ none ↦ null | some v ↦ v ]

-- column in schema._name_to_idx
unfoldable pub has_column : Schema → String → Bool
has_column s column = elim (Dict.get s.name_to_idx column) [ none ↦ false | some i ↦ true ]
