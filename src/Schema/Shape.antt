-- ===== src/Schema/Shape.antt =====
-- What a `Schema` built by its constructor is: the derived fields agree with the columns.
use snapdb.Prelude.{◌≡◌, refl, ap, ◌∙◌, String, List, [], ◌∷◌, map, arith}
use snapdb.Prelude.Eq.{string_eq}
use snapdb.Schema.{
  Dtype, i8, Code, Columns, Schema, init, type_size, struct_code, code_size, sum_widths, calcsize,
}

-- Each column has the width of its type, as `ColumnDef.__post_init__` sets it.
abbrev pub HasWidths : Columns → Type 0
HasWidths [] = Unit
HasWidths (c ∷ cs) = (c.width ≡ type_size c.dtype) × HasWidths cs

abbrev pub codes_of : Columns → List Code
codes_of [] = []
codes_of (c ∷ cs) = struct_code c.dtype ∷ codes_of cs

abbrev pub names_of : Columns → List String
names_of [] = []
names_of (c ∷ cs) = c.name ∷ names_of cs

pub record IsSchema (s : Schema) : Type 0 where
  pub widths : HasWidths s.columns
  pub fmt : s.struct_fmt ≡ codes_of s.columns
  pub width : s.row_width ≡ sum_widths s.columns
  pub size : s.struct_size ≡ s.row_width

pub code_size-struct_code : (d : Dtype) → code_size (struct_code d) ≡ type_size d
unfolding code_size struct_code type_size
code_size-struct_code i8 = refl
code_size-struct_code _ = refl

struct_fmt_codes : (cs : Columns) → map (λ c. struct_code c.dtype) cs ≡ codes_of cs
struct_fmt_codes [] = refl
struct_fmt_codes (c ∷ cs) = ap (◌∷◌ (struct_code c.dtype)) (struct_fmt_codes cs)

-- `struct.calcsize` of the row format is the sum of the column widths, so the rows of a slab stand
-- `row_width` bytes apart with nothing between them.
pub calcsize-codes_of : (cs : Columns) → HasWidths cs → calcsize (codes_of cs) ≡ sum_widths cs
unfolding calcsize sum_widths
calcsize-codes_of [] h = refl
calcsize-codes_of (c ∷ cs) h =
    omega (arith, code_size-struct_code c.dtype, calcsize-codes_of cs h.1)

-- The schema that the constructor builds from columns with the widths of their types is
-- well-formed: the size of its row format is its row width.
pub init-IsSchema : (cs : Columns) → HasWidths cs → IsSchema (init cs)
unfolding init
init-IsSchema cs h = record {
  widths = h;
  fmt = struct_fmt_codes cs;
  width = refl;
  size = ap calcsize (struct_fmt_codes cs) ∙ calcsize-codes_of cs h;
}
