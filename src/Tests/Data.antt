-- ===== src/Tests/Data.antt =====
-- The table that the examples use: a u16 key and a text of four bytes.
use snapdb.Prelude.{ℕ, true, false, none, List, [], ◌∷◌}
use snapdb.Prelude.Int.{pos}
use snapdb.Value.{Value, int, text}
use snapdb.Schema.{u16, bytes, Columns, column_def, Schema, Row}
use snapdb.Schema
use snapdb.Slab
use snapdb.Slab.{Slab, zeros}

abbrev pub columns : Columns
columns = column_def "id" u16 false true true ∷ column_def "name" (bytes 4) false false false ∷ []

abbrev pub table : Schema
table = Schema.init columns

abbrev pub an : Value
an = text (65 ∷ 110 ∷ [])

abbrev pub ann : Row
ann = ("id", int (pos 7)) ∷ ("name", an) ∷ []

abbrev pub bob : Row
bob = ("id", int (pos 9)) ∷ ("name", text (66 ∷ 111 ∷ 98 ∷ [])) ∷ []

abbrev pub ann_bytes : List ℕ
ann_bytes = 7 ∷ 0 ∷ 65 ∷ 110 ∷ 0 ∷ 0 ∷ []

abbrev pub bob_bytes : List ℕ
bob_bytes = 9 ∷ 0 ∷ 66 ∷ 111 ∷ 98 ∷ 0 ∷ []

-- A row whose key does not fit its column
abbrev pub too_large : Row
too_large = ("id", int (pos 65536)) ∷ ("name", an) ∷ []

abbrev pub file : List ℕ
file = zeros 32

-- A slab of three slots, behind a bitmap of three bytes.
abbrev pub page : Slab
page = Slab.init table 3 3 none
