-- ===== src/Columnar/Bools.antt =====
-- The bool columns of snapdb/columnar.py: `Column` on bool. Bit i of a bytearray is row i; bytes that are
-- missing read as False. Offsets into the column are not negative.
pub mod Laws
pub mod Refine
use snapdb.Prelude.{
  ℕ, zero, suc, ◌+◌, ◌-◌, ◌/◌, ◌%◌, Bool, true, false, Option, none, some, List, [], ◌∷◌, ◌++◌, ltb,
  length, set, get_elem?, replicate, if◌then◌else◌,
}
use snapdb.Result.{Result, ok, err, index_error}
use snapdb.Columnar.Nulls.{at_index}
use snapdb.Columnar.Bits.{test_bit, set_bit, clear_bit}
use snapdb.Db.Exec.{Exec}

pub record Bools : Type 0 where
  pub data_ : List ℕ
  pub nullmask : List Bool

unfoldable pub init : Bools
init = record { data_ = []; nullmask = [] }

-- `_bool_get`
unfoldable pub bool_get : List ℕ → ℕ → Bool
unfolding test_bit
bool_get d idx = elim (get_elem? d (idx / 8)) [ none ↦ false | some b ↦ test_bit b (idx % 8) ]

-- while len(self._data) <= byte_idx: self._data.append(0)
unfoldable pub padded : List ℕ → ℕ → List ℕ
padded d byte_idx = d ++ replicate (suc byte_idx - length d) 0

-- A byte changed in place
unfoldable pub change_byte : List ℕ → ℕ → (ℕ → ℕ) → List ℕ
change_byte d i f = elim (get_elem? d i) [ none ↦ d | some b ↦ set d i (f b) ]

-- `_bool_set`
unfoldable pub bool_set : ℕ → Bool → List ℕ → List ℕ
unfolding padded change_byte set_bit clear_bit
bool_set idx true d = change_byte (padded d (idx / 8)) (idx / 8) (λ b. set_bit b (idx % 8))
bool_set idx false d = change_byte d (idx / 8) (λ b. clear_bit b (idx % 8))

-- `append` of a bool column, where `value` is what the truth of the value is
unfoldable pub append : Option Bool → Bools → Bools
unfolding bool_set
append none c = record c { nullmask = c.nullmask ++ (true ∷ []) }
append (some v) c = record {
  data_ = if v then bool_set (length c.nullmask) true c.data_ else c.data_;
  nullmask = c.nullmask ++ (false ∷ []);
}

-- `__getitem__`
unfoldable pub get_item : Bools → ℕ → Result (Option Bool)
unfolding bool_get at_index
get_item c idx = elim (at_index c.nullmask idx) [
  | err e ↦ err e
  | ok null ↦ ok (if null then none else some (bool_get c.data_ idx))
]

-- `__setitem__`
unfoldable pub set_item : ℕ → Option Bool → Exec Bools (Unit {0})
unfolding bool_set
set_item idx none c =
    if ltb idx (length c.nullmask)
    then (ok tt, record { nullmask = set c.nullmask idx true; data_ = bool_set idx false c.data_ })
    else (err index_error, c)
set_item idx (some v) c =
    if ltb idx (length c.nullmask)
    then (ok tt, record { nullmask = set c.nullmask idx false; data_ = bool_set idx v c.data_ })
    else (err index_error, c)

-- [None if nullmask[i] else bit i for i in range(n)], from `i` on
unfoldable pub bits_shown : List Bool → List ℕ → ℕ → List (Option Bool)
unfolding bool_get
bits_shown [] d i = []
bits_shown (n ∷ ns) d i = (if n then none else some (bool_get d i)) ∷ bits_shown ns d (suc i)

-- `tolist`
unfoldable pub to_list : Bools → List (Option Bool)
unfolding bits_shown
to_list c = bits_shown c.nullmask c.data_ 0
