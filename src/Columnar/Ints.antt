-- ===== src/Columnar/Ints.antt =====
-- The integer columns of snapdb/columnar.py: `Column` on a numeric type other than a float. Values stay
-- plain, or are stored as differences, or are packed above their minimum in one big number. The
-- arrays' own range checks raise OverflowError; the caches that reading fills are left out, since every
-- write resets them. Offsets into the column are not negative. An append that raises leaves the null
-- mask longer than the data; the IndexErrors of later calls at such rows are not modelled.
pub mod View
pub mod Delta
pub mod Packing
pub mod Access
pub mod Refine
pub mod Aggregate
use snapdb.Prelude.{
  ℕ, zero, suc, ◌+◌, ◌-◌, ◌*◌, ◌/◌, ◌^◌, Bool, true, false, ◌&&◌, ◌||◌, not, Option, none, some,
  List, [], ◌∷◌, ◌++◌, ltb, leb, length, set, get_elem?, if◌then◌else◌,
}
use snapdb.Prelude.Eq.{◌==◌, nat_eq}
use snapdb.Prelude.Int.{ℤ, pos, negsuc, pos_part, ltb_ℤ, abs, ◌+ℤ◌, ◌-ℤ◌}
use snapdb.Result.{Result, ok, err, overflow_error, index_error}
use snapdb.Schema.{Code, signed, unsigned, flag}
use snapdb.Columnar.Bits.{bit_length, or_at, and_mask, read_at}
use snapdb.Db.Exec.{Exec, ◌>>=◌, ◌>>◌, pure, modify}

-- The range of an array of the typecode
unfoldable pub fits : Code → ℤ → Bool
fits (signed w) (pos n) = ltb n (256 ^ w / 2)
fits (signed w) (negsuc n) = ltb n (256 ^ w / 2)
fits (unsigned w) (pos n) = ltb n (256 ^ w)
fits _ _ = false

unfoldable pub all_fit : Code → List ℤ → Bool
unfolding fits
all_fit code [] = true
all_fit code (v ∷ vs) = fits code v && all_fit code vs

-- `for_stats`: the minimum, the maximum and the number of the samples.
abbrev pub Stats : Type 0
Stats = ℤ × ℤ × ℕ

pub record Ints : Type 0 where
  pub code : Code
  pub delta_encode : Bool
  pub delta_samples : ℕ
  pub delta_mode : Bool
  pub delta_fallback : Bool
  pub delta_base : ℤ
  pub delta_prev : ℤ
  pub deltas : List ℤ
  pub delta_code : Code
  pub for_encode : Bool
  pub for_threshold : ℕ
  pub for_mode : Bool
  pub for_fallback : Bool
  pub for_stats : Option Stats
  pub for_min : ℤ
  pub for_bits : ℕ
  pub for_mask : ℕ
  pub for_packed : ℕ
  pub for_count : ℕ
  pub data_ : List ℤ
  pub nullmask : List Bool

unfoldable pub init : Code → Bool → ℕ → Bool → ℕ → Ints
init code delta_encode delta_samples for_encode for_threshold = record {
  code = code;
  delta_encode = delta_encode;
  delta_samples = delta_samples;
  delta_mode = false;
  delta_fallback = false;
  delta_base = pos 0;
  delta_prev = pos 0;
  deltas = [];
  delta_code = signed 4;
  for_encode = for_encode;
  for_threshold = for_threshold;
  for_mode = false;
  for_fallback = false;
  for_stats = none;
  for_min = pos 0;
  for_bits = 0;
  for_mask = 0;
  for_packed = 0;
  for_count = 0;
  data_ = [];
  nullmask = [];
}

-- self._data.append(value)
unfoldable pub data_append : ℤ → Exec Ints (Unit {0})
unfolding fits
data_append v c =
    if fits c.code v
    then (ok tt, record c { data_ = c.data_ ++ (v ∷ []) })
    else (err overflow_error, c)
