-- ===== src/Columnar/Ints/Delta.antt =====
-- The integer columns of snapdb/columnar.py in delta mode: the first value, and the difference of each
-- later value to the one before it.
pub mod Laws
pub mod Samples
use snapdb.Prelude.{
  ℕ, zero, suc, ◌+◌, ◌-◌, ◌*◌, ◌/◌, ◌^◌, Bool, true, false, ◌&&◌, ◌||◌, not, Option, none, some,
  List, [], ◌∷◌, ◌++◌, ltb, leb, length, set, get_elem?, if◌then◌else◌,
}
use snapdb.Prelude.Eq.{◌==◌, nat_eq}
use snapdb.Prelude.Int.{ℤ, pos, negsuc, pos_part, ltb_ℤ, abs, ◌+ℤ◌, ◌-ℤ◌}
use snapdb.Result.{Result, ok, err, overflow_error, index_error}
use snapdb.Schema.{Code, signed, code_size}
use snapdb.Columnar.Nulls.{at_index, with_nulls}
use snapdb.Columnar.Bits.{bit_length, or_at, and_mask, read_at}
use snapdb.Db.Exec.{Exec, ◌>>=◌, ◌>>◌, pure, modify}
use snapdb.Columnar.Ints.{fits, all_fit, Stats, Ints, data_append}

-- base, base + d0, base + d0 + d1, ...
unfoldable pub cumulative : ℤ → List ℤ → List ℤ
cumulative val [] = val ∷ []
cumulative val (d ∷ ds) = val ∷ cumulative (val +ℤ d) ds

-- `_reconstruct_delta`, into an array of the column's own type
unfoldable pub reconstruct_delta : Ints → Result (List ℤ)
unfolding all_fit cumulative
reconstruct_delta c =
    if all_fit c.code (cumulative c.delta_base c.deltas)
    then ok (cumulative c.delta_base c.deltas)
    else err overflow_error

-- `_convert_delta_to_raw`
unfoldable pub convert_delta_to_raw : Exec Ints (Unit {0})
unfolding reconstruct_delta
convert_delta_to_raw c =
    if not c.delta_mode || c.delta_fallback then (ok tt, c) else elim (reconstruct_delta c) [
      | err e ↦ (err e, record c { delta_fallback = true })
      | ok raw ↦ (
        ok tt,
        record c {
          delta_fallback = true;
          data_ = raw;
          delta_mode = false;
          deltas = [];
          delta_base = pos 0;
          delta_prev = pos 0;
        },
      )
    ]

-- `_smallest_delta_typecode(max_delta, signed=True)`
unfoldable pub smallest_delta_typecode : ℤ → Code
smallest_delta_typecode max_delta =
    if leb (pos_part max_delta) 127
    then signed 1
    else if leb (pos_part max_delta) 32767
    then signed 2
    else if leb (pos_part max_delta) 2147483647
    then signed 4
    else signed 8

-- The typecode of the differences before one is appended: 8 bytes are never widened.
unfoldable pub upgraded : Code → ℤ → Code
unfolding fits smallest_delta_typecode abs code_size
upgraded code delta =
    if code_size code == 8 || fits code delta then code else smallest_delta_typecode (abs delta)

-- `_append_delta`. A wider array holds what the narrower one held.
unfoldable pub append_delta : ℤ → Exec Ints (Unit {0})
unfolding upgraded fits convert_delta_to_raw data_append
append_delta v c =
    let delta = v -ℤ c.delta_prev in
    let code = upgraded c.delta_code delta in
    if fits code delta
    then (ok tt, record c { delta_prev = v; delta_code = code; deltas = c.deltas ++ (delta ∷ []) })
    else (convert_delta_to_raw >> data_append v) (record c { delta_prev = v; delta_code = code })

-- The check of the samples: none is below the one before it.
unfoldable pub monotonic : List ℤ → Bool
monotonic [] = true
monotonic (x ∷ []) = true
monotonic (x ∷ y ∷ xs) = not (ltb_ℤ y x) && monotonic (y ∷ xs)

-- The loop over the samples behind the first
unfoldable pub append_samples : List ℤ → Exec Ints (Unit {0})
unfolding data_append append_delta
append_samples [] c = (ok tt, c)
append_samples (v ∷ vs) c =
    ((λ d. if d.delta_fallback then data_append v d else append_delta v d) >> append_samples vs) c

-- `_start_delta_mode`
unfoldable pub start_delta_mode : ℤ → Ints → Ints
start_delta_mode value c = record c {
  delta_mode = true;
  delta_base = value;
  delta_prev = value;
  deltas = [];
  delta_code = signed 4;
  data_ = [];
}

-- The end of the sampling phase, where there are samples enough
unfoldable pub end_delta_sampling : Exec Ints (Unit {0})
unfolding monotonic append_samples start_delta_mode
end_delta_sampling c =
    if ltb (length c.data_) c.delta_samples
    then (ok tt, c)
    else if monotonic c.data_
    then elim c.data_ [
      | [] ↦ (ok tt, c)
      | base ∷ old ↦ append_samples old (start_delta_mode base c)
    ]
    else (ok tt, record c { delta_fallback = true })
