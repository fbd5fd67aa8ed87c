-- ===== src/Columnar/Ints/Packing.antt =====
-- The integer columns of snapdb/columnar.py in packing mode (frame of reference): each value above the
-- minimum is a field of `for_bits` bits of one big number.
pub mod Laws
pub mod Keep
pub mod Widen
pub mod Start
use snapdb.Prelude.{
  ℕ, zero, suc, ◌+◌, ◌-◌, ◌*◌, ◌/◌, ◌^◌, Bool, true, false, ◌&&◌, ◌||◌, not, Option, none, some,
  List, [], ◌∷◌, ◌++◌, ltb, leb, length, set, get_elem?, if◌then◌else◌,
}
use snapdb.Prelude.Eq.{◌==◌, nat_eq}
use snapdb.Prelude.Int.{ℤ, pos, negsuc, pos_part, ltb_ℤ, abs, ◌+ℤ◌, ◌-ℤ◌}
use snapdb.Result.{Result, ok, err, overflow_error, index_error}
use snapdb.Schema.{Code, signed, unsigned, flag}
use snapdb.Columnar.Nulls.{at_index, with_nulls}
use snapdb.Columnar.Bits.{bit_length, or_at, and_mask, read_at}
use snapdb.Db.Exec.{Exec, ◌>>=◌, ◌>>◌, pure, modify}
use snapdb.Columnar.Ints.{fits, all_fit, Stats, Ints, data_append}

-- delta & mask, on two's complement
unfoldable pub masked : ℤ → ℕ → ℕ
unfolding and_mask
masked (pos n) mask = and_mask n mask
masked (negsuc n) mask = mask - and_mask n mask

-- `_append_for`
unfoldable pub append_for : ℤ → Ints → Ints
unfolding or_at masked
append_for v c = record c {
  for_packed = or_at c.for_packed (masked (v -ℤ c.for_min) c.for_mask) (c.for_count * c.for_bits);
  for_count = c.for_count + 1;
}

unfoldable pub append_for_all : List ℤ → Ints → Ints
unfolding append_for
append_for_all [] c = c
append_for_all (v ∷ vs) c = append_for_all vs (append_for v c)

-- `_get_for_value`
unfoldable pub get_for_value : Ints → ℕ → ℤ
unfolding read_at
get_for_value c idx = c.for_min +ℤ pos (read_at c.for_packed (idx * c.for_bits) c.for_mask)

-- [self._get_for_value(i) for i in range(n)], from `i` on
unfoldable pub for_values : Ints → ℕ → ℕ → List ℤ
unfolding get_for_value
for_values c i zero = []
for_values c i (suc n) = get_for_value c i ∷ for_values c (suc i) n

-- `_convert_for_to_raw`
unfoldable pub convert_for_to_raw : Exec Ints (Unit {0})
unfolding for_values all_fit
convert_for_to_raw c =
    if not c.for_mode || c.for_fallback
    then (ok tt, c)
    else if all_fit c.code (for_values c 0 c.for_count)
    then (
      ok tt,
      record c {
        for_fallback = true;
        data_ = for_values c 0 c.for_count;
        for_mode = false;
        for_packed = 0;
        for_count = 0;
      },
    )
    else (err overflow_error, record c { for_fallback = true })

-- max(1, n.bit_length())
unfoldable pub bits_for : ℕ → ℕ
unfolding bit_length
bits_for n = if leb 1 (bit_length n) then bit_length n else 1

-- `_widen_for`, which tells whether the column is still packed.
unfoldable pub widen_for : ℕ → Exec Ints Bool
unfolding bits_for convert_for_to_raw for_values append_for_all
widen_for needed c =
    let new_bits = bits_for needed in
    if ltb 16 new_bits then (convert_for_to_raw >> pure false) c else (
      ok true,
      append_for_all (for_values c 0 c.for_count) (record c {
        for_bits = new_bits;
        for_mask = 2 ^ new_bits - 1;
        for_packed = 0;
        for_count = 0;
      }),
    )

unfoldable pub min_of : ℤ → List ℤ → ℤ
min_of m [] = m
min_of m (v ∷ vs) = min_of (if ltb_ℤ v m then v else m) vs

unfoldable pub max_of : ℤ → List ℤ → ℤ
max_of m [] = m
max_of m (v ∷ vs) = max_of (if ltb_ℤ m v then v else m) vs

-- `_start_for_mode`, once the minimum and the range of the old data are known
unfoldable pub start_packing : ℤ → ℕ → List ℤ → Ints → Ints
unfolding bit_length bits_for append_for_all
start_packing low range_val old_data c =
    if ltb 16 (bit_length range_val)
    then record c { for_min = low; for_fallback = true; for_stats = none }
    else let bits = bits_for range_val in
      append_for_all old_data (record c {
        for_min = low;
        for_mode = true;
        for_bits = bits;
        for_mask = 2 ^ bits - 1;
        for_packed = 0;
        for_count = 0;
        data_ = [];
      })

-- `_start_for_mode`
unfoldable pub start_for_mode : Ints → Ints
unfolding start_packing min_of max_of
start_for_mode c = elim c.data_ [
  | [] ↦ start_packing (elim c.for_stats [ none ↦ pos 0 | some (low, high, n) ↦ low ]) 0 [] c
  | v ∷ vs ↦ start_packing (min_of v vs) (pos_part (max_of v vs -ℤ min_of v vs)) (v ∷ vs) c
]

-- The statistics after a sample
unfoldable pub track : ℤ → Option Stats → Stats
track v none = (v, v, 1)
track v (some (low, high, n)) =
    (if ltb_ℤ v low then v else low, if ltb_ℤ high v then v else high, n + 1)

-- A sample in the packing path, behind its append to the data
unfoldable pub sample_for : ℤ → Ints → Ints
unfolding track start_for_mode bit_length
sample_for v c =
    let stats = track v c.for_stats in
    let tracked = record c { for_stats = some stats } in
    if ltb stats.2 c.for_threshold
    then tracked
    else if leb (bit_length (pos_part (stats.1 -ℤ stats.0))) 16
    then start_for_mode tracked
    else record c { for_fallback = true; for_stats = none }

-- A value in packing mode
unfoldable pub append_packed : ℤ → Exec Ints (Unit {0})
unfolding convert_for_to_raw data_append widen_for append_for
append_packed v c =
    let delta = v -ℤ c.for_min in
    if ltb_ℤ delta (pos 0)
    then (convert_for_to_raw >> data_append v) c
    else if ltb c.for_mask (pos_part delta)
    then (widen_for (pos_part delta) >>= λ packed.
          if packed then modify (append_for v) else data_append v)
        c
    else (ok tt, append_for v c)
