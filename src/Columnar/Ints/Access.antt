-- ===== src/Columnar/Ints/Access.antt =====
-- `append`, `__getitem__`, `__setitem__` and `tolist` of an integer column of snapdb/columnar.py.
pub mod Laws
use snapdb.Prelude.{
  ℕ, zero, suc, ◌+◌, ◌-◌, ◌*◌, ◌/◌, ◌^◌, Bool, true, false, ◌&&◌, ◌||◌, not, Option, none, some,
  List, [], ◌∷◌, ◌++◌, ltb, leb, length, set, get_elem?, if◌then◌else◌,
}
use snapdb.Prelude.Eq.{◌==◌, nat_eq}
use snapdb.Prelude.Int.{ℤ, pos, negsuc, pos_part, ltb_ℤ, abs, ◌+ℤ◌, ◌-ℤ◌}
use snapdb.Result.{Result, ok, err, overflow_error, index_error}
use snapdb.Schema.{Code, signed, unsigned, flag}
use snapdb.Columnar.Nulls.{at_index, with_nulls}
use snapdb.Columnar.Bits.{bit_length, or_at, and_mask, read_at}
use snapdb.Db.Exec.{Exec, ◌>>=◌, ◌>>◌, pure, modify}
use snapdb.Columnar.Ints.{fits, all_fit, Stats, Ints, data_append}
use snapdb.Columnar.Ints.Delta.{
  cumulative, reconstruct_delta, convert_delta_to_raw, append_delta, end_delta_sampling,
}
use snapdb.Columnar.Ints.Packing.{
  append_for, get_for_value, for_values, convert_for_to_raw, sample_for, append_packed,
}

-- `append` of a value, behind its entry in the null mask
unfoldable pub append_value : ℤ → Exec Ints (Unit {0})
unfolding data_append end_delta_sampling append_delta sample_for append_packed
append_value v c =
    if c.delta_encode && not c.delta_fallback
    then if c.delta_mode then append_delta v c else (data_append v >> end_delta_sampling) c
    else if c.for_encode && not c.for_fallback
    then if c.for_mode then append_packed v c else (data_append v >> modify (sample_for v)) c
    else data_append v c

-- `append` of None, behind its entry in the null mask
unfoldable pub append_null : Ints → Ints
unfolding append_for
append_null c =
    if c.delta_mode && not c.delta_fallback
    then record c { deltas = c.deltas ++ (pos 0 ∷ []) }
    else if c.for_mode && not c.for_fallback
    then append_for c.for_min c
    else record c { data_ = c.data_ ++ (pos 0 ∷ []) }

unfoldable pub append : Option ℤ → Exec Ints (Unit {0})
unfolding append_value append_null
append none c = (ok tt, append_null (record c { nullmask = c.nullmask ++ (true ∷ []) }))
append (some v) c = append_value v (record c { nullmask = c.nullmask ++ (false ∷ []) })

-- `__getitem__` of a value that is not null
unfoldable pub get_value : Ints → ℕ → Result ℤ
unfolding reconstruct_delta get_for_value at_index
get_value c idx =
    if c.delta_mode && not c.delta_fallback
    then elim (reconstruct_delta c) [ ok xs ↦ at_index xs idx | err e ↦ err e ]
    else if c.for_mode && not c.for_fallback
    then ok (get_for_value c idx)
    else at_index c.data_ idx

unfoldable pub get_item : Ints → ℕ → Result (Option ℤ)
unfolding get_value at_index
get_item c idx = elim (at_index c.nullmask idx) [
  | err e ↦ err e
  | ok null ↦
      if null then ok none else elim (get_value c idx) [ ok v ↦ ok (some v) | err e ↦ err e ]
]

-- self._data[idx] = value
unfoldable pub data_set : ℕ → ℤ → Exec Ints (Unit {0})
unfolding fits
data_set idx v c =
    if fits c.code v
    then (ok tt, record c { data_ = set c.data_ idx v })
    else (err overflow_error, c)

unfoldable pub set_value : ℕ → ℤ → Exec Ints (Unit {0})
unfolding convert_delta_to_raw convert_for_to_raw data_set
set_value idx v c =
    if c.delta_mode && not c.delta_fallback
    then (convert_delta_to_raw >> data_set idx v) c
    else if c.for_mode && not c.for_fallback
    then (convert_for_to_raw >> data_set idx v) c
    else data_set idx v c

-- What a null does to the stored value: encoded values stay.
unfoldable pub set_null : ℕ → Ints → Ints
set_null idx c =
    if c.delta_mode && not c.delta_fallback || c.for_mode && not c.for_fallback
    then c
    else record c { data_ = set c.data_ idx (pos 0) }

-- `__setitem__`
unfoldable pub set_item : ℕ → Option ℤ → Exec Ints (Unit {0})
unfolding set_value set_null
set_item idx none c =
    if ltb idx (length c.nullmask)
    then (ok tt, set_null idx (record c { nullmask = set c.nullmask idx true }))
    else (err index_error, c)
set_item idx (some v) c =
    if ltb idx (length c.nullmask)
    then set_value idx v (record c { nullmask = set c.nullmask idx false })
    else (err index_error, c)

-- `tolist`
unfoldable pub to_list : Ints → Result (List (Option ℤ))
unfolding reconstruct_delta for_values with_nulls
to_list c =
    if c.delta_mode && not c.delta_fallback
    then elim (reconstruct_delta c) [ ok xs ↦ ok (with_nulls c.nullmask xs) | err e ↦ err e ]
    else if c.for_mode && not c.for_fallback
    then ok (with_nulls c.nullmask (for_values c 0 (length c.nullmask)))
    else ok (with_nulls c.nullmask c.data_)
