-- ===== src/Columnar/Ints/View.antt =====
-- The numbers that an integer column stores, whichever way it stores them.
use snapdb.Prelude.{◌+◌, ◌*◌, ◌^◌, ◌<◌, ◌≡◌, true, false, ◌&&◌, not, List, [], ◌∷◌, ◌++◌, arith}
use snapdb.Prelude.Int.{ℤ, ◌+ℤ◌}
use snapdb.Result.{Result, ok}
use snapdb.Schema.{Code}
use snapdb.Columnar.Ints.{Ints, fits, all_fit}
use snapdb.Columnar.Ints.Delta.{cumulative}
use snapdb.Columnar.Ints.Packing.{for_values}

-- The sum of the base and the differences
unfoldable pub total : ℤ → List ℤ → ℤ
total base [] = base
total base (d ∷ ds) = total (base +ℤ d) ds

-- The fields of the column are these numbers.
pub record IsPacked (c : Ints) (xs : List ℤ) : Type 0 where
  pub mask : c.for_mask + 1 ≡ 2 ^ c.for_bits
  pub bound : c.for_packed < 2 ^ (c.for_count * c.for_bits)
  pub fields : for_values c 0 c.for_count ≡ xs

-- The column stores the numbers: plain, as differences, or packed. While differences are still tried
-- the column is not packed.
pub data View (c : Ints) (xs : List ℤ) : Type 0 where
  plain : c.delta_mode ≡ false → c.for_mode ≡ false → c.data_ ≡ xs → View c xs
  differences :
      c.delta_encode ≡ true
      → c.delta_mode ≡ true
      → c.delta_fallback ≡ false
      → c.for_mode ≡ false
      → cumulative c.delta_base c.deltas ≡ xs
      → total c.delta_base c.deltas ≡ c.delta_prev
      → View c xs
  packed :
      c.delta_mode ≡ false
      → (c.delta_encode && not c.delta_fallback) ≡ false
      → c.for_encode ≡ true
      → c.for_mode ≡ true
      → c.for_fallback ≡ false
      → fits c.code c.for_min ≡ true
      → c.data_ ≡ []
      → IsPacked c xs
      → View c xs

-- An operation on the stored numbers: it succeeds, the column stores the numbers afterwards, and the
-- type and the null mask are as before.
pub record Done (c : Ints) (out : Result (Unit {0}) × Ints) (xs : List ℤ) : Type 0 where
  pub fine : out.0 ≡ ok tt
  pub view : View out.1 xs
  pub code : out.1.code ≡ c.code
  pub mask : out.1.nullmask ≡ c.nullmask

pub all_fit-append :
    (code : Code) (xs : List ℤ) (v : ℤ)
    → all_fit code xs ≡ true
    → fits code v ≡ true
    → all_fit code (xs ++ (v ∷ [])) ≡ true
unfolding all_fit
all_fit-append code [] v h f = ground (arith, f)
all_fit-append code (x ∷ xs) v h f = ground (arith, all_fit-append code xs v, f)
