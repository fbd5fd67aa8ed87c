-- ===== src/Value.antt =====
-- The Python values that rows hold (snapdb/core.py, snapdb/index.py), up to Python's `==`, and
-- `_norm_value` of snapdb/_util.py. `True` and `False` are the integers 1 and 0, which they equal;
-- text is its code points. Floats have no counterpart. Python orders values of one type and raises
-- TypeError across types; here `lt_value` goes on to order values of different types by type.
pub mod Order
use snapdb.Prelude.{
  ℕ, suc, ◌+◌, ◌≡◌, refl, ◌↔◌, Bool, true, false, ◌&&◌, ◌||◌, List, [], ◌∷◌, arith, ltb,
  if◌then◌else◌,
}
use snapdb.Prelude.Eq.{Eq, ◌==◌, nat_eq}
use snapdb.Prelude.Int.{ℤ, pos, negsuc, ltb_ℤ}
use snapdb.Utf8.{decode_replace}

pub data Value : Type 0 where
  null : Value
  int : ℤ → Value
  text : List ℕ → Value
  bytes : List ℕ → Value

abbrev pub eq_ℤ : ℤ → ℤ → Bool
eq_ℤ (pos a) (pos b) = a == b
eq_ℤ (pos a) (negsuc b) = false
eq_ℤ (negsuc a) (pos b) = false
eq_ℤ (negsuc a) (negsuc b) = a == b

unfoldable pub eq_codes : List ℕ → List ℕ → Bool
eq_codes [] [] = true
eq_codes [] (y ∷ ys) = false
eq_codes (x ∷ xs) [] = false
eq_codes (x ∷ xs) (y ∷ ys) = x == y && eq_codes xs ys

pub eq_codes_iff : (xs ys : List ℕ) → (eq_codes xs ys ≡ true) ↔ (xs ≡ ys)
unfolding eq_codes
eq_codes_iff [] [] = (λ _. refl, λ _. refl)
eq_codes_iff [] (y ∷ ys) = (λ h. cc, λ h. cc)
eq_codes_iff (x ∷ xs) [] = (λ h. cc, λ h. cc)
eq_codes_iff (x ∷ xs) (y ∷ ys) =
    (λ h. ground (arith, eq_codes_iff xs ys), λ h. ground (arith, eq_codes_iff xs ys))

instance abbrev pub codes_eq : Eq (List ℕ)
codes_eq = record { beq = eq_codes; beq_iff = eq_codes_iff }

-- `==` between two values
unfoldable pub eq_value : Value → Value → Bool
eq_value null null = true
eq_value (int a) (int b) = eq_ℤ a b
eq_value (text a) (text b) = eq_codes a b
eq_value (bytes a) (bytes b) = eq_codes a b
eq_value (text _) _ = false
eq_value (bytes _) _ = false
eq_value (int _) _ = false
eq_value null _ = false

pub eq_value_iff : (a b : Value) → (eq_value a b ≡ true) ↔ (a ≡ b)
unfolding eq_value
eq_value_iff null null = (λ _. refl, λ _. refl)
eq_value_iff (int a) (int b) = (λ h. ground arith, λ h. ground arith)
eq_value_iff (text a) (text b) =
    (λ h. ground (arith, eq_codes_iff a b), λ h. ground (arith, eq_codes_iff a b))
eq_value_iff (bytes a) (bytes b) =
    (λ h. ground (arith, eq_codes_iff a b), λ h. ground (arith, eq_codes_iff a b))
eq_value_iff (text _) _ = (λ h. cc, λ h. cc)
eq_value_iff (bytes _) _ = (λ h. cc, λ h. cc)
eq_value_iff (int _) _ = (λ h. cc, λ h. cc)
eq_value_iff null _ = (λ h. cc, λ h. cc)

instance abbrev pub value_eq : Eq Value
value_eq = record { beq = eq_value; beq_iff = eq_value_iff }

-- `_norm_value`
unfoldable pub norm_value : Value → Value
norm_value (bytes b) = text (decode_replace b)
norm_value v = v

-- the lexicographic order of Python's lists, strings and bytes
unfoldable pub lex : List ℤ → List ℤ → Bool
lex [] [] = false
lex [] (y ∷ ys) = true
lex (x ∷ xs) [] = false
lex (x ∷ xs) (y ∷ ys) = ltb_ℤ x y || (eq_ℤ x y && lex xs ys)

points : List ℕ → List ℤ
points [] = []
points (c ∷ cs) = pos c ∷ points cs

-- the type of a value, then its content
unfoldable pub order_key : Value → List ℤ
unfolding points
order_key null = []
order_key (int z) = pos 1 ∷ z ∷ []
order_key (text s) = pos 2 ∷ points s
order_key (bytes b) = pos 3 ∷ points b

-- `<` between two values
unfoldable pub lt_value : Value → Value → Bool
lt_value a b = lex (order_key a) (order_key b)
