-- ===== src/Value/Order.antt =====
-- `lt_value` is a strict total order.
use snapdb.Prelude.{ℕ, ◌≡◌, refl, ◌⊎◌, inl, inr, true, false, List, [], ◌∷◌, arith}
use snapdb.Prelude.Int.{ℤ}
use snapdb.Value.{Value, null, int, text, bytes, lex, points, order_key, lt_value}

lex_irrefl : (xs : List ℤ) → lex xs xs ≡ false
unfolding lex
lex_irrefl [] = refl
lex_irrefl (x ∷ xs) = ground (arith, lex_irrefl xs)

lex_trans : (xs ys zs : List ℤ) → lex xs ys ≡ true → lex ys zs ≡ true → lex xs zs ≡ true
unfolding lex
lex_trans [] [] zs h k = cc
lex_trans [] (y ∷ ys) [] h k = cc
lex_trans [] (y ∷ ys) (z ∷ zs) h k = refl
lex_trans (x ∷ xs) [] zs h k = cc
lex_trans (x ∷ xs) (y ∷ ys) [] h k = cc
lex_trans (x ∷ xs) (y ∷ ys) (z ∷ zs) h k = ground (arith, lex_trans xs ys zs)

lex_total : (xs ys : List ℤ) → (lex xs ys ≡ true) ⊎ ((xs ≡ ys) ⊎ (lex ys xs ≡ true))
unfolding lex
lex_total [] [] = inr (inl refl)
lex_total [] (y ∷ ys) = inl refl
lex_total (x ∷ xs) [] = inr (inr refl)
lex_total (x ∷ xs) (y ∷ ys) = ground (arith, lex_total xs ys)

points_injective : (a b : List ℕ) → points a ≡ points b → a ≡ b
unfolding points
points_injective [] [] h = refl
points_injective [] (y ∷ b) h = cc
points_injective (x ∷ a) [] h = cc
points_injective (x ∷ a) (y ∷ b) h = ground (arith, points_injective a b)

order_key_injective : (a b : Value) → order_key a ≡ order_key b → a ≡ b
unfolding order_key
order_key_injective null null h = refl
order_key_injective (int a) (int b) h = cc
order_key_injective (text a) (text b) h = ground (arith, points_injective a b)
order_key_injective (bytes a) (bytes b) h = ground (arith, points_injective a b)
order_key_injective (text _) _ h = ground arith
order_key_injective (bytes _) _ h = ground arith
order_key_injective (int _) _ h = ground arith
order_key_injective null _ h = ground arith

pub lt_value_irrefl : (a : Value) → lt_value a a ≡ false
unfolding lt_value
lt_value_irrefl a = lex_irrefl (order_key a)

pub lt_value_trans :
    (a b c : Value) → lt_value a b ≡ true → lt_value b c ≡ true → lt_value a c ≡ true
unfolding lt_value
lt_value_trans a b c = lex_trans (order_key a) (order_key b) (order_key c)

pub lt_value_total : (a b : Value) → (lt_value a b ≡ true) ⊎ ((a ≡ b) ⊎ (lt_value b a ≡ true))
unfolding lt_value
lt_value_total a b = elim (lex_total (order_key a) (order_key b)) [
  | inl h ↦ inl h
  | inr (inl e) ↦ inr (inl (order_key_injective a b e))
  | inr (inr h) ↦ inr (inr h)
]
