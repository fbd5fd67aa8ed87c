-- ===== src/Prelude/Eq.antt =====
-- Python's `==` as an interface, with instances for numbers and column names.
use Prim.Native.Nat.{ℕ}
use Prim.Native.String.{String}
use mathlib.Core.Path.{◌≡◌, refl}
use mathlib.Core.Logic.{◌↔◌}
use mathlib.Core.Bool.{Bool, true, false, ◌||◌}
use mathlib.Core.List.{List, [], ◌∷◌}
use text.Mathlib.Text.{◌==◌ as str_eq}
use text.Mathlib.TextEquality.{eq_iff}
use package.snapdb.Prelude.Tests.{◌==◌ as nat_beq, ==_iff}

-- A type whose values `==` compares, with what its test decides.
pub record Eq {ℓ} (X : Type ℓ) : Type ℓ where
  pub beq : X → X → Bool
  pub beq_iff : (x y : X) → (beq x y ≡ true) ↔ (x ≡ y)

module _ {ℓ} {X : Type ℓ} ⦃eq : Eq X⦄ where
  infix 50 ◌==◌
  abbrev pub ◌==◌ : X → X → Bool
  x == y = eq.beq x y

  pub beq_refl : (x : X) → eq.beq x x ≡ true
  beq_refl x = (eq.beq_iff x x).1 refl

  -- Python's `in` on a list
  abbrev pub contains : X → List X → Bool
  contains x [] = false
  contains x (y ∷ ys) = eq.beq x y || contains x ys

-- Column names
instance abbrev pub string_eq : Eq String
string_eq = record { beq_iff = eq_iff; beq = str_eq }

-- Row numbers
instance abbrev pub nat_eq : Eq ℕ
nat_eq = record { beq_iff = ==_iff; beq = nat_beq }
