-- ===== src/Base/Keys.antt =====
-- Equality of keys as an interface: Python's `==` on strings and on numbers.
use Prim.Native.Nat.{ℕ, Ordering}
use Prim.Native.String.{String, compare as string_compare}
use mathlib.Core.Path.{◌≡◌}
use mathlib.Core.Logic.{◌↔◌}
use mathlib.Core.Bool.{Bool, true, false}
use text.Mathlib.Text.{◌==◌ as str_eq}
use text.Mathlib.TextEquality.{eq_iff}
use aurora_client.Base.Tests.{nat_beq, nat_beq_iff}

pub record Eq {ℓ} (A : Type ℓ) : Type ℓ where
  pub beq : A → A → Bool
  pub beq_iff : (x y : A) → (beq x y ≡ true) ↔ (x ≡ y)

module _ {ℓ} {A : Type ℓ} ⦃keys : Eq A⦄ where
  infix 50 ◌==◌
  -- One operator for every type that has an instance.
  abbrev pub ◌==◌ : A → A → Bool
  x == y = keys.beq x y

  pub ==_iff : (x y : A) → ((x == y) ≡ true) ↔ (x ≡ y)
  ==_iff x y = keys.beq_iff x y

-- `a <= b` on strings, by code points.
abbrev pub string_leb : String → String → Bool
string_leb a b = elim (string_compare a b) [ Ordering.gt ↦ false | _ ↦ true ]

-- `abbrev`, so that the fields compute in tests.
instance abbrev pub string_eq : Eq String
string_eq = record { beq = str_eq; beq_iff = eq_iff }

instance abbrev pub nat_eq : Eq ℕ
nat_eq = record { beq = nat_beq; beq_iff = nat_beq_iff }
