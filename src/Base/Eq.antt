-- ===== src/Base/Eq.antt =====
-- Go's `==` as an interface: a Boolean test that decides equality.
use Prim.Native.Nat.{ℕ}
use Prim.Native.String.{String}
use text.Mathlib.Text.{◌==◌ as same_text}
use text.Mathlib.TextEquality.{eq_iff}
use mathlib.Core.Path.{◌≡◌}
use mathlib.Core.Logic.{◌↔◌}
use mathlib.Core.Bool.{Bool, true, false}
use mathlib.Core.Option.{Option, none, some}
use native.Mathlib.Omega.{arith}
use sofa.Base.Tests.{eqb, eqb_iff}

pub record Equality {ℓ} (A : Type ℓ) : Type ℓ where
  pub test : A → A → Bool
  pub test_iff : (a b : A) → (test a b ≡ true) ↔ (a ≡ b)

infix 50 ◌==◌
abbrev pub ◌==◌ {ℓ} : {A : Type ℓ} ⦃e : Equality A⦄ → A → A → Bool
◌==◌ ⦃e⦄ = e.test

instance abbrev pub nat_eq : Equality ℕ
nat_eq = record { test = eqb; test_iff = eqb_iff }

instance abbrev pub string_eq : Equality String
string_eq = record { test = same_text; test_iff = eq_iff }

abbrev pub bool_test : Bool → Bool → Bool
bool_test true b = b
bool_test false true = false
bool_test false false = true

pub bool_test_iff : (a b : Bool) → (bool_test a b ≡ true) ↔ (a ≡ b)
bool_test_iff a b = ground arith

instance abbrev pub bool_eq : Equality Bool
bool_eq = record { test = bool_test; test_iff = bool_test_iff }

-- Pointers that are compared by what they point to: both nil, or both set to equal values.
abbrev pub option_test {ℓ} : {A : Type ℓ} → Equality A → Option A → Option A → Bool
option_test e none none = true
option_test e none (some b) = false
option_test e (some a) none = false
option_test e (some a) (some b) = e.test a b

pub option_test_iff {ℓ} :
    {A : Type ℓ} (e : Equality A) (a b : Option A) → (option_test e a b ≡ true) ↔ (a ≡ b)
option_test_iff e none none = ground arith
option_test_iff e none (some b) = ground arith
option_test_iff e (some a) none = ground arith
option_test_iff e (some a) (some b) = ground (arith, e.test_iff a b)

instance abbrev pub option_eq {ℓ} : {A : Type ℓ} ⦃e : Equality A⦄ → Equality (Option A)
option_eq ⦃e⦄ = record { test = option_test e; test_iff = option_test_iff e }
