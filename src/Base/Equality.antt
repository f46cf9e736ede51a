-- ===== src/Base/Equality.antt =====
-- One test `==` for the types that the program compares with Go's `==`.
use Prim.Native.Nat.{ℕ}
use Prim.Native.String.{String}
use mathlib.Core.Path.{◌≡◌, refl}
use mathlib.Core.Logic.{◌↔◌, ◌≢◌, inl, inr}
use mathlib.Core.Bool.{Bool, true, false}
use native.Mathlib.Omega.{arith}
use text.Mathlib.Text.{◌==◌ as str_beq}
use text.Mathlib.TextEquality.{eq_iff}
use sources_for_knative.Base.Tests.{nat_beq, Bool-cases}
use sources_for_knative.Base.Integers.{ℤ, int_beq}

pub record Eq {ℓ} (A : Type ℓ) : Type ℓ where
  pub test : A → A → Bool
  pub test_iff : (a b : A) → (test a b ≡ true) ↔ (a ≡ b)

infix 50 ◌==◌
abbrev pub ◌==◌ {ℓ} : {A : Type ℓ} ⦃e : Eq A⦄ → A → A → Bool
◌==◌ ⦃e⦄ = e.test

pub nat_beq_iff : (a b : ℕ) → (nat_beq a b ≡ true) ↔ (a ≡ b)
nat_beq_iff a b = ground arith

pub int_beq_iff : (a b : ℤ) → (int_beq a b ≡ true) ↔ (a ≡ b)
int_beq_iff a b = ground arith

instance abbrev pub nat_eq : Eq ℕ
nat_eq = record { test = nat_beq; test_iff = nat_beq_iff }

instance abbrev pub int_eq : Eq ℤ
int_eq = record { test = int_beq; test_iff = int_beq_iff }

instance abbrev pub string_eq : Eq String
string_eq = record { test = str_beq; test_iff = eq_iff }

module _ {ℓ} {A : Type ℓ} ⦃e : Eq A⦄ where
  pub test_refl : (a : A) → (a == a) ≡ true
  test_refl a = (e.test_iff a a).1 refl

  pub test_ne : (a b : A) → a ≢ b → (a == b) ≡ false
  test_ne a b h = elim (Bool-cases (a == b)) [
    | inl p ↦ absurd (h ((e.test_iff a b).0 p))
    | inr p ↦ p
  ]

  pub test_eq : (a b : A) → (a == b) ≡ true → a ≡ b
  test_eq a b h = (e.test_iff a b).0 h

  pub ne_of_test : (a b : A) → (a == b) ≡ false → a ≢ b
  ne_of_test a b h p = let q : (a == b) ≡ true = (e.test_iff a b).1 p in cc
