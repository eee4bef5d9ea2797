-- ===== src/Base/Equality.antt =====
-- Equality tests as an interface: an `==` that decides the paths of its type.
use Prim.Native.Nat.{ℕ}
use Prim.Native.String.{String}
use mathlib.Core.Path.{◌≡◌, refl}
use mathlib.Core.Logic.{◌↔◌, ◌≢◌, inl, inr}
use mathlib.Core.Bool.{Bool, true, false, ◌&&◌, ◌||◌}
use mathlib.Core.List.{List, [], ◌∷◌}
use text.Mathlib.Text.{◌==◌ as eqb_text}
use text.Mathlib.TextEquality.{eq_iff as eqb_text_iff}
use mcp_gtw.Base.Tests.{eqb_ℕ, eqb_ℕ_iff, Bool-cases}

pub record Eq {ℓ} (A : Type ℓ) : Type ℓ where
  pub test : A → A → Bool
  pub test_iff : (a b : A) → (test a b ≡ true) ↔ (a ≡ b)

instance abbrev pub ℕ_eq : Eq ℕ
ℕ_eq = record { test = eqb_ℕ; test_iff = eqb_ℕ_iff }

instance abbrev pub text_eq : Eq String
text_eq = record { test = eqb_text; test_iff = eqb_text_iff }

module _ {ℓ} {A : Type ℓ} ⦃e : Eq A⦄ where
  infix 50 ◌==◌
  abbrev pub ◌==◌ : A → A → Bool
  ◌==◌ = e.test

  pub ==_iff : (a b : A) → ((a == b) ≡ true) ↔ (a ≡ b)
  ==_iff = e.test_iff

  pub ==_refl : (a : A) → (a == a) ≡ true
  ==_refl a = (e.test_iff a a).1 refl

  pub ==_false : (a b : A) → a ≢ b → (a == b) ≡ false
  ==_false a b h = elim (Bool-cases (a == b)) [
    | inl q ↦ absurd (h ((e.test_iff a b).0 q))
    | inr q ↦ q
  ]

  -- `a in xs`
  abbrev pub contains : List A → A → Bool
  contains [] a = false
  contains (x ∷ xs) a = x == a || contains xs a

  -- `xs <= ys` on sets
  abbrev pub subset : List A → List A → Bool
  subset [] ys = true
  subset (x ∷ xs) ys = contains ys x && subset xs ys
