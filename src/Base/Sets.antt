-- ===== src/Base/Sets.antt =====
-- Python's `set` of small values, as a list without repetition.
use mathlib.Core.Path.{◌≡◌, refl}
use mathlib.Core.Bool.{Bool, true, false, not, ◌&&◌, ◌||◌}
use mathlib.Core.List.{List, [], ◌∷◌}
use native.Mathlib.Omega.{arith}
use mcp_gtw.Base.Tests.{if◌then◌else◌}
use mcp_gtw.Base.Equality.{Eq, ◌==◌, ==_iff, ==_refl, contains, subset}

module _ {ℓ} {A : Type ℓ} ⦃e : Eq A⦄ where
  -- s.add(a)
  unfoldable pub add : List A → A → List A
  add [] a = a ∷ []
  add (x ∷ s) a = if x == a then x ∷ s else x ∷ add s a

  -- s.discard(a)
  unfoldable pub discard : List A → A → List A
  discard [] a = []
  discard (x ∷ s) a = let rest = discard s a in if x == a then rest else x ∷ rest

  pub contains-add : (s : List A) (a b : A) → contains (add s a) b ≡ (a == b || contains s b)
  unfolding add
  contains-add [] a b = ground arith
  contains-add (x ∷ s) a b = ground (arith, contains-add s a b, ==_iff x a, ==_iff x b, ==_iff a b)

  pub contains-discard :
      (s : List A) (a b : A) → contains (discard s a) b ≡ (not (a == b) && contains s b)
  unfolding discard
  contains-discard [] a b = ground arith
  contains-discard (x ∷ s) a b =
      ground (arith, contains-discard s a b, ==_iff x a, ==_iff x b, ==_iff a b)

module _ {ℓ} {A : Type ℓ} where
  -- `not s`
  abbrev pub is_empty : List A → Bool
  is_empty [] = true
  is_empty (x ∷ s) = false

module _ {ℓ} {A : Type ℓ} ⦃e : Eq A⦄ where
  pub subset-contains :
      (xs ys : List A) (a : A) → subset xs ys ≡ true → contains xs a ≡ true → contains ys a ≡ true
  subset-contains [] ys a h m = cc
  subset-contains (x ∷ xs) ys a h m = ground (arith, subset-contains xs ys a, ==_iff x a)

  pub subset-each :
      (xs ys : List A)
      → ((a : A) → contains xs a ≡ true → contains ys a ≡ true)
      → subset xs ys ≡ true
  subset-each [] ys h = refl
  subset-each (x ∷ xs) ys h =
      ground (arith, subset-each xs ys (λ a m. h a (ground arith)), h x, ==_refl x)

  -- set(values)
  unfoldable pub as_set : List A → List A
  unfolding add
  as_set [] = []
  as_set (value ∷ values) = add (as_set values) value

  pub contains-as_set : (xs : List A) (a : A) → contains (as_set xs) a ≡ contains xs a
  unfolding as_set
  contains-as_set [] a = refl
  contains-as_set (x ∷ xs) a = ground (arith, contains-as_set xs a, contains-add (as_set xs) x a)
