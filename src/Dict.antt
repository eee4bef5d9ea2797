-- ===== src/Dict.antt =====
-- Python's `dict`: entries in insertion order. Assigning to a present key keeps its place.
pub mod Laws
use mcp_gtw.Base.{
  ℕ, Bool, true, false, ◌||◌, ◌&&◌, not, ◌≡◌, Option, none, some, List, [], ◌∷◌, Eq, ◌==◌, length,
  if◌then◌else◌, is_some,
}

abbrev pub Dict {ℓ κ} : Type ℓ → Type κ → Type (ℓ ⊔ κ)
Dict K V = List (K × V)

module _ {ℓ κ} {K : Type ℓ} {V : Type κ} ⦃e : Eq K⦄ where
  -- d.get(k)
  unfoldable pub get : Dict K V → K → Option V
  get [] k = none
  get ((j, v) ∷ d) k = if j == k then some v else get d k

  -- k in d
  abbrev pub has : Dict K V → K → Bool
  has d k = is_some (get d k)

  -- d[k] = v
  unfoldable pub set : Dict K V → K → V → Dict K V
  set [] k v = (k, v) ∷ []
  set ((j, w) ∷ d) k v = if j == k then (j, v) ∷ d else (j, w) ∷ set d k v

  -- d.pop(k, None)
  unfoldable pub pop : Dict K V → K → Dict K V
  pop [] k = []
  pop ((j, w) ∷ d) k = let rest = pop d k in if j == k then rest else (j, w) ∷ rest

module _ {ℓ κ} {K : Type ℓ} {V : Type κ} where
  -- list(d)
  abbrev pub keys : Dict K V → List K
  keys [] = []
  keys ((j, v) ∷ d) = j ∷ keys d

  -- list(d.values())
  abbrev pub values : Dict K V → List V
  values [] = []
  values ((j, v) ∷ d) = v ∷ values d

  -- {k: f(v) for k, v in d.items()}
  abbrev pub map_values {μ} : {W : Type μ} → (V → W) → Dict K V → Dict K W
  map_values f [] = []
  map_values f ((j, v) ∷ d) = (j, f v) ∷ map_values f d
