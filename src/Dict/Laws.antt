-- ===== src/Dict/Laws.antt =====
-- What the operations of a dictionary do to its entries, in `if` form, and to its size.
use mcp_gtw.Base.{
  suc, ◌+◌, ◌≤◌, false, ◌≡◌, refl, none, some, [], ◌∷◌, ◌++◌, Eq, ◌==◌, ==_iff, length,
  if◌then◌else◌, arith,
}
use mcp_gtw.Dict.{Dict, get, has, set, pop}

module _ {ℓ κ} {K : Type ℓ} {V : Type κ} ⦃e : Eq K⦄ where
  pub get-set :
      (d : Dict K V) (k : K) (v : V) (j : K)
      → get (set d k v) j ≡ (if k == j then some v else get d j)
  unfolding get set
  get-set [] k v j = refl
  get-set ((i, w) ∷ d) k v j = ground (arith, ==_iff i k, ==_iff i j, ==_iff k j, get-set d k v j)

  pub get-pop : (d : Dict K V) (k j : K) → get (pop d k) j ≡ (if k == j then none else get d j)
  unfolding get pop
  get-pop [] k j = ground arith
  get-pop ((i, w) ∷ d) k j = ground (arith, ==_iff i k, ==_iff i j, ==_iff k j, get-pop d k j)

  -- No key stands twice.
  abbrev pub IsDistinct : Dict K V → Type 0
  IsDistinct [] = Unit
  IsDistinct ((j, v) ∷ d) = (has d j ≡ false) × IsDistinct d

  pub set-IsDistinct : (d : Dict K V) (k : K) (v : V) → IsDistinct d → IsDistinct (set d k v)
  unfolding set get
  set-IsDistinct [] k v h = (refl, tt)
  set-IsDistinct ((j, w) ∷ d) k v h =
      ground (arith, set-IsDistinct d k v h.1, get-set d k v j, ==_iff j k, ==_iff k j)

  pub pop-IsDistinct : (d : Dict K V) (k : K) → IsDistinct d → IsDistinct (pop d k)
  unfolding pop
  pop-IsDistinct [] k h = tt
  pop-IsDistinct ((j, w) ∷ d) k h = ground (arith, pop-IsDistinct d k h.1, get-pop d k j)

  pub length-set :
      (d : Dict K V) (k : K) (v : V)
      → length (set d k v) ≡ (if has d k then length d else suc (length d))
  unfolding set get
  length-set [] k v = refl
  length-set ((j, w) ∷ d) k v = ground (arith, length-set d k v)

  pub length-pop-le : (d : Dict K V) (k : K) → length (pop d k) ≤ length d
  unfolding pop
  length-pop-le [] k = ground arith
  length-pop-le ((j, w) ∷ d) k = ground (arith, length-pop-le d k)

  pub pop_absent : (d : Dict K V) (k : K) → get d k ≡ none → pop d k ≡ d
  unfolding pop get
  pop_absent [] k h = refl
  pop_absent ((j, w) ∷ d) k h = ground (arith, pop_absent d k)

  -- Removing a present key of a dictionary makes it one entry shorter.
  pub length-pop :
      (d : Dict K V) (k : K)
      → IsDistinct d
      → length (pop d k) + (if has d k then 1 else 0) ≡ length d
  unfolding pop get
  length-pop [] k h = ground arith
  length-pop ((j, w) ∷ d) k h = ground (arith, length-pop d k h.1, pop_absent d k, ==_iff j k)

  -- A new key goes to the end.
  pub set_absent : (d : Dict K V) (k : K) (v : V) → get d k ≡ none → set d k v ≡ d ++ (k, v) ∷ []
  unfolding set get
  set_absent [] k v h = refl
  set_absent ((j, w) ∷ d) k v h = ground (arith, set_absent d k v)

  pub get-pop_self : (d : Dict K V) (k : K) → get (pop d k) k ≡ none
  get-pop_self d k = ground (arith, get-pop d k k, ==_iff k k)

pub ruleset dict_laws = (get-set, get-pop)
