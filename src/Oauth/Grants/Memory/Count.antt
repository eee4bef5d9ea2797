-- ===== src/Oauth/Grants/Memory/Count.antt =====
-- src/mcpgtw/oauth/channel_grants.py: the dictionaries of the store, one per owner: what stands under
-- an owner and a channel after each change, and how many grants there are.
use mcp_gtw.Base.{
  ℕ, String, Bool, false, [], ◌∷◌, ◌≡◌, ◌≤◌, refl, arith, text_eq, ◌==◌, ==_iff, ◌&&◌, ltb, ◌+◌,
  length, keep_if, length-keep_if, subset, contains, Bool-cases, inl, inr, sym,
}
use mcp_gtw.Dict.{Dict, get, has, set, pop, keys, map_values}
use mcp_gtw.Dict.Laws.{IsDistinct, length-pop}
use mcp_gtw.Oauth.Grants.{Principal, Grant, current, allows}
use mcp_gtw.Oauth.Grants.Memory.{Owned, owned_or_empty, total, holders, no_empty}

-- the dictionary of an owner
abbrev pub owned_by : Dict String Owned → String → Owned
owned_by g o = owned_or_empty (get g o)

abbrev pub AllDistinct : Dict String Owned → Type 0
AllDistinct [] = Unit
AllDistinct ((o, d) ∷ rest) = IsDistinct d × AllDistinct rest

pub owned_by-IsDistinct :
    (g : Dict String Owned) (o : String) → AllDistinct g → IsDistinct (owned_by g o)
unfolding get
owned_by-IsDistinct [] o h = tt
owned_by-IsDistinct ((j, d) ∷ rest) o h = elim (Bool-cases (j == o)) [
  | inl here ↦ rw (here, get) h.0
  | inr later ↦ rw (later, get) (owned_by-IsDistinct rest o h.1)
]

pub set-AllDistinct :
    (g : Dict String Owned) (o : String) (d : Owned)
    → AllDistinct g
    → IsDistinct d
    → AllDistinct (set g o d)
unfolding set
set-AllDistinct [] o d h k = (k, tt)
set-AllDistinct ((j, e) ∷ rest) o d h k = ground (arith, set-AllDistinct rest o d h.1 k)

pub pop-AllDistinct : (g : Dict String Owned) (o : String) → AllDistinct g → AllDistinct (pop g o)
unfolding pop
pop-AllDistinct [] o h = tt
pop-AllDistinct ((j, e) ∷ rest) o h = ground (arith, pop-AllDistinct rest o h.1)

module _ (p : String × Grant → Bool) where
  has-keep_if : (d : Owned) (c : String) → has d c ≡ false → has (keep_if p d) c ≡ false
  unfolding get
  has-keep_if [] c h = refl
  has-keep_if ((j, g) ∷ rest) c h = ground (arith, has-keep_if rest c)

  pub keep_if-IsDistinct : (d : Owned) → IsDistinct d → IsDistinct (keep_if p d)
  keep_if-IsDistinct [] h = tt
  keep_if-IsDistinct ((j, g) ∷ rest) h =
      ground (arith, keep_if-IsDistinct rest h.1, has-keep_if rest j)

-- what the purge keeps of the grants of an owner
pub get-unexpired :
    (now : ℕ) (d : Owned) (c : String)
    → IsDistinct d
    → get (keep_if (λ e. ltb now e.1.expires_at) d) c ≡ current now (get d c)
unfolding get
get-unexpired now [] c h = refl
get-unexpired now ((j, g) ∷ rest) c h = ground (arith, get-unexpired now rest c h.1, ==_iff j c)

pub contains-channels :
    (now : ℕ) (p : Principal) (d : Owned) (c : String)
    → IsDistinct d
    → contains (keys (keep_if (λ e. subset p.scopes e.1.scopes && ltb now e.1.expires_at) d)) c
      ≡ allows p (current now (get d c))
unfolding get
contains-channels now p [] c h = refl
contains-channels now p ((j, g) ∷ rest) c h =
    ground (arith, contains-channels now p rest c h.1, ==_iff j c)

-- the dictionaries of the owners, changed one by one
module _ (f : Owned → Owned) (empty : f [] ≡ []) where
  pub owned_by-map_values :
      (g : Dict String Owned) (o : String) → owned_by (map_values f g) o ≡ f (owned_by g o)
  unfolding get
  owned_by-map_values [] o = sym empty
  owned_by-map_values ((j, d) ∷ rest) o = elim (Bool-cases (j == o)) [
    | inl here ↦ rw (here, get) refl
    | inr later ↦ rw (later, get) (owned_by-map_values rest o)
  ]

  has-map_values : (g : Dict String Owned) (o : String) → has (map_values f g) o ≡ has g o
  unfolding get
  has-map_values [] o = refl
  has-map_values ((j, d) ∷ rest) o = ground (arith, has-map_values rest o)

  pub map_values-IsDistinct : (g : Dict String Owned) → IsDistinct g → IsDistinct (map_values f g)
  map_values-IsDistinct [] h = tt
  map_values-IsDistinct ((j, d) ∷ rest) h =
      ground (arith, map_values-IsDistinct rest h.1, has-map_values rest j)

  pub map_values-AllDistinct :
      ((d : Owned) → IsDistinct d → IsDistinct (f d))
      → (g : Dict String Owned) → AllDistinct g
      → AllDistinct (map_values f g)
  map_values-AllDistinct k [] h = tt
  map_values-AllDistinct k ((j, d) ∷ rest) h = (k d h.0, map_values-AllDistinct k rest h.1)

has-no_empty : (g : Dict String Owned) (o : String) → has g o ≡ false → has (no_empty g) o ≡ false
unfolding get
has-no_empty [] o h = refl
has-no_empty ((j, d) ∷ rest) o h = ground (arith, has-no_empty rest o)

pub owned_by-no_empty :
    (g : Dict String Owned) (o : String) → IsDistinct g → owned_by (no_empty g) o ≡ owned_by g o
unfolding get
owned_by-no_empty [] o h = refl
owned_by-no_empty ((j, []) ∷ rest) o h =
    ground (arith, owned_by-no_empty rest o h.1, has-no_empty rest o, ==_iff j o)
owned_by-no_empty ((j, x ∷ d) ∷ rest) o h = ground (arith, owned_by-no_empty rest o h.1)

pub no_empty-IsDistinct : (g : Dict String Owned) → IsDistinct g → IsDistinct (no_empty g)
no_empty-IsDistinct [] h = tt
no_empty-IsDistinct ((j, d) ∷ rest) h =
    ground (arith, no_empty-IsDistinct rest h.1, has-no_empty rest j)

pub no_empty-AllDistinct : (g : Dict String Owned) → AllDistinct g → AllDistinct (no_empty g)
no_empty-AllDistinct [] h = tt
no_empty-AllDistinct ((j, d) ∷ rest) h = ground (arith, no_empty-AllDistinct rest h.1)

pub total-no_empty : (g : Dict String Owned) → total (no_empty g) ≡ total g
unfolding total
total-no_empty [] = refl
total-no_empty ((j, []) ∷ rest) = ground (arith, total-no_empty rest)
total-no_empty ((j, x ∷ d) ∷ rest) = ground (arith, total-no_empty rest)

pub total-set :
    (g : Dict String Owned) (o : String) (d : Owned)
    → total (set g o d) + length (owned_by g o) ≡ total g + length d
unfolding total set get
total-set [] o d = ground arith
total-set ((j, e) ∷ rest) o d = ground (arith, total-set rest o d)

pub total-pop :
    (g : Dict String Owned) (o : String)
    → IsDistinct g
    → total (pop g o) + length (owned_by g o) ≡ total g
unfolding total pop get
total-pop [] o h = ground arith
total-pop ((j, e) ∷ rest) o h = ground (arith, total-pop rest o h.1, ==_iff j o)

pub total-holders :
    (g : Dict String Owned) (c : String)
    → AllDistinct g
    → total (map_values (λ d. pop d c) g) + holders c g ≡ total g
unfolding total holders
total-holders [] c h = ground arith
total-holders ((j, d) ∷ rest) c h = ground (arith, total-holders rest c h.1, length-pop d c h.0)

pub total-unexpired :
    (now : ℕ) (g : Dict String Owned)
    → total (map_values (λ d. keep_if (λ e. ltb now e.1.expires_at) d) g) ≤ total g
unfolding total
total-unexpired now [] = ground arith
total-unexpired now ((j, d) ∷ rest) =
    ground (arith, total-unexpired now rest, length-keep_if (λ e. ltb now e.1.expires_at) d)
