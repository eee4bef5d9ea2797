-- ===== src/Oauth/Grants/Access.antt =====
-- src/mcpgtw/oauth/channel_access.py: `DenyUnlessGranted`, a client of any store of grants.
use mcp_gtw.Base.{
  ℕ, String, true, false, Option, none, some, List, [], ◌∷◌, ◌≡◌, refl, arith, as_set, add,
  contains-as_set, ◌⊎◌, inl, inr, ap, ==_refl, text_eq, ◌==◌, ==_iff, ◌||◌, contains, if◌then◌else◌,
}
use mcp_gtw.Errors.{Result, ok, err}
use mcp_gtw.Oauth.Grants.{Principal, Grant, GrantOps, IsGrantStore, IsAnswer, current, allows}

-- a set is a list here, so that its elements are counted without repetition
-- `next(iter(channels)) if len(channels) == 1 else None`
unfoldable pub only : List String → Option String
only [] = none
only (id ∷ []) = some id
only (id ∷ more ∷ ids) = none

unfoldable pub choose : String → List String → Option String
choose addressed ids =
    if addressed == ""
    then only (as_set ids)
    else if contains ids addressed
    then some addressed
    else none

unfoldable pub resolved : String → Result (List String) → Result (Option String)
resolved addressed (ok ids) = ok (choose addressed ids)
resolved addressed (err e) = err e

module _ {Store : Type 0} (ops : GrantOps Store) where
  unfoldable pub resolve : ℕ → Principal → String → Store → Result (Option String) × Store
  resolve now p addressed s =
      let (answer, s') = ops.channels now p s in (resolved addressed answer, s')

  unfoldable pub on_channel_removed : ℕ → String → Store → Result (Unit {0}) × Store
  on_channel_removed now channel_id s = ops.remove_channel now channel_id s

only-contains : (ids : List String) (id : String) → only ids ≡ some id → contains ids id ≡ true
unfolding only
only-contains [] id h = cc
only-contains (x ∷ []) id h = ground (arith, ==_iff x id)
only-contains (x ∷ y ∷ ids) id h = cc

-- a list whose elements are all the same is a set of at most one
each-as_set :
    (ids : List String) (id : String)
    → ((other : String) → contains ids other ≡ true → other ≡ id)
    → (as_set ids ≡ []) ⊎ (as_set ids ≡ id ∷ [])
unfolding as_set add
each-as_set [] id each = inl refl
each-as_set (x ∷ ids) id each =
    elim (each-as_set ids id (λ other listed. each other (ground arith))) [
      | inl none_else ↦ inr (rw (none_else) (ap (λ y. y ∷ []) (each x (ground (arith, ==_refl x)))))
      | inr one_else ↦ inr (rw (one_else, each x (ground (arith, ==_refl x)), ==_refl id) refl)
    ]

only-none :
    (ids : List String) (id : String)
    → contains ids id ≡ true
    → ((other : String) → contains ids other ≡ true → other ≡ id)
    → only (as_set ids) ≡ none
    → ⊥
unfolding only
only-none ids id listed each h = elim (each-as_set ids id each) [
  | inl empty ↦ cc (contains-as_set ids id, ap (λ s. contains s id) empty, listed)
  | inr one ↦ cc (h, ap only one)
]

only-singleton : (s : List String) (id : String) → only s ≡ some id → s ≡ id ∷ []
unfolding only
only-singleton [] id h = cc
only-singleton (x ∷ []) id h = ground arith
only-singleton (x ∷ y ∷ s) id h = cc

only_unique :
    (ids : List String) (id : String)
    → only (as_set ids) ≡ some id
    → (other : String) → contains ids other ≡ true
    → other ≡ id
only_unique ids id h other listed = ground (
  arith,
  contains-as_set ids other,
  ap (λ s. contains s other) (only-singleton (as_set ids) id h),
  ==_iff id other,
)

choose-contains :
    (addressed : String) (ids : List String) (id : String)
    → choose addressed ids ≡ some id
    → (contains ids id ≡ true) × ((addressed == "" || addressed == id) ≡ true)
unfolding choose
choose-contains addressed ids id h =
    ground (arith, only-contains (as_set ids) id, contains-as_set ids id, ==_iff addressed id)

-- all that is granted is one channel
abbrev pub IsOnly : (String → Option Grant) → Principal → String → Type 0
IsOnly granted p id = (other : String) → allows p (granted other) ≡ true → other ≡ id

-- what `resolve` may answer
abbrev pub IsResolution :
    (String → Option Grant) → Principal → String → Result (Option String) → Type 0
IsResolution granted p addressed (err e) = Unit
IsResolution granted p addressed (ok none) =
    (addressed == "" ≡ false → allows p (granted addressed) ≡ false)
    × (addressed == "" ≡ true
        → (id : String) → allows p (granted id) ≡ true
        → IsOnly granted p id
        → ⊥)
IsResolution granted p addressed (ok (some id)) =
    (allows p (granted id) ≡ true)
    × ((addressed == "" || addressed == id) ≡ true)
    × (addressed == "" ≡ true → IsOnly granted p id)

choose-IsResolution :
    (granted : String → Option Grant) (p : Principal) (addressed : String) (ids : List String)
    → IsAnswer granted p (ok ids)
    → (o : Option String) → choose addressed ids ≡ o
    → IsResolution granted p addressed (ok o)
unfolding choose
choose-IsResolution granted p addressed ids answer none e = (
  λ named. ground (arith, answer addressed),
  λ unaddressed id allowed unique.
      only-none ids id (ground (arith, answer id))
        (λ other listed. unique other (ground (arith, answer other))) (ground arith),
)
choose-IsResolution granted p addressed ids answer (some id) e =
    let (listed, right) = choose-contains addressed ids id e in
    (
      ground (arith, answer id),
      right,
      λ unaddressed other allowed.
          only_unique ids id (ground arith) other (ground (arith, answer other)),
    )

-- With any store of grants that keeps its promises: a channel that `resolve` answers is one that the
-- principal was granted, unexpired and with every scope of the request, and it is the addressed
-- one if one is addressed, and the only one so granted if none is; and neither an addressed channel
-- that is so granted nor, if none is addressed, the only one is refused.
pub resolve-IsResolution :
    {Store : Type 0} (ops : GrantOps Store) (IsValid : Store → Type 0)
    (lookup : Store → String → String → Option Grant) (now : ℕ) (p : Principal) (addressed : String)
    (s : Store)
    → IsGrantStore ops IsValid lookup
    → IsValid s
    → IsResolution
        (λ id. current now (lookup s p.principal_id id))
        p
        addressed
        (resolve ops now p addressed s).0
unfolding resolve resolved
resolve-IsResolution ops IsValid lookup now p addressed s laws valid =
    go (ops.channels now p s).0 (laws.channels-answer now p s valid)
  where
    go :
        (answer : Result (List String))
        → IsAnswer (λ id. current now (lookup s p.principal_id id)) p answer
        → IsResolution
            (λ id. current now (lookup s p.principal_id id))
            p
            addressed
            (resolved addressed answer)
    go (ok ids) answer =
        choose-IsResolution (λ id. current now (lookup s p.principal_id id)) p addressed ids answer
          (choose addressed ids) refl
    go (err e) answer = tt
