-- ===== src/Oauth/Grants/Memory/Contract.antt =====
-- src/mcpgtw/oauth/channel_grants.py: the process-local store keeps what a store of grants promises, and
-- its counter is the number of its grants.
use mcp_gtw.Base.{
  ℕ, String, true, Option, none, some, [], ◌∷◌, ◌≡◌, ◌≤◌, refl, arith, text_eq, ◌==◌, ==_iff, ◌&&◌,
  ltb, leb, length, keep_if, is_empty, Bool-cases, inl, inr, ap, ◌∙◌, if◌then◌else◌,
}
use mcp_gtw.Dict.{Dict, get, has, set, pop, map_values}
use mcp_gtw.Dict.Laws.{
  IsDistinct, set-IsDistinct, pop-IsDistinct, length-pop, length-set, get-set, get-pop,
}
use mcp_gtw.Oauth.Grants.{Principal, Grant, IsGrantStore, current, granted_to, is_ok}
use mcp_gtw.Oauth.Grants.Memory.{
  Owned, MemoryGrants, total, channels, purge, grant_locked, grant, revoke, remove_channel,
  memory_grants,
}
use mcp_gtw.Oauth.Grants.Memory.Count.{
  owned_by, AllDistinct, owned_by-IsDistinct, set-AllDistinct, pop-AllDistinct, keep_if-IsDistinct,
  get-unexpired, contains-channels, owned_by-map_values, map_values-IsDistinct,
  map_values-AllDistinct, owned_by-no_empty, no_empty-IsDistinct, no_empty-AllDistinct,
  total-unexpired, total-no_empty, total-set, total-pop, total-holders,
}

-- what stands under an owner and a channel, expired or not
abbrev pub lookup : MemoryGrants → String → String → Option Grant
lookup s o c = get (owned_by s.grants o) c

pub record IsValid (s : MemoryGrants) : Type 0 where
  pub owners : IsDistinct s.grants
  pub each : AllDistinct s.grants
  pub counted : s.count ≡ total s.grants
  pub bounded : s.count ≤ s.maximum_grants

abbrev kept : ℕ → Owned → Owned
kept now owned = keep_if (λ e. ltb now e.1.expires_at) owned

module _ (now : ℕ) (s : MemoryGrants) (h : IsValid s) where
  purge-IsValid : IsValid (purge now s)
  unfolding purge
  purge-IsValid =
      let mapped = map_values (kept now) s.grants in
      record {
        owners =
            no_empty-IsDistinct mapped (map_values-IsDistinct (kept now) refl s.grants h.owners);
        each = no_empty-AllDistinct mapped (
            map_values-AllDistinct (kept now) refl
              (λ d k. keep_if-IsDistinct (λ e. ltb now e.1.expires_at) d k) s.grants h.each);
        counted = refl;
        bounded =
            ground
              (arith, h.counted, h.bounded, total-no_empty mapped, total-unexpired now s.grants);
      }

  lookup-purge : (o c : String) → lookup (purge now s) o c ≡ current now (lookup s o c)
  unfolding purge
  lookup-purge o c =
      ap (λ (d : Owned). get d c)
        (owned_by-no_empty (map_values (kept now) s.grants) o
            (map_values-IsDistinct (kept now) refl s.grants h.owners)
          ∙ owned_by-map_values (kept now) refl s.grants o)
      ∙ get-unexpired now (owned_by s.grants o) c (owned_by-IsDistinct s.grants o h.each)

lookup-set :
    (g : Dict String Owned) (owner : String) (d : Owned) (o c : String)
    → get (owned_by (set g owner d) o) c ≡ (if owner == o then get d c else get (owned_by g o) c)
lookup-set g owner d o c = ground (arith, get-set g owner d o)

lookup-pop :
    (g : Dict String Owned) (owner : String) (o c : String)
    → get (owned_by (pop g owner) o) c ≡ (if owner == o then none else get (owned_by g o) c)
unfolding get
lookup-pop g owner o c = ground (arith, get-pop g owner o)

length-is_empty : (d : Owned) → is_empty d ≡ true → length d ≡ 0
length-is_empty [] h = refl
length-is_empty (x ∷ d) h = cc

get-is_empty : (d : Owned) (c : String) → is_empty d ≡ true → get d c ≡ none
unfolding get
get-is_empty [] c h = refl
get-is_empty (x ∷ d) c h = cc

module _ (p : Principal) (id : String) (s : MemoryGrants) (h : IsValid s) where
  owned : Owned
  owned = owned_by s.grants p.principal_id

  granted : Owned
  granted = set owned id (granted_to p)

  grant_locked-IsValid : IsValid (grant_locked p id s).1
  unfolding grant_locked owned granted
  grant_locked-IsValid =
      let each = set-AllDistinct s.grants p.principal_id granted h.each (
        set-IsDistinct owned id (granted_to p)
          (owned_by-IsDistinct s.grants p.principal_id h.each)) in
      let owners = set-IsDistinct s.grants p.principal_id granted h.owners in
      let size = total-set s.grants p.principal_id granted in
      let longer = length-set owned id (granted_to p) in
      elim (Bool-cases (has owned id)) [
        | inl present ↦
            rw (present, grant_locked)
              (record {
                owners = owners;
                each = each;
                counted = ground (arith, h.counted);
                bounded = ground (arith, h.bounded);
              })
        | inr absent ↦ elim (Bool-cases (leb s.maximum_grants s.count)) [
          | inl full ↦ rw (absent, full, grant_locked) h
          | inr room ↦
              rw (absent, room, grant_locked)
                (record {
                  owners = owners;
                  each = each;
                  counted = ground (arith, h.counted);
                  bounded = ground (arith, h.bounded);
                })
        ]
      ]

  lookup-grant_locked :
      (o c : String)
      → lookup (grant_locked p id s).1 o c ≡ (
          if is_ok (grant_locked p id s).0 && (p.principal_id == o && id == c)
          then some (granted_to p)
          else lookup s o c)
  unfolding grant_locked owned granted
  lookup-grant_locked o c =
      let outer = lookup-set s.grants p.principal_id granted o c in
      let inner = get-set owned id (granted_to p) c in
      ground (arith, outer, inner, ==_iff p.principal_id o)

  revoke-IsValid : IsValid (revoke p id s)
  unfolding revoke owned
  revoke-IsValid = elim (Bool-cases (has owned id)) [
    | inr absent ↦ rw (absent, revoke) h
    | inl present ↦
        let mine = owned_by-IsDistinct s.grants p.principal_id h.each in
        let shorter = length-pop owned id mine in
        elim (Bool-cases (is_empty (pop owned id))) [
          | inl none_left ↦
              rw (present, none_left, revoke)
                (record {
                  owners = pop-IsDistinct s.grants p.principal_id h.owners;
                  each = pop-AllDistinct s.grants p.principal_id h.each;
                  counted = ground (
                    arith,
                    h.counted,
                    total-pop s.grants p.principal_id h.owners,
                    length-is_empty (pop owned id) none_left,
                  );
                  bounded = ground (arith, h.bounded);
                })
          | inr some_left ↦
              rw (present, some_left, revoke)
                (record {
                  owners = set-IsDistinct s.grants p.principal_id (pop owned id) h.owners;
                  each =
                      set-AllDistinct s.grants p.principal_id (pop owned id) h.each
                        (pop-IsDistinct owned id mine);
                  counted =
                      ground (arith, h.counted, total-set s.grants p.principal_id (pop owned id));
                  bounded = ground (arith, h.bounded);
                })
        ]
  ]

  lookup-revoke :
      (o c : String)
      → lookup (revoke p id s) o c ≡ (if p.principal_id == o && id == c then none else lookup s o c)
  unfolding revoke owned
  lookup-revoke o c = elim (Bool-cases (has owned id)) [
    | inr absent ↦ ground (arith, ==_iff p.principal_id o, ==_iff id c)
    | inl present ↦
        let inner = get-pop owned id c in
        elim (Bool-cases (is_empty (pop owned id))) [
          | inl none_left ↦ ground (
            arith,
            inner,
            lookup-pop s.grants p.principal_id o c,
            get-is_empty (pop owned id) c none_left,
            ==_iff p.principal_id o,
          )
          | inr some_left ↦ ground (
            arith,
            inner,
            lookup-set s.grants p.principal_id (pop owned id) o c,
            ==_iff p.principal_id o,
          )
        ]
  ]

module _ (id : String) (s : MemoryGrants) (h : IsValid s) where
  remove_channel-IsValid : IsValid (remove_channel id s)
  unfolding remove_channel pop
  remove_channel-IsValid =
      let mapped = map_values (λ d. pop d id) s.grants in
      record {
        owners =
            no_empty-IsDistinct mapped
              (map_values-IsDistinct (λ d. pop d id) refl s.grants h.owners);
        each = no_empty-AllDistinct mapped (
            map_values-AllDistinct (λ d. pop d id) refl (λ d k. pop-IsDistinct d id k) s.grants
              h.each);
        counted =
            ground (arith, h.counted, total-no_empty mapped, total-holders s.grants id h.each);
        bounded = ground (arith, h.bounded);
      }

  lookup-remove_channel :
      (o c : String) → lookup (remove_channel id s) o c ≡ (if id == c then none else lookup s o c)
  unfolding remove_channel pop
  lookup-remove_channel o c =
      ap (λ (d : Owned). get d c)
        (owned_by-no_empty (map_values (λ d. pop d id) s.grants) o
            (map_values-IsDistinct (λ d. pop d id) refl s.grants h.owners)
          ∙ owned_by-map_values (λ d. pop d id) refl s.grants o)
      ∙ get-pop (owned_by s.grants o) id c

module _ (now : ℕ) (p : Principal) (id : String) (s : MemoryGrants) (h : IsValid s) where
  grant-IsValid : IsValid (grant now p id s).1
  unfolding grant
  grant-IsValid = elim (Bool-cases (leb s.maximum_grants s.count)) [
    | inl full ↦ rw (full, grant) (grant_locked-IsValid p id (purge now s) (purge-IsValid now s h))
    | inr room ↦ rw (room, grant) (grant_locked-IsValid p id s h)
  ]

  grant-grants :
      (later : ℕ) (o c : String)
      → now ≤ later
      → current later (lookup (grant now p id s).1 o c) ≡ (
          if is_ok (grant now p id s).0 && (p.principal_id == o && id == c)
          then current later (some (granted_to p))
          else current later (lookup s o c))
  unfolding grant
  grant-grants later o c le = elim (Bool-cases (leb s.maximum_grants s.count)) [
    | inl full ↦
        let purged = lookup-purge now s h o c in
        let granted = lookup-grant_locked p id (purge now s) (purge-IsValid now s h) o c in
        ground (arith, purged, granted)
    | inr room ↦ ground (arith, lookup-grant_locked p id s h o c)
  ]

-- The process-local store keeps the promises of a store of grants. Its valid states are those in
-- which the counter is the number of grants and at most the maximum: a grant that returns stands
-- until it expires, a grant that raises takes nothing that has not expired, a revocation and a
-- removal take exactly what they name, and `channels` lists exactly the channels that are granted,
-- unexpired, with every scope of the principal.
pub memory_grants-IsGrantStore : IsGrantStore memory_grants IsValid lookup
unfolding memory_grants channels
memory_grants-IsGrantStore = record {
  channels-valid = λ now p s h. h;
  grant-valid = λ now p id s h. grant-IsValid now p id s h;
  revoke-valid = λ now p id s h. revoke-IsValid p id s h;
  remove-valid = λ now id s h. remove_channel-IsValid id s h;
  channels-answer = λ now p s h id.
      contains-channels now p (owned_by s.grants p.principal_id) id
        (owned_by-IsDistinct s.grants p.principal_id h.each);
  channels-keeps = λ now later p s o c h le. refl;
  grant-grants = λ now later p id s o c h le. grant-grants now p id s h later o c le;
  revoke-revokes = λ now later p id s o c h le. ground (arith, lookup-revoke p id s h o c);
  remove-removes = λ now later id s o c h le. ground (arith, lookup-remove_channel id s h o c);
}
