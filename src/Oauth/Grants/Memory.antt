-- ===== src/Oauth/Grants/Memory.antt =====
-- src/mcpgtw/oauth/channel_grants.py: `MemoryChannelGrantStore`, the grants by owner and channel and
-- their number.
pub mod Count
pub mod Contract
use mcp_gtw.Base.{
  ℕ, suc, String, Bool, true, false, Option, none, some, List, [], ◌∷◌, text_eq, ◌==◌, ◌&&◌, not,
  ltb, leb, ◌-◌, ◌+◌, length, keep_if, subset, is_empty, if◌then◌else◌,
}
use mcp_gtw.Errors.{Result, ok, err, value_error}
use mcp_gtw.Dict.{Dict, get, has, set, pop, keys, map_values}
use mcp_gtw.Oauth.Grants.{Principal, Grant, GrantOps, granted_to}

abbrev pub Owned : Type 0
Owned = Dict String Grant

pub record MemoryGrants : Type 0 where
  pub maximum_grants : ℕ
  pub grants : Dict String Owned
  pub count : ℕ

unfoldable pub new_memory_grants : ℕ → MemoryGrants
new_memory_grants maximum_grants = record {
  maximum_grants = maximum_grants;
  grants = [];
  count = 0;
}

-- `__init__`
unfoldable pub open_memory_grants : ℕ → Result MemoryGrants
open_memory_grants maximum_grants =
    if ltb maximum_grants 1
    then err (value_error "maximum_grants must be positive")
    else ok (new_memory_grants maximum_grants)

-- `self._grants.get(owner, {})`
abbrev pub owned_or_empty : Option Owned → Owned
owned_or_empty none = []
owned_or_empty (some channels) = channels

-- `sum(map(len, self._grants.values()))`
unfoldable pub total : Dict String Owned → ℕ
total [] = 0
total ((owner, channels) ∷ rest) = length channels + total rest

abbrev pub no_empty : Dict String Owned → Dict String Owned
no_empty grants = keep_if (λ e. not (is_empty e.1)) grants

unfoldable pub channels : ℕ → Principal → MemoryGrants → List String
channels now p s = keys (
    keep_if (λ e. subset p.scopes e.1.scopes && ltb now e.1.expires_at)
      (owned_or_empty (get s.grants p.principal_id)))

unfoldable pub purge : ℕ → MemoryGrants → MemoryGrants
purge now s =
    let kept =
      no_empty (map_values (λ owned. keep_if (λ e. ltb now e.1.expires_at) owned) s.grants) in
    record s { grants = kept; count = total kept }

-- `grant` after the purge
unfoldable pub grant_locked : Principal → String → MemoryGrants → Result (Unit {0}) × MemoryGrants
grant_locked p channel_id s =
    let owned = owned_or_empty (get s.grants p.principal_id) in
    let granted = set s.grants p.principal_id (set owned channel_id (granted_to p)) in
    if has owned channel_id
    then (ok tt, record s { grants = granted })
    else if leb s.maximum_grants s.count
    then (err (value_error "Grant capacity exceeded"), s)
    else (ok tt, record s { grants = granted; count = suc s.count })

unfoldable pub grant : ℕ → Principal → String → MemoryGrants → Result (Unit {0}) × MemoryGrants
grant now p channel_id s =
    grant_locked p channel_id (if leb s.maximum_grants s.count then purge now s else s)

-- the dictionary of the owner is changed in place, and goes when it is empty
unfoldable pub revoke : Principal → String → MemoryGrants → MemoryGrants
revoke p channel_id s =
    let owned = owned_or_empty (get s.grants p.principal_id) in
    let rest = pop owned channel_id in
    if has owned channel_id
    then record s {
      grants =
          if is_empty rest then pop s.grants p.principal_id else set s.grants p.principal_id rest;
      count = s.count - 1;
    }
    else s

-- how many owners have a grant of the channel
unfoldable pub holders : String → Dict String Owned → ℕ
holders channel_id [] = 0
holders channel_id ((owner, owned) ∷ rest) =
    (if has owned channel_id then 1 else 0) + holders channel_id rest

unfoldable pub remove_channel : String → MemoryGrants → MemoryGrants
remove_channel channel_id s = record s {
  grants = no_empty (map_values (λ owned. pop owned channel_id) s.grants);
  count = s.count - holders channel_id s.grants;
}

unfoldable pub memory_grants : GrantOps MemoryGrants
memory_grants = record {
  channels = λ now p s. (ok (channels now p s), s);
  grant = grant;
  revoke = λ now p id s. (ok tt, revoke p id s);
  remove_channel = λ now id s. (ok tt, remove_channel id s);
}
