-- ===== src/Registry/Lookup.antt =====
-- src/mcpgtw/registry.py: which channel a token resolves to, before and after the operations.
use mcp_gtw.Base.{
  ℕ, String, Bool, true, false, none, some, List, [], ◌∷◌, ◌≡◌, refl, arith, text_eq, ◌==◌, ==_iff,
  Bool-cases, Option-cases, inl, inr, ◌&&◌, subst, ap, ◌∙◌, if◌then◌else◌,
}
use mcp_gtw.Errors.{Result, ok, err}
use mcp_gtw.Dict.{Dict, get, has}
use mcp_gtw.Dict.Laws.{get-set, get-pop}
use mcp_gtw.Channel.{Channel, provider_connected as is_connected}
use mcp_gtw.Registry.{Registry, Event, Deadline, resolve, resolve_mcp_token, resolve_provider_token}
use mcp_gtw.Registry.Expiry.{ExpiryPolicy}
use mcp_gtw.Registry.Tokens.{TokenProvider}
use mcp_gtw.Registry.Lifecycle.{
  NewChannel, announce, dispatch, dispatch_to, create_channel, create_locked, enter, remove_channel,
  remove_locked, retire,
}
use mcp_gtw.Registry.Consistency.{IsConsistent}
use mcp_gtw.Registry.Creation.{Outcome, placed, refused, create_locked-Outcome, after}

-- the tables that answer lookups
abbrev pub Tables : Type 0
Tables = Dict String Channel × Dict String String × Dict String String × Dict String Deadline

abbrev pub tables : Registry → Tables
tables r = (r.channels, r.by_mcp_token, r.by_provider_token, r.expiry)

pub tables-dispatch_to :
    (listeners : List ℕ) (event : Event) (c : Channel) (r : Registry)
    → tables (dispatch_to listeners event c r) ≡ tables r
unfolding dispatch_to
tables-dispatch_to [] event c r = refl
tables-dispatch_to (listener ∷ rest) event c r =
    tables-dispatch_to rest event c (record r { dispatched = (listener, event, c) ∷ r.dispatched })

pub tables-retire : (c : Channel) (r : Registry) → tables (retire c r) ≡ tables r
unfolding retire dispatch
tables-retire c r = tables-dispatch_to r.listeners _ _ _

pub resolve_mcp_token-tables :
    (r s : Registry)
    → tables s ≡ tables r
    → (t : String) → resolve_mcp_token s (some t) ≡ resolve_mcp_token r (some t)
unfolding resolve_mcp_token resolve
resolve_mcp_token-tables r s same t =
    ap (λ (k : Tables). elim (get k.1 t) [ none ↦ none | some id ↦ get k.0 id ]) same

pub resolve_provider_token-tables :
    (r s : Registry)
    → tables s ≡ tables r
    → (t : String) → resolve_provider_token s (some t) ≡ resolve_provider_token r (some t)
unfolding resolve_provider_token resolve
resolve_provider_token-tables r s same t =
    ap (λ (k : Tables). elim (get k.2 t) [ none ↦ none | some id ↦ get k.0 id ]) same

-- what `create_channel` promises of a registry before and after it
abbrev pub IsCreated : ExpiryPolicy → ℕ → NewChannel → Registry → Registry → Result Channel → Type 0
IsCreated policy now request r s (err e) = tables s ≡ tables r
IsCreated policy now request r s (ok c) =
    (has r.channels c.channel_id ≡ false)
    × ((id : String)
        → get s.channels id ≡ (if c.channel_id == id then some c else get r.channels id))
    × ((t : String)
        → resolve_mcp_token s (some t)
          ≡ (if c.mcp_token == t then some c else resolve_mcp_token r (some t)))
    × ((t : String)
        → resolve_provider_token s (some t)
          ≡ (if c.provider_token == t then some c else resolve_provider_token r (some t)))
    × (get s.expiry c.channel_id ≡ some (policy.initial_deadline now request.ttl_seconds))

enter-IsCreated :
    (policy : ExpiryPolicy) (now : ℕ) (request : NewChannel) (r : Registry) (n : ℕ) (c : Channel)
    → IsConsistent r
    → has r.channels c.channel_id ≡ false
    → IsCreated policy now request r (enter policy now request c (after n r)) (ok c)
unfolding enter resolve_mcp_token resolve_provider_token resolve
enter-IsCreated policy now request r n c h absent = (
  absent,
  λ id. get-set r.channels c.channel_id c id,
  λ t. elim (Option-cases (get r.by_mcp_token t)) [
    | inl e ↦ ground (
      arith,
      get-set r.by_mcp_token c.mcp_token c.channel_id t,
      get-set r.channels c.channel_id c c.channel_id,
      ==_iff c.channel_id c.channel_id,
    )
    | inr (id, e) ↦
        let (d, found, same) = h.mcp_owned t id e in
        ground (
          arith,
          get-set r.by_mcp_token c.mcp_token c.channel_id t,
          get-set r.channels c.channel_id c c.channel_id,
          get-set r.channels c.channel_id c id,
          ==_iff c.channel_id id,
          ==_iff c.channel_id c.channel_id,
        )
  ],
  λ t. elim (Option-cases (get r.by_provider_token t)) [
    | inl e ↦ ground (
      arith,
      get-set r.by_provider_token c.provider_token c.channel_id t,
      get-set r.channels c.channel_id c c.channel_id,
      ==_iff c.channel_id c.channel_id,
    )
    | inr (id, e) ↦
        let (d, found, same) = h.provider_owned t id e in
        ground (
          arith,
          get-set r.by_provider_token c.provider_token c.channel_id t,
          get-set r.channels c.channel_id c c.channel_id,
          get-set r.channels c.channel_id c id,
          ==_iff c.channel_id id,
          ==_iff c.channel_id c.channel_id,
        )
  ],
  ground (
    arith,
    get-set r.expiry c.channel_id (policy.initial_deadline now request.ttl_seconds) c.channel_id,
    ==_iff c.channel_id c.channel_id,
  ),
)

-- what the lookups see is in the tables
IsCreated-tables :
    (policy : ExpiryPolicy) (now : ℕ) (request : NewChannel) (r s t : Registry) (c : Channel)
    → tables s ≡ tables t
    → IsCreated policy now request r t (ok c)
    → IsCreated policy now request r s (ok c)
IsCreated-tables policy now request r s t c same (absent, found, mcp, provider, deadline) = (
  absent,
  λ id. ap (λ (k : Tables). get k.0 id) same ∙ found id,
  λ u. resolve_mcp_token-tables t s same u ∙ mcp u,
  λ u. resolve_provider_token-tables t s same u ∙ provider u,
  ap (λ (k : Tables). get k.3 c.channel_id) same ∙ deadline,
)

-- `create_channel` on a consistent registry: if it returns a channel then its id was free, lookups by
-- id find it beside the channels there were, each of its two tokens resolves to it, every other
-- token resolves to what it resolved to before, and its deadline is the policy's initial one. If it
-- raises then no lookup changes.
pub create_channel-IsCreated :
    (tokens : TokenProvider) (policy : ExpiryPolicy) (now : ℕ) (request : NewChannel) (r : Registry)
    (x : Result Channel × Registry)
    → IsConsistent r
    → create_channel tokens policy now request r ≡ some x
    → IsCreated policy now request r x.1 x.0
unfolding create_channel dispatch enter
create_channel-IsCreated tokens policy now request r x h e =
    elim (Option-cases (create_locked tokens policy now request r)) [
      | inl q ↦ absurd (ground arith)
      | inr (y, q) ↦
          let found : announce y ≡ x = ground arith in
          subst (λ z. IsCreated policy now request r z.1 z.0) found
            (announced y.0 y.1 (create_locked-Outcome policy now request r tokens y q))
    ]
  where
    announced :
        (res : Result Channel) (s : Registry)
        → Outcome policy now request r res s
        → IsCreated policy now request r (announce (res, s)).1 (announce (res, s)).0
    announced res s (refused n e') = refl
    announced res s (placed n c room absent apart free_mcp free) =
        IsCreated-tables policy now request r _ (enter policy now request c (after n r)) c
          (tables-dispatch_to r.listeners _ c _) (enter-IsCreated policy now request r n c h absent)

-- what `remove_channel` promises
abbrev pub IsRemoved : Registry → Registry → String → Channel → Type 0
IsRemoved r s id c =
    ((j : String) → get s.channels j ≡ (if id == j then none else get r.channels j))
    × ((t : String)
        → resolve_mcp_token s (some t)
          ≡ (if c.mcp_token == t then none else resolve_mcp_token r (some t)))
    × ((t : String)
        → resolve_provider_token s (some t)
          ≡ (if c.provider_token == t then none else resolve_provider_token r (some t)))

remove_locked-IsRemoved :
    (r : Registry) (id : String) (c : Channel)
    → IsConsistent r
    → get r.channels id ≡ some c
    → IsRemoved r (remove_locked id c r) id c
unfolding remove_locked resolve_mcp_token resolve_provider_token resolve
remove_locked-IsRemoved r id c h present = (
  λ j. get-pop r.channels id j,
  λ t. elim (Option-cases (get r.by_mcp_token t)) [
    | inl e ↦ ground (arith, get-pop r.by_mcp_token c.mcp_token t)
    | inr (j, e) ↦
        let (d, found, same) = h.mcp_owned t j e in
        ground (
          arith,
          get-pop r.by_mcp_token c.mcp_token t,
          get-pop r.channels id j,
          ==_iff id j,
          ==_iff c.mcp_token t,
        )
  ],
  λ t. elim (Option-cases (get r.by_provider_token t)) [
    | inl e ↦ ground (arith, get-pop r.by_provider_token c.provider_token t)
    | inr (j, e) ↦
        let (d, found, same) = h.provider_owned t j e in
        ground (
          arith,
          get-pop r.by_provider_token c.provider_token t,
          get-pop r.channels id j,
          ==_iff id j,
          ==_iff c.provider_token t,
        )
  ],
)

IsRemoved-tables :
    (r s t : Registry) (id : String) (c : Channel)
    → tables s ≡ tables t
    → IsRemoved r t id c
    → IsRemoved r s id c
IsRemoved-tables r s t id c same (found, mcp, provider) = (
  λ j. ap (λ (k : Tables). get k.0 j) same ∙ found j,
  λ u. resolve_mcp_token-tables t s same u ∙ mcp u,
  λ u. resolve_provider_token-tables t s same u ∙ provider u,
)

-- the two ways of `remove_channel`, by whether it keeps the channel
abbrev pub IsRemoval : Bool → Registry → Bool × Registry → String → Channel → Type 0
IsRemoval true r x id c = x ≡ (false, r)
IsRemoval false r x id c = (x.0 ≡ true) × IsRemoved r x.1 id c

-- `remove_channel` of a present channel on a consistent registry: if the channel is offline or
-- `require_offline` is not set, it returns `True`, the id and the channel's two tokens resolve to
-- nothing, and every other id and token resolves to what it resolved to before. Otherwise it
-- returns `False` and changes nothing.
pub remove_channel-IsRemoval :
    (r : Registry) (id : String) (require_offline : Bool) (c : Channel)
    → IsConsistent r
    → get r.channels id ≡ some c
    → IsRemoval (require_offline && is_connected c) r (remove_channel id require_offline r) id c
unfolding remove_channel
remove_channel-IsRemoval r id require_offline c h present =
    elim (Bool-cases (require_offline && is_connected c)) [
      | inl kept ↦ rw (present, kept, remove_channel) refl
      | inr gone ↦
          rw (present, gone, remove_channel)
            (
              refl,
              IsRemoved-tables r _ (remove_locked id c r) id c
                  (tables-retire c (remove_locked id c r))
                  (remove_locked-IsRemoved r id c h present),
            )
    ]
