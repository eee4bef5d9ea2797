-- ===== src/Registry/Lifecycle.antt =====
-- src/mcpgtw/registry.py: how channels come and go. What stands under `_lock` has no await but the
-- lock's own, so it runs at once. `none` is a `_unique_token` that does not end, and, in
-- `purge_expired`, a `KeyError`.
use mcp_gtw.Base.{
  ℕ, suc, String, Bool, true, false, Option, none, some, List, [], ◌∷◌, text_eq, ◌==◌, ◌&&◌, ◌||◌,
  ◌++◌, not, length, join, if◌then◌else◌,
}
use mcp_gtw.Json.{Fields, done}
use mcp_gtw.Errors.{Result, ok, err, channel_capacity, value_error}
use mcp_gtw.Settings.{at_limit}
use mcp_gtw.Dict.{Dict, get, has, set, pop, keys}
use mcp_gtw.Channel.{Channel, new_channel, provider_connected as is_connected}
use mcp_gtw.Channel.Attach
use mcp_gtw.Registry.{
  Registry, Event, on_channel_created, on_channel_removed, on_provider_connected,
  on_provider_disconnected,
}
use mcp_gtw.Registry.Expiry.{ExpiryPolicy}
use mcp_gtw.Registry.Tokens.{TokenProvider, token_taken, unique_token}

unfoldable pub add_listener : ℕ → Registry → Registry
add_listener listener r = record r { listeners = r.listeners ++ listener ∷ [] }

-- every listener is called, whatever the others raise
unfoldable pub dispatch_to : List ℕ → Event → Channel → Registry → Registry
dispatch_to [] event channel r = r
dispatch_to (listener ∷ rest) event channel r =
    dispatch_to rest event channel
      (record r { dispatched = (listener, event, channel) ∷ r.dispatched })

unfoldable pub dispatch : Event → Channel → Registry → Registry
unfolding dispatch_to
dispatch event channel r = dispatch_to r.listeners event channel r

-- the keyword arguments of `create_channel`
pub record NewChannel : Type 0 where
  pub channel_id : Option String
  pub metadata : Option Fields
  pub ttl_seconds : Option ℕ
  pub provider_token : Option String
  pub mcp_token : Option String

-- `value or …`: an empty text counts as none
unfoldable pub given : Option String → Option String
given none = none
given (some value) = if value == "" then none else some value

abbrev pub metadata_or_empty : Option Fields → Fields
metadata_or_empty none = done
metadata_or_empty (some fields) = fields

unfoldable pub choose_id : TokenProvider → Option String → Registry → String × Registry
choose_id tokens channel_id r = elim (given channel_id) [
  | some value ↦ (value, r)
  | none ↦ (tokens.generate 12 r.generated, record r { generated = suc r.generated })
]

unfoldable pub choose_token : TokenProvider → Option String → Registry → Option (String × Registry)
choose_token tokens token r = elim (given token) [
  | some value ↦ some (value, r)
  | none ↦ unique_token tokens r
]

-- the channel in every table of the registry
unfoldable pub enter : ExpiryPolicy → ℕ → NewChannel → Channel → Registry → Registry
enter policy now request channel r = record r {
  channels = set r.channels channel.channel_id channel;
  by_mcp_token = set r.by_mcp_token channel.mcp_token channel.channel_id;
  by_provider_token = set r.by_provider_token channel.provider_token channel.channel_id;
  expiry = set r.expiry channel.channel_id (policy.initial_deadline now request.ttl_seconds);
  created = if r.settings.admin_enabled then set r.created channel.channel_id now else r.created;
}

-- `create_channel` once the id and the tokens are chosen
unfoldable pub place :
    ExpiryPolicy → ℕ → NewChannel → String → String → String → Registry → Result Channel × Registry
place policy now request channel_id mcp_token provider_token r =
    if mcp_token == provider_token
    then (err (value_error "The mcp token and the provider token must be different"), r)
    else if token_taken r mcp_token || token_taken r provider_token
    then (err (channel_capacity "A channel with the same token already exists"), r)
    else let channel =
        new_channel channel_id mcp_token provider_token r.settings
          (metadata_or_empty request.metadata) in
      (ok channel, enter policy now request channel r)

-- the tokens, the mcp token first
unfoldable pub place_with_tokens :
    TokenProvider
    → ExpiryPolicy
    → ℕ
    → NewChannel
    → String
    → Registry
    → Option (Result Channel × Registry)
place_with_tokens tokens policy now request channel_id r =
    elim (choose_token tokens request.mcp_token r) [
      | none ↦ none
      | some (mcp_token, r₁) ↦ elim (choose_token tokens request.provider_token r₁) [
        | none ↦ none
        | some (provider_token, r₂) ↦
            some (place policy now request channel_id mcp_token provider_token r₂)
      ]
    ]

unfoldable pub create_locked :
    TokenProvider → ExpiryPolicy → ℕ → NewChannel → Registry → Option (Result Channel × Registry)
create_locked tokens policy now request r =
    if at_limit r.settings.maximum_channels (length r.channels)
    then some (err (channel_capacity "The registry reached its maximum number of channels"), r)
    else let (channel_id, r₁) = choose_id tokens request.channel_id r in
      if has r₁.channels channel_id
      then some (err (channel_capacity (join "Channel already exists: " channel_id)), r₁)
      else place_with_tokens tokens policy now request channel_id r₁

abbrev pub announce : Result Channel × Registry → Result Channel × Registry
announce (ok channel, r) = (ok channel, dispatch on_channel_created channel r)
announce (err e, r) = (err e, r)

unfoldable pub create_channel :
    TokenProvider → ExpiryPolicy → ℕ → NewChannel → Registry → Option (Result Channel × Registry)
create_channel tokens policy now request r = elim (create_locked tokens policy now request r) [
  | none ↦ none
  | some placed ↦ some (announce placed)
]

-- the part of `remove_channel` under the lock, for a present channel
unfoldable pub remove_locked : String → Channel → Registry → Registry
remove_locked channel_id channel r = record r {
  channels = pop r.channels channel_id;
  by_mcp_token = pop r.by_mcp_token channel.mcp_token;
  by_provider_token = pop r.by_provider_token channel.provider_token;
  expiry = pop r.expiry channel_id;
  created = pop r.created channel_id;
}

-- the rest of `remove_channel`; the channel is no longer the registry's
unfoldable pub retire : Channel → Registry → Registry
retire channel r =
    let closed = Attach.close channel in
    dispatch on_channel_removed closed (record r { removed = closed ∷ r.removed })

unfoldable pub remove_channel : String → Bool → Registry → Bool × Registry
remove_channel channel_id require_offline r = elim (get r.channels channel_id) [
  | none ↦ (false, r)
  | some channel ↦
      if require_offline && is_connected channel
      then (false, r)
      else (true, retire channel (remove_locked channel_id channel r))
]

-- `not channel.provider_connected and is_expired(self._expiry[channel_id], now)`
unfoldable pub is_due : ExpiryPolicy → ℕ → Registry → String → Channel → Option Bool
is_due policy now r channel_id channel =
    if is_connected channel then some false else elim (get r.expiry channel_id) [
      | none ↦ none
      | some deadline ↦ some (policy.is_expired deadline now)
    ]

unfoldable pub expired_ids :
    ExpiryPolicy → ℕ → Registry → Dict String Channel → Option (List String)
expired_ids policy now r [] = some []
expired_ids policy now r ((channel_id, channel) ∷ rest) =
    elim (is_due policy now r channel_id channel) [
      | none ↦ none
      | some due ↦ elim (expired_ids policy now r rest) [
        | none ↦ none
        | some ids ↦ some (if due then channel_id ∷ ids else ids)
      ]
    ]

-- the loop of `purge_expired`, with the number of removed channels
unfoldable pub remove_each : List String → Registry → ℕ × Registry
remove_each [] r = (0, r)
remove_each (channel_id ∷ rest) r =
    let (was_removed, r₁) = remove_channel channel_id true r in
    let (removed, r₂) = remove_each rest r₁ in (if was_removed then suc removed else removed, r₂)

unfoldable pub purge_expired : ExpiryPolicy → ℕ → Registry → Option (ℕ × Registry)
purge_expired policy now r = elim (expired_ids policy now r r.channels) [
  | none ↦ none
  | some ids ↦ some (remove_each ids r)
]

unfoldable pub provider_connected : ExpiryPolicy → Channel → Registry → Bool × Registry
provider_connected policy channel r =
    let registered = has r.channels channel.channel_id in
    let renewed = record r { expiry = set r.expiry channel.channel_id policy.connected_deadline } in
    (registered, dispatch on_provider_connected channel (if registered then renewed else r))

unfoldable pub provider_disconnected : ExpiryPolicy → ℕ → Channel → Registry → Registry
provider_disconnected policy now channel r =
    let renewed = record r {
      expiry = set r.expiry channel.channel_id (policy.disconnected_deadline now);
    } in
    dispatch on_provider_disconnected channel
      (if has r.channels channel.channel_id && not (is_connected channel) then renewed else r)

unfoldable pub close_each : List String → Registry → Registry
close_each [] r = r
close_each (channel_id ∷ rest) r = close_each rest (remove_channel channel_id false r).1

unfoldable pub close_all : Registry → Registry
close_all r = close_each (keys r.channels) r
