-- ===== src/Registry/Tests.antt =====
-- The registry at concrete inputs.
use Prim.Native.Nat.{zero}
use mcp_gtw.Base.{
  ℕ, suc, String, true, false, none, some, [], ◌∷◌, ◌≡◌, refl, arith, text_eq, length, ap, sym, ◌∙◌,
  is_some, ◌+◌, ◌&&◌, if◌then◌else◌,
}
use mcp_gtw.Json.{done}
use mcp_gtw.Json.Text.{codes}
use mcp_gtw.Errors.{ok}
use mcp_gtw.Settings.{Settings, off}
use mcp_gtw.Dict.{get, set}
use mcp_gtw.Channel.{Channel, new_channel, provider_connected as is_connected}
use mcp_gtw.Registry.{Registry, Event, new_registry, resolve_mcp_token, resolve}
use mcp_gtw.Registry.Expiry.{ttl_policy, ExpiryPolicy, is_expired}
use mcp_gtw.Registry.Tokens.{TokenProvider, token_taken, unique_token, unique_token_loop, turns}
use mcp_gtw.Registry.Lifecycle.{
  NewChannel, create_channel, create_locked, choose_id, choose_token, given, place_with_tokens,
  place, enter, dispatch, dispatch_to, remove_channel, purge_expired,
}
use mcp_gtw.Registry.Consistency.{IsConsistent}
use mcp_gtw.Registry.Steps.{here, next, creates}
use mcp_gtw.Registry.Invariance.{Reach-IsConsistent}
use mcp_gtw.Registry.Lookup.{
  IsCreated, IsRemoval, create_channel-IsCreated, remove_channel-IsRemoval,
}
use mcp_gtw.Registry.Purge.{due, purge_expired-due}
use mcp_gtw.Registry.Termination.{IsFresh, create_channel-ends}

abbrev pub settings : Settings
settings = record {
  tool_call_timeout_seconds = none;
  maximum_tools = none;
  maximum_tool_definition_bytes = none;
  maximum_websocket_message_bytes = 1000;
  maximum_json_depth = 5;
  maximum_pending_calls_per_channel = none;
  maximum_mcp_sessions_per_channel = none;
  maximum_subscriptions_per_channel = none;
  maximum_channels = some 2;
  offline_ttl_seconds = 300;
  admin_enabled = true;
  oauth_mode = off;
}

-- the n-th token is n letters
abbrev letters : ℕ → String
letters zero = String.[]
letters (suc n) = String.◌∷◌ "a" (letters n)

length-letters : (n : ℕ) → length (codes (letters n)) ≡ n
length-letters zero = refl
length-letters (suc n) = ap suc (length-letters n)

abbrev tokens : TokenProvider
tokens = record { generate = λ nbytes n. letters (suc n) }

tokens-IsFresh : IsFresh tokens
tokens-IsFresh m n e =
    let same =
      sym (length-letters (suc m)) ∙ ap (λ s. length (codes s)) e ∙ length-letters (suc n) in
    ground arith

abbrev policy : ExpiryPolicy
policy = ttl_policy (λ n. n) 300

abbrev request : NewChannel
request = record {
  channel_id = some "c";
  metadata = none;
  ttl_seconds = some 10;
  provider_token = none;
  mcp_token = some "m";
}

abbrev before : Registry
before = new_registry settings (1 ∷ [])

abbrev pub channel : Channel
channel = new_channel "c" "m" "a" settings done

abbrev pub afterwards : Registry
afterwards = record (enter policy 5 request channel (record before { generated = 1 })) {
  dispatched = (1, Event.on_channel_created, channel) ∷ [];
}

created : create_channel tokens policy 5 request before ≡ some (ok channel, afterwards)
unfolding create_channel create_locked choose_id choose_token given place_with_tokens place
    unique_token unique_token_loop turns token_taken new_registry new_channel enter dispatch
    dispatch_to get set
created = refl

pub afterwards-IsConsistent : IsConsistent afterwards
afterwards-IsConsistent =
    Reach-IsConsistent tokens policy settings (1 ∷ []) afterwards
      (next here (creates before 5 request (ok channel, afterwards) created))

before-IsConsistent : IsConsistent before
before-IsConsistent = Reach-IsConsistent tokens policy settings (1 ∷ []) before here

Reach-IsConsistent_example : IsConsistent afterwards
Reach-IsConsistent_example =
    Reach-IsConsistent tokens policy settings (1 ∷ []) afterwards
      (next here (creates before 5 request (ok channel, afterwards) created))

create_channel-IsCreated_example : IsCreated policy 5 request before afterwards (ok channel)
create_channel-IsCreated_example =
    create_channel-IsCreated tokens policy 5 request before (ok channel, afterwards)
      before-IsConsistent created

found : get afterwards.channels channel.channel_id ≡ some channel
unfolding enter set get new_registry new_channel
found = refl

remove_channel-IsRemoval_example :
    IsRemoval
      (true && is_connected channel)
      afterwards
      (remove_channel "c" true afterwards)
      "c"
      channel
unfolding new_channel
remove_channel-IsRemoval_example =
    remove_channel-IsRemoval afterwards "c" true channel afterwards-IsConsistent found

purge_expired-due_example :
    (n : ℕ) × (s : Registry) × (purge_expired policy 20 afterwards ≡ some (n, s))
    × ((j : String)
        → get s.channels j
          ≡ (if due policy 20 afterwards j then none else get afterwards.channels j))
    × (n + length s.channels ≡ length afterwards.channels)
purge_expired-due_example = purge_expired-due policy 20 afterwards afterwards-IsConsistent

due_at_20 : due policy 20 afterwards "c" ≡ true
unfolding enter set get new_registry new_channel is_connected is_expired ttl_policy
due_at_20 = refl

kept_at_14 : due policy 14 afterwards "c" ≡ false
unfolding enter set get new_registry new_channel is_connected is_expired ttl_policy
kept_at_14 = refl

create_channel-ends_example : is_some (create_channel tokens policy 5 request afterwards) ≡ true
create_channel-ends_example = create_channel-ends tokens policy 5 request afterwards tokens-IsFresh

-- the private and the public token of the new channel are no other's
pub resolves : resolve_mcp_token afterwards (some "m") ≡ some channel
unfolding enter set get new_registry new_channel resolve_mcp_token resolve
resolves = refl
