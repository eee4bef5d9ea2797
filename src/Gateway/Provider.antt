-- ===== src/Gateway/Provider.antt =====
-- src/mcpgtw/gateway.py: `provider_endpoint`, which serves the websocket of a provider, with its pump
-- of messages. Other tasks run while it waits: what they do stands between the messages, and after
-- `attach`.
pub mod Pump
pub mod Frames
use mcp_gtw.Base.{
  ℕ, suc, String, Bool, true, false, Option, none, some, List, [], ◌∷◌, ◌||◌, not, ltb, text_eq,
  ◌==◌, length, if◌then◌else◌,
}
use mcp_gtw.Json.{Json}
use mcp_gtw.Json.Text.{utf8_size}
use mcp_gtw.Errors.{
  Error, Result, ok, err, channel_offline, channel_replaced, provider_message, value_error,
}
use mcp_gtw.Protocol
use mcp_gtw.Codec.{decode}
use mcp_gtw.Dict.{set}
use mcp_gtw.Libraries.{Libraries, Parsed}
use mcp_gtw.Channel.{Channel, Socket, World}
use mcp_gtw.Channel.Attach.{attach, detach}
use mcp_gtw.Channel.Relay.{ended}
use mcp_gtw.Channel.Calls.{send_to_provider}
use mcp_gtw.Channel.Messages.{handle_provider_message}
use mcp_gtw.Channel.Subscriptions.{resync_subscriptions}
use mcp_gtw.Registry.{Registry}
use mcp_gtw.Registry.Expiry.{ExpiryPolicy}
use mcp_gtw.Registry.Tokens.{TokenProvider}
use mcp_gtw.Registry.Lifecycle.{given, provider_connected, provider_disconnected}
use mcp_gtw.Access.{Reference, reference, is_registered, allows}
use mcp_gtw.Access.Controllers.{Authenticator}

-- what the endpoint uses; `new_id` are the request ids of `resync_subscriptions` by uri
pub record ProviderEnv : Type 0 where
  pub lib : Libraries
  pub world : World
  pub loads : List ℕ → Parsed Json
  pub policy : ExpiryPolicy
  pub tokens : TokenProvider
  pub authenticator : Authenticator
  pub allowed_provider_origins : List String
  pub new_id : String → String
  pub maximum_websocket_message_bytes : ℕ
  pub maximum_json_depth : ℕ

-- the Origin header and the query parameters of a connection
pub record Connection : Type 0 where
  pub websocket : Socket
  pub origin : Option String
  pub token : Option String
  pub provider_id : Option String
  pub provider_name : Option String

-- While it is registered, the object of the channel is also the registry's.
pub record ProviderState : Type 0 where
  pub monotonic : ℕ
  pub registry : Registry
  pub object : Reference
  pub channel : Channel
  -- what `websocket.close` was called with, newest first
  pub closings : List (ℕ × String)

-- a message of the websocket; a text by its characters, bytes by their number
pub data Incoming : Type 0 where
  disconnect : Incoming
  text_message : List ℕ → Incoming
  bytes_message : ℕ → Incoming
  empty_message : Incoming

pub data Event : Type 0 where
  meanwhile : (ProviderState → ProviderState) → Event
  receives : Incoming → Event

-- how a run stands or ended: `running` waits for a message, and `blocked` waits for ever for a client
-- that a call of the provider asked
pub data Ending : Type 0 where
  running blocked returned disconnected : Ending
  raised : Error → Ending

-- `websocket.close` before anything is served, or a run of the endpoint
pub data Endpoint : Type 0 where
  refused : ℕ → String → Registry → Endpoint
  served : Ending → ProviderState → Endpoint

-- a new state of the channel's object
unfoldable pub publish : Channel → ProviderState → ProviderState
publish c s = record s {
  channel = c;
  registry =
      if is_registered s.registry s.object
      then record s.registry { channels = set s.registry.channels s.object.channel_id c }
      else s.registry;
}

unfoldable pub close_websocket : ℕ → String → ProviderState → ProviderState
close_websocket code reason s = record s { closings = (code, reason) ∷ s.closings }

-- `len(payload) > maximum or len(payload.encode()) > maximum`, and `len(payload) > maximum`
unfoldable pub message_too_large : ℕ → Incoming → Bool
message_too_large maximum (text_message cs) = ltb maximum (length cs) || ltb maximum (utf8_size cs)
message_too_large maximum (bytes_message n) = ltb maximum n
message_too_large maximum _ = false

abbrev text_of : Incoming → Option (List ℕ)
text_of (text_message cs) = some cs
text_of _ = none

module _ (env : ProviderEnv) (websocket : Socket) where
  -- `except (ValueError, ProviderMessageError)`
  unfoldable pub answer_error :
      Option (Result (Unit {0})) × Channel → Option (Result (Unit {0})) × Channel
  answer_error (some (err (value_error message)), c) =
      ended (send_to_provider env.world (Protocol.protocol_error message) c)
  answer_error (some (err (provider_message message)), c) =
      ended (send_to_provider env.world (Protocol.protocol_error message) c)
  answer_error (outcome, c) = (outcome, c)

  unfoldable pub handle_provider_frame :
      Option (List ℕ) → Channel → Option (Result (Unit {0})) × Channel
  handle_provider_frame text c = answer_error (elim (decode env.loads env.maximum_json_depth text) [
    | ok payload ↦ handle_provider_message env.lib env.world websocket payload c
    | err e ↦ (some (err e), c)
  ])

  -- the end of a turn of the pump, `running` for the next turn
  unfoldable pub turn_end : Option (Result (Unit {0})) → Ending
  turn_end none = blocked
  turn_end (some (ok done)) = running
  turn_end (some (err (channel_offline message))) = returned
  turn_end (some (err (channel_replaced message))) = returned
  turn_end (some (err e)) = raised e

  -- one turn of the loop of `_pump_provider_messages`
  unfoldable pub turn : Incoming → ProviderState → Ending × ProviderState
  turn disconnect s = (disconnected, s)
  turn message s =
      let (outcome, c) = handle_provider_frame (text_of message) s.channel in
      if message_too_large env.maximum_websocket_message_bytes message
      then (returned, close_websocket 1009 "Message too large" s)
      else (turn_end outcome, publish c s)

  -- the loop goes on after a turn, or has ended
  unfoldable pub continue :
      (ProviderState → Ending × ProviderState) → Ending × ProviderState → Ending × ProviderState
  continue next (running, s) = next s
  continue next (ending, s) = (ending, s)

  unfoldable pub pump : List Event → ProviderState → Ending × ProviderState
  pump [] s = (running, s)
  pump (meanwhile change ∷ events) s = pump events (change s)
  pump (receives message ∷ events) s = continue (λ t. pump events t) (turn message s)

  -- a send before the pump; its exceptions are those of the `try` block
  unfoldable pub then_pump :
      Result (Unit {0}) × Channel
      → (ProviderState → Ending × ProviderState)
      → ProviderState
      → Ending × ProviderState
  then_pump (ok done, c) next s = next (publish c s)
  then_pump (err e, c) next s = (turn_end (some (err e)), publish c s)

  -- the `try` block
  unfoldable pub greet_and_pump : String → List Event → ProviderState → Ending × ProviderState
  greet_and_pump version events s =
      then_pump
        (send_to_provider env.world (Protocol.hello_ack version s.channel.channel_id) s.channel)
        (λ t. then_pump (resync_subscriptions env.world env.new_id t.channel) (pump events) t) s

  -- `await channel.detach(websocket)`, with its answer
  unfoldable pub leave : ProviderState → Bool × ProviderState
  leave s =
      let (was_current, c) = detach env.world websocket s.channel in (was_current, publish c s)

  -- the `finally` block
  unfoldable pub finally_detach : ProviderState → ProviderState
  finally_detach s =
      let (was_current, t) = leave s in
      let told = record t {
        registry = provider_disconnected env.policy t.monotonic t.channel t.registry;
      } in
      if was_current then told else t

  -- exceptions that end the connection are logged, others go on; a run that is blocked does not end
  unfoldable pub conclude : Ending × ProviderState → Endpoint
  conclude (running, s) = served running s
  conclude (blocked, s) = served blocked s
  conclude (ending, s) = served ending (finally_detach s)

  -- the endpoint once the channel is attached
  unfoldable pub serve_attached : String → List Event → ProviderState → Endpoint
  serve_attached version events s =
      let (registered, r) = provider_connected env.policy s.channel s.registry in
      let told = record s { registry = r } in
      let (was_current, left) = leave told in
      if registered
      then conclude (greet_and_pump version events told)
      else served returned (close_websocket 1008 "Channel is no longer available" left)

-- `websocket.query_params.get("providerId") or self.tokens.generate(12)`
unfoldable pub choose_provider_id : TokenProvider → Option String → Registry → String × Registry
choose_provider_id tokens provider_id r = elim (given provider_id) [
  | some id ↦ (id, r)
  | none ↦ (tokens.generate 12 r.generated, record r { generated = suc r.generated })
]

-- the state in which the channel is attached
unfoldable pub attached : ProviderEnv → Connection → ℕ → Registry → Channel → ProviderState
attached env connection now r channel =
    let (provider_id, r') = choose_provider_id env.tokens connection.provider_id r in
    publish (attach env.world connection.websocket provider_id connection.provider_name channel)
      (record {
        monotonic = now;
        registry = r';
        object = reference r' channel.channel_id;
        channel = channel;
        closings = [];
      })

unfoldable pub serve_authenticated :
    ProviderEnv
    → Connection
    → String
    → (ProviderState → ProviderState)
    → List Event
    → ℕ
    → Registry
    → Option Channel
    → Endpoint
serve_authenticated env connection version change events now r none =
    refused 1008 "Invalid channel token" r
serve_authenticated env connection version change events now r (some channel) =
    serve_attached env connection.websocket version events
      (change (attached env connection now r channel))

unfoldable pub provider_endpoint :
    ProviderEnv
    → Connection
    → String
    → (ProviderState → ProviderState)
    → List Event
    → ℕ
    → Registry
    → Endpoint
provider_endpoint env connection version change events now r =
    if not (allows env.allowed_provider_origins connection.origin)
    then refused 1008 "Origin not allowed" r
    else serve_authenticated env connection version change events now r
        (env.authenticator.authenticate_provider connection.token r)
