-- ===== src/Registry.antt =====
-- src/mcpgtw/registry.py: the state of a `ChannelRegistry` and how it resolves tokens. A channel is
-- one object that the registry and the gateway share, so `channels` holds its current state.
pub mod Expiry
pub mod Tokens
pub mod Lifecycle
pub mod Admin
pub mod Consistency
pub mod Creation
pub mod Steps
pub mod Preservation
pub mod Invariance
pub mod Lookup
pub mod Purge
pub mod Termination
pub mod Deadlines
pub mod Tests
use mcp_gtw.Base.{ℕ, String, Bool, Option, none, some, List, [], text_eq, length}
use mcp_gtw.Settings.{Settings}
use mcp_gtw.Dict.{Dict, get}
use mcp_gtw.Channel.{Channel}

-- listeners.py: the hooks of a `GatewayListener`
pub data Event : Type 0 where
  on_channel_created on_channel_removed on_provider_connected on_provider_disconnected : Event

-- a deadline on the monotonic clock, `math.inf` being `never`
pub data Deadline : Type 0 where
  at : ℕ → Deadline
  never : Deadline

pub record Registry : Type 0 where
  pub settings : Settings
  pub listeners : List ℕ
  pub channels : Dict String Channel
  pub by_mcp_token : Dict String String
  pub by_provider_token : Dict String String
  pub expiry : Dict String Deadline
  pub created : Dict String ℕ
  -- how many tokens the provider of tokens has generated
  pub generated : ℕ
  -- what was dispatched to which listener, and the removed channels, newest first
  pub dispatched : List (ℕ × Event × Channel)
  pub removed : List Channel

unfoldable pub new_registry : Settings → List ℕ → Registry
new_registry settings listeners = record {
  settings = settings;
  listeners = listeners;
  channels = [];
  by_mcp_token = [];
  by_provider_token = [];
  expiry = [];
  created = [];
  generated = 0;
  dispatched = [];
  removed = [];
}

unfoldable pub channel_count : Registry → ℕ
channel_count r = length r.channels

unfoldable pub get_channel : Registry → String → Option Channel
get_channel r channel_id = get r.channels channel_id

-- `_resolve`
unfoldable pub resolve : Registry → Dict String String → Option String → Option Channel
resolve r index none = none
resolve r index (some token) = elim (get index token) [
  | none ↦ none
  | some channel_id ↦ get r.channels channel_id
]

unfoldable pub resolve_mcp_token : Registry → Option String → Option Channel
resolve_mcp_token r token = resolve r r.by_mcp_token token

unfoldable pub resolve_provider_token : Registry → Option String → Option Channel
resolve_provider_token r token = resolve r r.by_provider_token token
