-- ===== src/Settings.antt =====
-- src/mcpgtw/config.py: the settings that the modelled parts read. A limit of `none` is unlimited.
-- Times are whole numbers of one unit, fine enough for the values that are configured.
pub mod Validation
use mcp_gtw.Base.{ℕ, Bool, false, Option, none, some, leb, ltb}

pub data OauthMode : Type 0 where
  off resource_server embedded : OauthMode

pub record Settings : Type 0 where
  pub tool_call_timeout_seconds : Option ℕ
  pub maximum_tools : Option ℕ
  pub maximum_tool_definition_bytes : Option ℕ
  pub maximum_websocket_message_bytes : ℕ
  pub maximum_json_depth : ℕ
  pub maximum_pending_calls_per_channel : Option ℕ
  pub maximum_mcp_sessions_per_channel : Option ℕ
  pub maximum_subscriptions_per_channel : Option ℕ
  pub maximum_channels : Option ℕ
  pub offline_ttl_seconds : ℕ
  pub admin_enabled : Bool
  pub oauth_mode : OauthMode

-- `maximum is not None and count >= maximum`
abbrev pub at_limit : Option ℕ → ℕ → Bool
at_limit none count = false
at_limit (some maximum) count = leb maximum count

-- `maximum is not None and count > maximum`
abbrev pub over_limit : Option ℕ → ℕ → Bool
over_limit none count = false
over_limit (some maximum) count = ltb maximum count
