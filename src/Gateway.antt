-- ===== src/Gateway.antt =====
-- src/mcpgtw/gateway.py: the state that the requests of a `Gateway` share, what is sent to a client,
-- and the MCP server as the code sees it. The modules below have the endpoints.
pub mod Responses
pub mod Mcp
pub mod Guard
pub mod Admission
pub mod Provider
pub mod Setup
mod Tests
use mcp_gtw.Base.{ℕ, String, Bool, Option, List}
use mcp_gtw.Registry.{Registry}
use mcp_gtw.Oauth.Bindings.{Bindings}
use mcp_gtw.Oauth.RateLimit.{RateLimit}
use mcp_gtw.Access.{Reason, Outcome, Controller, Request}

-- `access` is the state of the access controller; `time` and `monotonic` are the two clocks.
pub record GatewayState (S : Type 0) : Type 0 where
  pub time : ℕ
  pub monotonic : ℕ
  pub registry : Registry
  pub session_bindings : Bindings
  pub oauth_rate_limit : RateLimit
  pub access : S

-- the strategies and settings that `mcp_asgi` uses
pub record GatewayEnv (S : Type 0) : Type 0 where
  pub mcp_access_controller : Controller S
  pub allowed_mcp_origins : List String
  -- the challenges of `oauth_metadata`, if OAuth is enabled
  pub oauth_metadata : Option (Reason → String)
  pub mcp_stateless : Bool
  -- `str` of a number and `math.ceil` of a time
  pub str_of : ℕ → String
  pub ceil_seconds : ℕ → ℕ

-- ASGI messages of a response; headers in their order, bodies as characters
pub data Message : Type 0 where
  response_start : ℕ → List (String × String) → Message
  response_body : List ℕ → Bool → Message
  websocket_close : ℕ → Message

-- What was given to `send`: by the gateway itself, or by the MCP server through the gateway, with
-- the state at that moment.
pub data Sent (S : Type 0) : Type 0 where
  own : Message → Sent S
  relayed : GatewayState S → Message → Sent S

pub record Run (S : Type 0) : Type 0 where
  pub state : GatewayState S
  pub response_started : Bool
  -- newest first
  pub sent : List (Sent S)

-- What `manager.handle_request(scope, receive, send)` does: it sends messages and goes on by what
-- `send` returned or raised, other tasks change the state meanwhile, and it returns or raises.
pub data Handling (S : Type 0) : Type 0 where
  ends : Outcome (Unit {0}) → Handling S
  meanwhile : (GatewayState S → GatewayState S) → Handling S → Handling S
  sends : Message → (Outcome (Unit {0}) → Handling S) → Handling S

pub data Scope : Type 0 where
  websocket : Scope
  http : Request → Scope
