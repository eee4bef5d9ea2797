-- ===== src/Gateway/Tests.antt =====
-- The gateway's endpoints at concrete inputs.
use mcp_gtw.Base.{ℕ, String, true, false, none, some, List, [], ◌∷◌, ◌≡◌, refl, text_eq, ltb}
use mcp_gtw.Json.Text.{codes, utf8_size}
use mcp_gtw.Errors.{err, value_error}
use mcp_gtw.Protocol
use mcp_gtw.Codec.{decode}
use mcp_gtw.Libraries.{invalid}
use mcp_gtw.Channel.Tests.{world, libraries}
use mcp_gtw.Registry.Expiry.{ttl_policy}
use mcp_gtw.Registry.Tests.{channel, afterwards}
use mcp_gtw.Oauth.Bindings.{new_bindings}
use mcp_gtw.Oauth.RateLimit.{RateLimit}
use mcp_gtw.Oauth.Grants.Memory.{MemoryGrants, memory_grants}
use mcp_gtw.Oauth.Grants.Tests.{store}
use mcp_gtw.Access.{reference}
use mcp_gtw.Access.Controllers.{oauth_controller, deny_unless_granted, token_authenticator}
use mcp_gtw.Access.Tests.{access_settings, digests, verifier, oauth_request}
use mcp_gtw.Gateway.{
  GatewayState, GatewayEnv, response_start, response_body, Handling, ends, meanwhile, sends, http,
}
use mcp_gtw.Gateway.Mcp.{mcp_asgi}
use mcp_gtw.Gateway.Guard.{IsResponse}
use mcp_gtw.Gateway.Admission.{IsRelayable, mcp_asgi-IsResponse}
use mcp_gtw.Gateway.Provider.{
  ProviderEnv, Connection, ProviderState, Event, receives, disconnect, text_message, Ending,
  running, returned, provider_endpoint, publish, close_websocket, turn,
}
use mcp_gtw.Gateway.Provider.Pump.{IsLeft, provider_endpoint-IsLeft}
use mcp_gtw.Gateway.Provider.Frames.{is_excused, turn-text_message}

abbrev limiter : RateLimit
limiter = record {
  requests = 5;
  window_seconds = 10;
  maximum_keys = 8;
  backoff_seconds = 1;
  maximum_backoff_seconds = 30;
  budgets = [];
  expiry = [];
}

abbrev env : GatewayEnv (ℕ × MemoryGrants)
env = record {
  mcp_access_controller =
      oauth_controller access_settings digests verifier (deny_unless_granted memory_grants);
  allowed_mcp_origins = [];
  oauth_metadata = some (λ reason. "Bearer");
  mcp_stateless = false;
  str_of = λ n. "1";
  ceil_seconds = λ n. n;
}

abbrev state : GatewayState (ℕ × MemoryGrants)
state = record {
  time = 20;
  monotonic = 7;
  registry = afterwards;
  session_bindings = new_bindings 4 100;
  oauth_rate_limit = limiter;
  access = (0, store);
}

-- a server that begins a session and answers, with a turn of the clock in between
abbrev server : Handling (ℕ × MemoryGrants)
server = sends (response_start 200 (("Mcp-Session-Id", "s1") ∷ [])) (λ begun.
    meanwhile (λ s. record s { time = 25 }) (sends (response_body [] false) (λ done. ends done)))

mcp_asgi-IsResponse_example :
    IsResponse
      (IsRelayable env oauth_request state)
      (mcp_asgi env (http oauth_request) server state).1
mcp_asgi-IsResponse_example =
    mcp_asgi-IsResponse env oauth_request server state (λ reason. "Bearer") refl

abbrev provider_env : ProviderEnv
provider_env = record {
  lib = libraries;
  world = world;
  loads = λ cs. invalid "no JSON";
  policy = ttl_policy (λ n. n) 300;
  tokens = record { generate = λ nbytes n. "t" };
  authenticator = token_authenticator;
  allowed_provider_origins = [];
  new_id = λ uri. uri;
  maximum_websocket_message_bytes = 4;
  maximum_json_depth = 3;
}

abbrev connection : Connection
connection = record {
  websocket = 9;
  origin = none;
  token = some "a";
  provider_id = none;
  provider_name = none;
}

abbrev events : List Event
events = receives (text_message (codes "x")) ∷ receives disconnect ∷ []

provider_endpoint-IsLeft_example :
    IsLeft provider_env 9 events
      (provider_endpoint provider_env connection "v" (λ s. s) events 5 afterwards)
provider_endpoint-IsLeft_example =
    provider_endpoint-IsLeft provider_env connection "v" (λ s. s) events 5 afterwards

abbrev provider_state : ProviderState
provider_state = record {
  monotonic = 5;
  registry = afterwards;
  object = reference afterwards "c";
  channel = record channel { websocket = some 9 };
  closings = [];
}

turn-text_message_example :
    (ltb 4 (utf8_size (codes "x")) ≡ true
      → ◌≡◌ {A = Ending × ProviderState}
          (turn provider_env 9 (text_message (codes "x")) provider_state)
          (returned, close_websocket 1009 "Message too large" provider_state))
    × (ltb 4 (utf8_size (codes "x")) ≡ false
        → (is_excused (turn provider_env 9 (text_message (codes "x")) provider_state).0 ≡ true)
          × ((reason : String)
              → decode (λ cs. invalid "no JSON") 3 (some (codes "x")) ≡ err (value_error reason)
              → provider_state.channel.websocket ≡ some 9
              → true ≡ true
              → ◌≡◌ {A = Ending × ProviderState}
                  (turn provider_env 9 (text_message (codes "x")) provider_state)
                  (
                    running,
                    publish
                        (record provider_state.channel {
                          sent = (9, Protocol.protocol_error reason) ∷ provider_state.channel.sent;
                        })
                        provider_state,
                  )))
turn-text_message_example = turn-text_message provider_env 9 (codes "x") provider_state
