-- ===== src/Gateway/Mcp.antt =====
-- src/mcpgtw/gateway.py: `mcp_asgi`, which guards the MCP server. A coroutine of the MCP server runs
-- with other tasks between its sends.
use mcp_gtw.Base.{
  ℕ, String, Bool, true, false, Option, none, some, List, [], ◌∷◌, ◌&&◌, not, text_eq, ◌==◌,
  if◌then◌else◌, join,
}
use mcp_gtw.Errors.{other}
use mcp_gtw.Oauth.Context.{AccessContext}
use mcp_gtw.Oauth.Bindings
use mcp_gtw.Oauth.Bindings.{Bindings}
use mcp_gtw.Oauth.RateLimit.{RateLimit, admit, retry_after}
use mcp_gtw.Access.{
  Reason, Outcome, granted, denied, raised, Request, AuthorizedMcpRequest, status_code, allows,
}
use mcp_gtw.Access.Controllers.{addressed_channel}
use mcp_gtw.Gateway.{
  GatewayState, GatewayEnv, websocket_close, relayed, Run, Handling, ends, meanwhile, sends, Scope,
  websocket, http,
}
use mcp_gtw.Gateway.Responses.{send, json_response, opened, authorize, handle_guarded, finish}

module _ {S : Type 0} (env : GatewayEnv S) (request : Request) where
  -- without OAuth the manager has `send` itself
  unfoldable pub handle_plain : Handling S → Run S → Outcome (Unit {0}) × Run S
  handle_plain (ends outcome) x = (outcome, x)
  handle_plain (meanwhile change h) x = handle_plain h (record x { state = change x.state })
  handle_plain (sends message h) x =
      handle_plain (h (granted tt)) (record x { sent = relayed x.state message ∷ x.sent })

  -- `session_ids[0] if len(session_ids) == 1 else None`
  unfoldable pub session_of : List String → Option String
  session_of (session_id ∷ []) = some session_id
  session_of _ = none

  -- the test of the session ids, with the bindings after it
  unfoldable pub accepts_session : ℕ → AccessContext → List String → Bindings → Bool × Bindings
  accepts_session now context [] store = (true, store)
  accepts_session now context (session_id ∷ []) store =
      if env.mcp_stateless then (false, store) else Bindings.accepts now session_id context store
  accepts_session now context (session_id ∷ more ∷ session_ids) store = (false, store)

  abbrev not_found : String → GatewayState S → Outcome (Unit {0}) × Run S
  not_found message s = (granted tt, json_response 404 message [] (opened s))

  -- `mcp_asgi` with OAuth from the session ids on, by whether they are accepted
  unfoldable pub serve_session :
      (Reason → String)
      → AuthorizedMcpRequest
      → Handling S
      → Bool
      → GatewayState S
      → Outcome (Unit {0}) × Run S
  serve_session challenge authorized handling false s = not_found "Unknown MCP session" s
  serve_session challenge authorized handling true s =
      finish env request authorized (session_of request.mcp_session_id) challenge (
        handle_guarded env request authorized (session_of request.mcp_session_id) handling
          (opened s))

  -- `mcp_asgi` from the test for OAuth on
  unfoldable pub serve_enabled :
      Option (Reason → String)
      → AuthorizedMcpRequest
      → Handling S
      → GatewayState S
      → Outcome (Unit {0}) × Run S
  serve_enabled none authorized handling s = handle_plain handling (opened s)
  serve_enabled (some challenge) authorized handling s =
      let (accepted, store) =
        accepts_session s.monotonic authorized.context request.mcp_session_id s.session_bindings in
      serve_session challenge authorized handling accepted (record s { session_bindings = store })

  -- `mcp_asgi` from the requested channel on
  unfoldable pub serve_channel :
      AuthorizedMcpRequest → Handling S → GatewayState S → Outcome (Unit {0}) × Run S
  serve_channel authorized handling s =
      if not (addressed_channel request == "")
        && not (addressed_channel request == authorized.channel.channel_id)
      then not_found "Unknown MCP service" s
      else serve_enabled env.oauth_metadata authorized handling s

  -- the answer to a key whose budget is spent
  unfoldable pub over_budget : String → GatewayState S → Outcome (Unit {0}) × Run S
  over_budget key s = (
    granted tt,
    json_response 429 "Request budget exceeded"
        ((
          "retry-after",
          env.str_of (retry_after env.ceil_seconds s.monotonic key s.oauth_rate_limit),
        )
          ∷ ("cache-control", "no-store")
          ∷ [])
        (opened s),
  )

  -- A sweep that does not end would not return; it is an exception here.
  unfoldable pub budget_answered :
      String
      → GatewayState S
      → (RateLimit → Outcome (Unit {0}) × Run S)
      → Option (Bool × RateLimit)
      → Outcome (Unit {0}) × Run S
  budget_answered key s next none = (raised (other "the sweep does not end"), opened s)
  budget_answered key s next (some (true, limit)) = next limit
  budget_answered key s next (some (false, limit)) =
      over_budget key (record s { oauth_rate_limit = limit })

  -- the loop over keys that each spend of their budget
  unfoldable pub within_budget :
      List String
      → (GatewayState S → Outcome (Unit {0}) × Run S)
      → GatewayState S
      → Outcome (Unit {0}) × Run S
  within_budget [] next s = next s
  within_budget (key ∷ keys) next s =
      budget_answered key s
        (λ limit. within_budget keys next (record s { oauth_rate_limit = limit }))
        (admit s.monotonic key s.oauth_rate_limit)

  abbrev or_empty : Option String → String
  or_empty none = ""
  or_empty (some value) = value

  -- the keys of an authorized request's client and principal
  unfoldable pub budget_keys : AccessContext → List String
  budget_keys context =
      if context.credential_kind == "oauth"
      then join "client:" (join (or_empty context.issuer) (join "\0" (or_empty context.client_id)))
        ∷ join "principal:" context.principal_id
        ∷ []
      else []

  unfoldable pub challenge_for : Reason → String
  challenge_for reason = elim env.oauth_metadata [
    | none ↦ "Bearer realm=\"mcp\""
    | some challenge ↦ challenge reason
  ]

  -- `mcp_asgi` from the outcome of the first `authorize` on
  unfoldable pub serve_authorized :
      Handling S → Outcome AuthorizedMcpRequest × GatewayState S → Outcome (Unit {0}) × Run S
  serve_authorized handling (raised e, s) = (raised e, opened s)
  serve_authorized handling (denied reason, s) = (
    granted tt,
    json_response (status_code reason) "MCP access denied"
        (("www-authenticate", challenge_for reason) ∷ ("cache-control", "no-store") ∷ [])
        (opened s),
  )
  serve_authorized handling (granted authorized, s) =
      within_budget (budget_keys authorized.context) (serve_channel authorized handling) s

  abbrev address : Option String → String
  address none = "unknown"
  address (some host) = host

  abbrev address_keys : Option (Reason → String) → List String
  address_keys none = []
  address_keys (some challenge) = address request.client_host ∷ []

  unfoldable pub serve_http : Handling S → GatewayState S → Outcome (Unit {0}) × Run S
  serve_http handling s =
      if not (allows env.allowed_mcp_origins request.origin)
      then (granted tt, json_response 403 "Origin not allowed" [] (opened s))
      else within_budget (address_keys env.oauth_metadata)
          (λ t. serve_authorized handling (authorize env request t)) s

unfoldable pub mcp_asgi :
    {S : Type 0} → GatewayEnv S → Scope → Handling S → GatewayState S → Outcome (Unit {0}) × Run S
mcp_asgi env websocket handling s = (granted tt, send (websocket_close 1008) (opened s))
mcp_asgi env (http request) handling s = serve_http env request handling s
