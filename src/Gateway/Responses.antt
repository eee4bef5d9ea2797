-- ===== src/Gateway/Responses.antt =====
-- src/mcpgtw/gateway.py: `_json_response`, and the `guarded_send` of `mcp_asgi`, through which the MCP
-- server answers. What the gateway does before and in a send runs at once.
use mcp_gtw.Base.{
  ℕ, String, Bool, true, false, Option, none, some, List, [], ◌∷◌, ◌++◌, ◌&&◌, ltb, text_eq, ◌==◌,
  if◌then◌else◌, is_nothing,
}
use mcp_gtw.Json.Text.{codes, quoted}
use mcp_gtw.Oauth.Context.{AccessContext}
use mcp_gtw.Oauth.Bindings
use mcp_gtw.Oauth.Bindings.{Bindings}
use mcp_gtw.Access.{
  Reason, Outcome, granted, denied, raised, Request, same_channel, is_registered,
  AuthorizedMcpRequest, status_code, channel_forbidden, invalid_session,
}
use mcp_gtw.Access.Credentials.{after_scheme}
use mcp_gtw.Gateway.{
  GatewayState, GatewayEnv, Message, response_start, response_body, own, relayed, Run, Handling,
  ends, meanwhile, sends,
}

-- `json.dumps({"error": message})` of an ASCII message, which puts a space behind the colon
abbrev error_body : String → List ℕ
error_body message = codes "{\"error\": " ++ quoted (codes message) ++ codes "}"

module _ {S : Type 0} where
  -- `send` by the gateway itself
  unfoldable pub send : Message → Run S → Run S
  send message x = record x { sent = own message ∷ x.sent }

  unfoldable pub json_response : ℕ → String → List (String × String) → Run S → Run S
  json_response status message extra_headers x =
      send (response_body (error_body message) false)
        (send (response_start status (("content-type", "application/json") ∷ extra_headers)) x)

  abbrev pub opened : GatewayState S → Run S
  opened s = record { state = s; response_started = false; sent = [] }

-- the header "mcp-session-id" in any case
unfoldable pub is_session_header : String → Bool
is_session_header key = elim (after_scheme "mcp-session-id" key) [
  | none ↦ false
  | some rest ↦ is_nothing rest
]

-- the loop over the headers of a response, `false` if a session could not be bound
unfoldable pub bind_headers :
    ℕ → List (String × String) → AccessContext → Bindings → Bool × Bindings
bind_headers now [] context store = (true, store)
bind_headers now ((key, value) ∷ headers) context store =
    let (bound, store') = Bindings.bind now value context store in
    elim (is_session_header key) [
      | false ↦ bind_headers now headers context store
      | true ↦ elim bound [
        | false ↦ (false, store')
        | true ↦ bind_headers now headers context store'
      ]
    ]

-- `if session_id: self.session_bindings.remove(session_id)`
unfoldable pub forget : Option String → Bindings → Bindings
forget none store = store
forget (some session_id) store =
    if session_id == "" then store else Bindings.remove session_id store

-- what a message does to the bindings before it is sent on, by whether its headers could be bound
unfoldable pub settle_bindings :
    Request → ℕ → Option String → Bool × Bindings → Outcome Bindings × Bindings
settle_bindings request status session_id (false, store) = (denied invalid_session, store)
settle_bindings request status session_id (true, store) =
    let removed =
      if request.method == "DELETE" && ltb status 300 then forget session_id store else store in
    (granted removed, removed)

unfoldable pub inspect :
    Request → Option String → AccessContext → ℕ → Message → Bindings → Outcome Bindings × Bindings
inspect request session_id context now (response_start status headers) store =
    settle_bindings request status session_id (bind_headers now headers context store)
inspect request session_id context now _ store = (granted store, store)

module _ {S : Type 0} (env : GatewayEnv S) (request : Request) where
  -- `await self.mcp_access_controller.authorize(request)`
  unfoldable pub authorize : GatewayState S → Outcome AuthorizedMcpRequest × GatewayState S
  authorize s =
      let (outcome, access) =
        env.mcp_access_controller.authorize s.time request s.registry s.access in
      (outcome, record s { access = access })

  module _ (authorized : AuthorizedMcpRequest) (session_id : Option String) where
    -- the test of `guarded_send`
    unfoldable pub is_still_authorized : GatewayState S → AuthorizedMcpRequest → Bool
    is_still_authorized s current =
        is_registered s.registry authorized.channel
        && same_channel current.channel authorized.channel
        && current.context.principal_id == authorized.context.principal_id

    -- `guarded_send` from its test on
    unfoldable pub send_inspected :
        Message → GatewayState S → Outcome Bindings × Bindings → Run S → Outcome (Unit {0}) × Run S
    send_inspected message s (granted _, store) x = (
      granted tt,
      record x {
        state = record s { session_bindings = store };
        response_started = true;
        sent = relayed s message ∷ x.sent;
      },
    )
    send_inspected message s (denied reason, store) x =
        (denied reason, record x { state = record s { session_bindings = store } })
    send_inspected message s (raised e, store) x =
        (raised e, record x { state = record s { session_bindings = store } })

    unfoldable pub send_authorized :
        Message → Outcome AuthorizedMcpRequest × GatewayState S → Run S → Outcome (Unit {0}) × Run S
    send_authorized message (denied reason, s) x = (denied reason, record x { state = s })
    send_authorized message (raised e, s) x = (raised e, record x { state = s })
    send_authorized message (granted current, s) x =
        if is_still_authorized s current
        then send_inspected message s
            (inspect request session_id current.context s.monotonic message s.session_bindings) x
        else (denied channel_forbidden, record x { state = s })

    unfoldable pub guarded_send : Message → Run S → Outcome (Unit {0}) × Run S
    guarded_send message x = send_authorized message (authorize x.state) x

    -- `await self.manager.handle_request(scope, receive, guarded_send)`
    unfoldable pub handle_guarded : Handling S → Run S → Outcome (Unit {0}) × Run S
    handle_guarded (ends outcome) x = (outcome, x)
    handle_guarded (meanwhile change h) x = handle_guarded h (record x { state = change x.state })
    handle_guarded (sends message h) x =
        let (outcome, x') = guarded_send message x in handle_guarded (h outcome) x'

    -- `except McpAccessError`
    unfoldable pub finish :
        (Reason → String) → Outcome (Unit {0}) × Run S → Outcome (Unit {0}) × Run S
    finish challenge (granted done, x) = (granted done, x)
    finish challenge (raised e, x) = (raised e, x)
    finish challenge (denied reason, x) =
        let forgotten = record x {
          state = record x.state { session_bindings = forget session_id x.state.session_bindings };
        } in
        (
          granted tt,
          if x.response_started
              then send (response_body [] false) forgotten
              else json_response (status_code reason) "MCP access denied"
                  (("www-authenticate", challenge reason) ∷ ("cache-control", "no-store") ∷ [])
                  forgotten,
        )
