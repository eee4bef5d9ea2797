-- ===== src/Gateway/Guard.antt =====
-- src/mcpgtw/gateway.py: what `guarded_send` lets through, over a whole request.
use mcp_gtw.Base.{
  ℕ, ◌+◌, String, Bool, true, false, Option, List, [], ◌∷◌, ◌≡◌, ◌⊎◌, inl, inr, refl, ap, sym, ◌∙◌,
  arith, text_eq, ==_iff, Bool-cases,
}
use mcp_gtw.Oauth.Bindings.{Bindings}
use mcp_gtw.Access.{
  Reason, Outcome, granted, denied, raised, Request, AuthorizedMcpRequest, same_channel,
  is_registered,
}
use mcp_gtw.Gateway.{
  GatewayState, GatewayEnv, Message, response_start, response_body, websocket_close, Sent, own,
  relayed, Run, Handling, ends, meanwhile, sends,
}
use mcp_gtw.Gateway.Responses.{
  send, json_response, opened, inspect, authorize, is_still_authorized, send_inspected,
  send_authorized, guarded_send, handle_guarded, finish,
}

module _ {S : Type 0} where
  -- what holds of every message that the MCP server sent
  abbrev pub EachRelayed : (GatewayState S → Message → Type 0) → List (Sent S) → Type 0
  EachRelayed P [] = Unit
  EachRelayed P (own message ∷ sent) = EachRelayed P sent
  EachRelayed P (relayed s message ∷ sent) = P s message × EachRelayed P sent

  abbrev pub any_relayed : List (Sent S) → Bool
  any_relayed [] = false
  any_relayed (own message ∷ sent) = any_relayed sent
  any_relayed (relayed s message ∷ sent) = true

  -- how many responses the gateway itself began
  abbrev pub own_starts : List (Sent S) → ℕ
  own_starts [] = 0
  own_starts (own (response_start status headers) ∷ sent) = 1 + own_starts sent
  own_starts (own (response_body body more) ∷ sent) = own_starts sent
  own_starts (own (websocket_close code) ∷ sent) = own_starts sent
  own_starts (relayed s message ∷ sent) = own_starts sent

  -- a run of the MCP server, before the gateway adds anything of its own
  pub record IsServed (P : GatewayState S → Message → Type 0) (x : Run S) : Type 0 where
    pub each : EachRelayed P x.sent
    pub started : x.response_started ≡ any_relayed x.sent
    pub silent : own_starts x.sent ≡ 0

  -- a whole response: the gateway begins one only if the MCP server sent nothing
  pub record IsResponse (P : GatewayState S → Message → Type 0) (x : Run S) : Type 0 where
    pub each : EachRelayed P x.sent
    pub single : (own_starts x.sent ≡ 0) ⊎ ((own_starts x.sent ≡ 1) × (any_relayed x.sent ≡ false))

  pub json_response-IsResponse :
      (P : GatewayState S → Message → Type 0) (status : ℕ) (message : String)
      (headers : List (String × String)) (s : GatewayState S)
      → IsResponse P (json_response status message headers (opened s))
  unfolding json_response send
  json_response-IsResponse P status message headers s = record {
    each = tt;
    single = inr (refl, refl);
  }

  module _ (env : GatewayEnv S) (request : Request) where
    -- A moment at which the controller authorizes the request for the same principal and the same
    -- channel, which is still registered.
    abbrev pub IsGuarded : AuthorizedMcpRequest → GatewayState S → Message → Type 0
    IsGuarded authorized s message =
        (before : GatewayState S) × (current : AuthorizedMcpRequest) × (◌≡◌
          {A = Outcome AuthorizedMcpRequest × GatewayState S} (authorize env request before)
          (granted current, s))
        × (is_registered s.registry authorized.channel ≡ true)
        × (same_channel current.channel authorized.channel ≡ true)
        × (current.context.principal_id ≡ authorized.context.principal_id)

    module _ (authorized : AuthorizedMcpRequest) (session_id : Option String) where
      send_inspected-IsServed :
          (message : Message) (before : GatewayState S) (current : AuthorizedMcpRequest)
          (s : GatewayState S) (bound : Outcome Bindings × Bindings) (x : Run S)
          → ◌≡◌ {A = Outcome AuthorizedMcpRequest × GatewayState S}
              (authorize env request before)
              (granted current, s)
          → is_still_authorized env request authorized session_id s current ≡ true
          → IsServed (IsGuarded authorized) x
          → IsServed
              (IsGuarded authorized)
              (send_inspected env request authorized session_id message s bound x).1
      unfolding send_inspected is_still_authorized
      send_inspected-IsServed message before current s (granted a, store) x e guarded h = record {
        each = (
          (
            before,
            current,
            e,
            ground arith,
            ground arith,
            ground (arith, ==_iff current.context.principal_id authorized.context.principal_id),
          ),
          h.each,
        );
        started = refl;
        silent = h.silent;
      }
      send_inspected-IsServed message before current s (denied reason, store) x e guarded h =
          record { each = h.each; started = h.started; silent = h.silent }
      send_inspected-IsServed message before current s (raised exception, store) x e guarded h =
          record { each = h.each; started = h.started; silent = h.silent }

      send_authorized-IsServed :
          (message : Message) (before : GatewayState S)
          (o : Outcome AuthorizedMcpRequest × GatewayState S) (x : Run S)
          → ◌≡◌ {A = Outcome AuthorizedMcpRequest × GatewayState S} (authorize env request before) o
          → IsServed (IsGuarded authorized) x
          → IsServed
              (IsGuarded authorized)
              (send_authorized env request authorized session_id message o x).1
      unfolding send_authorized
      send_authorized-IsServed message before (denied reason, s) x e h = record {
        each = h.each;
        started = h.started;
        silent = h.silent;
      }
      send_authorized-IsServed message before (raised exception, s) x e h = record {
        each = h.each;
        started = h.started;
        silent = h.silent;
      }
      send_authorized-IsServed message before (granted current, s) x e h =
          elim (Bool-cases (is_still_authorized env request authorized session_id s current)) [
            | inr refused ↦
                rw (refused, send_authorized)
                  (record { each = h.each; started = h.started; silent = h.silent })
            | inl guarded ↦
                rw (guarded, send_authorized)
                  (send_inspected-IsServed message before current s
                    (inspect request session_id current.context s.monotonic message
                      s.session_bindings)
                    x e guarded h)
          ]

      guarded_send-IsServed :
          (message : Message) (x : Run S)
          → IsServed (IsGuarded authorized) x
          → IsServed
              (IsGuarded authorized)
              (guarded_send env request authorized session_id message x).1
      unfolding guarded_send
      guarded_send-IsServed message x h =
          send_authorized-IsServed message x.state (authorize env request x.state) x refl h

      pub handle_guarded-IsServed :
          (handling : Handling S) (x : Run S)
          → IsServed (IsGuarded authorized) x
          → IsServed
              (IsGuarded authorized)
              (handle_guarded env request authorized session_id handling x).1
      unfolding handle_guarded
      handle_guarded-IsServed (ends outcome) x h = h
      handle_guarded-IsServed (meanwhile change rest) x h =
          handle_guarded-IsServed rest (record x { state = change x.state })
            (record { each = h.each; started = h.started; silent = h.silent })
      handle_guarded-IsServed (sends message rest) x h =
          handle_guarded-IsServed
            (rest (guarded_send env request authorized session_id message x).0)
            (guarded_send env request authorized session_id message x).1
            (guarded_send-IsServed message x h)

      pub finish-IsResponse :
          (challenge : Reason → String) (o : Outcome (Unit {0})) (x : Run S)
          → IsServed (IsGuarded authorized) x
          → IsResponse
              (IsGuarded authorized)
              (finish env request authorized session_id challenge (o, x)).1
      unfolding finish send json_response
      finish-IsResponse challenge (granted done) x h = record {
        each = h.each;
        single = inl h.silent;
      }
      finish-IsResponse challenge (raised e) x h = record { each = h.each; single = inl h.silent }
      finish-IsResponse challenge (denied reason) x h = elim (Bool-cases x.response_started) [
        | inl started ↦ rw (started, finish) (record { each = h.each; single = inl h.silent })
        | inr not_started ↦
            rw (not_started, finish)
              (record {
                each = h.each;
                single = inr (ap (λ n. 1 + n) h.silent, sym h.started ∙ not_started);
              })
      ]
