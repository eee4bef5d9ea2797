-- ===== src/Gateway/Admission.antt =====
-- src/mcpgtw/gateway.py: which requests `mcp_asgi` hands to the MCP server, and what a client gets.
use mcp_gtw.Base.{
  String, Bool, true, false, Option, none, some, List, [], ◌∷◌, ◌≡◌, inl, inr, refl, ap, sym, ◌∙◌,
  arith, ◌&&◌, ◌||◌, not, text_eq, ◌==◌, Bool-cases,
}
use mcp_gtw.Oauth.Bindings.{Bindings, identity}
use mcp_gtw.Oauth.Bindings.Decisions.{owner, accepts-owner}
use mcp_gtw.Oauth.RateLimit.{RateLimit, admit}
use mcp_gtw.Access.{
  Reason, Outcome, granted, denied, raised, Request, AuthorizedMcpRequest, allows, status_code,
}
use mcp_gtw.Access.Controllers.{addressed_channel}
use mcp_gtw.Gateway.{GatewayState, GatewayEnv, Message, Sent, own, relayed, Run, Handling, http}
use mcp_gtw.Gateway.Responses.{opened, authorize, handle_guarded, finish}
use mcp_gtw.Gateway.Mcp.{
  accepts_session, serve_session, serve_enabled, serve_channel, budget_keys, over_budget,
  budget_answered, within_budget, serve_authorized, serve_http, mcp_asgi, session_of,
}
use mcp_gtw.Gateway.Guard.{
  EachRelayed, IsResponse, IsGuarded, json_response-IsResponse, handle_guarded-IsServed,
  finish-IsResponse,
}

module _ {S : Type 0} where
  EachRelayed-map :
      (P Q : GatewayState S → Message → Type 0) (sent : List (Sent S))
      → ((s : GatewayState S) (message : Message) → P s message → Q s message)
      → EachRelayed P sent
      → EachRelayed Q sent
  EachRelayed-map P Q [] implied h = tt
  EachRelayed-map P Q (own message ∷ sent) implied h = EachRelayed-map P Q sent implied h
  EachRelayed-map P Q (relayed s message ∷ sent) implied (first, rest) =
      (implied s message first, EachRelayed-map P Q sent implied rest)

  IsResponse-map :
      (P Q : GatewayState S → Message → Type 0) (x : Run S)
      → ((s : GatewayState S) (message : Message) → P s message → Q s message)
      → IsResponse P x
      → IsResponse Q x
  IsResponse-map P Q x implied h = record {
    each = EachRelayed-map P Q x.sent implied h.each;
    single = h.single;
  }

  module _ (env : GatewayEnv S) (request : Request) where
    -- no session, or exactly one that is bound to the identity of the request
    abbrev pub HasSession : GatewayState S → AuthorizedMcpRequest → List String → Type 0
    HasSession s authorized [] = Unit
    HasSession s authorized (session_id ∷ []) =
        (env.mcp_stateless ≡ false)
        × (owner s.monotonic s.session_bindings session_id ≡ some (identity authorized.context))
    HasSession s authorized (session_id ∷ more ∷ session_ids) = ⊥

    -- A request as it came in a state: from an allowed origin, authorized, for the channel that its
    -- path names if it names one, and in a session of its own if it is in one.
    pub record IsAdmitted (s : GatewayState S) (authorized : AuthorizedMcpRequest) : Type 0 where
      pub origin : allows env.allowed_mcp_origins request.origin ≡ true
      pub known : (authorize env request s).0 ≡ granted authorized
      pub addressed :
          (addressed_channel request == ""
            || addressed_channel request == authorized.channel.channel_id)
          ≡ true
      pub session : HasSession s authorized request.mcp_session_id

    -- a message that may be relayed in answer to a request that came in a state
    abbrev pub IsRelayable : GatewayState S → GatewayState S → Message → Type 0
    IsRelayable first s message =
        (authorized : AuthorizedMcpRequest) × IsAdmitted first authorized
        × IsGuarded env request authorized s message

    accepts_session-HasSession :
        (s : GatewayState S) (authorized : AuthorizedMcpRequest) (session_ids : List String)
        → (accepts_session env request s.monotonic authorized.context session_ids
            s.session_bindings).0
          ≡ true
        → HasSession s authorized session_ids
    unfolding accepts_session
    accepts_session-HasSession s authorized [] h = tt
    accepts_session-HasSession s authorized (session_id ∷ []) h =
        elim (Bool-cases env.mcp_stateless) [
          | inl stateless ↦ ground arith
          | inr stateful ↦ (
            stateful,
            (accepts-owner s.monotonic session_id authorized.context s.session_bindings).0.0
                (ground arith),
          )
        ]
    accepts_session-HasSession s authorized (session_id ∷ more ∷ session_ids) h = ground arith

    serve_session-IsResponse :
        (first : GatewayState S) (challenge : Reason → String) (authorized : AuthorizedMcpRequest)
        (handling : Handling S) (accepted : Bool) (s : GatewayState S)
        → (accepted ≡ true → IsAdmitted first authorized)
        → IsResponse
            (IsRelayable first)
            (serve_session env request challenge authorized handling accepted s).1
    unfolding serve_session
    serve_session-IsResponse first challenge authorized handling false s admitted =
        json_response-IsResponse (IsRelayable first) 404 "Unknown MCP session" [] s
    serve_session-IsResponse first challenge authorized handling true s admitted =
        IsResponse-map (IsGuarded env request authorized) (IsRelayable first)
          (finish env request authorized (session_of env request request.mcp_session_id) challenge
            served).1
          (λ t message guarded. (authorized, admitted refl, guarded))
          (finish-IsResponse env request authorized (session_of env request request.mcp_session_id)
            challenge served.0 served.1
            (handle_guarded-IsServed env request authorized
              (session_of env request request.mcp_session_id) handling (opened s)
              (record { each = tt; started = refl; silent = refl })))
      where
        served : Outcome (Unit {0}) × Run S
        served =
            handle_guarded env request authorized (session_of env request request.mcp_session_id)
              handling (opened s)

    within_budget-IsResponse :
        (P : GatewayState S → Message → Type 0) (keys : List String)
        (next : GatewayState S → Outcome (Unit {0}) × Run S) (s : GatewayState S)
        → ((t : GatewayState S)
            → ◌≡◌ {A = GatewayState S} t (record s { oauth_rate_limit = t.oauth_rate_limit })
            → IsResponse P (next t).1)
        → IsResponse P (within_budget env request keys next s).1
    unfolding within_budget budget_answered over_budget
    within_budget-IsResponse P [] next s follows = follows s refl
    within_budget-IsResponse P (key ∷ keys) next s follows =
        go (admit s.monotonic key s.oauth_rate_limit) (λ limit.
          within_budget-IsResponse P keys next (record s { oauth_rate_limit = limit }) follows)
      where
        go :
            (answer : Option (Bool × RateLimit))
            → ((limit : RateLimit)
                → IsResponse P
                    (within_budget env request keys next (record s { oauth_rate_limit = limit })).1)
            → IsResponse P
                (budget_answered env request key s
                  (λ limit.
                    within_budget env request keys next (record s { oauth_rate_limit = limit }))
                  answer).1
        go none rest = record { each = tt; single = inl refl }
        go (some (false, limit)) rest =
            json_response-IsResponse P 429 "Request budget exceeded" _
              (record s { oauth_rate_limit = limit })
        go (some (true, limit)) rest = rest limit

    serve_enabled-IsResponse :
        (first : GatewayState S) (authorized : AuthorizedMcpRequest) (handling : Handling S)
        (metadata : Option (Reason → String)) (challenge : Reason → String) (s : GatewayState S)
        → metadata ≡ some challenge
        → ((accepts_session env request s.monotonic authorized.context request.mcp_session_id
                s.session_bindings).0
              ≡ true
            → IsAdmitted first authorized)
        → IsResponse
            (IsRelayable first)
            (serve_enabled env request metadata authorized handling s).1
    unfolding serve_enabled
    serve_enabled-IsResponse first authorized handling none challenge s enabled admitted = cc
    serve_enabled-IsResponse first authorized handling (some used) challenge s enabled admitted =
        serve_session-IsResponse first used authorized handling
          (accepts_session env request s.monotonic authorized.context request.mcp_session_id
            s.session_bindings).0
          (record s {
            session_bindings =
                (accepts_session env request s.monotonic authorized.context request.mcp_session_id
                  s.session_bindings).1;
          })
          admitted

    serve_channel-IsResponse :
        (first : GatewayState S) (challenge : Reason → String) (authorized : AuthorizedMcpRequest)
        (handling : Handling S) (s : GatewayState S)
        → env.oauth_metadata ≡ some challenge
        → allows env.allowed_mcp_origins request.origin ≡ true
        → (authorize env request first).0 ≡ granted authorized
        → first.monotonic ≡ s.monotonic
        → ◌≡◌ {A = Bindings} first.session_bindings s.session_bindings
        → IsResponse (IsRelayable first) (serve_channel env request authorized handling s).1
    unfolding serve_channel authorize
    serve_channel-IsResponse first challenge authorized handling s enabled allowed known clock
          kept =
        elim (Bool-cases (
          not (addressed_channel request == "")
          && not (addressed_channel request == authorized.channel.channel_id))) [
            | inl unknown ↦
                rw (unknown, serve_channel)
                  (json_response-IsResponse (IsRelayable first) 404 "Unknown MCP service" [] s)
            | inr addressed ↦
                rw (addressed, serve_channel)
                  (serve_enabled-IsResponse first authorized handling env.oauth_metadata challenge s
                    enabled
                    (λ accepted. record {
                      origin = allowed;
                      known = known;
                      addressed = ground arith;
                      session =
                          accepts_session-HasSession first authorized request.mcp_session_id
                            (rw (clock, kept) accepted);
                    }))
          ]

    serve_authorized-IsResponse :
        (first : GatewayState S) (challenge : Reason → String) (handling : Handling S)
        (o : Outcome AuthorizedMcpRequest) (s : GatewayState S)
        → env.oauth_metadata ≡ some challenge
        → allows env.allowed_mcp_origins request.origin ≡ true
        → (authorize env request first).0 ≡ o
        → first.monotonic ≡ s.monotonic
        → ◌≡◌ {A = Bindings} first.session_bindings s.session_bindings
        → IsResponse (IsRelayable first) (serve_authorized env request handling (o, s)).1
    unfolding serve_authorized
    serve_authorized-IsResponse first challenge handling (raised e) s enabled allowed known clock
          kept =
        record { each = tt; single = inl refl }
    serve_authorized-IsResponse first challenge handling (denied reason) s enabled allowed known
          clock kept =
        json_response-IsResponse (IsRelayable first) (status_code reason) "MCP access denied" _ s
    serve_authorized-IsResponse first challenge handling (granted authorized) s enabled allowed
          known clock kept =
        within_budget-IsResponse (IsRelayable first) (budget_keys env request authorized.context)
          (serve_channel env request authorized handling) s
          (λ t same.
            serve_channel-IsResponse first challenge authorized handling t enabled allowed known
              (clock ∙ sym (ap (λ u. u.monotonic) same))
              (kept ∙ sym (ap (λ u. u.session_bindings) same)))

-- With OAuth enabled, whatever the MCP server does and whatever other tasks do meanwhile: a message
-- of the MCP server reaches the client only if the request came from an allowed origin, was
-- authorized, named no other channel in its path, and was in no session or in exactly one that is
-- bound to its identity; and it does so at a moment at which the controller authorizes the request
-- for the same principal and the same channel object, which is still registered. The gateway
-- itself begins at most one response, and that only if the MCP server has sent nothing.
pub mcp_asgi-IsResponse :
    {S : Type 0} (env : GatewayEnv S) (request : Request) (handling : Handling S)
    (s : GatewayState S) (challenge : Reason → String)
    → env.oauth_metadata ≡ some challenge
    → IsResponse (IsRelayable env request s) (mcp_asgi env (http request) handling s).1
unfolding mcp_asgi serve_http authorize
mcp_asgi-IsResponse env request handling s challenge enabled =
    elim (Bool-cases (allows env.allowed_mcp_origins request.origin)) [
      | inr foreign ↦
          rw (foreign, mcp_asgi, serve_http)
            (json_response-IsResponse (IsRelayable env request s) 403 "Origin not allowed" [] s)
      | inl allowed ↦
          rw (allowed, mcp_asgi, serve_http)
            (within_budget-IsResponse env request (IsRelayable env request s) _
              (λ t. serve_authorized env request handling (authorize env request t)) s
              (λ t same.
                serve_authorized-IsResponse env request s challenge handling
                  (authorize env request t).0 (authorize env request t).1 enabled allowed
                  (ap (λ u. (authorize env request u).0) (sym same))
                  (ap (λ u. u.monotonic) (sym same)) (ap (λ u. u.session_bindings) (sym same))))
    ]
