-- ===== src/Gateway/Provider/Pump.antt =====
-- src/mcpgtw/gateway.py: how the websocket of a provider is served and left.
use mcp_gtw.Base.{
  ℕ, String, Bool, true, false, Option, none, some, List, [], ◌∷◌, ◌≡◌, inl, inr, refl, ap, sym,
  subst, arith, if◌then◌else◌, text_eq, ℕ_eq, ◌==◌, Bool-cases,
}
use mcp_gtw.Errors.{
  Error, Result, ok, err, configuration, channel_offline, channel_replaced, provider_message,
  provider_request, channel_capacity, oauth_rate_limit, value_error, other, mcp_access,
}
use mcp_gtw.Channel.{Channel, Socket, World}
use mcp_gtw.Channel.Attach.{detach, is_current, detach_locked, all_list_changed}
use mcp_gtw.Channel.Provider.{Side, side, side-notify}
use mcp_gtw.Channel.Relay.Blocking.{Unanswered, handle_provider_message-BlocksOn}
use mcp_gtw.Channel.Messages.{handle_provider_message}
use mcp_gtw.Codec.{decode}
use mcp_gtw.Json.{Fields}
use mcp_gtw.Registry.{Registry}
use mcp_gtw.Registry.Lifecycle.{provider_connected}
use mcp_gtw.Access.{allows}
use mcp_gtw.Gateway.Provider.{
  ProviderEnv, Connection, ProviderState, disconnect, text_message, bytes_message, empty_message,
  Event, meanwhile, receives, Ending, running, blocked, returned, disconnected, raised, Endpoint,
  answer_error, handle_provider_frame, refused, served, publish, close_websocket, message_too_large,
  Incoming, turn_end, turn, continue, pump, then_pump, greet_and_pump, leave, finally_detach,
  conclude, serve_attached, serve_authenticated, provider_endpoint, attached,
}

abbrev pub is_running : Ending → Bool
is_running running = true
is_running _ = false

-- whether a message says that the peer has left
abbrev pub any_disconnect : List Event → Bool
any_disconnect [] = false
any_disconnect (meanwhile change ∷ events) = any_disconnect events
any_disconnect (receives disconnect ∷ events) = true
any_disconnect (receives (text_message cs) ∷ events) = any_disconnect events
any_disconnect (receives (bytes_message n) ∷ events) = any_disconnect events
any_disconnect (receives empty_message ∷ events) = any_disconnect events

is_current-detach :
    (w : World) (websocket : Socket) (c : Channel)
    → is_current (detach w websocket c).1 websocket ≡ false
unfolding detach is_current detach_locked side
is_current-detach w websocket c = elim (Bool-cases (is_current c websocket)) [
  | inr replaced ↦ rw (replaced, detach) replaced
  | inl current ↦
      rw (current, detach)
        (subst (λ (o : Option Socket). (elim o [ none ↦ false | some s ↦ s == websocket ]) ≡ false)
          (sym (ap (λ (t : Side). t.websocket) (side-notify w all_list_changed (detach_locked c))))
          refl)
]

is_running-turn_end :
    (env : ProviderEnv) (websocket : Socket) (e : Error)
    → is_running (turn_end env websocket (some (err e))) ≡ false
unfolding turn_end
is_running-turn_end env websocket (configuration m) = refl
is_running-turn_end env websocket (channel_offline m) = refl
is_running-turn_end env websocket (channel_replaced m) = refl
is_running-turn_end env websocket (provider_message m) = refl
is_running-turn_end env websocket (provider_request m) = refl
is_running-turn_end env websocket (channel_capacity m) = refl
is_running-turn_end env websocket (oauth_rate_limit n) = refl
is_running-turn_end env websocket (value_error m) = refl
is_running-turn_end env websocket (mcp_access m) = refl
is_running-turn_end env websocket (other m) = refl

module _ (env : ProviderEnv) (websocket : Socket) where
  is_current-finally_detach :
      (s : ProviderState) → is_current (finally_detach env websocket s).channel websocket ≡ false
  unfolding finally_detach leave publish
  is_current-finally_detach s = elim (Bool-cases (leave env websocket s).0) [
    | inl was ↦ rw (was, finally_detach) (is_current-detach env.world websocket s.channel)
    | inr not_was ↦ rw (not_was, finally_detach) (is_current-detach env.world websocket s.channel)
  ]

  continue-ends :
      (next : ProviderState → Ending × ProviderState) (o : Ending × ProviderState)
      → ((s : ProviderState) → is_running (next s).0 ≡ false)
      → is_running (continue env websocket next o).0 ≡ false
  unfolding continue
  continue-ends next (running, s) h = h s
  continue-ends next (blocked, s) h = refl
  continue-ends next (returned, s) h = refl
  continue-ends next (disconnected, s) h = refl
  continue-ends next (raised e, s) h = refl

  pump-ends :
      (events : List Event) (s : ProviderState)
      → any_disconnect events ≡ true
      → is_running (pump env websocket events s).0 ≡ false
  unfolding pump turn continue
  pump-ends [] s h = cc
  pump-ends (meanwhile change ∷ events) s h = pump-ends events (change s) h
  pump-ends (receives disconnect ∷ events) s h = refl
  pump-ends (receives (text_message cs) ∷ events) s h =
      continue-ends (pump env websocket events) (turn env websocket (text_message cs) s)
        (λ t. pump-ends events t h)
  pump-ends (receives (bytes_message n) ∷ events) s h =
      continue-ends (pump env websocket events) (turn env websocket (bytes_message n) s)
        (λ t. pump-ends events t h)
  pump-ends (receives empty_message ∷ events) s h =
      continue-ends (pump env websocket events) (turn env websocket empty_message s)
        (λ t. pump-ends events t h)

  -- a run that is blocked waits for a client that never answers
  abbrev Blocks : Ending → Type 0
  Blocks blocked = Unanswered env.world
  Blocks _ = Unit

  raised-Blocks : (e : Error) → Blocks (turn_end env websocket (some (err e)))
  unfolding turn_end
  raised-Blocks (configuration m) = tt
  raised-Blocks (channel_offline m) = tt
  raised-Blocks (channel_replaced m) = tt
  raised-Blocks (provider_message m) = tt
  raised-Blocks (provider_request m) = tt
  raised-Blocks (channel_capacity m) = tt
  raised-Blocks (oauth_rate_limit n) = tt
  raised-Blocks (mcp_access m) = tt
  raised-Blocks (value_error m) = tt
  raised-Blocks (other m) = tt

  turn_end-Blocks :
      (o : Option (Result (Unit {0})))
      → (o ≡ none → Unanswered env.world)
      → Blocks (turn_end env websocket o)
  unfolding turn_end
  turn_end-Blocks none h = h (λ i. none)
  turn_end-Blocks (some (ok done)) h = tt
  turn_end-Blocks (some (err e)) h = raised-Blocks e

  answer_error-none :
      (o : Option (Result (Unit {0})) × Channel)
      → (answer_error env websocket o).0 ≡ none
      → o.0 ≡ none
  unfolding answer_error
  answer_error-none (none, c) h = h
  answer_error-none (some (ok done), c) h = cc h
  answer_error-none (some (err (configuration m)), c) h = cc h
  answer_error-none (some (err (channel_offline m)), c) h = cc h
  answer_error-none (some (err (channel_replaced m)), c) h = cc h
  answer_error-none (some (err (provider_message m)), c) h = cc h
  answer_error-none (some (err (provider_request m)), c) h = cc h
  answer_error-none (some (err (channel_capacity m)), c) h = cc h
  answer_error-none (some (err (oauth_rate_limit n)), c) h = cc h
  answer_error-none (some (err (mcp_access m)), c) h = cc h
  answer_error-none (some (err (value_error m)), c) h = cc h
  answer_error-none (some (err (other m)), c) h = cc h

  -- what is done with a decoded frame
  abbrev framed : Channel → Result Fields → Option (Result (Unit {0})) × Channel
  framed c (ok payload) = handle_provider_message env.lib env.world websocket payload c
  framed c (err e) = (some (err e), c)

  handle_provider_frame-Blocks :
      (text : Option (List ℕ)) (c : Channel)
      → (handle_provider_frame env websocket text c).0 ≡ none
      → Unanswered env.world
  unfolding handle_provider_frame
  handle_provider_frame-Blocks text c h =
      go (decode env.loads env.maximum_json_depth text) (answer_error-none _ h)
    where
      go : (o : Result Fields) → (framed c o).0 ≡ none → Unanswered env.world
      go (ok payload) e = handle_provider_message-BlocksOn env.lib env.world websocket payload c e
      go (err x) e = cc e

  either-Blocks :
      (b : Bool) (x y : Ending × ProviderState)
      → Blocks x.0
      → Blocks y.0
      → (λ (o : Ending × ProviderState). Blocks o.0) (if b then x else y)
  either-Blocks true x y h k = h
  either-Blocks false x y h k = k

  message-Blocks :
      (message : Incoming) (text : Option (List ℕ)) (s : ProviderState)
      → (λ (o : Ending × ProviderState). Blocks o.0)
          (if message_too_large env.maximum_websocket_message_bytes message
            then (returned, close_websocket 1009 "Message too large" s)
            else (
              turn_end env websocket (handle_provider_frame env websocket text s.channel).0,
              publish (handle_provider_frame env websocket text s.channel).1 s,
            ))
  message-Blocks message text s =
      either-Blocks (message_too_large env.maximum_websocket_message_bytes message)
        (returned, close_websocket 1009 "Message too large" s)
        (
          turn_end env websocket (handle_provider_frame env websocket text s.channel).0,
          publish (handle_provider_frame env websocket text s.channel).1 s,
        )
        tt
        (turn_end-Blocks (handle_provider_frame env websocket text s.channel).0
          (handle_provider_frame-Blocks text s.channel))

  continue-Blocks :
      (next : ProviderState → Ending × ProviderState) (o : Ending × ProviderState)
      → ((s : ProviderState) → Blocks (next s).0)
      → Blocks o.0
      → Blocks (continue env websocket next o).0
  unfolding continue
  continue-Blocks next (running, s) h k = h s
  continue-Blocks next (blocked, s) h k = k
  continue-Blocks next (returned, s) h k = tt
  continue-Blocks next (disconnected, s) h k = tt
  continue-Blocks next (raised e, s) h k = tt

  pump-Blocks : (events : List Event) (s : ProviderState) → Blocks (pump env websocket events s).0
  unfolding pump turn continue
  pump-Blocks [] s = tt
  pump-Blocks (meanwhile change ∷ events) s = pump-Blocks events (change s)
  pump-Blocks (receives disconnect ∷ events) s = tt
  pump-Blocks (receives (text_message cs) ∷ events) s =
      continue-Blocks (pump env websocket events) (turn env websocket (text_message cs) s)
        (λ t. pump-Blocks events t) (message-Blocks (text_message cs) (some cs) s)
  pump-Blocks (receives (bytes_message n) ∷ events) s =
      continue-Blocks (pump env websocket events) (turn env websocket (bytes_message n) s)
        (λ t. pump-Blocks events t) (message-Blocks (bytes_message n) none s)
  pump-Blocks (receives empty_message ∷ events) s =
      continue-Blocks (pump env websocket events) (turn env websocket empty_message s)
        (λ t. pump-Blocks events t) (message-Blocks empty_message none s)

  then_pump-Blocks :
      (o : Result (Unit {0}) × Channel) (next : ProviderState → Ending × ProviderState)
      (s : ProviderState)
      → ((t : ProviderState) → Blocks (next t).0)
      → Blocks (then_pump env websocket o next s).0
  unfolding then_pump
  then_pump-Blocks (ok done, c) next s h = h (publish c s)
  then_pump-Blocks (err e, c) next s h = raised-Blocks e

  greet_and_pump-Blocks :
      (version : String) (events : List Event) (s : ProviderState)
      → Blocks (greet_and_pump env websocket version events s).0
  unfolding greet_and_pump
  greet_and_pump-Blocks version events s =
      then_pump-Blocks _ _ s
        (λ t. then_pump-Blocks _ (pump env websocket events) t (λ u. pump-Blocks events u))

  then_pump-ends :
      (o : Result (Unit {0}) × Channel) (next : ProviderState → Ending × ProviderState)
      (s : ProviderState)
      → ((t : ProviderState) → is_running (next t).0 ≡ false)
      → is_running (then_pump env websocket o next s).0 ≡ false
  unfolding then_pump turn_end
  then_pump-ends (ok done, c) next s h = h (publish c s)
  then_pump-ends (err e, c) next s h = is_running-turn_end env websocket e

  greet_and_pump-ends :
      (version : String) (events : List Event) (s : ProviderState)
      → any_disconnect events ≡ true
      → is_running (greet_and_pump env websocket version events s).0 ≡ false
  unfolding greet_and_pump
  greet_and_pump-ends version events s h =
      then_pump-ends _ _ s
        (λ t. then_pump-ends _ (pump env websocket events) t (λ u. pump-ends events u h))

  -- what a provider's endpoint leaves behind
  abbrev pub IsLeft : List Event → Endpoint → Type 0
  IsLeft events (refused code reason r) = Unit
  IsLeft events (served running s) = any_disconnect events ≡ false
  IsLeft events (served blocked s) = Unanswered env.world
  IsLeft events (served _ s) = is_current s.channel websocket ≡ false

  conclude-IsLeft :
      (events : List Event) (o : Ending × ProviderState)
      → (any_disconnect events ≡ true → is_running o.0 ≡ false)
      → Blocks o.0
      → IsLeft events (conclude env websocket o)
  unfolding conclude
  conclude-IsLeft events (running, s) h k = ground arith
  conclude-IsLeft events (blocked, s) h k = k
  conclude-IsLeft events (returned, s) h k = is_current-finally_detach s
  conclude-IsLeft events (disconnected, s) h k = is_current-finally_detach s
  conclude-IsLeft events (raised e, s) h k = is_current-finally_detach s

  serve_attached-IsLeft :
      (version : String) (events : List Event) (s : ProviderState)
      → IsLeft events (serve_attached env websocket version events s)
  unfolding serve_attached leave publish close_websocket
  serve_attached-IsLeft version events s =
      elim (Bool-cases (provider_connected env.policy s.channel s.registry).0) [
        | inl registered ↦
            rw (registered, serve_attached)
              (conclude-IsLeft events
                (greet_and_pump env websocket version events
                  (record s { registry = (provider_connected env.policy s.channel s.registry).1 }))
                (greet_and_pump-ends version events
                  (record s { registry = (provider_connected env.policy s.channel s.registry).1 }))
                (greet_and_pump-Blocks version events
                  (record s { registry = (provider_connected env.policy s.channel s.registry).1 })))
        | inr gone ↦ rw (gone, serve_attached) (is_current-detach env.world websocket s.channel)
      ]

-- Whatever messages a provider sends, whatever other tasks do meanwhile and whatever is raised: a
-- connection that is served does not stay open after the peer has left, unless the pump is blocked
-- by a client that never answers what the provider asks of it; and once it has ended, its socket is no
-- longer the one of the channel.
pub provider_endpoint-IsLeft :
    (env : ProviderEnv) (connection : Connection) (version : String)
    (change : ProviderState → ProviderState) (events : List Event) (now : ℕ) (r : Registry)
    → IsLeft env connection.websocket events
        (provider_endpoint env connection version change events now r)
unfolding provider_endpoint serve_authenticated
provider_endpoint-IsLeft env connection version change events now r =
    elim (Bool-cases (allows env.allowed_provider_origins connection.origin)) [
      | inr foreign ↦ rw (foreign, provider_endpoint) tt
      | inl allowed ↦
          rw (allowed, provider_endpoint)
            (go (env.authenticator.authenticate_provider connection.token r))
    ]
  where
    go :
        (answer : Option Channel)
        → IsLeft env connection.websocket events
            (serve_authenticated env connection version change events now r answer)
    go none = tt
    go (some channel) =
        serve_attached-IsLeft env connection.websocket version events
          (change (attached env connection now r channel))
