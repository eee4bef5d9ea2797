-- ===== src/Channel/Relay.antt =====
-- src/mcpgtw/channel.py: what a provider asks of the MCP clients, and what it tells them
-- (`handle_provider_call`, `_call_target`, `_run_client_call`, `handle_provider_notification`,
-- `_relay_progress`, `_relay_log`).
pub mod Targets
pub mod Blocking
use mcp_gtw.Base.{
  ℕ, String, Bool, true, false, Option, none, some, List, [], ◌∷◌, ◌++◌, ℕ_eq, text_eq, ◌==◌, ◌&&◌,
  not, if◌then◌else◌, ltb,
}
use mcp_gtw.Json
use mcp_gtw.Json.{Json, Fields, null, text, object, array, as_text, as_object, is_number}
use mcp_gtw.Errors.{
  Error, Result, ok, err, configuration, channel_offline, channel_replaced, provider_message,
  provider_request, channel_capacity, oauth_rate_limit, value_error, other, mcp_access, Reason,
  missing_token, invalid_token, insufficient_scope, channel_forbidden, verifier_unavailable,
  invalid_session,
}
use mcp_gtw.Settings.{OauthMode, off, resource_server, embedded}
use mcp_gtw.Protocol
use mcp_gtw.Protocol.Words
use mcp_gtw.Dict.{Dict, get, keys}
use mcp_gtw.Channel.{
  Channel, Session, Note, progress, log_message, World, LogLevel, debug, info, notice, warning,
  error, critical, alert, emergency,
}
use mcp_gtw.Channel.Sessions.{latest_session, drop_sessions}
use mcp_gtw.Channel.Calls.{send_to_provider}
use mcp_gtw.Channel.Subscriptions.{notify_resource_updated}

abbrev reason_text : Reason → String
reason_text missing_token = "missing_token"
reason_text invalid_token = "invalid_token"
reason_text insufficient_scope = "insufficient_scope"
reason_text channel_forbidden = "channel_forbidden"
reason_text verifier_unavailable = "verifier_unavailable"
reason_text invalid_session = "invalid_session"

-- str(exc)
abbrev pub message_of : Error → String
message_of (configuration m) = m
message_of (channel_offline m) = m
message_of (channel_replaced m) = m
message_of (provider_message m) = m
message_of (provider_request m) = m
message_of (channel_capacity m) = m
message_of (oauth_rate_limit n) = "OAuth request budget exceeded"
message_of (mcp_access reason) = reason_text reason
message_of (value_error m) = m
message_of (other m) = m

-- `self.settings.oauth_mode != "off"`
abbrev pub oauth_enabled : OauthMode → Bool
oauth_enabled off = false
oauth_enabled resource_server = true
oauth_enabled embedded = true

-- `self.metadata.get("auth_method") == "token"`
abbrev pub has_token_auth : Fields → Bool
has_token_auth metadata = elim (Json.get metadata "auth_method") [
  | text method ↦ method == "token"
  | _ ↦ false
]

-- the session of the request that a call names
abbrev pub originating_session : Channel → Json → Option Session
originating_session c (text request_id) = elim (get c.pending request_id) [
  | none ↦ none
  | some p ↦ p.session
]
originating_session c _ = none

unfoldable pub call_target : Json → Channel → Option Session
call_target originating_request_id c = elim (originating_session c originating_request_id) [
  | some session ↦ some session
  | none ↦
      if oauth_enabled c.settings.oauth_mode && not (has_token_auth c.metadata)
      then none
      else latest_session c
]

unfoldable pub run_client_call : World → Session → Json → Fields → Option (Result Json)
run_client_call w session (text method) params =
    if method == Words.create_message
    then w.create_message session params
    else if method == Words.elicit
    then w.elicit_form session params
    else some (err (provider_request "Unsupported client call"))
run_client_call w session _ params = some (err (provider_request "Unsupported client call"))

-- a run that ended
abbrev pub ended {ℓ κ} : {A : Type ℓ} {B : Type κ} → A × B → Option A × B
ended x = (some x.0, x.1)

-- The answer to the provider, `none` if it never comes, since nothing limits the wait for a client. A
-- failed send of the result is reported as an error in its turn.
unfoldable pub answer_provider :
    World → String → Option (Result Json) → Channel → Option (Result (Unit {0})) × Channel
unfolding send_to_provider
answer_provider w request_id none c = (none, c)
answer_provider w request_id (some (err e)) c =
    ended (send_to_provider w (Protocol.response request_id null (some (message_of e))) c)
answer_provider w request_id (some (ok result)) c =
    let (sent, c') = send_to_provider w (Protocol.response request_id result none) c in
    elim sent [
      | ok _ ↦ (some (ok tt), c')
      | err e ↦
          ended (send_to_provider w (Protocol.response request_id null (some (message_of e))) c')
    ]

unfoldable pub handle_provider_call :
    World → Fields → Channel → Option (Result (Unit {0})) × Channel
unfolding call_target run_client_call answer_provider
handle_provider_call w message c = elim (as_text (Json.get message "requestId")) [
  | none ↦ (some (err (provider_message "'call' requires a string requestId")), c)
  | some request_id ↦ elim (as_object (Json.get message "params")) [
    | none ↦ (some (err (provider_message "'call' requires an object params")), c)
    | some params ↦ elim (call_target (Json.get message "originatingRequestId") c) [
      | none ↦ ended (
          send_to_provider w (Protocol.response request_id null (some "No MCP client is connected"))
            c)
      | some session ↦
          answer_provider w request_id
            (run_client_call w session (Json.get message "method") params) c
    ]
  ]
]

unfoldable pub relay_progress : World → String → Fields → Channel → Channel
relay_progress w request_id params c = elim (get c.pending request_id) [
  | none ↦ c
  | some p ↦ elim p.session [
    | none ↦ c
    | some session ↦ elim p.progress_token [
      | none ↦ c
      | some token ↦
          let note =
            progress token (Json.get params "progress") (Json.get params "total")
              (Json.get params "message") in
          if w.responds session note then record c { notes = (session, note) ∷ c.notes } else c
    ]
  ]
]

-- `_LOG_LEVELS.index(level)`
abbrev pub rank : LogLevel → ℕ
rank debug = 0
rank info = 1
rank notice = 2
rank warning = 3
rank error = 4
rank critical = 5
rank alert = 6
rank emergency = 7

-- `params.get("level")`, if it is in `_LOG_LEVELS`
unfoldable pub parse_level : Json → Option LogLevel
parse_level (text s) =
    if s == "debug"
    then some debug
    else if s == "info"
    then some info
    else if s == "notice"
    then some notice
    else if s == "warning"
    then some warning
    else if s == "error"
    then some error
    else if s == "critical"
    then some critical
    else if s == "alert"
    then some alert
    else if s == "emergency"
    then some emergency
    else none
parse_level _ = none

-- `self._log_levels.get(key, "debug")`
unfoldable pub session_level : Dict ℕ LogLevel → ℕ → LogLevel
session_level levels key = elim (get levels key) [ none ↦ debug | some level ↦ level ]

-- what the sessions of a snapshot get, and the sessions that raised
unfoldable pub log_sweep :
    World → Dict ℕ LogLevel → LogLevel → Note → List ℕ → List (Session × Note) × List ℕ
log_sweep w levels level note [] = ([], [])
log_sweep w levels level note (key ∷ rest) =
    let (told, dead) = log_sweep w levels level note rest in
    if ltb (rank level) (rank (session_level levels key))
    then (told, dead)
    else if w.responds key note
    then ((key, note) ∷ told, dead)
    else (told, key ∷ dead)

unfoldable pub relay_log : World → LogLevel → Fields → Channel → Channel
relay_log w level params c =
    let note = log_message level (Json.get params "data") (Json.get params "logger") in
    let (told, dead) = log_sweep w c.log_levels level note (keys c.mcp_sessions) in
    drop_sessions dead (record c { notes = told ++ c.notes })

unfoldable pub handle_notification : World → Json → Fields → Channel → Result (Unit {0}) × Channel
unfolding relay_progress relay_log parse_level notify_resource_updated
handle_notification w (text method) params c =
    if method == Words.resource_updated
    then elim (as_text (Json.get params "uri")) [
      | none ↦ (err (provider_message "'resources/updated' requires a string uri"), c)
      | some uri ↦ (ok tt, notify_resource_updated w uri c)
    ]
    else if method == Words.message
    then elim (parse_level (Json.get params "level")) [
      | none ↦ (err (provider_message "Invalid log level"), c)
      | some level ↦ (ok tt, relay_log w level params c)
    ]
    else if method == Words.progress
    then elim (as_text (Json.get params "requestId")) [
      | none ↦ (
        err (provider_message "'progress' requires a string requestId and a numeric progress"),
        c,
      )
      | some request_id ↦
          if is_number (Json.get params "progress")
          then (ok tt, relay_progress w request_id params c)
          else (
            err (provider_message "'progress' requires a string requestId and a numeric progress"),
            c,
          )
    ]
    else (err (provider_message "Unsupported notification"), c)
handle_notification w _ params c = (err (provider_message "Unsupported notification"), c)

unfoldable pub handle_provider_notification : World → Fields → Channel → Result (Unit {0}) × Channel
unfolding handle_notification
handle_provider_notification w message c = elim (as_object (Json.get message "params")) [
  | none ↦ (err (provider_message "'notify' requires an object params"), c)
  | some params ↦ handle_notification w (Json.get message "method") params c
]
