-- ===== src/Channel/Relay/Blocking.antt =====
-- src/mcpgtw/channel.py: when a message of the provider is never done with.
use mcp_gtw.Base.{
  String, Bool, true, false, Option, none, some, ◌≡◌, ◌⊎◌, inl, inr, text_eq, ◌==◌, Bool-cases,
  Option-cases, if◌then◌else◌,
}
use mcp_gtw.Json
use mcp_gtw.Json.{Json, Fields, text, as_text, as_object}
use mcp_gtw.Errors.{Error, Result, ok, err}
use mcp_gtw.Protocol.Words
use mcp_gtw.Libraries.{Libraries}
use mcp_gtw.Channel.{Channel, Session, Socket, World}
use mcp_gtw.Channel.Attach.{is_current}
use mcp_gtw.Channel.Relay.{
  ended, run_client_call, answer_provider, handle_provider_call, call_target,
}
use mcp_gtw.Channel.Messages.{dispatch, handle_provider_message}

-- a request that some client never answers
abbrev pub Unanswered : World → Type 0
Unanswered w =
    (session : Session) × (params : Fields) × ((w.create_message session params ≡ none)
      ⊎ (w.elicit_form session params ≡ none))

-- a run that does not end, by whether it ended
abbrev BlocksOn : {A : Type 0} → World → Option A × Channel → Type 0
BlocksOn w (some outcome, c) = Unit
BlocksOn w (none, c) = Unanswered w

if-BlocksOn :
    {A : Type 0} (w : World) (b : Bool) (x y : Option A × Channel)
    → BlocksOn w x
    → BlocksOn w y
    → BlocksOn w (if b then x else y)
if-BlocksOn w true x y h k = h
if-BlocksOn w false x y h k = k

-- a call of a client, by whether it is answered
abbrev Waits : World → Option (Result Json) → Type 0
Waits w (some result) = Unit
Waits w none = Unanswered w

run_client_call-Waits :
    (w : World) (session : Session) (method : Json) (params : Fields)
    → Waits w (run_client_call w session method params)
unfolding run_client_call
run_client_call-Waits w session (text method) params =
    elim (Bool-cases (method == Words.create_message)) [
      | inl asks ↦
          rw (asks, run_client_call)
            (go (w.create_message session params) (λ e. (session, params, inl e)))
      | inr not_sampling ↦ elim (Bool-cases (method == Words.elicit)) [
        | inl asks ↦
            rw (not_sampling, asks, run_client_call)
              (go (w.elicit_form session params) (λ e. (session, params, inr e)))
        | inr other ↦ rw (not_sampling, other, run_client_call) tt
      ]
    ]
  where
    go : (o : Option (Result Json)) → (o ≡ none → Unanswered w) → Waits w o
    go none h = h (λ i. none)
    go (some result) h = tt
run_client_call-Waits w session _ params = tt

answer_provider-BlocksOn :
    (w : World) (request_id : String) (o : Option (Result Json)) (c : Channel)
    → Waits w o
    → BlocksOn w (answer_provider w request_id o c)
unfolding answer_provider
answer_provider-BlocksOn w request_id none c h = h
answer_provider-BlocksOn w request_id (some (err e)) c h = tt
answer_provider-BlocksOn w request_id (some (ok result)) c h = go _ _ _
  where
    go :
        (sent : Result (Unit {0})) (x : Error → Result (Unit {0}) × Channel) (c' : Channel)
        → BlocksOn {A = Result (Unit {0})} w
            (elim sent [ ok _ ↦ (some (ok tt), c') | err e ↦ ended (x e) ])
    go (ok done) x c' = tt
    go (err e) x c' = tt

handle_provider_call-BlocksOn :
    (w : World) (message : Fields) (c : Channel) → BlocksOn w (handle_provider_call w message c)
unfolding handle_provider_call
handle_provider_call-BlocksOn w message c =
    elim (Option-cases (as_text (Json.get message "requestId"))) [
      | inl missing ↦ rw (missing, handle_provider_call) tt
      | inr (request_id, e) ↦ elim (Option-cases (as_object (Json.get message "params"))) [
        | inl missing ↦ rw (e, missing, handle_provider_call) tt
        | inr (params, f) ↦
            elim (Option-cases (call_target (Json.get message "originatingRequestId") c)) [
              | inl nobody ↦ rw (e, f, nobody, handle_provider_call) tt
              | inr (session, g) ↦
                  rw (e, f, g, handle_provider_call)
                    (answer_provider-BlocksOn w request_id _ c
                      (run_client_call-Waits w session (Json.get message "method") params))
            ]
      ]
    ]

dispatch-BlocksOn :
    (lib : Libraries) (w : World) (type : Json) (message : Fields) (c : Channel)
    → BlocksOn w (dispatch lib w type message c)
unfolding dispatch
dispatch-BlocksOn lib w (text type) message c = if-BlocksOn w (type == Words.register) _ _ tt (
    if-BlocksOn w (type == Words.result) _ _ tt (
      if-BlocksOn w (type == Words.call) _ _ (handle_provider_call-BlocksOn w message c) (
        if-BlocksOn w (type == Words.notify) _ _ tt
          (if-BlocksOn w (type == Words.ping) _ _ tt tt))))
dispatch-BlocksOn lib w _ message c = tt

-- A message of the provider is done with unless a client never answers what the provider asks of it.
pub handle_provider_message-BlocksOn :
    (lib : Libraries) (w : World) (websocket : Socket) (message : Fields) (c : Channel)
    → (handle_provider_message lib w websocket message c).0 ≡ none
    → Unanswered w
unfolding handle_provider_message
handle_provider_message-BlocksOn lib w websocket message c h =
    go (handle_provider_message lib w websocket message c)
      (if-BlocksOn w (is_current c websocket) _ _
        (dispatch-BlocksOn lib w (Json.get message "type") message c) tt)
      h
  where
    go : (o : Option (Result (Unit {0})) × Channel) → BlocksOn w o → o.0 ≡ none → Unanswered w
    go (none, d) waits e = waits
    go (some outcome, d) waits e = cc
