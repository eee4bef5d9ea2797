-- ===== src/Channel/Names.antt =====
-- src/mcpgtw/channel.py: no operation of a channel changes its id or its tokens, which is what the
-- registry's indexes rely on.
use mcp_gtw.Base.{
  String, Bool, true, false, Option, List, ◌≡◌, refl, ap, ◌∙◌, arith, text_eq, ◌==◌, Option-cases,
  inl, inr, if◌then◌else◌,
}
use mcp_gtw.Json
use mcp_gtw.Json.{Json, Fields, as_text, text}
use mcp_gtw.Errors.{Result, ok, err}
use mcp_gtw.Protocol.Words
use mcp_gtw.Libraries.{Libraries}
use mcp_gtw.Channel.{Channel, Socket, Session, World}
use mcp_gtw.Channel.Attach.{
  attach_locked, detach_locked, close_locked, clear_registries, fail_pending, is_current,
}
use mcp_gtw.Channel.Registrations.{register_locked, register, list_changed}
use mcp_gtw.Channel.Calls.{call_begin, call_end, handle_result}
use mcp_gtw.Channel.Messages.{
  items_of, acknowledge, handle_register, dispatch, handle_provider_message,
}
use mcp_gtw.Channel.Sessions.{notify}
use mcp_gtw.Channel.Provider.{
  Side, side, side-remember, side-drop_sessions, side-notify, side-send, side-handle_provider_call,
  side-handle_provider_notification, side-close_socket, side-send_locked, side-call_resume,
  side-set_log_level, side-subscribe_begin, side-subscribe_failed, side-unsubscribe_end,
}
use mcp_gtw.Channel.System.{
  Step, attaches, detaches, closes, closes_socket, begins, sends, resumes, ends, receives,
  remembers, drops, notifies, sets_level, subscribes, fails_subscribe, unsubscribes,
}

abbrev pub names : Channel → String × String × String
names c = (c.channel_id, c.mcp_token, c.provider_token)

names-side : (c d : Channel) → side d ≡ side c → names d ≡ names c
unfolding side
names-side c d e = ap (λ (s : Side). (s.channel_id, s.mcp_token, s.provider_token)) e

names-attach_locked :
    (ws : Socket) (id : String) (name : Option String) (c : Channel)
    → names (attach_locked ws id name c) ≡ names c
unfolding attach_locked clear_registries fail_pending
names-attach_locked ws id name c = ground arith

names-detach_locked : (c : Channel) → names (detach_locked c) ≡ names c
unfolding detach_locked clear_registries fail_pending
names-detach_locked c = refl

names-close_locked : (c : Channel) → names (close_locked c) ≡ names c
unfolding close_locked clear_registries fail_pending
names-close_locked c = refl

names-call_begin :
    (id : String) (session : Option Session) (token : Option Json) (c : Channel)
    → names (call_begin id session token c).1 ≡ names c
unfolding call_begin
names-call_begin id session token c = ground arith

names-call_end : (id : String) (c : Channel) → names (call_end id c) ≡ names c
unfolding call_end
names-call_end id c = refl

names-handle_result :
    (w : World) (m : Fields) (c : Channel) → names (handle_result w m c).1 ≡ names c
unfolding handle_result
names-handle_result w m c = ground arith

names-register_locked :
    (lib : Libraries) (registry : String) (items : List Fields) (c d : Channel)
    → register_locked lib registry items c ≡ ok d
    → names d ≡ names c
unfolding register_locked
names-register_locked lib registry items c d e = ground arith

abbrev KeptBy : {A : Type 0} → Channel → A × Channel → Type 0
KeptBy c r = names r.1 ≡ names c

if-KeptBy :
    {A : Type 0} (c : Channel) (b : Bool) (x y : A × Channel)
    → KeptBy c x
    → KeptBy c y
    → KeptBy c (if b then x else y)
if-KeptBy c true x y h k = h
if-KeptBy c false x y h k = k

acknowledge-KeptBy :
    (w : World) (frame : Json) (c : Channel) (r : Result (Unit {0}) × Channel)
    → KeptBy c r
    → KeptBy c (acknowledge w frame r)
unfolding acknowledge
acknowledge-KeptBy w frame c (err e, d) h = h
acknowledge-KeptBy w frame c (ok done, d) h = names-side d _ (side-send w frame d) ∙ h

register-KeptBy :
    (lib : Libraries) (w : World) (registry : String) (items : List Fields) (c : Channel)
    → KeptBy c (register lib w registry items c)
unfolding register
register-KeptBy lib w registry items c = go (register_locked lib registry items c) refl
  where
    go :
        (r : Result Channel)
        → register_locked lib registry items c ≡ r
        → KeptBy {A = Result (Unit {0})} c
            (elim r [ ok c' ↦ (ok tt, notify w (list_changed registry) c') | err e ↦ (err e, c) ])
    go (ok d) e =
        names-side d (notify w (list_changed registry) d) (side-notify w (list_changed registry) d)
        ∙ names-register_locked lib registry items c d e
    go (err x) e = refl

handle_register-KeptBy :
    (lib : Libraries) (w : World) (m : Fields) (c : Channel) → KeptBy c (handle_register lib w m c)
unfolding handle_register
handle_register-KeptBy lib w m c = elim (Option-cases (as_text (Json.get m "registry"))) [
  | inl e ↦ rw (e, handle_register) refl
  | inr (registry, e) ↦ elim (Option-cases (items_of (Json.get m "items"))) [
    | inl f ↦ rw (e, f, handle_register) refl
    | inr (items, f) ↦
        rw (e, f, handle_register)
          (acknowledge-KeptBy w _ c (register lib w registry items c)
            (register-KeptBy lib w registry items c))
  ]
]

dispatch-KeptBy :
    (lib : Libraries) (w : World) (type : Json) (m : Fields) (c : Channel)
    → KeptBy c (dispatch lib w type m c)
unfolding dispatch
dispatch-KeptBy lib w (text type) m c =
    if-KeptBy c (type == Words.register) _ _ (handle_register-KeptBy lib w m c) (
      if-KeptBy c (type == Words.result) _ _ (names-handle_result w m c) (
        if-KeptBy c (type == Words.call) _ _ (names-side c _ (side-handle_provider_call w m c)) (
          if-KeptBy c (type == Words.notify) _ _
            (names-side c _ (side-handle_provider_notification w m c))
            (if-KeptBy c (type == Words.ping) _ _ (names-side c _ (side-send w _ c)) refl))))
dispatch-KeptBy lib w _ m c = refl

message-KeptBy :
    (lib : Libraries) (w : World) (ws : Socket) (m : Fields) (c : Channel)
    → KeptBy c (handle_provider_message lib w ws m c)
unfolding handle_provider_message
message-KeptBy lib w ws m c =
    if-KeptBy c (is_current c ws) _ _ (dispatch-KeptBy lib w (Json.get m "type") m c) refl

-- No step of a channel, in whatever order the steps come, changes its id or one of its tokens.
pub Step-names : {lib : Libraries} {w : World} {c d : Channel} → Step lib w c d → names d ≡ names c
Step-names (attaches c ws id name) = names-attach_locked ws id name c
Step-names (detaches c ws _) = names-detach_locked c
Step-names (closes c) = names-close_locked c
Step-names (closes_socket c s code) = names-side c _ (side-close_socket s code c)
Step-names (begins c id session token) = names-call_begin id session token c
Step-names {w = w} (sends c s m) = names-side c _ (side-send_locked w s m c)
Step-names {w = w} (resumes c id wakeup) = names-side c _ (side-call_resume w id wakeup c)
Step-names (ends c id) = names-call_end id c
Step-names {lib} {w} (receives c ws m) = message-KeptBy lib w ws m c
Step-names (remembers c session) = names-side c _ (side-remember session c)
Step-names (drops c keys) = names-side c _ (side-drop_sessions keys c)
Step-names {w = w} (notifies c notes) = names-side c _ (side-notify w notes c)
Step-names (sets_level c session level) = names-side c _ (side-set_log_level session level c)
Step-names (subscribes c uri session) = names-side c _ (side-subscribe_begin uri session c)
Step-names (fails_subscribe c uri o session) =
    names-side c _ (side-subscribe_failed uri o session c)
Step-names (unsubscribes c uri session) = names-side c _ (side-unsubscribe_end uri session c)
