-- ===== src/Channel/System.antt =====
-- src/mcpgtw/channel.py as a transition system. A step is one part of an operation that runs
-- without an await, so a sequence of steps is any interleaving of the tasks that share a channel:
-- callers of `_call_provider` at each point of their wait, the provider's messages, connections that
-- come and go, sessions and subscriptions.
use mcp_gtw.Base.{
  ℕ, String, Bool, true, false, Option, none, some, List, ◌≡◌, refl, arith, text_eq, Option-cases,
  inl, inr, ◌==◌, if◌then◌else◌,
}
use mcp_gtw.Json
use mcp_gtw.Json.{Json, Fields, as_text, text}
use mcp_gtw.Errors.{Result, ok, err}
use mcp_gtw.Protocol.Words
use mcp_gtw.Libraries.{Libraries}
use mcp_gtw.Channel.{Channel, Socket, Session, Note, World, LogLevel}
use mcp_gtw.Channel.Sessions.{remember_mcp_session, drop_sessions, notify, set_log_level}
use mcp_gtw.Channel.Attach.{attach_locked, is_current, detach_locked, close_locked, close_socket}
use mcp_gtw.Channel.Registrations.{register_locked, register, list_changed}
use mcp_gtw.Channel.Calls.{call_begin, send_locked, Wakeup, call_resume, call_end}
use mcp_gtw.Channel.Subscriptions.{subscribe_begin, subscribe_failed, unsubscribe_end}
use mcp_gtw.Channel.Messages.{
  items_of, acknowledge, handle_register, dispatch, handle_provider_message,
}
use mcp_gtw.Channel.Provider.{
  side, side-remember, side-drop_sessions, side-notify, side-send, side-handle_provider_call,
  side-handle_provider_notification, side-close_socket, side-send_locked, side-call_resume,
  side-set_log_level, side-subscribe_begin, side-subscribe_failed, side-unsubscribe_end,
}
use mcp_gtw.Channel.Provider.Soundness.{
  IsSound, attach_locked-IsSound, detach_locked-IsSound, close_locked-IsSound, call_begin-IsSound,
  call_end-IsSound, handle_result-IsSound, register_locked-IsSound,
}

pub data Step (lib : Libraries) (w : World) : Channel → Channel → Type 0 where
  attaches :
      (c : Channel) (websocket : Socket) (id : String) (name : Option String)
      → Step lib w c (attach_locked websocket id name c)
  detaches :
      (c : Channel) (websocket : Socket)
      → is_current c websocket ≡ true
      → Step lib w c (detach_locked c)
  closes : (c : Channel) → Step lib w c (close_locked c)
  closes_socket :
      (c : Channel) (s : Option Socket) (code : ℕ) → Step lib w c (close_socket s code c)
  begins :
      (c : Channel) (id : String) (session : Option Session) (token : Option Json)
      → Step lib w c (call_begin id session token c).1
  sends : (c : Channel) (s : Socket) (message : Json) → Step lib w c (send_locked w s message c).1
  resumes :
      (c : Channel) (id : String) (wakeup : Wakeup) → Step lib w c (call_resume w id wakeup c).1
  ends : (c : Channel) (id : String) → Step lib w c (call_end id c)
  receives :
      (c : Channel) (websocket : Socket) (message : Fields)
      → Step lib w c (handle_provider_message lib w websocket message c).1
  remembers : (c : Channel) (session : Session) → Step lib w c (remember_mcp_session session c)
  drops : (c : Channel) (keys : List ℕ) → Step lib w c (drop_sessions keys c)
  notifies : (c : Channel) (notes : List Note) → Step lib w c (notify w notes c)
  sets_level :
      (c : Channel) (session : Session) (level : LogLevel)
      → Step lib w c (set_log_level session level c)
  subscribes :
      (c : Channel) (uri : String) (session : Session)
      → Step lib w c (subscribe_begin uri session c).1
  fails_subscribe :
      (c : Channel) (uri : String) (object_id : ℕ) (session : Session)
      → Step lib w c (subscribe_failed uri object_id session c)
  unsubscribes :
      (c : Channel) (uri : String) (session : Session)
      → Step lib w c (unsubscribe_end uri session c)

pub data Reach (lib : Libraries) (w : World) (c : Channel) : Channel → Type 0 where
  here : Reach lib w c c
  next : {d e : Channel} → Reach lib w c d → Step lib w d e → Reach lib w c e

-- the channel after an operation, whether or not it raised
abbrev IsSoundAfter : {A : Type 0} → A × Channel → Type 0
IsSoundAfter r = IsSound (side r.1)

if-IsSoundAfter :
    {A : Type 0} (b : Bool) (x y : A × Channel)
    → IsSoundAfter x
    → IsSoundAfter y
    → IsSoundAfter (if b then x else y)
if-IsSoundAfter true x y h k = h
if-IsSoundAfter false x y h k = k

acknowledge-IsSound :
    (w : World) (frame : Json) (r : Result (Unit {0}) × Channel)
    → IsSoundAfter r
    → IsSoundAfter (acknowledge w frame r)
unfolding acknowledge
acknowledge-IsSound w frame (err e, c) h = h
acknowledge-IsSound w frame (ok done, c) h = rw side-send h

-- the two ends of `register`, by what the compilation returned
register-IsSound :
    (lib : Libraries) (w : World) (registry : String) (items : List Fields) (c : Channel)
    (ws : Socket)
    → c.websocket ≡ some ws
    → IsSound (side c)
    → IsSoundAfter (register lib w registry items c)
unfolding register
register-IsSound lib w registry items c ws online h = go (register_locked lib registry items c) refl
  where
    go :
        (r : Result Channel)
        → register_locked lib registry items c ≡ r
        → IsSoundAfter {A = Result (Unit {0})}
            (elim r [ ok c' ↦ (ok tt, notify w (list_changed registry) c') | err e ↦ (err e, c) ])
    go (ok c') e = rw side-notify (register_locked-IsSound c h lib registry items c' ws online e)
    go (err x) e = h

handle_register-IsSound :
    (lib : Libraries) (w : World) (m : Fields) (c : Channel) (ws : Socket)
    → c.websocket ≡ some ws
    → IsSound (side c)
    → IsSoundAfter (handle_register lib w m c)
unfolding handle_register
handle_register-IsSound lib w m c ws online h =
    elim (Option-cases (as_text (Json.get m "registry"))) [
      | inl e ↦ rw (e, handle_register) h
      | inr (registry, e) ↦ elim (Option-cases (items_of (Json.get m "items"))) [
        | inl f ↦ rw (e, f, handle_register) h
        | inr (items, f) ↦
            rw (e, f, handle_register)
              (acknowledge-IsSound w _ (register lib w registry items c)
                (register-IsSound lib w registry items c ws online h))
      ]
    ]

dispatch-IsSound :
    (lib : Libraries) (w : World) (type : Json) (m : Fields) (c : Channel) (ws : Socket)
    → c.websocket ≡ some ws
    → IsSound (side c)
    → IsSoundAfter (dispatch lib w type m c)
unfolding dispatch
dispatch-IsSound lib w (text type) m c ws online h =
    if-IsSoundAfter (type == Words.register) _ _ (handle_register-IsSound lib w m c ws online h) (
      if-IsSoundAfter (type == Words.result) _ _ (handle_result-IsSound c h w m) (
        if-IsSoundAfter (type == Words.call) _ _ (rw side-handle_provider_call h) (
          if-IsSoundAfter (type == Words.notify) _ _ (rw side-handle_provider_notification h)
            (if-IsSoundAfter (type == Words.ping) _ _ (rw side-send h) h))))
dispatch-IsSound lib w _ m c ws online h = h

is_current_offline : (c : Channel) (ws : Socket) → c.websocket ≡ none → is_current c ws ≡ false
unfolding is_current
is_current_offline c ws e = ground arith

message-IsSound :
    (lib : Libraries) (w : World) (ws : Socket) (m : Fields) (c : Channel)
    → IsSound (side c)
    → IsSoundAfter (handle_provider_message lib w ws m c)
unfolding handle_provider_message
message-IsSound lib w ws m c h = elim (Option-cases c.websocket) [
  | inl e ↦ rw (is_current_offline c ws e) h
  | inr (current, e) ↦
      if-IsSoundAfter (is_current c ws) _ _
        (dispatch-IsSound lib w (Json.get m "type") m c current e h) h
]

pub Step-IsSound :
    {lib : Libraries} {w : World} {c d : Channel}
    → Step lib w c d
    → IsSound (side c)
    → IsSound (side d)
Step-IsSound (attaches c ws id name) h = attach_locked-IsSound c h ws id name
Step-IsSound (detaches c ws _) h = detach_locked-IsSound c h
Step-IsSound (closes c) h = close_locked-IsSound c h
Step-IsSound (closes_socket c s code) h = rw side-close_socket h
Step-IsSound (begins c id session token) h = call_begin-IsSound c h id session token
Step-IsSound (sends c s m) h = rw side-send_locked h
Step-IsSound (resumes c id wakeup) h = rw side-call_resume h
Step-IsSound (ends c id) h = call_end-IsSound c h id
Step-IsSound {lib} {w} (receives c ws m) h = message-IsSound lib w ws m c h
Step-IsSound (remembers c session) h = rw side-remember h
Step-IsSound (drops c keys) h = rw side-drop_sessions h
Step-IsSound (notifies c notes) h = rw side-notify h
Step-IsSound (sets_level c session level) h = rw side-set_log_level h
Step-IsSound (subscribes c uri session) h = rw side-subscribe_begin h
Step-IsSound (fails_subscribe c uri o session) h = rw side-subscribe_failed h
Step-IsSound (unsubscribes c uri session) h = rw side-unsubscribe_end h
