-- ===== src/Channel/Provider.antt =====
-- The part of a channel that concerns its provider, and which operations leave it alone.
pub mod Futures
pub mod Soundness
use mcp_gtw.Base.{
  ℕ, zero, suc, String, Bool, true, false, Option, none, some, List, [], ◌∷◌, ◌≡◌, refl, ap, arith,
  ◌∙◌, inl, inr, List-cases, Bool-cases, text_eq, ◌==◌, ℕ_eq, length, ◌++◌,
}
use mcp_gtw.Json.{Json, Fields, text, get}
use mcp_gtw.Protocol.Words
use mcp_gtw.Settings.{Settings}
use mcp_gtw.Dict.{Dict, set, pop, keys}
use mcp_gtw.Channel.{
  Channel, Session, Socket, Pending, Future, CompiledTool, Entry, LogLevel, Note, World,
  log_message,
}
use mcp_gtw.Channel.Sessions.{
  forget_session, evict, remember_mcp_session, drop_sessions, notify, sweep, set_log_level,
}
use mcp_gtw.Channel.Attach.{close_socket}
use mcp_gtw.Channel.Calls.{
  send_locked, send_to_provider, best_effort_cancel, call_resume, Wakeup, send_failed, future_done,
  timed_out, cancelled,
}
use mcp_gtw.Channel.Subscriptions.{
  subscribe_begin, subscribe_failed, unsubscribe_end, notify_resource_updated, resync,
}
use mcp_gtw.Channel.Relay.{
  answer_provider, handle_provider_call, handle_notification, handle_provider_notification,
  relay_progress, relay_log, log_sweep,
}
use mcp_gtw.Errors.{Error, Result, ok, err}

pub record Side : Type 0 where
  pub channel_id : String
  pub mcp_token : String
  pub provider_token : String
  pub settings : Settings
  pub websocket : Option Socket
  pub tools : Dict String CompiledTool
  pub resources : Dict String Entry
  pub resource_templates : Dict String Entry
  pub prompts : Dict String Entry
  pub pending : Dict String Pending
  pub futures : Dict String Future

unfoldable pub side : Channel → Side
side c = record {
  channel_id = c.channel_id;
  mcp_token = c.mcp_token;
  provider_token = c.provider_token;
  settings = c.settings;
  websocket = c.websocket;
  tools = c.tools;
  resources = c.resources;
  resource_templates = c.resource_templates;
  prompts = c.prompts;
  pending = c.pending;
  futures = c.futures;
}

pub side-evict : (rounds : ℕ) (c : Channel) → side (evict rounds c) ≡ side c
unfolding evict side
side-evict zero c = refl
side-evict (suc rounds) c = elim (List-cases c.mcp_sessions) [
  | inl e ↦ rw (e, evict)
  | inr ((key, session), rest, e) ↦
      rw (e, evict)
        (ground (arith, side-evict rounds (forget_session key (record c { mcp_sessions = rest }))))
]

pub side-remember : (s : Session) (c : Channel) → side (remember_mcp_session s c) ≡ side c
unfolding remember_mcp_session side
side-remember s c =
    let sessions = set (pop c.mcp_sessions s) s s in
    side-evict (length sessions) (record c { mcp_sessions = sessions })

pub side-drop_sessions : (keys : List ℕ) (c : Channel) → side (drop_sessions keys c) ≡ side c
unfolding drop_sessions
side-drop_sessions [] c = refl
side-drop_sessions (k ∷ ks) c = side-drop_sessions ks _ ∙ unfold side forget_session in refl

pub side-notify : (w : World) (notes : List Note) (c : Channel) → side (notify w notes c) ≡ side c
unfolding notify side
side-notify w notes c =
    let swept = sweep w notes (keys c.mcp_sessions) in
    side-drop_sessions swept.1 (record c { notes = swept.0 ++ c.notes })

pub side-send : (w : World) (m : Json) (c : Channel) → side (send_to_provider w m c).1 ≡ side c
unfolding send_to_provider side
side-send w m c = ground arith

pub side-answer_provider :
    (w : World) (id : String) (r : Option (Result Json)) (c : Channel)
    → side (answer_provider w id r c).1 ≡ side c
unfolding answer_provider
side-answer_provider w id none c = refl
side-answer_provider w id (some (err e)) c = side-send w _ c
side-answer_provider w id (some (ok v)) c = grind (arith, side-send)

pub side-handle_provider_call :
    (w : World) (m : Fields) (c : Channel) → side (handle_provider_call w m c).1 ≡ side c
unfolding handle_provider_call
side-handle_provider_call w m c = grind (arith, side-send, side-answer_provider)

pub side-relay_progress :
    (w : World) (id : String) (m : Fields) (c : Channel) → side (relay_progress w id m c) ≡ side c
unfolding relay_progress side
side-relay_progress w id m c = ground arith

pub side-relay_log :
    (w : World) (level : LogLevel) (m : Fields) (c : Channel)
    → side (relay_log w level m c) ≡ side c
unfolding relay_log side
side-relay_log w level m c =
    let swept =
      log_sweep w c.log_levels level (log_message level (get m "data") (get m "logger"))
        (keys c.mcp_sessions) in
    side-drop_sessions swept.1 (record c { notes = swept.0 ++ c.notes })

pub side-notify_resource_updated :
    (w : World) (uri : String) (c : Channel) → side (notify_resource_updated w uri c) ≡ side c
unfolding notify_resource_updated side
side-notify_resource_updated w uri c = ground arith

side-handle_notification :
    (w : World) (method : Json) (m : Fields) (c : Channel)
    → side (handle_notification w method m c).1 ≡ side c
unfolding handle_notification
side-handle_notification w (text s) m c = elim (Bool-cases (s == Words.resource_updated)) [
  | inl e ↦ rw e (grind (arith, side-notify_resource_updated))
  | inr e ↦ rw e (elim (Bool-cases (s == Words.message)) [
    | inl f ↦ rw f (grind (arith, side-relay_log))
    | inr f ↦ rw f (grind (arith, side-relay_progress))
  ])
]
side-handle_notification w _ m c = refl

pub side-handle_provider_notification :
    (w : World) (m : Fields) (c : Channel) → side (handle_provider_notification w m c).1 ≡ side c
unfolding handle_provider_notification
side-handle_provider_notification w m c = grind (arith, side-handle_notification)

pub side-close_socket :
    (s : Option Socket) (code : ℕ) (c : Channel) → side (close_socket s code c) ≡ side c
unfolding close_socket side
side-close_socket s code c = ground arith

pub side-send_locked :
    (w : World) (s : Socket) (m : Json) (c : Channel) → side (send_locked w s m c).1 ≡ side c
unfolding send_locked side
side-send_locked w s m c = ground arith

pub side-call_resume :
    (w : World) (id : String) (wakeup : Wakeup) (c : Channel)
    → side (call_resume w id wakeup c).1 ≡ side c
unfolding call_resume best_effort_cancel
side-call_resume w id (send_failed e) c = refl
side-call_resume w id future_done c = refl
side-call_resume w id timed_out c = side-send w _ c
side-call_resume w id cancelled c = side-send w _ c

pub side-set_log_level :
    (s : Session) (level : LogLevel) (c : Channel) → side (set_log_level s level c) ≡ side c
unfolding set_log_level side
side-set_log_level s level c = refl

pub side-subscribe_begin :
    (uri : String) (s : Session) (c : Channel) → side (subscribe_begin uri s c).1 ≡ side c
unfolding subscribe_begin side
side-subscribe_begin uri s c = ground arith

pub side-subscribe_failed :
    (uri : String) (o : ℕ) (s : Session) (c : Channel) → side (subscribe_failed uri o s c) ≡ side c
unfolding subscribe_failed side
side-subscribe_failed uri o s c = ground arith

pub side-unsubscribe_end :
    (uri : String) (s : Session) (c : Channel) → side (unsubscribe_end uri s c) ≡ side c
unfolding unsubscribe_end side
side-unsubscribe_end uri s c = ground arith

pub futures-notify :
    (w : World) (notes : List Note) (c : Channel) → (notify w notes c).futures ≡ c.futures
unfolding side
futures-notify w notes c = ap (λ (s : Side). s.futures) (side-notify w notes c)

pub pending-notify :
    (w : World) (notes : List Note) (c : Channel) → (notify w notes c).pending ≡ c.pending
unfolding side
pending-notify w notes c = ap (λ (s : Side). s.pending) (side-notify w notes c)
