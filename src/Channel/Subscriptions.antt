-- ===== src/Channel/Subscriptions.antt =====
-- src/mcpgtw/channel.py: resource subscriptions. `subscribe` and `unsubscribe` wait for the provider
-- in the middle: `subscribe_begin` and `unsubscribe_end` are what they do before and after it, and
-- `subscribe_failed` is the handler. A set that has left the dictionary is told from a later one
-- under the same uri by its object.
pub mod Members
pub mod Bounds
use mcp_gtw.Base.{
  ℕ, suc, String, none, some, List, [], ◌∷◌, ◌++◌, ◌&&◌, not, ℕ_eq, text_eq, ◌==◌, length, add,
  discard, is_empty, if◌then◌else◌,
}
use mcp_gtw.Json.{Json, text, object, field, done}
use mcp_gtw.Errors.{Result, ok, err, provider_request}
use mcp_gtw.Settings.{at_limit}
use mcp_gtw.Protocol
use mcp_gtw.Protocol.Words
use mcp_gtw.Dict.{Dict, get, has, set, pop, keys}
use mcp_gtw.Channel.{Channel, Session, Subscribers, Note, resource_updated, World}
use mcp_gtw.Channel.Calls.{send_to_provider}

-- `setdefault(uri, set())`, with the object that stands there afterwards
abbrev pub set_for : Channel → String → Subscribers
set_for c uri = elim (get c.subscriptions uri) [
  | some s ↦ s
  | none ↦ record { object_id = c.made_sets; members = [] }
]

unfoldable pub subscribe_begin : String → Session → Channel → Result ℕ × Channel
subscribe_begin uri session c =
    if not (has c.subscriptions uri)
      && at_limit c.settings.maximum_subscriptions_per_channel (length c.subscriptions)
    then (err (provider_request "Too many resource subscriptions for this channel"), c)
    else (let s = set_for c uri in
        (
          ok s.object_id,
          record c {
            subscriptions = set c.subscriptions uri (record s { members = add s.members session });
            made_sets = suc c.made_sets;
          },
        ))

-- `del` if the set is empty, and the set as it is now otherwise
abbrev pub store_set : Dict String Subscribers → String → Subscribers → Dict String Subscribers
store_set d uri s = if is_empty s.members then pop d uri else set d uri s

-- The set may no longer be the one that the dictionary holds; then nobody sees the change.
unfoldable pub subscribe_failed : String → ℕ → Session → Channel → Channel
subscribe_failed uri object_id session c = elim (get c.subscriptions uri) [
  | none ↦ c
  | some s ↦
      if s.object_id == object_id
      then record c {
        subscriptions =
            store_set c.subscriptions uri (record s { members = discard s.members session });
      }
      else c
]

unfoldable pub unsubscribe_end : String → Session → Channel → Channel
unsubscribe_end uri session c = elim (get c.subscriptions uri) [
  | none ↦ c
  | some s ↦ record c {
    subscriptions =
        store_set c.subscriptions uri (record s { members = discard s.members session });
  }
]

-- `subscribe` from its call on, by what came before
abbrev pub subscribe_answered :
    String → Session → Result Json → Result ℕ × Channel → Result (Unit {0}) × Channel
subscribe_answered uri session answer (err e, c) = (err e, c)
subscribe_answered uri session (ok value) (ok object_id, c) = (ok tt, c)
subscribe_answered uri session (err e) (ok object_id, c) =
    (err e, subscribe_failed uri object_id session c)

-- with the answer of `_call_provider` in between, and nothing else
unfoldable pub subscribe : String → Session → Result Json → Channel → Result (Unit {0}) × Channel
subscribe uri session answer c =
    subscribe_answered uri session answer (subscribe_begin uri session c)

unfoldable pub unsubscribe : String → Session → Result Json → Channel → Result (Unit {0}) × Channel
unsubscribe uri session answer c = elim answer [
  | ok value ↦ (ok tt, unsubscribe_end uri session c)
  | err e ↦ (err e, c)
]

-- the frame of `resync_subscriptions` for one uri
abbrev pub subscribe_frame : String → String → Json
subscribe_frame request_id uri =
    Protocol.request request_id Words.subscribe (object (field "uri" (text uri) done))

-- one request for each uri, under an id of its own; the first failed send raises
unfoldable pub resync :
    World → (String → String) → List String → Channel → Result (Unit {0}) × Channel
unfolding send_to_provider
resync w new_id [] c = (ok tt, c)
resync w new_id (uri ∷ rest) c =
    let (sent, c') = send_to_provider w (subscribe_frame (new_id uri) uri) c in
    elim sent [ ok _ ↦ resync w new_id rest c' | err e ↦ (err e, c') ]

unfoldable pub resync_subscriptions :
    World → (String → String) → Channel → Result (Unit {0}) × Channel
unfolding resync
resync_subscriptions w new_id c = resync w new_id (keys c.subscriptions) c

-- the loop of `_notify_resource_updated`: what the sessions get, and the members that stay
unfoldable pub update_members :
    World → Dict ℕ Session → String → List ℕ → List ℕ → List (Session × Note) × List ℕ
update_members w sessions uri [] members = ([], members)
update_members w sessions uri (key ∷ rest) members = elim (get sessions key) [
  | none ↦ update_members w sessions uri rest (discard members key)
  | some session ↦
      let (told, left) = update_members w sessions uri rest members in
      if w.responds session (resource_updated uri)
      then ((session, resource_updated uri) ∷ told, left)
      else (told, left)
]

unfoldable pub notify_resource_updated : World → String → Channel → Channel
unfolding update_members
notify_resource_updated w uri c = elim (get c.subscriptions uri) [
  | none ↦ c
  | some s ↦
      let (told, left) = update_members w c.mcp_sessions uri s.members s.members in
      record c {
        notes = told ++ c.notes;
        subscriptions = store_set c.subscriptions uri (record s { members = left });
      }
]
