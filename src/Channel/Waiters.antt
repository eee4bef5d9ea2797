-- ===== src/Channel/Waiters.antt =====
-- src/mcpgtw/channel.py: who waits for the provider is always woken.
use mcp_gtw.Base.{
  String, true, false, Option, some, [], ◌≡◌, ◌≢◌, refl, ap, ◌∙◌, arith, text_eq, ==_refl, ==_iff,
  Bool-cases, inl, inr, ◌==◌, ◌⊎◌, ◌&&◌, if◌then◌else◌, Option-cases,
}
use mcp_gtw.Json
use mcp_gtw.Json.{Json, Fields, as_text, is_null}
use mcp_gtw.Errors.{Error, err, provider_request}
use mcp_gtw.Settings.{Settings}
use mcp_gtw.Dict.{get, has}
use mcp_gtw.Libraries.{Libraries}
use mcp_gtw.Channel.{Channel, Socket, Future, waiting, failed, World, new_channel}
use mcp_gtw.Channel.Attach.{
  attach, attach_locked, detach, detach_locked, close, close_locked, fail_all, is_current,
  is_replaced,
}
use mcp_gtw.Channel.Calls.{outcome, handle_result, result_outcome}
use mcp_gtw.Channel.Provider.{
  Side, side, side-close_socket, side-notify, futures-notify, pending-notify,
}
use mcp_gtw.Channel.Provider.Futures.{settled, get-settle, get-fail_all}
use mcp_gtw.Channel.Provider.Soundness.{IsSound}
use mcp_gtw.Channel.System.{Reach, here, next, Step-IsSound}

Reach-keeps :
    {lib : Libraries} {w : World} {c d : Channel}
    → IsSound (side c)
    → Reach lib w c d
    → IsSound (side d)
Reach-keeps h here = h
Reach-keeps h (next r s) = Step-IsSound s (Reach-keeps h r)

pub new_channel-IsSound :
    (id mcp provider : String) (s : Settings) (m : Fields)
    → IsSound (side (new_channel id mcp provider s m))
unfolding new_channel side get
new_channel-IsSound id mcp provider s m = record {
  tracked = λ j h. cc;
  no_pending = λ _. refl;
  no_tools = λ _. refl;
  no_resources = λ _. refl;
  no_templates = λ _. refl;
  no_prompts = λ _. refl;
  bounded = ground arith;
}

-- However the tasks of a channel interleave, from its creation on: a caller that waits is pending,
-- so a result, a detach, a replacement or a close can wake it; at most the configured number of
-- calls is pending; and without a provider nothing is listed and nothing is pending.
pub Reach-IsSound :
    (lib : Libraries) (w : World) (id mcp provider : String) (s : Settings) (m : Fields)
    (d : Channel)
    → Reach lib w (new_channel id mcp provider s m) d
    → IsSound (side d)
Reach-IsSound lib w id mcp provider s m d r =
    Reach-keeps (new_channel-IsSound id mcp provider s m) r

-- what `_fail_pending` leaves in a future that somebody waits for
fails_waiter :
    (c : Channel) (e : Error) (id : String)
    → IsSound (side c)
    → get c.futures id ≡ some waiting
    → get (fail_all e c.pending c.futures) id ≡ some (failed e)
unfolding side
fails_waiter c e id sound waits =
    ground (arith, get-fail_all e c.pending c.futures id, sound.tracked id waits)

-- after the lock is released the rest of `attach` and `close` leaves the provider's side alone
side-attach :
    (w : World) (ws : Socket) (pid : String) (name : Option String) (c : Channel)
    → side (attach w ws pid name c) ≡ side (attach_locked ws pid name c)
unfolding attach
side-attach w ws pid name c = elim (Bool-cases (is_replaced c.websocket ws)) [
  | inl e ↦ rw e (rw (side-notify, side-close_socket))
  | inr e ↦ rw e
]

side-close : (c : Channel) → side (close c) ≡ side (close_locked c)
unfolding close
side-close c = side-close_socket _ _ _

module _ (c : Channel) (sound : IsSound (side c)) (id : String)
    (waits : get c.futures id ≡ some waiting) where
  -- When the provider disconnects, a caller that waits gets the error that says so, and nothing is
  -- pending any more.
  pub detach-wakes :
      (w : World) (websocket : Socket)
      → is_current c websocket ≡ true
      → let d = (detach w websocket c).1 in
        (outcome (get d.futures id) ≡ err (provider_request "The channel provider disconnected"))
        × (d.pending ≡ [])
  unfolding detach detach_locked
  detach-wakes w ws current =
      rw (current, futures-notify, pending-notify) (rw (fails_waiter c _ id sound waits) refl, refl)

  -- When another connection takes the provider's place, a caller that waits gets an error, no call
  -- is pending any more, and no tool, resource, resource template or prompt of the old provider is
  -- left.
  pub attach-wakes :
      (w : World) (websocket : Socket) (provider_id : String) (name : Option String)
      → is_replaced c.websocket websocket ≡ true
      → let d = attach w websocket provider_id name c in
        (outcome (get d.futures id)
          ≡ err (provider_request "The channel provider was replaced by a new connection"))
        × (d.pending ≡ [])
        × (d.tools ≡ [])
        × (d.resources ≡ [])
        × (d.resource_templates ≡ [])
        × (d.prompts ≡ [])
        × (d.websocket ≡ some websocket)
  unfolding attach_locked side
  attach-wakes w ws pid name replaced =
      let e = side-attach w ws pid name c in
      (
        rw (ap (λ (s : Side). s.futures) e, replaced, fails_waiter c _ id sound waits),
        ap (λ (s : Side). s.pending) e ∙ rw replaced,
        ap (λ (s : Side). s.tools) e ∙ rw replaced,
        ap (λ (s : Side). s.resources) e ∙ rw replaced,
        ap (λ (s : Side). s.resource_templates) e ∙ rw replaced,
        ap (λ (s : Side). s.prompts) e ∙ rw replaced,
        ap (λ (s : Side). s.websocket) e ∙ rw replaced,
      )

  -- Closing the channel wakes a caller that waits, with an error.
  pub close-wakes :
      outcome (get (close c).futures id) ≡ err (provider_request "The channel was closed")
  unfolding close_locked side
  close-wakes = rw (ap (λ (s : Side). s.futures) (side-close c), fails_waiter c _ id sound waits)

-- `handle_result` at a request id that is no text does nothing, and otherwise settles one future
get-handle_result :
    (w : World) (m : Fields) (c : Channel) (id j : String)
    → as_text (Json.get m "requestId") ≡ some id
    → get (handle_result w m c).1.futures j ≡ (
        if id == j && has c.pending j
        then settled (get c.futures j) (result_outcome w m)
        else get c.futures j)
unfolding handle_result
get-handle_result w m c id j e = elim (Bool-cases (has c.pending id)) [
  | inl p ↦
      rw (e, p, handle_result)
        (ground (arith, get-settle c.futures id (result_outcome w m) j, ==_iff id j))
  | inr p ↦ rw (e, p, handle_result) (ground (arith, ==_iff id j))
]

handle_result-settled :
    (w : World) (m : Fields) (c : Channel) (j : String) (o : Future)
    → get c.futures j ≡ some o
    → o ≢ waiting
    → get (handle_result w m c).1.futures j ≡ some o
unfolding handle_result
handle_result-settled w m c j o e ne = elim (Option-cases (as_text (Json.get m "requestId"))) [
  | inl absent ↦ rw (absent, handle_result) e
  | inr (id, names) ↦ ground (arith, get-handle_result w m c id j names)
]

result_outcome-ne-waiting : (w : World) (m : Fields) → result_outcome w m ≢ waiting
result_outcome-ne-waiting w m h = elim (Bool-cases (is_null (Json.get m "error"))) [
  | inl e ↦ cc (rw e at h)
  | inr e ↦ cc (rw e at h)
]

-- A caller gets the first result that the provider sends for its request: once its future is
-- settled, no later result message changes it.
pub handle_result-first :
    (w : World) (first later : Fields) (c : Channel) (id : String)
    → get c.futures id ≡ some waiting
    → has c.pending id ≡ true
    → as_text (Json.get first "requestId") ≡ some id
    → let d = (handle_result w first c).1 in
      (get d.futures id ≡ some (result_outcome w first))
      × (get (handle_result w later d).1.futures id ≡ some (result_outcome w first))
handle_result-first w first later c id waits p names =
    let d = (handle_result w first c).1 in
    let settles : get d.futures id ≡ some (result_outcome w first) =
      ground (arith, get-handle_result w first c id id names, ==_refl id) in
    (
      settles,
      handle_result-settled w later d id (result_outcome w first) settles
          (result_outcome-ne-waiting w first),
    )

-- A result for one request leaves the futures of all others alone, and one for a request that is
-- not pending leaves every future alone.
pub handle_result-other :
    (w : World) (m : Fields) (c : Channel) (id other : String)
    → as_text (Json.get m "requestId") ≡ some id
    → (id ≢ other) ⊎ (has c.pending id ≡ false)
    → get (handle_result w m c).1.futures other ≡ get c.futures other
handle_result-other w m c id j names h =
    ground (arith, get-handle_result w m c id j names, ==_iff id j, h)
