-- ===== src/Channel/Attach.antt =====
-- src/mcpgtw/channel.py: `attach`, `detach`, `close`, `_fail_pending` and `_clear_registries`. What
-- stands under `_state_lock` has no await in it, so it runs at once; the `locked` functions are
-- those parts.
use mcp_gtw.Base.{
  ℕ, String, Bool, true, false, Option, none, some, List, [], ◌∷◌, ℕ_eq, text_eq, ◌==◌, not,
  if◌then◌else◌,
}
use mcp_gtw.Errors.{Error, channel_offline, channel_replaced}
use mcp_gtw.Dict.{Dict, get, set}
use mcp_gtw.Channel.{
  Channel, Socket, Pending, Future, waiting, failed, Note, tool_list_changed, resource_list_changed,
  prompt_list_changed, World,
}
use mcp_gtw.Channel.Sessions.{notify}

abbrev pub all_list_changed : List Note
all_list_changed = tool_list_changed ∷ resource_list_changed ∷ prompt_list_changed ∷ []

-- `if not future.done(): future.set_exception(…)` or `set_result`
unfoldable pub settle : Dict String Future → String → Future → Dict String Future
settle futures request_id outcome = elim (get futures request_id) [
  | some waiting ↦ set futures request_id outcome
  | _ ↦ futures
]

unfoldable pub fail_all : Error → Dict String Pending → Dict String Future → Dict String Future
unfolding settle
fail_all e [] futures = futures
fail_all e ((request_id, p) ∷ rest) futures = fail_all e rest (settle futures request_id (failed e))

unfoldable pub fail_pending : Error → Channel → Channel
unfolding fail_all
fail_pending e c = record c { futures = fail_all e c.pending c.futures; pending = [] }

unfoldable pub clear_registries : Channel → Channel
clear_registries c = record c { tools = []; resources = []; resource_templates = []; prompts = [] }

-- `previous is not None and previous is not websocket`
unfoldable pub is_replaced : Option Socket → Socket → Bool
is_replaced none websocket = false
is_replaced (some previous) websocket = not (previous == websocket)

unfoldable pub attach_locked : Socket → String → Option String → Channel → Channel
unfolding is_replaced clear_registries fail_pending
attach_locked websocket provider_id provider_name c =
    let attached = record c {
      websocket = some websocket;
      provider_id = some provider_id;
      provider_name = provider_name;
    } in
    if is_replaced c.websocket websocket
    then clear_registries (
        fail_pending (channel_replaced "The channel provider was replaced by a new connection")
          attached)
    else attached

-- `websocket.close(code, reason)`, its exceptions suppressed
unfoldable pub close_socket : Option Socket → ℕ → Channel → Channel
close_socket none code c = c
close_socket (some websocket) code c = record c { closed = (websocket, code) ∷ c.closed }

unfoldable pub attach : World → Socket → String → Option String → Channel → Channel
attach w websocket provider_id provider_name c =
    let attached = attach_locked websocket provider_id provider_name c in
    if is_replaced c.websocket websocket
    then notify w all_list_changed (close_socket c.websocket 1012 attached)
    else attached

unfoldable pub is_current : Channel → Socket → Bool
is_current c websocket = elim c.websocket [ none ↦ false | some current ↦ current == websocket ]

unfoldable pub detach_locked : Channel → Channel
unfolding clear_registries fail_pending
detach_locked c =
    fail_pending (channel_offline "The channel provider disconnected")
      (clear_registries (record c { websocket = none; provider_id = none; provider_name = none }))

unfoldable pub detach : World → Socket → Channel → Bool × Channel
detach w websocket c =
    if is_current c websocket
    then (true, notify w all_list_changed (detach_locked c))
    else (false, c)

unfoldable pub close_locked : Channel → Channel
unfolding clear_registries fail_pending
close_locked c = fail_pending (channel_offline "The channel was closed") (
    let cleared =
      clear_registries (record c { websocket = none; provider_id = none; provider_name = none }) in
    record cleared { subscriptions = []; mcp_sessions = []; log_levels = [] })

unfoldable pub close : Channel → Channel
close c = close_socket c.websocket 1001 (close_locked c)
