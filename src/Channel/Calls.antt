-- ===== src/Channel/Calls.antt =====
-- src/mcpgtw/channel.py: a relayed call in the parts that run without an await. `call_begin` is
-- `_call_provider` up to its first send, `send_locked` is what `send_to_provider` does once it holds
-- `_send_lock`, and `call_resume` and `call_end` are the handlers and the `finally` block after the
-- wait; between the parts any other operation of the channel may run. `handle_result` settles the
-- future.
use mcp_gtw.Base.{String, Option, none, some, ◌∷◌, text_eq, length, if◌then◌else◌}
use mcp_gtw.Json.{Json, Fields, null, text, as_text, is_null}
use mcp_gtw.Json
use mcp_gtw.Errors.{
  Error, Result, ok, err, channel_offline, channel_replaced, provider_message, provider_request,
  other,
}
use mcp_gtw.Settings.{at_limit}
use mcp_gtw.Protocol
use mcp_gtw.Dict.{get, has, set, pop}
use mcp_gtw.Channel.{Channel, Session, Socket, Future, waiting, resolved, failed, World}
use mcp_gtw.Channel.Attach.{settle, is_current}

-- the request id is `uuid.uuid4().hex`; the result is the socket that the first send will use
unfoldable pub call_begin :
    String → Option Session → Option Json → Channel → Result Socket × Channel
call_begin request_id session progress_token c = elim c.websocket [
  | none ↦ (err (provider_request "The channel provider is offline"), c)
  | some websocket ↦
      if at_limit c.settings.maximum_pending_calls_per_channel (length c.pending)
      then (err (provider_request "Too many pending calls for this channel"), c)
      else (
        ok websocket,
        record c {
          pending =
              set c.pending request_id
                (record { session = session; progress_token = progress_token });
          futures = set c.futures request_id waiting;
        },
      )
]

unfoldable pub send_locked : World → Socket → Json → Channel → Result (Unit {0}) × Channel
unfolding is_current
send_locked w websocket message c =
    if is_current c websocket
    then (if w.delivers websocket message
        then (ok tt, record c { sent = (websocket, message) ∷ c.sent })
        else (err (channel_offline "Failed to send to the channel provider"), c))
    else (err (channel_offline "The channel provider connection changed"), c)

-- with no wait for the lock
unfoldable pub send_to_provider : World → Json → Channel → Result (Unit {0}) × Channel
unfolding send_locked
send_to_provider w message c = elim c.websocket [
  | none ↦ (err (channel_offline "No channel provider is connected"), c)
  | some websocket ↦ send_locked w websocket message c
]

unfoldable pub best_effort_cancel : World → String → String → Channel → Channel
unfolding send_to_provider
best_effort_cancel w request_id reason c =
    (send_to_provider w (Protocol.cancel request_id reason) c).1

-- how the wait ended: the send raised, the future is done, the time ran out, the task was cancelled
pub data Wakeup : Type 0 where
  send_failed : Error → Wakeup
  future_done : Wakeup
  timed_out : Wakeup
  cancelled : Wakeup

-- `except (ChannelOfflineError, ChannelReplacedError)`; other exceptions go on as they are
abbrev relay_error : Error → Error
relay_error (channel_offline message) = provider_request message
relay_error (channel_replaced message) = provider_request message
relay_error e = e

-- what the caller of a finished future gets; a future that is still waiting wakes nobody
abbrev pub outcome : Option Future → Result Json
outcome (some (resolved value)) = ok value
outcome (some (failed e)) = err (relay_error e)
outcome _ = err (other "InvalidStateError")

unfoldable pub call_resume : World → String → Wakeup → Channel → Result Json × Channel
unfolding best_effort_cancel
call_resume w request_id (send_failed e) c = (err (relay_error e), c)
call_resume w request_id future_done c = (outcome (get c.futures request_id), c)
call_resume w request_id timed_out c =
    (err (provider_request "Request timed out"), best_effort_cancel w request_id "timeout" c)
call_resume w request_id cancelled c =
    (err (other "CancelledError"), best_effort_cancel w request_id "mcp_client_cancelled" c)

-- the `finally` block; nobody waits for the future any more
unfoldable pub call_end : String → Channel → Channel
call_end request_id c = record c {
  pending = pop c.pending request_id;
  futures = pop c.futures request_id;
}

-- `str(value)`
abbrev pub str : World → Json → String
str w (text s) = s
str w v = w.str_of v

-- `error` and `result` of a message, as the future's outcome
abbrev pub result_outcome : World → Fields → Future
result_outcome w message =
    if is_null (Json.get message "error")
    then resolved (Json.get message "result")
    else failed (provider_request (str w (Json.get message "error")))

unfoldable pub handle_result : World → Fields → Channel → Result (Unit {0}) × Channel
unfolding settle
handle_result w message c = elim (as_text (Json.get message "requestId")) [
  | none ↦ (err (provider_message "'result' requires a string requestId"), c)
  | some request_id ↦ (
    ok tt,
    if has c.pending request_id
        then record c { futures = settle c.futures request_id (result_outcome w message) }
        else c,
  )
]
