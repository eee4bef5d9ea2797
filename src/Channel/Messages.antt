-- ===== src/Channel/Messages.antt =====
-- src/mcpgtw/channel.py: `handle_provider_message`, with no other operation between its awaits.
use mcp_gtw.Base.{Option, none, some, List, text_eq, ◌==◌, length, if◌then◌else◌}
use mcp_gtw.Json
use mcp_gtw.Json.{Json, Fields, text, as_text, as_array, all_objects}
use mcp_gtw.Errors.{Result, ok, err, channel_offline, provider_message}
use mcp_gtw.Protocol
use mcp_gtw.Protocol.Words
use mcp_gtw.Libraries.{Libraries}
use mcp_gtw.Channel.{Channel, Socket, World}
use mcp_gtw.Channel.Attach.{is_current}
use mcp_gtw.Channel.Registrations.{register}
use mcp_gtw.Channel.Calls.{send_to_provider, handle_result}
use mcp_gtw.Channel.Relay.{ended, handle_provider_call, handle_provider_notification}

-- the registry and the objects of a `register` message
abbrev pub items_of : Json → Option (List Fields)
items_of v = elim (as_array v) [ none ↦ none | some xs ↦ all_objects xs ]

-- the ack, if the registration did not raise
unfoldable pub acknowledge :
    World → Json → Result (Unit {0}) × Channel → Result (Unit {0}) × Channel
acknowledge w frame (err e, c) = (err e, c)
acknowledge w frame (ok done, c) = send_to_provider w frame c

unfoldable pub handle_register : Libraries → World → Fields → Channel → Result (Unit {0}) × Channel
handle_register lib w message c = elim (as_text (Json.get message "registry")) [
  | none ↦ (err (provider_message "'register' needs a registry and an array of objects"), c)
  | some registry ↦ elim (items_of (Json.get message "items")) [
    | none ↦ (err (provider_message "'register' needs a registry and an array of objects"), c)
    | some items ↦
        acknowledge w (Protocol.ack registry (length items)) (register lib w registry items c)
  ]
]

unfoldable pub dispatch :
    Libraries → World → Json → Fields → Channel → Option (Result (Unit {0})) × Channel
dispatch lib w (text type) message c =
    if type == Words.register
    then ended (handle_register lib w message c)
    else if type == Words.result
    then ended (handle_result w message c)
    else if type == Words.call
    then handle_provider_call w message c
    else if type == Words.notify
    then ended (handle_provider_notification w message c)
    else if type == Words.ping
    then ended (send_to_provider w Protocol.pong c)
    else (some (err (provider_message "Unsupported provider message type")), c)
dispatch lib w _ message c = (some (err (provider_message "Unsupported provider message type")), c)

unfoldable pub handle_provider_message :
    Libraries → World → Socket → Fields → Channel → Option (Result (Unit {0})) × Channel
handle_provider_message lib w websocket message c =
    if is_current c websocket
    then dispatch lib w (Json.get message "type") message c
    else (some (err (channel_offline "The channel provider connection changed")), c)
