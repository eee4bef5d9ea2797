-- ===== src/Protocol.antt =====
-- src/mcpgtw/protocol.py: the frames that the gateway sends. The constants are in Words.
pub mod Words
use mcp_gtw.Base.{
  ℕ, zero, suc, ◌+◌, ◌/◌, ◌%◌, String, Option, none, some, List, [], ◌∷◌, if◌then◌else◌, ltb,
}
use mcp_gtw.Json.{Json, Fields, number, text, object, done, field}

-- the decimal digits of a number, before those in `acc`; a number has fewer digits than `suc n`
digits_from : ℕ → ℕ → List ℕ → List ℕ
digits_from zero n acc = acc
digits_from (suc fuel) n acc =
    let rest = digits_from fuel (n / 10) ((n % 10 + 48) ∷ acc) in
    if ltb n 10 then (n + 48) ∷ acc else rest

unfoldable pub count_text : ℕ → List ℕ
unfolding digits_from
count_text n = digits_from (suc n) n []

unfoldable pub hello_ack : String → String → Json
hello_ack protocol_version channel_id = object (
    field "type" (text Words.hello_ack)
      (field "protocolVersion" (text protocol_version) (field "channelId" (text channel_id) done)))

unfoldable pub ack : String → ℕ → Json
ack registry count = object (
    field "type" (text Words.ack)
      (field "registry" (text registry) (field "count" (number (count_text count)) done)))

unfoldable pub request : String → String → Json → Json
request request_id method params = object (
    field "type" (text Words.request) (
      field "requestId" (text request_id)
        (field "method" (text method) (field "params" params done))))

unfoldable pub cancel : String → String → Json
cancel request_id reason = object (
    field "type" (text Words.cancel)
      (field "requestId" (text request_id) (field "reason" (text reason) done)))

-- `error=None` sends the result, which may be null
unfoldable pub response : String → Json → Option String → Json
response request_id result (some error) = object (
    field "type" (text Words.response)
      (field "requestId" (text request_id) (field "error" (text error) done)))
response request_id result none = object (
    field "type" (text Words.response)
      (field "requestId" (text request_id) (field "result" result done)))

unfoldable pub protocol_error : String → Json
protocol_error message =
    object (field "type" (text Words.protocol_error) (field "message" (text message) done))

-- `{"type": protocol.PONG}`, the answer to a ping
abbrev pub pong : Json
pong = object (field "type" (text Words.pong) done)
