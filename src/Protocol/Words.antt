-- ===== src/Protocol/Words.antt =====
-- src/mcpgtw/protocol.py: the constants.
use mcp_gtw.Base.{String}

-- gateway → provider
abbrev pub hello_ack : String
hello_ack = "hello.ack"

abbrev pub ack : String
ack = "ack"

abbrev pub request : String
request = "request"

abbrev pub cancel : String
cancel = "cancel"

abbrev pub response : String
response = "response"

abbrev pub pong : String
pong = "pong"

abbrev pub protocol_error : String
protocol_error = "protocol.error"

-- provider → gateway
abbrev pub register : String
register = "register"

abbrev pub result : String
result = "result"

abbrev pub call : String
call = "call"

abbrev pub notify : String
notify = "notify"

abbrev pub ping : String
ping = "ping"

-- registries a provider may publish
abbrev pub tools : String
tools = "tools"

abbrev pub resources : String
resources = "resources"

abbrev pub resource_templates : String
resource_templates = "resourceTemplates"

abbrev pub prompts : String
prompts = "prompts"

-- methods the gateway asks the provider to run
abbrev pub call_tool : String
call_tool = "tools/call"

abbrev pub read_resource : String
read_resource = "resources/read"

abbrev pub get_prompt : String
get_prompt = "prompts/get"

abbrev pub complete : String
complete = "completion/complete"

abbrev pub subscribe : String
subscribe = "resources/subscribe"

abbrev pub unsubscribe : String
unsubscribe = "resources/unsubscribe"

-- methods the provider asks the gateway to run against the MCP client
abbrev pub create_message : String
create_message = "sampling/createMessage"

abbrev pub elicit : String
elicit = "elicitation/create"

-- one-way notifications the provider emits
abbrev pub resource_updated : String
resource_updated = "notifications/resources/updated"

abbrev pub progress : String
progress = "notifications/progress"

abbrev pub message : String
message = "notifications/message"
