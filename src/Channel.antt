-- ===== src/Channel.antt =====
-- src/mcpgtw/channel.py: the state of a `Channel`, with what it holds of its callers and peers.
-- The operations are in the modules below.
pub mod Sessions
pub mod Attach
pub mod Registrations
pub mod Calls
pub mod Subscriptions
pub mod Relay
pub mod Messages
pub mod Results
pub mod Provider
pub mod System
pub mod Waiters
pub mod Names
pub mod Tests
use mcp_gtw.Base.{ℕ, String, Bool, Option, none, some, List, [], ◌∷◌, is_some, length}
use mcp_gtw.Json.{Json, Fields}
use mcp_gtw.Errors.{Error, Result}
use mcp_gtw.Settings.{Settings}
use mcp_gtw.Dict.{Dict, values}

-- An MCP session and a websocket are objects that are compared by identity only.
abbrev pub Session : Type 0
Session = ℕ

abbrev pub Socket : Type 0
Socket = ℕ

-- `types.Tool`, by the fields that the source reads
pub record Tool : Type 0 where
  pub name : String
  pub input_schema : Json
  pub output_schema : Option Json
  pub annotations : Json

-- compiled_tool.py; a validator is given by its schema
pub record CompiledTool : Type 0 where
  pub definition : Tool
  pub input_validator : Json
  pub output_validator : Option Json

-- a resource, a resource template or a prompt, with the key that it is listed under
pub record Entry : Type 0 where
  pub identifier : String
  pub body : Json

-- pending_request.py; the future is the one of the same request id among the channel's `futures`
pub record Pending : Type 0 where
  pub session : Option Session
  pub progress_token : Option Json

pub data Future : Type 0 where
  waiting : Future
  resolved : Json → Future
  failed : Error → Future

-- a set of subscribers, and which set object it is
pub record Subscribers : Type 0 where
  pub object_id : ℕ
  pub members : List ℕ

-- `_LOG_LEVELS`, which are the levels of `types.LoggingLevel`, in order
pub data LogLevel : Type 0 where
  debug info notice warning error critical alert emergency : LogLevel

-- what the gateway sends to an MCP session
pub data Note : Type 0 where
  tool_list_changed resource_list_changed prompt_list_changed : Note
  resource_updated : String → Note
  log_message : LogLevel → Json → Json → Note
  progress : Json → Json → Json → Json → Note

pub record Channel : Type 0 where
  pub channel_id : String
  pub mcp_token : String
  pub provider_token : String
  pub settings : Settings
  pub metadata : Fields
  pub websocket : Option Socket
  pub provider_id : Option String
  pub provider_name : Option String
  pub tools : Dict String CompiledTool
  pub resources : Dict String Entry
  pub resource_templates : Dict String Entry
  pub prompts : Dict String Entry
  pub pending : Dict String Pending
  pub subscriptions : Dict String Subscribers
  pub log_levels : Dict ℕ LogLevel
  pub mcp_sessions : Dict ℕ Session
  -- the futures that running calls of `_call_provider` wait for, by request id
  pub futures : Dict String Future
  -- the number of set objects made so far
  pub made_sets : ℕ
  -- what went out, newest first: frames to sockets, messages to sessions, closed sockets
  pub sent : List (Socket × Json)
  pub notes : List (Session × Note)
  pub closed : List (Socket × ℕ)

-- the dataclass's defaults
unfoldable pub new_channel : String → String → String → Settings → Fields → Channel
new_channel channel_id mcp_token provider_token settings metadata = record {
  channel_id = channel_id;
  mcp_token = mcp_token;
  provider_token = provider_token;
  settings = settings;
  metadata = metadata;
  websocket = none;
  provider_id = none;
  provider_name = none;
  tools = [];
  resources = [];
  resource_templates = [];
  prompts = [];
  pending = [];
  subscriptions = [];
  log_levels = [];
  mcp_sessions = [];
  futures = [];
  made_sets = 0;
  sent = [];
  notes = [];
  closed = [];
}

unfoldable pub provider_connected : Channel → Bool
provider_connected c = is_some c.websocket

unfoldable pub tool_count : Channel → ℕ
tool_count c = length c.tools

abbrev definitions_of : List CompiledTool → List Tool
definitions_of [] = []
definitions_of (t ∷ ts) = t.definition ∷ definitions_of ts

unfoldable pub list_tools : Channel → List Tool
list_tools c = definitions_of (values c.tools)

unfoldable pub list_resources : Channel → List Entry
list_resources c = values c.resources

unfoldable pub list_resource_templates : Channel → List Entry
list_resource_templates c = values c.resource_templates

unfoldable pub list_prompts : Channel → List Entry
list_prompts c = values c.prompts

-- How the peers answer, and what the channel takes from outside the repository.
pub record World : Type 0 where
  -- whether a send on a socket, or a message to a session, returns or raises
  pub delivers : Socket → Json → Bool
  pub responds : Session → Note → Bool
  -- `session.create_message(**_sampling_kwargs(params))` and `session.elicit_form(…)`, with the
  -- result as JSON, or `none` if the client never answers
  pub create_message : Session → Fields → Option (Result Json)
  pub elicit_form : Session → Fields → Option (Result Json)
  -- Python's `str` of a value that is no string
  pub str_of : Json → String
