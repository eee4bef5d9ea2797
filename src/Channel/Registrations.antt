-- ===== src/Channel/Registrations.antt =====
-- src/mcpgtw/channel.py: what a provider registers (`_guard_size`, `_guard_count`,
-- `_compile_tools`, `_compile_named`, `register`). The texts of exceptions leave out the numbers
-- and the `repr` of values.
pub mod Contract
use mcp_gtw.Base.{
  ℕ, String, Bool, true, false, Option, none, some, leb, ltb, ◌&&◌, any_of, List, [], ◌∷◌, text_eq,
  ◌==◌, length, join, if◌then◌else◌,
}
use mcp_gtw.Json.{Fields, object}
use mcp_gtw.Json.Text.{dumps, utf8_size}
use mcp_gtw.Errors.{Result, ok, err, provider_message, value_error, ◌>>=◌, ◌>>◌}
use mcp_gtw.Settings.{Settings, over_limit}
use mcp_gtw.Protocol.Words
use mcp_gtw.Dict.{Dict, has, set}
use mcp_gtw.Libraries.{Libraries, Parsed, valid, invalid}
use mcp_gtw.Channel.{
  Channel, Tool, CompiledTool, Entry, Note, tool_list_changed, resource_list_changed,
  prompt_list_changed, World,
}
use mcp_gtw.Channel.Sessions.{notify}

abbrev require : Bool → String → Result (Unit {0})
require true message = ok tt
require false message = err (provider_message message)

-- an exception of a library, raised again as `ProviderMessageError`
abbrev or_raise {ℓ} : {A : Type ℓ} → Parsed A → String → Result A
or_raise (valid a) message = ok a
or_raise (invalid reason) message = err (provider_message (join message reason))

-- a lone surrogate, which `str.encode` does not accept
abbrev is_surrogate : ℕ → Bool
is_surrogate c = leb 55296 c && leb c 57343

-- `_guard_size` by the maximum, with the text that is encoded
unfoldable pub guard_encoded : Option ℕ → List ℕ → String → Result (Unit {0})
guard_encoded none cs label = ok tt
guard_encoded (some maximum) cs label =
    if any_of is_surrogate cs
    then err (value_error "surrogates not allowed")
    else if ltb maximum (utf8_size cs)
    then err (provider_message (join label " exceeds the configured maximum size"))
    else ok tt

unfoldable pub guard_size : Settings → Fields → String → Result (Unit {0})
guard_size s item label = guard_encoded s.maximum_tool_definition_bytes (dumps (object item)) label

unfoldable pub guard_count : Settings → ℕ → String → Result (Unit {0})
guard_count s count label =
    if over_limit s.maximum_tools count
    then err (provider_message (join "Too many " label))
    else ok tt

abbrev check_output : Libraries → Tool → Result (Unit {0})
check_output lib tool = elim tool.output_schema [
  | none ↦ ok tt
  | some schema ↦ or_raise (lib.check_schema schema) "Invalid JSON Schema for tool: "
]

-- the second half of a turn of `_compile_tools`, with the validated tool
unfoldable pub add_tool :
    Libraries → Dict String CompiledTool → Tool → Result (Dict String CompiledTool)
add_tool lib compiled tool = do
  require (if has compiled tool.name then false else true) (join "Duplicate tool name: " tool.name)
  or_raise (lib.check_schema tool.input_schema) "Invalid JSON Schema for tool: "
  check_output lib tool
  ok (
      set compiled tool.name (record {
        definition = tool;
        input_validator = tool.input_schema;
        output_validator = tool.output_schema;
      }))

-- one turn of the loop of `_compile_tools`
unfoldable pub compile_tool :
    Libraries → Settings → Dict String CompiledTool → Fields → Result (Dict String CompiledTool)
compile_tool lib s compiled raw_tool = do
  guard_size s raw_tool "Tool definition"
  tool ← or_raise (lib.parse_tool raw_tool) "Invalid MCP tool definition: "
  add_tool lib compiled tool

-- a loop that stops at the first exception
unfoldable pub compile_each {ℓ} :
    {A : Type ℓ} → (A → Fields → Result A) → A → List Fields → Result A
compile_each turn compiled [] = ok compiled
compile_each turn compiled (item ∷ rest) = elim (turn compiled item) [
  | ok next ↦ compile_each turn next rest
  | err e ↦ err e
]

unfoldable pub compile_tools :
    Libraries → Settings → List Fields → Result (Dict String CompiledTool)
compile_tools lib s raw_tools = do
  guard_count s (length raw_tools) "tools"
  compile_each (compile_tool lib s) [] raw_tools

-- the second half of a turn of `_compile_named`, with the validated entry
unfoldable pub add_entry : String → Dict String Entry → Entry → Result (Dict String Entry)
add_entry label compiled entry = do
  require (if has compiled entry.identifier then false else true)
      (join "Duplicate " (join label (join ": " entry.identifier)))
  ok (set compiled entry.identifier entry)

-- one turn of the loop of `_compile_named`
unfoldable pub compile_entry :
    (Fields → Parsed Entry)
    → Settings
    → String
    → Dict String Entry
    → Fields
    → Result (Dict String Entry)
compile_entry model s label compiled item = do
  guard_size s item (join label " definition")
  entry ← or_raise (model item) (join "Invalid MCP " (join label ": "))
  add_entry label compiled entry

unfoldable pub compile_named :
    (Fields → Parsed Entry) → Settings → String → List Fields → Result (Dict String Entry)
compile_named model s label raw = do
  guard_count s (length raw) (join label "s")
  compile_each (compile_entry model s label) [] raw

-- the methods of `_LIST_CHANGED`
unfoldable pub list_changed : String → List Note
list_changed registry =
    if registry == Words.tools
    then tool_list_changed ∷ []
    else if registry == Words.resources
    then resource_list_changed ∷ []
    else if registry == Words.resource_templates
    then resource_list_changed ∷ []
    else prompt_list_changed ∷ []

-- the registries after `register`, up to its notification
unfoldable pub register_locked : Libraries → String → List Fields → Channel → Result Channel
register_locked lib registry items c =
    if registry == Words.tools
    then (do compiled ← compile_tools lib c.settings items; ok (record c { tools = compiled }))
    else if registry == Words.resources
    then (do
      entries ← compile_named lib.parse_resource c.settings "resource" items
      ok (record c { resources = entries }))
    else if registry == Words.resource_templates
    then (do
      entries ← compile_named lib.parse_resource_template c.settings "resource template" items
      ok (record c { resource_templates = entries }))
    else if registry == Words.prompts
    then (do
      entries ← compile_named lib.parse_prompt c.settings "prompt" items
      ok (record c { prompts = entries }))
    else err (provider_message "Unknown registry")

-- An exception leaves the channel as it was.
unfoldable pub register :
    Libraries → World → String → List Fields → Channel → Result (Unit {0}) × Channel
register lib w registry items c = elim (register_locked lib registry items c) [
  | ok c' ↦ (ok tt, notify w (list_changed registry) c')
  | err e ↦ (err e, c)
]
