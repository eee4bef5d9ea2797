-- ===== src/Channel/Results.antt =====
-- src/mcpgtw/channel.py: what the MCP clients ask for, around the relayed call (`execute_tool`,
-- `normalize_result`, `validate_output`, `read_resource`, `_read_content`, `get_prompt`,
-- `complete`). The answer of `_call_provider` is an argument.
pub mod Soundness
use mcp_gtw.Base.{
  ℕ, String, true, false, none, some, List, [], ◌∷◌, text_eq, join, is_some, if◌then◌else◌,
}
use mcp_gtw.Json
use mcp_gtw.Json.{
  Json, Items, Fields, null, text, array, object, cons, nil, field, done, as_text, as_object,
  as_array, get_field,
}
use mcp_gtw.Errors.{Result, ok, err, provider_request, ◌>>=◌}
use mcp_gtw.Dict.{get}
use mcp_gtw.Libraries.{
  Libraries, Parsed, valid, invalid, Verdict, passes, fails, unresolvable, CallToolResult,
}
use mcp_gtw.Channel.{Channel, CompiledTool}

-- types.TextContent(type="text", text=…)
abbrev pub text_content : Json → Json
text_content value = object (field "type" (text "text") (field "text" value done))

unfoldable pub error_result : String → CallToolResult
error_result message = record {
  content = text_content (text message) ∷ [];
  structured_content = none;
  is_error = true;
}

-- `lib.dumps_text` is `json.dumps(value)` as a text
unfoldable pub normalize_result : Libraries → Json → Parsed CallToolResult
normalize_result lib (object fs) =
    if is_some (get_field fs "content")
    then lib.parse_call_result (object fs)
    else valid (record {
      content = text_content (lib.dumps_text (object fs)) ∷ [];
      structured_content = some (object fs);
      is_error = false;
    })
normalize_result lib (text s) =
    valid
      (record { content = text_content (text s) ∷ []; structured_content = none; is_error = false })
normalize_result lib value = valid (record {
  content = text_content (lib.dumps_text value) ∷ [];
  structured_content = none;
  is_error = false;
})

abbrev judge : Verdict → String → CallToolResult → CallToolResult
judge passes name result = result
judge (fails message) name result =
    error_result (join "Output validation error for '" (join name (join "': " message)))
judge unresolvable name result =
    error_result (join "Output validation error for '" (join name "': unresolved schema reference"))

unfoldable pub validate_output : Libraries → CompiledTool → CallToolResult → CallToolResult
validate_output lib tool result = if result.is_error then result else elim tool.output_validator [
  | none ↦ result
  | some schema ↦ elim result.structured_content [
    | none ↦ error_result (
        join "Output validation error for '"
          (join tool.definition.name "': outputSchema is defined but structuredContent is missing"))
    | some value ↦ judge (lib.validate schema value) tool.definition.name result
  ]
]

-- before the call: the tool to call, or the result that is returned at once
pub data Admission : Type 0 where
  call : CompiledTool → Admission
  refuse : CallToolResult → Admission

unfoldable pub admit_tool : Libraries → String → Json → Channel → Admission
admit_tool lib name arguments c = elim (get c.tools name) [
  | none ↦ refuse (error_result (join "Unknown tool: " name))
  | some tool ↦ elim (lib.validate tool.input_validator arguments) [
    | passes ↦ call tool
    | fails message ↦
        refuse (error_result (join "Input validation error for '" (join name (join "': " message))))
    | unresolvable ↦ refuse (
        error_result
          (join "Input validation error for '" (join name "': unresolved schema reference")))
  ]
]

-- the result of the provider, checked against the tool
abbrev pub finish_normalized :
    Libraries → CompiledTool → Parsed CallToolResult → Result CallToolResult
finish_normalized lib tool (valid result) = ok (validate_output lib tool result)
finish_normalized lib tool (invalid reason) =
    ok (error_result (join "Invalid provider result: " reason))

-- after the call: only `ProviderRequestError` is turned into a result
unfoldable pub finish_tool : Libraries → CompiledTool → Result Json → Result CallToolResult
finish_tool lib tool (err (provider_request message)) = ok (error_result message)
finish_tool lib tool (err e) = err e
finish_tool lib tool (ok raw) = finish_normalized lib tool (normalize_result lib raw)

unfoldable pub execute_tool :
    Libraries → String → Json → Result Json → Channel → Result CallToolResult
execute_tool lib name arguments answer c = elim (admit_tool lib name arguments c) [
  | refuse result ↦ ok result
  | call tool ↦ finish_tool lib tool answer
]

-- `ReadResourceContents`: a text or decoded bytes
pub data Content : Type 0 where
  plain : String → Json → Content
  bytes : List ℕ → Json → Content

unfoldable pub read_content : Libraries → Json → Result Content
read_content lib (object item) = elim (as_text (Json.get item "text")) [
  | some s ↦ ok (plain s (Json.get item "mimeType"))
  | none ↦ elim (as_text (Json.get item "blob")) [
    | some blob ↦ elim (lib.b64decode blob) [
      | some decoded ↦ ok (bytes decoded (Json.get item "mimeType"))
      | none ↦ err (provider_request "Resource blob is not valid base64")
    ]
    | none ↦ err (provider_request "Resource content must include text or blob")
  ]
]
read_content lib _ = err (provider_request "Resource content must be an object")

unfoldable pub read_contents : Libraries → Items → Result (List Content)
unfolding read_content
read_contents lib nil = ok []
read_contents lib (cons item rest) = elim (read_content lib item) [
  | err e ↦ err e
  | ok content ↦ elim (read_contents lib rest) [
    | err e ↦ err e
    | ok contents ↦ ok (content ∷ contents)
  ]
]

abbrev contents_field : Json → Json
contents_field (object raw) = Json.get raw "contents"
contents_field _ = null

unfoldable pub read_resource : Libraries → Result Json → Result (List Content)
unfolding read_contents
read_resource lib answer = do
  raw ← answer
  elim (as_array (contents_field raw)) [
    | none ↦ err (provider_request "Provider returned an invalid resource result")
    | some items ↦ read_contents lib items
  ]

abbrev or_request_error : String → Parsed Json → Result Json
or_request_error message (valid value) = ok value
or_request_error message (invalid reason) = err (provider_request (join message reason))

unfoldable pub get_prompt : Libraries → Result Json → Result Json
get_prompt lib answer = do
  raw ← answer
  or_request_error "Provider returned an invalid prompt result: " (lib.parse_prompt_result raw)

unfoldable pub complete : Libraries → Result Json → Result Json
complete lib answer = do
  raw ← answer
  or_request_error "Provider returned an invalid completion result: " (lib.parse_completion raw)
