-- ===== src/Libraries.antt =====
-- The third-party code that the channel calls: the models of `mcp.types`, as parsers of JSON, and
-- `jsonschema`. They are parameters of the definitions that use them.
use mcp_gtw.Base.{ℕ, String, Bool, Option, List}
use mcp_gtw.Json.{Json, Fields}
use mcp_gtw.Channel.{Tool, Entry}

-- a validated value, or the text of the exception
pub data Parsed {ℓ} (A : Type ℓ) : Type ℓ where
  valid : A → Parsed A
  invalid : String → Parsed A

-- what a validator says of an instance
pub data Verdict : Type 0 where
  passes : Verdict
  fails : String → Verdict
  unresolvable : Verdict

-- `types.CallToolResult`, by the fields that the source reads and writes
pub record CallToolResult : Type 0 where
  pub content : List Json
  pub structured_content : Option Json
  pub is_error : Bool

pub record Libraries : Type 0 where
  -- types.Tool.model_validate and the three other models
  pub parse_tool : Fields → Parsed Tool
  pub parse_resource : Fields → Parsed Entry
  pub parse_resource_template : Fields → Parsed Entry
  pub parse_prompt : Fields → Parsed Entry
  -- Draft202012Validator.check_schema
  pub check_schema : Json → Parsed (Unit {0})
  -- Draft202012Validator(schema, registry=Registry()).validate(instance)
  pub validate : Json → Json → Verdict
  -- types.CallToolResult.model_validate
  pub parse_call_result : Json → Parsed CallToolResult
  -- types.GetPromptResult.model_validate and types.Completion.model_validate
  pub parse_prompt_result : Json → Parsed Json
  pub parse_completion : Json → Parsed Json
  -- `json.dumps` as a text (Json.Text has its characters) and `base64.b64decode(…, validate=True)`
  pub dumps_text : Json → Json
  pub b64decode : String → Option (List ℕ)
