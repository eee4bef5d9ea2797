-- ===== src/Channel/Results/Soundness.antt =====
-- What the result of a tool call was checked for.
use mcp_gtw.Base.{
  String, true, false, none, some, ◌≡◌, refl, arith, ap, sym, subst, inl, inr, false≢true, join,
  ◌∙◌, Option-cases, Bool-cases, text_eq,
}
use mcp_gtw.Json.{Json}
use mcp_gtw.Errors.{Result, ok, err, provider_request}
use mcp_gtw.Dict.{get}
use mcp_gtw.Libraries.{
  Libraries, Parsed, valid, invalid, Verdict, passes, fails, unresolvable, CallToolResult,
}
use mcp_gtw.Channel.{Channel, CompiledTool}
use mcp_gtw.Channel.Results.{
  error_result, judge, normalize_result, validate_output, Admission, call, refuse, admit_tool,
  finish_normalized, finish_tool, execute_tool,
}

-- a result that was checked against the output schema, if there is one
pub data IsChecked (lib : Libraries) (tool : CompiledTool) (result : CallToolResult) : Type 0 where
  no_schema : tool.output_validator ≡ none → IsChecked lib tool result
  checked :
      (schema value : Json)
      → tool.output_validator ≡ some schema
      → result.structured_content ≡ some value
      → lib.validate schema value ≡ passes
      → IsChecked lib tool result

pub record IsSoundResult (lib : Libraries) (name : String) (arguments answer : Json) (c : Channel)
    (result : CallToolResult) : Type 0 where
  pub tool : CompiledTool
  pub listed : get c.tools name ≡ some tool
  pub arguments_ok : lib.validate tool.input_validator arguments ≡ passes
  pub normalized : normalize_result lib answer ≡ valid result
  pub output_ok : IsChecked lib tool result

is_error-error_result : (message : String) → (error_result message).is_error ≡ true
unfolding error_result
is_error-error_result message = refl

judge-passes :
    (v : Verdict) (name : String) (raw : CallToolResult)
    → (judge v name raw).is_error ≡ false
    → (v ≡ passes) × (judge v name raw ≡ raw)
judge-passes passes name raw h = (refl, refl)
judge-passes (fails m) name raw h =
    cc (is_error-error_result (join "Output validation error for '" (join name (join "': " m))))
judge-passes unresolvable name raw h = cc (
    is_error-error_result
      (join "Output validation error for '" (join name "': unresolved schema reference")))

-- the result with structured content, where there is a schema, is the validator's
validate_output-judge :
    (lib : Libraries) (tool : CompiledTool) (raw : CallToolResult) (schema value : Json)
    → raw.is_error ≡ false
    → tool.output_validator ≡ some schema
    → raw.structured_content ≡ some value
    → validate_output lib tool raw ≡ judge (lib.validate schema value) tool.definition.name raw
unfolding validate_output
validate_output-judge lib tool raw schema value e f g = ground arith

validate_output-IsChecked :
    (lib : Libraries) (tool : CompiledTool) (raw : CallToolResult)
    → (validate_output lib tool raw).is_error ≡ false
    → (validate_output lib tool raw ≡ raw) × IsChecked lib tool raw
unfolding validate_output error_result
validate_output-IsChecked lib tool raw h = elim (Bool-cases raw.is_error) [
  | inl e ↦ absurd (ground (arith, h))
  | inr e ↦ elim (Option-cases tool.output_validator) [
    | inl f ↦ (ground arith, no_schema f)
    | inr (schema, f) ↦ elim (Option-cases raw.structured_content) [
      | inl g ↦ absurd (ground (arith, h))
      | inr (value, g) ↦
          let j = validate_output-judge lib tool raw schema value e f g in
          let (v, same) =
            judge-passes (lib.validate schema value) tool.definition.name raw
              (ap (λ (r : CallToolResult). r.is_error) (sym j) ∙ h) in
          (j ∙ same, checked schema value f g v)
    ]
  ]
]

-- what the provider's answer must have been
record Finishes (lib : Libraries) (tool : CompiledTool) (answer : Result Json)
    (result : CallToolResult) : Type 0 where
  raw : Json
  answered : answer ≡ ok raw
  normalized : normalize_result lib raw ≡ valid result
  checked_output : IsChecked lib tool result

finish_valid :
    (lib : Libraries) (tool : CompiledTool) (raw : Json) (p : Parsed CallToolResult)
    (result : CallToolResult)
    → normalize_result lib raw ≡ p
    → finish_normalized lib tool p ≡ ok result
    → result.is_error ≡ false
    → Finishes lib tool (ok raw) result
finish_valid lib tool raw (valid r) result e h fine =
    let same : validate_output lib tool r ≡ result = ground (arith, h) in
    let (keeps, is_checked) =
      validate_output-IsChecked lib tool r (ap (λ (x : CallToolResult). x.is_error) same ∙ fine) in
    let own = sym keeps ∙ same in
    record {
      raw = raw;
      answered = refl;
      normalized = e ∙ ap valid own;
      checked_output = subst (IsChecked lib tool) own is_checked;
    }
finish_valid lib tool raw (invalid m) result e h fine =
    let same : error_result (join "Invalid provider result: " m) ≡ result = ground (arith, h) in
    absurd (
      false≢true (
        sym fine
        ∙ ap (λ (x : CallToolResult). x.is_error) (sym same)
        ∙ is_error-error_result (join "Invalid provider result: " m)))

finish_tool-Finishes :
    (lib : Libraries) (tool : CompiledTool) (answer : Result Json) (result : CallToolResult)
    → finish_tool lib tool answer ≡ ok result
    → result.is_error ≡ false
    → Finishes lib tool answer result
unfolding finish_tool
finish_tool-Finishes lib tool (ok raw) result h fine =
    finish_valid lib tool raw (normalize_result lib raw) result refl h fine
finish_tool-Finishes lib tool (err (provider_request m)) result h fine =
    let same : error_result m ≡ result = ground (arith, h) in
    absurd (
      false≢true
        (sym fine ∙ ap (λ (x : CallToolResult). x.is_error) (sym same) ∙ is_error-error_result m))
finish_tool-Finishes lib tool (err e) result h fine = cc

-- a refused call is answered with an error
refused-is_error :
    (lib : Libraries) (name : String) (arguments : Json) (c : Channel) (result : CallToolResult)
    → admit_tool lib name arguments c ≡ refuse result
    → result.is_error ≡ true
unfolding admit_tool error_result
refused-is_error lib name arguments c result h = ground (arith, h)

admitted_tool :
    (lib : Libraries) (name : String) (arguments : Json) (c : Channel) (tool : CompiledTool)
    → admit_tool lib name arguments c ≡ call tool
    → (get c.tools name ≡ some tool) × (lib.validate tool.input_validator arguments ≡ passes)
unfolding admit_tool
admitted_tool lib name arguments c tool h = ground (arith, h)

-- A tool call returns a result that claims success only for a listed tool, with arguments that its
-- input schema accepts, on an answer of the provider that is well formed, and with structured
-- content that the output schema accepts, where the tool has one.
pub execute_tool-IsSoundResult :
    (lib : Libraries) (name : String) (arguments : Json) (answer : Result Json) (c : Channel)
    (result : CallToolResult)
    → execute_tool lib name arguments answer c ≡ ok result
    → result.is_error ≡ false
    → (raw : Json) × (answer ≡ ok raw) × IsSoundResult lib name arguments raw c result
unfolding execute_tool
execute_tool-IsSoundResult lib name arguments answer c result h fine =
    go (admit_tool lib name arguments c) refl
  where
    go :
        (a : Admission)
        → admit_tool lib name arguments c ≡ a
        → (raw : Json) × (answer ≡ ok raw) × IsSoundResult lib name arguments raw c result
    go (refuse r) e =
        let same : r ≡ result = ground (arith, h, e) in
        absurd (
          false≢true (sym fine ∙ refused-is_error lib name arguments c result (e ∙ ap refuse same)))
    go (call tool) e =
        let (listed, fits) = admitted_tool lib name arguments c tool e in
        let f = finish_tool-Finishes lib tool answer result (rw (e, execute_tool) at h) fine in
        (
          f.raw,
          f.answered,
          record {
            tool = tool;
            listed = listed;
            arguments_ok = fits;
            normalized = f.normalized;
            output_ok = f.checked_output;
          },
        )
