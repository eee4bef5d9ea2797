-- ===== src/Channel/Tests.antt =====
-- The channel at concrete inputs.
use mcp_gtw.Base.{true, false, none, some, [], ◌∷◌, ◌≡◌, refl, arith, text_eq, ℕ_eq}
use mcp_gtw.Json
use mcp_gtw.Json.{
  Json, Fields, Items, null, number, text, array, object, field, done, nil, cons, as_text,
}
use mcp_gtw.Json.Text.{dumps, utf8_size}
use mcp_gtw.Errors.{Result, ok, err, provider_request, provider_message}
use mcp_gtw.Settings.{Settings, embedded}
use mcp_gtw.Dict.{get, set, pop}
use mcp_gtw.Libraries.{Libraries, valid, invalid, passes, CallToolResult}
use mcp_gtw.Channel.{Channel, Tool, waiting, World, new_channel}
use mcp_gtw.Channel.Sessions.{remember_mcp_session}
use mcp_gtw.Channel.Sessions.Bounds.{Remembers, remember-Remembers}
use mcp_gtw.Channel.Attach.{attach, attach_locked, detach, is_current, is_replaced}
use mcp_gtw.Channel.Registrations.{
  compile_tools, compile_named, compile_tool, add_tool, compile_each, guard_count, guard_size,
  guard_encoded, register, compile_entry, add_entry,
}
use mcp_gtw.Protocol.Words
use mcp_gtw.Channel.Registrations.Contract.{IsRegistered, register-IsRegistered}
use mcp_gtw.Channel.Calls.{handle_result, outcome, result_outcome}
use mcp_gtw.Channel.Subscriptions.{subscribe}
use mcp_gtw.Channel.Subscriptions.Members.{is_subscribed, is_subscribed-subscribe}
use mcp_gtw.Channel.Subscriptions.Bounds.{
  IsBounded, run, run-IsBounded, subscribing, remembering, updating,
}
use mcp_gtw.Channel.Relay.{call_target}
use mcp_gtw.Channel.Relay.Targets.{NamesRequest, call_target-NamesRequest}
use mcp_gtw.Channel.Results.{
  execute_tool, admit_tool, finish_tool, validate_output, normalize_result,
}
use mcp_gtw.Channel.Results.Soundness.{IsSoundResult, execute_tool-IsSoundResult}
use mcp_gtw.Channel.Provider.{side}
use mcp_gtw.Channel.Provider.Soundness.{IsSound}
use mcp_gtw.Channel.System.{here, next, attaches}
use mcp_gtw.Channel.Waiters.{Reach-IsSound, detach-wakes, attach-wakes, handle_result-first}

abbrev settings : Settings
settings = record {
  tool_call_timeout_seconds = some 60;
  maximum_tools = some 2;
  maximum_tool_definition_bytes = some 200;
  maximum_websocket_message_bytes = 1000;
  maximum_json_depth = 5;
  maximum_pending_calls_per_channel = some 2;
  maximum_mcp_sessions_per_channel = some 2;
  maximum_subscriptions_per_channel = some 1;
  maximum_channels = some 2;
  offline_ttl_seconds = 300;
  admin_enabled = false;
  oauth_mode = embedded;
}

abbrev fresh_channel : Channel
fresh_channel = record {
  channel_id = "c";
  mcp_token = "m";
  provider_token = "p";
  settings = settings;
  metadata = done;
  websocket = none;
  provider_id = none;
  provider_name = none;
  tools = [];
  resources = [];
  resource_templates = [];
  prompts = [];
  pending = [];
  subscriptions = [];
  log_levels = [];
  mcp_sessions = [];
  futures = [];
  made_sets = 0;
  sent = [];
  notes = [];
  closed = [];
}

-- sessions below 10 answer, and every socket delivers
abbrev pub world : World
world = record {
  delivers = λ s m. true;
  responds = λ s n. true;
  create_message = λ s p. some (ok null);
  elicit_form = λ s p. some (ok null);
  str_of = λ v. "?";
}

abbrev object_schema : Json
object_schema = object done

abbrev echo : Tool
echo = record {
  name = "echo";
  input_schema = object_schema;
  output_schema = none;
  annotations = null;
}

-- libraries that accept everything
abbrev pub libraries : Libraries
libraries = record {
  parse_tool = λ fs. valid echo;
  parse_resource = λ fs. valid (record { identifier = "r"; body = null });
  parse_resource_template = λ fs. valid (record { identifier = "t"; body = null });
  parse_prompt = λ fs. valid (record { identifier = "p"; body = null });
  check_schema = λ s. valid tt;
  validate = λ s v. passes;
  parse_call_result = λ v. invalid "no";
  parse_prompt_result = λ v. valid v;
  parse_completion = λ v. valid v;
  dumps_text = λ v. v;
  b64decode = λ s. none;
}

-- socket 1 attached, and session 7 waits for request "a"
abbrev waiting_channel : Channel
waiting_channel = record fresh_channel {
  websocket = some 1;
  pending = ("a", record { session = some 7; progress_token = none }) ∷ [];
  futures = ("a", waiting) ∷ [];
}

waiting_channel-IsSound : IsSound (side waiting_channel)
unfolding side get
waiting_channel-IsSound = record {
  tracked = λ id h. ground (arith, h);
  no_pending = λ h. cc;
  no_tools = λ _. refl;
  no_resources = λ _. refl;
  no_templates = λ _. refl;
  no_prompts = λ _. refl;
  bounded = ground arith;
}

Reach-IsSound_example :
    IsSound (side (attach_locked 1 "id" none (new_channel "c" "m" "p" settings done)))
Reach-IsSound_example =
    Reach-IsSound libraries world "c" "m" "p" settings done _ (next here (attaches _ 1 "id" none))

detach-wakes_example :
    let d = (detach world 1 waiting_channel).1 in
    (outcome (get d.futures "a") ≡ err (provider_request "The channel provider disconnected"))
    × (d.pending ≡ [])
unfolding get is_current
detach-wakes_example = detach-wakes waiting_channel waiting_channel-IsSound "a" refl world 1 refl

attach-wakes_example :
    let d = attach world 2 "id" none waiting_channel in
    (outcome (get d.futures "a")
      ≡ err (provider_request "The channel provider was replaced by a new connection"))
    × (d.pending ≡ [])
    × (d.tools ≡ [])
    × (d.resources ≡ [])
    × (d.resource_templates ≡ [])
    × (d.prompts ≡ [])
    × (d.websocket ≡ some 2)
unfolding get is_replaced
attach-wakes_example =
    attach-wakes waiting_channel waiting_channel-IsSound "a" refl world 2 "id" none refl

abbrev result_message : Fields
result_message = field "requestId" (text "a") (field "result" (text "done") done)

handle_result-first_example :
    let d = (handle_result world result_message waiting_channel).1 in
    (get d.futures "a" ≡ some (result_outcome world result_message))
    × (get (handle_result world result_message d).1.futures "a"
        ≡ some (result_outcome world result_message))
unfolding get Json.get_field
handle_result-first_example =
    handle_result-first world result_message result_message waiting_channel "a" refl refl refl

compile_tools-echo :
    compile_tools libraries settings (done ∷ [])
    ≡ ok (
        (
          "echo",
          record { definition = echo; input_validator = object_schema; output_validator = none },
        )
        ∷ [])
unfolding compile_tools compile_tool add_tool compile_each guard_count guard_size guard_encoded
    dumps utf8_size get set
compile_tools-echo = refl

register-IsRegistered_example :
    IsRegistered libraries
      (done ∷ [])
      waiting_channel
      (register libraries world Words.tools (done ∷ []) waiting_channel)
register-IsRegistered_example = register-IsRegistered libraries world (done ∷ []) waiting_channel

-- two tools of one name are refused
compile_tools_duplicate :
    compile_tools libraries settings (done ∷ done ∷ [])
    ≡ err (provider_message "Duplicate tool name: echo")
unfolding compile_tools compile_tool add_tool compile_each guard_count guard_size guard_encoded
    dumps utf8_size get set
compile_tools_duplicate = refl

compile_named_one :
    compile_named libraries.parse_resource settings "resource" (done ∷ [])
    ≡ ok (("r", record { identifier = "r"; body = null }) ∷ [])
unfolding compile_named compile_entry add_entry compile_each guard_count guard_size guard_encoded
    dumps utf8_size get set
compile_named_one = refl

abbrev two_sessions : Channel
two_sessions = record fresh_channel { mcp_sessions = (1, 1) ∷ (2, 2) ∷ [] }

remember-Remembers_example : Remembers 3 two_sessions (remember_mcp_session 3 two_sessions)
remember-Remembers_example = remember-Remembers 3 two_sessions (λ e. cc)

-- the third session takes the place of the first
remember_evicts : (remember_mcp_session 3 two_sessions).mcp_sessions ≡ (2, 2) ∷ (3, 3) ∷ []
unfolding remember_mcp_session set pop
remember_evicts = refl

is_subscribed-subscribe_example :
    is_subscribed (subscribe "u" 7 (ok null) fresh_channel).1 "u" 7 ≡ true
unfolding get
is_subscribed-subscribe_example = is_subscribed-subscribe "u" "u" 7 7 fresh_channel (ok null)

abbrev subscribed_channel : Channel
subscribed_channel = record fresh_channel {
  subscriptions = ("u", record { object_id = 0; members = 7 ∷ [] }) ∷ [];
}

run-IsBounded_example : IsBounded (
    run world
      (subscribing "u" 7 ∷ subscribing "v" 8 ∷ remembering 1 ∷ updating "u" ∷ [])
      fresh_channel)
run-IsBounded_example =
    run-IsBounded world (subscribing "u" 7 ∷ subscribing "v" 8 ∷ remembering 1 ∷ updating "u" ∷ [])
      fresh_channel (record { subscriptions = record { within = refl; inhabited = tt } })

call_target-NamesRequest_example : NamesRequest (text "a") waiting_channel 7
unfolding get call_target Json.get_field
call_target-NamesRequest_example =
    call_target-NamesRequest (text "a") waiting_channel 7 refl refl refl

abbrev echo_channel : Channel
echo_channel = record fresh_channel {
  tools =
      (
        "echo",
        record { definition = echo; input_validator = object_schema; output_validator = none },
      )
      ∷ [];
}

abbrev hello_result : CallToolResult
hello_result = record {
  content = object (field "type" (text "text") (field "text" (text "hello") done)) ∷ [];
  structured_content = none;
  is_error = false;
}

execute_tool_hello :
    execute_tool libraries "echo" null (ok (text "hello")) echo_channel ≡ ok hello_result
unfolding execute_tool admit_tool finish_tool validate_output normalize_result get
execute_tool_hello = refl

execute_tool-IsSoundResult_example :
    (raw : Json) × (◌≡◌ {A = Result Json} (ok (text "hello")) (ok raw))
    × IsSoundResult libraries "echo" null raw echo_channel hello_result
execute_tool-IsSoundResult_example =
    execute_tool-IsSoundResult libraries "echo" null (ok (text "hello")) echo_channel hello_result
      execute_tool_hello refl
