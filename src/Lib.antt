-- ===== src/Lib.antt =====
-- The verification library of mcp-gtw, a gateway between MCP clients and tool providers. A provider
-- connects by a websocket, registers its tools, resources and prompts on a channel, and answers what
-- the gateway relays to it; MCP sessions list and call what is registered; OAuth decides who may use
-- which channel. The library models the state and the operations of these parts and proves what makes
-- them correct.
--
-- Parts, files and the code they model:
--
-- Base (with Base/Tests, Lists, Equality, Sets, Texts): Boolean tests on native numbers, lists,
-- equality as an instance argument, Python's sets and methods of `str`. Dict and Dict/Laws: Python's
-- dictionaries as entries in insertion order.
--
-- Json and Json/Text: the values of `json`, and the text that `json.dumps` writes for them.
--
-- Protocol and Protocol/Words (src/mcpgtw/protocol.py): the frames between gateway and provider.
-- Errors (src/mcpgtw/errors.py, oauth/access_error.py): exceptions as values. Settings
-- (src/mcpgtw/config.py): the settings that the modelled parts read; Settings/Validation has the
-- validators of `GatewaySettings`, and Settings/Validation/Trust what passes them. Libraries: the
-- third-party code that the channel calls.
--
-- Codec, Codec/Depth, Codec/Agreement (src/mcpgtw/codec.py): the bracket scanner and `decode`.
--
-- Channel (src/mcpgtw/channel.py, pending_request.py, compiled_tool.py, json_websocket.py): the state
-- of a channel. Its operations are in Channel/Sessions (`remember_mcp_session`, `_forget_session`,
-- `_drop_sessions`, `_notify`), Channel/Attach (`attach`, `detach`, `close`, `_fail_pending`),
-- Channel/Registrations (`register`, `_compile_tools`, `_compile_named`), Channel/Calls
-- (`_call_provider`, `send_to_provider`, `handle_result`), Channel/Subscriptions (`subscribe`,
-- `unsubscribe`, `resync_subscriptions`), Channel/Relay (`handle_provider_call`,
-- `handle_provider_notification`), Channel/Messages (`handle_provider_message`) and Channel/Results
-- (`execute_tool`, `normalize_result`, `read_resource`, `get_prompt`, `complete`). Channel/System has
-- the steps of a channel that several tasks share, Channel/Provider the part of the state that a
-- provider's connection and its calls touch; the modules below and beside them prove.
--
-- Registry (src/mcpgtw/registry.py, listeners.py): the channels with their token indexes.
-- Registry/Expiry (expiry.py) is the policy of deadlines as an interface with the default policy,
-- Registry/Tokens (tokens.py) the search for a free token, Registry/Lifecycle the operations and
-- Registry/Admin the administration listing. Registry/Steps has the steps of a registry, among them
-- the steps of its channels.
--
-- Oauth/Context, Oauth/Bindings (src/mcpgtw/oauth/access_context.py, session_binding.py): whom an MCP
-- session belongs to. Oauth/Grants (channel_grants.py): the interface of a store of grants and its
-- contract, which Oauth/Grants/Memory (channel_grants.py) and Oauth/Grants/Sqlite (sqlite_grants.py)
-- keep and which Oauth/Grants/Access (channel_access.py) relies on. Oauth/State (state_store.py):
-- one-time codes, login records and rotating refresh tokens. Oauth/RateLimit (rate_limit.py,
-- rate_budget.py): request budgets with backoff.
--
-- Oauth/Server (src/mcpgtw/oauth/authorization_server.py): the operations of the authorization server
-- on the store of OAuth records. Oauth/Server/Clients is `authenticate_client`, Oauth/Server/Exchange
-- is `exchange`, the code and refresh grants of the token endpoint, with Exchange/Redemption,
-- Exchange/Codes and Exchange/Once for what a code is good for, and Oauth/Server/Revocation is
-- `verify` and `revoke`.
--
-- Access (src/mcpgtw/authenticator.py, origin.py, and access_decision.py, verified_principal.py of
-- src/mcpgtw/oauth): who makes a request. Access/Credentials (oauth/credentials.py) and Access/Claims
-- (oauth/claims.py) read a header and the claims of a token; Access/Controllers
-- (oauth/client_access.py, oauth_client_access.py, hybrid_client_access.py) has the three access
-- controllers; Access/Causes, Access/Decisions and Access/Hybrid prove what they decide.
--
-- Gateway (src/mcpgtw/gateway.py): what joins these parts, over one state that all requests share.
-- Gateway/Mcp is `mcp_asgi`, which authorizes a request by a controller, binds its session and hands
-- it to the MCP server through the `guarded_send` of Gateway/Responses; Gateway/Guard and
-- Gateway/Admission prove what is let through. Gateway/Provider is `provider_endpoint` with its pump,
-- which drives a channel; Provider/Pump and Provider/Frames prove. Gateway/Setup is the checks of
-- `__init__`, `_build_access_controller` and the routes, with Setup/Controller and Setup/Admin for
-- which controller and which routes result.
--
-- How the code is read:
--
-- A coroutine is cut at its awaits. What runs under a lock without an await is one function of the
-- state (the names that end in `locked`), and a call that waits for the provider is `call_begin`,
-- `call_resume` and `call_end`, between which any other step may come; Channel/System and
-- Registry/Steps let the steps follow one another in any order. The registry's `remove_channel` and
-- `create_channel` are one step each. The functions that run through an await (`attach`, `detach`,
-- `notify`, the `authorize` of the controllers, `exchange`) are the runs in which nothing comes
-- between. In the two endpoints of the gateway other tasks do come between: the MCP server is a
-- `Handling`, a tree of its sends, of its end and of what others do meanwhile, and what reaches a
-- provider's websocket is a list of events, with what others do before each. The theorems on them are
-- for every such tree and list. A client that a provider's call asks may never answer, since nothing
-- limits that wait: the call is then `none`, and the pump that handles it is `blocked`.
--
-- A channel object is told from a later one with the same id by a `Reference`: its id, and how many
-- channels of that id had been removed when it was created.
--
-- A future is an entry of `futures` under its request id, since `_fail_pending` sets the exception of
-- a future after its request is no longer pending. What a channel sends is kept, newest first, as the
-- record of its effects. Request ids, object identities, fresh secrets and digests are arguments.
-- Times are natural numbers of a unit that is fine enough, and `math.inf` is a constructor; rounding
-- of floats is a parameter. The texts of exceptions leave out the numbers and the `repr` of values. A
-- database is a list of rows whose transactions are rolled back if they raise. Sets of scopes are
-- lists.
--
-- What stands outside the repository is a parameter: the models of `mcp.types`, `jsonschema` and
-- `base64` are the fields of `Libraries`, the sockets and the sessions of MCP are those of `World`,
-- `json.loads` is an argument of `decode` and `secrets.token_urlsafe` a `TokenProvider`. So are
-- `urlsplit`, base64 and percent decoding, digests, the signing key, the verifier of tokens and the
-- routes that FastAPI itself gives an app. The budgets of the revocation endpoint are an interface.
-- The registry of clients is a parameter of the authorization server too.
--
-- Fuel: `remember_mcp_session` evicts at most as often as there are sessions, which is enough to get
-- below any limit; `_unique_token` has one turn more than there are tokens in use, which is enough if
-- the provider of tokens does not repeat itself. The loop of the rate limit's `admit` has one turn for
-- each entry of its heap, which is enough because an entry that is pushed back is not due. All other
-- loops are recursion on a list. The gateway's endpoints and the operations of the authorization
-- server need none: they are recursion on what the MCP server or the provider does, or have no loop.
--
-- Not modelled: in src/mcpgtw/gateway.py the handlers of the MCP server (`list_tools`, `call_tool` and
-- those beside them), which call the channel's operations, the lifespan with its reaper, and the
-- administration page; in src/mcpgtw/oauth/authorization_server.py the pages of login and consent and
-- the endpoints around them, `authorize`, and the HTTP side of the token endpoint. In
-- src/mcpgtw/oauth, client_registry.py, client_metadata.py and identity.py are what the server calls
-- for clients and users; tool_access.py, tool_metadata.py, resource_metadata.py and endpoint_limits.py
-- are tables; signing_key.py, jwt_verifier.py, introspection_verifier.py, http_fetch.py and
-- public_network.py are files, network and cryptography. src/mcpgtw/main.py starts the server.
pub mod Base
pub mod Dict
pub mod Json
pub mod Settings
pub mod Channel
pub mod Libraries
pub mod Errors
pub mod Protocol
pub mod Codec
pub mod Registry
pub mod Oauth
pub mod Access
pub mod Gateway
