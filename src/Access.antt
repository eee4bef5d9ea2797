-- ===== src/Access.antt =====
-- src/mcpgtw/oauth/access_error.py, access_decision.py, client_access.py, oauth/verified_principal.py
-- and src/mcpgtw/authenticator.py, origin.py: requests and who may make them. A channel that a request
-- may use is a reference to an object, since a later channel may have the same id.
pub mod Credentials
pub mod Claims
pub mod Controllers
pub mod Causes
pub mod Decisions
pub mod Hybrid
pub mod Tests
use mcp_gtw.Base.{
  ℕ, String, Bool, true, false, Option, none, some, List, [], ◌∷◌, text_eq, ℕ_eq, ◌==◌, ◌&&◌, ◌||◌,
  contains, length, keep_if, is_some,
}
use mcp_gtw.Errors.{Error, Result, ok, err, mcp_access}
pub use mcp_gtw.Errors.{
  Reason, missing_token, invalid_token, insufficient_scope, channel_forbidden, verifier_unavailable,
  invalid_session,
}
use mcp_gtw.Dict.{has}
use mcp_gtw.Channel.{Channel}
use mcp_gtw.Registry.{Registry}
use mcp_gtw.Oauth.Context.{AccessContext}
use mcp_gtw.Oauth.Grants.{Principal}

unfoldable pub status_code : Reason → ℕ
status_code missing_token = 401
status_code invalid_token = 401
status_code insufficient_scope = 403
status_code channel_forbidden = 404
status_code verifier_unavailable = 503
status_code invalid_session = 404

-- a value, a `McpAccessError`, or another exception
pub data Outcome {ℓ} (A : Type ℓ) : Type ℓ where
  granted : A → Outcome A
  denied : Reason → Outcome A
  raised : Error → Outcome A

infixl 5 ◌>>=◌
abbrev pub ◌>>=◌ {ℓ κ} : {A : Type ℓ} {B : Type κ} → Outcome A → (A → Outcome B) → Outcome B
outcome >>= next = elim outcome [
  | granted value ↦ next value
  | denied reason ↦ denied reason
  | raised e ↦ raised e
]

-- what an exception is to a client
unfoldable pub raise {ℓ} : {A : Type ℓ} → Error → Outcome A
raise (mcp_access reason) = denied reason
raise e = raised e

-- what the source reads of a starlette request; the headers of one name in their order
pub record Request : Type 0 where
  pub method : String
  pub path : String
  pub root_path : String
  pub client_host : Option String
  pub origin : Option String
  pub authorization : List String
  pub mcp_session_id : List String

abbrev pub head : List String → Option String
head [] = none
head (value ∷ values) = some value

-- Channel objects are told apart by their id and by how many channels of that id the registry has
-- removed before.
pub record Reference : Type 0 where
  pub channel_id : String
  pub incarnation : ℕ

unfoldable pub incarnation : Registry → String → ℕ
incarnation r channel_id = length (keep_if (λ c. c.channel_id == channel_id) r.removed)

unfoldable pub reference : Registry → String → Reference
reference r channel_id = record { channel_id = channel_id; incarnation = incarnation r channel_id }

-- `a is b`
unfoldable pub same_channel : Reference → Reference → Bool
same_channel a b = a.channel_id == b.channel_id && a.incarnation == b.incarnation

-- `registry.get(channel.channel_id) is channel`
unfoldable pub is_registered : Registry → Reference → Bool
is_registered r channel =
    has r.channels channel.channel_id && incarnation r channel.channel_id == channel.incarnation

pub record AuthorizedMcpRequest : Type 0 where
  pub channel : Reference
  pub context : AccessContext

-- verified_principal.py
pub record VerifiedPrincipal : Type 0 where
  pub issuer : String
  pub subject : String
  pub client_id : String
  pub scopes : List String
  pub expires_at : ℕ

-- What is made with the digests: `principal_id` from the issuer, the subject and the client, and the
-- keyed digest of a text.
pub record Digests : Type 0 where
  pub principal_id : String → String → String → String
  pub keyed : String → String

unfoldable pub principal_of : Digests → VerifiedPrincipal → Principal
principal_of digests p = record {
  principal_id = digests.principal_id p.issuer p.subject p.client_id;
  scopes = p.scopes;
  expires_at = p.expires_at;
}

-- origin.py: `ListOriginPolicy(allowed).allows(origin)`
unfoldable pub allows_origin : List String → String → Bool
allows_origin allowed origin = contains allowed "*" || contains allowed origin

unfoldable pub allows : List String → Option String → Bool
allows allowed none = true
allows allowed (some origin) = allows_origin allowed origin

-- A controller of a state of its own, which may read the registry and the clock.
pub record Controller (S : Type 0) : Type 0 where
  pub authorize : ℕ → Request → Registry → S → Outcome AuthorizedMcpRequest × S
