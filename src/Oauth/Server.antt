-- ===== src/Oauth/Server.antt =====
-- src/mcpgtw/oauth/authorization_server.py: `EmbeddedAuthorizationServer`, as actions on the store of
-- OAuth records. An action returns a value, refuses (the source returns `None`) or raises.
pub mod Clients
pub mod Exchange
pub mod Revocation
mod Tests
use mcp_gtw.Base.{
  ℕ, String, Bool, true, false, Option, none, some, List, [], ◌∷◌, text_eq, ◌==◌, if◌then◌else◌,
}
use mcp_gtw.Json.{Fields, as_text, get_field}
use mcp_gtw.Errors.{Error, Result, ok, err}
use mcp_gtw.Dict.{Dict, get}
use mcp_gtw.Oauth.State.{StateStore, Payload}
use mcp_gtw.Oauth.State

pub data Reply {ℓ} (A : Type ℓ) : Type ℓ where
  answers : A → Reply A
  refuses : Reply A
  raises : Error → Reply A

abbrev pub Act {ℓ} : Type ℓ → Type ℓ
Act A = StateStore → Reply A × StateStore

infixl 5 ◌>>=◌ ◌>>◌
abbrev pub after_reply {ℓ κ} :
    {A : Type ℓ} {B : Type κ} → (A → Act B) → Reply A × StateStore → Reply B × StateStore
after_reply next (answers a, s) = next a s
after_reply next (refuses, s) = (refuses, s)
after_reply next (raises e, s) = (raises e, s)

abbrev pub ◌>>=◌ {ℓ κ} : {A : Type ℓ} {B : Type κ} → Act A → (A → Act B) → Act B
(act >>= next) s = after_reply next (act s)

abbrev pub ◌>>◌ {ℓ κ} : {A : Type ℓ} {B : Type κ} → Act A → Act B → Act B
(act >> next) s = after_reply (λ a. next) (act s)

abbrev pub return {ℓ} : {A : Type ℓ} → A → Act A
return a s = (answers a, s)

-- `if not …: return None`
abbrev pub require : Bool → Act (Unit {0})
require true s = (answers tt, s)
require false s = (refuses, s)

-- `if value is None: return None`
abbrev pub present {ℓ} : {A : Type ℓ} → Option A × StateStore → Reply A × StateStore
present (none, s) = (refuses, s)
present (some a, s) = (answers a, s)

-- a call that may raise
abbrev pub raising {ℓ} : {A : Type ℓ} → Result A × StateStore → Reply A × StateStore
raising (ok a, s) = (answers a, s)
raising (err e, s) = (raises e, s)

-- a client, as `OAuthClientRegistry.validate` returns it
pub record Client : Type 0 where
  pub client_id : String
  pub secret : String
  pub redirect_uris : List String
  pub method : String
  pub name : String
  pub browser : Bool
  pub grant_types : List String

-- consent_policy.py: what `ConsentPolicy` says of a subject, a client, a resource and scopes
pub record ConsentPolicy : Type 0 where
  pub approve : String → String → String → List String → Bool
  pub binding : String → String → String → Option String
  pub validate : String → String → String → List String → Bool

-- claims of an access token
pub record Claims : Type 0 where
  pub iss : String
  pub sub : String
  pub client_id : String
  pub aud : String
  pub iat : ℕ
  pub exp : ℕ
  pub scopes : List String
  pub family : String
  pub jti : String

pub record Server : Type 0 where
  pub digest : String → String
  pub issuer : String
  pub resource : String
  pub consent : ConsentPolicy
  -- base64.urlsafe_b64encode(sha256(verifier)) without padding
  pub challenge : String → String
  pub auth_code_ttl_seconds : ℕ
  pub access_token_ttl_seconds : ℕ
  pub refresh_token_ttl_seconds : ℕ

abbrev pub Form : Type 0
Form = Dict String String

abbrev pub or_empty : Option String → String
or_empty none = ""
or_empty (some value) = value

-- form.get(name, "")
abbrev pub form_get : Form → String → String
form_get form name = or_empty (get form name)

-- a text of a record, "" if it has none
abbrev pub text_of : Payload → String → String
text_of payload name =
    or_empty (elim (get_field payload.rest name) [ none ↦ none | some value ↦ as_text value ])
