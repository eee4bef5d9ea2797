-- ===== src/Oauth/Server/Revocation.antt =====
-- src/mcpgtw/oauth/authorization_server.py: `verify` and `revoke`. The signing key is a parameter:
-- `decode` gives the claims of a token that it signed for the issuer and a resource, unexpired. The
-- budgets of the endpoint are one too.
use mcp_gtw.Base.{
  ℕ, String, Bool, true, false, Option, none, some, ◌&&◌, text_eq, ◌==◌, if◌then◌else◌,
}
use mcp_gtw.Json.{Json, Fields, as_text}
use mcp_gtw.Json
use mcp_gtw.Oauth.State
use mcp_gtw.Oauth.State.{StateStore, Payload, find, delete, delete_expired, payload_of}
use mcp_gtw.Errors.{Error, Result, ok, err, value_error}
use mcp_gtw.Access.{VerifiedPrincipal}
use mcp_gtw.Access.Claims.{principal_from_claims}
use mcp_gtw.Oauth.Server.{Act, Reply, answers, refuses, raises, Server, Client, Form, form_get}

pub record SigningKey : Type 0 where
  pub decode : String → String → Option Fields
  -- how many units of time make a second
  pub second : ℕ

module _ (v : Server) (key : SigningKey) (now : ℕ) where
  -- the family that a token belongs to, with the principal that it speaks for
  unfoldable pub vouched : String → String → Option (VerifiedPrincipal × String)
  vouched raw_token resource = elim (key.decode raw_token resource) [
    | none ↦ none
    | some claims ↦ elim (principal_from_claims key.second now claims v.issuer resource 0) [
      | none ↦ none
      | some principal ↦ elim (as_text (Json.get claims "family")) [
        | none ↦ none
        | some family ↦ some (principal, family)
      ]
    ]
  ]

  -- the test of the family, if it stands
  unfoldable pub of_family : VerifiedPrincipal → Option Payload → Option VerifiedPrincipal
  of_family principal none = none
  of_family principal (some family) =
      if family.subject == principal.subject && family.client_id == principal.client_id
      then some principal
      else none

  unfoldable pub verify_vouched :
      Option (VerifiedPrincipal × String) → StateStore → Option VerifiedPrincipal × StateStore
  verify_vouched none s = (none, s)
  verify_vouched (some (principal, family)) s =
      let (found, s') = State.get v.digest now "family" family false s in
      (of_family principal found, s')

  unfoldable pub verify : String → String → StateStore → Option VerifiedPrincipal × StateStore
  verify raw_token resource s = verify_vouched (vouched raw_token resource) s

  -- what `revoke` knows of a token: its client, its subject and its family; the claims that the key
  -- signed are texts
  abbrev pub record_of : Fields → Option (String × String × String)
  record_of claims = elim (as_text (Json.get claims "client_id")) [
    | none ↦ none
    | some client_id ↦ elim (as_text (Json.get claims "sub")) [
      | none ↦ none
      | some subject ↦ elim (as_text (Json.get claims "family")) [
        | none ↦ none
        | some family ↦ some (client_id, subject, family)
      ]
    ]
  ]

  unfoldable pub revocable : Option Payload → Option Fields → Option (String × String × String)
  revocable (some payload) claims = some (payload.client_id, payload.subject, payload.family)
  revocable none none = none
  revocable none (some claims) = record_of claims

  -- what `revoke` knows of the token of a form
  abbrev pub known_token : Form → StateStore → Option (String × String × String)
  known_token form s =
      revocable
        (payload_of (find "refresh" (v.digest (form_get form "token")) (delete_expired now s.rows)))
        (key.decode (form_get form "token") v.resource)

-- `OAuthEndpointLimits`, by the `enforce` of three of its budgets
pub record Limits (L : Type 0) : Type 0 where
  pub token : String → L → Result (Unit {0}) × L
  pub client : String → L → Result (Unit {0}) × L
  pub principal : String → L → Result (Unit {0}) × L

-- the status of the response, or the exception that leaves the endpoint
abbrev pub Answered : Type 0 → Type 0
Answered L = Result ℕ × (L × StateStore)

abbrev is_value_error : Error → Bool
is_value_error (value_error message) = true
is_value_error _ = false

module _ {L : Type 0} where
  abbrev after_limit :
      (L × StateStore → Answered L) → Result (Unit {0}) × L → StateStore → Answered L
  after_limit next (ok _, l) s = next (l, s)
  after_limit next (err e, l) s = (err e, (l, s))

  -- a call of `enforce` before the rest
  unfoldable pub limited :
      (L → Result (Unit {0}) × L) → (L × StateStore → Answered L) → L × StateStore → Answered L
  limited enforce next (l, s) = after_limit next (enforce l) s

  -- `except (ValueError, UnicodeError): return self.error()`
  unfoldable pub bad_request : Answered L → Answered L
  bad_request (ok status, x) = (ok status, x)
  bad_request (err e, x) = if is_value_error e then (ok 400, x) else (err e, x)

  abbrev status_or : Answered L → ℕ
  status_or (ok status, x) = status
  status_or (err e, x) = 0

module _ (v : Server) (key : SigningKey) (now : ℕ) {L : Type 0} (limits : Limits L) where
  -- `self.store.remove`, once the owner of the token may
  unfoldable pub remove_family :
      Client → Option (String × String × String) → L × StateStore → Answered L
  remove_family client none x = (ok 200, x)
  remove_family client (some (client_id, subject, family)) x =
      if client_id == client.client_id
      then limited (limits.principal subject)
          (λ (x : L × StateStore). (ok 200, (x.0, State.remove v.digest now "family" family x.1))) x
      else (ok 200, x)

  unfoldable pub revoke_token : Client → Form → L × StateStore → Answered L
  revoke_token client form (l, s) =
      remove_family client (known_token v key now form s)
        (l, (State.get v.digest now "refresh" (form_get form "token") false s).1)

  -- `revoke` from the outcome of `authenticate_client` on
  unfoldable pub revoke_client : Form → Reply Client × StateStore → L → Answered L
  revoke_client form (answers client, s) l =
      limited (limits.client client.client_id) (revoke_token client form) (l, s)
  revoke_client form (refuses, s) l = (ok 401, (l, s))
  revoke_client form (raises e, s) l = (err e, (l, s))

  -- the `try` block
  unfoldable pub revoke_form : Result Form → (Form → Act Client) → L × StateStore → Answered L
  revoke_form (err e) authenticate x = (err e, x)
  revoke_form (ok form) authenticate (l, s) = revoke_client form (authenticate form s) l

  -- `form` is what `self.form(request)` returns or raises.
  unfoldable pub revoke : String → Result Form → (Form → Act Client) → L × StateStore → Answered L
  revoke address form authenticate x =
      limited (limits.token address)
        (λ (x : L × StateStore). bad_request (revoke_form form authenticate x)) x
