-- ===== src/Access/Decisions.antt =====
-- src/mcpgtw/oauth/oauth_client_access.py and client_access.py: what the OAuth controller decides.
use mcp_gtw.Base.{ℕ, String, Option, some, ◌≡◌, inl, inr, refl, ap, ◌∙◌, text_eq}
use mcp_gtw.Errors.{Result}
use mcp_gtw.Registry.{Registry}
use mcp_gtw.Registry.Consistency.{IsConsistent}
use mcp_gtw.Oauth.Grants.{Principal, Grant, GrantOps, IsGrantStore, current}
use mcp_gtw.Oauth.Grants.Access.{resolve-IsResolution, IsResolution}
use mcp_gtw.Oauth.Grants.Access
use mcp_gtw.Access.{
  Outcome, granted, denied, raised, ◌>>=◌, Request, AuthorizedMcpRequest, VerifiedPrincipal,
  Digests, principal_of, missing_token, invalid_token, insufficient_scope, channel_forbidden,
  verifier_unavailable, invalid_session,
}
use mcp_gtw.Access.Credentials.{
  bearer_credential-returns, bearer_credential, bearer_credential-IsBearer, IsBearer,
  IsBearer-unique,
}
use mcp_gtw.Access.Controllers.{
  AccessSettings, Verifier, deny_unless_granted, checked_principal, oauth_authorized, oauth_resolve,
  oauth_verify, oauth_controller, addressed_channel,
}
use mcp_gtw.Access.Causes.{
  IsAccepted, IsChecked, checked_principal-IsChecked, IsSettled, oauth_authorized-IsSettled,
  IsDecision, bearer_credential-IsDenied,
}

module _ {V S : Type 0} (settings : AccessSettings) (digests : Digests) (verifier : Verifier V)
    (ops : GrantOps S) (IsValid : S → Type 0) (lookup : S → String → String → Option Grant)
    (laws : IsGrantStore ops IsValid lookup) (now : ℕ) (request : Request) (r : Registry)
    (consistent : IsConsistent r) where
  abbrev resolution : S → Principal → Result (Option String)
  resolution s p = (Access.resolve ops now p (addressed_channel request) s).0

  -- what follows once a token and its principal are known
  oauth_resolve-IsDecision :
      (verified : String → Outcome (Option VerifiedPrincipal)) (token : String)
      (p : VerifiedPrincipal) (v : V) (s : S)
      → IsValid s
      → IsBearer request.authorization settings.oauth_max_token_bytes token
      → verified token ≡ granted (some p)
      → IsAccepted settings now p
      → IsDecision settings digests now request r
          (lookup s)
          verified
          (resolution s)
          (oauth_resolve settings digests verifier
            (deny_unless_granted ops)
            now
            request
            r
            (granted p)
            (v, s)).0
  unfolding oauth_resolve deny_unless_granted
  oauth_resolve-IsDecision verified token p v s valid bearer known accepted =
      go (oauth_authorized digests r p answer) (
        oauth_authorized-IsSettled digests request r
          (λ id. current now (lookup s (principal_of digests p).principal_id id)) p answer
          consistent
          (resolve-IsResolution ops IsValid lookup now (principal_of digests p)
            (addressed_channel request) s laws valid))
    where
      answer : Result (Option String)
      answer = (Access.resolve ops now (principal_of digests p) (addressed_channel request) s).0

      go :
          (o : Outcome AuthorizedMcpRequest)
          → IsSettled digests request r
              (λ id. current now (lookup s (principal_of digests p).principal_id id))
              p
              answer
              o
          → IsDecision settings digests now request r (lookup s) verified (resolution s) o
      go (granted a) (registered, allowed, addressed, only, context) =
          (token, p, bearer, known, (accepted, registered, allowed, addressed, only, context))
      go (denied reason) (inl (same, forbidden)) =
          inl (rw (same) (token, p, bearer, known, accepted, forbidden))
      go (denied reason) (inr failed) = inr (token, bearer, inr (p, known, accepted, failed))
      go (raised e) (failed, other) = (token, bearer, inr (p, known, accepted, failed, other))

  -- what follows once a token is known, by what the verifier says of it
  oauth_verify-IsDecision :
      (token : String) (v : V) (s : S)
      → IsValid s
      → IsBearer request.authorization settings.oauth_max_token_bytes token
      → IsDecision settings digests now request r
          (lookup s)
          (λ t. (verifier.verify now t settings.oauth_resource_url v).0)
          (resolution s)
          (oauth_verify settings digests verifier
            (deny_unless_granted ops)
            now
            request
            r
            (granted token)
            (v, s)).0
  unfolding oauth_verify oauth_resolve
  oauth_verify-IsDecision token v s valid bearer = go (verified token) refl
    where
      verified : String → Outcome (Option VerifiedPrincipal)
      verified t = (verifier.verify now t settings.oauth_resource_url v).0

      v' : V
      v' = (verifier.verify now token settings.oauth_resource_url v).1

      one_token :
          (t : String) → IsBearer request.authorization settings.oauth_max_token_bytes t → t ≡ token
      one_token t presented =
          IsBearer-unique request.authorization settings.oauth_max_token_bytes t token presented
            bearer

      settle :
          (o : Option VerifiedPrincipal)
          → verified token ≡ granted o
          → (x : Outcome VerifiedPrincipal) → IsChecked settings now o x
          → IsDecision settings digests now request r
              (lookup s)
              verified
              (resolution s)
              (oauth_resolve settings digests verifier
                (deny_unless_granted ops)
                now
                request
                r
                x
                (v', s)).0
      settle o known (granted p) (same, accepted) =
          oauth_resolve-IsDecision verified token p v' s valid bearer (known ∙ ap granted same)
            accepted
      settle o known (denied invalid_token) refused = inl (λ t p presented vouched.
          refused p (cc (known, vouched, ap verified (one_token t presented))))
      settle o known (denied insufficient_scope) (p, same, lacking) =
          inl (token, p, bearer, known ∙ ap granted same, lacking)
      settle o known (denied missing_token) impossible = absurd impossible
      settle o known (denied channel_forbidden) impossible = absurd impossible
      settle o known (denied verifier_unavailable) impossible = absurd impossible
      settle o known (denied invalid_session) impossible = absurd impossible
      settle o known (raised e) impossible = absurd impossible

      go :
          (x : Outcome (Option VerifiedPrincipal))
          → verified token ≡ x
          → IsDecision settings digests now request r
              (lookup s)
              verified
              (resolution s)
              (oauth_resolve settings digests verifier
                (deny_unless_granted ops)
                now
                request
                r
                (x >>= checked_principal settings now)
                (v', s)).0
      go (granted o) known =
          settle o known (checked_principal settings now o)
            (checked_principal-IsChecked settings now o)
      go (denied reason) known = inr (token, bearer, inl known)
      go (raised e) known = (token, bearer, inl known)

-- The OAuth controller with the default policy, on a consistent registry and a store of grants that
-- keeps its contract. What it authorizes is a request with exactly one token in its Authorization
-- header that fits the bound; the verifier has vouched for its principal, whose issuer is trusted,
-- who has not expired and who has all required scopes; the channel is registered, granted to that
-- principal, unexpired and with every scope of it, and it is the addressed one if one is addressed,
-- or else the only one so granted; and the context tells that principal and that channel. Each denial
-- has its cause: no header; no acceptable principal; a missing scope; an addressed channel that is not
-- granted or not registered, or none addressed and no registered channel the only one granted; or a
-- `McpAccessError` of the verifier for the token, or of the store of grants when it was asked for the
-- channels of an acceptable principal. And any other exception is one of the verifier or of the store
-- at these calls.
pub authorize-IsDecision :
    {V S : Type 0} (settings : AccessSettings) (digests : Digests) (verifier : Verifier V)
    (ops : GrantOps S) (IsValid : S → Type 0) (lookup : S → String → String → Option Grant)
    (now : ℕ) (request : Request) (r : Registry) (v : V) (s : S)
    → IsGrantStore ops IsValid lookup
    → IsConsistent r
    → IsValid s
    → IsDecision settings digests now request r
        (lookup s)
        (λ t. (verifier.verify now t settings.oauth_resource_url v).0)
        (λ p. (Access.resolve ops now p (addressed_channel request) s).0)
        ((oauth_controller settings digests verifier (deny_unless_granted ops)).authorize now
          request r
          (v, s)).0
unfolding oauth_controller oauth_verify
authorize-IsDecision settings digests verifier ops IsValid lookup now request r v s laws h valid =
    go (bearer_credential request.authorization settings.oauth_max_token_bytes) refl
  where
    verified : String → Outcome (Option VerifiedPrincipal)
    verified t = (verifier.verify now t settings.oauth_resource_url v).0

    go :
        (x : Outcome String)
        → bearer_credential request.authorization settings.oauth_max_token_bytes ≡ x
        → IsDecision settings digests now request r
            (lookup s)
            verified
            (λ p. (Access.resolve ops now p (addressed_channel request) s).0)
            (oauth_verify settings digests verifier
              (deny_unless_granted ops)
              now
              request
              r
              x
              (v, s)).0
    go (granted token) e =
        oauth_verify-IsDecision settings digests verifier ops IsValid lookup laws now request r h
          token v s valid
          ((bearer_credential-IsBearer request.authorization settings.oauth_max_token_bytes token).0
            e)
    go (denied reason) e =
        inl (bearer_credential-IsDenied settings digests now request r (lookup s) verified reason e)
    go (raised e) impossible = absurd (
        bearer_credential-returns request.authorization settings.oauth_max_token_bytes e impossible)
