-- ===== src/Access/Causes.antt =====
-- src/mcpgtw/oauth/oauth_client_access.py and client_access.py: what the steps of the OAuth controller
-- find, and the causes of a denial.
use mathlib.Core.Option.{some-injective}
use mcp_gtw.Base.{
  ℕ, String, Bool, ap, ◌<◌, true, false, Option, none, some, [], ◌≡◌, ◌⊎◌, inl, inr, refl, arith,
  ◌||◌, ◌&&◌, not, leb, contains, subset, text_eq, ◌==◌, ==_iff, Option-cases, Bool-cases,
}
use mcp_gtw.Errors.{
  Error, Result, ok, err, configuration, channel_offline, channel_replaced, provider_message,
  provider_request, channel_capacity, oauth_rate_limit, value_error, other, mcp_access,
}
use mcp_gtw.Dict.{get, has}
use mcp_gtw.Registry.{Registry}
use mcp_gtw.Registry.Consistency.{IsConsistent}
use mcp_gtw.Oauth.Grants.{Principal, Grant, current, allows}
use mcp_gtw.Oauth.Grants.Access.{IsResolution, IsOnly}
use mcp_gtw.Access.{
  Reason, Outcome, granted, denied, raised, raise, Request, reference, is_registered,
  AuthorizedMcpRequest, VerifiedPrincipal, Digests, principal_of, missing_token, invalid_token,
  insufficient_scope, channel_forbidden,
}
use mcp_gtw.Access.Credentials.{
  bearer_credential, bearer_credential-IsBearer, bearer_credential-denied, IsBearer,
}
use mcp_gtw.Access.Controllers.{
  AccessSettings, checked_principal, oauth_context, oauth_authorized, addressed_channel,
}

-- a principal that the settings accept at a time
abbrev pub IsAccepted : AccessSettings → ℕ → VerifiedPrincipal → Type 0
IsAccepted settings now p =
    (contains settings.oauth_authorization_servers p.issuer ≡ true)
    × (now < p.expires_at)
    × (subset settings.oauth_required_scopes p.scopes ≡ true)

-- an authorized request, by the principal and by the grants that stand when it was made
abbrev pub IsAuthorized :
    AccessSettings
    → Digests
    → ℕ
    → Request
    → Registry
    → (String → String → Option Grant)
    → VerifiedPrincipal
    → AuthorizedMcpRequest
    → Type 0
IsAuthorized settings digests now request r lookup p a =
    IsAccepted settings now p
    × (is_registered r a.channel ≡ true)
    × (allows (principal_of digests p)
          (current now (lookup (principal_of digests p).principal_id a.channel.channel_id))
        ≡ true)
    × ((addressed_channel request == "" || addressed_channel request == a.channel.channel_id)
        ≡ true)
    × (addressed_channel request == "" ≡ true
        → IsOnly (λ id. current now (lookup (principal_of digests p).principal_id id))
            (principal_of digests p) a.channel.channel_id)
    × (a.context ≡ oauth_context digests p a.channel.channel_id)

-- the three ways of `checked_principal`
abbrev pub IsChecked :
    AccessSettings → ℕ → Option VerifiedPrincipal → Outcome VerifiedPrincipal → Type 0
IsChecked settings now o (granted p) = (o ≡ some p) × IsAccepted settings now p
IsChecked settings now o (denied invalid_token) =
    (p : VerifiedPrincipal)
    → o ≡ some p
    → (contains settings.oauth_authorization_servers p.issuer && not (leb p.expires_at now)) ≡ false
IsChecked settings now o (denied insufficient_scope) =
    (p : VerifiedPrincipal) × (o ≡ some p)
    × (subset settings.oauth_required_scopes p.scopes ≡ false)
IsChecked settings now o _ = ⊥

pub checked_principal-IsChecked :
    (settings : AccessSettings) (now : ℕ) (o : Option VerifiedPrincipal)
    → IsChecked settings now o (checked_principal settings now o)
unfolding checked_principal
checked_principal-IsChecked settings now none = λ p h. cc
checked_principal-IsChecked settings now (some q) =
    elim (Bool-cases
      (not (contains settings.oauth_authorization_servers q.issuer) || leb q.expires_at now)) [
        | inl refused ↦ rw (refused, checked_principal) (λ p h. ground (arith, some-injective h))
        | inr known ↦ elim (Bool-cases (subset settings.oauth_required_scopes q.scopes)) [
          | inl enough ↦ rw (known, enough, checked_principal) (refl, ground arith)
          | inr lacking ↦ rw (known, lacking, checked_principal) (q, refl, lacking)
        ]
      ]

-- Why a channel is forbidden: the addressed one is not granted or not registered, or none is
-- addressed and no registered one is the only one that is granted.
abbrev pub IsForbidden : Request → Registry → (String → Option Grant) → Principal → Type 0
IsForbidden request r granted_for p =
    (addressed_channel request == "" ≡ false
      → (allows p (granted_for (addressed_channel request))
          && has r.channels (addressed_channel request))
        ≡ false)
    × (addressed_channel request == "" ≡ true
        → (id : String) → (allows p (granted_for id) && has r.channels id) ≡ true
        → IsOnly granted_for p id
        → ⊥)

abbrev pub is_access_error : Error → Bool
is_access_error (mcp_access reason) = true
is_access_error e = false

-- the ways of `oauth_authorized`
abbrev pub IsSettled :
    Digests
    → Request
    → Registry
    → (String → Option Grant)
    → VerifiedPrincipal
    → Result (Option String)
    → Outcome AuthorizedMcpRequest
    → Type 0
IsSettled digests request r granted_for p answer (granted a) =
    (is_registered r a.channel ≡ true)
    × (allows (principal_of digests p) (granted_for a.channel.channel_id) ≡ true)
    × ((addressed_channel request == "" || addressed_channel request == a.channel.channel_id)
        ≡ true)
    × (addressed_channel request == "" ≡ true
        → IsOnly granted_for (principal_of digests p) a.channel.channel_id)
    × (a.context ≡ oauth_context digests p a.channel.channel_id)
IsSettled digests request r granted_for p answer (denied reason) =
    ((reason ≡ channel_forbidden) × IsForbidden request r granted_for (principal_of digests p))
    ⊎ (answer ≡ err (mcp_access reason))
IsSettled digests request r granted_for p answer (raised e) =
    (answer ≡ err e) × (is_access_error e ≡ false)

-- an exception of the store is a denial exactly if it is a `McpAccessError`
raise-IsSettled :
    (digests : Digests) (request : Request) (r : Registry) (granted_for : String → Option Grant)
    (p : VerifiedPrincipal) (e : Error)
    → IsSettled digests request r granted_for p (err e) (raise e)
unfolding raise
raise-IsSettled digests request r granted_for p (mcp_access reason) = inr refl
raise-IsSettled digests request r granted_for p (configuration m) = (refl, refl)
raise-IsSettled digests request r granted_for p (channel_offline m) = (refl, refl)
raise-IsSettled digests request r granted_for p (channel_replaced m) = (refl, refl)
raise-IsSettled digests request r granted_for p (provider_message m) = (refl, refl)
raise-IsSettled digests request r granted_for p (provider_request m) = (refl, refl)
raise-IsSettled digests request r granted_for p (channel_capacity m) = (refl, refl)
raise-IsSettled digests request r granted_for p (oauth_rate_limit n) = (refl, refl)
raise-IsSettled digests request r granted_for p (value_error m) = (refl, refl)
raise-IsSettled digests request r granted_for p (other m) = (refl, refl)

pub oauth_authorized-IsSettled :
    (digests : Digests) (request : Request) (r : Registry) (granted_for : String → Option Grant)
    (p : VerifiedPrincipal) (answer : Result (Option String))
    → IsConsistent r
    → IsResolution granted_for (principal_of digests p) (addressed_channel request) answer
    → IsSettled digests request r granted_for p answer (oauth_authorized digests r p answer)
unfolding oauth_authorized is_registered reference
oauth_authorized-IsSettled digests request r granted_for p (err e) h resolution =
    raise-IsSettled digests request r granted_for p e
oauth_authorized-IsSettled digests request r granted_for p (ok none) h resolution = inl (
  refl,
  (
    λ named. ground (arith, resolution.0 named),
    λ unaddressed id fit unique. resolution.1 unaddressed id (ground arith) unique,
  ),
)
oauth_authorized-IsSettled digests request r granted_for p (ok (some id)) h resolution =
    let (allowed, addressed, only) = resolution in
    elim (Option-cases (get r.channels id)) [
      | inl missing ↦
          rw (missing, oauth_authorized)
            (inl (
              refl,
              (
                λ named. ground (arith, ==_iff (addressed_channel request) id, addressed),
                λ unaddressed other fit unique.
                    ground (arith, missing, ap (has r.channels) (unique id allowed)),
              ),
            ))
      | inr (c, present) ↦
          rw (present, oauth_authorized, h.named id c present)
            (ground (arith, present), allowed, addressed, only, refl)
    ]

-- Why a request was denied. A verifier may also deny a token for a reason of its own, and so may a
-- store of grants that raises.
abbrev pub IsDenied :
    AccessSettings
    → Digests
    → ℕ
    → Request
    → Registry
    → (String → String → Option Grant)
    → (String → Outcome (Option VerifiedPrincipal))
    → Reason
    → Type 0
IsDenied settings digests now request r lookup verified missing_token = request.authorization ≡ []
IsDenied settings digests now request r lookup verified invalid_token =
    (token : String) (p : VerifiedPrincipal)
    → IsBearer request.authorization settings.oauth_max_token_bytes token
    → verified token ≡ granted (some p)
    → (contains settings.oauth_authorization_servers p.issuer && not (leb p.expires_at now)) ≡ false
IsDenied settings digests now request r lookup verified insufficient_scope =
    (token : String) × (p : VerifiedPrincipal) × IsBearer request.authorization
      settings.oauth_max_token_bytes token
    × (verified token ≡ granted (some p))
    × (subset settings.oauth_required_scopes p.scopes ≡ false)
IsDenied settings digests now request r lookup verified channel_forbidden =
    (token : String) × (p : VerifiedPrincipal) × IsBearer request.authorization
      settings.oauth_max_token_bytes token
    × (verified token ≡ granted (some p))
    × IsAccepted settings now p
    × IsForbidden request r (λ id. current now (lookup (principal_of digests p).principal_id id))
        (principal_of digests p)
IsDenied settings digests now request r lookup verified _ = ⊥

-- what the OAuth controller may decide
abbrev pub IsDecision :
    AccessSettings
    → Digests
    → ℕ
    → Request
    → Registry
    → (String → String → Option Grant)
    → (String → Outcome (Option VerifiedPrincipal))
    → (Principal → Result (Option String))
    → Outcome AuthorizedMcpRequest
    → Type 0
IsDecision settings digests now request r lookup verified resolved (granted a) =
    (token : String) × (p : VerifiedPrincipal) × IsBearer request.authorization
      settings.oauth_max_token_bytes token
    × (verified token ≡ granted (some p))
    × IsAuthorized settings digests now request r lookup p a
IsDecision settings digests now request r lookup verified resolved (denied reason) =
    IsDenied settings digests now request r lookup verified reason
    ⊎ ((token : String) × IsBearer request.authorization settings.oauth_max_token_bytes token
        × ((verified token ≡ denied reason)
            ⊎ ((p : VerifiedPrincipal) × (verified token ≡ granted (some p))
                × IsAccepted settings now p
                × (resolved (principal_of digests p) ≡ err (mcp_access reason)))))
IsDecision settings digests now request r lookup verified resolved (raised e) =
    (token : String) × IsBearer request.authorization settings.oauth_max_token_bytes token
    × ((verified token ≡ raised e)
        ⊎ ((p : VerifiedPrincipal) × (verified token ≡ granted (some p))
            × IsAccepted settings now p
            × (resolved (principal_of digests p) ≡ err e)
            × (is_access_error e ≡ false)))

-- a header that holds no token that fits
pub bearer_credential-IsDenied :
    (settings : AccessSettings) (digests : Digests) (now : ℕ) (request : Request) (r : Registry)
    (lookup : String → String → Option Grant)
    (verified : String → Outcome (Option VerifiedPrincipal)) (reason : Reason)
    → bearer_credential request.authorization settings.oauth_max_token_bytes ≡ denied reason
    → IsDenied settings digests now request r lookup verified reason
bearer_credential-IsDenied settings digests now request r lookup verified reason e =
    elim (bearer_credential-denied request.authorization settings.oauth_max_token_bytes reason e) [
      | inl (empty, same) ↦ rw (same) empty
      | inr same ↦ rw (same) (λ token p bearer known. cc (
        e,
        (bearer_credential-IsBearer request.authorization settings.oauth_max_token_bytes token).1
            bearer,
      ))
    ]
