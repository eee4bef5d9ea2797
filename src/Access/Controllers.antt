-- ===== src/Access/Controllers.antt =====
-- src/mcpgtw/authenticator.py: `TokenAuthenticator`; src/mcpgtw/oauth/client_access.py,
-- oauth_client_access.py, hybrid_client_access.py: the three access controllers. A run of `authorize`
-- is one in which nothing comes between its awaits. The verifier of tokens is a parameter.
use mcp_gtw.Base.{
  ℕ, String, Bool, Option, none, some, List, [], ◌||◌, not, leb, eqb_ℕ, contains, subset, text_eq,
  join, strip, remove_prefix, if◌then◌else◌,
}
use mcp_gtw.Errors.{Result, ok, err}
use mcp_gtw.Dict.{get}
use mcp_gtw.Channel.{Channel}
use mcp_gtw.Registry.{Registry, resolve_mcp_token, resolve_provider_token}
use mcp_gtw.Oauth.Context.{AccessContext}
use mcp_gtw.Oauth.Grants.{Principal, GrantOps}
use mcp_gtw.Oauth.Grants.Access
use mcp_gtw.Access.{
  Outcome, granted, denied, raised, raise, ◌>>=◌, Request, head, reference, AuthorizedMcpRequest,
  VerifiedPrincipal, Digests, principal_of, Controller, invalid_token, insufficient_scope,
  channel_forbidden,
}
use mcp_gtw.Access.Credentials.{bearer_credential, extract_bearer_token}

-- the settings that the controllers read
pub record AccessSettings : Type 0 where
  pub oauth_max_token_bytes : ℕ
  pub oauth_resource_url : String
  pub oauth_authorization_servers : List String
  pub oauth_required_scopes : List String

-- authenticator.py; a provider presents the query parameter "token"
pub record Authenticator : Type 0 where
  pub authenticate_provider : Option String → Registry → Option Channel
  pub authenticate_client : Request → Registry → Option Channel

unfoldable pub token_authenticator : Authenticator
token_authenticator = record {
  authenticate_provider = λ token r. resolve_provider_token r token;
  authenticate_client =
      λ request r. resolve_mcp_token r (extract_bearer_token (head request.authorization));
}

abbrev or_empty : Option String → String
or_empty none = ""
or_empty (some s) = s

-- the context of a static token
unfoldable pub token_context : Digests → Request → String → AccessContext
token_context digests request channel_id = record {
  channel_id = channel_id;
  credential_kind = "token";
  principal_id =
      digests.keyed (join channel_id (join "\0" (or_empty (head request.authorization))));
  client_id = none;
  scopes = [];
  issuer = none;
  expires_at = none;
}

unfoldable pub token_authorized :
    Digests → Request → Registry → Option Channel → Outcome AuthorizedMcpRequest
token_authorized digests request r none = denied invalid_token
token_authorized digests request r (some channel) = granted (record {
  channel = reference r channel.channel_id;
  context = token_context digests request channel.channel_id;
})

unfoldable pub token_controller : {S : Type 0} → Authenticator → Digests → Controller S
token_controller authenticator digests = record {
  authorize = λ now request r s.
      (token_authorized digests request r (authenticator.authenticate_client request r), s);
}

-- addressed_channel(request)
unfoldable pub addressed_channel : Request → String
addressed_channel request = strip (eqb_ℕ 47) (remove_prefix request.path request.root_path)

-- token_verifier.py: `verify(token, resource)`
pub record Verifier (V : Type 0) : Type 0 where
  pub verify : ℕ → String → String → V → Outcome (Option VerifiedPrincipal) × V

-- channel_access.py: `ChannelAccessPolicy`
pub record ChannelAccessPolicy (S : Type 0) : Type 0 where
  pub resolve : ℕ → Principal → String → S → Result (Option String) × S

unfoldable pub deny_unless_granted : {S : Type 0} → GrantOps S → ChannelAccessPolicy S
deny_unless_granted ops = record { resolve = Access.resolve ops }

-- the two checks of a verified principal
unfoldable pub checked_principal :
    AccessSettings → ℕ → Option VerifiedPrincipal → Outcome VerifiedPrincipal
checked_principal settings now none = denied invalid_token
checked_principal settings now (some principal) =
    if not (contains settings.oauth_authorization_servers principal.issuer)
      || leb principal.expires_at now
    then denied invalid_token
    else if not (subset settings.oauth_required_scopes principal.scopes)
    then denied insufficient_scope
    else granted principal

unfoldable pub oauth_context : Digests → VerifiedPrincipal → String → AccessContext
oauth_context digests principal channel_id = record {
  channel_id = channel_id;
  credential_kind = "oauth";
  principal_id = digests.principal_id principal.issuer principal.subject principal.client_id;
  client_id = some principal.client_id;
  scopes = principal.scopes;
  issuer = some principal.issuer;
  expires_at = some principal.expires_at;
}

-- `self.registry.get(channel_id) if channel_id is not None else None`, and the end of `authorize`
unfoldable pub oauth_authorized :
    Digests → Registry → VerifiedPrincipal → Result (Option String) → Outcome AuthorizedMcpRequest
oauth_authorized digests r principal (err e) = raise e
oauth_authorized digests r principal (ok none) = denied channel_forbidden
oauth_authorized digests r principal (ok (some channel_id)) = elim (get r.channels channel_id) [
  | none ↦ denied channel_forbidden
  | some channel ↦ granted (record {
    channel = reference r channel.channel_id;
    context = oauth_context digests principal channel.channel_id;
  })
]

module _ {V S : Type 0} (settings : AccessSettings) (digests : Digests) (verifier : Verifier V)
    (policy : ChannelAccessPolicy S) where
  -- `authorize` from the checked principal on
  unfoldable pub oauth_resolve :
      ℕ
      → Request
      → Registry
      → Outcome VerifiedPrincipal
      → V × S
      → Outcome AuthorizedMcpRequest × (V × S)
  oauth_resolve now request r (denied reason) vs = (denied reason, vs)
  oauth_resolve now request r (raised e) vs = (raised e, vs)
  oauth_resolve now request r (granted principal) (v, s) =
      let (answer, s') =
        policy.resolve now (principal_of digests principal) (addressed_channel request) s in
      (oauth_authorized digests r principal answer, (v, s'))

  unfoldable pub oauth_verify :
      ℕ → Request → Registry → Outcome String → V × S → Outcome AuthorizedMcpRequest × (V × S)
  oauth_verify now request r (denied reason) vs = (denied reason, vs)
  oauth_verify now request r (raised e) vs = (raised e, vs)
  oauth_verify now request r (granted token) (v, s) =
      let (answer, v') = verifier.verify now token settings.oauth_resource_url v in
      oauth_resolve now request r (answer >>= checked_principal settings now) (v', s)

  unfoldable pub oauth_controller : Controller (V × S)
  oauth_controller = record {
    authorize = λ now request r vs.
        oauth_verify now request r
          (bearer_credential request.authorization settings.oauth_max_token_bytes) vs;
  }

module _ {T O : Type 0} (token_access : Controller T) (oauth_access : Controller O)
    (static_eligible : Channel → Bool) (maximum_token_bytes : ℕ) where
  -- the delegate of a request, by what its token resolves to
  unfoldable pub hybrid_delegate :
      ℕ → Request → Registry → Option Channel → T × O → Outcome AuthorizedMcpRequest × (T × O)
  hybrid_delegate now request r none (t, o) =
      let (outcome, o') = oauth_access.authorize now request r o in (outcome, (t, o'))
  hybrid_delegate now request r (some channel) (t, o) =
      if not (static_eligible channel)
      then (denied invalid_token, (t, o))
      else (let (outcome, t') = token_access.authorize now request r t in (outcome, (t', o)))

  unfoldable pub hybrid_authorize :
      ℕ → Request → Registry → Outcome String → T × O → Outcome AuthorizedMcpRequest × (T × O)
  hybrid_authorize now request r (denied reason) states = (denied reason, states)
  hybrid_authorize now request r (raised e) states = (raised e, states)
  hybrid_authorize now request r (granted token) states =
      hybrid_delegate now request r (resolve_mcp_token r (some token)) states

  unfoldable pub hybrid_controller : Controller (T × O)
  hybrid_controller = record {
    authorize = λ now request r states.
        hybrid_authorize now request r (bearer_credential request.authorization maximum_token_bytes)
          states;
  }
