-- ===== src/Access/Tests.antt =====
-- The access controllers at concrete inputs.
use mcp_gtw.Base.{
  ℕ, true, none, some, [], ◌∷◌, ◌≡◌, ◌↔◌, refl, text_eq, ◌==◌, ◌&&◌, if◌then◌else◌, starts_with,
  split, split_at, is_space, every, strip_left,
}
use mcp_gtw.Json.{Fields, text, number, field, done, get_field}
use mcp_gtw.Json.Text.{codes, utf8_size}
use mcp_gtw.Registry.Tests.{channel, afterwards, afterwards-IsConsistent, resolves}
use mcp_gtw.Oauth.Grants.Access.{resolve}
use mcp_gtw.Oauth.Grants.Memory.{memory_grants}
use mcp_gtw.Oauth.Grants.Memory.Contract
use mcp_gtw.Oauth.Grants.Tests.{store, store-IsValid}
use mcp_gtw.Access.{
  granted, denied, Request, reference, VerifiedPrincipal, Digests, Controller, invalid_token,
}
use mcp_gtw.Access.Credentials.{
  bearer_credential, bearer_credential-IsBearer, IsBearer, is_token, is_token_character,
  after_scheme,
}
use mcp_gtw.Access.Claims.{principal_from_claims}
use mcp_gtw.Access.Controllers.{
  AccessSettings, Verifier, deny_unless_granted, oauth_controller, hybrid_controller,
  addressed_channel, token_controller, token_authenticator, token_context,
}
use mcp_gtw.Access.Causes.{IsDecision}
use mcp_gtw.Access.Decisions.{authorize-IsDecision}
use mcp_gtw.Access.Hybrid.{hybrid_controller-static}

abbrev pub access_settings : AccessSettings
access_settings = record {
  oauth_max_token_bytes = 20;
  oauth_resource_url = "https://g/mcp";
  oauth_authorization_servers = "https://i" ∷ [];
  oauth_required_scopes = "read" ∷ [];
}

abbrev pub digests : Digests
digests = record { principal_id = λ issuer subject client. subject; keyed = λ t. t }

abbrev verified : VerifiedPrincipal
verified = record {
  issuer = "https://i";
  subject = "p";
  client_id = "k";
  scopes = "read" ∷ [];
  expires_at = 50;
}

-- a verifier that vouches for one token
abbrev pub verifier : Verifier ℕ
verifier = record {
  verify = λ now token resource v. (granted (if token == "abc" then some verified else none), v);
}

abbrev pub oauth_request : Request
oauth_request = record {
  method = "POST";
  path = "/mcp/c";
  root_path = "/mcp";
  client_host = some "h";
  origin = none;
  authorization = "Bearer abc" ∷ [];
  mcp_session_id = [];
}

abbrev static_request : Request
static_request = record oauth_request { authorization = "Bearer m" ∷ [] }

presents_m : bearer_credential ("Bearer m" ∷ []) 20 ≡ granted "m"
unfolding bearer_credential after_scheme is_token is_token_character every strip_left utf8_size
presents_m = refl

bearer_credential-IsBearer_example :
    (bearer_credential ("Bearer m" ∷ []) 20 ≡ granted "m") ↔ IsBearer ("Bearer m" ∷ []) 20 "m"
bearer_credential-IsBearer_example = bearer_credential-IsBearer ("Bearer m" ∷ []) 20 "m"

authorize-IsDecision_example :
    IsDecision access_settings digests 20 oauth_request afterwards
      (Contract.lookup store)
      (λ t. (verifier.verify 20 t "https://g/mcp" 0).0)
      (λ p. (resolve memory_grants 20 p (addressed_channel oauth_request) store).0)
      ((oauth_controller access_settings digests verifier
          (deny_unless_granted memory_grants)).authorize
        20 oauth_request afterwards
        (0, store)).0
authorize-IsDecision_example =
    authorize-IsDecision access_settings digests verifier memory_grants Contract.IsValid
      Contract.lookup 20 oauth_request afterwards 0 store Contract.memory_grants-IsGrantStore
      afterwards-IsConsistent store-IsValid

abbrev refuses : Controller ℕ
refuses = record { authorize = λ now request r o. (denied invalid_token, o) }

hybrid_controller-static_example :
    (hybrid_controller {T = ℕ} {O = ℕ}
        (token_controller {S = ℕ} token_authenticator digests)
        refuses
        (λ c. true)
        20).authorize
      20 static_request afterwards
      (0, 0)
    ≡ (
      if true && starts_with "Bearer m" "Bearer "
          then granted (record {
            channel = reference afterwards channel.channel_id;
            context = token_context digests static_request channel.channel_id;
          })
          else denied invalid_token,
      (0, 0),
    )
hybrid_controller-static_example =
    hybrid_controller-static digests refuses (λ c. true) 20 20 static_request "Bearer m" "m"
      afterwards channel 0 0 refl presents_m resolves

-- every claim that is needed
abbrev claims : Fields
claims = field "iss" (text "i") (
    field "aud" (text "r") (
      field "exp" (number (codes "90"))
        (field "sub" (text "s") (field "azp" (text "k") (field "scope" (text "a  b") done)))))

vouched :
    principal_from_claims 1 100 claims "i" "r" 30
    ≡ some (record {
      issuer = "i";
      subject = "s";
      client_id = "k";
      scopes = "a" ∷ "b" ∷ [];
      expires_at = 90;
    })
unfolding principal_from_claims split split_at is_space every get_field
vouched = refl

too_old : principal_from_claims 1 121 claims "i" "r" 30 ≡ none
unfolding principal_from_claims split split_at is_space every get_field
too_old = refl
