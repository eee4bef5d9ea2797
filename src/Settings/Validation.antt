-- ===== src/Settings/Validation.antt =====
-- src/mcpgtw/config.py: the validators of `GatewaySettings`. Reading the environment is pydantic's;
-- `urlsplit` is a parameter.
pub mod Trust
mod Tests
use Prim.Native.Char.{code}
use mcp_gtw.Base.{
  ℕ, String, Bool, true, false, Option, none, some, List, [], ◌∷◌, ◌++◌, ◌≡◌, ◌≢◌, refl, arith,
  ◌&&◌, ◌||◌, not, leb, ltb, eqb_ℕ, all_of, any_of, contains, subset, is_empty, every, text_eq,
  ◌==◌, join, strip, is_space, is_nothing, starts_with, length, if◌then◌else◌,
}
use mcp_gtw.Errors.{Result, ok, err, value_error, ◌>>=◌, ◌>>◌, bind-eq-ok}
use mcp_gtw.Libraries.{Parsed, valid, invalid}
use mcp_gtw.Settings.{OauthMode, off, resource_server, embedded}

pub data TokenVerifier : Type 0 where
  jwt introspection custom : TokenVerifier

-- the settings that `validate_oauth` reads
pub record OauthSettings : Type 0 where
  pub mode : OauthMode
  pub resource_url : String
  pub authorization_servers : List String
  pub required_scopes : List String
  pub supported_scopes : List String
  pub allow_localhost_http : Bool
  pub token_verifier : TokenVerifier
  pub jwks_url : String
  pub jwt_allowed_algorithms : List String
  pub introspection_url : String
  pub introspection_client_id : String
  pub introspection_client_secret : String
  pub rate_limit_backoff_seconds : ℕ
  pub rate_limit_maximum_backoff_seconds : ℕ
  pub embedded_issuer : String
  pub cimd_allowed_origins : List String
  pub access_token_ttl_seconds : ℕ
  pub refresh_token_ttl_seconds : ℕ

-- the parts of a URL; reading its port may raise
pub record Url : Type 0 where
  pub scheme : String
  pub hostname : String
  pub path : String
  pub query : String
  pub fragment : String
  pub has_username : Bool
  pub has_password : Bool
  pub port : Parsed (Unit {0})

-- `if bad: raise ValueError(message)`
abbrev pub reject_if : Bool → String → Result (Unit {0})
reject_if true message = err (value_error message)
reject_if false message = ok tt

abbrev pub or_raise {ℓ} : {A : Type ℓ} → Parsed A → Result A
or_raise (valid a) = ok a
or_raise (invalid reason) = err (value_error reason)

-- s.endswith(suffix)
unfoldable pub ends_with : String → String → Bool
ends_with String.[] suffix = String.[] == suffix
ends_with (String.◌∷◌ c s) suffix = String.◌∷◌ c s == suffix || ends_with s suffix

-- printable ASCII without quotes and backslashes, of a code above `least`
unfoldable pub is_plain : ℕ → ℕ → Bool
is_plain least c = ltb least c && ltb c 127 && not (eqb_ℕ c 34) && not (eqb_ℕ c 92)

unfoldable pub is_scope : String → Bool
is_scope scope = not (scope == "") && every (is_plain 32) scope

abbrev pub asymmetric : List String
asymmetric = "RS256" ∷ "RS384" ∷ "RS512" ∷ "ES256" ∷ "ES384" ∷ "ES512" ∷ "EdDSA" ∷ []

-- `admin_path`
unfoldable pub validate_admin_path : String → Result String
validate_admin_path value =
    if not (starts_with value "/") || value == "/" || ends_with value "/"
    then err (value_error "admin_path must start with '/', not be '/', and not end with '/'")
    else ok value

-- `empty_means_unlimited` of a text
unfoldable pub empty_means_unlimited : String → Option String
empty_means_unlimited value = if is_nothing (strip is_space value) then none else some value

-- value.split(","), as the part at the front and the parts behind it
unfoldable pub split_commas : String → String × List String
split_commas String.[] = ("", [])
split_commas (String.◌∷◌ c s) =
    let (part, parts) = split_commas s in
    if eqb_ℕ (code c) 44 then ("", part ∷ parts) else (String.◌∷◌ c part, parts)

-- [item.strip() for item in items if item.strip()]
unfoldable pub stripped : List String → List String
stripped [] = []
stripped (item ∷ items) =
    let rest = stripped items in
    let s = strip is_space item in if is_nothing s then rest else s ∷ rest

unfoldable pub parse_csv_list : String → List String
parse_csv_list value = let (part, parts) = split_commas value in stripped (part ∷ parts)

abbrev pub first : List String → String
first [] = ""
first (server ∷ servers) = server

abbrev pub is_single : List String → Bool
is_single (server ∷ []) = true
is_single _ = false

abbrev pub is_jwt : TokenVerifier → Bool
is_jwt jwt = true
is_jwt _ = false

module _ (urlsplit : String → Parsed Url) where
  unfoldable pub is_local_http : Bool → Url → Bool
  is_local_http allow_localhost_http url =
      allow_localhost_http
      && url.scheme == "http"
      && contains ("localhost" ∷ "127.0.0.1" ∷ "::1" ∷ []) url.hostname

  unfoldable pub is_unsafe : String → Bool → Url → Bool
  is_unsafe value allow_localhost_http url =
      url.hostname == ""
      || not (url.scheme == "https") && not (is_local_http allow_localhost_http url)
      || url.has_username
      || url.has_password
      || not (url.fragment == "")
      || not (url.query == "")
      || not (every (λ c. is_plain 32 c && not (eqb_ℕ c 42)) value)

  unfoldable pub validate_oauth_url : String → Bool → Result (Unit {0})
  validate_oauth_url value allow_localhost_http = do
    url ← or_raise (urlsplit value)
    or_raise url.port
    reject_if (is_unsafe value allow_localhost_http url)
        "OAuth URLs require HTTPS, no credentials, query or fragment"

  -- the loop over the URLs, which skips empty ones
  unfoldable pub validate_urls : List String → Bool → Result (Unit {0})
  validate_urls [] allow_localhost_http = ok tt
  validate_urls (url ∷ urls) allow_localhost_http =
      (if url == "" then ok tt else validate_oauth_url url allow_localhost_http)
      >> validate_urls urls allow_localhost_http

  -- the loop over the allowed origins of client metadata
  unfoldable pub validate_origins : List String → Result (Unit {0})
  validate_origins [] = ok tt
  validate_origins (origin ∷ origins) = do
    validate_oauth_url origin false
    url ← or_raise (urlsplit origin)
    reject_if (not (url.path == "")) "CIMD allowed origins cannot include a path"
    validate_origins origins

  -- `supported or list(required)`
  unfoldable pub with_supported : OauthSettings → OauthSettings
  with_supported s = record s {
    supported_scopes =
        if is_empty s.supported_scopes then s.required_scopes else s.supported_scopes;
  }

  -- `embedded_issuer or authorization_servers[0]`
  unfoldable pub with_issuer : OauthSettings → OauthSettings
  with_issuer s = record s {
    embedded_issuer =
        if s.embedded_issuer == "" then first s.authorization_servers else s.embedded_issuer;
  }

  unfoldable pub bad_scopes : OauthSettings → Bool
  bad_scopes s =
      is_empty s.required_scopes
      || not (subset s.required_scopes s.supported_scopes)
      || not (all_of is_scope (s.required_scopes ++ s.supported_scopes))

  unfoldable pub validate_verifier : TokenVerifier → OauthSettings → Result (Unit {0})
  validate_verifier jwt s = do
    reject_if (s.jwks_url == "" || not (is_single s.authorization_servers))
        "JWT requires one issuer and a trusted JWKS URL"
    reject_if
        (is_empty s.jwt_allowed_algorithms || not (subset s.jwt_allowed_algorithms asymmetric))
        "OAuth JWT algorithms must be asymmetric"
  validate_verifier introspection s =
      reject_if
        (s.introspection_url == ""
          || s.introspection_client_id == ""
          || s.introspection_client_secret == ""
          || not (is_single s.authorization_servers))
        "Introspection requires one issuer, endpoint and client credentials"
  validate_verifier custom s = ok tt

  unfoldable pub incoherent : OauthSettings → Url → Bool
  incoherent s issuer =
      not (is_single s.authorization_servers && first s.authorization_servers == s.embedded_issuer)
      || ends_with issuer.path "/"
      || not (s.jwks_url == join s.embedded_issuer "/oauth/jwks")
      || not (is_jwt s.token_verifier)
      || not (contains s.jwt_allowed_algorithms "RS256")
      || ltb s.refresh_token_ttl_seconds s.access_token_ttl_seconds

  unfoldable pub validate_issuer : OauthSettings → Result OauthSettings
  validate_issuer s = do
    issuer ← or_raise (urlsplit s.embedded_issuer)
    reject_if (incoherent s issuer)
        "Embedded OAuth requires one canonical issuer, its JWKS and coherent lifetimes"
    ok s

  -- the end of `validate_oauth`, by the mode
  unfoldable pub validate_mode : OauthMode → OauthSettings → Result OauthSettings
  validate_mode embedded s =
      validate_origins s.cimd_allowed_origins >> validate_issuer (with_issuer s)
  validate_mode _ s = ok s

  -- the tests of the scopes and of the verifier
  unfoldable pub check_scopes : OauthSettings → Result (Unit {0})
  check_scopes s = do
    reject_if (bad_scopes s) "OAuth scopes must be non-empty RFC 6749 scope tokens"
    validate_verifier s.token_verifier s

  -- the tests before the supported scopes are filled in
  unfoldable pub check_urls : OauthSettings → Result (Unit {0})
  check_urls s = do
    reject_if (s.resource_url == "" || is_empty s.authorization_servers)
        "OAuth requires resource URL and authorization servers"
    validate_urls
        (s.resource_url ∷ (s.authorization_servers ++ s.jwks_url ∷ s.introspection_url ∷ []))
        s.allow_localhost_http
    resource ← or_raise (urlsplit s.resource_url)
    reject_if (not (ends_with resource.path "/mcp")) "OAuth resource URL must end with /mcp"

  unfoldable pub validate_scopes : OauthSettings → Result OauthSettings
  validate_scopes s = check_scopes s >> validate_mode s.mode s

  unfoldable pub validate_enabled : OauthSettings → Result OauthSettings
  validate_enabled s = check_urls s >> validate_scopes (with_supported s)

  unfoldable pub by_mode : OauthMode → OauthSettings → Result OauthSettings
  by_mode off s = ok s
  by_mode _ s = validate_enabled s

  unfoldable pub check_backoff : OauthSettings → Result (Unit {0})
  check_backoff s =
      reject_if (ltb s.rate_limit_maximum_backoff_seconds s.rate_limit_backoff_seconds)
        "OAuth backoff cannot exceed its maximum"

  unfoldable pub validate_oauth : OauthSettings → Result OauthSettings
  validate_oauth s = check_backoff s >> by_mode s.mode s
