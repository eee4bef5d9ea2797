-- ===== src/Settings/Validation/Trust.antt =====
-- src/mcpgtw/config.py: what settings `validate_oauth` lets pass.
use mcp_gtw.Base.{
  ◌≤◌, String, Bool, true, false, List, [], ◌∷◌, ◌++◌, ◌≡◌, ◌⊎◌, refl, arith, ◌||◌, not, all_of,
  contains, subset, is_empty, text_eq, ◌==◌, ==_iff, join, subst, if◌then◌else◌, Bool-cases, inl,
  inr,
}
use mcp_gtw.Errors.{Result, ok, bind-eq-ok, ◌>>◌}
use mcp_gtw.Libraries.{Parsed, valid, invalid}
use mcp_gtw.Settings.{OauthMode, off, resource_server, embedded}
use mcp_gtw.Settings.Validation.{
  OauthSettings, Url, TokenVerifier, jwt, introspection, custom, reject_if, or_raise, asymmetric,
  is_scope, is_single, first, is_jwt, ends_with, is_local_http, is_unsafe, validate_oauth_url,
  validate_urls, with_supported, with_issuer, bad_scopes, validate_verifier, incoherent,
  validate_issuer, validate_mode, check_scopes, check_urls, validate_scopes, validate_enabled,
  by_mode, check_backoff, validate_oauth, validate_origins,
}

reject_if-passes :
    (bad : Bool) (message : String) (done : Unit {0})
    → reject_if bad message ≡ ok done
    → bad ≡ false
reject_if-passes true message done h = cc h
reject_if-passes false message done h = refl

or_raise-valid : {A : Type 0} (p : Parsed A) (a : A) → or_raise p ≡ ok a → p ≡ valid a
or_raise-valid (valid b) a h = cc h
or_raise-valid (invalid reason) a h = cc h

ok-injective : (s t : OauthSettings) → ◌≡◌ {A = Result OauthSettings} (ok s) (ok t) → s ≡ t
ok-injective s t e = cc e

-- the verifier has what it needs
abbrev pub IsEquipped : TokenVerifier → OauthSettings → Type 0
IsEquipped jwt s =
    (s.jwks_url == "" ≡ false)
    × (is_single s.authorization_servers ≡ true)
    × (is_empty s.jwt_allowed_algorithms ≡ false)
    × (subset s.jwt_allowed_algorithms asymmetric ≡ true)
IsEquipped introspection s =
    (s.introspection_url == "" ≡ false)
    × (s.introspection_client_id == "" ≡ false)
    × (s.introspection_client_secret == "" ≡ false)
    × (is_single s.authorization_servers ≡ true)
IsEquipped custom s = Unit

-- what the embedded authorization server needs
abbrev pub IsEmbeddable : OauthMode → OauthSettings → Type 0
IsEmbeddable embedded s =
    (is_single s.authorization_servers ≡ true)
    × (first s.authorization_servers ≡ s.embedded_issuer)
    × (s.jwks_url ≡ join s.embedded_issuer "/oauth/jwks")
    × (is_jwt s.token_verifier ≡ true)
    × (contains s.jwt_allowed_algorithms "RS256" ≡ true)
    × (s.access_token_ttl_seconds ≤ s.refresh_token_ttl_seconds)
IsEmbeddable _ s = Unit

abbrev pub is_enabled : OauthMode → Bool
is_enabled off = false
is_enabled _ = true

-- a place reached by HTTPS, or by HTTP on this host if that is allowed, and nothing beside it
abbrev pub IsPlace : Bool → Url → Type 0
IsPlace allow_localhost_http url =
    ((url.scheme ≡ "https")
      ⊎ ((allow_localhost_http ≡ true)
          × (url.scheme ≡ "http")
          × (contains ("localhost" ∷ "127.0.0.1" ∷ "::1" ∷ []) url.hostname ≡ true)))
    × (url.hostname == "" ≡ false)
    × (url.has_username ≡ false)
    × (url.has_password ≡ false)
    × (url.fragment ≡ "")
    × (url.query ≡ "")

module _ (urlsplit : String → Parsed Url) where
  is_unsafe-IsPlace :
      (value : String) (allow_localhost_http : Bool) (url : Url)
      → is_unsafe urlsplit value allow_localhost_http url ≡ false
      → IsPlace allow_localhost_http url
  unfolding is_unsafe is_local_http
  is_unsafe-IsPlace value allow_localhost_http url safe = (
    elim (Bool-cases (url.scheme == "https")) [
      | inl secure ↦ inl ((==_iff url.scheme "https").0 secure)
      | inr plain ↦ inr (ground arith, (==_iff url.scheme "http").0 (ground arith), ground arith)
    ],
    ground arith,
    ground arith,
    ground arith,
    (==_iff url.fragment "").0 (ground arith),
    (==_iff url.query "").0 (ground arith),
  )

  -- a text that is the URL of such a place, with a port that can be read
  abbrev pub IsSecure : Bool → String → Type 0
  IsSecure allow_localhost_http value =
      (url : Url) × (urlsplit value ≡ valid url)
      × (url.port ≡ valid tt)
      × IsPlace allow_localhost_http url

  -- each URL that is given
  abbrev pub EachSecure : Bool → List String → Type 0
  EachSecure allow_localhost_http [] = Unit
  EachSecure allow_localhost_http (url ∷ urls) =
      (url == "" ≡ false → IsSecure allow_localhost_http url) × EachSecure allow_localhost_http urls

  validate_oauth_url-IsSecure :
      (value : String) (allow_localhost_http : Bool) (done : Unit {0})
      → validate_oauth_url urlsplit value allow_localhost_http ≡ ok done
      → IsSecure allow_localhost_http value
  unfolding validate_oauth_url
  validate_oauth_url-IsSecure value allow_localhost_http done h =
      let (url, parsed, h₁) = bind-eq-ok (or_raise (urlsplit value)) _ h in
      let (port, numbered, h₂) = bind-eq-ok (or_raise url.port) _ h₁ in
      let safe = reject_if-passes (is_unsafe urlsplit value allow_localhost_http url) _ done h₂ in
      (
        url,
        or_raise-valid (urlsplit value) url parsed,
        or_raise-valid url.port port numbered,
        is_unsafe-IsPlace value allow_localhost_http url safe,
      )

  validate_urls-EachSecure :
      (urls : List String) (allow_localhost_http : Bool) (done : Unit {0})
      → validate_urls urlsplit urls allow_localhost_http ≡ ok done
      → EachSecure allow_localhost_http urls
  unfolding validate_urls
  validate_urls-EachSecure [] allow_localhost_http done h = tt
  validate_urls-EachSecure (url ∷ urls) allow_localhost_http done h =
      let (one, first_ok, h₁) =
        bind-eq-ok
          (if url == "" then ok tt else validate_oauth_url urlsplit url allow_localhost_http) _ h in
      (
        λ given. validate_oauth_url-IsSecure url allow_localhost_http one (
            subst
              (λ b.
                (if b then ok tt else validate_oauth_url urlsplit url allow_localhost_http)
                ≡ ok one)
              given first_ok),
        validate_urls-EachSecure urls allow_localhost_http done h₁,
      )

  -- settings that may be trusted
  abbrev pub IsTrusted : OauthMode → OauthSettings → Type 0
  IsTrusted mode s =
      (s.rate_limit_backoff_seconds ≤ s.rate_limit_maximum_backoff_seconds)
      × (s.resource_url == "" ≡ false)
      × (is_empty s.authorization_servers ≡ false)
      × EachSecure s.allow_localhost_http
          (s.resource_url ∷ (s.authorization_servers ++ s.jwks_url ∷ s.introspection_url ∷ []))
      × ((url : Url) × (urlsplit s.resource_url ≡ valid url) × (ends_with url.path "/mcp" ≡ true))
      × (is_empty s.required_scopes ≡ false)
      × (subset s.required_scopes s.supported_scopes ≡ true)
      × (all_of is_scope (s.required_scopes ++ s.supported_scopes) ≡ true)
      × IsEquipped s.token_verifier s
      × IsEmbeddable mode s

  validate_verifier-IsEquipped :
      (verifier : TokenVerifier) (s : OauthSettings) (done : Unit {0})
      → validate_verifier urlsplit verifier s ≡ ok done
      → IsEquipped verifier s
  unfolding validate_verifier
  validate_verifier-IsEquipped jwt s done h =
      let (one, first_ok, h₁) =
        bind-eq-ok
          (reject_if (s.jwks_url == "" || not (is_single s.authorization_servers))
            "JWT requires one issuer and a trusted JWKS URL")
          _ h in
      let keyed = reject_if-passes _ _ one first_ok in
      let algorithms = reject_if-passes _ _ done h₁ in
      (ground arith, ground arith, ground arith, ground arith)
  validate_verifier-IsEquipped introspection s done h =
      let passed = reject_if-passes _ _ done h in
      (ground arith, ground arith, ground arith, ground arith)
  validate_verifier-IsEquipped custom s done h = tt

  -- what the tests before and behind the filling of the supported scopes let pass
  checked-IsTrusted :
      (s : OauthSettings) (waits done passed : Unit {0})
      → check_backoff urlsplit s ≡ ok waits
      → check_urls urlsplit s ≡ ok done
      → check_scopes urlsplit (with_supported urlsplit s) ≡ ok passed
      → IsTrusted resource_server (with_supported urlsplit s)
  unfolding check_backoff check_urls check_scopes bad_scopes with_supported
  checked-IsTrusted s waits done passed w h k =
      let waiting = reject_if-passes _ _ waits w in
      let (one, named, h₁) =
        bind-eq-ok
          (reject_if (s.resource_url == "" || is_empty s.authorization_servers)
            "OAuth requires resource URL and authorization servers")
          _ h in
      let (two, secured, h₂) =
        bind-eq-ok
          (validate_urls urlsplit
            (s.resource_url ∷ (s.authorization_servers ++ s.jwks_url ∷ s.introspection_url ∷ []))
            s.allow_localhost_http)
          _ h₁ in
      let (url, parsed, h₃) = bind-eq-ok (or_raise (urlsplit s.resource_url)) _ h₂ in
      let present = reject_if-passes _ _ one named in
      let ending = reject_if-passes _ _ done h₃ in
      let (three, scoped, k₁) =
        bind-eq-ok
          (reject_if (bad_scopes urlsplit (with_supported urlsplit s))
            "OAuth scopes must be non-empty RFC 6749 scope tokens")
          _ k in
      let scopes = reject_if-passes _ _ three scoped in
      (
        ground (arith, waiting),
        ground (arith, present),
        ground (arith, present),
        validate_urls-EachSecure _ s.allow_localhost_http two secured,
        (url, or_raise-valid (urlsplit s.resource_url) url parsed, ground (arith, ending)),
        ground (arith, scopes),
        ground (arith, scopes),
        ground (arith, scopes),
        validate_verifier-IsEquipped s.token_verifier (with_supported urlsplit s) passed k₁,
        tt,
      )

  incoherent-IsEmbeddable :
      (s : OauthSettings) (url : Url) → incoherent urlsplit s url ≡ false → IsEmbeddable embedded s
  unfolding incoherent
  incoherent-IsEmbeddable s url h = (
    ground arith,
    (==_iff (first s.authorization_servers) s.embedded_issuer).0 (ground arith),
    (==_iff s.jwks_url (join s.embedded_issuer "/oauth/jwks")).0 (ground arith),
    ground arith,
    ground arith,
    ground arith,
  )

  with_issuer-IsEquipped :
      (verifier : TokenVerifier) (s : OauthSettings)
      → IsEquipped verifier s
      → IsEquipped verifier (with_issuer urlsplit s)
  unfolding with_issuer
  with_issuer-IsEquipped jwt s h = h
  with_issuer-IsEquipped introspection s h = h
  with_issuer-IsEquipped custom s h = tt

  validate_mode-IsTrusted :
      (mode : OauthMode) (s t : OauthSettings)
      → is_enabled mode ≡ true
      → IsTrusted resource_server (with_supported urlsplit s)
      → validate_mode urlsplit mode (with_supported urlsplit s) ≡ ok t
      → IsTrusted mode t
  unfolding validate_mode validate_issuer with_issuer
  validate_mode-IsTrusted off s t enabled trusted h = cc
  validate_mode-IsTrusted resource_server s t enabled trusted h =
      subst (IsTrusted resource_server) (ok-injective _ t h) trusted
  validate_mode-IsTrusted embedded s t enabled trusted h =
      let u = with_supported urlsplit s in
      let v = with_issuer urlsplit u in
      let (done, origins, h₁) =
        bind-eq-ok (validate_origins urlsplit u.cimd_allowed_origins)
          (λ done. validate_issuer urlsplit v) h in
      let (url, parsed, h₂) =
        bind-eq-ok (or_raise (urlsplit v.embedded_issuer))
          (λ url.
            reject_if (incoherent urlsplit v url)
              "Embedded OAuth requires one canonical issuer, its JWKS and coherent lifetimes"
            >> ok v)
          h₁ in
      let (one, coherent, h₃) =
        bind-eq-ok
          (reject_if (incoherent urlsplit v url)
            "Embedded OAuth requires one canonical issuer, its JWKS and coherent lifetimes")
          (λ one. ok v) h₂ in
      let (a, b, c, d, e, f, g, i, j, nothing) = trusted in
      subst (IsTrusted embedded) (ok-injective v t h₃) (
        a,
        b,
        c,
        d,
        e,
        f,
        g,
        i,
        with_issuer-IsEquipped u.token_verifier u j,
        incoherent-IsEmbeddable v url (reject_if-passes _ _ one coherent),
      )

-- With OAuth enabled, settings that `validate_oauth` lets pass may be trusted: there are a resource
-- and authorization servers; each URL that is given is one over HTTPS, or over HTTP to this host if
-- that is allowed, without credentials, query and fragment; the resource's path ends in /mcp; scopes
-- are required, they are among the supported ones, and all are scope tokens; the verifier of tokens
-- has what it needs, which for JWT is one issuer, a key URL and asymmetric algorithms; the backoff is
-- within its maximum; and in embedded mode the issuer is the one authorization server, the keys are
-- its own, and refresh tokens outlive access tokens.
pub validate_oauth-IsTrusted :
    (urlsplit : String → Parsed Url) (s t : OauthSettings)
    → is_enabled s.mode ≡ true
    → validate_oauth urlsplit s ≡ ok t
    → IsTrusted urlsplit s.mode t
unfolding validate_oauth by_mode validate_enabled validate_scopes with_supported
validate_oauth-IsTrusted urlsplit s t enabled h =
    let (waits, waiting, h₁) =
      bind-eq-ok (check_backoff urlsplit s) (λ waits. by_mode urlsplit s.mode s) h in
    go s.mode enabled waits waiting h₁
  where
    u : OauthSettings
    u = with_supported urlsplit s

    checked :
        (waits : Unit {0})
        → check_backoff urlsplit s ≡ ok waits
        → validate_enabled urlsplit s ≡ ok t
        → IsTrusted urlsplit resource_server u × (validate_mode urlsplit s.mode u ≡ ok t)
    checked waits waiting k =
        let (done, reached, k₁) =
          bind-eq-ok (check_urls urlsplit s) (λ done. validate_scopes urlsplit u) k in
        let (passed, scoped, k₂) =
          bind-eq-ok (check_scopes urlsplit u) (λ passed. validate_mode urlsplit s.mode u) k₁ in
        (checked-IsTrusted urlsplit s waits done passed waiting reached scoped, k₂)

    go :
        (mode : OauthMode)
        → is_enabled mode ≡ true
        → (waits : Unit {0}) → check_backoff urlsplit s ≡ ok waits
        → by_mode urlsplit mode s ≡ ok t
        → IsTrusted urlsplit s.mode t
    go off e waits waiting k = cc
    go resource_server e waits waiting k =
        let (trusted, last) = checked waits waiting k in
        validate_mode-IsTrusted urlsplit s.mode s t enabled trusted last
    go embedded e waits waiting k =
        let (trusted, last) = checked waits waiting k in
        validate_mode-IsTrusted urlsplit s.mode s t enabled trusted last
