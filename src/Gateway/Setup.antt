-- ===== src/Gateway/Setup.antt =====
-- src/mcpgtw/gateway.py: the checks of `__init__`, `_build_access_controller`, and the routes that
-- `register_routes` adds, with those of src/mcpgtw/oauth/authorization_server.py. What was injected
-- is given by whether it was. The routes that FastAPI itself gives an app are a parameter.
pub mod Admin
pub mod Controller
mod Tests
use mcp_gtw.Base.{
  String, Bool, true, false, Option, none, some, List, [], ◌∷◌, ◌++◌, ◌≡◌, refl, arith, ◌&&◌, ◌||◌,
  not, any_of, all_of, contains, as_set, map, is_some, text_eq, ◌==◌, ==_iff, join, starts_with,
  Bool-cases, inl, inr, if◌then◌else◌,
}
use mcp_gtw.Errors.{Result, ok, err, configuration, ◌>>=◌, ◌>>◌}
use mcp_gtw.Settings.{OauthMode, off, resource_server, embedded}
use mcp_gtw.Settings.Validation.{TokenVerifier, jwt, introspection, custom}

-- the settings and the injected strategies that decide
pub record Setup : Type 0 where
  pub oauth_mode : OauthMode
  pub admin_enabled : Bool
  pub admin_key : String
  pub admin_path : String
  pub mcp_path : String
  pub allow_static_mcp_tokens : Bool
  pub token_verifier : TokenVerifier
  -- the path of the metadata, and the path and the registration of the authorization server
  pub metadata_path : String
  pub server_path : String
  pub dcr_enabled : Bool
  pub has_authorization_server : Bool
  pub has_controller : Bool
  pub has_verifier : Bool
  pub has_channel_access : Bool
  pub has_static_eligible : Bool
  pub has_metadata : Bool

pub data Verification : Type 0 where
  by_authorization_server by_injected by_jwt by_introspection : Verification

-- the controller that is built
pub data Built : Type 0 where
  injected token_access : Built
  oauth_access hybrid_access : Verification → Built

abbrev reject_if : Bool → String → Result (Unit {0})
reject_if true message = err (configuration message)
reject_if false message = ok tt

module _ {A : Type 0} where
  pub reject_if-ok :
      (bad : Bool) (message : String) (rest : Result A) (last : A)
      → (reject_if bad message >> rest) ≡ ok last
      → (bad ≡ false) × (rest ≡ ok last)
  reject_if-ok true message rest last h = cc
  reject_if-ok false message rest last h = (refl, h)

abbrev pub is_off : OauthMode → Bool
is_off off = true
is_off _ = false

-- path == prefix or path.startswith(prefix + "/")
unfoldable pub is_within : String → String → Bool
is_within path prefix = path == prefix || starts_with path (join prefix "/")

abbrev pub web_files : List String
web_files =
    "/logo.svg" ∷ "/favicon.ico" ∷ "/favicon-16x16.png" ∷ "/favicon-32x32.png"
    ∷ "/apple-touch-icon.png" ∷ "/android-chrome-192x192.png" ∷ "/android-chrome-512x512.png"
    ∷ "/site.webmanifest" ∷ []

abbrev pub reserved : List String
reserved = "/" ∷ "/health" ∷ "/provider" ∷ web_files

unfoldable pub admin_path_conflicts : String → Bool
admin_path_conflicts path = contains reserved path || path == "/mcp" || starts_with path "/mcp/"

unfoldable pub chosen_verification : Setup → Result Verification
chosen_verification x =
    if x.has_authorization_server
    then ok by_authorization_server
    else if x.has_verifier
    then ok by_injected
    else elim x.token_verifier [
      | jwt ↦ ok by_jwt
      | introspection ↦ ok by_introspection
      | custom ↦ err (configuration "Custom OAuth verifier must be injected")
    ]

-- the test of the authorization server against the mode
unfoldable pub check_server : OauthMode → Setup → Result (Unit {0})
check_server embedded x = do
  reject_if (not x.has_authorization_server)
      "Embedded OAuth requires an injected authorization server"
  reject_if (x.has_controller || x.has_verifier) "Embedded OAuth owns access token verification"
check_server _ x =
    reject_if x.has_authorization_server "Authorization server requires embedded OAuth mode"

unfoldable pub build_oauth : Setup → Result Built
build_oauth x = do
  reject_if (not x.has_channel_access) "OAuth requires an explicit channel access policy"
  reject_if (x.allow_static_mcp_tokens && not x.has_static_eligible)
      "Hybrid OAuth requires explicit static channel eligibility"
  verification ← chosen_verification x
  ok (if x.allow_static_mcp_tokens then hybrid_access verification else oauth_access verification)

unfoldable pub build_access_controller : Setup → Result Built
build_access_controller x =
    check_server x.oauth_mode x
    >> (if x.has_controller
        then ok injected
        else if is_off x.oauth_mode
        then ok token_access
        else build_oauth x)

unfoldable pub admin_collides : Setup → Bool
admin_collides x =
    x.admin_enabled && (admin_path_conflicts x.admin_path || is_within x.admin_path x.mcp_path)

abbrev admin_unkeyed : Setup → Bool
admin_unkeyed x = x.admin_enabled && x.admin_key == ""

abbrev metadata_unused : Setup → Bool
metadata_unused x = is_off x.oauth_mode && x.has_metadata

-- `__init__`, whose other statements build the strategies
unfoldable pub init : Setup → Result Built
init x = do
  reject_if (admin_unkeyed x)
      "GATEWAY_ADMIN_KEY must be a non-empty value when GATEWAY_ADMIN_ENABLED is true"
  reject_if (admin_collides x) "GATEWAY_ADMIN_PATH collides with a built-in route"
  reject_if (metadata_unused x) "OAuth metadata requires an enabled OAuth mode"
  build_access_controller x

-- a constructor that returned passed its tests
pub init-ok :
    (x : Setup) (built : Built)
    → init x ≡ ok built
    → (admin_collides x ≡ false) × (build_access_controller x ≡ ok built)
unfolding init
init-ok x built h =
    let unused =
      reject_if (metadata_unused x) "OAuth metadata requires an enabled OAuth mode"
      >> build_access_controller x in
    let (keyed, rest₁) =
      reject_if-ok (admin_unkeyed x)
        "GATEWAY_ADMIN_KEY must be a non-empty value when GATEWAY_ADMIN_ENABLED is true"
        (reject_if (admin_collides x) "GATEWAY_ADMIN_PATH collides with a built-in route" >> unused)
        built h in
    let (free, rest₂) =
      reject_if-ok (admin_collides x) "GATEWAY_ADMIN_PATH collides with a built-in route" unused
        built rest₁ in
    (
      free,
      (reject_if-ok (metadata_unused x) "OAuth metadata requires an enabled OAuth mode"
          (build_access_controller x) built rest₂).1,
    )

-- a route of the app, by its path; a mount also takes the paths below its own
pub data Route : Type 0 where
  route mount : String → Route

abbrev path_of : Route → String
path_of (route path) = path
path_of (mount path) = path

-- the paths that are added in turn, each if it collides with no route and not with the admin path
unfoldable pub add_each : Setup → Bool → String → List String → List Route → Result (List Route)
add_each x fresh message [] routes = ok routes
add_each x fresh message (path ∷ paths) routes =
    reject_if
      (fresh && any_of (λ r. path_of r == path) routes
        || x.admin_enabled && is_within x.admin_path path)
      message
    >> add_each x fresh message paths (routes ++ route path ∷ [])

unfoldable pub metadata_paths : Setup → List String
metadata_paths x = as_set (
    x.metadata_path ∷ "/.well-known/oauth-protected-resource/mcp"
    ∷ "/.well-known/oauth-protected-resource" ∷ [])

unfoldable pub server_paths : Setup → List String
server_paths x =
    join "/.well-known/oauth-authorization-server" x.server_path
    ∷ (map (join x.server_path) (
          "/.well-known/openid-configuration" ∷ "/oauth/jwks" ∷ "/oauth/authorize" ∷ "/oauth/login"
          ∷ "/oauth/consent" ∷ "/oauth/token" ∷ "/oauth/revoke" ∷ [])
        ++ (if x.dcr_enabled then join x.server_path "/oauth/register" ∷ [] else []))

-- `FastAPI(…)` of `create_app`, by the paths that it adds, and the routes that are always added
abbrev base_routes : List String → List Route
base_routes framework =
    map route framework ++ route "/provider" ∷ route "/health" ∷ route "/" ∷ map route web_files

-- the routes before the mount, and the mount
unfoldable pub mcp_routes : Setup → List Route
mcp_routes x =
    if is_off x.oauth_mode then mount x.mcp_path ∷ [] else route x.mcp_path ∷ mount x.mcp_path ∷ []

unfoldable pub with_metadata : List String → Setup → Result (List Route)
with_metadata framework x =
    add_each x false "Admin path collides with OAuth metadata"
      (if is_off x.oauth_mode then [] else metadata_paths x) (base_routes framework)

-- `self.authorization_server.register_routes(app)`
unfoldable pub with_server : Setup → List Route → Result (List Route)
with_server x routes =
    add_each x true "OAuth route collision"
      (if x.has_authorization_server then server_paths x else []) routes

unfoldable pub routes_before : List String → Setup → Result (List Route)
routes_before framework x = do
  public ← with_metadata framework x
  all ← with_server x public
  ok (all ++ mcp_routes x)

abbrev admin_routes : Setup → List Route
admin_routes x =
    if x.admin_enabled then route x.admin_path ∷ route (join x.admin_path "/stats") ∷ [] else []

unfoldable pub register_routes : List String → Setup → Result (List Route)
register_routes framework x = do routes ← routes_before framework x; ok (routes ++ admin_routes x)
