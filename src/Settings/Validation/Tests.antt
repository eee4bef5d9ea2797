-- ===== src/Settings/Validation/Tests.antt =====
-- The validators at concrete inputs.
use mcp_gtw.Base.{
  String, false, [], ◌∷◌, ◌≡◌, refl, text_eq, every, strip, strip_left, strip_right, is_space,
  starts_with, after_prefix,
}
use mcp_gtw.Errors.{ok}
use mcp_gtw.Libraries.{Parsed, valid}
use mcp_gtw.Settings.{resource_server}
use mcp_gtw.Settings.Validation.{
  OauthSettings, Url, custom, ends_with, is_plain, is_scope, parse_csv_list, split_commas, stripped,
  validate_admin_path, is_local_http, is_unsafe, validate_oauth_url, validate_urls, with_supported,
  bad_scopes, validate_verifier, check_scopes, check_urls, validate_mode, validate_scopes,
  validate_enabled, by_mode, check_backoff, validate_oauth,
}
use mcp_gtw.Settings.Validation.Trust.{IsTrusted, validate_oauth-IsTrusted}

abbrev urlsplit : String → Parsed Url
urlsplit value = valid (record {
  scheme = "https";
  hostname = "g";
  path = "/mcp";
  query = "";
  fragment = "";
  has_username = false;
  has_password = false;
  port = valid tt;
})

abbrev given : OauthSettings
given = record {
  mode = resource_server;
  resource_url = "https://g/mcp";
  authorization_servers = "https://i" ∷ [];
  required_scopes = "read" ∷ [];
  supported_scopes = [];
  allow_localhost_http = false;
  token_verifier = custom;
  jwks_url = "";
  jwt_allowed_algorithms = [];
  introspection_url = "";
  introspection_client_id = "";
  introspection_client_secret = "";
  rate_limit_backoff_seconds = 1;
  rate_limit_maximum_backoff_seconds = 30;
  embedded_issuer = "";
  cimd_allowed_origins = [];
  access_token_ttl_seconds = 900;
  refresh_token_ttl_seconds = 1000;
}

abbrev filled : OauthSettings
filled = record given { supported_scopes = "read" ∷ [] }

validated : validate_oauth urlsplit given ≡ ok filled
unfolding validate_oauth check_backoff by_mode validate_enabled check_urls validate_urls
    validate_oauth_url is_unsafe is_local_http is_plain every ends_with validate_scopes check_scopes
    bad_scopes is_scope validate_verifier validate_mode with_supported
validated = refl

validate_oauth-IsTrusted_example : IsTrusted urlsplit resource_server filled
validate_oauth-IsTrusted_example = validate_oauth-IsTrusted urlsplit given filled refl validated

parsed : parse_csv_list " a, ,b,c " ≡ "a" ∷ "b" ∷ "c" ∷ []
unfolding parse_csv_list split_commas stripped strip strip_left strip_right is_space
parsed = refl

admin : validate_admin_path "/admin" ≡ ok "/admin"
unfolding validate_admin_path starts_with after_prefix ends_with
admin = refl
