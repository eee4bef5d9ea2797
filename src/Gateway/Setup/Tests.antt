-- ===== src/Gateway/Setup/Tests.antt =====
-- Construction and routes at concrete inputs.
use mcp_gtw.Base.{
  String, true, false, List, [], ◌∷◌, ◌≡◌, refl, any_of, text_eq, starts_with, after_prefix, as_set,
  add, ◌++◌, map,
}
use mcp_gtw.Errors.{ok}
use mcp_gtw.Settings.{resource_server}
use mcp_gtw.Settings.Validation.{jwt}
use mcp_gtw.Gateway.Setup.{
  Setup, route, base_routes, by_jwt, oauth_access, Route, init, is_within, admin_path_conflicts,
  admin_collides, check_server, chosen_verification, build_oauth, build_access_controller, add_each,
  metadata_paths, mcp_routes, with_metadata, with_server, routes_before,
}
use mcp_gtw.Gateway.Setup.Admin.{covers, routes_before-covers}
use mcp_gtw.Gateway.Setup.Controller.{suits, init-suits}

abbrev setup : Setup
setup = record {
  oauth_mode = resource_server;
  admin_enabled = true;
  admin_key = "k";
  admin_path = "/docs";
  mcp_path = "/a/mcp";
  allow_static_mcp_tokens = false;
  token_verifier = jwt;
  metadata_path = "/.well-known/oauth-protected-resource/a/mcp";
  server_path = "";
  dcr_enabled = false;
  has_authorization_server = false;
  has_controller = false;
  has_verifier = false;
  has_channel_access = true;
  has_static_eligible = false;
  has_metadata = false;
}

constructed : init setup ≡ ok (oauth_access by_jwt)
unfolding init admin_collides admin_path_conflicts is_within starts_with after_prefix
    build_access_controller check_server build_oauth chosen_verification
constructed = refl

init-suits_example : suits setup resource_server (oauth_access by_jwt) ≡ true
init-suits_example = init-suits setup (oauth_access by_jwt) constructed

-- what FastAPI documents
abbrev framework : List String
framework = "/openapi.json" ∷ "/docs" ∷ "/docs/oauth2-redirect" ∷ "/redoc" ∷ []

abbrev all_routes : List Route
all_routes = base_routes framework ++ map route (metadata_paths setup) ++ mcp_routes setup

registered : routes_before framework setup ≡ ok all_routes
unfolding routes_before with_metadata with_server add_each metadata_paths as_set add is_within
    starts_with after_prefix mcp_routes
registered = refl

routes_before-covers_example : any_of (covers "/docs") all_routes ≡ true
routes_before-covers_example =
    routes_before-covers framework setup (oauth_access by_jwt) all_routes refl constructed
      registered
