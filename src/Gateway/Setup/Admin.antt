-- ===== src/Gateway/Setup/Admin.antt =====
-- src/mcpgtw/gateway.py: which routes hide the administration page.
use mcp_gtw.Base.{
  String, Bool, true, false, List, [], ◌∷◌, ◌++◌, ◌≡◌, refl, subst, sym, ap, map, ◌∙◌, arith, ◌&&◌,
  ◌||◌, any_of, contains, text_eq, ◌==◌, ==_iff, if◌then◌else◌,
}
use mcp_gtw.Errors.{Result, ok, bind-eq-ok, ◌>>=◌}
use mcp_gtw.Gateway.Setup.{
  Setup, Built, Route, route, mount, is_within, is_off, admin_path_conflicts, reserved, path_of,
  add_each, base_routes, metadata_paths, server_paths, mcp_routes, with_metadata, with_server,
  routes_before, admin_collides, init-ok, reject_if-ok, init,
}

-- whether a route serves a path
abbrev pub covers : String → Route → Bool
covers path (route p) = p == path
covers path (mount p) = is_within path p

ok-injective : (a b : List Route) → ◌≡◌ {A = Result (List Route)} (ok a) (ok b) → a ≡ b
ok-injective a b e = cc e

any_of-append :
    (p : Route → Bool) (xs ys : List Route) → any_of p (xs ++ ys) ≡ (any_of p xs || any_of p ys)
any_of-append p [] ys = refl
any_of-append p (x ∷ xs) ys = ground (arith, any_of-append p xs ys)

add_each-covers :
    (x : Setup) (fresh : Bool) (message : String) (paths : List String) (routes added : List Route)
    → x.admin_enabled ≡ true
    → add_each x fresh message paths routes ≡ ok added
    → any_of (covers x.admin_path) added ≡ any_of (covers x.admin_path) routes
unfolding add_each is_within
add_each-covers x fresh message [] routes added enabled h =
    ap (any_of (covers x.admin_path)) (sym (ok-injective routes added h))
add_each-covers x fresh message (path ∷ paths) routes added enabled h =
    let (safe, rest) =
      reject_if-ok
        (fresh && any_of (λ r. path_of r == path) routes
          || x.admin_enabled && is_within x.admin_path path)
        message (add_each x fresh message paths (routes ++ route path ∷ [])) added h in
    add_each-covers x fresh message paths (routes ++ route path ∷ []) added enabled rest
    ∙ ground (
      arith,
      any_of-append (covers x.admin_path) routes (route path ∷ []),
      ==_iff path x.admin_path,
      ==_iff x.admin_path path,
    )

map-covers :
    (path : String) (paths : List String)
    → any_of (covers path) (map route paths) ≡ contains paths path
map-covers path [] = refl
map-covers path (p ∷ paths) = ground (arith, map-covers path paths, ==_iff p path, ==_iff path p)

base_routes-covers :
    (framework : List String) (path : String)
    → contains reserved path ≡ false
    → any_of (covers path) (base_routes framework) ≡ contains framework path
base_routes-covers framework path h =
    any_of-append (covers path) (map route framework) _ ∙ ground (arith, map-covers path framework)

mcp_routes-covers :
    (x : Setup)
    → is_within x.admin_path x.mcp_path ≡ false
    → any_of (covers x.admin_path) (mcp_routes x) ≡ false
unfolding mcp_routes is_within
mcp_routes-covers x h =
    ground (arith, ==_iff x.mcp_path x.admin_path, ==_iff x.admin_path x.mcp_path)

-- If the constructor and the registration of the routes succeed with the administration enabled, then
-- the routes that are added before the administration page hide it exactly if its path is one of
-- those that FastAPI itself gives an app: no other route of the gateway or of its authorization
-- server, nor the mount of the MCP server, takes the path.
pub routes_before-covers :
    (framework : List String) (x : Setup) (built : Built) (routes : List Route)
    → x.admin_enabled ≡ true
    → init x ≡ ok built
    → routes_before framework x ≡ ok routes
    → any_of (covers x.admin_path) routes ≡ contains framework x.admin_path
unfolding routes_before with_metadata with_server admin_collides admin_path_conflicts
routes_before-covers framework x built routes enabled started registered =
    let (free, built_so) = init-ok x built started in
    let (public, first, rest) =
      bind-eq-ok (with_metadata framework x)
        (λ public. with_server x public >>= (λ all. ok (all ++ mcp_routes x))) registered in
    let (all, second, last) =
      bind-eq-ok (with_server x public) (λ all. ok (all ++ mcp_routes x)) rest in
    let hidden_before =
      add_each-covers x true "OAuth route collision"
        (if x.has_authorization_server then server_paths x else []) public all enabled second
      ∙ add_each-covers x false "Admin path collides with OAuth metadata"
          (if is_off x.oauth_mode then [] else metadata_paths x) (base_routes framework) public
          enabled first
      ∙ base_routes-covers framework x.admin_path (ground arith) in
    subst (λ l. any_of (covers x.admin_path) l ≡ contains framework x.admin_path)
      (ok-injective (all ++ mcp_routes x) routes last)
      (any_of-append (covers x.admin_path) all (mcp_routes x)
        ∙ ground (arith, hidden_before, mcp_routes-covers x (ground arith)))
