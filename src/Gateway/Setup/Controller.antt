-- ===== src/Gateway/Setup/Controller.antt =====
-- src/mcpgtw/gateway.py: which access controller a gateway gets.
use mcp_gtw.Base.{Bool, true, false, ◌≡◌, arith, ◌&&◌, not, if◌then◌else◌}
use mcp_gtw.Errors.{ok, ◌>>◌}
use mcp_gtw.Settings.{OauthMode, off, resource_server, embedded}
use mcp_gtw.Gateway.Setup.{
  Setup, Verification, by_authorization_server, Built, is_off, injected, token_access, oauth_access,
  hybrid_access, chosen_verification, check_server, build_oauth, build_access_controller, init,
  init-ok,
}

abbrev is_server : Verification → Bool
is_server by_authorization_server = true
is_server _ = false

-- the controllers that a mode allows, with what must have been injected and configured for them
abbrev pub suits : Setup → OauthMode → Built → Bool
suits x off injected = x.has_controller
suits x off token_access = true
suits x off _ = false
suits x resource_server injected = x.has_controller
suits x resource_server token_access = false
suits x resource_server (oauth_access v) =
    x.has_channel_access && not x.allow_static_mcp_tokens && not (is_server v)
suits x resource_server (hybrid_access v) =
    x.has_channel_access && x.allow_static_mcp_tokens && x.has_static_eligible && not (is_server v)
suits x embedded (oauth_access v) =
    x.has_channel_access && not x.allow_static_mcp_tokens && is_server v
suits x embedded (hybrid_access v) =
    x.has_channel_access && x.allow_static_mcp_tokens && x.has_static_eligible && is_server v
suits x embedded _ = false

build-suits :
    (mode : OauthMode) (x : Setup) (built : Built)
    → (check_server mode x
        >> (if x.has_controller
            then ok injected
            else if is_off mode
            then ok token_access
            else build_oauth x))
      ≡ ok built
    → suits x mode built ≡ true
unfolding check_server build_oauth chosen_verification
build-suits off x built h = ground arith
build-suits resource_server x built h = ground arith
build-suits embedded x built h = ground arith

-- A gateway that is constructed has the controller that its mode allows: without OAuth an injected
-- one or the one of static tokens; with an authorization server only one that verifies by it; as a
-- resource server an injected one or one that verifies otherwise. A controller of OAuth that the
-- gateway builds has a policy of channel access, and accepts static tokens beside OAuth exactly if
-- they are allowed, in which case the eligible channels are told.
pub init-suits : (x : Setup) (built : Built) → init x ≡ ok built → suits x x.oauth_mode built ≡ true
unfolding build_access_controller
init-suits x built h = build-suits x.oauth_mode x built (init-ok x built h).1
