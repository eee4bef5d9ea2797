-- ===== src/Oauth.antt =====
-- src/mcpgtw/oauth: the stores behind the OAuth modes of the gateway.
pub mod Context
pub mod Bindings
pub mod Grants
pub mod State
pub mod Server
pub mod RateLimit
