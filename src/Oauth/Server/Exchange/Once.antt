-- ===== src/Oauth/Server/Exchange/Once.antt =====
-- src/mcpgtw/oauth/authorization_server.py: a code is spent by the exchange that presents it.
use mcp_gtw.Base.{String, none, ◌≡◌, text_eq}
use mcp_gtw.Oauth.State
use mcp_gtw.Oauth.State.{StateStore, matches, find, upsert}
use mcp_gtw.Oauth.Server.{Server}

-- no code stands under a key
abbrev IsSpent : String → StateStore → Type 0
IsSpent key s = find "code" key s.rows ≡ none
