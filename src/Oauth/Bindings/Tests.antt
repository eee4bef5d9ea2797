-- ===== src/Oauth/Bindings/Tests.antt =====
-- The bindings of MCP sessions at concrete inputs.
use mcp_gtw.Base.{true, false, none, some, [], ◌∷◌, ◌≡◌, ◌↔◌, refl, arith, text_eq}
use mcp_gtw.Dict.{get, set, pop}
use mcp_gtw.Oauth.Context.{AccessContext, identity_eq, same_identity, same_text}
use mcp_gtw.Oauth.Bindings.{Bindings, new_bindings, identity, purge, renew, bind, accepts}
use mcp_gtw.Oauth.Bindings.Order.{IsOrdered}
use mcp_gtw.Oauth.Bindings.History.{start, waits, binds, History-IsOrdered}
use mcp_gtw.Oauth.Bindings.Decisions.{owner, OwnerAfter, admits, accepts-owner, bind-owner}

abbrev context : AccessContext
context = record {
  channel_id = "c";
  credential_kind = "oauth";
  principal_id = "p";
  client_id = some "client";
  scopes = "read" ∷ [];
  issuer = none;
  expires_at = some 100;
}

abbrev stranger : AccessContext
stranger = record context { principal_id = "q" }

-- the session "s", bound at 5
abbrev bound : Bindings
bound = (bind 5 "s" context (new_bindings 2 10)).1

History-IsOrdered_example : IsOrdered 5 bound
History-IsOrdered_example =
    History-IsOrdered 2 10 5 bound (binds "s" context (waits 5 start (ground arith)))

bound-IsOrdered : IsOrdered 7 bound
bound-IsOrdered =
    History-IsOrdered 2 10 7 bound
      (waits 7 (binds "s" context (waits 5 start (ground arith))) (ground arith))

accepts-owner_example :
    (((accepts 7 "s" stranger bound).0 ≡ true) ↔ (owner 7 bound "s" ≡ some (identity stranger)))
    × OwnerAfter 7
        (accepts 7 "s" stranger bound).0
        "s"
        (identity stranger)
        bound
        (accepts 7 "s" stranger bound).1
accepts-owner_example = accepts-owner 7 "s" stranger bound

bind-owner_example :
    ((bind 7 "s" stranger bound).0 ≡ admits 7 (owner 7 bound "s") (identity stranger) bound)
    × OwnerAfter 7
        (bind 7 "s" stranger bound).0
        "s"
        (identity stranger)
        bound
        (bind 7 "s" stranger bound).1
bind-owner_example = bind-owner 7 "s" stranger bound bound-IsOrdered

refused : (bind 7 "s" stranger bound).0 ≡ false
unfolding bind identity purge renew new_bindings get set pop same_identity same_text
refused = refl

extended : (accepts 7 "s" context bound).0 ≡ true
unfolding accepts bind identity purge renew new_bindings get set pop same_identity same_text
extended = refl
