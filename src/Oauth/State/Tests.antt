-- ===== src/Oauth/State/Tests.antt =====
-- The store of OAuth records at concrete inputs.
use mcp_gtw.Base.{
  String, true, false, none, some, [], ◌∷◌, ◌≡◌, refl, arith, text_eq, ◌==◌, ◌&&◌, ltb, ◌+◌,
  if◌then◌else◌,
}
use mcp_gtw.Json.{done}
use mcp_gtw.Errors.{ok}
use mcp_gtw.Oauth.State.{
  StateStore, Payload, find, delete_expired, update, put, get, revoke_subject, succeed,
  rotate_matching, rotate,
}
use mcp_gtw.Oauth.State.Table.{IsKeyed}
use mcp_gtw.Oauth.State.Invariant.{IsSound, calls, puts, rotates, calls-IsSound}
use mcp_gtw.Oauth.State.Reuse.{EndsFamily, rotate-reuse}
use mcp_gtw.Oauth.State.Single.{returns, get-put}

abbrev digest : String → String
digest secret = secret

abbrev payload : Payload
payload = record {
  subject = "user";
  client_id = "client";
  resource = "r";
  scopes = "read" ∷ "write" ∷ [];
  family = "f";
  used = false;
  rest = done;
}

-- a family and its first refresh token
abbrev store : StateStore
store = record {
  maximum_records = 5;
  rows =
      record { kind = "family"; key = "f"; payload = payload; expires = 90 }
      ∷ record { kind = "refresh"; key = "old"; payload = payload; expires = 80 }
      ∷ [];
}

store-IsKeyed : IsKeyed store.rows
unfolding find
store-IsKeyed = (refl, (refl, tt))

abbrev next : Payload
next = record payload { scopes = "read" ∷ [] }

abbrev rotated : StateStore
rotated = record {
  maximum_records = 5;
  rows =
      record { kind = "family"; key = "f"; payload = payload; expires = 90 }
      ∷ record {
        kind = "refresh";
        key = "old";
        payload = record payload { used = true };
        expires = 80;
      }
      ∷ record { kind = "refresh"; key = "new"; payload = next; expires = 80 }
      ∷ [];
}

rotates_once :
    rotate digest 10 "old" "client" "r" ("read" ∷ []) "new" store
    ≡ (ok (some (next, "new")), rotated)
unfolding rotate rotate_matching succeed find delete_expired update
rotates_once = refl

rotate-reuse_example : EndsFamily digest 20 "old" "client" ("read" ∷ []) "newer" "new" rotated "r"
rotate-reuse_example =
    rotate-reuse digest 10 20 "old" "client" "r" "new" "newer" ("read" ∷ []) store next rotated
      store-IsKeyed rotates_once

calls-IsSound_example : IsSound (
    calls digest
      (puts 1 "family" payload 90 "f"
        ∷ puts 1 "refresh" payload 80 "old"
        ∷ rotates 10 "old" "client" "r" ("read" ∷ []) "new"
        ∷ [])
      (record { maximum_records = 5; rows = [] }))
calls-IsSound_example = calls-IsSound digest 5 (
    puts 1 "family" payload 90 "f"
    ∷ puts 1 "refresh" payload 80 "old"
    ∷ rotates 10 "old" "client" "r" ("read" ∷ []) "new"
    ∷ [])

abbrev code : String
code = "code"

get-put_example :
    (get digest 12 "code" "c" true (put digest 11 "code" payload 30 "c" store).1).0 ≡ (
      if returns (put digest 11 "code" payload 30 "c" store).0
        && (code == code && digest "c" == digest "c")
      then (if ltb 12 (11 + 30) then some payload else none)
      else (get digest 12 "code" "c" true store).0)
get-put_example =
    get-put digest store 11 12 30 "code" "c" payload "code" "c" true store-IsKeyed (ground arith)

revoked : (get digest 12 "family" "f" false (revoke_subject digest 11 "user" store)).0 ≡ none
unfolding get revoke_subject find delete_expired
revoked = refl
