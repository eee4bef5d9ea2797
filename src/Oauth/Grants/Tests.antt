-- ===== src/Oauth/Grants/Tests.antt =====
-- The stores of grants at concrete inputs.
use mcp_gtw.Base.{true, some, [], ◌∷◌, ◌≡◌, refl, arith, as_set, add, text_eq}
use mcp_gtw.Errors.{ok}
use mcp_gtw.Dict.{get, set}
use mcp_gtw.Oauth.Grants.{Principal, IsGrantStore, current}
use mcp_gtw.Oauth.Grants.Memory.{
  MemoryGrants, memory_grants, new_memory_grants, channels, grant, grant_locked, total,
}
use mcp_gtw.Oauth.Grants.Memory.Contract
use mcp_gtw.Oauth.Grants.Sqlite.{sqlite_grants}
use mcp_gtw.Oauth.Grants.Sqlite.Contract as Durable
use mcp_gtw.Oauth.Grants.Sqlite.Rows
use mcp_gtw.Oauth.Grants.Access.{
  IsResolution, resolve, resolved, choose, only, resolve-IsResolution,
}

abbrev principal : Principal
principal = record { principal_id = "p"; scopes = "read" ∷ []; expires_at = 50 }

abbrev pub store : MemoryGrants
store = record {
  maximum_grants = 2;
  grants = ("p", ("c", record { scopes = "read" ∷ []; expires_at = 50 }) ∷ []) ∷ [];
  count = 1;
}

pub store-IsValid : Contract.IsValid store
unfolding get total
store-IsValid = record {
  owners = (refl, tt);
  each = ((refl, tt), tt);
  counted = refl;
  bounded = ground arith;
}

sqlite_grants-IsGrantStore_example :
    IsGrantStore (sqlite_grants true) (λ s. Rows.IsKeyed s.rows) Rows.lookup
sqlite_grants-IsGrantStore_example = Durable.sqlite_grants-IsGrantStore true

resolve-IsResolution_example :
    IsResolution
      (λ id. current 20 (Contract.lookup store "p" id))
      principal
      "c"
      (resolve memory_grants 20 principal "c" store).0
resolve-IsResolution_example =
    resolve-IsResolution memory_grants Contract.IsValid Contract.lookup 20 principal "c" store
      Contract.memory_grants-IsGrantStore store-IsValid

resolves : (resolve memory_grants 20 principal "" store).0 ≡ ok (some "c")
unfolding resolve resolved choose only as_set add memory_grants channels get
resolves = refl

grants : (grant 20 principal "c" (new_memory_grants 2)) ≡ (ok tt, store)
unfolding grant grant_locked new_memory_grants get set
grants = refl
