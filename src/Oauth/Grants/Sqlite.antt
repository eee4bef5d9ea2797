-- ===== src/Oauth/Grants/Sqlite.antt =====
-- src/mcpgtw/oauth/sqlite_grants.py: the durable store. The database is a list of rows, and a
-- transaction that raises is rolled back. `works` says whether the database answers; if it does not,
-- `sqlite3.Error` or `OSError` becomes `McpAccessError`.
pub mod Rows
pub mod Contract
use mcp_gtw.Base.{
  ℕ, String, Bool, true, false, Option, none, some, List, [], ◌∷◌, ◌++◌, text_eq, ◌==◌, ◌&&◌, ◌||◌,
  not, ltb, leb, length, keep_if, any_of, subset, if◌then◌else◌,
}
use mcp_gtw.Errors.{Result, ok, err, value_error, mcp_access, verifier_unavailable}
use mcp_gtw.Oauth.Grants.{Principal, Grant, GrantOps}

pub record Row : Type 0 where
  pub owner : String
  pub channel : String
  pub expires : ℕ
  pub scopes : List String

pub record SqliteGrants : Type 0 where
  pub maximum_grants : ℕ
  pub rows : List Row

-- `__init__`, on a path where no table is yet
unfoldable pub open_sqlite_grants : String → ℕ → Result SqliteGrants
open_sqlite_grants path maximum_grants =
    if path == "" || (path == ":memory:" || ltb maximum_grants 1)
    then err (value_error "A durable database path and positive grant limit are required")
    else ok (record { maximum_grants = maximum_grants; rows = [] })

-- `WHERE owner=? AND channel=?`
abbrev pub matches : String → String → Row → Bool
matches owner channel row = row.owner == owner && row.channel == channel

-- `DELETE FROM oauth_grants WHERE expires <= ?`
unfoldable pub delete_expired : ℕ → List Row → List Row
delete_expired now rows = keep_if (λ row. ltb now row.expires) rows

-- `INSERT … ON CONFLICT(owner, channel) DO UPDATE`
unfoldable pub upsert : Row → List Row → List Row
upsert new [] = new ∷ []
upsert new (row ∷ rows) =
    if matches new.owner new.channel row then new ∷ rows else row ∷ upsert new rows

-- the channels of the final `SELECT`
unfoldable pub select : String → List String → List Row → List String
select owner scopes [] = []
select owner scopes (row ∷ rows) =
    let rest = select owner scopes rows in
    if row.owner == owner && subset scopes row.scopes then row.channel ∷ rest else rest

-- the end of a transaction, with the final `SELECT`
unfoldable pub finish :
    String → List String → SqliteGrants → List Row → Result (List String) × SqliteGrants
finish owner scopes s changed = (ok (select owner scopes changed), record s { rows = changed })

pub data Operation : Type 0 where
  get grant revoke remove : Operation

unfoldable pub execute :
    ℕ
    → Operation
    → String
    → String
    → ℕ
    → List String
    → SqliteGrants
    → Result (List String) × SqliteGrants
execute now operation owner channel expires scopes s =
    let rows = delete_expired now s.rows in
    elim operation [
      | get ↦ finish owner scopes s rows
      | grant ↦
          if not (any_of (matches owner channel) rows) && leb s.maximum_grants (length rows)
          then (err (value_error "Grant capacity exceeded"), s)
          else finish owner scopes s (
              upsert
                (record { owner = owner; channel = channel; expires = expires; scopes = scopes })
                rows)
      | revoke ↦ finish owner scopes s (keep_if (λ row. not (matches owner channel row)) rows)
      | remove ↦ finish owner scopes s (keep_if (λ row. not (row.channel == channel)) rows)
    ]

unfoldable pub query :
    Bool
    → ℕ
    → Operation
    → String
    → String
    → ℕ
    → List String
    → SqliteGrants
    → Result (List String) × SqliteGrants
query works now operation owner channel expires scopes s =
    if works
    then execute now operation owner channel expires scopes s
    else (err (mcp_access verifier_unavailable), s)

abbrev ignore : Result (List String) × SqliteGrants → Result (Unit {0}) × SqliteGrants
ignore (ok ids, s) = (ok tt, s)
ignore (err e, s) = (err e, s)

unfoldable pub sqlite_grants : Bool → GrantOps SqliteGrants
sqlite_grants works = record {
  channels = λ now p s. query works now get p.principal_id "" 0 p.scopes s;
  grant = λ now p id s. ignore (query works now grant p.principal_id id p.expires_at p.scopes s);
  revoke = λ now p id s. ignore (query works now revoke p.principal_id id 0 [] s);
  remove_channel = λ now id s. ignore (query works now remove "" id 0 [] s);
}
