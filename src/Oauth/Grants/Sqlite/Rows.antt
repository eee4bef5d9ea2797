-- ===== src/Oauth/Grants/Sqlite/Rows.antt =====
-- src/mcpgtw/oauth/sqlite_grants.py: what each statement does to the row of an owner and a channel.
use mcp_gtw.Base.{
  ℕ, String, Bool, Option, none, some, List, [], ◌∷◌, ◌≡◌, ◌≤◌, refl, arith, text_eq, ◌==◌, ==_iff,
  ◌&&◌, not, keep_if, contains, if◌then◌else◌,
}
use mcp_gtw.Oauth.Grants.{Principal, Grant, current, allows}
use mcp_gtw.Oauth.Grants.Sqlite.{Row, SqliteGrants, matches, delete_expired, upsert, select}

unfoldable pub lookup_rows : List Row → String → String → Option Grant
lookup_rows [] o c = none
lookup_rows (row ∷ rows) o c =
    if matches o c row
    then some (record { scopes = row.scopes; expires_at = row.expires })
    else lookup_rows rows o c

abbrev pub lookup : SqliteGrants → String → String → Option Grant
lookup s o c = lookup_rows s.rows o c

-- PRIMARY KEY(owner, channel)
abbrev pub IsKeyed : List Row → Type 0
IsKeyed [] = Unit
IsKeyed (row ∷ rows) = (lookup_rows rows row.owner row.channel ≡ none) × IsKeyed rows

pub lookup-delete_expired :
    (now : ℕ) (rows : List Row) (o c : String)
    → IsKeyed rows
    → lookup_rows (delete_expired now rows) o c ≡ current now (lookup_rows rows o c)
unfolding lookup_rows delete_expired
lookup-delete_expired now [] o c h = refl
lookup-delete_expired now (row ∷ rows) o c h =
    ground (arith, lookup-delete_expired now rows o c h.1, ==_iff row.owner o, ==_iff row.channel c)

pub lookup-upsert :
    (new : Row) (rows : List Row) (o c : String)
    → lookup_rows (upsert new rows) o c ≡ (
        if matches o c new
        then some (record { scopes = new.scopes; expires_at = new.expires })
        else lookup_rows rows o c)
unfolding lookup_rows upsert
lookup-upsert new [] o c = refl
lookup-upsert new (row ∷ rows) o c = ground (
  arith,
  lookup-upsert new rows o c,
  ==_iff row.owner o,
  ==_iff row.channel c,
  ==_iff new.owner o,
  ==_iff new.channel c,
  ==_iff row.owner new.owner,
  ==_iff row.channel new.channel,
)

pub lookup-revoked :
    (owner channel : String) (rows : List Row) (o c : String)
    → lookup_rows (keep_if (λ row. not (matches owner channel row)) rows) o c
      ≡ (if owner == o && channel == c then none else lookup_rows rows o c)
unfolding lookup_rows
lookup-revoked owner channel [] o c = ground arith
lookup-revoked owner channel (row ∷ rows) o c = ground (
  arith,
  lookup-revoked owner channel rows o c,
  ==_iff row.owner o,
  ==_iff row.channel c,
  ==_iff owner o,
  ==_iff channel c,
  ==_iff row.owner owner,
  ==_iff row.channel channel,
)

pub lookup-removed :
    (channel : String) (rows : List Row) (o c : String)
    → lookup_rows (keep_if (λ row. not (row.channel == channel)) rows) o c
      ≡ (if channel == c then none else lookup_rows rows o c)
unfolding lookup_rows
lookup-removed channel [] o c = ground arith
lookup-removed channel (row ∷ rows) o c = ground (
  arith,
  lookup-removed channel rows o c,
  ==_iff row.owner o,
  ==_iff row.channel c,
  ==_iff channel c,
  ==_iff row.channel channel,
)

pub contains-select :
    (p : Principal) (rows : List Row) (id : String)
    → IsKeyed rows
    → contains (select p.principal_id p.scopes rows) id
      ≡ allows p (lookup_rows rows p.principal_id id)
unfolding lookup_rows select
contains-select p [] id h = refl
contains-select p (row ∷ rows) id h =
    ground
      (arith, contains-select p rows id h.1, ==_iff row.owner p.principal_id, ==_iff row.channel id)

pub upsert-IsKeyed : (new : Row) (rows : List Row) → IsKeyed rows → IsKeyed (upsert new rows)
unfolding upsert lookup_rows
upsert-IsKeyed new [] h = (refl, tt)
upsert-IsKeyed new (row ∷ rows) h = ground (
  arith,
  upsert-IsKeyed new rows h.1,
  lookup-upsert new rows row.owner row.channel,
  ==_iff row.owner new.owner,
  ==_iff row.channel new.channel,
  ==_iff new.owner row.owner,
  ==_iff new.channel row.channel,
)

module _ (p : Row → Bool) where
  lookup-keep_if :
      (rows : List Row) (o c : String)
      → lookup_rows rows o c ≡ none
      → lookup_rows (keep_if p rows) o c ≡ none
  unfolding lookup_rows
  lookup-keep_if [] o c h = refl
  lookup-keep_if (row ∷ rows) o c h = ground (arith, lookup-keep_if rows o c)

  pub keep_if-IsKeyed : (rows : List Row) → IsKeyed rows → IsKeyed (keep_if p rows)
  keep_if-IsKeyed [] h = tt
  keep_if-IsKeyed (row ∷ rows) h =
      ground (arith, keep_if-IsKeyed rows h.1, lookup-keep_if rows row.owner row.channel)

pub current-current :
    (now later : ℕ) (g : Option Grant)
    → now ≤ later
    → current later (current now g) ≡ current later g
current-current now later none le = refl
current-current now later (some g) le = ground arith
