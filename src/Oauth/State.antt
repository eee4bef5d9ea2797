-- ===== src/Oauth/State.antt =====
-- src/mcpgtw/oauth/state_store.py: `SqliteOAuthStateStore`. The table is a list of rows, and each
-- operation is one transaction, which is rolled back if it raises. The digest of a secret and the new
-- secrets of `secrets.token_urlsafe` are arguments. A database that does not answer raises
-- `verifier_unavailable` and is not modelled beyond the one constraint that the source relies on.
pub mod Table
pub mod Invariant
pub mod Rotation
pub mod Reuse
pub mod Single
pub mod Tests
use mcp_gtw.Base.{
  ℕ, String, Bool, true, false, Option, none, some, List, [], ◌∷◌, ◌++◌, text_eq, ◌==◌, ◌&&◌, ◌||◌,
  not, ltb, leb, ◌+◌, length, keep_if, subset, is_some, if◌then◌else◌,
}
use mcp_gtw.Json.{Fields}
use mcp_gtw.Errors.{Result, ok, err, value_error, other}

-- a payload, by the fields that the store reads; the payloads that the authorization server puts have
-- every field that is read of their kind, and a field that is not there is empty here
pub record Payload : Type 0 where
  pub subject : String
  pub client_id : String
  pub resource : String
  pub scopes : List String
  pub family : String
  pub used : Bool
  pub rest : Fields

pub record Row : Type 0 where
  pub kind : String
  pub key : String
  pub payload : Payload
  pub expires : ℕ

pub record StateStore : Type 0 where
  pub maximum_records : ℕ
  pub rows : List Row

-- `__init__`, on a path where no table is yet
unfoldable pub open_state_store : String → ℕ → Result StateStore
open_state_store path maximum_records =
    if path == "" || (path == ":memory:" || ltb maximum_records 1)
    then err (value_error "Durable OAuth storage and finite capacity are required")
    else ok (record { maximum_records = maximum_records; rows = [] })

-- WHERE kind=? AND key=?
abbrev pub matches : String → String → Row → Bool
matches kind key row = row.kind == kind && row.key == key

unfoldable pub find : String → String → List Row → Option Row
find kind key [] = none
find kind key (row ∷ rows) = if matches kind key row then some row else find kind key rows

unfoldable pub delete : String → String → List Row → List Row
delete kind key rows = keep_if (λ row. not (matches kind key row)) rows

unfoldable pub delete_expired : ℕ → List Row → List Row
delete_expired now rows = keep_if (λ row. ltb now row.expires) rows

-- INSERT … ON CONFLICT(kind,key) DO UPDATE
unfoldable pub upsert : Row → List Row → List Row
upsert new [] = new ∷ []
upsert new (row ∷ rows) = if matches new.kind new.key row then new ∷ rows else row ∷ upsert new rows

-- UPDATE oauth_state SET payload=? WHERE kind=? AND key=?
unfoldable pub update : String → String → Payload → List Row → List Row
update kind key payload [] = []
update kind key payload (row ∷ rows) =
    (if matches kind key row then record row { payload = payload } else row)
    ∷ update kind key payload rows

abbrev pub payload_of : Option Row → Option Payload
payload_of none = none
payload_of (some row) = some row.payload

-- the kinds of records that `revoke_subject` deletes
abbrev pub has_subject : String → Bool
has_subject kind = kind == "family" || kind == "login" || kind == "code"

module _ (digest : String → String) where
  unfoldable pub put :
      ℕ → String → Payload → ℕ → String → StateStore → Result (Unit {0}) × StateStore
  put now kind payload ttl secret s =
      let rows = delete_expired now s.rows in
      if not (is_some (find kind (digest secret) rows)) && leb s.maximum_records (length rows)
      then (err (value_error "OAuth storage capacity exceeded"), s)
      else (
        ok tt,
        record s {
          rows =
              upsert
                (record {
                  kind = kind;
                  key = digest secret;
                  payload = payload;
                  expires = now + ttl;
                })
                rows;
        },
      )

  unfoldable pub get : ℕ → String → String → Bool → StateStore → Option Payload × StateStore
  get now kind secret consume s =
      let rows = delete_expired now s.rows in
      (
        payload_of (find kind (digest secret) rows),
        record s { rows = if consume then delete kind (digest secret) rows else rows },
      )

  unfoldable pub remove : ℕ → String → String → StateStore → StateStore
  remove now kind secret s = record s {
    rows = delete kind (digest secret) (delete_expired now s.rows);
  }

  unfoldable pub revoke_subject : ℕ → String → StateStore → StateStore
  revoke_subject now subject s = record s {
    rows =
        keep_if (λ row. not (has_subject row.kind && row.payload.subject == subject))
          (delete_expired now s.rows);
  }

  -- `rotate` of an unused refresh token whose family stands
  unfoldable pub succeed :
      String
      → List String
      → String
      → Row
      → List Row
      → StateStore
      → Result (Option (Payload × String)) × StateStore
  succeed secret scopes successor row rows s =
      let next = record row.payload { used = false; scopes = scopes } in
      if leb s.maximum_records (length rows)
      then (err (value_error "OAuth storage capacity exceeded"), s)
      else if is_some (find "refresh" (digest successor) rows)
      then (err (other "verifier_unavailable"), s)
      else (
        ok (some (next, successor)),
        record s {
          rows =
              update "refresh" (digest secret) (record row.payload { used = true }) rows
              ++ record {
                kind = "refresh";
                key = digest successor;
                payload = next;
                expires = row.expires;
              }
                ∷ [];
        },
      )

  -- `rotate` of a record that the request matches
  unfoldable pub rotate_matching :
      String
      → List String
      → String
      → Row
      → List Row
      → StateStore
      → Result (Option (Payload × String)) × StateStore
  rotate_matching secret scopes successor row rows s =
      let family_key = digest row.payload.family in
      if row.payload.used
      then (ok none, record s { rows = delete "family" family_key rows })
      else if is_some (find "family" family_key rows)
      then succeed secret scopes successor row rows s
      else (ok none, record s { rows = rows })

  unfoldable pub rotate :
      ℕ
      → String
      → String
      → String
      → List String
      → String
      → StateStore
      → Result (Option (Payload × String)) × StateStore
  rotate now secret client resource scopes successor s =
      let rows = delete_expired now s.rows in
      elim (find "refresh" (digest secret) rows) [
        | none ↦ (ok none, record s { rows = rows })
        | some row ↦
            if row.payload.client_id == client
              && (row.payload.resource == resource && subset scopes row.payload.scopes)
            then rotate_matching secret scopes successor row rows s
            else (ok none, record s { rows = rows })
      ]
