-- ===== src/Oauth/Grants/Sqlite/Contract.antt =====
-- src/mcpgtw/oauth/sqlite_grants.py: the durable store keeps what a store of grants promises.
use mcp_gtw.Base.{
  ℕ, String, Bool, true, false, none, some, List, [], ◌≡◌, ◌≤◌, refl, arith, text_eq, ◌==◌, ◌&&◌,
  not, ltb, leb, length, any_of, Bool-cases, inl, inr, if◌then◌else◌,
}
use mcp_gtw.Oauth.Grants.{Principal, IsGrantStore, current, IsAnswer, granted_to, is_ok}
use mcp_gtw.Oauth.Grants.Sqlite.{
  Row, SqliteGrants, matches, delete_expired, finish, execute, query, sqlite_grants,
}
use mcp_gtw.Oauth.Grants.Sqlite.Rows.{
  lookup_rows, lookup, IsKeyed, lookup-delete_expired, lookup-upsert, lookup-revoked,
  lookup-removed, contains-select, upsert-IsKeyed, keep_if-IsKeyed, current-current,
}

delete_expired-IsKeyed :
    (now : ℕ) (rows : List Row) → IsKeyed rows → IsKeyed (delete_expired now rows)
unfolding delete_expired
delete_expired-IsKeyed now rows h = keep_if-IsKeyed (λ row. ltb now row.expires) rows h

abbrev IsValid : SqliteGrants → Type 0
IsValid s = IsKeyed s.rows

grant_row : Principal → String → Row
grant_row p id = record {
  owner = p.principal_id;
  channel = id;
  expires = p.expires_at;
  scopes = p.scopes;
}

module _ (now later : ℕ) (s : SqliteGrants) (h : IsKeyed s.rows) (le : now ≤ later) where
  live_rows : List Row
  live_rows = delete_expired now s.rows

  current-live :
      (o c : String)
      → current later (lookup_rows live_rows o c) ≡ current later (lookup_rows s.rows o c)
  unfolding live_rows
  current-live o c = ground (
    arith,
    lookup-delete_expired now s.rows o c h,
    current-current now later (lookup_rows s.rows o c),
  )

  grant-grants :
      (works : Bool) (p : Principal) (id : String) (o c : String)
      → current later (lookup ((sqlite_grants works).grant now p id s).1 o c) ≡ (
          if is_ok ((sqlite_grants works).grant now p id s).0 && (p.principal_id == o && id == c)
          then current later (some (granted_to p))
          else current later (lookup s o c))
  unfolding sqlite_grants query execute finish live_rows grant_row
  grant-grants false p id o c = refl
  grant-grants true p id o c =
      elim (Bool-cases (
        not (any_of (matches p.principal_id id) live_rows)
        && leb s.maximum_grants (length live_rows))) [
          | inl full ↦ ground arith
          | inr room ↦
              ground (arith, lookup-upsert (grant_row p id) live_rows o c, current-live o c)
        ]

  revoke-revokes :
      (works : Bool) (p : Principal) (id : String) (o c : String)
      → current later (lookup ((sqlite_grants works).revoke now p id s).1 o c) ≡ (
          if is_ok ((sqlite_grants works).revoke now p id s).0 && (p.principal_id == o && id == c)
          then none
          else current later (lookup s o c))
  unfolding sqlite_grants query execute finish live_rows
  revoke-revokes false p id o c = refl
  revoke-revokes true p id o c =
      ground (arith, lookup-revoked p.principal_id id live_rows o c, current-live o c)

  remove-removes :
      (works : Bool) (id : String) (o c : String)
      → current later (lookup ((sqlite_grants works).remove_channel now id s).1 o c) ≡ (
          if is_ok ((sqlite_grants works).remove_channel now id s).0 && id == c
          then none
          else current later (lookup s o c))
  unfolding sqlite_grants query execute finish live_rows
  remove-removes false id o c = refl
  remove-removes true id o c = ground (arith, lookup-removed id live_rows o c, current-live o c)

  channels-keeps :
      (works : Bool) (p : Principal) (o c : String)
      → current later (lookup ((sqlite_grants works).channels now p s).1 o c)
        ≡ current later (lookup s o c)
  unfolding sqlite_grants query execute finish live_rows
  channels-keeps false p o c = refl
  channels-keeps true p o c = current-live o c

channels-IsAnswer :
    (works : Bool) (now : ℕ) (p : Principal) (s : SqliteGrants)
    → IsValid s
    → IsAnswer
        (λ id. current now (lookup s p.principal_id id))
        p
        ((sqlite_grants works).channels now p s).0
unfolding sqlite_grants query execute finish
channels-IsAnswer false now p s h = tt
channels-IsAnswer true now p s h = λ id. ground (
  arith,
  contains-select p (delete_expired now s.rows) id (delete_expired-IsKeyed now s.rows h),
  lookup-delete_expired now s.rows p.principal_id id h,
)

module _ (now : ℕ) (s : SqliteGrants) (h : IsValid s) where
  grant-IsValid :
      (works : Bool) (p : Principal) (id : String)
      → IsValid ((sqlite_grants works).grant now p id s).1
  unfolding sqlite_grants query execute finish grant_row
  grant-IsValid false p id = h
  grant-IsValid true p id =
      let rows = delete_expired now s.rows in
      elim (Bool-cases
        (not (any_of (matches p.principal_id id) rows) && leb s.maximum_grants (length rows))) [
          | inl full ↦ rw (full, sqlite_grants) h
          | inr room ↦
              rw (room, sqlite_grants)
                (upsert-IsKeyed (grant_row p id) rows (delete_expired-IsKeyed now s.rows h))
        ]

  rest-IsValid :
      (works : Bool) (p : Principal) (id : String)
      → IsValid ((sqlite_grants works).channels now p s).1
        × IsValid ((sqlite_grants works).revoke now p id s).1
        × IsValid ((sqlite_grants works).remove_channel now id s).1
  unfolding sqlite_grants query execute finish
  rest-IsValid false p id = (h, h, h)
  rest-IsValid true p id =
      let live = delete_expired-IsKeyed now s.rows h in
      (
        live,
        keep_if-IsKeyed (λ row. not (matches p.principal_id id row)) (delete_expired now s.rows)
            live,
        keep_if-IsKeyed (λ row. not (row.channel == id)) (delete_expired now s.rows) live,
      )

abbrev nobody : Principal
nobody = record { principal_id = ""; scopes = []; expires_at = 0 }

-- The durable store keeps the promises of a store of grants, whether or not the database answers: a
-- grant that returns stands until it expires, a revocation and a removal that return take exactly
-- what they name, a call that raises changes nothing that has not expired, and `channels` lists
-- exactly the channels that are granted, unexpired, with every scope of the principal.
pub sqlite_grants-IsGrantStore :
    (works : Bool) → IsGrantStore (sqlite_grants works) (λ s. IsKeyed s.rows) lookup
sqlite_grants-IsGrantStore works = record {
  channels-valid = λ now p s h. (rest-IsValid now s h works p "").0;
  grant-valid = λ now p id s h. grant-IsValid now s h works p id;
  revoke-valid = λ now p id s h. (rest-IsValid now s h works p id).1;
  remove-valid = λ now id s h. (rest-IsValid now s h works nobody id).2;
  channels-answer = λ now p s h. channels-IsAnswer works now p s h;
  channels-keeps = λ now later p s o c h le. channels-keeps now later s h le works p o c;
  grant-grants = λ now later p id s o c h le. grant-grants now later s h le works p id o c;
  revoke-revokes = λ now later p id s o c h le. revoke-revokes now later s h le works p id o c;
  remove-removes = λ now later id s o c h le. remove-removes now later s h le works id o c;
}
