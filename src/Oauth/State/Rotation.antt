-- ===== src/Oauth/State/Rotation.antt =====
-- src/mcpgtw/oauth/state_store.py: the rotation of refresh tokens. A token that is presented again
-- ends the family of tokens that came from it.
use mcp_gtw.Base.{
  ℕ, String, true, false, none, some, List, [], ◌∷◌, ◌++◌, ◌≡◌, refl, arith, text_eq, ◌==◌, ==_iff,
  ◌&&◌, leb, length, subset, is_some, Bool-cases, Option-cases, inl, inr,
}
use mcp_gtw.Errors.{ok}
use mcp_gtw.Oauth.State.{
  StateStore, Row, Payload, find, delete, delete_expired, update, succeed, rotate_matching, rotate,
}

-- what a rotation that returned a successor found and left
abbrev pub IsRotated :
    (String → String)
    → String
    → String
    → String
    → List String
    → String
    → List Row
    → Payload
    → StateStore
    → Type 0
IsRotated digest secret client resource scopes successor rows next t =
    (row : Row) × (find "refresh" (digest secret) rows ≡ some row)
    × (row.payload.client_id ≡ client)
    × (row.payload.resource ≡ resource)
    × (subset scopes row.payload.scopes ≡ true)
    × (row.payload.used ≡ false)
    × (is_some (find "family" (digest row.payload.family) rows) ≡ true)
    × (find "refresh" (digest successor) rows ≡ none)
    × (next ≡ record row.payload { used = false; scopes = scopes })
    × (t.rows
        ≡ update "refresh" (digest secret) (record row.payload { used = true }) rows
          ++ record {
            kind = "refresh";
            key = digest successor;
            payload = next;
            expires = row.expires;
          }
            ∷ [])

module _ (digest : String → String) where
  succeed-IsRotated :
      (secret client resource : String) (scopes : List String) (successor : String) (row : Row)
      (rows : List Row) (s : StateStore) (next : Payload) (t : StateStore)
      → find "refresh" (digest secret) rows ≡ some row
      → row.payload.client_id ≡ client
      → row.payload.resource ≡ resource
      → subset scopes row.payload.scopes ≡ true
      → row.payload.used ≡ false
      → is_some (find "family" (digest row.payload.family) rows) ≡ true
      → succeed digest secret scopes successor row rows s ≡ (ok (some (next, successor)), t)
      → IsRotated digest secret client resource scopes successor rows next t
  unfolding succeed
  succeed-IsRotated secret client resource scopes successor row rows s next t found c r sub fresh
        family e =
      elim (Bool-cases (leb s.maximum_records (length rows))) [
        | inl full ↦ absurd (ground arith)
        | inr room ↦ elim (Bool-cases (is_some (find "refresh" (digest successor) rows))) [
          | inl taken ↦ absurd (ground arith)
          | inr free ↦
              (row, found, c, r, sub, fresh, family, ground arith, ground arith, ground arith)
        ]
      ]

  -- a rotation that returned a successor
  pub rotate-IsRotated :
      (now : ℕ) (secret client resource : String) (scopes : List String) (successor : String)
      (s : StateStore) (next : Payload) (t : StateStore)
      → rotate digest now secret client resource scopes successor s
        ≡ (ok (some (next, successor)), t)
      → IsRotated digest secret client resource scopes successor (delete_expired now s.rows) next t
  unfolding rotate rotate_matching
  rotate-IsRotated now secret client resource scopes successor s next t e =
      let rows = delete_expired now s.rows in
      elim (Option-cases (find "refresh" (digest secret) rows)) [
        | inl h ↦ absurd (ground arith)
        | inr (row, h) ↦
            elim (Bool-cases (
              row.payload.client_id == client
              && (row.payload.resource == resource && subset scopes row.payload.scopes))) [
                | inr differs ↦ absurd (ground arith)
                | inl agrees ↦ elim (Bool-cases row.payload.used) [
                  | inl used ↦ absurd (ground arith)
                  | inr fresh ↦
                      elim (Bool-cases (is_some (find "family" (digest row.payload.family) rows))) [
                        | inr gone ↦ absurd (ground arith)
                        | inl stands ↦
                            succeed-IsRotated secret client resource scopes successor row rows s
                              next t h (ground (arith, ==_iff row.payload.client_id client))
                              (ground (arith, ==_iff row.payload.resource resource)) (ground arith)
                              fresh stands (ground arith)
                      ]
                ]
              ]
      ]

  -- a token that is not there, or whose family is gone, is refused
  pub rotate_absent :
      (now : ℕ) (secret client resource : String) (scopes : List String) (successor : String)
      (s : StateStore)
      → find "refresh" (digest secret) (delete_expired now s.rows) ≡ none
      → rotate digest now secret client resource scopes successor s
        ≡ (ok none, record s { rows = delete_expired now s.rows })
  unfolding rotate
  rotate_absent now secret client resource scopes successor s h = rw (h, rotate) refl

  pub rotate_orphan :
      (now : ℕ) (secret client resource : String) (scopes : List String) (successor : String)
      (s : StateStore) (row : Row)
      → find "refresh" (digest secret) (delete_expired now s.rows) ≡ some row
      → is_some (find "family" (digest row.payload.family) (delete_expired now s.rows)) ≡ false
      → (rotate digest now secret client resource scopes successor s).0 ≡ ok none
  unfolding rotate rotate_matching
  rotate_orphan now secret client resource scopes successor s row h gone = ground arith

  pub rotate_used :
      (now : ℕ) (secret client resource : String) (scopes : List String) (successor : String)
      (s : StateStore) (row : Row)
      → find "refresh" (digest secret) (delete_expired now s.rows) ≡ some row
      → row.payload.client_id ≡ client
      → row.payload.resource ≡ resource
      → subset scopes row.payload.scopes ≡ true
      → row.payload.used ≡ true
      → rotate digest now secret client resource scopes successor s ≡ (
        ok none,
        record s { rows = delete "family" (digest row.payload.family) (delete_expired now s.rows) },
      )
  unfolding rotate rotate_matching
  rotate_used now secret client resource scopes successor s row h c r sub used =
      ground (arith, ==_iff row.payload.client_id client, ==_iff row.payload.resource resource)
