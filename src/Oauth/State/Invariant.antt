-- ===== src/Oauth/State/Invariant.antt =====
-- src/mcpgtw/oauth/state_store.py: the table has one row for a key and at most the configured number of
-- rows, after every operation.
use mcp_gtw.Base.{
  ℕ, String, Bool, true, false, List, [], ◌∷◌, ◌≤◌, arith, text_eq, ◌==◌, ◌&&◌, not, ltb, leb, ◌+◌,
  length, length-append, keep_if, length-keep_if, subset, is_some, Bool-cases, Option-cases, inl,
  inr,
}
use mcp_gtw.Oauth.State.{
  StateStore, Row, Payload, matches, find, delete, delete_expired, update, has_subject, put, get,
  remove, revoke_subject, succeed, rotate_matching, rotate,
}
use mcp_gtw.Oauth.State.Table.{
  IsKeyed, keep_if-IsKeyed, upsert-IsKeyed, update-IsKeyed, append-IsKeyed, find-update,
  length-update, length-upsert,
}

pub record IsSound (s : StateStore) : Type 0 where
  pub keyed : IsKeyed s.rows
  pub bounded : length s.rows ≤ s.maximum_records

-- the operations of the store
pub data Call : Type 0 where
  puts : ℕ → String → Payload → ℕ → String → Call
  gets : ℕ → String → String → Bool → Call
  removes : ℕ → String → String → Call
  revokes : ℕ → String → Call
  rotates : ℕ → String → String → String → List String → String → Call

module _ (digest : String → String) where
  unfoldable pub call : Call → StateStore → StateStore
  call (puts now kind payload ttl secret) s = (put digest now kind payload ttl secret s).1
  call (gets now kind secret consume) s = (get digest now kind secret consume s).1
  call (removes now kind secret) s = remove digest now kind secret s
  call (revokes now subject) s = revoke_subject digest now subject s
  call (rotates now secret client resource scopes successor) s =
      (rotate digest now secret client resource scopes successor s).1

  unfoldable pub calls : List Call → StateStore → StateStore
  calls [] s = s
  calls (c ∷ cs) s = calls cs (call c s)

  module _ (s : StateStore) (h : IsSound s) where
    live-IsSound : (now : ℕ) → IsSound (record s { rows = delete_expired now s.rows })
    unfolding delete_expired
    live-IsSound now = record {
      keyed = keep_if-IsKeyed (λ row. ltb now row.expires) s.rows h.keyed;
      bounded = ground (arith, h.bounded, length-keep_if (λ row. ltb now row.expires) s.rows);
    }

    put-IsSound :
        (now : ℕ) (kind : String) (payload : Payload) (ttl : ℕ) (secret : String)
        → IsSound (put digest now kind payload ttl secret s).1
    unfolding put
    put-IsSound now kind payload ttl secret =
        let rows = delete_expired now s.rows in
        let live = live-IsSound now in
        let new : Row = record {
          kind = kind;
          key = digest secret;
          payload = payload;
          expires = now + ttl;
        } in
        elim (Bool-cases
          (not (is_some (find kind (digest secret) rows)) && leb s.maximum_records (length rows))) [
            | inl full ↦ rw (full, put) h
            | inr room ↦
                rw (room, put)
                  (record {
                    keyed = upsert-IsKeyed new rows live.keyed;
                    bounded = ground (arith, length-upsert new rows, live.bounded);
                  })
          ]

    kept-IsSound :
        (p : Row → Bool) (now : ℕ)
        → IsSound (record s { rows = keep_if p (delete_expired now s.rows) })
    kept-IsSound p now =
        let rows = delete_expired now s.rows in
        let live = live-IsSound now in
        record {
          keyed = keep_if-IsKeyed p rows live.keyed;
          bounded = ground (arith, length-keep_if p rows, live.bounded);
        }

    get-IsSound :
        (now : ℕ) (kind secret : String) (consume : Bool)
        → IsSound (get digest now kind secret consume s).1
    unfolding get delete
    get-IsSound now kind secret true =
        kept-IsSound (λ row. not (matches kind (digest secret) row)) now
    get-IsSound now kind secret false = live-IsSound now

    succeed-IsSound :
        (now : ℕ) (secret : String) (scopes : List String) (successor : String) (row : Row)
        → IsSound (succeed digest secret scopes successor row (delete_expired now s.rows) s).1
    unfolding succeed
    succeed-IsSound now secret scopes successor row =
        let rows = delete_expired now s.rows in
        let live = live-IsSound now in
        let used : Payload = record row.payload { used = true } in
        let next : Row = record {
          kind = "refresh";
          key = digest successor;
          payload = record row.payload { used = false; scopes = scopes };
          expires = row.expires;
        } in
        let updated = update "refresh" (digest secret) used rows in
        elim (Bool-cases (leb s.maximum_records (length rows))) [
          | inl full ↦ rw (full, succeed) h
          | inr room ↦ elim (Bool-cases (is_some (find "refresh" (digest successor) rows))) [
            | inl taken ↦ rw (room, taken, succeed) h
            | inr free ↦
                rw (room, free, succeed)
                  (record {
                    keyed =
                        append-IsKeyed updated next
                          (update-IsKeyed "refresh" (digest secret) used rows live.keyed)
                          (ground (
                            arith,
                            find-update "refresh" (digest secret) used rows "refresh"
                                (digest successor),
                          ));
                    bounded = ground (
                      arith,
                      length-append updated (next ∷ []),
                      length-update "refresh" (digest secret) used rows,
                    );
                  })
          ]
        ]

    rotate_matching-IsSound :
        (now : ℕ) (secret : String) (scopes : List String) (successor : String) (row : Row)
        → IsSound
            (rotate_matching digest secret scopes successor row (delete_expired now s.rows) s).1
    unfolding rotate_matching succeed
    rotate_matching-IsSound now secret scopes successor row =
        let rows = delete_expired now s.rows in
        let family_key = digest row.payload.family in
        elim (Bool-cases row.payload.used) [
          | inl used ↦
              rw (used, rotate_matching)
                (unfold delete in
                  kept-IsSound (λ other. not (matches "family" family_key other)) now)
          | inr fresh ↦ elim (Bool-cases (is_some (find "family" family_key rows))) [
            | inl stands ↦
                rw (fresh, stands, rotate_matching)
                  (succeed-IsSound now secret scopes successor row)
            | inr gone ↦ rw (fresh, gone, rotate_matching) (live-IsSound now)
          ]
        ]

    rotate-IsSound :
        (now : ℕ) (secret client resource : String) (scopes : List String) (successor : String)
        → IsSound (rotate digest now secret client resource scopes successor s).1
    unfolding rotate
    rotate-IsSound now secret client resource scopes successor =
        let rows = delete_expired now s.rows in
        elim (Option-cases (find "refresh" (digest secret) rows)) [
          | inl e ↦ rw (e, rotate) (live-IsSound now)
          | inr (row, e) ↦
              elim (Bool-cases (
                row.payload.client_id == client
                && (row.payload.resource == resource && subset scopes row.payload.scopes))) [
                  | inl agrees ↦
                      rw (e, agrees, rotate)
                        (rotate_matching-IsSound now secret scopes successor row)
                  | inr differs ↦ rw (e, differs, rotate) (live-IsSound now)
                ]
        ]

    call-IsSound : (c : Call) → IsSound (call c s)
    unfolding call remove revoke_subject delete
    call-IsSound (puts now kind payload ttl secret) = put-IsSound now kind payload ttl secret
    call-IsSound (gets now kind secret consume) = get-IsSound now kind secret consume
    call-IsSound (removes now kind secret) =
        kept-IsSound (λ row. not (matches kind (digest secret) row)) now
    call-IsSound (revokes now subject) =
        kept-IsSound (λ row. not (has_subject row.kind && row.payload.subject == subject)) now
    call-IsSound (rotates now secret client resource scopes successor) =
        rotate-IsSound now secret client resource scopes successor

  -- Whatever operations follow one another on an empty table, at whatever times and with whatever
  -- digest: one row stands for a kind and a key, and the table has at most the configured number of
  -- rows.
  pub calls-IsSound :
      (maximum : ℕ) (cs : List Call)
      → IsSound (calls cs (record { maximum_records = maximum; rows = [] }))
  unfolding calls
  calls-IsSound maximum cs =
      go cs (record { maximum_records = maximum; rows = [] })
        (record { keyed = tt; bounded = ground arith })
    where
      go : (cs : List Call) (s : StateStore) → IsSound s → IsSound (calls cs s)
      go [] s h = h
      go (c ∷ cs) s h = go cs (call c s) (call-IsSound s h c)
