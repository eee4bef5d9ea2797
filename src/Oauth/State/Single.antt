-- ===== src/Oauth/State/Single.antt =====
-- src/mcpgtw/oauth/state_store.py: what `get` answers after `put`, after a consumption, and after the
-- records of a subject were revoked.
use mcp_gtw.Base.{
  ℕ, String, Bool, true, false, Option, none, some, List, [], ◌∷◌, ◌≡◌, ◌≤◌, refl, arith, text_eq,
  ◌==◌, ==_iff, ◌&&◌, not, ltb, leb, ◌+◌, length, keep_if, is_some, Bool-cases, Option-cases, inl,
  inr, if◌then◌else◌,
}
use mcp_gtw.Errors.{Result, ok, err}
use mcp_gtw.Oauth.State.{
  StateStore, Row, Payload, find, delete, delete_expired, upsert, has_subject, put, get,
  revoke_subject,
}
use mcp_gtw.Oauth.State.Table.{
  IsKeyed, keep_if-IsKeyed, upsert-IsKeyed, find-upsert, find-delete, find-delete_expired,
}
use mcp_gtw.Oauth.State.Reuse.{delete_expired-IsKeyed, delete-IsKeyed}

find-keep_if :
    (p : Row → Bool) (rows : List Row) (k j : String)
    → IsKeyed rows
    → find k j (keep_if p rows)
      ≡ (elim (find k j rows) [ none ↦ none | some row ↦ if p row then some row else none ])
unfolding find
find-keep_if p [] k j h = refl
find-keep_if p (row ∷ rows) k j h =
    ground (arith, find-keep_if p rows k j h.1, ==_iff row.kind k, ==_iff row.key j)

find-kind : (rows : List Row) (k j : String) (row : Row) → find k j rows ≡ some row → row.kind ≡ k
unfolding find
find-kind [] k j row e = cc
find-kind (r ∷ rows) k j row e = ground (arith, find-kind rows k j row, ==_iff r.kind k)

-- A record that `get` consumed is never answered again, unless it is put again.
pub get-consumed :
    (digest : String → String) (s : StateStore) (now later : ℕ) (kind secret : String)
    (consume : Bool)
    → IsKeyed s.rows
    → (get digest later kind secret consume (get digest now kind secret true s).1).0 ≡ none
unfolding get
get-consumed digest s now later kind secret consume keyed =
    let rows = delete_expired now s.rows in
    let live = delete_expired-IsKeyed now s.rows keyed in
    let key = digest secret in
    ground (
      arith,
      find-delete kind key rows kind key,
      find-delete_expired later (delete kind key rows) kind key (delete-IsKeyed kind key rows live),
      ==_iff kind kind,
      ==_iff key key,
    )

-- whether a call of `put` returned
abbrev pub returns : Result (Unit {0}) → Bool
returns (ok done) = true
returns (err e) = false

-- After a `put` that returned, `get` answers its payload for the same kind and digest until the
-- time-to-live has passed, and every other record as before; after one that raised, every record as
-- before.
pub get-put :
    (digest : String → String) (s : StateStore) (now later ttl : ℕ) (kind secret : String)
    (payload : Payload) (k other : String) (consume : Bool)
    → IsKeyed s.rows
    → now ≤ later
    → (get digest later k other consume (put digest now kind payload ttl secret s).1).0 ≡ (
        if returns (put digest now kind payload ttl secret s).0
          && (kind == k && digest secret == digest other)
        then (if ltb later (now + ttl) then some payload else none)
        else (get digest later k other consume s).0)
unfolding put get
get-put digest s now later ttl kind secret payload k other consume keyed le =
    let rows = delete_expired now s.rows in
    let live = delete_expired-IsKeyed now s.rows keyed in
    let new : Row = record {
      kind = kind;
      key = digest secret;
      payload = payload;
      expires = now + ttl;
    } in
    let before = find-delete_expired later s.rows k (digest other) keyed in
    let first = find-delete_expired now s.rows k (digest other) keyed in
    let upserted = find-upsert new rows k (digest other) in
    let after =
      find-delete_expired later (upsert new rows) k (digest other) (upsert-IsKeyed new rows live) in
    elim (Bool-cases
      (not (is_some (find kind (digest secret) rows)) && leb s.maximum_records (length rows))) [
        | inl full ↦ ground (arith, before)
        | inr room ↦ elim (Option-cases (find k (digest other) s.rows)) [
          | inl e ↦ ground (arith, before, first, upserted, after)
          | inr (row, e) ↦ ground (arith, before, first, upserted, after)
        ]
      ]

-- what `revoke_subject` leaves of an answer
abbrev pub unless_subject : String → String → Option Payload → Option Payload
unless_subject kind subject none = none
unless_subject kind subject (some payload) =
    if has_subject kind && payload.subject == subject then none else some payload

-- After `revoke_subject` no family, login or code of the subject is answered, and every other record
-- is answered as before.
pub get-revoke_subject :
    (digest : String → String) (s : StateStore) (now later : ℕ) (subject k secret : String)
    (consume : Bool)
    → IsKeyed s.rows
    → now ≤ later
    → (get digest later k secret consume (revoke_subject digest now subject s)).0
      ≡ unless_subject k subject (get digest later k secret consume s).0
unfolding revoke_subject get
get-revoke_subject digest s now later subject k secret consume keyed le =
    let p : Row → Bool = λ row. not (has_subject row.kind && row.payload.subject == subject) in
    let rows = delete_expired now s.rows in
    let live = delete_expired-IsKeyed now s.rows keyed in
    let before = find-delete_expired later s.rows k (digest secret) keyed in
    let first = find-delete_expired now s.rows k (digest secret) keyed in
    let kept = find-keep_if p rows k (digest secret) live in
    let after =
      find-delete_expired later (keep_if p rows) k (digest secret) (keep_if-IsKeyed p rows live) in
    elim (Option-cases (find k (digest secret) s.rows)) [
      | inl e ↦ ground (arith, before, first, kept, after)
      | inr (row, e) ↦
          let kind = find-kind s.rows k (digest secret) row e in
          ground (arith, before, first, kept, after, kind)
    ]
