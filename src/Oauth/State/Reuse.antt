-- ===== src/Oauth/State/Reuse.antt =====
-- src/mcpgtw/oauth/state_store.py: a refresh token that is used twice.
use mcp_gtw.Base.{
  ℕ, String, true, false, Option, none, some, List, ◌≡◌, ◌≤◌, refl, arith, text_eq, ◌==◌, ==_iff,
  ◌&&◌, not, ltb, subset, is_some, Bool-cases, Option-cases, inl, inr, ap, sym, ◌∙◌, subst,
}
use mcp_gtw.Errors.{Result, ok}
use mcp_gtw.Oauth.State.{StateStore, Row, Payload, find, delete, delete_expired, update, rotate}
use mcp_gtw.Oauth.State.Table.{
  IsKeyed, keep_if-IsKeyed, update-IsKeyed, append-IsKeyed, find-update, find-append, find-delete,
  find-delete_expired,
}
use mcp_gtw.Oauth.State.Rotation.{rotate-IsRotated, rotate_absent, rotate_orphan, rotate_used}

pub delete_expired-IsKeyed :
    (now : ℕ) (rows : List Row) → IsKeyed rows → IsKeyed (delete_expired now rows)
unfolding delete_expired
delete_expired-IsKeyed now rows h = keep_if-IsKeyed (λ row. ltb now row.expires) rows h

pub delete-IsKeyed :
    (kind key : String) (rows : List Row) → IsKeyed rows → IsKeyed (delete kind key rows)
unfolding delete
delete-IsKeyed kind key rows h =
    keep_if-IsKeyed (λ row. not (row.kind == kind && row.key == key)) rows h

-- a rotation that is refused, and after which a successor is refused too
abbrev pub EndsFamily :
    (String → String)
    → ℕ
    → String
    → String
    → List String
    → String
    → String
    → StateStore
    → String
    → Type 0
EndsFamily digest later secret client scopes other successor t resource =
    let u = rotate digest later secret client resource scopes other t in
    (u.0 ≡ ok none)
    × ((latest : ℕ) (anyone anything : String) (wanted : List String) (third : String)
        → later ≤ latest
        → (rotate digest latest successor anyone anything wanted third u.1).0 ≡ ok none)

-- a table that holds a used token and its successor, which expire together
module _ (digest : String → String) (t : StateStore) (used next : Row) (secret successor : String)
    (keyed : IsKeyed t.rows) (used_found : find "refresh" (digest secret) t.rows ≡ some used)
    (next_found : find "refresh" (digest successor) t.rows ≡ some next)
    (is_used : used.payload.used ≡ true) (together : next.expires ≡ used.expires)
    (related : next.payload.family ≡ used.payload.family) where
  successor-refused :
      (later latest : ℕ) (client resource : String) (scopes : List String) (other : String)
      → later ≤ latest
      → (rotate digest latest successor client resource scopes other (record t {
        rows = delete "family" (digest used.payload.family) (delete_expired later t.rows);
      })).0
        ≡ ok none
  successor-refused later latest client resource scopes other le =
      let live = delete_expired later t.rows in
      let live_keyed = delete_expired-IsKeyed later t.rows keyed in
      let family = digest used.payload.family in
      let rows = delete "family" family live in
      let gone = delete-IsKeyed "family" family live live_keyed in
      let u : StateStore = record t { rows = rows } in
      let one = find-delete_expired later t.rows "refresh" (digest successor) keyed in
      let two = find-delete "family" family live "refresh" (digest successor) in
      let three = find-delete_expired latest rows "refresh" (digest successor) gone in
      let four = find-delete "family" family live "family" family in
      let five = find-delete_expired latest rows "family" family gone in
      elim (Option-cases (find "refresh" (digest successor) (delete_expired latest rows))) [
        | inl h ↦
            ap (λ (x : Result (Option (Payload × String)) × StateStore). x.0)
              (rotate_absent digest latest successor client resource scopes other u h)
        | inr (row, h) ↦
            let same : row ≡ next = ground (arith, one, two, three) in
            let key : digest row.payload.family ≡ family =
              ap digest (ap (λ (x : Row). x.payload.family) same ∙ related) in
            let orphan : is_some (find "family" family (delete_expired latest rows)) ≡ false =
              ground (arith, four, five, ==_iff family family) in
            rotate_orphan digest latest successor client resource scopes other u row h (
              subst (λ k. is_some (find "family" k (delete_expired latest rows)) ≡ false) (sym key)
                orphan)
      ]

  -- what is left if both had expired
  successor-expired :
      (later latest : ℕ) (client resource : String) (scopes : List String) (other : String)
      → later ≤ latest
      → ltb later used.expires ≡ false
      → (rotate digest latest successor client resource scopes other
          (record t { rows = delete_expired later t.rows })).0
        ≡ ok none
  successor-expired later latest client resource scopes other le late =
      let live = delete_expired later t.rows in
      let live_keyed = delete_expired-IsKeyed later t.rows keyed in
      let one = find-delete_expired later t.rows "refresh" (digest successor) keyed in
      let three = find-delete_expired latest live "refresh" (digest successor) live_keyed in
      ap (λ (x : Result (Option (Payload × String)) × StateStore). x.0)
        (rotate_absent digest latest successor client resource scopes other
          (record t { rows = live }) (ground arith))

  -- the used token is refused, and so is its successor from then on
  reuse-refused :
      (later : ℕ) (scopes : List String) (other : String)
      → subset scopes used.payload.scopes ≡ true
      → EndsFamily digest later secret used.payload.client_id scopes other successor t
          used.payload.resource
  reuse-refused later scopes other sub =
      let swept = find-delete_expired later t.rows "refresh" (digest secret) keyed in
      elim (Bool-cases (ltb later used.expires)) [
        | inl alive ↦
            let refused =
              rotate_used digest later secret used.payload.client_id used.payload.resource scopes
                other t used (ground arith) refl refl sub is_used in
            rw refused (
              refl,
              λ latest client resource wanted third le.
                  successor-refused later latest client resource wanted third le,
            )
        | inr late ↦
            let refused =
              rotate_absent digest later secret used.payload.client_id used.payload.resource scopes
                other t (ground arith) in
            rw refused (
              refl,
              λ latest client resource wanted third le.
                  successor-expired later latest client resource wanted third le late,
            )
      ]

-- A rotation returned a successor. If the next call presents the old token again, for the same client
-- and resource and the same scopes, then it is refused, and a call after it that presents the
-- successor is refused too, for whatever client, resource and scopes. The second of the
-- two calls does not come before the first.
pub rotate-reuse :
    (digest : String → String) (now later : ℕ) (secret client resource successor other : String)
    (scopes : List String) (s : StateStore) (next : Payload) (t : StateStore)
    → IsKeyed s.rows
    → rotate digest now secret client resource scopes successor s ≡ (ok (some (next, successor)), t)
    → EndsFamily digest later secret client scopes other successor t resource
rotate-reuse digest now later secret client resource successor other scopes s next t keyed e =
    let (row, found, c, r, sub, fresh, family, free, is_next, is_rows) =
      rotate-IsRotated digest now secret client resource scopes successor s next t e in
    let rows = delete_expired now s.rows in
    let used_payload : Payload = record row.payload { used = true } in
    let used : Row = record row { payload = used_payload } in
    let new : Row = record {
      kind = "refresh";
      key = digest successor;
      payload = next;
      expires = row.expires;
    } in
    let updated = update "refresh" (digest secret) used_payload rows in
    let at_old =
      find-update "refresh" (digest secret) used_payload rows "refresh" (digest secret) in
    let at_new =
      find-update "refresh" (digest secret) used_payload rows "refresh" (digest successor) in
    let end_old = find-append updated new "refresh" (digest secret) in
    let end_new = find-append updated new "refresh" (digest successor) in
    let keyed_rows = delete_expired-IsKeyed now s.rows keyed in
    let keyed_t : IsKeyed t.rows =
      subst (λ (l : List Row). IsKeyed l) (sym is_rows)
        (append-IsKeyed updated new
          (update-IsKeyed "refresh" (digest secret) used_payload rows keyed_rows)
          (ground (arith, at_new))) in
    let old_row : find "refresh" (digest secret) t.rows ≡ some used =
      subst (λ (l : List Row). find "refresh" (digest secret) l ≡ some used) (sym is_rows)
        (ground (arith, at_old, end_old, ==_iff (digest secret) (digest secret))) in
    let new_row : find "refresh" (digest successor) t.rows ≡ some new =
      subst (λ (l : List Row). find "refresh" (digest successor) l ≡ some new) (sym is_rows)
        (ground (arith, at_new, end_new, ==_iff (digest successor) (digest successor))) in
    let base =
      reuse-refused digest t used new secret successor keyed_t old_row new_row refl refl
        (ap (λ (x : Payload). x.family) is_next) later scopes other sub in
    subst (λ x. EndsFamily digest later secret client scopes other successor t x) r
      (subst (λ x. EndsFamily digest later secret x scopes other successor t row.payload.resource) c
        base)
