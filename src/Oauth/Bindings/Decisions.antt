-- ===== src/Oauth/Bindings/Decisions.antt =====
-- src/mcpgtw/oauth/session_binding.py: what `bind` and `accepts` decide, and whom a session belongs to
-- afterwards.
use mcp_gtw.Base.{
  ℕ, String, Bool, true, Option, none, some, [], ◌∷◌, ◌≡◌, ◌≤◌, ◌↔◌, refl, arith, text_eq, ◌==◌,
  ==_iff, ltb, leb, not, ◌||◌, ◌&&◌, ◌+◌, length, Bool-cases, Option-cases, inl, inr, if◌then◌else◌,
}
use mcp_gtw.Dict.{get, pop}
use mcp_gtw.Dict.Laws.{IsDistinct, get-set, get-pop}
use mcp_gtw.Oauth.Context.{AccessContext, Identity, identity_eq}
use mcp_gtw.Oauth.Bindings.{Bindings, identity, purge, renew, bind, accepts}
use mcp_gtw.Oauth.Bindings.Order.{Entries, live, purge-live, IsOrdered}

-- whom a session belongs to
abbrev pub owner : ℕ → Bindings → String → Option Identity
owner now s id = elim (get s.bindings id) [
  | none ↦ none
  | some e ↦ if ltb now e.1 then some e.0 else none
]

get-live :
    (now : ℕ) (d : Entries) (j : String)
    → IsDistinct d
    → get (live now d) j
      ≡ (elim (get d j) [ none ↦ none | some e ↦ if ltb now e.1 then some e else none ])
unfolding get
get-live now [] j h = refl
get-live now ((k, (i, e)) ∷ rest) j h = ground (arith, get-live now rest j h.1, ==_iff k j)

owner-renew :
    (now later : ℕ) (id j : String) (i : Identity) (s : Bindings)
    → owner later (renew now id i s) j ≡ (
        if id == j
        then (if ltb later (now + s.idle_seconds) then some i else none)
        else owner later s j)
unfolding renew
owner-renew now later id j i s =
    ground
      (arith, get-set (pop s.bindings id) id (i, now + s.idle_seconds) j, get-pop s.bindings id j)

owner-purge :
    (now later : ℕ) (j : String) (s : Bindings)
    → IsOrdered now s
    → now ≤ later
    → owner later (record s { bindings = purge now s.bindings }) j ≡ owner later s j
owner-purge now later j s h le =
    rw (purge-live now s.bindings h.ascending)
      (ground (arith, get-live now s.bindings j h.distinct))

-- the owner after a call that was answered, by whether it was admitted
abbrev pub OwnerAfter : ℕ → Bool → String → Identity → Bindings → Bindings → Type 0
OwnerAfter now admitted id i s t =
    (later : ℕ) (j : String)
    → now ≤ later
    → owner later t j ≡ (
        if admitted && id == j
        then (if ltb later (now + s.idle_seconds) then some i else none)
        else owner later s j)

-- `accepts` admits a request exactly when the session is bound, unexpired, to the identity of the
-- request. It then extends the binding by the idle time; otherwise every session belongs to whom it
-- did.
pub accepts-owner :
    (now : ℕ) (id : String) (context : AccessContext) (s : Bindings)
    → (((accepts now id context s).0 ≡ true) ↔ (owner now s id ≡ some (identity context)))
      × OwnerAfter now
          (accepts now id context s).0
          id
          (identity context)
          s
          (accepts now id context s).1
unfolding accepts
accepts-owner now id context s = elim (Option-cases (get s.bindings id)) [
  | inl e ↦ rw (e, accepts) (ground arith, λ later j le. refl)
  | inr (existing, e) ↦
      elim (Bool-cases (leb existing.1 now || not (existing.0 == identity context))) [
        | inl refused ↦
            (ground (arith, ==_iff existing.0 (identity context)), λ later j le. ground arith)
        | inr admitted ↦ (
          ground (arith, ==_iff existing.0 (identity context)),
          λ later j le. ground (
            arith,
            owner-renew now later id j existing.0 s,
            ==_iff existing.0 (identity context),
          ),
        )
      ]
]

-- whether `bind` admits, by the owner of the session and the number of sessions that are bound
abbrev pub admits : ℕ → Option Identity → Identity → Bindings → Bool
admits now none i s = ltb (length (live now s.bindings)) s.maximum_sessions
admits now (some existing) i s = existing == i

-- `bind` on the bindings of a running gateway admits a session that belongs to nobody if there is
-- room among those that have not expired, and one that belongs to somebody only for the same
-- identity. It then binds the session for the idle time; otherwise every session belongs to whom it
-- did.
pub bind-owner :
    (now : ℕ) (id : String) (context : AccessContext) (s : Bindings)
    → IsOrdered now s
    → ((bind now id context s).0 ≡ admits now (owner now s id) (identity context) s)
      × OwnerAfter now (bind now id context s).0 id (identity context) s (bind now id context s).1
unfolding bind
bind-owner now id context s h =
    let purged = record s { bindings = purge now s.bindings } in
    let same_live = purge-live now s.bindings h.ascending in
    let found = owner-purge now now id s h (ground arith) in
    let kept = λ (later : ℕ) (j : String) (le : now ≤ later). owner-purge now later j s h le in
    let alive = get-live now s.bindings id h.distinct in
    elim (Option-cases (get purged.bindings id)) [
      | inl e ↦ elim (Bool-cases (leb s.maximum_sessions (length purged.bindings))) [
        | inl full ↦
            (ground (arith, same_live, alive), λ later j le. ground (arith, kept later j le))
        | inr room ↦ (
          ground (arith, same_live, alive),
          λ later j le.
              ground (arith, kept later j le, owner-renew now later id j (identity context) purged),
        )
      ]
      | inr (existing, e) ↦ elim (Bool-cases (existing.0 == identity context)) [
        | inl same ↦ (
          ground (arith, same_live, alive),
          λ later j le.
              ground (arith, kept later j le, owner-renew now later id j (identity context) purged),
        )
        | inr other ↦
            (ground (arith, same_live, alive), λ later j le. ground (arith, kept later j le))
      ]
    ]
