-- ===== src/Oauth/Bindings/Order.antt =====
-- src/mcpgtw/oauth/session_binding.py: the bindings stand in the order of their deadlines, which is
-- what the loop of `_purge` relies on.
use mcp_gtw.Base.{
  ℕ, suc, String, true, false, [], ◌∷◌, ◌++◌, ◌≡◌, ◌≤◌, refl, arith, text_eq, ◌==◌, ltb, leb, not,
  ◌||◌, ◌+◌, length, length-append, Bool-cases, Option-cases, inl, inr, if◌then◌else◌, subst,
}
use mcp_gtw.Dict.{Dict, get, has, pop}
use mcp_gtw.Dict.Laws.{
  IsDistinct, set-IsDistinct, pop-IsDistinct, get-pop_self, set_absent, length-pop-le, length-pop,
}
use mcp_gtw.Oauth.Context.{AccessContext, Identity, identity_eq}
use mcp_gtw.Oauth.Bindings.{Bindings, identity, purge, renew, bind, accepts, remove}

abbrev pub Entries : Type 0
Entries = Dict String (Identity × ℕ)

-- every deadline of the rest is at least `t`
abbrev pub AllFrom : ℕ → Entries → Type 0
AllFrom t [] = Unit
AllFrom t ((k, (i, d)) ∷ rest) = (t ≤ d) × AllFrom t rest

abbrev pub IsAscending : Entries → Type 0
IsAscending [] = Unit
IsAscending ((k, (i, d)) ∷ rest) = AllFrom d rest × IsAscending rest

-- no deadline is after `t`
abbrev pub AllTo : ℕ → Entries → Type 0
AllTo t [] = Unit
AllTo t ((k, (i, d)) ∷ rest) = (d ≤ t) × AllTo t rest

-- the entries that have not expired
abbrev pub live : ℕ → Entries → Entries
live now [] = []
live now ((k, (i, d)) ∷ rest) =
    let kept = live now rest in if ltb now d then (k, (i, d)) ∷ kept else kept

live_all : (now t : ℕ) (d : Entries) → ltb now t ≡ true → AllFrom t d → live now d ≡ d
live_all now t [] h all = refl
live_all now t ((k, (i, e)) ∷ rest) h all = ground (arith, live_all now t rest h all.1)

pub purge-live : (now : ℕ) (d : Entries) → IsAscending d → purge now d ≡ live now d
unfolding purge
purge-live now [] h = refl
purge-live now ((k, (i, e)) ∷ rest) h = elim (Bool-cases (ltb now e)) [
  | inl alive ↦ ground (arith, live_all now e rest alive h.0)
  | inr dead ↦ ground (arith, purge-live now rest h.1)
]

AllFrom-live : (t now : ℕ) (d : Entries) → AllFrom t d → AllFrom t (live now d)
AllFrom-live t now [] h = tt
AllFrom-live t now ((k, (i, e)) ∷ rest) h = ground (arith, AllFrom-live t now rest h.1)

AllTo-live : (t now : ℕ) (d : Entries) → AllTo t d → AllTo t (live now d)
AllTo-live t now [] h = tt
AllTo-live t now ((k, (i, e)) ∷ rest) h = ground (arith, AllTo-live t now rest h.1)

live-IsAscending : (now : ℕ) (d : Entries) → IsAscending d → IsAscending (live now d)
live-IsAscending now [] h = tt
live-IsAscending now ((k, (i, e)) ∷ rest) h =
    ground (arith, AllFrom-live e now rest h.0, live-IsAscending now rest h.1)

get-live-le : (now : ℕ) (d : Entries) (j : String) → has d j ≡ false → has (live now d) j ≡ false
unfolding get
get-live-le now [] j h = refl
get-live-le now ((k, (i, e)) ∷ rest) j h = ground (arith, get-live-le now rest j)

live-IsDistinct : (now : ℕ) (d : Entries) → IsDistinct d → IsDistinct (live now d)
live-IsDistinct now [] h = tt
live-IsDistinct now ((k, (i, e)) ∷ rest) h =
    ground (arith, live-IsDistinct now rest h.1, get-live-le now rest k)

pub length-live : (now : ℕ) (d : Entries) → length (live now d) ≤ length d
length-live now [] = ground arith
length-live now ((k, (i, e)) ∷ rest) = ground (arith, length-live now rest)

AllFrom-pop : (t : ℕ) (d : Entries) (k : String) → AllFrom t d → AllFrom t (pop d k)
unfolding pop
AllFrom-pop t [] k h = tt
AllFrom-pop t ((j, (i, e)) ∷ rest) k h = ground (arith, AllFrom-pop t rest k h.1)

AllTo-pop : (t : ℕ) (d : Entries) (k : String) → AllTo t d → AllTo t (pop d k)
unfolding pop
AllTo-pop t [] k h = tt
AllTo-pop t ((j, (i, e)) ∷ rest) k h = ground (arith, AllTo-pop t rest k h.1)

pop-IsAscending : (d : Entries) (k : String) → IsAscending d → IsAscending (pop d k)
unfolding pop
pop-IsAscending [] k h = tt
pop-IsAscending ((j, (i, e)) ∷ rest) k h =
    ground (arith, AllFrom-pop e rest k h.0, pop-IsAscending rest k h.1)

AllFrom-end :
    (t u : ℕ) (d : Entries) (k : String) (i : Identity)
    → t ≤ u
    → AllFrom t d
    → AllFrom t (d ++ (k, (i, u)) ∷ [])
AllFrom-end t u [] k i le h = (le, tt)
AllFrom-end t u (x ∷ rest) k i le h = (h.0, AllFrom-end t u rest k i le h.1)

AllTo-end :
    (t u : ℕ) (d : Entries) (k : String) (i : Identity)
    → u ≤ t
    → AllTo t d
    → AllTo t (d ++ (k, (i, u)) ∷ [])
AllTo-end t u [] k i le h = (le, tt)
AllTo-end t u (x ∷ rest) k i le h = (h.0, AllTo-end t u rest k i le h.1)

pub AllTo-later : (t u : ℕ) (d : Entries) → t ≤ u → AllTo t d → AllTo u d
AllTo-later t u [] le h = tt
AllTo-later t u ((k, (i, e)) ∷ rest) le h = (ground (arith, h.0), AllTo-later t u rest le h.1)

append-IsAscending :
    (u : ℕ) (d : Entries) (k : String) (i : Identity)
    → AllTo u d
    → IsAscending d
    → IsAscending (d ++ (k, (i, u)) ∷ [])
append-IsAscending u [] k i all h = (tt, tt)
append-IsAscending u ((j, (i', e)) ∷ rest) k i all h =
    (AllFrom-end e u rest k i all.0 h.0, append-IsAscending u rest k i all.1 h.1)

-- the bindings of a running gateway at a time
pub record IsOrdered (now : ℕ) (s : Bindings) : Type 0 where
  pub ascending : IsAscending s.bindings
  pub no_later : AllTo (now + s.idle_seconds) s.bindings
  pub distinct : IsDistinct s.bindings
  pub bounded : length s.bindings ≤ s.maximum_sessions

pub later-IsOrdered :
    (now after : ℕ) (s : Bindings) → now ≤ after → IsOrdered now s → IsOrdered after s
later-IsOrdered now after s le h = record {
  ascending = h.ascending;
  no_later =
      AllTo-later (now + s.idle_seconds) (after + s.idle_seconds) s.bindings (ground arith)
        h.no_later;
  distinct = h.distinct;
  bounded = h.bounded;
}

purged-IsOrdered :
    (now : ℕ) (s : Bindings)
    → IsOrdered now s
    → IsOrdered now (record s { bindings = purge now s.bindings })
purged-IsOrdered now s h = rw (purge-live now s.bindings h.ascending) (record {
  ascending = live-IsAscending now s.bindings h.ascending;
  no_later = AllTo-live (now + s.idle_seconds) now s.bindings h.no_later;
  distinct = live-IsDistinct now s.bindings h.distinct;
  bounded = ground (arith, length-live now s.bindings, h.bounded);
})

renew-IsOrdered :
    (now : ℕ) (id : String) (i : Identity) (s : Bindings)
    → IsOrdered now s
    → suc (length (pop s.bindings id)) ≤ s.maximum_sessions
    → IsOrdered now (renew now id i s)
unfolding renew
renew-IsOrdered now id i s h room =
    let rest = pop s.bindings id in
    let last : Entries = (id, (i, now + s.idle_seconds)) ∷ [] in
    let appended = set_absent rest id (i, now + s.idle_seconds) (get-pop_self s.bindings id) in
    rw appended (record {
      ascending =
          append-IsAscending (now + s.idle_seconds) rest id i
            (AllTo-pop (now + s.idle_seconds) s.bindings id h.no_later)
            (pop-IsAscending s.bindings id h.ascending);
      no_later =
          AllTo-end (now + s.idle_seconds) (now + s.idle_seconds) rest id i (ground arith)
            (AllTo-pop (now + s.idle_seconds) s.bindings id h.no_later);
      distinct =
          subst (λ (d : Entries). IsDistinct d) appended
            (set-IsDistinct rest id (i, now + s.idle_seconds)
              (pop-IsDistinct s.bindings id h.distinct));
      bounded = ground (arith, length-append rest last);
    })

pub bind-IsOrdered :
    (now : ℕ) (id : String) (context : AccessContext) (s : Bindings)
    → IsOrdered now s
    → IsOrdered now (bind now id context s).1
unfolding bind
bind-IsOrdered now id context s h =
    let purged = record s { bindings = purge now s.bindings } in
    let ordered = purged-IsOrdered now s h in
    elim (Option-cases (get purged.bindings id)) [
      | inl e ↦ elim (Bool-cases (leb s.maximum_sessions (length purged.bindings))) [
        | inl full ↦ rw (e, full, bind) ordered
        | inr room ↦
            rw (e, room, bind)
              (renew-IsOrdered now id (identity context) purged ordered
                (ground (arith, length-pop-le purged.bindings id)))
      ]
      | inr (existing, e) ↦ elim (Bool-cases (existing.0 == identity context)) [
        | inl same ↦
            rw (e, same, bind)
              (renew-IsOrdered now id (identity context) purged ordered
                (ground (arith, length-pop purged.bindings id ordered.distinct, ordered.bounded)))
        | inr other ↦ rw (e, other, bind) ordered
      ]
    ]

pub accepts-IsOrdered :
    (now : ℕ) (id : String) (context : AccessContext) (s : Bindings)
    → IsOrdered now s
    → IsOrdered now (accepts now id context s).1
unfolding accepts
accepts-IsOrdered now id context s h = elim (Option-cases (get s.bindings id)) [
  | inl e ↦ rw (e, accepts) h
  | inr (existing, e) ↦
      elim (Bool-cases (leb existing.1 now || not (existing.0 == identity context))) [
        | inl refused ↦ rw (e, refused, accepts) h
        | inr admitted ↦
            rw (e, admitted, accepts)
              (renew-IsOrdered now id existing.0 s h
                (ground (arith, length-pop s.bindings id h.distinct, h.bounded)))
      ]
]

pub remove-IsOrdered :
    (now : ℕ) (id : String) (s : Bindings) → IsOrdered now s → IsOrdered now (remove id s)
unfolding remove
remove-IsOrdered now id s h = record {
  ascending = pop-IsAscending s.bindings id h.ascending;
  no_later = AllTo-pop (now + s.idle_seconds) s.bindings id h.no_later;
  distinct = pop-IsDistinct s.bindings id h.distinct;
  bounded = ground (arith, length-pop-le s.bindings id, h.bounded);
}
