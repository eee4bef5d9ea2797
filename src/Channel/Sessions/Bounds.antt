-- ===== src/Channel/Sessions/Bounds.antt =====
-- What `remember_mcp_session` keeps and what it evicts.
use mcp_gtw.Base.{
  ℕ, zero, suc, ◌≤◌, String, true, false, none, some, [], ◌∷◌, ◌++◌, ◌≡◌, ◌≢◌, refl, ap, sym, subst,
  ◌∙◌, arith, ℕ_eq, ==_iff, if◌then◌else◌, length, Bool-cases, List-cases, inl, inr, contains,
  contains-discard,
}
use mcp_gtw.Settings.{over_limit}
use mcp_gtw.Dict.{Dict, get, set, pop}
use mcp_gtw.Dict.Laws.{get-pop, get-pop_self, set_absent}
use mcp_gtw.Channel.{Channel, Session, Subscribers}
use mcp_gtw.Channel.Sessions.{
  forget_subscriber, forget_session, evict, remember_mcp_session, latest, latest_session,
}

-- no set of subscribers has the session
abbrev pub IsUnsubscribed : ℕ → Dict String Subscribers → Type 0
IsUnsubscribed key [] = Unit
IsUnsubscribed key ((uri, s) ∷ d) = (contains s.members key ≡ false) × IsUnsubscribed key d

-- the channel holds nothing more of a session
pub record IsForgotten (key : ℕ) (c : Channel) : Type 0 where
  pub no_level : get c.log_levels key ≡ none
  pub no_subscription : IsUnsubscribed key c.subscriptions

forget_subscriber_self :
    (key : ℕ) (d : Dict String Subscribers) → IsUnsubscribed key (forget_subscriber key d)
unfolding forget_subscriber
forget_subscriber_self key [] = tt
forget_subscriber_self key ((uri, s) ∷ d) =
    ground (arith, forget_subscriber_self key d, contains-discard s.members key key, ==_iff key key)

forget_subscriber-keeps :
    (key k : ℕ) (d : Dict String Subscribers)
    → IsUnsubscribed k d
    → IsUnsubscribed k (forget_subscriber key d)
unfolding forget_subscriber
forget_subscriber-keeps key k [] h = tt
forget_subscriber-keeps key k ((uri, s) ∷ d) h =
    ground (arith, forget_subscriber-keeps key k d h.1, contains-discard s.members key k)

forget_session-IsForgotten : (key : ℕ) (c : Channel) → IsForgotten key (forget_session key c)
unfolding forget_session
forget_session-IsForgotten key c = record {
  no_level = ground (arith, get-pop c.log_levels key key, ==_iff key key);
  no_subscription = forget_subscriber_self key c.subscriptions;
}

forget_session-keeps :
    (key k : ℕ) (c : Channel) → IsForgotten k c → IsForgotten k (forget_session key c)
unfolding forget_session
forget_session-keeps key k c h = record {
  no_level = ground (arith, get-pop c.log_levels key k, h.no_level);
  no_subscription = forget_subscriber-keeps key k c.subscriptions h.no_subscription;
}

-- one turn of the loop: the test, then the oldest session goes
evict_step :
    (rounds : ℕ) (c : Channel) (oldest : ℕ) (session : Session) (rest : Dict ℕ Session)
    → c.mcp_sessions ≡ (oldest, session) ∷ rest
    → evict (suc rounds) c ≡ (
        if over_limit c.settings.maximum_mcp_sessions_per_channel (suc (length rest))
        then evict rounds (forget_session oldest (record c { mcp_sessions = rest }))
        else c)
unfolding evict
evict_step rounds c oldest session rest e = ground arith

evict_none : (rounds : ℕ) (c : Channel) → c.mcp_sessions ≡ [] → evict (suc rounds) c ≡ c
unfolding evict
evict_none rounds c e = ground arith

-- the state of the loop after one turn
abbrev pub evicted_oldest : Channel → ℕ → Dict ℕ Session → Channel
evicted_oldest c oldest rest = forget_session oldest (record c { mcp_sessions = rest })

-- Induction on the rounds: a turn that evicts nothing, or one that evicts the oldest session.
pub evict_induction :
    (P : Channel → Channel → Type 0)
    → ((c : Channel) → P c c)
    → ((c d : Channel) (oldest : ℕ) (session : Session) (rest : Dict ℕ Session)
        → c.mcp_sessions ≡ (oldest, session) ∷ rest
        → over_limit c.settings.maximum_mcp_sessions_per_channel (suc (length rest)) ≡ true
        → P (evicted_oldest c oldest rest) d
        → P c d)
    → (rounds : ℕ) (c : Channel) → P c (evict rounds c)
unfolding evict
evict_induction P stay turn zero c = stay c
evict_induction P stay turn (suc rounds) c = elim (List-cases c.mcp_sessions) [
  | inl e ↦ subst (P c) (sym (evict_none rounds c e)) (stay c)
  | inr ((oldest, session), rest, e) ↦
      elim (Bool-cases
        (over_limit c.settings.maximum_mcp_sessions_per_channel (suc (length rest)))) [
          | inl over ↦ subst (P c) (sym (evict_step rounds c oldest session rest e ∙ rw over)) (
              turn c _ oldest session rest e over
                (evict_induction P stay turn rounds (evicted_oldest c oldest rest)))
          | inr fits ↦
              subst (P c) (sym (evict_step rounds c oldest session rest e ∙ rw fits)) (stay c)
        ]
]

-- the sessions that a loop evicted are the oldest ones, and they are forgotten
abbrev pub AllForgotten : Dict ℕ Session → Channel → Type 0
AllForgotten [] c = Unit
AllForgotten ((key, session) ∷ d) c = IsForgotten key c × AllForgotten d c

record Evicts (c c' : Channel) : Type 0 where
  dropped : Dict ℕ Session
  split : dropped ++ c'.mcp_sessions ≡ c.mcp_sessions
  forgotten : AllForgotten dropped c'

-- what the loop does from `c` to `d`
record Loop (c d : Channel) : Type 0 where
  keeps : (k : ℕ) → IsForgotten k c → IsForgotten k d
  evicts : Evicts c d

evicted_oldest-keeps :
    (c : Channel) (oldest : ℕ) (rest : Dict ℕ Session) (k : ℕ)
    → IsForgotten k c
    → IsForgotten k (evicted_oldest c oldest rest)
evicted_oldest-keeps c oldest rest k h =
    forget_session-keeps oldest k (record c { mcp_sessions = rest })
      (record { no_level = h.no_level; no_subscription = h.no_subscription })

sessions-evicted_oldest :
    (c : Channel) (oldest : ℕ) (rest : Dict ℕ Session)
    → (evicted_oldest c oldest rest).mcp_sessions ≡ rest
unfolding forget_session
sessions-evicted_oldest c oldest rest = refl

evict-Loop : (rounds : ℕ) (c : Channel) → Loop c (evict rounds c)
evict-Loop =
    evict_induction Loop
      (λ c. record {
        keeps = λ k h. h;
        evicts = record { dropped = []; split = refl; forgotten = tt };
      })
      λ c d oldest session rest e over ih. record {
        keeps = λ k h. ih.keeps k (evicted_oldest-keeps c oldest rest k h);
        evicts = record {
          dropped = (oldest, session) ∷ ih.evicts.dropped;
          split =
              ap (λ l. (oldest, session) ∷ l)
                (ih.evicts.split ∙ sessions-evicted_oldest c oldest rest)
              ∙ sym e;
          forgotten = (ih.keeps oldest (forget_session-IsForgotten oldest _), ih.evicts.forgotten);
        };
      }

-- enough rounds: the loop ends with its test
evict-bounded :
    (rounds : ℕ) (c : Channel)
    → length c.mcp_sessions ≤ rounds
    → over_limit c.settings.maximum_mcp_sessions_per_channel (length (evict rounds c).mcp_sessions)
      ≡ false
unfolding evict
evict-bounded zero c h = ground arith
evict-bounded (suc rounds) c h = elim (List-cases c.mcp_sessions) [
  | inl e ↦ ground arith
  | inr ((oldest, session), rest, e) ↦
      ground
        (arith, evict-bounded rounds (forget_session oldest (record c { mcp_sessions = rest })))
]

-- the newest session stays, where the maximum is not zero
evict-latest :
    (session : Session) (rounds : ℕ) (c : Channel)
    → c.settings.maximum_mcp_sessions_per_channel ≢ some 0
    → latest c.mcp_sessions ≡ some session
    → latest (evict rounds c).mcp_sessions ≡ some session
unfolding evict latest
evict-latest session zero c positive h = h
evict-latest session (suc rounds) c positive h = elim (List-cases c.mcp_sessions) [
  | inl e ↦ ground arith
  | inr ((oldest, s), rest, e) ↦ ground (
    arith,
    evict-latest session rounds (forget_session oldest (record c { mcp_sessions = rest })),
  )
]

latest-append :
    (d : Dict ℕ Session) (key : ℕ) (session : Session)
    → latest (d ++ (key, session) ∷ []) ≡ some session
unfolding latest
latest-append [] key session = refl
latest-append ((k, s) ∷ []) key session = refl
latest-append ((k, s) ∷ ((j, u) ∷ d)) key session = latest-append ((j, u) ∷ d) key session

-- the sessions with one of them moved to the end, or added there
abbrev pub touched : Session → Channel → Dict ℕ Session
touched session c = set (pop c.mcp_sessions session) session session

latest-touched : (session : Session) (c : Channel) → latest (touched session c) ≡ some session
latest-touched session c =
    ap latest (
      set_absent (pop c.mcp_sessions session) session session (get-pop_self c.mcp_sessions session))
    ∙ latest-append (pop c.mcp_sessions session) session session

pub record Remembers (session : Session) (c c' : Channel) : Type 0 where
  pub newest : latest_session c' ≡ some session
  pub bounded :
      over_limit c.settings.maximum_mcp_sessions_per_channel (length c'.mcp_sessions) ≡ false
  pub dropped : Dict ℕ Session
  pub split : dropped ++ c'.mcp_sessions ≡ touched session c
  pub forgotten : AllForgotten dropped c'

-- Remembering a session makes it the newest one, keeps the sessions within the configured maximum,
-- and evicts only the oldest sessions, of which the channel then holds neither a log level nor a
-- subscription. The maximum must not be zero, which the settings exclude.
pub remember-Remembers :
    (session : Session) (c : Channel)
    → c.settings.maximum_mcp_sessions_per_channel ≢ some 0
    → Remembers session c (remember_mcp_session session c)
unfolding remember_mcp_session latest_session
remember-Remembers session c positive =
    let begun : Channel = record c { mcp_sessions = touched session c } in
    let loop = evict-Loop (length (touched session c)) begun in
    record {
      newest = evict-latest session _ begun positive (latest-touched session c);
      bounded = evict-bounded (length (touched session c)) begun (omega arith);
      dropped = loop.evicts.dropped;
      split = loop.evicts.split;
      forgotten = loop.evicts.forgotten;
    }
