-- ===== src/Channel/Subscriptions/Bounds.antt =====
-- The number of subscribed uris stays within the configured limit, and no set stays empty.
use mcp_gtw.Channel.Sessions.Bounds.{evict_induction}
use mcp_gtw.Base.{
  ℕ, ◌≤◌, String, true, false, some, List, [], ◌∷◌, ◌++◌, ◌≡◌, refl, arith, ℕ_eq, text_eq, ◌==◌,
  length, Bool-cases, Option-cases, inl, inr, add, is_empty,
}
use mcp_gtw.Settings.{Settings, over_limit}
use mcp_gtw.Dict.{Dict, get, has, set, pop, keys}
use mcp_gtw.Dict.Laws.{length-set, length-pop-le}
use mcp_gtw.Channel.{Channel, Session, Subscribers, World, Note}
use mcp_gtw.Channel.Sessions.{
  forget_subscriber, forget_session, evict, drop_sessions, remember_mcp_session, notify, sweep,
}
use mcp_gtw.Channel.Subscriptions.Members.{
  is_refused, begun_set, subscribe_begin_full, subscribe_begin_room,
}
use mcp_gtw.Channel.Subscriptions.{
  set_for, store_set, subscribe_begin, subscribe_failed, unsubscribe_end, notify_resource_updated,
}

-- every set has a member
abbrev pub AllInhabited : Dict String Subscribers → Type 0
AllInhabited [] = Unit
AllInhabited ((uri, s) ∷ d) = (is_empty s.members ≡ false) × AllInhabited d

pub record AreBounded (s : Settings) (d : Dict String Subscribers) : Type 0 where
  pub within : over_limit s.maximum_subscriptions_per_channel (length d) ≡ false
  pub inhabited : AllInhabited d

is_empty-add : (xs : List ℕ) (a : ℕ) → is_empty (add xs a) ≡ false
unfolding add
is_empty-add [] a = refl
is_empty-add (x ∷ xs) a = ground arith

set-AllInhabited :
    (d : Dict String Subscribers) (uri : String) (s : Subscribers)
    → AllInhabited d
    → is_empty s.members ≡ false
    → AllInhabited (set d uri s)
unfolding set
set-AllInhabited [] uri s h p = (p, tt)
set-AllInhabited ((j, t) ∷ d) uri s h p = ground (arith, set-AllInhabited d uri s h.1 p)

pop-AllInhabited :
    (d : Dict String Subscribers) (uri : String) → AllInhabited d → AllInhabited (pop d uri)
unfolding pop
pop-AllInhabited [] uri h = tt
pop-AllInhabited ((j, t) ∷ d) uri h = ground (arith, pop-AllInhabited d uri h.1)

forget_subscriber-AllInhabited :
    (key : ℕ) (d : Dict String Subscribers) → AllInhabited (forget_subscriber key d)
unfolding forget_subscriber
forget_subscriber-AllInhabited key [] = tt
forget_subscriber-AllInhabited key ((j, t) ∷ d) =
    ground (arith, forget_subscriber-AllInhabited key d)

length-forget_subscriber :
    (key : ℕ) (d : Dict String Subscribers) → length (forget_subscriber key d) ≤ length d
unfolding forget_subscriber
length-forget_subscriber key [] = omega arith
length-forget_subscriber key ((j, t) ∷ d) = ground (arith, length-forget_subscriber key d)

forget_subscriber-AreBounded :
    (s : Settings) (key : ℕ) (d : Dict String Subscribers)
    → AreBounded s d
    → AreBounded s (forget_subscriber key d)
forget_subscriber-AreBounded s key d h = record {
  within = ground (arith, h.within, length-forget_subscriber key d);
  inhabited = forget_subscriber-AllInhabited key d;
}

-- the set of a present uri, after it changed
store_set-AreBounded :
    (s : Settings) (d : Dict String Subscribers) (uri : String) (x : Subscribers)
    → has d uri ≡ true
    → AreBounded s d
    → AreBounded s (store_set d uri x)
store_set-AreBounded s d uri x p h = elim (Bool-cases (is_empty x.members)) [
  | inl e ↦ rw e (record {
    within = ground (arith, h.within, length-pop-le d uri);
    inhabited = pop-AllInhabited d uri h.inhabited;
  })
  | inr e ↦ rw e (record {
    within = ground (arith, h.within, length-set d uri x);
    inhabited = set-AllInhabited d uri x h.inhabited e;
  })
]

-- Subscribed uris within the limit, each with a subscriber.
pub record IsBounded (c : Channel) : Type 0 where
  pub subscriptions : AreBounded c.settings c.subscriptions

module _ (uri : String) (session : Session) (c : Channel) (h : IsBounded c) where
  pub subscribe_begin-IsBounded : IsBounded (subscribe_begin uri session c).1
  unfolding subscribe_begin
  subscribe_begin-IsBounded = elim (Bool-cases (is_refused c uri)) [
    | inl full ↦ rw (subscribe_begin_full c uri session full) h
    | inr room ↦ rw (subscribe_begin_room c uri session room) (record {
      subscriptions = record {
        within = ground (
          arith,
          h.subscriptions.within,
          length-set c.subscriptions uri (begun_set c uri session),
          room,
        );
        inhabited =
            set-AllInhabited c.subscriptions uri (begun_set c uri session) h.subscriptions.inhabited
              (is_empty-add (set_for c uri).members session);
      };
    })
  ]

  -- the set of a uri that is there, replaced
  stored-IsBounded :
      (s x : Subscribers)
      → get c.subscriptions uri ≡ some s
      → IsBounded (record c { subscriptions = store_set c.subscriptions uri x })
  stored-IsBounded s x e = record {
    subscriptions = store_set-AreBounded c.settings c.subscriptions uri x (rw e) h.subscriptions;
  }

  pub unsubscribe_end-IsBounded : IsBounded (unsubscribe_end uri session c)
  unfolding unsubscribe_end
  unsubscribe_end-IsBounded = elim (Option-cases (get c.subscriptions uri)) [
    | inl e ↦ rw (e, unsubscribe_end) h
    | inr (s, e) ↦ rw (e, unsubscribe_end) (stored-IsBounded s _ e)
  ]

  pub subscribe_failed-IsBounded : (o : ℕ) → IsBounded (subscribe_failed uri o session c)
  unfolding subscribe_failed
  subscribe_failed-IsBounded o = elim (Option-cases (get c.subscriptions uri)) [
    | inl e ↦ rw (e, subscribe_failed) h
    | inr (s, e) ↦ elim (Bool-cases (s.object_id == o)) [
      | inl same ↦ rw (e, same, subscribe_failed) (stored-IsBounded s _ e)
      | inr differ ↦ rw (e, differ, subscribe_failed) h
    ]
  ]

pub notify_resource_updated-IsBounded :
    (w : World) (uri : String) (c : Channel)
    → IsBounded c
    → IsBounded (notify_resource_updated w uri c)
unfolding notify_resource_updated
notify_resource_updated-IsBounded w uri c h = elim (Option-cases (get c.subscriptions uri)) [
  | inl e ↦ rw (e, notify_resource_updated) h
  | inr (s, e) ↦
      rw (e, notify_resource_updated)
        (record {
          subscriptions =
              store_set-AreBounded c.settings c.subscriptions uri _ (rw e) h.subscriptions;
        })
]

pub forget_session-IsBounded :
    (key : ℕ) (c : Channel) → IsBounded c → IsBounded (forget_session key c)
unfolding forget_session
forget_session-IsBounded key c h = record {
  subscriptions = forget_subscriber-AreBounded c.settings key c.subscriptions h.subscriptions;
}

pub drop_sessions-IsBounded :
    (keys : List ℕ) (c : Channel) → IsBounded c → IsBounded (drop_sessions keys c)
unfolding drop_sessions
drop_sessions-IsBounded [] c h = h
drop_sessions-IsBounded (k ∷ ks) c h =
    drop_sessions-IsBounded ks _
      (forget_session-IsBounded k _ (record { subscriptions = h.subscriptions }))

evict-IsBounded : (rounds : ℕ) (c : Channel) → IsBounded c → IsBounded (evict rounds c)
evict-IsBounded =
    evict_induction (λ c d. IsBounded c → IsBounded d) (λ c h. h)
      λ c d oldest session rest e over ih h. ih (
        forget_session-IsBounded oldest (record c { mcp_sessions = rest })
          (record { subscriptions = h.subscriptions }))

remember-IsBounded :
    (session : Session) (c : Channel) → IsBounded c → IsBounded (remember_mcp_session session c)
unfolding remember_mcp_session
remember-IsBounded session c h =
    let sessions = set (pop c.mcp_sessions session) session session in
    evict-IsBounded (length sessions) (record c { mcp_sessions = sessions })
      (record { subscriptions = h.subscriptions })

notify-IsBounded :
    (w : World) (notes : List Note) (c : Channel) → IsBounded c → IsBounded (notify w notes c)
unfolding notify
notify-IsBounded w notes c h =
    let swept = sweep w notes (keys c.mcp_sessions) in
    drop_sessions-IsBounded swept.1 (record c { notes = swept.0 ++ c.notes })
      (record { subscriptions = h.subscriptions })

-- what happens to the subscriptions of a channel
pub data Operation : Type 0 where
  subscribing : String → Session → Operation
  failing : String → ℕ → Session → Operation
  unsubscribing : String → Session → Operation
  updating : String → Operation
  remembering : Session → Operation
  dropping : List ℕ → Operation
  notifying : List Note → Operation

abbrev pub apply : World → Operation → Channel → Channel
apply w (subscribing uri session) c = (subscribe_begin uri session c).1
apply w (failing uri object_id session) c = subscribe_failed uri object_id session c
apply w (unsubscribing uri session) c = unsubscribe_end uri session c
apply w (updating uri) c = notify_resource_updated w uri c
apply w (remembering session) c = remember_mcp_session session c
apply w (dropping keys) c = drop_sessions keys c
apply w (notifying notes) c = notify w notes c

abbrev pub run : World → List Operation → Channel → Channel
run w [] c = c
run w (o ∷ rest) c = run w rest (apply w o c)

apply-IsBounded : (w : World) (o : Operation) (c : Channel) → IsBounded c → IsBounded (apply w o c)
apply-IsBounded w (subscribing uri session) c h = subscribe_begin-IsBounded uri session c h
apply-IsBounded w (failing uri o session) c h = subscribe_failed-IsBounded uri session c h o
apply-IsBounded w (unsubscribing uri session) c h = unsubscribe_end-IsBounded uri session c h
apply-IsBounded w (updating uri) c h = notify_resource_updated-IsBounded w uri c h
apply-IsBounded w (remembering session) c h = remember-IsBounded session c h
apply-IsBounded w (dropping keys) c h = drop_sessions-IsBounded keys c h
apply-IsBounded w (notifying notes) c h = notify-IsBounded w notes c h

-- Whatever sequence of subscriptions, failures, unsubscriptions, updates, remembered, dropped and
-- notified sessions: the subscribed uris stay within the configured limit, and each has a
-- subscriber.
pub run-IsBounded :
    (w : World) (os : List Operation) (c : Channel) → IsBounded c → IsBounded (run w os c)
run-IsBounded w [] c h = h
run-IsBounded w (o ∷ os) c h = run-IsBounded w os (apply w o c) (apply-IsBounded w o c h)
