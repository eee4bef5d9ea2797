-- ===== src/Channel/Subscriptions/Members.antt =====
-- Who is subscribed to what, after each operation.
use mcp_gtw.Base.{
  ℕ, suc, String, Bool, true, false, not, ◌&&◌, ◌||◌, Option, none, some, List, [], ◌∷◌, ◌≡◌, refl,
  ◌∙◌, arith, ℕ_eq, text_eq, ◌==◌, ==_iff, ==_refl, if◌then◌else◌, length, Bool-cases, Option-cases,
  inl, inr, contains, add, discard, contains-add, contains-discard, is_empty,
}
use mcp_gtw.Json.{Json}
use mcp_gtw.Errors.{Result, ok, err}
use mcp_gtw.Settings.{at_limit}
use mcp_gtw.Dict.{Dict, get, has, set}
use mcp_gtw.Dict.Laws.{get-set, get-pop}
use mcp_gtw.Channel.{Channel, Session, Subscribers}
use mcp_gtw.Channel.Subscriptions.{
  set_for, store_set, subscribe_begin, subscribe_failed, unsubscribe_end, subscribe,
  subscribe_answered, unsubscribe,
}

abbrev pub member_of : Option Subscribers → Session → Bool
member_of none session = false
member_of (some s) session = contains s.members session

-- the session is in the set of the uri
abbrev pub is_subscribed : Channel → String → Session → Bool
is_subscribed c uri session = member_of (get c.subscriptions uri) session

get-store_set :
    (d : Dict String Subscribers) (uri : String) (s : Subscribers) (j : String)
    → get (store_set d uri s) j
      ≡ (if uri == j then (if is_empty s.members then none else some s) else get d j)
get-store_set d uri s j = ground (arith, get-set d uri s j, get-pop d uri j)

empty_contains : (xs : List ℕ) (a : ℕ) → is_empty xs ≡ true → contains xs a ≡ false
empty_contains [] a h = refl
empty_contains (x ∷ xs) a h = cc

-- the guard of `subscribe`: a new uri over the limit
abbrev pub is_refused : Channel → String → Bool
is_refused c uri =
    not (has c.subscriptions uri)
    && at_limit c.settings.maximum_subscriptions_per_channel (length c.subscriptions)

abbrev pub is_ok {ℓ} : {A : Type ℓ} → Result A → Bool
is_ok (ok a) = true
is_ok (err e) = false

-- the channel after `subscribe_begin`, where the limit does not refuse
abbrev pub begun_set : Channel → String → Session → Subscribers
begun_set c uri session = record (set_for c uri) { members = add (set_for c uri).members session }

abbrev pub begun : Channel → String → Session → Channel
begun c uri session = record c {
  subscriptions = set c.subscriptions uri (begun_set c uri session);
  made_sets = suc c.made_sets;
}

pub subscribe_begin_room :
    (c : Channel) (uri : String) (session : Session)
    → is_refused c uri ≡ false
    → subscribe_begin uri session c ≡ (ok (set_for c uri).object_id, begun c uri session)
unfolding subscribe_begin
subscribe_begin_room c uri session room = rw room

subscribe_refused :
    (c : Channel) (uri : String) (session : Session) (answer : Result Json)
    → is_refused c uri ≡ true
    → (subscribe uri session answer c).1 ≡ c
unfolding subscribe subscribe_begin
subscribe_refused c uri session answer full = rw full

pub subscribe_begin_full :
    (c : Channel) (uri : String) (session : Session)
    → is_refused c uri ≡ true
    → (subscribe_begin uri session c).1 ≡ c
unfolding subscribe_begin
subscribe_begin_full c uri session full = rw full

-- the failure of a subscription finds the set that it began with
failed_begun :
    (c : Channel) (uri : String) (session : Session)
    → (subscribe_failed uri (set_for c uri).object_id session (begun c uri session)).subscriptions
      ≡ store_set (begun c uri session).subscriptions uri (record (begun_set c uri session) {
        members = discard (begun_set c uri session).members session;
      })
unfolding subscribe_failed
failed_begun c uri session = ground (
  arith,
  get-set c.subscriptions uri (begun_set c uri session) uri,
  ==_refl uri,
  ==_refl (set_for c uri).object_id,
)

module _ (uri other : String) (session another : Session) (c : Channel) where
  member_of-store_set :
      (d : Dict String Subscribers) (s : Subscribers)
      → member_of (get (store_set d uri s) other) another
        ≡ (if uri == other then contains s.members another else member_of (get d other) another)
  member_of-store_set d s =
      ground (arith, get-store_set d uri s other, empty_contains s.members another)

  -- the set for a uri has the members of the one that stands there
  contains-set_for : contains (set_for c uri).members another ≡ is_subscribed c uri another
  contains-set_for = ground arith

  is_subscribed-begun :
      is_subscribed (begun c uri session) other another
      ≡ (if uri == other && session == another then true else is_subscribed c other another)
  is_subscribed-begun = ground (
    arith,
    get-set c.subscriptions uri (begun_set c uri session) other,
    contains-add (set_for c uri).members session another,
    contains-set_for,
    ==_iff uri other,
  )

  is_subscribed-failed :
      is_subscribed
        (subscribe_failed uri (set_for c uri).object_id session (begun c uri session))
        other
        another
      ≡ (if uri == other && session == another then false else is_subscribed c other another)
  is_subscribed-failed = rw (failed_begun c uri session) (
      member_of-store_set (begun c uri session).subscriptions _
      ∙ ground (
        arith,
        is_subscribed-begun,
        contains-discard (begun_set c uri session).members session another,
        contains-add (set_for c uri).members session another,
        contains-set_for,
        ==_iff uri other,
      ))

  -- A subscription that the provider accepts adds the session to the set of the uri, and nothing
  -- else. One that fails takes the session out of it, also where it was subscribed before, and
  -- changes nothing else. One that the limit refuses changes nothing.
  pub is_subscribed-subscribe :
      (answer : Result Json)
      → is_subscribed (subscribe uri session answer c).1 other another ≡ (
          if is_refused c uri || not (uri == other && session == another)
          then is_subscribed c other another
          else is_ok answer)
  unfolding subscribe
  is_subscribed-subscribe answer = elim (Bool-cases (is_refused c uri)) [
    | inl full ↦ rw (subscribe_refused c uri session answer full, full)
    | inr room ↦ rw (subscribe_begin_room c uri session room, room) (accepted answer)
  ]
    where
      accepted :
          (a : Result Json)
          → is_subscribed
              (subscribe_answered uri session a
                (ok (set_for c uri).object_id, begun c uri session)).1
              other
              another
            ≡ (if not (uri == other && session == another)
                then is_subscribed c other another
                else is_ok a)
      accepted (ok v) = ground (arith, is_subscribed-begun)
      accepted (err e) = ground (arith, is_subscribed-failed)

  -- An unsubscription that the provider accepts takes the session out of the set of the uri, and
  -- changes nothing else; one that fails changes nothing.
  pub is_subscribed-unsubscribe :
      (answer : Result Json)
      → is_subscribed (unsubscribe uri session answer c).1 other another ≡ (
          if is_ok answer && uri == other && session == another
          then false
          else is_subscribed c other another)
  unfolding unsubscribe unsubscribe_end
  is_subscribed-unsubscribe (err e) = refl
  is_subscribed-unsubscribe (ok v) = elim (Option-cases (get c.subscriptions uri)) [
    | inl e ↦ ground (arith, ==_iff uri other)
    | inr (s, e) ↦ ground (
      arith,
      member_of-store_set c.subscriptions (record s { members = discard s.members session }),
      contains-discard s.members session another,
      ==_iff uri other,
    )
  ]
