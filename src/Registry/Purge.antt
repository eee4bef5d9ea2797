-- ===== src/Registry/Purge.antt =====
-- src/mcpgtw/registry.py: `purge_expired` removes exactly the offline channels whose deadline has
-- passed, and `close_all` removes every channel.
use mcp_gtw.Base.{
  ℕ, String, Bool, true, false, Option, none, some, List, [], ◌∷◌, ◌≡◌, refl, arith, text_eq,
  ==_iff, length, Bool-cases, Option-cases, inl, inr, ◌&&◌, not, contains, ◌+◌, ap, if◌then◌else◌,
}
use mcp_gtw.Dict.{Dict, get, has, pop, keys}
use mcp_gtw.Dict.Laws.{get-pop, IsDistinct, length-pop}
use mcp_gtw.Channel.{Channel, provider_connected as is_connected}
use mcp_gtw.Registry.{Registry, channel_count}
use mcp_gtw.Registry.Expiry.{ExpiryPolicy}
use mcp_gtw.Registry.Lifecycle.{
  expired_ids, is_due, purge_expired, remove_channel, remove_each, remove_locked, close_each,
  close_all,
}
use mcp_gtw.Registry.Lookup.{Tables, tables-retire}
use mcp_gtw.Registry.Consistency.{IsConsistent}
use mcp_gtw.Registry.Preservation.{remove_channel-IsConsistent}

-- whether `remove_channel` removes what stands under an id
abbrev removable : Bool → Option Channel → Bool
removable require_offline none = false
removable require_offline (some c) = not (require_offline && is_connected c)

abbrev count_if : Bool → ℕ
count_if true = 1
count_if false = 0

-- a channel that is offline and whose deadline has passed
abbrev pub due : ExpiryPolicy → ℕ → Registry → String → Bool
due policy now r id = elim (get r.channels id) [
  | none ↦ false
  | some c ↦
      not (is_connected c)
      && elim (get r.expiry id) [ none ↦ false | some deadline ↦ policy.is_expired deadline now ]
]

channels-remove :
    (id : String) (require_offline : Bool) (r : Registry)
    → (remove_channel id require_offline r).1.channels
      ≡ (if removable require_offline (get r.channels id) then pop r.channels id else r.channels)
unfolding remove_channel remove_locked
channels-remove id require_offline r = elim (Option-cases (get r.channels id)) [
  | inl e ↦ rw (e, remove_channel) refl
  | inr (c, e) ↦ elim (Bool-cases (require_offline && is_connected c)) [
    | inl kept ↦ rw (e, kept, remove_channel) refl
    | inr gone ↦
        rw (e, gone, remove_channel)
          (ap (λ (k : Tables). k.0) (tables-retire c (remove_locked id c r)))
  ]
]

removed-remove :
    (id : String) (require_offline : Bool) (r : Registry)
    → (remove_channel id require_offline r).0 ≡ removable require_offline (get r.channels id)
unfolding remove_channel
removed-remove id require_offline r = ground arith

-- the loop of `purge_expired`: who is left, and how many went
get-remove_each :
    (ids : List String) (r : Registry) (j : String)
    → get (remove_each ids r).1.channels j
      ≡ (if contains ids j && removable true (get r.channels j) then none else get r.channels j)
unfolding remove_each
get-remove_each [] r j = refl
get-remove_each (id ∷ ids) r j = ground (
  arith,
  get-remove_each ids (remove_channel id true r).1 j,
  channels-remove id true r,
  get-pop r.channels id j,
  ==_iff id j,
)

count-remove_each :
    (ids : List String) (r : Registry)
    → IsConsistent r
    → (remove_each ids r).0 + length (remove_each ids r).1.channels ≡ length r.channels
unfolding remove_each
count-remove_each [] r h = omega arith
count-remove_each (id ∷ ids) r h = ground (
  arith,
  count-remove_each ids (remove_channel id true r).1 (remove_channel-IsConsistent id true r h),
  channels-remove id true r,
  removed-remove id true r,
  length-pop r.channels id h.distinct,
)

is_due-due :
    (policy : ExpiryPolicy) (now : ℕ) (r : Registry) (id : String) (c : Channel)
    → IsConsistent r
    → get r.channels id ≡ some c
    → is_due policy now r id c ≡ some (due policy now r id)
unfolding is_due
is_due-due policy now r id c h present = ground (arith, h.deadlines id)

-- the comprehension of `purge_expired`, on the rest of the channels
expired_ids-due :
    (policy : ExpiryPolicy) (now : ℕ) (r : Registry) (rest : Dict String Channel)
    → IsConsistent r
    → IsDistinct rest
    → ((j : String) (c : Channel) → get rest j ≡ some c → get r.channels j ≡ some c)
    → (ids : List String) × (expired_ids policy now r rest ≡ some ids)
      × ((j : String) → contains ids j ≡ (has rest j && due policy now r j))
unfolding expired_ids get
expired_ids-due policy now r [] h distinct sub = ([], refl, λ j. refl)
expired_ids-due policy now r ((id, c) ∷ rest) h distinct sub =
    let (ids, found, exactly) =
      expired_ids-due policy now r rest h distinct.1
        (λ j d q. sub j d (ground (arith, ==_iff id j))) in
    let present : get r.channels id ≡ some c = sub id c (ground (arith, ==_iff id id)) in
    let this = is_due-due policy now r id c h present in
    (
      if due policy now r id then id ∷ ids else ids,
      ground arith,
      λ j. ground (arith, exactly j, ==_iff id j),
    )

-- `purge_expired` on a consistent registry always ends without an error. It removes exactly the
-- channels that are offline and whose deadline has passed, leaves every other channel as it was, and
-- returns the number of channels that it removed.
pub purge_expired-due :
    (policy : ExpiryPolicy) (now : ℕ) (r : Registry)
    → IsConsistent r
    → (n : ℕ) × (s : Registry) × (purge_expired policy now r ≡ some (n, s))
      × ((j : String) → get s.channels j ≡ (if due policy now r j then none else get r.channels j))
      × (n + length s.channels ≡ length r.channels)
unfolding purge_expired
purge_expired-due policy now r h =
    let (ids, found, exactly) = expired_ids-due policy now r r.channels h h.distinct (λ j c q. q) in
    (
      (remove_each ids r).0,
      (remove_each ids r).1,
      rw (found, purge_expired) refl,
      λ j. ground (arith, get-remove_each ids r j, exactly j),
      count-remove_each ids r h,
    )

no_keys : (d : Dict String Channel) → ((j : String) → get d j ≡ none) → d ≡ []
unfolding get
no_keys [] h = refl
no_keys ((j, c) ∷ d) h = absurd (ground (arith, h j, ==_iff j j))

get-close_each :
    (ids : List String) (r : Registry) (j : String)
    → get (close_each ids r).channels j ≡ (if contains ids j then none else get r.channels j)
unfolding close_each
get-close_each [] r j = refl
get-close_each (id ∷ ids) r j = ground (
  arith,
  get-close_each ids (remove_channel id false r).1 j,
  channels-remove id false r,
  get-pop r.channels id j,
  ==_iff id j,
)

contains-keys : (d : Dict String Channel) (j : String) → contains (keys d) j ≡ has d j
unfolding get
contains-keys [] j = refl
contains-keys ((i, c) ∷ d) j = ground (arith, contains-keys d j)

-- `close_all` leaves no channel, connected or not.
pub channel_count-close_all : (r : Registry) → channel_count (close_all r) ≡ 0
unfolding close_all channel_count
channel_count-close_all r = ap length (
    no_keys (close_all r).channels
      (λ j. ground (arith, get-close_each (keys r.channels) r j, contains-keys r.channels j)))
