-- ===== src/Registry/Preservation.antt =====
-- src/mcpgtw/registry.py: each operation of the registry keeps the indexes in agreement with the
-- channels.
use mcp_gtw.Base.{
  ℕ, String, Bool, true, false, some, List, [], ◌∷◌, ◌≡◌, arith, text_eq, ◌==◌, ==_iff, Bool-cases,
  Option-cases, inl, inr, ◌&&◌, not,
}
use mcp_gtw.Errors.{Result}
use mcp_gtw.Dict.{get, has, set}
use mcp_gtw.Dict.Laws.{get-set, length-set, set-IsDistinct}
use mcp_gtw.Channel.{Channel, provider_connected as is_connected}
use mcp_gtw.Channel.Attach.{close}
use mcp_gtw.Registry.{Registry, Event, Deadline}
use mcp_gtw.Registry.Expiry.{ExpiryPolicy}
use mcp_gtw.Registry.Tokens.{token_taken}
use mcp_gtw.Registry.Lifecycle.{
  NewChannel, announce, dispatch, dispatch_to, remove_channel, remove_locked, remove_each, retire,
  provider_connected, provider_disconnected, close_each,
}
use mcp_gtw.Registry.Consistency.{IsConsistent, enter-IsConsistent, remove_locked-IsConsistent}
use mcp_gtw.Registry.Creation.{Outcome, placed, refused, after}

-- what an operation of a channel leaves as it is
pub record KeepsNames (c d : Channel) : Type 0 where
  pub channel_id : d.channel_id ≡ c.channel_id
  pub mcp_token : d.mcp_token ≡ c.mcp_token
  pub provider_token : d.provider_token ≡ c.provider_token

-- the tables are the same
abbrev like : Registry → List ℕ → ℕ → List (ℕ × Event × Channel) → List Channel → Registry
like r listeners generated dispatched removed = record r {
  listeners = listeners;
  generated = generated;
  dispatched = dispatched;
  removed = removed;
}

pub like-IsConsistent :
    (r : Registry) (listeners : List ℕ) (generated : ℕ) (dispatched : List (ℕ × Event × Channel))
    (removed : List Channel)
    → IsConsistent r
    → IsConsistent (like r listeners generated dispatched removed)
like-IsConsistent r listeners generated dispatched removed h = record {
  named = h.named;
  mcp_listed = h.mcp_listed;
  provider_listed = h.provider_listed;
  mcp_owned = h.mcp_owned;
  provider_owned = h.provider_owned;
  separate = h.separate;
  deadlines = h.deadlines;
  distinct = h.distinct;
  bounded = h.bounded;
}

dispatch_to-IsConsistent :
    (listeners : List ℕ) (event : Event) (c : Channel) (r : Registry)
    → IsConsistent r
    → IsConsistent (dispatch_to listeners event c r)
unfolding dispatch_to
dispatch_to-IsConsistent [] event c r h = h
dispatch_to-IsConsistent (listener ∷ rest) event c r h =
    dispatch_to-IsConsistent rest event c
      (record r { dispatched = (listener, event, c) ∷ r.dispatched })
      (like-IsConsistent r r.listeners r.generated ((listener, event, c) ∷ r.dispatched) r.removed
        h)

dispatch-IsConsistent :
    (event : Event) (c : Channel) (r : Registry)
    → IsConsistent r
    → IsConsistent (dispatch event c r)
unfolding dispatch
dispatch-IsConsistent event c r h = dispatch_to-IsConsistent r.listeners event c r h

pub Outcome-IsConsistent :
    (policy : ExpiryPolicy) (now : ℕ) (request : NewChannel) (r : Registry) (res : Result Channel)
    (s : Registry)
    → IsConsistent r
    → Outcome policy now request r res s
    → IsConsistent (announce (res, s)).1
unfolding token_taken
Outcome-IsConsistent policy now request r res s h (refused n e) =
    like-IsConsistent r r.listeners n r.dispatched r.removed h
Outcome-IsConsistent policy now request r res s h (placed n c room absent apart free_mcp free) =
    dispatch-IsConsistent Event.on_channel_created c _ (
      enter-IsConsistent (after n r) (like-IsConsistent r r.listeners n r.dispatched r.removed h)
        policy now request c room absent apart free_mcp free)

retire-IsConsistent : (c : Channel) (r : Registry) → IsConsistent r → IsConsistent (retire c r)
unfolding retire
retire-IsConsistent c r h =
    dispatch-IsConsistent Event.on_channel_removed (close c) _
      (like-IsConsistent r r.listeners r.generated r.dispatched (close c ∷ r.removed) h)

pub remove_channel-IsConsistent :
    (id : String) (require_offline : Bool) (r : Registry)
    → IsConsistent r
    → IsConsistent (remove_channel id require_offline r).1
unfolding remove_channel
remove_channel-IsConsistent id require_offline r h = elim (Option-cases (get r.channels id)) [
  | inl e ↦ rw (e, remove_channel) h
  | inr (c, e) ↦ elim (Bool-cases (require_offline && is_connected c)) [
    | inl kept ↦ rw (e, kept, remove_channel) h
    | inr free ↦
        rw (e, free, remove_channel)
          (retire-IsConsistent c (remove_locked id c r) (remove_locked-IsConsistent r h id c e))
  ]
]

pub remove_each-IsConsistent :
    (ids : List String) (r : Registry) → IsConsistent r → IsConsistent (remove_each ids r).1
unfolding remove_each
remove_each-IsConsistent [] r h = h
remove_each-IsConsistent (id ∷ ids) r h =
    remove_each-IsConsistent ids (remove_channel id true r).1
      (remove_channel-IsConsistent id true r h)

pub close_each-IsConsistent :
    (ids : List String) (r : Registry) → IsConsistent r → IsConsistent (close_each ids r)
unfolding close_each
close_each-IsConsistent [] r h = h
close_each-IsConsistent (id ∷ ids) r h =
    close_each-IsConsistent ids (remove_channel id false r).1
      (remove_channel-IsConsistent id false r h)

-- a new deadline of a present channel
renew-IsConsistent :
    (r : Registry) (id : String) (deadline : Deadline)
    → has r.channels id ≡ true
    → IsConsistent r
    → IsConsistent (record r { expiry = set r.expiry id deadline })
renew-IsConsistent r id deadline present h = record {
  named = h.named;
  mcp_listed = h.mcp_listed;
  provider_listed = h.provider_listed;
  mcp_owned = h.mcp_owned;
  provider_owned = h.provider_owned;
  separate = h.separate;
  deadlines = λ j. ground (arith, get-set r.expiry id deadline j, h.deadlines j, ==_iff id j);
  distinct = h.distinct;
  bounded = h.bounded;
}

pub connected-IsConsistent :
    (policy : ExpiryPolicy) (c : Channel) (r : Registry)
    → IsConsistent r
    → IsConsistent (provider_connected policy c r).1
unfolding provider_connected
connected-IsConsistent policy c r h = elim (Bool-cases (has r.channels c.channel_id)) [
  | inl present ↦
      rw (present, provider_connected)
        (dispatch-IsConsistent Event.on_provider_connected c _
          (renew-IsConsistent r c.channel_id policy.connected_deadline present h))
  | inr absent ↦
      rw (absent, provider_connected) (dispatch-IsConsistent Event.on_provider_connected c r h)
]

pub disconnected-IsConsistent :
    (policy : ExpiryPolicy) (now : ℕ) (c : Channel) (r : Registry)
    → IsConsistent r
    → IsConsistent (provider_disconnected policy now c r)
unfolding provider_disconnected
disconnected-IsConsistent policy now c r h =
    elim (Bool-cases (has r.channels c.channel_id && not (is_connected c))) [
      | inl present ↦
          rw (present, provider_disconnected)
            (dispatch-IsConsistent Event.on_provider_disconnected c _ (
              renew-IsConsistent r c.channel_id (policy.disconnected_deadline now) (ground arith)
                h))
      | inr absent ↦
          rw (absent, provider_disconnected)
            (dispatch-IsConsistent Event.on_provider_disconnected c r h)
    ]

pub acts-IsConsistent :
    (r : Registry) (id : String) (c d : Channel)
    → get r.channels id ≡ some c
    → KeepsNames c d
    → IsConsistent r
    → IsConsistent (record r { channels = set r.channels id d })
acts-IsConsistent r id c d present names h = record {
  named = λ j e q.
      ground (
        arith,
        get-set r.channels id d j,
        h.named j e,
        h.named id c,
        ==_iff id j,
        names.channel_id,
      );
  mcp_listed = λ j e q. ground (
    arith,
    get-set r.channels id d j,
    h.mcp_listed j e,
    h.mcp_listed id c,
    ==_iff id j,
    names.mcp_token,
  );
  provider_listed = λ j e q. ground (
    arith,
    get-set r.channels id d j,
    h.provider_listed j e,
    h.provider_listed id c,
    ==_iff id j,
    names.provider_token,
  );
  mcp_owned = λ t j q.
      let (e, found, same) = h.mcp_owned t j q in
      elim (Bool-cases (id == j)) [
        | inl same_id ↦ (
          d,
          ground (arith, get-set r.channels id d j),
          ground (arith, ==_iff id j, names.mcp_token),
        )
        | inr other_id ↦ (e, ground (arith, get-set r.channels id d j), same)
      ];
  provider_owned = λ t j q.
      let (e, found, same) = h.provider_owned t j q in
      elim (Bool-cases (id == j)) [
        | inl same_id ↦ (
          d,
          ground (arith, get-set r.channels id d j),
          ground (arith, ==_iff id j, names.provider_token),
        )
        | inr other_id ↦ (e, ground (arith, get-set r.channels id d j), same)
      ];
  separate = h.separate;
  deadlines = λ j. ground (arith, get-set r.channels id d j, h.deadlines j, ==_iff id j);
  distinct = set-IsDistinct r.channels id d h.distinct;
  bounded = ground (arith, h.bounded, length-set r.channels id d);
}
