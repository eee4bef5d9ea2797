-- ===== src/Registry/Consistency.antt =====
-- src/mcpgtw/registry.py: the indexes of the registry agree with its channels, and creating and
-- removing a channel keeps them so.
use mcp_gtw.Base.{
  ℕ, String, true, false, some, ◌≡◌, ◌≢◌, arith, text_eq, ◌==◌, ==_iff, length, Bool-cases, inl,
  inr,
}
use mcp_gtw.Settings.{over_limit, at_limit}
use mcp_gtw.Dict.{Dict, get, has, pop}
use mcp_gtw.Dict.Laws.{
  get-set, get-pop, length-set, length-pop-le, IsDistinct, set-IsDistinct, pop-IsDistinct,
}
use mcp_gtw.Channel.{Channel, new_channel}
use mcp_gtw.Registry.{Registry}
use mcp_gtw.Registry.Expiry.{ExpiryPolicy}
use mcp_gtw.Registry.Tokens.{token_taken}
use mcp_gtw.Registry.Lifecycle.{NewChannel, metadata_or_empty, place, enter, remove_locked}

pub record IsConsistent (r : Registry) : Type 0 where
  pub named : (id : String) (c : Channel) → get r.channels id ≡ some c → c.channel_id ≡ id
  -- a channel is listed under both of its tokens
  pub mcp_listed :
      (id : String) (c : Channel)
      → get r.channels id ≡ some c
      → get r.by_mcp_token c.mcp_token ≡ some id
  pub provider_listed :
      (id : String) (c : Channel)
      → get r.channels id ≡ some c
      → get r.by_provider_token c.provider_token ≡ some id
  -- a token that is listed is the one of a channel
  pub mcp_owned :
      (t id : String)
      → get r.by_mcp_token t ≡ some id
      → (c : Channel) × (get r.channels id ≡ some c) × (c.mcp_token ≡ t)
  pub provider_owned :
      (t id : String)
      → get r.by_provider_token t ≡ some id
      → (c : Channel) × (get r.channels id ≡ some c) × (c.provider_token ≡ t)
  -- no token is both private and public
  pub separate : (t : String) → has r.by_mcp_token t ≡ true → has r.by_provider_token t ≡ false
  pub deadlines : (id : String) → has r.expiry id ≡ has r.channels id
  pub distinct : IsDistinct r.channels
  pub bounded : over_limit r.settings.maximum_channels (length r.channels) ≡ false

get-pop-some :
    (d : Dict String String) (k j : String) {v : String}
    → get (pop d k) j ≡ some v
    → get d j ≡ some v
get-pop-some d k j h = ground (arith, get-pop d k j)

module _ (r : Registry) (consistent : IsConsistent r) where
  open consistent use {
    named, mcp_listed, provider_listed, mcp_owned, provider_owned, separate, deadlines, distinct,
    bounded,
  }

  pub remove_locked-IsConsistent :
      (id : String) (c : Channel) → get r.channels id ≡ some c → IsConsistent (remove_locked id c r)
  unfolding remove_locked
  remove_locked-IsConsistent id c present = record {
    named = λ j d h. ground (arith, get-pop r.channels id j, named j d, ==_iff id j);
    mcp_listed = λ j d h. ground (
      arith,
      get-pop r.channels id j,
      get-pop r.by_mcp_token c.mcp_token d.mcp_token,
      mcp_listed j d,
      mcp_listed id c,
      ==_iff id j,
      ==_iff c.mcp_token d.mcp_token,
    );
    provider_listed = λ j d h. ground (
      arith,
      get-pop r.channels id j,
      get-pop r.by_provider_token c.provider_token d.provider_token,
      provider_listed j d,
      provider_listed id c,
      ==_iff id j,
      ==_iff c.provider_token d.provider_token,
    );
    mcp_owned = λ t j h.
        let (d, found, same) = mcp_owned t j (get-pop-some r.by_mcp_token c.mcp_token t h) in
        (
          d,
          ground (
            arith,
            get-pop r.channels id j,
            get-pop r.by_mcp_token c.mcp_token t,
            ==_iff id j,
            ==_iff c.mcp_token t,
          ),
          same,
        );
    provider_owned = λ t j h.
        let (d, found, same) =
          provider_owned t j (get-pop-some r.by_provider_token c.provider_token t h) in
        (
          d,
          ground (
            arith,
            get-pop r.channels id j,
            get-pop r.by_provider_token c.provider_token t,
            ==_iff id j,
            ==_iff c.provider_token t,
          ),
          same,
        );
    separate = λ t h. ground (
      arith,
      get-pop r.by_mcp_token c.mcp_token t,
      get-pop r.by_provider_token c.provider_token t,
      separate t,
    );
    deadlines = λ j. ground (arith, get-pop r.channels id j, get-pop r.expiry id j, deadlines j);
    distinct = pop-IsDistinct r.channels id distinct;
    bounded = ground (arith, bounded, length-pop-le r.channels id);
  }

  pub enter-IsConsistent :
      (policy : ExpiryPolicy) (now : ℕ) (request : NewChannel) (c : Channel)
      → at_limit r.settings.maximum_channels (length r.channels) ≡ false
      → has r.channels c.channel_id ≡ false
      → c.mcp_token ≢ c.provider_token
      → token_taken r c.mcp_token ≡ false
      → token_taken r c.provider_token ≡ false
      → IsConsistent (enter policy now request c r)
  unfolding enter token_taken
  enter-IsConsistent policy now request c room absent apart free_mcp free_provider = record {
    named = λ j d h.
        ground (arith, get-set r.channels c.channel_id c j, named j d, ==_iff c.channel_id j);
    mcp_listed = λ j d h. ground (
      arith,
      get-set r.channels c.channel_id c j,
      get-set r.by_mcp_token c.mcp_token c.channel_id d.mcp_token,
      mcp_listed j d,
      ==_iff c.channel_id j,
      ==_iff c.mcp_token d.mcp_token,
    );
    provider_listed = λ j d h. ground (
      arith,
      get-set r.channels c.channel_id c j,
      get-set r.by_provider_token c.provider_token c.channel_id d.provider_token,
      provider_listed j d,
      ==_iff c.channel_id j,
      ==_iff c.provider_token d.provider_token,
    );
    mcp_owned = λ t j h. elim (Bool-cases (c.mcp_token == t)) [
      | inl q ↦ (
        c,
        ground (
          arith,
          get-set r.channels c.channel_id c j,
          ==_iff c.channel_id j,
          get-set r.by_mcp_token c.mcp_token c.channel_id t,
        ),
        (==_iff c.mcp_token t).0 q,
      )
      | inr q ↦
          let (d, found, same) =
            mcp_owned t j (ground (arith, get-set r.by_mcp_token c.mcp_token c.channel_id t)) in
          (d, ground (arith, get-set r.channels c.channel_id c j, ==_iff c.channel_id j), same)
    ];
    provider_owned = λ t j h. elim (Bool-cases (c.provider_token == t)) [
      | inl q ↦ (
        c,
        ground (
          arith,
          get-set r.channels c.channel_id c j,
          ==_iff c.channel_id j,
          get-set r.by_provider_token c.provider_token c.channel_id t,
        ),
        (==_iff c.provider_token t).0 q,
      )
      | inr q ↦
          let (d, found, same) =
            provider_owned t j
              (ground (arith, get-set r.by_provider_token c.provider_token c.channel_id t)) in
          (d, ground (arith, get-set r.channels c.channel_id c j, ==_iff c.channel_id j), same)
    ];
    separate = λ t h. ground (
      arith,
      get-set r.by_mcp_token c.mcp_token c.channel_id t,
      get-set r.by_provider_token c.provider_token c.channel_id t,
      separate t,
      ==_iff c.mcp_token t,
      ==_iff c.provider_token t,
    );
    deadlines = λ j. ground (
      arith,
      get-set r.channels c.channel_id c j,
      get-set r.expiry c.channel_id (policy.initial_deadline now request.ttl_seconds) j,
      deadlines j,
    );
    distinct = set-IsDistinct r.channels c.channel_id c distinct;
    bounded = ground (arith, bounded, length-set r.channels c.channel_id c);
  }

  pub place-IsConsistent :
      (policy : ExpiryPolicy) (now : ℕ) (request : NewChannel) (id mcp provider : String)
      → at_limit r.settings.maximum_channels (length r.channels) ≡ false
      → has r.channels id ≡ false
      → IsConsistent (place policy now request id mcp provider r).1
  unfolding place new_channel
  place-IsConsistent policy now request id mcp provider room absent =
      elim (Bool-cases (mcp == provider)) [
        | inl same ↦ rw same consistent
        | inr differ ↦ elim (Bool-cases (token_taken r mcp)) [
          | inl taken ↦ rw (differ, taken) consistent
          | inr free_mcp ↦ elim (Bool-cases (token_taken r provider)) [
            | inl taken ↦ rw (differ, free_mcp, taken) consistent
            | inr free ↦
                rw (differ, free_mcp, free)
                  (enter-IsConsistent policy now request
                    (new_channel id mcp provider r.settings (metadata_or_empty request.metadata))
                    room absent (ground (arith, ==_iff mcp provider)) free_mcp free)
          ]
        ]
      ]
