-- ===== src/Registry/Admin.antt =====
-- src/mcpgtw/registry.py: `admin_channels`, with the `snapshot` of src/mcpgtw/channel.py. `none` is a
-- `KeyError`.
use mcp_gtw.Base.{
  ℕ, suc, String, Bool, true, Option, none, some, List, [], ◌∷◌, ◌++◌, ◌≡◌, refl, arith, text_eq,
  ==_iff, length, length-append, not, keep_if, ◌-◌, Option-cases, inl, inr, ap, ◌∙◌, if◌then◌else◌,
}
use mcp_gtw.Dict.{Dict, get, has, keys}
use mcp_gtw.Dict.Laws.{IsDistinct}
use mcp_gtw.Channel.{Channel, provider_connected as is_connected, tool_count}
use mcp_gtw.Registry.{Registry}
use mcp_gtw.Registry.Expiry.{ExpiryPolicy}
use mcp_gtw.Registry.Consistency.{IsConsistent}

pub record Snapshot : Type 0 where
  pub channel_id : String
  pub provider_connected : Bool
  pub provider_id : Option String
  pub provider_name : Option String
  pub tool_count : ℕ
  pub resource_count : ℕ
  pub tools : List String
  pub pending_calls : ℕ

unfoldable pub snapshot : Channel → Snapshot
snapshot c = record {
  channel_id = c.channel_id;
  provider_connected = is_connected c;
  provider_id = c.provider_id;
  provider_name = c.provider_name;
  tool_count = tool_count c;
  resource_count = length c.resources;
  tools = keys c.tools;
  pending_calls = length c.pending;
}

pub record AdminEntry : Type 0 where
  pub snapshot : Snapshot
  pub age_seconds : Option ℕ
  pub reclaim_in_seconds : Option ℕ

-- `round_tenth` is Python's `round(_, 1)`
unfoldable pub age_seconds : (ℕ → ℕ) → Registry → String → ℕ → Option ℕ
age_seconds round_tenth r channel_id now = elim (get r.created channel_id) [
  | none ↦ none
  | some created ↦ some (round_tenth (now - created))
]

unfoldable pub reclaim_in : ExpiryPolicy → Registry → String → Channel → ℕ → Option (Option ℕ)
reclaim_in policy r channel_id channel now =
    if is_connected channel then some none else elim (get r.expiry channel_id) [
      | none ↦ none
      | some deadline ↦ some (policy.reclaim_in deadline now)
    ]

unfoldable pub entry : (ℕ → ℕ) → Registry → ℕ → String → Channel → Option ℕ → AdminEntry
entry round_tenth r now channel_id channel seconds = record {
  snapshot = snapshot channel;
  age_seconds = age_seconds round_tenth r channel_id now;
  reclaim_in_seconds = seconds;
}

unfoldable pub admin_entries :
    (ℕ → ℕ) → ExpiryPolicy → Registry → ℕ → Dict String Channel → Option (List AdminEntry)
admin_entries round_tenth policy r now [] = some []
admin_entries round_tenth policy r now ((channel_id, channel) ∷ rest) =
    elim (reclaim_in policy r channel_id channel now) [
      | none ↦ none
      | some seconds ↦ elim (admin_entries round_tenth policy r now rest) [
        | none ↦ none
        | some entries ↦ some (entry round_tenth r now channel_id channel seconds ∷ entries)
      ]
    ]

abbrev pub is_online : AdminEntry → Bool
is_online e = e.snapshot.provider_connected

-- a stable sort by a Boolean key
unfoldable pub sorted_by : (AdminEntry → Bool) → List AdminEntry → List AdminEntry
sorted_by key entries = keep_if (λ e. not (key e)) entries ++ keep_if key entries

unfoldable pub admin_channels : (ℕ → ℕ) → ExpiryPolicy → Registry → ℕ → Option (List AdminEntry)
admin_channels round_tenth policy r now = elim (admin_entries round_tenth policy r now r.channels) [
  | none ↦ none
  | some entries ↦ some (sorted_by (λ e. not (is_online e)) entries)
]

module _ (round_tenth : ℕ → ℕ) (policy : ExpiryPolicy) (r : Registry) (now : ℕ) where
  -- the entries of channels that all have a deadline
  admin_entries-ends :
      (rest : Dict String Channel)
      → IsConsistent r
      → IsDistinct rest
      → ((j : String) → has rest j ≡ true → has r.channels j ≡ true)
      → (entries : List AdminEntry) × (admin_entries round_tenth policy r now rest ≡ some entries)
        × (length entries ≡ length rest)
  unfolding admin_entries get
  admin_entries-ends [] h distinct sub = ([], refl, refl)
  admin_entries-ends ((id, c) ∷ rest) h distinct sub =
      let (entries, found, same) =
        admin_entries-ends rest h distinct.1 (λ j q. sub j (ground arith)) in
      let present = sub id (ground (arith, ==_iff id id)) in
      elim (Option-cases (reclaim_in policy r id c now)) [
        | inl e ↦ absurd (unfold reclaim_in in ground (arith, h.deadlines id))
        | inr (seconds, e) ↦ (
          entry round_tenth r now id c seconds ∷ entries,
          rw (e, found, admin_entries) refl,
          ap suc same,
        )
      ]

  length-keep_if_both :
      (key : AdminEntry → Bool) (entries : List AdminEntry)
      → length (keep_if (λ e. not (key e)) entries ++ keep_if key entries) ≡ length entries
  length-keep_if_both key [] = refl
  length-keep_if_both key (e ∷ entries) = ground (
    arith,
    length-keep_if_both key entries,
    length-append (keep_if (λ e. not (key e)) entries) (keep_if key entries),
    length-append (keep_if (λ e. not (key e)) entries) (e ∷ keep_if key entries),
  )

  -- On a consistent registry `admin_channels` always answers, with one entry for each channel.
  pub length-admin_channels :
      IsConsistent r
      → (entries : List AdminEntry) × (admin_channels round_tenth policy r now ≡ some entries)
        × (length entries ≡ length r.channels)
  unfolding admin_channels sorted_by
  length-admin_channels h =
      let (entries, found, same) = admin_entries-ends r.channels h h.distinct (λ j q. q) in
      (
        sorted_by (λ e. not (is_online e)) entries,
        rw (found, admin_channels) refl,
        length-keep_if_both (λ e. not (is_online e)) entries ∙ same,
      )
