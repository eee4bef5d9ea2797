-- ===== src/Registry/Deadlines.antt =====
-- src/mcpgtw/expiry.py in the registry: when a channel under the default policy is due.
use mcp_gtw.Base.{
  ℕ, String, true, false, some, ◌≡◌, arith, text_eq, ==_iff, ◌&&◌, not, leb, ◌+◌, ap, ◌∙◌,
}
use mcp_gtw.Dict.{get, has, set}
use mcp_gtw.Dict.Laws.{get-set}
use mcp_gtw.Channel.{Channel, provider_connected as is_connected}
use mcp_gtw.Registry.{Registry, Event, Deadline, at, never}
use mcp_gtw.Registry.Expiry.{ExpiryPolicy, ttl_policy, is_expired}
use mcp_gtw.Registry.Lifecycle.{dispatch, provider_connected, provider_disconnected}
use mcp_gtw.Registry.Lookup.{Tables, tables, tables-dispatch_to}
use mcp_gtw.Registry.Purge.{due}

due-tables :
    (policy : ExpiryPolicy) (now : ℕ) (r s : Registry) (id : String)
    → tables s ≡ tables r
    → due policy now s id ≡ due policy now r id
due-tables policy now r s id same =
    let one = ap (λ (k : Tables). get k.0 id) same in
    let two = ap (λ (k : Tables). get k.3 id) same in ground (arith, one, two)

abbrev renewed : String → Deadline → Registry → Registry
renewed id deadline r = record r { expiry = set r.expiry id deadline }

due-renewed :
    (policy : ExpiryPolicy) (now : ℕ) (r : Registry) (id : String) (deadline : Deadline)
    (c : Channel)
    → get r.channels id ≡ some c
    → due policy now (renewed id deadline r) id
      ≡ (not (is_connected c) && policy.is_expired deadline now)
due-renewed policy now r id deadline c present =
    ground (arith, get-set r.expiry id deadline id, ==_iff id id)

tables-disconnected :
    (policy : ExpiryPolicy) (now : ℕ) (c : Channel) (r : Registry)
    → has r.channels c.channel_id ≡ true
    → is_connected c ≡ false
    → tables (provider_disconnected policy now c r)
      ≡ tables (renewed c.channel_id (policy.disconnected_deadline now) r)
unfolding provider_disconnected dispatch
tables-disconnected policy now c r registered offline =
    rw (registered, offline, provider_disconnected)
      (tables-dispatch_to r.listeners Event.on_provider_disconnected c
        (renewed c.channel_id (policy.disconnected_deadline now) r))

tables-connected :
    (policy : ExpiryPolicy) (c : Channel) (r : Registry)
    → has r.channels c.channel_id ≡ true
    → tables (provider_connected policy c r).1
      ≡ tables (renewed c.channel_id policy.connected_deadline r)
unfolding provider_connected dispatch
tables-connected policy c r registered =
    rw (registered, provider_connected)
      (tables-dispatch_to r.listeners Event.on_provider_connected c
        (renewed c.channel_id policy.connected_deadline r))

-- Under the default policy an offline channel whose provider disconnected is due exactly when the
-- offline time-to-live has passed since then, and a channel whose provider connected is never due
-- until a disconnection sets a new deadline, even if it is offline.
pub due-disconnected :
    (round_tenth : ℕ → ℕ) (ttl now later : ℕ) (r : Registry) (c : Channel)
    → get r.channels c.channel_id ≡ some c
    → (is_connected c ≡ false
        → due
            (ttl_policy round_tenth ttl)
            later
            (provider_disconnected (ttl_policy round_tenth ttl) now c r)
            c.channel_id
          ≡ leb (now + ttl) later)
      × (due
            (ttl_policy round_tenth ttl)
            later
            (provider_connected (ttl_policy round_tenth ttl) c r).1
            c.channel_id
          ≡ false)
unfolding ttl_policy is_expired
due-disconnected round_tenth ttl now later r c present =
    let policy = ttl_policy round_tenth ttl in
    let disconnected = provider_disconnected policy now c r in
    let connected = (provider_connected policy c r).1 in
    let registered : has r.channels c.channel_id ≡ true = ground arith in
    (
      λ offline.
          due-tables policy later (renewed c.channel_id (at (now + ttl)) r) disconnected
            c.channel_id (tables-disconnected policy now c r registered offline)
          ∙ due-renewed policy later r c.channel_id (at (now + ttl)) c present
          ∙ ground (arith, offline),
      due-tables policy later (renewed c.channel_id never r) connected c.channel_id
            (tables-connected policy c r registered)
          ∙ due-renewed policy later r c.channel_id never c present
          ∙ ground arith,
    )
