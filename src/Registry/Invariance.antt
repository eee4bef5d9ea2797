-- ===== src/Registry/Invariance.antt =====
-- src/mcpgtw/registry.py: every operation of the registry, and every step of its channels, keeps the
-- indexes in agreement with the channels.
use mcp_gtw.Base.{ℕ, String, List, ◌≡◌, refl, arith, text_eq, Option-cases, inl, inr, subst, ap}
use mcp_gtw.Settings.{Settings}
use mcp_gtw.Dict.{get, keys}
use mcp_gtw.Registry.{Registry, new_registry}
use mcp_gtw.Registry.Expiry.{ExpiryPolicy}
use mcp_gtw.Registry.Tokens.{TokenProvider}
use mcp_gtw.Registry.Lifecycle.{
  add_listener, announce, create_channel, create_locked, remove_each, expired_ids, purge_expired,
  close_all,
}
use mcp_gtw.Registry.Consistency.{IsConsistent}
use mcp_gtw.Registry.Creation.{create_locked-Outcome}
use mcp_gtw.Registry.Steps.{
  Step, Reach, here, next, listens, creates, removes, purges, connects, disconnects, acts, closes,
}
use mcp_gtw.Channel.Names.{Step-names}
use mcp_gtw.Registry.Preservation.{
  like-IsConsistent, Outcome-IsConsistent, remove_channel-IsConsistent, remove_each-IsConsistent,
  close_each-IsConsistent, connected-IsConsistent, disconnected-IsConsistent, acts-IsConsistent,
}

Step-IsConsistent :
    (tokens : TokenProvider) (policy : ExpiryPolicy) {r s : Registry}
    → Step tokens policy r s
    → IsConsistent r
    → IsConsistent s
unfolding add_listener create_channel purge_expired close_all
Step-IsConsistent tokens policy (listens r listener) h =
    like-IsConsistent r _ r.generated r.dispatched r.removed h
Step-IsConsistent tokens policy (creates r now request x e) h =
    elim (Option-cases (create_locked tokens policy now request r)) [
      | inl q ↦ absurd (ground arith)
      | inr (y, q) ↦
          let found : announce y ≡ x = ground arith in
          subst (λ z. IsConsistent z.1) found
            (Outcome-IsConsistent policy now request r y.0 y.1 h
              (create_locked-Outcome policy now request r tokens y q))
    ]
Step-IsConsistent tokens policy (removes r id require_offline) h =
    remove_channel-IsConsistent id require_offline r h
Step-IsConsistent tokens policy (purges r now x e) h =
    elim (Option-cases (expired_ids policy now r r.channels)) [
      | inl q ↦ absurd (ground arith)
      | inr (ids, q) ↦
          let found : remove_each ids r ≡ x = ground arith in
          subst (λ z. IsConsistent z.1) found (remove_each-IsConsistent ids r h)
    ]
Step-IsConsistent tokens policy (connects r c) h = connected-IsConsistent policy c r h
Step-IsConsistent tokens policy (disconnects r now c) h = disconnected-IsConsistent policy now c r h
Step-IsConsistent tokens policy (acts r id c d lib w present step) h =
    let same = Step-names step in
    acts-IsConsistent r id c d present
      (record {
        channel_id = ap (λ (n : String × String × String). n.0) same;
        mcp_token = ap (λ (n : String × String × String). n.1) same;
        provider_token = ap (λ (n : String × String × String). n.2) same;
      })
      h
Step-IsConsistent tokens policy (closes r) h = close_each-IsConsistent (keys r.channels) r h

Reach-keeps :
    {tokens : TokenProvider} {policy : ExpiryPolicy} {r s : Registry}
    → IsConsistent r
    → Reach tokens policy r s
    → IsConsistent s
Reach-keeps h here = h
Reach-keeps {tokens} {policy} h (next reached step) =
    Step-IsConsistent tokens policy step (Reach-keeps h reached)

new_registry-IsConsistent :
    (s : Settings) (listeners : List ℕ) → IsConsistent (new_registry s listeners)
unfolding new_registry get
new_registry-IsConsistent s listeners = record {
  named = λ id c h. cc;
  mcp_listed = λ id c h. cc;
  provider_listed = λ id c h. cc;
  mcp_owned = λ t id h. absurd (ground arith);
  provider_owned = λ t id h. absurd (ground arith);
  separate = λ t h. refl;
  deadlines = λ id. refl;
  distinct = tt;
  bounded = ground arith;
}

-- However creations, removals, purges, connections, disconnections and the channels' own steps
-- interleave, the registry of a running gateway is consistent: a channel is found under its id and
-- under both of its tokens, a listed token is the one of a channel, no token is both an mcp token
-- and a provider token, exactly the channels have deadlines, no id stands twice, and at most the
-- configured number of channels exists.
pub Reach-IsConsistent :
    (tokens : TokenProvider) (policy : ExpiryPolicy) (s : Settings) (listeners : List ℕ)
    (r : Registry)
    → Reach tokens policy (new_registry s listeners) r
    → IsConsistent r
Reach-IsConsistent tokens policy s listeners r reached =
    Reach-keeps (new_registry-IsConsistent s listeners) reached
