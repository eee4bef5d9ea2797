-- ===== src/Registry/Expiry.antt =====
-- src/mcpgtw/expiry.py: the policy that computes deadlines, an interface of the registry, and the
-- default one.
use mcp_gtw.Base.{ℕ, Bool, false, Option, none, some, leb, ◌+◌, ◌-◌}
use mcp_gtw.Registry.{Deadline, at, never}

pub record ExpiryPolicy : Type 0 where
  pub initial_deadline : ℕ → Option ℕ → Deadline
  pub connected_deadline : Deadline
  pub disconnected_deadline : ℕ → Deadline
  pub is_expired : Deadline → ℕ → Bool
  pub reclaim_in : Deadline → ℕ → Option ℕ

abbrev grace : ℕ → Option ℕ → ℕ
grace offline_ttl_seconds none = offline_ttl_seconds
grace offline_ttl_seconds (some ttl_seconds) = ttl_seconds

unfoldable pub is_expired : Deadline → ℕ → Bool
is_expired (at deadline) now = leb deadline now
is_expired never now = false

-- `round_tenth` is Python's `round(_, 1)`
unfoldable pub reclaim_in : (ℕ → ℕ) → Deadline → ℕ → Option ℕ
reclaim_in round_tenth (at deadline) now = some (round_tenth (deadline - now))
reclaim_in round_tenth never now = none

-- `TtlExpiryPolicy`
unfoldable pub ttl_policy : (ℕ → ℕ) → ℕ → ExpiryPolicy
ttl_policy round_tenth offline_ttl_seconds = record {
  initial_deadline = λ now ttl_seconds. at (now + grace offline_ttl_seconds ttl_seconds);
  connected_deadline = never;
  disconnected_deadline = λ now. at (now + offline_ttl_seconds);
  is_expired = is_expired;
  reclaim_in = reclaim_in round_tenth;
}
