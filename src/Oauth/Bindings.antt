-- ===== src/Oauth/Bindings.antt =====
-- src/mcpgtw/oauth/session_binding.py: which identity an MCP session belongs to.
pub mod Order
pub mod History
pub mod Decisions
mod Tests
use mcp_gtw.Base.{
  ℕ, String, Bool, true, false, Option, none, some, List, [], ◌∷◌, text_eq, ◌==◌, ◌||◌, not, ltb,
  leb, ◌+◌, length, keep_if, if◌then◌else◌,
}
use mcp_gtw.Errors.{Result, ok, err, value_error}
use mcp_gtw.Dict.{Dict, get, set, pop}
use mcp_gtw.Oauth.Context.{AccessContext, Identity, identity_eq}

pub record Bindings : Type 0 where
  pub maximum_sessions : ℕ
  pub idle_seconds : ℕ
  pub bindings : Dict String (Identity × ℕ)

unfoldable pub new_bindings : ℕ → ℕ → Bindings
new_bindings maximum_sessions idle_seconds = record {
  maximum_sessions = maximum_sessions;
  idle_seconds = idle_seconds;
  bindings = [];
}

-- `__init__`
unfoldable pub open_bindings : ℕ → ℕ → Result Bindings
open_bindings maximum_sessions idle_seconds =
    if ltb maximum_sessions 1 || leb idle_seconds 0
    then err (value_error "Session limits must be positive")
    else ok (new_bindings maximum_sessions idle_seconds)

-- `replace(context, scopes=frozenset(), expires_at=None)`
unfoldable pub identity : AccessContext → Identity
identity context = record {
  channel_id = context.channel_id;
  credential_kind = context.credential_kind;
  principal_id = context.principal_id;
  client_id = context.client_id;
  issuer = context.issuer;
}

-- the loop of `_purge`, from the front while the first binding has expired
unfoldable pub purge : ℕ → Dict String (Identity × ℕ) → Dict String (Identity × ℕ)
purge now [] = []
purge now ((key, (i, deadline)) ∷ rest) =
    let purged = purge now rest in if ltb now deadline then (key, (i, deadline)) ∷ rest else purged

-- the binding goes to the end, with a new deadline
unfoldable pub renew : ℕ → String → Identity → Bindings → Bindings
renew now session_id i store = record store {
  bindings = set (pop store.bindings session_id) session_id (i, now + store.idle_seconds);
}

unfoldable pub bind : ℕ → String → AccessContext → Bindings → Bool × Bindings
bind now session_id context store =
    let purged = record store { bindings = purge now store.bindings } in
    elim (get purged.bindings session_id) [
      | none ↦
          if leb store.maximum_sessions (length purged.bindings)
          then (false, purged)
          else (true, renew now session_id (identity context) purged)
      | some existing ↦
          if existing.0 == identity context
          then (true, renew now session_id (identity context) purged)
          else (false, purged)
    ]

unfoldable pub accepts : ℕ → String → AccessContext → Bindings → Bool × Bindings
accepts now session_id context store = elim (get store.bindings session_id) [
  | none ↦ (false, store)
  | some existing ↦
      if leb existing.1 now || not (existing.0 == identity context)
      then (false, store)
      else (true, renew now session_id existing.0 store)
]

unfoldable pub remove : String → Bindings → Bindings
remove session_id store = record store { bindings = pop store.bindings session_id }

unfoldable pub remove_channel : String → Bindings → Bindings
remove_channel channel_id store = record store {
  bindings = keep_if (λ e. not (e.1.0.channel_id == channel_id)) store.bindings;
}

unfoldable pub clear : Bindings → Bindings
clear store = record store { bindings = [] }
