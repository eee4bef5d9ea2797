-- ===== src/Errors.antt =====
-- src/mcpgtw/errors.py and oauth/access_error.py: the exceptions of the gateway as values, and results
-- that may be one.
use mcp_gtw.Base.{ℕ, String, ◌≡◌, refl}

-- the reasons of a `McpAccessError`
pub data Reason : Type 0 where
  missing_token invalid_token insufficient_scope channel_forbidden : Reason
  verifier_unavailable invalid_session : Reason

-- The kinds of `GatewayError` that the channel and the registry raise, `mcp_access` for
-- `McpAccessError`, `value_error` for Python's `ValueError`, and `other` for any other exception of a caller or a library.
pub data Error : Type 0 where
  configuration : String → Error
  channel_offline : String → Error
  channel_replaced : String → Error
  provider_message : String → Error
  provider_request : String → Error
  channel_capacity : String → Error
  oauth_rate_limit : ℕ → Error
  mcp_access : Reason → Error
  value_error : String → Error
  other : String → Error

-- a value, or the exception that was raised instead
pub data Result {ℓ} (A : Type ℓ) : Type ℓ where
  ok : A → Result A
  err : Error → Result A

infixl 5 ◌>>=◌ ◌>>◌
abbrev pub ◌>>=◌ {ℓ κ} : {A : Type ℓ} {B : Type κ} → Result A → (A → Result B) → Result B
result >>= next = elim result [ ok value ↦ next value | err raised ↦ err raised ]

abbrev pub ◌>>◌ {ℓ κ} : {A : Type ℓ} {B : Type κ} → Result A → Result B → Result B
result >> next = elim result [ ok _ ↦ next | err raised ↦ err raised ]

module _ {ℓ κ} {A : Type ℓ} {B : Type κ} where
  -- A chain that did not raise: its first part returned, and the rest went on from there.
  pub bind-eq-ok :
      (first : Result A) (rest : A → Result B) {last : B}
      → (first >>= rest) ≡ ok last
      → (value : A) × (first ≡ ok value) × (rest value ≡ ok last)
  bind-eq-ok (ok value) rest returned = (value, refl, returned)
  bind-eq-ok (err raised) rest returned = cc
