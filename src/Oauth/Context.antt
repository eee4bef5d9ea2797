-- ===== src/Oauth/Context.antt =====
-- src/mcpgtw/oauth/access_context.py: who an MCP request comes from. Sets of scopes are lists.
use mcp_gtw.Base.{
  ℕ, String, Bool, true, false, Option, none, some, List, ◌≡◌, ◌↔◌, arith, text_eq, ◌==◌, ==_iff,
  Eq, ◌&&◌,
}

pub record AccessContext : Type 0 where
  pub channel_id : String
  pub credential_kind : String
  pub principal_id : String
  pub client_id : Option String
  pub scopes : List String
  pub issuer : Option String
  pub expires_at : Option ℕ

-- a context without scopes and expiry
pub record Identity : Type 0 where
  pub channel_id : String
  pub credential_kind : String
  pub principal_id : String
  pub client_id : Option String
  pub issuer : Option String

unfoldable pub same_text : Option String → Option String → Bool
same_text none none = true
same_text (some a) (some b) = a == b
same_text _ _ = false

pub same_text_iff : (a b : Option String) → (same_text a b ≡ true) ↔ (a ≡ b)
unfolding same_text
same_text_iff none none = ground arith
same_text_iff none (some b) = ground arith
same_text_iff (some a) none = ground arith
same_text_iff (some a) (some b) = ground (arith, ==_iff a b)

unfoldable pub same_identity : Identity → Identity → Bool
same_identity a b =
    a.channel_id == b.channel_id
    && a.credential_kind == b.credential_kind
    && a.principal_id == b.principal_id
    && same_text a.client_id b.client_id
    && same_text a.issuer b.issuer

pub same_identity_iff : (a b : Identity) → (same_identity a b ≡ true) ↔ (a ≡ b)
unfolding same_identity
same_identity_iff a b = (
  λ h. ground (
    arith,
    ==_iff a.channel_id b.channel_id,
    ==_iff a.credential_kind b.credential_kind,
    ==_iff a.principal_id b.principal_id,
    same_text_iff a.client_id b.client_id,
    same_text_iff a.issuer b.issuer,
  ),
  λ h. ground (
    arith,
    ==_iff a.channel_id b.channel_id,
    ==_iff a.credential_kind b.credential_kind,
    ==_iff a.principal_id b.principal_id,
    same_text_iff a.client_id b.client_id,
    same_text_iff a.issuer b.issuer,
  ),
)

instance abbrev pub identity_eq : Eq Identity
identity_eq = record { test = same_identity; test_iff = same_identity_iff }
