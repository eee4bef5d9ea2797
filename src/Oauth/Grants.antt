-- ===== src/Oauth/Grants.antt =====
-- src/mcpgtw/oauth/channel_grants.py: which channels a principal may use. `GrantOps` is the interface
-- `ChannelGrantStore`, and `IsGrantStore` is what its clients rely on.
pub mod Memory
pub mod Sqlite
pub mod Access
pub mod Tests
use mcp_gtw.Base.{
  ℕ, String, Bool, true, false, Option, none, some, List, ◌≡◌, ◌≤◌, text_eq, ◌==◌, ◌&&◌, ltb,
  contains, subset, if◌then◌else◌,
}
use mcp_gtw.Errors.{Result, ok, err}

-- verified_principal.py, with the digest `principal_id`
pub record Principal : Type 0 where
  pub principal_id : String
  pub scopes : List String
  pub expires_at : ℕ

-- channel_grant.py
pub record Grant : Type 0 where
  pub scopes : List String
  pub expires_at : ℕ

-- the operations of a store, with the time that they read from the clock
pub record GrantOps (Store : Type 0) : Type 0 where
  pub channels : ℕ → Principal → Store → Result (List String) × Store
  pub grant : ℕ → Principal → String → Store → Result (Unit {0}) × Store
  pub revoke : ℕ → Principal → String → Store → Result (Unit {0}) × Store
  pub remove_channel : ℕ → String → Store → Result (Unit {0}) × Store

abbrev pub granted_to : Principal → Grant
granted_to p = record { scopes = p.scopes; expires_at = p.expires_at }

-- a grant, if it has not expired
abbrev pub current : ℕ → Option Grant → Option Grant
current now none = none
current now (some g) = if ltb now g.expires_at then some g else none

abbrev pub allows : Principal → Option Grant → Bool
allows p none = false
allows p (some g) = subset p.scopes g.scopes

abbrev pub is_ok {ℓ} : {A : Type ℓ} → Result A → Bool
is_ok (ok a) = true
is_ok (err e) = false

-- whether a list of channels is the answer of `channels`
abbrev pub IsAnswer : (String → Option Grant) → Principal → Result (List String) → Type 0
IsAnswer granted p (ok ids) = (id : String) → contains ids id ≡ allows p (granted id)
IsAnswer granted p (err e) = Unit

-- `lookup` is the grant that stands for an owner and a channel, expired or not; what expires in an
-- operation may go or stay.
pub record IsGrantStore {Store : Type 0} (ops : GrantOps Store) (IsValid : Store → Type 0)
    (lookup : Store → String → String → Option Grant) : Type 0 where
  -- the operations keep valid stores valid
  pub channels-valid :
      (now : ℕ) (p : Principal) (s : Store) → IsValid s → IsValid (ops.channels now p s).1
  pub grant-valid :
      (now : ℕ) (p : Principal) (id : String) (s : Store)
      → IsValid s
      → IsValid (ops.grant now p id s).1
  pub revoke-valid :
      (now : ℕ) (p : Principal) (id : String) (s : Store)
      → IsValid s
      → IsValid (ops.revoke now p id s).1
  pub remove-valid :
      (now : ℕ) (id : String) (s : Store) → IsValid s → IsValid (ops.remove_channel now id s).1
  -- `channels` lists what is granted with all the scopes of the principal, and changes nothing
  pub channels-answer :
      (now : ℕ) (p : Principal) (s : Store)
      → IsValid s
      → IsAnswer (λ id. current now (lookup s p.principal_id id)) p (ops.channels now p s).0
  pub channels-keeps :
      (now later : ℕ) (p : Principal) (s : Store) (o c : String)
      → IsValid s
      → now ≤ later
      → current later (lookup (ops.channels now p s).1 o c) ≡ current later (lookup s o c)
  -- a grant that returns stands from then on, one that raises changes nothing
  pub grant-grants :
      (now later : ℕ) (p : Principal) (id : String) (s : Store) (o c : String)
      → IsValid s
      → now ≤ later
      → current later (lookup (ops.grant now p id s).1 o c) ≡ (
          if is_ok (ops.grant now p id s).0 && (p.principal_id == o && id == c)
          then current later (some (granted_to p))
          else current later (lookup s o c))
  -- a revocation that returns takes one grant, a removal all grants of a channel
  pub revoke-revokes :
      (now later : ℕ) (p : Principal) (id : String) (s : Store) (o c : String)
      → IsValid s
      → now ≤ later
      → current later (lookup (ops.revoke now p id s).1 o c) ≡ (
          if is_ok (ops.revoke now p id s).0 && (p.principal_id == o && id == c)
          then none
          else current later (lookup s o c))
  pub remove-removes :
      (now later : ℕ) (id : String) (s : Store) (o c : String)
      → IsValid s
      → now ≤ later
      → current later (lookup (ops.remove_channel now id s).1 o c) ≡ (
          if is_ok (ops.remove_channel now id s).0 && id == c
          then none
          else current later (lookup s o c))
