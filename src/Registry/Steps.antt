-- ===== src/Registry/Steps.antt =====
-- src/mcpgtw/registry.py as a transition system: the registry's operations in any order, and between
-- them what each channel does on its own.
use mcp_gtw.Base.{ℕ, String, Bool, some, ◌≡◌, text_eq}
use mcp_gtw.Errors.{Result}
use mcp_gtw.Dict.{get, set}
use mcp_gtw.Libraries.{Libraries}
use mcp_gtw.Channel.{Channel, World}
use mcp_gtw.Channel.System
use mcp_gtw.Registry.{Registry}
use mcp_gtw.Registry.Expiry.{ExpiryPolicy}
use mcp_gtw.Registry.Tokens.{TokenProvider}
use mcp_gtw.Registry.Lifecycle.{
  NewChannel, add_listener, create_channel, remove_channel, purge_expired, provider_connected,
  provider_disconnected, close_all,
}

pub data Step (tokens : TokenProvider) (policy : ExpiryPolicy) : Registry → Registry → Type 0 where
  listens : (r : Registry) (listener : ℕ) → Step tokens policy r (add_listener listener r)
  creates :
      (r : Registry) (now : ℕ) (request : NewChannel) (x : Result Channel × Registry)
      → create_channel tokens policy now request r ≡ some x
      → Step tokens policy r x.1
  removes :
      (r : Registry) (id : String) (require_offline : Bool)
      → Step tokens policy r (remove_channel id require_offline r).1
  purges :
      (r : Registry) (now : ℕ) (x : ℕ × Registry)
      → purge_expired policy now r ≡ some x
      → Step tokens policy r x.1
  connects : (r : Registry) (c : Channel) → Step tokens policy r (provider_connected policy c r).1
  disconnects :
      (r : Registry) (now : ℕ) (c : Channel)
      → Step tokens policy r (provider_disconnected policy now c r)
  acts :
      (r : Registry) (id : String) (c d : Channel) (lib : Libraries) (w : World)
      → get r.channels id ≡ some c
      → System.Step lib w c d
      → Step tokens policy r (record r { channels = set r.channels id d })
  closes : (r : Registry) → Step tokens policy r (close_all r)

pub data Reach (tokens : TokenProvider) (policy : ExpiryPolicy) (r : Registry)
    : Registry → Type 0 where
  here : Reach tokens policy r r
  next :
      {s t : Registry} → Reach tokens policy r s → Step tokens policy s t → Reach tokens policy r t
