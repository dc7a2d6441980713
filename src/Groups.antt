-- ===== src/Groups.antt =====
-- adapter/outboundgroup: the choice of one proxy of a group.
pub mod UrlTest
pub mod Fallback
pub mod LoadBalance
pub mod Selector
mod Tests
use go_warp_scanner.Common.Text.{Text}
use go_warp_scanner.Adapter.Proxy.{Proxy, last_delay}
use go_warp_scanner.Common.{ℕ, Bool, List, ◌∷◌}

-- The proxies that a group may choose from. A group keeps references to them (`Ref`), and reads
-- their name and their state when it chooses.
pub record Proxies : Type 1 where
  pub Ref : Type 0
  pub name : Ref → Text
  pub state : Ref → Proxy

module _ (ps : Proxies) where
  open ps use {Ref, name, state}

  -- `proxy.Alive()` and `proxy.LastDelay()`.
  unfoldable pub is_alive : Ref → Bool
  is_alive p = (state p).alive

  unfoldable pub delay_of : Ref → ℕ
  delay_of p = last_delay (state p)

  -- The first proxy of a list, as `Fallback`, `LoadBalance` and `Selector` fall back on it;
  -- `GetProxies` never returns an empty list, which stands here as a head and a tail.
  abbrev pub Members : Type 0
  Members = Ref × List Ref

  abbrev pub all_of : Members → List Ref
  all_of (first, rest) = first ∷ rest
