-- ===== src/Groups/Tests.antt =====
-- Three proxies in each kind of group, and the theorems at them.
use go_warp_scanner.Adapter.Proxy.{Proxy, last_delay}
use go_warp_scanner.Groups.{Proxies, is_alive, delay_of}
use go_warp_scanner.Adapter.Queue
use go_warp_scanner.Groups.UrlTest.{UrlTest, find_name, AreDelays, fast, fast_near, fast_first}
use go_warp_scanner.Groups.Fallback.{
  find_alive_proxy, first_alive, or_first, find_alive_proxy_dropped,
}
use go_warp_scanner.Common.{
  ℕ, zero, suc, ◌+◌, ◌≤◌, ◌≡◌, refl, Bool, true, false, none, some, [], ◌∷◌, arith,
}

abbrev proxy_of : Bool → ℕ → Proxy
proxy_of alive delay = record {
  history = record { items = record { time = 1; delay = delay } ∷ [] };
  alive = alive;
}

-- The proxies 0, 1 and all others, of which 1 is dead.
abbrev state_of : ℕ → Proxy
state_of zero = proxy_of true 300
state_of (suc zero) = proxy_of false 0
state_of (suc (suc n)) = proxy_of true 250

abbrev three : Proxies
three = record { Ref = ℕ; name = λ p. p ∷ []; state = state_of }

three-AreDelays : AreDelays three
unfolding delay_of last_delay Queue.last
three-AreDelays zero = omega arith
three-AreDelays (suc zero) = omega arith
three-AreDelays (suc (suc n)) = omega arith

abbrev in_use : UrlTest three
in_use = record { selected = []; tolerance = 100; fast_node = some 0 }

fast_near_example :
    delay_of three (fast three none in_use (0, 1 ∷ 2 ∷ [])).1 ≤ delay_of three 2 + 100
unfolding delay_of last_delay Queue.last
fast_near_example =
    fast_near three in_use 0 (1 ∷ 2 ∷ []) 2 2 three-AreDelays refl refl (omega arith)

fast_first_example : delay_of three (fast three none in_use (0, 1 ∷ 2 ∷ [])).1 ≤ delay_of three 2
fast_first_example =
    fast_first three in_use 0 (1 ∷ 2 ∷ []) 2 2 three-AreDelays refl refl (refl, (refl, tt)) refl

abbrev chosen : UrlTest three
chosen = record { selected = 2 ∷ []; tolerance = 0; fast_node = none }

-- The proxy 2 is alive, and the dead proxy 0 of the group is chosen after the dropped selection.
find_alive_proxy_dropped_example :
    find_alive_proxy three (1 ∷ []) (0, 2 ∷ 1 ∷ []) ≡ ([], or_first three 0 (first_alive three []))
unfolding is_alive find_name
find_alive_proxy_dropped_example =
    find_alive_proxy_dropped three (1 ∷ []) 0 1 (2 ∷ 1 ∷ []) (0 ∷ 2 ∷ []) [] refl refl refl refl
      refl
