-- ===== src/FakeIp/Memory/Tests.antt =====
-- The pool over a store in memory of two hosts, at concrete values.
use go_warp_scanner.Common.Text.{codes, to_lower}
use go_warp_scanner.FakeIp.{Pool, Prefix, un_masked, masked_addr, new_pool, lookup, look_back}
use go_warp_scanner.FakeIp.Memory.{MemoryStore, new_memory_store, memory, get_by_host, get_by_ip}
use go_warp_scanner.FakeIp.Memory.History.{
  PoolCall, lookup_call, look_back_call, run, look_back-lookup-run, get_by_ip-get_by_host-run,
}
use go_warp_scanner.Common.{◌≤◌, ◌<◌, ◌≡◌, refl, ◌↔◌, false, some, List, [], ◌∷◌}

-- `198.18.0.0/29`, as bits of an address of 128 bits.
abbrev small : Prefix
small = record { width = 32; bits = 29; addr = 3323068416 }

abbrev small_pool : Pool MemoryStore
small_pool = record {
  gateway = 3323068417;
  first = 3323068420;
  last = 3323068423;
  offset = 3323068419;
  cycle = false;
  store = new_memory_store 2;
}

small_runs : new_pool small (new_memory_store 2) ≡ some small_pool
unfolding new_pool un_masked masked_addr
small_runs = refl

-- Three hosts on a store of two, and a look back.
abbrev calls : List PoolCall
calls =
    lookup_call (codes "a.org")
    ∷ lookup_call (codes "b.org")
    ∷ look_back_call 3323068420
    ∷ lookup_call (codes "c.org")
    ∷ []

abbrev after : Pool MemoryStore
after = run calls small_pool

look_back-lookup-run_example :
    ((look_back memory
        (lookup memory (codes "D.org") after).1
        (lookup memory (codes "D.org") after).0).1
      ≡ some (to_lower (codes "D.org")))
    × ((lookup memory (codes "D.org") after).0.first ≤ (lookup memory (codes "D.org") after).1)
    × ((lookup memory (codes "D.org") after).1 < (lookup memory (codes "D.org") after).0.last)
look_back-lookup-run_example =
    look_back-lookup-run 2 small small_pool calls (codes "D.org") small_runs

get_by_ip-get_by_host-run_example :
    ((get_by_host (codes "a.org") after.store).1 ≡ some 3323068420)
    ↔ ((get_by_ip 3323068420 after.store).1 ≡ some (codes "a.org"))
get_by_ip-get_by_host-run_example =
    get_by_ip-get_by_host-run 2 small small_pool calls (codes "a.org") 3323068420 small_runs
