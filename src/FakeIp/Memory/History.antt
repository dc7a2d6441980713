-- ===== src/FakeIp/Memory/History.antt =====
-- The pool over the store in memory, of any size, after any lookups.
use go_warp_scanner.Common.Text.{Text, to_lower}
use go_warp_scanner.FakeIp.{Pool, Prefix, un_masked, masked_addr, new_pool, lookup, look_back}
use go_warp_scanner.FakeIp.Memory.{MemoryStore, get_by_host, get_by_ip, new_memory_store, memory}
use go_warp_scanner.FakeIp.Memory.Pairs.{
  Pairs, ip_for, host_for, without_host, host_for-ip_for, ip_for-host_for, touched,
}
use go_warp_scanner.FakeIp.Memory.Calls.{
  get_by_host-known, get_by_host-unknown, get_by_ip-known, get_by_ip-unknown,
}
use go_warp_scanner.FakeIp.Memory.Changes.{new_memory_store-IsMirror}
use go_warp_scanner.FakeIp.Memory.Within.{Within-ip_for, Within-without_host, Within-snoc}
use go_warp_scanner.FakeIp.Memory.Lookup.{IsMemoryPool, IsNamed, lookup-IsNamed}
use go_warp_scanner.Common.{
  ℕ, ◌+◌, ◌-◌, ◌^◌, ◌≤◌, ◌<◌, ◌≡◌, sym, ◌∙◌, subst, ◌↔◌, inl, inr, false, ◌&&◌, none, some, List,
  [], ◌∷◌, arith, ltb, Bool-cases, Option-cases,
}

-- A call of a method of the pool.
pub data PoolCall : Type 0 where
  lookup_call : Text → PoolCall
  look_back_call : ℕ → PoolCall

abbrev pub call : PoolCall → Pool MemoryStore → Pool MemoryStore
call (lookup_call host) p = (lookup memory host p).0
call (look_back_call ip) p = (look_back memory ip p).0

-- The pool after some calls.
abbrev pub run : List PoolCall → Pool MemoryStore → Pool MemoryStore
run [] p = p
run (x ∷ xs) p = run xs (call x p)

call-IsMemoryPool :
    (n : ℕ) (x : PoolCall) (l : Pairs) (p : Pool MemoryStore)
    → IsMemoryPool n l p
    → (l' : Pairs) × IsMemoryPool n l' (call x p)
unfolding look_back IsNamed
call-IsMemoryPool n (lookup_call host) l p ok =
    let (l', ok', f, g) = lookup-IsNamed n host l p ok in (l', ok')
call-IsMemoryPool n (look_back_call ip) l p ok = elim (Option-cases (host_for ip l)) [
  | inl g ↦
      let (mirror, r) = get_by_ip-unknown n ip l p.store ok.mirror g in
      (
        l,
        record {
          room = ok.room;
          low = ok.low;
          high = ok.high;
          mirror = mirror;
          within = ok.within;
        },
      )
  | inr (h, g) ↦
      let (mirror, r) = get_by_ip-known n h ip l p.store ok.mirror g in
      let (lo, hi) =
        Within-ip_for p.first p.last h ip l ok.within
          (ip_for-host_for h ip l ok.mirror.distinct g) in
      (
        touched h ip l,
        record {
          room = ok.room;
          low = ok.low;
          high = ok.high;
          mirror = mirror;
          within =
              Within-snoc p.first p.last h ip (without_host h l)
                (Within-without_host p.first p.last h l ok.within) lo hi;
        },
      )
]

run-IsMemoryPool :
    (n : ℕ) (xs : List PoolCall) (l : Pairs) (p : Pool MemoryStore)
    → IsMemoryPool n l p
    → (l' : Pairs) × IsMemoryPool n l' (run xs p)
run-IsMemoryPool n [] l p ok = (l, ok)
run-IsMemoryPool n (x ∷ xs) l p ok =
    let (l', ok') = call-IsMemoryPool n x l p ok in run-IsMemoryPool n xs l' (call x p) ok'

new_pool-IsMemoryPool :
    (n : ℕ) (prefix : Prefix) (p : Pool MemoryStore)
    → new_pool prefix (new_memory_store n) ≡ some p
    → IsMemoryPool n [] p
unfolding new_pool
new_pool-IsMemoryPool n prefix p e =
    let q : Pool MemoryStore = record {
      gateway = masked_addr prefix + 1;
      first = masked_addr prefix + 1 + 3;
      last = un_masked prefix;
      offset = masked_addr prefix + 1 + 3 - 1;
      cycle = false;
      store = new_memory_store n;
    } in
    elim (Bool-cases (ltb q.first (2 ^ prefix.width) && ltb q.first q.last)) [
      | inl t ↦
          let e' : some q ≡ some p = rw t at e in
          let same : q ≡ p = cc in
          let room : q.first < q.last = ground arith in
          subst (IsMemoryPool n []) same (record {
            room = room;
            low = omega arith;
            high = omega (arith, room);
            mirror = new_memory_store-IsMirror n;
            within = tt;
          })
      | inr t ↦ let e' : none ≡ some p = rw t at e in absurd (cc)
    ]

-- In a pool made by `New` over a store in memory of any size, after any lookups in both directions: a lookup of a host
-- gives an address from the first to before the last of the pool, and `LookBack` of it then gives the host in lower case.
pub look_back-lookup-run :
    (n : ℕ) (prefix : Prefix) (p : Pool MemoryStore) (xs : List PoolCall) (host : Text)
    → new_pool prefix (new_memory_store n) ≡ some p
    → ((look_back memory (lookup memory host (run xs p)).1 (lookup memory host (run xs p)).0).1
        ≡ some (to_lower host))
      × ((lookup memory host (run xs p)).0.first ≤ (lookup memory host (run xs p)).1)
      × ((lookup memory host (run xs p)).1 < (lookup memory host (run xs p)).0.last)
unfolding look_back IsNamed
look_back-lookup-run n prefix p xs host e =
    let (l, ok) = run-IsMemoryPool n xs [] p (new_pool-IsMemoryPool n prefix p e) in
    let r = lookup memory host (run xs p) in
    let (l', ok', f, g) = lookup-IsNamed n host l (run xs p) ok in
    let (mirror, found) = get_by_ip-known n (to_lower host) r.1 l' r.0.store ok'.mirror g in
    let (lo, hi) = Within-ip_for r.0.first r.0.last (to_lower host) r.1 l' ok'.within f in
    (found, lo, hi)

-- In a pool made by `New` over a store in memory of any size, after any lookups in both directions, the store gives an
-- address for a host exactly if it gives the host for the address.
pub get_by_ip-get_by_host-run :
    (n : ℕ) (prefix : Prefix) (p : Pool MemoryStore) (xs : List PoolCall) (h : Text) (ip : ℕ)
    → new_pool prefix (new_memory_store n) ≡ some p
    → ((get_by_host h (run xs p).store).1 ≡ some ip) ↔ ((get_by_ip ip (run xs p).store).1 ≡ some h)
get_by_ip-get_by_host-run n prefix p xs h ip e =
    let (l, ok) = run-IsMemoryPool n xs [] p (new_pool-IsMemoryPool n prefix p e) in
    let m = (run xs p).store in
    let d = ok.mirror.distinct in
    let by_host : (get_by_host h m).1 ≡ ip_for h l = elim (Option-cases (ip_for h l)) [
      | inl f ↦ (get_by_host-unknown n h l m ok.mirror f).1 ∙ sym f
      | inr (jp, f) ↦ (get_by_host-known n h jp l m ok.mirror f).1 ∙ sym f
    ] in
    let by_ip : (get_by_ip ip m).1 ≡ host_for ip l = elim (Option-cases (host_for ip l)) [
      | inl g ↦ (get_by_ip-unknown n ip l m ok.mirror g).1 ∙ sym g
      | inr (k, g) ↦ (get_by_ip-known n k ip l m ok.mirror g).1 ∙ sym g
    ] in
    (
      λ f. by_ip ∙ (host_for-ip_for h ip l d (sym by_host ∙ f)).0,
      λ g. by_host ∙ ip_for-host_for h ip l d (sym by_ip ∙ g),
    )
