-- ===== src/FakeIp/Memory/Lookup.antt =====
-- A lookup in a pool over the store in memory: the host and its address name each other.
use go_warp_scanner.Common.Text.{Text, to_lower}
use go_warp_scanner.LruCache.Ideal.{trim}
use go_warp_scanner.FakeIp
use go_warp_scanner.FakeIp.{Pool, advance, assign, add_host, lookup_lower, lookup}
use go_warp_scanner.FakeIp.Memory.{MemoryStore, get_by_host, del_by_ip, exist, memory}
use go_warp_scanner.FakeIp.Memory.Pairs.{
  Pairs, absent_ip, ip_for, host_for, without_host, without_ip, host_for-ip_for, ip_for-host_for,
  host_for-without_ip_self, host_for-snoc, host_for-trim, touched,
}
use go_warp_scanner.FakeIp.Memory.Mirror.{IsMirror}
use go_warp_scanner.FakeIp.Memory.Calls.{get_by_host-known, get_by_host-unknown}
use go_warp_scanner.FakeIp.Memory.Changes.{del_by_ip-IsMirror, put-IsMirror, exist_false}
use go_warp_scanner.FakeIp.Memory.Within.{
  Within, Within-ip_for, Within-without_host, Within-without_ip, Within-snoc, Within-trim,
}
use go_warp_scanner.Common.{
  ℕ, ◌+◌, ◌≤◌, ◌<◌, ◌≡◌, refl, sym, ap, ◌∙◌, subst, inl, inr, Bool, false, ◌||◌, none, some, [],
  ◌∷◌, ◌++◌, arith, if◌then◌else◌, Bool-cases, Option-cases,
}

-- The invariant of a pool over the store in memory, which holds some pairs.
pub record IsMemoryPool (n : ℕ) (l : Pairs) (p : Pool MemoryStore) : Type 0 where
  pub room : p.first < p.last
  pub low : p.first ≤ p.offset + 1
  pub high : p.offset < p.last
  pub mirror : IsMirror n l p.store
  pub within : Within p.first p.last l

-- What a lookup leaves: a good pool, in which the host has the address.
unfoldable pub IsNamed : ℕ → Text → Pool MemoryStore × ℕ → Type 0
IsNamed n h (p, ip) =
    (l : Pairs) × IsMemoryPool n l p × (ip_for h l ≡ some ip) × (host_for ip l ≡ some h)

advance_lem :
    (p : Pool MemoryStore)
    → p.first < p.last
    → p.first ≤ p.offset + 1
    → p.offset < p.last
    → (p.first ≤ (advance memory p).offset)
      × ((advance memory p).offset < p.last)
      × ((advance memory p).first ≡ p.first)
      × ((advance memory p).last ≡ p.last)
      × ((advance memory p).store ≡ p.store)
unfolding advance
advance_lem p room low high = ground arith

-- The store after `get` has freed the address.
freed-IsMirror :
    (n ip : ℕ) (cycle : Bool) (l : Pairs) (m : MemoryStore)
    → IsMirror n l m
    → IsMirror n (without_ip ip l) (if cycle || exist ip m then del_by_ip ip m else m)
freed-IsMirror n ip cycle l m ok = elim (Bool-cases (cycle || exist ip m)) [
  | inl t ↦ rw t (del_by_ip-IsMirror n ip l m ok)
  | inr t ↦
      let e : exist ip m ≡ false = ground arith in
      rw (t, absent_ip ip l (exist_false n ip l m ok e)) ok
]

ip_for-without_ip :
    (h : Text) (ip : ℕ) (l : Pairs) → ip_for h l ≡ none → ip_for h (without_ip ip l) ≡ none
ip_for-without_ip h ip [] f = refl
ip_for-without_ip h ip ((g, jp) ∷ rest) f = ground (arith, ip_for-without_ip h ip rest)

add_host-IsNamed :
    (n : ℕ) (h : Text) (l : Pairs) (p : Pool MemoryStore)
    → IsMemoryPool n l p
    → ip_for h l ≡ none
    → IsNamed n h (add_host memory h p)
unfolding add_host FakeIp.get assign IsNamed
add_host-IsNamed n h l p ok f =
    let p' = advance memory p in
    let ip = p'.offset in
    let (lo, hi, first, last, store) = advance_lem p ok.room ok.low ok.high in
    let mirror : IsMirror n l p'.store = subst (IsMirror n l) (sym store) ok.mirror in
    let freed = freed-IsMirror n ip p'.cycle l p'.store mirror in
    let l1 : Pairs = without_ip ip l in
    let f' = ip_for-without_ip h ip l f in
    let g' = host_for-without_ip_self ip l in
    let l2 : Pairs = trim n (l1 ++ (h, ip) ∷ []) in
    let put =
      put-IsMirror n h ip l1
        (if p'.cycle || exist ip p'.store then del_by_ip ip p'.store else p'.store) freed f' g' in
    let within = Within-trim p.first p.last n (l1 ++ (h, ip) ∷ []) (
      Within-snoc p.first p.last h ip l1 (Within-without_ip p.first p.last ip l ok.within) lo hi) in
    let here = host_for-trim n h ip l1 g' in
    let pool : IsMemoryPool n l2 (add_host memory h p).0 = record {
      room = rw (first, last) ok.room;
      low = omega (arith, lo, first);
      high = omega (arith, hi, last);
      mirror = put;
      within = rw (first, last) within;
    } in
    (l2, pool, ip_for-host_for h ip l2 put.distinct here, here)

lookup_lower-IsNamed :
    (n : ℕ) (h : Text) (l : Pairs) (p : Pool MemoryStore)
    → IsMemoryPool n l p
    → IsNamed n h (lookup_lower memory h p)
unfolding lookup_lower IsNamed
lookup_lower-IsNamed n h l p ok = elim (Option-cases (ip_for h l)) [
  | inl f ↦
      let (mirror, r) = get_by_host-unknown n h l p.store ok.mirror f in
      let read : Pool MemoryStore = record p { store = (get_by_host h p.store).0 } in
      let read_ok : IsMemoryPool n l read = record {
        room = ok.room;
        low = ok.low;
        high = ok.high;
        mirror = mirror;
        within = ok.within;
      } in
      rw (r, lookup_lower) (add_host-IsNamed n h l read read_ok f)
  | inr (ip, f) ↦
      let (mirror, r) = get_by_host-known n h ip l p.store ok.mirror f in
      let (here, gone) = host_for-ip_for h ip l ok.mirror.distinct f in
      let (lo, hi) = Within-ip_for p.first p.last h ip l ok.within f in
      let named : host_for ip (touched h ip l) ≡ some h =
        host_for-snoc h ip ip (without_host h l)
          (ap (host_for ip) (sym gone) ∙ host_for-without_ip_self ip l)
        ∙ ground arith in
      rw (r, lookup_lower)
        (
          touched h ip l,
          record {
            room = ok.room;
            low = ok.low;
            high = ok.high;
            mirror = mirror;
            within =
                Within-snoc p.first p.last h ip (without_host h l)
                  (Within-without_host p.first p.last h l ok.within) lo hi;
          },
          ip_for-host_for h ip (touched h ip l) mirror.distinct named,
          named,
        )
]

pub lookup-IsNamed :
    (n : ℕ) (host : Text) (l : Pairs) (p : Pool MemoryStore)
    → IsMemoryPool n l p
    → IsNamed n (to_lower host) (lookup memory host p)
unfolding lookup
lookup-IsNamed n host l p ok = lookup_lower-IsNamed n (to_lower host) l p ok
