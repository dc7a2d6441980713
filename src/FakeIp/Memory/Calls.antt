-- ===== src/FakeIp/Memory/Calls.antt =====
-- The methods of the store in memory that read, on its pairs.
use go_warp_scanner.Common.Keys.{ℕ_keys, text_keys}
use go_warp_scanner.Common.Text.{Text}
use go_warp_scanner.LruCache
use go_warp_scanner.LruCache.{LruCache}
use go_warp_scanner.LruCache.Ideal.{view}
use go_warp_scanner.LruCache.Invariant.{IsCache}
use go_warp_scanner.LruCache.Calls.{get_lem}
use go_warp_scanner.FakeIp.Memory.{MemoryStore, get_by_host, get_by_ip}
use go_warp_scanner.FakeIp.Memory.Pairs.{
  Pairs, ip_for, host_for, ip_for-host_for, touched, Distinct-touched,
}
use go_warp_scanner.FakeIp.Memory.Mirror.{
  ip_entry, host_entry, sized, ideal_get_absent, ip_entry_absent, host_entry_absent, IsMirror,
  get_ip_present, get_host_present,
}
use go_warp_scanner.Common.{ℕ, ◌≡◌, refl, ap, ◌∙◌, none, some, map}

pub get_by_host-known :
    (n : ℕ) (h : Text) (ip : ℕ) (l : Pairs) (m : MemoryStore)
    → IsMirror n l m
    → ip_for h l ≡ some ip
    → IsMirror n (touched h ip l) (get_by_host h m).0 × ((get_by_host h m).1 ≡ some ip)
unfolding get_by_host
get_by_host-known n h ip l m ok f =
    let (ip_ok, ip_view, r) = get_ip_present n h ip l m.cache_ip ok.ip_ok ok.ip_view f in
    let (host_ok, host_view, r') =
      get_host_present n h ip l m.cache_host ok.host_ok ok.host_view ok.distinct f in
    rw (r, get_by_host)
      (
        record {
          ip_ok = ip_ok;
          host_ok = host_ok;
          ip_view = ip_view;
          host_view = host_view;
          distinct = Distinct-touched h ip l ok.distinct f;
        },
        refl,
      )

pub get_by_host-unknown :
    (n : ℕ) (h : Text) (l : Pairs) (m : MemoryStore)
    → IsMirror n l m
    → ip_for h l ≡ none
    → IsMirror n l (get_by_host h m).0 × ((get_by_host h m).1 ≡ none)
unfolding get_by_host LruCache.value_of
get_by_host-unknown n h l m ok f =
    let (ip_ok, ip_view, r) =
      get_lem text_keys 0 h m.cache_ip (sized n (map ip_entry l)) ok.ip_ok ok.ip_view in
    let missing = ideal_get_absent text_keys h n (map ip_entry l) (ip_entry_absent h l f) in
    rw (r ∙ ap (λ x. LruCache.value_of text_keys x.1) missing, get_by_host)
      (
        record {
          ip_ok = ip_ok;
          host_ok = ok.host_ok;
          ip_view = ip_view ∙ ap (λ x. x.0) missing;
          host_view = ok.host_view;
          distinct = ok.distinct;
        },
        refl,
      )

pub get_by_ip-known :
    (n : ℕ) (h : Text) (ip : ℕ) (l : Pairs) (m : MemoryStore)
    → IsMirror n l m
    → host_for ip l ≡ some h
    → IsMirror n (touched h ip l) (get_by_ip ip m).0 × ((get_by_ip ip m).1 ≡ some h)
unfolding get_by_ip
get_by_ip-known n h ip l m ok g =
    let f = ip_for-host_for h ip l ok.distinct g in
    let (ip_ok, ip_view, r) = get_ip_present n h ip l m.cache_ip ok.ip_ok ok.ip_view f in
    let (host_ok, host_view, r') =
      get_host_present n h ip l m.cache_host ok.host_ok ok.host_view ok.distinct f in
    rw (r', get_by_ip)
      (
        record {
          ip_ok = ip_ok;
          host_ok = host_ok;
          ip_view = ip_view;
          host_view = host_view;
          distinct = Distinct-touched h ip l ok.distinct f;
        },
        refl,
      )

-- A read of the cache of hosts for an address that it does not have.
pub get_host_absent :
    (n ip : ℕ) (l : Pairs) (m : MemoryStore)
    → IsMirror n l m
    → host_for ip l ≡ none
    → IsCache ℕ_keys (LruCache.get ℕ_keys 0 ip m.cache_host).0
      × (view (LruCache.get ℕ_keys 0 ip m.cache_host).0 ≡ sized n (map host_entry l))
      × ((LruCache.get ℕ_keys 0 ip m.cache_host).1 ≡ none)
unfolding LruCache.value_of
get_host_absent n ip l m ok g =
    let (host_ok, host_view, r) =
      get_lem ℕ_keys 0 ip m.cache_host (sized n (map host_entry l)) ok.host_ok ok.host_view in
    let missing = ideal_get_absent ℕ_keys ip n (map host_entry l) (host_entry_absent ip l g) in
    (host_ok, host_view ∙ ap (λ x. x.0) missing, r ∙ ap (λ x. LruCache.value_of ℕ_keys x.1) missing)

pub get_by_ip-unknown :
    (n ip : ℕ) (l : Pairs) (m : MemoryStore)
    → IsMirror n l m
    → host_for ip l ≡ none
    → IsMirror n l (get_by_ip ip m).0 × ((get_by_ip ip m).1 ≡ none)
unfolding get_by_ip
get_by_ip-unknown n ip l m ok g =
    let (host_ok, host_view, r) = get_host_absent n ip l m ok g in
    rw (r, get_by_ip)
      (
        record {
          ip_ok = ok.ip_ok;
          host_ok = host_ok;
          ip_view = ok.ip_view;
          host_view = host_view;
          distinct = ok.distinct;
        },
        refl,
      )
