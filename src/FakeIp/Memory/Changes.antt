-- ===== src/FakeIp/Memory/Changes.antt =====
-- The methods of the store in memory that change it, on its pairs.
use go_warp_scanner.Common.Keys.{KeyEq, ℕ_keys, text_keys}
use go_warp_scanner.Common.Text.{Text}
use go_warp_scanner.LruCache
use go_warp_scanner.LruCache.{Entry, LruCache}
use go_warp_scanner.LruCache.Elements.{id_of}
use go_warp_scanner.LruCache.Ideal.{entries, view, trim, entry_of, without, ideal_set, ideal_delete}
use go_warp_scanner.LruCache.Invariant.{IsCache}
use go_warp_scanner.LruCache.Calls.{set_with_expire_lem, exist_lem, delete_lem}
use go_warp_scanner.FakeIp.Memory.{
  MemoryStore, put_by_host, put_by_ip, del_by_ip, exist, new_memory_store,
}
use go_warp_scanner.FakeIp.Memory.Pairs.{
  Pairs, absent_ip, ip_for, host_for, without_host, without_ip, host_for-ip_for, ip_for-host_for,
  Distinct-without_host, Distinct-snoc, Distinct-trim, touched,
}
use go_warp_scanner.FakeIp.Memory.Mirror.{
  ip_entry, host_entry, sized, map-snoc, map-trim, ideal_set_absent, ip_entry_absent,
  ip_entry-without, host_entry_absent, host_entry_present, host_entry-without, IsMirror,
  get_host_present,
}
use go_warp_scanner.FakeIp.Memory.Calls.{get_host_absent}
use go_warp_scanner.Common.{
  ℕ, ◌+◌, ◌≡◌, refl, sym, ap, ◌∙◌, inl, inr, true, false, none, List, [], ◌∷◌, ◌++◌, map, arith,
  ltb, ◌==◌, if◌then◌else◌, Bool-cases, Option-cases,
}

-- `Delete` of a cache of which the view is given.
view-delete :
    {K V : Type 0} (keys : KeyEq K) (n : ℕ) (k : K) (l : List (Entry K V)) (c : LruCache K V)
    → IsCache keys c
    → view c ≡ sized n l
    → IsCache keys (LruCache.delete keys k c)
      × (view (LruCache.delete keys k c) ≡ sized n (without keys k l))
view-delete keys n k l c ok v =
    let (ok', v') = delete_lem keys k c ok in (ok', v' ∙ ap (ideal_delete keys k) v)

pub del_by_ip-IsMirror :
    (n ip : ℕ) (l : Pairs) (m : MemoryStore)
    → IsMirror n l m
    → IsMirror n (without_ip ip l) (del_by_ip ip m)
unfolding del_by_ip
del_by_ip-IsMirror n ip l m ok = elim (Option-cases (host_for ip l)) [
  | inl g ↦
      let (host_ok, host_view, r) = get_host_absent n ip l m ok g in
      let (host_ok', host_view') =
        view-delete ℕ_keys n ip (map host_entry l) (LruCache.get ℕ_keys 0 ip m.cache_host).0 host_ok
          host_view in
      let gone : without_ip ip l ≡ l = absent_ip ip l g in
      rw (r, gone, del_by_ip)
        (record {
          ip_ok = ok.ip_ok;
          host_ok = host_ok';
          ip_view = ok.ip_view;
          host_view =
              host_view' ∙ ap (sized n) (host_entry-without ip l ∙ ap (map host_entry) gone);
          distinct = ok.distinct;
        })
  | inr (h, g) ↦
      let f = ip_for-host_for h ip l ok.distinct g in
      let (here, gone) = host_for-ip_for h ip l ok.distinct f in
      let (host_ok, host_view, r) =
        get_host_present n h ip l m.cache_host ok.host_ok ok.host_view ok.distinct f in
      let (host_ok', host_view') =
        view-delete ℕ_keys n ip (map host_entry (touched h ip l))
          (LruCache.get ℕ_keys 0 ip m.cache_host).0 host_ok host_view in
      let (ip_ok', ip_view') =
        view-delete text_keys n h (map ip_entry l) m.cache_ip ok.ip_ok ok.ip_view in
      let left : without_ip ip (touched h ip l) ≡ without_host h l =
        ap (λ x. without_ip ip (x ++ (h, ip) ∷ [])) (sym gone) ∙ twice h ip l ∙ gone in
      rw (r, gone, del_by_ip)
        (record {
          ip_ok = ip_ok';
          host_ok = host_ok';
          ip_view = ip_view' ∙ ap (sized n) (ip_entry-without h l);
          host_view =
              host_view'
              ∙ ap (sized n) (host_entry-without ip (touched h ip l) ∙ ap (map host_entry) left);
          distinct = Distinct-without_host h l ok.distinct;
        })
]
  where
    twice :
        (h : Text) (ip : ℕ) (l : Pairs)
        → without_ip ip (without_ip ip l ++ (h, ip) ∷ []) ≡ without_ip ip l
    twice h ip [] = let t : (ip == ip) ≡ true = ground arith in rw t refl
    twice h ip ((g, jp) ∷ l) = elim (Bool-cases (jp == ip)) [
      | inl t ↦ rw t (twice h ip l)
      | inr t ↦ rw t (rw t (ap (λ x. (g, jp) ∷ x) (twice h ip l)))
    ]

-- The address of a host that is new, and the host of an address that is new, are put in the two caches.
pub put-IsMirror :
    (n : ℕ) (h : Text) (ip : ℕ) (l : Pairs) (m : MemoryStore)
    → IsMirror n l m
    → ip_for h l ≡ none
    → host_for ip l ≡ none
    → IsMirror n (trim n (l ++ (h, ip) ∷ [])) (put_by_host h ip (put_by_ip ip h m))
unfolding put_by_host put_by_ip LruCache.set_key
put-IsMirror n h ip l m ok f g =
    let (ip_ok, ip_view) =
      set_with_expire_lem text_keys 0 h ip (LruCache.expires_at 0 m.cache_ip) m.cache_ip ok.ip_ok in
    let (host_ok, host_view) =
      set_with_expire_lem ℕ_keys 0 ip h (LruCache.expires_at 0 m.cache_host) m.cache_host
        ok.host_ok in
    let expires : LruCache.expires_at 0 m.cache_ip ≡ 0 =
      ap (λ i. if ltb 0 i.max_age then 0 + i.max_age else 0) ok.ip_view in
    let expires' : LruCache.expires_at 0 m.cache_host ≡ 0 =
      ap (λ i. if ltb 0 i.max_age then 0 + i.max_age else 0) ok.host_view in
    record {
      ip_ok = ip_ok;
      host_ok = host_ok;
      ip_view =
          ip_view
          ∙ ap (λ t. ideal_set text_keys 0 h ip t (view m.cache_ip)) expires
          ∙ ap (ideal_set text_keys 0 h ip 0) ok.ip_view
          ∙ ideal_set_absent text_keys h ip n (map ip_entry l) (ip_entry_absent h l f)
          ∙ ap (λ x. sized n (trim n x)) (sym (map-snoc ip_entry l (h, ip)))
          ∙ ap (sized n) (map-trim ip_entry n (l ++ (h, ip) ∷ []));
      host_view =
          host_view
          ∙ ap (λ t. ideal_set ℕ_keys 0 ip h t (view m.cache_host)) expires'
          ∙ ap (ideal_set ℕ_keys 0 ip h 0) ok.host_view
          ∙ ideal_set_absent ℕ_keys ip h n (map host_entry l) (host_entry_absent ip l g)
          ∙ ap (λ x. sized n (trim n x)) (sym (map-snoc host_entry l (h, ip)))
          ∙ ap (sized n) (map-trim host_entry n (l ++ (h, ip) ∷ []));
      distinct = Distinct-trim n (l ++ (h, ip) ∷ []) (Distinct-snoc h ip l ok.distinct f g);
    }

-- An address that the store does not know has no host.
pub exist_false :
    (n ip : ℕ) (l : Pairs) (m : MemoryStore)
    → IsMirror n l m
    → exist ip m ≡ false
    → host_for ip l ≡ none
unfolding exist
exist_false n ip l m ok e =
    let gone : entry_of ℕ_keys ip (entries m.cache_host.lru) ≡ none =
      exist_lem ℕ_keys ip m.cache_host ok.host_ok e in
    elim (Option-cases (host_for ip l)) [
      | inl g ↦ g
      | inr (h, g) ↦
          let there = host_entry_present h ip l g in
          let same : entry_of ℕ_keys ip (map host_entry l) ≡ none =
            ap (λ i. entry_of ℕ_keys ip i.items) (sym ok.host_view) ∙ gone in
          absurd (cc)
    ]

-- A new store is empty.
pub new_memory_store-IsMirror : (n : ℕ) → IsMirror n [] (new_memory_store n)
unfolding id_of
new_memory_store-IsMirror n = record {
  ip_ok = (tt, λ k. refl);
  host_ok = (tt, λ k. refl);
  ip_view = refl;
  host_view = refl;
  distinct = tt;
}
