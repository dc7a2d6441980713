-- ===== src/FakeIp/Memory/Mirror.antt =====
-- The two caches of the store in memory hold the same pairs, in the same order.
use go_warp_scanner.Common.Keys.{KeyEq, ℕ_keys, text_keys}
use go_warp_scanner.Common.Text.{Text, text_eq}
use go_warp_scanner.LruCache
use go_warp_scanner.LruCache.{Entry, LruCache}
use go_warp_scanner.LruCache.Ideal.{Ideal, view, trim, entry_of, without, ideal_set, ideal_get}
use go_warp_scanner.LruCache.Invariant.{IsCache}
use go_warp_scanner.LruCache.Calls.{get_lem}
use go_warp_scanner.FakeIp.Memory.{MemoryStore}
use go_warp_scanner.FakeIp.Memory.Pairs.{
  Pairs, ip_for, host_for, without_host, without_ip, Distinct, host_for-ip_for, touched,
}
use go_warp_scanner.Common.{
  ℕ, ◌≡◌, refl, sym, ap, ◌∙◌, inl, inr, false, ◌&&◌, none, some, List, [], ◌∷◌, ◌++◌, map, arith,
  ltb, ◌==◌, Bool-cases, length, drop, length-map,
}

abbrev pub ip_entry : Text × ℕ → Entry Text ℕ
ip_entry (h, ip) = record { key = h; value = ip; expires = 0 }

abbrev pub host_entry : Text × ℕ → Entry ℕ Text
host_entry (h, ip) = record { key = ip; value = h; expires = 0 }

module _ {K V : Type 0} where
  -- A cache of a size, without ages.
  abbrev pub sized : ℕ → List (Entry K V) → Ideal K V
  sized n l = record {
    max_age = 0;
    max_size = n;
    update_age_on_get = false;
    stale_return = false;
    items = l;
  }

  pub map-snoc :
      (f : Text × ℕ → Entry K V) (l : Pairs) (p : Text × ℕ)
      → map f (l ++ p ∷ []) ≡ map f l ++ f p ∷ []
  map-snoc f [] p = refl
  map-snoc f (q ∷ l) p = ap (λ x. f q ∷ x) (map-snoc f l p)

  pub map-trim :
      (f : Text × ℕ → Entry K V) (n : ℕ) (l : Pairs) → trim n (map f l) ≡ map f (trim n l)
  map-trim f n l = rw (length-map l f) (elim (Bool-cases (ltb 0 n && ltb n (length l))) [
    | inl t ↦ rw t (map-drop l)
    | inr t ↦ rw t refl
  ])
    where
      map-drop : (l : Pairs) → drop 1 (map f l) ≡ map f (drop 1 l)
      map-drop [] = refl
      map-drop (p ∷ l) = refl

  -- The calls on a cache of a size, by whether the key is there.
  pub ideal_get_absent :
      (keys : KeyEq K) (k : K) (n : ℕ) (l : List (Entry K V))
      → entry_of keys k l ≡ none
      → ideal_get keys 0 k (sized n l) ≡ (sized n l, none)
  ideal_get_absent keys k n l f = rw (f, ideal_get) refl

  ideal_get_present :
      (keys : KeyEq K) (k : K) (n : ℕ) (l : List (Entry K V)) (e : Entry K V)
      → entry_of keys k l ≡ some e
      → ideal_get keys 0 k (sized n l) ≡ (sized n (without keys k l ++ e ∷ []), some e)
  ideal_get_present keys k n l e f = rw (f, ideal_get) refl

  pub ideal_set_absent :
      (keys : KeyEq K) (k : K) (v : V) (n : ℕ) (l : List (Entry K V))
      → entry_of keys k l ≡ none
      → ideal_set keys 0 k v 0 (sized n l)
        ≡ sized n (trim n (l ++ record { key = k; value = v; expires = 0 } ∷ []))
  ideal_set_absent keys k v n l f = rw (f, ideal_set) refl

-- The entries of the two caches by host and by address.
pub ip_entry_absent :
    (h : Text) (l : Pairs) → ip_for h l ≡ none → entry_of text_keys h (map ip_entry l) ≡ none
ip_entry_absent h [] f = refl
ip_entry_absent h ((g, ip) ∷ l) f = elim (Bool-cases (text_eq g h)) [
  | inl s ↦ let f' : some ip ≡ none = rw s at f in absurd (cc)
  | inr s ↦ rw s (ip_entry_absent h l (rw s at f))
]

pub ip_entry_present :
    (h : Text) (ip : ℕ) (l : Pairs)
    → ip_for h l ≡ some ip
    → entry_of text_keys h (map ip_entry l) ≡ some (ip_entry (h, ip))
ip_entry_present h ip [] f = absurd (cc)
ip_entry_present h ip ((g, jp) ∷ l) f = elim (Bool-cases (text_eq g h)) [
  | inl s ↦
      let f' : some jp ≡ some ip = rw s at f in
      let e : jp ≡ ip = cc in
      rw s (
        ap (λ x. some (ip_entry (x, jp))) ((text_keys.same_iff g h).0 s)
        ∙ ap (λ x. some (ip_entry (h, x))) e)
  | inr s ↦ rw s (ip_entry_present h ip l (rw s at f))
]

pub ip_entry-without :
    (h : Text) (l : Pairs) → without text_keys h (map ip_entry l) ≡ map ip_entry (without_host h l)
ip_entry-without h [] = refl
ip_entry-without h ((g, jp) ∷ l) = elim (Bool-cases (text_eq g h)) [
  | inl s ↦ rw s (ip_entry-without h l)
  | inr s ↦ rw s (ap (λ x. ip_entry (g, jp) ∷ x) (ip_entry-without h l))
]

pub host_entry_absent :
    (ip : ℕ) (l : Pairs) → host_for ip l ≡ none → entry_of ℕ_keys ip (map host_entry l) ≡ none
host_entry_absent ip [] f = refl
host_entry_absent ip ((g, jp) ∷ l) f = elim (Bool-cases (jp == ip)) [
  | inl s ↦ let f' : some g ≡ none = rw s at f in absurd (cc)
  | inr s ↦ rw s (host_entry_absent ip l (rw s at f))
]

pub host_entry_present :
    (h : Text) (ip : ℕ) (l : Pairs)
    → host_for ip l ≡ some h
    → entry_of ℕ_keys ip (map host_entry l) ≡ some (host_entry (h, ip))
host_entry_present h ip [] f = absurd (cc)
host_entry_present h ip ((g, jp) ∷ l) f = elim (Bool-cases (jp == ip)) [
  | inl s ↦
      let f' : some g ≡ some h = rw s at f in
      let e : g ≡ h = cc in
      let same : jp ≡ ip = ground arith in
      rw s (ap (λ x. some (host_entry (g, x))) same ∙ ap (λ x. some (host_entry (x, ip))) e)
  | inr s ↦ rw s (host_entry_present h ip l (rw s at f))
]

pub host_entry-without :
    (ip : ℕ) (l : Pairs) → without ℕ_keys ip (map host_entry l) ≡ map host_entry (without_ip ip l)
host_entry-without ip [] = refl
host_entry-without ip ((g, jp) ∷ l) = elim (Bool-cases (jp == ip)) [
  | inl s ↦ rw s (host_entry-without ip l)
  | inr s ↦ rw s (ap (λ x. host_entry (g, jp) ∷ x) (host_entry-without ip l))
]

-- The invariant of the store: the caches are well-formed, and hold the pairs `l` by host and by address.
pub record IsMirror (n : ℕ) (l : Pairs) (m : MemoryStore) : Type 0 where
  pub ip_ok : IsCache text_keys m.cache_ip
  pub host_ok : IsCache ℕ_keys m.cache_host
  pub ip_view : view m.cache_ip ≡ sized n (map ip_entry l)
  pub host_view : view m.cache_host ≡ sized n (map host_entry l)
  pub distinct : Distinct l

-- The two caches after a `Get` of a host and of an address that are a pair.
pub get_ip_present :
    (n : ℕ) (h : Text) (ip : ℕ) (l : Pairs) (c : LruCache Text ℕ)
    → IsCache text_keys c
    → view c ≡ sized n (map ip_entry l)
    → ip_for h l ≡ some ip
    → IsCache text_keys (LruCache.get text_keys 0 h c).0
      × (view (LruCache.get text_keys 0 h c).0 ≡ sized n (map ip_entry (touched h ip l)))
      × ((LruCache.get text_keys 0 h c).1 ≡ some ip)
unfolding LruCache.value_of
get_ip_present n h ip l c ok v f =
    let (ok', v', r) = get_lem text_keys 0 h c (sized n (map ip_entry l)) ok v in
    let found =
      ideal_get_present text_keys h n (map ip_entry l) (ip_entry (h, ip))
        (ip_entry_present h ip l f) in
    (
      ok',
      v'
          ∙ ap (λ x. x.0) found
          ∙ ap (λ x. sized n (x ++ ip_entry (h, ip) ∷ [])) (ip_entry-without h l)
          ∙ ap (sized n) (sym (map-snoc ip_entry (without_host h l) (h, ip))),
      r ∙ ap (λ x. LruCache.value_of text_keys x.1) found,
    )

pub get_host_present :
    (n : ℕ) (h : Text) (ip : ℕ) (l : Pairs) (c : LruCache ℕ Text)
    → IsCache ℕ_keys c
    → view c ≡ sized n (map host_entry l)
    → Distinct l
    → ip_for h l ≡ some ip
    → IsCache ℕ_keys (LruCache.get ℕ_keys 0 ip c).0
      × (view (LruCache.get ℕ_keys 0 ip c).0 ≡ sized n (map host_entry (touched h ip l)))
      × ((LruCache.get ℕ_keys 0 ip c).1 ≡ some h)
unfolding LruCache.value_of
get_host_present n h ip l c ok v d f =
    let (ok', v', r) = get_lem ℕ_keys 0 ip c (sized n (map host_entry l)) ok v in
    let (here, gone) = host_for-ip_for h ip l d f in
    let found =
      ideal_get_present ℕ_keys ip n (map host_entry l) (host_entry (h, ip))
        (host_entry_present h ip l here) in
    (
      ok',
      v'
          ∙ ap (λ x. x.0) found
          ∙ ap (λ x. sized n (x ++ host_entry (h, ip) ∷ [])) (host_entry-without ip l)
          ∙ ap (sized n) (sym (map-snoc host_entry (without_ip ip l) (h, ip)))
          ∙ ap (λ x. sized n (map host_entry (x ++ (h, ip) ∷ []))) gone,
      r ∙ ap (λ x. LruCache.value_of ℕ_keys x.1) found,
    )
