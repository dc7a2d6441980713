-- ===== src/LruCache/Clear.antt =====
-- `Clear` of the cache leaves the list: a key at the front of a full list is lost when it is set again.
use go_warp_scanner.Common.Keys.{KeyEq}
use go_warp_scanner.LruCache.{
  Entry, Element, LruCache, ages, put_key, delete_element, delete_front, evict, set_entry,
  maybe_delete_oldest, set_with_expire, set_key, get_entry, value_of, get, clear,
}
use go_warp_scanner.LruCache.Elements.{same_refl}
use go_warp_scanner.Common.{
  ℕ, ◌+◌, ◌≤◌, ◌<◌, ◌≡◌, refl, ap, true, false, ◌&&◌, none, List, [], ◌∷◌, ◌++◌, arith, ltb,
  if◌then◌else◌, length, length-append,
}

module _ {ℓ} {K V : Type ℓ} (keys : KeyEq K) where
  open keys use {same}

  evict-full :
      (i : ℕ) (e : Entry K V) (rest : List (Element K V)) (c : LruCache K V)
      → c.lru ≡ (i, e) ∷ rest
      → 1 ≤ c.max_size
      → c.max_size < length c.lru
      → evict keys c ≡ delete_element keys (i, e) c
  unfolding evict delete_front
  evict-full i e rest c l one full =
      let t : (ltb 0 c.max_size && ltb c.max_size (length c.lru)) ≡ true = ground arith in
      rw t (ap (λ x. delete_front keys x c) l)

  get_absent : (now : ℕ) (k : K) (c : LruCache K V) → c.cache k ≡ none → (get keys now k c).1 ≡ none
  unfolding get get_entry value_of
  get_absent now k c f = rw (f, get_entry) refl

  -- After `Clear` of a cache without ages that was full, `Set` of the key at the front of its list does not store the
  -- value: `Get` then does not find the key.
  pub get-set_key-clear :
      (now now' i : ℕ) (e : Entry K V) (v : V) (rest : List (Element K V)) (c : LruCache K V)
      → c.lru ≡ (i, e) ∷ rest
      → 1 ≤ c.max_size
      → c.max_size ≤ length c.lru
      → ages c ≡ false
      → (get keys now' e.key (set_key keys now e.key v (clear c))).1 ≡ none
  unfolding set_key set_with_expire set_entry maybe_delete_oldest clear delete_element
  get-set_key-clear now now' i e v rest c l one full a =
      let x : Element K V = (
        c.next,
        record { key = e.key; value = v; expires = if ltb 0 c.max_age then now + c.max_age else 0 },
      ) in
      let c' : LruCache K V = record c {
        lru = c.lru ++ x ∷ [];
        cache = put_key keys e.key c.next (λ k. none);
        next = c.next + 1;
      } in
      let n = length-append c.lru (x ∷ []) in
      let longer : c.max_size < length c'.lru = rw n (omega arith) in
      let out : evict keys c' ≡ delete_element keys (i, e) c' =
        evict-full i e (rest ++ x ∷ []) c' (ap (λ z. z ++ x ∷ []) l) one longer in
      let gone : (delete_element keys (i, e) c').cache e.key ≡ none =
        rw (same_refl keys e.key) refl in
      rw (out, a) (get_absent now' e.key (delete_element keys (i, e) c') gone)
