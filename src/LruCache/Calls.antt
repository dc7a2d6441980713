-- ===== src/LruCache/Calls.antt =====
-- The calls of the cache against the list of entries that it promises.
use go_warp_scanner.Common.Keys.{KeyEq}
use go_warp_scanner.LruCache.{
  Entry, LruCache, move_to_back, ages, put_key, delete_element, evict, set_entry, set_with_expire,
  refresh, get_element, get_entry, value_of, get, is_found, exist, delete,
}
use go_warp_scanner.LruCache.Elements.{
  id_of, id_of-snoc, id_of-snoc_some, Apart-snoc, Apart-le, find_fresh,
}
use go_warp_scanner.LruCache.Ideal.{
  Ideal, entries, view, expire, trim, entry_of, ideal_set, ideal_get, ideal_delete,
}
use go_warp_scanner.LruCache.Invariant.{
  IsCache, absent, present, KeyCase_lem, without_absent, delete_element-IsCache,
  maybe_delete_oldest_lem, entries-append, evict_lem, move_to_back_lem,
}
use go_warp_scanner.Common.{
  ℕ, ◌+◌, ◌≡◌, refl, sym, ap, ◌∙◌, inl, inr, true, false, ◌&&◌, none, some, [], ◌∷◌, ◌++◌, arith,
  ltb, leb, if◌then◌else◌, Bool-cases, Option-cases,
}

module _ {ℓ} {K V : Type ℓ} (keys : KeyEq K) where
  open keys use {same}

  -- A new element at the back.
  push_back_lem :
      (k : K) (e : Entry K V) (c : LruCache K V)
      → IsCache keys c
      → e.key ≡ k
      → id_of keys k c.lru ≡ none
      → IsCache keys (record c {
        lru = c.lru ++ (c.next, e) ∷ [];
        cache = put_key keys k c.next c.cache;
        next = c.next + 1;
      })
  push_back_lem k e c (a, agree) own left =
      let free : id_of keys e.key c.lru ≡ none = ap (λ x. id_of keys x c.lru) own ∙ left in
      (
        Apart-snoc keys (c.next + 1) c.next c.lru e
            (Apart-le keys c.next (c.next + 1) c.lru (omega arith) a) (omega arith)
            (find_fresh keys c.next c.lru a) free,
        λ j. sym (elim (Bool-cases (same k j)) [
          | inl s ↦
              let gone : id_of keys j c.lru ≡ none =
                ap (λ x. id_of keys x c.lru) (sym ((keys.same_iff k j).0 s)) ∙ left in
              id_of-snoc keys c.next j c.lru e gone
              ∙ ap (λ x. if same x j then some c.next else none) own
              ∙ rw (s, put_key) refl
          | inr s ↦
              (elim (Option-cases (id_of keys j c.lru)) [
                | inl g ↦
                    id_of-snoc keys c.next j c.lru e g
                    ∙ ap (λ x. if same x j then some c.next else none) own
                    ∙ rw s (sym g)
                | inr (m, g) ↦ id_of-snoc_some keys c.next m j c.lru e g ∙ sym g
              ])
              ∙ sym (agree j)
              ∙ rw (s, put_key) refl
        ]),
      )

  pub set_with_expire_lem :
      (now : ℕ) (k : K) (v : V) (expires : ℕ) (c : LruCache K V)
      → IsCache keys c
      → IsCache keys (set_with_expire keys now k v expires c)
        × (view (set_with_expire keys now k v expires c) ≡ ideal_set keys now k v expires (view c))
  unfolding set_with_expire set_entry
  set_with_expire_lem now k v expires c inv = elim (KeyCase_lem keys k c inv) [
    | absent f g h ↦
        let e : Entry K V = record { key = k; value = v; expires = expires } in
        let c' : LruCache K V = record c {
          lru = c.lru ++ (c.next, e) ∷ [];
          cache = put_key keys k c.next c.cache;
          next = c.next + 1;
        } in
        let (inv', s) = evict_lem keys c' (push_back_lem k e c inv refl g) in
        let (inv2, s2) = maybe_delete_oldest_lem keys now (evict keys c') inv' in
        rw (f, set_entry)
          (
            inv2,
            s2
                ∙ ap (expire now) (
                    s
                    ∙ ap (λ x. record (view c) { items = trim c.max_size x })
                        (entries-append keys c.lru ((c.next, e) ∷ [])))
                ∙ rw (h, ideal_set) refl,
          )
    | present i e f g own h left ↦
        let change : Entry K V → Entry K V = λ e. record e { value = v; expires = expires } in
        let (inv', s) = move_to_back_lem keys i k e change c inv g own own left in
        let c' : LruCache K V = record c { lru = move_to_back i change c.lru } in
        let (inv2, s2) = maybe_delete_oldest_lem keys now c' inv' in
        rw (f, set_entry)
          (
            inv2,
            s2 ∙ ap (λ x. expire now (record (view c) { items = x })) s ∙ rw (h, ideal_set) refl,
          )
  ]

  pub get_entry_lem :
      (now : ℕ) (k : K) (c : LruCache K V)
      → IsCache keys c
      → IsCache keys (get_entry keys now k c).0
        × (view (get_entry keys now k c).0 ≡ (ideal_get keys now k (view c)).0)
        × ((get_entry keys now k c).1 ≡ (ideal_get keys now k (view c)).1)
  unfolding get_entry get_element delete_element refresh
  get_entry_lem now k c inv = elim (KeyCase_lem keys k c inv) [
    | absent f g h ↦ rw (f, get_entry) (rw (h, ideal_get) (inv, refl, refl))
    | present i e f g own h left ↦ elim (Bool-cases (ages c && leb e.expires now)) [
      | inl t ↦
          let c' : LruCache K V = delete_element keys (i, e) c in
          let (inv', s) =
            maybe_delete_oldest_lem keys now c' (delete_element-IsCache keys i e c inv g) in
          rw (f, get_entry)
            (rw (g, get_element)
              (rw (h, ideal_get)
                (rw t (inv', s ∙ ap (λ x. expire now (record (view c) { items = x })) left, refl))))
      | inr t ↦
          let same_key : (refresh keys now c e).key ≡ k = key_refresh now c e ∙ own in
          let (inv', s) =
            move_to_back_lem keys i k e (refresh keys now c) c inv g own same_key left in
          rw (f, get_entry)
            (rw (g, get_element)
              (rw (h, ideal_get) (rw t (inv', ap (λ x. record (view c) { items = x }) s, refl))))
    ]
  ]
    where
      key_refresh :
          (now : ℕ) (c : LruCache K V) (e : Entry K V) → (refresh keys now c e).key ≡ e.key
      key_refresh now c e = elim (Bool-cases (ltb 0 c.max_age && c.update_age_on_get)) [
        | inl t ↦ rw t refl
        | inr t ↦ rw t refl
      ]

  pub delete_lem :
      (k : K) (c : LruCache K V)
      → IsCache keys c
      → IsCache keys (delete keys k c) × (view (delete keys k c) ≡ ideal_delete keys k (view c))
  unfolding delete delete_element
  delete_lem k c inv = elim (KeyCase_lem keys k c inv) [
    | absent f g h ↦
        rw (f, delete)
          (
            inv,
            ap (λ x. record (view c) { items = x }) (sym (without_absent keys k (entries c.lru) h)),
          )
    | present i e f g own h left ↦
        rw (f, delete)
          (rw (g, delete)
            (delete_element-IsCache keys i e c inv g, ap (λ x. record (view c) { items = x }) left))
  ]

  -- `Get` of a cache of which the view is given.
  pub get_lem :
      (now : ℕ) (k : K) (c : LruCache K V) (i : Ideal K V)
      → IsCache keys c
      → view c ≡ i
      → IsCache keys (get keys now k c).0
        × (view (get keys now k c).0 ≡ (ideal_get keys now k i).0)
        × ((get keys now k c).1 ≡ value_of keys (ideal_get keys now k i).1)
  unfolding get
  get_lem now k c i inv s =
      let (inv', s', r) = get_entry_lem now k c inv in
      (
        inv',
        s' ∙ ap (λ x. (ideal_get keys now k x).0) s,
        ap (value_of keys) (r ∙ ap (λ x. (ideal_get keys now k x).1) s),
      )

  -- `Exist` tells whether there is an entry of the key.
  pub exist_lem :
      (k : K) (c : LruCache K V)
      → IsCache keys c
      → exist keys k c ≡ false
      → entry_of keys k (entries c.lru) ≡ none
  unfolding exist is_found
  exist_lem k c inv e = elim (KeyCase_lem keys k c inv) [
    | absent f g h ↦ h
    | present i d f g own h left ↦ let e' : true ≡ false = rw (f, exist) at e in absurd (cc)
  ]
