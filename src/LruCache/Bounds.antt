-- ===== src/LruCache/Bounds.antt =====
-- common/cache/lrucache.go: the bound on the number of entries.
use go_warp_scanner.Common.Keys.{KeyEq}
use go_warp_scanner.LruCache.{Entry}
use go_warp_scanner.LruCache.Recency.{length-without}
use go_warp_scanner.LruCache.Ideal.{
  Ideal, aging, drop_expired, expire, trim, entry_of, without, ideal_set, ideal_refresh, ideal_get,
  ideal_delete,
}
use go_warp_scanner.Common.{
  ℕ, ◌+◌, ◌≤◌, ◌<◌, ◌≡◌, ◌⊎◌, inl, inr, ◌&&◌, some, List, [], ◌∷◌, ◌++◌, arith, dec_lt, ltb, leb,
  Bool-cases, Option-cases, length, length-append, length-drop,
}

no_more : {m n n' : ℕ} → (m ≡ 0) ⊎ (n ≤ m) → n' ≤ n → (m ≡ 0) ⊎ (n' ≤ m)
no_more (inl z) le = inl z
no_more (inr le') le = inr (omega arith)

module _ {ℓ} {K V : Type ℓ} (keys : KeyEq K) where
  open keys use {same}

  length-without_present :
      (k : K) (l : List (Entry K V)) (e : Entry K V)
      → entry_of keys k l ≡ some e
      → length (without keys k l) < length l
  length-without_present k [] e f = absurd (cc)
  length-without_present k (d ∷ rest) e f = elim (Bool-cases (same d.key k)) [
    | inl s ↦ let le = length-without keys k rest in rw s (omega arith)
    | inr s ↦ let ih = length-without_present k rest e (rw s at f) in rw s (omega arith)
  ]

  -- The number of entries stays within the bound.
  abbrev pub Bounded : Ideal K V → Type 0
  Bounded c = (c.max_size ≡ 0) ⊎ (length c.items ≤ c.max_size)

  length-drop_expired : (now : ℕ) (l : List (Entry K V)) → length (drop_expired now l) ≤ length l
  length-drop_expired now [] = omega arith
  length-drop_expired now (e ∷ rest) = let ih = length-drop_expired now rest in ground arith

  pub Bounded-expire : (now : ℕ) (c : Ideal K V) → Bounded c → Bounded (expire now c)
  Bounded-expire now c b = elim (Bool-cases (aging c)) [
    | inl t ↦ let le = length-drop_expired now c.items in rw t (no_more b le)
    | inr t ↦ rw t b
  ]

  pub Bounded-ideal_set :
      (now : ℕ) (k : K) (v : V) (expires : ℕ) (c : Ideal K V)
      → Bounded c
      → Bounded (ideal_set keys now k v expires c)
  Bounded-ideal_set now k v expires c b = elim (Option-cases (entry_of keys k c.items)) [
    | inl f ↦
        let x : Entry K V = record { key = k; value = v; expires = expires } in
        let trimmed : Ideal K V = record c { items = trim c.max_size (c.items ++ x ∷ []) } in
        rw (f, ideal_set)
          (Bounded-expire now trimmed
            (within c.max_size (c.items ++ x ∷ []) (grown b (length-append c.items (x ∷ [])))))
    | inr (e, f) ↦
        let x : Entry K V = record e { value = v; expires = expires } in
        let lt = length-without_present k c.items e f in
        let moved : Ideal K V = record c { items = without keys k c.items ++ x ∷ [] } in
        rw (f, ideal_set)
          (Bounded-expire now moved
            (no_more b (rw (length-append (without keys k c.items) (x ∷ [])) (omega arith))))
  ]
    where
      grown : {m n n' : ℕ} → (m ≡ 0) ⊎ (n ≤ m) → n' ≡ n + 1 → (m ≡ 0) ⊎ (n' ≤ m + 1)
      grown (inl z) e = inl z
      grown (inr le) e = inr (omega arith)

      within :
          (m : ℕ) (l : List (Entry K V))
          → (m ≡ 0) ⊎ (length l ≤ m + 1)
          → (m ≡ 0) ⊎ (length (trim m l) ≤ m)
      within m l (inl z) = inl z
      within m l (inr le) = elim (Bool-cases (ltb 0 m && ltb m (length l))) [
        | inl t ↦ let h = length-drop 1 l in rw t (inr (rw h (omega arith)))
        | inr t ↦
            rw t (elim (dec_lt 0 m) [ yes lt ↦ inr (ground arith) | no ge ↦ inl (omega arith) ])
      ]

  pub Bounded-ideal_get :
      (now : ℕ) (k : K) (c : Ideal K V) → Bounded c → Bounded (ideal_get keys now k c).0
  Bounded-ideal_get now k c b = elim (Option-cases (entry_of keys k c.items)) [
    | inl f ↦ rw (f, ideal_get) b
    | inr (e, f) ↦
        let lt = length-without_present k c.items e f in
        elim (Bool-cases (aging c && leb e.expires now)) [
          | inl t ↦
              let left : Ideal K V = record c { items = without keys k c.items } in
              rw (f, ideal_get) (rw t (Bounded-expire now left (no_more b (omega arith))))
          | inr t ↦
              rw (f, ideal_get)
                (rw t (
                  no_more b (
                    rw (length-append (without keys k c.items) (ideal_refresh keys now c e ∷ []))
                      (omega arith))))
        ]
  ]

  pub Bounded-ideal_delete : (k : K) (c : Ideal K V) → Bounded c → Bounded (ideal_delete keys k c)
  Bounded-ideal_delete k c b = let le = length-without keys k c.items in no_more b le
