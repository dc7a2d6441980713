-- ===== src/LruCache/History.antt =====
-- The methods of the cache in any order, against the list of entries that it promises.
use go_warp_scanner.Common.Keys.{KeyEq}
use go_warp_scanner.LruCache.{
  Entry, LruCache, new, expires_at, set_with_expire, set_key, get_entry, value_of, get, delete,
}
use go_warp_scanner.LruCache.Elements.{id_of}
use go_warp_scanner.LruCache.Ideal.{
  Ideal, entries, view, aging, entry_of, ideal_set, ideal_get, ideal_delete,
}
use go_warp_scanner.LruCache.Invariant.{IsCache}
use go_warp_scanner.LruCache.Calls.{set_with_expire_lem, get_entry_lem, delete_lem}
use go_warp_scanner.LruCache.Recency.{
  Holds, Holds-ideal_set, Holds-ideal_set_other, Holds-ideal_get_other, Holds-ideal_delete_other,
}
use go_warp_scanner.LruCache.Bounds.{
  Bounded, Bounded-ideal_set, Bounded-ideal_get, Bounded-ideal_delete,
}
use go_warp_scanner.Common.{
  ℕ, suc, ◌+◌, ◌≤◌, ◌<◌, ◌≡◌, refl, sym, ap, ◌∙◌, ◌⊎◌, inl, inr, Bool, true, false, not, ◌&&◌,
  Option, none, some, List, [], ◌∷◌, arith, ltb, leb, if◌then◌else◌, Bool-cases, Option-cases,
  length,
}

-- Room for some calls, in a cache with the bound `m` or with none.
abbrev Room : ℕ → ℕ → Type 0
Room n m = (m ≡ 0) ⊎ (n < m)

Room-le : (n n' m : ℕ) → n' ≤ n → Room n m → Room n' m
Room-le n n' m le (inl z) = inl z
Room-le n n' m le (inr lt) = inr (omega arith)

-- A call of a method: `Set`, `SetWithExpire`, `Get` or `GetWithExpire`, `Delete`. `Clear` is in
-- LruCache/Clear, since what it leaves is not a cache in the sense of `IsCache`.
pub data Call {ℓ} (K V : Type ℓ) : Type ℓ where
  set_call : K → V → Call K V
  set_expire_call : K → V → ℕ → Call K V
  get_call : K → Call K V
  delete_call : K → Call K V

module _ {ℓ} {K V : Type ℓ} where
  abbrev pub key_of : Call K V → K
  key_of (set_call k v) = k
  key_of (set_expire_call k v expires) = k
  key_of (get_call k) = k
  key_of (delete_call k) = k

  abbrev ideal_expires : ℕ → Ideal K V → ℕ
  ideal_expires now c = if ltb 0 c.max_age then now + c.max_age else 0

module _ {ℓ} {K V : Type ℓ} (keys : KeyEq K) where
  open keys use {same}

  -- A call at a time, and the entry that a `get` of it returns.
  abbrev pub call : ℕ × Call K V → LruCache K V → LruCache K V × Option (Entry K V)
  call (now, set_call k v) c = (set_key keys now k v c, none)
  call (now, set_expire_call k v expires) c = (set_with_expire keys now k v expires c, none)
  call (now, get_call k) c = get_entry keys now k c
  call (now, delete_call k) c = (delete keys k c, none)

  abbrev pub ideal_call : ℕ × Call K V → Ideal K V → Ideal K V × Option (Entry K V)
  ideal_call (now, set_call k v) c = (ideal_set keys now k v (ideal_expires now c) c, none)
  ideal_call (now, set_expire_call k v expires) c = (ideal_set keys now k v expires c, none)
  ideal_call (now, get_call k) c = ideal_get keys now k c
  ideal_call (now, delete_call k) c = (ideal_delete keys k c, none)

  -- The cache after some calls, and what each returned.
  abbrev pub run : List (ℕ × Call K V) → LruCache K V → LruCache K V × List (Option (Entry K V))
  run [] c = (c, [])
  run (x ∷ xs) c = let (c', r) = call x c in let (c'', rs) = run xs c' in (c'', r ∷ rs)

  abbrev pub ideal_run : List (ℕ × Call K V) → Ideal K V → Ideal K V × List (Option (Entry K V))
  ideal_run [] c = (c, [])
  ideal_run (x ∷ xs) c =
      let (c', r) = ideal_call x c in let (c'', rs) = ideal_run xs c' in (c'', r ∷ rs)

  call_lem :
      (x : ℕ × Call K V) (c : LruCache K V)
      → IsCache keys c
      → IsCache keys (call x c).0
        × (view (call x c).0 ≡ (ideal_call x (view c)).0)
        × ((call x c).1 ≡ (ideal_call x (view c)).1)
  unfolding set_key
  call_lem (now, set_call k v) c inv =
      let (inv', s) = set_with_expire_lem keys now k v (expires_at now c) c inv in (inv', s, refl)
  call_lem (now, set_expire_call k v expires) c inv =
      let (inv', s) = set_with_expire_lem keys now k v expires c inv in (inv', s, refl)
  call_lem (now, get_call k) c inv = get_entry_lem keys now k c inv
  call_lem (now, delete_call k) c inv = let (inv', s) = delete_lem keys k c inv in (inv', s, refl)

  run_lem :
      (xs : List (ℕ × Call K V)) (c : LruCache K V)
      → IsCache keys c
      → IsCache keys (run xs c).0
        × (view (run xs c).0 ≡ (ideal_run xs (view c)).0)
        × ((run xs c).1 ≡ (ideal_run xs (view c)).1)
  run_lem [] c inv = (inv, refl, refl)
  run_lem (x ∷ xs) c inv =
      let (inv', s, r) = call_lem x c inv in
      let (inv2, s2, rs) = run_lem xs (call x c).0 inv' in
      (
        inv2,
        s2 ∙ ap (λ i. (ideal_run xs i).0) s,
        ap (λ o. o ∷ (run xs (call x c).0).1) r
            ∙ ap (λ os. (ideal_call x (view c)).1 ∷ os) (rs ∙ ap (λ i. (ideal_run xs i).1) s),
      )

  -- After any calls of `Set`, `SetWithExpire`, `Get`, `GetWithExpire` and `Delete` on a new cache, the map gives the
  -- element of each key, no two elements have the same key, the entries are those of the ideal list after the same
  -- calls, and each call returned what it returns there.
  pub run-ideal_run :
      (max_age max_size : ℕ) (update_age_on_get stale_return : Bool) (xs : List (ℕ × Call K V))
      → IsCache keys (run xs (new max_age max_size update_age_on_get stale_return)).0
        × (view (run xs (new max_age max_size update_age_on_get stale_return)).0
            ≡ (ideal_run xs (view (new max_age max_size update_age_on_get stale_return))).0)
        × ((run xs (new max_age max_size update_age_on_get stale_return)).1
            ≡ (ideal_run xs (view (new max_age max_size update_age_on_get stale_return))).1)
  unfolding id_of
  run-ideal_run max_age max_size update_age_on_get stale_return xs =
      run_lem xs (new max_age max_size update_age_on_get stale_return) (tt, λ k. refl)

  Bounded-ideal_call :
      (x : ℕ × Call K V) (c : Ideal K V) → Bounded keys c → Bounded keys (ideal_call x c).0
  Bounded-ideal_call (now, set_call k v) c b =
      Bounded-ideal_set keys now k v (ideal_expires now c) c b
  Bounded-ideal_call (now, set_expire_call k v expires) c b =
      Bounded-ideal_set keys now k v expires c b
  Bounded-ideal_call (now, get_call k) c b = Bounded-ideal_get keys now k c b
  Bounded-ideal_call (now, delete_call k) c b = Bounded-ideal_delete keys k c b

  Bounded-ideal_run :
      (xs : List (ℕ × Call K V)) (c : Ideal K V) → Bounded keys c → Bounded keys (ideal_run xs c).0
  Bounded-ideal_run [] c b = b
  Bounded-ideal_run (x ∷ xs) c b =
      Bounded-ideal_run xs (ideal_call x c).0 (Bounded-ideal_call x c b)

  -- Whether none of some calls is on a key.
  abbrev pub others : K → List (ℕ × Call K V) → Bool
  others k [] = true
  others k ((now, x) ∷ xs) = not (same (key_of x) k) && others k xs

  Holds-ideal_call :
      (k : K) (v : V) (b now : ℕ) (x : Call K V) (c : Ideal K V)
      → same (key_of x) k ≡ false
      → (c.max_size ≡ 0) ⊎ (b + 1 < c.max_size)
      → Holds keys k v b c
      → Holds keys k v (b + 1) (ideal_call (now, x) c).0
  Holds-ideal_call k v b now (set_call k' v') c d room h =
      Holds-ideal_set_other keys now k k' v v' (ideal_expires now c) b c d room h
  Holds-ideal_call k v b now (set_expire_call k' v' expires) c d room h =
      Holds-ideal_set_other keys now k k' v v' expires b c d room h
  Holds-ideal_call k v b now (get_call k') c d room h =
      Holds-ideal_get_other keys now k k' v b c d room h
  Holds-ideal_call k v b now (delete_call k') c d room h =
      Holds-ideal_delete_other keys k k' v b c d room h

  -- The settings do not change.
  sizes : (x : ℕ × Call K V) (c : Ideal K V) → ((ideal_call x c).0.max_size ≡ c.max_size)
  sizes (now, set_call k v) c = by_aging c
    where
      by_aging :
          (c : Ideal K V) → (ideal_set keys now k v (ideal_expires now c) c).max_size ≡ c.max_size
      by_aging c = elim (Bool-cases (aging c)) [
        | inl t ↦ rw (t, ideal_set) refl
        | inr t ↦ rw (t, ideal_set) refl
      ]
  sizes (now, set_expire_call k v expires) c = elim (Bool-cases (aging c)) [
    | inl t ↦ rw (t, ideal_set) refl
    | inr t ↦ rw (t, ideal_set) refl
  ]
  sizes (now, get_call k) c = elim (Option-cases (entry_of keys k c.items)) [
    | inl f ↦ rw (f, ideal_get) refl
    | inr (e, f) ↦ elim (Bool-cases (aging c)) [
      | inl t ↦ elim (Bool-cases (leb e.expires now)) [
        | inl u ↦ rw (f, ideal_get) (rw (t, u) refl)
        | inr u ↦ rw (f, ideal_get) (rw (t, u) refl)
      ]
      | inr t ↦ rw (f, ideal_get) (rw t refl)
    ]
  ]
  sizes (now, delete_call k) c = refl

  Holds-ideal_run :
      (k : K) (v : V) (b : ℕ) (xs : List (ℕ × Call K V)) (c : Ideal K V)
      → others k xs ≡ true
      → (c.max_size ≡ 0) ⊎ (b + length xs < c.max_size)
      → Holds keys k v b c
      → (b' : ℕ) × Holds keys k v b' (ideal_run xs c).0
  Holds-ideal_run k v b [] c o room h = (b, h)
  Holds-ideal_run k v b ((now, x) ∷ xs) c o room h =
      let d : same (key_of x) k ≡ false = ground arith in
      let o' : others k xs ≡ true = ground arith in
      let z = sizes (now, x) c in
      let h' =
        Holds-ideal_call k v b now x c d
          (Room-le (b + suc (length xs)) (b + 1) c.max_size (omega arith) room) h in
      Holds-ideal_run k v (b + 1) xs (ideal_call (now, x) c).0 o'
        (rw z (Room-le (b + suc (length xs)) (b + 1 + length xs) c.max_size (omega arith) room)) h'

  -- An entry that is held is found, without ages.
  value-ideal_get :
      (now : ℕ) (k : K) (v : V) (b : ℕ) (c : Ideal K V)
      → Holds keys k v b c
      → value_of keys (ideal_get keys now k c).1 ≡ some v
  unfolding value_of
  value-ideal_get now k v b c (a, small, (e, f, w, le)) =
      rw (f, ideal_get)
        (rw a (elim (Bool-cases (ltb 0 c.max_age && c.update_age_on_get)) [
          | inl t ↦ rw t (ap some w)
          | inr t ↦ rw t (ap some w)
        ]))

  -- A value that is set stays: in a cache whose map gives the element of each key, no two elements having the same key,
  -- without ages, `Get` of the key returns the value after any calls of `Set`, `SetWithExpire`, `Get`, `GetWithExpire`
  -- and `Delete` on other keys, if these are fewer than the bound or there is no bound.
  pub get-run-set_key :
      (now now' : ℕ) (k : K) (v : V) (xs : List (ℕ × Call K V)) (c : LruCache K V)
      → IsCache keys c
      → aging (view c) ≡ false
      → others k xs ≡ true
      → (c.max_size ≡ 0) ⊎ (length xs < c.max_size)
      → (get keys now' k (run xs (set_key keys now k v c)).0).1 ≡ some v
  unfolding get
  get-run-set_key now now' k v xs c inv a o room =
      let (inv', s, r) = call_lem (now, set_call k v) c inv in
      let c' : LruCache K V = set_key keys now k v c in
      let (inv2, s2, r2) = run_lem xs c' inv' in
      let c2 : LruCache K V = (run xs c').0 in
      let (inv3, s3, r3) = get_entry_lem keys now' k c2 inv2 in
      let h = Holds-ideal_set keys now k v (expires_at now c) (view c) a in
      let z = sizes (now, set_call k v) (view c) in
      let (b, h') =
        Holds-ideal_run k v 0 xs (ideal_call (now, set_call k v) (view c)).0 o
          (rw z (Room-le (length xs) (0 + length xs) c.max_size (omega arith) room)) h in
      ap (value_of keys)
        (r3 ∙ ap (λ i. (ideal_get keys now' k i).1) (s2 ∙ ap (λ i. (ideal_run xs i).0) s))
      ∙ value-ideal_get now' k v b (ideal_run xs (ideal_call (now, set_call k v) (view c)).0).0 h'

  length-entries : (c : LruCache K V) → length (entries c.lru) ≡ length c.lru
  length-entries c = go c.lru
    where
      go : (l : List (ℕ × Entry K V)) → length (entries l) ≡ length l
      go [] = refl
      go ((i, e) ∷ rest) = ap suc (go rest)

  -- A cache with a bound never has more elements than the bound, whatever calls of these methods it has had.
  pub length-run :
      (max_age max_size : ℕ) (update_age_on_get stale_return : Bool) (xs : List (ℕ × Call K V))
      → 1 ≤ max_size
      → length (run xs (new max_age max_size update_age_on_get stale_return)).0.lru ≤ max_size
  length-run max_age max_size update_age_on_get stale_return xs le =
      let c : LruCache K V = new max_age max_size update_age_on_get stale_return in
      let (inv, s, r) = run-ideal_run max_age max_size update_age_on_get stale_return xs in
      let b = Bounded-ideal_run xs (view c) (inr (omega arith)) in
      let z = sizes_run xs (view c) in
      let n : length (run xs c).0.lru ≡ length (ideal_run xs (view c)).0.items =
        sym (length-entries (run xs c).0) ∙ ap (λ i. length i.items) s in
      rw n (positive le z b)
    where
      sizes_run :
          (xs : List (ℕ × Call K V)) (c : Ideal K V) → (ideal_run xs c).0.max_size ≡ c.max_size
      sizes_run [] c = refl
      sizes_run (x ∷ xs) c = sizes_run xs (ideal_call x c).0 ∙ sizes x c

      positive : {m m' n : ℕ} → 1 ≤ m → m' ≡ m → (m' ≡ 0) ⊎ (n ≤ m') → n ≤ m
      positive lt e (inl z) = absurd (omega arith)
      positive lt e (inr le') = omega arith
