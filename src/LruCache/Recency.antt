-- ===== src/LruCache/Recency.antt =====
-- common/cache/lrucache.go: how far an entry stands from the back of the list of entries.
use go_warp_scanner.Common.Keys.{KeyEq}
use go_warp_scanner.LruCache.{Entry}
use go_warp_scanner.LruCache.Ideal.{
  Ideal, aging, trim, entry_of, without, ideal_set, ideal_refresh, ideal_get, ideal_delete,
}
use go_warp_scanner.Common.{
  ℕ, ◌+◌, ◌≤◌, ◌<◌, ◌≡◌, refl, sym, ap, ◌∙◌, ◌⊎◌, inl, inr, true, false, ◌&&◌, none, some, List, [],
  ◌∷◌, ◌++◌, arith, dec_lt, ltb, if◌then◌else◌, Bool-cases, Option-cases, length, length-append,
}

module _ {ℓ} {K V : Type ℓ} (keys : KeyEq K) where
  open keys use {same}

  -- The number of entries behind the one of a key.
  abbrev pub behind : K → List (Entry K V) → ℕ
  behind k [] = 0
  behind k (e ∷ rest) = if same e.key k then length rest else behind k rest

  pub length-without : (k : K) (l : List (Entry K V)) → length (without keys k l) ≤ length l
  length-without k [] = omega arith
  length-without k (e ∷ rest) = let ih = length-without k rest in ground arith

  entry_of-without_other :
      (k k' : K) (l : List (Entry K V))
      → same k' k ≡ false
      → entry_of keys k (without keys k' l) ≡ entry_of keys k l
  entry_of-without_other k k' [] d = refl
  entry_of-without_other k k' (e ∷ rest) d =
      let ih = entry_of-without_other k k' rest d in
      elim (Bool-cases (same e.key k')) [
        | inl s ↦
            let s' : same e.key k ≡ false = ap (λ x. same x k) ((keys.same_iff e.key k').0 s) ∙ d in
            rw (s, s') ih
        | inr s ↦ rw s (ground (arith, ih))
      ]

  entry_of-without_self : (k : K) (l : List (Entry K V)) → entry_of keys k (without keys k l) ≡ none
  entry_of-without_self k [] = refl
  entry_of-without_self k (e ∷ rest) = elim (Bool-cases (same e.key k)) [
    | inl s ↦ rw s (entry_of-without_self k rest)
    | inr s ↦ rw s (rw s (entry_of-without_self k rest))
  ]

  behind-without_other :
      (k k' : K) (l : List (Entry K V))
      → same k' k ≡ false
      → behind k (without keys k' l) ≤ behind k l
  behind-without_other k k' [] d = omega arith
  behind-without_other k k' (e ∷ rest) d =
      let ih = behind-without_other k k' rest d in
      let le = length-without k' rest in
      elim (Bool-cases (same e.key k')) [
        | inl s ↦
            let s' : same e.key k ≡ false = ap (λ x. same x k) ((keys.same_iff e.key k').0 s) ∙ d in
            rw (s, s') ih
        | inr s ↦ rw s (ground arith)
      ]

  entry_of-snoc :
      (k : K) (x : Entry K V) (l : List (Entry K V)) (e : Entry K V)
      → entry_of keys k l ≡ some e
      → entry_of keys k (l ++ x ∷ []) ≡ some e
  entry_of-snoc k x [] e f = absurd (cc)
  entry_of-snoc k x (d ∷ rest) e f = ground (arith, entry_of-snoc k x rest e)

  behind-snoc :
      (k : K) (x : Entry K V) (l : List (Entry K V)) (e : Entry K V)
      → entry_of keys k l ≡ some e
      → behind k (l ++ x ∷ []) ≡ behind k l + 1
  behind-snoc k x [] e f = absurd (cc)
  behind-snoc k x (d ∷ rest) e f = elim (Bool-cases (same d.key k)) [
    | inl s ↦ rw (s, length-append rest (x ∷ [])) (omega arith)
    | inr s ↦ rw s (behind-snoc k x rest e (rw s at f))
  ]

  entry_of-snoc_none :
      (k : K) (x : Entry K V) (l : List (Entry K V))
      → x.key ≡ k
      → entry_of keys k l ≡ none
      → (entry_of keys k (l ++ x ∷ []) ≡ some x) × (behind k (l ++ x ∷ []) ≡ 0)
  entry_of-snoc_none k x [] own f =
      let s : same x.key k ≡ true = (keys.same_iff x.key k).1 own in rw s (refl, refl)
  entry_of-snoc_none k x (d ∷ rest) own f = elim (Bool-cases (same d.key k)) [
    | inl s ↦ let f' : some d ≡ none = rw s at f in absurd (cc)
    | inr s ↦ rw s (entry_of-snoc_none k x rest own (rw s at f))
  ]

  -- An entry is not trimmed off while fewer than the bound stand behind it.
  entry_of-trim :
      (k : K) (m : ℕ) (l : List (Entry K V))
      → (m ≡ 0) ⊎ (behind k l < m)
      → (entry_of keys k (trim m l) ≡ entry_of keys k l) × (behind k (trim m l) ≡ behind k l)
  entry_of-trim k m [] small = elim (Bool-cases (ltb 0 m && ltb m 0)) [
    | inl t ↦ rw t (refl, refl)
    | inr t ↦ rw t (refl, refl)
  ]
  entry_of-trim k m (e ∷ rest) small = elim (Bool-cases (ltb 0 m && ltb m (length (e ∷ rest)))) [
    | inl t ↦ elim (Bool-cases (same e.key k)) [
      | inl s ↦ let small' : (m ≡ 0) ⊎ (length rest < m) = rw s at small in absurd (ground arith)
      | inr s ↦ rw (t, s) (refl, refl)
    ]
    | inr t ↦ rw t (refl, refl)
  ]

  -- The entry of a key has the value `v`, with at most `b` entries behind it, in a cache without ages.
  abbrev pub Holds : K → V → ℕ → Ideal K V → Type ℓ
  Holds k v b c =
      (aging c ≡ false)
      × ((c.max_size ≡ 0) ⊎ (b < c.max_size))
      × ((e : Entry K V) × (entry_of keys k c.items ≡ some e)
          × (e.value ≡ v)
          × (behind k c.items ≤ b))

  -- A set makes an entry the last one.
  pub Holds-ideal_set :
      (now : ℕ) (k : K) (v : V) (expires : ℕ) (c : Ideal K V)
      → aging c ≡ false
      → Holds k v 0 (ideal_set keys now k v expires c)
  Holds-ideal_set now k v expires c a = elim (Option-cases (entry_of keys k c.items)) [
    | inl f ↦
        let x : Entry K V = record { key = k; value = v; expires = expires } in
        let (g, h) = entry_of-snoc_none k x c.items refl f in
        let (g', h') =
          entry_of-trim k c.max_size (c.items ++ x ∷ [])
            (some_room (behind k (c.items ++ x ∷ [])) h) in
        rw (f, ideal_set) (rw a (a, some_room 0 refl, (x, g' ∙ g, refl, rw (h', h) (omega arith))))
    | inr (e, f) ↦
        let x : Entry K V = record e { value = v; expires = expires } in
        let (g, h) =
          entry_of-snoc_none k x (without keys k c.items) (own k c.items e f)
            (entry_of-without_self k c.items) in
        rw (f, ideal_set) (rw a (a, some_room 0 refl, (x, g, refl, rw h (omega arith))))
  ]
    where
      own : (k : K) (l : List (Entry K V)) (e : Entry K V) → entry_of keys k l ≡ some e → e.key ≡ k
      own k [] e f = absurd (cc)
      own k (d ∷ rest) e f = elim (Bool-cases (same d.key k)) [
        | inl s ↦
            let f' : some d ≡ some e = rw s at f in
            let g : d ≡ e = cc in ap (λ x. x.key) (sym g) ∙ (keys.same_iff d.key k).0 s
        | inr s ↦ own k rest e (rw s at f)
      ]

      some_room : (b : ℕ) → b ≡ 0 → (c.max_size ≡ 0) ⊎ (b < c.max_size)
      some_room b z = elim (dec_lt 0 c.max_size) [
        | yes lt ↦ inr (omega arith)
        | no ge ↦ inl (omega arith)
      ]

  -- A push of an entry of another key.
  entry_of-push :
      (k : K) (b m : ℕ) (x e : Entry K V) (l : List (Entry K V))
      → entry_of keys k l ≡ some e
      → behind k l ≤ b
      → (entry_of keys k (l ++ x ∷ []) ≡ some e) × (behind k (l ++ x ∷ []) ≤ b + 1)
  entry_of-push k b m x e l f le =
      let h = behind-snoc k x l e f in (entry_of-snoc k x l e f, rw h (omega arith))

  -- The entries without another key, with one pushed behind them.
  entry_of-move :
      (k k' : K) (b : ℕ) (x e : Entry K V) (l : List (Entry K V))
      → same k' k ≡ false
      → entry_of keys k l ≡ some e
      → behind k l ≤ b
      → (entry_of keys k (without keys k' l ++ x ∷ []) ≡ some e)
        × (behind k (without keys k' l ++ x ∷ []) ≤ b + 1)
  entry_of-move k k' b x e l d f le =
      let le' = behind-without_other k k' l d in
      entry_of-push k b b x e (without keys k' l) (entry_of-without_other k k' l d ∙ f)
        (omega arith)

  pub Holds-ideal_set_other :
      (now : ℕ) (k k' : K) (v v' : V) (expires b : ℕ) (c : Ideal K V)
      → same k' k ≡ false
      → (c.max_size ≡ 0) ⊎ (b + 1 < c.max_size)
      → Holds k v b c
      → Holds k v (b + 1) (ideal_set keys now k' v' expires c)
  Holds-ideal_set_other now k k' v v' expires b c d room (a, small, (e, f, w, le)) =
      elim (Option-cases (entry_of keys k' c.items)) [
        | inl g ↦
            let x : Entry K V = record { key = k'; value = v'; expires = expires } in
            let (f', le') = entry_of-push k b c.max_size x e c.items f le in
            let (g', h') = entry_of-trim k c.max_size (c.items ++ x ∷ []) (still room le') in
            rw (g, ideal_set) (rw a (a, room, (e, g' ∙ f', w, rw h' le')))
        | inr (d', g) ↦
            let x : Entry K V = record d' { value = v'; expires = expires } in
            let (f', le') = entry_of-move k k' b x e c.items d f le in
            rw (g, ideal_set) (rw a (a, room, (e, f', w, le')))
      ]
    where
      still : {m n b : ℕ} → (m ≡ 0) ⊎ (b < m) → n ≤ b → (m ≡ 0) ⊎ (n < m)
      still (inl z) le = inl z
      still (inr lt) le = inr (omega arith)

  Holds-suc :
      (k : K) (v : V) (b : ℕ) (c : Ideal K V)
      → (c.max_size ≡ 0) ⊎ (b + 1 < c.max_size)
      → Holds k v b c
      → Holds k v (b + 1) c
  Holds-suc k v b c room (a, small, (e, f, w, le)) = (a, room, (e, f, w, omega arith))

  pub Holds-ideal_get_other :
      (now : ℕ) (k k' : K) (v : V) (b : ℕ) (c : Ideal K V)
      → same k' k ≡ false
      → (c.max_size ≡ 0) ⊎ (b + 1 < c.max_size)
      → Holds k v b c
      → Holds k v (b + 1) (ideal_get keys now k' c).0
  Holds-ideal_get_other now k k' v b c d room (a, small, (e, f, w, le)) =
      elim (Option-cases (entry_of keys k' c.items)) [
        | inl g ↦ rw (g, ideal_get) (Holds-suc k v b c room (a, small, (e, f, w, le)))
        | inr (d', g) ↦
            let (f', le') = entry_of-move k k' b (ideal_refresh keys now c d') e c.items d f le in
            rw (g, ideal_get) (rw a (a, room, (e, f', w, le')))
      ]

  pub Holds-ideal_delete_other :
      (k k' : K) (v : V) (b : ℕ) (c : Ideal K V)
      → same k' k ≡ false
      → (c.max_size ≡ 0) ⊎ (b + 1 < c.max_size)
      → Holds k v b c
      → Holds k v (b + 1) (ideal_delete keys k' c)
  Holds-ideal_delete_other k k' v b c d room (a, small, (e, f, w, le)) =
      let le' = behind-without_other k k' c.items d in
      (a, room, (e, entry_of-without_other k k' c.items d ∙ f, w, omega arith))
