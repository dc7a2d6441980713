-- ===== src/LruCache/Invariant.antt =====
-- The invariant of the cache, and what each part of a call makes of the entries.
use go_warp_scanner.Common.Keys.{KeyEq}
use go_warp_scanner.LruCache.{
  Entry, Element, LruCache, find, remove, move_to_back, ages, delete_element, delete_oldest,
  maybe_delete_oldest, delete_front, evict,
}
use go_warp_scanner.LruCache.Elements.{
  same_refl, id_of, Apart, find-remove, remove_absent, find-key, id_of-remove, find-id_of,
  Apart-remove, id_of-snoc, id_of-snoc_some, Apart-snoc, find_below,
}
use go_warp_scanner.LruCache.Ideal.{entries, view, drop_expired, expire, trim, entry_of, without}
use go_warp_scanner.Common.{
  ℕ, suc, ◌≡◌, refl, sym, ap, ◌∙◌, subst, inl, inr, true, ◌&&◌, none, some, List, [], ◌∷◌, ◌++◌,
  arith, ltb, leb, ◌==◌, if◌then◌else◌, Bool-cases, Option-cases, length, drop,
}

module _ {ℓ} {K V : Type ℓ} (keys : KeyEq K) where
  open keys use {same}

  -- The elements are apart, and the map gives the element of each key.
  abbrev pub IsCache : LruCache K V → Type ℓ
  IsCache c = Apart keys c.next c.lru × ((k : K) → c.cache k ≡ id_of keys k c.lru)

  entry_of-entries :
      (n i : ℕ) (k : K) (l : List (Element K V))
      → Apart keys n l
      → id_of keys k l ≡ some i
      → entry_of keys k (entries l) ≡ find i l
  unfolding find id_of
  entry_of-entries n i k [] a f = absurd (cc)
  entry_of-entries n i k ((j, d) ∷ rest) ((lt, fresh, only), a) f =
      elim (Bool-cases (same d.key k)) [
        | inl s ↦ let f' : some j ≡ some i = rw s at f in let e : j ≡ i = cc in rw s (ground arith)
        | inr s ↦
            let f' : id_of keys k rest ≡ some i = rw s at f in
            let (e, g, s') = find-id_of keys n i k rest a f' in
            elim (Bool-cases (i == j)) [
              | inl u ↦
                  let here : i ≡ j = ground arith in
                  let g' = ap (λ x. find x rest) here in absurd (cc)
              | inr u ↦ rw (s, u) (entry_of-entries n i k rest a f')
            ]
      ]

  entry_of_absent :
      (k : K) (l : List (Element K V)) → id_of keys k l ≡ none → entry_of keys k (entries l) ≡ none
  unfolding id_of
  entry_of_absent k [] f = refl
  entry_of_absent k ((j, d) ∷ rest) f = elim (Bool-cases (same d.key k)) [
    | inl s ↦ let f' : some j ≡ none = rw s at f in absurd (cc)
    | inr s ↦ rw s (entry_of_absent k rest (rw s at f))
  ]

  pub without_absent :
      (k : K) (l : List (Entry K V)) → entry_of keys k l ≡ none → without keys k l ≡ l
  without_absent k [] f = refl
  without_absent k (e ∷ rest) f = elim (Bool-cases (same e.key k)) [
    | inl s ↦ let f' : some e ≡ none = rw s at f in absurd (cc)
    | inr s ↦ rw s (ap (λ x. e ∷ x) (without_absent k rest (rw s at f)))
  ]

  without-entries :
      (n i : ℕ) (k : K) (l : List (Element K V))
      → Apart keys n l
      → id_of keys k l ≡ some i
      → entries (remove i l) ≡ without keys k (entries l)
  unfolding remove id_of
  without-entries n i k [] a f = refl
  without-entries n i k ((j, d) ∷ rest) ((lt, fresh, only), a) f =
      elim (Bool-cases (same d.key k)) [
        | inl s ↦
            let f' : some j ≡ some i = rw s at f in
            let t : (i == j) ≡ true = ground arith in
            let here : j ≡ i = cc in
            let gone : remove i rest ≡ rest =
              remove_absent keys i rest (ap (λ x. find x rest) (sym here) ∙ fresh) in
            let k' : d.key ≡ k = (keys.same_iff d.key k).0 s in
            let left : id_of keys k rest ≡ none = ap (λ x. id_of keys x rest) (sym k') ∙ only in
            rw (s, t, gone) (sym (without_absent k (entries rest) (entry_of_absent k rest left)))
        | inr s ↦
            let f' : id_of keys k rest ≡ some i = rw s at f in
            let (e, g, s') = find-id_of keys n i k rest a f' in
            elim (Bool-cases (i == j)) [
              | inl u ↦
                  let here : i ≡ j = ground arith in
                  let g' = ap (λ x. find x rest) here in absurd (cc)
              | inr u ↦ rw (s, u) (ap (λ x. d ∷ x) (without-entries n i k rest a f'))
            ]
      ]

  -- What the invariant gives of a key: its element and its entry, or neither.
  pub data KeyCase (k : K) (c : LruCache K V) : Type ℓ where
    absent :
        c.cache k ≡ none
        → id_of keys k c.lru ≡ none
        → entry_of keys k (entries c.lru) ≡ none
        → KeyCase k c
    present :
        (i : ℕ) (e : Entry K V)
        → c.cache k ≡ some i
        → find i c.lru ≡ some e
        → e.key ≡ k
        → entry_of keys k (entries c.lru) ≡ some e
        → entries (remove i c.lru) ≡ without keys k (entries c.lru)
        → KeyCase k c

  pub KeyCase_lem : (k : K) (c : LruCache K V) → IsCache c → KeyCase k c
  KeyCase_lem k c (a, agree) = elim (Option-cases (c.cache k)) [
    | inl f ↦
        let g : id_of keys k c.lru ≡ none = sym (agree k) ∙ f in
        absent f g (entry_of_absent k c.lru g)
    | inr (i, f) ↦
        let g : id_of keys k c.lru ≡ some i = sym (agree k) ∙ f in
        let (e, h, s) = find-id_of keys c.next i k c.lru a g in
        present i e f h ((keys.same_iff e.key k).0 s) (entry_of-entries c.next i k c.lru a g ∙ h)
          (without-entries c.next i k c.lru a g)
  ]

  pub delete_element-IsCache :
      (i : ℕ) (e : Entry K V) (c : LruCache K V)
      → IsCache c
      → find i c.lru ≡ some e
      → IsCache (delete_element keys (i, e) c)
  unfolding delete_element
  delete_element-IsCache i e c (a, agree) f = (
    Apart-remove keys c.next i c.lru a,
    λ k.
        ap (λ o. if same e.key k then none else o) (agree k)
        ∙ sym (id_of-remove keys c.next i k c.lru e a f),
  )

  -- The loop at the front, on a cache of which the list is given.
  delete_oldest_lem :
      (now : ℕ) (l : List (Element K V)) (c : LruCache K V)
      → c.lru ≡ l
      → IsCache c
      → IsCache (delete_oldest keys now l c)
        × (view (delete_oldest keys now l c)
            ≡ record (view c) { items = drop_expired now (entries l) })
  unfolding delete_oldest delete_element find remove
  delete_oldest_lem now [] c e inv = (inv, ap (λ x. record (view c) { items = entries x }) e)
  delete_oldest_lem now ((i, d) ∷ rest) c e inv =
      let (a, agree) = inv in
      let ((lt, fresh, only), a') = subst (λ x. Apart keys c.next x) e a in
      let here : find i c.lru ≡ some d = ap (λ x. find i x) e ∙ ground arith in
      let gone : remove i c.lru ≡ rest =
        ap (λ x. remove i x) e ∙ ground (arith, remove_absent keys i rest fresh) in
      let (inv', v) =
        delete_oldest_lem now rest (delete_element keys (i, d) c) gone
          (delete_element-IsCache i d c inv here) in
      elim (Bool-cases (leb d.expires now)) [
        | inl t ↦ rw t (inv', v)
        | inr t ↦ rw t (inv, ap (λ x. record (view c) { items = entries x }) e)
      ]

  pub maybe_delete_oldest_lem :
      (now : ℕ) (c : LruCache K V)
      → IsCache c
      → IsCache (maybe_delete_oldest keys now c)
        × (view (maybe_delete_oldest keys now c) ≡ expire now (view c))
  unfolding maybe_delete_oldest
  maybe_delete_oldest_lem now c inv = elim (Bool-cases (ages c)) [
    | inl t ↦ rw t (delete_oldest_lem now c.lru c refl inv)
    | inr t ↦ rw t (inv, refl)
  ]

  length-entries : (l : List (Element K V)) → length (entries l) ≡ length l
  length-entries [] = refl
  length-entries ((i, e) ∷ rest) = ap suc (length-entries rest)

  pub entries-append : (l m : List (Element K V)) → entries (l ++ m) ≡ entries l ++ entries m
  entries-append [] m = refl
  entries-append ((i, e) ∷ rest) m = ap (λ x. e ∷ x) (entries-append rest m)

  delete_front_lem :
      (l : List (Element K V)) (c : LruCache K V)
      → c.lru ≡ l
      → IsCache c
      → IsCache (delete_front keys l c)
        × (view (delete_front keys l c) ≡ record (view c) { items = drop 1 (entries l) })
  unfolding delete_front delete_element find remove
  delete_front_lem [] c e inv = (inv, ap (λ x. record (view c) { items = entries x }) e)
  delete_front_lem ((i, d) ∷ rest) c e inv =
      let (a, agree) = inv in
      let ((lt, fresh, only), a') = subst (λ x. Apart keys c.next x) e a in
      let here : find i c.lru ≡ some d = ap (λ x. find i x) e ∙ ground arith in
      let gone : remove i c.lru ≡ rest =
        ap (λ x. remove i x) e ∙ ground (arith, remove_absent keys i rest fresh) in
      (delete_element-IsCache i d c inv here, ap (λ x. record (view c) { items = entries x }) gone)

  pub evict_lem :
      (c : LruCache K V)
      → IsCache c
      → IsCache (evict keys c)
        × (view (evict keys c) ≡ record (view c) { items = trim c.max_size (entries c.lru) })
  unfolding evict
  evict_lem c inv = elim (Bool-cases (ltb 0 c.max_size && ltb c.max_size (length c.lru))) [
    | inl t ↦ rw (t, length-entries c.lru) (rw t (delete_front_lem c.lru c refl inv))
    | inr t ↦ rw (t, length-entries c.lru) (rw t (inv, refl))
  ]

  -- An element moved to the back, with a new entry of the same key.
  pub move_to_back_lem :
      (i : ℕ) (k : K) (e : Entry K V) (change : Entry K V → Entry K V) (c : LruCache K V)
      → IsCache c
      → find i c.lru ≡ some e
      → e.key ≡ k
      → (change e).key ≡ k
      → entries (remove i c.lru) ≡ without keys k (entries c.lru)
      → IsCache (record c { lru = move_to_back i change c.lru })
        × (entries (move_to_back i change c.lru) ≡ without keys k (entries c.lru) ++ change e ∷ [])
  unfolding move_to_back
  move_to_back_lem i k e change c (a, agree) f own own' left =
      let moved : move_to_back i change c.lru ≡ remove i c.lru ++ (i, change e) ∷ [] =
        rw (f, move_to_back) refl in
      let gone : find i (remove i c.lru) ≡ none = find-remove keys i i c.lru ∙ ground arith in
      let keyless : (j : K)
          → id_of keys j (remove i c.lru) ≡ (if same k j then none else id_of keys j c.lru) =
        λ j.
          id_of-remove keys c.next i j c.lru e a f
          ∙ ap (λ x. if same x j then none else id_of keys j c.lru) own in
      let free : id_of keys (change e).key (remove i c.lru) ≡ none =
        ap (λ x. id_of keys x (remove i c.lru)) own' ∙ keyless k ∙ rw (same_refl keys k) refl in
      let at_key : id_of keys k c.lru ≡ some i =
        ap (λ x. id_of keys x c.lru) (sym own) ∙ find-key keys c.next i c.lru e a f in
      rw moved (
        (
          Apart-snoc keys c.next i (remove i c.lru) (change e) (Apart-remove keys c.next i c.lru a)
              (find_below keys c.next i c.lru e a f) gone free,
          λ j.
              agree j
              ∙ sym (elim (Bool-cases (same k j)) [
                | inl s ↦
                    let none_left : id_of keys j (remove i c.lru) ≡ none = keyless j ∙ rw s refl in
                    id_of-snoc keys i j (remove i c.lru) (change e) none_left
                    ∙ ap (λ x. if same x j then some i else none) own'
                    ∙ rw s (
                        sym (ap (λ x. id_of keys x c.lru) (sym ((keys.same_iff k j).0 s)) ∙ at_key))
                | inr s ↦
                    let left' : id_of keys j (remove i c.lru) ≡ id_of keys j c.lru =
                      keyless j ∙ rw s refl in
                    elim (Option-cases (id_of keys j c.lru)) [
                      | inl g ↦
                          id_of-snoc keys i j (remove i c.lru) (change e) (left' ∙ g)
                          ∙ ap (λ x. if same x j then some i else none) own'
                          ∙ rw s (sym g)
                      | inr (m, g) ↦
                          id_of-snoc_some keys i m j (remove i c.lru) (change e) (left' ∙ g) ∙ sym g
                    ]
              ]),
        ),
        entries-append (remove i c.lru) ((i, change e) ∷ []) ∙ ap (λ x. x ++ change e ∷ []) left,
      )
