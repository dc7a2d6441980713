-- ===== src/LruCache/Elements.antt =====
-- The list of a cache and its map: what each change of one means for the other.
use go_warp_scanner.Common.Keys.{KeyEq}
use go_warp_scanner.LruCache.{Entry, Element, find, remove}
use go_warp_scanner.Common.{
  ℕ, ◌≤◌, ◌<◌, ◌≡◌, refl, sym, ap, ◌∙◌, inl, inr, true, false, Option, none, some, List, [], ◌∷◌,
  ◌++◌, arith, ◌==◌, if◌then◌else◌, Bool-cases,
}

module _ {ℓ} {K : Type ℓ} (keys : KeyEq K) where
  open keys use {same}

  pub same_refl : (k : K) → same k k ≡ true
  same_refl k = (keys.same_iff k k).1 refl

  pub same_sym : (a b : K) → same a b ≡ same b a
  same_sym a b = elim (Bool-cases (same a b)) [
    | inl t ↦ rw ((keys.same_iff a b).0 t) refl
    | inr f ↦ elim (Bool-cases (same b a)) [
      | inl t ↦
          let e : same a b ≡ true = (keys.same_iff a b).1 (sym ((keys.same_iff b a).0 t)) in
          absurd (cc)
      | inr g ↦ f ∙ sym g
    ]
  ]

  -- Equal keys compare alike.
  pub same_left : (a b c : K) → same a b ≡ true → same a c ≡ same b c
  same_left a b c t = ap (λ x. same x c) ((keys.same_iff a b).0 t)

module _ {ℓ} {K V : Type ℓ} (keys : KeyEq K) where
  open keys use {same}

  -- The identity of the first element with a key.
  unfoldable pub id_of : K → List (Element K V) → Option ℕ
  id_of k [] = none
  id_of k ((i, e) ∷ rest) = if same e.key k then some i else id_of k rest

  -- No two elements have the same identity, or the same key, and the identities are below `n`.
  abbrev pub Apart : ℕ → List (Element K V) → Type ℓ
  Apart n [] = Unit
  Apart n ((i, e) ∷ rest) =
      ((i < n) × (find i rest ≡ none) × (id_of e.key rest ≡ none)) × Apart n rest

  pub find-remove :
      (i j : ℕ) (l : List (Element K V)) → find j (remove i l) ≡ (if i == j then none else find j l)
  unfolding find remove
  find-remove i j [] = ground arith
  find-remove i j ((m, e) ∷ rest) = ground (arith, find-remove i j rest)

  id_of_same : (a b : K) (l : List (Element K V)) → same a b ≡ true → id_of a l ≡ id_of b l
  id_of_same a b l t = ap (λ x. id_of x l) ((keys.same_iff a b).0 t)

  pub remove_absent : (i : ℕ) (l : List (Element K V)) → find i l ≡ none → remove i l ≡ l
  unfolding find remove
  remove_absent i [] f = refl
  remove_absent i ((j, d) ∷ rest) f = ground (arith, remove_absent i rest)

  pub find-key :
      (n i : ℕ) (l : List (Element K V)) (e : Entry K V)
      → Apart n l
      → find i l ≡ some e
      → id_of e.key l ≡ some i
  unfolding find id_of
  find-key n i [] e a f = absurd (cc)
  find-key n i ((j, d) ∷ rest) e ((lt, fresh, only), a) f = elim (Bool-cases (i == j)) [
    | inl t ↦
        let f' : some d ≡ some e = rw t at f in
        let k : d ≡ e = cc in
        let s : same d.key e.key ≡ true = (keys.same_iff d.key e.key).1 (ap (λ x. x.key) k) in
        rw s (ground arith)
    | inr t ↦
        let ih = find-key n i rest e a (rw t at f) in
        elim (Bool-cases (same d.key e.key)) [
          | inl s ↦ let g = id_of_same d.key e.key rest s in absurd (cc)
          | inr s ↦ rw s ih
        ]
  ]

  pub id_of-remove :
      (n i : ℕ) (k : K) (l : List (Element K V)) (e : Entry K V)
      → Apart n l
      → find i l ≡ some e
      → id_of k (remove i l) ≡ (if same e.key k then none else id_of k l)
  unfolding find remove id_of
  id_of-remove n i k [] e a f = absurd (cc)
  id_of-remove n i k ((j, d) ∷ rest) e ((lt, fresh, only), a) f = elim (Bool-cases (i == j)) [
    | inl t ↦
        let here : i ≡ j = ground arith in
        let f' : some d ≡ some e = rw t at f in
        let g : d ≡ e = cc in
        let gone : remove i rest ≡ rest =
          remove_absent i rest (ap (λ x. find x rest) here ∙ fresh) in
        let none_left : same d.key k ≡ true → id_of k rest ≡ none =
          λ s. sym (id_of_same d.key k rest s) ∙ only in
        rw (t, gone) (rw (← g) (ground (arith, none_left)))
    | inr t ↦
        let f' : find i rest ≡ some e = rw t at f in
        let ih = id_of-remove n i k rest e a f' in
        let own = find-key n i rest e a f' in
        elim (Bool-cases (same d.key k)) [
          | inl s ↦ elim (Bool-cases (same e.key k)) [
            | inl s' ↦
                let g = id_of_same d.key k rest s in
                let g' = id_of_same e.key k rest s' in absurd (cc)
            | inr s' ↦ rw (t, id_of) (rw (s, s') refl)
          ]
          | inr s ↦ rw (t, id_of) (rw s ih)
        ]
  ]

  -- An element of a key is found, and has the key.
  pub find-id_of :
      (n i : ℕ) (k : K) (l : List (Element K V))
      → Apart n l
      → id_of k l ≡ some i
      → (e : Entry K V) × (find i l ≡ some e) × (same e.key k ≡ true)
  unfolding find id_of
  find-id_of n i k [] a f = absurd (cc)
  find-id_of n i k ((j, d) ∷ rest) ((lt, fresh, only), a) f = elim (Bool-cases (same d.key k)) [
    | inl t ↦ let f' : some j ≡ some i = rw t at f in let e : j ≡ i = cc in (d, ground arith, t)
    | inr t ↦
        let (e, g, s) = find-id_of n i k rest a (rw t at f) in
        elim (Bool-cases (i == j)) [
          | inl u ↦
              let here : i ≡ j = ground arith in let g' = ap (λ x. find x rest) here in absurd (cc)
          | inr u ↦ (e, rw u g, s)
        ]
  ]

  id_of-remove_absent :
      (i : ℕ) (k : K) (l : List (Element K V)) → id_of k l ≡ none → id_of k (remove i l) ≡ none
  unfolding remove id_of
  id_of-remove_absent i k [] f = refl
  id_of-remove_absent i k ((j, d) ∷ rest) f = elim (Bool-cases (same d.key k)) [
    | inl s ↦ let f' : some j ≡ none = rw s at f in absurd (cc)
    | inr s ↦
        let ih = id_of-remove_absent i k rest (rw s at f) in
        elim (Bool-cases (i == j)) [ inl t ↦ rw (t, id_of) ih | inr t ↦ rw (t, id_of) (rw s ih) ]
  ]

  pub Apart-remove : (n i : ℕ) (l : List (Element K V)) → Apart n l → Apart n (remove i l)
  unfolding remove
  Apart-remove n i [] a = tt
  Apart-remove n i ((j, d) ∷ rest) ((lt, fresh, only), a) =
      let ih = Apart-remove n i rest a in
      let fresh' : find j (remove i rest) ≡ none = find-remove i j rest ∙ rw fresh (ground arith) in
      elim (Bool-cases (i == j)) [
        | inl t ↦ rw (t, Apart) ih
        | inr t ↦ rw (t, Apart) ((lt, fresh', id_of-remove_absent i d.key rest only), ih)
      ]

  pub find-snoc :
      (i j : ℕ) (l : List (Element K V)) (e : Entry K V)
      → find j l ≡ none
      → find j (l ++ (i, e) ∷ []) ≡ (if j == i then some e else none)
  unfolding find
  find-snoc i j [] e f = refl
  find-snoc i j ((m, d) ∷ rest) e f = ground (arith, find-snoc i j rest e)

  pub id_of-snoc :
      (i : ℕ) (k : K) (l : List (Element K V)) (e : Entry K V)
      → id_of k l ≡ none
      → id_of k (l ++ (i, e) ∷ []) ≡ (if same e.key k then some i else none)
  unfolding id_of
  id_of-snoc i k [] e f = refl
  id_of-snoc i k ((m, d) ∷ rest) e f = ground (arith, id_of-snoc i k rest e)

  pub id_of-snoc_some :
      (i j : ℕ) (k : K) (l : List (Element K V)) (e : Entry K V)
      → id_of k l ≡ some j
      → id_of k (l ++ (i, e) ∷ []) ≡ some j
  unfolding id_of
  id_of-snoc_some i j k [] e f = absurd (cc)
  id_of-snoc_some i j k ((m, d) ∷ rest) e f = ground (arith, id_of-snoc_some i j k rest e)

  pub Apart-snoc :
      (n i : ℕ) (l : List (Element K V)) (e : Entry K V)
      → Apart n l
      → i < n
      → find i l ≡ none
      → id_of e.key l ≡ none
      → Apart n (l ++ (i, e) ∷ [])
  unfolding find id_of
  Apart-snoc n i [] e a lt f g = ((lt, refl, refl), tt)
  Apart-snoc n i ((j, d) ∷ rest) e ((lt', fresh, only), a) lt f g =
      let f' : find i rest ≡ none = ground arith in
      let ne : (j == i) ≡ false = ground arith in
      let s : same d.key e.key ≡ false = ground arith in
      let g' : id_of e.key rest ≡ none = rw s at g in
      let s' = same_sym keys e.key d.key ∙ s in
      (
        (lt', find-snoc i j rest e fresh ∙ rw ne refl, id_of-snoc i d.key rest e only ∙ rw s' refl),
        Apart-snoc n i rest e a lt f' g',
      )

  pub Apart-le : (n m : ℕ) (l : List (Element K V)) → n ≤ m → Apart n l → Apart m l
  Apart-le n m [] le a = tt
  Apart-le n m ((j, d) ∷ rest) le ((lt, fresh, only), a) =
      ((omega arith, fresh, only), Apart-le n m rest le a)

  pub find_fresh : (n : ℕ) (l : List (Element K V)) → Apart n l → find n l ≡ none
  unfolding find
  find_fresh n [] a = refl
  find_fresh n ((j, d) ∷ rest) ((lt, fresh, only), a) = ground (arith, find_fresh n rest a)

  pub find_below :
      (n i : ℕ) (l : List (Element K V)) (e : Entry K V) → Apart n l → find i l ≡ some e → i < n
  unfolding find
  find_below n i [] e a f = absurd (cc)
  find_below n i ((j, d) ∷ rest) e ((lt, fresh, only), a) f = elim (Bool-cases (i == j)) [
    | inl t ↦ let here : i ≡ j = ground arith in omega arith
    | inr t ↦ find_below n i rest e a (rw t at f)
  ]
