-- ===== src/Adapter/Queue.antt =====
-- common/queue/queue.go: a queue, for calls one after another; `Pop` and `Last` test the length before
-- they take the lock, so that their races are not described here.
use go_warp_scanner.Common.{
  ℕ, zero, suc, ◌-◌, ◌≤◌, ◌≡◌, refl, sym, subst, List, [], ◌∷◌, ◌++◌, append-nil, arith, length,
  get_or, take, drop, length-append,
}

pub record Queue {ℓ} (A : Type ℓ) : Type ℓ where
  pub items : List A

-- `New` and the methods. `zero_value` is `GetZero`.
module _ {ℓ} {A : Type ℓ} where
  abbrev pub new : Queue A
  new = record { items = [] }

  unfoldable pub put : List A → Queue A → Queue A
  put [] q = q
  put (x ∷ xs) q = record { items = q.items ++ (x ∷ xs) }

  pop_items : A → List A → Queue A × A
  pop_items zero_value [] = (record { items = [] }, zero_value)
  pop_items zero_value (head ∷ rest) = (record { items = rest }, head)

  unfoldable pub pop : A → Queue A → Queue A × A
  unfolding pop_items
  pop zero_value q = pop_items zero_value q.items

  -- `items[len - 1]`.
  unfoldable pub last : A → Queue A → A
  last zero_value q = get_or q.items (length q.items - 1) zero_value

  unfoldable pub copy : Queue A → List A
  copy q = [] ++ q.items

  unfoldable pub len : Queue A → ℕ
  len q = length q.items

  pub items-put : (xs : List A) (q : Queue A) → (put xs q).items ≡ q.items ++ xs
  unfolding put
  items-put [] q = rw append-nil
  items-put (x ∷ xs) q = refl

  -- `n` calls of `Pop`, with what they return.
  pub pops : ℕ → A → Queue A → Queue A × List A
  pops zero zero_value q = (q, [])
  pops (suc n) zero_value q =
      let (q', head) = pop zero_value q in
      let (q'', rest) = pops n zero_value q' in (q'', head ∷ rest)

  pops-take :
      (n : ℕ) (zero_value : A) (xs : List A)
      → n ≤ length xs
      → pops n zero_value (record { items = xs }) ≡ (record { items = drop n xs }, take n xs)
  unfolding pops pop
  pops-take zero zero_value xs h = refl
  pops-take (suc n) zero_value [] h = absurd (omega arith)
  pops-take (suc n) zero_value (x ∷ xs) h = rw (pops-take n zero_value xs (omega arith))

  -- First in, first out: after a put, `n` calls of `Pop`, where there are as many items, return the
  -- first `n` of the items of the queue followed by those put, and leave the others.
  pub pops-put :
      (n : ℕ) (zero_value : A) (xs : List A) (q : Queue A)
      → n ≤ length (q.items ++ xs)
      → pops n zero_value (put xs q)
        ≡ (record { items = drop n (q.items ++ xs) }, take n (q.items ++ xs))
  pops-put n zero_value xs q h =
      subst
        (λ l.
          pops n zero_value (record { items = l })
          ≡ (record { items = drop n (q.items ++ xs) }, take n (q.items ++ xs)))
        (sym (items-put xs q)) (pops-take n zero_value (q.items ++ xs) h)

  get_or-last :
      (zero_value : A) (xs : List A) (x : A) → get_or (xs ++ x ∷ []) (length xs) zero_value ≡ x
  get_or-last zero_value [] x = refl
  get_or-last zero_value (y ∷ xs) x = get_or-last zero_value xs x

  pub last-put : (zero_value : A) (q : Queue A) (x : A) → last zero_value (put (x ∷ []) q) ≡ x
  unfolding last put
  last-put zero_value q x =
      let e : length (q.items ++ x ∷ []) - 1 ≡ length q.items =
        omega (arith, length-append q.items (x ∷ [])) in
      rw e (get_or-last zero_value q.items x)

  pub items-pop : (zero_value : A) (q : Queue A) → (pop zero_value q).0.items ≡ drop 1 q.items
  unfolding pop
  items-pop zero_value q = by_items q.items
    where
      by_items : (xs : List A) → (pop_items zero_value xs).0.items ≡ drop 1 xs
      by_items [] = refl
      by_items (x ∷ xs) = refl

  pub last-eq :
      (zero_value : A) (q : Queue A) (xs : List A) (x : A)
      → q.items ≡ xs ++ x ∷ []
      → last zero_value q ≡ x
  unfolding last
  last-eq zero_value q xs x e =
      let n : length (xs ++ x ∷ []) - 1 ≡ length xs = omega (arith, length-append xs (x ∷ [])) in
      rw (e, n) (get_or-last zero_value xs x)
