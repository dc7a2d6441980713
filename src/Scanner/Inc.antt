-- ===== src/Scanner/Inc.antt =====
-- wg-ping.go, `inc`: the next address, in place, on the bytes of a `net.IP`.
use native.Mathlib.Nat.{pow-suc}
use go_warp_scanner.Common.{
  ℕ, zero, suc, ◌+◌, ◌*◌, ◌%◌, ◌^◌, ◌≤◌, ◌<◌, ◌≡◌, refl, ap, ◌∙◌, subst, inl, inr, false, List, [],
  ◌∷◌, ◌++◌, append-nil, append_assoc, arith, ltb, ◌==◌, if◌then◌else◌, Bool-cases, length, set,
  get_or, length-append, length-set,
}

-- A `byte` wraps at 256.
abbrev pub u8 : ℕ → ℕ
u8 n = n % 256

-- The loop of `inc` with `j + 1` bytes left to visit: it stops at the first byte that does not wrap.
inc_from : ℕ → List ℕ → List ℕ
inc_from zero ip = ip
inc_from (suc j) ip =
    let b = u8 (get_or ip j 0 + 1) in
    let next = set ip j b in let rest = inc_from j next in if ltb 0 b then next else rest

unfoldable pub inc : List ℕ → List ℕ
unfolding inc_from
inc ip = inc_from (length ip) ip

-- The number that the bytes of an address stand for, most significant byte first.
value_from : ℕ → List ℕ → ℕ
value_from acc [] = acc
value_from acc (x ∷ xs) = value_from (acc * 256 + x) xs

unfoldable pub value : List ℕ → ℕ
unfolding value_from
value ip = value_from 0 ip

-- Every byte is below 256.
abbrev pub IsBytes : List ℕ → Type 0
IsBytes [] = Unit
IsBytes (x ∷ xs) = (x < 256) × IsBytes xs

module _ {ℓ} {A : Type ℓ} where
  get_or-append :
      (xs ys : List A) (j : ℕ) (d : A) → j < length xs → get_or (xs ++ ys) j d ≡ get_or xs j d
  get_or-append [] ys j d h = elim h [ ]
  get_or-append (x ∷ xs) ys zero d h = refl
  get_or-append (x ∷ xs) ys (suc j) d h = get_or-append xs ys j d (omega arith)

  set-append :
      (xs ys : List A) (j : ℕ) (v : A) → j < length xs → set (xs ++ ys) j v ≡ set xs j v ++ ys
  set-append [] ys j v h = elim h [ ]
  set-append (x ∷ xs) ys zero v h = refl
  set-append (x ∷ xs) ys (suc j) v h = ap (λ t. x ∷ t) (set-append xs ys j v (omega arith))

  get_or-snoc : (xs : List A) (b d : A) → get_or (xs ++ b ∷ []) (length xs) d ≡ b
  get_or-snoc [] b d = refl
  get_or-snoc (x ∷ xs) b d = get_or-snoc xs b d

  set-snoc : (xs : List A) (b v : A) → set (xs ++ b ∷ []) (length xs) v ≡ xs ++ v ∷ []
  set-snoc [] b v = refl
  set-snoc (x ∷ xs) b v = ap (λ t. x ∷ t) (set-snoc xs b v)

  -- Induction from the last element.
  snoc_induction_from {κ} :
      (P : List A → Type κ)
      → ((xs : List A) (b : A) → P xs → P (xs ++ b ∷ []))
      → (pre xs : List A) → P pre
      → P (pre ++ xs)
  snoc_induction_from P step pre [] p = rw append-nil p
  snoc_induction_from P step pre (x ∷ xs) p =
      subst P (append_assoc pre (x ∷ []) xs)
        (snoc_induction_from P step (pre ++ x ∷ []) xs (step pre x p))

  pub snoc_induction {κ} :
      (P : List A → Type κ)
      → P []
      → ((xs : List A) (b : A) → P xs → P (xs ++ b ∷ []))
      → (xs : List A) → P xs
  snoc_induction P base step xs = snoc_induction_from P step [] xs base

-- The loop over the first bytes leaves the rest alone.
inc_from-append :
    (j : ℕ) (xs ys : List ℕ) → j ≤ length xs → inc_from j (xs ++ ys) ≡ inc_from j xs ++ ys
unfolding inc_from
inc_from-append zero xs ys h = refl
inc_from-append (suc j) xs ys h =
    rw (get_or-append xs ys j 0 h, set-append xs ys j (u8 (get_or xs j 0 + 1)) h)
      (elim (Bool-cases (ltb 0 (u8 (get_or xs j 0 + 1)))) [
        | inl e ↦ rw e
        | inr e ↦ rw e (
            inc_from-append j (set xs j (u8 (get_or xs j 0 + 1))) ys
              (omega (arith, length-set {0} xs j (u8 (get_or xs j 0 + 1)))))
      ])

pub length-snoc : (xs : List ℕ) (b : ℕ) → length (xs ++ b ∷ []) ≡ suc (length xs)
length-snoc xs b = omega (arith, length-append {0} xs (b ∷ []))

u8_zero : (b : ℕ) → ltb 0 (u8 (b + 1)) ≡ false → u8 (b + 1) ≡ 0
u8_zero b e = ground arith

inc-snoc :
    (xs : List ℕ) (b : ℕ)
    → inc (xs ++ b ∷ []) ≡ (if ltb 0 (u8 (b + 1)) then xs ++ u8 (b + 1) ∷ [] else inc xs ++ 0 ∷ [])
unfolding inc
inc-snoc xs b = rw (length-snoc xs b) (
    rw (get_or-snoc xs b 0, set-snoc xs b (u8 (b + 1)))
      (elim (Bool-cases (ltb 0 (u8 (b + 1)))) [
        | inl e ↦ rw e
        | inr e ↦ rw e (rw (u8_zero b e) (inc_from-append (length xs) xs (0 ∷ []) (omega arith)))
      ]))

value_from-snoc :
    (acc : ℕ) (xs : List ℕ) (b : ℕ) → value_from acc (xs ++ b ∷ []) ≡ value_from acc xs * 256 + b
unfolding value_from
value_from-snoc acc [] b = refl
value_from-snoc acc (x ∷ xs) b = value_from-snoc (acc * 256 + x) xs b

pub value-snoc : (xs : List ℕ) (b : ℕ) → value (xs ++ b ∷ []) ≡ value xs * 256 + b
unfolding value
value-snoc xs b = value_from-snoc 0 xs b

pub IsBytes-append : (xs ys : List ℕ) → IsBytes (xs ++ ys) → IsBytes xs × IsBytes ys
IsBytes-append [] ys h = (tt, h)
IsBytes-append (x ∷ xs) ys h = let (l, r) = IsBytes-append xs ys h.1 in ((h.0, l), r)

-- How many addresses of `n` bytes there are.
abbrev pub space : ℕ → ℕ
space n = 256 ^ n

length-inc_from : (j : ℕ) (ip : List ℕ) → length (inc_from j ip) ≡ length ip
unfolding inc_from
length-inc_from zero ip = refl
length-inc_from (suc j) ip = elim (Bool-cases (ltb 0 (u8 (get_or ip j 0 + 1)))) [
  | inl e ↦ rw e (length-set ip j (u8 (get_or ip j 0 + 1)))
  | inr e ↦ rw e (
      length-inc_from j (set ip j (u8 (get_or ip j 0 + 1)))
      ∙ length-set ip j (u8 (get_or ip j 0 + 1)))
]

pub length-inc : (ip : List ℕ) → length (inc ip) ≡ length ip
unfolding inc
length-inc ip = length-inc_from (length ip) ip

pub IsBytes-snoc : (xs : List ℕ) (b : ℕ) → IsBytes xs → b < 256 → IsBytes (xs ++ b ∷ [])
IsBytes-snoc [] b h l = (l, tt)
IsBytes-snoc (x ∷ xs) b h l = (h.0, IsBytes-snoc xs b h.1 l)

value-lt_step :
    (xs : List ℕ) (b : ℕ)
    → (IsBytes xs → value xs < space (length xs))
    → IsBytes (xs ++ b ∷ [])
    → value (xs ++ b ∷ []) < space (length (xs ++ b ∷ []))
value-lt_step xs b ih h =
    let (l, r) = IsBytes-append xs (b ∷ []) h in
    rw (length-snoc xs b, value-snoc xs b, pow-suc) (omega (arith, ih l, r.0))

pub value-lt : (ip : List ℕ) → IsBytes ip → value ip < space (length ip)
unfolding value
value-lt =
    snoc_induction (λ xs. IsBytes xs → value xs < space (length xs)) (λ h. omega arith)
      value-lt_step

-- The address that follows `ip`, as a number.
abbrev next_value : List ℕ → ℕ
next_value ip = if value ip + 1 == space (length ip) then 0 else value ip + 1

value-inc_step :
    (xs : List ℕ) (b : ℕ)
    → (IsBytes xs → (value (inc xs) ≡ next_value xs) × IsBytes (inc xs))
    → IsBytes (xs ++ b ∷ [])
    → (value (inc (xs ++ b ∷ [])) ≡ next_value (xs ++ b ∷ [])) × IsBytes (inc (xs ++ b ∷ []))
value-inc_step xs b ih h =
    let (l, r) = IsBytes-append xs (b ∷ []) h in
    let (v, w) = ih l in
    rw (length-snoc xs b, value-snoc xs b, pow-suc, inc-snoc xs b)
      (elim (Bool-cases (ltb 0 (u8 (b + 1)))) [
        | inl e ↦ rw e (
            rw (value-snoc xs (u8 (b + 1)))
              (ground (arith, value-lt xs l), IsBytes-snoc xs (u8 (b + 1)) l (omega arith)))
        | inr e ↦ rw e (
            rw (value-snoc (inc xs) 0)
              (ground (arith, value-lt xs l), IsBytes-snoc (inc xs) 0 w (omega arith)))
      ])

-- `inc` adds one to the address, modulo the number of addresses of its length.
pub value-inc :
    (ip : List ℕ)
    → IsBytes ip
    → (value (inc ip) ≡ (if value ip + 1 == space (length ip) then 0 else value ip + 1))
      × IsBytes (inc ip)
unfolding value inc
value-inc =
    snoc_induction (λ xs. IsBytes xs → (value (inc xs) ≡ next_value xs) × IsBytes (inc xs))
      (λ h. (refl, tt)) value-inc_step

pub value-nil : value [] ≡ 0
unfolding value
value-nil = refl
