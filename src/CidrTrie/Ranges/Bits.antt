-- ===== src/CidrTrie/Ranges/Bits.antt =====
-- The prefixes that stand for an IPv4 range begin exactly the addresses whose leading bits agree.
use go_warp_scanner.Scanner.Inc.{u8, IsBytes}
use go_warp_scanner.CidrTrie.Insert.{starts}
use go_warp_scanner.CidrTrie.Ranges.Prefixes.{any_starts}
use go_warp_scanner.CidrTrie.Ranges.{sub_loop}
use go_warp_scanner.Common.Arith.{div_parts, div_unique}
use go_warp_scanner.Common.{
  ℕ, zero, suc, ◌+◌, ◌-◌, ◌*◌, ◌/◌, ◌%◌, ◌^◌, ◌≤◌, ◌<◌, ◌≡◌, refl, ap, ◌∙◌, ◌≢◌, inl, inr, Bool,
  true, false, ◌&&◌, ◌||◌, List, [], ◌∷◌, map, arith, ltb, leb, ◌==◌, if◌then◌else◌, Bool-cases,
  length, set, get_or, take,
}

-- The first `bits` bits of two addresses agree.
abbrev pub bits_agree : ℕ → List ℕ → List ℕ → Bool
bits_agree bits [] q = bits == 0
bits_agree bits (x ∷ xs) [] = bits == 0
bits_agree bits (x ∷ xs) (y ∷ ys) =
    if leb 8 bits
    then (y == x) && bits_agree (bits - 8) xs ys
    else y / 2 ^ (8 - bits) == x / 2 ^ (8 - bits)

-- The bits of an address behind the first `bits` are 0.
abbrev pub IsMasked : ℕ → List ℕ → Type 0
IsMasked bits [] = Unit
IsMasked bits (x ∷ xs) = (x % 2 ^ (8 - bits) ≡ 0) × IsMasked (bits - 8) xs

-- Rounds of the loop of `subIpCidr` at the first byte give the addresses whose first byte lies in a
-- range, where the byte does not wrap.
any_first :
    (rounds i x y : ℕ) (xs ys : List ℕ)
    → x + i + rounds ≤ 256
    → any_starts (map (take 1) (sub_loop rounds i 0 (x ∷ xs))) (y ∷ ys)
      ≡ leb (x + i) y && ltb y (x + i + rounds)
unfolding sub_loop
any_first zero i x y xs ys h = ground arith
any_first (suc rounds) i x y xs ys h = ground (arith, any_first rounds (i + 1) x y xs ys)

-- A block of `size` values that starts at a multiple of `size`, by its quotient.
block_test :
    (size x y : ℕ)
    → 0 < size
    → x % size ≡ 0
    → (leb x y && ltb y (x + size)) ≡ (y / size == x / size)
block_test size x y p h = ground (arith, inside, outside)
  where
    start_of : x ≡ x / size * size
    start_of = grind arith

    inside : (x ≤ y) × (y < x + size) → y / size ≡ x / size
    inside b =
        div_unique y (x / size) size (omega (arith, start_of, b)) (omega (arith, start_of, b))

    outside : y / size ≡ x / size → (x ≤ y) × (y < x + size)
    outside e = omega (arith, start_of, div_parts y size p, ap (λ (t : ℕ). t * size) e)

any_starts-cons :
    (n x y : ℕ) (ys : List ℕ) (subs : List (List ℕ))
    → any_starts (map (take (suc n)) (map (λ sub. x ∷ sub) subs)) (y ∷ ys)
      ≡ (y == x) && any_starts (map (take n) subs) ys
any_starts-cons n x y ys [] = and-false (y == x)
  where
    and-false : (b : Bool) → false ≡ b && false
    and-false true = refl
    and-false false = refl
any_starts-cons n x y ys (sub ∷ subs) =
    ap (λ b. ((y == x) && starts (take n sub) ys) || b) (any_starts-cons n x y ys subs)
    ∙ distribute (y == x) (starts (take n sub) ys) (any_starts (map (take n) subs) ys)
  where
    distribute : (a b c : Bool) → (a && b) || (a && c) ≡ a && (b || c)
    distribute true b c = refl
    distribute false b c = refl

-- The loop at a later byte leaves the first alone.
sub_loop-cons :
    (rounds i index x : ℕ) (xs : List ℕ)
    → sub_loop rounds i (suc index) (x ∷ xs) ≡ map (λ sub. x ∷ sub) (sub_loop rounds i index xs)
unfolding sub_loop
sub_loop-cons zero i index x xs = refl
sub_loop-cons (suc rounds) i index x xs =
    ap (λ subs. (x ∷ set xs index (u8 (get_or xs index 0 + i))) ∷ subs)
      (sub_loop-cons rounds (i + 1) index x xs)

-- What `subIpCidr` counts for the bits in the last byte: the size of the block of that byte.
last_byte :
    (bits x : ℕ)
    → 0 < bits
    → bits < 8
    → x < 256
    → x % 2 ^ (8 - bits) ≡ 0
    → (255 / 2 ^ bits + 1 ≡ 2 ^ (8 - bits)) × (x + 2 ^ (8 - bits) ≤ 256) × (0 < 2 ^ (8 - bits))
last_byte zero x p l h m = absurd (omega arith)
last_byte (suc zero) x p l h m = omega arith
last_byte (suc (suc zero)) x p l h m = omega arith
last_byte (suc (suc (suc zero))) x p l h m = omega arith
last_byte (suc (suc (suc (suc zero)))) x p l h m = omega arith
last_byte (suc (suc (suc (suc (suc zero))))) x p l h m = omega arith
last_byte (suc (suc (suc (suc (suc (suc zero)))))) x p l h m = omega arith
last_byte (suc (suc (suc (suc (suc (suc (suc zero))))))) x p l h m = omega arith
last_byte (suc (suc (suc (suc (suc (suc (suc (suc b)))))))) x p l h m = absurd (omega arith)

-- The addresses of `subIpCidr` stand for the range.
pub subs_agree :
    (bits : ℕ) (ip q : List ℕ)
    → IsBytes ip
    → IsMasked bits ip
    → length q ≡ length ip
    → bits % 8 ≢ 0
    → bits ≤ 8 * length ip
    → any_starts
        (map (take (suc (bits / 8))) (sub_loop (255 / 2 ^ (bits % 8) + 1) 0 (bits / 8) ip))
        q
      ≡ bits_agree bits ip q
subs_agree bits [] q h m len r b = absurd (r (omega arith))
subs_agree bits (x ∷ xs) [] h m len r b = absurd (omega arith)
subs_agree bits (x ∷ xs) (y ∷ ys) h m len r b = elim (Bool-cases (leb 8 bits)) [
  | inl big ↦
      let d : bits / 8 ≡ suc ((bits - 8) / 8) = ground arith in
      let e : bits % 8 ≡ (bits - 8) % 8 = ground arith in
      rw (big, d, e)
        (rw (sub_loop-cons (255 / 2 ^ ((bits - 8) % 8) + 1) 0 ((bits - 8) / 8) x xs) (
          any_starts-cons (suc ((bits - 8) / 8)) x y ys
            (sub_loop (255 / 2 ^ ((bits - 8) % 8) + 1) 0 ((bits - 8) / 8) xs)
          ∙ ap (λ t. (y == x) && t)
              (subs_agree (bits - 8) xs ys h.1 m.1 (omega arith) (λ z. r (e ∙ z)) (omega arith))))
  | inr small ↦
      let d : bits / 8 ≡ 0 = ground arith in
      let e : bits % 8 ≡ bits = ground arith in
      let (rounds, room, pos) =
        last_byte bits x (omega (arith, λ (z : bits % 8 ≡ 0). r z)) (ground arith) h.0 m.0 in
      rw (small, d, e, rounds)
        (any_first (2 ^ (8 - bits)) 0 x y xs ys (omega (arith, room))
          ∙ (let z : x + 0 ≡ x = omega arith in rw z (block_test (2 ^ (8 - bits)) x y pos m.0)))
]

-- A range at a whole byte is one prefix.
pub take_agree :
    (n : ℕ) (ip q : List ℕ)
    → IsBytes ip
    → IsBytes q
    → length q ≡ length ip
    → n ≤ length ip
    → starts (take n ip) q ≡ bits_agree (8 * n) ip q
take_agree zero [] q hi hq len h = refl
take_agree (suc n) [] q hi hq len h = absurd (omega arith)
take_agree zero (x ∷ xs) [] hi hq len h = absurd (omega arith)
take_agree (suc n) (x ∷ xs) [] hi hq len h = absurd (omega arith)
take_agree zero (x ∷ xs) (y ∷ ys) hi hq len h = ground (arith, hi.0, hq.0)
take_agree (suc n) (x ∷ xs) (y ∷ ys) hi hq len h =
    let e : 8 * suc n - 8 ≡ 8 * n = omega arith in
    let big : leb 8 (8 * suc n) ≡ true = ground arith in
    rw (big, e, take_agree n xs ys hi.1 hq.1 (omega arith) (omega arith))
