-- ===== src/BasicRules/Suffix.antt =====
-- rules/common/ipsuffix.go: the rule on the last bits of an address.
use go_warp_scanner.Common.{
  ℕ, zero, suc, ◌-◌, ◌*◌, ◌/◌, ◌%◌, ◌^◌, ◌≤◌, ◌<◌, ◌≡◌, refl, sym, ap, ◌∙◌, ◌↔◌, inl, inr, Bool,
  true, false, not, Option, none, some, List, [], ◌∷◌, arith, leb, ◌==◌, if◌then◌else◌, ==_iff,
  Bool-cases, length, get_or, drop,
}

-- `IPSuffix` as its match reads it: the bytes of the address and the number of bits from the end.
pub record IpSuffix : Type 0 where
  pub ip_bytes : List ℕ
  pub bits : ℕ

-- The loop of `Match` over the whole bytes, from `i` bytes before the end to the last.
suffix_loop : ℕ → List ℕ → List ℕ → Bool
suffix_loop zero a b = true
suffix_loop (suc i) a b =
    let rest = suffix_loop i a b in
    if get_or a (length a - suc i) 0 == get_or b (length a - suc i) 0 then rest else false

-- The byte `x << (8 - bits%8)`.
abbrev shifted : ℕ → ℕ → ℕ
shifted r x = (x * 2 ^ (8 - r)) % 256

-- The test of the byte before; `none` is the panic for an index below the first.
last_byte : ℕ → List ℕ → List ℕ → Option Bool
last_byte bits a b =
    if leb (length a) (bits / 8)
    then none
    else some (
        shifted (bits % 8) (get_or a (length a - bits / 8 - 1) 0)
        == shifted (bits % 8) (get_or b (length a - bits / 8 - 1) 0))

-- `Match` on the bytes of the address of a connection.
unfoldable pub match_ip_suffix : IpSuffix → List ℕ → Option Bool
unfolding suffix_loop last_byte
match_ip_suffix r b =
    if not (length r.ip_bytes == length b)
    then some false
    else if suffix_loop (r.bits / 8) r.ip_bytes b
    then last_byte r.bits r.ip_bytes b
    else some false

suffix_loop_self : (i : ℕ) (a : List ℕ) → suffix_loop i a a ≡ true
unfolding suffix_loop
suffix_loop_self zero a = refl
suffix_loop_self (suc i) a =
    let t : (get_or a (length a - suc i) 0 == get_or a (length a - suc i) 0) ≡ true =
      ground arith in
    rw t (suffix_loop_self i a)

-- A rule for all bits of an address panics on that address, and a rule for fewer bits matches its own address.
pub match_ip_suffix_self :
    (a : List ℕ) (bits : ℕ)
    → bits ≤ 8 * length a
    → match_ip_suffix (record { ip_bytes = a; bits = bits }) a
      ≡ (if bits == 8 * length a then none else some true)
unfolding match_ip_suffix last_byte
match_ip_suffix_self a bits le =
    let t : (length a == length a) ≡ true = ground arith in
    let k = shifted (bits % 8) (get_or a (length a - bits / 8 - 1) 0) in
    let u : (k == k) ≡ true = (==_iff k k).1 refl in
    rw (t, suffix_loop_self (bits / 8) a)
      (elim (Bool-cases (bits == 8 * length a)) [
        | inl e ↦ let whole : leb (length a) (bits / 8) ≡ true = ground arith in rw (e, whole) refl
        | inr e ↦
            let part : leb (length a) (bits / 8) ≡ false = ground arith in rw (e, part) (rw u refl)
      ])

drop-get_or : (i : ℕ) (a : List ℕ) → i < length a → drop i a ≡ get_or a i 0 ∷ drop (suc i) a
drop-get_or i [] lt = absurd (omega arith)
drop-get_or zero (x ∷ a) lt = refl
drop-get_or (suc i) (x ∷ a) lt = drop-get_or i a (omega arith)

cons_inj : {x y : ℕ} {a b : List ℕ} → x ∷ a ≡ y ∷ b → (x ≡ y) × (a ≡ b)
cons_inj e = (cc, cc)

drop_all : (a : List ℕ) → drop (length a) a ≡ []
drop_all [] = refl
drop_all (x ∷ a) = drop_all a

-- The loop compares the last bytes.
suffix_loop-drop :
    (n l : ℕ) (a b : List ℕ)
    → length a ≡ l
    → length b ≡ l
    → n ≤ l
    → (suffix_loop n a b ≡ true) ↔ (drop (l - n) a ≡ drop (l - n) b)
unfolding suffix_loop
suffix_loop-drop zero l a b la lb le =
    let none_left : (c : List ℕ) → length c ≡ l → drop (l - 0) c ≡ [] =
      λ c e. let k : l - 0 ≡ length c = omega arith in rw k (drop_all c) in
    (λ t. none_left a la ∙ sym (none_left b lb), λ t. refl)
suffix_loop-drop (suc n) l a b la lb le =
    let i : ℕ = l - suc n in
    let next : suc i ≡ l - n = omega arith in
    let ih = suffix_loop-drop n l a b la lb (omega arith) in
    let da = drop-get_or i a (omega arith) in
    let db = drop-get_or i b (omega arith) in
    rw la (elim (Bool-cases (get_or a i 0 == get_or b i 0)) [
      | inl t ↦
          let x : get_or a i 0 ≡ get_or b i 0 = ground arith in
          rw t (
            λ s.
                da
                ∙ ap (λ k. get_or a i 0 ∷ drop k a) next
                ∙ ap (λ c. get_or a i 0 ∷ c) (ih.0 s)
                ∙ ap (λ y. y ∷ drop (l - n) b) x
                ∙ sym (ap (λ k. get_or b i 0 ∷ drop k b) next)
                ∙ sym db,
            λ e. ih.1 (
                ap (λ k. drop k a) (sym next)
                ∙ (cons_inj (sym da ∙ e ∙ db)).1
                ∙ ap (λ k. drop k b) next),
          )
      | inr t ↦ rw t (
        λ s. absurd (cc),
        λ e.
            let x = (cons_inj (sym da ∙ e ∙ db)).0 in
            let t' : (get_or a i 0 == get_or b i 0) ≡ true =
              (==_iff (get_or a i 0) (get_or b i 0)).1 x in
            absurd (cc),
      )
    ])

-- A shift of a byte keeps its last bits.
shifted_iff : (r x y : ℕ) → r < 8 → (shifted r x ≡ shifted r y) ↔ (x % 2 ^ r ≡ y % 2 ^ r)
shifted_iff zero x y lt = (λ e. omega arith, λ e. omega arith)
shifted_iff (suc zero) x y lt = (λ e. omega arith, λ e. omega arith)
shifted_iff (suc (suc zero)) x y lt = (λ e. omega arith, λ e. omega arith)
shifted_iff (suc (suc (suc zero))) x y lt = (λ e. omega arith, λ e. omega arith)
shifted_iff (suc (suc (suc (suc zero)))) x y lt = (λ e. omega arith, λ e. omega arith)
shifted_iff (suc (suc (suc (suc (suc zero))))) x y lt = (λ e. omega arith, λ e. omega arith)
shifted_iff (suc (suc (suc (suc (suc (suc zero)))))) x y lt = (λ e. omega arith, λ e. omega arith)
shifted_iff (suc (suc (suc (suc (suc (suc (suc zero))))))) x y lt =
    (λ e. omega arith, λ e. omega arith)
shifted_iff (suc (suc (suc (suc (suc (suc (suc (suc r)))))))) x y lt = absurd (omega arith)

-- For an address of as many bytes and a number of bits below all of them, the rule matches exactly the addresses with
-- the same whole bytes at the end and, in the byte before those, the same last bits.
pub match_ip_suffix-drop :
    (a b : List ℕ) (bits : ℕ)
    → length b ≡ length a
    → bits < 8 * length a
    → (match_ip_suffix (record { ip_bytes = a; bits = bits }) b ≡ some true) ↔ (
        (drop (length a - bits / 8) a ≡ drop (length a - bits / 8) b)
        × (get_or a (length a - bits / 8 - 1) 0 % 2 ^ (bits % 8)
            ≡ get_or b (length a - bits / 8 - 1) 0 % 2 ^ (bits % 8)))
unfolding match_ip_suffix last_byte
match_ip_suffix-drop a b bits same lt =
    let n = bits / 8 in
    let x = get_or a (length a - n - 1) 0 in
    let y = get_or b (length a - n - 1) 0 in
    let t : (length a == length b) ≡ true = ground arith in
    let part : leb (length a) n ≡ false = ground arith in
    let loop = suffix_loop-drop n (length a) a b refl same (omega arith) in
    let low = shifted_iff (bits % 8) x y (omega arith) in
    rw t (elim (Bool-cases (suffix_loop n a b)) [
      | inl u ↦
          rw (u, part)
            (
              λ e. (
                loop.0 u,
                low.0 ((==_iff (shifted (bits % 8) x) (shifted (bits % 8) y)).0 (some_inj e)),
              ),
              λ e. ap some ((==_iff (shifted (bits % 8) x) (shifted (bits % 8) y)).1 (low.1 e.1)),
            )
      | inr u ↦ rw u (
        λ e. absurd (let f : false ≡ true = some_inj e in cc),
        λ e. absurd (let g = loop.1 e.0 in cc),
      )
    ])
  where
    some_inj : {p q : Bool} → some p ≡ some q → p ≡ q
    some_inj e = cc
