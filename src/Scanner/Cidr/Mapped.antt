-- ===== src/Scanner/Cidr/Mapped.antt =====
-- Which numbers the addresses have that `IP.To4` takes for IPv4: those from ::ffff:0:0 to ::ffff:ffff:ffff.
use go_warp_scanner.Scanner.Inc.{
  value, IsBytes, space, value-nil, value-snoc, value-lt, snoc_induction, IsBytes-append,
  length-snoc,
}
use go_warp_scanner.Scanner.Ip.{all_equal, is_mapped, to4}
use go_warp_scanner.Scanner.Cidr.{of_value, of_value-value}
use native.Mathlib.Nat.{pow-suc}
use go_warp_scanner.Common.{
  ℕ, ◌+◌, ◌*◌, ◌/◌, ◌^◌, ◌<◌, ◌≡◌, ◌≢◌, refl, sym, ap, ◌∙◌, subst, ◌⊎◌, inl, inr, true, false, none,
  some, List, [], ◌∷◌, ◌++◌, append-nil, append_assoc, arith, Bool-cases, length, take, drop,
  replicate, take-append-drop, length-take, length-drop,
}

-- ::ffff:0:0 as a number.
abbrev pub first_mapped : ℕ
first_mapped = 0xffff00000000

abbrev prefix : List ℕ
prefix = replicate 10 0 ++ 255 ∷ 255 ∷ []

value-append_step :
    (xs ys : List ℕ) (b : ℕ)
    → value (xs ++ ys) ≡ value xs * space (length ys) + value ys
    → value (xs ++ (ys ++ b ∷ [])) ≡ value xs * space (length (ys ++ b ∷ [])) + value (ys ++ b ∷ [])
value-append_step xs ys b ih =
    rw (← append_assoc xs ys (b ∷ []), value-snoc, length-snoc ys b, pow-suc)
      (rw (value-snoc ys b, ih) (grind arith))

value-append : (xs ys : List ℕ) → value (xs ++ ys) ≡ value xs * space (length ys) + value ys
value-append xs =
    snoc_induction (λ ys. value (xs ++ ys) ≡ value xs * space (length ys) + value ys)
      (rw (append-nil, value-nil) (omega arith)) (value-append_step xs)

-- The first twelve bytes.
value_of_prefix : value prefix ≡ 65535
unfolding value
value_of_prefix = refl

value-prefix : (r : List ℕ) → length r ≡ 4 → value (prefix ++ r) ≡ first_mapped + value r
value-prefix r four = value-append prefix r ∙ rw (four, value_of_prefix) refl

all_equal-replicate : (v : ℕ) (xs : List ℕ) → all_equal v xs ≡ true → xs ≡ replicate (length xs) v
unfolding all_equal
all_equal-replicate v [] e = refl
all_equal-replicate v (x ∷ xs) e =
    let here : x ≡ v = ground arith in
    let rest : all_equal v xs ≡ true = ground arith in
    rw here (ap (λ t. v ∷ t) (all_equal-replicate v xs rest))

mapped_split :
    (ip : List ℕ)
    → length ip ≡ 16
    → is_mapped ip ≡ true
    → (r : List ℕ) × (ip ≡ prefix ++ r) × (length r ≡ 4)
unfolding is_mapped
mapped_split ip l m =
    let rest = drop 10 ip in
    let lt : length (take 10 ip) ≡ 10 = omega (arith, length-take 10 ip) in
    let ld : length rest ≡ 6 = omega (arith, length-drop 10 ip) in
    let lt' : length (take 2 rest) ≡ 2 = omega (arith, length-take 2 rest) in
    let ld' : length (drop 2 rest) ≡ 4 = omega (arith, length-drop 2 rest) in
    let zeros : all_equal 0 (take 10 ip) ≡ true = ground arith in
    let ones : all_equal 255 (take 2 rest) ≡ true = ground arith in
    let a : take 10 ip ≡ replicate 10 0 =
      all_equal-replicate 0 (take 10 ip) zeros ∙ ap (λ n. replicate n 0) lt in
    let b : take 2 rest ≡ replicate 2 255 =
      all_equal-replicate 255 (take 2 rest) ones ∙ ap (λ n. replicate n 255) lt' in
    (
      drop 2 rest,
      sym (take-append-drop 10 ip)
          ∙ ap (λ xs. xs ++ rest) a
          ∙ ap (λ xs. replicate 10 0 ++ xs)
              (sym (take-append-drop 2 rest) ∙ ap (λ xs. xs ++ drop 2 rest) b),
      ld',
    )

prefix-bytes : of_value 12 65535 ≡ prefix
unfolding of_value
prefix-bytes = refl

mapped_value :
    (ip : List ℕ) → IsBytes ip → length ip ≡ 16 → value ip / 2 ^ 32 ≡ 65535 → is_mapped ip ≡ true
unfolding is_mapped all_equal
mapped_value ip h l v =
    let parts : take 12 ip ++ drop 12 ip ≡ ip = take-append-drop 12 ip in
    let (front, behind) = IsBytes-append (take 12 ip) (drop 12 ip) (subst IsBytes (sym parts) h) in
    let lf : length (take 12 ip) ≡ 12 = omega (arith, length-take 12 ip) in
    let lb : length (drop 12 ip) ≡ 4 = omega (arith, length-drop 12 ip) in
    let small : value (drop 12 ip) < space 4 =
      subst (λ n. value (drop 12 ip) < space n) lb (value-lt (drop 12 ip) behind) in
    let sum : value ip ≡ value (take 12 ip) * space 4 + value (drop 12 ip) =
      ap value (sym parts)
      ∙ value-append (take 12 ip) (drop 12 ip)
      ∙ ap (λ n. value (take 12 ip) * space n + value (drop 12 ip)) lb in
    let top : value (take 12 ip) ≡ 65535 = omega (arith, small, sum, v) in
    let e : take 12 ip ≡ prefix =
      sym (of_value-value (take 12 ip) front)
      ∙ ap (λ n. of_value n (value (take 12 ip))) lf
      ∙ ap (of_value 12) top
      ∙ prefix-bytes in
    subst (λ x. is_mapped x ≡ true) (ap (λ x. x ++ drop 12 ip) (sym e) ∙ parts) refl

-- Of 16 bytes, `IP.To4` gives the last 4 if the address is from ::ffff:0:0 to ::ffff:ffff:ffff, and
-- nothing if not.
pub to4-value :
    (ip : List ℕ)
    → IsBytes ip
    → length ip ≡ 16
    → ((r : List ℕ) × (is_mapped ip ≡ true)
        × (to4 ip ≡ some r)
        × (drop 12 ip ≡ r)
        × (length r ≡ 4)
        × IsBytes r
        × (value ip ≡ first_mapped + value r))
      ⊎ ((is_mapped ip ≡ false) × (to4 ip ≡ none) × (value ip / 2 ^ 32 ≢ 65535))
unfolding to4
to4-value ip h l = elim (Bool-cases (is_mapped ip)) [
  | inl m ↦
      let (r, e, four) = mapped_split ip l m in
      let (front, behind) = IsBytes-append prefix r (subst IsBytes e h) in
      let last : drop 12 ip ≡ r = ap (drop 12) e in
      inl (r, m, rw (l, m) (ap some last), last, four, behind, ap value e ∙ value-prefix r four)
  | inr m ↦ inr (m, rw (l, m) refl, λ v. let y = mapped_value ip h l v in cc)
]
