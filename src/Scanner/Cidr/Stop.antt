-- ===== src/Scanner/Cidr/Stop.antt =====
-- Where the loop of `getCidrIps` ends: IPv6 ranges, with the IPv4 addresses among them.
use go_warp_scanner.Scanner.Cidr.Covers.{
  host_count, range_count, IsNetwork, Covers, multiple_room, multiple_diff, room, div_within,
  div_after, contains_ipv6, contains_ipv6_ipv4, contains_mapped, contains_mapped_ipv6, size_pos,
  ipv4-Covers,
}
use go_warp_scanner.Scanner.Inc.{value, IsBytes, space, value-lt}
use go_warp_scanner.Scanner.Ip.{to4}
use go_warp_scanner.Scanner.Cidr.{IpNet, contains, pow_add}
use go_warp_scanner.Scanner.Cidr.Mapped.{first_mapped, to4-value}
use go_warp_scanner.Common.Arith.{div_unique}
use go_warp_scanner.Common.{
  ℕ, ◌+◌, ◌-◌, ◌*◌, ◌/◌, ◌^◌, ◌≤◌, ◌<◌, ◌≡◌, refl, sym, ap, ◌∙◌, subst, ◌≢◌, ◌⊎◌, inl, inr, false,
  ◌&&◌, none, some, List, arith, ltb, dec_lt, ◌==◌, ==_iff, Bool-cases, length,
}

module _ (net : IpNet) (ok : IsNetwork net) where
  abbrev base : ℕ
  base = value net.ip

  abbrev size : ℕ
  size = host_count net

  module _ (len : length net.ip ≡ 16) where
    below_room : base + size ≤ space 16
    below_room = subst (λ n. base + size ≤ space n) len (room net ok)

    -- The IPv4 addresses among the IPv6 ones.
    mapped_bounds :
        (ip r : List ℕ)
        → IsBytes r
        → length r ≡ 4
        → value ip ≡ first_mapped + value r
        → (first_mapped ≤ value ip) × (value ip < first_mapped + 2 ^ 32)
    mapped_bounds ip r h four e =
        let small : value r < space 4 = subst (λ n. value r < space n) four (value-lt r h) in
        (omega arith, omega arith)

    module _ (six : to4 net.ip ≡ none) (high : base / 2 ^ 32 ≢ 65535) where
      ipv6_prefix : (base + size ≤ first_mapped) ⊎ (first_mapped ≤ base) → 1 ≤ net.ones
      ipv6_prefix out = elim (dec_lt 0 net.ones) [
        | yes p ↦ omega arith
        | no z ↦
            let e : size ≡ 2 ^ 128 = ap (λ (k : ℕ). 2 ^ k) {y = 128} (omega (arith, len)) in
            elim out [ inl b ↦ absurd (omega arith) | inr a ↦ absurd (omega (arith, below_room)) ]
      ]

      apart_Covers : (base + size ≤ first_mapped) ⊎ (first_mapped ≤ base) → Covers net size
      apart_Covers out = record {
        room = room net ok;
        inside = λ ip h l lo hi. elim (to4-value ip h (l ∙ len)) [
          | inl (r, m, e, d, four, hr, v) ↦
              let (a, b) = mapped_bounds ip r hr four v in
              elim out [
                | inl below ↦ absurd (omega arith)
                | inr above ↦ absurd (high (omega arith))
              ]
          | inr (m, e, far) ↦
              contains_ipv6 net ok ip len six (l ∙ len) e
              ∙ (==_iff _ _).1 (div_within net ok (value ip) lo hi)
        ];
        behind = λ ip h l w. elim (to4-value ip h (l ∙ len)) [
          | inl (r, m, e, d, four, hr, v) ↦ contains_ipv6_ipv4 net ok ip r len six e four
          | inr (m, e, far) ↦
              let n = div_after net ok (value ip) (ipv6_prefix out) w in
              contains_ipv6 net ok ip len six (l ∙ len) e ∙ ground (arith, n)
        ];
      }

      cut_Covers :
          base < first_mapped → first_mapped < base + size → Covers net (first_mapped - base)
      cut_Covers lt gt = record {
        room = omega (arith, room net ok);
        inside = λ ip h l lo hi. elim (to4-value ip h (l ∙ len)) [
          | inl (r, m, e, d, four, hr, v) ↦
              let (a, b) = mapped_bounds ip r hr four v in absurd (omega arith)
          | inr (m, e, far) ↦
              contains_ipv6 net ok ip len six (l ∙ len) e
              ∙ (==_iff _ _).1 (div_within net ok (value ip) lo (omega arith))
        ];
        behind = λ ip h l w. elim (to4-value ip h (l ∙ len)) [
          | inl (r, m, e, d, four, hr, v) ↦ contains_ipv6_ipv4 net ok ip r len six e four
          | inr (m, e, far) ↦
              let s : base + (first_mapped - base) ≡ first_mapped = omega arith in
              let v : value ip ≡ first_mapped = ground (arith, room net ok) in
              absurd (far (omega arith))
        ];
      }

    module _ (n : List ℕ) (six : to4 net.ip ≡ some n) (four : length n ≡ 4) (hn : IsBytes n)
        (at : base ≡ first_mapped + value n) where
      abbrev short_size : ℕ
      short_size = 2 ^ (32 - (net.ones - 96))

      small : value n < 2 ^ 32
      small = subst (λ k. value n < space k) four (value-lt n hn)

      -- Such an address has a one as its 96th bit.
      mapped_prefix : 96 ≤ net.ones
      mapped_prefix = elim (dec_lt net.ones 96) [
        | yes lt ↦
            let k : 8 * length net.ip - net.ones ≡ (95 - net.ones) + 33 = omega (arith, len) in
            let e : size ≡ 2 ^ (95 - net.ones) * 2 ^ 33 =
              ap (λ (t : ℕ). 2 ^ t) k ∙ pow_add (95 - net.ones) 33 in
            let twice : base ≡ base / size * 2 ^ (95 - net.ones) * 2 ^ 33 =
              sym ok.aligned ∙ ap (λ (t : ℕ). base / size * t) e ∙ grind arith in
            absurd (omega (arith, small))
        | no ge ↦ omega arith
      ]

      short-size : short_size ≡ size
      short-size = ap (λ (t : ℕ). 2 ^ t) (omega (arith, len, mapped_prefix, ok.short))

      whole : 2 ^ (net.ones - 96) * size ≡ 2 ^ 32
      whole =
          sym (pow_add (net.ones - 96) (8 * length net.ip - net.ones))
          ∙ ap (λ (t : ℕ). 2 ^ t) {y = 32} (omega (arith, len, mapped_prefix, ok.short))

      -- The 4 bytes have no host bits either.
      abbrev block : ℕ
      block = base / size - 65535 * 2 ^ (net.ones - 96)

      short_aligned : block * size ≡ value n
      short_aligned =
          multiple_diff (base / size) (65535 * 2 ^ (net.ones - 96)) size (value n)
            (ok.aligned ∙ at ∙ ap (λ (t : ℕ). 65535 * t + value n) (sym whole) ∙ grind arith)

      short_room : value n + size ≤ 2 ^ 32
      short_room = omega (
        arith,
        multiple_room block (2 ^ (net.ones - 96)) size (omega (arith, whole, short_aligned, small)),
        whole,
        short_aligned,
      )

      short_block : (v : ℕ) → value n ≤ v → v < value n + size → v / size ≡ block
      short_block v lo hi =
          div_unique v block size (omega (arith, short_aligned)) (omega (arith, short_aligned))

      contains_short :
          (ip r : List ℕ)
          → to4 ip ≡ some r
          → length r ≡ 4
          → contains net ip ≡ (value r / size == value n / size)
      contains_short ip r e l =
          contains_mapped net ok ip r n len six four e l
          ∙ ap (λ (s : ℕ). value r / s == value n / s) short-size

      mapped_Covers : Covers net size
      mapped_Covers = record {
        room = room net ok;
        inside = λ ip h l lo hi. elim (to4-value ip h (l ∙ len)) [
          | inl (r, m, e, d, lr, hr, v) ↦
              contains_short ip r e lr
              ∙ (==_iff _ _).1 (
                  short_block (value r) (omega arith) (omega arith)
                  ∙ sym (short_block (value n) (omega arith) (omega (arith, size_pos net ok))))
          | inr (m, e, far) ↦ absurd (far (omega (arith, short_room)))
        ];
        behind = λ ip h l w. elim (to4-value ip h (l ∙ len)) [
          | inl (r, m, e, d, lr, hr, v) ↦
              let next : value r ≡ value n + size = ground arith in
              let q : value r / size ≡ block + 1 =
                div_unique (value r) (block + 1) size (grind (arith, short_aligned))
                  (grind (arith, short_aligned, size_pos net ok)) in
              let q' : value n / size ≡ block =
                short_block (value n) (omega arith) (omega (arith, size_pos net ok)) in
              contains_short ip r e lr ∙ ground arith
          | inr (m, e, far) ↦ contains_mapped_ipv6 net ok ip n len six four e (l ∙ len)
        ];
      }

  counted_whole :
      (length net.ip ≡ 4) ⊎ ((base + size ≤ first_mapped) ⊎ (first_mapped ≤ base))
      → range_count net ≡ size
  counted_whole (inl four) = rw four refl
  counted_whole (inr (inl below)) = ground arith
  counted_whole (inr (inr above)) = ground arith

  -- Where the range ends in the loop.
  pub network-Covers :
      (net.ones ≢ 0) ⊎ (length net.ip ≡ 16)
      → (length net.ip ≡ 4) ⊎ (length net.ip ≡ 16)
      → Covers net (range_count net)
  network-Covers (inr len) (inl four) = absurd (omega arith)
  network-Covers (inl p) (inl four) =
      subst (Covers net) (sym (counted_whole (inl four))) (ipv4-Covers net ok four (omega arith))
  network-Covers q (inr len) = elim (to4-value net.ip ok.bytes len) [
    | inl (n, m, six, d, four, hn, at) ↦
        subst (Covers net) (sym (counted_whole (inr (inr (omega arith)))))
          (mapped_Covers len n six four hn at)
    | inr (m, six, far) ↦
        elim (Bool-cases (ltb base first_mapped && ltb first_mapped (base + size))) [
          | inl t ↦
              let e : range_count net ≡ first_mapped - base = ground arith in
              subst (Covers net) (sym e) (cut_Covers len six far (ground arith) (ground arith))
          | inr t ↦
              let out : (base + size ≤ first_mapped) ⊎ (first_mapped ≤ base) = outside t in
              subst (Covers net) (sym (counted_whole (inr out))) (apart_Covers len six far out)
        ]
  ]
    where
      outside :
          (ltb base first_mapped && ltb first_mapped (base + size)) ≡ false
          → (base + size ≤ first_mapped) ⊎ (first_mapped ≤ base)
      outside t = elim (dec_lt base first_mapped) [
        | yes lt ↦ inl (ground arith)
        | no ge ↦ inr (omega arith)
      ]
