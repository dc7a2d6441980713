-- ===== src/Scanner/Cidr/Covers.antt =====
-- How many addresses from the network address on `IPNet.Contains` accepts, and that it is all of them for IPv4.
use native.Mathlib.Nat.{pow-suc}
use go_warp_scanner.Scanner.Inc.{value, IsBytes, space, value-lt}
use go_warp_scanner.Scanner.Ip.{to4}
use go_warp_scanner.Scanner.Cidr.{
  IpNet, network_number, short_form, same_network, contains, pow_pos, pow_add, space-eq,
}
use go_warp_scanner.Scanner.Cidr.Mapped.{first_mapped}
use go_warp_scanner.Common.Arith.{div_unique}
use go_warp_scanner.Common.{
  ℕ, zero, suc, ◌+◌, ◌-◌, ◌*◌, ◌/◌, ◌^◌, ◌≤◌, ◌<◌, ◌≡◌, refl, ap, ◌∙◌, ◌≢◌, inl, inr, true, false,
  ◌&&◌, none, some, List, arith, ltb, dec_lt, ◌==◌, if◌then◌else◌, ==_iff, Bool-cases, length,
}

-- How many addresses have the leading bits of the network address.
abbrev pub host_count : IpNet → ℕ
host_count net = 2 ^ (8 * length net.ip - net.ones)

-- An IPv6 range that begins before ::ffff:0:0 and has it ends there.
abbrev pub range_count : IpNet → ℕ
range_count net =
    if (length net.ip == 16)
      && (ltb (value net.ip) first_mapped && ltb first_mapped (value net.ip + host_count net))
    then first_mapped - value net.ip
    else host_count net

-- The network address has no host bits.
pub record IsNetwork (net : IpNet) : Type 0 where
  pub bytes : IsBytes net.ip
  pub short : net.ones ≤ 8 * length net.ip
  pub aligned : value net.ip / host_count net * host_count net ≡ value net.ip

-- `IPNet.Contains` accepts `count` addresses from the network address on, and not the one that `inc`
-- makes of the last of them.
pub record Covers (net : IpNet) (count : ℕ) : Type 0 where
  pub room : value net.ip + count ≤ space (length net.ip)
  pub inside :
      (ip : List ℕ)
      → IsBytes ip
      → length ip ≡ length net.ip
      → value net.ip ≤ value ip
      → value ip < value net.ip + count
      → contains net ip ≡ true
  pub behind :
      (ip : List ℕ)
      → IsBytes ip
      → length ip ≡ length net.ip
      → value ip
        ≡ (if value net.ip + count == space (length net.ip) then 0 else value net.ip + count)
      → contains net ip ≡ false

-- A multiple of `h` below another multiple of `h` leaves room for one more `h`.
pub multiple_room : (k m h : ℕ) → k * h < m * h → k * h + h ≤ m * h
multiple_room k m h lt = elim (dec_lt k m) [
  | yes below ↦ grind arith
  | no above ↦ absurd (grind arith)
]

-- The last block of several does not start at 0.
last_block_pos : (k m h : ℕ) → 0 < h → 2 ≤ m → k * h + h ≡ m * h → 0 < k
last_block_pos zero m h hp two e = grind arith
last_block_pos (suc k) m h hp two e = omega arith

-- The difference of two multiples is one.
pub multiple_diff : (q m h v : ℕ) → q * h ≡ m * h + v → (q - m) * h ≡ v
multiple_diff q m h v e = elim (dec_lt q m) [
  | yes lt ↦
      let z : q - m ≡ 0 = omega arith in let le : q * h ≤ m * h = grind arith in rw z (omega arith)
  | no ge ↦
      let k : q ≡ m + (q - m) = omega arith in
      let t : q * h ≡ m * h + (q - m) * h = ap (λ (x : ℕ). x * h) k ∙ grind arith in omega arith
]

two_le_pow : (p : ℕ) → 1 ≤ p → 2 ≤ 2 ^ p
two_le_pow zero h = absurd (omega arith)
two_le_pow (suc p) h = rw pow-suc (omega (arith, pow_pos p))

to4_self : (ip : List ℕ) → length ip ≡ 4 → to4 ip ≡ some ip
unfolding to4
to4_self ip l = rw l refl

short_some : (ip r : List ℕ) → to4 ip ≡ some r → short_form ip ≡ r
unfolding short_form
short_some ip r e = rw (e, short_form) refl

short_none : (ip : List ℕ) → to4 ip ≡ none → short_form ip ≡ ip
unfolding short_form
short_none ip e = rw (e, short_form) refl

module _ (net : IpNet) (ok : IsNetwork net) where
  abbrev base : ℕ
  base = value net.ip

  abbrev size : ℕ
  size = host_count net

  pub size_pos : 0 < size
  size_pos = pow_pos (8 * length net.ip - net.ones)

  -- The size of the address space is a multiple of the size of the range.
  space_split : space (length net.ip) ≡ 2 ^ net.ones * size
  space_split =
      space-eq (length net.ip)
      ∙ ap (λ (e : ℕ). 2 ^ e) (omega (arith, ok.short))
      ∙ pow_add net.ones (8 * length net.ip - net.ones)

  pub room : base + size ≤ space (length net.ip)
  room =
      let below : base / size * size < 2 ^ net.ones * size =
        rw (ok.aligned, ← space_split) (value-lt net.ip ok.bytes) in
      omega (arith, multiple_room (base / size) (2 ^ net.ones) size below, space_split, ok.aligned)

  div_inside : (i : ℕ) → i < size → (base + i) / size ≡ base / size
  div_inside i h =
      div_unique (base + i) (base / size) size (omega (arith, ok.aligned))
        (omega (arith, ok.aligned, h))

  -- One past the range, with the wrap of `inc`, is outside if the prefix is not empty.
  pub div_after :
      (v : ℕ)
      → 1 ≤ net.ones
      → v ≡ (if base + size == space (length net.ip) then 0 else base + size)
      → v / size ≢ base / size
  div_after v p e = elim (Bool-cases (base + size == space (length net.ip))) [
    | inl last ↦
        let zero_v : v ≡ 0 = rw last at e in
        let full : base + size ≡ space (length net.ip) = (==_iff _ _).0 last in
        let first : 0 < base / size =
          last_block_pos (base / size) (2 ^ net.ones) size size_pos (two_le_pow net.ones p)
            (omega (arith, full, space_split, ok.aligned)) in
        rw (zero_v, div_unique 0 0 size (omega arith) (omega (arith, size_pos)))
          (omega (arith, first))
    | inr inner ↦
        let next : v ≡ base + size = rw inner at e in
        rw
          (
            next,
            div_unique (base + size) (base / size + 1) size (omega (arith, ok.aligned))
                (omega (arith, ok.aligned, size_pos)),
          )
          (omega arith)
  ]

  -- The addresses that share the leading bits with the network address.
  pub div_within : (v : ℕ) → base ≤ v → v < base + size → v / size ≡ base / size
  div_within v lo hi =
      div_unique v (base / size) size (omega (arith, ok.aligned)) (omega (arith, ok.aligned))

  -- The network number and the addresses in the form in which they are compared.
  number_ipv4 : length net.ip ≡ 4 → network_number net ≡ (net.ip, 32 - net.ones)
  unfolding network_number
  number_ipv4 four = rw (to4_self net.ip four, network_number) (rw four refl)

  number_ipv6 :
      length net.ip ≡ 16 → to4 net.ip ≡ none → network_number net ≡ (net.ip, 128 - net.ones)
  unfolding network_number
  number_ipv6 len six = rw (six, network_number) (rw len refl)

  number_mapped :
      (n : List ℕ)
      → length net.ip ≡ 16
      → to4 net.ip ≡ some n
      → network_number net ≡ (n, 32 - (net.ones - 96))
  unfolding network_number
  number_mapped n len e = rw (e, network_number) (rw len refl)

  contains_lem :
      (ip short number : List ℕ) (bits : ℕ)
      → network_number net ≡ (number, bits)
      → short_form ip ≡ short
      → contains net ip
        ≡ ((length short == length number) && (value short / 2 ^ bits == value number / 2 ^ bits))
  unfolding contains
  contains_lem ip short number bits e s =
      ap (λ p. same_network p (short_form ip)) e ∙ ap (same_network (number, bits)) s

  pub contains_ipv4 :
      (ip : List ℕ)
      → length net.ip ≡ 4
      → length ip ≡ 4
      → contains net ip ≡ (value ip / size == base / size)
  contains_ipv4 ip len l =
      contains_lem ip ip net.ip (32 - net.ones) (number_ipv4 len) (short_some ip ip (to4_self ip l))
      ∙ rw (l, len) refl

  pub contains_ipv6 :
      (ip : List ℕ)
      → length net.ip ≡ 16
      → to4 net.ip ≡ none
      → length ip ≡ 16
      → to4 ip ≡ none
      → contains net ip ≡ (value ip / size == base / size)
  contains_ipv6 ip len six l e =
      contains_lem ip ip net.ip (128 - net.ones) (number_ipv6 len six) (short_none ip e)
      ∙ rw (l, len) refl

  pub contains_ipv6_ipv4 :
      (ip r : List ℕ)
      → length net.ip ≡ 16
      → to4 net.ip ≡ none
      → to4 ip ≡ some r
      → length r ≡ 4
      → contains net ip ≡ false
  contains_ipv6_ipv4 ip r len six e l =
      contains_lem ip r net.ip (128 - net.ones) (number_ipv6 len six) (short_some ip r e)
      ∙ rw (l, len) refl

  pub contains_mapped :
      (ip r n : List ℕ)
      → length net.ip ≡ 16
      → to4 net.ip ≡ some n
      → length n ≡ 4
      → to4 ip ≡ some r
      → length r ≡ 4
      → contains net ip
        ≡ (value r / 2 ^ (32 - (net.ones - 96)) == value n / 2 ^ (32 - (net.ones - 96)))
  contains_mapped ip r n len six ln e l =
      contains_lem ip r n (32 - (net.ones - 96)) (number_mapped n len six) (short_some ip r e)
      ∙ rw (l, ln) refl

  pub contains_mapped_ipv6 :
      (ip n : List ℕ)
      → length net.ip ≡ 16
      → to4 net.ip ≡ some n
      → length n ≡ 4
      → to4 ip ≡ none
      → length ip ≡ 16
      → contains net ip ≡ false
  contains_mapped_ipv6 ip n len six ln e l =
      contains_lem ip ip n (32 - (net.ones - 96)) (number_mapped n len six) (short_none ip e)
      ∙ rw (l, ln) refl

  pub ipv4-Covers : length net.ip ≡ 4 → 1 ≤ net.ones → Covers net size
  ipv4-Covers four p = record {
    room = room;
    inside = λ ip h l lo hi.
        contains_ipv4 ip four (l ∙ four) ∙ let e = div_within (value ip) lo hi in (==_iff _ _).1 e;
    behind = λ ip h l e.
        contains_ipv4 ip four (l ∙ four) ∙ let n = div_after (value ip) p e in ground (arith, n);
  }
