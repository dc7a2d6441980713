-- ===== src/Scanner/Cidr/Range.antt =====
-- What `getCidrIps` returns, and when it returns.
use go_warp_scanner.Scanner.Inc.{inc, value, IsBytes, space, value-lt, length-inc, value-inc}
use go_warp_scanner.Scanner.Ip.{is_mapped}
use go_warp_scanner.Scanner.Cidr.{
  IpNet, of_value, clear_bits, mask_ip, contains, cidr_loop, get_cidr_ips, append_ips, ip_lists,
  ip_list, of_value-IsBytes, value-of_value, of_value-value, pow_pos,
}
use go_warp_scanner.Scanner.Cidr.Mapped.{to4-value}
use go_warp_scanner.Scanner.Cidr.Covers.{host_count, range_count, IsNetwork, Covers, contains_ipv4}
use go_warp_scanner.Scanner.Cidr.Stop.{network-Covers}
use go_warp_scanner.Common.Text.{Text, split}
use go_warp_scanner.Common.Arith.{div_unique}
use go_warp_scanner.Common.{
  ℕ, zero, suc, ◌+◌, ◌-◌, ◌*◌, ◌/◌, ◌^◌, ◌≤◌, ◌<◌, ◌≡◌, refl, sym, ap, ◌∙◌, subst, ◌≢◌, ◌⊎◌, inl,
  inr, true, Option, none, some, List, [], ◌∷◌, ◌++◌, map, append-nil, append_assoc, arith, drop,
  ◌==◌, if◌then◌else◌, ==_iff, length,
}

-- `count` consecutive addresses of `n` bytes from the number `v` on.
abbrev pub address_range : ℕ → ℕ → ℕ → List (List ℕ)
address_range n v zero = []
address_range n v (suc count) = of_value n v ∷ address_range n (v + 1) count

module _ (net : IpNet) (ok : IsNetwork net) (count : ℕ) (covers : Covers net count) where
  abbrev base : ℕ
  base = value net.ip

  -- The number that `inc` leaves `i` steps after the network address.
  abbrev at_step : ℕ → ℕ
  at_step i = if base + i == space (length net.ip) then 0 else base + i

  step_value :
      (ip : List ℕ) (i : ℕ)
      → IsBytes ip
      → length ip ≡ length net.ip
      → value ip ≡ base + i
      → value (inc ip) ≡ at_step (i + 1)
  step_value ip i h len v =
      let e : base + i + 1 ≡ base + (i + 1) = omega arith in
      let w : value (inc ip) ≡ (if base + i + 1 == space (length net.ip) then 0 else base + i + 1) =
        rw (v, len) at ((value-inc ip h).0) in
      rw e at w

  module _ (parse_cidr : Text → Option (List ℕ × IpNet)) (ip_string : List ℕ → Text) where
    cidr_loop_lem :
        (d i fuel : ℕ) (ip : List ℕ) (ips : List Text)
        → i + d ≡ count
        → d < fuel
        → IsBytes ip
        → length ip ≡ length net.ip
        → value ip ≡ at_step i
        → cidr_loop parse_cidr ip_string fuel net ip ips
          ≡ some (ips ++ map ip_string (address_range (length net.ip) (base + i) d))
    unfolding cidr_loop
    cidr_loop_lem d i zero ip ips e f h len v = elim f [ ]
    cidr_loop_lem zero i (suc fuel) ip ips e f h len v =
        let last : i ≡ count = omega arith in
        rw (covers.behind ip h len (subst (λ (j : ℕ). value ip ≡ at_step j) last v)) (rw append-nil)
    cidr_loop_lem (suc d) i (suc fuel) ip ips e f h len v =
        let v' : value ip ≡ base + i = ground (arith, covers.room) in
        let inside = covers.inside ip h len (omega arith) (omega arith) in
        let same : of_value (length net.ip) (base + i) ≡ ip =
          subst (λ (k : ℕ). of_value (length net.ip) k ≡ ip) v'
            (subst (λ (n : ℕ). of_value n (value ip) ≡ ip) len (of_value-value ip h)) in
        let e' : base + i + 1 ≡ base + (i + 1) = omega arith in
        rw inside (
          cidr_loop_lem d (i + 1) fuel (inc ip) (ips ++ ip_string ip ∷ []) (omega arith)
            (omega arith) ((value-inc ip h).1) (length-inc ip ∙ len) (step_value ip i h len v')
          ∙ rw (same, e', append_assoc))

-- What `net.ParseCIDR` documents of its two results: an address of 16 bytes, and the network implied
-- by it and the prefix length, of 4 bytes for a range that is written as IPv4, else of 16.
pub record IsParsed (ip : List ℕ) (net : IpNet) : Type 0 where
  pub bytes : IsBytes ip
  pub sixteen : length ip ≡ 16
  pub short : net.ones ≤ 8 * length net.ip
  pub family : ((length net.ip ≡ 4) × (is_mapped ip ≡ true)) ⊎ (length net.ip ≡ 16)
  pub network : mask_ip net ip ≡ net.ip

mask_ip-ipv4 :
    (net : IpNet) (ip r : List ℕ)
    → length net.ip ≡ 4
    → length ip ≡ 16
    → is_mapped ip ≡ true
    → drop 12 ip ≡ r
    → length r ≡ 4
    → mask_ip net ip ≡ clear_bits (8 * length net.ip - net.ones) r
unfolding mask_ip
mask_ip-ipv4 net ip r four l m d lr = rw (four, l, m) (rw (d, lr) refl)

mask_ip-ipv6 :
    (net : IpNet) (ip : List ℕ)
    → length net.ip ≡ 16
    → length ip ≡ 16
    → mask_ip net ip ≡ clear_bits (8 * length net.ip - net.ones) ip
unfolding mask_ip
mask_ip-ipv6 net ip len l = rw (len, l) refl

module _ {ip : List ℕ} {net : IpNet} (ok : IsParsed ip net) where
  -- The bytes that are masked.
  masked :
      (b : List ℕ) × IsBytes b
      × (length b ≡ length net.ip)
      × (clear_bits (8 * length net.ip - net.ones) b ≡ net.ip)
  masked = elim ok.family [
    | inl (four, m) ↦ elim (to4-value ip ok.bytes ok.sixteen) [
      | inl (r, m', e, d, lr, hr, v) ↦
          (r, hr, lr ∙ sym four, sym (mask_ip-ipv4 net ip r four ok.sixteen m d lr) ∙ ok.network)
      | inr (m', e, far) ↦ absurd (cc)
    ]
    | inr len ↦
        (ip, ok.bytes, ok.sixteen ∙ sym len, sym (mask_ip-ipv6 net ip len ok.sixteen) ∙ ok.network)
  ]

  family_length : (length net.ip ≡ 4) ⊎ (length net.ip ≡ 16)
  family_length = elim ok.family [ inl (four, m) ↦ inl four | inr len ↦ inr len ]

  parsed-IsNetwork : IsNetwork net
  parsed-IsNetwork = by_bytes masked
    where
      div_mul_le : (v h : ℕ) → v / h * h ≤ v
      div_mul_le v h = grind arith

      by_bytes :
          (b : List ℕ) × IsBytes b
            × (length b ≡ length net.ip)
            × (clear_bits (8 * length net.ip - net.ones) b ≡ net.ip)
          → IsNetwork net
      by_bytes (b, h, len, e) =
          let kept = value b / host_count net * host_count net in
          let v : value net.ip ≡ kept =
            ap value (sym e)
            ∙ value-of_value (length b) kept
                (omega (arith, value-lt b h, div_mul_le (value b) (host_count net))) in
          record {
            bytes = subst IsBytes e (of_value-IsBytes (length b) kept);
            short = ok.short;
            aligned = rw v (
                ap (λ (t : ℕ). t * host_count net)
                  (div_unique kept (value b / host_count net) (host_count net) (omega arith)
                    (omega (arith, pow_pos (8 * length net.ip - net.ones)))));
          }

module _ (parse_cidr : Text → Option (List ℕ × IpNet)) (ip_string : List ℕ → Text) where
  -- A range other than the whole of IPv4 gives the strings of consecutive addresses in order, from its network address
  -- on, if the fuel exceeds their number: all the addresses of the range, the broadcast address too, except for an IPv6
  -- range that begins before ::ffff:0:0 and has it, which gives those before ::ffff:0:0.
  pub get_cidr_ips-range :
      (cidr : Text) {ip : List ℕ} {net : IpNet} (fuel : ℕ)
      → parse_cidr cidr ≡ some (ip, net)
      → IsParsed ip net
      → (net.ones ≢ 0) ⊎ (length net.ip ≡ 16)
      → range_count net < fuel
      → get_cidr_ips parse_cidr ip_string fuel cidr
        ≡ some (map ip_string (address_range (length net.ip) (value net.ip) (range_count net)))
  unfolding get_cidr_ips
  get_cidr_ips-range cidr {ip} {net} fuel e ok p f =
      let is_net = parsed-IsNetwork ok in
      let count = range_count net in
      let covers = network-Covers net is_net p (family_length ok) in
      let zero_step : value net.ip + 0 ≡ value net.ip = omega arith in
      let inside : value net.ip < space (length net.ip) = value-lt net.ip is_net.bytes in
      rw (e, get_cidr_ips)
        (rw ok.network (
          subst
            (λ (v : ℕ).
              cidr_loop parse_cidr ip_string fuel net net.ip []
              ≡ some (map ip_string (address_range (length net.ip) v count)))
            zero_step
            (cidr_loop_lem net is_net count covers parse_cidr ip_string count 0 fuel net.ip []
              (omega arith) f is_net.bytes refl (ground (arith, inside)))))

  -- Every IPv4 address lies in the network of an empty prefix.
  everywhere :
      (net : IpNet) (ip : List ℕ)
      → IsNetwork net
      → net.ones ≡ 0
      → length net.ip ≡ 4
      → IsBytes ip
      → length ip ≡ length net.ip
      → contains net ip ≡ true
  everywhere net ip ok z four h len =
      let whole : host_count net ≡ 2 ^ 32 =
        ap (λ (e : ℕ). 2 ^ e) {y = 32} (omega (arith, z, four)) in
      let small : (b : List ℕ) → IsBytes b → length b ≡ 4 → value b / host_count net ≡ 0 =
        λ b hb lb.
          let lt : value b < space 4 = subst (λ n. value b < space n) lb (value-lt b hb) in
          div_unique (value b) 0 (host_count net) (omega arith) (omega (arith, whole)) in
      contains_ipv4 net ok ip four (len ∙ four)
      ∙ (==_iff _ _).1 (small ip h (len ∙ four) ∙ sym (small net.ip ok.bytes four))

  cidr_loop-diverges :
      (fuel : ℕ) (net : IpNet) (ip : List ℕ) (ips : List Text)
      → IsNetwork net
      → net.ones ≡ 0
      → length net.ip ≡ 4
      → IsBytes ip
      → length ip ≡ length net.ip
      → cidr_loop parse_cidr ip_string fuel net ip ips ≡ none
  unfolding cidr_loop
  cidr_loop-diverges zero net ip ips ok z four h len = refl
  cidr_loop-diverges (suc fuel) net ip ips ok z four h len =
      rw (everywhere net ip ok z four h len) (
        cidr_loop-diverges fuel net (inc ip) (ips ++ ip_string ip ∷ []) ok z four
          ((value-inc ip h).1) (length-inc ip ∙ len))

  -- On the IPv4 range of an empty prefix the loop never ends: no fuel is enough.
  pub get_cidr_ips-diverges :
      (cidr : Text) {ip : List ℕ} {net : IpNet} (fuel : ℕ)
      → parse_cidr cidr ≡ some (ip, net)
      → IsParsed ip net
      → net.ones ≡ 0
      → length net.ip ≡ 4
      → get_cidr_ips parse_cidr ip_string fuel cidr ≡ none
  unfolding get_cidr_ips
  get_cidr_ips-diverges cidr {ip} {net} fuel e ok z four =
      let is_net = parsed-IsNetwork ok in
      rw (e, get_cidr_ips)
        (rw ok.network (cidr_loop-diverges fuel net net.ip [] is_net z four is_net.bytes refl))

-- What the theorem below asks of each range of the list.
abbrev pub AreRanges : (Text → Option (List ℕ × IpNet)) → ℕ → List Text → Type 0
AreRanges parse_cidr fuel [] = Unit
AreRanges parse_cidr fuel (cidr ∷ cidrs) =
    ((ip : List ℕ) × (net : IpNet) × (parse_cidr cidr ≡ some (ip, net))
      × IsParsed ip net
      × ((net.ones ≢ 0) ⊎ (length net.ip ≡ 16))
      × (range_count net < fuel))
    × AreRanges parse_cidr fuel cidrs

module _ (parse_cidr : Text → Option (List ℕ × IpNet)) (ip_string : List ℕ → Text) where
  -- The addresses of the ranges, one range after another.
  abbrev pub addresses :
      (fuel : ℕ) (cidrs : List Text) → AreRanges parse_cidr fuel cidrs → List Text
  addresses fuel [] r = []
  addresses fuel (cidr ∷ cidrs) ((ip, net, e, ok, p, f), r) =
      map ip_string (address_range (length net.ip) (value net.ip) (range_count net))
      ++ addresses fuel cidrs r

  ip_lists-addresses :
      (fuel : ℕ) (cidrs : List Text) (r : AreRanges parse_cidr fuel cidrs)
      → ip_lists parse_cidr ip_string fuel cidrs ≡ some (addresses fuel cidrs r)
  unfolding ip_lists append_ips
  ip_lists-addresses fuel [] r = refl
  ip_lists-addresses fuel (cidr ∷ cidrs) ((ip, net, e, ok, p, f), r) =
      rw (get_cidr_ips-range parse_cidr ip_string cidr fuel e ok p f, ip_lists)
        (rw (ip_lists-addresses fuel cidrs r))

  -- The list of `main` holds the addresses that the theorem above gives for every range of its text, in the order of the text, if
  -- each range parses, is not the whole of IPv4, and has fewer addresses than the fuel.
  pub ip_list-addresses :
      (fuel : ℕ) (cidrs : Text) (r : AreRanges parse_cidr fuel (split b' ' cidrs))
      → ip_list parse_cidr ip_string fuel cidrs ≡ some (addresses fuel (split b' ' cidrs) r)
  unfolding ip_list
  ip_list-addresses fuel cidrs r = ip_lists-addresses fuel (split b' ' cidrs) r
