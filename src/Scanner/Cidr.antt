-- ===== src/Scanner/Cidr.antt =====
-- wg-ping.go, `getCidrIps`: the addresses of a range, over a model of `net.IPNet`.
pub mod Mapped
pub mod Covers
pub mod Stop
pub mod Range
use native.Mathlib.Nat.{pow-suc, zero-add, suc-add}
use go_warp_scanner.Scanner.Inc.{
  inc, value, IsBytes, space, value-nil, value-snoc, snoc_induction, IsBytes-append, IsBytes-snoc,
  length-snoc,
}
use go_warp_scanner.Scanner.Ip.{is_mapped, to4}
use go_warp_scanner.Common.Text.{Text, split}
use go_warp_scanner.Common.{
  ℕ, zero, suc, ◌+◌, ◌-◌, ◌*◌, ◌/◌, ◌%◌, ◌^◌, ◌<◌, ◌≡◌, refl, ◌∙◌, Bool, ◌&&◌, Option, none, some,
  List, [], ◌∷◌, ◌++◌, arith, leb, ◌==◌, if◌then◌else◌, length, drop, length-append,
}

-- `net.IPNet`: the network address and the number of leading ones of the mask. The mask has as many
-- bytes as the address, as `net.ParseCIDR` makes it.
pub record IpNet : Type 0 where
  pub ip : List ℕ
  pub ones : ℕ

-- The `n` bytes of a number.
unfoldable pub of_value : ℕ → ℕ → List ℕ
of_value zero v = []
of_value (suc n) v = of_value n (v / 256) ++ v % 256 ∷ []

-- An address with its last bits cleared.
abbrev pub clear_bits : ℕ → List ℕ → List ℕ
clear_bits bits ip = of_value (length ip) (value ip / 2 ^ bits * 2 ^ bits)

-- `IP.Mask` with the mask of `net`, which takes the last 4 bytes of one of the two where the other
-- has 4; no address if the lengths still differ.
unfoldable pub mask_ip : IpNet → List ℕ → List ℕ
mask_ip net ip =
    let short : List ℕ =
      if (length net.ip == 4) && (length ip == 16) && is_mapped ip then drop 12 ip else ip in
    if (length net.ip == 16) && (length ip == 4) && leb 96 net.ones
    then clear_bits (32 - (net.ones - 96)) ip
    else if length short == length net.ip
    then clear_bits (8 * length net.ip - net.ones) short
    else []

-- `networkNumberAndMask`: the network address, of 4 bytes where it is IPv4, and how many of its bits
-- are not under the mask.
unfoldable pub network_number : IpNet → List ℕ × ℕ
network_number net = elim (to4 net.ip) [
  | some number ↦ (number, if length net.ip == 4 then 32 - net.ones else 32 - (net.ones - 96))
  | none ↦ if length net.ip == 16 then (net.ip, 128 - net.ones) else ([], 0)
]

-- The 4 bytes of an address if it is IPv4, else the address.
unfoldable pub short_form : List ℕ → List ℕ
short_form ip = elim (to4 ip) [ some b ↦ b | none ↦ ip ]

-- The lengths agree, and so do the bits under the mask.
abbrev pub same_network : List ℕ × ℕ → List ℕ → Bool
same_network (number, bits) ip =
    (length ip == length number) && (value ip / 2 ^ bits == value number / 2 ^ bits)

-- `IPNet.Contains`.
unfoldable pub contains : IpNet → List ℕ → Bool
unfolding network_number short_form
contains net ip = same_network (network_number net) (short_form ip)

-- `append(ipList, ips...)`, where the rest is still to be collected.
append_ips : List Text → Option (List Text) → Option (List Text)
append_ips ips none = none
append_ips ips (some rest) = some (ips ++ rest)

-- `parse_cidr` is `net.ParseCIDR` (`none` for its error) and `ip_string` is `IP.String`.
module _ (parse_cidr : Text → Option (List ℕ × IpNet)) (ip_string : List ℕ → Text) where
  -- The loop of `getCidrIps`, on fuel; `none` says that the fuel ran out.
  unfoldable pub cidr_loop : ℕ → IpNet → List ℕ → List Text → Option (List Text)
  cidr_loop zero net ip ips = none
  cidr_loop (suc fuel) net ip ips =
      let rest = cidr_loop fuel net (inc ip) (ips ++ ip_string ip ∷ []) in
      if contains net ip then rest else some ips

  -- A text that does not parse gives no address.
  unfoldable pub get_cidr_ips : ℕ → Text → Option (List Text)
  unfolding cidr_loop
  get_cidr_ips fuel cidr = elim (parse_cidr cidr) [
    | none ↦ some []
    | some (ip, net) ↦ cidr_loop fuel net (mask_ip net ip) []
  ]

  -- The first loop of `main`: the addresses of all ranges, one after another.
  ip_lists : ℕ → List Text → Option (List Text)
  unfolding get_cidr_ips
  ip_lists fuel [] = some []
  ip_lists fuel (cidr ∷ cidrs) = elim (get_cidr_ips fuel cidr) [
    | none ↦ none
    | some ips ↦ append_ips ips (ip_lists fuel cidrs)
  ]

  pub ip_list : ℕ → Text → Option (List Text)
  unfolding ip_lists append_ips
  ip_list fuel cidrs = ip_lists fuel (split b' ' cidrs)

pub length-of_value : (n v : ℕ) → length (of_value n v) ≡ n
unfolding of_value
length-of_value zero v = refl
length-of_value (suc n) v =
    omega
      (arith, length-append {0} (of_value n (v / 256)) (v % 256 ∷ []), length-of_value n (v / 256))

pub of_value-IsBytes : (n v : ℕ) → IsBytes (of_value n v)
unfolding of_value
of_value-IsBytes zero v = tt
of_value-IsBytes (suc n) v =
    IsBytes-snoc (of_value n (v / 256)) (v % 256) (of_value-IsBytes n (v / 256)) (omega arith)

pub value-of_value : (n v : ℕ) → v < space n → value (of_value n v) ≡ v
unfolding of_value
value-of_value zero v h = value-nil ∙ omega arith
value-of_value (suc n) v h =
    let small : v / 256 < space n = div_lt n v h in
    value-snoc (of_value n (v / 256)) (v % 256) ∙ omega (arith, value-of_value n (v / 256) small)
  where
    div_lt : (n v : ℕ) → v < space (suc n) → v / 256 < space n
    div_lt n v h = let h' : v < 256 ^ n * 256 = rw pow-suc at h in omega (arith, h')

of_value-step :
    (xs : List ℕ) (b : ℕ)
    → (IsBytes xs → of_value (length xs) (value xs) ≡ xs)
    → IsBytes (xs ++ b ∷ [])
    → of_value (length (xs ++ b ∷ [])) (value (xs ++ b ∷ [])) ≡ xs ++ b ∷ []
unfolding of_value
of_value-step xs b ih h =
    let (l, r) = IsBytes-append xs (b ∷ []) h in
    let up : (value xs * 256 + b) / 256 ≡ value xs = omega (arith, r.0) in
    let low : (value xs * 256 + b) % 256 ≡ b = omega (arith, r.0) in
    rw (length-snoc xs b, value-snoc xs b) (rw (up, low) (rw (ih l)))

pub of_value-value : (ip : List ℕ) → IsBytes ip → of_value (length ip) (value ip) ≡ ip
unfolding of_value
of_value-value =
    snoc_induction (λ xs. IsBytes xs → of_value (length xs) (value xs) ≡ xs) (λ h. refl)
      of_value-step

pub pow_pos : (a : ℕ) → 0 < 2 ^ a
pow_pos zero = omega arith
pow_pos (suc a) = rw pow-suc (omega (arith, pow_pos a))

pub pow_add : (a b : ℕ) → 2 ^ (a + b) ≡ 2 ^ a * 2 ^ b
pow_add zero b = rw zero-add (omega arith)
pow_add (suc a) b = rw (suc-add, pow-suc, pow-suc) (rw (pow_add a b) (omega arith))

pub space-eq : (n : ℕ) → space n ≡ 2 ^ (8 * n)
space-eq zero = refl
space-eq (suc n) =
    let e : 8 * suc n ≡ 8 + 8 * n = omega arith in
    rw (e, pow_add 8 (8 * n), pow-suc, space-eq n) (omega arith)
