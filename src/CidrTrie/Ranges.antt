-- ===== src/CidrTrie/Ranges.antt =====
-- component/trie/ipcidr_trie.go: CIDR ranges as prefixes of groups.
pub mod Prefixes
pub mod Bits
pub mod Ipv4
pub mod Ipv6
use go_warp_scanner.Scanner.Cidr.{IpNet}
use go_warp_scanner.Scanner.Inc.{u8}
use go_warp_scanner.Scanner.Ip.{to4}
use go_warp_scanner.CidrTrie.{Node, new_node, add_groups, search_groups}
use go_warp_scanner.Common.{
  ℕ, zero, suc, ◌+◌, ◌*◌, ◌/◌, ◌%◌, ◌^◌, Bool, true, false, ◌&&◌, Option, none, some, List, [], ◌∷◌,
  ◌++◌, leb, ◌==◌, if◌then◌else◌, length, set, get_or, take, replicate,
}

abbrev ipv4_group_max : ℕ
ipv4_group_max = 0xff

abbrev ipv6_group_max : ℕ
ipv6_group_max = 0xffff

pub record IpCidrTrie : Type 0 where
  pub ipv4_trie : Node
  pub ipv6_trie : Node

-- `NewIpCidrTrie`.
abbrev pub new_trie : IpCidrTrie
new_trie = record {
  ipv4_trie = new_node false ipv4_group_max;
  ipv6_trie = new_node false ipv6_group_max;
}

-- `IP.To16`.
unfoldable pub to16 : List ℕ → Option (List ℕ)
to16 ip =
    if length ip == 4
    then some (replicate 10 0 ++ (255 ∷ 255 ∷ ip))
    else if length ip == 16
    then some ip
    else none

-- `checkAndConverterIp`: the bytes, and whether they are an IPv4 address.
unfoldable pub check_and_convert : List ℕ → Option (List ℕ × Bool)
check_and_convert ip = elim (to4 ip) [
  | some b ↦ some (b, true)
  | none ↦ elim (to16 ip) [ some b ↦ some (b, false) | none ↦ none ]
]

-- The loop of `subIpCidr`, with so many rounds left, from the counter `i` on.
unfoldable pub sub_loop : ℕ → ℕ → ℕ → List ℕ → List (List ℕ)
sub_loop zero i index ip = []
sub_loop (suc rounds) i index ip =
    set ip index (u8 (get_or ip index 0 + i)) ∷ sub_loop rounds (i + 1) index ip

-- `subIpCidr`: the addresses, and the prefix length that stands for each of them.
unfoldable pub sub_ip_cidr : List ℕ → ℕ → Bool → List (List ℕ) × ℕ
unfolding sub_loop
sub_ip_cidr ip mask_size is_ipv4 =
    let group_size = if is_ipv4 then 8 else 16 in
    let index = mask_size / 8 in
    let sub_num = 255 / 2 ^ (mask_size % 8) in
    if mask_size % group_size == 0 then (ip ∷ [], mask_size) else (
      sub_loop (sub_num + 1) 0 index ip,
      if is_ipv4 then (index + 1) * 8 else (index / 2 + 1) * 16,
    )

-- `getIpv6GroupValue`, and the groups of an IPv6 address.
abbrev pub group_value : ℕ → ℕ → ℕ
group_value high low = high * 256 + low

unfoldable pub ipv6_groups : List ℕ → List ℕ
ipv6_groups [] = []
ipv6_groups (high ∷ []) = []
ipv6_groups (high ∷ low ∷ ip) = group_value high low ∷ ipv6_groups ip

at_least_one : ℕ → ℕ
at_least_one n = if n == 0 then 1 else n

-- `addIpv4Cidr` and `addIpv6Cidr` for one address: `bytes` is how many of its bytes are read, by
-- loops that begin behind the first group, which is always read.
unfoldable pub add_ipv4 : ℕ → List ℕ → Node → Node
unfolding at_least_one
add_ipv4 bytes ip root = add_groups (take (at_least_one bytes) ip) root

unfoldable pub add_ipv6 : ℕ → List ℕ → Node → Node
unfolding at_least_one
add_ipv6 bytes ip root = add_groups (take (at_least_one ((bytes + 1) / 2)) (ipv6_groups ip)) root

-- The loop of `AddIpCidr`.
unfoldable pub add_each : (List ℕ → Node → Node) → List (List ℕ) → Node → Node
add_each add [] root = root
add_each add (sub ∷ subs) root = add_each add subs (add sub root)

add_converted : IpCidrTrie → List ℕ → ℕ → Bool → IpCidrTrie
unfolding sub_ip_cidr add_each
add_converted trie ip mask_size is_ipv4 =
    let (subs, sub_cidr) = sub_ip_cidr ip mask_size is_ipv4 in
    if is_ipv4
    then record trie { ipv4_trie = add_each (add_ipv4 (sub_cidr / 8)) subs trie.ipv4_trie }
    else record trie { ipv6_trie = add_each (add_ipv6 (sub_cidr / 8)) subs trie.ipv6_trie }

-- `AddIpCidr`, which returns no error. `none` stands for the inputs at which the source indexes past
-- the bytes of the address: no address, or a prefix longer than the converted address (of an IPv4
-- address in IPv6 form). With whole bytes the latter returns before that, with nothing changed, if a
-- node on the path is marked.
unfoldable pub add_ip_cidr : IpCidrTrie → IpNet → Option IpCidrTrie
unfolding add_converted
add_ip_cidr trie net = elim (check_and_convert net.ip) [
  | none ↦ none
  | some (ip, is_ipv4) ↦
      if leb net.ones (8 * length ip)
      then some (add_converted trie ip net.ones is_ipv4)
      else if is_ipv4 && ((net.ones % 8 == 0) && search_groups ip trie.ipv4_trie)
      then some trie
      else none
]

-- `IsContain`.
unfoldable pub is_contain : IpCidrTrie → List ℕ → Bool
is_contain trie ip = elim (check_and_convert ip) [
  | none ↦ false
  | some (b, is_ipv4) ↦
      if is_ipv4
      then search_groups b trie.ipv4_trie
      else search_groups (ipv6_groups b) trie.ipv6_trie
]
