-- ===== src/CidrTrie/Tests.antt =====
-- Runs of the trie, and its theorems at concrete values.
use go_warp_scanner.Scanner.Cidr.{IpNet}
use go_warp_scanner.CidrTrie.{new_node, search_groups}
use go_warp_scanner.CidrTrie.Insert.{IsUniform, uniform, nil_uniform}
use go_warp_scanner.CidrTrie.Ranges.{IpCidrTrie, new_trie, add_ip_cidr, is_contain, ipv6_groups}
use go_warp_scanner.CidrTrie.Ranges.Bits.{bits_agree}
use go_warp_scanner.CidrTrie.Ranges.Ipv4.{is_contain-add_ipv4, is_contain-add_ipv4_everything}
use go_warp_scanner.CidrTrie.Ranges.Ipv6.{after_ipv6, search-after_ipv6_gap}
use go_warp_scanner.Common.{ℕ, ◌≡◌, refl, false, ◌||◌, some, List, [], ◌∷◌, arith, ◌==◌, replicate}

abbrev private_net : IpNet
private_net = record { ip = 172 ∷ 16 ∷ 0 ∷ 0 ∷ []; ones = 12 }

abbrev private_address : List ℕ
private_address = 172 ∷ 31 ∷ 255 ∷ 1 ∷ []

is_contain-add_ipv4_example :
    (trie' : IpCidrTrie) × (add_ip_cidr new_trie private_net ≡ some trie')
    × (is_contain trie' private_address
        ≡ is_contain new_trie private_address || bits_agree 12 (private_net.ip) private_address)
    × IsUniform 255 trie'.ipv4_trie
is_contain-add_ipv4_example =
    is_contain-add_ipv4 new_trie private_net private_address (uniform refl nil_uniform)
      (omega arith) refl (refl, (refl, (refl, (refl, tt)))) (omega arith) (omega arith)
      (omega arith) refl

is_contain-add_ipv4_everything_example :
    (trie' : IpCidrTrie) × (add_ip_cidr new_trie (record { ip = 0 ∷ 0 ∷ 0 ∷ 0 ∷ []; ones = 0 })
      ≡ some trie')
    × (is_contain trie' (8 ∷ 8 ∷ 8 ∷ 8 ∷ []) ≡ is_contain new_trie (8 ∷ 8 ∷ 8 ∷ 8 ∷ []) || (8 == 0))
is_contain-add_ipv4_everything_example =
    is_contain-add_ipv4_everything new_trie 0 8 (0 ∷ 0 ∷ 0 ∷ []) (8 ∷ 8 ∷ 8 ∷ [])
      (uniform refl nil_uniform) (omega arith) refl refl

-- `2000::/3` and an address inside it.
abbrev global_unicast : List ℕ
global_unicast = 32 ∷ replicate 15 0

abbrev global_address : List ℕ
global_address = 32 ∷ 1 ∷ replicate 14 0

search-after_ipv6_gap_example :
    search_groups (ipv6_groups global_address) (after_ipv6 3 global_unicast (new_node false 65535))
    ≡ search_groups (ipv6_groups global_address) (new_node false 65535)
search-after_ipv6_gap_example =
    search-after_ipv6_gap 0 3 3 global_unicast global_address (new_node false 65535) refl
      (omega arith) (omega arith) (omega arith) (omega arith) (omega arith) (omega arith)
      (uniform refl nil_uniform) (omega arith)
