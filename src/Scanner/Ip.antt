-- ===== src/Scanner/Ip.antt =====
-- The 4 and the 16 bytes of an IPv4 address in a `net.IP`, which wg-ping.go and ipcidr_trie.go rely on.
use go_warp_scanner.Common.{
  ℕ, Bool, true, ◌&&◌, Option, none, some, List, [], ◌∷◌, ◌==◌, if◌then◌else◌, length, take, drop,
}

unfoldable pub all_equal : ℕ → List ℕ → Bool
all_equal v [] = true
all_equal v (x ∷ xs) = (x == v) && all_equal v xs

-- The first twelve bytes of an IPv4 address in IPv6 form.
unfoldable pub is_mapped : List ℕ → Bool
unfolding all_equal
is_mapped ip = all_equal 0 (take 10 ip) && all_equal 255 (take 2 (drop 10 ip))

-- `IP.To4`.
unfoldable pub to4 : List ℕ → Option (List ℕ)
unfolding is_mapped
to4 ip =
    if length ip == 4
    then some ip
    else if (length ip == 16) && is_mapped ip
    then some (drop 12 ip)
    else none
