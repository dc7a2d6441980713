-- ===== src/CidrTrie/Ranges/Ipv4.antt =====
-- For IPv4 a range is found exactly where the leading bits agree.
use go_warp_scanner.Scanner.Inc.{u8, IsBytes}
use go_warp_scanner.Scanner.Cidr.{IpNet}
use go_warp_scanner.Scanner.Ip.{to4}
use go_warp_scanner.CidrTrie.{Node, add_groups, search_groups}
use go_warp_scanner.CidrTrie.Insert.{starts, AllAtMost, IsUniform, add_groups-IsUniform}
use go_warp_scanner.CidrTrie.Ranges.Prefixes.{any_starts, AreWithin, or-false, search-add_each}
use go_warp_scanner.CidrTrie.Ranges.{
  IpCidrTrie, check_and_convert, sub_loop, sub_ip_cidr, at_least_one, add_ipv4, add_each,
  add_ip_cidr, add_converted, is_contain,
}
use go_warp_scanner.CidrTrie.Ranges.Bits.{bits_agree, IsMasked, subs_agree, take_agree}
use go_warp_scanner.Common.{
  ℕ, zero, suc, ◌+◌, ◌-◌, ◌*◌, ◌/◌, ◌%◌, ◌^◌, ◌≤◌, ◌<◌, ◌≡◌, refl, sym, ap, ◌∙◌, subst, ◌≢◌, inl,
  inr, Bool, true, false, ◌&&◌, ◌||◌, some, List, [], ◌∷◌, map, arith, leb, ◌==◌, Bool-cases,
  length, set, get_or, take, length-set,
}

at_most_255 : (ip : List ℕ) → IsBytes ip → AllAtMost 255 ip
at_most_255 [] h = tt
at_most_255 (x ∷ xs) h = (omega arith, at_most_255 xs h.1)

IsBytes-take : (n : ℕ) (ip : List ℕ) → IsBytes ip → IsBytes (take n ip)
IsBytes-take zero ip h = tt
IsBytes-take (suc n) [] h = tt
IsBytes-take (suc n) (x ∷ xs) h = (h.0, IsBytes-take n xs h.1)

IsBytes-set : (index b : ℕ) (ip : List ℕ) → IsBytes ip → b < 256 → IsBytes (set ip index b)
IsBytes-set index b [] h l = tt
IsBytes-set zero b (x ∷ xs) h l = (l, h.1)
IsBytes-set (suc index) b (x ∷ xs) h l = (h.0, IsBytes-set index b xs h.1 l)

-- A prefix of an address that is not empty.
within-cons :
    (n : ℕ) (sub : List ℕ) (ps : List (List ℕ))
    → 0 < length sub
    → IsBytes sub
    → AreWithin 255 ps
    → AreWithin 255 (take (suc n) sub ∷ ps)
within-cons n [] ps l h w = absurd (omega arith)
within-cons n (x ∷ xs) ps l h w = (at_most_255 (x ∷ take n xs) (h.0, IsBytes-take n xs h.1), w)

sub_loop-within :
    (n rounds i index : ℕ) (ip : List ℕ)
    → 0 < length ip
    → IsBytes ip
    → AreWithin 255 (map (take (suc n)) (sub_loop rounds i index ip))
unfolding sub_loop
sub_loop-within n zero i index ip l h = tt
sub_loop-within n (suc rounds) i index ip l h =
    within-cons n (set ip index (u8 (get_or ip index 0 + i)))
      (map (take (suc n)) (sub_loop rounds (i + 1) index ip))
      (omega (arith, length-set {0} ip index (u8 (get_or ip index 0 + i))))
      (IsBytes-set index (u8 (get_or ip index 0 + i)) ip h (omega arith))
      (sub_loop-within n rounds (i + 1) index ip l h)

-- The IPv4 trie after an insertion.
abbrev after_ipv4 : ℕ → List ℕ → Node → Node
after_ipv4 bits ip root =
    add_each (add_ipv4 ((sub_ip_cidr ip bits true).1 / 8)) ((sub_ip_cidr ip bits true).0) root

search-add_taken :
    (bytes n : ℕ) (subs : List (List ℕ)) (q : List ℕ) (root : Node)
    → at_least_one bytes ≡ suc n
    → AreWithin 255 (map (take (suc n)) subs)
    → IsUniform 255 root
    → search_groups q (add_each (add_ipv4 bytes) subs root)
      ≡ search_groups q root || any_starts (map (take (suc n)) subs) q
unfolding add_ipv4
search-add_taken bytes n subs q root e w u =
    subst
      (λ (k : ℕ).
        search_groups q (add_each (λ sub. add_groups (take k sub)) subs root)
        ≡ search_groups q root || any_starts (map (take (suc n)) subs) q)
      (sym e) (search-add_each 255 (take (suc n)) subs q root w u)

module _ (bits : ℕ) (ip q : List ℕ) (root : Node) where
  search-after_ipv4 :
      IsBytes ip
      → IsBytes q
      → IsMasked bits ip
      → length q ≡ length ip
      → 1 ≤ bits
      → bits ≤ 8 * length ip
      → IsUniform 255 root
      → search_groups q (after_ipv4 bits ip root) ≡ search_groups q root || bits_agree bits ip q
  unfolding sub_ip_cidr at_least_one
  search-after_ipv4 hi hq m len p b u = elim (Bool-cases (bits % 8 == 0)) [
    | inl whole ↦
        let n : bits / 8 ≡ suc (bits / 8 - 1) = ground arith in
        let e : bits ≡ 8 * suc (bits / 8 - 1) = ground arith in
        let count : at_least_one (bits / 8) ≡ suc (bits / 8 - 1) = ground arith in
        let l : 0 < length ip = omega arith in
        rw whole (
          search-add_taken (bits / 8) (bits / 8 - 1) (ip ∷ []) q root count
            (within-cons (bits / 8 - 1) ip [] l hi tt) u
          ∙ ap (λ t. search_groups q root || t)
              (or-false (starts (take (suc (bits / 8 - 1)) ip) q)
                ∙ take_agree (suc (bits / 8 - 1)) ip q hi hq len (omega arith)
                ∙ ap (λ (k : ℕ). bits_agree k ip q) (sym e)))
    | inr part ↦
        let e : (bits / 8 + 1) * 8 / 8 ≡ suc (bits / 8) = omega arith in
        let l : 0 < length ip = omega arith in
        let r : bits % 8 ≢ 0 = λ z. ground arith in
        rw (part, e)
          (search-add_taken (suc (bits / 8)) (bits / 8)
              (sub_loop (255 / 2 ^ (bits % 8) + 1) 0 (bits / 8) ip) q root (ground arith)
              (sub_loop-within (bits / 8) (255 / 2 ^ (bits % 8) + 1) 0 (bits / 8) ip l hi) u
            ∙ ap (λ t. search_groups q root || t) (subs_agree bits ip q hi m len r b))
  ]

add_each-IsUniform :
    (bytes : ℕ) (subs : List (List ℕ)) (root : Node)
    → IsUniform 255 root
    → IsUniform 255 (add_each (add_ipv4 bytes) subs root)
unfolding add_each add_ipv4
add_each-IsUniform bytes [] root u = u
add_each-IsUniform bytes (sub ∷ subs) root u =
    add_each-IsUniform bytes subs (add_ipv4 bytes sub root)
      (add_groups-IsUniform (take (at_least_one bytes) sub) root u)

check_and_convert-four : (ip : List ℕ) → length ip ≡ 4 → check_and_convert ip ≡ some (ip, true)
unfolding check_and_convert to4
check_and_convert-four ip l = rw (four, check_and_convert)
  where
    four : to4 ip ≡ some ip
    four = rw l

-- To a trie whose IPv4 nodes share the bound of a byte, `AddIpCidr` adds an IPv4 network with a
-- prefix that is not empty and no host bits: the IPv4 addresses that `IsContain` accepts after it are
-- those that it accepted before and those whose leading bits are the network's, and no other; the
-- nodes still share the bound.
pub is_contain-add_ipv4 :
    (trie : IpCidrTrie) (net : IpNet) (q : List ℕ)
    → IsUniform 255 trie.ipv4_trie
    → IsBytes net.ip
    → length net.ip ≡ 4
    → IsMasked net.ones net.ip
    → 1 ≤ net.ones
    → net.ones ≤ 32
    → IsBytes q
    → length q ≡ 4
    → (trie' : IpCidrTrie) × (add_ip_cidr trie net ≡ some trie')
      × (is_contain trie' q ≡ is_contain trie q || bits_agree net.ones net.ip q)
      × IsUniform 255 trie'.ipv4_trie
unfolding add_ip_cidr is_contain
is_contain-add_ipv4 trie net q u hn ln m p b hq lq =
    let fits : leb net.ones (8 * length net.ip) ≡ true = ground arith in
    (
      add_converted trie net.ip net.ones true,
      rw (check_and_convert-four net.ip ln, add_ip_cidr) (rw fits),
      rw (check_and_convert-four q lq, is_contain)
          (search-after_ipv4 net.ones net.ip q trie.ipv4_trie hn hq m (omega arith) p (omega arith)
            u),
      add_each-IsUniform ((sub_ip_cidr net.ip net.ones true).1 / 8)
          ((sub_ip_cidr net.ip net.ones true).0) trie.ipv4_trie u,
    )

-- The network of the empty prefix adds only the addresses that share its first byte, where every
-- address should be added.
pub is_contain-add_ipv4_everything :
    (trie : IpCidrTrie) (x y : ℕ) (xs ys : List ℕ)
    → IsUniform 255 trie.ipv4_trie
    → IsBytes (x ∷ xs)
    → length (x ∷ xs) ≡ 4
    → length (y ∷ ys) ≡ 4
    → (trie' : IpCidrTrie) × (add_ip_cidr trie (record { ip = x ∷ xs; ones = 0 }) ≡ some trie')
      × (is_contain trie' (y ∷ ys) ≡ is_contain trie (y ∷ ys) || (y == x))
unfolding add_ip_cidr is_contain sub_ip_cidr at_least_one
is_contain-add_ipv4_everything trie x y xs ys u hn ln lq = (
  add_converted trie (x ∷ xs) 0 true,
  rw (check_and_convert-four (x ∷ xs) ln, add_ip_cidr) (ground arith),
  rw (check_and_convert-four (y ∷ ys) lq, is_contain)
      (search-add_taken 0 0 ((x ∷ xs) ∷ []) (y ∷ ys) trie.ipv4_trie refl
          (within-cons 0 (x ∷ xs) [] (omega arith) hn tt) u
        ∙ ap (λ t. search_groups (y ∷ ys) trie.ipv4_trie || t)
            (or-false ((y == x) && true) ∙ and-true (y == x))),
)
  where
    and-true : (b : Bool) → b && true ≡ b
    and-true true = refl
    and-true false = refl
