-- ===== src/CidrTrie/Ranges/Ipv6.antt =====
-- For IPv6 a prefix that ends in the first byte of a group misses most of its range.
use go_warp_scanner.Scanner.Inc.{u8, IsBytes}
use go_warp_scanner.CidrTrie.{Node, add_groups, search_groups}
use go_warp_scanner.CidrTrie.Insert.{starts, AllAtMost, IsUniform}
use go_warp_scanner.CidrTrie.Ranges.Prefixes.{any_starts, AreWithin, or-false, search-add_each}
use go_warp_scanner.CidrTrie.Ranges.{
  sub_loop, sub_ip_cidr, group_value, ipv6_groups, at_least_one, add_ipv6, add_each,
}
use go_warp_scanner.Common.{
  ℕ, zero, suc, ◌+◌, ◌*◌, ◌/◌, ◌%◌, ◌^◌, ◌≤◌, ◌<◌, ◌≡◌, refl, sym, ap, ◌∙◌, subst, ◌≢◌, Bool, true,
  false, ◌&&◌, ◌||◌, List, [], ◌∷◌, map, arith, ◌==◌, length, set, get_or, take, length-set,
}

-- The second byte of group `k` differs.
abbrev pub SecondByteDiffers : ℕ → List ℕ → List ℕ → Type 0
SecondByteDiffers k ip q = get_or q (2 * k + 1) 0 ≢ get_or ip (2 * k + 1) 0

group_apart :
    (a b c d : ℕ) → b < 256 → d < 256 → d ≢ b → (group_value c d == group_value a b) ≡ false
group_apart a b c d hb hd ne = ground arith

-- A prefix through group `k`, whose first byte may be any, does not begin an address that has
-- another second byte there.
starts-differs :
    (k v : ℕ) (ip q : List ℕ)
    → IsBytes ip
    → IsBytes q
    → 2 * k + 1 < length ip
    → 2 * k + 1 < length q
    → SecondByteDiffers k ip q
    → starts (take (suc k) (ipv6_groups (set ip (2 * k) v))) (ipv6_groups q) ≡ false
unfolding ipv6_groups
starts-differs k v [] q hi hq li lq ne = absurd (omega arith)
starts-differs k v (a ∷ []) q hi hq li lq ne = absurd (omega arith)
starts-differs k v (a ∷ b ∷ ip) [] hi hq li lq ne = absurd (omega arith)
starts-differs k v (a ∷ b ∷ ip) (c ∷ []) hi hq li lq ne = absurd (omega arith)
starts-differs zero v (a ∷ b ∷ ip) (c ∷ d ∷ q) hi hq li lq ne =
    rw (group_apart v b c d hi.1.0 hq.1.0 ne)
starts-differs (suc k) v (a ∷ b ∷ ip) (c ∷ d ∷ q) hi hq li lq ne =
    let e : 2 * suc k ≡ suc (suc (2 * k)) = omega arith in
    let e' : 2 * suc k + 1 ≡ suc (suc (2 * k + 1)) = omega arith in
    let ne' : SecondByteDiffers (suc k) (a ∷ b ∷ ip) (c ∷ d ∷ q) = ne in
    rw e (
      rw (starts-differs k v ip q hi.1.1 hq.1.1 (omega arith) (omega arith) (rw e' at ne'))
        (and-false (group_value c d == group_value a b)))
  where
    and-false : (b : Bool) → b && false ≡ false
    and-false true = refl
    and-false false = refl

none_starts :
    (rounds i k : ℕ) (ip q : List ℕ)
    → IsBytes ip
    → IsBytes q
    → 2 * k + 1 < length ip
    → 2 * k + 1 < length q
    → SecondByteDiffers k ip q
    → any_starts
        (map (λ sub. take (suc k) (ipv6_groups sub)) (sub_loop rounds i (2 * k) ip))
        (ipv6_groups q)
      ≡ false
unfolding sub_loop
none_starts zero i k ip q hi hq li lq ne = refl
none_starts (suc rounds) i k ip q hi hq li lq ne =
    rw (starts-differs k (u8 (get_or ip (2 * k) 0 + i)) ip q hi hq li lq ne)
      (none_starts rounds (i + 1) k ip q hi hq li lq ne)

groups_within : (ip : List ℕ) → IsBytes ip → AllAtMost 0xffff (ipv6_groups ip)
unfolding ipv6_groups
groups_within [] h = tt
groups_within (a ∷ []) h = tt
groups_within (a ∷ b ∷ ip) h = (omega (arith, h.0, h.1.0), groups_within ip h.1.1)

AllAtMost-take : (m n : ℕ) (gs : List ℕ) → AllAtMost m gs → AllAtMost m (take n gs)
AllAtMost-take m zero gs h = tt
AllAtMost-take m (suc n) [] h = tt
AllAtMost-take m (suc n) (g ∷ gs) h = (h.0, AllAtMost-take m n gs h.1)

IsBytes-set : (index b : ℕ) (ip : List ℕ) → IsBytes ip → b < 256 → IsBytes (set ip index b)
IsBytes-set index b [] h l = tt
IsBytes-set zero b (x ∷ xs) h l = (l, h.1)
IsBytes-set (suc index) b (x ∷ xs) h l = (h.0, IsBytes-set index b xs h.1 l)

within-cons :
    (k : ℕ) (sub : List ℕ) (ps : List (List ℕ))
    → 1 < length sub
    → IsBytes sub
    → AreWithin 0xffff ps
    → AreWithin 0xffff (take (suc k) (ipv6_groups sub) ∷ ps)
unfolding ipv6_groups
within-cons k [] ps l h w = absurd (omega arith)
within-cons k (a ∷ []) ps l h w = absurd (omega arith)
within-cons k (a ∷ b ∷ sub) ps l h w = (
  (omega (arith, h.0, h.1.0), AllAtMost-take 0xffff k (ipv6_groups sub) (groups_within sub h.1.1)),
  w,
)

sub_loop-within :
    (rounds i index k : ℕ) (ip : List ℕ)
    → 1 < length ip
    → IsBytes ip
    → AreWithin 0xffff (map (λ sub. take (suc k) (ipv6_groups sub)) (sub_loop rounds i index ip))
unfolding sub_loop
sub_loop-within zero i index k ip l h = tt
sub_loop-within (suc rounds) i index k ip l h =
    within-cons k (set ip index (u8 (get_or ip index 0 + i)))
      (map (λ sub. take (suc k) (ipv6_groups sub)) (sub_loop rounds (i + 1) index ip))
      (omega (arith, length-set {0} ip index (u8 (get_or ip index 0 + i))))
      (IsBytes-set index (u8 (get_or ip index 0 + i)) ip h (omega arith))
      (sub_loop-within rounds (i + 1) index k ip l h)

search-add_taken :
    (bytes k : ℕ) (subs : List (List ℕ)) (q : List ℕ) (root : Node)
    → at_least_one ((bytes + 1) / 2) ≡ suc k
    → AreWithin 0xffff (map (λ sub. take (suc k) (ipv6_groups sub)) subs)
    → IsUniform 0xffff root
    → search_groups q (add_each (add_ipv6 bytes) subs root)
      ≡ search_groups q root || any_starts (map (λ sub. take (suc k) (ipv6_groups sub)) subs) q
unfolding add_ipv6
search-add_taken bytes k subs q root e w u =
    subst
      (λ (n : ℕ).
        search_groups q (add_each (λ sub. add_groups (take n (ipv6_groups sub))) subs root)
        ≡ search_groups q root || any_starts (map (λ sub. take (suc k) (ipv6_groups sub)) subs) q)
      (sym e) (search-add_each 0xffff (λ sub. take (suc k) (ipv6_groups sub)) subs q root w u)

-- The IPv6 trie after an insertion.
abbrev pub after_ipv6 : ℕ → List ℕ → Node → Node
after_ipv6 bits ip root =
    add_each (add_ipv6 ((sub_ip_cidr ip bits false).1 / 8)) ((sub_ip_cidr ip bits false).0) root

-- Where an IPv6 prefix ends inside the first byte of a 16-bit group, so that the second byte of the
-- group is free, its insertion finds no address whose second byte there is not the network's: the
-- search answers as before for each of these, also where the address lies in the range.
pub search-after_ipv6_gap :
    (k r bits : ℕ) (ip q : List ℕ) (root : Node)
    → bits ≡ 16 * k + r
    → 1 ≤ r
    → r < 8
    → IsBytes ip
    → IsBytes q
    → 2 * k + 1 < length ip
    → 2 * k + 1 < length q
    → IsUniform 0xffff root
    → SecondByteDiffers k ip q
    → search_groups (ipv6_groups q) (after_ipv6 bits ip root) ≡ search_groups (ipv6_groups q) root
unfolding sub_ip_cidr at_least_one
search-after_ipv6_gap k r bits ip q root e lo hi hip hq li lq u ne =
    let part : (bits % 16 == 0) ≡ false = ground arith in
    let index : bits / 8 ≡ 2 * k = omega arith in
    let groups : ((2 * k / 2 + 1) * 16 / 8 + 1) / 2 ≡ suc k = omega arith in
    let bytes : at_least_one (((2 * k / 2 + 1) * 16 / 8 + 1) / 2) ≡ suc k = ground arith in
    rw (part, index)
      (search-add_taken ((2 * k / 2 + 1) * 16 / 8) k
          (sub_loop (255 / 2 ^ (bits % 8) + 1) 0 (2 * k) ip) (ipv6_groups q) root bytes
          (sub_loop-within (255 / 2 ^ (bits % 8) + 1) 0 (2 * k) k ip (omega arith) hip) u
        ∙ ap (λ t. search_groups (ipv6_groups q) root || t)
            (none_starts (255 / 2 ^ (bits % 8) + 1) 0 k ip q hip hq li lq ne)
        ∙ or-false (search_groups (ipv6_groups q) root))
