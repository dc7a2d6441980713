-- ===== src/CidrTrie.antt =====
-- component/trie/ipcidr_node.go and ipcidr_trie.go: a trie over the bytes of IPv4 addresses and the
-- 16-bit groups of IPv6 addresses.
pub mod Insert
pub mod Ranges
mod Tests
use go_warp_scanner.Common.{
  ℕ, zero, suc, ◌+◌, Bool, true, false, ◌||◌, Option, none, some, List, [], ◌∷◌, ltb, leb, ◌==◌,
  if◌then◌else◌,
}

-- `IpCidrNode`; the map of its children is an association list.
mutual
  pub data Node : Type 0 where
    node : (mark : Bool) → (child : Children) → (max_value : ℕ) → Node

  pub data Children : Type 0 where
    nil : Children
    cons : ℕ → Node → Children → Children

-- `NewIpCidrNode`.
abbrev pub new_node : Bool → ℕ → Node
new_node mark max_value = node mark nil max_value

abbrev pub marked : Node → Bool
marked (node mark child max_value) = mark

abbrev pub max_of : Node → ℕ
max_of (node mark child max_value) = max_value

unfoldable pub lookup : ℕ → Children → Option Node
lookup v nil = none
lookup v (cons w n rest) = if v == w then some n else lookup v rest

-- `child[v] = n`.
unfoldable pub store : ℕ → Node → Children → Children
store v n nil = cons v n nil
store v n (cons w m rest) = if v == w then cons v n rest else cons w m (store v n rest)

-- `delete(child, v)`.
delete : ℕ → Children → Children
delete v nil = nil
delete v (cons w m rest) = if v == w then delete v rest else cons w m (delete v rest)

count : Children → ℕ
count nil = 0
count (cons w m rest) = suc (count rest)

unfoldable pub get_child : ℕ → Node → Option Node
get_child v (node mark child max_value) = if leb v max_value then lookup v child else none

unfoldable pub set_child : ℕ → Node → Node → Node
set_child v n (node mark child max_value) = node mark (store v n child) max_value

-- The child at `v`, made where it is missing; the caller has checked the bound of `addChild`.
get_or_add : ℕ → Node → Node
unfolding get_child
get_or_add v n = elim (get_child v n) [ none ↦ new_node false (max_of n) | some c ↦ c ]

-- `cleanChild`: the loop tests its counter against the shrinking size of the map. Its rounds are at
-- most as many as the map has entries.
clean_loop : ℕ → ℕ → Children → Children
unfolding delete count
clean_loop zero i child = child
clean_loop (suc fuel) i child =
    let rest = clean_loop fuel (i + 1) (delete i child) in
    if ltb i (count child) then rest else child

clean_child : Node → Node
unfolding clean_loop
clean_child (node mark child max_value) = node mark (clean_loop (count child) 0 child) max_value

set_mark : Node → Node
set_mark (node mark child max_value) = node true child max_value

-- The loop of `addIpv4Cidr` and `addIpv6Cidr` from a node on, with the group before and the groups
-- that follow. A group above the bound falls back on a new child at the group before.
insert_path : ℕ → List ℕ → Node → Node
unfolding get_or_add clean_child set_mark set_child
insert_path before [] n = clean_child (set_mark n)
insert_path before (g ∷ gs) n =
    let below = set_child g (insert_path g gs (get_or_add g n)) n in
    let fallback = set_child before (insert_path g gs (new_node false (max_of n))) n in
    if marked n
    then n
    else if leb g (max_of n)
    then below
    else if leb before (max_of n)
    then fallback
    else n

-- `addIpv4Cidr` and `addIpv6Cidr`, on the groups of the address that the prefix covers, from the first.
unfoldable pub add_groups : List ℕ → Node → Node
unfolding insert_path
add_groups [] root = root
add_groups (g ∷ gs) root =
    if leb g (max_of root) then set_child g (insert_path g gs (get_or_add g root)) root else root

-- `search`: whether it returns a node. The source calls it with one group or more.
search_from : List ℕ → Node → Bool
search_from [] n = false
search_from (v ∷ vs) n = elim (get_child v n) [
  | none ↦ false
  | some c ↦ marked c || search_from vs c
]

unfoldable pub search_groups : List ℕ → Node → Bool
unfolding search_from
search_groups groups root = search_from groups root
