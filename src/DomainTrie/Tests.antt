-- ===== src/DomainTrie/Tests.antt =====
-- The theorems on the domain trie at a trie of a few patterns.
use go_warp_scanner.Common.Text.{Text, codes, split, to_lower, lower_byte}
use go_warp_scanner.DomainTrie.{
  Node, new_node, node, child_map, no_child, one_child, cons, nil, data_of, is_empty, any_empty,
  ends_in_dot, valid_parts, search_path, valid_and_split_domain, insert, search, optimize,
  get_child, lookup,
}
use go_warp_scanner.DomainTrie.Insert.{data_at}
use go_warp_scanner.DomainTrie.Search.{best, search_path-best}
use go_warp_scanner.DomainTrie.Patterns.{pattern_matches, search-insert}
use go_warp_scanner.DomainTrie.Optimize.{search_path-optimize}
use go_warp_scanner.Common.{ℕ, ◌≡◌, refl, not, ◌&&◌, none, some, List, [], ◌∷◌, reverse}

abbrev top : Text
top = codes "com"

abbrev example : Text
example = codes "example"

abbrev small : Node ℕ
small =
    node (child_map (cons top (node (one_child example (node no_child (some 7))) none) nil)) none

abbrev plus_example : Text × List Text
plus_example = (codes "+", example ∷ top ∷ [])

abbrev www_example : Text × List Text
www_example = (codes "www", example ∷ top ∷ [])

search-insert_example :
    (root' : Node ℕ) × (insert (codes "+.Example.com") 5 new_node ≡ some root')
    × (is_empty (search (codes "www.example.COM") root')
        ≡ is_empty {A = ℕ} (search (codes "www.example.COM") new_node)
          && not (pattern_matches plus_example (reverse (codes "www" ∷ example ∷ top ∷ []))))
unfolding valid_and_split_domain valid_parts ends_in_dot any_empty to_lower lower_byte split
search-insert_example =
    search-insert (codes "+.Example.com") (codes "www.example.COM") plus_example www_example 5
      new_node refl refl refl

search_path-best_example :
    data_of (search_path (top ∷ example ∷ []) small)
    ≡ best (top ∷ example ∷ []) (λ q. data_at q small)
search_path-best_example = search_path-best (top ∷ example ∷ []) small

search_path-optimize_example :
    (data_of (search_path (top ∷ example ∷ []) (optimize small))
      ≡ data_of (search_path (top ∷ example ∷ []) small))
    × (data_at (top ∷ example ∷ []) (optimize small) ≡ data_at (top ∷ example ∷ []) small)
search_path-optimize_example = search_path-optimize (top ∷ example ∷ []) small

-- The search for a host in the trie.
small_found : data_of (search_path (top ∷ example ∷ []) small) ≡ some 7
unfolding search_path get_child lookup
small_found = refl
