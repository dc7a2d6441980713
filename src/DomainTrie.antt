-- ===== src/DomainTrie.antt =====
-- component/trie/domain.go and node.go: a trie of domain patterns, over the labels from the last one.
pub mod Insert
pub mod Search
pub mod Patterns
pub mod Optimize
mod Tests
use go_warp_scanner.Common.Text.{Text, codes, text_eq, split, to_lower}
use go_warp_scanner.Common.{
  ◌+◌, ◌*◌, Bool, true, false, not, ◌||◌, Option, none, some, List, [], ◌∷◌, reverse, ◌==◌,
  if◌then◌else◌, length,
}

-- `Node`: with no child, with `childStr` and `childNode`, or with `childMap`, an association list. A
-- node with data is one that is `inited`.
mutual
  pub data Node {ℓ} (A : Type ℓ) : Type ℓ where
    node : (child : Children A) → (content : Option A) → Node A

  pub data Children {ℓ} (A : Type ℓ) : Type ℓ where
    no_child : Children A
    one_child : (child_str : Text) → (child_node : Node A) → Children A
    child_map : ChildMap A → Children A

  pub data ChildMap {ℓ} (A : Type ℓ) : Type ℓ where
    nil : ChildMap A
    cons : Text → Node A → ChildMap A → ChildMap A

abbrev pub wildcard : Text
wildcard = codes "*"

abbrev pub dot_wildcard : Text
dot_wildcard = []

abbrev pub complex_wildcard : Text
complex_wildcard = codes "+"

module _ {ℓ} {A : Type ℓ} where
  abbrev pub new_node : Node A
  new_node = node no_child none

  abbrev pub data_of : Option (Node A) → Option A
  data_of none = none
  data_of (some (node child content)) = content

  -- `isEmpty`, also of a missing node.
  abbrev pub is_empty : Option (Node A) → Bool
  is_empty none = true
  is_empty (some (node child none)) = true
  is_empty (some (node child (some a))) = false

  unfoldable pub lookup : Text → ChildMap A → Option (Node A)
  lookup s nil = none
  lookup s (cons t n rest) = if text_eq t s then some n else lookup s rest

  -- `childMap[s] = child`.
  unfoldable pub store : Text → Node A → ChildMap A → ChildMap A
  store s child nil = cons s child nil
  store s child (cons t n rest) =
      if text_eq t s then cons t child rest else cons t n (store s child rest)

  unfoldable pub get_child : Text → Node A → Option (Node A)
  get_child s (node no_child content) = none
  get_child s (node (one_child t n) content) = if text_eq t s then some n else none
  get_child s (node (child_map m) content) = lookup s m

  -- The children after `addChild`, or after a child that is there has been changed in place.
  put_child : Text → Node A → Children A → Children A
  unfolding store
  put_child s child no_child = one_child s child
  put_child s child (one_child t n) =
      if text_eq t s then one_child t child else child_map (store s child (cons t n nil))
  put_child s child (child_map m) = child_map (store s child m)

  -- `getOrNewChild`.
  get_or_new_child : Text → Node A → Node A
  unfolding get_child
  get_or_new_child s n = elim (get_child s n) [ none ↦ new_node | some c ↦ c ]

  set_data : A → Node A → Node A
  set_data a (node child content) = node child (some a)

  set_child : Text → Node A → Node A → Node A
  unfolding put_child
  set_child s c (node child content) = node (put_child s c child) content

  -- The loop of `insert` from a node on, over the labels from the last one.
  unfoldable pub insert_path : List Text → A → Node A → Node A
  unfolding get_or_new_child set_data set_child
  insert_path [] a n = set_data a n
  insert_path (part ∷ parts) a n = set_child part (insert_path parts a (get_or_new_child part n)) n

  -- The method `search`, over the labels from the last one.
  unfoldable pub search_path : List Text → Node A → Option (Node A)
  search_path [] n = some n
  search_path (part ∷ parts) n =
      let exact : Option (Node A) = elim (get_child part n) [
        | none ↦ none
        | some c ↦ search_path parts c
      ] in
      let wild : Option (Node A) = elim (get_child wildcard n) [
        | none ↦ none
        | some c ↦ search_path parts c
      ] in
      if not (is_empty exact)
      then exact
      else if not (is_empty wild)
      then wild
      else get_child dot_wildcard n

-- Whether a label is empty.
any_empty : List Text → Bool
any_empty [] = false
any_empty (part ∷ parts) = (length part == 0) || any_empty parts

ends_in_dot : Text → Bool
ends_in_dot [] = false
ends_in_dot (c ∷ []) = c == b'.'
ends_in_dot (c ∷ d ∷ s) = ends_in_dot (d ∷ s)

-- The labels with the guards of `ValidAndSplitDomain`.
valid_parts : List Text → Option (Text × List Text)
unfolding any_empty
valid_parts [] = none
valid_parts (part ∷ []) = if length part == 0 then none else some (part, [])
valid_parts (part ∷ q ∷ parts) = if any_empty (q ∷ parts) then none else some (part, q ∷ parts)

-- `ValidAndSplitDomain`: the first label and the others.
unfoldable pub valid_and_split_domain : Text → Option (Text × List Text)
unfolding valid_parts ends_in_dot
valid_and_split_domain domain =
    if ends_in_dot domain then none else valid_parts (split b'.' (to_lower domain))

module _ {ℓ} {A : Type ℓ} where
  -- The method `insert`.
  insert_parts : List Text → A → Node A → Node A
  unfolding insert_path
  insert_parts parts a root = insert_path (reverse parts) a root

  insert_valid : Text × List Text → A → Node A → Node A
  unfolding insert_parts
  insert_valid (first, parts) a root =
      if text_eq first complex_wildcard
      then insert_parts (dot_wildcard ∷ parts) a (insert_parts parts a root)
      else insert_parts (first ∷ parts) a root

  -- `Insert` on the root; `none` is its error.
  unfoldable pub insert : Text → A → Node A → Option (Node A)
  unfolding insert_valid
  insert domain a root = elim (valid_and_split_domain domain) [
    | none ↦ none
    | some parts ↦ some (insert_valid parts a root)
  ]

  -- `Search` on the root.
  search_valid : Text × List Text → Node A → Option (Node A)
  unfolding search_path
  search_valid (first, parts) root =
      let n = search_path (reverse (first ∷ parts)) root in
      if length first == 0 then none else if is_empty n then none else n

  unfoldable pub search : Text → Node A → Option (Node A)
  unfolding search_valid
  search domain root = elim (valid_and_split_domain domain) [
    | none ↦ none
    | some parts ↦ search_valid parts root
  ]

  -- `optimize`: a map of one child becomes the child.
  unfoldable mutual
    pub optimize : Node A → Node A
    optimize (node no_child content) = node no_child content
    optimize (node (one_child s n) content) = node (one_child s (optimize n)) content
    optimize (node (child_map nil) content) = node no_child content
    optimize (node (child_map (cons s n nil)) content) = node (one_child s (optimize n)) content
    optimize (node (child_map (cons s n (cons t m rest))) content) =
        node (child_map (cons s (optimize n) (cons t (optimize m) (optimize_map rest)))) content

    pub optimize_map : ChildMap A → ChildMap A
    optimize_map nil = nil
    optimize_map (cons s n rest) = cons s (optimize n) (optimize_map rest)
