-- ===== src/DomainTrie/Search.antt =====
-- The search against a reference on the finite map, and what an insertion adds to it.
use go_warp_scanner.Common.Text.{Text}
use go_warp_scanner.DomainTrie.{
  Node, node, wildcard, dot_wildcard, data_of, is_empty, get_child, search_path,
}
use go_warp_scanner.DomainTrie.Insert.{data_in, data_at, data_in-none}
use go_warp_scanner.Common.{
  ◌≡◌, refl, sym, ap, ◌∙◌, not, Option, none, some, List, [], ◌∷◌, if◌then◌else◌,
}

-- The first result of three.
abbrev pub or_else {ℓ} : {A : Type ℓ} → Option A → Option A → Option A
or_else none b = b
or_else (some a) b = some a

module _ {ℓ} {A : Type ℓ} where
  -- The priorities of the search on a map from patterns: a label as it stands, then the wildcard for
  -- one label, then the wildcard for all that is left.
  abbrev pub best : List Text → (List Text → Option A) → Option A
  best [] f = f []
  best (d ∷ ds) f =
      or_else (best ds (λ q. f (d ∷ q)))
        (or_else (best ds (λ q. f (wildcard ∷ q))) (f (dot_wildcard ∷ [])))

  best_missing :
      (ds : List Text) (f : List Text → Option A)
      → ((q : List Text) → f q ≡ none)
      → best ds f ≡ none
  best_missing [] f h = h []
  best_missing (d ∷ ds) f h =
      rw (best_missing ds (λ q. f (d ∷ q)) (λ q. h (d ∷ q))) (
        rw (best_missing ds (λ q. f (wildcard ∷ q)) (λ q. h (wildcard ∷ q)))
          (h (dot_wildcard ∷ [])))

  -- The search from a node that may be missing.
  search_in : List Text → Option (Node A) → Option (Node A)
  search_in ds none = none
  search_in ds (some n) = search_path ds n

  data_of-or :
      (a b c : Option (Node A))
      → data_of (if not (is_empty a) then a else if not (is_empty b) then b else c)
        ≡ or_else (data_of a) (or_else (data_of b) (data_of c))
  data_of-or none none c = refl
  data_of-or none (some (node child none)) c = refl
  data_of-or none (some (node child (some x))) c = refl
  data_of-or (some (node child none)) none c = refl
  data_of-or (some (node child none)) (some (node child' none)) c = refl
  data_of-or (some (node child none)) (some (node child' (some x))) c = refl
  data_of-or (some (node child (some x))) b c = refl

  search_path-cons :
      (d : Text) (ds : List Text) (n : Node A)
      → search_path (d ∷ ds) n ≡ (
          if not (is_empty (search_in ds (get_child d n)))
          then search_in ds (get_child d n)
          else if not (is_empty (search_in ds (get_child wildcard n)))
          then search_in ds (get_child wildcard n)
          else get_child dot_wildcard n)
  unfolding search_path search_in
  search_path-cons d ds n = by_child (get_child d n) (get_child wildcard n)
    where
      by_child :
          (o w : Option (Node A))
          → (let exact : Option (Node A) = elim o [ none ↦ none | some c ↦ search_path ds c ] in
              let wild : Option (Node A) = elim w [ none ↦ none | some c ↦ search_path ds c ] in
              if not (is_empty exact)
              then exact
              else if not (is_empty wild)
              then wild
              else get_child dot_wildcard n)
            ≡ (if not (is_empty (search_in ds o))
                then search_in ds o
                else if not (is_empty (search_in ds w))
                then search_in ds w
                else get_child dot_wildcard n)
      by_child none none = refl
      by_child none (some c) = refl
      by_child (some c) none = refl
      by_child (some c) (some c') = refl

  search_in-best :
      (ds : List Text) (o : Option (Node A)) → data_of (search_in ds o) ≡ best ds (λ q. data_in q o)
  unfolding search_in
  search_in-best [] none = refl
  search_in-best [] (some n) = ap data_of (search_path-nil n)
    where
      search_path-nil : (m : Node A) → search_path [] m ≡ some m
      search_path-nil m = unfold search_path in refl
  search_in-best (d ∷ ds) none = sym (best_missing (d ∷ ds) (λ q. data_in q none) data_in-none)
  search_in-best (d ∷ ds) (some n) =
      ap data_of (search_path-cons d ds n)
      ∙ data_of-or (search_in ds (get_child d n)) (search_in ds (get_child wildcard n))
          (get_child dot_wildcard n)
      ∙ rw (search_in-best ds (get_child d n), search_in-best ds (get_child wildcard n)) refl

  -- The search along the labels of a host gives the data that the priorities choose among the patterns of
  -- the trie, taken as a map from paths.
  pub search_path-best :
      (ds : List Text) (n : Node A) → data_of (search_path ds n) ≡ best ds (λ q. data_at q n)
  unfolding data_at search_in
  search_path-best ds n = search_in-best ds (some n)
