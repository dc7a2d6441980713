-- ===== src/DomainTrie/Optimize.antt =====
-- `optimize` changes the shape of the trie and not what it holds.
use mathlib.Core.Path.{fun_ext}
use go_warp_scanner.Common.Text.{Text, text_eq}
use go_warp_scanner.DomainTrie.{
  Node, ChildMap, node, no_child, one_child, child_map, nil, cons, data_of, lookup, get_child,
  search_path, optimize, optimize_map,
}
use go_warp_scanner.DomainTrie.Insert.{data_in, data_at}
use go_warp_scanner.DomainTrie.Search.{best, search_path-best}
use go_warp_scanner.Common.{
  ◌≡◌, refl, sym, ap, ◌∙◌, inl, inr, Option, none, some, List, [], ◌∷◌, arith, Bool-cases,
}

module _ {ℓ} {A : Type ℓ} where
  abbrev optimize_option : Option (Node A) → Option (Node A)
  optimize_option none = none
  optimize_option (some n) = some (optimize n)

  lookup-optimize_map :
      (s : Text) (m : ChildMap A) → lookup s (optimize_map m) ≡ optimize_option (lookup s m)
  unfolding lookup optimize
  lookup-optimize_map s nil = refl
  lookup-optimize_map s (cons t n rest) = elim (Bool-cases (text_eq t s)) [
    | inl e ↦ rw e
    | inr e ↦ rw e (lookup-optimize_map s rest)
  ]

  get_child-optimize :
      (s : Text) (n : Node A) → get_child s (optimize n) ≡ optimize_option (get_child s n)
  unfolding get_child lookup optimize
  get_child-optimize s (node no_child content) = refl
  get_child-optimize s (node (one_child t n) content) = ground arith
  get_child-optimize s (node (child_map nil) content) = refl
  get_child-optimize s (node (child_map (cons t n nil)) content) = ground arith
  get_child-optimize s (node (child_map (cons t n (cons u m rest))) content) =
      lookup-optimize_map s (cons t n (cons u m rest))

  content-optimize : (n : Node A) → data_of (some (optimize n)) ≡ data_of (some n)
  unfolding optimize
  content-optimize (node no_child content) = refl
  content-optimize (node (one_child t n) content) = refl
  content-optimize (node (child_map nil) content) = refl
  content-optimize (node (child_map (cons t n nil)) content) = refl
  content-optimize (node (child_map (cons t n (cons u m rest))) content) = refl

  data_in-optimize :
      (ps : List Text) (o : Option (Node A)) → data_in ps (optimize_option o) ≡ data_in ps o
  data_in-optimize [] none = refl
  data_in-optimize [] (some n) = content-optimize n
  data_in-optimize (p ∷ ps) none = refl
  data_in-optimize (p ∷ ps) (some n) =
      ap (data_in ps) (get_child-optimize p n) ∙ data_in-optimize ps (get_child p n)

  -- `Optimize` leaves the data of every path, and so the result of every search, as it was.
  pub search_path-optimize :
      (ds : List Text) (n : Node A)
      → (data_of (search_path ds (optimize n)) ≡ data_of (search_path ds n))
        × (data_at ds (optimize n) ≡ data_at ds n)
  unfolding data_at
  search_path-optimize ds n = (
    search_path-best ds (optimize n)
        ∙ ap (best ds) (fun_ext (λ q. data_in-optimize q (some n)))
        ∙ sym (search_path-best ds n),
    data_in-optimize ds (some n),
  )
