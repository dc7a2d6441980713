-- ===== src/DomainTrie/Patterns.antt =====
-- Which hosts a pattern adds to those that the search finds.
use mathlib.Core.Path.{fun_ext}
use go_warp_scanner.Common.Text.{Text, text_eq}
use go_warp_scanner.DomainTrie.{
  Node, node, wildcard, dot_wildcard, complex_wildcard, data_of, is_empty, insert_path, search_path,
  valid_and_split_domain, insert_parts, insert_valid, insert, search_valid, search,
}
use go_warp_scanner.DomainTrie.Insert.{path_eq, data_at, data_at-insert_path}
use go_warp_scanner.DomainTrie.Search.{or_else, best, search_path-best}
use go_warp_scanner.Common.{
  ◌≡◌, refl, sym, ap, ◌∙◌, inl, inr, Bool, true, false, not, ◌&&◌, ◌||◌, Option, none, some, List,
  [], ◌∷◌, reverse, arith, ◌==◌, if◌then◌else◌, Bool-cases, length,
}

abbrev pub is_nil : List Text → Bool
is_nil [] = true
is_nil (p ∷ ps) = false

-- Whether a pattern matches a host, both from the last label on: a label matches itself, the wildcard
-- matches one label, and the dot wildcard, as the first label, matches one label or more.
abbrev pub matches : List Text → List Text → Bool
matches [] [] = true
matches [] (d ∷ ds) = false
matches (p ∷ ps) [] = false
matches (p ∷ ps) (d ∷ ds) =
    (text_eq p d && matches ps ds)
    || ((text_eq p wildcard && matches ps ds) || (text_eq p dot_wildcard && is_nil ps))

-- What a pattern given to `Insert` matches: the complex wildcard stands for its rest, and for its
-- rest behind the dot wildcard.
abbrev pub pattern_matches : Text × List Text → List Text → Bool
pattern_matches (first, parts) ds =
    if text_eq first complex_wildcard
    then matches (reverse parts) ds || matches (reverse (dot_wildcard ∷ parts)) ds
    else matches (reverse (first ∷ parts)) ds

abbrev is_some {ℓ} : {A : Type ℓ} → Option A → Bool
is_some none = false
is_some (some a) = true

-- The search for whether there is a result, on a set of paths.
abbrev hit : List Text → (List Text → Bool) → Bool
hit [] f = f []
hit (d ∷ ds) f =
    hit ds (λ q. f (d ∷ q)) || (hit ds (λ q. f (wildcard ∷ q)) || f (dot_wildcard ∷ []))

hit-or : (ds : List Text) (f g : List Text → Bool) → hit ds (λ q. f q || g q) ≡ hit ds f || hit ds g
hit-or [] f g = refl
hit-or (d ∷ ds) f g =
    let a = hit-or ds (λ q. f (d ∷ q)) (λ q. g (d ∷ q)) in
    let b = hit-or ds (λ q. f (wildcard ∷ q)) (λ q. g (wildcard ∷ q)) in
    rw (a, b)
      (shuffle (hit ds (λ q. f (d ∷ q))) (hit ds (λ q. g (d ∷ q))) (hit ds (λ q. f (wildcard ∷ q)))
        (hit ds (λ q. g (wildcard ∷ q))) (f (dot_wildcard ∷ [])) (g (dot_wildcard ∷ [])))
  where
    shuffle :
        (a a' b b' c c' : Bool)
        → (a || a') || ((b || b') || (c || c')) ≡ (a || (b || c)) || (a' || (b' || c'))
    shuffle a a' b b' c c' = ground arith

hit-false : (ds : List Text) → hit ds (λ q. false) ≡ false
hit-false [] = refl
hit-false (d ∷ ds) = rw (hit-false ds)

hit-and :
    (b : Bool) (ds : List Text) (f : List Text → Bool) → hit ds (λ q. b && f q) ≡ b && hit ds f
hit-and true ds f = refl
hit-and false ds f = hit-false ds

hit-path_eq : (ps ds : List Text) → hit ds (path_eq ps) ≡ matches ps ds
hit-path_eq [] [] = refl
hit-path_eq [] (d ∷ ds) = rw (hit-false ds)
hit-path_eq (p ∷ ps) [] = refl
hit-path_eq (p ∷ ps) (d ∷ ds) =
    let a = hit-and (text_eq p d) ds (path_eq ps) in
    let b = hit-and (text_eq p wildcard) ds (path_eq ps) in
    rw (a, b, hit-path_eq ps ds)
      (ap
        (λ t.
          (text_eq p d && matches ps ds)
          || ((text_eq p wildcard && matches ps ds) || (text_eq p dot_wildcard && t)))
        (ends ps))
  where
    ends : (ps : List Text) → path_eq ps [] ≡ is_nil ps
    ends [] = refl
    ends (q ∷ qs) = refl

module _ {ℓ} {A : Type ℓ} where
  is_some-or_else : (a b : Option A) → is_some (or_else a b) ≡ is_some a || is_some b
  is_some-or_else none b = refl
  is_some-or_else (some x) b = refl

  is_some-best :
      (ds : List Text) (f : List Text → Option A)
      → is_some (best ds f) ≡ hit ds (λ q. is_some (f q))
  is_some-best [] f = refl
  is_some-best (d ∷ ds) f =
      is_some-or_else (best ds (λ q. f (d ∷ q)))
        (or_else (best ds (λ q. f (wildcard ∷ q))) (f (dot_wildcard ∷ [])))
      ∙ ap (λ t. is_some (best ds (λ q. f (d ∷ q))) || t)
          (is_some-or_else (best ds (λ q. f (wildcard ∷ q))) (f (dot_wildcard ∷ [])))
      ∙ rw (is_some-best ds (λ q. f (d ∷ q)), is_some-best ds (λ q. f (wildcard ∷ q))) refl

  -- Whether the search along some labels finds a node with data.
  abbrev found : List Text → Node A → Bool
  found ds n = not (is_empty (search_path ds n))

  found-hit : (ds : List Text) (n : Node A) → found ds n ≡ hit ds (λ q. is_some (data_at q n))
  found-hit ds n =
      by_node (search_path ds n)
      ∙ ap is_some (search_path-best ds n)
      ∙ is_some-best ds (λ q. data_at q n)
    where
      by_node : (o : Option (Node A)) → not (is_empty o) ≡ is_some (data_of o)
      by_node none = refl
      by_node (some (node child none)) = refl
      by_node (some (node child (some a))) = refl

  -- An insertion of a path adds the hosts that the path matches.
  found-insert_path :
      (ps ds : List Text) (a : A) (n : Node A)
      → found ds (insert_path ps a n) ≡ found ds n || matches ps ds
  found-insert_path ps ds a n =
      found-hit ds (insert_path ps a n)
      ∙ ap (hit ds) (
          fun_ext
            (λ q. ap is_some (data_at-insert_path ps q a n) ∙ some_if (path_eq ps q) (data_at q n)))
      ∙ hit-or ds (λ q. is_some (data_at q n)) (path_eq ps)
      ∙ rw (hit-path_eq ps ds, found-hit ds n) refl
    where
      some_if : (b : Bool) (o : Option A) → is_some (if b then some a else o) ≡ is_some o || b
      some_if true none = refl
      some_if true (some x) = refl
      some_if false none = refl
      some_if false (some x) = refl

  found-insert_valid :
      (first : Text) (parts ds : List Text) (a : A) (n : Node A)
      → found ds (insert_valid (first, parts) a n) ≡ found ds n || pattern_matches (first, parts) ds
  unfolding insert_valid insert_parts
  found-insert_valid first parts ds a n = elim (Bool-cases (text_eq first complex_wildcard)) [
    | inl e ↦ rw e (
        found-insert_path (reverse (dot_wildcard ∷ parts)) ds a (insert_path (reverse parts) a n)
        ∙ ap (λ t. t || matches (reverse (dot_wildcard ∷ parts)) ds)
            (found-insert_path (reverse parts) ds a n)
        ∙ or_assoc (found ds n) (matches (reverse parts) ds)
            (matches (reverse (dot_wildcard ∷ parts)) ds))
    | inr e ↦ rw e (found-insert_path (reverse (first ∷ parts)) ds a n)
  ]
    where
      or_assoc : (a b c : Bool) → (a || b) || c ≡ a || (b || c)
      or_assoc true b c = refl
      or_assoc false b c = refl

  -- After `Insert` of a pattern that is valid, `Search` finds data for a host that is valid and whose first
  -- label is not empty exactly if it did before or the pattern matches the host.
  pub search-insert :
      (domain host : Text) (pattern labels : Text × List Text) (a : A) (root : Node A)
      → valid_and_split_domain domain ≡ some pattern
      → valid_and_split_domain host ≡ some labels
      → (length labels.0 == 0) ≡ false
      → (root' : Node A) × (insert domain a root ≡ some root')
        × (is_empty (search host root')
            ≡ is_empty (search host root)
              && not (pattern_matches pattern (reverse (labels.0 ∷ labels.1))))
  unfolding insert search search_valid
  search-insert domain host pattern labels a root e e' h = (
    insert_valid pattern a root,
    rw (e, insert),
    rw (e', search)
        (empty_iff (insert_valid pattern a root)
          ∙ ap not (found-insert_valid pattern.0 pattern.1 path a root)
          ∙ demorgan (found path root) (pattern_matches pattern path)
          ∙ ap (λ b. b && not (pattern_matches pattern path)) (sym (empty_iff root))),
  )
    where
      path : List Text
      path = reverse (labels.0 ∷ labels.1)

      demorgan : (a b : Bool) → not (a || b) ≡ not a && not b
      demorgan true b = refl
      demorgan false b = refl

      by_node :
          (o : Option (Node A)) → is_empty (if is_empty o then none else o) ≡ not (not (is_empty o))
      by_node none = refl
      by_node (some (node child none)) = refl
      by_node (some (node child (some x))) = refl

      empty_iff : (n : Node A) → is_empty (search_valid labels n) ≡ not (found path n)
      empty_iff n = rw h (by_node (search_path path n))
