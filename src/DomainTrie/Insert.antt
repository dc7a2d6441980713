-- ===== src/DomainTrie/Insert.antt =====
-- The trie as a finite map from paths of labels.
use go_warp_scanner.Common.Text.{Text, text_eq, text_eq→≡}
use go_warp_scanner.DomainTrie.{
  Node, Children, ChildMap, node, no_child, one_child, child_map, nil, cons, new_node, data_of,
  lookup, store, get_child, put_child, get_or_new_child, set_child, insert_path,
}
use go_warp_scanner.Common.{
  ◌≡◌, refl, sym, ap, ◌∙◌, inl, inr, Bool, true, false, ◌&&◌, Option, none, some, List, [], ◌∷◌,
  arith, if◌then◌else◌, Bool-cases, Option-cases,
}

-- Two paths are the same.
abbrev pub path_eq : List Text → List Text → Bool
path_eq [] [] = true
path_eq (p ∷ ps) (q ∷ qs) = text_eq p q && path_eq ps qs
path_eq _ _ = false

text_eq_sym : (s t : Text) → text_eq s t ≡ text_eq t s
text_eq_sym [] [] = refl
text_eq_sym [] (y ∷ t) = refl
text_eq_sym (x ∷ s) [] = refl
text_eq_sym (x ∷ s) (y ∷ t) = ground (arith, text_eq_sym s t)

module _ {ℓ} {A : Type ℓ} where
  -- The data at the end of a path, from a node that may be missing.
  abbrev pub data_in : List Text → Option (Node A) → Option A
  data_in [] o = data_of o
  data_in (p ∷ ps) none = none
  data_in (p ∷ ps) (some n) = data_in ps (get_child p n)

  unfoldable pub data_at : List Text → Node A → Option A
  data_at ps n = data_in ps (some n)

  pub data_in-none : (ps : List Text) → data_in ps none ≡ none
  data_in-none [] = refl
  data_in-none (p ∷ ps) = refl

  lookup-store :
      (s t : Text) (c : Node A) (m : ChildMap A)
      → lookup s (store t c m) ≡ (if text_eq t s then some c else lookup s m)
  unfolding lookup store
  lookup-store s t c nil = refl
  lookup-store s t c (cons u n rest) = elim (Bool-cases (text_eq u t)) [
    | inl e ↦ let same = text_eq→≡ u t e in rw (e, same) (ground arith)
    | inr e ↦ elim (Bool-cases (text_eq u s)) [
      | inl f ↦
          let same = text_eq→≡ u s f in
          let g : text_eq t s ≡ false = text_eq_sym t s ∙ ap (λ x. text_eq x t) (sym same) ∙ e in
          rw (e, f, g)
      | inr f ↦ rw (e, f) (lookup-store s t c rest)
    ]
  ]

  get_child-set_child :
      (s t : Text) (c n : Node A)
      → get_child s (set_child t c n) ≡ (if text_eq t s then some c else get_child s n)
  unfolding get_child set_child put_child lookup
  get_child-set_child s t c (node no_child content) = refl
  get_child-set_child s t c (node (one_child u m) content) = elim (Bool-cases (text_eq u t)) [
    | inl e ↦ let same = text_eq→≡ u t e in rw (e, same) (ground arith)
    | inr e ↦ rw e (rw e at (lookup-store s t c (cons u m nil)))
  ]
  get_child-set_child s t c (node (child_map m) content) = lookup-store s t c m

  get_child-content :
      (s : Text) (child : Children A) (x y : Option A)
      → get_child s (node child x) ≡ get_child s (node child y)
  unfolding get_child
  get_child-content s no_child x y = refl
  get_child-content s (one_child t n) x y = refl
  get_child-content s (child_map m) x y = refl

  data_in-get_or_new_child :
      (p : Text) (ps : List Text) (n : Node A)
      → data_in ps (some (get_or_new_child p n)) ≡ data_in ps (get_child p n)
  unfolding get_or_new_child
  data_in-get_or_new_child p ps n = elim (Option-cases (get_child p n)) [
    | inl e ↦ rw (e, get_or_new_child) (fresh ps)
    | inr (c, e) ↦ rw (e, get_or_new_child)
  ]
    where
      fresh : (qs : List Text) → data_in qs (some new_node) ≡ data_in qs none
      fresh [] = refl
      fresh (q ∷ qs) = data_in-none qs

  -- After an insertion the data at a path is the new one at the path inserted, and what it was at any
  -- other.
  pub data_at-insert_path :
      (ps qs : List Text) (a : A) (n : Node A)
      → data_at qs (insert_path ps a n) ≡ (if path_eq ps qs then some a else data_at qs n)
  unfolding data_at insert_path
  data_at-insert_path [] [] a (node child content) = refl
  data_at-insert_path [] (q ∷ qs) a (node child content) =
      ap (λ t. data_in qs t) (get_child-content q child (some a) content)
  data_at-insert_path (p ∷ ps) [] a (node child content) = refl
  data_at-insert_path (p ∷ ps) (q ∷ qs) a n = elim (Bool-cases (text_eq p q)) [
    | inl e ↦
        let same = text_eq→≡ p q e in
        let ih = data_at-insert_path ps qs a (get_or_new_child p n) in
        rw (get_child-set_child q p (insert_path ps a (get_or_new_child p n)) n) (
          rw e (
            ih
            ∙ ap (λ r. if path_eq ps qs then some a else r)
                (data_in-get_or_new_child p qs n ∙ ap (λ t. data_in qs (get_child t n)) same)))
    | inr e ↦ rw (get_child-set_child q p (insert_path ps a (get_or_new_child p n)) n) (rw e)
  ]
