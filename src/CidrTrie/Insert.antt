-- ===== src/CidrTrie/Insert.antt =====
-- An insertion adds one prefix to those that the search finds.
use go_warp_scanner.CidrTrie.{
  Node, Children, node, nil, cons, new_node, marked, max_of, lookup, store, delete, count,
  clean_loop, get_child, set_child, get_or_add, clean_child, set_mark, insert_path, add_groups,
  search_from, search_groups,
}
use go_warp_scanner.Common.{
  ℕ, zero, suc, ◌+◌, ◌≤◌, ◌≡◌, refl, ap, ◌∙◌, subst, inl, inr, Bool, true, false, ◌&&◌, ◌||◌,
  Option, none, some, List, [], ◌∷◌, arith, ltb, leb, ◌==◌, if◌then◌else◌, ==_iff, Bool-cases,
  Option-cases,
}

-- `p` is a prefix of `q`.
abbrev pub starts : List ℕ → List ℕ → Bool
starts [] q = true
starts (g ∷ gs) [] = false
starts (g ∷ gs) (v ∷ vs) = (v == g) && starts gs vs

abbrev pub AllAtMost : ℕ → List ℕ → Type 0
AllAtMost m [] = Unit
AllAtMost m (g ∷ gs) = (g ≤ m) × AllAtMost m gs

-- Every node of a trie has the same bound.
mutual
  pub data IsUniform (m : ℕ) : Node → Type 0 where
    uniform :
        {mark : Bool} {child : Children} {max_value : ℕ}
        → max_value ≡ m
        → AreUniform m child
        → IsUniform m (node mark child max_value)

  pub data AreUniform (m : ℕ) : Children → Type 0 where
    nil_uniform : AreUniform m nil
    cons_uniform :
        {w : ℕ} {n : Node} {rest : Children}
        → IsUniform m n
        → AreUniform m rest
        → AreUniform m (cons w n rest)

lookup-store :
    (v w : ℕ) (n : Node) (child : Children)
    → lookup v (store w n child) ≡ (if v == w then some n else lookup v child)
unfolding lookup store
lookup-store v w n nil = refl
lookup-store v w n (cons x m rest) = ground (arith, lookup-store v w n rest)

get_child-set_child :
    (v g : ℕ) (c n : Node)
    → g ≤ max_of n
    → get_child v (set_child g c n) ≡ (if v == g then some c else get_child v n)
unfolding get_child set_child
get_child-set_child v g c (node mark child max_value) h = ground (arith, lookup-store v g c child)

marked-set_child : (g : ℕ) (c n : Node) → marked (set_child g c n) ≡ marked n
unfolding set_child
marked-set_child g c (node mark child max_value) = refl

lookup-IsUniform :
    {m : ℕ} (v : ℕ) {child : Children} {c : Node}
    → AreUniform m child
    → lookup v child ≡ some c
    → IsUniform m c
unfolding lookup
lookup-IsUniform v nil_uniform e = absurd (cc)
lookup-IsUniform {m} v {c = c} (cons_uniform {w} {n} {rest} u us) e = elim (Bool-cases (v == w)) [
  | inl t ↦ let e' : some n ≡ some c = rw t at e in subst (IsUniform m) (ground arith) u
  | inr f ↦ lookup-IsUniform v us (rw f at e)
]

max_of-IsUniform : {m : ℕ} {n : Node} → IsUniform m n → max_of n ≡ m
max_of-IsUniform (uniform e us) = e

new_node-IsUniform : {m : ℕ} (n : Node) → IsUniform m n → IsUniform m (new_node false (max_of n))
new_node-IsUniform n u = uniform (max_of-IsUniform u) nil_uniform

get_child-IsUniform :
    {m : ℕ} (v : ℕ) {n c : Node} → IsUniform m n → get_child v n ≡ some c → IsUniform m c
unfolding get_child
get_child-IsUniform v {c = c} (uniform {child = child} {max_value = x} e us) h =
    elim (Bool-cases (leb v x)) [
      | inl t ↦ lookup-IsUniform v us (rw t at h)
      | inr f ↦ let h' : none ≡ some c = rw f at h in absurd (cc)
    ]

get_or_add-IsUniform : {m : ℕ} (v : ℕ) (n : Node) → IsUniform m n → IsUniform m (get_or_add v n)
unfolding get_or_add
get_or_add-IsUniform {m} v n u = elim (Option-cases (get_child v n)) [
  | inl e ↦ rw (e, get_or_add) (new_node-IsUniform n u)
  | inr (c, e) ↦ rw (e, get_or_add) (get_child-IsUniform v u e)
]

-- What a node answers for the rest of an address.
abbrev accepts : Node → List ℕ → Bool
accepts n q = marked n || search_from q n

-- What a node answers through one child.
abbrev accepts_child : Option Node → List ℕ → Bool
accepts_child none vs = false
accepts_child (some c) vs = accepts c vs

search_from-cons :
    (v : ℕ) (vs : List ℕ) (n : Node) → search_from (v ∷ vs) n ≡ accepts_child (get_child v n) vs
unfolding search_from
search_from-cons v vs n = elim (Option-cases (get_child v n)) [
  | inl e ↦ rw (e, search_from)
  | inr (c, e) ↦ rw (e, search_from)
]

search_from-new : (m : ℕ) (vs : List ℕ) → search_from vs (new_node false m) ≡ false
unfolding search_from get_child lookup
search_from-new m [] = refl
search_from-new m (v ∷ vs) = ground arith

accepts-get_or_add :
    (g : ℕ) (vs : List ℕ) (n : Node)
    → accepts (get_or_add g n) vs ≡ accepts_child (get_child g n) vs
unfolding get_or_add
accepts-get_or_add g vs n = elim (Option-cases (get_child g n)) [
  | inl e ↦ rw (e, get_or_add) (search_from-new (max_of n) vs)
  | inr (c, e) ↦ rw (e, get_or_add)
]

marked-clean : (n : Node) → marked (clean_child (set_mark n)) ≡ true
unfolding clean_child set_mark
marked-clean (node mark child max_value) = refl

-- A child that answers for one more prefix makes its parent do so.
accepts-set_child :
    (g : ℕ) (gs q : List ℕ) (c n : Node)
    → g ≤ max_of n
    → ((vs : List ℕ) → accepts c vs ≡ accepts_child (get_child g n) vs || starts gs vs)
    → search_from q (set_child g c n) ≡ search_from q n || starts (g ∷ gs) q
unfolding search_from
accepts-set_child g gs [] c n h ih = refl
accepts-set_child g gs (v ∷ vs) c n h ih =
    rw
      (
        search_from-cons v vs n,
        search_from-cons v vs (set_child g c n),
        get_child-set_child v g c n h,
      )
      (elim (Bool-cases (v == g)) [
        | inl e ↦ let same : v ≡ g = (==_iff v g).0 e in rw e (rw same (ih vs))
        | inr e ↦ rw e (or_false (accepts_child (get_child v n) vs))
      ])
  where
    or_false : (b : Bool) → b ≡ b || false
    or_false true = refl
    or_false false = refl

accepts-insert_path :
    (m before : ℕ) (p q : List ℕ) (n : Node)
    → AllAtMost m p
    → IsUniform m n
    → accepts (insert_path before p n) q ≡ accepts n q || starts p q
unfolding insert_path
accepts-insert_path m before [] q n h u =
    rw (marked-clean n) (or_true (marked n || search_from q n))
  where
    or_true : (b : Bool) → true ≡ b || true
    or_true true = refl
    or_true false = refl
accepts-insert_path m before (g ∷ gs) q n h u = elim (Bool-cases (marked n)) [
  | inl full ↦ rw full (rw full)
  | inr open_node ↦
      let in_bound : g ≤ max_of n = omega (arith, h.0, max_of-IsUniform u) in
      let test : leb g (max_of n) ≡ true = ground arith in
      rw (open_node, test)
        (rw (marked-set_child g (insert_path g gs (get_or_add g n)) n, open_node)
          (accepts-set_child g gs q (insert_path g gs (get_or_add g n)) n in_bound (λ vs.
            accepts-insert_path m g gs vs (get_or_add g n) h.1 (get_or_add-IsUniform g n u)
            ∙ ap (λ b. b || starts gs vs) (accepts-get_or_add g vs n))))
]

store-AreUniform :
    {m : ℕ} (v : ℕ) {c : Node} {child : Children}
    → IsUniform m c
    → AreUniform m child
    → AreUniform m (store v c child)
unfolding store
store-AreUniform v u nil_uniform = cons_uniform u nil_uniform
store-AreUniform {m} v {c} u (cons_uniform {w} {n} {rest} un us) = elim (Bool-cases (v == w)) [
  | inl t ↦ rw t (cons_uniform u us)
  | inr f ↦ rw f (cons_uniform un (store-AreUniform v u us))
]

set_child-IsUniform :
    {m : ℕ} (v : ℕ) {c n : Node} → IsUniform m c → IsUniform m n → IsUniform m (set_child v c n)
unfolding set_child
set_child-IsUniform v u (uniform e us) = uniform e (store-AreUniform v u us)

delete-AreUniform :
    {m : ℕ} (v : ℕ) {child : Children} → AreUniform m child → AreUniform m (delete v child)
unfolding delete
delete-AreUniform v nil_uniform = nil_uniform
delete-AreUniform v (cons_uniform {w} un us) = elim (Bool-cases (v == w)) [
  | inl t ↦ rw t (delete-AreUniform v us)
  | inr f ↦ rw f (cons_uniform un (delete-AreUniform v us))
]

clean_loop-AreUniform :
    {m : ℕ} (fuel i : ℕ) {child : Children}
    → AreUniform m child
    → AreUniform m (clean_loop fuel i child)
unfolding clean_loop
clean_loop-AreUniform zero i us = us
clean_loop-AreUniform (suc fuel) i {child} us = elim (Bool-cases (ltb i (count child))) [
  | inl t ↦ rw t (clean_loop-AreUniform fuel (i + 1) (delete-AreUniform i us))
  | inr f ↦ rw f us
]

clean-IsUniform : {m : ℕ} {n : Node} → IsUniform m n → IsUniform m (clean_child (set_mark n))
unfolding clean_child set_mark
clean-IsUniform (uniform {child = child} e us) =
    uniform e (clean_loop-AreUniform (count child) 0 us)

insert_path-IsUniform :
    {m : ℕ} (before : ℕ) (p : List ℕ) (n : Node)
    → IsUniform m n
    → IsUniform m (insert_path before p n)
unfolding insert_path
insert_path-IsUniform before [] n u = clean-IsUniform u
insert_path-IsUniform {m} before (g ∷ gs) n u =
    let below =
      set_child-IsUniform g
        (insert_path-IsUniform g gs (get_or_add g n) (get_or_add-IsUniform g n u)) u in
    let fallback =
      set_child-IsUniform before
        (insert_path-IsUniform g gs (new_node false (max_of n)) (new_node-IsUniform n u)) u in
    elim (Bool-cases (marked n)) [
      | inl a ↦ rw a u
      | inr a ↦ elim (Bool-cases (leb g (max_of n))) [
        | inl b ↦ rw (a, b) below
        | inr b ↦ elim (Bool-cases (leb before (max_of n))) [
          | inl c ↦ rw (a, b, c) fallback
          | inr c ↦ rw (a, b, c) u
        ]
      ]
    ]

pub add_groups-IsUniform :
    {m : ℕ} (p : List ℕ) (root : Node) → IsUniform m root → IsUniform m (add_groups p root)
unfolding add_groups
add_groups-IsUniform [] root u = u
add_groups-IsUniform (g ∷ gs) root u = elim (Bool-cases (leb g (max_of root))) [
  | inl t ↦ rw t (
      set_child-IsUniform g
        (insert_path-IsUniform g gs (get_or_add g root) (get_or_add-IsUniform g root u)) u)
  | inr f ↦ rw f u
]

-- After the insertion of a prefix that is not empty, of groups within the bound of a trie whose
-- nodes share it, the search finds the groups that it found before and those that begin with the
-- prefix, and no other.
pub search-add_groups :
    (m g : ℕ) (gs q : List ℕ) (root : Node)
    → AllAtMost m (g ∷ gs)
    → IsUniform m root
    → search_groups q (add_groups (g ∷ gs) root) ≡ search_groups q root || starts (g ∷ gs) q
unfolding search_groups add_groups
search-add_groups m g gs q root h u =
    let in_bound : g ≤ max_of root = omega (arith, h.0, max_of-IsUniform u) in
    let test : leb g (max_of root) ≡ true = ground arith in
    rw test (
      accepts-set_child g gs q (insert_path g gs (get_or_add g root)) root in_bound (λ vs.
        accepts-insert_path m g gs vs (get_or_add g root) h.1 (get_or_add-IsUniform g root u)
        ∙ ap (λ b. b || starts gs vs) (accepts-get_or_add g vs root)))
