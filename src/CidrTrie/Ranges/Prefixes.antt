-- ===== src/CidrTrie/Ranges/Prefixes.antt =====
-- Several insertions, one after another.
use go_warp_scanner.CidrTrie.{Node, add_groups, search_groups}
use go_warp_scanner.CidrTrie.Insert.{
  starts, AllAtMost, IsUniform, add_groups-IsUniform, search-add_groups,
}
use go_warp_scanner.CidrTrie.Ranges.{add_each}
use go_warp_scanner.Common.{ℕ, ◌≡◌, refl, sym, ap, ◌∙◌, Bool, true, false, ◌||◌, List, [], ◌∷◌, map}

-- One of some prefixes begins `q`.
abbrev pub any_starts : List (List ℕ) → List ℕ → Bool
any_starts [] q = false
any_starts (p ∷ ps) q = starts p q || any_starts ps q

-- Every prefix has a group or more, and groups of at most `m` only.
abbrev pub AreWithin : ℕ → List (List ℕ) → Type 0
AreWithin m [] = Unit
AreWithin m ([] ∷ ps) = ⊥
AreWithin m ((g ∷ gs) ∷ ps) = AllAtMost m (g ∷ gs) × AreWithin m ps

pub or_assoc : (a b c : Bool) → (a || b) || c ≡ a || (b || c)
or_assoc true b c = refl
or_assoc false b c = refl

pub or-false : (b : Bool) → b || false ≡ b
or-false true = refl
or-false false = refl

-- Insertions of prefixes that a function reads off the addresses.
pub search-add_each :
    (m : ℕ) (prefix : List ℕ → List ℕ) (subs : List (List ℕ)) (q : List ℕ) (root : Node)
    → AreWithin m (map prefix subs)
    → IsUniform m root
    → search_groups q (add_each (λ sub. add_groups (prefix sub)) subs root)
      ≡ search_groups q root || any_starts (map prefix subs) q
unfolding add_each
search-add_each m prefix [] q root h u = sym (or-false (search_groups q root))
search-add_each m prefix (sub ∷ subs) q root h u =
    search-add_each m prefix subs q (add_groups (prefix sub) root) (tail_within (prefix sub) h)
      (add_groups-IsUniform (prefix sub) root u)
    ∙ ap (λ b. b || any_starts (map prefix subs) q) (one (prefix sub) h)
    ∙ or_assoc (search_groups q root) (starts (prefix sub) q) (any_starts (map prefix subs) q)
  where
    tail_within : (p : List ℕ) → AreWithin m (p ∷ map prefix subs) → AreWithin m (map prefix subs)
    tail_within [] k = elim k [ ]
    tail_within (g ∷ gs) k = k.1

    one :
        (p : List ℕ)
        → AreWithin m (p ∷ map prefix subs)
        → search_groups q (add_groups p root) ≡ search_groups q root || starts p q
    one [] k = elim k [ ]
    one (g ∷ gs) k = search-add_groups m g gs q root k.0 u
