-- ===== src/Logic/Tests.antt =====
-- Runs of the logic rules, and their theorems at concrete values.
use go_warp_scanner.Common.Text.{Text, codes, text_eq, split}
use go_warp_scanner.Logic.{
  sub_rules, not_rule, and_rule, Rule, leaf, logic, nil, cons, LeafMethods, rule_type, rule_payload,
  should_resolve_ip, should_find_process, match_rule, match_list, match_sub_rules,
}
use go_warp_scanner.Logic.Match.{
  IsWhole, whole_leaf, whole_sub, whole_not, whole_and, whole_cons, whole_nil, AllWhole, Decides,
  denote, direct, match_rule-denote, match_sub_rules_total, match_list-direct,
}
use go_warp_scanner.Logic.Parse.{ok, format, new_not, parse_payload, find_sub_rule_range}
use go_warp_scanner.Logic.Parse.Laws.{is_ok, balanced, format-balanced, parsed-IsWhole}
use go_warp_scanner.Common.{
  ℕ, ◌≡◌, refl, subst, inl, inr, Bool, true, false, Option, some, List, [], ◌∷◌, ◌++◌, arith, ◌==◌,
  if◌then◌else◌, Bool-cases,
}

-- A rule of another package matches one port, and names an adapter.
abbrev ports : LeafMethods
ports = record {
  Leaf = ℕ;
  Meta = ℕ;
  leaf_match = λ l meta. (meta == l, codes "P");
  leaf_type = λ l. codes "DstPort";
  leaf_payload = λ l. l ∷ [];
  leaf_adapter = λ l. codes "P";
  leaf_ip = λ l. false;
  leaf_process = λ l. false;
}

abbrev web : Rule ℕ
web =
    logic and_rule [] (codes "A") false false
      (cons (logic not_rule [] [] false false (cons (leaf 80) nil)) (cons (leaf 443) nil))

web-IsWhole : IsWhole ports (λ name. 0) 1 web
web-IsWhole = whole_and (whole_cons (whole_not whole_leaf) (whole_cons whole_leaf whole_nil))

match_rule-denote_example :
    Decides ports
      (match_rule ports (λ name. some (true, [])) 443 web)
      (denote ports (λ name. true) 443 web)
match_rule-denote_example =
    match_rule-denote ports (λ name. some (true, [])) 443 (λ name. true) (λ name. 0) 1
      (λ name h. ([], refl)) web web-IsWhole

-- One list has a SUB-RULE for the other.
abbrev nested : Rule ℕ
nested = logic sub_rules [] (codes "inner") false false (cons (leaf 443) nil)

abbrev lists : Text → List (Rule ℕ)
lists name = if text_eq name (codes "outer") then nested ∷ web ∷ [] else leaf 443 ∷ []

abbrev rank : Text → ℕ
rank name = if text_eq name (codes "outer") then 1 else 0

lists-AllWhole : (name : Text) → AllWhole ports rank (rank name) (lists name)
lists-AllWhole name = elim (Bool-cases (text_eq name (codes "outer"))) [
  | inl outer ↦ rw outer (
    whole_sub (omega arith) whole_leaf,
    (whole_and (whole_cons (whole_not whole_leaf) (whole_cons whole_leaf whole_nil)), tt),
  )
  | inr inner ↦ rw inner (whole_leaf, tt)
]

match_sub_rules_total_example :
    (result : Bool × Text) × (match_sub_rules ports 2 lists 443 (codes "outer") ≡ some result)
match_sub_rules_total_example =
    match_sub_rules_total ports lists 443 rank lists-AllWhole 2 (codes "outer") (omega arith)

-- The SUB-RULE and its list match, and the result comes from the rule behind it.
nested_run :
    match_list ports (λ name. some (true, codes "P")) 443 (nested ∷ web ∷ [])
    ≡ some (true, codes "A")
unfolding match_list match_rule
nested_run = refl

match_list-direct_example :
    match_list ports (λ name. some (true, codes "P")) 443 (direct ports (nested ∷ web ∷ []))
    ≡ some (true, codes "A")
match_list-direct_example =
    match_list-direct ports (λ name. some (true, codes "P")) 443 (nested ∷ web ∷ [])
      (true, codes "A") nested_run

format-balanced_example :
    is_ok (format (codes "((a,b),(c,d))")) ≡ balanced 0 (codes "((a,b),(c,d))")
format-balanced_example = format-balanced (codes "((a,b),(c,d))")

-- Every inner rule parses to one leaf.
abbrev parse_leaf : Text → Text → List Text → Option (Rule ℕ)
parse_leaf tp payload params = some (leaf 443)

parse_leaf-IsWhole :
    (tp payload : Text) (params : List Text) (r : Rule ℕ)
    → parse_leaf tp payload params ≡ some r
    → IsWhole ports (λ name. 0) 1 r
parse_leaf-IsWhole tp payload params r e =
    subst (IsWhole ports (λ name. 0) 1) (ground arith) (whole_leaf {l = 443})

abbrev not_443 : Rule ℕ
not_443 =
    logic not_rule (codes "(!(DstPort," ++ (443 ∷ codes "))")) (codes "A") false false
      (cons (leaf 443) nil)

not_runs : new_not ports parse_leaf (codes "((DST-PORT,443))") (codes "A") ≡ ok not_443
unfolding new_not parse_payload format find_sub_rule_range split rule_type should_resolve_ip
    should_find_process rule_payload
not_runs = refl

parsed-IsWhole_example : IsWhole ports (λ name. 0) 1 not_443
parsed-IsWhole_example =
    parsed-IsWhole ports parse_leaf (λ name. 0) 1 parse_leaf-IsWhole (codes "((DST-PORT,443))")
      (codes "A") (λ name. []) not_443 (inl not_runs)
