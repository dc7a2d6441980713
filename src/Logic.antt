-- ===== src/Logic.antt =====
-- rules/logic/logic.go: the AND, OR, NOT and SUB-RULE rules over the other rules.
pub mod Match
pub mod Parse
mod Tests
use go_warp_scanner.Common.Text.{Text, codes}
use go_warp_scanner.Common.{
  ℕ, zero, suc, Bool, true, false, Option, none, some, List, [], ◌∷◌, if◌then◌else◌,
}

-- The rule types of this file; those of the other rules are behind the parameter below.
pub data LogicType : Type 0 where
  sub_rules not_rule or_rule and_rule : LogicType

-- A rule is one of another package (`leaf`) or a `Logic` with its fields. The shared map `subRules`
-- is an argument of the match, since it holds rules again.
mutual
  pub data Rule (Leaf : Type 0) : Type 0 where
    leaf : Leaf → Rule Leaf
    logic :
        (rule_type : LogicType) (payload adapter : Text) (need_ip need_process : Bool)
        → Rules Leaf
        → Rule Leaf

  pub data Rules (Leaf : Type 0) : Type 0 where
    nil : Rules Leaf
    cons : Rule Leaf → Rules Leaf → Rules Leaf

-- The methods of the rules of other packages, over the metadata `Meta` of a connection.
pub record LeafMethods : Type 1 where
  pub Leaf : Type 0
  pub Meta : Type 0
  pub leaf_match : Leaf → Meta → Bool × Text
  pub leaf_type : Leaf → Text
  pub leaf_payload : Leaf → Text
  pub leaf_adapter : Leaf → Text
  pub leaf_ip : Leaf → Bool
  pub leaf_process : Leaf → Bool

abbrev type_name : LogicType → Text
type_name sub_rules = codes "SubRules"
type_name not_rule = codes "NOT"
type_name or_rule = codes "OR"
type_name and_rule = codes "AND"

-- The result of `Match`; `none` says that the fuel for the sub-rules ran out.
abbrev pub MatchResult : Type 0
MatchResult = Option (Bool × Text)

module _ (m : LeafMethods) where
  open m use {Leaf, Meta, leaf_match, leaf_type, leaf_payload, leaf_adapter, leaf_ip, leaf_process}

  -- The methods of `C.Rule` on a rule.
  unfoldable pub rule_type : Rule Leaf → Text
  rule_type (leaf l) = leaf_type l
  rule_type (logic t payload adapter ip process rules) = type_name t

  unfoldable pub rule_payload : Rule Leaf → Text
  rule_payload (leaf l) = leaf_payload l
  rule_payload (logic t payload adapter ip process rules) = payload

  unfoldable pub rule_adapter : Rule Leaf → Text
  rule_adapter (leaf l) = leaf_adapter l
  rule_adapter (logic t payload adapter ip process rules) = adapter

  unfoldable pub should_resolve_ip : Rule Leaf → Bool
  should_resolve_ip (leaf l) = leaf_ip l
  should_resolve_ip (logic t payload adapter ip process rules) = ip

  unfoldable pub should_find_process : Rule Leaf → Bool
  should_find_process (leaf l) = leaf_process l
  should_find_process (logic t payload adapter ip process rules) = process

  -- `rule.RuleType() == C.SubRules`; no rule of another package has that type.
  abbrev pub is_sub_rule : Rule Leaf → Bool
  is_sub_rule (logic sub_rules payload adapter ip process rules) = true
  is_sub_rule _ = false

  -- The loops of `Match`. `sub` is `matchSubRules` by the name of the list.
  module _ (sub : Text → MatchResult) (meta : Meta) where
    unfoldable mutual
      pub match_rule : Rule Leaf → MatchResult
      match_rule (leaf l) = some (leaf_match l meta)
      match_rule (logic sub_rules payload adapter ip process rules) = match_sub adapter rules
      match_rule (logic not_rule payload adapter ip process rules) = match_not adapter rules
      match_rule (logic or_rule payload adapter ip process rules) = match_or adapter rules
      match_rule (logic and_rule payload adapter ip process rules) = match_and adapter rules

      -- `logic.rules[0]`; the constructors leave no such rule without it.
      pub match_sub : Text → Rules Leaf → MatchResult
      match_sub adapter nil = none
      match_sub adapter (cons r rs) = elim (match_rule r) [
        | none ↦ none
        | some (hit, _) ↦ if hit then sub adapter else some (false, [])
      ]

      pub match_not : Text → Rules Leaf → MatchResult
      match_not adapter nil = none
      match_not adapter (cons r rs) = elim (match_rule r) [
        | none ↦ none
        | some (hit, _) ↦ if hit then some (false, []) else some (true, adapter)
      ]

      pub match_or : Text → Rules Leaf → MatchResult
      match_or adapter nil = some (false, [])
      match_or adapter (cons r rs) =
          let rest = match_or adapter rs in
          elim (match_rule r) [
            | none ↦ none
            | some (hit, _) ↦ if hit then some (true, adapter) else rest
          ]

      pub match_and : Text → Rules Leaf → MatchResult
      match_and adapter nil = some (true, adapter)
      match_and adapter (cons r rs) =
          let rest = match_and adapter rs in
          elim (match_rule r) [
            | none ↦ none
            | some (hit, _) ↦ if hit then rest else some (false, adapter)
          ]

    -- The loop of `matchSubRules`: a nested SUB-RULE that matches has its list matched once more,
    -- and the result is dropped.
    unfoldable pub match_list : List (Rule Leaf) → MatchResult
    match_list [] = some (false, [])
    match_list (r ∷ rs) =
        let rest = match_list rs in
        elim (match_rule r) [
          | none ↦ none
          | some (hit, a) ↦
              if hit
              then if is_sub_rule r
                then elim (sub (rule_adapter r)) [ none ↦ none | some _ ↦ rest ]
                else some (hit, a)
              else rest
        ]

  -- `matchSubRules`, with fuel for the depth of the calls.
  unfoldable pub match_sub_rules : ℕ → (Text → List (Rule Leaf)) → Meta → Text → MatchResult
  match_sub_rules zero lists meta name = none
  match_sub_rules (suc fuel) lists meta name =
      match_list (match_sub_rules fuel lists meta) meta (lists name)
