-- ===== src/Logic/Parse.antt =====
-- rules/logic/logic.go: the parser of the payload of a logic rule; common/collections/stack.go, as a list.
pub mod Laws
use go_warp_scanner.Common.Text.{Text, codes, text_eq, split}
use go_warp_scanner.Logic.{
  LogicType, sub_rules, not_rule, or_rule, and_rule, Rule, logic, Rules, nil, cons, LeafMethods,
  rule_type, rule_payload, should_resolve_ip, should_find_process,
}
use go_warp_scanner.Common.{
  ℕ, ◌+◌, ◌-◌, Bool, true, false, ◌&&◌, ◌||◌, Option, none, some, List, [], ◌∷◌, ◌++◌, ltb, ◌==◌,
  if◌then◌else◌, length, set, take, drop, replicate,
}

pub record Range : Type 0 where
  pub start : ℕ
  pub end : ℕ
  pub index : ℕ

abbrev zero_range : Range
zero_range = record { start = 0; end = 0; index = 0 }

pub data LogicError : Type 0 where
  missing_open missing_close payload_format rule_count : LogicError
  no_comma : Text → LogicError
  unsupported : Text → LogicError
  rule_error : LogicError

pub data Result {ℓ} (A : Type ℓ) : Type ℓ where
  ok : A → Result A
  err : LogicError → Result A

infixl 5 ◌>>=◌
abbrev pub ◌>>=◌ {ℓ κ} : {A : Type ℓ} {B : Type κ} → Result A → (A → Result B) → Result B
ok a >>= f = f a
err e >>= f = err e

abbrev pub open_paren : ℕ
open_paren = 40

abbrev pub close_paren : ℕ
close_paren = 41

-- `sortResult[sr.index] = sr` for each range.
place : List Range → List Range → List Range
place [] result = result
place (sr ∷ srs) result = place srs (set result sr.index sr)

-- The end of `format`.
sort_ranges : List Range → List Range → Result (List Range)
unfolding place
sort_ranges (sr ∷ stack) sub_ranges = err missing_close
sort_ranges [] sub_ranges = ok (place sub_ranges (replicate (length sub_ranges) zero_range))

-- `stack.Pop()` at a closing parenthesis, and the rest of the loop.
pop_range :
    ℕ
    → (List Range → List Range → Result (List Range))
    → List Range
    → List Range
    → Result (List Range)
pop_range i next [] sub_ranges = err missing_open
pop_range i next (sr ∷ stack) sub_ranges = next stack (sub_ranges ++ record sr { end = i } ∷ [])

-- The loop of `format` from the byte `i` on.
format_loop : ℕ → Text → ℕ → List Range → List Range → Result (List Range)
unfolding sort_ranges pop_range
format_loop i [] num stack sub_ranges = sort_ranges stack sub_ranges
format_loop i (c ∷ payload) num stack sub_ranges =
    let pushed =
      format_loop (i + 1) payload (num + 1) (record { start = i; end = 0; index = num } ∷ stack)
        sub_ranges in
    let popped = pop_range i (format_loop (i + 1) payload num) stack sub_ranges in
    let skipped = format_loop (i + 1) payload num stack sub_ranges in
    if c == open_paren then pushed else if c == close_paren then popped else skipped

unfoldable pub format : Text → Result (List Range)
unfolding format_loop
format payload = format_loop 0 payload 0 [] []

contain_range : Range → ℕ → ℕ → Bool
contain_range r pre_start pre_end = ltb pre_start r.start && ltb r.end pre_end

-- Whether one of the ranges found so far has `rr` inside.
contained : Range → List Range → Bool
unfolding contain_range
contained rr [] = false
contained rr (r ∷ rs) = contain_range rr r.start r.end || contained rr rs

-- The loop of `findSubRuleRange`.
find_loop : ℕ → List Range → List Range → List Range
unfolding contained
find_loop payload_len [] sub_rule_range = sub_rule_range
find_loop payload_len (rr ∷ rrs) sub_rule_range = find_loop payload_len rrs (
    if (rr.start == 0) && (rr.end + 1 == payload_len)
    then sub_rule_range
    else if contained rr sub_rule_range
    then sub_rule_range
    else sub_rule_range ++ rr ∷ [])

unfoldable pub find_sub_rule_range : Text → List Range → List Range
unfolding find_loop
find_sub_rule_range payload rule_ranges = find_loop (length payload) rule_ranges []

-- `strings.SplitN(s, ",", 2)`: the part before the first comma and the part behind it, if there is one.
cut_comma : Text → Option (Text × Text)
cut_comma [] = none
cut_comma (c ∷ s) =
    let rest = cut_comma s in
    if c == b',' then some ([], s) else elim rest [ none ↦ none | some (a, b) ↦ some (c ∷ a, b) ]

-- The regular expression `\(.*\)`, whose dot matches no newline. The flag says that the line has an
-- opening parenthesis.
has_parens : Bool → Text → Bool
has_parens seen [] = false
has_parens seen (c ∷ s) =
    let next = has_parens (if c == open_paren then true else if c == 10 then false else seen) s in
    (seen && (c == close_paren)) || next

-- `payload[start+1 : end]`.
slice : Text → Range → Text
slice payload r = take (r.end - (r.start + 1)) (drop (r.start + 1) payload)

module _ (m : LeafMethods) (parse_rule : Text → Text → List Text → Option (Rule (m.Leaf))) where
  open m use {Leaf}

  -- `parseRule`, whose errors are passed on, with the type, the payload and the parameters.
  call_parse_rule : Text → Text → List Text → Result (Rule Leaf)
  call_parse_rule tp payload params = elim (parse_rule tp payload params) [
    | none ↦ err rule_error
    | some r ↦ ok r
  ]

  -- `param[0]` and `param[1:]`.
  parse_params : Text → List Text → Result (Rule Leaf)
  unfolding call_parse_rule
  parse_params tp [] = err rule_error
  parse_params tp (p ∷ ps) = call_parse_rule tp p ps

  is_one_of : Text → List Text → Bool
  is_one_of tp [] = false
  is_one_of tp (name ∷ names) = text_eq tp name || is_one_of tp names

  unfoldable pub payload_to_rule : Text → Result (Rule Leaf)
  unfolding parse_params is_one_of cut_comma
  payload_to_rule sub_payload = elim (cut_comma sub_payload) [
    | none ↦ err (no_comma sub_payload)
    | some (tp, payload) ↦
        if is_one_of tp (codes "MATCH" ∷ codes "SUB-RULE" ∷ [])
        then err (unsupported tp)
        else if is_one_of tp (codes "NOT" ∷ codes "OR" ∷ codes "AND" ∷ [])
        then call_parse_rule tp payload []
        else parse_params tp (split b',' payload)
  ]

  -- The loop of `parsePayload` over the sub-ranges.
  parse_ranges : Text → List Range → Result (Rules Leaf)
  unfolding payload_to_rule slice
  parse_ranges payload [] = ok nil
  parse_ranges payload (r ∷ rs) =
      let rest = parse_ranges payload rs in
      do rule ← payload_to_rule (slice payload r); rules ← rest; ok (cons rule rules)

  unfoldable pub parse_payload : Text → Result (Rules Leaf)
  unfolding parse_ranges has_parens
  parse_payload payload =
      if has_parens false payload
      then (format payload >>= λ ranges. parse_ranges payload (find_sub_rule_range payload ranges))
      else err payload_format

  any_ip : Rules Leaf → Bool
  any_ip nil = false
  any_ip (cons r rs) = should_resolve_ip m r || any_ip rs

  any_process : Rules Leaf → Bool
  any_process nil = false
  any_process (cons r rs) = should_find_process m r || any_process rs

  type_and_payload : Rule Leaf → Text
  type_and_payload r =
      codes "(" ++ (rule_type m r ++ (codes "," ++ (rule_payload m r ++ codes ")")))

  -- `strings.Join(payloads, separator)`.
  joined : Text → Rules Leaf → Text
  unfolding type_and_payload
  joined separator nil = []
  joined separator (cons r nil) = type_and_payload r
  joined separator (cons r (cons r' rs)) =
      type_and_payload r ++ (separator ++ joined separator (cons r' rs))

  not_of : Text → Rules Leaf → Result (Rule Leaf)
  unfolding type_and_payload
  not_of adapter (cons r nil) = ok (
      logic not_rule (codes "(!" ++ (type_and_payload r ++ codes ")")) adapter
        (should_resolve_ip m r) (should_find_process m r) (cons r nil))
  not_of adapter _ = err rule_count

  unfoldable pub new_not : Text → Text → Result (Rule Leaf)
  unfolding not_of
  new_not payload adapter = parse_payload payload >>= not_of adapter

  -- `NewOR` and `NewAND` differ in the type and the separator.
  list_rule : LogicType → Text → Text → Rules Leaf → Rule Leaf
  unfolding joined any_ip any_process
  list_rule t separator adapter rules =
      logic t (codes "(" ++ (joined separator rules ++ codes ")")) adapter (any_ip rules)
        (any_process rules) rules

  unfoldable pub new_or : Text → Text → Result (Rule Leaf)
  unfolding list_rule
  new_or payload adapter =
      parse_payload payload >>= λ rules. ok (list_rule or_rule (codes " || ") adapter rules)

  unfoldable pub new_and : Text → Text → Result (Rule Leaf)
  unfolding list_rule
  new_and payload adapter =
      parse_payload payload >>= λ rules. ok (list_rule and_rule (codes " && ") adapter rules)

  any_ip_of : List (Rule Leaf) → Bool
  any_ip_of [] = false
  any_ip_of (r ∷ rs) = should_resolve_ip m r || any_ip_of rs

  any_process_of : List (Rule Leaf) → Bool
  any_process_of [] = false
  any_process_of (r ∷ rs) = should_find_process m r || any_process_of rs

  sub_of : Text → Text → (Text → List (Rule Leaf)) → Rules Leaf → Result (Rule Leaf)
  unfolding any_ip_of any_process_of
  sub_of payload adapter lists (cons r nil) = ok (
      logic sub_rules payload adapter (any_ip_of (lists adapter)) (any_process_of (lists adapter))
        (cons r nil))
  sub_of payload adapter lists _ = err rule_count

  unfoldable pub new_sub_rule : Text → Text → (Text → List (Rule Leaf)) → Result (Rule Leaf)
  unfolding sub_of
  new_sub_rule payload adapter lists =
      parse_payload (codes "(" ++ (payload ++ codes ")")) >>= sub_of payload adapter lists
