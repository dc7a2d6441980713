-- ===== src/Logic/Parse/Laws.antt =====
-- Which payloads parse, and what the parsed rules are.
use go_warp_scanner.Common.Text.{Text, codes, split}
use go_warp_scanner.Logic.{or_rule, and_rule, Rule, Rules, cons, LeafMethods}
use go_warp_scanner.Logic.Match.{
  IsWhole, AreWhole, whole_not, whole_sub, whole_or, whole_and, whole_nil, whole_cons,
}
use go_warp_scanner.Logic.Parse.{
  Range, rule_error, no_comma, unsupported, payload_format, cut_comma, is_one_of, Result, ok, err,
  ◌>>=◌, open_paren, close_paren, format_loop, format, call_parse_rule, parse_params,
  payload_to_rule, parse_ranges, slice, find_sub_rule_range, has_parens, parse_payload, not_of,
  new_not, new_or, new_and, list_rule, sub_of, new_sub_rule,
}
use go_warp_scanner.Common.{
  ℕ, ◌+◌, ◌-◌, ◌<◌, ◌≡◌, refl, subst, ◌⊎◌, inl, inr, Bool, true, false, Option, some, List, [], ◌∷◌,
  ◌++◌, arith, ◌==◌, if◌then◌else◌, Bool-cases, Option-cases, length,
}

abbrev pub is_ok {ℓ} : {A : Type ℓ} → Result A → Bool
is_ok (ok a) = true
is_ok (err e) = false

-- Whether each parenthesis of the text closes, with `depth` of them open before it.
pub balanced : ℕ → Text → Bool
balanced depth [] = depth == 0
balanced depth (c ∷ s) =
    let inner = balanced (depth + 1) s in
    let outer = balanced (depth - 1) s in
    let same = balanced depth s in
    if c == open_paren
    then inner
    else if c == close_paren
    then (if depth == 0 then false else outer)
    else same

format_loop-balanced :
    (i : ℕ) (payload : Text) (num : ℕ) (stack sub_ranges : List Range)
    → is_ok (format_loop i payload num stack sub_ranges) ≡ balanced (length stack) payload
unfolding format_loop balanced
format_loop-balanced i [] num [] sub_ranges = refl
format_loop-balanced i [] num (sr ∷ stack) sub_ranges = ground arith
format_loop-balanced i (c ∷ payload) num [] sub_ranges = ground (
  arith,
  format_loop-balanced (i + 1) payload (num + 1) (record { start = i; end = 0; index = num } ∷ [])
      sub_ranges,
  format_loop-balanced (i + 1) payload num [] sub_ranges,
)
format_loop-balanced i (c ∷ payload) num (sr ∷ stack) sub_ranges = ground (
  arith,
  format_loop-balanced (i + 1) payload (num + 1)
      (record { start = i; end = 0; index = num } ∷ sr ∷ stack) sub_ranges,
  format_loop-balanced (i + 1) payload num stack (sub_ranges ++ record sr { end = i } ∷ []),
  format_loop-balanced (i + 1) payload num (sr ∷ stack) sub_ranges,
)

-- `format` returns its ranges exactly for a payload whose parentheses are balanced.
pub format-balanced : (payload : Text) → is_ok (format payload) ≡ balanced 0 payload
unfolding format
format-balanced payload = format_loop-balanced 0 payload 0 [] []

ok-injective {ℓ} : {A : Type ℓ} {a b : A} → ok a ≡ ok b → a ≡ b
ok-injective e = cc

pub >>=-eq-ok {ℓ κ} :
    {A : Type ℓ} {B : Type κ} (r : Result A) (f : A → Result B) {b : B}
    → (r >>= f) ≡ ok b
    → (a : A) × (r ≡ ok a) × (f a ≡ ok b)
>>=-eq-ok (ok a) f h = (a, refl, h)
>>=-eq-ok (err e) f h = cc

module _ (m : LeafMethods) (parse_rule : Text → Text → List Text → Option (Rule (m.Leaf)))
    (rank : Text → ℕ) (n : ℕ)
    (good : (tp payload : Text) (params : List Text) (r : Rule (m.Leaf))
      → parse_rule tp payload params ≡ some r
      → IsWhole m rank n r) where
  open m use {Leaf}

  call-IsWhole :
      (tp payload : Text) (params : List Text) {r : Rule Leaf}
      → call_parse_rule m parse_rule tp payload params ≡ ok r
      → IsWhole m rank n r
  unfolding call_parse_rule
  call-IsWhole tp payload params {r} h = elim (Option-cases (parse_rule tp payload params)) [
    | inl e ↦ let h' : err rule_error ≡ ok r = rw (e, call_parse_rule) at h in absurd (cc)
    | inr (r', e) ↦
        let h' : ok r' ≡ ok r = rw (e, call_parse_rule) at h in
        subst (IsWhole m rank n) (ground arith) (good tp payload params r' e)
  ]

  params-IsWhole :
      (tp : Text) (params : List Text) {r : Rule Leaf}
      → parse_params m parse_rule tp params ≡ ok r
      → IsWhole m rank n r
  unfolding parse_params
  params-IsWhole tp [] h = absurd (cc)
  params-IsWhole tp (p ∷ ps) h = call-IsWhole tp p ps h

  payload_to_rule-IsWhole :
      (sub_payload : Text) {r : Rule Leaf}
      → payload_to_rule m parse_rule sub_payload ≡ ok r
      → IsWhole m rank n r
  unfolding payload_to_rule
  payload_to_rule-IsWhole sub_payload {r} h = elim (Option-cases (cut_comma sub_payload)) [
    | inl e ↦
        let h' : err (no_comma sub_payload) ≡ ok r = rw (e, payload_to_rule) at h in absurd (cc)
    | inr ((tp, payload), e) ↦
        elim (Bool-cases (is_one_of m parse_rule tp (codes "MATCH" ∷ codes "SUB-RULE" ∷ []))) [
          | inl a ↦
              let h' : err (unsupported tp) ≡ ok r = rw a at (rw (e, payload_to_rule) at h) in
              absurd (cc)
          | inr a ↦
              elim (Bool-cases
                (is_one_of m parse_rule tp (codes "NOT" ∷ codes "OR" ∷ codes "AND" ∷ []))) [
                  | inl b ↦
                      call-IsWhole tp payload [] (rw b at (rw a at (rw (e, payload_to_rule) at h)))
                  | inr b ↦
                      params-IsWhole tp (split b',' payload)
                        (rw b at (rw a at (rw (e, payload_to_rule) at h)))
                ]
        ]
  ]

  parse_ranges-AreWhole :
      (payload : Text) (rs : List Range) {rules : Rules Leaf}
      → parse_ranges m parse_rule payload rs ≡ ok rules
      → AreWhole m rank n rules
  unfolding parse_ranges
  parse_ranges-AreWhole payload [] h = subst (AreWhole m rank n) (ground arith) whole_nil
  parse_ranges-AreWhole payload (r ∷ rs) h =
      let (rule, e, h') =
        >>=-eq-ok (payload_to_rule m parse_rule (slice payload r))
          (λ rule. parse_ranges m parse_rule payload rs >>= λ rules. ok (cons rule rules)) h in
      let (rest, e', h'') =
        >>=-eq-ok (parse_ranges m parse_rule payload rs) (λ rules. ok (cons rule rules)) h' in
      subst (AreWhole m rank n) (ground arith) (
        whole_cons (payload_to_rule-IsWhole (slice payload r) e)
          (parse_ranges-AreWhole payload rs e'))

  parse_payload-AreWhole :
      (payload : Text) {rules : Rules Leaf}
      → parse_payload m parse_rule payload ≡ ok rules
      → AreWhole m rank n rules
  unfolding parse_payload
  parse_payload-AreWhole payload {rules} h = elim (Bool-cases (has_parens false payload)) [
    | inl e ↦
        let (ranges, e', h') =
          >>=-eq-ok (format payload)
            (λ ranges. parse_ranges m parse_rule payload (find_sub_rule_range payload ranges))
            (rw e at h) in
        parse_ranges-AreWhole payload (find_sub_rule_range payload ranges) h'
    | inr e ↦ let h' : err payload_format ≡ ok rules = rw e at h in absurd (cc)
  ]

  -- If the rules that `parseRule` returns are complete, so is every NOT rule parsed over them.
  not_of-IsWhole :
      (adapter : Text) {rules : Rules Leaf} {r : Rule Leaf}
      → AreWhole m rank n rules
      → not_of m parse_rule adapter rules ≡ ok r
      → IsWhole m rank n r
  unfolding not_of
  not_of-IsWhole adapter whole_nil h = absurd (cc)
  not_of-IsWhole adapter (whole_cons w whole_nil) h =
      subst (IsWhole m rank n) (ok-injective h) (whole_not w)
  not_of-IsWhole adapter (whole_cons w (whole_cons w' ws)) h = absurd (cc)

  sub_of-IsWhole :
      (payload adapter : Text) (lists : Text → List (Rule Leaf)) {rules : Rules Leaf}
      {r : Rule Leaf}
      → rank adapter < n
      → AreWhole m rank n rules
      → sub_of m parse_rule payload adapter lists rules ≡ ok r
      → IsWhole m rank n r
  unfolding sub_of
  sub_of-IsWhole payload adapter lists below whole_nil h = absurd (cc)
  sub_of-IsWhole payload adapter lists below (whole_cons w whole_nil) h =
      subst (IsWhole m rank n) (ok-injective h) (whole_sub below w)
  sub_of-IsWhole payload adapter lists below (whole_cons w (whole_cons w' ws)) h = absurd (cc)

  or-IsWhole :
      (payload adapter : Text) {r : Rule Leaf}
      → new_or m parse_rule payload adapter ≡ ok r
      → IsWhole m rank n r
  unfolding new_or list_rule
  or-IsWhole payload adapter h =
      let (rules, e, h') =
        >>=-eq-ok (parse_payload m parse_rule payload)
          (λ rules. ok (list_rule m parse_rule or_rule (codes " || ") adapter rules)) h in
      subst (IsWhole m rank n) (ok-injective h') (whole_or (parse_payload-AreWhole payload e))

  and-IsWhole :
      (payload adapter : Text) {r : Rule Leaf}
      → new_and m parse_rule payload adapter ≡ ok r
      → IsWhole m rank n r
  unfolding new_and list_rule
  and-IsWhole payload adapter h =
      let (rules, e, h') =
        >>=-eq-ok (parse_payload m parse_rule payload)
          (λ rules. ok (list_rule m parse_rule and_rule (codes " && ") adapter rules)) h in
      subst (IsWhole m rank n) (ok-injective h') (whole_and (parse_payload-AreWhole payload e))

  -- A rule that one of the four parsers returns is complete, if the rules that `parseRule` returns
  -- are and, for SUB-RULE, the list that it names has a smaller rank.
  pub parsed-IsWhole :
      (payload adapter : Text) (lists : Text → List (Rule Leaf)) (r : Rule Leaf)
      → (new_not m parse_rule payload adapter ≡ ok r)
        ⊎ ((new_or m parse_rule payload adapter ≡ ok r)
            ⊎ ((new_and m parse_rule payload adapter ≡ ok r)
                ⊎ ((rank adapter < n) × (new_sub_rule m parse_rule payload adapter lists ≡ ok r))))
      → IsWhole m rank n r
  unfolding new_not new_sub_rule
  parsed-IsWhole payload adapter lists r (inl h) =
      let (rules, e, h') =
        >>=-eq-ok (parse_payload m parse_rule payload) (not_of m parse_rule adapter) h in
      not_of-IsWhole adapter (parse_payload-AreWhole payload e) h'
  parsed-IsWhole payload adapter lists r (inr (inl h)) = or-IsWhole payload adapter h
  parsed-IsWhole payload adapter lists r (inr (inr (inl h))) = and-IsWhole payload adapter h
  parsed-IsWhole payload adapter lists r (inr (inr (inr (below, h)))) =
      let (rules, e, h') =
        >>=-eq-ok (parse_payload m parse_rule (codes "(" ++ (payload ++ codes ")")))
          (sub_of m parse_rule payload adapter lists) h in
      sub_of-IsWhole payload adapter lists below
        (parse_payload-AreWhole (codes "(" ++ (payload ++ codes ")")) e) h'
