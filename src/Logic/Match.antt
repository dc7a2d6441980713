-- ===== src/Logic/Match.antt =====
-- What the logic rules decide, and what a list of sub-rules decides.
use go_warp_scanner.Common.Text.{Text}
use go_warp_scanner.Logic.{
  sub_rules, not_rule, or_rule, and_rule, Rule, leaf, logic, Rules, nil, cons, LeafMethods,
  MatchResult, rule_adapter, is_sub_rule, match_rule, match_sub, match_not, match_or, match_and,
  match_list, match_sub_rules,
}
use go_warp_scanner.Common.{
  ℕ, zero, suc, ◌<◌, ◌≡◌, refl, ◌⊎◌, inl, inr, Bool, true, false, not, ◌&&◌, ◌||◌, none, some, List,
  [], ◌∷◌, arith, if◌then◌else◌, Bool-cases, Option-cases,
}

module _ (m : LeafMethods) where
  open m use {Leaf, Meta, leaf_match}

  -- A NOT or SUB-RULE has a rule, and a SUB-RULE names a list of a rank below `n`.
  mutual
    pub data IsWhole (rank : Text → ℕ) (n : ℕ) : Rule Leaf → Type 0 where
      whole_leaf : {l : Leaf} → IsWhole rank n (leaf l)
      whole_sub :
          {payload adapter : Text} {ip process : Bool} {r : Rule Leaf} {rs : Rules Leaf}
          → rank adapter < n
          → IsWhole rank n r
          → IsWhole rank n (logic sub_rules payload adapter ip process (cons r rs))
      whole_not :
          {payload adapter : Text} {ip process : Bool} {r : Rule Leaf} {rs : Rules Leaf}
          → IsWhole rank n r
          → IsWhole rank n (logic not_rule payload adapter ip process (cons r rs))
      whole_or :
          {payload adapter : Text} {ip process : Bool} {rs : Rules Leaf}
          → AreWhole rank n rs
          → IsWhole rank n (logic or_rule payload adapter ip process rs)
      whole_and :
          {payload adapter : Text} {ip process : Bool} {rs : Rules Leaf}
          → AreWhole rank n rs
          → IsWhole rank n (logic and_rule payload adapter ip process rs)

    pub data AreWhole (rank : Text → ℕ) (n : ℕ) : Rules Leaf → Type 0 where
      whole_nil : AreWhole rank n nil
      whole_cons :
          {r : Rule Leaf} {rs : Rules Leaf}
          → IsWhole rank n r
          → AreWhole rank n rs
          → AreWhole rank n (cons r rs)

  -- Every rule of a list is whole.
  abbrev pub AllWhole : (Text → ℕ) → ℕ → List (Rule Leaf) → Type 0
  AllWhole rank n [] = Unit
  AllWhole rank n (r ∷ rs) = IsWhole rank n r × AllWhole rank n rs

  -- What a rule means, where `hits` says whether a named list matches: NOT is negation of its rule,
  -- OR and AND are the disjunction and conjunction of theirs, SUB-RULE is the conjunction of its
  -- rule with its list.
  unfoldable mutual
    pub denote : (Text → Bool) → Meta → Rule Leaf → Bool
    denote hits meta (leaf l) = (leaf_match l meta).0
    denote hits meta (logic sub_rules payload adapter ip process rules) =
        denote_head hits meta rules && hits adapter
    denote hits meta (logic not_rule payload adapter ip process rules) =
        not (denote_head hits meta rules)
    denote hits meta (logic or_rule payload adapter ip process rules) = denote_any hits meta rules
    denote hits meta (logic and_rule payload adapter ip process rules) = denote_all hits meta rules

    pub denote_head : (Text → Bool) → Meta → Rules Leaf → Bool
    denote_head hits meta nil = false
    denote_head hits meta (cons r rs) = denote hits meta r

    pub denote_any : (Text → Bool) → Meta → Rules Leaf → Bool
    denote_any hits meta nil = false
    denote_any hits meta (cons r rs) = denote hits meta r || denote_any hits meta rs

    pub denote_all : (Text → Bool) → Meta → Rules Leaf → Bool
    denote_all hits meta nil = true
    denote_all hits meta (cons r rs) = denote hits meta r && denote_all hits meta rs

  -- A match result with a given verdict.
  abbrev pub Decides : MatchResult → Bool → Type 0
  Decides result b = (a : Text) × (result ≡ some (b, a))

  module _ (sub : Text → MatchResult) (meta : Meta) (hits : Text → Bool) (rank : Text → ℕ) (n : ℕ)
      (known : (name : Text) → rank name < n → Decides (sub name) (hits name)) where
    sub_step-Decides :
        (adapter : Text) (r : Rule Leaf) (rs : Rules Leaf)
        → rank adapter < n
        → Decides (match_rule m sub meta r) (denote hits meta r)
        → Decides (match_sub m sub meta adapter (cons r rs)) (denote hits meta r && hits adapter)
    unfolding match_rule
    sub_step-Decides adapter r rs below (a, e) = by_verdict (denote hits meta r) e
      where
        by_verdict :
            (b : Bool)
            → match_rule m sub meta r ≡ some (b, a)
            → Decides (match_sub m sub meta adapter (cons r rs)) (b && hits adapter)
        by_verdict true e' = let (a', k) = known adapter below in (a', rw (e', match_sub) k)
        by_verdict false e' = ([], rw (e', match_sub))

    not_step-Decides :
        (adapter : Text) (r : Rule Leaf) (rs : Rules Leaf)
        → Decides (match_rule m sub meta r) (denote hits meta r)
        → Decides (match_not m sub meta adapter (cons r rs)) (not (denote hits meta r))
    unfolding match_rule
    not_step-Decides adapter r rs (a, e) = by_verdict (denote hits meta r) e
      where
        by_verdict :
            (b : Bool)
            → match_rule m sub meta r ≡ some (b, a)
            → Decides (match_not m sub meta adapter (cons r rs)) (not b)
        by_verdict true e' = ([], rw (e', match_not))
        by_verdict false e' = (adapter, rw (e', match_not))

    or_step-Decides :
        (adapter : Text) (r : Rule Leaf) (rs : Rules Leaf) (rest : Bool)
        → Decides (match_rule m sub meta r) (denote hits meta r)
        → Decides (match_or m sub meta adapter rs) rest
        → Decides (match_or m sub meta adapter (cons r rs)) (denote hits meta r || rest)
    unfolding match_rule
    or_step-Decides adapter r rs rest (a, e) (a', e') = by_verdict (denote hits meta r) e
      where
        by_verdict :
            (b : Bool)
            → match_rule m sub meta r ≡ some (b, a)
            → Decides (match_or m sub meta adapter (cons r rs)) (b || rest)
        by_verdict true q = (adapter, rw (q, match_or))
        by_verdict false q = (a', rw (q, match_or) e')

    and_step-Decides :
        (adapter : Text) (r : Rule Leaf) (rs : Rules Leaf) (rest : Bool)
        → Decides (match_rule m sub meta r) (denote hits meta r)
        → Decides (match_and m sub meta adapter rs) rest
        → Decides (match_and m sub meta adapter (cons r rs)) (denote hits meta r && rest)
    unfolding match_rule
    and_step-Decides adapter r rs rest (a, e) (a', e') = by_verdict (denote hits meta r) e
      where
        by_verdict :
            (b : Bool)
            → match_rule m sub meta r ≡ some (b, a)
            → Decides (match_and m sub meta adapter (cons r rs)) (b && rest)
        by_verdict true q = (a', rw (q, match_and) e')
        by_verdict false q = (adapter, rw (q, match_and))

    mutual
      unfolding match_rule denote

      match_rule-Decides :
          {r : Rule Leaf}
          → IsWhole rank n r
          → Decides (match_rule m sub meta r) (denote hits meta r)
      match_rule-Decides (whole_leaf {l}) = ((leaf_match l meta).1, refl)
      match_rule-Decides (whole_sub {adapter = adapter} {r = r} {rs = rs} below w) =
          sub_step-Decides adapter r rs below (match_rule-Decides w)
      match_rule-Decides (whole_not {adapter = adapter} {r = r} {rs = rs} w) =
          not_step-Decides adapter r rs (match_rule-Decides w)
      match_rule-Decides (whole_or {adapter = adapter} ws) = match_or-Decides adapter ws
      match_rule-Decides (whole_and {adapter = adapter} ws) = match_and-Decides adapter ws

      match_or-Decides :
          {rs : Rules Leaf} (adapter : Text)
          → AreWhole rank n rs
          → Decides (match_or m sub meta adapter rs) (denote_any hits meta rs)
      match_or-Decides adapter whole_nil = ([], refl)
      match_or-Decides adapter (whole_cons {r} {rs} w ws) =
          or_step-Decides adapter r rs (denote_any hits meta rs) (match_rule-Decides w)
            (match_or-Decides adapter ws)

      match_and-Decides :
          {rs : Rules Leaf} (adapter : Text)
          → AreWhole rank n rs
          → Decides (match_and m sub meta adapter rs) (denote_all hits meta rs)
      match_and-Decides adapter whole_nil = (adapter, refl)
      match_and-Decides adapter (whole_cons {r} {rs} w ws) =
          and_step-Decides adapter r rs (denote_all hits meta rs) (match_rule-Decides w)
            (match_and-Decides adapter ws)

    -- A rule whose NOT and SUB-RULE parts are complete, and whose SUB-RULE parts name lists that are
    -- known to decide, matches with the verdict of its meaning.
    pub match_rule-denote :
        (r : Rule Leaf)
        → IsWhole rank n r
        → (a : Text) × (match_rule m sub meta r ≡ some (denote hits meta r, a))
    match_rule-denote r w = match_rule-Decides w

    sub_rank :
        {r : Rule Leaf} → IsWhole rank n r → is_sub_rule m r ≡ true → rank (rule_adapter m r) < n
    unfolding rule_adapter
    sub_rank whole_leaf e = absurd (cc)
    sub_rank (whole_sub below w) e = below
    sub_rank (whole_not w) e = absurd (cc)
    sub_rank (whole_or ws) e = absurd (cc)
    sub_rank (whole_and ws) e = absurd (cc)

    match_list_total :
        (rs : List (Rule Leaf))
        → AllWhole rank n rs
        → (result : Bool × Text) × (match_list m sub meta rs ≡ some result)
    unfolding match_list
    match_list_total [] ws = ((false, []), refl)
    match_list_total (r ∷ rs) (w, ws) =
        let (a, e) = match_rule-Decides w in
        by_verdict a (denote hits meta r) e (match_list_total rs ws)
      where
        by_verdict :
            (a : Text) (b : Bool)
            → match_rule m sub meta r ≡ some (b, a)
            → (result : Bool × Text) × (match_list m sub meta rs ≡ some result)
            → (result : Bool × Text) × (match_list m sub meta (r ∷ rs) ≡ some result)
        by_verdict a false e rest = (rest.0, rw (e, match_list) (rest.1))
        by_verdict a true e rest = elim (Bool-cases (is_sub_rule m r)) [
          | inl nested ↦
              let (a', k) = known (rule_adapter m r) (sub_rank w nested) in
              (rest.0, rw (e, match_list) (rw nested (rw (k, match_list) (rest.1))))
          | inr direct ↦ ((true, a), rw (e, match_list) (rw direct))
        ]

  verdict : MatchResult → Bool
  verdict none = false
  verdict (some (b, a)) = b

  verdict-Decides :
      (result : MatchResult)
      → ((r : Bool × Text) × (result ≡ some r))
      → Decides result (verdict result)
  unfolding verdict
  verdict-Decides none (r, e) = absurd (cc)
  verdict-Decides (some (b, a)) h = (a, refl)

  -- If every rule of every list is complete and its SUB-RULE parts name lists of smaller rank, so
  -- that no list leads back to itself, then the match of a list ends with a result once the fuel
  -- exceeds its rank.
  pub match_sub_rules_total :
      (lists : Text → List (Rule Leaf)) (meta : Meta) (rank : Text → ℕ)
      → ((name : Text) → AllWhole rank (rank name) (lists name))
      → (fuel : ℕ) (name : Text) → rank name < fuel
      → (result : Bool × Text) × (match_sub_rules m fuel lists meta name ≡ some result)
  unfolding match_sub_rules
  match_sub_rules_total lists meta rank whole zero name h = absurd (omega arith)
  match_sub_rules_total lists meta rank whole (suc fuel) name h =
      match_list_total (match_sub_rules m fuel lists meta) meta
        (λ t. verdict (match_sub_rules m fuel lists meta t)) rank (rank name)
        (λ t below.
          verdict-Decides (match_sub_rules m fuel lists meta t)
            (match_sub_rules_total lists meta rank whole fuel t (omega arith)))
        (lists name) (whole name)

  -- The rules of a list that are not SUB-RULEs.
  pub direct : List (Rule Leaf) → List (Rule Leaf)
  direct [] = []
  direct (r ∷ rs) = let rest = direct rs in if is_sub_rule m r then rest else r ∷ rest

  -- One rule of the list, with the claim for the rest.
  module _ (sub : Text → MatchResult) (meta : Meta) (r : Rule Leaf) (rs : List (Rule Leaf))
      (result : Bool × Text) (h : match_list m sub meta (r ∷ rs) ≡ some result)
      (ih : match_list m sub meta rs ≡ some result
        → match_list m sub meta (direct rs) ≡ some result) where
    by_result :
        (o : MatchResult)
        → match_rule m sub meta r ≡ o
        → (is_sub_rule m r ≡ true) ⊎ (is_sub_rule m r ≡ false)
        → match_list m sub meta (direct (r ∷ rs)) ≡ some result
    unfolding match_list direct
    by_result none e c = let h' : none ≡ some result = rw (e, match_list) at h in absurd (cc)
    by_result (some (false, a)) e (inl nested) = rw nested (ih (rw (e, match_list) at h))
    by_result (some (false, a)) e (inr plain) =
        rw plain (rw (e, match_list) (ih (rw (e, match_list) at h)))
    by_result (some (true, a)) e (inl nested) = elim (Option-cases (sub (rule_adapter m r))) [
      | inl k ↦
          let h' : none ≡ some result = rw k at (rw nested at (rw (e, match_list) at h)) in
          absurd (cc)
      | inr (t, k) ↦ rw nested (ih (rw k at (rw nested at (rw (e, match_list) at h))))
    ]
    by_result (some (true, a)) e (inr plain) =
        rw plain (rw (e, match_list) (rw plain (rw plain at (rw (e, match_list) at h))))

  -- A SUB-RULE inside a list of sub-rules never decides: where the match of a list ends, its result
  -- is that of the list without its SUB-RULEs, also if one of them matches.
  pub match_list-direct :
      (sub : Text → MatchResult) (meta : Meta) (rs : List (Rule Leaf)) (result : Bool × Text)
      → match_list m sub meta rs ≡ some result
      → match_list m sub meta (direct rs) ≡ some result
  unfolding match_list direct
  match_list-direct sub meta [] result h = h
  match_list-direct sub meta (r ∷ rs) result h =
      by_result sub meta r rs result h (match_list-direct sub meta rs result)
        (match_rule m sub meta r) refl (Bool-cases (is_sub_rule m r))
