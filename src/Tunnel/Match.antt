-- ===== src/Tunnel/Match.antt =====
-- tunnel/tunnel.go: which rule and which proxy `match` chooses.
use go_warp_scanner.Common.Text.{Text, codes}
use go_warp_scanner.Tunnel.{
  Metadata, Proxy, Env, MatchState, supports_udp, passes, should_resolve_ip, with_ip, with_process,
  resolve_step, process_step, prepare, usable, match_loop, get_rules, start, match_rules,
}
use go_warp_scanner.Common.{
  ℕ, ◌≡◌, refl, sym, ap, ◌∙◌, inl, inr, true, false, not, ◌&&◌, ◌||◌, Option, none, some, List, [],
  ◌∷◌, ◌++◌, if◌then◌else◌, Bool-cases, Option-cases,
}

module _ {R : Type 0} (env : Env R) where
  open env use {Rule, rule_match, proxies, resolve_ip, find_process}

  -- What a rule gives in the state in which it is matched: the proxy, or nothing.
  abbrev pub choice : Rule → MatchState R → Option (Proxy R)
  choice r s =
      let m = (prepare env r s).meta in
      if (rule_match r m).0 then usable env m (rule_match r m).1 else none

  -- The state behind some rules that give nothing.
  abbrev pub prepare_all : List Rule → MatchState R → MatchState R
  prepare_all [] s = s
  prepare_all (r ∷ rs) s = prepare_all rs (prepare env r s)

  -- Each of some rules, matched in turn, gives nothing.
  abbrev pub AllSkipped : List Rule → MatchState R → Type 0
  AllSkipped [] s = Unit
  AllSkipped (r ∷ rs) s = (choice r s ≡ none) × AllSkipped rs (prepare env r s)

  -- The result of `match`: the first rule that gives a proxy, with it, or the proxy DIRECT and no rule.
  pub data Chosen (rs : List Rule) (s : MatchState R)
      (result : MatchState R × (Option (Proxy R) × Option Rule)) : Type 0 where
    by_rule :
        (before : List Rule) (r : Rule) (after : List Rule) (a : Proxy R)
        → rs ≡ before ++ r ∷ after
        → AllSkipped before s
        → choice r (prepare_all before s) ≡ some a
        → result ≡ (prepare env r (prepare_all before s), (some a, some r))
        → Chosen rs s result
    by_default : AllSkipped rs s → result.1 ≡ (proxies (codes "DIRECT"), none) → Chosen rs s result

  match_loop-skip :
      (r : Rule) (rs : List Rule) (s : MatchState R)
      → choice r s ≡ none
      → match_loop env (r ∷ rs) s ≡ match_loop env rs (prepare env r s)
  unfolding match_loop
  match_loop-skip r rs s e =
      let m = (prepare env r s).meta in
      elim (Bool-cases (rule_match r m).0) [
        | inl t ↦ rw t (rw (rw t at e, match_loop) refl)
        | inr t ↦ rw t refl
      ]

  match_loop-take :
      (r : Rule) (rs : List Rule) (s : MatchState R) (a : Proxy R)
      → choice r s ≡ some a
      → match_loop env (r ∷ rs) s ≡ (prepare env r s, (some a, some r))
  unfolding match_loop
  match_loop-take r rs s a e =
      let m = (prepare env r s).meta in
      elim (Bool-cases (rule_match r m).0) [
        | inl t ↦ rw t (rw (rw t at e, match_loop) refl)
        | inr t ↦ let e' : none ≡ some a = rw t at e in absurd (cc)
      ]

  match_loop-Chosen : (rs : List Rule) (s : MatchState R) → Chosen rs s (match_loop env rs s)
  unfolding match_loop
  match_loop-Chosen [] s = by_default tt refl
  match_loop-Chosen (r ∷ rs) s = elim (Option-cases (choice r s)) [
    | inr (a, e) ↦ by_rule [] r rs a refl tt e (match_loop-take r rs s a e)
    | inl e ↦ further r rs s e (match_loop-Chosen rs (prepare env r s))
  ]
    where
      further :
          (r : Rule) (rs : List Rule) (s : MatchState R)
          → choice r s ≡ none
          → Chosen rs (prepare env r s) (match_loop env rs (prepare env r s))
          → Chosen (r ∷ rs) s (match_loop env (r ∷ rs) s)
      further r rs s e (by_rule before q after a split skipped taken result) =
          by_rule (r ∷ before) q after a (ap (λ x. r ∷ x) split) (e, skipped) taken
            (match_loop-skip r rs s e ∙ result)
      further r rs s e (by_default skipped result) =
          by_default (e, skipped) (ap (λ x. x.1) (match_loop-skip r rs s e) ∙ result)

  -- `match` takes the first of the rules for the metadata that matches, in the metadata of its time, with a proxy of
  -- its name that may be used, and that proxy; if there is none, it takes DIRECT and no rule.
  pub match_rules-Chosen :
      (m : Metadata R) → Chosen (get_rules env (start env m).meta) (start env m) (match_rules env m)
  unfolding match_rules
  match_rules-Chosen m = match_loop-Chosen (get_rules env (start env m).meta) (start env m)

  usable_lem :
      (m : Metadata R) (name : Text) (a : Proxy R)
      → usable env m name ≡ some a
      → (proxies name ≡ some a) × (passes m a ≡ false) × ((m.udp && not (supports_udp a)) ≡ false)
  unfolding usable
  usable_lem m name a e = elim (Option-cases (proxies name)) [
    | inl f ↦ let e' : none ≡ some a = rw (f, usable) at e in absurd (cc)
    | inr (b, f) ↦ by_guards m b (rw (f, usable) at e) f
  ]
    where
      by_guards :
          (m : Metadata R) (b : Proxy R)
          → (if passes m b then none else if m.udp && not (supports_udp b) then none else some b)
            ≡ some a
          → proxies name ≡ some b
          → (proxies name ≡ some a)
            × (passes m a ≡ false)
            × ((m.udp && not (supports_udp a)) ≡ false)
      by_guards m b e f = elim (Bool-cases (passes m b)) [
        | inl t ↦ let e' : none ≡ some a = rw t at e in absurd (cc)
        | inr t ↦ elim (Bool-cases (m.udp && not (supports_udp b))) [
          | inl u ↦ let e' : none ≡ some a = rw (t, u) at e in absurd (cc)
          | inr u ↦
              let e' : some b ≡ some a = rw (t, u) at e in
              let k : b ≡ a = cc in
              (
                f ∙ e',
                ap (passes m) (sym k) ∙ t,
                ap (λ x. m.udp && not (supports_udp x)) (sym k) ∙ u,
              )
        ]
      ]

  udp-prepare : (r : Rule) (s : MatchState R) → (prepare env r s).meta.udp ≡ s.meta.udp
  unfolding prepare resolve_step process_step
  udp-prepare r s = udp-process r (resolve_step env r s) ∙ udp-resolve r s
    where
      udp-with_ip : (o : Option ℕ) (m : Metadata R) → (with_ip env o m).udp ≡ m.udp
      udp-with_ip none m = refl
      udp-with_ip (some ip) m = refl

      udp-with_process :
          (o : Option (Text × Text × ℕ)) (s : MatchState R)
          → (with_process env o s).meta.udp ≡ s.meta.udp
      udp-with_process none s = refl
      udp-with_process (some p) s = refl

      udp-resolve : (r : Rule) (s : MatchState R) → (resolve_step env r s).meta.udp ≡ s.meta.udp
      udp-resolve r s = elim (Bool-cases (not s.resolved && should_resolve_ip env r s.meta)) [
        | inl t ↦ rw t (udp-with_ip (resolve_ip s.meta.host) s.meta)
        | inr t ↦ rw t refl
      ]

      udp-process : (r : Rule) (s : MatchState R) → (process_step env r s).meta.udp ≡ s.meta.udp
      udp-process r s =
          elim (Bool-cases (
            not env.process_off
            && (not s.process_found && (env.process_always || env.rule_process r)))) [
              | inl t ↦ rw t (udp-with_process (find_process s.meta) s)
              | inr t ↦ rw t refl
            ]

  udp-prepare_all : (rs : List Rule) (s : MatchState R) → (prepare_all rs s).meta.udp ≡ s.meta.udp
  udp-prepare_all [] s = refl
  udp-prepare_all (r ∷ rs) s = udp-prepare_all rs (prepare env r s) ∙ udp-prepare r s

  udp-start : (m : Metadata R) → (start env m).meta.udp ≡ m.udp
  unfolding start
  udp-start m = elim (Bool-cases (env.search_hosts m.host false).1) [
    | inl t ↦ rw t refl
    | inr t ↦ rw t refl
  ]

  -- A proxy that `match` returns with a rule is the one named by that rule, which matches the metadata that `match`
  -- leaves; neither it nor a proxy in use behind it is of the type Pass, and it supports UDP if the connection needs that.
  pub match_rules_safe :
      (m : Metadata R) (a : Proxy R) (r : Rule)
      → (match_rules env m).1 ≡ (some a, some r)
      → ((rule_match r (match_rules env m).0.meta).0 ≡ true)
        × (proxies (rule_match r (match_rules env m).0.meta).1 ≡ some a)
        × (passes (match_rules env m).0.meta a ≡ false)
        × ((m.udp && not (supports_udp a)) ≡ false)
  match_rules_safe m a r e = by_choice (match_rules-Chosen m)
    where
      some_inj : {x y : Rule} → some x ≡ some y → x ≡ y
      some_inj e = cc

      named :
          (s : MatchState R) (a : Proxy R)
          → choice r s ≡ some a
          → ((rule_match r (prepare env r s).meta).0 ≡ true)
            × (proxies (rule_match r (prepare env r s).meta).1 ≡ some a)
            × (passes (prepare env r s).meta a ≡ false)
            × (((prepare env r s).meta.udp && not (supports_udp a)) ≡ false)
      named s a c = elim (Bool-cases (rule_match r (prepare env r s).meta).0) [
        | inl t ↦
            let (x, y, z) =
              usable_lem (prepare env r s).meta (rule_match r (prepare env r s).meta).1 a
                (rw t at c) in
            (t, x, y, z)
        | inr t ↦ let c' : none ≡ some a = rw t at c in absurd (cc)
      ]

      by_choice :
          Chosen (get_rules env (start env m).meta) (start env m) (match_rules env m)
          → ((rule_match r (match_rules env m).0.meta).0 ≡ true)
            × (proxies (rule_match r (match_rules env m).0.meta).1 ≡ some a)
            × (passes (match_rules env m).0.meta a ≡ false)
            × ((m.udp && not (supports_udp a)) ≡ false)
      by_choice (by_default skipped result) =
          let f : none ≡ some r = sym (ap (λ x. x.1) result) ∙ ap (λ x. x.1) e in absurd (cc)
      by_choice (by_rule before q after b split skipped taken result) =
          let st = prepare_all before (start env m) in
          let both : (some b, some q) ≡ (some a, some r) = sym (ap (λ x. x.1) result) ∙ e in
          let same_proxy : some b ≡ some a = ap (λ x. x.0) both in
          let same_rule : some q ≡ some r = ap (λ x. x.1) both in
          let k : q ≡ r = some_inj same_rule in
          let (hit, name, no_pass, udp) =
            named st a (ap (λ x. choice x st) (sym k) ∙ taken ∙ same_proxy) in
          let at_end : (match_rules env m).0 ≡ prepare env r st =
            ap (λ x. x.0) result ∙ ap (λ x. prepare env x st) k in
          let kept : (prepare env r st).meta.udp ≡ m.udp =
            udp-prepare r st ∙ udp-prepare_all before (start env m) ∙ udp-start m in
          rw at_end (hit, name, no_pass, rw (← kept) udp)
