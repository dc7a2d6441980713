-- ===== src/Tunnel/Resolver.antt =====
-- tunnel/tunnel.go: how often `match` asks the resolver.
use go_warp_scanner.Common.Text.{Text}
use go_warp_scanner.Tunnel.{
  Metadata, Env, MatchState, should_resolve_ip, with_process, resolve_step, process_step, prepare,
  usable, match_loop, get_rules, start, match_rules,
}
use go_warp_scanner.Common.{
  ℕ, ◌≤◌, ◌≡◌, refl, ap, ◌∙◌, ◌⊎◌, inl, inr, true, false, not, ◌&&◌, ◌||◌, Option, none, some, List,
  [], ◌∷◌, ◌++◌, arith, Bool-cases, Option-cases, length,
}

module _ {R : Type 0} (env : Env R) where
  open env use {Rule, rule_match, find_process}

  -- The resolver was not asked, or once and then the address counts as resolved.
  abbrev AskedOnce : MatchState R → Type 0
  AskedOnce s = (s.asked ≡ []) ⊎ ((s.resolved ≡ true) × (length s.asked ≡ 1))

  resolve_step-AskedOnce :
      (r : Rule) (s : MatchState R) → AskedOnce s → AskedOnce (resolve_step env r s)
  unfolding resolve_step
  resolve_step-AskedOnce r s once =
      elim (Bool-cases (not s.resolved && should_resolve_ip env r s.meta)) [
        | inl t ↦ rw t (inr (refl, from once t))
        | inr t ↦ rw t once
      ]
    where
      from :
          AskedOnce s
          → (not s.resolved && should_resolve_ip env r s.meta) ≡ true
          → length (s.asked ++ s.meta.host ∷ []) ≡ 1
      from (inl none_yet) t = ap (λ x. length (x ++ s.meta.host ∷ [])) none_yet
      from (inr (known, one)) t = let t' : false ≡ true = rw known at t in absurd (cc)

  process_step-asked :
      (r : Rule) (s : MatchState R)
      → ((process_step env r s).asked ≡ s.asked) × ((process_step env r s).resolved ≡ s.resolved)
  unfolding process_step
  process_step-asked r s =
      elim (Bool-cases (
        not env.process_off
        && (not s.process_found && (env.process_always || env.rule_process r)))) [
          | inl t ↦ rw t (by_process (find_process s.meta))
          | inr t ↦ rw t (refl, refl)
        ]
    where
      by_process :
          (o : Option (Text × Text × ℕ))
          → ((with_process env o s).asked ≡ s.asked)
            × ((with_process env o s).resolved ≡ s.resolved)
      by_process none = (refl, refl)
      by_process (some p) = (refl, refl)

  prepare-AskedOnce : (r : Rule) (s : MatchState R) → AskedOnce s → AskedOnce (prepare env r s)
  unfolding prepare
  prepare-AskedOnce r s once =
      let (same, known) = process_step-asked r (resolve_step env r s) in
      elim (resolve_step-AskedOnce r s once) [
        | inl e ↦ inl (same ∙ e)
        | inr (k, one) ↦ inr (known ∙ k, ap length same ∙ one)
      ]

  match_loop-AskedOnce :
      (rs : List Rule) (s : MatchState R) → AskedOnce s → AskedOnce (match_loop env rs s).0
  unfolding match_loop
  match_loop-AskedOnce [] s once = once
  match_loop-AskedOnce (r ∷ rs) s once =
      let s' = prepare env r s in
      let here = prepare-AskedOnce r s once in
      let rest = match_loop-AskedOnce rs s' here in
      elim (Bool-cases (rule_match r s'.meta).0) [
        | inl t ↦ elim (Option-cases (usable env s'.meta (rule_match r s'.meta).1)) [
          | inl f ↦ rw t (rw (f, match_loop) rest)
          | inr (a, f) ↦ rw t (rw (f, match_loop) here)
        ]
        | inr t ↦ rw t rest
      ]

  -- `match` asks the resolver for at most one address, however many rules want it.
  pub length-match_rules : (m : Metadata R) → length (match_rules env m).0.asked ≤ 1
  unfolding match_rules start
  length-match_rules m =
      at_most_one
        (match_loop-AskedOnce (get_rules env (start env m).meta) (start env m) (inl at_start))
    where
      at_start : (start env m).asked ≡ []
      at_start = elim (Bool-cases (env.search_hosts m.host false).1) [
        | inl t ↦ rw t refl
        | inr t ↦ rw t refl
      ]

      at_most_one :
          AskedOnce (match_loop env (get_rules env (start env m).meta) (start env m)).0
          → length (match_loop env (get_rules env (start env m).meta) (start env m)).0.asked ≤ 1
      at_most_one (inl e) = rw e (omega arith)
      at_most_one (inr (k, one)) = omega arith
