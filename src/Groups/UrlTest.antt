-- ===== src/Groups/UrlTest.antt =====
-- adapter/outboundgroup/urltest.go: the fastest proxy, with a tolerance for the one in use.
use go_warp_scanner.Common.Text.{Text, text_eq, text_eq→≡}
use go_warp_scanner.Scanner.Ping.{u16}
use go_warp_scanner.Adapter.Proxy.{last_delay, max_delay}
use go_warp_scanner.Groups.{Proxies, is_alive, delay_of, Members, all_of}
use go_warp_scanner.Common.{
  ℕ, zero, suc, ◌+◌, ◌^◌, ◌≤◌, ◌<◌, ◌≡◌, refl, sym, ap, ◌∙◌, subst, ◌≢◌, inl, inr, Bool, true,
  false, not, ◌||◌, Option, none, some, List, [], ◌∷◌, arith, ltb, if◌then◌else◌, Bool-cases,
  Option-cases, get_elem?,
}

module _ (ps : Proxies) where
  open ps use {Ref, name}

  pub record UrlTest : Type 0 where
    pub selected : Text
    pub tolerance : ℕ  -- uint16
    pub fast_node : Option Ref

  -- The first proxy by a name.
  unfoldable pub find_name : Text → List Ref → Option Ref
  find_name wanted [] = none
  find_name wanted (p ∷ rest) = if text_eq (name p) wanted then some p else find_name wanted rest

  -- The loop of `fast` for the selected proxy.
  find_selected : Text → List Ref → Option Ref
  find_selected selected [] = none
  find_selected selected (p ∷ rest) =
      if not (is_alive ps p)
      then find_selected selected rest
      else if text_eq (name p) selected
      then some p
      else find_selected selected rest

  -- The loop of `fast` for the smallest delay.
  fast_loop : Ref → ℕ → List Ref → Ref
  fast_loop fast least [] = fast
  fast_loop fast least (p ∷ rest) =
      let kept = fast_loop fast least rest in
      let taken = fast_loop p (delay_of ps p) rest in
      if not (is_alive ps p) then kept else if ltb (delay_of ps p) least then taken else kept

  -- `fastNotExist`: the loop looks for the proxy in use behind the first one only.
  fast_not_exist : Option Ref → List Ref → Bool
  fast_not_exist none rest = true
  fast_not_exist (some node) [] = true
  fast_not_exist (some node) (p ∷ rest) =
      if text_eq (name p) (name node) then false else fast_not_exist (some node) rest

  -- The tolerance; the sum is one of `uint16`.
  next_node : UrlTest → Bool → Ref → Ref
  next_node u not_exist fast = elim u.fast_node [
    | none ↦ fast
    | some node ↦
        if not_exist
          || not (is_alive ps node)
          || ltb (u16 (delay_of ps fast + u.tolerance)) (delay_of ps node)
        then fast
        else node
  ]

  -- The function that `fast` runs.
  measure : UrlTest → Members ps → UrlTest × Ref
  unfolding fast_loop fast_not_exist next_node
  measure u (first, rest) =
      let node =
        next_node u (fast_not_exist u.fast_node rest) (fast_loop first (delay_of ps first) rest) in
      (record u { fast_node = some node }, node)

  -- `fast` without the touch of the providers. `recent` is the result that `fastSingle` still keeps
  -- from a call before, if there is one.
  unfoldable pub fast : Option Ref → UrlTest → Members ps → UrlTest × Ref
  unfolding find_selected measure
  fast recent u members =
      let selected =
        if text_eq u.selected [] then none else find_selected u.selected (all_of ps members) in
      elim selected [
        | some p ↦ (record u { fast_node = some p }, p)
        | none ↦ elim recent [ some p ↦ (u, p) | none ↦ measure u members ]
      ]

  -- `Set`; `none` is its error.
  unfoldable pub set : Option Ref → Text → UrlTest → Members ps → Option UrlTest
  unfolding fast find_name
  set recent wanted u members = elim (find_name wanted (all_of ps members)) [
    | none ↦ none
    | some p ↦ some ((fast recent (record u { selected = wanted }) members).0)
  ]

  delay_bound : (p : Ref) → is_alive ps p ≡ false → delay_of ps p ≡ max_delay
  unfolding is_alive delay_of last_delay
  delay_bound p e = rw e

  -- Delays are numbers of 16 bits.
  abbrev pub AreDelays : Type 0
  AreDelays = (p : Ref) → delay_of ps p ≤ max_delay

  fast_loop_least :
      (fast : Ref) (rest : List Ref)
      → delay_of ps (fast_loop fast (delay_of ps fast) rest) ≤ delay_of ps fast
  unfolding fast_loop
  fast_loop_least fast [] = omega arith
  fast_loop_least fast (p ∷ rest) =
      ground (arith, fast_loop_least fast rest, fast_loop_least p rest)

  -- Behind the first one too, no proxy has a smaller delay than the loop's: a dead one has the largest.
  fast_loop_least_of :
      (bounded : AreDelays) (fast p : Ref) (rest : List Ref) (i : ℕ)
      → get_elem? rest i ≡ some p
      → delay_of ps (fast_loop fast (delay_of ps fast) rest) ≤ delay_of ps p
  unfolding fast_loop
  fast_loop_least_of bounded fast p [] i e = absurd (cc)
  fast_loop_least_of bounded fast p (q ∷ rest) zero e =
      let same : q ≡ p = cc in
      subst (λ r. delay_of ps (fast_loop fast (delay_of ps fast) (q ∷ rest)) ≤ delay_of ps r) same
        (ground (
          arith,
          fast_loop_least fast rest,
          fast_loop_least q rest,
          delay_bound q,
          bounded (fast_loop fast (delay_of ps fast) rest),
        ))
  fast_loop_least_of bounded fast p (q ∷ rest) (suc i) e =
      ground
        (arith, fast_loop_least_of bounded fast p rest i e, fast_loop_least_of bounded q p rest i e)

  -- The smallest delay of a group.
  best : Ref → List Ref → Ref
  best first rest = fast_loop first (delay_of ps first) rest

  best_least :
      (bounded : AreDelays) (first p : Ref) (rest : List Ref) (i : ℕ)
      → get_elem? (first ∷ rest) i ≡ some p
      → delay_of ps (best first rest) ≤ delay_of ps p
  unfolding best
  best_least bounded first p rest zero e =
      let same : first ≡ p = cc in
      subst (λ r. delay_of ps (fast_loop first (delay_of ps first) rest) ≤ delay_of ps r) same
        (fast_loop_least first rest)
  best_least bounded first p rest (suc i) e = fast_loop_least_of bounded first p rest i e

  next_node_near :
      (u : UrlTest) (not_exist : Bool) (fast p : Ref)
      → delay_of ps fast ≤ delay_of ps p
      → delay_of ps p + u.tolerance < 2 ^ 16
      → delay_of ps (next_node u not_exist fast) ≤ delay_of ps p + u.tolerance
  unfolding next_node
  next_node_near u not_exist fast p le h = elim (Option-cases u.fast_node) [
    | inl e ↦ rw (e, next_node) (omega arith)
    | inr (node, e) ↦ rw (e, next_node) (ground arith)
  ]

  -- Where nothing is selected and no recent result is kept, the proxy chosen is slower than no proxy
  -- of the group by more than the tolerance, of those whose delay and the tolerance together fit in
  -- 16 bits. Delays are numbers of 16 bits.
  pub fast_near :
      (u : UrlTest) (first : Ref) (rest : List Ref) (i : ℕ) (p : Ref)
      → AreDelays
      → u.selected ≡ []
      → get_elem? (first ∷ rest) i ≡ some p
      → delay_of ps p + u.tolerance < 2 ^ 16
      → delay_of ps (fast none u (first, rest)).1 ≤ delay_of ps p + u.tolerance
  unfolding fast measure best
  fast_near u first rest i p bounded none_selected e h =
      let t : text_eq u.selected [] ≡ true = rw none_selected in
      rw (t, fast)
        (next_node_near u (fast_not_exist u.fast_node rest)
          (fast_loop first (delay_of ps first) rest) p (best_least bounded first p rest i e) h)

  -- No proxy of a list has a given name.
  abbrev pub NoneNamed : Text → List Ref → Type 0
  NoneNamed wanted [] = Unit
  NoneNamed wanted (p ∷ rest) = (text_eq (name p) wanted ≡ false) × NoneNamed wanted rest

  fast_not_exist-NoneNamed :
      (node : Ref) (rest : List Ref)
      → NoneNamed (name node) rest
      → fast_not_exist (some node) rest ≡ true
  unfolding fast_not_exist
  fast_not_exist-NoneNamed node [] h = refl
  fast_not_exist-NoneNamed node (p ∷ rest) (h, hs) = rw h (fast_not_exist-NoneNamed node rest hs)

  next_node_gone : (u : UrlTest) (fast : Ref) → next_node u true fast ≡ fast
  unfolding next_node
  next_node_gone u fast = elim (Option-cases u.fast_node) [
    | inl e ↦ rw (e, next_node)
    | inr (node, e) ↦ rw (e, next_node)
  ]

  -- The first proxy of a group gets no tolerance: where it is the one in use and no other proxy of the
  -- group has its name, nothing is selected and no recent result is kept, the proxy chosen has the
  -- smallest delay of the group, whatever the tolerance. Delays are numbers of 16 bits.
  pub fast_first :
      (u : UrlTest) (first : Ref) (rest : List Ref) (i : ℕ) (p : Ref)
      → AreDelays
      → u.selected ≡ []
      → u.fast_node ≡ some first
      → NoneNamed (name first) rest
      → get_elem? (first ∷ rest) i ≡ some p
      → delay_of ps (fast none u (first, rest)).1 ≤ delay_of ps p
  unfolding fast measure best
  fast_first u first rest i p bounded none_selected in_use others e =
      let t : text_eq u.selected [] ≡ true = rw none_selected in
      let gone : fast_not_exist u.fast_node rest ≡ true =
        ap (λ n. fast_not_exist n rest) in_use ∙ fast_not_exist-NoneNamed first rest others in
      let chosen : next_node u (fast_not_exist u.fast_node rest) (best first rest)
          ≡ best first rest =
        ap (λ b. next_node u b (best first rest)) gone ∙ next_node_gone u (best first rest) in
      rw (t, fast)
        (subst (λ r. delay_of ps r ≤ delay_of ps p) (sym chosen)
          (best_least bounded first p rest i e))

  pub find_name-Named :
      (wanted : Text) (xs : List Ref) (p : Ref) → find_name wanted xs ≡ some p → name p ≡ wanted
  unfolding find_name
  find_name-Named wanted [] p e = absurd (cc)
  find_name-Named wanted (q ∷ rest) p e = elim (Bool-cases (text_eq (name q) wanted)) [
    | inl t ↦
        let e' : some q ≡ some p = rw t at e in
        let same : q ≡ p = cc in ap name (sym same) ∙ text_eq→≡ (name q) wanted t
    | inr f ↦ find_name-Named wanted rest p (rw f at e)
  ]

  find_selected_lem :
      (wanted : Text) (xs : List Ref) (p : Ref)
      → find_selected wanted xs ≡ some p
      → (name p ≡ wanted) × (is_alive ps p ≡ true)
  unfolding find_selected
  find_selected_lem wanted [] p e = absurd (cc)
  find_selected_lem wanted (q ∷ rest) p e = elim (Bool-cases (is_alive ps q)) [
    | inr dead ↦ find_selected_lem wanted rest p (rw dead at e)
    | inl alive ↦ elim (Bool-cases (text_eq (name q) wanted)) [
      | inl t ↦
          let e' : some q ≡ some p = rw t at (rw alive at e) in
          let same : q ≡ p = cc in
          (
            ap name (sym same) ∙ text_eq→≡ (name q) wanted t,
            subst (λ r. is_alive ps r ≡ true) same alive,
          )
      | inr f ↦ find_selected_lem wanted rest p (rw f at (rw alive at e))
    ]
  ]

  find_selected_found :
      (wanted : Text) (xs : List Ref) (i : ℕ) (p : Ref)
      → get_elem? xs i ≡ some p
      → is_alive ps p ≡ true
      → text_eq (name p) wanted ≡ true
      → find_selected wanted xs ≢ none
  unfolding find_selected
  find_selected_found wanted [] i p e a t k = absurd (cc)
  find_selected_found wanted (q ∷ rest) zero p e a t k =
      let same : p ≡ q = cc in
      let a' = subst (λ r. is_alive ps r ≡ true) same a in
      let t' = subst (λ r. text_eq (name r) wanted ≡ true) same t in
      let k' : some q ≡ none = rw t' at (rw a' at k) in absurd (cc)
  find_selected_found wanted (q ∷ rest) (suc i) p e a t k = elim (Bool-cases (is_alive ps q)) [
    | inr dead ↦ find_selected_found wanted rest i p e a t (rw dead at k)
    | inl alive ↦ elim (Bool-cases (text_eq (name q) wanted)) [
      | inl t' ↦ let k' : some q ≡ none = rw t' at (rw alive at k) in absurd (cc)
      | inr f ↦ find_selected_found wanted rest i p e a t (rw f at (rw alive at k))
    ]
  ]

  -- Where a proxy of the group that is alive has the selected name, the proxy chosen is alive and has
  -- that name, and is the one in use after it, whatever the delays and the recent result.
  pub fast_selected :
      (recent : Option Ref) (u : UrlTest) (members : Members ps) (i : ℕ) (p : Ref)
      → get_elem? (all_of ps members) i ≡ some p
      → is_alive ps p ≡ true
      → text_eq (name p) u.selected ≡ true
      → text_eq u.selected [] ≡ false
      → (name (fast recent u members).1 ≡ u.selected)
        × (is_alive ps (fast recent u members).1 ≡ true)
        × ((fast recent u members).0.fast_node ≡ some (fast recent u members).1)
  unfolding fast
  fast_selected recent u members i p e a t s =
      elim (Option-cases (find_selected u.selected (all_of ps members))) [
        | inl k ↦ absurd (find_selected_found u.selected (all_of ps members) i p e a t k)
        | inr (q, k) ↦
            let (named, alive) = find_selected_lem u.selected (all_of ps members) q k in
            rw (s, fast) (rw (k, fast) (named, alive, refl))
      ]
