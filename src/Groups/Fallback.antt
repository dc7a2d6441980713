-- ===== src/Groups/Fallback.antt =====
-- adapter/outboundgroup/fallback.go: the first proxy that is alive, or the selected one.
use go_warp_scanner.Common.Text.{Text, text_eq}
use go_warp_scanner.Groups.{Proxies, is_alive, Members, all_of}
use go_warp_scanner.Groups.UrlTest.{find_name}
use go_warp_scanner.Common.{
  ◌≡◌, refl, ap, ◌∙◌, inl, inr, Bool, true, false, not, Option, none, some, List, [], ◌∷◌, ◌++◌,
  arith, if◌then◌else◌, Bool-cases,
}

module _ (ps : Proxies) where
  open ps use {Ref, name}

  -- The loop of `findAliveProxy`, over the field `selected`.
  find_loop : Text → List Ref → Text × Option Ref
  find_loop selected [] = (selected, none)
  find_loop selected (p ∷ rest) =
      let next = find_loop selected rest in
      let cleared = find_loop [] rest in
      if text_eq selected []
      then (if is_alive ps p then (selected, some p) else next)
      else if text_eq (name p) selected
      then (if is_alive ps p then (selected, some p) else cleared)
      else next

  -- The proxy found, or the first.
  abbrev pub or_first : Ref → Option Ref → Ref
  or_first first none = first
  or_first first (some p) = p

  -- `findAliveProxy`: the field `selected` after it, and the proxy.
  unfoldable pub find_alive_proxy : Text → Members ps → Text × Ref
  unfolding find_loop
  find_alive_proxy selected (first, rest) =
      let (selected', found) = find_loop selected (first ∷ rest) in
      (selected', or_first first found)

  -- `Set`: the field, and whether the selected proxy is tested at once, which a dead one is; `none` is
  -- its error.
  unfoldable pub set_selected : Text → Members ps → Option (Text × Bool)
  set_selected wanted members = elim (find_name ps wanted (all_of ps members)) [
    | none ↦ none
    | some p ↦ some (wanted, not (is_alive ps p))
  ]

  -- The first proxy of a list that is alive.
  unfoldable pub first_alive : List Ref → Option Ref
  first_alive [] = none
  first_alive (p ∷ rest) = let later = first_alive rest in if is_alive ps p then some p else later

  find_loop_none : (xs : List Ref) → find_loop [] xs ≡ ([], first_alive xs)
  unfolding find_loop first_alive
  find_loop_none [] = refl
  find_loop_none (p ∷ rest) = ground (arith, find_loop_none rest)

  -- With nothing selected, the proxy is the first that is alive, or the first of all where none is, and
  -- nothing is selected after it.
  pub find_alive_proxy_none :
      (first : Ref) (rest : List Ref)
      → find_alive_proxy [] (first, rest) ≡ ([], or_first first (first_alive (first ∷ rest)))
  unfolding find_alive_proxy
  find_alive_proxy_none first rest =
      ap (λ r. (r.0, or_first first r.1)) (find_loop_none (first ∷ rest))

  find_loop_skip :
      (selected : Text) (q : Ref) (xs : List Ref)
      → text_eq selected [] ≡ false
      → text_eq (name q) selected ≡ false
      → find_loop selected (q ∷ xs) ≡ find_loop selected xs
  unfolding find_loop
  find_loop_skip selected q xs s f = rw (s, f)

  find_loop_dead :
      (selected : Text) (p : Ref) (after : List Ref)
      → text_eq selected [] ≡ false
      → text_eq (name p) selected ≡ true
      → is_alive ps p ≡ false
      → find_loop selected (p ∷ after) ≡ ([], first_alive after)
  unfolding find_loop
  find_loop_dead selected p after s t dead = rw (s, t, dead) (find_loop_none after)

  find_loop_before :
      (selected : Text) (p : Ref) (before after : List Ref)
      → text_eq selected [] ≡ false
      → find_name ps selected before ≡ none
      → find_loop selected (before ++ p ∷ after) ≡ find_loop selected (p ∷ after)
  unfolding find_name
  find_loop_before selected p [] after s h = refl
  find_loop_before selected p (q ∷ before) after s h =
      elim (Bool-cases (text_eq (name q) selected)) [
        | inl t ↦ let h' : some q ≡ none = rw t at h in absurd (cc)
        | inr f ↦
            find_loop_skip selected q (before ++ p ∷ after) s f
            ∙ find_loop_before selected p before after s (rw f at h)
      ]

  -- Where the selected proxy, the first of its name, is dead, the selection is dropped, and the proxy is
  -- the first of those behind it that is alive: those before it are passed over, also where they are
  -- alive, unless it is the first of all that stands in for none.
  pub find_alive_proxy_dropped :
      (selected : Text) (first p : Ref) (rest before after : List Ref)
      → first ∷ rest ≡ before ++ p ∷ after
      → text_eq selected [] ≡ false
      → find_name ps selected before ≡ none
      → text_eq (name p) selected ≡ true
      → is_alive ps p ≡ false
      → find_alive_proxy selected (first, rest) ≡ ([], or_first first (first_alive after))
  unfolding find_alive_proxy
  find_alive_proxy_dropped selected first p rest before after e s h t dead =
      ap (λ r. (r.0, or_first first r.1))
        (ap (find_loop selected) e
          ∙ find_loop_before selected p before after s h
          ∙ find_loop_dead selected p after s t dead)
