-- ===== src/Groups/Selector.antt =====
-- adapter/outboundgroup/selector.go: the proxy that is set by its name.
use go_warp_scanner.Common.Text.{Text}
use go_warp_scanner.Groups.{Proxies, Members, all_of}
use go_warp_scanner.Groups.UrlTest.{find_name, find_name-Named}
use go_warp_scanner.Groups.Fallback.{or_first}
use go_warp_scanner.Common.{
  ◌≡◌, ap, ◌∙◌, ◌⊎◌, inl, inr, Bool, true, false, none, some, Option-cases,
}

module _ (ps : Proxies) where
  open ps use {Ref, name}

  -- `selectedProxy`.
  unfoldable pub selected_proxy : Text → Members ps → Ref
  selected_proxy selected members =
      or_first ps (members.0) (find_name ps selected (all_of ps members))

  -- `Set`: the field `selected` after it, and whether it gave no error.
  unfoldable pub set_by_name : Text → Text → Members ps → Text × Bool
  set_by_name wanted selected members = elim (find_name ps wanted (all_of ps members)) [
    | none ↦ (selected, false)
    | some p ↦ (wanted, true)
  ]

  -- After a `Set` without an error the selected proxy has the name that was set; a `Set` with an error
  -- leaves the choice as it was.
  pub selected_proxy-set_by_name :
      (wanted selected : Text) (members : Members ps)
      → ((set_by_name wanted selected members).1 ≡ true)
          × (name (selected_proxy (set_by_name wanted selected members).0 members) ≡ wanted)
        ⊎ ((set_by_name wanted selected members).1 ≡ false)
          × (selected_proxy (set_by_name wanted selected members).0 members
              ≡ selected_proxy selected members)
  unfolding set_by_name selected_proxy
  selected_proxy-set_by_name wanted selected members =
      elim (Option-cases (find_name ps wanted (all_of ps members))) [
        | inl e ↦ inr (rw (e, set_by_name), rw (e, set_by_name))
        | inr (p, e) ↦ inl (
          rw (e, set_by_name),
          rw (e, set_by_name)
              (ap (λ o. name (or_first ps (members.0) o)) e
                ∙ find_name-Named ps wanted (all_of ps members) p e),
        )
      ]
