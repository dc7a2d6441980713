-- ===== src/BasicRules/Hosts.antt =====
-- What the rules on hosts match.
use go_warp_scanner.Common.Text.{Text, codes, text_eq, text_eq→≡, text_eq_refl}
use go_warp_scanner.BasicRules.{
  Netip, Meta, rule_host, domain_suffix, match_basic, match_domain_suffix, has_suffix,
}
use go_warp_scanner.Common.{
  ◌+◌, ◌-◌, ◌≡◌, refl, sym, ap, ◌∙◌, subst, ◌↔◌, ◌⊎◌, inl, inr, Bool, true, false, ◌||◌, List, [],
  ◌∷◌, ◌++◌, arith, leb, Bool-cases, length, take, drop, length-append, take-append-drop,
}

drop-append {ℓ} : {A : Type ℓ} (xs ys : List A) → drop (length xs) (xs ++ ys) ≡ ys
drop-append [] ys = refl
drop-append (x ∷ xs) ys = drop-append xs ys

-- A text has a suffix exactly if it is something followed by the suffix.
has_suffix→append : (s suffix : Text) → has_suffix s suffix ≡ true → (p : Text) × (s ≡ p ++ suffix)
unfolding has_suffix
has_suffix→append s suffix h =
    let n = length s - length suffix in
    let t : text_eq (drop n s) suffix ≡ true = ground arith in
    (take n s, sym (take-append-drop n s) ∙ ap (λ r. take n s ++ r) (text_eq→≡ (drop n s) suffix t))

has_suffix-append : (p suffix : Text) → has_suffix (p ++ suffix) suffix ≡ true
unfolding has_suffix
has_suffix-append p suffix =
    let n : length (p ++ suffix) ≡ length p + length suffix = length-append p suffix in
    let cut : length (p ++ suffix) - length suffix ≡ length p = omega (arith, n) in
    let fits : leb (length suffix) (length (p ++ suffix)) ≡ true = ground (arith, n) in
    rw (fits, cut) (rw (drop-append p suffix) (text_eq_refl suffix))

module _ (net : Netip) where
  -- A DOMAIN-SUFFIX rule matches exactly the hosts that are its suffix, or end in a dot and the suffix.
  pub match_basic-domain_suffix :
      (value adapter : Text) (meta : Meta net)
      → ((match_basic net (domain_suffix value adapter) meta).0 ≡ true) ↔ (
          (rule_host net meta ≡ value)
          ⊎ (p : Text) × (rule_host net meta ≡ p ++ (codes "." ++ value)))
  unfolding match_basic match_domain_suffix
  match_basic-domain_suffix value adapter meta =
      let host = rule_host net meta in
      (
        λ h. elim (Bool-cases (has_suffix host (codes "." ++ value))) [
          | inl t ↦ inr (has_suffix→append host (codes "." ++ value) t)
          | inr f ↦ inl (text_eq→≡ host value (rw f at h))
        ],
        λ h. elim h [
          | inl e ↦
              let t : text_eq host value ≡ true =
                subst (λ x. text_eq x value ≡ true) (sym e) (text_eq_refl value) in
              rw t (or-true (has_suffix host (codes "." ++ value)))
          | inr (p, e) ↦
              let t : has_suffix host (codes "." ++ value) ≡ true =
                subst (λ x. has_suffix x (codes "." ++ value) ≡ true) (sym e)
                  (has_suffix-append p (codes "." ++ value)) in
              rw t
        ],
      )
    where
      or-true : (b : Bool) → b || true ≡ true
      or-true true = refl
      or-true false = refl
