-- ===== src/FakeIp/Laws/Naming.antt =====
-- The store after `get` frees an address and after a host and an address are given to each other.
use go_warp_scanner.Common.Text.{Text, text_eq, text_eq→≡, text_eq_refl}
use go_warp_scanner.FakeIp.{Store, Pool}
use go_warp_scanner.FakeIp.Laws.{IsStore, AreInverse, freed-AreInverse}
use go_warp_scanner.Common.{
  ℕ, ◌≤◌, ◌<◌, ◌≡◌, sym, ap, ◌∙◌, subst, inl, inr, true, ◌||◌, none, some, arith, ◌==◌,
  if◌then◌else◌, Bool-cases, Option-cases,
}

module _ (st : Store) (laws : IsStore st) where
  open st use {State, del_by_ip, put_by_ip, put_by_host, get_by_host, exist}
  open laws use {host_of, ip_of}

  -- A free host and a free address are given to each other.
  module _ (h : Text) (ip : ℕ) (s : State) (no_ip : ip_of s h ≡ none)
      (no_host : host_of s ip ≡ none) where
    unfoldable pub named : State
    named = put_by_host h ip (put_by_ip ip h s)

    named_hosts : (jp : ℕ) → host_of named jp ≡ (if ip == jp then some h else host_of s jp)
    unfolding named
    named_hosts jp = laws.put_host_hosts h ip (put_by_ip ip h s) jp ∙ laws.put_ip_hosts ip h s jp

    named_ips : (j : Text) → ip_of named j ≡ (if text_eq h j then some ip else ip_of s j)
    unfolding named
    named_ips j =
        laws.put_host_ips h ip (put_by_ip ip h s) j
        ∙ ap (λ r. if text_eq h j then some ip else r) (laws.put_ip_ips ip h s j)

    pub named_host : host_of named ip ≡ some h
    named_host = let t : (ip == ip) ≡ true = ground arith in named_hosts ip ∙ rw t

    pub named_ip : ip_of named h ≡ some ip
    named_ip = named_ips h ∙ rw (text_eq_refl h)

    pub named-AreInverse :
        (first last : ℕ)
        → AreInverse st laws first last s
        → first ≤ ip
        → ip < last
        → AreInverse st laws first last named
    named-AreInverse first last w lo hi = record {
      forth = λ j jp e. elim (Bool-cases (text_eq h j)) [
        | inl same ↦
            let k : h ≡ j = text_eq→≡ h j same in
            let e' : some ip ≡ some jp = rw same at (sym (named_ips j) ∙ e) in
            let here : ip ≡ jp = cc in
            subst (λ x. host_of named x ≡ some j) here (named_host ∙ ap some k)
        | inr other ↦
            let f = w.forth j jp (rw other at (sym (named_ips j) ∙ e)) in
            named_hosts jp ∙ elim (Bool-cases (ip == jp)) [
              | inl same ↦
                  let k : ip ≡ jp = ground arith in
                  absurd (let f' = subst (λ x. host_of s x ≡ some j) (sym k) f in cc)
              | inr apart ↦ rw apart f
            ]
      ];
      back = λ jp j e. elim (Bool-cases (ip == jp)) [
        | inl same ↦
            let k : ip ≡ jp = ground arith in
            let e' : some h ≡ some j = rw same at (sym (named_hosts jp) ∙ e) in
            let here : h ≡ j = cc in
            subst (λ x. ip_of named x ≡ some jp) here (named_ip ∙ ap some k)
        | inr other ↦
            let f = w.back jp j (rw other at (sym (named_hosts jp) ∙ e)) in
            named_ips j ∙ elim (Bool-cases (text_eq h j)) [
              | inl same ↦
                  let k : h ≡ j = text_eq→≡ h j same in
                  absurd (let f' = subst (λ x. ip_of s x ≡ some jp) (sym k) f in cc)
              | inr apart ↦ rw apart f
            ]
      ];
      inside = λ jp j e. elim (Bool-cases (ip == jp)) [
        | inl same ↦ let k : ip ≡ jp = ground arith in omega arith
        | inr other ↦ w.inside jp j (rw other at (sym (named_hosts jp) ∙ e))
      ];
    }

  -- `get` frees the address at the offset before it gives it away.
  module _ (p : Pool State) where
    unfoldable pub freed : State
    freed = if p.cycle || exist p.offset p.store then del_by_ip p.offset p.store else p.store

    pub freed_host : host_of freed p.offset ≡ none
    unfolding freed
    freed_host = elim (Bool-cases (p.cycle || exist p.offset p.store)) [
      | inl t ↦
          let same : (p.offset == p.offset) ≡ true = ground arith in
          rw t (laws.del_hosts p.offset p.store p.offset ∙ rw same)
      | inr f ↦ rw f (laws.exist_none p.offset p.store (ground arith))
    ]

    pub freed_ip : (h : Text) → ip_of p.store h ≡ none → ip_of freed h ≡ none
    unfolding freed
    freed_ip h e = elim (Bool-cases (p.cycle || exist p.offset p.store)) [
      | inl t ↦ rw t (elim (Option-cases (host_of p.store p.offset)) [
        | inl gone ↦ laws.del_ips_none p.offset p.store h gone ∙ e
        | inr (owner, e0) ↦
            laws.del_ips_some p.offset p.store owner h e0
            ∙ elim (Bool-cases (text_eq owner h)) [ inl a ↦ rw a | inr b ↦ rw b e ]
      ])
      | inr f ↦ rw f e
    ]

    pub freed_maps :
        (first last : ℕ)
        → AreInverse st laws first last p.store
        → AreInverse st laws first last freed
    unfolding freed
    freed_maps first last w = elim (Bool-cases (p.cycle || exist p.offset p.store)) [
      | inl t ↦ rw t (freed-AreInverse st laws first last p.offset p.store w)
      | inr f ↦ rw f w
    ]
