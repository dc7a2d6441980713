-- ===== src/FakeIp/Laws.antt =====
-- The two maps of a store stay inverse when an address is freed.
pub mod Naming
pub mod Lookup
use go_warp_scanner.Common.Text.{Text, text_eq, text_eq→≡, text_eq_refl}
use go_warp_scanner.FakeIp.{Store, Pool}
use go_warp_scanner.Common.{
  ℕ, ◌+◌, ◌-◌, ◌≤◌, ◌<◌, ◌≡◌, sym, ◌∙◌, subst, ◌≢◌, inl, inr, true, false, Option, none, some,
  arith, ◌==◌, if◌then◌else◌, Bool-cases, Option-cases,
}

-- What the pool relies on of a store: two maps, read through views. `del_by_ip` removes an address,
-- and its host. It holds of a store that evicts nothing.
pub record IsStore (st : Store) : Type 0 where
  pub host_of : st.State → ℕ → Option Text
  pub ip_of : st.State → Text → Option ℕ
  pub get_host : (h : Text) (s : st.State) → (st.get_by_host h s).1 ≡ ip_of s h
  pub get_host_hosts :
      (h : Text) (s : st.State) (ip : ℕ) → host_of (st.get_by_host h s).0 ip ≡ host_of s ip
  pub get_host_ips :
      (h : Text) (s : st.State) (j : Text) → ip_of (st.get_by_host h s).0 j ≡ ip_of s j
  pub get_ip : (ip : ℕ) (s : st.State) → (st.get_by_ip ip s).1 ≡ host_of s ip
  pub put_host_hosts :
      (h : Text) (ip : ℕ) (s : st.State) (jp : ℕ)
      → host_of (st.put_by_host h ip s) jp ≡ host_of s jp
  pub put_host_ips :
      (h : Text) (ip : ℕ) (s : st.State) (j : Text)
      → ip_of (st.put_by_host h ip s) j ≡ (if text_eq h j then some ip else ip_of s j)
  pub put_ip_hosts :
      (ip : ℕ) (h : Text) (s : st.State) (jp : ℕ)
      → host_of (st.put_by_ip ip h s) jp ≡ (if ip == jp then some h else host_of s jp)
  pub put_ip_ips :
      (ip : ℕ) (h : Text) (s : st.State) (j : Text) → ip_of (st.put_by_ip ip h s) j ≡ ip_of s j
  pub del_hosts :
      (ip : ℕ) (s : st.State) (jp : ℕ)
      → host_of (st.del_by_ip ip s) jp ≡ (if ip == jp then none else host_of s jp)
  pub del_ips_none :
      (ip : ℕ) (s : st.State) (j : Text)
      → host_of s ip ≡ none
      → ip_of (st.del_by_ip ip s) j ≡ ip_of s j
  pub del_ips_some :
      (ip : ℕ) (s : st.State) (h j : Text)
      → host_of s ip ≡ some h
      → ip_of (st.del_by_ip ip s) j ≡ (if text_eq h j then none else ip_of s j)
  pub exist_none : (ip : ℕ) (s : st.State) → st.exist ip s ≡ false → host_of s ip ≡ none

module _ (st : Store) (laws : IsStore st) where
  open st use {State, del_by_ip, put_by_ip, put_by_host, get_by_host, exist}
  open laws use {host_of, ip_of}

  -- The two maps of a store are inverse, and its addresses lie in a range.
  pub record AreInverse (first last : ℕ) (s : State) : Type 0 where
    pub forth : (h : Text) (ip : ℕ) → ip_of s h ≡ some ip → host_of s ip ≡ some h
    pub back : (ip : ℕ) (h : Text) → host_of s ip ≡ some h → ip_of s h ≡ some ip
    pub inside : (ip : ℕ) (h : Text) → host_of s ip ≡ some h → (first ≤ ip) × (ip < last)

  -- The addresses of a pool lie between its first and its last, and the two maps are inverse.
  pub record IsPool (p : Pool State) : Type 0 where
    pub room : p.first < p.last
    pub low : p.first ≤ p.offset + 1
    pub high : p.offset < p.last
    pub maps : AreInverse p.first p.last p.store

  -- The store after an address is freed.
  pub freed-AreInverse :
      (first last ip : ℕ) (s : State)
      → AreInverse first last s
      → AreInverse first last (del_by_ip ip s)
  freed-AreInverse first last ip s w = elim (Option-cases (host_of s ip)) [
    | inl gone ↦ record {
      forth = λ h jp e.
          let f = w.forth h jp (sym (laws.del_ips_none ip s h gone) ∙ e) in
          laws.del_hosts ip s jp ∙ elim (Bool-cases (ip == jp)) [
            | inl same ↦
                let k : ip ≡ jp = ground arith in
                absurd (let f' = subst (λ x. host_of s x ≡ some h) (sym k) f in cc)
            | inr other ↦ rw other f
          ];
      back = λ jp h e. laws.del_ips_none ip s h gone ∙ w.back jp h (kept jp h e);
      inside = λ jp h e. w.inside jp h (kept jp h e);
    }
    | inr (owner, e0) ↦ record {
      forth = λ h jp e. elim (Bool-cases (text_eq owner h)) [
        | inl same ↦
            let e' : none ≡ some jp = rw same at (sym (laws.del_ips_some ip s owner h e0) ∙ e) in
            absurd (cc)
        | inr other ↦
            let f = w.forth h jp (rw other at (sym (laws.del_ips_some ip s owner h e0) ∙ e)) in
            laws.del_hosts ip s jp ∙ elim (Bool-cases (ip == jp)) [
              | inl same ↦
                  let k : ip ≡ jp = ground arith in
                  let same_host : owner ≡ h =
                    let f' = subst (λ x. host_of s x ≡ some h) (sym k) f in cc in
                  let t : text_eq owner h ≡ true = rw same_host (text_eq_refl h) in absurd (cc)
              | inr apart ↦ rw apart f
            ]
      ];
      back = λ jp h e.
          let f = w.back jp h (kept jp h e) in
          laws.del_ips_some ip s owner h e0 ∙ elim (Bool-cases (text_eq owner h)) [
            | inl same ↦
                let k : owner ≡ h = text_eq→≡ owner h same in
                let own = w.back ip owner e0 in
                let here : ip ≡ jp = let own' = subst (λ x. ip_of s x ≡ some ip) k own in cc in
                absurd (apart jp h e here)
            | inr other ↦ rw other f
          ];
      inside = λ jp h e. w.inside jp h (kept jp h e);
    }
  ]
    where
      kept : (jp : ℕ) (h : Text) → host_of (del_by_ip ip s) jp ≡ some h → host_of s jp ≡ some h
      kept jp h e = elim (Bool-cases (ip == jp)) [
        | inl same ↦
            let e' : none ≡ some h = rw same at (sym (laws.del_hosts ip s jp) ∙ e) in absurd (cc)
        | inr other ↦ rw other at (sym (laws.del_hosts ip s jp) ∙ e)
      ]

      apart : (jp : ℕ) (h : Text) → host_of (del_by_ip ip s) jp ≡ some h → ip ≢ jp
      apart jp h e k =
          let t : (ip == jp) ≡ true = ground arith in
          let e' : none ≡ some h = rw t at (sym (laws.del_hosts ip s jp) ∙ e) in absurd (cc)
