-- ===== src/Tunnel/Fake.antt =====
-- tunnel/tunnel.go: what `preHandleMetadata` leaves of fake addresses.
use go_warp_scanner.Common.Text.{Text}
use go_warp_scanner.Tunnel.{
  Metadata, Env, HostValue, mapped, by_ip, by_hosts, pre_handle, pre_handle_metadata,
}
use go_warp_scanner.Common.{
  ℕ, ◌≡◌, refl, sym, ap, ◌∙◌, inl, inr, Bool, true, false, Option, none, some, [], ◌==◌, Bool-cases,
  Option-cases, length,
}

module _ {R : Type 0} (env : Env R) where
  open env use {
    search_hosts, find_host_by_ip, is_fake_ip, mapping_enabled, fake_ip_enabled, parse_ip,
  }

  -- The table of hosts gives no empty domain for a host.
  abbrev pub NamesDomains : Type 0
  NamesDomains =
      (h : Text) (v : HostValue)
      → search_hosts h true ≡ (some v, true)
      → (length v.domain == 0) ≡ false

  -- A connection to an address without a host is not one to a fake address.
  abbrev NotFake : Metadata R → Type 0
  NotFake m = (ip : ℕ) → (length m.host == 0) ≡ true → m.dst_ip ≡ some ip → is_fake_ip ip ≡ false

  by_ip-NotFake :
      (ip : ℕ) (m m' : Metadata R)
      → fake_ip_enabled ≡ true
      → m.dst_ip ≡ some ip
      → by_ip env ip m ≡ some m'
      → NotFake m'
  unfolding by_ip mapped
  by_ip-NotFake ip m m' fake here e jp empty d = elim (Option-cases (find_host_by_ip ip)) [
    | inl f ↦ elim (Bool-cases (is_fake_ip ip)) [
      | inl t ↦ let e' : none ≡ some m' = rw t at (rw (f, by_ip) at e) in absurd (cc)
      | inr t ↦
          let e' : some m ≡ some m' = rw t at (rw (f, by_ip) at e) in
          let k : m ≡ m' = cc in
          let same : some ip ≡ some jp = sym here ∙ ap (λ x. x.dst_ip) k ∙ d in
          let same_ip : ip ≡ jp = cc in ap is_fake_ip (sym same_ip) ∙ t
    ]
    | inr (host, f) ↦
        let e' : some (mapped env host m) ≡ some m' = rw (f, by_ip) at e in
        let k : mapped env host m ≡ m' = cc in
        let gone : (mapped env host m).dst_ip ≡ none = rw fake refl in
        let d' : none ≡ some jp = sym gone ∙ ap (λ x. x.dst_ip) k ∙ d in absurd (cc)
  ]

  by_hosts_named :
      (m : Metadata R)
      → NamesDomains
      → (length m.host == 0) ≡ false
      → (length (by_hosts env m).host == 0) ≡ false
  unfolding by_hosts
  by_hosts_named m names named = elim (Bool-cases (search_hosts m.host true).1) [
    | inl t ↦ elim (Option-cases (search_hosts m.host true).0) [
      | inl f ↦ rw (t, f) named
      | inr (v, f) ↦ rw (t, f) (names m.host v (pair (search_hosts m.host true) v f t))
    ]
    | inr t ↦ rw t named
  ]
    where
      pair :
          (p : Option HostValue × Bool) (v : HostValue)
          → p.0 ≡ some v
          → p.1 ≡ true
          → p ≡ (some v, true)
      pair (o, b) v f t = rw (f, t) refl

  by_hosts_ip : (m : Metadata R) → (by_hosts env m).dst_ip ≡ m.dst_ip
  unfolding by_hosts
  by_hosts_ip m = elim (Bool-cases (search_hosts m.host true).1) [
    | inl t ↦ elim (Option-cases (search_hosts m.host true).0) [
      | inl f ↦ rw (t, f) refl
      | inr (v, f) ↦ rw (t, f) refl
    ]
    | inr t ↦ rw t refl
  ]

  pre_handle-NotFake :
      (m m' : Metadata R)
      → NamesDomains
      → mapping_enabled ≡ true
      → fake_ip_enabled ≡ true
      → pre_handle env m ≡ some m'
      → NotFake m'
  unfolding pre_handle
  pre_handle-NotFake m m' names on fake e = elim (Option-cases m.dst_ip) [
    | inl f ↦ λ ip empty d.
        let e' : some (by_hosts env m) ≡ some m' = rw (f, pre_handle) at e in
        let k : by_hosts env m ≡ m' = cc in
        let d' : none ≡ some ip = sym f ∙ sym (by_hosts_ip m) ∙ ap (λ x. x.dst_ip) k ∙ d in
        absurd (cc)
    | inr (ip, f) ↦ elim (Bool-cases (length m.host == 0)) [
      | inl t ↦ by_ip-NotFake ip m m' fake f (rw (on, t) at (rw (f, pre_handle) at e))
      | inr t ↦ λ jp empty d.
          let e' : some (by_hosts env m) ≡ some m' = rw (on, t) at (rw (f, pre_handle) at e) in
          let k : by_hosts env m ≡ m' = cc in
          let named = by_hosts_named m names t in
          let empty' : (length (by_hosts env m).host == 0) ≡ true =
            ap (λ x. length x.host == 0) k ∙ empty in
          absurd (cc)
    ]
  ]

  -- Where fake addresses are on, with a table of hosts that gives no empty domain: if `preHandleMetadata` leaves an
  -- address and no host, the address is not a fake one.
  pub pre_handle_metadata-is_fake_ip :
      (m m' : Metadata R) (ip : ℕ)
      → NamesDomains
      → mapping_enabled ≡ true
      → fake_ip_enabled ≡ true
      → pre_handle_metadata env m ≡ some m'
      → (length m'.host == 0) ≡ true
      → m'.dst_ip ≡ some ip
      → is_fake_ip ip ≡ false
  unfolding pre_handle_metadata
  pre_handle_metadata-is_fake_ip m m' ip names on fake e empty d =
      elim (Option-cases (parse_ip m.host)) [
        | inl f ↦
            pre_handle-NotFake m m' names on fake (rw (f, pre_handle_metadata) at e) ip empty d
        | inr (jp, f) ↦
            pre_handle-NotFake (record m { dst_ip = some jp; host = [] }) m' names on fake
              (rw (f, pre_handle_metadata) at e) ip empty d
      ]
