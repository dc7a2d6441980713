-- ===== src/FakeIp/Laws/Lookup.antt =====
-- A host and its fake address name each other after a lookup.
use go_warp_scanner.Common.Text.{Text, to_lower}
use go_warp_scanner.FakeIp.{
  Store, Pool, Prefix, un_masked, masked_addr, new_pool, advance, assign, get, add_host, lookup,
  lookup_lower, look_back,
}
use go_warp_scanner.FakeIp.Laws.{IsStore, AreInverse, IsPool}
use go_warp_scanner.FakeIp.Laws.Naming.{
  named, named_ip, named-AreInverse, freed, freed_host, freed_ip, freed_maps,
}
use go_warp_scanner.Common.{
  ℕ, ◌+◌, ◌-◌, ◌^◌, ◌≤◌, ◌<◌, ◌≡◌, sym, ap, ◌∙◌, subst, inl, inr, false, ◌&&◌, none, some, arith,
  ltb, Bool-cases, Option-cases,
}

module _ (st : Store) (laws : IsStore st) where
  open st use {State, del_by_ip, put_by_ip, put_by_host, get_by_host, exist}
  open laws use {host_of, ip_of}

  -- What a lookup leaves: a pool in which the host and its address name each other.
  record IsLookedUp (h : Text) (r : Pool State × ℕ) : Type 0 where
    good : IsPool st laws (r.0)
    by_host : ip_of (r.0).store h ≡ some r.1
    bounds : ((r.0).first ≤ r.1) × (r.1 < (r.0).last)

  advance_range :
      (p : Pool State)
      → IsPool st laws p
      → (p.first ≤ (advance st p).offset) × ((advance st p).offset < p.last)
  unfolding advance
  advance_range p ok = ground (arith, ok.room, ok.low, ok.high)

  advance_rest :
      (p : Pool State)
      → ((advance st p).first ≡ p.first)
        × ((advance st p).last ≡ p.last)
        × ((advance st p).store ≡ p.store)
  unfolding advance
  advance_rest p = ground arith

  add_host-IsLookedUp :
      (h : Text) (p : Pool State)
      → IsPool st laws p
      → ip_of p.store h ≡ none
      → IsLookedUp h (add_host st h p)
  unfolding add_host get assign named freed
  add_host-IsLookedUp h p ok e =
      let p1 = advance st p in
      let (same_first, same_last, same_store) = advance_rest p in
      let (lo, hi) = advance_range p ok in
      let maps : AreInverse st laws p.first p.last p1.store =
        subst (AreInverse st laws p.first p.last) (sym same_store) ok.maps in
      let free : ip_of p1.store h ≡ none = ap (λ s. ip_of s h) same_store ∙ e in
      let s = freed st laws p1 in
      let after =
        named-AreInverse st laws h p1.offset s (freed_ip st laws p1 h free) (freed_host st laws p1)
          p.first p.last (freed_maps st laws p1 p.first p.last maps) lo hi in
      record {
        good = record {
          room = omega (arith, same_first, same_last, ok.room);
          low = omega (arith, same_first, lo);
          high = omega (arith, same_last, hi);
          maps =
              subst
                (λ b. AreInverse st laws b p1.last (
                  named st laws h p1.offset s (freed_ip st laws p1 h free) (freed_host st laws p1)))
                (sym same_first)
                (subst
                  (λ b. AreInverse st laws p.first b (
                    named st laws h p1.offset s (freed_ip st laws p1 h free)
                      (freed_host st laws p1)))
                  (sym same_last) after);
        };
        by_host =
            named_ip st laws h p1.offset s (freed_ip st laws p1 h free) (freed_host st laws p1);
        bounds = (omega (arith, same_first, lo), omega (arith, same_last, hi));
      }

  -- A store that was only read has the same maps.
  read-AreInverse :
      (first last : ℕ) (h : Text) (s : State)
      → AreInverse st laws first last s
      → AreInverse st laws first last (get_by_host h s).0
  read-AreInverse first last h s w = record {
    forth = λ j ip e. laws.get_host_hosts h s ip ∙ w.forth j ip (sym (laws.get_host_ips h s j) ∙ e);
    back = λ ip j e. laws.get_host_ips h s j ∙ w.back ip j (sym (laws.get_host_hosts h s ip) ∙ e);
    inside = λ ip j e. w.inside ip j (sym (laws.get_host_hosts h s ip) ∙ e);
  }

  lookup_lower-IsLookedUp :
      (h : Text) (p : Pool State) → IsPool st laws p → IsLookedUp h (lookup_lower st h p)
  unfolding lookup_lower
  lookup_lower-IsLookedUp h p ok =
      let s = (get_by_host h p.store).0 in
      let read : Pool State = record p { store = s } in
      let read_ok : IsPool st laws read = record {
        room = ok.room;
        low = ok.low;
        high = ok.high;
        maps = read-AreInverse p.first p.last h p.store ok.maps;
      } in
      elim (Option-cases (get_by_host h p.store).1) [
        | inl e ↦
            let absent : ip_of s h ≡ none =
              laws.get_host_ips h p.store h ∙ sym (laws.get_host h p.store) ∙ e in
            rw (e, lookup_lower) (add_host-IsLookedUp h read read_ok absent)
        | inr (ip, e) ↦
            let known : ip_of p.store h ≡ some ip = sym (laws.get_host h p.store) ∙ e in
            rw (e, lookup_lower)
              (record {
                good = read_ok;
                by_host = laws.get_host_ips h p.store h ∙ known;
                bounds = ok.maps.inside ip h (ok.maps.forth h ip known);
              })
      ]

  lookup-IsLookedUp :
      (host : Text) (p : Pool State)
      → IsPool st laws p
      → IsLookedUp (to_lower host) (lookup st host p)
  unfolding lookup
  lookup-IsLookedUp host p ok = lookup_lower-IsLookedUp (to_lower host) p ok

  -- A lookup in a pool that satisfies the invariant, over a store that evicts nothing, leaves the
  -- invariant, and its address lies between the first and the last of the pool.
  pub lookup-IsPool :
      (host : Text) (p : Pool State)
      → IsPool st laws p
      → IsPool st laws (lookup st host p).0
        × ((lookup st host p).0.first ≤ (lookup st host p).1)
        × ((lookup st host p).1 < (lookup st host p).0.last)
  lookup-IsPool host p ok = let l = lookup-IsLookedUp host p ok in (l.good, l.bounds.0, l.bounds.1)

  -- After a lookup in such a pool, `LookBack` of its address gives the host in lower case.
  pub look_back-lookup :
      (host : Text) (p : Pool State)
      → IsPool st laws p
      → (look_back st (lookup st host p).1 (lookup st host p).0).1 ≡ some (to_lower host)
  unfolding look_back
  look_back-lookup host p ok =
      let l = lookup-IsLookedUp host p ok in
      let r = lookup st host p in
      laws.get_ip r.1 (r.0).store ∙ l.good.maps.forth (to_lower host) r.1 l.by_host

  lookup_lower-known :
      (h : Text) (p : Pool State) (ip : ℕ)
      → ip_of p.store h ≡ some ip
      → (lookup_lower st h p).1 ≡ ip
  unfolding lookup_lower
  lookup_lower-known h p ip e = rw (laws.get_host h p.store ∙ e, lookup_lower)

  -- A second lookup of a host, in any case of its letters, gives the same address.
  pub lookup-lookup :
      (host again : Text) (p : Pool State)
      → IsPool st laws p
      → to_lower again ≡ to_lower host
      → (lookup st again (lookup st host p).0).1 ≡ (lookup st host p).1
  unfolding lookup
  lookup-lookup host again p ok same =
      let l = lookup-IsLookedUp host p ok in
      rw same (
        lookup_lower-known (to_lower host) ((lookup_lower st (to_lower host) p).0)
          ((lookup_lower st (to_lower host) p).1) l.by_host)

  -- `New` over an empty store, when it returns a pool, returns one that satisfies the invariant.
  pub new_pool-IsPool :
      (prefix : Prefix) (s : State) (p : Pool State)
      → ((ip : ℕ) → host_of s ip ≡ none)
      → ((h : Text) → ip_of s h ≡ none)
      → new_pool prefix s ≡ some p
      → IsPool st laws p
  unfolding new_pool
  new_pool-IsPool prefix s p no_host no_ip e =
      let host_addr = masked_addr prefix in
      let q : Pool State = record {
        gateway = host_addr + 1;
        first = host_addr + 1 + 3;
        last = un_masked prefix;
        offset = host_addr + 1 + 3 - 1;
        cycle = false;
        store = s;
      } in
      elim (Bool-cases (
        ltb (host_addr + 1 + 3) (2 ^ prefix.width) && ltb (host_addr + 1 + 3) (un_masked prefix))) [
          | inl t ↦
              let e' : some q ≡ some p = rw t at e in
              let same : q ≡ p = cc in
              let room : q.first < q.last = ground arith in
              subst (IsPool st laws) same (record {
                room = room;
                low = omega arith;
                high = omega (arith, room);
                maps = record {
                  forth = λ h ip known. absurd (let k = no_ip h in cc);
                  back = λ ip h known. absurd (let k = no_host ip in cc);
                  inside = λ ip h known. absurd (let k = no_host ip in cc);
                };
              })
          | inr f ↦ let e' : none ≡ some p = rw f at e in absurd (cc)
        ]
