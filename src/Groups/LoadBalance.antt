-- ===== src/Groups/LoadBalance.antt =====
-- adapter/outboundgroup/loadbalance.go: the strategies that keep no session.
use native.Mathlib.Nat.{mod-lt, mod-eq_of_lt}
use go_warp_scanner.Common.Text.{Text}
use go_warp_scanner.Groups.{Proxies, is_alive, Members, all_of}
use go_warp_scanner.Groups.Fallback.{first_alive, or_first}
use go_warp_scanner.Common.{
  ℕ, zero, suc, ◌+◌, ◌-◌, ◌%◌, ◌^◌, ◌≤◌, ◌<◌, ◌≡◌, refl, sym, subst, inl, inr, Bool, true, false,
  ◌||◌, ◌==◌, ◌++◌, Option, none, some, List, [], ◌∷◌, arith, dec_lt, if◌then◌else◌, Bool-cases,
  Option-cases, length, get_or,
}

-- What the keys read of the metadata: the host, and the texts of the addresses, of which the
-- destination may be invalid.
record Target : Type 0 where
  host : Text
  src_ip : Text
  dst_ip : Option Text

dst_key : Option Text → Text
dst_key none = []
dst_key (some ip) = ip

-- The host of `getKey`: an address, or the registered domain where `publicsuffix` knows one.
host_key : (Text → Bool) → (Text → Option Text) → Target → Text
unfolding dst_key
host_key is_ip etld t =
    if length t.host == 0
    then dst_key t.dst_ip
    else if is_ip t.host
    then t.host
    else elim (etld t.host) [ some domain ↦ domain | none ↦ dst_key t.dst_ip ]

-- `getKey`; the metadata may be missing.
get_key : (Text → Bool) → (Text → Option Text) → Option Target → Text
unfolding host_key
get_key is_ip etld none = []
get_key is_ip etld (some t) = host_key is_ip etld t

-- `getKeyWithSrcAndDst`.
get_key_with_src_and_dst : (Text → Bool) → (Text → Option Text) → Option Target → Text
unfolding get_key
get_key_with_src_and_dst is_ip etld none = get_key is_ip etld none
get_key_with_src_and_dst is_ip etld (some t) = t.src_ip ++ get_key is_ip etld (some t)

module _ (ps : Proxies) where
  open ps use {Ref}

  -- `proxies[id]`.
  abbrev at : Members ps → ℕ → Ref
  at (first, rest) id = get_or (first ∷ rest) id first

  -- The loop of `strategyRoundRobin` with `rounds` left: the proxy, if one is alive, and `i` after it.
  round_loop : ℕ → ℕ → ℕ → Members ps → ℕ × Option Ref
  round_loop zero i idx members = (i, none)
  round_loop (suc rounds) i idx members =
      let rest = round_loop rounds (i + 1) idx members in
      let p = at members ((idx + i) % length (all_of ps members)) in
      if is_alive ps p then (i + 1, some p) else rest

  -- `strategyRoundRobin`: the index after it, and the proxy. The deferred function reads `i` when the
  -- strategy returns.
  unfoldable pub round_robin : Bool → ℕ → Members ps → ℕ × Ref
  unfolding round_loop
  round_robin touch idx members =
      let (i, found) = round_loop (length (all_of ps members)) 0 idx members in
      (if touch then (idx + i) % length (all_of ps members) else idx, or_first ps (members.0) found)

  -- The loop of `strategyConsistentHashing` with so many tries left; `jump_hash` is `jumpHash`, whose
  -- steps are of floating point.
  hash_loop : (ℕ → ℕ → ℕ) → ℕ → ℕ → Members ps → Option Ref
  hash_loop jump_hash zero key members = none
  hash_loop jump_hash (suc tries) key members =
      let rest = hash_loop jump_hash tries ((key + 1) % 2 ^ 64) members in
      let p = at members (jump_hash key (length (all_of ps members))) in
      if is_alive ps p then some p else rest

  -- `strategyConsistentHashing` on the hash of the connection's key.
  unfoldable pub consistent_hashing : (ℕ → ℕ → ℕ) → ℕ → Members ps → Ref
  unfolding hash_loop
  consistent_hashing jump_hash key (first, rest) = elim (hash_loop jump_hash 5 key (first, rest)) [
    | some p ↦ p
    | none ↦ or_first ps first (first_alive ps (first ∷ rest))
  ]

  -- Whether one of a list is alive.
  abbrev pub any_alive : List Ref → Bool
  any_alive [] = false
  any_alive (p ∷ rest) = is_alive ps p || any_alive rest

  hash_loop_alive :
      (jump_hash : ℕ → ℕ → ℕ) (tries key : ℕ) (members : Members ps) (p : Ref)
      → hash_loop jump_hash tries key members ≡ some p
      → is_alive ps p ≡ true
  unfolding hash_loop
  hash_loop_alive jump_hash zero key members p e = absurd (cc)
  hash_loop_alive jump_hash (suc tries) key members p e =
      let q = at members (jump_hash key (length (all_of ps members))) in
      elim (Bool-cases (is_alive ps q)) [
        | inl t ↦
            let e' : some q ≡ some p = rw t at e in
            let same : q ≡ p = cc in subst (λ r. is_alive ps r ≡ true) same t
        | inr f ↦ hash_loop_alive jump_hash tries ((key + 1) % 2 ^ 64) members p (rw f at e)
      ]

  first_alive_alive :
      (first : Ref) (xs : List Ref)
      → any_alive xs ≡ true
      → is_alive ps (or_first ps first (first_alive ps xs)) ≡ true
  unfolding first_alive
  first_alive_alive first [] e = absurd (cc)
  first_alive_alive first (p ∷ rest) e = elim (Bool-cases (is_alive ps p)) [
    | inl t ↦ rw t t
    | inr f ↦ rw f (first_alive_alive first rest (rw f at e))
  ]

  -- `strategyConsistentHashing` returns a proxy that is alive, whatever the hashes, if the group has one.
  pub consistent_hashing_alive :
      (jump_hash : ℕ → ℕ → ℕ) (key : ℕ) (first : Ref) (rest : List Ref)
      → any_alive (first ∷ rest) ≡ true
      → is_alive ps (consistent_hashing jump_hash key (first, rest)) ≡ true
  unfolding consistent_hashing
  consistent_hashing_alive jump_hash key first rest e =
      elim (Option-cases (hash_loop jump_hash 5 key (first, rest))) [
        | inl k ↦ rw (k, consistent_hashing) (first_alive_alive first (first ∷ rest) e)
        | inr (p, k) ↦
            rw (k, consistent_hashing) (hash_loop_alive jump_hash 5 key (first, rest) p k)
      ]

  -- Rounds that find no proxy alive have visited each offset from `i` on.
  round_loop_all_dead :
      (rounds i idx : ℕ) (members : Members ps) (k : ℕ)
      → (round_loop rounds i idx members).1 ≡ none
      → i ≤ k
      → k < i + rounds
      → is_alive ps (at members ((idx + k) % length (all_of ps members))) ≡ false
  unfolding round_loop
  round_loop_all_dead zero i idx members k e lo hi = absurd (omega arith)
  round_loop_all_dead (suc rounds) i idx members k e lo hi =
      elim (Bool-cases (is_alive ps (at members ((idx + i) % length (all_of ps members))))) [
        | inl t ↦ absurd (let e' = rw t at e in cc)
        | inr f ↦ elim (dec_lt i k) [
          | no le ↦
              let same : i ≡ k = omega arith in
              subst (λ x. is_alive ps (at members ((idx + x) % length (all_of ps members))) ≡ false)
                same f
          | yes gt ↦
              round_loop_all_dead rounds (i + 1) idx members k (rw f at e) (omega arith)
                (omega arith)
        ]
      ]

  round_loop_alive :
      (rounds i idx : ℕ) (members : Members ps) (p : Ref)
      → (round_loop rounds i idx members).1 ≡ some p
      → is_alive ps p ≡ true
  unfolding round_loop
  round_loop_alive zero i idx members p e = absurd (cc)
  round_loop_alive (suc rounds) i idx members p e =
      let q = at members ((idx + i) % length (all_of ps members)) in
      elim (Bool-cases (is_alive ps q)) [
        | inl t ↦
            let e' : some q ≡ some p = rw t at e in
            let same : q ≡ p = cc in subst (λ r. is_alive ps r ≡ true) same t
        | inr f ↦ round_loop_alive rounds (i + 1) idx members p (rw f at e)
      ]

  wrap : (n j : ℕ) → j < n → (j + n) % n ≡ j
  wrap n j h = grind arith

  -- Each index of a group is visited at some offset below its length.
  offset_of : (n idx j : ℕ) → idx < n → j < n → (k : ℕ) × (k < n) × ((idx + k) % n ≡ j)
  offset_of n idx j h h' = elim (dec_lt j idx) [
    | no le ↦
        let e : idx + (j - idx) ≡ j = omega arith in (j - idx, omega arith, rw e (mod-eq_of_lt h'))
    | yes before ↦
        let e : idx + (j + n - idx) ≡ j + n = omega arith in
        (j + n - idx, omega arith, rw e (wrap n j h'))
  ]

  -- With a round for each proxy, the loop finds one that is alive if there is one.
  found_alive :
      (n idx j : ℕ) (members : Members ps)
      → n ≡ length (all_of ps members)
      → idx < n
      → j < n
      → is_alive ps (at members j) ≡ true
      → is_alive ps (or_first ps (members.0) (round_loop n 0 idx members).1) ≡ true
  found_alive n idx j members same h h' e = elim (Option-cases (round_loop n 0 idx members).1) [
    | inl k ↦
        let (off, below, there) = offset_of n idx j h h' in
        let dead = round_loop_all_dead n 0 idx members off k (omega arith) (omega arith) in
        let dead' : is_alive ps (at members ((idx + off) % n)) ≡ false =
          subst (λ x. is_alive ps (at members ((idx + off) % x)) ≡ false) (sym same) dead in
        absurd (let d = subst (λ x. is_alive ps (at members x) ≡ false) there dead' in cc)
    | inr (p, k) ↦
        subst (λ o. is_alive ps (or_first ps (members.0) o) ≡ true) (sym k)
          (round_loop_alive n 0 idx members p k)
  ]

  round_index : (touch : Bool) (n i idx : ℕ) → idx < n → (if touch then (idx + i) % n else idx) < n
  round_index true n i idx h = mod-lt (idx + i) (omega arith)
  round_index false n i idx h = h

  -- `strategyRoundRobin`, from an index within the group, returns a proxy that is alive if the group has
  -- one, and leaves an index within the group.
  pub round_robin_alive :
      (touch : Bool) (idx j : ℕ) (members : Members ps)
      → idx < length (all_of ps members)
      → j < length (all_of ps members)
      → is_alive ps (at members j) ≡ true
      → (is_alive ps (round_robin touch idx members).1 ≡ true)
        × ((round_robin touch idx members).0 < length (all_of ps members))
  unfolding round_robin
  round_robin_alive touch idx j members h h' e =
      let n = length (all_of ps members) in
      (
        found_alive n idx j members refl h h' e,
        round_index touch n (round_loop n 0 idx members).0 idx h,
      )
