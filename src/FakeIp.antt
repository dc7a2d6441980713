-- ===== src/FakeIp.antt =====
-- component/fakeip/pool.go: fake addresses for host names, over the interface `store`.
pub mod Laws
pub mod Memory
mod Tests
use go_warp_scanner.Common.Text.{Text, to_lower}
use go_warp_scanner.Common.{
  ℕ, ◌+◌, ◌-◌, ◌*◌, ◌/◌, ◌^◌, Bool, true, false, ◌&&◌, ◌||◌, Option, none, some, ltb, leb,
  if◌then◌else◌,
}

-- The interface `store`. A lookup may change the state of the store, such as an order of use.
pub record Store : Type 1 where
  pub State : Type 0
  pub get_by_host : Text → State → State × Option ℕ
  pub put_by_host : Text → ℕ → State → State
  pub get_by_ip : ℕ → State → State × Option Text
  pub put_by_ip : ℕ → Text → State → State
  pub del_by_ip : ℕ → State → State
  pub exist : ℕ → State → Bool
  -- the state after a flush, and whether it gave no error
  pub flush_fake_ip : State → State × Bool

-- `Pool`, with an address as its number. An address past the end of its family is invalid for
-- `netip`, and never stands here: the laws show that every address is below `last`.
pub record Pool (S : Type 0) : Type 0 where
  pub gateway : ℕ
  pub first : ℕ
  pub last : ℕ
  pub offset : ℕ
  pub cycle : Bool
  pub store : S

-- `netip.Prefix` for `New`: the bits of its family, the bits of the prefix, the address.
pub record Prefix : Type 0 where
  pub width : ℕ
  pub bits : ℕ
  pub addr : ℕ

-- `nnip.UnMasked` on the 128 bits of an address: the lengths up to 32 are taken for IPv4.
unfoldable pub un_masked : Prefix → ℕ
un_masked p =
    let bits = if leb p.bits 32 then p.bits + 96 else p.bits in
    let size = 2 ^ (128 - bits) in p.addr / size * size + (size - 1)

-- `IPNet.Masked().Addr()`.
unfoldable pub masked_addr : Prefix → ℕ
masked_addr p = let size = 2 ^ (p.width - p.bits) in p.addr / size * size

-- `New` for a valid prefix and a store with no state to restore; `none` is its error.
unfoldable pub new_pool : {S : Type 0} → Prefix → S → Option (Pool S)
new_pool p store =
    let host_addr = masked_addr p in
    let gateway = host_addr + 1 in
    let first = gateway + 3 in
    let last = un_masked p in
    if ltb first (2 ^ p.width) && ltb first last
    then some (record {
      gateway = gateway;
      first = first;
      last = last;
      offset = first - 1;
      cycle = false;
      store = store;
    })
    else none

module _ (st : Store) where
  open st use {
    State, get_by_host, put_by_host, get_by_ip, put_by_ip, del_by_ip, exist, flush_fake_ip,
  }

  -- The first half of `get`: the next offset, back to the first address at the end.
  unfoldable pub advance : Pool State → Pool State
  advance p =
      let next = p.offset + 1 in
      if ltb next p.last
      then record p { offset = next }
      else record p { offset = p.first; cycle = true }

  -- The rest of `get`, at the new offset.
  unfoldable pub assign : Text → Pool State → Pool State
  assign host p =
      let freed =
        if p.cycle || exist p.offset p.store then del_by_ip p.offset p.store else p.store in
      record p { store = put_by_ip p.offset host freed }

  unfoldable pub get : Text → Pool State → Pool State × ℕ
  unfolding advance assign
  get host p = let p' = assign host (advance p) in (p', p'.offset)

  -- What `Lookup` does for a host that the store does not know.
  unfoldable pub add_host : Text → Pool State → Pool State × ℕ
  unfolding get
  add_host host p =
      let (p', ip) = get host p in (record p' { store = put_by_host host ip p'.store }, ip)

  lookup_lower : Text → Pool State → Pool State × ℕ
  unfolding add_host
  lookup_lower host p =
      let (s, found) = get_by_host host p.store in
      elim found [
        | some ip ↦ (record p { store = s }, ip)
        | none ↦ add_host host (record p { store = s })
      ]

  unfoldable pub lookup : Text → Pool State → Pool State × ℕ
  unfolding lookup_lower
  lookup host p = lookup_lower (to_lower host) p

  unfoldable pub look_back : ℕ → Pool State → Pool State × Option Text
  look_back ip p = let (s, found) = get_by_ip ip p.store in (record p { store = s }, found)

  unfoldable pub flush : Pool State → Pool State × Bool
  flush p =
      let (s, fine) = flush_fake_ip p.store in
      (
        if fine
            then record p { store = s; cycle = false; offset = p.first - 1 }
            else record p { store = s },
        fine,
      )
