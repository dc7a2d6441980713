-- ===== src/Tunnel.antt =====
-- tunnel/tunnel.go: the preparation of the metadata of a connection and the choice of its proxy.
pub mod Match
pub mod Resolver
pub mod Fake
mod Tests
use go_warp_scanner.Common.Text.{Text, codes}
use go_warp_scanner.Common.{
  ℕ, ◌+◌, Bool, true, false, not, ◌&&◌, ◌||◌, Option, none, some, List, [], ◌∷◌, ◌++◌, ◌==◌,
  if◌then◌else◌, length,
}

pub data DnsMode : Type 0 where
  dns_normal dns_fake_ip dns_mapping dns_hosts : DnsMode

-- `Metadata` as the tunnel reads and writes it; an address is its number, or `none` if it is not valid.
-- `process` is the process with its path and user, and `rest` the other fields, which the rules read.
pub record Metadata (R : Type 0) : Type 0 where
  pub host : Text
  pub dst_ip : Option ℕ
  pub dns_mode : DnsMode
  pub udp : Bool
  pub special_proxy : Text
  pub special_rules : Text
  pub process : Option (Text × Text × ℕ)
  pub rest : R

-- A proxy by what the tunnel asks of it: one that `Unwrap` gives nothing for, or a group, of which
-- `Unwrap` gives the proxy in use. The groups are not nested in a cycle, which the configuration tests.
pub data Proxy (R : Type 0) : Type 0 where
  plain : (name : Text) (is_pass support_udp : Bool) → Proxy R
  group : (name : Text) (support_udp : Bool) (unwrap : Metadata R → Proxy R) → Proxy R

abbrev pub supports_udp : {R : Type 0} → Proxy R → Bool
supports_udp (plain name is_pass support_udp) = support_udp
supports_udp (group name support_udp unwrap) = support_udp

-- `HostValue`.
pub record HostValue : Type 0 where
  pub is_domain : Bool
  pub domain : Text
  pub rand_ip : Option ℕ

pub data Mode : Type 0 where
  global_mode rule_mode direct_mode : Mode

-- The functions and the state that the tunnel stands on: the rules, the resolver with its table of hosts, whose
-- search gives a value and whether it is the result, and the search for processes.
pub record Env (R : Type 0) : Type 1 where
  pub Rule : Type 0
  pub rule_match : Rule → Metadata R → Bool × Text
  pub rule_ip : Rule → Bool
  pub rule_process : Rule → Bool
  pub rules : List Rule
  pub sub_rules : Text → Option (List Rule)
  pub proxies : Text → Option (Proxy R)
  pub mode : Mode
  pub resolve_ip : Text → Option ℕ
  pub search_hosts : Text → Bool → Option HostValue × Bool
  pub parse_ip : Text → Option ℕ
  pub mapping_enabled : Bool
  pub fake_ip_enabled : Bool
  pub find_host_by_ip : ℕ → Option Text
  pub is_fake_ip : ℕ → Bool
  pub process_off : Bool
  pub process_always : Bool
  pub find_process : Metadata R → Option (Text × Text × ℕ)

-- The variables of `match`, and the hosts that the resolver was asked for.
pub record MatchState (R : Type 0) : Type 0 where
  pub meta : Metadata R
  pub resolved : Bool
  pub process_found : Bool
  pub asked : List Text

abbrev is_valid : Option ℕ → Bool
is_valid none = false
is_valid (some ip) = true

abbrev found_ip : Option HostValue → Option ℕ
found_ip none = none
found_ip (some v) = v.rand_ip

-- The loop of `match` over the adapter and what `Unwrap` gives in turn: whether one of them is of the type Pass.
abbrev pub passes : {R : Type 0} → Metadata R → Proxy R → Bool
passes meta (plain name is_pass support_udp) = is_pass
passes meta (group name support_udp unwrap) = passes meta (unwrap meta)

module _ {R : Type 0} (env : Env R) where
  open env use {
    Rule, rule_match, rule_ip, rule_process, rules, sub_rules, proxies, mode, resolve_ip,
    search_hosts, parse_ip, mapping_enabled, fake_ip_enabled, find_host_by_ip, is_fake_ip,
    process_off, process_always, find_process,
  }

  -- `shouldResolveIP`.
  abbrev pub should_resolve_ip : Rule → Metadata R → Bool
  should_resolve_ip r m = rule_ip r && (not (length m.host == 0) && not (is_valid m.dst_ip))

  -- The metadata after the resolver is asked.
  abbrev with_ip : Option ℕ → Metadata R → Metadata R
  with_ip none m = m
  with_ip (some ip) m = record m { dst_ip = some ip }

  resolve_step : Rule → MatchState R → MatchState R
  resolve_step r s =
      if not s.resolved && should_resolve_ip r s.meta
      then record s {
        meta = with_ip (resolve_ip s.meta.host) s.meta;
        resolved = true;
        asked = s.asked ++ s.meta.host ∷ [];
      }
      else s

  abbrev with_process : Option (Text × Text × ℕ) → MatchState R → MatchState R
  with_process none s = s
  with_process (some p) s = record s {
    meta = record s.meta { process = some p };
    process_found = true;
  }

  process_step : Rule → MatchState R → MatchState R
  process_step r s =
      if not process_off && (not s.process_found && (process_always || rule_process r))
      then with_process (find_process s.meta) s
      else s

  -- The state in which a rule is matched.
  unfoldable pub prepare : Rule → MatchState R → MatchState R
  unfolding resolve_step process_step
  prepare r s = process_step r (resolve_step r s)

  -- The guards on the adapter of a rule that matches: `none` goes on with the next rule.
  unfoldable pub usable : Metadata R → Text → Option (Proxy R)
  usable m name = elim (proxies name) [
    | none ↦ none
    | some a ↦ if passes m a then none else if m.udp && not (supports_udp a) then none else some a
  ]

  -- The loop of `match`.
  unfoldable pub match_loop :
      List Rule → MatchState R → MatchState R × (Option (Proxy R) × Option Rule)
  unfolding prepare usable
  match_loop [] s = (s, (proxies (codes "DIRECT"), none))
  match_loop (r ∷ rs) s =
      let s' = prepare r s in
      let rest = match_loop rs s' in
      let (hit, name) = rule_match r s'.meta in
      if hit
      then elim (usable s'.meta name) [ none ↦ rest | some a ↦ (s', (some a, some r)) ]
      else rest

  -- `getRules`.
  unfoldable pub get_rules : Metadata R → List Rule
  get_rules m = elim (sub_rules m.special_rules) [ none ↦ rules | some rs ↦ rs ]

  -- The state of `match` before its loop.
  unfoldable pub start : Metadata R → MatchState R
  start m =
      let (node, ok) = search_hosts m.host false in
      if ok
      then record {
        meta = record m { dst_ip = found_ip node };
        resolved = true;
        process_found = false;
        asked = [];
      }
      else record { meta = m; resolved = false; process_found = false; asked = [] }

  -- `match`.
  unfoldable pub match_rules : Metadata R → MatchState R × (Option (Proxy R) × Option Rule)
  unfolding start get_rules match_loop
  match_rules m = let s = start m in match_loop (get_rules s.meta) s

  -- `resolveMetadata`: the metadata after it, and the proxy and the rule; `none` is its error.
  unfoldable pub resolve_metadata :
      Metadata R → Metadata R × Option (Option (Proxy R) × Option Rule)
  unfolding match_rules
  resolve_metadata m =
      if length m.special_proxy == 0
      then elim mode [
        | direct_mode ↦ (m, some (proxies (codes "DIRECT"), none))
        | global_mode ↦ (m, some (proxies (codes "GLOBAL"), none))
        | rule_mode ↦ let (s, r) = match_rules m in (s.meta, some r)
      ]
      else elim (proxies m.special_proxy) [ none ↦ (m, none) | some a ↦ (m, some (some a, none)) ]

  -- The host behind an address, with `DNSMapping`, and the further branches for it.
  mapped : Text → Metadata R → Metadata R
  mapped host m =
      let m' : Metadata R = record m { host = host; dns_mode = dns_mapping } in
      let (node, ok) = search_hosts host false in
      if fake_ip_enabled
      then record m' { dst_ip = none; dns_mode = dns_fake_ip }
      else if ok
      then record m' { dst_ip = found_ip node }
      else elim node [
        | none ↦ m'
        | some v ↦ if v.is_domain then record m' { host = v.domain } else m'
      ]

  by_ip : ℕ → Metadata R → Option (Metadata R)
  unfolding mapped
  by_ip ip m = elim (find_host_by_ip ip) [
    | some host ↦ some (mapped host m)
    | none ↦ if is_fake_ip ip then none else some m
  ]

  by_hosts : Metadata R → Metadata R
  by_hosts m =
      let (node, ok) = search_hosts m.host true in
      if ok then elim node [ none ↦ m | some v ↦ record m { host = v.domain } ] else m

  -- `preHandleMetadata` behind the test for an address as host; `needLookupIP` is its first test.
  pre_handle : Metadata R → Option (Metadata R)
  unfolding by_ip by_hosts
  pre_handle m = elim m.dst_ip [
    | none ↦ some (by_hosts m)
    | some ip ↦ if mapping_enabled && length m.host == 0 then by_ip ip m else some (by_hosts m)
  ]

  -- `preHandleMetadata`; `none` is its error.
  unfoldable pub pre_handle_metadata : Metadata R → Option (Metadata R)
  unfolding pre_handle
  pre_handle_metadata m = elim (parse_ip m.host) [
    | none ↦ pre_handle m
    | some ip ↦ pre_handle (record m { dst_ip = some ip; host = [] })
  ]
