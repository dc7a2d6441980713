-- ===== src/BasicRules.antt =====
-- rules/common: the rules on hosts, addresses, networks and ports; common/utils/range.go.
pub mod Ports
pub mod Suffix
pub mod Hosts
mod Tests
use go_warp_scanner.Common.Text.{Text, codes, text_eq, contains_text, to_lower}
use go_warp_scanner.Logic.{LeafMethods}
use go_warp_scanner.BasicRules.Ports.{Port, PortType, in_port, src_port, dst_port, match_port_real}
use go_warp_scanner.Common.{
  ℕ, ◌+◌, ◌-◌, Bool, true, false, not, ◌&&◌, ◌||◌, Option, none, some, List, [], ◌∷◌, ◌++◌, map,
  leb, ◌==◌, if◌then◌else◌, length, drop,
}

-- `strings.HasSuffix`.
unfoldable pub has_suffix : Text → Text → Bool
has_suffix s suffix =
    leb (length suffix) (length s) && text_eq (drop (length s - length suffix) s) suffix

pub data Network : Type 0 where
  tcp udp : Network

-- The addresses and prefixes of `netip`, and the number that `uint16(port)` is for the text of a port,
-- after an `Atoi` whose error is not looked at.
pub record Netip : Type 1 where
  pub Addr : Type 0
  pub Prefix : Type 0
  pub prefix_contains : Prefix → Addr → Bool
  pub prefix_string : Prefix → Text
  pub port_number : Text → ℕ

-- `strings.ToUpper` on ASCII.
to_upper : Text → Text
to_upper s = map (λ c. if leb 97 c && leb c 122 then c - 32 else c) s

-- `HasNoResolve`.
has_no_resolve : List Text → Bool
has_no_resolve [] = false
has_no_resolve (p ∷ params) = text_eq p (codes "no-resolve") || has_no_resolve params

module _ (net : Netip) where
  open net use {Addr, Prefix, prefix_contains, prefix_string, port_number}

  -- What the rules read of `Metadata`; an address that is not valid is `none`.
  pub record Meta : Type 0 where
    pub host : Text
    pub sniff_host : Text
    pub network : Network
    pub src_ip : Option Addr
    pub dst_ip : Option Addr
    pub in_port_text : Text
    pub src_port_text : Text
    pub dst_port_text : Text

  -- `RuleHost`.
  unfoldable pub rule_host : Meta → Text
  rule_host meta = if length meta.sniff_host == 0 then meta.host else meta.sniff_host

  pub data BasicRule : Type 0 where
    domain domain_keyword domain_suffix : (value adapter : Text) → BasicRule
    ip_cidr : Prefix → (adapter : Text) → (is_source_ip no_resolve_ip : Bool) → BasicRule
    network_type : Network → (adapter : Text) → BasicRule
    port_rule : Port → BasicRule
    match_all : (adapter : Text) → BasicRule

  -- `NewDomain`, `NewDomainKeyword` and `NewDomainSuffix`.
  unfoldable pub new_domain : Text → Text → BasicRule
  new_domain value adapter = domain (to_lower value) adapter

  unfoldable pub new_domain_keyword : Text → Text → BasicRule
  new_domain_keyword value adapter = domain_keyword (to_lower value) adapter

  unfoldable pub new_domain_suffix : Text → Text → BasicRule
  new_domain_suffix value adapter = domain_suffix (to_lower value) adapter

  match_addr : Prefix → Option Addr → Bool
  match_addr ipnet none = false
  match_addr ipnet (some ip) = prefix_contains ipnet ip

  network_eq : Network → Network → Bool
  network_eq tcp tcp = true
  network_eq udp udp = true
  network_eq _ _ = false

  target_port : PortType → Meta → Text
  target_port in_port meta = meta.in_port_text
  target_port src_port meta = meta.src_port_text
  target_port dst_port meta = meta.dst_port_text

  -- `NewIPCIDR`, over `netip.ParsePrefix`; `none` is its error.
  new_ip_cidr :
      (Text → Option Prefix) → Text → Text → (is_source_ip no_resolve_ip : Bool) → Option BasicRule
  new_ip_cidr parse_prefix s adapter is_source no_resolve = elim (parse_prefix s) [
    | none ↦ none
    | some ipnet ↦ some (ip_cidr ipnet adapter is_source no_resolve)
  ]

  -- `NewNetworkType`; `none` is its error.
  new_network_type : Text → Text → Option BasicRule
  unfolding to_upper
  new_network_type network adapter =
      if text_eq (to_upper network) (codes "TCP")
      then some (network_type tcp adapter)
      else if text_eq (to_upper network) (codes "UDP")
      then some (network_type udp adapter)
      else none

  -- `NewMatch`.
  new_match : Text → BasicRule
  new_match adapter = match_all adapter

  -- `Match` of each rule, from its fields.
  match_domain : Text → Text → Meta → Bool × Text
  match_domain value adapter meta = (text_eq (rule_host meta) value, adapter)

  match_domain_keyword : Text → Text → Meta → Bool × Text
  match_domain_keyword value adapter meta = (contains_text (rule_host meta) value, adapter)

  unfoldable pub match_domain_suffix : Text → Text → Meta → Bool × Text
  match_domain_suffix value adapter meta =
      (has_suffix (rule_host meta) (codes "." ++ value) || text_eq (rule_host meta) value, adapter)

  match_ip_cidr : Prefix → Text → Bool → Meta → Bool × Text
  unfolding match_addr
  match_ip_cidr ipnet adapter is_source meta =
      (match_addr ipnet (if is_source then meta.src_ip else meta.dst_ip), adapter)

  match_network_type : Network → Text → Meta → Bool × Text
  unfolding network_eq
  match_network_type network adapter meta = (network_eq network meta.network, adapter)

  match_port : Port → Meta → Bool × Text
  unfolding target_port
  match_port p meta = (match_port_real p (port_number (target_port p.rule_type meta)), p.adapter)

  unfoldable pub match_basic : BasicRule → Meta → Bool × Text
  unfolding match_domain match_domain_keyword match_domain_suffix match_ip_cidr match_network_type
      match_port
  match_basic (domain value adapter) meta = match_domain value adapter meta
  match_basic (domain_keyword value adapter) meta = match_domain_keyword value adapter meta
  match_basic (domain_suffix value adapter) meta = match_domain_suffix value adapter meta
  match_basic (ip_cidr ipnet adapter is_source no_resolve) meta =
      match_ip_cidr ipnet adapter is_source meta
  match_basic (network_type network adapter) meta = match_network_type network adapter meta
  match_basic (port_rule p) meta = match_port p meta
  match_basic (match_all adapter) meta = (true, adapter)

  port_type_name : PortType → Text
  port_type_name in_port = codes "InPort"
  port_type_name src_port = codes "SrcPort"
  port_type_name dst_port = codes "DstPort"

  -- `RuleType`, as `String` shows it.
  basic_type : BasicRule → Text
  unfolding port_type_name
  basic_type (domain value adapter) = codes "Domain"
  basic_type (domain_keyword value adapter) = codes "DomainKeyword"
  basic_type (domain_suffix value adapter) = codes "DomainSuffix"
  basic_type (ip_cidr ipnet adapter is_source no_resolve) =
      if is_source then codes "SrcIPCIDR" else codes "IPCIDR"
  basic_type (network_type network adapter) = codes "Network"
  basic_type (port_rule p) = port_type_name p.rule_type
  basic_type (match_all adapter) = codes "Match"

  network_name : Network → Text
  network_name tcp = codes "tcp"
  network_name udp = codes "udp"

  basic_payload : BasicRule → Text
  unfolding network_name
  basic_payload (domain value adapter) = value
  basic_payload (domain_keyword value adapter) = value
  basic_payload (domain_suffix value adapter) = value
  basic_payload (ip_cidr ipnet adapter is_source no_resolve) = prefix_string ipnet
  basic_payload (network_type network adapter) = network_name network
  basic_payload (port_rule p) = p.port
  basic_payload (match_all adapter) = []

  basic_adapter : BasicRule → Text
  basic_adapter (domain value adapter) = adapter
  basic_adapter (domain_keyword value adapter) = adapter
  basic_adapter (domain_suffix value adapter) = adapter
  basic_adapter (ip_cidr ipnet adapter is_source no_resolve) = adapter
  basic_adapter (network_type network adapter) = adapter
  basic_adapter (port_rule p) = p.adapter
  basic_adapter (match_all adapter) = adapter

  -- `ShouldResolveIP`.
  basic_ip : BasicRule → Bool
  basic_ip (ip_cidr ipnet adapter is_source no_resolve) = not no_resolve
  basic_ip _ = false

  -- These rules as the rules of another package that the logic rules are over.
  unfoldable pub basic_methods : LeafMethods
  unfolding match_basic basic_type basic_payload basic_adapter basic_ip
  basic_methods = record {
    Leaf = BasicRule;
    Meta = Meta;
    leaf_match = match_basic;
    leaf_type = basic_type;
    leaf_payload = basic_payload;
    leaf_adapter = basic_adapter;
    leaf_ip = basic_ip;
    leaf_process = λ r. false;
  }
