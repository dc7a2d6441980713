-- ===== src/BasicRules/Tests.antt =====
-- Runs of the rules on hosts and ports, and the theorems at concrete values.
use go_warp_scanner.Common.Text.{codes, split}
use go_warp_scanner.BasicRules
use go_warp_scanner.BasicRules.{Netip, Meta}
use go_warp_scanner.BasicRules.Ports.{Port, new_port, new_range, dst_port}
use go_warp_scanner.BasicRules.Suffix.{match_ip_suffix, match_ip_suffix-drop, match_ip_suffix_self}
use go_warp_scanner.Common.{
  ℕ, ◌%◌, ◌^◌, ◌≡◌, refl, ◌↔◌, true, none, some, List, [], ◌∷◌, arith, ◌==◌, drop,
}

abbrev web_ports : Port
web_ports = record {
  adapter = codes "A";
  port = codes "80/443-440";
  rule_type = dst_port;
  port_list = record { start = 80; end = 80 } ∷ record { start = 440; end = 443 } ∷ [];
}

web_ports_run : new_port (codes "80/443-440") (codes "A") dst_port ≡ some web_ports
unfolding new_port new_range split
web_ports_run = refl

abbrev no_addresses : Netip
no_addresses = record {
  Addr = ℕ;
  Prefix = ℕ;
  prefix_contains = λ p a. p == a;
  prefix_string = λ p. [];
  port_number = λ s. 443;
}

abbrev visit : Meta no_addresses
visit = record {
  host = codes "www.cloudflare.com";
  sniff_host = [];
  network = BasicRules.tcp;
  src_ip = none;
  dst_ip = none;
  in_port_text = [];
  src_port_text = [];
  dst_port_text = codes "443";
}

abbrev own_bytes : List ℕ
own_bytes = 1 ∷ 2 ∷ 3 ∷ 4 ∷ []

abbrev other_bytes : List ℕ
other_bytes = 9 ∷ 9 ∷ 19 ∷ 4 ∷ []

match_ip_suffix-drop_example :
    (match_ip_suffix (record { ip_bytes = own_bytes; bits = 12 }) other_bytes ≡ some true)
    ↔ ((drop 3 own_bytes ≡ drop 3 other_bytes) × (3 % 2 ^ 4 ≡ 19 % 2 ^ 4))
match_ip_suffix-drop_example = match_ip_suffix-drop own_bytes other_bytes 12 refl (omega arith)

match_ip_suffix_self_example :
    match_ip_suffix (record { ip_bytes = own_bytes; bits = 32 }) own_bytes ≡ none
match_ip_suffix_self_example = match_ip_suffix_self own_bytes 32 (omega arith)
