-- ===== src/Tunnel/Tests.antt =====
-- The tunnel with a group, a proxy and two rules, at concrete values.
use go_warp_scanner.Common.Text.{Text, codes, text_eq}
use go_warp_scanner.Tunnel.{
  dns_normal, Metadata, Proxy, plain, group, rule_mode, Env, supports_udp, passes, resolve_step,
  process_step, prepare, usable, match_loop, get_rules, start, match_rules, pre_handle_metadata,
  pre_handle, by_ip,
}
use go_warp_scanner.Tunnel.Match.{Chosen, match_rules-Chosen, match_rules_safe}
use go_warp_scanner.Tunnel.Resolver.{length-match_rules}
use go_warp_scanner.Tunnel.Fake.{pre_handle_metadata-is_fake_ip}
use go_warp_scanner.Common.{
  ◌≤◌, ◌≡◌, refl, true, false, not, ◌&&◌, Option, none, some, [], ◌∷◌, leb, ◌==◌, if◌then◌else◌,
  length,
}

abbrev direct : Proxy Unit
direct = plain (codes "DIRECT") false true

abbrev pass : Proxy Unit
pass = plain (codes "PASS") true true

abbrev auto : Proxy Unit
auto = group (codes "auto") true (λ m. direct)

abbrev hidden_pass : Proxy Unit
hidden_pass = group (codes "skip") true (λ m. pass)

abbrev proxies : Text → Option (Proxy Unit)
proxies s =
    if text_eq s (codes "auto")
    then some auto
    else if text_eq s (codes "skip")
    then some hidden_pass
    else if text_eq s (codes "DIRECT")
    then some direct
    else none

-- Two rules that match each connection, by their target; both want the address.
abbrev env : Env Unit
env = record {
  Rule = Text;
  rule_match = λ r m. (true, r);
  rule_ip = λ r. true;
  rule_process = λ r. false;
  rules = codes "skip" ∷ codes "auto" ∷ [];
  sub_rules = λ s. none;
  proxies = proxies;
  mode = rule_mode;
  resolve_ip = λ s. some 16909060;
  search_hosts = λ s domain. (none, false);
  parse_ip = λ s. none;
  mapping_enabled = true;
  fake_ip_enabled = true;
  find_host_by_ip = λ ip. if ip == 3323068420 then some (codes "a.org") else none;
  is_fake_ip = λ ip. leb 3323068416 ip;
  process_off = true;
  process_always = false;
  find_process = λ m. none;
}

abbrev to_host : Metadata Unit
to_host = record {
  host = codes "b.org";
  dst_ip = none;
  dns_mode = dns_normal;
  udp = true;
  special_proxy = [];
  special_rules = [];
  process = none;
  rest = tt;
}

chosen_auto : (match_rules env to_host).1 ≡ (some auto, some (codes "auto"))
unfolding match_rules start get_rules match_loop prepare resolve_step process_step usable
chosen_auto = refl

match_rules-Chosen_example :
    Chosen env
      (get_rules env (start env to_host).meta)
      (start env to_host)
      (match_rules env to_host)
match_rules-Chosen_example = match_rules-Chosen env to_host

match_rules_safe_example :
    ((env.rule_match (codes "auto") (match_rules env to_host).0.meta).0 ≡ true)
    × (env.proxies (env.rule_match (codes "auto") (match_rules env to_host).0.meta).1 ≡ some auto)
    × (passes (match_rules env to_host).0.meta auto ≡ false)
    × ((to_host.udp && not (supports_udp auto)) ≡ false)
match_rules_safe_example = match_rules_safe env to_host auto (codes "auto") chosen_auto

length-match_rules_example : length (match_rules env to_host).0.asked ≤ 1
length-match_rules_example = length-match_rules env to_host

abbrev to_ip : Metadata Unit
to_ip = record to_host { host = []; dst_ip = some 16909060 }

passed_on : pre_handle_metadata env to_ip ≡ some to_ip
unfolding pre_handle_metadata pre_handle by_ip
passed_on = refl

pre_handle_metadata-is_fake_ip_example : env.is_fake_ip 16909060 ≡ false
pre_handle_metadata-is_fake_ip_example =
    pre_handle_metadata-is_fake_ip env to_ip to_ip 16909060 (λ h v e. absurd (cc)) refl refl
      passed_on refl refl
