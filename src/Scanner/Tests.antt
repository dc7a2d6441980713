-- ===== src/Scanner/Tests.antt =====
-- Runs of the scanner on small inputs, and its theorems at concrete values.
use go_warp_scanner.Common.Text.{Text, codes, split, contains_text}
use go_warp_scanner.Scanner.Inc.{inc, value}
use go_warp_scanner.Scanner.Ip.{all_equal, is_mapped, to4}
use go_warp_scanner.Scanner.Cidr.{IpNet, of_value, mask_ip, contains, cidr_loop, get_cidr_ips}
use go_warp_scanner.Scanner.Cidr.Range.{
  IsParsed, AreRanges, address_range, get_cidr_ips-range, get_cidr_ips-diverges,
}
use go_warp_scanner.Scanner.Url.{Metadata, Url, url_to_metadata}
use go_warp_scanner.Scanner.Ping.{Network, u16, ping_wg}
use go_warp_scanner.Scanner.Ping.Outcome.{Succeeds, ping_wg_outcome}
use go_warp_scanner.Scanner.Average.{AllBelow, select_ping, ping_address, ping_address_zero}
use go_warp_scanner.Scanner.Pool.{
  receiving, returned, idle, Pool, Step, send, sent, accept, finish, receive, close, start, Run,
  here, next,
}
use go_warp_scanner.Scanner.Pool.Invariant.{occ, occ_done, busy_count}
use go_warp_scanner.Scanner.Pool.Progress.{pool_progress, pool-Run_bounded, pool_return}
use go_warp_scanner.Common.{
  ℕ, ◌+◌, ◌*◌, ◌≤◌, ◌<◌, ◌≡◌, refl, ◌↔◌, true, Option, none, some, List, [], ◌∷◌, ◌++◌, map, arith,
  inl, replicate,
}

inc_carries : inc (188 ∷ 114 ∷ 96 ∷ 255 ∷ []) ≡ 188 ∷ 114 ∷ 97 ∷ 0 ∷ []
unfolding inc
inc_carries = refl

inc_wraps : inc (255 ∷ 255 ∷ []) ≡ 0 ∷ 0 ∷ []
unfolding inc
inc_wraps = refl

-- A parser that reads every text as one range.
abbrev always : List ℕ → IpNet → Text → Option (List ℕ × IpNet)
always ip net cidr = some (ip, net)

abbrev show : List ℕ → Text
show ip = ip

-- 188.114.96.253/30, as `net.ParseCIDR` gives it.
abbrev quad_ip : List ℕ
quad_ip = replicate 10 0 ++ (255 ∷ 255 ∷ 188 ∷ 114 ∷ 96 ∷ 253 ∷ [])

abbrev quad : IpNet
quad = record { ip = 188 ∷ 114 ∷ 96 ∷ 252 ∷ []; ones = 30 }

quad-IsParsed : IsParsed quad_ip quad
unfolding mask_ip value of_value is_mapped all_equal
quad-IsParsed = record {
  bytes = omega arith;
  sixteen = refl;
  short = omega arith;
  family = inl (refl, refl);
  network = refl;
}

quad_runs :
    get_cidr_ips (always quad_ip quad) show 9 []
    ≡ some (
        (188 ∷ 114 ∷ 96 ∷ 252 ∷ [])
        ∷ (188 ∷ 114 ∷ 96 ∷ 253 ∷ [])
        ∷ (188 ∷ 114 ∷ 96 ∷ 254 ∷ [])
        ∷ (188 ∷ 114 ∷ 96 ∷ 255 ∷ [])
        ∷ [])
unfolding get_cidr_ips inc value contains mask_ip of_value is_mapped all_equal to4
quad_runs = refl

-- ::fffc:0:0/94 has ::ffff:0:0; from ::fffe:ffff:fffe on, its loop ends before that.
abbrev cut_net : IpNet
cut_net = record { ip = replicate 10 0 ++ (255 ∷ 252 ∷ 0 ∷ 0 ∷ 0 ∷ 0 ∷ []); ones = 94 }

abbrev near_cut : ℕ → List ℕ
near_cut b = replicate 10 0 ++ (255 ∷ 254 ∷ 255 ∷ 255 ∷ 255 ∷ b ∷ [])

cut_loop :
    cidr_loop (always [] cut_net) show 9 cut_net (near_cut 254) []
    ≡ some (near_cut 254 ∷ near_cut 255 ∷ [])
unfolding cidr_loop inc value contains is_mapped all_equal to4
cut_loop = refl

get_cidr_ips-range_example :
    get_cidr_ips (always quad_ip quad) show 5 []
    ≡ some (map show (address_range 4 (value quad.ip) 4))
get_cidr_ips-range_example =
    get_cidr_ips-range (always quad_ip quad) show [] 5 refl quad-IsParsed (inl (omega arith))
      (omega arith)

-- 0.0.0.0/0.
abbrev zero_ip : List ℕ
zero_ip = replicate 10 0 ++ (255 ∷ 255 ∷ 0 ∷ 0 ∷ 0 ∷ 0 ∷ [])

abbrev whole : IpNet
whole = record { ip = 0 ∷ 0 ∷ 0 ∷ 0 ∷ []; ones = 0 }

whole-IsParsed : IsParsed zero_ip whole
unfolding mask_ip value of_value is_mapped all_equal
whole-IsParsed = record {
  bytes = omega arith;
  sixteen = refl;
  short = omega arith;
  family = inl (refl, refl);
  network = refl;
}

get_cidr_ips-diverges_example : get_cidr_ips (always zero_ip whole) show 1000 [] ≡ none
get_cidr_ips-diverges_example =
    get_cidr_ips-diverges (always zero_ip whole) show [] 1000 refl whole-IsParsed refl refl

two_ranges : split b' ' (codes "a b") ≡ codes "a" ∷ codes "b" ∷ []
unfolding split
two_ranges = refl

quad_ranges : AreRanges (always quad_ip quad) 5 (split b' ' (codes "a b"))
unfolding split
quad_ranges = (
  (quad_ip, quad, refl, quad-IsParsed, inl (omega arith), omega arith),
  ((quad_ip, quad, refl, quad-IsParsed, inl (omega arith), omega arith), tt),
)

abbrev trace_url : Url
trace_url = record { scheme = codes "https"; hostname = codes "cloudflare.com"; port = [] }

abbrev trace_metadata : Metadata
trace_metadata = record { host = codes "cloudflare.com"; dst_ip = none; dst_port = codes "443" }

abbrev parse_trace : Text → Option Url
parse_trace s = some trace_url

-- A network in which every probe answers after 70 ms.
abbrev answering : Network
answering = record {
  Proxy = Unit;
  Conn = Unit;
  parse_proxy = λ ip port. some tt;
  parse_url = parse_trace;
  dial = λ proxy addr. some tt;
  new_request = λ url. true;
  do_request = λ conn. some (record { status = 200; body = codes "a warp=on b" });
  elapsed = 70;
}

answering_pings : (ping_wg answering (codes "x") 2408).0 ≡ 70
unfolding ping_wg url_to_metadata contains_text
answering_pings = refl

ping_wg_outcome_example :
    (Succeeds answering (codes "x") 2408 → (ping_wg answering (codes "x") 2408).0 ≡ u16 70)
    × (0 < (ping_wg answering (codes "x") 2408).0 → Succeeds answering (codes "x") 2408)
ping_wg_outcome_example = ping_wg_outcome answering (codes "x") 2408

ping_address_zero_example : (ping_address (1 ∷ 1 ∷ []) ≡ 0) ↔ AllBelow 2 (1 ∷ 1 ∷ [])
ping_address_zero_example = ping_address_zero (1 ∷ 1 ∷ []) (λ e. cc e)

abbrev one_job : List Text
one_job = codes "x" ∷ []

sent-Run :
    Run 1 (start 2 one_job) 2 (record (start 2 one_job) { phase = receiving 1; input = one_job })
sent-Run = next (next here (send (codes "x") [] refl (omega arith) refl)) (sent refl refl)

pool_progress_example :
    (t : Pool) × Step 1 (record (start 2 one_job) { phase = receiving 1; input = one_job }) t
pool_progress_example = pool_progress 2 one_job (omega arith) sent-Run (λ e. cc e)

finished-Run :
    Run 1
      (start 2 one_job)
      6
      (record (start 2 one_job) { phase = returned; done = (codes "x", 70) ∷ [] })
unfolding select_ping
finished-Run =
    next
      (next
        (next (next sent-Run (accept 0 (codes "x") [] refl refl refl))
          (finish 0 (codes "x") (some 70) refl (omega arith) refl))
        (receive 0 70 [] refl refl refl))
      (close refl refl)

pool-Run_bounded_example : 6 ≤ 4 * 1 + 2
pool-Run_bounded_example = pool-Run_bounded 2 one_job finished-Run

pool_return_example :
    (◌≡◌ {A = List Text} [] [])
    × (busy_count (idle ∷ idle ∷ []) ≡ 0)
    × (◌≡◌ {A = List ℕ} [] [])
    × ((x : Text) → occ_done x ((codes "x", 70) ∷ []) ≡ occ x one_job)
pool_return_example = pool_return 2 one_job finished-Run refl
