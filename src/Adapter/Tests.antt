-- ===== src/Adapter/Tests.antt =====
-- Runs of the delay test and of the queue, and their theorems at concrete values.
use go_warp_scanner.Common.Text.{codes}
use go_warp_scanner.Adapter.Queue.{Queue}
use go_warp_scanner.Adapter.Proxy.{
  Exchange, Response, Outcome, dial_failed, new_proxy, delay_history, record_test, last_delay,
  max_delay, is_ok, url_test,
}
use go_warp_scanner.Adapter.Proxy.History.{
  record_tests, to_record, last_ten, Answered, delay_history-tests, record_test_state,
  url_test-rejected,
}
use go_warp_scanner.Scanner.Url.{Url, Metadata, url_to_metadata}
use go_warp_scanner.Common.{
  ℕ, ◌≡◌, refl, inl, true, false, none, some, List, [], ◌∷◌, ◌++◌, map, arith, replicate,
}

abbrev one_item : Queue ℕ
one_item = record { items = 7 ∷ [] }

-- Twelve tests, the last of which fails.
abbrev twelve : List (ℕ × Outcome)
twelve = replicate 11 (5, (60, none)) ++ (6, (0, some dial_failed)) ∷ []

delay_history-tests_example :
    delay_history (record_tests twelve new_proxy) ≡ last_ten (map to_record twelve)
delay_history-tests_example = delay_history-tests twelve

record_test_state_example :
    ((record_test 5 (60, none) new_proxy).alive ≡ is_ok none)
    × (last_delay (record_test 5 (60, none) new_proxy) ≡ 60)
unfolding new_proxy
record_test_state_example = record_test_state 5 60 none new_proxy (omega arith)

abbrev test_site : Url
test_site = record { scheme = codes "https"; hostname = codes "cloudflare.com"; port = [] }

abbrev refused : Response
refused = record { status = 403; body = []; read_error = false }

-- A proxy behind which every request is refused.
abbrev refusing : Exchange
refusing = record {
  Conn = Unit;
  parse_url = λ s. some test_site;
  dial = λ addr. some tt;
  new_request = λ url. true;
  exchange = λ conn k. some refused;
  elapsed = 70;
  elapsed_second = 20;
}

abbrev site_address : Metadata
site_address = record { host = codes "cloudflare.com"; dst_ip = none; dst_port = codes "443" }

refusing-Answered : Answered refusing false (codes "x") refused
unfolding url_to_metadata
refusing-Answered = record {
  addr = site_address;
  conn = tt;
  located = refl;
  connected = refl;
  requested = refl;
  answered = refl;
  complete = refl;
}

url_test-rejected_example :
    ((url_test refusing false 5 (codes "x") new_proxy).1 ≡ (0, none))
    × ((url_test refusing false 5 (codes "x") new_proxy).0.alive ≡ true)
    × (last_delay (url_test refusing false 5 (codes "x") new_proxy).0 ≡ max_delay)
unfolding new_proxy
url_test-rejected_example =
    url_test-rejected refusing false 5 (codes "x") new_proxy refused (omega arith) refusing-Answered
      (inl refl)
