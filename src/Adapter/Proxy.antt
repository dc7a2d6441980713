-- ===== src/Adapter/Proxy.antt =====
-- adapter/adapter.go: a proxy with its liveness and the history of its delays.
pub mod History
use go_warp_scanner.Common.Text.{Text, codes, contains_text}
use go_warp_scanner.Adapter.Queue
use go_warp_scanner.Adapter.Queue.{Queue}
use go_warp_scanner.Scanner.Url.{Url, Metadata, UrlError, UrlResult, url_to_metadata}
use go_warp_scanner.Scanner.Ping.{u16}
use go_warp_scanner.Common.{
  ℕ, ◌+◌, Bool, true, false, not, ◌&&◌, Option, none, some, List, [], ◌∷◌, ◌++◌, ltb, ◌==◌,
  if◌then◌else◌,
}

-- `C.DelayHistory`.
pub record DelayHistory : Type 0 where
  pub time : ℕ
  pub delay : ℕ  -- uint16

abbrev pub no_record : DelayHistory
no_record = record { time = 0; delay = 0 }

-- The fields of `Proxy` beside the adapter that it wraps.
pub record Proxy : Type 0 where
  pub history : Queue DelayHistory
  pub alive : Bool

unfoldable pub new_proxy : Proxy
new_proxy = record { history = Queue.new; alive = true }

-- The loop copies one record after another.
copy_records : List DelayHistory → List DelayHistory → List DelayHistory
copy_records histories [] = histories
copy_records histories (item ∷ items) = copy_records (histories ++ item ∷ []) items

unfoldable pub delay_history : Proxy → List DelayHistory
unfolding copy_records
delay_history p = copy_records [] (Queue.copy p.history)

abbrev pub max_delay : ℕ
max_delay = 0xffff

unfoldable pub last_delay : Proxy → ℕ
last_delay p =
    let delay = (Queue.last no_record p.history).delay in
    if not p.alive then max_delay else if delay == 0 then max_delay else delay

pub data TestError : Type 0 where
  bad_url : UrlError → TestError
  dial_failed request_failed exchange_failed read_failed : TestError

-- A response: the status, what was read of the body, and whether the read failed.
pub record Response : Type 0 where
  pub status : ℕ
  pub body : Text
  pub read_error : Bool

-- What a delay test asks of the libraries and of the clock. `exchange conn k` is the `k`-th request
-- over one connection; `elapsed` is the time since the first start, `elapsed_second` since the second,
-- both when the test ends.
pub record Exchange : Type 1 where
  pub Conn : Type 0
  pub parse_url : Text → Option Url
  pub dial : Metadata → Option Conn
  pub new_request : Text → Bool
  pub exchange : Conn → ℕ → Option Response
  pub elapsed : ℕ
  pub elapsed_second : ℕ

-- The results `t` and `err` of a test, as they stand when it returns.
abbrev pub Outcome : Type 0
Outcome = ℕ × Option TestError

-- `err` after `io.ReadAll`, which the code does not look at.
abbrev read_result : Response → Option TestError
read_result resp = if resp.read_error then some read_failed else none

module _ (net : Exchange) (unified_delay : Bool) where
  open net use {Conn, parse_url, dial, new_request, exchange, elapsed, elapsed_second}

  -- The second request, which measures again over the open connection.
  second_exchange : Conn → Outcome
  second_exchange conn = elim (exchange conn 1) [
    | none ↦ (u16 elapsed, some exchange_failed)
    | some resp ↦ if resp.status == 403 then (0, none) else (u16 elapsed_second, none)
  ]

  after_response : Conn → Response → Outcome
  unfolding second_exchange
  after_response conn resp =
      if resp.status == 403
      then (0, read_result resp)
      else if not (contains_text resp.body (codes "warp=on"))
          && not (contains_text resp.body (codes "warp=plus"))
      then (0, read_result resp)
      else if unified_delay
      then second_exchange conn
      else (u16 elapsed, read_result resp)

  first_exchange : Text → Conn → Outcome
  unfolding after_response
  first_exchange url conn =
      if new_request url
      then elim (exchange conn 0) [
        | none ↦ (0, some exchange_failed)
        | some resp ↦ after_response conn resp
      ]
      else (0, some request_failed)

  dial_for_test : Text → UrlResult → Outcome
  unfolding first_exchange
  dial_for_test url (UrlResult.err e) = (0, some (bad_url e))
  dial_for_test url (UrlResult.ok addr) = elim (dial addr) [
    | none ↦ (0, some dial_failed)
    | some conn ↦ first_exchange url conn
  ]

  -- The body of `URLTest`, before the deferred record.
  unfoldable pub run_test : Text → Outcome
  unfolding dial_for_test
  run_test url = dial_for_test url (url_to_metadata parse_url url)

abbrev pub is_ok : Option TestError → Bool
is_ok none = true
is_ok (some e) = false

-- The deferred function: liveness, the new record, and at most ten records.
unfoldable pub record_test : ℕ → Outcome → Proxy → Proxy
record_test now (t, err) p =
    let item : DelayHistory = record { time = now; delay = if is_ok err then t else 0 } in
    let history = Queue.put (item ∷ []) p.history in
    let shorter = (Queue.pop no_record history).0 in
    record { alive = is_ok err; history = if ltb 10 (Queue.len history) then shorter else history }

unfoldable pub url_test : Exchange → Bool → ℕ → Text → Proxy → Proxy × Outcome
unfolding record_test run_test
url_test net unified_delay now url p =
    let outcome = run_test net unified_delay url in (record_test now outcome p, outcome)
