-- ===== src/Scanner/Ping.antt =====
-- wg-ping.go, `pingWG`: one probe through a WireGuard proxy.
pub mod Outcome
use go_warp_scanner.Common.Text.{Text, codes, contains_text}
use go_warp_scanner.Scanner.Url.{Metadata, Url, UrlResult, url_to_metadata}
use go_warp_scanner.Common.{
  ℕ, ◌+◌, ◌-◌, ◌/◌, ◌%◌, ◌^◌, Bool, not, ◌&&◌, Option, none, some, List, [], ◌∷◌, ◌++◌, ◌==◌,
  if◌then◌else◌,
}

-- The `http.Response` that the probe reads: its status code, and what `io.ReadAll` gave of its body.
pub record Response : Type 0 where
  pub status : ℕ
  pub body : Text

-- The calls of a probe on what has to be closed, in order: the timeout context is made and cancelled,
-- the proxy is dialled, a response comes with its body, the body is closed, the client is told to
-- close its idle connections (the one that was dialled may be among them), the connection is closed.
pub data Event : Type 0 where
  context_started context_cancelled dialled body_opened body_closed idle_closed closed : Event

-- The libraries under the probe.
pub record Network : Type 1 where
  pub Proxy : Type 0
  pub Conn : Type 0
  pub parse_proxy : Text → ℕ → Option Proxy
  pub parse_url : Text → Option Url
  pub dial : Proxy → Metadata → Option Conn
  pub new_request : Text → Bool
  pub do_request : Conn → Option Response
  -- `time.Since(start) / time.Millisecond` when it is read
  pub elapsed : ℕ

-- The address that a probe fetches.
abbrev pub test_url : Text
test_url = codes "https://cloudflare.com/cdn-cgi/trace"

-- `uint16(x)`.
abbrev pub u16 : ℕ → ℕ
u16 n = n % 2 ^ 16

module _ (net : Network) where
  open net use {Proxy, Conn, parse_proxy, parse_url, dial, new_request, do_request, elapsed}

  -- After the response has arrived.
  unfoldable pub read_response : Response → ℕ × List Event
  read_response resp =
      if resp.status == 403
      then (0, body_opened ∷ body_closed ∷ [])
      else if not (contains_text resp.body (codes "warp=on"))
          && not (contains_text resp.body (codes "warp=plus"))
      then (0, body_opened ∷ body_closed ∷ [])
      else (u16 elapsed, body_opened ∷ body_closed ∷ [])

  -- The rest of a body behind a `defer`: what it returns, and then the deferred call.
  abbrev deferred : Event → ℕ × List Event → ℕ × List Event
  deferred event (ping, events) = (ping, events ++ event ∷ [])

  -- `defer client.CloseIdleConnections()` stands before the request is sent.
  send_request : Conn → ℕ × List Event
  unfolding read_response
  send_request conn =
      if new_request test_url
      then deferred idle_closed
          (elim (do_request conn) [ none ↦ (0, []) | some resp ↦ read_response resp ])
      else (0, [])

  dial_and_send : Proxy → Metadata → ℕ × List Event
  unfolding send_request
  dial_and_send proxy addr = elim (dial proxy addr) [
    | none ↦ (0, [])
    | some conn ↦
        let (ping, events) = deferred closed (send_request conn) in (ping, dialled ∷ events)
  ]

  probe : Proxy → UrlResult → ℕ × List Event
  unfolding dial_and_send
  probe proxy (UrlResult.err e) = (0, context_started ∷ context_cancelled ∷ [])
  probe proxy (UrlResult.ok addr) =
      let (ping, events) = deferred context_cancelled (dial_and_send proxy addr) in
      (ping, context_started ∷ events)

  -- The round-trip time in milliseconds, with 0 for every failure, and the calls of the probe.
  unfoldable pub ping_wg : Text → ℕ → ℕ × List Event
  unfolding probe
  ping_wg ip port = elim (parse_proxy ip port) [
    | none ↦ (0, [])
    | some proxy ↦ probe proxy (url_to_metadata parse_url test_url)
  ]
