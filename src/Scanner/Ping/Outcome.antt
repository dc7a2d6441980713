-- ===== src/Scanner/Ping/Outcome.antt =====
-- When a probe counts as successful, and that it closes what it opens.
use go_warp_scanner.Common.Text.{
  Text, codes, contains_text, contains_text→append, contains_text-append,
}
use go_warp_scanner.Scanner.Url.{Metadata, UrlResult, url_to_metadata}
use go_warp_scanner.Scanner.Ping.{
  Response, Event, Network, context_started, context_cancelled, dialled, body_opened, closed,
  body_closed, idle_closed, test_url, u16, read_response, send_request, dial_and_send, probe,
  ping_wg,
}
use go_warp_scanner.Common.{
  ℕ, ◌<◌, ◌≡◌, refl, ◌≢◌, ◌⊎◌, inl, inr, Bool, true, false, ◌&&◌, some, List, [], ◌∷◌, ◌++◌, arith,
  Bool-cases, Option-cases,
}

-- `s` has `w` in it, with some text before and behind.
abbrev pub Has : Text → Text → Type 0
Has s w = (p : Text) × (t : Text) × (s ≡ p ++ (w ++ t))

-- A response through the tunnel that was not refused.
abbrev pub IsThrough : Response → Type 0
IsThrough resp =
    (resp.status ≢ 403) × (Has resp.body (codes "warp=on") ⊎ Has resp.body (codes "warp=plus"))

module _ (net : Network) where
  open net use {Proxy, Conn, parse_proxy, parse_url, dial, new_request, do_request, elapsed}

  -- Every stage of the probe succeeds, and the response came through the tunnel.
  pub record Succeeds (ip : Text) (port : ℕ) : Type 0 where
    pub proxy : Proxy
    pub addr : Metadata
    pub conn : Conn
    pub resp : Response
    pub parsed : parse_proxy ip port ≡ some proxy
    pub located : url_to_metadata parse_url test_url ≡ UrlResult.ok addr
    pub connected : dial proxy addr ≡ some conn
    pub requested : new_request test_url ≡ true
    pub answered : do_request conn ≡ some resp
    pub through : IsThrough resp

  has→test : (s w : Text) → Has s w → contains_text s w ≡ true
  has→test s w (p, t, e) = rw e (contains_text-append p w t)

  read_response-through :
      (resp : Response) → IsThrough resp → (read_response net resp).0 ≡ u16 elapsed
  unfolding read_response
  read_response-through resp (ok, inl on) = ground (arith, has→test resp.body (codes "warp=on") on)
  read_response-through resp (ok, inr plus) =
      ground (arith, has→test resp.body (codes "warp=plus") plus)

  read_response-pos : (resp : Response) → 0 < (read_response net resp).0 → IsThrough resp
  unfolding read_response
  read_response-pos resp h = (ground arith, found)
    where
      found : Has resp.body (codes "warp=on") ⊎ Has resp.body (codes "warp=plus")
      found = elim (Bool-cases (contains_text resp.body (codes "warp=on"))) [
        | inl on ↦ inl (contains_text→append resp.body (codes "warp=on") on)
        | inr off ↦ inr (contains_text→append resp.body (codes "warp=plus") (ground arith))
      ]

  send_request-pos :
      (conn : Conn)
      → 0 < (send_request net conn).0
      → (new_request test_url ≡ true)
        × ((resp : Response) × (do_request conn ≡ some resp) × IsThrough resp)
  unfolding send_request
  send_request-pos conn h = elim (Option-cases (do_request conn)) [
    | inl e ↦ absurd (ground arith)
    | inr (resp, e) ↦ (ground arith, (resp, e, read_response-pos resp (ground arith)))
  ]

  dial_and_send-pos :
      (proxy : Proxy) (addr : Metadata)
      → 0 < (dial_and_send net proxy addr).0
      → (conn : Conn) × (dial proxy addr ≡ some conn) × (0 < (send_request net conn).0)
  unfolding dial_and_send
  dial_and_send-pos proxy addr h = elim (Option-cases (dial proxy addr)) [
    | inl e ↦ absurd (ground arith)
    | inr (conn, e) ↦ (conn, e, ground arith)
  ]

  probe-pos :
      (proxy : Proxy) (u : UrlResult)
      → 0 < (probe net proxy u).0
      → (addr : Metadata) × (u ≡ UrlResult.ok addr) × (0 < (dial_and_send net proxy addr).0)
  unfolding probe
  probe-pos proxy (UrlResult.err e) h = absurd (omega arith)
  probe-pos proxy (UrlResult.ok addr) h = (addr, refl, h)

  ping_wg-pos : (ip : Text) (port : ℕ) → 0 < (ping_wg net ip port).0 → Succeeds ip port
  unfolding ping_wg
  ping_wg-pos ip port h = elim (Option-cases (parse_proxy ip port)) [
    | inl e ↦ absurd (ground arith)
    | inr (proxy, e) ↦
        let p : 0 < (probe net proxy (url_to_metadata parse_url test_url)).0 = ground arith in
        let (addr, located, d) = probe-pos proxy (url_to_metadata parse_url test_url) p in
        let (conn, connected, s) = dial_and_send-pos proxy addr d in
        let (requested, (resp, answered, through)) = send_request-pos conn s in
        record {
          proxy = proxy;
          addr = addr;
          conn = conn;
          resp = resp;
          parsed = e;
          located = located;
          connected = connected;
          requested = requested;
          answered = answered;
          through = through;
        }
  ]

  Succeeds-elapsed :
      (ip : Text) (port : ℕ) → Succeeds ip port → (ping_wg net ip port).0 ≡ u16 elapsed
  unfolding ping_wg probe dial_and_send send_request
  Succeeds-elapsed ip port s =
      rw (s.parsed, ping_wg)
        (rw (s.located, probe)
          (rw (s.connected, dial_and_send)
            (rw (s.requested, send_request)
              (rw (s.answered, send_request) (read_response-through s.resp s.through)))))

  -- A probe in which every stage succeeds, with a response that was not refused and that says
  -- `warp=on` or `warp=plus`, gives the elapsed milliseconds modulo 2^16; and a probe that gives a
  -- number other than 0 is one of these.
  pub ping_wg_outcome :
      (ip : Text) (port : ℕ)
      → (Succeeds ip port → (ping_wg net ip port).0 ≡ u16 elapsed)
        × (0 < (ping_wg net ip port).0 → Succeeds ip port)
  ping_wg_outcome ip port = (Succeeds-elapsed ip port, ping_wg-pos ip port)

-- What is open: the context, the connection and the body of the response.
pub record Open : Type 0 where
  pub context : Bool
  pub conn : Bool
  pub body : Bool

-- To close what is closed already does nothing; the idle connection is closed with its body read.
after_event : Event → Open → Open
after_event context_started o = record o { context = true }
after_event context_cancelled o = record o { context = false }
after_event dialled o = record o { conn = true }
after_event body_opened o = record o { body = true }
after_event body_closed o = record o { body = false }
after_event idle_closed o = record o { conn = o.body && o.conn }
after_event closed o = record o { conn = false }

after_events : List Event → Open → Open
after_events [] o = o
after_events (e ∷ es) o = after_events es (after_event e o)

abbrev nothing_open : Open
nothing_open = record { context = false; conn = false; body = false }

-- On every path the probe closes what it has opened.
ping_wg_closes :
    (net : Network) (ip : Text) (port : ℕ)
    → after_events ((ping_wg net ip port).1) nothing_open ≡ nothing_open
unfolding ping_wg after_events after_event
ping_wg_closes net ip port = ground arith
