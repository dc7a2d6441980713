-- ===== src/Adapter/Proxy/History.antt =====
-- What a delay test leaves in a proxy: its liveness, its last delay and its ten last records.
use go_warp_scanner.Common.Text.{Text, codes, contains_text}
use go_warp_scanner.Adapter.Queue
use go_warp_scanner.Adapter.Queue.{Queue, last-eq, items-put, items-pop}
use go_warp_scanner.Scanner.Url.{UrlResult, Metadata, url_to_metadata}
use go_warp_scanner.Adapter.Proxy.{
  DelayHistory, no_record, Proxy, new_proxy, copy_records, delay_history, last_delay, max_delay,
  TestError, Response, Exchange, Outcome, run_test, is_ok, record_test, url_test, after_response,
  first_exchange, dial_for_test,
}
use go_warp_scanner.Common.{
  ℕ, zero, suc, ◌+◌, ◌-◌, ◌≤◌, ◌≡◌, refl, sym, ap, ◌∙◌, subst, ◌⊎◌, inl, inr, Bool, true, false,
  not, ◌&&◌, Option, none, some, List, [], ◌∷◌, ◌++◌, map, append-nil, append_assoc, arith, ltb,
  ◌==◌, if◌then◌else◌, tests, Bool-cases, length, drop, length-append, length-drop,
}

-- The record that a test leaves.
abbrev pub to_record : ℕ × Outcome → DelayHistory
to_record (now, (t, none)) = record { time = now; delay = t }
to_record (now, (t, some e)) = record { time = now; delay = 0 }

-- The tests of a proxy, one after another, each with the time at which it ended.
pub record_tests : List (ℕ × Outcome) → Proxy → Proxy
record_tests [] p = p
record_tests ((now, outcome) ∷ tests) p = record_tests tests (record_test now outcome p)

abbrev pub last_ten {ℓ} : {A : Type ℓ} → List A → List A
last_ten xs = drop (length xs - 10) xs

module _ {ℓ} {A : Type ℓ} where
  drop-drop : (b a : ℕ) (xs : List A) → drop a (drop b xs) ≡ drop (b + a) xs
  drop-drop zero a xs = let e : 0 + a ≡ a = omega arith in rw e
  drop-drop (suc b) zero [] = let e : suc b + 0 ≡ suc b = omega arith in rw e
  drop-drop (suc b) (suc a) [] = let e : suc b + suc a ≡ suc (b + suc a) = omega arith in rw e
  drop-drop (suc b) a (x ∷ xs) =
      let e : suc b + a ≡ suc (b + a) = omega arith in rw e (drop-drop b a xs)

  drop-append : (k : ℕ) (xs ys : List A) → k ≤ length xs → drop k (xs ++ ys) ≡ drop k xs ++ ys
  drop-append zero xs ys h = refl
  drop-append (suc k) [] ys h = absurd (omega arith)
  drop-append (suc k) (x ∷ xs) ys h = drop-append k xs ys (omega arith)

  -- Keeping the last ten early loses nothing of the last ten.
  last_ten-append : (xs ys : List A) → last_ten (last_ten xs ++ ys) ≡ last_ten (xs ++ ys)
  last_ten-append xs ys =
      let k = length xs - 10 in
      let joined : drop k (xs ++ ys) ≡ last_ten xs ++ ys = drop-append k xs ys (omega arith) in
      rw (← joined) (
        drop-drop k (length (drop k (xs ++ ys)) - 10) (xs ++ ys)
        ∙ ap (λ (n : ℕ). drop n (xs ++ ys))
            (omega (arith, length-drop k (xs ++ ys), length-append xs ys)))

-- One test keeps the last ten records, and the last of them is its own.
shorten :
    (q : Queue DelayHistory) (r : DelayHistory)
    → length q.items ≤ 10
    → (if ltb 10 (Queue.len (Queue.put (r ∷ []) q))
        then (Queue.pop no_record (Queue.put (r ∷ []) q)).0
        else Queue.put (r ∷ []) q).items
      ≡ last_ten (q.items ++ r ∷ [])
unfolding Queue.len
shorten q r h =
    let items = items-put (r ∷ []) q in
    let n : length (q.items ++ r ∷ []) ≡ length q.items + 1 = length-append q.items (r ∷ []) in
    elim (Bool-cases (ltb 10 (length (Queue.put (r ∷ []) q).items))) [
      | inl full ↦
          let one : length (q.items ++ r ∷ []) - 10 ≡ 1 = ground (arith, ap length items, n) in
          rw (full, one) (items-pop no_record (Queue.put (r ∷ []) q) ∙ ap (λ xs. drop 1 xs) items)
      | inr fits ↦
          let none_over : length (q.items ++ r ∷ []) - 10 ≡ 0 =
            ground (arith, ap length items, n) in
          rw (fits, none_over) items
    ]

items-record_test :
    (now : ℕ) (o : Outcome) (p : Proxy)
    → length p.history.items ≤ 10
    → (record_test now o p).history.items ≡ last_ten (p.history.items ++ to_record (now, o) ∷ [])
unfolding record_test
items-record_test now (t, none) p h = shorten p.history (record { time = now; delay = t }) h
items-record_test now (t, some e) p h = shorten p.history (record { time = now; delay = 0 }) h

length-last_ten {ℓ} : {A : Type ℓ} (xs : List A) → length (last_ten xs) ≤ 10
length-last_ten xs = omega (arith, length-drop (length xs - 10) xs)

-- The history of a proxy that has at most ten records holds, after any tests, the last ten of its
-- records and theirs, in order: a failed test is recorded with the delay 0.
pub items-record_tests :
    (tests : List (ℕ × Outcome)) (p : Proxy)
    → length p.history.items ≤ 10
    → (record_tests tests p).history.items ≡ last_ten (p.history.items ++ map to_record tests)
unfolding record_tests
items-record_tests [] p h =
    let short : length p.history.items - 10 ≡ 0 = omega arith in rw (append-nil, short)
items-record_tests ((now, o) ∷ tests) p h =
    let one = items-record_test now o p h in
    items-record_tests tests (record_test now o p) (
      subst (λ xs. length xs ≤ 10) (sym one)
        (length-last_ten (p.history.items ++ to_record (now, o) ∷ [])))
    ∙ ap (λ xs. last_ten (xs ++ map to_record tests)) one
    ∙ last_ten-append (p.history.items ++ to_record (now, o) ∷ []) (map to_record tests)
    ∙ ap last_ten (append_assoc p.history.items (to_record (now, o) ∷ []) (map to_record tests))

-- The last of ten is the last.
last_ten-snoc {ℓ} :
    {A : Type ℓ} (xs : List A) (x : A)
    → length xs ≤ 10
    → (ys : List A) × (last_ten (xs ++ x ∷ []) ≡ ys ++ x ∷ [])
last_ten-snoc xs x h =
    let k = length (xs ++ x ∷ []) - 10 in
    (drop k xs, drop-append k xs (x ∷ []) (omega (arith, length-append xs (x ∷ []))))

last-record_test :
    (now : ℕ) (o : Outcome) (p : Proxy)
    → length p.history.items ≤ 10
    → Queue.last no_record (record_test now o p).history ≡ to_record (now, o)
last-record_test now o p h =
    let (ys, e) = last_ten-snoc p.history.items (to_record (now, o)) h in
    last-eq no_record (record_test now o p).history ys (to_record (now, o))
      (items-record_test now o p h ∙ e)

alive-record_test :
    (now t : ℕ) (err : Option TestError) (p : Proxy)
    → (record_test now (t, err) p).alive ≡ is_ok err
unfolding record_test
alive-record_test now t err p = refl

-- A test that returns an error leaves the proxy dead, with the largest delay as its last; one that
-- returns none leaves it alive, with the measured delay as its last, or the largest delay where the
-- measure is 0. This is for a proxy with at most ten records.
pub record_test_state :
    (now t : ℕ) (err : Option TestError) (p : Proxy)
    → length p.history.items ≤ 10
    → ((record_test now (t, err) p).alive ≡ is_ok err)
      × (last_delay (record_test now (t, err) p)
          ≡ (if is_ok err && not (t == 0) then t else max_delay))
unfolding last_delay
record_test_state now t none p h =
    let a = alive-record_test now t none p in
    let l = last-record_test now (t, none) p h in (a, rw (a, l) (ground arith))
record_test_state now t (some e) p h = let a = alive-record_test now t (some e) p in (a, rw a)

-- What `DelayHistory` hands out is the history.
copy_records_lem :
    (histories items : List DelayHistory) → copy_records histories items ≡ histories ++ items
unfolding copy_records
copy_records_lem histories [] = rw append-nil
copy_records_lem histories (item ∷ items) =
    copy_records_lem (histories ++ item ∷ []) items ∙ append_assoc histories (item ∷ []) items

-- From a new proxy on, `DelayHistory` returns the last ten records of the tests made, in order.
pub delay_history-tests :
    (tests : List (ℕ × Outcome))
    → delay_history (record_tests tests new_proxy) ≡ last_ten (map to_record tests)
unfolding delay_history new_proxy Queue.copy
delay_history-tests tests =
    copy_records_lem [] (record_tests tests new_proxy).history.items
    ∙ items-record_tests tests new_proxy (omega arith)

-- A response that was refused, or whose body names no tunnel.
abbrev pub IsRejected : Response → Type 0
IsRejected resp =
    (resp.status ≡ 403)
    ⊎ ((contains_text resp.body (codes "warp=on") ≡ false)
        × (contains_text resp.body (codes "warp=plus") ≡ false))

module _ (net : Exchange) (unified_delay : Bool) where
  open net use {Conn, parse_url, dial, new_request, exchange}

  -- The first exchange of a test is made, and its body is read to the end.
  pub record Answered (url : Text) (resp : Response) : Type 0 where
    pub addr : Metadata
    pub conn : Conn
    pub located : url_to_metadata parse_url url ≡ UrlResult.ok addr
    pub connected : dial addr ≡ some conn
    pub requested : new_request url ≡ true
    pub answered : exchange conn 0 ≡ some resp
    pub complete : resp.read_error ≡ false

  run_test-Answered :
      (url : Text) (resp : Response) (a : Answered url resp)
      → run_test net unified_delay url ≡ after_response net unified_delay a.conn resp
  unfolding run_test dial_for_test first_exchange
  run_test-Answered url resp a =
      rw (a.located, dial_for_test)
        (rw (a.connected, dial_for_test)
          (rw (a.requested, first_exchange) (rw (a.answered, first_exchange))))

  after_response-rejected :
      (conn : Conn) (resp : Response)
      → resp.read_error ≡ false
      → IsRejected resp
      → after_response net unified_delay conn resp ≡ (0, none)
  unfolding after_response
  after_response-rejected conn resp e (inl refused) = ground arith
  after_response-rejected conn resp e (inr (off, no_plus)) = ground arith

  -- A test whose response was refused, or does not name the tunnel, returns the delay 0 and no error
  -- where the body was read without one: the proxy, if it has at most ten records, counts as alive
  -- after it, with the largest delay as its last.
  pub url_test-rejected :
      (now : ℕ) (url : Text) (p : Proxy) (resp : Response)
      → length p.history.items ≤ 10
      → Answered url resp
      → IsRejected resp
      → ((url_test net unified_delay now url p).1 ≡ (0, none))
        × ((url_test net unified_delay now url p).0.alive ≡ true)
        × (last_delay (url_test net unified_delay now url p).0 ≡ max_delay)
  unfolding url_test
  url_test-rejected now url p resp h a r =
      let outcome =
        run_test-Answered url resp a ∙ after_response-rejected a.conn resp a.complete r in
      let state = record_test_state now 0 none p h in rw outcome (refl, state.0, state.1)
