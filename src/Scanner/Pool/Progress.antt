-- ===== src/Scanner/Pool/Progress.antt =====
-- The scan never blocks for good, ends, and has then handled every address once.
use go_warp_scanner.Common.Text.{Text}
use go_warp_scanner.Scanner.Average.{select_ping}
use go_warp_scanner.Scanner.Pool.{
  Phase, sending, receiving, returned, WorkerState, idle, busy, Pool, Step, send, sent, accept,
  finish, receive, close, start, Run, here, next,
}
use go_warp_scanner.Scanner.Pool.Invariant.{
  occ, occ_busy, occ_done, busy_count, busy_count-set, busy_count-replicate, Inv, Run-Inv,
  length-workers-Run,
}
use go_warp_scanner.Common.{
  ℕ, zero, suc, ◌+◌, ◌*◌, ◌≤◌, ◌<◌, ◌≡◌, refl, ◌≢◌, ◌⊎◌, inl, inr, none, some, List, [], ◌∷◌, arith,
  length, get_elem?, length-append,
}

-- A list of workers has a busy one, or none is busy.
busy-cases :
    (ws : List WorkerState)
    → ((i : ℕ) × (ip : Text) × (get_elem? ws i ≡ some (busy ip))) ⊎ (busy_count ws ≡ 0)
unfolding busy_count
busy-cases [] = inr refl
busy-cases (busy ip ∷ ws) = inl (0, ip, refl)
busy-cases (idle ∷ ws) = elim (busy-cases ws) [
  | inl (i, ip, e) ↦ inl (suc i, ip, e)
  | inr z ↦ inr (omega (arith, z))
]

-- Where no worker is busy the first one is idle.
first_idle :
    (ws : List WorkerState) → 0 < length ws → busy_count ws ≡ 0 → get_elem? ws 0 ≡ some idle
unfolding busy_count
first_idle [] l z = absurd (omega arith)
first_idle (busy ip ∷ ws) l z = absurd (omega arith)
first_idle (idle ∷ ws) l z = refl

module _ {cap : ℕ} {jobs : List Text} {s : Pool} (inv : Inv cap jobs s)
    (staffed : 0 < length s.workers) where
  progress_receiving :
      (k : ℕ)
      → s.phase ≡ receiving (suc k)
      → (results : List ℕ) → s.results ≡ results
      → (input : List Text) → s.input ≡ input
      → (t : Pool) × Step cap s t
  progress_receiving k p (r ∷ rest) e input f = (_, receive k r rest p e refl)
  progress_receiving k p [] e input f = elim (busy-cases s.workers) [
    | inl (i, ip, w) ↦ (_, finish i ip none w (ground arith) refl)
    | inr z ↦ start_one input f z
  ]
    where
      start_one :
          (input : List Text)
          → s.input ≡ input
          → busy_count s.workers ≡ 0
          → (t : Pool) × Step cap s t
      start_one [] f z = absurd (ground arith)
      start_one (ip ∷ rest) f z = (_, accept 0 ip rest f (first_idle s.workers staffed z) refl)

  progress : (phase : Phase) → s.phase ≡ phase → phase ≢ returned → (t : Pool) × Step cap s t
  progress (sending []) p ne = (_, sent p refl)
  progress (sending (ip ∷ rest)) p ne = (_, send ip rest p (ground arith) refl)
  progress (receiving zero) p ne = (_, close p refl)
  progress (receiving (suc k)) p ne = progress_receiving k p s.results refl s.input refl
  progress returned p ne = absurd (ne refl)

-- No deadlock: with one worker or more, in every state that a run reaches, if `main` has not
-- returned then some step is possible.
pub pool_progress :
    (concurrency : ℕ) (jobs : List Text) {n : ℕ} {s : Pool}
    → 0 < concurrency
    → Run (length jobs) (start concurrency jobs) n s
    → s.phase ≢ returned
    → (t : Pool) × Step (length jobs) s t
pool_progress concurrency jobs {s = s} h r ne =
    progress (Run-Inv concurrency jobs r) (omega (arith, length-workers-Run concurrency jobs r))
      s.phase refl ne

-- What is left to do, in steps.
abbrev phase_work : Phase → ℕ
phase_work (sending l) = 4 * length l + 2
phase_work (receiving k) = 1
phase_work returned = 0

abbrev work : Pool → ℕ
work s = phase_work s.phase + 3 * length s.input + 2 * busy_count s.workers + length s.results

Step-work : {cap : ℕ} {s t : Pool} → Step cap s t → work t < work s
Step-work {s = s} (send ip rest p l e) = rw e (ground (arith, length-append {0} s.input (ip ∷ [])))
Step-work (sent p e) = rw e (ground arith)
Step-work {s = s} (accept i ip rest p w e) =
    rw e (ground (arith, busy_count-set s.workers i idle (busy ip) w))
Step-work {s = s} (finish i ip outcome w l e) = rw e (
    ground (
      arith,
      busy_count-set s.workers i (busy ip) idle w,
      length-append {0} s.results (select_ping outcome ∷ []),
    ))
Step-work (receive k r rest p q e) = rw e (ground arith)
Step-work (close p e) = rw e (ground arith)

Run-work : {cap : ℕ} {s : Pool} {n : ℕ} {t : Pool} → Run cap s n t → work t + n ≤ work s
Run-work here = omega arith
Run-work (next r st) = omega (arith, Run-work r, Step-work st)

-- Every run ends: from the start it has at most four steps for each address, and two more.
pub pool-Run_bounded :
    (concurrency : ℕ) (jobs : List Text) {n : ℕ} {s : Pool}
    → Run (length jobs) (start concurrency jobs) n s
    → n ≤ 4 * length jobs + 2
pool-Run_bounded concurrency jobs r = omega (arith, Run-work r, busy_count-replicate concurrency)

length-nil : (l : List Text) → length l ≡ 0 → l ≡ []
length-nil [] e = refl
length-nil (x ∷ l) e = absurd (omega arith)

length-nil_ℕ : (l : List ℕ) → length l ≡ 0 → l ≡ []
length-nil_ℕ [] e = refl
length-nil_ℕ (x ∷ l) e = absurd (omega arith)

occ_busy-zero : (x : Text) (ws : List WorkerState) → busy_count ws ≡ 0 → occ_busy x ws ≡ 0
unfolding busy_count occ_busy
occ_busy-zero x [] e = refl
occ_busy-zero x (idle ∷ ws) e = omega (arith, occ_busy-zero x ws (omega arith))
occ_busy-zero x (busy y ∷ ws) e = absurd (omega arith)

-- When `main` returns no address is waiting, no worker is busy, no result is left unread, and a
-- result was sent for every address as often as the address stands in the list.
pub pool_return :
    (concurrency : ℕ) (jobs : List Text) {n : ℕ} {s : Pool}
    → Run (length jobs) (start concurrency jobs) n s
    → s.phase ≡ returned
    → (s.input ≡ [])
      × (busy_count s.workers ≡ 0)
      × (s.results ≡ [])
      × ((x : Text) → occ_done x s.done ≡ occ x jobs)
unfolding occ
pool_return concurrency jobs {s = s} r p =
    let inv = Run-Inv concurrency jobs r in
    let counted : length s.results + length jobs ≡ length s.done = ground (arith, inv.counted) in
    let total : length s.input + busy_count s.workers + length s.done ≡ length jobs =
      ground (arith, inv.total) in
    let none_waiting : s.input ≡ [] = length-nil s.input (omega (arith, counted, total)) in
    let none_busy : busy_count s.workers ≡ 0 = omega (arith, counted, total) in
    (
      none_waiting,
      none_busy,
      length-nil_ℕ s.results (omega (arith, counted, total)),
      λ x. ground (arith, inv.every x, occ_busy-zero x s.workers none_busy),
    )
