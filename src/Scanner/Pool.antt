-- ===== src/Scanner/Pool.antt =====
-- wg-ping.go, `main`: the workers and the two channels, as interleaved steps.
pub mod Invariant
pub mod Progress
use go_warp_scanner.Common.Text.{Text}
use go_warp_scanner.Scanner.Average.{select_ping}
use go_warp_scanner.Common.{
  ℕ, zero, suc, ◌+◌, ◌<◌, ◌≡◌, Option, some, List, [], ◌∷◌, ◌++◌, length, get_elem?, set, replicate,
}

-- Where `main` stands: before the sends of the remaining addresses, with results still to receive,
-- or after `close(inputCh)`.
pub data Phase : Type 0 where
  sending : List Text → Phase
  receiving : ℕ → Phase
  returned : Phase

-- A worker waits on `inputCh`, or has an address and its `pingCh` and timer.
pub data WorkerState : Type 0 where
  idle : WorkerState
  busy : Text → WorkerState

pub record Pool : Type 0 where
  pub phase : Phase
  pub input : List Text  -- the buffer of `inputCh`
  pub workers : List WorkerState
  pub results : List ℕ  -- the buffer of `resultsCh`
  pub done : List (Text × ℕ)  -- which result was sent for which address

-- `cap` is `numJobs`, the capacity of both channels. A worker's step `finish` is its `select` and the
-- send on `resultsCh`; the outcome is the goroutine's result, or `none` if the timer was first.
pub data Step (cap : ℕ) (s t : Pool) : Type 0 where
  send :
      (ip : Text) (rest : List Text)
      → s.phase ≡ sending (ip ∷ rest)
      → length s.input < cap
      → t ≡ record s { phase = sending rest; input = s.input ++ ip ∷ [] }
      → Step cap s t
  sent : s.phase ≡ sending [] → t ≡ record s { phase = receiving cap } → Step cap s t
  accept :
      (i : ℕ) (ip : Text) (rest : List Text)
      → s.input ≡ ip ∷ rest
      → get_elem? s.workers i ≡ some idle
      → t ≡ record s { input = rest; workers = set s.workers i (busy ip) }
      → Step cap s t
  finish :
      (i : ℕ) (ip : Text) (outcome : Option ℕ)
      → get_elem? s.workers i ≡ some (busy ip)
      → length s.results < cap
      → t ≡ record s {
        workers = set s.workers i idle;
        results = s.results ++ select_ping outcome ∷ [];
        done = s.done ++ (ip, select_ping outcome) ∷ [];
      }
      → Step cap s t
  receive :
      (k r : ℕ) (rest : List ℕ)
      → s.phase ≡ receiving (suc k)
      → s.results ≡ r ∷ rest
      → t ≡ record s { phase = receiving k; results = rest }
      → Step cap s t
  close : s.phase ≡ receiving 0 → t ≡ record s { phase = returned } → Step cap s t

-- `main` after the start of the workers.
abbrev pub start : ℕ → List Text → Pool
start concurrency ip_list = record {
  phase = sending ip_list;
  input = [];
  workers = replicate concurrency idle;
  results = [];
  done = [];
}

-- A run of so many steps.
pub data Run (cap : ℕ) (s : Pool) : ℕ → Pool → Type 0 where
  here : Run cap s zero s
  next : {n : ℕ} {t u : Pool} → Run cap s n t → Step cap t u → Run cap s (suc n) u
