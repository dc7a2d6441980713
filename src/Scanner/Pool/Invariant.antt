-- ===== src/Scanner/Pool/Invariant.antt =====
-- What holds in every state that a run of the workers reaches.
use go_warp_scanner.Common.Text.{Text, text_eq}
use go_warp_scanner.Scanner.Average.{select_ping}
use go_warp_scanner.Scanner.Pool.{
  Phase, sending, receiving, returned, WorkerState, idle, busy, Pool, Step, send, sent, accept,
  finish, receive, close, start, Run, here, next,
}
use go_warp_scanner.Common.{
  ℕ, zero, suc, ◌+◌, ◌≤◌, ◌≡◌, refl, ◌∙◌, Bool, some, List, [], ◌∷◌, ◌++◌, arith, if◌then◌else◌,
  length, get_elem?, set, replicate, length-append, length-set, length-replicate,
}

abbrev pub one_if : Bool → ℕ
one_if b = if b then 1 else 0

-- How often an address stands in a list of addresses, in the hands of a worker, and in the results.
unfoldable pub occ : Text → List Text → ℕ
occ x [] = 0
occ x (y ∷ ys) = one_if (text_eq x y) + occ x ys

abbrev pub held : Text → WorkerState → ℕ
held x idle = 0
held x (busy y) = one_if (text_eq x y)

unfoldable pub occ_busy : Text → List WorkerState → ℕ
occ_busy x [] = 0
occ_busy x (w ∷ ws) = held x w + occ_busy x ws

unfoldable pub occ_done : Text → List (Text × ℕ) → ℕ
occ_done x [] = 0
occ_done x ((y, r) ∷ ds) = one_if (text_eq x y) + occ_done x ds

abbrev pub is_busy : WorkerState → ℕ
is_busy idle = 0
is_busy (busy y) = 1

unfoldable pub busy_count : List WorkerState → ℕ
busy_count [] = 0
busy_count (w ∷ ws) = is_busy w + busy_count ws

-- The addresses that `main` has not sent, and the results that it has not received.
abbrev pub unsent : Phase → List Text
unsent (sending l) = l
unsent _ = []

abbrev pub awaited : ℕ → Phase → ℕ
awaited cap (sending l) = cap
awaited cap (receiving k) = k
awaited cap returned = 0

pub record Inv (cap : ℕ) (jobs : List Text) (s : Pool) : Type 0 where
  pub every :
      (x : Text)
      → occ x (unsent s.phase) + occ x s.input + occ_busy x s.workers + occ_done x s.done
        ≡ occ x jobs
  pub total : length (unsent s.phase) + length s.input + busy_count s.workers + length s.done ≡ cap
  pub counted : length s.results + cap ≡ length s.done + awaited cap s.phase
  pub bounded : awaited cap s.phase ≤ cap

occ-append : (x : Text) (ys zs : List Text) → occ x (ys ++ zs) ≡ occ x ys + occ x zs
unfolding occ
occ-append x [] zs = omega arith
occ-append x (y ∷ ys) zs = omega (arith, occ-append x ys zs)

occ_done-append :
    (x : Text) (ys zs : List (Text × ℕ)) → occ_done x (ys ++ zs) ≡ occ_done x ys + occ_done x zs
unfolding occ_done
occ_done-append x [] zs = omega arith
occ_done-append x ((y, r) ∷ ys) zs = omega (arith, occ_done-append x ys zs)

occ_busy-set :
    (x : Text) (ws : List WorkerState) (i : ℕ) (v w : WorkerState)
    → get_elem? ws i ≡ some v
    → occ_busy x (set ws i w) + held x v ≡ occ_busy x ws + held x w
unfolding occ_busy
occ_busy-set x [] i v w e = absurd (cc)
occ_busy-set x (u ∷ ws) zero v w e = ground arith
occ_busy-set x (u ∷ ws) (suc i) v w e = omega (arith, occ_busy-set x ws i v w e)

pub busy_count-set :
    (ws : List WorkerState) (i : ℕ) (v w : WorkerState)
    → get_elem? ws i ≡ some v
    → busy_count (set ws i w) + is_busy v ≡ busy_count ws + is_busy w
unfolding busy_count
busy_count-set [] i v w e = absurd (cc)
busy_count-set (u ∷ ws) zero v w e = ground arith
busy_count-set (u ∷ ws) (suc i) v w e = omega (arith, busy_count-set ws i v w e)

occ_busy-replicate : (x : Text) (n : ℕ) → occ_busy x (replicate n idle) ≡ 0
unfolding occ_busy
occ_busy-replicate x zero = refl
occ_busy-replicate x (suc n) = omega (arith, occ_busy-replicate x n)

pub busy_count-replicate : (n : ℕ) → busy_count (replicate n idle) ≡ 0
unfolding busy_count
busy_count-replicate zero = refl
busy_count-replicate (suc n) = omega (arith, busy_count-replicate n)

start-Inv : (n : ℕ) (jobs : List Text) → Inv (length jobs) jobs (start n jobs)
unfolding occ occ_done
start-Inv n jobs = record {
  every = λ x. omega (arith, occ_busy-replicate x n);
  total = omega (arith, busy_count-replicate n);
  counted = omega arith;
  bounded = omega arith;
}

pub Step-Inv :
    {cap : ℕ} {jobs : List Text} {s t : Pool} → Step cap s t → Inv cap jobs s → Inv cap jobs t
unfolding occ occ_done
Step-Inv {s} {t} (send ip rest p l e) inv = rw e (record {
  every = λ x. ground (arith, inv.every x, occ-append x s.input (ip ∷ []));
  total = ground (arith, length-append {0} s.input (ip ∷ []));
  counted = ground arith;
  bounded = ground arith;
})
Step-Inv (sent p e) inv = rw e (record {
  every = λ x. ground (arith, inv.every x);
  total = ground arith;
  counted = ground arith;
  bounded = ground arith;
})
Step-Inv {s} (accept i ip rest p w e) inv = rw e (record {
  every = λ x. ground (arith, inv.every x, occ_busy-set x s.workers i idle (busy ip) w);
  total = ground (arith, busy_count-set s.workers i idle (busy ip) w);
  counted = ground arith;
  bounded = ground arith;
})
Step-Inv {s} (finish i ip outcome w l e) inv = rw e (record {
  every = λ x. ground (
    arith,
    inv.every x,
    occ_busy-set x s.workers i (busy ip) idle w,
    occ_done-append x s.done ((ip, select_ping outcome) ∷ []),
  );
  total = ground (
    arith,
    busy_count-set s.workers i (busy ip) idle w,
    length-append {0} s.done ((ip, select_ping outcome) ∷ []),
  );
  counted = ground (
    arith,
    length-append {0} s.done ((ip, select_ping outcome) ∷ []),
    length-append {0} s.results (select_ping outcome ∷ []),
  );
  bounded = ground arith;
})
Step-Inv (receive k r rest p q e) inv = rw e (record {
  every = λ x. ground (arith, inv.every x);
  total = ground arith;
  counted = ground arith;
  bounded = ground arith;
})
Step-Inv (close p e) inv = rw e (record {
  every = λ x. ground (arith, inv.every x);
  total = ground arith;
  counted = ground arith;
  bounded = ground arith;
})

pub Run-Inv :
    (concurrency : ℕ) (jobs : List Text) {n : ℕ} {s : Pool}
    → Run (length jobs) (start concurrency jobs) n s
    → Inv (length jobs) jobs s
Run-Inv concurrency jobs here = start-Inv concurrency jobs
Run-Inv concurrency jobs (next r st) = Step-Inv st (Run-Inv concurrency jobs r)

length-workers : {cap : ℕ} {s t : Pool} → Step cap s t → length t.workers ≡ length s.workers
length-workers (send ip rest p l e) = rw e
length-workers (sent p e) = rw e
length-workers {s = s} (accept i ip rest p w e) = rw e (length-set s.workers i (busy ip))
length-workers {s = s} (finish i ip outcome w l e) = rw e (length-set s.workers i idle)
length-workers (receive k r rest p q e) = rw e
length-workers (close p e) = rw e

pub length-workers-Run :
    (concurrency : ℕ) (jobs : List Text) {n : ℕ} {s : Pool}
    → Run (length jobs) (start concurrency jobs) n s
    → length s.workers ≡ concurrency
length-workers-Run concurrency jobs here = length-replicate concurrency idle
length-workers-Run concurrency jobs (next r st) =
    length-workers st ∙ length-workers-Run concurrency jobs r
