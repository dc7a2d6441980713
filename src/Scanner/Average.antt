-- ===== src/Scanner/Average.antt =====
-- wg-ping.go, the goroutine of a worker that pings one address `pingCount` times, and the second
-- timeout around it.
use go_warp_scanner.Common.Arith.{div_parts, div_zero}
use go_warp_scanner.Common.{
  ℕ, ◌+◌, ◌*◌, ◌/◌, ◌≤◌, ◌<◌, ◌≡◌, refl, ◌≢◌, ◌↔◌, Option, none, some, List, [], ◌∷◌, arith, ltb,
  if◌then◌else◌, length,
}

-- The loop of the goroutine over the results of the probes of one address. `ping_count` is the
-- divisor; the loop runs once for each result.
ping_loop : ℕ → ℕ → List ℕ → ℕ
ping_loop ping_count ping [] = ping
ping_loop ping_count ping (p ∷ ps) =
    ping_loop ping_count (if ltb 0 p then ping + p / ping_count else ping) ps

-- What the goroutine sends: one probe for each of the `ping_count` rounds.
unfoldable pub ping_address : List ℕ → ℕ
unfolding ping_loop
ping_address ps = ping_loop (length ps) 0 ps

-- The `select` of the worker: the goroutine's result if it comes first (`some`), else the timeout.
unfoldable pub select_ping : Option ℕ → ℕ
select_ping (some ping) = ping
select_ping none = 0

unfoldable pub sum : List ℕ → ℕ
sum [] = 0
sum (p ∷ ps) = p + sum ps

-- Every result is below `n`.
abbrev pub AllBelow : ℕ → List ℕ → Type 0
AllBelow n [] = Unit
AllBelow n (p ∷ ps) = (p < n) × AllBelow n ps

module _ (n : ℕ) (pos : 0 < n) where
  -- The test for 0 changes nothing.
  step-eq : (acc p : ℕ) → (if ltb 0 p then acc + p / n else acc) ≡ acc + p / n
  step-eq acc p = ground (arith, div_parts p n pos, div_zero p n pos)

  ping_loop_bounds :
      (acc : ℕ) (ps : List ℕ)
      → (acc * n + sum ps + length ps ≤ ping_loop n acc ps * n + length ps * n)
        × (ping_loop n acc ps * n ≤ acc * n + sum ps)
  unfolding ping_loop sum
  ping_loop_bounds acc [] = (omega arith, omega arith)
  ping_loop_bounds acc (p ∷ ps) =
      rw (step-eq acc p) (omega (arith, ping_loop_bounds (acc + p / n) ps, div_parts p n pos))

  ping_loop_zero : (acc : ℕ) (ps : List ℕ) → (ping_loop n acc ps ≡ 0) ↔ ((acc ≡ 0) × AllBelow n ps)
  unfolding ping_loop
  ping_loop_zero acc [] = (λ e. (e, tt), λ h. h.0)
  ping_loop_zero acc (p ∷ ps) =
      let ih = ping_loop_zero (acc + p / n) ps in
      rw (step-eq acc p) (
        λ e. let (z, r) = ih.0 e in (omega arith, ((div_zero p n pos).0 (omega arith), r)),
        λ h. ih.1 (omega (arith, (div_zero p n pos).1 h.1.0, h.0), h.1.1),
      )

-- The number sent for an address, times the number of probes, is at most the sum of their results,
-- and the rounding of the divisions loses less than the number of probes for each probe.
pub ping_address_bounds :
    (ps : List ℕ)
    → ps ≢ []
    → (ping_address ps * length ps ≤ sum ps)
      × (sum ps + length ps ≤ ping_address ps * length ps + length ps * length ps)
unfolding ping_address
ping_address_bounds [] ne = absurd (ne refl)
ping_address_bounds (p ∷ ps) ne =
    omega (arith, ping_loop_bounds (length (p ∷ ps)) (omega arith) 0 (p ∷ ps))

-- An address is reported as timed out exactly if every probe gave less milliseconds than there are
-- probes: a probe that failed and one that was faster than that are not told apart.
pub ping_address_zero : (ps : List ℕ) → ps ≢ [] → (ping_address ps ≡ 0) ↔ AllBelow (length ps) ps
unfolding ping_address
ping_address_zero [] ne = absurd (ne refl)
ping_address_zero (p ∷ ps) ne =
    let z = ping_loop_zero (length (p ∷ ps)) (omega arith) 0 (p ∷ ps) in
    (λ e. (z.0 e).1, λ h. z.1 (refl, h))
