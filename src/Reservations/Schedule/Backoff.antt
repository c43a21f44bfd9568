-- ===== src/Reservations/Schedule/Backoff.antt =====
-- `boundedBackoff` against its closed form.
use native.Mathlib.Nat.{pow-suc, one-le-pow}
use stream_analysis_tools.Base.{
  ℕ, zero, suc, ◌-◌, ◌*◌, ◌/◌, ◌^◌, ◌≤◌, min, ◌≡◌, inl, inr, arith, leb, ltb, Bool-cases,
  if◌then◌else◌,
}
use stream_analysis_tools.Reservations.Schedule.{backoff_loop, bounded_backoff}

scale_le : (a b p : ℕ) → 1 ≤ p → a ≤ b → a ≤ b * p
scale_le a b p h k = grind arith

double_pow : (delay rounds : ℕ) → delay * 2 ^ suc rounds ≡ delay * 2 * 2 ^ rounds
double_pow delay rounds = rw (pow-suc 2 rounds) (omega arith)

-- The loop doubles until half the maximum is reached.
loop-min :
    (rounds delay half : ℕ)
    → delay ≤ half * 2
    → backoff_loop rounds delay (half * 2) ≡ min (delay * 2 ^ rounds) (half * 2)
unfolding backoff_loop
loop-min zero delay half h = omega arith
loop-min (suc rounds) delay half h = elim (Bool-cases (leb (half * 2 / 2) delay)) [
  | inl top ↦
      rw (top, double_pow delay rounds)
        (ground
          (arith, scale_le (half * 2) (delay * 2) (2 ^ rounds) (one-le-pow rounds 2 (omega arith))))
  | inr low ↦ rw (low, double_pow delay rounds) (loop-min rounds (delay * 2) half (ground arith))
]

-- The delay of the n-th attempt is the initial delay doubled n - 1 times (attempt 0 counts as
-- attempt 1), cut at the maximum, for every even maximum that the initial delay does not exceed.
pub bounded_backoff-min :
    (attempt initial half : ℕ)
    → initial ≤ half * 2
    → bounded_backoff attempt initial (half * 2)
      ≡ min (initial * 2 ^ ((if ltb attempt 1 then 1 else attempt) - 1)) (half * 2)
unfolding bounded_backoff
bounded_backoff-min attempt initial half h = loop-min _ initial half h

loop_le : (rounds delay maximum : ℕ) → delay ≤ maximum → backoff_loop rounds delay maximum ≤ maximum
unfolding backoff_loop
loop_le zero delay maximum h = h
loop_le (suc rounds) delay maximum h = ground (arith, loop_le rounds (delay * 2) maximum)

loop_ge : (rounds delay maximum : ℕ) → delay ≤ maximum → delay ≤ backoff_loop rounds delay maximum
unfolding backoff_loop
loop_ge zero delay maximum h = omega arith
loop_ge (suc rounds) delay maximum h = ground (arith, loop_ge rounds (delay * 2) maximum)

pub bounded_backoff_bounds :
    (attempt initial maximum : ℕ)
    → initial ≤ maximum
    → (initial ≤ bounded_backoff attempt initial maximum)
      × (bounded_backoff attempt initial maximum ≤ maximum)
unfolding bounded_backoff
bounded_backoff_bounds attempt initial maximum h =
    (loop_ge _ initial maximum h, loop_le _ initial maximum h)
