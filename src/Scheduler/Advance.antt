-- ===== src/Scheduler/Advance.antt =====
-- Where a schedule stands after it has been dispatched.
use transport_lookout.Prelude.{
  ℕ, zero, suc, ◌+◌, ◌*◌, ◌≤◌, ◌<◌, ◌≡◌, some, arith, leb, Bool-cases, inl, inr,
}
use native.Mathlib.Numerals.{add-one}
use transport_lookout.Model.{ScanSchedule}
use transport_lookout.Scheduler.{skip_missed, next_instant}

-- The loop ends, at an instant after `now` and no further than a step from it.
skip_missed_total :
    (fuel step now next_run : ℕ)
    → 1 ≤ step
    → now < next_run + fuel
    → next_run ≤ now + step
    → (k : ℕ) × (skip_missed (suc fuel) step now next_run ≡ some (next_run + k * step))
      × (now < next_run + k * step)
      × (next_run + k * step ≤ now + step)
unfolding skip_missed
skip_missed_total zero step now next_run h l b = (0, ground arith, ground arith, omega arith)
skip_missed_total (suc fuel) step now next_run h l b = elim (Bool-cases (leb next_run now)) [
  | inl e ↦
      let (k, r, lo, hi) =
        skip_missed_total fuel step now (next_run + step) h (omega arith) (ground arith) in
      let q : next_run + step + k * step ≡ next_run + (k + 1) * step = grind arith in
      rw e (k + 1, rw q at r, rw q at lo, rw q at hi)
  | inr e ↦ rw e (0, ground arith, ground arith, omega arith)
]

-- A due schedule with an interval of at least a minute: the loop ends, at an instant that is whole
-- intervals, at least one, after the instant that was due, later than `now`, and no further than one
-- interval from it.
pub next_instant_lem :
    (schedule : ScanSchedule) (now : ℕ)
    → 1 ≤ schedule.interval_minutes
    → schedule.next_run_at ≤ now
    → (k : ℕ) × (t : ℕ) × (next_instant schedule now ≡ some t)
      × (t ≡ schedule.next_run_at + (k + 1) * (schedule.interval_minutes * 60))
      × (now < t)
      × (t ≤ now + schedule.interval_minutes * 60)
unfolding next_instant
next_instant_lem schedule now h due =
    let step = schedule.interval_minutes * 60 in
    let (k, r, lo, hi) =
      skip_missed_total now step now (schedule.next_run_at + step) (omega arith) (omega arith)
        (omega arith) in
    (k, schedule.next_run_at + step + k * step, rw add-one r, grind arith, lo, hi)
