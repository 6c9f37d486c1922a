-- ===== src/Tools/FixVerifier/Monitor.antt =====
-- `_monitor_stability` of tools/fix_verifier.py. A check's result and the seconds that have passed
-- when the loop tests them are functions of the number of checks made. The interval between two
-- checks, at least a second, is slept through and shows in the seconds.
pub mod Bounds
use open_devops_agent.Prelude.{
  ℕ, zero, suc, ◌+◌, ◌-◌, ◌*◌, ◌/◌, Bool, true, false, not, Option, none, some, ltb, leb, ◌==◌,
  if◌then◌else◌, min, max,
}

pub data Unstable : Type 0 where
  no_duration multiple_failures no_observations low_success_rate : Unstable

pub record Monitoring : Type 0 where
  pub duration : ℕ
  pub stable : Bool
  pub checks_performed : ℕ
  pub failures : ℕ
  pub reason : Option Unstable

abbrev pub begun : ℕ → Monitoring
begun duration = record {
  duration = duration;
  stable = false;
  checks_performed = 0;
  failures = 0;
  reason = none;
}

-- Seconds between two checks.
unfoldable pub check_interval : ℕ → ℕ
check_interval duration = max 1 (min 30 (duration / 10))

module _ (passes : ℕ → Bool) (elapsed : ℕ → ℕ) where
  -- One more check, counted.
  abbrev pub checked : Monitoring → Monitoring
  checked m = record m {
    checks_performed = suc m.checks_performed;
    failures = if passes m.checks_performed then m.failures else suc m.failures;
  }

  abbrev pub stopped : Monitoring → Monitoring
  stopped m = record m { reason = some multiple_failures }

  -- The loop. It is given one round for each second, and Bounds shows that it needs no more.
  unfoldable pub monitor_from : ℕ → Monitoring → Monitoring
  monitor_from zero m = m
  monitor_from (suc rounds) m =
      let m' = checked m in
      let rest = monitor_from rounds m' in
      if ltb (elapsed m.checks_performed) m.duration
      then if ltb 2 m'.failures then stopped m' else rest
      else m

  -- success_rate >= 0.9, over whole numbers
  unfoldable pub rated : Monitoring → Monitoring
  rated m =
      if m.checks_performed == 0
      then record m { reason = some no_observations }
      else if leb (9 * m.checks_performed) (10 * (m.checks_performed - m.failures))
      then record m { stable = true }
      else record m { reason = some low_success_rate }

  unfoldable pub monitor_stability : ℕ → Monitoring
  monitor_stability duration =
      if duration == 0
      then record (begun duration) { reason = some no_duration }
      else rated (monitor_from (suc duration) (begun duration))
