-- ===== src/Tools/FixVerifier/Monitor/Bounds.antt =====
-- How long the monitoring of a fix goes on, and what a stable verdict rests on.
use open_devops_agent.Prelude.{
  ℕ, zero, suc, ◌+◌, ◌-◌, ◌*◌, ◌/◌, ◌≤◌, ◌<◌, ◌≡◌, Bool, true, false, ltb, ◌==◌, arith, if_no, inl,
  ◌⊎◌, ap, sym, ◌∙◌, max, min,
}
use open_devops_agent.Tools.FixVerifier.Monitor.{
  Monitoring, begun, check_interval, checked, monitor_from, rated, monitor_stability,
}

-- Why the loop is over: the time is up, or too many checks failed.
abbrev pub IsOver : (ℕ → ℕ) → Monitoring → Type 0
IsOver elapsed m = (m.duration ≤ elapsed m.checks_performed) ⊎ (2 < m.failures)

module _ (passes : ℕ → Bool) (elapsed : ℕ → ℕ) where
  -- With a round for each second that is left, the loop ends by its own tests.
  monitor_from-IsOver :
      (rounds : ℕ) (m : Monitoring)
      → ((k : ℕ) → k ≤ elapsed k)
      → m.duration ≤ rounds + m.checks_performed
      → IsOver elapsed (monitor_from passes elapsed rounds m)
  unfolding monitor_from
  monitor_from-IsOver zero m slept enough = let h = slept m.checks_performed in inl (omega arith)
  monitor_from-IsOver (suc rounds) m slept enough =
      let ih = monitor_from-IsOver rounds (checked passes elapsed m) slept (omega arith) in
      ground (arith, ih)

  -- What holds of the counts after so many rounds, when checks are so many seconds apart.
  record IsCounted (interval duration : ℕ) (m : Monitoring) : Type 0 where
    pub same_duration : m.duration ≡ duration
    pub unstable : m.stable ≡ false
    pub failures_counted : m.failures ≤ m.checks_performed
    pub failures_few : m.failures ≤ 3
    pub in_time : m.checks_performed * interval < duration + interval

  checked-IsCounted :
      (interval duration : ℕ) (m : Monitoring)
      → ((k : ℕ) → k * interval ≤ elapsed k)
      → m.failures ≤ 2
      → ltb (elapsed m.checks_performed) m.duration ≡ true
      → IsCounted interval duration m
      → IsCounted interval duration (checked passes elapsed m)
  checked-IsCounted interval duration m slept few going h =
      let started = slept m.checks_performed in ground arith

  monitor_from-IsCounted :
      (interval duration rounds : ℕ) (m : Monitoring)
      → ((k : ℕ) → k * interval ≤ elapsed k)
      → m.failures ≤ 2
      → IsCounted interval duration m
      → IsCounted interval duration (monitor_from passes elapsed rounds m)
  unfolding monitor_from
  monitor_from-IsCounted interval duration zero m slept few h = h
  monitor_from-IsCounted interval duration (suc rounds) m slept few h = ground (
    arith,
    checked-IsCounted interval duration m slept few,
    monitor_from-IsCounted interval duration rounds (checked passes elapsed m) slept,
  )

  -- A stable verdict needs nine checks in ten to pass.
  rated-stable :
      (m : Monitoring)
      → m.stable ≡ false
      → (rated passes elapsed m).stable ≡ true
      → (1 ≤ m.checks_performed) × (9 * m.checks_performed ≤ 10 * (m.checks_performed - m.failures))
  unfolding rated
  rated-stable m unstable h = ground arith

  rated-counts :
      (m : Monitoring)
      → ((rated passes elapsed m).checks_performed ≡ m.checks_performed)
        × ((rated passes elapsed m).failures ≡ m.failures)
  unfolding rated
  rated-counts m = ground arith

abbrev pub looped : (ℕ → Bool) → (ℕ → ℕ) → ℕ → Monitoring
looped passes elapsed duration = monitor_from passes elapsed (suc duration) (begun duration)

monitor_stability-rated :
    (passes : ℕ → Bool) (elapsed : ℕ → ℕ) (duration : ℕ)
    → 0 < duration
    → monitor_stability passes elapsed duration
      ≡ rated passes elapsed (looped passes elapsed duration)
unfolding monitor_stability
monitor_stability-rated passes elapsed duration positive = if_no (duration == 0) _ _ (ground arith)

looped-IsCounted :
    (passes : ℕ → Bool) (elapsed : ℕ → ℕ) (interval duration : ℕ)
    → 0 < duration
    → ((k : ℕ) → k * interval ≤ elapsed k)
    → IsCounted passes elapsed interval duration (looped passes elapsed duration)
looped-IsCounted passes elapsed interval duration positive slept =
    monitor_from-IsCounted passes elapsed interval duration (suc duration) (begun duration) slept
      (omega arith) (ground arith)

-- An interval is at least a second.
at_least_seconds : (duration k time : ℕ) → k * check_interval duration ≤ time → k ≤ time
unfolding check_interval
at_least_seconds duration k time h =
    let wide : 1 ≤ max 1 (min 30 (duration / 10)) = omega arith in grind arith

-- When at least the interval passes between two checks, the monitoring of a positive duration
-- stops by its own tests (the time is up, or more than two checks failed) within a round for each
-- second, and by then it has made no more checks than intervals begin in the duration, at most
-- three of which failed.
pub monitor_stability-IsOver :
    (passes : ℕ → Bool) (elapsed : ℕ → ℕ) (duration : ℕ)
    → 0 < duration
    → ((k : ℕ) → k * check_interval duration ≤ elapsed k)
    → IsOver elapsed (looped passes elapsed duration)
      × ((monitor_stability passes elapsed duration).failures ≤ 3)
      × ((monitor_stability passes elapsed duration).checks_performed * check_interval duration
          < duration + check_interval duration)
monitor_stability-IsOver passes elapsed duration positive slept =
    let counted =
      looped-IsCounted passes elapsed (check_interval duration) duration positive slept in
    let (checks, failures) = rated-counts passes elapsed (looped passes elapsed duration) in
    rw (monitor_stability-rated passes elapsed duration positive, checks, failures)
      (
        monitor_from-IsOver passes elapsed (suc duration) (begun duration)
            (λ k. at_least_seconds duration k (elapsed k) (slept k)) (omega arith),
        counted.failures_few,
        counted.in_time,
      )

-- A system that the monitoring finds stable was checked, and at most one check in ten failed.
pub monitor_stability-stable :
    (passes : ℕ → Bool) (elapsed : ℕ → ℕ) (duration : ℕ)
    → 0 < duration
    → (monitor_stability passes elapsed duration).stable ≡ true
    → (1 ≤ (monitor_stability passes elapsed duration).checks_performed)
      × (10 * (monitor_stability passes elapsed duration).failures
          ≤ (monitor_stability passes elapsed duration).checks_performed)
monitor_stability-stable passes elapsed duration positive stable =
    let counted = looped-IsCounted passes elapsed 0 duration positive (λ k. omega arith) in
    let (checks, failures) = rated-counts passes elapsed (looped passes elapsed duration) in
    let e = monitor_stability-rated passes elapsed duration positive in
    let rate =
      rated-stable passes elapsed (looped passes elapsed duration) counted.unstable
        (sym (ap (λ m. m.stable) e) ∙ stable) in
    rw (e, checks, failures) (rate.0, omega arith)
