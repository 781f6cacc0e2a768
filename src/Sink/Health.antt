-- ===== src/Sink/Health.antt =====
-- `WriteHealth` of src/sink.rs: which write failures are reported. An instant is its nanoseconds.
pub mod Outage
use otel_logger.Prelude.{
  ℕ, ◌+◌, ◌-◌, ◌*◌, ◌^◌, Option, none, some, List, [], ◌∷◌, Bool, true, false, ltb, leb,
  if◌then◌else◌, saturating_add,
}

abbrev pub seconds : ℕ → ℕ
seconds n = n * 10 ^ 9

-- `PRETTY_FAILURE_REPORT_INTERVAL`, `PRETTY_RECOVERY_QUIET_PERIOD`
abbrev pub report_interval : ℕ
report_interval = seconds 600

abbrev pub quiet_period : ℕ
quiet_period = seconds 60

pub record FailureStreak : Type 0 where
  pub since : ℕ
  pub failures : ℕ
  pub last_failure : ℕ
  pub last_report : ℕ

pub record WriteHealth : Type 0 where
  pub failing : Option FailureStreak

pub data HealthReport : Type 0 where
  silent started : HealthReport
  -- the failures so far, and the time since the first
  ongoing : ℕ → ℕ → HealthReport
  recovered : ℕ → ℕ → HealthReport

-- `saturating_duration_since`
abbrev pub duration_since : ℕ → ℕ → ℕ
duration_since now earlier = now - earlier

abbrev pub first_failure : ℕ → FailureStreak
first_failure now = record { since = now; failures = 1; last_failure = now; last_report = now }

on_failure_streak : Option FailureStreak → ℕ → HealthReport × WriteHealth
on_failure_streak none now = (started, record { failing = some (first_failure now) })
on_failure_streak (some streak) now =
    let failures = saturating_add streak.failures 1 in
    if ltb (duration_since now streak.last_report) report_interval
    then (
      silent,
      record { failing = some (record streak { failures = failures; last_failure = now }) },
    )
    else (
      ongoing failures (duration_since now streak.since),
      record {
        failing =
            some (record streak { failures = failures; last_failure = now; last_report = now });
      },
    )

unfoldable pub on_failure : WriteHealth → ℕ → HealthReport × WriteHealth
unfolding on_failure_streak
on_failure h now = on_failure_streak h.failing now

on_success_streak : Option FailureStreak → WriteHealth → ℕ → HealthReport × WriteHealth
on_success_streak none h now = (silent, h)
on_success_streak (some streak) h now =
    if leb quiet_period (duration_since now streak.last_failure)
    then (recovered streak.failures (duration_since now streak.since), record { failing = none })
    else (silent, h)

unfoldable pub on_success : WriteHealth → ℕ → HealthReport × WriteHealth
unfolding on_success_streak
on_success h now = on_success_streak h.failing h now

unresolved_streak : Option FailureStreak → ℕ → Option (ℕ × ℕ × ℕ)
unresolved_streak none now = none
unresolved_streak (some streak) now =
    some (streak.failures, duration_since now streak.since, duration_since now streak.last_failure)

unfoldable pub unresolved : WriteHealth → ℕ → Option (ℕ × ℕ × ℕ)
unfolding unresolved_streak
unresolved h now = unresolved_streak h.failing now

-- A write that ended at an instant, well or not.
pub record Write : Type 0 where
  pub succeeded : Bool
  pub at : ℕ

abbrev pub healthy : WriteHealth
healthy = record { failing = none }

unfoldable pub on_write : WriteHealth → Write → HealthReport × WriteHealth
unfolding on_failure on_success
on_write h w = if w.succeeded then on_success h w.at else on_failure h w.at

-- The reports of a run of writes, and the last state.
unfoldable pub observe : WriteHealth → List Write → List HealthReport × WriteHealth
observe h [] = ([], h)
observe h (w ∷ ws) = let rest = observe (on_write h w).1 ws in ((on_write h w).0 ∷ rest.0, rest.1)
