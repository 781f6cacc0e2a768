-- ===== src/Sink/Health/Outage.antt =====
-- What the reports of src/sink.rs say of an outage.
use otel_logger.Prelude.{
  ℕ, ◌+◌, ◌-◌, ◌≤◌, ◌<◌, ◌≡◌, Option, none, some, List, [], ◌∷◌, Bool, true, false, if◌then◌else◌,
  saturating_add, u64_max, arith, Bool-cases, inl, inr, ◌⊎◌, length,
}
use otel_logger.Sink.Health.{
  FailureStreak, HealthReport, silent, started, ongoing, recovered, Write, on_write, observe,
  report_interval, quiet_period, healthy,
}

-- Starts and recoveries alternate, and reminders stand only within an outage.
abbrev pub Alternates : Bool → List HealthReport → Type 0
Alternates failing [] = Unit
Alternates failing (silent ∷ rs) = Alternates failing rs
Alternates failing (started ∷ rs) = (failing ≡ false) × Alternates true rs
Alternates failing (ongoing n d ∷ rs) = (failing ≡ true) × Alternates true rs
Alternates failing (recovered n d ∷ rs) = (failing ≡ true) × Alternates false rs

abbrev pub is_failing : Option FailureStreak → Bool
is_failing none = false
is_failing (some s) = true

observe_from-Alternates :
    (ws : List Write) (f : Option FailureStreak)
    → Alternates (is_failing f) (observe (record { failing = f }) ws).0
unfolding observe on_write
observe_from-Alternates [] f = tt
observe_from-Alternates (w ∷ ws) none =
    ground (arith, observe_from-Alternates ws (on_write (record { failing = none }) w).1.failing)
observe_from-Alternates (w ∷ ws) (some s) =
    ground (arith, observe_from-Alternates ws (on_write (record { failing = some s }) w).1.failing)

-- From a healthy state, starts and recoveries alternate, a start first, and each reminder stands
-- between a start and the next recovery.
pub observe-Alternates : (ws : List Write) → Alternates false (observe healthy ws).0
observe-Alternates ws = observe_from-Alternates ws none

-- The reports against the writes, with what is known of the outage: the failures so far (none
-- outside an outage), the instants of the first and of the last, and that of the last report.
abbrev pub Accurate : ℕ → ℕ → ℕ → ℕ → List Write → List HealthReport → Type 0
Accurate k since last reported [] [] = Unit
Accurate k since last reported [] (r ∷ rs) = ⊥
Accurate k since last reported (w ∷ ws) [] = ⊥
Accurate k since last reported (w ∷ ws) (silent ∷ rs) =
    if w.succeeded
    then ((k ≡ 0) ⊎ (w.at < last + quiet_period)) × Accurate k since last reported ws rs
    else (0 < k) × (w.at < reported + report_interval) × Accurate (k + 1) since w.at reported ws rs
Accurate k since last reported (w ∷ ws) (started ∷ rs) =
    (w.succeeded ≡ false) × (k ≡ 0) × Accurate 1 w.at w.at w.at ws rs
Accurate k since last reported (w ∷ ws) (ongoing n d ∷ rs) =
    (w.succeeded ≡ false)
    × (n ≡ k + 1)
    × (d ≡ w.at - since)
    × (reported + report_interval ≤ w.at)
    × Accurate (k + 1) since w.at w.at ws rs
Accurate k since last reported (w ∷ ws) (recovered n d ∷ rs) =
    (w.succeeded ≡ true)
    × (n ≡ k)
    × (d ≡ w.at - since)
    × (last + quiet_period ≤ w.at)
    × Accurate 0 0 0 0 ws rs

-- The predicate at the state that the code keeps.
abbrev AccurateAt : Option FailureStreak → List Write → List HealthReport → Type 0
AccurateAt none ws rs = Accurate 0 0 0 0 ws rs
AccurateAt (some s) ws rs = Accurate s.failures s.since s.last_failure s.last_report ws rs

-- In an outage there has been a failure.
abbrev IsStreak : Option FailureStreak → ℕ → Type 0
IsStreak none n = Unit
IsStreak (some s) n = (0 < s.failures) × (s.failures + n ≤ u64_max)

observe-AccurateAt :
    (ws : List Write) (f : Option FailureStreak)
    → length ws ≤ u64_max
    → IsStreak f (length ws)
    → AccurateAt f ws (observe (record { failing = f }) ws).0
unfolding observe on_write
observe-AccurateAt [] none b h = tt
observe-AccurateAt [] (some s) b h = tt
observe-AccurateAt (w ∷ ws) none b h = elim (Bool-cases w.succeeded) [
  | inl good ↦ ground (arith, observe-AccurateAt ws none (omega arith) tt)
  | inr bad ↦ ground (arith, observe-AccurateAt ws (on_write healthy w).1.failing (omega arith))
]
observe-AccurateAt (w ∷ ws) (some s) b h = elim (Bool-cases w.succeeded) [
  | inl good ↦ ground (
    arith,
    observe-AccurateAt ws none (omega arith) tt,
    observe-AccurateAt ws (some s) (omega arith) (h.0, omega (arith, h.1)),
  )
  | inr bad ↦
      let n = s.failures + 1 in
      let n_lem : saturating_add s.failures 1 ≡ n = ground arith in
      ground (
        arith,
        n_lem,
        observe-AccurateAt ws (some (record s { failures = n; last_failure = w.at })) (omega arith)
            (omega arith, omega (arith, h.1)),
        observe-AccurateAt ws
            (some (record s { failures = n; last_failure = w.at; last_report = w.at }))
            (omega arith) (omega arith, omega (arith, h.1)),
      )
]

-- The reports of any run of fewer than 2 ^ 64 writes, from a healthy state, are accurate: each
-- reminder and each recovery counts the failures of its outage and its length, a reminder comes
-- no sooner than ten minutes after the last report, a recovery no sooner than a minute after the
-- last failure, and what is not reported is a success outside an outage or within that minute, or
-- a failure within those ten minutes.
pub observe-Accurate :
    (ws : List Write) → length ws ≤ u64_max → Accurate 0 0 0 0 ws (observe healthy ws).0
observe-Accurate ws b = observe-AccurateAt ws none b tt
