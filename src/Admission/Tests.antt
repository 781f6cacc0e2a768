-- ===== src/Admission/Tests.antt =====
-- A semaphore that counts, and schedules on it.
use otel_logger.Prelude.{
  ℕ, zero, suc, ◌≤◌, ◌≡◌, refl, Option, none, some, List, [], ◌∷◌, total, arith, saturating_mul,
}
use otel_logger.Admission.{
  Event, run, granted, clone, drop_one, step, at_request, schedule, new, waiting_per_inflight,
}
use otel_logger.Admission.Slots.{Semaphore}
use otel_logger.Admission.Bounds.{holds, waits, started, schedule_bounds, schedule_all_left}

abbrev take_one : ℕ → Option ℕ
take_one zero = none
take_one (suc n) = some n

take_one-some : (s t : ℕ) → take_one s ≡ some t → s ≡ suc t
take_one-some s t h = ground arith

take_one-none : (s : ℕ) → take_one s ≡ none → s ≡ 0
take_one-none s h = ground arith

abbrev counting : Semaphore
counting = record {
  Slots = ℕ;
  available = λ s. s;
  create = λ n. n;
  try_acquire = take_one;
  release = suc;
  available-create = λ n. refl;
  acquired = take_one-some;
  exhausted = take_one-none;
  available-release = λ s. refl;
}

-- Two requests and one slot: the second waits, the first clones its permit and drops both clones.
abbrev handover : List (ℕ × Event)
handover =
    (0, run)
    ∷ (0, run)
    ∷ (1, run)
    ∷ (1, run)
    ∷ (1, run)
    ∷ (0, clone)
    ∷ (1, granted)
    ∷ (0, drop_one)
    ∷ (0, drop_one)
    ∷ (1, granted)
    ∷ []

schedule_bounds_example :
    (total holds (schedule counting handover (started counting 1)).requests ≤ 1)
    × (total waits (schedule counting handover (started counting 1)).requests
        ≤ saturating_mul 1 waiting_per_inflight)
schedule_bounds_example = schedule_bounds counting 1 handover

abbrev drained : List (ℕ × Event)
drained = (0, run) ∷ (0, run) ∷ (0, drop_one) ∷ []

schedule_all_left_example :
    ((schedule counting drained (started counting 1)).inner.slots ≡ 1)
    × ((schedule counting drained (started counting 1)).inner.waiting ≡ 0)
unfolding schedule at_request step new
schedule_all_left_example = schedule_all_left counting 1 drained refl refl
