-- ===== src/Admission/Bounds.antt =====
-- Slots are neither lost nor handed out twice, and the waiting room keeps its bound, for every
-- interleaving of the requests.
use otel_logger.Prelude.{
  ℕ, suc, ◌+◌, ◌≤◌, ◌≡◌, refl, Option, none, some, List, [], ◌∷◌, true, ◌∙◌, arith, Option-cases,
  ◌⊎◌, inl, inr, get_elem?, total, total-set, total-le, total-append, le-total, saturating_mul,
}
use otel_logger.Admission.{
  Phase, arrived, entered, queued, holding, Event, Inner, Receiver, step, at_request, schedule, new,
  waiting_per_inflight,
}
use otel_logger.Admission.Slots.{Semaphore}

-- A request that holds a slot.
abbrev pub holds : Phase → ℕ
holds (holding (suc n)) = 1
holds _ = 0

-- A request that `waiting` counts.
abbrev pub counts : Phase → ℕ
counts (entered b) = 1
counts queued = 1
counts _ = 0

-- A request that may wait for a slot.
abbrev pub waits : Phase → ℕ
waits (entered true) = 1
waits queued = 1
waits _ = 0

waits-le-counts : (p : Phase) → waits p ≤ counts p
waits-le-counts (entered true) = omega arith
waits-le-counts _ = omega arith

module _ (m : Semaphore) where
  open m use {available, acquired, exhausted, available-release, available-create, try_acquire}

  pub record IsBounded (max_inflight : ℕ) (r : Receiver m) : Type 0 where
    pub slots : available r.inner.slots + total holds r.requests ≡ max_inflight
    pub counted : r.inner.waiting ≡ total counts r.requests
    pub room : total waits r.requests ≤ r.inner.max_waiting
    pub limit : r.inner.max_waiting ≡ saturating_mul max_inflight waiting_per_inflight

  module _ (p : Phase) (e : Event) (inner : Inner m) where
    step_slots :
        available (step m p e inner).1.slots + holds (step m p e inner).0
        ≡ available inner.slots + holds p
    unfolding step
    step_slots = elim (Option-cases (try_acquire inner.slots)) [
      | inl none_left ↦ ground (arith, none_left, available-release inner.slots)
      | inr (t, got) ↦ ground (arith, acquired inner.slots t got, available-release inner.slots)
    ]

    step-counts :
        counts p ≤ inner.waiting
        → (step m p e inner).1.waiting + counts p ≡ inner.waiting + counts (step m p e inner).0
    unfolding step
    step-counts h = ground arith

    step-waits :
        (waits (step m p e inner).0 ≤ waits p)
        ⊎ ((waits (step m p e inner).0 ≡ 1) × (inner.waiting + 1 ≤ inner.max_waiting))
    unfolding step
    step-waits = ground arith

    step_max : (step m p e inner).1.max_waiting ≡ inner.max_waiting
    unfolding step
    step_max = ground arith

  at_request-IsBounded :
      (n : ℕ) (o : Option Phase) (i : ℕ) (e : Event) (r : Receiver m)
      → get_elem? r.requests i ≡ o
      → IsBounded n r
      → IsBounded n (at_request m o i e r)
  unfolding at_request
  at_request-IsBounded n none i e r found h = record {
    slots = omega (arith, total-append holds r.requests (arrived ∷ []), h.slots);
    counted = omega (arith, total-append counts r.requests (arrived ∷ []), h.counted);
    room = omega (arith, total-append waits r.requests (arrived ∷ []), h.room);
    limit = h.limit;
  }
  at_request-IsBounded n (some p) i e r found h =
      let p' = (step m p e r.inner).0 in
      let counted_before = le-total counts r.requests i p found in
      record {
        slots =
            omega (arith, step_slots p e r.inner, total-set holds r.requests i p' p found, h.slots);
        counted = omega (
          arith,
          step-counts p e r.inner (omega (arith, h.counted)),
          total-set counts r.requests i p' p found,
          h.counted,
        );
        room = ground (
          arith,
          step-waits p e r.inner,
          step_max p e r.inner,
          total-set waits r.requests i p' p found,
          total-le waits counts waits-le-counts r.requests,
          h.counted,
          h.room,
          le-total waits r.requests i p found,
        );
        limit = step_max p e r.inner ∙ h.limit;
      }

  -- From a receiver in bounds, every schedule of arrivals, waits, deadlines, cancellations and
  -- drops leaves it in bounds.
  pub schedule-IsBounded :
      (n : ℕ) (events : List (ℕ × Event)) (r : Receiver m)
      → IsBounded n r
      → IsBounded n (schedule m events r)
  unfolding schedule
  schedule-IsBounded n [] r h = h
  schedule-IsBounded n ((i, e) ∷ rest) r h =
      schedule-IsBounded n rest _ (at_request-IsBounded n (get_elem? r.requests i) i e r refl h)

  abbrev pub started : ℕ → Receiver m
  started n = record { requests = []; inner = new m n }

  pub started-IsBounded : (n : ℕ) → IsBounded n (started n)
  unfolding new
  started-IsBounded n = record {
    slots = omega (arith, available-create n);
    counted = refl;
    room = omega arith;
    limit = refl;
  }

  -- At every moment at most `max_inflight` requests hold a slot, and at most eight times as many
  -- wait for one.
  pub schedule_bounds :
      (n : ℕ) (events : List (ℕ × Event))
      → (total holds (schedule m events (started n)).requests ≤ n)
        × (total waits (schedule m events (started n)).requests
            ≤ saturating_mul n waiting_per_inflight)
  schedule_bounds n events =
      let b = schedule-IsBounded n events (started n) (started-IsBounded n) in
      (omega (arith, b.slots), omega (arith, b.room, b.limit))

  -- When every request has left, every slot is free and nobody is counted as waiting.
  pub schedule_all_left :
      (n : ℕ) (events : List (ℕ × Event))
      → total holds (schedule m events (started n)).requests ≡ 0
      → total counts (schedule m events (started n)).requests ≡ 0
      → (available (schedule m events (started n)).inner.slots ≡ n)
        × ((schedule m events (started n)).inner.waiting ≡ 0)
  schedule_all_left n events h k =
      let b = schedule-IsBounded n events (started n) (started-IsBounded n) in
      (omega (arith, b.slots), omega (arith, b.counted))
