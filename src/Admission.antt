-- ===== src/Admission.antt =====
-- src/admission.rs: at most so many requests are received and stored at a time, and at most so many
-- wait for a slot. The requests run interleaved; a schedule says which of them goes on, and what
-- its wait ends in.
pub mod Slots
pub mod Bounds
mod Tests
use otel_logger.Prelude.{
  ℕ, zero, suc, ◌+◌, ◌-◌, ◌*◌, ◌≡◌, Option, none, some, List, [], ◌∷◌, ◌++◌, Bool, true, false, leb,
  if◌then◌else◌, min, get_elem?, set, saturating_mul,
}
use otel_logger.Admission.Slots.{Semaphore}

-- `DEFAULT_MAX_INFLIGHT_REQUESTS`, `WAITING_PER_INFLIGHT`
abbrev pub default_max_inflight_requests : ℕ
default_max_inflight_requests = 8

abbrev pub waiting_per_inflight : ℕ
waiting_per_inflight = 8

pub data Rejected : Type 0 where
  busy timed_out : Rejected

-- Where a request stands in `admit`, and after it.
pub data Phase : Type 0 where
  arrived : Phase
  -- `WaitingGuard::enter` has counted the request; the test passed or not
  entered : Bool → Phase
  -- in `timeout_at(deadline, acquire_owned())`
  queued : Phase
  -- a `ReceivePermit` of which so many clones live
  holding : ℕ → Phase
  refused : Rejected → Phase
  finished : Phase

-- What happens to the request next: its own code runs, its wait is granted a slot, reaches the
-- deadline or finds the semaphore closed, its handler is cancelled, its permit is cloned, or one
-- clone of the permit is dropped.
pub data Event : Type 0 where
  run granted deadline closed cancel clone drop_one : Event

module _ (m : Semaphore) where
  open m use {Slots, create, try_acquire, release}

  pub record Inner : Type 0 where
    pub slots : Slots
    pub waiting : ℕ
    pub max_waiting : ℕ

  -- `ReceiveLimits::new`
  unfoldable pub new : ℕ → Inner
  new max_inflight = record {
    slots = create max_inflight;
    waiting = 0;
    max_waiting = saturating_mul max_inflight waiting_per_inflight;
  }

  -- `waiting.fetch_add(1)` and the test of `WaitingGuard::enter`.
  unfoldable pub enter : Inner → Phase × Inner
  enter inner =
      let waiting = inner.waiting + 1 in
      (entered (leb waiting inner.max_waiting), record inner { waiting = waiting })

  -- `Drop for WaitingGuard`
  unfoldable pub leave : Inner → Inner
  leave inner = record inner { waiting = inner.waiting - 1 }

  unfoldable pub take_slot : Phase × Inner → Option Slots → Inner → Phase × Inner
  take_slot otherwise none inner = otherwise
  take_slot otherwise (some slots) inner = (holding 1, record inner { slots = slots })

  -- The request's next step.
  unfoldable pub step : Phase → Event → Inner → Phase × Inner
  unfolding enter leave take_slot
  step arrived run inner = take_slot (enter inner) (try_acquire inner.slots) inner
  step arrived cancel inner = (finished, inner)
  step (entered true) run inner = (queued, inner)
  step (entered false) run inner = (refused busy, leave inner)
  step queued granted inner = take_slot (queued, inner) (try_acquire inner.slots) (leave inner)
  step queued deadline inner = (refused timed_out, leave inner)
  step queued closed inner = (refused busy, leave inner)
  step queued cancel inner = (finished, leave inner)
  step (holding (suc n)) clone inner = (holding (suc (suc n)), inner)
  step (holding (suc (suc n))) drop_one inner = (holding (suc n), inner)
  step (holding (suc zero)) drop_one inner =
      (finished, record inner { slots = release inner.slots })
  step phase event inner = (phase, inner)

  pub record Receiver : Type 0 where
    pub requests : List Phase
    pub inner : Inner

  -- One step of the request at an index; a new index is a request that arrives.
  unfoldable pub at_request : Option Phase → ℕ → Event → Receiver → Receiver
  at_request none i event r = record r { requests = r.requests ++ (arrived ∷ []) }
  at_request (some phase) i event r =
      let (phase', inner) = step phase event r.inner in
      record { requests = set r.requests i phase'; inner = inner }

  unfoldable pub schedule : List (ℕ × Event) → Receiver → Receiver
  schedule [] r = r
  schedule ((i, event) ∷ rest) r = schedule rest (at_request (get_elem? r.requests i) i event r)
