-- ===== src/Sink/Pretty.antt =====
-- `PrettyOutput`, its writer task and `PrettyWriterState` of src/sink.rs: one destination of the
-- human-readable stream, with its queue.
pub mod Calls
pub mod Budget
use Prim.Native.Nat.{bit_and}
use otel_logger.Prelude.{
  ℕ, zero, suc, ◌+◌, ◌-◌, ◌*◌, ◌%◌, ◌^◌, Option, none, some, List, [], ◌∷◌, Bool, true, false, not,
  ◌&&◌, ltb, leb, ◌==◌, if◌then◌else◌, length, saturating_add,
}
use otel_logger.Channel.{Channel, TrySend, sent, full, closed}
use otel_logger.Sink.Health.{WriteHealth, HealthReport, silent, healthy, on_failure, on_success}

-- `PRETTY_QUEUE_CAPACITY`, `PRETTY_QUEUE_MAX_BYTES`
abbrev pub pretty_queue_capacity : ℕ
pretty_queue_capacity = 256

abbrev pub pretty_queue_max_bytes : ℕ
pretty_queue_max_bytes = 64 * 1024 * 1024

-- `fetch_add` and `fetch_sub` wrap around.
abbrev pub wrapping_add : ℕ → ℕ → ℕ
wrapping_add a b = (a + b) % 2 ^ 64

abbrev pub wrapping_sub : ℕ → ℕ → ℕ
wrapping_sub a b = (a + (2 ^ 64 - b)) % 2 ^ 64

pub record PrettyJob : Type 0 where
  pub rendered : List ℕ
  pub want_summary : Bool
  -- whether the sender of a drain waits for the job
  pub sync : Bool

pub data DropReason : Type 0 where
  writer_stopped queue_full byte_budget : DropReason

-- What `report_drop` logs: nothing, or a message with the number of dropped batches.
pub data DropReport : Type 0 where
  unreported : DropReport
  writer_has_stopped still_dropping : ℕ → DropReport
  writer_is_behind : ℕ → DropReason → DropReport

unfoldable pub is_power_of_two : ℕ → Bool
is_power_of_two n = not (n == 0) && (bit_and n (n - 1) == 0)

module _ (ch : Channel PrettyJob) where
  open ch use {Chan, try_send, receive, is_closed}

  pub record PrettyOutput : Type 0 where
    pub tx : Chan
    pub queued_bytes : ℕ
    pub max_queued_bytes : ℕ
    pub dropped : ℕ
    pub writer_stop_reported : Bool
    pub color : Bool

  unfoldable pub report_stopped : Bool → ℕ → PrettyOutput → DropReport × PrettyOutput
  report_stopped false dropped o =
      (writer_has_stopped dropped, record o { dropped = dropped; writer_stop_reported = true })
  report_stopped true dropped o = (
    if is_power_of_two dropped then still_dropping dropped else unreported,
    record o { dropped = dropped },
  )

  unfoldable pub report_behind : DropReason → ℕ → PrettyOutput → DropReport × PrettyOutput
  report_behind reason dropped o = (
    if is_power_of_two dropped then writer_is_behind dropped reason else unreported,
    record o { dropped = dropped },
  )

  -- `report_drop`
  unfoldable pub report_drop : DropReason → PrettyOutput → DropReport × PrettyOutput
  report_drop writer_stopped o = report_stopped o.writer_stop_reported (wrapping_add o.dropped 1) o
  report_drop queue_full o = report_behind queue_full (wrapping_add o.dropped 1) o
  report_drop byte_budget o = report_behind byte_budget (wrapping_add o.dropped 1) o

  -- `self.tx.try_send(job)`
  unfoldable pub try_enqueue : TrySend Chan → PrettyOutput → Option DropReason × PrettyOutput
  try_enqueue (sent tx) o = (none, record o { tx = tx })
  try_enqueue full o = (some queue_full, o)
  try_enqueue closed o = (some writer_stopped, o)

  -- The choice of `reason` in `enqueue`.
  unfoldable pub choose : Bool → PrettyJob → PrettyOutput → Option DropReason × PrettyOutput
  choose over_budget job o =
      if is_closed o.tx
      then (some writer_stopped, o)
      else if over_budget
      then (some byte_budget, o)
      else try_enqueue (try_send job o.tx) o

  -- `if let Some(reason) = reason`
  unfoldable pub settle : ℕ → Option DropReason × PrettyOutput → Option DropReason × PrettyOutput
  settle len (none, o) = (none, o)
  settle len (some reason, o) = (
    some reason,
    (report_drop reason (record o { queued_bytes = wrapping_sub o.queued_bytes len })).1,
  )

  unfoldable pub enqueue : List ℕ → Bool → PrettyOutput → Option DropReason × PrettyOutput
  enqueue rendered want_summary o =
      let len = length rendered in
      let queued = o.queued_bytes in
      let counted = record o { queued_bytes = wrapping_add queued len } in
      let over_budget = ltb o.max_queued_bytes (saturating_add queued len) in
      let job : PrettyJob = record {
        rendered = rendered;
        want_summary = want_summary;
        sync = false;
      } in
      settle len (choose over_budget job counted)

  -- A call of `enqueue` beside others, between its accesses of what they share: its bytes are
  -- counted, with what it found of the budget; it is about to send; its bytes are to be taken back;
  -- its drop is to be reported; it is over.
  pub data Call : Type 0 where
    counted : Bool → PrettyJob → Call
    sending : PrettyJob → Call
    returning : DropReason → PrettyJob → Call
    reporting : DropReason → Call
    finished : Call

  -- `fetch_add`
  unfoldable pub start_call : List ℕ → Bool → PrettyOutput → Call × PrettyOutput
  start_call rendered want_summary o =
      let len = length rendered in
      let queued = o.queued_bytes in
      let job : PrettyJob = record {
        rendered = rendered;
        want_summary = want_summary;
        sync = false;
      } in
      (
        counted (ltb o.max_queued_bytes (saturating_add queued len)) job,
        record o { queued_bytes = wrapping_add queued len },
      )

  unfoldable pub sent_or : PrettyJob → Option DropReason × PrettyOutput → Call × PrettyOutput
  sent_or job (none, o) = (finished, o)
  sent_or job (some reason, o) = (returning reason job, o)

  -- The next access of a call: `is_closed` and the test, `try_send`, `fetch_sub`, `report_drop`.
  unfoldable pub advance : Call → PrettyOutput → Call × PrettyOutput
  unfolding sent_or
  advance (counted over_budget job) o = (
    if is_closed o.tx
        then returning writer_stopped job
        else if over_budget
        then returning byte_budget job
        else sending job,
    o,
  )
  advance (sending job) o = sent_or job (try_enqueue (try_send job o.tx) o)
  advance (returning reason job) o = (
    reporting reason,
    record o { queued_bytes = wrapping_sub o.queued_bytes (length job.rendered) },
  )
  advance (reporting reason) o = (finished, (report_drop reason o).1)
  advance finished o = (finished, o)

  unfoldable pub advance_at : ℕ → List Call → PrettyOutput → List Call × PrettyOutput
  unfolding advance
  advance_at i [] o = ([], o)
  advance_at zero (c ∷ cs) o = let r = advance c o in (r.0 ∷ cs, r.1)
  advance_at (suc i) (c ∷ cs) o = let r = advance_at i cs o in (c ∷ r.0, r.1)

-- The writer's side.
pub data WriteResult : Type 0 where
  written broken_pipe other_error : WriteResult

pub record PrettyWriterState : Type 0 where
  pub broken_pipe_seen : Bool
  pub health : WriteHealth

unfoldable pub should_write : PrettyWriterState → Bool
should_write s = not s.broken_pipe_seen

-- `record_result` for the target that is stdout or not.
unfoldable pub record_result :
    Bool → WriteResult → ℕ → PrettyWriterState → HealthReport × PrettyWriterState
record_result stdout written now s =
    let r = on_success s.health now in (r.0, record s { health = r.1 })
record_result true broken_pipe now s = (silent, record s { broken_pipe_seen = true })
record_result stdout result now s =
    let r = on_failure s.health now in (r.0, record s { health = r.1 })

-- What happens at a destination: a handler calls `enqueue`, one of the calls makes its next access,
-- the writer takes a job, or the writer's write (the result, at an instant) ends.
pub data PrettyEvent : Type 0 where
  submit : List ℕ → Bool → PrettyEvent
  advance_call : ℕ → PrettyEvent
  take_job : PrettyEvent
  end_job : WriteResult → ℕ → PrettyEvent

module _ (ch : Channel PrettyJob) (stdout : Bool) where
  pub record Pretty : Type 0 where
    pub out : PrettyOutput ch
    -- the calls of `enqueue` so far
    pub calls : List (Call ch)
    pub writer : PrettyWriterState
    -- the job between `recv` and the end of the loop's round
    pub in_flight : Option PrettyJob

  unfoldable pub taken : Option (PrettyJob × ch.Chan) → Pretty → Pretty
  taken none p = p
  taken (some (job, tx)) p = record p { out = record p.out { tx = tx }; in_flight = some job }

  unfoldable pub is_empty : List ℕ → Bool
  is_empty [] = true
  is_empty (b ∷ bs) = false

  -- The rest of a round of `run_pretty_writer`.
  unfoldable pub finish : PrettyJob → WriteResult → ℕ → Pretty → Pretty
  finish job result now p = record {
    out = record p.out { queued_bytes = wrapping_sub p.out.queued_bytes (length job.rendered) };
    writer =
        if should_write p.writer && not (is_empty job.rendered)
        then (record_result stdout result now p.writer).1
        else p.writer;
    calls = p.calls;
    in_flight = none;
  }

  unfoldable pub submitted : Call ch × PrettyOutput ch → Pretty → Pretty
  submitted (c, o) p = record p { out = o; calls = c ∷ p.calls }

  unfoldable pub advanced : List (Call ch) × PrettyOutput ch → Pretty → Pretty
  advanced (cs, o) p = record p { out = o; calls = cs }

  unfoldable pub pretty_step : Option PrettyJob → PrettyEvent → Pretty → Pretty
  unfolding submitted advanced
  pretty_step busy (submit rendered summary) p = submitted (start_call ch rendered summary p.out) p
  pretty_step busy (advance_call i) p = advanced (advance_at ch i p.calls p.out) p
  pretty_step none take_job p = taken (ch.receive p.out.tx) p
  pretty_step (some job) (end_job result now) p = finish job result now p
  pretty_step busy event p = p

  -- A run of the destination.
  unfoldable pub pretty_run : List PrettyEvent → Pretty → Pretty
  pretty_run [] p = p
  pretty_run (e ∷ es) p = pretty_run es (pretty_step p.in_flight e p)
