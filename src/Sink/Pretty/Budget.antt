-- ===== src/Sink/Pretty/Budget.antt =====
-- The queue of a destination stays within its bytes, and what is not queued is counted as dropped.
use otel_logger.Prelude.{
  ℕ, ltb, saturating_add, Bool-cases, ◌+◌, ◌^◌, ◌≤◌, ◌<◌, ◌≡◌, refl, ap, Option, none, some, List,
  [], ◌∷◌, ◌++◌, Bool, true, false, length, total, arith, Option-cases, inl, inr,
}
use otel_logger.Channel.{Channel}
use otel_logger.Sink.Pretty.{
  PrettyJob, DropReason, writer_stopped, queue_full, byte_budget, PrettyOutput, enqueue, choose,
  settle, try_enqueue, report_drop, report_stopped, report_behind, wrapping_add, PrettyEvent,
  submit, advance_call, take_job, end_job, Pretty, pretty_step, pretty_run, taken, finish,
  submitted, advanced, WriteResult, start_call,
}
use otel_logger.Sink.Pretty.Calls.{
  job_bytes, TrySend-cases, pending, admitted, total-admitted, advance_at-Moves,
}

-- A text has at most `isize::MAX` bytes, and so has a destination's limit.
abbrev pub isize_bound : ℕ
isize_bound = 2 ^ 63

module _ (ch : Channel PrettyJob) where
  open ch use {contents, capacity, is_closed, try_send}

  module _ (o : PrettyOutput ch) (text : List ℕ) (summary : Bool)
      (fits : o.queued_bytes ≤ o.max_queued_bytes) (limit : o.max_queued_bytes < isize_bound)
      (size : length text < isize_bound) where
    abbrev job : PrettyJob
    job = record { rendered = text; want_summary = summary; sync = false }

    -- Why a batch is dropped: the writer has stopped; else the batch does not fit in the bytes left;
    -- else the queue is full.
    abbrev pub Why : DropReason → Type 0
    Why writer_stopped = is_closed o.tx ≡ true
    Why byte_budget = (is_closed o.tx ≡ false) × (o.max_queued_bytes < o.queued_bytes + length text)
    Why queue_full =
        (is_closed o.tx ≡ false)
        × (o.queued_bytes + length text ≤ o.max_queued_bytes)
        × (capacity o.tx ≤ length (contents o.tx))

    -- A batch that is queued stands last, its bytes are counted, and they fit.
    pub enqueue_queued :
        (enqueue ch text summary o).0 ≡ none
        → (contents (enqueue ch text summary o).1.tx ≡ contents o.tx ++ (job ∷ []))
          × ((enqueue ch text summary o).1.queued_bytes ≡ o.queued_bytes + length text)
          × (o.queued_bytes + length text ≤ o.max_queued_bytes)
          × ((enqueue ch text summary o).1.dropped ≡ o.dropped)
    unfolding enqueue choose settle try_enqueue
    enqueue_queued e = elim (TrySend-cases (try_send job o.tx)) [
      | inl (c, s) ↦ ground (arith, ch.sent_lem job o.tx c s)
      | inr (inl f) ↦ absurd (ground arith)
      | inr (inr f) ↦ absurd (ground arith)
    ]

    -- A batch that is dropped leaves the queue and its bytes as they were, is counted, and is
    -- dropped for the reason that is reported.
    pub enqueue_dropped :
        (reason : DropReason)
        → (enqueue ch text summary o).0 ≡ some reason
        → ((enqueue ch text summary o).1.tx ≡ o.tx)
          × ((enqueue ch text summary o).1.queued_bytes ≡ o.queued_bytes)
          × ((enqueue ch text summary o).1.dropped ≡ wrapping_add o.dropped 1)
          × Why reason
    unfolding enqueue choose settle try_enqueue report_drop report_stopped report_behind
    enqueue_dropped reason e = elim (TrySend-cases (try_send job o.tx)) [
      | inl (c, s) ↦ ground (arith)
      | inr (inl f) ↦ ground (arith, ch.full_lem job o.tx f)
      | inr (inr f) ↦ ground (arith, ch.closed_lem job o.tx f)
    ]

  abbrev pub flying : Option PrettyJob → ℕ
  flying none = 0
  flying (some j) = job_bytes j

  module _ (stdout : Bool) where
    -- The counter is the bytes of the jobs in the queue, of the one being written and of the calls
    -- that have them counted; the first two, with the calls that may still send, are within the
    -- limit.
    pub record IsWithin (p : Pretty ch stdout) : Type 0 where
      pub counter :
          p.out.queued_bytes
          ≡ total job_bytes (contents p.out.tx) + flying p.in_flight + total (pending ch) p.calls
      pub room :
          total job_bytes (contents p.out.tx) + flying p.in_flight + total (admitted ch) p.calls
          ≤ p.out.max_queued_bytes
      pub word : p.out.queued_bytes < 2 ^ 64

    -- At each call the machine can hold its text beside those that are counted.
    abbrev pub AreHeld : List PrettyEvent → Pretty ch stdout → Type 0
    AreHeld [] p = Unit
    AreHeld (submit text summary ∷ es) p =
        (p.out.queued_bytes + length text < 2 ^ 64)
        × AreHeld es (pretty_step ch stdout p.in_flight (submit text summary) p)
    AreHeld (e ∷ es) p = AreHeld es (pretty_step ch stdout p.in_flight e p)

    submit-IsWithin :
        (busy : Option PrettyJob) (text : List ℕ) (summary : Bool) (p : Pretty ch stdout)
        → p.out.queued_bytes + length text < 2 ^ 64
        → IsWithin p
        → IsWithin (pretty_step ch stdout busy (submit text summary) p)
    unfolding pretty_step submitted start_call
    submit-IsWithin busy text summary p size h =
        let over = ltb p.out.max_queued_bytes (saturating_add p.out.queued_bytes (length text)) in
        elim (Bool-cases over) [
          | inl e ↦ record {
            counter = omega (arith, h.counter, size);
            room = rw e (omega (arith, h.room));
            word = omega (arith, size);
          }
          | inr e ↦
              let fits : p.out.queued_bytes + length text ≤ p.out.max_queued_bytes =
                ground (arith, size) in
              record {
                counter = omega (arith, h.counter, size);
                room = rw e (omega (arith, h.counter, fits, total-admitted ch p.calls));
                word = omega (arith, size);
              }
        ]

    advanced-IsWithin :
        (busy : Option PrettyJob) (i : ℕ) (p : Pretty ch stdout)
        → IsWithin p
        → IsWithin (pretty_step ch stdout busy (advance_call i) p)
    unfolding pretty_step advanced
    advanced-IsWithin busy i p h =
        let m = advance_at-Moves ch i p.calls p.out (omega (arith, h.counter)) h.word in
        record {
          counter = omega (arith, m.balance, h.counter);
          room = omega (arith, m.room, h.room, m.same_limit);
          word = omega (arith, m.less, h.word);
        }

    taken-IsWithin :
        (p : Pretty ch stdout)
        → p.in_flight ≡ none
        → IsWithin p
        → IsWithin (taken ch stdout (ch.receive p.out.tx) p)
    unfolding taken
    taken-IsWithin p idle h = elim (Option-cases (ch.receive p.out.tx)) [
      | inl e ↦ rw e h
      | inr ((j, tx), e) ↦
          let (c, k, s) = ch.received j p.out.tx tx e in
          let sum = ap (total job_bytes) c in
          let none_yet = ap flying idle in
          rw e (record {
            counter = omega (arith, h.counter, sum, none_yet);
            room = omega (arith, h.room, sum, none_yet);
            word = h.word;
          })
    ]

    finish-IsWithin :
        (job : PrettyJob) (result : WriteResult) (now : ℕ) (p : Pretty ch stdout)
        → p.in_flight ≡ some job
        → IsWithin p
        → IsWithin (finish ch stdout job result now p)
    unfolding finish
    finish-IsWithin job result now p b h =
        let mine = ap flying b in
        record {
          counter = omega (arith, h.counter, h.word, mine);
          room = omega (arith, h.room, mine);
          word = omega (arith, h.counter, h.word, mine);
        }

    step-IsWithin :
        (busy : Option PrettyJob) (e : PrettyEvent) (es : List PrettyEvent) (p : Pretty ch stdout)
        → p.in_flight ≡ busy
        → AreHeld (e ∷ es) p
        → IsWithin p
        → IsWithin (pretty_step ch stdout busy e p)
    unfolding pretty_step
    step-IsWithin busy (submit text summary) es p b size h =
        unfold pretty_step in submit-IsWithin busy text summary p size.0 h
    step-IsWithin busy (advance_call i) es p b size h =
        unfold pretty_step in advanced-IsWithin busy i p h
    step-IsWithin none take_job es p b size h = taken-IsWithin p b h
    step-IsWithin (some j) take_job es p b size h = h
    step-IsWithin none (end_job result now) es p b size h = h
    step-IsWithin (some j) (end_job result now) es p b size h = finish-IsWithin j result now p b h

    -- From a destination in order, in every run of handlers' calls of `enqueue`, whose accesses
    -- interleave in any way with each other and with the writer's, while the texts that are counted
    -- at once have less than 2 ^ 64 bytes: the counter is the bytes in the queue, in the writer's
    -- hands and of the calls that have counted theirs, and the bytes in the queue and in the
    -- writer's hands, with those that a call may still send, are never more than the limit.
    pub pretty_run-IsWithin :
        (es : List PrettyEvent) (p : Pretty ch stdout)
        → AreHeld es p
        → IsWithin p
        → IsWithin (pretty_run ch stdout es p)
    unfolding pretty_run
    pretty_run-IsWithin [] p sized h = h
    pretty_run-IsWithin (submit text summary ∷ es) p sized h =
        pretty_run-IsWithin es _ sized.1
          (step-IsWithin p.in_flight (submit text summary) es p refl sized h)
    pretty_run-IsWithin (advance_call i ∷ es) p sized h =
        pretty_run-IsWithin es _ sized
          (step-IsWithin p.in_flight (advance_call i) es p refl sized h)
    pretty_run-IsWithin (take_job ∷ es) p sized h =
        pretty_run-IsWithin es _ sized (step-IsWithin p.in_flight take_job es p refl sized h)
    pretty_run-IsWithin (end_job result now ∷ es) p sized h =
        pretty_run-IsWithin es _ sized
          (step-IsWithin p.in_flight (end_job result now) es p refl sized h)
