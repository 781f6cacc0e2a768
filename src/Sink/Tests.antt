-- ===== src/Sink/Tests.antt =====
-- Runs of the failure reports and of a destination's queue.
use otel_logger.Prelude.{
  ℕ, ◌+◌, ◌≤◌, ◌≡◌, refl, none, some, List, [], ◌∷◌, ◌++◌, Bool, true, false, length, bytes_of,
  arith,
}
use otel_logger.Prelude.{ok}
use otel_logger.Sink.Pipeline.{
  Parts, JsonlWriter, write_line, persisted, SinkInner, SinkEvent, arrive, close, sink_run,
  record_batch, record_admitted, persist_to, on_persisted, write_jsonl, write_encoded, acknowledge,
}
use otel_logger.Storage.File.{pass, fail, metadata_len, set_len, seek, write_all, flush}
use otel_logger.Storage.Append.{
  append, repair, truncate, append_start, undo, write_and_flush, write_from, on_written, roll_back,
  cleared, set_rollback,
}
use otel_logger.Channel.{queues}
use otel_logger.Sink.Health.{Write, observe, healthy, seconds}
use otel_logger.Sink.Health.Outage.{observe-Alternates, observe-Accurate, Alternates, Accurate}
use otel_logger.Sink.Pretty.{
  PrettyJob, PrettyOutput, enqueue, settle, choose, try_enqueue, queue_full, PrettyEvent, submit,
  advance_call, take_job, end_job, written, Pretty, pretty_run, pretty_step, submitted, advanced,
  start_call, advance_at, advance, sent_or, taken, finish, report_drop, report_behind, wrapping_add,
}
use otel_logger.Sink.Pretty.Budget.{
  enqueue_queued, enqueue_dropped, pretty_run-IsWithin, IsWithin, AreHeld, Why,
}

abbrev write_of : Bool → ℕ → Write
write_of good at = record { succeeded = good; at = seconds at }

-- An outage of twenty minutes.
abbrev writes : List Write
writes =
    write_of false 10
    ∷ write_of false 20
    ∷ write_of true 30
    ∷ write_of false 700
    ∷ write_of true 1300
    ∷ []

observe-Alternates_example : Alternates false (observe healthy writes).0
observe-Alternates_example = observe-Alternates writes

observe-Accurate_example : Accurate 0 0 0 0 writes (observe healthy writes).0
observe-Accurate_example = observe-Accurate writes (omega arith)

abbrev output_of : ℕ → PrettyOutput (queues {A = PrettyJob})
output_of cap = record {
  tx = record { items = []; cap = cap; shut = false };
  queued_bytes = 0;
  max_queued_bytes = 10;
  dropped = 0;
  writer_stop_reported = false;
  color = false;
}

abbrev text : List ℕ
text = bytes_of "hello"

abbrev hello : PrettyJob
hello = record { rendered = text; want_summary = true; sync = false }

queued : (enqueue queues text true (output_of 2)).0 ≡ none
unfolding enqueue settle choose try_enqueue
queued = refl

enqueue_queued_example :
    ((enqueue queues text true (output_of 2)).1.tx.items ≡ [] ++ (hello ∷ []))
    × ((enqueue queues text true (output_of 2)).1.queued_bytes ≡ 0 + length text)
    × (0 + length text ≤ 10)
    × ((enqueue queues text true (output_of 2)).1.dropped ≡ 0)
enqueue_queued_example =
    enqueue_queued queues (output_of 2) text true (omega arith) (omega arith) (omega arith) queued

dropped : (enqueue queues text true (output_of 0)).0 ≡ some queue_full
unfolding enqueue settle choose try_enqueue
dropped = refl

enqueue_dropped_example :
    ((enqueue queues text true (output_of 0)).1.tx ≡ (output_of 0).tx)
    × ((enqueue queues text true (output_of 0)).1.queued_bytes ≡ 0)
    × ((enqueue queues text true (output_of 0)).1.dropped ≡ wrapping_add 0 1)
    × Why queues (output_of 0) text true (omega arith) (omega arith) (omega arith) queue_full
enqueue_dropped_example =
    enqueue_dropped queues (output_of 0) text true (omega arith) (omega arith) (omega arith)
      queue_full dropped

abbrev pretty : Pretty (queues {A = PrettyJob}) true
pretty = record {
  out = output_of 2;
  calls = [];
  writer = record { broken_pipe_seen = false; health = healthy };
  in_flight = none;
}

-- Three calls whose accesses interleave: while the third, that finds no room in the bytes, has its
-- bytes counted, the counter is above the limit.
abbrev events : List PrettyEvent
events =
    submit text true
    ∷ submit text false
    ∷ advance_call 1
    ∷ submit text false
    ∷ advance_call 2
    ∷ advance_call 0
    ∷ advance_call 1
    ∷ take_job
    ∷ advance_call 0
    ∷ end_job written 5
    ∷ advance_call 1
    ∷ take_job
    ∷ []

pretty-IsWithin : IsWithin queues true pretty
pretty-IsWithin = record { counter = refl; room = omega arith; word = omega arith }

events_held : AreHeld queues true events pretty
unfolding pretty_step submitted advanced start_call advance_at advance sent_or try_enqueue taken
    finish report_drop report_behind
events_held = (omega arith, (omega arith, (omega arith, tt)))

pretty_run-IsWithin_example : IsWithin queues true (pretty_run queues true events pretty)
pretty_run-IsWithin_example =
    pretty_run-IsWithin queues true events pretty events_held pretty-IsWithin

over_limit :
    (pretty_run queues true
      (submit text true ∷ submit text false ∷ submit text false ∷ [])
      pretty).out.queued_bytes
    ≡ 15
unfolding pretty_run pretty_step submitted start_call
over_limit = refl

-- A batch is a text, the totals are its bytes, and the router keeps what it was given.
abbrev parts : Parts
parts = record {
  Batch = List ℕ;
  Error = ℕ;
  Aggregator = ℕ;
  ProxyRouter = List (List ℕ);
  to_vec = λ b. ok b;
  ingest = λ b n. (length b, n + length b);
  render = λ b color. b;
  notify = λ b seen. b ∷ seen;
}

-- The first write stops after two bytes, and its rollback fails too.
abbrev failing : JsonlWriter
failing = record {
  file = record { bytes = []; cursor = 0; durable = []; faults = pass ∷ fail 2 ∷ fail 0 ∷ [] };
  rollback = none;
}

abbrev sink : SinkInner parts (queues {A = PrettyJob})
sink = record {
  summary_enabled = true;
  admission = true;
  jsonl_health = healthy;
  file = some failing;
  stdout = some (output_of 2);
  pretty_log = none;
  aggregator = 0;
  proxy = some [];
}

-- The first batch comes again, and another after the shutdown.
abbrev arrivals : List (SinkEvent parts (queues {A = PrettyJob}))
arrivals = arrive 1 text ∷ arrive 2 text ∷ close ∷ arrive 3 text ∷ []

-- Only the second arrival is acknowledged.
sink_acknowledged : (sink_run parts queues arrivals sink).0 ≡ text ∷ []
unfolding sink_run record_batch record_admitted persist_to on_persisted write_jsonl write_encoded
    acknowledge write_line persisted append repair undo append_start metadata_len write_from
    write_and_flush on_written roll_back cleared set_rollback truncate set_len seek write_all flush
sink_acknowledged = refl
