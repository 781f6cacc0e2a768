-- ===== src/Lib.antt =====
-- otel-logger receives OTLP telemetry over gRPC and HTTP, stores it as JSON lines, counts token
-- usage, prints a human-readable stream and forwards batches to upstream collectors. This library
-- models the parts of it that keep state, and states what makes each of them correct.
--
-- A request first takes a slot (Admission: src/admission.rs), so that at most so many are received
-- and stored at a time. The sink (src/sink.rs) then writes it as one line to the file of the day
-- (Storage: src/storage.rs), adds its usage to the totals (Aggregator: src/aggregator.rs), queues its
-- text for each human-readable output (Sink.Pretty: src/sink.rs) and notifies the proxy's router
-- (Forward.Router: src/forward/router.rs), which gives each route's worker (Forward.Worker:
-- src/forward/worker.rs) the entries of the services that the route names.
--
-- Files, and the code that they are about:
--   Storage/File       `std::fs::File`: its bytes, its position and the outcomes of the calls to come
--   Storage/Append     `TransactionalAppend` of src/storage.rs: `append`, `repair`
--   Storage/Tail       `recover_tail` of src/storage.rs
--   Storage/Daily      `AppendFile`, `DailyWriter` and `daily_path` of src/storage.rs
--   Admission          `ReceiveLimits::admit`, `WaitingGuard` and `ReceivePermit` of src/admission.rs
--   Admission/Slots    what the code relies on of `tokio::sync::Semaphore`
--   Sink/Health        `WriteHealth` of src/sink.rs
--   Sink/Pretty        `PrettyOutput` and `run_pretty_writer` of src/sink.rs
--   Sink/Pipeline      `Sink::record` of src/sink.rs, with one JSONL file, over what it calls
--   Sink/Retention     `cleanup_old_rotated_logs` and `daily_log_kind` of src/sink.rs
--   Format/Quote       `quote_for_pretty` of src/format.rs
--   Cli/Headers        the headers of the proxy's routes, in src/cli.rs
--   Http               the handlers of src/http.rs
--   ProtoJson          `NonFinite` of src/proto_json.rs
--   Diagnostics        `run` and `write_line` of src/diagnostics.rs
--   Channel            what the code relies on of `tokio::sync::mpsc`, and a list that has it
--   Otlp               the messages of `opentelemetry-proto`, and `string_attr` of src/aggregator.rs
--   Forward/Router     src/forward/router.rs, and the check of service names in src/cli.rs
--   Forward/Worker     src/forward/worker.rs
--   Forward/Client     `retry_delay` of src/forward/client.rs
--   Aggregator/Stats   `ModelStats` of src/aggregator.rs, over a type of 64-bit floats
--   Aggregator/Bucket  `Bucket` of src/aggregator.rs and its key
--   Aggregator/State   `AggregatorInner` of src/aggregator.rs: `record_into`, `subtract_from`,
--                      `move_codex_bucket_stats`
--   Aggregator/Claude  which source of Claude Code's usage counts, in src/aggregator.rs
--   Aggregator/Values  the values of attributes and data points, in src/aggregator.rs
--   Aggregator/Reports what Claude Code's logs and metrics report, in src/aggregator.rs
--   Aggregator/Codex   Codex's sessions, its log events and the usage that waits for a session
--   Aggregator/Ingest  `ingest_logs`, `ingest_traces` and `ingest_metrics` of src/aggregator.rs
--   Aggregator/Sound   the invariant that the requests keep
--   Aggregator/Models  full and bare names of Claude's models, in src/aggregator.rs
--   Prelude            lists, bytes, results, maps and tests that the others share
-- The children of a file hold the proofs about it, and a file Tests the runs at concrete inputs.
--
-- Calls that can fail read their outcome from a list that is an argument, so a theorem holds for every
-- sequence of failures. Tasks that run at once are a list of steps, one task's step after another's;
-- in Sink/Pretty a step is one access of what the tasks share. `find_end`, the backwards search of
-- `recover_tail`, runs on fuel; it is given one round more than the length of the file, and every
-- round but the last goes at least one byte back. Without fuel it answers an error that no call
-- gives. The attempts of `send_with_retry` are a recursion on their number. A `u64` and a `usize` are
-- native numbers, with wrap-around or saturation written out where the code has it. A path, a text and
-- a line are their bytes.
--
-- Not modelled: the servers and their settings (src/grpc.rs, src/server.rs, src/main.rs,
-- src/cli.rs but for the checks named above, src/config.rs), the layout of src/format.rs, the paths,
-- the transport of src/forward/client.rs, the branch of `JsonlWriter::write_line` for daily files, and
-- what the files above say is left out.
pub mod Prelude
pub mod Channel
pub mod Otlp
pub mod Storage
pub mod Sink
pub mod Aggregator
pub mod Forward
pub mod Admission
pub mod Format
pub mod Diagnostics
pub mod ProtoJson
pub mod Http
pub mod Cli
