-- ===== src/Sink/Pipeline.antt =====
-- `Sink::record` of src/sink.rs, with one JSONL file: a batch is persisted, counted, shown and
-- forwarded, in this order.
pub mod Acknowledged
use otel_logger.Prelude.{
  ℕ, Option, none, some, List, [], ◌∷◌, ◌++◌, Bool, true, false, ◌&&◌, ltb, if◌then◌else◌, Result,
  ok, err,
}
use otel_logger.Channel.{Channel}
use otel_logger.Storage.File.{IoError}
use otel_logger.Storage.Append.{TransactionalAppend}
use otel_logger.Storage.Append as Append
use otel_logger.Sink.Health.{WriteHealth, on_failure, on_success}
use otel_logger.Sink.Pretty.{PrettyJob, PrettyOutput, enqueue}

-- What the sink calls: the serializer, the usage totals, the renderer and the router.
pub record Parts : Type 1 where
  pub Batch : Type 0
  pub Error : Type 0
  pub Aggregator : Type 0
  pub ProxyRouter : Type 0
  pub to_vec : Batch → Result Error (List ℕ)
  pub ingest : Batch → Aggregator → ℕ × Aggregator
  pub render : Batch → Bool → List ℕ
  pub notify : Batch → ProxyRouter → ProxyRouter

-- `JsonlWriter::File`: the lines go to one file.
abbrev pub JsonlWriter : Type 0
JsonlWriter = TransactionalAppend

-- `JsonlWriter::write_line`, for the file.
unfoldable pub write_line : List ℕ → JsonlWriter → Result IoError Unit × JsonlWriter
write_line line w = Append.append line w

-- What keeps a batch from being stored: its serializer, or a call on the file.
pub data PersistError (E : Type 0) : Type 0 where
  encode : E → PersistError E
  write : IoError → PersistError E

pub data RecordError (E : Type 0) : Type 0 where
  shutting_down : RecordError E
  persist : PersistError E → RecordError E

module _ (p : Parts) (ch : Channel PrettyJob) where
  open p use {Batch, Error, Aggregator, ProxyRouter, to_vec}

  pub record SinkInner : Type 0 where
    pub summary_enabled : Bool
    pub admission : Bool
    pub jsonl_health : WriteHealth
    pub file : Option JsonlWriter
    pub stdout : Option (PrettyOutput ch)
    pub pretty_log : Option (PrettyOutput ch)
    pub aggregator : Aggregator
    pub proxy : Option ProxyRouter

  unfoldable pub persisted : Result IoError Unit → Result (PersistError Error) Unit
  persisted (ok _) = ok tt
  persisted (err e) = err (write e)

  -- `line.push(b'\n')`, and the write unless the serializer fails.
  unfoldable pub write_encoded :
      Result Error (List ℕ) → JsonlWriter → Result (PersistError Error) Unit × JsonlWriter
  unfolding persisted
  write_encoded (ok line) w = let r = write_line (line ++ (10 ∷ [])) w in (persisted r.0, r.1)
  write_encoded (err e) w = (err (encode e), w)

  unfoldable pub write_jsonl : Batch → JsonlWriter → Result (PersistError Error) Unit × JsonlWriter
  unfolding write_encoded
  write_jsonl r w = write_encoded (to_vec r) w

  unfoldable pub note_health : Result (PersistError Error) Unit → ℕ → WriteHealth → WriteHealth
  note_health (ok _) now h = (on_success h now).1
  note_health (err _) now h = (on_failure h now).1

  unfoldable pub queue_output : Batch → Bool → Option (PrettyOutput ch) → Option (PrettyOutput ch)
  queue_output r want_summary none = none
  queue_output r want_summary (some o) = some (enqueue ch (p.render r o.color) want_summary o).1

  unfoldable pub queue_pretty : Batch → Bool → SinkInner → SinkInner
  queue_pretty r want_summary s = record s {
    stdout = queue_output r want_summary s.stdout;
    pretty_log = queue_output r want_summary s.pretty_log;
  }

  unfoldable pub notify_proxy : Batch → Option ProxyRouter → Option ProxyRouter
  notify_proxy r none = none
  notify_proxy r (some router) = some (p.notify r router)

  -- `record_admitted` behind the write.
  unfoldable pub after_write : Batch → SinkInner → SinkInner
  after_write r s =
      let ingested = p.ingest r s.aggregator in
      let want_summary = ltb 0 ingested.0 && s.summary_enabled in
      let queued = queue_pretty r want_summary (record s { aggregator = ingested.1 }) in
      record queued { proxy = notify_proxy r s.proxy }

  -- `result?`
  unfoldable pub on_persisted :
      Result (PersistError Error) Unit
      → Batch
      → SinkInner
      → Result (RecordError Error) Unit × SinkInner
  on_persisted (ok _) r s = (ok tt, after_write r s)
  on_persisted (err e) r s = (err (persist e), s)

  unfoldable pub persist_to :
      Option JsonlWriter → ℕ → Batch → SinkInner → Result (RecordError Error) Unit × SinkInner
  persist_to none now r s = (ok tt, after_write r s)
  persist_to (some w) now r s =
      let written = write_jsonl r w in
      on_persisted written.0 r (record s {
        file = some written.1;
        jsonl_health = note_health written.0 now s.jsonl_health;
      })

  unfoldable pub record_admitted :
      ℕ → Batch → SinkInner → Result (RecordError Error) Unit × SinkInner
  record_admitted now r s = persist_to s.file now r s

  -- `record_with_permit`, with the test of the admission.
  unfoldable pub record_batch : ℕ → Batch → SinkInner → Result (RecordError Error) Unit × SinkInner
  record_batch now r s = if s.admission then record_admitted now r s else (err shutting_down, s)

  -- What happens at a sink: a batch arrives at an instant, or `shutdown` closes the admission.
  pub data SinkEvent : Type 0 where
    arrive : ℕ → Batch → SinkEvent
    close : SinkEvent

  unfoldable pub acknowledge : Batch → Result (RecordError Error) Unit → List Batch → List Batch
  acknowledge r (ok _) rs = r ∷ rs
  acknowledge r (err _) rs = rs

  -- A run, with the batches that were answered Ok.
  unfoldable pub sink_run : List SinkEvent → SinkInner → List Batch × SinkInner
  sink_run [] s = ([], s)
  sink_run (arrive now r ∷ es) s =
      let recorded = record_batch now r s in
      let rest = sink_run es recorded.1 in (acknowledge r recorded.0 rest.0, rest.1)
  sink_run (close ∷ es) s = sink_run es (record s { admission = false })
