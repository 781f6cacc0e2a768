-- ===== src/Sink/Pipeline/Acknowledged.antt =====
-- A batch that is acknowledged is stored, counted and forwarded; one that is not leaves no trace.
use otel_logger.Prelude.{ℕ, ◌≡◌, Option, some, List, [], ◌∷◌, ◌++◌, Result, ok, err}
use otel_logger.Channel.{Channel}
use otel_logger.Storage.Append.Rollback.{Holds}
use otel_logger.Sink.Pretty.{PrettyJob}
use otel_logger.Sink.Pipeline.{
  Parts, JsonlWriter, RecordError, SinkInner, acknowledge, notify_proxy,
}

module _ (p : Parts) (ch : Channel PrettyJob) where
  open p use {Batch, Error, Aggregator, ProxyRouter, to_vec}

  abbrev pub line_of : Result Error (List ℕ) → List ℕ
  line_of (ok line) = line ++ (10 ∷ [])
  line_of (err e) = []

  abbrev pub lines : List Batch → List ℕ
  lines [] = []
  lines (r ∷ rs) = line_of (to_vec r) ++ lines rs

  abbrev pub ingest_all : List Batch → Aggregator → Aggregator
  ingest_all [] g = g
  ingest_all (r ∷ rs) g = ingest_all rs (p.ingest r g).1

  abbrev pub notify_all : List Batch → Option ProxyRouter → Option ProxyRouter
  notify_all [] x = x
  notify_all (r ∷ rs) x = notify_all rs (notify_proxy p ch r x)

  -- From one state to another by batches that were acknowledged: the file holds their lines behind
  -- what it held, once a rollback that is pending is done.
  pub record Follows (acked : List Batch) (log : List ℕ) (s s' : SinkInner p ch) : Type 0 where
    pub writer : JsonlWriter
    pub file : s'.file ≡ some writer
    pub bytes : Holds (log ++ lines acked) writer
    pub totals : s'.aggregator ≡ ingest_all acked s.aggregator
    pub forwarded : s'.proxy ≡ notify_all acked s.proxy

  module _ (now : ℕ) (r : Batch) (log : List ℕ) (w : JsonlWriter) (s : SinkInner p ch)
      (held : Holds log w) where
    abbrev Outcome : Result (RecordError Error) Unit × SinkInner p ch → Type 0
    Outcome x = Follows (acknowledge p ch r x.0 []) log s x.1
