-- ===== src/Aggregator/Codex/Events.antt =====
-- Codex's log events and spans, in src/aggregator.rs: sessions, efforts and finished responses.
use otel_logger.Prelude.{
  ℕ, Option, none, some, List, [], Bool, true, false, not, ◌&&◌, ◌||◌, ◌==◌, if◌then◌else◌,
  bytes_of, bytes_eq,
}
use otel_logger.Prelude.Maps.{lookup, upsert, insert, or_default}
use otel_logger.Otlp.{Text, KeyValue, string_attr, any_value, as_string, LogRecord}
use otel_logger.Aggregator.Stats.{Float, ModelStats, no_stats}
use otel_logger.Aggregator.Bucket.{Bucket, from_parts, non_empty, unknown}
use otel_logger.Aggregator.State.{
  AggregatorInner, CodexSession, CodexTokenSource, agent_codex, record_into,
}
use otel_logger.Aggregator.Values.{is_text, filled, u64_attr}
use otel_logger.Aggregator.Models.{is_empty_text}
use otel_logger.Aggregator.Codex.{
  provider_openai, extract_session_from_attrs, codex_provider_from_session,
  codex_effort_from_session, add_usage, codex_last_session, no_session, merge_codex_pending_sse,
  update_codex_session_with_last,
}

module _ (fl : Float) where
  open fl use {F64}

  abbrev pub Attrs : Type 0
  Attrs = List (KeyValue F64)

  -- `otel_event_matches`
  unfoldable pub otel_event_matches : Text → Attrs → Text → Bool
  otel_event_matches name attrs expected =
      bytes_eq name expected || is_text expected (string_attr attrs (bytes_of "event.name"))

  unfoldable pub extract_codex_conversation_starts : LogRecord F64 → Option CodexSession
  unfolding otel_event_matches
  extract_codex_conversation_starts log =
      let marker = bytes_of "codex.conversation_starts" in
      if is_text marker (as_string (any_value log.body))
        || otel_event_matches log.event_name log.attributes marker
      then extract_session_from_attrs log.attributes
      else none

  -- The effort of a service's last session, for telemetry with no conversation.
  unfoldable pub merge_legacy : Text → CodexSession → AggregatorInner fl → Bool × AggregatorInner fl
  merge_legacy effort last g =
      if is_empty_text last.conversation_id
      then merge_codex_pending_sse fl last.provider last.model [] effort last.provider_confirmed g
      else (false, g)

  unfoldable pub update_codex_last_effort :
      Text → Text → AggregatorInner fl → Bool × AggregatorInner fl
  unfolding merge_legacy
  update_codex_last_effort service effort g =
      let last = or_default no_session (codex_last_session fl g service) in
      if bytes_eq last.effort effort
      then (false, g)
      else merge_legacy effort last (record g {
        codex_last_sessions =
            insert bytes_eq service (record last { effort = effort }) g.codex_last_sessions;
      })

  -- The session of a conversation with the effort of a span.
  unfoldable pub session_with_effort : Text → Text → Text → Option CodexSession → CodexSession
  session_with_effort cid model effort none = record {
    conversation_id = cid;
    provider = provider_openai;
    model = model;
    effort = effort;
    provider_confirmed = false;
  }
  session_with_effort cid model effort (some session) = record session { effort = effort }

  -- `is_none_or(|last| last.conversation_id == session.conversation_id)`
  unfoldable pub is_same_conversation : Text → Option CodexSession → Bool
  is_same_conversation cid none = true
  is_same_conversation cid (some last) = bytes_eq last.conversation_id cid

  unfoldable pub update_effort_of :
      Text → Attrs → Text → Option Text → AggregatorInner fl → Bool × AggregatorInner fl
  update_effort_of service attrs effort none g = update_codex_last_effort service effort g
  update_effort_of service attrs effort (some cid) g =
      let session =
        session_with_effort cid (or_default [] (string_attr attrs (bytes_of "model"))) effort
          (lookup bytes_eq cid g.codex_sessions) in
      update_codex_session_with_last fl service session
        (is_same_conversation session.conversation_id (codex_last_session fl g service)) g

  unfoldable pub update_if_effort :
      Text → Attrs → Option Text → AggregatorInner fl → Bool × AggregatorInner fl
  update_if_effort service attrs none g = (false, g)
  update_if_effort service attrs (some effort) g =
      update_effort_of service attrs effort
        (filled (string_attr attrs (bytes_of "conversation.id"))) g

  -- `update_codex_effort_from_request_attrs`; an effort that is empty is as none.
  unfoldable pub update_codex_effort_from_request_attrs :
      Text → Attrs → AggregatorInner fl → Bool × AggregatorInner fl
  update_codex_effort_from_request_attrs service attrs g =
      update_if_effort service attrs
        (filled (string_attr attrs (bytes_of "codex.request.reasoning_effort"))) g

  pub record CodexSseExtraction : Type 0 where
    pub bucket : Bucket
    pub stats : ModelStats fl
    pub pending_conversation_id : Option Text

  unfoldable pub codex_sse_stats : Attrs → ModelStats fl
  codex_sse_stats attrs = record (no_stats fl) {
    input_tokens = u64_attr fl attrs (bytes_of "input_token_count");
    output_tokens = u64_attr fl attrs (bytes_of "output_token_count");
    cache_read_tokens = u64_attr fl attrs (bytes_of "cached_token_count");
    cache_creation_tokens = u64_attr fl attrs (bytes_of "cache_write_token_count");
    reasoning_output_tokens = u64_attr fl attrs (bytes_of "reasoning_token_count");
  }

  -- Nothing but input, and that all for tools, or nothing.
  unfoldable pub is_no_usage : ModelStats fl → ℕ → Bool
  is_no_usage s tools =
      (s.input_tokens == tools || s.input_tokens == 0)
      && ((s.output_tokens == 0)
          && ((s.cache_read_tokens == 0)
              && ((s.cache_creation_tokens == 0) && (s.reasoning_output_tokens == 0))))

  unfoldable pub is_response_completed : Attrs → Bool
  is_response_completed attrs =
      is_text (bytes_of "codex.sse_event") (string_attr attrs (bytes_of "event.name"))
      && is_text (bytes_of "response.completed") (string_attr attrs (bytes_of "event.kind"))

  -- `Option::or_else`
  unfoldable pub first_of : Option Text → Option Text → Option Text
  first_of none other = other
  first_of (some s) other = some s

  unfoldable pub model_of_session : Option CodexSession → Option Text
  model_of_session none = none
  model_of_session (some s) = some s.model

  unfoldable pub is_provisional : Option CodexSession → Bool
  is_provisional none = true
  is_provisional (some s) = not s.provider_confirmed

  -- The extraction, for the conversation that the event names and the session that it has.
  unfoldable pub sse_of : Attrs → Option Text → Option CodexSession → CodexSseExtraction
  sse_of attrs conversation session =
      let model =
        first_of (filled (string_attr attrs (bytes_of "model")))
          (first_of (filled (string_attr attrs (bytes_of "slug"))) (model_of_session session)) in
      let effort =
        or_default (codex_effort_from_session session)
          (filled (string_attr attrs (bytes_of "model_reasoning_effort"))) in
      let bucket = from_parts (codex_provider_from_session session) (or_default [] model) effort in
      record {
        bucket = bucket;
        stats = codex_sse_stats attrs;
        pending_conversation_id =
            if is_provisional session || bytes_eq bucket.effort unknown then conversation else none;
      }

  unfoldable pub session_for : Text → Option Text → AggregatorInner fl → Option CodexSession
  session_for service none g = codex_last_session fl g service
  session_for service (some cid) g = lookup bytes_eq cid g.codex_sessions

  unfoldable pub extract_codex_sse_response_completed :
      Text → LogRecord F64 → AggregatorInner fl → Option CodexSseExtraction
  extract_codex_sse_response_completed service log g =
      let attrs = log.attributes in
      let tools = u64_attr fl attrs (bytes_of "tool_token_count") in
      let conversation = filled (string_attr attrs (bytes_of "conversation.id")) in
      if not (is_response_completed attrs) || is_no_usage (codex_sse_stats attrs) tools
      then none
      else some (sse_of attrs conversation (session_for service conversation g))

  -- What an extraction does to the totals, unless the metrics count the model.
  unfoldable pub is_metrics : Option CodexTokenSource → Bool
  is_metrics (some CodexTokenSource.metrics) = true
  is_metrics (some CodexTokenSource.logs) = false
  is_metrics none = false

  unfoldable pub is_logs : Option CodexTokenSource → Bool
  is_logs (some CodexTokenSource.logs) = true
  is_logs (some CodexTokenSource.metrics) = false
  is_logs none = false

  -- `codex_pending_sse.entry(cid).or_default().entry(bucket).or_default().add(stats)`
  unfoldable pub note_pending :
      Option Text → Bucket → ModelStats fl → AggregatorInner fl → AggregatorInner fl
  note_pending none b s g = g
  note_pending (some cid) b s g = record g {
    codex_pending_sse = upsert bytes_eq cid [] (add_usage fl b s) g.codex_pending_sse;
  }

  unfoldable pub set_token_source :
      Text → CodexTokenSource → AggregatorInner fl → AggregatorInner fl
  set_token_source model source g = record g {
    codex_token_sources = insert bytes_eq (non_empty model) source g.codex_token_sources;
  }

  unfoldable pub record_sse :
      ℕ → Option CodexSseExtraction → AggregatorInner fl → ℕ × AggregatorInner fl
  record_sse now none g = (0, g)
  record_sse now (some parsed) g =
      if is_metrics (lookup bytes_eq (non_empty parsed.bucket.model) g.codex_token_sources)
      then (0, g)
      else (
        1,
        set_token_source parsed.bucket.model CodexTokenSource.logs (
            note_pending parsed.pending_conversation_id parsed.bucket parsed.stats
              (record_into fl now agent_codex parsed.bucket parsed.stats g)),
      )
