-- ===== src/Aggregator/Sound/Spans.antt =====
-- Spans report no usage: they tell of sessions, and keep the aggregator sound.
use otel_logger.Prelude.{
  ◌+◌, ◌≡◌, refl, Option, none, some, List, [], ◌∷◌, bytes_of, bytes_eq, Bool-cases, inl, inr,
  arith, total,
}
use otel_logger.Prelude.Maps.{lookup, insert, or_default}
use otel_logger.Otlp.{Text, KeyValue, string_attr, Span, SpanEvent, TraceRequest, Entry}
use otel_logger.Aggregator.Stats.{Float}
use otel_logger.Aggregator.State.{AggregatorInner, CodexSession}
use otel_logger.Aggregator.Values.{filled, is_codex_service, service_name}
use otel_logger.Aggregator.Models.{is_empty_text}
use otel_logger.Aggregator.Reports.{each}
use otel_logger.Aggregator.Codex.{no_session, codex_last_session, extract_session_from_attrs}
use otel_logger.Aggregator.Codex.Events.{
  otel_event_matches, merge_legacy, update_codex_last_effort, session_with_effort,
  is_same_conversation, update_effort_of, update_if_effort, update_codex_effort_from_request_attrs,
}
use otel_logger.Aggregator.Ingest.{
  skip, Handler, with_session, ingest_span_event, span_effort, ingest_span, has_codex,
  ingest_resource_spans, ingest_traces,
}
use otel_logger.Aggregator.Sound.{Budget, IsSound, IsSound-more}
use otel_logger.Aggregator.Sound.Sessions.{
  merge_codex_pending_sse-IsSound, update_codex_session_with_last-IsSound,
}
use otel_logger.Aggregator.Sound.Handlers.{
  Keeps, skip-Keeps, Keeps-more, both-Keeps, each-Keeps, if-Keeps,
}
use otel_logger.Aggregator.Sound.Logs.{with_session-Keeps}

module _ (fl : Float) where
  open fl use {F64}

  abbrev none_reported : Budget
  none_reported c = 0

  merge_legacy-IsSound :
      (n : Budget) (effort : Text) (last : CodexSession) (g : AggregatorInner fl)
      → IsSound fl n g
      → IsSound fl n (merge_legacy fl effort last g).1
  unfolding merge_legacy
  merge_legacy-IsSound n effort last g h = elim (Bool-cases (is_empty_text last.conversation_id)) [
    | inl e ↦ rw e (
        merge_codex_pending_sse-IsSound fl n g h last.provider last.model [] effort
          last.provider_confirmed)
    | inr e ↦ rw e h
  ]

  update_codex_last_effort-IsSound :
      (n : Budget) (service effort : Text) (g : AggregatorInner fl)
      → IsSound fl n g
      → IsSound fl n (update_codex_last_effort fl service effort g).1
  unfolding update_codex_last_effort
  update_codex_last_effort-IsSound n service effort g h =
      let last = or_default no_session (codex_last_session fl g service) in
      let g' = record g {
        codex_last_sessions =
            insert bytes_eq service (record last { effort = effort }) g.codex_last_sessions;
      } in
      elim (Bool-cases (bytes_eq last.effort effort)) [
        | inl e ↦ rw e h
        | inr e ↦ rw e (
            merge_legacy-IsSound n effort last g' (record {
              claude = h.claude;
              codex = h.codex;
              claude_le = h.claude_le;
              codex_le = h.codex_le;
              is_named = h.is_named;
              distinct = h.distinct;
            }))
      ]

  update_effort_of-IsSound :
      (n : Budget) (service : Text) (attrs : List (KeyValue F64)) (effort : Text)
      (cid : Option Text) (g : AggregatorInner fl)
      → IsSound fl n g
      → IsSound fl n (update_effort_of fl service attrs effort cid g).1
  unfolding update_effort_of
  update_effort_of-IsSound n service attrs effort none g h =
      update_codex_last_effort-IsSound n service effort g h
  update_effort_of-IsSound n service attrs effort (some cid) g h =
      let session =
        session_with_effort fl cid (or_default [] (string_attr attrs (bytes_of "model"))) effort
          (lookup bytes_eq cid g.codex_sessions) in
      update_codex_session_with_last-IsSound fl n service session
        (is_same_conversation fl session.conversation_id (codex_last_session fl g service)) g h

  update_if_effort-IsSound :
      (n : Budget) (service : Text) (attrs : List (KeyValue F64)) (effort : Option Text)
      (g : AggregatorInner fl)
      → IsSound fl n g
      → IsSound fl n (update_if_effort fl service attrs effort g).1
  unfolding update_if_effort
  update_if_effort-IsSound n service attrs none g h = h
  update_if_effort-IsSound n service attrs (some effort) g h =
      update_effort_of-IsSound n service attrs effort
        (filled (string_attr attrs (bytes_of "conversation.id"))) g h

  span_effort-Keeps :
      (service : Text) (span : Span F64) → Keeps fl none_reported (span_effort fl service span)
  unfolding span_effort update_codex_effort_from_request_attrs
  span_effort-Keeps service span n g fits h =
      elim (Bool-cases (bytes_eq span.name (bytes_of "handle_responses"))) [
        | inl e ↦ rw e (
            IsSound-more fl n (λ c. n c + 0) _ (λ c. omega arith)
              (update_if_effort-IsSound n service span.attributes
                (filled (string_attr span.attributes (bytes_of "codex.request.reasoning_effort"))) g
                h))
        | inr e ↦ rw e (skip-Keeps fl none_reported n g fits h)
      ]

  ingest_span_event-Keeps :
      (service : Text) (ev : SpanEvent F64)
      → Keeps fl none_reported (ingest_span_event fl service ev)
  unfolding ingest_span_event
  ingest_span_event-Keeps service ev =
      if-Keeps fl none_reported
        (otel_event_matches fl ev.name ev.attributes (bytes_of "codex.conversation_starts"))
        (with_session fl service (extract_session_from_attrs ev.attributes)) skip
        (with_session-Keeps fl service (extract_session_from_attrs ev.attributes))
        (skip-Keeps fl none_reported)

  total_none : {A : Type 0} (xs : List A) → total (λ _. 0) xs ≡ 0
  total_none [] = refl
  total_none (x ∷ xs) = omega (arith, total_none xs)

  each_none :
      {A : Type 0} (handle : A → Handler fl)
      → ((a : A) → Keeps fl none_reported (handle a))
      → (xs : List A) → Keeps fl none_reported (each handle xs)
  each_none handle k xs =
      Keeps-more fl (λ c. total (λ _. 0) xs) none_reported (each handle xs)
        (λ c. omega (arith, total_none xs)) (each-Keeps fl (λ _. none_reported) handle k xs)

  ingest_span-Keeps :
      (service : Text) (span : Span F64) → Keeps fl none_reported (ingest_span fl service span)
  unfolding ingest_span
  ingest_span-Keeps service span =
      both-Keeps fl none_reported none_reported (each (ingest_span_event fl service) span.events)
        (span_effort fl service span)
        (each_none (ingest_span_event fl service) (ingest_span_event-Keeps service) span.events)
        (span_effort-Keeps service span)

  ingest_resource_spans-Keeps :
      (r : Entry F64 (List (List (Span F64)))) → Keeps fl none_reported (ingest_resource_spans fl r)
  unfolding ingest_resource_spans
  ingest_resource_spans-Keeps r =
      let service = service_name fl r.resource in
      if-Keeps fl none_reported (is_codex_service service)
        (each (each (ingest_span fl service)) r.body) skip
        (each_none (each (ingest_span fl service))
          (each_none (ingest_span fl service) (ingest_span-Keeps service)) r.body)
        (skip-Keeps fl none_reported)

  pub ingest_traces-Keeps : (req : TraceRequest F64) → Keeps fl none_reported (ingest_traces fl req)
  unfolding ingest_traces
  ingest_traces-Keeps req =
      if-Keeps fl none_reported (has_codex fl req) (each (ingest_resource_spans fl) req) skip
        (each_none (ingest_resource_spans fl) ingest_resource_spans-Keeps req)
        (skip-Keeps fl none_reported)
