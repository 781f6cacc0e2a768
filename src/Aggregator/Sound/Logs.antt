-- ===== src/Aggregator/Sound/Logs.antt =====
-- Log records keep the aggregator sound.
use otel_logger.Prelude.{
  ℕ, ◌+◌, ◌≤◌, sym, subst, Option, none, some, [], ◌∷◌, Bool, true, false, u64_max, bytes_of,
  bytes_eq, if◌then◌else◌, Bool-cases, inl, inr, arith, total,
}
use otel_logger.Prelude.Maps.{Entries, lookup, upsert, sum_of-upsert-le}
use otel_logger.Otlp.{Text, string_attr, LogRecord}
use otel_logger.Aggregator.Stats.{Float, Counter, ModelStats, no_stats, add, count}
use otel_logger.Aggregator.Bucket.{Bucket, from_parts, non_empty}
use otel_logger.Aggregator.State.{
  AggregatorInner, CodexSession, CodexTokenSource, agent_claude, agent_codex, record_agent,
  record_into,
}
use otel_logger.Aggregator.State.Reserve.{Reserve, part, Holds, record_agent-Holds}
use otel_logger.Aggregator.Values.{filled, u64_attr, is_codex_service, service_claude}
use otel_logger.Aggregator.Models.{provider_anthropic, canonical_claude_model}
use otel_logger.Aggregator.Reports.{
  Attrs, text_attr, extract_claude_api_request_meta, claude_request_stats, claude_usage_stats,
  is_api_request,
}
use otel_logger.Aggregator.Codex.{Usages, add_usage}
use otel_logger.Aggregator.Codex.Events.{
  CodexSseExtraction, codex_sse_stats, is_no_usage, is_response_completed, sse_of, session_for,
  extract_codex_sse_response_completed, extract_codex_conversation_starts, is_metrics, note_pending,
  set_token_source, record_sse,
}
use otel_logger.Aggregator.Ingest.{skip, Handler, with_session, codex_log, claude_log, ingest_log}
use otel_logger.Aggregator.Sound.Reported.{only_if, claude_log_weight, codex_log_weight, log_weight}
use otel_logger.Aggregator.Sound.{
  Budget, reserved, codex_reserve, agent_of, AllDistinct, IsSound, IsSound-more,
}
use otel_logger.Aggregator.Sound.Reserved.{reserved-upsert, Distinct-upsert}
use otel_logger.Aggregator.Sound.Agents.{
  agent_of-upsert_same, record_into_claude-IsSound, record_into_codex-IsSound,
}
use otel_logger.Aggregator.Sound.Claude.{record_claude_log_usage-IsSound}
use otel_logger.Aggregator.Sound.Sessions.{update_codex_session-IsSound}
use otel_logger.Aggregator.Sound.Handlers.{
  Keeps, skip-Keeps, Keeps-more, both-Keeps, if_either-Keeps,
}

module _ (fl : Float) where
  open fl use {F64}

  AllDistinct-add_usage :
      (cid : Text) (b : Bucket) (s : ModelStats fl) (m : Entries Text (Usages fl))
      → AllDistinct fl m
      → AllDistinct fl (upsert bytes_eq cid [] (add_usage fl b s) m)
  unfolding upsert
  AllDistinct-add_usage cid b s [] h =
      (unfold upsert in Distinct-upsert fl b (no_stats fl) (λ t. add fl t s) [] tt, tt)
  AllDistinct-add_usage cid b s ((j, pb) ∷ m) h = elim (Bool-cases (bytes_eq j cid)) [
    | inl e ↦ rw e (Distinct-upsert fl b (no_stats fl) (λ t. add fl t s) pb h.0, h.1)
    | inr e ↦ rw e (h.0, AllDistinct-add_usage cid b s m h.1)
  ]

  pub set_token_source-IsSound :
      (n : Budget) (model : Text) (source : CodexTokenSource) (g : AggregatorInner fl)
      → IsSound fl n g
      → IsSound fl n (set_token_source fl model source g)
  unfolding set_token_source
  set_token_source-IsSound n model source g h = record {
    claude = h.claude;
    codex = h.codex;
    claude_le = h.claude_le;
    codex_le = h.codex_le;
    is_named = h.is_named;
    distinct = h.distinct;
  }

  -- Usage that is recorded, and waits for its session where the event names a conversation.
  note_pending-IsSound :
      (n n' : Budget) (now : ℕ) (conversation : Option Text) (b : Bucket) (s : ModelStats fl)
      (g : AggregatorInner fl)
      → ((c : Counter) → n c + count fl c s ≤ n' c)
      → ((c : Counter) → n' c ≤ u64_max)
      → IsSound fl n g
      → IsSound fl n' (note_pending fl conversation b s (record_into fl now agent_codex b s g))
  unfolding note_pending record_into
  note_pending-IsSound n n' now none b s g more fits h =
      unfold note_pending record_into in record_into_codex-IsSound fl n n' now b s g more fits h
  note_pending-IsSound n n' now (some cid) b s g more fits h =
      let recorded = record_into_codex-IsSound fl n n' now b s g more fits h in
      let reserve : Reserve fl = λ c k.
        total (λ e. reserved fl c k e.1)
          (upsert bytes_eq cid [] (add_usage fl b s) g.codex_pending_sse) in
      record {
        codex =
            subst (Holds fl reserve)
              (sym (agent_of-upsert_same fl agent_codex (record_agent fl b s) g.agents))
              (record_agent-Holds fl b s (codex_reserve fl g) reserve (agent_of fl agent_codex g)
                (λ c. omega (arith, more c, fits c, h.codex_le c))
                (λ c k.
                  sum_of-upsert-le bytes_eq (reserved fl c k) cid [] (add_usage fl b s)
                    (part fl b s c k) g.codex_pending_sse
                    (omega (arith, reserved-upsert fl c k b s [])) (reserved-upsert fl c k b s))
                h.codex);
        claude = recorded.claude;
        claude_le = recorded.claude_le;
        codex_le = recorded.codex_le;
        is_named = h.is_named;
        distinct = AllDistinct-add_usage cid b s g.codex_pending_sse h.distinct;
      }

  record_sse-Keeps :
      (now : ℕ) (parsed : CodexSseExtraction fl)
      → Keeps fl (λ c. count fl c parsed.stats) (record_sse fl now (some parsed))
  unfolding record_sse
  record_sse-Keeps now parsed n g fits h =
      elim (Bool-cases
        (is_metrics fl (lookup bytes_eq (non_empty parsed.bucket.model) g.codex_token_sources))) [
          | inl e ↦ rw e (skip-Keeps fl (λ c. count fl c parsed.stats) n g fits h)
          | inr e ↦ rw e (
              set_token_source-IsSound (λ c. n c + count fl c parsed.stats) parsed.bucket.model
                CodexTokenSource.logs
                (note_pending fl parsed.pending_conversation_id parsed.bucket parsed.stats
                  (record_into fl now agent_codex parsed.bucket parsed.stats g))
                (note_pending-IsSound n (λ c. n c + count fl c parsed.stats) now
                  parsed.pending_conversation_id parsed.bucket parsed.stats g (λ c. omega arith)
                  fits h))
        ]

  pub with_session-Keeps :
      (service : Text) (session : Option CodexSession)
      → Keeps fl (λ c. 0) (with_session fl service session)
  unfolding with_session
  with_session-Keeps service none n g fits h = skip-Keeps fl (λ c. 0) n g fits h
  with_session-Keeps service (some session) n g fits h =
      IsSound-more fl n (λ c. n c + 0) _ (λ c. omega arith)
        (update_codex_session-IsSound fl n service session g h)

  record_sse_unless :
      (b : Bool) (now : ℕ) (parsed : CodexSseExtraction fl)
      → Keeps fl
          (λ c. count fl c parsed.stats)
          (record_sse fl now (if b then none else some parsed))
  unfolding record_sse
  record_sse_unless true now parsed = skip-Keeps fl (λ c. count fl c parsed.stats)
  record_sse_unless false now parsed = unfold record_sse in record_sse-Keeps now parsed

  count-codex_sse_stats :
      (attrs : Attrs fl) (c : Counter)
      → count fl c (codex_sse_stats fl attrs) ≤ codex_log_weight fl attrs c
  unfolding codex_sse_stats codex_log_weight
  count-codex_sse_stats attrs Counter.requests = omega arith
  count-codex_sse_stats attrs _ = omega arith

  count-claude_stats :
      (attrs : Attrs fl) (c : Counter)
      → count fl c (claude_request_stats fl attrs) + count fl c (claude_usage_stats fl attrs)
        ≤ claude_log_weight fl attrs c
  unfolding claude_request_stats claude_usage_stats claude_log_weight u64_attr
  count-claude_stats attrs Counter.requests = omega arith
  count-claude_stats attrs _ = omega arith

  sse_event-Keeps :
      (now : ℕ) (service : Text) (log : LogRecord F64)
      → Keeps fl
          (λ c.
            only_if
              (is_response_completed fl log.attributes)
              (codex_log_weight fl log.attributes c))
          (λ g. record_sse fl now (extract_codex_sse_response_completed fl service log g) g)
  unfolding extract_codex_sse_response_completed sse_of
  sse_event-Keeps now service log n g fits h =
      let attrs = log.attributes in
      let conversation = filled (string_attr attrs (bytes_of "conversation.id")) in
      let idle =
        is_no_usage fl (codex_sse_stats fl attrs)
          (u64_attr fl attrs (bytes_of "tool_token_count")) in
      let parsed = sse_of fl attrs conversation (session_for fl service conversation g) in
      elim (Bool-cases (is_response_completed fl attrs)) [
        | inl e ↦ rw e (
            Keeps-more fl (λ c. count fl c (codex_sse_stats fl attrs)) (codex_log_weight fl attrs)
              (record_sse fl now (if idle then none else some parsed)) (count-codex_sse_stats attrs)
              (record_sse_unless idle now parsed) n g (rw e at fits) h)
        | inr e ↦ rw e (unfold record_sse in skip-Keeps fl (λ c. 0) n g (rw e at fits) h)
      ]

  codex_log-Keeps :
      (now : ℕ) (service : Text) (log : LogRecord F64)
      → Keeps fl
          (λ c.
            only_if
              (is_response_completed fl log.attributes)
              (codex_log_weight fl log.attributes c))
          (codex_log fl now service log)
  unfolding codex_log
  codex_log-Keeps now service log =
      let w : Budget = λ c.
        only_if (is_response_completed fl log.attributes) (codex_log_weight fl log.attributes c) in
      Keeps-more fl (λ c. 0 + w c) w (codex_log fl now service log) (λ c. omega arith)
        (both-Keeps fl (λ c. 0) w
          (with_session fl service (extract_codex_conversation_starts fl log))
          (λ g. record_sse fl now (extract_codex_sse_response_completed fl service log g) g)
          (with_session-Keeps service (extract_codex_conversation_starts fl log))
          (sse_event-Keeps now service log))

  claude_log_unless :
      (b : Bool) (v w : Budget) (now : ℕ) (otherwise : Handler fl) (x : Bucket)
      (request usage : ModelStats fl)
      → ((c : Counter) → count fl c request + count fl c usage ≤ v c)
      → Keeps fl w otherwise
      → Keeps fl
          (λ c. only_if b (v c) + w c)
          (claude_log fl now otherwise (if b then some (x, request, usage) else none))
  unfolding claude_log
  claude_log_unless true v w now otherwise x request usage le k n g fits h =
      record_claude_log_usage-IsSound fl (λ c. n c + count fl c request) (λ c. n c + (v c + w c))
        now x usage (record_into fl now agent_claude x request g) (λ c. omega (arith, le c)) fits
        (record_into_claude-IsSound fl n (λ c. n c + count fl c request) now x request g
          (λ c. omega arith) (λ c. omega (arith, le c, fits c)) h)
  claude_log_unless false v w now otherwise x request usage le k n g fits h =
      Keeps-more fl w (λ c. 0 + w c) otherwise (λ c. omega arith) k n g fits h

  pub ingest_log-Keeps :
      (now : ℕ) (service : Text) (log : LogRecord F64)
      → Keeps fl (log_weight fl service log) (ingest_log fl now service log)
  unfolding ingest_log extract_claude_api_request_meta log_weight
  ingest_log-Keeps now service log n g fits h =
      let attrs = log.attributes in
      let v : Budget = λ c. only_if (is_api_request fl log) (claude_log_weight fl attrs c) in
      let u : Budget =
        λ c. only_if (is_response_completed fl attrs) (codex_log_weight fl attrs c) in
      let w : Budget = λ c. only_if (is_codex_service service) (u c) in
      let codex = if is_codex_service service then codex_log fl now service log else skip in
      let codex-Keeps : Keeps fl w codex =
        Keeps-more fl (λ c. only_if (is_codex_service service) (u c) + 0) w codex (λ c. omega arith)
          (if_either-Keeps fl u (λ c. 0) (is_codex_service service) (codex_log fl now service log)
            skip (codex_log-Keeps now service log) (skip-Keeps fl (λ c. 0))) in
      elim (Bool-cases (bytes_eq service service_claude)) [
        | inl e ↦ rw e (
            claude_log_unless (is_api_request fl log) (claude_log_weight fl attrs) w now codex
              (from_parts provider_anthropic
                (canonical_claude_model fl g (text_attr fl attrs (bytes_of "model")))
                (text_attr fl attrs (bytes_of "effort")))
              (claude_request_stats fl attrs) (claude_usage_stats fl attrs)
              (count-claude_stats attrs) codex-Keeps n g (rw e at fits) h)
        | inr e ↦ rw e (
            Keeps-more fl w (λ c. 0 + w c) codex (λ c. omega arith) codex-Keeps n g (rw e at fits)
              h)
      ]
