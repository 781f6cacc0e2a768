-- ===== src/Aggregator/Codex.antt =====
-- Codex sessions, and the usage that its logs report before the session is known, in
-- src/aggregator.rs.
pub mod Events
use otel_logger.Prelude.{
  ℕ, Option, none, some, List, [], ◌∷◌, Bool, true, false, not, ◌&&◌, ◌||◌, if◌then◌else◌, bytes_of,
  bytes_eq,
}
use otel_logger.Prelude.Maps.{Entries, lookup, remove, upsert, insert, or_default}
use otel_logger.Otlp.{Text, KeyValue, string_attr}
use otel_logger.Aggregator.Stats.{
  Float, ModelStats, no_stats, add, has_any_value, saturating_sub_stats,
}
use otel_logger.Aggregator.Bucket.{Bucket, from_parts, non_empty, key, unknown}
use otel_logger.Aggregator.State.{
  AggregatorInner, AgentStats, BucketStats, CodexSession, agent_codex, same_bucket,
  move_codex_bucket_stats,
}
use otel_logger.Aggregator.Values.{is_text, filled}
use otel_logger.Aggregator.Models.{is_empty_text}

abbrev pub provider_openai : Text
provider_openai = bytes_of "OpenAI"

unfoldable pub is_some {ℓ} : {A : Type ℓ} → Option A → Bool
is_some none = false
is_some (some a) = true

unfoldable pub is_empty_list {ℓ} : {A : Type ℓ} → List A → Bool
is_empty_list [] = true
is_empty_list (x ∷ xs) = false

-- The text, or another where it is empty.
unfoldable pub or_text : Text → Text → Text
or_text [] other = other
or_text (c ∷ s) other = c ∷ s

module _ {F : Type 0} where
  -- `extract_session_from_attrs`
  unfoldable pub extract_session_from_attrs : List (KeyValue F) → Option CodexSession
  extract_session_from_attrs attrs =
      let conversation_id = or_default [] (string_attr attrs (bytes_of "conversation.id")) in
      let provider_attr = filled (string_attr attrs (bytes_of "provider_name")) in
      let model = or_default [] (string_attr attrs (bytes_of "model")) in
      let effort = or_default [] (string_attr attrs (bytes_of "reasoning_effort")) in
      if is_empty_text conversation_id && (is_empty_text model && is_empty_text effort)
      then none
      else some (record {
        conversation_id = conversation_id;
        provider = or_default provider_openai provider_attr;
        model = model;
        effort = effort;
        provider_confirmed = is_some provider_attr;
      })

unfoldable pub codex_provider_from_session : Option CodexSession → Text
codex_provider_from_session none = provider_openai
codex_provider_from_session (some s) = s.provider

unfoldable pub codex_effort_from_session : Option CodexSession → Text
codex_effort_from_session none = []
codex_effort_from_session (some s) = s.effort

-- What a session takes over from the one before of its conversation.
unfoldable pub complete_session : CodexSession → Option CodexSession → CodexSession
complete_session session none = session
complete_session session (some prev) =
    let keep_provider = not session.provider_confirmed && prev.provider_confirmed in
    record session {
      model = or_text session.model prev.model;
      effort = or_text session.effort prev.effort;
      provider = if keep_provider then prev.provider else session.provider;
      provider_confirmed = if keep_provider then true else session.provider_confirmed;
    }

abbrev pub no_session : CodexSession
no_session = record {
  conversation_id = [];
  provider = provider_openai;
  model = [];
  effort = [];
  provider_confirmed = false;
}

module _ (fl : Float) where
  abbrev pub Usages : Type 0
  Usages = Entries Bucket (ModelStats fl)

  abbrev pub add_usage : Bucket → ModelStats fl → Usages → Usages
  add_usage b s m = upsert same_bucket b (no_stats fl) (λ t. add fl t s) m

  unfoldable pub codex_last_session : AggregatorInner fl → Text → Option CodexSession
  codex_last_session g service = lookup bytes_eq service g.codex_last_sessions

  unfoldable pub codex_provider : AggregatorInner fl → Text → Text
  codex_provider g service = codex_provider_from_session (codex_last_session g service)

  unfoldable pub codex_effort : AggregatorInner fl → Text → Text
  codex_effort g service = codex_effort_from_session (codex_last_session g service)

  -- The loop of `merge_codex_pending_sse`: the state, what is put back, and whether usage moved.
  pub record Merge : Type 0 where
    pub inner : AggregatorInner fl
    pub kept : Usages
    pub moved : Bool

  -- `resolved_effort`, and the bucket with it.
  unfoldable pub resolve : Text → Text → Bucket → Bucket
  resolve provider effort from =
      from_parts provider from.model
        (if bytes_eq from.effort unknown then non_empty effort else from.effort)

  unfoldable pub is_unsettled : Bool → Bucket → Bool
  is_unsettled provider_confirmed to = not provider_confirmed || bytes_eq to.effort unknown

  unfoldable pub merge_pending : Bool → Bucket → Bucket → ModelStats fl → Merge → Merge
  merge_pending unsettled from to pending m =
      let kept = if unsettled then add_usage to pending m.kept else m.kept in
      if same_bucket from to then record m { kept = kept } else record {
        inner = move_codex_bucket_stats fl from to pending m.inner;
        kept = kept;
        moved = true;
      }

  unfoldable pub merge_all : Text → Text → Bool → Usages → Merge → Merge
  merge_all provider effort confirmed [] m = m
  merge_all provider effort confirmed ((from, pending) ∷ entries) m =
      let to = resolve provider effort from in
      merge_all provider effort confirmed entries
        (merge_pending (is_unsettled confirmed to) from to pending m)

  -- `if !kept.is_empty()`
  unfoldable pub put_back : Text → Merge → Bool × AggregatorInner fl
  put_back conversation_id m = (
    m.moved,
    if is_empty_list m.kept then m.inner else record m.inner {
      codex_pending_sse = insert bytes_eq conversation_id m.kept m.inner.codex_pending_sse;
    },
  )

  unfoldable pub merge_conversation :
      Text → Text → Text → Bool → Option Usages → AggregatorInner fl → Bool × AggregatorInner fl
  merge_conversation provider conversation_id effort confirmed none g = (false, g)
  merge_conversation provider conversation_id effort confirmed (some entries) g =
      put_back conversation_id (
        merge_all provider effort confirmed entries (record {
          inner = record g {
            codex_pending_sse = remove bytes_eq conversation_id g.codex_pending_sse;
          };
          kept = [];
          moved = false;
        }))

  -- `sum_pending_for_bucket`
  unfoldable pub add_some : ModelStats fl → Option (ModelStats fl) → ModelStats fl
  add_some total none = total
  add_some total (some s) = add fl total s

  unfoldable pub sum_pending : Bucket → Entries Text Usages → ModelStats fl → ModelStats fl
  sum_pending b [] total = total
  sum_pending b ((cid, per_bucket) ∷ rest) total =
      sum_pending b rest (add_some total (lookup same_bucket b per_bucket))

  unfoldable pub sum_pending_for_bucket : AggregatorInner fl → Bucket → ModelStats fl
  unfolding sum_pending
  sum_pending_for_bucket g b = sum_pending b g.codex_pending_sse (no_stats fl)

  -- The end of the path for telemetry with no conversation.
  unfoldable pub move_rest :
      Bucket → Bucket → Option (BucketStats fl) → AggregatorInner fl → Bool × AggregatorInner fl
  move_rest from to none g = (false, g)
  move_rest from to (some b) g =
      let movable = saturating_sub_stats fl b.stats (sum_pending_for_bucket g from) in
      if has_any_value fl movable
      then (true, move_codex_bucket_stats fl from to movable g)
      else (false, g)

  abbrev pub bucket_at : Text → Option (AgentStats fl) → Option (BucketStats fl)
  bucket_at k none = none
  bucket_at k (some a) = lookup bytes_eq k a.buckets

  unfoldable pub merge_unknown : Text → Text → Text → AggregatorInner fl → Bool × AggregatorInner fl
  merge_unknown provider model effort g =
      let from = from_parts provider model unknown in
      let to = from_parts provider model effort in
      if is_empty_text model || (is_empty_text effort || bytes_eq effort unknown)
      then (false, g)
      else if same_bucket from to
      then (false, g)
      else move_rest from to (bucket_at (key from) (lookup bytes_eq agent_codex g.agents)) g

  unfoldable pub merge_codex_pending_sse :
      Text → Text → Text → Text → Bool → AggregatorInner fl → Bool × AggregatorInner fl
  merge_codex_pending_sse provider model conversation_id effort confirmed g =
      if is_empty_text conversation_id
      then merge_unknown provider model effort g
      else merge_conversation provider conversation_id effort confirmed
          (lookup bytes_eq conversation_id g.codex_pending_sse) g

  -- The two maps of sessions.
  unfoldable pub remember_session :
      Text → CodexSession → Bool → AggregatorInner fl → AggregatorInner fl
  remember_session service session update_last g = record g {
    codex_sessions =
        if is_empty_text session.conversation_id
        then g.codex_sessions
        else insert bytes_eq session.conversation_id session g.codex_sessions;
    codex_last_sessions =
        if update_last
        then insert bytes_eq service session g.codex_last_sessions
        else g.codex_last_sessions;
  }

  unfoldable pub known_session : CodexSession → AggregatorInner fl → Option CodexSession
  known_session session g =
      if is_empty_text session.conversation_id
      then none
      else lookup bytes_eq session.conversation_id g.codex_sessions

  unfoldable pub update_codex_session_with_last :
      Text → CodexSession → Bool → AggregatorInner fl → Bool × AggregatorInner fl
  update_codex_session_with_last service session update_last g =
      let s = complete_session session (known_session session g) in
      merge_codex_pending_sse s.provider s.model s.conversation_id s.effort s.provider_confirmed
        (remember_session service s update_last g)

  unfoldable pub update_codex_session :
      Text → CodexSession → AggregatorInner fl → Bool × AggregatorInner fl
  update_codex_session service session g = update_codex_session_with_last service session true g
