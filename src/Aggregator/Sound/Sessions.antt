-- ===== src/Aggregator/Sound/Sessions.antt =====
-- Telemetry with no conversation, and sessions: a move leaves behind what waits for a conversation.
use otel_logger.Prelude.{
  ℕ, ◌+◌, ◌-◌, ◌≤◌, ◌≡◌, refl, ap, subst, Option, none, some, [], ◌∷◌, Bool, true, ◌||◌, bytes_eq,
  eq_of_bytes_eq, u64_max, Bool-cases, inl, inr, arith,
}
use otel_logger.Prelude.Maps.{Entries, lookup, sum_of, or_default}
use otel_logger.Otlp.{Text}
use otel_logger.Aggregator.Stats.{
  Float, Counter, ModelStats, no_stats, count, count-add, count-subtract, count-no_stats,
}
use otel_logger.Aggregator.Bucket.{Bucket, key}
use otel_logger.Aggregator.State.{AgentStats, AggregatorInner, same_bucket, agent_codex, no_agent}
use otel_logger.Aggregator.State.Reserve.{Reserve, part, count_at, count_at-le, Holds}
use otel_logger.Aggregator.Codex.{Usages}
use otel_logger.Aggregator.Sound.{Budget, reserved, codex_reserve, agent_of, IsSound, AllDistinct}
use otel_logger.Aggregator.Stats.{has_any_value, saturating_sub_stats}
use otel_logger.Aggregator.Bucket.{from_parts, unknown}
use otel_logger.Aggregator.State.{BucketStats, CodexSession}
use otel_logger.Aggregator.State.Reserve.{some_count}
use otel_logger.Aggregator.Models.{is_empty_text}
use otel_logger.Aggregator.Codex.{
  add_some, sum_pending, sum_pending_for_bucket, move_rest, bucket_at, merge_unknown,
  merge_codex_pending_sse, remember_session, complete_session, known_session,
  update_codex_session_with_last, update_codex_session,
}
use otel_logger.Aggregator.Sound.Reserved.{reserved-lookup}
use otel_logger.Aggregator.Sound.Moves.{move-Holds, move-IsSound}
use otel_logger.Aggregator.Sound.Conversations.{merge_conversation-IsSound}

module _ (fl : Float) where
  count-add_some :
      (c : Counter) (t : ModelStats fl) (o : Option (ModelStats fl)) (x y r : ℕ)
      → x ≤ u64_max
      → x ≤ count fl c t + (r + y)
      → r ≤ count fl c (or_default (no_stats fl) o)
      → x ≤ count fl c (add_some fl t o) + y
  unfolding add_some
  count-add_some c t none x y r u h le = omega (arith, h, le, count-no_stats fl c)
  count-add_some c t (some s) x y r u h le = ground (arith, count-add fl c t s)

  -- The sum over the conversations is at least what they reserve of the bucket.
  count-sum_pending :
      (c : Counter) (b : Bucket) (m : Entries Text (Usages fl)) (t : ModelStats fl) (x : ℕ)
      → AllDistinct fl m
      → x ≤ u64_max
      → x ≤ count fl c t + sum_of (reserved fl c (key b)) m
      → x ≤ count fl c (sum_pending fl b m t)
  unfolding sum_pending
  count-sum_pending c b [] t x d u h = omega (arith, h)
  count-sum_pending c b ((cid, pb) ∷ m) t x d u h =
      count-sum_pending c b m (add_some fl t (lookup same_bucket b pb)) x d.1 u (
        count-add_some c t (lookup same_bucket b pb) x (sum_of (reserved fl c (key b)) m)
          (reserved fl c (key b) pb) u (omega (arith, h)) (reserved-lookup fl c b pb d.0))

  module _ (n : Budget) (g : AggregatorInner fl) (h : IsSound fl n g) where
    abbrev agent : AgentStats fl
    agent = agent_of fl agent_codex g

    abbrev all_of : Reserve fl
    all_of c k = count_at fl c k agent.buckets

    all-Holds : Holds fl all_of agent
    all-Holds = record {
      balanced = h.codex.balanced;
      is_u64 = h.codex.is_u64;
      covers = λ c k. omega arith;
    }

    module _ (from to : Bucket) (b : BucketStats fl)
        (e : lookup bytes_eq (key from) agent.buckets ≡ some b) where
      abbrev movable : ModelStats fl
      movable = saturating_sub_stats fl b.stats (sum_pending_for_bucket fl g from)

      -- What the bucket has, what waits, and what is moved.
      moved_count :
          (c : Counter)
          → (count fl c movable + codex_reserve fl g c (key from) ≤ all_of c (key from))
            × (count fl c movable ≤ all_of c (key from))
      unfolding saturating_sub_stats sum_pending_for_bucket
      moved_count c =
          let pending = sum_pending fl from g.codex_pending_sse (no_stats fl) in
          let has : all_of c (key from) ≡ count fl c b.stats = ap (some_count fl c) e in
          let le = count_at-le fl c (key from) agent.buckets in
          let u : codex_reserve fl g c (key from) ≤ u64_max =
            omega (
              arith,
              h.codex.covers c (key from),
              le,
              h.codex.is_u64 c,
              h.codex.balanced.equal c,
            ) in
          let waits =
            count-sum_pending c from g.codex_pending_sse (no_stats fl)
              (codex_reserve fl g c (key from)) h.distinct u (omega arith) in
          let sub = count-subtract fl c b.stats pending in
          let covers = h.codex.covers c (key from) in
          (omega (arith, has, waits, sub, covers), omega (arith, has, sub))

      left_over : Reserve fl
      left_over c k = all_of c k - part fl from movable c k

      left_held : (c : Counter) (k : Text) → left_over c k + part fl from movable c k ≤ all_of c k
      unfolding left_over
      left_held c k = elim (Bool-cases (bytes_eq (key from) k)) [
        | inl same ↦
            let p = eq_of_bytes_eq (key from) k same in
            let le = subst (λ x. count fl c movable ≤ all_of c x) p (moved_count c).1 in
            rw same (omega (arith, le))
        | inr other ↦ rw other (omega arith)
      ]

      left_covers : (c : Counter) (k : Text) → codex_reserve fl g c k ≤ left_over c k
      unfolding left_over
      left_covers c k = elim (Bool-cases (bytes_eq (key from) k)) [
        | inl same ↦
            let p = eq_of_bytes_eq (key from) k same in
            let le =
              subst (λ x. count fl c movable + codex_reserve fl g c x ≤ all_of c x) p
                (moved_count c).0 in
            rw same (omega (arith, le))
        | inr other ↦ rw other (omega (arith, h.codex.covers c k))
      ]

      move_rest-some : IsSound fl n (move_rest fl from to (some b) g).1
      unfolding move_rest
      move_rest-some = elim (Bool-cases (has_any_value fl movable)) [
        | inl any ↦ rw any (
            move-IsSound fl n from to movable g
              (move-Holds fl from to movable left_over all_of (codex_reserve fl g) left_held
                (λ c k. omega (arith, left_covers c k)) g all-Holds)
              h)
        | inr none_left ↦ rw none_left h
      ]

    move_rest-IsSound :
        (from to : Bucket) (o : Option (BucketStats fl))
        → lookup bytes_eq (key from) agent.buckets ≡ o
        → IsSound fl n (move_rest fl from to o g).1
    unfolding move_rest
    move_rest-IsSound from to none e = h
    move_rest-IsSound from to (some b) e = unfold move_rest in move_rest-some from to b e

    bucket_at-agent :
        (k : Text) (o : Option (AgentStats fl))
        → lookup bytes_eq k (or_default (no_agent fl) o).buckets ≡ bucket_at fl k o
    unfolding lookup
    bucket_at-agent k none = refl
    bucket_at-agent k (some a) = refl

    merge_unknown-IsSound :
        (provider model effort : Text) → IsSound fl n (merge_unknown fl provider model effort g).1
    unfolding merge_unknown
    merge_unknown-IsSound provider model effort =
        let from = from_parts provider model unknown in
        let to = from_parts provider model effort in
        elim (Bool-cases
          (is_empty_text model || (is_empty_text effort || bytes_eq effort unknown))) [
            | inl e ↦ rw e h
            | inr e ↦ rw e (elim (Bool-cases (same_bucket from to)) [
              | inl same ↦ rw same h
              | inr other ↦ rw other (
                  move_rest-IsSound from to
                    (bucket_at fl (key from) (lookup bytes_eq agent_codex g.agents))
                    (bucket_at-agent (key from) (lookup bytes_eq agent_codex g.agents)))
            ])
          ]

    pub merge_codex_pending_sse-IsSound :
        (provider model cid effort : Text) (confirmed : Bool)
        → IsSound fl n (merge_codex_pending_sse fl provider model cid effort confirmed g).1
    unfolding merge_codex_pending_sse
    merge_codex_pending_sse-IsSound provider model cid effort confirmed =
        elim (Bool-cases (is_empty_text cid)) [
          | inl e ↦ rw e (merge_unknown-IsSound provider model effort)
          | inr e ↦ rw e (
              merge_conversation-IsSound fl n provider cid effort confirmed
                (lookup bytes_eq cid g.codex_pending_sse) g refl h)
        ]

    remember_session-IsSound :
        (service : Text) (session : CodexSession) (update_last : Bool)
        → IsSound fl n (remember_session fl service session update_last g)
    unfolding remember_session
    remember_session-IsSound service session update_last = record {
      claude = h.claude;
      codex = h.codex;
      claude_le = h.claude_le;
      codex_le = h.codex_le;
      is_named = h.is_named;
      distinct = h.distinct;
    }

  pub update_codex_session_with_last-IsSound :
      (n : Budget) (service : Text) (session : CodexSession) (update_last : Bool)
      (g : AggregatorInner fl)
      → IsSound fl n g
      → IsSound fl n (update_codex_session_with_last fl service session update_last g).1
  unfolding update_codex_session_with_last
  update_codex_session_with_last-IsSound n service session update_last g h =
      let s = complete_session session (known_session fl session g) in
      merge_codex_pending_sse-IsSound n (remember_session fl service s update_last g)
        (remember_session-IsSound n g h service s update_last) s.provider s.model s.conversation_id
        s.effort s.provider_confirmed

  pub update_codex_session-IsSound :
      (n : Budget) (service : Text) (session : CodexSession) (g : AggregatorInner fl)
      → IsSound fl n g
      → IsSound fl n (update_codex_session fl service session g).1
  unfolding update_codex_session
  update_codex_session-IsSound n service session g h =
      update_codex_session_with_last-IsSound n service session true g h
