-- ===== src/Aggregator/Claude/Counts.antt =====
-- Which reports of a run count, and what the operations do to Claude Code's total.
use otel_logger.Prelude.{
  ℕ, ◌+◌, ◌-◌, ◌≤◌, ◌≡◌, refl, sym, ◌∙◌, ap, Option, none, some, List, [], ◌∷◌, Bool, true, false,
  ◌&&◌, ◌||◌, not, bytes_eq, bytes_eq_refl, eq_of_bytes_eq, saturating_add, if◌then◌else◌,
  Bool-cases, Option-cases, inl, inr, arith, total,
}
use otel_logger.Prelude.Maps.{
  Entries, lookup, sum_of, IsKeyTest, lookup-upsert_same, lookup-modify_same,
}
use otel_logger.Aggregator.Stats.{
  Float, Counter, ModelStats, no_stats, has_usage, count, count-add, count-subtract, count-no_stats,
}
use otel_logger.Aggregator.Bucket.{Bucket}
use otel_logger.Aggregator.State.{
  AgentStats, no_agent, AggregatorInner, agent_claude, ClaudeUsageKey, ClaudeUsageSource,
  same_usage_key, record_into, record_agent, subtract_from, subtract_agent,
}
use otel_logger.Aggregator.Claude.{usage_key, subtract_all, Usage}

bytes-IsKeyTest : IsKeyTest bytes_eq
bytes-IsKeyTest = record { reflexive = bytes_eq_refl; sound = eq_of_bytes_eq }

pub usage_key-IsKeyTest : IsKeyTest same_usage_key
unfolding same_usage_key
usage_key-IsKeyTest = record {
  reflexive = λ k. rw (bytes_eq_refl k.model, bytes_eq_refl k.effort) refl;
  sound = λ j k h. ground (arith, eq_of_bytes_eq j.model k.model, eq_of_bytes_eq j.effort k.effort);
}

-- The test does not see the order.
pub flip : (j k : ClaudeUsageKey) → same_usage_key j k ≡ same_usage_key k j
flip j k = elim (Bool-cases (same_usage_key j k)) [
  | inl e ↦ let p = usage_key-IsKeyTest.sound j k e in rw p refl
  | inr e ↦ elim (Bool-cases (same_usage_key k j)) [
    | inl h ↦ let p = usage_key-IsKeyTest.sound k j h in rw p refl
    | inr h ↦ e ∙ sym h
  ]
]

abbrev pub is_log : ClaudeUsageSource → Bool
is_log ClaudeUsageSource.logs = true
is_log ClaudeUsageSource.metrics = false

module _ (fl : Float) (c : Counter) where
  abbrev pub size : Usage fl → ℕ
  size u = count fl c u.stats

  -- A log of a key that has any usage.
  abbrev pub logs_key : ClaudeUsageKey → Usage fl → Bool
  logs_key k u = has_usage fl u.stats && (is_log u.source && same_usage_key (usage_key u.bucket) k)

  -- Whether a log of the key stands in the run.
  abbrev pub logged : List (Usage fl) → ClaudeUsageKey → Bool
  logged [] k = false
  logged (u ∷ us) k = logs_key k u || logged us k

  -- What a report adds, when the keys that are logged are known: a log counts, and a metric of a
  -- key that is not logged.
  abbrev pub counts : (ClaudeUsageKey → Bool) → Usage fl → ℕ
  counts l u =
      if has_usage fl u.stats
      then (if is_log u.source || not (l (usage_key u.bucket)) then size u else 0)
      else 0

  -- What a metric of a key adds.
  abbrev pub pending_of : ClaudeUsageKey → Usage fl → ℕ
  pending_of k u =
      if has_usage fl u.stats
      then (if not (is_log u.source) && same_usage_key (usage_key u.bucket) k then size u else 0)
      else 0

  abbrev agent_count : Option (AgentStats fl) → ℕ
  agent_count none = 0
  agent_count (some a) = count fl c a.total

  -- The total of Claude Code.
  abbrev pub claude_total : AggregatorInner fl → ℕ
  claude_total g = agent_count (lookup bytes_eq agent_claude g.agents)

  pub counts-le :
      (l : ClaudeUsageKey → Bool) (us : List (Usage fl)) → total (counts l) us ≤ total size us
  counts-le l [] = omega arith
  counts-le l (u ∷ us) = ground (arith, counts-le l us)

  pub counts-same :
      (l l' : ClaudeUsageKey → Bool) (us : List (Usage fl))
      → ((k : ClaudeUsageKey) → l' k ≡ l k)
      → total (counts l') us ≡ total (counts l) us
  counts-same l l' [] h = refl
  counts-same l l' (u ∷ us) h = rw (h (usage_key u.bucket), counts-same l l' us h) refl

  -- A first log of a key takes out what the metrics of the key had counted.
  pub counts-log :
      (l l' : ClaudeUsageKey → Bool) (k : ClaudeUsageKey) (us : List (Usage fl))
      → l k ≡ false
      → ((j : ClaudeUsageKey) → l' j ≡ (same_usage_key k j || l j))
      → total (counts l') us + total (pending_of k) us ≡ total (counts l) us
  counts-log l l' k [] e h = refl
  counts-log l l' k (u ∷ us) e h =
      let j = usage_key u.bucket in
      let ih = counts-log l l' k us e h in
      elim (Bool-cases (same_usage_key k j)) [
        | inl same ↦
            let off : l j ≡ false = ap l (sym (usage_key-IsKeyTest.sound k j same)) ∙ e in
            ground (arith, ih, h j, same, off, flip k j)
        | inr other ↦ ground (arith, ih, h j, other, flip k j)
      ]

  pub total-record_into :
      (now : ℕ) (b : Bucket) (s : ModelStats fl) (g : AggregatorInner fl)
      → claude_total (record_into fl now agent_claude b s g)
        ≡ saturating_add (claude_total g) (count fl c s)
  unfolding record_into record_agent
  total-record_into now b s g =
      let at =
        lookup-upsert_same bytes_eq bytes-IsKeyTest agent_claude (no_agent fl) (record_agent fl b s)
          g.agents in
      ap agent_count at ∙ elim (Option-cases (lookup bytes_eq agent_claude g.agents)) [
        | inl e ↦ rw e (
            count-add fl c (no_stats fl) s
            ∙ ap (λ n. saturating_add n (count fl c s)) (count-no_stats fl c))
        | inr (a, e) ↦ rw e (count-add fl c a.total s)
      ]

  total-subtract_from :
      (b : Bucket) (s : ModelStats fl) (g : AggregatorInner fl)
      → claude_total (subtract_from fl agent_claude b s g) ≡ claude_total g - count fl c s
  unfolding subtract_from subtract_agent
  total-subtract_from b s g =
      ap agent_count (lookup-modify_same bytes_eq agent_claude (subtract_agent fl b s) g.agents)
      ∙ elim (Option-cases (lookup bytes_eq agent_claude g.agents)) [
        | inl e ↦ rw e (omega arith)
        | inr (a, e) ↦ rw e (count-subtract fl c a.total s)
      ]

  pub total-subtract_all :
      (pb : Entries Bucket (ModelStats fl)) (g : AggregatorInner fl)
      → claude_total (subtract_all fl pb g) ≡ claude_total g - sum_of (count fl c) pb
  unfolding subtract_all
  total-subtract_all [] g = omega arith
  total-subtract_all ((b, s) ∷ pb) g = omega (
    arith,
    total-subtract_all pb (subtract_from fl agent_claude b s g),
    total-subtract_from b s g,
  )
