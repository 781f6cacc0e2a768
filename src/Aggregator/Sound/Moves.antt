-- ===== src/Aggregator/Sound/Moves.antt =====
-- Moves of Codex's usage to the bucket that its session settles on keep the aggregator sound.
use otel_logger.Prelude.{
  ℕ, ◌+◌, ◌≤◌, ◌≡◌, refl, sym, subst, [], ◌∷◌, bytes_eq, bytes_eq_refl, Bool-cases, inl, inr, arith,
}
use otel_logger.Prelude.Maps.{Entries, lookup, upsert, insert, remove, or_default}
use otel_logger.Otlp.{Text}
use otel_logger.Aggregator.Stats.{Float, Counter, ModelStats, count}
use otel_logger.Aggregator.Bucket.{Bucket, key}
use otel_logger.Aggregator.State.{
  AgentStats, AggregatorInner, agent_claude, agent_codex, no_agent, move_agent,
  move_codex_bucket_stats,
}
use otel_logger.Aggregator.State.Reserve.{
  Reserve, part, count_at, Holds, no_agent-Holds, move_agent-Holds,
}
use otel_logger.Aggregator.Codex.{Usages}
use otel_logger.Aggregator.Sound.{
  Budget, claude_reserve, codex_reserve, agent_of, IsSound, Distinct, AllDistinct,
}
use otel_logger.Aggregator.Sound.Agents.{codex_apart, agent_of-modify_same, agent_of-modify_other}

module _ (fl : Float) where
  part_le :
      (b : Bucket) (s : ModelStats fl) (c : Counter) (k : Text) → part fl b s c k ≤ count fl c s
  part_le b s c k = elim (Bool-cases (bytes_eq (key b) k)) [
    | inl e ↦ rw e (omega arith)
    | inr e ↦ rw e (omega arith)
  ]

  part_self : (b : Bucket) (s : ModelStats fl) (c : Counter) → part fl b s c (key b) ≡ count fl c s
  part_self b s c = rw (bytes_eq_refl (key b)) refl

  none_at : (c : Counter) (k : Text) → count_at fl c k (no_agent fl).buckets ≡ 0
  unfolding lookup
  none_at c k = refl

  move_agent_le :
      (from to : Bucket) (s : ModelStats fl) (a : AgentStats fl) (c : Counter) (n : ℕ)
      → count fl c a.total ≤ n
      → count fl c (move_agent fl from to s a).total ≤ n
  unfolding move_agent
  move_agent_le from to s a c n le = le

  module _ (from to : Bucket) (s : ModelStats fl) (r0 r r' : Reserve fl)
      (held : (c : Counter) (k : Text) → r0 c k + part fl from s c k ≤ r c k)
      (less : (c : Counter) (k : Text) → r' c k ≤ r0 c k + part fl to s c k)
      (g : AggregatorInner fl) where
    abbrev agent : AgentStats fl
    agent = agent_of fl agent_codex g

    -- An agent that holds nothing has nothing to move.
    nothing_to_move : Holds fl r (no_agent fl) → Holds fl r' (no_agent fl)
    nothing_to_move h =
        let covered : (c : Counter) (k : Text) → r c k ≤ 0 =
          λ c k. subst (λ x. r c k ≤ x) (none_at c k) (h.covers c k) in
        no_agent-Holds fl r' (λ c k. omega (
          arith,
          less c k,
          part_le to s c k,
          part_self from s c,
          held c (key from),
          held c k,
          covered c (key from),
          covered c k,
        ))

    pub move-Holds :
        Holds fl r agent
        → Holds fl r' (agent_of fl agent_codex (move_codex_bucket_stats fl from to s g))
    unfolding move_codex_bucket_stats
    move-Holds h =
        agent_of-modify_same fl agent_codex (move_agent fl from to s) g.agents (Holds fl r')
          (move_agent-Holds fl from s r r0 agent held h to r' less)
          (λ e. nothing_to_move (subst (λ o. Holds fl r (or_default (no_agent fl) o)) e h))

  pub move-IsSound :
      (n : Budget) (from to : Bucket) (s : ModelStats fl) (g : AggregatorInner fl)
      → Holds fl
          (codex_reserve fl g)
          (agent_of fl agent_codex (move_codex_bucket_stats fl from to s g))
      → IsSound fl n g
      → IsSound fl n (move_codex_bucket_stats fl from to s g)
  unfolding move_codex_bucket_stats
  move-IsSound n from to s g held h =
      let move = move_agent fl from to s in
      record {
        codex = held;
        claude =
            subst (Holds fl (claude_reserve fl g))
              (sym (agent_of-modify_other fl agent_claude agent_codex move g.agents codex_apart))
              h.claude;
        codex_le = λ c.
            agent_of-modify_same fl agent_codex move g.agents (λ a. count fl c a.total ≤ n c)
              (move_agent_le from to s (agent_of fl agent_codex g) c (n c) (h.codex_le c))
              (λ e.
                subst (λ o. count fl c (or_default (no_agent fl) o).total ≤ n c) e (h.codex_le c));
        claude_le = λ c.
            rw (agent_of-modify_other fl agent_claude agent_codex move g.agents codex_apart)
              (h.claude_le c);
        is_named = h.is_named;
        distinct = h.distinct;
      }

  pub AllDistinct-insert :
      (k : Text) (pb : Usages fl) (m : Entries Text (Usages fl))
      → Distinct fl pb
      → AllDistinct fl m
      → AllDistinct fl (insert bytes_eq k pb m)
  unfolding insert upsert
  AllDistinct-insert k pb [] d h = (d, tt)
  AllDistinct-insert k pb ((j, t) ∷ m) d h = elim (Bool-cases (bytes_eq j k)) [
    | inl e ↦ rw e (d, h.1)
    | inr e ↦ rw e (h.0, AllDistinct-insert k pb m d h.1)
  ]

  pub AllDistinct-remove :
      (k : Text) (m : Entries Text (Usages fl))
      → AllDistinct fl m
      → AllDistinct fl (remove bytes_eq k m)
  unfolding remove
  AllDistinct-remove k [] h = tt
  AllDistinct-remove k ((j, t) ∷ m) h = elim (Bool-cases (bytes_eq j k)) [
    | inl e ↦ rw e h.1
    | inr e ↦ rw e (h.0, AllDistinct-remove k m h.1)
  ]
