-- ===== src/Aggregator/Models/Merge.antt =====
-- A merge moves usage between buckets and changes no sum.
use otel_logger.Prelude.{
  ◌≤◌, ◌≡◌, refl, sym, ◌∙◌, ap, Option, none, some, List, [], ◌∷◌, Bool, true, false, ◌||◌,
  bytes_eq, if◌then◌else◌, Bool-cases, inl, inr, arith, u64_max,
}
use mathlib.Core.Option
use otel_logger.Prelude.Maps.{
  Entries, lookup, remove, sum_of-upsert, sum_of-remove, lookup-modify_same,
}
use otel_logger.Otlp.{Text}
use otel_logger.Aggregator.Stats.{Float, Counter, count, count-add, count-no_stats}
use otel_logger.Aggregator.Bucket.{from_parts, key}
use otel_logger.Aggregator.State.{
  BucketStats, AgentStats, AggregatorInner, from_bucket, add_stats, agent_claude,
}
use otel_logger.Aggregator.State.Balance.{bucket_count, bucket_sum, IsBalanced}
use otel_logger.Aggregator.Models.{
  merge_bucket, merge_keys, merge_bare_into_full, bare_keys, bare_prefix, note_model, note_itself,
  promote, register_suffix, register_canonical_claude_model, is_empty_text, is_present, is_name,
}
use otel_logger.Aggregator.Claude.{bare_model}

module _ (fl : Float) where
  pub sum-merge_bucket :
      (c : Counter) (full k : Text) (o : Option (BucketStats fl))
      (m : Entries Text (BucketStats fl))
      → lookup bytes_eq k m ≡ o
      → bucket_sum fl c m ≤ u64_max
      → bucket_sum fl c (merge_bucket fl full k o m) ≡ bucket_sum fl c m
  unfolding merge_bucket
  sum-merge_bucket c full k none m e h = refl
  sum-merge_bucket c full k (some b) m e h =
      let to = from_parts b.provider full b.effort in
      let out = sum_of-remove bytes_eq (bucket_count fl c) k m b e in
      sum_of-upsert bytes_eq (bucket_count fl c) (key to) (from_bucket fl to) (add_stats fl b.stats)
        (count fl c b.stats) (remove bytes_eq k m) (count-no_stats fl c)
        (λ v le. rw (count-add fl c v.stats b.stats) (ground (arith, out)))
      ∙ out

  sum-merge_keys :
      (c : Counter) (full : Text) (ks : List Text) (m : Entries Text (BucketStats fl))
      → bucket_sum fl c m ≤ u64_max
      → bucket_sum fl c (merge_keys fl full ks m) ≡ bucket_sum fl c m
  unfolding merge_keys
  sum-merge_keys c full [] m h = refl
  sum-merge_keys c full (k ∷ ks) m h =
      let one = sum-merge_bucket c full k (lookup bytes_eq k m) m refl h in
      sum-merge_keys c full ks _ (omega (arith, one, h)) ∙ one

  abbrev pub IsU64 : AgentStats fl → Type 0
  IsU64 a = (c : Counter) → count fl c a.total ≤ u64_max

  pub merge_bare_into_full-IsBalanced :
      (bare full : Text) (a : AgentStats fl)
      → IsU64 a
      → IsBalanced fl a
      → IsBalanced fl (merge_bare_into_full fl bare full a)
  unfolding merge_bare_into_full
  merge_bare_into_full-IsBalanced bare full a u h = record {
    equal = λ c.
        h.equal c
        ∙ sym (
            sum-merge_keys c full (bare_keys fl (bare_prefix bare) a.buckets) a.buckets
              (omega (arith, h.equal c, u c)));
  }

  -- Claude Code's entry keeps its total, and stays balanced.
  abbrev pub Keeps : AgentStats fl → AggregatorInner fl → Type 0
  Keeps a g =
      (a' : AgentStats fl) × (lookup bytes_eq agent_claude g.agents ≡ some a')
      × (a'.total ≡ a.total)
      × IsBalanced fl a'

  promote-Keeps :
      (bare full : Text) (a : AgentStats fl) (g : AggregatorInner fl)
      → lookup bytes_eq agent_claude g.agents ≡ some a
      → IsU64 a
      → IsBalanced fl a
      → Keeps a (promote fl bare full g)
  unfolding promote merge_bare_into_full
  promote-Keeps bare full a g e u h = (
    merge_bare_into_full fl bare full a,
    lookup-modify_same bytes_eq agent_claude (merge_bare_into_full fl bare full) g.agents
        ∙ ap (Option.map (merge_bare_into_full fl bare full)) e,
    refl,
    merge_bare_into_full-IsBalanced bare full a u h,
  )

  choose-Keeps :
      (b : Bool) (a : AgentStats fl) (g g' : AggregatorInner fl)
      → Keeps a g
      → Keeps a g'
      → Keeps a (if b then g else g')
  choose-Keeps true a g g' h h' = h
  choose-Keeps false a g g' h h' = h'

  pub note_model-agents :
      (full : Text) (g : AggregatorInner fl)
      → lookup bytes_eq agent_claude (note_model fl full g).agents
        ≡ lookup bytes_eq agent_claude g.agents
  unfolding note_model
  note_model-agents full g = elim (Bool-cases (is_empty_text full)) [
    | inl t ↦ rw t refl
    | inr f ↦ rw f refl
  ]

  pub note_itself-agents :
      (full : Text) (g : AggregatorInner fl)
      → lookup bytes_eq agent_claude (note_itself fl full g).agents
        ≡ lookup bytes_eq agent_claude g.agents
  unfolding note_itself
  note_itself-agents full g = elim (Bool-cases (is_empty_text full)) [
    | inl t ↦ rw t refl
    | inr f ↦ rw f refl
  ]

  -- When Claude Code's total is the sum of its buckets and each counter fits a u64, registering a
  -- model's name, whatever it merges, keeps the total, and keeps it the sum of the buckets in every
  -- counter.
  pub register-Keeps :
      (full : Text) (a : AgentStats fl) (g : AggregatorInner fl)
      → lookup bytes_eq agent_claude g.agents ≡ some a
      → IsU64 a
      → IsBalanced fl a
      → Keeps a (register_canonical_claude_model fl full g)
  unfolding register_canonical_claude_model register_suffix
  register-Keeps full a g e u h =
      let bare = bare_model full in
      let noted = note_model-agents full g ∙ e in
      let same : Keeps a (note_model fl full g) = (a, noted, refl, h) in
      let n = note_model fl full g in
      let p = promote fl bare full n in
      let named = is_name full (lookup bytes_eq bare n.claude_canonical_models) in
      let known = is_present (lookup bytes_eq bare n.claude_metric_models) in
      choose-Keeps (is_empty_text bare || bytes_eq bare full) a (note_itself fl full n)
        (if known then n else (if named then n else p))
        (a, note_itself-agents full n ∙ noted, refl, h)
        (choose-Keeps known a n (if named then n else p) same
          (choose-Keeps named a n p same (promote-Keeps bare full a n noted u h)))
