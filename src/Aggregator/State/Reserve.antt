-- ===== src/Aggregator/State/Reserve.antt =====
-- What the buckets of an agent must still hold: usage that may be taken back or moved later.
use otel_logger.Prelude.{
  ℕ, ◌+◌, ◌≤◌, ◌≡◌, refl, sym, ◌∙◌, Option, none, some, bytes_eq, bytes_eq_refl, eq_of_bytes_eq,
  u64_max, if◌then◌else◌, Bool-cases, Option-cases, inl, inr, arith,
}
use otel_logger.Prelude.Maps.{
  Entries, lookup, upsert, le-sum_of, sum_of-upsert, IsKeyTest, lookup-upsert_same,
  lookup-upsert_other, lookup-remove_other, lookup-modify_same, lookup-modify_other,
}
use otel_logger.Otlp.{Text}
use otel_logger.Aggregator.Stats.{
  Float, Counter, ModelStats, no_stats, subtract, has_any_value, count, count-add, count-subtract,
  count-no_stats, count_nothing,
}
use otel_logger.Aggregator.Bucket.{Bucket, key}
use otel_logger.Aggregator.State.{
  BucketStats, AgentStats, from_bucket, no_agent, add_stats, subtract_stats, record_agent,
  subtract_bucket, subtract_agent, move_agent,
}
use otel_logger.Aggregator.State.Balance.{
  bucket_count, bucket_sum, IsBalanced, Fits, record_agent-IsBalanced, sum-subtract_bucket,
}

pub bytes-IsKeyTest : IsKeyTest bytes_eq
bytes-IsKeyTest = record { reflexive = bytes_eq_refl; sound = eq_of_bytes_eq }

module _ (fl : Float) where
  abbrev pub Reserve : Type 0
  Reserve = Counter → Text → ℕ

  -- The usage of one bucket.
  abbrev pub part : Bucket → ModelStats fl → Reserve
  part b s c k = if bytes_eq (key b) k then count fl c s else 0

  abbrev pub some_count : Counter → Option (BucketStats fl) → ℕ
  some_count c none = 0
  some_count c (some b) = count fl c b.stats

  abbrev pub count_at : Counter → Text → Entries Text (BucketStats fl) → ℕ
  count_at c k m = some_count c (lookup bytes_eq k m)

  -- The total is the sum of the buckets and a `u64`, and each bucket holds what is reserved of it.
  pub record Holds (r : Reserve) (a : AgentStats fl) : Type 0 where
    pub balanced : IsBalanced fl a
    pub is_u64 : (c : Counter) → count fl c a.total ≤ u64_max
    pub covers : (c : Counter) (k : Text) → r c k ≤ count_at c k a.buckets

  pub no_agent-Holds :
      (r : Reserve) → ((c : Counter) (k : Text) → r c k ≡ 0) → Holds r (no_agent fl)
  no_agent-Holds r z = record {
    balanced = record { equal = λ c. count-no_stats fl c };
    is_u64 = λ c. omega (arith, count-no_stats fl c);
    covers = λ c k. omega (arith, z c k);
  }

  pub Holds-weaken :
      (r r' : Reserve) (a : AgentStats fl)
      → ((c : Counter) (k : Text) → r' c k ≤ r c k)
      → Holds r a
      → Holds r' a
  Holds-weaken r r' a less h = record {
    balanced = h.balanced;
    is_u64 = h.is_u64;
    covers = λ c k. omega (arith, less c k, h.covers c k);
  }

  pub count_at-le :
      (c : Counter) (k : Text) (m : Entries Text (BucketStats fl))
      → count_at c k m ≤ bucket_sum fl c m
  count_at-le c k m = elim (Option-cases (lookup bytes_eq k m)) [
    | inl e ↦ rw e (omega arith)
    | inr (v, e) ↦ rw e (le-sum_of bytes_eq (bucket_count fl c) k m v e)
  ]

  -- A bucket that is added to, while the sum fits.
  pub count_at-upsert :
      (c : Counter) (k : Text) (b : Bucket) (s : ModelStats fl) (m : Entries Text (BucketStats fl))
      → bucket_sum fl c m + count fl c s ≤ u64_max
      → count_at c k m + part b s c k
        ≤ count_at c k (upsert bytes_eq (key b) (from_bucket fl b) (add_stats fl s) m)
  count_at-upsert c k b s m fits = elim (Bool-cases (bytes_eq (key b) k)) [
    | inl e ↦
        let p = eq_of_bytes_eq (key b) k e in
        let at =
          lookup-upsert_same bytes_eq bytes-IsKeyTest (key b) (from_bucket fl b) (add_stats fl s)
            m in
        let le = count_at-le c (key b) m in
        rw (e, ← p, at)
          (elim (Option-cases (lookup bytes_eq (key b) m)) [
            | inl n ↦ rw n (ground (arith, count-add fl c (no_stats fl) s, count-no_stats fl c))
            | inr (v, n) ↦ rw n (ground (arith, n, le, count-add fl c v.stats s))
          ])
    | inr o ↦
        rw
          (
            o,
            lookup-upsert_other bytes_eq bytes-IsKeyTest k (key b) (from_bucket fl b)
                (add_stats fl s) m o,
          )
          (omega arith)
  ]

  pub record_agent-Holds :
      (b : Bucket) (s : ModelStats fl) (r r' : Reserve) (a : AgentStats fl)
      → Fits fl a.total s
      → ((c : Counter) (k : Text) → r' c k ≤ r c k + part b s c k)
      → Holds r a
      → Holds r' (record_agent fl b s a)
  unfolding record_agent
  record_agent-Holds b s r r' a fits less h = record {
    balanced = unfold record_agent in record_agent-IsBalanced fl b s a fits h.balanced;
    is_u64 = λ c. rw (count-add fl c a.total s) (ground arith);
    covers = λ c k. omega (
      arith,
      less c k,
      h.covers c k,
      count_at-upsert c k b s a.buckets (omega (arith, fits c, h.balanced.equal c)),
    );
  }

  -- A bucket that is subtracted from.
  count_at-subtract :
      (c : Counter) (k kb : Text) (s : ModelStats fl) (o : Option (BucketStats fl))
      (m : Entries Text (BucketStats fl))
      → lookup bytes_eq kb m ≡ o
      → count_at c k m
        ≤ count_at c k (subtract_bucket fl kb s o m) + (if bytes_eq kb k then count fl c s else 0)
  unfolding subtract_bucket
  count_at-subtract c k kb s none m e = omega arith
  count_at-subtract c k kb s (some v) m e =
      let left = count-subtract fl c v.stats s in
      elim (Bool-cases (has_any_value fl (subtract_stats fl s v).stats)) [
        | inl kept ↦ rw kept (elim (Bool-cases (bytes_eq kb k)) [
          | inl same ↦
              let p = eq_of_bytes_eq kb k same in
              let at = lookup-modify_same bytes_eq kb (subtract_stats fl s) m in
              rw (same, ← p, at, e) (omega (arith, left))
          | inr other ↦
              rw
                (
                  other,
                  lookup-modify_other bytes_eq bytes-IsKeyTest k kb (subtract_stats fl s) m other,
                )
                (omega arith)
        ])
        | inr gone ↦ rw gone (elim (Bool-cases (bytes_eq kb k)) [
          | inl same ↦
              let p = eq_of_bytes_eq kb k same in
              let zero = count_nothing fl c (subtract fl v.stats s) gone in
              rw (same, ← p, e) (omega (arith, left, zero))
          | inr other ↦
              rw (other, lookup-remove_other bytes_eq bytes-IsKeyTest k kb m other) (omega arith)
        ])
      ]

  sum-subtract :
      (c : Counter) (kb : Text) (s : ModelStats fl) (o : Option (BucketStats fl))
      (m : Entries Text (BucketStats fl))
      → lookup bytes_eq kb m ≡ o
      → count fl c s ≤ some_count c o
      → bucket_sum fl c (subtract_bucket fl kb s o m) + count fl c s ≡ bucket_sum fl c m
  unfolding subtract_bucket
  sum-subtract c kb s none m e h = omega (arith, h)
  sum-subtract c kb s (some v) m e h = sum-subtract_bucket fl c kb s v m e h

  part_self : (c : Counter) (b : Bucket) (s : ModelStats fl) → part b s c (key b) ≡ count fl c s
  part_self c b s = rw (bytes_eq_refl (key b)) refl

  module _ (b : Bucket) (s : ModelStats fl) (r r0 : Reserve) (a : AgentStats fl)
      (held : (c : Counter) (k : Text) → r0 c k + part b s c k ≤ r c k) (h : Holds r a) where
    abbrev left : Entries Text (BucketStats fl)
    left = subtract_bucket fl (key b) s (lookup bytes_eq (key b) a.buckets) a.buckets

    enough : (c : Counter) → count fl c s ≤ count_at c (key b) a.buckets
    enough c = omega (arith, part_self c b s, held c (key b), h.covers c (key b))

    sum-left : (c : Counter) → bucket_sum fl c left + count fl c s ≡ bucket_sum fl c a.buckets
    sum-left c =
        sum-subtract c (key b) s (lookup bytes_eq (key b) a.buckets) a.buckets refl (enough c)

    left-covers : (c : Counter) (k : Text) → r0 c k ≤ count_at c k left
    left-covers c k = omega (
      arith,
      held c k,
      h.covers c k,
      count_at-subtract c k (key b) s (lookup bytes_eq (key b) a.buckets) a.buckets refl,
    )

    -- Usage that is reserved can be taken back.
    pub subtract_agent-Holds : Holds r0 (subtract_agent fl b s a)
    unfolding subtract_agent
    subtract_agent-Holds = record {
      balanced = record {
        equal = λ c. omega (arith, count-subtract fl c a.total s, sum-left c, h.balanced.equal c);
      };
      is_u64 = λ c. omega (arith, count-subtract fl c a.total s, h.is_u64 c);
      covers = left-covers;
    }

    -- Usage that is reserved can be moved to another bucket, and stay reserved there.
    pub move_agent-Holds :
        (to : Bucket) (r' : Reserve)
        → ((c : Counter) (k : Text) → r' c k ≤ r0 c k + part to s c k)
        → Holds r' (move_agent fl b to s a)
    unfolding move_agent
    move_agent-Holds to r' less = record {
      balanced = record {
        equal = λ c.
            h.balanced.equal c
            ∙ sym (
                sum_of-upsert bytes_eq (bucket_count fl c) (key to) (from_bucket fl to)
                  (add_stats fl s) (count fl c s) left (count-no_stats fl c)
                  (λ v le.
                    rw (count-add fl c v.stats s)
                      (ground (arith, sum-left c, h.is_u64 c, h.balanced.equal c)))
                ∙ sum-left c);
      };
      is_u64 = h.is_u64;
      covers = λ c k. omega (
        arith,
        less c k,
        left-covers c k,
        count_at-upsert c k to s left (omega (arith, sum-left c, h.is_u64 c, h.balanced.equal c)),
      );
    }
