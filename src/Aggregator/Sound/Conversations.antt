-- ===== src/Aggregator/Sound/Conversations.antt =====
-- Usage that waits for the session of its conversation, and is moved when the session is known.
use otel_logger.Prelude.{
  ◌+◌, ◌≤◌, ◌≡◌, refl, sym, ap, subst, Option, none, some, [], ◌∷◌, Bool, true, false, bytes_eq,
  if◌then◌else◌, Bool-cases, inl, inr, arith,
}
use otel_logger.Prelude.Maps.{lookup, insert, remove, sum_of-remove, sum_of-upsert-le}
use otel_logger.Otlp.{Text}
use otel_logger.Aggregator.Stats.{Float, Counter, ModelStats, no_stats, add}
use otel_logger.Aggregator.Bucket.{Bucket}
use otel_logger.Aggregator.State.{
  AggregatorInner, same_bucket, agent_codex, move_codex_bucket_stats,
}
use otel_logger.Aggregator.State.Reserve.{Reserve, part, Holds, Holds-weaken}
use otel_logger.Aggregator.Codex.{
  Usages, add_usage, Merge, resolve, is_unsettled, merge_pending, merge_all, put_back,
  merge_conversation, is_empty_list,
}
use otel_logger.Aggregator.Sound.{Budget, reserved, codex_reserve, agent_of, IsSound, Distinct}
use otel_logger.Aggregator.Sound.Reserved.{same_bucket-IsKeyTest, reserved-upsert, Distinct-upsert}
use otel_logger.Aggregator.Sound.Moves.{
  move-Holds, move-IsSound, AllDistinct-insert, AllDistinct-remove,
}

module _ (fl : Float) where
  keep_le :
      (u : Bool) (to : Bucket) (s : ModelStats fl) (kept : Usages fl) (c : Counter) (k : Text)
      → reserved fl c k (if u then add_usage fl to s kept else kept)
        ≤ reserved fl c k kept + part fl to s c k
  keep_le true to s kept c k = reserved-upsert fl c k to s kept
  keep_le false to s kept c k = omega arith

  keep-Distinct :
      (u : Bool) (to : Bucket) (s : ModelStats fl) (kept : Usages fl)
      → Distinct fl kept
      → Distinct fl (if u then add_usage fl to s kept else kept)
  keep-Distinct true to s kept h = Distinct-upsert fl to (no_stats fl) (λ t. add fl t s) kept h
  keep-Distinct false to s kept h = h

  -- The loop: Codex's buckets hold what is still to be merged, and what is kept for later.
  record Merging (n : Budget) (entries : Usages fl) (m : Merge fl) : Type 0 where
    pub sound : IsSound fl n m.inner
    pub holds :
        Holds fl
          (λ c k. reserved fl c k entries + (reserved fl c k m.kept + codex_reserve fl m.inner c k))
          (agent_of fl agent_codex m.inner)
    pub kept_distinct : Distinct fl m.kept

  merge_pending-Merging :
      (n : Budget) (u : Bool) (from to : Bucket) (s : ModelStats fl) (entries : Usages fl)
      (m : Merge fl)
      → Merging n ((from, s) ∷ entries) m
      → Merging n entries (merge_pending fl u from to s m)
  unfolding merge_pending
  merge_pending-Merging n u from to s entries m h =
      let kept = if u then add_usage fl to s m.kept else m.kept in
      let more = keep_le u to s m.kept in
      let d = keep-Distinct u to s m.kept h.kept_distinct in
      let r : Reserve fl = λ c k.
        reserved fl c k ((from, s) ∷ entries)
        + (reserved fl c k m.kept + codex_reserve fl m.inner c k) in
      let r0 : Reserve fl =
        λ c k. reserved fl c k entries + (reserved fl c k m.kept + codex_reserve fl m.inner c k) in
      let r' : Reserve fl =
        λ c k. reserved fl c k entries + (reserved fl c k kept + codex_reserve fl m.inner c k) in
      elim (Bool-cases (same_bucket from to)) [
        | inl e ↦
            let p = same_bucket-IsKeyTest.sound from to e in
            let same : (c : Counter) (k : Text) → part fl to s c k ≡ part fl from s c k =
              λ c k. ap (λ b. part fl b s c k) (sym p) in
            rw e (record {
              sound = h.sound;
              holds =
                  Holds-weaken fl r r' (agent_of fl agent_codex m.inner)
                    (λ c k. omega (arith, more c k, same c k)) h.holds;
              kept_distinct = d;
            })
        | inr e ↦
            let moved =
              move-Holds fl from to s r0 r r' (λ c k. omega arith) (λ c k. omega (arith, more c k))
                m.inner h.holds in
            let g' = move_codex_bucket_stats fl from to s m.inner in
            let same : codex_reserve fl g' ≡ codex_reserve fl m.inner =
              unfold move_codex_bucket_stats in refl in
            rw e (record {
              sound =
                  move-IsSound fl n from to s m.inner
                    (Holds-weaken fl r' (codex_reserve fl m.inner) (agent_of fl agent_codex g')
                      (λ c k. omega arith) moved)
                    h.sound;
              holds =
                  subst
                    (λ x.
                      Holds fl (λ c k. reserved fl c k entries + (reserved fl c k kept + x c k))
                        (agent_of fl agent_codex g'))
                    (sym same) moved;
              kept_distinct = d;
            })
      ]

  merge_all-Merging :
      (n : Budget) (provider effort : Text) (confirmed : Bool) (entries : Usages fl) (m : Merge fl)
      → Merging n entries m
      → Merging n [] (merge_all fl provider effort confirmed entries m)
  unfolding merge_all
  merge_all-Merging n provider effort confirmed [] m h = h
  merge_all-Merging n provider effort confirmed ((from, s) ∷ entries) m h =
      let to = resolve fl provider effort from in
      let u = is_unsettled fl confirmed to in
      merge_all-Merging n provider effort confirmed entries (merge_pending fl u from to s m)
        (merge_pending-Merging n u from to s entries m h)

  put_back-IsSound :
      (n : Budget) (cid : Text) (m : Merge fl) → Merging n [] m → IsSound fl n (put_back fl cid m).1
  unfolding put_back
  put_back-IsSound n cid m h =
      let g' = record m.inner {
        codex_pending_sse = insert bytes_eq cid m.kept m.inner.codex_pending_sse;
      } in
      let more : (c : Counter) (k : Text)
          → codex_reserve fl g' c k ≤ codex_reserve fl m.inner c k + reserved fl c k m.kept =
        λ c k.
          unfold insert in
          sum_of-upsert-le bytes_eq (reserved fl c k) cid m.kept (λ _. m.kept)
            (reserved fl c k m.kept) m.inner.codex_pending_sse (omega arith) (λ v. omega arith) in
      elim (Bool-cases (is_empty_list m.kept)) [
        | inl e ↦ rw e h.sound
        | inr e ↦ rw e (record {
          claude = h.sound.claude;
          codex =
              Holds-weaken fl
                (λ c k.
                  reserved fl c k [] + (reserved fl c k m.kept + codex_reserve fl m.inner c k))
                (codex_reserve fl g') (agent_of fl agent_codex m.inner)
                (λ c k. omega (arith, more c k)) h.holds;
          claude_le = h.sound.claude_le;
          codex_le = h.sound.codex_le;
          is_named = h.sound.is_named;
          distinct =
              AllDistinct-insert fl cid m.kept m.inner.codex_pending_sse h.kept_distinct
                h.sound.distinct;
        })
      ]

  pub merge_conversation-IsSound :
      (n : Budget) (provider cid effort : Text) (confirmed : Bool) (o : Option (Usages fl))
      (g : AggregatorInner fl)
      → lookup bytes_eq cid g.codex_pending_sse ≡ o
      → IsSound fl n g
      → IsSound fl n (merge_conversation fl provider cid effort confirmed o g).1
  unfolding merge_conversation
  merge_conversation-IsSound n provider cid effort confirmed none g e h = h
  merge_conversation-IsSound n provider cid effort confirmed (some entries) g e h =
      let g' = record g { codex_pending_sse = remove bytes_eq cid g.codex_pending_sse } in
      let out : (c : Counter) (k : Text)
          → codex_reserve fl g' c k + reserved fl c k entries ≡ codex_reserve fl g c k =
        λ c k. sum_of-remove bytes_eq (reserved fl c k) cid g.codex_pending_sse entries e in
      let start : Merge fl = record { inner = g'; kept = []; moved = false } in
      put_back-IsSound n cid (merge_all fl provider effort confirmed entries start) (
        merge_all-Merging n provider effort confirmed entries start (record {
          sound = record {
            claude = h.claude;
            codex =
                Holds-weaken fl (codex_reserve fl g) (codex_reserve fl g')
                  (agent_of fl agent_codex g) (λ c k. omega (arith, out c k)) h.codex;
            claude_le = h.claude_le;
            codex_le = h.codex_le;
            is_named = h.is_named;
            distinct = AllDistinct-remove fl cid g.codex_pending_sse h.distinct;
          };
          holds =
              Holds-weaken fl (codex_reserve fl g)
                (λ c k. reserved fl c k entries + (reserved fl c k [] + codex_reserve fl g' c k))
                (agent_of fl agent_codex g) (λ c k. omega (arith, out c k)) h.codex;
          kept_distinct = tt;
        }))
