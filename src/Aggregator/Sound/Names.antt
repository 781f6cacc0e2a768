-- ===== src/Aggregator/Sound/Names.antt =====
-- The names of Claude's models keep the aggregator sound: only a name that no metric sent is
-- merged.
use otel_logger.Prelude.{
  ℕ, ◌≤◌, ◌≡◌, refl, sym, subst, Bool, true, false, ◌||◌, bytes_eq, eq_of_bytes_eq, if◌then◌else◌,
  Bool-cases, inl, inr, arith,
}
use otel_logger.Prelude.Maps.{
  Entries, lookup, insert, or_default, lookup-upsert_same, lookup-upsert_other,
}
use otel_logger.Otlp.{Text}
use otel_logger.Aggregator.Stats.{Float, Counter, count}
use otel_logger.Aggregator.State.{AgentStats, AggregatorInner, agent_claude, agent_codex, no_agent}
use otel_logger.Aggregator.State.Reserve.{bytes-IsKeyTest, Holds}
use otel_logger.Aggregator.Claude.{bare_model}
use otel_logger.Aggregator.Models.{
  is_present, is_empty_text, is_name, note_model, note_itself, promote, register_suffix,
  register_canonical_claude_model, merge_bare_into_full,
}
use otel_logger.Aggregator.Models.Reserved.{merge_bare_into_full-Holds}
use otel_logger.Aggregator.Sound.{Budget, claude_reserve, codex_reserve, agent_of, IsSound}
use otel_logger.Aggregator.Sound.Agents.{claude_apart, agent_of-modify_same, agent_of-modify_other}
use otel_logger.Aggregator.Sound.Metrics.{IsKnown}

module _ (fl : Float) where
  on_branch :
      (P : AggregatorInner fl → Type 0) (b : Bool) (g g' : AggregatorInner fl)
      → P g
      → ((b ≡ false) → P g')
      → P (if b then g else g')
  on_branch P true g g' h h' = h
  on_branch P false g g' h h' = h' refl

  -- A name that is inserted is known, and so are those that were.
  insert_known :
      (full : Text) (m : Entries Text (Unit {0}))
      → is_present (lookup bytes_eq full (insert bytes_eq full tt m)) ≡ true
  unfolding insert is_present
  insert_known full m = rw (lookup-upsert_same bytes_eq bytes-IsKeyTest full tt (λ _. tt) m) refl

  insert_unknown :
      (model full : Text) (m : Entries Text (Unit {0}))
      → is_present (lookup bytes_eq model (insert bytes_eq full tt m)) ≡ false
      → is_present (lookup bytes_eq model m) ≡ false
  unfolding insert
  insert_unknown model full m h = elim (Bool-cases (bytes_eq full model)) [
    | inl e ↦
        let p = eq_of_bytes_eq full model e in
        let at =
          subst (λ x. is_present (lookup bytes_eq x (insert bytes_eq full tt m)) ≡ true) p
            (insert_known full m) in
        absurd (ground arith)
    | inr e ↦
        subst (λ o. is_present o ≡ false)
          (lookup-upsert_other bytes_eq bytes-IsKeyTest model full tt (λ _. tt) m e) h
  ]

  note_model-IsSound :
      (n : Budget) (full : Text) (g : AggregatorInner fl)
      → IsSound fl n g
      → IsSound fl n (note_model fl full g)
  unfolding note_model
  note_model-IsSound n full g h = on_branch (IsSound fl n) (is_empty_text full) g _ h (λ e. record {
    claude = h.claude;
    codex = h.codex;
    claude_le = h.claude_le;
    codex_le = h.codex_le;
    is_named =
        λ bare p c k st. h.is_named bare (insert_unknown bare full g.claude_metric_models p) c k st;
    distinct = h.distinct;
  })

  note_itself-IsSound :
      (n : Budget) (full : Text) (g : AggregatorInner fl)
      → IsSound fl n g
      → IsSound fl n (note_itself fl full g)
  unfolding note_itself
  note_itself-IsSound n full g h = on_branch (IsSound fl n) (is_empty_text full) g _ h (λ e.
      record {
        claude = h.claude;
        codex = h.codex;
        claude_le = h.claude_le;
        codex_le = h.codex_le;
        is_named = h.is_named;
        distinct = h.distinct;
      })

  merge_le :
      (bare full : Text) (a : AgentStats fl) (c : Counter) (n : ℕ)
      → count fl c a.total ≤ n
      → count fl c (merge_bare_into_full fl bare full a).total ≤ n
  unfolding merge_bare_into_full
  merge_le bare full a c n le = le

  -- A merge of a bare name that no metric sent.
  promote-IsSound :
      (n : Budget) (bare full : Text) (g : AggregatorInner fl)
      → is_present (lookup bytes_eq bare g.claude_metric_models) ≡ false
      → IsSound fl n g
      → IsSound fl n (promote fl bare full g)
  unfolding promote
  promote-IsSound n bare full g unknown h =
      let merge = merge_bare_into_full fl bare full in
      record {
        claude =
            agent_of-modify_same fl agent_claude merge g.agents (Holds fl (claude_reserve fl g))
              (merge_bare_into_full-Holds fl bare full (claude_reserve fl g)
                (agent_of fl agent_claude g) (h.is_named bare unknown) h.claude)
              (λ e.
                subst (λ o. Holds fl (claude_reserve fl g) (or_default (no_agent fl) o)) e
                  h.claude);
        codex =
            subst (Holds fl (codex_reserve fl g))
              (sym (agent_of-modify_other fl agent_codex agent_claude merge g.agents claude_apart))
              h.codex;
        claude_le = λ c.
            agent_of-modify_same fl agent_claude merge g.agents (λ a. count fl c a.total ≤ n c)
              (merge_le bare full (agent_of fl agent_claude g) c (n c) (h.claude_le c))
              (λ e.
                subst (λ o. count fl c (or_default (no_agent fl) o).total ≤ n c) e (h.claude_le c));
        codex_le = λ c.
            rw (agent_of-modify_other fl agent_codex agent_claude merge g.agents claude_apart)
              (h.codex_le c);
        is_named = h.is_named;
        distinct = h.distinct;
      }

  register_suffix-IsSound :
      (n : Budget) (bare full : Text) (g : AggregatorInner fl)
      → IsSound fl n g
      → IsSound fl n (register_suffix fl bare full g)
  unfolding register_suffix
  register_suffix-IsSound n bare full g h =
      on_branch (IsSound fl n) (is_empty_text bare || bytes_eq bare full) (note_itself fl full g) _
        (note_itself-IsSound n full g h)
        (λ _.
          on_branch (IsSound fl n) (is_present (lookup bytes_eq bare g.claude_metric_models)) g _ h
            (λ unknown.
              on_branch (IsSound fl n)
                (is_name full (lookup bytes_eq bare g.claude_canonical_models)) g _ h
                (λ _. promote-IsSound n bare full g unknown h)))

  pub register-IsSound :
      (n : Budget) (full : Text) (g : AggregatorInner fl)
      → IsSound fl n g
      → IsSound fl n (register_canonical_claude_model fl full g)
  unfolding register_canonical_claude_model
  register-IsSound n full g h =
      register_suffix-IsSound n (bare_model full) full (note_model fl full g)
        (note_model-IsSound n full g h)

  -- A model that is registered is known.
  register_suffix-models :
      (bare full : Text) (g : AggregatorInner fl)
      → (register_suffix fl bare full g).claude_metric_models ≡ g.claude_metric_models
  unfolding register_suffix note_itself promote
  register_suffix-models bare full g =
      let same : AggregatorInner fl → Type 0 =
        λ x. x.claude_metric_models ≡ g.claude_metric_models in
      on_branch same (is_empty_text bare || bytes_eq bare full) (note_itself fl full g) _
        (on_branch same (is_empty_text full) g _ refl (λ _. refl))
        (λ _.
          on_branch same (is_present (lookup bytes_eq bare g.claude_metric_models)) g _ refl (λ _.
            on_branch same (is_name full (lookup bytes_eq bare g.claude_canonical_models)) g _ refl
              (λ _. refl)))

  pub register-IsKnown :
      (full : Text) (g : AggregatorInner fl)
      → is_empty_text full ≡ false
      → IsKnown fl full (register_canonical_claude_model fl full g)
  unfolding register_canonical_claude_model note_model
  register-IsKnown full g e =
      subst (λ m. is_present (lookup bytes_eq full m) ≡ true)
        (sym (register_suffix-models (bare_model full) full (note_model fl full g)))
        (rw e (insert_known full g.claude_metric_models))
