-- ===== src/Sink/Pretty/Calls.antt =====
-- What an access of a call of `enqueue` does to the bytes that are counted and queued.
use otel_logger.Prelude.{
  ℕ, zero, suc, ◌+◌, ◌^◌, ◌≤◌, ◌<◌, ◌≡◌, refl, ap, List, [], ◌∷◌, true, false, length, total,
  total-append, arith, ◌⊎◌, inl, inr,
}
use otel_logger.Channel.{Channel, TrySend, sent, full, closed}
use otel_logger.Sink.Pretty.{
  PrettyJob, PrettyOutput, Call, counted, sending, returning, reporting, finished, sent_or, advance,
  advance_at, try_enqueue, report_drop, report_stopped, report_behind,
}

abbrev pub job_bytes : PrettyJob → ℕ
job_bytes j = length j.rendered

pub TrySend-cases :
    {C : Type 0} (r : TrySend C) → ((c : C) × (r ≡ sent c)) ⊎ ((r ≡ full) ⊎ (r ≡ closed))
TrySend-cases (sent c) = inl (c, refl)
TrySend-cases full = inr (inl refl)
TrySend-cases closed = inr (inr refl)

module _ (ch : Channel PrettyJob) where
  open ch use {contents, is_closed, try_send}

  abbrev pub queued_total : PrettyOutput ch → ℕ
  queued_total o = total job_bytes (contents o.tx)

  -- The bytes of a call that are counted, and those of a call that may still be sent.
  abbrev pub pending : Call ch → ℕ
  pending (counted over j) = job_bytes j
  pending (sending j) = job_bytes j
  pending (returning reason j) = job_bytes j
  pending (reporting reason) = 0
  pending finished = 0

  abbrev pub admitted : Call ch → ℕ
  admitted (counted false j) = job_bytes j
  admitted (sending j) = job_bytes j
  admitted _ = 0

  admitted-pending : (c : Call ch) → admitted c ≤ pending c
  admitted-pending (counted true j) = omega arith
  admitted-pending (counted false j) = omega arith
  admitted-pending (sending j) = omega arith
  admitted-pending (returning reason j) = omega arith
  admitted-pending (reporting reason) = omega arith
  admitted-pending finished = omega arith

  pub total-admitted : (cs : List (Call ch)) → total admitted cs ≤ total pending cs
  total-admitted [] = omega arith
  total-admitted (c ∷ cs) = omega (arith, admitted-pending c, total-admitted cs)

  -- What an access of calls does to what is counted and to what is queued.
  pub record Moves (before after : ℕ) (may may' : ℕ) (o o' : PrettyOutput ch) : Type 0 where
    pub balance :
        queued_total o' + after + o.queued_bytes ≡ queued_total o + before + o'.queued_bytes
    pub room : queued_total o' + may' ≤ queued_total o + may
    pub less : o'.queued_bytes ≤ o.queued_bytes
    pub same_limit : o'.max_queued_bytes ≡ o.max_queued_bytes

  advance-Moves :
      (c : Call ch) (o : PrettyOutput ch)
      → pending c ≤ o.queued_bytes
      → o.queued_bytes < 2 ^ 64
      → Moves
          (pending c)
          (pending (advance ch c o).0)
          (admitted c)
          (admitted (advance ch c o).0)
          o
          (advance ch c o).1
  unfolding advance sent_or try_enqueue report_drop report_stopped report_behind
  advance-Moves (counted true j) o h w = record {
    balance = ground arith;
    room = ground arith;
    less = ground arith;
    same_limit = ground arith;
  }
  advance-Moves (counted false j) o h w = record {
    balance = ground arith;
    room = ground arith;
    less = ground arith;
    same_limit = ground arith;
  }
  advance-Moves (sending j) o h w = elim (TrySend-cases (try_send j o.tx)) [
    | inl (c, s) ↦
        let q = (ch.sent_lem j o.tx c s).0 in
        let sum : total job_bytes (contents c) ≡ total job_bytes (contents o.tx) + job_bytes j =
          omega (arith, ap (total job_bytes) q, total-append job_bytes (contents o.tx) (j ∷ [])) in
        rw s (record {
          balance = omega (arith, sum);
          room = omega (arith, sum);
          less = omega arith;
          same_limit = refl;
        })
    | inr (inl f) ↦ rw f (record {
      balance = omega arith;
      room = omega arith;
      less = omega arith;
      same_limit = refl;
    })
    | inr (inr f) ↦ rw f (record {
      balance = omega arith;
      room = omega arith;
      less = omega arith;
      same_limit = refl;
    })
  ]
  advance-Moves (returning reason j) o h w = record {
    balance = ground arith;
    room = ground arith;
    less = ground arith;
    same_limit = ground arith;
  }
  advance-Moves (reporting reason) o h w = record {
    balance = ground arith;
    room = ground arith;
    less = ground arith;
    same_limit = ground arith;
  }
  advance-Moves finished o h w = record {
    balance = ground arith;
    room = ground arith;
    less = ground arith;
    same_limit = ground arith;
  }

  pub advance_at-Moves :
      (i : ℕ) (cs : List (Call ch)) (o : PrettyOutput ch)
      → total pending cs ≤ o.queued_bytes
      → o.queued_bytes < 2 ^ 64
      → Moves
          (total pending cs)
          (total pending (advance_at ch i cs o).0)
          (total admitted cs)
          (total admitted (advance_at ch i cs o).0)
          o
          (advance_at ch i cs o).1
  unfolding advance_at
  advance_at-Moves i [] o h w = record {
    balance = omega arith;
    room = omega arith;
    less = omega arith;
    same_limit = refl;
  }
  advance_at-Moves zero (c ∷ cs) o h w =
      let m = advance-Moves c o (omega (arith, h)) w in
      record {
        balance = omega (arith, m.balance);
        room = omega (arith, m.room);
        less = m.less;
        same_limit = m.same_limit;
      }
  advance_at-Moves (suc i) (c ∷ cs) o h w =
      let m = advance_at-Moves i cs o (omega (arith, h)) w in
      record {
        balance = omega (arith, m.balance);
        room = omega (arith, m.room);
        less = m.less;
        same_limit = m.same_limit;
      }

  -- The accesses of a call that meets no other.
  pub run_alone : ℕ → Call ch × PrettyOutput ch → Call ch × PrettyOutput ch
  run_alone zero (c, o) = (c, o)
  run_alone (suc n) (c, o) = run_alone n (advance ch c o)
