-- ===== src/Diagnostics/Accounts.antt =====
-- No line is lost unaccounted.
use otel_logger.Prelude.{
  ℕ, ◌+◌, ◌≤◌, ◌≡◌, refl, ◌∙◌, List, [], ◌∷◌, Bool, true, false, ltb, if◌then◌else◌, Bool-cases,
  inl, inr, arith, total, total-append, u64_max, saturating_add,
}
use otel_logger.Diagnostics.{
  Line, Answer, Out, Written, a_line, a_note, Diagnostics, Event, overflow, flush, line, fetch_add,
  write_line, note_write, put_line, behind_note, on_line, on_event, run, spawn,
}

-- How many lines an event is about, and how many something that was written accounts for.
abbrev pub lines_in : Event → ℕ
lines_in overflow = 1
lines_in flush = 0
lines_in (line l) = 1

abbrev pub accounts_for : Written → ℕ
accounts_for (a_line l) = 1
accounts_for (a_note n) = n

-- The lines that are accounted for, or counted to be.
abbrev pub accounted : Diagnostics → ℕ
accounted s = total accounts_for s.written + s.dropped

accounted-note_write :
    (w : Written) (lost : ℕ) (r : Bool × Bool × Out) (s : Diagnostics)
    → accounted s + lost ≤ u64_max
    → accounted (note_write w lost r s).1
      ≡ accounted s + (if (note_write w lost r s).0 then accounts_for w else lost)
unfolding note_write fetch_add
accounted-note_write w lost (true, torn, out) s fits =
    omega (arith, total-append accounts_for s.written (w ∷ []))
accounted-note_write w lost (false, torn, out) s fits = ground arith

accounted-put_line :
    (l : Line) (s : Diagnostics)
    → accounted s + 1 ≤ u64_max
    → accounted (put_line l s) ≡ accounted s + 1
unfolding put_line
accounted-put_line l s fits =
    let r = write_line l s.torn s.out in
    accounted-note_write (a_line l) 1 r s fits
    ∙ elim (Bool-cases (note_write (a_line l) 1 r s).0) [ inl e ↦ rw e refl | inr e ↦ rw e refl ]

accounted-behind_note :
    (l : Line) (n acc : ℕ) (r : Bool × Diagnostics)
    → acc + n + 1 ≤ u64_max
    → accounted r.1 ≡ acc + (if r.0 then n else saturating_add n 1)
    → accounted (behind_note l r) ≡ acc + n + 1
unfolding behind_note
accounted-behind_note l n acc (true, s) fits h =
    unfold behind_note in omega (arith, h, accounted-put_line l s (omega (arith, fits, h)))
accounted-behind_note l n acc (false, s) fits h = ground arith

module _ (dropped_note : ℕ → Line) where
  accounted-on_line :
      (l : Line) (n : ℕ) (s : Diagnostics)
      → accounted s + n + 1 ≤ u64_max
      → accounted (on_line dropped_note l n s) ≡ accounted s + n + 1
  unfolding on_line
  accounted-on_line l n s fits =
      let r = write_line (dropped_note n) s.torn s.out in
      let one : saturating_add n 1 ≡ n + 1 = ground arith in
      elim (Bool-cases (ltb 0 n)) [
        | inl e ↦ rw e (
            accounted-behind_note l n (accounted s) (note_write (a_note n) (saturating_add n 1) r s)
              fits
              (accounted-note_write (a_note n) (saturating_add n 1) r s (omega (arith, one, fits))))
        | inr e ↦
            let none_lost : n ≡ 0 = ground arith in
            rw e (omega (arith, none_lost, accounted-put_line l s (omega (arith, fits))))
      ]

  accounted-on_event :
      (e : Event) (s : Diagnostics)
      → accounted s + lines_in e ≤ u64_max
      → accounted (on_event dropped_note e s) ≡ accounted s + lines_in e
  unfolding on_event fetch_add
  accounted-on_event overflow s fits = ground arith
  accounted-on_event flush s fits = omega arith
  accounted-on_event (line l) s fits =
      let s' = record s { dropped = 0 } in
      omega (arith, accounted-on_line l s.dropped s' (omega (arith, fits)))

  accounted-run :
      (es : List Event) (s : Diagnostics)
      → accounted s + total lines_in es ≤ u64_max
      → accounted (run dropped_note es s) ≡ accounted s + total lines_in es
  unfolding run
  accounted-run [] s fits = omega arith
  accounted-run (e ∷ es) s fits =
      let one = accounted-on_event e s (omega (arith, fits)) in
      let rest = accounted-run es (on_event dropped_note e s) (omega (arith, fits, one)) in
      omega (arith, one, rest)

  -- While fewer than 2 ^ 64 lines come, whatever the output answers: the lines that were written
  -- whole, the counts of the notes that were written whole and the counter of dropped lines add up
  -- to the lines that came.
  pub run_accounts :
      (answers : List Answer) (es : List Event)
      → total lines_in es ≤ u64_max
      → total accounts_for (run dropped_note es (spawn answers)).written
          + (run dropped_note es (spawn answers)).dropped
        ≡ total lines_in es
  run_accounts answers es fits =
      omega (arith, accounted-run es (spawn answers) (omega (arith, fits)))
