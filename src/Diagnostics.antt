-- ===== src/Diagnostics.antt =====
-- src/diagnostics.rs: the writer of the diagnostic log, which drops what it cannot write and says
-- how much. What each call of `write` answers is an argument; where the answers end, all is written.
pub mod Accounts
pub mod Whole
mod Tests
use otel_logger.Prelude.{
  ℕ, ◌+◌, ◌^◌, ◌%◌, List, [], ◌∷◌, ◌++◌, Bool, true, false, ◌==◌, ltb, if◌then◌else◌, length, take,
  drop, saturating_add, Result, ok, err,
}

abbrev pub Line : Type 0
Line = List ℕ

-- What a call of `write` answers: that it took so many bytes (all that there are, where it says
-- more), that it was interrupted, or another error.
pub data Answer : Type 0 where
  accepted : ℕ → Answer
  interrupted refused : Answer

-- The output: its answers to come, and the bytes that it took.
pub record Out : Type 0 where
  pub answers : List Answer
  pub bytes : Line

-- `write_counting`, with the bytes still to write and the count of those written.
unfoldable pub write_rest : List Answer → Line → ℕ → Line → Result ℕ Unit × Out
write_rest [] buf written bytes = (ok tt, record { answers = []; bytes = bytes ++ buf })
write_rest (a ∷ more) [] written bytes = (ok tt, record { answers = a ∷ more; bytes = bytes })
write_rest (accepted n ∷ more) (b ∷ buf) written bytes =
    let rest =
      write_rest more (drop n (b ∷ buf)) (written + length (take n (b ∷ buf)))
        (bytes ++ take n (b ∷ buf)) in
    if n == 0 then (err written, record { answers = more; bytes = bytes }) else rest
write_rest (interrupted ∷ more) (b ∷ buf) written bytes = write_rest more (b ∷ buf) written bytes
write_rest (refused ∷ more) (b ∷ buf) written bytes =
    (err written, record { answers = more; bytes = bytes })

unfoldable pub write_counting : Line → Out → Result ℕ Unit × Out
unfolding write_rest
write_counting buf out = write_rest out.answers buf 0 out.bytes

-- The line, behind the newline that closes a torn one: whether it was written, and whether the
-- output is torn.
unfoldable pub written_line : Result ℕ Unit × Out → Bool × Bool × Out
written_line (ok u, out) = (true, false, out)
written_line (err n, out) = (false, ltb 0 n, out)

unfoldable pub write_closed : Line → Out → Bool × Bool × Out
unfolding written_line write_counting
write_closed line out = written_line (write_counting line out)

unfoldable pub write_behind : Line → Result ℕ Unit × Out → Bool × Bool × Out
write_behind line (ok u, out) = write_closed line out
write_behind line (err n, out) = (false, true, out)

unfoldable pub write_line : Line → Bool → Out → Bool × Bool × Out
unfolding write_behind
write_line line true out = write_behind line (write_counting (10 ∷ []) out)
write_line line false out = write_closed line out

-- What was written whole: a line, or a note of how many were dropped.
pub data Written : Type 0 where
  a_line : Line → Written
  a_note : ℕ → Written

-- The state of `run`: the counter that it shares with the writers, whether the last line is torn,
-- the output, and what was written whole so far.
pub record Diagnostics : Type 0 where
  pub dropped : ℕ
  pub torn : Bool
  pub out : Out
  pub written : List Written

-- `fetch_add`, which wraps around.
unfoldable pub fetch_add : ℕ → ℕ → ℕ
fetch_add n k = (n + k) % 2 ^ 64

-- What happens: a writer's line does not fit the queue and is counted, or `run` takes a line or a
-- request to flush from it.
pub data Event : Type 0 where
  overflow flush : Event
  line : Line → Event

-- A note or a line, and what is recorded of it.
unfoldable pub note_write : Written → ℕ → Bool × Bool × Out → Diagnostics → Bool × Diagnostics
note_write w lost (true, torn, out) s =
    (true, record s { torn = torn; out = out; written = s.written ++ (w ∷ []) })
note_write w lost (false, torn, out) s =
    (false, record s { torn = torn; out = out; dropped = fetch_add s.dropped lost })

unfoldable pub put_line : Line → Diagnostics → Diagnostics
unfolding note_write
put_line l s = (note_write (a_line l) 1 (write_line l s.torn s.out) s).1

unfoldable pub behind_note : Line → Bool × Diagnostics → Diagnostics
unfolding put_line
behind_note l (true, s) = put_line l s
behind_note l (false, s) = s

module _ (dropped_note : ℕ → Line) where
  -- `Message::Line`, with the count that `swap` found.
  unfoldable pub on_line : Line → ℕ → Diagnostics → Diagnostics
  unfolding behind_note note_write
  on_line l lost s =
      let noted =
        note_write (a_note lost) (saturating_add lost 1)
          (write_line (dropped_note lost) s.torn s.out) s in
      if ltb 0 lost then behind_note l noted else put_line l s

  unfoldable pub on_event : Event → Diagnostics → Diagnostics
  unfolding on_line
  on_event overflow s = record s { dropped = fetch_add s.dropped 1 }
  on_event flush s = s
  on_event (line l) s = on_line l s.dropped (record s { dropped = 0 })

  unfoldable pub run : List Event → Diagnostics → Diagnostics
  unfolding on_event
  run [] s = s
  run (e ∷ es) s = run es (on_event e s)

-- `spawn`
abbrev pub spawn : List Answer → Diagnostics
spawn answers = record {
  dropped = 0;
  torn = false;
  out = record { answers = answers; bytes = [] };
  written = [];
}
