-- ===== src/Diagnostics/Tests.antt =====
-- An output that tears a line, refuses the next, and then takes all.
use otel_logger.Prelude.{ℕ, ◌+◌, ◌≡◌, refl, List, [], ◌∷◌, arith, total, bytes_of}
use otel_logger.Diagnostics.{
  Line, Answer, accepted, refused, Event, overflow, line, run, spawn, on_event, on_line, put_line,
  behind_note, note_write, write_line, write_closed, write_behind, written_line, write_counting,
  write_rest, fetch_add,
}
use otel_logger.Diagnostics.Accounts.{lines_in, accounts_for, run_accounts}
use otel_logger.Diagnostics.Whole.{Output, run-Output}

abbrev note : ℕ → Line
note n = b'#' ∷ (48 + n) ∷ 10 ∷ []

abbrev answers : List Answer
answers = accepted 2 ∷ refused ∷ refused ∷ []

abbrev events : List Event
events =
    line (bytes_of "one\n") ∷ overflow ∷ line (bytes_of "two\n") ∷ line (bytes_of "three\n") ∷ []

run_accounts_example :
    total accounts_for (run note events (spawn answers)).written
      + (run note events (spawn answers)).dropped
    ≡ total lines_in events
run_accounts_example = run_accounts note answers events (omega arith)

run-Output_example :
    Output note
      (run note events (spawn answers)).out.bytes
      (run note events (spawn answers)).written
      (run note events (spawn answers)).torn
run-Output_example = run-Output note answers events

-- The torn line is closed, and the three lines that were lost are told of.
run_bytes : (run note events (spawn answers)).out.bytes ≡ bytes_of "on\n#3\nthree\n"
unfolding run on_event on_line put_line behind_note note_write write_line write_closed write_behind
    written_line write_counting write_rest fetch_add
run_bytes = refl
