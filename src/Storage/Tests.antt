-- ===== src/Storage/Tests.antt =====
-- Runs of the storage on disks whose calls fail.
use otel_logger.Prelude.{
  ℕ, none, List, [], ◌∷◌, ◌++◌, true, ok, err, replicate, ◌≡◌, refl, bytes_of,
}
use otel_logger.Storage.File.{
  File, Fault, pass, fail, out_of_fuel, set_len, seek, write_all, flush, metadata_len,
}
use otel_logger.Storage.Append.{
  TransactionalAppend, append, append_all, repair, truncate, append_start, undo, write_and_flush,
  write_from, on_written, roll_back, cleared, set_rollback,
}
use otel_logger.Storage.Append.Rollback.{repair-append_all}
use otel_logger.Storage.Tail.{recover_tail}
use otel_logger.Storage.Tail.Recovery.{bytes-recover_tail, recover_tail_total, recover_tail_ends}
use otel_logger.Storage.Daily.{DailyWriter, Session, NaiveDate, append_at, path_at, daily_path}
use otel_logger.Storage.Daily.Ledger.{IsLedger, IsPlaced}
use otel_logger.Storage.Daily.Batches.{entered, append_at-IsLedger}

abbrev file_of : List ℕ → List Fault → File
file_of bytes faults = record { bytes = bytes; cursor = 0; durable = []; faults = faults }

abbrev line_1 : List ℕ
line_1 = 1 ∷ 2 ∷ 3 ∷ 10 ∷ []

abbrev line_2 : List ℕ
line_2 = 4 ∷ 10 ∷ []

-- The first write stops after two bytes, and its rollback fails too.
abbrev failing : TransactionalAppend
failing = record { file = file_of [] (pass ∷ fail 2 ∷ fail 0 ∷ []); rollback = none }

failing_acknowledges : (append_all (line_1 ∷ line_2 ∷ []) failing).0 ≡ line_2
unfolding append_all append repair undo append_start metadata_len write_from write_and_flush
    on_written roll_back cleared set_rollback truncate set_len seek write_all flush
failing_acknowledges = refl

repair-append_all_example :
    (repair (append_all (line_1 ∷ line_2 ∷ []) failing).1).1.file.bytes
    ≡ [] ++ (append_all (line_1 ∷ line_2 ∷ []) failing).0
unfolding append_all append repair undo append_start metadata_len write_from write_and_flush
    on_written roll_back cleared set_rollback truncate set_len seek write_all flush
repair-append_all_example = repair-append_all [] (line_1 ∷ line_2 ∷ []) failing refl refl

-- A file whose last line was cut short.
abbrev torn_file : File
torn_file = file_of (line_1 ++ (7 ∷ 8 ∷ [])) []

bytes-recover_tail_example : (recover_tail torn_file).1.bytes ≡ line_1
bytes-recover_tail_example =
    bytes-recover_tail line_1 (7 ∷ 8 ∷ []) torn_file refl (refl, (refl, tt)) refl
      (recover_tail_total line_1 (7 ∷ 8 ∷ []) torn_file refl (refl, (refl, tt)) refl refl)

recover_tail_total_example : (recover_tail torn_file).0 ≡ ok tt
recover_tail_total_example =
    recover_tail_total line_1 (7 ∷ 8 ∷ []) torn_file refl (refl, (refl, tt)) refl refl

-- The second read of a file of more than one buffer fails.
abbrev long_file : File
long_file = file_of (replicate 8200 7) (pass ∷ pass ∷ pass ∷ pass ∷ fail 0 ∷ [])

recover_tail_ends_example : ¬ ((recover_tail long_file).0 ≡ err out_of_fuel)
recover_tail_ends_example = recover_tail_ends long_file

abbrev no_text : NaiveDate → List ℕ
no_text n = n ∷ []

-- A writer of day 3, that is given a batch of day 4.
abbrev writer : DailyWriter
writer = record {
  dir = bytes_of "logs";
  prefix = bytes_of "p";
  suffix = none;
  date = 3;
  file = record {
    path = daily_path no_text (bytes_of "logs") (bytes_of "p") none 3;
    rollback = none;
  };
  sync_on_rotate = true;
}

abbrev session : Session
session = record { writer = writer; disk = record { file = λ p. file_of [] []; openings = [] } }

append_at-IsLedger_example :
    IsLedger
      (entered (λ p. []) (path_at no_text writer 4) line_1 (append_at no_text line_1 4 session).0)
      (append_at no_text line_1 4 session).1
    × IsPlaced no_text (append_at no_text line_1 4 session).1
append_at-IsLedger_example =
    append_at-IsLedger no_text (λ p. []) line_1 4 session
      (record { lines = λ p. tt; current = refl; others = λ p ne. refl }) refl refl
