-- ===== src/Storage/Daily.antt =====
-- `AppendFile`, `DailyWriter` and `daily_path` of src/storage.rs, over the files of a disk.
pub mod Ledger
pub mod Batches
use otel_logger.Prelude.{
  ℕ, Option, none, some, List, [], ◌∷◌, ◌++◌, Bool, true, false, not, ◌==◌, if◌then◌else◌, Result,
  ok, err, Action, ◌>>=◌, ◌>>◌, pure, bytes_of, bytes_eq, update,
}
use otel_logger.Storage.File.{
  File, Fault, pass, fail, IoError, io_error, Io, next, later, flush, sync_all,
}
use otel_logger.Storage.Append.{TransactionalAppend, Tx}
use otel_logger.Storage.Append as Append
use otel_logger.Storage.Tail.{recover_tail}

abbrev pub FilePath : Type 0
FilePath = List ℕ

-- The files by path; a path that nothing was written to holds no bytes. `openings` are the
-- outcomes of the calls of `open` to come.
pub record Disk : Type 0 where
  pub file : FilePath → File
  pub openings : List Fault

-- The handle of an open file is its path.
pub record AppendFile : Type 0 where
  pub path : FilePath
  pub rollback : Option ℕ

-- A day as chrono's `NaiveDate`, by its number.
abbrev pub NaiveDate : Type 0
NaiveDate = ℕ

pub record DailyWriter : Type 0 where
  pub dir : FilePath
  pub prefix : List ℕ
  pub suffix : Option (List ℕ)
  pub date : NaiveDate
  pub file : AppendFile
  pub sync_on_rotate : Bool

-- The writer and the disk, which its calls change.
pub record Session : Type 0 where
  pub writer : DailyWriter
  pub disk : Disk

abbrev pub OnDisk : Type 0 → Type 0
OnDisk A = Action Disk IoError A

abbrev pub OnSession : Type 0 → Type 0
OnSession A = Action Session IoError A

unfoldable pub opening : Fault → Result IoError Unit
opening pass = ok tt
opening (fail n) = err io_error

unfoldable pub open_file : FilePath → OnDisk Unit
open_file path d = (opening (next d.openings), record d { openings = later d.openings })

abbrev pub on_path : {A : Type 0} → FilePath → Io A → OnDisk A
on_path path m d = let r = m (d.file path) in (r.0, record d { file = update d.file path r.1 })

-- `AppendFile::open`
unfoldable pub open_append : FilePath → OnDisk AppendFile
open_append path = do
  open_file path
  on_path path recover_tail
  pure (record { path = path; rollback = none })

-- `AppendFile::probe`
unfoldable pub probe : FilePath → OnDisk Unit
probe path = open_file path

abbrev pub transaction : Session → TransactionalAppend
transaction s = record { file = s.disk.file s.writer.file.path; rollback = s.writer.file.rollback }

-- A call on `self.file.writer`.
abbrev pub on_writer : {A : Type 0} → Tx A → OnSession A
on_writer m s =
    let r = m (transaction s) in
    (
      r.0,
      record {
        writer = record s.writer { file = record s.writer.file { rollback = r.1.rollback } };
        disk = record s.disk { file = update s.disk.file s.writer.file.path r.1.file };
      },
    )

abbrev pub on_disk : {A : Type 0} → OnDisk A → OnSession A
on_disk m s = let r = m s.disk in (r.0, record s { disk = r.1 })

abbrev pub slash : List ℕ
slash = bytes_of "/"

abbrev pub dot : List ℕ
dot = bytes_of "."

-- How chrono prints a date.
module _ (date_text : NaiveDate → List ℕ) where
  unfoldable pub file_name : List ℕ → Option (List ℕ) → NaiveDate → List ℕ
  file_name prefix none date = prefix ++ (dot ++ date_text date)
  file_name prefix (some suffix) date = prefix ++ (dot ++ (date_text date ++ (dot ++ suffix)))

  -- `Path::join` of a directory and a relative name.
  unfoldable pub daily_path : List ℕ → List ℕ → Option (List ℕ) → NaiveDate → FilePath
  daily_path dir prefix suffix date = dir ++ (slash ++ file_name prefix suffix date)

  -- The path of the writer's file for a date.
  abbrev pub path_at : DailyWriter → NaiveDate → FilePath
  path_at w date = daily_path w.dir w.prefix w.suffix date

  -- `DailyWriter::at_date`
  unfoldable pub at_date : List ℕ → List ℕ → Option (List ℕ) → NaiveDate → OnDisk DailyWriter
  at_date dir prefix suffix date = do
    file ← open_append (daily_path dir prefix suffix date)
    pure (record {
      dir = dir;
      prefix = prefix;
      suffix = suffix;
      date = date;
      file = file;
      sync_on_rotate = false;
    })

  unfoldable pub sync_before : Bool → OnSession Unit
  sync_before true s = on_disk (on_path s.writer.file.path sync_all) s
  sync_before false s = (ok tt, s)

  unfoldable pub switch_to : NaiveDate → AppendFile → OnSession Unit
  switch_to date file s =
      (ok tt, record s { writer = record s.writer { file = file; date = date } })

  unfoldable pub reopen : NaiveDate → OnSession AppendFile
  reopen date s = on_disk (open_append (path_at s.writer date)) s

  -- The body of `if self.date != date` in `append_at`.
  unfoldable pub rotate : NaiveDate → OnSession Unit
  rotate date = do
    on_writer Append.repair
    λ s. sync_before s.writer.sync_on_rotate s
    file ← reopen date
    switch_to date file

  unfoldable pub rotate_if : Bool → NaiveDate → OnSession Unit
  rotate_if true date = rotate date
  rotate_if false date = pure tt

  unfoldable pub append_at : List ℕ → NaiveDate → OnSession Unit
  append_at bytes date s =
      (do rotate_if (not (s.writer.date == date)) date; on_writer (Append.append bytes)) s

unfoldable pub with_sync_on_rotate : DailyWriter → DailyWriter
with_sync_on_rotate w = record w { sync_on_rotate = true }

-- `DailyWriter::sync_all`
unfoldable pub sync_current : OnSession Unit
sync_current s = on_disk (on_path s.writer.file.path sync_all) s
