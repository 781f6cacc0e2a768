-- ===== src/Sink/Retention.antt =====
-- The retention of daily files, in src/sink.rs: `daily_log_kind`, `is_calendar_date` and
-- `cleanup_old_rotated_logs`. A name is its bytes, a time its seconds.
pub mod Names
pub mod Cleanup
mod Tests
use otel_logger.Prelude.{
  strip_prefix, ℕ, ◌+◌, ◌*◌, ◌-◌, ◌≡◌, Option, none, some, List, [], ◌∷◌, ◌++◌, Bool, true, false,
  not, ◌&&◌, ◌||◌, ◌==◌, ltb, leb, max, if◌then◌else◌, length, take, drop, bytes_of, bytes_eq,
  Result, ok, err,
}

abbrev pub Name : Type 0
Name = List ℕ

abbrev pub rotation_prefix : Name
rotation_prefix = bytes_of "otel-logger"

abbrev pub pretty_log_prefix : Name
pretty_log_prefix = bytes_of "otel-logger.pretty"

abbrev pub pretty_log_suffix : Name
pretty_log_suffix = bytes_of "log"

pub data DailyLogKind : Type 0 where
  jsonl pretty : DailyLogKind

-- `str::strip_suffix`
unfoldable pub strip_suffix : Name → Name → Option Name
strip_suffix p s =
    let n = length s - length p in
    if leb (length p) (length s) && bytes_eq (drop n s) p then some (take n s) else none

-- `Option::and_then`
unfoldable pub then_strip : (Name → Option Name) → Option Name → Option Name
then_strip f none = none
then_strip f (some s) = f s

abbrev pub dot : Name
dot = b'.' ∷ []

unfoldable pub is_ascii_digit : ℕ → Bool
is_ascii_digit c = leb b'0' c && leb c b'9'

unfoldable pub all_digits : Name → Bool
all_digits [] = true
all_digits (c ∷ s) = is_ascii_digit c && all_digits s

-- `parse`, of digits.
unfoldable pub number_of : ℕ → Name → ℕ
number_of n [] = n
number_of n (c ∷ s) = number_of (n * 10 + (c - b'0')) s

-- What the code relies on of the crate `time`: the numbers that are months, and the years, months
-- and days that are dates.
pub record Calendar : Type 0 where
  pub is_month : ℕ → Bool
  pub from_calendar_date : ℕ → ℕ → ℕ → Bool

-- What a call about an entry answers: another process may have removed the file meanwhile.
pub data Answer (A : Type 0) : Type 0 where
  answer : A → Answer A
  not_found failed : Answer A

-- An entry of the directory: whether it is a regular file, its name unless it is no UTF-8, when
-- it was modified unless the system does not tell, and what its removal answers.
pub record DirEntry : Type 0 where
  pub is_file : Answer Bool
  pub file_name : Option Name
  pub modified : Answer (Option ℕ)
  pub remove_file : Answer (Unit {0})

-- What `read_dir` yields: an entry, or an error for an entry that it could not read.
pub data DirItem : Type 0 where
  entry : DirEntry → DirItem
  unreadable : DirItem

-- The directory: there is none; whether there is one cannot be told (`try_exists`); it cannot be
-- listed (`read_dir`); or it is listed.
pub data Dir : Type 0 where
  missing : Dir
  untold unlisted listed : List DirItem → Dir

unfoldable pub items_of : Dir → List DirItem
items_of missing = []
items_of (untold is) = is
items_of (unlisted is) = is
items_of (listed is) = is

-- Whether an entry goes, or an error.
unfoldable pub removal : Answer (Unit {0}) → Result (Unit {0}) Bool
removal (answer _) = ok true
removal not_found = ok true
removal failed = err tt

unfoldable pub by_age : ℕ → DirEntry → Answer (Option ℕ) → Result (Unit {0}) Bool
unfolding removal
by_age cutoff e (answer (some t)) = if leb cutoff t then ok false else removal e.remove_file
by_age cutoff e (answer none) = ok false
by_age cutoff e not_found = ok false
by_age cutoff e failed = err tt

unfoldable pub is_daily : Option DailyLogKind → Bool
is_daily none = false
is_daily (some k) = true

unfoldable pub proceed :
    Result (Unit {0}) Bool
    → DirItem
    → List DirItem
    → Result (Unit {0}) (Unit {0}) × List DirItem
    → Result (Unit {0}) (Unit {0}) × List DirItem
proceed (err e) d ds rest = (err e, d ∷ ds)
proceed (ok true) d ds rest = rest
proceed (ok false) d ds rest = (rest.0, d ∷ rest.1)

-- `checked_sub` of the time, or the epoch.
unfoldable pub cutoff_of : ℕ → ℕ → ℕ
cutoff_of now keep_days = now - keep_days * 24 * 60 * 60

module _ (cal : Calendar) where
  open cal use {is_month, from_calendar_date}

  unfoldable pub is_calendar_date : Name → Bool
  unfolding all_digits number_of
  is_calendar_date date =
      let year = take 4 date in
      let month = take 2 (drop 5 date) in
      let day = take 2 (drop 8 date) in
      (length date == 10)
      && (all_digits year
          && (bytes_eq (take 1 (drop 4 date)) (b'-' ∷ [])
              && (all_digits month
                  && (bytes_eq (take 1 (drop 7 date)) (b'-' ∷ [])
                      && (all_digits day
                          && (is_month (number_of 0 month)
                              && from_calendar_date (number_of 0 year) (number_of 0 month)
                                  (number_of 0 day)))))))

  -- `is_calendar_date(date).then_some(kind)`
  unfoldable pub kind_if : DailyLogKind → Name → Option DailyLogKind
  unfolding is_calendar_date
  kind_if kind date = if is_calendar_date date then some kind else none

  unfoldable pub jsonl_kind : Option Name → Option DailyLogKind
  unfolding kind_if
  jsonl_kind none = none
  jsonl_kind (some date) = kind_if DailyLogKind.jsonl date

  unfoldable pub kind_of : Option Name → Option Name → Option DailyLogKind
  unfolding jsonl_kind
  kind_of (some date) other = kind_if DailyLogKind.pretty date
  kind_of none other = jsonl_kind other

  unfoldable pub daily_log_kind : Name → Option DailyLogKind
  unfolding kind_of strip_prefix strip_suffix then_strip
  daily_log_kind filename =
      kind_of
        (then_strip (strip_suffix dot) (
          then_strip (strip_suffix pretty_log_suffix)
            (then_strip (strip_prefix dot) (strip_prefix pretty_log_prefix filename))))
        (then_strip (strip_prefix dot) (strip_prefix rotation_prefix filename))

  unfoldable pub by_name : ℕ → DirEntry → Option Name → Result (Unit {0}) Bool
  unfolding by_age is_daily
  by_name cutoff e none = ok false
  by_name cutoff e (some name) =
      if is_daily (daily_log_kind name) then by_age cutoff e e.modified else ok false

  unfoldable pub visit : ℕ → DirEntry → Answer Bool → Result (Unit {0}) Bool
  unfolding by_name
  visit cutoff e (answer true) = by_name cutoff e e.file_name
  visit cutoff e (answer false) = ok false
  visit cutoff e not_found = ok false
  visit cutoff e failed = err tt

  -- `let entry = entry?`
  unfoldable pub visit_item : ℕ → DirItem → Result (Unit {0}) Bool
  unfolding visit
  visit_item cutoff (entry e) = visit cutoff e e.is_file
  visit_item cutoff unreadable = err tt

  -- The loop of `cleanup_old_rotated_logs`: its result, and the entries that are left.
  unfoldable pub cleanup_from : ℕ → List DirItem → Result (Unit {0}) (Unit {0}) × List DirItem
  unfolding visit_item proceed
  cleanup_from cutoff [] = (ok tt, [])
  cleanup_from cutoff (i ∷ is) = proceed (visit_item cutoff i) i is (cleanup_from cutoff is)

  unfoldable pub cleanup_dir : ℕ → Dir → Result (Unit {0}) (Unit {0}) × List DirItem
  unfolding cleanup_from
  cleanup_dir cutoff missing = (ok tt, [])
  cleanup_dir cutoff (untold is) = (err tt, is)
  cleanup_dir cutoff (unlisted is) = (err tt, is)
  cleanup_dir cutoff (listed is) = cleanup_from cutoff is

  unfoldable pub cleanup_old_rotated_logs :
      ℕ → ℕ → Dir → Result (Unit {0}) (Unit {0}) × List DirItem
  unfolding cutoff_of cleanup_dir
  cleanup_old_rotated_logs now keep_days dir = cleanup_dir (cutoff_of now keep_days) dir

  -- The cleanup of `open_rotated_sync`, which keeps a day at least.
  unfoldable pub cleanup_at_start : ℕ → ℕ → Dir → Result (Unit {0}) (Unit {0}) × List DirItem
  cleanup_at_start now keep_days dir = cleanup_old_rotated_logs now (max keep_days 1) dir

  -- `RotatedWriter::cleanup_if_day_changed`: the day of the last cleanup, and the entries left.
  unfoldable pub cleanup_if_day_changed : ℕ → ℕ → ℕ → ℕ → Dir → ℕ × List DirItem
  unfolding items_of
  cleanup_if_day_changed today now keep_days last dir =
      let left = (cleanup_old_rotated_logs now keep_days dir).1 in
      if last == today then (last, items_of dir) else (today, left)
