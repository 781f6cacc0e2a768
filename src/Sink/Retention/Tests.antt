-- ===== src/Sink/Retention/Tests.antt =====
-- A directory with files that are cleaned up and files that are not.
use otel_logger.Prelude.{
  strip_prefix, ℕ, ◌≡◌, refl, ap, some, none, List, [], ◌∷◌, true, ◌&&◌, leb, ok, bytes_of,
  bytes_eq,
}
use otel_logger.Storage.Daily.{NaiveDate, file_name}
use otel_logger.Sink.Retention.{
  Name, Calendar, DailyLogKind, rotation_prefix, pretty_log_prefix, pretty_log_suffix,
  is_calendar_date, daily_log_kind, answer, not_found, DirEntry, DirItem, entry, Dir, listed,
  items_of, visit_item, cleanup_dir, cutoff_of, cleanup_old_rotated_logs, strip_suffix, then_strip,
  kind_of, jsonl_kind, kind_if, all_digits, is_ascii_digit, number_of, cleanup_from, visit, by_name,
  by_age, removal, is_daily, proceed,
}
use otel_logger.Sink.Retention.Names.{daily_log_kind_sound, daily_log_kind-file_name, name_of}
use otel_logger.Sink.Retention.Cleanup.{
  unexpired, cleanup_old_rotated_logs-keeps, cleanup_old_rotated_logs-exact,
}

-- Months of 28 days stand for the calendar.
abbrev short_months : Calendar
short_months = record {
  is_month = λ m. leb 1 m && leb m 12;
  from_calendar_date = λ y m d. leb 1 d && leb d 28;
}

abbrev new_year : Name
new_year = bytes_of "2026-01-01"

abbrev new_year_text : NaiveDate → List ℕ
new_year_text d = new_year

new_year_is_date : is_calendar_date short_months new_year ≡ true
unfolding is_calendar_date bytes_eq all_digits is_ascii_digit number_of
new_year_is_date = refl

daily_log_kind-file_name_example :
    (daily_log_kind short_months (file_name new_year_text rotation_prefix none 0)
      ≡ some DailyLogKind.jsonl)
    × (daily_log_kind short_months
          (file_name new_year_text pretty_log_prefix (some pretty_log_suffix) 0)
        ≡ some DailyLogKind.pretty)
daily_log_kind-file_name_example =
    daily_log_kind-file_name short_months new_year_text 0 new_year_is_date

pretty_name_is_daily :
    daily_log_kind short_months (bytes_of "otel-logger.pretty.2026-01-01.log")
    ≡ some DailyLogKind.pretty
unfolding daily_log_kind kind_of jsonl_kind kind_if strip_prefix strip_suffix then_strip bytes_eq
    is_calendar_date all_digits is_ascii_digit number_of
pretty_name_is_daily = refl

daily_log_kind_sound_example :
    (date : Name) × (is_calendar_date short_months date ≡ true)
    × (bytes_of "otel-logger.pretty.2026-01-01.log" ≡ name_of DailyLogKind.pretty date)
daily_log_kind_sound_example =
    daily_log_kind_sound short_months (bytes_of "otel-logger.pretty.2026-01-01.log")
      DailyLogKind.pretty pretty_name_is_daily

abbrev daily : Name → ℕ → DirEntry
daily name t = record {
  is_file = answer true;
  file_name = some name;
  modified = answer (some t);
  remove_file = answer tt;
}

-- An old daily file, one that another process removes first, an old file of another name, and a
-- daily file that is recent.
abbrev items : List DirItem
items =
    entry (daily (bytes_of "otel-logger.2026-01-01") 5)
    ∷ entry (record (daily (bytes_of "otel-logger.2026-01-02") 6) { remove_file = not_found })
    ∷ entry (daily (bytes_of "otel-logger.pid") 5)
    ∷ entry (daily (bytes_of "otel-logger.2026-01-03") 500000)
    ∷ []

abbrev directory : Dir
directory = listed items

cleanup_old_rotated_logs-keeps_example :
    unexpired short_months
      (cutoff_of 500000 3)
      (cleanup_old_rotated_logs short_months 500000 3 directory).1
    ≡ unexpired short_months (cutoff_of 500000 3) items
unfolding items_of
cleanup_old_rotated_logs-keeps_example =
    cleanup_old_rotated_logs-keeps short_months 500000 3 directory

cleaned : cleanup_old_rotated_logs short_months 500000 3 directory ≡ (
  ok tt,
  entry (daily (bytes_of "otel-logger.pid") 5)
      ∷ entry (daily (bytes_of "otel-logger.2026-01-03") 500000)
      ∷ [],
)
unfolding cleanup_old_rotated_logs cleanup_dir cleanup_from visit_item visit by_name by_age removal
    is_daily proceed daily_log_kind kind_of jsonl_kind kind_if strip_prefix strip_suffix then_strip
    bytes_eq is_calendar_date all_digits is_ascii_digit number_of cutoff_of
cleaned = refl

cleanup_old_rotated_logs-exact_example :
    (cleanup_old_rotated_logs short_months 500000 3 directory).1
    ≡ unexpired short_months (cutoff_of 500000 3) items
unfolding items_of
cleanup_old_rotated_logs-exact_example =
    cleanup_old_rotated_logs-exact short_months 500000 3 directory (ap (λ r. r.0) cleaned)
