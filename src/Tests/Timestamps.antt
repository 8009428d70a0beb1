-- ===== src/Tests/Timestamps.antt =====
-- Timestamps with a calendar that leaves the first conversion of a format out.
use constexpr_fmt_str.Prelude.{
  ℕ, ◌≡◌, refl, some, List, [], ◌∷◌, arith, codes, replicate, length, drop, ltb, if◌then◌else◌,
}
use constexpr_fmt_str.Timestamp.{
  Calendar, TimestampFormatter, gmt_time, qms, look_for, search, strftime_loop, safe_strftime,
  time_string, resize_throws, preformat, formatter_with, formatter_of, make_formatter,
}
use constexpr_fmt_str.Timestamp.Strftime.{Fits, Full, safe_strftime-text, safe_strftime-empty}
use constexpr_fmt_str.Timestamp.Cache.{format_all, format_anew, format_all-anew}
use constexpr_fmt_str.Timestamp.Parts.{Made, make_formatter-parts}
use constexpr_fmt_str.Tests.{plain_library}

abbrev plain_text : List ℕ → ℕ → List ℕ
plain_text format time = drop 2 format

abbrev pub plain_calendar : Calendar
plain_calendar = record {
  Tm = ℕ;
  localtime = λ second. second;
  gmtime = λ second. second;
  strftime = λ size format time.
      if ltb (length (drop 2 format)) size
      then (length (drop 2 format), drop 2 format)
      else (0, []);
  largest = 100;
}

plain_calendar-Fits : Fits plain_calendar plain_text
plain_calendar-Fits size format time h = ground arith

plain_calendar-Full : Full plain_calendar plain_text
plain_calendar-Full size format time h = ground arith

safe_strftime-text_example :
    safe_strftime plain_calendar 1 (codes "%Hxy") 7 ≡ time_string (codes "xy")
safe_strftime-text_example =
    safe_strftime-text plain_calendar plain_text 0 (codes "%Hxy") 7 plain_calendar-Fits
      plain_calendar-Full (omega arith) (omega arith) (omega arith) (omega arith)

safe_strftime-empty_example : safe_strftime plain_calendar 3 (codes "%p") 7 ≡ resize_throws
safe_strftime-empty_example =
    safe_strftime-empty plain_calendar plain_text 2 (codes "%p") 7 plain_calendar-Fits (omega arith)
      refl (omega arith)

abbrev pub at_zero : TimestampFormatter
at_zero = record {
  additional_format_specifier = qms;
  format_part_1 = codes "%H:";
  format_part_2 = [];
  pre_formatted_ts_1 = codes ":";
  pre_formatted_ts_2 = [];
  cached_timestamp = 0;
  timezone_type = gmt_time;
}

pub at_zero_made : make_formatter plain_calendar 1 (codes "%H:%Qms") gmt_time 0 ≡ some at_zero
unfolding make_formatter formatter_of formatter_with preformat safe_strftime strftime_loop search
    look_for
at_zero_made = refl

make_formatter-parts_example : Made (codes "%H:%Qms") gmt_time 0 at_zero
make_formatter-parts_example =
    make_formatter-parts plain_calendar 1 (codes "%H:%Qms") gmt_time 0 at_zero at_zero_made

format_all-anew_example :
    format_all plain_calendar 1 plain_library at_zero
      (1500000000 ∷ 1600000000 ∷ [])
      (replicate 100 0)
    ≡ format_anew plain_calendar 1 plain_library at_zero
        (1500000000 ∷ 1600000000 ∷ [])
        (replicate 100 0)
format_all-anew_example =
    format_all-anew plain_calendar 1 plain_library (codes "%H:%Qms") gmt_time 0 at_zero
      (1500000000 ∷ 1600000000 ∷ []) (replicate 100 0) at_zero_made
