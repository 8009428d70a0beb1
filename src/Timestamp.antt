-- ===== src/Timestamp.antt =====
-- `TimestampFormatter` of timestamp_formatter.cpp and `safe_strftime` of portability.cpp. Timestamps are not negative.
-- A string is the list of its characters, and a position in it an index.
pub mod Strftime
pub mod Cache
pub mod Parts
use constexpr_fmt_str.Prelude.{
  ℕ, zero, suc, ◌+◌, ◌-◌, ◌*◌, ◌/◌, ◌%◌, ◌^◌, Bool, true, false, ◌&&◌, Option, none, some, List, [],
  ◌∷◌, ◌++◌, ltb, ◌==◌, if◌then◌else◌, ◌>>=◌, length, take, drop, codes,
}
use constexpr_fmt_str.Convert.Args.{Library, Arg, integral, c_string}
use constexpr_fmt_str.Convert.Format.{cfmt_str}

pub data Timezone : Type 0 where
  local_time gmt_time : Timezone

-- <ctime>: the broken-down time of a second, and for a buffer of a size what `strftime` returns and writes; and the
-- largest size to which `std::vector<char>::resize` brings a buffer: it throws for a larger one
pub record Calendar : Type 1 where
  pub Tm : Type 0
  pub localtime : ℕ → Tm
  pub gmtime : ℕ → Tm
  pub strftime : ℕ → List ℕ → Tm → ℕ × List ℕ
  pub largest : ℕ

pub data AdditionalSpecifier : Type 0 where
  no_specifier qms qus qns : AdditionalSpecifier

abbrev pub specifier_name : AdditionalSpecifier → List ℕ
specifier_name no_specifier = []
specifier_name qms = codes "%Qms"
specifier_name qus = codes "%Qus"
specifier_name qns = codes "%Qns"

abbrev pub specifier_length : ℕ
specifier_length = 4

abbrev pub starts_with : List ℕ → List ℕ → Bool
starts_with [] s = true
starts_with (c ∷ name) [] = false
starts_with (c ∷ name) (d ∷ s) = c == d && starts_with name s

-- `std::string::find`
abbrev pub find : List ℕ → List ℕ → Option ℕ
find name [] = if starts_with name [] then some 0 else none
find name (c ∷ s) =
    let rest = find name s in
    if starts_with name (c ∷ s) then some 0 else rest >>= λ i. some (i + 1)

-- what the searches of the constructor found, or the error that it throws
pub data Search : Type 0 where
  nothing : Search
  found : AdditionalSpecifier → ℕ → Search
  only_one mutually_exclusive : Search

-- the search for one specifier
unfoldable pub look_for : AdditionalSpecifier → List ℕ → Search → Search
look_for kind format nothing = elim (find (specifier_name kind) format) [
  | none ↦ nothing
  | some i ↦ elim (find (specifier_name kind) (drop (i + specifier_length) format)) [
    | none ↦ found kind i
    | some j ↦ only_one
  ]
]
look_for kind format (found kind' begin) = elim (find (specifier_name kind) format) [
  | none ↦ found kind' begin
  | some i ↦ mutually_exclusive
]
look_for kind format only_one = only_one
look_for kind format mutually_exclusive = mutually_exclusive

unfoldable pub search : List ℕ → Search
unfolding look_for
search format = look_for qns format (look_for qus format (look_for qms format nothing))

pub record TimestampFormatter : Type 0 where
  pub additional_format_specifier : AdditionalSpecifier
  pub format_part_1 : List ℕ
  pub format_part_2 : List ℕ
  pub pre_formatted_ts_1 : List ℕ
  pub pre_formatted_ts_2 : List ℕ
  pub cached_timestamp : ℕ
  pub timezone_type : Timezone

abbrev is_empty : List ℕ → Bool
is_empty [] = true
is_empty (c ∷ s) = false

-- the members before the first strings are formatted
abbrev pub new_formatter : Timezone → ℕ → AdditionalSpecifier → List ℕ → List ℕ → TimestampFormatter
new_formatter zone now kind part1 part2 = record {
  additional_format_specifier = kind;
  format_part_1 = part1;
  format_part_2 = part2;
  pre_formatted_ts_1 = [];
  pre_formatted_ts_2 = [];
  cached_timestamp = now;
  timezone_type = zone;
}

-- what `safe_strftime` returns, up to the terminating '\0', or how it ends without; `unfinished` is spent fuel
pub data TimeString : Type 0 where
  time_string : List ℕ → TimeString
  resize_throws unfinished : TimeString

abbrev pub returned : TimeString → Option (List ℕ)
returned (time_string text) = some text
returned resize_throws = none
returned unfinished = none

module _ (calendar : Calendar) where
  -- the loop of `safe_strftime` from the resizing of the buffer to `size` bytes on; one round of fuel for each size
  unfoldable pub strftime_loop : ℕ → ℕ → List ℕ → calendar.Tm → TimeString
  strftime_loop zero size format time = unfinished
  strftime_loop (suc fuel) size format time =
      let (res, text) = calendar.strftime size format time in
      let again = strftime_loop fuel (size * 2) format time in
      if ltb calendar.largest size
      then resize_throws
      else if res == 0
      then again
      else time_string text

  unfoldable pub safe_strftime : ℕ → List ℕ → calendar.Tm → TimeString
  unfolding strftime_loop
  safe_strftime fuel format time =
      if length format == 0 then time_string [] else strftime_loop fuel 32 format time

  abbrev pub time_info : Timezone → ℕ → calendar.Tm
  time_info local_time second = calendar.localtime second
  time_info gmt_time second = calendar.gmtime second

  -- the pre-formatted strings of a second
  unfoldable pub preformat : ℕ → ℕ → TimestampFormatter → Option TimestampFormatter
  preformat fuel second f =
      let time = time_info f.timezone_type second in
      returned (safe_strftime fuel f.format_part_1 time) >>= λ pre1.
      (if is_empty f.format_part_2
        then some f.pre_formatted_ts_2
        else returned (safe_strftime fuel f.format_part_2 time))
      >>= λ pre2. some (record f {
        pre_formatted_ts_1 = pre1;
        pre_formatted_ts_2 = pre2;
        cached_timestamp = second;
      })

  -- a formatter of two parts
  unfoldable pub formatter_with :
      ℕ → Timezone → ℕ → AdditionalSpecifier → List ℕ → List ℕ → Option TimestampFormatter
  unfolding preformat
  formatter_with fuel zone now kind part1 part2 =
      preformat fuel now (new_formatter zone now kind part1 part2)

  -- the parts of the format around the specifier that was found; `none` where the constructor throws
  unfoldable pub formatter_of : ℕ → List ℕ → Timezone → ℕ → Search → Option TimestampFormatter
  unfolding formatter_with
  formatter_of fuel format zone now nothing = formatter_with fuel zone now no_specifier format []
  formatter_of fuel format zone now (found kind begin) =
      formatter_with fuel zone now kind (take begin format) (drop (begin + specifier_length) format)
  formatter_of fuel format zone now only_one = none
  formatter_of fuel format zone now mutually_exclusive = none

  -- the constructor at a current time
  unfoldable pub make_formatter : ℕ → List ℕ → Timezone → ℕ → Option TimestampFormatter
  unfolding search formatter_of
  make_formatter fuel format zone now = formatter_of fuel format zone now (search format)

abbrev pub ns_of_second : ℕ
ns_of_second = 1000000000

-- the format of CFMT_STR and the number of the subsecond
abbrev pub subsecond : AdditionalSpecifier → ℕ → List ℕ × ℕ
subsecond no_specifier extracted_ns = ([], 0)
subsecond qms extracted_ns = (codes "%s%03u", extracted_ns / 1000000)
subsecond qus extracted_ns = (codes "%s%06u", extracted_ns / 1000)
subsecond qns extracted_ns = (codes "%s%09u", extracted_ns)

abbrev pub formatted_size : ℕ
formatted_size = 100

module _ (lib : Library) where
  -- the end of `format_timestamp`: the buffer; without an additional specifier it is left as it was
  unfoldable pub write_timestamp : TimestampFormatter → ℕ → List ℕ → Option (List ℕ)
  write_timestamp f timestamp_ns buffer =
      let timestamp_secs = timestamp_ns / ns_of_second in
      let extracted_ns = (timestamp_ns - timestamp_secs * ns_of_second) % 2 ^ 32 in
      let (format, number) = subsecond f.additional_format_specifier extracted_ns in
      let pre1 : Arg lib.Real = c_string 0 f.pre_formatted_ts_1 in
      let pre2 : Arg lib.Real = c_string 0 f.pre_formatted_ts_2 in
      let written = λ (fmt : List ℕ) (args : List (Arg lib.Real)).
        cfmt_str lib buffer formatted_size fmt args >>= λ (mem, result, stores). some mem in
      elim f.additional_format_specifier [
        | no_specifier ↦ some buffer
        | _ ↦
            if is_empty f.format_part_2
            then written format (pre1 ∷ integral number ∷ [])
            else written (format ++ codes "%s") (pre1 ∷ integral number ∷ pre2 ∷ [])
      ]

  module _ (calendar : Calendar) where
    unfoldable pub format_timestamp :
        ℕ → TimestampFormatter → ℕ → List ℕ → Option (TimestampFormatter × List ℕ)
    unfolding preformat write_timestamp
    format_timestamp fuel f timestamp_ns buffer =
        let timestamp_secs = timestamp_ns / ns_of_second in
        (if timestamp_secs == f.cached_timestamp
          then some f
          else preformat calendar fuel timestamp_secs f)
        >>= λ f'. write_timestamp f' timestamp_ns buffer >>= λ buffer'. some (f', buffer')
