-- ===== src/Sink/Output.antt =====
-- The formatting in `threadFunc` of runtime_logger.cpp: the entries in the buffers to write become lines of text.
-- `size` stands for FORMAT_BUFFER_SIZE. A `StaticFmtInfo*` is a number, which `info` follows; `tsc2ns` is the clock's.
-- The `fwrite` of a line is commented out in the code; a `Line` has the bytes and the size that it would get.
pub mod Lines
pub mod CheckPoint
pub mod Entries
pub mod Blocks
pub mod Buffers
pub mod Texts
pub mod Statements
use constexpr_fmt_str.Prelude.{
  ℕ, zero, suc, ◌+◌, ◌-◌, ◌*◌, ◌%◌, ◌^◌, Option, none, some, List, [], ◌∷◌, ◌++◌, ltb, leb, ◌==◌,
  if◌then◌else◌, ◌>>=◌, length, take, drop, replicate, codes,
}
use constexpr_fmt_str.Prelude.Int.{ℤ, pos, negsuc, ◌-ℤ◌}
use constexpr_fmt_str.Outbuf.{Outbuf, create, reset, get_written_num}
use constexpr_fmt_str.Convert.Args.{Library, Arg, integral, c_string, umax_mod, int_of, size_of_int}
use constexpr_fmt_str.Convert.Format.{Store, cfmt_str_outbufarg}
use constexpr_fmt_str.Entry.{number_of}
use constexpr_fmt_str.Entry.Load.{until_nul}
use constexpr_fmt_str.Entry.Statement.{
  entry_header_size, format_args_maximum_size, normal_status, illegal_args_size, fmt_id_at,
  entry_size_at, status_at, timestamp_at, args_size_at,
}
use constexpr_fmt_str.Staging.Slice.{slice}
use constexpr_fmt_str.Sink.{check_point_size}
use constexpr_fmt_str.Timestamp.{Calendar, TimestampFormatter, format_timestamp}

pub data LogLevel : Type 0 where
  silent_log_level err warning information dbg num_log_levels : LogLevel

-- `logLevelNames`, by the number of the level
unfoldable pub log_level_name : LogLevel → Option (List ℕ)
log_level_name silent_log_level = some (codes "NAN")
log_level_name err = some (codes "ERR")
log_level_name warning = some (codes "WRN")
log_level_name information = some (codes "INF")
log_level_name dbg = some (codes "DBG")
log_level_name num_log_levels = none

-- the convert function reads the arguments at an index of the buffer
pub record StaticFmtInfo : Type 0 where
  pub convert_fn : List ℕ → ℕ → Outbuf → Option (Outbuf × List Store)
  pub filename : List ℕ
  pub funcname : List ℕ
  pub line_num : ℕ
  pub severity : LogLevel
  pub format_string : List ℕ
  pub num_var_args : ℕ

-- what goes to the file for an entry, and the numbers that `%n` stored
pub record Line : Type 0 where
  pub text : List ℕ
  pub stores : List Store

-- the variables that last from entry to entry: `fmtBuf`, `timeFmt_` and the buffer of its strings
pub record Writer : Type 0 where
  pub fmt_buf : Outbuf
  pub time_fmt : TimestampFormatter
  pub time_buffer : List ℕ

-- the members of a `ThreadCheckPoint` at `at`
abbrev pub name_at : List ℕ → ℕ → List ℕ
name_at bytes at = until_nul (drop at bytes)

abbrev pub block_size_at : List ℕ → ℕ → ℤ
block_size_at bytes at = int_of (number_of (slice bytes (at + 20) (at + 24)))

abbrev pub prefix_format : List ℕ
prefix_format = codes "%s %s %s %s->%s:%d] "

abbrev pub illegal_format : List ℕ
illegal_format =
    codes
      "<ILLEGAL_ARGS_SIZE>\n\tThe total size of the arguments to be formatted by TZLog is [%u], exceeding the maximum value allowed [%d], please check the log input!!!\n"

-- `size`, and the bytes that `fwrite` would get
unfoldable pub line_of : ℕ → Outbuf → List ℕ
line_of size o =
    take (if ltb (get_written_num o) (size - 1) then get_written_num o else size - 1) o.mem

module _ (lib : Library) where
  abbrev pub prefix_args : List ℕ → List ℕ → List ℕ → StaticFmtInfo → List (Arg lib.Real)
  prefix_args time level name smi =
      c_string 0 time
      ∷ c_string 0 level
      ∷ c_string 0 name
      ∷ c_string 0 smi.filename
      ∷ c_string 0 smi.funcname
      ∷ integral smi.line_num
      ∷ []

  -- what follows the prefix, by the status of the entry at `at`; any other status has nothing
  unfoldable pub write_body : StaticFmtInfo → List ℕ → ℕ → Outbuf → Option (Outbuf × List Store)
  write_body smi bytes at o =
      let normal = smi.convert_fn bytes (at + entry_header_size) o >>= (λ (o1, stores).
        cfmt_str_outbufarg lib o1 (codes "\n") [] >>= λ (o2, none_stored). some (o2, stores)) in
      let illegal =
        cfmt_str_outbufarg lib o illegal_format
          (integral (args_size_at bytes at % 2 ^ 32) ∷ integral format_args_maximum_size ∷ []) in
      let inside = leb (at + (entry_header_size + 8)) (length bytes) in
      if status_at bytes at == normal_status
      then normal
      else if status_at bytes at == illegal_args_size
      then (if inside then illegal else none)
      else some (o, [])

  module _ (calendar : Calendar) (fuel : ℕ) (size : ℕ) (tsc2ns : ℕ → ℕ)
      (info : ℕ → Option StaticFmtInfo) where
    -- a round of the inner loop up to the line; the header of an entry lies inside the buffer
    unfoldable pub write_entry : List ℕ → ℕ → List ℕ → Writer → Option (Writer × Line)
    unfolding log_level_name write_body line_of
    write_entry bytes at name w =
        let o = reset w.fmt_buf in
        (if leb (at + entry_header_size) (length bytes) then info (fmt_id_at bytes at) else none)
        >>= λ smi.
            format_timestamp lib calendar fuel w.time_fmt (tsc2ns (timestamp_at bytes at))
              w.time_buffer
            >>= λ (time_fmt, time_buffer). log_level_name smi.severity >>= λ level.
                cfmt_str_outbufarg lib o prefix_format
                  (prefix_args (until_nul time_buffer) level name smi)
                >>= λ (o1, none_stored). write_body smi bytes at o1 >>= λ (o2, stores). some (
                  record { fmt_buf = o2; time_fmt = time_fmt; time_buffer = time_buffer },
                  record { text = line_of size o2; stores = stores },
                )

    -- `while (remaining > 0)`: `pos`, the writer and the lines at its end; one round of fuel for each entry
    unfoldable pub write_entries :
        ℕ → List ℕ → ℕ → ℤ → List ℕ → Writer → Option (ℕ × Writer × List Line)
    unfolding write_entry
    write_entries rounds bytes at (negsuc n) name w = some (at, w, [])
    write_entries rounds bytes at (pos zero) name w = some (at, w, [])
    write_entries zero bytes at (pos (suc n)) name w = none
    write_entries (suc rounds) bytes at (pos (suc n)) name w =
        write_entry bytes at name w >>= λ (w1, line).
        let entry_size = entry_size_at bytes at in
        write_entries rounds bytes (at + entry_size) (pos (suc n) -ℤ int_of entry_size) name w1
        >>= λ (at', w', lines). some (at', w', line ∷ lines)

    -- `while (bufLen > 0)`; `bufLen` is an `int`, and its new value is computed in `size_t`
    unfoldable pub write_blocks : ℕ → List ℕ → ℕ → ℤ → Writer → Option (Writer × List Line)
    unfolding write_entries
    write_blocks rounds bytes at (negsuc n) w = some (w, [])
    write_blocks rounds bytes at (pos zero) w = some (w, [])
    write_blocks zero bytes at (pos (suc n)) w = none
    write_blocks (suc rounds) bytes at (pos (suc n)) w =
        let block_size = block_size_at bytes at in
        let rest =
          (size_of_int (pos (suc n)) + 2 * umax_mod - (size_of_int block_size + check_point_size))
          % umax_mod in
        (if leb (at + check_point_size) (length bytes)
          then write_entries (length bytes) bytes (at + check_point_size) block_size
              (name_at bytes at) w
          else none)
        >>= λ (at', w1, lines). write_blocks rounds bytes at' (int_of rest) w1 >>= λ (w', lines').
            some (w', lines ++ lines')

    -- `for (const auto& buffer : buffersToWrite)`
    unfoldable pub write_buffers : List (List ℕ) → Writer → Option (Writer × List Line)
    unfolding write_blocks
    write_buffers [] w = some (w, [])
    write_buffers (bytes ∷ buffers) w =
        write_blocks (length bytes) bytes 0 (int_of (length bytes)) w >>= λ (w1, lines).
        write_buffers buffers w1 >>= λ (w', lines'). some (w', lines ++ lines')

-- `fmtBuf` over its zeroed array
abbrev pub new_writer : ℕ → TimestampFormatter → List ℕ → Writer
new_writer size time_fmt time_buffer = record {
  fmt_buf = create (replicate size 0) size;
  time_fmt = time_fmt;
  time_buffer = time_buffer;
}
