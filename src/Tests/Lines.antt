-- ===== src/Tests/Lines.antt =====
-- The sink thread at a buffer with a block of one entry.
use constexpr_fmt_str.Prelude.{
  ℕ, ◌+◌, ◌≡◌, refl, none, some, Option, List, [], ◌∷◌, ◌++◌, map, codes, replicate, arith,
  if◌then◌else◌, ◌==◌,
}
use constexpr_fmt_str.Spec.Pieces.{source, NoNul}
use constexpr_fmt_str.Spec.{
  is_terminal, is_inside, is_flag, is_length, is_digit, to_digit, read_fields, switch_char,
  double_letter, read_number, read_precision, find_percent, skip_plain, skip_inside,
}
use constexpr_fmt_str.Convert.Render.{render_onto}
use constexpr_fmt_str.Prelude.{length-replicate}
use constexpr_fmt_str.Entry.{types, values, bytes_of, get_arg_size}
use constexpr_fmt_str.Entry.Store.{
  get_n_args_size, get_str_size_array, get_str_size, get_size_for_terminal_s, put_bytes,
}
use constexpr_fmt_str.Entry.Statement.{tz_log, args_size, str_size_array, get_strs_num, put_header}
use constexpr_fmt_str.Staging.Slice.{slice}
use constexpr_fmt_str.Sink.{check_point}
use constexpr_fmt_str.Sink.Output.{
  StaticFmtInfo, Writer, new_writer, information, log_level_name, write_buffers, prefix_format,
  prefix_args,
}
use constexpr_fmt_str.Sink.Output.Lines.{LogEntry, IsEntry, expected_lines}
use constexpr_fmt_str.Sink.Output.Entries.{Leaves}
use constexpr_fmt_str.Sink.Output.Texts.{prefix-text, prefix_text, IsNumeral}
use constexpr_fmt_str.Sink.Output.Statements.{
  fmt_info, with_newline, illegal_body, tz_log-IsEntry, tz_log-IsEntry_illegal,
}
use constexpr_fmt_str.Sink.Output.Blocks.{Block, blocks_bytes}
use constexpr_fmt_str.Sink.Output.Buffers.{
  AllBuffers, buffers_calls, write_buffers-lines, new_writer-IsWriter,
}
use constexpr_fmt_str.Timestamp.{gmt_time, preformat, write_timestamp, safe_strftime, strftime_loop}
use constexpr_fmt_str.Outbuf.{
  write, set_written_num, remaining, put, overwrite, done, get_written_num, create, write_paddings,
  write_padding_count, write_char, pad_loop,
}
use constexpr_fmt_str.Spec.Scan.{
  count_valid_spec_infos, count_loop, squeeze_sound_size, squeeze_loop, skip_specs, find_end,
  make_spec, get_one_spec, specs_from, analyze_format_string, store_one_char, store_chars,
  preprocess_invalid_specs, runtime_string, args_of, count_args_required,
}
use constexpr_fmt_str.Convert.Args.{sarg, sign_extend, uarg, int_of, size_of_int}
use constexpr_fmt_str.Digits.{format_dec, pair_loop, read_pair, store_pair}
use constexpr_fmt_str.Convert.Text.{convert_string}
use constexpr_fmt_str.Convert.Integer.{convert_integer, integer_text, signed_value}
use constexpr_fmt_str.Convert.Float.{is_a, is_e, is_f, is_g}
use constexpr_fmt_str.Convert.Emit.{
  is_integer, is_real, has_sign, real_size, pads_in_int, precision_zeros, cut_at, emit, emit_text,
}
use constexpr_fmt_str.Convert.Format.{
  cfmt_str, cfmt_str_outbufarg, convert_all, converter_impl, converter_args, converter_d_args,
  converter_d_d_args, converter_single, finish, convert, resolve,
}
use constexpr_fmt_str.Tests.{plain_library}
use constexpr_fmt_str.Tests.Entries.{
  plain_codec, name_value, name_value_site, args, staging, written, name_value-IsFormat, site_known,
  args-AllTyped, two_required, args_known, entry_written, long_args, long_args_known,
}
use constexpr_fmt_str.Tests.Timestamps.{plain_calendar, at_zero, at_zero_made}

abbrev smi : StaticFmtInfo
smi =
    fmt_info plain_library plain_codec name_value_site (types args) (codes "f.cc") (codes "g") 7
      information

abbrev info : ℕ → Option StaticFmtInfo
info id = if id == 5 then some smi else none

abbrev log_entry : LogEntry
log_entry = record {
  bytes = slice written 1 (1 + 38);
  fmt_id = 5;
  timestamp = 6;
  smi = smi;
  body = λ t.
      with_newline plain_library
        (render_onto plain_library (source name_value none) (values args) t);
}

log_entry-IsEntry : IsEntry plain_library info log_entry
log_entry-IsEntry =
    tz_log-IsEntry plain_library plain_codec info name_value none name_value_site args
      (codes "f.cc") (codes "g") 7 information 5 6 38 1 39 staging written name_value-IsFormat
      site_known args-AllTyped two_required args_known (omega arith) (omega arith) (omega arith)
      (omega arith) (omega arith) entry_written refl

tz_log-IsEntry_example : IsEntry plain_library info log_entry
tz_log-IsEntry_example =
    tz_log-IsEntry plain_library plain_codec info name_value none name_value_site args
      (codes "f.cc") (codes "g") 7 information 5 6 38 1 39 staging written name_value-IsFormat
      site_known args-AllTyped two_required args_known (omega arith) (omega arith) (omega arith)
      (omega arith) (omega arith) entry_written refl

prefix-text_example :
    (numeral : List ℕ) × IsNumeral 7 numeral
    × (render_onto plain_library prefix_format
          (prefix_args plain_library (codes "T") (codes "INF") (codes "main") smi)
          []
        ≡ some (
          prefix_text plain_library
              (codes "T")
              (codes "INF")
              (codes "main")
              (codes "f.cc")
              (codes "g")
              numeral,
          [],
        ))
unfolding fmt_info
prefix-text_example =
    prefix-text plain_library (codes "T") (codes "INF") (codes "main") smi (omega arith)
      (omega arith)

abbrev to_write : List (List Block)
to_write = (record { name = codes "main"; entries = log_entry ∷ [] } ∷ []) ∷ []

line_known :
    expected_lines plain_library info plain_calendar 1 40
      (λ t. t)
      at_zero
      (buffers_calls to_write)
      (replicate 100 0)
    ≡ some (
      codes ":000" ++ replicate 96 0,
      record { text = codes ":000 INF main f.cc->g:7] x=7\n"; stores = [] } ∷ [],
    )
unfolding preformat safe_strftime strftime_loop write_timestamp cfmt_str cfmt_str_outbufarg
    convert_all converter_impl converter_args converter_d_args converter_d_d_args converter_single
    finish write set_written_num remaining put overwrite done get_written_num create emit emit_text
    write_paddings write_padding_count write_char log_level_name fmt_info count_valid_spec_infos
    skip_plain skip_inside is_inside squeeze_sound_size analyze_format_string is_terminal
    get_one_spec read_fields switch_char read_number find_percent count_args_required to_digit
    runtime_string convert is_integer sarg sign_extend uarg is_a is_e is_f is_g convert_integer
    integer_text signed_value convert_string format_dec pair_loop read_pair store_pair args_of
    count_loop find_end make_spec preprocess_invalid_specs skip_specs specs_from squeeze_loop
    store_chars store_one_char double_letter is_digit is_flag is_length read_precision resolve
    cut_at real_size pads_in_int precision_zeros has_sign is_real int_of size_of_int pad_loop
line_known = refl

main-plain : AllBuffers plain_library info to_write
unfolding fmt_info check_point
main-plain =
    let name : NoNul (codes "main") =
      (omega arith, (omega arith, (omega arith, (omega arith, _)))) in
    ((((name, omega arith, (log_entry-IsEntry, _)), _), omega arith), _)

write_buffers-lines_example :
    (w' : Writer) × (write_buffers plain_library plain_calendar 1 40
        (λ t. t)
        info
        (map blocks_bytes to_write)
        (new_writer 40 at_zero (replicate 100 0))
      ≡ some (w', record { text = codes ":000 INF main f.cc->g:7] x=7\n"; stores = [] } ∷ []))
    × Leaves plain_library info plain_calendar 1 40
        (λ t. t)
        at_zero
        (codes ":000" ++ replicate 96 0)
        w'
write_buffers-lines_example =
    write_buffers-lines plain_library info plain_calendar 1 40 (λ t. t) at_zero to_write
      (new_writer 40 at_zero (replicate 100 0)) (codes ":000" ++ replicate 96 0)
      (record { text = codes ":000 INF main f.cc->g:7] x=7\n"; stores = [] } ∷ []) main-plain
      (new_writer-IsWriter plain_library info plain_calendar 1 40 (λ t. t) (codes "%H:%Qms")
        gmt_time 0 at_zero (replicate 100 0) at_zero_made (omega arith))
      line_known

-- the entry of a text that is too long
abbrev illegal_entry : List ℕ
illegal_entry =
    bytes_of 8 5 ++ (bytes_of 4 32 ++ (bytes_of 4 1 ++ (bytes_of 8 6 ++ bytes_of 8 524325)))

abbrev illegal_written : List ℕ
illegal_written = codes "_" ++ (illegal_entry ++ replicate 7 b'_')

illegal_run :
    (n : ℕ)
    → n ≡ 524288
    → tz_log plain_codec name_value_site 5 6 (long_args n) staging 1 ≡ some (illegal_written, 33)
unfolding tz_log args_size str_size_array get_n_args_size get_str_size_array get_str_size
    get_size_for_terminal_s get_strs_num count_args_required args_of is_terminal get_arg_size
    put_header put_bytes overwrite
illegal_run n e = rw (length-replicate {A = ℕ} n b'x', e) refl

tz_log-IsEntry_illegal_example : IsEntry plain_library info (record {
  bytes = slice illegal_written 1 (1 + 32);
  fmt_id = 5;
  timestamp = 6;
  smi = smi;
  body = illegal_body plain_library 524325;
})
tz_log-IsEntry_illegal_example =
    tz_log-IsEntry_illegal plain_library plain_codec info smi name_value none name_value_site
      (long_args 524288) 5 6 524325 1 33 staging illegal_written name_value-IsFormat site_known
      two_required (long_args_known 524288) (omega arith) (omega arith) (omega arith) (omega arith)
      (omega arith) (illegal_run 524288 refl) refl
