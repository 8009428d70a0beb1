-- ===== src/Tests/Entries.antt =====
-- The log entry of a statement with a text and a number.
use constexpr_fmt_str.Prelude.{
  ℕ, ◌+◌, ◌≤◌, ◌≡◌, refl, true, none, some, List, [], ◌∷◌, codes, replicate, arith, inl, inr,
  length-replicate,
}
use constexpr_fmt_str.Prelude.Int.{pos, negsuc}
use constexpr_fmt_str.Outbuf.{Outbuf}
use constexpr_fmt_str.Spec.{
  SpecInfo, no_flags, is_terminal, is_inside, is_flag, is_length, is_digit, to_digit, read_fields,
  switch_char, double_letter, read_number, read_precision, find_percent, skip_plain, skip_inside,
}
use constexpr_fmt_str.Spec.Scan.{
  count_valid_spec_infos, count_loop, squeeze_sound_size, squeeze_loop, skip_specs, find_end,
  make_spec, get_one_spec, specs_from, analyze_format_string, store_one_char, store_chars,
  preprocess_invalid_specs, runtime_string, args_of, count_args_required,
}
use constexpr_fmt_str.Spec.Pieces.{Piece, plain_char, valid, source, IsFormat}
use constexpr_fmt_str.Convert.Args.{integral, c_string}
use constexpr_fmt_str.Convert.Format.{cfmt_str_outbufarg}
use constexpr_fmt_str.Entry.{RealCodec, Typed, integer, char_pointer, types, values, get_arg_size}
use constexpr_fmt_str.Entry.Typed.{has_integer, has_text}
use constexpr_fmt_str.Entry.Sized.{AllTyped}
use constexpr_fmt_str.Entry.Store.{
  get_n_args_size, get_str_size_array, get_str_size, get_size_for_terminal_s,
}
use constexpr_fmt_str.Entry.Load.{formator}
use constexpr_fmt_str.Entry.Statement.{
  Site, site_of, buf_size, args_size, str_size_array, get_strs_num, reserved_size, tz_log,
  normal_status, illegal_args_size, fmt_id_at, entry_size_at, status_at, timestamp_at, args_size_at,
}
use constexpr_fmt_str.Entry.Header.{Outside}
use constexpr_fmt_str.Outbuf.{overwrite}
use constexpr_fmt_str.Prelude.{◌++◌}
use constexpr_fmt_str.Entry.{bytes_of, object_bytes}
use constexpr_fmt_str.Entry.Store.{
  put_bytes, dump, store_args, store_some_args, store_arg, put_raw, put_object, put_text,
}
use constexpr_fmt_str.Entry.Statement.{put_header}
use constexpr_fmt_str.Entry.Copied.{tz_log-copied}
use constexpr_fmt_str.Entry.RoundTrip.{tz_log-formator, tz_log-illegal}
use constexpr_fmt_str.Tests.{plain_library}

-- floating numbers are texts of their bytes
abbrev pub plain_codec : RealCodec (List ℕ)
plain_codec = record { bytes = λ n x. x; value = λ n b. b }

abbrev pub name_value : List Piece
name_value = valid [] b's' ∷ plain_char b'=' ∷ valid [] b'd' ∷ []

abbrev spec : ℕ → ℕ → ℕ → SpecInfo
spec begin end terminal = record {
  begin = begin;
  end = end;
  flags = no_flags;
  width = pos 0;
  prec = negsuc 0;
  sign = 0;
  terminal = terminal;
  width_first = true;
}

abbrev pub name_value_site : Site
name_value_site = record {
  rts = codes "%s=%d";
  specs = spec 0 0 b's' ∷ spec 2 3 b'd' ∷ spec 5 5 0 ∷ [];
}

abbrev pub args : List (Typed (List ℕ))
args = (char_pointer, c_string 4096 (codes "x")) ∷ (integer 4 true, integral 7) ∷ []

pub site_known : site_of (source name_value none) ≡ some name_value_site
unfolding site_of count_valid_spec_infos skip_plain skip_inside is_inside squeeze_sound_size
    analyze_format_string is_terminal get_one_spec read_fields switch_char read_number find_percent
    to_digit runtime_string count_loop find_end make_spec preprocess_invalid_specs skip_specs
    specs_from squeeze_loop store_chars store_one_char double_letter is_digit is_flag is_length
    read_precision
site_known = refl

pub args_known : buf_size plain_codec name_value_site args ≡ some 38
unfolding buf_size args_size str_size_array get_n_args_size get_str_size_array get_str_size
    get_size_for_terminal_s get_strs_num count_args_required args_of is_terminal get_arg_size
args_known = refl

pub two_required : count_args_required name_value_site.specs ≤ 2
unfolding count_args_required args_of is_terminal
two_required = omega arith

abbrev pub staging : List ℕ
staging = replicate 40 b'_'

pub name_value-IsFormat : IsFormat name_value none
unfolding is_inside is_terminal
name_value-IsFormat =
    ((_, refl, refl, omega arith), ((omega arith, omega arith), ((_, refl, refl, omega arith), _)))

pub args-AllTyped : AllTyped plain_codec args
args-AllTyped = (
  has_text 4096 (codes "x") (omega arith) (omega arith, _),
  (has_integer 4 true 7 (inr (inr (inl refl))) refl, _),
)

tz_log-formator_example :
    (mem' : List ℕ) × (reserved_size plain_codec name_value_site args ≡ some 38)
    × (tz_log plain_codec name_value_site 5 6 args staging 1 ≡ some (mem', 39))
    × Outside 1 39 staging mem'
    × (fmt_id_at mem' 1 ≡ 5)
    × (entry_size_at mem' 1 ≡ 38)
    × (status_at mem' 1 ≡ normal_status)
    × (timestamp_at mem' 1 ≡ 6)
    × ((o : Outbuf)
        → formator plain_library plain_codec mem' name_value_site.rts name_value_site.specs
            (types args)
            25
            o
          ≡ cfmt_str_outbufarg plain_library o (source name_value none) (values args))
tz_log-formator_example =
    tz_log-formator plain_library plain_codec name_value none name_value_site args 5 6 38 1 staging
      name_value-IsFormat site_known args-AllTyped two_required args_known (omega arith)
      (omega arith) (omega arith) (omega arith) (omega arith)

abbrev pub long_args : ℕ → List (Typed (List ℕ))
long_args n = (char_pointer, c_string 4096 (replicate n b'x')) ∷ (integer 4 true, integral 7) ∷ []

pub long_args_known :
    (n : ℕ) → buf_size plain_codec name_value_site (long_args n) ≡ some (12 + 24 + (n + 1 + 0))
unfolding buf_size args_size str_size_array get_n_args_size get_str_size_array get_str_size
    get_size_for_terminal_s get_strs_num count_args_required args_of is_terminal get_arg_size
long_args_known n = rw (length-replicate {A = ℕ} n b'x') refl

tz_log-illegal_example :
    (mem' : List ℕ) × (reserved_size plain_codec name_value_site (long_args 524288) ≡ some 32)
    × (tz_log plain_codec name_value_site 5 6 (long_args 524288) staging 1 ≡ some (mem', 33))
    × Outside 1 33 staging mem'
    × (fmt_id_at mem' 1 ≡ 5)
    × (entry_size_at mem' 1 ≡ 32)
    × (status_at mem' 1 ≡ illegal_args_size)
    × (timestamp_at mem' 1 ≡ 6)
    × (args_size_at mem' 1 ≡ 524325)
tz_log-illegal_example =
    tz_log-illegal plain_library plain_codec name_value none name_value_site (long_args 524288) 5 6
      524325 1 staging name_value-IsFormat site_known two_required (long_args_known 524288)
      (omega arith) (omega arith) (omega arith) (omega arith) (omega arith)

abbrev entry : List ℕ
entry =
    bytes_of 8 5
    ++ (bytes_of 4 38
        ++ (bytes_of 4 0
            ++ (bytes_of 8 6 ++ (bytes_of 8 12 ++ (bytes_of 4 7 ++ (codes "x" ++ (0 ∷ [])))))))

abbrev pub written : List ℕ
written = codes "_" ++ (entry ++ codes "_")

pub entry_written : tz_log plain_codec name_value_site 5 6 args staging 1 ≡ some (written, 39)
unfolding tz_log args_size str_size_array get_n_args_size get_str_size_array get_str_size
    get_size_for_terminal_s get_strs_num count_args_required args_of is_terminal get_arg_size
    put_header put_bytes dump store_args store_some_args store_arg put_raw put_object put_text
    object_bytes overwrite
entry_written = refl

tz_log-copied_example :
    (fmt_id_at entry 0 ≡ 5)
    × (entry_size_at entry 0 ≡ 38)
    × (status_at entry 0 ≡ normal_status)
    × (timestamp_at entry 0 ≡ 6)
    × ((o : Outbuf)
        → formator plain_library plain_codec entry name_value_site.rts name_value_site.specs
            (types args)
            24
            o
          ≡ cfmt_str_outbufarg plain_library o (source name_value none) (values args))
tz_log-copied_example =
    tz_log-copied plain_library plain_codec name_value none name_value_site args 5 6 38 1 0 39
      staging written entry name_value-IsFormat site_known args-AllTyped two_required args_known
      (omega arith) (omega arith) (omega arith) (omega arith) (omega arith) entry_written refl
      (omega arith) (omega arith)
