-- ===== src/Tests.antt =====
-- Runs of the formatting code, and the theorems at concrete inputs.
mod Queue
mod Integers
mod Entries
mod Sinks
mod Timestamps
mod Lines
mod Runtimes
use constexpr_fmt_str.Spec.Analyze.{analyze_format_string-source}
use constexpr_fmt_str.Prelude.{
  map, ℕ, ◌+◌, ◌-◌, ◌%◌, ◌^◌, ◌≤◌, max, true, false, none, some, List, [], ◌∷◌, ◌++◌, codes,
  replicate, ◌≡◌, refl, arith, length, take, drop,
}
use constexpr_fmt_str.Prelude.Int.{pos_part, pos}
use constexpr_fmt_str.Outbuf.{
  Outbuf, overwrite, create, size_mod, pad_size, write, write_char, write_paddings,
}
use constexpr_fmt_str.Outbuf.Holds.{Holds, create-Holds, write-Holds, write_char-Holds}
use constexpr_fmt_str.Outbuf.Padding.{write_paddings-Holds}
use constexpr_fmt_str.Spec.{
  SpecInfo, Fields, no_flags, no_fields, is_terminal, is_inside, is_flag, is_length, is_digit,
  to_digit, read_fields, switch_char, double_letter, read_number, read_precision, find_percent,
  skip_plain, skip_inside,
}
use constexpr_fmt_str.Spec.Scan.{
  count_valid_spec_infos, count_loop, squeeze_sound_size, squeeze_loop, skip_specs, find_end,
  make_spec, get_one_spec, specs_from, analyze_format_string, store_one_char, store_chars,
  preprocess_invalid_specs, runtime_string, args_of, count_args_required,
}
use constexpr_fmt_str.Spec.Pieces.{
  Piece, plain_char, valid, faulty, Tail, source, squeezed, count_valid, IsFormat, AllFit,
}
use constexpr_fmt_str.Spec.Count.{
  count_valid_spec_infos-source, squeeze_sound_size-source, scan-NoNul,
}
use constexpr_fmt_str.Spec.Store.{preprocess_invalid_specs-source}
use constexpr_fmt_str.Spec.Switch.{read_fields-ends}
use constexpr_fmt_str.Spec.Find.{get_one_spec-source}
use constexpr_fmt_str.Digits.{
  Written, format_dec, format_oct, format_hex, pair_loop, read_pair, store_pair,
}
use constexpr_fmt_str.Digits.Value.{Spells}
use constexpr_fmt_str.Digits.Formats.{
  dec_value, is_numeral, hex_value, is_hex, format_dec-Spells, format_hex-Spells,
}
use constexpr_fmt_str.Convert.Args.{
  Library, Arg, integral, c_string, normal, sign_extend, sarg, uarg, int_of, size_of_int,
}
use constexpr_fmt_str.Convert.Text.{Field, convert_string}
use constexpr_fmt_str.Convert.Integer.{signed_value, integer_text, convert_integer}
use constexpr_fmt_str.Convert.Float.{is_f, is_e, is_a, is_g}
use constexpr_fmt_str.Convert.Emit.{
  is_integer, is_real, has_sign, real_size, pads_in_int, precision_zeros, cut_at, emit,
}
use constexpr_fmt_str.Convert.Layout.{layout, emit-Holds}
use constexpr_fmt_str.Convert.Width.{length-layout}
use constexpr_fmt_str.Convert.Format.{cfmt_str, convert, resolve}
use constexpr_fmt_str.Convert.Render.{render}
use constexpr_fmt_str.Convert.Contract.{IsClosed, cfmt_str-render, cfmt_str-nothing}

-- a library without numbers of its own: reals are texts, and wide characters single bytes
abbrev pub plain_library : Library
plain_library = record {
  Real = List ℕ;
  fpclassify = λ x. normal;
  is_negative = λ x. false;
  abs = λ x. x;
  floor_log10 = λ x. pos 0;
  to_int = λ x. 0;
  to_chars = λ long format n x prec. some x;
  c32rtomb = λ c. some (c ∷ []);
  wcsrtombs = λ s n. some s;
}

abbrev room : List ℕ
room = replicate 8 b'_'

room-Holds : Holds 8 (create room 8) []
room-Holds = create-Holds room 8 refl (omega arith)

write-Holds_example :
    (o' : Outbuf) × (write (create room 8) (codes "abc") 2 ≡ some o') × Holds 8 o' (codes "ab")
write-Holds_example = write-Holds (create room 8) [] (codes "abc") 2 (omega arith) room-Holds

write_paddings-Holds_example :
    (o' : Outbuf) × (write_paddings (create room 8) (replicate pad_size b'0') (pos 20) ≡ some o')
    × Holds 8 o' (replicate 20 b'0')
write_paddings-Holds_example = write_paddings-Holds (create room 8) [] b'0' (pos 20) room-Holds

-- `a%5dz%l%x`, of which `%l%` is faulty
abbrev pieces : List Piece
pieces =
    plain_char b'a'
    ∷ valid (codes "5") b'd'
    ∷ plain_char b'z'
    ∷ faulty (codes "l") b'%'
    ∷ plain_char b'x'
    ∷ []

pieces-IsFormat : IsFormat pieces none
unfolding is_inside is_terminal is_flag is_length is_digit
pieces-IsFormat = (
  (omega arith, omega arith),
  (
    ((refl, tt), refl, refl, omega arith),
    (
      (omega arith, omega arith),
      (((refl, tt), refl, refl, omega arith), ((omega arith, omega arith), tt)),
    ),
  ),
)

pieces-AllFit : AllFit pieces
unfolding is_digit to_digit
pieces-AllFit = omega arith

count_valid_spec_infos-source_example : count_valid_spec_infos (codes "a%5dz%l%x") ≡ some 1
count_valid_spec_infos-source_example = count_valid_spec_infos-source pieces none pieces-IsFormat

squeeze_sound_size-source_example : squeeze_sound_size (codes "a%5dz%l%x") ≡ some 8
squeeze_sound_size-source_example = squeeze_sound_size-source pieces none pieces-IsFormat

preprocess_invalid_specs-source_example :
    preprocess_invalid_specs 8 (codes "a%5dz%l%x") ≡ codes "a%5dz%x" ++ (0 ∷ [])
preprocess_invalid_specs-source_example =
    preprocess_invalid_specs-source pieces none pieces-IsFormat (omega arith)

-- the text behind the only specifier
get_one_spec-source_example :
    (si : SpecInfo) × (get_one_spec (codes "a%5dz%l%x") 1 ≡ some si)
    × (si.terminal ≡ 0)
    × (si.begin ≤ si.end)
    × (take (si.end - si.begin) (drop si.begin (codes "a%5dz%x")) ≡ codes "z%x")
get_one_spec-source_example =
    get_one_spec-source 1 pieces none pieces-IsFormat pieces-AllFit (omega arith)

analyze_format_string-source_example :
    (ss : List SpecInfo) × (analyze_format_string 2 (codes "a%5dz%l%x") ≡ some ss)
    × (map (λ s. s.terminal) ss ≡ b'd' ∷ 0 ∷ [])
analyze_format_string-source_example =
    analyze_format_string-source pieces none pieces-IsFormat pieces-AllFit

read_fields-ends_example :
    (s' : Fields) × (s'.terminal ≡ b'd') × (read_fields 4 no_fields (codes "-5ldxyz") ≡ some s')
unfolding is_inside is_terminal to_digit
read_fields-ends_example =
    read_fields-ends no_fields (codes "-5l") (codes "xyz") b'd' (refl, (refl, (refl, tt)))
      (omega arith) refl

scan-NoNul_example :
    (ps : List Piece) × (t : Tail) × IsFormat ps t
    × (source ps t ≡ codes "%d%")
    × (count_valid_spec_infos (codes "%d%") ≡ some (count_valid ps))
    × (squeeze_sound_size (codes "%d%") ≡ some (length (squeezed ps) + 1))
scan-NoNul_example = scan-NoNul (codes "%d%") (omega arith, (omega arith, (omega arith, tt)))

format_dec-Spells_example :
    (w : Written) × (format_dec (replicate 22 0) 1205 ≡ some w)
    × Spells 10 dec_value (is_numeral b'9') 22 1205 w
format_dec-Spells_example = format_dec-Spells (replicate 22 0) 1205 (omega arith) (omega arith)

format_hex-Spells_example :
    (w : Written) × (format_hex b'X' (replicate 22 0) 255 ≡ some w)
    × Spells 16 (hex_value b'A') (is_hex b'A') 22 255 w
format_hex-Spells_example = format_hex-Spells b'X' (replicate 22 0) 255 (omega arith) (omega arith)

-- `%+.3d` of 42
abbrev plus_042 : Field
plus_042 = record {
  text = codes "42";
  sign = b'+';
  prec = pos 3;
  flags = record no_flags { ladjust = true };
  fpprec = 0;
  gtoe = false;
}

plus_042-cut_at : cut_at b'd' plus_042 ≡ some 2
unfolding cut_at is_e is_a is_g
plus_042-cut_at = refl

plus_042-in_int : pads_in_int b'd' (pos 6) plus_042 ≡ true
unfolding pads_in_int real_size has_sign is_integer is_real is_f is_e is_a is_g int_of
plus_042-in_int = refl

emit-Holds_example :
    (o' : Outbuf) × (emit b'd' (pos 6) plus_042 (create room 8) ≡ some o')
    × Holds 8 o' (layout b'd' (pos 6) plus_042 2)
emit-Holds_example =
    emit-Holds b'd' (pos 6) plus_042 2 (create room 8) [] plus_042-in_int plus_042-cut_at room-Holds

length-layout_example :
    length (layout b'd' (pos 6) plus_042 2) ≡ max 6 (pos_part (real_size b'd' plus_042))
length-layout_example =
    length-layout b'd' (pos 6) plus_042 2 (omega arith) (omega arith) (omega arith) plus_042-cut_at

abbrev hello_args : List (Arg (List ℕ))
hello_args = integral (2 ^ 64 - 42) ∷ c_string 9 (codes "hi") ∷ []

hello_render : render plain_library (codes "a%5d|%s") hello_args ≡ some (codes "a  -42|hi", [])
unfolding count_valid_spec_infos skip_plain skip_inside is_inside squeeze_sound_size
    analyze_format_string is_terminal get_one_spec read_fields switch_char read_number find_percent
    count_args_required to_digit runtime_string convert is_integer sarg sign_extend uarg is_a is_e
    is_f is_g convert_integer integer_text signed_value convert_string format_dec pair_loop
    read_pair store_pair overwrite args_of count_loop find_end make_spec preprocess_invalid_specs
    skip_specs specs_from squeeze_loop store_chars store_one_char double_letter is_digit is_flag
    is_length read_precision resolve cut_at real_size pads_in_int precision_zeros has_sign is_real
    int_of size_of_int
hello_render = refl

cfmt_str-render_example :
    (mem : List ℕ) × (cfmt_str plain_library room 8 (codes "a%5d|%s") hello_args
      ≡ some (mem, 9 % size_mod, []))
    × IsClosed mem 8 (codes "a  -42|hi")
cfmt_str-render_example =
    cfmt_str-render plain_library room 8 (codes "a%5d|%s") (codes "a  -42|hi") hello_args [] refl
      (omega arith) (omega arith) hello_render

cfmt_str-nothing_example : cfmt_str plain_library [] 0 (codes "a%5d|%s") hello_args ≡ none
cfmt_str-nothing_example =
    cfmt_str-nothing plain_library (codes "a%5d|%s") (codes "a  -42|hi") hello_args [] hello_render
