-- ===== src/Convert/Format.antt =====
-- `converter_single`, the recursion over the specifiers and the arguments, and the macros.
use constexpr_fmt_str.Prelude.{
  ℕ, ◌+◌, ◌-◌, Bool, true, ◌&&◌, ◌||◌, Option, none, some, List, [], ◌∷◌, ◌++◌, ltb, leb,
  if◌then◌else◌, ◌==◌, ◌>>=◌, length, drop,
}
use constexpr_fmt_str.Prelude.Int.{ℤ, pos, negsuc, neg, is_neg, eqb_ℤ}
use constexpr_fmt_str.Spec.{Flags, SpecInfo, dynamic_width, dynamic_precision}
use constexpr_fmt_str.Spec.Scan.{
  count_valid_spec_infos, squeeze_sound_size, runtime_string, analyze_format_string,
  count_args_required,
}
use constexpr_fmt_str.Outbuf.{Outbuf, create, write, done, get_written_num}
use constexpr_fmt_str.Prelude.{codes}
use constexpr_fmt_str.Convert.Args.{Library, Arg, formatted_width, formatted_prec}
use constexpr_fmt_str.Convert.Text.{
  Conversion, failed, store, field, convert_char, convert_string, convert_count,
}
use constexpr_fmt_str.Convert.Integer.{convert_integer}
use constexpr_fmt_str.Convert.Float.{convert_float}
use constexpr_fmt_str.Convert.Emit.{is_integer, emit}

abbrev pub is_dynamic_width : SpecInfo → Bool
is_dynamic_width s = eqb_ℤ s.width dynamic_width

abbrev pub is_dynamic_prec : SpecInfo → Bool
is_dynamic_prec s = eqb_ℤ s.prec dynamic_precision

-- `P = P < 0 ? -1 : P`
abbrev dynamic_prec_of : ℤ → ℤ
dynamic_prec_of p = if is_neg p then negsuc 0 else p

-- a negative dynamic width is the `-` flag with the positive width
abbrev left_adjusted : ℤ → Flags → ℤ × Flags
left_adjusted w flags = if is_neg w then (neg w, record flags { ladjust = true }) else (w, flags)

-- `W`, `P` and `flags` of a specifier, from the arguments `W` and `P`
unfoldable pub resolve : SpecInfo → ℤ → ℤ → ℤ × ℤ × Flags
resolve s w p =
    let (w', flags) = if is_dynamic_width s then left_adjusted w s.flags else (s.width, s.flags) in
    let p' = if is_dynamic_prec s then dynamic_prec_of p else s.prec in (w', p', flags)

-- a number that `%n` stored: address, bits, value
abbrev pub Store : Type 0
Store = ℕ × ℕ × ℕ

abbrev error_text : List ℕ
error_text = codes "(ER)"

-- the text between two specifiers
abbrev pub write_between : List ℕ → SpecInfo → Outbuf → Option Outbuf
write_between rts s o = write o (drop s.begin rts) (s.end - s.begin)

module _ (lib : Library) where
  -- the `if constexpr` ladder over `SI.terminal_`
  unfoldable pub convert : ℕ → Flags → ℕ → ℤ → ℕ → Arg lib.Real → Option Conversion
  convert term flags sign prec written arg =
      if term == b'c'
      then some (convert_char lib flags sign prec arg)
      else if term == b's'
      then convert_string lib flags sign prec arg
      else if is_integer term || term == b'p'
      then convert_integer lib flags term sign prec arg
      else if term == b'n'
      then some (convert_count lib flags written arg)
      else convert_float lib flags term sign prec arg

  unfoldable pub finish : ℕ → ℤ → Conversion → Outbuf → Option (Outbuf × List Store)
  finish term width failed o = write o error_text (length error_text) >>= λ o'. some (o', [])
  finish term width (store address bits value) o = some (o, (address, bits, value) ∷ [])
  finish term width (field f) o = emit term width f o >>= λ o'. some (o', [])

  unfoldable pub converter_single :
      List ℕ → SpecInfo → Arg lib.Real → ℤ → ℤ → Outbuf → Option (Outbuf × List Store)
  unfolding resolve convert finish
  converter_single rts s arg w p o =
      (if ltb 0 (s.end - s.begin) then write_between rts s o else some o) >>= λ o1.
      let (width, prec, flags) = resolve s w p in
      convert s.terminal flags s.sign prec (get_written_num o1) arg >>= λ c.
      finish s.terminal width c o1

  -- what follows one specifier: `rest` is `converter_impl` on the specifiers behind it
  abbrev pub Rest : Type 0
  Rest = List (Arg lib.Real) → Outbuf → Option (Outbuf × List Store)

  abbrev pub then_rest :
      Option (Outbuf × List Store) → Rest → List (Arg lib.Real) → Option (Outbuf × List Store)
  then_rest m rest args =
      m >>= λ (o, stores). rest args o >>= λ (o', stores'). some (o', stores ++ stores')

  -- `converter_args`
  unfoldable pub converter_args : List ℕ → SpecInfo → Rest → Rest
  converter_args rts s rest [] o = none
  converter_args rts s rest (arg ∷ args) o =
      then_rest (converter_single rts s arg (pos 0) (negsuc 0) o) rest args

  -- `converter_D_args`
  unfoldable pub converter_d_args : List ℕ → SpecInfo → Rest → Rest
  converter_d_args rts s rest (d ∷ arg ∷ args) o =
      if is_dynamic_width s
      then then_rest (converter_single rts s arg (formatted_width d) (negsuc 0) o) rest args
      else then_rest (converter_single rts s arg (pos 0) (formatted_prec d) o) rest args
  converter_d_args rts s rest _ o = none

  -- `converter_D_D_args`
  unfoldable pub converter_d_d_args : List ℕ → SpecInfo → Rest → Rest
  converter_d_d_args rts s rest (d1 ∷ d2 ∷ arg ∷ args) o =
      if s.width_first
      then then_rest (converter_single rts s arg (formatted_width d1) (formatted_prec d2) o) rest
          args
      else then_rest (converter_single rts s arg (formatted_width d2) (formatted_prec d1) o) rest
          args
  converter_d_d_args rts s rest _ o = none

  -- `converter_impl`; the last record of the list has the text behind all specifiers. Too few arguments
  -- do not compile: `none`.
  unfoldable pub converter_impl : List ℕ → List SpecInfo → Rest
  unfolding converter_args converter_d_args converter_d_d_args
  converter_impl rts [] args o = none
  converter_impl rts (s ∷ []) args o = write_between rts s o >>= λ o'. some (o', [])
  converter_impl rts (s ∷ s' ∷ ss) args o =
      let rest = converter_impl rts (s' ∷ ss) in
      if is_dynamic_width s && is_dynamic_prec s
      then converter_d_d_args rts s rest args o
      else if is_dynamic_width s || is_dynamic_prec s
      then converter_d_args rts s rest args o
      else converter_args rts s rest args o

  -- `Converter::convert`, with its static assertion on the number of arguments
  unfoldable pub convert_all : List ℕ → List SpecInfo → Rest
  unfolding converter_impl
  convert_all rts specs args o =
      if leb (count_args_required specs) (length args)
      then converter_impl rts specs args o
      else none

  -- `CFMT_STR_OUTBUFARG(outbuf, format, ...)`
  unfoldable pub cfmt_str_outbufarg :
      Outbuf → List ℕ → List (Arg lib.Real) → Option (Outbuf × List Store)
  unfolding convert_all
  cfmt_str_outbufarg o fmt args = count_valid_spec_infos fmt >>= λ n.
      squeeze_sound_size fmt >>= λ size. analyze_format_string (n + 1) fmt >>= λ specs.
      convert_all (runtime_string size fmt) specs args o

  -- `CFMT_STR(result, buffer, count, format, ...)`: the buffer, `result` and the stores of `%n`
  unfoldable pub cfmt_str :
      List ℕ → ℕ → List ℕ → List (Arg lib.Real) → Option (List ℕ × ℕ × List Store)
  unfolding cfmt_str_outbufarg
  cfmt_str buffer count fmt args =
      cfmt_str_outbufarg (create buffer count) fmt args >>= λ (o, stores).
      done o >>= λ o'. some (o'.mem, get_written_num o, stores)
