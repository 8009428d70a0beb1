-- ===== src/Convert/Render.antt =====
-- The formatting as a function on texts, without a buffer: what `converter_impl` is to write.
use constexpr_fmt_str.Prelude.{
  ℕ, ◌+◌, ◌-◌, ◌%◌, ◌&&◌, ◌||◌, Option, none, some, List, [], ◌∷◌, ◌++◌, ltb, leb, if◌then◌else◌,
  ◌>>=◌, length, take, drop, codes,
}
use constexpr_fmt_str.Prelude.Int.{ℤ, pos, negsuc}
use constexpr_fmt_str.Spec.{SpecInfo}
use constexpr_fmt_str.Spec.Scan.{
  count_valid_spec_infos, squeeze_sound_size, analyze_format_string, runtime_string,
  count_args_required,
}
use constexpr_fmt_str.Outbuf.{size_mod}
use constexpr_fmt_str.Convert.Args.{Library, Arg, formatted_width, formatted_prec}
use constexpr_fmt_str.Convert.Text.{Conversion, failed, store, field}
use constexpr_fmt_str.Convert.Emit.{cut_at, pads_in_int}
use constexpr_fmt_str.Convert.Layout.{layout}
use constexpr_fmt_str.Convert.Format.{is_dynamic_width, is_dynamic_prec, resolve, convert, Store}

-- a text and the numbers that `%n` stored
abbrev pub Rendered : Type 0
Rendered = List ℕ × List Store

abbrev pub render_between : List ℕ → SpecInfo → List ℕ → Option (List ℕ)
render_between rts s t =
    if leb (s.end - s.begin) (length (drop s.begin rts))
    then some (t ++ take (s.end - s.begin) (drop s.begin rts))
    else none

abbrev pub render_field : ℕ → ℤ → Conversion → List ℕ → Option Rendered
render_field term width failed t = some (t ++ codes "(ER)", [])
render_field term width (store address bits value) t = some (t, (address, bits, value) ∷ [])
render_field term width (field f) t =
    if pads_in_int term width f
    then (cut_at term f >>= λ cut. some (t ++ layout term width f cut, []))
    else none

module _ (lib : Library) where
  abbrev pub render_single : List ℕ → SpecInfo → Arg lib.Real → ℤ → ℤ → List ℕ → Option Rendered
  render_single rts s arg w p t =
      (if ltb 0 (s.end - s.begin) then render_between rts s t else some t) >>= λ t1.
      let (width, prec, flags) = resolve s w p in
      convert lib s.terminal flags s.sign prec (length t1 % size_mod) arg >>= λ c.
      render_field s.terminal width c t1

  -- the width, the precision and the argument of a specifier, and the arguments behind them
  abbrev pub take_args :
      SpecInfo → List (Arg lib.Real) → Option (ℤ × ℤ × Arg lib.Real × List (Arg lib.Real))
  take_args s [] = none
  take_args s (a ∷ []) =
      if is_dynamic_width s || is_dynamic_prec s then none else some (pos 0, negsuc 0, a, [])
  take_args s (a ∷ b ∷ []) =
      if is_dynamic_width s && is_dynamic_prec s
      then none
      else if is_dynamic_width s
      then some (formatted_width a, negsuc 0, b, [])
      else if is_dynamic_prec s
      then some (pos 0, formatted_prec a, b, [])
      else some (pos 0, negsuc 0, a, b ∷ [])
  take_args s (a ∷ b ∷ c ∷ args) =
      if is_dynamic_width s && is_dynamic_prec s
      then (if s.width_first
          then some (formatted_width a, formatted_prec b, c, args)
          else some (formatted_width b, formatted_prec a, c, args))
      else if is_dynamic_width s
      then some (formatted_width a, negsuc 0, b, c ∷ args)
      else if is_dynamic_prec s
      then some (pos 0, formatted_prec a, b, c ∷ args)
      else some (pos 0, negsuc 0, a, b ∷ c ∷ args)

  abbrev pub render_impl : List ℕ → List SpecInfo → List (Arg lib.Real) → List ℕ → Option Rendered
  render_impl rts [] args t = none
  render_impl rts (s ∷ []) args t = render_between rts s t >>= λ t'. some (t', [])
  render_impl rts (s ∷ s' ∷ ss) args t = take_args s args >>= λ (w, p, arg, rest).
      render_single rts s arg w p t >>= λ (t1, stores).
      render_impl rts (s' ∷ ss) rest t1 >>= λ (t2, stores'). some (t2, stores ++ stores')

  -- a format and its arguments behind the text `t`; `none` if `CFMT_STR_OUTBUFARG` does not compile, leaves an array
  -- or overflows an `int`
  abbrev pub render_onto : List ℕ → List (Arg lib.Real) → List ℕ → Option Rendered
  render_onto fmt args t = count_valid_spec_infos fmt >>= λ n. squeeze_sound_size fmt >>= λ size.
      analyze_format_string (n + 1) fmt >>= λ specs.
      if leb (count_args_required specs) (length args)
      then render_impl (runtime_string size fmt) specs args t
      else none

  -- the whole text of a format and its arguments
  abbrev pub render : List ℕ → List (Arg lib.Real) → Option Rendered
  render fmt args = render_onto fmt args []
