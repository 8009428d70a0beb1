-- ===== src/Entry/Load.antt =====
-- `_ARG` and `formator`: the stored arguments are read back and formatted.
use constexpr_fmt_str.Prelude.{
  ℕ, ◌+◌, ◌%◌, ◌&&◌, ◌||◌, Option, none, some, List, [], ◌∷◌, ◌++◌, leb, ◌==◌, if◌then◌else◌, ◌>>=◌,
  length, drop,
}
use constexpr_fmt_str.Prelude.Int.{pos, negsuc}
use constexpr_fmt_str.Outbuf.{Outbuf, size_mod}
use constexpr_fmt_str.Spec.{SpecInfo}
use constexpr_fmt_str.Convert.Args.{
  Library, Arg, integral, floating, c_string, wide_string, pointer, null, formatted_width,
  formatted_prec,
}
use constexpr_fmt_str.Convert.Format.{
  is_dynamic_width, is_dynamic_prec, converter_single, write_between, Store as NumberStore,
}
use constexpr_fmt_str.Entry.{
  CType, integer, real, char_pointer, wide_pointer, void_pointer, null_pointer, get_arg_size,
  RealCodec, number_of, widen,
}
use constexpr_fmt_str.Staging.Slice.{slice}

-- the characters before the first '\0'
abbrev pub until_nul : List ℕ → List ℕ
until_nul [] = []
until_nul (c ∷ r) = if c == 0 then [] else c ∷ until_nul r

abbrev pub until_wide_nul : List ℕ → List ℕ
until_wide_nul (a ∷ b ∷ c ∷ d ∷ r) =
    let u = number_of (a ∷ b ∷ c ∷ d ∷ []) in if u == 0 then [] else u ∷ until_wide_nul r
until_wide_nul _ = []

-- `_ARG<SI, T>(input)`
unfoldable pub load_arg :
    {Real : Type 0} → RealCodec Real → SpecInfo → CType → List ℕ → ℕ → Arg Real
unfolding get_arg_size
load_arg codec s (integer n is_signed) mem input =
    integral (widen n is_signed (number_of (slice mem input (input + n))))
load_arg codec s (real n) mem input = floating (codec.value n (slice mem input (input + n)))
load_arg codec s char_pointer mem input =
    let v = number_of (slice mem input (input + 8)) in
    let address = if s.terminal == b's' then (input + v) % size_mod else v in
    c_string address (until_nul (drop address mem))
load_arg codec s wide_pointer mem input =
    let v = number_of (slice mem input (input + 8)) in
    let address = if s.terminal == b's' then (input + v) % size_mod else v in
    wide_string address (until_wide_nul (drop address mem))
load_arg codec s void_pointer mem input = pointer (number_of (slice mem input (input + 8)))
load_arg codec s null_pointer mem input = null

module _ (lib : Library) (codec : RealCodec lib.Real) (mem : List ℕ) where
  -- an argument at `input`, inside the memory
  unfoldable pub read_arg : SpecInfo → CType → ℕ → Option (Arg lib.Real)
  unfolding load_arg
  read_arg s ty input =
      if leb (input + get_arg_size ty) (length mem)
      then some (load_arg codec s ty mem input)
      else none

  -- `*reinterpret_cast<const D*>(input)` as an `int`; of a type that is not integral it is not read
  unfoldable pub read_dynamic : SpecInfo → CType → ℕ → Option (Arg lib.Real)
  unfolding read_arg
  read_dynamic s (integer n is_signed) input = read_arg s (integer n is_signed) input
  read_dynamic s ty input = some null

  -- what follows one specifier: `formator` on the specifiers behind it
  abbrev pub Formator : Type 0
  Formator = List CType → ℕ → Outbuf → Option (Outbuf × List NumberStore)

  abbrev pub then_formator :
      Option (Outbuf × List NumberStore)
      → Formator
      → List CType
      → ℕ
      → Option (Outbuf × List NumberStore)
  then_formator m rest tys input =
      m >>= λ (o, stores). rest tys input o >>= λ (o', stores'). some (o', stores ++ stores')

  unfoldable pub formator_a_args : List ℕ → SpecInfo → Formator → Formator
  unfolding read_arg get_arg_size
  formator_a_args rts s rest [] input o = none
  formator_a_args rts s rest (ty ∷ tys) input o = read_arg s ty input >>= λ val.
      then_formator (converter_single lib rts s val (pos 0) (negsuc 0) o) rest tys
        (input + get_arg_size ty)

  unfoldable pub formator_d_a_args : List ℕ → SpecInfo → Formator → Formator
  unfolding read_arg read_dynamic get_arg_size
  formator_d_a_args rts s rest (dty ∷ ty ∷ tys) input o =
      let input1 = input + get_arg_size dty in
      let input2 = input1 + get_arg_size ty in
      read_dynamic s dty input >>= λ d. read_arg s ty input1 >>= λ val.
      if is_dynamic_width s
      then then_formator (converter_single lib rts s val (formatted_width d) (negsuc 0) o) rest tys
          input2
      else then_formator (converter_single lib rts s val (pos 0) (formatted_prec d) o) rest tys
          input2
  formator_d_a_args rts s rest _ input o = none

  unfoldable pub formator_d_d_a_args : List ℕ → SpecInfo → Formator → Formator
  unfolding read_arg read_dynamic get_arg_size
  formator_d_d_a_args rts s rest (dty1 ∷ dty2 ∷ ty ∷ tys) input o =
      let input1 = input + get_arg_size dty1 in
      let input2 = input1 + get_arg_size dty2 in
      let input3 = input2 + get_arg_size ty in
      read_dynamic s dty1 input >>= λ d1. read_dynamic s dty2 input1 >>= λ d2.
      read_arg s ty input2 >>= λ val.
      if s.width_first
      then then_formator (converter_single lib rts s val (formatted_width d1) (formatted_prec d2) o)
          rest tys input3
      else then_formator (converter_single lib rts s val (formatted_width d2) (formatted_prec d1) o)
          rest tys input3
  formator_d_d_a_args rts s rest _ input o = none

  unfoldable pub formator : List ℕ → List SpecInfo → Formator
  unfolding formator_a_args formator_d_a_args formator_d_d_a_args
  formator rts [] tys input o = none
  formator rts (s ∷ []) tys input o = write_between rts s o >>= λ o'. some (o', [])
  formator rts (s ∷ s' ∷ ss) tys input o =
      let rest = formator rts (s' ∷ ss) in
      if is_dynamic_width s && is_dynamic_prec s
      then formator_d_d_a_args rts s rest tys input o
      else if is_dynamic_width s || is_dynamic_prec s
      then formator_d_a_args rts s rest tys input o
      else formator_a_args rts s rest tys input o
