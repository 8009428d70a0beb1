-- ===== src/Convert/Integer.antt =====
-- The conversions `d i u o x X p` of `converter_single`.
use constexpr_fmt_str.Prelude.{
  ℕ, ◌-◌, ◌%◌, ◌^◌, Bool, false, ◌||◌, Option, none, some, List, [], ◌∷◌, ◌++◌, leb, if◌then◌else◌,
  ◌==◌, ◌>>=◌, length, drop, replicate, get_or,
}
use constexpr_fmt_str.Prelude.Int.{ℤ, pos, is_neg}
use constexpr_fmt_str.Spec.{Flags}
use constexpr_fmt_str.Outbuf.{overwrite, zeros}
use constexpr_fmt_str.Digits.{Written, format_dec, format_oct, format_hex}
use constexpr_fmt_str.Convert.Args.{Library, Arg, integral, sarg, uarg, umax_mod, buf_size_int}
use constexpr_fmt_str.Convert.Text.{Conversion, failed, text_field, address_of}

-- `*--cp = c` for each character of `prefix`, last first, inside the buffer
abbrev pub with_prefix : List ℕ → Written → Option (List ℕ)
with_prefix prefix (buf, it) = if leb (length prefix) it then some (prefix ++ drop it buf) else none

-- the `#` flag: a prefix unless the numeral starts with '0'
abbrev pub with_alt : Bool → List ℕ → Written → Option (List ℕ)
with_alt alt prefix (buf, it) =
    if alt
    then (if get_or buf it 0 == b'0' then some (drop it buf) else with_prefix prefix (buf, it))
    else some (drop it buf)

-- `char buf[BUF]`, which is not initialised: every digit function overwrites what it returns
abbrev pub scratch : List ℕ
scratch = replicate buf_size_int 0

-- `ujval` and `sign` of a signed conversion: a negative number is negated and gets a '-'
unfoldable pub signed_value : Flags → ℕ → ℕ → ℕ × ℕ
unfolding sarg
signed_value flags sign v =
    let ujval = sarg flags.int_size v in
    if leb (2 ^ 63) ujval then ((umax_mod - ujval) % umax_mod, b'-') else (ujval, sign)

-- the numeral of an integer argument, with its prefix and the sign; `none` is an access out of bounds
unfoldable pub integer_text : Flags → ℕ → ℕ → ℕ → Option (List ℕ × ℕ)
unfolding signed_value uarg
integer_text flags term sign v =
    let (magnitude, sign') = signed_value flags sign v in
    let u = uarg flags.int_size v in
    if term == b'd' || term == b'i'
    then format_dec scratch magnitude >>= (λ w. some (drop w.1 w.0, sign'))
    else if term == b'u'
    then format_dec scratch u >>= (λ w. some (drop w.1 w.0, sign))
    else if term == b'o'
    then format_oct scratch u >>= (λ w. with_alt flags.alt (b'0' ∷ []) w >>= λ t. some (t, sign))
    else format_hex term scratch u
      >>= (λ w. with_alt flags.alt (b'0' ∷ term ∷ []) w >>= λ t. some (t, sign))

-- `formatHex<'X'>` over sixteen zeros at the end of the buffer
unfoldable pub pointer_text : ℕ → Option (List ℕ)
pointer_text address =
    format_hex b'X' (overwrite scratch (buf_size_int - 16) zeros) (address % umax_mod) >>= λ w.
    some (drop (buf_size_int - 16) w.0)

-- A precision switches the `0` flag off.
abbrev pub precision_flags : ℤ → Flags → Flags
precision_flags prec flags = if is_neg prec then flags else record flags { zeropad = false }

module _ (lib : Library) where
  abbrev integer_field : Flags → ℤ → List ℕ × ℕ → Conversion
  integer_field flags prec (text, sign) = text_field (precision_flags prec flags) sign prec text

  unfoldable pub convert_pointer : Flags → ℕ → Arg lib.Real → Option Conversion
  unfolding pointer_text
  convert_pointer flags sign arg = elim (address_of lib arg) [
    | none ↦ some failed
    | some address ↦ pointer_text address >>= λ t. some (integer_field flags (pos 0) (t, sign))
  ]

  -- `if constexpr (SI.terminal_ == 'i' || ... || SI.terminal_ == 'p')`
  unfoldable pub convert_integer : Flags → ℕ → ℕ → ℤ → Arg lib.Real → Option Conversion
  unfolding integer_text
  convert_integer flags term sign prec (integral v) =
      if term == b'p'
      then some failed
      else integer_text flags term sign v >>= (λ t. some (integer_field flags prec t))
  convert_integer flags term sign prec arg =
      if term == b'p' then convert_pointer flags sign arg else some failed
