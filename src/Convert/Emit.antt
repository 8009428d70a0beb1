-- ===== src/Convert/Emit.antt =====
-- The last part of `converter_single`, where all formats come together: padding, sign, zeros, text.
use constexpr_fmt_str.Prelude.{
  ℕ, ◌+◌, ◌-◌, ◌%◌, Bool, true, false, not, ◌&&◌, ◌||◌, Option, none, some, ltb, leb, ◌^◌,
  if◌then◌else◌, ◌==◌, ◌>>=◌, length, drop,
}
use constexpr_fmt_str.Prelude.Int.{ℤ, pos, ◌+ℤ◌, ◌-ℤ◌, ltb_ℤ, pos_part, neg_part}
use constexpr_fmt_str.Outbuf.{Outbuf, write, write_char, write_paddings, blanks, zeros}
use constexpr_fmt_str.Convert.Args.{size_of_int, int_of, umax_mod}
use constexpr_fmt_str.Convert.Text.{Field}
use constexpr_fmt_str.Convert.Float.{is_f, is_e, is_a, is_g, exponent_start}

-- `diouxX`, and `d i` with the floating formats
unfoldable pub is_integer : ℕ → Bool
is_integer t = t == b'i' || t == b'd' || t == b'x' || t == b'X' || t == b'o' || t == b'u'

unfoldable pub is_real : ℕ → Bool
unfolding is_f is_e is_a is_g
is_real t = is_f t || is_a t || is_e t || is_g t

unfoldable pub has_sign : ℕ → Bool
unfolding is_real
has_sign t = is_real t || t == b'i' || t == b'd'

-- `realsz`, with its casts to `int`
unfoldable pub real_size : ℕ → Field → ℤ
unfolding is_integer has_sign int_of
real_size t f =
    let size = int_of (length f.text) in
    (if is_integer t
      then (if ltb_ℤ size f.prec then f.prec else size)
      else if is_real t
      then int_of (length f.text + f.fpprec)
      else size)
    +ℤ (if has_sign t && not (f.sign == 0) then pos 1 else pos 0)

abbrev pub in_int : ℤ → Bool
in_int z = ltb (pos_part z) (2 ^ 31) && leb (neg_part z) (2 ^ 31)

-- `W`, `realsz++` and `W - realsz` do not overflow an `int`
unfoldable pub pads_in_int : ℕ → ℤ → Field → Bool
unfolding real_size
pads_in_int t width f = in_int width && in_int (real_size t f) && in_int (width -ℤ real_size t f)

-- `writePaddings(P - size)` in `size_t`, passed as an `int`
unfoldable pub precision_zeros : Field → ℤ
unfolding size_of_int int_of
precision_zeros f = int_of ((size_of_int f.prec + umax_mod - length f.text % umax_mod) % umax_mod)

-- where the text is cut to let the zeros of `fpprec` in before the exponent
unfoldable pub cut_at : ℕ → Field → Option ℕ
unfolding exponent_start
cut_at t f =
    if is_e t && ltb 0 f.fpprec
    then exponent_start b'e' f.text
    else if is_a t && ltb 0 f.fpprec
    then exponent_start b'p' f.text
    else if is_g t && ltb 0 f.fpprec && f.gtoe
    then exponent_start b'e' f.text
    else some (length f.text)

abbrev pub when : Bool → (Outbuf → Option Outbuf) → Outbuf → Option Outbuf
when true m o = m o
when false m o = some o

-- the string or number proper, the trailing zeros, the exponent
unfoldable pub emit_text : ℕ → Field → Outbuf → Option Outbuf
unfolding cut_at
emit_text t f o = cut_at t f >>= λ cut. write o f.text cut >>= λ o'.
    when (is_real t) (λ o. write_paddings o zeros (pos f.fpprec)) o' >>= λ o''.
    when (is_real t && not (is_f t) && ltb 0 f.fpprec)
      (λ o. write o (drop cut f.text) (length f.text - cut)) o''

-- `none` where the padding overflows an `int`, which is undefined
unfoldable pub emit : ℕ → ℤ → Field → Outbuf → Option Outbuf
unfolding pads_in_int real_size emit_text
emit t width f o =
    let pad = width -ℤ real_size t f in
    let zeropad = f.flags.zeropad in
    let ladjust = f.flags.ladjust in
    let written = when (not zeropad && not ladjust) (λ o. write_paddings o blanks pad) o >>= λ o1.
    when (has_sign t && not (f.sign == 0)) (λ o. write_char o f.sign) o1 >>= λ o2.
    when (zeropad && not ladjust) (λ o. write_paddings o zeros pad) o2 >>= λ o3.
    when (is_integer t) (λ o. write_paddings o zeros (precision_zeros f)) o3 >>= λ o4.
    emit_text t f o4 >>= λ o5. when ladjust (λ o. write_paddings o blanks pad) o5 in
    if pads_in_int t width f then written else none
