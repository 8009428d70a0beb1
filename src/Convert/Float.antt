-- ===== src/Convert/Float.antt =====
-- `formatDuble` and the conversions `f F e E a A g G` of `converter_single`. std::to_chars is a
-- parameter; what the code does to its text is written out.
use constexpr_fmt_str.Prelude.{
  ℕ, zero, suc, ◌-◌, Bool, true, false, not, ◌&&◌, ◌||◌, Option, none, some, List, [], ◌∷◌, ◌++◌,
  ltb, if◌then◌else◌, ◌==◌, ◌>>=◌, length, take, drop, get_or, codes,
}
use constexpr_fmt_str.Prelude.Int.{ℤ, pos, negsuc, ◌-ℤ◌, ltb_ℤ, eqb_ℤ}
use constexpr_fmt_str.Spec.{Flags}
use constexpr_fmt_str.Convert.Args.{
  Library, Arg, floating, zero_class, infinite, nan, unknown, CharsFormat, fixed, scientific, hex,
  general, max_fract_size, float_buffer_size,
}
use constexpr_fmt_str.Convert.Text.{Conversion, failed, field}

-- `while (*(--p) != c);` from the index `p` on downwards; below the text it is `none`
unfoldable pub find_back : ℕ → List ℕ → ℕ → Option ℕ
find_back c text zero = none
find_back c text (suc p) = elim (get_or text p 0 == c) [
  | true ↦ some p
  | false ↦ find_back c text p
]

-- the start of the exponent: the search begins two characters before the end
unfoldable pub exponent_start : ℕ → List ℕ → Option ℕ
unfolding find_back
exponent_start c text = find_back c text (length text - 2)

-- a '.' put in at index `p`, inside `n` bytes
unfoldable pub insert_point : ℕ → List ℕ → ℕ → Option (List ℕ)
insert_point n text p =
    if ltb (length text) n then some (take p text ++ (b'.' ∷ drop p text)) else none

-- `TM == 'f' || TM == 'F'`, and so on
unfoldable pub is_f : ℕ → Bool
is_f t = t == b'f' || t == b'F'

unfoldable pub is_e : ℕ → Bool
is_e t = t == b'e' || t == b'E'

unfoldable pub is_a : ℕ → Bool
is_a t = t == b'a' || t == b'A'

unfoldable pub is_g : ℕ → Bool
is_g t = t == b'g' || t == b'G'

-- `INF` and `NAN` for the capitals
unfoldable pub is_capital : ℕ → Bool
is_capital t = t == b'E' || t == b'G' || t == b'F' || t == b'A'

unfoldable pub chars_format : ℕ → CharsFormat
unfolding is_f is_e is_a
chars_format t =
    if is_f t then fixed else if is_e t then scientific else if is_a t then hex else general

-- the `#` flag: a decimal point where the text has none
unfoldable pub alt_text : ℕ → ℕ → ℤ → List ℕ → Option (List ℕ)
unfolding is_f is_e is_a insert_point exponent_start
alt_text n t prec text =
    if is_f t
    then (if eqb_ℤ prec (pos 0) then insert_point n text (length text) else some text)
    else if is_e t
    then (if eqb_ℤ prec (pos 0)
        then (exponent_start b'e' text >>= λ p. insert_point n text p)
        else some text)
    else if is_a t
    then (if get_or text 1 0 == b'.' then some text else insert_point n text 1)
    else some text

-- a precision above what is asked of `to_chars`: the rest is `fpprec`
unfoldable pub cap_precision : ℕ → ℤ → ℤ × ℕ
cap_precision most (negsuc n) = (negsuc n, 0)
cap_precision most (pos p) = if ltb most p then (pos most, p - most) else (pos p, 0)

module _ (lib : Library) where
  -- `formatDuble`: where `to_chars` reports an error the text is empty (`nullptr`, 0), but with `#` and
  -- precision 0 the code has written at the end of the array, or searched it, before that.
  unfoldable pub format_double : ℕ → Flags → ℕ → lib.Real → ℤ → Option (List ℕ)
  unfolding chars_format alt_text
  format_double n flags t x prec = elim (lib.to_chars flags.longdbl (chars_format t) n x prec) [
    | none ↦ if flags.alt && not (is_g t) then none else some []
    | some text ↦ if flags.alt then alt_text n t prec text else some text
  ]

  abbrev float_field : Flags → ℕ → ℤ × ℕ → Bool → List ℕ → Conversion
  float_field flags sign (prec, fpprec) gtoe text = field (record {
    text = text;
    sign = sign;
    prec = prec;
    flags = flags;
    fpprec = fpprec;
    gtoe = gtoe;
  })

  -- a finite number in the style of `style`, with the precision capped
  unfoldable pub styled : ℕ → Flags → ℕ → ℕ → Bool → lib.Real → ℤ → Option Conversion
  unfolding cap_precision format_double
  styled n flags sign style gtoe x prec =
      let capped = cap_precision (max_fract_size flags.longdbl style) prec in
      format_double n flags style x capped.0 >>= λ text.
      some (float_field flags sign capped gtoe text)

  -- `%#g`: style `f` or `e` by the exponent
  unfoldable pub convert_general : ℕ → Flags → ℕ → ℕ → Bool → lib.Real → ℤ → Option Conversion
  unfolding styled
  convert_general n flags term sign is_zero x prec =
      let p = if eqb_ℤ prec (negsuc 0) then pos 6 else if eqb_ℤ prec (pos 0) then pos 1 else prec in
      let exp = if is_zero then pos 0 else lib.floor_log10 x in
      if ltb_ℤ exp p && not (ltb_ℤ exp (negsuc 3))
      then styled n flags sign (if term == b'g' then b'f' else b'F') false x (p -ℤ exp -ℤ pos 1)
      else styled n flags sign (if term == b'g' then b'e' else b'E') true x (p -ℤ pos 1)

  -- the finite cases of the `switch`
  unfoldable pub convert_finite : Flags → ℕ → ℕ → ℤ → Bool → lib.Real → Option Conversion
  unfolding convert_general is_g
  convert_finite flags term sign prec is_zero x =
      let n = float_buffer_size flags.longdbl term in
      let sign' = if lib.is_negative x then b'-' else sign in
      let x' = if lib.is_negative x then lib.abs x else x in
      if not (is_g term)
      then styled n flags sign' term false x' prec
      else if flags.alt
      then convert_general n flags term sign' is_zero x' prec
      else (format_double n flags term x' prec >>= λ text.
          some (float_field flags sign' (prec, 0) false text))

  abbrev named : Flags → ℕ → ℤ → List ℕ → Option Conversion
  named flags sign prec text =
      some (float_field (record flags { zeropad = false }) sign (prec, 0) false text)

  -- `switch (std::fpclassify(arg))`
  unfoldable pub convert_float : Flags → ℕ → ℕ → ℤ → Arg lib.Real → Option Conversion
  unfolding convert_finite is_capital
  convert_float flags term sign prec (floating x) = elim (lib.fpclassify x) [
    | zero_class ↦ convert_finite flags term sign prec true x
    | infinite ↦
        named flags (if lib.is_negative x then b'-' else sign) prec
          (if is_capital term then codes "INF" else codes "inf")
    | nan ↦ named flags sign prec (if is_capital term then codes "NAN" else codes "nan")
    | unknown ↦ some failed
    | _ ↦ convert_finite flags term sign prec false x
  ]
  convert_float flags term sign prec _ = some failed
