-- ===== src/Convert/Numbers.antt =====
-- What the integer conversions write: the numeral of the argument as its length modifier reads it.
use constexpr_fmt_str.Prelude.{
  ℕ, ◌+◌, ◌-◌, ◌%◌, ◌^◌, ◌<◌, ◌≡◌, refl, true, ◌||◌, some, List, ltb, leb, ◌==◌, if◌then◌else◌,
  drop, arith, Bool-cases, inl, inr, length-replicate,
}
use constexpr_fmt_str.Prelude.Int.{ℤ, pos, negsuc, pos_part, neg_part, is_neg}
use mathlib.Core.Path.{ap₂}
use constexpr_fmt_str.Spec.{
  IntSize, plain, charint, shortint, longint, llongint, sizet, ptrdifft, intmaxt, Flags,
}
use constexpr_fmt_str.Digits.Value.{value, AllDigits, NoLeadingZero}
use constexpr_fmt_str.Digits.Formats.{dec_value, is_numeral, format_dec-Spells}
use constexpr_fmt_str.Convert.Args.{bits_of, sarg, sign_extend, umax_mod}
use constexpr_fmt_str.Convert.Integer.{scratch, signed_value, integer_text}

-- the low `bits` bits of a pattern as a signed number
abbrev pub signed_of : ℕ → ℕ → ℤ
signed_of bits v =
    let low = v % 2 ^ bits in
    if ltb low (2 ^ (bits - 1)) then pos low else negsuc (2 ^ bits - low - 1)

abbrev pub magnitude : ℤ → ℕ
magnitude x = pos_part x + neg_part x

abbrev pub sign_of : ℤ → ℕ → ℕ
sign_of x sign = if is_neg x then b'-' else sign

-- the sign test of the code, and the number it goes on with
sarg-sign :
    (size : IntSize) (v : ℕ) → leb (2 ^ 63) (sarg size v) ≡ is_neg (signed_of (bits_of size) v)
unfolding sarg sign_extend
sarg-sign plain v = ground arith
sarg-sign charint v = ground arith
sarg-sign shortint v = ground arith
sarg-sign longint v = ground arith
sarg-sign llongint v = ground arith
sarg-sign sizet v = ground arith
sarg-sign ptrdifft v = ground arith
sarg-sign intmaxt v = ground arith

sarg-magnitude :
    (size : IntSize) (v : ℕ)
    → (if leb (2 ^ 63) (sarg size v) then (umax_mod - sarg size v) % umax_mod else sarg size v)
      ≡ magnitude (signed_of (bits_of size) v)
unfolding sarg sign_extend
sarg-magnitude plain v = ground arith
sarg-magnitude charint v = ground arith
sarg-magnitude shortint v = ground arith
sarg-magnitude longint v = ground arith
sarg-magnitude llongint v = ground arith
sarg-magnitude sizet v = ground arith
sarg-magnitude ptrdifft v = ground arith
sarg-magnitude intmaxt v = ground arith

signed_value_lem :
    (flags : Flags) (sign v : ℕ)
    → signed_value flags sign v ≡ (
      magnitude (signed_of (bits_of flags.int_size) v),
      sign_of (signed_of (bits_of flags.int_size) v) sign,
    )
unfolding signed_value
signed_value_lem flags sign v =
    let x = signed_of (bits_of flags.int_size) v in
    let s = sarg-sign flags.int_size v in
    let m = sarg-magnitude flags.int_size v in
    elim (Bool-cases (leb (2 ^ 63) (sarg flags.int_size v))) [
      | inl negative ↦
          rw negative
            (ap₂ (λ a b. (a, b)) (ground (arith, m, negative)) (ground (arith, s, negative)))
      | inr positive ↦
          rw positive
            (ap₂ (λ a b. (a, b)) (ground (arith, m, positive)) (ground (arith, s, positive)))
    ]

magnitude-small : (size : IntSize) (v : ℕ) → magnitude (signed_of (bits_of size) v) < 2 ^ 64
magnitude-small plain v = ground arith
magnitude-small charint v = ground arith
magnitude-small shortint v = ground arith
magnitude-small longint v = ground arith
magnitude-small llongint v = ground arith
magnitude-small sizet v = ground arith
magnitude-small ptrdifft v = ground arith
magnitude-small intmaxt v = ground arith

-- `%d` and `%i` give the decimal numeral of the magnitude of the argument, which is read at the width of the length
-- modifier, without leading zeros; the sign is '-' for a negative number, and that of the flags otherwise.
pub integer_text-signed :
    (flags : Flags) (term sign v : ℕ)
    → (term == b'd' || term == b'i') ≡ true
    → (text : List ℕ) × (integer_text flags term sign v
        ≡ some (text, sign_of (signed_of (bits_of flags.int_size) v) sign))
      × (value 10 dec_value 0 text ≡ magnitude (signed_of (bits_of flags.int_size) v))
      × AllDigits (is_numeral b'9') text
      × NoLeadingZero text
unfolding integer_text
integer_text-signed flags term sign v d =
    let x = signed_of (bits_of flags.int_size) v in
    let (w, run, spells) =
      format_dec-Spells scratch (magnitude x) (omega (arith, length-replicate {A = ℕ} 32 0))
        (magnitude-small flags.int_size v) in
    (
      drop w.1 w.0,
      rw (signed_value_lem flags sign v, d, run) refl,
      spells.spelled,
      spells.digits,
      spells.no_zero,
    )
