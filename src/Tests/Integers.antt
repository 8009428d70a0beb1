-- ===== src/Tests/Integers.antt =====
-- The theorems on integer conversions, at concrete arguments.
use constexpr_fmt_str.Prelude.{ℕ, ◌≡◌, refl, true, some, List, ◌∷◌, ◌++◌, codes}
use constexpr_fmt_str.Spec.{Flags, no_flags, charint}
use constexpr_fmt_str.Digits.Value.{value, AllDigits, NoLeadingZero}
use constexpr_fmt_str.Digits.Formats.{dec_value, is_numeral, hex_value, is_hex}
use constexpr_fmt_str.Convert.Integer.{integer_text}
use constexpr_fmt_str.Convert.Numbers.{integer_text-signed}
use constexpr_fmt_str.Convert.Unsigned.{integer_text-unsigned, integer_text-octal, integer_text-hex}

-- `#hh`
abbrev alt_char : Flags
alt_char = record no_flags { alt = true; int_size = charint }

integer_text-signed_example :
    (text : List ℕ) × (integer_text alt_char b'd' 0 200 ≡ some (text, b'-'))
    × (value 10 dec_value 0 text ≡ 56)
    × AllDigits (is_numeral b'9') text
    × NoLeadingZero text
integer_text-signed_example = integer_text-signed alt_char b'd' 0 200 refl

integer_text-unsigned_example :
    (text : List ℕ) × (integer_text alt_char b'u' 0 456 ≡ some (text, 0))
    × (value 10 dec_value 0 text ≡ 200)
    × AllDigits (is_numeral b'9') text
    × NoLeadingZero text
integer_text-unsigned_example = integer_text-unsigned alt_char 0 456

integer_text-octal_example :
    (numeral : List ℕ) × (integer_text alt_char b'o' 0 8 ≡ some (b'0' ∷ numeral, 0))
    × (value 8 dec_value 0 numeral ≡ 8)
    × AllDigits (is_numeral b'7') numeral
    × NoLeadingZero numeral
integer_text-octal_example = integer_text-octal alt_char 0 8

integer_text-hex_example :
    (numeral : List ℕ) × (integer_text alt_char b'X' 0 255 ≡ some (codes "0X" ++ numeral, 0))
    × (value 16 (hex_value b'A') 0 numeral ≡ 255)
    × AllDigits (is_hex b'A') numeral
    × NoLeadingZero numeral
integer_text-hex_example = integer_text-hex alt_char b'X' 0 255 refl
