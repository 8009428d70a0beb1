-- ===== src/Convert/Unsigned.antt =====
-- The unsigned conversions with the prefix of the `#` flag.
use constexpr_fmt_str.Prelude.{
  ℕ, zero, suc, ◌+◌, ◌-◌, ◌*◌, ◌%◌, ◌^◌, ◌≤◌, ◌<◌, ◌≡◌, refl, Bool, true, false, not, ◌&&◌, ◌||◌,
  some, List, [], ◌∷◌, ◌++◌, ◌==◌, if◌then◌else◌, length, drop, get_or, arith, length-replicate,
}
use constexpr_fmt_str.Spec.{
  IntSize, plain, charint, shortint, longint, llongint, sizet, ptrdifft, intmaxt, Flags,
}
use constexpr_fmt_str.Digits.{Written, format_oct, format_hex, pair_fuel}
use constexpr_fmt_str.Digits.Prefix.{pair_loop-low}
use constexpr_fmt_str.Digits.Value.{Spells, value, AllDigits, NoLeadingZero}
use constexpr_fmt_str.Digits.Formats.{
  dec_value, is_numeral, hex_value, is_hex, hex_first, format_dec-Spells, format_oct-Spells,
  format_hex-Spells,
}
use constexpr_fmt_str.Digits.Tables.{oct_pairs, upper_hex_pairs, lower_hex_pairs}
use constexpr_fmt_str.Convert.Args.{bits_of, uarg}
use constexpr_fmt_str.Convert.Integer.{scratch, integer_text, with_alt}

-- a numeral is at least as large as what its first digits spell
value-grows : (k : ℕ) (digit : ℕ → ℕ) (n : ℕ) (text : List ℕ) → n ≤ value (suc k) digit n text
value-grows k digit n [] = omega arith
value-grows k digit n (c ∷ text) = ground (arith, value-grows k digit (n * suc k + digit c) text)

get_or-drop : (text : List ℕ) (i : ℕ) → get_or text i 0 ≡ get_or (drop i text) 0 0
get_or-drop [] zero = refl
get_or-drop [] (suc i) = refl
get_or-drop (c ∷ text) zero = refl
get_or-drop (c ∷ text) (suc i) = get_or-drop text i

-- the first character of a numeral is '0' exactly if it spells 0
zero-first :
    (k : ℕ) (digit : ℕ → ℕ) (numeral : ℕ → Bool) (text : List ℕ)
    → digit b'0' ≡ 0
    → ((c : ℕ) → numeral c ≡ true → digit c ≡ 0 → c ≡ b'0')
    → AllDigits numeral text
    → NoLeadingZero text
    → (get_or text 0 0 == b'0') ≡ (value (suc k) digit 0 text == 0)
zero-first k digit numeral [] z only ds front = absurd front
zero-first k digit numeral (c ∷ []) z only ds front = ground (arith, z, only c ds.0)
zero-first k digit numeral (c ∷ d ∷ text) z only ds front =
    ground (arith, only c ds.0, front, value-grows k digit (digit c) (d ∷ text))

with_alt-Spells :
    (k : ℕ) (digit : ℕ → ℕ) (numeral : ℕ → Bool) (alt : Bool) (prefix : List ℕ) (n d : ℕ)
    (w : Written)
    → digit b'0' ≡ 0
    → ((c : ℕ) → numeral c ≡ true → digit c ≡ 0 → c ≡ b'0')
    → length prefix ≤ w.1
    → Spells (suc k) digit numeral n d w
    → with_alt alt prefix w ≡ some ((if alt && not (d == 0) then prefix else []) ++ drop w.1 w.0)
with_alt-Spells k digit numeral alt prefix n d (buf, it) z only room h =
    let first : (get_or buf it 0 == b'0') ≡ (d == 0) =
      rw (get_or-drop buf it, ← h.spelled)
        (zero-first k digit numeral (drop it buf) z only h.digits h.no_zero) in
    ground (arith, first, room)

uarg-small : (size : IntSize) (v : ℕ) → uarg size v < 2 ^ 64
unfolding uarg
uarg-small plain v = ground arith
uarg-small charint v = ground arith
uarg-small shortint v = ground arith
uarg-small longint v = ground arith
uarg-small llongint v = ground arith
uarg-small sizet v = ground arith
uarg-small ptrdifft v = ground arith
uarg-small intmaxt v = ground arith

scratch-length : length scratch ≡ 32
scratch-length = length-replicate {A = ℕ} 32 0

-- `%u` gives the decimal numeral of the argument, taken modulo two to the width of its length modifier.
pub integer_text-unsigned :
    (flags : Flags) (sign v : ℕ)
    → (text : List ℕ) × (integer_text flags b'u' sign v ≡ some (text, sign))
      × (value 10 dec_value 0 text ≡ v % 2 ^ bits_of flags.int_size)
      × AllDigits (is_numeral b'9') text
      × NoLeadingZero text
unfolding integer_text uarg
integer_text-unsigned flags sign v =
    let (w, run, h) =
      format_dec-Spells scratch (uarg flags.int_size v) (omega (arith, scratch-length))
        (uarg-small flags.int_size v) in
    (drop w.1 w.0, rw run refl, h.spelled, h.digits, h.no_zero)

-- `%o` gives the octal numeral of the same number, with a '0' in front of it if the `#` flag is set and it is not 0.
pub integer_text-octal :
    (flags : Flags) (sign v : ℕ)
    → (let u = v % 2 ^ bits_of flags.int_size in
        (numeral : List ℕ) × (integer_text flags b'o' sign v
          ≡ some ((if flags.alt && not (u == 0) then b'0' ∷ [] else []) ++ numeral, sign))
        × (value 8 dec_value 0 numeral ≡ u)
        × AllDigits (is_numeral b'7') numeral
        × NoLeadingZero numeral)
unfolding integer_text uarg format_oct
integer_text-octal flags sign v =
    let u = uarg flags.int_size v in
    let (w, run, h) =
      format_oct-Spells scratch u (omega (arith, scratch-length)) (uarg-small flags.int_size v) in
    let low = pair_loop-low 64 8 oct_pairs pair_fuel scratch (length scratch - 2) u w run in
    let alt =
      with_alt-Spells 7 dec_value (is_numeral b'7') flags.alt (b'0' ∷ []) 32 u w refl
        (λ c a b. ground (arith, a, b)) (omega (arith, low, scratch-length)) h in
    (drop w.1 w.0, rw (run, alt) refl, h.spelled, h.digits, h.no_zero)

hex-only_zero :
    (term c : ℕ) → is_hex (hex_first term) c ≡ true → hex_value (hex_first term) c ≡ 0 → c ≡ b'0'
hex-only_zero term c a b = ground (arith, a, b)

-- `%x` and `%X` give the hexadecimal numeral of the same number, in capitals for `%X`, with "0x" or "0X" in front
-- of it if the `#` flag is set and it is not 0.
pub integer_text-hex :
    (flags : Flags) (term sign v : ℕ)
    → (term == b'x' || term == b'X') ≡ true
    → (let u = v % 2 ^ bits_of flags.int_size in
        (numeral : List ℕ) × (integer_text flags term sign v
          ≡ some ((if flags.alt && not (u == 0) then b'0' ∷ term ∷ [] else []) ++ numeral, sign))
        × (value 16 (hex_value (hex_first term)) 0 numeral ≡ u)
        × AllDigits (is_hex (hex_first term)) numeral
        × NoLeadingZero numeral)
unfolding integer_text uarg format_hex
integer_text-hex flags term sign v x =
    let u = uarg flags.int_size v in
    let (w, run, h) =
      format_hex-Spells term scratch u (omega (arith, scratch-length))
        (uarg-small flags.int_size v) in
    let low =
      pair_loop-low 256 16 (if term == b'X' then upper_hex_pairs else lower_hex_pairs) pair_fuel
        scratch (length scratch - 2) u w run in
    let alt =
      with_alt-Spells 15 (hex_value (hex_first term)) (is_hex (hex_first term)) flags.alt
        (b'0' ∷ term ∷ []) 32 u w (ground arith) (hex-only_zero term)
        (omega (arith, low, scratch-length)) h in
    let signed : (term == b'd' || term == b'i') ≡ false = ground (arith, x) in
    let decimal : (term == b'u') ≡ false = ground (arith, x) in
    let octal : (term == b'o') ≡ false = ground (arith, x) in
    (drop w.1 w.0, rw (signed, decimal, octal, run, alt) refl, h.spelled, h.digits, h.no_zero)
