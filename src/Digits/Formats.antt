-- ===== src/Digits/Formats.antt =====
-- `formatDec`, `formatOct` and `formatHex` print every `uintmax_t` in a buffer of 22 bytes or more.
use constexpr_fmt_str.Prelude.{
  ℕ, ◌+◌, ◌-◌, ◌^◌, ◌≤◌, ◌<◌, Bool, true, ◌&&◌, ◌||◌, some, List, [], leb, ◌==◌, if◌then◌else◌,
  length, drop, ◌≡◌, refl, arith, inr, inl, drop-all, Bool-cases,
}
use constexpr_fmt_str.Digits.{format_dec, format_oct, format_hex, pair_fuel, Written}
use constexpr_fmt_str.Digits.Tables.{dec_pairs, oct_pairs, upper_hex_pairs, lower_hex_pairs}
use constexpr_fmt_str.Digits.Value.{
  Spells, Inv, IsPair, check_pairs, check_pairs-IsPair, pair_loop-Spells,
}

abbrev pub dec_value : ℕ → ℕ
dec_value c = c - b'0'

abbrev pub is_numeral : ℕ → ℕ → Bool
is_numeral last c = leb b'0' c && leb c last

-- '0' to '9', then 'A' or 'a' and on
abbrev pub hex_value : ℕ → ℕ → ℕ
hex_value first c = if leb c b'9' then c - b'0' else c + 10 - first

abbrev pub is_hex : ℕ → ℕ → Bool
is_hex first c = leb b'0' c && leb c b'9' || leb first c && leb c (first + 5)

start :
    (half base : ℕ) (digit : ℕ → ℕ) (numeral : ℕ → Bool) (table buf : List ℕ) (d : ℕ)
    → 22 ≤ length buf
    → Inv half base digit numeral table (length buf) d buf (length buf - 2) d
start half base digit numeral table buf d h =
    let at : drop (length buf - 2 + 2) buf ≡ [] = drop-all (length buf - 2 + 2) buf (omega arith) in
    record {
      size = refl;
      inside = omega arith;
      spelled = rw at;
      digits = rw at tt;
      started = inr at;
    }

dec_table : (i : ℕ) → i < 100 → IsPair 10 100 dec_value (is_numeral b'9') dec_pairs i
dec_table i = check_pairs-IsPair 10 100 dec_value (is_numeral b'9') dec_pairs 100 i checked
  where
    checked : check_pairs 10 100 dec_value (is_numeral b'9') dec_pairs 100 ≡ true
    checked = unfold check_pairs in refl

-- `formatDec` never leaves a buffer of 22 bytes or more, and returns a pointer to the decimal numeral of a
-- `d` below 2 ^ 64, up to the buffer's end, with no leading zero but for "0".
pub format_dec-Spells :
    (buf : List ℕ) (d : ℕ)
    → 22 ≤ length buf
    → d < 2 ^ 64
    → (w : Written) × (format_dec buf d ≡ some w)
      × Spells 10 dec_value (is_numeral b'9') (length buf) d w
unfolding format_dec
format_dec-Spells buf d h l =
    pair_loop-Spells (omega arith) refl refl dec_table refl pair_fuel (length buf) d buf
      (length buf - 2) d (omega arith) (omega arith) (omega arith)
      (start 10 100 dec_value (is_numeral b'9') dec_pairs buf d h)

oct_table : (i : ℕ) → i < 64 → IsPair 8 64 dec_value (is_numeral b'7') oct_pairs i
oct_table i = check_pairs-IsPair 8 64 dec_value (is_numeral b'7') oct_pairs 64 i checked
  where
    checked : check_pairs 8 64 dec_value (is_numeral b'7') oct_pairs 64 ≡ true
    checked = unfold check_pairs in refl

-- `formatOct` never leaves a buffer of 22 bytes or more, and returns a pointer to the octal numeral of a `d`
-- below 2 ^ 64, up to the buffer's end, with no leading zero but for "0".
pub format_oct-Spells :
    (buf : List ℕ) (d : ℕ)
    → 22 ≤ length buf
    → d < 2 ^ 64
    → (w : Written) × (format_oct buf d ≡ some w)
      × Spells 8 dec_value (is_numeral b'7') (length buf) d w
unfolding format_oct
format_oct-Spells buf d h l =
    pair_loop-Spells (omega arith) refl refl oct_table refl pair_fuel (length buf) d buf
      (length buf - 2) d (omega arith) (omega arith) (omega arith)
      (start 8 64 dec_value (is_numeral b'7') oct_pairs buf d h)

-- the tens digit of the alphabet of `formatHex<T>`
abbrev pub hex_first : ℕ → ℕ
hex_first t = if t == b'X' then b'A' else b'a'

upper_table : (i : ℕ) → i < 256 → IsPair 16 256 (hex_value b'A') (is_hex b'A') upper_hex_pairs i
upper_table i =
    check_pairs-IsPair 16 256 (hex_value b'A') (is_hex b'A') upper_hex_pairs 256 i checked
  where
    checked : check_pairs 16 256 (hex_value b'A') (is_hex b'A') upper_hex_pairs 256 ≡ true
    checked = unfold check_pairs in refl

lower_table : (i : ℕ) → i < 256 → IsPair 16 256 (hex_value b'a') (is_hex b'a') lower_hex_pairs i
lower_table i =
    check_pairs-IsPair 16 256 (hex_value b'a') (is_hex b'a') lower_hex_pairs 256 i checked
  where
    checked : check_pairs 16 256 (hex_value b'a') (is_hex b'a') lower_hex_pairs 256 ≡ true
    checked = unfold check_pairs in refl

-- `formatHex<T>` never leaves a buffer of 22 bytes or more, and returns a pointer to the hexadecimal numeral of a
-- `d` below 2 ^ 64, in capitals if `T` is 'X', up to the buffer's end, with no leading zero but for "0".
pub format_hex-Spells :
    (t : ℕ) (buf : List ℕ) (d : ℕ)
    → 22 ≤ length buf
    → d < 2 ^ 64
    → (w : Written) × (format_hex t buf d ≡ some w)
      × Spells 16 (hex_value (hex_first t)) (is_hex (hex_first t)) (length buf) d w
unfolding format_hex
format_hex-Spells t buf d h l = elim (Bool-cases (t == b'X')) [
  | inl upper ↦ rw upper (
      pair_loop-Spells (omega arith) refl refl upper_table refl pair_fuel (length buf) d buf
        (length buf - 2) d (omega arith) (omega arith) (omega arith)
        (start 16 256 (hex_value b'A') (is_hex b'A') upper_hex_pairs buf d h))
  | inr lower ↦ rw lower (
      pair_loop-Spells (omega arith) refl refl lower_table refl pair_fuel (length buf) d buf
        (length buf - 2) d (omega arith) (omega arith) (omega arith)
        (start 16 256 (hex_value b'a') (is_hex b'a') lower_hex_pairs buf d h))
]
