-- ===== src/Spec.antt =====
-- Format specifiers of constexpr_fmt.h: `SpecInfo`, the character classes, and the functions that
-- scan a format string. A format string is the list of its characters without the terminating
-- '\0'; a cursor is a position with the characters from there on, and reading at the end gives 0.
-- The bits of `flags_t` are the fields of a record; the integer-size bits exclude one another.
pub mod Scan
pub mod Pieces
pub mod Count
pub mod Store
pub mod Round
pub mod Switch
pub mod Skip
pub mod Find
pub mod Analyze
use constexpr_fmt_str.Prelude.{
  ℕ, zero, suc, ◌+◌, ◌-◌, ◌*◌, ◌^◌, Bool, true, false, not, ◌&&◌, ◌||◌, Option, none, some, List,
  [], ◌∷◌, ltb, leb, ◌==◌, if◌then◌else◌, ◌>>=◌, length, drop, get_or,
}
use constexpr_fmt_str.Prelude.Int.{ℤ, pos, negsuc, eqb_ℤ}

-- `__FLAG_LONGINT` ... `__FLAG_CHARINT`; `plain` is none of them
pub data IntSize : Type 0 where
  plain longint llongint shortint sizet ptrdifft intmaxt charint : IntSize

pub record Flags : Type 0 where
  pub alt : Bool
  pub zeropad : Bool
  pub ladjust : Bool
  pub longdbl : Bool
  pub int_size : IntSize

pub record SpecInfo : Type 0 where
  pub begin : ℕ
  pub end : ℕ
  pub flags : Flags
  pub width : ℤ
  pub prec : ℤ
  pub sign : ℕ
  pub terminal : ℕ
  pub width_first : Bool

-- 0x80000000 as an `int`
abbrev pub dynamic_width : ℤ
dynamic_width = negsuc (2 ^ 31 - 1)

abbrev pub dynamic_precision : ℤ
dynamic_precision = negsuc (2 ^ 31 - 1)

abbrev pub no_flags : Flags
no_flags = record {
  alt = false;
  zeropad = false;
  ladjust = false;
  longdbl = false;
  int_size = plain;
}

unfoldable pub is_terminal : ℕ → Bool
is_terminal c =
    c == b'd'
    || c == b'i'
    || c == b'u'
    || c == b'o'
    || c == b'x'
    || c == b'X'
    || c == b'f'
    || c == b'F'
    || c == b'e'
    || c == b'E'
    || c == b'g'
    || c == b'G'
    || c == b'a'
    || c == b'A'
    || c == b'c'
    || c == b'p'
    || c == b's'
    || c == b'n'

unfoldable pub is_flag : ℕ → Bool
is_flag c = c == b'-' || c == b'+' || c == b' ' || c == b'#' || c == b'0'

unfoldable pub is_length : ℕ → Bool
is_length c = c == b'h' || c == b'l' || c == b'j' || c == b'z' || c == b't' || c == b'L'

unfoldable pub is_digit : ℕ → Bool
is_digit c = leb b'0' c && leb c b'9'

-- `c - '0'`, applied to digits only
unfoldable pub to_digit : ℕ → ℕ
to_digit c = c - b'0'

-- the test of the `while` loops that walk over the inside of a specifier
unfoldable pub is_inside : ℕ → Bool
unfolding is_flag is_digit is_length
is_inside c = is_flag c || is_digit c || is_length c || c == b'.' || c == b'*'

abbrev pub Cursor : Type 0
Cursor = ℕ × List ℕ

-- `fmt[pos]`
abbrev pub peek : Cursor → ℕ
peek (p, []) = 0
peek (p, c ∷ r) = c

-- `pos++`
abbrev pub bump : Cursor → Cursor
bump (p, []) = (p + 1, [])
bump (p, c ∷ r) = (p + 1, r)

-- `for (; (fmt[pos] != '\0') && (fmt[pos] != '%'); pos++);`
unfoldable pub skip_plain : ℕ → List ℕ → Cursor
skip_plain p [] = (p, [])
skip_plain p (c ∷ r) = elim (not (c == 0) && not (c == b'%')) [
  | true ↦ skip_plain (p + 1) r
  | false ↦ (p, c ∷ r)
]

-- `while (isFlag(fmt[pos]) || ... ) pos++;`
unfoldable pub skip_inside : ℕ → List ℕ → Cursor
skip_inside p [] = (p, [])
skip_inside p (c ∷ r) = elim (is_inside c) [ true ↦ skip_inside (p + 1) r | false ↦ (p, c ∷ r) ]

-- `for (; fmt[pos] != '%'; pos++);` reads past the end of a string without '%': `none`
unfoldable pub find_percent : ℕ → List ℕ → Option Cursor
find_percent p [] = none
find_percent p (c ∷ r) = elim (c == b'%') [
  | true ↦ some (p, c ∷ r)
  | false ↦ find_percent (p + 1) r
]

-- `while (isDigit(fmt[pos])) { n = 10 * n + toDigit(fmt[pos]); pos++; }`; a number that overflows an `int` does not
-- compile
unfoldable pub read_number : ℕ → List ℕ → Option (ℕ × List ℕ)
read_number n [] = some (n, [])
read_number n (c ∷ r) = elim (is_digit c) [
  | true ↦ elim (ltb (10 * n + to_digit c) (2 ^ 31)) [
    | true ↦ read_number (10 * n + to_digit c) r
    | false ↦ none
  ]
  | false ↦ some (n, c ∷ r)
]

-- the variables that the `switch` of `getOneSpec` sets
pub record Fields : Type 0 where
  pub alt : Bool
  pub zeropad : Bool
  pub ladjust : Bool
  pub longdbl : Bool
  pub int_size : IntSize
  pub width : ℤ
  pub prec : ℤ
  pub sign : ℕ
  pub terminal : ℕ
  pub width_first : Bool

abbrev pub no_fields : Fields
no_fields = record {
  alt = false;
  zeropad = false;
  ladjust = false;
  longdbl = false;
  int_size = plain;
  width = pos 0;
  prec = negsuc 0;
  sign = 0;
  terminal = 0;
  width_first = true;
}

-- `case 'h'` and `case 'l'`: a second letter is taken along
unfoldable pub double_letter : ℕ → List ℕ → Bool × List ℕ
double_letter letter [] = (false, [])
double_letter letter (c ∷ r) = if c == letter then (true, r) else (false, c ∷ r)

-- `case '.'`: the precision is dynamic, or a number, 0 without digits
unfoldable pub read_precision : Fields → List ℕ → Option (Fields × List ℕ)
read_precision s [] = some (record s { prec = pos 0 }, [])
read_precision s (c ∷ r) =
    if c == b'*'
    then some (
      record s {
        prec = dynamic_precision;
        width_first = if eqb_ℤ s.width dynamic_width then true else s.width_first;
      },
      r,
    )
    else (read_number 0 (c ∷ r) >>= λ (n, r'). some (record s { prec = pos n }, r'))

-- One round of the `switch` for the character `c` with `r` behind it: the new variables, what is
-- left, and `exit`. `none` is the exception of the `default` case, or a number that overflows.
unfoldable pub switch_char : Fields → ℕ → List ℕ → Option (Fields × List ℕ × Bool)
switch_char s c r =
    if c == b' '
    then some (if s.sign == 0 then record s { sign = b' ' } else s, r, false)
    else if c == b'#'
    then some (record s { alt = true }, r, false)
    else if c == b'*'
    then some (
      record s {
        width = dynamic_width;
        width_first = if eqb_ℤ s.prec dynamic_precision then false else s.width_first;
      },
      r,
      false,
    )
    else if c == b'-'
    then some (record s { ladjust = true }, r, false)
    else if c == b'+'
    then some (record s { sign = b'+' }, r, false)
    else if c == b'.'
    then (read_precision s r >>= λ (s', r'). some (s', r', false))
    else if c == b'0'
    then some (record s { zeropad = true }, r, false)
    else if leb b'1' c && leb c b'9'
    then (read_number 0 (c ∷ r) >>= λ (n, r'). some (record s { width = pos n }, r', false))
    else if c == b'L'
    then some (record s { longdbl = true }, r, false)
    else if c == b'h'
    then (let (two, r') = double_letter b'h' r in
        some (record s { int_size = if two then charint else shortint }, r', false))
    else if c == b'l'
    then (let (two, r') = double_letter b'l' r in
        some (record s { int_size = if two then llongint else longint }, r', false))
    else if c == b'j'
    then some (record s { int_size = intmaxt }, r, false)
    else if c == b't'
    then some (record s { int_size = ptrdifft }, r, false)
    else if c == b'z'
    then some (record s { int_size = sizet }, r, false)
    else if is_terminal c
    then some (record s { terminal = c }, r, true)
    else none

-- `while (!exit) { switch (fmt[pos]) { ... } pos++; }` on fuel
unfoldable pub read_fields : ℕ → Fields → List ℕ → Option Fields
read_fields zero s r = none
read_fields (suc fuel) s [] = none
read_fields (suc fuel) s (c ∷ r) = switch_char s c r >>= λ (s', r', exit). elim exit [
  | true ↦ some s'
  | false ↦ read_fields fuel s' r'
]
