-- ===== src/Convert/Args.antt =====
-- The arguments of the formatting functions, by what their C++ types convert to, and the functions of
-- the standard library that the code calls.
use constexpr_fmt_str.Prelude.{ℕ, ◌+◌, ◌-◌, ◌%◌, ◌^◌, Bool, Option, List, ltb, if◌then◌else◌, ◌==◌}
use constexpr_fmt_str.Prelude.Int.{ℤ, pos, negsuc}
use constexpr_fmt_str.Spec.{
  IntSize, plain, longint, llongint, shortint, sizet, ptrdifft, intmaxt, charint,
}

pub data FpClass : Type 0 where
  zero_class subnormal normal infinite nan unknown : FpClass

pub data CharsFormat : Type 0 where
  fixed scientific hex general : CharsFormat

-- <cmath>, <charconv>, <cuchar> and <cwchar>. `to_chars long format capacity x precision` is the text
-- that std::to_chars writes, or nothing where it reports an error; `none` of the last two is (size_t)-1.
pub record Library : Type 1 where
  pub Real : Type 0
  pub fpclassify : Real → FpClass
  pub is_negative : Real → Bool
  pub abs : Real → Real
  pub floor_log10 : Real → ℤ
  pub to_int : Real → ℕ
  pub to_chars : Bool → CharsFormat → ℕ → Real → ℤ → Option (List ℕ)
  pub c32rtomb : ℕ → Option (List ℕ)
  pub wcsrtombs : List ℕ → ℕ → Option (List ℕ)

-- An integer is its 64-bit pattern, sign-extended. A string is its address and the characters before
-- its terminator. `null` is `nullptr`; `opaque` converts to nothing.
pub data Arg (Real : Type 0) : Type 0 where
  integral : ℕ → Arg Real
  floating : Real → Arg Real
  c_string : ℕ → List ℕ → Arg Real
  wide_string : ℕ → List ℕ → Arg Real
  pointer : ℕ → Arg Real
  null opaque : Arg Real

abbrev pub umax_mod : ℕ
umax_mod = 2 ^ 64

-- the width in bits of the type that a length modifier names (LP64)
abbrev pub bits_of : IntSize → ℕ
bits_of plain = 32
bits_of shortint = 16
bits_of charint = 8
bits_of longint = 64
bits_of llongint = 64
bits_of sizet = 64
bits_of ptrdifft = 64
bits_of intmaxt = 64

-- `static_cast<intmax_t>(x)` of the low `bits` bits of `v`, read as signed
unfoldable pub sign_extend : ℕ → ℕ → ℕ
sign_extend bits v =
    let low = v % 2 ^ bits in if ltb low (2 ^ (bits - 1)) then low else low + umax_mod - 2 ^ bits

unfoldable pub sarg : IntSize → ℕ → ℕ
unfolding sign_extend
sarg size v = sign_extend (bits_of size) v

unfoldable pub uarg : IntSize → ℕ → ℕ
uarg size v = v % 2 ^ bits_of size

-- a pattern as an `int`
unfoldable pub int_of : ℕ → ℤ
int_of v = let low = v % 2 ^ 32 in if ltb low (2 ^ 31) then pos low else negsuc (2 ^ 32 - low - 1)

-- an `int` as a `size_t`
unfoldable pub size_of_int : ℤ → ℕ
size_of_int (pos n) = n % umax_mod
size_of_int (negsuc n) = (umax_mod - (n + 1) % umax_mod) % umax_mod

-- `formattedWidth` and `formattedPrec`
unfoldable pub formatted_width : {Real : Type 0} → Arg Real → ℤ
unfolding int_of
formatted_width (integral v) = int_of v
formatted_width _ = pos 0

unfoldable pub formatted_prec : {Real : Type 0} → Arg Real → ℤ
unfolding int_of
formatted_prec (integral v) = int_of v
formatted_prec _ = negsuc 0

-- `maxFractSize` (GNU values)
unfoldable pub max_fract_size : Bool → ℕ → ℕ
max_fract_size longdbl term =
    if (term == b'F')
    then 60
    else if term == b'f'
    then 60
    else if term == b'e'
    then (if longdbl then 4933 else 309)
    else if term == b'E'
    then (if longdbl then 4933 else 309)
    else 20

abbrev pub stack_memory_size : ℕ
stack_memory_size = 1000

abbrev pub buf_size_int : ℕ
buf_size_int = 32

-- `fitBufferSize` for `f F e E g G a A`
unfoldable pub float_buffer_size : Bool → ℕ → ℕ
float_buffer_size longdbl term =
    let real = if longdbl then 4933 + 60 + 4 else 309 + 60 + 4 in
    let exponent = if longdbl then 4933 + 16 else 309 + 16 in
    if term == b'F'
    then real
    else if term == b'f'
    then real
    else if term == b'e'
    then exponent
    else if term == b'E'
    then exponent
    else if term == b'a'
    then 20 + 16
    else if term == b'A'
    then 20 + 16
    else if ltb exponent real
    then real
    else exponent
