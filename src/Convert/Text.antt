-- ===== src/Convert/Text.antt =====
-- What a conversion hands to the writer, and the conversions `c`, `s` and `n`.
use constexpr_fmt_str.Prelude.{
  ℕ, ◌%◌, ◌^◌, Bool, true, false, Option, none, some, List, [], ◌∷◌, ltb, if◌then◌else◌, ◌>>=◌,
  length, take, codes, min,
}
use constexpr_fmt_str.Prelude.Int.{ℤ, pos, negsuc}
use constexpr_fmt_str.Spec.{Flags, longint}
use constexpr_fmt_str.Convert.Args.{
  Library, Arg, integral, floating, c_string, wide_string, pointer, null, bits_of,
  stack_memory_size,
}

-- the variables of `converter_single` when all formats have come together: `cp` with `size`, ...
pub record Field : Type 0 where
  pub text : List ℕ
  pub sign : ℕ
  pub prec : ℤ
  pub flags : Flags
  pub fpprec : ℕ
  pub gtoe : Bool

-- `(ER)` and an early return, a number stored by `%n` (address, bytes, value), or a field
pub data Conversion : Type 0 where
  failed : Conversion
  store : ℕ → ℕ → ℕ → Conversion
  field : Field → Conversion

abbrev pub is_longint : Flags → Bool
is_longint f = elim f.int_size [ longint ↦ true | _ ↦ false ]

abbrev pub text_field : Flags → ℕ → ℤ → List ℕ → Conversion
text_field flags sign prec text =
    field
      (record { text = text; sign = sign; prec = prec; flags = flags; fpprec = 0; gtoe = false })

module _ (lib : Library) where
  -- `static_cast<int>(arg)`, where it is allowed
  abbrev pub code_of : Arg lib.Real → Option ℕ
  code_of (integral v) = some v
  code_of (floating x) = some (lib.to_int x)
  code_of _ = none

  -- `if constexpr (SI.terminal_ == 'c')`
  unfoldable pub convert_char : Flags → ℕ → ℤ → Arg lib.Real → Conversion
  convert_char flags sign prec arg = elim (code_of arg) [
    | none ↦ failed
    | some v ↦
        if is_longint flags
        then elim (lib.c32rtomb (v % 2 ^ 32)) [
          | none ↦ failed
          | some bytes ↦ text_field flags sign prec bytes
        ]
        else text_field flags sign prec (v % 2 ^ 8 ∷ [])
  ]

  -- the size that `memchr` or `strlen` finds
  abbrev pub cut_text : ℤ → List ℕ → List ℕ
  cut_text (pos p) s = take p s
  cut_text (negsuc n) s = s

  abbrev of_bytes : Flags → ℕ → ℤ → Option (List ℕ) → Conversion
  of_bytes flags sign prec none = failed
  of_bytes flags sign prec (some bytes) = text_field flags sign prec (cut_text prec bytes)

  -- the most bytes that `wcsrtombs` may write
  abbrev pub wide_room : ℤ → ℕ
  wide_room (negsuc n) = stack_memory_size
  wide_room (pos p) = min p stack_memory_size

  -- The bytes of a wide string, or nothing where it has a character that does not convert.
  -- `buf[size] = '\0'` behind the array is the outer `none`.
  unfoldable pub wide_text : ℤ → List ℕ → Option (Option (List ℕ))
  wide_text prec s = elim (lib.wcsrtombs s (wide_room prec)) [
    | none ↦ some none
    | some bytes ↦ if ltb (length bytes) stack_memory_size then some (some bytes) else none
  ]

  -- `if constexpr (SI.terminal_ == 's')`
  unfoldable pub convert_string : Flags → ℕ → ℤ → Arg lib.Real → Option Conversion
  unfolding wide_text
  convert_string flags sign prec null =
      some (text_field flags sign prec (cut_text prec (codes "(null)")))
  convert_string flags sign prec (c_string address s) =
      some (if is_longint flags then failed else text_field flags sign prec (cut_text prec s))
  convert_string flags sign prec (wide_string address s) =
      let wide = wide_text prec s >>= (λ bytes. some (of_bytes flags sign prec bytes)) in
      if is_longint flags then wide else some failed
  convert_string flags sign prec _ = some failed

  -- the address of an argument that converts to `const void*`
  abbrev pub address_of : Arg lib.Real → Option ℕ
  address_of (c_string address s) = some address
  address_of (wide_string address s) = some address
  address_of (pointer address) = some address
  address_of null = some 0
  address_of _ = none

  -- `if constexpr (SI.terminal_ == 'n')`: stores the number written, cut to the type
  unfoldable pub convert_count : Flags → ℕ → Arg lib.Real → Conversion
  convert_count flags written arg = elim (address_of arg) [
    | none ↦ failed
    | some address ↦ let bits = bits_of flags.int_size in store address bits (written % 2 ^ bits)
  ]
