-- ===== src/Digits.antt =====
-- `formatDec`, `formatOct` and `formatHex` of constexpr_fmt.h: two digits a round, from the end of the
-- buffer towards its start. A pointer is an index into the buffer, and an access outside is `none`.
pub mod Tables
pub mod Value
pub mod Formats
pub mod Prefix
use constexpr_fmt_str.Prelude.{
  ℕ, zero, suc, ◌+◌, ◌-◌, ◌*◌, ◌/◌, ◌%◌, ◌^◌, Bool, Option, none, some, List, [], ◌∷◌, ltb, leb,
  ◌==◌, if◌then◌else◌, ◌>>=◌, length, get_or,
}
use constexpr_fmt_str.Outbuf.{overwrite}
use constexpr_fmt_str.Digits.Tables.{dec_pairs, oct_pairs, upper_hex_pairs, lower_hex_pairs}

-- `*reinterpret_cast<u_short*>(it) = v`, little-endian
unfoldable pub store_pair : List ℕ → ℕ → ℕ → Option (List ℕ)
store_pair buf it v =
    if leb (it + 2) (length buf) then some (overwrite buf it (v % 2 ^ 8 ∷ v / 2 ^ 8 ∷ [])) else none

-- the buffer and the pointer to the first digit
abbrev pub Written : Type 0
Written = List ℕ × ℕ

-- `digit_pairs[i]`; a read behind the table gives no pair
unfoldable pub read_pair : List ℕ → ℕ → Option ℕ
read_pair table i = if ltb i (length table) then some (get_or table i 0) else none

-- The loop that the three functions share: `base` is 100, 64 or 256 (`div = d / base`, and the low
-- part is `d - div * 100`, `d & 077` or `d & 0xff`), `half` 10, 8 or 16. It takes fuel.
unfoldable pub pair_loop : ℕ → ℕ → List ℕ → ℕ → List ℕ → ℕ → ℕ → Option Written
pair_loop base half table zero buf it d = none
pair_loop base half table (suc fuel) buf it d =
    let div = d / base in
    let last = read_pair table d >>= λ v.
    store_pair buf it v >>= λ buf'. some (buf', if ltb d half then it + 1 else it) in
    let next = read_pair table (d % base) >>= λ v. store_pair buf it v >>= λ buf'.
    if ltb it 2 then none else pair_loop base half table fuel buf' (it - 2) div in
    if div == 0 then last else next

-- A `uintmax_t` has at most 11 pairs in these bases.
abbrev pub pair_fuel : ℕ
pair_fuel = 11

unfoldable pub format_dec : List ℕ → ℕ → Option Written
unfolding pair_loop
format_dec buf d = pair_loop 100 10 dec_pairs pair_fuel buf (length buf - 2) d

unfoldable pub format_oct : List ℕ → ℕ → Option Written
unfolding pair_loop
format_oct buf d = pair_loop 64 8 oct_pairs pair_fuel buf (length buf - 2) d

-- `formatHex<T>`: the capitals for `T == 'X'`
unfoldable pub format_hex : ℕ → List ℕ → ℕ → Option Written
unfolding pair_loop
format_hex t buf d =
    pair_loop 256 16 (if t == b'X' then upper_hex_pairs else lower_hex_pairs) pair_fuel buf
      (length buf - 2) d
