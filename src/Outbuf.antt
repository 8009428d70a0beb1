-- ===== src/Outbuf.antt =====
-- `OutbufArg` of constexpr_fmt.h: the bounded output buffer that all formatting writes to.
-- A pointer into the buffer is its distance from `pBufBegind_`; `size` is `pBufEnd_ - pBufBegind_`
-- and `mem` the bytes of the caller's array. A read or write outside an array is `none`.
-- `size_t` is a number below 2 ^ 64 with its wrap-around written out.
pub mod Memory
pub mod Holds
pub mod Padding
use constexpr_fmt_str.Prelude.{
  ℕ, zero, suc, ◌+◌, ◌-◌, ◌*◌, ◌%◌, ◌^◌, Bool, true, false, ◌&&◌, ◌||◌, Option, none, some, List,
  [], ◌∷◌, ltb, leb, ◌==◌, if◌then◌else◌, ◌>>=◌, length, take, replicate, codes,
}
use constexpr_fmt_str.Prelude.Int.{ℤ, pos, negsuc}

-- the bytes `m` with `bytes` laid over them from index `p` on
unfoldable pub overwrite : List ℕ → ℕ → List ℕ → List ℕ
overwrite [] p bytes = []
overwrite (m ∷ ms) (suc p) bytes = m ∷ overwrite ms p bytes
overwrite (m ∷ ms) zero [] = m ∷ ms
overwrite (m ∷ ms) zero (b ∷ bytes) = b ∷ overwrite ms zero bytes

pub record Outbuf : Type 0 where
  pub mem : List ℕ
  pub size : ℕ
  pub pos : ℕ
  pub written : ℕ

abbrev pub size_mod : ℕ
size_mod = 2 ^ 64

abbrev pub pad_size : ℕ
pad_size = 16

abbrev pub blanks : List ℕ
blanks = codes "                "

abbrev pub zeros : List ℕ
zeros = codes "0000000000000000"

-- `OutbufArg(char* buffer, size_t size)`
unfoldable pub create : List ℕ → ℕ → Outbuf
create buffer size = record { mem = buffer; size = size; pos = 0; written = 0 }

-- `size_t remaining = pBufEnd_ - pBuf_ - 1`
unfoldable pub remaining : Outbuf → ℕ
remaining o = (o.size + 2 * size_mod - o.pos - 1) % size_mod

-- `static_cast<std::make_signed<size_t>::type>(remaining) <= 0`
abbrev pub is_exhausted : ℕ → Bool
is_exhausted r = r == 0 || leb (2 ^ 63) r

unfoldable pub get_written_num : Outbuf → ℕ
get_written_num o = o.written

unfoldable pub set_written_num : Outbuf → ℕ → Outbuf
set_written_num o n = record o { written = (o.written + n) % size_mod }

unfoldable pub get_available_size : Outbuf → ℕ
unfolding remaining
get_available_size o = if is_exhausted (remaining o) then 0 else remaining o

-- `setBufPtr`: moves on if the signed distance left is not negative
unfoldable pub set_buf_ptr : Outbuf → ℕ → Outbuf
set_buf_ptr o n =
    if ltb ((o.size + 3 * size_mod - (o.pos + n) - 1) % size_mod) (2 ^ 63)
    then record o { pos = o.pos + n }
    else o

unfoldable pub reset : Outbuf → Outbuf
reset o = record o { pos = 0; written = 0 }

-- `std::memcpy(pBuf_, p, n); pBuf_ += n;`
unfoldable pub put : Outbuf → List ℕ → ℕ → Option Outbuf
unfolding overwrite
put o p n =
    if leb n (length p) && leb (o.pos + n) (length o.mem)
    then some (record o { mem = overwrite o.mem o.pos (take n p); pos = o.pos + n })
    else none

-- `void write(char ch)`
unfoldable pub write_char : Outbuf → ℕ → Option Outbuf
unfolding set_written_num remaining put
write_char o ch =
    let o' = set_written_num o 1 in
    if is_exhausted (remaining o') then some o' else put o' (ch ∷ []) 1

-- `void write(const char* p, size_t n)`
unfoldable pub write : Outbuf → List ℕ → ℕ → Option Outbuf
unfolding set_written_num remaining put
write o p n =
    let o' = set_written_num o n in
    let r = remaining o' in if is_exhausted r then some o' else put o' p (if ltb r n then r else n)

-- `while (n > PADSIZE) { memcpy 16; n -= 16; }  memcpy n;` on fuel; `none` if it ran out
unfoldable pub pad_loop : ℕ → Outbuf → List ℕ → ℕ → Option Outbuf
pad_loop zero o padding n = none
pad_loop (suc fuel) o padding n = elim (ltb pad_size n) [
  | true ↦ put o padding pad_size >>= λ o'. pad_loop fuel o' padding (n - pad_size)
  | false ↦ put o padding n
]

-- the body of `writePaddings` for a positive count
unfoldable pub write_padding_count : Outbuf → List ℕ → ℕ → Option Outbuf
unfolding set_written_num remaining
write_padding_count o padding n =
    let o' = set_written_num o n in
    let r = remaining o' in
    let k = if ltb r n then r else n in
    let run = pad_loop (suc k) o' padding k in if is_exhausted r then some o' else run

-- `template <padding> void writePaddings(int n)`
unfoldable pub write_paddings : Outbuf → List ℕ → ℤ → Option Outbuf
unfolding write_padding_count
write_paddings o padding (negsuc n) = some o
write_paddings o padding (pos n) =
    let run = write_padding_count o padding n in if n == 0 then some o else run

-- `*pBuf_ = '\0'`
unfoldable pub done : Outbuf → Option Outbuf
unfolding overwrite
done o =
    if ltb o.pos (length o.mem)
    then some (record o { mem = overwrite o.mem o.pos (0 ∷ []) })
    else none
