-- ===== src/Entry.antt =====
-- Log entries of tz_logger.h: the arguments of a log statement as bytes, and the formatting from them later on.
-- An argument comes with its C++ type; of a class type it could only give "(ER)" and is left out.
pub mod Store
pub mod Load
pub mod Bytes
pub mod Typed
pub mod Reload
pub mod Laid
pub mod Formatted
pub mod Keeps
pub mod Sized
pub mod Dumped
pub mod Statement
pub mod Enough
pub mod Header
pub mod Known
pub mod Placed
pub mod RoundTrip
pub mod Moved
pub mod Copied
use constexpr_fmt_str.Prelude.{
  ℕ, zero, suc, ◌+◌, ◌*◌, ◌-◌, ◌/◌, ◌%◌, ◌^◌, Bool, true, false, ◌&&◌, List, [], ◌∷◌, ◌++◌, ltb,
  leb, ◌==◌, if◌then◌else◌, map,
}
use constexpr_fmt_str.Convert.Args.{
  Library, Arg, integral, floating, c_string, wide_string, pointer, umax_mod,
}

-- `T`: the size of an integer or a floating type, and whether the integer is signed
pub data CType : Type 0 where
  integer : ℕ → Bool → CType
  real : ℕ → CType
  char_pointer wide_pointer void_pointer null_pointer : CType

-- `sizeof(T)`, which is `getArgSize<T>()`
unfoldable pub get_arg_size : CType → ℕ
get_arg_size (integer n is_signed) = n
get_arg_size (real n) = n
get_arg_size _ = 8

-- the bytes of a floating number of a type of the given size, and the number that they stand for
pub record RealCodec (Real : Type 0) : Type 0 where
  pub bytes : ℕ → Real → List ℕ
  pub value : ℕ → List ℕ → Real

-- an argument with its type
abbrev pub Typed : Type 0 → Type 0
Typed Real = CType × Arg Real

-- the types, and the arguments that the formatting functions get
abbrev pub types : {Real : Type 0} → List (Typed Real) → List CType
types = map (λ a. a.0)

abbrev pub values : {Real : Type 0} → List (Typed Real) → List (Arg Real)
values = map (λ a. a.1)

-- the low `n` bytes, the lowest first
abbrev pub bytes_of : ℕ → ℕ → List ℕ
bytes_of zero v = []
bytes_of (suc n) v = v % 256 ∷ bytes_of n (v / 256)

abbrev pub number_of : List ℕ → ℕ
number_of [] = 0
number_of (b ∷ r) = b + 256 * number_of r

-- the 64-bit pattern of an integer of `n` bytes
abbrev pub widen : ℕ → Bool → ℕ → ℕ
widen n is_signed low =
    if is_signed && leb (256 ^ n) (2 * low) then low + umax_mod - 256 ^ n else low

-- the bytes of `wchar_t` characters
abbrev pub wide_bytes : List ℕ → List ℕ
wide_bytes [] = []
wide_bytes (c ∷ s) = bytes_of 4 c ++ wide_bytes s

-- the object representation of an argument
unfoldable pub object_bytes : {Real : Type 0} → RealCodec Real → Typed Real → List ℕ
object_bytes codec (integer n is_signed, integral v) = bytes_of n v
object_bytes codec (real n, floating x) = codec.bytes n x
object_bytes codec (ty, c_string address s) = bytes_of 8 address
object_bytes codec (ty, wide_string address s) = bytes_of 8 address
object_bytes codec (ty, pointer address) = bytes_of 8 address
object_bytes codec (ty, _) = bytes_of 8 0
