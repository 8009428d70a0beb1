-- ===== src/Entry/Typed.antt =====
-- What `storeArg` leaves in the memory for an argument of a type.
use constexpr_fmt_str.Prelude.{
  ℕ, ◌+◌, ◌-◌, ◌%◌, ◌^◌, ◌≤◌, ◌<◌, ◌≡◌, refl, Bool, false, not, ◌&&◌, some, List, [], ◌++◌, arith,
  ◌==◌, if◌then◌else◌, length, get_or, take-all, length-append, Bool-cases, inl, inr, ◌⊎◌,
}
use constexpr_fmt_str.Outbuf.{overwrite}
use constexpr_fmt_str.Outbuf.Memory.{length-overwrite, overwrite-overwrite, overwrite-nil}
use constexpr_fmt_str.Spec.{SpecInfo}
use constexpr_fmt_str.Spec.Pieces.{NoNul}
use constexpr_fmt_str.Convert.Args.{integral, floating, c_string, wide_string, pointer, null}
use constexpr_fmt_str.Convert.Text.{is_longint}
use constexpr_fmt_str.Entry.{
  integer, real, char_pointer, wide_pointer, void_pointer, null_pointer, get_arg_size, RealCodec,
  Typed, bytes_of, widen, wide_bytes, object_bytes,
}
use constexpr_fmt_str.Entry.Store.{Dump, put_bytes, put_text, put_object, put_raw, store_arg}
use constexpr_fmt_str.Entry.Bytes.{length-bytes_of, IsSize, AllWide}

-- the arguments that a type has: the codec gives a floating number back, and a text has no '\0' inside
pub data HasType {Real : Type 0} (codec : RealCodec Real) : Typed Real → Type 0 where
  has_integer :
      (n : ℕ) (is_signed : Bool) (v : ℕ)
      → IsSize n
      → v ≡ widen n is_signed (v % 256 ^ n)
      → HasType codec (integer n is_signed, integral v)
  has_real :
      (n : ℕ) (x : Real)
      → length (codec.bytes n x) ≡ n
      → codec.value n (codec.bytes n x) ≡ x
      → HasType codec (real n, floating x)
  has_text :
      (address : ℕ) (text : List ℕ)
      → address < 2 ^ 64
      → NoNul text
      → HasType codec (char_pointer, c_string address text)
  has_wide_text :
      (address : ℕ) (text : List ℕ)
      → address < 2 ^ 64
      → AllWide text
      → HasType codec (wide_pointer, wide_string address text)
  has_pointer : (address : ℕ) → address < 2 ^ 64 → HasType codec (void_pointer, pointer address)
  has_null : HasType codec (null_pointer, null)

-- is the text of the argument stored
abbrev pub holds_text : {Real : Type 0} → SpecInfo → Typed Real → Bool
holds_text s (wide_pointer, wide_string address text) = s.terminal == b's' && is_longint s.flags
holds_text s (char_pointer, c_string address text) = s.terminal == b's' && not (is_longint s.flags)
holds_text s _ = false

-- the bytes at `storage2`
abbrev pub text_bytes : {Real : Type 0} → SpecInfo → Typed Real → List ℕ
text_bytes s (wide_pointer, wide_string address text) =
    if s.terminal == b's' && is_longint s.flags then wide_bytes text ++ bytes_of 4 0 else []
text_bytes s (char_pointer, c_string address text) =
    if s.terminal == b's' && not (is_longint s.flags) then text ++ bytes_of 1 0 else []
text_bytes s _ = []

-- the bytes at `storage`
abbrev pub slot_bytes : {Real : Type 0} → RealCodec Real → SpecInfo → Typed Real → ℕ → List ℕ
slot_bytes codec s a distance = if holds_text s a then bytes_of 8 distance else object_bytes codec a

-- where the two areas have room
abbrev pub Fits : {Real : Type 0} → SpecInfo → Typed Real → Dump → Type 0
Fits s a d =
    (length d.mem < 2 ^ 63)
    × (d.storage + get_arg_size a.0 ≤ d.storage2)
    × (d.storage2 + length (text_bytes s a) ≤ length d.mem)

abbrev pub stored : {Real : Type 0} → RealCodec Real → SpecInfo → Typed Real → Dump → Dump
stored codec s a d = record {
  mem =
      overwrite (overwrite d.mem d.storage2 (text_bytes s a)) d.storage
        (slot_bytes codec s a (d.storage2 - d.storage));
  storage = d.storage + get_arg_size a.0;
  storage2 = d.storage2 + length (text_bytes s a);
}

put_text-stored :
    (text : List ℕ) (unit : ℕ) (d : Dump)
    → length d.mem < 2 ^ 63
    → unit ≤ 4
    → d.storage + 8 ≤ d.storage2
    → d.storage2 + (length text + unit) ≤ length d.mem
    → put_text text unit (length text + unit) d
      ≡ some (record {
        mem =
            overwrite
              (overwrite d.mem d.storage2 (text ++ bytes_of unit 0))
              d.storage
              (bytes_of 8 (d.storage2 - d.storage));
        storage = d.storage + 8;
        storage2 = d.storage2 + (length text + unit);
      })
unfolding put_text put_bytes
put_text-stored text unit d small u le room = ground (
  arith,
  take-all (length text) text (omega arith),
  length-bytes_of unit 0,
  length-bytes_of 8 (d.storage2 - d.storage),
  length-overwrite d.mem d.storage2 text,
  length-overwrite d.mem d.storage2 (text ++ bytes_of unit 0),
  overwrite-overwrite d.mem d.storage2 text (bytes_of unit 0) (d.storage2 + length text) refl,
)

module _ {Real : Type 0} (codec : RealCodec Real) where
  pub length-object_bytes :
      {a : Typed Real} → HasType codec a → length (object_bytes codec a) ≡ get_arg_size a.0
  unfolding object_bytes get_arg_size
  length-object_bytes (has_integer n b v k e) = length-bytes_of n v
  length-object_bytes (has_real n x l e) = l
  length-object_bytes (has_text address text k n) = refl
  length-object_bytes (has_wide_text address text k n) = refl
  length-object_bytes (has_pointer address k) = refl
  length-object_bytes has_null = refl

  pub length-slot_bytes :
      (s : SpecInfo) {a : Typed Real} (distance : ℕ)
      → HasType codec a
      → length (slot_bytes codec s a distance) ≡ get_arg_size a.0
  unfolding get_arg_size
  length-slot_bytes s k (has_integer n b v z e) = length-object_bytes (has_integer n b v z e)
  length-slot_bytes s k (has_real n x l e) = length-object_bytes (has_real n x l e)
  length-slot_bytes s k (has_text address text z n) =
      ground (arith, length-object_bytes (has_text address text z n))
  length-slot_bytes s k (has_wide_text address text z n) =
      ground (arith, length-object_bytes (has_wide_text address text z n))
  length-slot_bytes s k (has_pointer address z) = length-object_bytes (has_pointer address z)
  length-slot_bytes s k has_null = length-object_bytes has_null

  pub put_raw-stored :
      {a : Typed Real} (d : Dump)
      → HasType codec a
      → d.storage + get_arg_size a.0 ≤ length d.mem
      → put_raw codec a d
        ≡ some (record d {
          mem = overwrite d.mem d.storage (object_bytes codec a);
          storage = d.storage + get_arg_size a.0;
        })
  unfolding put_raw put_object put_bytes
  put_raw-stored d h room = ground (arith, length-object_bytes h)

  -- an argument without a text
  store_raw :
      (s : SpecInfo) {a : Typed Real} (d : Dump)
      → HasType codec a
      → d.storage + get_arg_size a.0 ≤ length d.mem
      → put_raw codec a d
        ≡ some (record {
          mem = overwrite (overwrite d.mem d.storage2 []) d.storage (object_bytes codec a);
          storage = d.storage + get_arg_size a.0;
          storage2 = d.storage2 + 0;
        })
  store_raw s d h room = ground (arith, put_raw-stored d h room, overwrite-nil d.mem d.storage2)

  -- the entry of the array for the argument
  abbrev pub IsSized : {Real : Type 0} → SpecInfo → List ℕ → Typed Real → Type 0
  IsSized s arr a = (holds_text s a ≡ false) ⊎ (get_or arr 0 0 ≡ length (text_bytes s a))

  pub store_arg-stored :
      (s : SpecInfo) (arr : List ℕ) {a : Typed Real} (d : Dump)
      → Fits s a d
      → IsSized s arr a
      → HasType codec a
      → store_arg codec s arr a d ≡ some (stored codec s a d)
  unfolding store_arg get_arg_size
  store_arg-stored s arr d (small, le, room) size (has_integer n b v z e) =
      store_raw s d (has_integer n b v z e) (omega arith)
  store_arg-stored s arr d (small, le, room) size (has_real n x l e) =
      store_raw s d (has_real n x l e) (omega arith)
  store_arg-stored s arr d (small, le, room) size (has_pointer address z) =
      store_raw s d (has_pointer address z) (omega arith)
  store_arg-stored s arr d (small, le, room) size has_null = store_raw s d has_null (omega arith)
  store_arg-stored s arr d (small, le, room) size (has_text address text z n) =
      elim (Bool-cases (s.terminal == b's' && not (is_longint s.flags))) [
        | inl held ↦
            let total = length-append text (bytes_of 1 0) in
            let entry : get_or arr 0 0 ≡ length text + 1 = ground (arith, size, held, total) in
            let room' : d.storage2 + (length text + 1) ≤ length d.mem =
              ground (arith, room, held, total) in
            ground
              (arith, held, entry, total, put_text-stored text 1 d small (omega arith) le room')
        | inr raw ↦ rw raw (store_raw s d (has_text address text z n) (omega arith))
      ]
  store_arg-stored s arr d (small, le, room) size (has_wide_text address text z n) =
      elim (Bool-cases (s.terminal == b's' && is_longint s.flags)) [
        | inl held ↦
            let total = length-append (wide_bytes text) (bytes_of 4 0) in
            let entry : get_or arr 0 0 ≡ length (wide_bytes text) + 4 =
              ground (arith, size, held, total) in
            let room' : d.storage2 + (length (wide_bytes text) + 4) ≤ length d.mem =
              ground (arith, room, held, total) in
            ground (
              arith,
              held,
              entry,
              total,
              put_text-stored (wide_bytes text) 4 d small (omega arith) le room',
            )
        | inr raw ↦ rw raw (store_raw s d (has_wide_text address text z n) (omega arith))
      ]
