-- ===== src/Entry/Laid.antt =====
-- Where the arguments stand in the memory, and that `formator` then formats them like `converter_impl` does.
use constexpr_fmt_str.Prelude.{
  ℕ, zero, suc, ◌+◌, ◌-◌, ◌%◌, ◌^◌, ◌≤◌, ◌≡◌, refl, Bool, Option, none, some, List, [], ◌∷◌, arith,
  ltb, length, le→leb, ◌>>=◌, if◌then◌else◌,
}
use constexpr_fmt_str.Prelude.Int.{ℤ}
use constexpr_fmt_str.Outbuf.{Outbuf, get_written_num}
use constexpr_fmt_str.Spec.{SpecInfo}
use constexpr_fmt_str.Staging.Slice.{slice}
use constexpr_fmt_str.Convert.Args.{Library, Arg, formatted_width, formatted_prec, integral, null}
use constexpr_fmt_str.Convert.Text.{is_longint}
use constexpr_fmt_str.Convert.Format.{resolve, converter_single, write_between}
use constexpr_fmt_str.Entry.{
  get_arg_size, RealCodec, Typed, object_bytes, number_of, widen, bytes_of,
}
use constexpr_fmt_str.Entry.Store.{dynamic_args}
use constexpr_fmt_str.Entry.Load.{load_arg, read_arg, read_dynamic}
use constexpr_fmt_str.Entry.Bytes.{number_of-cut, IsSize}
use constexpr_fmt_str.Entry.Typed.{
  HasType, has_integer, has_real, has_text, has_wide_text, has_pointer, has_null, text_bytes,
}
use constexpr_fmt_str.Entry.Reload.{Stored, load-convert}

bind-cong {ℓ κ} :
    {A : Type ℓ} {B : Type κ} (m : Option A) (f g : A → Option B)
    → ((a : A) → f a ≡ g a)
    → (m >>= f) ≡ (m >>= g)
bind-cong none f g h = refl
bind-cong (some a) f g h = h a

resolve-is_longint : (s : SpecInfo) (w p : ℤ) → is_longint (resolve s w p).2 ≡ is_longint s.flags
unfolding resolve
resolve-is_longint s w p = ground arith

module _ (lib : Library) (codec : RealCodec lib.Real) where
  module _ (mem : List ℕ) where
    -- an argument, or one of the `D` arguments before it, at `p`, and its text at `q`
    abbrev pub ArgAt : SpecInfo → Typed lib.Real → ℕ → ℕ → Type 0
    ArgAt s a p q =
        HasType codec a × (p + get_arg_size a.0 ≤ length mem) × Stored lib codec s a mem p q

    abbrev pub DynamicAt : Typed lib.Real → ℕ → Type 0
    DynamicAt a p =
        HasType codec a
        × (p + get_arg_size a.0 ≤ length mem)
        × (slice mem p (p + get_arg_size a.0) ≡ object_bytes codec a)

    abbrev pub Place : Type 1
    Place = List (Typed lib.Real) → ℕ → ℕ → Type 0

    abbrev pub SomeLaid : SpecInfo → Place → ℕ → Place
    SomeLaid s rest n [] p q = Unit
    SomeLaid s rest zero (a ∷ args) p q =
        ArgAt s a p q × rest args (p + get_arg_size a.0) (q + length (text_bytes s a))
    SomeLaid s rest (suc n) (a ∷ args) p q =
        DynamicAt a p × SomeLaid s rest n args (p + get_arg_size a.0) q

    -- the arguments of the specifiers from `p` on, and their texts from `q` on
    abbrev pub Laid : List SpecInfo → Place
    Laid [] args p q = Unit
    Laid (s ∷ []) args p q = Unit
    Laid (s ∷ s' ∷ ss) args p q = SomeLaid s (Laid (s' ∷ ss)) (dynamic_args s) args p q

    pub load-converter_single :
        (rts : List ℕ) (s : SpecInfo) (a : Typed lib.Real) (p q : ℕ) (w prec : ℤ) (o : Outbuf)
        → ArgAt s a p q
        → converter_single lib rts s (load_arg codec s a.0 mem p) w prec o
          ≡ converter_single lib rts s a.1 w prec o
    unfolding converter_single
    load-converter_single rts s a p q w prec o (h, room, at) =
        bind-cong (if ltb 0 (s.end - s.begin) then write_between rts s o else some o) _ _ λ o1.
          rw
            (load-convert lib codec s mem p q (resolve s w prec).2 s.sign (resolve s w prec).1
              (get_written_num o1) at (resolve-is_longint s w prec) h)
            refl

    load-integer :
        (n : ℕ) (b : Bool) (v p : ℕ)
        → IsSize n
        → v ≡ widen n b (v % 256 ^ n)
        → slice mem p (p + n) ≡ bytes_of n v
        → widen n b (number_of (slice mem p (p + n))) ≡ v
    load-integer n b v p size e at = rw (at, number_of-cut n v size, ← e) refl

    -- a `D` argument gives the width or the precision that the argument itself gives
    abbrev pub DynamicRead : SpecInfo → Typed lib.Real → ℕ → Type 0
    DynamicRead s a p =
        (d : Arg lib.Real) × (read_dynamic lib codec mem s a.0 p ≡ some d)
        × (formatted_width d ≡ formatted_width a.1)
        × (formatted_prec d ≡ formatted_prec a.1)

    pub read_dynamic-at :
        (s : SpecInfo) {a : Typed lib.Real} (p : ℕ)
        → HasType codec a
        → p + get_arg_size a.0 ≤ length mem
        → slice mem p (p + get_arg_size a.0) ≡ object_bytes codec a
        → DynamicRead s a p
    unfolding read_dynamic read_arg load_arg formatted_width formatted_prec get_arg_size
        object_bytes
    read_dynamic-at s p (has_integer n b v size e) room at =
        let same = load-integer n b v p size e at in
        (
          integral (widen n b (number_of (slice mem p (p + n)))),
          rw (le→leb _ _ room) refl,
          rw same refl,
          rw same refl,
        )
    read_dynamic-at s p (has_real n x l e) room at = (null, refl, refl, refl)
    read_dynamic-at s p (has_text address t z n) room at = (null, refl, refl, refl)
    read_dynamic-at s p (has_wide_text address t z n) room at = (null, refl, refl, refl)
    read_dynamic-at s p (has_pointer address z) room at = (null, refl, refl, refl)
    read_dynamic-at s p has_null room at = (null, refl, refl, refl)

    pub read_arg-at :
        (s : SpecInfo) (a : Typed lib.Real) (p : ℕ)
        → p + get_arg_size a.0 ≤ length mem
        → read_arg lib codec mem s a.0 p ≡ some (load_arg codec s a.0 mem p)
    unfolding read_arg
    read_arg-at s a p room = rw (le→leb _ _ room) refl
