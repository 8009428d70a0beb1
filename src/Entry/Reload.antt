-- ===== src/Entry/Reload.antt =====
-- A stored argument, loaded again, is formatted like the argument itself.
use constexpr_fmt_str.Prelude.{
  ℕ, ◌+◌, ◌-◌, ◌%◌, ◌^◌, ◌≤◌, ◌<◌, ◌≡◌, refl, ◌∙◌, true, false, List, ◌++◌, arith, ◌==◌,
  if◌then◌else◌, length, drop, Bool-cases, inl, inr, ◌⊎◌,
}
use constexpr_fmt_str.Prelude.Int.{ℤ}
use constexpr_fmt_str.Outbuf.{size_mod}
use constexpr_fmt_str.Spec.{SpecInfo, Flags}
use constexpr_fmt_str.Staging.Slice.{slice}
use constexpr_fmt_str.Convert.Args.{Library, c_string, wide_string}
use constexpr_fmt_str.Convert.Text.{is_longint, convert_char, convert_string, convert_count}
use constexpr_fmt_str.Convert.Integer.{convert_integer, convert_pointer}
use constexpr_fmt_str.Convert.Float.{convert_float}
use constexpr_fmt_str.Convert.Format.{convert}
use constexpr_fmt_str.Entry.{
  get_arg_size, RealCodec, Typed, bytes_of, number_of, widen, wide_bytes, object_bytes,
}
use constexpr_fmt_str.Entry.Load.{load_arg, until_nul, until_wide_nul}
use constexpr_fmt_str.Entry.Bytes.{
  number_of-bytes_of, number_of-cut, until_nul-slice, until_wide_nul-slice,
}
use constexpr_fmt_str.Entry.Typed.{
  HasType, has_integer, has_real, has_text, has_wide_text, has_pointer, has_null, text_bytes,
  slot_bytes,
}

module _ (lib : Library) where
  -- a text is only read under `%s`, and its address only under other letters
  convert-c_string :
      (term : ℕ) (flags : Flags) (sign : ℕ) (prec : ℤ) (w address address' : ℕ)
      (text text' : List ℕ)
      → (term == b's' ≡ true) × ((is_longint flags ≡ true) ⊎ (text' ≡ text))
        ⊎ (term == b's' ≡ false) × (address' ≡ address)
      → convert lib term flags sign prec w (c_string address' text')
        ≡ convert lib term flags sign prec w (c_string address text)
  unfolding convert convert_char convert_string convert_integer convert_pointer convert_count
      convert_float
  convert-c_string term flags sign prec w address address' text text' (inl (e, inl long)) =
      rw (e, long) refl
  convert-c_string term flags sign prec w address address' text text' (inl (e, inr same)) =
      rw (e, same) refl
  convert-c_string term flags sign prec w address address' text text' (inr (e, same)) =
      rw (e, same) refl

  convert-wide_string :
      (term : ℕ) (flags : Flags) (sign : ℕ) (prec : ℤ) (w address address' : ℕ)
      (text text' : List ℕ)
      → (term == b's' ≡ true) × ((is_longint flags ≡ false) ⊎ (text' ≡ text))
        ⊎ (term == b's' ≡ false) × (address' ≡ address)
      → convert lib term flags sign prec w (wide_string address' text')
        ≡ convert lib term flags sign prec w (wide_string address text)
  unfolding convert convert_char convert_string convert_integer convert_pointer convert_count
      convert_float
  convert-wide_string term flags sign prec w address address' text text' (inl (e, inl plain)) =
      rw (e, plain) refl
  convert-wide_string term flags sign prec w address address' text text' (inl (e, inr same)) =
      rw (e, same) refl
  convert-wide_string term flags sign prec w address address' text text' (inr (e, same)) =
      rw (e, same) refl

  -- where an argument and its text stand in the memory
  abbrev pub Stored : RealCodec lib.Real → SpecInfo → Typed lib.Real → List ℕ → ℕ → ℕ → Type 0
  Stored codec s a mem p q =
      (slice mem p (p + get_arg_size a.0) ≡ slot_bytes codec s a (q - p))
      × (slice mem q (q + length (text_bytes s a)) ≡ text_bytes s a)
      × (p ≤ q)
      × (q < 2 ^ 63)

  -- the address of a stored text: that of the copy, or under other letters its own
  stored_distance :
      (mem : List ℕ) (p q : ℕ)
      → slice mem p (p + 8) ≡ bytes_of 8 (q - p)
      → p ≤ q
      → q < 2 ^ 63
      → (p + number_of (slice mem p (p + 8))) % size_mod ≡ q
  stored_distance mem p q slot le lt =
      rw slot (omega (arith, number_of-bytes_of 8 (q - p) (omega arith)))

  pub load-convert :
      (codec : RealCodec lib.Real) (s : SpecInfo) {a : Typed lib.Real} (mem : List ℕ) (p q : ℕ)
      (flags : Flags) (sign : ℕ) (prec : ℤ) (w : ℕ)
      → Stored codec s a mem p q
      → is_longint flags ≡ is_longint s.flags
      → HasType codec a
      → convert lib s.terminal flags sign prec w (load_arg codec s a.0 mem p)
        ≡ convert lib s.terminal flags sign prec w a.1
  unfolding load_arg get_arg_size object_bytes
  load-convert codec s mem p q flags sign prec w (slot, text, le, lt) f (has_integer n b v size e) =
      let same : widen n b (number_of (slice mem p (p + n))) ≡ v =
        rw (slot, number_of-cut n v size, ← e) refl in
      rw same refl
  load-convert codec s mem p q flags sign prec w (slot, text, le, lt) f (has_real n x l e) =
      rw (slot, e) refl
  load-convert codec s mem p q flags sign prec w (slot, text, le, lt) f (has_pointer address z) =
      rw (slot, number_of-bytes_of 8 address z) refl
  load-convert codec s mem p q flags sign prec w (slot, text, le, lt) f has_null = refl
  load-convert codec s mem p q flags sign prec w (slot, text, le, lt) f (has_text address t z n) =
      let v = number_of (slice mem p (p + 8)) in
      let at = if s.terminal == b's' then (p + v) % size_mod else v in
      convert-c_string s.terminal flags sign prec w address at t (until_nul (drop at mem))
        (elim (Bool-cases (s.terminal == b's')) [
          | inl e ↦ inl (
            e,
            elim (Bool-cases (is_longint s.flags)) [
              | inl long ↦ inl (f ∙ long)
              | inr plain ↦
                  let here : at ≡ q =
                    rw e (stored_distance mem p q (rw (e, plain) at slot) le lt) in
                  inr (
                    rw here (
                      until_nul-slice mem q (q + length (t ++ bytes_of 1 0)) t n
                        (rw (e, plain) at text)))
            ],
          )
          | inr e ↦ inr (e, rw e (rw (rw e at slot) (number_of-bytes_of 8 address z)))
        ])
  load-convert codec s mem p q flags sign prec w (slot, text, le, lt) f
        (has_wide_text address t z n) =
      let v = number_of (slice mem p (p + 8)) in
      let at = if s.terminal == b's' then (p + v) % size_mod else v in
      convert-wide_string s.terminal flags sign prec w address at t (until_wide_nul (drop at mem))
        (elim (Bool-cases (s.terminal == b's')) [
          | inl e ↦ inl (
            e,
            elim (Bool-cases (is_longint s.flags)) [
              | inl long ↦
                  let here : at ≡ q = rw e (stored_distance mem p q (rw (e, long) at slot) le lt) in
                  inr (
                    rw here (
                      until_wide_nul-slice mem q (q + length (wide_bytes t ++ bytes_of 4 0)) t n
                        (rw (e, long) at text)))
              | inr plain ↦ inl (f ∙ plain)
            ],
          )
          | inr e ↦ inr (e, rw e (rw (rw e at slot) (number_of-bytes_of 8 address z)))
        ])
