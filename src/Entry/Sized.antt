-- ===== src/Entry/Sized.antt =====
-- The sizes of the arguments and of their texts, one argument at a time.
use constexpr_fmt_str.Prelude.{
  ℕ, suc, ◌+◌, ◌≡◌, refl, true, false, Option, some, List, [], ◌∷◌, arith, ◌==◌, length, Bool-cases,
  inl, inr, if◌then◌else◌, bind-some, drop, length-append,
}
use constexpr_fmt_str.Spec.{SpecInfo, is_terminal}
use constexpr_fmt_str.Spec.Scan.{args_of}
use constexpr_fmt_str.Entry.{CType, get_arg_size, RealCodec, Typed, wide_bytes, bytes_of}
use constexpr_fmt_str.Entry.Store.{
  get_n_args_size, get_size_for_terminal_s, get_str_size, dynamic_args,
}
use constexpr_fmt_str.Entry.Statement.{sum}
use constexpr_fmt_str.Entry.Bytes.{length-wide_bytes}
use constexpr_fmt_str.Entry.Typed.{
  HasType, has_integer, has_real, has_text, has_wide_text, has_pointer, has_null, text_bytes,
  holds_text, IsSized,
}

-- every argument is one of its type
abbrev pub AllTyped : {Real : Type 0} → RealCodec Real → List (Typed Real) → Type 0
AllTyped codec [] = Unit
AllTyped codec (a ∷ args) = HasType codec a × AllTyped codec args

-- every record is of a valid specifier but the last, which is of the end of the string
abbrev pub Lettered : List SpecInfo → Type 0
Lettered [] = ⊥
Lettered (s ∷ []) = s.terminal ≡ 0
Lettered (s ∷ s' ∷ ss) = (is_terminal s.terminal ≡ true) × Lettered (s' ∷ ss)

pub args_of-letter :
    (s : SpecInfo) (m : ℕ)
    → is_terminal s.terminal ≡ true
    → args_of s + m ≡ suc (dynamic_args s + m)
unfolding args_of
args_of-letter s m h = ground (arith, h)

-- what the arguments of one specifier add to the three sizes
pub get_n_args_size-suc :
    (n m : ℕ) (ty : CType) (tys : List CType) (size : ℕ)
    → n ≡ suc m
    → get_n_args_size n (ty ∷ tys) ≡ some size
    → (rest : ℕ) × (get_n_args_size m tys ≡ some rest) × (size ≡ get_arg_size ty + rest)
unfolding get_n_args_size
get_n_args_size-suc n m ty tys size e h =
    let (rest, e1, e2) = bind-some (get_n_args_size m tys) _ size (rw e at h) in
    (rest, e1, ground (arith, e2))

pub text_size :
    {Real : Type 0} {codec : RealCodec Real} (s : SpecInfo) {a : Typed Real}
    → HasType codec a
    → s.terminal == b's' ≡ true
    → get_size_for_terminal_s s a ≡ length (text_bytes s a)
unfolding get_size_for_terminal_s
text_size s (has_integer n b v z e) t = refl
text_size s (has_real n x l e) t = refl
text_size s (has_text address text z n) t = ground (arith, t, length-append text (0 ∷ []))
text_size s (has_wide_text address text z n) t =
    ground (arith, t, length-append (wide_bytes text) (bytes_of 4 0), length-wide_bytes text)
text_size s (has_pointer address z) t = refl
text_size s has_null t = refl

pub no_text :
    {Real : Type 0} {codec : RealCodec Real} (s : SpecInfo) {a : Typed Real}
    → HasType codec a
    → s.terminal == b's' ≡ false
    → (holds_text s a ≡ false) × (length (text_bytes s a) ≡ 0)
no_text s (has_integer n b v z e) t = (refl, refl)
no_text s (has_real n x l e) t = (refl, refl)
no_text s (has_text address text z n) t = rw t (refl, refl)
no_text s (has_wide_text address text z n) t = rw t (refl, refl)
no_text s (has_pointer address z) t = (refl, refl)
no_text s has_null t = (refl, refl)

module _ {Real : Type 0} (codec : RealCodec Real) where
  pub str_size-nil :
      (s : SpecInfo) (sizes : List (Typed Real) → Option (List ℕ)) (n : ℕ) (arr : List ℕ)
      → get_str_size s sizes n [] ≡ some arr
      → ⊥
  unfolding get_str_size
  str_size-nil s sizes n arr e = ground (arith, e)

  -- the entry of an argument in the array
  pub str_size-first :
      (s : SpecInfo) (sizes : List (Typed Real) → Option (List ℕ)) (a : Typed Real)
      (args : List (Typed Real)) (arr : List ℕ)
      → HasType codec a
      → get_str_size s sizes 0 (a ∷ args) ≡ some arr
      → IsSized codec s arr a
        × (sizes args ≡ some (if s.terminal == b's' then drop 1 arr else arr))
        × (sum arr ≡ length (text_bytes s a) + sum (if s.terminal == b's' then drop 1 arr else arr))
  unfolding get_str_size
  str_size-first s sizes a args arr h e =
      let (rest, e1, e2) = bind-some (sizes args) _ arr e in
      elim (Bool-cases (s.terminal == b's')) [
        | inl t ↦
            let same : arr ≡ get_size_for_terminal_s s a ∷ rest = ground (arith, e2, t) in
            let size = text_size s h t in rw (same, t, e1) (inr size, refl, omega (arith, size))
        | inr t ↦
            let same : arr ≡ rest = ground (arith, e2, t) in
            let (held, size) = no_text s h t in
            rw (same, t, e1) (inl held, refl, omega (arith, size))
      ]
