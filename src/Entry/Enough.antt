-- ===== src/Entry/Enough.antt =====
-- With as many arguments as the specifiers require, all sizes are known.
use constexpr_fmt_str.Prelude.{
  ℕ, zero, suc, ◌+◌, ◌≤◌, ◌≡◌, refl, Option, some, List, [], ◌∷◌, arith, ◌==◌, length,
  if◌then◌else◌,
}
use constexpr_fmt_str.Spec.{SpecInfo}
use constexpr_fmt_str.Spec.Scan.{count_args_required}
use constexpr_fmt_str.Spec.Pieces.{Piece, plain_char, valid, faulty, Tail, IsFormat}
use constexpr_fmt_str.Spec.Analyze.{letters}
use constexpr_fmt_str.Prelude.{map}
use constexpr_fmt_str.Entry.{CType, get_arg_size, Typed}
use constexpr_fmt_str.Entry.Store.{
  get_n_args_size, get_size_for_terminal_s, get_str_size, get_str_size_array, dynamic_args,
}
use constexpr_fmt_str.Entry.Statement.{get_strs_num}
use constexpr_fmt_str.Entry.Sized.{Lettered, args_of-letter}

letters-nonempty : (ps : List Piece) → letters ps ≡ [] → ⊥
letters-nonempty [] e = ground (arith, e)
letters-nonempty (plain_char c ∷ ps) e = letters-nonempty ps e
letters-nonempty (faulty body c ∷ ps) e = letters-nonempty ps e
letters-nonempty (valid body c ∷ ps) e = ground (arith, e)

-- the records of a format
pub letters-Lettered :
    (ss : List SpecInfo) (ps : List Piece) (t : Tail)
    → IsFormat ps t
    → map (λ s. s.terminal) ss ≡ letters ps
    → Lettered ss
letters-Lettered [] [] t f e = ground (arith, e)
letters-Lettered (s ∷ []) [] t f e = ground (arith, e)
letters-Lettered (s ∷ s' ∷ ss) [] t f e = ground (arith, e)
letters-Lettered ss (plain_char c ∷ ps) t (_, f) e = letters-Lettered ss ps t f e
letters-Lettered ss (faulty body c ∷ ps) t (_, f) e = letters-Lettered ss ps t f e
letters-Lettered [] (valid body c ∷ ps) t (_, f) e = ground (arith, e)
letters-Lettered (s ∷ []) (valid body c ∷ ps) t (_, f) e =
    absurd (letters-nonempty ps (ground (arith, e)))
letters-Lettered (s ∷ s' ∷ ss) (valid body c ∷ ps) t ((_, _, letter, _), f) e =
    let same : s.terminal ≡ c = ground (arith, e) in
    (rw (same, letter) refl, letters-Lettered (s' ∷ ss) ps t f (ground (arith, e)))

pub get_n_args_size-enough :
    (n : ℕ) (tys : List CType) → n ≤ length tys → (size : ℕ) × (get_n_args_size n tys ≡ some size)
unfolding get_n_args_size
get_n_args_size-enough zero tys h = (0, refl)
get_n_args_size-enough (suc n) [] h = absurd (omega arith)
get_n_args_size-enough (suc n) (ty ∷ tys) h =
    let (rest, e) = get_n_args_size-enough n tys (omega arith) in
    (get_arg_size ty + rest, rw e refl)

module _ {Real : Type 0} where
  abbrev Known : ℕ → ℕ → (List (Typed Real) → Option (List ℕ)) → Type 0
  Known n k sizes =
      (args : List (Typed Real))
      → n ≤ length args
      → (arr : List ℕ) × (sizes args ≡ some arr) × (length arr ≡ k)

  get_str_size-enough :
      (s : SpecInfo) (d n m k : ℕ) (sizes : List (Typed Real) → Option (List ℕ))
      → n ≡ suc (d + m)
      → Known m k sizes
      → Known n (if s.terminal == b's' then suc k else k) (get_str_size s sizes d)
  unfolding get_str_size
  get_str_size-enough s d n m k sizes e ih [] h = absurd (omega arith)
  get_str_size-enough s zero n m k sizes e ih (a ∷ args) h =
      let (arr, run, l) = ih args (omega arith) in
      (
        if s.terminal == b's' then get_size_for_terminal_s s a ∷ arr else arr,
        rw run refl,
        ground (arith, l),
      )
  get_str_size-enough s (suc d) n m k sizes e ih (a ∷ args) h =
      get_str_size-enough s d (suc (d + m)) m k sizes refl ih args (omega arith)

  pub get_str_size_array-enough :
      (ss : List SpecInfo)
      → Lettered ss
      → Known (count_args_required ss) (get_strs_num ss) (get_str_size_array ss)
  unfolding get_str_size_array get_strs_num count_args_required
  get_str_size_array-enough [] empty args h = absurd empty
  get_str_size_array-enough (s ∷ []) last args h = ([], refl, rw last refl)
  get_str_size_array-enough (s ∷ s' ∷ ss) (letter, more) args h =
      get_str_size-enough s (dynamic_args s) _ _ _ _ (args_of-letter s _ letter)
        (get_str_size_array-enough (s' ∷ ss) more) args h
