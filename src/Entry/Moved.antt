-- ===== src/Entry/Moved.antt =====
-- An entry copied to another place is formatted the same: its texts are found by their distance.
use constexpr_fmt_str.Prelude.{
  ℕ, zero, suc, ◌+◌, ◌-◌, ◌^◌, ◌≤◌, ◌<◌, ◌≡◌, refl, sym, ap, ◌∙◌, some, Option, List, [], ◌∷◌,
  arith, length,
}
use native.Mathlib.Nat.{add_assoc}
use constexpr_fmt_str.Spec.{SpecInfo}
use constexpr_fmt_str.Spec.Scan.{count_args_required}
use constexpr_fmt_str.Staging.Slice.{slice}
use constexpr_fmt_str.Convert.Args.{Library}
use constexpr_fmt_str.Entry.{RealCodec, Typed, types, get_arg_size}
use constexpr_fmt_str.Entry.Typed.{text_bytes, slot_bytes}
use constexpr_fmt_str.Entry.Store.{get_n_args_size, get_str_size, get_str_size_array, dynamic_args}
use constexpr_fmt_str.Entry.Statement.{sum}
use constexpr_fmt_str.Entry.Sized.{
  AllTyped, Lettered, args_of-letter, get_n_args_size-suc, str_size-first,
}
use constexpr_fmt_str.Entry.Laid.{SomeLaid, Laid}

slice-take : (xs : List ℕ) (b i j : ℕ) → j ≤ b → slice xs i j ≡ slice (slice xs 0 b) i j
slice-take [] b i j h = refl
slice-take (x ∷ xs) zero i zero h = refl
slice-take (x ∷ xs) zero i (suc j) h = absurd (omega arith)
slice-take (x ∷ xs) (suc b) i zero h = refl
slice-take (x ∷ xs) (suc b) zero (suc j) h =
    ap (λ zs. x ∷ zs) (slice-take xs b zero j (omega arith))
slice-take (x ∷ xs) (suc b) (suc i) (suc j) h = slice-take xs b i j (omega arith)

slice-slice :
    (xs : List ℕ) (a b i j : ℕ) → a + j ≤ b → slice xs (a + i) (a + j) ≡ slice (slice xs a b) i j
slice-slice [] a b i j h = refl
slice-slice (x ∷ xs) zero b i j h =
    let ei : 0 + i ≡ i = omega arith in
    let ej : 0 + j ≡ j = omega arith in rw (ei, ej) (slice-take (x ∷ xs) b i j (omega arith))
slice-slice (x ∷ xs) (suc a) zero i j h = absurd (omega arith)
slice-slice (x ∷ xs) (suc a) (suc b) i j h =
    let ei : suc a + i ≡ suc (a + i) = omega arith in
    let ej : suc a + j ≡ suc (a + j) = omega arith in
    rw (ei, ej) (slice-slice xs a b i j (omega arith))

module _ (lib : Library) (codec : RealCodec lib.Real) (end : ℕ) where
  abbrev Args : Type 0
  Args = List (Typed lib.Real)

  -- the arguments and texts from `i` and `j` on end before `end`
  abbrev pub SomeInside : SpecInfo → (Args → ℕ → ℕ → Type 0) → ℕ → Args → ℕ → ℕ → Type 0
  SomeInside s rest n [] i j = Unit
  SomeInside s rest zero (a ∷ args) i j =
      (i + get_arg_size a.0 ≤ end)
      × (j + length (text_bytes s a) ≤ end)
      × rest args (i + get_arg_size a.0) (j + length (text_bytes s a))
  SomeInside s rest (suc n) (a ∷ args) i j =
      (i + get_arg_size a.0 ≤ end) × SomeInside s rest n args (i + get_arg_size a.0) j

  abbrev pub Inside : List SpecInfo → Args → ℕ → ℕ → Type 0
  Inside [] args i j = Unit
  Inside (s ∷ []) args i j = Unit
  Inside (s ∷ s' ∷ ss) args i j = SomeInside s (Inside (s' ∷ ss)) (dynamic_args s) args i j

  abbrev Sizes : ℕ → (Args → Option (List ℕ)) → (Args → ℕ → ℕ → Type 0) → Type 0
  Sizes n sizes inside =
      (args : Args) (arr : List ℕ) (i j size : ℕ)
      → AllTyped codec args
      → get_n_args_size n (types args) ≡ some size
      → sizes args ≡ some arr
      → i + size ≤ end
      → j + sum arr ≤ end
      → inside args i j

  SomeInside-sizes :
      (s : SpecInfo) (k n m : ℕ) (sizes : Args → Option (List ℕ)) (inside : Args → ℕ → ℕ → Type 0)
      → n ≡ suc (k + m)
      → Sizes m sizes inside
      → Sizes n (get_str_size s sizes k) (SomeInside s inside k)
  unfolding get_str_size
  SomeInside-sizes s k n m sizes inside e ih [] arr i j size typed ns zs hi hj = _
  SomeInside-sizes s zero n m sizes inside e ih (a ∷ args) arr i j size (h, typed) ns zs hi hj =
      let (rest, ns', total) = get_n_args_size-suc n m a.0 (types args) size (omega arith) ns in
      let (entry, zs', texts) = str_size-first codec s sizes a args arr h zs in
      (omega arith, omega arith, ih args _ _ _ rest typed ns' zs' (omega arith) (omega arith))
  SomeInside-sizes s (suc k) n m sizes inside e ih (a ∷ args) arr i j size (h, typed) ns zs hi hj =
      let (rest, ns', total) =
        get_n_args_size-suc n (suc (k + m)) a.0 (types args) size (omega arith) ns in
      (
        omega arith,
        SomeInside-sizes s k (suc (k + m)) m sizes inside refl ih args arr _ j rest typed ns' zs
            (omega arith) hj,
      )

  pub Inside-sizes :
      (ss : List SpecInfo)
      → Lettered ss
      → Sizes (count_args_required ss) (get_str_size_array ss) (Inside ss)
  unfolding get_str_size_array count_args_required
  Inside-sizes [] empty args arr i j size typed ns zs hi hj = _
  Inside-sizes (s ∷ []) last args arr i j size typed ns zs hi hj = _
  Inside-sizes (s ∷ s' ∷ ss) (letter, more) args arr i j size typed ns zs hi hj =
      SomeInside-sizes s (dynamic_args s) (count_args_required (s ∷ s' ∷ ss))
        (count_args_required (s' ∷ ss)) (get_str_size_array (s' ∷ ss)) (Inside (s' ∷ ss))
        (args_of-letter s (count_args_required (s' ∷ ss)) letter)
        (λ args' arr' i' j' size' typed' ns' zs' hi' hj'.
          Inside-sizes (s' ∷ ss) more args' arr' i' j' size' typed' ns' zs' hi' hj')
        args arr i j size typed ns zs hi hj

-- the bytes of one place are those of another
module _ (end b1 b2 : ℕ) (m1 m2 : List ℕ) where
  abbrev pub Copied : Type 0
  Copied =
      (slice m2 b2 (b2 + end) ≡ slice m1 b1 (b1 + end))
      × (b2 + end ≤ length m2)
      × (length m2 < 2 ^ 63)

  pub slice-same :
      Copied → (i j : ℕ) → j ≤ end → slice m2 (b2 + i) (b2 + j) ≡ slice m1 (b1 + i) (b1 + j)
  slice-same (same, room, small) i j h =
      slice-slice m2 b2 (b2 + end) i j (omega arith)
      ∙ ap (λ z. slice z i j) same
      ∙ sym (slice-slice m1 b1 (b1 + end) i j (omega arith))

  pub slice-Copied :
      (p p2 i n : ℕ)
      → Copied
      → p ≡ b1 + i
      → p2 ≡ b2 + i
      → i + n ≤ end
      → slice m2 p2 (p2 + n) ≡ slice m1 p (p + n)
  slice-Copied p p2 i n copied e e2 h =
      rw (e, e2, add_assoc b1 i n, add_assoc b2 i n) (slice-same copied i (i + n) h)

module _ (lib : Library) (codec : RealCodec lib.Real) (end b1 b2 : ℕ) (m1 m2 : List ℕ) where
  SomeLaid-Copied :
      (s : SpecInfo) (place1 place2 inside : List (Typed lib.Real) → ℕ → ℕ → Type 0)
      → Copied end b1 b2 m1 m2
      → ((args : List (Typed lib.Real)) (p q p2 q2 i j : ℕ)
          → p ≡ b1 + i
          → p2 ≡ b2 + i
          → q ≡ b1 + j
          → q2 ≡ b2 + j
          → inside args i j
          → place1 args p q
          → place2 args p2 q2)
      → (k : ℕ) (args : List (Typed lib.Real)) (p q p2 q2 i j : ℕ) → p ≡ b1 + i
      → p2 ≡ b2 + i
      → q ≡ b1 + j
      → q2 ≡ b2 + j
      → SomeInside lib codec end s inside k args i j
      → SomeLaid lib codec m1 s place1 k args p q
      → SomeLaid lib codec m2 s place2 k args p2 q2
  SomeLaid-Copied s place1 place2 inside copied ih k [] p q p2 q2 i j ep ep2 eq eq2 ins laid = _
  SomeLaid-Copied s place1 place2 inside copied ih zero (a ∷ args) p q p2 q2 i j ep ep2 eq eq2
        (hi, hj, ins) ((h, room, (slot, text, ord, small)), laid) =
      let (same, room2, small2) = copied in
      let distance : q2 - p2 ≡ q - p = omega arith in
      (
        (
          h,
          omega arith,
          (
            slice-Copied end b1 b2 m1 m2 p p2 i (get_arg_size a.0) copied ep ep2 hi
                ∙ slot
                ∙ ap (λ d. slot_bytes codec s a d) (sym distance),
            slice-Copied end b1 b2 m1 m2 q q2 j (length (text_bytes s a)) copied eq eq2 hj ∙ text,
            omega arith,
            omega arith,
          ),
        ),
        ih args _ _ _ _ (i + get_arg_size a.0) (j + length (text_bytes s a)) (omega arith)
            (omega arith) (omega arith) (omega arith) ins laid,
      )
  SomeLaid-Copied s place1 place2 inside copied ih (suc n) (a ∷ args) p q p2 q2 i j ep ep2 eq eq2
        (hi, ins) ((h, room, slot), laid) =
      let (same, room2, small2) = copied in
      (
        (
          h,
          omega arith,
          slice-Copied end b1 b2 m1 m2 p p2 i (get_arg_size a.0) copied ep ep2 hi ∙ slot,
        ),
        SomeLaid-Copied s place1 place2 inside copied ih n args _ q _ q2 (i + get_arg_size a.0) j
            (omega arith) (omega arith) eq eq2 ins laid,
      )

  pub Laid-Copied :
      (ss : List SpecInfo) (args : List (Typed lib.Real)) (p q p2 q2 i j : ℕ)
      → Copied end b1 b2 m1 m2
      → p ≡ b1 + i
      → p2 ≡ b2 + i
      → q ≡ b1 + j
      → q2 ≡ b2 + j
      → Inside lib codec end ss args i j
      → Laid lib codec m1 ss args p q
      → Laid lib codec m2 ss args p2 q2
  Laid-Copied [] args p q p2 q2 i j copied ep ep2 eq eq2 ins laid = _
  Laid-Copied (s ∷ []) args p q p2 q2 i j copied ep ep2 eq eq2 ins laid = _
  Laid-Copied (s ∷ s' ∷ ss) args p q p2 q2 i j copied ep ep2 eq eq2 ins laid =
      SomeLaid-Copied s (Laid lib codec m1 (s' ∷ ss)) (Laid lib codec m2 (s' ∷ ss))
        (Inside lib codec end (s' ∷ ss)) copied
        (λ args' p' q' p2' q2' i' j' ep' ep2' eq' eq2' ins' laid'.
          Laid-Copied (s' ∷ ss) args' p' q' p2' q2' i' j' copied ep' ep2' eq' eq2' ins' laid')
        (dynamic_args s) args p q p2 q2 i j ep ep2 eq eq2 ins laid
