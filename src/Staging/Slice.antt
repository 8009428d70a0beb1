-- ===== src/Staging/Slice.antt =====
-- A part of a byte array, and what storing bytes elsewhere leaves of it.
use constexpr_fmt_str.Prelude.{
  ℕ, zero, suc, ◌+◌, ◌≤◌, ◌≡◌, refl, ap, ◌∙◌, List, [], ◌∷◌, ◌++◌, arith, length,
}
use constexpr_fmt_str.Outbuf.{overwrite}

-- the bytes from index `a` up to, and without, index `b`
abbrev pub slice : List ℕ → ℕ → ℕ → List ℕ
slice [] a b = []
slice (x ∷ xs) a zero = []
slice (x ∷ xs) zero (suc b) = x ∷ slice xs zero b
slice (x ∷ xs) (suc a) (suc b) = slice xs a b

pub slice-nothing : (xs : List ℕ) (a b : ℕ) → b ≤ a → slice xs a b ≡ []
slice-nothing [] a b h = refl
slice-nothing (x ∷ xs) a zero h = refl
slice-nothing (x ∷ xs) zero (suc b) h = absurd (omega arith)
slice-nothing (x ∷ xs) (suc a) (suc b) h = slice-nothing xs a b (omega arith)

pub slice-append :
    (xs : List ℕ) (a b c : ℕ) → a ≤ b → b ≤ c → slice xs a b ++ slice xs b c ≡ slice xs a c
slice-append [] a b c h k = refl
slice-append (x ∷ xs) zero zero c h k = refl
slice-append (x ∷ xs) (suc a) zero c h k = absurd (omega arith)
slice-append (x ∷ xs) a (suc b) zero h k = absurd (omega arith)
slice-append (x ∷ xs) zero (suc b) (suc c) h k =
    ap (λ zs. x ∷ zs) (slice-append xs zero b c (omega arith) (omega arith))
slice-append (x ∷ xs) (suc a) (suc b) (suc c) h k =
    slice-append xs a b c (omega arith) (omega arith)

pub slice-overwrite_behind :
    (xs bs : List ℕ) (a b p : ℕ) → b ≤ p → slice (overwrite xs p bs) a b ≡ slice xs a b
unfolding overwrite
slice-overwrite_behind [] bs a b p h = refl
slice-overwrite_behind (x ∷ xs) bs a zero p h =
    slice-nothing (overwrite (x ∷ xs) p bs) a zero (omega arith) ∙ refl
slice-overwrite_behind (x ∷ xs) bs a (suc b) zero h = absurd (omega arith)
slice-overwrite_behind (x ∷ xs) bs zero (suc b) (suc p) h =
    ap (λ zs. x ∷ zs) (slice-overwrite_behind xs bs zero b p (omega arith))
slice-overwrite_behind (x ∷ xs) bs (suc a) (suc b) (suc p) h =
    slice-overwrite_behind xs bs a b p (omega arith)

pub slice-overwrite_before :
    (xs bs : List ℕ) (a b p : ℕ) → p + length bs ≤ a → slice (overwrite xs p bs) a b ≡ slice xs a b
unfolding overwrite
slice-overwrite_before [] bs a b p h = refl
slice-overwrite_before (x ∷ xs) [] a b zero h = refl
slice-overwrite_before (x ∷ xs) (c ∷ bs) zero b zero h = absurd (omega arith)
slice-overwrite_before (x ∷ xs) (c ∷ bs) (suc a) zero zero h = refl
slice-overwrite_before (x ∷ xs) (c ∷ bs) (suc a) (suc b) zero h =
    slice-overwrite_before xs bs a b zero (omega arith)
slice-overwrite_before (x ∷ xs) bs zero b (suc p) h = absurd (omega arith)
slice-overwrite_before (x ∷ xs) bs (suc a) zero (suc p) h = refl
slice-overwrite_before (x ∷ xs) bs (suc a) (suc b) (suc p) h =
    slice-overwrite_before xs bs a b p (omega arith)

pub slice-overwrite :
    (xs bs : List ℕ) (p q : ℕ)
    → q ≡ p + length bs
    → q ≤ length xs
    → slice (overwrite xs p bs) p q ≡ bs
unfolding overwrite
slice-overwrite [] [] p q e h = refl
slice-overwrite [] (b ∷ bs) p q e h = absurd (omega arith)
slice-overwrite (x ∷ xs) [] zero zero e h = refl
slice-overwrite (x ∷ xs) [] zero (suc q) e h = absurd (omega arith)
slice-overwrite (x ∷ xs) (b ∷ bs) zero zero e h = absurd (omega arith)
slice-overwrite (x ∷ xs) (b ∷ bs) zero (suc q) e h =
    ap (λ zs. b ∷ zs) (slice-overwrite xs bs zero q (omega arith) (omega arith))
slice-overwrite (x ∷ xs) bs (suc p) zero e h = absurd (omega arith)
slice-overwrite (x ∷ xs) bs (suc p) (suc q) e h =
    slice-overwrite xs bs p q (omega arith) (omega arith)

pub length-slice : (xs : List ℕ) (a b : ℕ) → a ≤ b → b ≤ length xs → a + length (slice xs a b) ≡ b
length-slice [] a zero h k = omega arith
length-slice [] a (suc b) h k = absurd (omega arith)
length-slice (x ∷ xs) a zero h k = omega arith
length-slice (x ∷ xs) zero (suc b) h k =
    omega (arith, length-slice xs zero b (omega arith) (omega arith))
length-slice (x ∷ xs) (suc a) (suc b) h k =
    omega (arith, length-slice xs a b (omega arith) (omega arith))
