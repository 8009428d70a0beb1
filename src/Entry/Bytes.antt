-- ===== src/Entry/Bytes.antt =====
-- Bytes of numbers and texts, read back.
use constexpr_fmt_str.Prelude.{
  ℕ, zero, suc, ◌*◌, ◌/◌, ◌%◌, ◌^◌, ◌<◌, ◌≡◌, ◌≢◌, refl, ap, List, [], ◌∷◌, ◌++◌, arith, length,
  drop, append_assoc, ◌⊎◌, inl, inr,
}
use native.Mathlib.Nat.{pow-suc, pow-zero, div-lt_iff_lt-mul}
use constexpr_fmt_str.Spec.Pieces.{NoNul}
use constexpr_fmt_str.Entry.{bytes_of, number_of, wide_bytes}
use constexpr_fmt_str.Entry.Load.{until_nul, until_wide_nul}
use constexpr_fmt_str.Staging.Slice.{slice}

pub length-bytes_of : (n v : ℕ) → length (bytes_of n v) ≡ n
length-bytes_of zero v = refl
length-bytes_of (suc n) v = ap suc (length-bytes_of n (v / 256))

div-lt-pow : (v n : ℕ) → v < 256 ^ suc n → v / 256 < 256 ^ n
div-lt-pow v n h = (div-lt_iff_lt-mul {k = 256} (omega arith)).1 (rw (pow-suc 256 n) at h)

pub number_of-bytes_of : (n v : ℕ) → v < 256 ^ n → number_of (bytes_of n v) ≡ v
number_of-bytes_of zero v h = omega (arith, pow-zero 256)
number_of-bytes_of (suc n) v h = omega (arith, number_of-bytes_of n (v / 256) (div-lt-pow v n h))

-- the sizes of the integer types
abbrev pub IsSize : ℕ → Type 0
IsSize n = (n ≡ 1) ⊎ ((n ≡ 2) ⊎ ((n ≡ 4) ⊎ (n ≡ 8)))

pub number_of-cut : (n v : ℕ) → IsSize n → number_of (bytes_of n v) ≡ v % 256 ^ n
number_of-cut n v (inl e) = rw e (omega arith)
number_of-cut n v (inr (inl e)) = rw e (omega arith)
number_of-cut n v (inr (inr (inl e))) = rw e (omega arith)
number_of-cut n v (inr (inr (inr e))) = rw e (omega arith)

-- `wchar_t` characters, none of them L'\0'
abbrev pub AllWide : List ℕ → Type 0
AllWide [] = Unit
AllWide (c ∷ s) = (c ≢ 0) × (c < 2 ^ 32) × AllWide s

pub length-wide_bytes : (s : List ℕ) → length (wide_bytes s) ≡ 4 * length s
length-wide_bytes [] = refl
length-wide_bytes (c ∷ s) = omega (arith, length-wide_bytes s)

until_nul-text : (s r : List ℕ) → NoNul s → until_nul (s ++ (0 ∷ r)) ≡ s
until_nul-text [] r h = refl
until_nul-text (c ∷ s) r (n, h) = ground (arith, until_nul-text s r h)

until_wide_nul-text :
    (s r : List ℕ) → AllWide s → until_wide_nul (wide_bytes s ++ (0 ∷ 0 ∷ 0 ∷ 0 ∷ r)) ≡ s
until_wide_nul-text [] r h = refl
until_wide_nul-text (c ∷ s) r (n, small, h) =
    let e : number_of (bytes_of 4 c) ≡ c = number_of-bytes_of 4 c small in
    ground (arith, until_wide_nul-text s r h, e)

-- what stands at an index, from a slice that begins there
drop-slice : (mem : List ℕ) (a b : ℕ) → (r : List ℕ) × (drop a mem ≡ slice mem a b ++ r)
drop-slice [] zero b = ([], refl)
drop-slice [] (suc a) b = ([], refl)
drop-slice (x ∷ mem) a zero = (drop a (x ∷ mem), refl)
drop-slice (x ∷ mem) zero (suc b) = let (r, e) = drop-slice mem zero b in (r, ap (λ zs. x ∷ zs) e)
drop-slice (x ∷ mem) (suc a) (suc b) = drop-slice mem a b

pub until_nul-slice :
    (mem : List ℕ) (a b : ℕ) (s : List ℕ)
    → NoNul s
    → slice mem a b ≡ s ++ (0 ∷ [])
    → until_nul (drop a mem) ≡ s
until_nul-slice mem a b s n e =
    let (r, d) = drop-slice mem a b in rw (d, e, append_assoc s (0 ∷ []) r) (until_nul-text s r n)

pub until_wide_nul-slice :
    (mem : List ℕ) (a b : ℕ) (s : List ℕ)
    → AllWide s
    → slice mem a b ≡ wide_bytes s ++ (0 ∷ 0 ∷ 0 ∷ 0 ∷ [])
    → until_wide_nul (drop a mem) ≡ s
until_wide_nul-slice mem a b s n e =
    let (r, d) = drop-slice mem a b in
    rw (d, e, append_assoc (wide_bytes s) (0 ∷ 0 ∷ 0 ∷ 0 ∷ []) r) (until_wide_nul-text s r n)
