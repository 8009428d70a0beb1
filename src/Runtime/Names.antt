-- ===== src/Runtime/Names.antt =====
-- The name of a staging buffer: what `getName` gives behind `setName`.
use constexpr_fmt_str.Prelude.{
  ℕ, zero, suc, ◌≤◌, ◌≡◌, refl, sym, ap, ◌∙◌, List, [], ◌∷◌, ◌++◌, arith, length, take, drop,
  replicate, length-take, length-append, length-replicate,
}
use constexpr_fmt_str.Outbuf.{overwrite}
use constexpr_fmt_str.Spec.Pieces.{NoNul}
use constexpr_fmt_str.Entry.Load.{until_nul}
use constexpr_fmt_str.Runtime.{ThreadBuffer, set_name, get_name}

-- 16 bytes, the last of them '\0'
abbrev pub IsNamed : ThreadBuffer → Type 0
IsNamed b = (length b.name ≡ 16) × (drop 15 b.name ≡ 0 ∷ [])

overwrite-first :
    (ms bs : List ℕ) → length bs ≤ length ms → overwrite ms 0 bs ≡ bs ++ drop (length bs) ms
unfolding overwrite
overwrite-first [] [] h = refl
overwrite-first [] (b ∷ bs) h = absurd (omega arith)
overwrite-first (m ∷ ms) [] h = refl
overwrite-first (m ∷ ms) (b ∷ bs) h = ap (λ z. b ∷ z) (overwrite-first ms bs (omega arith))

until_nul-NoNul : (s : List ℕ) → NoNul (until_nul s)
until_nul-NoNul [] = _
until_nul-NoNul (c ∷ s) = ground (arith, until_nul-NoNul s)

take-NoNul : (n : ℕ) (s : List ℕ) → NoNul s → NoNul (take n s)
take-NoNul zero [] h = _
take-NoNul zero (c ∷ s) h = _
take-NoNul (suc n) [] h = _
take-NoNul (suc n) (c ∷ s) (h, k) = (h, take-NoNul n s k)

until_nul-padded :
    (n m : ℕ) (u : List ℕ)
    → NoNul u
    → until_nul (take n (u ++ replicate m 0) ++ (0 ∷ [])) ≡ take n u
until_nul-padded zero m [] h = refl
until_nul-padded (suc n) zero [] h = refl
until_nul-padded (suc n) (suc m) [] h = refl
until_nul-padded zero m (c ∷ u) h = refl
until_nul-padded (suc n) m (c ∷ u) (h, k) = ground (arith, until_nul-padded n m u k)

drop-front : (xs ys : List ℕ) (n : ℕ) → n ≡ length xs → drop n (xs ++ ys) ≡ ys
drop-front [] [] zero h = refl
drop-front [] (y ∷ ys) zero h = refl
drop-front [] ys (suc n) h = absurd (omega arith)
drop-front (x ∷ xs) ys zero h = absurd (omega arith)
drop-front (x ∷ xs) ys (suc n) h = drop-front xs ys n (omega arith)

-- `setName` with any string, on a buffer whose name has 16 bytes with '\0' as the last, leaves such a name, and
-- `getName` then gives the first 15 characters of the string up to its '\0': no more than 15, and no '\0' among them.
pub get_name-set_name :
    (s : List ℕ) (b : ThreadBuffer)
    → IsNamed b
    → IsNamed (set_name s b)
      × (get_name (set_name s b) ≡ take 15 (until_nul s))
      × (length (get_name (set_name s b)) ≤ 15)
      × NoNul (get_name (set_name s b))
unfolding set_name get_name
get_name-set_name s b (long, last) =
    let u = until_nul s in
    let front = take 15 (u ++ replicate 15 0) in
    let lf = length-take 15 (u ++ replicate 15 0) in
    let la = length-append u (replicate 15 0) in
    let lr = length-replicate {A = ℕ} 15 0 in
    let sized : length front ≡ 15 = omega arith in
    let whole : overwrite b.name 0 front ≡ front ++ (0 ∷ []) =
      overwrite-first b.name front (omega arith)
      ∙ ap (λ n. front ++ drop n b.name) sized
      ∙ ap (λ z. front ++ z) last in
    let name : until_nul (overwrite b.name 0 front) ≡ take 15 u =
      ap until_nul whole ∙ until_nul-padded 15 15 u (until_nul-NoNul s) in
    (
      (
        ap length whole ∙ length-append front (0 ∷ []) ∙ omega arith,
        ap (drop 15) whole ∙ drop-front front (0 ∷ []) 15 (sym sized),
      ),
      name,
      omega (arith, ap length name, length-take 15 u),
      rw name (take-NoNul 15 u (until_nul-NoNul s)),
    )
