-- ===== src/Spec/Pieces.antt =====
-- The reference grammar of format strings: plain characters, valid specifiers, and faulty ones, which
-- the library drops but for their last character ("%%" is the faulty specifier that leaves '%').
use constexpr_fmt_str.Prelude.{
  ℕ, suc, ◌+◌, ◌*◌, ◌^◌, ◌<◌, if◌then◌else◌, true, false, Option, none, some, List, [], ◌∷◌, ◌++◌,
  ◌==◌, ◌≡◌, ◌≢◌, refl, ap, sym, append_assoc, append-nil, length, arith, Bool-cases, inl, inr,
  ==→eq, ==→ne,
}
use constexpr_fmt_str.Spec.{is_terminal, is_inside, is_digit, to_digit, skip_plain, skip_inside}

pub data Piece : Type 0 where
  plain_char : ℕ → Piece
  valid faulty : List ℕ → ℕ → Piece

-- what may follow the pieces: a '%' whose specifier the end of the string cuts off
abbrev pub Tail : Type 0
Tail = Option (List ℕ)

abbrev pub tail_source : Tail → List ℕ
tail_source none = []
tail_source (some body) = b'%' ∷ body

abbrev pub source : List Piece → Tail → List ℕ
source [] t = tail_source t
source (plain_char c ∷ ps) t = c ∷ source ps t
source (valid body c ∷ ps) t = b'%' ∷ (body ++ (c ∷ source ps t))
source (faulty body c ∷ ps) t = b'%' ∷ (body ++ (c ∷ source ps t))

-- the string without its faulty specifiers
abbrev pub squeezed : List Piece → List ℕ
squeezed [] = []
squeezed (plain_char c ∷ ps) = c ∷ squeezed ps
squeezed (valid body c ∷ ps) = b'%' ∷ (body ++ (c ∷ squeezed ps))
squeezed (faulty body c ∷ ps) = c ∷ squeezed ps

abbrev pub count_valid : List Piece → ℕ
count_valid [] = 0
count_valid (plain_char c ∷ ps) = count_valid ps
count_valid (valid body c ∷ ps) = suc (count_valid ps)
count_valid (faulty body c ∷ ps) = count_valid ps

abbrev pub AllInside : List ℕ → Type 0
AllInside [] = Unit
AllInside (c ∷ r) = (is_inside c ≡ true) × AllInside r

abbrev pub IsPiece : Piece → Type 0
IsPiece (plain_char c) = (c ≢ 0) × (c ≢ b'%')
IsPiece (valid body c) = AllInside body × (is_inside c ≡ false) × (is_terminal c ≡ true) × (c ≢ 0)
IsPiece (faulty body c) = AllInside body × (is_inside c ≡ false) × (is_terminal c ≡ false) × (c ≢ 0)

abbrev pub IsTail : Tail → Type 0
IsTail none = Unit
IsTail (some body) = AllInside body

abbrev pub IsFormat : List Piece → Tail → Type 0
IsFormat [] t = IsTail t
IsFormat (p ∷ ps) t = IsPiece p × IsFormat ps t

abbrev pub NoNul : List ℕ → Type 0
NoNul [] = Unit
NoNul (c ∷ r) = (c ≢ 0) × NoNul r

-- the number that the digits at the start of a text go on with from `n`
abbrev pub leading : ℕ → List ℕ → ℕ
leading n [] = n
leading n (c ∷ r) = let rest = leading (10 * n + to_digit c) r in if is_digit c then rest else n

-- every number inside a specifier is a value of an `int`
abbrev pub NumbersFit : List ℕ → Type 0
NumbersFit [] = Unit
NumbersFit (c ∷ r) = (leading 0 (c ∷ r) < 2 ^ 31) × NumbersFit r

abbrev pub AllFit : List Piece → Type 0
AllFit [] = Unit
AllFit (plain_char c ∷ ps) = AllFit ps
AllFit (valid body c ∷ ps) = NumbersFit body × AllFit ps
AllFit (faulty body c ∷ ps) = AllFit ps

pub AllInside-append : (xs ys : List ℕ) → AllInside xs → AllInside ys → AllInside (xs ++ ys)
AllInside-append [] ys hx hy = hy
AllInside-append (x ∷ xs) ys hx hy = (hx.0, AllInside-append xs ys hx.1 hy)

-- the two ways in which a loop over the inside of a specifier ends
pub skip_inside-stop :
    (p : ℕ) (body : List ℕ) (c : ℕ) (r : List ℕ)
    → AllInside body
    → is_inside c ≡ false
    → skip_inside p (body ++ (c ∷ r)) ≡ (p + length body, c ∷ r)
unfolding skip_inside
skip_inside-stop p [] c r h e = ground arith
skip_inside-stop p (b ∷ body) c r h e = ground (arith, skip_inside-stop (p + 1) body c r h.1 e)

pub skip_inside-end :
    (p : ℕ) (body : List ℕ) → AllInside body → skip_inside p body ≡ (p + length body, [])
unfolding skip_inside
skip_inside-end p [] h = ground arith
skip_inside-end p (b ∷ body) h = ground (arith, skip_inside-end (p + 1) body h.1)

pub skip_plain-char :
    (p c : ℕ) (r : List ℕ) → c ≢ 0 → c ≢ b'%' → skip_plain p (c ∷ r) ≡ skip_plain (p + 1) r
unfolding skip_plain
skip_plain-char p c r h k = ground arith

pub skip_plain-percent : (p : ℕ) (r : List ℕ) → skip_plain p (b'%' ∷ r) ≡ (p, b'%' ∷ r)
unfolding skip_plain
skip_plain-percent p r = refl

-- a format string taken apart
abbrev pub Parts : List ℕ → Type 0
Parts s = (ps : List Piece) × (t : Tail) × IsFormat ps t × (source ps t ≡ s)

plain_Parts : (c : ℕ) {r : List ℕ} → c ≢ 0 → c ≢ b'%' → Parts r → Parts (c ∷ r)
plain_Parts c h k (ps, t, f, e) = (plain_char c ∷ ps, t, ((h, k), f), ap (λ zs. c ∷ zs) e)

percent_Parts : (c : ℕ) {r : List ℕ} → c ≡ b'%' → Parts (b'%' ∷ r) → Parts (c ∷ r)
percent_Parts c e d = rw e d

-- the end of a specifier, by the class of the character that ends it
close_Parts :
    (body : List ℕ) (c : ℕ) {r : List ℕ}
    → AllInside body
    → is_inside c ≡ false
    → c ≢ 0
    → Parts r
    → Parts (b'%' ∷ (body ++ (c ∷ r)))
close_Parts body c b i h (ps, t, f, e) = elim (Bool-cases (is_terminal c)) [
  | inl ends ↦ (valid body c ∷ ps, t, ((b, i, ends, h), f), ap (λ zs. b'%' ∷ (body ++ (c ∷ zs))) e)
  | inr no_end ↦
      (faulty body c ∷ ps, t, ((b, i, no_end, h), f), ap (λ zs. b'%' ∷ (body ++ (c ∷ zs))) e)
]

grow_Parts :
    (body : List ℕ) (c : ℕ) (r : List ℕ)
    → Parts (b'%' ∷ ((body ++ c ∷ []) ++ r))
    → Parts (b'%' ∷ (body ++ (c ∷ r)))
grow_Parts body c r d = rw (append_assoc body (c ∷ []) r) at d

mutual
  pub parts : (s : List ℕ) → NoNul s → Parts s
  parts [] h = ([], none, tt, refl)
  parts (c ∷ r) h = elim (Bool-cases (c == b'%')) [
    | inl percent ↦ percent_Parts c (==→eq c b'%' percent) (inside-Parts r [] tt h.1)
    | inr other ↦ plain_Parts c h.0 (==→ne c b'%' other) (parts r h.1)
  ]

  inside-Parts :
      (r : List ℕ) (body : List ℕ) → AllInside body → NoNul r → Parts (b'%' ∷ (body ++ r))
  inside-Parts [] body b h = ([], some body, b, ap (λ zs. b'%' ∷ zs) (sym (append-nil body)))
  inside-Parts (c ∷ r) body b h = elim (Bool-cases (is_inside c)) [
    | inl more ↦
        grow_Parts body c r
          (inside-Parts r (body ++ c ∷ []) (AllInside-append body (c ∷ []) b (more, tt)) h.1)
    | inr stop ↦ close_Parts body c b stop h.0 (parts r h.1)
  ]
