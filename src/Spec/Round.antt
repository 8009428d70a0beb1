-- ===== src/Spec/Round.antt =====
-- One round of the `switch` of `getOneSpec`: what it takes of a specifier, and that it reads no further than its last
-- letter.
use constexpr_fmt_str.Prelude.{
  ℕ, ◌+◌, ◌*◌, ◌≤◌, ◌<◌, Bool, true, false, Option, none, some, List, [], ◌∷◌, ◌++◌, ◌≡◌, refl,
  arith, length, ◌==◌, ◌^◌,
}
use constexpr_fmt_str.Spec.{
  Fields, is_terminal, is_inside, is_digit, to_digit, read_number, double_letter, read_precision,
  switch_char,
}
use constexpr_fmt_str.Spec.Pieces.{AllInside, leading, NumbersFit}

-- the letters that can end a specifier are not looked for inside it
pub record IsEnd (c : ℕ) : Type 0 where
  pub no_digit : is_digit c ≡ false
  pub no_star : (c == b'*') ≡ false
  pub no_h : (c == b'h') ≡ false
  pub no_l : (c == b'l') ≡ false

pub is_terminal-IsEnd : (c : ℕ) → is_terminal c ≡ true → IsEnd c
unfolding is_terminal is_digit
is_terminal-IsEnd c h = ground arith

module _ (c : ℕ) (rest : List ℕ) (e : IsEnd c) where
  -- the same with the specifier's last letter and what stands behind it
  abbrev more_left : {A : Type 0} → Option (A × List ℕ) → Option (A × List ℕ)
  more_left none = none
  more_left (some (a, r)) = some (a, r ++ (c ∷ rest))

  read_number-append :
      (n : ℕ) (body : List ℕ) → read_number n (body ++ (c ∷ rest)) ≡ more_left (read_number n body)
  unfolding read_number
  read_number-append n [] = ground (arith, e.no_digit)
  read_number-append n (b ∷ body) = ground (arith, read_number-append (10 * n + to_digit b) body)

  double_letter-append :
      (letter : ℕ) (body : List ℕ)
      → (c == letter) ≡ false
      → double_letter letter (body ++ (c ∷ rest))
        ≡ ((double_letter letter body).0, (double_letter letter body).1 ++ (c ∷ rest))
  unfolding double_letter
  double_letter-append letter [] h = ground arith
  double_letter-append letter (b ∷ body) h = ground arith

  read_precision-append :
      (s : Fields) (body : List ℕ)
      → read_precision s (body ++ (c ∷ rest)) ≡ more_left (read_precision s body)
  unfolding read_precision
  read_precision-append s [] = unfold read_number in ground (arith, e.no_star, e.no_digit)
  read_precision-append s (b ∷ body) = ground (arith, read_number-append 0 (b ∷ body))

  -- one round sees nothing behind the specifier's last letter
  abbrev pub more : Option (Fields × List ℕ × Bool) → Option (Fields × List ℕ × Bool)
  more none = none
  more (some (s, r, x)) = some (s, r ++ (c ∷ rest), x)

  pub switch_char-append :
      (s : Fields) (b : ℕ) (body : List ℕ)
      → switch_char s b (body ++ (c ∷ rest)) ≡ more (switch_char s b body)
  unfolding switch_char
  switch_char-append s b body = ground (
    arith,
    read_precision-append s body,
    read_number-append 0 (b ∷ body),
    double_letter-append b'h' body,
    double_letter-append b'l' body,
  )

-- what is left is inside the specifier
abbrev Stays : {A : Type 0} → Option (A × List ℕ) → List ℕ → Type 0
Stays none body = Unit
Stays (some (a, r)) body = AllInside r × (length r ≤ length body)

-- there is a result, and the numbers in what is left fit
abbrev Fits : {A : Type 0} → Option (A × List ℕ) → Type 0
Fits none = ⊥
Fits (some (a, r)) = NumbersFit r

read_number-Stays : (n : ℕ) (body : List ℕ) → AllInside body → Stays (read_number n body) body
unfolding read_number
read_number-Stays n [] h = (tt, omega arith)
read_number-Stays n (b ∷ body) h = ground (arith, read_number-Stays (10 * n + to_digit b) body h.1)

leading-le : (n : ℕ) (body : List ℕ) → n ≤ leading n body
leading-le n [] = omega arith
leading-le n (b ∷ body) = ground (arith, leading-le (10 * n + to_digit b) body)

read_number-Fits :
    (n : ℕ) (body : List ℕ) → leading n body < 2 ^ 31 → NumbersFit body → Fits (read_number n body)
unfolding read_number
read_number-Fits n [] l h = tt
read_number-Fits n (b ∷ body) l h =
    ground
      (arith, leading-le (10 * n + to_digit b) body, read_number-Fits (10 * n + to_digit b) body)

double_letter-stays :
    (letter : ℕ) (body : List ℕ)
    → AllInside body
    → AllInside (double_letter letter body).1 × (length (double_letter letter body).1 ≤ length body)
unfolding double_letter
double_letter-stays letter [] h = (tt, omega arith)
double_letter-stays letter (b ∷ body) h = ground arith

double_letter-fits :
    (letter : ℕ) (body : List ℕ) → NumbersFit body → NumbersFit (double_letter letter body).1
unfolding double_letter
double_letter-fits letter [] h = tt
double_letter-fits letter (b ∷ body) h = ground arith

read_precision-Stays :
    (s : Fields) (body : List ℕ) → AllInside body → Stays (read_precision s body) body
unfolding read_precision
read_precision-Stays s [] h = (tt, omega arith)
read_precision-Stays s (b ∷ body) h = ground (arith, read_number-Stays 0 (b ∷ body) h)

read_precision-Fits : (s : Fields) (body : List ℕ) → NumbersFit body → Fits (read_precision s body)
unfolding read_precision
read_precision-Fits s [] h = tt
read_precision-Fits s (b ∷ body) h = ground (arith, read_number-Fits 0 (b ∷ body) h.0 h)

-- a round on a character inside a specifier goes on, with less to read
abbrev pub GoesOn : Option (Fields × List ℕ × Bool) → List ℕ → Type 0
GoesOn none body = Unit
GoesOn (some (s, r, x)) body = (x ≡ false) × AllInside r × (length r ≤ length body)

abbrev pub FitsOn : Option (Fields × List ℕ × Bool) → Type 0
FitsOn none = ⊥
FitsOn (some (s, r, x)) = NumbersFit r

-- a number that starts with a digit is read past that digit
read_number-digit :
    (b : ℕ) (body : List ℕ)
    → is_digit b ≡ true
    → read_number 0 (b ∷ body) ≡ read_number (10 * 0 + to_digit b) body
unfolding read_number is_digit to_digit
read_number-digit b body h = ground arith

pub switch_char-GoesOn :
    (s : Fields) (b : ℕ) (body : List ℕ)
    → is_inside b ≡ true
    → AllInside body
    → GoesOn (switch_char s b body) body
unfolding switch_char is_inside
switch_char-GoesOn s b body i h = ground (
  arith,
  read_number-digit b body,
  read_number-Stays (10 * 0 + to_digit b) body h,
  read_precision-Stays s body h,
  double_letter-stays b'h' body h,
  double_letter-stays b'l' body h,
)

pub switch_char-FitsOn :
    (s : Fields) (b : ℕ) (body : List ℕ)
    → is_inside b ≡ true
    → NumbersFit (b ∷ body)
    → FitsOn (switch_char s b body)
unfolding switch_char is_inside
switch_char-FitsOn s b body i h = ground (
  arith,
  read_number-Fits 0 (b ∷ body) h.0 h,
  read_precision-Fits s body h.1,
  double_letter-fits b'h' body h.1,
  double_letter-fits b'l' body h.1,
)

pub switch_char-end :
    (s : Fields) (c : ℕ) (r : List ℕ)
    → is_terminal c ≡ true
    → switch_char s c r ≡ some (record s { terminal = c }, r, true)
unfolding switch_char is_terminal
switch_char-end s c r h = ground arith

pub GoesOn-some :
    (o : Option (Fields × List ℕ × Bool)) (body : List ℕ)
    → GoesOn o body
    → FitsOn o
    → (s : Fields) × (r : List ℕ) × (o ≡ some (s, r, false))
      × AllInside r
      × NumbersFit r
      × (length r ≤ length body)
GoesOn-some none body g fits = absurd fits
GoesOn-some (some (s, r, false)) body g fits = (s, r, refl, g.1, fits, g.2)
GoesOn-some (some (s, r, true)) body g fits = cc g.0
