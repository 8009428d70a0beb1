-- ===== src/Spec/Skip.antt =====
-- The loops of `getOneSpec` over the specifiers before the one it describes, and over the text before that.
use constexpr_fmt_str.Prelude.{
  ℕ, zero, suc, ◌+◌, ◌-◌, ◌≤◌, ◌<◌, Bool, true, false, none, some, List, [], ◌∷◌, ◌++◌, ◌≡◌, ◌≢◌,
  refl, arith, length, length-append, ◌==◌, if◌then◌else◌,
}
use constexpr_fmt_str.Spec.{skip_plain, find_percent}
use constexpr_fmt_str.Spec.Scan.{skip_specs, find_end}
use constexpr_fmt_str.Spec.Count.{is_terminal-nul}
use constexpr_fmt_str.Spec.Pieces.{
  AllFit, Piece, plain_char, valid, faulty, Tail, source, count_valid, IsFormat, skip_inside-stop,
  skip_inside-end, skip_plain-char, skip_plain-percent,
}

-- the pieces behind the first `num` valid specifiers
abbrev pub after : ℕ → List Piece → List Piece
after zero ps = ps
after (suc num) [] = []
after (suc num) (plain_char c ∷ ps) = after (suc num) ps
after (suc num) (faulty body c ∷ ps) = after (suc num) ps
after (suc num) (valid body c ∷ ps) = after num ps

-- where they start in the squeezed string
abbrev pub start_of : ℕ → List Piece → ℕ
start_of zero ps = 0
start_of (suc num) [] = 0
start_of (suc num) (plain_char c ∷ ps) = suc (start_of (suc num) ps)
start_of (suc num) (faulty body c ∷ ps) = suc (start_of (suc num) ps)
start_of (suc num) (valid body c ∷ ps) = suc (length body + suc (start_of num ps))

-- the plain text before the first valid specifier
abbrev pub text_of : List Piece → List ℕ
text_of [] = []
text_of (plain_char c ∷ ps) = c ∷ text_of ps
text_of (faulty body c ∷ ps) = c ∷ text_of ps
text_of (valid body c ∷ ps) = []

abbrev pub exit_of : List Piece → Bool
exit_of [] = true
exit_of (plain_char c ∷ ps) = exit_of ps
exit_of (faulty body c ∷ ps) = exit_of ps
exit_of (valid body c ∷ ps) = false

-- what stands behind the '%' of the first valid specifier
abbrev pub inside_of : List Piece → Tail → List ℕ
inside_of [] t = []
inside_of (plain_char c ∷ ps) t = inside_of ps t
inside_of (faulty body c ∷ ps) t = inside_of ps t
inside_of (valid body c ∷ ps) t = body ++ (c ∷ source ps t)

pub find_end-source :
    (fuel p : ℕ) (ps : List Piece) (t : Tail) (inv q e : ℕ)
    → IsFormat ps t
    → p ≡ q + inv
    → e ≡ q + length (text_of ps)
    → length (source ps t) < fuel
    → find_end fuel p (source ps t) inv ≡ some (e, exit_of ps, inside_of ps t)
unfolding find_end
find_end-source zero p ps t inv q e f a b h = elim h [ ]
find_end-source (suc fuel) p [] none inv q e f a b h = unfold skip_plain in ground arith
find_end-source (suc fuel) p [] (some body) inv q e f a b h =
    ground (arith, skip_plain-percent p body, skip_inside-end (p + 1) body f, is_terminal-nul)
find_end-source (suc fuel) p (plain_char c ∷ ps) t inv q e f a b h = ground (
  arith,
  skip_plain-char p c (source ps t),
  find_end-source (suc fuel) (p + 1) ps t inv (q + 1) e,
)
find_end-source (suc fuel) p (valid body c ∷ ps) t inv q e f a b h = ground (
  arith,
  skip_plain-percent p (body ++ (c ∷ source ps t)),
  skip_inside-stop (p + 1) body c (source ps t),
)
find_end-source (suc fuel) p (faulty body c ∷ ps) t inv q e f a b h = ground (
  arith,
  skip_plain-percent p (body ++ (c ∷ source ps t)),
  skip_inside-stop (p + 1) body c (source ps t),
  length-append body (c ∷ source ps t),
  find_end-source fuel (p + 1 + length body + 1) ps t (inv + suc (length body)) (q + 1) e,
)

-- the characters dropped on the way there
abbrev pub dropped_before : ℕ → List Piece → ℕ → ℕ
dropped_before zero ps inv = inv
dropped_before (suc num) [] inv = inv
dropped_before (suc num) (plain_char c ∷ ps) inv = dropped_before (suc num) ps inv
dropped_before (suc num) (faulty body c ∷ ps) inv =
    dropped_before (suc num) ps (inv + suc (length body))
dropped_before (suc num) (valid body c ∷ ps) inv = dropped_before num ps inv

-- `start_of` counted on from `q`
abbrev pub start_at : ℕ → List Piece → ℕ → ℕ
start_at zero ps q = q
start_at (suc num) [] q = q
start_at (suc num) (plain_char c ∷ ps) q = start_at (suc num) ps (q + 1)
start_at (suc num) (faulty body c ∷ ps) q = start_at (suc num) ps (q + 1)
start_at (suc num) (valid body c ∷ ps) q = start_at num ps (q + length body + 2)

pub start_at-start_of :
    (num : ℕ) (ps : List Piece) (q : ℕ) → start_at num ps q ≡ q + start_of num ps
start_at-start_of zero ps q = omega arith
start_at-start_of (suc num) [] q = omega arith
start_at-start_of (suc num) (plain_char c ∷ ps) q =
    omega (arith, start_at-start_of (suc num) ps (q + 1))
start_at-start_of (suc num) (faulty body c ∷ ps) q =
    omega (arith, start_at-start_of (suc num) ps (q + 1))
start_at-start_of (suc num) (valid body c ∷ ps) q =
    omega (arith, start_at-start_of num ps (q + length body + 2))

find_percent-char :
    (p c : ℕ) (r : List ℕ) → c ≢ b'%' → find_percent p (c ∷ r) ≡ find_percent (p + 1) r
unfolding find_percent
find_percent-char p c r h = ground arith

find_percent-percent : (p : ℕ) (r : List ℕ) → find_percent p (b'%' ∷ r) ≡ some (p, b'%' ∷ r)
unfolding find_percent
find_percent-percent p r = refl

pub skip_specs-source :
    (fuel num p : ℕ) (ps : List Piece) (t : Tail) (begin inv q : ℕ)
    → IsFormat ps t
    → p ≡ q + inv
    → num ≤ count_valid ps
    → length (source ps t) < fuel
    → skip_specs fuel num p (source ps t) begin inv
      ≡ some (
        start_at num ps q + dropped_before num ps inv,
        source (after num ps) t,
        if num == 0 then begin else start_at num ps q,
        dropped_before num ps inv,
      )
unfolding skip_specs
skip_specs-source zero num p ps t begin inv q f a n h = elim h [ ]
skip_specs-source (suc fuel) zero p ps t begin inv q f a n h = ground arith
skip_specs-source (suc fuel) (suc num) p [] t begin inv q f a n h = absurd (omega arith)
skip_specs-source (suc fuel) (suc num) p (plain_char c ∷ ps) t begin inv q f a n h = ground (
  arith,
  find_percent-char p c (source ps t),
  skip_specs-source (suc fuel) (suc num) (p + 1) ps t begin inv (q + 1),
)
skip_specs-source (suc fuel) (suc num) p (valid body c ∷ ps) t begin inv q f a n h = ground (
  arith,
  find_percent-percent p (body ++ (c ∷ source ps t)),
  skip_inside-stop (p + 1) body c (source ps t),
  length-append body (c ∷ source ps t),
  skip_specs-source fuel num (p + 1 + length body + 1) ps t
      (if num == 0 then p + 1 + length body + 1 - inv else begin) inv (q + length body + 2),
)
skip_specs-source (suc fuel) (suc num) p (faulty body c ∷ ps) t begin inv q f a n h = ground (
  arith,
  find_percent-percent p (body ++ (c ∷ source ps t)),
  skip_inside-stop (p + 1) body c (source ps t),
  length-append body (c ∷ source ps t),
  skip_specs-source fuel (suc num) (p + 1 + length body + 1) ps t begin (inv + suc (length body))
      (q + 1),
)

pub IsFormat-after :
    (num : ℕ) (ps : List Piece) (t : Tail) → IsFormat ps t → IsFormat (after num ps) t
IsFormat-after zero ps t f = f
IsFormat-after (suc num) [] t f = f
IsFormat-after (suc num) (plain_char c ∷ ps) t f = IsFormat-after (suc num) ps t f.1
IsFormat-after (suc num) (faulty body c ∷ ps) t f = IsFormat-after (suc num) ps t f.1
IsFormat-after (suc num) (valid body c ∷ ps) t f = IsFormat-after num ps t f.1

pub AllFit-after : (num : ℕ) (ps : List Piece) → AllFit ps → AllFit (after num ps)
AllFit-after zero ps f = f
AllFit-after (suc num) [] f = f
AllFit-after (suc num) (plain_char c ∷ ps) f = AllFit-after (suc num) ps f
AllFit-after (suc num) (faulty body c ∷ ps) f = AllFit-after (suc num) ps f
AllFit-after (suc num) (valid body c ∷ ps) f = AllFit-after num ps f.1

pub length-source-after :
    (num : ℕ) (ps : List Piece) (t : Tail) → length (source (after num ps) t) ≤ length (source ps t)
length-source-after zero ps t = omega arith
length-source-after (suc num) [] t = omega arith
length-source-after (suc num) (plain_char c ∷ ps) t =
    omega (arith, length-source-after (suc num) ps t)
length-source-after (suc num) (faulty body c ∷ ps) t =
    omega (arith, length-source-after (suc num) ps t, length-append body (c ∷ source ps t))
length-source-after (suc num) (valid body c ∷ ps) t =
    omega (arith, length-source-after num ps t, length-append body (c ∷ source ps t))
