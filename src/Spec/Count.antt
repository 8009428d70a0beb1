-- ===== src/Spec/Count.antt =====
-- `countValidSpecInfos` and `squeezeSoundSize` against the reference grammar.
use constexpr_fmt_str.Prelude.{
  ℕ, zero, suc, ◌+◌, ◌-◌, ◌<◌, none, some, List, [], ◌∷◌, ◌++◌, ◌≡◌, refl, ap, ◌∙◌, arith, length,
  length-append, false,
}
use constexpr_fmt_str.Spec.{is_terminal, skip_plain}
use constexpr_fmt_str.Spec.Scan.{
  count_loop, count_valid_spec_infos, squeeze_loop, squeeze_sound_size,
}
use constexpr_fmt_str.Spec.Pieces.{
  Piece, plain_char, valid, faulty, Tail, source, squeezed, count_valid, IsFormat, NoNul, parts,
  skip_inside-stop, skip_inside-end, skip_plain-char, skip_plain-percent,
}

pub is_terminal-nul : is_terminal 0 ≡ false
unfolding is_terminal
is_terminal-nul = refl

count_loop-source :
    (fuel p : ℕ) (ps : List Piece) (t : Tail) (n : ℕ)
    → IsFormat ps t
    → length (source ps t) < fuel
    → count_loop fuel p (source ps t) n ≡ some (n + count_valid ps)
unfolding count_loop
count_loop-source zero p ps t n f h = elim h [ ]
count_loop-source (suc fuel) p [] none n f h = unfold skip_plain in ground arith
count_loop-source (suc fuel) p [] (some body) n f h =
    ground (arith, skip_plain-percent p body, skip_inside-end (p + 1) body f, is_terminal-nul)
count_loop-source (suc fuel) p (plain_char c ∷ ps) t n f h =
    ground (arith, skip_plain-char p c (source ps t), count_loop-source (suc fuel) (p + 1) ps t n)
count_loop-source (suc fuel) p (valid body c ∷ ps) t n f h = ground (
  arith,
  skip_plain-percent p (body ++ (c ∷ source ps t)),
  skip_inside-stop (p + 1) body c (source ps t),
  length-append body (c ∷ source ps t),
  count_loop-source fuel (p + 1 + length body + 1) ps t (n + 1),
)
count_loop-source (suc fuel) p (faulty body c ∷ ps) t n f h = ground (
  arith,
  skip_plain-percent p (body ++ (c ∷ source ps t)),
  skip_inside-stop (p + 1) body c (source ps t),
  length-append body (c ∷ source ps t),
  count_loop-source fuel (p + 1 + length body + 1) ps t n,
)

-- `countValidSpecInfos` terminates on every format string, and counts its valid specifiers.
pub count_valid_spec_infos-source :
    (ps : List Piece) (t : Tail)
    → IsFormat ps t
    → count_valid_spec_infos (source ps t) ≡ some (count_valid ps)
unfolding count_valid_spec_infos
count_valid_spec_infos-source ps t f =
    count_loop-source (length (source ps t) + 1) 0 ps t 0 f (omega arith) ∙ ap some (omega arith)

-- the characters that squeezing leaves out
abbrev pub dropped : List Piece → Tail → ℕ
dropped [] none = 0
dropped [] (some body) = suc (length body)
dropped (plain_char c ∷ ps) t = dropped ps t
dropped (valid body c ∷ ps) t = dropped ps t
dropped (faulty body c ∷ ps) t = suc (length body) + dropped ps t

length-source :
    (ps : List Piece) (t : Tail) → length (source ps t) ≡ length (squeezed ps) + dropped ps t
length-source [] none = omega arith
length-source [] (some body) = omega arith
length-source (plain_char c ∷ ps) t = omega (arith, length-source ps t)
length-source (valid body c ∷ ps) t = omega (
  arith,
  length-source ps t,
  length-append body (c ∷ source ps t),
  length-append body (c ∷ squeezed ps),
)
length-source (faulty body c ∷ ps) t =
    omega (arith, length-source ps t, length-append body (c ∷ source ps t))

squeeze_loop-source :
    (fuel p : ℕ) (ps : List Piece) (t : Tail) (size k : ℕ)
    → IsFormat ps t
    → size ≡ k + dropped ps t
    → length (source ps t) < fuel
    → squeeze_loop fuel p (source ps t) size ≡ some k
unfolding squeeze_loop
squeeze_loop-source zero p ps t size k f e h = elim h [ ]
squeeze_loop-source (suc fuel) p [] none size k f e h = unfold skip_plain in ground arith
squeeze_loop-source (suc fuel) p [] (some body) size k f e h =
    ground (arith, skip_plain-percent p body, skip_inside-end (p + 1) body f, is_terminal-nul)
squeeze_loop-source (suc fuel) p (plain_char c ∷ ps) t size k f e h =
    ground
      (arith, skip_plain-char p c (source ps t), squeeze_loop-source (suc fuel) (p + 1) ps t size k)
squeeze_loop-source (suc fuel) p (valid body c ∷ ps) t size k f e h = ground (
  arith,
  skip_plain-percent p (body ++ (c ∷ source ps t)),
  skip_inside-stop (p + 1) body c (source ps t),
  length-append body (c ∷ source ps t),
  squeeze_loop-source fuel (p + 1 + length body + 1) ps t size k,
)
squeeze_loop-source (suc fuel) p (faulty body c ∷ ps) t size k f e h = ground (
  arith,
  skip_plain-percent p (body ++ (c ∷ source ps t)),
  skip_inside-stop (p + 1) body c (source ps t),
  length-append body (c ∷ source ps t),
  squeeze_loop-source fuel (p + 1 + length body + 1) ps t (size - suc (length body)) k,
)

-- `squeezeSoundSize` is the size of the string without its faulty specifiers, with the '\0'.
pub squeeze_sound_size-source :
    (ps : List Piece) (t : Tail)
    → IsFormat ps t
    → squeeze_sound_size (source ps t) ≡ some (length (squeezed ps) + 1)
unfolding squeeze_sound_size
squeeze_sound_size-source ps t f =
    squeeze_loop-source (length (source ps t) + 1) 0 ps t (length (source ps t) + 1)
      (length (squeezed ps) + 1) f (omega (arith, length-source ps t)) (omega arith)

-- Every string without '\0' is the source of a format, and `countValidSpecInfos` and `squeezeSoundSize`
-- return its number of valid specifiers and the size of its squeezed string.
pub scan-NoNul :
    (s : List ℕ)
    → NoNul s
    → (ps : List Piece) × (t : Tail) × IsFormat ps t
      × (source ps t ≡ s)
      × (count_valid_spec_infos s ≡ some (count_valid ps))
      × (squeeze_sound_size s ≡ some (length (squeezed ps) + 1))
scan-NoNul s h =
    let (ps, t, f, e) = parts s h in
    (
      ps,
      t,
      f,
      e,
      rw (← e) (count_valid_spec_infos-source ps t f),
      rw (← e) (squeeze_sound_size-source ps t f),
    )
