-- ===== src/Convert/Width.antt =====
-- The width and the precision of a converted argument: how long its layout is.
use constexpr_fmt_str.Prelude.{
  ℕ, ◌+◌, ◌-◌, ◌^◌, ◌≤◌, ◌<◌, max, ◌≡◌, refl, Bool, true, false, not, ◌&&◌, some, List, [], arith,
  length, ltb, ◌==◌, if◌then◌else◌, length-take, length-drop, length-append, length-replicate,
  Bool-cases, inl, inr,
}
use constexpr_fmt_str.Prelude.Int.{ℤ, pos_part, neg_part, ◌-ℤ◌}
use constexpr_fmt_str.Convert.Args.{size_of_int, int_of}
use constexpr_fmt_str.Convert.Text.{Field}
use constexpr_fmt_str.Convert.Float.{is_f, is_e, is_a, is_g}
use constexpr_fmt_str.Convert.Emit.{
  is_integer, is_real, has_sign, real_size, precision_zeros, cut_at,
}
use constexpr_fmt_str.Convert.Layout.{layout, body_text, cut_at-inside}

precision_zeros-count :
    (f : Field)
    → neg_part f.prec ≤ 1
    → pos_part f.prec < 2 ^ 31
    → length f.text < 2 ^ 31
    → pos_part (precision_zeros f) ≡ pos_part f.prec - length f.text
unfolding precision_zeros size_of_int int_of
precision_zeros-count f n p l = ground arith

length-only_if :
    (b : Bool) (s : List ℕ) → length (if b then s else []) ≡ (if b then length s else 0)
length-only_if true s = refl
length-only_if false s = refl

cut_at-end :
    (t : ℕ) (f : Field) (cut : ℕ)
    → cut_at t f ≡ some cut
    → (is_real t && not (is_f t) && ltb 0 f.fpprec) ≡ false
    → cut ≡ length f.text
unfolding is_real is_f is_e is_a is_g cut_at
cut_at-end t f cut e h = ground arith

length-body_text :
    (t : ℕ) (f : Field) (cut : ℕ)
    → cut_at t f ≡ some cut
    → length (body_text t f cut) ≡ length f.text + (if is_real t then f.fpprec else 0)
length-body_text t f cut e =
    simp
      (
        length-append,
        length-only_if,
        length-take {A = ℕ},
        length-drop {A = ℕ},
        length-replicate {A = ℕ},
      )
      (ground (arith, cut_at-inside t f cut e, cut_at-end t f cut e))

length-parts :
    (t : ℕ) (width : ℤ) (f : Field) (cut : ℕ)
    → (let pad = pos_part (width -ℤ real_size t f) in
        length (layout t width f cut)
        ≡ (if not f.flags.zeropad && not f.flags.ladjust then pad else 0)
          + ((if has_sign t && not (f.sign == 0) then 1 else 0)
              + ((if f.flags.zeropad && not f.flags.ladjust then pad else 0)
                  + ((if is_integer t then pos_part (precision_zeros f) else 0)
                      + (length (body_text t f cut) + (if f.flags.ladjust then pad else 0))))))
length-parts t width f cut = simp (length-append, length-only_if, length-replicate {A = ℕ}) refl

integer-not_real : (t : ℕ) → is_integer t ≡ true → is_real t ≡ false
unfolding is_integer is_real is_f is_e is_a is_g
integer-not_real t h = ground arith

real_size-parts :
    (t : ℕ) (f : Field) (cut : ℕ)
    → neg_part f.prec ≤ 1
    → pos_part f.prec < 2 ^ 31
    → length f.text + f.fpprec < 2 ^ 31
    → cut_at t f ≡ some cut
    → (if has_sign t && not (f.sign == 0) then 1 else 0)
        + (if is_integer t then pos_part (precision_zeros f) else 0)
        + length (body_text t f cut)
      ≡ pos_part (real_size t f)
unfolding real_size int_of
real_size-parts t f cut n p l e =
    rw (precision_zeros-count f n p (omega arith), length-body_text t f cut e)
      (ground (arith, integer-not_real t))

real_size-pos :
    (t : ℕ) (f : Field)
    → pos_part f.prec < 2 ^ 31
    → length f.text + f.fpprec < 2 ^ 31
    → neg_part (real_size t f) ≡ 0
unfolding real_size int_of
real_size-pos t f p l = ground arith

-- A field with a precision of at least -1, a precision below 2^31, and a text of fewer than 2^31 characters with the
-- zeros of a cut precision, is laid out in its width, or in the size of its text with its sign and zeros (`realsz`) if
-- that is more.
pub length-layout :
    (t : ℕ) (width : ℤ) (f : Field) (cut : ℕ)
    → neg_part f.prec ≤ 1
    → pos_part f.prec < 2 ^ 31
    → length f.text + f.fpprec < 2 ^ 31
    → cut_at t f ≡ some cut
    → length (layout t width f cut) ≡ max (pos_part width) (pos_part (real_size t f))
length-layout t width f cut n p l e =
    let parts = real_size-parts t f cut n p l e in
    let total = length-parts t width f cut in
    let wide = real_size-pos t f p l in
    elim (Bool-cases f.flags.ladjust) [
      | inl left ↦ ground (arith, parts, total, wide, left)
      | inr right ↦ elim (Bool-cases f.flags.zeropad) [
        | inl zero_padded ↦ ground (arith, parts, total, wide, right, zero_padded)
        | inr blank_padded ↦ ground (arith, parts, total, wide, right, blank_padded)
      ]
    ]
