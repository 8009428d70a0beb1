-- ===== src/Convert/Layout.antt =====
-- What one converted argument looks like, as a text: `layout`; and that `emit` writes it.
use constexpr_fmt_str.Prelude.{
  ℕ, zero, suc, ◌-◌, ◌≤◌, ◌≡◌, Bool, true, not, ◌&&◌, some, List, [], ◌∷◌, ◌++◌, arith, length,
  take, drop, replicate, ltb, ◌==◌, if◌then◌else◌, length-drop, take-all,
}
use constexpr_fmt_str.Prelude.Int.{ℤ, pos, pos_part, ◌-ℤ◌}
use constexpr_fmt_str.Outbuf.{Outbuf, write}
use constexpr_fmt_str.Outbuf.Holds.{Holds}
use constexpr_fmt_str.Convert.Text.{Field}
use constexpr_fmt_str.Convert.Float.{find_back, exponent_start, is_f}
use constexpr_fmt_str.Convert.Emit.{
  is_integer, is_real, has_sign, real_size, pads_in_int, precision_zeros, cut_at, emit_text, emit,
}
use constexpr_fmt_str.Convert.Appends.{
  Appends, bind-Appends, when-Appends, blanks-Appends, zeros-Appends, char-Appends, write-Appends,
}

abbrev only_if : Bool → List ℕ → List ℕ
only_if b s = if b then s else []

-- the sign character, if one is shown
abbrev pub sign_text : ℕ → Field → List ℕ
sign_text t f = only_if (has_sign t && not (f.sign == 0)) (f.sign ∷ [])

-- the converted text, with the zeros of `fpprec` at `cut`
abbrev pub body_text : ℕ → Field → ℕ → List ℕ
body_text t f cut =
    take cut f.text
    ++ (only_if (is_real t) (replicate f.fpprec b'0')
        ++ only_if (is_real t && not (is_f t) && ltb 0 f.fpprec) (drop cut f.text))

-- blanks, sign, zeros of the width, zeros of the precision, text, blanks
abbrev pub layout : ℕ → ℤ → Field → ℕ → List ℕ
layout t width f cut =
    let pad = pos_part (width -ℤ real_size t f) in
    only_if (not f.flags.zeropad && not f.flags.ladjust) (replicate pad b' ')
    ++ (sign_text t f
        ++ (only_if (f.flags.zeropad && not f.flags.ladjust) (replicate pad b'0')
            ++ (only_if (is_integer t) (replicate (pos_part (precision_zeros f)) b'0')
                ++ (body_text t f cut ++ only_if f.flags.ladjust (replicate pad b' ')))))

find_back-inside : (c : ℕ) (text : List ℕ) (p k : ℕ) → find_back c text p ≡ some k → k ≤ p
unfolding find_back
find_back-inside c text zero k e = ground arith
find_back-inside c text (suc p) k e = ground (arith, find_back-inside c text p k)

pub cut_at-inside : (t : ℕ) (f : Field) (cut : ℕ) → cut_at t f ≡ some cut → cut ≤ length f.text
unfolding cut_at exponent_start
cut_at-inside t f cut e = ground (
  arith,
  find_back-inside b'e' f.text (length f.text - 2) cut,
  find_back-inside b'p' f.text (length f.text - 2) cut,
)

drop-Appends : (s : List ℕ) (n : ℕ) → Appends (λ o. write o (drop n s) (length s - n)) (drop n s)
drop-Appends s n size o t h =
    let e : take (length s - n) (drop n s) ≡ drop n s =
      take-all (length s - n) (drop n s) (omega (arith, length-drop n s)) in
    let (o', r, h') =
      write-Appends (drop n s) (length s - n) (omega (arith, length-drop n s)) size o t h in
    (o', r, rw (← e) h')

emit_text-Appends :
    (t : ℕ) (f : Field) (cut : ℕ)
    → cut_at t f ≡ some cut
    → Appends (emit_text t f) (body_text t f cut)
unfolding emit_text
emit_text-Appends t f cut e = rw e (
    bind-Appends (write-Appends f.text cut (cut_at-inside t f cut e)) (
      bind-Appends (when-Appends (is_real t) (zeros-Appends (pos f.fpprec)))
        (when-Appends (is_real t && not (is_f t) && ltb 0 f.fpprec) (drop-Appends f.text cut))))

emit-Appends :
    (t : ℕ) (width : ℤ) (f : Field) (cut : ℕ)
    → pads_in_int t width f ≡ true
    → cut_at t f ≡ some cut
    → Appends (emit t width f) (layout t width f cut)
unfolding emit
emit-Appends t width f cut in_range e =
    let pad = width -ℤ real_size t f in
    rw in_range (
      bind-Appends (when-Appends (not f.flags.zeropad && not f.flags.ladjust) (blanks-Appends pad))
        (bind-Appends (when-Appends (has_sign t && not (f.sign == 0)) (char-Appends f.sign)) (
          bind-Appends (when-Appends (f.flags.zeropad && not f.flags.ladjust) (zeros-Appends pad)) (
            bind-Appends (when-Appends (is_integer t) (zeros-Appends (precision_zeros f))) (
              bind-Appends (emit_text-Appends t f cut e)
                (when-Appends f.flags.ladjust (blanks-Appends pad)))))))

-- Where the width, `realsz` and the padding are values of an `int`, the end of `converter_single` writes a converted
-- argument as its layout, whatever fits of it.
pub emit-Holds :
    (t : ℕ) (width : ℤ) (f : Field) (cut : ℕ) {size : ℕ} (o : Outbuf) (text : List ℕ)
    → pads_in_int t width f ≡ true
    → cut_at t f ≡ some cut
    → Holds size o text
    → (o' : Outbuf) × (emit t width f o ≡ some o') × Holds size o' (text ++ layout t width f cut)
emit-Holds t width f cut {size} o text in_range e h =
    emit-Appends t width f cut in_range e size o text h
