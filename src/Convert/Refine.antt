-- ===== src/Convert/Refine.antt =====
-- The writers of the formatting against the text of `render`.
use constexpr_fmt_str.Prelude.{
  bind-some, ℕ, ◌-◌, ◌%◌, ◌≡◌, refl, ◌∙◌, ◌&&◌, ◌||◌, Option, some, List, [], ◌∷◌, ◌++◌, ltb, leb,
  if◌then◌else◌, ◌>>=◌, length, take, drop, codes, arith, Bool-cases, inl, inr, leb→le,
}
use constexpr_fmt_str.Prelude.Int.{ℤ}
use constexpr_fmt_str.Spec.{SpecInfo}
use constexpr_fmt_str.Outbuf.{Outbuf, size_mod, get_written_num}
use constexpr_fmt_str.Outbuf.Holds.{Holds}
use constexpr_fmt_str.Convert.Args.{Library, Arg}
use constexpr_fmt_str.Convert.Text.{Conversion, failed, store, field}
use constexpr_fmt_str.Convert.Emit.{pads_in_int, cut_at}
use constexpr_fmt_str.Convert.Appends.{write-Appends}
use constexpr_fmt_str.Convert.Layout.{layout, emit-Holds}
use constexpr_fmt_str.Convert.Format.{
  is_dynamic_width, is_dynamic_prec, resolve, convert, Store, write_between, finish,
  converter_single, converter_args, converter_d_args, converter_d_d_args, converter_impl, then_rest,
  Rest,
}
use constexpr_fmt_str.Convert.Render.{
  Rendered, render_between, render_field, render_single, take_args, render_impl,
}

-- where the text of `r` is defined, `m` succeeds on every buffer and holds that text
abbrev pub Refines : (Outbuf → Option (Outbuf × List Store)) → (List ℕ → Option Rendered) → Type 0
Refines m r =
    (size : ℕ) (o : Outbuf) (t t' : List ℕ) (stores : List Store)
    → Holds size o t
    → r t ≡ some (t', stores)
    → (o' : Outbuf) × (m o ≡ some (o', stores)) × Holds size o' t'

write_between-Holds :
    (rts : List ℕ) (s : SpecInfo) {size : ℕ} (o : Outbuf) (t t' : List ℕ)
    → Holds size o t
    → render_between rts s t ≡ some t'
    → (o' : Outbuf) × (write_between rts s o ≡ some o') × Holds size o' t'
write_between-Holds rts s {size} o t t' h e =
    elim (Bool-cases (leb (s.end - s.begin) (length (drop s.begin rts)))) [
      | inl inside ↦
          let (o', run, h') =
            write-Appends (drop s.begin rts) (s.end - s.begin)
              (leb→le (s.end - s.begin) (length (drop s.begin rts)) inside) size o t h in
          let same : t ++ take (s.end - s.begin) (drop s.begin rts) ≡ t' =
            ground (arith, inside, e) in
          (o', run, rw (← same) h')
      | inr outside ↦ ground (arith, e, outside)
    ]

module _ (lib : Library) where
  finish-Refines :
      (term : ℕ) (width : ℤ) (c : Conversion)
      → Refines (finish lib term width c) (render_field term width c)
  unfolding finish
  finish-Refines term width failed size o t t' stores h e =
      let (o', run, h') = write-Appends (codes "(ER)") 4 (omega arith) size o t h in
      let same : t ++ codes "(ER)" ≡ t' = cc e in (o', ground (arith, run, e), rw (← same) h')
  finish-Refines term width (store address bits value) size o t t' stores h e =
      let same : t ≡ t' = cc e in (o, ground (arith, e), rw (← same) h)
  finish-Refines term width (field f) size o t t' stores h e =
      elim (Bool-cases (pads_in_int term width f)) [
        | inl in_range ↦
            let (cut, c, e') =
              bind-some (cut_at term f) (λ cut. some (t ++ layout term width f cut, []))
                (t', stores) (rw in_range at e) in
            let (o', run, h') = emit-Holds term width f cut o t in_range c h in
            let same : t ++ layout term width f cut ≡ t' = cc e' in
            (o', ground (arith, run, e'), rw (← same) h')
        | inr overflow ↦ ground (arith, e, overflow)
      ]

  lead-Holds :
      (rts : List ℕ) (s : SpecInfo) {size : ℕ} (o : Outbuf) (t t' : List ℕ)
      → Holds size o t
      → (if ltb 0 (s.end - s.begin) then render_between rts s t else some t) ≡ some t'
      → (o' : Outbuf) × ((if ltb 0 (s.end - s.begin) then write_between rts s o else some o)
          ≡ some o')
        × Holds size o' t'
  lead-Holds rts s o t t' h e = elim (Bool-cases (ltb 0 (s.end - s.begin))) [
    | inl filled ↦
        let (o', run, h') = write_between-Holds rts s o t t' h (ground (arith, filled, e)) in
        (o', ground (arith, filled, run), h')
    | inr empty ↦
        let same : t ≡ t' = ground (arith, empty, e) in (o, ground (arith, empty), rw (← same) h)
  ]

  converter_single-Refines :
      (rts : List ℕ) (s : SpecInfo) (arg : Arg lib.Real) (w p : ℤ)
      → Refines (converter_single lib rts s arg w p) (render_single lib rts s arg w p)
  unfolding converter_single get_written_num
  converter_single-Refines rts s arg w p size o t t' stores h e =
      let (width, prec, flags) = resolve s w p in
      let (t1, lead, e1) =
        bind-some (if ltb 0 (s.end - s.begin) then render_between rts s t else some t) _
          (t', stores) e in
      let (c, conv, e2) =
        bind-some (convert lib s.terminal flags s.sign prec (length t1 % size_mod) arg) _
          (t', stores) e1 in
      let (o1, run, h1) = lead-Holds rts s o t t1 h lead in
      let (o2, run', h2) = finish-Refines s.terminal width c size o1 t1 t' stores h1 e2 in
      (o2, rw (run, h1.counted, conv) run', h2)

  -- the step of `converter_impl` on one specifier
  abbrev converter_step : List ℕ → SpecInfo → Rest lib → Rest lib
  converter_step rts s rest args o =
      if is_dynamic_width s && is_dynamic_prec s
      then converter_d_d_args lib rts s rest args o
      else if is_dynamic_width s || is_dynamic_prec s
      then converter_d_args lib rts s rest args o
      else converter_args lib rts s rest args o

  converter_step-take_args :
      (rts : List ℕ) (s : SpecInfo) (rest : Rest lib) (args args' : List (Arg lib.Real))
      (o : Outbuf) (w p : ℤ) (arg : Arg lib.Real)
      → take_args lib s args ≡ some (w, p, arg, args')
      → converter_step rts s rest args o
        ≡ then_rest lib (converter_single lib rts s arg w p o) rest args'
  unfolding converter_args converter_d_args converter_d_d_args
  converter_step-take_args rts s rest [] args' o w p arg e = ground (arith, e)
  converter_step-take_args rts s rest (a ∷ []) args' o w p arg e = ground (arith, e)
  converter_step-take_args rts s rest (a ∷ b ∷ []) args' o w p arg e = ground (arith, e)
  converter_step-take_args rts s rest (a ∷ b ∷ c ∷ args) args' o w p arg e = ground (arith, e)

  render_then : (List ℕ → Option Rendered) → (List ℕ → Option Rendered) → List ℕ → Option Rendered
  render_then r r' t =
      r t >>= λ (t1, stores). r' t1 >>= λ (t2, stores'). some (t2, stores ++ stores')

  then_rest-Refines :
      (m : Outbuf → Option (Outbuf × List Store)) (r r' : List ℕ → Option Rendered)
      (rest : Rest lib) (args : List (Arg lib.Real))
      → Refines m r
      → Refines (rest args) r'
      → Refines (λ o. then_rest lib (m o) rest args) (render_then r r')
  unfolding render_then
  then_rest-Refines m r r' rest args a a' size o t t' stores h e =
      let ((t1, st1), first, e1) = bind-some (r t) _ (t', stores) e in
      let ((t2, st2), second, e2) = bind-some (r' t1) _ (t', stores) e1 in
      let (o1, run, h1) = a size o t t1 st1 h first in
      let (o2, run', h2) = a' size o1 t1 t2 st2 h1 second in
      let same : t2 ≡ t' = cc e2 in
      let all : st1 ++ st2 ≡ stores = cc e2 in (o2, rw (run, run', all) refl, rw (← same) h2)

  pub converter_impl-Refines :
      (rts : List ℕ) (ss : List SpecInfo) (args : List (Arg lib.Real))
      → Refines (converter_impl lib rts ss args) (render_impl lib rts ss args)
  unfolding converter_impl render_then
  converter_impl-Refines rts [] args size o t t' stores h e = ground (arith, e)
  converter_impl-Refines rts (s ∷ []) args size o t t' stores h e =
      let (t1, between, e1) = bind-some (render_between rts s t) _ (t', stores) e in
      let (o', run, h') = write_between-Holds rts s o t t1 h between in
      let same : t1 ≡ t' = cc e1 in (o', ground (arith, run, e1), rw (← same) h')
  converter_impl-Refines rts (s ∷ s' ∷ ss) args size o t t' stores h e =
      let ((w, p, arg, args'), taken, e1) = bind-some (take_args lib s args) _ (t', stores) e in
      let rest = converter_impl lib rts (s' ∷ ss) in
      let (o', run, h') =
        then_rest-Refines (converter_single lib rts s arg w p) (render_single lib rts s arg w p)
          (render_impl lib rts (s' ∷ ss) args') rest args' (converter_single-Refines rts s arg w p)
          (converter_impl-Refines rts (s' ∷ ss) args') size o t t' stores h e1 in
      (o', converter_step-take_args rts s rest args args' o w p arg taken ∙ run, h')
