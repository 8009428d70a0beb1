-- ===== src/Entry/Formatted.antt =====
-- `formator` formats the arguments that stand in the memory like `converter_impl` does.
use constexpr_fmt_str.Prelude.{
  ℕ, ◌+◌, ◌≡◌, refl, Bool, true, false, Option, none, some, List, [], ◌∷◌, length, Bool-cases, inl,
  inr, if◌then◌else◌,
}
use constexpr_fmt_str.Prelude.Int.{ℤ}
use constexpr_fmt_str.Outbuf.{Outbuf}
use constexpr_fmt_str.Spec.{SpecInfo}
use constexpr_fmt_str.Convert.Args.{Library, Arg}
use constexpr_fmt_str.Convert.Format.{
  is_dynamic_width, is_dynamic_prec, converter_single, converter_args, converter_d_args,
  converter_d_d_args, converter_impl, Store as NumberStore, then_rest, Rest,
}
use constexpr_fmt_str.Entry.{CType, get_arg_size, RealCodec, Typed, types, values}
use constexpr_fmt_str.Entry.Load.{
  load_arg, Formator, then_formator, formator_a_args, formator_d_a_args, formator_d_d_a_args,
  formator,
}
use constexpr_fmt_str.Entry.Typed.{text_bytes}
use constexpr_fmt_str.Entry.Laid.{
  ArgAt, SomeLaid, Laid, Place, load-converter_single, read_dynamic-at, read_arg-at,
}

if-cong {ℓ} :
    {A : Type ℓ} (b : Bool) {x y x' y' : A}
    → x ≡ x'
    → y ≡ y'
    → (if b then x else y) ≡ (if b then x' else y')
if-cong true e f = e
if-cong false e f = f

module _ (lib : Library) (codec : RealCodec lib.Real) (mem : List ℕ) where
  then-cong :
      (m : Option (Outbuf × List NumberStore)) (rest : Formator lib codec mem) (rest' : Rest lib)
      (tys : List CType) (args : List (Arg lib.Real)) (input : ℕ)
      → ((o : Outbuf) → rest tys input o ≡ rest' args o)
      → then_formator lib codec mem m rest tys input ≡ then_rest lib m rest' args
  then-cong none rest rest' tys args input h = refl
  then-cong (some (o, stores)) rest rest' tys args input h = rw (h o) refl

  then-same :
      {m m' : Option (Outbuf × List NumberStore)} (rest : Formator lib codec mem) (rest' : Rest lib)
      (tys : List CType) (args : List (Arg lib.Real)) (input : ℕ)
      → m ≡ m'
      → ((o : Outbuf) → rest tys input o ≡ rest' args o)
      → then_formator lib codec mem m rest tys input ≡ then_rest lib m' rest' args
  then-same {m' = m'} rest rest' tys args input e h =
      rw e (then-cong m' rest rest' tys args input h)

  abbrev pub Same : List ℕ → Formator lib codec mem → Rest lib → Place lib codec mem → Type 0
  Same rts rest rest' place =
      (args : List (Typed lib.Real)) (p q : ℕ) (o : Outbuf)
      → place args p q
      → rest (types args) p o ≡ rest' (values args) o

  -- an argument read back, and what follows it
  then-loaded :
      (rts : List ℕ) (s : SpecInfo) (rest : Formator lib codec mem) (rest' : Rest lib)
      (place : Place lib codec mem)
      → Same rts rest rest' place
      → (a : Typed lib.Real) (args : List (Typed lib.Real)) (p q : ℕ) (w prec : ℤ) (o : Outbuf)
      → ArgAt lib codec mem s a p q
      → place args (p + get_arg_size a.0) (q + length (text_bytes s a))
      → then_formator lib codec mem
          (converter_single lib rts s (load_arg codec s a.0 mem p) w prec o)
          rest
          (types args)
          (p + get_arg_size a.0)
        ≡ then_rest lib (converter_single lib rts s a.1 w prec o) rest' (values args)
  then-loaded rts s rest rest' place ih a args p q w prec o at laid =
      then-same rest rest' _ _ _ (load-converter_single lib codec mem rts s a p q w prec o at)
        λ o'. ih args _ _ o' laid

  formator_a_args-Same :
      (rts : List ℕ) (s : SpecInfo) (rest : Formator lib codec mem) (rest' : Rest lib)
      (place : Place lib codec mem)
      → Same rts rest rest' place
      → Same rts
          (formator_a_args lib codec mem rts s rest)
          (converter_args lib rts s rest')
          (SomeLaid lib codec mem s place 0)
  unfolding formator_a_args converter_args
  formator_a_args-Same rts s rest rest' place ih [] p q o at = refl
  formator_a_args-Same rts s rest rest' place ih (a ∷ args) p q o ((h, room, at), laid) =
      rw (read_arg-at lib codec mem s a p room)
        (then-loaded rts s rest rest' place ih a args p q _ _ o (h, room, at) laid)

  formator_d_a_args-Same :
      (rts : List ℕ) (s : SpecInfo) (rest : Formator lib codec mem) (rest' : Rest lib)
      (place : Place lib codec mem)
      → Same rts rest rest' place
      → Same rts
          (formator_d_a_args lib codec mem rts s rest)
          (converter_d_args lib rts s rest')
          (SomeLaid lib codec mem s place 1)
  unfolding formator_d_a_args converter_d_args
  formator_d_a_args-Same rts s rest rest' place ih [] p q o at = refl
  formator_d_a_args-Same rts s rest rest' place ih (a1 ∷ []) p q o at = refl
  formator_d_a_args-Same rts s rest rest' place ih (a1 ∷ a ∷ args) p q o
        ((h1, room1, at1), ((h, room, at), laid)) =
      let p1 = p + get_arg_size a1.0 in
      let (d, read, w, prec) = read_dynamic-at lib codec mem s p h1 room1 at1 in
      rw (read, read_arg-at lib codec mem s a p1 room, w, prec)
        (if-cong (is_dynamic_width s)
          (then-loaded rts s rest rest' place ih a args p1 q _ _ o (h, room, at) laid)
          (then-loaded rts s rest rest' place ih a args p1 q _ _ o (h, room, at) laid))

  formator_d_d_a_args-Same :
      (rts : List ℕ) (s : SpecInfo) (rest : Formator lib codec mem) (rest' : Rest lib)
      (place : Place lib codec mem)
      → Same rts rest rest' place
      → Same rts
          (formator_d_d_a_args lib codec mem rts s rest)
          (converter_d_d_args lib rts s rest')
          (SomeLaid lib codec mem s place 2)
  unfolding formator_d_d_a_args converter_d_d_args
  formator_d_d_a_args-Same rts s rest rest' place ih [] p q o at = refl
  formator_d_d_a_args-Same rts s rest rest' place ih (a1 ∷ []) p q o at = refl
  formator_d_d_a_args-Same rts s rest rest' place ih (a1 ∷ a2 ∷ []) p q o at = refl
  formator_d_d_a_args-Same rts s rest rest' place ih (a1 ∷ a2 ∷ a ∷ args) p q o
        ((h1, room1, at1), ((h2, room2, at2), ((h, room, at), laid))) =
      let p1 = p + get_arg_size a1.0 in
      let p2 = p1 + get_arg_size a2.0 in
      let (d1, read1, w1, prec1) = read_dynamic-at lib codec mem s p h1 room1 at1 in
      let (d2, read2, w2, prec2) = read_dynamic-at lib codec mem s p1 h2 room2 at2 in
      rw (read1, read2, read_arg-at lib codec mem s a p2 room, w1, prec1, w2, prec2)
        (if-cong s.width_first
          (then-loaded rts s rest rest' place ih a args p2 q _ _ o (h, room, at) laid)
          (then-loaded rts s rest rest' place ih a args p2 q _ _ o (h, room, at) laid))

  pub formator-laid :
      (rts : List ℕ) (ss : List SpecInfo)
      → Same rts (formator lib codec mem rts ss) (converter_impl lib rts ss) (Laid lib codec mem ss)
  unfolding formator converter_impl
  formator-laid rts [] args p q o at = refl
  formator-laid rts (s ∷ []) args p q o at = refl
  formator-laid rts (s ∷ s' ∷ ss) args p q o at =
      let ih = formator-laid rts (s' ∷ ss) in
      elim (Bool-cases (is_dynamic_width s)) [
        | inl w ↦ elim (Bool-cases (is_dynamic_prec s)) [
          | inl e ↦
              rw (w, e)
                (formator_d_d_a_args-Same rts s (formator lib codec mem rts (s' ∷ ss))
                  (converter_impl lib rts (s' ∷ ss)) (Laid lib codec mem (s' ∷ ss)) ih args p q o
                  (rw (w, e) at at))
          | inr e ↦
              rw (w, e)
                (formator_d_a_args-Same rts s (formator lib codec mem rts (s' ∷ ss))
                  (converter_impl lib rts (s' ∷ ss)) (Laid lib codec mem (s' ∷ ss)) ih args p q o
                  (rw (w, e) at at))
        ]
        | inr w ↦ elim (Bool-cases (is_dynamic_prec s)) [
          | inl e ↦
              rw (w, e)
                (formator_d_a_args-Same rts s (formator lib codec mem rts (s' ∷ ss))
                  (converter_impl lib rts (s' ∷ ss)) (Laid lib codec mem (s' ∷ ss)) ih args p q o
                  (rw (w, e) at at))
          | inr e ↦
              rw (w, e)
                (formator_a_args-Same rts s (formator lib codec mem rts (s' ∷ ss))
                  (converter_impl lib rts (s' ∷ ss)) (Laid lib codec mem (s' ∷ ss)) ih args p q o
                  (rw (w, e) at at))
        ]
      ]
