-- ===== src/Convert/Contract.antt =====
-- `CFMT_STR` as its callers see it: the text is cut to the buffer and closed with '\0'.
use constexpr_fmt_str.Prelude.{
  bind-some, ltb, false, ℕ, ◌+◌, ◌-◌, ◌%◌, ◌^◌, ◌<◌, min, ◌≡◌, refl, ◌∙◌, none, some, List, [], ◌∷◌,
  ◌++◌, leb, if◌then◌else◌, length, take, arith, Bool-cases, inl, inr,
}
use constexpr_fmt_str.Spec.{SpecInfo}
use constexpr_fmt_str.Spec.Scan.{
  count_valid_spec_infos, squeeze_sound_size, runtime_string, analyze_format_string,
  count_args_required,
}
use constexpr_fmt_str.Outbuf.{Outbuf, overwrite, size_mod, create, done, get_written_num}
use constexpr_fmt_str.Outbuf.Memory.{length-overwrite, take-overwrite}
use constexpr_fmt_str.Outbuf.Holds.{Holds, create-Holds}
use constexpr_fmt_str.Convert.Args.{Library, Arg}
use constexpr_fmt_str.Convert.Format.{Store, cfmt_str_outbufarg, cfmt_str, convert_all}
use constexpr_fmt_str.Convert.Render.{render, render_onto, render_impl}
use constexpr_fmt_str.Convert.Refine.{Refines, converter_impl-Refines}

-- a buffer of `count` bytes with what fits of `text` and a '\0' behind it
abbrev pub IsClosed : List ℕ → ℕ → List ℕ → Type 0
IsClosed mem count text =
    (length mem ≡ count)
    × (take (min (length text) (count - 1) + 1) mem ≡ take (count - 1) text ++ 0 ∷ [])

done-Holds :
    {size : ℕ} (o : Outbuf) (t : List ℕ)
    → 0 < size
    → Holds size o t
    → (o' : Outbuf) × (done o ≡ some o') × IsClosed o'.mem size t
unfolding done
done-Holds o t p h = (
  record o { mem = overwrite o.mem o.pos (0 ∷ []) },
  ground (arith, h.sized, h.fits, h.running),
  (
    length-overwrite o.mem o.pos (0 ∷ []) ∙ h.fits ∙ h.sized,
    rw (← h.sized, ← h.running, ← h.kept)
        (take-overwrite o.mem o.pos (0 ∷ []) (o.pos + 1) refl
          (omega (arith, h.sized, h.fits, h.running))),
  ),
)

module _ (lib : Library) where
  convert_all-Refines :
      (rts : List ℕ) (ss : List SpecInfo) (args : List (Arg lib.Real))
      → Refines (convert_all lib rts ss args) (λ t.
        if leb (count_args_required ss) (length args) then render_impl lib rts ss args t else none)
  unfolding convert_all
  convert_all-Refines rts ss args size o t t' stores h e =
      elim (Bool-cases (leb (count_args_required ss) (length args))) [
        | inl enough ↦
            let (o', run, h') =
              converter_impl-Refines lib rts ss args size o t t' stores h
                (ground (arith, enough, e)) in
            (o', ground (arith, enough, run), h')
        | inr short ↦ ground (arith, short, e)
      ]

  -- on an `OutbufArg` that holds a text already
  pub cfmt_str_outbufarg-Refines :
      (fmt : List ℕ) (args : List (Arg lib.Real))
      → Refines (λ o. cfmt_str_outbufarg lib o fmt args) (render_onto lib fmt args)
  unfolding cfmt_str_outbufarg
  cfmt_str_outbufarg-Refines fmt args size o t t' stores h e =
      let (n, count, e1) = bind-some (count_valid_spec_infos fmt) _ (t', stores) e in
      let (kss, squeeze, e2) = bind-some (squeeze_sound_size fmt) _ (t', stores) e1 in
      let (ss, specs, e3) = bind-some (analyze_format_string (n + 1) fmt) _ (t', stores) e2 in
      let (o', run, h') =
        convert_all-Refines (runtime_string kss fmt) ss args size o t t' stores h e3 in
      (o', rw (count, squeeze, specs) run, h')

  -- `CFMT_STR` into a buffer of `count > 0` bytes writes what `snprintf` promises of the rendered text: the first
  -- `count - 1` bytes of it, then '\0'; `result` is the length of the whole text.
  pub cfmt_str-render :
      (buffer : List ℕ) (count : ℕ) (fmt text : List ℕ) (args : List (Arg lib.Real))
      (stores : List Store)
      → length buffer ≡ count
      → 0 < count
      → count < 2 ^ 63
      → render lib fmt args ≡ some (text, stores)
      → (mem : List ℕ) × (cfmt_str lib buffer count fmt args
          ≡ some (mem, length text % size_mod, stores))
        × IsClosed mem count text
  unfolding cfmt_str create get_written_num
  cfmt_str-render buffer count fmt text args stores l p b e =
      let (o, run, h) =
        cfmt_str_outbufarg-Refines fmt args count (create buffer count) [] text stores
          (create-Holds buffer count l b) e in
      let (o', closed, c) = done-Holds o text p h in (o'.mem, rw (run, closed, h.counted) refl, c)

  -- With a count of 0 `CFMT_STR` stores its closing '\0' outside the buffer, for every format and arguments that
  -- have a text.
  pub cfmt_str-nothing :
      (fmt text : List ℕ) (args : List (Arg lib.Real)) (stores : List Store)
      → render lib fmt args ≡ some (text, stores)
      → cfmt_str lib [] 0 fmt args ≡ none
  unfolding cfmt_str create get_written_num done
  cfmt_str-nothing fmt text args stores e =
      let (o, run, h) =
        cfmt_str_outbufarg-Refines fmt args 0 (create [] 0) [] text stores
          (create-Holds [] 0 refl (omega arith)) e in
      let outside : ltb o.pos (length o.mem) ≡ false = ground (arith, h.fits, h.sized) in
      rw (run, outside) refl
