-- ===== src/Entry/Known.antt =====
-- What the macro TZ_LOG knows before it stores anything, and `dump`.
use constexpr_fmt_str.Prelude.{
  ℕ, suc, ◌+◌, ◌^◌, ◌≤◌, ◌<◌, ◌≡◌, refl, sym, ap, ◌∙◌, none, some, List, [], ◌∷◌, arith, ltb,
  length, le→leb, if◌then◌else◌, Bool-cases, inl, inr, ltb→le, bind-some, some-same,
}
use constexpr_fmt_str.Outbuf.{Outbuf}
use constexpr_fmt_str.Spec.{SpecInfo}
use constexpr_fmt_str.Spec.Scan.{
  count_valid_spec_infos, squeeze_sound_size, runtime_string, analyze_format_string,
  count_args_required,
}
use constexpr_fmt_str.Spec.Pieces.{Piece, Tail, IsFormat, source, count_valid}
use constexpr_fmt_str.Spec.Count.{count_valid_spec_infos-source}
use constexpr_fmt_str.Spec.Analyze.{analyze_format_string-letters}
use constexpr_fmt_str.Convert.Args.{Library}
use constexpr_fmt_str.Convert.Format.{converter_impl, convert_all, cfmt_str_outbufarg}
use constexpr_fmt_str.Entry.{RealCodec, Typed, types, values}
use constexpr_fmt_str.Entry.Store.{Dump, get_n_args_size, get_str_size_array, dump}
use constexpr_fmt_str.Entry.Laid.{Laid}
use constexpr_fmt_str.Entry.Sized.{AllTyped, Lettered}
use constexpr_fmt_str.Entry.Dumped.{store_args-Dumps}
use constexpr_fmt_str.Entry.Enough.{
  letters-Lettered, get_n_args_size-enough, get_str_size_array-enough,
}
use constexpr_fmt_str.Entry.Statement.{
  Site, site_of, sum, args_size, str_size_array, buf_size, entry_header_size, get_strs_num,
}
use constexpr_fmt_str.Entry.Header.{Outside}

length-nil : (xs : List ℕ) → length xs ≡ 0 → xs ≡ []
length-nil [] e = refl
length-nil (x ∷ xs) e = absurd (omega arith)

-- the records of the macro are those of CFMT_STR_OUTBUFARG
site_of-records :
    (fmt : List ℕ) (site : Site)
    → site_of fmt ≡ some site
    → (n size : ℕ) × (count_valid_spec_infos fmt ≡ some n)
      × (squeeze_sound_size fmt ≡ some size)
      × (analyze_format_string (n + 1) fmt ≡ some site.specs)
      × (site.rts ≡ runtime_string size fmt)
unfolding site_of
site_of-records fmt site e =
    let (n, e1, r1) = bind-some (count_valid_spec_infos fmt) _ site e in
    let (size, e2, r2) = bind-some (squeeze_sound_size fmt) _ site r1 in
    let (specs, e3, r3) = bind-some (analyze_format_string (n + 1) fmt) _ site r2 in
    let same = some-same _ site r3 in
    (n, size, e1, e2, e3 ∙ ap (λ s. some s.specs) same, ap (λ s. s.rts) (sym same))

pub site_of-Lettered :
    (ps : List Piece) (t : Tail) (site : Site)
    → IsFormat ps t
    → site_of (source ps t) ≡ some site
    → Lettered site.specs
site_of-Lettered ps t site f e =
    let (n, size, e1, e2, e3, rts) = site_of-records (source ps t) site e in
    let count : n ≡ count_valid ps =
      some-same n _ (sym e1 ∙ count_valid_spec_infos-source ps t f) in
    letters-Lettered site.specs ps t f
      (analyze_format_string-letters ps t site.specs f (rw count at e3))

module _ (lib : Library) (codec : RealCodec lib.Real) where
  length-values : (args : List (Typed lib.Real)) → length (values args) ≡ length args
  length-values [] = refl
  length-values (a ∷ args) = ap suc (length-values args)

  -- `dump` into an area of the two sizes
  pub dump-Laid :
      (ss : List SpecInfo) (args : List (Typed lib.Real)) (mem : List ℕ) (p size : ℕ) (arr : List ℕ)
      → Lettered ss
      → AllTyped codec args
      → get_n_args_size (count_args_required ss) (types args) ≡ some size
      → get_str_size_array ss args ≡ some arr
      → length mem < 2 ^ 63
      → p + size + sum arr ≤ length mem
      → (mem' : List ℕ) × (dump codec ss arr size args mem p ≡ some (mem', p + size + sum arr))
        × Outside p (p + size + sum arr) mem mem'
        × Laid lib codec mem' ss args p (p + size)
  unfolding dump
  dump-Laid ss args mem p size arr letters typed ns zs small room =
      let d : Dump = record { mem = mem; storage = p; storage2 = p + size } in
      let (d', run, lo, hi, end, (l, keep, behind), laid) =
        store_args-Dumps lib codec ss letters args arr d size typed ns zs
          (small, omega arith, room) in
      (
        d'.mem,
        rw (run, end) refl,
        (
          l,
          (λ a b h. keep a b (omega arith) (inl h)),
          λ a b h. behind a b (omega arith) (omega arith),
        ),
        laid,
      )

  str_size_array-enough :
      (ss : List SpecInfo) (args : List (Typed lib.Real))
      → Lettered ss
      → count_args_required ss ≤ length args
      → (arr : List ℕ) × (str_size_array ss args ≡ some arr)
        × (get_str_size_array ss args ≡ some arr)
  unfolding str_size_array
  str_size_array-enough ss args letters h =
      let (arr, run, l) = get_str_size_array-enough ss letters args h in
      elim (Bool-cases (ltb 0 (get_strs_num ss))) [
        | inl e ↦ (arr, rw (le→leb _ _ h, e) run, run)
        | inr e ↦
            let none_of : arr ≡ [] =
              length-nil arr (omega (arith, l, ltb→le 0 (get_strs_num ss) e)) in
            ([], rw (le→leb _ _ h, e) refl, run ∙ ap some none_of)
      ]

  pub site_of-convert :
      (fmt : List ℕ) (site : Site) (args : List (Typed lib.Real)) (o : Outbuf)
      → site_of fmt ≡ some site
      → count_args_required site.specs ≤ length args
      → converter_impl lib site.rts site.specs (values args) o
        ≡ cfmt_str_outbufarg lib o fmt (values args)
  unfolding cfmt_str_outbufarg convert_all
  site_of-convert fmt site args o e h =
      let (n, size, e1, e2, e3, rts) = site_of-records fmt site e in
      let l = length-values args in
      rw
        (
          e1,
          e2,
          e3,
          le→leb (count_args_required site.specs) (length (values args)) (omega arith),
          rts,
        )
        refl

  abbrev pub Sizes : Site → List (Typed lib.Real) → ℕ → Type 0
  Sizes site args total =
      (size : ℕ) × (arr : List ℕ) × (args_size site.specs (types args) ≡ some size)
      × (str_size_array site.specs args ≡ some arr)
      × (get_n_args_size (count_args_required site.specs) (types args) ≡ some size)
      × (get_str_size_array site.specs args ≡ some arr)
      × (total ≡ size + entry_header_size + sum arr)

  length-types : (args : List (Typed lib.Real)) → length (types args) ≡ length args
  length-types [] = refl
  length-types (a ∷ args) = ap suc (length-types args)

  pub buf_size-Sizes :
      (site : Site) (args : List (Typed lib.Real)) (total : ℕ)
      → Lettered site.specs
      → count_args_required site.specs ≤ length args
      → buf_size codec site args ≡ some total
      → Sizes site args total
  unfolding buf_size args_size
  buf_size-Sizes site args total letters h e =
      let room : count_args_required site.specs ≤ length (types args) =
        omega (arith, length-types args) in
      let (size, ns) = get_n_args_size-enough (count_args_required site.specs) (types args) room in
      let (arr, known, zs) = str_size_array-enough site.specs args letters h in
      let size_known =
        ap (λ b. if b then get_n_args_size (count_args_required site.specs) (types args) else none)
          (le→leb _ _ room)
        ∙ ns in
      (
        size,
        arr,
        size_known,
        known,
        ns,
        zs,
        some-same total _ (sym e ∙ rw (size_known, known) refl),
      )
