-- ===== src/Sink/Output/Statements.antt =====
-- The entries that log statements leave are entries that the sink thread reads, in whatever buffer they come to stand.
use constexpr_fmt_str.Prelude.{
  ℕ, ◌+◌, ◌^◌, ◌%◌, ◌≤◌, ◌<◌, ◌≡◌, refl, sym, ap, ◌∙◌, Option, some, List, [], ◌∷◌, ◌++◌, arith,
  length, codes, ◌>>=◌, bind-some, some-same, le→leb,
}
use constexpr_fmt_str.Outbuf.{Outbuf}
use constexpr_fmt_str.Spec.Scan.{count_args_required}
use constexpr_fmt_str.Spec.Pieces.{Piece, Tail, IsFormat, source}
use constexpr_fmt_str.Convert.Args.{Library, Arg, integral}
use constexpr_fmt_str.Convert.Format.{Store, cfmt_str_outbufarg}
use constexpr_fmt_str.Convert.Render.{Rendered, render_onto}
use constexpr_fmt_str.Convert.Refine.{Refines}
use constexpr_fmt_str.Convert.Contract.{cfmt_str_outbufarg-Refines}
use constexpr_fmt_str.Entry.{RealCodec, Typed, CType, types, values, number_of}
use constexpr_fmt_str.Entry.Load.{formator}
use constexpr_fmt_str.Entry.Sized.{AllTyped}
use constexpr_fmt_str.Entry.Statement.{
  Site, site_of, buf_size, args_size, str_size_array, tz_log, format_args_maximum_size,
  normal_status, illegal_args_size, status_at, args_size_at, entry_header_size, sum,
}
use constexpr_fmt_str.Entry.RoundTrip.{tz_log-formator, tz_log-illegal}
use constexpr_fmt_str.Entry.Moved.{Copied, slice-same, slice-Copied}
use constexpr_fmt_str.Entry.Copied.{tz_log-copied}
use constexpr_fmt_str.Staging.Slice.{slice, length-slice}
use constexpr_fmt_str.Sink.Output.{StaticFmtInfo, LogLevel, write_body, illegal_format}
use constexpr_fmt_str.Sink.Output.Texts.{render_onto-newline}
use constexpr_fmt_str.Sink.Output.Lines.{IsEntry}

buf_size-header :
    {Real : Type 0} (codec : RealCodec Real) (site : Site) (args : List (Typed Real)) (total : ℕ)
    → buf_size codec site args ≡ some total
    → entry_header_size ≤ total
unfolding buf_size
buf_size-header codec site args total e =
    let (size, x, x1) = bind-some (args_size site.specs (types args)) _ total e in
    let (arr, x2, x3) = bind-some (str_size_array site.specs args) _ total x1 in
    let same = some-same (size + entry_header_size + sum arr) total x3 in omega arith

module _ (lib : Library) where
  -- a text and then a line feed
  abbrev pub with_newline : Option Rendered → Option Rendered
  with_newline r = r >>= λ (t, stores). some (t ++ codes "\n", stores)

  write_normal :
      (smi : StaticFmtInfo) (copy : List ℕ) (at : ℕ) (fmt : List ℕ) (args : List (Arg lib.Real))
      (o o1 o2 : Outbuf) (st st2 : List Store)
      → status_at copy at ≡ normal_status
      → smi.convert_fn copy (at + entry_header_size) o ≡ cfmt_str_outbufarg lib o fmt args
      → cfmt_str_outbufarg lib o fmt args ≡ some (o1, st)
      → cfmt_str_outbufarg lib o1 (codes "\n") [] ≡ some (o2, st2)
      → write_body lib smi copy at o ≡ some (o2, st)
  unfolding write_body
  write_normal smi copy at fmt args o o1 o2 st st2 status converts run1 run2 =
      rw (status, converts, run1, run2) refl

  -- `CFMT_STR_OUTBUFARG` of a text behind another, and then a line feed
  line_end :
      (smi : StaticFmtInfo) (copy : List ℕ) (at : ℕ) (fmt : List ℕ) (args : List (Arg lib.Real))
      → status_at copy at ≡ normal_status
      → ((o : Outbuf)
          → smi.convert_fn copy (at + entry_header_size) o ≡ cfmt_str_outbufarg lib o fmt args)
      → Refines (write_body lib smi copy at) (λ t. with_newline (render_onto lib fmt args t))
  unfolding write_body
  line_end smi copy at fmt args status converts size o t t' stores h e =
      let ((t1, st), x, x1) = bind-some (render_onto lib fmt args t) _ (t', stores) e in
      let same = some-same (t1 ++ codes "\n", st) (t', stores) x1 in
      let (o1, run1, h1) = cfmt_str_outbufarg-Refines lib fmt args size o t t1 st h x in
      let (o2, run2, h2) =
        cfmt_str_outbufarg-Refines lib (codes "\n") [] size o1 t1 (t1 ++ codes "\n") [] h1
          (render_onto-newline lib t1) in
      (
        o2,
        write_normal smi copy at fmt args o o1 o2 st [] status (converts o) run1 run2
            ∙ ap (λ z. some (o2, z)) (ap (λ z. z.1) same),
        rw (← ap (λ z. z.0) same) h2,
      )

  write_illegal :
      (smi : StaticFmtInfo) (copy : List ℕ) (at total : ℕ) (o o1 : Outbuf) (st : List Store)
      → status_at copy at ≡ illegal_args_size
      → at + 32 ≤ length copy
      → args_size_at copy at ≡ total
      → cfmt_str_outbufarg lib o illegal_format
          (integral (total % 2 ^ 32) ∷ integral format_args_maximum_size ∷ [])
        ≡ some (o1, st)
      → write_body lib smi copy at o ≡ some (o1, st)
  unfolding write_body
  write_illegal smi copy at total o o1 st status room size run =
      rw (status, le→leb (at + 32) (length copy) room, size) run

  -- what is written in place of arguments that are too large
  abbrev pub illegal_body : ℕ → List ℕ → Option Rendered
  illegal_body total t =
      render_onto lib illegal_format
        (integral (total % 2 ^ 32) ∷ integral format_args_maximum_size ∷ []) t

  module _ (codec : RealCodec lib.Real) where
    -- `fmtInfo` of the macro: the format information of a log statement
    unfoldable pub fmt_info : Site → List CType → List ℕ → List ℕ → ℕ → LogLevel → StaticFmtInfo
    fmt_info site tys filename funcname line_num severity = record {
      convert_fn = λ bytes input. formator lib codec bytes site.rts site.specs tys input;
      filename = filename;
      funcname = funcname;
      line_num = line_num;
      severity = severity;
      format_string = site.rts;
      num_var_args = count_args_required site.specs;
    }

    -- The entry that TZ_LOG leaves, under the conditions of its round trip, is in every buffer below 2^31 bytes an entry
    -- with the text that CFMT_STR_OUTBUFARG makes of the format and the arguments themselves, and a line feed.
    pub tz_log-IsEntry :
        (info : ℕ → Option StaticFmtInfo) (ps : List Piece) (t : Tail) (site : Site)
        (args : List (Typed lib.Real)) (filename funcname : List ℕ) (line_num : ℕ)
        (severity : LogLevel) (fmt_id timestamp total pos end : ℕ) (mem mem' : List ℕ)
        → IsFormat ps t
        → site_of (source ps t) ≡ some site
        → AllTyped codec args
        → count_args_required site.specs ≤ length args
        → buf_size codec site args ≡ some total
        → total ≤ format_args_maximum_size
        → length mem < 2 ^ 63
        → pos + total ≤ length mem
        → fmt_id < 2 ^ 64
        → timestamp < 2 ^ 64
        → tz_log codec site fmt_id timestamp args mem pos ≡ some (mem', end)
        → info fmt_id ≡ some (fmt_info site (types args) filename funcname line_num severity)
        → IsEntry lib info (record {
          bytes = slice mem' pos (pos + total);
          fmt_id = fmt_id;
          timestamp = timestamp;
          smi = fmt_info site (types args) filename funcname line_num severity;
          body = λ t'. with_newline (render_onto lib (source ps t) (values args) t');
        })
    unfolding fmt_info
    tz_log-IsEntry info ps t site args filename funcname line_num severity f ts total pos end mem
          mem' format at typed enough known le small room hf ht run infos =
        let (m, reserved, run', (kept, before, behind), id0, size0, status0, time0, converts0) =
          tz_log-formator lib codec ps t site args f ts total pos mem format at typed enough known
            le small room hf ht in
        let is : m ≡ mem' =
          ap (λ z. z.0) (some-same (m, pos + total) (mem', end) (sym run' ∙ run)) in
        let long : length mem' ≡ length mem = ap length (sym is) ∙ kept in
        let counted = length-slice mem' pos (pos + total) (omega arith) (omega arith) in
        let sized : length (slice mem' pos (pos + total)) ≡ total = omega arith in
        record {
          header = omega (arith, buf_size-header codec site args total known);
          known = infos;
          read = λ copy p there inside below.
              let (id, size, status, time, converts) =
                tz_log-copied lib codec ps t site args f ts total pos p end mem mem' copy format at
                  typed enough known le small room hf ht run
                  (ap (λ n. slice copy p (p + n)) (sym sized) ∙ there) (omega arith)
                  (omega arith) in
              (
                id,
                size ∙ sym sized,
                time,
                line_end (fmt_info site (types args) filename funcname line_num severity) copy p
                    (source ps t) (values args) status converts,
              );
        }

    -- The entry that TZ_LOG leaves for arguments that would make it larger than FORMAT_ARGS_MAXIMUM_SIZE, under the
    -- conditions of its error branch, is in every buffer below 2^31 bytes an entry with the text of the message on its
    -- size, which gives that size modulo 2^32.
    pub tz_log-IsEntry_illegal :
        (info : ℕ → Option StaticFmtInfo) (smi : StaticFmtInfo) (ps : List Piece) (t : Tail)
        (site : Site) (args : List (Typed lib.Real)) (fmt_id timestamp total pos end : ℕ)
        (mem mem' : List ℕ)
        → IsFormat ps t
        → site_of (source ps t) ≡ some site
        → count_args_required site.specs ≤ length args
        → buf_size codec site args ≡ some total
        → format_args_maximum_size < total
        → total < 2 ^ 64
        → pos + 32 ≤ length mem
        → fmt_id < 2 ^ 64
        → timestamp < 2 ^ 64
        → tz_log codec site fmt_id timestamp args mem pos ≡ some (mem', end)
        → info fmt_id ≡ some smi
        → IsEntry lib info (record {
          bytes = slice mem' pos (pos + 32);
          fmt_id = fmt_id;
          timestamp = timestamp;
          smi = smi;
          body = illegal_body total;
        })
    tz_log-IsEntry_illegal info smi ps t site args f ts total pos end mem mem' format at enough
          known gt small room hf ht run infos =
        let (m, reserved, run', (kept, before, behind), id, size, status, time, args_size) =
          tz_log-illegal lib codec ps t site args f ts total pos mem format at enough known gt small
            room hf ht in
        let is : m ≡ mem' = ap (λ z. z.0) (some-same (m, pos + 32) (mem', end) (sym run' ∙ run)) in
        let long : length mem' ≡ length mem = ap length (sym is) ∙ kept in
        let counted = length-slice mem' pos (pos + 32) (omega arith) (omega arith) in
        let sized : length (slice mem' pos (pos + 32)) ≡ 32 = omega arith in
        record {
          header = omega arith;
          known = infos;
          read = λ copy p there inside below.
              let copied : Copied 32 pos p m copy = (
                ap (λ n. slice copy p (p + n)) (sym sized)
                    ∙ there
                    ∙ ap (λ z. slice z pos (pos + 32)) (sym is),
                omega arith,
                omega arith,
              ) in
              let same = slice-same 32 pos p m copy copied in
              (
                ap number_of (
                      slice-Copied 32 pos p m copy pos p 0 8 copied (omega arith) (omega arith)
                        (omega arith))
                    ∙ id,
                ap number_of (same 8 12 (omega arith)) ∙ size ∙ sym sized,
                ap number_of (same 16 24 (omega arith)) ∙ time,
                λ bound o t0 t' stores h e.
                    let (o1, run1, h1) =
                      cfmt_str_outbufarg-Refines lib illegal_format
                        (integral (total % 2 ^ 32) ∷ integral format_args_maximum_size ∷ []) bound o
                        t0 t' stores h e in
                    (
                      o1,
                      write_illegal smi copy p total o o1 stores
                          (ap number_of (same 12 13 (omega arith)) ∙ status) (omega arith)
                          (ap number_of (same 24 32 (omega arith)) ∙ args_size) run1,
                      h1,
                    ),
              );
        }
