-- ===== src/Entry/Copied.antt =====
-- An entry in the sink's buffers: the bytes of a log statement, copied to any other place.
use constexpr_fmt_str.Prelude.{
  some-same, ℕ, ◌+◌, ◌^◌, ◌≤◌, ◌<◌, ◌≡◌, refl, sym, ap, ◌∙◌, some, List, arith, length,
}
use constexpr_fmt_str.Outbuf.{Outbuf}
use constexpr_fmt_str.Spec.Scan.{count_args_required}
use constexpr_fmt_str.Spec.Pieces.{Piece, Tail, IsFormat, source}
use constexpr_fmt_str.Convert.Args.{Library}
use constexpr_fmt_str.Convert.Format.{cfmt_str_outbufarg}
use constexpr_fmt_str.Entry.{RealCodec, Typed, types, values, number_of}
use constexpr_fmt_str.Entry.Load.{formator}
use constexpr_fmt_str.Entry.Formatted.{formator-laid}
use constexpr_fmt_str.Entry.Sized.{AllTyped}
use constexpr_fmt_str.Entry.Statement.{
  Site, site_of, buf_size, tz_log, entry_header_size, format_args_maximum_size, normal_status,
  fmt_id_at, entry_size_at, status_at, timestamp_at,
}
use constexpr_fmt_str.Entry.Known.{site_of-Lettered, site_of-convert}
use constexpr_fmt_str.Entry.Placed.{tz_log-Laid}
use constexpr_fmt_str.Entry.Moved.{Copied, Inside-sizes, Laid-Copied, slice-Copied, slice-same}
use constexpr_fmt_str.Staging.Slice.{slice}

module _ (lib : Library) (codec : RealCodec lib.Real) where
  -- The entry that TZ_LOG leaves, under the conditions of its round trip, copied as a whole to another memory below
  -- 2^63 bytes: its header gives there the format's identity, the size, NORMAL and the timestamp, and the convert
  -- function of the format on the copied arguments does to every output buffer what CFMT_STR_OUTBUFARG does with the
  -- format and the arguments themselves.
  pub tz_log-copied :
      (ps : List Piece) (t : Tail) (site : Site) (args : List (Typed lib.Real))
      (fmt_id timestamp total pos pos2 end : ℕ) (mem mem' copy : List ℕ)
      → IsFormat ps t
      → site_of (source ps t) ≡ some site
      → AllTyped codec args
      → count_args_required site.specs ≤ length args
      → buf_size codec site args ≡ some total
      → total ≤ format_args_maximum_size
      → length mem < 2 ^ 63
      → pos + total ≤ length mem
      → fmt_id < 2 ^ 64
      → timestamp < 2 ^ 64
      → tz_log codec site fmt_id timestamp args mem pos ≡ some (mem', end)
      → slice copy pos2 (pos2 + total) ≡ slice mem' pos (pos + total)
      → pos2 + total ≤ length copy
      → length copy < 2 ^ 63
      → (fmt_id_at copy pos2 ≡ fmt_id)
        × (entry_size_at copy pos2 ≡ total)
        × (status_at copy pos2 ≡ normal_status)
        × (timestamp_at copy pos2 ≡ timestamp)
        × ((o : Outbuf)
            → formator lib codec copy site.rts site.specs (types args) (pos2 + entry_header_size) o
              ≡ cfmt_str_outbufarg lib o (source ps t) (values args))
  tz_log-copied ps t site args f ts total pos pos2 end mem mem' copy format at typed enough known le
        small room hf ht run same room2 small2 =
      let (m, reserved, run', out, a, b, c, d, size, arr, ns, zs, total_is, laid) =
        tz_log-Laid lib codec ps t site args f ts total pos mem format at typed enough known le
          small room hf ht in
      let is : m ≡ mem' = ap (λ z. z.0) (some-same (m, pos + total) (mem', end) (sym run' ∙ run)) in
      let copied : Copied total pos pos2 m copy =
        (same ∙ ap (λ z. slice z pos (pos + total)) (sym is), room2, small2) in
      let read = slice-same total pos pos2 m copy copied in
      let letters = site_of-Lettered ps t site format at in
      let inside =
        Inside-sizes lib codec total site.specs letters args arr entry_header_size
          (entry_header_size + size) size typed ns zs (omega arith) (omega arith) in
      (
        ap number_of (
              slice-Copied total pos pos2 m copy pos pos2 0 8 copied (omega arith) (omega arith)
                (omega arith))
            ∙ a,
        ap number_of (read 8 12 (omega arith)) ∙ b,
        ap number_of (read 12 13 (omega arith)) ∙ c,
        ap number_of (read 16 24 (omega arith)) ∙ d,
        λ o.
            formator-laid lib codec copy site.rts site.specs args (pos2 + entry_header_size)
              (pos2 + entry_header_size + size) o
              (Laid-Copied lib codec total pos pos2 m copy site.specs args (pos + entry_header_size)
                (pos + entry_header_size + size) (pos2 + entry_header_size)
                (pos2 + entry_header_size + size) entry_header_size (entry_header_size + size)
                copied refl refl (omega arith) (omega arith) inside laid)
            ∙ site_of-convert lib codec (source ps t) site args o at enough,
      )
