-- ===== src/Entry/RoundTrip.antt =====
-- A log statement and its later formatting: what TZ_LOG stores is formatted like the arguments themselves.
use constexpr_fmt_str.Prelude.{
  ℕ, ◌+◌, ◌^◌, ◌≤◌, ◌<◌, ◌≡◌, refl, ap, ◌∙◌, some, List, arith, length, replicate, lt→leb,
}
use constexpr_fmt_str.Outbuf.{Outbuf}
use constexpr_fmt_str.Spec.Scan.{count_args_required}
use constexpr_fmt_str.Spec.Pieces.{Piece, Tail, IsFormat, source}
use constexpr_fmt_str.Convert.Args.{Library}
use constexpr_fmt_str.Convert.Format.{cfmt_str_outbufarg}
use constexpr_fmt_str.Entry.{RealCodec, Typed, types, values, number_of}
use constexpr_fmt_str.Entry.Load.{formator}
use constexpr_fmt_str.Entry.Formatted.{formator-laid}
use constexpr_fmt_str.Entry.Sized.{AllTyped}
use constexpr_fmt_str.Entry.Statement.{
  Site, site_of, buf_size, reserved_size, tz_log, entry_header_size, format_args_maximum_size,
  normal_status, illegal_args_size, fmt_id_at, entry_size_at, status_at, timestamp_at, args_size_at,
}
use constexpr_fmt_str.Entry.Header.{
  Outside, Outside-then, Outside-widen, put_bytes-Outside, put_header-read, put_number,
}
use constexpr_fmt_str.Entry.Known.{site_of-Lettered, site_of-convert, buf_size-Sizes}
use constexpr_fmt_str.Entry.Placed.{tz_log-Laid}

module _ (lib : Library) (codec : RealCodec lib.Real) where
  -- TZ_LOG of a format and arguments of their types, as many as the format requires, whose entry is not larger than
  -- FORMAT_ARGS_MAXIMUM_SIZE, in a place with room for it: the statement writes exactly the bytes that it reserved,
  -- which its assertion states, and changes no other; the header gives back the format's identity, the size, NORMAL and
  -- the timestamp; and the convert function of the format on the stored arguments does to every output buffer what
  -- CFMT_STR_OUTBUFARG does with the format and the arguments themselves.
  pub tz_log-formator :
      (ps : List Piece) (t : Tail) (site : Site) (args : List (Typed lib.Real))
      (fmt_id timestamp total pos : ℕ) (mem : List ℕ)
      → IsFormat ps t
      → site_of (source ps t) ≡ some site
      → AllTyped codec args
      → count_args_required site.specs ≤ length args
      → buf_size codec site args ≡ some total
      → total ≤ format_args_maximum_size
      → length mem < 2 ^ 63
      → pos + total ≤ length mem
      → fmt_id < 2 ^ 64
      → timestamp < 2 ^ 64
      → (mem' : List ℕ) × (reserved_size codec site args ≡ some total)
        × (tz_log codec site fmt_id timestamp args mem pos ≡ some (mem', pos + total))
        × Outside pos (pos + total) mem mem'
        × (fmt_id_at mem' pos ≡ fmt_id)
        × (entry_size_at mem' pos ≡ total)
        × (status_at mem' pos ≡ normal_status)
        × (timestamp_at mem' pos ≡ timestamp)
        × ((o : Outbuf)
            → formator lib codec mem' site.rts site.specs (types args) (pos + entry_header_size) o
              ≡ cfmt_str_outbufarg lib o (source ps t) (values args))
  tz_log-formator ps t site args f ts total pos mem format at typed enough known le small room hf
        ht =
      let (mem', reserved, run, out, a, b, c, d, size, arr, ns, zs, sum_known, laid) =
        tz_log-Laid lib codec ps t site args f ts total pos mem format at typed enough known le
          small room hf ht in
      (
        mem',
        reserved,
        run,
        out,
        a,
        b,
        c,
        d,
        λ o.
            formator-laid lib codec mem' site.rts site.specs args (pos + entry_header_size)
              (pos + entry_header_size + size) o laid
            ∙ site_of-convert lib codec (source ps t) site args o at enough,
      )

  -- Where the entry would be larger than FORMAT_ARGS_MAXIMUM_SIZE, and its size is below 2^64, in a place with room for
  -- 32 bytes: the statement reserves and writes 32 bytes, changes no other, and leaves a header with ILLEGAL_ARGS_SIZE
  -- and the size of 32, and behind it the size that the entry would have had.
  pub tz_log-illegal :
      (ps : List Piece) (t : Tail) (site : Site) (args : List (Typed lib.Real))
      (fmt_id timestamp total pos : ℕ) (mem : List ℕ)
      → IsFormat ps t
      → site_of (source ps t) ≡ some site
      → count_args_required site.specs ≤ length args
      → buf_size codec site args ≡ some total
      → format_args_maximum_size < total
      → total < 2 ^ 64
      → pos + 32 ≤ length mem
      → fmt_id < 2 ^ 64
      → timestamp < 2 ^ 64
      → (mem' : List ℕ) × (reserved_size codec site args ≡ some 32)
        × (tz_log codec site fmt_id timestamp args mem pos ≡ some (mem', pos + 32))
        × Outside pos (pos + 32) mem mem'
        × (fmt_id_at mem' pos ≡ fmt_id)
        × (entry_size_at mem' pos ≡ 32)
        × (status_at mem' pos ≡ illegal_args_size)
        × (timestamp_at mem' pos ≡ timestamp)
        × (args_size_at mem' pos ≡ total)
  unfolding tz_log reserved_size
  tz_log-illegal ps t site args f ts total pos mem format at enough known gt small room hf ht =
      let letters = site_of-Lettered ps t site format at in
      let (size, arr, size_known, arr_known, ns, zs, sum_known) =
        buf_size-Sizes lib codec site args total letters enough known in
      let (mem1, e1, (l1, k1, b1), r1) =
        put_bytes-Outside mem (replicate entry_header_size 0) pos (pos + 24) refl (omega arith) in
      let (mem2, e2, out2, stored) =
        put_number mem1 (pos + 24) (pos + 32) 8 total (omega arith) (omega arith) small in
      let (l2, _, _) = out2 in
      let (mem3, e3, out3, a, b, c, d) =
        put_header-read mem2 pos f 32 illegal_args_size ts (omega arith) hf (omega arith)
          (omega arith) ht in
      let (l3, k3, b3) = out3 in
      (
        mem3,
        rw (known, lt→leb total format_args_maximum_size gt) refl,
        rw
            (
              size_known,
              arr_known,
              e1,
              ← sum_known,
              lt→leb total format_args_maximum_size gt,
              e2,
              e3,
            )
            (ap (λ end. some (mem3, end)) (omega arith)),
        Outside-then pos (pos + 32) mem mem2 mem3
            (Outside-then pos (pos + 32) mem mem1 mem2
              (Outside-widen pos (pos + 24) pos (pos + 32) mem mem1 (omega arith) (omega arith)
                (l1, k1, b1))
              (Outside-widen (pos + 24) (pos + 32) pos (pos + 32) mem1 mem2 (omega arith)
                (omega arith) out2))
            (Outside-widen pos (pos + 24) pos (pos + 32) mem2 mem3 (omega arith) (omega arith)
              out3),
        a,
        b,
        c,
        d,
        ap number_of (b3 _ _ (omega arith)) ∙ stored,
      )
