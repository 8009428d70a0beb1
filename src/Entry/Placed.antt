-- ===== src/Entry/Placed.antt =====
-- What TZ_LOG leaves in the memory for an entry that is not too large.
use constexpr_fmt_str.Prelude.{
  ℕ, ◌+◌, ◌^◌, ◌≤◌, ◌<◌, ◌≡◌, refl, sym, ap, ◌∙◌, some, List, arith, length, replicate, le→leb,
}
use constexpr_fmt_str.Spec.Scan.{count_args_required}
use constexpr_fmt_str.Spec.Pieces.{Piece, Tail, IsFormat, source}
use constexpr_fmt_str.Convert.Args.{Library}
use constexpr_fmt_str.Entry.{RealCodec, Typed, types}
use constexpr_fmt_str.Entry.Store.{dump, put_bytes}
use constexpr_fmt_str.Entry.Sized.{AllTyped}
use constexpr_fmt_str.Entry.Statement.{
  Site, site_of, sum, args_size, str_size_array, buf_size, reserved_size, tz_log, put_header,
  entry_header_size, format_args_maximum_size, normal_status, fmt_id_at, entry_size_at, status_at,
  timestamp_at,
}
use constexpr_fmt_str.Entry.Header.{
  Outside, Outside-then, Outside-widen, put_bytes-Outside, put_header-read, Laid-Outside,
}
use constexpr_fmt_str.Entry.Known.{site_of-Lettered, dump-Laid, buf_size-Sizes}
use constexpr_fmt_str.Entry.Store.{get_n_args_size, get_str_size_array}
use constexpr_fmt_str.Entry.Laid.{Laid}

module _ (lib : Library) (codec : RealCodec lib.Real) where
  tz_log-normal :
      (site : Site) (args : List (Typed lib.Real)) (f ts pos size end : ℕ)
      (arr mem mem1 mem2 mem3 : List ℕ)
      → args_size site.specs (types args) ≡ some size
      → str_size_array site.specs args ≡ some arr
      → put_bytes mem pos (replicate entry_header_size 0) ≡ some mem1
      → size + entry_header_size + sum arr ≤ format_args_maximum_size
      → dump codec site.specs arr size args mem1 (pos + entry_header_size) ≡ some (mem2, end)
      → put_header mem2 pos f (size + entry_header_size + sum arr) normal_status ts ≡ some mem3
      → tz_log codec site f ts args mem pos ≡ some (mem3, end)
  unfolding tz_log
  tz_log-normal site args f ts pos size end arr mem mem1 mem2 mem3 ns zs e1 le e2 e3 =
      rw (ns, zs, e1, le→leb _ _ le, e2, e3) refl

  reserved_size-normal :
      (site : Site) (args : List (Typed lib.Real)) (total : ℕ)
      → buf_size codec site args ≡ some total
      → total ≤ format_args_maximum_size
      → reserved_size codec site args ≡ some total
  unfolding reserved_size
  reserved_size-normal site args total known le =
      rw (known, le→leb total format_args_maximum_size le) refl

  -- the entry, and where its arguments and texts stand
  pub tz_log-Laid :
      (ps : List Piece) (t : Tail) (site : Site) (args : List (Typed lib.Real))
      (fmt_id timestamp total pos : ℕ) (mem : List ℕ)
      → IsFormat ps t
      → site_of (source ps t) ≡ some site
      → AllTyped codec args
      → count_args_required site.specs ≤ length args
      → buf_size codec site args ≡ some total
      → total ≤ format_args_maximum_size
      → length mem < 2 ^ 63
      → pos + total ≤ length mem
      → fmt_id < 2 ^ 64
      → timestamp < 2 ^ 64
      → (mem' : List ℕ) × (reserved_size codec site args ≡ some total)
        × (tz_log codec site fmt_id timestamp args mem pos ≡ some (mem', pos + total))
        × Outside pos (pos + total) mem mem'
        × (fmt_id_at mem' pos ≡ fmt_id)
        × (entry_size_at mem' pos ≡ total)
        × (status_at mem' pos ≡ normal_status)
        × (timestamp_at mem' pos ≡ timestamp)
        × (size : ℕ) × (arr : List ℕ) × (get_n_args_size
              (count_args_required site.specs)
              (types args)
            ≡ some size)
        × (get_str_size_array site.specs args ≡ some arr)
        × (total ≡ size + entry_header_size + sum arr)
        × Laid lib codec mem' site.specs args
            (pos + entry_header_size)
            (pos + entry_header_size + size)
  tz_log-Laid ps t site args f ts total pos mem format at typed enough known le small room hf ht =
      let letters = site_of-Lettered ps t site format at in
      let (size, arr, size_known, arr_known, ns, zs, sum_known) =
        buf_size-Sizes lib codec site args total letters enough known in
      let (mem1, e1, out1, r1) =
        put_bytes-Outside mem (replicate entry_header_size 0) pos (pos + entry_header_size) refl
          (omega arith) in
      let (l1, _, _) = out1 in
      let (mem2, e2, out2, laid) =
        dump-Laid lib codec site.specs args mem1 (pos + entry_header_size) size arr letters typed ns
          zs (omega arith) (omega arith) in
      let (l2, _, _) = out2 in
      let (mem3, e3, out3, a, b, c, d) =
        put_header-read mem2 pos f total normal_status ts (omega arith) hf (omega arith)
          (omega arith) ht in
      (
        mem3,
        reserved_size-normal site args total known le,
        tz_log-normal site args f ts pos size (pos + total) arr mem mem1 mem2 mem3 size_known
            arr_known e1 (omega arith) (e2 ∙ ap (λ end. some (mem2, end)) (omega arith))
            (ap (λ n. put_header mem2 pos f n normal_status ts) (sym sum_known) ∙ e3),
        Outside-then pos (pos + total) mem mem2 mem3
            (Outside-then pos (pos + total) mem mem1 mem2
              (Outside-widen pos (pos + entry_header_size) pos (pos + total) mem mem1 (omega arith)
                (omega arith) out1)
              (Outside-widen (pos + entry_header_size) _ pos (pos + total) mem1 mem2 (omega arith)
                (omega arith) out2))
            (Outside-widen pos (pos + entry_header_size) pos (pos + total) mem2 mem3 (omega arith)
              (omega arith) out3),
        a,
        b,
        c,
        d,
        size,
        arr,
        ns,
        zs,
        sum_known,
        Laid-Outside lib codec pos (pos + entry_header_size) mem2 mem3 out3 site.specs args _ _
            (omega arith) (omega arith) laid,
      )
