-- ===== src/Sink/Output/Lines.antt =====
-- The loops over the buffers to write, against the list of the entries that were put in them.
use constexpr_fmt_str.Prelude.{
  ℕ, zero, suc, ◌+◌, ◌-◌, ◌/◌, ◌%◌, ◌^◌, ◌≤◌, ◌<◌, min, ◌≡◌, refl, sym, ap, ◌∙◌, Option, some, List,
  [], ◌∷◌, ◌++◌, arith, ltb, if◌then◌else◌, ◌>>=◌, length, take, take-take, le→leb, bind-some,
  some-same,
}
use constexpr_fmt_str.Outbuf.{Outbuf, size_mod, reset, get_written_num}
use constexpr_fmt_str.Outbuf.Holds.{Holds, reset-Holds}
use constexpr_fmt_str.Convert.Args.{Library}
use constexpr_fmt_str.Convert.Format.{Store, cfmt_str_outbufarg}
use constexpr_fmt_str.Convert.Render.{Rendered, render_onto}
use constexpr_fmt_str.Convert.Refine.{Refines}
use constexpr_fmt_str.Convert.Contract.{cfmt_str_outbufarg-Refines}
use constexpr_fmt_str.Entry.Load.{until_nul}
use constexpr_fmt_str.Entry.Statement.{fmt_id_at, entry_size_at, timestamp_at}
use constexpr_fmt_str.Staging.Slice.{slice, slice-nothing}
use constexpr_fmt_str.Sink.Output.{
  StaticFmtInfo, Line, Writer, line_of, log_level_name, prefix_format, prefix_args, write_body,
  write_entry,
}
use constexpr_fmt_str.Timestamp.{
  Calendar, TimestampFormatter, preformat, write_timestamp, ns_of_second, format_timestamp,
}
use constexpr_fmt_str.Timestamp.Cache.{IsCached, format_timestamp-anew}

-- the part of a list that stands behind `before`
pub slice-part :
    (before part after : List ℕ) (p q : ℕ)
    → p ≡ length before
    → q ≡ p + length part
    → slice (before ++ (part ++ after)) p q ≡ part
slice-part [] [] after p q h k = slice-nothing after p q (omega arith)
slice-part [] (c ∷ part) after zero zero h k = absurd (omega arith)
slice-part [] (c ∷ part) after zero (suc q) h k =
    ap (λ z. c ∷ z) (slice-part [] part after zero q refl (omega arith))
slice-part [] (c ∷ part) after (suc p) q h k = absurd (omega arith)
slice-part (b ∷ before) part after zero q h k = absurd (omega arith)
slice-part (b ∷ before) part after (suc p) zero h k = absurd (omega arith)
slice-part (b ∷ before) part after (suc p) (suc q) h k =
    slice-part before part after p q (omega arith) (omega arith)

-- the bytes of a text that go to the file: those below the size of the buffer
abbrev pub cut : ℕ → List ℕ → List ℕ
cut size text = take (min (length text % size_mod) (size - 1)) text

line_of-cut : (size : ℕ) (o : Outbuf) (t : List ℕ) → Holds size o t → line_of size o ≡ cut size t
unfolding line_of get_written_num
line_of-cut size o t h =
    let n = min (length t % size_mod) (size - 1) in
    let same : (if ltb o.written (size - 1) then o.written else size - 1) ≡ n =
      ground (arith, h.counted) in
    ap (λ k. take k o.mem) same
    ∙ sym (take-take n o.pos o.mem (omega (arith, h.running, h.sized)))
    ∙ ap (take n) (h.kept ∙ ap (λ k. take (k - 1) t) h.sized)
    ∙ take-take n (size - 1) t (omega arith)

-- an entry: its bytes, what its header has, and the text that its body puts behind a prefix
pub record LogEntry : Type 0 where
  pub bytes : List ℕ
  pub fmt_id : ℕ
  pub timestamp : ℕ
  pub smi : StaticFmtInfo
  pub body : List ℕ → Option Rendered

-- entries one behind the other
abbrev pub entries_bytes : List LogEntry → List ℕ
entries_bytes [] = []
entries_bytes (e ∷ es) = e.bytes ++ entries_bytes es

-- each entry with the name of its thread
abbrev pub named : List ℕ → List LogEntry → List (List ℕ × LogEntry)
named name [] = []
named name (e ∷ es) = (name, e) ∷ named name es

module _ (lib : Library) (info : ℕ → Option StaticFmtInfo) where
  -- wherever the bytes stand in a buffer, they are read as this entry
  pub record IsEntry (e : LogEntry) : Type 0 where
    pub header : 24 ≤ length e.bytes
    pub known : info e.fmt_id ≡ some e.smi
    pub read :
        (copy : List ℕ) (at : ℕ)
        → slice copy at (at + length e.bytes) ≡ e.bytes
        → at + length e.bytes ≤ length copy
        → length copy < 2 ^ 31
        → (fmt_id_at copy at ≡ e.fmt_id)
          × (entry_size_at copy at ≡ length e.bytes)
          × (timestamp_at copy at ≡ e.timestamp)
          × Refines (write_body lib e.smi copy at) e.body

  abbrev pub AllEntries : List LogEntry → Type 0
  AllEntries [] = Unit
  AllEntries (e ∷ es) = IsEntry e × AllEntries es

  module _ (calendar : Calendar) (fuel : ℕ) (size : ℕ) (tsc2ns : ℕ → ℕ) where
    -- the line of an entry, and the buffer with the text of its timestamp, which is formatted anew
    abbrev pub expected_line :
        TimestampFormatter → List ℕ → LogEntry → List ℕ → Option (List ℕ × Line)
    expected_line f0 name e time_buffer =
        let ns = tsc2ns e.timestamp in
        preformat calendar fuel (ns / ns_of_second) f0 >>= λ f.
        write_timestamp lib f ns time_buffer >>= λ time. log_level_name e.smi.severity >>= λ level.
        render_onto lib prefix_format (prefix_args lib (until_nul time) level name e.smi) []
        >>= λ (prefix, none_stored). e.body prefix >>= λ (text, stores).
            some (time, record { text = cut size text; stores = stores })

    -- the lines of entries with the names of their threads, one after the other
    abbrev pub expected_lines :
        TimestampFormatter → List (List ℕ × LogEntry) → List ℕ → Option (List ℕ × List Line)
    expected_lines f0 [] time_buffer = some (time_buffer, [])
    expected_lines f0 ((name, e) ∷ es) time_buffer =
        expected_line f0 name e time_buffer >>= λ (time, line).
        expected_lines f0 es time >>= λ (time', lines). some (time', line ∷ lines)

    -- between entries: the output buffer is sound, and the strings that are kept are those of their second
    pub record IsWriter (f0 : TimestampFormatter) (w : Writer) : Type 0 where
      pub held : List ℕ
      pub sound : Holds size w.fmt_buf held
      pub cached : IsCached calendar fuel w.time_fmt
      pub same :
          (second : ℕ)
          → preformat calendar fuel second w.time_fmt ≡ preformat calendar fuel second f0

    write_entry-runs :
        (e : LogEntry) (copy name : List ℕ) (at : ℕ) (o o1 o2 : Outbuf) (w f : TimestampFormatter)
        (old time level text : List ℕ) (st1 st2 : List Store)
        → at + 24 ≤ length copy
        → fmt_id_at copy at ≡ e.fmt_id
        → timestamp_at copy at ≡ e.timestamp
        → info e.fmt_id ≡ some e.smi
        → format_timestamp lib calendar fuel w (tsc2ns e.timestamp) old ≡ some (f, time)
        → log_level_name e.smi.severity ≡ some level
        → cfmt_str_outbufarg lib
            (reset o)
            prefix_format
            (prefix_args lib (until_nul time) level name e.smi)
          ≡ some (o1, st1)
        → write_body lib e.smi copy at o1 ≡ some (o2, st2)
        → Holds size o2 text
        → write_entry lib calendar fuel size tsc2ns info copy at name
            (record { fmt_buf = o; time_fmt = w; time_buffer = old })
          ≡ some (
            record { fmt_buf = o2; time_fmt = f; time_buffer = time },
            record { text = cut size text; stores = st2 },
          )
    unfolding write_entry
    write_entry-runs e copy name at o o1 o2 w f old time level text st1 st2 room id ts known stamped
          named run1 run2 h =
        rw (le→leb _ _ room, id, known, ts, stamped, named, run1, run2, line_of-cut size o2 text h)
          refl

    module _ (f0 : TimestampFormatter) where
      pub write_entry-line :
          (e : LogEntry) (copy name : List ℕ) (at : ℕ) (w : Writer) (time : List ℕ) (line : Line)
          → IsEntry e
          → slice copy at (at + length e.bytes) ≡ e.bytes
          → at + length e.bytes ≤ length copy
          → length copy < 2 ^ 31
          → IsWriter f0 w
          → expected_line f0 name e w.time_buffer ≡ some (time, line)
          → (w' : Writer) × (write_entry lib calendar fuel size tsc2ns info copy at name w
              ≡ some (w', line))
            × IsWriter f0 w'
            × (w'.time_buffer ≡ time)
      write_entry-line e copy name at w time line is there room small iw x =
          let (id_read, size_read, time_read, refines) = is.read copy at there room small in
          let ns = tsc2ns e.timestamp in
          let (f, pre, x1) =
            bind-some (preformat calendar fuel (ns / ns_of_second) f0) _ (time, line) x in
          let (time', wrote, x2) =
            bind-some (write_timestamp lib f ns w.time_buffer) _ (time, line) x1 in
          let (level, named, x3) = bind-some (log_level_name e.smi.severity) _ (time, line) x2 in
          let args = prefix_args lib (until_nul time') level name e.smi in
          let ((prefix, st1), fore, x4) =
            bind-some (render_onto lib prefix_format args []) _ (time, line) x3 in
          let ((text, st2), aft, x5) = bind-some (e.body prefix) _ (time, line) x4 in
          let result =
            some-same (time', record { text = cut size text; stores = st2 }) (time, line) x5 in
          let (stamped, cached', same') =
            format_timestamp-anew calendar fuel lib w.time_fmt f0 f ns w.time_buffer time' iw.cached
              iw.same pre wrote in
          let (o1, run1, h1) =
            cfmt_str_outbufarg-Refines lib prefix_format args size (reset w.fmt_buf) [] prefix st1
              (reset-Holds iw.sound) fore in
          let (o2, run2, h2) = refines size o1 prefix text st2 h1 aft in
          let run =
            write_entry-runs e copy name at w.fmt_buf o1 o2 w.time_fmt f w.time_buffer time' level
              text st1 st2 (omega (arith, is.header)) id_read time_read is.known stamped named run1
              run2 h2 in
          (
            record { fmt_buf = o2; time_fmt = f; time_buffer = time' },
            run
                ∙ ap (λ z. some (record { fmt_buf = o2; time_fmt = f; time_buffer = time' }, z.1))
                    result,
            record { held = text; sound = h2; cached = cached'; same = same' },
            ap (λ z. z.0) result,
          )
