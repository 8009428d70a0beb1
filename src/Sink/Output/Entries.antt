-- ===== src/Sink/Output/Entries.antt =====
-- The loop of `threadFunc` over the entries of a block ends, and each entry gives its line.
use constexpr_fmt_str.Prelude.{
  ℕ, zero, suc, ◌+◌, ◌^◌, ◌≤◌, ◌<◌, ◌≡◌, refl, sym, ap, ◌∙◌, Option, some, List, [], ◌∷◌, ◌++◌,
  arith, length, length-append, append_assoc, bind-some, some-same,
}
use constexpr_fmt_str.Prelude.Int.{pos}
use constexpr_fmt_str.Convert.Args.{Library}
use constexpr_fmt_str.Entry.Statement.{entry_size_at}
use constexpr_fmt_str.Staging.Slice.{slice}
use constexpr_fmt_str.Sink.Output.{StaticFmtInfo, Line, Writer, write_entry, write_entries}
use constexpr_fmt_str.Sink.Output.Lines.{
  LogEntry, AllEntries, IsWriter, slice-part, entries_bytes, named, expected_line, expected_lines,
  write_entry-line,
}
use constexpr_fmt_str.Timestamp.{Calendar, TimestampFormatter}
use constexpr_fmt_str.Sink.Output.CheckPoint.{int_of-small, minus-small}

module _ (lib : Library) (info : ℕ → Option StaticFmtInfo) (calendar : Calendar) (fuel : ℕ)
    (size : ℕ) (tsc2ns : ℕ → ℕ) where
  write_entries-step :
      (rounds at n k l at' : ℕ) (bytes name : List ℕ) (w w1 w' : Writer) (line : Line)
      (lines : List Line)
      → write_entry lib calendar fuel size tsc2ns info bytes at name w ≡ some (w1, line)
      → entry_size_at bytes at ≡ l
      → l < 2 ^ 31
      → suc n ≡ l + k
      → write_entries lib calendar fuel size tsc2ns info rounds bytes (at + l) (pos k) name w1
        ≡ some (at', w', lines)
      → write_entries lib calendar fuel size tsc2ns info (suc rounds) bytes at (pos (suc n)) name w
        ≡ some (at', w', line ∷ lines)
  unfolding write_entries
  write_entries-step rounds at n k l at' bytes name w w1 w' line lines first size_read small split
        rest =
      rw (first, size_read, int_of-small l small, minus-small (suc n) l k split, rest) refl

  -- what a loop leaves, where the lines are `lines` and the time buffer `time`
  abbrev pub Leaves : TimestampFormatter → List ℕ → Writer → Type 0
  Leaves f0 time w' = IsWriter lib info calendar fuel size tsc2ns f0 w' × (w'.time_buffer ≡ time)

  pub write_entries-lines :
      (f0 : TimestampFormatter) (es : List LogEntry) (rounds n at : ℕ)
      (bytes before after name : List ℕ) (w : Writer) (time : List ℕ) (lines : List Line)
      → AllEntries lib info es
      → bytes ≡ before ++ (entries_bytes es ++ after)
      → at ≡ length before
      → n ≡ length (entries_bytes es)
      → n ≤ rounds
      → length bytes < 2 ^ 31
      → IsWriter lib info calendar fuel size tsc2ns f0 w
      → expected_lines lib info calendar fuel size tsc2ns f0 (named name es) w.time_buffer
        ≡ some (time, lines)
      → (w' : Writer) × (write_entries lib calendar fuel size tsc2ns info rounds bytes at
            (pos n)
            name
            w
          ≡ some (at + n, w', lines))
        × Leaves f0 time w'
  unfolding write_entries
  write_entries-lines f0 [] rounds zero at bytes before after name w time lines all split here len
        le small iw x =
      let same = some-same (w.time_buffer, []) (time, lines) x in
      (
        w,
        ap (λ ls. some (at, w, ls)) (ap (λ z. z.1) same)
            ∙ ap (λ a. some (a, w, lines)) (omega arith),
        (iw, ap (λ z. z.0) same),
      )
  write_entries-lines f0 [] rounds (suc n) at bytes before after name w time lines all split here
        len le small iw x =
      absurd (omega arith)
  write_entries-lines f0 (e ∷ es) rounds zero at bytes before after name w time lines (is, all)
        split here len le small iw x =
      absurd (omega (arith, is.header, length-append e.bytes (entries_bytes es)))
  write_entries-lines f0 (e ∷ es) zero (suc n) at bytes before after name w time lines all split
        here len le small iw x =
      absurd (omega arith)
  write_entries-lines f0 (e ∷ es) (suc rounds) (suc n) at bytes before after name w time lines
        (is, all) split here len le small iw x =
      let l = length e.bytes in
      let ll = length-append e.bytes (entries_bytes es) in
      let split1 : bytes ≡ before ++ (e.bytes ++ (entries_bytes es ++ after)) =
        split ∙ ap (λ z. before ++ z) (append_assoc e.bytes (entries_bytes es) after) in
      let there : slice bytes at (at + l) ≡ e.bytes =
        ap (λ z. slice z at (at + l)) split1
        ∙ slice-part before e.bytes (entries_bytes es ++ after) at (at + l) here refl in
      let total =
        ap length split1 ∙ length-append before (e.bytes ++ (entries_bytes es ++ after)) in
      let total1 = length-append e.bytes (entries_bytes es ++ after) in
      let room : at + l ≤ length bytes = omega (arith, total, total1) in
      let ((time1, line), x1, x2) =
        bind-some (expected_line lib info calendar fuel size tsc2ns f0 name e w.time_buffer) _
          (time, lines) x in
      let ((time2, lines2), x3, x4) =
        bind-some (expected_lines lib info calendar fuel size tsc2ns f0 (named name es) time1) _
          (time, lines) x2 in
      let same = some-same (time2, line ∷ lines2) (time, lines) x4 in
      let (id_read, size_read, time_read, refines) = is.read bytes at there room small in
      let (w1, first, iw1, at1) =
        write_entry-line lib info calendar fuel size tsc2ns f0 e bytes name at w time1 line is there
          room small iw x1 in
      let split2 : bytes ≡ (before ++ e.bytes) ++ (entries_bytes es ++ after) =
        split1 ∙ sym (append_assoc before e.bytes (entries_bytes es ++ after)) in
      let (w', rest, (iw', at')) =
        write_entries-lines f0 es rounds (length (entries_bytes es)) (at + l) bytes
          (before ++ e.bytes) after name w1 time2 lines2 all split2
          (omega (arith, length-append before e.bytes)) refl (omega (arith, is.header)) small iw1
          (ap (expected_lines lib info calendar fuel size tsc2ns f0 (named name es)) at1 ∙ x3) in
      (
        w',
        write_entries-step rounds at n (length (entries_bytes es)) l
              (at + l + length (entries_bytes es)) bytes name w w1 w' line lines2 first size_read
              (omega arith) (omega arith) rest
            ∙ ap (λ ls. some (at + l + length (entries_bytes es), w', ls)) (ap (λ z. z.1) same)
            ∙ ap (λ a. some (a, w', lines)) (omega arith),
        (iw', at' ∙ ap (λ z. z.0) same),
      )
