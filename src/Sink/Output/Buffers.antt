-- ===== src/Sink/Output/Buffers.antt =====
-- The loop of `threadFunc` over the buffers to write.
use constexpr_fmt_str.Prelude.{
  map, ℕ, ◌^◌, ◌<◌, ◌≡◌, refl, ap, ◌∙◌, Option, some, List, [], ◌∷◌, ◌++◌, arith, length, replicate,
  length-replicate, some-same,
}
use constexpr_fmt_str.Prelude.Int.{pos}
use constexpr_fmt_str.Convert.Args.{Library, int_of}
use constexpr_fmt_str.Sink.Output.{
  StaticFmtInfo, Line, Writer, new_writer, write_blocks, write_buffers,
}
use constexpr_fmt_str.Sink.Output.Lines.{LogEntry, IsWriter, expected_lines}
use constexpr_fmt_str.Timestamp.{Calendar, TimestampFormatter, Timezone, make_formatter, search}
use constexpr_fmt_str.Timestamp.Cache.{formatter_of-IsCached}
use constexpr_fmt_str.Outbuf.Holds.{create-Holds}
use constexpr_fmt_str.Sink.Output.CheckPoint.{int_of-small}
use constexpr_fmt_str.Sink.Output.Entries.{Leaves}
use constexpr_fmt_str.Sink.Output.Blocks.{
  Block, blocks_bytes, blocks_calls, AllBlocks, expected_lines-append, write_blocks-lines,
}

abbrev pub buffers_calls : List (List Block) → List (List ℕ × LogEntry)
buffers_calls [] = []
buffers_calls (bs ∷ rest) = blocks_calls bs ++ buffers_calls rest

module _ (lib : Library) (info : ℕ → Option StaticFmtInfo) where
  -- the buffers to write: the bytes of each fit in an `int`
  abbrev pub AllBuffers : List (List Block) → Type 0
  AllBuffers [] = Unit
  AllBuffers (bs ∷ rest) =
      (AllBlocks lib info bs × (length (blocks_bytes bs) < 2 ^ 31)) × AllBuffers rest

module _ (lib : Library) (info : ℕ → Option StaticFmtInfo) (calendar : Calendar) (fuel : ℕ)
    (size : ℕ) (tsc2ns : ℕ → ℕ) where
  -- the variables of `threadFunc` at its start, with a formatter that the constructor made
  pub new_writer-IsWriter :
      (format : List ℕ) (zone : Timezone) (now : ℕ) (f : TimestampFormatter) (time_buffer : List ℕ)
      → make_formatter calendar fuel format zone now ≡ some f
      → size < 2 ^ 63
      → IsWriter lib info calendar fuel size tsc2ns f (new_writer size f time_buffer)
  unfolding make_formatter
  new_writer-IsWriter format zone now f time_buffer made small = record {
    held = [];
    sound = create-Holds (replicate size 0) size (length-replicate {A = ℕ} size 0) small;
    cached = formatter_of-IsCached calendar fuel format zone now (search format) f made;
    same = λ second. refl;
  }

  write_buffers-step :
      (bs : List Block) (n : ℕ) (w w1 w' : Writer) (lines lines' : List Line) (rest : List (List ℕ))
      → int_of (length (blocks_bytes bs)) ≡ pos n
      → write_blocks lib calendar fuel size tsc2ns info
          (length (blocks_bytes bs))
          (blocks_bytes bs)
          0
          (pos n)
          w
        ≡ some (w1, lines)
      → write_buffers lib calendar fuel size tsc2ns info rest w1 ≡ some (w', lines')
      → write_buffers lib calendar fuel size tsc2ns info (blocks_bytes bs ∷ rest) w
        ≡ some (w', lines ++ lines')
  unfolding write_buffers
  write_buffers-step bs n w w1 w' lines lines' rest sized run run' = rw (sized, run, run') refl

  -- For buffers that hold blocks of entries, each block behind the check point of its thread, a name without '\0' of at
  -- most 15 characters, and less than 2^31 bytes in a buffer: the three loops of `threadFunc` end, read no byte behind
  -- the bytes of a buffer, and give one line for each entry, in the order of the entries, with the name of its thread
  -- and the text of its timestamp as it would be formatted anew, wherever these lines are defined; and they leave the
  -- variables ready for the next buffers.
  pub write_buffers-lines :
      (f0 : TimestampFormatter) (buffers : List (List Block)) (w : Writer) (time : List ℕ)
      (lines : List Line)
      → AllBuffers lib info buffers
      → IsWriter lib info calendar fuel size tsc2ns f0 w
      → expected_lines lib info calendar fuel size tsc2ns f0 (buffers_calls buffers) w.time_buffer
        ≡ some (time, lines)
      → (w' : Writer) × (write_buffers lib calendar fuel size tsc2ns info
            (map blocks_bytes buffers)
            w
          ≡ some (w', lines))
        × Leaves lib info calendar fuel size tsc2ns f0 time w'
  unfolding write_buffers
  write_buffers-lines f0 [] w time lines all iw x =
      let same = some-same (w.time_buffer, []) (time, lines) x in
      (w, ap (λ ls. some (w, ls)) (ap (λ z. z.1) same), (iw, ap (λ z. z.0) same))
  write_buffers-lines f0 (bs ∷ rest) w time lines ((good, small), all) iw x =
      let (time1, lines1, lines2, x1, x2, both) =
        expected_lines-append lib info calendar fuel size tsc2ns f0 (blocks_calls bs)
          (buffers_calls rest) w.time_buffer time lines x in
      let n = length (blocks_bytes bs) in
      let (w1, run, (iw1, at1)) =
        write_blocks-lines lib info calendar fuel size tsc2ns f0 bs n n 0 (blocks_bytes bs) [] w
          time1 lines1 good refl refl refl (omega arith) small iw x1 in
      let (w', run', left) =
        write_buffers-lines f0 rest w1 time lines2 all iw1 (
          ap (expected_lines lib info calendar fuel size tsc2ns f0 (buffers_calls rest)) at1
          ∙ x2) in
      (
        w',
        write_buffers-step bs n w w1 w' lines1 lines2 (map blocks_bytes rest) (int_of-small n small)
              run run'
            ∙ ap (λ ls. some (w', ls)) both,
        left,
      )
