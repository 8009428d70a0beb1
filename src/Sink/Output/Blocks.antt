-- ===== src/Sink/Output/Blocks.antt =====
-- The loops of `threadFunc` end, and each entry of each block of each buffer gives its line, in order.
use constexpr_fmt_str.Prelude.{
  ℕ, zero, suc, ◌+◌, ◌-◌, ◌*◌, ◌%◌, ◌^◌, ◌≤◌, ◌<◌, ◌≡◌, refl, sym, ap, ◌∙◌, Option, some, List, [],
  ◌∷◌, ◌++◌, arith, length, length-append, append_assoc, le→leb, bind-some, some-same,
}
use constexpr_fmt_str.Prelude.Int.{pos}
use constexpr_fmt_str.Convert.Args.{Library, int_of, size_of_int, umax_mod}
use constexpr_fmt_str.Spec.Pieces.{NoNul}
use constexpr_fmt_str.Sink.{check_point, check_point_size}
use constexpr_fmt_str.Sink.Copied.{record_of, length-check_point}
use constexpr_fmt_str.Sink.Output.{
  StaticFmtInfo, Line, Writer, write_entries, write_blocks, name_at, block_size_at,
}
use constexpr_fmt_str.Sink.Output.Lines.{
  LogEntry, AllEntries, IsWriter, entries_bytes, named, expected_line, expected_lines,
}
use constexpr_fmt_str.Timestamp.{Calendar, TimestampFormatter}
use constexpr_fmt_str.Sink.Output.CheckPoint.{int_of-small, check_point-name, check_point-size}
use constexpr_fmt_str.Sink.Output.Entries.{Leaves, write_entries-lines}

-- a block: the name of a thread and entries of it
pub record Block : Type 0 where
  pub name : List ℕ
  pub entries : List LogEntry

abbrev pub block_bytes : Block → List ℕ
block_bytes b = record_of b.name (entries_bytes b.entries)

abbrev pub block_calls : Block → List (List ℕ × LogEntry)
block_calls b = named b.name b.entries

abbrev pub blocks_bytes : List Block → List ℕ
blocks_bytes [] = []
blocks_bytes (b ∷ bs) = block_bytes b ++ blocks_bytes bs

abbrev pub blocks_calls : List Block → List (List ℕ × LogEntry)
blocks_calls [] = []
blocks_calls (b ∷ bs) = block_calls b ++ blocks_calls bs

module _ (lib : Library) (info : ℕ → Option StaticFmtInfo) where
  -- a thread's name as the staging buffer keeps it, and sound entries
  abbrev pub AllBlocks : List Block → Type 0
  AllBlocks [] = Unit
  AllBlocks (b ∷ bs) =
      (NoNul b.name × (length b.name ≤ 15) × AllEntries lib info b.entries) × AllBlocks bs

-- the next `bufLen`
next_length :
    (n m k : ℕ)
    → n ≡ m + check_point_size + k
    → n < 2 ^ 31
    → int_of
        ((size_of_int (pos n) + 2 * umax_mod - (size_of_int (pos m) + check_point_size)) % umax_mod)
      ≡ pos k
unfolding size_of_int
next_length n m k h small = ap int_of {y = k} (omega arith) ∙ int_of-small k (omega arith)

length-record_of :
    (name logline : List ℕ)
    → length name ≤ 15
    → length (record_of name logline) ≡ check_point_size + length logline
length-record_of name logline h =
    length-append (check_point name (length logline)) logline
    ∙ ap (λ n. n + length logline) (length-check_point name (length logline) (omega arith))

module _ (lib : Library) (info : ℕ → Option StaticFmtInfo) (calendar : Calendar) (fuel : ℕ)
    (size : ℕ) (tsc2ns : ℕ → ℕ) where
  expected_lines-cons :
      (f0 : TimestampFormatter) (c : List ℕ × LogEntry) (xs : List (List ℕ × LogEntry))
      (old time1 time2 : List ℕ) (line : Line) (lines : List Line)
      → expected_line lib info calendar fuel size tsc2ns f0 c.0 c.1 old ≡ some (time1, line)
      → expected_lines lib info calendar fuel size tsc2ns f0 xs time1 ≡ some (time2, lines)
      → expected_lines lib info calendar fuel size tsc2ns f0 (c ∷ xs) old
        ≡ some (time2, line ∷ lines)
  expected_lines-cons f0 c xs old time1 time2 line lines a b = rw (a, b) refl

  pub expected_lines-append :
      (f0 : TimestampFormatter) (xs ys : List (List ℕ × LogEntry)) (old time : List ℕ)
      (lines : List Line)
      → expected_lines lib info calendar fuel size tsc2ns f0 (xs ++ ys) old ≡ some (time, lines)
      → (time1 : List ℕ) × (lines1 : List Line) × (lines2 : List Line) × (expected_lines lib info
            calendar fuel size tsc2ns f0 xs old
          ≡ some (time1, lines1))
        × (expected_lines lib info calendar fuel size tsc2ns f0 ys time1 ≡ some (time, lines2))
        × (lines1 ++ lines2 ≡ lines)
  expected_lines-append f0 [] ys old time lines x = (old, [], lines, refl, x, refl)
  expected_lines-append f0 ((name, e) ∷ xs) ys old time lines x =
      let ((time1, line), x1, x2) =
        bind-some (expected_line lib info calendar fuel size tsc2ns f0 name e old) _ (time, lines)
          x in
      let ((time2, rest), x3, x4) =
        bind-some (expected_lines lib info calendar fuel size tsc2ns f0 (xs ++ ys) time1) _
          (time, lines) x2 in
      let (time3, lines1, lines2, a, b, c) = expected_lines-append f0 xs ys time1 time2 rest x3 in
      let same = some-same (time2, line ∷ rest) (time, lines) x4 in
      (
        time3,
        line ∷ lines1,
        lines2,
        expected_lines-cons f0 (name, e) xs old time1 time3 line lines1 x1 a,
        b ∙ ap (λ t. some (t, lines2)) (ap (λ z. z.0) same),
        ap (λ z. line ∷ z) c ∙ ap (λ z. z.1) same,
      )

  write_blocks-step :
      (rounds at at' n m k : ℕ) (bytes name : List ℕ) (w w1 w' : Writer) (lines lines' : List Line)
      → at + check_point_size ≤ length bytes
      → name_at bytes at ≡ name
      → block_size_at bytes at ≡ pos m
      → write_entries lib calendar fuel size tsc2ns info
          (length bytes)
          bytes
          (at + check_point_size)
          (pos m)
          name
          w
        ≡ some (at', w1, lines)
      → suc n ≡ m + check_point_size + k
      → suc n < 2 ^ 31
      → write_blocks lib calendar fuel size tsc2ns info rounds bytes at' (pos k) w1
        ≡ some (w', lines')
      → write_blocks lib calendar fuel size tsc2ns info (suc rounds) bytes at (pos (suc n)) w
        ≡ some (w', lines ++ lines')
  unfolding write_blocks
  write_blocks-step rounds at at' n m k bytes name w w1 w' lines lines' room named sized run split
        small rest =
      rw (le→leb _ _ room, named, sized, run, next_length (suc n) m k split small, rest) refl

  pub write_blocks-lines :
      (f0 : TimestampFormatter) (bs : List Block) (rounds n at : ℕ) (bytes before : List ℕ)
      (w : Writer) (time : List ℕ) (lines : List Line)
      → AllBlocks lib info bs
      → bytes ≡ before ++ blocks_bytes bs
      → at ≡ length before
      → n ≡ length (blocks_bytes bs)
      → n ≤ rounds
      → length bytes < 2 ^ 31
      → IsWriter lib info calendar fuel size tsc2ns f0 w
      → expected_lines lib info calendar fuel size tsc2ns f0 (blocks_calls bs) w.time_buffer
        ≡ some (time, lines)
      → (w' : Writer) × (write_blocks lib calendar fuel size tsc2ns info rounds bytes at (pos n) w
          ≡ some (w', lines))
        × Leaves lib info calendar fuel size tsc2ns f0 time w'
  unfolding write_blocks
  write_blocks-lines f0 [] rounds zero at bytes before w time lines all split here len le small iw
        x =
      let same = some-same (w.time_buffer, []) (time, lines) x in
      (w, ap (λ ls. some (w, ls)) (ap (λ z. z.1) same), (iw, ap (λ z. z.0) same))
  write_blocks-lines f0 [] rounds (suc n) at bytes before w time lines all split here len le small
        iw x =
      absurd (omega arith)
  write_blocks-lines f0 (b ∷ bs) rounds zero at bytes before w time lines ((plain, short, es), all)
        split here len le small iw x =
      absurd (
        omega (
          arith,
          length-append (block_bytes b) (blocks_bytes bs),
          length-record_of b.name (entries_bytes b.entries) short,
        ))
  write_blocks-lines f0 (b ∷ bs) zero (suc n) at bytes before w time lines all split here len le
        small iw x =
      absurd (omega arith)
  write_blocks-lines f0 (b ∷ bs) (suc rounds) (suc n) at bytes before w time lines
        ((plain, short, es), all) split here len le small iw x =
      let logline = entries_bytes b.entries in
      let cp = check_point b.name (length logline) in
      let m = length logline in
      let lr = length-record_of b.name logline short in
      let lc = length-check_point b.name m (omega arith) in
      let ln = length-append (block_bytes b) (blocks_bytes bs) in
      let total = ap length split ∙ length-append before (block_bytes b ++ blocks_bytes bs) in
      let inner : bytes ≡ (before ++ cp) ++ (logline ++ blocks_bytes bs) =
        split
        ∙ ap (λ z. before ++ z) (append_assoc cp logline (blocks_bytes bs))
        ∙ sym (append_assoc before cp (logline ++ blocks_bytes bs)) in
      let behind : bytes ≡ (before ++ block_bytes b) ++ blocks_bytes bs =
        split ∙ sym (append_assoc before (block_bytes b) (blocks_bytes bs)) in
      let (time1, lines1, lines2, x1, x2, both) =
        expected_lines-append f0 (block_calls b) (blocks_calls bs) w.time_buffer time lines x in
      let (w1, run, (iw1, at1)) =
        write_entries-lines lib info calendar fuel size tsc2ns f0 b.entries (length bytes) m
          (at + check_point_size) bytes (before ++ cp) (blocks_bytes bs) b.name w time1 lines1 es
          inner (omega (arith, length-append before cp)) refl (omega arith) small iw x1 in
      let (w', rest, left) =
        write_blocks-lines f0 bs rounds (length (blocks_bytes bs)) (at + check_point_size + m) bytes
          (before ++ block_bytes b) w1 time lines2 all behind
          (omega (arith, length-append before (block_bytes b))) refl (omega arith) small iw1
          (ap (expected_lines lib info calendar fuel size tsc2ns f0 (blocks_calls bs)) at1 ∙ x2) in
      (
        w',
        write_blocks-step rounds at (at + check_point_size + m) n m (length (blocks_bytes bs)) bytes
              b.name w w1 w' lines1 lines2 (omega arith)
              (check_point-name before b.name logline (blocks_bytes bs) bytes at split here plain
                short)
              (check_point-size before b.name logline (blocks_bytes bs) bytes at split here plain
                short (omega arith))
              run (omega arith) (omega arith) rest
            ∙ ap (λ ls. some (w', ls)) both,
        left,
      )
