-- ===== src/Sink/Whole.antt =====
-- The buffers of the sink hold whole calls: no check point and no bytes of a call are split over two buffers.
use constexpr_fmt_str.Prelude.{
  ℕ, ◌+◌, ◌≤◌, ◌<◌, ◌≡◌, refl, sym, ap, ◌∙◌, Bool, some, none, List, [], ◌∷◌, ◌++◌, arith, length,
  length-append, append_assoc, append-nil, Bool-cases, inl, inr, some-same,
}
use constexpr_fmt_str.Staging.{Staging}
use constexpr_fmt_str.Sink.{
  SinkLogger, BufferPtr, append_round, appended, full, check_point, check_point_size,
}
use constexpr_fmt_str.Sink.Copied.{record_of, length-check_point}
use constexpr_fmt_str.Sink.Threads.{
  SinkThread, Threads, threads, Phase, waiting, Step, append, hold, collect, write_out, Run, start,
  next, CvStatus, exchange, take_current, swap_buffers, takes_current,
}
use constexpr_fmt_str.Sink.Inv.{Inv, fresh, recycle-known}
use constexpr_fmt_str.Sink.Order.{Rounds, append_round-Rounds, hold-Inv, Run-Inv}

-- the bytes of calls, each the name of a thread and what it appends
abbrev pub records : List (List ℕ × List ℕ) → List ℕ
records [] = []
records ((name, logline) ∷ calls) = record_of name logline ++ records calls

abbrev pub AllShort : List (List ℕ × List ℕ) → Type 0
AllShort [] = Unit
AllShort ((name, logline) ∷ calls) = (length name ≤ 15) × AllShort calls

abbrev pub IsWhole : ℕ → List ℕ → Type 0
IsWhole size buffer =
    (calls : List (List ℕ × List ℕ)) × (buffer ≡ records calls)
    × AllShort calls
    × (length buffer ≤ size)

abbrev pub AllWhole : ℕ → List (List ℕ) → Type 0
AllWhole size [] = Unit
AllWhole size (b ∷ bs) = IsWhole size b × AllWhole size bs

abbrev pub ThreadsWhole : ℕ → Threads → Type 0
ThreadsWhole size (threads sink t phase) =
    IsWhole size sink.current_buffer × AllWhole size sink.buffers × AllWhole size t.buffers_to_write

empty-IsWhole : (size : ℕ) → IsWhole size []
empty-IsWhole size = ([], refl, _, omega arith)

AllWhole-append :
    (size : ℕ) (bs : List (List ℕ)) (b : List ℕ)
    → AllWhole size bs
    → IsWhole size b
    → AllWhole size (bs ++ (b ∷ []))
AllWhole-append size [] b all whole = (whole, _)
AllWhole-append size (c ∷ bs) b (first, all) whole = (first, AllWhole-append size bs b all whole)

records-append :
    (calls : List (List ℕ × List ℕ)) (name logline : List ℕ)
    → records (calls ++ ((name, logline) ∷ [])) ≡ records calls ++ record_of name logline
records-append [] name logline = append-nil (record_of name logline)
records-append ((n, l) ∷ calls) name logline =
    ap (λ z. record_of n l ++ z) (records-append calls name logline)
    ∙ sym (append_assoc (record_of n l) (records calls) (record_of name logline))

AllShort-append :
    (calls : List (List ℕ × List ℕ)) (name logline : List ℕ)
    → AllShort calls
    → length name ≤ 15
    → AllShort (calls ++ ((name, logline) ∷ []))
AllShort-append [] name logline all short = (short, _)
AllShort-append (c ∷ calls) name logline (first, all) short =
    (first, AllShort-append calls name logline all short)

record-IsWhole :
    (size : ℕ) (buffer name logline : List ℕ)
    → IsWhole size buffer
    → length name ≤ 15
    → length buffer + (length logline + check_point_size) < size
    → IsWhole size (buffer ++ record_of name logline)
record-IsWhole size buffer name logline (calls, same, all, fits) short room =
    let l1 = length-append buffer (record_of name logline) in
    let l2 = length-append (check_point name (length logline)) logline in
    let l3 = length-check_point name (length logline) (omega arith) in
    (
      calls ++ ((name, logline) ∷ []),
      ap (λ z. z ++ record_of name logline) same ∙ sym (records-append calls name logline),
      AllShort-append calls name logline all short,
      omega arith,
    )

module _ (size : ℕ) where
  append-Whole :
      (sink sink' : SinkLogger) (t : SinkThread) (phase : Phase) (sb sb' : Staging)
      (name logline : List ℕ) (blocking : Bool)
      → length name ≤ 15
      → length logline + check_point_size < size
      → append_round size name logline blocking sink sb ≡ some (appended, sink', sb')
      → Inv (threads sink t phase)
      → ThreadsWhole size (threads sink t phase)
      → ThreadsWhole size (threads sink' t phase)
  unfolding Rounds
  append-Whole sink sink' t phase sb sb' name logline blocking hn room e (nk, c, known)
        (current, queued, taken) =
      elim (append_round-Rounds size name logline blocking sink sb hn room nk c) [
        | inl (s, run, (nk', c', fits, order, moved)) ↦
            let same : record s { current_buffer = s.current_buffer ++ record_of name logline }
                ≡ sink' =
              ap (λ z. z.1) (some-same _ _ (sym run ∙ e)) in
            let both : IsWhole size s.current_buffer × AllWhole size s.buffers = elim moved [
              | inl (here, kept) ↦ rw (here, kept) (current, queued)
              | inr (taken_empty, moved_all) ↦
                  rw (taken_empty, moved_all)
                    (
                      empty-IsWhole size,
                      AllWhole-append size sink.buffers sink.current_buffer queued current,
                    )
            ] in
            rw (← same)
              (record-IsWhole size s.current_buffer name logline both.0 hn fits, both.1, taken)
        | inr held ↦
            let same : appended ≡ full = ap (λ z. z.0) (some-same _ _ (sym e ∙ held)) in
            absurd (ground (arith, same))
      ]

  Exchanged : SinkLogger × SinkThread → Type 0
  Exchanged z = ThreadsWhole size (threads z.0 z.1 waiting)

  exchange-Whole :
      (status : CvStatus) (current : List ℕ) (next_buffer : BufferPtr) (bs : List (List ℕ))
      (count : ℕ) (z : SinkLogger × SinkThread)
      → exchange size status
          (record {
            current_buffer = current;
            next_buffer = next_buffer;
            buffers = bs;
            new_buffer_count = count;
          })
          fresh
        ≡ some z
      → IsWhole size current
      → AllWhole size bs
      → Exchanged z
  unfolding exchange take_current swap_buffers Exchanged
  exchange-Whole status current none bs count z e whole all =
      elim (Bool-cases (takes_current size status current)) [
        | inl f ↦
            rw (← some-same _ _ (rw f at e))
              (empty-IsWhole size, _, AllWhole-append size bs current all whole)
        | inr f ↦ rw (← some-same _ _ (rw f at e)) (whole, _, all)
      ]
  exchange-Whole status current (some b) bs count z e whole all =
      elim (Bool-cases (takes_current size status current)) [
        | inl f ↦
            rw (← some-same _ _ (rw f at e))
              (empty-IsWhole size, _, AllWhole-append size bs current all whole)
        | inr f ↦ rw (← some-same _ _ (rw f at e)) (whole, _, all)
      ]

  Step-Whole :
      (x y : Threads) (bytes taken : List ℕ)
      → Step size x y bytes taken
      → Inv x
      → ThreadsWhole size x
      → ThreadsWhole size y
  unfolding Exchanged
  Step-Whole x y bytes taken (append sink sink' t phase sb sb' name logline blocking hn room e) i
        w =
      append-Whole sink sink' t phase sb sb' name logline blocking hn room e i w
  Step-Whole x y bytes taken (hold sink sink' t phase sb sb' name logline blocking hn room e) i w =
      rw (← hold-Inv size sink sink' t phase sb sb' name logline blocking hn room e i) w
  Step-Whole x y bytes taken (collect sink sink' t t' status e) (nk, c, known)
        (current, queued, none_taken) =
      exchange-Whole status sink.current_buffer sink.next_buffer sink.buffers sink.new_buffer_count
        (sink', t') (rw known at e) current queued
  Step-Whole x y bytes taken (write_out sink sink' t t' e) (nk, c, (s1, s2, h))
        (current, queued, written) =
      let run = recycle-known sink t.new_buffer1 t.new_buffer2 t.buffers_to_write s1 s2 h in
      let same =
        some-same (record sink { new_buffer_count = 0 }, fresh) (sink', t') (sym run ∙ e) in
      rw (← ap (λ z. z.0) same, ← ap (λ z. z.1) same) (current, queued, _)

  -- In every run of the thread that appends and the sink thread, for calls with names of at most 15 characters that
  -- fit in an empty buffer, every buffer, the current one, the full ones and those to write, holds the bytes of whole
  -- calls, each behind its check point, and no more bytes than its size.
  pub Run-Whole :
      {x : Threads} {all written : List ℕ} → Run size x all written → ThreadsWhole size x
  Run-Whole start = (empty-IsWhole size, _, _)
  Run-Whole (next {x} {y} {all} {written} {bytes} {taken} run step) =
      Step-Whole x y bytes taken step (Run-Inv size run).0 (Run-Whole run)
