-- ===== src/Sink/Order.antt =====
-- Runs of the two threads: the invariant holds, and the bytes come out in the order in which they were appended.
use constexpr_fmt_str.Prelude.{
  ℕ, ◌+◌, ◌≤◌, ◌<◌, ◌≡◌, ◌≢◌, refl, sym, ap, ◌∙◌, Bool, true, Option, some, none, List, ◌++◌, arith,
  length, append_assoc, append-nil, Bool-cases, inl, inr, ◌⊎◌, if◌then◌else◌, some-same,
}
use constexpr_fmt_str.Staging.{Staging, consume}
use constexpr_fmt_str.Sink.{
  SinkLogger, BufferPtr, append_round, appended, full, check_point_size,
  supplementary_sinkbuffer_maximum_size,
}
use constexpr_fmt_str.Sink.Copied.{append_internal-room, record_of}
use constexpr_fmt_str.Sink.Threads.{
  SinkThread, Threads, threads, Phase, waiting, writing, initial, Step, append, hold, collect,
  write_out, Run, start, next, asserted, CvStatus, exchange, take_current, swap_buffers,
  takes_current, recycle, phase_of, concat,
}
use constexpr_fmt_str.Sink.Inv.{
  Inv, NextKnown, Destination, append_round-Destination, exchange-Inv, recycle-known, fresh,
  concat-last,
}

module _ (size : ℕ) (name logline : List ℕ) (blocking : Bool) (sink : SinkLogger)
    (sb : Staging) where
  -- what a round of `append` gives
  unfoldable pub Rounds : Type 0
  Rounds =
      ((s : SinkLogger) × (append_round size name logline blocking sink sb
          ≡ some (
            appended,
            record s { current_buffer = s.current_buffer ++ record_of name logline },
            consume (length logline) sb,
          ))
        × Destination size logline sink s)
      ⊎ (append_round size name logline blocking sink sb
          ≡ some (full, sink, if blocking then sb else consume (length logline) sb))

  pub append_round-Rounds :
      length name ≤ 15
      → length logline + check_point_size < size
      → NextKnown sink.next_buffer sink.buffers
      → sink.new_buffer_count ≤ supplementary_sinkbuffer_maximum_size
      → Rounds
  unfolding Rounds
  append_round-Rounds hn room nk c =
      elim (append_round-Destination size name logline blocking sb sink.current_buffer
        sink.next_buffer sink.buffers sink.new_buffer_count room nk c) [
          | inl (s, run, (nk', c', fits, order, moved)) ↦ inl (
            s,
            run ∙ rw (append_internal-room size name logline s sb (omega arith) fits) refl,
            (nk', c', fits, order, moved),
          )
          | inr held ↦ inr held
        ]

-- the bytes that are appended and not yet formatted
abbrev pub pending : Threads → List ℕ
pending (threads sink t phase) =
    concat t.buffers_to_write ++ (concat sink.buffers ++ sink.current_buffer)

some≢none : {A : Type 0} (m : Option A) (a : A) → m ≡ some a → m ≢ none
some≢none m a e n = ground (arith, sym e ∙ n)

module _ (size : ℕ) where
  append-Inv :
      (sink sink' : SinkLogger) (t : SinkThread) (phase : Phase) (sb sb' : Staging)
      (name logline : List ℕ) (blocking : Bool)
      → length name ≤ 15
      → length logline + check_point_size < size
      → append_round size name logline blocking sink sb ≡ some (appended, sink', sb')
      → Inv (threads sink t phase)
      → Inv (threads sink' t phase)
        × (pending (threads sink' t phase)
            ≡ pending (threads sink t phase) ++ record_of name logline)
  unfolding Rounds
  append-Inv sink sink' t phase sb sb' name logline blocking hn room e (nk, c, known) =
      elim (append_round-Rounds size name logline blocking sink sb hn room nk c) [
        | inl (s, run, (nk', c', fits, order, moved)) ↦
            let same : record s { current_buffer = s.current_buffer ++ record_of name logline }
                ≡ sink' =
              ap (λ z. z.1) (some-same _ _ (sym run ∙ e)) in
            let kept : concat s.buffers ++ (s.current_buffer ++ record_of name logline)
                ≡ (concat sink.buffers ++ sink.current_buffer) ++ record_of name logline =
              sym (append_assoc (concat s.buffers) s.current_buffer (record_of name logline))
              ∙ ap (λ z. z ++ record_of name logline) order in
            rw (← same) (
              (nk', c', known),
              ap (λ z. concat t.buffers_to_write ++ z) kept
                  ∙ sym (
                      append_assoc (concat t.buffers_to_write)
                        (concat sink.buffers ++ sink.current_buffer) (record_of name logline)),
            )
        | inr held ↦
            let same : appended ≡ full = ap (λ z. z.0) (some-same _ _ (sym e ∙ held)) in
            absurd (ground (arith, same))
      ]

  pub hold-Inv :
      (sink sink' : SinkLogger) (t : SinkThread) (phase : Phase) (sb sb' : Staging)
      (name logline : List ℕ) (blocking : Bool)
      → length name ≤ 15
      → length logline + check_point_size < size
      → append_round size name logline blocking sink sb ≡ some (full, sink', sb')
      → Inv (threads sink t phase)
      → sink ≡ sink'
  unfolding Rounds
  hold-Inv sink sink' t phase sb sb' name logline blocking hn room e (nk, c, known) =
      elim (append_round-Rounds size name logline blocking sink sb hn room nk c) [
        | inl (s, run, d) ↦
            let same : appended ≡ full = ap (λ z. z.0) (some-same _ _ (sym run ∙ e)) in
            absurd (ground (arith, same))
        | inr held ↦ ap (λ z. z.1) (some-same _ _ (sym held ∙ e))
      ]

  abbrev pending_of : Phase → SinkLogger × SinkThread → List ℕ
  pending_of phase z = pending (threads z.0 z.1 phase)

  exchange-pending :
      (status : CvStatus) (current : List ℕ) (next_buffer : BufferPtr) (bs : List (List ℕ))
      (count : ℕ) (sink' : SinkLogger) (t' : SinkThread) (phase : Phase)
      → exchange size status
          (record {
            current_buffer = current;
            next_buffer = next_buffer;
            buffers = bs;
            new_buffer_count = count;
          })
          fresh
        ≡ some (sink', t')
      → pending (threads sink' t' phase) ≡ concat bs ++ current
  unfolding exchange take_current swap_buffers
  exchange-pending status current none bs count sink' t' phase e =
      elim (Bool-cases (takes_current size status current)) [
        | inl f ↦ ap (pending_of phase) (sym (some-same _ _ (rw f at e))) ∙ concat-last bs current
        | inr f ↦ ap (pending_of phase) (sym (some-same _ _ (rw f at e)))
      ]
  exchange-pending status current (some b) bs count sink' t' phase e =
      elim (Bool-cases (takes_current size status current)) [
        | inl f ↦ ap (pending_of phase) (sym (some-same _ _ (rw f at e))) ∙ concat-last bs current
        | inr f ↦ ap (pending_of phase) (sym (some-same _ _ (rw f at e)))
      ]

  Step-Inv :
      (x y : Threads) (bytes taken : List ℕ)
      → Step size x y bytes taken
      → Inv x
      → Inv y × (taken ++ pending y ≡ pending x ++ bytes)
  Step-Inv x y bytes taken (append sink sink' t phase sb sb' name logline blocking hn room e) i =
      append-Inv sink sink' t phase sb sb' name logline blocking hn room e i
  Step-Inv x y bytes taken (hold sink sink' t phase sb sb' name logline blocking hn room e) i =
      let same = hold-Inv sink sink' t phase sb sb' name logline blocking hn room e i in
      rw (← same) (i, sym (append-nil (pending (threads sink t phase))))
  Step-Inv x y bytes taken (collect sink sink' t t' status e) (nk, c, known) =
      let run : exchange size status sink fresh ≡ some (sink', t') = rw known at e in
      let (s, u, run', inv) = exchange-Inv size status sink nk c in
      let same = some-same (s, u) (sink', t') (sym run' ∙ run) in
      (
        rw (← ap (λ z. z.0) same, ← ap (λ z. z.1) same) inv,
        exchange-pending status sink.current_buffer sink.next_buffer sink.buffers
              sink.new_buffer_count sink' t' (phase_of t'.buffers_to_write) run
            ∙ rw known (sym (append-nil (concat sink.buffers ++ sink.current_buffer))),
      )
  Step-Inv x y bytes taken (write_out sink sink' t t' e) (nk, c, (s1, s2, h)) =
      let run = recycle-known sink t.new_buffer1 t.new_buffer2 t.buffers_to_write s1 s2 h in
      let same =
        some-same (record sink { new_buffer_count = 0 }, fresh) (sink', t') (sym run ∙ e) in
      rw (← ap (λ z. z.0) same, ← ap (λ z. z.1) same)
        ((nk, omega arith, refl), sym (append-nil (pending (threads sink t writing))))

  initial-Inv : Inv initial
  initial-Inv = ((refl, omega arith), omega arith, refl)

  pub Run-Inv :
      {x : Threads} {all written : List ℕ}
      → Run size x all written
      → Inv x × (written ++ pending x ≡ all)
  Run-Inv start = (initial-Inv, refl)
  Run-Inv (next {x} {y} {all} {written} {bytes} {taken} run step) =
      let (inv, order) = Run-Inv run in
      let (inv', order') = Step-Inv x y bytes taken step inv in
      (
        inv',
        append_assoc written taken (pending y)
            ∙ ap (λ z. written ++ z) order'
            ∙ sym (append_assoc written (pending x) bytes)
            ∙ ap (λ z. z ++ bytes) order,
      )

  -- In every run of the thread that appends and the sink thread, whatever way their critical sections follow one
  -- another, for calls with names of at most 15 characters that fit in an empty buffer: the bytes that the sink thread
  -- has formatted, then those of the buffers to write, then those of the full buffers in their order and those of the
  -- current buffer, are the bytes of all calls that found a buffer, each behind its check point, in the order of the
  -- calls.
  pub Run-order :
      {x : Threads} {all written : List ℕ} → Run size x all written → written ++ pending x ≡ all
  Run-order run = (Run-Inv run).1

  -- both threads go on: a round of `append` and the next part of the sink thread do not fail, nor do its assertions
  abbrev pub GoesOn : CvStatus → Phase → SinkLogger → SinkThread → Type 0
  GoesOn status waiting sink t = (asserted t ≡ true) × (exchange size status sink t ≢ none)
  GoesOn status writing sink t = recycle sink t ≢ none

  phase-GoesOn :
      (status : CvStatus) (phase : Phase) (sink : SinkLogger) (t : SinkThread)
      → Inv (threads sink t phase)
      → GoesOn status phase sink t
  unfolding asserted
  phase-GoesOn status waiting sink t (nk, c, known) =
      let (s, u, run, inv) = exchange-Inv size status sink nk c in
      (rw known refl, some≢none (exchange size status sink t) (s, u) (rw known run))
  phase-GoesOn status writing sink t (nk, c, (s1, s2, h)) =
      some≢none _ _ (recycle-known sink t.new_buffer1 t.new_buffer2 t.buffers_to_write s1 s2 h)

  -- In every state that such a run reaches, whatever the wait for the condition variable returns: a round of append for
  -- a call with a name of at most 15 characters that fits in an empty buffer ends without a failed assertion; the
  -- assertions at the head of threadFunc hold and its exchange of buffers uses no null pointer; and behind the writing
  -- there is a written buffer for every spare buffer that was given away, as the assertions there state. At most four
  -- supplementary buffers are counted.
  pub Run-GoesOn :
      {sink : SinkLogger} {t : SinkThread} {phase : Phase} {all written : List ℕ}
      (status : CvStatus) (name logline : List ℕ) (blocking : Bool) (sb : Staging)
      → length name ≤ 15
      → length logline + check_point_size < size
      → Run size (threads sink t phase) all written
      → (append_round size name logline blocking sink sb ≢ none)
        × GoesOn status phase sink t
        × (sink.new_buffer_count ≤ supplementary_sinkbuffer_maximum_size)
  unfolding Rounds
  Run-GoesOn {sink} {t} {phase} status name logline blocking sb hn room run =
      let ((nk, c, known), order) = Run-Inv run in
      (
        elim (append_round-Rounds size name logline blocking sink sb hn room nk c) [
          | inl (s, done, d) ↦ some≢none _ _ done
          | inr held ↦ some≢none _ _ held
        ],
        phase-GoesOn status phase sink t (nk, c, known),
        c,
      )
