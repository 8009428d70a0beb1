-- ===== src/Sink/Inv.antt =====
-- The invariant of the two threads: no pointer to a buffer is null where the code uses it, and no assertion fails.
use constexpr_fmt_str.Prelude.{
  ℕ, ◌+◌, ◌-◌, ◌≤◌, ◌<◌, ◌≡◌, refl, sym, ap, ◌∙◌, Bool, Option, some, none, List, [], ◌∷◌, ◌++◌,
  arith, ltb, length, length-append, append_assoc, append-nil, ltb→lt, Bool-cases, inl, inr, ◌⊎◌,
  if◌then◌else◌, ◌>>=◌,
}
use constexpr_fmt_str.Staging.{Staging, consume}
use constexpr_fmt_str.Sink.{
  SinkLogger, BufferPtr, append_internal, append_round, Outcome, appended, full, check_point_size,
  supplementary_sinkbuffer_maximum_size,
}
use constexpr_fmt_str.Sink.Threads.{
  SinkThread, Threads, threads, Phase, waiting, writing, CvStatus, exchange, recycle, take_current,
  swap_buffers, refill, takes_current, phase_of, concat,
}

-- a pointer to a spare buffer is null or the buffer is empty
abbrev pub IsSpare : BufferPtr → Type 0
IsSpare none = Unit
IsSpare (some b) = b ≡ []

abbrev pub spent : BufferPtr → ℕ
spent none = 1
spent (some b) = 0

-- `nextBuffer_` is null only while buffers wait for the sink thread
abbrev pub NextKnown : BufferPtr → List (List ℕ) → Type 0
NextKnown next_buffer bs = IsSpare next_buffer × (spent next_buffer ≤ length bs)

abbrev pub fresh : SinkThread
fresh = record { new_buffer1 = some []; new_buffer2 = some []; buffers_to_write = [] }

-- for every spare buffer that is null there is a buffer to write
abbrev pub ThreadKnown : Phase → SinkThread → Type 0
ThreadKnown waiting t = t ≡ fresh
ThreadKnown writing t =
    IsSpare t.new_buffer1
    × IsSpare t.new_buffer2
    × (spent t.new_buffer1 + spent t.new_buffer2 ≤ length t.buffers_to_write)

abbrev pub Inv : Threads → Type 0
Inv (threads sink t phase) =
    NextKnown sink.next_buffer sink.buffers
    × (sink.new_buffer_count ≤ supplementary_sinkbuffer_maximum_size)
    × ThreadKnown phase t

swap_buffers-Inv :
    (next_buffer b1 : BufferPtr) (bs : List (List ℕ)) (current : List ℕ) (count : ℕ)
    → IsSpare next_buffer
    → IsSpare b1
    → spent b1 + spent next_buffer ≤ length bs
    → count ≤ supplementary_sinkbuffer_maximum_size
    → let (sink', t') =
        swap_buffers
          (record {
            current_buffer = current;
            next_buffer = next_buffer;
            buffers = bs;
            new_buffer_count = count;
          })
          (record { new_buffer1 = b1; new_buffer2 = some []; buffers_to_write = [] }) in
      Inv (threads sink' t' (phase_of t'.buffers_to_write))
unfolding swap_buffers
swap_buffers-Inv none b1 [] current count n f h c = absurd (omega arith)
swap_buffers-Inv none b1 (b ∷ bs) current count n f h c = ((refl, omega arith), c, (f, _, h))
swap_buffers-Inv (some b) none [] current count n f h c = absurd (omega arith)
swap_buffers-Inv (some b) (some b') [] current count n f h c = ((n, omega arith), c, rw f refl)
swap_buffers-Inv (some b) b1 (b' ∷ bs) current count n f h c = ((n, omega arith), c, (f, refl, h))

pub exchange-Inv :
    (size : ℕ) (status : CvStatus) (sink : SinkLogger)
    → NextKnown sink.next_buffer sink.buffers
    → sink.new_buffer_count ≤ supplementary_sinkbuffer_maximum_size
    → (sink' : SinkLogger) × (t' : SinkThread) × (exchange size status sink fresh
        ≡ some (sink', t'))
      × Inv (threads sink' t' (phase_of t'.buffers_to_write))
unfolding exchange take_current
exchange-Inv size status sink (spare, known) c =
    elim (Bool-cases (takes_current size status sink.current_buffer)) [
      | inl e ↦
          let bs = sink.buffers ++ (sink.current_buffer ∷ []) in
          let taken =
            swap_buffers (record sink { current_buffer = []; buffers = bs })
              (record fresh { new_buffer1 = none }) in
          (
            taken.0,
            taken.1,
            rw e refl,
            swap_buffers-Inv sink.next_buffer none bs [] sink.new_buffer_count spare _
                (omega (arith, length-append sink.buffers (sink.current_buffer ∷ []))) c,
          )
      | inr e ↦
          let kept = swap_buffers sink fresh in
          (
            kept.0,
            kept.1,
            rw e refl,
            swap_buffers-Inv sink.next_buffer (some []) sink.buffers sink.current_buffer
                sink.new_buffer_count spare refl (omega arith) c,
          )
    ]

pub recycle-known :
    (sink : SinkLogger) (b1 b2 : BufferPtr) (bs : List (List ℕ))
    → IsSpare b1
    → IsSpare b2
    → spent b1 + spent b2 ≤ length bs
    → recycle sink (record { new_buffer1 = b1; new_buffer2 = b2; buffers_to_write = bs })
      ≡ some (record sink { new_buffer_count = 0 }, fresh)
unfolding recycle refill
recycle-known sink (some b) (some b') bs s1 s2 h = rw (s1, s2) refl
recycle-known sink (some b) none [] s1 s2 h = absurd (omega arith)
recycle-known sink (some b) none (c ∷ []) s1 s2 h = rw s1 refl
recycle-known sink (some b) none (c ∷ d ∷ bs) s1 s2 h = rw s1 refl
recycle-known sink none (some b') [] s1 s2 h = absurd (omega arith)
recycle-known sink none (some b') (c ∷ []) s1 s2 h = rw s2 refl
recycle-known sink none (some b') (c ∷ d ∷ bs) s1 s2 h = rw s2 refl
recycle-known sink none none [] s1 s2 h = absurd (omega arith)
recycle-known sink none none (c ∷ []) s1 s2 h = absurd (omega arith)
recycle-known sink none none (c ∷ d ∷ bs) s1 s2 h = refl

-- the bytes go to the same buffer, or the buffer is queued as a whole and an empty one is taken
abbrev pub Moved : SinkLogger → SinkLogger → Type 0
Moved sink s =
    ((s.current_buffer ≡ sink.current_buffer) × (s.buffers ≡ sink.buffers))
    ⊎ ((s.current_buffer ≡ []) × (s.buffers ≡ sink.buffers ++ (sink.current_buffer ∷ [])))

-- the buffer that a round of `append` puts the bytes in: all bytes keep their order, and there is room
abbrev pub Destination : ℕ → List ℕ → SinkLogger → SinkLogger → Type 0
Destination size logline sink s =
    NextKnown s.next_buffer s.buffers
    × (s.new_buffer_count ≤ supplementary_sinkbuffer_maximum_size)
    × (length s.current_buffer + (length logline + check_point_size) < size)
    × (concat s.buffers ++ s.current_buffer ≡ concat sink.buffers ++ sink.current_buffer)
    × Moved sink s

pub concat-last : (bs : List (List ℕ)) (b : List ℕ) → concat (bs ++ (b ∷ [])) ++ [] ≡ concat bs ++ b
concat-last [] b = append-nil (b ++ []) ∙ append-nil b
concat-last (c ∷ bs) b =
    append_assoc c (concat (bs ++ (b ∷ []))) []
    ∙ ap (λ z. c ++ z) (concat-last bs b)
    ∙ sym (append_assoc c (concat bs) b)

abbrev pub then_appended : Option (SinkLogger × Staging) → Option (Outcome × SinkLogger × Staging)
then_appended m = m >>= λ (s, sb). some (appended, s, sb)

-- what a round of `append` does, for a call that fits in an empty buffer
pub append_round-Destination :
    (size : ℕ) (name logline : List ℕ) (blocking : Bool) (sb : Staging) (current : List ℕ)
    (next_buffer : BufferPtr) (bs : List (List ℕ)) (count : ℕ)
    → length logline + check_point_size < size
    → NextKnown next_buffer bs
    → count ≤ supplementary_sinkbuffer_maximum_size
    → let sink : SinkLogger = record {
      current_buffer = current;
      next_buffer = next_buffer;
      buffers = bs;
      new_buffer_count = count;
    } in
      ((s : SinkLogger) × (append_round size name logline blocking sink sb
          ≡ then_appended (append_internal size name logline s sb))
        × Destination size logline sink s)
      ⊎ (append_round size name logline blocking sink sb
          ≡ some (full, sink, if blocking then sb else consume (length logline) sb))
unfolding append_round
append_round-Destination size name logline blocking sb current (some b) bs count room (spare, known)
      c =
    elim (Bool-cases (ltb (length logline + check_point_size) (size - length current))) [
      | inl e ↦
          let here = ltb→lt (length logline + check_point_size) (size - length current) e in
          inl (
            record {
              current_buffer = current;
              next_buffer = some b;
              buffers = bs;
              new_buffer_count = count;
            },
            rw e refl,
            ((spare, known), c, omega arith, refl, inl (refl, refl)),
          )
      | inr e ↦
          let l = length-append bs (current ∷ []) in
          inl (
            record {
              current_buffer = b;
              next_buffer = none;
              buffers = bs ++ (current ∷ []);
              new_buffer_count = count;
            },
            rw e refl,
            (
              (_, omega arith),
              c,
              rw spare (omega arith),
              rw spare (concat-last bs current),
              inr (spare, refl),
            ),
          )
    ]
append_round-Destination size name logline blocking sb current none bs count room (spare, known) c =
    elim (Bool-cases (ltb (length logline + check_point_size) (size - length current))) [
      | inl e ↦
          let here = ltb→lt (length logline + check_point_size) (size - length current) e in
          inl (
            record {
              current_buffer = current;
              next_buffer = none;
              buffers = bs;
              new_buffer_count = count;
            },
            rw e refl,
            ((spare, known), c, omega arith, refl, inl (refl, refl)),
          )
      | inr e ↦ elim (Bool-cases (ltb count supplementary_sinkbuffer_maximum_size)) [
        | inl f ↦
            let l = length-append bs (current ∷ []) in
            let few = ltb→lt count supplementary_sinkbuffer_maximum_size f in
            inl (
              record {
                current_buffer = [];
                next_buffer = none;
                buffers = bs ++ (current ∷ []);
                new_buffer_count = count + 1;
              },
              rw (e, f) refl,
              (
                (_, omega arith),
                omega arith,
                omega arith,
                concat-last bs current,
                inr (refl, refl),
              ),
            )
        | inr f ↦ inr (rw (e, f) refl)
      ]
    ]
