-- ===== src/Sink/Threads.antt =====
-- The sink thread `threadFunc`, and its steps between those of the thread that appends.
use constexpr_fmt_str.Prelude.{
  ℕ, ◌+◌, ◌*◌, Bool, false, ◌&&◌, Option, none, some, List, [], ◌∷◌, ◌++◌, ◌≡◌, ◌≤◌, ◌<◌, ltb, ◌==◌,
  if◌then◌else◌, ◌>>=◌, length, take,
}
use constexpr_fmt_str.Staging.{Staging}
use constexpr_fmt_str.Sink.{
  BufferPtr, SinkLogger, append_round, check_point, appended, full, check_point_size,
}

-- `newBuffer1`, `newBuffer2` and `buffersToWrite`
pub record SinkThread : Type 0 where
  pub new_buffer1 : BufferPtr
  pub new_buffer2 : BufferPtr
  pub buffers_to_write : List (List ℕ)

-- `newBuffer && newBuffer->length() == 0`
abbrev pub is_fresh : BufferPtr → Bool
is_fresh none = false
is_fresh (some b) = length b == 0

-- the assertions at the head of the loop
unfoldable pub asserted : SinkThread → Bool
asserted t = is_fresh t.new_buffer1 && is_fresh t.new_buffer2 && length t.buffers_to_write == 0

-- `std::cv_status`
pub data CvStatus : Type 0 where
  no_timeout timeout : CvStatus

-- is the buffer taken although it may have room
abbrev pub takes_current : ℕ → CvStatus → List ℕ → Bool
takes_current size no_timeout buffer = ltb (4 * size) (5 * length buffer)
takes_current size timeout buffer = ltb 0 (length buffer)

-- `buffers_.push_back(std::move(currentBuffer_)); currentBuffer_ = std::move(newBuffer1);`; a null `currentBuffer_`
-- is an error at its next use
unfoldable pub take_current : SinkLogger → SinkThread → Option (SinkLogger × SinkThread)
take_current sink t = t.new_buffer1 >>= λ buffer. some (
  record sink { current_buffer = buffer; buffers = sink.buffers ++ (sink.current_buffer ∷ []) },
  record t { new_buffer1 = none },
)

-- `buffersToWrite.swap(buffers_)`, and a next buffer if there is none
unfoldable pub swap_buffers : SinkLogger → SinkThread → SinkLogger × SinkThread
swap_buffers sink t =
    let sink' = record sink { buffers = t.buffers_to_write } in
    let t' = record t { buffers_to_write = sink.buffers } in
    elim sink.next_buffer [
      | none ↦ (record sink' { next_buffer = t.new_buffer2 }, record t' { new_buffer2 = none })
      | some b ↦ (sink', t')
    ]

-- the part of the loop under the lock
unfoldable pub exchange : ℕ → CvStatus → SinkLogger → SinkThread → Option (SinkLogger × SinkThread)
unfolding take_current swap_buffers
exchange size status sink t =
    (if takes_current size status sink.current_buffer then take_current sink t else some (sink, t))
    >>= λ (sink', t'). some (swap_buffers sink' t')

-- `buffersToWrite.back()` and `pop_back`, with the assertion that there is one
abbrev pub pop_back : List (List ℕ) → Option (List ℕ × List (List ℕ))
pop_back [] = none
pop_back (b ∷ []) = some (b, [])
pop_back (b ∷ c ∷ bs) = pop_back (c ∷ bs) >>= λ (last, rest). some (last, b ∷ rest)

-- a null pointer gets a written buffer, which is reset
unfoldable pub refill : BufferPtr → List (List ℕ) → Option (BufferPtr × List (List ℕ))
refill (some b) written = some (some b, written)
refill none written = pop_back written >>= λ (last, rest). some (some [], rest)

-- the end of the loop, behind the writing
unfoldable pub recycle : SinkLogger → SinkThread → Option (SinkLogger × SinkThread)
unfolding refill
recycle sink t = refill t.new_buffer1 (take 2 t.buffers_to_write) >>= λ (b1, rest1).
    refill t.new_buffer2 rest1 >>= λ (b2, rest2). some (
      record sink { new_buffer_count = 0 },
      record { new_buffer1 = b1; new_buffer2 = b2; buffers_to_write = [] },
    )

-- at the head of the loop, or with buffers to write
pub data Phase : Type 0 where
  waiting writing : Phase

pub data Threads : Type 0 where
  threads : SinkLogger → SinkThread → Phase → Threads

-- behind the lock: `if (buffersToWrite.empty()) continue;`
abbrev pub phase_of : List (List ℕ) → Phase
phase_of [] = waiting
phase_of (b ∷ bs) = writing

abbrev pub concat : List (List ℕ) → List ℕ
concat [] = []
concat (b ∷ bs) = b ++ concat bs

-- a step, the bytes that it appends and the bytes that it formats. A name has at most 15 characters, and a call fits in
-- an empty buffer.
pub data Step (size : ℕ) : Threads → Threads → List ℕ → List ℕ → Type 0 where
  append :
      (sink sink' : SinkLogger) (t : SinkThread) (phase : Phase) (sb sb' : Staging)
      (name logline : List ℕ) (blocking : Bool)
      → length name ≤ 15
      → length logline + check_point_size < size
      → append_round size name logline blocking sink sb ≡ some (appended, sink', sb')
      → Step size
          (threads sink t phase)
          (threads sink' t phase)
          (check_point name (length logline) ++ logline)
          []
  hold :
      (sink sink' : SinkLogger) (t : SinkThread) (phase : Phase) (sb sb' : Staging)
      (name logline : List ℕ) (blocking : Bool)
      → length name ≤ 15
      → length logline + check_point_size < size
      → append_round size name logline blocking sink sb ≡ some (full, sink', sb')
      → Step size (threads sink t phase) (threads sink' t phase) [] []
  collect :
      (sink sink' : SinkLogger) (t t' : SinkThread) (status : CvStatus)
      → exchange size status sink t ≡ some (sink', t')
      → Step size (threads sink t waiting) (threads sink' t' (phase_of t'.buffers_to_write)) [] []
  write_out :
      (sink sink' : SinkLogger) (t t' : SinkThread)
      → recycle sink t ≡ some (sink', t')
      → Step size (threads sink t writing) (threads sink' t' waiting) [] (concat t.buffers_to_write)

-- `SinkLogger()` and the start of `threadFunc`
abbrev pub initial : Threads
initial =
    threads
      (record { current_buffer = []; next_buffer = some []; buffers = []; new_buffer_count = 0 })
      (record { new_buffer1 = some []; new_buffer2 = some []; buffers_to_write = [] }) waiting

-- a run, all bytes appended and all bytes formatted in it
pub data Run (size : ℕ) : Threads → List ℕ → List ℕ → Type 0 where
  start : Run size initial [] []
  next :
      {x y : Threads} {all written bytes taken : List ℕ}
      → Run size x all written
      → Step size x y bytes taken
      → Run size y (all ++ bytes) (written ++ taken)
