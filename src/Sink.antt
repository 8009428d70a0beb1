-- ===== src/Sink.antt =====
-- `SinkLogger` of runtime_logger.h and runtime_logger.cpp: the background thread appends the bytes of a staging buffer
-- to the sink's buffers, and the sink thread takes the full buffers to write them. A buffer is its bytes up to `cur_`.
pub mod Threads
pub mod Copied
pub mod Inv
pub mod Order
pub mod Whole
pub mod Output
use constexpr_fmt_str.Prelude.{
  ℕ, zero, suc, ◌+◌, ◌-◌, ◌*◌, ◌^◌, Bool, true, false, Option, none, some, List, [], ◌∷◌, ◌++◌, ltb,
  if◌then◌else◌, ◌>>=◌, length, take, drop, replicate, min,
}
use constexpr_fmt_str.Staging.{Staging, consume}
use constexpr_fmt_str.Entry.{bytes_of}

abbrev pub release_threshold : ℕ
release_threshold = 2 ^ 16

abbrev pub supplementary_sinkbuffer_maximum_size : ℕ
supplementary_sinkbuffer_maximum_size = 4

-- `sizeof(ThreadCheckPoint)`
abbrev pub check_point_size : ℕ
check_point_size = 24

-- `std::unique_ptr<Buffer>`
abbrev pub BufferPtr : Type 0
BufferPtr = Option (List ℕ)

pub record SinkLogger : Type 0 where
  pub current_buffer : List ℕ
  pub next_buffer : BufferPtr
  pub buffers : List (List ℕ)
  pub new_buffer_count : ℕ

-- `SinkBuffer::append` with its assertion, in a buffer of `size` bytes
unfoldable pub append_buffer : ℕ → List ℕ → List ℕ → Option (List ℕ)
append_buffer size buffer bytes =
    if ltb (length bytes) (size - length buffer) then some (buffer ++ bytes) else none

-- a `ThreadCheckPoint` with the name of the thread, of at most 15 characters, and the number of bytes behind it
unfoldable pub check_point : List ℕ → ℕ → List ℕ
check_point name block_size = name ++ replicate (20 - length name) 0 ++ bytes_of 4 block_size

-- the loop of `appendInternal`: a chunk is copied, and then its space given back to the staging buffer
unfoldable pub append_chunks : ℕ → ℕ → List ℕ → List ℕ → Staging → Option (List ℕ × Staging)
unfolding append_buffer consume
append_chunks size fuel buffer [] sb = some (buffer, sb)
append_chunks size zero buffer (c ∷ logline) sb = none
append_chunks size (suc fuel) buffer (c ∷ logline) sb =
    let bytes_to_copy = min release_threshold (length (c ∷ logline)) in
    append_buffer size buffer (take bytes_to_copy (c ∷ logline)) >>= λ buffer'.
    append_chunks size fuel buffer' (drop bytes_to_copy (c ∷ logline)) (consume bytes_to_copy sb)

-- `appendInternal`; a chunk has at least one byte
unfoldable pub append_internal :
    ℕ → List ℕ → List ℕ → SinkLogger → Staging → Option (SinkLogger × Staging)
unfolding check_point append_chunks
append_internal size name logline sink sb =
    append_chunks size (length logline) (sink.current_buffer ++ check_point name (length logline))
      logline sb
    >>= λ (buffer, sb'). some (record sink { current_buffer = buffer }, sb')

-- how a round of the loop of `append` ends: the bytes are in a buffer, or no buffer is free
pub data Outcome : Type 0 where
  appended full : Outcome

-- a round of the loop of `append`; without a free buffer a call that does not block drops its bytes
unfoldable pub append_round :
    ℕ → List ℕ → List ℕ → Bool → SinkLogger → Staging → Option (Outcome × SinkLogger × Staging)
unfolding append_internal consume
append_round size name logline blocking sink sb =
    let moved = sink.buffers ++ (sink.current_buffer ∷ []) in
    let finish = λ (s : SinkLogger).
      append_internal size name logline s sb >>= λ (s', sb'). some (appended, s', sb') in
    if ltb (length logline + check_point_size) (size - length sink.current_buffer)
    then finish sink
    else elim sink.next_buffer [
      | some buffer ↦
          finish (record sink { current_buffer = buffer; next_buffer = none; buffers = moved })
      | none ↦
          if ltb sink.new_buffer_count supplementary_sinkbuffer_maximum_size
          then finish (record sink {
            current_buffer = [];
            buffers = moved;
            new_buffer_count = sink.new_buffer_count + 1;
          })
          else some (full, sink, if blocking then sb else consume (length logline) sb)
    ]
