-- ===== src/Runtime/System.antt =====
-- The logging threads and the background thread in `poll_` as interleaved steps. The background thread holds the lock
-- while it scans `threadBuffers`, but not while it pauses or hands bytes to the sink.
use constexpr_fmt_str.Prelude.{ℕ, suc, ◌≤◌, ◌<◌, ◌≡◌, true, false, none, some, List, length}
use constexpr_fmt_str.Staging.{consume}
use constexpr_fmt_str.Runtime.{
  ThreadBuffer, Runtime, initial_runtime, allocate_buffer, list_buffer, destroy_thread, store,
  get_elem?, peek_buffer, check_buffer,
}

-- where the background thread is: before a scan, before the round of an index, with bytes of the buffer of a round, or
-- behind a `peek` that found none
pub data Poll : Type 0 where
  paused : Poll
  scanning : ℕ → Poll
  working : ℕ → ℕ → ℕ → Poll
  checking : ℕ → ℕ → Poll

-- the lock is free
abbrev pub IsFree : Poll → Type 0
IsFree paused = Unit
IsFree (scanning i) = ⊥
IsFree (working i p n) = Unit
IsFree (checking i p) = ⊥

pub data Process : Type 0 where
  process : Runtime → Poll → Process

module _ (size : ℕ) (tid_name : ℕ → List ℕ) where
  -- a step; a thread changes its own buffer by whatever operation, of which only `destroy_thread` sets
  -- `_shouldDeallocate`
  pub data Step : Process → Process → Type 0 where
    allocate :
        (t : ℕ) (r : Runtime) (ph : Poll)
        → r.staging_buffer t ≡ none
        → Step (process r ph) (process (allocate_buffer size tid_name t r) ph)
    list_it :
        (t p : ℕ) (r : Runtime) (ph : Poll)
        → r.staging_buffer t ≡ some p
        → r.listed t ≡ false
        → IsFree ph
        → Step (process r ph) (process (list_buffer size tid_name t p r) ph)
    use_buffer :
        (t p : ℕ) (b b' : ThreadBuffer) (r : Runtime) (ph : Poll)
        → r.staging_buffer t ≡ some p
        → r.listed t ≡ true
        → r.heap p ≡ some b
        → b'.staging.should_deallocate ≡ b.staging.should_deallocate
        → Step (process r ph) (process (store p b' r) ph)
    destroy :
        (t p : ℕ) (b : ThreadBuffer) (r : Runtime) (ph : Poll)
        → r.staging_buffer t ≡ some p
        → r.listed t ≡ true
        → r.heap p ≡ some b
        → Step (process r ph) (process (destroy_thread t p b r) ph)
    start_scan : (r : Runtime) → Step (process r paused) (process r (scanning 0))
    find_bytes :
        (i p n : ℕ) (b : ThreadBuffer) (r : Runtime)
        → get_elem? r.thread_buffers i ≡ some p
        → r.heap p ≡ some b
        → (peek_buffer b).0 ≡ n
        → 0 < n
        → Step (process r (scanning i)) (process (store p (peek_buffer b).1 r) (working i p n))
    give_back :
        (i p n : ℕ) (b : ThreadBuffer) (r : Runtime)
        → r.heap p ≡ some b
        → Step
            (process r (working i p n))
            (process (store p (record b { staging = consume n b.staging }) r) (scanning (suc i)))
    find_nothing :
        (i p : ℕ) (b : ThreadBuffer) (r : Runtime)
        → get_elem? r.thread_buffers i ≡ some p
        → r.heap p ≡ some b
        → (peek_buffer b).0 ≡ 0
        → Step (process r (scanning i)) (process (store p (peek_buffer b).1 r) (checking i p))
    check :
        (i p : ℕ) (b : ThreadBuffer) (r : Runtime)
        → r.heap p ≡ some b
        → Step
            (process r (checking i p))
            (process (check_buffer i p b r).0 (scanning (check_buffer i p b r).1))
    end_scan :
        (i : ℕ) (r : Runtime)
        → length r.thread_buffers ≤ i
        → Step (process r (scanning i)) (process r paused)

  -- what is reached from the start
  pub data Reached : Process → Type 0 where
    start : Reached (process initial_runtime paused)
    next : {x y : Process} → Reached x → Step x y → Reached y
