-- ===== src/Runtime.antt =====
-- `RuntimeLogger` of runtime_logger.h and runtime_logger.cpp: the staging buffers of the threads, their list
-- `threadBuffers`, and what the background thread does with them in `poll_`.
-- A pointer is a number, and the heap a function from pointers to the buffers that are allocated.
pub mod Names
pub mod Pointers
pub mod System
pub mod Inv
pub mod Ends
pub mod Safety
pub mod Scan
pub mod Rounds
pub mod Calls
use constexpr_fmt_str.Prelude.{
  ℕ, zero, suc, ◌+◌, ◌*◌, ◌%◌, ◌^◌, Bool, true, false, Option, none, some, List, [], ◌∷◌, ◌++◌, ltb,
  leb, ◌==◌, if◌then◌else◌, ◌>>=◌, length, take, replicate,
}
use constexpr_fmt_str.Outbuf.{overwrite, size_mod}
use constexpr_fmt_str.Entry.Load.{until_nul}
use constexpr_fmt_str.Sink.Output.{LogLevel, information, warning}
use constexpr_fmt_str.Staging.{
  Staging, empty_staging, Reservation, reserved, refused, waiting, reserve_producer_space,
  finish_reservation, peek, consume, check_can_delete,
}

-- a `StagingBuffer` with its `_name` of 16 bytes
pub record ThreadBuffer : Type 0 where
  pub name : List ℕ
  pub staging : Staging

-- `strncpy(_name, name, sizeof(_name) - 1)`: at most 15 characters, and '\0' up to the 15th
unfoldable pub set_name : List ℕ → ThreadBuffer → ThreadBuffer
unfolding overwrite
set_name s b = record b { name = overwrite b.name 0 (take 15 (until_nul s ++ replicate 15 0)) }

unfoldable pub get_name : ThreadBuffer → List ℕ
get_name b = until_nul b.name

-- the members of the singleton, and `stagingBuffer` of every thread, where it is not null
pub record Runtime : Type 0 where
  pub heap : ℕ → Option ThreadBuffer
  pub staging_buffer : ℕ → Option ℕ
  pub listed : ℕ → Bool
  pub thread_buffers : List ℕ
  pub next_pointer : ℕ

-- the members that no log statement reads
pub record Settings : Type 0 where
  pub current_log_level : LogLevel
  pub log_cb : Option ℕ
  pub max_cb_log_level : LogLevel
  pub min_cb_period : ℕ

-- `RuntimeLogger()`
abbrev pub initial_settings : Settings
initial_settings = record {
  current_log_level = information;
  log_cb = none;
  max_cb_log_level = warning;
  min_cb_period = 0;
}

abbrev pub initial_runtime : Runtime
initial_runtime = record {
  heap = λ p. none;
  staging_buffer = λ t. none;
  listed = λ t. false;
  thread_buffers = [];
  next_pointer = 1;
}

unfoldable pub set_log_level : LogLevel → Settings → Settings
set_log_level level s = record s { current_log_level = level }

unfoldable pub set_log_cb : Option ℕ → LogLevel → ℕ → Settings → Settings
set_log_cb cb max_level min_period_in_sec s = record s {
  log_cb = cb;
  max_cb_log_level = max_level;
  min_cb_period = min_period_in_sec * 1000000000 % size_mod;
}

-- a function with another value at `k`
abbrev pub set : {A : Type 0} → ℕ → A → (ℕ → A) → ℕ → A
set k v f n = if n == k then v else f n

-- `*p = b`
abbrev pub store : ℕ → ThreadBuffer → Runtime → Runtime
store p b r = record r { heap = set p (some b) r.heap }

-- the buffer of a thread; `none` is a null pointer or a deleted buffer
abbrev pub own_buffer : ℕ → Runtime → Option (ℕ × ThreadBuffer)
own_buffer t r = r.staging_buffer t >>= λ p. r.heap p >>= λ b. some (p, b)

abbrev pub staging_after : Reservation → Staging
staging_after (reserved at s) = s
staging_after (refused s) = s
staging_after (waiting s) = s

module _ (size : ℕ) (tid_name : ℕ → List ℕ) where
  -- `StagingBuffer()` in thread `t`; `snprintf` leaves at most 15 characters
  abbrev pub new_buffer : ℕ → ThreadBuffer
  new_buffer t =
      set_name (tid_name t) (record { name = replicate 16 0; staging = empty_staging size })

  -- `stagingBuffer = new StagingBuffer()`, outside the lock
  unfoldable pub allocate_buffer : ℕ → Runtime → Runtime
  allocate_buffer t r = record {
    heap = set r.next_pointer (some (new_buffer t)) r.heap;
    staging_buffer = set t (some r.next_pointer) r.staging_buffer;
    listed = set t false r.listed;
    thread_buffers = r.thread_buffers;
    next_pointer = r.next_pointer + 1;
  }

  -- `threadBuffers.push_back(stagingBuffer)`, under the lock
  unfoldable pub list_buffer : ℕ → ℕ → Runtime → Runtime
  list_buffer t p r = record r {
    listed = set t true r.listed;
    thread_buffers = r.thread_buffers ++ (p ∷ []);
  }

  -- `ensureStagingBufferAllocated`
  unfoldable pub ensure_allocated : ℕ → Runtime → Runtime
  unfolding allocate_buffer list_buffer
  ensure_allocated t r = elim (r.staging_buffer t) [
    | some p ↦ r
    | none ↦ list_buffer t r.next_pointer (allocate_buffer t r)
  ]

  -- `reserveAlloc`, where the loads of `_consumerPos` give `loads`
  unfoldable pub reserve_alloc : ℕ → ℕ → List ℕ → Runtime → Option (Reservation × Runtime)
  unfolding ensure_allocated reserve_producer_space
  reserve_alloc t nbytes loads r =
      let r' = ensure_allocated t r in
      own_buffer t r' >>= λ (p, b).
      let res = reserve_producer_space size nbytes true loads b.staging in
      some (res, store p (record b { staging = staging_after res }) r')

  unfoldable pub finish_alloc : ℕ → ℕ → Runtime → Option Runtime
  unfolding finish_reservation
  finish_alloc t nbytes r = own_buffer t r >>= λ (p, b).
      finish_reservation size nbytes b.staging >>= λ s. some (store p (record b { staging = s }) r)

  unfoldable pub set_thread_name : ℕ → List ℕ → Runtime → Option Runtime
  unfolding ensure_allocated
  set_thread_name t name r =
      let r' = ensure_allocated t r in
      own_buffer t r' >>= λ (p, b). some (store p (set_name name b) r')

-- `~StagingBufferDestroyer` of a thread with a buffer
unfoldable pub destroy_thread : ℕ → ℕ → ThreadBuffer → Runtime → Runtime
destroy_thread t p b r = record r {
  heap = set p (some (record b { staging = record b.staging { should_deallocate = true } })) r.heap;
  staging_buffer = set t none r.staging_buffer;
}

-- `threadBuffers[i]`
abbrev pub get_elem? : List ℕ → ℕ → Option ℕ
get_elem? [] i = none
get_elem? (p ∷ ps) zero = some p
get_elem? (p ∷ ps) (suc i) = get_elem? ps i

-- `threadBuffers.erase(threadBuffers.begin() + i)`
abbrev pub erase : List ℕ → ℕ → List ℕ
erase [] i = []
erase (p ∷ ps) zero = ps
erase (p ∷ ps) (suc i) = p ∷ erase ps i

-- `sb->peek(&peekBytes)`
unfoldable pub peek_buffer : ThreadBuffer → ℕ × ThreadBuffer
unfolding peek
peek_buffer b = let (bytes, s) = peek b.staging in (bytes, record b { staging = s })

-- `delete sb` and the erasure
unfoldable pub delete_buffer : ℕ → ℕ → Runtime → Runtime
delete_buffer i p r = record r {
  heap = set p none r.heap;
  thread_buffers = erase r.thread_buffers i;
}

-- the round of a buffer without bytes: what is left, and the index of the next round
unfoldable pub check_buffer : ℕ → ℕ → ThreadBuffer → Runtime → Runtime × ℕ
unfolding check_can_delete delete_buffer
check_buffer i p b r = if check_can_delete b.staging then (delete_buffer i p r, i) else (r, suc i)

-- a scan of `poll_` from index `i` on, where no other thread runs meanwhile: the pointers and numbers of bytes that go
-- to the sink; one round of fuel for each buffer
unfoldable pub scan : ℕ → ℕ → Runtime → Option (Runtime × List (ℕ × ℕ))
unfolding peek_buffer check_buffer
scan zero i r = elim (get_elem? r.thread_buffers i) [ none ↦ some (r, []) | some p ↦ none ]
scan (suc rounds) i r =
    let round = λ (p : ℕ) (b : ThreadBuffer).
      let (bytes, b1) = peek_buffer b in
      let given = store p (record b1 { staging = consume bytes b1.staging }) (store p b1 r) in
      let checked = check_buffer i p b1 (store p b1 r) in
      let worked = scan rounds (suc i) given >>= (λ (r', handed). some (r', (p, bytes) ∷ handed)) in
      let went_on = scan rounds checked.1 checked.0 in if ltb 0 bytes then worked else went_on in
    elim (get_elem? r.thread_buffers i) [ none ↦ some (r, []) | some p ↦ r.heap p >>= round p ]

abbrev pub number_of_checks_with_empty_buf : ℕ
number_of_checks_with_empty_buf = 100

-- `bgThreadShouldExit`, and the empty scans in a row that `poll_` counts
pub record PollControl : Type 0 where
  pub bg_thread_should_exit : Bool
  pub count : ℕ

-- the critical section of `~RuntimeLogger`
unfoldable pub request_exit : PollControl → PollControl
request_exit c = record c { bg_thread_should_exit = true }

-- behind a scan that handed out `bytes_written` bytes: does the thread wait for the time of its interval
unfoldable pub after_scan : ℕ → PollControl → PollControl × Bool
after_scan bytes_written c =
    if bytes_written == 0
    then (if leb number_of_checks_with_empty_buf ((c.count + 1) % 2 ^ 32)
        then (record c { count = 0 }, true)
        else (record c { count = (c.count + 1) % 2 ^ 32 }, false))
    else (record c { count = 0 }, false)
