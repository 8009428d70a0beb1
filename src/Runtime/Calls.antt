-- ===== src/Runtime/Calls.antt =====
-- The calls of the logging threads: they find their own buffer, and are steps of the system.
use constexpr_fmt_str.Prelude.{
  Option-cases, ℕ, ◌≡◌, refl, inl, inr, true, false, none, some, List, [], ◌∷◌, arith,
}
use constexpr_fmt_str.Staging.{
  Staging, Reservation, reserve_round, reserve_loop, reserve_producer_space, check_space, roll_over,
}
use constexpr_fmt_str.Runtime.{
  ThreadBuffer, Runtime, store, allocate_buffer, list_buffer, ensure_allocated, own_buffer,
  new_buffer, staging_after, reserve_alloc, set_thread_name, set_name,
}
use constexpr_fmt_str.Runtime.Pointers.{set-here}
use constexpr_fmt_str.Runtime.System.{
  Poll, process, IsFree, Reached, next, allocate, list_it, use_buffer,
}
use constexpr_fmt_str.Runtime.Safety.{Reached-Inv}

reserve_round-mark :
    (size nbytes cached : ℕ) (s : Staging)
    → (reserve_round size nbytes cached s).should_deallocate ≡ s.should_deallocate
unfolding reserve_round check_space roll_over
reserve_round-mark size nbytes cached s = ground arith

reserve_loop-mark :
    (size nbytes : ℕ) (loads : List ℕ) (s : Staging)
    → (staging_after (reserve_loop size nbytes true loads s)).should_deallocate
      ≡ s.should_deallocate
unfolding reserve_loop
reserve_loop-mark size nbytes [] s = ground arith
reserve_loop-mark size nbytes (cached ∷ loads) s = ground (
  arith,
  reserve_loop-mark size nbytes loads (reserve_round size nbytes cached s),
  reserve_round-mark size nbytes cached s,
)

reserve_producer_space-mark :
    (size nbytes : ℕ) (loads : List ℕ) (s : Staging)
    → (staging_after (reserve_producer_space size nbytes true loads s)).should_deallocate
      ≡ s.should_deallocate
unfolding reserve_producer_space
reserve_producer_space-mark size nbytes loads s =
    ground (arith, reserve_loop-mark size nbytes loads s)

module _ (size : ℕ) (tid_name : ℕ → List ℕ) where
  -- a thread with its own buffer, which is listed
  Owns : ℕ → Runtime → Poll → Type 0
  Owns t r ph =
      (p : ℕ) × (b : ThreadBuffer) × (r.staging_buffer t ≡ some p)
      × (r.listed t ≡ true)
      × (r.heap p ≡ some b)
      × Reached size tid_name (process r ph)

  -- no thread is between the allocation of its buffer and its listing
  abbrev pub IsOutside : ℕ → Runtime → Type 0
  IsOutside t r = (p : ℕ) → r.staging_buffer t ≡ some p → r.listed t ≡ true

  ensure_allocated-new :
      (t : ℕ) (r : Runtime)
      → r.staging_buffer t ≡ none
      → ensure_allocated size tid_name t r
        ≡ list_buffer size tid_name t r.next_pointer (allocate_buffer size tid_name t r)
  unfolding ensure_allocated
  ensure_allocated-new t r h = rw (ensure_allocated, h) refl

  ensure_allocated-old :
      (t p : ℕ) (r : Runtime) → r.staging_buffer t ≡ some p → ensure_allocated size tid_name t r ≡ r
  unfolding ensure_allocated
  ensure_allocated-old t p r h = rw (ensure_allocated, h) refl

  ensure_allocated-Owns :
      (t : ℕ) (r : Runtime) (ph : Poll)
      → Reached size tid_name (process r ph)
      → IsFree ph
      → IsOutside t r
      → Owns t (ensure_allocated size tid_name t r) ph
  unfolding Owns allocate_buffer list_buffer
  ensure_allocated-Owns t r ph reached free outside = elim (Option-cases (r.staging_buffer t)) [
    | inl unset ↦
        let r1 = allocate_buffer size tid_name t r in
        let mine = set-here t (some r.next_pointer) r.staging_buffer in
        let b = new_buffer size tid_name t in
        rw (ensure_allocated-new t r unset) (
          r.next_pointer,
          b,
          mine,
          set-here t true r1.listed,
          set-here r.next_pointer (some b) r.heap,
          next (next reached (allocate t r ph unset))
              (list_it t r.next_pointer r1 ph mine (set-here t false r.listed) free),
        )
    | inr (p, has) ↦
        let (b, there, unmarked) = (Reached-Inv size tid_name reached).0.in_use t p has in
        rw (ensure_allocated-old t p r has) (p, b, has, outside p has, there, reached)
  ]

  own_buffer-Owns :
      (t p : ℕ) (b : ThreadBuffer) (r : Runtime)
      → r.staging_buffer t ≡ some p
      → r.heap p ≡ some b
      → own_buffer t r ≡ some (p, b)
  own_buffer-Owns t p b r has there = rw (has, there) refl

  reserve_alloc-own :
      (t p nbytes : ℕ) (loads : List ℕ) (b : ThreadBuffer) (r : Runtime)
      → own_buffer t (ensure_allocated size tid_name t r) ≡ some (p, b)
      → (let res = reserve_producer_space size nbytes true loads b.staging in
          reserve_alloc size tid_name t nbytes loads r
          ≡ some (
            res,
            store p (record b { staging = staging_after res }) (ensure_allocated size tid_name t r),
          ))
  unfolding reserve_alloc
  reserve_alloc-own t p nbytes loads b r own = rw own refl

  set_thread_name-own :
      (t p : ℕ) (name : List ℕ) (b : ThreadBuffer) (r : Runtime)
      → own_buffer t (ensure_allocated size tid_name t r) ≡ some (p, b)
      → set_thread_name size tid_name t name r
        ≡ some (store p (set_name name b) (ensure_allocated size tid_name t r))
  unfolding set_thread_name
  set_thread_name-own t p name b r own = rw own refl

  -- In every state that the threads reach in which the lock is free, for a thread that is not inside
  -- `ensureStagingBufferAllocated`: `reserveAlloc` and `setThreadName` find a buffer of the thread, which they allocate
  -- and list where there is none, use no null pointer and no deleted buffer, and lead to a state that is reached.
  pub calls-Reached :
      (t nbytes : ℕ) (loads name : List ℕ) (r : Runtime) (ph : Poll)
      → Reached size tid_name (process r ph)
      → IsFree ph
      → IsOutside t r
      → ((res : Reservation) × (r' : Runtime) × (reserve_alloc size tid_name t nbytes loads r
            ≡ some (res, r'))
          × Reached size tid_name (process r' ph))
        × ((r' : Runtime) × (set_thread_name size tid_name t name r ≡ some r')
            × Reached size tid_name (process r' ph))
  unfolding Owns set_name
  calls-Reached t nbytes loads name r ph reached free outside =
      let (p, b, mine, old, there, ready) = ensure_allocated-Owns t r ph reached free outside in
      let r1 = ensure_allocated size tid_name t r in
      let own = own_buffer-Owns t p b r1 mine there in
      let res = reserve_producer_space size nbytes true loads b.staging in
      let reserved_in : ThreadBuffer = record b { staging = staging_after res } in
      (
        (
          res,
          store p reserved_in r1,
          reserve_alloc-own t p nbytes loads b r own,
          next ready (
              use_buffer t p b reserved_in r1 ph mine old there
                (reserve_producer_space-mark size nbytes loads b.staging)),
        ),
        (
          store p (set_name name b) r1,
          set_thread_name-own t p name b r own,
          next ready (use_buffer t p b (set_name name b) r1 ph mine old there refl),
        ),
      )
