-- ===== src/Runtime/Safety.antt =====
-- No thread and no round of `poll_` uses a deleted staging buffer.
use constexpr_fmt_str.Prelude.{ℕ, ◌≡◌, refl, ap, ◌∙◌, inl, inr, Bool-cases, some, List, arith}
use constexpr_fmt_str.Staging.{consume, peek, peek_from, check_can_delete}
use constexpr_fmt_str.Runtime.{
  ThreadBuffer, Runtime, allocate_buffer, list_buffer, destroy_thread, get_elem?, peek_buffer,
  check_buffer,
}
use constexpr_fmt_str.Runtime.Pointers.{get_elem?-before}
use constexpr_fmt_str.Runtime.System.{
  Poll, paused, scanning, working, checking, Process, process, Step, allocate, list_it, use_buffer,
  destroy, start_scan, find_bytes, give_back, find_nothing, check, end_scan, Reached, start, next,
}
use constexpr_fmt_str.Runtime.Inv.{
  IsAllocated, IsInUse, IsFound, Inv, initial-Inv, store-Inv, allocate-Inv, list_buffer-Inv,
}
use constexpr_fmt_str.Runtime.Ends.{destroy_thread-Inv, delete_buffer-Inv}

-- `peek` never marks a buffer
peek_buffer-mark :
    (b : ThreadBuffer) → (peek_buffer b).1.staging.should_deallocate ≡ b.staging.should_deallocate
unfolding peek_buffer peek peek_from
peek_buffer-mark b = ground arith

-- the buffer of the round is still the one at its index
abbrev pub Round : Poll → Runtime → Type 0
Round paused r = Unit
Round (scanning i) r = Unit
Round (working i p n) r = get_elem? r.thread_buffers i ≡ some p
Round (checking i p) r = get_elem? r.thread_buffers i ≡ some p

abbrev pub ProcessInv : Process → Type 0
ProcessInv (process r ph) = Inv r × Round ph r

-- the list of the buffers does not change
Round-same :
    (ph : Poll) (r r' : Runtime) → r'.thread_buffers ≡ r.thread_buffers → Round ph r → Round ph r'
Round-same paused r r' e h = _
Round-same (scanning i) r r' e h = _
Round-same (working i p n) r r' e h = ap (λ ps. get_elem? ps i) e ∙ h
Round-same (checking i p) r r' e h = ap (λ ps. get_elem? ps i) e ∙ h

-- the buffer that the background thread has in its hands
abbrev pub InHand : Poll → Runtime → Type 0
InHand paused r = Unit
InHand (scanning i) r = (p : ℕ) → get_elem? r.thread_buffers i ≡ some p → IsAllocated r p
InHand (working i p n) r = IsAllocated r p × (get_elem? r.thread_buffers i ≡ some p)
InHand (checking i p) r = IsAllocated r p × (get_elem? r.thread_buffers i ≡ some p)

Round-InHand : (ph : Poll) (r : Runtime) → Inv r → Round ph r → InHand ph r
Round-InHand paused r inv h = _
Round-InHand (scanning i) r inv h = inv.allocated i
Round-InHand (working i p n) r inv h = (inv.allocated i p h, h)
Round-InHand (checking i p) r inv h = (inv.allocated i p h, h)

module _ (size : ℕ) (tid_name : ℕ → List ℕ) where
  Round-listed :
      (ph : Poll) (t p : ℕ) (r : Runtime) → Round ph r → Round ph (list_buffer size tid_name t p r)
  unfolding list_buffer
  Round-listed paused t p r h = _
  Round-listed (scanning i) t p r h = _
  Round-listed (working i q n) t p r h = get_elem?-before r.thread_buffers p i q h
  Round-listed (checking i q) t p r h = get_elem?-before r.thread_buffers p i q h

  check_buffer-Inv :
      (i p : ℕ) (b : ThreadBuffer) (r : Runtime)
      → Inv r
      → get_elem? r.thread_buffers i ≡ some p
      → r.heap p ≡ some b
      → Inv (check_buffer i p b r).0
  unfolding check_buffer check_can_delete
  check_buffer-Inv i p b r inv at there = elim (Bool-cases b.staging.should_deallocate) [
    | inl marked ↦ rw marked (delete_buffer-Inv r inv i p b at there marked)
    | inr unmarked ↦ rw unmarked inv
  ]

  Step-Inv : (x y : Process) → Step size tid_name x y → ProcessInv x → ProcessInv y
  unfolding allocate_buffer destroy_thread
  Step-Inv x y (allocate t r ph mine) (inv, round) =
      (allocate-Inv r inv size tid_name t mine, Round-same ph r _ refl round)
  Step-Inv x y (list_it t p r ph mine new free) (inv, round) =
      (list_buffer-Inv r inv size tid_name t p mine new, Round-listed ph t p r round)
  Step-Inv x y (use_buffer t p b b' r ph mine old there same) (inv, round) =
      (store-Inv r inv p b b' there same, Round-same ph r _ refl round)
  Step-Inv x y (destroy t p b r ph mine old there) (inv, round) =
      (destroy_thread-Inv r inv t p b mine old there, Round-same ph r _ refl round)
  Step-Inv x y (start_scan r) (inv, round) = (inv, _)
  Step-Inv x y (find_bytes i p n b r at there bytes some_bytes) (inv, round) =
      (store-Inv r inv p b (peek_buffer b).1 there (peek_buffer-mark b), at)
  Step-Inv x y (give_back i p n b r there) (inv, round) = (
    store-Inv r inv p b (record b { staging = consume n b.staging }) there (unfold consume in refl),
    _,
  )
  Step-Inv x y (find_nothing i p b r at there bytes) (inv, round) =
      (store-Inv r inv p b (peek_buffer b).1 there (peek_buffer-mark b), at)
  Step-Inv x y (check i p b r there) (inv, round) = (check_buffer-Inv i p b r inv round there, _)
  Step-Inv x y (end_scan i r past) (inv, round) = (inv, _)

  pub Reached-Inv : {x : Process} → Reached size tid_name x → ProcessInv x
  Reached-Inv start = (initial-Inv, _)
  Reached-Inv (next {x} {y} run step) = Step-Inv x y step (Reached-Inv run)

  -- In every state that the logging threads and the background thread reach, whatever way their steps interleave: a
  -- thread that has a staging buffer has one that is allocated and not marked for deletion, and shares it with no other
  -- thread; no buffer stands in `threadBuffers` twice; every allocated buffer stands there or belongs to a thread that is
  -- about to list it, so that none is lost; and the buffer at the index of a round of `poll_`, during the
  -- whole round, the part without the lock included, is allocated.
  pub Reached-Safe :
      {r : Runtime} {ph : Poll}
      → Reached size tid_name (process r ph)
      → ((t p : ℕ) → r.staging_buffer t ≡ some p → IsInUse r p)
        × ((t u p : ℕ) → r.staging_buffer t ≡ some p → r.staging_buffer u ≡ some p → t ≡ u)
        × ((i j p : ℕ)
            → get_elem? r.thread_buffers i ≡ some p
            → get_elem? r.thread_buffers j ≡ some p
            → i ≡ j)
        × ((p : ℕ) → IsAllocated r p → IsFound r p)
        × InHand ph r
  Reached-Safe {r} {ph} run =
      let (inv, round) = Reached-Inv run in
      (inv.in_use, inv.own, inv.once, (λ p (b, at). inv.found p b at), Round-InHand ph r inv round)
