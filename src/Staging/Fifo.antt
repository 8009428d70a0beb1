-- ===== src/Staging/Fifo.antt =====
-- What a `StagingBuffer` promises its two threads, whatever way their steps interleave.
use constexpr_fmt_str.Prelude.{
  ℕ, ◌+◌, ◌*◌, ◌^◌, ◌≤◌, ◌<◌, ◌≡◌, ◌⊎◌, inl, inr, refl, sym, ap, ◌∙◌, Bool, List, [], ◌∷◌, ◌++◌,
  arith, append_assoc, append-nil, ltb, ◌==◌, Bool-cases, ltb→lt, ==→eq,
}
use mathlib.Core.Path.{ap₂}
use constexpr_fmt_str.Staging.{
  Staging, reserved, check_space, roll_over, reserve_round, reserve_loop, reserve_producer_space,
  peek_from, peek,
}
use constexpr_fmt_str.Staging.Slice.{slice, slice-nothing}
use constexpr_fmt_str.Staging.System.{
  Producer, outside, Consumer, polling, System, system, Step, load_consumer, stay, mark_end, roll,
  record_bytes, load_producer, look, consume_bytes, poll_again, Run, start, next,
}
use constexpr_fmt_str.Staging.Inv.{Inv, empty_staging-Inv, load_consumer-Inv}
use constexpr_fmt_str.Staging.Reserve.{stay-Inv, mark_end-Inv, roll-Inv}
use constexpr_fmt_str.Staging.Record.{record_bytes-Inv}
use constexpr_fmt_str.Staging.Consume.{
  load_producer-Inv, look-Inv, consume-Inv, poll_again-Inv, peek_from-straight, peek_from-marked,
  peek_from-rolls,
}

-- the bytes queued in a system
abbrev pub Queued : ℕ → System → List ℕ → Type 0
Queued size (system s p c) queue = Inv size s p c queue

-- A step takes its consumed bytes from the front of the queue and puts its recorded bytes at the end.
Step-Queued :
    (size : ℕ) {x y : System} {bytes taken : List ℕ} (queue : List ℕ)
    → Step size x y bytes taken
    → Queued size x queue
    → (queue' : List ℕ) × (taken ++ queue' ≡ queue ++ bytes) × Queued size y queue'
Step-Queued size queue (load_consumer s n c l) h =
    (queue, sym (append-nil queue), load_consumer-Inv size s n c queue h)
Step-Queued size queue (stay s n cached c e) h =
    (queue, sym (append-nil queue), stay-Inv size s n cached c queue h)
Step-Queued size queue (mark_end s n cached c e) h =
    (queue, sym (append-nil queue), mark_end-Inv size s n cached c queue e h)
Step-Queued size queue (roll s cached c) h =
    (queue, sym (append-nil queue), roll-Inv size s cached c queue h)
Step-Queued size queue (record_bytes s s' bytes c e) h =
    (queue ++ bytes, refl, record_bytes-Inv size bytes s s' c queue e h)
Step-Queued size queue (load_producer s p) h =
    (queue, sym (append-nil queue), load_producer-Inv size s p queue h)
Step-Queued size queue (look s p cached) h =
    (queue, sym (append-nil queue), look-Inv size s p cached queue h)
Step-Queued size queue (consume_bytes s p n nbytes l) h =
    let (rest, e, h') = consume-Inv size s p n nbytes queue l h in
    (rest, e ∙ sym (append-nil queue), h')
Step-Queued size queue (poll_again s p n) h =
    (queue, sym (append-nil queue), poll_again-Inv size s p n queue h)

-- In every run of the two threads from the empty buffer, of any size below 2 ^ 63, the bytes consumed and
-- the bytes still queued are together the bytes recorded, in their order: none is lost, doubled or overwritten.
pub Run-Fifo :
    (size : ℕ) {x : System} {recorded consumed : List ℕ}
    → 0 < size
    → size < 2 ^ 63
    → Run size x recorded consumed
    → (queue : List ℕ) × (recorded ≡ consumed ++ queue) × Queued size x queue
Run-Fifo size p l start = ([], refl, empty_staging-Inv size p l)
Run-Fifo size p l (next {x} {y} {recorded} {consumed} {bytes} {taken} run step) =
    let (queue, e, h) = Run-Fifo size p l run in
    let (queue', e', h') = Step-Queued size queue step h in
    (
      queue',
      ap (λ zs. zs ++ bytes) e
          ∙ append_assoc consumed queue bytes
          ∙ ap (λ zs. consumed ++ zs) (sym e')
          ∙ sym (append_assoc consumed taken queue'),
      h',
    )

-- where `peek` finds nothing, nothing is queued
peek_from-nothing :
    (size : ℕ) (s : Staging) (p : Producer) (queue : List ℕ)
    → (peek_from s.producer_pos s).0 ≡ 0
    → Inv size s p polling queue
    → queue ≡ []
peek_from-nothing size s p queue e h = elim h.held [
  | inl a ↦
      let same = peek_from-straight s.producer_pos s a.order in
      let met : s.producer_pos ≤ s.consumer_pos = ground (arith, same, e) in
      sym a.content ∙ slice-nothing s.storage s.consumer_pos s.producer_pos met
  | inr b ↦
      let end : s.end_of_recorded_space ≤ s.consumer_pos =
        ground (arith, peek_from-marked s.producer_pos s b.order, b.inside, h.small, e) in
      let rolls =
        peek_from-rolls s.producer_pos s b.order (omega (arith, b.marked, end))
          (omega (arith, b.marked, b.inside, h.small)) in
      let zero_pos : s.producer_pos ≡ 0 = ground (arith, rolls, e) in
      sym b.content
      ∙ ap₂ ◌++◌ (slice-nothing s.storage s.consumer_pos s.end_of_recorded_space end)
          (slice-nothing s.storage 0 s.producer_pos (omega (arith, zero_pos)))
]

-- `peek` hands out the front of the queue, and no bytes only if the queue is empty.
pub peek-front :
    (size : ℕ) (s : Staging) (p : Producer) (queue : List ℕ)
    → Inv size s p polling queue
    → (rest : List ℕ) × (slice
            (peek s).1.storage
            (peek s).1.consumer_pos
            ((peek s).1.consumer_pos + (peek s).0)
          ++ rest
        ≡ queue)
      × ((0 < (peek s).0) ⊎ (queue ≡ []))
unfolding peek
peek-front size s p queue h =
    let seen_h = look-Inv size s p s.producer_pos queue (load_producer-Inv size s p queue h) in
    let (n, s') = peek_from s.producer_pos s in
    let (rest, e, h') = consume-Inv size s' p n n queue (omega arith) seen_h in
    (
      rest,
      e,
      elim (Bool-cases (n == 0)) [
        | inl none_left ↦ inr (peek_from-nothing size s p queue (==→eq n 0 none_left) h)
        | inr some_left ↦ inl (ground (arith, some_left))
      ],
    )

drained_round :
    (size nbytes : ℕ) (s : Staging)
    → 2 * nbytes < size
    → s.producer_pos < size
    → size < 2 ^ 63
    → s.consumer_pos ≡ s.producer_pos
    → nbytes < (reserve_round size nbytes s.consumer_pos s).min_free_space
unfolding reserve_round check_space roll_over
drained_round size nbytes s l b m e = ground arith

-- Once the consumer has caught up, one round of `reserveProducerSpace` gives any reservation of less
-- than half the buffer, blocking or not.
pub reserve_producer_space-drained :
    (size nbytes : ℕ) (blocking : Bool) (s : Staging) (c : Consumer) (queue : List ℕ)
    → 2 * nbytes < size
    → s.consumer_pos ≡ s.producer_pos
    → Inv size s outside c queue
    → (at : ℕ) × (s' : Staging) × (reserve_producer_space size nbytes blocking
          (s.consumer_pos ∷ [])
          s
        ≡ reserved at s')
      × (at ≡ s'.producer_pos)
      × (nbytes < s'.min_free_space)
unfolding reserve_producer_space reserve_loop
reserve_producer_space-drained size nbytes blocking s c queue l e h =
    let s' = reserve_round size nbytes s.consumer_pos s in
    let room = drained_round size nbytes s l h.bounded h.small e in
    elim (Bool-cases (ltb nbytes s.min_free_space)) [
      | inl fast ↦
          (s.producer_pos, s, ground (arith, fast), refl, ltb→lt nbytes s.min_free_space fast)
      | inr slow ↦ (s'.producer_pos, s', ground (arith, slow, room), refl, room)
    ]
