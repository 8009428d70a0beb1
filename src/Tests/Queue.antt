-- ===== src/Tests/Queue.antt =====
-- The theorems on the staging buffer, at a run over a buffer of four bytes.
use constexpr_fmt_str.Prelude.{
  ℕ, ◌+◌, ◌-◌, ◌<◌, ◌≡◌, ◌⊎◌, refl, false, some, List, [], ◌∷◌, ◌++◌, arith, codes,
}
use constexpr_fmt_str.Staging.{
  Staging, reserved, empty_staging, finish_reservation, fill, reserve_producer_space, peek_from,
  peek, consume,
}
use constexpr_fmt_str.Staging.Slice.{slice}
use constexpr_fmt_str.Outbuf.{overwrite}
use constexpr_fmt_str.Staging.System.{
  outside, polling, available, system, load_producer, look, consume_bytes, record_bytes, Run, start,
  next,
}
use constexpr_fmt_str.Staging.Inv.{Inv, empty_staging-Inv}
use constexpr_fmt_str.Staging.Fifo.{Queued, Run-Fifo, peek-front, reserve_producer_space-drained}

-- the buffer with "ab" in it
abbrev with_ab : Staging
with_ab = record (empty_staging 4) {
  producer_pos = 2;
  min_free_space = 2;
  storage = codes "ab" ++ (0 ∷ 0 ∷ []);
}

ab_recorded : finish_reservation 4 2 (fill (codes "ab") (empty_staging 4)) ≡ some with_ab
unfolding finish_reservation fill overwrite
ab_recorded = refl

-- "ab" is recorded, and its first byte consumed
a_consumed :
    Run 4
      (system (consume 1 (peek_from 2 with_ab).1) outside (available ((peek_from 2 with_ab).0 - 1)))
      (codes "ab")
      (codes "a")
unfolding peek_from consume
a_consumed =
    next
      (next
        (next (next start (record_bytes (empty_staging 4) with_ab (codes "ab") polling ab_recorded))
          (load_producer with_ab outside))
        (look with_ab outside 2))
      (consume_bytes (peek_from 2 with_ab).1 outside (peek_from 2 with_ab).0 1 (omega arith))

Run-Fifo_example :
    (queue : List ℕ) × (codes "ab" ≡ codes "a" ++ queue)
    × Queued 4
        (system
          (consume 1 (peek_from 2 with_ab).1)
          outside
          (available ((peek_from 2 with_ab).0 - 1)))
        queue
Run-Fifo_example = Run-Fifo 4 (omega arith) (omega arith) a_consumed

empty-Inv : Inv 4 (empty_staging 4) outside polling []
empty-Inv = empty_staging-Inv 4 (omega arith) (omega arith)

peek-front_example :
    (rest : List ℕ) × (slice
          (peek (empty_staging 4)).1.storage
          (peek (empty_staging 4)).1.consumer_pos
          ((peek (empty_staging 4)).1.consumer_pos + (peek (empty_staging 4)).0)
        ++ rest
      ≡ [])
    × ((0 < (peek (empty_staging 4)).0) ⊎ (◌≡◌ {A = List ℕ} [] []))
peek-front_example = peek-front 4 (empty_staging 4) outside [] empty-Inv

reserve_producer_space-drained_example :
    (at : ℕ) × (s' : Staging) × (reserve_producer_space 4 1 false (0 ∷ []) (empty_staging 4)
      ≡ reserved at s')
    × (at ≡ s'.producer_pos)
    × (1 < s'.min_free_space)
reserve_producer_space-drained_example =
    reserve_producer_space-drained 4 1 false (empty_staging 4) polling [] (omega arith) refl
      empty-Inv
