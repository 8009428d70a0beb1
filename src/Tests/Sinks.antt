-- ===== src/Tests/Sinks.antt =====
-- The sink's buffers, at a run that appends two bytes, takes the buffer and formats them.
use constexpr_fmt_str.Prelude.{
  ℕ, ◌≤◌, ◌≡◌, ◌≢◌, refl, true, none, some, List, [], ◌∷◌, ◌++◌, arith, codes,
}
use constexpr_fmt_str.Staging.{empty_staging, consume}
use constexpr_fmt_str.Sink.{
  SinkLogger, append_round, append_internal, append_chunks, append_buffer, check_point, appended,
  supplementary_sinkbuffer_maximum_size,
}
use constexpr_fmt_str.Sink.Threads.{
  SinkThread, threads, waiting, writing, append, collect, Run, start, next, timeout, exchange,
  take_current, swap_buffers, recycle, refill,
}
use constexpr_fmt_str.Sink.Inv.{fresh}
use constexpr_fmt_str.Sink.Order.{pending, Run-order, Run-GoesOn, GoesOn}
use constexpr_fmt_str.Sink.Whole.{ThreadsWhole, Run-Whole}

abbrev bytes : List ℕ
bytes = check_point (codes "main") 2 ++ codes "ab"

abbrev holding : SinkLogger
holding = record {
  current_buffer = bytes;
  next_buffer = some [];
  buffers = [];
  new_buffer_count = 0;
}

abbrev emptied : SinkLogger
emptied = record { current_buffer = []; next_buffer = some []; buffers = []; new_buffer_count = 0 }

abbrev with_bytes : SinkThread
with_bytes = record { new_buffer1 = none; new_buffer2 = some []; buffers_to_write = bytes ∷ [] }

ab_appended :
    append_round 60 (codes "main") (codes "ab") true emptied (empty_staging 4)
    ≡ some (appended, holding, consume 2 (empty_staging 4))
unfolding append_round append_internal append_chunks append_buffer check_point consume
ab_appended = refl

ab_taken : exchange 60 timeout holding fresh ≡ some (emptied, with_bytes)
unfolding exchange take_current swap_buffers check_point
ab_taken = refl

ab_written : recycle emptied with_bytes ≡ some (emptied, fresh)
unfolding recycle refill
ab_written = refl

ab-Run : Run 60 (threads emptied with_bytes writing) bytes []
unfolding check_point
ab-Run =
    next
      (next start (
        append emptied holding fresh waiting (empty_staging 4) (consume 2 (empty_staging 4))
          (codes "main") (codes "ab") true (omega arith) (omega arith) ab_appended))
      (collect holding emptied fresh with_bytes timeout ab_taken)

Run-order_example : [] ++ pending (threads emptied with_bytes writing) ≡ bytes
Run-order_example = Run-order 60 ab-Run

Run-GoesOn_example :
    (append_round 60 (codes "main") (codes "cd") true emptied (empty_staging 4) ≢ none)
    × GoesOn 60 timeout writing emptied with_bytes
    × (0 ≤ supplementary_sinkbuffer_maximum_size)
Run-GoesOn_example =
    Run-GoesOn 60 timeout (codes "main") (codes "cd") true (empty_staging 4) (omega arith)
      (omega arith) ab-Run

Run-Whole_example : ThreadsWhole 60 (threads emptied with_bytes writing)
Run-Whole_example = Run-Whole 60 ab-Run
