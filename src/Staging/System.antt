-- ===== src/Staging/System.antt =====
-- The two threads of a `StagingBuffer` as interleaved steps, one for each load or store of an index that the other
-- thread reads. Loads and stores take effect in one order, which the release stores and acquire loads give.
use constexpr_fmt_str.Prelude.{ℕ, ◌+◌, ◌-◌, ◌≤◌, ◌≡◌, true, false, some, List, [], ◌++◌, length}
use constexpr_fmt_str.Staging.{
  Staging, empty_staging, check_space, roll_over, finish_reservation, fill, peek_from, consume,
}
use constexpr_fmt_str.Staging.Slice.{slice}

-- where the logging thread is: outside the loop, behind the load of `_consumerPos` in a round, or
-- between the stores of `_endOfRecordedSpace` and `_producerPos`
pub data Producer : Type 0 where
  outside : Producer
  loaded : ℕ → ℕ → Producer
  rolling : ℕ → Producer

-- where the background thread is: outside `peek`, behind its load of `_producerPos`, or with bytes to consume
pub data Consumer : Type 0 where
  polling : Consumer
  seen available : ℕ → Consumer

pub data System : Type 0 where
  system : Staging → Producer → Consumer → System

-- a step, the bytes it records and the bytes it consumes
pub data Step (size : ℕ) : System → System → List ℕ → List ℕ → Type 0 where
  load_consumer :
      (s : Staging) (nbytes : ℕ) (c : Consumer)
      → s.min_free_space ≤ nbytes
      → Step size (system s outside c) (system s (loaded nbytes s.consumer_pos) c) [] []
  stay :
      (s : Staging) (nbytes cached : ℕ) (c : Consumer)
      → (check_space size nbytes cached s).1 ≡ false
      → Step size
          (system s (loaded nbytes cached) c)
          (system (check_space size nbytes cached s).0 outside c)
          []
          []
  mark_end :
      (s : Staging) (nbytes cached : ℕ) (c : Consumer)
      → (check_space size nbytes cached s).1 ≡ true
      → Step size
          (system s (loaded nbytes cached) c)
          (system (check_space size nbytes cached s).0 (rolling cached) c)
          []
          []
  roll :
      (s : Staging) (cached : ℕ) (c : Consumer)
      → Step size (system s (rolling cached) c) (system (roll_over cached s) outside c) [] []
  record_bytes :
      (s s' : Staging) (bytes : List ℕ) (c : Consumer)
      → finish_reservation size (length bytes) (fill bytes s) ≡ some s'
      → Step size (system s outside c) (system s' outside c) bytes []
  load_producer :
      (s : Staging) (p : Producer)
      → Step size (system s p polling) (system s p (seen s.producer_pos)) [] []
  look :
      (s : Staging) (p : Producer) (cached : ℕ)
      → Step size
          (system s p (seen cached))
          (system (peek_from cached s).1 p (available (peek_from cached s).0))
          []
          []
  consume_bytes :
      (s : Staging) (p : Producer) (n nbytes : ℕ)
      → nbytes ≤ n
      → Step size
          (system s p (available n))
          (system (consume nbytes s) p (available (n - nbytes)))
          []
          (slice s.storage s.consumer_pos (s.consumer_pos + nbytes))
  poll_again :
      (s : Staging) (p : Producer) (n : ℕ)
      → Step size (system s p (available n)) (system s p polling) [] []

-- a run from the empty buffer, all bytes recorded and all bytes consumed in it
pub data Run (size : ℕ) : System → List ℕ → List ℕ → Type 0 where
  start : Run size (system (empty_staging size) outside polling) [] []
  next :
      {x y : System} {recorded consumed bytes taken : List ℕ}
      → Run size x recorded consumed
      → Step size x y bytes taken
      → Run size y (recorded ++ bytes) (consumed ++ taken)
