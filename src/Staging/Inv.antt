-- ===== src/Staging/Inv.antt =====
-- The invariant of a `StagingBuffer` with its two threads: which bytes of the storage are queued.
use constexpr_fmt_str.Prelude.{
  ℕ, ◌+◌, ◌^◌, ◌≤◌, ◌<◌, ◌≡◌, ◌⊎◌, inl, inr, List, [], ◌++◌, arith, length, length-replicate,
}
use constexpr_fmt_str.Staging.{Staging, empty_staging}
use constexpr_fmt_str.Staging.Slice.{slice, slice-nothing}
use constexpr_fmt_str.Staging.System.{
  Producer, outside, loaded, rolling, Consumer, polling, seen, available,
}

-- the queue lies between the two positions
pub record Straight (size : ℕ) (s : Staging) (queue : List ℕ) : Type 0 where
  pub order : s.consumer_pos ≤ s.producer_pos
  pub free : s.producer_pos + s.min_free_space ≤ size
  pub content : slice s.storage s.consumer_pos s.producer_pos ≡ queue

-- the producer has rolled over: the queue goes on at the start of the storage
pub record Rolled (size : ℕ) (s : Staging) (queue : List ℕ) : Type 0 where
  pub order : s.producer_pos < s.consumer_pos
  pub marked : s.consumer_pos ≤ s.end_of_recorded_space
  pub inside : s.end_of_recorded_space ≤ size
  pub free : s.producer_pos + s.min_free_space ≤ s.consumer_pos
  pub content :
      slice s.storage s.consumer_pos s.end_of_recorded_space ++ slice s.storage 0 s.producer_pos
      ≡ queue

-- what the logging thread knows of a position that it has loaded
abbrev pub ProducerKnows : ℕ → Staging → Producer → Type 0
ProducerKnows size s outside = 0 ≤ size
ProducerKnows size s (loaded nbytes cached) =
    ((s.producer_pos < cached)
      × (cached ≤ size)
      × ((cached ≤ s.consumer_pos) ⊎ (s.consumer_pos ≤ s.producer_pos)))
    ⊎ ((cached ≤ s.consumer_pos) × (s.consumer_pos ≤ s.producer_pos))
ProducerKnows size s (rolling cached) =
    (0 < cached)
    × (cached ≤ s.consumer_pos)
    × (s.consumer_pos ≤ s.producer_pos)
    × (s.end_of_recorded_space ≡ s.producer_pos)

-- what the background thread knows
abbrev pub ConsumerKnows : Staging → Consumer → Type 0
ConsumerKnows s polling = 0 ≤ s.consumer_pos
ConsumerKnows s (seen cached) =
    ((s.consumer_pos ≤ cached) × (cached ≤ s.producer_pos))
    ⊎ (s.producer_pos < s.consumer_pos)
      × ((cached ≤ s.producer_pos) ⊎ (s.consumer_pos ≤ cached) × (cached ≤ s.end_of_recorded_space))
ConsumerKnows s (available n) =
    ((s.consumer_pos ≤ s.producer_pos) × (s.consumer_pos + n ≤ s.producer_pos))
    ⊎ ((s.producer_pos < s.consumer_pos) × (s.consumer_pos + n ≤ s.end_of_recorded_space))

pub record Inv (size : ℕ) (s : Staging) (p : Producer) (c : Consumer) (queue : List ℕ)
    : Type 0 where
  pub fits : length s.storage ≡ size
  pub bounded : s.producer_pos < size
  pub small : size < 2 ^ 63
  pub held : Straight size s queue ⊎ Rolled size s queue
  pub producer_knows : ProducerKnows size s p
  pub consumer_knows : ConsumerKnows s c

pub empty_staging-Inv :
    (size : ℕ) → 0 < size → size < 2 ^ 63 → Inv size (empty_staging size) outside polling []
empty_staging-Inv size h l = record {
  fits = length-replicate {A = ℕ} size 0;
  bounded = h;
  small = l;
  held = inl (record {
    order = omega arith;
    free = omega arith;
    content = slice-nothing _ 0 0 (omega arith);
  });
  producer_knows = omega arith;
  consumer_knows = omega arith;
}

pub load_consumer-Inv :
    (size : ℕ) (s : Staging) (nbytes : ℕ) (c : Consumer) (queue : List ℕ)
    → Inv size s outside c queue
    → Inv size s (loaded nbytes s.consumer_pos) c queue
load_consumer-Inv size s nbytes c queue h = record {
  fits = h.fits;
  bounded = h.bounded;
  small = h.small;
  held = h.held;
  producer_knows = elim h.held [
    | inl a ↦ inr (omega arith, a.order)
    | inr b ↦ inl (b.order, omega (arith, b.marked, b.inside), inl (omega arith))
  ];
  consumer_knows = h.consumer_knows;
}
