-- ===== src/Staging.antt =====
-- `StagingBuffer` of runtime_logger.h: the circular queue of bytes from one logging thread to the background thread.
-- `size` stands for `STAGING_BUFFER_SIZE`. An operation that loads an index of the other thread takes the loaded
-- value as an argument, since that thread may move on behind the load.
pub mod Slice
pub mod System
pub mod Inv
pub mod Reserve
pub mod Record
pub mod Consume
pub mod Fifo
use constexpr_fmt_str.Prelude.{
  ℕ, ◌+◌, ◌-◌, ◌%◌, ◌^◌, Bool, true, false, not, ◌&&◌, Option, none, some, List, [], ◌∷◌, ltb, leb,
  ◌==◌, if◌then◌else◌, length, replicate,
}
use constexpr_fmt_str.Outbuf.{overwrite, size_mod}

pub record Staging : Type 0 where
  pub producer_pos : ℕ
  pub end_of_recorded_space : ℕ
  pub min_free_space : ℕ
  pub consumer_pos : ℕ
  pub should_deallocate : Bool
  pub storage : List ℕ

-- `STAGING_BUFFER_SIZE`
abbrev pub staging_buffer_size : ℕ
staging_buffer_size = 1048576

-- `StagingBuffer()`
abbrev pub empty_staging : ℕ → Staging
empty_staging size = record {
  producer_pos = 0;
  end_of_recorded_space = size;
  min_free_space = size;
  consumer_pos = 0;
  should_deallocate = false;
  storage = replicate size 0;
}

-- a difference of `size_t` values
abbrev pub minus : ℕ → ℕ → ℕ
minus a b = (a + size_mod - b % size_mod) % size_mod

-- a round of the loop of `reserveProducerSpace` up to the roll over; the flag says that the roll over follows
unfoldable pub check_space : ℕ → ℕ → ℕ → Staging → Staging × Bool
check_space size nbytes cached s =
    if leb cached s.producer_pos
    then (if ltb nbytes (minus size s.producer_pos)
        then (record s { min_free_space = minus size s.producer_pos }, false)
        else (
          record s {
            min_free_space = minus size s.producer_pos;
            end_of_recorded_space = s.producer_pos;
          },
          not (cached == 0),
        ))
    else (record s { min_free_space = cached - s.producer_pos }, false)

-- `_producerPos.store(0)` and the free space in front of the consumer
unfoldable pub roll_over : ℕ → Staging → Staging
roll_over cached s = record s { producer_pos = 0; min_free_space = cached }

unfoldable pub reserve_round : ℕ → ℕ → ℕ → Staging → Staging
unfolding check_space roll_over
reserve_round size nbytes cached s =
    let (s', rolls) = check_space size nbytes cached s in if rolls then roll_over cached s' else s'

-- how `reserveProducerSpace` ends: with an index into the storage, with `nullptr`, or not yet
pub data Reservation : Type 0 where
  reserved : ℕ → Staging → Reservation
  refused waiting : Staging → Reservation

-- the loop; `loads` are the values that its loads of `_consumerPos` return, one a round
unfoldable pub reserve_loop : ℕ → ℕ → Bool → List ℕ → Staging → Reservation
unfolding reserve_round
reserve_loop size nbytes blocking [] s =
    if ltb nbytes s.min_free_space then reserved s.producer_pos s else waiting s
reserve_loop size nbytes blocking (cached ∷ loads) s =
    let s' = reserve_round size nbytes cached s in
    let rest = reserve_loop size nbytes blocking loads s' in
    if ltb nbytes s.min_free_space
    then reserved s.producer_pos s
    else if not blocking && leb s'.min_free_space nbytes
    then refused s'
    else rest

unfoldable pub reserve_producer_space : ℕ → ℕ → Bool → List ℕ → Staging → Reservation
unfolding reserve_loop
reserve_producer_space size nbytes blocking loads s =
    if ltb nbytes s.min_free_space
    then reserved s.producer_pos s
    else reserve_loop size nbytes blocking loads s

-- `none` where an assertion fails
unfoldable pub finish_reservation : ℕ → ℕ → Staging → Option Staging
finish_reservation size nbytes s =
    if ltb nbytes s.min_free_space && ltb (s.producer_pos + nbytes) size
    then some (record s {
      producer_pos = s.producer_pos + nbytes;
      min_free_space = s.min_free_space - nbytes;
    })
    else none

-- what a caller stores in its reservation
unfoldable pub fill : List ℕ → Staging → Staging
unfolding overwrite
fill bytes s = record s { storage = overwrite s.storage s.producer_pos bytes }

-- `peek` behind its load of `_producerPos`: the number of bytes to consume from `_consumerPos` on
unfoldable pub peek_from : ℕ → Staging → ℕ × Staging
peek_from cached s =
    if ltb cached s.consumer_pos
    then (if ltb 0 (minus s.end_of_recorded_space s.consumer_pos)
        then (minus s.end_of_recorded_space s.consumer_pos, s)
        else (cached, record s { consumer_pos = 0 }))
    else (cached - s.consumer_pos, s)

unfoldable pub peek : Staging → ℕ × Staging
unfolding peek_from
peek s = peek_from s.producer_pos s

unfoldable pub consume : ℕ → Staging → Staging
consume nbytes s = record s { consumer_pos = s.consumer_pos + nbytes }

unfoldable pub check_can_delete : Staging → Bool
check_can_delete s = s.should_deallocate
