-- ===== src/Staging/Reserve.antt =====
-- The steps of the logging thread keep the invariant.
use constexpr_fmt_str.Prelude.{
  ℕ, ◌-◌, ◌^◌, ◌≤◌, ◌<◌, ◌≡◌, ◌⊎◌, inl, inr, ap, ◌∙◌, true, false, List, ◌++◌, arith, length,
  append-nil,
}
use mathlib.Core.Path.{ap₂}
use constexpr_fmt_str.Staging.{Staging, check_space, roll_over}
use constexpr_fmt_str.Staging.Slice.{slice, slice-nothing}
use constexpr_fmt_str.Staging.System.{outside, loaded, rolling, Consumer, polling, seen, available}
use constexpr_fmt_str.Staging.Inv.{Straight, Rolled, ConsumerKnows, Inv}

-- a round of `reserveProducerSpace` leaves the positions and the bytes alone
module _ (size nbytes cached : ℕ) (s : Staging) where
  abbrev checked : Staging
  checked = (check_space size nbytes cached s).0

  checked-producer_pos : checked.producer_pos ≡ s.producer_pos
  unfolding check_space
  checked-producer_pos = ground arith

  checked-consumer_pos : checked.consumer_pos ≡ s.consumer_pos
  unfolding check_space
  checked-consumer_pos = ground arith

  checked-storage : checked.storage ≡ s.storage
  unfolding check_space
  checked-storage = ground arith

  checked-behind :
      cached ≤ s.producer_pos
      → s.producer_pos < size
      → size < 2 ^ 63
      → checked.min_free_space ≡ size - s.producer_pos
  unfolding check_space
  checked-behind h k l = ground arith

  checked-ahead :
      s.producer_pos < cached
      → (checked.min_free_space ≡ cached - s.producer_pos)
        × (checked.end_of_recorded_space ≡ s.end_of_recorded_space)
        × ((check_space size nbytes cached s).1 ≡ false)
  unfolding check_space
  checked-ahead h = (ground arith, ground arith, ground arith)

  rolls-marks :
      (check_space size nbytes cached s).1 ≡ true
      → (cached ≤ s.producer_pos) × (0 < cached) × (checked.end_of_recorded_space ≡ s.producer_pos)
  unfolding check_space
  rolls-marks h = (ground arith, ground arith, ground arith)

ConsumerKnows-kept :
    (s s' : Staging) (c : Consumer)
    → s'.producer_pos ≡ s.producer_pos
    → s'.consumer_pos ≡ s.consumer_pos
    → (s'.end_of_recorded_space ≡ s.end_of_recorded_space) ⊎ (s.consumer_pos ≤ s.producer_pos)
    → ConsumerKnows s c
    → ConsumerKnows s' c
ConsumerKnows-kept s s' polling p q e h = omega arith
ConsumerKnows-kept s s' (seen cached) p q e h = ground arith
ConsumerKnows-kept s s' (available n) p q e h = ground arith

checked-held :
    (size : ℕ) (s : Staging) (nbytes cached : ℕ) (c : Consumer) (queue : List ℕ)
    → Inv size s (loaded nbytes cached) c queue
    → Straight size (checked size nbytes cached s) queue
      ⊎ Rolled size (checked size nbytes cached s) queue
checked-held size s nbytes cached c queue h =
    let p = checked-producer_pos size nbytes cached s in
    let q = checked-consumer_pos size nbytes cached s in
    let m = checked-storage size nbytes cached s in
    let behind = checked-behind size nbytes cached s in
    let ahead = checked-ahead size nbytes cached s in
    elim h.held [
      | inl a ↦ inl (record {
        order = omega (arith, a.order, p, q);
        free = ground (arith, h.producer_knows, h.bounded, h.small, behind, ahead, a.order, p);
        content = rw (m, p, q) a.content;
      })
      | inr b ↦
          let less : s.producer_pos < cached = ground (arith, h.producer_knows, b.order) in
          let (free, end, flag) = ahead less in
          inr (record {
            order = omega (arith, b.order, p, q);
            marked = omega (arith, b.marked, q, end);
            inside = omega (arith, b.inside, end);
            free = ground (arith, h.producer_knows, b.order, free, p, q);
            content = rw (m, p, q, end) b.content;
          })
    ]

checked-ConsumerKnows :
    (size : ℕ) (s : Staging) (nbytes cached : ℕ) (c : Consumer) (queue : List ℕ)
    → Inv size s (loaded nbytes cached) c queue
    → ConsumerKnows (checked size nbytes cached s) c
checked-ConsumerKnows size s nbytes cached c queue h =
    ConsumerKnows-kept s (checked size nbytes cached s) c
      (checked-producer_pos size nbytes cached s) (checked-consumer_pos size nbytes cached s)
      (ground (arith, h.producer_knows, checked-ahead size nbytes cached s)) h.consumer_knows

pub stay-Inv :
    (size : ℕ) (s : Staging) (nbytes cached : ℕ) (c : Consumer) (queue : List ℕ)
    → Inv size s (loaded nbytes cached) c queue
    → Inv size (check_space size nbytes cached s).0 outside c queue
stay-Inv size s nbytes cached c queue h = record {
  fits = ap length (checked-storage size nbytes cached s) ∙ h.fits;
  bounded = omega (arith, checked-producer_pos size nbytes cached s, h.bounded);
  small = h.small;
  held = checked-held size s nbytes cached c queue h;
  producer_knows = omega arith;
  consumer_knows = checked-ConsumerKnows size s nbytes cached c queue h;
}

pub mark_end-Inv :
    (size : ℕ) (s : Staging) (nbytes cached : ℕ) (c : Consumer) (queue : List ℕ)
    → (check_space size nbytes cached s).1 ≡ true
    → Inv size s (loaded nbytes cached) c queue
    → Inv size (check_space size nbytes cached s).0 (rolling cached) c queue
mark_end-Inv size s nbytes cached c queue r h =
    let (behind, positive, marked) = rolls-marks size nbytes cached s r in
    let p = checked-producer_pos size nbytes cached s in
    let q = checked-consumer_pos size nbytes cached s in
    record {
      fits = ap length (checked-storage size nbytes cached s) ∙ h.fits;
      bounded = omega (arith, p, h.bounded);
      small = h.small;
      held = checked-held size s nbytes cached c queue h;
      producer_knows = (
        positive,
        ground (arith, h.producer_knows, q),
        ground (arith, h.producer_knows, p, q),
        omega (arith, p),
      );
      consumer_knows = checked-ConsumerKnows size s nbytes cached c queue h;
    }

roll-ConsumerKnows :
    (s : Staging) (cached : ℕ) (c : Consumer)
    → 0 < cached
    → cached ≤ s.consumer_pos
    → s.consumer_pos ≤ s.producer_pos
    → s.end_of_recorded_space ≡ s.producer_pos
    → ConsumerKnows s c
    → ConsumerKnows (roll_over cached s) c
unfolding roll_over
roll-ConsumerKnows s cached polling h b o m k = omega arith
roll-ConsumerKnows s cached (seen q) h b o m k = ground arith
roll-ConsumerKnows s cached (available n) h b o m k = ground arith

pub roll-Inv :
    (size : ℕ) (s : Staging) (cached : ℕ) (c : Consumer) (queue : List ℕ)
    → Inv size s (rolling cached) c queue
    → Inv size (roll_over cached s) outside c queue
unfolding roll_over
roll-Inv size s cached c queue h =
    let (positive, behind, order, marked) = h.producer_knows in
    elim h.held [
      | inl a ↦ record {
        fits = h.fits;
        bounded = omega (arith, h.bounded);
        small = h.small;
        held = inr (record {
          order = omega arith;
          marked = omega arith;
          inside = omega (arith, h.bounded);
          free = omega arith;
          content =
              ap₂ ◌++◌ (ap (λ e. slice s.storage s.consumer_pos e) marked)
                (slice-nothing s.storage 0 0 (omega arith))
              ∙ append-nil (slice s.storage s.consumer_pos s.producer_pos)
              ∙ a.content;
        });
        producer_knows = omega arith;
        consumer_knows =
            roll-ConsumerKnows s cached c positive behind order marked h.consumer_knows;
      }
      | inr b ↦ absurd (omega (arith, b.order))
    ]
