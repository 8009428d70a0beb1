-- ===== src/Staging/Consume.antt =====
-- The steps of the background thread keep the invariant, and take the bytes from the front of the queue.
use constexpr_fmt_str.Prelude.{
  ℕ, ◌+◌, ◌-◌, ◌^◌, ◌≤◌, ◌<◌, ◌≡◌, ◌⊎◌, inl, inr, refl, sym, ap, ◌∙◌, List, ◌++◌, arith, ltb,
  append_assoc, Bool-cases, ltb→lt, ltb→le,
}
use constexpr_fmt_str.Staging.{Staging, peek_from, consume}
use constexpr_fmt_str.Staging.Slice.{slice, slice-nothing, slice-append}
use constexpr_fmt_str.Staging.System.{Producer, outside, loaded, rolling, polling, seen, available}
use constexpr_fmt_str.Staging.Inv.{Rolled, ProducerKnows, Inv}

pub load_producer-Inv :
    (size : ℕ) (s : Staging) (p : Producer) (queue : List ℕ)
    → Inv size s p polling queue
    → Inv size s p (seen s.producer_pos) queue
load_producer-Inv size s p queue h = record {
  fits = h.fits;
  bounded = h.bounded;
  small = h.small;
  held = h.held;
  producer_knows = h.producer_knows;
  consumer_knows = elim h.held [
    | inl a ↦ inl (a.order, omega arith)
    | inr b ↦ inr (b.order, inl (omega arith))
  ];
}

pub poll_again-Inv :
    (size : ℕ) (s : Staging) (p : Producer) (n : ℕ) (queue : List ℕ)
    → Inv size s p (available n) queue
    → Inv size s p polling queue
poll_again-Inv size s p n queue h = record {
  fits = h.fits;
  bounded = h.bounded;
  small = h.small;
  held = h.held;
  producer_knows = h.producer_knows;
  consumer_knows = omega arith;
}

-- the consumer's position moves on within the queue
ProducerKnows-moved :
    (size : ℕ) (s s' : Staging) (p : Producer)
    → s'.producer_pos ≡ s.producer_pos
    → s'.end_of_recorded_space ≡ s.end_of_recorded_space
    → ((s.consumer_pos ≤ s'.consumer_pos) × (s'.consumer_pos ≤ s.producer_pos))
      ⊎ (s.producer_pos < s.consumer_pos)
        × ((s.consumer_pos ≤ s'.consumer_pos) ⊎ (s'.consumer_pos ≡ 0))
    → ProducerKnows size s p
    → ProducerKnows size s' p
ProducerKnows-moved size s s' outside e f m k = omega arith
ProducerKnows-moved size s s' (loaded n cached) e f m k = ground arith
ProducerKnows-moved size s s' (rolling cached) e f m k = ground arith

pub consume-Inv :
    (size : ℕ) (s : Staging) (p : Producer) (n nbytes : ℕ) (queue : List ℕ)
    → nbytes ≤ n
    → Inv size s p (available n) queue
    → (rest : List ℕ) × (slice s.storage s.consumer_pos (s.consumer_pos + nbytes) ++ rest ≡ queue)
      × Inv size (consume nbytes s) p (available (n - nbytes)) rest
unfolding consume
consume-Inv size s p n nbytes queue l h =
    let c = s.consumer_pos in
    let c' = s.consumer_pos + nbytes in
    elim h.held [
      | inl a ↦
          let room : c' ≤ s.producer_pos = ground (arith, h.consumer_knows, a.order) in
          (
            slice s.storage c' s.producer_pos,
            slice-append s.storage c c' s.producer_pos (omega arith) room ∙ a.content,
            record {
              fits = h.fits;
              bounded = h.bounded;
              small = h.small;
              held = inl (record { order = room; free = a.free; content = refl });
              producer_knows =
                  ProducerKnows-moved size s (consume nbytes s) p refl refl
                    (inl (omega arith, room)) h.producer_knows;
              consumer_knows = inl (room, ground (arith, h.consumer_knows, a.order));
            },
          )
      | inr b ↦
          let e = s.end_of_recorded_space in
          let room : c' ≤ e = ground (arith, h.consumer_knows, b.order) in
          (
            slice s.storage c' e ++ slice s.storage 0 s.producer_pos,
            sym (
                  append_assoc (slice s.storage c c') (slice s.storage c' e)
                    (slice s.storage 0 s.producer_pos))
                ∙ ap (λ zs. zs ++ slice s.storage 0 s.producer_pos)
                    (slice-append s.storage c c' e (omega arith) room)
                ∙ b.content,
            record {
              fits = h.fits;
              bounded = h.bounded;
              small = h.small;
              held = inr (record {
                order = omega (arith, b.order);
                marked = room;
                inside = b.inside;
                free = omega (arith, b.free);
                content = refl;
              });
              producer_knows =
                  ProducerKnows-moved size s (consume nbytes s) p refl refl
                    (inr (b.order, inl (omega arith))) h.producer_knows;
              consumer_knows =
                  inr (omega (arith, b.order), ground (arith, h.consumer_knows, b.order));
            },
          )
    ]

pub peek_from-straight :
    (cached : ℕ) (s : Staging)
    → s.consumer_pos ≤ cached
    → peek_from cached s ≡ (cached - s.consumer_pos, s)
unfolding peek_from
peek_from-straight cached s h = ground arith

pub peek_from-marked :
    (cached : ℕ) (s : Staging)
    → cached < s.consumer_pos
    → s.consumer_pos < s.end_of_recorded_space
    → s.end_of_recorded_space < 2 ^ 63
    → peek_from cached s ≡ (s.end_of_recorded_space - s.consumer_pos, s)
unfolding peek_from
peek_from-marked cached s h k l = ground arith

pub peek_from-rolls :
    (cached : ℕ) (s : Staging)
    → cached < s.consumer_pos
    → s.end_of_recorded_space ≡ s.consumer_pos
    → s.consumer_pos < 2 ^ 63
    → peek_from cached s ≡ (cached, record s { consumer_pos = 0 })
unfolding peek_from
peek_from-rolls cached s h k l = ground arith

-- the state and the bytes that `peek` hands out keep the invariant
abbrev Looked : ℕ → Producer → List ℕ → ℕ × Staging → Type 0
Looked size p queue (n, s) = Inv size s p (available n) queue

look-Straight :
    (size : ℕ) (s : Staging) (p : Producer) (cached : ℕ) (queue : List ℕ)
    → s.consumer_pos ≤ cached
    → Inv size s p (seen cached) queue
    → Looked size p queue (peek_from cached s)
look-Straight size s p cached queue l h = rw (peek_from-straight cached s l) (record {
  fits = h.fits;
  bounded = h.bounded;
  small = h.small;
  held = h.held;
  producer_knows = h.producer_knows;
  consumer_knows = ground (arith, h.consumer_knows);
})

look-Rolled :
    (size : ℕ) (s : Staging) (p : Producer) (cached : ℕ) (queue : List ℕ)
    → cached < s.consumer_pos
    → Rolled size s queue
    → Inv size s p (seen cached) queue
    → Looked size p queue (peek_from cached s)
look-Rolled size s p cached queue l b h =
    elim (Bool-cases (ltb s.consumer_pos s.end_of_recorded_space)) [
      | inl more ↦
          rw
            (peek_from-marked cached s l (ltb→lt s.consumer_pos s.end_of_recorded_space more)
              (omega (arith, b.inside, h.small)))
            (record {
              fits = h.fits;
              bounded = h.bounded;
              small = h.small;
              held = h.held;
              producer_knows = h.producer_knows;
              consumer_knows = inr (b.order, omega (arith, b.marked));
            })
      | inr done ↦
          let e : s.end_of_recorded_space ≡ s.consumer_pos =
            omega (arith, b.marked, ltb→le s.consumer_pos s.end_of_recorded_space done) in
          rw (peek_from-rolls cached s l e (omega (arith, b.marked, b.inside, h.small))) (record {
            fits = h.fits;
            bounded = h.bounded;
            small = h.small;
            held = inl (record {
              order = omega arith;
              free = omega (arith, b.free, b.marked, b.inside);
              content =
                  sym (
                    ap (λ zs. zs ++ slice s.storage 0 s.producer_pos)
                      (slice-nothing s.storage s.consumer_pos s.end_of_recorded_space
                        (omega arith)))
                  ∙ b.content;
            });
            producer_knows =
                ProducerKnows-moved size s (record s { consumer_pos = 0 }) p refl refl
                  (inr (b.order, inr refl)) h.producer_knows;
            consumer_knows = inl (omega arith, ground (arith, h.consumer_knows, b.order));
          })
    ]

pub look-Inv :
    (size : ℕ) (s : Staging) (p : Producer) (cached : ℕ) (queue : List ℕ)
    → Inv size s p (seen cached) queue
    → Inv size (peek_from cached s).1 p (available (peek_from cached s).0) queue
look-Inv size s p cached queue h = elim (Bool-cases (ltb cached s.consumer_pos)) [
  | inl below ↦ elim h.held [
    | inl a ↦ absurd (ground (arith, h.consumer_knows, a.order, below))
    | inr b ↦ look-Rolled size s p cached queue (ltb→lt cached s.consumer_pos below) b h
  ]
  | inr above ↦ look-Straight size s p cached queue (ltb→le cached s.consumer_pos above) h
]
