-- ===== src/Staging/Record.antt =====
-- Recording bytes: `finishReservation` behind the stores into the reservation.
use constexpr_fmt_str.Prelude.{
  ℕ, ◌+◌, ◌-◌, ◌≤◌, ◌<◌, ◌≡◌, ◌⊎◌, inl, inr, refl, sym, ap, ◌∙◌, some, List, ◌++◌, arith, length,
  append_assoc,
}
use mathlib.Core.Path.{ap₂, subst}
use constexpr_fmt_str.Outbuf.{overwrite}
use constexpr_fmt_str.Outbuf.Memory.{length-overwrite}
use constexpr_fmt_str.Staging.{Staging, finish_reservation, fill}
use constexpr_fmt_str.Staging.Slice.{
  slice, slice-append, slice-overwrite, slice-overwrite_behind, slice-overwrite_before,
}
use constexpr_fmt_str.Staging.System.{outside, Consumer, polling, seen, available}
use constexpr_fmt_str.Staging.Inv.{Straight, Rolled, ConsumerKnows, Inv}

-- the state with the bytes recorded
abbrev recorded : List ℕ → Staging → Staging
recorded bytes s = record s {
  producer_pos = s.producer_pos + length bytes;
  min_free_space = s.min_free_space - length bytes;
  storage = overwrite s.storage s.producer_pos bytes;
}

finish_reservation-some :
    (size : ℕ) (bytes : List ℕ) (s s' : Staging)
    → finish_reservation size (length bytes) (fill bytes s) ≡ some s'
    → (length bytes < s.min_free_space)
      × (s.producer_pos + length bytes < size)
      × (recorded bytes s ≡ s')
unfolding finish_reservation fill
finish_reservation-some size bytes s s' e = (ground arith, ground arith, ground arith)

recorded-knows :
    (bytes : List ℕ) (s : Staging) (c : Consumer)
    → (s.consumer_pos ≤ s.producer_pos) ⊎ (s.producer_pos + length bytes < s.consumer_pos)
    → ConsumerKnows s c
    → ConsumerKnows (recorded bytes s) c
recorded-knows bytes s polling h k = omega arith
recorded-knows bytes s (seen q) h k = ground arith
recorded-knows bytes s (available n) h k = ground arith

recorded-held :
    (size : ℕ) (bytes : List ℕ) (s : Staging) (c : Consumer) (queue : List ℕ)
    → length bytes < s.min_free_space
    → Inv size s outside c queue
    → Straight size (recorded bytes s) (queue ++ bytes)
      ⊎ Rolled size (recorded bytes s) (queue ++ bytes)
recorded-held size bytes s c queue l h =
    let p = s.producer_pos in
    let q = s.producer_pos + length bytes in
    let fresh : slice (overwrite s.storage p bytes) p q ≡ bytes =
      slice-overwrite s.storage bytes p q refl (ground (arith, h.held, h.fits)) in
    elim h.held [
      | inl a ↦ inl (record {
        order = omega (arith, a.order);
        free = omega (arith, a.free);
        content =
            sym
              (slice-append (overwrite s.storage p bytes) s.consumer_pos p q a.order (omega arith))
            ∙ ap₂ ◌++◌
                (slice-overwrite_behind s.storage bytes s.consumer_pos p p (omega arith)
                  ∙ a.content)
                fresh;
      })
      | inr b ↦ inr (record {
        order = omega (arith, b.order, b.free);
        marked = b.marked;
        inside = b.inside;
        free = omega (arith, b.free);
        content =
            ap₂ ◌++◌
              (slice-overwrite_before s.storage bytes s.consumer_pos s.end_of_recorded_space p
                (omega (arith, b.free)))
              (sym (slice-append (overwrite s.storage p bytes) 0 p q (omega arith) (omega arith))
                ∙ ap₂ ◌++◌ (slice-overwrite_behind s.storage bytes 0 p p (omega arith)) fresh)
            ∙ sym (
                append_assoc (slice s.storage s.consumer_pos s.end_of_recorded_space)
                  (slice s.storage 0 p) bytes)
            ∙ ap (λ zs. zs ++ bytes) b.content;
      })
    ]

pub record_bytes-Inv :
    (size : ℕ) (bytes : List ℕ) (s s' : Staging) (c : Consumer) (queue : List ℕ)
    → finish_reservation size (length bytes) (fill bytes s) ≡ some s'
    → Inv size s outside c queue
    → Inv size s' outside c (queue ++ bytes)
record_bytes-Inv size bytes s s' c queue e h =
    let (l, b, same) = finish_reservation-some size bytes s s' e in
    subst (λ x. Inv size x outside c (queue ++ bytes)) same
      (record {
        fits = length-overwrite s.storage s.producer_pos bytes ∙ h.fits;
        bounded = b;
        small = h.small;
        held = recorded-held size bytes s c queue l h;
        producer_knows = omega arith;
        consumer_knows =
            recorded-knows bytes s c
              (elim h.held [ inl a ↦ inl a.order | inr r ↦ inr (omega (arith, r.free)) ])
              h.consumer_knows;
      })
