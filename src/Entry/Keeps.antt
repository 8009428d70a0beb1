-- ===== src/Entry/Keeps.antt =====
-- What storing one argument leaves of the memory.
use constexpr_fmt_str.Prelude.{
  ℕ, ◌+◌, ◌-◌, ◌≤◌, ◌≡◌, refl, ◌∙◌, some, List, arith, length, ◌⊎◌, inl, inr,
}
use constexpr_fmt_str.Outbuf.{overwrite}
use constexpr_fmt_str.Outbuf.Memory.{length-overwrite}
use constexpr_fmt_str.Staging.Slice.{
  slice, slice-overwrite, slice-overwrite_behind, slice-overwrite_before,
}
use constexpr_fmt_str.Spec.{SpecInfo}
use constexpr_fmt_str.Convert.Args.{Library}
use constexpr_fmt_str.Entry.{get_arg_size, RealCodec, Typed, object_bytes}
use constexpr_fmt_str.Entry.Store.{Dump, put_raw, store_arg}
use constexpr_fmt_str.Entry.Typed.{
  HasType, text_bytes, slot_bytes, Fits, IsSized, store_arg-stored, put_raw-stored,
  length-slot_bytes, length-object_bytes,
}
use constexpr_fmt_str.Entry.Laid.{ArgAt, DynamicAt}

-- everything is as it was but the bytes from `p` to `p'` and from `q` to `q'`
abbrev pub Keeps : ℕ → ℕ → ℕ → ℕ → List ℕ → List ℕ → Type 0
Keeps p p' q q' mem mem' =
    (length mem' ≡ length mem)
    × ((a b : ℕ) → b ≤ q → (b ≤ p) ⊎ (p' ≤ a) → slice mem' a b ≡ slice mem a b)
    × ((a b : ℕ) → p' ≤ a → q' ≤ a → slice mem' a b ≡ slice mem a b)

pub Keeps-then :
    (p p1 p2 q q1 q2 : ℕ) (m m1 m2 : List ℕ)
    → p ≤ p1
    → p1 ≤ p2
    → q ≤ q1
    → q1 ≤ q2
    → Keeps p p1 q q1 m m1
    → Keeps p1 p2 q1 q2 m1 m2
    → Keeps p p2 q q2 m m2
Keeps-then p p1 p2 q q1 q2 m m1 m2 lp lp1 lq lq1 (l, k, b) (l1, k1, b1) = (
  l1 ∙ l,
  (λ i j h c. elim c [
    | inl before ↦ k1 i j (omega arith) (inl (omega arith)) ∙ k i j h (inl before)
    | inr behind ↦ k1 i j (omega arith) (inr (omega arith)) ∙ k i j h (inr (omega arith))
  ]),
  λ i j h h'. b1 i j h h' ∙ b i j (omega arith) (omega arith),
)

Keeps-overwrite :
    (mem bs : List ℕ) (p p' q : ℕ) → p' ≡ p + length bs → Keeps p p' q q mem (overwrite mem p bs)
Keeps-overwrite mem bs p p' q e = (
  length-overwrite mem p bs,
  (λ a b h c. elim c [
    | inl before ↦ slice-overwrite_behind mem bs a b p before
    | inr behind ↦ slice-overwrite_before mem bs a b p (omega arith)
  ]),
  λ a b h h'. slice-overwrite_before mem bs a b p (omega arith),
)

Keeps-text : (mem bs : List ℕ) (p q : ℕ) → Keeps p p q (q + length bs) mem (overwrite mem q bs)
Keeps-text mem bs p q = (
  length-overwrite mem q bs,
  (λ a b h c. slice-overwrite_behind mem bs a b q h),
  λ a b h h'. slice-overwrite_before mem bs a b q h',
)

module _ (lib : Library) (codec : RealCodec lib.Real) where
  -- an argument stays where it is while others are stored behind it
  pub ArgAt-Keeps :
      (s : SpecInfo) (a : Typed lib.Real) (p q p' q' : ℕ) (mem mem' : List ℕ)
      → p' ≤ q
      → p + get_arg_size a.0 ≤ q
      → Keeps (p + get_arg_size a.0) p' (q + length (text_bytes s a)) q' mem mem'
      → ArgAt lib codec mem s a p q
      → ArgAt lib codec mem' s a p q
  ArgAt-Keeps s a p q p' q' mem mem' behind le (l, k, _) (h, room, (slot, text, ord, small)) = (
    h,
    omega arith,
    (
      k p _ (omega arith) (inl (omega arith)) ∙ slot,
      k q _ (omega arith) (inr behind) ∙ text,
      ord,
      small,
    ),
  )

  pub DynamicAt-Keeps :
      (a : Typed lib.Real) (p q p' q' : ℕ) (mem mem' : List ℕ)
      → p + get_arg_size a.0 ≤ q
      → Keeps (p + get_arg_size a.0) p' q q' mem mem'
      → DynamicAt lib codec mem a p
      → DynamicAt lib codec mem' a p
  DynamicAt-Keeps a p q p' q' mem mem' le (l, k, _) (h, room, slot) =
      (h, omega arith, k p _ le (inl (omega arith)) ∙ slot)

  pub put_raw-DynamicAt :
      (a : Typed lib.Real) (d : Dump)
      → HasType codec a
      → d.storage + get_arg_size a.0 ≤ d.storage2
      → d.storage2 ≤ length d.mem
      → (mem : List ℕ) × (put_raw codec a d
          ≡ some (record d { mem = mem; storage = d.storage + get_arg_size a.0 }))
        × Keeps d.storage (d.storage + get_arg_size a.0) d.storage2 d.storage2 d.mem mem
        × DynamicAt lib codec mem a d.storage
  put_raw-DynamicAt a d h le room =
      let size = length-object_bytes codec h in
      let mem = overwrite d.mem d.storage (object_bytes codec a) in
      (
        mem,
        put_raw-stored codec d h (omega arith),
        Keeps-overwrite d.mem _ _ _ _ (omega arith),
        (
          h,
          omega (arith, length-overwrite d.mem d.storage (object_bytes codec a)),
          slice-overwrite d.mem _ _ _ (omega arith) (omega arith),
        ),
      )

  pub store_arg-ArgAt :
      (s : SpecInfo) (arr : List ℕ) (a : Typed lib.Real) (d : Dump)
      → HasType codec a
      → Fits s a d
      → IsSized codec s arr a
      → (mem : List ℕ) × (store_arg codec s arr a d
          ≡ some (record {
            mem = mem;
            storage = d.storage + get_arg_size a.0;
            storage2 = d.storage2 + length (text_bytes s a);
          }))
        × Keeps d.storage
            (d.storage + get_arg_size a.0)
            d.storage2
            (d.storage2 + length (text_bytes s a))
            d.mem
            mem
        × ArgAt lib codec mem s a d.storage d.storage2
  store_arg-ArgAt s arr a d h (small, le, room) size =
      let text = text_bytes s a in
      let slot = slot_bytes codec s a (d.storage2 - d.storage) in
      let slot_size = length-slot_bytes codec s (d.storage2 - d.storage) h in
      let mem1 = overwrite d.mem d.storage2 text in
      let mem = overwrite mem1 d.storage slot in
      let l1 = length-overwrite d.mem d.storage2 text in
      let l = length-overwrite mem1 d.storage slot in
      (
        mem,
        store_arg-stored codec s arr d (small, le, room) size h,
        Keeps-then d.storage d.storage _ d.storage2 _ _ d.mem mem1 mem (omega arith) (omega arith)
            (omega arith) (omega arith) (Keeps-text d.mem text d.storage d.storage2)
            (Keeps-overwrite mem1 slot _ _ _ (omega arith)),
        (
          h,
          omega arith,
          (
            slice-overwrite mem1 slot _ _ (omega arith) (omega arith),
            slice-overwrite_before mem1 slot d.storage2 _ d.storage (omega arith)
                ∙ slice-overwrite d.mem text _ _ refl room,
            omega arith,
            omega arith,
          ),
        ),
      )
