-- ===== src/Entry/Header.antt =====
-- The members of a `OneLogEntry` are read back, and nothing else changes.
use constexpr_fmt_str.Prelude.{
  ℕ, zero, suc, [], ◌∷◌, ◌+◌, ◌%◌, ◌^◌, ◌≤◌, ◌<◌, ◌≡◌, refl, ap, ◌∙◌, some, List, arith, length,
  le→leb,
}
use constexpr_fmt_str.Outbuf.{overwrite}
use constexpr_fmt_str.Outbuf.Memory.{length-overwrite}
use constexpr_fmt_str.Staging.Slice.{
  slice, slice-overwrite, slice-overwrite_behind, slice-overwrite_before,
}
use constexpr_fmt_str.Spec.{SpecInfo}
use constexpr_fmt_str.Convert.Args.{Library}
use constexpr_fmt_str.Entry.{RealCodec, bytes_of, number_of, Typed}
use constexpr_fmt_str.Entry.Bytes.{length-bytes_of, number_of-bytes_of}
use constexpr_fmt_str.Entry.Store.{put_bytes, dynamic_args}
use constexpr_fmt_str.Entry.Statement.{
  put_header, fmt_id_at, entry_size_at, status_at, timestamp_at,
}
use constexpr_fmt_str.Entry.Laid.{SomeLaid, Laid}

-- everything is as it was but the bytes from `p` to `q`
abbrev pub Outside : ℕ → ℕ → List ℕ → List ℕ → Type 0
Outside p q mem mem' =
    (length mem' ≡ length mem)
    × ((a b : ℕ) → b ≤ p → slice mem' a b ≡ slice mem a b)
    × ((a b : ℕ) → q ≤ a → slice mem' a b ≡ slice mem a b)

pub Outside-then :
    (p q : ℕ) (m m1 m2 : List ℕ) → Outside p q m m1 → Outside p q m1 m2 → Outside p q m m2
Outside-then p q m m1 m2 (l, k, b) (l1, k1, b1) =
    (l1 ∙ l, (λ i j h. k1 i j h ∙ k i j h), λ i j h. b1 i j h ∙ b i j h)

pub Outside-widen :
    (p q p' q' : ℕ) (m m' : List ℕ) → p' ≤ p → q ≤ q' → Outside p q m m' → Outside p' q' m m'
Outside-widen p q p' q' m m' h h' (l, k, b) =
    (l, (λ i j le. k i j (omega arith)), λ i j le. b i j (omega arith))

-- bytes stored are read back
pub put_bytes-Outside :
    (mem bs : List ℕ) (p q : ℕ)
    → q ≡ p + length bs
    → q ≤ length mem
    → (mem' : List ℕ) × (put_bytes mem p bs ≡ some mem')
      × Outside p q mem mem'
      × (slice mem' p q ≡ bs)
unfolding put_bytes
put_bytes-Outside mem bs p q e h =
    let room : p + length bs ≤ length mem = omega arith in
    (
      overwrite mem p bs,
      rw (le→leb _ _ room) refl,
      (
        length-overwrite mem p bs,
        (λ a b l. slice-overwrite_behind mem bs a b p l),
        λ a b l. slice-overwrite_before mem bs a b p (omega arith),
      ),
      slice-overwrite mem bs p q e h,
    )

pub put_number :
    (mem : List ℕ) (p q n v : ℕ)
    → q ≡ p + n
    → q ≤ length mem
    → v < 256 ^ n
    → (mem' : List ℕ) × (put_bytes mem p (bytes_of n v) ≡ some mem')
      × Outside p q mem mem'
      × (number_of (slice mem' p q) ≡ v)
put_number mem p q n v e h small =
    let l = length-bytes_of n v in
    let (mem', run, out, at) = put_bytes-Outside mem (bytes_of n v) p q (omega arith) h in
    (mem', run, out, ap number_of at ∙ number_of-bytes_of n v small)

pub put_header-read :
    (mem : List ℕ) (pos fmt_id entry_size status timestamp : ℕ)
    → pos + 24 ≤ length mem
    → fmt_id < 2 ^ 64
    → entry_size < 2 ^ 32
    → status < 256
    → timestamp < 2 ^ 64
    → (mem' : List ℕ) × (put_header mem pos fmt_id entry_size status timestamp ≡ some mem')
      × Outside pos (pos + 24) mem mem'
      × (fmt_id_at mem' pos ≡ fmt_id)
      × (entry_size_at mem' pos ≡ entry_size)
      × (status_at mem' pos ≡ status)
      × (timestamp_at mem' pos ≡ timestamp)
unfolding put_header
put_header-read mem pos f n st ts room hf hn hs ht =
    let (m1, e1, (l1, k1, b1), r1) = put_number mem pos (pos + 8) 8 f refl (omega arith) hf in
    let (m2, e2, (l2, k2, b2), r2) =
      put_number m1 (pos + 8) (pos + 12) 4 (n % 2 ^ 32) (omega arith) (omega arith) (omega arith) in
    let (m3, e3, (l3, k3, b3), r3) =
      put_number m2 (pos + 12) (pos + 13) 1 st (omega arith) (omega arith) hs in
    let (m4, e4, (l4, k4, b4), r4) =
      put_number m3 (pos + 16) (pos + 24) 8 ts (omega arith) (omega arith) ht in
    (
      m4,
      rw (e1, e2, e3, e4) refl,
      (
        omega arith,
        (λ a b l.
            k4 a b (omega arith)
            ∙ k3 a b (omega arith)
            ∙ k2 a b (omega arith)
            ∙ k1 a b (omega arith)),
        λ a b l.
            b4 a b (omega arith)
            ∙ b3 a b (omega arith)
            ∙ b2 a b (omega arith)
            ∙ b1 a b (omega arith),
      ),
      ap number_of (k4 _ _ (omega arith) ∙ k3 _ _ (omega arith) ∙ k2 _ _ (omega arith)) ∙ r1,
      ap number_of (k4 _ _ (omega arith) ∙ k3 _ _ (omega arith)) ∙ r2 ∙ omega arith,
      ap number_of (k4 _ _ (omega arith)) ∙ r3,
      r4,
    )

module _ (lib : Library) (codec : RealCodec lib.Real) where
  SomeLaid-Outside :
      (m0 p0 : ℕ) (mem mem' : List ℕ)
      → Outside m0 p0 mem mem'
      → (s : SpecInfo) (place place' : List (Typed lib.Real) → ℕ → ℕ → Type 0)
      → ((args : List (Typed lib.Real)) (p q : ℕ)
          → p0 ≤ p
          → p0 ≤ q
          → place args p q
          → place' args p q)
      → (k : ℕ) (args : List (Typed lib.Real)) (p q : ℕ) → p0 ≤ p
      → p0 ≤ q
      → SomeLaid lib codec mem s place k args p q
      → SomeLaid lib codec mem' s place' k args p q
  SomeLaid-Outside m0 p0 mem mem' out s place place' ih k [] p q hp hq at = _
  SomeLaid-Outside m0 p0 mem mem' (l, k, b) s place place' ih zero (a ∷ args) p q hp hq
        ((h, room, (slot, text, ord, small)), laid) =
      (
        (h, omega arith, (b p _ hp ∙ slot, b q _ hq ∙ text, ord, small)),
        ih args _ _ (omega arith) (omega arith) laid,
      )
  SomeLaid-Outside m0 p0 mem mem' (l, k, b) s place place' ih (suc n) (a ∷ args) p q hp hq
        ((h, room, slot), laid) =
      (
        (h, omega arith, b p _ hp ∙ slot),
        SomeLaid-Outside m0 p0 mem mem' (l, k, b) s place place' ih n args _ q (omega arith) hq
            laid,
      )

  -- arguments stay where they are while bytes before them change
  pub Laid-Outside :
      (m0 p0 : ℕ) (mem mem' : List ℕ)
      → Outside m0 p0 mem mem'
      → (ss : List SpecInfo) (args : List (Typed lib.Real)) (p q : ℕ) → p0 ≤ p
      → p0 ≤ q
      → Laid lib codec mem ss args p q
      → Laid lib codec mem' ss args p q
  Laid-Outside m0 p0 mem mem' out [] args p q hp hq at = _
  Laid-Outside m0 p0 mem mem' out (s ∷ []) args p q hp hq at = _
  Laid-Outside m0 p0 mem mem' out (s ∷ s' ∷ ss) args p q hp hq at =
      SomeLaid-Outside m0 p0 mem mem' out s (Laid lib codec mem (s' ∷ ss))
        (Laid lib codec mem' (s' ∷ ss))
        (λ args' p' q' hp' hq' laid.
          Laid-Outside m0 p0 mem mem' out (s' ∷ ss) args' p' q' hp' hq' laid)
        (dynamic_args s) args p q hp hq at
