-- ===== src/Timestamp/Strftime.antt =====
-- When the loop of `safe_strftime` ends.
use constexpr_fmt_str.Prelude.{
  ℕ, zero, suc, ◌*◌, ◌^◌, ◌≤◌, ◌<◌, ◌≡◌, ◌≢◌, List, arith, length, inl, inr, Bool-cases, ltb,
  ltb→lt, ltb→le,
}
use native.Mathlib.Nat.{pow-suc, pow-zero, mul_assoc, mul_comm}
use constexpr_fmt_str.Timestamp.{Calendar, time_string, resize_throws, strftime_loop, safe_strftime}

-- what `strftime` does: the text is written where it fits with its terminator, and otherwise 0 is returned
abbrev pub Fits : (calendar : Calendar) → (List ℕ → calendar.Tm → List ℕ) → Type 0
Fits calendar text =
    (size : ℕ) (format : List ℕ) (time : calendar.Tm)
    → length (text format time) < size
    → calendar.strftime size format time ≡ (length (text format time), text format time)

abbrev pub Full : (calendar : Calendar) → (List ℕ → calendar.Tm → List ℕ) → Type 0
Full calendar text =
    (size : ℕ) (format : List ℕ) (time : calendar.Tm)
    → size ≤ length (text format time)
    → (calendar.strftime size format time).0 ≡ 0

module _ (calendar : Calendar) (text : List ℕ → calendar.Tm → List ℕ) where
  strftime_loop-Fits :
      (k size : ℕ) (format : List ℕ) (time : calendar.Tm)
      → Fits calendar text
      → size ≤ calendar.largest
      → length (text format time) ≢ 0
      → length (text format time) < size
      → strftime_loop calendar (suc k) size format time ≡ time_string (text format time)
  unfolding strftime_loop
  strftime_loop-Fits k size format time fits room some_text h =
      ground (arith, fits size format time h, some_text)

  doubled-le : (k size : ℕ) → size ≤ size * 2 ^ k
  doubled-le zero size = omega (arith, pow-zero 2)
  doubled-le (suc k) size =
      rw (pow-suc 2 k, mul_comm (2 ^ k) 2, ← mul_assoc size 2 (2 ^ k))
        (omega (arith, doubled-le k (size * 2)))

  strftime_loop-text :
      (k size : ℕ) (format : List ℕ) (time : calendar.Tm)
      → Fits calendar text
      → Full calendar text
      → size * 2 ^ k ≤ calendar.largest
      → length (text format time) ≢ 0
      → length (text format time) < size * 2 ^ k
      → strftime_loop calendar (suc k) size format time ≡ time_string (text format time)
  unfolding strftime_loop
  strftime_loop-text zero size format time fits full room some_text h =
      strftime_loop-Fits zero size format time fits (omega (arith, pow-zero 2)) some_text
        (omega (arith, pow-zero 2))
  strftime_loop-text (suc k) size format time fits full room some_text h =
      let here : size ≤ calendar.largest = omega (arith, doubled-le (suc k) size) in
      elim (Bool-cases (ltb (length (text format time)) size)) [
        | inr e ↦
            let more = ltb→le (length (text format time)) size e in
            let rest =
              strftime_loop-text k (size * 2) format time fits full
                (rw (pow-suc 2 k, mul_comm (2 ^ k) 2, ← mul_assoc size 2 (2 ^ k)) at room) some_text
                (rw (pow-suc 2 k, mul_comm (2 ^ k) 2, ← mul_assoc size 2 (2 ^ k)) at h) in
            ground (arith, full size format time more, rest, here)
        | inl e ↦
            strftime_loop-Fits (suc k) size format time fits here some_text
              (ltb→lt (length (text format time)) size e)
      ]

  -- safe_strftime of a format whose text is not empty and shorter than 32 * 2 ^ k bytes, a size that resize reaches,
  -- ends within k + 1 calls of strftime with the whole text.
  pub safe_strftime-text :
      (k : ℕ) (format : List ℕ) (time : calendar.Tm)
      → Fits calendar text
      → Full calendar text
      → 32 * 2 ^ k ≤ calendar.largest
      → length format ≢ 0
      → length (text format time) ≢ 0
      → length (text format time) < 32 * 2 ^ k
      → safe_strftime calendar (suc k) format time ≡ time_string (text format time)
  unfolding safe_strftime
  safe_strftime-text k format time fits full room some_format some_text h =
      ground (arith, some_format, strftime_loop-text k 32 format time fits full room some_text h)

  strftime_loop-empty :
      (k size : ℕ) (format : List ℕ) (time : calendar.Tm)
      → Fits calendar text
      → length (text format time) ≡ 0
      → 0 < size
      → calendar.largest < size * 2 ^ k
      → strftime_loop calendar (suc k) size format time ≡ resize_throws
  unfolding strftime_loop
  strftime_loop-empty zero size format time fits e h last =
      let over : calendar.largest < size = omega (arith, pow-zero 2) in ground (arith, over)
  strftime_loop-empty (suc k) size format time fits e h last =
      let rest =
        strftime_loop-empty k (size * 2) format time fits e (omega arith)
          (rw (pow-suc 2 k, mul_comm (2 ^ k) 2, ← mul_assoc size 2 (2 ^ k)) at last) in
      ground (arith, fits size format time (omega arith), e, rest)

  -- safe_strftime of a format that is not empty but whose text is, like "%p" in a locale without such a text, calls
  -- strftime with larger and larger buffers, and ends by the exception of resize, at the latest for 32 * 2 ^ k bytes if
  -- that is more than resize reaches.
  pub safe_strftime-empty :
      (k : ℕ) (format : List ℕ) (time : calendar.Tm)
      → Fits calendar text
      → length format ≢ 0
      → length (text format time) ≡ 0
      → calendar.largest < 32 * 2 ^ k
      → safe_strftime calendar (suc k) format time ≡ resize_throws
  unfolding safe_strftime
  safe_strftime-empty k format time fits some_format e last =
      ground (arith, some_format, strftime_loop-empty k 32 format time fits e (omega arith) last)
