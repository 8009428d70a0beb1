-- ===== src/Outbuf/Padding.antt =====
-- `writePaddings` and its loop over blocks of `PADSIZE` bytes.
use constexpr_fmt_str.Prelude.{
  ℕ, zero, suc, ◌+◌, ◌-◌, ◌%◌, ◌≤◌, ◌<◌, min, ◌≡◌, refl, ap, ◌∙◌, List, ◌++◌, some, arith, length,
  replicate, length-replicate, replicate-add, take-replicate, append-nil,
}
use constexpr_fmt_str.Prelude.Int.{ℤ, pos, negsuc, pos_part}
use constexpr_fmt_str.Outbuf.{
  Outbuf, size_mod, overwrite, put, pad_size, pad_loop, write_padding_count, write_paddings,
}
use constexpr_fmt_str.Outbuf.Memory.{
  overwrite-nil, overwrite-overwrite, length-overwrite, put-in_bounds,
}
use constexpr_fmt_str.Outbuf.Holds.{Holds, room, remaining-room, step_to, step_to-Holds}

-- the running pointer moves over `n` copies of `c`
abbrev filled : Outbuf → ℕ → ℕ → Outbuf
filled o c n = record o { mem = overwrite o.mem o.pos (replicate n c); pos = o.pos + n }

put-filled :
    (o : Outbuf) (c n : ℕ)
    → n ≤ pad_size
    → o.pos + n ≤ length o.mem
    → put o (replicate pad_size c) n ≡ some (filled o c n)
put-filled o c n h k =
    rw (← take-replicate n pad_size c h) (put-in_bounds o (replicate pad_size c) n h k)

filled-filled : (o : Outbuf) (c m n k : ℕ) → m + n ≡ k → filled (filled o c m) c n ≡ filled o c k
filled-filled o c m n k e =
    let at : o.pos + m + n ≡ o.pos + k = omega arith in
    let same : overwrite (overwrite o.mem o.pos (replicate m c)) (o.pos + m) (replicate n c)
        ≡ overwrite o.mem o.pos (replicate k c) =
      overwrite-overwrite o.mem o.pos (replicate m c) (replicate n c) (o.pos + m)
        (omega (arith, length-replicate m c))
      ∙ ap (λ zs. overwrite o.mem o.pos zs) (replicate-add m n k c e) in
    cc

-- The loop ends within its fuel, and writes `n` bytes of padding.
pad_loop-filled :
    (fuel : ℕ) (o : Outbuf) (c n : ℕ)
    → n < fuel
    → o.pos + n ≤ length o.mem
    → pad_loop fuel o (replicate pad_size c) n ≡ some (filled o c n)
unfolding pad_loop
pad_loop-filled zero o c n lt h = elim lt [ ]
pad_loop-filled (suc fuel) o c n lt h = ground (
  arith,
  put-filled o c pad_size,
  put-filled o c n,
  length-overwrite o.mem o.pos (replicate pad_size c),
  pad_loop-filled fuel (filled o c pad_size) c (n - pad_size),
  filled-filled o c pad_size (n - pad_size) n,
)

write_padding_count-step_to :
    {size : ℕ} {o : Outbuf} {t : List ℕ} (c n : ℕ)
    → Holds size o t
    → write_padding_count o (replicate pad_size c) n
      ≡ some (step_to o (replicate n c) (min n (room o)))
unfolding write_padding_count
write_padding_count-step_to {o} c n h = ground (
  arith,
  remaining-room h,
  overwrite-nil o.mem o.pos,
  length-replicate n c,
  take-replicate (min n (room o)) n c,
  pad_loop-filled (suc n) (record o { written = (o.written + n) % size_mod }) c n,
  pad_loop-filled (suc (room o)) (record o { written = (o.written + n) % size_mod }) c (room o),
)

-- `writePaddings(n)` appends `n` padding bytes, and none if `n` is not positive.
pub write_paddings-Holds :
    {size : ℕ} (o : Outbuf) (t : List ℕ) (c : ℕ) (n : ℤ)
    → Holds size o t
    → (o' : Outbuf) × (write_paddings o (replicate pad_size c) n ≡ some o')
      × Holds size o' (t ++ replicate (pos_part n) c)
unfolding write_paddings
write_paddings-Holds o t c (negsuc n) h = (o, refl, rw append-nil h)
write_paddings-Holds o t c (pos zero) h = (o, refl, rw append-nil h)
write_paddings-Holds o t c (pos (suc n)) h = (
  step_to o (replicate (suc n) c) (min (suc n) (room o)),
  ground (arith, write_padding_count-step_to c (suc n) h),
  step_to-Holds (replicate (suc n) c) (min (suc n) (room o)) (omega (arith, length-replicate n c))
      h,
)
