-- ===== src/Outbuf/Holds.antt =====
-- What an `OutbufArg` of `n` bytes stands for: a text of which the buffer keeps what fits, one byte
-- left free.
use constexpr_fmt_str.Prelude.{
  ℕ, ◌+◌, ◌-◌, ◌%◌, ◌^◌, ◌≤◌, ◌<◌, min, ◌≡◌, ◌⊎◌, refl, sym, List, [], ◌∷◌, ◌++◌, some, arith,
  length, take, length-append, length-take, take-append, take-take, take-all, take-nil, ◌∙◌,
  Bool-cases, inl, inr, true, false, ltb, ltb→lt, ltb→le,
}
use mathlib.Core.Path.{ap₂}
use constexpr_fmt_str.Outbuf.{
  Outbuf, overwrite, put, size_mod, remaining, is_exhausted, write, write_char, create, reset,
}
use constexpr_fmt_str.Outbuf.Memory.{overwrite-nil, length-overwrite, take-overwrite}

pub record Holds (n : ℕ) (o : Outbuf) (text : List ℕ) : Type 0 where
  pub sized : o.size ≡ n
  pub fits : length o.mem ≡ o.size
  pub small : o.size < 2 ^ 63
  pub running : o.pos ≡ min (length text) (o.size - 1)
  pub kept : take o.pos o.mem ≡ take (o.size - 1) text
  pub counted : o.written ≡ length text % size_mod

-- the bytes that may still be written
abbrev pub room : Outbuf → ℕ
room o = o.size - 1 - o.pos

pub remaining-room :
    {size : ℕ} {o : Outbuf} {t : List ℕ}
    → Holds size o t
    → (is_exhausted (remaining o) ≡ true) × (room o ≡ 0)
      ⊎ (is_exhausted (remaining o) ≡ false) × (remaining o ≡ room o)
unfolding remaining
remaining-room h = ground arith

-- copying no more than what is left of a list copies what is left
take-min : (bs : List ℕ) (k n : ℕ) → k ≡ min (length bs) n → take k bs ≡ take n bs
take-min bs k n e = elim (Bool-cases (ltb n (length bs))) [
  | inl less ↦ let e' : k ≡ n = omega (arith, ltb→lt n (length bs) less) in rw e'
  | inr more ↦
      take-all k bs (omega (arith, ltb→le n (length bs) more))
      ∙ sym (take-all n bs (omega (arith, ltb→le n (length bs) more)))
]

-- the state after `bs` went out: `k` bytes of it are copied
abbrev pub step_to : Outbuf → List ℕ → ℕ → Outbuf
step_to o bs k = record o {
  mem = overwrite o.mem o.pos (take k bs);
  pos = o.pos + k;
  written = (o.written + length bs) % size_mod;
}

pub step_to-Holds :
    {size : ℕ} {o : Outbuf} {t : List ℕ} (bs : List ℕ) (k : ℕ)
    → k ≡ min (length bs) (room o)
    → Holds size o t
    → Holds size (step_to o bs k) (t ++ bs)
step_to-Holds {o} {t} bs k e h = record {
  sized = h.sized;
  fits = length-overwrite o.mem o.pos (take k bs) ∙ h.fits;
  small = h.small;
  running = omega (arith, length-append t bs, h.running);
  kept =
      take-overwrite o.mem o.pos (take k bs) (o.pos + k) (omega (arith, length-take k bs))
        (omega (arith, h.fits, h.running))
      ∙ ap₂ ◌++◌ h.kept (take-min bs k (o.size - 1 - length t) (omega (arith, h.running)))
      ∙ sym (take-append (o.size - 1) t bs);
  counted = omega (arith, length-append t bs, h.counted);
}

write-step_to :
    {size : ℕ} {o : Outbuf} {t : List ℕ} (p : List ℕ) (n : ℕ)
    → n ≤ length p
    → Holds size o t
    → write o p n ≡ some (step_to o (take n p) (min n (room o)))
unfolding write put
write-step_to {o} p n le h = ground (
  arith,
  remaining-room h,
  overwrite-nil o.mem o.pos,
  length-take n p,
  take-take (remaining o) n p,
  take-take n n p,
)

-- `write(p, n)` neither reads nor writes out of bounds, and appends the `n` bytes at `p`.
pub write-Holds :
    {size : ℕ} (o : Outbuf) (t p : List ℕ) (n : ℕ)
    → n ≤ length p
    → Holds size o t
    → (o' : Outbuf) × (write o p n ≡ some o') × Holds size o' (t ++ take n p)
write-Holds o t p n le h = (
  step_to o (take n p) (min n (room o)),
  write-step_to p n le h,
  step_to-Holds (take n p) (min n (room o)) (omega (arith, length-take n p)) h,
)

write_char-step_to :
    {size : ℕ} {o : Outbuf} {t : List ℕ} (c : ℕ)
    → Holds size o t
    → write_char o c ≡ some (step_to o (c ∷ []) (min 1 (room o)))
unfolding write_char put
write_char-step_to {o} c h = ground (arith, remaining-room h, overwrite-nil o.mem o.pos)

-- `write(ch)` appends one byte.
pub write_char-Holds :
    {size : ℕ} (o : Outbuf) (t : List ℕ) (c : ℕ)
    → Holds size o t
    → (o' : Outbuf) × (write_char o c ≡ some o') × Holds size o' (t ++ c ∷ [])
write_char-Holds o t c h = (
  step_to o (c ∷ []) (min 1 (room o)),
  write_char-step_to c h,
  step_to-Holds (c ∷ []) (min 1 (room o)) (omega arith) h,
)

pub create-Holds :
    (buffer : List ℕ) (size : ℕ)
    → length buffer ≡ size
    → size < 2 ^ 63
    → Holds size (create buffer size) []
unfolding create
create-Holds buffer size e h = record {
  sized = refl;
  fits = e;
  small = h;
  running = omega arith;
  kept = sym (take-nil (size - 1));
  counted = refl;
}

-- an empty text again, over whatever bytes were left
pub reset-Holds : {size : ℕ} {o : Outbuf} {t : List ℕ} → Holds size o t → Holds size (reset o) []
unfolding reset
reset-Holds {o} h = record {
  sized = h.sized;
  fits = h.fits;
  small = h.small;
  running = omega arith;
  kept = sym (take-nil (o.size - 1));
  counted = refl;
}
