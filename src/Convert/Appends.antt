-- ===== src/Convert/Appends.antt =====
-- Writers as appended text: a step on an `OutbufArg` against a step on the text it stands for.
use constexpr_fmt_str.Prelude.{
  ℕ, ◌≤◌, ◌≡◌, refl, Bool, true, false, Option, some, List, [], ◌∷◌, ◌++◌, append_assoc, append-nil,
  length, take, replicate, ◌>>=◌, if◌then◌else◌,
}
use constexpr_fmt_str.Prelude.Int.{ℤ, pos_part}
use constexpr_fmt_str.Outbuf.{Outbuf, write, write_char, write_paddings, blanks, zeros}
use constexpr_fmt_str.Outbuf.Holds.{Holds, write-Holds, write_char-Holds}
use constexpr_fmt_str.Outbuf.Padding.{write_paddings-Holds}
use constexpr_fmt_str.Convert.Emit.{when}

-- `m` succeeds on every buffer and appends `s`
abbrev pub Appends : (Outbuf → Option Outbuf) → List ℕ → Type 0
Appends m s =
    (size : ℕ) (o : Outbuf) (t : List ℕ)
    → Holds size o t
    → (o' : Outbuf) × (m o ≡ some o') × Holds size o' (t ++ s)

pub bind-Appends :
    {m m' : Outbuf → Option Outbuf} {s s' : List ℕ}
    → Appends m s
    → Appends m' s'
    → Appends (λ o. m o >>= m') (s ++ s')
bind-Appends {m} {m'} {s} {s'} a a' size o t h =
    let (o1, e, h1) = a size o t h in
    let (o2, e', h2) = a' size o1 (t ++ s) h1 in (o2, rw e e', rw (← append_assoc t s s') h2)

pub when-Appends :
    (b : Bool) {m : Outbuf → Option Outbuf} {s : List ℕ}
    → Appends m s
    → Appends (when b m) (if b then s else [])
when-Appends true a size o t h = a size o t h
when-Appends false a size o t h = (o, refl, rw append-nil h)

pub blanks-Appends :
    (n : ℤ) → Appends (λ o. write_paddings o blanks n) (replicate (pos_part n) b' ')
blanks-Appends n size o t h = write_paddings-Holds o t b' ' n h

pub zeros-Appends : (n : ℤ) → Appends (λ o. write_paddings o zeros n) (replicate (pos_part n) b'0')
zeros-Appends n size o t h = write_paddings-Holds o t b'0' n h

pub char-Appends : (c : ℕ) → Appends (λ o. write_char o c) (c ∷ [])
char-Appends c size o t h = write_char-Holds o t c h

pub write-Appends : (p : List ℕ) (n : ℕ) → n ≤ length p → Appends (λ o. write o p n) (take n p)
write-Appends p n le size o t h = write-Holds o t p n le h
