-- ===== src/Outbuf/Memory.antt =====
-- `overwrite`, the effect of a `memcpy` into the buffer, and the bounded copy `put`.
use constexpr_fmt_str.Prelude.{
  ℕ, zero, suc, ◌+◌, ◌≤◌, ◌≡◌, refl, ap, List, [], ◌∷◌, ◌++◌, some, arith, length, take,
}
use constexpr_fmt_str.Outbuf.{Outbuf, overwrite, put}

pub length-overwrite : (ms : List ℕ) (p : ℕ) (bs : List ℕ) → length (overwrite ms p bs) ≡ length ms
unfolding overwrite
length-overwrite [] p bs = refl
length-overwrite (m ∷ ms) (suc p) bs = ap suc (length-overwrite ms p bs)
length-overwrite (m ∷ ms) zero [] = refl
length-overwrite (m ∷ ms) zero (b ∷ bs) = ap suc (length-overwrite ms zero bs)

-- the prefix that ends behind the copied bytes
pub take-overwrite :
    (ms : List ℕ) (p : ℕ) (bs : List ℕ) (q : ℕ)
    → p + length bs ≡ q
    → q ≤ length ms
    → take q (overwrite ms p bs) ≡ take p ms ++ bs
unfolding overwrite
take-overwrite [] zero [] zero e h = refl
take-overwrite [] (suc p) bs zero e h = absurd (omega arith)
take-overwrite [] p (b ∷ bs) zero e h = absurd (omega arith)
take-overwrite [] p bs (suc q) e h = elim h [ ]
take-overwrite (m ∷ ms) (suc p) bs zero e h = absurd (omega arith)
take-overwrite (m ∷ ms) (suc p) bs (suc q) e h =
    ap (λ zs. m ∷ zs) (take-overwrite ms p bs q (omega arith) (omega arith))
take-overwrite (m ∷ ms) zero [] zero e h = refl
take-overwrite (m ∷ ms) zero [] (suc q) e h = absurd (omega arith)
take-overwrite (m ∷ ms) zero (b ∷ bs) zero e h = absurd (omega arith)
take-overwrite (m ∷ ms) zero (b ∷ bs) (suc q) e h =
    ap (λ zs. b ∷ zs) (take-overwrite ms zero bs q (omega arith) (omega arith))

pub overwrite-nil : (ms : List ℕ) (p : ℕ) → overwrite ms p [] ≡ ms
unfolding overwrite
overwrite-nil [] p = refl
overwrite-nil (m ∷ ms) zero = refl
overwrite-nil (m ∷ ms) (suc p) = ap (λ zs. m ∷ zs) (overwrite-nil ms p)

-- two copies behind one another are one copy
pub overwrite-overwrite :
    (ms : List ℕ) (p : ℕ) (xs ys : List ℕ) (q : ℕ)
    → p + length xs ≡ q
    → overwrite (overwrite ms p xs) q ys ≡ overwrite ms p (xs ++ ys)
unfolding overwrite
overwrite-overwrite [] p xs ys q e = refl
overwrite-overwrite (m ∷ ms) (suc p) xs ys zero e = absurd (omega arith)
overwrite-overwrite (m ∷ ms) (suc p) xs ys (suc q) e =
    ap (λ zs. m ∷ zs) (overwrite-overwrite ms p xs ys q (omega arith))
overwrite-overwrite (m ∷ ms) zero [] ys zero e = refl
overwrite-overwrite (m ∷ ms) zero [] ys (suc q) e = absurd (omega arith)
overwrite-overwrite (m ∷ ms) zero (x ∷ xs) ys zero e = absurd (omega arith)
overwrite-overwrite (m ∷ ms) zero (x ∷ xs) ys (suc q) e =
    ap (λ zs. x ∷ zs) (overwrite-overwrite ms zero xs ys q (omega arith))

pub put-in_bounds :
    (o : Outbuf) (p : List ℕ) (n : ℕ)
    → n ≤ length p
    → o.pos + n ≤ length o.mem
    → put o p n ≡ some (record o { mem = overwrite o.mem o.pos (take n p); pos = o.pos + n })
unfolding put
put-in_bounds o p n h k = ground arith
