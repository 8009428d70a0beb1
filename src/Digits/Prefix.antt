-- ===== src/Digits/Prefix.antt =====
-- How far down the digit loop writes: the bytes that stay free in front of a numeral.
use constexpr_fmt_str.Prelude.{
  ℕ, zero, suc, ◌+◌, ◌-◌, ◌*◌, ◌/◌, ◌%◌, ◌≤◌, ◌≡◌, Bool-cases, inl, inr, some, List, arith, ltb,
  ◌==◌, bind-some,
}
use constexpr_fmt_str.Digits.{Written, store_pair, read_pair, pair_loop}

-- each round moves the pointer down by one pair
pub pair_loop-low :
    (base half : ℕ) (table : List ℕ) (fuel : ℕ) (buf : List ℕ) (it d : ℕ) (w : Written)
    → pair_loop base half table fuel buf it d ≡ some w
    → it + 2 ≤ w.1 + 2 * fuel
unfolding pair_loop
pair_loop-low base half table zero buf it d w e = ground (arith, e)
pair_loop-low base half table (suc fuel) buf it d w e = elim (Bool-cases (d / base == 0)) [
  | inl last ↦
      let (v, a, e1) = bind-some (read_pair table d) _ w (rw last at e) in
      let (buf', b, e2) = bind-some (store_pair buf it v) _ w e1 in ground (arith, e2)
  | inr more ↦
      let (v, a, e1) = bind-some (read_pair table (d % base)) _ w (rw more at e) in
      let (buf', b, e2) = bind-some (store_pair buf it v) _ w e1 in
      elim (Bool-cases (ltb it 2)) [
        | inl low ↦ ground (arith, low, e2)
        | inr high ↦
            let below =
              pair_loop-low base half table fuel buf' (it - 2) (d / base) w (rw high at e2) in
            ground (arith, high, below)
      ]
]
