-- ===== src/Digits/Value.antt =====
-- What the digit loop writes: the numeral of `d`, without leading zeros, inside the buffer.
use constexpr_fmt_str.Prelude.{
  ℕ, zero, suc, ◌+◌, ◌-◌, ◌*◌, ◌/◌, ◌%◌, ◌^◌, ◌≤◌, ◌<◌, Bool, true, false, ◌&&◌, some, List, [],
  ◌∷◌, ltb, ◌==◌, if◌then◌else◌, length, get_or, drop, ◌≡◌, ◌≢◌, refl, arith, ap, ◌∙◌, ◌⊎◌, inl,
  inr, ==→eq, ==→ne, Bool-cases, ltb→lt, ltb→le, drop_behind,
}
use native.Mathlib.Nat.{div-lt_iff_lt-mul, pow-suc, div-add-mod', mod-lt, mod-eq_of_lt, pow-zero}
use constexpr_fmt_str.Outbuf.{overwrite}
use constexpr_fmt_str.Outbuf.Memory.{length-overwrite, overwrite-nil}
use constexpr_fmt_str.Digits.{store_pair, read_pair, pair_loop, Written}

-- the number that `text` spells behind `n`, where `digit` gives the value of a character
abbrev pub value : ℕ → (ℕ → ℕ) → ℕ → List ℕ → ℕ
value half digit n [] = n
value half digit n (c ∷ r) = value half digit (n * half + digit c) r

-- the characters are digits: their values are below `half`, and `numeral` takes them
abbrev pub AllDigits : (ℕ → Bool) → List ℕ → Type 0
AllDigits numeral [] = Unit
AllDigits numeral (c ∷ r) = (numeral c ≡ true) × AllDigits numeral r

-- No leading zero, but for "0" itself.
abbrev pub NoLeadingZero : List ℕ → Type 0
NoLeadingZero [] = ⊥
NoLeadingZero (c ∷ []) = Unit
NoLeadingZero (c ∷ d ∷ r) = c ≢ b'0'

first_digit : (c : ℕ) (r : List ℕ) → (c ≢ b'0') ⊎ (r ≡ []) → NoLeadingZero (c ∷ r)
first_digit c [] h = tt
first_digit c (x ∷ r) (inl n) = n
first_digit c (x ∷ r) (inr e) = cc

drop-overwrite :
    (ms : List ℕ) (p q a b : ℕ)
    → q ≡ p + 2
    → q ≤ length ms
    → drop p (overwrite ms p (a ∷ b ∷ [])) ≡ a ∷ b ∷ drop q ms
unfolding overwrite
drop-overwrite ms p zero a b e h = absurd (omega arith)
drop-overwrite [] p (suc q) a b e h = absurd (omega arith)
drop-overwrite (m ∷ []) zero (suc q) a b e h = absurd (omega arith)
drop-overwrite (m ∷ n ∷ ms) zero (suc q) a b e h =
    let e' : q ≡ 1 = omega arith in rw (e', overwrite-nil ms zero)
drop-overwrite (m ∷ ms) (suc p) (suc q) a b e h =
    drop-overwrite ms p q a b (omega arith) (omega arith)

-- The buffer of `n` bytes spells `d` from `it` on.
pub record Spells (half : ℕ) (digit : ℕ → ℕ) (numeral : ℕ → Bool) (n d : ℕ) (w : Written)
    : Type 0 where
  pub size : length w.0 ≡ n
  pub inside : w.1 < n
  pub spelled : value half digit 0 (drop w.1 w.0) ≡ d
  pub digits : AllDigits numeral (drop w.1 w.0)
  pub no_zero : NoLeadingZero (drop w.1 w.0)

module _ (half base : ℕ) (digit : ℕ → ℕ) (numeral : ℕ → Bool) (table : List ℕ) where
  -- every entry below `n` holds the two digits of its index
  unfoldable pub check_pairs : ℕ → Bool
  check_pairs zero = true
  check_pairs (suc n) =
      let v = get_or table n 0 in
      (digit (v % 2 ^ 8) == (n / half))
      && (digit (v / 2 ^ 8) == (n % half))
      && numeral (v % 2 ^ 8)
      && numeral (v / 2 ^ 8)
      && check_pairs n

  pub record IsPair (i : ℕ) : Type 0 where
    pub high : digit (get_or table i 0 % 2 ^ 8) ≡ i / half
    pub low : digit (get_or table i 0 / 2 ^ 8) ≡ i % half
    pub high_numeral : numeral (get_or table i 0 % 2 ^ 8) ≡ true
    pub low_numeral : numeral (get_or table i 0 / 2 ^ 8) ≡ true

  pub check_pairs-IsPair : (n i : ℕ) → check_pairs n ≡ true → i < n → IsPair i
  unfolding check_pairs
  check_pairs-IsPair zero i h l = elim l [ ]
  check_pairs-IsPair (suc n) i h l = elim (Bool-cases (i == n)) [
    | inl e ↦ let e' : i ≡ n = ==→eq i n e in rw e' (ground arith)
    | inr e ↦ check_pairs-IsPair n i (ground arith) (omega (arith, ==→ne i n e))
  ]

  -- the state at the head of the loop: the digits behind `it + 2` are those that `d` lacks
  pub record Inv (n total : ℕ) (buf : List ℕ) (it d : ℕ) : Type 0 where
    pub size : length buf ≡ n
    pub inside : it + 2 ≤ n
    pub spelled : value half digit d (drop (it + 2) buf) ≡ total
    pub digits : AllDigits numeral (drop (it + 2) buf)
    pub started : (d ≢ 0) ⊎ (drop (it + 2) buf ≡ [])

module _ {half base : ℕ} {digit : ℕ → ℕ} {numeral : ℕ → Bool} {table : List ℕ} (positive : 0 < half)
    (square : base ≡ half * half) (sized : length table ≡ base)
    (pairs : (i : ℕ) → i < base → IsPair half base digit numeral table i)
    (zero_digit : digit b'0' ≡ 0) where
  -- one pair stored
  stored :
      {n total : ℕ} {buf : List ℕ} {it d : ℕ} (i : ℕ)
      → Inv half base digit numeral table n total buf it d
      → i < base
      → (buf' : List ℕ) × (read_pair table i ≡ some (get_or table i 0))
        × (store_pair buf it (get_or table i 0) ≡ some buf')
        × (length buf' ≡ n)
        × (drop it buf' ≡ get_or table i 0 % 2 ^ 8 ∷ get_or table i 0 / 2 ^ 8 ∷ drop (it + 2) buf)
  unfolding read_pair store_pair
  stored {n} {total} {buf} {it} {d} i v l = (
    overwrite buf it (get_or table i 0 % 2 ^ 8 ∷ get_or table i 0 / 2 ^ 8 ∷ []),
    ground arith,
    ground arith,
    length-overwrite buf it _ ∙ v.size,
    drop-overwrite buf it (it + 2) _ _ refl (omega (arith, v.inside, v.size)),
  )

  base_positive : 0 < base
  base_positive = rw square (grind arith)

  div-lt-pow : (d k : ℕ) → d < base ^ suc k → d / base < base ^ k
  div-lt-pow d k h = (div-lt_iff_lt-mul base_positive).1 (rw (pow-suc base k) at h)

  lt_of_div : (d : ℕ) → d / base ≡ 0 → d < base
  lt_of_div d e =
      omega (arith, (div-lt_iff_lt-mul {k = base} {x = d} {y = 1} base_positive).0 (omega arith))

  -- a number that is not 0 needs a round
  pow_rounds : (d k : ℕ) → d < base ^ k → d ≢ 0 → 0 < k
  pow_rounds d zero h n = absurd (omega (arith, pow-zero base))
  pow_rounds d (suc k) h n = omega arith

  two_digits : (div i d : ℕ) → div * base + i ≡ d → (div * half + i / half) * half + i % half ≡ d
  two_digits div i d e =
      let parts : i / half * half + i % half ≡ i = div-add-mod' i half in
      let e' : div * (half * half) + i ≡ d = rw square at e in omega (arith, e', parts)

  char_ne_zero : (c : ℕ) → digit c ≢ 0 → c ≢ b'0'
  char_ne_zero c h e = h (ap digit e ∙ zero_digit)

  -- the pair of the last round; of a number below `half` only the second digit is kept
  last_round :
      {n total : ℕ} {buf : List ℕ} {it d : ℕ} (buf' : List ℕ)
      → Inv half base digit numeral table n total buf it d
      → d < base
      → length buf' ≡ n
      → drop it buf' ≡ get_or table d 0 % 2 ^ 8 ∷ get_or table d 0 / 2 ^ 8 ∷ drop (it + 2) buf
      → Spells half digit numeral n total (buf', if ltb d half then it + 1 else it)
  last_round {n} {total} {buf} {it} {d} buf' v l s e = elim (Bool-cases (ltb d half)) [
    | inl one ↦
        let tail = drop_behind it (it + 1) buf' _ _ (omega arith) e in
        let value_low : digit (get_or table d 0 / 2 ^ 8) ≡ d =
          (pairs d l).low ∙ mod-eq_of_lt (ltb→lt d half one) in
        let zero_start : 0 * half + d ≡ d = omega arith in
        rw one (record {
          size = s;
          inside = omega (arith, v.inside);
          spelled = rw (tail, value, value_low, zero_start) v.spelled;
          digits = rw tail ((pairs d l).low_numeral, v.digits);
          no_zero = rw tail (
              first_digit _ _ (elim v.started [
                | inl n ↦ inl (char_ne_zero _ (rw value_low n))
                | inr none_yet ↦ inr none_yet
              ]));
        })
    | inr two ↦
        let pair = pairs d l in
        let high_ne : d / half ≢ 0 = (λ z. omega (
          arith,
          (div-lt_iff_lt-mul {k = half} {x = d} {y = 1} positive).0 (omega arith),
          ltb→le d half two,
        )) in
        let all : (0 * half + d / half) * half + d % half ≡ d =
          omega (arith, div-add-mod' d half) in
        rw two (record {
          size = s;
          inside = omega (arith, v.inside);
          spelled = rw (e, value, pair.high, pair.low, all) v.spelled;
          digits = rw e (pair.high_numeral, (pair.low_numeral, v.digits));
          no_zero = rw e (char_ne_zero _ (rw pair.high high_ne));
        })
  ]

  next_round :
      {n total : ℕ} {buf : List ℕ} {it d : ℕ} (buf' : List ℕ)
      → Inv half base digit numeral table n total buf it d
      → 2 ≤ it
      → d / base ≢ 0
      → length buf' ≡ n
      → drop it buf'
        ≡ get_or table (d % base) 0 % 2 ^ 8 ∷ get_or table (d % base) 0 / 2 ^ 8 ∷ drop (it + 2) buf
      → Inv half base digit numeral table n total buf' (it - 2) (d / base)
  next_round {n} {total} {buf} {it} {d} buf' v two more s e =
      let at : it - 2 + 2 ≡ it = omega arith in
      let pair = pairs (d % base) (mod-lt d base_positive) in
      record {
        size = s;
        inside = omega (arith, v.inside);
        spelled =
            rw
              (
                at,
                e,
                value,
                pair.high,
                pair.low,
                two_digits (d / base) (d % base) d (div-add-mod' d base),
              )
              v.spelled;
        digits = rw (at, e) (pair.high_numeral, (pair.low_numeral, v.digits));
        started = inl more;
      }

  pub pair_loop-Spells :
      (fuel n total : ℕ) (buf : List ℕ) (it d : ℕ)
      → d < base ^ fuel
      → 0 < fuel
      → 2 * fuel ≤ it + 2
      → Inv half base digit numeral table n total buf it d
      → (w : Written) × (pair_loop base half table fuel buf it d ≡ some w)
        × Spells half digit numeral n total w
  unfolding pair_loop
  pair_loop-Spells zero n total buf it d lt p room v = elim p [ ]
  pair_loop-Spells (suc fuel) n total buf it d lt p room v = elim (Bool-cases (d / base == 0)) [
    | inl last ↦
        let small : d < base = lt_of_div d (==→eq (d / base) 0 last) in
        let (buf', a, b, s, e) = stored d v small in
        ((buf', if ltb d half then it + 1 else it), rw (last, a, b), last_round buf' v small s e)
    | inr more ↦
        let some_left : d / base ≢ 0 = ==→ne (d / base) 0 more in
        let lt' : d / base < base ^ fuel = div-lt-pow d fuel lt in
        let p' : 0 < fuel = pow_rounds (d / base) fuel lt' some_left in
        let two : 2 ≤ it = omega arith in
        let enough : ltb it 2 ≡ false = ground arith in
        let (buf', a, b, s, e) = stored (d % base) v (mod-lt d base_positive) in
        let (w, run, sp) =
          pair_loop-Spells fuel n total buf' (it - 2) (d / base) lt' p' (omega arith)
            (next_round buf' v two some_left s e) in
        (w, rw (more, a, b, enough) run, sp)
  ]
