-- ===== src/Spec/Store.antt =====
-- `storeOneChar` and `preprocessInvalidSpecs`: the string that is written from at run time.
use constexpr_fmt_str.Prelude.{
  ℕ, zero, suc, ◌+◌, ◌≤◌, ◌<◌, none, some, List, [], ◌∷◌, ◌++◌, append_assoc, ◌≡◌, ◌≢◌, refl, sym,
  ap, ◌∙◌, arith, length, drop, get_or, length-append, true, false,
}
use constexpr_fmt_str.Spec.{is_terminal, is_inside, skip_inside}
use constexpr_fmt_str.Spec.Count.{is_terminal-nul}
use constexpr_fmt_str.Spec.Scan.{store_one_char, store_chars, preprocess_invalid_specs}
use constexpr_fmt_str.Spec.Pieces.{
  Piece, plain_char, valid, faulty, Tail, source, squeezed, AllInside, IsFormat, skip_inside-stop,
  skip_inside-end,
}

drop-cons :
    (n : ℕ) (xs : List ℕ) (c : ℕ) (r : List ℕ)
    → drop n xs ≡ c ∷ r
    → (get_or xs n 0 ≡ c) × (drop (suc n) xs ≡ r) × (n < length xs)
drop-cons zero [] c r e = cc
drop-cons zero (x ∷ xs) c r e = ground arith
drop-cons (suc n) [] c r e = cc
drop-cons (suc n) (x ∷ xs) c r e = let (a, b, l) = drop-cons n xs c r e in (a, b, omega arith)

drop-append :
    (xs : List ℕ) (n m : ℕ) (fmt r : List ℕ)
    → n + length xs ≡ m
    → drop n fmt ≡ xs ++ r
    → drop m fmt ≡ r
drop-append [] n m fmt r e d = let e' : n ≡ m = omega arith in rw (← e') d
drop-append (x ∷ xs) n m fmt r e d =
    drop-append xs (suc n) m fmt r (omega arith) (drop-cons n fmt x (xs ++ r) d).1

get_or-past : (n : ℕ) (xs : List ℕ) → length xs ≤ n → get_or xs n 0 ≡ 0
get_or-past n [] h = refl
get_or-past zero (x ∷ xs) h = elim h [ ]
get_or-past (suc n) (x ∷ xs) h = get_or-past n xs (omega arith)

module _ (fmt : List ℕ) (num off : ℕ) where
  store_one_char-plain :
      (c : ℕ) (r : List ℕ)
      → c ≢ b'%'
      → drop (num + off) fmt ≡ c ∷ r
      → store_one_char fmt off num ≡ (c, off)
  unfolding store_one_char
  store_one_char-plain c r h d = ground (arith, drop-cons (num + off) fmt c r d)

  -- what `storeOneChar` reads at the '%' of a specifier
  read_inside :
      (body : List ℕ) (c : ℕ) (r : List ℕ)
      → AllInside body
      → is_inside c ≡ false
      → drop (num + off) fmt ≡ b'%' ∷ (body ++ (c ∷ r))
      → (get_or fmt (num + off) 0 ≡ b'%')
        × (num + off < length fmt)
        × ((skip_inside 0 (drop (num + off + 1) fmt)).0 ≡ length body)
        × (get_or fmt (num + (off + 1 + length body)) 0 ≡ c)
  read_inside body c r b i d =
      let h = drop-cons (num + off) fmt b'%' (body ++ (c ∷ r)) d in
      let here : num + off + 1 ≡ suc (num + off) = omega arith in
      let at : drop (num + off + 1) fmt ≡ body ++ (c ∷ r) = rw here h.1 in
      let last =
        drop-append body (suc (num + off)) (num + (off + 1 + length body)) fmt (c ∷ r) (omega arith)
          h.1 in
      (
        h.0,
        h.2,
        rw at (ground (arith, skip_inside-stop 0 body c r b i)),
        (drop-cons (num + (off + 1 + length body)) fmt c r last).0,
      )

  store_one_char-valid :
      (body : List ℕ) (c : ℕ) (r : List ℕ)
      → AllInside body
      → is_inside c ≡ false
      → is_terminal c ≡ true
      → drop (num + off) fmt ≡ b'%' ∷ (body ++ (c ∷ r))
      → store_one_char fmt off num ≡ (b'%', off)
  unfolding store_one_char
  store_one_char-valid body c r b i e d = ground (arith, read_inside body c r b i d)

  store_one_char-faulty :
      (body : List ℕ) (c : ℕ) (r : List ℕ)
      → AllInside body
      → is_inside c ≡ false
      → is_terminal c ≡ false
      → drop (num + off) fmt ≡ b'%' ∷ (body ++ (c ∷ r))
      → store_one_char fmt off num ≡ (c, off + 1 + length body)
  unfolding store_one_char
  store_one_char-faulty body c r b i e d = ground (arith, read_inside body c r b i d)

  -- a specifier that the end of the string cuts off, and the end itself
  store_one_char-cut :
      (t : Tail)
      → IsFormat [] t
      → drop (num + off) fmt ≡ source [] t
      → length fmt ≡ num + off + length (source [] t)
      → (store_one_char fmt off num).0 ≡ 0
  unfolding store_one_char
  store_one_char-cut none f d l = ground (arith, get_or-past (num + off) fmt)
  store_one_char-cut (some body) f d l =
      let h = drop-cons (num + off) fmt b'%' body d in
      let here : num + off + 1 ≡ suc (num + off) = omega arith in
      let at : drop (num + off + 1) fmt ≡ body = rw here h.1 in
      ground (
        arith,
        h,
        at,
        skip_inside-end 0 body f,
        is_terminal-nul,
        get_or-past (num + (off + 1 + length body)) fmt,
      )

abbrev NoPercent : List ℕ → Type 0
NoPercent [] = Unit
NoPercent (c ∷ r) = (c ≢ b'%') × NoPercent r

inside-NoPercent : (body : List ℕ) (c : ℕ) → AllInside body → c ≢ b'%' → NoPercent (body ++ c ∷ [])
inside-NoPercent [] c b h = (h, tt)
inside-NoPercent (x ∷ body) c b h = (λ e. unfold is_inside in cc b.0, inside-NoPercent body c b.1 h)

-- characters other than '%' are copied one by one
store_chars-plain :
    (fmt xs : List ℕ) (n k num m off : ℕ) (r : List ℕ)
    → n ≡ length xs + k
    → m ≡ num + length xs
    → NoPercent xs
    → drop (num + off) fmt ≡ xs ++ r
    → store_chars n num off fmt ≡ xs ++ store_chars k m off fmt
unfolding store_chars
store_chars-plain fmt [] n k num m off r e e' h d =
    let a : n ≡ k = omega arith in let b : m ≡ num = omega arith in rw (a, b)
store_chars-plain fmt (x ∷ xs) zero k num m off r e e' h d = absurd (omega arith)
store_chars-plain fmt (x ∷ xs) (suc n) k num m off r e e' h d =
    let next : num + 1 + off ≡ suc (num + off) = omega arith in
    let d' : drop (num + 1 + off) fmt ≡ xs ++ r =
      rw next (drop-cons (num + off) fmt x (xs ++ r) d).1 in
    rw (store_one_char-plain fmt num off x (xs ++ r) h.0 d) (
      ap (λ zs. x ∷ zs)
        (store_chars-plain fmt xs n k (num + 1) m off r (omega arith) (omega arith) h.1 d'))

is_terminal-ne-percent : (c : ℕ) → is_terminal c ≡ true → c ≢ b'%'
unfolding is_terminal
is_terminal-ne-percent c h = ground arith

store_chars-suc :
    (fmt : List ℕ) (n num off c off' : ℕ)
    → store_one_char fmt off num ≡ (c, off')
    → store_chars (suc n) num off fmt ≡ c ∷ store_chars n (num + 1) off' fmt
unfolding store_chars
store_chars-suc fmt n num off c off' e = rw e

store_chars-one :
    (fmt : List ℕ) (n num off : ℕ)
    → n ≡ 0
    → (store_one_char fmt off num).0 ≡ 0
    → store_chars (suc n) num off fmt ≡ 0 ∷ []
unfolding store_chars
store_chars-one fmt n num off e z = rw (e, z)

-- the source behind a specifier
drop-valid :
    (fmt body : List ℕ) (c : ℕ) (r : List ℕ) (n m : ℕ)
    → drop n fmt ≡ b'%' ∷ (body ++ (c ∷ r))
    → m ≡ n + length body + 2
    → drop m fmt ≡ r
drop-valid fmt body c r n m d e =
    drop-append (body ++ c ∷ []) (suc n) m fmt r (omega (arith, length-append body (c ∷ [])))
      ((drop-cons n fmt b'%' (body ++ (c ∷ r)) d).1 ∙ sym (append_assoc body (c ∷ []) r))

-- Index `num` of the squeezed string stands for index `num + off` of the format string.
store_chars-source :
    (fmt : List ℕ) (ps : List Piece) (t : Tail) (n num off : ℕ)
    → IsFormat ps t
    → n ≡ length (squeezed ps) + 1
    → drop (num + off) fmt ≡ source ps t
    → length fmt ≡ num + off + length (source ps t)
    → store_chars n num off fmt ≡ squeezed ps ++ (0 ∷ [])
store_chars-source fmt ps t zero num off f e d l = absurd (omega arith)
store_chars-source fmt [] t (suc n) num off f e d l =
    store_chars-one fmt n num off (omega arith) (store_one_char-cut fmt num off t f d l)
store_chars-source fmt (plain_char c ∷ ps) t (suc n) num off f e d l =
    let next : num + 1 + off ≡ suc (num + off) = omega arith in
    let d' : drop (num + 1 + off) fmt ≡ source ps t =
      rw next (drop-cons (num + off) fmt c (source ps t) d).1 in
    store_chars-suc fmt n num off c off (store_one_char-plain fmt num off c (source ps t) f.0.1 d)
    ∙ ap (λ zs. c ∷ zs)
        (store_chars-source fmt ps t n (num + 1) off f.1 (omega arith) d' (omega arith))
store_chars-source fmt (valid body c ∷ ps) t (suc n) num off ((b, i, ends, nz), f) e d l =
    let r = source ps t in
    let len = length-append body (c ∷ source ps t) in
    let len' = length-append body (c ∷ squeezed ps) in
    let len'' = length-append body (c ∷ []) in
    let inner = body ++ c ∷ [] in
    let next : num + 1 + off ≡ suc (num + off) = omega arith in
    let d' : drop (num + 1 + off) fmt ≡ inner ++ r = rw next (
      (drop-cons (num + off) fmt b'%' (body ++ (c ∷ r)) d).1
      ∙ sym (append_assoc body (c ∷ []) r)) in
    let m = num + 1 + length inner in
    let d'' : drop (m + off) fmt ≡ r =
      drop-valid fmt body c r (num + off) (m + off) d (omega (arith, len'')) in
    store_chars-suc fmt n num off b'%' off (store_one_char-valid fmt num off body c r b i ends d)
    ∙ ap (λ zs. b'%' ∷ zs)
        (store_chars-plain fmt inner n (length (squeezed ps) + 1) (num + 1) m off r
            (omega (arith, len', len'')) refl
            (inside-NoPercent body c b (is_terminal-ne-percent c ends)) d'
          ∙ ap (λ zs. inner ++ zs)
              (store_chars-source fmt ps t (length (squeezed ps) + 1) m off f refl d''
                (omega (arith, len, len'')))
          ∙ regroup body c (squeezed ps))
  where
    regroup :
        (body : List ℕ) (c : ℕ) (s : List ℕ)
        → (body ++ c ∷ []) ++ (s ++ (0 ∷ [])) ≡ (body ++ (c ∷ s)) ++ (0 ∷ [])
    regroup body c s = simp append_assoc
store_chars-source fmt (faulty body c ∷ ps) t (suc n) num off ((b, i, no_end, nz), f) e d l =
    let r = source ps t in
    let off' = off + 1 + length body in
    store_chars-suc fmt n num off c off' (store_one_char-faulty fmt num off body c r b i no_end d)
    ∙ ap (λ zs. c ∷ zs)
        (store_chars-source fmt ps t n (num + 1) off' f (omega arith)
          (drop-valid fmt body c r (num + off) (num + 1 + off') d (omega arith))
          (omega (arith, length-append body (c ∷ source ps t))))

-- `preprocessInvalidSpecs`, at a size below that of the literal, gives the squeezed string.
pub preprocess_invalid_specs-source :
    (ps : List Piece) (t : Tail)
    → IsFormat ps t
    → length (squeezed ps) < length (source ps t)
    → preprocess_invalid_specs (length (squeezed ps) + 1) (source ps t) ≡ squeezed ps ++ (0 ∷ [])
unfolding preprocess_invalid_specs
preprocess_invalid_specs-source ps t f lt =
    ground (arith, store_chars-source (source ps t) ps t (length (squeezed ps) + 1) 0 0 f)
