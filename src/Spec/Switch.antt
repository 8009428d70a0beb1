-- ===== src/Spec/Switch.antt =====
-- The loop around the `switch` of `getOneSpec`: it takes every specifier whose numbers fit, to its last letter.
use constexpr_fmt_str.Prelude.{
  ℕ, zero, suc, ◌+◌, ◌≤◌, ◌<◌, Bool, true, false, some, List, [], ◌∷◌, ◌++◌, ◌≡◌, refl, arith,
  length, sym, ap, ◌∙◌, bind-some, some-same, inl, inr, Option-cases,
}
use constexpr_fmt_str.Spec.{Fields, is_terminal, switch_char, read_fields}
use constexpr_fmt_str.Spec.Pieces.{AllInside, NumbersFit}
use constexpr_fmt_str.Spec.Round.{
  is_terminal-IsEnd, switch_char-append, GoesOn, switch_char-GoesOn, switch_char-FitsOn,
  switch_char-end, GoesOn-some,
}

-- what the loop makes of a specifier's text, whatever stands behind it
abbrev pub Reads : Fields → List ℕ → ℕ → Type 0
Reads s body c =
    (s' : Fields) × (s'.terminal ≡ c)
    × ((fuel : ℕ) (rest : List ℕ)
        → length body < fuel
        → read_fields fuel s (body ++ (c ∷ rest)) ≡ some s')

read_fields-end : (s : Fields) (c : ℕ) → is_terminal c ≡ true → Reads s [] c
unfolding read_fields
read_fields-end s c h = (record s { terminal = c }, refl, run)
  where
    run :
        (fuel : ℕ) (rest : List ℕ)
        → 0 < fuel
        → read_fields fuel s (c ∷ rest) ≡ some (record s { terminal = c })
    run zero rest l = elim l [ ]
    run (suc fuel) rest l = rw (switch_char-end s c rest h)

read_fields-cons :
    (s s1 : Fields) (b : ℕ) (body r : List ℕ) (c : ℕ)
    → is_terminal c ≡ true
    → switch_char s b body ≡ some (s1, r, false)
    → length r ≤ length body
    → Reads s1 r c
    → Reads s (b ∷ body) c
unfolding read_fields
read_fields-cons s s1 b body r c h e le (s', t, run) = (s', t, run')
  where
    run' :
        (fuel : ℕ) (rest : List ℕ)
        → suc (length body) < fuel
        → read_fields fuel s (b ∷ (body ++ (c ∷ rest))) ≡ some s'
    run' zero rest l = elim l [ ]
    run' (suc fuel) rest l =
        rw (switch_char-append c rest (is_terminal-IsEnd c h) s b body, e)
          (run fuel rest (omega arith))

pub read_fields-Reads :
    (n : ℕ) (s : Fields) (body : List ℕ) (c : ℕ)
    → length body ≤ n
    → AllInside body
    → NumbersFit body
    → is_terminal c ≡ true
    → Reads s body c
read_fields-Reads n s [] c l b fits h = read_fields-end s c h
read_fields-Reads zero s (x ∷ body) c l b fits h = absurd (omega arith)
read_fields-Reads (suc n) s (x ∷ body) c l b fits h =
    let (s1, r, e, inside, fits', le) =
      GoesOn-some (switch_char s x body) body (switch_char-GoesOn s x body b.0 b.1)
        (switch_char-FitsOn s x body b.0 fits) in
    read_fields-cons s s1 x body r c h e le
      (read_fields-Reads n s1 r c (omega arith) inside fits' h)

-- the loop goes on with what a round left
read_fields-next :
    (fuel : ℕ) (s s' : Fields) (b : ℕ) (r : List ℕ)
    → read_fields (suc fuel) s (b ∷ r) ≡ some s'
    → (s1 : Fields) × (r1 : List ℕ) × (x : Bool) × (switch_char s b r ≡ some (s1, r1, x))
      × ((x ≡ false) → read_fields fuel s1 r1 ≡ some s')
unfolding read_fields
read_fields-next fuel s s' b r e =
    let ((s1, r1, x), run, rest) = bind-some (switch_char s b r) _ s' e in
    (s1, r1, x, run, λ go_on. rw go_on at rest)

-- what the loop returns has the specifier's last letter
pub read_fields-terminal :
    (fuel : ℕ) (s s' : Fields) (body rest : List ℕ) (c : ℕ)
    → AllInside body
    → is_terminal c ≡ true
    → read_fields fuel s (body ++ (c ∷ rest)) ≡ some s'
    → s'.terminal ≡ c
unfolding read_fields
read_fields-terminal zero s s' body rest c b h e = cc e
read_fields-terminal (suc fuel) s s' [] rest c b h e =
    let same : some (record s { terminal = c }) ≡ some s' = rw (switch_char-end s c rest h) at e in
    ap (λ z. z.terminal) (sym (some-same _ s' same))
read_fields-terminal (suc fuel) s s' (x ∷ body) rest c b h e =
    let (s1, r1, y, run, next) = read_fields-next fuel s s' x (body ++ (c ∷ rest)) e in
    let moved = sym (switch_char-append c rest (is_terminal-IsEnd c h) s x body) ∙ run in
    elim (Option-cases (switch_char s x body)) [
      | inl nothing ↦ ground (arith, nothing, moved)
      | inr ((s2, r2, y2), here) ↦
          let goes : GoesOn (some (s2, r2, y2)) body =
            rw here at (switch_char-GoesOn s x body b.0 b.1) in
          let same = some-same (s2, r2 ++ (c ∷ rest), y2) (s1, r1, y) (rw here at moved) in
          let left : r2 ++ (c ∷ rest) ≡ r1 = ap (λ z. z.1) same in
          let first : s2 ≡ s1 = ap (λ z. z.0) same in
          let again : read_fields fuel s2 (r2 ++ (c ∷ rest)) ≡ some s' =
            rw (first, left) (next (sym (ap (λ z. z.2) same) ∙ goes.0)) in
          read_fields-terminal fuel s2 s' r2 rest c goes.1 h again
    ]

-- The last loop of `getOneSpec` ends on every specifier whose numbers fit an `int`, at its last letter, within one round
-- for each character: the `default` of its `switch` is never reached.
pub read_fields-ends :
    (s : Fields) (body rest : List ℕ) (c : ℕ)
    → AllInside body
    → NumbersFit body
    → is_terminal c ≡ true
    → (s' : Fields) × (s'.terminal ≡ c)
      × (read_fields (length body + 1) s (body ++ (c ∷ rest)) ≡ some s')
read_fields-ends s body rest c inside fits ends =
    let (s', e, run) = read_fields-Reads (length body) s body c (omega arith) inside fits ends in
    (s', e, run (length body + 1) rest (omega arith))
