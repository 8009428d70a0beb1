-- ===== src/Timestamp/Parts.antt =====
-- The parts of the format around the additional specifier.
use constexpr_fmt_str.Prelude.{
  Option-cases, ℕ, suc, ◌+◌, ◌≡◌, refl, ap, true, some, List, [], ◌∷◌, ◌++◌, arith, length, take,
  drop, ◌==◌, Bool-cases, inl, inr, bind-some, some-same, ==→eq, append-nil,
}
use constexpr_fmt_str.Timestamp.{
  AdditionalSpecifier, qms, qus, qns, Search, nothing, found, only_one, mutually_exclusive,
  specifier_name, specifier_length, starts_with, find, look_for, search, Calendar,
  TimestampFormatter, Timezone, no_specifier, formatter_with, formatter_of, make_formatter,
  preformat, returned, safe_strftime, time_info,
}

starts_with-name : (name s : List ℕ) → starts_with name s ≡ true → name ++ drop (length name) s ≡ s
starts_with-name [] [] e = refl
starts_with-name [] (d ∷ s) e = refl
starts_with-name (c ∷ name) [] e = ground (arith, e)
starts_with-name (c ∷ name) (d ∷ s) e = elim (Bool-cases (c == d)) [
  | inl same ↦
      let rest = starts_with-name name s (rw same at e) in
      rw (==→eq c d same) (ap (λ z. d ∷ z) rest)
  | inr other ↦ ground (arith, rw other at e)
]

-- the name stands at the position that was found
find-name :
    (name s : List ℕ) (i : ℕ)
    → find name s ≡ some i
    → take i s ++ (name ++ drop (i + length name) s) ≡ s
find-name name [] i e = elim (Bool-cases (starts_with name [])) [
  | inl t ↦
      let same : 0 ≡ i = some-same 0 i (rw t at e) in
      let shift : drop (0 + length name) [] ≡ drop (length name) [] =
        ap (λ n. drop {A = ℕ} n []) (omega arith) in
      rw (← same, shift) (starts_with-name name [] t)
  | inr f ↦ ground (arith, rw f at e)
]
find-name name (c ∷ s) i e = elim (Bool-cases (starts_with name (c ∷ s))) [
  | inl t ↦
      let same : 0 ≡ i = some-same 0 i (rw t at e) in
      let shift : drop (0 + length name) (c ∷ s) ≡ drop (length name) (c ∷ s) =
        ap (λ n. drop n (c ∷ s)) (omega arith) in
      rw (← same, shift) (starts_with-name name (c ∷ s) t)
  | inr f ↦
      let (j, found_at, rest) = bind-some (find name s) _ i (rw f at e) in
      let same : i ≡ suc j = omega (arith, some-same (j + 1) i rest) in
      let shift : drop (suc j + length name) (c ∷ s) ≡ drop (j + length name) s =
        (let more : suc j + length name ≡ suc (j + length name) = omega arith in
          ap (λ n. drop n (c ∷ s)) more) in
      rw (same, shift) (ap (λ z. c ∷ z) (find-name name s j found_at))
]

-- a specifier that was found stands between the two parts
abbrev pub Located : List ℕ → Search → Type 0
Located format nothing = Unit
Located format (found kind begin) =
    take begin format ++ (specifier_name kind ++ drop (begin + specifier_length) format) ≡ format
Located format only_one = Unit
Located format mutually_exclusive = Unit

look_for-Located :
    (kind : AdditionalSpecifier) (format : List ℕ) (r : Search)
    → length (specifier_name kind) ≡ specifier_length
    → Located format r
    → Located format (look_for kind format r)
unfolding look_for
look_for-Located kind format nothing four at =
    elim (Option-cases (find (specifier_name kind) format)) [
      | inl e ↦
          let look : look_for kind format nothing ≡ nothing = rw (look_for, e) refl in rw look _
      | inr (i, e) ↦
          elim (Option-cases (find (specifier_name kind) (drop (i + specifier_length) format))) [
            | inl e' ↦
                let look : look_for kind format nothing ≡ found kind i =
                  rw (look_for, e, e') refl in
                rw look (rw four at (find-name (specifier_name kind) format i e))
            | inr (j, e') ↦
                let look : look_for kind format nothing ≡ only_one = rw (look_for, e, e') refl in
                rw look _
          ]
    ]
look_for-Located kind format (found kind' begin) four at =
    elim (Option-cases (find (specifier_name kind) format)) [
      | inl e ↦
          let look : look_for kind format (found kind' begin) ≡ found kind' begin =
            rw (look_for, e) refl in
          rw look at
      | inr (i, e) ↦
          let look : look_for kind format (found kind' begin) ≡ mutually_exclusive =
            rw (look_for, e) refl in
          rw look _
    ]
look_for-Located kind format only_one four at = _
look_for-Located kind format mutually_exclusive four at = _

search-Located : (format : List ℕ) → Located format (search format)
unfolding search
search-Located format =
    let one = look_for-Located qms format nothing refl _ in
    let two = look_for-Located qus format (look_for qms format nothing) refl one in
    look_for-Located qns format (look_for qus format (look_for qms format nothing)) refl two

-- a formatter's parts around its specifier give the format, and it is set to a time zone and a second
abbrev pub Made : List ℕ → Timezone → ℕ → TimestampFormatter → Type 0
Made format zone now f =
    (f.format_part_1 ++ (specifier_name f.additional_format_specifier ++ f.format_part_2) ≡ format)
    × (f.timezone_type ≡ zone)
    × (f.cached_timestamp ≡ now)

module _ (calendar : Calendar) (fuel : ℕ) where
  formatter_with-Made :
      (format : List ℕ) (zone : Timezone) (now : ℕ) (kind : AdditionalSpecifier)
      (part1 part2 : List ℕ) (f : TimestampFormatter)
      → formatter_with calendar fuel zone now kind part1 part2 ≡ some f
      → part1 ++ (specifier_name kind ++ part2) ≡ format
      → Made format zone now f
  unfolding formatter_with preformat
  formatter_with-Made format zone now kind part1 [] f e parts =
      let (pre1, e1, r1) =
        bind-some (returned (safe_strftime calendar fuel part1 (time_info calendar zone now))) _ f
          e in
      rw (← some-same _ f r1) (parts, refl, refl)
  formatter_with-Made format zone now kind part1 (c ∷ part2) f e parts =
      let (pre1, e1, r1) =
        bind-some (returned (safe_strftime calendar fuel part1 (time_info calendar zone now))) _ f
          e in
      let (pre2, e2, r2) =
        bind-some (returned (safe_strftime calendar fuel (c ∷ part2) (time_info calendar zone now)))
          _ f r1 in
      rw (← some-same _ f r2) (parts, refl, refl)

  formatter_of-Made :
      (format : List ℕ) (zone : Timezone) (now : ℕ) (r : Search) (f : TimestampFormatter)
      → Located format r
      → formatter_of calendar fuel format zone now r ≡ some f
      → Made format zone now f
  unfolding formatter_of
  formatter_of-Made format zone now nothing f at e =
      formatter_with-Made format zone now no_specifier format [] f e (append-nil format)
  formatter_of-Made format zone now (found kind begin) f at e =
      formatter_with-Made format zone now kind (take begin format)
        (drop (begin + specifier_length) format) f e at
  formatter_of-Made format zone now only_one f at e = ground (arith, e)
  formatter_of-Made format zone now mutually_exclusive f at e = ground (arith, e)

  -- A formatter that the constructor of TimestampFormatter made holds a first part, an additional specifier and a second
  -- part that give the format when put together, and has the time zone and the second it was made with.
  pub make_formatter-parts :
      (format : List ℕ) (zone : Timezone) (now : ℕ) (f : TimestampFormatter)
      → make_formatter calendar fuel format zone now ≡ some f
      → Made format zone now f
  unfolding make_formatter
  make_formatter-parts format zone now f e =
      formatter_of-Made format zone now (search format) f (search-Located format) e
