-- ===== src/Spec/Analyze.antt =====
-- `analyzeFormatString`: the table of all specifiers of a format string.
use constexpr_fmt_str.Prelude.{
  ℕ, zero, suc, ◌+◌, ◌<◌, ◌≡◌, refl, some, List, [], ◌∷◌, map, arith, bind-some, some-same,
}
use constexpr_fmt_str.Spec.{SpecInfo}
use constexpr_fmt_str.Spec.Scan.{get_one_spec, specs_from, analyze_format_string}
use constexpr_fmt_str.Spec.Pieces.{
  Piece, plain_char, valid, faulty, Tail, source, count_valid, IsFormat, AllFit,
}
use constexpr_fmt_str.Spec.Skip.{after}
use constexpr_fmt_str.Spec.Find.{terminal_of, get_one_spec-terminal, get_one_spec-source}

-- the letters of the valid specifiers in their order, and 0 for the end of the string
abbrev pub letters : List Piece → List ℕ
letters [] = 0 ∷ []
letters (plain_char c ∷ ps) = letters ps
letters (faulty body c ∷ ps) = letters ps
letters (valid body c ∷ ps) = c ∷ letters ps

letters-last :
    (num : ℕ) (ps : List Piece)
    → num ≡ count_valid ps
    → letters (after num ps) ≡ terminal_of (after num ps) ∷ []
letters-last zero [] e = refl
letters-last zero (plain_char c ∷ ps) e = letters-last zero ps e
letters-last zero (faulty body c ∷ ps) e = letters-last zero ps e
letters-last zero (valid body c ∷ ps) e = absurd (omega arith)
letters-last (suc num) [] e = refl
letters-last (suc num) (plain_char c ∷ ps) e = letters-last (suc num) ps e
letters-last (suc num) (faulty body c ∷ ps) e = letters-last (suc num) ps e
letters-last (suc num) (valid body c ∷ ps) e = letters-last num ps (omega arith)

letters-next :
    (num : ℕ) (ps : List Piece)
    → num < count_valid ps
    → letters (after num ps) ≡ terminal_of (after num ps) ∷ letters (after (suc num) ps)
letters-next zero [] l = absurd (omega arith)
letters-next zero (plain_char c ∷ ps) l = letters-next zero ps l
letters-next zero (faulty body c ∷ ps) l = letters-next zero ps l
letters-next zero (valid body c ∷ ps) l = refl
letters-next (suc num) [] l = absurd (omega arith)
letters-next (suc num) (plain_char c ∷ ps) l = letters-next (suc num) ps l
letters-next (suc num) (faulty body c ∷ ps) l = letters-next (suc num) ps l
letters-next (suc num) (valid body c ∷ ps) l = letters-next num ps (omega arith)

specs_from-source :
    (k num : ℕ) (ps : List Piece) (t : Tail)
    → IsFormat ps t
    → AllFit ps
    → num + k ≡ count_valid ps
    → (ss : List SpecInfo) × (specs_from (suc k) num (source ps t) ≡ some ss)
unfolding specs_from
specs_from-source zero num ps t f fits e =
    let (s, run, term, order, text) = get_one_spec-source num ps t f fits (omega arith) in
    (s ∷ [], rw run refl)
specs_from-source (suc k) num ps t f fits e =
    let (s, run, term, order, text) = get_one_spec-source num ps t f fits (omega arith) in
    let (ss, run') = specs_from-source k (num + 1) ps t f fits (omega arith) in
    (s ∷ ss, rw (run, run') refl)

specs_from-letters :
    (k num : ℕ) (ps : List Piece) (t : Tail) (ss : List SpecInfo)
    → IsFormat ps t
    → num + k ≡ count_valid ps
    → specs_from (suc k) num (source ps t) ≡ some ss
    → map (λ s. s.terminal) ss ≡ letters (after num ps)
unfolding specs_from
specs_from-letters zero num ps t ss f e made =
    let (s, run, rest) = bind-some (get_one_spec (source ps t) num) _ ss made in
    let same = some-same (s ∷ []) ss rest in
    let term = get_one_spec-terminal num ps t s f (omega arith) run in
    rw (← same, term, letters-last num ps (omega arith)) refl
specs_from-letters (suc k) num ps t ss f e made =
    let (s, run, rest) = bind-some (get_one_spec (source ps t) num) _ ss made in
    let (ss', run', rest') = bind-some (specs_from (suc k) (num + 1) (source ps t)) _ ss rest in
    let same = some-same (s ∷ ss') ss rest' in
    let term = get_one_spec-terminal num ps t s f (omega arith) run in
    let terms = specs_from-letters k (num + 1) ps t ss' f (omega arith) run' in
    let at : suc num ≡ num + 1 = omega arith in
    rw (← same, term, letters-next num ps (omega arith), terms, at) refl

-- the letters of a table, if there is one
pub analyze_format_string-letters :
    (ps : List Piece) (t : Tail) (ss : List SpecInfo)
    → IsFormat ps t
    → analyze_format_string (count_valid ps + 1) (source ps t) ≡ some ss
    → map (λ s. s.terminal) ss ≡ letters ps
unfolding analyze_format_string
analyze_format_string-letters ps t ss f e =
    let n : count_valid ps + 1 ≡ suc (count_valid ps) = omega arith in
    specs_from-letters (count_valid ps) 0 ps t ss f (omega arith) (rw n at e)

-- `analyzeFormatString` returns a table for every format string whose numbers fit an `int`, with the letters of its
-- valid specifiers in their order and a last record, with the letter 0, for the text behind them.
pub analyze_format_string-source :
    (ps : List Piece) (t : Tail)
    → IsFormat ps t
    → AllFit ps
    → (ss : List SpecInfo) × (analyze_format_string (count_valid ps + 1) (source ps t) ≡ some ss)
      × (map (λ s. s.terminal) ss ≡ letters ps)
unfolding analyze_format_string
analyze_format_string-source ps t f fits =
    let (ss, run) = specs_from-source (count_valid ps) 0 ps t f fits (omega arith) in
    let n : count_valid ps + 1 ≡ suc (count_valid ps) = omega arith in
    let table : analyze_format_string (count_valid ps + 1) (source ps t) ≡ some ss = rw n run in
    (ss, table, analyze_format_string-letters ps t ss f table)
