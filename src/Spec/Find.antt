-- ===== src/Spec/Find.antt =====
-- `getOneSpec`: which specifier it describes, and the plain text that it hands to the writer.
use constexpr_fmt_str.Prelude.{
  Option, ◌>>=◌, sym, bind-some, some-same, Bool, ℕ, zero, suc, ◌+◌, ◌-◌, ◌≤◌, true, false, some,
  List, [], ◌∷◌, ◌++◌, ◌≡◌, refl, arith, length, ◌∙◌, ap, length-append, drop, take, ◌==◌,
  if◌then◌else◌,
}
use constexpr_fmt_str.Spec.{Fields, SpecInfo, no_fields, read_fields}
use constexpr_fmt_str.Spec.Scan.{skip_specs, find_end, make_spec, get_one_spec}
use constexpr_fmt_str.Spec.Pieces.{
  Piece, plain_char, valid, faulty, Tail, source, squeezed, count_valid, IsFormat, AllFit,
}
use constexpr_fmt_str.Spec.Switch.{read_fields-Reads, read_fields-terminal}
use constexpr_fmt_str.Spec.Skip.{
  after, start_of, text_of, exit_of, inside_of, find_end-source, dropped_before, start_at,
  start_at-start_of, skip_specs-source, IsFormat-after, AllFit-after, length-source-after,
}

drop-body :
    (body : List ℕ) (c : ℕ) (r : List ℕ) (n m : ℕ)
    → m ≡ length body + suc n
    → drop m (body ++ (c ∷ r)) ≡ drop n r
drop-body body c r n zero e = absurd (omega arith)
drop-body [] c r n (suc m) e = let e' : m ≡ n = omega arith in rw e'
drop-body (b ∷ body) c r n (suc m) e = drop-body body c r n m (omega arith)

pub drop-start_of :
    (num : ℕ) (ps : List Piece) → drop (start_of num ps) (squeezed ps) ≡ squeezed (after num ps)
drop-start_of zero ps = refl
drop-start_of (suc num) [] = refl
drop-start_of (suc num) (plain_char c ∷ ps) = drop-start_of (suc num) ps
drop-start_of (suc num) (faulty body c ∷ ps) = drop-start_of (suc num) ps
drop-start_of (suc num) (valid body c ∷ ps) =
    drop-body body c (squeezed ps) (start_of num ps) (length body + suc (start_of num ps)) refl
    ∙ drop-start_of num ps

pub take-text_of : (ps : List Piece) → take (length (text_of ps)) (squeezed ps) ≡ text_of ps
take-text_of [] = refl
take-text_of (plain_char c ∷ ps) = ap (λ zs. c ∷ zs) (take-text_of ps)
take-text_of (faulty body c ∷ ps) = ap (λ zs. c ∷ zs) (take-text_of ps)
take-text_of (valid body c ∷ ps) = refl

abbrev pub terminal_of : List Piece → ℕ
terminal_of [] = 0
terminal_of (plain_char c ∷ ps) = terminal_of ps
terminal_of (faulty body c ∷ ps) = terminal_of ps
terminal_of (valid body c ∷ ps) = c

-- the last loop of `getOneSpec`
abbrev fields_of : List Piece → Tail → Option Fields
fields_of ps t = elim (exit_of ps) [
  | true ↦ some no_fields
  | false ↦ read_fields (length (inside_of ps t) + 1) no_fields (inside_of ps t)
]

fields_of-defined :
    (ps : List Piece) (t : Tail)
    → IsFormat ps t
    → AllFit ps
    → (s : Fields) × (fields_of ps t ≡ some s)
fields_of-defined [] t f fits = (no_fields, refl)
fields_of-defined (plain_char c ∷ ps) t f fits = fields_of-defined ps t f.1 fits
fields_of-defined (faulty body c ∷ ps) t f fits = fields_of-defined ps t f.1 fits
fields_of-defined (valid body c ∷ ps) t ((b, i, ends, nz), f) fits =
    let (s, e, run) =
      read_fields-Reads (length body) no_fields body c (omega arith) b fits.0 ends in
    (
      s,
      run (length (body ++ (c ∷ source ps t)) + 1) (source ps t)
          (omega (arith, length-append body (c ∷ source ps t))),
    )

fields_of-terminal :
    (ps : List Piece) (t : Tail) (s : Fields)
    → IsFormat ps t
    → fields_of ps t ≡ some s
    → s.terminal ≡ terminal_of ps
fields_of-terminal [] t s f e = ap (λ z. z.terminal) (sym (some-same no_fields s e))
fields_of-terminal (plain_char c ∷ ps) t s f e = fields_of-terminal ps t s f.1 e
fields_of-terminal (faulty body c ∷ ps) t s f e = fields_of-terminal ps t s f.1 e
fields_of-terminal (valid body c ∷ ps) t s ((b, i, ends, nz), f) e =
    read_fields-terminal (length (body ++ (c ∷ source ps t)) + 1) no_fields s body (source ps t) c b
      ends e

fields-make :
    (begin e : ℕ) (exit : Bool) (read : Option Fields)
    → (elim exit [
      | true ↦ some (make_spec begin e no_fields)
      | false ↦ read >>= λ s. some (make_spec begin e s)
    ])
      ≡ ((elim exit [ true ↦ some no_fields | false ↦ read ]) >>= λ s. some (make_spec begin e s))
fields-make begin e true read = refl
fields-make begin e false read = refl

get_one_spec-find :
    (num : ℕ) (ps : List Piece) (t : Tail) (begin p inv e : ℕ) (r : List ℕ)
    → skip_specs (length (source ps t) + 1) num 0 (source ps t) 0 0 ≡ some (p, r, begin, inv)
    → find_end (length (source ps t) + 1) p r inv
      ≡ some (e, exit_of (after num ps), inside_of (after num ps) t)
    → get_one_spec (source ps t) num
      ≡ (fields_of (after num ps) t >>= λ s. some (make_spec begin e s))
unfolding get_one_spec
get_one_spec-find num ps t begin p inv e r a b =
    rw (a, b)
      (fields-make begin e (exit_of (after num ps)) (
        read_fields (length (inside_of (after num ps) t) + 1) no_fields
          (inside_of (after num ps) t)))

-- `begin` stays 0 where no specifier is skipped
begin_at :
    (num : ℕ) (ps : List Piece) → (if num == 0 then 0 else start_at num ps 0) ≡ start_of num ps
begin_at zero ps = refl
begin_at (suc num) ps = ground (arith, start_at-start_of (suc num) ps 0)

get_one_spec-make :
    (num : ℕ) (ps : List Piece) (t : Tail)
    → IsFormat ps t
    → num ≤ count_valid ps
    → get_one_spec (source ps t) num ≡ (
        fields_of (after num ps) t >>= λ s.
        some (make_spec (start_of num ps) (start_of num ps + length (text_of (after num ps))) s))
get_one_spec-make num ps t f n =
    let fuel = length (source ps t) + 1 in
    let q = start_at-start_of num ps 0 in
    let same : (if num == 0 then 0 else start_at num ps 0) ≡ start_of num ps = begin_at num ps in
    let skip = skip_specs-source fuel num 0 ps t 0 0 0 f refl n (omega arith) in
    let find =
      find_end-source fuel (start_at num ps 0 + dropped_before num ps 0) (after num ps) t
        (dropped_before num ps 0) (start_at num ps 0)
        (start_of num ps + length (text_of (after num ps))) (IsFormat-after num ps t f) refl
        (omega (arith, q)) (omega (arith, length-source-after num ps t)) in
    get_one_spec-find num ps t (start_of num ps) _ _ _ _ (rw same at skip) find

-- a record has the letter of its specifier
pub get_one_spec-terminal :
    (num : ℕ) (ps : List Piece) (t : Tail) (si : SpecInfo)
    → IsFormat ps t
    → num ≤ count_valid ps
    → get_one_spec (source ps t) num ≡ some si
    → si.terminal ≡ terminal_of (after num ps)
unfolding make_spec
get_one_spec-terminal num ps t si f n e =
    let (s, run, made) =
      bind-some (fields_of (after num ps) t) _ si (sym (get_one_spec-make num ps t f n) ∙ e) in
    let same = some-same _ si made in
    ap (λ z. z.terminal) (sym same)
    ∙ fields_of-terminal (after num ps) t s (IsFormat-after num ps t f) run

-- `getOneSpec(fmt, num)` of a format string with at least `num` valid specifiers, whose numbers fit an `int`, returns a
-- record. Its terminal is that of the specifier behind the first `num` ones (0 if there is none), and its
-- `begin_` and `end_` delimit, in the squeezed string, the plain text before that specifier.
pub get_one_spec-source :
    (num : ℕ) (ps : List Piece) (t : Tail)
    → IsFormat ps t
    → AllFit ps
    → num ≤ count_valid ps
    → (si : SpecInfo) × (get_one_spec (source ps t) num ≡ some si)
      × (si.terminal ≡ terminal_of (after num ps))
      × (si.begin ≤ si.end)
      × (take (si.end - si.begin) (drop si.begin (squeezed ps)) ≡ text_of (after num ps))
unfolding make_spec
get_one_spec-source num ps t f fits n =
    let (s, run) =
      fields_of-defined (after num ps) t (IsFormat-after num ps t f) (AllFit-after num ps fits) in
    let b = start_of num ps in
    let l = length (text_of (after num ps)) in
    let width : b + l - b ≡ l = omega arith in
    (
      make_spec b (b + l) s,
      get_one_spec-make num ps t f n ∙ rw run refl,
      fields_of-terminal (after num ps) t s (IsFormat-after num ps t f) run,
      omega arith,
      rw (width, drop-start_of num ps) (take-text_of (after num ps)),
    )
