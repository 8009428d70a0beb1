-- ===== src/Spec/Scan.antt =====
-- The scanners of constexpr_fmt.h that run over a whole format string. Each loop of the source that
-- goes from '%' to '%' takes fuel, one round a unit; a string of `n` characters has at most `n`.
use constexpr_fmt_str.Prelude.{
  ℕ, zero, suc, ◌+◌, ◌-◌, Bool, true, false, not, Option, none, some, List, [], ◌∷◌, ltb, ◌==◌,
  if◌then◌else◌, ◌>>=◌, length, drop, get_or,
}
use constexpr_fmt_str.Prelude.Int.{eqb_ℤ}
use constexpr_fmt_str.Spec.{
  SpecInfo, Fields, no_fields, dynamic_width, dynamic_precision, is_terminal, peek, bump,
  skip_plain, skip_inside, find_percent, read_fields,
}

-- `for (;;)` of `countValidSpecInfos`
unfoldable pub count_loop : ℕ → ℕ → List ℕ → ℕ → Option ℕ
count_loop zero p r count = none
count_loop (suc fuel) p r count =
    let a = skip_plain p r in
    let b = skip_inside (bump a).0 (bump a).1 in
    let count' = if is_terminal (peek b) then count + 1 else count in
    let rest = count_loop fuel (bump b).0 (bump b).1 count' in
    if peek a == 0 then some count else if peek b == 0 then some count' else rest

unfoldable pub count_valid_spec_infos : List ℕ → Option ℕ
unfolding count_loop
count_valid_spec_infos fmt = count_loop (length fmt + 1) 0 fmt 0

-- `for (;;)` of `squeezeSoundSize`
unfoldable pub squeeze_loop : ℕ → ℕ → List ℕ → ℕ → Option ℕ
squeeze_loop zero p r size = none
squeeze_loop (suc fuel) p r size =
    let a = skip_plain p r in
    let b = skip_inside (bump a).0 (bump a).1 in
    let size' = if not (is_terminal (peek b)) then size - (b.0 - a.0) else size in
    let rest = squeeze_loop fuel (bump b).0 (bump b).1 size' in
    if peek a == 0 then some size else if peek b == 0 then some size' else rest

-- `N` counts the terminating '\0'.
unfoldable pub squeeze_sound_size : List ℕ → Option ℕ
unfolding squeeze_loop
squeeze_sound_size fmt = squeeze_loop (length fmt + 1) 0 fmt (length fmt + 1)

-- `while (num > 0)` of `getOneSpec`: skips `num` valid specifiers. The result is the cursor with
-- `begin` and `sizeOfInvalidSpecs`.
unfoldable pub skip_specs : ℕ → ℕ → ℕ → List ℕ → ℕ → ℕ → Option (ℕ × List ℕ × ℕ × ℕ)
skip_specs fuel zero p r begin invalid = some (p, r, begin, invalid)
skip_specs zero (suc num) p r begin invalid = none
skip_specs (suc fuel) (suc num) p r begin invalid = find_percent p r >>= λ a.
    let b = skip_inside (bump a).0 (bump a).1 in
    elim (is_terminal (peek b)) [
      | true ↦
          skip_specs fuel num (bump b).0 (bump b).1 (if num == 0 then b.0 + 1 - invalid else begin)
            invalid
      | false ↦ skip_specs fuel (suc num) (bump b).0 (bump b).1 begin (invalid + (b.0 - a.0))
    ]

-- `while (true)` of `getOneSpec`: finds the end of the plain text before the next valid specifier.
-- The result is `end`, `exit` and what stands behind the '%' at `specStartPos`.
unfoldable pub find_end : ℕ → ℕ → List ℕ → ℕ → Option (ℕ × Bool × List ℕ)
find_end zero p r invalid = none
find_end (suc fuel) p r invalid =
    let a = skip_plain p r in
    let b = skip_inside (bump a).0 (bump a).1 in
    let invalid' = invalid + (b.0 - a.0) in
    let rest = find_end fuel (bump b).0 (bump b).1 invalid' in
    if peek a == 0
    then some (a.0 - invalid, true, [])
    else if is_terminal (peek b)
    then some (a.0 - invalid, false, (bump a).1)
    else if peek b == 0
    then some (b.0 - invalid', true, [])
    else rest

-- `flags |= intWidth; return { begin, end, flags, ... }`
unfoldable pub make_spec : ℕ → ℕ → Fields → SpecInfo
make_spec begin end s = record {
  begin = begin;
  end = end;
  flags = record {
    alt = s.alt;
    zeropad = s.zeropad;
    ladjust = s.ladjust;
    longdbl = s.longdbl;
    int_size = s.int_size;
  };
  width = s.width;
  prec = s.prec;
  sign = s.sign;
  terminal = s.terminal;
  width_first = s.width_first;
}

unfoldable pub get_one_spec : List ℕ → ℕ → Option SpecInfo
unfolding skip_specs find_end make_spec
get_one_spec fmt num = skip_specs (length fmt + 1) num 0 fmt 0 0 >>= λ (p, r, begin, invalid).
    find_end (length fmt + 1) p r invalid >>= λ (end, exit, inside). elim exit [
      | true ↦ some (make_spec begin end no_fields)
      | false ↦
          read_fields (length inside + 1) no_fields inside >>= λ s. some (make_spec begin end s)
    ]

-- `getOneSpec(fmt, Indices)...` for the indices from `num` on
unfoldable pub specs_from : ℕ → ℕ → List ℕ → Option (List SpecInfo)
specs_from zero num fmt = some []
specs_from (suc n) num fmt =
    get_one_spec fmt num >>= λ s. specs_from n (num + 1) fmt >>= λ ss. some (s ∷ ss)

unfoldable pub analyze_format_string : ℕ → List ℕ → Option (List SpecInfo)
unfolding specs_from
analyze_format_string n fmt = specs_from n 0 fmt

-- `storeOneChar`: the character at index `num` of the squeezed string, and the new `offset`
unfoldable pub store_one_char : List ℕ → ℕ → ℕ → ℕ × ℕ
store_one_char fmt offset num =
    let inside = (skip_inside 0 (drop (num + offset + 1) fmt)).0 in
    let skipped = offset + 1 + inside in
    let offset' =
      if get_or fmt (num + offset) 0 == b'%'
      then (if is_terminal (get_or fmt (num + skipped) 0) then offset else skipped)
      else offset in
    if ltb (num + offset) (length fmt + 1)
    then (get_or fmt (num + offset') 0, offset')
    else (0, offset)

-- `{ storeOneChar(fmt, offset, Indices)... }`, left to right
unfoldable pub store_chars : ℕ → ℕ → ℕ → List ℕ → List ℕ
store_chars zero num offset fmt = []
store_chars (suc n) num offset fmt =
    let (c, offset') = store_one_char fmt offset num in c ∷ store_chars n (num + 1) offset' fmt

unfoldable pub preprocess_invalid_specs : ℕ → List ℕ → List ℕ
unfolding store_chars
preprocess_invalid_specs len fmt = if ltb len (length fmt + 1) then store_chars len 0 0 fmt else []

-- `kRTStr = kSS < sizeof(format) ? kfmtArr.data() : format`, up to its terminating '\0'
unfoldable pub runtime_string : ℕ → List ℕ → List ℕ
runtime_string size fmt =
    if ltb size (length fmt + 1) then preprocess_invalid_specs size fmt else fmt

-- the terms that one specifier adds in `countArgsRequired`
unfoldable pub args_of : SpecInfo → ℕ
args_of s =
    (if is_terminal s.terminal then 1 else 0)
    + (if eqb_ℤ s.width dynamic_width then 1 else 0)
    + (if eqb_ℤ s.prec dynamic_precision then 1 else 0)

unfoldable pub count_args_required : List SpecInfo → ℕ
unfolding args_of
count_args_required [] = 0
count_args_required (s ∷ ss) = args_of s + count_args_required ss
