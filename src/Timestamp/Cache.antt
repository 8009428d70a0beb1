-- ===== src/Timestamp/Cache.antt =====
-- The strings that are kept for the last second are those that would be formatted anew.
use constexpr_fmt_str.Prelude.{
  Option-cases, ℕ, ◌+◌, ◌/◌, take, drop, ◌≡◌, refl, sym, ap, ◌∙◌, Option, some, List, [], ◌∷◌,
  arith, ◌==◌, Bool-cases, inl, inr, if◌then◌else◌, ◌>>=◌, bind-some, some-same, ==→eq,
}
use constexpr_fmt_str.Convert.Args.{Library}
use constexpr_fmt_str.Timestamp.{
  Calendar, TimestampFormatter, Timezone, AdditionalSpecifier, Search, nothing, found, only_one,
  mutually_exclusive, new_formatter, no_specifier, specifier_length, preformat, safe_strftime,
  returned, time_info, formatter_with, formatter_of, make_formatter, search, write_timestamp,
  format_timestamp, ns_of_second,
}

module _ (calendar : Calendar) (fuel : ℕ) where
  -- the strings that a formatter keeps are those of its second
  abbrev pub IsCached : TimestampFormatter → Type 0
  IsCached f = preformat calendar fuel f.cached_timestamp f ≡ some f

  -- what is formatted for a second does not depend on what was kept before
  preformat-again :
      (second : ℕ) (kind : AdditionalSpecifier) (part1 part2 old1 old2 : List ℕ) (cached : ℕ)
      (zone : Timezone) (f' : TimestampFormatter)
      → let f : TimestampFormatter = record {
        additional_format_specifier = kind;
        format_part_1 = part1;
        format_part_2 = part2;
        pre_formatted_ts_1 = old1;
        pre_formatted_ts_2 = old2;
        cached_timestamp = cached;
        timezone_type = zone;
      } in
        preformat calendar fuel second f ≡ some f'
        → (next : ℕ)
        → (preformat calendar fuel next f' ≡ preformat calendar fuel next f)
          × (f'.cached_timestamp ≡ second)
  unfolding preformat
  preformat-again second kind part1 [] old1 old2 cached zone f' e next =
      let (pre1, e1, r1) =
        bind-some (returned (safe_strftime calendar fuel part1 (time_info calendar zone second))) _
          f' e in
      let same = some-same _ f' r1 in
      (ap (preformat calendar fuel next) (sym same), ap (λ g. g.cached_timestamp) (sym same))
  preformat-again second kind part1 (c ∷ part2) old1 old2 cached zone f' e next =
      let (pre1, e1, r1) =
        bind-some (returned (safe_strftime calendar fuel part1 (time_info calendar zone second))) _
          f' e in
      let (pre2, e2, r2) =
        bind-some
          (returned (safe_strftime calendar fuel (c ∷ part2) (time_info calendar zone second))) _ f'
          r1 in
      let same = some-same _ f' r2 in
      (ap (preformat calendar fuel next) (sym same), ap (λ g. g.cached_timestamp) (sym same))

  preformat-kept :
      (second : ℕ) (f f' : TimestampFormatter)
      → preformat calendar fuel second f ≡ some f'
      → (next : ℕ)
      → (preformat calendar fuel next f' ≡ preformat calendar fuel next f)
        × (f'.cached_timestamp ≡ second)
  preformat-kept second f f' e next =
      preformat-again second f.additional_format_specifier f.format_part_1 f.format_part_2
        f.pre_formatted_ts_1 f.pre_formatted_ts_2 f.cached_timestamp f.timezone_type f' e next

  preformat-IsCached :
      (second : ℕ) (f f' : TimestampFormatter)
      → preformat calendar fuel second f ≡ some f'
      → IsCached f'
  preformat-IsCached second f f' e =
      let (again, at) = preformat-kept second f f' e f'.cached_timestamp in
      again ∙ ap (λ s. preformat calendar fuel s f) at ∙ e

  pub formatter_of-IsCached :
      (format : List ℕ) (zone : Timezone) (now : ℕ) (r : Search) (f : TimestampFormatter)
      → formatter_of calendar fuel format zone now r ≡ some f
      → IsCached f
  unfolding formatter_of formatter_with
  formatter_of-IsCached format zone now nothing f e =
      preformat-IsCached now (new_formatter zone now no_specifier format []) f e
  formatter_of-IsCached format zone now (found kind begin) f e =
      preformat-IsCached now
        (new_formatter zone now kind (take begin format) (drop (begin + specifier_length) format)) f
        e
  formatter_of-IsCached format zone now only_one f e = ground (arith, e)
  formatter_of-IsCached format zone now mutually_exclusive f e = ground (arith, e)

  module _ (lib : Library) where
    -- every timestamp in turn, with the strings of the last second kept: the buffer at the end of each call
    abbrev pub format_all : TimestampFormatter → List ℕ → List ℕ → Option (List (List ℕ))
    format_all f [] buffer = some []
    format_all f (ns ∷ timestamps) buffer =
        format_timestamp lib calendar fuel f ns buffer >>= λ (f', buffer').
        format_all f' timestamps buffer' >>= λ rest. some (buffer' ∷ rest)

    -- and with the strings of every timestamp formatted anew
    abbrev pub format_anew : TimestampFormatter → List ℕ → List ℕ → Option (List (List ℕ))
    format_anew f [] buffer = some []
    format_anew f (ns ∷ timestamps) buffer = preformat calendar fuel (ns / ns_of_second) f >>= λ f'.
        write_timestamp lib f' ns buffer >>= λ buffer'.
        format_anew f timestamps buffer' >>= λ rest. some (buffer' ∷ rest)

    refreshed :
        (f : TimestampFormatter) (second : ℕ)
        → IsCached f
        → (if second == f.cached_timestamp then some f else preformat calendar fuel second f)
          ≡ preformat calendar fuel second f
    refreshed f second cached = elim (Bool-cases (second == f.cached_timestamp)) [
      | inl e ↦
          rw e (
            sym
              (ap (λ s. preformat calendar fuel s f) (==→eq second f.cached_timestamp e) ∙ cached))
      | inr e ↦ rw e refl
    ]

    -- a call with the strings that are kept, and the same call with the strings of `f0` formatted anew
    pub format_timestamp-anew :
        (f f0 f' : TimestampFormatter) (ns : ℕ) (buffer buffer' : List ℕ)
        → IsCached f
        → ((second : ℕ) → preformat calendar fuel second f ≡ preformat calendar fuel second f0)
        → preformat calendar fuel (ns / ns_of_second) f0 ≡ some f'
        → write_timestamp lib f' ns buffer ≡ some buffer'
        → (format_timestamp lib calendar fuel f ns buffer ≡ some (f', buffer'))
          × IsCached f'
          × ((second : ℕ) → preformat calendar fuel second f' ≡ preformat calendar fuel second f0)
    unfolding format_timestamp
    format_timestamp-anew f f0 f' ns buffer buffer' cached same e w =
        let run : preformat calendar fuel (ns / ns_of_second) f ≡ some f' =
          same (ns / ns_of_second) ∙ e in
        (
          rw (refreshed f (ns / ns_of_second) cached, run, w) refl,
          preformat-IsCached (ns / ns_of_second) f f' run,
          λ second. (preformat-kept (ns / ns_of_second) f f' run second).0 ∙ same second,
        )

    format_all-same :
        (f f0 : TimestampFormatter) (timestamps buffer : List ℕ)
        → IsCached f
        → ((second : ℕ) → preformat calendar fuel second f ≡ preformat calendar fuel second f0)
        → format_all f timestamps buffer ≡ format_anew f0 timestamps buffer
    unfolding format_timestamp
    format_all-same f f0 [] buffer cached same = refl
    format_all-same f f0 (ns ∷ timestamps) buffer cached same =
        let second = ns / ns_of_second in
        elim (Option-cases (preformat calendar fuel second f0)) [
          | inl e ↦ rw (refreshed f second cached, same second, e) refl
          | inr (f', e) ↦ elim (Option-cases (write_timestamp lib f' ns buffer)) [
            | inl w ↦ rw (refreshed f second cached, same second, e, w) refl
            | inr (buffer', w) ↦
                let (run, cached', same') =
                  format_timestamp-anew f f0 f' ns buffer buffer' cached same e w in
                let rest = format_all-same f' f0 timestamps buffer' cached' same' in
                rw (refreshed f second cached, same second, e, w, rest) refl
          ]
        ]

    -- A formatter that the constructor made gives for every sequence of timestamps the buffers that it would give if it
    -- formatted both parts anew for the second of every timestamp.
    pub format_all-anew :
        (format : List ℕ) (zone : Timezone) (now : ℕ) (f : TimestampFormatter)
        (timestamps buffer : List ℕ)
        → make_formatter calendar fuel format zone now ≡ some f
        → format_all f timestamps buffer ≡ format_anew f timestamps buffer
    unfolding make_formatter
    format_all-anew format zone now f timestamps buffer e =
        format_all-same f f timestamps buffer
          (formatter_of-IsCached format zone now (search format) f e) λ second. refl
