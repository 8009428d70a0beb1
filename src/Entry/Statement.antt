-- ===== src/Entry/Statement.antt =====
-- `LogEntryHandler` and the macro TZ_LOG: the bytes that a log statement leaves in the staging buffer.
use constexpr_fmt_str.Prelude.{
  ℕ, suc, ◌+◌, ◌%◌, ◌^◌, Option, none, some, List, [], ◌∷◌, ltb, leb, ◌==◌, if◌then◌else◌, ◌>>=◌,
  length, replicate,
}
use constexpr_fmt_str.Spec.{SpecInfo}
use constexpr_fmt_str.Spec.Scan.{
  count_valid_spec_infos, squeeze_sound_size, runtime_string, analyze_format_string,
  count_args_required,
}
use constexpr_fmt_str.Staging.Slice.{slice}
use constexpr_fmt_str.Entry.{CType, RealCodec, Typed, types, bytes_of, number_of}
use constexpr_fmt_str.Entry.Store.{get_n_args_size, get_str_size_array, put_bytes, dump}

-- what the macro makes of the format at compile time: `kRTStr` and the records behind `kHandler`
pub record Site : Type 0 where
  pub rts : List ℕ
  pub specs : List SpecInfo

unfoldable pub site_of : List ℕ → Option Site
site_of fmt = count_valid_spec_infos fmt >>= λ n. squeeze_sound_size fmt >>= λ size.
    analyze_format_string (n + 1) fmt >>= λ specs.
    some (record { rts = runtime_string size fmt; specs = specs })

-- `getStrsNum`
unfoldable pub get_strs_num : List SpecInfo → ℕ
get_strs_num [] = 0
get_strs_num (s ∷ ss) = if s.terminal == b's' then suc (get_strs_num ss) else get_strs_num ss

-- `LogEntryHandler::argsSize`, with its static assertion
unfoldable pub args_size : List SpecInfo → List CType → Option ℕ
unfolding get_n_args_size
args_size specs tys =
    let n = count_args_required specs in if leb n (length tys) then get_n_args_size n tys else none

module _ {Real : Type 0} where
  -- `LogEntryHandler::strSizeArray`
  unfoldable pub str_size_array : List SpecInfo → List (Typed Real) → Option (List ℕ)
  unfolding get_strs_num
  str_size_array specs args =
      let n = count_args_required specs in
      if leb n (length args)
      then (if ltb 0 (get_strs_num specs) then get_str_size_array specs args else some [])
      else none

abbrev pub entry_header_size : ℕ
entry_header_size = 24

abbrev pub format_args_maximum_size : ℕ
format_args_maximum_size = 2 ^ 19

abbrev pub sum : List ℕ → ℕ
sum [] = 0
sum (n ∷ ns) = n + sum ns

-- `LogEntryStatus::NORMAL` and `LogEntryStatus::ILLEGAL_ARGS_SIZE`
abbrev pub normal_status : ℕ
normal_status = 0

abbrev pub illegal_args_size : ℕ
illegal_args_size = 1

-- the members of a `OneLogEntry` at `pos`
unfoldable pub put_header : List ℕ → ℕ → ℕ → ℕ → ℕ → ℕ → Option (List ℕ)
unfolding put_bytes
put_header mem pos fmt_id entry_size status timestamp =
    put_bytes mem pos (bytes_of 8 fmt_id) >>= λ mem1.
    put_bytes mem1 (pos + 8) (bytes_of 4 (entry_size % 2 ^ 32)) >>= λ mem2.
    put_bytes mem2 (pos + 12) (bytes_of 1 status) >>= λ mem3.
    put_bytes mem3 (pos + 16) (bytes_of 8 timestamp)

module _ {Real : Type 0} (codec : RealCodec Real) where
  -- `bufSize`
  unfoldable pub buf_size : Site → List (Typed Real) → Option ℕ
  unfolding args_size str_size_array
  buf_size site args = args_size site.specs (types args) >>= λ size.
      str_size_array site.specs args >>= λ arr. some (size + entry_header_size + sum arr)

  -- the bytes that the statement reserves
  unfoldable pub reserved_size : Site → List (Typed Real) → Option ℕ
  unfolding buf_size
  reserved_size site args = buf_size site args >>= λ size.
      some (if leb size format_args_maximum_size then size else entry_header_size + 8)

  -- the statement with its space reserved at `pos`: the memory and `writePos` at the end
  unfoldable pub tz_log : Site → ℕ → ℕ → List (Typed Real) → List ℕ → ℕ → Option (List ℕ × ℕ)
  unfolding args_size str_size_array put_header dump
  tz_log site fmt_id timestamp args mem pos = args_size site.specs (types args) >>= λ size.
      str_size_array site.specs args >>= λ arr.
      let total = size + entry_header_size + sum arr in
      put_bytes mem pos (replicate entry_header_size 0) >>= λ mem1.
      if leb total format_args_maximum_size
      then dump codec site.specs arr size args mem1 (pos + entry_header_size)
        >>= (λ (mem2, write_pos).
            put_header mem2 pos fmt_id total normal_status timestamp >>= λ mem3.
            some (mem3, write_pos))
      else put_bytes mem1 (pos + entry_header_size) (bytes_of 8 total) >>= (λ mem2.
        put_header mem2 pos fmt_id (entry_header_size + 8) illegal_args_size timestamp >>= λ mem3.
        some (mem3, pos + entry_header_size + 8))

-- the members as the background thread reads them
abbrev pub fmt_id_at : List ℕ → ℕ → ℕ
fmt_id_at mem pos = number_of (slice mem pos (pos + 8))

abbrev pub entry_size_at : List ℕ → ℕ → ℕ
entry_size_at mem pos = number_of (slice mem (pos + 8) (pos + 12))

abbrev pub status_at : List ℕ → ℕ → ℕ
status_at mem pos = number_of (slice mem (pos + 12) (pos + 13))

abbrev pub timestamp_at : List ℕ → ℕ → ℕ
timestamp_at mem pos = number_of (slice mem (pos + 16) (pos + 24))

-- of an entry with ILLEGAL_ARGS_SIZE
abbrev pub args_size_at : List ℕ → ℕ → ℕ
args_size_at mem pos = number_of (slice mem (pos + 24) (pos + 32))
