-- ===== src/Entry/Store.antt =====
-- `getStrSizeArray`, `getNArgsSize` and `storeArgs`: the arguments go to `storage`, the texts of `%s` behind them to
-- `storage2`, and the pointer to a text becomes its distance from its own place.
use constexpr_fmt_str.Prelude.{
  ℕ, zero, suc, ◌+◌, ◌&&◌, ◌||◌, Option, none, some, List, [], ◌∷◌, leb, ◌==◌, if◌then◌else◌, ◌>>=◌,
  length, take, drop, get_or, not, ◌*◌,
}
use constexpr_fmt_str.Outbuf.{overwrite}
use constexpr_fmt_str.Staging.{minus}
use constexpr_fmt_str.Spec.{SpecInfo}
use constexpr_fmt_str.Convert.Args.{c_string, wide_string}
use constexpr_fmt_str.Convert.Text.{is_longint}
use constexpr_fmt_str.Convert.Format.{is_dynamic_width, is_dynamic_prec}
use constexpr_fmt_str.Entry.{
  CType, char_pointer, wide_pointer, get_arg_size, RealCodec, Typed, bytes_of, wide_bytes,
  object_bytes,
}

-- `getNArgsSize<N, Ts...>()`; fewer types than `N` do not compile
unfoldable pub get_n_args_size : ℕ → List CType → Option ℕ
get_n_args_size zero tys = some 0
get_n_args_size (suc n) [] = none
get_n_args_size (suc n) (ty ∷ tys) = get_n_args_size n tys >>= λ rest. some (get_arg_size ty + rest)

-- `getSizeForTerminal_s`
unfoldable pub get_size_for_terminal_s : {Real : Type 0} → SpecInfo → Typed Real → ℕ
get_size_for_terminal_s s (wide_pointer, wide_string address text) =
    if is_longint s.flags then (length text + 1) * 4 else 0
get_size_for_terminal_s s (char_pointer, c_string address text) =
    if is_longint s.flags then 0 else length text + 1
get_size_for_terminal_s s _ = 0

-- how many `D` arguments stand before the argument of a specifier
abbrev pub dynamic_args : SpecInfo → ℕ
dynamic_args s =
    if is_dynamic_width s && is_dynamic_prec s
    then 2
    else if is_dynamic_width s || is_dynamic_prec s
    then 1
    else 0

module _ {Real : Type 0} where
  -- `getStrSize`, `getStrSize_D` and `getStrSize_D_D`, with `rest` for `getStrSizeArray` on the other specifiers
  unfoldable pub get_str_size :
      SpecInfo → (List (Typed Real) → Option (List ℕ)) → ℕ → List (Typed Real) → Option (List ℕ)
  unfolding get_size_for_terminal_s
  get_str_size s rest n [] = none
  get_str_size s rest zero (a ∷ args) = rest args >>= λ sizes.
      some (if s.terminal == b's' then get_size_for_terminal_s s a ∷ sizes else sizes)
  get_str_size s rest (suc n) (d ∷ args) = get_str_size s rest n args

  -- `getStrSizeArray`: the array from `IDX` on
  unfoldable pub get_str_size_array : List SpecInfo → List (Typed Real) → Option (List ℕ)
  unfolding get_str_size
  get_str_size_array [] args = none
  get_str_size_array (s ∷ []) args = some []
  get_str_size_array (s ∷ s' ∷ ss) args =
      get_str_size s (get_str_size_array (s' ∷ ss)) (dynamic_args s) args

-- the memory, `*storage` and `*storage2`
pub record Dump : Type 0 where
  pub mem : List ℕ
  pub storage : ℕ
  pub storage2 : ℕ

-- stores `bytes` at index `p`
unfoldable pub put_bytes : List ℕ → ℕ → List ℕ → Option (List ℕ)
unfolding overwrite
put_bytes mem p bytes =
    if leb (p + length bytes) (length mem) then some (overwrite mem p bytes) else none

-- `*reinterpret_cast<T*>(*storage) = arg; *storage += sizeof(T);`
unfoldable pub put_object : List ℕ → ℕ → Dump → Option Dump
unfolding put_bytes
put_object bytes size d = put_bytes d.mem d.storage bytes >>= λ mem.
    some (record d { mem = mem; storage = d.storage + size })

-- copies a text with its terminator to `*storage2` and its distance to `*storage`; `entry` is `arr[IDX]`
unfoldable pub put_text : List ℕ → ℕ → ℕ → Dump → Option Dump
unfolding put_bytes
put_text text unit entry d =
    let size = minus entry unit in
    (if leb size (length text) then some (take size text) else none) >>= λ copied.
    put_bytes d.mem d.storage2 copied >>= λ mem1.
    put_bytes mem1 (d.storage2 + size) (bytes_of unit 0) >>= λ mem2.
    put_bytes mem2 d.storage (bytes_of 8 (minus d.storage2 d.storage)) >>= λ mem3.
    some (record { mem = mem3; storage = d.storage + 8; storage2 = d.storage2 + entry })

module _ {Real : Type 0} (codec : RealCodec Real) where
  unfoldable pub put_raw : Typed Real → Dump → Option Dump
  unfolding put_object object_bytes get_arg_size
  put_raw a d = put_object (object_bytes codec a) (get_arg_size a.0) d

  -- `storeArg`; `arr` is the array from `IDX` on
  unfoldable pub store_arg : SpecInfo → List ℕ → Typed Real → Dump → Option Dump
  unfolding put_raw put_text
  store_arg s arr (wide_pointer, wide_string address text) d =
      if s.terminal == b's' && is_longint s.flags
      then put_text (wide_bytes text) 4 (get_or arr 0 0) d
      else put_raw (wide_pointer, wide_string address text) d
  store_arg s arr (char_pointer, c_string address text) d =
      if s.terminal == b's' && not (is_longint s.flags)
      then put_text text 1 (get_or arr 0 0) d
      else put_raw (char_pointer, c_string address text) d
  store_arg s arr a d = put_raw a d

  -- `store_A_Args`, `store_D_A_Args` and `store_D_D_A_Args`, with `rest` for `storeArgs` on the other specifiers
  unfoldable pub store_some_args :
      SpecInfo
      → (List ℕ → List (Typed Real) → Dump → Option Dump)
      → List ℕ
      → ℕ
      → List (Typed Real)
      → Dump
      → Option Dump
  unfolding store_arg
  store_some_args s rest arr n [] d = none
  store_some_args s rest arr zero (a ∷ args) d =
      store_arg s arr a d >>= λ d'. rest (if s.terminal == b's' then drop 1 arr else arr) args d'
  store_some_args s rest arr (suc n) (a ∷ args) d =
      put_raw a d >>= λ d'. store_some_args s rest arr n args d'

  unfoldable pub store_args : List SpecInfo → List ℕ → List (Typed Real) → Dump → Option Dump
  unfolding store_some_args
  store_args [] arr args d = none
  store_args (s ∷ []) arr args d = some d
  store_args (s ∷ s' ∷ ss) arr args d =
      store_some_args s (store_args (s' ∷ ss)) arr (dynamic_args s) args d

  -- `LogEntryHandler::dump`: the memory and `*storage` at the end
  unfoldable pub dump :
      List SpecInfo → List ℕ → ℕ → List (Typed Real) → List ℕ → ℕ → Option (List ℕ × ℕ)
  unfolding store_args
  dump ss arr args_size args mem storage =
      store_args ss arr args
        (record { mem = mem; storage = storage; storage2 = storage + args_size })
      >>= λ d. some (d.mem, d.storage2)
