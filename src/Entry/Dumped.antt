-- ===== src/Entry/Dumped.antt =====
-- `storeArgs` puts every argument and every text where `formator` looks for it, inside the sizes computed before.
use constexpr_fmt_str.Prelude.{
  ℕ, zero, suc, ◌+◌, ◌^◌, ◌≤◌, ◌<◌, ◌≡◌, refl, Option, some, List, [], ◌∷◌, arith, length,
}
use constexpr_fmt_str.Spec.{SpecInfo}
use constexpr_fmt_str.Spec.Scan.{count_args_required}
use constexpr_fmt_str.Convert.Args.{Library}
use constexpr_fmt_str.Entry.{get_arg_size, RealCodec, Typed, types}
use constexpr_fmt_str.Entry.Store.{
  Dump, get_n_args_size, get_str_size, get_str_size_array, dynamic_args, store_some_args,
  store_args,
}
use constexpr_fmt_str.Entry.Statement.{sum}
use constexpr_fmt_str.Entry.Typed.{text_bytes}
use constexpr_fmt_str.Entry.Sized.{
  AllTyped, Lettered, args_of-letter, get_n_args_size-suc, str_size-nil, str_size-first,
}
use constexpr_fmt_str.Entry.Laid.{SomeLaid, Laid}
use constexpr_fmt_str.Entry.Keeps.{
  Keeps, Keeps-then, ArgAt-Keeps, DynamicAt-Keeps, put_raw-DynamicAt, store_arg-ArgAt,
}

-- the areas at `d` have room for the arguments and their texts
abbrev pub Room : List ℕ → Dump → ℕ → Type 0
Room arr d size =
    (length d.mem < 2 ^ 63)
    × (d.storage + size ≤ d.storage2)
    × (d.storage2 + sum arr ≤ length d.mem)

module _ (lib : Library) (codec : RealCodec lib.Real) where
  abbrev Args : Type 0
  Args = List (Typed lib.Real)

  abbrev pub MemPlace : Type 1
  MemPlace = List ℕ → Args → ℕ → ℕ → Type 0

  abbrev pub Dumped : Option Dump → MemPlace → Args → List ℕ → Dump → ℕ → Type 0
  Dumped result place args arr d size =
      (d' : Dump) × (result ≡ some d')
      × (d.storage ≤ d'.storage)
      × (d'.storage ≤ d.storage + size)
      × (d'.storage2 ≡ d.storage2 + sum arr)
      × Keeps d.storage d'.storage d.storage2 d'.storage2 d.mem d'.mem
      × place d'.mem args d.storage d.storage2

  -- `n` arguments of any types are stored, where the sizes were computed and there is room
  abbrev pub Dumps :
      ℕ → (Args → Option (List ℕ)) → (List ℕ → Args → Dump → Option Dump) → MemPlace → Type 0
  Dumps n sizes run place =
      (args : Args) (arr : List ℕ) (d : Dump) (size : ℕ)
      → AllTyped codec args
      → get_n_args_size n (types args) ≡ some size
      → sizes args ≡ some arr
      → Room arr d size
      → Dumped (run arr args d) place args arr d size

  store_first-Dumps :
      (s : SpecInfo) (n m : ℕ) (sizes : Args → Option (List ℕ))
      (run : List ℕ → Args → Dump → Option Dump) (place : MemPlace)
      → n ≡ suc m
      → Dumps m sizes run place
      → Dumps n
          (get_str_size s sizes 0)
          (λ arr. store_some_args codec s run arr 0)
          (λ mem. SomeLaid lib codec mem s (place mem) 0)
  unfolding store_some_args
  store_first-Dumps s n m sizes run place e ih [] arr d size typed ns zs room =
      absurd (str_size-nil codec s sizes 0 arr zs)
  store_first-Dumps s n m sizes run place e ih (a ∷ args) arr d size (h, typed) ns zs
        (small, le, room) =
      let (rest, ns', total) = get_n_args_size-suc n m a.0 _ size e ns in
      let (entry, zs', texts) = str_size-first codec s sizes a args arr h zs in
      let (mem1, e1, k1, at) =
        store_arg-ArgAt lib codec s arr a d h (small, omega arith, omega arith) entry in
      let d1 : Dump = record {
        mem = mem1;
        storage = d.storage + get_arg_size a.0;
        storage2 = d.storage2 + length (text_bytes s a);
      } in
      let (l1, _, _) = k1 in
      let (d', e2, lo, hi, end, k2, laid) =
        ih args _ d1 rest typed ns' zs' (omega arith, omega arith, omega arith) in
      (
        d',
        rw e1 e2,
        omega arith,
        omega arith,
        omega arith,
        Keeps-then d.storage d1.storage d'.storage d.storage2 d1.storage2 d'.storage2 d.mem mem1
            d'.mem (omega arith) lo (omega arith) (omega arith) k1 k2,
        (
          ArgAt-Keeps lib codec s a d.storage d.storage2 d'.storage d'.storage2 mem1 d'.mem
              (omega arith) (omega arith) k2 at,
          laid,
        ),
      )

  store_some-Dumps :
      (s : SpecInfo) (k n m : ℕ) (sizes : Args → Option (List ℕ))
      (run : List ℕ → Args → Dump → Option Dump) (place : MemPlace)
      → n ≡ suc (k + m)
      → Dumps m sizes run place
      → Dumps n
          (get_str_size s sizes k)
          (λ arr. store_some_args codec s run arr k)
          (λ mem. SomeLaid lib codec mem s (place mem) k)
  unfolding store_some_args get_str_size
  store_some-Dumps s zero n m sizes run place e ih args arr d size typed ns zs room =
      store_first-Dumps s n m sizes run place (omega arith) ih args arr d size typed ns zs room
  store_some-Dumps s (suc k) n m sizes run place e ih [] arr d size typed ns zs room =
      absurd (str_size-nil codec s sizes (suc k) arr zs)
  store_some-Dumps s (suc k) n m sizes run place e ih (a ∷ args) arr d size (h, typed) ns zs
        (small, le, room) =
      let (rest, ns', total) =
        get_n_args_size-suc n (suc (k + m)) a.0 (types args) size (omega arith) ns in
      let (mem1, e1, k1, at) = put_raw-DynamicAt lib codec a d h (omega arith) (omega arith) in
      let d1 : Dump = record d { mem = mem1; storage = d.storage + get_arg_size a.0 } in
      let (l1, _, _) = k1 in
      let (d', e2, lo, hi, end, k2, laid) =
        store_some-Dumps s k (suc (k + m)) m sizes run place refl ih args arr d1 rest typed ns' zs
          (omega arith, omega arith, omega arith) in
      (
        d',
        rw e1 e2,
        omega arith,
        omega arith,
        omega arith,
        Keeps-then d.storage d1.storage d'.storage d.storage2 d.storage2 d'.storage2 d.mem mem1
            d'.mem (omega arith) lo (omega arith) (omega arith) k1 k2,
        (
          DynamicAt-Keeps lib codec a d.storage d.storage2 d'.storage d'.storage2 mem1 d'.mem
              (omega arith) k2 at,
          laid,
        ),
      )

  pub store_args-Dumps :
      (ss : List SpecInfo)
      → Lettered ss
      → Dumps
          (count_args_required ss)
          (get_str_size_array ss)
          (store_args codec ss)
          (λ mem. Laid lib codec mem ss)
  unfolding store_args get_str_size_array count_args_required
  store_args-Dumps [] empty args arr d size typed ns zs room = absurd empty
  store_args-Dumps (s ∷ []) last args arr d size typed ns zs room = (
    d,
    refl,
    omega arith,
    omega arith,
    ground (arith, zs),
    (refl, (λ a b h c. refl), λ a b h h'. refl),
    _,
  )
  store_args-Dumps (s ∷ s' ∷ ss) (letter, more) args arr d size typed ns zs room =
      store_some-Dumps s (dynamic_args s) _ (count_args_required (s' ∷ ss)) _ _ _
        (args_of-letter s _ letter) (store_args-Dumps (s' ∷ ss) more) args arr d size typed ns zs
        room
