-- ===== src/Tests/Runtimes.antt =====
-- The staging buffers of two threads, one of which ends.
use constexpr_fmt_str.Prelude.{
  ℕ, ◌+◌, ◌≤◌, ◌≡◌, refl, true, some, List, [], ◌∷◌, arith, codes, replicate, take, length,
}
use constexpr_fmt_str.Spec.Pieces.{NoNul}
use constexpr_fmt_str.Entry.Load.{until_nul}
use constexpr_fmt_str.Staging.{Reservation, empty_staging, peek, peek_from}
use constexpr_fmt_str.Runtime.{
  ThreadBuffer, Runtime, initial_runtime, allocate_buffer, list_buffer, destroy_thread, new_buffer,
  set_name, get_name, get_elem?, scan, peek_buffer, reserve_alloc, set_thread_name,
}
use constexpr_fmt_str.Runtime.Names.{IsNamed, get_name-set_name}
use constexpr_fmt_str.Runtime.System.{
  process, paused, scanning, Reached, start, next, allocate, list_it, destroy, start_scan,
}
use constexpr_fmt_str.Runtime.Inv.{IsInUse, IsAllocated, IsFound}
use constexpr_fmt_str.Runtime.Safety.{InHand, Reached-Safe}
use constexpr_fmt_str.Runtime.Rounds.{scan-kept}
use constexpr_fmt_str.Runtime.Calls.{calls-Reached}

abbrev plain_buffer : ThreadBuffer
plain_buffer = record { name = replicate 16 0; staging = empty_staging 8 }

get_name-set_name_example :
    IsNamed (set_name (codes "a name that is too long") plain_buffer)
    × (get_name (set_name (codes "a name that is too long") plain_buffer)
        ≡ take 15 (until_nul (codes "a name that is too long")))
    × (length (get_name (set_name (codes "a name that is too long") plain_buffer)) ≤ 15)
    × NoNul (get_name (set_name (codes "a name that is too long") plain_buffer))
get_name-set_name_example =
    get_name-set_name (codes "a name that is too long") plain_buffer (refl, refl)

abbrev tid_name : ℕ → List ℕ
tid_name t = (b'0' + t) ∷ []

abbrev one_listed : Runtime
one_listed = list_buffer 8 tid_name 1 1 (allocate_buffer 8 tid_name 1 initial_runtime)

abbrev two_listed : Runtime
two_listed = list_buffer 8 tid_name 2 2 (allocate_buffer 8 tid_name 2 one_listed)

abbrev one_ended : Runtime
one_ended = destroy_thread 1 1 (new_buffer 8 tid_name 1) two_listed

one_ended-Reached : Reached 8 tid_name (process one_ended paused)
unfolding list_buffer allocate_buffer
one_ended-Reached =
    next
      (next
        (next
          (next (next start (allocate 1 initial_runtime paused refl))
            (list_it 1 1 (allocate_buffer 8 tid_name 1 initial_runtime) paused refl refl _))
          (allocate 2 one_listed paused refl))
        (list_it 2 2 (allocate_buffer 8 tid_name 2 one_listed) paused refl refl _))
      (destroy 1 1 (new_buffer 8 tid_name 1) two_listed paused refl refl refl)

Reached-Safe_example :
    ((t p : ℕ) → one_ended.staging_buffer t ≡ some p → IsInUse one_ended p)
    × ((t u p : ℕ)
        → one_ended.staging_buffer t ≡ some p
        → one_ended.staging_buffer u ≡ some p
        → t ≡ u)
    × ((i j p : ℕ)
        → get_elem? one_ended.thread_buffers i ≡ some p
        → get_elem? one_ended.thread_buffers j ≡ some p
        → i ≡ j)
    × ((p : ℕ) → IsAllocated one_ended p → IsFound one_ended p)
    × InHand (scanning 0) one_ended
Reached-Safe_example = Reached-Safe 8 tid_name (next one_ended-Reached (start_scan one_ended))

-- the buffer of the thread that ended is deleted
scan-kept_example :
    (r' : Runtime) × (scan 2 0 one_ended ≡ some (r', [])) × (r'.thread_buffers ≡ 2 ∷ [])
unfolding list_buffer allocate_buffer destroy_thread set_name peek_buffer peek peek_from
scan-kept_example = scan-kept 8 tid_name one_ended 2 one_ended-Reached (omega arith)

unset : (p : ℕ) → one_ended.staging_buffer 3 ≡ some p → one_ended.listed 3 ≡ true
unfolding destroy_thread list_buffer allocate_buffer
unset p h = ground (arith, h)

calls-Reached_example :
    ((res : Reservation) × (r' : Runtime) × (reserve_alloc 8 tid_name 3 2 [] one_ended
        ≡ some (res, r'))
      × Reached 8 tid_name (process r' paused))
    × ((r' : Runtime) × (set_thread_name 8 tid_name 3 (codes "third") one_ended ≡ some r')
        × Reached 8 tid_name (process r' paused))
calls-Reached_example =
    calls-Reached 8 tid_name 3 2 [] (codes "third") one_ended paused one_ended-Reached _ unset
