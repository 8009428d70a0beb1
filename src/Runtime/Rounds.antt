-- ===== src/Runtime/Rounds.antt =====
-- A scan of `poll_` that no other thread disturbs: it ends, and visits every buffer once.
use constexpr_fmt_str.Prelude.{
  ℕ, zero, suc, ◌≤◌, ◌≡◌, refl, sym, ap, ◌∙◌, inl, inr, true, false, Bool-cases, ◌&&◌, not, Option,
  none, some, List, [], ◌∷◌, ◌++◌, arith, length, append_assoc, length-append,
}
use constexpr_fmt_str.Staging.{consume, check_can_delete}
use constexpr_fmt_str.Runtime.{
  ThreadBuffer, Runtime, set, store, get_elem?, erase, peek_buffer, delete_buffer, check_buffer,
  scan,
}
use constexpr_fmt_str.Runtime.System.{process, paused, Reached}
use constexpr_fmt_str.Runtime.Safety.{Reached-Inv}
use constexpr_fmt_str.Runtime.Scan.{
  Heap, has_bytes, is_left, kept, handed, NotIn, Fresh, set-Fresh, set-kept, set-handed,
  get_elem?-middle, get_elem?-end, erase-middle,
}

-- how the rounds go on
scan-none :
    (rounds i : ℕ) (r : Runtime)
    → get_elem? r.thread_buffers i ≡ none
    → scan rounds i r ≡ some (r, [])
unfolding scan
scan-none zero i r h = rw (scan, h) refl
scan-none (suc n) i r h = rw (scan, h) refl

given : ℕ → ThreadBuffer → Runtime → Runtime
given p b r =
    let (bytes, b1) = peek_buffer b in
    store p (record b1 { staging = consume bytes b1.staging }) (store p b1 r)

scan-work :
    (rounds i p : ℕ) (b : ThreadBuffer) (r r' : Runtime) (hs : List (ℕ × ℕ))
    → get_elem? r.thread_buffers i ≡ some p
    → r.heap p ≡ some b
    → has_bytes b ≡ true
    → scan rounds (suc i) (given p b r) ≡ some (r', hs)
    → scan (suc rounds) i r ≡ some (r', (p, (peek_buffer b).0) ∷ hs)
unfolding scan given
scan-work rounds i p b r r' hs at there full rest = rw (scan, at, there, full, rest) refl

seen : ℕ → ThreadBuffer → Runtime → Runtime
seen p b r = store p (peek_buffer b).1 r

scan-remove :
    (rounds i p : ℕ) (b : ThreadBuffer) (r r' : Runtime) (hs : List (ℕ × ℕ))
    → get_elem? r.thread_buffers i ≡ some p
    → r.heap p ≡ some b
    → has_bytes b ≡ false
    → is_left b ≡ true
    → scan rounds i (delete_buffer i p (seen p b r)) ≡ some (r', hs)
    → scan (suc rounds) i r ≡ some (r', hs)
unfolding scan check_buffer check_can_delete seen
scan-remove rounds i p b r r' hs at there empty left rest =
    rw (scan, at, there, empty, left, rest) refl

scan-idle :
    (rounds i p : ℕ) (b : ThreadBuffer) (r r' : Runtime) (hs : List (ℕ × ℕ))
    → get_elem? r.thread_buffers i ≡ some p
    → r.heap p ≡ some b
    → has_bytes b ≡ false
    → is_left b ≡ false
    → scan rounds (suc i) (seen p b r) ≡ some (r', hs)
    → scan (suc rounds) i r ≡ some (r', hs)
unfolding scan check_buffer check_can_delete seen
scan-idle rounds i p b r r' hs at there empty stays rest =
    rw (scan, at, there, empty, stays, rest) refl

kept-stays :
    (heap : Heap) (p : ℕ) (b : ThreadBuffer) (ps : List ℕ)
    → heap p ≡ some b
    → (not (has_bytes b) && is_left b) ≡ false
    → kept heap (p ∷ ps) ≡ p ∷ kept heap ps
kept-stays heap p b ps there stays = rw (there, stays) refl

kept-goes :
    (heap : Heap) (p : ℕ) (b : ThreadBuffer) (ps : List ℕ)
    → heap p ≡ some b
    → (not (has_bytes b) && is_left b) ≡ true
    → kept heap (p ∷ ps) ≡ kept heap ps
kept-goes heap p b ps there goes = rw (there, goes) refl

handed-some :
    (heap : Heap) (p : ℕ) (b : ThreadBuffer) (ps : List ℕ)
    → heap p ≡ some b
    → has_bytes b ≡ true
    → handed heap (p ∷ ps) ≡ (p, (peek_buffer b).0) ∷ handed heap ps
handed-some heap p b ps there full = rw (there, full) refl

handed-none :
    (heap : Heap) (p : ℕ) (b : ThreadBuffer) (ps : List ℕ)
    → heap p ≡ some b
    → has_bytes b ≡ false
    → handed heap (p ∷ ps) ≡ handed heap ps
handed-none heap p b ps there empty = rw (there, empty) refl

-- what a scan leaves of a list of pointers behind `qs`, from the heap at its start
abbrev Scanned : ℕ → ℕ → List ℕ → List ℕ → Heap → Runtime → Type 0
Scanned rounds i qs ps heap r =
    (r' : Runtime) × (scan rounds i r ≡ some (r', handed heap ps))
    × (r'.thread_buffers ≡ qs ++ kept heap ps)

-- the list goes on behind a pointer that stays
scan-on :
    (rounds p : ℕ) (qs ps : List ℕ) (heap : Heap) (r : Runtime)
    → Scanned rounds (length (qs ++ (p ∷ []))) (qs ++ (p ∷ [])) ps heap r
    → (r' : Runtime) × (scan rounds (suc (length qs)) r ≡ some (r', handed heap ps))
      × (r'.thread_buffers ≡ qs ++ (p ∷ kept heap ps))
scan-on rounds p qs ps heap r (r', run, left) =
    let next : length (qs ++ (p ∷ [])) ≡ suc (length qs) =
      length-append qs (p ∷ []) ∙ omega arith in
    (r', ap (λ i. scan rounds i r) (sym next) ∙ run, left ∙ append_assoc qs (p ∷ []) (kept heap ps))

Scanned-set :
    (rounds i p : ℕ) (v : Option ThreadBuffer) (qs ps : List ℕ) (heap : Heap) (r : Runtime)
    → NotIn p ps
    → Scanned rounds i qs ps (set p v heap) r
    → Scanned rounds i qs ps heap r
Scanned-set rounds i p v qs ps heap r out (r', run, left) = (
  r',
  run ∙ ap (λ h. some (r', h)) (set-handed p v heap ps out),
  left ∙ ap (λ z. qs ++ z) (set-kept p v heap ps out),
)

scan-all :
    (ps : List ℕ) (rounds : ℕ) (qs : List ℕ) (r : Runtime)
    → r.thread_buffers ≡ qs ++ ps
    → Fresh r.heap ps
    → length ps ≤ rounds
    → Scanned rounds (length qs) qs ps r.heap r
unfolding Fresh given seen delete_buffer
scan-all [] rounds qs r list fresh enough =
    let past = ap (λ ps. get_elem? ps (length qs)) list ∙ get_elem?-end qs in
    (r, scan-none rounds (length qs) r past, list)
scan-all (p ∷ ps) zero qs r list fresh enough = absurd (omega arith)
scan-all (p ∷ ps) (suc rounds) qs r list ((b, there), out, fresh) enough =
    let at = ap (λ ps. get_elem? ps (length qs)) list ∙ get_elem?-middle qs p ps in
    let list' : r.thread_buffers ≡ (qs ++ (p ∷ [])) ++ ps =
      list ∙ sym (append_assoc qs (p ∷ []) ps) in
    elim (Bool-cases (has_bytes b)) [
      | inl full ↦
          let (bytes, b1) = peek_buffer b in
          let v2 = some (record b1 { staging = consume bytes b1.staging }) in
          let (r', run, left) = scan-on rounds p qs ps r.heap (given p b r) (
            Scanned-set rounds _ p (some b1) (qs ++ (p ∷ [])) ps r.heap (given p b r) out (
              Scanned-set rounds _ p v2 (qs ++ (p ∷ [])) ps (set p (some b1) r.heap) (given p b r)
                out
                (scan-all ps rounds (qs ++ (p ∷ [])) (given p b r) list'
                  (set-Fresh p v2 _ ps out (set-Fresh p (some b1) r.heap ps out fresh))
                  (omega arith)))) in
          (
            r',
            scan-work rounds (length qs) p b r r' (handed r.heap ps) at there full run
                ∙ ap (λ h. some (r', h)) (sym (handed-some r.heap p b ps there full)),
            left ∙ ap (λ z. qs ++ z) (sym (kept-stays r.heap p b ps there (rw full refl))),
          )
      | inr empty ↦ elim (Bool-cases (is_left b)) [
        | inl gone ↦
            let v1 = some (peek_buffer b).1 in
            let r1 = delete_buffer (length qs) p (seen p b r) in
            let (r', run, left) = Scanned-set rounds (length qs) p v1 qs ps r.heap r1 out (
              Scanned-set rounds (length qs) p none qs ps (set p v1 r.heap) r1 out (
                scan-all ps rounds qs r1 (ap (λ z. erase z (length qs)) list ∙ erase-middle qs p ps)
                  (set-Fresh p none _ ps out (set-Fresh p v1 r.heap ps out fresh))
                  (omega arith))) in
            (
              r',
              scan-remove rounds (length qs) p b r r' (handed r.heap ps) at there empty gone run
                  ∙ ap (λ h. some (r', h)) (sym (handed-none r.heap p b ps there empty)),
              left
                  ∙ ap (λ z. qs ++ z) (sym (kept-goes r.heap p b ps there (rw (empty, gone) refl))),
            )
        | inr stays ↦
            let v1 = some (peek_buffer b).1 in
            let (r', run, left) = scan-on rounds p qs ps r.heap (seen p b r) (
              Scanned-set rounds _ p v1 (qs ++ (p ∷ [])) ps r.heap (seen p b r) out (
                scan-all ps rounds (qs ++ (p ∷ [])) (seen p b r) list'
                  (set-Fresh p v1 r.heap ps out fresh) (omega arith))) in
            (
              r',
              scan-idle rounds (length qs) p b r r' (handed r.heap ps) at there empty stays run
                  ∙ ap (λ h. some (r', h)) (sym (handed-none r.heap p b ps there empty)),
              left
                  ∙ ap (λ z. qs ++ z)
                      (sym (kept-stays r.heap p b ps there (rw (empty, stays) refl))),
            )
      ]
    ]

Fresh-once :
    (heap : Heap) (ps : List ℕ)
    → ((i p : ℕ) → get_elem? ps i ≡ some p → (b : ThreadBuffer) × (heap p ≡ some b))
    → ((i j p : ℕ) → get_elem? ps i ≡ some p → get_elem? ps j ≡ some p → i ≡ j)
    → Fresh heap ps
unfolding Fresh
Fresh-once heap [] there once = _
Fresh-once heap (p ∷ ps) there once = (
  there 0 p refl,
  (λ i h. let e = once 0 (suc i) p refl h in omega arith),
  Fresh-once heap ps (λ i q h. there (suc i) q h)
      λ i j q h k. let e = once (suc i) (suc j) q h k in omega arith,
)

-- In every state that the threads reach between two scans, a scan of `poll_` that no other thread disturbs ends within a
-- round for each buffer, for all its erasures from the list that it walks through: it hands every buffer that has bytes
-- to the sink, once and in the order of the list, drops from the list exactly those that have none and whose thread has
-- ended, and leaves the others in their order.
pub scan-kept :
    (size : ℕ) (tid_name : ℕ → List ℕ) (r : Runtime) (rounds : ℕ)
    → Reached size tid_name (process r paused)
    → length r.thread_buffers ≤ rounds
    → (r' : Runtime) × (scan rounds 0 r ≡ some (r', handed r.heap r.thread_buffers))
      × (r'.thread_buffers ≡ kept r.heap r.thread_buffers)
scan-kept size tid_name r rounds reached enough =
    let (inv, round) = Reached-Inv size tid_name reached in
    scan-all r.thread_buffers rounds [] r refl
      (Fresh-once r.heap r.thread_buffers inv.allocated inv.once) enough
